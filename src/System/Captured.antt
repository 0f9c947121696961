-- ===== src/System/Captured.antt =====
-- Captures keep every key of the queue and add their own.
use opa_security_awareness_a.Common.{
  suc, zero, ◌+◌, get_or, ◌-◌, length-drop, All, All-map, ℕ, ◌≡◌, refl, sym, ap, subst, ◌∙◌, ◌⊎◌,
  inl, inr, true, ◌||◌, List, [], ◌∷◌, ◌++◌, drop, length, ok, arith, Bool-cases,
}
use opa_security_awareness_a.Common.Text.{Text, text_eq_refl}
use opa_security_awareness_a.JourneyQueue.Store.{
  Row, Store, TrackedFix, count, has_key, insert_or_ignore, advance_sequence, evict_oldest,
  get_capture_sequence,
}
use opa_security_awareness_a.JourneyQueue.Write.{
  EnqueueInput, EnqueueOptions, Mutation, enqueue, BatchItem, BatchResult, batch_fix, insert_rows,
  insert_chunks, finish_batch, trim_to_depth, write_batch, enqueue_batch, capture_sequences,
}
use opa_security_awareness_a.JourneyQueue.Batch.{insert_chunks-eq-insert_rows}
use opa_security_awareness_a.JourneyQueue.Valid.{DistinctKeys, DistinctKeys-append}
use opa_security_awareness_a.JourneyQueue.Bounds.{
  enqueue_known_key, enqueue_new_key, insert_or_ignore_cases, new_row,
}
use opa_security_awareness_a.System.Network.{Captures, quiet, one, many, batch_keys}

has_key-append_left :
    (k : Text) (xs ys : List Row) → has_key k (xs ++ ys) ≡ has_key k xs || has_key k ys
unfolding has_key
has_key-append_left k [] ys = refl
has_key-append_left k (x ∷ xs) ys = ground (arith, has_key-append_left k xs ys)

-- A capture that drops nothing keeps every key, adds its own, and keeps the keys distinct.
pub enqueue-keys :
    (input : EnqueueInput) (o : EnqueueOptions) (s : Store) {m : Mutation} {s' : Store}
    → DistinctKeys s.rows
    → enqueue input o s ≡ ok (m, s')
    → m.dropped ≡ 0
    → DistinctKeys s'.rows
      × (has_key input.fix.idempotency_key s'.rows ≡ true)
      × ((k : Text) → has_key k s.rows ≡ true → has_key k s'.rows ≡ true)
enqueue-keys input o s {m} {s'} d h none' =
    elim (Bool-cases (has_key input.fix.idempotency_key s.rows)) [
      | inl known ↦
          let (_, rows) = enqueue_known_key input o s {m = m} {s' = s'} known h in
          let same : s'.rows ≡ s.rows = rows ∙ ap (λ n. drop n s.rows) none' in
          (
            subst DistinctKeys (sym same) d,
            ap (has_key input.fix.idempotency_key) same ∙ known,
            λ k e. ap (has_key k) same ∙ e,
          )
      | inr new ↦
          let r : Row = record {
            queue_id = s.next_id;
            session_id = input.session_id;
            fix = input.fix;
          } in
          let (_, rows, _) = enqueue_new_key input o s {m = m} {s' = s'} new h in
          let same : s'.rows ≡ s.rows ++ r ∷ [] =
            rows ∙ ap (λ n. drop n (s.rows ++ r ∷ [])) none' in
          (
            subst DistinctKeys (sym same) (DistinctKeys-append s.rows r d new),
            ap (has_key input.fix.idempotency_key) same
                ∙ has_key-append_left input.fix.idempotency_key s.rows (r ∷ [])
                ∙ unfold has_key in ground (arith, text_eq_refl input.fix.idempotency_key),
            λ k e. ap (has_key k) same ∙ has_key-append_left k s.rows (r ∷ []) ∙ ground (arith, e),
          )
    ]

insert_or_ignore-keys :
    (session : Text) (fix : TrackedFix) (s : Store)
    → DistinctKeys s.rows
    → DistinctKeys (insert_or_ignore session fix s).1.rows
      × (has_key fix.idempotency_key (insert_or_ignore session fix s).1.rows ≡ true)
      × ((k : Text)
          → has_key k s.rows ≡ true
          → has_key k (insert_or_ignore session fix s).1.rows ≡ true)
insert_or_ignore-keys session fix s d = elim (insert_or_ignore_cases session fix s) [
  | inl (known, e) ↦ rw e (d, known, λ k h. h)
  | inr (new, e) ↦ rw e (
    DistinctKeys-append s.rows (new_row session fix s) d new,
    has_key-append_left fix.idempotency_key s.rows (new_row session fix s ∷ [])
        ∙ unfold has_key in ground (arith, text_eq_refl fix.idempotency_key),
    λ k h. has_key-append_left k s.rows (new_row session fix s ∷ []) ∙ ground (arith, h),
  )
]

-- The keys of a store that holds all those of another, and more.
abbrev Grown : List Text → Store → Store → Type 0
Grown new s s' =
    DistinctKeys s'.rows
    × All (λ k. has_key k s'.rows ≡ true) new
    × ((k : Text) → has_key k s.rows ≡ true → has_key k s'.rows ≡ true)

insert_rows-Grown :
    (session : Text) (n : ℕ) (items : List BatchItem) (s : Store)
    → DistinctKeys s.rows
    → Grown (batch_keys session n items) s (insert_rows session n items s).1
unfolding insert_rows batch_fix
insert_rows-Grown session n [] s d = (d, tt, λ k h. h)
insert_rows-Grown session n (i ∷ is) s d =
    let (d', new, old) = insert_or_ignore-keys session (batch_fix session i (suc n)) s d in
    let (d'', rest, kept) =
      insert_rows-Grown session (suc n) is
        (insert_or_ignore session (batch_fix session i (suc n)) s).1 d' in
    (d'', (kept _ new, rest), λ k h. kept k (old k h))

drop_nothing : (n : ℕ) (xs : List Row) → length xs - length (drop n xs) ≡ 0 → drop n xs ≡ xs
drop_nothing zero xs h = refl
drop_nothing (suc n) [] h = refl
drop_nothing (suc n) (x ∷ xs) h = absurd (omega (arith, h, length-drop n xs))

finish_batch-rows :
    (o : EnqueueOptions) (n : ℕ) (ns : List ℕ) (s : Store) {r : BatchResult} {s' : Store}
    → finish_batch o n ns s ≡ ok (r, s')
    → r.dropped ≡ 0
    → s'.rows ≡ s.rows
unfolding finish_batch trim_to_depth evict_oldest count
finish_batch-rows o n ns s h z =
    ground (arith, drop_nothing (length s.rows - o.max_queued_fixes) s.rows)

write_batch-Grown :
    (session : Text) (items : List BatchItem) (o : EnqueueOptions) (s : Store) {r : BatchResult}
    {s' : Store}
    → DistinctKeys s.rows
    → write_batch session items o s ≡ ok (r, s')
    → r.dropped ≡ 0
    → Grown (batch_keys session (get_capture_sequence s) items) s s'
unfolding write_batch get_capture_sequence
write_batch-Grown session items o s {r} {s'} d h z =
    let start = get_or s.capture_sequence 0 in
    let t = advance_sequence (start + length items) s in
    let written = insert_chunks (length items) session start items t in
    let kept : s'.rows ≡ written.1.rows =
      finish_batch-rows o written.0 (capture_sequences start items) written.1 {r = r} {s' = s'}
        (ground arith) z in
    let whole : s'.rows ≡ (insert_rows session start items t).1.rows =
      kept
      ∙ ap (λ x. x.1.rows)
          (insert_chunks-eq-insert_rows (length items) session start items t (omega arith)) in
    let d' : DistinctKeys t.rows = unfold advance_sequence in d in
    let (a, b, c) = insert_rows-Grown session start items t d' in
    subst
      (λ (rs : List Row).
        DistinctKeys rs
        × All (λ k. has_key k rs ≡ true) (batch_keys session start items)
        × ((k : Text) → has_key k s.rows ≡ true → has_key k rs ≡ true))
      (sym whole) (a, b, λ k e. c k (unfold advance_sequence in e))

enqueue_batch-Grown :
    (session : Text) (items : List BatchItem) (o : EnqueueOptions) (s : Store) {r : BatchResult}
    {s' : Store}
    → DistinctKeys s.rows
    → enqueue_batch session items o s ≡ ok (r, s')
    → r.dropped ≡ 0
    → Grown (batch_keys session (get_capture_sequence s) items) s s'
unfolding enqueue_batch
enqueue_batch-Grown session [] o s {r} {s'} d h z =
    let same : s ≡ s' = ground arith in subst (Grown [] s) same (d, tt, λ k e. e)
enqueue_batch-Grown session (i ∷ is) o s {r} {s'} d h z =
    write_batch-Grown session (i ∷ is) o s {r = r} {s' = s'} d (ground arith) z

All-append : (P : Text → Type 0) (xs ys : List Text) → All P xs → All P ys → All P (xs ++ ys)
All-append P [] ys a b = b
All-append P (x ∷ xs) ys a b = (a.0, All-append P xs ys a.1 b)

-- What captures keep of a property of keys that the queue's own keys have.
pub captures-kept :
    (P : Text → Type 0) (keys : List Text) (s : Store) (keys' : List Text) (s' : Store)
    → DistinctKeys s.rows
    → All (λ k. (has_key k s.rows ≡ true) ⊎ P k) keys
    → Captures keys s keys' s'
    → DistinctKeys s'.rows × All (λ k. (has_key k s'.rows ≡ true) ⊎ P k) keys'
captures-kept P keys s _ _ d a quiet = (d, a)
captures-kept P keys s _ _ d a (one keys' t input o m t' c h z) =
    let (d', a') = captures-kept P keys s keys' t d a c in
    let (d'', new, old) = enqueue-keys input o t {m = m} {s' = t'} d' h z in
    (
      d'',
      (
        inl new,
        All-map (λ k. (has_key k t.rows ≡ true) ⊎ P k) (λ k. (has_key k t'.rows ≡ true) ⊎ P k)
            (λ k e. elim e [ inl q ↦ inl (old k q) | inr p ↦ inr p ]) keys' a',
      ),
    )
captures-kept P keys s _ _ d a (many keys' t session items o r t' c h z) =
    let (d', a') = captures-kept P keys s keys' t d a c in
    let (d'', new, old) = enqueue_batch-Grown session items o t {r = r} {s' = t'} d' h z in
    let kept : Text → Type 0 = λ k. (has_key k t'.rows ≡ true) ⊎ P k in
    (
      d'',
      All-append kept (batch_keys session (get_capture_sequence t) items) keys'
          (All-map (λ k. has_key k t'.rows ≡ true) kept (λ k e. inl e)
            (batch_keys session (get_capture_sequence t) items) new)
          (All-map (λ k. (has_key k t.rows ≡ true) ⊎ P k) kept
            (λ k e. elim e [ inl q ↦ inl (old k q) | inr p ↦ inr p ]) keys' a'),
    )
