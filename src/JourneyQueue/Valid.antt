-- ===== src/JourneyQueue/Valid.antt =====
-- What holds of the queue between two calls: distinct keys, ascending ids below the next one.
use opa_security_awareness_a.Common.{
  ℕ, zero, suc, ◌+◌, ◌-◌, ◌≤◌, ◌≡◌, refl, inl, inr, Bool, false, List, [], ◌∷◌, ◌++◌, length, take,
  drop, keep, get_or, arith, Bool-cases, ok,
}
use opa_security_awareness_a.Common.Text.{Text, text_eq, text_eq_iff}
use opa_security_awareness_a.JourneyQueue.Store.{
  Row, TrackedFix, Store, has_key, insert_or_ignore, advance_sequence, evict_oldest,
}
use opa_security_awareness_a.JourneyQueue.Write.{
  EnqueueInput, EnqueueOptions, Mutation, enforce_depth, enqueue, trim_to_depth, Trim, BatchItem,
  BatchResult, insert_rows, insert_chunks, insert_chunk_size, finish_batch, write_batch,
  enqueue_batch, capture_sequences,
}

abbrev pub DistinctKeys : List Row → Type 0
DistinctKeys [] = Unit
DistinctKeys (r ∷ rs) = (has_key r.idempotency_key rs ≡ false) × DistinctKeys rs

-- The ids ascend, from `low` on and below `high`.
abbrev pub Ascending : ℕ → List Row → ℕ → Type 0
Ascending low [] high = low ≤ high
Ascending low (r ∷ rs) high = (low ≤ r.queue_id) × Ascending (suc r.queue_id) rs high

pub record IsValid (s : Store) : Type 0 where
  pub distinct : DistinctKeys s.rows
  pub ascending : Ascending 0 s.rows s.next_id

pub has_key-append :
    (k : Text) (xs : List Row) (r : Row)
    → has_key k xs ≡ false
    → text_eq r.idempotency_key k ≡ false
    → has_key k (xs ++ r ∷ []) ≡ false
unfolding has_key
has_key-append k [] r h e = ground arith
has_key-append k (x ∷ xs) r h e = ground (arith, has_key-append k xs r)

text_eq_comm : (a b : Text) → text_eq a b ≡ false → text_eq b a ≡ false
text_eq_comm a b h = elim (Bool-cases (text_eq b a)) [
  | inl e ↦ ground (arith, text_eq_iff a b, text_eq_iff b a)
  | inr e ↦ e
]

pub DistinctKeys-append :
    (xs : List Row) (r : Row)
    → DistinctKeys xs
    → has_key r.idempotency_key xs ≡ false
    → DistinctKeys (xs ++ r ∷ [])
unfolding has_key
DistinctKeys-append [] r d h = (refl, tt)
DistinctKeys-append (x ∷ xs) r d h = (
  has_key-append x.idempotency_key xs r d.0
      (text_eq_comm x.idempotency_key r.idempotency_key (ground arith)),
  DistinctKeys-append xs r d.1 (ground arith),
)

Ascending-append :
    (low : ℕ) (xs : List Row) (r : Row) (high : ℕ)
    → Ascending low xs high
    → r.queue_id ≡ high
    → Ascending low (xs ++ r ∷ []) (suc high)
Ascending-append low [] r high a e = omega arith
Ascending-append low (x ∷ xs) r high a e = (a.0, Ascending-append (suc x.queue_id) xs r high a.1 e)

pub Ascending-weaken :
    (low low' : ℕ) (xs : List Row) (high : ℕ)
    → low ≤ low'
    → Ascending low' xs high
    → Ascending low xs high
Ascending-weaken low low' [] high h a = omega arith
Ascending-weaken low low' (x ∷ xs) high h a = (omega arith, a.1)

pub DistinctKeys-drop : (n : ℕ) (xs : List Row) → DistinctKeys xs → DistinctKeys (drop n xs)
DistinctKeys-drop zero xs d = d
DistinctKeys-drop (suc n) [] d = d
DistinctKeys-drop (suc n) (x ∷ xs) d = DistinctKeys-drop n xs d.1

Ascending-drop :
    (n low : ℕ) (xs : List Row) (high : ℕ) → Ascending low xs high → Ascending low (drop n xs) high
Ascending-drop zero low xs high a = a
Ascending-drop (suc n) low [] high a = a
Ascending-drop (suc n) low (x ∷ xs) high a =
    Ascending-drop n low xs high (Ascending-weaken low (suc x.queue_id) xs high (omega arith) a.1)

pub has_key-keep :
    (k : Text) (p : Row → Bool) (xs : List Row)
    → has_key k xs ≡ false
    → has_key k (keep p xs) ≡ false
unfolding has_key
has_key-keep k p [] h = refl
has_key-keep k p (x ∷ xs) h = ground (arith, has_key-keep k p xs)

pub DistinctKeys-keep :
    (p : Row → Bool) (xs : List Row) → DistinctKeys xs → DistinctKeys (keep p xs)
DistinctKeys-keep p [] d = tt
DistinctKeys-keep p (x ∷ xs) d =
    ground (arith, has_key-keep x.idempotency_key p xs d.0, DistinctKeys-keep p xs d.1)

pub has_key-drop :
    (k : Text) (n : ℕ) (xs : List Row) → has_key k xs ≡ false → has_key k (drop n xs) ≡ false
unfolding has_key
has_key-drop k zero xs h = h
has_key-drop k (suc n) [] h = h
has_key-drop k (suc n) (x ∷ xs) h = has_key-drop k n xs (ground arith)

pub Ascending-keep :
    (p : Row → Bool) (low : ℕ) (xs : List Row) (high : ℕ)
    → Ascending low xs high
    → Ascending low (keep p xs) high
Ascending-keep p low [] high a = a
Ascending-keep p low (x ∷ xs) high a = elim (Bool-cases (p x)) [
  | inl e ↦ rw e (a.0, Ascending-keep p (suc x.queue_id) xs high a.1)
  | inr e ↦ rw e (
      Ascending-keep p low xs high
        (Ascending-weaken low (suc x.queue_id) xs high (omega arith) a.1))
]

pub insert_or_ignore-IsValid :
    (session : Text) (fix : TrackedFix) (s : Store)
    → IsValid s
    → IsValid (insert_or_ignore session fix s).1
unfolding insert_or_ignore
insert_or_ignore-IsValid session fix s v = elim (Bool-cases (has_key fix.idempotency_key s.rows)) [
  | inl e ↦ rw e v
  | inr e ↦ rw e (record {
    distinct = DistinctKeys-append s.rows _ v.distinct e;
    ascending = Ascending-append 0 s.rows _ s.next_id v.ascending refl;
  })
]

pub evict_oldest-IsValid : (n : ℕ) (s : Store) → IsValid s → IsValid (evict_oldest n s).1
unfolding evict_oldest
evict_oldest-IsValid n s v = record {
  distinct = DistinctKeys-drop n s.rows v.distinct;
  ascending = Ascending-drop n 0 s.rows s.next_id v.ascending;
}

pub advance_sequence-IsValid : (n : ℕ) (s : Store) → IsValid s → IsValid (advance_sequence n s)
unfolding advance_sequence
advance_sequence-IsValid n s v = record { distinct = v.distinct; ascending = v.ascending }

pub enforce_depth-IsValid :
    (o : EnqueueOptions) (b : Bool) (s : Store) → IsValid s → IsValid (enforce_depth o b s).1
unfolding enforce_depth
enforce_depth-IsValid o b s v =
    ground (arith, evict_oldest-IsValid (length s.rows - o.max_queued_fixes) s v)

-- An enqueue that returns leaves a valid queue.
pub enqueue-IsValid :
    (input : EnqueueInput) (o : EnqueueOptions) (s : Store) {m : Mutation} {s' : Store}
    → IsValid s
    → enqueue input o s ≡ ok (m, s')
    → IsValid s'
unfolding enqueue
enqueue-IsValid input o s v h =
    let written = insert_or_ignore input.session_id input.fix s in
    ground (
      arith,
      enforce_depth-IsValid o written.0 (advance_sequence input.capture_sequence written.1) (
          advance_sequence-IsValid input.capture_sequence written.1
            (insert_or_ignore-IsValid input.session_id input.fix s v)),
    )

pub trim_to_depth-IsValid :
    (limit : ℕ) (s : Store) {t : Trim} {s' : Store}
    → IsValid s
    → trim_to_depth limit s ≡ ok (t, s')
    → IsValid s'
unfolding trim_to_depth
trim_to_depth-IsValid limit s v h = ground (arith, evict_oldest-IsValid (length s.rows - limit) s v)

pub insert_rows-IsValid :
    (session : Text) (n : ℕ) (items : List BatchItem) (s : Store)
    → IsValid s
    → IsValid (insert_rows session n items s).1
unfolding insert_rows
insert_rows-IsValid session n [] s v = v
insert_rows-IsValid session n (i ∷ is) s v =
    insert_rows-IsValid session (suc n) is _ (insert_or_ignore-IsValid session _ s v)

pub insert_chunks-IsValid :
    (fuel : ℕ) (session : Text) (n : ℕ) (items : List BatchItem) (s : Store)
    → IsValid s
    → IsValid (insert_chunks fuel session n items s).1
unfolding insert_chunks
insert_chunks-IsValid zero session n items s v = v
insert_chunks-IsValid (suc fuel) session n [] s v = v
insert_chunks-IsValid (suc fuel) session n (i ∷ is) s v =
    insert_chunks-IsValid fuel session _ (drop insert_chunk_size (i ∷ is)) _
      (insert_rows-IsValid session n (take insert_chunk_size (i ∷ is)) s v)

finish_batch-IsValid :
    (o : EnqueueOptions) (n : ℕ) (ns : List ℕ) (s : Store) {r : BatchResult} {s' : Store}
    → IsValid s
    → finish_batch o n ns s ≡ ok (r, s')
    → IsValid s'
unfolding finish_batch trim_to_depth
finish_batch-IsValid o n ns s v h =
    ground (arith, evict_oldest-IsValid (length s.rows - o.max_queued_fixes) s v)

-- A batch that returns leaves a valid queue.
pub enqueue_batch-IsValid :
    (session : Text) (items : List BatchItem) (o : EnqueueOptions) (s : Store) {r : BatchResult}
    {s' : Store}
    → IsValid s
    → enqueue_batch session items o s ≡ ok (r, s')
    → IsValid s'
unfolding enqueue_batch write_batch
enqueue_batch-IsValid session items o s {r} {s'} v h =
    let reserved = advance_sequence (get_or s.capture_sequence 0 + length items) s in
    let written =
      insert_chunks (length items) session (get_or s.capture_sequence 0) items reserved in
    ground (
      arith,
      finish_batch-IsValid o written.0 (capture_sequences (get_or s.capture_sequence 0) items)
          written.1 {r = r} {s' = s'}
          (insert_chunks-IsValid (length items) session (get_or s.capture_sequence 0) items reserved
            (advance_sequence-IsValid _ s v)),
    )
