-- ===== src/JourneyQueue/Batch.antt =====
-- The batched write of journey-queue-store.ts: chunks, reserved sequence numbers and fresh keys.
use opa_security_awareness_a.Common.{
  ℕ, zero, suc, ◌+◌, ◌-◌, ◌≤◌, ◌<◌, ◌≡◌, ◌≢◌, refl, sym, ap, ◌∙◌, inl, inr, true, false, List, [],
  ◌∷◌, ◌++◌, length, take, drop, get_or, arith, Bool-cases, ok, length-drop, length-append, subst,
  take_cases, take-append-drop,
}
use opa_security_awareness_a.Common.Text.{
  Text, text_eq, text_eq_sound, colon, decimal, decimal-injective, decimal-no_colon,
  after_colon-injective,
}
use opa_security_awareness_a.JourneyQueue.Store.{
  Row, Store, has_key, insert_or_ignore, advance_sequence, evict_oldest, count,
  get_capture_sequence,
}
use opa_security_awareness_a.JourneyQueue.Write.{
  EnqueueOptions, trim_to_depth, BatchItem, BatchResult, insert_rows, insert_chunks, finish_batch,
  write_batch, enqueue_batch, capture_sequences, batch_key, batch_fix,
}
use opa_security_awareness_a.JourneyQueue.Valid.{has_key-append, has_key-drop}
use opa_security_awareness_a.JourneyQueue.Bounds.{
  new_row, sub-sub, insert_or_ignore_cases, insert_or_ignore-sequence,
}

-- The sequence number can be read back from a key.
pub batch_key-sequence : (a b : Text) (t u n m : ℕ) → batch_key a t n ≡ batch_key b u m → n ≡ m
unfolding batch_key
batch_key-sequence a b t u n m h = decimal-injective n m (
    after_colon-injective (a ++ colon ∷ decimal t) (b ++ colon ∷ decimal u) (decimal n) (decimal m)
      (decimal-no_colon n) (decimal-no_colon m) h)

batch_key-ne :
    (a b : Text) (t u n m : ℕ) → n ≢ m → text_eq (batch_key a t n) (batch_key b u m) ≡ false
batch_key-ne a b t u n m d = elim (Bool-cases (text_eq (batch_key a t n) (batch_key b u m))) [
  | inl e ↦ absurd (d (batch_key-sequence a b t u n m (text_eq_sound _ _ e)))
  | inr e ↦ e
]

-- No key of the table carries a sequence number above `n`.
abbrev pub Reserved : ℕ → List Row → Type 0
Reserved n rows =
    (session : Text) (at seq : ℕ) → n < seq → has_key (batch_key session at seq) rows ≡ false

Reserved-mono : (n m : ℕ) (rows : List Row) → n ≤ m → Reserved n rows → Reserved m rows
Reserved-mono n m rows h r = λ session at seq k. r session at seq (omega arith)

Reserved-new :
    (n : ℕ) (session : Text) (i : BatchItem) (s : Store)
    → Reserved n s.rows
    → Reserved (suc n) (s.rows ++ new_row session (batch_fix session i (suc n)) s ∷ [])
unfolding batch_fix
Reserved-new n session i s r = λ session' at seq k.
    has_key-append (batch_key session' at seq) s.rows _ (r session' at seq (omega arith))
      (batch_key-ne session session' i.captured_at_ms at (suc n) seq (omega arith))

insert_new :
    (n : ℕ) (session : Text) (i : BatchItem) (s : Store)
    → Reserved n s.rows
    → insert_or_ignore session (batch_fix session i (suc n)) s ≡ (
      true,
      record s {
        rows = s.rows ++ new_row session (batch_fix session i (suc n)) s ∷ [];
        next_id = suc s.next_id;
      },
    )
unfolding batch_fix
insert_new n session i s r = elim (insert_or_ignore_cases session (batch_fix session i (suc n)) s) [
  | inl (k, _) ↦ cc (r session i.captured_at_ms (suc n) (omega arith))
  | inr (_, e) ↦ e
]

-- Above the reserved numbers every row of a statement is written, none is ignored.
insert_rows-all :
    (session : Text) (n : ℕ) (items : List BatchItem) (s : Store)
    → Reserved n s.rows
    → ((insert_rows session n items s).0 ≡ length items)
      × Reserved (n + length items) (insert_rows session n items s).1.rows
      × (length (insert_rows session n items s).1.rows ≡ length s.rows + length items)
unfolding insert_rows
insert_rows-all session n [] s r =
    (refl, Reserved-mono n (n + 0) s.rows (omega arith) r, omega arith)
insert_rows-all session n (i ∷ is) s r = rw (insert_new n session i s r) (
    let s' : Store = record s {
      rows = s.rows ++ new_row session (batch_fix session i (suc n)) s ∷ [];
      next_id = suc s.next_id;
    } in
    let (all, above, len) = insert_rows-all session (suc n) is s' (Reserved-new n session i s r) in
    (
      ap suc all,
      Reserved-mono _ _ _ (omega arith) above,
      omega
          (arith, len, length-append s.rows (new_row session (batch_fix session i (suc n)) s ∷ [])),
    ))

shift : (n k : ℕ) → suc n + k ≡ n + suc k
shift n k = omega arith

insert_rows-append :
    (session : Text) (n : ℕ) (xs ys : List BatchItem) (s : Store)
    → insert_rows session n (xs ++ ys) s ≡ (
      (insert_rows session n xs s).0
          + (insert_rows session (n + length xs) ys (insert_rows session n xs s).1).0,
      (insert_rows session (n + length xs) ys (insert_rows session n xs s).1).1,
    )
unfolding insert_rows
insert_rows-append session n [] ys s = ground arith
insert_rows-append session n (x ∷ xs) ys s =
    let (b, s') = insert_or_ignore session (batch_fix session x (suc n)) s in
    ground (
      arith,
      insert_rows-append session (suc n) xs ys s',
      ap (λ k. insert_rows session k ys (insert_rows session (suc n) xs s').1)
          (shift n (length xs)),
    )

-- A chunk of `k` items and the rest, which are numbered on from there.
insert_rows-split :
    (k : ℕ) (session : Text) (n : ℕ) (xs : List BatchItem) (s : Store)
    → ◌≡◌ {A = ℕ × Store}
        (
          (insert_rows session n (take k xs) s).0
              + (insert_rows session (n + k) (drop k xs) (insert_rows session n (take k xs) s).1).0,
          (insert_rows session (n + k) (drop k xs) (insert_rows session n (take k xs) s).1).1,
        )
        (insert_rows session n xs s)
insert_rows-split k session n xs s = elim (take_cases k xs) [
  | inl e ↦
      subst
        (λ m.
          ◌≡◌ {A = ℕ × Store}
            (
              (insert_rows session n (take k xs) s).0
                  + (insert_rows session (n + m) (drop k xs)
                      (insert_rows session n (take k xs) s).1).0,
              (insert_rows session (n + m) (drop k xs) (insert_rows session n (take k xs) s).1).1,
            )
            (insert_rows session n xs s))
        e
        (sym (insert_rows-append session n (take k xs) (drop k xs) s)
          ∙ ap (λ ys. insert_rows session n ys s) (take-append-drop k xs))
  | inr (e, f) ↦ rw (e, f) (unfold insert_rows in ground arith)
]

insert_chunks-empty :
    (fuel : ℕ) (session : Text) (n : ℕ) (s : Store) → insert_chunks fuel session n [] s ≡ (0, s)
unfolding insert_chunks
insert_chunks-empty zero session n s = refl
insert_chunks-empty (suc fuel) session n s = refl

-- Writing in chunks of one hundred writes what one statement over all the items would.
pub insert_chunks-eq-insert_rows :
    (fuel : ℕ) (session : Text) (n : ℕ) (items : List BatchItem) (s : Store)
    → length items ≤ fuel
    → insert_chunks fuel session n items s ≡ insert_rows session n items s
unfolding insert_chunks
insert_chunks-eq-insert_rows zero session n [] s h = unfold insert_rows in refl
insert_chunks-eq-insert_rows zero session n (i ∷ is) s h = elim h [ ]
insert_chunks-eq-insert_rows (suc fuel) session n [] s h = unfold insert_rows in refl
insert_chunks-eq-insert_rows (suc fuel) session n (i ∷ is) s h =
    let s' = (insert_rows session n (take 100 (i ∷ is)) s).1 in
    cc (
      insert_rows-split 100 session n (i ∷ is) s,
      insert_chunks-eq-insert_rows fuel session (n + 100) (drop 100 (i ∷ is)) s'
          (omega (arith, length-drop 100 (i ∷ is))),
    )

capture_sequences-length :
    (n : ℕ) (items : List BatchItem) → length (capture_sequences n items) ≡ length items
unfolding capture_sequences
capture_sequences-length n [] = refl
capture_sequences-length n (i ∷ is) = ap suc (capture_sequences-length (suc n) is)

Reserved-drop : (n k : ℕ) (rows : List Row) → Reserved n rows → Reserved n (drop k rows)
Reserved-drop n k rows r =
    λ session at seq h. has_key-drop (batch_key session at seq) k rows (r session at seq h)

finish_batch-result :
    (o : EnqueueOptions) (n : ℕ) (ns : List ℕ) (s : Store) {r : BatchResult} {s' : Store}
    → finish_batch o n ns s ≡ ok (r, s')
    → (r.inserted ≡ n)
      × (r.sequences ≡ ns)
      × (r.durable_depth ≡ count s')
      × (count s ≡ r.dropped + count s')
      × (s'.rows ≡ drop r.dropped s.rows)
      × (o.defer_overflow_eviction ≡ false → count s' ≤ o.max_queued_fixes)
      × (s'.capture_sequence ≡ s.capture_sequence)
unfolding finish_batch trim_to_depth evict_oldest
finish_batch-result o n ns s h = ground (
  arith,
  length-drop (length s.rows - o.max_queued_fixes) s.rows,
  ap (λ k. drop k s.rows)
      (sub-sub (length s.rows) (length s.rows - o.max_queued_fixes) (omega arith)),
)

insert_rows-sequence :
    (session : Text) (n : ℕ) (items : List BatchItem) (s : Store)
    → (insert_rows session n items s).1.capture_sequence ≡ s.capture_sequence
unfolding insert_rows
insert_rows-sequence session n [] s = refl
insert_rows-sequence session n (i ∷ is) s =
    insert_rows-sequence session (suc n) is _
    ∙ insert_or_ignore-sequence session (batch_fix session i (suc n)) s

-- What a batch that is not empty returns comes from its last step, over the rows of one statement.
enqueue_batch-finish :
    (session : Text) (items : List BatchItem) (o : EnqueueOptions) (s : Store)
    {x : BatchResult × Store}
    → 0 < length items
    → enqueue_batch session items o s ≡ ok x
    → let written =
        insert_rows session
          (get_capture_sequence s)
          items
          (advance_sequence (get_capture_sequence s + length items) s) in
      finish_batch o written.0 (capture_sequences (get_capture_sequence s) items) written.1 ≡ ok x
unfolding enqueue_batch write_batch get_capture_sequence
enqueue_batch-finish session items o s k h = ground (
  arith,
  insert_chunks-eq-insert_rows (length items) session (get_or s.capture_sequence 0) items
      (advance_sequence (get_or s.capture_sequence 0 + length items) s) (omega arith),
)

advance_sequence_above :
    (n : ℕ) (s : Store)
    → get_capture_sequence s ≤ n
    → get_capture_sequence (advance_sequence n s) ≡ n
unfolding advance_sequence get_capture_sequence
advance_sequence_above n s h = omega arith

-- A batch over a queue whose keys are all of reserved sequence numbers, when it returns and is not
-- empty: every item is inserted (none collides with a stored key), the items get the numbers after
-- the stored one, the reported depth is the number of rows left, rows before and new ones are
-- those left and those dropped, the bound holds unless eviction is deferred, the stored number
-- advances by the number of items, and the keys of the new queue are of reserved numbers again.
pub enqueue_batch_fresh :
    (session : Text) (items : List BatchItem) (o : EnqueueOptions) (s : Store) {r : BatchResult}
    {s' : Store}
    → Reserved (get_capture_sequence s) s.rows
    → 0 < length items
    → enqueue_batch session items o s ≡ ok (r, s')
    → (r.inserted ≡ length items)
      × (r.sequences ≡ capture_sequences (get_capture_sequence s) items)
      × (r.durable_depth ≡ count s')
      × (count s + length items ≡ r.dropped + count s')
      × (o.defer_overflow_eviction ≡ false → count s' ≤ o.max_queued_fixes)
      × (get_capture_sequence s' ≡ get_capture_sequence s + length items)
      × Reserved (get_capture_sequence s') s'.rows
unfolding count get_capture_sequence advance_sequence
enqueue_batch_fresh session items o s {r} {s'} reserved nonempty h =
    let start = get_capture_sequence s in
    let t = advance_sequence (start + length items) s in
    let (all, above, len) = insert_rows-all session start items t reserved in
    let (n, seqs, depth, rows, left, bound, same) =
      finish_batch-result o _ _ _ (enqueue_batch-finish session items o s nonempty h) in
    let sequence : get_capture_sequence s' ≡ start + length items =
      ap (λ c. get_or c 0) (same ∙ insert_rows-sequence session start items t)
      ∙ advance_sequence_above (start + length items) s (omega arith) in
    (
      n ∙ all,
      seqs,
      depth,
      omega (arith, rows, len),
      bound,
      sequence,
      rw (sequence, left) (Reserved-drop (start + length items) r.dropped _ above),
    )

-- A process that dies inside a batch, after any number of its rows, leaves no key of a number that
-- the next batch will use: the numbers of the whole batch were reserved before the first row.
pub interrupted_batch :
    (session : Text) (written rest : List BatchItem) (s : Store)
    → Reserved (get_capture_sequence s) s.rows
    → let n = get_capture_sequence s + length (written ++ rest) in
      let s' = (insert_rows session (get_capture_sequence s) written (advance_sequence n s)).1 in
      (get_capture_sequence s' ≡ n) × Reserved n s'.rows
unfolding get_capture_sequence advance_sequence
interrupted_batch session written rest s reserved =
    let start = get_capture_sequence s in
    let t = advance_sequence (start + length (written ++ rest)) s in
    let (_, above, _) = insert_rows-all session start written t reserved in
    (
      ap (λ c. get_or c 0) (insert_rows-sequence session start written t)
          ∙ advance_sequence_above _ s (omega arith),
      Reserved-mono (start + length written) (start + length (written ++ rest)) _
          (omega (arith, length-append written rest)) above,
    )
