-- ===== src/JourneyQueue/Log.antt =====
-- The queue as a bounded log: what one capture does to it, in terms of the whole list of rows.
use opa_security_awareness_a.Common.{
  ℕ, ◌-◌, ◌≡◌, refl, ap, inl, inr, Bool, true, List, [], ◌∷◌, ◌++◌, length, drop, max, arith,
  if◌then◌else◌, Bool-cases, ok, ltb,
}
use opa_security_awareness_a.JourneyQueue.Store.{
  Row, Store, has_key, insert_or_ignore, advance_sequence, is_safe_integer,
  is_positive_safe_integer, get_capture_sequence,
}
use opa_security_awareness_a.JourneyQueue.Write.{
  EnqueueInput, EnqueueOptions, Mutation, enforce_depth, enqueue,
}
use opa_security_awareness_a.JourneyQueue.Valid.{IsValid, enqueue-IsValid}
use opa_security_awareness_a.JourneyQueue.Bounds.{new_row, insert_or_ignore_cases, enqueue_sequence}

-- The last `n` rows.
abbrev pub newest : ℕ → List Row → List Row
newest n rows = drop (length rows - n) rows

-- The log with one more fix, unless its key is there.
unfoldable pub logged : EnqueueInput → Store → List Row
logged input s =
    if has_key input.fix.idempotency_key s.rows
    then s.rows
    else s.rows ++ new_row input.session_id input.fix s ∷ []

-- The log within its bound.
abbrev pub bounded_log : EnqueueOptions → List Row → List Row
bounded_log o rows = if o.defer_overflow_eviction then rows else newest o.max_queued_fixes rows

insert_or_ignore-logged :
    (input : EnqueueInput) (s : Store)
    → (insert_or_ignore input.session_id input.fix s).1.rows ≡ logged input s
unfolding logged
insert_or_ignore-logged input s = elim (insert_or_ignore_cases input.session_id input.fix s) [
  | inl (k, e) ↦ rw (e, k) refl
  | inr (k, e) ↦ rw (e, k) refl
]

enforce_depth-bounded_log :
    (o : EnqueueOptions) (b : Bool) (s : Store)
    → (enforce_depth o b s).1.rows ≡ bounded_log o s.rows
unfolding enforce_depth
enforce_depth-bounded_log o b s = elim (Bool-cases (ltb o.max_queued_fixes (length s.rows))) [
  | inl e ↦ ground arith
  | inr e ↦
      let none' : length s.rows - o.max_queued_fixes ≡ 0 = ground arith in
      ground (arith, ap (λ n. drop n s.rows) none')
]

enqueue-rows :
    (input : EnqueueInput) (o : EnqueueOptions) (s : Store) {m : Mutation} {s' : Store}
    → enqueue input o s ≡ ok (m, s')
    → (is_safe_integer input.capture_sequence ≡ true)
      × (is_positive_safe_integer o.max_queued_fixes ≡ true)
      × (s'.rows ≡ bounded_log o (logged input s))
unfolding enqueue advance_sequence
enqueue-rows input o s h =
    let w = insert_or_ignore input.session_id input.fix s in
    (
      ground arith,
      ground arith,
      ground (
        arith,
        enforce_depth-bounded_log o w.0 (advance_sequence input.capture_sequence w.1),
        ap (bounded_log o) (insert_or_ignore-logged input s),
      ),
    )

-- A capture into a valid queue that returns was given a safe capture sequence and a positive safe
-- bound, and leaves exactly this: the rows of before with the new fix after them, unless its key was
-- there, and of these the newest up to the bound, or all where eviction is deferred; the larger of
-- the two capture sequences; and a valid queue, of distinct keys and ascending ids.
pub enqueue_log :
    (input : EnqueueInput) (o : EnqueueOptions) (s : Store) {m : Mutation} {s' : Store}
    → IsValid s
    → enqueue input o s ≡ ok (m, s')
    → (is_safe_integer input.capture_sequence ≡ true)
      × (is_positive_safe_integer o.max_queued_fixes ≡ true)
      × (s'.rows ≡ bounded_log o (logged input s))
      × (get_capture_sequence s' ≡ max (get_capture_sequence s) input.capture_sequence)
      × IsValid s'
enqueue_log input o s {m} {s'} v h =
    let (safe, positive, rows) = enqueue-rows input o s {m = m} {s' = s'} h in
    (
      safe,
      positive,
      rows,
      enqueue_sequence input o s {m = m} {s' = s'} h,
      enqueue-IsValid input o s {m = m} {s' = s'} v h,
    )
