-- ===== src/JourneyQueue/Bounds.antt =====
-- The depth bound of journey-queue-store.ts, and which rows it gives up.
use opa_security_awareness_a.Common.{
  err, ℕ, zero, suc, ◌+◌, ◌-◌, ◌≤◌, ◌<◌, ◌≡◌, refl, ap, ◌⊎◌, inl, inr, Bool, true, false, some,
  List, [], ◌∷◌, ◌++◌, length, drop, max, arith, if◌then◌else◌, Bool-cases, ok, length-drop,
  length-append, last?, last?-append_one,
}
use opa_security_awareness_a.Common.Text.{Text}
use opa_security_awareness_a.JourneyQueue.Store.{
  capture_sequence_unsafe, max_queued_fixes_invalid, Row, TrackedFix, Store, has_key,
  insert_or_ignore, advance_sequence, count, is_safe_integer, is_positive_safe_integer,
  get_capture_sequence,
}
use opa_security_awareness_a.JourneyQueue.Write.{
  EnqueueInput, EnqueueOptions, Mutation, enforce_depth, enqueue,
}

pub sub-sub : (n k : ℕ) → k ≤ n → n - (n - k) ≡ k
sub-sub n k h = omega arith

enforce_depth-depth :
    (o : EnqueueOptions) (b : Bool) (s : Store)
    → ((enforce_depth o b s).0.durable_depth ≡ count (enforce_depth o b s).1)
      × (count s ≡ (enforce_depth o b s).0.dropped + count (enforce_depth o b s).1)
      × (o.defer_overflow_eviction ≡ false → count (enforce_depth o b s).1 ≤ o.max_queued_fixes)
      × (o.defer_overflow_eviction ≡ true → count (enforce_depth o b s).1 ≡ count s)
unfolding enforce_depth
enforce_depth-depth o b s = ground (arith, length-drop (length s.rows - o.max_queued_fixes) s.rows)

enforce_depth-inserted :
    (o : EnqueueOptions) (b : Bool) (s : Store) → (enforce_depth o b s).0.inserted ≡ b
unfolding enforce_depth
enforce_depth-inserted o b s = ground arith

enforce_depth-rows :
    (o : EnqueueOptions) (b : Bool) (s : Store)
    → (enforce_depth o b s).1.rows ≡ drop (enforce_depth o b s).0.dropped s.rows
unfolding enforce_depth
enforce_depth-rows o b s = ground (
  arith,
  length-drop (length s.rows - o.max_queued_fixes) s.rows,
  ap (λ n. drop n s.rows)
      (sub-sub (length s.rows) (length s.rows - o.max_queued_fixes) (omega arith)),
)

enforce_depth-deferred :
    (o : EnqueueOptions) (b : Bool) (s : Store)
    → o.defer_overflow_eviction ≡ true
    → (enforce_depth o b s).0.dropped ≡ 0
unfolding enforce_depth
enforce_depth-deferred o b s h = ground arith

enforce_depth-dropped :
    (o : EnqueueOptions) (b : Bool) (s : Store)
    → 0 < o.max_queued_fixes
    → 0 < length s.rows
    → (enforce_depth o b s).0.dropped < length s.rows
unfolding enforce_depth
enforce_depth-dropped o b s h k =
    ground (arith, length-drop (length s.rows - o.max_queued_fixes) s.rows)

abbrev pub new_row : Text → TrackedFix → Store → Row
new_row session fix s = record { queue_id = s.next_id; session_id = session; fix = fix }

pub insert_or_ignore_cases :
    (session : Text) (fix : TrackedFix) (s : Store)
    → ((has_key fix.idempotency_key s.rows ≡ true) × (insert_or_ignore session fix s ≡ (false, s)))
      ⊎ ((has_key fix.idempotency_key s.rows ≡ false)
          × (insert_or_ignore session fix s ≡ (
            true,
            record s { rows = s.rows ++ new_row session fix s ∷ []; next_id = suc s.next_id },
          )))
unfolding insert_or_ignore
insert_or_ignore_cases session fix s = elim (Bool-cases (has_key fix.idempotency_key s.rows)) [
  | inl e ↦ inl (e, rw e)
  | inr e ↦ inr (e, rw e)
]

insert_or_ignore-count :
    (session : Text) (fix : TrackedFix) (s : Store)
    → count (insert_or_ignore session fix s).1
      ≡ count s + (if (insert_or_ignore session fix s).0 then 1 else 0)
unfolding count
insert_or_ignore-count session fix s = elim (insert_or_ignore_cases session fix s) [
  | inl (_, e) ↦ rw e (omega arith)
  | inr (_, e) ↦ rw e (length-append s.rows (new_row session fix s ∷ []))
]

advance_sequence-count : (n : ℕ) (s : Store) → count (advance_sequence n s) ≡ count s
unfolding advance_sequence count
advance_sequence-count n s = refl

advance_sequence-rows : (n : ℕ) (s : Store) → (advance_sequence n s).rows ≡ s.rows
unfolding advance_sequence
advance_sequence-rows n s = refl

-- What an enqueue that returns says of the depth of the queue: the reported depth is the number of
-- rows left, the rows before and the new one are those left and those dropped, the bound holds
-- unless eviction is deferred, and a deferred call drops nothing.
pub enqueue_depth :
    (input : EnqueueInput) (o : EnqueueOptions) (s : Store) {m : Mutation} {s' : Store}
    → enqueue input o s ≡ ok (m, s')
    → (m.durable_depth ≡ count s')
      × (count s + (if m.inserted then 1 else 0) ≡ m.dropped + count s')
      × (o.defer_overflow_eviction ≡ false → count s' ≤ o.max_queued_fixes)
      × (o.defer_overflow_eviction ≡ true → m.dropped ≡ 0)
unfolding enqueue
enqueue_depth input o s h =
    let (b, s₁) = insert_or_ignore input.session_id input.fix s in
    ground (
      arith,
      enforce_depth-depth o b (advance_sequence input.capture_sequence s₁),
      insert_or_ignore-count input.session_id input.fix s,
      advance_sequence-count input.capture_sequence s₁,
      enforce_depth-inserted o b (advance_sequence input.capture_sequence s₁),
    )

enforce_depth-sequence :
    (o : EnqueueOptions) (b : Bool) (s : Store)
    → (enforce_depth o b s).1.capture_sequence ≡ s.capture_sequence
unfolding enforce_depth
enforce_depth-sequence o b s = ground arith

pub insert_or_ignore-sequence :
    (session : Text) (fix : TrackedFix) (s : Store)
    → (insert_or_ignore session fix s).1.capture_sequence ≡ s.capture_sequence
unfolding insert_or_ignore
insert_or_ignore-sequence session fix s = ground arith

last?-drop :
    (n : ℕ) (xs : List Row) (x : Row) → n ≤ length xs → last? (drop n (xs ++ x ∷ [])) ≡ some x
last?-drop zero xs x h = last?-append_one xs x
last?-drop (suc n) [] x h = elim h [ ]
last?-drop (suc n) (y ∷ xs) x h = last?-drop n xs x (omega arith)

-- The rows of an enqueue that returns, when its key is in the queue: nothing is inserted, and the
-- rows left are those before without the oldest `dropped`.
pub enqueue_known_key :
    (input : EnqueueInput) (o : EnqueueOptions) (s : Store) {m : Mutation} {s' : Store}
    → has_key input.fix.idempotency_key s.rows ≡ true
    → enqueue input o s ≡ ok (m, s')
    → (m.inserted ≡ false) × (s'.rows ≡ drop m.dropped s.rows)
unfolding enqueue
enqueue_known_key input o s k h =
    let t = advance_sequence input.capture_sequence s in
    elim (insert_or_ignore_cases input.session_id input.fix s) [
      | inl (_, e) ↦ ground (
        arith,
        enforce_depth-rows o false t,
        enforce_depth-inserted o false t,
        advance_sequence-rows input.capture_sequence s,
      )
      | inr (n, _) ↦ cc
    ]

-- When its key is not in the queue: the new row is appended under the next id, the oldest `dropped`
-- go, and the new row is never one of them: it is the last row left.
pub enqueue_new_key :
    (input : EnqueueInput) (o : EnqueueOptions) (s : Store) {m : Mutation} {s' : Store}
    → has_key input.fix.idempotency_key s.rows ≡ false
    → enqueue input o s ≡ ok (m, s')
    → let r : Row = record {
      queue_id = s.next_id;
      session_id = input.session_id;
      fix = input.fix;
    } in
      (m.inserted ≡ true) × (s'.rows ≡ drop m.dropped (s.rows ++ r ∷ [])) × (last? s'.rows ≡ some r)
unfolding enqueue
enqueue_new_key input o s {m} {s'} k h =
    let r = new_row input.session_id input.fix s in
    let t =
      advance_sequence input.capture_sequence
        (record s { rows = s.rows ++ r ∷ []; next_id = suc s.next_id }) in
    elim (insert_or_ignore_cases input.session_id input.fix s) [
      | inl (y, _) ↦ cc
      | inr (_, e) ↦ ground (
        arith,
        enforce_depth-rows o true t,
        enforce_depth-inserted o true t,
        enforce_depth-dropped o true t,
        advance_sequence-rows input.capture_sequence
            (record s { rows = s.rows ++ r ∷ []; next_id = suc s.next_id }),
        length-append s.rows (r ∷ []),
        last?-drop m.dropped s.rows r,
      )
    ]

-- An enqueue that returns leaves the larger of the stored capture sequence and the caller's: a
-- stale caller cannot move it backwards.
pub enqueue_sequence :
    (input : EnqueueInput) (o : EnqueueOptions) (s : Store) {m : Mutation} {s' : Store}
    → enqueue input o s ≡ ok (m, s')
    → get_capture_sequence s' ≡ max (get_capture_sequence s) input.capture_sequence
unfolding enqueue get_capture_sequence advance_sequence
enqueue_sequence input o s h =
    let (b, s₁) = insert_or_ignore input.session_id input.fix s in
    ground (
      arith,
      enforce_depth-sequence o b (advance_sequence input.capture_sequence s₁),
      insert_or_ignore-sequence input.session_id input.fix s,
    )

-- An enqueue either throws for an unsafe capture sequence, or for a bound that is no positive safe
-- integer, in this order, or it returns.
pub enqueue_total :
    (input : EnqueueInput) (o : EnqueueOptions) (s : Store)
    → ((is_safe_integer input.capture_sequence ≡ false)
        × (enqueue input o s ≡ err capture_sequence_unsafe))
      ⊎ ((is_safe_integer input.capture_sequence ≡ true)
          × (is_positive_safe_integer o.max_queued_fixes ≡ false)
          × (enqueue input o s ≡ err max_queued_fixes_invalid))
      ⊎ ((r : Mutation × Store) × (enqueue input o s ≡ ok r))
unfolding enqueue
enqueue_total input o s = elim (Bool-cases (is_safe_integer input.capture_sequence)) [
  | inr unsafe ↦ inl (unsafe, ground arith)
  | inl safe ↦ elim (Bool-cases (is_positive_safe_integer o.max_queued_fixes)) [
    | inr bad ↦ inr (inl (safe, bad, ground arith))
    | inl good ↦
        let written = insert_or_ignore input.session_id input.fix s in
        inr (
          inr (
            enforce_depth o written.0 (advance_sequence input.capture_sequence written.1),
            ground arith,
          ))
  ]
]
