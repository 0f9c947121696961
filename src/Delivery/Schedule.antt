-- ===== src/Delivery/Schedule.antt =====
-- When the ledger sends again: one sender at a time, and a resend only after a definite failure.
use opa_security_awareness_a.Common.{
  ℕ, ◌+◌, ◌≤◌, ◌<◌, ◌≡◌, ◌≢◌, refl, ◌∙◌, subst, ◌⊎◌, inl, inr, true, false, none, some, arith,
  Bool-cases, Option-cases, Result-cases, ok,
}
use opa_security_awareness_a.Common.Text.{Text}
use opa_security_awareness_a.Common.Table.{get}
use opa_security_awareness_a.Delivery.Policy.{
  DeliveryStatus, NotificationStatus, Environment, retry_delay, max_delivery_attempts,
  provider_identity,
}
use opa_security_awareness_a.Delivery.Ledger.{
  DeliveryOwner, Row, Attempt, Db, Projection, lock, write, project, owner, number_taken,
  record_event, update_attempt,
}
use opa_security_awareness_a.Delivery.Claim.{
  is_claimable, claim_projection, claim, begin_attempt, create_attempt, record_start, started_event,
  new_attempt,
}
use opa_security_awareness_a.Delivery.Complete.{
  Response, complete_projection, is_superseded, complete, is_retryable, observed, complete_locked,
  project_completion, store_reference, is_settled, valid_message_id, completed_event,
  complete_attempt, record_retry,
}
use opa_security_awareness_a.Delivery.Rows.{lock-project, lock-SameRows, same_owner_refl}
use opa_security_awareness_a.Delivery.Same.{
  create_attempt-SameRows, record_start-SameRows, store_reference-SameRows, SameRows-trans,
  event_after_attempt-SameRows, record_retry-SameRows,
}
use opa_security_awareness_a.Delivery.Truth.{retry_delay_bounds}

-- A projection on its own owner's row.
lock-project_self :
    (o : DeliveryOwner) (pr : Projection) (row : Row) (db : Db)
    → lock o db ≡ some row
    → lock o (project o pr db) ≡ some (write pr row)
lock-project_self o pr row db h = ground (arith, lock-project o o pr db, same_owner_refl o)

begin_attempt-lock :
    (w : Text) (o : DeliveryOwner) (r : Row) (identity : Text × Text) (now : ℕ) (db : Db) {id : ℕ}
    {db' : Db}
    → lock o db ≡ some r
    → begin_attempt w o r identity now db ≡ ok (some id, db')
    → lock o db' ≡ some (write (claim_projection r now) r)
unfolding begin_attempt
begin_attempt-lock w o r identity now db {id} {db'} h k =
    let e = started_event o db.next_attempt_id r (new_attempt o r identity now) now in
    let db₁ = create_attempt o r identity now db in
    let db₂ = project o (claim_projection r now) db₁ in
    elim (Bool-cases (number_taken o (r.attempt_count + 1) db)) [
      | inl t ↦ absurd (ground arith)
      | inr t ↦
          subst (λ d. lock o d ≡ some (write (claim_projection r now) r)) {x = record_start w e db₂}
            (ground arith)
            (lock-SameRows o db₂ _ (record_start-SameRows w e db₂)
              ∙ lock-project_self o (claim_projection r now) r db₁
                  (lock-SameRows o db db₁ (create_attempt-SameRows o r identity now db) ∙ h))
    ]

sending-not-claimable :
    (r : Row) (now later : ℕ) → is_claimable (write (claim_projection r now) r) later ≡ false
unfolding is_claimable claim_projection write
sending-not-claimable r now later = refl

claim-lock :
    (env : Environment) (w : Text) (o : DeliveryOwner) (now : ℕ) (db : Db) {id : ℕ} {db' : Db}
    → claim env w o now db ≡ ok (some id, db')
    → (r : Row) × (lock o db ≡ some r)
      × (is_claimable r now ≡ true)
      × (lock o db' ≡ some (write (claim_projection r now) r))
unfolding claim
claim-lock env w o now db {id} {db'} h = elim (Option-cases (lock o db)) [
  | inl e ↦ absurd (ground arith)
  | inr (r, e) ↦ elim (Bool-cases (is_claimable r now)) [
    | inr c ↦ absurd (ground arith)
    | inl c ↦ elim (Result-cases (provider_identity env r.channel)) [
      | inr (x, f) ↦ absurd (ground arith)
      | inl (identity, f) ↦
          (r, e, c, begin_attempt-lock w o r identity now db {id = id} e (ground arith))
    ]
  ]
]

-- Of two workers that claim a row one after the other, whatever the times, only the first gets an
-- attempt: the second is told that there is nothing to send, and changes nothing.
pub claim-claim :
    (env : Environment) (first second : Text) (o : DeliveryOwner) (now later : ℕ) (db : Db) {id : ℕ}
    {db' : Db}
    → claim env first o now db ≡ ok (some id, db')
    → claim env second o later db' ≡ ok (none, db')
unfolding claim
claim-claim env first second o now later db {id} {db'} h =
    let (r, _, _, locked) = claim-lock env first o now db h in
    ground (arith, locked, sending-not-claimable r now later)

-- What a claim that creates an attempt found and leaves: the row was queued, due, not delivered and
-- under five attempts; it is being sent, with one attempt more, and with no error of the last one.
pub claim_effect :
    (env : Environment) (w : Text) (o : DeliveryOwner) (now : ℕ) (db : Db) {id : ℕ} {db' : Db}
    → claim env w o now db ≡ ok (some id, db')
    → (r s : Row) × (lock o db ≡ some r)
      × (lock o db' ≡ some s)
      × (r.status ≡ NotificationStatus.queued)
      × (r.next_attempt_at ≤ now)
      × (r.attempt_count < max_delivery_attempts)
      × (r.delivery_status ≢ DeliveryStatus.delivered)
      × (s.status ≡ NotificationStatus.sending)
      × (s.attempt_count ≡ r.attempt_count + 1)
      × (s.last_attempt_at ≡ some now)
      × (s.last_error ≡ none)
unfolding is_claimable claim_projection write
claim_effect env w o now db h =
    let (r, before, may, locked) = claim-lock env w o now db h in
    (
      r,
      write (claim_projection r now) r,
      before,
      locked,
      ground arith,
      ground arith,
      ground arith,
      ground arith,
      refl,
      refl,
      refl,
      refl,
    )

-- The row that a completion writes for its latest attempt.
pub complete-lock :
    (id : ℕ) (r : Response) (now jitter : ℕ) (db : Db) (a : Attempt) (o : DeliveryOwner) (row : Row)
    {db' : Db}
    → get id db.attempts ≡ some a
    → owner a ≡ some o
    → lock o db ≡ some row
    → is_settled a r ≡ false
    → is_superseded row a ≡ false
    → complete id r now jitter db ≡ ok db'
    → lock o db'
      ≡ some (
          write
            (complete_projection row a r now (retry_delay jitter a.number (is_retryable r)))
            row)
unfolding complete complete_locked project_completion
complete-lock id r now jitter db a o row {db'} ea eo er open' new h =
    elim (Result-cases (store_reference id a (valid_message_id r.message_id) db)) [
      | inr (x, f) ↦ absurd (ground arith)
      | inl (db₁, f) ↦
          let ev = completed_event o id a r now in
          let db₂ = record_event ev (update_attempt id (complete_attempt r now) db₁) in
          let delay = retry_delay jitter a.number (is_retryable r) in
          let db₃ = project o (complete_projection row a r now delay) db₂ in
          subst (λ d. lock o d ≡ some (write (complete_projection row a r now delay) row))
            {x = record_retry delay ev db₃} (ground arith)
            (lock-SameRows o db₃ _ (record_retry-SameRows delay ev db₃)
              ∙ lock-project_self o (complete_projection row a r now delay) row db₂ (
                  lock-SameRows o db db₂ (
                    SameRows-trans db db₁ db₂ (store_reference-SameRows id a _ db f)
                      (event_after_attempt-SameRows ev id (complete_attempt r now) db₁))
                  ∙ er))
    ]

schedule_row :
    (row : Row) (a : Attempt) (r : Response) (now jitter : ℕ)
    → jitter < 15000
    → let s =
        write
          (complete_projection row a r now (retry_delay jitter a.number (is_retryable r)))
          row in
      ((s.status ≡ NotificationStatus.queued)
        × (is_retryable r ≡ true)
        × (a.number < max_delivery_attempts)
        × (now + 60000 ≤ s.next_attempt_at)
        × (s.next_attempt_at < now + 3615000))
      ⊎ ((s.status ≡ NotificationStatus.failed)
          × (r.success ≡ false)
          × (s.next_attempt_at ≡ row.next_attempt_at)
          × ((is_retryable r ≡ false) ⊎ (a.number ≡ 0) ⊎ (max_delivery_attempts ≤ a.number)))
      ⊎ ((s.status ≡ NotificationStatus.sent)
          × (r.success ≡ true)
          × (s.next_attempt_at ≡ row.next_attempt_at)
          × (s.failed_at ≡ none))
unfolding complete_projection write is_retryable observed
schedule_row row a r now jitter j = elim (retry_delay_bounds jitter a.number (is_retryable r)) [
  | inr (d, e, low, high, retryable, _, number) ↦
      inl (ground arith, retryable, number, ground arith, ground arith)
  | inl (e, why) ↦ elim (Bool-cases r.success) [
    | inl t ↦ inr (inr (ground arith, t, ground arith, ground arith))
    | inr f ↦ inr (inl (ground arith, f, ground arith, why))
  ]
]

-- What the completion of an attempt leaves, whatever the provider answered, when the attempt is the
-- latest of its row, the row is not delivered, and the attempt is open: it has not completed, or it
-- completed as unknown and this answer is a certain one. A failure that may be retried, of one of the
-- first four attempts, puts the row back to queued, due in one minute at least and an hour and
-- fifteen seconds at most; any other failure leaves it failed; a success leaves it sent. Neither of
-- the last two changes when the row is due.
pub complete_schedule :
    (id : ℕ) (r : Response) (now jitter : ℕ) (db : Db) (a : Attempt) (o : DeliveryOwner) (row : Row)
    {db' : Db}
    → jitter < 15000
    → get id db.attempts ≡ some a
    → owner a ≡ some o
    → lock o db ≡ some row
    → is_settled a r ≡ false
    → is_superseded row a ≡ false
    → complete id r now jitter db ≡ ok db'
    → (s : Row) × (lock o db' ≡ some s)
      × (((s.status ≡ NotificationStatus.queued)
            × (is_retryable r ≡ true)
            × (a.number < max_delivery_attempts)
            × (now + 60000 ≤ s.next_attempt_at)
            × (s.next_attempt_at < now + 3615000))
          ⊎ ((s.status ≡ NotificationStatus.failed)
              × (r.success ≡ false)
              × (s.next_attempt_at ≡ row.next_attempt_at)
              × ((is_retryable r ≡ false) ⊎ (a.number ≡ 0) ⊎ (max_delivery_attempts ≤ a.number)))
          ⊎ ((s.status ≡ NotificationStatus.sent)
              × (r.success ≡ true)
              × (s.next_attempt_at ≡ row.next_attempt_at)
              × (s.failed_at ≡ none)))
complete_schedule id r now jitter db a o row j ea eo er open' new h = (
  _,
  complete-lock id r now jitter db a o row ea eo er open' new h,
  schedule_row row a r now jitter j,
)
