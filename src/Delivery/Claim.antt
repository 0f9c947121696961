-- ===== src/Delivery/Claim.antt =====
-- `claim`, `claimIncident` and `rejectInTransaction` of delivery-ledger.service.ts.
use opa_security_awareness_a.Common.{
  ℕ, suc, ◌+◌, Bool, true, false, ◌||◌, not, Option, none, some, ltb, leb, ◌==◌, if◌then◌else◌,
  Result, ok, guard, ◌>>=◌, ◌>>◌, or_else, or_fail, is_none,
}
use opa_security_awareness_a.Common.Text.{Text}
use opa_security_awareness_a.Common.Table.{get, add}
use opa_security_awareness_a.Delivery.Policy.{
  DeliveryStatus, attempting, NotificationStatus, rejected, Error, duplicate_attempt, not_found,
  Environment, provider_identity, max_delivery_attempts, is_delivered,
}
use opa_security_awareness_a.Delivery.Ledger.{
  DeliveryOwner, incident, Row, Attempt, StatusEvent, Db, Projection, no_change, safe_walk_field,
  incident_field, invitation_field, owner, lock, project, record_event, update_attempt,
  number_taken, dispatch, worker, eligibility, attempt_started, process, given,
}

abbrev pub is_waiting : NotificationStatus → Bool
is_waiting NotificationStatus.queued = true
is_waiting _ = false

-- The row may be sent now; otherwise `claim` returns null.
unfoldable pub is_claimable : Row → ℕ → Bool
is_claimable r now = not (
    not (is_waiting r.status)
    || ltb now r.next_attempt_at
    || leb max_delivery_attempts r.attempt_count
    || is_delivered r.delivery_status)

unfoldable pub new_attempt : DeliveryOwner → Row → Text × Text → ℕ → Attempt
new_attempt o r identity now = record {
  safe_walk_notice_id = safe_walk_field o;
  incident_notification_id = incident_field o;
  invitation_delivery_id = invitation_field o;
  number = r.attempt_count + 1;
  channel = r.channel;
  provider = identity.0;
  account_scope = identity.1;
  status = attempting;
  started_at = now;
  completed_at = none;
  provider_accepted_at = none;
  delivered_at = none;
  failure_category = none;
  retryable = false;
}

-- `row.firstAttemptAt ?? (row.attemptCount === 0 ? now : undefined)`.
abbrev first_attempt : Row → ℕ → Option ℕ
first_attempt r now = or_else r.first_attempt_at (if r.attempt_count == 0 then some now else none)

unfoldable pub claim_projection : Row → ℕ → Projection
claim_projection r now = record no_change {
  status = some NotificationStatus.sending;
  delivery_status = some attempting;
  attempt_count = some (r.attempt_count + 1);
  first_attempt_at = first_attempt r now;
  last_attempt_at = some now;
  failure_category = some none;
  failed_at = some none;
  last_error = some none;
}

abbrev pub started_event : DeliveryOwner → ℕ → Row → Attempt → ℕ → StatusEvent
started_event o id r a now = record {
  owner = o;
  attempt_id = id;
  receipt_id = none;
  previous_status = r.delivery_status;
  new_status = attempting;
  source = dispatch;
  provider = a.provider;
  reason = attempt_started;
  failure_category = none;
  occurred_at = now;
}

unfoldable pub create_attempt : DeliveryOwner → Row → Text × Text → ℕ → Db → Db
unfolding new_attempt
create_attempt o r identity now db = record db {
  attempts = add db.next_attempt_id (new_attempt o r identity now) db.attempts;
  next_attempt_id = suc db.next_attempt_id;
}

-- The two events of a started attempt: the dispatch, and the worker that took it.
unfoldable pub record_start : Text → StatusEvent → Db → Db
unfolding record_event
record_start worker_id e db =
    record_event (record e { source = worker; reason = process worker_id }) (record_event e db)

-- The writes of a claim that goes ahead, in their order.
unfoldable pub begin_attempt :
    Text → DeliveryOwner → Row → Text × Text → ℕ → Db → Result Error (Option ℕ × Db)
begin_attempt worker_id o r identity now db = do
  guard (not (number_taken o (r.attempt_count + 1) db)) duplicate_attempt
  let e = started_event o db.next_attempt_id r (new_attempt o r identity now) now
  ok (
    some db.next_attempt_id,
    record_start worker_id e
        (project o (claim_projection r now) (create_attempt o r identity now db)),
  )

-- The attempt that was created, or none where the row must not be sent.
unfoldable pub claim : Environment → Text → DeliveryOwner → ℕ → Db → Result Error (Option ℕ × Db)
claim env worker_id o now db = elim (lock o db) [
  | none ↦ ok (none, db)
  | some r ↦
      if is_claimable r now
      then (provider_identity env r.channel >>= λ identity.
          begin_attempt worker_id o r identity now db)
      else ok (none, db)
]

unfoldable pub claim_incident : Environment → Text → ℕ → ℕ → Db → Result Error (Option ℕ × Db)
claim_incident env worker_id id now db =
    claim env worker_id (record { kind = incident; id = id }) now db

abbrev rejection : ℕ → Attempt → Attempt
rejection now a = record a {
  status = DeliveryStatus.failed;
  completed_at = some now;
  failure_category = some rejected;
  retryable = false;
}

-- `rejectInTransaction`; `a` is the attempt as the caller holds it.
unfoldable pub reject_in_transaction : ℕ → Attempt → Text → ℕ → Db → Result Error Db
reject_in_transaction id a reason now db = do
  o ← or_fail (owner a) not_found
  guard (not (is_none (get id db.attempts))) not_found
  ok (
      record_event
        (record {
          owner = o;
          attempt_id = id;
          receipt_id = none;
          previous_status = attempting;
          new_status = DeliveryStatus.failed;
          source = eligibility;
          provider = a.provider;
          reason = given reason;
          failure_category = some rejected;
          occurred_at = now;
        })
        (update_attempt id (rejection now) db))
