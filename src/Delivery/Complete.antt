-- ===== src/Delivery/Complete.antt =====
-- `complete` and `recoverStale` of delivery-ledger.service.ts.
use opa_security_awareness_a.Common.{
  ℕ, ◌+◌, Bool, true, false, ◌&&◌, ◌||◌, not, Option, none, some, List, [], ◌∷◌, ◌++◌, length, any,
  keep, take, ltb, leb, ◌==◌, if◌then◌else◌, Result, ok, err, guard, ◌>>=◌, ◌>>◌, get_or, or_fail,
  is_some, is_none,
}
use opa_security_awareness_a.Common.Text.{Text, text_eq}
use opa_security_awareness_a.Common.Table.{get}
use opa_security_awareness_a.Delivery.Policy.{
  DeliveryStatus, attempting, provider_accepted, unknown, NotificationStatus, Failure,
  authentication, invalid_recipient, rejected, expired, internal_error, timeout,
  unknown_provider_error, Error, not_found, owner_missing, duplicate_reference, receipt_status,
  retry_delay, safe_diagnostic, is_delivered, is_failed, is_unknown, is_attempting,
  attempt_timeout_ms,
}
use opa_security_awareness_a.Delivery.Ledger.{
  DeliveryOwner, Row, Attempt, StatusEvent, Source, Reason, ProviderReference, Db, Projection,
  no_change, owner, lock, project, record_event, update_attempt, dispatch, pre_provider,
  provider_request, provider_response, recovery, retry_policy, request_accepted, outcome_uncertain,
  environment_policy_denied, request_failed, attempt_lease_expired, retry_scheduled, given,
}

pub data Stage : Type 0 where
  before_provider at_request at_response : Stage

-- NotificationResponse; an absent flag is false. `policy_denied` says that `error` is the text of
-- the environment policy's refusal.
pub record Response : Type 0 where
  pub success : Bool
  pub stage : Option Stage
  pub diagnostic : Option Text
  pub message_id : Option Text
  pub policy_denied : Bool
  pub failure_category : Option Failure
  pub retryable : Bool
  pub uncertain : Bool

unfoldable pub observed : Response → DeliveryStatus
observed r =
    if r.success then provider_accepted else if r.uncertain then unknown else DeliveryStatus.failed

abbrev pub failure_of : Response → Option Failure
failure_of r = if r.success then none else some (get_or r.failure_category unknown_provider_error)

-- The failures that no retry can mend.
abbrev is_permanent : Failure → Bool
is_permanent authentication = true
is_permanent invalid_recipient = true
is_permanent rejected = true
is_permanent expired = true
is_permanent internal_error = true
is_permanent _ = false

unfoldable pub is_retryable : Response → Bool
unfolding observed
is_retryable r =
    is_failed (observed r)
    && r.retryable
    && not (is_permanent (get_or (failure_of r) internal_error))

-- A message id counts if it has between 1 and 256 characters.
unfoldable pub valid_message_id : Option Text → Option Text
valid_message_id none = none
valid_message_id (some t) = if ltb 0 (length t) && leb (length t) 256 then some t else none

-- A completed attempt is final, but for a definite answer after an uncertain one.
unfoldable pub is_settled : Attempt → Response → Bool
is_settled a r = is_some a.completed_at && not (is_unknown a.status && not r.uncertain)

unfoldable pub same_reference : Attempt → Text → ProviderReference → Bool
same_reference a m p =
    text_eq p.provider a.provider
    && text_eq p.account_scope a.account_scope
    && text_eq p.message_id m

-- The provider's reference is stored once; a second one of that name aborts the transaction.
unfoldable pub store_reference : ℕ → Attempt → Option Text → Db → Result Error Db
unfolding same_reference
store_reference id a none db = ok db
store_reference id a (some m) db = do
  guard (not (any (same_reference a m) db.references)) duplicate_reference
  ok (record db {
    references =
        db.references
        ++ record {
          attempt_id = id;
          provider = a.provider;
          account_scope = a.account_scope;
          message_id = m;
        }
          ∷ [];
  })

unfoldable pub complete_attempt : Response → ℕ → Attempt → Attempt
unfolding observed is_retryable
complete_attempt r now a =
    let status = receipt_status a.status (observed r) in
    record a {
      status = status;
      completed_at = some now;
      failure_category = if is_delivered status then none else failure_of r;
      provider_accepted_at =
          if r.success then some (get_or a.provider_accepted_at now) else a.provider_accepted_at;
      retryable = is_retryable r;
    }

source_of : Response → Source
source_of r = elim r.stage [
  | some before_provider ↦ pre_provider
  | some at_request ↦ provider_request
  | some at_response ↦ provider_response
  | none ↦ if r.success then provider_response else dispatch
]

reason_of : Response → Reason
reason_of r = elim (safe_diagnostic r.diagnostic) [
  | some d ↦ given d
  | none ↦
      if r.success
      then request_accepted
      else if r.uncertain
      then outcome_uncertain
      else if r.policy_denied
      then environment_policy_denied
      else request_failed
]

unfoldable pub completed_event : DeliveryOwner → ℕ → Attempt → Response → ℕ → StatusEvent
unfolding source_of reason_of observed
completed_event o id a r now = record {
  owner = o;
  attempt_id = id;
  receipt_id = none;
  previous_status = a.status;
  new_status = receipt_status a.status (observed r);
  source = source_of r;
  provider = a.provider;
  reason = reason_of r;
  failure_category = failure_of r;
  occurred_at = now;
}

-- The acceptance time of a row is that of its first accepted attempt.
abbrev pub first_accepted : Row → Response → ℕ → Option ℕ
first_accepted row r now = if r.success && is_none row.provider_accepted_at then some now else none

abbrev scheduled : Option ℕ → ℕ → Option ℕ
scheduled none now = none
scheduled (some delay) now = some (now + delay)

unfoldable pub complete_projection : Row → Attempt → Response → ℕ → Option ℕ → Projection
unfolding observed
complete_projection row a r now delay = record no_change {
  delivery_status = some (receipt_status a.status (observed r));
  status = some (
      if r.success
      then NotificationStatus.sent
      else if is_some delay
      then NotificationStatus.queued
      else NotificationStatus.failed);
  provider = some a.provider;
  provider_message_id = valid_message_id r.message_id;
  provider_accepted_at = first_accepted row r now;
  sent_at = if r.success then some now else none;
  failed_at = some (if r.success then none else some now);
  failure_category = some (failure_of r);
  last_error = some (failure_of r);
  next_attempt_at = scheduled delay now;
}

-- A stale attempt, or a row that is delivered, is not projected, but for a first acceptance.
unfoldable pub is_superseded : Row → Attempt → Bool
is_superseded row a = not (row.attempt_count == a.number) || is_delivered row.delivery_status

abbrev pub accepted_only : DeliveryOwner → Option ℕ → Db → Db
accepted_only o none db = db
accepted_only o (some t) db = project o (record no_change { provider_accepted_at = some t }) db

abbrev pub retry_event : StatusEvent → StatusEvent
retry_event e = record e {
  previous_status = e.new_status;
  source = retry_policy;
  reason = retry_scheduled;
}

abbrev pub record_retry : Option ℕ → StatusEvent → Db → Db
record_retry none e db = db
record_retry (some d) e db = record_event (retry_event e) db

-- What follows the attempt's own update and event: the projection, and the event of a retry.
unfoldable pub project_completion :
    DeliveryOwner → Row → Attempt → Response → ℕ → ℕ → StatusEvent → Db → Db
project_completion o row a r now jitter e db =
    if is_superseded row a
    then accepted_only o (first_accepted row r now) db
    else (let delay = retry_delay jitter a.number (is_retryable r) in
        record_retry delay e (project o (complete_projection row a r now delay) db))

unfoldable pub complete_locked :
    DeliveryOwner → Row → ℕ → Attempt → Response → ℕ → ℕ → Db → Result Error Db
complete_locked o row id a r now jitter db =
    if is_settled a r
    then ok db
    else (store_reference id a (valid_message_id r.message_id) db >>= λ db₁.
        let e = completed_event o id a r now in
        ok (
          project_completion o row a r now jitter e
            (record_event e (update_attempt id (complete_attempt r now) db₁))))

unfoldable pub complete : ℕ → Response → ℕ → ℕ → Db → Result Error Db
complete id r now jitter db = do
  a ← or_fail (get id db.attempts) not_found
  o ← or_fail (owner a) not_found
  row ← or_fail (lock o db) owner_missing
  complete_locked o row id a r now jitter db

-- The lease of an attempt ran out: whether the provider saw the request is not known.
abbrev pub lapse : Attempt → Attempt
lapse a = record a { status = unknown; failure_category = some timeout; retryable = false }

unfoldable pub recover_projection : Projection
recover_projection = record no_change {
  status = some NotificationStatus.failed;
  delivery_status = some unknown;
  failure_category = some (some timeout);
  last_error = some (some timeout);
}

pub lapsed_event : DeliveryOwner → ℕ → Attempt → ℕ → StatusEvent
lapsed_event o id a now = record {
  owner = o;
  attempt_id = id;
  receipt_id = none;
  previous_status = attempting;
  new_status = unknown;
  source = recovery;
  provider = a.provider;
  reason = attempt_lease_expired;
  failure_category = some timeout;
  occurred_at = now;
}

-- One candidate of `recoverStale`, read again inside its transaction.
unfoldable pub recover_locked : DeliveryOwner → Row → ℕ → Attempt → ℕ → Db → Db
unfolding lapsed_event
recover_locked o row id a now db =
    let db₁ = record_event (lapsed_event o id a now) (update_attempt id lapse db) in
    if is_superseded row a then db₁ else project o recover_projection db₁

unfoldable pub recover_one : ℕ → ℕ → Db → Result Error Db
recover_one id now db = do
  a ← or_fail (get id db.attempts) not_found
  o ← or_fail (owner a) not_found
  ok (elim (lock o db) [
    | none ↦ db
    | some row ↦ if is_attempting a.status then recover_locked o row id a now db else db
  ])

-- `recover_from` runs the candidates in order; an error ends the run, and what went before stays.
unfoldable pub recover_from : List ℕ → ℕ → Db → Db
recover_from [] now db = db
recover_from (id ∷ ids) now db = elim (recover_one id now db) [
  | ok db' ↦ recover_from ids now db'
  | err e ↦ db
]

abbrev is_stale : ℕ → ℕ × Attempt → Bool
is_stale now (id, a) = is_attempting a.status && leb (a.started_at + attempt_timeout_ms) now

abbrev insert_oldest : ℕ × Attempt → List (ℕ × Attempt) → List (ℕ × Attempt)
insert_oldest e [] = e ∷ []
insert_oldest e (f ∷ fs) =
    if leb e.1.started_at f.1.started_at then e ∷ f ∷ fs else f ∷ insert_oldest e fs

abbrev oldest_first : List (ℕ × Attempt) → List (ℕ × Attempt)
oldest_first [] = []
oldest_first (e ∷ es) = insert_oldest e (oldest_first es)

abbrev ids_of : List (ℕ × Attempt) → List ℕ
ids_of [] = []
ids_of (e ∷ es) = e.0 ∷ ids_of es

-- `recoverStale`: at most 25 expired attempts, the oldest first.
unfoldable pub recover_stale : ℕ → Db → Db
recover_stale now db =
    recover_from (ids_of (take 25 (oldest_first (keep (is_stale now) db.attempts)))) now db
