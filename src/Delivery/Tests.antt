-- ===== src/Delivery/Tests.antt =====
-- The ledger at concrete inputs: one queued e-mail of an incident, sent, refused and confirmed.
use opa_security_awareness_a.Common.{
  is_some, ℕ, ◌+◌, ◌≤◌, ◌<◌, ◌≡◌, ◌≢◌, refl, ◌⊎◌, true, false, none, some, List, [], ◌∷◌, arith, ok,
}
use opa_security_awareness_a.Common.Text.{Text, codes, text_eq}
use opa_security_awareness_a.Common.Table.{get, modify, add}
use opa_security_awareness_a.Delivery.Policy.{
  DeliveryStatus, NotificationStatus, email, Environment, max_delivery_attempts, receipt_status,
  retry_delay, provider_identity, is_account_scope, is_scope_char, base_delay, rate_limited,
  safe_diagnostic, resend,
}
use opa_security_awareness_a.Delivery.Ledger.{
  Receipt, DeliveryOwner, incident, Row, Attempt, Db, lock, write, project, owner, number_taken,
  owns_number, record_event, update_attempt,
}
use opa_security_awareness_a.Delivery.Claim.{
  is_claimable, new_attempt, claim_projection, create_attempt, record_start, begin_attempt, claim,
}
use opa_security_awareness_a.Delivery.Complete.{
  Response, at_response, observed, is_retryable, valid_message_id, is_settled, store_reference,
  same_reference, complete_attempt, completed_event, complete_projection, is_superseded,
  project_completion, complete_locked, complete,
}
use opa_security_awareness_a.Delivery.Receipts.{
  apply_receipt, apply_reference, apply_locked, matches, update_receipt, receipt_projection,
  receipt_attempt, receipt_event,
}
use opa_security_awareness_a.Delivery.Advance.{
  Operation, claims, completes, recovers, receives, perform, perform_all, perform_all-Advances,
  Advances,
}
use opa_security_awareness_a.Delivery.Once.{apply_receipt-apply_receipt}
use opa_security_awareness_a.Delivery.Schedule.{claim_effect, complete_schedule}

abbrev no_scopes : Environment
no_scopes = record { resend_account_scope = none; africastalking_account_scope = none }

abbrev notification : DeliveryOwner
notification = record { kind = incident; id = 7 }

abbrev queued_row : Row
queued_row = record {
  channel = email;
  status = NotificationStatus.queued;
  delivery_status = DeliveryStatus.queued;
  attempt_count = 0;
  next_attempt_at = 50;
  first_attempt_at = none;
  last_attempt_at = none;
  provider_accepted_at = none;
  confirmed_delivered_at = none;
  failure_category = none;
  provider = none;
  provider_message_id = none;
  sent_at = none;
  failed_at = none;
  last_error = none;
}

abbrev ledger : Db
ledger = record {
  incident_notifications = (7, queued_row) ∷ [];
  invitation_deliveries = [];
  safe_walk_notices = [];
  attempts = [];
  next_attempt_id = 1;
  references = [];
  receipts = [];
  events = [];
}

abbrev worker_1 : Text
worker_1 = codes "w1"

abbrev worker_2 : Text
worker_2 = codes "w2"

abbrev claimed : Db
unfolding perform
claimed = perform (claims no_scopes worker_1 notification 100) ledger

abbrev first_attempt : Attempt
unfolding new_attempt
first_attempt = new_attempt notification queued_row (resend, codes "primary") 100

abbrev sending_row : Row
unfolding write claim_projection
sending_row = write (claim_projection queued_row 100) queued_row

-- A provider that asks to slow down.
abbrev refused : Response
refused = record {
  success = false;
  stage = some at_response;
  diagnostic = none;
  message_id = none;
  policy_denied = false;
  failure_category = some rate_limited;
  retryable = true;
  uncertain = false;
}

abbrev completed : Db
unfolding perform
completed = perform (completes 1 refused 200 9) claimed

claimed-eq : claim no_scopes worker_1 notification 100 ledger ≡ ok (some 1, claimed)
unfolding claim begin_attempt is_claimable provider_identity is_account_scope is_scope_char
    number_taken owns_number owner create_attempt new_attempt record_start record_event project
    write claim_projection lock get modify add perform claimed completed first_attempt sending_row
claimed-eq = refl

completed-eq : complete 1 refused 200 9 claimed ≡ ok completed
unfolding complete complete_locked project_completion is_settled is_superseded store_reference
    valid_message_id same_reference complete_attempt completed_event complete_projection observed
    is_retryable receipt_status retry_delay base_delay safe_diagnostic text_eq update_attempt claim
    begin_attempt is_claimable provider_identity is_account_scope is_scope_char number_taken
    owns_number owner create_attempt new_attempt record_start record_event project write
    claim_projection lock get modify add perform claimed completed first_attempt sending_row
completed-eq = refl

abbrev history : List Operation
history =
    claims no_scopes worker_1 notification 100 ∷ completes 1 refused 200 9 ∷ recovers 999999 ∷ []

perform_all-Advances_example :
    (r : Row) × (lock notification (perform_all history ledger) ≡ some r) × Advances queued_row r
unfolding lock get
perform_all-Advances_example = perform_all-Advances history ledger notification queued_row refl

claim_effect_example :
    (r s : Row) × (lock notification ledger ≡ some r)
    × (lock notification claimed ≡ some s)
    × (r.status ≡ NotificationStatus.queued)
    × (r.next_attempt_at ≤ 100)
    × (r.attempt_count < max_delivery_attempts)
    × (r.delivery_status ≢ DeliveryStatus.delivered)
    × (s.status ≡ NotificationStatus.sending)
    × (s.attempt_count ≡ r.attempt_count + 1)
    × (s.last_attempt_at ≡ some 100)
    × (s.last_error ≡ none)
claim_effect_example = claim_effect no_scopes worker_1 notification 100 ledger claimed-eq

complete_schedule_example :
    (s : Row) × (lock notification completed ≡ some s)
    × (((s.status ≡ NotificationStatus.queued)
          × (is_retryable refused ≡ true)
          × (1 < max_delivery_attempts)
          × (200 + 60000 ≤ s.next_attempt_at)
          × (s.next_attempt_at < 200 + 3615000))
        ⊎ ((s.status ≡ NotificationStatus.failed)
            × (false ≡ false)
            × (s.next_attempt_at ≡ 50)
            × ((is_retryable refused ≡ false) ⊎ (◌≡◌ {A = ℕ} 1 0) ⊎ (max_delivery_attempts ≤ 1)))
        ⊎ ((s.status ≡ NotificationStatus.sent)
            × (false ≡ true)
            × (s.next_attempt_at ≡ 50)
            × (s.failed_at ≡ none)))
unfolding claim begin_attempt is_claimable provider_identity is_account_scope is_scope_char
    number_taken owns_number owner create_attempt new_attempt record_start record_event project
    write claim_projection lock get modify add is_settled is_superseded perform claimed completed
    first_attempt sending_row
complete_schedule_example =
    complete_schedule 1 refused 200 9 claimed first_attempt notification sending_row (omega arith)
      refl refl refl refl refl completed-eq

-- A delivery receipt of the attempt, whose reference is stored.
abbrev delivery_receipt : Receipt
delivery_receipt = record {
  provider = resend;
  account_scope = codes "primary";
  message_id = codes "m1";
  status = DeliveryStatus.delivered;
  failure_category = none;
  event_type = codes "email.delivered";
  occurred_at = 250;
  processed_at = none;
  next_reconcile_at = 300;
  reconcile_count = 0;
}

abbrev receiving : Db
unfolding first_attempt sending_row
receiving = record ledger {
  incident_notifications = (7, sending_row) ∷ [];
  attempts = (1, first_attempt) ∷ [];
  references =
      record {
        attempt_id = 1;
        provider = resend;
        account_scope = codes "primary";
        message_id = codes "m1";
      }
      ∷ [];
  receipts = (3, delivery_receipt) ∷ [];
}

abbrev received : Db
unfolding perform
received = perform (receives 3 300) receiving

received-eq : apply_receipt 3 300 receiving ≡ ok received
unfolding apply_receipt apply_reference apply_locked matches update_receipt receipt_projection
    receipt_attempt receipt_event receipt_status is_superseded text_eq update_attempt owner
    record_event project write claim_projection new_attempt lock get modify perform received
    receiving first_attempt sending_row
received-eq = refl

apply_receipt-apply_receipt_example :
    (g : Receipt) × (get 3 received.receipts ≡ some g)
    × (((is_some g.processed_at ≡ true) × (apply_receipt 3 900 received ≡ ok received))
        ⊎ ((is_some g.processed_at ≡ false)
            × (received.attempts ≡ receiving.attempts)
            × (received.events ≡ receiving.events)))
unfolding get receiving
apply_receipt-apply_receipt_example =
    apply_receipt-apply_receipt 3 300 900 receiving delivery_receipt refl received-eq
