-- ===== src/Delivery/Ledger.antt =====
-- The tables of delivery-ledger.service.ts. A row of the ledger belongs to an incident notification,
-- an invitation delivery or a SafeWalk notice, each with a table of its own. Times are milliseconds,
-- identifiers are numbers, and a transaction that throws has no new state.
use opa_security_awareness_a.Common.{
  ℕ, Bool, true, false, ◌&&◌, Option, none, some, List, [], ◌∷◌, ◌++◌, any, ◌==◌, get_or, or_else,
}
use opa_security_awareness_a.Common.Text.{Text}
use opa_security_awareness_a.Common.Table.{Table, get, modify}
use opa_security_awareness_a.Delivery.Policy.{DeliveryStatus, NotificationStatus, Failure, Channel}

pub data Kind : Type 0 where
  incident invitation safewalk : Kind

pub record DeliveryOwner : Type 0 where
  pub kind : Kind
  pub id : ℕ

-- The columns that the ledger keeps on its parent row.
pub record Row : Type 0 where
  pub channel : Channel
  pub status : NotificationStatus
  pub delivery_status : DeliveryStatus
  pub attempt_count : ℕ
  pub next_attempt_at : ℕ
  pub first_attempt_at : Option ℕ
  pub last_attempt_at : Option ℕ
  pub provider_accepted_at : Option ℕ
  pub confirmed_delivered_at : Option ℕ
  pub failure_category : Option Failure
  pub provider : Option Text
  pub provider_message_id : Option Text
  pub sent_at : Option ℕ
  pub failed_at : Option ℕ
  pub last_error : Option Failure

pub record Attempt : Type 0 where
  pub safe_walk_notice_id : Option ℕ
  pub incident_notification_id : Option ℕ
  pub invitation_delivery_id : Option ℕ
  pub number : ℕ
  pub channel : Channel
  pub provider : Text
  pub account_scope : Text
  pub status : DeliveryStatus
  pub started_at : ℕ
  pub completed_at : Option ℕ
  pub provider_accepted_at : Option ℕ
  pub delivered_at : Option ℕ
  pub failure_category : Option Failure
  pub retryable : Bool

pub data Source : Type 0 where
  dispatch worker eligibility pre_provider provider_request provider_response : Source
  recovery retry_policy provider_receipt : Source

pub data Reason : Type 0 where
  attempt_started request_accepted outcome_uncertain environment_policy_denied : Reason
  request_failed attempt_lease_expired retry_scheduled : Reason
  process : Text → Reason
  given : Text → Reason

pub record StatusEvent : Type 0 where
  pub owner : DeliveryOwner
  pub attempt_id : ℕ
  pub receipt_id : Option ℕ
  pub previous_status : DeliveryStatus
  pub new_status : DeliveryStatus
  pub source : Source
  pub provider : Text
  pub reason : Reason
  pub failure_category : Option Failure
  pub occurred_at : ℕ

pub record ProviderReference : Type 0 where
  pub attempt_id : ℕ
  pub provider : Text
  pub account_scope : Text
  pub message_id : Text

pub record Receipt : Type 0 where
  pub provider : Text
  pub account_scope : Text
  pub message_id : Text
  pub status : DeliveryStatus
  pub failure_category : Option Failure
  pub event_type : Text
  pub occurred_at : ℕ
  pub processed_at : Option ℕ
  pub next_reconcile_at : ℕ
  pub reconcile_count : ℕ

pub record Db : Type 0 where
  pub incident_notifications : Table Row
  pub invitation_deliveries : Table Row
  pub safe_walk_notices : Table Row
  pub attempts : Table Attempt
  pub next_attempt_id : ℕ
  pub references : List ProviderReference
  pub receipts : Table Receipt
  pub events : List StatusEvent

-- `ownerFields`: which of the three references an attempt carries.
abbrev pub safe_walk_field : DeliveryOwner → Option ℕ
safe_walk_field o = elim o.kind [ safewalk ↦ some o.id | _ ↦ none ]

abbrev pub incident_field : DeliveryOwner → Option ℕ
incident_field o = elim o.kind [ incident ↦ some o.id | _ ↦ none ]

abbrev pub invitation_field : DeliveryOwner → Option ℕ
invitation_field o = elim o.kind [ invitation ↦ some o.id | _ ↦ none ]

owner_of : Option ℕ → Option ℕ → Option ℕ → Option DeliveryOwner
owner_of (some w) i v = some (record { kind = safewalk; id = w })
owner_of none (some i) v = some (record { kind = incident; id = i })
owner_of none none (some v) = some (record { kind = invitation; id = v })
owner_of none none none = none

-- `owner(attempt)`; the source asserts that one of the three is there.
unfoldable pub owner : Attempt → Option DeliveryOwner
unfolding owner_of
owner a = owner_of a.safe_walk_notice_id a.incident_notification_id a.invitation_delivery_id

abbrev pub table_of : Kind → Db → Table Row
table_of incident db = db.incident_notifications
table_of invitation db = db.invitation_deliveries
table_of safewalk db = db.safe_walk_notices

-- `lock`: the parent row, which the transaction holds from here on.
unfoldable pub lock : DeliveryOwner → Db → Option Row
lock o db = get o.id (table_of o.kind db)

-- A projection leaves out what it does not change: `none` is `undefined`, and for a column that may
-- be null `some none` writes null.
pub record Projection : Type 0 where
  pub delivery_status : Option DeliveryStatus
  pub status : Option NotificationStatus
  pub attempt_count : Option ℕ
  pub first_attempt_at : Option ℕ
  pub last_attempt_at : Option ℕ
  pub provider_accepted_at : Option ℕ
  pub confirmed_delivered_at : Option ℕ
  pub failure_category : Option (Option Failure)
  pub next_attempt_at : Option ℕ
  pub provider : Option Text
  pub provider_message_id : Option Text
  pub sent_at : Option ℕ
  pub failed_at : Option (Option ℕ)
  pub last_error : Option (Option Failure)

abbrev pub no_change : Projection
no_change = record {
  delivery_status = none;
  status = none;
  attempt_count = none;
  first_attempt_at = none;
  last_attempt_at = none;
  provider_accepted_at = none;
  confirmed_delivered_at = none;
  failure_category = none;
  next_attempt_at = none;
  provider = none;
  provider_message_id = none;
  sent_at = none;
  failed_at = none;
  last_error = none;
}

unfoldable pub write : Projection → Row → Row
write p r = record {
  channel = r.channel;
  status = get_or p.status r.status;
  delivery_status = get_or p.delivery_status r.delivery_status;
  attempt_count = get_or p.attempt_count r.attempt_count;
  next_attempt_at = get_or p.next_attempt_at r.next_attempt_at;
  first_attempt_at = or_else p.first_attempt_at r.first_attempt_at;
  last_attempt_at = or_else p.last_attempt_at r.last_attempt_at;
  provider_accepted_at = or_else p.provider_accepted_at r.provider_accepted_at;
  confirmed_delivered_at = or_else p.confirmed_delivered_at r.confirmed_delivered_at;
  failure_category = get_or p.failure_category r.failure_category;
  provider = or_else p.provider r.provider;
  provider_message_id = or_else p.provider_message_id r.provider_message_id;
  sent_at = or_else p.sent_at r.sent_at;
  failed_at = get_or p.failed_at r.failed_at;
  last_error = get_or p.last_error r.last_error;
}

-- `project`: the parent row under the projection.
unfoldable pub project : DeliveryOwner → Projection → Db → Db
project o p db = elim o.kind [
  | safewalk ↦ record db { safe_walk_notices = modify o.id (write p) db.safe_walk_notices }
  | incident ↦ record db {
    incident_notifications = modify o.id (write p) db.incident_notifications;
  }
  | invitation ↦ record db {
    invitation_deliveries = modify o.id (write p) db.invitation_deliveries;
  }
]

unfoldable pub record_event : StatusEvent → Db → Db
record_event e db = record db { events = db.events ++ e ∷ [] }

unfoldable pub update_attempt : ℕ → (Attempt → Attempt) → Db → Db
update_attempt id f db = record db { attempts = modify id f db.attempts }

-- The unique index on an owner and an attempt number.
abbrev pub same_kind : Kind → Kind → Bool
same_kind incident incident = true
same_kind invitation invitation = true
same_kind safewalk safewalk = true
same_kind _ _ = false

unfoldable pub owns_number : DeliveryOwner → ℕ → Attempt → Bool
unfolding owner
owns_number o n a = elim (owner a) [
  | none ↦ false
  | some p ↦ same_kind p.kind o.kind && p.id == o.id && a.number == n
]

unfoldable pub number_taken : DeliveryOwner → ℕ → Db → Bool
unfolding owns_number
number_taken o n db = any (λ e. owns_number o n e.1) db.attempts
