-- ===== src/SafeWalk/Policy.antt =====
-- safewalk-policy.ts and the tables it works on. Times are milliseconds; `now` is the database clock.
use opa_security_awareness_a.Common.{
  ℕ, ◌+◌, max, Bool, true, false, ◌&&◌, ◌||◌, not, Option, none, some, List, [], ◌∷◌, ◌++◌, map,
  any, ◌==◌, if◌then◌else◌, Result, ok, guard, ◌>>◌, is_none,
}
use opa_security_awareness_a.Common.Text.{Text, codes, text_eq}
use opa_security_awareness_a.Common.Table.{Table, get, modify}

abbrev pub check_ms : ℕ
check_ms = 300000

abbrev pub response_ms : ℕ
response_ms = 180000

pub data Role : Type 0 where
  user responder admin facility_admin facility_operator : Role

pub data AccountStatus : Type 0 where
  active pending_activation : AccountStatus

-- SafeWalkScope, with the e-mail address that a notice goes to.
pub record Account : Type 0 where
  pub id : ℕ
  pub role : Role
  pub is_active : Bool
  pub account_status : AccountStatus
  pub facility_id : Option ℕ
  pub facility_is_active : Option Bool
  pub email : Text

abbrev is_user : Role → Bool
is_user user = true
is_user _ = false

abbrev is_activated : AccountStatus → Bool
is_activated active = true
is_activated pending_activation = false

abbrev is_true : Option Bool → Bool
is_true none = false
is_true (some b) = b

unfoldable pub eligible_account : Option Account → Bool
eligible_account none = false
eligible_account (some a) =
    a.is_active
    && is_activated a.account_status
    && is_user a.role
    && (is_none a.facility_id || is_true a.facility_is_active)

abbrev pub same_scope : Option ℕ → Option ℕ → Bool
same_scope none none = true
same_scope (some a) (some b) = a == b
same_scope _ _ = false

unfoldable pub guardian_scope_allowed : Option Account → Option Account → Option ℕ → Bool
guardian_scope_allowed (some o) (some g) scope =
    eligible_account (some o)
    && eligible_account (some g)
    && not (o.id == g.id)
    && same_scope o.facility_id scope
    && same_scope g.facility_id scope
guardian_scope_allowed _ _ scope = false

unfoldable pub check_due : ℕ → ℕ
check_due expected_arrival_at = expected_arrival_at + check_ms

unfoldable pub guardian_due : ℕ → ℕ
guardian_due expected_arrival_at = expected_arrival_at + check_ms + response_ms

unfoldable pub response_deadline : ℕ → ℕ → ℕ
response_deadline scheduled prompt_available_at = max scheduled (prompt_available_at + response_ms)

pub data Purpose : Type 0 where
  for_incident for_safewalk for_guardian manual system_test : Purpose

pub data SessionStatus : Type 0 where
  started session_active ended : SessionStatus

pub data EndReason : Type 0 where
  user_ended incident_resolved timed_out superseded admin_ended : EndReason

pub record Session : Type 0 where
  pub user_id : ℕ
  pub purpose : Purpose
  pub status : SessionStatus
  pub started_at : ℕ
  pub ended_at : Option ℕ
  pub ended_reason : Option EndReason
  pub redacted_at : Option ℕ
  pub safe_walk_emergency_incident_id : Option ℕ
  pub safety_confirmed_at : Option ℕ
  pub arrival_confirmed_at : Option ℕ
  pub expected_arrival_at : Option ℕ

pub data State : Type 0 where
  scheduled check_required escalated satisfied closed : State

pub record Escalation : Type 0 where
  pub state : State
  pub check_due_at : ℕ
  pub guardian_due_at : ℕ
  pub check_required_at : Option ℕ
  pub response_due_at : Option ℕ
  pub escalated_at : Option ℕ
  pub settled_at : Option ℕ

pub data NoticeKind : Type 0 where
  owner_check guardian_overdue : NoticeKind

pub record Recipient : Type 0 where
  pub recipient : Text
  pub protected_snapshot_id : Option ℕ

pub record Notice : Type 0 where
  pub id : ℕ
  pub recipient_data : Recipient
  pub session_id : ℕ
  pub recipient_user_id : ℕ
  pub grant_id : Option ℕ
  pub kind : NoticeKind
  pub message : Text
  pub reason_code : Text
  pub available_at : ℕ
  pub cancelled_at : Option ℕ
  pub acknowledged_at : Option ℕ

pub record Grant : Type 0 where
  pub session_id : ℕ
  pub owner_user_id : ℕ
  pub guardian_user_id : ℕ
  pub facility_scope_id : Option ℕ
  pub granted_at : ℕ
  pub revoked_at : Option ℕ
  pub is_status_policy : Bool

-- The event key is the id of a session or a grant and a word.
pub record Audit : Type 0 where
  pub key_id : ℕ
  pub key_word : Text
  pub session_id : ℕ
  pub actor_user_id : Option ℕ
  pub grant_id : Option ℕ
  pub kind : Text
  pub reason_code : Text
  pub occurred_at : ℕ

pub record Db : Type 0 where
  pub sessions : Table Session
  pub escalations : Table Escalation
  pub accounts : Table Account
  pub grants : Table Grant
  pub notices : List Notice
  pub next_notice_id : ℕ
  pub audits : List Audit

pub data Error : Type 0 where
  duplicate_notice duplicate_event user_not_found snapshot_failed deadline_invariant : Error

abbrev pub is_settled : State → Bool
is_settled satisfied = true
is_settled closed = true
is_settled _ = false

unfoldable pub settle_escalation : State → ℕ → Escalation → Escalation
settle_escalation state now e =
    if is_settled e.state then e else record e { state = state; settled_at = some now }

unfoldable pub cancel_notice : ℕ → ℕ → Notice → Notice
cancel_notice session_id now n =
    if n.session_id == session_id && is_none n.cancelled_at
    then record n { cancelled_at = some now }
    else n

unfoldable pub has_key : ℕ → Text → Audit → Bool
has_key id word a = a.key_id == id && text_eq a.key_word word

-- An audit row; its event key is unique.
unfoldable pub create_audit : Audit → Db → Result Error Db
unfolding has_key
create_audit a db = do
  guard (not (any (has_key a.key_id a.key_word) db.audits)) duplicate_event
  ok (record db { audits = db.audits ++ a ∷ [] })

abbrev pub open_escalation : Option Escalation → Bool
open_escalation none = false
open_escalation (some e) = not (is_settled e.state)

abbrev pub settled_audit : ℕ → ℕ → State → Option ℕ → Audit
settled_audit session_id now state actor = record {
  key_id = session_id;
  key_word = codes "settled";
  session_id = session_id;
  actor_user_id = actor;
  grant_id = none;
  kind = elim state [ satisfied ↦ codes "SATISFIED" | _ ↦ codes "CLOSED" ];
  reason_code = elim state [ satisfied ↦ codes "OWNER_CONFIRMED" | _ ↦ codes "JOURNEY_INELIGIBLE" ];
  occurred_at = now;
}

-- The two `updateMany` of `settleSafeWalk`.
unfoldable pub settle_rows : ℕ → ℕ → State → Db → Db
unfolding settle_escalation cancel_notice
settle_rows session_id now state db = record db {
  escalations = modify session_id (settle_escalation state now) db.escalations;
  notices = map (cancel_notice session_id now) db.notices;
}

unfoldable pub settle_safe_walk : ℕ → ℕ → State → Option ℕ → Db → Result Error Db
settle_safe_walk session_id now state actor db =
    let db₁ = settle_rows session_id now state db in
    if open_escalation (get session_id db.escalations)
    then create_audit (settled_audit session_id now state actor) db₁
    else ok db₁
