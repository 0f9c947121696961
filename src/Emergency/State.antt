-- ===== src/Emergency/State.antt =====
-- The tables that incidents.service.ts, incident-access-token.service.ts and
-- journey-session.service.ts share. The sessions and walks are those of SafeWalk.
use opa_security_awareness_a.Common.{ℕ, Bool, true, false, Option, List, Result, ok, err}
use opa_security_awareness_a.Common.Text.{Text}
use opa_security_awareness_a.Common.Table.{Table, modify}
use opa_security_awareness_a.SafeWalk.Policy.{Session, Db as WalkDb, Error as WalkError}
use opa_security_awareness_a.Timeline.Chain.{Event}
use opa_security_awareness_a.Timeline.Json.{Json}

pub data IncidentStatus : Type 0 where
  open' acknowledged resolved cancelled : IncidentStatus

pub data Trigger : Type 0 where
  sos_button voice_help_help trusted_contact system_test : Trigger

-- A reading that is carried and not computed with is an opaque code.
pub record Incident : Type 0 where
  pub user_id : ℕ
  pub facility_id : Option ℕ
  pub trigger : Trigger
  pub status : IncidentStatus
  pub latitude : Option ℕ
  pub longitude : Option ℕ
  pub address : Option Text
  pub voice_phrase : Option Text
  pub metadata : Json
  pub last_triggered_at : Option ℕ
  pub retrigger_count : ℕ
  pub created_at : ℕ
  pub resolved_at : Option ℕ
  pub journey_session_id : Option ℕ

pub data Scope : Type 0 where
  family_bearer verified_contact authorized_responder : Scope

pub record Token : Type 0 where
  pub incident_id : ℕ
  pub token_hash : Text
  pub scope : Scope
  pub expires_at : ℕ
  pub absolute_expiry : ℕ
  pub revoked_at : Option ℕ
  pub last_accessed_at : Option ℕ
  pub access_count : ℕ

pub record Db : Type 0 where
  pub walks : WalkDb
  pub incidents : Table Incident
  pub tokens : Table Token
  pub timeline : List Event
  pub next_session_id : ℕ
  pub next_incident_id : ℕ
  pub next_token_id : ℕ

pub data Error : Type 0 where
  not_found : Error
  already : IncidentStatus → Error
  retriggered no_evidence bad_phrase duplicate_token open_incident : Error
  active_emergency session_ended : Error
  walk_failed : WalkError → Error

abbrev pub is_open : IncidentStatus → Bool
is_open open' = true
is_open _ = false

-- `status: { in: ['OPEN', 'ACKNOWLEDGED'] }`.
abbrev pub is_live : IncidentStatus → Bool
is_live open' = true
is_live acknowledged = true
is_live _ = false

abbrev pub is_resolved : IncidentStatus → Bool
is_resolved resolved = true
is_resolved _ = false

unfoldable pub update_incident : ℕ → (Incident → Incident) → Db → Db
update_incident id f db = record db { incidents = modify id f db.incidents }

unfoldable pub update_session : ℕ → (Session → Session) → Db → Db
update_session id f db = record db {
  walks = record (db.walks) { sessions = modify id f db.walks.sessions };
}

-- A step on the walks inside a larger transaction.
abbrev pub with_walks : Db → Result WalkError WalkDb → Result Error Db
with_walks db (ok w) = ok (record db { walks = w })
with_walks db (err e) = err (walk_failed e)
