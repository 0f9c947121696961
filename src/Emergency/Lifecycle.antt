-- ===== src/Emergency/Lifecycle.antt =====
-- `create`, `close` and `reconcileLegacyDuplicate` of incidents.service.ts, each one transaction.
-- `hex` is SHA-256 in hexadecimal. A time the server reads is an argument: of the call, of the
-- database's transaction, and of the token revocation.
use opa_security_awareness_a.Common.{
  ℕ, suc, Bool, true, false, ◌&&◌, ◌||◌, not, Option, none, some, any, map, ◌-◌, leb, ◌==◌,
  if◌then◌else◌, Result, ok, guard, or_fail, ◌>>=◌, ◌>>◌,
}
use opa_security_awareness_a.Common.Text.{Text, codes, text_eq, decimal}
use opa_security_awareness_a.Common.Iso.{iso}
use opa_security_awareness_a.Common.Table.{get, add}
use opa_security_awareness_a.SafeWalk.Policy.{
  EndReason, user_ended, incident_resolved, admin_ended, Account,
}
use opa_security_awareness_a.Timeline.Json.{
  Json, null, number, string, object, boolean, end, member, Members,
}
use opa_security_awareness_a.Timeline.Chain.{Params, record_event}
use opa_security_awareness_a.Emergency.State.{
  IncidentStatus, open', acknowledged, resolved, cancelled, Trigger, voice_help_help, Incident, Db,
  Error, not_found, already, retriggered, no_evidence, bad_phrase, open_incident, is_open,
  is_resolved, update_incident,
}
use opa_security_awareness_a.Emergency.Tokens.{revoke_all_for_incident}
use opa_security_awareness_a.Emergency.Sessions.{EndResult, uses, end_session, wrote}

pub record Times : Type 0 where
  pub called_at : ℕ
  pub transaction_at : ℕ
  pub revoked_at : ℕ

-- The target of a close.
pub data Target : Type 0 where
  to_resolved to_cancelled : Target

abbrev pub status_of : Target → IncidentStatus
status_of to_resolved = resolved
status_of to_cancelled = cancelled

abbrev pub resolved_at_of : Target → ℕ → Option ℕ
resolved_at_of to_resolved now = some now
resolved_at_of to_cancelled now = none

abbrev pub reason_of : Target → EndReason
reason_of to_resolved = incident_resolved
reason_of to_cancelled = user_ended

abbrev pub status_text : IncidentStatus → Text
status_text open' = codes "OPEN"
status_text acknowledged = codes "ACKNOWLEDGED"
status_text resolved = codes "RESOLVED"
status_text cancelled = codes "CANCELLED"

abbrev pub event_type : Target → Text
event_type to_resolved = codes "INCIDENT_RESOLVED"
event_type to_cancelled = codes "INCIDENT_CANCELLED"

unfoldable pub close_row : Target → ℕ → Incident → Incident
close_row target now i = record i {
  status = status_of target;
  resolved_at = resolved_at_of target now;
}

-- Another OPEN incident of the same session.
unfoldable pub is_other_open : ℕ → ℕ → ℕ × Incident → Bool
is_other_open incident_id session_id (id, i) =
    is_open i.status && uses session_id i.journey_session_id && not (id == incident_id)

-- Ends the incident's session, unless another open incident uses it; with the session that was
-- ended by this call.
unfoldable pub release_session :
    ℕ → Option ℕ → ℕ → EndReason → ℕ → Db → Result Error (Option ℕ × Db)
unfolding is_other_open
release_session incident_id none user reason now db = ok (none, db)
release_session incident_id (some session_id) user reason now db =
    if any (is_other_open incident_id session_id) db.incidents
    then ok (none, db)
    else (end_session user session_id reason now db >>= λ (r : Option EndResult × Db).
        ok ((if wrote r.0 then some session_id else none), r.1))

pub record Closed : Type 0 where
  pub id : ℕ
  pub status : IncidentStatus
  pub resolved_at : Option ℕ
  pub revoked_tokens : ℕ
  pub ended_journey_session_id : Option ℕ

abbrev pub id_or_null : Option ℕ → Json
id_or_null none = null
id_or_null (some k) = string (decimal k)

-- What both payloads end with.
abbrev outcome : ℕ → Option ℕ → Members
outcome revoked session =
    member (codes "revokedTokens") (number (decimal revoked))
      (member (codes "endedJourneySessionId") (id_or_null session) end)

abbrev with_reason : Option Text → Members → Members
with_reason none rest = rest
with_reason (some reason) rest = member (codes "reason") (string reason) rest

unfoldable pub close_event : ℕ → ℕ → Target → Option Text → ℕ → ℕ → Option ℕ → Params
close_event incident_id user target reason now revoked session = record {
  incident_id = decimal incident_id;
  type = event_type target;
  payload = some (
      object (
        member (codes "previousStatus") (string (status_text open')) (
          member (codes "newStatus") (string (status_text (status_of target)))
            (with_reason reason (outcome revoked session)))));
  source = codes "MOBILE";
  actor_user_id = some (decimal user);
  correlation_id = none;
  occurred_at = some (iso now);
}

unfoldable pub reconcile_event : ℕ → ℕ → ℕ → ℕ → ℕ → Option ℕ → Params
reconcile_event incident_id evidence_id evidence_at now revoked session = record {
  incident_id = decimal incident_id;
  type = event_type to_cancelled;
  payload = some (
      object (
        member (codes "previousStatus") (string (status_text open')) (
          member (codes "newStatus") (string (status_text cancelled)) (
            member (codes "reason") (string (codes "LEGACY_DUPLICATE_RECONCILIATION")) (
              member (codes "evidenceIncidentId") (string (decimal evidence_id)) (
                member (codes "evidenceResolvedAt") (string (iso evidence_at))
                  (outcome revoked session)))))));
  source = codes "SYSTEM_RECONCILIATION";
  actor_user_id = none;
  correlation_id = none;
  occurred_at = some (iso now);
}

-- The caller's own incident, and the same refusal where there is none.
unfoldable pub owned_incident : ℕ → ℕ → Db → Option Incident
owned_incident incident_id user db = elim (get incident_id db.incidents) [
  | none ↦ none
  | some i ↦ if i.user_id == user then some i else none
]

-- `toUpperCase`, as far as a comparison with an ASCII text sees it.
abbrev upper : Text → Text
upper t = map (λ c. if leb 97 c && leb c 122 then c - 32 else c) t

abbrev is_voice : Trigger → Bool
is_voice voice_help_help = true
is_voice _ = false

unfoldable pub is_help_help : Option Text → Bool
is_help_help none = false
is_help_help (some phrase) = text_eq (upper phrase) (codes "HELP HELP")

pub record Provenance : Type 0 where
  pub activation_mode : Text
  pub activation_source : Text

-- CreateIncidentDto.
pub record Activation : Type 0 where
  pub trigger : Trigger
  pub latitude : Option ℕ
  pub longitude : Option ℕ
  pub address : Option Text
  pub voice_phrase : Option Text

abbrev with_provenance : Option Provenance → Members → Members
with_provenance none rest = rest
with_provenance (some p) rest = member (codes "activationMode") (string p.activation_mode) (
    member (codes "activationSource") (string p.activation_source)
      (member (codes "presentationMode") (string p.activation_mode) rest))

abbrev facility_of : Option Account → Option ℕ
facility_of none = none
facility_of (some a) = a.facility_id

-- The unique index on the user of an open incident.
abbrev is_open_of : ℕ → ℕ × Incident → Bool
is_open_of user (id, i) = i.user_id == user && is_open i.status

-- `create`: the facility is the one that the user belongs to now; `created_at` is the database's.
unfoldable pub create : ℕ → Activation → Option Provenance → ℕ → ℕ → Db → Result Error (ℕ × Db)
unfolding is_help_help
create user dto provenance now transaction_at db = do
  guard (not (is_voice dto.trigger) || is_help_help dto.voice_phrase) bad_phrase
  guard (not (any (is_open_of user) db.incidents)) open_incident
  ok (
    db.next_incident_id,
    record db {
      incidents =
          add db.next_incident_id
            (record {
              user_id = user;
              facility_id = facility_of (get user db.walks.accounts);
              trigger = dto.trigger;
              status = open';
              latitude = dto.latitude;
              longitude = dto.longitude;
              address = dto.address;
              voice_phrase = dto.voice_phrase;
              metadata = object (
                  with_provenance provenance (
                    member (codes "redisDispatchPrepared") (boolean true)
                      (member (codes "notificationFanoutPrepared") (boolean true) end)));
              last_triggered_at = some now;
              retrigger_count = 0;
              created_at = transaction_at;
              resolved_at = none;
              journey_session_id = none;
            })
            db.incidents;
      next_incident_id = suc db.next_incident_id;
    },
  )

-- The RESOLVED incident of the same user that came later, with when it was resolved.
unfoldable pub evidence : ℕ → ℕ → Incident → Db → Option ℕ
unfolding owned_incident
evidence evidence_id user i db = elim (owned_incident evidence_id user db) [
  | none ↦ none
  | some e ↦
      if is_resolved e.status && not (leb e.created_at i.created_at) then e.resolved_at else none
]

abbrev pub triggered_at : Option ℕ → ℕ → Bool
triggered_at none expected = false
triggered_at (some t) expected = t == expected

module _ (hex : Text → Text) where
  abbrev append : Params → Text → Db → Db
  append p now db = record db { timeline = record_event hex p now db.timeline }

  -- What follows the update of the incident: its session, its tokens, its event.
  unfoldable pub finish :
      ℕ
      → Option ℕ
      → ℕ
      → Target
      → EndReason
      → (ℕ → Option ℕ → Params)
      → Times
      → Db
      → Result Error (Closed × Db)
  finish incident_id session user target reason event at db = do
    r ← release_session incident_id session user reason at.transaction_at db
    let revoked = revoke_all_for_incident incident_id at.revoked_at r.1
    ok (
      (record {
        id = incident_id;
        status = status_of target;
        resolved_at = resolved_at_of target at.called_at;
        revoked_tokens = revoked.0;
        ended_journey_session_id = r.0;
      }),
      append (event revoked.0 r.0) (iso at.called_at) revoked.1,
    )

  unfoldable pub close : ℕ → ℕ → Target → Option Text → Times → Db → Result Error (Closed × Db)
  unfolding owned_incident close_row
  close incident_id user target reason at db = do
    i ← or_fail (owned_incident incident_id user db) not_found
    guard (is_open i.status) (already i.status)
    finish incident_id i.journey_session_id user target (reason_of target)
        (close_event incident_id user target reason at.called_at) at
        (update_incident incident_id (close_row target at.called_at) db)

  unfoldable pub reconcile_legacy_duplicate :
      ℕ → ℕ → ℕ → ℕ → Times → Db → Result Error (Closed × Db)
  unfolding owned_incident close_row evidence
  reconcile_legacy_duplicate incident_id user evidence_id expected at db = do
    i ← or_fail (owned_incident incident_id user db) not_found
    guard (is_open i.status) (already i.status)
    guard (triggered_at i.last_triggered_at expected) retriggered
    proof ← or_fail (evidence evidence_id user i db) no_evidence
    finish incident_id i.journey_session_id user to_cancelled admin_ended
        (reconcile_event incident_id evidence_id proof at.called_at) at
        (update_incident incident_id (close_row to_cancelled at.called_at) db)
