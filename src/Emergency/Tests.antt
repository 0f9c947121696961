-- ===== src/Emergency/Tests.antt =====
-- One open emergency of a user whose journey is on, with one link to it.
use opa_security_awareness_a.Common.{
  ℕ, ◌≡◌, ◌↔◌, refl, ◌⊎◌, inr, true, false, Option, none, some, List, [], ◌∷◌, keep, length, Result,
  ok, err, arith, ◌==◌,
}
use opa_security_awareness_a.Common.Text.{Text, codes, text_eq}
use opa_security_awareness_a.Common.Iso.{iso}
use opa_security_awareness_a.Common.Table.{Table, get, modify, add}
use opa_security_awareness_a.SafeWalk.Policy.{
  Session, for_safewalk, session_active, Db as WalkDb, settle_safe_walk, settle_rows, create_audit,
  has_key,
}
use opa_security_awareness_a.Timeline.Json.{end, object}
use opa_security_awareness_a.Timeline.Chain.{record_event}
use opa_security_awareness_a.Emergency.State.{
  Incident, open', sos_button, Token, family_bearer, Db, Error, not_found, already, is_open,
  update_incident, update_session,
}
use opa_security_awareness_a.Emergency.Tokens.{
  valid, revoked, expired, issue, resolve_token, has_hash, is_live_of,
}
use opa_security_awareness_a.Emergency.Aging.{
  Call, access_call, renew_call, revoke_all_call, calls, Ages, token_history,
}
use opa_security_awareness_a.Emergency.Renewal.{renewals, renewal_keeps_alive}
use opa_security_awareness_a.Emergency.Sessions.{
  end_session, end_running, end_row, is_live_in, arrival, Confirmed, confirm, confirm_first,
  confirm_row, owned_walk,
}
use opa_security_awareness_a.Emergency.Lifecycle.{
  Times, to_resolved, to_cancelled, status_of, close_event, Closed, close, finish, close_row,
  release_session, is_other_open, owned_incident, reconcile_legacy_duplicate,
}
use opa_security_awareness_a.Emergency.Closing.{close_effects}
use opa_security_awareness_a.Emergency.Refusals.{
  close_refusals, close_again, resolve_succeeds, settleable,
}
use opa_security_awareness_a.Emergency.Confirm.{confirm_again}

abbrev journey : Session
journey = record {
  user_id = 1;
  purpose = for_safewalk;
  status = session_active;
  started_at = 10;
  ended_at = none;
  ended_reason = none;
  redacted_at = none;
  safe_walk_emergency_incident_id = none;
  safety_confirmed_at = none;
  arrival_confirmed_at = none;
  expected_arrival_at = none;
}

abbrev incident : ℕ → Option ℕ → Incident
incident user session = record {
  user_id = user;
  facility_id = none;
  trigger = sos_button;
  status = open';
  latitude = none;
  longitude = none;
  address = none;
  voice_phrase = none;
  metadata = object end;
  last_triggered_at = some 20;
  retrigger_count = 0;
  created_at = 20;
  resolved_at = none;
  journey_session_id = session;
}

abbrev link : Token
link = record {
  incident_id = 7;
  token_hash = codes "k";
  scope = family_bearer;
  expires_at = 100;
  absolute_expiry = 1000;
  revoked_at = none;
  last_accessed_at = none;
  access_count = 0;
}

abbrev walks_of : List (ℕ × Session) → WalkDb
walks_of sessions = record {
  sessions = sessions;
  escalations = [];
  accounts = [];
  grants = [];
  notices = [];
  next_notice_id = 0;
  audits = [];
}

abbrev db_of : Table Incident → Db
db_of incidents = record {
  walks = walks_of ((5, journey) ∷ []);
  incidents = incidents;
  tokens = (3, link) ∷ [];
  timeline = [];
  next_session_id = 6;
  next_incident_id = 9;
  next_token_id = 4;
}

abbrev emergency : Db
emergency = db_of ((7, incident 1 (some 5)) ∷ (8, incident 2 none) ∷ [])

abbrev times : Times
times = record { called_at = 50; transaction_at = 51; revoked_at = 52 }

abbrev same_text : Text → Text
same_text t = t

abbrev outcome_of : Result Error (Closed × Db) → Closed × Db
outcome_of (ok r) = r
outcome_of (err x) = (
  record {
    id = 0;
    status = open';
    resolved_at = none;
    revoked_tokens = 0;
    ended_journey_session_id = none;
  },
  emergency,
)

abbrev resolved_once : Closed × Db
resolved_once = outcome_of (close same_text 7 1 to_resolved none times emergency)

resolved_once-ok :
    close same_text 7 1 to_resolved none times emergency ≡ ok (resolved_once.0, resolved_once.1)
unfolding close owned_incident finish release_session is_other_open end_session end_running
    update_incident update_session get modify close_row end_row is_live_in settle_safe_walk
    settle_rows
resolved_once-ok = refl

close_effects_example :
    let db' = resolved_once.1 in
    (i : Incident) × (get 7 emergency.incidents ≡ some i)
    × (i.user_id ≡ 1)
    × (i.status ≡ open')
    × (get 7 db'.incidents
        ≡ some (record i { status = status_of to_resolved; resolved_at = some 50 }))
    × (get 8 db'.incidents ≡ get 8 emergency.incidents)
    × (keep (is_live_of 7) db'.tokens ≡ [])
    × (resolved_once.0.revoked_tokens ≡ length (keep (is_live_of 7) emergency.tokens))
    × (db'.timeline
        ≡ record_event same_text
            (close_event 7 1 to_resolved none 50 resolved_once.0.revoked_tokens
              resolved_once.0.ended_journey_session_id)
            (iso 50)
            [])
close_effects_example =
    close_effects same_text 7 1 to_resolved none times 8 emergency {r = resolved_once.0}
      {db' = resolved_once.1} resolved_once-ok refl

close_refusals_example :
    ((close same_text 7 2 to_cancelled none times emergency ≡ err not_found) ↔ (
      (get 7 emergency.incidents ≡ none)
      ⊎ ((i : Incident) × (get 7 emergency.incidents ≡ some i) × ((i.user_id == 2) ≡ false))))
    × ((close same_text 7 2 to_cancelled none times emergency ≡ err (already open')) ↔ (
        (i : Incident) × (get 7 emergency.incidents ≡ some i)
        × (i.user_id ≡ 2)
        × (i.status ≡ open')
        × (is_open open' ≡ false)))
close_refusals_example = close_refusals same_text 7 2 to_cancelled none times open' emergency

close_again_example :
    (close same_text 7 1 to_cancelled none times resolved_once.1
      ≡ err (already (status_of to_resolved)))
    × (reconcile_legacy_duplicate same_text 7 1 8 20 times resolved_once.1
        ≡ err (already (status_of to_resolved)))
close_again_example =
    close_again same_text 7 1 8 20 to_resolved to_cancelled none none times times emergency
      {r = resolved_once.0} {db' = resolved_once.1} resolved_once-ok

resolve_succeeds_example :
    (r : Closed) × (db' : Db) × (close same_text 7 1 to_resolved none times emergency ≡ ok (r, db'))
unfolding get settleable
resolve_succeeds_example =
    resolve_succeeds same_text 7 1 none times emergency (incident 1 (some 5)) refl refl refl refl

abbrev visits : List Call
visits = renew_call 60 ∷ access_call 3 61 ∷ revoke_all_call 9 62 ∷ []

token_history_example :
    (t' : Token) × Ages link t'
    × ((resolve_token same_text (codes "k") 1000 (calls same_text visits emergency) ≡ revoked 3 t')
        ⊎ (resolve_token same_text (codes "k") 1000 (calls same_text visits emergency)
            ≡ expired 3 t'))
unfolding has_hash text_eq
token_history_example =
    token_history same_text (codes "k") visits 1000 emergency {k = 3} {t = link} refl
      (inr (omega arith))

abbrev with_link : ℕ × Db
with_link = elim (issue same_text 7 family_bearer (codes "r") 0 emergency) [
  | ok r ↦ r
  | err x ↦ (0, emergency)
]

with_link-ok :
    issue same_text 7 family_bearer (codes "r") 0 emergency ≡ ok (with_link.0, with_link.1)
unfolding issue has_hash text_eq add
with_link-ok = refl

renewal_keeps_alive_example :
    (t : Token) × (resolve_token same_text
        (codes "r")
        9000000
        (renewals (3600000 ∷ 7200000 ∷ []) with_link.1)
      ≡ valid with_link.0 t)
    × (t.incident_id ≡ 7)
unfolding get
renewal_keeps_alive_example =
    renewal_keeps_alive same_text (codes "r") 7 0 9000000 family_bearer (3600000 ∷ 7200000 ∷ [])
      (incident 1 (some 5)) emergency {id = with_link.0} {db' = with_link.1} with_link-ok refl refl
      (omega arith, omega arith, (omega arith, omega arith, (omega arith, omega arith)))
      (omega arith)

abbrev quiet : Db
quiet = db_of []

abbrev arrived : Confirmed × Db
arrived = elim (confirm arrival 1 5 40 41 quiet) [
  | ok r ↦ r
  | err x ↦ (record { confirmed_at = 0; already_confirmed = false }, quiet)
]

arrived-ok : confirm arrival 1 5 40 41 quiet ≡ ok (arrived.0, arrived.1)
unfolding confirm confirm_first confirm_row owned_walk end_session end_running update_session get
    modify end_row is_live_in settle_safe_walk settle_rows create_audit has_key
arrived-ok = refl

confirm_again_example :
    confirm arrival 1 5 80 81 arrived.1
    ≡ ok (record { confirmed_at = arrived.0.confirmed_at; already_confirmed = true }, arrived.1)
confirm_again_example =
    confirm_again arrival 1 5 40 41 80 81 quiet {c = arrived.0} {db' = arrived.1} arrived-ok
