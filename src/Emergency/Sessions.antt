-- ===== src/Emergency/Sessions.antt =====
-- `resolveForActivation` and `endSession` of journey-session.service.ts, and safewalk.service.ts.
-- `now` is the database clock of the transaction; its locks order the calls.
use opa_security_awareness_a.Common.{
  ℕ, suc, Bool, true, false, ◌&&◌, ◌||◌, not, Option, none, some, List, [], ◌∷◌, keep, any, ltb,
  ◌==◌, if◌then◌else◌, is_none, is_some, Result, ok, guard, or_fail, ◌>>=◌, ◌>>◌,
}
use opa_security_awareness_a.Common.Text.{codes}
use opa_security_awareness_a.Common.Table.{get, add}
use opa_security_awareness_a.SafeWalk.Policy.{
  Session, Purpose, started, ended, EndReason, user_ended, satisfied, closed, Audit, create_audit,
  settle_safe_walk, Db as WalkDb, Error as WalkError,
}
use opa_security_awareness_a.SafeWalk.Escalation.{is_safewalk, is_ended}
use opa_security_awareness_a.Emergency.State.{
  Incident, Db, Error, not_found, active_emergency, session_ended, is_live, update_session,
  with_walks,
}

abbrev pub uses : ℕ → Option ℕ → Bool
uses session_id none = false
uses session_id (some k) = k == session_id

-- An incident of the session that is OPEN or ACKNOWLEDGED.
unfoldable pub is_live_in : ℕ → ℕ × Incident → Bool
is_live_in session_id (id, i) = is_live i.status && uses session_id i.journey_session_id

unfoldable pub is_open_session : ℕ → ℕ × Session → Bool
is_open_session user (id, s) = s.user_id == user && not (is_ended s.status)

-- `orderBy: { startedAt: 'desc' }` and the first row.
abbrev pub latest : List (ℕ × Session) → Option (ℕ × Session)
latest [] = none
latest ((id, s) ∷ rows) = elim (latest rows) [
  | none ↦ some (id, s)
  | some (k, t) ↦ if ltb s.started_at t.started_at then some (k, t) else some (id, s)
]

abbrev pub new_session : ℕ → Purpose → ℕ → Session
new_session user purpose now = record {
  user_id = user;
  purpose = purpose;
  status = started;
  started_at = now;
  ended_at = none;
  ended_reason = none;
  redacted_at = none;
  safe_walk_emergency_incident_id = none;
  safety_confirmed_at = none;
  arrival_confirmed_at = none;
  expected_arrival_at = none;
}

abbrev pub create_session : ℕ → Session → Db → Db
create_session id s db = record db {
  walks = record (db.walks) { sessions = add id s db.walks.sessions };
  next_session_id = suc id;
}

unfoldable pub resolve_for_activation : ℕ → Purpose → ℕ → Db → (ℕ × Session) × Db
unfolding is_open_session
resolve_for_activation user purpose now db =
    elim (latest (keep (is_open_session user) db.walks.sessions)) [
      | some (id, s) ↦ ((id, s), db)
      | none ↦
          let s = new_session user purpose now in
          ((db.next_session_id, s), create_session db.next_session_id s db)
    ]

pub record EndResult : Type 0 where
  pub session : Session
  pub already_ended : Bool

abbrev pub is_user_ended : EndReason → Bool
is_user_ended user_ended = true
is_user_ended _ = false

-- The one write that ends a session.
unfoldable pub end_row : EndReason → ℕ → Session → Session
end_row reason now s = record s { status = ended; ended_at = some now; ended_reason = some reason }

-- The walk of a session that ends is closed.
abbrev pub close_walk : ℕ → ℕ → Session → ℕ → WalkDb → Result WalkError WalkDb
close_walk user id s now walks =
    if is_safewalk s.purpose then settle_safe_walk id now closed (some user) walks else ok walks

-- The session of this user, which has not ended.
unfoldable pub end_running :
    ℕ → ℕ → Session → EndReason → ℕ → Db → Result Error (Option EndResult × Db)
unfolding is_live_in
end_running user id s reason now db = do
  guard (not (is_safewalk s.purpose && is_user_ended reason && any (is_live_in id) db.incidents))
      active_emergency
  db₁ ← with_walks db (close_walk user id s now (update_session id (end_row reason now) db).walks)
  ok (some (record { session = end_row reason now s; already_ended = false }), db₁)

-- `null` is none: no such session, or another user's.
unfoldable pub end_session : ℕ → ℕ → EndReason → ℕ → Db → Result Error (Option EndResult × Db)
unfolding end_running
end_session user id reason now db = elim (get id db.walks.sessions) [
  | none ↦ ok (none, db)
  | some s ↦
      if not (s.user_id == user)
      then ok (none, db)
      else if is_ended s.status
      then ok (some (record { session = s; already_ended = true }), db)
      else end_running user id s reason now db
]

abbrev pub wrote : Option EndResult → Bool
wrote none = false
wrote (some r) = not r.already_ended

-- The session that both operations of a walk's owner read.
unfoldable pub owned_walk : ℕ → ℕ → Db → Option Session
owned_walk user id db = elim (get id db.walks.sessions) [
  | none ↦ none
  | some s ↦
      if s.user_id == user && is_safewalk s.purpose && is_none s.redacted_at then some s else none
]

abbrev pub cancelled_audit : ℕ → ℕ → ℕ → Audit
cancelled_audit user id now = record {
  key_id = id;
  key_word = codes "cancelled";
  session_id = id;
  actor_user_id = some user;
  grant_id = none;
  kind = codes "CANCELLED";
  reason_code = codes "OWNER_CANCELLED";
  occurred_at = now;
}

unfoldable pub cancel_walk : ℕ → ℕ → ℕ → Db → Result Error (Option EndResult × Db)
unfolding is_live_in owned_walk
cancel_walk user id now db = do
  s ← or_fail (owned_walk user id db) not_found
  guard (not (is_some s.safe_walk_emergency_incident_id || any (is_live_in id) db.incidents))
      active_emergency
  r ← end_session user id user_ended now db
  db₁ ←
      with_walks r.1
        (if wrote r.0 then create_audit (cancelled_audit user id now) r.1.walks else ok r.1.walks)
  ok (r.0, db₁)

pub data Confirmation : Type 0 where
  safety arrival : Confirmation

abbrev pub is_arrival : Confirmation → Bool
is_arrival arrival = true
is_arrival safety = false

abbrev pub confirmed_before : Confirmation → Session → Option ℕ
confirmed_before arrival s = s.arrival_confirmed_at
confirmed_before safety s = s.safety_confirmed_at

unfoldable pub confirm_row : Confirmation → ℕ → Session → Session
confirm_row arrival now s = record s { arrival_confirmed_at = some now }
confirm_row safety now s = record s { safety_confirmed_at = some now }

abbrev pub confirm_audit : Confirmation → ℕ → ℕ → ℕ → Audit
confirm_audit kind user id now = record {
  key_id = id;
  key_word = elim kind [ arrival ↦ codes "arrival" | safety ↦ codes "safety" ];
  session_id = id;
  actor_user_id = some user;
  grant_id = none;
  kind = elim kind [ arrival ↦ codes "ARRIVAL_CONFIRMED" | safety ↦ codes "SAFETY_CONFIRMED" ];
  reason_code = codes "OWNER_CONFIRMED";
  occurred_at = now;
}

pub record Confirmed : Type 0 where
  pub confirmed_at : ℕ
  pub already_confirmed : Bool

-- A first confirmation. `clock` is clock_timestamp(), `now` the transaction's now().
unfoldable pub confirm_first : Confirmation → ℕ → ℕ → ℕ → ℕ → Db → Result Error (Confirmed × Db)
unfolding confirm_row
confirm_first kind user id clock now db = do
  db₁ ← with_walks db (
      create_audit (confirm_audit kind user id clock)
        (update_session id (confirm_row kind clock) db).walks
      >>= settle_safe_walk id clock satisfied (some user))
  db₂ ←
      (if is_arrival kind
        then (end_session user id user_ended now db₁ >>= λ (r : Option EndResult × Db). ok r.1)
        else ok db₁)
  ok (record { confirmed_at = clock; already_confirmed = false }, db₂)

unfoldable pub confirm : Confirmation → ℕ → ℕ → ℕ → ℕ → Db → Result Error (Confirmed × Db)
unfolding is_live_in owned_walk confirm_first
confirm kind user id clock now db = or_fail (owned_walk user id db) not_found >>= λ (s : Session).
    elim (confirmed_before kind s) [
      | some at ↦
          (with_walks db (settle_safe_walk id at satisfied (some user) db.walks) >>= λ db₁.
          ok (record { confirmed_at = at; already_confirmed = true }, db₁))
      | none ↦
          (guard (not (is_ended s.status)) session_ended
            >> (guard (not (is_arrival kind && any (is_live_in id) db.incidents)) active_emergency
                >> confirm_first kind user id clock now db))
    ]
