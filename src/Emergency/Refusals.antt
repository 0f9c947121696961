-- ===== src/Emergency/Refusals.antt =====
-- When `close` refuses, when it cannot, and what it says to a second call.
use opa_security_awareness_a.Common.{
  ℕ, suc, ◌≡◌, ◌↔◌, refl, sym, ap, ◌∙◌, ◌⊎◌, inl, inr, Bool, true, false, not, ◌&&◌, Option, none,
  some, any, ok, err, Result-cases, Bool-cases, Option-cases, arith, ◌==◌,
}
use opa_security_awareness_a.Common.Text.{Text, codes}
use opa_security_awareness_a.Common.Table.{get}
use opa_security_awareness_a.SafeWalk.Policy.{
  Session, EndReason, incident_resolved, has_key, open_escalation, settle_safe_walk, settle_rows,
  create_audit, Db as WalkDb,
}
use opa_security_awareness_a.Timeline.Chain.{Params}
use opa_security_awareness_a.Emergency.State.{
  Incident, IncidentStatus, open', Db, Error, not_found, already, active_emergency, walk_failed,
  is_open, update_incident, update_session,
}
use opa_security_awareness_a.Emergency.Sessions.{end_session, end_running, end_row, close_walk}
use opa_security_awareness_a.Emergency.Lifecycle.{
  Times, Target, to_resolved, to_cancelled, status_of, reason_of, close_row, close_event,
  release_session, Closed, owned_incident, finish, close, reconcile_legacy_duplicate,
}
use opa_security_awareness_a.Emergency.Closing.{close_effects}

-- The refusals that come from the session of the incident.
abbrev from_session : Error → Bool
from_session active_emergency = true
from_session (walk_failed x) = true
from_session _ = false

end_session-from_session :
    (user id : ℕ) (reason : EndReason) (now : ℕ) (db : Db) {x : Error}
    → end_session user id reason now db ≡ err x
    → from_session x ≡ true
unfolding end_session end_running
end_session-from_session user id reason now db {x} h =
    elim (Option-cases (get id db.walks.sessions)) [
      | inl n ↦ ground arith
      | inr (s, e) ↦
          elim (Result-cases
            (close_walk user id s now (update_session id (end_row reason now) db).walks)) [
              | inl (w, k) ↦ ground arith
              | inr (y, k) ↦ ground arith
            ]
    ]

finish-from_session :
    (hex : Text → Text) (id : ℕ) (session : Option ℕ) (user : ℕ) (target : Target)
    (reason : EndReason) (event : ℕ → Option ℕ → Params) (at : Times) (db : Db) {x : Error}
    → finish hex id session user target reason event at db ≡ err x
    → from_session x ≡ true
unfolding finish release_session
finish-from_session hex id none user target reason event at db h = ground arith
finish-from_session hex id (some k) user target reason event at db {x} h =
    elim (Result-cases (end_session user k reason at.transaction_at db)) [
      | inl (w, e) ↦ ground arith
      | inr (y, e) ↦
          ground (arith, end_session-from_session user k reason at.transaction_at db {x = y} e)
    ]

-- A close of the user's own open incident is refused on account of its session only.
close-from_session :
    (hex : Text → Text) (id user : ℕ) (target : Target) (reason : Option Text) (at : Times)
    (db : Db) {i : Incident} {x : Error}
    → get id db.incidents ≡ some i
    → i.user_id ≡ user
    → is_open i.status ≡ true
    → close hex id user target reason at db ≡ err x
    → from_session x ≡ true
unfolding close owned_incident
close-from_session hex id user target reason at db {i} {x} e own running h =
    finish-from_session hex id i.journey_session_id user target (reason_of target)
      (close_event id user target reason at.called_at) at
      (update_incident id (close_row target at.called_at) db) {x = x} (ground arith)

-- A close says "not found" exactly when there is no such incident or it is another user's, and says
-- that the incident already has status `s` exactly when it is the user's own with a status that is
-- not open: these two refusals leave every other cause out.
pub close_refusals :
    (hex : Text → Text) (id user : ℕ) (target : Target) (reason : Option Text) (at : Times)
    (s : IncidentStatus) (db : Db)
    → ((close hex id user target reason at db ≡ err not_found) ↔ (
        (get id db.incidents ≡ none)
        ⊎ ((i : Incident) × (get id db.incidents ≡ some i) × ((i.user_id == user) ≡ false))))
      × ((close hex id user target reason at db ≡ err (already s)) ↔ (
          (i : Incident) × (get id db.incidents ≡ some i)
          × (i.user_id ≡ user)
          × (i.status ≡ s)
          × (is_open s ≡ false)))
unfolding close owned_incident
close_refusals hex id user target reason at s db = (
  (
    λ h. elim (Option-cases (get id db.incidents)) [
      | inl n ↦ inl n
      | inr (i, e) ↦ elim (Bool-cases (i.user_id == user)) [
        | inr foreign ↦ inr (i, e, foreign)
        | inl own ↦ elim (Bool-cases (is_open i.status)) [
          | inl o ↦ ground (
            arith,
            close-from_session hex id user target reason at db {x = not_found} e (ground arith) o h,
          )
          | inr o ↦ ground arith
        ]
      ]
    ],
    λ h. elim h [ inl n ↦ ground arith | inr (i, e, foreign) ↦ ground arith ],
  ),
  (
    λ h. elim (Option-cases (get id db.incidents)) [
      | inl n ↦ ground arith
      | inr (i, e) ↦ elim (Bool-cases (i.user_id == user)) [
        | inr foreign ↦ ground arith
        | inl own ↦ elim (Bool-cases (is_open i.status)) [
          | inl o ↦ ground (
            arith,
            close-from_session hex id user target reason at db {x = already s} e (ground arith) o h,
          )
          | inr o ↦
              let q : i.status ≡ s = ground arith in (i, e, ground arith, q, ap is_open (sym q) ∙ o)
        ]
      ]
    ],
    λ (i, e, own, q, o). ground arith,
  ),
)

status_of-closed : (target : Target) → is_open (status_of target) ≡ false
status_of-closed to_resolved = refl
status_of-closed to_cancelled = refl

-- After a close that succeeded, a second close by the user, to either outcome, and a legacy
-- reconciliation are refused with the status that the first one gave.
pub close_again :
    (hex : Text → Text) (id user evidence_id expected : ℕ) (target target' : Target)
    (reason reason' : Option Text) (at at' : Times) (db : Db) {r : Closed} {db' : Db}
    → close hex id user target reason at db ≡ ok (r, db')
    → (close hex id user target' reason' at' db' ≡ err (already (status_of target)))
      × (reconcile_legacy_duplicate hex id user evidence_id expected at' db'
          ≡ err (already (status_of target)))
unfolding close owned_incident reconcile_legacy_duplicate
close_again hex id user evidence_id expected target target' reason reason' at at' db {r} {db'} h =
    let (i, e, own, was, row, other, tokens, count, events) =
      close_effects hex id user target reason at (suc id) db {r = r} {db' = db'} h (ground arith) in
    ground (arith, status_of-closed target)

-- A walk that is not settled yet has no audit row that says it is.
unfoldable pub settleable : Option ℕ → WalkDb → Bool
settleable none w = true
settleable (some k) w =
    not (open_escalation (get k w.escalations) && any (has_key k (codes "settled")) w.audits)

close_walk-ok :
    (user id : ℕ) (s : Session) (now : ℕ) (w : WalkDb)
    → settleable (some id) w ≡ true
    → (w' : WalkDb) × (close_walk user id s now w ≡ ok w')
unfolding settle_safe_walk settle_rows create_audit settleable
close_walk-ok user id s now w h = elim (Result-cases (close_walk user id s now w)) [
  | inl found ↦ found
  | inr (x, e) ↦ ground arith
]

end_session-ok :
    (user id now : ℕ) (db : Db)
    → settleable (some id) db.walks ≡ true
    → (r : _) × (end_session user id incident_resolved now db ≡ ok r)
unfolding end_session end_running update_session settleable
end_session-ok user id now db h =
    elim (Result-cases (end_session user id incident_resolved now db)) [
      | inl found ↦ found
      | inr (x, e) ↦ elim (Option-cases (get id db.walks.sessions)) [
        | inl n ↦ ground arith
        | inr (s, g) ↦
            let start = (update_session id (end_row incident_resolved now) db).walks in
            let (w, k) = close_walk-ok user id s now start (ground arith) in ground arith
      ]
    ]

release_session-ok :
    (id : ℕ) (session : Option ℕ) (user now : ℕ) (db : Db)
    → settleable session db.walks ≡ true
    → (r : Option ℕ × Db) × (release_session id session user incident_resolved now db ≡ ok r)
unfolding release_session
release_session-ok id none user now db h = ((none, db), refl)
release_session-ok id (some k) user now db h =
    elim (Result-cases (release_session id (some k) user incident_resolved now db)) [
      | inl found ↦ found
      | inr (x, e) ↦ let (r, g) = end_session-ok user k now db h in ground arith
    ]

-- The owner of an open incident can resolve it, whatever its session, its tokens and the other
-- incidents are, provided that a walk of its session which is not settled yet has no audit row that
-- says it is.
pub resolve_succeeds :
    (hex : Text → Text) (id user : ℕ) (reason : Option Text) (at : Times) (db : Db) (i : Incident)
    → get id db.incidents ≡ some i
    → i.user_id ≡ user
    → i.status ≡ open'
    → settleable i.journey_session_id db.walks ≡ true
    → (r : Closed) × (db' : Db) × (close hex id user to_resolved reason at db ≡ ok (r, db'))
unfolding close owned_incident finish release_session update_incident
resolve_succeeds hex id user reason at db i e own running h =
    elim (Result-cases (close hex id user to_resolved reason at db)) [
      | inl ((r, db'), found) ↦ (r, db', found)
      | inr (x, refused) ↦
          let (r, g) =
            release_session-ok id i.journey_session_id user at.transaction_at
              (update_incident id (close_row to_resolved at.called_at) db) h in
          ground arith
    ]
