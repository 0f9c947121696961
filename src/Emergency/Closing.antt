-- ===== src/Emergency/Closing.antt =====
-- What `close` and `reconcileLegacyDuplicate` promise.
use opa_security_awareness_a.Common.{
  ℕ, ◌≡◌, refl, inl, inr, true, false, Option, some, [], ◌∷◌, map, keep, length, ok, Option-cases,
  arith, ◌==◌,
}
use opa_security_awareness_a.Common.Text.{Text}
use opa_security_awareness_a.Common.Iso.{iso}
use opa_security_awareness_a.Common.Table.{Table, get, get-modify, get-modify_self}
use opa_security_awareness_a.Timeline.Chain.{record_event}
use opa_security_awareness_a.Emergency.State.{
  Incident, IncidentStatus, open', Token, Db, is_open, update_incident,
}
use opa_security_awareness_a.Emergency.Tokens.{is_live_of, revoke_if_live}
use opa_security_awareness_a.Emergency.Lifecycle.{
  Times, Target, status_of, resolved_at_of, reason_of, close_row, close_event, Closed,
  owned_incident, close,
}
use opa_security_awareness_a.Emergency.Frames.{Finishes, finish-Finishes}

abbrev after_update : ℕ → Target → Times → Db → Db
after_update id target at db = update_incident id (close_row target at.called_at) db

-- What a close that succeeds read, and what it did.
abbrev Closes :
    (Text → Text) → ℕ → ℕ → Target → Option Text → Times → Closed → Db → Db → Incident → Type 0
Closes hex id user target reason at r db db' i =
    (get id db.incidents ≡ some i)
    × (i.user_id ≡ user)
    × (i.status ≡ open')
    × Finishes hex id i.journey_session_id user target (reason_of target)
        (close_event id user target reason at.called_at) at r (after_update id target at db) db'

open_status : (s : IncidentStatus) → is_open s ≡ true → s ≡ open'
open_status open' h = refl
open_status IncidentStatus.acknowledged h = cc
open_status IncidentStatus.resolved h = cc
open_status IncidentStatus.cancelled h = cc

close-Closes :
    (hex : Text → Text) (id user : ℕ) (target : Target) (reason : Option Text) (at : Times)
    (db : Db) {r : Closed} {db' : Db}
    → close hex id user target reason at db ≡ ok (r, db')
    → (i : Incident) × Closes hex id user target reason at r db db' i
unfolding close owned_incident
close-Closes hex id user target reason at db {r} {db'} h =
    elim (Option-cases (get id db.incidents)) [
      | inl n ↦ ground arith
      | inr (i, e) ↦
          let own : i.user_id ≡ user = ground arith in
          let running : is_open i.status ≡ true = ground arith in
          (
            i,
            (
              e,
              own,
              open_status i.status running,
              finish-Finishes hex id i.journey_session_id user target (reason_of target)
                  (close_event id user target reason at.called_at) at (after_update id target at db)
                  {r = r} {db' = db'} (ground arith),
            ),
          )
    ]

keep-revoke_if_live :
    (id now : ℕ) (ts : Table Token) → keep (is_live_of id) (map (revoke_if_live id now) ts) ≡ []
unfolding is_live_of
keep-revoke_if_live id now [] = refl
keep-revoke_if_live id now ((k, t) ∷ ts) = ground (arith, keep-revoke_if_live id now ts)

-- A close that succeeds was asked for an open incident of the user. It gives that incident its
-- terminal status, with a resolution time for a resolved one only, and leaves every other incident
-- alone; it revokes each token of the incident that was live, says how many these were and leaves
-- none live; and it appends one event, with the count and the session it ended, to the timeline.
pub close_effects :
    (hex : Text → Text) (id user : ℕ) (target : Target) (reason : Option Text) (at : Times) (j : ℕ)
    (db : Db) {r : Closed} {db' : Db}
    → close hex id user target reason at db ≡ ok (r, db')
    → (id == j) ≡ false
    → (i : Incident) × (get id db.incidents ≡ some i)
      × (i.user_id ≡ user)
      × (i.status ≡ open')
      × (get id db'.incidents
          ≡ some (record i {
            status = status_of target;
            resolved_at = resolved_at_of target at.called_at;
          }))
      × (get j db'.incidents ≡ get j db.incidents)
      × (keep (is_live_of id) db'.tokens ≡ [])
      × (r.revoked_tokens ≡ length (keep (is_live_of id) db.tokens))
      × (db'.timeline
          ≡ record_event hex
              (close_event id user target reason at.called_at r.revoked_tokens
                r.ended_journey_session_id)
              (iso at.called_at)
              db.timeline)
unfolding update_incident close_row
close_effects hex id user target reason at j db {r} {db'} h other =
    let (i, (e, own, running, (rows, tokens, events, count, status, at', released))) =
      close-Closes hex id user target reason at db {r = r} {db' = db'} h in
    (
      i,
      e,
      own,
      running,
      ground (arith, get-modify_self id (close_row target at.called_at) db.incidents e),
      ground (arith, get-modify j id (close_row target at.called_at) db.incidents),
      ground (arith, keep-revoke_if_live id at.revoked_at db.tokens),
      ground arith,
      ground arith,
    )
