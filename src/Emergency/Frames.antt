-- ===== src/Emergency/Frames.antt =====
-- What ending a session, and the end of a close, do to each table.
use opa_security_awareness_a.Common.{
  ℕ, ◌≡◌, refl, ◌⊎◌, inl, inr, true, false, Option, none, some, map, keep, length, any, ok,
  Result-cases, Bool-cases, Option-cases, arith, ◌==◌, if◌then◌else◌,
}
use opa_security_awareness_a.Common.Text.{Text}
use opa_security_awareness_a.Common.Iso.{iso}
use opa_security_awareness_a.Common.Table.{get, modify}
use opa_security_awareness_a.SafeWalk.Policy.{
  Session, EndReason, closed, settle_safe_walk, create_audit, Db as WalkDb, settle_rows,
}
use opa_security_awareness_a.SafeWalk.Escalation.{is_safewalk, is_ended}
use opa_security_awareness_a.Timeline.Chain.{Params, record_event}
use opa_security_awareness_a.Emergency.State.{Db, update_session}
use opa_security_awareness_a.Emergency.Tokens.{revoke_all_for_incident, is_live_of, revoke_if_live}
use opa_security_awareness_a.Emergency.Sessions.{
  EndResult, end_session, end_running, end_row, wrote, close_walk,
}
use opa_security_awareness_a.Emergency.Lifecycle.{
  Times, Target, status_of, resolved_at_of, is_other_open, release_session, Closed, finish,
}

create_audit-sessions :
    (a : _) (db : WalkDb) {db' : WalkDb} → create_audit a db ≡ ok db' → db'.sessions ≡ db.sessions
unfolding create_audit
create_audit-sessions a db h = ground arith

settle-sessions :
    (id now : ℕ) (s : _) (actor : Option ℕ) (db : WalkDb) {db' : WalkDb}
    → settle_safe_walk id now s actor db ≡ ok db'
    → db'.sessions ≡ db.sessions
unfolding settle_safe_walk settle_rows create_audit
settle-sessions id now s actor db h = ground arith

-- What ending a session did: nothing to the other tables, and to the sessions nothing or one write.
abbrev pub Ends : ℕ → EndReason → ℕ → Option EndResult → Db → Db → Type 0
Ends id reason now r db db' =
    (w : WalkDb) × (db' ≡ record db { walks = w })
    × (w.sessions
        ≡ (if wrote r then modify id (end_row reason now) db.walks.sessions else db.walks.sessions))

close_walk-sessions :
    (user id : ℕ) (s : Session) (now : ℕ) (w : WalkDb) {w' : WalkDb}
    → close_walk user id s now w ≡ ok w'
    → w'.sessions ≡ w.sessions
close_walk-sessions user id s now w {w'} h = elim (Bool-cases (is_safewalk s.purpose)) [
  | inl c ↦ settle-sessions id now closed (some user) w {db' = w'} (ground arith)
  | inr c ↦ ground arith
]

end_running-Ends :
    (user id : ℕ) (s : Session) (reason : EndReason) (now : ℕ) (db : Db) {r : Option EndResult}
    {db' : Db}
    → end_running user id s reason now db ≡ ok (r, db')
    → Ends id reason now r db db'
unfolding end_running update_session
end_running-Ends user id s reason now db {r} {db'} h =
    let start = (update_session id (end_row reason now) db).walks in
    elim (Result-cases (close_walk user id s now start)) [
      | inr (x, e) ↦ (db.walks, ground arith, ground arith)
      | inl (w, e) ↦
          (w, ground arith, ground (arith, close_walk-sessions user id s now start {w' = w} e))
    ]

pub end_session-Ends :
    (user id : ℕ) (reason : EndReason) (now : ℕ) (db : Db) {r : Option EndResult} {db' : Db}
    → end_session user id reason now db ≡ ok (r, db')
    → Ends id reason now r db db'
unfolding end_session
end_session-Ends user id reason now db {r} {db'} h =
    elim (Option-cases (get id db.walks.sessions)) [
      | inl n ↦ (db.walks, ground arith, ground arith)
      | inr (s, e) ↦ elim (Bool-cases (s.user_id == user)) [
        | inr foreign ↦ (db.walks, ground arith, ground arith)
        | inl own ↦ elim (Bool-cases (is_ended s.status)) [
          | inl over ↦ (db.walks, ground arith, ground arith)
          | inr running ↦
              end_running-Ends user id s reason now db {r = r} {db' = db'} (ground arith)
        ]
      ]
    ]

-- A session of the user that has not ended.
abbrev pub Running : ℕ → ℕ → Db → Type 0
Running user id db =
    (s : Session) × (get id db.walks.sessions ≡ some s)
    × (s.user_id ≡ user)
    × (is_ended s.status ≡ false)

end_session-Running :
    (user id : ℕ) (reason : EndReason) (now : ℕ) (db : Db) {r : Option EndResult} {db' : Db}
    → end_session user id reason now db ≡ ok (r, db')
    → wrote r ≡ true
    → Running user id db
unfolding end_session
end_session-Running user id reason now db {r} {db'} h k =
    elim (Option-cases (get id db.walks.sessions)) [
      | inl n ↦ ground arith
      | inr (s, e) ↦ (s, e, ground arith, ground arith)
    ]

-- The same of the release of an incident's session.
abbrev pub Releases : ℕ → Option ℕ → ℕ → EndReason → ℕ → Option ℕ → Db → Db → Type 0
Releases incident_id session user reason now r db db' =
    (w : WalkDb) × (db' ≡ record db { walks = w })
    × (((r ≡ none) × (w.sessions ≡ db.walks.sessions))
        ⊎ ((id : ℕ) × (r ≡ some id)
            × (session ≡ some id)
            × (any (is_other_open incident_id id) db.incidents ≡ false)
            × Running user id db
            × (w.sessions ≡ modify id (end_row reason now) db.walks.sessions)))

pub release_session-Releases :
    (incident_id : ℕ) (session : Option ℕ) (user : ℕ) (reason : EndReason) (now : ℕ) (db : Db)
    {r : Option ℕ} {db' : Db}
    → release_session incident_id session user reason now db ≡ ok (r, db')
    → Releases incident_id session user reason now r db db'
unfolding release_session
release_session-Releases incident_id none user reason now db h =
    (db.walks, ground arith, inl (ground arith))
release_session-Releases incident_id (some id) user reason now db {r} {db'} h =
    elim (Bool-cases (any (is_other_open incident_id id) db.incidents)) [
      | inl used ↦ (db.walks, ground arith, inl (ground arith))
      | inr free ↦ elim (Result-cases (end_session user id reason now db)) [
        | inr (x, e) ↦ (db.walks, ground arith, inl (ground arith))
        | inl ((ending, db₁), e) ↦
            let (w, q, rows) = end_session-Ends user id reason now db {r = ending} {db' = db₁} e in
            elim (Bool-cases (wrote ending)) [
              | inl written ↦ (
                w,
                ground arith,
                inr (
                  id,
                  ground arith,
                  refl,
                  free,
                  end_session-Running user id reason now db {r = ending} {db' = db₁} e written,
                  ground arith,
                ),
              )
              | inr kept ↦ (w, ground arith, inl (ground arith))
            ]
      ]
    ]

-- The sessions after a close, when `r` is the session that it reports as ended.
abbrev pub Released : ℕ → Option ℕ → ℕ → EndReason → ℕ → Option ℕ → Db → Db → Type 0
Released incident_id session user reason now r db db' =
    ((r ≡ none) × (db'.walks.sessions ≡ db.walks.sessions))
    ⊎ ((id : ℕ) × (r ≡ some id)
        × (session ≡ some id)
        × (any (is_other_open incident_id id) db.incidents ≡ false)
        × Running user id db
        × (db'.walks.sessions ≡ modify id (end_row reason now) db.walks.sessions))

-- What the end of a close or a reconciliation does to each table.
abbrev pub Finishes :
    (Text → Text)
    → ℕ
    → Option ℕ
    → ℕ
    → Target
    → EndReason
    → (ℕ → Option ℕ → Params)
    → Times
    → Closed
    → Db
    → Db
    → Type 0
Finishes hex id session user target reason event at r db db' =
    (db'.incidents ≡ db.incidents)
    × (db'.tokens ≡ map (revoke_if_live id at.revoked_at) db.tokens)
    × (db'.timeline
        ≡ record_event hex (event r.revoked_tokens r.ended_journey_session_id) (iso at.called_at)
            db.timeline)
    × (r.revoked_tokens ≡ length (keep (is_live_of id) db.tokens))
    × (r.status ≡ status_of target)
    × (r.resolved_at ≡ resolved_at_of target at.called_at)
    × Released id session user reason at.transaction_at r.ended_journey_session_id db db'

pub finish-Finishes :
    (hex : Text → Text) (id : ℕ) (session : Option ℕ) (user : ℕ) (target : Target)
    (reason : EndReason) (event : ℕ → Option ℕ → Params) (at : Times) (db : Db) {r : Closed}
    {db' : Db}
    → finish hex id session user target reason event at db ≡ ok (r, db')
    → Finishes hex id session user target reason event at r db db'
unfolding finish revoke_all_for_incident
finish-Finishes hex id session user target reason event at db {r} {db'} h =
    elim (Result-cases (release_session id session user reason at.transaction_at db)) [
      | inr (x, e) ↦ ground arith
      | inl ((done, db₁), e) ↦
          let (w, q, rows) =
            release_session-Releases id session user reason at.transaction_at db {r = done}
              {db' = db₁} e in
          (
            ground arith,
            ground arith,
            ground arith,
            ground arith,
            ground arith,
            ground arith,
            elim rows [
              | inl (u, v) ↦ inl (ground arith)
              | inr (k, u, v, free, running, written) ↦
                  inr (k, ground arith, v, free, running, ground arith)
            ],
          )
    ]
