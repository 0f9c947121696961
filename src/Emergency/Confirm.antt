-- ===== src/Emergency/Confirm.antt =====
-- A confirmation that is sent again.
use opa_security_awareness_a.Common.{
  ℕ, ◌≡◌, refl, sym, ap, subst, ◌∙◌, inl, inr, true, false, Option, some, Result, ok, arith, ◌>>=◌,
  Bool-cases, Option-cases, Result-cases, >>=-eq-ok, if◌then◌else◌,
}
use opa_security_awareness_a.Common.Table.{get, modify, get-modify_self}
use opa_security_awareness_a.SafeWalk.Policy.{
  Session, State, satisfied, Db as WalkDb, Error as WalkError, settle_rows, settle_safe_walk,
  create_audit, user_ended,
}
use opa_security_awareness_a.Emergency.State.{Db, Error, update_session}
use opa_security_awareness_a.Emergency.Sessions.{
  EndResult, wrote, end_row, end_session, owned_walk, Confirmation, safety, arrival, is_arrival,
  confirmed_before, confirm_row, confirm_audit, Confirmed, confirm_first, confirm,
}
use opa_security_awareness_a.Emergency.Frames.{end_session-Ends}
use opa_security_awareness_a.Emergency.Settled.{
  IsSettledWalk, settle-IsSettledWalk, settle-IsSettledWalk_same, end_session-walk,
  IsSettledWalk-same,
}

-- A walk of the user that is confirmed and settled.
abbrev IsDone : Confirmation → ℕ → ℕ → ℕ → Db → Type 0
IsDone kind user id at db =
    IsSettledWalk id db.walks
    × ((s : Session) × (owned_walk user id db ≡ some s) × (confirmed_before kind s ≡ some at))

confirm-IsDone :
    (kind : Confirmation) (user id at clock now : ℕ) (db : Db)
    → IsDone kind user id at db
    → confirm kind user id clock now db
      ≡ ok (record { confirmed_at = at; already_confirmed = true }, db)
unfolding confirm
confirm-IsDone kind user id at clock now db (settled, (s, e, c)) =
    ground (arith, settle-IsSettledWalk_same id at satisfied (some user) db.walks settled)

-- A write that keeps the owner, the purpose and the redaction of a session keeps it the owner's walk.
owned_walk-modify :
    (user id : ℕ) (f : Session → Session) (db db' : Db) {s : Session}
    → db'.walks.sessions ≡ modify id f db.walks.sessions
    → (f s).user_id ≡ s.user_id
    → (f s).purpose ≡ s.purpose
    → (f s).redacted_at ≡ s.redacted_at
    → owned_walk user id db ≡ some s
    → owned_walk user id db' ≡ some (f s)
unfolding owned_walk
owned_walk-modify user id f db db' {s} rows a b c h =
    elim (Option-cases (get id db.walks.sessions)) [
      | inl n ↦ ground arith
      | inr (u, e) ↦
          let q : u ≡ s = ground arith in
          ground (arith, get-modify_self id f db.walks.sessions {a = s} (e ∙ ap some q))
    ]

owned_walk-same :
    (user id : ℕ) (db db' : Db)
    → db'.walks.sessions ≡ db.walks.sessions
    → owned_walk user id db' ≡ owned_walk user id db
unfolding owned_walk
owned_walk-same user id db db' rows = ground arith

end_session-IsDone :
    (user id : ℕ) (at now : ℕ) (db : Db) {r : Option EndResult} {db' : Db}
    → IsDone arrival user id at db
    → end_session user id user_ended now db ≡ ok (r, db')
    → IsDone arrival user id at db'
unfolding owned_walk end_row
end_session-IsDone user id at now db {r} {db'} (settled, (s, e, c)) h =
    let (x, y) = end_session-walk user id user_ended now db {r = r} {db' = db'} settled h in
    let (w, q, rows) = end_session-Ends user id user_ended now db {r = r} {db' = db'} h in
    (
      IsSettledWalk-same id db.walks db'.walks x y settled,
      elim (Bool-cases (wrote r)) [
        | inr kept ↦ (s, owned_walk-same user id db db' (ground arith) ∙ e, c)
        | inl written ↦ (
          end_row user_ended now s,
          owned_walk-modify user id (end_row user_ended now) db db' (ground arith) refl refl refl e,
          c,
        )
      ],
    )

create_audit-same :
    (a : _) (w : WalkDb) {w' : WalkDb} → create_audit a w ≡ ok w' → w'.sessions ≡ w.sessions
unfolding create_audit
create_audit-same a w h = ground arith

settle-same :
    (id now : ℕ) (s : State) (actor : Option ℕ) (w : WalkDb) {w' : WalkDb}
    → settle_safe_walk id now s actor w ≡ ok w'
    → w'.sessions ≡ w.sessions
unfolding settle_safe_walk settle_rows create_audit
settle-same id now s actor w h = ground arith

confirmed_row :
    (kind : Confirmation) (at : ℕ) (s : Session)
    → (confirmed_before kind (confirm_row kind at s) ≡ some at)
      × ((confirm_row kind at s).user_id ≡ s.user_id)
      × ((confirm_row kind at s).purpose ≡ s.purpose)
      × ((confirm_row kind at s).redacted_at ≡ s.redacted_at)
unfolding confirm_row
confirmed_row safety at s = (refl, refl, refl, refl)
confirmed_row arrival at s = (refl, refl, refl, refl)

-- The writes of a first confirmation, before an arrival ends the session.
confirm_write :
    (kind : Confirmation) (user id clock : ℕ) (db : Db) {s : Session} {w : WalkDb}
    → owned_walk user id db ≡ some s
    → (create_audit
          (confirm_audit kind user id clock)
          (update_session id (confirm_row kind clock) db).walks
        >>= settle_safe_walk id clock satisfied (some user))
      ≡ ok w
    → IsDone kind user id clock (record db { walks = w })
unfolding update_session
confirm_write kind user id clock db {s} {w} e h =
    let start = (update_session id (confirm_row kind clock) db).walks in
    let (w₁, a, b) =
      >>=-eq-ok (create_audit (confirm_audit kind user id clock) start)
        (settle_safe_walk id clock satisfied (some user)) h in
    let (c, x, y, z) = confirmed_row kind clock s in
    (
      settle-IsSettledWalk id clock satisfied (some user) w₁ {w' = w} refl b,
      (
        confirm_row kind clock s,
        owned_walk-modify user id (confirm_row kind clock) db (record db { walks = w })
            (settle-same id clock satisfied (some user) w₁ b
              ∙ create_audit-same (confirm_audit kind user id clock) start a)
            x y z e,
        c,
      ),
    )

abbrev first_writes : Confirmation → ℕ → ℕ → ℕ → Db → Result WalkError WalkDb
first_writes kind user id clock db =
    create_audit (confirm_audit kind user id clock)
      (update_session id (confirm_row kind clock) db).walks
    >>= settle_safe_walk id clock satisfied (some user)

abbrev last_write : Confirmation → ℕ → ℕ → ℕ → Db → Result Error Db
last_write kind user id now db =
    if is_arrival kind
    then (end_session user id user_ended now db >>= λ (r : Option EndResult × Db). ok r.1)
    else ok db

abbrev as_confirmed : ℕ → Db → Result Error (Confirmed × Db)
as_confirmed clock db = ok (record { confirmed_at = clock; already_confirmed = false }, db)

confirm_end :
    (kind : Confirmation) (user id clock now : ℕ) (db : Db) {c : Confirmed} {db' : Db}
    → IsDone kind user id clock db
    → (last_write kind user id now db >>= as_confirmed clock) ≡ ok (c, db')
    → (c.confirmed_at ≡ clock) × IsDone kind user id clock db'
confirm_end safety user id clock now db {c} {db'} done h =
    (ground arith, subst (IsDone safety user id clock) {x = db} (ground arith) done)
confirm_end arrival user id clock now db {c} {db'} done h =
    elim (Result-cases (end_session user id user_ended now db)) [
      | inr (x, f) ↦ ground arith
      | inl ((r, db₂), f) ↦ (
        ground arith,
        subst (IsDone arrival user id clock) {x = db₂} (ground arith)
            (end_session-IsDone user id clock now db {r = r} {db' = db₂} done f),
      )
    ]

confirm_first-IsDone :
    (kind : Confirmation) (user id clock now : ℕ) (db : Db) {s : Session} {c : Confirmed} {db' : Db}
    → owned_walk user id db ≡ some s
    → confirm_first kind user id clock now db ≡ ok (c, db')
    → (c.confirmed_at ≡ clock) × IsDone kind user id clock db'
unfolding confirm_first
confirm_first-IsDone kind user id clock now db {s} {c} {db'} e h =
    elim (Result-cases (first_writes kind user id clock db)) [
      | inr (x, f) ↦ ground arith
      | inl (w, f) ↦
          confirm_end kind user id clock now (record db { walks = w }) {c = c} {db' = db'}
            (confirm_write kind user id clock db {s = s} {w = w} e f) (ground arith)
    ]

confirm-IsDone_after :
    (kind : Confirmation) (user id clock now : ℕ) (db : Db) {c : Confirmed} {db' : Db}
    → confirm kind user id clock now db ≡ ok (c, db')
    → IsDone kind user id c.confirmed_at db'
unfolding confirm
confirm-IsDone_after kind user id clock now db {c} {db'} h =
    elim (Option-cases (owned_walk user id db)) [
      | inl n ↦ ground arith
      | inr (s, e) ↦ elim (Option-cases (confirmed_before kind s)) [
        | inl first ↦
            let g : confirm_first kind user id clock now db ≡ ok (c, db') = ground arith in
            let (q, done) = confirm_first-IsDone kind user id clock now db e g in
            subst (λ at. IsDone kind user id at db') (sym q) done
        | inr (at, before) ↦
            elim (Result-cases (settle_safe_walk id at satisfied (some user) db.walks)) [
              | inr (x, f) ↦ ground arith
              | inl (w, f) ↦
                  let q : db' ≡ record db { walks = w } = ground arith in
                  let r : c.confirmed_at ≡ at = ground arith in
                  rw q (
                    rw r (
                      settle-IsSettledWalk id at satisfied (some user) db.walks {w' = w} refl f,
                      (
                        s,
                        owned_walk-same user id db (record db { walks = w })
                              (settle-same id at satisfied (some user) db.walks {w' = w} f)
                            ∙ e,
                        before,
                      ),
                    ))
            ]
      ]
    ]

-- A confirmation of safety or of arrival that succeeded can be sent again at any time: the second
-- call gives the time of the first, says that it was confirmed already, and changes no table.
pub confirm_again :
    (kind : Confirmation) (user id clock now clock' now' : ℕ) (db : Db) {c : Confirmed} {db' : Db}
    → confirm kind user id clock now db ≡ ok (c, db')
    → confirm kind user id clock' now' db'
      ≡ ok (record { confirmed_at = c.confirmed_at; already_confirmed = true }, db')
confirm_again kind user id clock now clock' now' db {c} {db'} h =
    confirm-IsDone kind user id c.confirmed_at clock' now' db'
      (confirm-IsDone_after kind user id clock now db h)
