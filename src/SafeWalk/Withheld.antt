-- ===== src/SafeWalk/Withheld.antt =====
-- A mail about a walk leaves only with the consent that stands when it is authorized.
use opa_security_awareness_a.Common.{
  ℕ, ◌≡◌, refl, sym, ap, ◌∙◌, subst, inl, inr, true, false, ◌&&◌, ◌||◌, Option, none, some, List,
  [], ◌∷◌, find, ok, arith, Bool-cases, Option-cases, is_some, is_none, ◌==◌,
}
use opa_security_awareness_a.Common.Text.{Text}
use opa_security_awareness_a.Common.Table.{Table, get, modify, get-modify, get-add}
use opa_security_awareness_a.SafeWalk.Policy.{Session, Grant, Notice, create_audit, Db as WalkDb}
use opa_security_awareness_a.SafeWalk.Escalation.{is_confirmed, is_ended}
use opa_security_awareness_a.SafeWalk.Pairing.{Db as PairingDb, revoke, apply_revoke, revoke_grant}
use opa_security_awareness_a.SafeWalk.Grants.{GrantsMove}
use opa_security_awareness_a.SafeWalk.Revoked.{Call, call, calls, call-GrantsMove}
use opa_security_awareness_a.SafeWalk.Dispatch.{
  Db, has_id, is_queued, open_row, cancel_refused, opened, Dispatched, open_notice, may_notify,
  grant_allows, is_allowed, authorize_dispatch, Outcome, dispatch_candidate,
}
use opa_security_awareness_a.Delivery.Policy.{Environment}
use opa_security_awareness_a.Delivery.Ledger.{Db as LedgerDb}

-- The grant of this number is revoked.
abbrev IsRevokedAt : ℕ → Table Grant → Type 0
IsRevokedAt id t = (g : Grant) × (get id t ≡ some g) × (is_some g.revoked_at ≡ true)

IsRevokedAt-move :
    (id : ℕ) (db db' : PairingDb)
    → GrantsMove db db'
    → IsRevokedAt id db.walks.grants
    → IsRevokedAt id db'.walks.grants
IsRevokedAt-move id db db' (inl e) h = subst (IsRevokedAt id) (sym e) h
IsRevokedAt-move id db db' (inr (inl (k, a, e, few))) (g, h, r) =
    let there = get-add id k a db.walks.grants in
    subst (IsRevokedAt id) (sym e) (g, ground arith, r)
IsRevokedAt-move id db db' (inr (inr (k, now, e))) (g, h, r) =
    let there = get-modify id k (revoke_grant now) db.walks.grants in
    subst (IsRevokedAt id) (sym e) (elim (Bool-cases (k == id)) [
      | inl q ↦ (revoke_grant now g, ground arith, refl)
      | inr q ↦ (g, ground arith, r)
    ])

IsRevokedAt-calls :
    (hex : Text → Text) (cs : List Call) (id : ℕ) (db : PairingDb)
    → IsRevokedAt id db.walks.grants
    → IsRevokedAt id (calls hex cs db).walks.grants
unfolding calls
IsRevokedAt-calls hex [] id db h = h
IsRevokedAt-calls hex (c ∷ cs) id db h =
    IsRevokedAt-calls hex cs id (call hex c db)
      (IsRevokedAt-move id db (call hex c db) (call-GrantsMove hex c db) h)

revoke-IsRevokedAt :
    (owner session_id id now : ℕ) (db : PairingDb) {at : ℕ} {db' : PairingDb}
    → revoke owner session_id id now db ≡ ok (at, db')
    → IsRevokedAt id db'.walks.grants
unfolding revoke apply_revoke create_audit
revoke-IsRevokedAt owner session_id id now db {at} {db'} h =
    elim (Option-cases (get id db.walks.grants)) [
      | inl n ↦ ground arith
      | inr (g, e) ↦ elim (Option-cases g.revoked_at) [
        | inr (t, f) ↦ (g, ground arith, ground arith)
        | inl f ↦
            let done : db'.walks.grants ≡ modify id (revoke_grant now) db.walks.grants =
              ground arith in
            let there = get-modify id id (revoke_grant now) db.walks.grants in
            subst (IsRevokedAt id) (sym done) (revoke_grant now g, ground arith, refl)
      ]
    ]

not_allowed :
    (session_id id : ℕ) (n : Notice) (s : Session) (w : WalkDb)
    → n.grant_id ≡ some id
    → IsRevokedAt id w.grants
    → is_allowed session_id n s w ≡ false
unfolding is_allowed may_notify grant_allows
not_allowed session_id id n s w e (g, h, r) = ground arith

settled_not_allowed :
    (session_id : ℕ) (n : Notice) (s : Session) (w : WalkDb)
    → (is_confirmed s || is_ended s.status || is_some s.safe_walk_emergency_incident_id) ≡ true
    → is_allowed session_id n s w ≡ false
unfolding is_allowed may_notify is_confirmed
settled_not_allowed session_id n s w h = ground arith

open_notice-find :
    (id : ℕ) (db : Db) {n : Notice}
    → open_notice id db ≡ some n
    → find (has_id id) db.walks.notices ≡ some n
unfolding open_notice open_row
open_notice-find id db {n} h = elim (Option-cases (find (has_id id) db.walks.notices)) [
  | inl f ↦ absurd (ground arith)
  | inr (m, f) ↦ elim (Bool-cases (is_none m.cancelled_at && is_queued id db.ledger)) [
    | inl b ↦ ground arith
    | inr b ↦ absurd (ground arith)
  ]
]

authorize-refused :
    (env : Environment) (worker_id : Text) (session_id id now : ℕ) (db : Db)
    → ((s : Session) (n : Notice)
        → get session_id db.walks.sessions ≡ some s
        → open_notice id db ≡ some n
        → is_allowed session_id n s db.walks ≡ false)
    → (db' : Db) × (authorize_dispatch env worker_id session_id id now db ≡ ok (none, db'))
      × (db'.ledger ≡ db.ledger)
unfolding authorize_dispatch
authorize-refused env worker_id session_id id now db h =
    elim (Option-cases (get session_id db.walks.sessions)) [
      | inl e ↦ (db, ground arith, refl)
      | inr (s, e) ↦ elim (Option-cases (open_notice id db)) [
        | inl f ↦ (db, ground arith, refl)
        | inr (n, f) ↦ let no = h s n e f in (cancel_refused id now db, ground arith, refl)
      ]
    ]

-- Nothing left, and the ledger is as it was.
abbrev pub IsSilent : Dispatched → Db → Type 0
IsSilent d db = (d.sent ≡ none) × (d.db.ledger ≡ db.ledger)

pub dispatch_candidate-IsSilent :
    (env : Environment) (worker_id : Text) (open_snapshot : ℕ → ℕ → ℕ → Option Text)
    (send : Text → Text → Outcome) (c : Notice) (now : ℕ) (db : Db)
    → ((s : Session) (n : Notice)
        → get c.session_id db.walks.sessions ≡ some s
        → open_notice c.id db ≡ some n
        → is_allowed c.session_id n s db.walks ≡ false)
    → IsSilent (dispatch_candidate env worker_id open_snapshot send c now db) db
unfolding dispatch_candidate
dispatch_candidate-IsSilent env worker_id open_snapshot send c now db h =
    let (db', e, q) = authorize-refused env worker_id c.session_id c.id now db h in
    elim (Option-cases (opened env worker_id open_snapshot send c)) [
      | inl f ↦ (ground arith, ground arith)
      | inr (t, f) ↦ (ground arith, ground arith)
    ]

-- Once the owner's call to revoke a grant has succeeded, then whatever calls of the guardian service
-- follow, a dispatch that reads its candidate at any time before or after sends no mail for a notice
-- of that grant and claims no attempt in the ledger.
pub revoked_never_mailed :
    (hex : Text → Text) (owner session_id id now : ℕ) (db : PairingDb) {at : ℕ} {db' : PairingDb}
    → revoke owner session_id id now db ≡ ok (at, db')
    → (cs : List Call) (env : Environment) (worker_id : Text)
      (open_snapshot : ℕ → ℕ → ℕ → Option Text) (send : Text → Text → Outcome) (c n : Notice)
      (later : ℕ) (ledger : LedgerDb)
    → find (has_id c.id) (calls hex cs db').walks.notices ≡ some n
    → n.grant_id ≡ some id
    → IsSilent
        (dispatch_candidate env worker_id open_snapshot send c later
          (record { walks = (calls hex cs db').walks; ledger = ledger }))
        (record { walks = (calls hex cs db').walks; ledger = ledger })
revoked_never_mailed hex owner session_id id now db {at} {db'} h cs env worker_id open_snapshot send
      c n later ledger found mine =
    let revoked =
      IsRevokedAt-calls hex cs id db'
        (revoke-IsRevokedAt owner session_id id now db {at = at} {db' = db'} h) in
    dispatch_candidate-IsSilent env worker_id open_snapshot send c later
      (record { walks = (calls hex cs db').walks; ledger = ledger })
      (λ s m e f.
        let same : m ≡ n = ground (
          arith,
          open_notice-find c.id (record { walks = (calls hex cs db').walks; ledger = ledger })
              {n = m} f,
          found,
        ) in
        not_allowed c.session_id id m s (calls hex cs db').walks (ap (λ x. x.grant_id) same ∙ mine)
          revoked)

-- No mail about a walk whose owner has confirmed it, that has ended, or that became an emergency:
-- a dispatch of any notice of it sends nothing and claims no attempt, even where the candidate was
-- read before.
pub settled_never_mailed :
    (env : Environment) (worker_id : Text) (open_snapshot : ℕ → ℕ → ℕ → Option Text)
    (send : Text → Text → Outcome) (c : Notice) (now : ℕ) (db : Db) (s : Session)
    → get c.session_id db.walks.sessions ≡ some s
    → (is_confirmed s || is_ended s.status || is_some s.safe_walk_emergency_incident_id) ≡ true
    → IsSilent (dispatch_candidate env worker_id open_snapshot send c now db) db
settled_never_mailed env worker_id open_snapshot send c now db s e h =
    dispatch_candidate-IsSilent env worker_id open_snapshot send c now db (λ t n f g.
      let same : t ≡ s = ground (arith, e, f) in
      settled_not_allowed c.session_id n t db.walks (
        ap (λ x. is_confirmed x || is_ended x.status || is_some x.safe_walk_emergency_incident_id)
          same
        ∙ h))
