-- ===== src/SafeWalk/Grants.antt =====
-- What the calls of the guardian service do to the grants of a session.
use opa_security_awareness_a.Common.{
  ℕ, ◌+◌, ◌<◌, ◌≡◌, refl, ◌⊎◌, inl, inr, Option, none, some, List, [], ◌∷◌, find, keep, length, ok,
  arith, Bool-cases, Option-cases, Result-cases, is_some,
}
use opa_security_awareness_a.Common.Text.{Text}
use opa_security_awareness_a.Common.Table.{get, modify, add}
use opa_security_awareness_a.SafeWalk.Policy.{Grant, Audit, Notice, create_audit, Db as WalkDb}
use opa_security_awareness_a.SafeWalk.Pairing.{
  Db, GrantView, pair_unconsumed, audited, Pairing, is_in_session, is_grant_of, has_code,
  issue_code, pair, create_grant, new_grant, authorize, owned_grant, revoke_grant, apply_revoke,
  revoke, facility_of, open_walk,
}
use opa_security_awareness_a.SafeWalk.Inbox.{
  shared_status, visible_notice, apply_acknowledge, acknowledge, read_notice, read_notices,
}

-- The grants after a call: the same, one more below the limit of its session, or one revoked.
abbrev pub GrantsMove : Db → Db → Type 0
GrantsMove db db' =
    (db'.walks.grants ≡ db.walks.grants)
    ⊎ ((id : ℕ) × (g : Grant) × (db'.walks.grants ≡ add id g db.walks.grants)
        × (length (keep (is_in_session g.session_id) db.walks.grants) < 5))
    ⊎ ((id : ℕ) × (now : ℕ) × (db'.walks.grants ≡ modify id (revoke_grant now) db.walks.grants))

audited-grants :
    (db : Db) (a : Audit) (w : WalkDb) {db' : Db}
    → audited db (create_audit a w) ≡ ok db'
    → db'.walks.grants ≡ w.grants
unfolding create_audit
audited-grants db a w h = ground arith

pub issue_code-grants :
    (hex : Text → Text) (guardian : ℕ) (code : Text) (now : ℕ) (db : Db) {r : ℕ} {db' : Db}
    → issue_code hex guardian code now db ≡ ok (r, db')
    → db'.walks.grants ≡ db.walks.grants
unfolding issue_code
issue_code-grants hex guardian code now db h = ground arith

pair-GrantsMove :
    (hex : Text → Text) (owner session_id pairing_id : ℕ) (p : Pairing)
    (existing : Option (ℕ × Grant)) (scope : Option ℕ) (now : ℕ) (db : Db) {r : GrantView}
    {db' : Db}
    → pair hex owner session_id pairing_id p existing scope now db ≡ ok (r, db')
    → GrantsMove db db'
unfolding pair pair_unconsumed create_grant create_audit
pair-GrantsMove hex owner session_id pairing_id p (some g) scope now db h = inl (ground arith)
pair-GrantsMove hex owner session_id pairing_id p none scope now db {r} {db'} h =
    elim (Bool-cases (is_some p.consumed_at)) [
      | inl c ↦ inl (ground arith)
      | inr c ↦ inr (
          inl (
            db.next_grant_id,
            new_grant owner session_id p.user_id scope now,
            ground arith,
            ground arith,
          ))
    ]

pub authorize-GrantsMove :
    (hex : Text → Text) (owner session_id : ℕ) (code : Text) (now : ℕ) (db : Db) {r : GrantView}
    {db' : Db}
    → authorize hex owner session_id code now db ≡ ok (r, db')
    → GrantsMove db db'
unfolding authorize
authorize-GrantsMove hex owner session_id code now db {r} {db'} h =
    elim (Option-cases (open_walk owner session_id db.walks)) [
      | inl n ↦ inl (ground arith)
      | inr (s, e) ↦ elim (Option-cases (find (has_code (hex code)) db.pairings)) [
        | inl n ↦ inl (ground arith)
        | inr ((k, p), f) ↦
            pair-GrantsMove hex owner session_id k p
              (find (is_grant_of session_id p.user_id) db.walks.grants)
              (facility_of (get owner db.walks.accounts)) now db {r = r} {db' = db'} (ground arith)
      ]
    ]

pub revoke-GrantsMove :
    (owner session_id grant_id now : ℕ) (db : Db) {r : ℕ} {db' : Db}
    → revoke owner session_id grant_id now db ≡ ok (r, db')
    → GrantsMove db db'
unfolding revoke apply_revoke create_audit
revoke-GrantsMove owner session_id grant_id now db {r} {db'} h =
    elim (Option-cases (owned_grant owner session_id (get grant_id db.walks.grants))) [
      | inl n ↦ inl (ground arith)
      | inr (g, e) ↦ elim (Option-cases g.revoked_at) [
        | inr (at, f) ↦ inl (ground arith)
        | inl f ↦ inr (inr (grant_id, now, ground arith))
      ]
    ]

pub shared_status-grants :
    (guardian session_id uuid now : ℕ) (db : Db) {r : _} {db' : Db}
    → shared_status guardian session_id uuid now db ≡ ok (r, db')
    → db'.walks.grants ≡ db.walks.grants
unfolding shared_status create_audit
shared_status-grants guardian session_id uuid now db h = ground arith

pub acknowledge-grants :
    (recipient id now : ℕ) (db : Db) {r : ℕ} {db' : Db}
    → acknowledge recipient id now db ≡ ok (r, db')
    → db'.walks.grants ≡ db.walks.grants
unfolding acknowledge apply_acknowledge create_audit
acknowledge-grants recipient id now db {r} {db'} h =
    elim (Option-cases (visible_notice recipient id db.walks)) [
      | inl n ↦ ground arith
      | inr (n, e) ↦ elim (Option-cases n.acknowledged_at) [
        | inl f ↦ ground arith
        | inr (at, f) ↦ ground arith
      ]
    ]

read_notice-grants :
    (recipient id uuid now : ℕ) (db : Db) {r : Option Notice} {db' : Db}
    → read_notice recipient id uuid now db ≡ ok (r, db')
    → db'.walks.grants ≡ db.walks.grants
unfolding read_notice create_audit
read_notice-grants recipient id uuid now db {r} {db'} h =
    elim (Option-cases (visible_notice recipient id db.walks)) [
      | inl n ↦ ground arith
      | inr (n, e) ↦ ground arith
    ]

pub read_notices-grants :
    (recipient : ℕ) (ns : List Notice) (uuid now : ℕ) (db : Db)
    → (read_notices recipient ns uuid now db).1.walks.grants ≡ db.walks.grants
unfolding read_notices
read_notices-grants recipient [] uuid now db = refl
read_notices-grants recipient (n ∷ ns) uuid now db =
    elim (Result-cases (read_notice recipient n.id uuid now db)) [
      | inr (x, e) ↦ ground arith
      | inl ((a, db₁), e) ↦
          let one = read_notice-grants recipient n.id uuid now db {r = a} {db' = db₁} e in
          let rest = read_notices-grants recipient ns (uuid + 1) now db₁ in
          ground (arith, one, rest)
    ]
