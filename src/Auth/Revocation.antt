-- ===== src/Auth/Revocation.antt =====
-- Tokens that work, and tokens that a changed password ends.
use opa_security_awareness_a.Common.{
  ℕ, ◌+◌, ◌≤◌, ◌<◌, ◌≡◌, refl, sym, ap, subst, ◌∙◌, inl, inr, true, some, [], ◌∷◌, find, ok, err,
  Bool-cases, arith, ltb, ◌==◌, if◌then◌else◌,
}
use opa_security_awareness_a.Common.Text.{Text, text_eq, trim}
use opa_security_awareness_a.Common.Table.{Table, get, modify, get-modify, get-modify_self}
use opa_security_awareness_a.Auth.Accounts.{
  User, ResetToken, Db, invalid_refresh_token, invalid_access_token, access, refresh, Jwt, Bcrypt,
  Host,
}
use opa_security_awareness_a.Auth.Tokens.{
  accepts, is_activated, Tokens, Profile, has_email, may_log_in, payload_of, validate, Identity,
  issue_tokens, find_by_email, login, verify_refresh_token, rotate, authenticate,
}
use opa_security_awareness_a.Auth.Credentials.{
  may_reset, new_password, apply_reset, confirm_reset, activate, activated, has_token,
}
use opa_security_awareness_a.Auth.Outcomes.{confirm_reset-Resets, activate-Activates}

-- An account that may be used.
abbrev pub IsUsable : ℕ → User → Db → Type 0
IsUsable id u db =
    (get id db.users ≡ some u) × (u.is_active ≡ true) × (is_activated u.account_status ≡ true)

abbrev identity_of : ℕ → User → Identity
identity_of id u = record {
  sub = id;
  email = u.email;
  role = u.role;
  credential_version = u.credential_version;
}

authenticate-live :
    (jwt : Jwt) (host : Host) (id at now : ℕ) (u : User) (db : Db)
    → IsUsable id u db
    → now < at + host.access_lifetime
    → authenticate jwt host (issue_tokens jwt host at id u).0.access_token now db
      ≡ ok (identity_of id u)
unfolding authenticate issue_tokens validate accepts
authenticate-live jwt host id at now u db (e, a, b) live =
    let v =
      jwt.verify_live host.access_secret host.access_lifetime at now (payload_of id u access)
        live in
    ground (arith, v, e, a, b)

-- An account whose version has moved on from that of a token.
abbrev IsNewer : ℕ → ℕ → Db → Type 0
IsNewer version id db = (u : User) × (get id db.users ≡ some u) × (version < u.credential_version)

stale_tokens :
    (jwt : Jwt) (host : Host) (id at now : ℕ) (u : User) (db : Db)
    → IsNewer u.credential_version id db
    → (rotate jwt host (issue_tokens jwt host at id u).0.refresh_token now db
        ≡ err invalid_refresh_token)
      × (authenticate jwt host (issue_tokens jwt host at id u).0.access_token now db
          ≡ err invalid_access_token)
unfolding rotate issue_tokens verify_refresh_token accepts authenticate validate
stale_tokens jwt host id at now u db (w, e, newer) = (
  elim (Bool-cases (ltb now (at + host.refresh_lifetime))) [
    | inl l ↦
        let v =
          jwt.verify_live host.refresh_secret host.refresh_lifetime at now (payload_of id u refresh)
            (ground arith) in
        ground (arith, v, e)
    | inr l ↦
        let v =
          jwt.verify_late host.refresh_secret host.refresh_lifetime at now (payload_of id u refresh)
            (ground arith) in
        ground (arith, v)
  ],
  elim (Bool-cases (ltb now (at + host.access_lifetime))) [
    | inl l ↦
        let v =
          jwt.verify_live host.access_secret host.access_lifetime at now (payload_of id u access)
            (ground arith) in
        ground (arith, v, e)
    | inr l ↦
        let v =
          jwt.verify_late host.access_secret host.access_lifetime at now (payload_of id u access)
            (ground arith) in
        ground (arith, v)
  ],
)

-- The changes of an account by these services.
pub data Change (jwt : Jwt) (host : Host) (bcrypt : Bcrypt) (db : Db) : Db → Type 0 where
  resets :
      (token password salt : Text) (now : ℕ) {db' : Db}
      → confirm_reset host bcrypt token password salt now db ≡ ok db'
      → Change jwt host bcrypt db db'
  activates :
      (token password salt : Text) (now : ℕ) (r : Tokens × Profile) {db' : Db}
      → activate jwt host bcrypt token password salt now db ≡ ok (r, db')
      → Change jwt host bcrypt db db'

pub data Changes (jwt : Jwt) (host : Host) (bcrypt : Bcrypt) (db : Db) : Db → Type 0 where
  no_change : Changes jwt host bcrypt db db
  one_more :
      (db' : Db) {db'' : Db}
      → Changes jwt host bcrypt db db'
      → Change jwt host bcrypt db' db''
      → Changes jwt host bcrypt db db''

modify-IsNewer :
    (version id k : ℕ) (f : User → User) (t : Table User) {u : User}
    → get id t ≡ some u
    → version < u.credential_version
    → u.credential_version ≤ (f u).credential_version
    → (w : User) × (get id (modify k f t) ≡ some w) × (version < w.credential_version)
modify-IsNewer version id k f t {u} e newer up = elim (Bool-cases (k == id)) [
  | inl c ↦ (f u, ground (arith, get-modify id k f t), omega arith)
  | inr c ↦ (u, ground (arith, get-modify id k f t), newer)
]

Change-IsNewer :
    (jwt : Jwt) (host : Host) (bcrypt : Bcrypt) (version id : ℕ) (db : Db) {db' : Db}
    → Change jwt host bcrypt db db'
    → IsNewer version id db
    → IsNewer version id db'
unfolding confirm_reset activate apply_reset new_password activated
Change-IsNewer jwt host bcrypt version id db {db'} (resets token password salt now h)
      (u, e, newer) =
    let (k, r, (v, found, f, g, may, q)) =
      confirm_reset-Resets host bcrypt token password salt now db {db' = db'} h in
    subst (IsNewer version id) (sym q) (
      modify-IsNewer version id r.user_id (new_password (bcrypt.hash salt password)) db.users e
        newer (omega arith))
Change-IsNewer jwt host bcrypt version id db {db'} (activates token password salt now s h)
      (u, e, newer) =
    let (k, v, (found, f, may, t, q)) =
      activate-Activates jwt host bcrypt token password salt now db {s = s} {db' = db'} h in
    subst (IsNewer version id) (sym q) (
      modify-IsNewer version id k (activated (bcrypt.hash salt password) now) db.users e newer
        (omega arith))

Changes-IsNewer :
    (jwt : Jwt) (host : Host) (bcrypt : Bcrypt) (version id : ℕ) (db : Db) {db' : Db}
    → Changes jwt host bcrypt db db'
    → IsNewer version id db
    → IsNewer version id db'
Changes-IsNewer jwt host bcrypt version id db no_change n = n
Changes-IsNewer jwt host bcrypt version id db (one_more db₁ cs c) n =
    Change-IsNewer jwt host bcrypt version id db₁ c
      (Changes-IsNewer jwt host bcrypt version id db cs n)

-- A password reset ends every token that was issued for the account before it: after the reset, and
-- after any later resets and activations, at any time, the refresh token is not exchanged and the
-- access token does not authenticate.
pub reset_ends_tokens :
    (jwt : Jwt) (host : Host) (bcrypt : Bcrypt) (token password salt : Text)
    (reset_at id at now : ℕ) (u : User) (k : ℕ) (r : ResetToken) (db db' : Db) {later : Db}
    → get id db.users ≡ some u
    → find (has_token (host.hex (trim token))) db.resets ≡ some (k, r)
    → get k db.resets ≡ some r
    → r.user_id ≡ id
    → confirm_reset host bcrypt token password salt reset_at db ≡ ok db'
    → Changes jwt host bcrypt db' later
    → (rotate jwt host (issue_tokens jwt host at id u).0.refresh_token now later
        ≡ err invalid_refresh_token)
      × (authenticate jwt host (issue_tokens jwt host at id u).0.access_token now later
          ≡ err invalid_access_token)
unfolding apply_reset new_password
reset_ends_tokens jwt host bcrypt token password salt reset_at id at now u k r db db' {later} e
      found f own h cs =
    let (k', r', (v, found', f', g, may, q)) =
      confirm_reset-Resets host bcrypt token password salt reset_at db {db' = db'} h in
    let row : r'.user_id ≡ id = ground (arith, found'.1) in
    let newer : IsNewer u.credential_version id db' = (
      new_password (bcrypt.hash salt password) u,
      ground
          (arith, get-modify_self id (new_password (bcrypt.hash salt password)) db.users {a = u} e),
      omega arith,
    ) in
    stale_tokens jwt host id at now u later
      (Changes-IsNewer jwt host bcrypt u.credential_version id db' cs newer)

find-modify :
    (email : Text) (k : ℕ) (f : User → User) (t : Table User) {id : ℕ} {u : User}
    → ((w : User) → (f w).email ≡ w.email)
    → find (has_email email) t ≡ some (id, u)
    → find (has_email email) (modify k f t) ≡ some (id, (if k == id then f u else u))
unfolding modify has_email
find-modify email k f [] same h = cc
find-modify email k f ((j, w) ∷ t) {id} {u} same h = elim (Bool-cases (text_eq w.email email)) [
  | inl hit ↦
      let p : j ≡ id = ground arith in let q : w ≡ u = ground arith in ground (arith, same w)
  | inr miss ↦ ground (arith, same w, find-modify email k f t {id = id} {u = u} same (ground arith))
]

-- After a password reset the owner signs in with the new password: the login answers with tokens of
-- the next credential version, and these authenticate as the account.
pub reset_then_login :
    (jwt : Jwt) (host : Host) (bcrypt : Bcrypt) (token password salt email : Text)
    (reset_at id now : ℕ) (u : User) (k : ℕ) (r : ResetToken) (db db' : Db)
    → find_by_email jwt host (host.lower email) db ≡ some (id, u)
    → get id db.users ≡ some u
    → find (has_token (host.hex (trim token))) db.resets ≡ some (k, r)
    → get k db.resets ≡ some r
    → r.user_id ≡ id
    → 0 < host.access_lifetime
    → confirm_reset host bcrypt token password salt reset_at db ≡ ok db'
    → (t : Tokens) × (p : Profile) × (login jwt host bcrypt email password now db' ≡ ok (t, p))
      × (authenticate jwt host t.access_token now db'
          ≡ ok (record {
            sub = id;
            email = u.email;
            role = u.role;
            credential_version = u.credential_version + 1;
          }))
unfolding login find_by_email apply_reset new_password may_log_in may_reset
reset_then_login jwt host bcrypt token password salt email reset_at id now u k r db db' known e
      found f own live h =
    let (k', r', (v, found', f', g, may, q)) =
      confirm_reset-Resets host bcrypt token password salt reset_at db {db' = db'} h in
    let row : r'.user_id ≡ id = ground (arith, found'.1) in
    let same : v ≡ u = ground arith in
    let u' = new_password (bcrypt.hash salt password) u in
    let users : db'.users ≡ modify id (new_password (bcrypt.hash salt password)) db.users =
      ground arith in
    let stored : get id db'.users ≡ some u' =
      ap (get id) users
      ∙ get-modify_self id (new_password (bcrypt.hash salt password)) db.users {a = u} e in
    let seen : find (has_email (host.lower (host.lower email))) db'.users ≡ some (id, u') =
      ap (find (has_email (host.lower (host.lower email)))) users
      ∙ find-modify (host.lower (host.lower email)) id (new_password (bcrypt.hash salt password))
          db.users {id = id} {u = u} (λ w. refl) known
      ∙ ground arith in
    let is_on : u.is_active ≡ true = ground arith in
    let is_claimed : is_activated u.account_status ≡ true = ground arith in
    (
      (issue_tokens jwt host now id u').0,
      (issue_tokens jwt host now id u').1,
      ground (arith, seen, is_on, is_claimed, bcrypt.compare_hash salt password),
      authenticate-live jwt host id now now u' db' (stored, is_on, is_claimed)
          (omega (arith, live)),
    )
