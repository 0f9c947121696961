-- ===== src/Auth/Outcomes.antt =====
-- What a reset or an activation that succeeded had found, and what it wrote.
use opa_security_awareness_a.Common.{ℕ, ◌≡◌, inl, inr, true, some, find, ok, Option-cases, arith}
use opa_security_awareness_a.Common.Text.{Text, trim}
use opa_security_awareness_a.Common.Table.{get, modify}
use opa_security_awareness_a.Auth.Accounts.{User, ResetToken, Db, Jwt, Bcrypt, Host}
use opa_security_awareness_a.Auth.Tokens.{Tokens, Profile, issue_tokens}
use opa_security_awareness_a.Auth.Credentials.{
  has_token, may_reset, apply_reset, confirm_reset, normalize_activation_credential, has_activation,
  may_activate, activated, activate,
}

abbrev pub Resets : Host → Bcrypt → Text → Text → Text → ℕ → Db → Db → ℕ → ResetToken → Type 0
Resets host bcrypt token password salt now db db' k r =
    (u : User) × ((found : ResetToken) × (find (has_token (host.hex (trim token))) db.resets
        ≡ some (k, found)))
    × (get k db.resets ≡ some r)
    × (get r.user_id db.users ≡ some u)
    × (may_reset (host.hex (trim token)) now r u ≡ true)
    × (db' ≡ apply_reset r.user_id (bcrypt.hash salt password) now db)

pub confirm_reset-Resets :
    (host : Host) (bcrypt : Bcrypt) (token password salt : Text) (now : ℕ) (db : Db) {db' : Db}
    → confirm_reset host bcrypt token password salt now db ≡ ok db'
    → (k : ℕ) × (r : ResetToken) × Resets host bcrypt token password salt now db db' k r
unfolding confirm_reset
confirm_reset-Resets host bcrypt token password salt now db {db'} h =
    elim (Option-cases (find (has_token (host.hex (trim token))) db.resets)) [
      | inl n ↦ ground arith
      | inr ((k, found), e) ↦ elim (Option-cases (get k db.resets)) [
        | inl n ↦ ground arith
        | inr (r, f) ↦ elim (Option-cases (get r.user_id db.users)) [
          | inl n ↦ ground arith
          | inr (u, g) ↦ (k, r, (u, (found, e), f, g, ground arith, ground arith))
        ]
      ]
    ]

abbrev pub Activates :
    Jwt → Host → Bcrypt → Text → Text → Text → ℕ → Db → Db → Tokens × Profile → ℕ → User → Type 0
Activates jwt host bcrypt token password salt now db db' s k u =
    ((found : User) × (find (has_activation (host.hex (normalize_activation_credential host token)))
          db.users
        ≡ some (k, found)))
    × (get k db.users ≡ some u)
    × (may_activate (host.hex (normalize_activation_credential host token)) now u ≡ true)
    × (s ≡ issue_tokens jwt host now k (activated (bcrypt.hash salt password) now u))
    × (db' ≡ record db { users = modify k (activated (bcrypt.hash salt password) now) db.users })

pub activate-Activates :
    (jwt : Jwt) (host : Host) (bcrypt : Bcrypt) (token password salt : Text) (now : ℕ) (db : Db)
    {s : Tokens × Profile} {db' : Db}
    → activate jwt host bcrypt token password salt now db ≡ ok (s, db')
    → (k : ℕ) × (u : User) × Activates jwt host bcrypt token password salt now db db' s k u
unfolding activate
activate-Activates jwt host bcrypt token password salt now db {s} {db'} h =
    let hash = host.hex (normalize_activation_credential host token) in
    elim (Option-cases (find (has_activation hash) db.users)) [
      | inl n ↦ ground arith
      | inr ((k, found), e) ↦ elim (Option-cases (get k db.users)) [
        | inl n ↦ ground arith
        | inr (u, f) ↦ (k, u, ((found, e), f, ground arith, ground arith, ground arith))
      ]
    ]
