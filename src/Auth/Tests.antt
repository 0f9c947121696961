-- ===== src/Auth/Tests.antt =====
-- One account with a password, one to activate, and a reset token; the token library is stood in for
-- by one that writes the claims out.
use opa_security_awareness_a.Common.{
  ℕ, zero, suc, ◌+◌, ◌≤◌, ◌<◌, ◌≡◌, refl, true, Option, none, some, [], ◌∷◌, ok, err, arith, ltb,
  if◌then◌else◌, Result,
}
use opa_security_awareness_a.Common.Text.{
  Text, codes, text_eq, text_eq_refl, trim, trim_start, is_space,
}
use opa_security_awareness_a.Common.Table.{get}
use opa_security_awareness_a.SafeWalk.Policy.{
  Role, user, responder, admin, facility_admin, facility_operator, active, pending_activation,
}
use opa_security_awareness_a.Auth.Accounts.{
  User, ResetToken, Db, Error, invalid_refresh_token, invalid_access_token, reset_failed,
  activation_failed, TokenType, access, refresh, Payload, Jwt, Bcrypt, Host,
}
use opa_security_awareness_a.Auth.Tokens.{
  Tokens, Profile, issue_tokens, login, rotate, authenticate, find_by_email, has_email,
}
use opa_security_awareness_a.Auth.Credentials.{
  has_token, confirm_reset, may_reset, activate, has_activation, may_activate,
  normalize_activation_credential, is_code_character,
}
use opa_security_awareness_a.Auth.Revocation.{reset_ends_tokens, reset_then_login, no_change}
use opa_security_awareness_a.Auth.Single.{reset_once, activate_once}

abbrev type_code : TokenType → ℕ
type_code access = 0
type_code refresh = 1

abbrev type_of : ℕ → TokenType
type_of zero = access
type_of (suc n) = refresh

type_of-type_code : (t : TokenType) → type_of (type_code t) ≡ t
type_of-type_code access = refl
type_of-type_code refresh = refl

abbrev role_code : Option Role → ℕ
role_code none = 0
role_code (some user) = 1
role_code (some responder) = 2
role_code (some admin) = 3
role_code (some facility_admin) = 4
role_code (some facility_operator) = 5

abbrev role_of : ℕ → Option Role
role_of zero = none
role_of (suc zero) = some user
role_of (suc (suc zero)) = some responder
role_of (suc (suc (suc zero))) = some admin
role_of (suc (suc (suc (suc zero)))) = some facility_admin
role_of (suc (suc (suc (suc (suc n))))) = some facility_operator

role_of-role_code : (r : Option Role) → role_of (role_code r) ≡ r
role_of-role_code none = refl
role_of-role_code (some user) = refl
role_of-role_code (some responder) = refl
role_of-role_code (some admin) = refl
role_of-role_code (some facility_admin) = refl
role_of-role_code (some facility_operator) = refl

abbrev version_code : Option ℕ → ℕ
version_code none = 0
version_code (some n) = suc n

abbrev version_of : ℕ → Option ℕ
version_of zero = none
version_of (suc n) = some n

version_of-version_code : (v : Option ℕ) → version_of (version_code v) ≡ v
version_of-version_code none = refl
version_of-version_code (some n) = refl

abbrev write : Text → ℕ → ℕ → Payload → Text
write secret lifetime at p =
    (at + lifetime)
    ∷ p.sub
    ∷ version_code p.credential_version
    ∷ role_code p.role
    ∷ type_code p.token_type
    ∷ p.email

abbrev read : Text → ℕ → Text → Option Payload
read secret now (expiry ∷ sub ∷ version ∷ role ∷ type ∷ email) =
    if ltb now expiry
    then some (record {
      sub = sub;
      email = email;
      role = role_of role;
      credential_version = version_of version;
      token_type = type_of type;
    })
    else none
read secret now _ = none

read-live :
    (secret : Text) (lifetime at now : ℕ) (p : Payload)
    → now < at + lifetime
    → read secret now (write secret lifetime at p) ≡ some p
read-live secret lifetime at now p live =
    rw
      (
        type_of-type_code p.token_type,
        role_of-role_code p.role,
        version_of-version_code p.credential_version,
      )
      (ground arith)

read-late :
    (secret : Text) (lifetime at now : ℕ) (p : Payload)
    → at + lifetime ≤ now
    → read secret now (write secret lifetime at p) ≡ none
read-late secret lifetime at now p late = ground arith

abbrev plain_tokens : Jwt
plain_tokens = record {
  sign = write;
  verify = read;
  verify_live = read-live;
  verify_late = read-late;
}

salted : (salt password : Text) → text_eq password password ≡ true
salted salt password = text_eq_refl password

abbrev plain_passwords : Bcrypt
plain_passwords = record {
  hash = λ salt password. password;
  compare = λ password hash. text_eq password hash;
  compare_hash = salted;
}

abbrev host : Host
host = record {
  hex = λ t. t;
  lower = λ t. t;
  upper = λ t. t;
  dummy_hash = codes "-";
  access_secret = codes "a";
  access_lifetime = 900;
  refresh_secret = codes "r";
  refresh_lifetime = 604800;
}

abbrev owner : User
owner = record {
  email = codes "a@b";
  first_name = codes "A";
  last_name = codes "B";
  password_hash = some (codes "old");
  role = user;
  is_active = true;
  account_status = active;
  credential_version = 3;
  activation_token_hash = none;
  activation_expires_at = none;
  activated_at = none;
}

abbrev seat : User
seat = record owner {
  email = codes "c@d";
  password_hash = none;
  account_status = pending_activation;
  activation_token_hash = some (codes "AB12CD34");
  activation_expires_at = some 1000;
}

abbrev forgotten : ResetToken
forgotten = record { user_id = 1; token_hash = codes "x"; expires_at = 500; consumed_at = none }

abbrev accounts : Db
accounts = record { users = (1, owner) ∷ (2, seat) ∷ []; resets = (7, forgotten) ∷ [] }

abbrev after_reset : Db
after_reset =
    elim (confirm_reset host plain_passwords (codes " x") (codes "new password") [] 100 accounts) [
      | ok db ↦ db
      | err x ↦ accounts
    ]

after_reset-ok :
    confirm_reset host plain_passwords (codes " x") (codes "new password") [] 100 accounts
    ≡ ok after_reset
unfolding confirm_reset trim trim_start is_space has_token text_eq get may_reset
after_reset-ok = refl

reset_ends_tokens_example :
    (rotate plain_tokens host
        (issue_tokens plain_tokens host 10 1 owner).0.refresh_token
        200
        after_reset
      ≡ err invalid_refresh_token)
    × (authenticate plain_tokens host
          (issue_tokens plain_tokens host 10 1 owner).0.access_token
          200
          after_reset
        ≡ err invalid_access_token)
unfolding trim trim_start is_space has_token text_eq get
reset_ends_tokens_example =
    reset_ends_tokens plain_tokens host plain_passwords (codes " x") (codes "new password") [] 100 1
      10 200 owner 7 forgotten accounts after_reset refl refl refl refl after_reset-ok no_change

reset_then_login_example :
    (t : Tokens) × (p : Profile) × (login plain_tokens host plain_passwords
        (codes "a@b")
        (codes "new password")
        300
        after_reset
      ≡ ok (t, p))
    × (authenticate plain_tokens host t.access_token 300 after_reset
        ≡ ok (record { sub = 1; email = codes "a@b"; role = user; credential_version = 3 + 1 }))
unfolding trim trim_start is_space has_token text_eq get find_by_email has_email
reset_then_login_example =
    reset_then_login plain_tokens host plain_passwords (codes " x") (codes "new password") []
      (codes "a@b") 100 1 300 owner 7 forgotten accounts after_reset refl refl refl refl refl
      (omega arith) after_reset-ok

reset_once_example :
    confirm_reset host plain_passwords (codes "x ") (codes "another password") [] 120 after_reset
    ≡ err reset_failed
unfolding trim trim_start is_space has_token text_eq get
reset_once_example =
    reset_once host plain_passwords (codes " x") (codes "new password") [] (codes "x ")
      (codes "another password") [] 100 120 1 7 7 forgotten forgotten accounts refl refl refl
      after_reset-ok refl refl refl

abbrev activation : Result Error ((Tokens × Profile) × Db)
activation =
    activate plain_tokens host plain_passwords (codes " AB12-CD34") (codes "first password") [] 100
      accounts

abbrev activation_of : (Tokens × Profile) × Db
activation_of = elim activation [
  | ok r ↦ r
  | err x ↦ (issue_tokens plain_tokens host 0 1 owner, accounts)
]

activation-ok : activation ≡ ok (activation_of.0, activation_of.1)
unfolding activate normalize_activation_credential trim trim_start is_space is_code_character
    has_activation text_eq get may_activate
activation-ok = refl

activate_once_example :
    activate plain_tokens host plain_passwords
      (codes " AB12-CD34")
      (codes "second password")
      []
      200
      activation_of.1
    ≡ err activation_failed
unfolding normalize_activation_credential trim trim_start is_space is_code_character has_activation
    text_eq
activate_once_example =
    activate_once plain_tokens host plain_passwords (codes " AB12-CD34") (codes "first password") []
      (codes "second password") [] 100 200 accounts {s = activation_of.0} {db' = activation_of.1}
      (omega arith) activation-ok
