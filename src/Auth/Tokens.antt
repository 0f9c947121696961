-- ===== src/Auth/Tokens.antt =====
-- auth.service.ts, refresh-token.service.ts and jwt.strategy.ts. `now` is the server's clock.
use opa_security_awareness_a.Common.{
  ℕ, Bool, true, false, ◌&&◌, Option, none, some, find, ◌==◌, if◌then◌else◌, get_or, is_some,
  Result, ok, err, guard, or_fail, ◌>>=◌, ◌>>◌,
}
use opa_security_awareness_a.Common.Text.{Text, text_eq}
use opa_security_awareness_a.Common.Table.{get}
use opa_security_awareness_a.SafeWalk.Policy.{Role, AccountStatus, active, pending_activation}
use opa_security_awareness_a.Auth.Accounts.{
  User, Db, Error, invalid_credentials, invalid_refresh_token, invalid_access_token, TokenType,
  access, refresh, Payload, Jwt, Bcrypt, Host,
}

abbrev pub is_activated : AccountStatus → Bool
is_activated active = true
is_activated pending_activation = false

abbrev pub is_refresh : TokenType → Bool
is_refresh refresh = true
is_refresh access = false

-- What an account must be to use a token of this version.
unfoldable pub accepts : Option ℕ → User → Bool
accepts version u =
    u.is_active && is_activated u.account_status && u.credential_version == get_or version 0

pub record Tokens : Type 0 where
  pub access_token : Text
  pub refresh_token : Text

pub record Profile : Type 0 where
  pub id : ℕ
  pub email : Text
  pub first_name : Text
  pub last_name : Text
  pub role : Role

unfoldable pub has_email : Text → ℕ × User → Bool
has_email email (id, u) = text_eq u.email email

-- The password of an account, once, whatever else is wrong with it.
abbrev pub stored_hash : Text → Option (ℕ × User) → Text
stored_hash dummy none = dummy
stored_hash dummy (some (id, u)) = get_or u.password_hash dummy

unfoldable pub may_log_in : Bool → User → Bool
may_log_in valid u =
    u.is_active && is_activated u.account_status && is_some u.password_hash && valid

abbrev pub payload_of : ℕ → User → TokenType → Payload
payload_of id u type = record {
  sub = id;
  email = u.email;
  role = some u.role;
  credential_version = some u.credential_version;
  token_type = type;
}

-- JwtPayload, what a request is authenticated as.
pub record Identity : Type 0 where
  pub sub : ℕ
  pub email : Text
  pub role : Role
  pub credential_version : ℕ

-- `validate`: the account of a verified token, as it is now.
unfoldable pub validate : Payload → Db → Result Error Identity
unfolding accepts
validate p db = do
  u ← or_fail (get p.sub db.users) invalid_access_token
  guard (accepts p.credential_version u) invalid_access_token
  ok (record {
    sub = p.sub;
    email = u.email;
    role = u.role;
    credential_version = u.credential_version;
  })

module _ (jwt : Jwt) (host : Host) where
  unfoldable pub create_access_token : ℕ → Payload → Text
  create_access_token now p =
      jwt.sign host.access_secret host.access_lifetime now (record p {
        credential_version = some (get_or p.credential_version 0);
        token_type = access;
      })

  unfoldable pub create_refresh_token : ℕ → Payload → Text
  create_refresh_token now p =
      jwt.sign host.refresh_secret host.refresh_lifetime now (record p {
        credential_version = some (get_or p.credential_version 0);
        token_type = refresh;
      })

  unfoldable pub issue_tokens : ℕ → ℕ → User → Tokens × Profile
  issue_tokens now id u = (
    record {
      access_token = jwt.sign host.access_secret host.access_lifetime now (payload_of id u access);
      refresh_token =
          jwt.sign host.refresh_secret host.refresh_lifetime now (payload_of id u refresh);
    },
    record {
      id = id;
      email = u.email;
      first_name = u.first_name;
      last_name = u.last_name;
      role = u.role;
    },
  )

  unfoldable pub find_by_email : Text → Db → Option (ℕ × User)
  unfolding has_email
  find_by_email email db = find (has_email (host.lower email)) db.users

  unfoldable pub login : Bcrypt → Text → Text → ℕ → Db → Result Error (Tokens × Profile)
  unfolding may_log_in
  login bcrypt email password now db =
      let found = find_by_email (host.lower email) db in
      let valid = bcrypt.compare password (stored_hash host.dummy_hash found) in
      elim found [
        | none ↦ err invalid_credentials
        | some (id, u) ↦
            if may_log_in valid u then ok (issue_tokens now id u) else err invalid_credentials
      ]

  unfoldable pub verify_refresh_token : Text → ℕ → Result Error Payload
  verify_refresh_token token now = elim (jwt.verify host.refresh_secret now token) [
    | none ↦ err invalid_refresh_token
    | some p ↦ if is_refresh p.token_type then ok p else err invalid_refresh_token
  ]

  unfoldable pub rotate : Text → ℕ → Db → Result Error Tokens
  unfolding verify_refresh_token accepts create_access_token create_refresh_token
  rotate token now db = do
    p ← verify_refresh_token token now
    u ← or_fail (get p.sub db.users) invalid_refresh_token
    guard (accepts p.credential_version u) invalid_refresh_token
    ok (record {
      access_token = create_access_token now (payload_of p.sub u access);
      refresh_token = create_refresh_token now (payload_of p.sub u refresh);
    })

  -- A request with a bearer token.
  unfoldable pub authenticate : Text → ℕ → Db → Result Error Identity
  unfolding validate
  authenticate token now db = do
    p ← or_fail (jwt.verify host.access_secret now token) invalid_access_token
    validate p db
