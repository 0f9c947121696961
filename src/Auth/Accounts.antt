-- ===== src/Auth/Accounts.antt =====
-- The tables of the authentication services, and the library code that these call.
use opa_security_awareness_a.Common.{ℕ, ◌+◌, ◌≤◌, ◌<◌, ◌≡◌, Bool, true, Option, none, some}
use opa_security_awareness_a.Common.Text.{Text}
use opa_security_awareness_a.Common.Table.{Table}
use opa_security_awareness_a.SafeWalk.Policy.{Role, AccountStatus}

pub record User : Type 0 where
  pub email : Text
  pub first_name : Text
  pub last_name : Text
  pub password_hash : Option Text
  pub role : Role
  pub is_active : Bool
  pub account_status : AccountStatus
  pub credential_version : ℕ
  pub activation_token_hash : Option Text
  pub activation_expires_at : Option ℕ
  pub activated_at : Option ℕ

pub record ResetToken : Type 0 where
  pub user_id : ℕ
  pub token_hash : Text
  pub expires_at : ℕ
  pub consumed_at : Option ℕ

pub record Db : Type 0 where
  pub users : Table User
  pub resets : Table ResetToken

pub data Error : Type 0 where
  invalid_credentials invalid_refresh_token invalid_access_token reset_failed activation_failed :
      Error

pub data TokenType : Type 0 where
  access refresh : TokenType

-- The claims of a token, which JSON keeps as they are.
pub record Payload : Type 0 where
  pub sub : ℕ
  pub email : Text
  pub role : Option Role
  pub credential_version : Option ℕ
  pub token_type : TokenType

-- jsonwebtoken: a token signed with a secret for a time is verified with that secret, before it
-- expires, to what was signed, and to nothing afterwards. Times are seconds.
pub record Jwt : Type 0 where
  pub sign : Text → ℕ → ℕ → Payload → Text
  pub verify : Text → ℕ → Text → Option Payload
  pub verify_live :
      (secret : Text) (lifetime at now : ℕ) (p : Payload)
      → now < at + lifetime
      → verify secret now (sign secret lifetime at p) ≡ some p
  pub verify_late :
      (secret : Text) (lifetime at now : ℕ) (p : Payload)
      → at + lifetime ≤ now
      → verify secret now (sign secret lifetime at p) ≡ none

-- bcrypt: a password compares with its own hash, whatever the salt.
pub record Bcrypt : Type 0 where
  pub hash : Text → Text → Text
  pub compare : Text → Text → Bool
  pub compare_hash : (salt password : Text) → compare password (hash salt password) ≡ true

-- The configuration, and the functions on texts that the host provides.
pub record Host : Type 0 where
  pub hex : Text → Text
  pub lower : Text → Text
  pub upper : Text → Text
  pub dummy_hash : Text
  pub access_secret : Text
  pub access_lifetime : ℕ
  pub refresh_secret : Text
  pub refresh_lifetime : ℕ
