-- ===== src/Auth/Credentials.antt =====
-- `confirmReset` of password-reset.service.ts, and `activate` of activation.service.ts with
-- activation-code.ts. The lookup before the transaction and the one inside it read one state here;
-- `now` is read inside.
use opa_security_awareness_a.Common.{
  ℕ, ◌+◌, Bool, true, false, ◌&&◌, ◌||◌, not, Option, none, some, map, find, keep, any, length, leb,
  ◌==◌, if◌then◌else◌, is_none, Result, ok, guard, or_fail, ◌>>=◌, ◌>>◌,
}
use opa_security_awareness_a.Common.Text.{Text, text_eq, trim, is_space}
use opa_security_awareness_a.Common.Table.{get, modify, update_where}
use opa_security_awareness_a.SafeWalk.Policy.{Role, user, active}
use opa_security_awareness_a.Auth.Accounts.{
  User, ResetToken, Db, Error, reset_failed, activation_failed, Jwt, Bcrypt, Host,
}
use opa_security_awareness_a.Auth.Tokens.{is_activated, Tokens, Profile, issue_tokens}

abbrev pub is_user : Role → Bool
is_user user = true
is_user _ = false

unfoldable pub has_token : Text → ℕ × ResetToken → Bool
has_token hash (id, r) = text_eq r.token_hash hash

-- The test under the lock of the account.
unfoldable pub may_reset : Text → ℕ → ResetToken → User → Bool
may_reset hash now r u =
    text_eq r.token_hash hash
    && is_none r.consumed_at
    && not (leb r.expires_at now)
    && u.is_active
    && is_activated u.account_status

unfoldable pub new_password : Text → User → User
new_password hash u = record u {
  password_hash = some hash;
  credential_version = u.credential_version + 1;
}

-- `where: { userId, consumedAt: null }`.
unfoldable pub is_outstanding : ℕ → ℕ → ResetToken → Bool
is_outstanding user_id id r = r.user_id == user_id && is_none r.consumed_at

abbrev pub consume : ℕ → ResetToken → ResetToken
consume now r = record r { consumed_at = some now }

-- The two writes: the password, and every outstanding token of the account.
unfoldable pub apply_reset : ℕ → Text → ℕ → Db → Db
unfolding new_password is_outstanding
apply_reset user_id password_hash now db = record db {
  users = modify user_id (new_password password_hash) db.users;
  resets = update_where (is_outstanding user_id) (consume now) db.resets;
}

unfoldable pub confirm_reset : Host → Bcrypt → Text → Text → Text → ℕ → Db → Result Error Db
unfolding has_token may_reset apply_reset
confirm_reset host bcrypt token password salt now db = do
  let hash = host.hex (trim token)
  candidate ← or_fail (find (has_token hash) db.resets) reset_failed
  r ← or_fail (get candidate.0 db.resets) reset_failed
  u ← or_fail (get r.user_id db.users) reset_failed
  guard (may_reset hash now r u) reset_failed
  ok (apply_reset r.user_id (bcrypt.hash salt password) now db)

abbrev fold_letter : ℕ → ℕ
fold_letter c = if c == b'I' || c == b'L' then b'1' else if c == b'O' then b'0' else c

unfoldable pub is_code_character : ℕ → Bool
is_code_character c =
    (leb b'0' c && leb c b'9')
    || (leb b'A' c && leb c b'H')
    || c == b'J'
    || c == b'K'
    || c == b'M'
    || c == b'N'
    || (leb b'P' c && leb c b'T')
    || (leb b'V' c && leb c b'Z')

-- `normalizeActivationCredential`.
unfoldable pub normalize_activation_credential : Host → Text → Text
unfolding is_code_character
normalize_activation_credential host value =
    let trimmed = trim value in
    let compact =
      map fold_letter (host.upper (keep (λ c. not (is_space c || c == b'-')) trimmed)) in
    if length compact == 8 && not (any (λ c. not (is_code_character c)) compact)
    then compact
    else trimmed

abbrev pub is_hash : Text → Option Text → Bool
is_hash hash none = false
is_hash hash (some t) = text_eq t hash

unfoldable pub has_activation : Text → ℕ × User → Bool
has_activation hash (id, u) = is_hash hash u.activation_token_hash

abbrev pub is_current : Option ℕ → ℕ → Bool
is_current none now = false
is_current (some t) now = not (leb t now)

unfoldable pub may_activate : Text → ℕ → User → Bool
may_activate hash now u =
    u.is_active
    && not (is_activated u.account_status)
    && is_user u.role
    && is_hash hash u.activation_token_hash
    && is_current u.activation_expires_at now

unfoldable pub activated : Text → ℕ → User → User
activated password_hash now u = record u {
  password_hash = some password_hash;
  account_status = active;
  activated_at = some now;
  activation_token_hash = none;
  activation_expires_at = none;
}

unfoldable pub activate :
    Jwt → Host → Bcrypt → Text → Text → Text → ℕ → Db → Result Error ((Tokens × Profile) × Db)
unfolding has_activation may_activate activated normalize_activation_credential
activate jwt host bcrypt token password salt now db = do
  let hash = host.hex (normalize_activation_credential host token)
  candidate ← or_fail (find (has_activation hash) db.users) activation_failed
  u ← or_fail (get candidate.0 db.users) activation_failed
  guard (may_activate hash now u) activation_failed
  let u' = activated (bcrypt.hash salt password) now u
  ok (
    issue_tokens jwt host now candidate.0 u',
    record db { users = modify candidate.0 (activated (bcrypt.hash salt password) now) db.users },
  )
