-- ===== src/Delivery/Policy.antt =====
-- delivery-policy.ts, delivery-diagnostics.ts and the enumerations of the database schema.
use opa_security_awareness_a.Common.{
  ℕ, ◌+◌, Bool, true, false, ◌&&◌, ◌||◌, not, Option, none, some, List, [], ◌∷◌, length, any, find,
  ltb, leb, ◌==◌, if◌then◌else◌, Result, ok, guard, ◌>>◌,
}
use opa_security_awareness_a.Common.Text.{Text, codes, text_eq}

pub data DeliveryStatus : Type 0 where
  queued attempting provider_accepted delivered failed unknown : DeliveryStatus

pub data NotificationStatus : Type 0 where
  queued sending sent delivered acknowledged failed cancelled : NotificationStatus

pub data Failure : Type 0 where
  authentication invalid_recipient rate_limited provider_unavailable network timeout : Failure
  rejected expired unknown_provider_error internal_error : Failure

pub data Channel : Type 0 where
  push sms whatsapp voice email : Channel

abbrev pub max_delivery_attempts : ℕ
max_delivery_attempts = 5

abbrev pub attempt_timeout_ms : ℕ
attempt_timeout_ms = 300000

-- `delays[number - 1] ?? delays[0]`.
unfoldable pub base_delay : ℕ → ℕ
base_delay number =
    if number == 1
    then 60000
    else if number == 2
    then 300000
    else if number == 3
    then 900000
    else if number == 4
    then 3600000
    else 60000

-- `jitter` is what Math.floor(Math.random() * 15_000) returned.
unfoldable pub retry_delay : ℕ → ℕ → Bool → Option ℕ
unfolding base_delay
retry_delay jitter number retryable =
    if not retryable || leb max_delivery_attempts number || ltb number 1
    then none
    else some (base_delay number + jitter)

-- The two environment variables that name an account.
pub record Environment : Type 0 where
  pub resend_account_scope : Option Text
  pub africastalking_account_scope : Option Text

-- `scope || "primary"`: an empty text counts as absent.
abbrev or_primary : Option Text → Text
or_primary none = codes "primary"
or_primary (some t) = if length t == 0 then codes "primary" else t

abbrev scope_of : Environment → Channel → Option Text
scope_of env email = env.resend_account_scope
scope_of env sms = env.africastalking_account_scope
scope_of env _ = none

unfoldable pub is_scope_char : ℕ → Bool
is_scope_char c =
    (leb b'a' c && leb c b'z')
    || (leb b'A' c && leb c b'Z')
    || (leb b'0' c && leb c b'9')
    || (c == b'_')
    || (c == b'-')

-- /^[a-zA-Z0-9_-]{1,128}$/
unfoldable pub is_account_scope : Text → Bool
unfolding is_scope_char
is_account_scope t =
    ltb 0 (length t) && leb (length t) 128 && not (any (λ c. not (is_scope_char c)) t)

abbrev pub resend : Text
resend = codes "RESEND"

abbrev provider_name : Channel → Text
provider_name sms = codes "AFRICASTALKING"
provider_name email = resend
provider_name push = codes "PUSH"
provider_name whatsapp = codes "WHATSAPP"
provider_name voice = codes "VOICE"

pub data Error : Type 0 where
  invalid_account_scope not_found duplicate_attempt duplicate_reference owner_missing : Error

-- The provider and the account scope of a channel.
unfoldable pub provider_identity : Environment → Channel → Result Error (Text × Text)
unfolding is_account_scope
provider_identity env channel = do
  let scope = or_primary (scope_of env channel)
  guard (is_account_scope scope) invalid_account_scope
  ok (provider_name channel, scope)

abbrev pub is_delivered : DeliveryStatus → Bool
is_delivered DeliveryStatus.delivered = true
is_delivered _ = false

abbrev pub is_failed : DeliveryStatus → Bool
is_failed DeliveryStatus.failed = true
is_failed _ = false

abbrev pub is_unknown : DeliveryStatus → Bool
is_unknown unknown = true
is_unknown _ = false

abbrev pub is_accepted : DeliveryStatus → Bool
is_accepted provider_accepted = true
is_accepted _ = false

abbrev pub is_attempting : DeliveryStatus → Bool
is_attempting attempting = true
is_attempting _ = false

abbrev pub is_queued : DeliveryStatus → Bool
is_queued DeliveryStatus.queued = true
is_queued _ = false

unfoldable pub receipt_status : DeliveryStatus → DeliveryStatus → DeliveryStatus
receipt_status current incoming =
    if is_delivered current || is_delivered incoming
    then DeliveryStatus.delivered
    else if is_failed current && is_accepted incoming
    then current
    else if is_unknown incoming && not (is_attempting current) && not (is_queued current)
    then current
    else incoming

pub record HttpFailure : Type 0 where
  pub failure_category : Failure
  pub retryable : Bool
  pub uncertain : Bool

-- An absent `uncertain` is false.
unfoldable pub http_failure : ℕ → HttpFailure
http_failure status =
    if (status == 401) || (status == 403)
    then record { failure_category = authentication; retryable = false; uncertain = false }
    else if status == 429
    then record { failure_category = rate_limited; retryable = true; uncertain = false }
    else if leb 500 status
    then record { failure_category = provider_unavailable; retryable = false; uncertain = true }
    else record { failure_category = rejected; retryable = false; uncertain = false }

-- DELIVERY_DIAGNOSTICS.
abbrev pub delivery_diagnostics : List Text
delivery_diagnostics =
    codes "DELIVERY_ACTOR_UNAVAILABLE"
    ∷ codes "DELIVERY_AUTHORIZATION_DENIED"
    ∷ codes "SNAPSHOT_RESOLUTION_FAILED"
    ∷ codes "CRYPTO_DECRYPTION_FAILED"
    ∷ codes "AUDIT_PERSISTENCE_FAILED"
    ∷ codes "PAYLOAD_VALIDATION_FAILED"
    ∷ codes "ENVIRONMENT_POLICY_DENIED"
    ∷ codes "PROVIDER_INVOCATION_FAILED"
    ∷ codes "PROVIDER_REQUEST_FAILED"
    ∷ codes "PROVIDER_NOT_CONFIGURED"
    ∷ codes "TRANSPORT_UNSUPPORTED"
    ∷ []

-- A diagnostic passes only if it is one of the listed codes.
unfoldable pub safe_diagnostic : Option Text → Option Text
safe_diagnostic none = none
safe_diagnostic (some value) = find (λ c. text_eq c value) delivery_diagnostics
