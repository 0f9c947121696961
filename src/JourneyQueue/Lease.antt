-- ===== src/JourneyQueue/Lease.antt =====
-- The acknowledgement and the replay lease of journey-queue-store.ts.
use opa_security_awareness_a.Common.{
  ℕ, ◌+◌, ◌-◌, Bool, true, false, ◌&&◌, not, Option, none, some, List, length, keep, any, ltb, leb,
  ◌==◌, if◌then◌else◌, Result, ok, guard, ◌>>◌,
}
use opa_security_awareness_a.Common.Text.{Text, text_eq}
use opa_security_awareness_a.JourneyQueue.Store.{
  Row, LeaseRow, Store, Error, session_id_empty, owner_token_empty, now_invalid, lease_invalid,
  lease_expiry_unsafe, is_safe_integer, is_positive_safe_integer,
}

-- `session_id = ? AND idempotency_key IN (...)`.
unfoldable pub is_acknowledged : Text → List Text → Row → Bool
is_acknowledged session keys r =
    text_eq r.session_id session && any (text_eq r.idempotency_key) keys

unfoldable pub delete_acknowledged_for_session : Text → List Text → Store → Result Error (ℕ × Store)
unfolding is_acknowledged
delete_acknowledged_for_session session keys s = do
  guard (ltb 0 (length session)) session_id_empty
  let kept = keep (λ r. not (is_acknowledged session keys r)) s.rows
  ok (if length keys == 0 then (0, s) else (length s.rows - length kept, record s { rows = kept }))

-- The conflict clause: an absent or expired lease may be claimed.
unfoldable pub may_claim : Option LeaseRow → ℕ → Bool
may_claim none now = true
may_claim (some l) now = leb l.expires_at_ms now

unfoldable pub try_acquire_replay_lease : Text → ℕ → ℕ → Store → Result Error (Bool × Store)
unfolding may_claim
try_acquire_replay_lease owner now lease_ms s = do
  guard (ltb 0 (length owner)) owner_token_empty
  guard (is_safe_integer now) now_invalid
  guard (is_positive_safe_integer lease_ms) lease_invalid
  guard (is_safe_integer (now + lease_ms)) lease_expiry_unsafe
  ok (
      if may_claim s.lease now
      then (
        true,
        record s { lease = some (record { owner_token = owner; expires_at_ms = now + lease_ms }) },
      )
      else (false, s))

-- Whether the row of the lease belongs to `owner`.
unfoldable pub owns_lease : Text → Option LeaseRow → Bool
owns_lease owner none = false
owns_lease owner (some l) = text_eq l.owner_token owner

unfoldable pub release_replay_lease : Text → Store → Result Error (Bool × Store)
unfolding owns_lease
release_replay_lease owner s = do
  guard (ltb 0 (length owner)) owner_token_empty
  ok (if owns_lease owner s.lease then (true, record s { lease = none }) else (false, s))
