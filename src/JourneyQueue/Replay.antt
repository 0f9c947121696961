-- ===== src/JourneyQueue/Replay.antt =====
-- `replayJourneySessionWithLease` of apps/mobile-app/src/services/journey-replay.ts. The HTTP client
-- is a parameter: what a post of these rows answers, `none` for success.
use opa_security_awareness_a.Common.{
  ℕ, Bool, true, false, Option, none, some, List, map, length, ltb, ◌==◌, not, if◌then◌else◌,
  Result, ok, err, ◌>>=◌,
}
use opa_security_awareness_a.Common.Text.{Text}
use opa_security_awareness_a.JourneyQueue.Store.{
  Row, TrackedFix, Store, Error, session_id_empty, owner_token_empty, count,
}
use opa_security_awareness_a.JourneyQueue.Read.{list_oldest_for_session}
use opa_security_awareness_a.JourneyQueue.Lease.{
  delete_acknowledged_for_session, try_acquire_replay_lease, release_replay_lease,
}

abbrev pub max_batch : ℕ
max_batch = 200

abbrev pub lease_ms : ℕ
lease_ms = 45000

pub record HttpError : Type 0 where
  pub status : Option ℕ
  pub message : Text

pub data Outcome : Type 0 where
  lease_busy : Outcome
  empty : Outcome
  sent : ℕ → ℕ → ℕ → Outcome
  delete_shortfall : ℕ → ℕ → ℕ → Outcome
  http_error : HttpError → Outcome

-- `toPayload`: what one row sends is its fix, without the queue's own columns.
abbrev pub to_payload : Row → TrackedFix
to_payload r = r.fix

abbrev pub keys_of : List Row → List Text
keys_of = map (λ r. r.idempotency_key)

-- After a successful post: the acknowledged rows go, and a shortfall is reported.
unfoldable pub acknowledge : Text → List Row → Store → Result Error (Outcome × Store)
acknowledge session rows s = do
  (removed, s') ← delete_acknowledged_for_session session (keys_of rows) s
  let expected = length (keys_of rows)
  ok (
      if not (removed == expected)
      then (delete_shortfall expected removed (count s'), s')
      else (sent expected removed (count s'), s'))

-- The `finally` block: a failed release is logged and changes nothing.
unfoldable pub release_after : Text → Store → Store
release_after owner s = elim (release_replay_lease owner s) [ ok (released, s') ↦ s' | err e ↦ s ]

-- What the whole call leaves behind: its outcome or the error it throws, and the store either way.
abbrev pub finally : Text → Store → Result Error (Outcome × Store) → Result Error Outcome × Store
finally owner s (ok (o, s')) = (ok o, release_after owner s')
finally owner s (err e) = (err e, release_after owner s)

-- `others` is what the other contexts of the app do to the queue while the request is in flight.
module _ (post : Text → List TrackedFix → Option HttpError) (others : Store → Store) where
  -- The answer of the request, and the store that is found when it arrives.
  unfoldable pub after_post : Text → List Row → Store → Result Error (Outcome × Store)
  after_post session rows s = elim (post session (map to_payload rows)) [
    | some e ↦ ok (http_error e, others s)
    | none ↦ acknowledge session rows (others s)
  ]

  -- The body of the `try`, with the lease held. An error leaves the store as the post found it.
  unfoldable pub replay_batch : Text → Store → Result Error (Outcome × Store)
  replay_batch session s = do
    rows ← list_oldest_for_session session max_batch s
    (if length rows == 0 then ok (empty, s) else after_post session rows s)

  abbrev pub after_acquire :
      Text → Text → Store → Result Error (Bool × Store) → Result Error Outcome × Store
  after_acquire session owner s (err e) = (err e, s)
  after_acquire session owner s (ok (false, s')) = (ok lease_busy, s')
  after_acquire session owner s (ok (true, s')) = finally owner s' (replay_batch session s')

  unfoldable pub replay_journey_session_with_lease :
      Text → Text → ℕ → Store → Result Error Outcome × Store
  replay_journey_session_with_lease session owner now s =
      if ltb 0 (length session)
      then (if ltb 0 (length owner)
          then after_acquire session owner s (try_acquire_replay_lease owner now lease_ms s)
          else (err owner_token_empty, s))
      else (err session_id_empty, s)
