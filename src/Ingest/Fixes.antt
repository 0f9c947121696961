-- ===== src/Ingest/Fixes.antt =====
-- `insertFixes` and `recordTrackedFixes` of apps/api/src/modules/journey/journey-session.service.ts,
-- for one session under its ingestion lock. `hex` is SHA-256 in hexadecimal; `preimage` is the text
-- of canonicalFixPayload for a nonce and a fix, where it accepts the fix. `nonce` gives the random
-- nonce of each sequence number, and a reading is an opaque code.
use opa_security_awareness_a.Common.{
  ℕ, suc, ◌+◌, ◌-◌, Bool, not, Option, none, some, List, [], ◌∷◌, ◌++◌, length, any, keep, last?,
  leb, ltb, if◌then◌else◌, Result, ok, guard, or_fail, ◌>>=◌, ◌>>◌,
}
use opa_security_awareness_a.Common.Text.{Text, text_eq}
use opa_security_awareness_a.Ingest.Envelope.{
  Error, bad_payload, date, session_not_found, empty_batch, canonical_chain_envelope,
}

-- JourneyFixInput; an absent reading is null.
pub record FixInput : Type 0 where
  pub idempotency_key : Text
  pub source : Text
  pub latitude : ℕ
  pub longitude : ℕ
  pub accuracy : Option ℕ
  pub speed : Option ℕ
  pub heading : Option ℕ
  pub battery_level : Option ℕ
  pub is_charging : Option Bool
  pub recorded_at : ℕ

-- A row of journey_location_fixes.
pub record StoredFix : Type 0 where
  pub sequence : ℕ
  pub fix : FixInput
  pub received_at : Text
  pub nonce : Text
  pub payload_hash : Text
  pub previous_hash : Option Text
  pub hash : Text

pub data SessionStatus : Type 0 where
  started active ended : SessionStatus

-- A session with its fixes in the order of their sequence numbers.
pub record Session : Type 0 where
  pub status : SessionStatus
  pub last_fix_received_at : Option Text
  pub fixes : List StoredFix

pub record InsertResult : Type 0 where
  pub inserted : ℕ
  pub skipped_duplicate_in_batch : ℕ
  pub skipped_already_stored : ℕ
  pub received_at : Text
  pub tail_sequence : Option ℕ
  pub tail_hash : Option Text

unfoldable pub seen : Text → List Text → Bool
seen key keys = any (text_eq key) keys

-- Of the fixes of one key the first stays.
unfoldable pub dedupe : List Text → List FixInput → List FixInput
dedupe keys [] = []
dedupe keys (f ∷ fs) =
    let dropped = dedupe keys fs in
    let kept = dedupe (f.idempotency_key ∷ keys) fs in
    if seen f.idempotency_key keys then dropped else f ∷ kept

unfoldable pub insert_by_time : FixInput → List FixInput → List FixInput
insert_by_time f [] = f ∷ []
insert_by_time f (g ∷ gs) =
    let rest = insert_by_time f gs in
    if leb f.recorded_at g.recorded_at then f ∷ g ∷ gs else g ∷ rest

-- The stable sort by `recordedAt`.
unfoldable pub by_time : List FixInput → List FixInput
unfolding insert_by_time
by_time [] = []
by_time (f ∷ fs) = insert_by_time f (by_time fs)

unfoldable pub is_stored : List StoredFix → FixInput → Bool
is_stored fixes f = any (λ (s : StoredFix). text_eq f.idempotency_key s.fix.idempotency_key) fixes

abbrev pub next_sequence : Option StoredFix → ℕ
next_sequence none = 0
next_sequence (some s) = s.sequence + 1

abbrev pub tail_hash_of : Option StoredFix → Option Text
tail_hash_of none = none
tail_hash_of (some s) = some s.hash

abbrev tail_sequence_of : Option StoredFix → Option ℕ
tail_sequence_of none = none
tail_sequence_of (some s) = some s.sequence

abbrev pub promoted : SessionStatus → SessionStatus
promoted started = active
promoted s = s

module _ (hex : Text → Text) (preimage : Text → FixInput → Option Text) (nonce : ℕ → Text)
    (received_at : Text) where
  -- The row of one fix, linked to the hash before it.
  unfoldable pub link : Option Text → ℕ → FixInput → Result Error StoredFix
  link previous sequence f = do
    payload ← or_fail (preimage (nonce sequence) f) bad_payload
    envelope ← canonical_chain_envelope previous (hex payload) sequence (date (some received_at))
    ok (record {
      sequence = sequence;
      fix = f;
      received_at = received_at;
      nonce = nonce sequence;
      payload_hash = hex payload;
      previous_hash = previous;
      hash = hex envelope;
    })

  -- The rows of the fixes that are not stored, in their order.
  unfoldable pub link_all : Option Text → ℕ → List FixInput → Result Error (List StoredFix)
  link_all previous sequence [] = ok []
  link_all previous sequence (f ∷ fs) = link previous sequence f >>= λ row.
      link_all (some row.hash) (suc sequence) fs >>= λ rows. ok (row ∷ rows)

  -- What follows the loop: nothing at all is written where no row is new.
  unfoldable pub write_rows : ℕ → ℕ → Session → List StoredFix → InsertResult × Session
  write_rows in_batch already s [] = (
    record {
      inserted = 0;
      skipped_duplicate_in_batch = in_batch;
      skipped_already_stored = already;
      received_at = received_at;
      tail_sequence = tail_sequence_of (last? s.fixes);
      tail_hash = tail_hash_of (last? s.fixes);
    },
    s,
  )
  write_rows in_batch already s (row ∷ rows) = (
    record {
      inserted = length (row ∷ rows);
      skipped_duplicate_in_batch = in_batch;
      skipped_already_stored = already;
      received_at = received_at;
      tail_sequence = tail_sequence_of (last? (row ∷ rows));
      tail_hash = tail_hash_of (last? (row ∷ rows));
    },
    record {
      status = promoted s.status;
      last_fix_received_at = some received_at;
      fixes = s.fixes ++ row ∷ rows;
    },
  )

  unfoldable pub insert_into : List FixInput → Session → Result Error (InsertResult × Session)
  insert_into fixes s =
      let deduped = by_time (dedupe [] fixes) in
      let fresh = keep (λ f. not (is_stored s.fixes f)) deduped in
      link_all (tail_hash_of (last? s.fixes)) (next_sequence (last? s.fixes)) fresh >>= λ rows.
      ok (write_rows (length fixes - length deduped) (length deduped - length fresh) s rows)

  unfoldable pub insert_fixes :
      List FixInput → Option Session → Result Error (InsertResult × Session)
  insert_fixes fixes session = or_fail session session_not_found >>= insert_into fixes

  unfoldable pub record_tracked_fixes :
      List FixInput → Option Session → Result Error (InsertResult × Session)
  record_tracked_fixes fixes session = do
    guard (ltb 0 (length fixes)) empty_batch
    insert_fixes fixes session
