-- ===== src/Ingest/Tests.antt =====
-- A batch of two fixes, one of them twice, into a new session; a digest stands in that tells texts
-- apart by the sum of their codes.
use opa_security_awareness_a.Common.{
  map, ℕ, ◌+◌, ◌%◌, ◌≡◌, ◌⊎◌, All, false, refl, not, Option, none, some, List, [], ◌∷◌, ◌++◌,
  length, keep, ok, err,
}
use opa_security_awareness_a.Common.Text.{Text, codes, text_eq, decimal}
use opa_security_awareness_a.Ingest.Envelope.{
  canonical_chain_envelope, canonical_previous, canonical_digest, canonical_timestamp, Timestamp,
  date, string, canonical_sequence, assert_no_delimiter, is_digest, is_hex_char,
}
use opa_security_awareness_a.Ingest.Fixes.{
  FixInput, StoredFix, Session, started, InsertResult, dedupe, seen, by_time, insert_by_time,
  is_stored, link, link_all, write_rows, insert_into, insert_fixes, record_tracked_fixes,
}
use opa_security_awareness_a.Ingest.Chain.{IsChain, fixes_of, insert_fixes-IsChain}
use opa_security_awareness_a.Ingest.Service.{
  FixDto, Owned, is_ended, classify_journey_fixes, ingest,
}
use opa_security_awareness_a.Ingest.Stored.{AllStored}
use opa_security_awareness_a.Ingest.Verdict.{IsTimely, fixes_sent, ingest_accepted}
use opa_security_awareness_a.Ingest.Decode.{envelope-injective}
use opa_security_awareness_a.Ingest.Tamper.{SameRows, Collision, tampered_chain}
use opa_security_awareness_a.Ingest.Keys.{Distinct}
use opa_security_awareness_a.Ingest.Replay.{insert_fixes-again}

abbrev sum : Text → ℕ
sum [] = 0
sum (c ∷ cs) = c + sum cs

abbrev digest : Text → Text
digest t =
    codes "000000000000000000000000000000000000000000000000000000000000000"
    ++ (sum t % 10 + 48) ∷ []

abbrev payload : Text → FixInput → Option Text
payload nonce f = some (f.idempotency_key ++ nonce)

abbrev counter : ℕ → Text
counter n = decimal n

abbrev clock : Text
clock = codes "2026-01-01T00:00:00.000Z"

abbrev fix_at : Text → ℕ → FixInput
fix_at key at = record {
  idempotency_key = key;
  source = codes "manual";
  latitude = 5;
  longitude = 6;
  accuracy = none;
  speed = none;
  heading = none;
  battery_level = none;
  is_charging = none;
  recorded_at = at;
}

abbrev batch : List FixInput
batch = fix_at (codes "b") 20 ∷ fix_at (codes "a") 10 ∷ fix_at (codes "b") 20 ∷ []

abbrev new_session : Session
new_session = record { status = started; last_fix_received_at = none; fixes = [] }

abbrev nothing : InsertResult
nothing = record {
  inserted = 0;
  skipped_duplicate_in_batch = 0;
  skipped_already_stored = 0;
  received_at = clock;
  tail_sequence = none;
  tail_hash = none;
}

abbrev outcome : InsertResult × Session
unfolding insert_fixes
outcome = elim (insert_fixes digest payload counter clock batch (some new_session)) [
  | ok x ↦ x
  | err e ↦ (nothing, new_session)
]

outcome-eq :
    insert_fixes digest payload counter clock batch (some new_session) ≡ ok (outcome.0, outcome.1)
unfolding outcome insert_fixes insert_into dedupe seen by_time insert_by_time is_stored link
    link_all write_rows canonical_chain_envelope canonical_previous canonical_timestamp
    canonical_digest canonical_sequence assert_no_delimiter is_digest is_hex_char text_eq decimal
outcome-eq = refl

-- Two of the three fixes are new.
two_inserted : outcome.0.inserted ≡ 2
unfolding outcome insert_fixes insert_into dedupe seen by_time insert_by_time is_stored link
    link_all write_rows canonical_chain_envelope canonical_previous canonical_timestamp
    canonical_digest canonical_sequence assert_no_delimiter is_digest is_hex_char text_eq decimal
two_inserted = refl

insert_fixes-IsChain_example :
    (rows : List StoredFix) × (outcome.1.fixes ≡ [] ++ rows)
    × IsChain digest payload none 0 outcome.1.fixes
    × (fixes_of rows ≡ keep (λ f. not (is_stored [] f)) (by_time (dedupe [] batch)))
    × (outcome.0.inserted ≡ length rows)
    × (outcome.0.inserted + outcome.0.skipped_duplicate_in_batch + outcome.0.skipped_already_stored
        ≡ 3)
insert_fixes-IsChain_example =
    insert_fixes-IsChain digest payload counter clock batch new_session tt outcome-eq

insert_fixes-again_example :
    (r : InsertResult) × (insert_fixes digest payload counter clock batch (some outcome.1)
      ≡ ok (r, outcome.1))
    × (r.inserted ≡ 0)
insert_fixes-again_example =
    insert_fixes-again digest payload counter counter clock clock batch new_session tt outcome-eq

outcome-IsChain : IsChain digest payload none 0 outcome.1.fixes
outcome-IsChain =
    (insert_fixes-IsChain digest payload counter clock batch new_session tt outcome-eq).2

-- The same batch from another source, which this preimage leaves out.
abbrev relabelled : List FixInput
relabelled = map (λ (f : FixInput). record f { source = codes "background" }) batch

abbrev twin : InsertResult × Session
unfolding insert_fixes
twin = elim (insert_fixes digest payload counter clock relabelled (some new_session)) [
  | ok x ↦ x
  | err e ↦ (nothing, new_session)
]

twin-eq :
    insert_fixes digest payload counter clock relabelled (some new_session) ≡ ok (twin.0, twin.1)
unfolding twin insert_fixes insert_into dedupe seen by_time insert_by_time is_stored link link_all
    write_rows canonical_chain_envelope canonical_previous canonical_timestamp canonical_digest
    canonical_sequence assert_no_delimiter is_digest is_hex_char text_eq decimal
twin-eq = refl

twin-IsChain : IsChain digest payload none 0 twin.1.fixes
twin-IsChain =
    (insert_fixes-IsChain digest payload counter clock relabelled new_session tt twin-eq).2

tampered_chain_example : SameRows payload outcome.1.fixes twin.1.fixes ⊎ Collision digest
unfolding outcome twin insert_fixes insert_into dedupe seen by_time insert_by_time is_stored link
    link_all write_rows canonical_chain_envelope canonical_previous canonical_timestamp
    canonical_digest canonical_sequence assert_no_delimiter is_digest is_hex_char text_eq decimal
tampered_chain_example =
    tampered_chain digest payload outcome.1.fixes twin.1.fixes outcome-IsChain twin-IsChain refl
      refl

-- An envelope with a digest of zeros.
abbrev zeros : Text
zeros = codes "0000000000000000000000000000000000000000000000000000000000000000"

abbrev envelope_text : Text
envelope_text = elim (canonical_chain_envelope (some zeros) zeros 7 (date (some clock))) [
  | ok t ↦ t
  | err e ↦ []
]

envelope_text-ok :
    canonical_chain_envelope (some zeros) zeros 7 (date (some clock)) ≡ ok envelope_text
unfolding canonical_chain_envelope canonical_previous canonical_timestamp canonical_digest
    canonical_sequence assert_no_delimiter is_digest is_hex_char decimal
envelope_text-ok = refl

-- The same receipt time as a string with microseconds.
abbrev precise : Timestamp
precise = string (codes "2026-01-01T00:00:00.000123Z") (some clock)

precise_text-ok : canonical_chain_envelope (some zeros) zeros 7 precise ≡ ok envelope_text
unfolding canonical_chain_envelope canonical_previous canonical_timestamp canonical_digest
    canonical_sequence assert_no_delimiter is_digest is_hex_char decimal
precise_text-ok = refl

envelope-injective_example :
    (some zeros ≡ some zeros)
    × (zeros ≡ zeros)
    × (◌≡◌ {A = ℕ} 7 7)
    × ((rcv : Text) × (canonical_timestamp (date (some clock)) ≡ ok rcv)
        × (canonical_timestamp precise ≡ ok rcv))
envelope-injective_example =
    envelope-injective (some zeros) (some zeros) zeros zeros 7 7 (date (some clock)) precise
      {t = envelope_text} envelope_text-ok precise_text-ok

abbrev sent : List FixDto
sent =
    record { fix = fix_at (codes "b") 20; recorded_at = codes "t20" }
    ∷ record { fix = fix_at (codes "a") 10; recorded_at = codes "t10" }
    ∷ []

abbrev owned : Owned
owned = record { user_id = 1; started_at = 15; session = new_session }

abbrev ingested : InsertResult × Owned
ingested = elim (ingest digest payload counter clock 1 sent 30 (some owned)) [
  | ok r ↦ r
  | err e ↦ (nothing, owned)
]

ingested-ok :
    ingest digest payload counter clock 1 sent 30 (some owned) ≡ ok (ingested.0, ingested.1)
unfolding ingest classify_journey_fixes record_tracked_fixes insert_fixes insert_into dedupe seen
    by_time insert_by_time is_stored link link_all write_rows canonical_chain_envelope
    canonical_previous canonical_timestamp canonical_digest canonical_sequence assert_no_delimiter
    is_digest is_hex_char text_eq decimal
ingested-ok = refl

ingest_accepted_example :
    (owned.user_id ≡ 1)
    × (is_ended started ≡ false)
    × All (IsTimely 15 30) sent
    × ((rows : List StoredFix) × (ingested.1.session.fixes ≡ [] ++ rows)
        × (ingested.0.inserted ≡ length rows))
    × AllStored ingested.1.session.fixes (fixes_sent sent)
    × IsChain digest payload none 0 ingested.1.session.fixes
    × Distinct (fixes_of ingested.1.session.fixes)
    × (ingested.1.user_id ≡ 1)
    × (ingested.1.started_at ≡ 15)
ingest_accepted_example =
    ingest_accepted digest payload counter clock 1 sent 30 owned {r = ingested.0} {o' = ingested.1}
      tt tt ingested-ok
