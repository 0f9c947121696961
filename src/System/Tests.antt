-- ===== src/System/Tests.antt =====
-- One fix that is captured, sent twice because the first answer is lost, and drained.
use opa_security_awareness_a.Common.{
  some, List, Result, ok, err, ℕ, ◌+◌, ◌%◌, refl, true, false, none, some, [], ◌∷◌, ◌++◌, All,
}
use opa_security_awareness_a.Common.Text.{Text, codes, text_eq, decimal}
use opa_security_awareness_a.JourneyQueue.Store.{
  Store, TrackedFix, count, has_key, insert_or_ignore, advance_sequence, get_capture_sequence,
  Error as QueueError,
}
use opa_security_awareness_a.JourneyQueue.Write.{
  EnqueueInput, EnqueueOptions, Mutation, enqueue, enforce_depth, BatchItem, BatchResult,
  enqueue_batch, write_batch, insert_chunks, insert_rows, batch_fix, batch_key, capture_sequences,
  finish_batch,
}
use opa_security_awareness_a.JourneyQueue.Read.{in_session, list_oldest_for_session}
use opa_security_awareness_a.JourneyQueue.Lease.{
  delete_acknowledged_for_session, try_acquire_replay_lease, release_replay_lease,
}
use opa_security_awareness_a.JourneyQueue.Replay.{
  HttpError, sent, http_error, replay_journey_session_with_lease, replay_batch, after_post,
  acknowledge, release_after,
}
use opa_security_awareness_a.Ingest.Envelope.{
  canonical_chain_envelope, canonical_previous, canonical_digest, canonical_timestamp,
  canonical_sequence, assert_no_delimiter, is_digest, is_hex_char,
}
use opa_security_awareness_a.Ingest.Fixes.{
  started, dedupe, seen, by_time, insert_by_time, is_stored, link, link_all, write_rows,
  insert_into, insert_fixes, record_tracked_fixes,
}
use opa_security_awareness_a.Ingest.Service.{Owned, Error, classify_journey_fixes, ingest}
use opa_security_awareness_a.Ingest.Chain.{IsChain, fixes_of}
use opa_security_awareness_a.Ingest.Keys.{Distinct}
use opa_security_awareness_a.System.Network.{
  Fate, response_lost, delivered, World, Request, answer, server_after, batch_of, Runs, start,
  captures, replays, Captures, quiet, one, many,
}
use opa_security_awareness_a.System.Delivered.{IsKept, nothing_lost}

abbrev sum : Text → ℕ
sum [] = 0
sum (c ∷ cs) = c + sum cs

abbrev digest : Text → Text
digest t =
    codes "000000000000000000000000000000000000000000000000000000000000000"
    ++ (sum t % 10 + 48) ∷ []

abbrev timeout : HttpError
timeout = record { status = none; message = codes "timeout" }

abbrev refusal : Error → HttpError
refusal e = record { status = some 400; message = [] }

abbrev world : World
world = record {
  hex = digest;
  preimage = λ nonce f. some (f.idempotency_key ++ nonce);
  read_time = λ t. 1000;
  as_http = refusal;
}

abbrev empty_queue : Store
empty_queue = record {
  has_schema = true;
  rows = [];
  next_id = 1;
  capture_sequence = none;
  schema_version = some 2;
  lease = none;
}

abbrev new_session : Owned
new_session = record {
  user_id = 1;
  started_at = 900;
  session = record { status = started; last_fix_received_at = none; fixes = [] };
}

abbrev fix : TrackedFix
fix = record {
  idempotency_key = codes "k";
  source = codes "foreground";
  latitude = 5;
  longitude = 6;
  accuracy = none;
  speed = none;
  recorded_at = codes "t";
}

abbrev queued : Store
queued = record empty_queue {
  rows = record { queue_id = 1; session_id = codes "s"; fix = fix } ∷ [];
  next_id = 2;
  capture_sequence = some 1;
}

abbrev input : EnqueueInput
input = record { session_id = codes "s"; fix = fix; capture_sequence = 1 }

abbrev options : EnqueueOptions
options = record { max_queued_fixes = 10; defer_overflow_eviction = false }

abbrev written : Mutation
written = record { inserted = true; dropped = 0; durable_depth = 1 }

abbrev request : Fate → Request
request fate = record {
  fate = fate;
  user = 1;
  now = 1000;
  nonce = λ n. decimal n;
  received_at = codes "2026-01-01T00:00:00.000Z";
}

abbrev server : Owned
server =
    server_after world (request (response_lost timeout)) new_session (batch_of (codes "s") queued)

-- A position that the background task captures while the first request is in flight.
abbrev item : BatchItem
item = record {
  captured_at_ms = 12;
  source = codes "background";
  latitude = 5;
  longitude = 6;
  accuracy = none;
  speed = none;
  recorded_at = codes "t";
}

abbrev after_batch : Store → Result QueueError (BatchResult × Store) → Store
after_batch s (ok (r, t)) = t
after_batch s (err e) = s

abbrev background : Store → Store
background s = after_batch s (enqueue_batch (codes "s") (item ∷ []) options s)

abbrev leased : Store
leased = record queued { lease = some (record { owner_token = codes "o"; expires_at_ms = 45010 }) }

abbrev batched : BatchResult
batched = record { inserted = 1; dropped = 0; durable_depth = 2; sequences = 2 ∷ [] }

abbrev keys : List Text
keys = codes "s:12:2" ∷ codes "k" ∷ []

abbrev two_queued : Store
two_queued = record queued {
  rows =
      record { queue_id = 1; session_id = codes "s"; fix = fix }
      ∷ record {
        queue_id = 2;
        session_id = codes "s";
        fix = record fix { idempotency_key = codes "s:12:2"; source = codes "background" };
      }
      ∷ [];
  next_id = 3;
  capture_sequence = some 2;
}

abbrev drained : Store
drained = record two_queued { rows = [] }

captured_once : Runs world (codes "s") empty_queue new_session (codes "k" ∷ []) queued new_session
unfolding enqueue insert_or_ignore has_key advance_sequence enforce_depth count
captured_once =
    captures [] empty_queue new_session (codes "k" ∷ []) queued start
      (one [] empty_queue input options written queued quiet refl refl)

captured_in_flight : Captures (codes "k" ∷ []) leased keys (background leased)
unfolding enqueue_batch write_batch insert_chunks insert_rows batch_fix batch_key decimal
    capture_sequences insert_or_ignore has_key advance_sequence finish_batch count text_eq
    get_capture_sequence
captured_in_flight =
    many (codes "k" ∷ []) leased (codes "s") (item ∷ []) options batched (background leased) quiet
      refl refl

sent_once : Runs world (codes "s") empty_queue new_session keys two_queued server
unfolding replay_journey_session_with_lease replay_batch after_post release_after
    try_acquire_replay_lease release_replay_lease list_oldest_for_session in_session text_eq answer
    enqueue_batch write_batch insert_chunks insert_rows batch_fix batch_key decimal
    capture_sequences insert_or_ignore has_key advance_sequence finish_batch count
sent_once =
    replays (codes "k" ∷ []) queued new_session (request (response_lost timeout)) (codes "o") 10
      leased background keys (http_error timeout) two_queued captured_once refl captured_in_flight
      refl refl

abbrev final : Owned
final = server_after world (request delivered) server (batch_of (codes "s") two_queued)

abbrev alone : Store → Store
alone s = s

sent_twice : Runs world (codes "s") empty_queue new_session keys drained final
unfolding replay_journey_session_with_lease replay_batch after_post acknowledge release_after
    try_acquire_replay_lease release_replay_lease list_oldest_for_session in_session text_eq
    delete_acknowledged_for_session count answer server_after ingest classify_journey_fixes
    record_tracked_fixes insert_fixes insert_into dedupe seen by_time insert_by_time is_stored link
    link_all write_rows canonical_chain_envelope canonical_previous canonical_timestamp
    canonical_digest canonical_sequence assert_no_delimiter is_digest is_hex_char decimal
sent_twice =
    replays keys two_queued server (request delivered) (codes "o") 20
      (record two_queued {
        lease = some (record { owner_token = codes "o"; expires_at_ms = 45020 });
      })
      alone keys (sent 2 2 0) drained sent_once refl quiet refl refl

nothing_lost_example :
    All (IsKept drained final) keys
    × IsChain digest world.preimage none 0 final.session.fixes
    × Distinct (fixes_of final.session.fixes)
nothing_lost_example =
    nothing_lost world (codes "s") empty_queue new_session keys drained final tt (tt, tt) sent_twice
