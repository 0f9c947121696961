-- ===== src/JourneyQueue/Tests.antt =====
-- The journey queue at concrete inputs.
use opa_security_awareness_a.JourneyQueue.Log.{enqueue_log, bounded_log, logged}
use opa_security_awareness_a.Common.{
  max, ℕ, ◌≤◌, ◌≡◌, refl, Bool, true, false, Option, none, some, List, [], ◌∷◌, drop, arith, ok,
  last?,
}
use opa_security_awareness_a.Common.Text.{Text, codes, text_eq, decimal}
use opa_security_awareness_a.JourneyQueue.Store.{
  Row, Store, TrackedFix, count, has_key, insert_or_ignore, advance_sequence, get_capture_sequence,
}
use opa_security_awareness_a.JourneyQueue.Write.{
  EnqueueInput, EnqueueOptions, Mutation, enqueue, enforce_depth, BatchItem, BatchResult,
  enqueue_batch, write_batch, insert_chunks, insert_rows, batch_fix, capture_sequences,
  finish_batch,
}
use opa_security_awareness_a.JourneyQueue.Read.{in_session, list_oldest_for_session}
use opa_security_awareness_a.JourneyQueue.Lease.{
  delete_acknowledged_for_session, try_acquire_replay_lease, release_replay_lease,
}
use opa_security_awareness_a.JourneyQueue.Replay.{
  HttpError, sent, replay_journey_session_with_lease, replay_batch, after_post, acknowledge,
  release_after,
}
use opa_security_awareness_a.JourneyQueue.Valid.{IsValid}
use opa_security_awareness_a.JourneyQueue.Bounds.{enqueue_depth, enqueue_new_key, enqueue_known_key}
use opa_security_awareness_a.JourneyQueue.Batch.{
  Reserved, enqueue_batch_fresh, insert_chunks-eq-insert_rows,
}
use opa_security_awareness_a.JourneyQueue.Drain.{acquire-acquire}
use opa_security_awareness_a.JourneyQueue.Delivery.{DrainedOnly, replay-DrainedOnly}

abbrev fix_of : Text → TrackedFix
fix_of key = record {
  idempotency_key = key;
  source = codes "manual";
  latitude = 5;
  longitude = 6;
  accuracy = none;
  speed = none;
  recorded_at = codes "t";
}

abbrev row_of : ℕ → Text → Text → Row
row_of id session key = record { queue_id = id; session_id = session; fix = fix_of key }

-- Two rows of an old session and one of a live one.
abbrev queue : Store
queue = record {
  has_schema = true;
  rows =
      row_of 1 (codes "old") (codes "k1")
      ∷ row_of 2 (codes "old") (codes "k2")
      ∷ row_of 3 (codes "live") (codes "k3")
      ∷ [];
  next_id = 4;
  capture_sequence = some 7;
  schema_version = some 2;
  lease = none;
}

queue-IsValid : IsValid queue
unfolding has_key text_eq
queue-IsValid = record { distinct = (refl, (refl, (refl, tt))); ascending = omega arith }

abbrev input : Text → EnqueueInput
input key = record { session_id = codes "live"; fix = fix_of key; capture_sequence = 8 }

abbrev bounded : EnqueueOptions
bounded = record { max_queued_fixes = 2; defer_overflow_eviction = false }

abbrev enqueued : Store
enqueued = record queue {
  rows = row_of 3 (codes "live") (codes "k3") ∷ row_of 4 (codes "live") (codes "k4") ∷ [];
  next_id = 5;
  capture_sequence = some 8;
}

abbrev enqueued_result : Mutation
enqueued_result = record { inserted = true; dropped = 2; durable_depth = 2 }

enqueue_runs : enqueue (input (codes "k4")) bounded queue ≡ ok (enqueued_result, enqueued)
unfolding enqueue insert_or_ignore advance_sequence enforce_depth text_eq
enqueue_runs = refl

enqueue_depth_example : count enqueued ≤ 2
enqueue_depth_example =
    (enqueue_depth (input (codes "k4")) bounded queue {m = enqueued_result} enqueue_runs).2 refl

enqueue_new_key_example : last? enqueued.rows ≡ some (row_of 4 (codes "live") (codes "k4"))
unfolding has_key text_eq
enqueue_new_key_example =
    (enqueue_new_key (input (codes "k4")) bounded queue {m = enqueued_result} {s' = enqueued} refl
      enqueue_runs).2

enqueue_log_example :
    (true ≡ true)
    × (true ≡ true)
    × (enqueued.rows ≡ bounded_log bounded (logged (input (codes "k4")) queue))
    × (get_capture_sequence enqueued ≡ max (get_capture_sequence queue) 8)
    × IsValid enqueued
enqueue_log_example =
    enqueue_log (input (codes "k4")) bounded queue {m = enqueued_result} queue-IsValid enqueue_runs

abbrev known_result : Mutation
known_result = record { inserted = false; dropped = 1; durable_depth = 2 }

abbrev known : Store
known = record queue {
  rows = row_of 2 (codes "old") (codes "k2") ∷ row_of 3 (codes "live") (codes "k3") ∷ [];
  capture_sequence = some 8;
}

enqueue_known_key_example : (known_result.inserted ≡ false) × (known.rows ≡ drop 1 queue.rows)
unfolding enqueue insert_or_ignore advance_sequence enforce_depth text_eq
enqueue_known_key_example =
    enqueue_known_key (input (codes "k2")) bounded queue {m = known_result} {s' = known} refl refl

abbrev item : BatchItem
item = record {
  captured_at_ms = 12;
  source = codes "background";
  latitude = 1;
  longitude = 2;
  accuracy = none;
  speed = some 3;
  recorded_at = codes "t";
}

abbrev fresh_queue : Store
fresh_queue = record queue { rows = [] }

fresh_queue-Reserved : Reserved (get_capture_sequence fresh_queue) fresh_queue.rows
unfolding has_key
fresh_queue-Reserved = λ session at seq h. refl

abbrev batched_row : Row
batched_row = record {
  queue_id = 4;
  session_id = codes "s";
  fix = record {
    idempotency_key = codes "s:12:8";
    source = codes "background";
    latitude = 1;
    longitude = 2;
    accuracy = none;
    speed = some 3;
    recorded_at = codes "t";
  };
}

abbrev batched : Store
batched = record fresh_queue { rows = batched_row ∷ []; next_id = 5; capture_sequence = some 8 }

abbrev batched_result : BatchResult
batched_result = record { inserted = 1; dropped = 0; durable_depth = 1; sequences = 8 ∷ [] }

batch_runs :
    enqueue_batch (codes "s") (item ∷ []) bounded fresh_queue ≡ ok (batched_result, batched)
unfolding enqueue_batch write_batch insert_chunks insert_rows batch_fix decimal capture_sequences
    insert_or_ignore advance_sequence finish_batch text_eq
batch_runs = refl

enqueue_batch_fresh_example : get_capture_sequence batched ≡ 8
unfolding get_capture_sequence
enqueue_batch_fresh_example =
    (enqueue_batch_fresh (codes "s") (item ∷ []) bounded fresh_queue {r = batched_result}
      {s' = batched} fresh_queue-Reserved (omega arith) batch_runs).5

insert_chunks-eq-insert_rows_example :
    insert_chunks 2 (codes "s") 7 (item ∷ item ∷ []) queue
    ≡ insert_rows (codes "s") 7 (item ∷ item ∷ []) queue
insert_chunks-eq-insert_rows_example =
    insert_chunks-eq-insert_rows 2 (codes "s") 7 (item ∷ item ∷ []) queue (omega arith)

abbrev old_rows : List Row
old_rows = row_of 1 (codes "old") (codes "k1") ∷ row_of 2 (codes "old") (codes "k2") ∷ []

abbrev drained : Store
drained = record queue { rows = row_of 3 (codes "live") (codes "k3") ∷ [] }

abbrev held : Store
held = record queue { lease = some (record { owner_token = codes "a"; expires_at_ms = 45010 }) }

acquire_runs : try_acquire_replay_lease (codes "a") 10 45000 queue ≡ ok (true, held)
unfolding try_acquire_replay_lease
acquire_runs = refl

acquire-acquire_example : ◌≡◌ {A = Bool × Store} (false, held) (false, held)
unfolding try_acquire_replay_lease
acquire-acquire_example =
    acquire-acquire (codes "a") (codes "b") 10 45009 45000 45000 queue held acquire_runs
      (omega arith) refl

abbrev refused : Bool × Store
refused = (false, held)

abbrev accepting : Text → List TrackedFix → Option HttpError
accepting session fixes = none

abbrev alone : Store → Store
alone s = s

replay-DrainedOnly_example : DrainedOnly accepting (codes "old") queue (sent 2 2 1) drained
unfolding replay_journey_session_with_lease replay_batch after_post acknowledge release_after
    try_acquire_replay_lease release_replay_lease list_oldest_for_session in_session text_eq
    delete_acknowledged_for_session count
replay-DrainedOnly_example =
    replay-DrainedOnly accepting alone (λ s. refl) (codes "old") (codes "a") 10 queue
      queue-IsValid.distinct refl
