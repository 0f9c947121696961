-- ===== src/JourneyQueue/Write.antt =====
-- The writing methods of journey-queue-store.ts: bootstrap, enqueue, enqueueBatch, trimToDepth.
use opa_security_awareness_a.Common.{
  ◌||◌, ℕ, zero, suc, ◌+◌, ◌-◌, Bool, true, false, ◌&&◌, not, Option, some, List, [], ◌∷◌, ◌++◌,
  length, take, drop, any, get_or, if◌then◌else◌, leb, ltb, ◌==◌, Result, ok, guard, ◌>>=◌, ◌>>◌,
}
use opa_security_awareness_a.Common.Text.{Text, decimal, colon}
use opa_security_awareness_a.JourneyQueue.Store.{
  Reading, TrackedFix, Store, Error, capture_sequence_unsafe, max_queued_fixes_invalid,
  captured_at_invalid, session_id_empty, sequence_invalid, sequence_exhausted, not_bootstrapped,
  unsupported_platform, is_safe_integer, is_positive_safe_integer, insert_or_ignore,
  advance_sequence, count, evict_oldest,
}

-- CREATE_SCHEMA_SQL is idempotent; the readiness marker is written after it.
abbrev pub schema_version : ℕ
schema_version = 2

pub bootstrap : Store → Store
bootstrap s = record s { has_schema = true; schema_version = some schema_version }

-- A read: a missing meta table and an old marker both answer false.
pub is_bootstrapped : Store → Bool
is_bootstrapped s = if s.has_schema then leb schema_version (get_or s.schema_version 0) else false

pub data Platform : Type 0 where
  web android ios other : Platform

abbrev is_supported : Platform → Bool
is_supported android = true
is_supported ios = true
is_supported _ = false

-- `bootstrapJourneyQueueStore`.
pub bootstrap_journey_queue_store : Platform → Store → Result Error Store
unfolding bootstrap
bootstrap_journey_queue_store p s = do guard (is_supported p) unsupported_platform; ok (bootstrap s)

-- `openJourneyQueueStoreForBackground`: it refuses what it finds unfinished and writes nothing.
-- `opened` says whether this context has a store already, which is given back unchecked; the flag
-- after a success comes with the store, and a failure leaves it as it was.
pub open_for_background : Platform → Bool → Store → Result Error (Bool × Store)
unfolding is_bootstrapped
open_for_background p opened s = do
  guard (is_supported p) unsupported_platform
  guard (opened || is_bootstrapped s) not_bootstrapped
  ok (true, s)

pub record EnqueueInput : Type 0 where
  pub session_id : Text
  pub fix : TrackedFix
  pub capture_sequence : ℕ

pub record EnqueueOptions : Type 0 where
  pub max_queued_fixes : ℕ
  pub defer_overflow_eviction : Bool

pub record Mutation : Type 0 where
  pub inserted : Bool
  pub dropped : ℕ
  pub durable_depth : ℕ

pub record Trim : Type 0 where
  pub dropped : ℕ
  pub durable_depth : ℕ

-- The end of `enqueue`: the depth, and the eviction unless it is deferred.
unfoldable pub enforce_depth : EnqueueOptions → Bool → Store → Mutation × Store
unfolding count evict_oldest
enforce_depth o inserted s =
    let depth = count s in
    if not o.defer_overflow_eviction && ltb o.max_queued_fixes depth
    then (let (dropped, s') = evict_oldest (depth - o.max_queued_fixes) s in
        (record { inserted = inserted; dropped = dropped; durable_depth = depth - dropped }, s'))
    else (record { inserted = inserted; dropped = 0; durable_depth = depth }, s)

unfoldable pub enqueue : EnqueueInput → EnqueueOptions → Store → Result Error (Mutation × Store)
enqueue input o s = do
  guard (is_safe_integer input.capture_sequence) capture_sequence_unsafe
  guard (is_positive_safe_integer o.max_queued_fixes) max_queued_fixes_invalid
  let (inserted, s') = insert_or_ignore input.session_id input.fix s
  ok (enforce_depth o inserted (advance_sequence input.capture_sequence s'))

unfoldable pub trim_to_depth : ℕ → Store → Result Error (Trim × Store)
unfolding count evict_oldest
trim_to_depth limit s = do
  guard (is_positive_safe_integer limit) max_queued_fixes_invalid
  let depth = count s
  ok (
      if leb depth limit
      then (record { dropped = 0; durable_depth = depth }, s)
      else (let (dropped, s') = evict_oldest (depth - limit) s in
          (record { dropped = dropped; durable_depth = depth - dropped }, s')))

-- One position of a batch: a fix that has no key yet.
pub record BatchItem : Type 0 where
  pub captured_at_ms : ℕ
  pub source : Text
  pub latitude : Reading
  pub longitude : Reading
  pub accuracy : Option Reading
  pub speed : Option Reading
  pub recorded_at : Text

-- `sessionId + ':' + String(capturedAtMs) + ':' + String(sequence)`.
unfoldable pub batch_key : Text → ℕ → ℕ → Text
batch_key session at sequence = (session ++ colon ∷ decimal at) ++ colon ∷ decimal sequence

unfoldable pub batch_fix : Text → BatchItem → ℕ → TrackedFix
unfolding batch_key
batch_fix session i sequence = record {
  idempotency_key = batch_key session i.captured_at_ms sequence;
  source = i.source;
  latitude = i.latitude;
  longitude = i.longitude;
  accuracy = i.accuracy;
  speed = i.speed;
  recorded_at = i.recorded_at;
}

-- `items.map((_, index) => start + index + 1)`.
unfoldable pub capture_sequences : ℕ → List BatchItem → List ℕ
capture_sequences start [] = []
capture_sequences start (i ∷ is) = suc start ∷ capture_sequences (suc start) is

-- The rows that one INSERT OR IGNORE with several VALUES writes, in order, and their number.
unfoldable pub insert_rows : Text → ℕ → List BatchItem → Store → ℕ × Store
insert_rows session sequence [] s = (0, s)
insert_rows session sequence (i ∷ is) s =
    let (inserted, s') = insert_or_ignore session (batch_fix session i (suc sequence)) s in
    let (n, s'') = insert_rows session (suc sequence) is s' in
    ((if inserted then suc n else n), s'')

abbrev pub insert_chunk_size : ℕ
insert_chunk_size = 100

-- The loop over chunks of 100 rows; `fuel` is the number of items, which is never fewer than the
-- chunks.
unfoldable pub insert_chunks : ℕ → Text → ℕ → List BatchItem → Store → ℕ × Store
insert_chunks zero session sequence items s = (0, s)
insert_chunks (suc fuel) session sequence [] s = (0, s)
insert_chunks (suc fuel) session sequence (i ∷ is) s =
    let (n, s') = insert_rows session sequence (take insert_chunk_size (i ∷ is)) s in
    let (m, s'') =
      insert_chunks fuel session (sequence + insert_chunk_size) (drop insert_chunk_size (i ∷ is))
        s' in
    (n + m, s'')

pub record BatchResult : Type 0 where
  pub inserted : ℕ
  pub dropped : ℕ
  pub durable_depth : ℕ
  pub sequences : List ℕ

abbrev after_trim : ℕ → List ℕ → Trim × Store → BatchResult × Store
after_trim inserted sequences (t, s) = (
  record {
    inserted = inserted;
    dropped = t.dropped;
    durable_depth = t.durable_depth;
    sequences = sequences;
  },
  s,
)

-- The depth bound of a batch is applied after its rows, through `trimToDepth`.
unfoldable pub finish_batch :
    EnqueueOptions → ℕ → List ℕ → Store → Result Error (BatchResult × Store)
unfolding count
finish_batch o inserted sequences s =
    if not o.defer_overflow_eviction && ltb o.max_queued_fixes (count s)
    then (trim_to_depth o.max_queued_fixes s >>= λ t. ok (after_trim inserted sequences t))
    else ok (
      record { inserted = inserted; dropped = 0; durable_depth = count s; sequences = sequences },
      s,
    )

unfoldable pub write_batch :
    Text → List BatchItem → EnqueueOptions → Store → Result Error (BatchResult × Store)
write_batch session items o s =
    let start = get_or s.capture_sequence 0 in
    do
      guard (is_safe_integer start) sequence_invalid
      guard (is_safe_integer (start + length items)) sequence_exhausted
      let reserved = advance_sequence (start + length items) s
      let (inserted, s') = insert_chunks (length items) session start items reserved
      finish_batch o inserted (capture_sequences start items) s'

-- No early return inside the validation: an empty batch only reads the depth.
unfoldable pub enqueue_batch :
    Text → List BatchItem → EnqueueOptions → Store → Result Error (BatchResult × Store)
unfolding count
enqueue_batch session items o s = do
  guard (ltb 0 (length session)) session_id_empty
  guard (is_positive_safe_integer o.max_queued_fixes) max_queued_fixes_invalid
  guard (not (any (λ i. not (is_safe_integer i.captured_at_ms)) items)) captured_at_invalid
  (if length items == 0
      then ok (record { inserted = 0; dropped = 0; durable_depth = count s; sequences = [] }, s)
      else write_batch session items o s)
