-- ===== src/System/Network.antt =====
-- One journey session: the queue of the phone (journey-replay.ts) and the session of the server
-- (journey-ingestion.service.ts). `read_time` is `new Date(text).getTime()`.
use opa_security_awareness_a.Common.{
  ℕ, suc, ◌++◌, ◌≡◌, Bool, true, false, Option, none, some, List, [], ◌∷◌, map, Result, ok, err,
}
use opa_security_awareness_a.Common.Text.{Text}
use opa_security_awareness_a.JourneyQueue.Store.{
  Store, TrackedFix, get_capture_sequence, Error as QueueError,
}
use opa_security_awareness_a.JourneyQueue.Lease.{try_acquire_replay_lease}
use opa_security_awareness_a.JourneyQueue.Write.{
  EnqueueInput, EnqueueOptions, Mutation, enqueue, BatchItem, BatchResult, batch_key, enqueue_batch,
}
use opa_security_awareness_a.JourneyQueue.Replay.{
  HttpError, Outcome, lease_busy, empty, sent, delete_shortfall, http_error, max_batch, lease_ms,
  to_payload, replay_journey_session_with_lease,
}
use opa_security_awareness_a.JourneyQueue.Drain.{session_rows}
use opa_security_awareness_a.Ingest.Fixes.{FixInput, InsertResult, ended}
use opa_security_awareness_a.Ingest.Service.{FixDto, Owned, Error, ingest}
use opa_security_awareness_a.Common.{take}

-- What happens to a request: it is lost, or its answer is, or both arrive. The client sees an error
-- of its own for what is lost.
pub data Fate : Type 0 where
  request_lost response_lost : HttpError → Fate
  delivered : Fate

-- The wire fix as the server reads it; readings that the phone does not send are null.
abbrev pub to_dto : (Text → ℕ) → TrackedFix → FixDto
to_dto read_time f = record {
  fix = record {
    idempotency_key = f.idempotency_key;
    source = f.source;
    latitude = f.latitude;
    longitude = f.longitude;
    accuracy = f.accuracy;
    speed = f.speed;
    heading = none;
    battery_level = none;
    is_charging = none;
    recorded_at = read_time f.recorded_at;
  };
  recorded_at = f.recorded_at;
}

-- The parts of the world that are the same in every step: the digest, the canonical payload, the
-- reading of a time, and the error that a client makes of a refusal.
pub record World : Type 0 where
  pub hex : Text → Text
  pub preimage : Text → FixInput → Option Text
  pub read_time : Text → ℕ
  pub as_http : Error → HttpError

-- What one request meets on the server.
pub record Request : Type 0 where
  pub fate : Fate
  pub user : ℕ
  pub now : ℕ
  pub nonce : ℕ → Text
  pub received_at : Text

abbrev pub arrives : World → Request → Owned → List TrackedFix → Result Error (InsertResult × Owned)
arrives w q server fixes =
    ingest w.hex w.preimage q.nonce q.received_at q.user (map (to_dto w.read_time) fixes) q.now
      (some server)

-- A transaction that throws leaves the session as it was.
abbrev pub state_after : Owned → Result Error (InsertResult × Owned) → Owned
state_after server (ok (r, server')) = server'
state_after server (err e) = server

abbrev pub answer_of : World → Result Error (InsertResult × Owned) → Option HttpError
answer_of w (ok r) = none
answer_of w (err e) = some (w.as_http e)

-- What the client is told, and what the server then holds.
unfoldable pub answer : World → Request → Owned → List TrackedFix → Option HttpError
answer w q server fixes = elim q.fate [
  | request_lost e ↦ some e
  | response_lost e ↦ some e
  | delivered ↦ answer_of w (arrives w q server fixes)
]

unfoldable pub server_after : World → Request → Owned → List TrackedFix → Owned
server_after w q server fixes = elim q.fate [
  | request_lost e ↦ server
  | response_lost e ↦ state_after server (arrives w q server fixes)
  | delivered ↦ state_after server (arrives w q server fixes)
]

-- Whether a replay with this outcome posted its batch.
abbrev pub posted : Outcome → Bool
posted lease_busy = false
posted empty = false
posted (sent n removed depth) = true
posted (delete_shortfall expected actual depth) = true
posted (http_error e) = true

abbrev pub batch_of : Text → Store → List TrackedFix
batch_of session s = map to_payload (take max_batch (session_rows session s))

-- The keys that enqueueBatch gives to its items, from the sequence number that it starts at.
abbrev pub batch_keys : Text → ℕ → List BatchItem → List Text
batch_keys session n [] = []
batch_keys session n (i ∷ is) =
    batch_key session i.captured_at_ms (suc n) ∷ batch_keys session (suc n) is

-- Captures that drop nothing, one after the other, through `enqueue` or `enqueueBatch`: the keys
-- captured so far and the queue, before and after.
pub data Captures (keys : List Text) (s : Store) : List Text → Store → Type 0 where
  quiet : Captures keys s keys s
  one :
      (keys' : List Text) (t : Store) (input : EnqueueInput) (o : EnqueueOptions) (m : Mutation)
      (t' : Store)
      → Captures keys s keys' t
      → enqueue input o t ≡ ok (m, t')
      → m.dropped ≡ 0
      → Captures keys s (input.fix.idempotency_key ∷ keys') t'
  many :
      (keys' : List Text) (t : Store) (session : Text) (items : List BatchItem) (o : EnqueueOptions)
      (r : BatchResult) (t' : Store)
      → Captures keys s keys' t
      → enqueue_batch session items o t ≡ ok (r, t')
      → r.dropped ≡ 0
      → Captures keys s (batch_keys session (get_capture_sequence t) items ++ keys') t'

abbrev pub post_to : World → Request → Owned → Text → List TrackedFix → Option HttpError
post_to w q server id fixes = answer w q server fixes

-- The runs of the two sides on one session: the keys that were captured, the queue and the server.
-- Between replays and while the request of one is in flight, captures of any session write to the
-- queue; the lease keeps a second replay out. A replay throws before its request or not at all. The
-- server's session may end at any time.
pub data Runs (w : World) (session : Text) (s₀ : Store) (server₀ : Owned)
    : List Text → Store → Owned → Type 0 where
  start : Runs w session s₀ server₀ [] s₀ server₀
  captures :
      (keys : List Text) (s : Store) (server : Owned) (keys' : List Text) (s' : Store)
      → Runs w session s₀ server₀ keys s server
      → Captures keys s keys' s'
      → Runs w session s₀ server₀ keys' s' server
  replays :
      (keys : List Text) (s : Store) (server : Owned) (q : Request) (owner : Text) (at : ℕ)
      (mid : Store) (others : Store → Store) (keys' : List Text) (o : Outcome) (s' : Store)
      → Runs w session s₀ server₀ keys s server
      → try_acquire_replay_lease owner at lease_ms s ≡ ok (true, mid)
      → Captures keys mid keys' (others mid)
      → replay_journey_session_with_lease (post_to w q server) others session owner at s
        ≡ (ok o, s')
      → posted o ≡ true
      → Runs w session s₀ server₀ keys' s' (server_after w q server (batch_of session s))
  skips :
      (keys : List Text) (s : Store) (server : Owned) (q : Request) (others : Store → Store)
      (owner : Text) (at : ℕ) (o : Outcome) (s' : Store)
      → Runs w session s₀ server₀ keys s server
      → replay_journey_session_with_lease (post_to w q server) others session owner at s
        ≡ (ok o, s')
      → posted o ≡ false
      → Runs w session s₀ server₀ keys s' server
  throws :
      (keys : List Text) (s : Store) (server : Owned) (q : Request) (others : Store → Store)
      (owner : Text) (at : ℕ) (e : QueueError) (s' : Store)
      → Runs w session s₀ server₀ keys s server
      → replay_journey_session_with_lease (post_to w q server) others session owner at s
        ≡ (err e, s')
      → Runs w session s₀ server₀ keys s' server
  ends :
      (keys : List Text) (s : Store) (server : Owned)
      → Runs w session s₀ server₀ keys s server
      → Runs w session s₀ server₀ keys s
          (record server { session = record (server.session) { status = ended } })
