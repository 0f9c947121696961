-- ===== src/JourneyQueue/Store.antt =====
-- The tables of journey-queue-store.ts and the SQL statements that its methods run.
-- `rows` is the table journey_queue in the order of `queue_id`, which AUTOINCREMENT makes the order
-- of insertion. A floating-point reading is carried and never computed with: it is an opaque code.
use opa_security_awareness_a.Common.{
  ℕ, suc, ◌-◌, Bool, true, false, ◌&&◌, Option, some, List, [], ◌∷◌, ◌++◌, length, drop, any,
  get_or, if◌then◌else◌, leb, ltb, max,
}
use opa_security_awareness_a.Common.Text.{Text, text_eq}

abbrev pub Reading : Type 0
Reading = ℕ

pub record TrackedFix : Type 0 where
  pub idempotency_key : Text
  pub source : Text
  pub latitude : Reading
  pub longitude : Reading
  pub accuracy : Option Reading
  pub speed : Option Reading
  pub recorded_at : Text

pub record Row : Type 0 where
  pub queue_id : ℕ
  pub session_id : Text
  pub fix : TrackedFix
  pub open fix use *

-- The row of journey_replay_lease.
pub record LeaseRow : Type 0 where
  pub owner_token : Text
  pub expires_at_ms : ℕ

pub record Store : Type 0 where
  pub has_schema : Bool
  pub rows : List Row
  pub next_id : ℕ
  pub capture_sequence : Option ℕ
  pub schema_version : Option ℕ
  pub lease : Option LeaseRow

pub data Error : Type 0 where
  capture_sequence_unsafe max_queued_fixes_invalid captured_at_invalid : Error
  session_id_empty sequence_invalid sequence_exhausted limit_invalid : Error
  unsupported_source owner_token_empty now_invalid lease_invalid lease_expiry_unsafe : Error
  not_bootstrapped unsupported_platform : Error

-- Number.MAX_SAFE_INTEGER.
abbrev pub max_safe_integer : ℕ
max_safe_integer = 9007199254740991

abbrev pub is_safe_integer : ℕ → Bool
is_safe_integer n = leb n max_safe_integer

-- The test of `assertPositiveSafeInteger`.
abbrev pub is_positive_safe_integer : ℕ → Bool
is_positive_safe_integer n = is_safe_integer n && ltb 0 n

unfoldable pub has_key : Text → List Row → Bool
has_key key rows = any (λ r. text_eq r.idempotency_key key) rows

-- INSERT OR IGNORE of one row, under UNIQUE(idempotency_key): whether a row was written.
unfoldable pub insert_or_ignore : Text → TrackedFix → Store → Bool × Store
unfolding has_key
insert_or_ignore session fix s = if has_key fix.idempotency_key s.rows then (false, s) else (
  true,
  record s {
    rows = s.rows ++ record { queue_id = s.next_id; session_id = session; fix = fix } ∷ [];
    next_id = suc s.next_id;
  },
)

-- INSERT ... ON CONFLICT(key) DO UPDATE SET value = MAX(value, excluded.value).
unfoldable pub advance_sequence : ℕ → Store → Store
advance_sequence n s = record s { capture_sequence = some (max (get_or s.capture_sequence 0) n) }

-- COUNT_SQL.
unfoldable pub count : Store → ℕ
count s = length s.rows

-- EVICT_OLDEST_SQL: the rows that go are the first `excess`; `changes` is their number.
unfoldable pub evict_oldest : ℕ → Store → ℕ × Store
evict_oldest excess s =
    let kept = drop excess s.rows in (length s.rows - length kept, record s { rows = kept })

-- `getCaptureSequence`.
unfoldable pub get_capture_sequence : Store → ℕ
get_capture_sequence s = get_or s.capture_sequence 0
