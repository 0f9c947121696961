-- ===== src/Ingest/Service.antt =====
-- `classifyJourneyFixes` and `ingest` of apps/api/src/modules/journey/journey-ingestion.service.ts,
-- up to the refresh of the intelligence snapshot, which follows the transaction.
use opa_security_awareness_a.Common.{
  ℕ, ◌+◌, ◌-◌, Bool, true, false, not, Option, none, some, List, [], ◌∷◌, ltb, ◌==◌, if◌then◌else◌,
  Result, ok, err, guard, or_fail, ◌>>=◌, ◌>>◌,
}
use opa_security_awareness_a.Common.Text.{Text}
use opa_security_awareness_a.Ingest.Envelope.{Error as InsertError}
use opa_security_awareness_a.Ingest.Fixes.{
  FixInput, Session, SessionStatus, ended, InsertResult, record_tracked_fixes,
}

abbrev pub max_future_skew_ms : ℕ
max_future_skew_ms = 300000

abbrev pub start_grace_ms : ℕ
start_grace_ms = 300000

-- JourneyFixDto: the fix, whose time is read from the text that was sent.
pub record FixDto : Type 0 where
  pub fix : FixInput
  pub recorded_at : Text

pub data RejectedFixCode : Type 0 where
  fix_recorded_too_far_in_future fix_precedes_session : RejectedFixCode

pub record RejectedFix : Type 0 where
  pub idempotency_key : Text
  pub code : RejectedFixCode
  pub recorded_at : Text
  pub retryable : Bool

pub record ClassifiedJourneyFixes : Type 0 where
  pub accepted : List FixInput
  pub rejected : List RejectedFix

abbrev pub reject : RejectedFixCode → FixDto → RejectedFix
reject code d = record {
  idempotency_key = d.fix.idempotency_key;
  code = code;
  recorded_at = d.recorded_at;
  retryable = false;
}

unfoldable pub classify_journey_fixes : List FixDto → ℕ → ℕ → ClassifiedJourneyFixes
classify_journey_fixes [] floor now = record { accepted = []; rejected = [] }
classify_journey_fixes (d ∷ ds) floor now =
    let rest = classify_journey_fixes ds floor now in
    if ltb (now + max_future_skew_ms) d.fix.recorded_at
    then record rest { rejected = reject fix_recorded_too_far_in_future d ∷ rest.rejected }
    else if ltb d.fix.recorded_at floor
    then record rest { rejected = reject fix_precedes_session d ∷ rest.rejected }
    else record rest { accepted = d.fix ∷ rest.accepted }

-- The row of a session that the verdict reads, with its fixes.
pub record Owned : Type 0 where
  pub user_id : ℕ
  pub started_at : ℕ
  pub session : Session

pub data Error : Type 0 where
  session_not_found session_has_ended : Error
  recorded_too_far precedes_session : Text → Error
  not_inserted : InsertError → Error

abbrev pub is_ended : SessionStatus → Bool
is_ended ended = true
is_ended _ = false

abbrev pub refuse : RejectedFix → Error
refuse r = elim r.code [
  | fix_recorded_too_far_in_future ↦ recorded_too_far r.recorded_at
  | fix_precedes_session ↦ precedes_session r.recorded_at
]

abbrev pub inserted_into :
    Owned → Result InsertError (InsertResult × Session) → Result Error (InsertResult × Owned)
inserted_into o (ok (r, s)) = ok (r, record o { session = s })
inserted_into o (err e) = err (not_inserted e)

-- The floor of a session that began less than the grace after the epoch is the epoch.
abbrev pub floor_of : Owned → ℕ
floor_of o = o.started_at - start_grace_ms

abbrev pub owned_by : ℕ → Option Owned → Option Owned
owned_by user none = none
owned_by user (some o) = if o.user_id == user then some o else none

module _ (hex : Text → Text) (preimage : Text → FixInput → Option Text) (nonce : ℕ → Text)
    (received_at : Text) where
  unfoldable pub ingest : ℕ → List FixDto → ℕ → Option Owned → Result Error (InsertResult × Owned)
  unfolding classify_journey_fixes
  ingest user fixes now found = or_fail (owned_by user found) session_not_found >>= λ (o : Owned).
      guard (not (is_ended o.session.status)) session_has_ended
      >> (let classified = classify_journey_fixes fixes (floor_of o) now in
          elim classified.rejected [
            | r ∷ rs ↦ err (refuse r)
            | [] ↦ inserted_into o (
                record_tracked_fixes hex preimage nonce received_at classified.accepted
                  (some o.session))
          ])
