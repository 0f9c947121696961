-- ===== src/SafeWalk/Dispatch.antt =====
-- `dispatch` of safewalk-notification.worker.ts, with dispatchWithEvidence of
-- notifications/delivery-dispatch.ts. A notice is one row here and in the ledger, by its id: the
-- ledger holds its delivery columns. `open_snapshot` is the protected-identity service, `send` is
-- the provider.
use opa_security_awareness_a.Common.{
  ℕ, Bool, true, false, ◌&&◌, ◌||◌, not, keep, take, ltb, leb, Option, none, some, List, [], ◌∷◌,
  find, map, ◌==◌, if◌then◌else◌, is_none, Result, ok, err,
}
use opa_security_awareness_a.Common.Text.{Text, codes, text_eq}
use opa_security_awareness_a.Common.Table.{get}
use opa_security_awareness_a.SafeWalk.Policy.{
  eligible_account, guardian_scope_allowed, Session, Grant, Notice, Audit, create_audit,
  Db as WalkDb, Error as WalkError,
}
use opa_security_awareness_a.SafeWalk.Escalation.{is_safewalk, is_ended}
use opa_security_awareness_a.SafeWalk.Inbox.{is_check}
use opa_security_awareness_a.Delivery.Policy.{
  Environment, Failure, network, timeout, Error as LedgerError,
}
use opa_security_awareness_a.Delivery.Ledger.{DeliveryOwner, safewalk, Row, lock, Db as LedgerDb}
use opa_security_awareness_a.Delivery.Claim.{claim, is_waiting}
use opa_security_awareness_a.Delivery.Complete.{Response, at_request, complete}

pub record Db : Type 0 where
  pub walks : WalkDb
  pub ledger : LedgerDb

pub data Error : Type 0 where
  audit_failed : WalkError → Error
  ledger_failed : LedgerError → Error

abbrev pub parent : ℕ → DeliveryOwner
parent id = record { kind = safewalk; id = id }

abbrev pub has_id : ℕ → Notice → Bool
has_id id n = n.id == id

abbrev pub waits : Option Row → Bool
waits none = false
waits (some r) = is_waiting r.status

abbrev pub is_queued : ℕ → LedgerDb → Bool
is_queued id ledger = waits (lock (parent id) ledger)

unfoldable pub open_row : Option Notice → Bool → Option Notice
open_row none queued = none
open_row (some n) queued = if is_none n.cancelled_at && queued then some n else none

-- The notice, while it is neither cancelled nor sent.
unfoldable pub open_notice : ℕ → Db → Option Notice
unfolding open_row
open_notice id db = open_row (find (has_id id) db.walks.notices) (is_queued id db.ledger)

-- What is known of the walk alone.
unfoldable pub may_notify : Session → WalkDb → Bool
may_notify s w =
    eligible_account (get s.user_id w.accounts)
    && is_safewalk s.purpose
    && not (is_ended s.status)
    && is_none s.redacted_at
    && is_none s.safe_walk_emergency_incident_id
    && is_none s.safety_confirmed_at
    && is_none s.arrival_confirmed_at

abbrev pub grant_of : Notice → WalkDb → Option Grant
grant_of n w = elim n.grant_id [ none ↦ none | some id ↦ get id w.grants ]

unfoldable pub grant_allows : Option Grant → ℕ → Notice → Session → WalkDb → Bool
grant_allows none session_id n s w = false
grant_allows (some g) session_id n s w =
    g.session_id == session_id
    && g.owner_user_id == s.user_id
    && g.guardian_user_id == n.recipient_user_id
    && is_none g.revoked_at
    && g.is_status_policy
    && guardian_scope_allowed (get s.user_id w.accounts) (get n.recipient_user_id w.accounts)
        g.facility_scope_id

unfoldable pub is_allowed : ℕ → Notice → Session → WalkDb → Bool
unfolding may_notify grant_allows
is_allowed session_id n s w =
    may_notify s w
    && (if is_check n.kind
        then n.recipient_user_id == s.user_id && is_none n.grant_id
        else grant_allows (grant_of n w) session_id n s w)

abbrev pub cancel_row : ℕ → ℕ → Notice → Notice
cancel_row id now n = if n.id == id then record n { cancelled_at = some now } else n

abbrev pub cancel_refused : ℕ → ℕ → Db → Db
cancel_refused id now db = record db {
  walks = record (db.walks) { notices = map (cancel_row id now) db.walks.notices };
}

pub record Work : Type 0 where
  pub attempt_id : ℕ
  pub message : Text

abbrev dispatch_audit : ℕ → ℕ → Notice → ℕ → Audit
dispatch_audit attempt_id session_id n now = record {
  key_id = attempt_id;
  key_word = codes "dispatch";
  session_id = session_id;
  actor_user_id = none;
  grant_id = n.grant_id;
  kind = codes "NOTICE_DISPATCH_AUTHORIZED";
  reason_code = if is_check n.kind then codes "OWNER_CHECK" else codes "GUARDIAN_OVERDUE";
  occurred_at = now;
}

-- The audit row of a claim that goes ahead.
unfoldable pub audit_claim :
    ℕ
    → Notice
    → ℕ
    → WalkDb
    → Result LedgerError (Option ℕ × LedgerDb)
    → Result Error (Option Work × Db)
audit_claim session_id n now w (err e) = err (ledger_failed e)
audit_claim session_id n now w (ok (none, ledger)) =
    ok (none, record { walks = w; ledger = ledger })
audit_claim session_id n now w (ok (some a, ledger)) =
    elim (create_audit (dispatch_audit a session_id n now) w) [
      | err e ↦ err (audit_failed e)
      | ok w' ↦ ok (
        some (record { attempt_id = a; message = n.message }),
        record { walks = w'; ledger = ledger },
      )
    ]

-- The transaction of a dispatch; `session_id` is that of the candidate.
unfoldable pub authorize_dispatch :
    Environment → Text → ℕ → ℕ → ℕ → Db → Result Error (Option Work × Db)
unfolding open_notice is_allowed audit_claim
authorize_dispatch env worker_id session_id id now db = elim (get session_id db.walks.sessions) [
  | none ↦ ok (none, db)
  | some s ↦ elim (open_notice id db) [
    | none ↦ ok (none, db)
    | some n ↦
        if is_allowed session_id n s db.walks
        then audit_claim session_id n now db.walks (claim env worker_id (parent id) now db.ledger)
        else ok (none, cancel_refused id now db)
  ]
]

-- What a call of the provider comes to.
pub data Sent : Type 0 where
  answers : Response → Sent
  throws : Sent

-- Within thirty seconds, after them, or not at all; each record has its clock and jitter.
pub data Outcome : Type 0 where
  in_time : Sent → ℕ → ℕ → Outcome
  late : ℕ → ℕ → Sent → ℕ → ℕ → Outcome
  never : ℕ → ℕ → Outcome

abbrev invocation_failed : Failure → Response
invocation_failed f = record {
  success = false;
  stage = some at_request;
  diagnostic = some (codes "PROVIDER_INVOCATION_FAILED");
  message_id = none;
  policy_denied = false;
  failure_category = some f;
  retryable = false;
  uncertain = true;
}

abbrev response_of : Sent → Response
response_of (answers r) = r
response_of throws = invocation_failed network

abbrev is_err : Result LedgerError LedgerDb → Bool
is_err (ok l) = false
is_err (err e) = true

abbrev completed_or : LedgerDb → Result LedgerError LedgerDb → LedgerDb
completed_or ledger (ok l) = l
completed_or ledger (err e) = ledger

-- The records of an outcome, and whether the first of them failed. A late one that fails is only
-- logged.
unfoldable pub dispatch_with_evidence : ℕ → Outcome → LedgerDb → Bool × LedgerDb
dispatch_with_evidence a (in_time s now jitter) ledger =
    let first = complete a (response_of s) now jitter ledger in
    (is_err first, completed_or ledger first)
dispatch_with_evidence a (never now jitter) ledger =
    let first = complete a (invocation_failed timeout) now jitter ledger in
    (is_err first, completed_or ledger first)
dispatch_with_evidence a (late now jitter s later jitter') ledger =
    let first = complete a (invocation_failed timeout) now jitter ledger in
    let l = completed_or ledger first in
    (is_err first, completed_or l (complete a (response_of s) later jitter' l))

-- The mail that left, whether the dispatch threw, and the state.
pub record Dispatched : Type 0 where
  pub sent : Option (Text × Text)
  pub failed : Bool
  pub db : Db

abbrev idle : Db → Dispatched
idle db = record { sent = none; failed = false; db = db }

abbrev is_unusable : Text → Bool
is_unusable t = text_eq t [] || text_eq t (codes "[protected]")

module _ (env : Environment) (worker_id : Text) (open_snapshot : ℕ → ℕ → ℕ → Option Text)
    (send : Text → Text → Outcome) where
  -- None where the protected-identity service throws.
  abbrev pub opened : Notice → Option Text
  opened n = elim n.recipient_data.protected_snapshot_id [
    | some snapshot ↦ open_snapshot snapshot n.id n.recipient_user_id
    | none ↦ some n.recipient_data.recipient
  ]

  abbrev deliver : Text → Db → Result Error (Option Work × Db) → Dispatched
  deliver recipient db (err e) = record { sent = none; failed = true; db = db }
  deliver recipient db (ok (none, db')) = idle db'
  deliver recipient db (ok (some w, db')) =
      let r = dispatch_with_evidence w.attempt_id (send recipient w.message) db'.ledger in
      record { sent = some (recipient, w.message); failed = r.0; db = record db' { ledger = r.1 } }

  -- From the transaction on, for a candidate that was read before.
  unfoldable pub dispatch_candidate : Notice → ℕ → Db → Dispatched
  unfolding authorize_dispatch dispatch_with_evidence
  dispatch_candidate c now db = elim (opened c) [
    | none ↦ record { sent = none; failed = true; db = db }
    | some recipient ↦
        if is_unusable recipient
        then idle db
        else deliver recipient db (authorize_dispatch env worker_id c.session_id c.id now db)
  ]

  unfoldable pub dispatch : ℕ → ℕ → Db → Dispatched
  unfolding open_notice dispatch_candidate
  dispatch id now db = elim (open_notice id db) [
    | none ↦ idle db
    | some c ↦ dispatch_candidate c now db
  ]

  abbrev is_due : ℕ → LedgerDb → Notice → Bool
  is_due now ledger n = is_none n.cancelled_at && (elim (lock (parent n.id) ledger) [
    | none ↦ false
    | some r ↦ is_waiting r.status && leb r.next_attempt_at now && ltb r.attempt_count 5
  ])

  abbrev insert_oldest : Notice → List Notice → List Notice
  insert_oldest n [] = n ∷ []
  insert_oldest n (m ∷ ms) =
      if ltb n.available_at m.available_at || (n.available_at == m.available_at && leb n.id m.id)
      then n ∷ m ∷ ms
      else m ∷ insert_oldest n ms

  abbrev oldest_first : List Notice → List Notice
  oldest_first [] = []
  oldest_first (n ∷ ns) = insert_oldest n (oldest_first ns)

  -- The first dispatch that throws ends the tick.
  unfoldable pub dispatch_notices : List Notice → ℕ → Db → Db
  unfolding dispatch
  dispatch_notices [] now db = db
  dispatch_notices (n ∷ ns) now db =
      let r = dispatch n.id now db in
      let rest = dispatch_notices ns now r.db in if r.failed then r.db else rest

  unfoldable pub tick : ℕ → Db → Db
  unfolding dispatch_notices
  tick now db =
      dispatch_notices (take 25 (oldest_first (keep (is_due now db.ledger) db.walks.notices))) now
        db
