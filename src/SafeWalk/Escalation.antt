-- ===== src/SafeWalk/Escalation.antt =====
-- safewalk-escalation.service.ts and `safeWalkRecipientData` of protected-snapshots.service.ts.
-- `protect notice recipient` is what the protected-identity service returns for the snapshot of a
-- recipient with a facility: the id of the snapshot, or `none` where it refuses or fails.
use opa_security_awareness_a.Common.{
  ℕ, suc, Bool, true, false, ◌&&◌, ◌||◌, not, Option, none, some, List, [], ◌∷◌, ◌++◌, any, keep,
  take, ltb, leb, ◌==◌, if◌then◌else◌, Result, ok, err, guard, ◌>>=◌, ◌>>◌, is_some, is_none,
  or_fail,
}
use opa_security_awareness_a.Common.Text.{Text, codes}
use opa_security_awareness_a.Common.Table.{get, modify}
use opa_security_awareness_a.SafeWalk.Policy.{
  Account, eligible_account, guardian_scope_allowed, check_due, guardian_due, response_deadline,
  Purpose, for_safewalk, SessionStatus, ended, Session, State, scheduled, check_required, escalated,
  satisfied, closed, Escalation, NoticeKind, owner_check, guardian_overdue, Recipient, Notice,
  Grant, Audit, Db, Error, duplicate_notice, user_not_found, snapshot_failed, deadline_invariant,
  create_audit, settle_safe_walk,
}

abbrev pub is_scheduled : State → Bool
is_scheduled scheduled = true
is_scheduled _ = false

-- `["SCHEDULED", "CHECK_REQUIRED"].includes(state)`.
abbrev pub is_pending : State → Bool
is_pending scheduled = true
is_pending check_required = true
is_pending _ = false

abbrev pub is_safewalk : Purpose → Bool
is_safewalk for_safewalk = true
is_safewalk _ = false

abbrev pub is_ended : SessionStatus → Bool
is_ended ended = true
is_ended _ = false

unfoldable pub is_ineligible : Session → Option Account → Bool
is_ineligible s owner =
    not (is_safewalk s.purpose)
    || is_ended s.status
    || is_some s.redacted_at
    || is_some s.safe_walk_emergency_incident_id
    || not (eligible_account owner)

unfoldable pub is_confirmed : Session → Bool
is_confirmed s = is_some s.safety_confirmed_at || is_some s.arrival_confirmed_at

abbrev same_kind : NoticeKind → NoticeKind → Bool
same_kind owner_check owner_check = true
same_kind guardian_overdue guardian_overdue = true
same_kind _ _ = false

unfoldable pub same_notice : Notice → Notice → Bool
same_notice n m =
    n.session_id == m.session_id
    && n.recipient_user_id == m.recipient_user_id
    && same_kind n.kind m.kind

-- A notice row; a session has one of each kind for each recipient.
unfoldable pub create_notice : Notice → Db → Result Error Db
unfolding same_notice
create_notice n db = do
  guard (not (any (same_notice n) db.notices)) duplicate_notice
  ok (record db { notices = db.notices ++ n ∷ []; next_notice_id = suc db.next_notice_id })

abbrev event : ℕ → Text → ℕ → Option ℕ → Text → Text → ℕ → Audit
event key word session_id grant_id kind reason now = record {
  key_id = key;
  key_word = word;
  session_id = session_id;
  actor_user_id = none;
  grant_id = grant_id;
  kind = kind;
  reason_code = reason;
  occurred_at = now;
}

unfoldable pub require_check : ℕ → Escalation → Escalation
require_check now e = record e {
  state = check_required;
  check_required_at = some now;
  response_due_at = some (response_deadline e.guardian_due_at now);
}

abbrev pub escalate_row : ℕ → Escalation → Escalation
escalate_row now e = record e { state = escalated; escalated_at = some now }

unfoldable pub update_escalation : ℕ → (Escalation → Escalation) → Db → Db
update_escalation id f db = record db { escalations = modify id f db.escalations }

unfoldable pub overdue_notice : ℕ → ℕ → Grant → Recipient → ℕ → Db → Notice
overdue_notice id grant_id g to now db = record {
  id = db.next_notice_id;
  recipient_data = to;
  session_id = id;
  recipient_user_id = g.guardian_user_id;
  grant_id = some grant_id;
  kind = guardian_overdue;
  message =
      codes
        "SafeWalk overdue: arrival could not be confirmed for a journey shared with you. This is a non-emergency notification.";
  reason_code = codes "SAFETY_CHECK_UNANSWERED";
  available_at = now;
  cancelled_at = none;
  acknowledged_at = none;
}

-- The grants that the session's owner made and did not revoke.
unfoldable pub is_live_grant : ℕ → Session → ℕ × Grant → Bool
is_live_grant id session (k, g) =
    g.session_id == id
    && g.owner_user_id == session.user_id
    && is_none g.revoked_at
    && g.is_status_policy

module _ (protect : ℕ → ℕ → Option ℕ) where
  unfoldable pub safe_walk_recipient_data : ℕ → ℕ → Db → Result Error Recipient
  safe_walk_recipient_data notice_id user_id db =
      or_fail (get user_id db.accounts) user_not_found >>= λ a.
      if is_none a.facility_id
      then ok (record { recipient = a.email; protected_snapshot_id = none })
      else (or_fail (protect notice_id user_id) snapshot_failed >>= λ row.
          ok (record { recipient = codes "[protected]"; protected_snapshot_id = some row }))

  -- The prompt: the notice to the owner, the new state and the audit row.
  unfoldable pub send_check : ℕ → Session → ℕ → Db → Result Error Db
  send_check id session now db = do
    to ← safe_walk_recipient_data db.next_notice_id session.user_id db
    db₁ ←
        create_notice
          (record {
            id = db.next_notice_id;
            recipient_data = to;
            session_id = id;
            recipient_user_id = session.user_id;
            grant_id = none;
            kind = owner_check;
            message =
                codes
                  "SafeWalk: please confirm your safety. Your expected arrival time has passed.";
            reason_code = codes "EXPECTED_ARRIVAL_NOT_CONFIRMED";
            available_at = now;
            cancelled_at = none;
            acknowledged_at = none;
          })
          db
    create_audit
        (event id (codes "check") id none (codes "CHECK_REQUIRED")
          (codes "EXPECTED_ARRIVAL_NOT_CONFIRMED") now)
        (update_escalation id (require_check now) db₁)

  -- The branch of a scheduled walk.
  unfoldable pub prompt_owner : ℕ → Session → Escalation → ℕ → Db → Result Error Db
  prompt_owner id session e now db =
      if ltb now e.check_due_at then ok db else send_check id session now db

  -- One round of the loop over the grants, for a guardian in scope.
  unfoldable pub notify_guardian : ℕ → ℕ → Grant → ℕ → Db → Result Error Db
  unfolding overdue_notice
  notify_guardian id grant_id g now db = do
    to ← safe_walk_recipient_data db.next_notice_id g.guardian_user_id db
    db₁ ← create_notice (overdue_notice id grant_id g to now db) db
    create_audit
        (event grant_id (codes "overdue") id (some grant_id) (codes "GUARDIAN_NOTICE_AVAILABLE")
          (codes "SAFETY_CHECK_UNANSWERED") now)
        db₁

  unfoldable pub notify_guardians : ℕ → Option Account → ℕ → List (ℕ × Grant) → Db → Result Error Db
  notify_guardians id owner now [] db = ok db
  notify_guardians id owner now ((k, g) ∷ gs) db =
      (if guardian_scope_allowed owner (get g.guardian_user_id db.accounts) g.facility_scope_id
        then notify_guardian id k g now db
        else ok db)
      >>= λ db₁. notify_guardians id owner now gs db₁

  -- The notices to the guardians, the new state and the audit row.
  unfoldable pub send_overdue : ℕ → Session → Option Account → ℕ → Db → Result Error Db
  send_overdue id session owner now db = do
    db₁ ← notify_guardians id owner now (keep (is_live_grant id session) db.grants) db
    create_audit
        (event id (codes "escalated") id none (codes "GUARDIAN_ESCALATION_PROCESSED")
          (codes "SAFETY_CHECK_UNANSWERED") now)
        (update_escalation id (escalate_row now) db₁)

  -- The branch of a walk whose owner was asked and did not answer.
  unfoldable pub escalate : ℕ → Session → Option Account → Escalation → ℕ → Db → Result Error Db
  escalate id session owner e now db = elim e.response_due_at [
    | none ↦ ok db
    | some due ↦ if ltb now due then ok db else send_overdue id session owner now db
  ]

  -- A pending walk that is eligible and not confirmed, with its expected arrival.
  unfoldable pub advance : ℕ → Session → Option Account → Escalation → ℕ → ℕ → Db → Result Error Db
  advance id session owner e expected now db = do
    guard (check_due expected == e.check_due_at && guardian_due expected == e.guardian_due_at)
        deadline_invariant
    (if is_scheduled e.state
        then prompt_owner id session e now db
        else escalate id session owner e now db)

  unfoldable pub process_pending : ℕ → Session → Escalation → ℕ → Db → Result Error Db
  process_pending id session e now db =
      let owner = get session.user_id db.accounts in
      if is_ineligible session owner
      then settle_safe_walk id now closed none db
      else if is_confirmed session
      then settle_safe_walk id now satisfied (some session.user_id) db
      else (elim session.expected_arrival_at [
        | none ↦ ok db
        | some expected ↦ advance id session owner e expected now db
      ])

  -- `processSession`, in one transaction that holds the locks of the journey.
  unfoldable pub process_session : ℕ → ℕ → Db → Result Error Db
  process_session id now db = elim (get id db.sessions) [
    | none ↦ ok db
    | some session ↦ elim (get id db.escalations) [
      | none ↦ ok db
      | some e ↦ if is_pending e.state then process_pending id session e now db else ok db
    ]
  ]

  -- `if (await …) catch`: a session that fails is left as it was.
  unfoldable pub process_sessions : List ℕ → ℕ → Db → Db
  process_sessions [] now db = db
  process_sessions (id ∷ ids) now db = elim (process_session id now db) [
    | ok db' ↦ process_sessions ids now db'
    | err x ↦ process_sessions ids now db
  ]

abbrev reached : Option ℕ → ℕ → Bool
reached none now = false
reached (some t) now = leb t now

abbrev is_due : ℕ → ℕ × Escalation → Bool
is_due now (id, e) = elim e.state [
  | scheduled ↦ leb e.check_due_at now
  | check_required ↦ reached e.response_due_at now
  | _ ↦ false
]

abbrev insert_due : ℕ × Escalation → List (ℕ × Escalation) → List (ℕ × Escalation)
insert_due e [] = e ∷ []
insert_due e (f ∷ fs) =
    if ltb e.1.check_due_at f.1.check_due_at
      || (e.1.check_due_at == f.1.check_due_at && leb e.0 f.0)
    then e ∷ f ∷ fs
    else f ∷ insert_due e fs

abbrev due_first : List (ℕ × Escalation) → List (ℕ × Escalation)
due_first [] = []
due_first (e ∷ es) = insert_due e (due_first es)

abbrev ids_of : List (ℕ × Escalation) → List ℕ
ids_of [] = []
ids_of (e ∷ es) = e.0 ∷ ids_of es

-- `runBatch`: at most 50 due walks; one clock value stands for the reads of the batch.
unfoldable pub run_batch : (ℕ → ℕ → Option ℕ) → ℕ → Db → Db
run_batch protect now db =
    process_sessions protect (ids_of (take 50 (due_first (keep (is_due now) db.escalations)))) now
      db
