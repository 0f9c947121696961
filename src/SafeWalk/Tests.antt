-- ===== src/SafeWalk/Tests.antt =====
-- One walk whose owner does not answer, with one guardian.
use opa_security_awareness_a.Common.{
  ℕ, ◌≤◌, arith, err, ◌≡◌, refl, ◌⊎◌, true, Option, none, some, List, [], ◌∷◌, ◌++◌, map, All, ok,
}
use opa_security_awareness_a.Common.Text.{Text, text_eq, codes}
use opa_security_awareness_a.Common.Table.{get, modify}
use opa_security_awareness_a.SafeWalk.Policy.{
  Account, user, active, Session, for_safewalk, session_active, scheduled, Escalation, Grant,
  Notice, guardian_overdue, guardian_scope_allowed, Db, eligible_account, check_due, guardian_due,
  response_deadline, create_audit, has_key, cancel_notice,
}
use opa_security_awareness_a.SafeWalk.Escalation.{
  escalate, send_overdue, notify_guardians, notify_guardian, overdue_notice, is_live_grant,
  process_session, process_pending, advance, prompt_owner, send_check, is_ineligible, is_confirmed,
  safe_walk_recipient_data, create_notice, same_notice, update_escalation, require_check,
}
use opa_security_awareness_a.SafeWalk.Deadlines.{run_batches, IsTimely, run_batches-IsTimely}
use opa_security_awareness_a.SafeWalk.Guardians.{IsJustified, process_session-notices}
use opa_security_awareness_a.SafeWalk.Pairing.{
  Db as PairingDb, missing, is_in_session, is_grant_of, revoke, apply_revoke, authorized_grant,
}
use opa_security_awareness_a.SafeWalk.Inbox.{shared_status}
use opa_security_awareness_a.SafeWalk.Revoked.{
  Call, issues, authorizes, revokes, reads_status, reads_inbox, calls, guardians, calls-guardians,
}
use opa_security_awareness_a.SafeWalk.Final.{revoke_final}
use opa_security_awareness_a.SafeWalk.Dispatch.{
  Db as DispatchDb, Outcome, never, open_notice, open_row, is_allowed, may_notify, grant_allows,
  audit_claim, authorize_dispatch, dispatch_candidate, dispatch_with_evidence,
}
use opa_security_awareness_a.SafeWalk.Sending.{authorized_once}
use opa_security_awareness_a.SafeWalk.Withheld.{
  IsSilent, revoked_never_mailed, settled_never_mailed,
}
use opa_security_awareness_a.Delivery.Policy.{
  DeliveryStatus, NotificationStatus, email, Environment, provider_identity, is_account_scope,
}
use opa_security_awareness_a.Delivery.Ledger.{
  Row, Db as LedgerDb, lock, number_taken, owns_number, owner,
}
use opa_security_awareness_a.Delivery.Claim.{claim, is_claimable, begin_attempt}

abbrev account : ℕ → Account
account id = record {
  id = id;
  role = user;
  is_active = true;
  account_status = active;
  facility_id = none;
  facility_is_active = none;
  email = codes "a@b";
}

abbrev walk : Session
walk = record {
  user_id = 1;
  purpose = for_safewalk;
  status = session_active;
  started_at = 0;
  ended_at = none;
  ended_reason = none;
  redacted_at = none;
  safe_walk_emergency_incident_id = none;
  safety_confirmed_at = none;
  arrival_confirmed_at = none;
  expected_arrival_at = some 1000;
}

abbrev waiting : Escalation
waiting = record {
  state = scheduled;
  check_due_at = 301000;
  guardian_due_at = 481000;
  check_required_at = none;
  response_due_at = none;
  escalated_at = none;
  settled_at = none;
}

abbrev grant : Grant
grant = record {
  session_id = 5;
  owner_user_id = 1;
  guardian_user_id = 2;
  facility_scope_id = none;
  granted_at = 0;
  revoked_at = none;
  is_status_policy = true;
}

abbrev walks : Db
walks = record {
  sessions = (5, walk) ∷ [];
  escalations = (5, waiting) ∷ [];
  accounts = (1, account 1) ∷ (2, account 2) ∷ [];
  grants = (9, grant) ∷ [];
  notices = [];
  next_notice_id = 0;
  audits = [];
}

abbrev refuse : ℕ → ℕ → Option ℕ
refuse notice recipient = none

run_batches-IsTimely_example :
    (e : Escalation) × (get 5 (run_batches refuse (400000 ∷ 600000 ∷ []) walks).escalations
      ≡ some e)
    × IsTimely e
    × ((true ≡ true) ⊎ (e ≡ waiting))
unfolding get
run_batches-IsTimely_example =
    run_batches-IsTimely refuse (400000 ∷ 600000 ∷ []) 5 walks waiting refl tt

abbrev after_check : Db
unfolding process_session
after_check = elim (process_session refuse 5 400000 walks) [ ok db ↦ db | _ ↦ walks ]

-- The owner did not answer: the guardian is told.
abbrev after_deadline : Db
unfolding process_session
after_deadline = elim (process_session refuse 5 600000 after_check) [ ok db ↦ db | _ ↦ walks ]

process_session-notices_example :
    (after_deadline.notices ≡ map (cancel_notice 5 600000) after_check.notices)
    ⊎ ((new : List Notice) × (after_deadline.notices ≡ after_check.notices ++ new)
        × All (IsJustified 5 walk after_check) new)
unfolding after_deadline after_check process_session process_pending advance prompt_owner send_check
    is_ineligible is_confirmed eligible_account check_due guardian_due safe_walk_recipient_data
    create_notice same_notice create_audit has_key update_escalation require_check response_deadline
    get modify escalate send_overdue notify_guardians notify_guardian overdue_notice is_live_grant
    guardian_scope_allowed text_eq
process_session-notices_example = process_session-notices refuse 5 600000 walk after_check refl refl

-- The digest of every code is its text here.
abbrev digest : List ℕ → List ℕ
digest t = t

abbrev code : List ℕ
code = codes "0123456789abcdef0123456789abcdef0123456789abcdef0123456789abcdef"

abbrev shared : PairingDb
shared = record { walks = walks; pairings = []; next_pairing_id = 0; next_grant_id = 10 }

abbrev history : List Call
history =
    issues 2 code 500000
    ∷ authorizes 1 5 code 510000
    ∷ reads_status 2 5 77 520000
    ∷ reads_inbox 2 80 530000
    ∷ revokes 1 5 9 540000
    ∷ []

calls-guardians_example : guardians 5 (calls digest history shared) ≤ 5
unfolding is_in_session
calls-guardians_example = calls-guardians digest history 5 shared (omega arith)

abbrev unshared : PairingDb
unfolding revoke apply_revoke create_audit has_key modify
unshared = elim (revoke 1 5 9 500000 shared) [ ok (at, db) ↦ db | _ ↦ shared ]

revoke_final_example :
    (authorized_grant 2 5 (calls digest history unshared).walks ≡ none)
    × (shared_status 2 5 90 600000 (calls digest history unshared) ≡ err missing)
unfolding unshared is_grant_of get revoke apply_revoke create_audit has_key modify
revoke_final_example =
    revoke_final digest 1 5 2 9 500000 shared {g = grant} {at = 500000} {db' = unshared} refl refl
      refl history 90 600000

abbrev overdue : Notice
overdue = record {
  id = 4;
  recipient_data = record { recipient = codes "g@b"; protected_snapshot_id = none };
  session_id = 5;
  recipient_user_id = 2;
  grant_id = some 9;
  kind = guardian_overdue;
  message = codes "m";
  reason_code = codes "SAFETY_CHECK_UNANSWERED";
  available_at = 490000;
  cancelled_at = none;
  acknowledged_at = none;
}

abbrev queued_row : Row
queued_row = record {
  channel = email;
  status = NotificationStatus.queued;
  delivery_status = DeliveryStatus.queued;
  attempt_count = 0;
  next_attempt_at = 490000;
  first_attempt_at = none;
  last_attempt_at = none;
  provider_accepted_at = none;
  confirmed_delivered_at = none;
  failure_category = none;
  provider = none;
  provider_message_id = none;
  sent_at = none;
  failed_at = none;
  last_error = none;
}

abbrev ledger : LedgerDb
ledger = record {
  incident_notifications = [];
  invitation_deliveries = [];
  safe_walk_notices = (4, queued_row) ∷ [];
  attempts = [];
  next_attempt_id = 1;
  references = [];
  receipts = [];
  events = [];
}

abbrev notified : PairingDb
notified = record shared { walks = record walks { notices = overdue ∷ [] } }

abbrev no_scopes : Environment
no_scopes = record { resend_account_scope = none; africastalking_account_scope = none }

abbrev no_snapshot : ℕ → ℕ → ℕ → Option Text
no_snapshot snapshot notice recipient = none

abbrev no_answer : Text → Text → Outcome
no_answer recipient message = never 600000 0

-- While the grant stands, the mail leaves.
mail_leaves :
    (dispatch_candidate no_scopes
      (codes "w")
      no_snapshot
      no_answer
      overdue
      500000
      (record { walks = notified.walks; ledger = ledger })).sent
    ≡ some (codes "g@b", codes "m")
unfolding dispatch_candidate authorize_dispatch open_notice open_row is_allowed may_notify
    grant_allows audit_claim get lock claim is_claimable provider_identity is_account_scope
    begin_attempt number_taken owns_number owner create_audit has_key eligible_account
    guardian_scope_allowed dispatch_with_evidence text_eq
mail_leaves = refl

abbrev due : DispatchDb
due = record { walks = notified.walks; ledger = ledger }

abbrev authorized : DispatchDb
unfolding authorize_dispatch open_notice open_row is_allowed may_notify grant_allows audit_claim get
    lock claim is_claimable provider_identity is_account_scope begin_attempt number_taken
    owns_number owner create_audit has_key eligible_account guardian_scope_allowed
authorized = elim (authorize_dispatch no_scopes (codes "w") 5 4 500000 due) [
  | ok (work, db) ↦ db
  | _ ↦ due
]

authorized_once_example :
    IsSilent
      (dispatch_candidate no_scopes (codes "v") no_snapshot no_answer overdue 501000 authorized)
      authorized
unfolding authorized authorize_dispatch open_notice open_row is_allowed may_notify grant_allows
    audit_claim get lock claim is_claimable provider_identity is_account_scope begin_attempt
    number_taken owns_number owner create_audit has_key eligible_account guardian_scope_allowed
authorized_once_example =
    authorized_once no_scopes (codes "w") 5 500000 overdue due
      {work = record { attempt_id = 1; message = codes "m" }} {db' = authorized} refl no_scopes
      (codes "v") no_snapshot no_answer 501000

abbrev withdrawn : PairingDb
unfolding revoke apply_revoke create_audit has_key modify
withdrawn = elim (revoke 1 5 9 500000 notified) [ ok (at, db) ↦ db | _ ↦ notified ]

revoked_never_mailed_example :
    IsSilent
      (dispatch_candidate no_scopes
        (codes "w")
        no_snapshot
        no_answer
        overdue
        510000
        (record { walks = withdrawn.walks; ledger = ledger }))
      (record { walks = withdrawn.walks; ledger = ledger })
unfolding withdrawn get revoke apply_revoke create_audit has_key modify calls
revoked_never_mailed_example =
    revoked_never_mailed digest 1 5 9 500000 notified {at = 500000} {db' = withdrawn} refl []
      no_scopes (codes "w") no_snapshot no_answer overdue
      (record overdue { cancelled_at = some 500000 }) 510000 ledger refl refl

abbrev confirmed : DispatchDb
confirmed = record {
  walks = record (notified.walks) {
    sessions = (5, record walk { safety_confirmed_at = some 495000 }) ∷ [];
  };
  ledger = ledger;
}

settled_never_mailed_example :
    IsSilent
      (dispatch_candidate no_scopes (codes "w") no_snapshot no_answer overdue 500000 confirmed)
      confirmed
unfolding get is_confirmed
settled_never_mailed_example =
    settled_never_mailed no_scopes (codes "w") no_snapshot no_answer overdue 500000 confirmed
      (record walk { safety_confirmed_at = some 495000 }) refl refl
