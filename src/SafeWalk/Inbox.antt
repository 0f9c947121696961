-- ===== src/SafeWalk/Inbox.antt =====
-- What a guardian or an owner reads and answers: `sharedStatus`, `visibleNotice`, `inbox` and
-- `acknowledge` of safewalk-guardian.service.ts.
use opa_security_awareness_a.Common.{
  ℕ, ◌+◌, Bool, true, false, ◌&&◌, ◌||◌, not, Option, none, some, List, [], ◌∷◌, map, find, keep,
  take, ltb, leb, ◌==◌, if◌then◌else◌, is_none, Result, ok, err, or_fail, ◌>>=◌,
}
use opa_security_awareness_a.Common.Text.{Text, codes}
use opa_security_awareness_a.Common.Table.{get}
use opa_security_awareness_a.SafeWalk.Policy.{
  eligible_account, Session, SessionStatus, Grant, Notice, NoticeKind, owner_check,
  guardian_overdue, Audit, create_audit, Db as WalkDb,
}
use opa_security_awareness_a.SafeWalk.Escalation.{is_safewalk, is_ended}
use opa_security_awareness_a.SafeWalk.Pairing.{
  Db, Error, missing, audited, authorized_grant, is_grant_of, for_session,
}

abbrev read_audit : ℕ → ℕ → ℕ → Option ℕ → Text → Text → ℕ → Audit
read_audit uuid session_id reader grant_id kind reason now = record {
  key_id = uuid;
  key_word = codes "uuid";
  session_id = session_id;
  actor_user_id = some reader;
  grant_id = grant_id;
  kind = kind;
  reason_code = reason;
  occurred_at = now;
}

abbrev shared_walk : ℕ → Option Session → Option Session
shared_walk owner none = none
shared_walk owner (some s) =
    if s.user_id == owner && is_safewalk s.purpose && is_none s.redacted_at then some s else none

-- What a guardian reads of a walk: no place.
pub record SharedStatus : Type 0 where
  pub session_id : ℕ
  pub status : SessionStatus
  pub expected_arrival_at : Option ℕ
  pub safety_confirmed_at : Option ℕ
  pub arrival_confirmed_at : Option ℕ

abbrev status_view : ℕ → Session → SharedStatus
status_view session_id s = record {
  session_id = session_id;
  status = s.status;
  expected_arrival_at = s.expected_arrival_at;
  safety_confirmed_at = s.safety_confirmed_at;
  arrival_confirmed_at = s.arrival_confirmed_at;
}

unfoldable pub shared_status : ℕ → ℕ → ℕ → ℕ → Db → Result Error (SharedStatus × Db)
unfolding authorized_grant is_grant_of
shared_status guardian session_id uuid now db = do
  hint ← or_fail (find (is_grant_of session_id guardian) db.walks.grants) missing
  g ← or_fail (authorized_grant guardian session_id db.walks) missing
  s ← or_fail (shared_walk g.1.owner_user_id (get session_id db.walks.sessions)) missing
  db₁ ← audited db (
      create_audit
        (read_audit uuid session_id guardian (some g.0) (codes "GUARDIAN_READ")
          (codes "OWNER_SELECTED_STATUS_ONLY") now)
        db.walks)
  ok (status_view session_id s, db₁)

abbrev pub is_check : NoticeKind → Bool
is_check owner_check = true
is_check guardian_overdue = false

abbrev granted : Option (ℕ × Grant) → Option ℕ → Bool
granted none id = false
granted (some (k, g)) id = for_session k id

-- Whether the notice is still for this recipient: the owner's own check, or the live grant's.
unfoldable pub may_see : ℕ → Notice → Session → WalkDb → Bool
unfolding authorized_grant
may_see recipient n s w =
    if is_check n.kind
    then s.user_id == recipient && eligible_account (get recipient w.accounts) && is_none n.grant_id
    else granted (authorized_grant recipient n.session_id w) n.grant_id

abbrev is_live_walk : Session → Bool
is_live_walk s =
    is_safewalk s.purpose
    && is_none s.redacted_at
    && not (is_ended s.status)
    && is_none s.safety_confirmed_at
    && is_none s.arrival_confirmed_at

abbrev is_notice_for : ℕ → ℕ → Notice → Bool
is_notice_for recipient id n =
    n.id == id && n.recipient_user_id == recipient && is_none n.cancelled_at

-- The reads before and after the lock see one state here.
unfoldable pub visible_notice : ℕ → ℕ → WalkDb → Option Notice
unfolding may_see
visible_notice recipient id w = elim (find (is_notice_for recipient id) w.notices) [
  | none ↦ none
  | some n ↦ elim (get n.session_id w.sessions) [
    | none ↦ none
    | some s ↦ if is_live_walk s && may_see recipient n s w then some n else none
  ]
]

abbrev acknowledge_row : ℕ → ℕ → Notice → Notice
acknowledge_row id now n = if n.id == id then record n { acknowledged_at = some now } else n

unfoldable pub apply_acknowledge : ℕ → Notice → ℕ → Db → Result Error (ℕ × Db)
apply_acknowledge recipient n now db = do
  db₁ ← audited db (
      create_audit
        (record (read_audit n.id n.session_id recipient n.grant_id (codes "NOTICE_ACKNOWLEDGED")
          (codes "RECIPIENT_ACKNOWLEDGED") now) { key_word = codes "ack" })
        (record (db.walks) { notices = map (acknowledge_row n.id now) db.walks.notices }))
  ok (now, db₁)

unfoldable pub acknowledge : ℕ → ℕ → ℕ → Db → Result Error (ℕ × Db)
unfolding visible_notice apply_acknowledge
acknowledge recipient id now db =
    or_fail (visible_notice recipient id db.walks) missing >>= λ (n : Notice).
    elim n.acknowledged_at [ some at ↦ ok (at, db) | none ↦ apply_acknowledge recipient n now db ]

-- `orderBy: [{ availableAt: 'desc' }, { id: 'desc' }]`.
abbrev insert_newest : Notice → List Notice → List Notice
insert_newest n [] = n ∷ []
insert_newest n (m ∷ ms) =
    if ltb m.available_at n.available_at || (n.available_at == m.available_at && leb m.id n.id)
    then n ∷ m ∷ ms
    else m ∷ insert_newest n ms

abbrev newest_first : List Notice → List Notice
newest_first [] = []
newest_first (n ∷ ns) = insert_newest n (newest_first ns)

abbrev is_candidate : ℕ → Notice → Bool
is_candidate recipient n = n.recipient_user_id == recipient && is_none n.cancelled_at

-- One candidate in its transaction; `uuid` names the audit row.
unfoldable pub read_notice : ℕ → ℕ → ℕ → ℕ → Db → Result Error (Option Notice × Db)
unfolding visible_notice
read_notice recipient id uuid now db = elim (visible_notice recipient id db.walks) [
  | none ↦ ok (none, db)
  | some n ↦
      (audited db (
          create_audit
            (read_audit uuid n.session_id recipient n.grant_id (codes "NOTICE_READ") n.reason_code
              now)
            db.walks)
        >>= λ db₁. ok (some n, db₁))
]

abbrev cons_some : Option Notice → Result Error (List Notice) → Result Error (List Notice)
cons_some (some n) (ok ns) = ok (n ∷ ns)
cons_some _ r = r

-- A failed transaction ends the loop; those before it are committed.
unfoldable pub read_notices : ℕ → List Notice → ℕ → ℕ → Db → Result Error (List Notice) × Db
unfolding read_notice
read_notices recipient [] uuid now db = (ok [], db)
read_notices recipient (n ∷ ns) uuid now db = elim (read_notice recipient n.id uuid now db) [
  | err e ↦ (err e, db)
  | ok (a, db₁) ↦
      let rest = read_notices recipient ns (uuid + 1) now db₁ in (cons_some a rest.0, rest.1)
]

-- At most fifty notices; the audit keys are the numbers from `uuid` on.
unfoldable pub inbox : ℕ → ℕ → ℕ → Db → Result Error (List Notice) × Db
unfolding read_notices
inbox recipient uuid now db =
    read_notices recipient (take 50 (newest_first (keep (is_candidate recipient) db.walks.notices)))
      uuid now db
