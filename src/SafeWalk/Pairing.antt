-- ===== src/SafeWalk/Pairing.antt =====
-- safewalk-guardian.service.ts. `hex` is SHA-256 in hexadecimal; `code` is the random code and `uuid`
-- a random event key; `now` is the database clock.
use opa_security_awareness_a.Common.{
  ℕ, suc, ◌+◌, Bool, true, false, ◌&&◌, ◌||◌, not, Option, none, some, map, find, keep, any, length,
  ltb, ◌==◌, if◌then◌else◌, is_none, is_some, Result, ok, err, guard, or_fail, ◌>>=◌, ◌>>◌,
}
use opa_security_awareness_a.Common.Text.{Text, codes, text_eq}
use opa_security_awareness_a.Common.Table.{Table, get, modify, add, update_where}
use opa_security_awareness_a.SafeWalk.Policy.{
  Account, eligible_account, same_scope, guardian_scope_allowed, Session, Grant, Notice, Audit,
  create_audit, Db as WalkDb, Error as WalkError,
}
use opa_security_awareness_a.SafeWalk.Escalation.{is_safewalk, is_ended}
use opa_security_awareness_a.Ingest.Envelope.{is_digest}

-- A row of safe_walk_guardian_codes.
pub record Pairing : Type 0 where
  pub user_id : ℕ
  pub code_hash : Text
  pub expires_at : ℕ
  pub consumed_at : Option ℕ
  pub consumed_for_session_id : Option ℕ

pub record Db : Type 0 where
  pub walks : WalkDb
  pub pairings : Table Pairing
  pub next_pairing_id : ℕ
  pub next_grant_id : ℕ

pub data Error : Type 0 where
  missing too_many_codes too_many_guardians duplicate_code : Error
  walk_failed : WalkError → Error

abbrev code_lifetime_ms : ℕ
code_lifetime_ms = 600000

abbrev pub audited : Db → Result WalkError WalkDb → Result Error Db
audited db (ok w) = ok (record db { walks = w })
audited db (err e) = err (walk_failed e)

unfoldable pub is_pending_code : ℕ → ℕ → ℕ × Pairing → Bool
is_pending_code guardian now (id, p) =
    p.user_id == guardian && is_none p.consumed_at && ltb now p.expires_at

unfoldable pub has_code : Text → ℕ × Pairing → Bool
has_code hash (id, p) = text_eq p.code_hash hash

unfoldable pub is_grant_of : ℕ → ℕ → ℕ × Grant → Bool
is_grant_of session_id guardian (id, g) =
    g.session_id == session_id && g.guardian_user_id == guardian

unfoldable pub is_in_session : ℕ → ℕ × Grant → Bool
is_in_session session_id (id, g) = g.session_id == session_id

abbrev pub facility_of : Option Account → Option ℕ
facility_of none = none
facility_of (some a) = a.facility_id

-- The session that an owner can share.
unfoldable pub open_walk : ℕ → ℕ → WalkDb → Option Session
open_walk owner id w = elim (get id w.sessions) [
  | none ↦ none
  | some s ↦
      if s.user_id == owner
        && is_safewalk s.purpose
        && is_none s.redacted_at
        && not (is_ended s.status)
      then some s
      else none
]

abbrev pub for_session : ℕ → Option ℕ → Bool
for_session id none = false
for_session id (some k) = k == id

-- Not expired, and not used for another session.
unfoldable pub usable : ℕ → ℕ → Pairing → Bool
usable session_id now p =
    ltb now p.expires_at
    && (is_none p.consumed_at || for_session session_id p.consumed_for_session_id)

-- A grant that was revoked, or made in another facility, stays refused.
abbrev pub still_grants : Option ℕ → Option (ℕ × Grant) → Bool
still_grants scope none = true
still_grants scope (some (id, g)) = is_none g.revoked_at && same_scope g.facility_scope_id scope

abbrev pub consumed_for : ℕ → ℕ → Pairing → Pairing
consumed_for session_id now p = record p {
  consumed_at = some now;
  consumed_for_session_id = some session_id;
}

abbrev unconsumed : ℕ → ℕ → ℕ → Pairing → Bool
unconsumed pairing_id now id p = id == pairing_id && is_none p.consumed_at && ltb now p.expires_at

abbrev is_unconsumed : ℕ → ℕ → ℕ × Pairing → Bool
is_unconsumed pairing_id now (id, p) = unconsumed pairing_id now id p

abbrev guardian_audit : ℕ → Text → ℕ → ℕ → Option ℕ → Text → Text → ℕ → Audit
guardian_audit key word session_id actor grant_id kind reason now = record {
  key_id = key;
  key_word = word;
  session_id = session_id;
  actor_user_id = some actor;
  grant_id = grant_id;
  kind = kind;
  reason_code = reason;
  occurred_at = now;
}

abbrev pub consume : ℕ → ℕ → ℕ → Db → Db
consume pairing_id session_id now db = record db {
  pairings = update_where (unconsumed pairing_id now) (consumed_for session_id now) db.pairings;
}

abbrev pub new_grant : ℕ → ℕ → ℕ → Option ℕ → ℕ → Grant
new_grant owner session_id guardian scope now = record {
  session_id = session_id;
  owner_user_id = owner;
  guardian_user_id = guardian;
  facility_scope_id = scope;
  granted_at = now;
  revoked_at = none;
  is_status_policy = true;
}

-- `grantView`, less the word for the scope.
pub record GrantView : Type 0 where
  pub grant_id : ℕ
  pub granted_at : ℕ
  pub is_status_policy : Bool

unfoldable pub grant_view : ℕ × Grant → GrantView
grant_view (id, g) = record {
  grant_id = id;
  granted_at = g.granted_at;
  is_status_policy = g.is_status_policy;
}

-- The new grant and its audit row.
unfoldable pub create_grant : ℕ → ℕ → ℕ → Option ℕ → ℕ → Db → Result Error (GrantView × Db)
unfolding grant_view
create_grant owner session_id guardian scope now db = do
  let id = db.next_grant_id
  let g = new_grant owner session_id guardian scope now
  db₁ ←
      audited (record db { next_grant_id = suc id })
        (create_audit
          (guardian_audit id (codes "authorized") session_id owner (some id)
            (codes "GUARDIAN_AUTHORIZED") (codes "OWNER_SELECTED_STATUS_ONLY") now)
          (record (db.walks) { grants = add id g db.walks.grants }))
  ok (grant_view (id, g), db₁)

module _ (hex : Text → Text) where
  unfoldable pub issue_code : ℕ → Text → ℕ → Db → Result Error (ℕ × Db)
  unfolding is_pending_code has_code
  issue_code guardian code now db = do
    guard (eligible_account (get guardian db.walks.accounts)) missing
    guard (ltb (length (keep (is_pending_code guardian now) db.pairings)) 5) too_many_codes
    guard (not (any (has_code (hex code)) db.pairings)) duplicate_code
    ok (
      now + code_lifetime_ms,
      record db {
        pairings =
            add db.next_pairing_id
              (record {
                user_id = guardian;
                code_hash = hex code;
                expires_at = now + code_lifetime_ms;
                consumed_at = none;
                consumed_for_session_id = none;
              })
              db.pairings;
        next_pairing_id = suc db.next_pairing_id;
      },
    )

  unfoldable pub pair_unconsumed :
      ℕ → ℕ → ℕ → Pairing → Option (ℕ × Grant) → Option ℕ → ℕ → Db → Result Error (GrantView × Db)
  unfolding create_grant is_in_session grant_view
  pair_unconsumed owner session_id pairing_id p existing scope now db = do
    guard (is_some existing || ltb (length (keep (is_in_session session_id) db.walks.grants)) 5)
        too_many_guardians
    guard (length (keep (is_unconsumed pairing_id now) db.pairings) == 1) missing
    elim existing [
      | some g ↦ ok (grant_view g, consume pairing_id session_id now db)
      | none ↦
          create_grant owner session_id p.user_id scope now (consume pairing_id session_id now db)
    ]

  -- What follows the checks that every call passes.
  unfoldable pub pair :
      ℕ → ℕ → ℕ → Pairing → Option (ℕ × Grant) → Option ℕ → ℕ → Db → Result Error (GrantView × Db)
  unfolding pair_unconsumed grant_view
  pair owner session_id pairing_id p existing scope now db =
      if is_some p.consumed_at
      then (or_fail existing missing >>= λ (g : ℕ × Grant). ok (grant_view g, db))
      else pair_unconsumed owner session_id pairing_id p existing scope now db

  unfoldable pub authorize : ℕ → ℕ → Text → ℕ → Db → Result Error (GrantView × Db)
  unfolding open_walk has_code usable is_grant_of pair
  authorize owner session_id code now db = do
    guard (is_digest code) missing
    s ← or_fail (open_walk owner session_id db.walks) missing
    found ← or_fail (find (has_code (hex code)) db.pairings) missing
    guard (usable session_id now found.1) missing
    let account = get owner db.walks.accounts
    let scope = facility_of account
    guard (guardian_scope_allowed account (get found.1.user_id db.walks.accounts) scope) missing
    let existing = find (is_grant_of session_id found.1.user_id) db.walks.grants
    guard (still_grants scope existing) missing
    pair owner session_id found.0 found.1 existing scope now db

abbrev pub owned_grant : ℕ → ℕ → Option Grant → Option Grant
owned_grant owner session_id none = none
owned_grant owner session_id (some g) =
    if g.session_id == session_id && g.owner_user_id == owner then some g else none

abbrev pub revoke_grant : ℕ → Grant → Grant
revoke_grant now g = record g { revoked_at = some now }

abbrev pub cancel_for_grant : ℕ → ℕ → Notice → Notice
cancel_for_grant grant_id now n =
    if for_session grant_id n.grant_id && is_none n.cancelled_at
    then record n { cancelled_at = some now }
    else n

-- The three writes of a revocation.
unfoldable pub apply_revoke : ℕ → ℕ → ℕ → ℕ → Db → Result Error (ℕ × Db)
apply_revoke owner session_id grant_id now db = do
  db₁ ← audited db (
      create_audit
        (guardian_audit grant_id (codes "revoked") session_id owner (some grant_id)
          (codes "GUARDIAN_REVOKED") (codes "OWNER_REVOKED") now)
        (record (db.walks) {
          grants = modify grant_id (revoke_grant now) db.walks.grants;
          notices = map (cancel_for_grant grant_id now) db.walks.notices;
        }))
  ok (now, db₁)

unfoldable pub revoke : ℕ → ℕ → ℕ → ℕ → Db → Result Error (ℕ × Db)
unfolding apply_revoke
revoke owner session_id grant_id now db =
    or_fail (owned_grant owner session_id (get grant_id db.walks.grants)) missing >>= λ (g : Grant).
    elim g.revoked_at [
      | some at ↦ ok (at, db)
      | none ↦ apply_revoke owner session_id grant_id now db
    ]

unfoldable pub authorized_grant : ℕ → ℕ → WalkDb → Option (ℕ × Grant)
unfolding is_grant_of
authorized_grant guardian session_id w = elim (find (is_grant_of session_id guardian) w.grants) [
  | none ↦ none
  | some (id, g) ↦
      if is_none g.revoked_at
        && g.is_status_policy
        && guardian_scope_allowed (get g.owner_user_id w.accounts) (get guardian w.accounts)
            g.facility_scope_id
      then some (id, g)
      else none
]
