-- ===== src/SafeWalk/Revoked.antt =====
-- Limits on sharing a walk that no history of calls of the guardian service gets past.
use opa_security_awareness_a.Common.{
  ℕ, ◌≤◌, ◌<◌, ◌≡◌, refl, sym, subst, inl, inr, List, [], ◌∷◌, keep, length, length-append,
  keep-append, Result, ok, err, arith, Bool-cases, ◌==◌,
}
use opa_security_awareness_a.Common.Text.{Text}
use opa_security_awareness_a.Common.Table.{Table, modify, add}
use opa_security_awareness_a.SafeWalk.Policy.{Grant}
use opa_security_awareness_a.SafeWalk.Pairing.{
  Db, Error, is_in_session, issue_code, authorize, revoke, revoke_grant,
}
use opa_security_awareness_a.SafeWalk.Inbox.{shared_status, acknowledge, inbox}
use opa_security_awareness_a.SafeWalk.Grants.{
  GrantsMove, issue_code-grants, authorize-GrantsMove, revoke-GrantsMove, shared_status-grants,
  acknowledge-grants, read_notices-grants,
}

-- A call of the service, with what it is given.
pub data Call : Type 0 where
  issues : ℕ → Text → ℕ → Call
  authorizes : ℕ → ℕ → Text → ℕ → Call
  revokes : ℕ → ℕ → ℕ → ℕ → Call
  reads_status : ℕ → ℕ → ℕ → ℕ → Call
  acknowledges reads_inbox : ℕ → ℕ → ℕ → Call

-- A call that throws changes nothing.
abbrev state_of {ℓ} : {A : Type ℓ} → Db → Result Error (A × Db) → Db
state_of db (ok (r, db')) = db'
state_of db (err x) = db

unfoldable pub call : (Text → Text) → Call → Db → Db
call hex (issues guardian code now) db = state_of db (issue_code hex guardian code now db)
call hex (authorizes owner session_id code now) db =
    state_of db (authorize hex owner session_id code now db)
call hex (revokes owner session_id grant_id now) db =
    state_of db (revoke owner session_id grant_id now db)
call hex (reads_status guardian session_id uuid now) db =
    state_of db (shared_status guardian session_id uuid now db)
call hex (acknowledges recipient id now) db = state_of db (acknowledge recipient id now db)
call hex (reads_inbox recipient uuid now) db = (inbox recipient uuid now db).1

unfoldable pub calls : (Text → Text) → List Call → Db → Db
unfolding call
calls hex [] db = db
calls hex (c ∷ cs) db = calls hex cs (call hex c db)

state-GrantsMove :
    {A : Type 0} (db : Db) (r : Result Error (A × Db))
    → ((a : A) (db' : Db) → r ≡ ok (a, db') → GrantsMove db db')
    → GrantsMove db (state_of db r)
state-GrantsMove db (ok (a, db')) h = h a db' refl
state-GrantsMove db (err x) h = inl refl

pub call-GrantsMove : (hex : Text → Text) (c : Call) (db : Db) → GrantsMove db (call hex c db)
unfolding call inbox
call-GrantsMove hex (issues guardian code now) db =
    state-GrantsMove db (issue_code hex guardian code now db)
      (λ a db' h. inl (issue_code-grants hex guardian code now db h))
call-GrantsMove hex (authorizes owner session_id code now) db =
    state-GrantsMove db (authorize hex owner session_id code now db)
      (λ a db' h. authorize-GrantsMove hex owner session_id code now db {r = a} {db' = db'} h)
call-GrantsMove hex (revokes owner session_id grant_id now) db =
    state-GrantsMove db (revoke owner session_id grant_id now db)
      (λ a db' h. revoke-GrantsMove owner session_id grant_id now db {r = a} {db' = db'} h)
call-GrantsMove hex (reads_status guardian session_id uuid now) db =
    state-GrantsMove db (shared_status guardian session_id uuid now db)
      (λ a db' h. inl (shared_status-grants guardian session_id uuid now db h))
call-GrantsMove hex (acknowledges recipient id now) db =
    state-GrantsMove db (acknowledge recipient id now db)
      (λ a db' h. inl (acknowledge-grants recipient id now db h))
call-GrantsMove hex (reads_inbox recipient uuid now) db =
    inl (read_notices-grants recipient _ uuid now db)

length-keep-revoke :
    (session_id id now : ℕ) (t : Table Grant)
    → length (keep (is_in_session session_id) (modify id (revoke_grant now) t))
      ≡ length (keep (is_in_session session_id) t)
unfolding modify is_in_session
length-keep-revoke session_id id now [] = refl
length-keep-revoke session_id id now ((k, g) ∷ t) =
    ground (arith, length-keep-revoke session_id id now t)

-- How many guardians a walk is shared with.
abbrev pub guardians : ℕ → Db → ℕ
guardians session_id db = length (keep (is_in_session session_id) db.walks.grants)

add-guardians :
    (session_id id : ℕ) (g : Grant) (t : Table Grant)
    → length (keep (is_in_session session_id) t) ≤ 5
    → length (keep (is_in_session g.session_id) t) < 5
    → length (keep (is_in_session session_id) (add id g t)) ≤ 5
unfolding add is_in_session
add-guardians session_id id g t h few =
    let split = keep-append (is_in_session session_id) t ((id, g) ∷ []) in
    let long =
      length-append (keep (is_in_session session_id) t)
        (keep (is_in_session session_id) ((id, g) ∷ [])) in
    elim (Bool-cases (g.session_id == session_id)) [
      | inr e ↦
          let one : length (keep (is_in_session session_id) ((id, g) ∷ [])) ≡ 0 = ground arith in
          ground (arith, split, long, one)
      | inl e ↦
          let one : length (keep (is_in_session session_id) ((id, g) ∷ [])) ≡ 1 = ground arith in
          let q : g.session_id ≡ session_id = ground arith in
          let few' = subst (λ i. length (keep (is_in_session i) t) < 5) q few in
          ground (arith, split, long, one, few')
    ]

move-guardians :
    (session_id : ℕ) (db db' : Db)
    → GrantsMove db db'
    → guardians session_id db ≤ 5
    → guardians session_id db' ≤ 5
unfolding add is_in_session
move-guardians session_id db db' (inl e) h =
    subst (λ (t : Table Grant). length (keep (is_in_session session_id) t) ≤ 5) (sym e) h
move-guardians session_id db db' (inr (inl (id, g, e, few))) h =
    subst (λ (t : Table Grant). length (keep (is_in_session session_id) t) ≤ 5) (sym e)
      (add-guardians session_id id g db.walks.grants h few)
move-guardians session_id db db' (inr (inr (id, now, e))) h =
    subst (λ (t : Table Grant). length (keep (is_in_session session_id) t) ≤ 5) (sym e)
      (omega (arith, length-keep-revoke session_id id now db.walks.grants))

-- A walk that is shared with at most five guardians stays so, whatever calls of the guardian service
-- follow, in any order and by anyone.
pub calls-guardians :
    (hex : Text → Text) (cs : List Call) (session_id : ℕ) (db : Db)
    → guardians session_id db ≤ 5
    → guardians session_id (calls hex cs db) ≤ 5
unfolding calls
calls-guardians hex [] session_id db h = h
calls-guardians hex (c ∷ cs) session_id db h =
    calls-guardians hex cs session_id (call hex c db)
      (move-guardians session_id db (call hex c db) (call-GrantsMove hex c db) h)
