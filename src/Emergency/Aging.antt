-- ===== src/Emergency/Aging.antt =====
-- What the operations on tokens can and cannot do to a stored token, over any history of calls.
use opa_security_awareness_a.Common.{
  ℕ, ◌≤◌, max, ◌≡◌, refl, subst, ◌∙◌, ◌⊎◌, inl, inr, true, none, some, List, [], ◌∷◌, ◌++◌, map,
  find, any, Result, ok, err, arith, Bool-cases, Option-cases, is_some, ◌==◌,
}
use opa_security_awareness_a.Common.Text.{Text, text_eq}
use opa_security_awareness_a.Common.Table.{Table, get, modify, add}
use opa_security_awareness_a.Emergency.State.{Incident, Token, Scope, Db, Error}
use opa_security_awareness_a.Emergency.Tokens.{
  revoked, expired, has_hash, judge, issue, resolve_token, update_token, record_access, revoke,
  accessed, revoke_now, is_live_of, revoke_if_live, revoke_all_for_incident, is_candidate,
  next_expiry, is_renewed, renew_token, renew_eligible_tokens,
}

-- A call of the service, with the time that it reads.
pub data Call : Type 0 where
  issue_call : ℕ → Scope → Text → ℕ → Call
  access_call revoke_call : ℕ → ℕ → Call
  revoke_all_call : ℕ → ℕ → Call
  renew_call : ℕ → Call

-- A call that throws changes nothing.
abbrev kept : Db → Result Error Db → Db
kept db (ok db') = db'
kept db (err x) = db

abbrev issued : Db → Result Error (ℕ × Db) → Db
issued db (ok (id, db')) = db'
issued db (err x) = db

unfoldable pub call : (Text → Text) → Call → Db → Db
call hex (issue_call incident_id scope raw now) db =
    issued db (issue hex incident_id scope raw now db)
call hex (access_call id now) db = kept db (record_access id now db)
call hex (revoke_call id now) db = kept db (revoke id now db)
call hex (revoke_all_call incident_id now) db = (revoke_all_for_incident incident_id now db).1
call hex (renew_call now) db = (renew_eligible_tokens now db).1

unfoldable pub calls : (Text → Text) → List Call → Db → Db
unfolding call
calls hex [] db = db
calls hex (c ∷ cs) db = calls hex cs (call hex c db)

-- What stays, and in which direction the rest can move.
abbrev pub Ages : Token → Token → Type 0
Ages t t' =
    (t'.incident_id ≡ t.incident_id)
    × (t'.token_hash ≡ t.token_hash)
    × (t'.scope ≡ t.scope)
    × (t'.absolute_expiry ≡ t.absolute_expiry)
    × (t.expires_at ≤ t'.expires_at)
    × (t'.expires_at ≤ max t.expires_at t.absolute_expiry)
    × (t.access_count ≤ t'.access_count)
    × ((t.revoked_at ≡ none) ⊎ (is_some t'.revoked_at ≡ true))

Ages-refl : (t : Token) → Ages t t
Ages-refl t = elim (Option-cases t.revoked_at) [ inl n ↦ ground arith | inr (r, e) ↦ ground arith ]

Ages-trans : (t u v : Token) → Ages t u → Ages u v → Ages t v
Ages-trans t u v (a, b, c, d, e, f, g, h) (a', b', c', d', e', f', g', h') =
    (a' ∙ a, b' ∙ b, c' ∙ c, d' ∙ d, omega arith, ground arith, omega arith, ground arith)

-- Each row ages, and rows are only added behind the old ones.
abbrev RowsAge : Table Token → Table Token → Type 0
RowsAge [] new = Unit
RowsAge ((k, t) ∷ ts) [] = ⊥
RowsAge ((k, t) ∷ ts) ((k', t') ∷ ts') = (k' ≡ k) × Ages t t' × RowsAge ts ts'

RowsAge-refl : (ts : Table Token) → RowsAge ts ts
RowsAge-refl [] = tt
RowsAge-refl ((k, t) ∷ ts) = (refl, Ages-refl t, RowsAge-refl ts)

RowsAge-append : (ts us : Table Token) → RowsAge ts (ts ++ us)
RowsAge-append [] us = tt
RowsAge-append ((k, t) ∷ ts) us = (refl, Ages-refl t, RowsAge-append ts us)

RowsAge-modify :
    (id : ℕ) (f : Token → Token) (ts : Table Token)
    → ((t : Token) → Ages t (f t))
    → RowsAge ts (modify id f ts)
unfolding modify
RowsAge-modify id f [] h = tt
RowsAge-modify id f ((k, t) ∷ ts) h = elim (Bool-cases (k == id)) [
  | inl e ↦ rw e ((refl, h t, RowsAge-modify id f ts h))
  | inr e ↦ rw e ((refl, Ages-refl t, RowsAge-modify id f ts h))
]

RowsAge-revoke_all :
    (incident_id now : ℕ) (ts : Table Token) → RowsAge ts (map (revoke_if_live incident_id now) ts)
RowsAge-revoke_all incident_id now [] = tt
RowsAge-revoke_all incident_id now ((k, t) ∷ ts) =
    elim (Bool-cases (is_live_of incident_id (k, t))) [
      | inl e ↦ rw e ((refl, ground arith, RowsAge-revoke_all incident_id now ts))
      | inr e ↦ rw e ((refl, Ages-refl t, RowsAge-revoke_all incident_id now ts))
    ]

renewed-Ages :
    (now : ℕ) (incidents : Table Incident) (t : Token)
    → is_renewed now incidents t ≡ true
    → Ages t (record t { expires_at = next_expiry now t })
unfolding is_renewed is_candidate next_expiry
renewed-Ages now incidents t h = ground arith

RowsAge-renew :
    (now : ℕ) (incidents : Table Incident) (ts : Table Token)
    → RowsAge ts (map (renew_token now incidents) ts)
unfolding renew_token
RowsAge-renew now incidents [] = tt
RowsAge-renew now incidents ((k, t) ∷ ts) = elim (Bool-cases (is_renewed now incidents t)) [
  | inl e ↦ rw e ((refl, renewed-Ages now incidents t e, RowsAge-renew now incidents ts))
  | inr e ↦ rw e ((refl, Ages-refl t, RowsAge-renew now incidents ts))
]

update_token-RowsAge :
    (id : ℕ) (f : Token → Token) (db : Db)
    → ((t : Token) → Ages t (f t))
    → RowsAge db.tokens (kept db (update_token id f db)).tokens
unfolding update_token
update_token-RowsAge id f db h = elim (Option-cases (get id db.tokens)) [
  | inl n ↦ rw n (RowsAge-refl db.tokens)
  | inr (t, e) ↦ rw e (RowsAge-modify id f db.tokens h)
]

issue-RowsAge :
    (hex : Text → Text) (incident_id : ℕ) (scope : Scope) (raw : Text) (now : ℕ) (db : Db)
    → RowsAge db.tokens (issued db (issue hex incident_id scope raw now db)).tokens
unfolding issue add
issue-RowsAge hex incident_id scope raw now db =
    elim (Bool-cases (any (has_hash (hex raw)) db.tokens)) [
      | inl e ↦ rw e (RowsAge-refl db.tokens)
      | inr e ↦ rw e (RowsAge-append db.tokens _)
    ]

access-Ages : (now : ℕ) (t : Token) → Ages t (accessed now t)
access-Ages now t = elim (Option-cases t.revoked_at) [
  | inl n ↦ ground arith
  | inr (r, e) ↦ ground arith
]

call-RowsAge : (hex : Text → Text) (c : Call) (db : Db) → RowsAge db.tokens (call hex c db).tokens
unfolding call record_access revoke revoke_all_for_incident renew_eligible_tokens
call-RowsAge hex (issue_call incident_id scope raw now) db =
    issue-RowsAge hex incident_id scope raw now db
call-RowsAge hex (access_call id now) db =
    update_token-RowsAge id (accessed now) db (λ t. access-Ages now t)
call-RowsAge hex (revoke_call id now) db =
    update_token-RowsAge id (revoke_now now) db (λ t. ground arith)
call-RowsAge hex (revoke_all_call incident_id now) db = RowsAge-revoke_all incident_id now db.tokens
call-RowsAge hex (renew_call now) db = RowsAge-renew now db.incidents db.tokens

-- The row of a raw token is found again, aged.
find-RowsAge :
    (hash : Text) (ts ts' : Table Token) {k : ℕ} {t : Token}
    → RowsAge ts ts'
    → find (has_hash hash) ts ≡ some (k, t)
    → (t' : Token) × (find (has_hash hash) ts' ≡ some (k, t')) × Ages t t'
unfolding has_hash
find-RowsAge hash [] ts' h e = cc
find-RowsAge hash ((j, u) ∷ ts) [] h e = absurd h
find-RowsAge hash ((j, u) ∷ ts) ((j', u') ∷ ts') {k} {t} (same, ages, rest) e =
    elim (Bool-cases (text_eq u.token_hash hash)) [
      | inl hit ↦
          let q : u ≡ t = ground arith in
          (u', ground (arith, ages.1), subst (λ x. Ages x u') q ages)
      | inr miss ↦
          let (t', f, g) = find-RowsAge hash ts ts' {k = k} {t = t} rest (ground arith) in
          (t', ground (arith, ages.1), g)
    ]

calls-find :
    (hex : Text → Text) (raw : Text) (cs : List Call) (db : Db) {k : ℕ} {t : Token}
    → find (has_hash (hex raw)) db.tokens ≡ some (k, t)
    → (t' : Token) × (find (has_hash (hex raw)) (calls hex cs db).tokens ≡ some (k, t')) × Ages t t'
unfolding calls
calls-find hex raw [] db {k} {t} e = (t, e, Ages-refl t)
calls-find hex raw (c ∷ cs) db {k} {t} e =
    let (u, f, g) =
      find-RowsAge (hex raw) db.tokens (call hex c db).tokens (call-RowsAge hex c db) e in
    let (v, f', g') = calls-find hex raw cs (call hex c db) f in (v, f', Ages-trans t u v g g')

judge-not_valid :
    (now k : ℕ) (t t' : Token)
    → Ages t t'
    → (is_some t.revoked_at ≡ true) ⊎ (t.absolute_expiry ≤ now)
    → (judge now (some (k, t')) ≡ revoked k t') ⊎ (judge now (some (k, t')) ≡ expired k t')
unfolding judge
judge-not_valid now k t t' ages (inl gone) = ground arith
judge-not_valid now k t t' ages (inr late) = ground arith

-- After any history of issues, accesses, revocations and renewals, the link of a token that had been
-- revoked, or whose ceiling is reached, opens nothing: it resolves to the same token as revoked or
-- as expired. Its incident, hash, scope and ceiling are as at the start, its expiry is not earlier,
-- nor beyond the ceiling unless it was there before, and a revocation is not undone.
pub token_history :
    (hex : Text → Text) (raw : Text) (cs : List Call) (now : ℕ) (db : Db) {k : ℕ} {t : Token}
    → find (has_hash (hex raw)) db.tokens ≡ some (k, t)
    → (is_some t.revoked_at ≡ true) ⊎ (t.absolute_expiry ≤ now)
    → (t' : Token) × Ages t t'
      × ((resolve_token hex raw now (calls hex cs db) ≡ revoked k t')
          ⊎ (resolve_token hex raw now (calls hex cs db) ≡ expired k t'))
unfolding resolve_token
token_history hex raw cs now db {k} {t} e h =
    let (t', f, g) = calls-find hex raw cs db e in (t', g, rw f (judge-not_valid now k t t' g h))
