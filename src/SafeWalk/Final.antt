-- ===== src/SafeWalk/Final.antt =====
-- A revoked guardian stays out.
use opa_security_awareness_a.Common.{
  ℕ, ◌≡◌, refl, sym, subst, inl, inr, true, none, some, List, [], ◌∷◌, find, ok, err, arith,
  Bool-cases, Option-cases, is_some, ◌==◌,
}
use opa_security_awareness_a.Common.Text.{Text}
use opa_security_awareness_a.Common.Table.{Table, get, modify, add}
use opa_security_awareness_a.SafeWalk.Policy.{Grant, create_audit}
use opa_security_awareness_a.SafeWalk.Pairing.{
  Db, missing, is_grant_of, revoke, revoke_grant, authorized_grant, owned_grant, apply_revoke,
}
use opa_security_awareness_a.SafeWalk.Inbox.{shared_status}
use opa_security_awareness_a.SafeWalk.Revoked.{Call, call, calls, call-GrantsMove}
use opa_security_awareness_a.SafeWalk.Grants.{GrantsMove}

-- The row of this guardian in this session is revoked.
abbrev pub IsRevoked : ℕ → ℕ → Table Grant → Type 0
IsRevoked session_id guardian t =
    (k : ℕ) × (g : Grant) × (find (is_grant_of session_id guardian) t ≡ some (k, g))
    × (is_some g.revoked_at ≡ true)

IsRevoked-add :
    (session_id guardian id : ℕ) (a : Grant) (t : Table Grant)
    → IsRevoked session_id guardian t
    → IsRevoked session_id guardian (add id a t)
unfolding add is_grant_of
IsRevoked-add session_id guardian id a [] (k, g, e, r) = ground arith
IsRevoked-add session_id guardian id a ((j, b) ∷ t) (k, g, e, r) =
    elim (Bool-cases (is_grant_of session_id guardian (j, b))) [
      | inl m ↦ (k, g, ground arith, r)
      | inr m ↦
          let (k', g', e', r') = IsRevoked-add session_id guardian id a t (k, g, ground arith, r) in
          (k', g', ground arith, r')
    ]

IsRevoked-modify :
    (session_id guardian id now : ℕ) (t : Table Grant)
    → IsRevoked session_id guardian t
    → IsRevoked session_id guardian (modify id (revoke_grant now) t)
unfolding modify is_grant_of
IsRevoked-modify session_id guardian id now [] (k, g, e, r) = ground arith
IsRevoked-modify session_id guardian id now ((j, b) ∷ t) (k, g, e, r) =
    elim (Bool-cases (is_grant_of session_id guardian (j, b))) [
      | inl m ↦ elim (Bool-cases (j == id)) [
        | inl f ↦ (j, revoke_grant now b, ground arith, refl)
        | inr f ↦ (k, g, ground arith, r)
      ]
      | inr m ↦
          let (k', g', e', r') =
            IsRevoked-modify session_id guardian id now t (k, g, ground arith, r) in
          (k', g', ground arith, r')
    ]

IsRevoked-move :
    (session_id guardian : ℕ) (db db' : Db)
    → GrantsMove db db'
    → IsRevoked session_id guardian db.walks.grants
    → IsRevoked session_id guardian db'.walks.grants
IsRevoked-move session_id guardian db db' (inl e) h =
    subst (IsRevoked session_id guardian) (sym e) h
IsRevoked-move session_id guardian db db' (inr (inl (id, g, e, few))) h =
    subst (IsRevoked session_id guardian) (sym e)
      (IsRevoked-add session_id guardian id g db.walks.grants h)
IsRevoked-move session_id guardian db db' (inr (inr (id, now, e))) h =
    subst (IsRevoked session_id guardian) (sym e)
      (IsRevoked-modify session_id guardian id now db.walks.grants h)

IsRevoked-calls :
    (hex : Text → Text) (cs : List Call) (session_id guardian : ℕ) (db : Db)
    → IsRevoked session_id guardian db.walks.grants
    → IsRevoked session_id guardian (calls hex cs db).walks.grants
unfolding calls
IsRevoked-calls hex [] session_id guardian db h = h
IsRevoked-calls hex (c ∷ cs) session_id guardian db h =
    IsRevoked-calls hex cs session_id guardian (call hex c db)
      (IsRevoked-move session_id guardian db (call hex c db) (call-GrantsMove hex c db) h)

modify-IsRevoked :
    (session_id guardian id now : ℕ) (t : Table Grant) {g : Grant}
    → find (is_grant_of session_id guardian) t ≡ some (id, g)
    → IsRevoked session_id guardian (modify id (revoke_grant now) t)
unfolding modify is_grant_of
modify-IsRevoked session_id guardian id now [] h = ground arith
modify-IsRevoked session_id guardian id now ((j, b) ∷ t) {g} h =
    elim (Bool-cases (is_grant_of session_id guardian (j, b))) [
      | inl m ↦ (j, revoke_grant now b, ground arith, refl)
      | inr m ↦
          let (k', g', e', r') =
            modify-IsRevoked session_id guardian id now t {g = g} (ground arith) in
          (k', g', ground arith, r')
    ]

revoke-IsRevoked :
    (owner session_id guardian id now : ℕ) (db : Db) {g : Grant} {at : ℕ} {db' : Db}
    → find (is_grant_of session_id guardian) db.walks.grants ≡ some (id, g)
    → get id db.walks.grants ≡ some g
    → revoke owner session_id id now db ≡ ok (at, db')
    → IsRevoked session_id guardian db'.walks.grants
unfolding revoke apply_revoke create_audit
revoke-IsRevoked owner session_id guardian id now db {g} {at} {db'} found row h =
    elim (Option-cases (owned_grant owner session_id (get id db.walks.grants))) [
      | inl n ↦ ground arith
      | inr (a, e) ↦ elim (Option-cases g.revoked_at) [
        | inr (t, f) ↦ (id, g, ground arith, ground arith)
        | inl f ↦
            let done : db'.walks.grants ≡ modify id (revoke_grant now) db.walks.grants =
              ground arith in
            subst (IsRevoked session_id guardian) (sym done)
              (modify-IsRevoked session_id guardian id now db.walks.grants {g = g} found)
      ]
    ]

IsRevoked-refuses :
    (session_id guardian uuid now : ℕ) (db : Db)
    → IsRevoked session_id guardian db.walks.grants
    → (authorized_grant guardian session_id db.walks ≡ none)
      × (shared_status guardian session_id uuid now db ≡ err missing)
unfolding authorized_grant shared_status
IsRevoked-refuses session_id guardian uuid now db (k, g, e, r) = (ground arith, ground arith)

-- Revocation is final. Once the owner's call to revoke a guardian's grant - one row by its number
-- and by its session and guardian - has succeeded, then whatever calls of the guardian service
-- follow, new pairing codes of that guardian included, the guardian has no authorized grant in that
-- session and each read of its status answers "missing".
pub revoke_final :
    (hex : Text → Text) (owner session_id guardian id now : ℕ) (db : Db) {g : Grant} {at : ℕ}
    {db' : Db}
    → find (is_grant_of session_id guardian) db.walks.grants ≡ some (id, g)
    → get id db.walks.grants ≡ some g
    → revoke owner session_id id now db ≡ ok (at, db')
    → (cs : List Call) (uuid later : ℕ)
    → (authorized_grant guardian session_id (calls hex cs db').walks ≡ none)
      × (shared_status guardian session_id uuid later (calls hex cs db') ≡ err missing)
revoke_final hex owner session_id guardian id now db {g} {at} {db'} found row h cs uuid later =
    IsRevoked-refuses session_id guardian uuid later (calls hex cs db') (
      IsRevoked-calls hex cs session_id guardian db' (
        revoke-IsRevoked owner session_id guardian id now db {g = g} {at = at} {db' = db'} found row
          h))
