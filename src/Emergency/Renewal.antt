-- ===== src/Emergency/Renewal.antt =====
-- The renewal of tokens, and how long a link lives on it.
use opa_security_awareness_a.Common.{
  ℕ, ◌+◌, ◌≤◌, ◌<◌, ◌≡◌, refl, sym, ap, ◌∙◌, ◌⊎◌, inl, inr, true, false, none, some, List, [], ◌∷◌,
  ◌++◌, map, find, any, ok, arith, Bool-cases, if◌then◌else◌,
}
use opa_security_awareness_a.Common.Text.{Text, text_eq, text_eq_refl}
use opa_security_awareness_a.Common.Table.{Table, get, add}
use opa_security_awareness_a.Emergency.State.{Incident, open', Token, Scope, Db, is_open}
use opa_security_awareness_a.Emergency.Tokens.{
  valid, has_hash, judge, issue, resolve_token, initial_validity_ms, absolute_lifetime_ms,
  renewal_window_ms, is_candidate, next_expiry, is_renewed, renew_token, renew_eligible_tokens,
}

-- The renewal at each of these times.
unfoldable pub renewals : List ℕ → Db → Db
renewals [] db = db
renewals (n ∷ ns) db = renewals ns (renew_eligible_tokens n db).1

-- The times follow each other within the window, up to the time of a visit.
abbrev pub IsPaced : ℕ → List ℕ → ℕ → Type 0
IsPaced start [] visit = (start ≤ visit) × (visit ≤ start + renewal_window_ms)
IsPaced start (n ∷ ns) visit = (start ≤ n) × (n ≤ start + renewal_window_ms) × IsPaced n ns visit

-- A token that outlives the next window, or its ceiling.
abbrev IsFresh : ℕ → ℕ → Token → Type 0
IsFresh now ceiling t =
    (t.revoked_at ≡ none)
    × (t.absolute_expiry ≡ ceiling)
    × ((now + renewal_window_ms < t.expires_at) ⊎ (ceiling ≤ t.expires_at))

find-renew :
    (hash : Text) (now : ℕ) (incidents : Table Incident) (ts : Table Token) {k : ℕ} {t : Token}
    → find (has_hash hash) ts ≡ some (k, t)
    → find (has_hash hash) (map (renew_token now incidents) ts)
      ≡ some (renew_token now incidents (k, t))
unfolding has_hash renew_token
find-renew hash now incidents [] h = cc
find-renew hash now incidents ((j, u) ∷ ts) {k} {t} h =
    elim (Bool-cases (text_eq u.token_hash hash)) [
      | inl hit ↦ ground arith
      | inr miss ↦ ground (arith, find-renew hash now incidents ts {k = k} {t = t} (ground arith))
    ]

renewed : ℕ → Table Incident → Token → Token
renewed now incidents t =
    if is_renewed now incidents t then record t { expires_at = next_expiry now t } else t

renew_token-eq :
    (now k : ℕ) (incidents : Table Incident) (t : Token)
    → renew_token now incidents (k, t) ≡ (k, renewed now incidents t)
unfolding renew_token renewed
renew_token-eq now k incidents t = ground arith

renewed-IsFresh :
    (start now ceiling : ℕ) (incidents : Table Incident) (t : Token) {i : Incident}
    → get t.incident_id incidents ≡ some i
    → is_open i.status ≡ true
    → IsFresh start ceiling t
    → start ≤ now
    → now ≤ start + renewal_window_ms
    → now < ceiling
    → IsFresh now ceiling (renewed now incidents t)
      × ((renewed now incidents t).incident_id ≡ t.incident_id)
unfolding renewed is_renewed is_candidate next_expiry
renewed-IsFresh start now ceiling incidents t {i} e o (u, c, h) a b below = ground arith

paced_le : (start visit : ℕ) (ns : List ℕ) → IsPaced start ns visit → start ≤ visit
paced_le start visit [] h = h.0
paced_le start visit (n ∷ ns) h = omega (arith, h.0, paced_le n visit ns h.2)

fresh-valid :
    (start visit k : ℕ) (t : Token) {ceiling : ℕ}
    → IsFresh start ceiling t
    → visit ≤ start + renewal_window_ms
    → visit < ceiling
    → judge visit (some (k, t)) ≡ valid k t
unfolding judge
fresh-valid start visit k t (u, c, h) a b = ground arith

renewals-valid :
    (hex : Text → Text) (raw : Text) (start visit ceiling : ℕ) (ns : List ℕ) (db : Db)
    (i : Incident) {k : ℕ} {t : Token}
    → find (has_hash (hex raw)) db.tokens ≡ some (k, t)
    → get t.incident_id db.incidents ≡ some i
    → is_open i.status ≡ true
    → IsFresh start ceiling t
    → IsPaced start ns visit
    → visit < ceiling
    → (t' : Token) × (resolve_token hex raw visit (renewals ns db) ≡ valid k t')
      × (t'.incident_id ≡ t.incident_id)
unfolding renewals resolve_token renew_eligible_tokens
renewals-valid hex raw start visit ceiling [] db i {k} {t} f e o fresh paced below =
    (t, rw f (fresh-valid start visit k t fresh paced.1 below), refl)
renewals-valid hex raw start visit ceiling (n ∷ ns) db i {k} {t} f e o fresh (a, b, paced) below =
    let after = (renew_eligible_tokens n db).1 in
    let u = renewed n db.incidents t in
    let (fresh', same) =
      renewed-IsFresh start n ceiling db.incidents t {i = i} e o fresh a b
        (omega (arith, paced_le n visit ns paced)) in
    let f' : find (has_hash (hex raw)) after.tokens ≡ some (k, u) =
      find-renew (hex raw) n db.incidents db.tokens f
      ∙ ap some (renew_token-eq n k db.incidents t) in
    let (t', g, h) =
      renewals-valid hex raw n visit ceiling ns after i {k = k} {t = u} f'
        (ap (λ j. get j db.incidents) same ∙ e) o fresh' paced below in
    (t', g, h ∙ same)

only-row :
    (hash : Text) (k : ℕ) (t : Token)
    → t.token_hash ≡ hash
    → find (has_hash hash) ((k, t) ∷ []) ≡ some (k, t)
unfolding has_hash
only-row hash k t h = ground (arith, ap (text_eq t.token_hash) (sym h) ∙ text_eq_refl t.token_hash)

find-append :
    (p : ℕ × Token → _) (ts us : Table Token) → any p ts ≡ false → find p (ts ++ us) ≡ find p us
find-append p [] us h = refl
find-append p ((k, t) ∷ ts) us h = ground (arith, find-append p ts us)

-- A link that was issued for an open incident resolves as valid, for that incident, at any visit
-- before seven days have passed, when the renewals between the issue and the visit follow each
-- other, and the visit follows the last, at intervals of at most one hour, and nothing else happens.
pub renewal_keeps_alive :
    (hex : Text → Text) (raw : Text) (incident_id start visit : ℕ) (scope : Scope) (ns : List ℕ)
    (i : Incident) (db : Db) {id : ℕ} {db' : Db}
    → issue hex incident_id scope raw start db ≡ ok (id, db')
    → get incident_id db.incidents ≡ some i
    → i.status ≡ open'
    → IsPaced start ns visit
    → visit < start + absolute_lifetime_ms
    → (t : Token) × (resolve_token hex raw visit (renewals ns db') ≡ valid id t)
      × (t.incident_id ≡ incident_id)
unfolding issue add
renewal_keeps_alive hex raw incident_id start visit scope ns i db {id} {db'} h e o paced below =
    let t : Token = record {
      incident_id = incident_id;
      token_hash = hex raw;
      scope = scope;
      expires_at = start + initial_validity_ms;
      absolute_expiry = start + absolute_lifetime_ms;
      revoked_at = none;
      last_accessed_at = none;
      access_count = 0;
    } in
    let new : any (has_hash (hex raw)) db.tokens ≡ false = ground arith in
    let rows : db'.tokens ≡ db.tokens ++ (id, t) ∷ [] = ground arith in
    let found : find (has_hash (hex raw)) db'.tokens ≡ some (id, t) =
      ap (find (has_hash (hex raw))) rows
      ∙ find-append (has_hash (hex raw)) db.tokens ((id, t) ∷ []) new
      ∙ only-row (hex raw) id t refl in
    let same : db'.incidents ≡ db.incidents = ground arith in
    renewals-valid hex raw start visit (start + absolute_lifetime_ms) ns db' i {k = id} {t = t}
      found (ap (get incident_id) same ∙ e) (ap is_open o) (refl, refl, inl (omega arith)) paced
      below
