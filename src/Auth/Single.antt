-- ===== src/Auth/Single.antt =====
-- Credentials that work once.
use opa_security_awareness_a.Common.{
  ℕ, ◌≤◌, ◌≡◌, refl, ap, ◌∙◌, inl, inr, Bool, true, false, none, some, [], ◌∷◌, find, keep, length,
  ok, err, Result-cases, Bool-cases, Option-cases, arith, ◌==◌, if◌then◌else◌,
}
use opa_security_awareness_a.Common.Text.{Text, text_eq, trim}
use opa_security_awareness_a.Common.Table.{Table, get, modify, update_where, get-update_where}
use opa_security_awareness_a.Auth.Accounts.{
  User, ResetToken, Db, reset_failed, activation_failed, Jwt, Bcrypt, Host,
}
use opa_security_awareness_a.Auth.Tokens.{Tokens, Profile}
use opa_security_awareness_a.Auth.Credentials.{
  has_token, may_reset, is_outstanding, consume, apply_reset, confirm_reset,
  normalize_activation_credential, has_activation, may_activate, activated, activate,
}
use opa_security_awareness_a.Auth.Outcomes.{confirm_reset-Resets, activate-Activates}

find-update_where :
    (hash : Text) (p : ℕ → ResetToken → Bool) (now : ℕ) (t : Table ResetToken) {k : ℕ}
    {r : ResetToken}
    → find (has_token hash) t ≡ some (k, r)
    → (r' : ResetToken) × (find (has_token hash) (update_where p (consume now) t) ≡ some (k, r'))
unfolding update_where has_token
find-update_where hash p now [] h = cc
find-update_where hash p now ((j, w) ∷ t) {k} {r} h =
    elim (Bool-cases (text_eq w.token_hash hash)) [
      | inl hit ↦ elim (Bool-cases (p j w)) [
        | inl c ↦ (consume now w, ground arith)
        | inr c ↦ (w, ground arith)
      ]
      | inr miss ↦
          let (r', e) = find-update_where hash p now t {k = k} {r = r} (ground arith) in
          (r', ground (arith, e))
    ]

reset-error :
    (host : Host) (bcrypt : Bcrypt) (token password salt : Text) (now : ℕ) (db : Db) {x : _}
    → confirm_reset host bcrypt token password salt now db ≡ err x
    → x ≡ reset_failed
unfolding confirm_reset
reset-error host bcrypt token password salt now db {x} h =
    elim (Option-cases (find (has_token (host.hex (trim token))) db.resets)) [
      | inl n ↦ ground arith
      | inr ((k, found), e) ↦ elim (Option-cases (get k db.resets)) [
        | inl n ↦ ground arith
        | inr (r, f) ↦ elim (Option-cases (get r.user_id db.users)) [
          | inl n ↦ ground arith
          | inr (u, g) ↦ ground arith
        ]
      ]
    ]

activate-error :
    (jwt : Jwt) (host : Host) (bcrypt : Bcrypt) (token password salt : Text) (now : ℕ) (db : Db)
    {x : _}
    → activate jwt host bcrypt token password salt now db ≡ err x
    → x ≡ activation_failed
unfolding activate
activate-error jwt host bcrypt token password salt now db {x} h =
    elim (Option-cases
      (find (has_activation (host.hex (normalize_activation_credential host token))) db.users)) [
        | inl n ↦ ground arith
        | inr ((k, found), e) ↦ elim (Option-cases (get k db.users)) [
          | inl n ↦ ground arith
          | inr (u, f) ↦ ground arith
        ]
      ]

consumed :
    (id j now now' : ℕ) (s r : ResetToken) (u : User) (hash : Text)
    → s.user_id ≡ id
    → r ≡ (if is_outstanding id j s then consume now s else s)
    → ¬ (may_reset hash now' r u ≡ true)
unfolding may_reset is_outstanding
consumed id j now now' s r u hash own copy may = elim (Option-cases s.consumed_at) [
  | inl n ↦ ground arith
  | inr (t, e) ↦ ground arith
]

-- A reset uses up every outstanding reset token of its account: after it, no token of that account
-- that was stored before resets a password again, the one that was used included, whatever
-- password, salt and time it is sent with.
pub reset_once :
    (host : Host) (bcrypt : Bcrypt) (token password salt other password' salt' : Text)
    (now now' id k j : ℕ) (r s : ResetToken) (db : Db) {db' : Db}
    → find (has_token (host.hex (trim token))) db.resets ≡ some (k, r)
    → get k db.resets ≡ some r
    → r.user_id ≡ id
    → confirm_reset host bcrypt token password salt now db ≡ ok db'
    → find (has_token (host.hex (trim other))) db.resets ≡ some (j, s)
    → get j db.resets ≡ some s
    → s.user_id ≡ id
    → confirm_reset host bcrypt other password' salt' now' db' ≡ err reset_failed
unfolding apply_reset is_outstanding
reset_once host bcrypt token password salt other password' salt' now now' id k j r s db {db'} found
      f own h found' f' own' =
    let (k', r', (v, e, f'', g, may, q)) =
      confirm_reset-Resets host bcrypt token password salt now db {db' = db'} h in
    let row : r'.user_id ≡ id = ground (arith, e.1) in
    let rows : db'.resets ≡ update_where (is_outstanding id) (consume now) db.resets =
      ground arith in
    let (s', look) =
      find-update_where (host.hex (trim other)) (is_outstanding id) now db.resets {k = j} {r = s}
        found' in
    let read = get-update_where j (is_outstanding id) (consume now) db.resets {a = s} f' in
    elim (Result-cases (confirm_reset host bcrypt other password' salt' now' db')) [
      | inr (x, failed) ↦
          failed ∙ ap err (reset-error host bcrypt other password' salt' now' db' failed)
      | inl (db₂, again) ↦
          let (k₂, r₂, (v₂, e₂, f₂, g₂, may₂, q₂)) =
            confirm_reset-Resets host bcrypt other password' salt' now' db' {db' = db₂} again in
          let same : k₂ ≡ j = ground (arith, e₂.1) in
          let stored : get j db'.resets
              ≡ some (if is_outstanding id j s then consume now s else s) =
            ap (get j) rows ∙ read in
          let copy : r₂ ≡ (if is_outstanding id j s then consume now s else s) = ground arith in
          absurd (consumed id j now now' s r₂ v₂ (host.hex (trim other)) own' copy may₂)
    ]

-- The unique index on the hash: at most one account holds it.
abbrev pub IsUnique : Text → Db → Type 0
IsUnique hash db = length (keep (has_activation hash) db.users) ≤ 1

module _ (p : ℕ × User → Bool) where
  found-counts :
      (k : ℕ) (t : Table User) {u : User}
      → get k t ≡ some u
      → p (k, u) ≡ true
      → 1 ≤ length (keep p t)
  unfolding get
  found-counts k [] e h = cc
  found-counts k ((j, w) ∷ t) {u} e h = elim (Bool-cases (j == k)) [
    | inl c ↦
        let a : j ≡ k = ground arith in
        let b : w ≡ u = ground arith in
        let hit : p (j, w) ≡ true = ap (λ x. p (x, w)) a ∙ ap (λ x. p (k, x)) b ∙ h in ground arith
    | inr c ↦ ground (arith, found-counts k t {u = u} (ground arith) h)
  ]

  none-modify :
      (k : ℕ) (f : User → User) (t : Table User)
      → ((j : ℕ) (w : User) → p (j, f w) ≡ false)
      → length (keep p t) ≡ 0
      → find p (modify k f t) ≡ none
  unfolding modify
  none-modify k f [] off h = refl
  none-modify k f ((j, w) ∷ t) off h = ground (arith, off j w, none-modify k f t off)

  once-modify :
      (k : ℕ) (f : User → User) (t : Table User) {u : User}
      → ((j : ℕ) (w : User) → p (j, f w) ≡ false)
      → get k t ≡ some u
      → p (k, u) ≡ true
      → length (keep p t) ≤ 1
      → find p (modify k f t) ≡ none
  unfolding get modify
  once-modify k f [] off e h one = cc
  once-modify k f ((j, w) ∷ t) {u} off e h one = elim (Bool-cases (j == k)) [
    | inl c ↦
        let a : j ≡ k = ground arith in
        let b : w ≡ u = ground arith in
        let hit : p (j, w) ≡ true = ap (λ x. p (x, w)) a ∙ ap (λ x. p (k, x)) b ∙ h in
        ground (arith, off j w, none-modify k f t off)
    | inr c ↦
        let later : get k t ≡ some u = ground arith in
        ground (arith, found-counts k t {u = u} later h, once-modify k f t {u = u} off later h)
  ]

activated-off :
    (hash password_hash : Text) (now j : ℕ) (w : User)
    → has_activation hash (j, activated password_hash now w) ≡ false
unfolding has_activation activated
activated-off hash password_hash now j w = refl

activating :
    (hash : Text) (now k : ℕ) (u : User)
    → may_activate hash now u ≡ true
    → has_activation hash (k, u) ≡ true
unfolding may_activate has_activation
activating hash now k u h = ground arith

-- An activation credential works once: after an activation that succeeded, the same credential is
-- refused, whatever password it is sent with and whenever, as long as no two accounts hold its hash.
pub activate_once :
    (jwt : Jwt) (host : Host) (bcrypt : Bcrypt) (token password salt password' salt' : Text)
    (now now' : ℕ) (db : Db) {s : Tokens × Profile} {db' : Db}
    → IsUnique (host.hex (normalize_activation_credential host token)) db
    → activate jwt host bcrypt token password salt now db ≡ ok (s, db')
    → activate jwt host bcrypt token password' salt' now' db' ≡ err activation_failed
activate_once jwt host bcrypt token password salt password' salt' now now' db {s} {db'} unique h =
    let hash = host.hex (normalize_activation_credential host token) in
    let (k, u, (found, f, may, t, q)) =
      activate-Activates jwt host bcrypt token password salt now db {s = s} {db' = db'} h in
    let gone : find (has_activation hash) db'.users ≡ none =
      ap (λ (x : Db). find (has_activation hash) x.users) q
      ∙ once-modify (has_activation hash) k (activated (bcrypt.hash salt password) now) db.users
          {u = u} (activated-off hash (bcrypt.hash salt password) now) f
          (activating hash now k u may) unique in
    elim (Result-cases (activate jwt host bcrypt token password' salt' now' db')) [
      | inr (x, failed) ↦
          failed ∙ ap err (activate-error jwt host bcrypt token password' salt' now' db' failed)
      | inl ((s₂, db₂), again) ↦
          let (k₂, u₂, (found₂, f₂, may₂, t₂, q₂)) =
            activate-Activates jwt host bcrypt token password' salt' now' db' {s = s₂} {db' = db₂}
              again in
          ground (arith, found₂.1, gone)
    ]
