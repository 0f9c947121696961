-- ===== src/SafeWalk/Guardians.antt =====
-- Whom a SafeWalk transaction notifies.
use opa_security_awareness_a.Common.{
  ℕ, ◌≡◌, refl, sym, ap, subst, ◌∙◌, ◌⊎◌, inl, inr, true, Option, none, some, List, [], ◌∷◌, ◌++◌,
  map, keep, All, >>=-eq-ok, ok, Bool-cases, Option-cases, arith, ltb, append-nil, append_assoc,
  All-keep_self, keep-Memᴰ, Memᴰ,
}
use opa_security_awareness_a.Common.Table.{get}
use opa_security_awareness_a.SafeWalk.Policy.{
  Session, State, closed, satisfied, Escalation, Grant, Audit, Notice, Db, owner_check,
  guardian_overdue, create_audit, settle_safe_walk, settle_rows, cancel_notice,
  guardian_scope_allowed, open_escalation, settled_audit,
}
use opa_security_awareness_a.SafeWalk.Escalation.{
  create_notice, overdue_notice, notify_guardian, notify_guardians, send_check, send_overdue,
  prompt_owner, escalate, advance, process_pending, process_session, is_ineligible, is_confirmed,
  is_pending, is_scheduled, safe_walk_recipient_data, update_escalation, is_live_grant,
  require_check, escalate_row,
}

-- The grant behind a guardian's notice: a row of the table, of this walk and its owner, not revoked,
-- and within the scope of both accounts.
abbrev pub Granted : ℕ → Session → Db → Notice → Type 0
Granted id session db n =
    (k : ℕ) × (g : Grant) × Memᴰ (k, g) db.grants
    × (n.grant_id ≡ some k)
    × (n.recipient_user_id ≡ g.guardian_user_id)
    × (is_live_grant id session (k, g) ≡ true)
    × (guardian_scope_allowed (get session.user_id db.accounts) (get g.guardian_user_id db.accounts)
          g.facility_scope_id
        ≡ true)

-- A new notice goes to the owner, or to a guardian with a grant.
abbrev pub IsJustified : ℕ → Session → Db → Notice → Type 0
IsJustified id session db n =
    (n.session_id ≡ id)
    × (((n.kind ≡ owner_check) × (n.recipient_user_id ≡ session.user_id))
        ⊎ ((n.kind ≡ guardian_overdue) × Granted id session db n))

create_audit-rest :
    (a : Audit) (db : Db) {db' : Db}
    → create_audit a db ≡ ok db'
    → (db'.notices ≡ db.notices) × (db'.accounts ≡ db.accounts)
unfolding create_audit
create_audit-rest a db h = ground arith

create_notice-rest :
    (n : Notice) (db : Db) {db' : Db}
    → create_notice n db ≡ ok db'
    → (db'.notices ≡ db.notices ++ n ∷ []) × (db'.accounts ≡ db.accounts)
unfolding create_notice
create_notice-rest n db h = ground arith

notify_guardian-notices :
    (protect : ℕ → ℕ → Option ℕ) (id k : ℕ) (g : Grant) (now : ℕ) (db : Db) {db' : Db}
    → notify_guardian protect id k g now db ≡ ok db'
    → (n : Notice) × (db'.notices ≡ db.notices ++ n ∷ [])
      × (db'.accounts ≡ db.accounts)
      × (n.session_id ≡ id)
      × (n.kind ≡ guardian_overdue)
      × (n.grant_id ≡ some k)
      × (n.recipient_user_id ≡ g.guardian_user_id)
unfolding notify_guardian overdue_notice
notify_guardian-notices protect id k g now db h =
    let (to, _, h₁) = >>=-eq-ok (safe_walk_recipient_data protect _ _ db) _ h in
    let (db₁, c, f) = >>=-eq-ok (create_notice _ db) _ h₁ in
    let (same, accounts) = create_audit-rest _ db₁ f in
    let (added, before) = create_notice-rest (overdue_notice id k g to now db) db c in
    (overdue_notice id k g to now db, same ∙ added, accounts ∙ before, refl, refl, refl, refl)

-- What a transaction may add to the notices.
abbrev Adds : ℕ → Session → Db → Db → Db → Type 0
Adds id session base db db' =
    (new : List Notice) × (db'.notices ≡ db.notices ++ new) × All (IsJustified id session base) new

notify_guardians-Adds :
    (protect : ℕ → ℕ → Option ℕ) (id : ℕ) (session : Session) (base : Db) (now : ℕ)
    (gs : List (ℕ × Grant)) (db : Db) {db' : Db}
    → db.accounts ≡ base.accounts
    → All (λ e. is_live_grant id session e ≡ true) gs
    → All (λ e. Memᴰ e base.grants) gs
    → notify_guardians protect id (get session.user_id base.accounts) now gs db ≡ ok db'
    → Adds id session base db db'
unfolding notify_guardians
notify_guardians-Adds protect id session base now [] db {db'} same live rows h =
    ([], ground (arith, append-nil db.notices), tt)
notify_guardians-Adds protect id session base now ((k, g) ∷ gs) db {db'} same live rows h =
    let owner = get session.user_id base.accounts in
    elim (Bool-cases
      (guardian_scope_allowed owner (get g.guardian_user_id db.accounts) g.facility_scope_id)) [
        | inr out ↦
            notify_guardians-Adds protect id session base now gs db {db' = db'} same live.1 rows.1
              (ground arith)
        | inl allowed ↦
            let (db₁, e, f) =
              >>=-eq-ok (notify_guardian protect id k g now db)
                (notify_guardians protect id owner now gs) {b = db'} (ground arith) in
            let (n, added, accounts, s, kind, grant, to) =
              notify_guardian-notices protect id k g now db e in
            let (new, rest, all) =
              notify_guardians-Adds protect id session base now gs db₁ {db' = db'} (accounts ∙ same)
                live.1 rows.1 f in
            (
              n ∷ new,
              rest ∙ ap (λ r. r ++ new) added ∙ append_assoc db.notices (n ∷ []) new,
              ((s, inr (kind, (k, g, rows.0, grant, to, live.0, ground arith))), all),
            )
      ]

settle-notices :
    (id now : ℕ) (s : State) (actor : Option ℕ) (db : Db) {db' : Db}
    → settle_safe_walk id now s actor db ≡ ok db'
    → db'.notices ≡ map (cancel_notice id now) db.notices
unfolding settle_safe_walk settle_rows
settle-notices id now s actor db {db'} h =
    elim (Bool-cases (open_escalation (get id db.escalations))) [
      | inl still ↦
          (create_audit-rest (settled_audit id now s actor) (settle_rows id now s db) {db' = db'}
            (ground arith)).0
      | inr shut ↦ ground arith
    ]

send_check-Adds :
    (protect : ℕ → ℕ → Option ℕ) (id : ℕ) (session : Session) (now : ℕ) (db : Db) {db' : Db}
    → send_check protect id session now db ≡ ok db'
    → Adds id session db db db'
unfolding send_check update_escalation
send_check-Adds protect id session now db h =
    let (to, _, h₁) = >>=-eq-ok (safe_walk_recipient_data protect _ _ db) _ h in
    let (db₁, c, f) = >>=-eq-ok (create_notice _ db) _ h₁ in
    let (same, _) = create_audit-rest _ (update_escalation id (require_check now) db₁) f in
    let (added, _) = create_notice-rest _ db c in (_, same ∙ added, ((refl, inl (refl, refl)), tt))

send_overdue-Adds :
    (protect : ℕ → ℕ → Option ℕ) (id : ℕ) (session : Session) (now : ℕ) (db : Db) {db' : Db}
    → send_overdue protect id session (get session.user_id db.accounts) now db ≡ ok db'
    → Adds id session db db db'
unfolding send_overdue update_escalation
send_overdue-Adds protect id session now db h =
    let grants = keep (is_live_grant id session) db.grants in
    let owner = get session.user_id db.accounts in
    let (db₁, c, f) = >>=-eq-ok (notify_guardians protect id owner now grants db) _ h in
    let (same, _) = create_audit-rest _ (update_escalation id (escalate_row now) db₁) f in
    let (new, added, all) =
      notify_guardians-Adds protect id session db now grants db refl
        (All-keep_self (is_live_grant id session) db.grants)
        (keep-Memᴰ (is_live_grant id session) db.grants) c in
    (new, same ∙ added, all)

nothing-Adds :
    (id : ℕ) (session : Session) (db : Db) {db' : Db} → db ≡ db' → Adds id session db db db'
nothing-Adds id session db q = subst (Adds id session db db) q ([], sym (append-nil db.notices), tt)

advance-Adds :
    (protect : ℕ → ℕ → Option ℕ) (id : ℕ) (session : Session) (e : Escalation) (t now : ℕ) (db : Db)
    {db' : Db}
    → advance protect id session (get session.user_id db.accounts) e t now db ≡ ok db'
    → Adds id session db db db'
unfolding advance prompt_owner escalate
advance-Adds protect id session e t now db {db'} h = elim (Bool-cases (is_scheduled e.state)) [
  | inl s ↦ elim (Bool-cases (ltb now e.check_due_at)) [
    | inl early ↦ nothing-Adds id session db {db' = db'} (ground arith)
    | inr due ↦ send_check-Adds protect id session now db {db' = db'} (ground arith)
  ]
  | inr s ↦ elim (Option-cases e.response_due_at) [
    | inl n ↦ nothing-Adds id session db {db' = db'} (ground arith)
    | inr (due, d) ↦ elim (Bool-cases (ltb now due)) [
      | inl early ↦ nothing-Adds id session db {db' = db'} (ground arith)
      | inr late ↦ send_overdue-Adds protect id session now db {db' = db'} (ground arith)
    ]
  ]
]

-- A transaction on a walk either cancels open notices of that walk and adds none, or keeps every
-- notice and adds notices each of which goes to the walk's owner, or to a guardian by a grant in the
-- table that the owner made for this walk and did not revoke, with both accounts active and in the grant's
-- scope.
pub process_session-notices :
    (protect : ℕ → ℕ → Option ℕ) (id now : ℕ) (session : Session) (db : Db) {db' : Db}
    → get id db.sessions ≡ some session
    → process_session protect id now db ≡ ok db'
    → (db'.notices ≡ map (cancel_notice id now) db.notices)
      ⊎ ((new : List Notice) × (db'.notices ≡ db.notices ++ new)
          × All (IsJustified id session db) new)
unfolding process_session process_pending
process_session-notices protect id now session db {db'} g h =
    elim (Option-cases (get id db.escalations)) [
      | inl n ↦ inr (nothing-Adds id session db {db' = db'} (ground arith))
      | inr (e, f) ↦ elim (Bool-cases (is_pending e.state)) [
        | inr p ↦ inr (nothing-Adds id session db {db' = db'} (ground arith))
        | inl p ↦ elim (Bool-cases (is_ineligible session (get session.user_id db.accounts))) [
          | inl i ↦ inl (settle-notices id now closed none db {db' = db'} (ground arith))
          | inr i ↦ elim (Bool-cases (is_confirmed session)) [
            | inl c ↦ inl (
                settle-notices id now satisfied (some session.user_id) db {db' = db'}
                  (ground arith))
            | inr c ↦ elim (Option-cases session.expected_arrival_at) [
              | inl n ↦ inr (nothing-Adds id session db {db' = db'} (ground arith))
              | inr (t, x) ↦
                  inr (advance-Adds protect id session e t now db {db' = db'} (ground arith))
            ]
          ]
        ]
      ]
    ]
