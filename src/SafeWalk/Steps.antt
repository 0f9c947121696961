-- ===== src/SafeWalk/Steps.antt =====
-- The steps that a transaction takes in the table of walks.
use opa_security_awareness_a.Common.{
  ℕ, ◌≤◌, ◌≡◌, refl, ap, subst, ◌∙◌, ◌⊎◌, inl, inr, true, Option, none, some, List, [], ◌∷◌,
  >>=-eq-ok, ok, Bool-cases, Option-cases, arith, ltb, ◌==◌,
}
use opa_security_awareness_a.Common.Table.{get, modify, get-modify}
use opa_security_awareness_a.SafeWalk.Policy.{
  Account, Session, State, scheduled, check_required, satisfied, closed, is_settled, Escalation,
  Grant, Audit, Notice, Db, create_audit, settle_safe_walk, settle_rows, settle_escalation,
  open_escalation, settled_audit,
}
use opa_security_awareness_a.SafeWalk.Escalation.{
  create_notice, require_check, send_check, send_overdue, escalate_row, update_escalation,
  prompt_owner, notify_guardian, notify_guardians, escalate, advance, process_pending,
  process_session, is_pending, is_scheduled, safe_walk_recipient_data, is_ineligible, is_confirmed,
}

-- One step of a walk at the time `now`.
pub data Moves (now : ℕ) (e : Escalation) : Escalation → Type 0 where
  asks : e.state ≡ scheduled → e.check_due_at ≤ now → Moves now e (require_check now e)
  escalates :
      (due : ℕ)
      → e.state ≡ check_required
      → e.response_due_at ≡ some due
      → due ≤ now
      → Moves now e (escalate_row now e)
  settles : (s : State) → is_settled s ≡ true → Moves now e (settle_escalation s now e)

create_audit-escalations :
    (a : Audit) (db : Db) {db' : Db} → create_audit a db ≡ ok db' → db'.escalations ≡ db.escalations
unfolding create_audit
create_audit-escalations a db h = ground arith

create_notice-escalations :
    (n : Notice) (db : Db) {db' : Db}
    → create_notice n db ≡ ok db'
    → db'.escalations ≡ db.escalations
unfolding create_notice
create_notice-escalations n db h = ground arith

notify_guardian-escalations :
    (protect : ℕ → ℕ → Option ℕ) (id k : ℕ) (g : Grant) (now : ℕ) (db : Db) {db' : Db}
    → notify_guardian protect id k g now db ≡ ok db'
    → db'.escalations ≡ db.escalations
unfolding notify_guardian
notify_guardian-escalations protect id k g now db h =
    let (to, _, h₁) = >>=-eq-ok (safe_walk_recipient_data protect _ _ db) _ h in
    let (db₁, e, f) = >>=-eq-ok (create_notice _ db) _ h₁ in
    create_audit-escalations _ db₁ f ∙ create_notice-escalations _ db e

notify_guardians-escalations :
    (protect : ℕ → ℕ → Option ℕ) (id : ℕ) (owner : Option Account) (now : ℕ) (gs : List (ℕ × Grant))
    (db : Db) {db' : Db}
    → notify_guardians protect id owner now gs db ≡ ok db'
    → db'.escalations ≡ db.escalations
unfolding notify_guardians
notify_guardians-escalations protect id owner now [] db h = ground arith
notify_guardians-escalations protect id owner now ((k, g) ∷ gs) db h =
    let (db₁, e, f) = >>=-eq-ok _ (notify_guardians protect id owner now gs) h in
    notify_guardians-escalations protect id owner now gs db₁ f
    ∙ ground (arith, notify_guardian-escalations protect id k g now db {db' = db₁})

-- What a successful transaction did to the table of walks.
abbrev Effect : ℕ → ℕ → Escalation → Db → Db → Type 0
Effect id now e db db' =
    (db'.escalations ≡ db.escalations)
    ⊎ ((f : Escalation → Escalation) × (db'.escalations ≡ modify id f db.escalations)
        × Moves now e (f e))

settle-Effect :
    (id now : ℕ) (s : State) (actor : Option ℕ) (e : Escalation) (db : Db) {db' : Db}
    → is_settled s ≡ true
    → settle_safe_walk id now s actor db ≡ ok db'
    → Effect id now e db db'
unfolding settle_safe_walk settle_rows
settle-Effect id now s actor e db {db'} t h = inr (
  settle_escalation s now,
  (elim (Bool-cases (open_escalation (get id db.escalations))) [
    | inl still ↦
        create_audit-escalations (settled_audit id now s actor) (settle_rows id now s db)
          {db' = db'} (ground arith)
    | inr shut ↦ ground arith
  ]),
  settles s t,
)

send_check-escalations :
    (protect : ℕ → ℕ → Option ℕ) (id : ℕ) (session : Session) (now : ℕ) (db : Db) {db' : Db}
    → send_check protect id session now db ≡ ok db'
    → db'.escalations ≡ modify id (require_check now) db.escalations
unfolding send_check update_escalation
send_check-escalations protect id session now db h =
    let (to, _, h₁) = >>=-eq-ok (safe_walk_recipient_data protect _ _ db) _ h in
    let (db₁, c, f) = >>=-eq-ok (create_notice _ db) _ h₁ in
    create_audit-escalations _ (update_escalation id (require_check now) db₁) f
    ∙ ap (modify id (require_check now)) (create_notice-escalations _ db c)

send_overdue-escalations :
    (protect : ℕ → ℕ → Option ℕ) (id : ℕ) (session : Session) (owner : Option Account) (now : ℕ)
    (db : Db) {db' : Db}
    → send_overdue protect id session owner now db ≡ ok db'
    → db'.escalations ≡ modify id (escalate_row now) db.escalations
unfolding send_overdue update_escalation
send_overdue-escalations protect id session owner now db h =
    let (db₁, c, f) = >>=-eq-ok (notify_guardians protect id owner now _ db) _ h in
    create_audit-escalations _ (update_escalation id (escalate_row now) db₁) f
    ∙ ap (modify id (escalate_row now)) (notify_guardians-escalations protect id owner now _ db c)

prompt_owner-Effect :
    (protect : ℕ → ℕ → Option ℕ) (id : ℕ) (session : Session) (e : Escalation) (now : ℕ) (db : Db)
    {db' : Db}
    → e.state ≡ scheduled
    → prompt_owner protect id session e now db ≡ ok db'
    → Effect id now e db db'
unfolding prompt_owner
prompt_owner-Effect protect id session e now db {db'} s h =
    elim (Bool-cases (ltb now e.check_due_at)) [
      | inl early ↦ inl (ground arith)
      | inr due ↦ inr (
        require_check now,
        send_check-escalations protect id session now db {db' = db'} (ground arith),
        asks s (ground arith),
      )
    ]

escalate-Effect :
    (protect : ℕ → ℕ → Option ℕ) (id : ℕ) (session : Session) (owner : Option Account)
    (e : Escalation) (now : ℕ) (db : Db) {db' : Db}
    → e.state ≡ check_required
    → escalate protect id session owner e now db ≡ ok db'
    → Effect id now e db db'
unfolding escalate
escalate-Effect protect id session owner e now db {db'} s h =
    elim (Option-cases e.response_due_at) [
      | inl n ↦ inl (ground arith)
      | inr (due, d) ↦ elim (Bool-cases (ltb now due)) [
        | inl early ↦ inl (ground arith)
        | inr reached ↦ inr (
          escalate_row now,
          send_overdue-escalations protect id session owner now db {db' = db'} (ground arith),
          escalates due s d (ground arith),
        )
      ]
    ]

process_pending-Effect :
    (protect : ℕ → ℕ → Option ℕ) (id : ℕ) (session : Session) (e : Escalation) (now : ℕ) (db : Db)
    {db' : Db}
    → is_pending e.state ≡ true
    → process_pending protect id session e now db ≡ ok db'
    → Effect id now e db db'
unfolding process_pending advance
process_pending-Effect protect id session e now db {db'} p h =
    let owner = get session.user_id db.accounts in
    elim (Bool-cases (is_ineligible session owner)) [
      | inl i ↦ settle-Effect id now closed none e db {db' = db'} refl (ground arith)
      | inr i ↦ elim (Bool-cases (is_confirmed session)) [
        | inl c ↦
            settle-Effect id now satisfied (some session.user_id) e db {db' = db'} refl
              (ground arith)
        | inr c ↦ elim (Option-cases session.expected_arrival_at) [
          | inl n ↦ inl (ground arith)
          | inr (t, x) ↦ elim (Bool-cases (is_scheduled e.state)) [
            | inl s ↦
                prompt_owner-Effect protect id session e now db {db' = db'} (ground arith)
                  (ground arith)
            | inr s ↦
                escalate-Effect protect id session owner e now db {db' = db'} (ground arith)
                  (ground arith)
          ]
        ]
      ]
    ]

process_session-Effect :
    (protect : ℕ → ℕ → Option ℕ) (id now : ℕ) (db : Db) {db' : Db}
    → process_session protect id now db ≡ ok db'
    → (db'.escalations ≡ db.escalations)
      ⊎ ((e : Escalation) × (get id db.escalations ≡ some e)
          × (is_pending e.state ≡ true)
          × Effect id now e db db')
unfolding process_session
process_session-Effect protect id now db {db'} h = elim (Option-cases (get id db.sessions)) [
  | inl n ↦ inl (ground arith)
  | inr (session, s) ↦ elim (Option-cases (get id db.escalations)) [
    | inl n ↦ inl (ground arith)
    | inr (e, f) ↦ elim (Bool-cases (is_pending e.state)) [
      | inr p ↦ inl (ground arith)
      | inl p ↦
          inr (
            e,
            f,
            p,
            process_pending-Effect protect id session e now db {db' = db'} p (ground arith),
          )
    ]
  ]
]

-- What a run does to one walk: nothing, or one step from a pending state.
abbrev pub MaybeMoves : ℕ → Escalation → Escalation → Type 0
MaybeMoves now e e' = (e' ≡ e) ⊎ ((is_pending e.state ≡ true) × Moves now e e')

pub process_session-row :
    (protect : ℕ → ℕ → Option ℕ) (id now k : ℕ) (db : Db) {db' : Db} (e : Escalation)
    → process_session protect id now db ≡ ok db'
    → get k db.escalations ≡ some e
    → (e' : Escalation) × (get k db'.escalations ≡ some e') × MaybeMoves now e e'
process_session-row protect id now k db {db'} e h g =
    elim (process_session-Effect protect id now db h) [
      | inl q ↦ (e, ap (get k) q ∙ g, inl refl)
      | inr (e₀, f, p, inl q) ↦ (e, ap (get k) q ∙ g, inl refl)
      | inr (e₀, f, p, inr (step, q, m)) ↦
          let row = ap (get k) q ∙ get-modify k id step db.escalations in
          (elim (Bool-cases (id == k)) [
            | inl same ↦
                let here : e₀ ≡ e = ground arith in
                (
                  step e,
                  ground arith,
                  inr (subst (λ x. (is_pending x.state ≡ true) × Moves now x (step x)) here (p, m)),
                )
            | inr other ↦ (e, ground arith, inl refl)
          ])
    ]
