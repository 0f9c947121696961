-- ===== src/SafeWalk/Deadlines.antt =====
-- When a walk moves on: not before its deadlines, and never once it is settled.
use opa_security_awareness_a.Common.{
  ℕ, ◌+◌, ◌≤◌, ◌≡◌, refl, sym, ap, subst, ◌∙◌, ◌⊎◌, inl, inr, true, Option, some, List, [], ◌∷◌,
  max, Result-cases, arith,
}
use opa_security_awareness_a.Common.Table.{get}
use opa_security_awareness_a.SafeWalk.Policy.{
  State, scheduled, check_required, escalated, satisfied, closed, is_settled, Escalation, Db,
  settle_escalation, response_deadline, response_ms,
}
use opa_security_awareness_a.SafeWalk.Escalation.{
  require_check, process_session, process_sessions, run_batch, is_pending,
}
use opa_security_awareness_a.SafeWalk.Steps.{
  Moves, asks, escalates, settles, MaybeMoves, process_session-row,
}

-- A walk that was asked: when, and by when an answer is due.
abbrev Asked : Escalation → Type 0
Asked e =
    (asked due : ℕ) × (e.check_required_at ≡ some asked)
    × (e.response_due_at ≡ some due)
    × (e.check_due_at ≤ asked)
    × (asked + response_ms ≤ due)
    × (e.guardian_due_at ≤ due)

-- The times of a walk, by its state: an owner who was asked has three minutes at least, counted from
-- the prompt, and until the scheduled time of the guardians' notice at least; an escalated walk was
-- asked, and that time had passed.
abbrev TimelyIn : State → Escalation → Type 0
TimelyIn check_required e = Asked e
TimelyIn escalated e =
    Asked e
    × ((due at : ℕ) × (e.response_due_at ≡ some due) × (e.escalated_at ≡ some at) × (due ≤ at))
TimelyIn _ e = Unit

abbrev pub IsTimely : Escalation → Type 0
IsTimely e = TimelyIn e.state e

IsTimely-Asked : (e : Escalation) → e.state ≡ check_required → IsTimely e → Asked e
IsTimely-Asked e h t = subst (λ s. TimelyIn s e) h t

settled-IsTimely : (e : Escalation) → is_settled e.state ≡ true → IsTimely e
settled-IsTimely e h = settled_in e.state h
  where
    settled_in : (s : State) → is_settled s ≡ true → TimelyIn s e
    settled_in scheduled k = tt
    settled_in check_required k = cc
    settled_in escalated k = cc
    settled_in satisfied k = tt
    settled_in closed k = tt

Moves-IsTimely : (now : ℕ) (e e' : Escalation) → Moves now e e' → IsTimely e → IsTimely e'
unfolding require_check response_deadline settle_escalation
Moves-IsTimely now e _ (asks s due) t =
    (now, max e.guardian_due_at (now + response_ms), refl, refl, due, omega arith, omega arith)
Moves-IsTimely now e _ (escalates due s d r) t = (IsTimely-Asked e s t, (due, now, d, refl, r))
Moves-IsTimely now e _ (settles s k) t = settled-IsTimely (settle_escalation s now e) (ground arith)

-- A walk that is not pending stays as it is; one whose times are right keeps right times.
abbrev Kept : Escalation → Escalation → Type 0
Kept e e' = IsTimely e' × ((is_pending e.state ≡ true) ⊎ (e' ≡ e))

MaybeMoves-Kept : (now : ℕ) (e e' : Escalation) → MaybeMoves now e e' → IsTimely e → Kept e e'
MaybeMoves-Kept now e e' (inl q) t = (subst IsTimely (sym q) t, inr q)
MaybeMoves-Kept now e e' (inr (p, m)) t = (Moves-IsTimely now e e' m t, inl p)

Kept-trans : (e f g : Escalation) → Kept e f → Kept f g → Kept e g
Kept-trans e f g (_, inl p) (t, _) = (t, inl p)
Kept-trans e f g (_, inr q) (t, inl p) = (t, inl (ap (λ x. is_pending x.state) (sym q) ∙ p))
Kept-trans e f g (_, inr q) (t, inr r) = (t, inr (r ∙ q))

process_sessions-Kept :
    (protect : ℕ → ℕ → Option ℕ) (ids : List ℕ) (now k : ℕ) (db : Db) (e : Escalation)
    → get k db.escalations ≡ some e
    → IsTimely e
    → (e' : Escalation) × (get k (process_sessions protect ids now db).escalations ≡ some e')
      × Kept e e'
unfolding process_sessions
process_sessions-Kept protect [] now k db e g t = (e, g, (t, inr refl))
process_sessions-Kept protect (id ∷ ids) now k db e g t =
    elim (Result-cases (process_session protect id now db)) [
      | inr (x, f) ↦
          let (e', there, kept) = process_sessions-Kept protect ids now k db e g t in
          (e', ground arith, kept)
      | inl (db₁, f) ↦
          let (e₁, at, moved) = process_session-row protect id now k db e f g in
          let first = MaybeMoves-Kept now e e₁ moved t in
          let (e', there, rest) = process_sessions-Kept protect ids now k db₁ e₁ at first.0 in
          (e', ground arith, Kept-trans e e₁ e' first rest)
    ]

-- The interval runs a batch at each of the given times.
unfoldable pub run_batches : (ℕ → ℕ → Option ℕ) → List ℕ → Db → Db
run_batches protect [] db = db
run_batches protect (now ∷ times) db = run_batches protect times (run_batch protect now db)

-- Whatever batches run and whenever: a walk whose recorded times are right stays there with right
-- times, so that it is escalated only after its owner was asked, had three minutes at least from
-- that prompt, and let the answer's deadline pass; and a walk that is escalated, satisfied or closed
-- is not touched.
pub run_batches-IsTimely :
    (protect : ℕ → ℕ → Option ℕ) (times : List ℕ) (k : ℕ) (db : Db) (e : Escalation)
    → get k db.escalations ≡ some e
    → IsTimely e
    → (e' : Escalation) × (get k (run_batches protect times db).escalations ≡ some e')
      × IsTimely e'
      × ((is_pending e.state ≡ true) ⊎ (e' ≡ e))
unfolding run_batches run_batch
run_batches-IsTimely protect [] k db e g t = (e, g, t, inr refl)
run_batches-IsTimely protect (now ∷ times) k db e g t =
    let (e₁, at, first) = process_sessions-Kept protect _ now k db e g t in
    let (e', there, timely, rest) =
      run_batches-IsTimely protect times k (run_batch protect now db) e₁ at first.0 in
    let kept = Kept-trans e e₁ e' first (timely, rest) in (e', there, kept.0, kept.1)
