-- ===== src/SafeWalk/Sending.antt =====
-- Two workers at one notice.
use opa_security_awareness_a.Common.{
  ℕ, ◌≡◌, refl, ap, ◌∙◌, subst, inl, inr, false, Option, none, some, find, ok, arith, Bool-cases,
  Option-cases, Result-cases,
}
use opa_security_awareness_a.Common.Text.{Text}
use opa_security_awareness_a.Common.Table.{get}
use opa_security_awareness_a.SafeWalk.Policy.{Notice, create_audit}
use opa_security_awareness_a.SafeWalk.Dispatch.{
  Db, has_id, waits, open_row, parent, Work, audit_claim, open_notice, is_allowed,
  authorize_dispatch, Outcome, dispatch_candidate,
}
use opa_security_awareness_a.Delivery.Policy.{Environment, NotificationStatus}
use opa_security_awareness_a.Delivery.Ledger.{Row, lock}
use opa_security_awareness_a.Delivery.Claim.{claim, is_waiting}
use opa_security_awareness_a.Delivery.Schedule.{claim_effect}
use opa_security_awareness_a.SafeWalk.Withheld.{IsSilent, dispatch_candidate-IsSilent}

authorize-claim :
    (env : Environment) (worker_id : Text) (session_id id now : ℕ) (db : Db) {work : Work}
    {db' : Db}
    → authorize_dispatch env worker_id session_id id now db ≡ ok (some work, db')
    → (a : ℕ) × (claim env worker_id (parent id) now db.ledger ≡ ok (some a, db'.ledger))
unfolding authorize_dispatch audit_claim create_audit
authorize-claim env worker_id session_id id now db {work} {db'} h =
    elim (Option-cases (get session_id db.walks.sessions)) [
      | inl e ↦ absurd (ground arith)
      | inr (s, e) ↦ elim (Option-cases (open_notice id db)) [
        | inl f ↦ absurd (ground arith)
        | inr (n, f) ↦ elim (Bool-cases (is_allowed session_id n s db.walks)) [
          | inr b ↦ absurd (ground arith)
          | inl b ↦ elim (Result-cases (claim env worker_id (parent id) now db.ledger)) [
            | inr (x, g) ↦ absurd (ground arith)
            | inl ((none, l), g) ↦ absurd (ground arith)
            | inl ((some a, l), g) ↦
                let same : l ≡ db'.ledger = ground arith in
                (
                  a,
                  subst (λ x. claim env worker_id (parent id) now db.ledger ≡ ok (some a, x)) same
                      g,
                )
          ]
        ]
      ]
    ]

open_row-shut : (x : Option Notice) → open_row x false ≡ none
unfolding open_row
open_row-shut none = refl
open_row-shut (some n) = ground arith

sending-not-open :
    (id : ℕ) (db : Db) {r : Row}
    → lock (parent id) db.ledger ≡ some r
    → r.status ≡ NotificationStatus.sending
    → open_notice id db ≡ none
unfolding open_notice
sending-not-open id db {r} e q =
    ap (open_row (find (has_id id) db.walks.notices)) (ap waits e ∙ ap is_waiting q)
    ∙ open_row-shut (find (has_id id) db.walks.notices)

-- Of two workers that hold one candidate, only one sends it: once a transaction has authorized a
-- dispatch, a second worker that goes on before the answer of the provider is recorded sends nothing
-- and claims no attempt, whatever its clock and its settings.
pub authorized_once :
    (env : Environment) (first : Text) (session_id now : ℕ) (c : Notice) (db : Db) {work : Work}
    {db' : Db}
    → authorize_dispatch env first session_id c.id now db ≡ ok (some work, db')
    → (env' : Environment) (second : Text) (open_snapshot : ℕ → ℕ → ℕ → Option Text)
      (send : Text → Text → Outcome) (later : ℕ)
    → IsSilent (dispatch_candidate env' second open_snapshot send c later db') db'
authorized_once env first session_id now c db {work} {db'} h env' second open_snapshot send later =
    let (a, claimed) =
      authorize-claim env first session_id c.id now db {work = work} {db' = db'} h in
    let (r, s, _, locked, _, _, _, _, sending, _, _, _) =
      claim_effect env first (parent c.id) now db.ledger {id = a} {db' = db'.ledger} claimed in
    let shut = sending-not-open c.id db' {r = s} locked sending in
    dispatch_candidate-IsSilent env' second open_snapshot send c later db'
      (λ t n e f. absurd (ground (arith, shut, f)))
