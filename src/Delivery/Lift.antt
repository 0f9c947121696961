-- ===== src/Delivery/Lift.antt =====
-- From what each operation does to one row to what it does to every row of the ledger.
use opa_security_awareness_a.Common.{
  ℕ, ◌+◌, ◌≡◌, sym, ap, ◌∙◌, subst, inl, inr, true, false, Option, none, some, arith, Bool-cases,
  Option-cases, Result-cases, ok,
}
use opa_security_awareness_a.Common.Text.{Text}
use opa_security_awareness_a.Common.Table.{get}
use opa_security_awareness_a.Delivery.Policy.{Environment, provider_identity, retry_delay}
use opa_security_awareness_a.Delivery.Ledger.{
  DeliveryOwner, Row, Attempt, StatusEvent, Db, Projection, no_change, lock, project, write,
  record_event, update_attempt, owner, number_taken,
}
use opa_security_awareness_a.Delivery.Claim.{
  is_claimable, new_attempt, claim_projection, begin_attempt, create_attempt, record_start, claim,
  started_event, reject_in_transaction,
}
use opa_security_awareness_a.Delivery.Complete.{
  Response, first_accepted, accepted_only, record_retry, complete_attempt, completed_event,
  complete_projection, is_superseded, project_completion, complete_locked, complete,
  store_reference, valid_message_id, is_settled, is_retryable,
}
use opa_security_awareness_a.Delivery.Same.{
  create_attempt-SameRows, record_start-SameRows, reject-SameRows, store_reference-SameRows,
  SameRows-trans, event_after_attempt-SameRows, record_retry-SameRows,
}
use opa_security_awareness_a.Delivery.Rows.{
  SameRows, lock-project, lock-SameRows, same_owner, same_owner_sound,
}

module _ (R : Row → Row → Type 0) (R-refl : (r : Row) → R r r)
    (R-trans : (r s t : Row) → R r s → R s t → R r t) where
  -- Every row is still there, and related to what it was.
  abbrev pub Lifted : Db → Db → Type 0
  Lifted db db' =
      (o : DeliveryOwner) (r : Row)
      → lock o db ≡ some r
      → (r' : Row) × (lock o db' ≡ some r') × R r r'

  pub Lifted-refl : (db : Db) → Lifted db db
  Lifted-refl db = λ o r h. (r, h, R-refl r)

  pub Lifted-trans : (a b c : Db) → Lifted a b → Lifted b c → Lifted a c
  Lifted-trans a b c f g = λ o r h.
      let (s, h', rs) = f o r h in let (t, h'', st) = g o s h' in (t, h'', R-trans r s t rs st)

  pub Lifted-SameRows : (db db' : Db) → SameRows db db' → Lifted db db'
  Lifted-SameRows db db' s = λ o r h. (r, lock-SameRows o db db' s ∙ h, R-refl r)

  pub Lifted-project :
      (p : DeliveryOwner) (pr : Projection) (row : Row) (db : Db)
      → lock p db ≡ some row
      → R row (write pr row)
      → Lifted db (project p pr db)
  Lifted-project p pr row db h k = λ o r g. elim (Bool-cases (same_owner p o)) [
    | inr e ↦ (r, ground (arith, lock-project p o pr db), R-refl r)
    | inl e ↦
        let same : row ≡ r = cc (ap (λ q. lock q db) (same_owner_sound p o e)) in
        (write pr r, ground (arith, lock-project p o pr db), subst (λ q. R q (write pr q)) same k)
  ]

  -- A projection after writes that leave the rows alone.
  pub Lifted-write :
      (p : DeliveryOwner) (pr : Projection) (row : Row) (db db' : Db)
      → SameRows db db'
      → lock p db ≡ some row
      → R row (write pr row)
      → Lifted db (project p pr db')
  Lifted-write p pr row db db' s h k =
      Lifted-trans db db' (project p pr db') (Lifted-SameRows db db' s)
        (Lifted-project p pr row db' (lock-SameRows p db db' s ∙ h) k)

  pub Lifted-eq : (db db' : Db) → db ≡ db' → Lifted db db'
  Lifted-eq db db' e = subst (Lifted db) e (Lifted-refl db)

  begin_attempt-Lifted :
      (worker_id : Text) (o : DeliveryOwner) (r : Row) (identity : Text × Text) (now : ℕ) (db : Db)
      {id : Option ℕ} {db' : Db}
      → R r (write (claim_projection r now) r)
      → lock o db ≡ some r
      → begin_attempt worker_id o r identity now db ≡ ok (id, db')
      → Lifted db db'
  unfolding begin_attempt
  begin_attempt-Lifted worker_id o r identity now db {id} {db'} law h k =
      let e = started_event o db.next_attempt_id r (new_attempt o r identity now) now in
      let db₁ = create_attempt o r identity now db in
      let db₂ = project o (claim_projection r now) db₁ in
      elim (Bool-cases (number_taken o (r.attempt_count + 1) db)) [
        | inl t ↦ absurd (ground arith)
        | inr t ↦ subst (Lifted db) {x = record_start worker_id e db₂} (ground arith) (
            Lifted-trans db db₂ (record_start worker_id e db₂)
              (Lifted-write o (claim_projection r now) r db db₁
                (create_attempt-SameRows o r identity now db) h law)
              (Lifted-SameRows db₂ (record_start worker_id e db₂)
                (record_start-SameRows worker_id e db₂)))
      ]

  pub claim-Lifted :
      ((r : Row) (now : ℕ) → is_claimable r now ≡ true → R r (write (claim_projection r now) r))
      → (env : Environment) (worker_id : Text) (o : DeliveryOwner) (now : ℕ) (db : Db)
        {id : Option ℕ} {db' : Db}
      → claim env worker_id o now db ≡ ok (id, db')
      → Lifted db db'
  unfolding claim
  claim-Lifted law env worker_id o now db {id} {db'} h = elim (Option-cases (lock o db)) [
    | inl e ↦ Lifted-eq db db' (ground arith)
    | inr (r, e) ↦ elim (Bool-cases (is_claimable r now)) [
      | inr c ↦ Lifted-eq db db' (ground arith)
      | inl c ↦ elim (Result-cases (provider_identity env r.channel)) [
        | inr (x, f) ↦ absurd (ground arith)
        | inl (identity, f) ↦
            begin_attempt-Lifted worker_id o r identity now db {id = id} (law r now c) e
              (ground arith)
      ]
    ]
  ]

  pub reject-Lifted :
      (id : ℕ) (a : Attempt) (reason : Text) (now : ℕ) (db : Db) {db' : Db}
      → reject_in_transaction id a reason now db ≡ ok db'
      → Lifted db db'
  reject-Lifted id a reason now db {db'} h =
      Lifted-SameRows db db' (reject-SameRows id a reason now db h)

  -- What the last writes of `complete` ask of a relation.
  abbrev pub AcceptedLaw : Type 0
  AcceptedLaw =
      (row : Row) (t : ℕ)
      → row.provider_accepted_at ≡ none
      → R row (write (record no_change { provider_accepted_at = some t }) row)

  abbrev pub CompletedLaw : Type 0
  CompletedLaw =
      (row : Row) (a : Attempt) (r : Response) (now jitter : ℕ)
      → is_superseded row a ≡ false
      → R row (
          write (complete_projection row a r now (retry_delay jitter a.number (is_retryable r)))
            row)

  accepted_only-Lifted :
      (o : DeliveryOwner) (row : Row) (r : Response) (now : ℕ) (db db' : Db)
      → AcceptedLaw
      → SameRows db db'
      → lock o db ≡ some row
      → Lifted db (accepted_only o (first_accepted row r now) db')
  accepted_only-Lifted o row r now db db' law s h = elim (Option-cases (first_accepted row r now)) [
    | inl e ↦ subst (λ t. Lifted db (accepted_only o t db')) (sym e) (Lifted-SameRows db db' s)
    | inr (t, e) ↦
        subst (λ t. Lifted db (accepted_only o t db')) (sym e)
          (Lifted-write o _ row db db' s h (law row t (ground arith)))
  ]

  project_completion-Lifted :
      (o : DeliveryOwner) (row : Row) (a : Attempt) (r : Response) (now jitter : ℕ)
      (e : StatusEvent) (db db' : Db)
      → AcceptedLaw
      → CompletedLaw
      → SameRows db db'
      → lock o db ≡ some row
      → Lifted db (project_completion o row a r now jitter e db')
  unfolding project_completion
  project_completion-Lifted o row a r now jitter e db db' law law' s h =
      elim (Bool-cases (is_superseded row a)) [
        | inl old ↦ rw old (accepted_only-Lifted o row r now db db' law s h)
        | inr new ↦
            let delay = retry_delay jitter a.number (is_retryable r) in
            let db₂ = project o (complete_projection row a r now delay) db' in
            rw new (
              Lifted-trans db db₂ (record_retry delay e db₂)
                (Lifted-write o _ row db db' s h (law' row a r now jitter new))
                (Lifted-SameRows db₂ (record_retry delay e db₂)
                  (record_retry-SameRows delay e db₂)))
      ]

  complete_locked-Lifted :
      (o : DeliveryOwner) (row : Row) (id : ℕ) (a : Attempt) (r : Response) (now jitter : ℕ)
      (db : Db) {db' : Db}
      → AcceptedLaw
      → CompletedLaw
      → lock o db ≡ some row
      → complete_locked o row id a r now jitter db ≡ ok db'
      → Lifted db db'
  unfolding complete_locked
  complete_locked-Lifted o row id a r now jitter db {db'} law law' h k =
      elim (Bool-cases (is_settled a r)) [
        | inl e ↦ Lifted-eq db db' (ground arith)
        | inr e ↦ elim (Result-cases (store_reference id a (valid_message_id r.message_id) db)) [
          | inr (x, f) ↦ absurd (ground arith)
          | inl (db₁, f) ↦
              let ev = completed_event o id a r now in
              let db₂ = record_event ev (update_attempt id (complete_attempt r now) db₁) in
              subst (Lifted db) {x = project_completion o row a r now jitter ev db₂} (ground arith)
                (project_completion-Lifted o row a r now jitter ev db db₂ law law'
                  (SameRows-trans db db₁ db₂ (store_reference-SameRows id a _ db f)
                    (event_after_attempt-SameRows ev id (complete_attempt r now) db₁))
                  h)
        ]
      ]

  pub complete-Lifted :
      (id : ℕ) (r : Response) (now jitter : ℕ) (db : Db) {db' : Db}
      → AcceptedLaw
      → CompletedLaw
      → complete id r now jitter db ≡ ok db'
      → Lifted db db'
  unfolding complete
  complete-Lifted id r now jitter db law law' h = elim (Option-cases (get id db.attempts)) [
    | inl e ↦ absurd (ground arith)
    | inr (a, e) ↦ elim (Option-cases (owner a)) [
      | inl f ↦ absurd (ground arith)
      | inr (o, f) ↦ elim (Option-cases (lock o db)) [
        | inl g ↦ absurd (ground arith)
        | inr (row, g) ↦ complete_locked-Lifted o row id a r now jitter db law law' g (ground arith)
      ]
    ]
  ]
