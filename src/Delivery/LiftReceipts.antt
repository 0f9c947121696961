-- ===== src/Delivery/LiftReceipts.antt =====
-- Recovery and receipts, from what they do to one row to what they do to every row.
use opa_security_awareness_a.Common.{
  ℕ, ◌≡◌, subst, inl, inr, false, some, arith, Bool-cases, Option-cases, Result-cases, ok, is_some,
  List, [], ◌∷◌, find,
}
use opa_security_awareness_a.Common.Text.{text_eq}
use opa_security_awareness_a.Common.Table.{get}
use opa_security_awareness_a.Delivery.Policy.{resend, is_attempting}
use opa_security_awareness_a.Delivery.Ledger.{
  DeliveryOwner, Row, Attempt, ProviderReference, Receipt, Db, lock, project, write, record_event,
  update_attempt, owner,
}
use opa_security_awareness_a.Delivery.Complete.{
  is_superseded, recover_projection, recover_locked, recover_one, recover_from, recover_stale,
  lapse, lapsed_event,
}
use opa_security_awareness_a.Delivery.Receipts.{
  receipt_projection, apply_locked, apply_reference, apply_receipt, apply_receipts,
  reconcile_receipts, update_receipt, process_receipt, receipt_event, receipt_attempt, matches,
  process_if_open, postpone,
}
use opa_security_awareness_a.Delivery.Same.{event_after_attempt-SameRows}
use opa_security_awareness_a.Delivery.Rows.{update_receipt-SameRows}
use opa_security_awareness_a.Delivery.Lift.{
  Lifted, Lifted-refl, Lifted-trans, Lifted-SameRows, Lifted-eq, Lifted-write,
}

module _ (R : Row → Row → Type 0) (R-refl : (r : Row) → R r r)
    (R-trans : (r s t : Row) → R r s → R s t → R r t) where
  abbrev pub RecoveredLaw : Type 0
  RecoveredLaw =
      (row : Row) (a : Attempt) → is_superseded row a ≡ false → R row (write recover_projection row)

  recover_locked-Lifted :
      (o : DeliveryOwner) (row : Row) (id : ℕ) (a : Attempt) (now : ℕ) (db : Db)
      → RecoveredLaw
      → lock o db ≡ some row
      → Lifted R R-refl R-trans db (recover_locked o row id a now db)
  unfolding recover_locked
  recover_locked-Lifted o row id a now db law h =
      let s = event_after_attempt-SameRows (lapsed_event o id a now) id lapse db in
      elim (Bool-cases (is_superseded row a)) [
        | inl e ↦ rw e (Lifted-SameRows R R-refl R-trans db _ s)
        | inr e ↦
            rw e (Lifted-write R R-refl R-trans o recover_projection row db _ s h (law row a e))
      ]

  recover_one-Lifted :
      (id now : ℕ) (db : Db) {db' : Db}
      → RecoveredLaw
      → recover_one id now db ≡ ok db'
      → Lifted R R-refl R-trans db db'
  unfolding recover_one
  recover_one-Lifted id now db {db'} law h = elim (Option-cases (get id db.attempts)) [
    | inl e ↦ absurd (ground arith)
    | inr (a, e) ↦ elim (Option-cases (owner a)) [
      | inl f ↦ absurd (ground arith)
      | inr (o, f) ↦ elim (Option-cases (lock o db)) [
        | inl g ↦ Lifted-eq R R-refl R-trans db db' (ground arith)
        | inr (row, g) ↦ elim (Bool-cases (is_attempting a.status)) [
          | inr k ↦ Lifted-eq R R-refl R-trans db db' (ground arith)
          | inl k ↦
              subst (Lifted R R-refl R-trans db) {x = recover_locked o row id a now db}
                (ground arith) (recover_locked-Lifted o row id a now db law g)
        ]
      ]
    ]
  ]

  recover_from-Lifted :
      (ids : List ℕ) (now : ℕ) (db : Db)
      → RecoveredLaw
      → Lifted R R-refl R-trans db (recover_from ids now db)
  unfolding recover_from
  recover_from-Lifted [] now db law = Lifted-refl R R-refl R-trans db
  recover_from-Lifted (id ∷ ids) now db law = elim (Result-cases (recover_one id now db)) [
    | inr (x, e) ↦
        subst (Lifted R R-refl R-trans db) (ground arith) (Lifted-refl R R-refl R-trans db)
    | inl (db', e) ↦
        subst (Lifted R R-refl R-trans db) {x = recover_from ids now db'} (ground arith) (
          Lifted-trans R R-refl R-trans db db' _ (recover_one-Lifted id now db law e)
            (recover_from-Lifted ids now db' law))
  ]

  pub recover_stale-Lifted :
      (now : ℕ) (db : Db) → RecoveredLaw → Lifted R R-refl R-trans db (recover_stale now db)
  unfolding recover_stale
  recover_stale-Lifted now db law = recover_from-Lifted _ now db law

  abbrev pub ReceivedLaw : Type 0
  ReceivedLaw =
      (row : Row) (a : Attempt) (f : Receipt) → R row (write (receipt_projection row a f) row)

  apply_locked-Lifted :
      (o : DeliveryOwner) (row : Row) (rid : ℕ) (f : Receipt) (id : ℕ) (a : Attempt) (now : ℕ)
      (db : Db)
      → ReceivedLaw
      → lock o db ≡ some row
      → Lifted R R-refl R-trans db (apply_locked o row rid f id a now db)
  unfolding apply_locked
  apply_locked-Lifted o row rid f id a now db law h =
      let e = receipt_event o rid id a f in
      let db₁ = record_event e (update_attempt id (receipt_attempt f) db) in
      let db₂ = project o (receipt_projection row a f) db₁ in
      Lifted-trans R R-refl R-trans db db₂ _
        (Lifted-write R R-refl R-trans o _ row db db₁
          (event_after_attempt-SameRows e id (receipt_attempt f) db) h (law row a f))
        (Lifted-SameRows R R-refl R-trans db₂ _
          (update_receipt-SameRows rid (process_receipt now) db₂))

  apply_reference-Lifted :
      (rid : ℕ) (f : Receipt) (p : ProviderReference) (now : ℕ) (db : Db) {db' : Db}
      → ReceivedLaw
      → apply_reference rid f p now db ≡ ok db'
      → Lifted R R-refl R-trans db db'
  unfolding apply_reference
  apply_reference-Lifted rid f p now db {db'} law h =
      elim (Option-cases (get p.attempt_id db.attempts)) [
        | inl e ↦ absurd (ground arith)
        | inr (a, e) ↦ elim (Option-cases (owner a)) [
          | inl g ↦ absurd (ground arith)
          | inr (o, g) ↦ elim (Option-cases (lock o db)) [
            | inl k ↦ Lifted-eq R R-refl R-trans db db' (ground arith)
            | inr (row, k) ↦
                subst (Lifted R R-refl R-trans db)
                  {x = apply_locked o row rid f p.attempt_id a now db} (ground arith)
                  (apply_locked-Lifted o row rid f p.attempt_id a now db law k)
          ]
        ]
      ]

  pub apply_receipt-Lifted :
      (rid now : ℕ) (db : Db) {db' : Db}
      → ReceivedLaw
      → apply_receipt rid now db ≡ ok db'
      → Lifted R R-refl R-trans db db'
  unfolding apply_receipt
  apply_receipt-Lifted rid now db {db'} law h = elim (Option-cases (get rid db.receipts)) [
    | inl e ↦ absurd (ground arith)
    | inr (f, e) ↦ elim (Bool-cases (is_some f.processed_at)) [
      | inl p ↦ Lifted-eq R R-refl R-trans db db' (ground arith)
      | inr p ↦ elim (Bool-cases (text_eq f.provider resend)) [
        | inr q ↦
            subst (Lifted R R-refl R-trans db) {x = update_receipt rid (process_if_open now) db}
              (ground arith)
              (Lifted-SameRows R R-refl R-trans db _
                (update_receipt-SameRows rid (process_if_open now) db))
        | inl q ↦ elim (Option-cases (find (matches f) db.references)) [
          | inl k ↦
              subst (Lifted R R-refl R-trans db)
                {x = update_receipt rid (postpone now f.reconcile_count) db} (ground arith)
                (Lifted-SameRows R R-refl R-trans db _
                  (update_receipt-SameRows rid (postpone now f.reconcile_count) db))
          | inr (r, k) ↦ apply_reference-Lifted rid f r now db law (ground arith)
        ]
      ]
    ]
  ]

  apply_receipts-Lifted :
      (ids : List ℕ) (now : ℕ) (db : Db)
      → ReceivedLaw
      → Lifted R R-refl R-trans db (apply_receipts ids now db)
  unfolding apply_receipts
  apply_receipts-Lifted [] now db law = Lifted-refl R R-refl R-trans db
  apply_receipts-Lifted (id ∷ ids) now db law = elim (Result-cases (apply_receipt id now db)) [
    | inr (x, e) ↦
        subst (Lifted R R-refl R-trans db) (ground arith) (Lifted-refl R R-refl R-trans db)
    | inl (db', e) ↦
        subst (Lifted R R-refl R-trans db) {x = apply_receipts ids now db'} (ground arith) (
          Lifted-trans R R-refl R-trans db db' _ (apply_receipt-Lifted id now db law e)
            (apply_receipts-Lifted ids now db' law))
  ]

  pub reconcile_receipts-Lifted :
      (now : ℕ) (db : Db) → ReceivedLaw → Lifted R R-refl R-trans db (reconcile_receipts now db)
  unfolding reconcile_receipts
  reconcile_receipts-Lifted now db law = apply_receipts-Lifted _ now db law
