-- ===== src/Delivery/Once.antt =====
-- A receipt takes effect once, however often it is applied.
use opa_security_awareness_a.Common.{
  ℕ, ◌≡◌, refl, ap, ◌∙◌, subst, ◌⊎◌, inl, inr, true, false, some, arith, Bool-cases, Option-cases,
  ok, is_some, find,
}
use opa_security_awareness_a.Common.Text.{text_eq}
use opa_security_awareness_a.Common.Table.{get, get-modify_self}
use opa_security_awareness_a.Delivery.Policy.{resend}
use opa_security_awareness_a.Delivery.Ledger.{
  DeliveryOwner, Row, Attempt, ProviderReference, Receipt, Db, Projection, lock, project,
  record_event, update_attempt, owner,
}
use opa_security_awareness_a.Delivery.Receipts.{
  receipt_projection, apply_locked, apply_reference, apply_receipt, update_receipt, process_receipt,
  receipt_event, receipt_attempt, matches, process_if_open, postpone,
}

project-receipts :
    (o : DeliveryOwner) (p : Projection) (db : Db) → (project o p db).receipts ≡ db.receipts
unfolding project
project-receipts o p db = ground arith

apply_locked-receipt :
    (o : DeliveryOwner) (row : Row) (rid : ℕ) (f : Receipt) (id : ℕ) (a : Attempt) (now : ℕ)
    (db : Db) {g : Receipt}
    → get rid db.receipts ≡ some g
    → get rid (apply_locked o row rid f id a now db).receipts ≡ some (process_receipt now g)
unfolding apply_locked update_receipt record_event update_attempt
apply_locked-receipt o row rid f id a now db h =
    let e = receipt_event o rid id a f in
    let db₁ = record_event e (update_attempt id (receipt_attempt f) db) in
    get-modify_self rid (process_receipt now) (project o (receipt_projection row a f) db₁).receipts
      (ap (get rid) (project-receipts o (receipt_projection row a f) db₁) ∙ h)

update_receipt-get :
    (rid : ℕ) (t : Receipt → Receipt) (db : Db) {g : Receipt}
    → get rid db.receipts ≡ some g
    → get rid (update_receipt rid t db).receipts ≡ some (t g)
unfolding update_receipt
update_receipt-get rid t db h = get-modify_self rid t db.receipts h

update_receipt-rest :
    (rid : ℕ) (t : Receipt → Receipt) (db : Db)
    → ((update_receipt rid t db).attempts ≡ db.attempts)
      × ((update_receipt rid t db).events ≡ db.events)
unfolding update_receipt
update_receipt-rest rid t db = (refl, refl)

-- A processed receipt changes nothing.
apply_receipt-processed :
    (rid later : ℕ) (db : Db) (g : Receipt)
    → get rid db.receipts ≡ some g
    → is_some g.processed_at ≡ true
    → apply_receipt rid later db ≡ ok db
unfolding apply_receipt
apply_receipt-processed rid later db g h p = ground arith

-- What a call leaves of its receipt: processed for good, or open with no attempt and no event
-- touched.
abbrev pub Settled : ℕ → ℕ → Db → Db → Type 0
Settled rid later db db' =
    (g : Receipt) × (get rid db'.receipts ≡ some g)
    × (((is_some g.processed_at ≡ true) × (apply_receipt rid later db' ≡ ok db'))
        ⊎ ((is_some g.processed_at ≡ false)
            × (db'.attempts ≡ db.attempts)
            × (db'.events ≡ db.events)))

processed-Settled :
    (rid later : ℕ) (db db' : Db) (g : Receipt)
    → get rid db'.receipts ≡ some g
    → is_some g.processed_at ≡ true
    → Settled rid later db db'
processed-Settled rid later db db' g h p =
    (g, h, inl (p, apply_receipt-processed rid later db' g h p))

open-Settled :
    (rid later : ℕ) (db db' : Db) (g : Receipt)
    → db ≡ db'
    → get rid db.receipts ≡ some g
    → is_some g.processed_at ≡ false
    → Settled rid later db db'
open-Settled rid later db db' g e h p = subst (Settled rid later db) e (g, h, inr (p, refl, refl))

apply_reference-Settled :
    (rid : ℕ) (f : Receipt) (p : ProviderReference) (now later : ℕ) (db : Db) {db' : Db}
    → get rid db.receipts ≡ some f
    → is_some f.processed_at ≡ false
    → apply_reference rid f p now db ≡ ok db'
    → Settled rid later db db'
unfolding apply_reference
apply_reference-Settled rid f p now later db {db'} h n k =
    elim (Option-cases (get p.attempt_id db.attempts)) [
      | inl e ↦ absurd (ground arith)
      | inr (a, e) ↦ elim (Option-cases (owner a)) [
        | inl g ↦ absurd (ground arith)
        | inr (o, g) ↦ elim (Option-cases (lock o db)) [
          | inl m ↦ open-Settled rid later db db' f (ground arith) h n
          | inr (row, m) ↦
              subst (Settled rid later db) {x = apply_locked o row rid f p.attempt_id a now db}
                (ground arith)
                (processed-Settled rid later db _ (process_receipt now f)
                  (apply_locked-receipt o row rid f p.attempt_id a now db h) refl)
        ]
      ]
    ]

-- After a receipt was applied without an error, it is there, and in one of two states: processed, and
-- then applying it again at any time changes nothing; or open still, and then the call changed no
-- attempt and recorded no event.
pub apply_receipt-apply_receipt :
    (rid now later : ℕ) (db : Db) (f : Receipt) {db' : Db}
    → get rid db.receipts ≡ some f
    → apply_receipt rid now db ≡ ok db'
    → (g : Receipt) × (get rid db'.receipts ≡ some g)
      × (((is_some g.processed_at ≡ true) × (apply_receipt rid later db' ≡ ok db'))
          ⊎ ((is_some g.processed_at ≡ false)
              × (db'.attempts ≡ db.attempts)
              × (db'.events ≡ db.events)))
unfolding apply_receipt
apply_receipt-apply_receipt rid now later db f {db'} h k =
    elim (Bool-cases (is_some f.processed_at)) [
      | inl p ↦ processed-Settled rid later db db' f (ground arith) p
      | inr p ↦ elim (Bool-cases (text_eq f.provider resend)) [
        | inr q ↦
            subst (Settled rid later db) {x = update_receipt rid (process_if_open now) db}
              (ground arith)
              (processed-Settled rid later db _ (process_if_open now f)
                (update_receipt-get rid (process_if_open now) db h) refl)
        | inl q ↦ elim (Option-cases (find (matches f) db.references)) [
          | inr (r, m) ↦ apply_reference-Settled rid f r now later db {db' = db'} h p (ground arith)
          | inl m ↦
              subst (Settled rid later db)
                {x = update_receipt rid (postpone now f.reconcile_count) db} (ground arith)
                (
                  postpone now f.reconcile_count f,
                  update_receipt-get rid (postpone now f.reconcile_count) db h,
                  inr (
                    ground arith,
                    (update_receipt-rest rid (postpone now f.reconcile_count) db).0,
                    (update_receipt-rest rid (postpone now f.reconcile_count) db).1,
                  ),
                )
        ]
      ]
    ]
