-- ===== src/Delivery/Advance.antt =====
-- What no operation of the ledger takes back from a row, over any history of operations.
use opa_security_awareness_a.Common.{
  ℕ, ◌≤◌, ◌≡◌, refl, ◌⊎◌, true, false, Option, none, some, arith, Result, ok, err, List, [], ◌∷◌,
  max,
}
use opa_security_awareness_a.Common.Text.{Text}
use opa_security_awareness_a.Delivery.Policy.{
  DeliveryStatus, NotificationStatus, Error, Environment, retry_delay, is_delivered,
  max_delivery_attempts,
}
use opa_security_awareness_a.Delivery.Ledger.{
  DeliveryOwner, Row, Attempt, Receipt, Db, lock, write, no_change,
}
use opa_security_awareness_a.Delivery.Claim.{
  is_claimable, claim_projection, claim, reject_in_transaction,
}
use opa_security_awareness_a.Delivery.Complete.{
  Response, complete_projection, is_superseded, complete, is_retryable, recover_projection,
  recover_stale,
}
use opa_security_awareness_a.Delivery.Receipts.{
  receipt_projection, apply_receipt, reconcile_receipts,
}
use opa_security_awareness_a.Delivery.Lift.{
  Lifted, Lifted-refl, claim-Lifted, reject-Lifted, complete-Lifted,
}
use opa_security_awareness_a.Delivery.LiftReceipts.{
  recover_stale-Lifted, apply_receipt-Lifted, reconcile_receipts-Lifted,
}

-- A recorded time stays, or moves to an earlier one.
abbrev pub NotLater : Option ℕ → Option ℕ → Type 0
NotLater none u = Unit
NotLater (some t) none = ⊥
NotLater (some t) (some u) = u ≤ t

-- A row that is delivered stays so, with its scheduling as it was or complete; the number of
-- attempts never falls, and never passes five; and the times of evidence only move earlier.
pub record Advances (r s : Row) : Type 0 where
  pub delivered_stays :
      (is_delivered r.delivery_status ≡ false)
      ⊎ ((s.delivery_status ≡ DeliveryStatus.delivered)
          × ((s.status ≡ r.status) ⊎ (s.status ≡ NotificationStatus.sent)))
  pub attempts_grow : r.attempt_count ≤ s.attempt_count
  pub attempts_bounded : s.attempt_count ≤ max r.attempt_count max_delivery_attempts
  pub confirmed_earlier : NotLater r.confirmed_delivered_at s.confirmed_delivered_at
  pub accepted_earlier : NotLater r.provider_accepted_at s.provider_accepted_at

pub NotLater-refl : (t : Option ℕ) → NotLater t t
NotLater-refl none = tt
NotLater-refl (some t) = omega arith

NotLater-trans : (t u v : Option ℕ) → NotLater t u → NotLater u v → NotLater t v
NotLater-trans none u v h k = tt
NotLater-trans (some t) none v h k = elim h [ ]
NotLater-trans (some t) (some u) none h k = elim k [ ]
NotLater-trans (some t) (some u) (some v) h k = omega arith

pub Advances-refl : (r : Row) → Advances r r
Advances-refl r = record {
  delivered_stays = ground arith;
  attempts_grow = omega arith;
  attempts_bounded = omega arith;
  confirmed_earlier = NotLater-refl r.confirmed_delivered_at;
  accepted_earlier = NotLater-refl r.provider_accepted_at;
}

pub Advances-trans : (r s t : Row) → Advances r s → Advances s t → Advances r t
Advances-trans r s t a b = record {
  delivered_stays = ground (arith, a.delivered_stays, b.delivered_stays);
  attempts_grow = omega (arith, a.attempts_grow, b.attempts_grow);
  attempts_bounded = omega (arith, a.attempts_bounded, b.attempts_bounded);
  confirmed_earlier =
      NotLater-trans r.confirmed_delivered_at s.confirmed_delivered_at t.confirmed_delivered_at
        a.confirmed_earlier b.confirmed_earlier;
  accepted_earlier =
      NotLater-trans r.provider_accepted_at s.provider_accepted_at t.provider_accepted_at
        a.accepted_earlier b.accepted_earlier;
}

claim-Advances :
    (r : Row) (now : ℕ) → is_claimable r now ≡ true → Advances r (write (claim_projection r now) r)
unfolding is_claimable claim_projection write
claim-Advances r now h =
    ground (arith, NotLater-refl r.confirmed_delivered_at, NotLater-refl r.provider_accepted_at)

accepted-Advances :
    (r : Row) (t : ℕ)
    → r.provider_accepted_at ≡ none
    → Advances r (write (record no_change { provider_accepted_at = some t }) r)
unfolding write
accepted-Advances r t h = ground (arith, NotLater-refl r.confirmed_delivered_at)

completed-Advances :
    (row : Row) (a : Attempt) (r : Response) (now jitter : ℕ)
    → is_superseded row a ≡ false
    → Advances row
        (write (complete_projection row a r now (retry_delay jitter a.number (is_retryable r))) row)
unfolding is_superseded complete_projection write
completed-Advances row a r now jitter h =
    ground (arith, NotLater-refl row.confirmed_delivered_at, NotLater-refl row.provider_accepted_at)

recovered-Advances :
    (row : Row) (a : Attempt)
    → is_superseded row a ≡ false
    → Advances row (write recover_projection row)
unfolding is_superseded recover_projection write
recovered-Advances row a h =
    ground (arith, NotLater-refl row.confirmed_delivered_at, NotLater-refl row.provider_accepted_at)

received-Advances :
    (row : Row) (a : Attempt) (f : Receipt) → Advances row (write (receipt_projection row a f) row)
unfolding receipt_projection is_superseded write
received-Advances row a f =
    ground (arith, NotLater-refl row.confirmed_delivered_at, NotLater-refl row.provider_accepted_at)

-- The calls that change the ledger, each with what it takes from outside: the environment, the
-- clock, the jitter and the provider's answer.
pub data Operation : Type 0 where
  claims : Environment → Text → DeliveryOwner → ℕ → Operation
  rejects : ℕ → Attempt → Text → ℕ → Operation
  completes : ℕ → Response → ℕ → ℕ → Operation
  recovers : ℕ → Operation
  receives : ℕ → ℕ → Operation
  reconciles : ℕ → Operation

-- A call that throws leaves the ledger as it was.
abbrev after : {A : Type 0} → (A → Db) → Db → Result Error A → Db
after f db (ok a) = f a
after f db (err e) = db

unfoldable pub perform : Operation → Db → Db
perform (claims env w o now) db = after (λ (r : Option ℕ × Db). r.1) db (claim env w o now db)
perform (rejects id a reason now) db =
    after (λ (d : Db). d) db (reject_in_transaction id a reason now db)
perform (completes id r now jitter) db = after (λ (d : Db). d) db (complete id r now jitter db)
perform (recovers now) db = recover_stale now db
perform (receives id now) db = after (λ (d : Db). d) db (apply_receipt id now db)
perform (reconciles now) db = reconcile_receipts now db

unfoldable pub perform_all : List Operation → Db → Db
perform_all [] db = db
perform_all (op ∷ ops) db = perform_all ops (perform op db)

abbrev AllAdvance : Db → Db → Type 0
AllAdvance = Lifted Advances Advances-refl Advances-trans

after-AllAdvance :
    {A : Type 0} (f : A → Db) (db : Db) (r : Result Error A)
    → ((a : A) → r ≡ ok a → AllAdvance db (f a))
    → AllAdvance db (after f db r)
after-AllAdvance f db (ok a) h = h a refl
after-AllAdvance f db (err e) h = Lifted-refl Advances Advances-refl Advances-trans db

perform-AllAdvance : (op : Operation) (db : Db) → AllAdvance db (perform op db)
unfolding perform
perform-AllAdvance (claims env w o now) db = after-AllAdvance _ db _ λ (id, db') h.
    claim-Lifted Advances Advances-refl Advances-trans claim-Advances env w o now db {id = id} h
perform-AllAdvance (rejects id a reason now) db =
    after-AllAdvance _ db _
      λ db' h. reject-Lifted Advances Advances-refl Advances-trans id a reason now db h
perform-AllAdvance (completes id r now jitter) db = after-AllAdvance _ db _ λ db' h.
    complete-Lifted Advances Advances-refl Advances-trans id r now jitter db accepted-Advances
      completed-Advances h
perform-AllAdvance (recovers now) db =
    recover_stale-Lifted Advances Advances-refl Advances-trans now db recovered-Advances
perform-AllAdvance (receives id now) db = after-AllAdvance _ db _ λ db' h.
    apply_receipt-Lifted Advances Advances-refl Advances-trans id now db received-Advances h
perform-AllAdvance (reconciles now) db =
    reconcile_receipts-Lifted Advances Advances-refl Advances-trans now db received-Advances

-- Over any history of claims, rejections, completions, recoveries and receipts, every row that is
-- there stays there and advances: once delivered it is delivered for good, it never has more than
-- five attempts if it had no more, and its evidence times move to earlier ones only.
pub perform_all-Advances :
    (ops : List Operation) (db : Db) (o : DeliveryOwner) (r : Row)
    → lock o db ≡ some r
    → (r' : Row) × (lock o (perform_all ops db) ≡ some r') × Advances r r'
unfolding perform_all
perform_all-Advances [] db o r h = (r, h, Advances-refl r)
perform_all-Advances (op ∷ ops) db o r h =
    let (s, there, first) = perform-AllAdvance op db o r h in
    let (t, last, rest) = perform_all-Advances ops (perform op db) o s there in
    (t, last, Advances-trans r s t first rest)
