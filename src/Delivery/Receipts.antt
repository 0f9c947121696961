-- ===== src/Delivery/Receipts.antt =====
-- `applyReceipt` and `reconcileReceipts` of delivery-ledger.service.ts.
use opa_security_awareness_a.Common.{
  ℕ, ◌+◌, ◌*◌, ◌^◌, min, Bool, true, ◌&&◌, not, Option, none, some, List, [], ◌∷◌, find, keep, take,
  ltb, leb, if◌then◌else◌, Result, ok, err, ◌>>=◌, get_or, or_else, or_fail, is_some, is_none,
}
use opa_security_awareness_a.Common.Text.{text_eq}
use opa_security_awareness_a.Common.Table.{get, modify}
use opa_security_awareness_a.Delivery.Policy.{
  DeliveryStatus, NotificationStatus, Failure, Error, not_found, receipt_status, is_delivered,
  is_accepted, is_failed, resend,
}
use opa_security_awareness_a.Delivery.Ledger.{
  DeliveryOwner, Row, Attempt, StatusEvent, ProviderReference, Receipt, Db, Projection, no_change,
  owner, lock, project, record_event, update_attempt, provider_receipt, given,
}
use opa_security_awareness_a.Delivery.Complete.{is_superseded}

-- `!old || new < old`.
abbrev pub is_earlier : ℕ → Option ℕ → Bool
is_earlier t none = true
is_earlier t (some u) = ltb t u

unfoldable pub update_receipt : ℕ → (Receipt → Receipt) → Db → Db
update_receipt id f db = record db { receipts = modify id f db.receipts }

-- `updateMany({ where: { id, processedAt: null }, data: { processedAt } })`.
abbrev pub process_if_open : ℕ → Receipt → Receipt
process_if_open now r = record r { processed_at = some (get_or r.processed_at now) }

abbrev pub process_receipt : ℕ → Receipt → Receipt
process_receipt now r = record r { processed_at = some now }

-- 30 s doubled at each round, and an hour at most.
unfoldable pub reconcile_delay : ℕ → ℕ
reconcile_delay n = min 3600000 (30000 * 2 ^ min n 7)

abbrev pub postpone : ℕ → ℕ → Receipt → Receipt
postpone now count r =
    if is_none r.processed_at
    then record r {
      next_reconcile_at = now + reconcile_delay count;
      reconcile_count = r.reconcile_count + 1;
    }
    else r

unfoldable pub receipt_attempt : Receipt → Attempt → Attempt
receipt_attempt f a =
    let status = receipt_status a.status f.status in
    record a {
      status = status;
      delivered_at =
          if is_delivered f.status && is_earlier f.occurred_at a.delivered_at
          then some f.occurred_at
          else a.delivered_at;
      provider_accepted_at =
          if is_accepted f.status && is_earlier f.occurred_at a.provider_accepted_at
          then some f.occurred_at
          else a.provider_accepted_at;
      failure_category =
          if is_delivered status then none else or_else f.failure_category a.failure_category;
    }

unfoldable pub receipt_event : DeliveryOwner → ℕ → ℕ → Attempt → Receipt → StatusEvent
receipt_event o receipt_id id a f = record {
  owner = o;
  attempt_id = id;
  receipt_id = some receipt_id;
  previous_status = a.status;
  new_status = receipt_status a.status f.status;
  source = provider_receipt;
  provider = f.provider;
  reason = given f.event_type;
  failure_category = f.failure_category;
  occurred_at = f.occurred_at;
}

-- The two evidence times of the row.
abbrev evidence : Row → Receipt → Projection
evidence row f = record no_change {
  confirmed_delivered_at =
      if is_delivered f.status && is_earlier f.occurred_at row.confirmed_delivered_at
      then some f.occurred_at
      else none;
  provider_accepted_at =
      if is_accepted f.status && is_earlier f.occurred_at row.provider_accepted_at
      then some f.occurred_at
      else none;
}

abbrev some_failure : Option Failure → Option (Option Failure)
some_failure none = none
some_failure (some x) = some (some x)

unfoldable pub receipt_projection : Row → Attempt → Receipt → Projection
receipt_projection row a f =
    let status = receipt_status a.status f.status in
    if is_delivered status
    then record (evidence row f) {
      delivery_status = some DeliveryStatus.delivered;
      status = some NotificationStatus.sent;
      failure_category = some none;
    }
    else if not (is_superseded row a)
    then record (evidence row f) {
      delivery_status = some status;
      failure_category = some_failure f.failure_category;
      status = if is_failed status then some NotificationStatus.failed else none;
    }
    else evidence row f

-- The transaction of `applyReceipt`, with its parent row locked. An empty projection writes nothing.
unfoldable pub apply_locked : DeliveryOwner → Row → ℕ → Receipt → ℕ → Attempt → ℕ → Db → Db
apply_locked o row receipt_id f id a now db = update_receipt receipt_id (process_receipt now) (
    project o (receipt_projection row a f)
      (record_event (receipt_event o receipt_id id a f) (update_attempt id (receipt_attempt f) db)))

unfoldable pub matches : Receipt → ProviderReference → Bool
matches f p =
    text_eq p.provider f.provider
    && text_eq p.account_scope f.account_scope
    && text_eq p.message_id f.message_id

-- The transaction, from the reference that names the attempt.
unfoldable pub apply_reference : ℕ → Receipt → ProviderReference → ℕ → Db → Result Error Db
apply_reference receipt_id f p now db = do
  a ← or_fail (get p.attempt_id db.attempts) not_found
  o ← or_fail (owner a) not_found
  ok (elim (lock o db) [
    | none ↦ db
    | some row ↦ apply_locked o row receipt_id f p.attempt_id a now db
  ])

unfoldable pub apply_receipt : ℕ → ℕ → Db → Result Error Db
unfolding matches
apply_receipt receipt_id now db = do
  f ← or_fail (get receipt_id db.receipts) not_found
  (if is_some f.processed_at
      then ok db
      else (if not (text_eq f.provider resend)
          then ok (update_receipt receipt_id (process_if_open now) db)
          else (elim (find (matches f) db.references) [
            | none ↦ ok (update_receipt receipt_id (postpone now f.reconcile_count) db)
            | some p ↦ apply_reference receipt_id f p now db
          ])))

-- `for (const receipt of receipts) await this.applyReceipt(receipt.id)`: an error ends the run.
unfoldable pub apply_receipts : List ℕ → ℕ → Db → Db
apply_receipts [] now db = db
apply_receipts (id ∷ ids) now db = elim (apply_receipt id now db) [
  | ok db' ↦ apply_receipts ids now db'
  | err e ↦ db
]

abbrev is_due : ℕ → ℕ × Receipt → Bool
is_due now (id, r) = is_none r.processed_at && leb r.next_reconcile_at now

abbrev insert_due : ℕ × Receipt → List (ℕ × Receipt) → List (ℕ × Receipt)
insert_due e [] = e ∷ []
insert_due e (f ∷ fs) =
    if leb e.1.next_reconcile_at f.1.next_reconcile_at then e ∷ f ∷ fs else f ∷ insert_due e fs

abbrev earliest_first : List (ℕ × Receipt) → List (ℕ × Receipt)
earliest_first [] = []
earliest_first (e ∷ es) = insert_due e (earliest_first es)

abbrev receipt_ids : List (ℕ × Receipt) → List ℕ
receipt_ids [] = []
receipt_ids (e ∷ es) = e.0 ∷ receipt_ids es

-- `reconcileReceipts`: at most 25 open receipts that are due.
unfoldable pub reconcile_receipts : ℕ → Db → Db
reconcile_receipts now db =
    apply_receipts (receipt_ids (take 25 (earliest_first (keep (is_due now) db.receipts)))) now db
