-- ===== src/Delivery/Same.antt =====
-- The writes of the ledger that leave every parent row alone.
use opa_security_awareness_a.Common.{ℕ, ◌≡◌, refl, ◌∙◌, Option, none, some, arith, ok}
use opa_security_awareness_a.Common.Text.{Text}
use opa_security_awareness_a.Delivery.Ledger.{
  DeliveryOwner, Row, Attempt, StatusEvent, Db, record_event, update_attempt,
}
use opa_security_awareness_a.Delivery.Claim.{create_attempt, record_start, reject_in_transaction}
use opa_security_awareness_a.Delivery.Complete.{store_reference, record_retry, retry_event}
use opa_security_awareness_a.Delivery.Rows.{
  SameRows, record_event-SameRows, update_attempt-SameRows,
}

pub SameRows-trans : (a b c : Db) → SameRows a b → SameRows b c → SameRows a c
SameRows-trans a b c s t = record {
  incidents = t.incidents ∙ s.incidents;
  invitations = t.invitations ∙ s.invitations;
  safe_walks = t.safe_walks ∙ s.safe_walks;
}

pub create_attempt-SameRows :
    (o : DeliveryOwner) (r : Row) (identity : Text × Text) (now : ℕ) (db : Db)
    → SameRows db (create_attempt o r identity now db)
unfolding create_attempt
create_attempt-SameRows o r identity now db = record {
  incidents = refl;
  invitations = refl;
  safe_walks = refl;
}

pub record_start-SameRows :
    (w : Text) (e : StatusEvent) (db : Db) → SameRows db (record_start w e db)
unfolding record_start
record_start-SameRows w e db = record { incidents = refl; invitations = refl; safe_walks = refl }

pub reject-SameRows :
    (id : ℕ) (a : Attempt) (reason : Text) (now : ℕ) (db : Db) {db' : Db}
    → reject_in_transaction id a reason now db ≡ ok db'
    → SameRows db db'
unfolding reject_in_transaction record_event update_attempt
reject-SameRows id a reason now db h = ground arith

pub store_reference-SameRows :
    (id : ℕ) (a : Attempt) (m : Option Text) (db : Db) {db' : Db}
    → store_reference id a m db ≡ ok db'
    → SameRows db db'
unfolding store_reference
store_reference-SameRows id a none db h = ground arith
store_reference-SameRows id a (some m) db h = ground arith

pub event_after_attempt-SameRows :
    (e : StatusEvent) (id : ℕ) (f : Attempt → Attempt) (db : Db)
    → SameRows db (record_event e (update_attempt id f db))
event_after_attempt-SameRows e id f db =
    SameRows-trans db (update_attempt id f db) _ (update_attempt-SameRows id f db)
      (record_event-SameRows e (update_attempt id f db))

pub record_retry-SameRows :
    (d : Option ℕ) (e : StatusEvent) (db : Db) → SameRows db (record_retry d e db)
record_retry-SameRows none e db = record { incidents = refl; invitations = refl; safe_walks = refl }
record_retry-SameRows (some d) e db = record_event-SameRows (retry_event e) db
