-- ===== src/Delivery/Rows.antt =====
-- Which parent rows the writes of the ledger reach.
use opa_security_awareness_a.Common.{ℕ, ◌≡◌, refl, ap, Bool, true, ◌&&◌, ◌==◌, arith, if◌then◌else◌}
use opa_security_awareness_a.Common.Table.{get, get-modify, map_option}
use opa_security_awareness_a.Delivery.Ledger.{
  Kind, incident, invitation, safewalk, DeliveryOwner, Attempt, StatusEvent, Receipt, Db,
  Projection, lock, project, write, record_event, update_attempt, same_kind,
}
use opa_security_awareness_a.Delivery.Receipts.{update_receipt}

abbrev pub same_owner : DeliveryOwner → DeliveryOwner → Bool
same_owner p o = same_kind p.kind o.kind && p.id == o.id

lock_lem :
    (k j : Kind) (i n : ℕ) (p : Projection) (db : Db)
    → let o : DeliveryOwner = record { kind = j; id = n } in
      lock o (project (record { kind = k; id = i }) p db)
      ≡ (if same_kind k j && i == n then map_option (write p) (lock o db) else lock o db)
unfolding lock project
lock_lem incident incident i n p db =
    ground (arith, get-modify n i (write p) db.incident_notifications)
lock_lem invitation invitation i n p db =
    ground (arith, get-modify n i (write p) db.invitation_deliveries)
lock_lem safewalk safewalk i n p db = ground (arith, get-modify n i (write p) db.safe_walk_notices)
lock_lem incident invitation i n p db = refl
lock_lem incident safewalk i n p db = refl
lock_lem invitation incident i n p db = refl
lock_lem invitation safewalk i n p db = refl
lock_lem safewalk incident i n p db = refl
lock_lem safewalk invitation i n p db = refl

-- A projection reaches the row of its own owner and no other.
pub lock-project :
    (p o : DeliveryOwner) (pr : Projection) (db : Db)
    → lock o (project p pr db)
      ≡ (if same_owner p o then map_option (write pr) (lock o db) else lock o db)
lock-project p o pr db = lock_lem p.kind o.kind p.id o.id pr db

same_kind_refl : (k : Kind) → same_kind k k ≡ true
same_kind_refl incident = refl
same_kind_refl invitation = refl
same_kind_refl safewalk = refl

pub same_owner_refl : (o : DeliveryOwner) → same_owner o o ≡ true
same_owner_refl o = ground (arith, same_kind_refl o.kind)

same_kind_sound : (k j : Kind) → same_kind k j ≡ true → k ≡ j
same_kind_sound k j h = ground arith

pub same_owner_sound : (p o : DeliveryOwner) → same_owner p o ≡ true → p ≡ o
same_owner_sound p o h = ground (arith, same_kind_sound p.kind o.kind)

-- Two databases with the same parent tables.
pub record SameRows (db db' : Db) : Type 0 where
  pub incidents : db'.incident_notifications ≡ db.incident_notifications
  pub invitations : db'.invitation_deliveries ≡ db.invitation_deliveries
  pub safe_walks : db'.safe_walk_notices ≡ db.safe_walk_notices

lock_same :
    (k : Kind) (n : ℕ) (db db' : Db)
    → SameRows db db'
    → let o : DeliveryOwner = record { kind = k; id = n } in lock o db' ≡ lock o db
unfolding lock
lock_same incident n db db' s = ap (get n) s.incidents
lock_same invitation n db db' s = ap (get n) s.invitations
lock_same safewalk n db db' s = ap (get n) s.safe_walks

pub lock-SameRows : (o : DeliveryOwner) (db db' : Db) → SameRows db db' → lock o db' ≡ lock o db
lock-SameRows o db db' s = lock_same o.kind o.id db db' s

pub record_event-SameRows : (e : StatusEvent) (db : Db) → SameRows db (record_event e db)
unfolding record_event
record_event-SameRows e db = record { incidents = refl; invitations = refl; safe_walks = refl }

pub update_attempt-SameRows :
    (id : ℕ) (f : Attempt → Attempt) (db : Db) → SameRows db (update_attempt id f db)
unfolding update_attempt
update_attempt-SameRows id f db = record { incidents = refl; invitations = refl; safe_walks = refl }

pub update_receipt-SameRows :
    (id : ℕ) (f : Receipt → Receipt) (db : Db) → SameRows db (update_receipt id f db)
unfolding update_receipt
update_receipt-SameRows id f db = record { incidents = refl; invitations = refl; safe_walks = refl }
