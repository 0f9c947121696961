-- ===== src/Ingest/Stored.antt =====
-- Every fix of a batch that was ingested is stored.
use opa_security_awareness_a.Common.{
  ℕ, ◌≡◌, sym, ap, subst, ◌∙◌, inl, inr, true, false, not, Option, none, some, List, [], ◌∷◌, ◌++◌,
  any, All, All-map, ok, arith, Bool-cases, leb,
}
use opa_security_awareness_a.Common.Text.{Text, text_eq, text_eq_sound}
use opa_security_awareness_a.Ingest.Fixes.{
  FixInput, StoredFix, Session, InsertResult, seen, dedupe, insert_by_time, by_time, is_stored,
  insert_fixes,
}
use opa_security_awareness_a.Ingest.Chain.{IsChain, insert_fixes-IsChain}
use opa_security_awareness_a.Ingest.Replay.{stored_after, fixes_of-stored}

abbrev pub AllStored : List StoredFix → List FixInput → Type 0
AllStored rows fs = All (λ f. is_stored rows f ≡ true) fs

abbrev KeysStored : List StoredFix → List Text → Type 0
KeysStored rows keys =
    All (λ k. any (λ (s : StoredFix). text_eq k s.fix.idempotency_key) rows ≡ true) keys

seen-stored :
    (rows : List StoredFix) (keys : List Text) (f : FixInput)
    → KeysStored rows keys
    → seen f.idempotency_key keys ≡ true
    → is_stored rows f ≡ true
unfolding seen is_stored
seen-stored rows [] f h e = cc
seen-stored rows (k ∷ keys) f h e = elim (Bool-cases (text_eq f.idempotency_key k)) [
  | inl c ↦
      ap (λ x. any (λ (s : StoredFix). text_eq x s.fix.idempotency_key) rows)
        (text_eq_sound f.idempotency_key k c)
      ∙ h.0
  | inr c ↦ seen-stored rows keys f h.1 (ground arith)
]

dedupe-AllStored :
    (rows : List StoredFix) (keys : List Text) (fs : List FixInput)
    → KeysStored rows keys
    → AllStored rows (dedupe keys fs)
    → AllStored rows fs
unfolding dedupe
dedupe-AllStored rows keys [] k h = tt
dedupe-AllStored rows keys (f ∷ fs) k h = elim (Bool-cases (seen f.idempotency_key keys)) [
  | inl c ↦ (seen-stored rows keys f k c, dedupe-AllStored rows keys fs k (ground arith))
  | inr c ↦
      let both : (is_stored rows f ≡ true) × AllStored rows (dedupe (f.idempotency_key ∷ keys) fs) =
        ground arith in
      (
        both.0,
        dedupe-AllStored rows (f.idempotency_key ∷ keys) fs (unfold is_stored in both.0, k) both.1,
      )
]

insert_by_time-All :
    (P : FixInput → Type 0) (f : FixInput) (gs : List FixInput)
    → All P (insert_by_time f gs)
    → P f × All P gs
unfolding insert_by_time
insert_by_time-All P f [] h = h
insert_by_time-All P f (g ∷ gs) h = elim (Bool-cases (leb f.recorded_at g.recorded_at)) [
  | inl c ↦ ground arith
  | inr c ↦
      let both : P g × All P (insert_by_time f gs) = ground arith in
      let (p, rest) = insert_by_time-All P f gs both.1 in (p, (both.0, rest))
]

by_time-All : (P : FixInput → Type 0) (fs : List FixInput) → All P (by_time fs) → All P fs
unfolding by_time
by_time-All P [] h = tt
by_time-All P (f ∷ fs) h =
    let (p, rest) = insert_by_time-All P f (by_time fs) h in (p, by_time-All P fs rest)

pub insert_fixes-AllStored :
    (hex : Text → Text) (preimage : Text → FixInput → Option Text) (nonce : ℕ → Text)
    (received_at : Text) (fixes : List FixInput) (s : Session) {r : InsertResult} {s' : Session}
    → IsChain hex preimage none 0 s.fixes
    → insert_fixes hex preimage nonce received_at fixes (some s) ≡ ok (r, s')
    → AllStored s'.fixes fixes
insert_fixes-AllStored hex preimage nonce received_at fixes s {r} {s'} c h =
    let (rows, appended, _, all, _, _) =
      insert_fixes-IsChain hex preimage nonce received_at fixes s c h in
    let known =
      stored_after s.fixes rows (by_time (dedupe [] fixes))
        (subst (All (λ f. is_stored rows f ≡ true)) all (fixes_of-stored rows)) in
    dedupe-AllStored s'.fixes [] fixes tt (
      by_time-All (λ f. is_stored s'.fixes f ≡ true) (dedupe [] fixes)
        (subst (λ x. AllStored x (by_time (dedupe [] fixes))) (sym appended)
          (All-map (λ f. not (is_stored (s.fixes ++ rows) f) ≡ false)
            (λ f. is_stored (s.fixes ++ rows) f ≡ true) (λ f k. ground arith)
            (by_time (dedupe [] fixes)) known)))
