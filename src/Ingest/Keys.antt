-- ===== src/Ingest/Keys.antt =====
-- No key twice in a session: what the unique index on a session and a key asks of the rows.
use opa_security_awareness_a.Common.{
  ℕ, ◌≡◌, refl, sym, ◌∙◌, subst, inl, inr, Bool, true, false, not, Option, none, some, List, [],
  ◌∷◌, ◌++◌, keep, All, All-map, All-keep, All-keep_self, ok, arith, Bool-cases,
}
use opa_security_awareness_a.Common.Text.{Text, text_eq}
use opa_security_awareness_a.Ingest.Fixes.{
  FixInput, StoredFix, Session, InsertResult, dedupe, seen, insert_by_time, by_time, is_stored,
  insert_fixes,
}
use opa_security_awareness_a.Ingest.Chain.{IsChain, fixes_of, insert_fixes-IsChain}

abbrev Apart : FixInput → FixInput → Type 0
Apart f g = text_eq f.idempotency_key g.idempotency_key ≡ false

-- No two fixes of a list have one key.
abbrev pub Distinct : List FixInput → Type 0
Distinct [] = Unit
Distinct (f ∷ fs) = All (Apart f) fs × Distinct fs

text_eq_comm : (a b : Text) → text_eq a b ≡ text_eq b a
unfolding text_eq
text_eq_comm [] [] = refl
text_eq_comm [] (y ∷ b) = refl
text_eq_comm (x ∷ a) [] = refl
text_eq_comm (x ∷ a) (y ∷ b) = ground (arith, text_eq_comm a b)

Apart-comm : (f g : FixInput) → Apart f g → Apart g f
Apart-comm f g h = text_eq_comm g.idempotency_key f.idempotency_key ∙ h

dedupe-fresh :
    (keys : List Text) (fs : List FixInput)
    → All (λ (f : FixInput). seen f.idempotency_key keys ≡ false) (dedupe keys fs)
unfolding dedupe seen
dedupe-fresh keys [] = tt
dedupe-fresh keys (f ∷ fs) = elim (Bool-cases (seen f.idempotency_key keys)) [
  | inl e ↦ ground (arith, dedupe-fresh keys fs)
  | inr e ↦
      let rest =
        All-map (λ (g : FixInput). seen g.idempotency_key (f.idempotency_key ∷ keys) ≡ false)
          (λ (g : FixInput). seen g.idempotency_key keys ≡ false) (λ g h. ground arith)
          (dedupe (f.idempotency_key ∷ keys) fs) (dedupe-fresh (f.idempotency_key ∷ keys) fs) in
      ground arith
]

dedupe-Distinct : (keys : List Text) (fs : List FixInput) → Distinct (dedupe keys fs)
unfolding dedupe seen
dedupe-Distinct keys [] = tt
dedupe-Distinct keys (f ∷ fs) = elim (Bool-cases (seen f.idempotency_key keys)) [
  | inl e ↦ ground (arith, dedupe-Distinct keys fs)
  | inr e ↦
      let first =
        All-map (λ (g : FixInput). seen g.idempotency_key (f.idempotency_key ∷ keys) ≡ false)
          (Apart f) (λ g h. ground (arith, text_eq_comm f.idempotency_key g.idempotency_key))
          (dedupe (f.idempotency_key ∷ keys) fs) (dedupe-fresh (f.idempotency_key ∷ keys) fs) in
      ground (arith, dedupe-Distinct (f.idempotency_key ∷ keys) fs)
]

All-insert_by_time :
    (P : FixInput → Type 0) (f : FixInput) (gs : List FixInput)
    → P f
    → All P gs
    → All P (insert_by_time f gs)
unfolding insert_by_time
All-insert_by_time P f [] p h = (p, tt)
All-insert_by_time P f (g ∷ gs) p h = ground (arith, All-insert_by_time P f gs p h.1)

All-by_time : (P : FixInput → Type 0) (fs : List FixInput) → All P fs → All P (by_time fs)
unfolding by_time
All-by_time P [] h = tt
All-by_time P (f ∷ fs) h = All-insert_by_time P f (by_time fs) h.0 (All-by_time P fs h.1)

insert_by_time-Distinct :
    (f : FixInput) (gs : List FixInput)
    → All (Apart f) gs
    → Distinct gs
    → Distinct (insert_by_time f gs)
unfolding insert_by_time
insert_by_time-Distinct f [] a d = (tt, tt)
insert_by_time-Distinct f (g ∷ gs) a d = ground (
  arith,
  insert_by_time-Distinct f gs a.1 d.1,
  All-insert_by_time (Apart g) f gs (Apart-comm f g a.0) d.0,
)

by_time-Distinct : (fs : List FixInput) → Distinct fs → Distinct (by_time fs)
unfolding by_time
by_time-Distinct [] d = tt
by_time-Distinct (f ∷ fs) d =
    insert_by_time-Distinct f (by_time fs) (All-by_time (Apart f) fs d.0) (by_time-Distinct fs d.1)

keep-Distinct : (p : FixInput → Bool) (fs : List FixInput) → Distinct fs → Distinct (keep p fs)
keep-Distinct p [] d = tt
keep-Distinct p (f ∷ fs) d = ground (arith, keep-Distinct p fs d.1, All-keep (Apart f) p fs d.0)

fixes_of-append-All :
    (P : FixInput → Type 0) (old new : List StoredFix)
    → All P (fixes_of old)
    → All P (fixes_of new)
    → All P (fixes_of (old ++ new))
fixes_of-append-All P [] new h k = k
fixes_of-append-All P (row ∷ old) new h k = (h.0, fixes_of-append-All P old new h.1 k)

-- New fixes after stored rows, none of whose keys they have.
fixes_of-append-Distinct :
    (old new : List StoredFix)
    → Distinct (fixes_of old)
    → Distinct (fixes_of new)
    → All (λ f. not (is_stored old f) ≡ true) (fixes_of new)
    → Distinct (fixes_of (old ++ new))
unfolding is_stored
fixes_of-append-Distinct [] new d e h = e
fixes_of-append-Distinct (row ∷ old) new d e h = (
  fixes_of-append-All (Apart row.fix) old new d.0 (
      All-map (λ f. not (is_stored (row ∷ old) f) ≡ true) (Apart row.fix)
        (λ f k. ground (arith, text_eq_comm row.fix.idempotency_key f.idempotency_key))
        (fixes_of new) h),
  fixes_of-append-Distinct old new d.1 e (
      All-map (λ f. not (is_stored (row ∷ old) f) ≡ true) (λ f. not (is_stored old f) ≡ true)
        (λ f k. ground arith) (fixes_of new) h),
)

-- A session of distinct keys whose fixes form a chain has distinct keys after any batch that is
-- ingested without an error, also one that repeats keys of its own or of stored fixes.
pub insert_fixes-Distinct :
    (hex : Text → Text) (preimage : Text → FixInput → Option Text) (nonce : ℕ → Text)
    (received_at : Text) (fixes : List FixInput) (s : Session) {r : InsertResult} {s' : Session}
    → IsChain hex preimage none 0 s.fixes
    → Distinct (fixes_of s.fixes)
    → insert_fixes hex preimage nonce received_at fixes (some s) ≡ ok (r, s')
    → Distinct (fixes_of s'.fixes)
insert_fixes-Distinct hex preimage nonce received_at fixes s c d h =
    let deduped = by_time (dedupe [] fixes) in
    let fresh : FixInput → Bool = λ f. not (is_stored s.fixes f) in
    let (rows, appended, _, all, _, _) =
      insert_fixes-IsChain hex preimage nonce received_at fixes s c h in
    subst (λ l. Distinct (fixes_of l)) (sym appended)
      (fixes_of-append-Distinct s.fixes rows d
        (subst Distinct (sym all) (
          keep-Distinct fresh deduped
            (by_time-Distinct (dedupe [] fixes) (dedupe-Distinct [] fixes))))
        (subst (All (λ f. not (is_stored s.fixes f) ≡ true)) (sym all)
          (All-keep_self fresh deduped)))
