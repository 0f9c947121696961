-- ===== src/Ingest/Replay.antt =====
-- A batch that arrives again: the server's half of at-least-once delivery.
use opa_security_awareness_a.Common.{
  ℕ, ◌-◌, ◌≡◌, refl, sym, ap, subst, inl, inr, true, false, ◌||◌, not, Option, none, some, List, [],
  ◌∷◌, ◌++◌, length, keep, last?, All, ok, ◌>>=◌, arith, Bool-cases, keep-none, All-map,
}
use opa_security_awareness_a.Common.Text.{Text, text_eq_refl}
use opa_security_awareness_a.Ingest.Fixes.{
  FixInput, StoredFix, Session, InsertResult, dedupe, by_time, is_stored, link_all, write_rows,
  insert_into, insert_fixes, tail_hash_of, next_sequence,
}
use opa_security_awareness_a.Ingest.Chain.{IsChain, fixes_of, insert_fixes-IsChain}

pub is_stored-append :
    (xs ys : List StoredFix) (f : FixInput)
    → is_stored (xs ++ ys) f ≡ is_stored xs f || is_stored ys f
unfolding is_stored
is_stored-append [] ys f = refl
is_stored-append (x ∷ xs) ys f = ground (arith, is_stored-append xs ys f)

-- Every fix of a row is stored among the rows.
pub fixes_of-stored : (rows : List StoredFix) → All (λ f. is_stored rows f ≡ true) (fixes_of rows)
unfolding is_stored
fixes_of-stored [] = tt
fixes_of-stored (row ∷ rows) = (
  ground (arith, text_eq_refl row.fix.idempotency_key),
  All-map (λ f. is_stored rows f ≡ true) (λ f. is_stored (row ∷ rows) f ≡ true)
      (λ f h. ground arith) (fixes_of rows) (fixes_of-stored rows),
)

-- What was stored, or is kept and stored among the new rows, is stored afterwards.
pub stored_after :
    (old new : List StoredFix) (fs : List FixInput)
    → All (λ f. is_stored new f ≡ true) (keep (λ f. not (is_stored old f)) fs)
    → All (λ f. not (is_stored (old ++ new) f) ≡ false) fs
stored_after old new [] h = tt
stored_after old new (f ∷ fs) h = elim (Bool-cases (is_stored old f)) [
  | inl e ↦ (ground (arith, is_stored-append old new f), stored_after old new fs (ground arith))
  | inr e ↦
      let both : (is_stored new f ≡ true)
          × All (λ g. is_stored new g ≡ true) (keep (λ g. not (is_stored old g)) fs) =
        ground arith in
      (ground (arith, is_stored-append old new f, both.0), stored_after old new fs both.1)
]

-- The same batch again, at any later time and with other nonces, after it was ingested into a chain:
-- it returns, inserts nothing, and leaves the session exactly as it was.
pub insert_fixes-again :
    (hex : Text → Text) (preimage : Text → FixInput → Option Text) (nonce nonce' : ℕ → Text)
    (received_at received_again : Text) (fixes : List FixInput) (s : Session) {r : InsertResult}
    {s' : Session}
    → IsChain hex preimage none 0 s.fixes
    → insert_fixes hex preimage nonce received_at fixes (some s) ≡ ok (r, s')
    → (r' : InsertResult) × (insert_fixes hex preimage nonce' received_again fixes (some s')
        ≡ ok (r', s'))
      × (r'.inserted ≡ 0)
unfolding insert_fixes insert_into write_rows link_all
insert_fixes-again hex preimage nonce nonce' received_at received_again fixes s {r} {s'} c h =
    let deduped = by_time (dedupe [] fixes) in
    let (rows, appended, _, all, _, _) =
      insert_fixes-IsChain hex preimage nonce received_at fixes s c h in
    let known : All (λ f. not (is_stored s'.fixes f) ≡ false) deduped =
      subst (λ x. All (λ f. not (is_stored x f) ≡ false) deduped) (sym appended)
        (stored_after s.fixes rows deduped
          (subst (All (λ f. is_stored rows f ≡ true)) all (fixes_of-stored rows))) in
    let nothing = keep-none (λ f. not (is_stored s'.fixes f)) deduped known in
    (
      _,
      ap
          (λ (fs : List FixInput).
            link_all hex preimage nonce' received_again (tail_hash_of (last? s'.fixes))
              (next_sequence (last? s'.fixes)) fs
            >>= λ new. ok (
                write_rows hex preimage nonce' received_again (length fixes - length deduped)
                  (length deduped - length fs) s' new))
          nothing,
      refl,
    )
