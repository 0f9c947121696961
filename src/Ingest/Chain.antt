-- ===== src/Ingest/Chain.antt =====
-- The hash chain of a session's fixes, and what an ingestion adds to it.
use opa_security_awareness_a.Common.{
  ℕ, suc, ◌+◌, ◌-◌, ◌≤◌, ◌≡◌, refl, sym, ap, ◌∙◌, subst, inl, inr, not, Option, none, some, List,
  [], ◌∷◌, ◌++◌, length, keep, last?, ok, or_fail, >>=-eq-ok, arith, Option-cases, length-keep-le,
  append-nil,
}
use opa_security_awareness_a.Common.Text.{Text}
use opa_security_awareness_a.Ingest.Envelope.{bad_payload, date, canonical_chain_envelope}
use opa_security_awareness_a.Ingest.Fixes.{
  FixInput, StoredFix, Session, InsertResult, dedupe, insert_by_time, by_time, is_stored,
  next_sequence, tail_hash_of, link, link_all, write_rows, insert_into, insert_fixes,
}

-- The fixes of rows, in order.
abbrev pub fixes_of : List StoredFix → List FixInput
fixes_of [] = []
fixes_of (row ∷ rows) = row.fix ∷ fixes_of rows

module _ (hex : Text → Text) (preimage : Text → FixInput → Option Text) where
  -- The two hashes of a row cover what the row holds.
  abbrev pub IsSealed : StoredFix → Type 0
  IsSealed row =
      ((payload : Text) × (preimage row.nonce row.fix ≡ some payload)
        × (row.payload_hash ≡ hex payload))
      × ((envelope : Text) × (canonical_chain_envelope row.previous_hash row.payload_hash
              row.sequence (date (some row.received_at))
            ≡ ok envelope)
          × (row.hash ≡ hex envelope))

  -- Rows numbered on from `n`, each sealed and linked to the hash before it.
  abbrev pub IsChain : Option Text → ℕ → List StoredFix → Type 0
  IsChain previous n [] = Unit
  IsChain previous n (row ∷ rows) =
      (row.previous_hash ≡ previous)
      × (row.sequence ≡ n)
      × IsSealed row
      × IsChain (some row.hash) (suc n) rows

  abbrev pub end_hash : Option Text → List StoredFix → Option Text
  end_hash h [] = h
  end_hash h (row ∷ rows) = end_hash (some row.hash) rows

  IsChain-append :
      (previous : Option Text) (n : ℕ) (xs ys : List StoredFix)
      → IsChain previous n xs
      → IsChain (end_hash previous xs) (n + length xs) ys
      → IsChain previous n (xs ++ ys)
  IsChain-append previous n [] ys h k = subst (λ m. IsChain previous m ys) (omega arith) k
  IsChain-append previous n (x ∷ xs) ys (p, q, s, h) k = (
    p,
    q,
    s,
    IsChain-append (some x.hash) (suc n) xs ys h
        (subst (λ m. IsChain (end_hash (some x.hash) xs) m ys) (omega arith) k),
  )

  end_hash-last :
      (x : StoredFix) (xs : List StoredFix) (h : Option Text)
      → end_hash h (x ∷ xs) ≡ tail_hash_of (last? (x ∷ xs))
  end_hash-last x [] h = refl
  end_hash-last x (y ∷ xs) h = end_hash-last y xs (some x.hash)

  pub end_hash-tail : (xs : List StoredFix) → end_hash none xs ≡ tail_hash_of (last? xs)
  end_hash-tail [] = refl
  end_hash-tail (x ∷ xs) = end_hash-last x xs none

  chain-next_sequence :
      (x : StoredFix) (xs : List StoredFix) (h : Option Text) (n : ℕ)
      → IsChain h n (x ∷ xs)
      → next_sequence (last? (x ∷ xs)) ≡ n + length (x ∷ xs)
  chain-next_sequence x [] h n (_, q, _, _) = omega (arith, q)
  chain-next_sequence x (y ∷ xs) h n (_, _, _, c) =
      omega (arith, chain-next_sequence y xs (some x.hash) (suc n) c)

  tail-next_sequence :
      (xs : List StoredFix) → IsChain none 0 xs → next_sequence (last? xs) ≡ length xs
  tail-next_sequence [] c = refl
  tail-next_sequence (x ∷ xs) c = omega (arith, chain-next_sequence x xs none 0 c)

  module _ (nonce : ℕ → Text) (received_at : Text) where
    link_effect :
        (previous : Option Text) (n : ℕ) (f : FixInput) {row : StoredFix}
        → link hex preimage nonce received_at previous n f ≡ ok row
        → (row.previous_hash ≡ previous) × (row.sequence ≡ n) × IsSealed row × (row.fix ≡ f)
    unfolding link
    link_effect previous n f {row} h =
        let (payload, a, k) = >>=-eq-ok (or_fail (preimage (nonce n) f) bad_payload) _ h in
        let (envelope, c, d) =
          >>=-eq-ok (canonical_chain_envelope previous (hex payload) n (date (some received_at))) _
            k in
        let accepted : preimage (nonce n) f ≡ some payload =
          elim (Option-cases (preimage (nonce n) f)) [
            | inl e ↦ absurd (ground arith)
            | inr (p, e) ↦ ground arith
          ] in
        subst
          (λ (r : StoredFix).
            (r.previous_hash ≡ previous) × (r.sequence ≡ n) × IsSealed r × (r.fix ≡ f))
          {x = record {
            sequence = n;
            fix = f;
            received_at = received_at;
            nonce = nonce n;
            payload_hash = hex payload;
            previous_hash = previous;
            hash = hex envelope;
          }}
          (ground arith) (refl, refl, ((payload, accepted, refl), (envelope, c, refl)), refl)

    link_all-IsChain :
        (previous : Option Text) (n : ℕ) (fs : List FixInput) {rows : List StoredFix}
        → link_all hex preimage nonce received_at previous n fs ≡ ok rows
        → IsChain previous n rows × (fixes_of rows ≡ fs)
    unfolding link_all
    link_all-IsChain previous n [] {rows} h =
        subst (λ r. IsChain previous n r × (fixes_of r ≡ [])) {x = []} (ground arith) (tt, refl)
    link_all-IsChain previous n (f ∷ fs) {rows} h =
        let (row, e, k) = >>=-eq-ok (link hex preimage nonce received_at previous n f) _ h in
        let (rest, c, d) =
          >>=-eq-ok (link_all hex preimage nonce received_at (some row.hash) (suc n) fs) _ k in
        let (p, q, s, x) = link_effect previous n f e in
        let (chain, all) = link_all-IsChain (some row.hash) (suc n) fs c in
        subst (λ r. IsChain previous n r × (fixes_of r ≡ f ∷ fs)) {x = row ∷ rest} (ground arith)
          ((p, q, s, chain), cc)

length-insert_by_time :
    (f : FixInput) (gs : List FixInput) → length (insert_by_time f gs) ≡ suc (length gs)
unfolding insert_by_time
length-insert_by_time f [] = refl
length-insert_by_time f (g ∷ gs) = ground (arith, length-insert_by_time f gs)

length-by_time : (fs : List FixInput) → length (by_time fs) ≡ length fs
unfolding by_time
length-by_time [] = refl
length-by_time (f ∷ fs) = length-insert_by_time f (by_time fs) ∙ ap suc (length-by_time fs)

length-dedupe-le : (keys : List Text) (fs : List FixInput) → length (dedupe keys fs) ≤ length fs
unfolding dedupe
length-dedupe-le keys [] = omega arith
length-dedupe-le keys (f ∷ fs) =
    ground (arith, length-dedupe-le keys fs, length-dedupe-le (f.idempotency_key ∷ keys) fs)

length-fixes_of : (rows : List StoredFix) → length (fixes_of rows) ≡ length rows
length-fixes_of [] = refl
length-fixes_of (row ∷ rows) = ap suc (length-fixes_of rows)

write_rows-effect :
    (hex : Text → Text) (preimage : Text → FixInput → Option Text) (nonce : ℕ → Text)
    (received_at : Text) (a b : ℕ) (s : Session) (rows : List StoredFix) {r : InsertResult}
    {s' : Session}
    → write_rows hex preimage nonce received_at a b s rows ≡ (r, s')
    → (s'.fixes ≡ s.fixes ++ rows)
      × (r.inserted ≡ length rows)
      × (r.skipped_duplicate_in_batch ≡ a)
      × (r.skipped_already_stored ≡ b)
unfolding write_rows
write_rows-effect hex preimage nonce received_at a b s [] h = ground (arith, append-nil s.fixes)
write_rows-effect hex preimage nonce received_at a b s (row ∷ rows) h = ground arith

-- What an ingestion that returns does to a session whose fixes form a chain: it appends rows and
-- changes no other; all the rows form a chain again, numbered from zero without a gap, each sealed
-- by its two hashes and linked to the hash before it; the new rows hold what the deduplication and
-- the sort by time leave of the batch, without the keys that were stored; and the inserted and
-- skipped fixes add up to the batch.
pub insert_fixes-IsChain :
    (hex : Text → Text) (preimage : Text → FixInput → Option Text) (nonce : ℕ → Text)
    (received_at : Text) (fixes : List FixInput) (s : Session) {r : InsertResult} {s' : Session}
    → IsChain hex preimage none 0 s.fixes
    → insert_fixes hex preimage nonce received_at fixes (some s) ≡ ok (r, s')
    → (rows : List StoredFix) × (s'.fixes ≡ s.fixes ++ rows)
      × IsChain hex preimage none 0 s'.fixes
      × (fixes_of rows ≡ keep (λ f. not (is_stored s.fixes f)) (by_time (dedupe [] fixes)))
      × (r.inserted ≡ length rows)
      × (r.inserted + r.skipped_duplicate_in_batch + r.skipped_already_stored ≡ length fixes)
unfolding insert_fixes insert_into
insert_fixes-IsChain hex preimage nonce received_at fixes s {r} {s'} c h =
    let deduped = by_time (dedupe [] fixes) in
    let fresh = keep (λ f. not (is_stored s.fixes f)) deduped in
    let (rows, e, d) =
      >>=-eq-ok
        (link_all hex preimage nonce received_at (tail_hash_of (last? s.fixes))
          (next_sequence (last? s.fixes)) fresh)
        _ h in
    let (chain, all) =
      link_all-IsChain hex preimage nonce received_at (tail_hash_of (last? s.fixes))
        (next_sequence (last? s.fixes)) fresh e in
    let (appended, inserted, in_batch, already) =
      write_rows-effect hex preimage nonce received_at (length fixes - length deduped)
        (length deduped - length fresh) s rows {r = r} {s' = s'} (ground arith) in
    let linked : IsChain hex preimage (end_hash hex preimage none s.fixes) (0 + length s.fixes)
        rows =
      subst (λ x. IsChain hex preimage x (0 + length s.fixes) rows)
        (sym (end_hash-tail hex preimage s.fixes))
        (subst (λ n. IsChain hex preimage (tail_hash_of (last? s.fixes)) n rows)
          (omega (arith, tail-next_sequence hex preimage s.fixes c)) chain) in
    let total : r.inserted + r.skipped_duplicate_in_batch + r.skipped_already_stored
        ≡ length fixes =
      omega (
        arith,
        inserted,
        in_batch,
        already,
        length-dedupe-le [] fixes,
        length-by_time (dedupe [] fixes),
        length-keep-le (λ f. not (is_stored s.fixes f)) deduped,
        length-fixes_of rows,
        ap length all,
      ) in
    (
      rows,
      appended,
      subst (IsChain hex preimage none 0) (sym appended)
          (IsChain-append hex preimage none 0 s.fixes rows c linked),
      all,
      inserted,
      total,
    )
