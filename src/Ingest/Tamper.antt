-- ===== src/Ingest/Tamper.antt =====
-- A session's chain is fixed by its last hash.
use opa_security_awareness_a.Common.{
  ℕ, suc, ◌≡◌, ◌≢◌, sym, ap, ◌∙◌, ◌⊎◌, inl, inr, false, Option, none, some, List, [], ◌∷◌, length,
  last?, arith, Bool-cases, ok,
}
use opa_security_awareness_a.Common.Text.{Text, text_eq, text_eq_refl, text_eq_sound}
use opa_security_awareness_a.Ingest.Fixes.{FixInput, StoredFix, tail_hash_of}
use opa_security_awareness_a.Ingest.Chain.{IsChain, IsSealed, end_hash, end_hash-tail}
use opa_security_awareness_a.Ingest.Envelope.{date, canonical_timestamp}
use opa_security_awareness_a.Ingest.Decode.{envelope-injective}

-- Two texts that the digest does not tell apart.
abbrev pub Collision : (Text → Text) → Type 0
Collision hex = (x : Text) × (y : Text) × (x ≢ y) × (hex x ≡ hex y)

-- Two rows that say the same: all that their hashes cover.
abbrev pub SameRow : (Text → FixInput → Option Text) → StoredFix → StoredFix → Type 0
SameRow preimage a b =
    (a.sequence ≡ b.sequence)
    × (a.received_at ≡ b.received_at)
    × (a.previous_hash ≡ b.previous_hash)
    × (a.payload_hash ≡ b.payload_hash)
    × (a.hash ≡ b.hash)
    × (preimage a.nonce a.fix ≡ preimage b.nonce b.fix)

abbrev pub SameRows : (Text → FixInput → Option Text) → List StoredFix → List StoredFix → Type 0
SameRows preimage [] [] = Unit
SameRows preimage [] (b ∷ bs) = ⊥
SameRows preimage (a ∷ as') [] = ⊥
SameRows preimage (a ∷ as') (b ∷ bs) = SameRow preimage a b × SameRows preimage as' bs

distinct : (x y : Text) → text_eq x y ≡ false → x ≢ y
distinct x y h e = ground (arith, text_eq_refl x, ap (text_eq x) e)

same_digest : (hex : Text → Text) (x y : Text) → hex x ≡ hex y → (x ≡ y) ⊎ Collision hex
same_digest hex x y h = elim (Bool-cases (text_eq x y)) [
  | inl e ↦ inl (text_eq_sound x y e)
  | inr e ↦ inr (x, y, distinct x y e, h)
]

date-injective :
    (a b : Text) → canonical_timestamp (date (some a)) ≡ canonical_timestamp (date (some b)) → a ≡ b
unfolding canonical_timestamp
date-injective a b h = cc

sealed-SameRow :
    (hex : Text → Text) (preimage : Text → FixInput → Option Text) (a b : StoredFix)
    → IsSealed hex preimage a
    → IsSealed hex preimage b
    → a.hash ≡ b.hash
    → SameRow preimage a b ⊎ Collision hex
sealed-SameRow hex preimage a b ((p, pa, ha), (e, ea, ga)) ((q, pb, hb), (f, fb, gb)) h =
    elim (same_digest hex e f (sym ga ∙ h ∙ gb)) [
      | inr c ↦ inr c
      | inl same ↦
          let (prev, payload, seq, (at, l, r)) =
            envelope-injective a.previous_hash b.previous_hash a.payload_hash b.payload_hash
              a.sequence b.sequence (date (some a.received_at)) (date (some b.received_at)) {t = f}
              (ea ∙ ap ok same) fb in
          let rcv = date-injective a.received_at b.received_at (l ∙ sym r) in
          elim (same_digest hex p q (sym ha ∙ payload ∙ hb)) [
            | inr c ↦ inr c
            | inl equal ↦ inl (seq, rcv, prev, payload, h, pa ∙ ap some equal ∙ sym pb)
          ]
    ]

some-injective : {x y : Text} → some x ≡ some y → x ≡ y
some-injective h = cc

chains-SameRows :
    (hex : Text → Text) (preimage : Text → FixInput → Option Text) (h k : Option Text) (n m : ℕ)
    (xs ys : List StoredFix)
    → IsChain hex preimage h n xs
    → IsChain hex preimage k m ys
    → length xs ≡ length ys
    → end_hash hex preimage h xs ≡ end_hash hex preimage k ys
    → ((h ≡ k) × SameRows preimage xs ys) ⊎ Collision hex
chains-SameRows hex preimage h k n m [] [] c d l e = inl (e, tt)
chains-SameRows hex preimage h k n m [] (y ∷ ys) c d l e = absurd (omega (arith, l))
chains-SameRows hex preimage h k n m (x ∷ xs) [] c d l e = absurd (omega (arith, l))
chains-SameRows hex preimage h k n m (x ∷ xs) (y ∷ ys) (p, a, s, c) (q, b, t, d) l e =
    elim (chains-SameRows hex preimage (some x.hash) (some y.hash) (suc n) (suc m) xs ys c d
      (omega (arith, l)) e) [
        | inr found ↦ inr found
        | inl (same, rows) ↦ elim (sealed-SameRow hex preimage x y s t (some-injective same)) [
          | inr found ↦ inr found
          | inl row ↦ inl (sym p ∙ row.2 ∙ q, (row, rows))
        ]
      ]

-- Two chains of the same number of fixes whose last hashes are equal agree, row by row, in the
-- sequence number, the receipt time, both hashes, the link, and the text that is the preimage of the
-- payload hash - or else they exhibit two different texts with one digest. So none of these can be
-- changed, reordered or replaced under an unchanged tail hash, unless the digest collides; a column
-- that the preimage leaves out is not protected.
pub tampered_chain :
    (hex : Text → Text) (preimage : Text → FixInput → Option Text) (xs ys : List StoredFix)
    → IsChain hex preimage none 0 xs
    → IsChain hex preimage none 0 ys
    → length xs ≡ length ys
    → tail_hash_of (last? xs) ≡ tail_hash_of (last? ys)
    → SameRows preimage xs ys ⊎ Collision hex
tampered_chain hex preimage xs ys c d l e =
    elim (chains-SameRows hex preimage none none 0 0 xs ys c d l
      (end_hash-tail hex preimage xs ∙ e ∙ sym (end_hash-tail hex preimage ys))) [
        | inl (same, rows) ↦ inl rows
        | inr found ↦ inr found
      ]
