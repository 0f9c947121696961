-- ===== src/Ingest/Decode.antt =====
-- The chain envelope can be read back.
use opa_security_awareness_a.Common.{
  ℕ, ◌≡◌, refl, sym, ap, ◌∙◌, Bool, false, ◌||◌, Option, none, some, [], ◌∷◌, ◌++◌, any, length,
  drop, append_assoc, ok, >>=-eq-ok, arith, ◌==◌,
}
use opa_security_awareness_a.Common.Text.{Text, codes, decimal, decimal-injective}
use opa_security_awareness_a.Ingest.Envelope.{
  is_digest, canonical_digest, canonical_sequence, assert_no_delimiter, canonical_previous,
  canonical_chain_envelope, Timestamp, canonical_timestamp,
}

abbrev is_delimiter : ℕ → Bool
is_delimiter c = c == b'|' || c == b'='

-- What stands before the first bar is determined by the whole text.
split_bar :
    (xs ys a b : Text)
    → any is_delimiter xs ≡ false
    → any is_delimiter ys ≡ false
    → xs ++ b'|' ∷ a ≡ ys ++ b'|' ∷ b
    → (xs ≡ ys) × (a ≡ b)
split_bar [] [] a b p q h = (refl, cc)
split_bar [] (y ∷ ys) a b p q h = ground arith
split_bar (x ∷ xs) [] a b p q h = ground arith
split_bar (x ∷ xs) (y ∷ ys) a b p q h =
    let (e, f) = split_bar xs ys a b (ground arith) (ground arith) (cc) in (ground (arith, e), f)

-- What follows the previous hash, the payload hash and the sequence number, each after its bar.
abbrev after_sequence : Text → Text
after_sequence received = codes "rcv=" ++ received

abbrev after_payload : Text → Text → Text
after_payload seq received = codes "seq=" ++ (seq ++ b'|' ∷ after_sequence received)

abbrev after_previous : Text → Text → Text → Text
after_previous payload seq received =
    codes "payload=" ++ (payload ++ b'|' ∷ after_payload seq received)

-- The parts of an envelope that was made.
abbrev Parts : Option Text → Text → ℕ → Text → Text → Type 0
Parts previous payload n received t =
    (prev : Text) × (canonical_previous previous ≡ ok prev)
    × (any is_delimiter prev ≡ false)
    × (any is_delimiter payload ≡ false)
    × (any is_delimiter (decimal n) ≡ false)
    × (t ≡ codes "v1|prev=" ++ (prev ++ b'|' ∷ after_previous payload (decimal n) received))

nested :
    (a b c d e f g h : Text)
    → a ++ b ++ c ++ d ++ e ++ f ++ g ++ h ≡ a ++ (b ++ (c ++ (d ++ (e ++ (f ++ (g ++ h))))))
nested a b c d e f g h = simp append_assoc refl

envelope-Parts :
    (previous : Option Text) (payload : Text) (n : ℕ) (received : Timestamp) {t : Text}
    → canonical_chain_envelope previous payload n received ≡ ok t
    → (rcv : Text) × (canonical_timestamp received ≡ ok rcv) × Parts previous payload n rcv t
unfolding canonical_chain_envelope canonical_digest canonical_sequence canonical_timestamp
    assert_no_delimiter
envelope-Parts previous payload n received {t} h =
    let (prev, e, k) = >>=-eq-ok (canonical_previous previous) _ h in
    let (_, _, k₁) = >>=-eq-ok (canonical_digest payload) _ k in
    let (_, _, k₂) = >>=-eq-ok (canonical_sequence n) _ k₁ in
    let (rcv, q, _) = >>=-eq-ok (canonical_timestamp received) _ k₂ in
    let whole : t
        ≡ codes "v1|prev="
          ++ prev
          ++ codes "|payload="
          ++ payload
          ++ codes "|seq="
          ++ decimal n
          ++ codes "|rcv="
          ++ rcv =
      ground arith in
    (
      rcv,
      q,
      (
        prev,
        e,
        ground arith,
        ground arith,
        ground arith,
        whole
            ∙ nested (codes "v1|prev=") prev (codes "|payload=") payload (codes "|seq=") (decimal n)
                (codes "|rcv=") rcv,
      ),
    )

null-not_digest : (t : Text) → t ≡ codes "null" → ¬ (length t ≡ 64)
null-not_digest t h k = omega (arith, k, ap length h)

canonical_previous-injective :
    (p q : Option Text) {t : Text}
    → canonical_previous p ≡ ok t
    → canonical_previous q ≡ ok t
    → p ≡ q
unfolding canonical_previous canonical_digest is_digest
canonical_previous-injective none none h k = refl
canonical_previous-injective none (some q) h k =
    absurd (null-not_digest q (ground arith) (ground arith))
canonical_previous-injective (some p) none h k =
    absurd (null-not_digest p (ground arith) (ground arith))
canonical_previous-injective (some p) (some q) h k = ground arith

-- The bytes that a row's hash covers determine what they were made of: when two calls of
-- canonicalChainEnvelope return the same text, they had the same previous hash, payload hash and
-- sequence number, and receipt times of the same canonical text, in milliseconds.
pub envelope-injective :
    (previous previous' : Option Text) (payload payload' : Text) (n n' : ℕ)
    (received received' : Timestamp) {t : Text}
    → canonical_chain_envelope previous payload n received ≡ ok t
    → canonical_chain_envelope previous' payload' n' received' ≡ ok t
    → (previous ≡ previous')
      × (payload ≡ payload')
      × (n ≡ n')
      × ((rcv : Text) × (canonical_timestamp received ≡ ok rcv)
          × (canonical_timestamp received' ≡ ok rcv))
envelope-injective previous previous' payload payload' n n' received received' {t} h h' =
    let (rcv, w, (prev, a, b, c, d, e)) = envelope-Parts previous payload n received h in
    let (rcv', w', (prev', a', b', c', d', e')) =
      envelope-Parts previous' payload' n' received' h' in
    let (p, r) =
      split_bar prev prev' (after_previous payload (decimal n) rcv)
        (after_previous payload' (decimal n') rcv') b b' (ap (drop 8) (sym e ∙ e')) in
    let (q, s) =
      split_bar payload payload' (after_payload (decimal n) rcv) (after_payload (decimal n') rcv') c
        c' (ap (drop 8) r) in
    let (u, v) =
      split_bar (decimal n) (decimal n') (after_sequence rcv) (after_sequence rcv') d d'
        (ap (drop 4) s) in
    (
      canonical_previous-injective previous previous' a (a' ∙ ap ok (sym p)),
      q,
      decimal-injective n n' u,
      (rcv, w, w' ∙ ap ok (sym (ap (drop 4) v))),
    )
