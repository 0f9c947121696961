-- ===== src/Delivery/Truth.antt =====
-- The delivery status as evidence comes in, and the policy's numbers.
use opa_security_awareness_a.Common.{
  ℕ, zero, suc, ◌+◌, ◌^◌, ◌≤◌, ◌<◌, min, ◌≡◌, refl, ◌⊎◌, inl, inr, Bool, true, false, none, some,
  List, [], ◌∷◌, any, arith, ◌||◌, Bool-cases, leb,
}
use opa_security_awareness_a.Delivery.Policy.{
  DeliveryStatus, provider_accepted, unknown, receipt_status, is_delivered, retry_delay, base_delay,
  max_delivery_attempts,
}
use opa_security_awareness_a.Delivery.Receipts.{reconcile_delay}

-- Evidence of an attempt, applied in the order of arrival.
abbrev pub after_evidence : DeliveryStatus → List DeliveryStatus → DeliveryStatus
after_evidence s [] = s
after_evidence s (e ∷ es) = after_evidence (receipt_status s e) es

receipt_status-delivered :
    (s e : DeliveryStatus) → is_delivered (receipt_status s e) ≡ is_delivered s || is_delivered e
unfolding receipt_status
receipt_status-delivered s e = ground arith

-- Whatever the order and the repetitions: an attempt ends as delivered exactly when it was, or when
-- one piece of the evidence says so.
pub after_evidence-delivered :
    (s : DeliveryStatus) (es : List DeliveryStatus)
    → is_delivered (after_evidence s es) ≡ is_delivered s || any is_delivered es
after_evidence-delivered s [] = ground arith
after_evidence-delivered s (e ∷ es) =
    ground (arith, receipt_status-delivered s e, after_evidence-delivered (receipt_status s e) es)

-- The same evidence again changes nothing; a late acceptance or uncertainty leaves a failure as it
-- is; and a status is delivered after evidence only if it was, or if the evidence says so.
pub receipt_status_laws :
    (s e : DeliveryStatus)
    → (receipt_status (receipt_status s e) e ≡ receipt_status s e)
      × (receipt_status DeliveryStatus.failed provider_accepted ≡ DeliveryStatus.failed)
      × (receipt_status DeliveryStatus.failed unknown ≡ DeliveryStatus.failed)
      × (is_delivered (receipt_status s e) ≡ is_delivered s || is_delivered e)
unfolding receipt_status
receipt_status_laws s e = ground arith

-- A delay is given exactly for a retryable failure of one of the first four attempts; it is then
-- between one minute and an hour, plus the jitter.
pub retry_delay_bounds :
    (jitter number : ℕ) (retryable : Bool)
    → ((retry_delay jitter number retryable ≡ none)
        × ((retryable ≡ false) ⊎ (number ≡ 0) ⊎ (max_delivery_attempts ≤ number)))
      ⊎ ((d : ℕ) × (retry_delay jitter number retryable ≡ some d)
          × (60000 + jitter ≤ d)
          × (d ≤ 3600000 + jitter)
          × (retryable ≡ true)
          × (0 < number)
          × (number < max_delivery_attempts))
unfolding retry_delay
retry_delay_bounds jitter number false = inl (refl, inl refl)
retry_delay_bounds jitter zero true = inl (ground arith, inr (inl refl))
retry_delay_bounds jitter (suc n) true = elim (Bool-cases (leb max_delivery_attempts (suc n))) [
  | inl e ↦ inl (ground arith, inr (inr (ground arith)))
  | inr e ↦ inr (
    base_delay (suc n) + jitter,
    ground arith,
    ground arith,
    ground arith,
    refl,
    omega arith,
    ground arith,
  )
]

doubled : (n : ℕ) → n ≤ 7 → (1 ≤ 2 ^ n) × (2 ^ n ≤ 128)
doubled zero h = omega arith
doubled (suc zero) h = omega arith
doubled (suc (suc zero)) h = omega arith
doubled (suc (suc (suc zero))) h = omega arith
doubled (suc (suc (suc (suc zero)))) h = omega arith
doubled (suc (suc (suc (suc (suc zero))))) h = omega arith
doubled (suc (suc (suc (suc (suc (suc zero)))))) h = omega arith
doubled (suc (suc (suc (suc (suc (suc (suc zero))))))) h = omega arith
doubled (suc (suc (suc (suc (suc (suc (suc (suc n)))))))) h = absurd (omega arith)

-- An unmatched receipt is looked at again after half a minute at least and an hour at most.
pub reconcile_delay_bounds : (n : ℕ) → (30000 ≤ reconcile_delay n) × (reconcile_delay n ≤ 3600000)
unfolding reconcile_delay
reconcile_delay_bounds n = omega (arith, doubled (min n 7) (omega arith))
