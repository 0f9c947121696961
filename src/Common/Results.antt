-- ===== src/Common/Results.antt =====
-- Exceptions as values: a transaction that throws has no new state.
use mathlib.Core.Path.{◌≡◌, refl}
use mathlib.Core.Logic.{◌⊎◌, inl, inr}
use mathlib.Core.Bool.{Bool, true, false}
use mathlib.Core.Option.{Option, none, some}

pub data Result {ℓ} (E : Type 0) (A : Type ℓ) : Type ℓ where
  ok : A → Result E A
  err : E → Result E A

infixl 5 ◌>>=◌ ◌>>◌
-- The rest of a transaction runs on what was returned; a thrown error is passed on.
abbrev pub ◌>>=◌ {ℓ κ} :
    {E : Type 0} {A : Type ℓ} {B : Type κ} → Result E A → (A → Result E B) → Result E B
err thrown >>= rest = err thrown
ok returned >>= rest = rest returned

abbrev pub ◌>>◌ {ℓ} : {E : Type 0} {B : Type ℓ} → Result E (Unit {0}) → Result E B → Result E B
first >> second = first >>= λ done. second

module _ {E : Type 0} where
  -- `if (!test) throw e`.
  abbrev pub guard : Bool → E → Result E (Unit {0})
  guard false thrown = err thrown
  guard true thrown = ok tt

  abbrev pub or_fail {ℓ} : {A : Type ℓ} → Option A → E → Result E A
  or_fail (some found) missing = ok found
  or_fail none missing = err missing

  pub Result-cases {ℓ} :
      {A : Type ℓ} (r : Result E A)
      → ((returned : A) × (r ≡ ok returned)) ⊎ ((thrown : E) × (r ≡ err thrown))
  Result-cases (err thrown) = inr (thrown, refl)
  Result-cases (ok returned) = inl (returned, refl)

  -- What a chain returned came from its first step.
  pub >>=-eq-ok {ℓ κ} :
      {A : Type ℓ} {B : Type κ} (first : Result E A) (rest : A → Result E B) {b : B}
      → (first >>= rest) ≡ ok b
      → (found : A) × (first ≡ ok found) × (rest found ≡ ok b)
  >>=-eq-ok (err thrown) rest h = cc
  >>=-eq-ok (ok returned) rest h = (returned, refl, h)
