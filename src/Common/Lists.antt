-- ===== src/Common/Lists.antt =====
-- Lists measured by native numbers, and predicates over lists by recursion.
use Prim.Native.Nat.{ℕ, zero, suc, ◌+◌, ◌-◌, ◌≤◌, min}
use mathlib.Core.Path.{◌≡◌, refl, ap}
use mathlib.Core.Logic.{◌⊎◌, inl, inr}
use mathlib.Core.Bool.{Bool, true, false, ◌||◌, ◌&&◌, not}
use mathlib.Core.List.{List, [], ◌∷◌, ◌++◌, map, Memᴰ}
use mathlib.Core.Option.{Option, none, some}
use native.Mathlib.Omega.{arith}
use opa_security_awareness_a.Common.Tests.{if◌then◌else◌, Bool-cases}

module _ {ℓ} {A : Type ℓ} where
  abbrev pub length : List A → ℕ
  length [] = 0
  length (x ∷ xs) = suc (length xs)

  abbrev pub take : ℕ → List A → List A
  take zero xs = []
  take (suc n) [] = []
  take (suc n) (x ∷ xs) = x ∷ take n xs

  abbrev pub drop : ℕ → List A → List A
  drop zero xs = xs
  drop (suc n) [] = []
  drop (suc n) (x ∷ xs) = drop n xs

  -- The rows that pass a Boolean test, in order (`filter` of the source).
  abbrev pub keep : (A → Bool) → List A → List A
  keep p [] = []
  keep p (x ∷ xs) = let rest = keep p xs in if p x then x ∷ rest else rest

  abbrev pub any : (A → Bool) → List A → Bool
  any p [] = false
  any p (x ∷ xs) = p x || any p xs

  -- `findFirst`.
  abbrev pub find : (A → Bool) → List A → Option A
  find p [] = none
  find p (x ∷ xs) = if p x then some x else find p xs

  abbrev pub last? : List A → Option A
  last? [] = none
  last? (x ∷ []) = some x
  last? (x ∷ y ∷ r) = last? (y ∷ r)

  abbrev pub All {κ} : (A → Type κ) → List A → Type κ
  All P [] = Unit
  All P (x ∷ xs) = P x × All P xs

  pub length-append : (xs ys : List A) → length (xs ++ ys) ≡ length xs + length ys
  length-append [] ys = omega arith
  length-append (x ∷ xs) ys = omega (arith, length-append xs ys)

  pub length-drop : (n : ℕ) (xs : List A) → length (drop n xs) ≡ length xs - n
  length-drop zero xs = omega arith
  length-drop (suc n) [] = omega arith
  length-drop (suc n) (x ∷ xs) = omega (arith, length-drop n xs)

  pub length-take : (n : ℕ) (xs : List A) → length (take n xs) ≡ min n (length xs)
  length-take zero xs = omega arith
  length-take (suc n) [] = omega arith
  length-take (suc n) (x ∷ xs) = omega (arith, length-take n xs)

  pub take-append-drop : (n : ℕ) (xs : List A) → take n xs ++ drop n xs ≡ xs
  take-append-drop zero xs = refl
  take-append-drop (suc n) [] = refl
  take-append-drop (suc n) (x ∷ xs) = ap (λ r. x ∷ r) (take-append-drop n xs)

  -- A prefix is as long as was asked for, or it is the whole list.
  pub take_cases :
      (n : ℕ) (xs : List A) → (length (take n xs) ≡ n) ⊎ ((take n xs ≡ xs) × (drop n xs ≡ []))
  take_cases zero xs = inl refl
  take_cases (suc n) [] = inr (refl, refl)
  take_cases (suc n) (x ∷ xs) = elim (take_cases n xs) [
    | inl e ↦ inl (ap suc e)
    | inr (e, f) ↦ inr (ap (λ r. x ∷ r) e, f)
  ]

  pub length-keep-le : (p : A → Bool) (xs : List A) → length (keep p xs) ≤ length xs
  length-keep-le p [] = omega arith
  length-keep-le p (x ∷ xs) = ground (arith, length-keep-le p xs)

  pub length-keep-split :
      (p : A → Bool) (xs : List A)
      → length xs ≡ length (keep p xs) + length (keep (λ x. not (p x)) xs)
  length-keep-split p [] = omega arith
  length-keep-split p (x ∷ xs) = ground (arith, length-keep-split p xs)

  pub keep-and : (p q : A → Bool) (xs : List A) → keep (λ x. p x && q x) xs ≡ keep q (keep p xs)
  keep-and p q [] = refl
  keep-and p q (x ∷ xs) = ground (arith, keep-and p q xs)

  -- Two tests that agree on the rows select the same ones.
  pub keep-agree : (p q : A → Bool) (xs : List A) → All (λ x. p x ≡ q x) xs → keep p xs ≡ keep q xs
  keep-agree p q [] h = refl
  keep-agree p q (x ∷ xs) h = ground (arith, h.0, keep-agree p q xs h.1)

  -- A test that refuses nothing which the other selects can be dropped.
  pub keep-keep :
      (p q : A → Bool) (xs : List A)
      → ((x : A) → q x ≡ true → p x ≡ true)
      → keep q (keep p xs) ≡ keep q xs
  keep-keep p q [] h = refl
  keep-keep p q (x ∷ xs) h = ground (arith, h x, keep-keep p q xs h)

  pub keep_comm : (p q : A → Bool) (xs : List A) → keep p (keep q xs) ≡ keep q (keep p xs)
  keep_comm p q [] = refl
  keep_comm p q (x ∷ xs) = ground (arith, keep_comm p q xs)

  pub keep-All : (p : A → Bool) (xs : List A) → All (λ x. p x ≡ true) xs → keep p xs ≡ xs
  keep-All p [] h = refl
  keep-All p (x ∷ xs) h = ground (arith, h.0, keep-All p xs h.1)

  pub keep-none : (p : A → Bool) (xs : List A) → All (λ x. p x ≡ false) xs → keep p xs ≡ []
  keep-none p [] h = refl
  keep-none p (x ∷ xs) h = ground (arith, h.0, keep-none p xs h.1)

  pub All-keep_self : (p : A → Bool) (xs : List A) → All (λ x. p x ≡ true) (keep p xs)
  All-keep_self p [] = tt
  All-keep_self p (x ∷ xs) = ground (arith, All-keep_self p xs)

  keep-Memᴰ_into :
      (p : A → Bool) (xs ys : List A)
      → ((x : A) → Memᴰ x xs → Memᴰ x ys)
      → All (λ x. Memᴰ x ys) (keep p xs)
  keep-Memᴰ_into p [] ys h = tt
  keep-Memᴰ_into p (x ∷ xs) ys h =
      let rest = keep-Memᴰ_into p xs ys (λ y m. h y (Memᴰ.tail m)) in
      elim (Bool-cases (p x)) [ inl e ↦ rw e (h x (Memᴰ.head refl), rest) | inr e ↦ rw e rest ]

  -- What passes a test was there.
  pub keep-Memᴰ : (p : A → Bool) (xs : List A) → All (λ x. Memᴰ x xs) (keep p xs)
  keep-Memᴰ p xs = keep-Memᴰ_into p xs xs (λ x m. m)

  -- What a search returns splits the list: the tested rows before it all fail.
  pub find-some :
      (p : A → Bool) (xs : List A) {x : A}
      → find p xs ≡ some x
      → (pre : List A) × (post : List A) × (xs ≡ pre ++ x ∷ post)
        × (p x ≡ true)
        × All (λ y. p y ≡ false) pre
  find-some p [] h = cc
  find-some p (y ∷ xs) h = elim (Bool-cases (p y)) [
    | inl e ↦ ([], xs, ground arith, ground arith, tt)
    | inr e ↦
        let (pre, post, split, hit, before) = find-some p xs (ground arith) in
        (y ∷ pre, post, ap (λ r. y ∷ r) split, hit, (e, before))
  ]

  pub find-none : (p : A → Bool) (xs : List A) → find p xs ≡ none → All (λ y. p y ≡ false) xs
  find-none p [] h = tt
  find-none p (y ∷ xs) h = ground (arith, find-none p xs)

  pub keep-append : (p : A → Bool) (xs ys : List A) → keep p (xs ++ ys) ≡ keep p xs ++ keep p ys
  keep-append p [] ys = refl
  keep-append p (x ∷ xs) ys = ground (arith, keep-append p xs ys)

  pub last?-append_one : (xs : List A) (x : A) → last? (xs ++ x ∷ []) ≡ some x
  last?-append_one [] x = refl
  last?-append_one (y ∷ []) x = refl
  last?-append_one (y ∷ z ∷ r) x = last?-append_one (z ∷ r) x

  pub All-append {κ} : (P : A → Type κ) (xs ys : List A) → All P xs → All P ys → All P (xs ++ ys)
  All-append P [] ys hx hy = hy
  All-append P (x ∷ xs) ys hx hy = (hx.0, All-append P xs ys hx.1 hy)

  pub All-drop {κ} : (P : A → Type κ) (n : ℕ) (xs : List A) → All P xs → All P (drop n xs)
  All-drop P zero xs h = h
  All-drop P (suc n) [] h = h
  All-drop P (suc n) (x ∷ xs) h = All-drop P n xs h.1

  pub All-keep {κ} : (P : A → Type κ) (p : A → Bool) (xs : List A) → All P xs → All P (keep p xs)
  All-keep P p [] h = h
  All-keep P p (x ∷ xs) h = ground (arith, All-keep P p xs h.1)

  pub All-map {κ μ} :
      (P : A → Type κ) (Q : A → Type μ) (f : (a : A) → P a → Q a) (xs : List A)
      → All P xs
      → All Q xs
  All-map P Q f [] h = tt
  All-map P Q f (x ∷ xs) h = (f x h.0, All-map P Q f xs h.1)

pub length-map {ℓ κ} :
    {A : Type ℓ} {B : Type κ} (f : A → B) (xs : List A) → length (map f xs) ≡ length xs
length-map f [] = refl
length-map f (x ∷ xs) = ap suc (length-map f xs)
