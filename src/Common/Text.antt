-- ===== src/Common/Text.antt =====
-- Text as a list of character codes: its equality test, the decimal print of a number, and the
-- key `prefix:number`.
use Prim.Native.Char.{code}
use Prim.Native.Nat.{ℕ, zero, suc, ◌+◌, ◌*◌, ◌/◌, ◌%◌, ◌≤◌, ◌<◌}
use Prim.Native.String.{String}
use mathlib.Core.Path.{◌≡◌, refl, sym, ap, subst, ◌∙◌}
use mathlib.Core.Logic.{◌↔◌, ◌≢◌}
use mathlib.Core.Bool.{Bool, true, false, ◌&&◌, ◌||◌}
use mathlib.Core.List.{List, [], ◌∷◌, ◌++◌, map, reverse, reverse-reverse, reverse-cons}
use native.Mathlib.Omega.{arith}
use opa_security_awareness_a.Common.Tests.{◌==◌, ltb, leb, if◌then◌else◌}
use opa_security_awareness_a.Common.Lists.{All, All-append}

abbrev pub Text : Type 0
Text = List ℕ

abbrev pub codes : String → Text
codes String.[] = []
codes (String.◌∷◌ c s) = code c ∷ codes s

-- `a === b` on strings.
unfoldable pub text_eq : Text → Text → Bool
text_eq [] [] = true
text_eq [] (b ∷ bs) = false
text_eq (a ∷ as') [] = false
text_eq (a ∷ as') (b ∷ bs) = a == b && text_eq as' bs

-- The characters that `trim` and `\s` take for white space.
unfoldable pub is_space : ℕ → Bool
is_space c =
    (leb 9 c && leb c 13)
    || c == 32
    || c == 160
    || c == 5760
    || (leb 8192 c && leb c 8202)
    || c == 8232
    || c == 8233
    || c == 8239
    || c == 8287
    || c == 12288
    || c == 65279

unfoldable pub trim_start : Text → Text
trim_start [] = []
trim_start (c ∷ cs) = let rest = trim_start cs in if is_space c then rest else c ∷ cs

unfoldable pub trim : Text → Text
trim t = reverse (trim_start (reverse (trim_start t)))

pub text_eq_refl : (a : Text) → text_eq a a ≡ true
unfolding text_eq
text_eq_refl [] = refl
text_eq_refl (a ∷ r) = ground (arith, text_eq_refl r)

pub text_eq_sound : (a b : Text) → text_eq a b ≡ true → a ≡ b
unfolding text_eq
text_eq_sound [] [] h = refl
text_eq_sound [] (b ∷ bs) h = cc
text_eq_sound (a ∷ r) [] h = cc
text_eq_sound (a ∷ r) (b ∷ bs) h = ground (arith, text_eq_sound r bs)

pub text_eq_iff : (a b : Text) → (text_eq a b ≡ true) ↔ (a ≡ b)
text_eq_iff a b = (text_eq_sound a b, λ e. rw e (text_eq_refl b))

-- The decimal digits, the last one first; `fuel` bounds their number.
digits_rev : ℕ → ℕ → List ℕ
digits_rev zero n = []
digits_rev (suc fuel) n =
    let rest = digits_rev fuel (n / 10) in if ltb n 10 then n ∷ [] else (n % 10) ∷ rest

value_rev : List ℕ → ℕ
value_rev [] = 0
value_rev (d ∷ ds) = d + 10 * value_rev ds

value_rev-digits_rev : (fuel n : ℕ) → n < fuel → value_rev (digits_rev fuel n) ≡ n
unfolding digits_rev value_rev
value_rev-digits_rev zero n h = elim h [ ]
value_rev-digits_rev (suc fuel) n h = ground (arith, value_rev-digits_rev fuel (n / 10))

-- `String(n)` of a non-negative integer.
unfoldable pub decimal : ℕ → Text
unfolding digits_rev
decimal n = map (λ d. d + 48) (reverse (digits_rev (suc n) n))

map_shift-injective : (xs ys : List ℕ) → map (λ d. d + 48) xs ≡ map (λ d. d + 48) ys → xs ≡ ys
map_shift-injective [] [] h = refl
map_shift-injective [] (y ∷ ys) h = cc
map_shift-injective (x ∷ xs) [] h = cc
map_shift-injective (x ∷ xs) (y ∷ ys) h = ground (arith, map_shift-injective xs ys)

pub decimal-injective : (n m : ℕ) → decimal n ≡ decimal m → n ≡ m
unfolding decimal
decimal-injective n m h =
    sym (value_rev-digits_rev (suc n) n (omega arith))
    ∙ ap value_rev (
        sym (reverse-reverse (digits_rev (suc n) n))
        ∙ ap reverse (map_shift-injective _ _ h)
        ∙ reverse-reverse (digits_rev (suc m) m))
    ∙ value_rev-digits_rev (suc m) m (omega arith)

abbrev pub colon : ℕ
colon = b':'

abbrev IsDigit : ℕ → Type 0
IsDigit d = d ≤ 9

digits_rev-IsDigit : (fuel n : ℕ) → All IsDigit (digits_rev fuel n)
unfolding digits_rev
digits_rev-IsDigit zero n = tt
digits_rev-IsDigit (suc fuel) n = ground (arith, digits_rev-IsDigit fuel (n / 10))

reverse-All : (P : ℕ → Type 0) (xs : List ℕ) → All P xs → All P (reverse xs)
reverse-All P [] h = tt
reverse-All P (x ∷ xs) h =
    rw (reverse-cons x xs) (All-append P (reverse xs) (x ∷ []) (reverse-All P xs h.1) (h.0, tt))

shifted-no_colon : (xs : List ℕ) → All IsDigit xs → All (λ c. c ≢ colon) (map (λ d. d + 48) xs)
shifted-no_colon [] h = tt
shifted-no_colon (x ∷ xs) h = (λ e. omega arith, shifted-no_colon xs h.1)

pub decimal-no_colon : (n : ℕ) → All (λ c. c ≢ colon) (decimal n)
unfolding decimal
decimal-no_colon n =
    shifted-no_colon _ (reverse-All IsDigit (digits_rev (suc n) n) (digits_rev-IsDigit (suc n) n))

not-All-after_colon : (xs ys : Text) → ¬ All (λ c. c ≢ colon) (xs ++ colon ∷ ys)
not-All-after_colon [] ys h = h.0 refl
not-All-after_colon (x ∷ xs) ys h = not-All-after_colon xs ys h.1

-- What follows the last colon is determined by the whole text.
pub after_colon-injective :
    (xs ys ds es : Text)
    → All (λ c. c ≢ colon) ds
    → All (λ c. c ≢ colon) es
    → xs ++ colon ∷ ds ≡ ys ++ colon ∷ es
    → ds ≡ es
after_colon-injective [] [] ds es p q h = cc
after_colon-injective [] (y ∷ ys) ds es p q h =
    let tails : ds ≡ ys ++ colon ∷ es = cc in
    absurd (not-All-after_colon ys es (subst (All (λ c. c ≢ colon)) tails p))
after_colon-injective (x ∷ xs) [] ds es p q h =
    let tails : es ≡ xs ++ colon ∷ ds = cc in
    absurd (not-All-after_colon xs ds (subst (All (λ c. c ≢ colon)) tails q))
after_colon-injective (x ∷ xs) (y ∷ ys) ds es p q h = after_colon-injective xs ys ds es p q (cc)
