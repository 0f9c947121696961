-- ===== src/Common/Table.antt =====
-- A database table by its primary key, in the order of insertion.
use opa_security_awareness_a.Common.Tests.{◌==◌, if◌then◌else◌, is_none, Bool-cases}
use Prim.Native.Nat.{ℕ}
use mathlib.Core.Path.{◌≡◌}
use mathlib.Core.Bool.{Bool}
use mathlib.Core.Logic.{inl, inr}
use mathlib.Core.Option.{Option, none, some}
use mathlib.Core.List.{List, [], ◌∷◌, ◌++◌}
use native.Mathlib.Omega.{arith}

abbrev pub Table : Type 0 → Type 0
Table A = List (ℕ × A)

module _ {A : Type 0} where
  -- `findUnique({ where: { id } })`.
  unfoldable pub get : ℕ → Table A → Option A
  get k [] = none
  get k ((j, a) ∷ t) = if j == k then some a else get k t

  -- `update({ where: { id }, data })`: every row of that key, so none where there is none.
  unfoldable pub modify : ℕ → (A → A) → Table A → Table A
  modify k f [] = []
  modify k f ((j, a) ∷ t) = if j == k then (j, f a) ∷ modify k f t else (j, a) ∷ modify k f t

  -- `create`: a new row.
  unfoldable pub add : ℕ → A → Table A → Table A
  add k a t = t ++ (k, a) ∷ []

  abbrev pub map_option : (A → A) → Option A → Option A
  map_option f none = none
  map_option f (some a) = some (f a)

  pub get-modify :
      (j k : ℕ) (f : A → A) (t : Table A)
      → get j (modify k f t) ≡ (if k == j then map_option f (get j t) else get j t)
  unfolding get modify
  get-modify j k f [] = ground arith
  get-modify j k f ((i, a) ∷ t) = ground (arith, get-modify j k f t)

  pub get-modify_self :
      (k : ℕ) (f : A → A) (t : Table A) {a : A}
      → get k t ≡ some a
      → get k (modify k f t) ≡ some (f a)
  get-modify_self k f t h = ground (arith, get-modify k k f t)

  pub get-add :
      (j k : ℕ) (a : A) (t : Table A)
      → get j (add k a t)
        ≡ (if is_none (get j t) then (if k == j then some a else none) else get j t)
  unfolding get add
  get-add j k a [] = ground arith
  get-add j k a ((i, b) ∷ t) = ground (arith, get-add j k a t)

  -- `updateMany`: each row that a test picks.
  unfoldable pub update_where : (ℕ → A → Bool) → (A → A) → Table A → Table A
  update_where p f [] = []
  update_where p f ((j, a) ∷ t) =
      if p j a then (j, f a) ∷ update_where p f t else (j, a) ∷ update_where p f t

  pub get-update_where :
      (k : ℕ) (p : ℕ → A → Bool) (f : A → A) (t : Table A) {a : A}
      → get k t ≡ some a
      → get k (update_where p f t) ≡ some (if p k a then f a else a)
  unfolding get update_where
  get-update_where k p f [] h = cc
  get-update_where k p f ((j, b) ∷ t) {a} h = elim (Bool-cases (j == k)) [
    | inl e ↦ let q : j ≡ k = ground arith in let r : b ≡ a = ground arith in ground arith
    | inr e ↦ ground (arith, get-update_where k p f t {a = a} (ground arith))
  ]
