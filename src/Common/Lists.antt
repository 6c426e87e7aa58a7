-- ===== src/Common/Lists.antt =====
-- Lists measured by native numbers, and lists of texts with the number of times a text occurs.
use Prim.Native.Nat.{ℕ, suc, ◌+◌, ◌-◌, ◌<◌}
use Prim.Native.String.{String}
use mathlib.Core.Path.{◌≡◌, refl}
use mathlib.Core.Logic.{◌⊎◌, inl, inr}
use mathlib.Core.Bool.{Bool, true, ◌&&◌}
use mathlib.Core.Option.{Option, none, some}
use mathlib.Core.List.{List, [], ◌∷◌, ◌++◌}
use native.Mathlib.Omega.{arith}
use text.Mathlib.TextEquality.{eq_iff}
use gobeyond.Common.Tests.{str_eq, if◌then◌else◌}

module _ {ℓ} {A : Type ℓ} where
  pub List-cases : (xs : List A) → (xs ≡ []) ⊎ ((x : A) × (ys : List A) × (xs ≡ x ∷ ys))
  List-cases [] = inl refl
  List-cases (x ∷ xs) = inr (x, xs, refl)

  abbrev pub length : List A → ℕ
  length [] = 0
  length (x ∷ xs) = suc (length xs)

  abbrev pub all : (A → Bool) → List A → Bool
  all p [] = true
  all p (x ∷ xs) = p x && all p xs

  -- `list.Back`: the last element, if any.
  unfoldable pub back : List A → Option A
  back [] = none
  back (x ∷ []) = some x
  back (x ∷ y ∷ xs) = back (y ∷ xs)

  pub length-append : (xs ys : List A) → length (xs ++ ys) ≡ length xs + length ys
  length-append [] ys = omega arith
  length-append (x ∷ xs) ys = omega (arith, length-append xs ys)

  pub back-cons : (x y : A) (xs : List A) → back (x ∷ y ∷ xs) ≡ back (y ∷ xs)
  unfolding back
  back-cons x y xs = refl

  pub back-eq-none : (xs : List A) → back xs ≡ none → xs ≡ []
  unfolding back
  back-eq-none [] h = refl
  back-eq-none (x ∷ []) h = cc
  back-eq-none (x ∷ y ∷ xs) h = absurd (ground (arith, back-eq-none (y ∷ xs) h))

-- The number of times that a text stands in a list.
abbrev pub count : String → List String → ℕ
count k [] = 0
count k (j ∷ js) = (if str_eq j k then 1 else 0) + count k js

-- `list.Remove` of the element that holds `k`.
unfoldable pub erase : String → List String → List String
erase k [] = []
erase k (j ∷ js) = if str_eq j k then js else j ∷ erase k js

pub count-erase :
    (k j : String) (js : List String)
    → count j (erase k js) ≡ (if str_eq k j then count j js - 1 else count j js)
unfolding erase
count-erase k j [] = ground arith
count-erase k j (i ∷ js) = ground (arith, count-erase k j js, eq_iff i k, eq_iff i j, eq_iff k j)

pub length-erase :
    (k : String) (js : List String) → 0 < count k js → length (erase k js) + 1 ≡ length js
unfolding erase
length-erase k [] h = absurd (omega arith)
length-erase k (i ∷ js) h = ground (arith, length-erase k js)

pub count-back : (k : String) (js : List String) → back js ≡ some k → 0 < count k js
unfolding back
count-back k [] h = cc
count-back k (j ∷ []) h = ground (arith, eq_iff j k)
count-back k (j ∷ i ∷ js) h = omega (arith, count-back k (i ∷ js) h)

pub count-append : (k : String) (xs ys : List String) → count k (xs ++ ys) ≡ count k xs + count k ys
count-append k [] ys = omega arith
count-append k (x ∷ xs) ys = ground (arith, count-append k xs ys)
