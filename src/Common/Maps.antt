-- ===== src/Common/Maps.antt =====
-- Go maps with string keys, as association lists in which a key stands once.
use Prim.Native.Nat.{ℕ, suc, ◌+◌, ◌≤◌, ◌<◌}
use Prim.Native.String.{String}
use mathlib.Core.Path.{◌≡◌, refl, ap}
use mathlib.Core.Option.{Option, none, some}
use mathlib.Core.List.{List, [], ◌∷◌}
use native.Mathlib.Omega.{arith}
use text.Mathlib.TextEquality.{eq_iff}
use gobeyond.Common.Tests.{str_eq, if◌then◌else◌}
use gobeyond.Common.Lists.{length}

abbrev pub Map {ℓ} : Type ℓ → Type ℓ
Map V = List (String × V)

module _ {ℓ} {V : Type ℓ} where
  -- m[k]
  unfoldable pub lookup : String → Map V → Option V
  lookup k [] = none
  lookup k ((j, v) ∷ m) = if str_eq j k then some v else lookup k m

  -- delete(m, k)
  unfoldable pub delete : String → Map V → Map V
  delete k [] = []
  delete k ((j, v) ∷ m) = let rest = delete k m in if str_eq j k then rest else (j, v) ∷ rest

  -- m[k] = v
  unfoldable pub insert : String → V → Map V → Map V
  insert k v m = (k, v) ∷ delete k m

  -- A write through the pointer that m[k] holds.
  unfoldable pub adjust : String → (V → V) → Map V → Map V
  adjust k f [] = []
  adjust k f ((j, v) ∷ m) = (j, if str_eq j k then f v else v) ∷ adjust k f m

  -- The sum of a measure over the values.
  unfoldable pub total : (V → ℕ) → Map V → ℕ
  total w [] = 0
  total w ((j, v) ∷ m) = w v + total w m

  abbrev pub IsUnique : Map V → Type ℓ
  IsUnique [] = Unit
  IsUnique ((j, v) ∷ m) = (lookup j m ≡ none) × IsUnique m

  pub lookup-delete :
      (k j : String) (m : Map V) → lookup j (delete k m) ≡ (if str_eq k j then none else lookup j m)
  unfolding lookup delete
  lookup-delete k j [] = ground arith
  lookup-delete k j ((i, v) ∷ m) =
      ground (arith, lookup-delete k j m, eq_iff i k, eq_iff i j, eq_iff k j)

  pub lookup-insert :
      (k j : String) (v : V) (m : Map V)
      → lookup j (insert k v m) ≡ (if str_eq k j then some v else lookup j m)
  unfolding lookup insert
  lookup-insert k j v m = simp lookup-delete (ground arith)

  pub lookup-adjust :
      (k j : String) (f : V → V) (m : Map V)
      → lookup j (adjust k f m) ≡ (
          if str_eq k j
          then elim (lookup j m) [ none ↦ none | some v ↦ some (f v) ]
          else lookup j m)
  unfolding lookup adjust
  lookup-adjust k j f [] = ground arith
  lookup-adjust k j f ((i, v) ∷ m) =
      ground (arith, lookup-adjust k j f m, eq_iff i k, eq_iff i j, eq_iff k j)

  pub delete_absent : (k : String) (m : Map V) → lookup k m ≡ none → delete k m ≡ m
  unfolding lookup delete
  delete_absent k [] h = refl
  delete_absent k ((j, v) ∷ m) h = ground (arith, delete_absent k m)

  pub length-delete-le : (k : String) (m : Map V) → length (delete k m) ≤ length m
  unfolding delete
  length-delete-le k [] = omega arith
  length-delete-le k ((j, v) ∷ m) = ground (arith, length-delete-le k m)

  pub delete-IsUnique : (k : String) (m : Map V) → IsUnique m → IsUnique (delete k m)
  unfolding delete
  delete-IsUnique k [] h = tt
  delete-IsUnique k ((j, v) ∷ m) h =
      ground (arith, delete-IsUnique k m h.1, lookup-delete k j m, eq_iff j k, eq_iff k j)

  pub insert-IsUnique : (k : String) (v : V) (m : Map V) → IsUnique m → IsUnique (insert k v m)
  unfolding insert
  insert-IsUnique k v m h = (ground (arith, lookup-delete k k m, eq_iff k k), delete-IsUnique k m h)

  lookup-adjust-none :
      (k j : String) (f : V → V) (m : Map V) → lookup j m ≡ none → lookup j (adjust k f m) ≡ none
  lookup-adjust-none k j f m h = ground (arith, lookup-adjust k j f m)

  pub adjust-IsUnique : (k : String) (f : V → V) (m : Map V) → IsUnique m → IsUnique (adjust k f m)
  unfolding adjust
  adjust-IsUnique k f [] h = tt
  adjust-IsUnique k f ((j, v) ∷ m) (h, hs) =
      (lookup-adjust-none k j f m h, adjust-IsUnique k f m hs)

  pub length-adjust : (k : String) (f : V → V) (m : Map V) → length (adjust k f m) ≡ length m
  unfolding adjust
  length-adjust k f [] = refl
  length-adjust k f ((j, v) ∷ m) = ap suc (length-adjust k f m)

module _ {ℓ} {V : Type ℓ} (k : String) where
  pub length-delete :
      (v : V) (m : Map V) → IsUnique m → lookup k m ≡ some v → length (delete k m) + 1 ≡ length m
  unfolding lookup delete
  length-delete v [] u h = cc
  length-delete v ((j, w) ∷ m) (p, u) h =
      ground (arith, length-delete v m u, delete_absent k m, eq_iff j k)

  pub total-delete :
      (w : V → ℕ) (v : V) (m : Map V)
      → IsUnique m
      → lookup k m ≡ some v
      → total w (delete k m) + w v ≡ total w m
  unfolding lookup delete total
  total-delete w v [] u h = cc
  total-delete w v ((j, x) ∷ m) (p, u) h =
      ground (arith, total-delete w v m u, delete_absent k m, eq_iff j k)

  adjust_absent : (f : V → V) (m : Map V) → lookup k m ≡ none → adjust k f m ≡ m
  unfolding lookup adjust
  adjust_absent f [] h = refl
  adjust_absent f ((j, v) ∷ m) h = ground (arith, adjust_absent f m)

  pub total-adjust :
      (w : V → ℕ) (f : V → V) (v : V) (m : Map V)
      → IsUnique m
      → lookup k m ≡ some v
      → total w (adjust k f m) + w v ≡ total w m + w (f v)
  unfolding lookup adjust total
  total-adjust w f v [] u h = cc
  total-adjust w f v ((j, x) ∷ m) (p, u) h =
      ground (arith, total-adjust w f v m u, adjust_absent f m, eq_iff j k)

  pub le-total : (w : V → ℕ) (v : V) (m : Map V) → lookup k m ≡ some v → w v ≤ total w m
  unfolding lookup total
  le-total w v [] h = cc
  le-total w v ((j, x) ∷ m) h = ground (arith, le-total w v m)

  pub length_pos_of_lookup : (v : V) (m : Map V) → lookup k m ≡ some v → 0 < length m
  unfolding lookup
  length_pos_of_lookup v [] h = cc
  length_pos_of_lookup v ((j, x) ∷ m) h = omega arith

pub total_nil {ℓ} : {V : Type ℓ} (w : V → ℕ) (m : Map V) → length m ≡ 0 → total w m ≡ 0
unfolding total
total_nil w [] h = refl
total_nil w ((j, v) ∷ m) h = absurd (omega arith)
