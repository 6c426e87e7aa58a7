-- ===== src/Policy/Occurrences.antt =====
-- policy/policy.go: where the loop of wildcardMatch finds a part.
use gobeyond.Common.{
  ℕ, ◌+◌, ◌≡◌, refl, sym, ap, ◌∙◌, true, false, some, [], ◌∷◌, ◌++◌, length, length-append,
  Bool-cases, inl, inr, arith,
}
use mathlib.Core.List.{append_assoc}
use gobeyond.Router.Bytes.{Bytes, has_prefix, drop, take}
use gobeyond.Router.Slices.{has_prefix-append, take-drop, drop-append}
use gobeyond.Policy.Wildcard.{after_first}

pub has_prefix_self : (p r : Bytes) → has_prefix p (p ++ r) ≡ true
unfolding has_prefix
has_prefix_self [] r = refl
has_prefix_self (x ∷ p) r = ground (arith, has_prefix_self p r)

module _ (part : Bytes) (x : ℕ) (xs : Bytes) where
  after_first_here :
      has_prefix part (x ∷ xs) ≡ true
      → after_first part (x ∷ xs) ≡ some (drop (length part) (x ∷ xs))
  unfolding after_first
  after_first_here here = ground arith

  after_first_there :
      has_prefix part (x ∷ xs) ≡ false → after_first part (x ∷ xs) ≡ after_first part xs
  unfolding after_first
  after_first_there there = ground arith

-- What follows the first occurrence follows an occurrence.
pub after_first-append :
    (part text after : Bytes)
    → after_first part text ≡ some after
    → (before : Bytes) × (text ≡ before ++ (part ++ after))
unfolding after_first
after_first-append [] [] after found = let same : [] ≡ after = cc found in ([], same)
after_first-append (c ∷ part) [] after found = cc
after_first-append part (x ∷ xs) after found = elim (Bool-cases (has_prefix part (x ∷ xs))) [
  | inl here ↦
      let taken : some (drop (length part) (x ∷ xs)) ≡ some after =
        sym (after_first_here part x xs here) ∙ found in
      let same : drop (length part) (x ∷ xs) ≡ after = cc taken in
      ([], has_prefix-append part (x ∷ xs) here ∙ ap (λ (t : Bytes). part ++ t) same)
  | inr there ↦
      let (before, split_up) =
        after_first-append part xs after (sym (after_first_there part x xs there) ∙ found) in
      (x ∷ before, ap (λ (t : Bytes). x ∷ t) split_up)
]

-- The first occurrence leaves at least what any other leaves.
drop_before :
    (part text before after : Bytes)
    → has_prefix part text ≡ true
    → text ≡ before ++ (part ++ after)
    → (more : Bytes) × (drop (length part) text ≡ more ++ after)
drop_before part text before after here same =
    let rest = drop (length part) text in
    let at_start : text ≡ part ++ rest = has_prefix-append part text here in
    let lengths : length part + length rest ≡ length before + (length part + length after) = omega (
      arith,
      length-append part rest,
      length-append before (part ++ after),
      length-append part after,
      ap length (sym at_start ∙ same),
    ) in
    let n = length before in
    let left : drop (length part + n) text ≡ drop n rest =
      ap (drop (length part + n)) at_start ∙ drop-append part rest n in
    let swapped : length part + n ≡ length (before ++ part) + 0 =
      omega (arith, length-append before part) in
    let right : drop (length (before ++ part) + 0) text ≡ after =
      ap (drop (length (before ++ part) + 0)) (same ∙ sym (append_assoc before part after))
      ∙ drop-append (before ++ part) after 0
      ∙ unfold drop in refl in
    (
      take n rest,
      take-drop n rest
          ∙ ap (λ (t : Bytes). take n rest ++ t) (sym left ∙ ap (λ k. drop k text) swapped ∙ right),
    )

pub first_is_first :
    (part text before after : Bytes)
    → text ≡ before ++ (part ++ after)
    → (more : Bytes) × (after_first part text ≡ some (more ++ after))
unfolding after_first
first_is_first [] [] [] after same = ([], ap some same)
first_is_first (c ∷ part) [] [] after same = cc
first_is_first part [] (b ∷ before) after same = cc
first_is_first part (x ∷ xs) [] after same =
    let here : has_prefix part (x ∷ xs) ≡ true = rw same (has_prefix_self part after) in
    let (more, rest) = drop_before part (x ∷ xs) [] after here same in
    (more, after_first_here part x xs here ∙ ap some rest)
first_is_first part (x ∷ xs) (b ∷ before) after same =
    elim (Bool-cases (has_prefix part (x ∷ xs))) [
      | inl here ↦
          let (more, rest) = drop_before part (x ∷ xs) (b ∷ before) after here same in
          (more, after_first_here part x xs here ∙ ap some rest)
      | inr there ↦
          let tails : xs ≡ before ++ (part ++ after) = cc same in
          let (more, found) = first_is_first part xs before after tails in
          (more, after_first_there part x xs there ∙ found)
    ]
