-- ===== src/Policy/Glob.antt =====
-- policy/policy.go: wildcardMatch against what stars mean.
use gobeyond.Common.{
  ℕ, ◌≡◌, ◌≢◌, ◌↔◌, refl, sym, ap, ◌∙◌, true, false, none, some, List, [], ◌∷◌, ◌++◌, ◌==◌,
  Bool-cases, Option-cases, inl, inr, arith,
}
use mathlib.Core.List.{append_assoc}
use gobeyond.Router.Bytes.{Bytes, contains, split, onto_first}
use gobeyond.Router.Slices.{split_some}
use gobeyond.Policy.Occurrences.{after_first-append, first_is_first}
use gobeyond.Policy.Wildcard.{
  star, after_first, is_last_part, match_in_order, match_stars, wildcard_match,
}

-- The parts stand in the text in this order, apart from each other, with any text around them.
abbrev pub StandIn : List Bytes → Bytes → Type 0
StandIn [] text = Unit
StandIn (part ∷ parts) text =
    (before : Bytes) × (after : Bytes) × (text ≡ before ++ (part ++ after)) × StandIn parts after

StandIn-append :
    (parts : List Bytes) (more text : Bytes) → StandIn parts text → StandIn parts (more ++ text)
StandIn-append [] more text h = tt
StandIn-append (part ∷ parts) more text (before, after, same, h) = (
  more ++ before,
  after,
  ap (λ (t : Bytes). more ++ t) same ∙ sym (append_assoc more before (part ++ after)),
  h,
)

not_last : (parts : List Bytes) → is_last_part (parts ++ ([] ∷ [])) ≡ false
not_last [] = refl
not_last (part ∷ parts) = refl

module _ (c : ℕ) (part : Bytes) (parts : List Bytes) (text : Bytes) where
  in_order_none :
      after_first (c ∷ part) text ≡ none → match_in_order ((c ∷ part) ∷ parts) text ≡ false
  unfolding match_in_order
  in_order_none missing = ground arith

  in_order_some :
      (left : Bytes)
      → after_first (c ∷ part) text ≡ some left
      → is_last_part parts ≡ false
      → match_in_order ((c ∷ part) ∷ parts) text ≡ match_in_order parts left
  unfolding match_in_order
  in_order_some left found more = ground arith

-- With a star at the end the loop finds exactly the texts in which the parts stand in order.
match_in_order-StandIn :
    (parts : List Bytes) (text : Bytes)
    → (match_in_order (parts ++ ([] ∷ [])) text ≡ true) ↔ StandIn parts text
unfolding match_in_order
match_in_order-StandIn [] text = (λ h. tt, λ h. refl)
match_in_order-StandIn ([] ∷ parts) text =
    let (to, from) = match_in_order-StandIn parts text in
    (
      λ h. ([], text, refl, to h),
      λ (before, after, same, h). from (rw same (StandIn-append parts before after h)),
    )
match_in_order-StandIn ((c ∷ part) ∷ parts) text =
    elim (Option-cases (after_first (c ∷ part) text)) [
      | inl missing ↦ (
        λ h. cc (in_order_none c part (parts ++ ([] ∷ [])) text missing, h),
        λ (before, after, same, h).
            let (more, found) = first_is_first (c ∷ part) text before after same in
            cc (missing, found),
      )
      | inr (left, found) ↦
          let (to, from) = match_in_order-StandIn parts left in
          let step = in_order_some c part (parts ++ ([] ∷ [])) text left found (not_last parts) in
          (
            λ h.
                let (before, same) = after_first-append (c ∷ part) text left found in
                (before, left, same, to (sym step ∙ h)),
            λ (before, after, same, h).
                let (more, again) = first_is_first (c ∷ part) text before after same in
                let taken : some left ≡ some (more ++ after) = sym found ∙ again in
                let longer : left ≡ more ++ after = cc taken in
                step ∙ from (rw longer (StandIn-append parts more after h)),
          )
    ]

onto_first-append :
    (x : ℕ) (parts : List Bytes)
    → parts ≢ []
    → onto_first x (parts ++ ([] ∷ [])) ≡ onto_first x parts ++ ([] ∷ [])
onto_first-append x [] h = absurd (h refl)
onto_first-append x (part ∷ parts) h = refl

split_ends : (c : ℕ) (middle : Bytes) → split c (middle ++ (c ∷ [])) ≡ split c middle ++ ([] ∷ [])
unfolding split
split_ends c [] = ground arith
split_ends c (x ∷ middle) = elim (Bool-cases (x == c)) [
  | inl same ↦ rw same (ap (λ (ps : List Bytes). [] ∷ ps) (split_ends c middle))
  | inr other ↦ rw other (
      ap (onto_first x) (split_ends c middle)
      ∙ onto_first-append x (split c middle) (split_some c middle))
]

many_parts :
    (parts : List Bytes) (value : Bytes)
    → parts ≢ []
    → match_stars ([] ∷ (parts ++ ([] ∷ []))) value ≡ match_in_order (parts ++ ([] ∷ [])) value
unfolding match_stars match_in_order
many_parts [] value h = absurd (h refl)
many_parts (part ∷ []) value h = refl
many_parts (part ∷ next ∷ parts) value h = refl

wildcard_match_starred :
    (middle value : Bytes)
    → wildcard_match (star ∷ (middle ++ (star ∷ []))) value
      ≡ match_in_order (split star middle ++ ([] ∷ [])) value
unfolding wildcard_match contains split
wildcard_match_starred middle value =
    ap (λ (ps : List Bytes). match_stars ([] ∷ ps) value) (split_ends star middle)
    ∙ many_parts (split star middle) value (split_some star middle)

-- A condition that begins and ends with a star matches exactly the texts in which the parts between
-- its stars stand in their order and apart from each other.
pub wildcard_match-StandIn :
    (middle value : Bytes)
    → (wildcard_match (star ∷ (middle ++ (star ∷ []))) value ≡ true)
      ↔ StandIn (split star middle) value
wildcard_match-StandIn middle value =
    let (to, from) = match_in_order-StandIn (split star middle) value in
    let same = wildcard_match_starred middle value in (λ h. to (sym same ∙ h), λ h. same ∙ from h)
