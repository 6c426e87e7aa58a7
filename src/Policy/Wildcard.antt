-- ===== src/Policy/Wildcard.antt =====
-- policy/policy.go: wildcardMatch, the match of a host against a condition with stars.
use gobeyond.Common.{
  ℕ, ◌+◌, Bool, true, false, not, ◌&&◌, Option, none, some, List, [], ◌∷◌, leb, length,
  if◌then◌else◌,
}
use gobeyond.Router.Bytes.{Bytes, bytes_eq, contains, has_prefix, has_suffix, drop, split}
use gobeyond.Router.Pattern.{is_empty}

abbrev pub star : ℕ
star = 42

-- strings.Index of a part, as what follows its first occurrence.
unfoldable pub after_first : Bytes → Bytes → Option Bytes
after_first part [] = if is_empty part then some [] else none
after_first part (x ∷ xs) = elim (has_prefix part (x ∷ xs)) [
  | true ↦ some (drop (length part) (x ∷ xs))
  | false ↦ after_first part xs
]

abbrev pub is_last_part : List Bytes → Bool
is_last_part [] = true
is_last_part (part ∷ parts) = false

-- The loop of wildcardMatch over the parts; the text is `value[position:]`.
unfoldable pub match_in_order : List Bytes → Bytes → Bool
match_in_order [] rest = true
match_in_order (part ∷ parts) rest = elim (is_empty part) [
  | true ↦ match_in_order parts rest
  | false ↦ elim (after_first part rest) [
    | none ↦ false
    | some after ↦ elim (is_last_part parts && not (is_empty after)) [
      | true ↦ false
      | false ↦ match_in_order parts after
    ]
  ]
]

-- The parts between the stars.
unfoldable pub match_stars : List Bytes → Bytes → Bool
match_stars [] value = match_in_order [] value
match_stars (part ∷ []) value = match_in_order (part ∷ []) value
match_stars (before ∷ after ∷ []) value =
    has_prefix before value
    && has_suffix after value
    && leb (length before + length after) (length value)
match_stars (a ∷ b ∷ c ∷ parts) value = match_in_order (a ∷ b ∷ c ∷ parts) value

-- wildcardMatch
unfoldable pub wildcard_match : Bytes → Bytes → Bool
wildcard_match pattern value =
    if contains star pattern then match_stars (split star pattern) value else bytes_eq pattern value
