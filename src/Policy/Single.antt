-- ===== src/Policy/Single.antt =====
-- policy/policy.go: wildcardMatch for a condition with one star.
use gobeyond.Common.{
  ℕ, ◌+◌, ◌-◌, ◌≤◌, ◌≡◌, ◌↔◌, sym, ap, ◌∙◌, Bool, true, false, ◌&&◌, List, [], ◌∷◌, ◌++◌, leb,
  length, length-append, arith,
}
use mathlib.Core.List.{append_assoc}
use gobeyond.Router.Bytes.{Bytes, bytes_eq, contains, has_prefix, has_suffix, drop, slice}
use gobeyond.Router.Accept.{bytes_eq_iff}
use gobeyond.Router.Slices.{has_prefix-append, drop_all, split-append, split_part, slice-append}
use gobeyond.Policy.Occurrences.{has_prefix_self}
use gobeyond.Policy.Wildcard.{star, match_stars, wildcard_match}

contains_mid : (c : ℕ) (before after : Bytes) → contains c (before ++ (c ∷ after)) ≡ true
unfolding contains
contains_mid c [] after = ground arith
contains_mid c (x ∷ before) after = ground (arith, contains_mid c before after)

-- The tests for the two parts around one star.
abbrev fits : Bytes → Bytes → Bytes → Bool
fits before after value =
    has_prefix before value
    && has_suffix after value
    && leb (length before + length after) (length value)

ltb_room :
    (before after value : Bytes)
    → fits before after value ≡ true
    → length before + length after ≤ length value
ltb_room before after value h = ground arith

wildcard_match_parts :
    (before after value : Bytes)
    → contains star before ≡ false
    → contains star after ≡ false
    → wildcard_match (before ++ (star ∷ after)) value ≡ fits before after value
unfolding wildcard_match match_stars
wildcard_match_parts before after value h k = rw (contains_mid star before after) (
    ap (λ (ps : List Bytes). match_stars ps value)
      (split-append star before after h
        ∙ ap (λ (ps : List Bytes). before ∷ ps) (split_part star after k)))

has_suffix_self : (text end : Bytes) → has_suffix end (text ++ end) ≡ true
unfolding has_suffix
has_suffix_self text end =
    let count : length (text ++ end) - length end ≡ length text =
      omega (arith, length-append text end) in
    let tail : drop (length (text ++ end) - length end) (text ++ end) ≡ end =
      ap (λ n. drop n (text ++ end)) count ∙ drop_all text end in
    let found : bytes_eq (drop (length (text ++ end) - length end) (text ++ end)) end ≡ true =
      (bytes_eq_iff (drop (length (text ++ end) - length end) (text ++ end)) end).1 tail in
    rw found (ground (arith, length-append text end))

fits_made : (before between after : Bytes) → fits before after (before ++ (between ++ after)) ≡ true
fits_made before between after =
    let ends : has_suffix after (before ++ (between ++ after)) ≡ true =
      rw (← append_assoc before between after) (has_suffix_self (before ++ between) after) in
    rw (has_prefix_self before (between ++ after), ends)
      (ground (arith, length-append before (between ++ after), length-append between after))

-- A condition with one star matches exactly the texts that begin and end as it does, with any text
-- between.
pub wildcard_match_single :
    (before after value : Bytes)
    → contains star before ≡ false
    → contains star after ≡ false
    → (wildcard_match (before ++ (star ∷ after)) value ≡ true)
      ↔ ((between : Bytes) × (value ≡ before ++ (between ++ after)))
wildcard_match_single before after value h k =
    let same = wildcard_match_parts before after value h k in
    (
      λ matched.
          let tests : fits before after value ≡ true = sym same ∙ matched in
          let rest = drop (length before) value in
          let start : value ≡ before ++ rest = has_prefix-append before value (ground arith) in
          let ends : has_suffix after (before ++ rest) ≡ true = rw (← start) (ground arith) in
          let room : length after ≤ length rest = omega (
            arith,
            ltb_room before after value tests,
            length-append before rest,
            ap length start,
          ) in
          let between = slice (length before) (length after) (before ++ rest) in
          (
            between,
            start ∙ ap (λ (t : Bytes). before ++ t) (slice-append before after rest room ends),
          ),
      λ (between, made). same ∙ rw made (fits_made before between after),
    )
