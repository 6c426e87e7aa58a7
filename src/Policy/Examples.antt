-- ===== src/Policy/Examples.antt =====
-- policy/policy.go: wildcardMatch at work, and its promises at concrete inputs.
use gobeyond.Common.{◌≡◌, ◌↔◌, refl, true, false, some, arith, List, [], ◌∷◌, ◌++◌}
use gobeyond.Router.Bytes.{
  Bytes, slash, open_bracket, close_bracket, percent, bytes_eq, contains, has_prefix, has_suffix,
  drop, take, slice, split, trim, trim_left, trim_right, join, path_unescape, unhex,
}
use gobeyond.Router.Pattern.{
  Pattern, literal, dynamic, parse, parse_parts, classify, ok, decode_parts, match_path,
}
use gobeyond.Policy.Pattern.{
  PathSegment, rest_part, parsed, classify_part, parse_path_parts, parse_pattern, split_source,
  match_segments, match_source,
}
use gobeyond.Policy.Escape.{is_kept, hex, path_escape, escape_parts, escape_path}
use gobeyond.Policy.Unescape.{decode_parts-escape_path}
use gobeyond.Policy.Read.{parse_pattern-match_path}
use gobeyond.Policy.Wildcard.{star, after_first, match_in_order, match_stars, wildcard_match}
use gobeyond.Policy.Glob.{StandIn, wildcard_match-StandIn}
use gobeyond.Policy.Single.{wildcard_match_single}

-- "a*b*c" matches "xabc", which does not begin with "a"; "*a*b" does not match "abb", which ends
-- with "b"; "a*c" matches "abc" only as stars say.
anchors_lem :
    (wildcard_match (97 ∷ star ∷ 98 ∷ star ∷ 99 ∷ []) (120 ∷ 97 ∷ 98 ∷ 99 ∷ []) ≡ true)
    × (wildcard_match (star ∷ 97 ∷ star ∷ 98 ∷ []) (97 ∷ 98 ∷ 98 ∷ []) ≡ false)
    × (wildcard_match (97 ∷ star ∷ 99 ∷ []) (97 ∷ 98 ∷ 99 ∷ []) ≡ true)
    × (wildcard_match (97 ∷ star ∷ 99 ∷ []) (120 ∷ 97 ∷ 98 ∷ 99 ∷ []) ≡ false)
unfolding wildcard_match match_stars match_in_order after_first contains split has_prefix has_suffix
    drop bytes_eq
anchors_lem = (refl, refl, refl, refl)

wildcard_match-StandIn_example :
    (wildcard_match (star ∷ 97 ∷ star ∷ 98 ∷ star ∷ []) (97 ∷ 98 ∷ 98 ∷ []) ≡ true)
    ↔ StandIn (split star (97 ∷ star ∷ 98 ∷ [])) (97 ∷ 98 ∷ 98 ∷ [])
wildcard_match-StandIn_example = wildcard_match-StandIn (97 ∷ star ∷ 98 ∷ []) (97 ∷ 98 ∷ 98 ∷ [])

wildcard_match_single_example :
    (wildcard_match (97 ∷ star ∷ 99 ∷ []) (97 ∷ 98 ∷ 99 ∷ []) ≡ true)
    ↔ ((between : Bytes) × (97 ∷ 98 ∷ 99 ∷ [] ≡ (97 ∷ []) ++ (between ++ (99 ∷ []))))
unfolding contains
wildcard_match_single_example =
    wildcard_match_single (97 ∷ []) (99 ∷ []) (97 ∷ 98 ∷ 99 ∷ []) refl refl

-- "/a/[b]" and "/a/%41"
abbrev a_pattern : Bytes
a_pattern = slash ∷ 97 ∷ slash ∷ open_bracket ∷ 98 ∷ close_bracket ∷ []

abbrev path_a : Bytes
path_a = slash ∷ 97 ∷ slash ∷ percent ∷ 52 ∷ 49 ∷ []

abbrev a_parsed : Pattern
a_parsed = record {
  source = a_pattern;
  segments =
      record { kind = literal; value = 97 ∷ [] } ∷ record { kind = dynamic; value = 98 ∷ [] } ∷ [];
}

-- ":b*" is a catch-all for the policy.
colon_lem :
    match_source
      (record { kind = rest_part; name = 98 ∷ []; value = 58 ∷ 98 ∷ star ∷ [] } ∷ [])
      path_a
    ≡ some ((98 ∷ [], 97 ∷ slash ∷ 65 ∷ []) ∷ [])
unfolding match_source match_segments split_source decode_parts path_unescape unhex split join trim
    trim_left trim_right bytes_eq contains
colon_lem = refl

colon_parsed :
    parse_pattern (slash ∷ 58 ∷ 98 ∷ star ∷ [])
    ≡ parsed (record { kind = rest_part; name = 98 ∷ []; value = 58 ∷ 98 ∷ star ∷ [] } ∷ [])
unfolding parse_pattern parse_path_parts classify_part split trim trim_left trim_right bytes_eq
    contains has_prefix has_suffix slice take drop
colon_parsed = refl

a_pattern_parsed : parse a_pattern ≡ ok a_parsed
unfolding parse classify parse_parts split trim trim_left trim_right bytes_eq contains has_prefix
    has_suffix slice take drop
a_pattern_parsed = refl

parse_pattern-match_path_example :
    (own : List PathSegment) × (parse_pattern a_pattern ≡ parsed own)
    × (match_source own path_a ≡ match_path a_parsed path_a)
unfolding split trim trim_left trim_right has_prefix contains
parse_pattern-match_path_example =
    parse_pattern-match_path a_pattern path_a a_parsed (refl, (refl, tt)) refl a_pattern_parsed

-- "a b" and "%"
decode_parts-escape_path_example :
    decode_parts
      (split slash (escape_path (join slash ((97 ∷ 32 ∷ 98 ∷ []) ∷ (percent ∷ []) ∷ [])) true))
    ≡ some ((97 ∷ 32 ∷ 98 ∷ []) ∷ (percent ∷ []) ∷ [])
unfolding contains bytes_eq
decode_parts-escape_path_example =
    decode_parts-escape_path (97 ∷ 32 ∷ 98 ∷ []) ((percent ∷ []) ∷ [])
      (refl, refl, (refl, refl, tt))
      ((omega arith, (omega arith, (omega arith, tt))), ((omega arith, tt), tt))

-- "/a%20b/%25"
escaped_lem :
    escape_path (97 ∷ 32 ∷ 98 ∷ slash ∷ percent ∷ []) true
    ≡ 97 ∷ percent ∷ 50 ∷ 48 ∷ 98 ∷ slash ∷ percent ∷ 50 ∷ 53 ∷ []
unfolding escape_path escape_parts path_escape is_kept hex split join
escaped_lem = refl
