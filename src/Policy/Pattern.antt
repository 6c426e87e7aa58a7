-- ===== src/Policy/Pattern.antt =====
-- policy/policy.go: the patterns of rule sources, parsePattern, splitPath and Match.
use gobeyond.Common.{
  ℕ, Bool, true, false, not, ◌&&◌, ◌||◌, Option, none, some, List, [], ◌∷◌, if◌then◌else◌,
}
use gobeyond.Router.Bytes.{
  Bytes, slash, dot, open_bracket, close_bracket, backslash, bytes_eq, contains, has_prefix,
  has_suffix, slice, drop, trim, split, join,
}
use gobeyond.Router.Pattern.{
  begins_with_slash, is_empty, is_dots, is_last, decode_parts, Params, set_param,
}
use gobeyond.Policy.Wildcard.{star}

abbrev pub colon : ℕ
colon = 58

-- `kind`: 'l', 'd', 'c' or 'o'
pub data PathKind : Type 0 where
  literal_part dynamic_part rest_part optional_part : PathKind

pub record PathSegment : Type 0 where
  pub kind : PathKind
  pub name : Bytes
  pub value : Bytes

-- The errors of parsePattern.
pub data SourceError : Type 0 where
  not_absolute invalid_part rest_not_final empty_parameter : SourceError

pub data Parsed {ℓ} (A : Type ℓ) : Type ℓ where
  parsed : A → Parsed A
  refused : SourceError → Parsed A

-- strings.TrimSuffix of a star
abbrev trim_star : Bytes → Bytes
trim_star s = if has_suffix (star ∷ []) s then slice 0 1 s else s

-- The `switch` of parsePattern.
unfoldable pub classify_part : Bytes → PathSegment
classify_part part =
    if has_prefix (open_bracket ∷ dot ∷ dot ∷ dot ∷ []) part && has_suffix (close_bracket ∷ []) part
    then record { kind = rest_part; name = slice 4 1 part; value = part }
    else if has_prefix (open_bracket ∷ open_bracket ∷ dot ∷ dot ∷ dot ∷ []) part
        && has_suffix (close_bracket ∷ close_bracket ∷ []) part
    then record { kind = optional_part; name = slice 5 2 part; value = part }
    else if has_prefix (colon ∷ []) part
    then record {
      kind = if has_suffix (star ∷ []) part then rest_part else dynamic_part;
      name = trim_star (drop 1 part);
      value = part;
    }
    else if has_prefix (open_bracket ∷ []) part && has_suffix (close_bracket ∷ []) part
    then record { kind = dynamic_part; name = slice 1 1 part; value = part }
    else record { kind = literal_part; name = []; value = part }

abbrev pub takes_all : PathKind → Bool
takes_all literal_part = false
takes_all dynamic_part = false
takes_all rest_part = true
takes_all optional_part = true

abbrev pub is_literal : PathKind → Bool
is_literal literal_part = true
is_literal dynamic_part = false
is_literal rest_part = false
is_literal optional_part = false

abbrev pub add_path_segment :
    PathSegment → Bool → Parsed (List PathSegment) → Parsed (List PathSegment)
add_path_segment segment final rest =
    if takes_all segment.kind && not final
    then refused rest_not_final
    else if not (is_literal segment.kind) && is_empty segment.name
    then refused empty_parameter
    else elim rest [ refused e ↦ refused e | parsed segments ↦ parsed (segment ∷ segments) ]

-- The loop of parsePattern.
unfoldable pub parse_path_parts : List Bytes → Parsed (List PathSegment)
parse_path_parts [] = parsed []
parse_path_parts (part ∷ parts) =
    let rest = parse_path_parts parts in
    if is_empty part || is_dots part
    then refused invalid_part
    else add_path_segment (classify_part part) (is_last parts) rest

-- A byte of `?#\`
abbrev pub has_query : Bytes → Bool
has_query source = contains 63 source || contains 35 source || contains backslash source

-- parsePattern
unfoldable pub parse_pattern : Bytes → Parsed (List PathSegment)
parse_pattern source =
    if begins_with_slash source && not (has_query source)
    then (if is_empty (trim slash source)
        then parsed []
        else parse_path_parts (split slash (trim slash source)))
    else refused not_absolute

-- splitPath
unfoldable pub split_source : Bytes → Option (List Bytes)
split_source source =
    if begins_with_slash source && not (contains backslash source)
    then (if is_empty (trim slash source)
        then some []
        else decode_parts (split slash (trim slash source)))
    else none

-- The loop of Match.
unfoldable pub match_segments : List PathSegment → List Bytes → Params → Option Params
match_segments [] [] params = some params
match_segments [] (part ∷ parts) params = none
match_segments (segment ∷ segments) [] params = elim segment.kind [
  | optional_part ↦ some (set_param segment.name [] params)
  | literal_part ↦ none
  | dynamic_part ↦ none
  | rest_part ↦ none
]
match_segments (segment ∷ segments) (part ∷ parts) params = elim segment.kind [
  | literal_part ↦ elim (bytes_eq segment.value part) [
    | true ↦ match_segments segments parts params
    | false ↦ none
  ]
  | dynamic_part ↦ match_segments segments parts (set_param segment.name part params)
  | rest_part ↦ some (set_param segment.name (join slash (part ∷ parts)) params)
  | optional_part ↦ some (set_param segment.name (join slash (part ∷ parts)) params)
]

abbrev pub match_some : List PathSegment → Option (List Bytes) → Option Params
match_some segments none = none
match_some segments (some parts) = match_segments segments parts []

-- Match
unfoldable pub match_source : List PathSegment → Bytes → Option Params
match_source segments path = match_some segments (split_source path)
