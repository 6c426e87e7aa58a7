-- ===== src/Router/Pattern.antt =====
-- router/pattern.go: route patterns, Parse, splitPath and Match.
use gobeyond.Common.{
  Bool, true, false, not, ◌&&◌, ◌||◌, Option, none, some, List, [], ◌∷◌, ◌==◌, if◌then◌else◌,
}
use gobeyond.Router.Bytes.{
  Bytes, slash, dot, open_bracket, close_bracket, backslash, bytes_eq, contains, has_prefix,
  has_suffix, slice, trim, split, join, path_unescape,
}

pub data SegmentKind : Type 0 where
  literal dynamic catch_all optional_catch_all : SegmentKind

pub record Segment : Type 0 where
  pub kind : SegmentKind
  pub value : Bytes

pub record Pattern : Type 0 where
  pub source : Bytes
  pub segments : List Segment

-- The errors of Parse and NewTable.
pub data RouteError : Type 0 where
  must_begin_with_slash invalid_segment malformed_parameter empty_name catch_all_not_final :
      RouteError
  id_required : RouteError
  duplicate_pattern : Bytes → RouteError

pub data Result {ℓ} (A : Type ℓ) : Type ℓ where
  ok : A → Result A
  failed : RouteError → Result A

abbrev pub open_optional : Bytes
open_optional = open_bracket ∷ open_bracket ∷ dot ∷ dot ∷ dot ∷ []

abbrev pub open_rest : Bytes
open_rest = open_bracket ∷ dot ∷ dot ∷ dot ∷ []

abbrev one_dot : Bytes
one_dot = dot ∷ []

abbrev two_dots : Bytes
two_dots = dot ∷ dot ∷ []

-- The test of a part that no pattern and no path may have.
abbrev pub is_dots : Bytes → Bool
is_dots part = bytes_eq part one_dot || bytes_eq part two_dots

abbrev pub is_empty : Bytes → Bool
is_empty [] = true
is_empty (x ∷ xs) = false

-- The `switch` of Parse.
unfoldable pub classify : Bytes → Result Segment
classify part =
    if has_prefix open_optional part && has_suffix (close_bracket ∷ close_bracket ∷ []) part
    then ok (record { kind = optional_catch_all; value = slice 5 2 part })
    else if has_prefix open_rest part && has_suffix (close_bracket ∷ []) part
    then ok (record { kind = catch_all; value = slice 4 1 part })
    else if has_prefix (open_bracket ∷ []) part && has_suffix (close_bracket ∷ []) part
    then ok (record { kind = dynamic; value = slice 1 1 part })
    else if contains open_bracket part || contains close_bracket part
    then failed malformed_parameter
    else ok (record { kind = literal; value = part })

abbrev pub takes_rest : SegmentKind → Bool
takes_rest literal = false
takes_rest dynamic = false
takes_rest catch_all = true
takes_rest optional_catch_all = true

abbrev pub is_last : List Bytes → Bool
is_last [] = true
is_last (part ∷ parts) = false

-- The tests of Parse below the `switch`, and the rest of the loop.
abbrev pub add_segment : Result Segment → Bool → Result (List Segment) → Result (List Segment)
add_segment (failed e) final rest = failed e
add_segment (ok segment) final rest =
    if is_empty segment.value
    then failed empty_name
    else if takes_rest segment.kind && not final
    then failed catch_all_not_final
    else elim rest [ failed e ↦ failed e | ok segments ↦ ok (segment ∷ segments) ]

-- The loop of Parse.
unfoldable pub parse_parts : List Bytes → Result (List Segment)
parse_parts [] = ok []
parse_parts (part ∷ parts) =
    let rest = parse_parts parts in
    if is_empty part || is_dots part
    then failed invalid_segment
    else add_segment (classify part) (is_last parts) rest

abbrev pub begins_with_slash : Bytes → Bool
begins_with_slash [] = false
begins_with_slash (x ∷ xs) = x == slash

abbrev pub with_source : Bytes → Result (List Segment) → Result Pattern
with_source source (failed e) = failed e
with_source source (ok segments) = ok (record { source = source; segments = segments })

-- Parse
unfoldable pub parse : Bytes → Result Pattern
parse source =
    if begins_with_slash source
    then (if is_empty (trim slash source)
        then ok (record { source = slash ∷ []; segments = [] })
        else with_source source (parse_parts (split slash (trim slash source))))
    else failed must_begin_with_slash

abbrev pub is_refused : Bytes → Bool
is_refused part = is_dots part || contains slash part

abbrev pub add_part : Option Bytes → Option (List Bytes) → Option (List Bytes)
add_part none rest = none
add_part (some part) none = none
add_part (some part) (some parts) = if is_refused part then none else some (part ∷ parts)

-- The loop of splitPath.
unfoldable pub decode_parts : List Bytes → Option (List Bytes)
decode_parts [] = some []
decode_parts (part ∷ parts) = add_part (path_unescape part) (decode_parts parts)

-- splitPath
unfoldable pub split_path : Bytes → Option (List Bytes)
split_path path =
    if begins_with_slash path && not (contains backslash path)
    then (if is_empty (trim slash path)
        then some []
        else decode_parts (split slash (trim slash path)))
    else none

-- A Go map from names to values.
abbrev pub Params : Type 0
Params = List (Bytes × Bytes)

unfoldable pub param : Bytes → Params → Option Bytes
param name [] = none
param name ((n, v) ∷ params) = if bytes_eq n name then some v else param name params

-- `params[name] = value`; a later value hides an earlier one.
abbrev pub set_param : Bytes → Bytes → Params → Params
set_param name value params = (name, value) ∷ params

-- The loop of Match, from a segment and a part on.
unfoldable pub match_parts : List Segment → List Bytes → Params → Option Params
match_parts [] [] params = some params
match_parts [] (part ∷ parts) params = none
match_parts (segment ∷ segments) [] params = elim segment.kind [
  | optional_catch_all ↦ some (set_param segment.value [] params)
  | literal ↦ none
  | dynamic ↦ none
  | catch_all ↦ none
]
match_parts (segment ∷ segments) (part ∷ parts) params = elim segment.kind [
  | literal ↦ elim (bytes_eq segment.value part) [
    | true ↦ match_parts segments parts params
    | false ↦ none
  ]
  | dynamic ↦ match_parts segments parts (set_param segment.value part params)
  | catch_all ↦ some (set_param segment.value (join slash (part ∷ parts)) params)
  | optional_catch_all ↦ some (set_param segment.value (join slash (part ∷ parts)) params)
]

abbrev pub match_split : List Segment → Option (List Bytes) → Option Params
match_split segments none = none
match_split segments (some parts) = match_parts segments parts []

-- Match
unfoldable pub match_path : Pattern → Bytes → Option Params
match_path pattern path = match_split pattern.segments (split_path path)
