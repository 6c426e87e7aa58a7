-- ===== src/Router/Examples.antt =====
-- router/: a table at work, and the promises at concrete inputs. "/a/[b]" is a pattern with the
-- bytes of its text.
use gobeyond.Common.{◌≡◌, ◌↔◌, refl, none, some, List, [], ◌∷◌, map}
use gobeyond.Router.Bytes.{
  Bytes, slash, dot, open_bracket, close_bracket, percent, split, trim, trim_left, trim_right,
  bytes_eq, contains, has_prefix, has_suffix, slice, take, drop, join, path_unescape, unhex,
}
use gobeyond.Router.Pattern.{
  Pattern, literal, dynamic, catch_all, parse, classify, parse_parts, split_path, decode_parts,
  match_parts, match_path, param, failed, ok, duplicate_pattern, catch_all_not_final,
}
use gobeyond.Router.Table.{
  Route, Table, dynamic_mode, compare_specificity, compare_loop, specificity, rank, insert_route,
  sort_routes, parse_routes, is_seen, new_table, resolve,
}
use gobeyond.Router.Best.{resolve-new_table, best_match}
use gobeyond.Router.Safe.{match_path-AreNoDots, AreNoDots}
use gobeyond.Router.Print.{parse-print, print, IsWellFormed}
use gobeyond.Router.Accept.{new_table-AreValid, AreValid, AreDistinct}

abbrev letter_a : Bytes
letter_a = 97 ∷ []

abbrev letter_b : Bytes
letter_b = 98 ∷ []

-- "/[...b]"
abbrev any_pattern : Bytes
any_pattern = slash ∷ open_bracket ∷ dot ∷ dot ∷ dot ∷ 98 ∷ close_bracket ∷ []

-- "/a/[b]"
abbrev a_pattern : Bytes
a_pattern = slash ∷ 97 ∷ slash ∷ open_bracket ∷ 98 ∷ close_bracket ∷ []

abbrev unparsed : Pattern
unparsed = record { source = []; segments = [] }

abbrev route : Bytes → Bytes → Route
route id pattern = record {
  id = id;
  pattern = pattern;
  mode = dynamic_mode;
  reason = [];
  parsed = unparsed;
}

abbrev two_routes : List Route
two_routes = route letter_b any_pattern ∷ route letter_a a_pattern ∷ []

abbrev any_parsed : Pattern
any_parsed = record {
  source = any_pattern;
  segments = record { kind = catch_all; value = letter_b } ∷ [];
}

abbrev a_parsed : Pattern
a_parsed = record {
  source = a_pattern;
  segments =
      record { kind = literal; value = letter_a }
      ∷ record { kind = dynamic; value = letter_b }
      ∷ [];
}

abbrev two_parsed : List Route
two_parsed =
    record (route letter_b any_pattern) { parsed = any_parsed }
    ∷ record (route letter_a a_pattern) { parsed = a_parsed }
    ∷ []

-- The literal goes before the catch-all.
abbrev table : Table
table = record {
  routes =
      record (route letter_a a_pattern) { parsed = a_parsed }
      ∷ record (route letter_b any_pattern) { parsed = any_parsed }
      ∷ [];
}

parse_lem :
    (parse any_pattern ≡ ok any_parsed)
    × (parse a_pattern ≡ ok a_parsed)
    × (parse (slash ∷ open_bracket ∷ dot ∷ dot ∷ dot ∷ 98 ∷ close_bracket ∷ slash ∷ 97 ∷ [])
        ≡ failed catch_all_not_final)
unfolding parse classify parse_parts split trim trim_left trim_right bytes_eq contains has_prefix
    has_suffix slice take drop
parse_lem = (refl, refl, refl)

table_lem :
    (new_table two_routes ≡ ok table)
    × (new_table (route letter_a a_pattern ∷ route letter_b a_pattern ∷ [])
        ≡ failed (duplicate_pattern a_pattern))
unfolding parse_lem parse classify parse_parts split trim trim_left trim_right bytes_eq contains
    has_prefix has_suffix slice take drop new_table sort_routes insert_route parse_routes is_seen
    compare_specificity compare_loop specificity rank
table_lem = (refl, refl)

-- "/a/%41"
abbrev path_a : Bytes
path_a = slash ∷ 97 ∷ slash ∷ percent ∷ 52 ∷ 49 ∷ []

-- "/a/%2e%2E"
abbrev path_up : Bytes
path_up = slash ∷ 97 ∷ slash ∷ percent ∷ 50 ∷ 101 ∷ percent ∷ 50 ∷ 69 ∷ []

match_lem :
    (match_path a_parsed path_a ≡ some ((letter_b, 65 ∷ []) ∷ []))
    × (match_path a_parsed path_up ≡ none)
    × (match_path any_parsed path_a ≡ some ((letter_b, 97 ∷ slash ∷ 65 ∷ []) ∷ []))
unfolding match_path match_parts split_path decode_parts path_unescape unhex split join trim
    trim_left trim_right bytes_eq contains
match_lem = (refl, refl, refl)

resolve-new_table_example :
    (parsed : List Route) × (parse_routes [] two_routes ≡ ok parsed)
    × (resolve table path_a ≡ best_match parsed path_a)
resolve-new_table_example = resolve-new_table two_routes table path_a table_lem.0

match_path-AreNoDots_example : AreNoDots (split slash (97 ∷ slash ∷ 65 ∷ []))
unfolding param bytes_eq
match_path-AreNoDots_example =
    match_path-AreNoDots any_parsed path_a ((letter_b, 97 ∷ slash ∷ 65 ∷ []) ∷ []) letter_b
      (97 ∷ slash ∷ 65 ∷ []) match_lem.2 refl

new_table-AreValid_example :
    ((t : Table) × (new_table two_routes ≡ ok t)) ↔ (AreValid two_routes × AreDistinct two_routes)
new_table-AreValid_example = new_table-AreValid two_routes

parse-print_example :
    (join slash (map print a_parsed.segments) ≡ trim slash a_pattern)
    × IsWellFormed a_parsed.segments
parse-print_example = parse-print a_pattern a_parsed parse_lem.1
