-- ===== src/Router/Table.antt =====
-- router/pattern.go: specificity, NewTable and Resolve. The stable sort is an insertion sort: the
-- result of a stable sort by a weak order is the same for every method.
use gobeyond.Common.{
  ℕ, Bool, true, false, Option, none, some, List, [], ◌∷◌, ltb, ◌||◌, if◌then◌else◌, length,
}
use gobeyond.Router.Bytes.{Bytes, bytes_eq}
use gobeyond.Router.Pattern.{
  SegmentKind, literal, dynamic, catch_all, optional_catch_all, Segment, Pattern, id_required,
  duplicate_pattern, Result, ok, failed, parse, Params, match_path, is_empty,
}

-- The `switch` of specificity.
unfoldable pub rank : SegmentKind → ℕ
rank literal = 4
rank dynamic = 3
rank catch_all = 2
rank optional_catch_all = 1

abbrev pub ranks : List Segment → List ℕ
ranks [] = []
ranks (segment ∷ segments) = rank segment.kind ∷ ranks segments

-- specificity
unfoldable pub specificity : Pattern → List ℕ
specificity pattern = length pattern.segments ∷ ranks pattern.segments

-- The result of compareSpecificity: -1, 0 or 1.
pub data Compared : Type 0 where
  below same above : Compared

-- `if av > bv`, `if av < bv`, and what follows.
abbrev pub by_then : ℕ → ℕ → Compared → Compared
by_then av bv next = if ltb bv av then above else if ltb av bv then below else next

-- The loop of compareSpecificity; a list that has ended reads as 0.
unfoldable pub compare_loop : List ℕ → List ℕ → Compared → Compared
compare_loop [] [] next = next
compare_loop [] (b ∷ ys) next = by_then 0 b (compare_loop [] ys next)
compare_loop (a ∷ xs) [] next = by_then a 0 (compare_loop xs [] next)
compare_loop (a ∷ xs) (b ∷ ys) next = by_then a b (compare_loop xs ys next)

abbrev tail : List ℕ → List ℕ
tail [] = []
tail (a ∷ xs) = xs

-- compareSpecificity: the loop begins at 1.
unfoldable pub compare_specificity : List ℕ → List ℕ → Compared
unfolding compare_loop
compare_specificity a b = compare_loop (tail a) (tail b) (by_then (length a) (length b) same)

pub data Mode : Type 0 where
  static_mode dynamic_mode api_mode : Mode

pub record Route : Type 0 where
  pub id : Bytes
  pub pattern : Bytes
  pub mode : Mode
  pub reason : Bytes
  pub parsed : Pattern

-- The `less` of the sort: the first is more specific.
abbrev pub is_before : Route → Route → Bool
is_before r s = elim (compare_specificity (specificity r.parsed) (specificity s.parsed)) [
  | above ↦ true
  | same ↦ false
  | below ↦ false
]

unfoldable pub insert_route : Route → List Route → List Route
insert_route r [] = r ∷ []
insert_route r (s ∷ routes) =
    let rest = insert_route r routes in if is_before s r then s ∷ rest else r ∷ s ∷ routes

-- sort.SliceStable, by `is_before`
unfoldable pub sort_routes : List Route → List Route
sort_routes [] = []
sort_routes (r ∷ routes) = insert_route r (sort_routes routes)

unfoldable pub is_seen : Bytes → List Bytes → Bool
is_seen pattern [] = false
is_seen pattern (p ∷ seen) = bytes_eq p pattern || is_seen pattern seen

abbrev pub add_route : Route → Result Pattern → Result (List Route) → Result (List Route)
add_route route (failed e) rest = failed e
add_route route (ok parsed) (failed e) = failed e
add_route route (ok parsed) (ok routes) = ok (record route { parsed = parsed } ∷ routes)

-- The loop of NewTable; `seen` holds the patterns so far.
unfoldable pub parse_routes : List Bytes → List Route → Result (List Route)
parse_routes seen [] = ok []
parse_routes seen (route ∷ routes) =
    let rest = parse_routes (route.pattern ∷ seen) routes in
    if is_empty route.id
    then failed id_required
    else if is_seen route.pattern seen
    then failed (duplicate_pattern route.pattern)
    else add_route route (parse route.pattern) rest

pub record Table : Type 0 where
  pub routes : List Route

abbrev pub make_table : Result (List Route) → Result Table
make_table (failed e) = failed e
make_table (ok routes) = ok (record { routes = sort_routes routes })

-- NewTable
unfoldable pub new_table : List Route → Result Table
new_table routes = make_table (parse_routes [] routes)

-- What Resolve returns.
abbrev pub Resolved : Type 0
Resolved = Option (Route × Params)

abbrev pub or_else : Route → Option Params → Resolved → Resolved
or_else route (some params) rest = some (route, params)
or_else route none rest = rest

-- The loop of Resolve.
unfoldable pub resolve_in : List Route → Bytes → Resolved
resolve_in [] path = none
resolve_in (route ∷ routes) path =
    or_else route (match_path route.parsed path) (resolve_in routes path)

-- Resolve
unfoldable pub resolve : Table → Bytes → Resolved
resolve t path = resolve_in t.routes path
