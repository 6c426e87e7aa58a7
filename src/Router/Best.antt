-- ===== src/Router/Best.antt =====
-- router/pattern.go: Resolve against a description of it that does not sort.
use gobeyond.Common.{
  ◌≡◌, refl, sym, ap, ◌∙◌, true, false, Option, none, some, List, [], ◌∷◌, inl, inr, Bool-cases,
  Option-cases, if◌then◌else◌,
}
use gobeyond.Router.Bytes.{Bytes}
use gobeyond.Router.Pattern.{Params, match_path, Result, ok, failed}
use gobeyond.Router.Table.{
  Route, Table, is_before, insert_route, sort_routes, Resolved, or_else, resolve_in, resolve,
  parse_routes, new_table,
}
use gobeyond.Router.Accept.{Result-IsOk}
use gobeyond.Router.Order.{Leads, IsSorted, Leads-trans, sort_routes-IsSorted}

-- A route that matches gives way to a later one only if that is more specific.
abbrev pub better : Route → Option Params → Resolved → Resolved
better r none rest = rest
better r (some params) none = some (r, params)
better r (some params) (some (s, others)) =
    if is_before s r then some (s, others) else some (r, params)

-- The best match among the routes as they are listed.
unfoldable pub best_match : List Route → Bytes → Resolved
best_match [] path = none
best_match (r ∷ routes) path = better r (match_path r.parsed path) (best_match routes path)

abbrev routes_of : Result Table → List Route
routes_of (ok t) = t.routes
routes_of (failed e) = []

module _ (path : Bytes) where
  resolved_Leads :
      (r : Route) (routes : List Route) (s : Route) (params : Params)
      → Leads r routes
      → resolve_in routes path ≡ some (s, params)
      → is_before s r ≡ false
  unfolding resolve_in
  resolved_Leads r [] s params h found = cc
  resolved_Leads r (t ∷ routes) s params (h, hs) found =
      elim (Option-cases (match_path t.parsed path)) [
        | inl misses ↦ resolved_Leads r routes s params hs (rw misses at found)
        | inr (mine, hits) ↦
            let same : some (t, mine) ≡ some (s, params) = rw hits at found in
            let first : t ≡ s = cc same in rw (← first) h
      ]

  better-Leads :
      (r : Route) (o : Option Params) (routes : List Route)
      → Leads r routes
      → better r o (resolve_in routes path) ≡ or_else r o (resolve_in routes path)
  better-Leads r none routes h = refl
  better-Leads r (some params) routes h = elim (Option-cases (resolve_in routes path)) [
    | inl misses ↦ rw misses refl
    | inr ((s, others), found) ↦ rw (found, resolved_Leads r routes s others h found) refl
  ]

  better-or_else :
      (r s : Route) (o p : Option Params) (rest : Resolved)
      → is_before s r ≡ true
      → or_else s p (better r o rest) ≡ better r o (or_else s p rest)
  better-or_else r s o none rest first = refl
  better-or_else r s none (some params) rest first = refl
  better-or_else r s (some mine) (some params) rest first = rw first refl

  resolve_in-insert_route :
      (r : Route) (routes : List Route)
      → IsSorted routes
      → resolve_in (insert_route r routes) path
        ≡ better r (match_path r.parsed path) (resolve_in routes path)
  unfolding resolve_in insert_route
  resolve_in-insert_route r [] h = sym (better-Leads r (match_path r.parsed path) [] tt)
  resolve_in-insert_route r (s ∷ routes) (h, hs) = elim (Bool-cases (is_before s r)) [
    | inl first ↦ rw first (
        ap (or_else s (match_path s.parsed path)) (resolve_in-insert_route r routes hs)
        ∙ better-or_else r s (match_path r.parsed path) (match_path s.parsed path)
            (resolve_in routes path) first)
    | inr later ↦ rw later (
        sym (
          better-Leads r (match_path r.parsed path) (s ∷ routes)
            (later, Leads-trans r s routes later h)))
  ]

  pub resolve_in-sort_routes :
      (routes : List Route) → resolve_in (sort_routes routes) path ≡ best_match routes path
  unfolding sort_routes best_match resolve_in
  resolve_in-sort_routes [] = refl
  resolve_in-sort_routes (r ∷ routes) =
      resolve_in-insert_route r (sort_routes routes) (sort_routes-IsSorted routes)
      ∙ ap (better r (match_path r.parsed path)) (resolve_in-sort_routes routes)

-- A table that NewTable makes resolves a path to the best of its routes as they are listed: the
-- first listed of the matching routes than which no matching route is more specific.
pub resolve-new_table :
    (routes : List Route) (t : Table) (path : Bytes)
    → new_table routes ≡ ok t
    → (parsed : List Route) × (parse_routes [] routes ≡ ok parsed)
      × (resolve t path ≡ best_match parsed path)
unfolding new_table resolve
resolve-new_table routes t path made = elim (Result-IsOk (parse_routes [] routes)) [
  | inl (parsed, done) ↦
      let same : sort_routes parsed ≡ t.routes = ap routes_of (rw done at made) in
      (parsed, done, rw (← same) (resolve_in-sort_routes path parsed))
  | inr (e, refused) ↦ cc (rw refused at made)
]
