-- ===== src/Router/Order.antt =====
-- router/pattern.go: the order that compareSpecificity gives is total and transitive.
use gobeyond.Common.{ℕ, ◌≡◌, Bool, true, false, List, [], ◌∷◌, if_intro, length, arith}
use gobeyond.Router.Table.{
  Compared, below, same, above, by_then, compare_loop, compare_specificity, specificity, ranks,
  Route, is_before, insert_route, sort_routes,
}

-- A comparison whose ends are compared by `end`.
abbrev is_above : Compared → Bool
is_above above = true
is_above same = false
is_above below = false

module _ (u v w : Compared)
    (ends : is_above v ≡ false → is_above u ≡ false → is_above w ≡ false) where
  -- `u` compares the first with the second, `v` the second with the third, `w` the first with the
  -- third.
  compare_loop_trans :
      (xs ys zs : List ℕ)
      → is_above (compare_loop xs ys u) ≡ false
      → is_above (compare_loop ys zs v) ≡ false
      → is_above (compare_loop xs zs w) ≡ false
  unfolding compare_loop
  compare_loop_trans [] [] [] h k = ends k h
  compare_loop_trans [] [] (z ∷ zs) h k = ground (arith, compare_loop_trans [] [] zs)
  compare_loop_trans [] (y ∷ ys) [] h k = ground (arith, compare_loop_trans [] ys [])
  compare_loop_trans [] (y ∷ ys) (z ∷ zs) h k = ground (arith, compare_loop_trans [] ys zs)
  compare_loop_trans (x ∷ xs) [] [] h k = ground (arith, compare_loop_trans xs [] [])
  compare_loop_trans (x ∷ xs) [] (z ∷ zs) h k = ground (arith, compare_loop_trans xs [] zs)
  compare_loop_trans (x ∷ xs) (y ∷ ys) [] h k = ground (arith, compare_loop_trans xs ys [])
  compare_loop_trans (x ∷ xs) (y ∷ ys) (z ∷ zs) h k = ground (arith, compare_loop_trans xs ys zs)

-- Comparing the other way round.
compare_loop_swap :
    (u v : Compared) (xs ys : List ℕ)
    → (is_above u ≡ true → is_above v ≡ false)
    → is_above (compare_loop xs ys u) ≡ true
    → is_above (compare_loop ys xs v) ≡ false
unfolding compare_loop
compare_loop_swap u v [] [] ends h = ends h
compare_loop_swap u v [] (y ∷ ys) ends h = ground (arith, compare_loop_swap u v [] ys ends)
compare_loop_swap u v (x ∷ xs) [] ends h = ground (arith, compare_loop_swap u v xs [] ends)
compare_loop_swap u v (x ∷ xs) (y ∷ ys) ends h = ground (arith, compare_loop_swap u v xs ys ends)

-- A route that no route of the list precedes.
abbrev pub Leads : Route → List Route → Type 0
Leads r [] = Unit
Leads r (s ∷ routes) = (is_before s r ≡ false) × Leads r routes

abbrev pub IsSorted : List Route → Type 0
IsSorted [] = Unit
IsSorted (r ∷ routes) = Leads r routes × IsSorted routes

pub is_before_trans :
    (r s t : Route) → is_before s r ≡ false → is_before t s ≡ false → is_before t r ≡ false
unfolding compare_specificity specificity
is_before_trans r s t h k =
    let n = length r.parsed.segments in
    compare_loop_trans
      (by_then (length (specificity t.parsed)) (length (specificity s.parsed)) same)
      (by_then (length (specificity s.parsed)) (length (specificity r.parsed)) same)
      (by_then (length (specificity t.parsed)) (length (specificity r.parsed)) same)
      (λ p q. ground arith) (ranks t.parsed.segments) (ranks s.parsed.segments)
      (ranks r.parsed.segments) k h

pub is_before_asym : (r s : Route) → is_before r s ≡ true → is_before s r ≡ false
unfolding compare_specificity specificity
is_before_asym r s h =
    compare_loop_swap (by_then (length (specificity r.parsed)) (length (specificity s.parsed)) same)
      (by_then (length (specificity s.parsed)) (length (specificity r.parsed)) same)
      (ranks r.parsed.segments) (ranks s.parsed.segments) (λ p. ground arith) h

pub Leads-trans :
    (r s : Route) (routes : List Route) → is_before s r ≡ false → Leads s routes → Leads r routes
Leads-trans r s [] h k = tt
Leads-trans r s (t ∷ routes) h (k, ks) = (is_before_trans r s t h k, Leads-trans r s routes h ks)

Leads-insert_route :
    (x r : Route) (routes : List Route)
    → is_before r x ≡ false
    → Leads x routes
    → Leads x (insert_route r routes)
unfolding insert_route
Leads-insert_route x r [] h k = (h, tt)
Leads-insert_route x r (s ∷ routes) h (k, ks) =
    if_intro (Leads x) (is_before s r) (λ _. (k, Leads-insert_route x r routes h ks))
      (λ _. (h, (k, ks)))

pub insert_route-IsSorted :
    (r : Route) (routes : List Route) → IsSorted routes → IsSorted (insert_route r routes)
unfolding insert_route
insert_route-IsSorted r [] h = (tt, tt)
insert_route-IsSorted r (s ∷ routes) (h, hs) =
    if_intro IsSorted (is_before s r)
      (λ first. (
        Leads-insert_route s r routes (is_before_asym s r first) h,
        insert_route-IsSorted r routes hs,
      ))
      (λ later. ((later, Leads-trans r s routes later h), (h, hs)))

pub sort_routes-IsSorted : (routes : List Route) → IsSorted (sort_routes routes)
unfolding sort_routes
sort_routes-IsSorted [] = tt
sort_routes-IsSorted (r ∷ routes) =
    insert_route-IsSorted r (sort_routes routes) (sort_routes-IsSorted routes)
