-- ===== src/Decisions/Retries.antt =====
-- agents/decisions/reducer.go: admitRetry and followTarget keep the state sound.
use mathlib.Core.Path.{subst}
use gobeyond.Common.{
  ℕ, ◌≡◌, refl, sym, ◌∙◌, String, true, false, Option, some, List, [], ◌∷◌, ltb, str_eq, if_intro,
  inl, inr, Bool-cases, eq_iff, arith, count,
}
use gobeyond.Contract.Types.{
  BudgetDimension, budget_route_visits, budget_decision_calls, budget_reprompts,
  budget_effect_attempts, budget_no_input_reprompts, budget_no_match_reprompts,
  budget_ambiguous_reprompts, Target, Route, RetryGroup, Definition,
}
use gobeyond.Contract.Failure.{Holds, Holds->>=, ok-Holds, Option_intro}
use gobeyond.Contract.Checks.{Library, is_empty}
use gobeyond.Decisions.State.{StateData}
use gobeyond.Decisions.Lookup.{find_route, find_route_in, usage_of}
use gobeyond.Decisions.Steps.{
  counter_of, count_retry, has_room_to_retry, count_admission, admit_retry,
}
use gobeyond.Decisions.Target.{follow_exhausted, follow_route}
use gobeyond.Decisions.Bounds.{IsBounded, Counts, session_counter, route_counter, count-IsBounded}
use gobeyond.Decisions.Sound.{
  IsKept, IsSound, stop-IsSound, enter_terminal-IsSound, enter_route-IsSound,
}

other_text : (s a b : String) → str_eq a b ≡ false → str_eq s a ≡ true → str_eq s b ≡ false
other_text s a b h e = rw ((eq_iff s a).0 e) h

module _ (d : StateData) (route : Route) (g : RetryGroup) (cause why : String)
    (room : has_room_to_retry d route g why ≡ true) where
  retry-Counts :
      (dimension : BudgetDimension)
      → Counts d route.id dimension
          (session_counter (count_admission d route g cause why) dimension)
          (route_counter
            (record (usage_of d route.id) {
              retries = count_retry (usage_of d route.id).retries why;
            })
            dimension)
  retry-Counts budget_route_visits = inl (refl, refl)
  retry-Counts budget_decision_calls = inl (refl, refl)
  retry-Counts budget_effect_attempts = inl (refl, refl)
  retry-Counts budget_reprompts = inr (refl, refl, ground arith)
  retry-Counts budget_no_input_reprompts = ground arith
  retry-Counts budget_no_match_reprompts = ground (arith, other_text why "no_match" "no_input" refl)
  retry-Counts budget_ambiguous_reprompts = ground (
    arith,
    other_text why "ambiguous" "no_input" refl,
    other_text why "ambiguous" "no_match" refl,
  )

  pub count_admission-IsBounded : IsBounded d → IsBounded (count_admission d route g cause why)
  count_admission-IsBounded h =
      count-IsBounded d (count_admission d route g cause why) route.id _ refl refl refl refl
        retry-Counts h

find_route_in-eq-some :
    (rs : List Route) (id : String) (route : Route)
    → find_route_in rs id ≡ some route
    → str_eq route.id id ≡ true
unfolding find_route_in
find_route_in-eq-some [] id route h = cc
find_route_in-eq-some (r ∷ rs) id route h = elim (Bool-cases (str_eq r.id id)) [
  | inl same ↦ ground arith
  | inr other ↦ ground (arith, find_route_in-eq-some rs id route)
]

pub find_route-id :
    (definition : Definition) (id : String) (route : Route)
    → find_route definition id ≡ some route
    → find_route definition route.id ≡ some route
unfolding find_route
find_route-id definition id route h =
    subst (λ i. find_route definition i ≡ some route)
      (sym ((eq_iff route.id id).0 (find_route_in-eq-some definition.graph.routes id route h))) h

module _ (lib : Library) (now : ℕ) (d0 : StateData) where
  pub kept_definition : (d : StateData) → IsKept d0 d → d.definition ≡ d0.definition
  kept_definition d (bounded, has_route, (same, scope, events, ownership)) = same

  abbrev IsKeptBy : (StateData × Option Target) → Type 0
  IsKeptBy r = IsKept d0 r.0

  count_admission-IsKept :
      (d : StateData) (route : Route) (g : RetryGroup) (cause why : String)
      → has_room_to_retry d route g why ≡ true
      → IsKept d0 d
      → IsKept d0 (count_admission d route g cause why)
  count_admission-IsKept d route g cause why room (bounded, has_route, framed) =
      (count_admission-IsBounded d route g cause why room bounded, has_route, framed)

  admit_retry-IsKept :
      (d : StateData) (route : Route) (cause why : String)
      → IsKept d0 d
      → Holds IsKeptBy (admit_retry d route cause why)
  unfolding admit_retry usage_of
  admit_retry-IsKept d route cause why k = Holds->>= IsKeptBy _ _ (λ g found.
      if_intro (Holds IsKeptBy) (ltb 0 (count cause (counter_of d g).counted_admission_event_ids))
        (λ old. k)
        (λ new.
          if_intro (Holds IsKeptBy) (has_room_to_retry d route g why)
            (λ room.
              Holds->>= IsKeptBy _ _
                (λ _ checked. count_admission-IsKept d route g cause why room k))
            (λ full. k)))

  follow_exhausted-IsSound :
      (d : StateData) (target : Target) (cause why : String)
      → IsKept d0 d
      → Holds (IsSound lib now d0) (follow_exhausted lib d target cause why)
  unfolding follow_exhausted
  follow_exhausted-IsSound d target cause why k =
      if_intro (Holds (IsSound lib now d0)) (is_empty target.route)
        (λ none_named. enter_terminal-IsSound lib now d0 d target.terminal why k)
        (λ named.
          Option_intro (Holds (IsSound lib now d0)) (find_route d.definition target.route)
            (λ missing. stop-IsSound lib now d0 d "retry exhaustion target route is missing" k)
            (λ route found.
              enter_route-IsSound lib now d0 d route cause
                (find_route-id d.definition target.route route found) k))

  pub follow_route-IsSound :
      (d : StateData) (route : Route) (cause why : String)
      → find_route d.definition route.id ≡ some route
      → IsKept d0 d
      → Holds (IsSound lib now d0) (follow_route lib d route cause why)
  unfolding follow_route
  follow_route-IsSound d route cause why found k =
      if_intro (Holds (IsSound lib now d0)) (is_empty route.retry_group)
        (λ _. enter_route-IsSound lib now d0 d route cause found k)
        (λ _. Holds->>= (IsSound lib now d0) _ _ (λ r admitted.
          let kept = ok-Holds IsKeptBy _ (admit_retry-IsKept d route cause why k) admitted in
          Option_intro (Holds (IsSound lib now d0)) r.1
            (λ _.
              enter_route-IsSound lib now d0 r.0 route cause
                (subst (λ x. find_route x route.id ≡ some route)
                  (kept_definition d k ∙ sym (kept_definition r.0 kept)) found)
                kept)
            (λ exhausted _. follow_exhausted-IsSound r.0 exhausted cause why kept)))
