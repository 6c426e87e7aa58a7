-- ===== src/Decisions/Runs.antt =====
-- agents/decisions/reducer.go: a session, as the states that Start and then Reduce lead to. An event
-- that Reduce refuses leaves the state as it was.
use gobeyond.Common.{
  ◌≡◌, refl, ◌∙◌, String, Option, none, some, List, [], ◌∷◌, inl, inr, if_intro, arith,
}
use gobeyond.Common.Maps.{lookup}
use gobeyond.Contract.Types.{
  BudgetDimension, budget_route_visits, budget_decision_calls, budget_reprompts,
  budget_effect_attempts, budget_no_input_reprompts, budget_no_match_reprompts,
  budget_ambiguous_reprompts, Bound, Route, Definition, NormalizedEvent,
}
use gobeyond.Contract.Failure.{
  ok, failed, Check, Holds, Holds->>=, ok-Holds, or_refuse-eq-ok, Result-cases,
}
use gobeyond.Decisions.State.{Effect, Event, Policy, StateData, Tools}
use gobeyond.Decisions.Lookup.{usage_of, budget_has_room}
use gobeyond.Decisions.Steps.{Step}
use gobeyond.Decisions.Follow.{visit, enter_effects}
use gobeyond.Decisions.Reduce.{reduce}
use gobeyond.Decisions.Begin.{initial, start}
use gobeyond.Decisions.Bounds.{
  IsWithin, IsWithinCeiling, IsWithinOverride, IsBounded, session_counter, route_counter,
}
use gobeyond.Decisions.Sound.{HasRoute, IsKept, enter_effects-IsSound, visit-IsBounded}
use gobeyond.Decisions.Dispatch.{HasDistinctActions}
use gobeyond.Decisions.Whole.{IsSane, IsReduced, reduce-IsReduced}

-- The caller's state after a call of Reduce.
abbrev pub kept_state : StateData → Step → StateData
kept_state d (ok (next, es)) = next
kept_state d (failed e) = d

-- The state after a list of events.
unfoldable pub run : Tools → StateData → List Event → StateData
run tools d [] = d
run tools d (e ∷ es) = run tools (kept_state d (reduce tools d e)) es

zero-IsWithin : (bound : Bound) → IsWithin 0 bound
zero-IsWithin none = refl
zero-IsWithin (some most) = omega arith

zero-IsWithinCeiling : (o : Option Bound) → IsWithinCeiling 0 o
zero-IsWithinCeiling none = refl
zero-IsWithinCeiling (some bound) = zero-IsWithin bound

zero-IsWithinOverride : (o : Option Bound) → IsWithinOverride 0 o
zero-IsWithinOverride none = tt
zero-IsWithinOverride (some bound) = zero-IsWithin bound

module _ (tools : Tools) (definition : Definition) (admission : NormalizedEvent)
    (policy : Policy) where
  initial_session :
      (dimension : BudgetDimension)
      → session_counter (initial tools definition admission policy) dimension ≡ 0
  unfolding initial
  initial_session budget_route_visits = refl
  initial_session budget_decision_calls = refl
  initial_session budget_reprompts = refl
  initial_session budget_effect_attempts = refl
  initial_session budget_no_input_reprompts = refl
  initial_session budget_no_match_reprompts = refl
  initial_session budget_ambiguous_reprompts = refl

  initial_route :
      (id : String) (dimension : BudgetDimension)
      → route_counter (usage_of (initial tools definition admission policy) id) dimension ≡ 0
  unfolding initial usage_of lookup
  initial_route id budget_route_visits = refl
  initial_route id budget_decision_calls = refl
  initial_route id budget_reprompts = refl
  initial_route id budget_effect_attempts = refl
  initial_route id budget_no_input_reprompts = refl
  initial_route id budget_no_match_reprompts = refl
  initial_route id budget_ambiguous_reprompts = refl

  initial_fallbacks :
      IsWithin
        (initial tools definition admission policy).full_agent_fallbacks
        (initial tools definition admission policy).policy.full_agent_fallback_limit
  unfolding initial
  initial_fallbacks = zero-IsWithin policy.full_agent_fallback_limit

  initial-IsBounded : IsBounded (initial tools definition admission policy)
  initial-IsBounded = (
    λ dimension. rw (initial_session dimension) (zero-IsWithinCeiling _),
    initial_fallbacks,
    λ route dimension _. rw (initial_route route.id dimension) (zero-IsWithinOverride _),
  )

  -- What Start returns.
  abbrev IsStarted : (StateData × List Effect) → Type 0
  IsStarted r = IsBounded r.0 × HasRoute r.0 × (r.0.definition ≡ definition)

  entered-IsStarted :
      (d : StateData) (route : Route)
      → IsBounded d
      → HasRoute d
      → d.definition ≡ definition
      → IsStarted (enter_effects tools.library d route)
  entered-IsStarted d route bounded has_route same =
      let kept : IsKept d d = (bounded, has_route, (refl, refl, refl, refl)) in
      let ((b, h, (e, scope, events, ownership)), valid) =
        enter_effects-IsSound tools.library 0 d d route kept in
      (b, h, e ∙ same)

  start-IsStarted :
      (review : Definition → Check)
      → Holds IsStarted (start tools review definition admission policy)
  unfolding start initial usage_of
  start-IsStarted review = Holds->>= IsStarted _ _ (λ _ _. Holds->>= IsStarted _ _ (λ _ _.
      Holds->>= IsStarted _ _ (λ _ _. Holds->>= IsStarted _ _ (λ _ _.
        Holds->>= IsStarted _ _ (λ _ _. Holds->>= IsStarted _ _ (λ _ _.
          Holds->>= IsStarted _ _ (λ entry e.
            let d = initial tools definition admission policy in
            if_intro (Holds IsStarted)
              (budget_has_room d entry.id budget_route_visits d.route_visits
                (usage_of d entry.id).visits)
              (λ room.
                entered-IsStarted (visit d entry.id) entry
                  (visit-IsBounded tools.library 0 d d entry.id room initial-IsBounded)
                  (entry, or_refuse-eq-ok _ _ e) refl)
              (λ full. (initial-IsBounded, (entry, or_refuse-eq-ok _ _ e), refl)))))))))

module _ (tools : Tools) where
  reduced-IsSane :
      (e : Event) (d : StateData) (sane : IsSane d) (r : StateData × List Effect)
      → IsReduced tools e d sane r
      → IsSane r.0
  reduced-IsSane e d sane r (inl (same, seen)) = rw same sane
  reduced-IsSane e d (distinct, route, budgets) r
        (inr (new, h, (o, move, ((bounded, has_route, (same, scope, events, ownership)), valid)))) =
      (rw same distinct, has_route, bounded)

  pub kept_state-IsSane :
      (d : StateData) (e : Event) → IsSane d → IsSane (kept_state d (reduce tools d e))
  kept_state-IsSane d e sane = elim (Result-cases (reduce tools d e)) [
    | inl (r, h) ↦ rw h (
        reduced-IsSane e d sane r
          (ok-Holds (IsReduced tools e d sane) _ (reduce-IsReduced tools e d sane) h))
    | inr (f, h) ↦ rw h sane
  ]

  pub run-IsSane : (d : StateData) (events : List Event) → IsSane d → IsSane (run tools d events)
  unfolding run
  run-IsSane d [] sane = sane
  run-IsSane d (e ∷ es) sane =
      run-IsSane (kept_state d (reduce tools d e)) es (kept_state-IsSane d e sane)

  pub start-IsSane :
      (review : Definition → Check) (definition : Definition) (admission : NormalizedEvent)
      (policy : Policy) {d : StateData} {es : List Effect}
      → HasDistinctActions definition
      → start tools review definition admission policy ≡ ok (d, es)
      → IsSane d
  start-IsSane review definition admission policy distinct h =
      let (bounded, has_route, same) =
        ok-Holds (IsStarted tools definition admission policy) _
          (start-IsStarted tools definition admission policy review) h in
      (rw same distinct, has_route, bounded)
