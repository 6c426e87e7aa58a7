-- ===== src/Decisions/Ends.antt =====
-- agents/decisions/reducer.go: followTarget ends: the calls that it makes of itself through
-- requestDecision and routeOutcome are not deeper than the fuel.
use mathlib.Core.Path.{subst}
use gobeyond.Common.{
  ℕ, suc, ◌≡◌, refl, ap, ◌∙◌, ◌≢◌, String, Bool, true, false, Option, none, some, List, [], ◌∷◌,
  ltb, count, if_intro,
}
use gobeyond.Contract.Types.{
  source_decision, unavailable, RoutePhase, say_phase, listen_phase, match_phase, decide_phase,
  act_phase, CandidateSetSnapshot, ActStep, Target, Route,
}
use gobeyond.Contract.Failure.{
  invalid_state, stale_event, too_deep, message, wrapped, Result, ok, failed, ◌>>=◌, refuse_if,
  wrap, or_refuse, Option_intro,
}
use gobeyond.Contract.Checks.{Library, is_empty}
use gobeyond.Contract.Scoped.{check_snapshot}
use gobeyond.Decisions.State.{BoundCandidateSnapshot, StateData}
use gobeyond.Decisions.Lookup.{
  find_route, usage_of, budget_has_room, can_use_full_agent, target_for,
}
use gobeyond.Contract.Types.{budget_route_visits, budget_decision_calls, budget_effect_attempts}
use gobeyond.Decisions.Guards.{check_bound_snapshot}
use gobeyond.Decisions.Steps.{counter_of, has_room_to_retry, admit_retry}
use gobeyond.Decisions.Follow.{single, dispatch_candidate, enter_route}
use gobeyond.Decisions.Target.{
  Follow, route_outcome_with, request_decision_with, follow_exhausted, follow_route, follow_phase,
  follow_target_with, follow_target,
}

-- Any result but that of a call that has no fuel.
abbrev pub HasEnded {ℓ} : {A : Type ℓ} → Result A → Type 0
HasEnded (ok a) = Unit
HasEnded (failed too_deep) = ⊥
HasEnded (failed invalid_state) = Unit
HasEnded (failed stale_event) = Unit
HasEnded (failed (message text)) = Unit
HasEnded (failed (wrapped text e)) = Unit

module _ {ℓ κ} {A : Type ℓ} {B : Type κ} where
  >>=-HasEnded :
      (m : Result A) (f : A → Result B)
      → HasEnded m
      → ((a : A) → HasEnded (f a))
      → HasEnded (m >>= f)
  unfolding ◌>>=◌
  >>=-HasEnded (ok a) f h k = k a
  >>=-HasEnded (failed too_deep) f h k = h
  >>=-HasEnded (failed invalid_state) f h k = tt
  >>=-HasEnded (failed stale_event) f h k = tt
  >>=-HasEnded (failed (message text)) f h k = tt
  >>=-HasEnded (failed (wrapped text e)) f h k = tt

refuse_if-HasEnded : (b : Bool) (text : String) → HasEnded (refuse_if b text)
refuse_if-HasEnded true text = tt
refuse_if-HasEnded false text = tt

module _ {ℓ} {A : Type ℓ} where
  wrap-HasEnded : (text : String) (r : Result A) → HasEnded (wrap text r)
  wrap-HasEnded text (ok a) = tt
  wrap-HasEnded text (failed e) = tt

  or_refuse-HasEnded : (o : Option A) (text : String) → HasEnded (or_refuse o text)
  or_refuse-HasEnded none text = tt
  or_refuse-HasEnded (some a) text = tt

single-HasEnded : (actions : List ActStep) → HasEnded (single actions)
single-HasEnded [] = tt
single-HasEnded (a ∷ []) = tt
single-HasEnded (a ∷ b ∷ actions) = tt

module _ (lib : Library) (now : ℕ) where
  check_snapshot-HasEnded :
      (s : CandidateSetSnapshot) (tenant session : String) (generation : ℕ)
      → HasEnded (check_snapshot lib s tenant session generation now)
  unfolding check_snapshot
  check_snapshot-HasEnded s tenant session generation =
      >>=-HasEnded _ _ (or_refuse-HasEnded _ _) (λ reference.
        >>=-HasEnded _ _ (wrap-HasEnded _ _) (λ _.
          >>=-HasEnded _ _ (refuse_if-HasEnded _ _)
            (λ _. >>=-HasEnded _ _ (refuse_if-HasEnded _ _) (λ _. refuse_if-HasEnded _ _))))

  check_bound_snapshot-HasEnded :
      (d : StateData) (bound : BoundCandidateSnapshot)
      → HasEnded (check_bound_snapshot lib d bound now)
  unfolding check_bound_snapshot
  check_bound_snapshot-HasEnded d bound = >>=-HasEnded _ _ (or_refuse-HasEnded _ _) (λ active.
      >>=-HasEnded _ _ (or_refuse-HasEnded _ _) (λ matcher.
        >>=-HasEnded _ _ (refuse_if-HasEnded _ _) (λ _.
          check_snapshot-HasEnded bound.snapshot d.scope.tenant_id d.scope.session_id
            d.scope.generation)))

  enter_route-HasEnded :
      (d : StateData) (route : Route) (cause : String) → HasEnded (enter_route lib d route cause)
  unfolding enter_route
  enter_route-HasEnded d route cause =
      if_intro HasEnded
        (budget_has_room d route.id budget_route_visits d.route_visits (usage_of d route.id).visits)
        (λ _. tt) (λ _. tt)

  admit_retry-HasEnded :
      (d : StateData) (route : Route) (cause why : String)
      → HasEnded (admit_retry d route cause why)
  unfolding admit_retry
  admit_retry-HasEnded d route cause why = >>=-HasEnded _ _ (or_refuse-HasEnded _ _) (λ g.
      if_intro HasEnded (ltb 0 (count cause (counter_of d g).counted_admission_event_ids)) (λ _. tt)
        (λ _.
          if_intro HasEnded (has_room_to_retry d route g why)
            (λ _. >>=-HasEnded _ _ (wrap-HasEnded _ _) (λ _. tt)) (λ _. tt)))

  follow_exhausted-HasEnded :
      (d : StateData) (target : Target) (cause why : String)
      → HasEnded (follow_exhausted lib d target cause why)
  unfolding follow_exhausted
  follow_exhausted-HasEnded d target cause why =
      if_intro HasEnded (is_empty target.route) (λ _. tt)
        (λ _.
          Option_intro HasEnded (find_route d.definition target.route) (λ _. tt)
            (λ route _. enter_route-HasEnded d route cause))

  follow_route-HasEnded :
      (d : StateData) (route : Route) (cause why : String)
      → HasEnded (follow_route lib d route cause why)
  unfolding follow_route
  follow_route-HasEnded d route cause why =
      if_intro HasEnded (is_empty route.retry_group) (λ _. enter_route-HasEnded d route cause)
        (λ _. >>=-HasEnded _ _ (admit_retry-HasEnded d route cause why) (λ r.
          Option_intro HasEnded r.1 (λ _. enter_route-HasEnded r.0 route cause)
            (λ exhausted _. follow_exhausted-HasEnded r.0 exhausted cause why)))

  dispatch_candidate-HasEnded :
      (d : StateData) (active : Route) (id : String)
      → HasEnded (dispatch_candidate lib d active id now)
  unfolding dispatch_candidate
  dispatch_candidate-HasEnded d active id = >>=-HasEnded _ _ (refuse_if-HasEnded _ _) (λ _.
      >>=-HasEnded _ _ (or_refuse-HasEnded _ _) (λ bound.
        >>=-HasEnded _ _ (or_refuse-HasEnded _ _) (λ input.
          >>=-HasEnded _ _ (check_bound_snapshot-HasEnded d bound) (λ _.
            >>=-HasEnded _ _ (single-HasEnded _) (λ action.
              if_intro HasEnded
                (budget_has_room d d.route_id budget_effect_attempts d.effect_attempts
                  (usage_of d d.route_id).effect_attempts)
                (λ _. >>=-HasEnded _ _ (wrap-HasEnded _ _) (λ _. tt)) (λ _. tt))))))

  -- A call of followTarget that has ended, whatever its fuel.
  abbrev EndsAt : Follow → Route → Target → Type 0
  EndsAt follow active target =
      (d : StateData) (cause why : String) → HasEnded (follow d active target cause why now)

  request_decision_with-HasEnded :
      (follow : Follow) (active : Route)
      → EndsAt follow active (target_for active source_decision unavailable)
      → (d : StateData) (cause : String)
      → HasEnded (request_decision_with follow d active cause now)
  unfolding request_decision_with route_outcome_with
  request_decision_with-HasEnded follow active ends d cause =
      Option_intro HasEnded active.decide
        (λ _. if_intro HasEnded (can_use_full_agent d) (λ _. tt) (λ _. ends d cause ""))
        (λ step _.
          if_intro HasEnded
            (budget_has_room d d.route_id budget_decision_calls d.decision_calls
              (usage_of d d.route_id).decision_calls)
            (λ _. tt)
            (λ _. if_intro HasEnded (can_use_full_agent d) (λ _. tt) (λ _. ends d cause "")))

  -- The step to a phase calls itself for decide_phase alone.
  follow_phase-HasEnded :
      (follow : Follow) (active : Route) (phase : RoutePhase)
      → (phase ≡ decide_phase
          → EndsAt follow active (target_for active source_decision unavailable))
      → (d : StateData) (cause : String)
      → HasEnded (follow_phase lib follow d active phase cause now)
  unfolding follow_phase
  follow_phase-HasEnded follow active act_phase ends d cause =
      if_intro HasEnded (is_empty d.selected_candidate_id) (λ _. tt)
        (λ _. dispatch_candidate-HasEnded _ active d.selected_candidate_id)
  follow_phase-HasEnded follow active decide_phase ends d cause =
      request_decision_with-HasEnded follow active (ends refl) d cause
  follow_phase-HasEnded follow active listen_phase ends d cause =
      >>=-HasEnded _ _ (or_refuse-HasEnded _ _) (λ step. tt)
  follow_phase-HasEnded follow active say_phase ends d cause =
      >>=-HasEnded _ _ (or_refuse-HasEnded _ _) (λ step. tt)
  follow_phase-HasEnded follow active match_phase ends d cause =
      >>=-HasEnded _ _ (or_refuse-HasEnded _ _)
        (λ matcher. >>=-HasEnded _ _ (or_refuse-HasEnded _ _) (λ input. tt))

  follow_target_with-HasEnded :
      (follow : Follow) (active : Route) (target : Target)
      → (target.phase ≡ some decide_phase
          → EndsAt follow active (target_for active source_decision unavailable))
      → EndsAt (follow_target_with lib follow) active target
  unfolding follow_target_with
  follow_target_with-HasEnded follow active target ends d cause why =
      if_intro HasEnded (is_empty target.route)
        (λ _.
          Option_intro HasEnded target.phase (λ _. tt)
            (λ phase named.
              follow_phase-HasEnded follow active phase (λ same. ends (named ∙ ap some same)) d
                cause))
        (λ _.
          Option_intro HasEnded (find_route d.definition target.route) (λ _. tt)
            (λ route _. follow_route-HasEnded d route cause why))

  -- followTarget returns without running out of fuel, from any state and to any target, when the
  -- active route does not send an unavailable decision back to its own decide phase, with the fuel
  -- that Reduce gives it or more.
  pub follow_target-ends :
      (n : ℕ) (d : StateData) (active : Route) (target : Target) (cause why : String)
      → (target_for active source_decision unavailable).phase ≢ some decide_phase
      → follow_target lib (suc (suc n)) d active target cause why now ≢ failed too_deep
  unfolding follow_target
  follow_target-ends n d active target cause why leaves e = subst HasEnded e (
      follow_target_with-HasEnded (follow_target lib (suc n)) active target
        (λ decides d cause why.
          follow_target_with-HasEnded (follow_target lib n) active
            (target_for active source_decision unavailable) (λ again. absurd (leaves again)) d cause
            why)
        d cause why)
