-- ===== src/Decisions/Following.antt =====
-- agents/decisions/reducer.go: followTarget, routeOutcome and requestDecision keep the state sound.
use mathlib.Core.Path.{subst}
use gobeyond.Common.{ℕ, zero, suc, ◌≡◌, refl, String, true, ◌&&◌, some, if_intro, inl, inr, arith}
use gobeyond.Contract.Types.{
  BudgetDimension, budget_route_visits, budget_decision_calls, budget_reprompts,
  budget_effect_attempts, budget_no_input_reprompts, budget_no_match_reprompts,
  budget_ambiguous_reprompts, ResultSource, source_decision, Outcome, unavailable, RoutePhase,
  say_phase, listen_phase, match_phase, decide_phase, act_phase, Target, Route,
}
use gobeyond.Contract.Failure.{Holds, Holds->>=, Option_intro}
use gobeyond.Contract.Checks.{Library, is_empty}
use gobeyond.Decisions.State.{StateData}
use gobeyond.Decisions.Lookup.{
  find_route, usage_of, budget_has_room, can_use_full_agent, target_for,
}
use gobeyond.Decisions.Follow.{is_dependable_failure, call_decision, fall_back}
use gobeyond.Decisions.Target.{
  Follow, route_outcome_with, request_decision_with, follow_phase, follow_target_with,
  follow_target, route_outcome, request_decision,
}
use gobeyond.Decisions.Bounds.{
  Counts, session_counter, route_counter, count-IsBounded, below-IsWithin,
}
use gobeyond.Decisions.Sound.{
  IsKept, IsSound, match_effects-AreIntentsValid, stop-IsSound, enter_terminal-IsSound,
}
use gobeyond.Decisions.Retries.{find_route-id, kept_definition, follow_route-IsSound}
use gobeyond.Decisions.Dispatch.{HasDistinctActions, AreDistinct, dispatch_candidate-IsSound}

call-Counts :
    (d : StateData) (dimension : BudgetDimension)
    → budget_has_room d d.route_id budget_decision_calls d.decision_calls
        (usage_of d d.route_id).decision_calls
      ≡ true
    → Counts d d.route_id dimension (session_counter (call_decision d) dimension) (
        route_counter
          (record (usage_of d d.route_id) {
            decision_calls = suc (usage_of d d.route_id).decision_calls;
          })
          dimension)
call-Counts d budget_route_visits room = inl (refl, refl)
call-Counts d budget_decision_calls room = inr (refl, refl, room)
call-Counts d budget_reprompts room = inl (refl, refl)
call-Counts d budget_effect_attempts room = inl (refl, refl)
call-Counts d budget_no_input_reprompts room = inl (refl, refl)
call-Counts d budget_no_match_reprompts room = inl (refl, refl)
call-Counts d budget_ambiguous_reprompts room = inl (refl, refl)

module _ (lib : Library) (now : ℕ) (d0 : StateData) where
  call_decision-IsKept :
      (d : StateData)
      → budget_has_room d d.route_id budget_decision_calls d.decision_calls
          (usage_of d d.route_id).decision_calls
        ≡ true
      → IsKept d0 d
      → IsKept d0 (call_decision d)
  call_decision-IsKept d room (bounded, has_route, framed) = (
    count-IsBounded d (call_decision d) d.route_id _ refl refl refl refl
        (λ dimension. call-Counts d dimension room) bounded,
    has_route,
    framed,
  )

  pub fall_back-IsSound :
      (d : StateData) (outcome : Outcome)
      → can_use_full_agent d ≡ true
      → IsKept d0 d
      → IsSound lib now d0 (fall_back d outcome)
  unfolding can_use_full_agent usage_of
  fall_back-IsSound d outcome room ((ceilings, limit, overrides), has_route, framed) = (
    (
      (
        ceilings,
        below-IsWithin d.full_agent_fallbacks d.policy.full_agent_fallback_limit room,
        overrides,
      ),
      has_route,
      framed,
    ),
    (tt, tt),
  )

  -- Every call keeps the state sound.
  abbrev pub KeepsSound : Follow → Type 0
  KeepsSound follow =
      (d : StateData) (active : Route) (target : Target) (cause why : String)
      → find_route d.definition d.route_id ≡ some active
      → IsKept d0 d
      → Holds (IsSound lib now d0) (follow d active target cause why now)

  module _ (follow : Follow) (keeps : KeepsSound follow) where
    pub route_outcome_with-IsSound :
        (d : StateData) (active : Route) (source : ResultSource) (outcome : Outcome)
        (cause why : String)
        → find_route d.definition d.route_id ≡ some active
        → IsKept d0 d
        → Holds
            (IsSound lib now d0)
            (route_outcome_with follow d active source outcome cause why now)
    unfolding route_outcome_with
    route_outcome_with-IsSound d active source outcome cause why found k =
        if_intro (Holds (IsSound lib now d0))
          (is_dependable_failure source outcome && can_use_full_agent d)
          (λ both. fall_back-IsSound d outcome (ground arith) k)
          (λ other. keeps d active (target_for active source outcome) cause why found k)

    pub request_decision_with-IsSound :
        (d : StateData) (active : Route) (cause : String)
        → find_route d.definition d.route_id ≡ some active
        → IsKept d0 d
        → Holds (IsSound lib now d0) (request_decision_with follow d active cause now)
    unfolding request_decision_with
    request_decision_with-IsSound d active cause found k =
        Option_intro (Holds (IsSound lib now d0)) active.decide
          (λ absent.
            route_outcome_with-IsSound d active source_decision unavailable cause "" found k)
          (λ step present.
            if_intro (Holds (IsSound lib now d0))
              (budget_has_room d d.route_id budget_decision_calls d.decision_calls
                (usage_of d d.route_id).decision_calls)
              (λ room. (call_decision-IsKept d room k, (tt, tt)))
              (λ full.
                route_outcome_with-IsSound d active source_decision unavailable cause "" found k))

  module _ (distinct : HasDistinctActions d0.definition) where
    distinct_actions :
        (d : StateData) (active : Route)
        → find_route d.definition d.route_id ≡ some active
        → IsKept d0 d
        → AreDistinct active.act
    distinct_actions d active found k =
        distinct d.route_id active (
          subst (λ x. find_route x d.route_id ≡ some active) (kept_definition lib now d0 d k) found)

    follow_phase-IsSound :
        (follow : Follow)
        → KeepsSound follow
        → (d : StateData) (active : Route) (phase : RoutePhase) (cause : String)
        → find_route d.definition d.route_id ≡ some active
        → IsKept d0 d
        → Holds (IsSound lib now d0) (follow_phase lib follow d active phase cause now)
    unfolding follow_phase usage_of
    follow_phase-IsSound follow keeps d active act_phase cause found k =
        if_intro (Holds (IsSound lib now d0)) (is_empty d.selected_candidate_id)
          (λ _. (k, (tt, tt)))
          (λ _.
            dispatch_candidate-IsSound lib now d0 (record d { selected_candidate_id = "" }) active
              d.selected_candidate_id (distinct_actions d active found k) found k)
    follow_phase-IsSound follow keeps d active decide_phase cause found k =
        request_decision_with-IsSound follow keeps d active cause found k
    follow_phase-IsSound follow keeps d active listen_phase cause found k =
        Holds->>= (IsSound lib now d0) _ _ (λ step _. (k, (tt, tt)))
    follow_phase-IsSound follow keeps d active say_phase cause found k =
        Holds->>= (IsSound lib now d0) _ _ (λ step _. (k, (tt, tt)))
    follow_phase-IsSound follow keeps d active match_phase cause found k =
        Holds->>= (IsSound lib now d0) _ _ (λ matcher _.
          Holds->>= (IsSound lib now d0) _ _ (λ input _. (
            k,
            match_effects-AreIntentsValid lib now d0 (record d { pending_match = true }) d matcher,
          )))

    follow_target_with-IsSound :
        (follow : Follow) → KeepsSound follow → KeepsSound (follow_target_with lib follow)
    unfolding follow_target_with
    follow_target_with-IsSound follow keeps d active target cause why found k =
        if_intro (Holds (IsSound lib now d0)) (is_empty target.route)
          (λ _.
            Option_intro (Holds (IsSound lib now d0)) target.phase
              (λ _. enter_terminal-IsSound lib now d0 d target.terminal why k)
              (λ phase _. follow_phase-IsSound follow keeps d active phase cause found k))
          (λ _.
            Option_intro (Holds (IsSound lib now d0)) (find_route d.definition target.route)
              (λ _. stop-IsSound lib now d0 d "frozen target route is missing" k)
              (λ route named.
                follow_route-IsSound lib now d0 d route cause why
                  (find_route-id d.definition target.route route named) k))

    pub follow_target-IsSound : (n : ℕ) → KeepsSound (follow_target lib n)
    unfolding follow_target
    follow_target-IsSound zero d active target cause why found k = tt
    follow_target-IsSound (suc n) d active target cause why found k =
        follow_target_with-IsSound (follow_target lib n) (follow_target-IsSound n) d active target
          cause why found k

    pub route_outcome-IsSound :
        (d : StateData) (active : Route) (source : ResultSource) (outcome : Outcome)
        (cause why : String)
        → find_route d.definition d.route_id ≡ some active
        → IsKept d0 d
        → Holds (IsSound lib now d0) (route_outcome lib d active source outcome cause why now)
    unfolding route_outcome
    route_outcome-IsSound =
        route_outcome_with-IsSound (follow_target lib 2) (follow_target-IsSound 2)

    pub request_decision-IsSound :
        (d : StateData) (active : Route) (cause : String)
        → find_route d.definition d.route_id ≡ some active
        → IsKept d0 d
        → Holds (IsSound lib now d0) (request_decision lib d active cause now)
    unfolding request_decision
    request_decision-IsSound =
        request_decision_with-IsSound (follow_target lib 2) (follow_target-IsSound 2)
