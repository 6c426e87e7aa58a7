-- ===== src/Decisions/Target.antt =====
-- agents/decisions/reducer.go: followTarget, which calls itself through requestDecision and
-- routeOutcome. The depth of those calls is fuel; what each calls stands for the calls that follow.
use gobeyond.Common.{ℕ, zero, suc, String, true, ◌&&◌, none, some, List, [], ◌∷◌, if◌then◌else◌}
use gobeyond.Contract.Types.{
  budget_decision_calls, ResultSource, source_decision, Outcome, unavailable, DecideStep,
  RoutePhase, say_phase, listen_phase, match_phase, decide_phase, act_phase, Target, Route,
}
use gobeyond.Contract.Failure.{too_deep, ok, failed, ◌>>=◌, or_refuse}
use gobeyond.Contract.Checks.{Library, is_empty}
use gobeyond.Decisions.State.{effect_run_decision, Effect, StateData}
use gobeyond.Decisions.Lookup.{
  find_route, usage_of, budget_has_room, can_use_full_agent, input_id, snapshot_digest, target_for,
}
use gobeyond.Decisions.Steps.{Step, effect_at, stop, match_effects, enter_terminal, admit_retry}
use gobeyond.Decisions.Follow.{
  is_dependable_failure, call_decision, fall_back, open_window, listen_effect, say_effect,
  enter_route, dispatch_candidate,
}

-- A call of followTarget: the state, the active route, the target, the cause, the reason, the time.
abbrev pub Follow : Type 0
Follow = StateData → Route → Target → String → String → ℕ → Step

-- routeOutcome, with the call of followTarget as an argument.
unfoldable pub route_outcome_with :
    Follow → StateData → Route → ResultSource → Outcome → String → String → ℕ → Step
route_outcome_with follow d active source outcome cause why now =
    if is_dependable_failure source outcome && can_use_full_agent d
    then ok (fall_back d outcome)
    else follow d active (target_for active source outcome) cause why now

abbrev pub run_decision : StateData → DecideStep → StateData × List Effect
run_decision d step = (
  call_decision d,
  record (effect_at d effect_run_decision) {
    input_id = input_id d;
    service_id = step.service_id;
    reason = snapshot_digest d;
  }
      ∷ [],
)

-- requestDecision, with the call of followTarget as an argument.
unfoldable pub request_decision_with : Follow → StateData → Route → String → ℕ → Step
request_decision_with follow d active cause now = elim active.decide [
  | none ↦ route_outcome_with follow d active source_decision unavailable cause "" now
  | some step ↦
      if budget_has_room d d.route_id budget_decision_calls d.decision_calls
        (usage_of d d.route_id).decision_calls
      then ok (run_decision d step)
      else route_outcome_with follow d active source_decision unavailable cause "" now
]

-- The fuel: followTarget, and the call that requestDecision makes inside it.
abbrev pub call_depth : ℕ
call_depth = 2

module _ (lib : Library) where
  -- followTarget with the target of an exhausted retry group.
  unfoldable pub follow_exhausted : StateData → Target → String → String → Step
  follow_exhausted d target cause why =
      if is_empty target.route
      then ok (enter_terminal d target.terminal why)
      else (elim (find_route d.definition target.route) [
        | none ↦ ok (stop d "retry exhaustion target route is missing")
        | some route ↦ enter_route lib d route cause
      ])

  -- followTarget with a route of the definition.
  unfoldable pub follow_route : StateData → Route → String → String → Step
  follow_route d route cause why =
      if is_empty route.retry_group then enter_route lib d route cause else (do
        r ← admit_retry d route cause why
        elim r.1 [
          | none ↦ enter_route lib r.0 route cause
          | some exhausted ↦ follow_exhausted r.0 exhausted cause why
        ])

  -- followTarget with a phase of the active route.
  unfoldable pub follow_phase : Follow → StateData → Route → RoutePhase → String → ℕ → Step
  follow_phase follow d active act_phase cause now =
      if is_empty d.selected_candidate_id
      then ok (stop d "frozen act phase has no validated candidate")
      else dispatch_candidate lib (record d { selected_candidate_id = "" }) active
          d.selected_candidate_id now
  follow_phase follow d active decide_phase cause now =
      request_decision_with follow d active cause now
  follow_phase follow d active listen_phase cause now = do
    step ← or_refuse active.listen "frozen listen phase has no listen step"
    ok (open_window lib d, listen_effect lib (open_window lib d) step ∷ [])
  follow_phase follow d active say_phase cause now = do
    step ← or_refuse active.say "frozen say phase has no say step"
    ok (say_effect lib d step)
  follow_phase follow d active match_phase cause now = do
    matcher ← or_refuse active.matcher "frozen match phase has no active matcher input"
    _ ← or_refuse d.pending_input "frozen match phase has no active matcher input"
    ok (record d { pending_match = true }, match_effects d matcher)

  -- The body of followTarget.
  unfoldable pub follow_target_with : Follow → Follow
  follow_target_with follow d active target cause why now =
      if is_empty target.route
      then (elim target.phase [
        | none ↦ ok (enter_terminal d target.terminal why)
        | some phase ↦ follow_phase follow d active phase cause now
      ])
      else (elim (find_route d.definition target.route) [
        | none ↦ ok (stop d "frozen target route is missing")
        | some route ↦ follow_route d route cause why
      ])

  unfoldable pub follow_target : ℕ → Follow
  follow_target zero d active target cause why now = failed too_deep
  follow_target (suc n) d active target cause why now =
      follow_target_with (follow_target n) d active target cause why now

  abbrev pub follow : Follow
  follow = follow_target call_depth

  -- routeOutcome
  unfoldable pub route_outcome :
      StateData → Route → ResultSource → Outcome → String → String → ℕ → Step
  route_outcome = route_outcome_with follow

  -- requestDecision
  unfoldable pub request_decision : StateData → Route → String → ℕ → Step
  request_decision = request_decision_with follow
