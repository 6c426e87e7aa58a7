-- ===== src/Decisions/Follow.antt =====
-- agents/decisions/reducer.go: entering a route, dispatching a candidate, and followTarget, which
-- calls itself through requestDecision and routeOutcome. The depth of those calls is fuel.
use gobeyond.Common.{
  ℕ, suc, String, Bool, true, false, Option, none, some, List, [], ◌∷◌, ◌++◌, if◌then◌else◌,
}
use gobeyond.Common.Maps.{insert}
use gobeyond.Contract.Types.{
  budget_route_visits, budget_effect_attempts, ResultSource, source_decision, Outcome, error,
  unavailable, SayStep, ListenStep, ActStep, Route, EffectIdentity, EffectRequest, NormalizedEvent,
}
use gobeyond.Contract.Failure.{message, Result, ok, failed, ◌>>=◌, ◌>>◌, refuse_if, wrap, or_refuse}
use gobeyond.Contract.Checks.{Library, is_empty}
use gobeyond.Contract.Scoped.{canonical_id, check_request_against}
use gobeyond.Decisions.State.{
  listening, deciding, acting, full_agent_fallback, stopped, effect_enter_route, effect_say,
  effect_listen, effect_dispatch_intent, effect_full_agent_fallback, effect_safe_stop, Effect,
  BoundCandidateSnapshot, StateData,
}
use gobeyond.Decisions.Lookup.{
  usage_of, budget_has_room, input_id, outcome_text, next_route_entry, window_id,
  playback_operation_id,
}
use gobeyond.Decisions.Guards.{check_bound_snapshot}
use gobeyond.Decisions.Steps.{Step, effect_at, stop}

abbrev pub is_dependable_failure : ResultSource → Outcome → Bool
is_dependable_failure source_decision error = true
is_dependable_failure source_decision unavailable = true
is_dependable_failure _ _ = false

abbrev pub visit : StateData → String → StateData
visit d id =
    let usage = usage_of d id in
    record d {
      route_visits = suc d.route_visits;
      route_budget_usage =
          insert id (record usage { visits = suc usage.visits }) d.route_budget_usage;
    }

abbrev pub call_decision : StateData → StateData
call_decision d =
    let usage = usage_of d d.route_id in
    record d {
      decision_calls = suc d.decision_calls;
      route_budget_usage =
          insert d.route_id (record usage { decision_calls = suc usage.decision_calls })
            d.route_budget_usage;
      pending_decision = true;
      phase = deciding;
    }

-- The fallback to the full agent.
abbrev pub fall_back : StateData → Outcome → StateData × List Effect
fall_back d outcome = (
  record d {
    full_agent_fallbacks = suc d.full_agent_fallbacks;
    pending_decision = false;
    phase = full_agent_fallback;
    pending_fallback = true;
  },
  record (effect_at d effect_full_agent_fallback) {
    input_id = input_id d;
    reason = outcome_text outcome;
  }
      ∷ [],
)

abbrev pub target_bound : List ActStep → List ActStep
target_bound [] = []
target_bound (a ∷ actions) =
    let rest = target_bound actions in if is_empty a.target_binding then rest else a ∷ rest

-- `if len(actions) != 1`, with the action otherwise.
abbrev pub single : List ActStep → Result ActStep
single (a ∷ []) = ok a
single _ = failed (message "candidate selection requires exactly one frozen target-bound action")

module _ (lib : Library) where
  abbrev pub open_window : StateData → StateData
  open_window d = record d {
    input_window_id = window_id lib d.route_entry_id;
    input_window_open = true;
    phase = listening;
  }

  abbrev pub listen_effect : StateData → ListenStep → Effect
  listen_effect d step = record (effect_at d effect_listen) {
    input_window_id = d.input_window_id;
    accept = step.accept;
  }

  -- sayEffect
  abbrev pub say_effect : StateData → SayStep → StateData × List Effect
  say_effect d step =
      let id = playback_operation_id lib d.route_entry_id (suc d.say_sequence) in
      (
        record d { say_sequence = suc d.say_sequence; pending_say_operation_id = id },
        record (effect_at d effect_say) {
          playback_operation_id = id;
          message_families = step.families;
        }
            ∷ [],
      )

  abbrev pub begin_listening : StateData → Option ListenStep → StateData × List Effect
  begin_listening d none = (d, [])
  begin_listening d (some step) = (open_window d, listen_effect (open_window d) step ∷ [])

  abbrev pub begin_saying : StateData → Option SayStep → StateData × List Effect
  begin_saying d none = (d, [])
  begin_saying d (some step) = say_effect d step

  -- enterEffects, for the active route.
  unfoldable pub enter_effects : StateData → Route → StateData × List Effect
  enter_effects d route =
      let heard = begin_listening d route.listen in
      let said = begin_saying heard.0 route.say in
      (said.0, effect_at d effect_enter_route ∷ (heard.1 ++ said.1))

  -- The state of a new route entry.
  unfoldable pub arrive : StateData → Route → String → StateData
  arrive d route cause = record (visit d route.id) {
    route_id = route.id;
    route_entry_id = next_route_entry lib d.route_entry_id cause route.id;
    phase = listening;
    input_window_id = "";
    input_window_open = false;
    candidate_snapshot = none;
    pending_input = none;
    pending_match = false;
    pending_decision = false;
    pending_fallback = false;
    selected_candidate_id = "";
    pending_request = none;
    pending_request_validated_at = 0;
    pending_action_id = "";
    pending_request_route = "";
    pending_request_entry = "";
    pending_say_operation_id = "";
  }

  -- enterRoute
  unfoldable pub enter_route : StateData → Route → String → Step
  enter_route d route cause =
      if budget_has_room d route.id budget_route_visits d.route_visits (usage_of d route.id).visits
      then ok (enter_effects (arrive d route cause) route)
      else ok (
          stop (record d { input_window_open = false })
            "inherited or route visit ceiling is unresolved or exhausted")

  unfoldable pub request_for :
      StateData → NormalizedEvent → BoundCandidateSnapshot → ActStep → String → EffectRequest
  request_for d input bound action candidate_id =
      let identity : EffectIdentity = record {
        id = "";
        tenant_id = d.scope.tenant_id;
        session_id = d.scope.session_id;
        generation = d.scope.generation;
        route_entry_id = d.route_entry_id;
        input_id = input.id;
        action_id = action.id;
        graph_sha256 = d.definition.graph_digest;
      } in
      record {
        identity = record identity { id = canonical_id lib identity };
        tool_id = action.tool_id;
        kind = action.kind;
        target_binding = action.target_binding;
        target_opaque_id = candidate_id;
        candidate_set_sha256 = bound.snapshot.sha256;
        payload = none;
        reauthorize_at_execution = action.reauthorize_at_execution;
      }

  -- The state in which a request is pending.
  abbrev pub attempt : StateData → EffectRequest → String → ℕ → StateData
  attempt d request action_id now =
      let usage = usage_of d d.route_id in
      record d {
        effect_attempts = suc d.effect_attempts;
        route_budget_usage =
            insert d.route_id (record usage { effect_attempts = suc usage.effect_attempts })
              d.route_budget_usage;
        phase = acting;
        pending_request = some request;
        pending_request_validated_at = now;
        pending_action_id = action_id;
        pending_request_route = d.route_id;
        pending_request_entry = d.route_entry_id;
      }

  abbrev pub intent_effect : StateData → NormalizedEvent → String → EffectRequest → Effect
  intent_effect d input action_id request = record (effect_at d effect_dispatch_intent) {
    input_id = input.id;
    action_id = action_id;
    request = some request;
  }

  abbrev pub dispatch_action :
      StateData → NormalizedEvent → BoundCandidateSnapshot → ActStep → String → ℕ → Step
  dispatch_action d input bound action candidate_id now = do
    let request = request_for d input bound action candidate_id
    wrap "frozen action intent" (
        check_request_against lib request action (some bound.snapshot) d.scope.tenant_id
          d.scope.session_id d.scope.generation now)
    ok (attempt d request action.id now, intent_effect d input action.id request ∷ [])

  -- dispatchCandidate
  unfoldable pub dispatch_candidate : StateData → Route → String → ℕ → Step
  dispatch_candidate d active candidate_id now = do
    refuse_if (is_empty candidate_id)
        "candidate action requires the current accepted input and bound snapshot"
    bound ←
        or_refuse d.candidate_snapshot
          "candidate action requires the current accepted input and bound snapshot"
    input ←
        or_refuse d.pending_input
          "candidate action requires the current accepted input and bound snapshot"
    check_bound_snapshot lib d bound now
    action ← single (target_bound active.act)
    if budget_has_room d d.route_id budget_effect_attempts d.effect_attempts
          (usage_of d d.route_id).effect_attempts
        then dispatch_action d input bound action candidate_id now
        else ok (
          record d { phase = stopped },
          record (effect_at d effect_safe_stop) {
            input_id = input.id;
            reason = "inherited or route effect attempt ceiling is unresolved or exhausted";
          }
              ∷ [],
        )
