-- ===== src/Decisions/Begin.antt =====
-- agents/decisions/reducer.go: Start. The review of a definition, which reads all of it, is an
-- argument.
use gobeyond.Common.{Bool, true, false, not, ◌&&◌, none, some, [], ◌∷◌, str_eq, if◌then◌else◌}
use gobeyond.Contract.Types.{
  budget_route_visits, EventKind, session_admitted, NormalizedEvent, Definition,
}
use gobeyond.Contract.Failure.{ok, ◌>>=◌, ◌>>◌, Check, refuse_if, wrap, or_refuse}
use gobeyond.Contract.Fields.{is_identifier}
use gobeyond.Contract.Checks.{is_empty}
use gobeyond.Contract.Events.{check_event}
use gobeyond.Decisions.State.{listening, Event, Policy, StateData, Tools, no_totals}
use gobeyond.Decisions.Lookup.{find_route, usage_of, budget_has_room}
use gobeyond.Decisions.Steps.{Step, stop}
use gobeyond.Decisions.Follow.{visit, enter_effects}
use gobeyond.Decisions.Receipts.{owned_again}
use gobeyond.Decisions.Reduce.{fingerprint}

abbrev is_admission : EventKind → Bool
is_admission session_admitted = true
is_admission _ = false

abbrev normalized_event : NormalizedEvent → Event
normalized_event e = record {
  normalized = some e;
  input_id = "";
  snapshot = none;
  control = none;
  fallback = none;
}

module _ (tools : Tools) where
  -- The state that Start builds.
  unfoldable pub initial : Definition → NormalizedEvent → Policy → StateData
  initial definition admission policy = record {
    definition = definition;
    scope = record {
      tenant_id = admission.tenant_id;
      session_id = admission.session_id;
      generation = admission.generation;
      channel = admission.channel;
      locale = admission.locale;
    };
    policy = policy;
    route_id = definition.graph.entry;
    route_entry_id = admission.route_entry_id;
    phase = listening;
    input_window_id = "";
    input_window_open = false;
    logical_task_id = admission.id;
    route_visits = 0;
    decision_calls = 0;
    effect_attempts = 0;
    full_agent_fallbacks = 0;
    retry_counters = [];
    session_retry_totals = no_totals;
    route_budget_usage = [];
    processed_events = (admission.id, fingerprint tools (normalized_event admission)) ∷ [];
    candidate_snapshot = none;
    pending_input = none;
    pending_match = false;
    pending_decision = false;
    pending_fallback = false;
    selected_candidate_id = "";
    pending_request = none;
    pending_request_validated_at = 0;
    pending_action_id = "";
    pending_request_route = "";
    pending_request_entry = "";
    pending_say_operation_id = "";
    say_sequence = 0;
    ownership = owned_again;
    graph_ended = false;
    session_ended = false;
  }

  -- Start; `review` is Definition.ValidateForReview.
  unfoldable pub start : (Definition → Check) → Definition → NormalizedEvent → Policy → Step
  start review definition admission policy = do
    wrap "frozen decision definition" (review definition)
    refuse_if (not (is_admission admission.kind))
        "decision session must start with session_admitted"
    wrap "session admission" (check_event tools.library admission admission.received_at)
    refuse_if (is_empty admission.route_entry_id)
        "session admission requires a trusted initial route-entry identity"
    refuse_if (not (is_identifier admission.route_entry_id))
        "initial route-entry identity is not a stable identifier"
    refuse_if
        (not (is_empty admission.route_id)
          && not (str_eq admission.route_id definition.graph.entry))
        "session admission route does not match the frozen graph entry"
    entry ←
        or_refuse (find_route definition definition.graph.entry)
          "frozen graph entry route is missing"
    let d = initial definition admission policy
    if budget_has_room d entry.id budget_route_visits d.route_visits (usage_of d entry.id).visits
        then ok (enter_effects tools.library (visit d entry.id) entry)
        else ok (stop d "route visit ceiling is unresolved or exhausted")
