-- ===== src/Decisions/Inputs.antt =====
-- agents/decisions/reducer.go: reduceNormalized, which reacts to a normalized event by its kind.
use gobeyond.Common.{
  suc, String, Bool, true, false, not, ◌&&◌, ◌||◌, Option, none, some, [], ◌∷◌, str_eq, is_some,
  if◌then◌else◌, equal,
}
use gobeyond.Contract.Types.{
  source_input, source_match, source_decision, source_playback, source_control, Outcome, no_input,
  utterance_limit, candidate, no_match, error, completed, cancelled, disconnected, Outcome-discrete,
  RoutePhase, listen_phase, NoMatchBehavior, no_match_to_decision, no_match_to_route, ListenStep,
  Route, EventKind, speech_started, input_final, input_error, initial_silence,
  utterance_limit_reached, retry_exhausted, playback_started, playback_completed, playback_cleared,
  playback_failed, match_completed, decision_completed, submitted_effect, receipt_of_effect,
  handoff_accepted, session_disconnected, session_cancelled, NormalizedEvent, InputWindow,
}
use gobeyond.Contract.Failure.{message, ok, failed, ◌>>=◌, ◌>>◌, refuse_if, wrap, or_refuse}
use gobeyond.Contract.Checks.{Library, is_empty}
use gobeyond.Contract.Scoped.{check_match_against, check_decision_against}
use gobeyond.Contract.Events.{check_active_window}
use gobeyond.Decisions.State.{matching, full_agent_fallback, effect_full_agent_fallback, StateData}
use gobeyond.Decisions.Lookup.{
  find_route, find_retry_group, target_for, can_use_full_agent, retry_reason, outcome_text,
  contains_modality,
}
use gobeyond.Decisions.Guards.{require_open_window, check_bound_snapshot}
use gobeyond.Decisions.Steps.{Step, effect_at, match_effects}
use gobeyond.Decisions.Follow.{is_dependable_failure, open_window, listen_effect}
use gobeyond.Decisions.Target.{follow, route_outcome, request_decision}
use gobeyond.Decisions.Receipts.{reduce_submission, reduce_effect_receipt}

-- No effects.
abbrev pub quiet : StateData → Step
quiet d = ok (d, [])

abbrev pub close_window : StateData → StateData
close_window d = record d { input_window_open = false }

-- The case of an input_final event.
unfoldable pub reduce_final_input : StateData → Route → NormalizedEvent → Step
reduce_final_input d active event = do
  require_open_window d event.input_window_id
  listen ← or_refuse active.listen "final input is not accepted by the frozen active route"
  matcher ← or_refuse active.matcher "final input is not accepted by the frozen active route"
  refuse_if (not (contains_modality listen.accept event.modality))
      "final input modality is not accepted by the frozen active route"
  let next = record d {
    input_window_open = false;
    pending_input = some event;
    pending_match = true;
    pending_decision = false;
    phase = matching;
  }
  ok (next, match_effects next matcher)

abbrev is_pending_input : StateData → String → Bool
is_pending_input d id = elim d.pending_input [ none ↦ false | some input ↦ str_eq id input.id ]

abbrev pub is_listen : Option RoutePhase → Bool
is_listen (some listen_phase) = true
is_listen _ = false

abbrev pub to_decision : NoMatchBehavior → Bool
to_decision no_match_to_decision = true
to_decision no_match_to_route = false

-- A selection of a candidate by a result that has one.
abbrev pub select : StateData → Outcome → String → StateData
select d outcome id =
    if equal Outcome-discrete outcome candidate then record d { selected_candidate_id = id } else d

abbrev pub has_work : StateData → Bool
has_work d =
    is_some d.pending_input
    || d.pending_match
    || d.pending_decision
    || d.pending_fallback
    || is_some d.pending_request

module _ (lib : Library) where
  abbrev active_window : StateData → InputWindow
  active_window d = record {
    tenant_id = d.scope.tenant_id;
    session_id = d.scope.session_id;
    generation = d.scope.generation;
    route_id = d.route_id;
    route_entry_id = d.route_entry_id;
    input_window_id = d.input_window_id;
    channel = d.scope.channel;
  }

  -- The cases of initial_silence and utterance_limit_reached.
  abbrev pub reduce_window_end : StateData → Route → NormalizedEvent → Outcome → String → Step
  reduce_window_end d active event outcome why = do
    require_open_window d event.input_window_id
    route_outcome lib (close_window d) active source_input outcome event.id why event.received_at

  -- The case of an input_error event.
  unfoldable pub reduce_input_error : StateData → Route → NormalizedEvent → Step
  reduce_input_error d active event = do
    wrap "input error is not bound to the active window"
        (check_active_window lib event (active_window d) event.received_at)
    require_open_window d event.input_window_id
    route_outcome lib (close_window d) active source_input error event.id "input_error"
        event.received_at

  -- The case of a match_completed event; a route without a matcher is a nil dereference.
  unfoldable pub reduce_match : StateData → Route → NormalizedEvent → String → Step
  reduce_match d active event id = do
    refuse_if (not d.pending_match || not (is_pending_input d id))
        "match result does not match the active accepted input"
    bound ← or_refuse d.candidate_snapshot "match result has no bound active candidate snapshot"
    result ←
        or_refuse event.match_result "match result binding does not match the frozen active matcher"
    matcher ← or_refuse active.matcher "invalid memory address or nil pointer dereference"
    refuse_if (not (str_eq result.binding_id matcher.binding_id))
        "match result binding does not match the frozen active matcher"
    check_bound_snapshot lib d bound event.received_at
    wrap "deterministic match result" (
        check_match_against lib result bound.snapshot d.scope.tenant_id d.scope.session_id
          d.scope.generation event.received_at)
    let matched = record d { pending_match = false }
    if equal Outcome-discrete result.outcome no_match
          && to_decision matcher.on_no_match
          && is_some active.decide
        then request_decision lib matched active event.id event.received_at
        else route_outcome lib (select matched result.outcome result.candidate_id) active
            source_match result.outcome event.id (retry_reason result.outcome) event.received_at

  abbrev active_binding : Route → String
  active_binding active = elim active.matcher [ none ↦ "" | some matcher ↦ matcher.binding_id ]

  -- The fallback for a decision that failed; pending_decision is false already.
  abbrev pub decision_falls_back : StateData → Outcome → Step
  decision_falls_back d outcome = ok (
    record d {
      full_agent_fallbacks = suc d.full_agent_fallbacks;
      phase = full_agent_fallback;
      pending_fallback = true;
    },
    record (effect_at d effect_full_agent_fallback) {
      input_id = elim d.pending_input [ none ↦ "" | some input ↦ input.id ];
      reason = outcome_text outcome;
    }
        ∷ [],
  )

  -- The case of a decision_completed event.
  unfoldable pub reduce_decision : StateData → Route → NormalizedEvent → String → Step
  reduce_decision d active event id = do
    refuse_if (not d.pending_decision || not (is_pending_input d id))
        "decision result does not match the active Jev request"
    bound ← or_refuse d.candidate_snapshot "decision result has no bound active candidate snapshot"
    result ← or_refuse event.decision "decision result has no bound active candidate snapshot"
    refuse_if (not (str_eq bound.binding_id (active_binding active)))
        "decision snapshot is not bound to the frozen active matcher"
    check_bound_snapshot lib d bound event.received_at
    wrap "Jev decision result" (
        check_decision_against lib result bound.snapshot d.scope.tenant_id d.scope.session_id
          d.scope.generation event.received_at)
    let decided = record d { pending_decision = false }
    if is_dependable_failure source_decision result.outcome && can_use_full_agent decided
        then decision_falls_back decided result.outcome
        else route_outcome lib (select decided result.outcome result.candidate_id) active
            source_decision result.outcome event.id (retry_reason result.outcome) event.received_at

  -- The completed edge back to listening, for a prompt that no input replaced.
  abbrev pub listen_again : StateData → Option ListenStep → Step
  listen_again d none = quiet d
  listen_again d (some step) =
      if d.input_window_open
      then quiet d
      else ok (open_window lib d, listen_effect lib (open_window lib d) step ∷ [])

  -- The cases of the playback receipts.
  unfoldable pub reduce_playback : StateData → Route → NormalizedEvent → Step
  reduce_playback d active event = do
    receipt ← or_refuse event.playback "playback transition requires an adapter receipt"
    refuse_if
        (is_empty d.pending_say_operation_id
          || not (str_eq receipt.operation_id d.pending_say_operation_id))
        "playback receipt does not match the active say"
    let said = record d { pending_say_operation_id = "" }
    if has_work said
        then quiet said
        else if equal Outcome-discrete receipt.outcome completed
            && is_listen (target_for active source_playback receipt.outcome).phase
        then listen_again said active.listen
        else route_outcome lib said active source_playback receipt.outcome event.id ""
            event.received_at

  -- The case of a retry_exhausted event.
  unfoldable pub reduce_exhausted : StateData → Route → NormalizedEvent → Step
  reduce_exhausted d active event = do
    refuse_if (is_empty active.retry_group)
        "retry exhaustion received outside a frozen retry-group route"
    g ←
        or_refuse (find_retry_group d.definition active.retry_group)
          "active retry group is missing from the frozen definition"
    follow lib d active g.exhausted event.id "retry_exhausted" event.received_at

  abbrev pub reduce_kind : StateData → Route → NormalizedEvent → String → EventKind → Step
  reduce_kind d active event id speech_started = do
    require_open_window d event.input_window_id
    quiet d
  reduce_kind d active event id input_final = reduce_final_input d active event
  reduce_kind d active event id initial_silence =
      reduce_window_end d active event no_input "no_input"
  reduce_kind d active event id input_error = reduce_input_error d active event
  reduce_kind d active event id utterance_limit_reached =
      reduce_window_end d active event utterance_limit "no_match"
  reduce_kind d active event id match_completed = reduce_match d active event id
  reduce_kind d active event id decision_completed = reduce_decision d active event id
  reduce_kind d active event id submitted_effect = reduce_submission lib d event
  reduce_kind d active event id receipt_of_effect = reduce_effect_receipt lib d active event
  reduce_kind d active event id session_cancelled =
      route_outcome lib d active source_control cancelled event.id "cancelled" event.received_at
  reduce_kind d active event id session_disconnected =
      route_outcome lib d active source_control disconnected event.id "disconnected"
        event.received_at
  reduce_kind d active event id playback_started = quiet d
  reduce_kind d active event id playback_completed = reduce_playback d active event
  reduce_kind d active event id playback_cleared = reduce_playback d active event
  reduce_kind d active event id playback_failed = reduce_playback d active event
  reduce_kind d active event id retry_exhausted = reduce_exhausted d active event
  reduce_kind d active event id handoff_accepted = quiet d
  reduce_kind d active event id _ = failed (message "event kind is not a reducer input")

  -- reduceNormalized
  unfoldable pub reduce_normalized : StateData → NormalizedEvent → String → Step
  reduce_normalized d event id = do
    active ←
        or_refuse (find_route d.definition d.route_id)
          "active route is missing from the frozen definition"
    reduce_kind d active event id event.kind
