-- ===== src/Decisions/Reduce.antt =====
-- agents/decisions/reducer.go: Start and Reduce, and the events that are not normalized ones.
use gobeyond.Common.{
  ℕ, String, Bool, true, false, not, ◌&&◌, ◌||◌, none, some, [], ◌∷◌, ◌==◌, str_eq, is_some,
  if◌then◌else◌,
}
use gobeyond.Common.Maps.{lookup, insert}
use gobeyond.Contract.Types.{
  source_decision, source_control, Outcome, no_match, ambiguous, refusal, error, unavailable,
  completed, cancelled, end_graph, Target, Route,
}
use gobeyond.Contract.Failure.{
  stale_event, message, ok, failed, ◌>>=◌, ◌>>◌, Check, refuse_if, wrap, or_refuse,
}
use gobeyond.Contract.Fields.{is_identifier}
use gobeyond.Contract.Scoped.{is_candidate}
use gobeyond.Contract.Events.{check_event}
use gobeyond.Decisions.State.{
  Phase, full_agent_fallback, stopped, effect_run_matcher, SnapshotRefresh, ControlCommand,
  control_repeat, control_help, control_cancel, control_other, ControlResult, FullAgentResult,
  Event, StateData, Tools,
}
use gobeyond.Decisions.Lookup.{find_route, retry_reason}
use gobeyond.Decisions.Guards.{
  check_active_entry, check_event_shape, check_bound_snapshot, check_control_snapshot,
}
use gobeyond.Decisions.Steps.{Step, effect_at, enter_terminal}
use gobeyond.Decisions.Target.{follow, route_outcome}
use gobeyond.Decisions.Inputs.{quiet, reduce_normalized}

-- A nil route, as the zero value of Go.
abbrev pub no_target : Target
no_target = record { route = ""; phase = none; terminal = none }

abbrev pub no_route : Route
no_route = record {
  id = "";
  budget_overrides = λ _. none;
  say = none;
  listen = none;
  matcher = none;
  decide = none;
  act = [];
  next = [];
  fallback = no_target;
  retry_group = "";
}

-- `active, _ := findRoute(...)`
abbrev pub active_route : StateData → Route
active_route d = elim (find_route d.definition d.route_id) [ none ↦ no_route | some route ↦ route ]

-- The work that pins a candidate snapshot.
abbrev pub is_pinned : StateData → Bool
is_pinned d =
    d.pending_decision
    || d.pending_fallback
    || is_some d.pending_request
    || d.pending_match && is_some d.candidate_snapshot
    || is_some d.pending_input && not d.pending_match

abbrev is_falling_back : Phase → Bool
is_falling_back full_agent_fallback = true
is_falling_back _ = false

abbrev pub is_input_of : StateData → String → Bool
is_input_of d id = elim d.pending_input [ none ↦ false | some input ↦ str_eq id input.id ]

abbrev pub is_stopped : Phase → Bool
is_stopped stopped = true
is_stopped _ = false

-- id, generation, tenant, session and time of the event that is present.
abbrev pub event_identity : Event → String × ℕ × String × String × ℕ
event_identity e = elim e.normalized [
  | some n ↦ (n.id, n.generation, n.tenant_id, n.session_id, n.received_at)
  | none ↦ elim e.snapshot [
    | some s ↦ (s.id, s.generation, s.tenant_id, s.session_id, s.received_at)
    | none ↦ elim e.control [
      | some c ↦ (c.id, c.generation, c.tenant_id, c.session_id, c.received_at)
      | none ↦ elim e.fallback [
        | some f ↦ (f.id, f.generation, f.tenant_id, f.session_id, f.received_at)
        | none ↦ ("", 0, "", "", 0)
      ]
    ]
  ]
]

module _ (tools : Tools) where
  -- reduceSnapshotRefresh
  unfoldable pub reduce_snapshot : StateData → SnapshotRefresh → Step
  reduce_snapshot d refresh = do
    active ←
        or_refuse (find_route d.definition d.route_id)
          "candidate snapshot refresh has no active frozen matcher"
    matcher ← or_refuse active.matcher "candidate snapshot refresh has no active frozen matcher"
    refuse_if (is_pinned d)
        "candidate snapshot is pinned while matcher, decision, or effect work is pending"
    refuse_if (not (is_identifier refresh.id) || refresh.received_at == 0)
        "candidate snapshot refresh requires stable event and receive-time fields"
    refuse_if
        (not (str_eq refresh.bound.binding_id matcher.binding_id)
          || not (str_eq refresh.bound.route_id d.route_id)
          || not (str_eq refresh.bound.route_entry_id d.route_entry_id)
          || not (str_eq refresh.route_id d.route_id)
          || not (str_eq refresh.route_entry_id d.route_entry_id))
        "candidate snapshot is not bound to the trusted active binding and route entry"
    check_bound_snapshot tools.library d refresh.bound refresh.received_at
    let next = record d { candidate_snapshot = some refresh.bound }
    if d.pending_match
        then (elim d.pending_input [
          | none ↦ quiet next
          | some input ↦ ok (
            next,
            record (effect_at d effect_run_matcher) {
              binding_id = matcher.binding_id;
              input_id = input.id;
              reason = refresh.bound.snapshot.sha256;
            }
                ∷ [],
          )
        ])
        else quiet next

  abbrev pub run_command : StateData → Route → ControlResult → ControlCommand → Step
  run_command d active result control_repeat =
      follow tools.library d active (record no_target { route = d.definition.graph.entry })
        result.id "repeat" result.received_at
  run_command d active result control_help =
      follow tools.library d active (record no_target { route = d.definition.graph.fallback })
        result.id "help" result.received_at
  run_command d active result control_cancel =
      route_outcome tools.library d active source_control cancelled result.id "cancelled"
        result.received_at
  run_command d active result control_other =
      failed (message "unknown deterministic control command")

  -- reduceControl
  unfoldable pub reduce_control : StateData → ControlResult → Step
  reduce_control d result = do
    refuse_if (not d.pending_match || not (is_input_of d result.input_id))
        "control result does not match the active accepted input"
    check_control_snapshot tools.library d result
    run_command (record d { pending_match = false }) (active_route d) result result.command

  abbrev pub run_outcome : StateData → Route → FullAgentResult → Outcome → Step
  run_outcome d active result completed =
      ok (enter_terminal d (some end_graph) "full_agent_completed")
  run_outcome d active result no_match =
      route_outcome tools.library d active source_decision no_match result.id
        (retry_reason no_match) result.received_at
  run_outcome d active result ambiguous =
      route_outcome tools.library d active source_decision ambiguous result.id
        (retry_reason ambiguous) result.received_at
  run_outcome d active result refusal =
      route_outcome tools.library d active source_decision refusal result.id (retry_reason refusal)
        result.received_at
  run_outcome d active result error =
      route_outcome tools.library d active source_decision error result.id (retry_reason error)
        result.received_at
  run_outcome d active result unavailable =
      route_outcome tools.library d active source_decision unavailable result.id
        (retry_reason unavailable) result.received_at
  run_outcome d active result cancelled =
      route_outcome tools.library d active source_control cancelled result.id "cancelled"
        result.received_at
  run_outcome d active result _ =
      failed (message "full-agent outcome is not supported by the reducer")

  -- reduceFallback
  unfoldable pub reduce_fallback : StateData → FullAgentResult → Step
  reduce_fallback d result = do
    refuse_if
        (not d.pending_fallback
          || not (is_falling_back d.phase)
          || not (is_input_of d result.input_id))
        "full-agent result does not match the active bounded fallback"
    refuse_if (not (is_identifier result.id) || result.received_at == 0)
        "full-agent result requires stable event and receive-time fields"
    refuse_if (is_candidate tools.library result.outcome)
        "full-agent result cannot nominate a call target"
    run_outcome (record d { pending_fallback = false }) (active_route d) result result.outcome

  -- fingerprint
  unfoldable pub fingerprint : Event → String
  fingerprint e = tools.library.sha256_hex (tools.event_json e)

  abbrev pub check_entry : StateData → Event → Check
  check_entry d e = elim e.normalized [
    | some n ↦ (do
      wrap "normalized decision event" (check_event tools.library n n.received_at)
      check_active_entry d n.route_id n.route_entry_id)
    | none ↦ elim e.snapshot [
      | some s ↦ check_active_entry d s.route_id s.route_entry_id
      | none ↦ elim e.control [
        | some c ↦ check_active_entry d c.route_id c.route_entry_id
        | none ↦ elim e.fallback [
          | some f ↦ check_active_entry d f.route_id f.route_entry_id
          | none ↦ ok tt
        ]
      ]
    ]
  ]

  -- The switch at the end of Reduce; a shapeless event has been refused before.
  unfoldable pub reduce_variant : StateData → Event → Step
  reduce_variant d e = elim e.snapshot [
    | some s ↦ reduce_snapshot d s
    | none ↦ elim e.control [
      | some c ↦ reduce_control d c
      | none ↦ elim e.fallback [
        | some f ↦ reduce_fallback d f
        | none ↦ elim e.normalized [
          | some n ↦ reduce_normalized tools.library d n e.input_id
          | none ↦ failed (message "invalid memory address or nil pointer dereference")
        ]
      ]
    ]
  ]

  abbrev pub is_over : StateData → Bool
  is_over d = d.graph_ended || d.session_ended || is_stopped d.phase

  -- Reduce, for an event that has not been processed.
  unfoldable pub reduce_new : StateData → Event → Step
  reduce_new d e = do
    refuse_if (is_over d) "decision session is terminal"
    check_entry d e
    reduce_variant
        (record d {
          processed_events = insert (event_identity e).0 (fingerprint e) d.processed_events;
        })
        e

  abbrev stale_if : Bool → Check
  stale_if true = failed stale_event
  stale_if false = ok tt

  -- Reduce; an error leaves the caller with the state that it had.
  unfoldable pub reduce : StateData → Event → Step
  reduce d e = do
    check_event_shape e
    stale_if (not ((event_identity e).1 == d.scope.generation))
    refuse_if
        (not (str_eq (event_identity e).2 d.scope.tenant_id)
          || not (str_eq (event_identity e).3 d.scope.session_id))
        "decision event scope does not match the active session"
    elim (lookup (event_identity e).0 d.processed_events) [
      | some old ↦
          if str_eq old (fingerprint e)
          then quiet d
          else failed (message "decision event ID was replayed with different content")
      | none ↦ reduce_new d e
    ]
