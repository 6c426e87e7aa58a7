-- ===== src/Decisions/Guards.antt =====
-- agents/decisions/reducer.go: the guards that bind an event, a snapshot or an intent to the active
-- route entry.
use gobeyond.Common.{
  ℕ, ◌+◌, String, Bool, true, false, not, ◌&&◌, ◌||◌, Option, none, some, ◌==◌, str_eq, is_some,
  equal,
}
use gobeyond.Contract.Types.{
  EventKind, match_completed, decision_completed, EffectRequest, EffectRequest-discrete,
  NormalizedEvent,
}
use gobeyond.Contract.Failure.{
  invalid_state, stale_event, ok, failed, ◌>>=◌, ◌>>◌, Check, refuse_if, or_refuse,
}
use gobeyond.Contract.Fields.{is_identifier}
use gobeyond.Contract.Checks.{Library, is_empty}
use gobeyond.Contract.Scoped.{check_snapshot, check_request_against}
use gobeyond.Decisions.State.{
  Effect, EffectKind, effect_dispatch_intent, BoundCandidateSnapshot, ControlResult, Event,
  StateData,
}
use gobeyond.Decisions.Lookup.{find_route, find_action}

-- requireOpenWindow
unfoldable pub require_open_window : StateData → String → Check
require_open_window d id =
    refuse_if (not d.input_window_open || is_empty id || not (str_eq id d.input_window_id))
      "input event does not match the open route-entry window"

abbrev stale_if : Bool → Check
stale_if true = failed stale_event
stale_if false = ok tt

-- validateActiveEntry
unfoldable pub check_active_entry : StateData → String → String → Check
check_active_entry d route_id entry_id = stale_if (
    not (str_eq route_id d.route_id) || is_empty entry_id || not (str_eq entry_id d.route_entry_id))

abbrev pub one_if {ℓ} : {A : Type ℓ} → Option A → ℕ
one_if none = 0
one_if (some _) = 1

abbrev needs_input : EventKind → Bool
needs_input match_completed = true
needs_input decision_completed = true
needs_input _ = false

abbrev check_correlation : Option NormalizedEvent → String → Check
check_correlation none id = ok tt
check_correlation (some e) id = do
  refuse_if (needs_input e.kind && not (is_identifier id))
      "match and decision results require a stable accepted-input ID"
  refuse_if (not (needs_input e.kind) && not (is_empty id))
      "this normalized event cannot carry input correlation"

-- validateEventShape
unfoldable pub check_event_shape : Event → Check
check_event_shape e = do
  refuse_if
      (not
        (one_if e.normalized + (one_if e.snapshot + (one_if e.control + one_if e.fallback)) == 1))
      "decision event must contain exactly one normalized event, snapshot refresh, or control result"
  refuse_if
      (is_some e.normalized && (is_some e.snapshot || is_some e.control || is_some e.fallback))
      "decision event union contains multiple variants"
  refuse_if
      (is_some e.snapshot && (not (is_empty e.input_id) || is_some e.control || is_some e.fallback))
      "snapshot refresh cannot carry input correlation or another event variant"
  refuse_if
      (is_some e.control
        && (not (is_empty e.input_id) || is_some e.normalized || is_some e.fallback))
      "control result cannot carry normalized input or another event variant"
  refuse_if
      (is_some e.fallback
        && (not (is_empty e.input_id)
            || is_some e.normalized
            || is_some e.snapshot
            || is_some e.control))
      "full-agent result cannot carry normalized input or another event variant"
  check_correlation e.normalized e.input_id

module _ (lib : Library) where
  -- validateBoundSnapshot
  unfoldable pub check_bound_snapshot : StateData → BoundCandidateSnapshot → ℕ → Check
  check_bound_snapshot d bound now = do
    active ←
        or_refuse (find_route d.definition d.route_id)
          "candidate snapshot has no frozen active matcher"
    matcher ← or_refuse active.matcher "candidate snapshot has no frozen active matcher"
    refuse_if
        (not (str_eq bound.binding_id matcher.binding_id)
          || not (str_eq bound.route_id d.route_id)
          || not (str_eq bound.route_entry_id d.route_entry_id))
        "candidate snapshot is not bound to the trusted active binding and route entry"
    check_snapshot lib bound.snapshot d.scope.tenant_id d.scope.session_id d.scope.generation now

  -- validateControlSnapshot
  unfoldable pub check_control_snapshot : StateData → ControlResult → Check
  check_control_snapshot d result = do
    refuse_if (not (is_identifier result.id) || result.received_at == 0)
        "control result requires stable event and receive-time fields"
    active ←
        or_refuse (find_route d.definition d.route_id)
          "control result has no active matcher snapshot"
    matcher ← or_refuse active.matcher "control result has no active matcher snapshot"
    bound ← or_refuse d.candidate_snapshot "control result has no active matcher snapshot"
    refuse_if
        (not (str_eq result.binding_id matcher.binding_id)
          || not (str_eq result.binding_id bound.binding_id)
          || not (str_eq result.snapshot_sha256 bound.snapshot.sha256)
          || not (str_eq bound.route_entry_id d.route_entry_id))
        "control result does not match the trusted active binding and route-entry snapshot"
    check_snapshot lib bound.snapshot d.scope.tenant_id d.scope.session_id d.scope.generation
        result.received_at

  -- reflect.DeepEqual of a request and the pending one, which may be nil.
  abbrev is_request : EffectRequest → Option EffectRequest → Bool
  is_request request none = false
  is_request request (some pending) = equal EffectRequest-discrete request pending

  -- validateDispatchAction
  unfoldable pub check_dispatch_action : StateData → EffectRequest → ℕ → Check
  check_dispatch_action d request now = do
    refuse_if
        (not (is_request request d.pending_request)
          || not (str_eq d.pending_request_route d.route_id)
          || not (str_eq d.pending_request_entry d.route_entry_id))
        "effect does not match the trusted active route-entry intent"
    active ←
        or_refuse (find_route d.definition d.route_id)
          "active route is missing from the frozen definition"
    action ←
        or_refuse (find_action active d.pending_action_id)
          "pending action is missing from the frozen active route"
    bound ← or_refuse d.candidate_snapshot "effect has no trusted active candidate snapshot"
    check_bound_snapshot d bound now
    check_request_against lib request action (some bound.snapshot) d.scope.tenant_id
        d.scope.session_id d.scope.generation now

  abbrev same_request : Option EffectRequest → EffectRequest → Bool
  same_request none pending = false
  same_request (some request) pending = equal EffectRequest-discrete request pending

  abbrev is_dispatch : EffectKind → Bool
  is_dispatch effect_dispatch_intent = true
  is_dispatch _ = false

  abbrev invalid_if : Bool → Check
  invalid_if true = failed invalid_state
  invalid_if false = ok tt

  -- State.ValidateDispatchIntent
  unfoldable pub check_dispatch_intent : StateData → Effect → ℕ → Check
  check_dispatch_intent d effect now = do
    invalid_if (not (is_dispatch effect.kind))
    pending ← or_refuse d.pending_request "dispatch intent is not pending in the reducer state"
    bound ← or_refuse d.candidate_snapshot "dispatch intent is not pending in the reducer state"
    input ← or_refuse d.pending_input "dispatch intent is not pending in the reducer state"
    refuse_if
        (not (str_eq effect.route_id d.route_id)
          || not (str_eq effect.route_entry_id d.route_entry_id)
          || not (str_eq effect.input_id input.id)
          || not (str_eq effect.action_id d.pending_action_id)
          || not (same_request effect.request pending))
        "dispatch intent does not match the trusted active reducer state"
    active ←
        or_refuse (find_route d.definition d.route_id)
          "active route is missing from the frozen definition"
    action ←
        or_refuse (find_action active d.pending_action_id)
          "pending action is missing from the frozen active route"
    check_bound_snapshot d bound now
    check_request_against lib pending action (some bound.snapshot) d.scope.tenant_id
        d.scope.session_id d.scope.generation now
