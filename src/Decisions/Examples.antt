-- ===== src/Decisions/Examples.antt =====
-- agents/decisions/reducer.go: a session from its admission to the release of the call, and the
-- promises at this session.
use mathlib.Core.Path.{subst}
use gobeyond.Common.{
  ℕ, ◌≢◌, String, Bool, Bool-cases, str_eq, inl, inr, if◌then◌else◌, ◌≡◌, refl, true, false, some,
  none, List, [], ◌∷◌, map, arith,
}
use gobeyond.Contract.Types.{
  ActStep, EffectRequest, NormalizedEvent, ResultSource-discrete, decide_phase,
  release_call_ownership, GraphOwnership, Route, Graph, Definition, OwnershipState, EffectReceipt,
  effect_confirmed, source_decision, unavailable,
}
use gobeyond.Contract.Failure.{Failure, too_deep, ok, failed}
use gobeyond.Contract.Releases.{IsReleaseOf, check_ownership_transition-IsReleaseOf}
use gobeyond.Common.Maps.{lookup}
use gobeyond.Decisions.State.{
  Effect, EffectKind, effect_enter_route, effect_listen, effect_say, effect_run_matcher,
  effect_dispatch_intent, effect_await_receipt, effect_release_ownership, Event, StateData,
}
use gobeyond.Decisions.Begin.{initial, start}
use gobeyond.Contract.Ownership.{is_released, check_ownership_transition}
use gobeyond.Decisions.Receipts.{pending_ownership, released_by}
use gobeyond.Decisions.Lookup.{
  target_for, target_in, pending_action, find_route, find_route_in, find_action_in,
}
use gobeyond.Decisions.Steps.{Step}
use gobeyond.Decisions.Runs.{run}
use gobeyond.Decisions.Reduce.{event_identity, fingerprint, reduce, is_over}
use gobeyond.Decisions.Dispatch.{HasDistinctActions, AreDistinct}
use gobeyond.Decisions.Target.{follow_target}
use gobeyond.Decisions.Bounds.{IsBounded}
use gobeyond.Decisions.Sound.{AreIntentsValid}
use gobeyond.Decisions.Ends.{follow_target-ends}
use gobeyond.Decisions.Promises.{
  run-IsBounded, reduce-AreIntentsValid, reduce-reduce, reduce-IsReleaseOf, reduce_released,
  reduce_when_over,
}
use gobeyond.Decisions.Sample.{
  tools, definition, call_action, menu, admission, refresh, input, matched, request, submission,
  receipt, review, policy, state_of, effects_of,
}

abbrev started : StateData
started =
    state_of (initial tools definition admission policy)
      (start tools review definition admission policy)

abbrev after : List Event → StateData
after events = run tools started events

abbrev next : List Event → Event → StateData
next events e = state_of (after events) (reduce tools (after events) e)

abbrev kinds : List Effect → List EffectKind
kinds es = map (λ (e : Effect). e.kind) es

abbrev is_accepted : Step → Bool
is_accepted (ok r) = true
is_accepted (failed e) = false

accepted : (d : StateData) (r : Step) → is_accepted r ≡ true → r ≡ ok (state_of d r, effects_of r)
accepted d (ok r) h = refl
accepted d (failed e) h = cc

-- The effects along the session, and what the promises ask of it.
session_lem :
    (kinds (effects_of (start tools review definition admission policy))
      ≡ effect_enter_route ∷ effect_listen ∷ effect_say ∷ [])
    × (kinds (effects_of (reduce tools (after (refresh ∷ [])) input)) ≡ effect_run_matcher ∷ [])
    × (kinds (effects_of (reduce tools (after (refresh ∷ input ∷ [])) matched))
        ≡ effect_dispatch_intent ∷ [])
    × (kinds (effects_of (reduce tools (after (refresh ∷ input ∷ matched ∷ [])) submission))
        ≡ effect_await_receipt ∷ [])
    × (kinds
          (effects_of (reduce tools (after (refresh ∷ input ∷ matched ∷ submission ∷ [])) receipt))
        ≡ effect_release_ownership ∷ [])
    × (is_accepted (start tools review definition admission policy) ≡ true)
    × (is_accepted (reduce tools (after (refresh ∷ input ∷ [])) matched) ≡ true)
    × (is_accepted (reduce tools (after (refresh ∷ input ∷ matched ∷ submission ∷ [])) receipt)
        ≡ true)
    × (is_accepted
          (reduce tools (after (refresh ∷ input ∷ matched ∷ submission ∷ receipt ∷ [])) receipt)
        ≡ true)
    × (is_released (after (refresh ∷ input ∷ matched ∷ submission ∷ [])).ownership.state ≡ false)
    × (is_released (next (refresh ∷ input ∷ matched ∷ submission ∷ []) receipt).ownership.state
        ≡ true)
    × (is_released (after (refresh ∷ input ∷ matched ∷ submission ∷ receipt ∷ [])).ownership.state
        ≡ true)
    × (is_over tools (after (refresh ∷ input ∷ matched ∷ submission ∷ receipt ∷ [])) ≡ true)
unfolding gobeyond.Contract.Checks.check_reference gobeyond.Contract.Checks.check_match
    gobeyond.Contract.Events.check_final_input gobeyond.Contract.Events.check_event
    gobeyond.Contract.Failure.◌>>=◌ gobeyond.Contract.Fields.is_identifier
    gobeyond.Contract.Fields.is_route_id gobeyond.Contract.Fields.is_sha256
    gobeyond.Contract.Fields.is_locale gobeyond.Contract.Fields.are_identifiers
    gobeyond.Contract.Fields.contains_string gobeyond.Contract.Ownership.check_ownership
    gobeyond.Contract.Ownership.releases_ownership gobeyond.Contract.Ownership.check_release
    gobeyond.Contract.Ownership.check_ownership_transition gobeyond.Contract.Scoped.canonical_sha256
    gobeyond.Contract.Scoped.canonical_id gobeyond.Contract.Scoped.check_identity
    gobeyond.Contract.Scoped.check_receipt gobeyond.Contract.Scoped.check_request
    gobeyond.Contract.Scoped.check_snapshot gobeyond.Contract.Scoped.check_match_against
    gobeyond.Contract.Scoped.check_request_against gobeyond.Contract.Types.Outcome-discrete
    gobeyond.Contract.Types.ResultSource-discrete gobeyond.Contract.Types.InputModality-discrete
    gobeyond.Contract.Types.ToolKind-discrete gobeyond.Contract.Types.EffectIdentity-discrete
    gobeyond.Contract.Types.EffectRequest-discrete gobeyond.Decisions.Begin.initial
    gobeyond.Decisions.Begin.start gobeyond.Decisions.Follow.enter_effects
    gobeyond.Decisions.Follow.request_for gobeyond.Decisions.Follow.dispatch_candidate
    gobeyond.Decisions.Guards.require_open_window gobeyond.Decisions.Guards.check_active_entry
    gobeyond.Decisions.Guards.check_event_shape gobeyond.Decisions.Guards.check_bound_snapshot
    gobeyond.Decisions.Guards.check_dispatch_action gobeyond.Decisions.Inputs.reduce_final_input
    gobeyond.Decisions.Inputs.reduce_match gobeyond.Decisions.Inputs.reduce_normalized
    gobeyond.Decisions.Lookup.find_route gobeyond.Decisions.Lookup.find_action
    gobeyond.Decisions.Lookup.target_for gobeyond.Decisions.Lookup.budget_has_room
    gobeyond.Decisions.Lookup.pending_action
    gobeyond.Decisions.Lookup.pending_action_releases_ownership
    gobeyond.Decisions.Lookup.contains_modality gobeyond.Decisions.Lookup.first_characters
    gobeyond.Decisions.Lookup.window_id gobeyond.Decisions.Receipts.ownership_at_submission
    gobeyond.Decisions.Receipts.reduce_submission gobeyond.Decisions.Receipts.ownership_at_receipt
    gobeyond.Decisions.Receipts.settle_receipt gobeyond.Decisions.Receipts.reduce_effect_receipt
    gobeyond.Decisions.Reduce.reduce_snapshot gobeyond.Decisions.Reduce.fingerprint
    gobeyond.Decisions.Reduce.reduce_variant gobeyond.Decisions.Reduce.reduce_new
    gobeyond.Decisions.Reduce.reduce gobeyond.Decisions.Runs.run
    gobeyond.Decisions.Steps.match_effects gobeyond.Decisions.Target.route_outcome_with
    gobeyond.Decisions.Target.follow_phase gobeyond.Decisions.Target.follow_target_with
    gobeyond.Decisions.Target.follow_target gobeyond.Decisions.Target.route_outcome
    gobeyond.Common.String-discrete gobeyond.Common.Bool-cases native.Mathlib.Decide.ℕ_discrete
    gobeyond.Common.Maps.lookup gobeyond.Common.Maps.insert gobeyond.Common.Maps.delete
session_lem = (refl, refl, refl, refl, refl, refl, refl, refl, refl, refl, refl, refl, refl)

starts_lem :
    start tools review definition admission policy
    ≡ ok (started, effects_of (start tools review definition admission policy))
starts_lem =
    accepted (initial tools definition admission policy)
      (start tools review definition admission policy) session_lem.5

menu_found : (id : String) (route : Route) → find_route definition id ≡ some route → menu ≡ route
unfolding find_route find_route_in
menu_found id route found = elim (Bool-cases (str_eq "/menu" id)) [
  | inl same ↦ ground arith
  | inr other ↦ absurd (ground arith)
]

distinct_lem : HasDistinctActions definition
unfolding find_route find_route_in find_action_in
distinct_lem id route found =
    subst (λ (r : Route). AreDistinct r.act) (menu_found id route found) (refl, tt)

matched_lem :
    reduce tools (after (refresh ∷ input ∷ [])) matched
    ≡ ok (
      next (refresh ∷ input ∷ []) matched,
      effects_of (reduce tools (after (refresh ∷ input ∷ [])) matched),
    )
matched_lem =
    accepted (after (refresh ∷ input ∷ [])) (reduce tools (after (refresh ∷ input ∷ [])) matched)
      session_lem.6

abbrev before : List Event
before = refresh ∷ input ∷ matched ∷ submission ∷ []

abbrev all_events : List Event
all_events = refresh ∷ input ∷ matched ∷ submission ∷ receipt ∷ []

receipt_lem :
    reduce tools (after before) receipt
    ≡ ok (next before receipt, effects_of (reduce tools (after before) receipt))
receipt_lem = accepted (after before) (reduce tools (after before) receipt) session_lem.7

replay_lem :
    reduce tools (after all_events) receipt
    ≡ ok (next all_events receipt, effects_of (reduce tools (after all_events) receipt))
replay_lem = accepted (after all_events) (reduce tools (after all_events) receipt) session_lem.8

run-IsBounded_example : IsBounded (after all_events)
run-IsBounded_example =
    run-IsBounded tools review definition admission policy distinct_lem starts_lem all_events

reduce-AreIntentsValid_example :
    AreIntentsValid tools.library
      (event_identity matched).4
      (next (refresh ∷ input ∷ []) matched)
      (effects_of (reduce tools (after (refresh ∷ input ∷ [])) matched))
reduce-AreIntentsValid_example =
    reduce-AreIntentsValid tools review definition admission policy distinct_lem starts_lem
      (refresh ∷ input ∷ []) matched matched_lem

reduce-reduce_example : reduce tools (next before receipt) receipt ≡ ok (next before receipt, [])
reduce-reduce_example =
    reduce-reduce tools review definition admission policy distinct_lem starts_lem before receipt
      receipt_lem

reduce-IsReleaseOf_example :
    (n : NormalizedEvent) × (r : EffectReceipt) × (q : EffectRequest) × (action : ActStep)
    × (receipt.normalized ≡ some n)
    × (n.effect ≡ some r)
    × ((after before).pending_request ≡ some q)
    × (pending_action (after before) ≡ some action)
    × (r.identity ≡ q.identity)
    × IsReleaseOf tools.library (after before).ownership (next before receipt).ownership r q action
reduce-IsReleaseOf_example =
    reduce-IsReleaseOf tools review definition admission policy distinct_lem starts_lem before
      receipt receipt_lem session_lem.9 session_lem.10

reduce_released_example : (next all_events receipt).ownership ≡ (after all_events).ownership
reduce_released_example =
    reduce_released tools review definition admission policy distinct_lem starts_lem all_events
      receipt replay_lem session_lem.11

reduce_when_over_example :
    (next all_events receipt ≡ after all_events)
    × (effects_of (reduce tools (after all_events) receipt) ≡ [])
    × (lookup (event_identity receipt).0 (after all_events).processed_events
        ≡ some (fingerprint tools receipt))
reduce_when_over_example =
    reduce_when_over tools (after all_events) receipt session_lem.12 replay_lem

leaves_lem : (target_for menu source_decision unavailable).phase ≢ some decide_phase
unfolding target_for target_in ResultSource-discrete
leaves_lem e = cc

follow_target-ends_example :
    follow_target tools.library 2 started menu
      (target_for menu source_decision unavailable)
      "input"
      ""
      10
    ≢ failed too_deep
follow_target-ends_example =
    follow_target-ends tools.library 10 0 started menu (target_for menu source_decision unavailable)
      "input" "" leaves_lem

abbrev confirmation : EffectReceipt
confirmation = record {
  identity = request.identity;
  status = effect_confirmed;
  receipt_id = "dialed";
  provider_request_id = "carrier";
  target_opaque_id = "ada";
  failure_code = "";
  observed_at = 12;
}

transition_lem :
    (check_ownership_transition tools.library
        (pending_ownership request)
        (released_by confirmation)
        (some confirmation)
        (some request)
        (some call_action)
      ≡ ok tt)
    × (check_ownership_transition tools.library
          (released_by confirmation)
          (released_by confirmation)
          none
          none
          none
        ≡ ok tt)
unfolding check_ownership_transition gobeyond.Contract.Failure.◌>>=◌
    gobeyond.Contract.Fields.is_identifier gobeyond.Contract.Fields.is_sha256
    gobeyond.Contract.Ownership.check_ownership gobeyond.Contract.Ownership.releases_ownership
    gobeyond.Contract.Ownership.check_release gobeyond.Contract.Scoped.canonical_id
    gobeyond.Contract.Scoped.check_identity gobeyond.Contract.Scoped.check_receipt
    gobeyond.Contract.Scoped.check_request gobeyond.Contract.Types.ToolKind-discrete
    gobeyond.Contract.Types.EffectIdentity-discrete gobeyond.Common.String-discrete
    gobeyond.Common.Bool-cases native.Mathlib.Decide.ℕ_discrete
    gobeyond.Contract.Types.GraphOwnership-discrete
transition_lem = (refl, refl)

check_ownership_transition-IsReleaseOf_example :
    (a : ActStep) × (q : EffectRequest) × (r : EffectReceipt) × (some call_action ≡ some a)
    × (some request ≡ some q)
    × (some confirmation ≡ some r)
    × IsReleaseOf tools.library (pending_ownership request) (released_by confirmation) r q a
check_ownership_transition-IsReleaseOf_example =
    check_ownership_transition-IsReleaseOf tools.library (pending_ownership request)
      (released_by confirmation) (some confirmation) (some request) (some call_action)
      transition_lem.0 refl refl
