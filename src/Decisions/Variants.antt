-- ===== src/Decisions/Variants.antt =====
-- agents/decisions/reducer.go: Reduce keeps the state sound, for every variant of an event.
use gobeyond.Common.{ℕ, ◌≡◌, refl, ◌⊎◌, inl, inr, String, false, some, List, if_intro}
use gobeyond.Contract.Types.{
  source_control, source_decision, Outcome, final_input, no_input, utterance_limit, candidate,
  no_match, ambiguous, refusal, error, unavailable, accepted, confirmed, failed as outcome_failed,
  unknown, completed, cleared, cancelled, disconnected, exhausted, end_graph, Route, EventKind,
  session_admitted, route_entered, speech_started, input_final, input_error, initial_silence,
  utterance_limit_reached, retry_exhausted, playback_started, playback_completed, playback_cleared,
  playback_failed, match_completed, decision_completed, submitted_effect, receipt_of_effect,
  handoff_accepted, session_disconnected, session_cancelled, NormalizedEvent, GraphOwnership,
}
use gobeyond.Contract.Failure.{Result, Holds, Holds->>=, Holds-map, Option_intro, or_refuse-eq-ok}
use gobeyond.Contract.Checks.{Library}
use gobeyond.Contract.Ownership.{is_released}
use gobeyond.Decisions.State.{
  Effect, SnapshotRefresh, ControlCommand, control_repeat, control_help, control_cancel,
  control_other, ControlResult, FullAgentResult, Event, StateData, Tools,
}
use gobeyond.Decisions.Lookup.{find_route, usage_of, retry_reason}
use gobeyond.Decisions.Target.{call_depth}
use gobeyond.Decisions.Inputs.{quiet, reduce_kind, reduce_normalized}
use gobeyond.Decisions.Reduce.{
  active_route, event_identity, reduce_snapshot, run_command, reduce_control, run_outcome,
  reduce_fallback,
}
use gobeyond.Decisions.Bounds.{IsBounded}
use gobeyond.Decisions.Sound.{IsKept, IsSound, enter_terminal-IsSound}
use gobeyond.Decisions.Dispatch.{HasDistinctActions}
use gobeyond.Decisions.Following.{follow_target-IsSound, route_outcome-IsSound}
use gobeyond.Decisions.Handlers.{
  reduce_final_input-IsSound, reduce_window_end-IsSound, reduce_input_error-IsSound,
  reduce_match-IsSound, reduce_exhausted-IsSound, reduce_decision-IsSound, reduce_playback-IsSound,
}
use gobeyond.Decisions.Moves.{
  IsAllowed, IsReleaseBy, IsMove, IsSoundMove, reduce_submission-IsSoundMove,
  reduce_effect_receipt-IsSoundMove,
}

module _ (lib : Library) (event : NormalizedEvent) (d : StateData)
    (distinct : HasDistinctActions d.definition) (bounded : IsBounded d) where
  still :
      (r : Result (StateData × List Effect))
      → Holds (IsSound lib event.received_at d) r
      → Holds (IsSoundMove lib event d) r
  still r h =
      Holds-map (IsSound lib event.received_at d) (IsSoundMove lib event d) r
        (λ a s. (d.ownership, inl refl, s)) h

  module _ (active : Route) (found : find_route d.definition d.route_id ≡ some active) where
    kept : IsKept d d
    kept = (bounded, (active, found), (refl, refl, refl, refl))

    reduce_kind-IsSoundMove :
        (id : String) (kind : EventKind)
        → Holds (IsSoundMove lib event d) (reduce_kind lib d active event id kind)
    reduce_kind-IsSoundMove id speech_started =
        still _ (Holds->>= (IsSound lib event.received_at d) _ _ (λ _ _. (kept, tt)))
    reduce_kind-IsSoundMove id input_final =
        still _ (reduce_final_input-IsSound lib d distinct d active event found kept)
    reduce_kind-IsSoundMove id initial_silence =
        still _
          (reduce_window_end-IsSound lib d distinct d active event found kept no_input "no_input")
    reduce_kind-IsSoundMove id input_error =
        still _ (reduce_input_error-IsSound lib d distinct d active event found kept)
    reduce_kind-IsSoundMove id utterance_limit_reached = still _ (
        reduce_window_end-IsSound lib d distinct d active event found kept utterance_limit
          "no_match")
    reduce_kind-IsSoundMove id match_completed =
        still _ (reduce_match-IsSound lib d distinct d active event found kept id)
    reduce_kind-IsSoundMove id decision_completed =
        still _ (reduce_decision-IsSound lib d distinct d active event found kept id)
    reduce_kind-IsSoundMove id submitted_effect =
        reduce_submission-IsSoundMove lib event d bounded (active, found)
    reduce_kind-IsSoundMove id receipt_of_effect =
        reduce_effect_receipt-IsSoundMove lib event d distinct bounded active found
    reduce_kind-IsSoundMove id session_cancelled = still _ (
        route_outcome-IsSound lib event.received_at d distinct d active source_control cancelled
          event.id "cancelled" found kept)
    reduce_kind-IsSoundMove id session_disconnected = still _ (
        route_outcome-IsSound lib event.received_at d distinct d active source_control disconnected
          event.id "disconnected" found kept)
    reduce_kind-IsSoundMove id playback_started = still (quiet d) (kept, tt)
    reduce_kind-IsSoundMove id playback_completed =
        still _ (reduce_playback-IsSound lib d distinct d active event found kept)
    reduce_kind-IsSoundMove id playback_cleared =
        still _ (reduce_playback-IsSound lib d distinct d active event found kept)
    reduce_kind-IsSoundMove id playback_failed =
        still _ (reduce_playback-IsSound lib d distinct d active event found kept)
    reduce_kind-IsSoundMove id retry_exhausted =
        still _ (reduce_exhausted-IsSound lib d distinct d active event found kept)
    reduce_kind-IsSoundMove id handoff_accepted = still (quiet d) (kept, tt)
    reduce_kind-IsSoundMove id session_admitted = tt
    reduce_kind-IsSoundMove id route_entered = tt

  pub reduce_normalized-IsSoundMove :
      (id : String) → Holds (IsSoundMove lib event d) (reduce_normalized lib d event id)
  unfolding reduce_normalized
  reduce_normalized-IsSoundMove id =
      Holds->>= (IsSoundMove lib event d) _ _
        (λ active found. reduce_kind-IsSoundMove active (or_refuse-eq-ok _ _ found) id event.kind)

module _ (tools : Tools) (d : StateData) (distinct : HasDistinctActions d.definition)
    (bounded : IsBounded d) (route : Route)
    (found : find_route d.definition d.route_id ≡ some route) where
  here-IsKept : IsKept d d
  here-IsKept = (bounded, (route, found), (refl, refl, refl, refl))

  active_found : find_route d.definition d.route_id ≡ some (active_route d)
  active_found =
      Option_intro (λ r. find_route d.definition d.route_id ≡ some r)
        (find_route d.definition d.route_id) (λ missing. cc) (λ r h. h)

  pub reduce_snapshot-IsSound :
      (refresh : SnapshotRefresh)
      → Holds (IsSound tools.library refresh.received_at d) (reduce_snapshot tools d refresh)
  unfolding reduce_snapshot usage_of
  reduce_snapshot-IsSound refresh =
      Holds->>= (IsSound tools.library refresh.received_at d) _ _ (λ active _.
        Holds->>= (IsSound tools.library refresh.received_at d) _ _ (λ matcher _.
          Holds->>= (IsSound tools.library refresh.received_at d) _ _ (λ _ _.
            Holds->>= (IsSound tools.library refresh.received_at d) _ _ (λ _ _.
              Holds->>= (IsSound tools.library refresh.received_at d) _ _ (λ _ _.
                Holds->>= (IsSound tools.library refresh.received_at d) _ _ (λ _ _.
                  if_intro (Holds (IsSound tools.library refresh.received_at d)) d.pending_match
                    (λ _.
                      Option_intro (Holds (IsSound tools.library refresh.received_at d))
                        d.pending_input (λ _. (here-IsKept, tt))
                        (λ input _. (here-IsKept, (tt, tt))))
                    (λ _. (here-IsKept, tt))))))))

  run_command-IsSound :
      (result : ControlResult) (command : ControlCommand)
      → Holds (IsSound tools.library result.received_at d) (
          run_command tools
            (record d { pending_match = false })
            (active_route (record d { pending_match = false }))
            result
            command)
  unfolding usage_of
  run_command-IsSound result control_repeat =
      follow_target-IsSound tools.library result.received_at d distinct call_depth _ _ _ result.id
        "repeat" active_found here-IsKept
  run_command-IsSound result control_help =
      follow_target-IsSound tools.library result.received_at d distinct call_depth _ _ _ result.id
        "help" active_found here-IsKept
  run_command-IsSound result control_cancel =
      route_outcome-IsSound tools.library result.received_at d distinct _ _ source_control cancelled
        result.id "cancelled" active_found here-IsKept
  run_command-IsSound result control_other = tt

  pub reduce_control-IsSound :
      (result : ControlResult)
      → Holds (IsSound tools.library result.received_at d) (reduce_control tools d result)
  unfolding reduce_control
  reduce_control-IsSound result = Holds->>= (IsSound tools.library result.received_at d) _ _ (λ _ _.
      Holds->>= (IsSound tools.library result.received_at d) _ _
        (λ _ _. run_command-IsSound result result.command))

  run_outcome-IsSound :
      (result : FullAgentResult) (outcome : Outcome)
      → Holds (IsSound tools.library result.received_at d) (
          run_outcome tools
            (record d { pending_fallback = false })
            (active_route (record d { pending_fallback = false }))
            result
            outcome)
  unfolding usage_of
  run_outcome-IsSound result completed =
      enter_terminal-IsSound tools.library result.received_at d
        (record d { pending_fallback = false }) (some end_graph) "full_agent_completed" here-IsKept
  run_outcome-IsSound result no_match =
      route_outcome-IsSound tools.library result.received_at d distinct _ _ source_decision no_match
        result.id (retry_reason no_match) active_found here-IsKept
  run_outcome-IsSound result ambiguous =
      route_outcome-IsSound tools.library result.received_at d distinct _ _ source_decision
        ambiguous result.id (retry_reason ambiguous) active_found here-IsKept
  run_outcome-IsSound result refusal =
      route_outcome-IsSound tools.library result.received_at d distinct _ _ source_decision refusal
        result.id (retry_reason refusal) active_found here-IsKept
  run_outcome-IsSound result error =
      route_outcome-IsSound tools.library result.received_at d distinct _ _ source_decision error
        result.id (retry_reason error) active_found here-IsKept
  run_outcome-IsSound result unavailable =
      route_outcome-IsSound tools.library result.received_at d distinct _ _ source_decision
        unavailable result.id (retry_reason unavailable) active_found here-IsKept
  run_outcome-IsSound result cancelled =
      route_outcome-IsSound tools.library result.received_at d distinct _ _ source_control cancelled
        result.id "cancelled" active_found here-IsKept
  run_outcome-IsSound result final_input = tt
  run_outcome-IsSound result no_input = tt
  run_outcome-IsSound result utterance_limit = tt
  run_outcome-IsSound result candidate = tt
  run_outcome-IsSound result accepted = tt
  run_outcome-IsSound result confirmed = tt
  run_outcome-IsSound result outcome_failed = tt
  run_outcome-IsSound result unknown = tt
  run_outcome-IsSound result cleared = tt
  run_outcome-IsSound result disconnected = tt
  run_outcome-IsSound result exhausted = tt

  pub reduce_fallback-IsSound :
      (result : FullAgentResult)
      → Holds (IsSound tools.library result.received_at d) (reduce_fallback tools d result)
  unfolding reduce_fallback
  reduce_fallback-IsSound result =
      Holds->>= (IsSound tools.library result.received_at d) _ _ (λ _ _.
        Holds->>= (IsSound tools.library result.received_at d) _ _ (λ _ _.
          Holds->>= (IsSound tools.library result.received_at d) _ _
            (λ _ _. run_outcome-IsSound result result.outcome)))

-- What an event may do to the ownership.
abbrev pub IsMoveBy : Tools → StateData → GraphOwnership → Event → Type 0
IsMoveBy tools d o e =
    (o ≡ d.ownership)
    ⊎ IsAllowed tools.library d o
      × ((is_released o.state ≡ false)
          ⊎ (n : NormalizedEvent) × (e.normalized ≡ some n) × IsReleaseBy tools.library d o n)

abbrev pub IsSoundStep : Tools → Event → StateData → (StateData × List Effect) → Type 0
IsSoundStep tools e d0 r =
    (o : GraphOwnership) × IsMoveBy tools d0 o e
    × IsSound tools.library (event_identity e).4 (record d0 { ownership = o }) r

module _ (tools : Tools) (e : Event) (d : StateData) where
  of_move :
      (n : NormalizedEvent) (o : GraphOwnership)
      → e.normalized ≡ some n
      → IsMove tools.library d o n
      → IsMoveBy tools d o e
  of_move n o h (inl same) = inl same
  of_move n o h (inr (allowed, inl unreleased)) = inr (allowed, inl unreleased)
  of_move n o h (inr (allowed, inr release)) = inr (allowed, inr (n, h, release))

  pub step_of_move :
      (n : NormalizedEvent)
      → e.normalized ≡ some n
      → (r : StateData × List Effect) → IsSoundMove tools.library n d r
      → IsSoundStep tools e d r
  step_of_move n h r (o, move, sound) = (o, of_move n o h move, rw h sound)

  pub step_of_still :
      (now : ℕ)
      → (event_identity e).4 ≡ now
      → (r : StateData × List Effect) → IsSound tools.library now d r
      → IsSoundStep tools e d r
  step_of_still now h r sound = (d.ownership, inl refl, rw h sound)
