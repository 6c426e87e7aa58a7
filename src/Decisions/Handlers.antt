-- ===== src/Decisions/Handlers.antt =====
-- agents/decisions/reducer.go: the cases of reduceNormalized that leave the ownership alone keep the
-- state sound.
use gobeyond.Common.{
  ℕ, ◌≡◌, String, true, false, ◌&&◌, Option, none, some, is_some, if_intro, equal, arith,
}
use gobeyond.Contract.Types.{
  source_input, source_match, source_decision, source_playback, Outcome, candidate, no_match,
  completed, Outcome-discrete, ListenStep, Route, NormalizedEvent,
}
use gobeyond.Contract.Failure.{Holds, Holds->>=}
use gobeyond.Contract.Checks.{Library}
use gobeyond.Decisions.State.{StateData}
use gobeyond.Decisions.Lookup.{find_route, usage_of, can_use_full_agent, target_for, retry_reason}
use gobeyond.Decisions.Follow.{is_dependable_failure}
use gobeyond.Decisions.Target.{call_depth}
use gobeyond.Decisions.Inputs.{
  close_window, select, has_work, to_decision, is_listen, reduce_final_input, reduce_window_end,
  reduce_input_error, reduce_match, decision_falls_back, reduce_decision, listen_again,
  reduce_playback, reduce_exhausted,
}
use gobeyond.Decisions.Bounds.{below-IsWithin}
use gobeyond.Decisions.Sound.{IsKept, IsSound, match_effects-AreIntentsValid}
use gobeyond.Decisions.Dispatch.{HasDistinctActions}
use gobeyond.Decisions.Following.{
  follow_target-IsSound, route_outcome-IsSound, request_decision-IsSound,
}

module _ (lib : Library) (d0 : StateData) (distinct : HasDistinctActions d0.definition) where
  select-IsKept :
      (d : StateData) (outcome : Outcome) (id : String)
      → IsKept d0 d
      → IsKept d0 (select d outcome id)
  unfolding usage_of
  select-IsKept d outcome id k =
      if_intro (IsKept d0) (equal Outcome-discrete outcome candidate) (λ _. k) (λ _. k)

  select-route :
      (d : StateData) (outcome : Outcome) (id : String) (active : Route)
      → find_route d.definition d.route_id ≡ some active
      → find_route (select d outcome id).definition (select d outcome id).route_id ≡ some active
  select-route d outcome id active found =
      if_intro (λ (s : StateData). find_route s.definition s.route_id ≡ some active)
        (equal Outcome-discrete outcome candidate) (λ _. found) (λ _. found)

  module _ (d : StateData) (active : Route) (event : NormalizedEvent)
      (found : find_route d.definition d.route_id ≡ some active) (k : IsKept d0 d) where
    pub reduce_final_input-IsSound :
        Holds (IsSound lib event.received_at d0) (reduce_final_input d active event)
    unfolding reduce_final_input usage_of
    reduce_final_input-IsSound = Holds->>= (IsSound lib event.received_at d0) _ _ (λ _ _.
        Holds->>= (IsSound lib event.received_at d0) _ _ (λ listen _.
          Holds->>= (IsSound lib event.received_at d0) _ _ (λ matcher _.
            Holds->>= (IsSound lib event.received_at d0) _ _
              (λ _ _. (k, match_effects-AreIntentsValid lib event.received_at d0 _ _ matcher)))))

    pub reduce_window_end-IsSound :
        (outcome : Outcome) (why : String)
        → Holds
            (IsSound lib event.received_at d0)
            (reduce_window_end lib d active event outcome why)
    unfolding usage_of
    reduce_window_end-IsSound outcome why = Holds->>= (IsSound lib event.received_at d0) _ _ (λ _ _.
        route_outcome-IsSound lib event.received_at d0 distinct (close_window d) active source_input
          outcome event.id why found k)

    pub reduce_input_error-IsSound :
        Holds (IsSound lib event.received_at d0) (reduce_input_error lib d active event)
    unfolding reduce_input_error usage_of
    reduce_input_error-IsSound = Holds->>= (IsSound lib event.received_at d0) _ _ (λ _ _.
        Holds->>= (IsSound lib event.received_at d0) _ _ (λ _ _.
          route_outcome-IsSound lib event.received_at d0 distinct (close_window d) active
            source_input _ event.id "input_error" found k))

    pub reduce_match-IsSound :
        (id : String)
        → Holds (IsSound lib event.received_at d0) (reduce_match lib d active event id)
    unfolding reduce_match usage_of
    reduce_match-IsSound id = Holds->>= (IsSound lib event.received_at d0) _ _ (λ _ _.
        Holds->>= (IsSound lib event.received_at d0) _ _ (λ bound _.
          Holds->>= (IsSound lib event.received_at d0) _ _ (λ result _.
            Holds->>= (IsSound lib event.received_at d0) _ _ (λ matcher _.
              Holds->>= (IsSound lib event.received_at d0) _ _ (λ _ _.
                Holds->>= (IsSound lib event.received_at d0) _ _ (λ _ _.
                  Holds->>= (IsSound lib event.received_at d0) _ _ (λ _ _.
                    let matched : StateData = record d { pending_match = false } in
                    if_intro (Holds (IsSound lib event.received_at d0))
                      (equal Outcome-discrete result.outcome no_match
                        && to_decision matcher.on_no_match
                        && is_some active.decide)
                      (λ _.
                        request_decision-IsSound lib event.received_at d0 distinct matched active
                          event.id found k)
                      (λ _.
                        route_outcome-IsSound lib event.received_at d0 distinct
                          (select matched result.outcome result.candidate_id) active source_match
                          result.outcome event.id (retry_reason result.outcome)
                          (select-route matched result.outcome result.candidate_id active found)
                          (select-IsKept matched result.outcome result.candidate_id k)))))))))

    pub reduce_exhausted-IsSound :
        Holds (IsSound lib event.received_at d0) (reduce_exhausted lib d active event)
    unfolding reduce_exhausted
    reduce_exhausted-IsSound = Holds->>= (IsSound lib event.received_at d0) _ _ (λ _ _.
        Holds->>= (IsSound lib event.received_at d0) _ _ (λ g _.
          follow_target-IsSound lib event.received_at d0 distinct call_depth d active g.exhausted
            event.id "retry_exhausted" found k))

    falls_back-IsSound :
        (outcome : Outcome)
        → can_use_full_agent (record d { pending_decision = false }) ≡ true
        → Holds
            (IsSound lib event.received_at d0)
            (decision_falls_back lib (record d { pending_decision = false }) outcome)
    unfolding can_use_full_agent usage_of
    falls_back-IsSound outcome room =
        let ((ceilings, limit, overrides), has_route, framed) = k in
        (
          (
            (
              ceilings,
              below-IsWithin d.full_agent_fallbacks d.policy.full_agent_fallback_limit room,
              overrides,
            ),
            has_route,
            framed,
          ),
          (tt, tt),
        )

    pub reduce_decision-IsSound :
        (id : String)
        → Holds (IsSound lib event.received_at d0) (reduce_decision lib d active event id)
    unfolding reduce_decision usage_of
    reduce_decision-IsSound id = Holds->>= (IsSound lib event.received_at d0) _ _ (λ _ _.
        Holds->>= (IsSound lib event.received_at d0) _ _ (λ bound _.
          Holds->>= (IsSound lib event.received_at d0) _ _ (λ result _.
            Holds->>= (IsSound lib event.received_at d0) _ _ (λ _ _.
              Holds->>= (IsSound lib event.received_at d0) _ _ (λ _ _.
                Holds->>= (IsSound lib event.received_at d0) _ _ (λ _ _.
                  let decided : StateData = record d { pending_decision = false } in
                  if_intro (Holds (IsSound lib event.received_at d0))
                    (is_dependable_failure source_decision result.outcome
                      && can_use_full_agent decided)
                    (λ both. falls_back-IsSound result.outcome (ground arith))
                    (λ _.
                      route_outcome-IsSound lib event.received_at d0 distinct
                        (select decided result.outcome result.candidate_id) active source_decision
                        result.outcome event.id (retry_reason result.outcome)
                        (select-route decided result.outcome result.candidate_id active found)
                        (select-IsKept decided result.outcome result.candidate_id k))))))))

  listen_again-IsSound :
      (now : ℕ) (d : StateData) (o : Option ListenStep)
      → IsKept d0 d
      → Holds (IsSound lib now d0) (listen_again lib d o)
  unfolding usage_of
  listen_again-IsSound now d none k = (k, tt)
  listen_again-IsSound now d (some step) k =
      if_intro (Holds (IsSound lib now d0)) d.input_window_open (λ _. (k, tt)) (λ _. (k, (tt, tt)))

  pub reduce_playback-IsSound :
      (d : StateData) (active : Route) (event : NormalizedEvent)
      → find_route d.definition d.route_id ≡ some active
      → IsKept d0 d
      → Holds (IsSound lib event.received_at d0) (reduce_playback lib d active event)
  unfolding reduce_playback usage_of
  reduce_playback-IsSound d active event found k =
      Holds->>= (IsSound lib event.received_at d0) _ _ (λ receipt _.
        Holds->>= (IsSound lib event.received_at d0) _ _ (λ _ _.
          let said : StateData = record d { pending_say_operation_id = "" } in
          if_intro (Holds (IsSound lib event.received_at d0)) (has_work said) (λ _. (k, tt))
            (λ _.
              if_intro (Holds (IsSound lib event.received_at d0))
                (equal Outcome-discrete receipt.outcome completed
                  && is_listen (target_for active source_playback receipt.outcome).phase)
                (λ _. listen_again-IsSound event.received_at said active.listen k)
                (λ _.
                  route_outcome-IsSound lib event.received_at d0 distinct said active
                    source_playback receipt.outcome event.id "" found k))))
