-- ===== src/Decisions/Whole.antt =====
-- agents/decisions/reducer.go: Reduce as a whole keeps the state sound.
use gobeyond.Common.{
  ℕ, ◌+◌, ◌≡◌, refl, ap, ◌∙◌, eq_iff, ◌⊎◌, inl, inr, true, not, none, some, List, [], ◌==◌, str_eq,
  if_intro, arith,
}
use gobeyond.Common.Maps.{lookup, insert}
use gobeyond.Contract.Types.{Route}
use gobeyond.Contract.Failure.{
  Result, ok, refuse_if, Holds, Holds->>=, Holds-map, Holds-same, ok-Holds, Option_intro, >>=-eq-ok,
  refuse_if-not-eq-ok,
}
use gobeyond.Decisions.State.{
  Effect, SnapshotRefresh, ControlResult, FullAgentResult, Event, StateData, Tools,
}
use gobeyond.Decisions.Lookup.{find_route, usage_of}
use gobeyond.Decisions.Guards.{one_if, check_event_shape}
use gobeyond.Decisions.Reduce.{event_identity, fingerprint, reduce_variant, reduce_new, reduce}
use gobeyond.Decisions.Bounds.{IsBounded}
use gobeyond.Decisions.Sound.{HasRoute, IsSound}
use gobeyond.Decisions.Dispatch.{HasDistinctActions}
use gobeyond.Decisions.Moves.{IsSoundMove}
use gobeyond.Decisions.Variants.{
  reduce_normalized-IsSoundMove, reduce_snapshot-IsSound, reduce_control-IsSound,
  reduce_fallback-IsSound, IsSoundStep, step_of_move, step_of_still,
}

-- The number of variants that an event has.
abbrev variants : Event → ℕ
variants e = one_if e.normalized + (one_if e.snapshot + (one_if e.control + one_if e.fallback))

shape_one : (e : Event) → check_event_shape e ≡ ok tt → (variants e == 1) ≡ true
unfolding check_event_shape
shape_one e h =
    let (u, passed, rest) =
      >>=-eq-ok
        (refuse_if (not (variants e == 1))
          "decision event must contain exactly one normalized event, snapshot refresh, or control result")
        _ h in
    refuse_if-not-eq-ok (variants e == 1) _ passed

module _ (tools : Tools) (e : Event) (shape : check_event_shape e ≡ ok tt) where
  time_of_snapshot :
      (s : SnapshotRefresh) → e.snapshot ≡ some s → (event_identity e).4 ≡ s.received_at
  time_of_snapshot s h = ground (arith, shape_one e shape)

  time_of_control :
      (c : ControlResult)
      → e.snapshot ≡ none
      → e.control ≡ some c
      → (event_identity e).4 ≡ c.received_at
  time_of_control c a h = ground (arith, shape_one e shape)

  time_of_fallback :
      (f : FullAgentResult)
      → e.snapshot ≡ none
      → e.control ≡ none
      → e.fallback ≡ some f
      → (event_identity e).4 ≡ f.received_at
  time_of_fallback f a b h = ground (arith, shape_one e shape)

  module _ (d : StateData) (distinct : HasDistinctActions d.definition) (bounded : IsBounded d)
      (route : Route) (found : find_route d.definition d.route_id ≡ some route) where
    still_step :
        (now : ℕ)
        → (event_identity e).4 ≡ now
        → (r : Result (StateData × List Effect)) → Holds (IsSound tools.library now d) r
        → Holds (IsSoundStep tools e d) r
    still_step now t r h =
        Holds-map (IsSound tools.library now d) (IsSoundStep tools e d) r
          (step_of_still tools e d now t) h

    reduce_variant-IsSoundStep : Holds (IsSoundStep tools e d) (reduce_variant tools d e)
    unfolding reduce_variant
    reduce_variant-IsSoundStep =
        Option_intro (Holds (IsSoundStep tools e d)) e.snapshot
          (λ a.
            Option_intro (Holds (IsSoundStep tools e d)) e.control
              (λ b.
                Option_intro (Holds (IsSoundStep tools e d)) e.fallback
                  (λ c.
                    Option_intro (Holds (IsSoundStep tools e d)) e.normalized (λ _. tt)
                      (λ n h.
                        Holds-map (IsSoundMove tools.library n d) (IsSoundStep tools e d) _
                          (step_of_move tools e d n h)
                          (reduce_normalized-IsSoundMove tools.library n d distinct bounded
                            e.input_id)))
                  (λ f h.
                    still_step f.received_at (time_of_fallback f a b h) _
                      (reduce_fallback-IsSound tools d distinct bounded route found f)))
              (λ c h.
                still_step c.received_at (time_of_control c a h) _
                  (reduce_control-IsSound tools d distinct bounded route found c)))
          (λ s h.
            still_step s.received_at (time_of_snapshot s h) _
              (reduce_snapshot-IsSound tools d distinct bounded route found s))

-- The state in which the event has been processed.
abbrev pub processed : Tools → StateData → Event → StateData
processed tools d e = record d {
  processed_events = insert (event_identity e).0 (fingerprint tools e) d.processed_events;
}

-- A state that has a route of the definition and is within its budgets, which name no action twice.
abbrev pub IsSane : StateData → Type 0
IsSane d = HasDistinctActions d.definition × HasRoute d × IsBounded d

module _ (tools : Tools) (e : Event) (d : StateData) (sane : IsSane d) where
  reduce_new-IsSoundStep :
      check_event_shape e ≡ ok tt
      → Holds (IsSoundStep tools e (processed tools d e)) (reduce_new tools d e)
  unfolding reduce_new usage_of
  reduce_new-IsSoundStep shape =
      let (distinct, (route, found), bounded) = sane in
      Holds->>= (IsSoundStep tools e (processed tools d e)) _ _ (λ _ _.
        Holds->>= (IsSoundStep tools e (processed tools d e)) _ _ (λ _ _.
          reduce_variant-IsSoundStep tools e shape (processed tools d e) distinct bounded route
            found))

  -- A new event is a sound step; one that was processed changes nothing.
  abbrev pub IsReduced : (StateData × List Effect) → Type 0
  IsReduced r =
      (r ≡ (d, [])) × (lookup (event_identity e).0 d.processed_events ≡ some (fingerprint tools e))
      ⊎ (lookup (event_identity e).0 d.processed_events ≡ none)
        × (reduce_new tools d e ≡ ok r)
        × IsSoundStep tools e (processed tools d e) r

  pub reduce-IsReduced : Holds IsReduced (reduce tools d e)
  unfolding reduce
  reduce-IsReduced = Holds->>= IsReduced _ _ (λ _ shape. Holds->>= IsReduced _ _ (λ _ _.
      Holds->>= IsReduced _ _ (λ _ _.
        Option_intro (Holds IsReduced) (lookup (event_identity e).0 d.processed_events)
          (λ new. Holds-same IsReduced (reduce_new tools d e) (λ r h. inr (
            new,
            h,
            ok-Holds (IsSoundStep tools e (processed tools d e)) _ (reduce_new-IsSoundStep shape) h,
          )))
          (λ old seen.
            if_intro (Holds IsReduced) (str_eq old (fingerprint tools e))
              (λ same. inl (refl, seen ∙ ap some ((eq_iff old (fingerprint tools e)).0 same)))
              (λ other. tt)))))
