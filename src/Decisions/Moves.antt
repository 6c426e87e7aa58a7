-- ===== src/Decisions/Moves.antt =====
-- agents/decisions/reducer.go: the submission and the receipt of an effect, which move the ownership,
-- keep the rest of the state sound; and which receipt releases the call.
use gobeyond.Common.{
  ◌≡◌, refl, ◌⊎◌, inl, inr, true, false, ◌&&◌, Option, none, some, List, if_intro, equal,
}
use gobeyond.Contract.Types.{
  source_effect, Route, ActStep, EffectIdentity-discrete, EffectRequest, EffectStatus,
  effect_submitted, effect_accepted, effect_confirmed, effect_failed, effect_unknown, EffectReceipt,
  NormalizedEvent, GraphOwnership,
}
use gobeyond.Contract.Failure.{
  ok, Holds, Holds->>=, ok-Holds, wrap-eq-ok, or_refuse-eq-ok, refuse_if-not-eq-ok, Holds-map,
}
use gobeyond.Contract.Checks.{Library}
use gobeyond.Contract.Ownership.{is_released, is_confirmed, check_ownership_transition}
use gobeyond.Decisions.State.{Effect, StateData}
use gobeyond.Decisions.Lookup.{
  find_route, usage_of, target_for, pending_action, pending_action_releases_ownership,
}
use gobeyond.Decisions.Receipts.{
  outcome_of, is_await, ownership_at_submission, reduce_submission, moved_ownership,
  ownership_at_receipt, forget_request, settle_receipt, reduce_effect_receipt,
}
use gobeyond.Decisions.Bounds.{IsBounded}
use gobeyond.Decisions.Sound.{HasRoute, IsKept, IsSound}
use gobeyond.Decisions.Dispatch.{HasDistinctActions}
use gobeyond.Decisions.Following.{route_outcome-IsSound}

-- A confirmed receipt for the pending request, which the transition to `o` allows.
abbrev pub IsReleaseBy : Library → StateData → GraphOwnership → NormalizedEvent → Type 0
IsReleaseBy lib d o event =
    (receipt : EffectReceipt) × (request : EffectRequest) × (event.effect ≡ some receipt)
    × (d.pending_request ≡ some request)
    × (equal EffectIdentity-discrete receipt.identity request.identity ≡ true)
    × (pending_action_releases_ownership d ≡ true)
    × (receipt.status ≡ effect_confirmed)
    × (check_ownership_transition lib d.ownership o (some receipt) (some request) (pending_action d)
        ≡ ok tt)

-- ValidateOwnershipTransition allows the transition to `o`.
abbrev pub IsAllowed : Library → StateData → GraphOwnership → Type 0
IsAllowed lib d o =
    (receipt : Option EffectReceipt) × (request : Option EffectRequest) × (action : Option ActStep)
    × (check_ownership_transition lib d.ownership o receipt request action ≡ ok tt)

-- What an event may do to the ownership: keep it, take it to a state that is not released, or
-- release it.
abbrev pub IsMove : Library → StateData → GraphOwnership → NormalizedEvent → Type 0
IsMove lib d o event =
    (o ≡ d.ownership)
    ⊎ IsAllowed lib d o × (is_released o.state ≡ false ⊎ IsReleaseBy lib d o event)

-- Sound but for the ownership, which moves.
abbrev pub IsSoundMove : Library → NormalizedEvent → StateData → (StateData × List Effect) → Type 0
IsSoundMove lib event d0 r =
    (o : GraphOwnership) × IsMove lib d0 o event
    × IsSound lib event.received_at (record d0 { ownership = o }) r

module _ (lib : Library) (event : NormalizedEvent) (d : StateData) where
  ownership_at_submission-IsMove :
      (request : EffectRequest)
      → Holds (λ o. IsMove lib d o event) (ownership_at_submission lib d request)
  unfolding ownership_at_submission
  ownership_at_submission-IsMove request =
      if_intro (Holds (λ o. IsMove lib d o event)) (pending_action_releases_ownership d)
        (λ _.
          Holds->>= (λ o. IsMove lib d o event) _ _
            (λ _ allowed.
              inr ((none, some request, pending_action d, wrap-eq-ok _ _ allowed), inl refl)))
        (λ _. inl refl)

  pub reduce_submission-IsSoundMove :
      IsBounded d → HasRoute d → Holds (IsSoundMove lib event d) (reduce_submission lib d event)
  unfolding reduce_submission usage_of
  reduce_submission-IsSoundMove bounded has_route = Holds->>= (IsSoundMove lib event d) _ _ (λ _ _.
      Holds->>= (IsSoundMove lib event d) _ _ (λ pending _.
        Holds->>= (IsSoundMove lib event d) _ _ (λ input _.
          Holds->>= (IsSoundMove lib event d) _ _ (λ request _.
            Holds->>= (IsSoundMove lib event d) _ _ (λ _ _.
              Holds->>= (IsSoundMove lib event d) _ _ (λ _ _.
                Holds->>= (IsSoundMove lib event d) _ _ (λ o moved. (
                  o,
                  ok-Holds (λ o. IsMove lib d o event) _ (ownership_at_submission-IsMove pending)
                      moved,
                  ((bounded, has_route, (refl, refl, refl, refl)), (tt, tt)),
                ))))))))

  module _ (receipt : EffectReceipt) (request : EffectRequest) (e : event.effect ≡ some receipt)
      (r : d.pending_request ≡ some request)
      (same : equal EffectIdentity-discrete receipt.identity request.identity ≡ true)
      (releases : pending_action_releases_ownership d ≡ true) where
    moved_ownership-IsMove :
        (status : EffectStatus)
        → receipt.status ≡ status
        → Holds (λ o. IsMove lib d o event) (moved_ownership lib d receipt request status)
    moved_ownership-IsMove effect_submitted s =
        Holds->>= (λ o. IsMove lib d o event) _ _ (λ _ _. inl refl)
    moved_ownership-IsMove effect_accepted s =
        Holds->>= (λ o. IsMove lib d o event) _ _ (λ _ _. inl refl)
    moved_ownership-IsMove effect_unknown s =
        Holds->>= (λ o. IsMove lib d o event) _ _ (λ _ _. inl refl)
    moved_ownership-IsMove effect_failed s =
        Holds->>= (λ o. IsMove lib d o event) _ _
          (λ _ allowed.
            inr ((some receipt, some request, pending_action d, wrap-eq-ok _ _ allowed), inl refl))
    moved_ownership-IsMove effect_confirmed s =
        Holds->>= (λ o. IsMove lib d o event) _ _
          (λ _ allowed. inr (
            (some receipt, some request, pending_action d, wrap-eq-ok _ _ allowed),
            inr (receipt, request, e, r, same, releases, s, wrap-eq-ok _ _ allowed),
          ))

  ownership_at_receipt-IsMove :
      (receipt : EffectReceipt) (request : EffectRequest)
      → event.effect ≡ some receipt
      → d.pending_request ≡ some request
      → equal EffectIdentity-discrete receipt.identity request.identity ≡ true
      → Holds (λ o. IsMove lib d o event) (ownership_at_receipt lib d receipt request)
  unfolding ownership_at_receipt
  ownership_at_receipt-IsMove receipt request e r same =
      if_intro (Holds (λ o. IsMove lib d o event)) (pending_action_releases_ownership d)
        (λ releases.
          Holds->>= (λ o. IsMove lib d o event) _ _
            (λ _ _.
              Holds->>= (λ o. IsMove lib d o event) _ _
                (λ _ _.
                  Holds->>= (λ o. IsMove lib d o event) _ _
                    (λ _ _.
                      moved_ownership-IsMove receipt request e r same releases receipt.status
                        refl))))
        (λ _. inl refl)

  module _ (distinct : HasDistinctActions d.definition) (bounded : IsBounded d) (active : Route)
      (found : find_route d.definition d.route_id ≡ some active) where
    settle_receipt-IsSound :
        (o : GraphOwnership) (receipt : EffectReceipt) (request : EffectRequest)
        (input : NormalizedEvent)
        → Holds
            (IsSound lib event.received_at (record d { ownership = o }))
            (settle_receipt lib (record d { ownership = o }) active event receipt request input)
    unfolding settle_receipt usage_of
    settle_receipt-IsSound o receipt request input =
        let moved : StateData = record d { ownership = o } in
        let kept : IsKept moved moved = (bounded, (active, found), (refl, refl, refl, refl)) in
        if_intro (Holds (IsSound lib event.received_at moved))
          (is_await (target_for active source_effect (outcome_of receipt.status)).terminal)
          (λ _. (kept, (tt, tt)))
          (λ _.
            if_intro (Holds (IsSound lib event.received_at moved))
              (is_confirmed receipt.status && is_released o.state)
              (λ _. Holds->>= (IsSound lib event.received_at moved) _ _ (λ _ _. (kept, (tt, tt))))
              (λ _.
                route_outcome-IsSound lib event.received_at moved distinct
                  (forget_request lib moved) active source_effect (outcome_of receipt.status)
                  event.id "" found kept))

    pub reduce_effect_receipt-IsSoundMove :
        Holds (IsSoundMove lib event d) (reduce_effect_receipt lib d active event)
    unfolding reduce_effect_receipt
    reduce_effect_receipt-IsSoundMove = Holds->>= (IsSoundMove lib event d) _ _ (λ _ _.
        Holds->>= (IsSoundMove lib event d) _ _ (λ request r.
          Holds->>= (IsSoundMove lib event d) _ _ (λ input _.
            Holds->>= (IsSoundMove lib event d) _ _ (λ receipt e.
              Holds->>= (IsSoundMove lib event d) _ _ (λ _ same.
                Holds->>= (IsSoundMove lib event d) _ _ (λ _ _.
                  Holds->>= (IsSoundMove lib event d) _ _ (λ _ _.
                    Holds->>= (IsSoundMove lib event d) _ _ (λ o moved.
                      Holds-map (IsSound lib event.received_at (record d { ownership = o }))
                        (IsSoundMove lib event d) _
                        (λ _ s. (
                          o,
                          ok-Holds (λ o. IsMove lib d o event) _
                              (ownership_at_receipt-IsMove receipt request (or_refuse-eq-ok _ _ e)
                                (or_refuse-eq-ok _ _ r) (refuse_if-not-eq-ok _ _ same))
                              moved,
                          s,
                        ))
                        (settle_receipt-IsSound o receipt request input)))))))))
