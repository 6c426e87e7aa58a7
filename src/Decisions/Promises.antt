-- ===== src/Decisions/Promises.antt =====
-- agents/decisions/reducer.go: what a session of the reducer promises: budgets, replays, the end,
-- intents and the release of the call.
use mathlib.Core.Path.{subst}
use gobeyond.Common.{
  ◌≡◌, refl, sym, ap, ◌∙◌, String, Bool, true, false, some, List, [], str_eq, eq_iff, inl, inr,
  if_intro, ◌≢◌, arith,
}
use gobeyond.Common.Maps.{Map, lookup, insert, lookup-insert}
use gobeyond.Contract.Types.{
  Definition, ActStep, EffectRequest, EffectReceipt, NormalizedEvent, GraphOwnership,
  EffectIdentity-discrete,
}
use gobeyond.Contract.Failure.{
  ok, Check, Holds, Holds->>=, Option_intro, ok-Holds, >>=-eq-ok, ok->>=, refuse_if-eq-ok,
}
use gobeyond.Contract.Ownership.{is_released}
use gobeyond.Contract.Releases.{
  equal→≡, IsReleaseOf, check_ownership_transition-released, check_ownership_transition-IsReleaseOf,
}
use gobeyond.Decisions.State.{Effect, Event, Policy, StateData, Tools}
use gobeyond.Decisions.Lookup.{pending_action}
use gobeyond.Decisions.Reduce.{event_identity, fingerprint, is_over, reduce_new, reduce}
use gobeyond.Decisions.Begin.{start}
use gobeyond.Decisions.Bounds.{IsBounded}
use gobeyond.Decisions.Sound.{AreIntentsValid}
use gobeyond.Decisions.Dispatch.{HasDistinctActions}
use gobeyond.Decisions.Variants.{IsMoveBy}
use gobeyond.Decisions.Whole.{processed, IsSane, IsReduced, reduce-IsReduced}
use gobeyond.Decisions.Runs.{run, run-IsSane, start-IsSane}

reduced :
    (tools : Tools) (e : Event) (d : StateData) (sane : IsSane d) {r : StateData × List Effect}
    → reduce tools d e ≡ ok r
    → IsReduced tools e d sane r
reduced tools e d sane h = ok-Holds (IsReduced tools e d sane) _ (reduce-IsReduced tools e d sane) h

inserted : (k v : String) (m : Map String) → lookup k (insert k v m) ≡ some v
inserted k v m = rw (lookup-insert k k v m, (eq_iff k k).1 refl)

-- Reduce, in a state that has processed the event, when another state of the session took it.
reduce_seen :
    (tools : Tools) (e : Event) (d d' : StateData) {r : StateData × List Effect}
    → reduce tools d e ≡ ok r
    → d'.scope ≡ d.scope
    → lookup (event_identity e).0 d'.processed_events ≡ some (fingerprint tools e)
    → reduce tools d' e ≡ ok (d', [])
unfolding reduce
reduce_seen tools e d d' h scope seen =
    let (_, shape, h1) = >>=-eq-ok _ _ h in
    let (_, fresh, h2) = >>=-eq-ok _ _ h1 in
    let (_, here, h3) = >>=-eq-ok _ _ h2 in
    ok->>= _ _ tt shape (
      ok->>= _ _ tt (rw scope fresh) (
        ok->>= _ _ tt (rw scope here)
          (rw (seen, (eq_iff (fingerprint tools e) (fingerprint tools e)).1 refl))))

pending_action-processed :
    (tools : Tools) (d : StateData) (e : Event)
    → pending_action (processed tools d e) ≡ pending_action d
unfolding pending_action
pending_action-processed tools d e = refl

same_some {ℓ} : {A : Type ℓ} (x y : A) → some y ≡ some x → x ≡ y
same_some x y h = cc

module _ (tools : Tools) (e : Event) (d : StateData) (o : GraphOwnership) where
  unmoved :
      IsMoveBy tools (processed tools d e) o e
      → is_released d.ownership.state ≡ true
      → o ≡ d.ownership
  unmoved (inl same) t = same
  unmoved (inr ((receipt, request, action, allowed), change)) t =
      check_ownership_transition-released tools.library d.ownership o receipt request action allowed
        t

  released_by_move :
      (d' : StateData)
      → IsMoveBy tools (processed tools d e) o e
      → d'.ownership ≡ o
      → is_released d.ownership.state ≡ false
      → is_released d'.ownership.state ≡ true
      → (n : NormalizedEvent) × (receipt : EffectReceipt) × (request : EffectRequest)
        × (action : ActStep) × (e.normalized ≡ some n)
        × (n.effect ≡ some receipt)
        × (d.pending_request ≡ some request)
        × (pending_action d ≡ some action)
        × (receipt.identity ≡ request.identity)
        × IsReleaseOf tools.library d.ownership d'.ownership receipt request action
  released_by_move d' (inl same) k f t = absurd (ground arith)
  released_by_move d' (inr (allowed, inl unreleased)) k f t = absurd (ground arith)
  released_by_move d'
        (inr (allowed, inr (n, hn, (receipt, request, he, hr, hs, releases, status, checked)))) k f
        t =
      let (a, q, r, ha, hq, hr', release) =
        check_ownership_transition-IsReleaseOf tools.library d.ownership o (some receipt)
          (some request) (pending_action (processed tools d e)) checked f (rw k at t) in
      (
        n,
        receipt,
        request,
        a,
        hn,
        he,
        hr,
        sym (pending_action-processed tools d e) ∙ ha,
        equal→≡ EffectIdentity-discrete receipt.identity request.identity hs,
        subst (λ x. IsReleaseOf tools.library d.ownership d'.ownership x request a)
            (same_some r receipt hr')
            (subst (λ y. IsReleaseOf tools.library d.ownership d'.ownership r y a)
              (same_some q request hq) (rw k release)),
      )

module _ (tools : Tools) (review : Definition → Check) (definition : Definition)
    (admission : NormalizedEvent) (policy : Policy) {d : StateData} {es : List Effect}
    (distinct : HasDistinctActions definition)
    (started : start tools review definition admission policy ≡ ok (d, es))
    (events : List Event) where
  session-IsSane : IsSane (run tools d events)
  session-IsSane =
      run-IsSane tools d events
        (start-IsSane tools review definition admission policy distinct started)

  -- In a session that Start began for a definition whose routes name no action twice, after any list
  -- of events, each counter of the session is within its ceiling, the fallbacks to the full agent are
  -- within the policy's limit, and each counter of a route is within the route's override. A ceiling
  -- that is missing or unresolved keeps its counter at 0.
  pub run-IsBounded : IsBounded (run tools d events)
  run-IsBounded = let (distinct, route, bounded) = session-IsSane in bounded

  module _ (e : Event) {d' : StateData} {fs : List Effect}
      (h : reduce tools (run tools d events) e ≡ ok (d', fs)) where
    -- In a session that Start began for a definition whose routes name no action twice, after any
    -- list of events, each dispatch intent that Reduce emits passes ValidateDispatchIntent in the
    -- state that Reduce returns, at the time of the event.
    pub reduce-AreIntentsValid : AreIntentsValid tools.library (event_identity e).4 d' fs
    reduce-AreIntentsValid = elim (reduced tools e (run tools d events) session-IsSane h) [
      | inl (same, seen) ↦ rw (ap (λ r. r.1) same) tt
      | inr (new, r, (o, move, (kept, valid))) ↦ valid
    ]

    -- In a session that Start began for a definition whose routes name no action twice, after any
    -- list of events, an event that Reduce has accepted is accepted again in the state that Reduce
    -- returned, changes nothing there, and has no effects.
    pub reduce-reduce : reduce tools d' e ≡ ok (d', [])
    reduce-reduce = elim (reduced tools e (run tools d events) session-IsSane h) [
      | inl (same, seen) ↦ cc
      | inr (new, r, (o, move, ((bounded, route, (same, scope, processed, ownership)), valid))) ↦
          reduce_seen tools e (run tools d events) d' h scope (rw processed (inserted _ _ _))
    ]

    -- In a session that Start began for a definition whose routes name no action twice, after any
    -- list of events, when an event takes the ownership to released, from a state that is not, the
    -- event carries a receipt for the request that was pending, with the identity of this request.
    -- The action that was pending is a call-control action that is declared to release the
    -- ownership, the receipt is confirmed and for the effect and the target that the ownership was
    -- pending for, and the ownership keeps the receipt's id.
    pub reduce-IsReleaseOf :
        is_released (run tools d events).ownership.state ≡ false
        → is_released d'.ownership.state ≡ true
        → (n : NormalizedEvent) × (receipt : EffectReceipt) × (request : EffectRequest)
          × (action : ActStep) × (e.normalized ≡ some n)
          × (n.effect ≡ some receipt)
          × ((run tools d events).pending_request ≡ some request)
          × (pending_action (run tools d events) ≡ some action)
          × (receipt.identity ≡ request.identity)
          × IsReleaseOf tools.library
              (run tools d events).ownership
              d'.ownership
              receipt
              request
              action
    reduce-IsReleaseOf f t = elim (reduced tools e (run tools d events) session-IsSane h) [
      | inl (same, seen) ↦ absurd (ground arith)
      | inr (new, r, (o, move, ((bounded, route, (same, scope, processed, ownership)), valid))) ↦
          released_by_move tools e (run tools d events) o d' move ownership f t
    ]

    -- In a session that Start began for a definition whose routes name no action twice, after any
    -- list of events, an ownership that is released stays as it is.
    pub reduce_released :
        is_released (run tools d events).ownership.state ≡ true
        → d'.ownership ≡ (run tools d events).ownership
    reduce_released t = elim (reduced tools e (run tools d events) session-IsSane h) [
      | inl (same, seen) ↦ ap (λ r. r.0.ownership) same
      | inr (new, r, (o, move, ((bounded, route, (same, scope, processed, ownership)), valid))) ↦
          ownership ∙ unmoved tools e (run tools d events) o move t
    ]

-- What a processed event leads to.
abbrev IsReplay : Tools → StateData → Event → (StateData × List Effect) → Type 0
IsReplay tools d e r =
    (r.0 ≡ d)
    × (r.1 ≡ [])
    × (lookup (event_identity e).0 d.processed_events ≡ some (fingerprint tools e))

replays :
    (tools : Tools) (d : StateData) (e : Event)
    → is_over tools d ≡ true
    → Holds (IsReplay tools d e) (reduce tools d e)
unfolding reduce reduce_new
replays tools d e over = Holds->>= (IsReplay tools d e) _ _ (λ _ _.
    Holds->>= (IsReplay tools d e) _ _ (λ _ _. Holds->>= (IsReplay tools d e) _ _ (λ _ _.
      Option_intro (Holds (IsReplay tools d e)) (lookup (event_identity e).0 d.processed_events)
        (λ new.
          Holds->>= (IsReplay tools d e) _ _
            (λ _ passed. absurd (not_over over (refuse_if-eq-ok _ _ passed))))
        (λ old seen.
          if_intro (Holds (IsReplay tools d e)) (str_eq old (fingerprint tools e))
            (λ same. (refl, refl, seen ∙ ap some ((eq_iff old (fingerprint tools e)).0 same)))
            (λ other. tt)))))
  where
    not_over : {b : Bool} → b ≡ true → b ≢ false
    not_over h k = cc

-- A session that has ended or stopped accepts no new event: an event that Reduce accepts has been
-- processed before with the same content, and it changes nothing and has no effects.
pub reduce_when_over :
    (tools : Tools) (d : StateData) (e : Event) {d' : StateData} {es : List Effect}
    → is_over tools d ≡ true
    → reduce tools d e ≡ ok (d', es)
    → (d' ≡ d)
      × (es ≡ [])
      × (lookup (event_identity e).0 d.processed_events ≡ some (fingerprint tools e))
reduce_when_over tools d e over h =
    ok-Holds (IsReplay tools d e) (reduce tools d e) (replays tools d e over) h
