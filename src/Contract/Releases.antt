-- ===== src/Contract/Releases.antt =====
-- agents/decisioncontract/v1/contract.go: what ValidateOwnershipTransition asks of a release, and that
-- a released ownership stays as it is.
use gobeyond.Common.{◌≡◌, refl, true, false, Option, some, eq_iff, equal, arith}
use gobeyond.Contract.Types.{
  ActStep, EffectRequest, EffectReceipt, EffectStatus, effect_submitted, effect_accepted,
  effect_confirmed, effect_failed, effect_unknown, OwnershipState, owned, receipt_pending, released,
  GraphOwnership, GraphOwnership-discrete,
}
use gobeyond.Contract.Failure.{ok, >>=-eq-ok, or_refuse-eq-ok, refuse_if-eq-ok, refuse_if-not-eq-ok}
use gobeyond.Contract.Checks.{Library, is_call_control}
use gobeyond.Contract.Ownership.{
  is_released, is_receipt_pending, is_confirmed, releases_ownership, check_release,
  check_ownership_transition,
}

of_decision {ℓ} :
    {A : Type ℓ} {x y : A} (dec : Dec (x ≡ y))
    → (elim dec [ yes _ ↦ true | no _ ↦ false ]) ≡ true
    → x ≡ y
of_decision (yes same) h = same
of_decision (no other) h = cc

pub equal→≡ {ℓ} : {A : Type ℓ} (dec : Discrete A) (x y : A) → equal dec x y ≡ true → x ≡ y
equal→≡ dec x y h = of_decision (dec x y) h

is_receipt_pending→≡ : (s : OwnershipState) → is_receipt_pending s ≡ true → s ≡ receipt_pending
is_receipt_pending→≡ owned h = cc
is_receipt_pending→≡ receipt_pending h = refl
is_receipt_pending→≡ released h = cc

is_confirmed→≡ : (s : EffectStatus) → is_confirmed s ≡ true → s ≡ effect_confirmed
is_confirmed→≡ effect_submitted h = cc
is_confirmed→≡ effect_accepted h = cc
is_confirmed→≡ effect_confirmed h = refl
is_confirmed→≡ effect_failed h = cc
is_confirmed→≡ effect_unknown h = cc

module _ (lib : Library) (from to : GraphOwnership) where
  module _ (receipt : Option EffectReceipt) (request : Option EffectRequest)
      (action : Option ActStep) where
    -- A released ownership is immutable.
    pub check_ownership_transition-released :
        check_ownership_transition lib from to receipt request action ≡ ok tt
        → is_released from.state ≡ true
        → to ≡ from
    unfolding check_ownership_transition
    check_ownership_transition-released h r =
        let (_, _, h1) = >>=-eq-ok _ _ h in
        let (_, _, h2) = >>=-eq-ok _ _ h1 in
        equal→≡ GraphOwnership-discrete to from (refuse_if-not-eq-ok _ _ (rw r at h2))

    -- The step from an ownership that is not released to one that is.
    release_checked :
        check_ownership_transition lib from to receipt request action ≡ ok tt
        → is_released from.state ≡ false
        → is_released to.state ≡ true
        → (a : ActStep) × (q : EffectRequest) × (r : EffectReceipt) × (action ≡ some a)
          × (request ≡ some q)
          × (receipt ≡ some r)
          × (check_release lib from to r q a ≡ ok tt)
    unfolding check_ownership_transition
    release_checked h f t =
        let (_, _, h1) = >>=-eq-ok _ _ h in
        let (_, _, h2) = >>=-eq-ok _ _ h1 in
        let (a, ha, h3) = >>=-eq-ok _ _ (rw (f, t) at h2) in
        let (q, hq, h4) = >>=-eq-ok _ _ h3 in
        let (r, hr, h5) = >>=-eq-ok _ _ h4 in
        (
          a,
          q,
          r,
          or_refuse-eq-ok action _ ha,
          or_refuse-eq-ok request _ hq,
          or_refuse-eq-ok receipt _ hr,
          h5,
        )

  -- What a release is bound to.
  abbrev pub IsReleaseOf : EffectReceipt → EffectRequest → ActStep → Type 0
  IsReleaseOf r q a =
      (a.releases_call_ownership ≡ true)
      × (is_call_control a.kind ≡ true)
      × (q.identity.action_id ≡ a.id)
      × (r.status ≡ effect_confirmed)
      × (from.state ≡ receipt_pending)
      × (from.pending_effect_id ≡ r.identity.id)
      × (from.pending_effect_id ≡ q.identity.id)
      × (r.target_opaque_id ≡ from.pending_target_opaque_id)
      × (q.target_opaque_id ≡ from.pending_target_opaque_id)
      × (to.release_receipt_id ≡ r.receipt_id)

  check_release-IsReleaseOf :
      (r : EffectReceipt) (q : EffectRequest) (a : ActStep)
      → check_release lib from to r q a ≡ ok tt
      → IsReleaseOf r q a
  unfolding check_release releases_ownership
  check_release-IsReleaseOf r q a h =
      let (_, h1, k1) = >>=-eq-ok _ _ h in
      let (_, h2, k2) = >>=-eq-ok _ _ k1 in
      let (_, h3, k3) = >>=-eq-ok _ _ k2 in
      let (_, h4, k4) = >>=-eq-ok _ _ k3 in
      let (_, h5, k5) = >>=-eq-ok _ _ k4 in
      let (_, h6, k6) = >>=-eq-ok _ _ k5 in
      let (_, h7, h8) = >>=-eq-ok _ _ k6 in
      let f1 = refuse_if-eq-ok _ _ h1 in
      let f2 = refuse_if-eq-ok _ _ h2 in
      let f3 = refuse_if-not-eq-ok _ _ h3 in
      let f5 = refuse_if-not-eq-ok _ _ h5 in
      let f6 = refuse_if-eq-ok _ _ h6 in
      let f7 = refuse_if-eq-ok _ _ h7 in
      let f8 = refuse_if-eq-ok _ _ h8 in
      (
        ground arith,
        ground arith,
        ground (arith, eq_iff q.identity.action_id a.id),
        is_confirmed→≡ r.status (ground arith),
        is_receipt_pending→≡ from.state f5,
        ground (arith, eq_iff from.pending_effect_id r.identity.id),
        ground (arith, eq_iff from.pending_effect_id q.identity.id),
        ground (arith, eq_iff r.target_opaque_id from.pending_target_opaque_id),
        ground (arith, eq_iff q.target_opaque_id from.pending_target_opaque_id),
        ground (arith, eq_iff to.release_receipt_id r.receipt_id),
      )

  -- A transition that ValidateOwnershipTransition allows from an ownership that is not released to
  -- one that is has an action, a request and a receipt. The action is a call-control action that is
  -- declared to release the ownership, the request is for this action, the receipt is confirmed and
  -- for the effect and the target that the ownership was pending for, and the ownership keeps the
  -- receipt's id.
  pub check_ownership_transition-IsReleaseOf :
      (receipt : Option EffectReceipt) (request : Option EffectRequest) (action : Option ActStep)
      → check_ownership_transition lib from to receipt request action ≡ ok tt
      → is_released from.state ≡ false
      → is_released to.state ≡ true
      → (a : ActStep) × (q : EffectRequest) × (r : EffectReceipt) × (action ≡ some a)
        × (request ≡ some q)
        × (receipt ≡ some r)
        × IsReleaseOf r q a
  check_ownership_transition-IsReleaseOf receipt request action h f t =
      let (a, q, r, ha, hq, hr, checked) = release_checked receipt request action h f t in
      (a, q, r, ha, hq, hr, check_release-IsReleaseOf r q a checked)
