-- ===== src/Contract/Ownership.antt =====
-- agents/decisioncontract/v1/contract.go: ValidateOwnershipTransition, which lets call ownership go
-- only on a confirmed receipt.
use gobeyond.Common.{
  String, Bool, true, false, not, ◌&&◌, ◌||◌, Option, str_eq, equal, if◌then◌else◌,
}
use gobeyond.Contract.Types.{
  ActStep, ToolKind-discrete, EffectRequest, EffectReceipt, EffectStatus, effect_submitted,
  effect_accepted, effect_confirmed, effect_failed, effect_unknown, OwnershipState, owned,
  receipt_pending, released, GraphOwnership, GraphOwnership-discrete,
}
use gobeyond.Contract.Failure.{ok, ◌>>=◌, ◌>>◌, Check, refuse_if, wrap, or_refuse}
use gobeyond.Contract.Fields.{is_identifier, is_sha256}
use gobeyond.Contract.Checks.{Library, is_empty, is_call_control, is_failed}
use gobeyond.Contract.Scoped.{check_receipt, check_request}

abbrev has_pending_fields : GraphOwnership → Bool
has_pending_fields o =
    not (is_empty o.pending_effect_id)
    || not (is_empty o.pending_target_binding)
    || not (is_empty o.pending_target_opaque_id)
    || not (is_empty o.pending_candidate_set_sha256)

abbrev has_target_fields : GraphOwnership → Bool
has_target_fields o =
    not (is_empty o.pending_target_binding)
    || not (is_empty o.pending_target_opaque_id)
    || not (is_empty o.pending_candidate_set_sha256)

abbrev check_ownership_in : OwnershipState → GraphOwnership → Check
check_ownership_in owned o =
    refuse_if (has_pending_fields o || not (is_empty o.release_receipt_id))
      "owned state cannot carry a pending effect or release receipt"
check_ownership_in receipt_pending o = do
  refuse_if (not (is_identifier o.pending_effect_id))
      "receipt-pending state requires a stable pending effect ID"
  refuse_if
      (has_target_fields o
        && (not (is_identifier o.pending_target_binding)
            || not (is_identifier o.pending_target_opaque_id)
            || not (is_sha256 o.pending_candidate_set_sha256)))
      "pending call-control target requires binding, opaque ID, and candidate-set digest"
  refuse_if (not (is_empty o.release_receipt_id))
      "receipt-pending state cannot carry a release receipt"
check_ownership_in released o =
    refuse_if (not (is_identifier o.release_receipt_id) || has_pending_fields o)
      "released state requires only its confirming receipt ID"

-- validateOwnershipState
unfoldable pub check_ownership : GraphOwnership → Check
check_ownership o = check_ownership_in o.state o

abbrev pub is_released : OwnershipState → Bool
is_released owned = false
is_released receipt_pending = false
is_released released = true

abbrev pub is_receipt_pending : OwnershipState → Bool
is_receipt_pending owned = false
is_receipt_pending receipt_pending = true
is_receipt_pending released = false

abbrev pub is_confirmed : EffectStatus → Bool
is_confirmed effect_submitted = false
is_confirmed effect_accepted = false
is_confirmed effect_confirmed = true
is_confirmed effect_failed = false
is_confirmed effect_unknown = false

module _ (lib : Library) where
  -- EffectReceipt.ReleasesCallOwnership
  unfoldable pub releases_ownership : EffectReceipt → Bool → String → Bool
  releases_ownership receipt may_release target =
      may_release
      && not (is_empty target)
      && is_confirmed receipt.status
      && str_eq receipt.target_opaque_id target
      && not (is_failed (check_receipt lib receipt))

  -- The part of ValidateOwnershipTransition for a release.
  unfoldable pub check_release :
      GraphOwnership → GraphOwnership → EffectReceipt → EffectRequest → ActStep → Check
  check_release from to receipt request action = do
    refuse_if
        (not action.releases_call_ownership
          || not (is_call_control action.kind)
          || not action.reauthorize_at_execution)
        "call ownership release requires its declared reauthorized route action"
    refuse_if
        (not (str_eq request.identity.action_id action.id)
          || not (str_eq request.tool_id action.tool_id)
          || not (equal ToolKind-discrete request.kind action.kind)
          || not (str_eq request.target_binding action.target_binding))
        "pending effect does not match the call-owner-releasing route action"
    refuse_if
        (not
          (releases_ownership receipt action.releases_call_ownership from.pending_target_opaque_id))
        "call ownership may be released only by a confirmed receipt for the intended target"
    refuse_if
        (is_failed (check_request lib request 0)
          || not (is_call_control request.kind)
          || not request.reauthorize_at_execution)
        "call ownership release requires the validated reauthorized call-control request"
    refuse_if (not (is_receipt_pending from.state))
        "call ownership release requires a pending receipt state"
    refuse_if
        (is_empty from.pending_effect_id
          || not (str_eq from.pending_effect_id receipt.identity.id)
          || not (str_eq from.pending_effect_id request.identity.id))
        "confirmed receipt does not match the pending effect"
    refuse_if
        (is_empty request.target_opaque_id
          || not (str_eq request.target_opaque_id from.pending_target_opaque_id)
          || not (str_eq request.target_opaque_id receipt.target_opaque_id)
          || is_empty request.target_binding
          || not (str_eq request.target_binding from.pending_target_binding)
          || not (str_eq request.candidate_set_sha256 from.pending_candidate_set_sha256))
        "confirmed receipt target does not match the intended effect target"
    refuse_if
        (is_empty to.release_receipt_id || not (str_eq to.release_receipt_id receipt.receipt_id))
        "released call ownership must retain the confirming receipt ID"

  -- A pointer that may be nil is an option; every state is a constructor.
  unfoldable pub check_ownership_transition :
      GraphOwnership
      → GraphOwnership
      → Option EffectReceipt
      → Option EffectRequest
      → Option ActStep
      → Check
  check_ownership_transition from to receipt request action = do
    wrap "invalid prior call ownership state" (check_ownership from)
    wrap "invalid next call ownership state" (check_ownership to)
    if is_released from.state
        then refuse_if (not (equal GraphOwnership-discrete to from))
            "released call ownership state is immutable"
        else if is_released to.state
        then (do
          a ←
              or_refuse action
                "call ownership release requires its declared reauthorized route action"
          q ←
              or_refuse request
                "call ownership release requires its declared reauthorized route action"
          r ←
              or_refuse receipt
                "call ownership release requires its declared reauthorized route action"
          check_release from to r q a)
        else ok tt
