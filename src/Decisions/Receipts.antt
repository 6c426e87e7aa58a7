-- ===== src/Decisions/Receipts.antt =====
-- agents/decisions/reducer.go: the submission of an effect and its receipt, which move the ownership
-- of the call.
use gobeyond.Common.{
  Bool, true, false, not, ◌&&◌, ◌||◌, Option, none, some, [], ◌∷◌, ◌==◌, str_eq, if◌then◌else◌,
  equal,
}
use gobeyond.Contract.Types.{
  source_effect, Outcome, accepted, confirmed, failed as outcome_failed, unknown, TerminalAction,
  await_receipt, release_call_ownership, Route, EffectIdentity-discrete, EffectRequest,
  EffectRequest-discrete, EffectStatus, effect_submitted, effect_accepted, effect_confirmed,
  effect_failed, effect_unknown, EffectReceipt, NormalizedEvent, owned, receipt_pending, released,
  GraphOwnership,
}
use gobeyond.Contract.Failure.{Result, ok, ◌>>=◌, ◌>>◌, refuse_if, wrap, or_refuse}
use gobeyond.Contract.Checks.{Library, is_empty}
use gobeyond.Contract.Scoped.{check_receipt}
use gobeyond.Contract.Ownership.{
  is_released, is_receipt_pending, is_confirmed, check_ownership_transition,
}
use gobeyond.Decisions.State.{
  Phase, acting, awaiting_receipt, terminal_phase, EffectKind, effect_await_receipt,
  effect_release_ownership, Effect, StateData,
}
use gobeyond.Decisions.Lookup.{target_for, pending_action, pending_action_releases_ownership}
use gobeyond.Decisions.Guards.{check_dispatch_action}
use gobeyond.Decisions.Steps.{Step, effect_at}
use gobeyond.Decisions.Target.{route_outcome}

abbrev pub is_acting : Phase → Bool
is_acting acting = true
is_acting _ = false

abbrev is_awaiting_receipt : Phase → Bool
is_awaiting_receipt awaiting_receipt = true
is_awaiting_receipt _ = false

-- contract.GraphOwnership with a State alone
abbrev pub owned_again : GraphOwnership
owned_again = record {
  state = owned;
  pending_effect_id = "";
  pending_target_binding = "";
  pending_target_opaque_id = "";
  pending_candidate_set_sha256 = "";
  release_receipt_id = "";
}

abbrev pub pending_ownership : EffectRequest → GraphOwnership
pending_ownership request = record {
  state = receipt_pending;
  pending_effect_id = request.identity.id;
  pending_target_binding = request.target_binding;
  pending_target_opaque_id = request.target_opaque_id;
  pending_candidate_set_sha256 = request.candidate_set_sha256;
  release_receipt_id = "";
}

abbrev pub released_by : EffectReceipt → GraphOwnership
released_by receipt = record owned_again {
  state = released;
  release_receipt_id = receipt.receipt_id;
}

abbrev pub outcome_of : EffectStatus → Outcome
outcome_of effect_submitted = accepted
outcome_of effect_accepted = accepted
outcome_of effect_confirmed = confirmed
outcome_of effect_failed = outcome_failed
outcome_of effect_unknown = unknown

abbrev pub is_await : Option TerminalAction → Bool
is_await (some await_receipt) = true
is_await _ = false

abbrev is_release : Option TerminalAction → Bool
is_release (some release_call_ownership) = true
is_release _ = false

-- The effect of the pending intent, with what the input was.
abbrev pub pending_effect : StateData → EffectKind → NormalizedEvent → EffectRequest → Effect
pending_effect d kind input request = record (effect_at d kind) {
  input_id = input.id;
  action_id = d.pending_action_id;
  request = some request;
}

module _ (lib : Library) where
  -- The ownership after a submission.
  unfoldable pub ownership_at_submission : StateData → EffectRequest → Result GraphOwnership
  ownership_at_submission d request =
      if pending_action_releases_ownership d
      then (do
        wrap "effect submission ownership transition" (
            check_ownership_transition lib d.ownership (pending_ownership request) none
              (some request) (pending_action d))
        ok (pending_ownership request))
      else ok d.ownership

  -- The case of an effect_submitted event.
  unfoldable pub reduce_submission : StateData → NormalizedEvent → Step
  reduce_submission d event = do
    refuse_if (not (is_acting d.phase)) "effect submission has no reducer-emitted pending intent"
    pending ← or_refuse d.pending_request "effect submission has no reducer-emitted pending intent"
    input ← or_refuse d.pending_input "effect submission has no reducer-emitted pending intent"
    request ←
        or_refuse event.effect_request "effect submission has no reducer-emitted pending intent"
    refuse_if (not (equal EffectRequest-discrete request pending))
        "effect submission does not match the reducer-emitted intent"
    check_dispatch_action lib d pending event.received_at
    ownership ← ownership_at_submission d pending
    ok (
      record d {
        pending_request_validated_at = event.received_at;
        ownership = ownership;
        phase = awaiting_receipt;
      },
      pending_effect d effect_await_receipt input pending ∷ [],
    )

  -- The switch on the status of a receipt, for an action that releases ownership.
  abbrev pub moved_ownership :
      StateData → EffectReceipt → EffectRequest → EffectStatus → Result GraphOwnership
  moved_ownership d receipt request effect_failed = do
    wrap "failed effect ownership transition" (
        check_ownership_transition lib d.ownership owned_again (some receipt) (some request)
          (pending_action d))
    ok owned_again
  moved_ownership d receipt request effect_confirmed = do
    wrap "confirmed effect ownership transition" (
        check_ownership_transition lib d.ownership (released_by receipt) (some receipt)
          (some request) (pending_action d))
    ok (released_by receipt)
  moved_ownership d receipt request _ = do
    wrap "effect receipt ownership transition" (
        check_ownership_transition lib d.ownership d.ownership (some receipt) (some request)
          (pending_action d))
    ok d.ownership

  -- The ownership after a receipt.
  unfoldable pub ownership_at_receipt :
      StateData → EffectReceipt → EffectRequest → Result GraphOwnership
  ownership_at_receipt d receipt request =
      if pending_action_releases_ownership d
      then (do
        refuse_if (not (is_receipt_pending d.ownership.state))
            "call ownership receipt has no admitted pending effect"
        refuse_if
            (not (is_empty receipt.target_opaque_id)
              && not (str_eq receipt.target_opaque_id request.target_opaque_id))
            "effect receipt target does not match the pending intended target"
        refuse_if
            (is_confirmed receipt.status
              && (not (str_eq receipt.target_opaque_id request.target_opaque_id)
                  || not (is_receipt_pending d.ownership.state)))
            "confirmed receipt does not match the pending intended target"
        moved_ownership d receipt request receipt.status)
      else ok d.ownership

  abbrev pub forget_request : StateData → StateData
  forget_request d = record d {
    pending_request = none;
    pending_request_validated_at = 0;
    pending_action_id = "";
    pending_request_route = "";
    pending_request_entry = "";
  }

  -- What follows the move of the ownership.
  unfoldable pub settle_receipt :
      StateData → Route → NormalizedEvent → EffectReceipt → EffectRequest → NormalizedEvent → Step
  settle_receipt d active event receipt request input =
      let target = target_for active source_effect (outcome_of receipt.status) in
      if is_await target.terminal
      then ok (
        record d { phase = awaiting_receipt },
        record (pending_effect d effect_await_receipt input request) {
          receipt_id = receipt.receipt_id;
        }
            ∷ [],
      )
      else if is_confirmed receipt.status && is_released d.ownership.state
      then (do
        refuse_if (not (is_release target.terminal))
            "frozen route does not map this confirmed receipt to ownership release"
        ok (
          record d { phase = terminal_phase; graph_ended = true; pending_request = none },
          record (pending_effect d effect_release_ownership input request) {
            receipt_id = receipt.receipt_id;
            reason = "adapter must apply the existing owner compare-and-swap";
          }
              ∷ [],
        ))
      else route_outcome lib (forget_request d) active source_effect (outcome_of receipt.status)
          event.id "" event.received_at

  -- reduceEffectReceipt
  unfoldable pub reduce_effect_receipt : StateData → Route → NormalizedEvent → Step
  reduce_effect_receipt d active event = do
    refuse_if (not (is_awaiting_receipt d.phase) || d.pending_request_validated_at == 0)
        "effect receipt has no reducer-emitted pending intent"
    request ← or_refuse d.pending_request "effect receipt has no reducer-emitted pending intent"
    input ← or_refuse d.pending_input "effect receipt has no reducer-emitted pending intent"
    receipt ← or_refuse event.effect "effect receipt has no reducer-emitted pending intent"
    refuse_if (not (equal EffectIdentity-discrete receipt.identity request.identity))
        "effect receipt identity does not match the pending reducer intent"
    wrap "effect receipt" (check_receipt lib receipt)
    check_dispatch_action lib d request d.pending_request_validated_at
    ownership ← ownership_at_receipt d receipt request
    settle_receipt (record d { ownership = ownership }) active event receipt request input
