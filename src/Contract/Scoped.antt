-- ===== src/Contract/Scoped.antt =====
-- agents/decisioncontract/v1/contract.go and validate.go: the checks that recompute a digest or
-- compare a value with the session and the snapshot that it is for.
use gobeyond.Common.{
  ℕ, String, Bool, true, not, ◌&&◌, ◌||◌, Option, none, some, List, [], ◌∷◌, ◌==◌, str_eq,
  if◌then◌else◌, equal,
}
use Prim.Native.String.{◌++◌}
use gobeyond.Contract.Types.{
  Outcome, candidate, Outcome-discrete, ToolKind-discrete, ActStep, ProtectedReference, MatchResult,
  CandidateSetSnapshot, DecisionResult, EffectIdentity, EffectRequest, EffectStatus,
  effect_submitted, effect_accepted, effect_confirmed, effect_failed, effect_unknown, EffectReceipt,
}
use gobeyond.Contract.Failure.{ok, ◌>>=◌, ◌>>◌, Check, refuse_if, wrap, or_refuse}
use gobeyond.Contract.Fields.{is_identifier, is_sha256, are_identifiers, contains_string}
use gobeyond.Contract.Checks.{
  Library, is_empty, finite_probability, check_usage, check_reference, check_match,
  check_decision_outcome, is_call_control,
}

-- strings.Join
unfoldable pub join_texts : String → List String → String
join_texts sep [] = ""
join_texts sep (s ∷ []) = s
join_texts sep (s ∷ t ∷ ss) = s ++ (sep ++ join_texts sep (t ∷ ss))

module _ (lib : Library) where
  score_fields_valid : List (String × String) → Bool
  score_fields_valid [] = true
  score_fields_valid ((name, raw) ∷ fields) =
      is_identifier name && lib.json_valid raw && score_fields_valid fields

  -- DecisionResult.Validate
  unfoldable pub check_decision : DecisionResult → Check
  unfolding score_fields_valid
  check_decision r = do
    check_decision_outcome r.outcome r.candidate_id
    refuse_if
        (not (is_identifier r.provider_ref)
          || not (is_identifier r.model_ref)
          || not (is_identifier r.revision))
        "decision result requires provider/model/revision identifiers"
    refuse_if (not (is_sha256 r.result_schema_sha256) || not (is_sha256 r.candidate_set_sha256))
        "decision result schema and candidate set digests are required"
    refuse_if
        (not (finite_probability r.asr_confidence) || not (finite_probability r.option_probability))
        "ASR confidence and option probability must be separate finite values in [0,1]"
    refuse_if (not (score_fields_valid r.provider_score_fields))
        "provider score fields must have stable names and valid JSON values"
    check_usage r.usage

  abbrev protected_digest : Option ProtectedReference → String
  protected_digest none = ""
  protected_digest (some r) = r.sha256

  -- CandidateSetSnapshot.CanonicalSHA256
  unfoldable pub canonical_sha256 : CandidateSetSnapshot → String
  canonical_sha256 s = lib.sha256_hex (
      protected_digest s.protected_snapshot
      ++ (lib.nul ++ join_texts lib.nul (lib.sort_strings s.candidate_ids)))

  -- EffectIdentity.CanonicalID
  unfoldable pub canonical_id : EffectIdentity → String
  canonical_id i = lib.sha256_hex (
      join_texts lib.nul (
        i.tenant_id
        ∷ i.session_id
        ∷ lib.format_uint i.generation
        ∷ i.route_entry_id
        ∷ i.input_id
        ∷ i.action_id
        ∷ i.graph_sha256
        ∷ []))

  -- EffectIdentity.Validate
  unfoldable pub check_identity : EffectIdentity → Check
  check_identity i = do
    refuse_if
        (not (is_identifier i.tenant_id)
          || not (is_identifier i.session_id)
          || not (is_identifier i.route_entry_id)
          || not (is_identifier i.input_id)
          || not (is_identifier i.action_id))
        "effect identity is missing a stable tenant/session/turn/input/action field"
    refuse_if (i.generation == 0) "effect identity generation must be positive"
    refuse_if (not (is_sha256 i.graph_sha256))
        "effect identity graphSha256 must be a lowercase SHA-256 digest"
    refuse_if (not (str_eq i.id (canonical_id i)))
        "effect identity ID does not match its stable idempotency fields"

  abbrev check_status : EffectReceipt → EffectStatus → Check
  check_status r effect_submitted =
      refuse_if (is_empty r.receipt_id) "submitted/accepted effect status requires its receipt ID"
  check_status r effect_accepted =
      refuse_if (is_empty r.receipt_id) "submitted/accepted effect status requires its receipt ID"
  check_status r effect_confirmed =
      refuse_if (is_empty r.receipt_id || is_empty r.provider_request_id)
        "confirmed effect requires receipt and provider request IDs"
  check_status r effect_failed =
      refuse_if (is_empty r.failure_code || is_empty r.receipt_id)
        "failed effect requires receipt ID and failure code"
  check_status r effect_unknown = ok tt

  -- EffectReceipt.Validate
  unfoldable pub check_receipt : EffectReceipt → Check
  check_receipt r = do
    check_identity r.identity
    refuse_if (r.observed_at == 0) "effect receipt observedAt is required"
    check_status r r.status

  abbrev check_payload : EffectIdentity → ℕ → Option ProtectedReference → Check
  check_payload i now none = ok tt
  check_payload i now (some p) =
      wrap "protected effect payload" (check_reference p i.tenant_id i.session_id i.generation now)

  -- EffectRequest.Validate; a known effect kind is a constructor.
  unfoldable pub check_request : EffectRequest → ℕ → Check
  check_request r now = do
    check_identity r.identity
    refuse_if (not (is_identifier r.tool_id))
        "effect request requires an inherited tool ID and known effect kind"
    refuse_if (not (is_empty r.target_binding) && not (is_identifier r.target_binding))
        "effect request target binding must be a stable identifier"
    refuse_if (is_call_control r.kind && not r.reauthorize_at_execution)
        "call-control effects require current authorization at execution"
    refuse_if (is_call_control r.kind && not (is_identifier r.target_opaque_id))
        "call-control effects require an opaque authorized target ID"
    refuse_if
        (is_call_control r.kind
          && (not (is_identifier r.target_binding) || not (is_sha256 r.candidate_set_sha256)))
        "call-control effects require an authorized target binding and candidate-set digest"
    refuse_if (not (is_empty r.candidate_set_sha256) && not (is_sha256 r.candidate_set_sha256))
        "effect request candidate-set digest must be a lowercase SHA-256 digest"
    check_payload r.identity now r.payload

  -- CandidateSetSnapshot.ValidateFor
  unfoldable pub check_snapshot : CandidateSetSnapshot → String → String → ℕ → ℕ → Check
  check_snapshot s tenant session generation now = do
    reference ←
        or_refuse s.protected_snapshot
          "candidate set requires a protected authorized snapshot reference"
    wrap "candidate snapshot" (check_reference reference tenant session generation now)
    refuse_if (not (str_eq reference.purpose "directory-snapshot"))
        "candidate snapshot reference must have directory-snapshot purpose"
    refuse_if (not (are_identifiers [] s.candidate_ids))
        "authorized candidate IDs must be stable and unique"
    refuse_if (not (is_sha256 s.sha256) || not (str_eq s.sha256 (canonical_sha256 s)))
        "candidate set digest does not match its protected snapshot and opaque IDs"

  abbrev pub is_candidate : Outcome → Bool
  is_candidate outcome = equal Outcome-discrete outcome candidate

  -- MatchResult.ValidateAgainst
  unfoldable pub check_match_against :
      MatchResult → CandidateSetSnapshot → String → String → ℕ → ℕ → Check
  check_match_against r s tenant session generation now = do
    check_match r
    check_snapshot s tenant session generation now
    refuse_if (not (str_eq r.snapshot_sha256 s.sha256))
        "match result snapshot digest does not match the authorized candidate set"
    refuse_if (is_candidate r.outcome && not (contains_string s.candidate_ids r.candidate_id))
        "match result candidate is outside the authorized candidate set"

  -- DecisionResult.ValidateAgainst
  unfoldable pub check_decision_against :
      DecisionResult → CandidateSetSnapshot → String → String → ℕ → ℕ → Check
  check_decision_against r s tenant session generation now = do
    check_decision r
    check_snapshot s tenant session generation now
    refuse_if (not (str_eq r.candidate_set_sha256 s.sha256))
        "decision result candidate set digest does not match the authorized snapshot"
    refuse_if (is_candidate r.outcome && not (contains_string s.candidate_ids r.candidate_id))
        "decision result candidate is outside the authorized candidate set"

  -- The end of ValidateAgainst, for call control.
  abbrev check_target :
      EffectRequest → Option CandidateSetSnapshot → String → String → ℕ → ℕ → Check
  check_target r snapshot tenant session generation now = do
    s ←
        or_refuse snapshot
          "call-control effect requires the authorized candidate snapshot before dispatch"
    check_snapshot s tenant session generation now
    refuse_if (not (str_eq r.candidate_set_sha256 s.sha256))
        "effect request candidate-set digest does not match the authorized snapshot"
    refuse_if (not (contains_string s.candidate_ids r.target_opaque_id))
        "effect target is outside the authorized candidate set"

  -- EffectRequest.ValidateAgainst
  unfoldable pub check_request_against :
      EffectRequest → ActStep → Option CandidateSetSnapshot → String → String → ℕ → ℕ → Check
  check_request_against r action snapshot tenant session generation now = do
    check_request r now
    refuse_if
        (not (str_eq r.identity.tenant_id tenant)
          || not (str_eq r.identity.session_id session)
          || not (r.identity.generation == generation))
        "effect request scope does not match the authorized candidate snapshot"
    refuse_if
        (not (str_eq r.identity.action_id action.id)
          || not (str_eq r.tool_id action.tool_id)
          || not (equal ToolKind-discrete r.kind action.kind)
          || not (str_eq r.target_binding action.target_binding))
        "effect request does not match the frozen route action and target binding"
    refuse_if
        (action.releases_call_ownership
          && (not action.reauthorize_at_execution || not (is_call_control r.kind)))
        "call ownership release requires a reauthorized call-control action"
    if is_call_control r.kind then check_target r snapshot tenant session generation now else ok tt
