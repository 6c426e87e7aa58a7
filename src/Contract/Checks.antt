-- ===== src/Contract/Checks.antt =====
-- agents/decisioncontract/v1/validate.go: the checks of snapshots, results, requests and receipts.
-- The library functions that they call on a whole value are fields of `Library`.
use gobeyond.Common.{
  ℕ, suc, ◌+◌, ◌-◌, String, Bool, true, false, not, ◌&&◌, ◌||◌, Option, none, some, List, [], ◌∷◌,
  ltb, leb, ◌==◌, str_eq, is_some, length,
}
use gobeyond.Common.Int.{pos, negsuc}
use gobeyond.Contract.Types.{
  Outcome, candidate, no_match, ambiguous, refusal, error, unavailable, completed, cleared,
  failed as outcome_failed, ToolKind, connect, handoff, write, custom, ProtectedReference,
  MatchResult, Float, not_a_number, infinite, finite, UsageStatus, usage_measured,
  usage_provider_reported, usage_estimated, usage_missing, UsageUnit, UsageRecord, PlaybackReceipt,
  RetryGroup, RetryCounter,
}
use gobeyond.Contract.Failure.{message, ok, failed, ◌>>=◌, ◌>>◌, Check, refuse_if, or_refuse}
use gobeyond.Contract.Fields.{is_identifier, is_sha256, are_identifiers}

-- crypto/sha256, encoding/hex, encoding/json, strconv and sort, as the package uses them.
pub record Library : Type 0 where
  -- The hexadecimal SHA-256 digest of a text.
  pub sha256_hex : String → String
  -- json.Valid
  pub json_valid : String → Bool
  -- strconv.FormatUint, with base 10
  pub format_uint : ℕ → String
  -- The byte 0 as a text.
  pub nul : String
  -- sort.Strings
  pub sort_strings : List String → List String

abbrev pub is_empty : String → Bool
is_empty s = str_eq s ""

-- finiteProbability
unfoldable pub finite_probability : Option Float → Bool
finite_probability none = true
finite_probability (some not_a_number) = false
finite_probability (some infinite) = false
finite_probability (some (finite (pos n) d)) = leb n (suc d)
finite_probability (some (finite (negsuc n) d)) = false

abbrev is_bad_amount : Float → Bool
is_bad_amount not_a_number = true
is_bad_amount infinite = true
is_bad_amount (finite (pos n) d) = false
is_bad_amount (finite (negsuc n) d) = true

check_units : List UsageUnit → Check
check_units [] = ok tt
check_units (unit ∷ units) = do
  refuse_if (not (is_identifier unit.kind) || is_bad_amount unit.amount)
      "usage units require a stable kind and finite non-negative amount"
  check_units units

abbrev check_usage_status : UsageStatus → Option ℕ → Check
check_usage_status usage_measured cost =
    refuse_if (not (is_some cost)) "usage status requires a cost value"
check_usage_status usage_provider_reported cost =
    refuse_if (not (is_some cost)) "usage status requires a cost value"
check_usage_status usage_estimated cost =
    refuse_if (not (is_some cost)) "usage status requires a cost value"
check_usage_status usage_missing cost =
    refuse_if (is_some cost) "missing usage cannot claim a cost value"

-- UsageRecord.Validate
unfoldable pub check_usage : UsageRecord → Check
unfolding check_units
check_usage usage = do check_usage_status usage.status usage.cost_micros; check_units usage.units

-- ProtectedReference.ValidateFor; the scope is tenant, session and generation, and `now` may be 0.
unfoldable pub check_reference : ProtectedReference → String → String → ℕ → ℕ → Check
check_reference r tenant session generation now = do
  refuse_if (not (is_identifier r.id) || not (is_identifier r.purpose))
      "protected reference ID and purpose are required"
  refuse_if
      (not (str_eq r.tenant_id tenant)
        || not (str_eq r.session_id session)
        || not (r.generation == generation))
      "protected reference scope does not match the event"
  refuse_if (not (is_sha256 r.sha256)) "protected reference requires a lowercase SHA-256 digest"
  refuse_if (r.expires_at == 0 || not (now == 0) && not (ltb now r.expires_at))
      "protected reference is expired or has no expiry"

abbrev pub is_call_control : ToolKind → Bool
is_call_control connect = true
is_call_control handoff = true
is_call_control write = false
is_call_control custom = false

abbrev pub is_failed : Check → Bool
is_failed (ok _) = false
is_failed (failed _) = true

-- RetryCounter.ValidateFor; the first tests bound each subtraction of the last loop.
unfoldable pub check_counter : RetryCounter → RetryGroup → Check
check_counter c group = do
  refuse_if (not (str_eq c.group_id group.id) || not (is_identifier c.logical_task_id))
      "retry counter requires the matching group and stable logical task ID"
  most ← or_refuse group.max_reprompts "retry counter cannot run while its limits are unresolved"
  most_no_input ←
      or_refuse group.max_no_input_reprompts
        "retry counter cannot run while its limits are unresolved"
  most_no_match ←
      or_refuse group.max_no_match_reprompts
        "retry counter cannot run while its limits are unresolved"
  most_ambiguous ←
      or_refuse group.max_ambiguous_reprompts
        "retry counter cannot run while its limits are unresolved"
  refuse_if
      (ltb most c.reprompts
        || ltb most_no_input c.no_input_reprompts
        || ltb most_no_match c.no_match_reprompts
        || ltb most_ambiguous c.ambiguous_reprompts)
      "retry counter exceeds its qualified group limits"
  refuse_if
      (ltb c.reprompts c.no_input_reprompts
        || ltb c.reprompts c.no_match_reprompts
        || ltb c.reprompts c.ambiguous_reprompts
        || not (length c.counted_admission_event_ids == c.reprompts))
      "retry counter admissions must align with unique reprompt event IDs"
  refuse_if
      (ltb (c.reprompts - c.no_input_reprompts) c.no_match_reprompts
        || ltb (c.reprompts - (c.no_input_reprompts + c.no_match_reprompts)) c.ambiguous_reprompts)
      "per-reason retry counters exceed the total reprompt count"
  refuse_if (not (are_identifiers [] c.counted_admission_event_ids))
      "retry counter admission event IDs must be stable and unique"

abbrev check_match_outcome : Outcome → String → Check
check_match_outcome candidate id =
    refuse_if (not (is_identifier id)) "candidate match requires an opaque candidate ID"
check_match_outcome no_match id =
    refuse_if (not (is_empty id)) "non-candidate match cannot carry a candidate ID"
check_match_outcome ambiguous id =
    refuse_if (not (is_empty id)) "non-candidate match cannot carry a candidate ID"
check_match_outcome error id =
    refuse_if (not (is_empty id)) "non-candidate match cannot carry a candidate ID"
check_match_outcome _ id = failed (message "unknown match outcome")

-- MatchResult.Validate
unfoldable pub check_match : MatchResult → Check
check_match r = do
  check_match_outcome r.outcome r.candidate_id
  refuse_if (not (is_identifier r.binding_id) || not (is_sha256 r.snapshot_sha256))
      "match result requires binding ID and snapshot digest"

abbrev pub check_decision_outcome : Outcome → String → Check
check_decision_outcome candidate id =
    refuse_if (not (is_identifier id)) "candidate result requires an opaque candidate ID"
check_decision_outcome no_match id =
    refuse_if (not (is_empty id)) "non-candidate result cannot carry a candidate ID"
check_decision_outcome ambiguous id =
    refuse_if (not (is_empty id)) "non-candidate result cannot carry a candidate ID"
check_decision_outcome refusal id =
    refuse_if (not (is_empty id)) "non-candidate result cannot carry a candidate ID"
check_decision_outcome error id =
    refuse_if (not (is_empty id)) "non-candidate result cannot carry a candidate ID"
check_decision_outcome unavailable id =
    refuse_if (not (is_empty id)) "non-candidate result cannot carry a candidate ID"
check_decision_outcome _ id = failed (message "unknown decision outcome")

-- PlaybackReceipt.Validate
abbrev check_playback_outcome : Outcome → Check
check_playback_outcome completed = ok tt
check_playback_outcome cleared = ok tt
check_playback_outcome outcome_failed = ok tt
check_playback_outcome _ = failed (message "unknown playback receipt outcome")

unfoldable pub check_playback : PlaybackReceipt → Check
check_playback r = do
  refuse_if
      (not (is_identifier r.operation_id) || not (is_identifier r.receipt_id) || r.observed_at == 0)
      "playback receipt requires operation, receipt, and observed-time fields"
  check_playback_outcome r.outcome
