-- ===== src/Decisions/Lookup.antt =====
-- agents/decisions/reducer.go: what the reducer looks up in its state and its frozen definition, the
-- identifiers that it derives, and the room that a budget leaves.
use gobeyond.Common.{
  ℕ, zero, suc, String, Bool, true, false, ◌&&◌, ◌||◌, Option, none, some, List, [], ◌∷◌, ltb,
  str_eq, if◌then◌else◌, equal,
}
use gobeyond.Common.Maps.{lookup}
use Prim.Native.String.{◌++◌}
use gobeyond.Contract.Types.{
  BudgetDimension, Bound, InputModality, InputModality-discrete, ResultSource,
  ResultSource-discrete, Outcome, Outcome-discrete, no_input, no_match, ambiguous, final_input,
  utterance_limit, candidate, refusal, error, unavailable, accepted, confirmed, failed, unknown,
  completed, cleared, cancelled, disconnected, exhausted, Target, OutcomeTransition, Route, ActStep,
  RetryGroup, Definition,
}
use gobeyond.Contract.Checks.{Library}
use gobeyond.Decisions.State.{RouteBudgetUsage, StateData, no_usage}

unfoldable pub find_route_in : List Route → String → Option Route
find_route_in [] id = none
find_route_in (r ∷ rs) id =
    let rest = find_route_in rs id in if str_eq r.id id then some r else rest

-- findRoute
unfoldable pub find_route : Definition → String → Option Route
unfolding find_route_in
find_route d id = find_route_in d.graph.routes id

unfoldable pub find_action_in : List ActStep → String → Option ActStep
find_action_in [] id = none
find_action_in (a ∷ actions) id =
    let rest = find_action_in actions id in if str_eq a.id id then some a else rest

-- findAction
unfoldable pub find_action : Route → String → Option ActStep
unfolding find_action_in
find_action r id = find_action_in r.act id

find_retry_group_in : List RetryGroup → String → Option RetryGroup
find_retry_group_in [] id = none
find_retry_group_in (g ∷ gs) id =
    let rest = find_retry_group_in gs id in if str_eq g.id id then some g else rest

-- findRetryGroup
unfoldable pub find_retry_group : Definition → String → Option RetryGroup
unfolding find_retry_group_in
find_retry_group d id = find_retry_group_in d.graph.retry_groups id

abbrev same_edge : OutcomeTransition → ResultSource → Outcome → Bool
same_edge t source outcome =
    equal ResultSource-discrete t.source source && equal Outcome-discrete t.outcome outcome

unfoldable pub target_in : List OutcomeTransition → ResultSource → Outcome → Target → Target
target_in [] source outcome fallback = fallback
target_in (t ∷ ts) source outcome fallback =
    let rest = target_in ts source outcome fallback in
    if same_edge t source outcome then t.target else rest

-- targetFor
unfoldable pub target_for : Route → ResultSource → Outcome → Target
unfolding target_in
target_for r source outcome = target_in r.next source outcome r.fallback

-- An entry of routeBudgetUsage, or its zero value.
unfoldable pub usage_of : StateData → String → RouteBudgetUsage
usage_of d id = elim (lookup id d.route_budget_usage) [ none ↦ no_usage | some usage ↦ usage ]

-- `used < *bound.Value`
abbrev pub below : ℕ → Bound → Bool
below used none = false
below used (some most) = ltb used most

-- The test of a session ceiling, which has to be there.
abbrev pub within_ceiling : ℕ → Option Bound → Bool
within_ceiling used none = false
within_ceiling used (some bound) = below used bound

-- The test of an override, which may be missing.
abbrev pub within_override : ℕ → Option Bound → Bool
within_override used none = true
within_override used (some bound) = below used bound

-- budgetHasRoom
unfoldable pub budget_has_room : StateData → String → BudgetDimension → ℕ → ℕ → Bool
budget_has_room d id dimension session_used route_used =
    if within_ceiling session_used (d.definition.graph.budgets dimension)
    then (elim (find_route d.definition id) [
      | none ↦ false
      | some route ↦ within_override route_used (route.budget_overrides dimension)
    ])
    else false

-- pendingAction
unfoldable pub pending_action : StateData → Option ActStep
pending_action d = elim (find_route d.definition d.pending_request_route) [
  | none ↦ none
  | some route ↦ find_action route d.pending_action_id
]

-- pendingActionReleasesOwnership
unfoldable pub pending_action_releases_ownership : StateData → Bool
pending_action_releases_ownership d = elim (pending_action d) [
  | none ↦ false
  | some action ↦ action.releases_call_ownership
]

-- canUseFullAgent
unfoldable pub can_use_full_agent : StateData → Bool
can_use_full_agent d = below d.full_agent_fallbacks d.policy.full_agent_fallback_limit

-- inputID
abbrev pub input_id : StateData → String
input_id d = elim d.pending_input [ none ↦ "" | some event ↦ event.id ]

-- snapshotDigest
abbrev pub snapshot_digest : StateData → String
snapshot_digest d = elim d.candidate_snapshot [ none ↦ "" | some bound ↦ bound.snapshot.sha256 ]

-- retryReason
abbrev pub retry_reason : Outcome → String
retry_reason no_input = "no_input"
retry_reason no_match = "no_match"
retry_reason ambiguous = "ambiguous"
retry_reason _ = ""

-- The text of an outcome.
abbrev pub outcome_text : Outcome → String
outcome_text final_input = "final_input"
outcome_text no_input = "no_input"
outcome_text utterance_limit = "utterance_limit"
outcome_text candidate = "candidate"
outcome_text no_match = "no_match"
outcome_text ambiguous = "ambiguous"
outcome_text refusal = "refusal"
outcome_text error = "error"
outcome_text unavailable = "unavailable"
outcome_text accepted = "accepted"
outcome_text confirmed = "confirmed"
outcome_text failed = "failed"
outcome_text unknown = "unknown"
outcome_text completed = "completed"
outcome_text cleared = "cleared"
outcome_text cancelled = "cancelled"
outcome_text disconnected = "disconnected"
outcome_text exhausted = "exhausted"

-- containsModality; an empty modality is none of the accepted ones.
contains : List InputModality → InputModality → Bool
contains [] modality = false
contains (m ∷ ms) modality = equal InputModality-discrete m modality || contains ms modality

unfoldable pub contains_modality : List InputModality → Option InputModality → Bool
unfolding contains
contains_modality accept none = false
contains_modality accept (some modality) = contains accept modality

-- The first characters of a text.
unfoldable pub first_characters : ℕ → String → String
first_characters zero s = ""
first_characters (suc n) String.[] = ""
first_characters (suc n) (String.◌∷◌ c s) = String.◌∷◌ c (first_characters n s)

module _ (lib : Library) where
  -- hex.EncodeToString(digest[:12]), the first 24 of the digest's digits.
  abbrev short_digest : String → String
  short_digest text = first_characters 24 (lib.sha256_hex text)

  -- nextRouteEntry
  unfoldable pub next_route_entry : String → String → String → String
  next_route_entry previous cause route =
      "entry-" ++ short_digest (previous ++ (lib.nul ++ (cause ++ (lib.nul ++ route))))

  -- windowID
  unfoldable pub window_id : String → String
  window_id entry = "window-" ++ short_digest ("input-window" ++ (lib.nul ++ entry))

  -- playbackOperationID
  unfoldable pub playback_operation_id : String → ℕ → String
  playback_operation_id entry sequence =
      "playback-"
      ++ short_digest ("playback" ++ (lib.nul ++ (entry ++ (lib.nul ++ lib.format_uint sequence))))
