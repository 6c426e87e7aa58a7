-- ===== src/Contract/Types.antt =====
-- agents/decisioncontract/v1/contract.go: graphs, events, effects and ownership. A named string type
-- with constants is a data type of them; the empty string of one that may be left out is `none`. A
-- time is in nanoseconds, and 0 is the zero time. Fields that only an adapter reads are left out.
use gobeyond.Common.{String-discrete, ℕ, String, Bool, Option, List}
use gobeyond.Common.Int.{ℤ}
use native.Mathlib.Decide.{ℕ_discrete}

-- The budget dimensions that the reducer counts.
pub data BudgetDimension : Type 0 where
  budget_route_visits budget_decision_calls budget_reprompts budget_effect_attempts :
      BudgetDimension
  budget_no_input_reprompts budget_no_match_reprompts budget_ambiguous_reprompts : BudgetDimension

-- The Value of a Bound; `none` is an unresolved threshold.
abbrev pub Bound : Type 0
Bound = Option ℕ

-- A missing key is the outer `none`.
abbrev pub Budgets : Type 0
Budgets = BudgetDimension → Option Bound

pub data InputModality : Type 0 where
  speech_final dtmf_complete text_input : InputModality

pub data ChannelKind : Type 0 where
  voice_channel text_channel : ChannelKind

pub record SayStep : Type 0 where
  pub families : List String

pub record ListenStep : Type 0 where
  pub accept : List InputModality

pub data NoMatchBehavior : Type 0 where
  no_match_to_decision no_match_to_route : NoMatchBehavior

pub record MatchStep : Type 0 where
  pub binding_id : String
  pub on_no_match : NoMatchBehavior

pub record DecideStep : Type 0 where
  pub service_id : String

-- contract.EffectKind
pub data ToolKind : Type 0 where
  connect handoff write custom : ToolKind

pub record ActStep : Type 0 where
  pub id : String
  pub tool_id : String
  pub kind : ToolKind
  pub target_binding : String
  pub reauthorize_at_execution : Bool
  pub releases_call_ownership : Bool

pub data ResultSource : Type 0 where
  source_input source_match source_decision source_effect source_playback source_control :
      ResultSource

pub data Outcome : Type 0 where
  final_input no_input utterance_limit candidate no_match ambiguous refusal error unavailable :
      Outcome
  accepted confirmed failed unknown completed cleared cancelled disconnected exhausted : Outcome

pub data RoutePhase : Type 0 where
  say_phase listen_phase match_phase decide_phase act_phase : RoutePhase

pub data TerminalAction : Type 0 where
  end_session end_graph release_call_ownership await_receipt safe_stop : TerminalAction

-- An empty Route is "".
pub record Target : Type 0 where
  pub route : String
  pub phase : Option RoutePhase
  pub terminal : Option TerminalAction

pub record OutcomeTransition : Type 0 where
  pub source : ResultSource
  pub outcome : Outcome
  pub target : Target

pub record Route : Type 0 where
  pub id : String
  pub budget_overrides : Budgets
  pub say : Option SayStep
  pub listen : Option ListenStep
  pub matcher : Option MatchStep
  pub decide : Option DecideStep
  pub act : List ActStep
  pub next : List OutcomeTransition
  pub fallback : Target
  pub retry_group : String

pub record RetryGroup : Type 0 where
  pub id : String
  pub max_reprompts : Bound
  pub max_no_input_reprompts : Bound
  pub max_no_match_reprompts : Bound
  pub max_ambiguous_reprompts : Bound
  pub exhausted : Target

pub record RetryCounter : Type 0 where
  pub group_id : String
  pub logical_task_id : String
  pub reprompts : ℕ
  pub no_input_reprompts : ℕ
  pub no_match_reprompts : ℕ
  pub ambiguous_reprompts : ℕ
  pub counted_admission_event_ids : List String

pub record Graph : Type 0 where
  pub entry : String
  pub fallback : String
  pub routes : List Route
  pub budgets : Budgets
  pub retry_groups : List RetryGroup

-- Of the digest inputs, the graph's.
pub record Definition : Type 0 where
  pub graph : Graph
  pub graph_digest : String

pub record ProtectedReference : Type 0 where
  pub id : String
  pub purpose : String
  pub tenant_id : String
  pub session_id : String
  pub generation : ℕ
  pub sha256 : String
  pub expires_at : ℕ

pub record MatchResult : Type 0 where
  pub outcome : Outcome
  pub candidate_id : String
  pub snapshot_sha256 : String
  pub binding_id : String

pub record CandidateSetSnapshot : Type 0 where
  pub sha256 : String
  pub candidate_ids : List String
  pub protected_snapshot : Option ProtectedReference

-- A float64; a finite one is a fraction, and `finite n d` is n / (d + 1).
pub data Float : Type 0 where
  not_a_number infinite : Float
  finite : ℤ → ℕ → Float

pub data UsageStatus : Type 0 where
  usage_measured usage_provider_reported usage_estimated usage_missing : UsageStatus

pub record UsageUnit : Type 0 where
  pub kind : String
  pub amount : Float

pub record UsageRecord : Type 0 where
  pub request_id : String
  pub status : UsageStatus
  pub units : List UsageUnit
  pub cost_micros : Option ℕ

-- A raw JSON value is its text.
pub record DecisionResult : Type 0 where
  pub outcome : Outcome
  pub candidate_id : String
  pub provider_ref : String
  pub model_ref : String
  pub revision : String
  pub result_schema_sha256 : String
  pub candidate_set_sha256 : String
  pub provider_score_fields : List (String × String)
  pub asr_confidence : Option Float
  pub option_probability : Option Float
  pub usage : UsageRecord

pub record EffectIdentity : Type 0 where
  pub id : String
  pub tenant_id : String
  pub session_id : String
  pub generation : ℕ
  pub route_entry_id : String
  pub input_id : String
  pub action_id : String
  pub graph_sha256 : String

pub record EffectRequest : Type 0 where
  pub identity : EffectIdentity
  pub tool_id : String
  pub kind : ToolKind
  pub target_binding : String
  pub target_opaque_id : String
  pub candidate_set_sha256 : String
  pub payload : Option ProtectedReference
  pub reauthorize_at_execution : Bool

pub data EffectStatus : Type 0 where
  effect_submitted effect_accepted effect_confirmed effect_failed effect_unknown : EffectStatus

pub record EffectReceipt : Type 0 where
  pub identity : EffectIdentity
  pub status : EffectStatus
  pub receipt_id : String
  pub provider_request_id : String
  pub target_opaque_id : String
  pub failure_code : String
  pub observed_at : ℕ

pub record PlaybackReceipt : Type 0 where
  pub operation_id : String
  pub outcome : Outcome
  pub receipt_id : String
  pub observed_at : ℕ

pub data EventKind : Type 0 where
  session_admitted route_entered speech_started input_final input_error initial_silence : EventKind
  utterance_limit_reached retry_exhausted playback_started playback_completed playback_cleared :
      EventKind
  playback_failed match_completed decision_completed submitted_effect receipt_of_effect : EventKind
  handoff_accepted session_disconnected session_cancelled : EventKind

pub record NormalizedEvent : Type 0 where
  pub id : String
  pub kind : EventKind
  pub tenant_id : String
  pub session_id : String
  pub generation : ℕ
  pub route_id : String
  pub route_entry_id : String
  pub input_window_id : String
  pub channel : ChannelKind
  pub modality : Option InputModality
  pub locale : String
  pub protected_input : Option ProtectedReference
  pub digits : String
  pub source_event_ids : List String
  pub received_at : ℕ
  pub match_result : Option MatchResult
  pub decision : Option DecisionResult
  pub effect_request : Option EffectRequest
  pub effect : Option EffectReceipt
  pub playback : Option PlaybackReceipt

-- InputWindowIdentity
pub record InputWindow : Type 0 where
  pub tenant_id : String
  pub session_id : String
  pub generation : ℕ
  pub route_id : String
  pub route_entry_id : String
  pub input_window_id : String
  pub channel : ChannelKind

pub data OwnershipState : Type 0 where
  owned receipt_pending released : OwnershipState

pub record GraphOwnership : Type 0 where
  pub state : OwnershipState
  pub pending_effect_id : String
  pub pending_target_binding : String
  pub pending_target_opaque_id : String
  pub pending_candidate_set_sha256 : String
  pub release_receipt_id : String

-- Comparisons with `==` and reflect.DeepEqual.
unfoldable pub Outcome-discrete : Discrete Outcome
Outcome-discrete = hlevel

unfoldable pub ResultSource-discrete : Discrete ResultSource
ResultSource-discrete = hlevel

unfoldable pub InputModality-discrete : Discrete InputModality
InputModality-discrete = hlevel

unfoldable pub ToolKind-discrete : Discrete ToolKind
ToolKind-discrete = hlevel

unfoldable pub ChannelKind-discrete : Discrete ChannelKind
ChannelKind-discrete = hlevel

unfoldable pub EffectIdentity-discrete : Discrete EffectIdentity
EffectIdentity-discrete = hlevel (ℕ_discrete, String-discrete)

unfoldable pub ProtectedReference-discrete : Discrete ProtectedReference
ProtectedReference-discrete = hlevel (ℕ_discrete, String-discrete)

unfoldable pub EffectRequest-discrete : Discrete EffectRequest
EffectRequest-discrete =
    hlevel
      (EffectIdentity-discrete, ToolKind-discrete, ProtectedReference-discrete, String-discrete)

unfoldable pub GraphOwnership-discrete : Discrete GraphOwnership
GraphOwnership-discrete = hlevel String-discrete
