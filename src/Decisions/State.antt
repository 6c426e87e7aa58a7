-- ===== src/Decisions/State.antt =====
-- agents/decisions/reducer.go: the effects, the events and the state of the reducer. The maps are
-- association lists, a nil pointer is `none`, and `stateData` is a value: a copy of it is itself.
-- The counters are natural numbers; every increment is guarded by a ceiling.
use gobeyond.Common.{ℕ, String, Bool, Option, List}
use gobeyond.Common.Maps.{Map}
use gobeyond.Contract.Types.{
  Outcome, InputModality, ChannelKind, CandidateSetSnapshot, RetryCounter, EffectRequest,
  NormalizedEvent, GraphOwnership, Definition,
}
use gobeyond.Contract.Checks.{Library}

pub data Phase : Type 0 where
  listening matching deciding acting awaiting_receipt full_agent_fallback terminal_phase stopped :
      Phase

pub data EffectKind : Type 0 where
  effect_enter_route effect_say effect_listen effect_refresh_candidates effect_run_matcher :
      EffectKind
  effect_run_decision effect_dispatch_intent effect_full_agent_fallback effect_await_receipt :
      EffectKind
  effect_end_graph effect_end_session effect_release_ownership effect_safe_stop : EffectKind

-- Without Target, which the reducer never sets.
pub record Effect : Type 0 where
  pub kind : EffectKind
  pub route_id : String
  pub route_entry_id : String
  pub playback_operation_id : String
  pub input_window_id : String
  pub binding_id : String
  pub input_id : String
  pub service_id : String
  pub action_id : String
  pub message_families : List String
  pub accept : List InputModality
  pub request : Option EffectRequest
  pub receipt_id : String
  pub reason : String

pub record BoundCandidateSnapshot : Type 0 where
  pub binding_id : String
  pub route_id : String
  pub route_entry_id : String
  pub snapshot : CandidateSetSnapshot

pub record SnapshotRefresh : Type 0 where
  pub id : String
  pub tenant_id : String
  pub session_id : String
  pub generation : ℕ
  pub route_id : String
  pub route_entry_id : String
  pub received_at : ℕ
  pub bound : BoundCandidateSnapshot

-- Any text that is not one of the constants is `control_other`.
pub data ControlCommand : Type 0 where
  control_repeat control_help control_cancel control_other : ControlCommand

pub record ControlResult : Type 0 where
  pub id : String
  pub tenant_id : String
  pub session_id : String
  pub generation : ℕ
  pub route_id : String
  pub route_entry_id : String
  pub input_id : String
  pub binding_id : String
  pub snapshot_sha256 : String
  pub command : ControlCommand
  pub received_at : ℕ

pub record FullAgentResult : Type 0 where
  pub id : String
  pub tenant_id : String
  pub session_id : String
  pub generation : ℕ
  pub route_id : String
  pub route_entry_id : String
  pub input_id : String
  pub outcome : Outcome
  pub received_at : ℕ

pub record Event : Type 0 where
  pub normalized : Option NormalizedEvent
  pub input_id : String
  pub snapshot : Option SnapshotRefresh
  pub control : Option ControlResult
  pub fallback : Option FullAgentResult

-- Policy is its only field, FullAgentFallbackLimit.
pub record Policy : Type 0 where
  pub full_agent_fallback_limit : Option ℕ

pub record RetryTotals : Type 0 where
  pub reprompts : ℕ
  pub no_input_reprompts : ℕ
  pub no_match_reprompts : ℕ
  pub ambiguous_reprompts : ℕ

pub record RouteBudgetUsage : Type 0 where
  pub visits : ℕ
  pub decision_calls : ℕ
  pub effect_attempts : ℕ
  pub retries : RetryTotals

pub record SessionScope : Type 0 where
  pub tenant_id : String
  pub session_id : String
  pub generation : ℕ
  pub channel : ChannelKind
  pub locale : String

pub record StateData : Type 0 where
  pub definition : Definition
  pub scope : SessionScope
  pub policy : Policy
  pub route_id : String
  pub route_entry_id : String
  pub phase : Phase
  pub input_window_id : String
  pub input_window_open : Bool
  pub logical_task_id : String
  pub route_visits : ℕ
  pub decision_calls : ℕ
  pub effect_attempts : ℕ
  pub full_agent_fallbacks : ℕ
  pub retry_counters : Map RetryCounter
  pub session_retry_totals : RetryTotals
  pub route_budget_usage : Map RouteBudgetUsage
  pub processed_events : Map String
  pub candidate_snapshot : Option BoundCandidateSnapshot
  pub pending_input : Option NormalizedEvent
  pub pending_match : Bool
  pub pending_decision : Bool
  pub pending_fallback : Bool
  pub selected_candidate_id : String
  pub pending_request : Option EffectRequest
  pub pending_request_validated_at : ℕ
  pub pending_action_id : String
  pub pending_request_route : String
  pub pending_request_entry : String
  pub pending_say_operation_id : String
  pub say_sequence : ℕ
  pub ownership : GraphOwnership
  pub graph_ended : Bool
  pub session_ended : Bool

-- What the reducer calls outside the repository: the contract's library, and json.Marshal on an
-- event.
pub record Tools : Type 0 where
  pub library : Library
  pub event_json : Event → String

-- The zero values.
abbrev pub no_totals : RetryTotals
no_totals = record {
  reprompts = 0;
  no_input_reprompts = 0;
  no_match_reprompts = 0;
  ambiguous_reprompts = 0;
}

abbrev pub no_usage : RouteBudgetUsage
no_usage = record { visits = 0; decision_calls = 0; effect_attempts = 0; retries = no_totals }
