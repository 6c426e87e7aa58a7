-- ===== src/Decisions/Steps.antt =====
-- agents/decisions/reducer.go: the steps on the state that the reducer composes: entering a route,
-- admitting a retry, ending, speaking, listening and matching.
use gobeyond.Common.{
  suc, String, Bool, true, false, not, ◌&&◌, Option, none, some, List, [], ◌∷◌, ◌++◌, ltb, str_eq,
  if◌then◌else◌, count,
}
use gobeyond.Common.Maps.{lookup, insert}
use gobeyond.Contract.Types.{
  budget_reprompts, budget_no_input_reprompts, budget_no_match_reprompts,
  budget_ambiguous_reprompts, MatchStep, Target, TerminalAction, end_session, end_graph,
  release_call_ownership, await_receipt, Route, RetryGroup, RetryCounter,
}
use gobeyond.Contract.Failure.{Result, ok, ◌>>=◌, ◌>>◌, wrap, or_refuse}
use gobeyond.Contract.Checks.{check_counter}
use gobeyond.Decisions.State.{
  awaiting_receipt, terminal_phase, stopped, EffectKind, effect_refresh_candidates,
  effect_run_matcher, effect_await_receipt, effect_end_graph, effect_end_session, effect_safe_stop,
  Effect, RetryTotals, StateData,
}
use gobeyond.Decisions.Lookup.{find_retry_group, usage_of, below, budget_has_room, input_id}

-- The state and the effects, or the error of a step.
abbrev pub Step : Type 0
Step = Result (StateData × List Effect)

-- An effect for the active route entry, with no other field.
abbrev pub effect_at : StateData → EffectKind → Effect
effect_at d kind = record {
  kind = kind;
  route_id = d.route_id;
  route_entry_id = d.route_entry_id;
  playback_operation_id = "";
  input_window_id = "";
  binding_id = "";
  input_id = "";
  service_id = "";
  action_id = "";
  message_families = [];
  accept = [];
  request = none;
  receipt_id = "";
  reason = "";
}

-- A safe stop that leaves the input window as it is.
abbrev pub stop : StateData → String → StateData × List Effect
stop d text =
    (record d { phase = stopped }, record (effect_at d effect_safe_stop) { reason = text } ∷ [])

-- matchEffects
unfoldable pub match_effects : StateData → MatchStep → List Effect
match_effects d matcher = elim d.candidate_snapshot [
  | none ↦
      record (effect_at d effect_refresh_candidates) {
        binding_id = matcher.binding_id;
        input_id = input_id d;
      }
      ∷ []
  | some bound ↦
      record (effect_at d effect_run_matcher) {
        binding_id = matcher.binding_id;
        input_id = input_id d;
        reason = bound.snapshot.sha256;
      }
      ∷ []
]

-- enterTerminal
unfoldable pub enter_terminal : StateData → Option TerminalAction → String → StateData × List Effect
enter_terminal d (some end_graph) why = (
  record d { graph_ended = true; phase = terminal_phase; input_window_open = false },
  record (effect_at d effect_end_graph) { reason = why } ∷ [],
)
enter_terminal d (some end_session) why = (
  record d { session_ended = true; phase = terminal_phase; input_window_open = false },
  record (effect_at d effect_end_session) { reason = why } ∷ [],
)
enter_terminal d (some release_call_ownership) why = (
  record d { phase = stopped; input_window_open = false },
  record (effect_at d effect_safe_stop) {
    reason = "ownership release requires a matching confirmed receipt";
  }
      ∷ [],
)
enter_terminal d (some await_receipt) why =
    (record d { phase = awaiting_receipt }, effect_at d effect_await_receipt ∷ [])
enter_terminal d _ why = (
  record d { phase = stopped; input_window_open = false },
  record (effect_at d effect_safe_stop) { reason = why } ∷ [],
)

-- The counters for a reprompt of one reason.
abbrev pub counted : RetryCounter → String → String → RetryCounter
counted c why cause = record c {
  reprompts = suc c.reprompts;
  no_input_reprompts =
      if str_eq why "no_input" then suc c.no_input_reprompts else c.no_input_reprompts;
  no_match_reprompts =
      if str_eq why "no_match" then suc c.no_match_reprompts else c.no_match_reprompts;
  ambiguous_reprompts =
      if str_eq why "ambiguous" then suc c.ambiguous_reprompts else c.ambiguous_reprompts;
  counted_admission_event_ids = c.counted_admission_event_ids ++ (cause ∷ []);
}

abbrev pub count_retry : RetryTotals → String → RetryTotals
count_retry t why = record {
  reprompts = suc t.reprompts;
  no_input_reprompts =
      if str_eq why "no_input" then suc t.no_input_reprompts else t.no_input_reprompts;
  no_match_reprompts =
      if str_eq why "no_match" then suc t.no_match_reprompts else t.no_match_reprompts;
  ambiguous_reprompts =
      if str_eq why "ambiguous" then suc t.ambiguous_reprompts else t.ambiguous_reprompts;
}

-- The group's limits on one more reprompt.
abbrev pub group_has_room : RetryGroup → RetryCounter → String → Bool
group_has_room g c why =
    below c.reprompts g.max_reprompts
    && not (str_eq why "no_input" && not (below c.no_input_reprompts g.max_no_input_reprompts))
    && not (str_eq why "no_match" && not (below c.no_match_reprompts g.max_no_match_reprompts))
    && not (str_eq why "ambiguous" && not (below c.ambiguous_reprompts g.max_ambiguous_reprompts))

-- The budget of the reason, when it has one.
abbrev pub reason_has_room : StateData → String → String → RetryTotals → Bool
reason_has_room d id why used =
    if str_eq why "no_input"
    then budget_has_room d id budget_no_input_reprompts d.session_retry_totals.no_input_reprompts
        used.no_input_reprompts
    else if str_eq why "no_match"
    then budget_has_room d id budget_no_match_reprompts d.session_retry_totals.no_match_reprompts
        used.no_match_reprompts
    else if str_eq why "ambiguous"
    then budget_has_room d id budget_ambiguous_reprompts d.session_retry_totals.ambiguous_reprompts
        used.ambiguous_reprompts
    else true

-- The counter of a group, or a fresh one.
abbrev pub counter_of : StateData → RetryGroup → RetryCounter
counter_of d g = elim (lookup g.id d.retry_counters) [
  | some counter ↦ counter
  | none ↦ record {
    group_id = g.id;
    logical_task_id = d.logical_task_id;
    reprompts = 0;
    no_input_reprompts = 0;
    no_match_reprompts = 0;
    ambiguous_reprompts = 0;
    counted_admission_event_ids = [];
  }
]

-- All tests of admitRetry that answer with the exhausted target.
abbrev pub has_room_to_retry : StateData → Route → RetryGroup → String → Bool
has_room_to_retry d route g why =
    let used = (usage_of d route.id).retries in
    budget_has_room d route.id budget_reprompts d.session_retry_totals.reprompts used.reprompts
    && group_has_room g (counter_of d g) why
    && reason_has_room d route.id why used

-- The state after an admission that was not counted before.
abbrev pub count_admission : StateData → Route → RetryGroup → String → String → StateData
count_admission d route g cause why =
    let usage = usage_of d route.id in
    record d {
      session_retry_totals = count_retry d.session_retry_totals why;
      route_budget_usage =
          insert route.id (record usage { retries = count_retry usage.retries why })
            d.route_budget_usage;
      retry_counters = insert g.id (counted (counter_of d g) why cause) d.retry_counters;
    }

-- admitRetry; the target of an exhausted group, or none when the retry is admitted.
unfoldable pub admit_retry :
    StateData → Route → String → String → Result (StateData × Option Target)
admit_retry d route cause why = do
  g ←
      or_refuse (find_retry_group d.definition route.retry_group)
        "retry group is missing from the frozen definition"
  if ltb 0 (count cause (counter_of d g).counted_admission_event_ids)
      then ok (d, none)
      else if has_room_to_retry d route g why
      then (do
        wrap "retry counter" (check_counter (counted (counter_of d g) why cause) g)
        ok (count_admission d route g cause why, none))
      else ok (d, some g.exhausted)
