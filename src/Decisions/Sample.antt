-- ===== src/Decisions/Sample.antt =====
-- A small decision graph and a session of it, on which the promises of the reducer are tried: the
-- caller names a person of a directory, and the call goes to this person.
use gobeyond.Common.{String, true, none, some, List, [], ◌∷◌}
use gobeyond.Contract.Types.{
  text_input, text_channel, no_match_to_route, connect, ActStep, source_match, source_effect,
  candidate, confirmed, act_phase, release_call_ownership, safe_stop, Target, Route, Definition,
  ProtectedReference, EffectRequest, effect_confirmed, EventKind, session_admitted, input_final,
  match_completed, submitted_effect, receipt_of_effect, NormalizedEvent,
}
use gobeyond.Contract.Failure.{ok, failed, Check}
use gobeyond.Decisions.State.{Effect, Event, Policy, StateData, Tools}
use gobeyond.Decisions.Steps.{Step}

abbrev pub digest : String
digest = "0000000000000000000000000000000000000000000000000000000000000000"

-- A library whose digest is the same for every text.
abbrev pub tools : Tools
tools = record {
  library = record {
    sha256_hex = λ _. digest;
    json_valid = λ _. true;
    format_uint = λ _. "1";
    nul = "|";
    sort_strings = λ ids. ids;
  };
  event_json = λ _. "{}";
}

abbrev nowhere : Target
nowhere = record { route = ""; phase = none; terminal = none }

abbrev pub call_action : ActStep
call_action = record {
  id = "call";
  tool_id = "dialer";
  kind = connect;
  target_binding = "people";
  reauthorize_at_execution = true;
  releases_call_ownership = true;
}

abbrev pub menu : Route
menu = record {
  id = "/menu";
  budget_overrides = λ _. none;
  say = some (record { families = "greeting" ∷ [] });
  listen = some (record { accept = text_input ∷ [] });
  matcher = some (record { binding_id = "people"; on_no_match = no_match_to_route });
  decide = none;
  act = call_action ∷ [];
  next =
      record {
        source = source_match;
        outcome = candidate;
        target = record nowhere { phase = some act_phase };
      }
      ∷ record {
        source = source_effect;
        outcome = confirmed;
        target = record nowhere { terminal = some release_call_ownership };
      }
      ∷ [];
  fallback = record nowhere { terminal = some safe_stop };
  retry_group = "";
}

-- Every dimension of the session may be used twice.
abbrev pub definition : Definition
definition = record {
  graph = record {
    entry = "/menu";
    fallback = "/menu";
    routes = menu ∷ [];
    budgets = λ _. some (some 2);
    retry_groups = [];
  };
  graph_digest = digest;
}

abbrev blank_event : EventKind → String → NormalizedEvent
blank_event kind id = record {
  id = id;
  kind = kind;
  tenant_id = "tenant";
  session_id = "session";
  generation = 1;
  route_id = "/menu";
  route_entry_id = "entry-1";
  input_window_id = "";
  channel = text_channel;
  modality = none;
  locale = "";
  protected_input = none;
  digits = "";
  source_event_ids = [];
  received_at = 10;
  match_result = none;
  decision = none;
  effect_request = none;
  effect = none;
  playback = none;
}

abbrev pub admission : NormalizedEvent
admission = blank_event session_admitted "admission"

abbrev reference : String → ProtectedReference
reference purpose = record {
  id = "reference";
  purpose = purpose;
  tenant_id = "tenant";
  session_id = "session";
  generation = 1;
  sha256 = digest;
  expires_at = 1000;
}

abbrev of_normalized : NormalizedEvent → String → Event
of_normalized n id = record {
  normalized = some n;
  input_id = id;
  snapshot = none;
  control = none;
  fallback = none;
}

abbrev pub refresh : Event
refresh = record {
  normalized = none;
  input_id = "";
  snapshot = some (record {
    id = "refresh";
    tenant_id = "tenant";
    session_id = "session";
    generation = 1;
    route_id = "/menu";
    route_entry_id = "entry-1";
    received_at = 11;
    bound = record {
      binding_id = "people";
      route_id = "/menu";
      route_entry_id = "entry-1";
      snapshot = record {
        sha256 = digest;
        candidate_ids = "ada" ∷ "grace" ∷ [];
        protected_snapshot = some (reference "directory-snapshot");
      };
    };
  });
  control = none;
  fallback = none;
}

abbrev pub input : Event
input =
    of_normalized
      (record (blank_event input_final "input") {
        input_window_id = "window-000000000000000000000000";
        modality = some text_input;
        locale = "en";
        protected_input = some (reference "text");
        source_event_ids = "message" ∷ [];
      })
      ""

abbrev pub matched : Event
matched =
    of_normalized
      (record (blank_event match_completed "matched") {
        match_result = some (record {
          outcome = candidate;
          candidate_id = "ada";
          snapshot_sha256 = digest;
          binding_id = "people";
        });
      })
      "input"

abbrev pub request : EffectRequest
request = record {
  identity = record {
    id = digest;
    tenant_id = "tenant";
    session_id = "session";
    generation = 1;
    route_entry_id = "entry-1";
    input_id = "input";
    action_id = "call";
    graph_sha256 = digest;
  };
  tool_id = "dialer";
  kind = connect;
  target_binding = "people";
  target_opaque_id = "ada";
  candidate_set_sha256 = digest;
  payload = none;
  reauthorize_at_execution = true;
}

abbrev pub submission : Event
submission =
    of_normalized
      (record (blank_event submitted_effect "submission") { effect_request = some request }) ""

abbrev pub receipt : Event
receipt =
    of_normalized
      (record (blank_event receipt_of_effect "receipt") {
        effect = some (record {
          identity = request.identity;
          status = effect_confirmed;
          receipt_id = "dialed";
          provider_request_id = "carrier";
          target_opaque_id = "ada";
          failure_code = "";
          observed_at = 12;
        });
      })
      ""

abbrev pub review : Definition → Check
review _ = ok tt

abbrev pub policy : Policy
policy = record { full_agent_fallback_limit = some 1 }

-- What a step returns, or the state that it began with and no effects.
abbrev pub state_of : StateData → Step → StateData
state_of d (ok (next, es)) = next
state_of d (failed e) = d

abbrev pub effects_of : Step → List Effect
effects_of (ok (next, es)) = es
effects_of (failed e) = []
