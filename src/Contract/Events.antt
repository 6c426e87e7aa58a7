-- ===== src/Contract/Events.antt =====
-- agents/decisioncontract/v1/validate.go: NormalizedEvent.Validate, which checks an event by its
-- kind, and the binding of an input error to the open input window.
use gobeyond.Common.{
  ℕ, Bool, true, false, not, ◌||◌, Option, none, some, List, [], ◌∷◌, ◌==◌, str_eq, is_some, equal,
}
use gobeyond.Contract.Types.{
  Outcome, completed, cleared, failed as outcome_failed, Outcome-discrete, InputModality,
  speech_final, dtmf_complete, text_input, ChannelKind, voice_channel, text_channel,
  ChannelKind-discrete, EffectIdentity, EventKind, input_final, input_error, playback_completed,
  playback_cleared, playback_failed, match_completed, decision_completed, submitted_effect,
  receipt_of_effect, NormalizedEvent, InputWindow,
}
use gobeyond.Contract.Failure.{message, failed, ◌>>=◌, ◌>>◌, Check, refuse_if, wrap, or_refuse}
use gobeyond.Contract.Fields.{is_identifier, is_route_id, is_locale, are_identifiers}
use gobeyond.Contract.Checks.{Library, is_empty, check_reference, check_match, check_playback}
use gobeyond.Contract.Scoped.{check_decision, check_receipt, check_request}

-- The user's input in an event.
abbrev has_input : NormalizedEvent → Bool
has_input e = is_some e.protected_input || not (is_empty e.digits)

abbrev lacks_window : NormalizedEvent → Bool
lacks_window e =
    not (is_route_id e.route_id)
    || not (is_identifier e.route_entry_id)
    || not (is_identifier e.input_window_id)

abbrev is_nil {ℓ} : {A : Type ℓ} → List A → Bool
is_nil [] = true
is_nil (_ ∷ _) = false

abbrev is_voice : ChannelKind → Bool
is_voice voice_channel = true
is_voice text_channel = false

abbrev check_protected : NormalizedEvent → ℕ → Check
check_protected e now = do
  refuse_if (not (is_some e.protected_input) || not (is_empty e.digits))
      "speech/text final input requires a protected payload reference, not inline text"
  reference ←
      or_refuse e.protected_input
        "speech/text final input requires a protected payload reference, not inline text"
  wrap "protected input" (check_reference reference e.tenant_id e.session_id e.generation now)

abbrev check_modality : NormalizedEvent → ℕ → Option InputModality → Check
check_modality e now none = failed (message "unknown final input modality")
check_modality e now (some dtmf_complete) = do
  refuse_if (not (is_voice e.channel)) "DTMF input must use the voice channel"
  refuse_if (is_empty e.digits || is_some e.protected_input)
      "DTMF final input requires digits and no protected transcript payload"
check_modality e now (some speech_final) = do
  refuse_if (not (is_voice e.channel)) "input channel does not match its modality"
  check_protected e now
check_modality e now (some text_input) = do
  refuse_if (is_voice e.channel) "input channel does not match its modality"
  check_protected e now

-- The case of an input_final event.
unfoldable pub check_final_input : NormalizedEvent → ℕ → Check
check_final_input e now = do
  refuse_if
      (is_some e.match_result
        || is_some e.decision
        || is_some e.effect_request
        || is_some e.effect
        || is_some e.playback)
      "input_final event cannot also carry a result, effect, or playback receipt"
  refuse_if (lacks_window e) "final input requires route, route-entry, and input-window identity"
  refuse_if (not (is_locale e.locale)) "final input requires a pinned canonical locale"
  refuse_if (is_nil e.source_event_ids) "final input requires source event IDs"
  refuse_if (not (are_identifiers [] e.source_event_ids))
      "source event IDs must be stable and unique"
  check_modality e now e.modality

-- The case of an input_error event.
unfoldable pub check_input_error : NormalizedEvent → Check
check_input_error e = do
  refuse_if
      (has_input e
        || is_some e.modality
        || not (is_empty e.locale)
        || not (is_nil e.source_event_ids)
        || is_some e.match_result
        || is_some e.decision
        || is_some e.effect_request
        || is_some e.effect
        || is_some e.playback)
      "input_error event cannot carry user input, result, effect, or playback payload"
  refuse_if (lacks_window e) "input_error requires route, route-entry, and input-window identity"

abbrev other_scope : EffectIdentity → NormalizedEvent → Bool
other_scope i e =
    not (str_eq i.tenant_id e.tenant_id)
    || not (str_eq i.session_id e.session_id)
    || not (i.generation == e.generation)

abbrev check_match_event : NormalizedEvent → Check
check_match_event e = do
  refuse_if
      (has_input e
        || is_some e.decision
        || is_some e.effect_request
        || is_some e.effect
        || is_some e.playback)
      "match_completed event carries an incompatible payload"
  r ← or_refuse e.match_result "match_completed event requires a typed match result"
  wrap "match result" (check_match r)

abbrev check_playback_event : NormalizedEvent → Outcome → Check
check_playback_event e expected = do
  refuse_if
      (has_input e
        || is_some e.match_result
        || is_some e.decision
        || is_some e.effect_request
        || is_some e.effect)
      "playback completion event requires only a playback receipt"
  r ← or_refuse e.playback "playback completion event requires only a playback receipt"
  wrap "playback receipt" (check_playback r)
  refuse_if (not (equal Outcome-discrete r.outcome expected))
      "playback event kind and receipt outcome do not match"

abbrev check_plain_event : NormalizedEvent → Check
check_plain_event e = do
  refuse_if
      (has_input e
        || is_some e.match_result
        || is_some e.decision
        || is_some e.effect_request
        || is_some e.effect)
      "event kind cannot carry input, decision, or effect payload"
  refuse_if (is_some e.playback) "event kind cannot carry a playback completion receipt"

module _ (lib : Library) where
  abbrev check_decision_event : NormalizedEvent → Check
  check_decision_event e = do
    refuse_if
        (has_input e
          || is_some e.match_result
          || is_some e.effect_request
          || is_some e.effect
          || is_some e.playback)
        "decision_completed event carries an incompatible payload"
    r ← or_refuse e.decision "decision_completed event requires a typed decision result"
    wrap "decision result" (check_decision lib r)

  abbrev check_submitted_event : NormalizedEvent → ℕ → Check
  check_submitted_event e now = do
    refuse_if
        (has_input e
          || is_some e.match_result
          || is_some e.decision
          || is_some e.effect
          || is_some e.playback)
        "effect_submitted event carries an incompatible payload"
    r ← or_refuse e.effect_request "effect_submitted event requires a typed effect request"
    wrap "effect request" (check_request lib r now)
    refuse_if (other_scope r.identity e) "effect request scope does not match the event"

  -- With the test of the scope that the source makes after the switch.
  abbrev check_receipt_event : NormalizedEvent → Check
  check_receipt_event e = do
    refuse_if
        (has_input e
          || is_some e.match_result
          || is_some e.decision
          || is_some e.effect_request
          || is_some e.playback)
        "effect_receipt event carries an incompatible payload"
    r ← or_refuse e.effect "effect_receipt event requires a typed effect receipt"
    wrap "effect receipt" (check_receipt lib r)
    refuse_if (other_scope r.identity e) "effect receipt scope does not match the event"

  abbrev check_kind : NormalizedEvent → ℕ → EventKind → Check
  check_kind e now input_error = check_input_error e
  check_kind e now input_final = check_final_input e now
  check_kind e now match_completed = check_match_event e
  check_kind e now decision_completed = check_decision_event e
  check_kind e now submitted_effect = check_submitted_event e now
  check_kind e now receipt_of_effect = check_receipt_event e
  check_kind e now playback_completed = check_playback_event e completed
  check_kind e now playback_cleared = check_playback_event e cleared
  check_kind e now playback_failed = check_playback_event e outcome_failed
  check_kind e now _ = check_plain_event e

  -- NormalizedEvent.Validate; every channel is a constructor.
  unfoldable pub check_event : NormalizedEvent → ℕ → Check
  check_event e now = do
    refuse_if
        (not (is_identifier e.id)
          || not (is_identifier e.tenant_id)
          || not (is_identifier e.session_id))
        "event, tenant, and session IDs are required"
    refuse_if (e.generation == 0) "event generation must be positive"
    refuse_if (e.received_at == 0) "event receivedAt is required"
    check_kind e now e.kind

  -- InputWindowIdentity.Validate
  unfoldable pub check_window : InputWindow → Check
  check_window w = do
    refuse_if
        (not (is_identifier w.tenant_id)
          || not (is_identifier w.session_id)
          || not (is_identifier w.route_entry_id)
          || not (is_identifier w.input_window_id))
        "active input window requires stable tenant, session, route-entry, and input-window IDs"
    refuse_if (w.generation == 0) "active input window generation must be positive"
    refuse_if (not (is_route_id w.route_id))
        "active input window requires a stable absolute route ID"

  abbrev is_input_error : EventKind → Bool
  is_input_error input_error = true
  is_input_error _ = false

  -- NormalizedEvent.ValidateForActiveInputWindow
  unfoldable pub check_active_window : NormalizedEvent → InputWindow → ℕ → Check
  check_active_window e w now = do
    refuse_if (not (is_input_error e.kind))
        "active input window validation requires an input_error event"
    check_window w
    check_event e now
    refuse_if
        (not (str_eq e.tenant_id w.tenant_id)
          || not (str_eq e.session_id w.session_id)
          || not (e.generation == w.generation)
          || not (str_eq e.route_id w.route_id)
          || not (str_eq e.route_entry_id w.route_entry_id)
          || not (str_eq e.input_window_id w.input_window_id)
          || not (equal ChannelKind-discrete e.channel w.channel))
        "input_error identity does not match the active input window"
