-- ===== src/Decisions/Sound.antt =====
-- agents/decisions/reducer.go: what each step keeps of the state that the reducer began with, and the
-- intents that it emits.
use gobeyond.Common.{
  ℕ, suc, ◌≡◌, refl, String, true, Option, none, some, List, [], ◌∷◌, ◌++◌, if_intro, inl, inr,
}
use gobeyond.Contract.Types.{
  BudgetDimension, budget_route_visits, budget_decision_calls, budget_reprompts,
  budget_effect_attempts, budget_no_input_reprompts, budget_no_match_reprompts,
  budget_ambiguous_reprompts, TerminalAction, end_session, end_graph, release_call_ownership,
  await_receipt, safe_stop, SayStep, ListenStep, MatchStep, Route,
}
use gobeyond.Contract.Failure.{ok, Holds, Option_intro}
use gobeyond.Contract.Checks.{Library}
use gobeyond.Decisions.State.{EffectKind, effect_dispatch_intent, Effect, StateData}
use gobeyond.Decisions.Lookup.{find_route, usage_of, budget_has_room}
use gobeyond.Decisions.Guards.{check_dispatch_intent}
use gobeyond.Decisions.Steps.{stop, match_effects, enter_terminal}
use gobeyond.Decisions.Follow.{
  visit, begin_listening, begin_saying, enter_effects, arrive, enter_route,
}
use gobeyond.Decisions.Bounds.{IsBounded, Counts, session_counter, route_counter, count-IsBounded}

-- The definition, the session, the processed events and the ownership are those of `d0`.
abbrev pub IsFramed : StateData → StateData → Type 0
IsFramed d0 d =
    (d.definition ≡ d0.definition)
    × (d.scope ≡ d0.scope)
    × (d.processed_events ≡ d0.processed_events)
    × (d.ownership ≡ d0.ownership)

abbrev pub HasRoute : StateData → Type 0
HasRoute d = (route : Route) × (find_route d.definition d.route_id ≡ some route)

abbrev pub IsKept : StateData → StateData → Type 0
IsKept d0 d = IsBounded d × HasRoute d × IsFramed d0 d

abbrev IfDispatch : EffectKind → Type 0 → Type 0
IfDispatch effect_dispatch_intent T = T
IfDispatch _ T = Unit

-- Every intent among the effects passes ValidateDispatchIntent.
abbrev pub AreIntentsValid : Library → ℕ → StateData → List Effect → Type 0
AreIntentsValid lib now d [] = Unit
AreIntentsValid lib now d (e ∷ es) =
    IfDispatch e.kind (check_dispatch_intent lib d e now ≡ ok tt) × AreIntentsValid lib now d es

abbrev pub IsSound : Library → ℕ → StateData → (StateData × List Effect) → Type 0
IsSound lib now d0 r = IsKept d0 r.0 × AreIntentsValid lib now r.0 r.1

module _ (lib : Library) (now : ℕ) (d0 : StateData) where
  pub append-AreIntentsValid :
      (d : StateData) (es fs : List Effect)
      → AreIntentsValid lib now d es
      → AreIntentsValid lib now d fs
      → AreIntentsValid lib now d (es ++ fs)
  append-AreIntentsValid d [] fs h k = k
  append-AreIntentsValid d (e ∷ es) fs (h, hs) k = (h, append-AreIntentsValid d es fs hs k)

  pub match_effects-AreIntentsValid :
      (d' d : StateData) (matcher : MatchStep)
      → AreIntentsValid lib now d' (match_effects d matcher)
  unfolding match_effects
  match_effects-AreIntentsValid d' d matcher =
      Option_intro (AreIntentsValid lib now d') d.candidate_snapshot (λ _. (tt, tt))
        (λ _ _. (tt, tt))

  pub stop-IsSound :
      (d : StateData) (text : String) → IsKept d0 d → IsSound lib now d0 (stop d text)
  unfolding usage_of
  stop-IsSound d text k = (k, (tt, tt))

  pub enter_terminal-IsSound :
      (d : StateData) (terminal : Option TerminalAction) (why : String)
      → IsKept d0 d
      → IsSound lib now d0 (enter_terminal d terminal why)
  unfolding enter_terminal usage_of
  enter_terminal-IsSound d none why k = (k, (tt, tt))
  enter_terminal-IsSound d (some end_session) why k = (k, (tt, tt))
  enter_terminal-IsSound d (some end_graph) why k = (k, (tt, tt))
  enter_terminal-IsSound d (some release_call_ownership) why k = (k, (tt, tt))
  enter_terminal-IsSound d (some await_receipt) why k = (k, (tt, tt))
  enter_terminal-IsSound d (some safe_stop) why k = (k, (tt, tt))

  begin_listening-IsSound :
      (d : StateData) (o : Option ListenStep)
      → IsKept d0 d
      → IsSound lib now d0 (begin_listening lib d o)
  unfolding usage_of
  begin_listening-IsSound d none k = (k, tt)
  begin_listening-IsSound d (some step) k = (k, (tt, tt))

  begin_saying-IsSound :
      (d : StateData) (o : Option SayStep) → IsKept d0 d → IsSound lib now d0 (begin_saying lib d o)
  unfolding usage_of
  begin_saying-IsSound d none k = (k, tt)
  begin_saying-IsSound d (some step) k = (k, (tt, tt))

  begin_listening-AreIntentsValid :
      (d' d : StateData) (o : Option ListenStep)
      → AreIntentsValid lib now d' (begin_listening lib d o).1
  begin_listening-AreIntentsValid d' d none = tt
  begin_listening-AreIntentsValid d' d (some step) = (tt, tt)

  pub enter_effects-IsSound :
      (d : StateData) (route : Route) → IsKept d0 d → IsSound lib now d0 (enter_effects lib d route)
  unfolding enter_effects
  enter_effects-IsSound d route k =
      let heard = begin_listening lib d route.listen in
      let said =
        begin_saying-IsSound heard.0 route.say (begin_listening-IsSound d route.listen k).0 in
      (
        said.0,
        (
          tt,
          append-AreIntentsValid _ heard.1 _ (begin_listening-AreIntentsValid _ d route.listen)
              said.1,
        ),
      )

  visit-Counts :
      (d : StateData) (id : String) (dimension : BudgetDimension)
      → budget_has_room d id budget_route_visits d.route_visits (usage_of d id).visits ≡ true
      → Counts d id dimension
          (session_counter (visit d id) dimension)
          (route_counter (record (usage_of d id) { visits = suc (usage_of d id).visits }) dimension)
  visit-Counts d id budget_route_visits room = inr (refl, refl, room)
  visit-Counts d id budget_decision_calls room = inl (refl, refl)
  visit-Counts d id budget_reprompts room = inl (refl, refl)
  visit-Counts d id budget_effect_attempts room = inl (refl, refl)
  visit-Counts d id budget_no_input_reprompts room = inl (refl, refl)
  visit-Counts d id budget_no_match_reprompts room = inl (refl, refl)
  visit-Counts d id budget_ambiguous_reprompts room = inl (refl, refl)

  pub visit-IsBounded :
      (d : StateData) (id : String)
      → budget_has_room d id budget_route_visits d.route_visits (usage_of d id).visits ≡ true
      → IsBounded d
      → IsBounded (visit d id)
  visit-IsBounded d id room h =
      count-IsBounded d (visit d id) id _ refl refl refl refl
        (λ dimension. visit-Counts d id dimension room) h

  pub enter_route-IsSound :
      (d : StateData) (route : Route) (cause : String)
      → find_route d.definition route.id ≡ some route
      → IsKept d0 d
      → Holds (IsSound lib now d0) (enter_route lib d route cause)
  unfolding enter_route arrive usage_of
  enter_route-IsSound d route cause found (bounded, has_route, framed) =
      if_intro (Holds (IsSound lib now d0))
        (budget_has_room d route.id budget_route_visits d.route_visits (usage_of d route.id).visits)
        (λ room.
          enter_effects-IsSound (arrive lib d route cause) route
            (visit-IsBounded d route.id room bounded, (route, found), framed))
        (λ full. ((bounded, has_route, framed), (tt, tt)))
