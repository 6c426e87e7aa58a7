-- ===== src/Decisions/Dispatch.antt =====
-- agents/decisions/reducer.go: dispatchCandidate keeps the state sound, and its intent passes
-- ValidateDispatchIntent.
use gobeyond.Common.{
  ℕ, suc, ◌≡◌, refl, ◌∙◌, String, true, none, some, List, [], ◌∷◌, str_eq, equal, if_intro, inl,
  inr, Bool-cases, eq_iff, arith,
}
use gobeyond.Contract.Types.{
  BudgetDimension, budget_route_visits, budget_decision_calls, budget_reprompts,
  budget_effect_attempts, budget_no_input_reprompts, budget_no_match_reprompts,
  budget_ambiguous_reprompts, ActStep, EffectRequest, EffectRequest-discrete, NormalizedEvent,
  Route, Definition,
}
use gobeyond.Contract.Failure.{ok, ok->>=, Holds, Holds->>=, wrap-eq-ok, or_refuse-eq-ok}
use gobeyond.Contract.Checks.{Library, is_empty}
use gobeyond.Contract.Scoped.{check_request_against}
use gobeyond.Decisions.State.{BoundCandidateSnapshot, StateData}
use gobeyond.Decisions.Lookup.{find_route, find_action, find_action_in, usage_of, budget_has_room}
use gobeyond.Decisions.Guards.{check_bound_snapshot, check_dispatch_intent}
use gobeyond.Decisions.Follow.{
  target_bound, single, request_for, attempt, intent_effect, dispatch_candidate,
}
use gobeyond.Decisions.Bounds.{Counts, session_counter, route_counter, count-IsBounded}
use gobeyond.Decisions.Sound.{IsKept, IsSound}

-- No action has the id of a later one.
abbrev pub AreDistinct : List ActStep → Type 0
AreDistinct [] = Unit
AreDistinct (a ∷ actions) = (find_action_in actions a.id ≡ none) × AreDistinct actions

-- The actions of every route of the definition have ids of their own.
abbrev pub HasDistinctActions : Definition → Type 0
HasDistinctActions definition =
    (id : String) (route : Route) → find_route definition id ≡ some route → AreDistinct route.act

same_text : (s : String) → str_eq s s ≡ true
same_text s = (eq_iff s s).1 refl

target_bound-found :
    (actions : List ActStep) (a : ActStep)
    → AreDistinct actions
    → target_bound actions ≡ a ∷ []
    → find_action_in actions a.id ≡ some a
unfolding find_action_in
target_bound-found [] a distinct h = cc
target_bound-found (b ∷ actions) a (fresh, distinct) h =
    elim (Bool-cases (is_empty b.target_binding)) [
      | inl empty ↦ ground (arith, target_bound-found actions a distinct, eq_iff b.id a.id)
      | inr bound ↦ ground (arith, same_text b.id)
    ]

single-eq-ok : (actions : List ActStep) (a : ActStep) → single actions ≡ ok a → actions ≡ a ∷ []
single-eq-ok [] a h = cc
single-eq-ok (b ∷ []) a h = cc
single-eq-ok (b ∷ c ∷ actions) a h = cc

same_request : (r : EffectRequest) → equal EffectRequest-discrete r r ≡ true
same_request r = ground arith

module _ (lib : Library) (now : ℕ) where
  check_bound_snapshot-attempt :
      (d : StateData) (request : EffectRequest) (bound : BoundCandidateSnapshot) (id : String)
      → check_bound_snapshot lib (attempt lib d request id now) bound now
        ≡ check_bound_snapshot lib d bound now
  unfolding check_bound_snapshot
  check_bound_snapshot-attempt d request bound id = refl

  intent-valid :
      (d : StateData) (active : Route) (input : NormalizedEvent) (bound : BoundCandidateSnapshot)
      (action : ActStep) (request : EffectRequest)
      → d.candidate_snapshot ≡ some bound
      → d.pending_input ≡ some input
      → find_route d.definition d.route_id ≡ some active
      → find_action active action.id ≡ some action
      → check_bound_snapshot lib d bound now ≡ ok tt
      → check_request_against lib request action
          (some bound.snapshot)
          d.scope.tenant_id
          d.scope.session_id
          d.scope.generation
          now
        ≡ ok tt
      → check_dispatch_intent lib
          (attempt lib d request action.id now)
          (intent_effect lib d input action.id request)
          now
        ≡ ok tt
  unfolding check_dispatch_intent
  intent-valid d active input bound action request b i r a s q = ok->>= _ _ tt refl (
      ok->>= _ _ request refl (
        ok->>= _ _ bound (rw b) (
          ok->>= _ _ input (rw i) (
            ok->>= _ _ tt
              (rw (
                same_text d.route_id,
                same_text d.route_entry_id,
                same_text input.id,
                same_text action.id,
                same_request request,
              ))
              (ok->>= _ _ active (rw r) (
                ok->>= _ _ action (rw a) (
                  ok->>= _ _ tt (check_bound_snapshot-attempt d request bound action.id ∙ s)
                    q)))))))

  attempt-Counts :
      (d : StateData) (request : EffectRequest) (id : String) (dimension : BudgetDimension)
      → budget_has_room d d.route_id budget_effect_attempts d.effect_attempts
          (usage_of d d.route_id).effect_attempts
        ≡ true
      → Counts d d.route_id dimension (session_counter (attempt lib d request id now) dimension) (
          route_counter
            (record (usage_of d d.route_id) {
              effect_attempts = suc (usage_of d d.route_id).effect_attempts;
            })
            dimension)
  attempt-Counts d request id budget_route_visits room = inl (refl, refl)
  attempt-Counts d request id budget_decision_calls room = inl (refl, refl)
  attempt-Counts d request id budget_reprompts room = inl (refl, refl)
  attempt-Counts d request id budget_effect_attempts room = inr (refl, refl, room)
  attempt-Counts d request id budget_no_input_reprompts room = inl (refl, refl)
  attempt-Counts d request id budget_no_match_reprompts room = inl (refl, refl)
  attempt-Counts d request id budget_ambiguous_reprompts room = inl (refl, refl)

  module _ (d0 : StateData) where
    attempt-IsKept :
        (d : StateData) (request : EffectRequest) (id : String)
        → budget_has_room d d.route_id budget_effect_attempts d.effect_attempts
            (usage_of d d.route_id).effect_attempts
          ≡ true
        → IsKept d0 d
        → IsKept d0 (attempt lib d request id now)
    attempt-IsKept d request id room (bounded, has_route, framed) = (
      count-IsBounded d (attempt lib d request id now) d.route_id _ refl refl refl refl
          (λ dimension. attempt-Counts d request id dimension room) bounded,
      has_route,
      framed,
    )

    pub dispatch_candidate-IsSound :
        (d : StateData) (active : Route) (candidate_id : String)
        → AreDistinct active.act
        → find_route d.definition d.route_id ≡ some active
        → IsKept d0 d
        → Holds (IsSound lib now d0) (dispatch_candidate lib d active candidate_id now)
    unfolding dispatch_candidate usage_of find_action
    dispatch_candidate-IsSound d active candidate_id distinct found k =
        Holds->>= (IsSound lib now d0) _ _ (λ _ _. Holds->>= (IsSound lib now d0) _ _ (λ bound b.
          Holds->>= (IsSound lib now d0) _ _ (λ input i. Holds->>= (IsSound lib now d0) _ _ (λ _ s.
            Holds->>= (IsSound lib now d0) _ _ (λ action one.
              if_intro (Holds (IsSound lib now d0))
                (budget_has_room d d.route_id budget_effect_attempts d.effect_attempts
                  (usage_of d d.route_id).effect_attempts)
                (λ room. Holds->>= (IsSound lib now d0) _ _ (λ _ q. (
                  attempt-IsKept d (request_for lib d input bound action candidate_id) action.id
                      room k,
                  (
                    intent-valid d active input bound action
                        (request_for lib d input bound action candidate_id)
                        (or_refuse-eq-ok d.candidate_snapshot _ b)
                        (or_refuse-eq-ok d.pending_input _ i) found
                        (target_bound-found active.act action distinct (single-eq-ok _ action one))
                        s (wrap-eq-ok _ _ q),
                    tt,
                  ),
                )))
                (λ full. (k, (tt, tt))))))))
