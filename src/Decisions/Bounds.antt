-- ===== src/Decisions/Bounds.antt =====
-- agents/decisions/reducer.go: what the budgets of a session and of a route bound, and how one more
-- use that has room keeps to it.
use mathlib.Core.Path.{subst}
use gobeyond.Common.{
  ℕ, suc, ◌≤◌, ◌≡◌, ◌⊎◌, String, true, Option, none, some, ltb→lt, str_eq, if◌then◌else◌, if_intro,
  arith, inl, inr, eq_iff,
}
use gobeyond.Common.Maps.{insert, lookup-insert}
use gobeyond.Contract.Types.{
  BudgetDimension, budget_route_visits, budget_decision_calls, budget_reprompts,
  budget_effect_attempts, budget_no_input_reprompts, budget_no_match_reprompts,
  budget_ambiguous_reprompts, Bound, Route,
}
use gobeyond.Decisions.State.{RetryTotals, RouteBudgetUsage, StateData}
use gobeyond.Decisions.Lookup.{
  find_route, usage_of, below, within_ceiling, within_override, budget_has_room,
}

-- A use within a bound; an unresolved bound admits none.
abbrev pub IsWithin : ℕ → Bound → Type 0
IsWithin used none = used ≡ 0
IsWithin used (some most) = used ≤ most

-- A session ceiling that is missing admits no use either.
abbrev pub IsWithinCeiling : ℕ → Option Bound → Type 0
IsWithinCeiling used none = used ≡ 0
IsWithinCeiling used (some bound) = IsWithin used bound

-- An override that is missing sets no bound.
abbrev pub IsWithinOverride : ℕ → Option Bound → Type 0
IsWithinOverride used none = Unit
IsWithinOverride used (some bound) = IsWithin used bound

-- The counters of a session and of a route, for each dimension.
abbrev pub counter : (ℕ × ℕ × ℕ × RetryTotals) → BudgetDimension → ℕ
counter u budget_route_visits = u.0
counter u budget_decision_calls = u.1
counter u budget_effect_attempts = u.2
counter u budget_reprompts = u.3.reprompts
counter u budget_no_input_reprompts = u.3.no_input_reprompts
counter u budget_no_match_reprompts = u.3.no_match_reprompts
counter u budget_ambiguous_reprompts = u.3.ambiguous_reprompts

abbrev pub session_counter : StateData → BudgetDimension → ℕ
session_counter d =
    counter (d.route_visits, d.decision_calls, d.effect_attempts, d.session_retry_totals)

abbrev pub route_counter : RouteBudgetUsage → BudgetDimension → ℕ
route_counter u = counter (u.visits, u.decision_calls, u.effect_attempts, u.retries)

-- Every counter of the session is within its ceiling, the full-agent fallbacks are within the
-- policy's limit, and every counter of a route of the graph is within the route's override.
abbrev pub IsBounded : StateData → Type 0
IsBounded d =
    ((dimension : BudgetDimension)
      → IsWithinCeiling (session_counter d dimension) (d.definition.graph.budgets dimension))
    × IsWithin d.full_agent_fallbacks d.policy.full_agent_fallback_limit
    × ((route : Route) (dimension : BudgetDimension)
        → find_route d.definition route.id ≡ some route
        → IsWithinOverride (route_counter (usage_of d route.id) dimension)
            (route.budget_overrides dimension))

pub below-IsWithin :
    (used : ℕ) (bound : Bound) → below used bound ≡ true → IsWithin (suc used) bound
below-IsWithin used none h = cc
below-IsWithin used (some most) h = omega (arith, ltb→lt used most h)

within_ceiling-suc :
    (used : ℕ) (o : Option Bound) → within_ceiling used o ≡ true → IsWithinCeiling (suc used) o
within_ceiling-suc used none h = cc
within_ceiling-suc used (some bound) h = below-IsWithin used bound h

within_override-suc :
    (used : ℕ) (o : Option Bound) → within_override used o ≡ true → IsWithinOverride (suc used) o
within_override-suc used none h = tt
within_override-suc used (some bound) h = below-IsWithin used bound h

pub budget_has_room-within :
    (d : StateData) (id : String) (dimension : BudgetDimension) (s r : ℕ)
    → budget_has_room d id dimension s r ≡ true
    → IsWithinCeiling (suc s) (d.definition.graph.budgets dimension)
unfolding budget_has_room
budget_has_room-within d id dimension s r h =
    within_ceiling-suc s (d.definition.graph.budgets dimension) (ground arith)

pub budget_has_room-override :
    (d : StateData) (route : Route) (dimension : BudgetDimension) (s r : ℕ)
    → find_route d.definition route.id ≡ some route
    → budget_has_room d route.id dimension s r ≡ true
    → IsWithinOverride (suc r) (route.budget_overrides dimension)
unfolding budget_has_room
budget_has_room-override d route dimension s r e h =
    within_override-suc r (route.budget_overrides dimension) (ground arith)

usage_of-insert :
    (d d' : StateData) (id j : String) (u : RouteBudgetUsage)
    → d'.route_budget_usage ≡ insert id u d.route_budget_usage
    → usage_of d' j ≡ (if str_eq id j then u else usage_of d j)
unfolding usage_of
usage_of-insert d d' id j u m = ground (arith, lookup-insert id j u d.route_budget_usage)

-- A counter of the session and one of the route `id` stand still, or there was room for one more.
abbrev pub Counts : StateData → String → BudgetDimension → ℕ → ℕ → Type 0
Counts d id dimension s r =
    (s ≡ session_counter d dimension) × (r ≡ route_counter (usage_of d id) dimension)
    ⊎ (s ≡ suc (session_counter d dimension))
      × (r ≡ suc (route_counter (usage_of d id) dimension))
      × (budget_has_room d id dimension (session_counter d dimension)
            (route_counter (usage_of d id) dimension)
          ≡ true)

module _ (d d' : StateData) (id : String) (u : RouteBudgetUsage) where
  count-ceiling :
      (dimension : BudgetDimension)
      → d'.definition ≡ d.definition
      → Counts d id dimension (session_counter d' dimension) (route_counter u dimension)
      → IsWithinCeiling (session_counter d dimension) (d.definition.graph.budgets dimension)
      → IsWithinCeiling (session_counter d' dimension) (d'.definition.graph.budgets dimension)
  count-ceiling dimension e (inl (s, r)) h = rw (e, s) h
  count-ceiling dimension e (inr (s, r, room)) h =
      rw (e, s) (budget_has_room-within d id dimension _ _ room)

  count-override :
      (route : Route) (dimension : BudgetDimension)
      → find_route d.definition route.id ≡ some route
      → Counts d route.id dimension (session_counter d' dimension) (route_counter u dimension)
      → IsWithinOverride
          (route_counter (usage_of d route.id) dimension)
          (route.budget_overrides dimension)
      → IsWithinOverride (route_counter u dimension) (route.budget_overrides dimension)
  count-override route dimension found (inl (s, r)) h = rw r h
  count-override route dimension found (inr (s, r, room)) h =
      rw r (budget_has_room-override d route dimension _ _ found room)

  pub count-IsBounded :
      d'.definition ≡ d.definition
      → d'.policy ≡ d.policy
      → d'.full_agent_fallbacks ≡ d.full_agent_fallbacks
      → d'.route_budget_usage ≡ insert id u d.route_budget_usage
      → ((dimension : BudgetDimension)
          → Counts d id dimension (session_counter d' dimension) (route_counter u dimension))
      → IsBounded d
      → IsBounded d'
  count-IsBounded e p f m c (ceilings, limit, overrides) = (
    λ dimension. count-ceiling dimension e (c dimension) (ceilings dimension),
    rw (p, f) limit,
    λ route dimension found. rw (usage_of-insert d d' id route.id u m) (
        if_intro
          (λ v. IsWithinOverride (route_counter v dimension) (route.budget_overrides dimension))
          (str_eq id route.id)
          (λ same.
            count-override route dimension (subst (λ x. find_route x route.id ≡ some route) e found)
              (subst
                (λ i.
                  Counts d i dimension (session_counter d' dimension) (route_counter u dimension))
                ((eq_iff id route.id).0 same) (c dimension))
              (overrides route dimension (subst (λ x. find_route x route.id ≡ some route) e found)))
          (λ other.
            overrides route dimension (subst (λ x. find_route x route.id ≡ some route) e found))),
  )
