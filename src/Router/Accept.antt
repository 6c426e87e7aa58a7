-- ===== src/Router/Accept.antt =====
-- router/pattern.go: which lists of routes NewTable accepts.
use gobeyond.Common.{
  ◌≡◌, ◌≢◌, ◌↔◌, ◌⊎◌, refl, sym, true, false, List, [], ◌∷◌, Bool-cases, inl, inr, arith,
}
use gobeyond.Router.Bytes.{Bytes, bytes_eq}
use gobeyond.Router.Pattern.{Pattern, RouteError, Result, ok, failed, parse, is_empty}
use gobeyond.Router.Table.{Route, Table, is_seen, parse_routes, new_table, sort_routes}

pub bytes_eq_iff : (xs ys : Bytes) → (bytes_eq xs ys ≡ true) ↔ (xs ≡ ys)
unfolding bytes_eq
bytes_eq_iff [] [] = (λ _. refl, λ _. refl)
bytes_eq_iff [] (y ∷ ys) = (λ h. cc, λ h. cc)
bytes_eq_iff (x ∷ xs) [] = (λ h. cc, λ h. cc)
bytes_eq_iff (x ∷ xs) (y ∷ ys) =
    let (to, from) = bytes_eq_iff xs ys in (λ h. ground (arith, to), λ h. ground (arith, from))

-- Each route has an ID and a pattern that Parse accepts.
abbrev pub AreValid : List Route → Type 0
AreValid [] = Unit
AreValid (r ∷ routes) = (r.id ≢ []) × ((p : Pattern) × (parse r.pattern ≡ ok p)) × AreValid routes

abbrev pub IsNew : Bytes → List Route → Type 0
IsNew pattern [] = Unit
IsNew pattern (r ∷ routes) = (r.pattern ≢ pattern) × IsNew pattern routes

-- No pattern stands twice.
abbrev pub AreDistinct : List Route → Type 0
AreDistinct [] = Unit
AreDistinct (r ∷ routes) = IsNew r.pattern routes × AreDistinct routes

abbrev AreUnseen : List Bytes → List Route → Type 0
AreUnseen seen [] = Unit
AreUnseen seen (r ∷ routes) = (is_seen r.pattern seen ≡ false) × AreUnseen seen routes

abbrev pub IsOk {ℓ} : {A : Type ℓ} → Result A → Type ℓ
IsOk {A = A} r = (a : A) × (r ≡ ok a)

is_empty_iff : (xs : Bytes) → (is_empty xs ≡ false) ↔ (xs ≢ [])
is_empty_iff [] = (λ h. cc, λ h. absurd (h refl))
is_empty_iff (x ∷ xs) = (λ h same. cc, λ h. refl)

unseen_cons :
    (pattern : Bytes) (seen : List Bytes) (routes : List Route)
    → AreUnseen (pattern ∷ seen) routes ↔ (IsNew pattern routes × AreUnseen seen routes)
unfolding is_seen
unseen_cons pattern seen [] = (λ h. (tt, tt), λ h. tt)
unseen_cons pattern seen (r ∷ routes) =
    let (to, from) = unseen_cons pattern seen routes in
    let (eq, back) = bytes_eq_iff pattern r.pattern in
    (
      λ (h, hs).
          let (new, old) = to hs in
          (((λ same. ground (arith, back (sym same))), new), (ground arith, old)),
      λ ((new, news), (old, olds)). (
        elim (Bool-cases (bytes_eq pattern r.pattern)) [
          | inl same ↦ absurd (new (sym (eq same)))
          | inr other ↦ ground arith
        ],
        from (news, olds),
      ),
    )

unseen_nil : (routes : List Route) → AreUnseen [] routes
unfolding is_seen
unseen_nil [] = tt
unseen_nil (r ∷ routes) = (refl, unseen_nil routes)

pub Result-IsOk {ℓ} : {A : Type ℓ} (r : Result A) → IsOk r ⊎ ((e : RouteError) × (r ≡ failed e))
Result-IsOk (ok a) = inl (a, refl)
Result-IsOk (failed e) = inr (e, refl)

module _ (seen : List Bytes) (r : Route) (routes : List Route) where
  parse_routes_step :
      IsOk (parse_routes seen (r ∷ routes))
      → (is_empty r.id ≡ false)
        × (is_seen r.pattern seen ≡ false)
        × IsOk (parse r.pattern)
        × IsOk (parse_routes (r.pattern ∷ seen) routes)
  unfolding parse_routes
  parse_routes_step (rs, made) = elim (Bool-cases (is_empty r.id)) [
    | inl empty ↦ cc (rw empty at made)
    | inr named ↦ elim (Bool-cases (is_seen r.pattern seen)) [
      | inl old ↦ cc (rw (named, old) at made)
      | inr new ↦ elim (Result-IsOk (parse r.pattern)) [
        | inr (e, bad) ↦ cc (rw (named, new, bad) at made)
        | inl (p, good) ↦ elim (Result-IsOk (parse_routes (r.pattern ∷ seen) routes)) [
          | inr (e, bad) ↦ cc (rw (named, new, good, bad) at made)
          | inl rest ↦ (named, new, (p, good), rest)
        ]
      ]
    ]
  ]

  parse_routes_made :
      is_empty r.id ≡ false
      → is_seen r.pattern seen ≡ false
      → IsOk (parse r.pattern)
      → IsOk (parse_routes (r.pattern ∷ seen) routes)
      → IsOk (parse_routes seen (r ∷ routes))
  unfolding parse_routes
  parse_routes_made named new (p, good) (rs, rest) =
      (record r { parsed = p } ∷ rs, rw (named, new, good, rest) refl)

parse_routes_iff :
    (seen : List Bytes) (routes : List Route)
    → IsOk (parse_routes seen routes)
      ↔ (AreValid routes × AreDistinct routes × AreUnseen seen routes)
parse_routes_iff seen [] = unfold parse_routes in (λ h. (tt, tt, tt), λ h. ([], refl))
parse_routes_iff seen (r ∷ routes) =
    let (to, from) = parse_routes_iff (r.pattern ∷ seen) routes in
    let (apart, together) = unseen_cons r.pattern seen routes in
    let (named, name) = is_empty_iff r.id in
    (
      λ made.
          let (id, new, pattern, rest) = parse_routes_step seen r routes made in
          let (valid, distinct, unseen) = to rest in
          let (news, olds) = apart unseen in
          ((named id, pattern, valid), (news, distinct), (new, olds)),
      λ ((id, pattern, valid), (news, distinct), (new, olds)).
          parse_routes_made seen r routes (name id) new pattern
            (from (valid, distinct, together (news, olds))),
    )

new_table_iff : (routes : List Route) → IsOk (new_table routes) ↔ IsOk (parse_routes [] routes)
unfolding new_table
new_table_iff routes = elim (Result-IsOk (parse_routes [] routes)) [
  | inl (rs, made) ↦ rw made (λ _. (rs, refl), λ _. (record { routes = sort_routes rs }, refl))
  | inr (e, bad) ↦ rw bad (λ (t, made). cc, λ (rs, made). cc)
]

-- NewTable accepts a list of routes exactly when each has an ID and a pattern that Parse accepts,
-- and no two have the same pattern.
pub new_table-AreValid :
    (routes : List Route)
    → ((t : Table) × (new_table routes ≡ ok t)) ↔ (AreValid routes × AreDistinct routes)
new_table-AreValid routes =
    let (down, up) = new_table_iff routes in
    let (to, from) = parse_routes_iff [] routes in
    (
      λ made. let (valid, distinct, _) = to (down made) in (valid, distinct),
      λ (valid, distinct). up (from (valid, distinct, unseen_nil routes)),
    )
