-- ===== src/Memstore/Recorded.antt =====
-- cache/memstore/memstore.go: the answer of observeVersions for a record.
use gobeyond.Common.{
  ℕ, String, ◌≡◌, inl, inr, refl, true, false, none, some, [], ◌∷◌, ltb, str_eq, arith, eq_iff,
  Bool-cases, ◌∙◌,
}
use gobeyond.Common.Maps.{Map, lookup, IsUnique}
use gobeyond.Memstore.State.{Store, version}
use gobeyond.Memstore.Ops.{observe_versions}
use gobeyond.Memstore.Consistency.{IsConsistent}
use gobeyond.Memstore.Observe.{
  adopted, adopted-IsConsistent, version-adopted, observe_fits, observe_behind,
  observe_versions-IsConsistent, IsBehind,
}

-- A tag that the record does not carry keeps its counter.
pub observe_versions_other :
    (t : String) (tags : Map ℕ) (s : Store)
    → IsConsistent s
    → lookup t tags ≡ none
    → version t (observe_versions tags s).0 ≡ version t s
unfolding lookup
observe_versions_other t [] s h absent = unfold observe_versions in refl
observe_versions_other t ((tag, v) ∷ tags) s h absent = elim (Bool-cases (ltb v (version tag s))) [
  | inl behind ↦ rw (observe_behind tag v s h tags behind) refl
  | inr fits ↦ rw (observe_fits tag v s h tags fits) (
      observe_versions_other t tags (adopted tag v s) (adopted-IsConsistent tag v s h).0
        (ground arith)
      ∙ ground (arith, version-adopted tag v s h t fits))
]

-- When the answer is that nothing is behind, the counters of the record's tags are as recorded.
pub observe_versions_current :
    (tags : Map ℕ) (s : Store)
    → IsUnique tags
    → IsConsistent s
    → (observe_versions tags s).1 ≡ true
    → (t : String) (u : ℕ) → lookup t tags ≡ some u
    → version t (observe_versions tags s).0 ≡ u
unfolding lookup
observe_versions_current [] s unique h ok t u held = cc
observe_versions_current ((tag, v) ∷ tags) s (p, unique) h ok t u held =
    elim (Bool-cases (ltb v (version tag s))) [
      | inl behind ↦ cc (rw (observe_behind tag v s h tags behind) at ok)
      | inr fits ↦
          let (h', _) = adopted-IsConsistent tag v s h in
          let ok' : (observe_versions tags (adopted tag v s)).1 ≡ true =
            rw (observe_fits tag v s h tags fits) at ok in
          rw (observe_fits tag v s h tags fits) (elim (Bool-cases (str_eq tag t)) [
            | inl same ↦
                observe_versions_other t tags (adopted tag v s) h' (ground (arith, eq_iff tag t))
                ∙ ground (arith, version-adopted tag v s h t fits)
            | inr other ↦
                observe_versions_current tags (adopted tag v s) unique h' ok' t u (ground arith)
          ])
    ]

-- The answer is that the record is behind exactly when some recorded version is.
pub observe_versions-IsBehind :
    (tags : Map ℕ) (s : Store)
    → IsUnique tags
    → IsConsistent s
    → (observe_versions tags s).1 ≡ false
    → IsBehind tags s
unfolding lookup observe_versions
observe_versions-IsBehind [] s unique h behind_it = cc
observe_versions-IsBehind ((tag, v) ∷ tags) s (p, unique) h behind_it =
    elim (Bool-cases (ltb v (version tag s))) [
      | inl behind ↦ (tag, v, ground (arith, eq_iff tag tag), ground arith)
      | inr fits ↦
          let (h', _) = adopted-IsConsistent tag v s h in
          let (t, u, held, newer) =
            observe_versions-IsBehind tags (adopted tag v s) unique h'
              (rw (observe_fits tag v s h tags fits) at behind_it) in
          (
            t,
            u,
            ground (arith, eq_iff tag t),
            ground (arith, version-adopted tag v s h t fits, eq_iff tag t),
          )
    ]

pub IsBehind-observe_versions :
    (tags : Map ℕ) (s : Store)
    → IsUnique tags
    → IsConsistent s
    → IsBehind tags s
    → (observe_versions tags s).1 ≡ false
IsBehind-observe_versions tags s unique h (t, u, held, newer) =
    elim (Bool-cases (observe_versions tags s).1) [
      | inl ok ↦
          let (_, up) = observe_versions-IsConsistent tags s h in
          absurd (omega (arith, up.grows t, observe_versions_current tags s unique h ok t u held))
      | inr behind_it ↦ behind_it
    ]
