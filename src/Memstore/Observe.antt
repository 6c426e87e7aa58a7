-- ===== src/Memstore/Observe.antt =====
-- cache/memstore/memstore.go: observeVersions. What a version check makes of the counters, and when
-- it answers that a record is behind.
use gobeyond.Common.{
  ℕ, ◌≤◌, ◌<◌, String, ◌≡◌, inl, inr, refl, true, false, some, [], ◌∷◌, length, ltb, str_eq,
  if◌then◌else◌, arith, eq_iff, Bool-cases,
}
use gobeyond.Common.Maps.{Map, lookup}
use gobeyond.Memstore.State.{Store, version, set_version}
use gobeyond.Memstore.Ops.{observe_versions}
use gobeyond.Memstore.Consistency.{IsConsistent}
use gobeyond.Memstore.Versions.{set_version_lem}

-- From `s` to `t` counters only go up, and entries only go.
pub record Raises (s t : Store) : Type 0 where
  pub grows : (tag : String) → version tag s ≤ version tag t
  pub limits : t.limits ≡ s.limits
  pub leases : t.leases ≡ s.leases
  pub fewer : length t.entries ≤ length s.entries
  pub smaller : t.bytes ≤ s.bytes

pub refl-Raises : (s : Store) → Raises s s
refl-Raises s = record {
  grows = λ tag. omega arith;
  limits = refl;
  leases = refl;
  fewer = omega arith;
  smaller = omega arith;
}

pub trans-Raises : {s t u : Store} → Raises s t → Raises t u → Raises s u
trans-Raises p q = record {
  grows = λ tag. omega (arith, p.grows tag, q.grows tag);
  limits = cc (p.limits, q.limits);
  leases = cc (p.leases, q.leases);
  fewer = omega (arith, p.fewer, q.fewer);
  smaller = omega (arith, p.smaller, q.smaller);
}

pub set_version-Raises :
    (tag : String) (v : ℕ) (s : Store)
    → IsConsistent s
    → version tag s < v
    → Raises s (set_version tag v s)
set_version-Raises tag v s h newer =
    let (_, versions, limits, leases, fewer, smaller) = set_version_lem tag v s h newer in
    record {
      grows = λ t. ground (arith, versions t, eq_iff tag t);
      limits = limits;
      leases = leases;
      fewer = fewer;
      smaller = smaller;
    }

-- The counters of the loop after one recorded version that is not behind.
abbrev pub adopted : String → ℕ → Store → Store
adopted tag v s = if ltb (version tag s) v then set_version tag v s else s

module _ (tag : String) (v : ℕ) (s : Store) (h : IsConsistent s) where
  pub adopted-IsConsistent : IsConsistent (adopted tag v s) × Raises s (adopted tag v s)
  adopted-IsConsistent = elim (Bool-cases (ltb (version tag s) v)) [
    | inl newer ↦
        rw newer (
          (set_version_lem tag v s h (ground arith)).0,
          set_version-Raises tag v s h (ground arith),
        )
    | inr older ↦ rw older (h, refl-Raises s)
  ]

  pub version-adopted :
      (t : String)
      → ltb v (version tag s) ≡ false
      → version t (adopted tag v s) ≡ (if str_eq tag t then v else version t s)
  version-adopted t fits = elim (Bool-cases (ltb (version tag s) v)) [
    | inl newer ↦ rw newer ((set_version_lem tag v s h (ground arith)).1 t)
    | inr older ↦ rw older (ground (arith, eq_iff tag t))
  ]

  pub observe_fits :
      (tags : Map ℕ)
      → ltb v (version tag s) ≡ false
      → observe_versions ((tag, v) ∷ tags) s ≡ observe_versions tags (adopted tag v s)
  unfolding observe_versions
  observe_fits tags fits = rw fits refl

  pub observe_behind :
      (tags : Map ℕ)
      → ltb v (version tag s) ≡ true
      → observe_versions ((tag, v) ∷ tags) s ≡ (s, false)
  unfolding observe_versions
  observe_behind tags behind = rw behind refl

pub observe_versions-IsConsistent :
    (tags : Map ℕ) (s : Store)
    → IsConsistent s
    → IsConsistent (observe_versions tags s).0 × Raises s (observe_versions tags s).0
observe_versions-IsConsistent [] s h = unfold observe_versions in (h, refl-Raises s)
observe_versions-IsConsistent ((tag, v) ∷ tags) s h = elim (Bool-cases (ltb v (version tag s))) [
  | inl behind ↦ rw (observe_behind tag v s h tags behind) (h, refl-Raises s)
  | inr fits ↦
      let (h', up) = adopted-IsConsistent tag v s h in
      let (h'', up') = observe_versions-IsConsistent tags (adopted tag v s) h' in
      rw (observe_fits tag v s h tags fits) (h'', trans-Raises up up')
]

-- Some recorded version is behind its counter.
abbrev pub IsBehind : Map ℕ → Store → Type 0
IsBehind tags s = (t : String) × (u : ℕ) × (lookup t tags ≡ some u) × (u < version t s)
