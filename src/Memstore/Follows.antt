-- ===== src/Memstore/Follows.antt =====
-- cache/memstore/memstore.go: every operation, and so every run, keeps the store consistent and
-- within its limits, and no counter goes down.
use gobeyond.Common.{
  ℕ, ◌+◌, ◌≤◌, ◌<◌, String, ◌≡◌, inl, inr, refl, ◌∙◌, true, false, some, leb, str_eq, if_intro,
  arith, Bool-cases,
}
use gobeyond.Common.Int.{ℤ}
use gobeyond.Common.Maps.{Map, lookup, IsUnique}
use gobeyond.Memstore.State.{
  Record, Store, version, set_version, remove_element, delete_locked, over_limit,
}
use gobeyond.Memstore.Ops.{
  observe_versions, get, set, set_valid, bump_tag, adopt_tag_version, stored, stale_write,
}
use gobeyond.Memstore.Consistency.{IsConsistent, remove_element-IsConsistent}
use gobeyond.Memstore.Versions.{SameBase, remove_element-SameBase, set_version_lem}
use gobeyond.Memstore.Observe.{Raises, set_version-Raises, observe_versions-IsConsistent}
use gobeyond.Memstore.Recorded.{observe_versions_current}
use gobeyond.Memstore.Reads.{touched-IsConsistent, get-cases}
use gobeyond.Memstore.Writes.{delete_locked_lem, set_valid_lem}

pub record IsSound (s : Store) : Type 0 where
  pub consistent : IsConsistent s
  pub fits : over_limit s ≡ false

-- The key is leased until then, or for longer.
abbrev pub IsLeased : String → ℕ → Store → Type 0
IsLeased key until s = (expiry : ℕ) × (lookup key s.leases ≡ some expiry) × (until ≤ expiry)

-- A sound store that came about from `s`.
pub record Follows (s t : Store) : Type 0 where
  pub sound : IsSound t
  pub grows : (tag : String) → version tag s ≤ version tag t
  pub limits : t.limits ≡ s.limits
  pub leases : (key : String) (until : ℕ) → IsLeased key until s → IsLeased key until t

pub refl-Follows : (s : Store) → IsSound s → Follows s s
refl-Follows s h = record {
  sound = h;
  grows = λ tag. omega arith;
  limits = refl;
  leases = λ key until h. h;
}

pub trans-Follows : {s t u : Store} → Follows s t → Follows t u → Follows s u
trans-Follows p q = record {
  sound = q.sound;
  grows = λ tag. omega (arith, p.grows tag, q.grows tag);
  limits = q.limits ∙ p.limits;
  leases = λ key until h. q.leases key until (p.leases key until h);
}

raised-Follows : (s t : Store) → IsSound s → IsConsistent t → Raises s t → Follows s t
raised-Follows s t h consistent up = record {
  sound = record {
    consistent = consistent;
    fits = ground (arith, h.fits, up.limits, up.fewer, up.smaller);
  };
  grows = up.grows;
  limits = up.limits;
  leases = λ key until h. rw up.leases h;
}

reduced-Follows : (s t : Store) → IsSound s → IsConsistent t → SameBase s t → Follows s t
reduced-Follows s t h consistent same = raised-Follows s t h consistent (record {
  grows = λ tag. ground (arith, same.versions);
  limits = same.limits;
  leases = same.leases;
  fewer = same.fewer;
  smaller = same.smaller;
})

pub observe_versions-Follows :
    (tags : Map ℕ) (s : Store) → IsSound s → Follows s (observe_versions tags s).0
observe_versions-Follows tags s h =
    let (consistent, up) = observe_versions-IsConsistent tags s h.consistent in
    raised-Follows s (observe_versions tags s).0 h consistent up

set_version-Follows :
    (tag : String) (v : ℕ) (s : Store)
    → IsSound s
    → version tag s < v
    → Follows s (set_version tag v s)
set_version-Follows tag v s h newer =
    raised-Follows s (set_version tag v s) h (set_version_lem tag v s h.consistent newer).0
      (set_version-Raises tag v s h.consistent newer)

pub get-Follows : (now : ℕ) (key : String) (s : Store) → IsSound s → Follows s (get now key s).0
get-Follows now key s h = elim (get-cases now key s h.consistent) [
  | inl same ↦ rw same (refl-Follows s h)
  | inr (e, held, inl (_, same)) ↦ rw same (
      reduced-Follows s (remove_element key e s) h
        (remove_element-IsConsistent key e s h.consistent held) (remove_element-SameBase key e s))
  | inr (e, held, inr (_, same)) ↦ rw same (record {
    sound = record { consistent = touched-IsConsistent key e s h.consistent held; fits = h.fits };
    grows = λ tag. omega arith;
    limits = refl;
    leases = λ k until l. l;
  })
]

module _ (now : ℕ) (key : String) (item : Record) (ttl : ℤ) (s : Store) where
  pub set_fresh :
      (observe_versions item.tag_versions s).1 ≡ true
      → set now key item ttl s
        ≡ (set_valid now key item ttl (observe_versions item.tag_versions s).0, stored)
  unfolding set
  set_fresh ok = rw ok refl

  pub set_behind :
      (observe_versions item.tag_versions s).1 ≡ false
      → set now key item ttl s ≡ ((observe_versions item.tag_versions s).0, stale_write)
  unfolding set
  set_behind behind = rw behind refl

  pub set-Follows : IsSound s → IsUnique item.tag_versions → Follows s (set now key item ttl s).0
  set-Follows h map =
      let s' = (observe_versions item.tag_versions s).0 in
      let up = observe_versions-Follows item.tag_versions s h in
      elim (Bool-cases (observe_versions item.tag_versions s).1) [
        | inl ok ↦
            let (consistent, fits, limits, versions, leases) =
              set_valid_lem now key item ttl s' up.sound.consistent map
                (observe_versions_current item.tag_versions s map h.consistent ok) up.sound.fits in
            rw (set_fresh ok) (
              trans-Follows up (record {
                sound = record { consistent = consistent; fits = fits };
                grows = λ tag. ground (arith, versions);
                limits = limits;
                leases = λ k until l. rw leases l;
              }))
        | inr behind ↦ rw (set_behind behind) up
      ]

pub delete_locked-Follows : (key : String) (s : Store) → IsSound s → Follows s (delete_locked key s)
delete_locked-Follows key s h =
    let (consistent, same, _) = delete_locked_lem key s h.consistent in
    reduced-Follows s (delete_locked key s) h consistent same

pub bump_tag-Follows : (tag : String) (s : Store) → IsSound s → Follows s (bump_tag tag s)
unfolding bump_tag
bump_tag-Follows tag s h =
    if_intro (Follows s) (str_eq tag "") (λ _. refl-Follows s h)
      (λ _. set_version-Follows tag (version tag s + 1) s h (omega arith))

pub adopt_tag_version-Follows :
    (tag : String) (v : ℕ) (s : Store) → IsSound s → Follows s (adopt_tag_version tag v s)
unfolding adopt_tag_version
adopt_tag_version-Follows tag v s h =
    if_intro (Follows s) (str_eq tag "") (λ _. refl-Follows s h)
      (λ _.
        if_intro (Follows s) (leb v (version tag s)) (λ _. refl-Follows s h)
          (λ old. set_version-Follows tag v s h (ground arith)))
