-- ===== src/Memstore/Snapshots.antt =====
-- cache/memstore/memstore.go: TagVersions before a load and Set after it. The window between them
-- is any sequence of operations.
use gobeyond.Common.{
  ℕ, ◌<◌, String, ◌≡◌, ◌≢◌, ◌↔◌, none, some, List, [], ◌∷◌, ltb, count, str_eq, if◌then◌else◌,
  if_intro, arith, eq_iff,
}
use gobeyond.Common.Int.{ℤ}
use gobeyond.Common.Maps.{lookup, IsUnique, lookup-insert, insert-IsUnique}
use gobeyond.Memstore.State.{Options, Record, Store, new, version}
use gobeyond.Memstore.Ops.{set, stale_write, tag_versions, Step, run}
use gobeyond.Memstore.Observe.{IsBehind}
use gobeyond.Memstore.Runs.{AreMapSteps, run-Follows}
use gobeyond.Memstore.Promises.{run-new-Follows, set-IsBehind}

tag_versions-IsUnique : (tags : List String) (s : Store) → IsUnique (tag_versions tags s)
unfolding tag_versions
tag_versions-IsUnique [] s = tt
tag_versions-IsUnique (tag ∷ tags) s =
    if_intro IsUnique (str_eq tag "") (λ _. tag_versions-IsUnique tags s)
      (λ _.
        insert-IsUnique tag (version tag s) (tag_versions tags s) (tag_versions-IsUnique tags s))

lookup-tag_versions :
    (t : String) (tags : List String) (s : Store)
    → lookup t (tag_versions tags s)
      ≡ (if str_eq t "" then none else if ltb 0 (count t tags) then some (version t s) else none)
unfolding tag_versions lookup
lookup-tag_versions t [] s = ground arith
lookup-tag_versions t (tag ∷ tags) s = ground (
  arith,
  lookup-tag_versions t tags s,
  lookup-insert tag t (version tag s) (tag_versions tags s),
  eq_iff tag t,
  eq_iff tag "",
  eq_iff t "",
)

-- One of the tags was raised from `s` to `s'`.
abbrev pub IsRaised : List String → Store → Store → Type 0
IsRaised tags s s' =
    (tag : String) × (0 < count tag tags) × (tag ≢ "") × (version tag s < version tag s')

IsBehind-tag_versions :
    (tags : List String) (s s' : Store) → IsBehind (tag_versions tags s) s' ↔ IsRaised tags s s'
IsBehind-tag_versions tags s s' = (
  λ (t, u, held, newer). (
    t,
    ground (arith, held, lookup-tag_versions t tags s),
    λ same. ground (arith, held, lookup-tag_versions t tags s, eq_iff t ""),
    ground (arith, held, newer, lookup-tag_versions t tags s),
  ),
  λ (t, among, named, newer). (
    t,
    version t s,
    ground (arith, among, named, lookup-tag_versions t tags s, eq_iff t ""),
    newer,
  ),
)

module _ (options : Options) (before window : List Step) (tags : List String) (now : ℕ)
    (key : String) (item : Record) (ttl : ℤ) (maps : AreMapSteps before)
    (maps' : AreMapSteps window) where
  -- A record that carries the tag versions read before a window of any operations is refused by
  -- the Set after it exactly when one of its named tags was raised in the window.
  pub set-tag_versions :
      let s = run before (new options) in
      let s' = run window s in
      ((set now key (record item { tag_versions = tag_versions tags s }) ttl s').1 ≡ stale_write)
      ↔ IsRaised tags s s'
  set-tag_versions =
      let s = run before (new options) in
      let first = (run-new-Follows options before maps).sound in
      let later = (run-Follows window s maps' first).sound in
      let (to, from) =
        set-IsBehind now key (record item { tag_versions = tag_versions tags s }) ttl (run window s)
          later.consistent (tag_versions-IsUnique tags s) in
      let (to', from') = IsBehind-tag_versions tags s (run window s) in
      (λ stale. to' (to stale), λ raised. from (from' raised))
