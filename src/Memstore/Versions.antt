-- ===== src/Memstore/Versions.antt =====
-- cache/memstore/memstore.go: a new tag version. Every entry built under an older one is gone when
-- setVersionLocked returns.
use gobeyond.Common.{
  ℕ, ◌≤◌, ◌<◌, String, ◌≡◌, ◌⊎◌, inl, inr, refl, Option, none, some, List, [], ◌∷◌, count, length,
  ltb, str_eq, if◌then◌else◌, if_intro, arith, eq_iff, Bool-cases, sym,
}
use gobeyond.Common.Maps.{
  Map, lookup, insert, delete, lookup-insert, lookup-delete, length-delete-le,
}
use gobeyond.Memstore.State.{
  Entry, Store, version, indexed, remove_element, drop_if_stale, drop_stale, forget_tag,
  set_version, or_zero,
}
use gobeyond.Memstore.Index.{delete-IsFilled}
use gobeyond.Memstore.Consistency.{
  Uses, IsShaped, covered, IsConsistent, Uses-remove_element, remove_element-IsShaped,
}

-- While the loop runs: an entry is current, or it is an old one whose key is yet to come.
abbrev IsCurrentBut : List String → String → ℕ → Store → Type 0
IsCurrentBut keys tag v s =
    (key t : String) (u : ℕ)
    → Uses s key t u
    → (version t s ≡ u) ⊎ ((t ≡ tag) × (u < v) × (0 < count key keys))

abbrev IsDropping : List String → String → ℕ → Store → Type 0
IsDropping keys tag v s = IsShaped s × IsCurrentBut keys tag v s

module _ (key : String) (keys : List String) (tag : String) (v : ℕ) where
  -- A key that holds nothing old can be passed.
  pass_key :
      (s : Store)
      → ((u : ℕ) → Uses s key tag u → v ≤ u)
      → IsDropping (key ∷ keys) tag v s
      → IsDropping keys tag v s
  pass_key s fresh (h, but) = (
    h,
    λ j t u w. elim (but j t u w) [
      | inl now ↦ inl now
      | inr (same, old, left) ↦ elim (Bool-cases (str_eq key j)) [
        | inl here ↦ absurd (omega (arith, fresh u (rw (← same, (eq_iff key j).0 here) w)))
        | inr there ↦ inr (same, old, ground arith)
      ]
    ],
  )

  drop_held :
      (s : Store) (o : Option Entry)
      → lookup key s.entries ≡ o
      → IsDropping (key ∷ keys) tag v s
      → IsDropping keys tag v (drop_if_stale key tag v o s)
  drop_held s none found d = pass_key s (λ u w. absurd (cc (w.held, found))) d
  drop_held s (some e) found (h, but) =
      if_intro (IsDropping keys tag v) (ltb (or_zero (lookup tag e.item.tag_versions)) v)
        (λ _. (
          remove_element-IsShaped key e s h found,
          λ j t u w.
              let (before, other) = Uses-remove_element key e s j t u w in
              elim (but j t u before) [
                | inl now ↦ inl (unfold remove_element in now)
                | inr (same, old, left) ↦ inr (same, old, ground (arith, eq_iff key j))
              ],
        ))
        (λ kept. pass_key s (λ u w. ground (arith, w.held, w.built, found)) (h, but))

  drop_step :
      (s : Store)
      → IsDropping (key ∷ keys) tag v s
      → IsDropping keys tag v (drop_if_stale key tag v (lookup key s.entries) s)
  drop_step s d = drop_held s (lookup key s.entries) refl d

drop_stale_lem :
    (keys : List String) (tag : String) (v : ℕ) (s : Store)
    → IsDropping keys tag v s
    → IsDropping [] tag v (drop_stale keys tag v s)
unfolding drop_stale
drop_stale_lem [] tag v s d = d
drop_stale_lem (key ∷ keys) tag v s d =
    drop_stale_lem keys tag v (drop_if_stale key tag v (lookup key s.entries) s)
      (drop_step key keys tag v s d)

-- What the loop leaves alone.
pub record SameBase (s t : Store) : Type 0 where
  pub limits : t.limits ≡ s.limits
  pub versions : t.versions ≡ s.versions
  pub leases : t.leases ≡ s.leases
  pub fewer : length t.entries ≤ length s.entries
  pub smaller : t.bytes ≤ s.bytes

pub refl-SameBase : (s : Store) → SameBase s s
refl-SameBase s = record {
  limits = refl;
  versions = refl;
  leases = refl;
  fewer = omega arith;
  smaller = omega arith;
}

pub remove_element-SameBase :
    (key : String) (e : Entry) (s : Store) → SameBase s (remove_element key e s)
unfolding remove_element
remove_element-SameBase key e s = record {
  limits = refl;
  versions = refl;
  leases = refl;
  fewer = length-delete-le key s.entries;
  smaller = omega arith;
}

drop_if_stale-SameBase :
    (key tag : String) (v : ℕ) (o : Option Entry) (s : Store)
    → SameBase s (drop_if_stale key tag v o s)
drop_if_stale-SameBase key tag v none s = refl-SameBase s
drop_if_stale-SameBase key tag v (some e) s =
    if_intro (SameBase s) (ltb (or_zero (lookup tag e.item.tag_versions)) v)
      (λ _. remove_element-SameBase key e s) (λ _. refl-SameBase s)

pub trans-SameBase : {s t u : Store} → SameBase s t → SameBase t u → SameBase s u
trans-SameBase p q = record {
  limits = cc (p.limits, q.limits);
  versions = cc (p.versions, q.versions);
  leases = cc (p.leases, q.leases);
  fewer = omega (arith, p.fewer, q.fewer);
  smaller = omega (arith, p.smaller, q.smaller);
}

drop_stale-SameBase :
    (keys : List String) (tag : String) (v : ℕ) (s : Store) → SameBase s (drop_stale keys tag v s)
unfolding drop_stale
drop_stale-SameBase [] tag v s = refl-SameBase s
drop_stale-SameBase (key ∷ keys) tag v s =
    trans-SameBase (drop_if_stale-SameBase key tag v (lookup key s.entries) s)
      (drop_stale-SameBase keys tag v (drop_if_stale key tag v (lookup key s.entries) s))

indexed-delete_empty :
    (tag t : String) (index : Map (List String))
    → indexed tag index ≡ []
    → indexed t (delete tag index) ≡ indexed t index
indexed-delete_empty tag t index h = ground (arith, lookup-delete tag t index, eq_iff tag t)

forgotten_IsConsistent :
    (tag : String) (s : Store)
    → indexed tag s.tag_index ≡ []
    → IsConsistent s
    → IsConsistent (record s { tag_index = delete tag s.tag_index })
forgotten_IsConsistent tag s empty h = record {
  shaped = record {
    unique = h.shaped.unique;
    on_order = h.shaped.on_order;
    sizes = h.shaped.sizes;
    bytes = h.shaped.bytes;
    on_index = λ key t. rw (indexed-delete_empty tag t s.tag_index empty) (h.shaped.on_index key t);
    filled = delete-IsFilled tag s.tag_index h.shaped.filled;
    maps = h.shaped.maps;
  };
  current =
      λ key t u w. h.current key t u (record { entry = w.entry; held = w.held; built = w.built });
}

forget_tag-IsConsistent :
    (tag : String) (keys : List String) (s : Store)
    → indexed tag s.tag_index ≡ keys
    → IsConsistent s
    → IsConsistent (forget_tag tag keys s) × SameBase s (forget_tag tag keys s)
forget_tag-IsConsistent tag [] s empty h = (
  forgotten_IsConsistent tag s empty h,
  record {
    limits = refl;
    versions = refl;
    leases = refl;
    fewer = omega arith;
    smaller = omega arith;
  },
)
forget_tag-IsConsistent tag (k ∷ ks) s found h = (h, refl-SameBase s)

module _ (tag : String) (v : ℕ) (s : Store) (h : IsConsistent s) (newer : version tag s < v) where
  -- The store when the loop begins.
  raised : Store
  raised = record s { versions = insert tag v s.versions }

  raised-IsDropping : IsDropping (indexed tag s.tag_index) tag v raised
  unfolding raised
  raised-IsDropping = (
    record {
      unique = h.shaped.unique;
      on_order = h.shaped.on_order;
      sizes = h.shaped.sizes;
      bytes = h.shaped.bytes;
      on_index = h.shaped.on_index;
      filled = h.shaped.filled;
      maps = h.shaped.maps;
    },
    λ key t u w.
        let before : Uses s key t u = record { entry = w.entry; held = w.held; built = w.built } in
        elim (Bool-cases (str_eq tag t)) [
          | inl same ↦
              let e = (eq_iff tag t).0 same in
              let old : version tag s ≡ u = rw (← e) at (h.current key t u before) in
              let left : 0 < count key (indexed tag s.tag_index) =
                rw (← e) at (covered s key t u h.shaped before) in
              inr (sym e, omega (arith, old, newer), left)
          | inr other ↦
              inl (ground (arith, h.current key t u before, lookup-insert tag t v s.versions))
        ],
  )

  -- A newer version of a tag is in force, no entry built under an older one is left, and nothing
  -- else changes but entries that go.
  pub set_version_lem :
      IsConsistent (set_version tag v s)
      × ((t : String) → version t (set_version tag v s) ≡ (if str_eq tag t then v else version t s))
      × ((set_version tag v s).limits ≡ s.limits)
      × ((set_version tag v s).leases ≡ s.leases)
      × (length (set_version tag v s).entries ≤ length s.entries)
      × ((set_version tag v s).bytes ≤ s.bytes)
  unfolding set_version raised
  set_version_lem =
      let keys = indexed tag s.tag_index in
      let s' = drop_stale keys tag v raised in
      let (shaped, but) = drop_stale_lem keys tag v raised raised-IsDropping in
      let base = drop_stale-SameBase keys tag v raised in
      let done : IsConsistent s' = record {
        shaped = shaped;
        current = λ key t u w. elim (but key t u w) [
          | inl now ↦ now
          | inr (_, _, left) ↦ absurd (omega arith)
        ];
      } in
      let (consistent, last) =
        forget_tag-IsConsistent tag (indexed tag s'.tag_index) s' refl done in
      let all = trans-SameBase base last in
      (
        consistent,
        λ t. ground (arith, all.versions, lookup-insert tag t v s.versions),
        all.limits,
        all.leases,
        all.fewer,
        all.smaller,
      )
