-- ===== src/Memstore/Writes.antt =====
-- cache/memstore/memstore.go: Set, Delete and the tag operations on a consistent store.
use gobeyond.Common.{
  ℕ, ◌+◌, ◌≤◌, String, ◌≡◌, inl, inr, refl, ◌∙◌, true, false, Option, none, some, ◌∷◌, ltb, length,
  arith, eq_iff, Bool-cases,
}
use Prim.Native.String.{len}
use gobeyond.Common.Int.{ℤ}
use gobeyond.Common.Maps.{lookup, IsUnique, lookup-delete, lookup-insert}
use gobeyond.Memstore.State.{
  Record, Entry, Store, version, remove_element, delete_locked, delete_entry, evict_locked,
  over_limit,
}
use gobeyond.Memstore.Ops.{set_valid, store_entry, clamp_ttl}
use gobeyond.Memstore.Consistency.{
  IsConsistent, remove_element-IsConsistent, store_entry-IsConsistent,
}
use gobeyond.Memstore.Versions.{SameBase, refl-SameBase, remove_element-SameBase}
use gobeyond.Memstore.Evict.{evict_locked_lem, evict_locked_front}

module _ (key : String) (s : Store) where
  delete_entry_lem :
      (o : Option Entry)
      → IsConsistent s
      → lookup key s.entries ≡ o
      → IsConsistent (delete_entry key o s)
        × SameBase s (delete_entry key o s)
        × (lookup key (delete_entry key o s).entries ≡ none)
  unfolding remove_element
  delete_entry_lem none h absent = (h, refl-SameBase s, absent)
  delete_entry_lem (some e) h held = (
    remove_element-IsConsistent key e s h held,
    remove_element-SameBase key e s,
    ground (arith, lookup-delete key key s.entries, eq_iff key key),
  )

  pub delete_locked_lem :
      IsConsistent s
      → IsConsistent (delete_locked key s)
        × SameBase s (delete_locked key s)
        × (lookup key (delete_locked key s).entries ≡ none)
  unfolding delete_locked
  delete_locked_lem h = delete_entry_lem (lookup key s.entries) h refl

-- The entry that Set makes.
abbrev pub built_entry : ℕ → String → Record → ℤ → Store → Entry
built_entry now key item ttl s = record {
  item = record item { expires_at = now + clamp_ttl s.limits.max_ttl ttl };
  size = len key + length item.value;
}

module _ (now : ℕ) (key : String) (item : Record) (ttl : ℤ) (s : Store) (h : IsConsistent s)
    (map : IsUnique item.tag_versions)
    (valid : (tag : String) (u : ℕ)
      → lookup tag item.tag_versions ≡ some u
      → version tag s ≡ u) where
  -- The store before Set makes room.
  placed : Store
  placed = store_entry key (built_entry now key item ttl s) (delete_locked key s)

  placed_lem :
      IsConsistent placed
      × (placed.limits ≡ s.limits)
      × (placed.versions ≡ s.versions)
      × (placed.leases ≡ s.leases)
      × (placed.order ≡ key ∷ (delete_locked key s).order)
      × (lookup key placed.entries ≡ some (built_entry now key item ttl s))
  unfolding placed store_entry
  placed_lem =
      let (h', same, absent) = delete_locked_lem key s h in
      (
        store_entry-IsConsistent key (built_entry now key item ttl s) (delete_locked key s) absent
            map (λ tag u p. ground (arith, same.versions, valid tag u p)) h',
        same.limits,
        same.versions,
        same.leases,
        refl,
        ground (
          arith,
          lookup-insert key key (built_entry now key item ttl s) (delete_locked key s).entries,
          eq_iff key key,
        ),
      )

  set_valid_big :
      ltb s.limits.max_bytes (len key + length item.value) ≡ true
      → set_valid now key item ttl s ≡ delete_locked key s
  unfolding set_valid
  set_valid_big big = rw big refl

  set_valid_small :
      ltb s.limits.max_bytes (len key + length item.value) ≡ false
      → set_valid now key item ttl s ≡ evict_locked placed
  unfolding set_valid placed
  set_valid_small small = rw small refl

  -- What is stored is consistent and within the limits.
  pub set_valid_lem :
      over_limit s ≡ false
      → IsConsistent (set_valid now key item ttl s)
        × (over_limit (set_valid now key item ttl s) ≡ false)
        × ((set_valid now key item ttl s).limits ≡ s.limits)
        × ((set_valid now key item ttl s).versions ≡ s.versions)
        × ((set_valid now key item ttl s).leases ≡ s.leases)
  set_valid_lem roomy = elim (Bool-cases (ltb s.limits.max_bytes (len key + length item.value))) [
    | inl big ↦
        let (h', same, _) = delete_locked_lem key s h in
        rw (set_valid_big big) (
          h',
          ground (arith, roomy, same.limits, same.fewer, same.smaller),
          same.limits,
          same.versions,
          same.leases,
        )
    | inr small ↦
        let (h', limits, versions, leases, _, _) = placed_lem in
        let (h'', fits, same) = evict_locked_lem placed h' in
        rw (set_valid_small small)
          (h'', fits, same.limits ∙ limits, same.versions ∙ versions, same.leases ∙ leases)
  ]

  -- An entry that fits is held when Set returns.
  pub set_valid_held :
      1 ≤ s.limits.max_entries
      → len key + length item.value ≤ s.limits.max_bytes
      → lookup key (set_valid now key item ttl s).entries ≡ some (built_entry now key item ttl s)
  set_valid_held room fits =
      let (h', limits, _, _, front, held) = placed_lem in
      rw (set_valid_small (ground arith)) (
        evict_locked_front key (delete_locked key s).order (built_entry now key item ttl s) placed
          h' front held (rw limits room) (rw limits fits))
