-- ===== src/Memstore/Consistency.antt =====
-- cache/memstore/memstore.go: the key map, the recency list, the index and the tag versions agree,
-- and removing or storing an entry keeps that.
use gobeyond.Common.{
  ℕ, ◌<◌, Bool, Option, false, String, ◌≡◌, ◌≢◌, ◌⊎◌, inl, inr, none, some, length, count,
  count-erase, length-erase, is_some, str_eq, if◌then◌else◌, arith, eq_iff, Bool-cases,
}
use gobeyond.Common.Maps.{
  lookup, insert, lookup-insert, lookup-delete, IsUnique, delete-IsUnique, insert-IsUnique,
  length-delete, total, total-delete, delete_absent,
}
use gobeyond.Memstore.State.{Entry, Store, version, indexed, remove_element}
use gobeyond.Memstore.Ops.{store_entry}
use gobeyond.Memstore.Index.{
  IsFilled, count-unindex_all, unindex_all-IsFilled, count-index_tags, index_tags-IsFilled,
}

abbrev pub size_of : Entry → ℕ
size_of e = e.size

-- The entry under `key` was built under version `u` of `tag`.
pub record Uses (s : Store) (key tag : String) (u : ℕ) : Type 0 where
  pub entry : Entry
  pub held : lookup key s.entries ≡ some entry
  pub built : lookup tag entry.item.tag_versions ≡ some u

-- Whether the record of an entry records a version of the tag.
abbrev pub carries : String → Option Entry → Bool
carries tag none = false
carries tag (some e) = is_some (lookup tag e.item.tag_versions)

-- The parts of the store agree, all but the tag versions: the recency list holds the resident keys,
-- once each, and the index has a key under a tag, once, exactly when the record carries the tag.
pub record IsShaped (s : Store) : Type 0 where
  pub unique : IsUnique s.entries
  pub on_order : (k : String) → count k s.order ≡ (if is_some (lookup k s.entries) then 1 else 0)
  pub sizes : length s.order ≡ length s.entries
  pub bytes : s.bytes ≡ total size_of s.entries
  pub on_index :
      (key tag : String)
      → count key (indexed tag s.tag_index) ≡ (if carries tag (lookup key s.entries) then 1 else 0)
  pub filled : IsFilled s.tag_index
  pub maps :
      (key : String) (e : Entry) → lookup key s.entries ≡ some e → IsUnique e.item.tag_versions

-- An entry that was built under a version of a tag is in the index.
pub covered :
    (s : Store) (key tag : String) (u : ℕ)
    → IsShaped s
    → Uses s key tag u
    → 0 < count key (indexed tag s.tag_index)
covered s key tag u h w = ground (arith, h.on_index key tag, w.held, w.built)

-- No entry is out of date.
abbrev pub IsCurrent : Store → Type 0
IsCurrent s = (key tag : String) (u : ℕ) → Uses s key tag u → version tag s ≡ u

pub record IsConsistent (s : Store) : Type 0 where
  pub shaped : IsShaped s
  pub current : IsCurrent s

module _ (key : String) (e : Entry) (s : Store) where
  -- What is left after a removal was there before, under another key.
  pub Uses-remove_element :
      (j tag : String) (u : ℕ) → Uses (remove_element key e s) j tag u → Uses s j tag u × (j ≢ key)
  unfolding remove_element
  Uses-remove_element j tag u w = (
    record {
      entry = w.entry;
      held = ground (arith, w.held, lookup-delete key j s.entries);
      built = w.built;
    },
    λ same. ground (arith, w.held, lookup-delete key j s.entries, eq_iff key j),
  )

  pub remove_element-IsShaped :
      IsShaped s → lookup key s.entries ≡ some e → IsShaped (remove_element key e s)
  unfolding remove_element
  remove_element-IsShaped h held = record {
    unique = delete-IsUnique key s.entries h.unique;
    on_order = λ k. ground (
      arith,
      h.on_order k,
      h.on_order key,
      count-erase key k s.order,
      lookup-delete key k s.entries,
      eq_iff key k,
    );
    sizes = ground (
      arith,
      h.sizes,
      h.on_order key,
      length-erase key s.order,
      length-delete key e s.entries h.unique held,
    );
    bytes = ground (arith, h.bytes, total-delete key size_of e s.entries h.unique held);
    on_index = λ j tag. ground (
      arith,
      h.on_index j tag,
      count-unindex_all key j tag e.item.tag_versions s.tag_index
          (ground (arith, h.on_index j tag)),
      held,
      lookup-delete key j s.entries,
      eq_iff key j,
    );
    filled = unindex_all-IsFilled key e.item.tag_versions s.tag_index h.filled;
    maps = λ j d p. h.maps j d (ground (arith, p, lookup-delete key j s.entries));
  }

  pub remove_element-IsConsistent :
      IsConsistent s → lookup key s.entries ≡ some e → IsConsistent (remove_element key e s)
  unfolding remove_element
  remove_element-IsConsistent h held = record {
    shaped = remove_element-IsShaped h.shaped held;
    current = λ j tag u w. h.current j tag u (Uses-remove_element j tag u w).0;
  }

  -- An entry that is stored is the one stored, or was there before.
  Uses-store_entry :
      (j tag : String) (u : ℕ)
      → lookup key s.entries ≡ none
      → Uses (store_entry key e s) j tag u
      → (key ≡ j) × (lookup tag e.item.tag_versions ≡ some u) ⊎ Uses s j tag u
  unfolding store_entry
  Uses-store_entry j tag u absent w = elim (Bool-cases (str_eq key j)) [
    | inl same ↦
        inl
          ((eq_iff key j).0 same, ground (arith, w.held, w.built, lookup-insert key j e s.entries))
    | inr other ↦ inr (record {
      entry = w.entry;
      held = ground (arith, w.held, lookup-insert key j e s.entries);
      built = w.built;
    })
  ]

  pub store_entry-IsConsistent :
      lookup key s.entries ≡ none
      → IsUnique e.item.tag_versions
      → ((tag : String) (u : ℕ) → lookup tag e.item.tag_versions ≡ some u → version tag s ≡ u)
      → IsConsistent s
      → IsConsistent (store_entry key e s)
  unfolding store_entry insert total
  store_entry-IsConsistent absent map valid h = record {
    shaped = record {
      unique = insert-IsUnique key e s.entries h.shaped.unique;
      on_order = λ k. ground (
        arith,
        h.shaped.on_order k,
        h.shaped.on_order key,
        lookup-insert key k e s.entries,
        eq_iff key k,
      );
      sizes = ground (arith, h.shaped.sizes, delete_absent key s.entries absent);
      bytes = ground (arith, h.shaped.bytes, delete_absent key s.entries absent);
      on_index = λ j tag. ground (
        arith,
        h.shaped.on_index j tag,
        count-index_tags key j tag e.item.tag_versions s.tag_index
            (ground (arith, h.shaped.on_index j tag)),
        absent,
        lookup-insert key j e s.entries,
        eq_iff key j,
      );
      filled = index_tags-IsFilled key e.item.tag_versions s.tag_index h.shaped.filled;
      maps = λ j d p. elim (Bool-cases (str_eq key j)) [
        | inl same ↦
            let d_is : e ≡ d = ground (arith, p, lookup-insert key j e s.entries) in rw (← d_is) map
        | inr other ↦ h.shaped.maps j d (ground (arith, p, lookup-insert key j e s.entries))
      ];
    };
    current = λ j tag u w. elim (Uses-store_entry j tag u absent w) [
      | inl (same, built) ↦ valid tag u built
      | inr before ↦ h.current j tag u before
    ];
  }
