-- ===== src/Memstore/State.antt =====
-- cache/memstore/memstore.go and cache/store.go: the options, a record, the fields of `Store` and
-- its locked helpers. A list element of `order` is the key of its entry; a set of keys is a list.
-- Times are nanoseconds; tag versions are counters that start at 0.
use gobeyond.Common.{
  ℕ, zero, suc, ◌-◌, ◌*◌, String, Bool, true, false, ◌||◌, Option, none, some, List, [], ◌∷◌, ltb,
  ◌==◌, if◌then◌else◌, length, back, erase,
}
use gobeyond.Common.Int.{ℤ, pos, negsuc}
use gobeyond.Common.Maps.{Map, lookup, insert, delete}

abbrev pub default_max_entries : ℕ
default_max_entries = 2048

abbrev pub default_max_bytes : ℕ
default_max_bytes = 33554432

abbrev pub default_max_ttl : ℕ
default_max_ttl = 60 * 1000000000

pub record Options : Type 0 where
  pub max_entries : ℤ
  pub max_bytes : ℤ
  pub max_ttl : ℤ

-- cache.Record
pub record Record : Type 0 where
  pub value : List ℕ
  pub tag_versions : Map ℕ
  pub fresh_until : ℕ
  pub expires_at : ℕ

pub record Entry : Type 0 where
  pub item : Record
  pub size : ℕ

pub record Limits : Type 0 where
  pub max_entries : ℕ
  pub max_bytes : ℕ
  pub max_ttl : ℕ

pub record Store : Type 0 where
  pub limits : Limits
  pub order : List String
  pub entries : Map Entry
  pub tag_index : Map (List String)
  pub versions : Map ℕ
  pub leases : Map ℕ
  pub bytes : ℕ

abbrev pub positive_or : ℕ → ℤ → ℕ
positive_or def (pos n) = if n == 0 then def else n
positive_or def (negsuc n) = def

unfoldable pub new : Options → Store
new options = record {
  limits = record {
    max_entries = positive_or default_max_entries options.max_entries;
    max_bytes = positive_or default_max_bytes options.max_bytes;
    max_ttl = positive_or default_max_ttl options.max_ttl;
  };
  order = [];
  entries = [];
  tag_index = [];
  versions = [];
  leases = [];
  bytes = 0;
}

-- A missing key of a Go map reads as the zero value.
abbrev pub or_zero : Option ℕ → ℕ
or_zero none = 0
or_zero (some n) = n

abbrev pub or_empty : Option (List String) → List String
or_empty none = []
or_empty (some ks) = ks

-- s.versions[tag]
abbrev pub version : String → Store → ℕ
version tag s = or_zero (lookup tag s.versions)

-- s.tagIndex[tag]
abbrev pub indexed : String → Map (List String) → List String
indexed tag index = or_empty (lookup tag index)

-- `delete(keys, key)`, and the tag goes with its last key.
abbrev pub shrink : String → List String → Map (List String) → Map (List String)
shrink tag [] index = delete tag index
shrink tag (k ∷ ks) index = insert tag (k ∷ ks) index

abbrev pub unindex_in :
    String → String → Option (List String) → Map (List String) → Map (List String)
unindex_in tag key none index = index
unindex_in tag key (some keys) index = shrink tag (erase key keys) index

unfoldable pub unindex : String → String → Map (List String) → Map (List String)
unindex tag key index = unindex_in tag key (lookup tag index) index

-- The loop of removeElement over the tags of the record.
unfoldable pub unindex_all : String → Map ℕ → Map (List String) → Map (List String)
unfolding unindex
unindex_all key [] index = index
unindex_all key ((tag, v) ∷ tags) index = unindex_all key tags (unindex tag key index)

-- removeElement, of the entry `e` with the key `key`
unfoldable pub remove_element : String → Entry → Store → Store
remove_element key e s = record s {
  order = erase key s.order;
  entries = delete key s.entries;
  bytes = s.bytes - e.size;
  tag_index = unindex_all key e.item.tag_versions s.tag_index;
}

abbrev pub delete_entry : String → Option Entry → Store → Store
delete_entry key none s = s
delete_entry key (some e) s = remove_element key e s

-- deleteLocked
unfoldable pub delete_locked : String → Store → Store
delete_locked key s = delete_entry key (lookup key s.entries) s

abbrev pub over_limit : Store → Bool
over_limit s = ltb s.limits.max_entries (length s.entries) || ltb s.limits.max_bytes s.bytes

unfoldable pub evict_oldest : Option String → Store → Option Store
evict_oldest none s = none
evict_oldest (some key) s = elim (lookup key s.entries) [
  | none ↦ none
  | some e ↦ some (remove_element key e s)
]

-- The loop of evictLocked; each round removes an entry, so their number is fuel enough. A list
-- element holds its entry, so the look-up of its key never misses in a consistent store.
unfoldable pub evict_loop : ℕ → Store → Store
unfolding evict_oldest
evict_loop zero s = s
evict_loop (suc fuel) s = elim (over_limit s) [
  | false ↦ s
  | true ↦ elim (evict_oldest (back s.order) s) [ none ↦ s | some s' ↦ evict_loop fuel s' ]
]

-- evictLocked
unfoldable pub evict_locked : Store → Store
unfolding evict_loop
evict_locked s = evict_loop (length s.entries) s

abbrev pub drop_if_stale : String → String → ℕ → Option Entry → Store → Store
drop_if_stale key tag v none s = s
drop_if_stale key tag v (some e) s =
    if ltb (or_zero (lookup tag e.item.tag_versions)) v then remove_element key e s else s

-- The loop of setVersionLocked over the keys of the tag, as they stand when it begins.
unfoldable pub drop_stale : List String → String → ℕ → Store → Store
drop_stale [] tag v s = s
drop_stale (key ∷ keys) tag v s =
    drop_stale keys tag v (drop_if_stale key tag v (lookup key s.entries) s)

abbrev pub forget_tag : String → List String → Store → Store
forget_tag tag [] s = record s { tag_index = delete tag s.tag_index }
forget_tag tag (k ∷ ks) s = s

-- setVersionLocked
unfoldable pub set_version : String → ℕ → Store → Store
set_version tag v s =
    let s' =
      drop_stale (indexed tag s.tag_index) tag v
        (record s { versions = insert tag v s.versions }) in
    forget_tag tag (indexed tag s'.tag_index) s'
