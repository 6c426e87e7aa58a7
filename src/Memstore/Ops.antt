-- ===== src/Memstore/Ops.antt =====
-- cache/memstore/memstore.go: the operations of `Store`, each under its lock. A run of the store is
-- a sequence of them.
use Prim.Native.String.{len}
use gobeyond.Common.{
  ℕ, ◌+◌, String, Bool, true, false, Option, none, some, List, [], ◌∷◌, ltb, leb, str_eq, ◌==◌,
  if◌then◌else◌, length, count, erase,
}
use gobeyond.Common.Int.{ℤ, pos, negsuc}
use gobeyond.Common.Maps.{Map, lookup, insert}
use gobeyond.Memstore.State.{
  Record, Entry, Store, version, indexed, remove_element, delete_locked, evict_locked, set_version,
}

-- The loop of observeVersions: false if a recorded version is behind the counter; one that is ahead
-- is adopted.
unfoldable pub observe_versions : Map ℕ → Store → Store × Bool
observe_versions [] s = (s, true)
observe_versions ((tag, v) ∷ tags) s =
    let rest = observe_versions tags (if ltb (version tag s) v then set_version tag v s else s) in
    if ltb v (version tag s) then (s, false) else rest

unfoldable pub get_found : ℕ → String → Entry → Store → Store × Option Record
get_found now key held s =
    if ltb now held.item.expires_at
    then (let (s', valid) = observe_versions held.item.tag_versions s in
        if valid
        then (record s' { order = key ∷ erase key s'.order }, some held.item)
        else (remove_element key held s', none))
    else (remove_element key held s, none)

abbrev get_entry : ℕ → String → Option Entry → Store → Store × Option Record
get_entry now key none s = (s, none)
get_entry now key (some held) s = get_found now key held s

-- Get, at the time `now`
unfoldable pub get : ℕ → String → Store → Store × Option Record
unfolding get_found
get now key s = get_entry now key (lookup key s.entries) s

-- The answer of `Set`.
pub data Stored : Type 0 where
  stored stale_write : Stored

-- `ttl <= 0 || ttl > s.maxTTL` is clamped to the bound.
unfoldable pub clamp_ttl : ℕ → ℤ → ℕ
clamp_ttl max_ttl (pos ttl) = if ttl == 0 then max_ttl else if ltb max_ttl ttl then max_ttl else ttl
clamp_ttl max_ttl (negsuc _) = max_ttl

abbrev pub add_key : String → List String → List String
add_key key keys = if ltb 0 (count key keys) then keys else key ∷ keys

unfoldable pub index_tags : String → Map ℕ → Map (List String) → Map (List String)
index_tags key [] index = index
index_tags key ((tag, v) ∷ tags) index =
    index_tags key tags (insert tag (add_key key (indexed tag index)) index)

unfoldable pub store_entry : String → Entry → Store → Store
store_entry key held s = record s {
  entries = insert key held s.entries;
  order = key ∷ s.order;
  bytes = s.bytes + held.size;
  tag_index = index_tags key held.item.tag_versions s.tag_index;
}

-- The part of `Set` below the version check.
unfoldable pub set_valid : ℕ → String → Record → ℤ → Store → Store
unfolding store_entry
set_valid now key item ttl s =
    let item' = record item { expires_at = now + clamp_ttl s.limits.max_ttl ttl } in
    let size = len key + length item.value in
    if ltb s.limits.max_bytes size
    then delete_locked key s
    else evict_locked (store_entry key (record { item = item'; size = size }) (delete_locked key s))

-- Set, at the time `now`
unfoldable pub set : ℕ → String → Record → ℤ → Store → Store × Stored
set now key item ttl s =
    let (s', valid) = observe_versions item.tag_versions s in
    if valid then (set_valid now key item ttl s', stored) else (s', stale_write)

-- TagVersions
unfoldable pub tag_versions : List String → Store → Map ℕ
tag_versions [] s = []
tag_versions (tag ∷ tags) s =
    let rest = tag_versions tags s in
    if str_eq tag "" then rest else insert tag (version tag s) rest

-- BumpTag
unfoldable pub bump_tag : String → Store → Store
bump_tag tag s = if str_eq tag "" then s else set_version tag (version tag s + 1) s

-- AdoptTagVersion
unfoldable pub adopt_tag_version : String → ℕ → Store → Store
adopt_tag_version tag v s =
    if str_eq tag "" then s else if leb v (version tag s) then s else set_version tag v s

abbrev pub is_held : ℕ → Option ℕ → Bool
is_held now none = false
is_held now (some expiry) = ltb now expiry

-- AcquireLease, at the time `now`
unfoldable pub acquire_lease : ℕ → String → ℤ → Store → Store × Bool
acquire_lease now key (negsuc _) s = (s, false)
acquire_lease now key (pos ttl) s =
    if ttl == 0
    then (s, false)
    else if is_held now (lookup key s.leases)
    then (s, false)
    else (record s { leases = insert key (now + ttl) s.leases }, true)

-- One step of a run.
pub data Step : Type 0 where
  get_step : ℕ → String → Step
  set_step : ℕ → String → Record → ℤ → Step
  delete_step bump_step : String → Step
  adopt_step : String → ℕ → Step
  lease_step : ℕ → String → ℤ → Step

unfoldable pub apply : Step → Store → Store
apply (get_step now key) s = (get now key s).0
apply (set_step now key item ttl) s = (set now key item ttl s).0
apply (delete_step key) s = delete_locked key s
apply (bump_step tag) s = bump_tag tag s
apply (adopt_step tag v) s = adopt_tag_version tag v s
apply (lease_step now key ttl) s = (acquire_lease now key ttl s).0

unfoldable pub run : List Step → Store → Store
run [] s = s
run (st ∷ steps) s = run steps (apply st s)
