-- ===== src/Memstore/Examples.antt =====
-- cache/memstore/: runs of the store, and its promises at concrete inputs.
use gobeyond.Common.{
  ◌≤◌, ◌<◌, ◌≡◌, ◌↔◌, refl, false, none, some, List, [], ◌∷◌, length, arith, erase, back, eq_iff,
}
use gobeyond.Common.Int.{pos, negsuc}
use gobeyond.Common.Maps.{lookup, delete, insert, total}
use gobeyond.Memstore.State.{
  Options, Record, Store, new, version, unindex, unindex_all, remove_element, delete_locked,
  evict_oldest, evict_loop, evict_locked, drop_stale, set_version,
}
use gobeyond.Memstore.Ops.{
  get, get_found, set, set_valid, store_entry, index_tags, clamp_ttl, observe_versions, stale_write,
  tag_versions, bump_tag, acquire_lease, Step, get_step, set_step, apply, run,
}
use gobeyond.Memstore.Consistency.{IsConsistent, size_of}
use gobeyond.Memstore.Runs.{AreMapSteps}
use gobeyond.Memstore.Promises.{run-IsSound, get-current, get-bump_tag, get-set, acquire_lease-run}
use gobeyond.Memstore.Snapshots.{set-tag_versions, IsRaised}

-- Two entries, 20 bytes, at most 100 long.
abbrev small : Options
small = record { max_entries = pos 2; max_bytes = pos 20; max_ttl = pos 100 }

abbrev page : Record
page = record {
  value = 1 ∷ 2 ∷ [];
  tag_versions = ("posts", 0) ∷ [];
  fresh_until = 0;
  expires_at = 0;
}

abbrev newer_page : Record
newer_page = record {
  value = 3 ∷ [];
  tag_versions = ("posts", 2) ∷ ("users", 0) ∷ [];
  fresh_until = 0;
  expires_at = 0;
}

abbrev steps : List Step
steps =
    set_step 1 "a" page (pos 50)
    ∷ set_step 2 "b" page (pos 500)
    ∷ get_step 3 "a"
    ∷ set_step 4 "c" page (negsuc 0)
    ∷ []

abbrev busy : Store
busy = run steps (new small)

-- The third entry evicts the second, which was used least recently.
busy_lem :
    (busy.order ≡ "c" ∷ "a" ∷ [])
    × (busy.bytes ≡ 6)
    × (version "posts" busy ≡ 0)
    × ((get 50 "a" busy).1 ≡ some (record page { expires_at = 51 }))
    × ((get 51 "a" busy).1 ≡ none)
    × ((get 103 "c" busy).1 ≡ some (record page { expires_at = 104 }))
    × ((set 5 "d" newer_page (pos 9) busy).0.order ≡ "d" ∷ [])
    × ((set 5 "d" page (pos 9) (bump_tag "posts" busy)).1 ≡ stale_write)
unfolding run apply get get_found set set_valid store_entry index_tags clamp_ttl observe_versions
    bump_tag new unindex unindex_all remove_element delete_locked evict_oldest evict_loop
    evict_locked drop_stale set_version lookup delete insert erase back
busy_lem = (refl, refl, refl, refl, refl, refl, refl, refl)

maps : AreMapSteps steps
unfolding lookup
maps = ((refl, tt), ((refl, tt), (tt, ((refl, tt), tt))))

run-IsSound_example :
    IsConsistent busy
    × (busy.limits ≡ (new small).limits)
    × (length busy.entries ≤ busy.limits.max_entries)
    × (busy.bytes ≤ busy.limits.max_bytes)
    × (busy.bytes ≡ total size_of busy.entries)
run-IsSound_example = run-IsSound small steps maps

get-current_example : (3 < 51) × (version "posts" busy ≡ 0)
unfolding busy_lem lookup
get-current_example =
    get-current small steps 3 "a" (record page { expires_at = 51 }) "posts" 0 maps refl refl

-- Another process's page raises the tag past the bump.
abbrev after : List Step
after = set_step 5 "d" newer_page (pos 9) ∷ get_step 6 "a" ∷ []

after_maps : AreMapSteps after
unfolding lookup
after_maps = ((refl, (refl, tt)), (tt, tt))

get-bump_tag_example : version "posts" busy < 2
unfolding busy_lem
get-bump_tag_example =
    get-bump_tag small steps after "posts" "d" 7 2 (record newer_page { expires_at = 14 }) maps
      after_maps (λ same. ground (arith, eq_iff "posts" "")) refl refl

get-set_example :
    (get 60 "e" (set 55 "e" page (pos 10) busy).0).1 ≡ some (record page { expires_at = 65 })
unfolding busy_lem
get-set_example = get-set small steps 55 "e" page (pos 10) maps (refl, tt) 60 refl (omega arith)

set-tag_versions_example :
    ((set 9 "a"
        (record page { tag_versions = tag_versions ("posts" ∷ "" ∷ []) busy })
        (pos 1)
        (run after busy)).1
      ≡ stale_write)
    ↔ IsRaised ("posts" ∷ "" ∷ []) busy (run after busy)
set-tag_versions_example =
    set-tag_versions small steps after ("posts" ∷ "" ∷ []) 9 "a" page (pos 1) maps after_maps

acquire_lease-run_example :
    (acquire_lease 19 "a" (pos 5) (run after (acquire_lease 10 "a" (pos 10) busy).0)).1 ≡ false
unfolding busy_lem acquire_lease
acquire_lease-run_example =
    acquire_lease-run small steps after 10 19 "a" (pos 10) (pos 5) maps after_maps refl
      (omega arith)
