-- ===== src/Residency/Promises/Reads.antt =====
-- residency/: what a `Get` finds.
use gobeyond.Common.{ℕ, ◌≤◌, ◌≡◌, refl, ◌∙◌, false, none, some, arith, String}
use gobeyond.Common.Maps.{lookup, lookup-adjust, length-adjust}
use gobeyond.Residency.State.{Limits, Cache, Entry}
use gobeyond.Residency.Slru.{insert_entry, fresh_entry}
use gobeyond.Residency.Slru.Survive.{HasRoom, lookup-insert_entry}
use gobeyond.Residency.Slru.Touch.{IsSameContents, trans-IsSameContents, touch_lem}
use gobeyond.Residency.Negative.{remove_negative}
use gobeyond.Residency.Negative.Order.{remove_negative_lem}
use gobeyond.Residency.Ops.{
  hit, value, get, get_entry, finish_load, land, keep_loaded, is_idle, hit_entry, stamp,
}
use gobeyond.Residency.Bounds.Frames.{insert_entry-SameNegative}
use gobeyond.Residency.Bounds.Halves.{stamped, stamped-IsSoundEntries}
use gobeyond.Residency.Bounds.Gets.{IsSound, lookup-stamped}
use gobeyond.Residency.Bounds.Loads.{land_lem}
use gobeyond.Residency.Bounds.Sweeps.{remove_negative-IsSound}

module _ {ℓ} {V : Type ℓ} where
  -- A resident entry that is not idle is what `get` returns.
  pub get_resident :
      (now : ℕ) (k : String) (e : Entry V) (c : Cache V)
      → c.closed ≡ false
      → lookup k c.entries ≡ some e
      → is_idle c.limits.idle now e.last_access ≡ false
      → get none now k c ≡ (hit_entry now k e c, hit e.value)
  unfolding get get_entry
  get_resident now k e c is_open held live = simp (is_open, held, live)

  stamped-IsSameContents : (now : ℕ) (k : String) (c : Cache V) → IsSameContents c (stamped now k c)
  stamped-IsSameContents now k c = record {
    held = λ j. ground (arith, lookup-adjust k j (stamp now) c.entries);
    size = length-adjust k (stamp now) c.entries;
    bytes = refl;
  }

  -- A `Get` of a resident entry of a sound cache that is not idle returns its value and changes no
  -- value, no weight and neither of the two sizes that the budgets bound: it evicts nothing.
  pub get_hit :
      (l : Limits) (now : ℕ) (k : String) (e : Entry V) (c : Cache V)
      → IsSound l c
      → c.closed ≡ false
      → lookup k c.entries ≡ some e
      → is_idle c.limits.idle now e.last_access ≡ false
      → ((get none now k c).1 ≡ hit e.value) × IsSameContents c (get none now k c).0
  unfolding hit_entry
  get_hit l now k e c s is_open held live =
      let (_, same, _) =
        touch_lem k (stamp now e) (stamped now k c) (stamped-IsSoundEntries now k e c held s.0).tidy
          (lookup-stamped l now k e c held) in
      rw (get_resident now k e c is_open held live)
        (refl, trans-IsSameContents (stamped-IsSameContents now k c) same)

  -- What landing the flight and forgetting a failure leave as it was.
  landed_limits : (k : String) (f : ℕ) (c : Cache V) → (land k f c).limits ≡ c.limits
  unfolding land
  landed_limits k f c = ground arith

  pub landed_closed : (k : String) (f : ℕ) (c : Cache V) → (land k f c).closed ≡ c.closed
  unfolding land
  landed_closed k f c = ground arith

  module _ (l : Limits) (now : ℕ) (k : String) (f weight : ℕ) (v : V) (c : Cache V)
      (s : IsSound l c) (is_open : c.closed ≡ false) (fits : weight ≤ l.oversize_bytes) where
    ready : Cache V
    ready = remove_negative k (land k f c)

    ready-IsSound : IsSound l ready
    unfolding ready
    ready-IsSound = remove_negative-IsSound l k (land k f c) (land_lem l k f c s)

    ready_closed : ready.closed ≡ false
    unfolding ready
    ready_closed =
        let (_, same, _) = remove_negative_lem k (land k f c) (land_lem l k f c s).1.ordered in
        same.closed ∙ landed_closed k f c ∙ is_open

    kept : finish_load now k f weight (value v) c ≡ insert_entry now k v weight ready
    unfolding finish_load keep_loaded ready
    kept = simp is_open (ground (arith, landed_limits k f c, s.1.limits))

    -- A finished load that is not oversized is resident under the weight that it reports, in a sound
    -- cache that is open and whose limits leave room for an entry beside a full protected segment.
    pub lookup-finish_load :
        HasRoom l
        → lookup k (finish_load now k f weight (value v) c).entries
          ≡ some (fresh_entry v weight now)
    lookup-finish_load room = rw kept (
        lookup-insert_entry now k v weight ready (rw ready-IsSound.1.limits fits)
          (rw ready-IsSound.1.limits room) ready-IsSound.0.tidy)

    -- So the next `Get` of the key returns the loaded value, until the entry is idle.
    pub get-finish_load :
        (later : ℕ)
        → HasRoom l
        → is_idle l.idle later now ≡ false
        → (get none later k (finish_load now k f weight (value v) c)).1 ≡ hit v
    get-finish_load later room live =
        let d = finish_load now k f weight (value v) c in
        let frame = insert_entry-SameNegative now k v weight ready in
        let limits : d.limits ≡ l = rw kept (frame.limits ∙ ready-IsSound.1.limits) in
        let closed : d.closed ≡ false = rw kept (frame.closed ∙ ready_closed) in
        rw
          (get_resident later k (fresh_entry v weight now) d closed (lookup-finish_load room)
            (rw limits live))
          refl
