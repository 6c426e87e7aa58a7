-- ===== src/Residency/Promises/Budgets.antt =====
-- residency/: the budgets after any run, and after `Trim`.
use gobeyond.Common.{ℕ, ◌≤◌, ◌<◌, ◌+◌, ◌≡◌, ◌⊎◌, true, length, arith}
use gobeyond.Common.Int.{pos, negsuc}
use gobeyond.Common.Maps.{total, total_nil}
use gobeyond.Residency.State.{Options, Limits, Cache, new_limits}
use gobeyond.Residency.Slru.Segments.{IsConsistent, weigh, weigh_protected}
use gobeyond.Residency.Slru.Loops.{evict_while_done}
use gobeyond.Residency.Slru.Survive.{HasRoom}
use gobeyond.Residency.Ops.{trim, above}
use gobeyond.Residency.Bounds.Gets.{IsSound}

-- The cache is within the limits, and its counts are exact.
pub record IsWithin {ℓ} {V : Type ℓ} (l : Limits) (c : Cache V) : Type ℓ where
  pub entries : length c.entries ≤ l.max_entries
  pub bytes : c.bytes ≤ l.max_bytes
  pub exact : c.bytes ≡ total weigh c.entries
  pub exact_protected : c.protected_bytes ≡ total weigh_protected c.entries
  pub segments : length c.probation + length c.protected ≡ length c.entries
  pub share : length c.protected ≤ l.protected_max_entries
  pub share_bytes : (c.protected_bytes ≤ l.protected_max_bytes) ⊎ (length c.protected ≤ 1)
  pub negative : length c.negative ≤ l.negative_max

module _ {ℓ} {V : Type ℓ} where
  above_needs :
      (target : ℕ) (c : Cache V) → IsConsistent c → above target c ≡ true → 0 < length c.entries
  above_needs target c h p = ground (arith, h.bytes, total_nil weigh c.entries)

  -- `Trim` of a sound cache leaves at most the target bytes; a target of zero or less leaves no
  -- entry at all.
  pub trim_lem :
      (l : Limits) (target : ℕ) (c : Cache V)
      → IsSound l c
      → ((trim (pos target) c).bytes ≤ target)
        × (length (trim (pos 0) c).entries ≡ 0)
        × (length (trim (negsuc target) c).entries ≡ 0)
  unfolding trim
  trim_lem l target c (h, n) =
      let done = λ (t : ℕ).
        evict_while_done (above t) (above_needs t) (length c.entries) c h.tidy.0 (omega arith) in
      (ground (arith, done target), ground (arith, done 0), ground (arith, done 0))

-- The limits that `New` makes leave room for a new entry beside a full protected segment, unless
-- the cache may hold one entry only.
pub new_limits-HasRoom :
    (opts : Options) → 1 < (new_limits opts).max_entries → HasRoom (new_limits opts)
unfolding new_limits
new_limits-HasRoom opts p = record {
  share_entries = ground arith;
  positive = ground arith;
  share_bytes = ground arith;
  twice = ground arith;
}
