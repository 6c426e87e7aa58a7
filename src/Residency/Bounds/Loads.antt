-- ===== src/Residency/Bounds/Loads.antt =====
-- residency/residency.go: the end of a load keeps the cache well formed.
use gobeyond.Common.{ℕ, ◌≤◌, String, ◌≡◌, refl, false, arith, ltb, if_intro, not, ◌&&◌}
use gobeyond.Common.Maps.{lookup}
use gobeyond.Residency.Errors.{Err, is_immutable}
use gobeyond.Residency.State.{Limits, Cache}
use gobeyond.Residency.Slru.{insert_entry}
use gobeyond.Residency.Negative.{store_negative, remove_negative}
use gobeyond.Residency.Negative.Order.{SameEntries-of_parts, remove_negative_lem}
use gobeyond.Residency.Negative.Remember.{store_negative_lem}
use gobeyond.Residency.Ops.{Loaded, value, error, land, keep_loaded, finish_load, same_flight}
use gobeyond.Residency.Bounds.Frames.{insert_entry-SameNegative}
use gobeyond.Residency.Bounds.Halves.{
  IsSoundEntries-of_parts, IsSoundNegative-of_same, insert_entry-IsSoundEntries,
}
use gobeyond.Residency.Bounds.Sweeps.{remove_negative-IsSound}
use gobeyond.Residency.Bounds.Gets.{IsSound, IsSound-of_parts}

module _ {ℓ} {V : Type ℓ} (l : Limits) where
  -- What a landing flight leaves: only the flights change.
  pub land_lem : (k : String) (f : ℕ) (c : Cache V) → IsSound l c → IsSound l (land k f c)
  unfolding land
  land_lem k f c s =
      if_intro (IsSound l) (same_flight f (lookup k c.flights))
        (λ _. IsSound-of_parts l {c = c} (SameEntries-of_parts refl) refl refl s) (λ _. s)

  pub store_negative-IsSound :
      (now : ℕ) (k : String) (err : Err) (c : Cache V)
      → c.closed ≡ false
      → IsSound l c
      → IsSound l (store_negative now k err c)
  store_negative-IsSound now k err c is_open (h, n) =
      let (ordered, same, le) = store_negative_lem now k err c n.ordered n.remembered in
      (
        IsSoundEntries-of_parts same h,
        record {
          limits = cc (same.limits, n.limits);
          ordered = ordered;
          remembered = ground (arith, le, same.limits);
          after_close = λ p. absurd (cc (same.closed));
        },
      )

  kept_fresh :
      (now : ℕ) (k : String) (weight : ℕ) (v : V) (c : Cache V)
      → c.closed ≡ false
      → weight ≤ c.limits.oversize_bytes
      → IsSound l c
      → IsSound l (insert_entry now k v weight (remove_negative k c))
  kept_fresh now k weight v c is_open fits s =
      let s' = remove_negative-IsSound l k c s in
      let (_, same, _) = remove_negative_lem k c s.1.ordered in
      (
        insert_entry-IsSoundEntries now k v weight (remove_negative k c)
            (ground (arith, same.limits)) (cc (same.closed)) s'.0,
        IsSoundNegative-of_same (insert_entry-SameNegative now k v weight (remove_negative k c))
            s'.1,
      )

  pub keep_loaded-IsSound :
      (now : ℕ) (k : String) (weight : ℕ) (r : Loaded V) (c : Cache V)
      → IsSound l c
      → IsSound l (keep_loaded now k weight r c)
  unfolding keep_loaded
  keep_loaded-IsSound now k weight (error err) c s =
      if_intro (IsSound l) (not c.closed && is_immutable err)
        (λ p. store_negative-IsSound now k err c (ground arith) s) (λ _. s)
  keep_loaded-IsSound now k weight (value v) c s =
      if_intro (IsSound l) c.closed (λ _. s)
        (λ is_open.
          if_intro (IsSound l) (ltb c.limits.oversize_bytes weight)
            (λ _. IsSound-of_parts l {c = c} (SameEntries-of_parts refl) refl refl s)
            (λ p. kept_fresh now k weight v c is_open (ground arith) s))

  pub finish_load-IsSound :
      (now : ℕ) (k : String) (f weight : ℕ) (r : Loaded V) (c : Cache V)
      → IsSound l c
      → IsSound l (finish_load now k f weight r c)
  unfolding finish_load
  finish_load-IsSound now k f weight r c s =
      keep_loaded-IsSound now k weight r (land k f c) (land_lem k f c s)
