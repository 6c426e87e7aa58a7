-- ===== src/Residency/Bounds/Steps.antt =====
-- residency/residency.go: every operation keeps the cache well formed, so it is after any run.
use gobeyond.Common.{
  ℕ, ◌≡◌, refl, Bool, true, false, List, [], ◌∷◌, arith, if_intro, length, ◌||◌, ◌==◌,
}
use gobeyond.Common.Int.{ℤ, pos, negsuc}
use gobeyond.Common.Maps.{lookup, total}
use gobeyond.Residency.State.{Limits, new_limits, Options, Cache, new}
use gobeyond.Residency.Slru.{evict_while}
use gobeyond.Residency.Ops.{
  Step, get_step, finish_step, trim_step, close_step, sweep_step, above, trim, close, sweep_idle,
  apply, run,
}
use gobeyond.Residency.Bounds.Frames.{evict_while-SameNegative}
use gobeyond.Residency.Bounds.Halves.{IsSoundNegative-of_same, evict_while-IsSoundEntries}
use gobeyond.Residency.Bounds.Sweeps.{sweep_entries-IsSound, sweep_negative-IsSound}
use gobeyond.Residency.Bounds.Gets.{IsSound, get-IsSound}
use gobeyond.Residency.Bounds.Loads.{finish_load-IsSound}

module _ {ℓ} {V : Type ℓ} (l : Limits) where
  evict_while-IsSound :
      (test : Cache V → Bool) (fuel : ℕ) (c : Cache V)
      → IsSound l c
      → IsSound l (evict_while test fuel c)
  evict_while-IsSound test fuel c (h, n) = (
    evict_while-IsSoundEntries test fuel c h,
    IsSoundNegative-of_same (evict_while-SameNegative test fuel c) n,
  )

  trim-IsSound : (target : ℤ) (c : Cache V) → IsSound l c → IsSound l (trim target c)
  unfolding trim
  trim-IsSound (pos target) c s = evict_while-IsSound (above target) (length c.entries) c s
  trim-IsSound (negsuc _) c s = evict_while-IsSound (above 0) (length c.entries) c s

  -- The cache `c` with nothing in it.
  abbrev pub emptied : Bool → Cache V → Cache V
  emptied closed c = record c {
    closed = closed;
    entries = [];
    probation = [];
    protected = [];
    bytes = 0;
    protected_bytes = 0;
    negative = [];
    negative_order = [];
  }

  pub emptied-IsSound : (closed : Bool) (c : Cache V) → c.limits ≡ l → IsSound l (emptied closed c)
  unfolding lookup total
  emptied-IsSound closed c same = (
    record {
      tidy = (
        record {
          unique = tt;
          on_probation = λ k. refl;
          on_protected = λ k. refl;
          sizes = omega arith;
          bytes = refl;
          protected_bytes = refl;
        },
        λ k e held. cc,
        ground arith,
      );
      in_budget = ground arith;
      after_close = λ _. refl;
    },
    record {
      limits = same;
      ordered = record { unique = tt; on_order = λ k. refl; sizes = refl };
      remembered = omega arith;
      after_close = λ _. refl;
    },
  )

  close-IsSound : (c : Cache V) → IsSound l c → IsSound l (close c)
  unfolding close
  close-IsSound c s =
      if_intro (IsSound l) c.closed (λ _. s) (λ _. emptied-IsSound true c s.1.limits)

  sweep_idle-IsSound : (now : ℕ) (c : Cache V) → IsSound l c → IsSound l (sweep_idle now c)
  unfolding sweep_idle
  sweep_idle-IsSound now c s =
      if_intro (IsSound l) (c.closed || c.limits.idle == 0) (λ _. s)
        (λ _. sweep_negative-IsSound l now _ _ (sweep_entries-IsSound l now c s))

  pub apply-IsSound : (st : Step V) (c : Cache V) → IsSound l c → IsSound l (apply st c)
  unfolding apply
  apply-IsSound (get_step ctx now k) c s = get-IsSound l ctx now k c s
  apply-IsSound (finish_step now k f weight r) c s = finish_load-IsSound l now k f weight r c s
  apply-IsSound (trim_step target) c s = trim-IsSound target c s
  apply-IsSound close_step c s = close-IsSound c s
  apply-IsSound (sweep_step now) c s = sweep_idle-IsSound now c s

  pub run-IsSound : (steps : List (Step V)) (c : Cache V) → IsSound l c → IsSound l (run steps c)
  unfolding run
  run-IsSound [] c s = s
  run-IsSound (st ∷ steps) c s = run-IsSound steps (apply st c) (apply-IsSound st c s)

-- A new cache is well formed.
pub new-IsSound {ℓ} : {V : Type ℓ} (opts : Options) → IsSound (new_limits opts) (new {V = V} opts)
unfolding new
new-IsSound opts = emptied-IsSound (new_limits opts) false (new opts) refl
