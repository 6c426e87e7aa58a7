-- ===== src/Residency/Promises/Closing.antt =====
-- residency/: a closed cache.
use gobeyond.Common.{ℕ, ◌≡◌, true, none, some, List, [], ◌∷◌, length, arith, String}
use gobeyond.Residency.Errors.{err_closed}
use gobeyond.Residency.State.{Limits, Cache}
use gobeyond.Residency.Ops.{
  Step, get_step, finish_step, trim_step, close_step, sweep_step, value, error, fail, get, land,
  keep_loaded, finish_load, trim, close, sweep_idle, apply, run, above,
}
use gobeyond.Common.Int.{pos, negsuc}
use gobeyond.Residency.Bounds.Frames.{evict_while-SameNegative}
use gobeyond.Residency.Bounds.Gets.{IsSound}
use gobeyond.Residency.Bounds.Steps.{apply-IsSound, run-IsSound}

module _ {ℓ} {V : Type ℓ} where
  closed-apply : (st : Step V) (c : Cache V) → c.closed ≡ true → (apply st c).closed ≡ true
  unfolding apply get finish_load land keep_loaded trim close sweep_idle
  closed-apply (get_step none now k) c p = ground arith
  closed-apply (get_step (some err) now k) c p = p
  closed-apply (finish_step now k f weight (value v)) c p = ground arith
  closed-apply (finish_step now k f weight (error err)) c p = ground arith
  closed-apply (trim_step (pos t)) c p =
      ground (arith, (evict_while-SameNegative (above t) (length c.entries) c).closed)
  closed-apply (trim_step (negsuc t)) c p =
      ground (arith, (evict_while-SameNegative (above 0) (length c.entries) c).closed)
  closed-apply close_step c p = ground arith
  closed-apply (sweep_step now) c p = ground arith

  closed-run : (steps : List (Step V)) (c : Cache V) → c.closed ≡ true → (run steps c).closed ≡ true
  unfolding run
  closed-run [] c p = p
  closed-run (st ∷ steps) c p = closed-run steps (apply st c) (closed-apply st c p)

  closed-close : (c : Cache V) → (close c).closed ≡ true
  unfolding close
  closed-close c = ground arith

  -- Whatever happens to a sound cache after `Close`, late loads included: it holds no entry and
  -- remembers no failure, and a `Get` whose context is not done returns ErrClosed.
  pub run-close :
      (l : Limits) (steps : List (Step V)) (now : ℕ) (k : String) (c : Cache V)
      → IsSound l c
      → (length (run steps (close c)).entries ≡ 0)
        × (length (run steps (close c)).negative ≡ 0)
        × ((get none now k (run steps (close c))).1 ≡ fail err_closed)
  unfolding get
  run-close l steps now k c s =
      let d = run steps (close c) in
      let closed = closed-run steps (close c) (closed-close c) in
      let (h, n) = run-IsSound l steps (close c) (unfold apply in apply-IsSound l close_step c s) in
      (h.after_close closed, n.after_close closed, ground (arith, closed))
