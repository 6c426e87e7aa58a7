-- ===== src/Residency/Ops.antt =====
-- residency/residency.go: what `Get`, a load, `Trim`, `Close` and the janitor do to the cache while
-- they hold its lock. A run of the cache is a sequence of these steps.
use gobeyond.Common.{
  ℕ, zero, suc, ◌-◌, String, Bool, true, false, ◌&&◌, ◌||◌, not, Option, none, some, List, [], ◌∷◌,
  ltb, ◌==◌, if◌then◌else◌, length,
}
use gobeyond.Common.Int.{ℤ, pos, negsuc, max_ℤ}
use gobeyond.Common.Maps.{Map, lookup, insert, delete, adjust}
use gobeyond.Residency.Errors.{Err, err_closed, is_immutable}
use gobeyond.Residency.Semaphore.{Semaphore, clamp}
use gobeyond.Residency.State.{Entry, NegativeEntry, Cache}
use gobeyond.Residency.Slru.{remove_entry, insert_entry, touch, evict_while}
use gobeyond.Residency.Negative.{negative_lookup, store_negative, remove_negative}

-- What `Get` does when it gives the lock back: it returns, or it waits for a flight, which it has
-- started or has found.
pub data Outcome {ℓ} (V : Type ℓ) : Type ℓ where
  hit : V → Outcome V
  fail : Err → Outcome V
  join start : ℕ → Outcome V

-- What a load reports.
pub data Loaded {ℓ} (V : Type ℓ) : Type ℓ where
  value : V → Loaded V
  error : Err → Loaded V

abbrev pub is_idle : ℕ → ℕ → ℕ → Bool
is_idle idle now last = ltb 0 idle && ltb idle (now - last)

-- One step of a run.
pub data Step {ℓ} (V : Type ℓ) : Type ℓ where
  get_step : Option Err → ℕ → String → Step V
  finish_step : (now : ℕ) (key : String) (flight weight : ℕ) → Loaded V → Step V
  trim_step : ℤ → Step V
  close_step : Step V
  sweep_step : ℕ → Step V

-- The weight under which a load's value is kept, from what the load reports and the estimate.
unfoldable pub resident_weight : ℤ → ℤ → ℕ
resident_weight (pos zero) (pos m) = m
resident_weight (pos zero) (negsuc m) = 0
resident_weight (pos (suc n)) estimate = suc n
resident_weight (negsuc n) (pos m) = m
resident_weight (negsuc n) (negsuc m) = 0

abbrev pub same_flight : ℕ → Option ℕ → Bool
same_flight f none = false
same_flight f (some g) = g == f

module _ {ℓ} {V : Type ℓ} where
  unfoldable pub fly : String → Option ℕ → Cache V → Cache V × Outcome V
  fly k (some f) c = (c, join f)
  fly k none c = (
    record c { flights = insert k c.next_flight c.flights; next_flight = suc c.next_flight },
    start c.next_flight,
  )

  abbrev pub after_negative : String → Option Err → Cache V → Cache V × Outcome V
  after_negative k (some err) c = (record c { negative_hits = suc c.negative_hits }, fail err)
  after_negative k none c = fly k (lookup k c.flights) (record c { misses = suc c.misses })

  -- The part of `Get` below the resident hit.
  unfoldable pub get_missing : ℕ → String → Cache V → Cache V × Outcome V
  unfolding fly
  get_missing now k c =
      let (c', remembered) = negative_lookup now k c in after_negative k remembered c'

  abbrev pub stamp : ℕ → Entry V → Entry V
  stamp now e = record e { last_access = now }

  unfoldable pub expire_entry : String → Entry V → Cache V → Cache V
  expire_entry k e c = record (remove_entry k e c) { idle_expirations = suc c.idle_expirations }

  unfoldable pub hit_entry : ℕ → String → Entry V → Cache V → Cache V
  hit_entry now k e c =
      touch k (stamp now e)
        (record c { hits = suc c.hits; entries = adjust k (stamp now) c.entries })

  unfoldable pub get_entry : ℕ → String → Option (Entry V) → Cache V → Cache V × Outcome V
  unfolding expire_entry hit_entry
  get_entry now k none c = get_missing now k c
  get_entry now k (some e) c =
      if is_idle c.limits.idle now e.last_access
      then get_missing now k (expire_entry k e c)
      else (hit_entry now k e c, hit e.value)

  -- Get, up to its wait; the first argument is the error of a context that is done already.
  unfoldable pub get : Option Err → ℕ → String → Cache V → Cache V × Outcome V
  get (some err) now k c = (c, fail err)
  get none now k c =
      if c.closed then (c, fail err_closed) else get_entry now k (lookup k c.entries) c

  unfoldable pub land : String → ℕ → Cache V → Cache V
  land k f c =
      if same_flight f (lookup k c.flights) then record c { flights = delete k c.flights } else c

  unfoldable pub keep_loaded : ℕ → String → ℕ → Loaded V → Cache V → Cache V
  keep_loaded now k weight (error err) c =
      if not c.closed && is_immutable err then store_negative now k err c else c
  keep_loaded now k weight (value v) c =
      if c.closed
      then c
      else if ltb c.limits.oversize_bytes weight
      then record c { oversized_loads = suc c.oversized_loads }
      else insert_entry now k v weight (remove_negative k c)

  -- finishLoad, of the flight `f`
  unfoldable pub finish_load : ℕ → String → ℕ → ℕ → Loaded V → Cache V → Cache V
  unfolding land keep_loaded
  finish_load now k f weight result c = keep_loaded now k weight result (land k f c)

  abbrev pub above : ℕ → Cache V → Bool
  above target c = ltb target c.bytes || target == 0 && ltb 0 (length c.entries)

  -- Trim; a negative target is 0
  unfoldable pub trim : ℤ → Cache V → Cache V
  trim (pos target) c = evict_while (above target) (length c.entries) c
  trim (negsuc _) c = evict_while (above 0) (length c.entries) c

  -- Close, without its wait for the janitor
  unfoldable pub close : Cache V → Cache V
  close c = if c.closed then c else record c {
    closed = true;
    entries = [];
    probation = [];
    protected = [];
    bytes = 0;
    protected_bytes = 0;
    negative = [];
    negative_order = [];
  }

  -- The loops of sweepIdle over the two maps, as they stand when the loop begins.
  unfoldable pub sweep_entries : ℕ → Map (Entry V) → Cache V → Cache V
  unfolding expire_entry
  sweep_entries now [] c = c
  sweep_entries now ((k, e) ∷ rest) c =
      sweep_entries now rest
        (if ltb c.limits.idle (now - e.last_access) then expire_entry k e c else c)

  unfoldable pub sweep_negative : ℕ → Map NegativeEntry → Cache V → Cache V
  sweep_negative now [] c = c
  sweep_negative now ((k, ne) ∷ rest) c =
      sweep_negative now rest (if ltb now ne.expires then c else remove_negative k c)

  -- sweepIdle, at the time `now`
  unfoldable pub sweep_idle : ℕ → Cache V → Cache V
  sweep_idle now c =
      if c.closed || c.limits.idle == 0
      then c
      else (let c' = sweep_entries now c.entries c in sweep_negative now c'.negative c')

  unfoldable pub apply : Step V → Cache V → Cache V
  apply (get_step ctx now k) c = (get ctx now k c).0
  apply (finish_step now k f weight result) c = finish_load now k f weight result c
  apply (trim_step target) c = trim target c
  apply close_step c = close c
  apply (sweep_step now) c = sweep_idle now c

  unfoldable pub run : List (Step V) → Cache V → Cache V
  run [] c = c
  run (s ∷ ss) c = run ss (apply s c)

-- The weight that runLoad asks of the semaphore.
unfoldable pub load_weight : Semaphore → ℤ → ℤ → ℕ
load_weight sem decoded peak = clamp_ℤ sem (max_ℤ (max_ℤ peak decoded) (pos 1))
  where
    clamp_ℤ : Semaphore → ℤ → ℕ
    clamp_ℤ s (pos n) = clamp s n
    clamp_ℤ s (negsuc n) = clamp s 0
