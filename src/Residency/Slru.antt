-- ===== src/Residency/Slru.antt =====
-- residency/slru.go: the two segments of the cache.
pub mod Segments
pub mod Evict
pub mod Loops
pub mod Budgets
pub mod Touch
pub mod Survive
use gobeyond.Common.{
  ℕ, zero, suc, ◌+◌, ◌-◌, String, Bool, true, false, ◌&&◌, ◌||◌, Option, none, some, ◌∷◌, ltb,
  if◌then◌else◌, length, back, erase,
}
use gobeyond.Common.Maps.{lookup, insert, delete, adjust}
use gobeyond.Residency.State.{Entry, Cache}

module _ {ℓ} {V : Type ℓ} where
  -- removeEntryLocked, of the entry `e` with the key `k`
  unfoldable pub remove_entry : String → Entry V → Cache V → Cache V
  remove_entry k e c = record c {
    probation = if e.protected then c.probation else erase k c.probation;
    protected = if e.protected then erase k c.protected else c.protected;
    protected_bytes = if e.protected then c.protected_bytes - e.weight else c.protected_bytes;
    entries = delete k c.entries;
    bytes = c.bytes - e.weight;
  }

  -- The candidate of evictOneLocked: the probation LRU entry, or else the protected one.
  unfoldable pub victim : Cache V → Option String
  victim c = elim (back c.probation) [ some k ↦ some k | none ↦ back c.protected ]

  evict_entry : String → Option (Entry V) → Cache V → Option (Cache V)
  unfolding remove_entry
  evict_entry k none c = none
  evict_entry k (some e) c = some (record (remove_entry k e c) { evictions = c.evictions + 1 })

  -- evictOneLocked; `none` is the result false. A list element holds its entry, so the look-up of
  -- its key never misses in a consistent cache.
  unfoldable pub evict_one : Cache V → Option (Cache V)
  unfolding victim evict_entry
  evict_one c = elim (victim c) [ none ↦ none | some k ↦ evict_entry k (lookup k c.entries) c ]

  abbrev pub over_budget : Cache V → Bool
  over_budget c = ltb c.limits.max_entries (length c.entries) || ltb c.limits.max_bytes c.bytes

  -- The loop of enforceBudgetsLocked, and of `Trim` below, over their tests.
  unfoldable pub evict_while : (Cache V → Bool) → ℕ → Cache V → Cache V
  evict_while test zero c = c
  evict_while test (suc fuel) c = elim (test c) [
    | false ↦ c
    | true ↦ elim (evict_one c) [ none ↦ c | some c' ↦ evict_while test fuel c' ]
  ]

  -- Each eviction removes an entry, so the number of entries is fuel enough.
  unfoldable pub enforce_budgets : Cache V → Cache V
  enforce_budgets c = evict_while over_budget (length c.entries) c

  unfoldable pub remove_old : String → Option (Entry V) → Cache V → Cache V
  unfolding remove_entry
  remove_old k none c = c
  remove_old k (some old) c = remove_entry k old c

  abbrev pub fresh_entry : V → ℕ → ℕ → Entry V
  fresh_entry value weight now = record {
    value = value;
    weight = weight;
    last_access = now;
    protected = false;
  }

  unfoldable pub push_entry : String → Entry V → Cache V → Cache V
  push_entry k e c = record c {
    probation = k ∷ c.probation;
    entries = insert k e c.entries;
    bytes = c.bytes + e.weight;
  }

  -- insertLocked, at the time `now`
  unfoldable pub insert_entry : ℕ → String → V → ℕ → Cache V → Cache V
  unfolding remove_old push_entry enforce_budgets
  insert_entry now k value weight c =
      enforce_budgets
        (push_entry k (fresh_entry value weight now) (remove_old k (lookup k c.entries) c))

  abbrev pub protected_over : Cache V → Bool
  protected_over c =
      (ltb c.limits.protected_max_entries (length c.protected)
        || ltb c.limits.protected_max_bytes c.protected_bytes)
      && ltb 1 (length c.protected)

  -- The body of the demotion loop, for the protected LRU key `k` and its entry.
  unfoldable pub demote : String → Entry V → Cache V → Cache V
  demote k e c = record c {
    protected = erase k c.protected;
    probation = k ∷ c.probation;
    entries = adjust k (λ x. record x { protected = false }) c.entries;
    protected_bytes = c.protected_bytes - e.weight;
  }

  demote_back : Option String → Cache V → Option (Cache V)
  unfolding demote
  demote_back none c = none
  demote_back (some k) c = elim (lookup k c.entries) [ none ↦ none | some e ↦ some (demote k e c) ]

  unfoldable pub demote_loop : ℕ → Cache V → Cache V
  unfolding demote_back
  demote_loop zero c = c
  demote_loop (suc fuel) c = elim (protected_over c) [
    | false ↦ c
    | true ↦ elim (demote_back (back c.protected) c) [ none ↦ c | some c' ↦ demote_loop fuel c' ]
  ]

  unfoldable pub promote : String → Entry V → Cache V → Cache V
  promote k e c = record c {
    probation = erase k c.probation;
    protected = k ∷ c.protected;
    entries = adjust k (λ x. record x { protected = true }) c.entries;
    protected_bytes = c.protected_bytes + e.weight;
  }

  -- touchLocked, of the entry `e` with the key `k`
  unfoldable pub touch : String → Entry V → Cache V → Cache V
  unfolding promote demote_loop
  touch k e c =
      if e.protected
      then record c { protected = k ∷ erase k c.protected }
      else (let c' = promote k e c in demote_loop (length c'.protected) c')
