-- ===== src/Residency/Slru/Budgets.antt =====
-- residency/slru.go: the budgets. Removing an entry keeps every bound, and insertion ends within
-- the budgets.
use gobeyond.Common.{
  ℕ, ◌≤◌, String, ◌≡◌, refl, Bool, true, false, Option, none, some, length, arith, length-erase,
  ◌<◌, eq_iff,
}
use gobeyond.Common.Maps.{lookup, lookup-delete, lookup-insert, total_nil}
use gobeyond.Residency.State.{Entry, Cache}
use gobeyond.Residency.Slru.{
  remove_entry, evict_one, evict_while, over_budget, enforce_budgets, protected_over, push_entry,
  remove_old, insert_entry, fresh_entry,
}
use gobeyond.Residency.Slru.Segments.{
  IsConsistent, weigh, remove_entry-IsConsistent, push_entry-IsConsistent,
}
use gobeyond.Residency.Slru.Evict.{evict_one-eq-some}
use gobeyond.Residency.Slru.Loops.{evict_one-IsConsistent, evict_while_inv, evict_while_done}

module _ {ℓ} {V : Type ℓ} where
  -- No entry is heavier than an eighth of the byte budget.
  abbrev pub IsLight : Cache V → Type ℓ
  IsLight c =
      (k : String) (e : Entry V) → lookup k c.entries ≡ some e → e.weight ≤ c.limits.oversize_bytes

  pub remove_entry-IsLight :
      (k : String) (e : Entry V) (c : Cache V) → IsLight c → IsLight (remove_entry k e c)
  unfolding remove_entry
  remove_entry-IsLight k e c h j x held = h j x (ground (arith, lookup-delete k j c.entries))

  pub remove_entry-protected_over :
      (k : String) (e : Entry V) (c : Cache V)
      → IsConsistent c
      → lookup k c.entries ≡ some e
      → protected_over c ≡ false
      → protected_over (remove_entry k e c) ≡ false
  unfolding remove_entry
  remove_entry-protected_over k e c h held p =
      ground (arith, length-erase k c.protected, h.on_protected k)

  -- What an eviction keeps, the loop keeps.
  abbrev pub IsTidy : Cache V → Type ℓ
  IsTidy c = IsConsistent c × IsLight c × (protected_over c ≡ false)

  pub evict_one-IsTidy : (c d : Cache V) → IsTidy c → evict_one c ≡ some d → IsTidy d
  unfolding remove_entry
  evict_one-IsTidy c d (h, light, share) p =
      let (k, e, _, held, same) = evict_one-eq-some c d p in
      (
        evict_one-IsConsistent c d h p,
        rw same (remove_entry-IsLight k e c light),
        rw same (remove_entry-protected_over k e c h held share),
      )

  pub evict_while-IsTidy :
      (test : Cache V → Bool) (fuel : ℕ) (c : Cache V) → IsTidy c → IsTidy (evict_while test fuel c)
  evict_while-IsTidy test = evict_while_inv IsTidy test (λ c d h _ p. evict_one-IsTidy c d h p)

  over_budget_needs : (c : Cache V) → IsConsistent c → over_budget c ≡ true → 0 < length c.entries
  over_budget_needs c h p = ground (arith, h.bytes, total_nil weigh c.entries)

  -- Enforcing the budgets ends within both of them.
  pub over_budget-enforce_budgets :
      (c : Cache V) → IsConsistent c → over_budget (enforce_budgets c) ≡ false
  unfolding enforce_budgets
  over_budget-enforce_budgets c h =
      evict_while_done over_budget over_budget_needs (length c.entries) c h (omega arith)

  pub enforce_budgets-IsTidy : (c : Cache V) → IsTidy c → IsTidy (enforce_budgets c)
  unfolding enforce_budgets
  enforce_budgets-IsTidy c h = evict_while-IsTidy over_budget (length c.entries) c h

  pub remove_old-IsTidy :
      (k : String) (o : Option (Entry V)) (c : Cache V)
      → lookup k c.entries ≡ o
      → IsTidy c
      → IsTidy (remove_old k o c)
  unfolding remove_old
  remove_old-IsTidy k none c held t = t
  remove_old-IsTidy k (some e) c held (h, light, share) = (
    remove_entry-IsConsistent k e c h held,
    remove_entry-IsLight k e c light,
    remove_entry-protected_over k e c h held share,
  )

  pub lookup-remove_old :
      (k : String) (o : Option (Entry V)) (c : Cache V)
      → lookup k c.entries ≡ o
      → lookup k (remove_old k o c).entries ≡ none
  unfolding remove_old remove_entry
  lookup-remove_old k none c held = held
  lookup-remove_old k (some e) c held = ground (arith, lookup-delete k k c.entries, eq_iff k k)

  pub limits-remove_old :
      (k : String) (o : Option (Entry V)) (c : Cache V) → (remove_old k o c).limits ≡ c.limits
  unfolding remove_old remove_entry
  limits-remove_old k none c = refl
  limits-remove_old k (some e) c = refl

  push_entry-IsTidy :
      (k : String) (e : Entry V) (c : Cache V)
      → lookup k c.entries ≡ none
      → e.protected ≡ false
      → e.weight ≤ c.limits.oversize_bytes
      → IsTidy c
      → IsTidy (push_entry k e c)
  unfolding push_entry
  push_entry-IsTidy k e c absent p fits (h, light, share) = (
    unfold push_entry in push_entry-IsConsistent k e c h absent p,
    λ j x held. ground (arith, light j x, lookup-insert k j e c.entries),
    share,
  )

  -- The cache into which `insertLocked` has pushed the entry, before it enforces the budgets.
  abbrev pub pushed : ℕ → String → V → ℕ → Cache V → Cache V
  pushed now k value weight c =
      push_entry k (fresh_entry value weight now) (remove_old k (lookup k c.entries) c)

  pub pushed-IsTidy :
      (now : ℕ) (k : String) (value : V) (weight : ℕ) (c : Cache V)
      → weight ≤ c.limits.oversize_bytes
      → IsTidy c
      → IsTidy (pushed now k value weight c)
  pushed-IsTidy now k value weight c fits t =
      push_entry-IsTidy k (fresh_entry value weight now) (remove_old k (lookup k c.entries) c)
        (lookup-remove_old k _ c refl) refl (rw (limits-remove_old k (lookup k c.entries) c) fits)
        (remove_old-IsTidy k _ c refl t)

  -- An insertion keeps the cache consistent, and ends within the budgets.
  pub insert_entry-IsTidy :
      (now : ℕ) (k : String) (value : V) (weight : ℕ) (c : Cache V)
      → weight ≤ c.limits.oversize_bytes
      → IsTidy c
      → IsTidy (insert_entry now k value weight c)
        × (over_budget (insert_entry now k value weight c) ≡ false)
  unfolding insert_entry
  insert_entry-IsTidy now k value weight c fits t =
      let tidy = pushed-IsTidy now k value weight c fits t in
      (enforce_budgets-IsTidy _ tidy, over_budget-enforce_budgets _ tidy.0)
