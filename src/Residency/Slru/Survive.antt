-- ===== src/Residency/Slru/Survive.antt =====
-- residency/slru.go: whether an entry outlives the eviction that its own insertion sets off.
use gobeyond.Common.{
  ℕ, ◌+◌, ◌≤◌, ◌<◌, String, ◌≡◌, ◌≢◌, refl, ap, true, false, some, List, [], ◌∷◌, length, arith,
  back, back-cons, back-eq-none, count, count-back, erase, if◌then◌else◌, eq_iff, Option-cases, inl,
  inr,
}
use gobeyond.Common.Maps.{
  Map, lookup, delete, lookup-delete, lookup-insert, total, total-delete, IsUnique, delete-IsUnique,
}
use gobeyond.Residency.State.{Entry, Cache, Limits}
use gobeyond.Residency.Slru.{
  remove_entry, push_entry, remove_old, fresh_entry, victim, evict_one, over_budget,
  enforce_budgets, insert_entry,
}
use gobeyond.Residency.Slru.Segments.{in_probation, in_protected, weigh, weigh_protected}
use gobeyond.Residency.Slru.Evict.{evict_one-eq-some}
use gobeyond.Residency.Slru.Loops.{evict_while_inv}
use gobeyond.Residency.Slru.Budgets.{
  IsTidy, evict_one-IsTidy, pushed, pushed-IsTidy, limits-remove_old,
}

-- The budgets leave room for one entry beside a full protected segment.
pub record HasRoom (l : Limits) : Type 0 where
  pub share_entries : l.protected_max_entries < l.max_entries
  pub positive : 0 < l.protected_max_entries
  pub share_bytes : l.protected_max_bytes + l.oversize_bytes ≤ l.max_bytes
  pub twice : l.oversize_bytes + l.oversize_bytes ≤ l.max_bytes

module _ {ℓ} {V : Type ℓ} where
  -- Where every entry is protected, the two sums agree.
  total_all_protected :
      (m : Map (Entry V))
      → IsUnique m
      → ((k : String) → in_probation (lookup k m) ≡ 0)
      → total weigh m ≡ total weigh_protected m
  unfolding total lookup
  total_all_protected [] u h = refl
  total_all_protected ((j, e) ∷ m) (absent, u) h =
      let rest = total_all_protected m u (λ k. ground (arith, h k, eq_iff j k)) in
      ground (arith, h j, eq_iff j j)

  -- Where `k` is the only entry that is not, they differ by its weight.
  total_one_probation :
      (m : Map (Entry V)) (k : String) (e : Entry V)
      → IsUnique m
      → lookup k m ≡ some e
      → e.protected ≡ false
      → ((j : String) → j ≢ k → in_probation (lookup j m) ≡ 0)
      → total weigh m ≡ total weigh_protected m + e.weight
  total_one_probation m k e u held p h =
      let rest =
        total_all_protected (delete k m) (delete-IsUnique k m u)
          (λ j. ground (arith, h j, lookup-delete k j m, eq_iff k j)) in
      ground (arith, total-delete k weigh e m u held, total-delete k weigh_protected e m u held)

  total_no_protected :
      (m : Map (Entry V))
      → IsUnique m
      → ((k : String) → in_protected (lookup k m) ≡ 0)
      → total weigh_protected m ≡ 0
  unfolding total lookup
  total_no_protected [] u h = refl
  total_no_protected ((j, e) ∷ m) (absent, u) h =
      let rest = total_no_protected m u (λ k. ground (arith, h k, eq_iff j k)) in
      ground (arith, h j, eq_iff j j)

  total_one_protected :
      (m : Map (Entry V)) (k : String) (e : Entry V)
      → IsUnique m
      → lookup k m ≡ some e
      → ((j : String) → j ≢ k → in_protected (lookup j m) ≡ 0)
      → total weigh_protected m ≤ e.weight
  total_one_protected m k e u held h =
      let rest =
        total_no_protected (delete k m) (delete-IsUnique k m u)
          (λ j. ground (arith, h j, lookup-delete k j m, eq_iff k j)) in
      ground (arith, total-delete k weigh_protected e m u held)

  -- A protected segment of one entry at most weighs no more than one entry may.
  single_protected :
      (c : Cache V) (ks : List String)
      → IsTidy c
      → c.protected ≡ ks
      → length ks ≤ 1
      → c.protected_bytes ≤ c.limits.oversize_bytes
  single_protected c [] t p le = omega (
    arith,
    t.0.protected_bytes,
    total_no_protected c.entries t.0.unique
        (λ k. ground (arith, t.0.on_protected k, ap (count k) p)),
  )
  single_protected c (k ∷ []) t p le = elim (Option-cases (lookup k c.entries)) [
    | inl missing ↦ absurd (ground (arith, t.0.on_protected k, ap (count k) p, eq_iff k k))
    | inr (e, held) ↦ omega (
      arith,
      t.1 k e held,
      t.0.protected_bytes,
      total_one_protected c.entries k e t.0.unique held
          (λ j ne. ground (arith, t.0.on_protected j, ap (count j) p, eq_iff k j)),
    )
  ]
  single_protected c (k ∷ j ∷ ks) t p le = absurd (omega arith)

  -- The entry stands alone at the front of the probation segment or has others behind it.
  abbrev IsFront : String → Entry V → Cache V → Type ℓ
  IsFront k e c =
      IsTidy c
      × (lookup k c.entries ≡ some e)
      × ((r : List String) × (c.probation ≡ k ∷ r))
      × HasRoom c.limits

  victim_behind :
      (c : Cache V) (k i : String) (r : List String) (j : String)
      → c.probation ≡ k ∷ i ∷ r
      → victim c ≡ some j
      → back (i ∷ r) ≡ some j
  unfolding victim
  victim_behind c k i r j p v = elim (Option-cases (back (i ∷ r))) [
    | inl empty ↦ absurd (cc (back-eq-none (i ∷ r) empty))
    | inr (x, last) ↦ ground (arith, last, back-cons k i r, ap back p)
  ]

  module _ (k : String) (e : Entry V) (c : Cache V) (t : IsTidy c)
      (held : lookup k c.entries ≡ some e) (fresh : e.protected ≡ false) where
    alone_sizes : c.probation ≡ k ∷ [] → length c.entries ≡ 1 + length c.protected
    alone_sizes p = omega (arith, t.0.sizes, ap length p)

    alone_bytes : c.probation ≡ k ∷ [] → c.bytes ≡ c.protected_bytes + e.weight
    alone_bytes p = omega (
      arith,
      t.0.bytes,
      t.0.protected_bytes,
      total_one_probation c.entries k e t.0.unique held fresh
          (λ j ne. ground (arith, t.0.on_probation j, ap (count j) p, eq_iff k j)),
    )

    alone_fits : HasRoom c.limits → c.probation ≡ k ∷ [] → over_budget c ≡ false
    alone_fits room p = ground (
      arith,
      alone_sizes p,
      alone_bytes p,
      t.1 k e held,
      t.2,
      single_protected c c.protected t refl,
      room.share_entries,
      room.positive,
      room.share_bytes,
      room.twice,
    )

    -- Behind the entry there is another victim, as long as the cache is over a budget.
    other_victim :
        (r : List String) (j : String)
        → HasRoom c.limits
        → c.probation ≡ k ∷ r
        → over_budget c ≡ true
        → victim c ≡ some j
        → j ≢ k
    other_victim [] j room p over v same = absurd (ground (arith, alone_fits room p))
    other_victim (i ∷ r) j room p over v same =
        let last = rw same at (victim_behind c k i r j p v) in
        absurd (
          ground (arith, count-back k (i ∷ r) last, t.0.on_probation k, ap (count k) p, eq_iff k k))

  IsFront-evict_one :
      (k : String) (e : Entry V) (c d : Cache V)
      → e.protected ≡ false
      → IsFront k e c
      → over_budget c ≡ true
      → evict_one c ≡ some d
      → IsFront k e d
  unfolding remove_entry erase
  IsFront-evict_one k e c d fresh (t, held, (r, p), room) over step =
      let (j, x, v, found, same) = evict_one-eq-some c d step in
      let other = other_victim k e c t held fresh r j room p over v in
      (
        evict_one-IsTidy c d t step,
        rw same (ground (arith, lookup-delete j k c.entries, eq_iff j k)),
        rw same (if x.protected then r else erase j r, ground (arith, eq_iff k j)),
        rw same room,
      )

  -- An entry that insertion has pushed is still there when the budgets are enforced, if the limits
  -- leave room for it beside a full protected segment.
  pub lookup-insert_entry :
      (now : ℕ) (k : String) (value : V) (weight : ℕ) (c : Cache V)
      → weight ≤ c.limits.oversize_bytes
      → HasRoom c.limits
      → IsTidy c
      → lookup k (insert_entry now k value weight c).entries ≡ some (fresh_entry value weight now)
  unfolding insert_entry enforce_budgets push_entry
  lookup-insert_entry now k value weight c fits room t =
      let old = remove_old k (lookup k c.entries) c in
      let e : Entry V = fresh_entry value weight now in
      let start : IsFront k e (pushed now k value weight c) = (
        pushed-IsTidy now k value weight c fits t,
        ground (arith, lookup-insert k k e old.entries, eq_iff k k),
        (old.probation, refl),
        rw (limits-remove_old k (lookup k c.entries) c) room,
      ) in
      (evict_while_inv (IsFront k e) over_budget
        (λ a b h over step. IsFront-evict_one k e a b refl h over step) _
        (pushed now k value weight c) start).1
