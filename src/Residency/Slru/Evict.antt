-- ===== src/Residency/Slru/Evict.antt =====
-- residency/slru.go: eviction. What one eviction does, what the loops keep, and that they end by
-- their test.
use gobeyond.Common.{
  ◌+◌, ◌<◌, String, ◌≡◌, refl, ap, true, false, Option, none, some, length, back, back-eq-none,
  count-back, arith, Option-cases, inl, inr,
}
use gobeyond.Common.Maps.{lookup}
use gobeyond.Residency.State.{Entry, Cache}
use gobeyond.Residency.Slru.{remove_entry, victim, evict_one}
use gobeyond.Residency.Slru.Segments.{IsConsistent, in_probation, in_protected}

module _ {ℓ} {V : Type ℓ} where
  -- The cache after the eviction of the entry `e` with the key `k`.
  abbrev pub evicted : String → Entry V → Cache V → Cache V
  evicted k e c = record (remove_entry k e c) { evictions = c.evictions + 1 }

  pub recount-IsConsistent :
      {c d : Cache V}
      → d.entries ≡ c.entries
      → d.probation ≡ c.probation
      → d.protected ≡ c.protected
      → d.bytes ≡ c.bytes
      → d.protected_bytes ≡ c.protected_bytes
      → IsConsistent c
      → IsConsistent d
  recount-IsConsistent {c} {d} pe pp pq pb pr h = record {
    unique = rw pe h.unique;
    on_probation = λ k. rw (pe, pp) (h.on_probation k);
    on_protected = λ k. rw (pe, pq) (h.on_protected k);
    sizes = rw (pe, pp, pq) h.sizes;
    bytes = rw (pe, pb) h.bytes;
    protected_bytes = rw (pe, pr) h.protected_bytes;
  }

  -- An eviction takes the victim, which the map holds.
  pub evict_one-eq-some :
      (c d : Cache V)
      → evict_one c ≡ some d
      → (k : String) × (e : Entry V) × (victim c ≡ some k)
        × (lookup k c.entries ≡ some e)
        × (d ≡ evicted k e c)
  unfolding evict_one
  evict_one-eq-some c d h = elim (Option-cases (victim c)) [
    | inl missing ↦ absurd (ground arith)
    | inr (k, found) ↦ elim (Option-cases (lookup k c.entries)) [
      | inl missing ↦ absurd (ground arith)
      | inr (e, held) ↦ (k, e, found, held, ground arith)
    ]
  ]

  module _ (c : Cache V) (h : IsConsistent c) where
    pub in_protected_pos :
        (o : Option (Entry V))
        → 0 < in_protected o
        → (e : Entry V) × (o ≡ some e) × (e.protected ≡ true)
    in_protected_pos none p = absurd (omega arith)
    in_protected_pos (some e) p = (e, refl, ground arith)

    pub in_probation_pos :
        (o : Option (Entry V))
        → 0 < in_probation o
        → (e : Entry V) × (o ≡ some e) × (e.protected ≡ false)
    in_probation_pos none p = absurd (omega arith)
    in_probation_pos (some e) p = (e, refl, ground arith)

    -- The victim is in the map.
    pub victim_held :
        (k : String) → victim c ≡ some k → (e : Entry V) × (lookup k c.entries ≡ some e)
    unfolding victim
    victim_held k v = elim (Option-cases (back c.probation)) [
      | inl empty ↦
          let (e, held, _) =
            in_protected_pos (lookup k c.entries)
              (omega (arith, h.on_protected k, count-back k c.protected (ground arith))) in
          (e, held)
      | inr (j, last) ↦
          let (e, held, _) =
            in_probation_pos (lookup k c.entries)
              (omega (arith, h.on_probation k, count-back k c.probation (ground arith))) in
          (e, held)
    ]

    -- There is a victim as long as there is an entry.
    pub victim_exists : 0 < length c.entries → (k : String) × (victim c ≡ some k)
    unfolding victim
    victim_exists p = elim (Option-cases (back c.probation)) [
      | inl empty ↦ elim (Option-cases (back c.protected)) [
        | inl none_left ↦ absurd (
            omega (
              arith,
              h.sizes,
              ap length (back-eq-none _ empty),
              ap length (back-eq-none _ none_left),
            ))
        | inr (k, last) ↦ (k, ground arith)
      ]
      | inr (k, last) ↦ (k, ground arith)
    ]
