-- ===== src/Residency/Slru/Touch.antt =====
-- residency/slru.go: a hit. The touched entry is promoted, the protected segment ends within its
-- share, and nothing is evicted.
use gobeyond.Common.{
  ℕ, zero, suc, ◌≤◌, String, ◌≡◌, refl, ap, true, false, Option, none, some, ◌∷◌, length, arith,
  back, back-eq-none, count-back, count-erase, erase, length-erase, eq_iff, Bool-cases,
  Option-cases, inl, inr,
}
use gobeyond.Common.Maps.{lookup, lookup-adjust, length-adjust}
use gobeyond.Residency.State.{Entry, Cache}
use gobeyond.Residency.Slru.{promote, demote, demote_loop, touch, protected_over}
use gobeyond.Residency.Slru.Segments.{IsConsistent, promote-IsConsistent, demote-IsConsistent}
use gobeyond.Residency.Slru.Evict.{in_protected_pos}
use gobeyond.Residency.Slru.Budgets.{IsLight, IsTidy}

module _ {ℓ} {V : Type ℓ} where
  -- What a hit leaves as it is: every value and weight, and the two counts that the budgets bound.
  abbrev pub contents : Option (Entry V) → Option (V × ℕ)
  contents none = none
  contents (some e) = some (e.value, e.weight)

  pub record IsSameContents (c d : Cache V) : Type ℓ where
    pub held : (k : String) → contents (lookup k d.entries) ≡ contents (lookup k c.entries)
    pub size : length d.entries ≡ length c.entries
    pub bytes : d.bytes ≡ c.bytes

  refl-IsSameContents : (c : Cache V) → IsSameContents c c
  refl-IsSameContents c = record { held = λ k. refl; size = refl; bytes = refl }

  pub trans-IsSameContents :
      {c d e : Cache V} → IsSameContents c d → IsSameContents d e → IsSameContents c e
  trans-IsSameContents p q = record {
    held = λ k. cc (p.held k, q.held k);
    size = cc (p.size, q.size);
    bytes = cc (p.bytes, q.bytes);
  }

  promote-IsSameContents :
      (k : String) (e : Entry V) (c : Cache V) → IsSameContents c (promote k e c)
  unfolding promote
  promote-IsSameContents k e c = record {
    held = λ j. ground (arith, lookup-adjust k j (λ x. record x { protected = true }) c.entries);
    size = length-adjust k _ c.entries;
    bytes = refl;
  }

  demote-IsSameContents : (k : String) (e : Entry V) (c : Cache V) → IsSameContents c (demote k e c)
  unfolding demote
  demote-IsSameContents k e c = record {
    held = λ j. ground (arith, lookup-adjust k j (λ x. record x { protected = false }) c.entries);
    size = length-adjust k _ c.entries;
    bytes = refl;
  }

  -- The protected LRU entry of a consistent cache.
  last_protected :
      (c : Cache V)
      → IsConsistent c
      → protected_over c ≡ true
      → (k : String) × (e : Entry V) × (back c.protected ≡ some k)
        × (lookup k c.entries ≡ some e)
        × (e.protected ≡ true)
  last_protected c h over = elim (Option-cases (back c.protected)) [
    | inl empty ↦ absurd (ground (arith, ap length (back-eq-none c.protected empty)))
    | inr (k, last) ↦
        let (e, held, p) =
          in_protected_pos c h (lookup k c.entries)
            (omega (arith, h.on_protected k, count-back k c.protected last)) in
        (k, e, last, held, p)
  ]

  module _ (fuel : ℕ) (c : Cache V) where
    demote_loop_stop : protected_over c ≡ false → demote_loop (suc fuel) c ≡ c
    unfolding demote_loop
    demote_loop_stop stop = rw (stop, demote_loop)

    demote_loop_step :
        (k : String) (e : Entry V)
        → protected_over c ≡ true
        → back c.protected ≡ some k
        → lookup k c.entries ≡ some e
        → demote_loop (suc fuel) c ≡ demote_loop fuel (demote k e c)
    unfolding demote_loop
    demote_loop_step k e go last held = ground arith

  module _ (fuel : ℕ) (c : Cache V) where
    demote_loop_empty : back c.protected ≡ none → demote_loop (suc fuel) c ≡ c
    unfolding demote_loop
    demote_loop_empty last = ground arith

    demote_loop_missing :
        (k : String)
        → back c.protected ≡ some k
        → lookup k c.entries ≡ none
        → demote_loop (suc fuel) c ≡ c
    unfolding demote_loop
    demote_loop_missing k last held = ground arith

  -- What each demotion keeps, the loop keeps.
  pub demote_loop_inv :
      (P : Cache V → Type ℓ)
      → ((k : String) (e : Entry V) (c : Cache V) → P c → P (demote k e c))
      → (fuel : ℕ) (c : Cache V) → P c
      → P (demote_loop fuel c)
  unfolding demote_loop
  demote_loop_inv P keep zero c h = h
  demote_loop_inv P keep (suc fuel) c h = elim (Bool-cases (protected_over c)) [
    | inr stop ↦ rw (demote_loop_stop fuel c stop) h
    | inl go ↦ elim (Option-cases (back c.protected)) [
      | inl empty ↦ rw (demote_loop_empty fuel c empty) h
      | inr (k, last) ↦ elim (Option-cases (lookup k c.entries)) [
        | inl missing ↦ rw (demote_loop_missing fuel c k last missing) h
        | inr (e, held) ↦
            rw (demote_loop_step fuel c k e go last held)
              (demote_loop_inv P keep fuel (demote k e c) (keep k e c h))
      ]
    ]
  ]

  demote_shorter :
      (fuel : ℕ) (k : String) (e : Entry V) (c : Cache V)
      → IsConsistent c
      → lookup k c.entries ≡ some e
      → e.protected ≡ true
      → length c.protected ≤ suc fuel
      → length (demote k e c).protected ≤ fuel
  unfolding demote
  demote_shorter fuel k e c h held p le =
      ground (arith, h.on_protected k, length-erase k c.protected)

  -- The loop ends with the protected segment within its share, whatever it held before.
  demote_loop_lem :
      (fuel : ℕ) (c : Cache V)
      → length c.protected ≤ fuel
      → IsConsistent c
      → IsConsistent (demote_loop fuel c)
        × IsSameContents c (demote_loop fuel c)
        × (protected_over (demote_loop fuel c) ≡ false)
        × ((demote_loop fuel c).limits ≡ c.limits)
  unfolding demote_loop
  demote_loop_lem zero c p h = (h, refl-IsSameContents c, ground arith, refl)
  demote_loop_lem (suc fuel) c p h = elim (Bool-cases (protected_over c)) [
    | inr stop ↦ rw (demote_loop_stop fuel c stop) (h, refl-IsSameContents c, stop, refl)
    | inl go ↦
        let (k, e, last, held, is_protected) = last_protected c h go in
        let (h', same, share, limits) =
          demote_loop_lem fuel (demote k e c) (demote_shorter fuel k e c h held is_protected p)
            (demote-IsConsistent k e c h held is_protected) in
        rw (demote_loop_step fuel c k e go last held)
          (h', trans-IsSameContents (demote-IsSameContents k e c) same, share, limits)
  ]

  IsLight-of_same :
      (c d : Cache V) → IsSameContents c d → d.limits ≡ c.limits → IsLight c → IsLight d
  IsLight-of_same c d same limits light k e held = elim (Option-cases (lookup k c.entries)) [
    | inl missing ↦ absurd (ground (arith, same.held k))
    | inr (e', found) ↦ rw limits (ground (arith, same.held k, light k e' found))
  ]

  front-IsConsistent :
      (k : String) (e : Entry V) (c : Cache V)
      → IsConsistent c
      → lookup k c.entries ≡ some e
      → e.protected ≡ true
      → IsConsistent (record c { protected = k ∷ erase k c.protected })
  front-IsConsistent k e c h held p = record {
    unique = h.unique;
    on_probation = h.on_probation;
    on_protected = λ j.
        ground (arith, h.on_protected j, h.on_protected k, count-erase k j c.protected, eq_iff k j);
    sizes = ground (arith, h.sizes, h.on_protected k, length-erase k c.protected);
    bytes = h.bytes;
    protected_bytes = h.protected_bytes;
  }

  -- A hit keeps the cache consistent and its contents, brings the protected segment within its
  -- share, and evicts nothing.
  pub touch_lem :
      (k : String) (e : Entry V) (c : Cache V)
      → IsTidy c
      → lookup k c.entries ≡ some e
      → IsTidy (touch k e c) × IsSameContents c (touch k e c) × ((touch k e c).limits ≡ c.limits)
  unfolding touch
  touch_lem k e c (h, light, share) held = elim (Bool-cases e.protected) [
    | inl p ↦
        rw (p, touch)
          (
            (
              front-IsConsistent k e c h held p,
              light,
              ground (arith, h.on_protected k, length-erase k c.protected),
            ),
            record { held = λ j. refl; size = refl; bytes = refl },
            refl,
          )
    | inr p ↦
        let c' = promote k e c in
        let (h', same, share', limits) =
          demote_loop_lem (length c'.protected) c' (omega arith)
            (promote-IsConsistent k e c h held p) in
        let all_same = trans-IsSameContents (promote-IsSameContents k e c) same in
        rw (p, touch) ((h', IsLight-of_same c _ all_same limits light, share'), all_same, limits)
  ]
