-- ===== src/Residency/Bounds/Sweeps.antt =====
-- residency/residency.go: the janitor's two loops keep the cache well formed.
use gobeyond.Common.{
  ℕ, ◌-◌, String, ◌≡◌, refl, none, some, [], ◌∷◌, arith, eq_iff, ltb, Bool-cases, inl, inr,
}
use gobeyond.Common.Maps.{Map, lookup, IsUnique, lookup-delete}
use gobeyond.Residency.State.{Limits, Entry, NegativeEntry, Cache}
use gobeyond.Residency.Slru.{remove_entry}
use gobeyond.Residency.Negative.{remove_negative}
use gobeyond.Residency.Negative.Order.{SameEntries-of_parts, remove_negative_lem}
use gobeyond.Residency.Ops.{expire_entry, sweep_entries, sweep_negative}
use gobeyond.Residency.Bounds.Frames.{SameNegative, remove_entry-SameNegative}
use gobeyond.Residency.Bounds.Halves.{
  IsSoundEntries, IsSoundNegative, IsSoundEntries-of_parts, IsSoundNegative-of_same,
  remove_entry-IsSoundEntries,
}

module _ {ℓ} {V : Type ℓ} (l : Limits) where
  expire_entry-SameNegative :
      (k : String) (e : Entry V) (c : Cache V) → SameNegative c (expire_entry k e c)
  unfolding expire_entry
  expire_entry-SameNegative k e c =
      let s = remove_entry-SameNegative k e c in
      record {
        limits = s.limits;
        closed = s.closed;
        negative = s.negative;
        negative_order = s.negative_order;
        flights = s.flights;
        next_flight = s.next_flight;
      }

  -- Dropping an idle entry keeps both halves.
  pub expire_entry-IsSound :
      (k : String) (e : Entry V) (c : Cache V)
      → lookup k c.entries ≡ some e
      → IsSoundEntries c × IsSoundNegative l c
      → IsSoundEntries (expire_entry k e c) × IsSoundNegative l (expire_entry k e c)
  unfolding expire_entry
  expire_entry-IsSound k e c held (h, n) = (
    IsSoundEntries-of_parts {c = remove_entry k e c} (SameEntries-of_parts refl)
        (remove_entry-IsSoundEntries k e c held h),
    IsSoundNegative-of_same (expire_entry-SameNegative k e c) n,
  )

  -- The cache still holds what is left to visit.
  abbrev Holds : Map (Entry V) → Cache V → Type ℓ
  Holds [] c = Unit
  Holds ((k, e) ∷ rest) c = (lookup k c.entries ≡ some e) × Holds rest c

  Holds-expire_entry :
      (k : String) (e : Entry V) (rest : Map (Entry V)) (c : Cache V)
      → lookup k rest ≡ none
      → Holds rest c
      → Holds rest (expire_entry k e c)
  unfolding expire_entry remove_entry lookup
  Holds-expire_entry k e [] c absent h = tt
  Holds-expire_entry k e ((j, x) ∷ rest) c absent (held, h) = (
    ground (arith, lookup-delete k j c.entries, eq_iff k j, eq_iff j k),
    Holds-expire_entry k e rest c (ground arith) h,
  )

  Holds-entries :
      (m : Map (Entry V)) (c : Cache V)
      → IsUnique m
      → ((k : String) (e : Entry V) → lookup k m ≡ some e → lookup k c.entries ≡ some e)
      → Holds m c
  unfolding lookup
  Holds-entries [] c u h = tt
  Holds-entries ((j, x) ∷ rest) c (absent, u) h = (
    h j x (ground (arith, eq_iff j j)),
    Holds-entries rest c u (λ k e held. h k e (ground (arith, eq_iff j k))),
  )

  sweep_entries_lem :
      (now : ℕ) (m : Map (Entry V)) (c : Cache V)
      → IsUnique m
      → Holds m c
      → IsSoundEntries c × IsSoundNegative l c
      → IsSoundEntries (sweep_entries now m c) × IsSoundNegative l (sweep_entries now m c)
  unfolding sweep_entries
  sweep_entries_lem now [] c u h s = s
  sweep_entries_lem now ((k, e) ∷ rest) c (absent, u) (held, h) s =
      elim (Bool-cases (ltb c.limits.idle (now - e.last_access))) [
        | inl stale ↦ rw stale (
            sweep_entries_lem now rest (expire_entry k e c) u
              (Holds-expire_entry k e rest c absent h) (expire_entry-IsSound k e c held s))
        | inr fresh ↦ rw fresh (sweep_entries_lem now rest c u h s)
      ]

  pub sweep_entries-IsSound :
      (now : ℕ) (c : Cache V)
      → IsSoundEntries c × IsSoundNegative l c
      → IsSoundEntries (sweep_entries now c.entries c)
        × IsSoundNegative l (sweep_entries now c.entries c)
  sweep_entries-IsSound now c s =
      let unique = s.0.tidy.0.unique in
      sweep_entries_lem now c.entries c unique (Holds-entries c.entries c unique (λ k e held. held))
        s

  -- Forgetting a failure keeps both halves.
  pub remove_negative-IsSound :
      (k : String) (c : Cache V)
      → IsSoundEntries c × IsSoundNegative l c
      → IsSoundEntries (remove_negative k c) × IsSoundNegative l (remove_negative k c)
  remove_negative-IsSound k c (h, n) =
      let (ordered, same, le) = remove_negative_lem k c n.ordered in
      (
        IsSoundEntries-of_parts same h,
        record {
          limits = cc (same.limits, n.limits);
          ordered = ordered;
          remembered = ground (arith, n.remembered, same.limits);
          after_close = λ p. omega (arith, n.after_close (cc (same.closed)));
        },
      )

  pub sweep_negative-IsSound :
      (now : ℕ) (m : Map NegativeEntry) (c : Cache V)
      → IsSoundEntries c × IsSoundNegative l c
      → IsSoundEntries (sweep_negative now m c) × IsSoundNegative l (sweep_negative now m c)
  unfolding sweep_negative
  sweep_negative-IsSound now [] c s = s
  sweep_negative-IsSound now ((k, ne) ∷ rest) c s = elim (Bool-cases (ltb now ne.expires)) [
    | inl live ↦ rw live (sweep_negative-IsSound now rest c s)
    | inr over ↦
        rw over
          (sweep_negative-IsSound now rest (remove_negative k c) (remove_negative-IsSound k c s))
  ]
