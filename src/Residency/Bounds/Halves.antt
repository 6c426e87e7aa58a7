-- ===== src/Residency/Bounds/Halves.antt =====
-- residency/: the two halves of a well-formed cache, its entries and its failures, and the edits
-- that leave a half alone.
use gobeyond.Common.{
  ℕ, suc, ◌≤◌, String, ◌≡◌, refl, ap, Bool, true, false, some, length, arith, Option-cases, inl,
  inr,
}
use gobeyond.Common.Maps.{
  lookup, adjust, lookup-adjust, adjust-IsUnique, length-adjust, total-adjust, length-delete,
}
use gobeyond.Residency.State.{Limits, Entry, Cache}
use gobeyond.Residency.Ops.{stamp}
use gobeyond.Residency.Slru.{remove_entry, evict_one, evict_while, over_budget, touch, insert_entry}
use gobeyond.Residency.Slru.Segments.{weigh, weigh_protected, remove_entry-IsConsistent}
use gobeyond.Residency.Slru.Evict.{evict_one-eq-some, recount-IsConsistent}
use gobeyond.Residency.Slru.Budgets.{
  IsLight, IsTidy, remove_entry-IsLight, remove_entry-protected_over, insert_entry-IsTidy,
}
use gobeyond.Residency.Slru.Touch.{touch_lem}
use gobeyond.Residency.Slru.Loops.{evict_while_inv}
use gobeyond.Residency.Negative.Order.{SameEntries-of_parts, IsOrdered, SameEntries}
use gobeyond.Residency.Bounds.Frames.{SameNegative, touch-SameNegative, insert_entry-SameNegative}

module _ {ℓ} {V : Type ℓ} where
  -- The segments are consistent and within the budgets, and a closed cache holds nothing.
  pub record IsSoundEntries (c : Cache V) : Type ℓ where
    pub tidy : IsTidy c
    pub in_budget : over_budget c ≡ false
    pub after_close : c.closed ≡ true → length c.entries ≡ 0

  -- The remembered failures are consistent and within their bound.
  pub record IsSoundNegative (l : Limits) (c : Cache V) : Type ℓ where
    pub limits : c.limits ≡ l
    pub ordered : IsOrdered c
    pub remembered : length c.negative ≤ c.limits.negative_max
    pub after_close : c.closed ≡ true → length c.negative ≡ 0

  pub IsSoundEntries-of_parts :
      {c d : Cache V} → SameEntries c d → IsSoundEntries c → IsSoundEntries d
  IsSoundEntries-of_parts {c} {d} s h =
      let (consistent, light, share) = h.tidy in
      record {
        tidy = (
          recount-IsConsistent s.entries s.probation s.protected s.bytes s.protected_bytes
              consistent,
          λ k e held. omega (
            arith,
            light k e (rw s.entries at held),
            ap (λ (l : Limits). l.oversize_bytes) s.limits,
          ),
          ground (arith, s.limits, s.protected, s.protected_bytes),
        );
        in_budget = ground (arith, h.in_budget, s.limits, s.entries, s.bytes);
        after_close = λ p. rw s.entries (h.after_close (cc (s.closed)));
      }

  pub IsSoundNegative-of_parts :
      {l : Limits} {c d : Cache V}
      → d.limits ≡ c.limits
      → d.closed ≡ c.closed
      → d.negative ≡ c.negative
      → d.negative_order ≡ c.negative_order
      → IsSoundNegative l c
      → IsSoundNegative l d
  IsSoundNegative-of_parts {c} {d} pl pc pn po h = record {
    limits = cc (pl, h.limits);
    ordered = record {
      unique = rw pn h.ordered.unique;
      on_order = λ k. rw (pn, po) (h.ordered.on_order k);
      sizes = rw (pn, po) h.ordered.sizes;
    };
    remembered = rw (pn, pl) h.remembered;
    after_close = λ p. rw pn (h.after_close (cc pc));
  }

  pub IsSoundNegative-of_same :
      {l : Limits} {c d : Cache V} → SameNegative c d → IsSoundNegative l c → IsSoundNegative l d
  IsSoundNegative-of_same s h =
      IsSoundNegative-of_parts s.limits s.closed s.negative s.negative_order h

  pub remove_entry-IsSoundEntries :
      (k : String) (e : Entry V) (c : Cache V)
      → lookup k c.entries ≡ some e
      → IsSoundEntries c
      → IsSoundEntries (remove_entry k e c)
  unfolding remove_entry
  remove_entry-IsSoundEntries k e c held h =
      let (consistent, light, share) = h.tidy in
      let shorter = length-delete k e c.entries consistent.unique held in
      record {
        tidy = (
          remove_entry-IsConsistent k e c consistent held,
          remove_entry-IsLight k e c light,
          remove_entry-protected_over k e c consistent held share,
        );
        in_budget = ground (arith, h.in_budget, shorter);
        after_close = λ p. omega (arith, h.after_close p, shorter);
      }

  -- Only the time of the last access changes.
  abbrev pub stamped : ℕ → String → Cache V → Cache V
  stamped now k c = record c { hits = suc c.hits; entries = adjust k (stamp now) c.entries }

  stamped-IsLight : (now : ℕ) (k : String) (c : Cache V) → IsLight c → IsLight (stamped now k c)
  stamped-IsLight now k c light j x found = elim (Option-cases (lookup j c.entries)) [
    | inl missing ↦ absurd (ground (arith, lookup-adjust k j (stamp now) c.entries))
    | inr (e, held) ↦ ground (arith, lookup-adjust k j (stamp now) c.entries, light j e held)
  ]

  pub stamped-IsSoundEntries :
      (now : ℕ) (k : String) (e : Entry V) (c : Cache V)
      → lookup k c.entries ≡ some e
      → IsSoundEntries c
      → IsSoundEntries (stamped now k c)
  stamped-IsSoundEntries now k e c held h =
      let (consistent, light, share) = h.tidy in
      let f : Entry V → Entry V = stamp now in
      record {
        tidy = (
          record {
            unique = adjust-IsUnique k f c.entries consistent.unique;
            on_probation =
                λ j. ground (arith, consistent.on_probation j, lookup-adjust k j f c.entries);
            on_protected =
                λ j. ground (arith, consistent.on_protected j, lookup-adjust k j f c.entries);
            sizes = omega (arith, consistent.sizes, length-adjust k f c.entries);
            bytes = omega (
              arith,
              consistent.bytes,
              total-adjust k weigh f e c.entries consistent.unique held,
            );
            protected_bytes = ground (
              arith,
              consistent.protected_bytes,
              total-adjust k weigh_protected f e c.entries consistent.unique held,
            );
          },
          stamped-IsLight now k c light,
          share,
        );
        in_budget = ground (arith, h.in_budget, length-adjust k f c.entries);
        after_close = λ p. omega (arith, h.after_close p, length-adjust k f c.entries);
      }

  pub touch-IsSoundEntries :
      (k : String) (e : Entry V) (c : Cache V)
      → lookup k c.entries ≡ some e
      → IsSoundEntries c
      → IsSoundEntries (touch k e c)
  touch-IsSoundEntries k e c held h =
      let (tidy, same, limits) = touch_lem k e c h.tidy held in
      let frame = touch-SameNegative k e c in
      record {
        tidy = tidy;
        in_budget = ground (arith, h.in_budget, same.size, same.bytes, limits);
        after_close = λ p. omega (arith, same.size, h.after_close (cc (frame.closed)));
      }

  pub insert_entry-IsSoundEntries :
      (now : ℕ) (k : String) (value : V) (weight : ℕ) (c : Cache V)
      → weight ≤ c.limits.oversize_bytes
      → c.closed ≡ false
      → IsSoundEntries c
      → IsSoundEntries (insert_entry now k value weight c)
  insert_entry-IsSoundEntries now k value weight c fits is_open h =
      let (tidy, in_budget) = insert_entry-IsTidy now k value weight c fits h.tidy in
      let frame = insert_entry-SameNegative now k value weight c in
      record { tidy = tidy; in_budget = in_budget; after_close = λ p. absurd (cc (frame.closed)) }

  evicted-IsSoundEntries :
      (c d : Cache V) → IsSoundEntries c → evict_one c ≡ some d → IsSoundEntries d
  evicted-IsSoundEntries c d h step =
      let (k, e, _, held, same) = evict_one-eq-some c d step in
      rw same (
        IsSoundEntries-of_parts {c = remove_entry k e c} (SameEntries-of_parts refl)
          (remove_entry-IsSoundEntries k e c held h))

  pub evict_while-IsSoundEntries :
      (test : Cache V → Bool) (fuel : ℕ) (c : Cache V)
      → IsSoundEntries c
      → IsSoundEntries (evict_while test fuel c)
  evict_while-IsSoundEntries test =
      evict_while_inv IsSoundEntries test (λ c d h _ step. evicted-IsSoundEntries c d h step)
