-- ===== src/Residency/Slru/Segments.antt =====
-- residency/slru.go: the key map, the segment lists and the byte counts agree, and each edit of an
-- entry keeps that.
use gobeyond.Common.{
  ℕ, ◌+◌, String, ◌≡◌, true, false, Option, none, some, if◌then◌else◌, length, count, count-erase,
  length-erase, arith, eq_iff,
}
use gobeyond.Common.Maps.{
  lookup, insert, total, IsUnique, lookup-delete, lookup-insert, lookup-adjust, delete-IsUnique,
  insert-IsUnique, adjust-IsUnique, length-delete, length-adjust, total-delete, total-adjust,
  delete_absent,
}
use gobeyond.Residency.State.{Entry, Cache}
use gobeyond.Residency.Slru.{remove_entry, push_entry, promote, demote}

module _ {ℓ} {V : Type ℓ} where
  -- How often a segment list holds the key of what the map gives.
  abbrev pub in_probation : Option (Entry V) → ℕ
  in_probation none = 0
  in_probation (some e) = if e.protected then 0 else 1

  abbrev pub in_protected : Option (Entry V) → ℕ
  in_protected none = 0
  in_protected (some e) = if e.protected then 1 else 0

  abbrev pub weigh : Entry V → ℕ
  weigh e = e.weight

  abbrev pub weigh_protected : Entry V → ℕ
  weigh_protected e = if e.protected then e.weight else 0

  -- Each key of the map stands once in the list of its segment and in no other place, and the
  -- counts are the sums over the map.
  pub record IsConsistent (c : Cache V) : Type ℓ where
    pub unique : IsUnique c.entries
    pub on_probation : (k : String) → count k c.probation ≡ in_probation (lookup k c.entries)
    pub on_protected : (k : String) → count k c.protected ≡ in_protected (lookup k c.entries)
    pub sizes : length c.entries ≡ length c.probation + length c.protected
    pub bytes : c.bytes ≡ total weigh c.entries
    pub protected_bytes : c.protected_bytes ≡ total weigh_protected c.entries

  module _ (k : String) (e : Entry V) (c : Cache V) (h : IsConsistent c)
      (found : lookup k c.entries ≡ some e) where
    pub remove_entry-IsConsistent : IsConsistent (remove_entry k e c)
    unfolding remove_entry
    remove_entry-IsConsistent = record {
      unique = delete-IsUnique k c.entries h.unique;
      on_probation = λ j. ground (
        arith,
        h.on_probation j,
        h.on_probation k,
        count-erase k j c.probation,
        lookup-delete k j c.entries,
        eq_iff k j,
      );
      on_protected = λ j. ground (
        arith,
        h.on_protected j,
        h.on_protected k,
        count-erase k j c.protected,
        lookup-delete k j c.entries,
        eq_iff k j,
      );
      sizes = ground (
        arith,
        h.sizes,
        h.on_probation k,
        h.on_protected k,
        length-erase k c.probation,
        length-erase k c.protected,
        length-delete k e c.entries h.unique found,
      );
      bytes = ground (arith, h.bytes, total-delete k weigh e c.entries h.unique found);
      protected_bytes =
          ground
            (arith, h.protected_bytes, total-delete k weigh_protected e c.entries h.unique found);
    }

    pub demote-IsConsistent : e.protected ≡ true → IsConsistent (demote k e c)
    unfolding demote
    demote-IsConsistent p = record {
      unique = adjust-IsUnique k _ c.entries h.unique;
      on_probation = λ j. ground (
        arith,
        h.on_probation j,
        h.on_probation k,
        lookup-adjust k j (λ x. record x { protected = false }) c.entries,
        eq_iff k j,
      );
      on_protected = λ j. ground (
        arith,
        h.on_protected j,
        h.on_protected k,
        count-erase k j c.protected,
        lookup-adjust k j (λ x. record x { protected = false }) c.entries,
        eq_iff k j,
      );
      sizes = ground (
        arith,
        h.sizes,
        h.on_protected k,
        length-erase k c.protected,
        length-adjust k (λ x. record x { protected = false }) c.entries,
      );
      bytes = ground (
        arith,
        h.bytes,
        total-adjust k weigh (λ x. record x { protected = false }) e c.entries h.unique found,
      );
      protected_bytes = ground (
        arith,
        h.protected_bytes,
        total-adjust k weigh_protected (λ x. record x { protected = false }) e c.entries h.unique
            found,
      );
    }

    pub promote-IsConsistent : e.protected ≡ false → IsConsistent (promote k e c)
    unfolding promote
    promote-IsConsistent p = record {
      unique = adjust-IsUnique k _ c.entries h.unique;
      on_probation = λ j. ground (
        arith,
        h.on_probation j,
        h.on_probation k,
        count-erase k j c.probation,
        lookup-adjust k j (λ x. record x { protected = true }) c.entries,
        eq_iff k j,
      );
      on_protected = λ j. ground (
        arith,
        h.on_protected j,
        h.on_protected k,
        lookup-adjust k j (λ x. record x { protected = true }) c.entries,
        eq_iff k j,
      );
      sizes = ground (
        arith,
        h.sizes,
        h.on_probation k,
        length-erase k c.probation,
        length-adjust k (λ x. record x { protected = true }) c.entries,
      );
      bytes = ground (
        arith,
        h.bytes,
        total-adjust k weigh (λ x. record x { protected = true }) e c.entries h.unique found,
      );
      protected_bytes = ground (
        arith,
        h.protected_bytes,
        total-adjust k weigh_protected (λ x. record x { protected = true }) e c.entries h.unique
            found,
      );
    }

  pub push_entry-IsConsistent :
      (k : String) (e : Entry V) (c : Cache V)
      → IsConsistent c
      → lookup k c.entries ≡ none
      → e.protected ≡ false
      → IsConsistent (push_entry k e c)
  unfolding push_entry insert total
  push_entry-IsConsistent k e c h absent p = record {
    unique = insert-IsUnique k e c.entries h.unique;
    on_probation = λ j.
        ground
          (arith, h.on_probation j, h.on_probation k, lookup-insert k j e c.entries, eq_iff k j);
    on_protected = λ j.
        ground
          (arith, h.on_protected j, h.on_protected k, lookup-insert k j e c.entries, eq_iff k j);
    sizes = ground (arith, h.sizes, delete_absent k c.entries absent);
    bytes = ground (arith, h.bytes, delete_absent k c.entries absent);
    protected_bytes = ground (arith, h.protected_bytes, delete_absent k c.entries absent);
  }
