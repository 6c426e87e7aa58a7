-- ===== src/Residency/Negative/Order.antt =====
-- residency/negative.go: the map of failures and its list agree, and removing a failure or looking one
-- up keeps that and leaves the entries alone.
use gobeyond.Common.{
  Bool, List, ℕ, ◌+◌, ◌≤◌, ◌<◌, String, ◌≡◌, refl, ap, some, List, length, arith, ltb, count,
  count-erase, erase, length-erase, if◌then◌else◌, eq_iff, is_some, Bool-cases, Option-cases, inl,
  inr,
}
use gobeyond.Common.Maps.{
  Map, lookup, delete, IsUnique, lookup-delete, delete-IsUnique, length-delete,
}
use gobeyond.Residency.State.{Limits, Entry, NegativeEntry, Cache}
use gobeyond.Residency.Negative.{remove_negative, negative_lookup}

module _ {ℓ} {V : Type ℓ} where
  pub record IsOrdered (c : Cache V) : Type ℓ where
    pub unique : IsUnique c.negative
    pub on_order :
        (k : String) → count k c.negative_order ≡ (if is_some (lookup k c.negative) then 1 else 0)
    pub sizes : length c.negative_order ≡ length c.negative

  -- What an operation on failures leaves alone.
  pub record SameEntries (c d : Cache V) : Type ℓ where
    pub limits : d.limits ≡ c.limits
    pub closed : d.closed ≡ c.closed
    pub entries : d.entries ≡ c.entries
    pub probation : d.probation ≡ c.probation
    pub protected : d.protected ≡ c.protected
    pub bytes : d.bytes ≡ c.bytes
    pub protected_bytes : d.protected_bytes ≡ c.protected_bytes

  abbrev pub entry_parts :
      Cache V → Limits × Bool × Map (Entry V) × List String × List String × ℕ × ℕ
  entry_parts c =
      (c.limits, c.closed, c.entries, c.probation, c.protected, c.bytes, c.protected_bytes)

  pub SameEntries-of_parts : {c d : Cache V} → entry_parts d ≡ entry_parts c → SameEntries c d
  SameEntries-of_parts p = record {
    limits = ap (λ t. t.0) p;
    closed = ap (λ t. t.1) p;
    entries = ap (λ t. t.2) p;
    probation = ap (λ t. t.3) p;
    protected = ap (λ t. t.4) p;
    bytes = ap (λ t. t.5) p;
    protected_bytes = ap (λ t. t.6) p;
  }

  pub refl-SameEntries : (c : Cache V) → SameEntries c c
  refl-SameEntries c = SameEntries-of_parts refl

  pub trans-SameEntries : {c d e : Cache V} → SameEntries c d → SameEntries d e → SameEntries c e
  trans-SameEntries p q = record {
    limits = cc (p.limits, q.limits);
    closed = cc (p.closed, q.closed);
    entries = cc (p.entries, q.entries);
    probation = cc (p.probation, q.probation);
    protected = cc (p.protected, q.protected);
    bytes = cc (p.bytes, q.bytes);
    protected_bytes = cc (p.protected_bytes, q.protected_bytes);
  }

  forgotten_IsOrdered :
      (k : String) (ne : NegativeEntry) (c : Cache V)
      → IsOrdered c
      → lookup k c.negative ≡ some ne
      → IsOrdered
          (record c { negative_order = erase k c.negative_order; negative = delete k c.negative })
  forgotten_IsOrdered k ne c h held = record {
    unique = delete-IsUnique k c.negative h.unique;
    on_order = λ j. ground (
      arith,
      h.on_order j,
      h.on_order k,
      count-erase k j c.negative_order,
      lookup-delete k j c.negative,
      eq_iff k j,
    );
    sizes = ground (
      arith,
      h.sizes,
      h.on_order k,
      length-erase k c.negative_order,
      length-delete k ne c.negative h.unique held,
    );
  }

  pub remove_negative_lem :
      (k : String) (c : Cache V)
      → IsOrdered c
      → IsOrdered (remove_negative k c)
        × SameEntries c (remove_negative k c)
        × (length (remove_negative k c).negative ≤ length c.negative)
  unfolding remove_negative
  remove_negative_lem k c h = elim (Option-cases (lookup k c.negative)) [
    | inl missing ↦ rw (missing, remove_negative) (h, refl-SameEntries c, omega arith)
    | inr (ne, held) ↦
        rw (held, remove_negative)
          (
            forgotten_IsOrdered k ne c h held,
            SameEntries-of_parts refl,
            omega (arith, length-delete k ne c.negative h.unique held),
          )
  ]

  pub length-remove_negative :
      (k : String) (c : Cache V)
      → IsOrdered c
      → 0 < count k c.negative_order
      → length (remove_negative k c).negative + 1 ≡ length c.negative
  unfolding remove_negative
  length-remove_negative k c h p = elim (Option-cases (lookup k c.negative)) [
    | inl missing ↦ absurd (ground (arith, h.on_order k))
    | inr (ne, held) ↦ rw (held, remove_negative) (length-delete k ne c.negative h.unique held)
  ]

  pub limits-remove_negative : (k : String) (c : Cache V) → (remove_negative k c).limits ≡ c.limits
  unfolding remove_negative
  limits-remove_negative k c = ground arith

  pub negative_lookup_lem :
      (now : ℕ) (k : String) (c : Cache V)
      → IsOrdered c
      → IsOrdered (negative_lookup now k c).0
        × SameEntries c (negative_lookup now k c).0
        × (length (negative_lookup now k c).0.negative ≤ length c.negative)
  unfolding negative_lookup
  negative_lookup_lem now k c h = elim (Option-cases (lookup k c.negative)) [
    | inl missing ↦ rw (missing, negative_lookup) (h, refl-SameEntries c, omega arith)
    | inr (ne, held) ↦ elim (Bool-cases (ltb now ne.expires)) [
      | inl live ↦ rw (held, negative_lookup) (rw live (h, refl-SameEntries c, omega arith))
      | inr over ↦ rw (held, negative_lookup) (rw over (remove_negative_lem k c h))
    ]
  ]
