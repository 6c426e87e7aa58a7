-- ===== src/Residency/Bounds/Frames.antt =====
-- residency/: what the operations on entries leave alone.
use gobeyond.Common.{
  List, ap, Bool, length, ℕ, String, ◌≡◌, refl, Bool, Option, none, some, Bool-cases, inl, inr,
}
use gobeyond.Common.Maps.{Map, lookup}
use gobeyond.Residency.State.{Limits, Entry, NegativeEntry, Cache}
use gobeyond.Residency.Slru.{
  remove_entry, evict_one, evict_while, demote, promote, touch, insert_entry, enforce_budgets,
  remove_old, push_entry,
}
use gobeyond.Residency.Slru.Evict.{evict_one-eq-some}
use gobeyond.Residency.Slru.Touch.{demote_loop_inv}
use gobeyond.Residency.Slru.Loops.{evict_while_inv}

module _ {ℓ} {V : Type ℓ} where
  pub record SameNegative (c d : Cache V) : Type ℓ where
    pub limits : d.limits ≡ c.limits
    pub closed : d.closed ≡ c.closed
    pub negative : d.negative ≡ c.negative
    pub negative_order : d.negative_order ≡ c.negative_order
    pub flights : d.flights ≡ c.flights
    pub next_flight : d.next_flight ≡ c.next_flight

  abbrev negative_parts : Cache V → Limits × Bool × Map NegativeEntry × List String × Map ℕ × ℕ
  negative_parts c = (c.limits, c.closed, c.negative, c.negative_order, c.flights, c.next_flight)

  SameNegative-of_parts : {c d : Cache V} → negative_parts d ≡ negative_parts c → SameNegative c d
  SameNegative-of_parts p = record {
    limits = ap (λ t. t.0) p;
    closed = ap (λ t. t.1) p;
    negative = ap (λ t. t.2) p;
    negative_order = ap (λ t. t.3) p;
    flights = ap (λ t. t.4) p;
    next_flight = ap (λ t. t.5) p;
  }

  pub refl-SameNegative : (c : Cache V) → SameNegative c c
  refl-SameNegative c = SameNegative-of_parts refl

  pub trans-SameNegative :
      {c d e : Cache V} → SameNegative c d → SameNegative d e → SameNegative c e
  trans-SameNegative p q = record {
    limits = cc (p.limits, q.limits);
    closed = cc (p.closed, q.closed);
    negative = cc (p.negative, q.negative);
    negative_order = cc (p.negative_order, q.negative_order);
    flights = cc (p.flights, q.flights);
    next_flight = cc (p.next_flight, q.next_flight);
  }

  pub remove_entry-SameNegative :
      (k : String) (e : Entry V) (c : Cache V) → SameNegative c (remove_entry k e c)
  unfolding remove_entry
  remove_entry-SameNegative k e c = SameNegative-of_parts refl

  evict_one-SameNegative :
      (a c d : Cache V) → SameNegative a c → evict_one c ≡ some d → SameNegative a d
  evict_one-SameNegative a c d h step =
      let (k, e, _, _, same) = evict_one-eq-some c d step in
      let removed = remove_entry-SameNegative k e c in
      rw same (
        trans-SameNegative h (record {
          limits = removed.limits;
          closed = removed.closed;
          negative = removed.negative;
          negative_order = removed.negative_order;
          flights = removed.flights;
          next_flight = removed.next_flight;
        }))

  pub evict_while-SameNegative :
      (test : Cache V → Bool) (fuel : ℕ) (c : Cache V) → SameNegative c (evict_while test fuel c)
  evict_while-SameNegative test fuel c =
      evict_while_inv (SameNegative c) test (λ a d h _ step. evict_one-SameNegative c a d h step)
        fuel c (refl-SameNegative c)

  remove_old-SameNegative :
      (k : String) (o : Option (Entry V)) (c : Cache V) → SameNegative c (remove_old k o c)
  unfolding remove_old
  remove_old-SameNegative k none c = refl-SameNegative c
  remove_old-SameNegative k (some e) c = remove_entry-SameNegative k e c

  push_entry-SameNegative :
      (k : String) (e : Entry V) (c : Cache V) → SameNegative c (push_entry k e c)
  unfolding push_entry
  push_entry-SameNegative k e c = SameNegative-of_parts refl

  pub insert_entry-SameNegative :
      (now : ℕ) (k : String) (value : V) (weight : ℕ) (c : Cache V)
      → SameNegative c (insert_entry now k value weight c)
  unfolding insert_entry enforce_budgets
  insert_entry-SameNegative now k value weight c =
      trans-SameNegative
        (trans-SameNegative (remove_old-SameNegative k (lookup k c.entries) c)
          (push_entry-SameNegative k _ _))
        (evict_while-SameNegative _ _ _)

  demote-SameNegative :
      (a : Cache V) (k : String) (e : Entry V) (c : Cache V)
      → SameNegative a c
      → SameNegative a (demote k e c)
  unfolding demote
  demote-SameNegative a k e c h = record {
    limits = h.limits;
    closed = h.closed;
    negative = h.negative;
    negative_order = h.negative_order;
    flights = h.flights;
    next_flight = h.next_flight;
  }

  promote-SameNegative : (k : String) (e : Entry V) (c : Cache V) → SameNegative c (promote k e c)
  unfolding promote
  promote-SameNegative k e c = SameNegative-of_parts refl

  pub touch-SameNegative : (k : String) (e : Entry V) (c : Cache V) → SameNegative c (touch k e c)
  unfolding touch
  touch-SameNegative k e c = elim (Bool-cases e.protected) [
    | inl p ↦ rw (p, touch) (SameNegative-of_parts refl)
    | inr p ↦
        rw (p, touch)
          (demote_loop_inv (SameNegative c) (demote-SameNegative c)
            (length (promote k e c).protected) (promote k e c) (promote-SameNegative k e c))
  ]
