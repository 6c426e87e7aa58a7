-- ===== src/Residency/Promises/Absent.antt =====
-- residency/: a key that is not resident, and what is remembered of it, while the cache works on
-- other keys.
use gobeyond.Common.{
  ℕ, suc, ◌<◌, String, ◌≡◌, ◌≢◌, ◌⊎◌, Bool, true, false, Option, none, some, length, arith,
  if_intro, eq_iff,
}
use gobeyond.Common.Maps.{lookup, lookup-insert, lookup-delete, lookup-adjust, delete}
use gobeyond.Residency.Errors.{Err}
use gobeyond.Residency.State.{Entry, NegativeEntry, Cache}
use gobeyond.Residency.Slru.{
  remove_entry, evict_while, remove_old, push_entry, fresh_entry, insert_entry, enforce_budgets,
  over_budget, touch, promote, demote,
}
use gobeyond.Residency.Slru.Evict.{evict_one-eq-some}
use gobeyond.Residency.Slru.Loops.{evict_while_inv}
use gobeyond.Residency.Slru.Touch.{demote_loop_inv}
use gobeyond.Residency.Negative.{remove_negative, negative_lookup}
use gobeyond.Residency.Ops.{
  Outcome, fly, after_negative, get_missing, stamp, expire_entry, hit_entry, get_entry, get,
  is_idle,
}
use gobeyond.Residency.Bounds.Frames.{touch-SameNegative}
use gobeyond.Residency.Bounds.Halves.{stamped}

-- What is remembered has not expired.
abbrev pub Lasts : ℕ → Option NegativeEntry → Type 0
Lasts now none = Unit
Lasts now (some ne) = now < ne.expires

module _ {ℓ} {V : Type ℓ} (k : String) where
  -- The key has no entry.
  abbrev pub IsOut : Cache V → Type ℓ
  IsOut c = lookup k c.entries ≡ none

  pub evict_while-IsOut :
      (test : Cache V → Bool) (fuel : ℕ) (c : Cache V) → IsOut c → IsOut (evict_while test fuel c)
  unfolding remove_entry
  evict_while-IsOut test = evict_while_inv IsOut test (λ c d h _ step.
      let (j, e, _, _, same) = evict_one-eq-some c d step in
      rw same (ground (arith, lookup-delete j k c.entries)))

  touch-IsOut : (j : String) (e : Entry V) (c : Cache V) → IsOut c → IsOut (touch j e c)
  unfolding touch promote demote
  touch-IsOut j e c h =
      if_intro IsOut e.protected (λ _. h)
        (λ _.
          demote_loop_inv IsOut
            (λ i x d out.
              ground (arith, lookup-adjust i k (λ y. record y { protected = false }) d.entries))
            (length (promote j e c).protected) (promote j e c)
            (ground (arith, lookup-adjust j k (λ y. record y { protected = true }) c.entries)))

  pushed-IsOut :
      (j : String) (e : Entry V) (o : Option (Entry V)) (c : Cache V)
      → j ≢ k
      → IsOut c
      → IsOut (push_entry j e (remove_old j o c))
  unfolding push_entry remove_old remove_entry
  pushed-IsOut j e none c other h = ground (arith, lookup-insert j k e c.entries, eq_iff j k)
  pushed-IsOut j e (some old) c other h =
      ground
        (arith, lookup-insert j k e (delete j c.entries), lookup-delete j k c.entries, eq_iff j k)

  pub insert_entry-IsOut :
      (now : ℕ) (j : String) (v : V) (weight : ℕ) (c : Cache V)
      → j ≢ k
      → IsOut c
      → IsOut (insert_entry now j v weight c)
  unfolding insert_entry enforce_budgets
  insert_entry-IsOut now j v weight c other h =
      evict_while-IsOut over_budget _ _
        (pushed-IsOut j (fresh_entry v weight now) (lookup j c.entries) c other h)

  module _ (o : Option NegativeEntry) where
    -- The cache is open, the key has no entry, and `o` is what is remembered of it.
    abbrev pub IsAbsent : Cache V → Type ℓ
    IsAbsent c = (c.closed ≡ false) × IsOut c × (lookup k c.negative ≡ o)

    pub remove_negative-IsAbsent :
        (j : String) (c : Cache V)
        → (j ≢ k) ⊎ (o ≡ none)
        → IsAbsent c
        → IsAbsent (remove_negative j c)
    unfolding remove_negative
    remove_negative-IsAbsent j c free (is_open, out, held) =
        ground (arith, lookup-delete j k c.negative, eq_iff j k)

    negative_lookup-IsAbsent :
        (now : ℕ) (j : String) (c : Cache V)
        → Lasts now o
        → IsAbsent c
        → IsAbsent (negative_lookup now j c).0
    unfolding negative_lookup remove_negative
    negative_lookup-IsAbsent now j c lasts (is_open, out, held) =
        ground (arith, lookup-delete j k c.negative, eq_iff j k)

    fly-IsAbsent : (j : String) (g : Option ℕ) (c : Cache V) → IsAbsent c → IsAbsent (fly j g c).0
    unfolding fly
    fly-IsAbsent j none c h = h
    fly-IsAbsent j (some g) c h = h

    after_negative-IsAbsent :
        (j : String) (e : Option Err) (c : Cache V) → IsAbsent c → IsAbsent (after_negative j e c).0
    after_negative-IsAbsent j (some err) c h = h
    after_negative-IsAbsent j none c h =
        fly-IsAbsent j (lookup j c.flights) (record c { misses = suc c.misses }) h

    get_missing-IsAbsent :
        (now : ℕ) (j : String) (c : Cache V)
        → Lasts now o
        → IsAbsent c
        → IsAbsent (get_missing now j c).0
    unfolding get_missing
    get_missing-IsAbsent now j c lasts h =
        after_negative-IsAbsent j (negative_lookup now j c).1 (negative_lookup now j c).0
          (negative_lookup-IsAbsent now j c lasts h)

    pub expire_entry-IsAbsent :
        (j : String) (e : Entry V) (c : Cache V) → IsAbsent c → IsAbsent (expire_entry j e c)
    unfolding expire_entry remove_entry
    expire_entry-IsAbsent j e c (is_open, out, held) =
        (is_open, ground (arith, lookup-delete j k c.entries), held)

    hit_entry-IsAbsent :
        (now : ℕ) (j : String) (e : Entry V) (c : Cache V)
        → IsAbsent c
        → IsAbsent (hit_entry now j e c)
    unfolding hit_entry
    hit_entry-IsAbsent now j e c (is_open, out, held) =
        let same = touch-SameNegative j (stamp now e) (stamped now j c) in
        (
          rw same.closed is_open,
          touch-IsOut j (stamp now e) (stamped now j c)
              (ground (arith, lookup-adjust j k (stamp now) c.entries)),
          rw same.negative held,
        )

    get_entry-IsAbsent :
        (now : ℕ) (j : String) (e : Option (Entry V)) (c : Cache V)
        → Lasts now o
        → IsAbsent c
        → IsAbsent (get_entry now j e c).0
    unfolding get_entry
    get_entry-IsAbsent now j none c lasts h = get_missing-IsAbsent now j c lasts h
    get_entry-IsAbsent now j (some e) c lasts h =
        if_intro (λ (r : Cache V × Outcome V). IsAbsent r.0)
          (is_idle c.limits.idle now e.last_access)
          (λ _. get_missing-IsAbsent now j _ lasts (expire_entry-IsAbsent j e c h))
          (λ _. hit_entry-IsAbsent now j e c h)

    pub get-IsAbsent :
        (ctx : Option Err) (now : ℕ) (j : String) (c : Cache V)
        → Lasts now o
        → IsAbsent c
        → IsAbsent (get ctx now j c).0
    unfolding get
    get-IsAbsent (some err) now j c lasts h = h
    get-IsAbsent none now j c lasts h =
        if_intro (λ (r : Cache V × Outcome V). IsAbsent r.0) c.closed (λ _. h)
          (λ _. get_entry-IsAbsent now j (lookup j c.entries) c lasts h)
