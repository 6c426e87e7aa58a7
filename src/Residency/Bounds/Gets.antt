-- ===== src/Residency/Bounds/Gets.antt =====
-- residency/residency.go: `Get` keeps the cache well formed.
use gobeyond.Common.{ℕ, suc, String, ◌≡◌, refl, Option, none, some, arith, if_intro, eq_iff, ◌∙◌}
use gobeyond.Common.Maps.{lookup, lookup-adjust}
use gobeyond.Residency.Errors.{Err}
use gobeyond.Residency.State.{Limits, Entry, Cache}
use gobeyond.Residency.Negative.{negative_lookup}
use gobeyond.Residency.Negative.Order.{SameEntries-of_parts, SameEntries, negative_lookup_lem}
use gobeyond.Residency.Ops.{
  Outcome, fly, get_missing, hit_entry, get_entry, get, is_idle, stamp, after_negative,
}
use gobeyond.Residency.Bounds.Frames.{touch-SameNegative}
use gobeyond.Residency.Bounds.Halves.{
  IsSoundEntries, IsSoundNegative, IsSoundEntries-of_parts, IsSoundNegative-of_parts,
  IsSoundNegative-of_same, stamped, stamped-IsSoundEntries, touch-IsSoundEntries,
}
use gobeyond.Residency.Bounds.Sweeps.{expire_entry-IsSound}

module _ {ℓ} {V : Type ℓ} (l : Limits) where
  -- The invariant of the cache.
  abbrev pub IsSound : Cache V → Type ℓ
  IsSound c = IsSoundEntries c × IsSoundNegative l c

  -- Counters and flights are no part of the invariant.
  pub IsSound-of_parts :
      {c d : Cache V}
      → SameEntries c d
      → d.negative ≡ c.negative
      → d.negative_order ≡ c.negative_order
      → IsSound c
      → IsSound d
  IsSound-of_parts s pn po (h, n) =
      (IsSoundEntries-of_parts s h, IsSoundNegative-of_parts s.limits s.closed pn po n)

  pub fly-IsSound : (k : String) (o : Option ℕ) (c : Cache V) → IsSound c → IsSound (fly k o c).0
  unfolding fly
  fly-IsSound k (some f) c s = s
  fly-IsSound k none c s = IsSound-of_parts {c = c} (SameEntries-of_parts refl) refl refl s

  pub negative_lookup-IsSound :
      (now : ℕ) (k : String) (c : Cache V) → IsSound c → IsSound (negative_lookup now k c).0
  negative_lookup-IsSound now k c (h, n) =
      let (ordered, same, le) = negative_lookup_lem now k c n.ordered in
      (
        IsSoundEntries-of_parts same h,
        record {
          limits = cc (same.limits, n.limits);
          ordered = ordered;
          remembered = ground (arith, n.remembered, same.limits);
          after_close = λ p. omega (arith, n.after_close (cc (same.closed)));
        },
      )

  pub after_negative-IsSound :
      (k : String) (o : Option Err) (c : Cache V) → IsSound c → IsSound (after_negative k o c).0
  after_negative-IsSound k (some err) c s =
      IsSound-of_parts {c = c} (SameEntries-of_parts refl) refl refl s
  after_negative-IsSound k none c s =
      fly-IsSound k (lookup k c.flights) (record c { misses = suc c.misses })
        (IsSound-of_parts {c = c} (SameEntries-of_parts refl) refl refl s)

  pub get_missing-IsSound :
      (now : ℕ) (k : String) (c : Cache V) → IsSound c → IsSound (get_missing now k c).0
  unfolding get_missing
  get_missing-IsSound now k c s =
      after_negative-IsSound k (negative_lookup now k c).1 (negative_lookup now k c).0
        (negative_lookup-IsSound now k c s)

  pub lookup-stamped :
      (now : ℕ) (k : String) (e : Entry V) (c : Cache V)
      → lookup k c.entries ≡ some e
      → lookup k (stamped now k c).entries ≡ some (stamp now e)
  lookup-stamped now k e c held =
      lookup-adjust k k (stamp now) c.entries ∙ ground (arith, eq_iff k k)

  pub hit_entry-IsSound :
      (now : ℕ) (k : String) (e : Entry V) (c : Cache V)
      → lookup k c.entries ≡ some e
      → IsSound c
      → IsSound (hit_entry now k e c)
  unfolding hit_entry
  hit_entry-IsSound now k e c held (h, n) = (
    touch-IsSoundEntries k (stamp now e) (stamped now k c) (lookup-stamped now k e c held)
        (stamped-IsSoundEntries now k e c held h),
    IsSoundNegative-of_same (touch-SameNegative k (stamp now e) (stamped now k c))
        (IsSoundNegative-of_parts refl refl refl refl n),
  )

  pub get_entry-IsSound :
      (now : ℕ) (k : String) (o : Option (Entry V)) (c : Cache V)
      → lookup k c.entries ≡ o
      → IsSound c
      → IsSound (get_entry now k o c).0
  unfolding get_entry
  get_entry-IsSound now k none c held s = get_missing-IsSound now k c s
  get_entry-IsSound now k (some e) c held s =
      if_intro (λ (r : Cache V × Outcome V). IsSound r.0) (is_idle c.limits.idle now e.last_access)
        (λ _. get_missing-IsSound now k _ (expire_entry-IsSound l k e c held s))
        (λ _. hit_entry-IsSound now k e c held s)

  pub get-IsSound :
      (ctx : Option Err) (now : ℕ) (k : String) (c : Cache V)
      → IsSound c
      → IsSound (get ctx now k c).0
  unfolding get
  get-IsSound (some err) now k c s = s
  get-IsSound none now k c s =
      if_intro (λ (r : Cache V × Outcome V). IsSound r.0) c.closed (λ _. s)
        (λ _. get_entry-IsSound now k (lookup k c.entries) c refl s)
