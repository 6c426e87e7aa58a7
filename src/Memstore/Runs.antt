-- ===== src/Memstore/Runs.antt =====
-- cache/memstore/memstore.go: runs of the store, from New on.
use gobeyond.Common.{
  ℕ, ◌+◌, ◌≤◌, String, ◌≡◌, inl, inr, refl, Bool, false, List, [], ◌∷◌, ◌==◌, str_eq, if_intro,
  arith, eq_iff, Bool-cases,
}
use gobeyond.Common.Int.{ℤ, pos, negsuc}
use gobeyond.Common.Maps.{Map, lookup, IsUnique, insert, lookup-insert, total}
use gobeyond.Memstore.State.{Options, Store, new, positive_or, default_max_entries}
use gobeyond.Memstore.Ops.{
  is_held, acquire_lease, Step, get_step, set_step, delete_step, bump_step, adopt_step, lease_step,
  apply, run,
}
use gobeyond.Memstore.Follows.{
  IsSound, Follows, refl-Follows, trans-Follows, get-Follows, set-Follows, delete_locked-Follows,
  bump_tag-Follows, adopt_tag_version-Follows,
}

leased-IsSound : (m : Map ℕ) (s : Store) → IsSound s → IsSound (record s { leases = m })
leased-IsSound m s h = record {
  consistent = record {
    shaped = record {
      unique = h.consistent.shaped.unique;
      on_order = h.consistent.shaped.on_order;
      sizes = h.consistent.shaped.sizes;
      bytes = h.consistent.shaped.bytes;
      on_index = h.consistent.shaped.on_index;
      filled = h.consistent.shaped.filled;
      maps = h.consistent.shaped.maps;
    };
    current = λ j tag u w.
        h.consistent.current j tag u (record { entry = w.entry; held = w.held; built = w.built });
  };
  fits = h.fits;
}

-- A key that is free is leased; another keeps its lease.
leased-Follows :
    (now key_until : ℕ) (key : String) (s : Store)
    → IsSound s
    → is_held now (lookup key s.leases) ≡ false
    → now ≤ key_until
    → Follows s (record s { leases = insert key key_until s.leases })
leased-Follows now key_until key s h free later = record {
  sound = leased-IsSound (insert key key_until s.leases) s h;
  grows = λ tag. omega arith;
  limits = refl;
  leases = λ k until (expiry, held, p). elim (Bool-cases (str_eq key k)) [
    | inl same ↦ (
      key_until,
      ground (arith, lookup-insert key k key_until s.leases),
      ground (arith, free, held, p, later, eq_iff key k),
    )
    | inr other ↦ (expiry, ground (arith, lookup-insert key k key_until s.leases), p)
  ];
}

pub acquire_lease-Follows :
    (now : ℕ) (key : String) (ttl : ℤ) (s : Store)
    → IsSound s
    → Follows s (acquire_lease now key ttl s).0
unfolding acquire_lease
acquire_lease-Follows now key (negsuc n) s h = refl-Follows s h
acquire_lease-Follows now key (pos n) s h =
    if_intro (λ (p : Store × Bool). Follows s p.0) (n == 0) (λ _. refl-Follows s h)
      (λ _.
        if_intro (λ (p : Store × Bool). Follows s p.0) (is_held now (lookup key s.leases))
          (λ _. refl-Follows s h) (λ free. leased-Follows now (now + n) key s h free (omega arith)))

-- The tag versions that a step hands in are a Go map.
abbrev pub IsMapStep : Step → Type 0
IsMapStep (get_step now key) = Unit
IsMapStep (set_step now key item ttl) = IsUnique item.tag_versions
IsMapStep (delete_step key) = Unit
IsMapStep (bump_step tag) = Unit
IsMapStep (adopt_step tag v) = Unit
IsMapStep (lease_step now key ttl) = Unit

abbrev pub AreMapSteps : List Step → Type 0
AreMapSteps [] = Unit
AreMapSteps (st ∷ steps) = IsMapStep st × AreMapSteps steps

pub apply-Follows : (st : Step) (s : Store) → IsMapStep st → IsSound s → Follows s (apply st s)
unfolding apply
apply-Follows (get_step now key) s map h = get-Follows now key s h
apply-Follows (set_step now key item ttl) s map h = set-Follows now key item ttl s h map
apply-Follows (delete_step key) s map h = delete_locked-Follows key s h
apply-Follows (bump_step tag) s map h = bump_tag-Follows tag s h
apply-Follows (adopt_step tag v) s map h = adopt_tag_version-Follows tag v s h
apply-Follows (lease_step now key ttl) s map h = acquire_lease-Follows now key ttl s h

pub run-Follows :
    (steps : List Step) (s : Store) → AreMapSteps steps → IsSound s → Follows s (run steps s)
unfolding run
run-Follows [] s maps h = refl-Follows s h
run-Follows (st ∷ steps) s (map, maps) h =
    let one = apply-Follows st s map h in
    trans-Follows one (run-Follows steps (apply st s) maps one.sound)

pub new-IsSound : (options : Options) → IsSound (new options)
unfolding new lookup total
new-IsSound options = record {
  consistent = record {
    shaped = record {
      unique = tt;
      on_order = λ k. refl;
      sizes = refl;
      bytes = refl;
      on_index = λ key tag. refl;
      filled = λ tag p. cc p;
      maps = λ key e p. cc;
    };
    current = λ key tag u w. cc w.held;
  };
  fits = ground arith;
}

positive_or_pos : (def : ℕ) (z : ℤ) → 1 ≤ def → 1 ≤ positive_or def z
positive_or_pos def (pos n) h = ground arith
positive_or_pos def (negsuc n) h = h

pub new_room : (options : Options) → 1 ≤ (new options).limits.max_entries
unfolding new
new_room options = positive_or_pos default_max_entries options.max_entries (omega arith)
