-- ===== src/Residency/Slru/Loops.antt =====
-- residency/slru.go: the eviction loop. What each eviction keeps the loop keeps, and the loop ends
-- by its test.
use gobeyond.Common.{
  ℕ, zero, suc, ◌+◌, ◌≤◌, ◌<◌, ◌≡◌, refl, Bool, true, false, none, some, length, arith, Bool-cases,
  Option-cases, inl, inr,
}
use gobeyond.Common.Maps.{length-delete}
use gobeyond.Residency.State.{Cache}
use gobeyond.Residency.Slru.{remove_entry, evict_one, evict_while}
use gobeyond.Residency.Slru.Segments.{IsConsistent, remove_entry-IsConsistent}
use gobeyond.Residency.Slru.Evict.{
  evicted, recount-IsConsistent, evict_one-eq-some, victim_held, victim_exists,
}

module _ {ℓ} {V : Type ℓ} where
  pub evict_one-IsConsistent :
      (c d : Cache V) → IsConsistent c → evict_one c ≡ some d → IsConsistent d
  evict_one-IsConsistent c d h p =
      let (k, e, _, held, same) = evict_one-eq-some c d p in
      rw same (
        recount-IsConsistent {c = remove_entry k e c} refl refl refl refl refl
          (remove_entry-IsConsistent k e c h held))

  pub length-evict_one :
      (c d : Cache V)
      → IsConsistent c
      → evict_one c ≡ some d
      → length d.entries + 1 ≡ length c.entries
  unfolding remove_entry
  length-evict_one c d h p =
      let (k, e, _, held, same) = evict_one-eq-some c d p in
      rw same (length-delete k e c.entries h.unique held)

  pub evict_one_total :
      (c : Cache V) → IsConsistent c → 0 < length c.entries → (d : Cache V) × (evict_one c ≡ some d)
  unfolding evict_one
  evict_one_total c h p =
      let (k, found) = victim_exists c h p in
      let (e, held) = victim_held c h k found in (evicted k e c, ground arith)

  module _ (test : Cache V → Bool) (fuel : ℕ) (c : Cache V) where
    evict_while_stop : test c ≡ false → evict_while test (suc fuel) c ≡ c
    unfolding evict_while
    evict_while_stop stop = rw (stop, evict_while)

    evict_while_stuck : test c ≡ true → evict_one c ≡ none → evict_while test (suc fuel) c ≡ c
    unfolding evict_while
    evict_while_stuck go stop = ground arith

    evict_while_step :
        (d : Cache V)
        → test c ≡ true
        → evict_one c ≡ some d
        → evict_while test (suc fuel) c ≡ evict_while test fuel d
    unfolding evict_while
    evict_while_step d go step = ground arith

  pub evict_while_inv :
      (P : Cache V → Type ℓ) (test : Cache V → Bool)
      → ((c d : Cache V) → P c → test c ≡ true → evict_one c ≡ some d → P d)
      → (fuel : ℕ) (c : Cache V) → P c
      → P (evict_while test fuel c)
  unfolding evict_while
  evict_while_inv P test keep zero c h = h
  evict_while_inv P test keep (suc fuel) c h = elim (Bool-cases (test c)) [
    | inl go ↦ elim (Option-cases (evict_one c)) [
      | inl stop ↦ rw (evict_while_stuck test fuel c go stop) h
      | inr (d, step) ↦
          rw (evict_while_step test fuel c d go step)
            (evict_while_inv P test keep fuel d (keep c d h go step))
    ]
    | inr stop ↦ rw (evict_while_stop test fuel c stop) h
  ]

  module _ (test : Cache V → Bool)
      (needs : (c : Cache V) → IsConsistent c → test c ≡ true → 0 < length c.entries) where
    pub evict_while_done :
        (fuel : ℕ) (c : Cache V)
        → IsConsistent c
        → length c.entries ≤ fuel
        → test (evict_while test fuel c) ≡ false
    unfolding evict_while
    evict_while_done zero c h p = elim (Bool-cases (test c)) [
      | inl go ↦ absurd (omega (arith, needs c h go))
      | inr stop ↦ stop
    ]
    evict_while_done (suc fuel) c h p = elim (Bool-cases (test c)) [
      | inl go ↦
          let (d, step) = evict_one_total c h (needs c h go) in
          rw (evict_while_step test fuel c d go step) (
            evict_while_done fuel d (evict_one-IsConsistent c d h step)
              (omega (arith, length-evict_one c d h step)))
      | inr stop ↦ rw (evict_while_stop test fuel c stop) stop
    ]
