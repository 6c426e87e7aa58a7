-- ===== src/Residency/Negative/Room.antt =====
-- residency/negative.go: the loop of storeNegativeLocked that makes room ends with room for one
-- more failure.
use gobeyond.Common.{
  List, ℕ, zero, suc, ◌≤◌, ◌<◌, String, ◌≡◌, refl, ap, true, false, none, List, [], ◌∷◌, length,
  arith, leb, count, eq_iff, Bool-cases, List-cases, inl, inr,
}
use gobeyond.Common.Maps.{lookup, lookup-delete}
use gobeyond.Residency.State.{Limits, Cache}
use gobeyond.Residency.Negative.{remove_negative, make_room}
use gobeyond.Residency.Negative.Order.{
  IsOrdered, SameEntries, refl-SameEntries, trans-SameEntries, remove_negative_lem,
  length-remove_negative, limits-remove_negative,
}

module _ {ℓ} {V : Type ℓ} where
  module _ (fuel : ℕ) (c : Cache V) where
    make_room_stop :
        leb c.limits.negative_max (length c.negative) ≡ false → make_room (suc fuel) c ≡ c
    unfolding make_room
    make_room_stop stop = rw (stop, make_room)

    make_room_step :
        (k : String) (ks : List String)
        → leb c.limits.negative_max (length c.negative) ≡ true
        → c.negative_order ≡ k ∷ ks
        → make_room (suc fuel) c ≡ make_room fuel (remove_negative k c)
    unfolding make_room
    make_room_step k ks go first = ground arith

    make_room_empty : c.negative_order ≡ [] → make_room (suc fuel) c ≡ c
    unfolding make_room
    make_room_empty first = ground arith

  -- What the loop that makes room promises.
  abbrev pub MakesRoom : Cache V → Cache V → Type ℓ
  MakesRoom c d =
      IsOrdered d
      × SameEntries c d
      × (length d.negative < c.limits.negative_max)
      × ((k : String) → lookup k c.negative ≡ none → lookup k d.negative ≡ none)

  absent_after_remove :
      (j k : String) (c : Cache V)
      → lookup k c.negative ≡ none
      → lookup k (remove_negative j c).negative ≡ none
  unfolding remove_negative
  absent_after_remove j k c h = ground (arith, lookup-delete j k c.negative)

  module _ (fuel : ℕ)
      (ih : (d : Cache V)
        → 0 < d.limits.negative_max
        → IsOrdered d
        → length d.negative ≤ fuel
        → MakesRoom d (make_room fuel d)) where
    make_room_full :
        (c : Cache V) (ks : List String)
        → 0 < c.limits.negative_max
        → IsOrdered c
        → length c.negative ≤ suc fuel
        → leb c.limits.negative_max (length c.negative) ≡ true
        → c.negative_order ≡ ks
        → MakesRoom c (make_room (suc fuel) c)
    make_room_full c [] p h le go first = absurd (ground (arith, h.sizes, ap length first))
    make_room_full c (k ∷ ks) p h le go first =
        let (h', same, _) = remove_negative_lem k c h in
        let limits = limits-remove_negative k c in
        let shorter =
          length-remove_negative k c h (ground (arith, ap (count k) first, eq_iff k k)) in
        let (ordered, same', room, absent) =
          ih (remove_negative k c) (rw limits p) h' (omega arith) in
        rw (make_room_step fuel c k ks go first) (
          ordered,
          trans-SameEntries same same',
          omega (arith, ap (λ (l : Limits). l.negative_max) limits),
          λ j e. absent j (absent_after_remove k j c e),
        )

  -- With as much fuel as there are failures, the loop ends with room for one more.
  pub make_room_lem :
      (fuel : ℕ) (c : Cache V)
      → 0 < c.limits.negative_max
      → IsOrdered c
      → length c.negative ≤ fuel
      → MakesRoom c (make_room fuel c)
  unfolding make_room
  make_room_lem zero c p h le = (h, refl-SameEntries c, omega arith, λ k e. e)
  make_room_lem (suc fuel) c p h le =
      elim (Bool-cases (leb c.limits.negative_max (length c.negative))) [
        | inl go ↦ make_room_full fuel (make_room_lem fuel) c c.negative_order p h le go refl
        | inr stop ↦ rw (make_room_stop fuel c stop) (h, refl-SameEntries c, ground arith, λ k e. e)
      ]

  -- What each removal keeps, the loop keeps.
  pub make_room_inv {κ} :
      (P : Cache V → Type κ)
      → ((k : String) (c : Cache V) → P c → P (remove_negative k c))
      → (fuel : ℕ) (c : Cache V) → P c
      → P (make_room fuel c)
  unfolding make_room
  make_room_inv P keep zero c h = h
  make_room_inv P keep (suc fuel) c h =
      elim (Bool-cases (leb c.limits.negative_max (length c.negative))) [
        | inr stop ↦ rw (make_room_stop fuel c stop) h
        | inl go ↦ elim (List-cases c.negative_order) [
          | inl empty ↦ rw (make_room_empty fuel c empty) h
          | inr (k, ks, first) ↦
              rw (make_room_step fuel c k ks go first)
                (make_room_inv P keep fuel (remove_negative k c) (keep k c h))
        ]
      ]
