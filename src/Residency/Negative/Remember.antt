-- ===== src/Residency/Negative/Remember.antt =====
-- residency/negative.go: storeNegativeLocked keeps the map of failures and its list in step and
-- within the bound.
use gobeyond.Common.{
  ℕ, suc, ◌+◌, ◌≤◌, ◌<◌, String, ◌≡◌, refl, Option, none, some, [], ◌∷◌, length, length-append,
  arith, ltb, count-append, count-erase, erase, length-erase, eq_iff, Bool-cases, inl, inr,
}
use gobeyond.Common.Maps.{
  lookup, insert, lookup-insert, lookup-adjust, insert-IsUnique, adjust-IsUnique, length-adjust,
  delete_absent,
}
use gobeyond.Residency.Errors.{Err}
use gobeyond.Residency.State.{NegativeEntry, Cache}
use gobeyond.Residency.Negative.{make_room, push_negative, remember, store_negative}
use gobeyond.Residency.Negative.Order.{
  IsOrdered, SameEntries, SameEntries-of_parts, refl-SameEntries, trans-SameEntries,
}
use gobeyond.Residency.Negative.Room.{make_room_lem}

module _ {ℓ} {V : Type ℓ} where
  push_negative-IsOrdered :
      (k : String) (ne : NegativeEntry) (c : Cache V)
      → IsOrdered c
      → lookup k c.negative ≡ none
      → IsOrdered (push_negative k ne c)
        × (length (push_negative k ne c).negative ≡ suc (length c.negative))
  unfolding push_negative insert
  push_negative-IsOrdered k ne c h absent = (
    record {
      unique = insert-IsUnique k ne c.negative h.unique;
      on_order = λ j. ground (
        arith,
        h.on_order j,
        h.on_order k,
        count-append j c.negative_order (k ∷ []),
        lookup-insert k j ne c.negative,
        eq_iff k j,
      );
      sizes = ground (
        arith,
        h.sizes,
        length-append c.negative_order (k ∷ []),
        delete_absent k c.negative absent,
      );
    },
    ground (arith, delete_absent k c.negative absent),
  )

  moved_IsOrdered :
      (k : String) (ne old : NegativeEntry) (c : Cache V)
      → IsOrdered c
      → lookup k c.negative ≡ some old
      → IsOrdered (remember k ne (some old) c)
  unfolding remember
  moved_IsOrdered k ne old c h held = record {
    unique = adjust-IsUnique k (λ _. ne) c.negative h.unique;
    on_order = λ j. ground (
      arith,
      h.on_order j,
      h.on_order k,
      count-append j (erase k c.negative_order) (k ∷ []),
      count-erase k j c.negative_order,
      lookup-adjust k j (λ _. ne) c.negative,
      eq_iff k j,
    );
    sizes = ground (
      arith,
      h.sizes,
      h.on_order k,
      length-append (erase k c.negative_order) (k ∷ []),
      length-erase k c.negative_order,
      length-adjust k (λ _. ne) c.negative,
    );
  }

  same_push_negative :
      (k : String) (ne : NegativeEntry) (c : Cache V) → SameEntries c (push_negative k ne c)
  unfolding push_negative
  same_push_negative k ne c = SameEntries-of_parts refl

  remember_lem :
      (k : String) (ne : NegativeEntry) (o : Option NegativeEntry) (c : Cache V)
      → 0 < c.limits.negative_max
      → lookup k c.negative ≡ o
      → IsOrdered c
      → length c.negative ≤ c.limits.negative_max
      → IsOrdered (remember k ne o c)
        × SameEntries c (remember k ne o c)
        × (length (remember k ne o c).negative ≤ c.limits.negative_max)
  unfolding remember
  remember_lem k ne (some old) c p held h le = (
    moved_IsOrdered k ne old c h held,
    SameEntries-of_parts refl,
    omega (arith, length-adjust k (λ _. ne) c.negative),
  )
  remember_lem k ne none c p held h le =
      let d = make_room (length c.negative) c in
      let (h', same, room, absent) = make_room_lem (length c.negative) c p h (omega arith) in
      let (ordered, more) = push_negative-IsOrdered k ne d h' (absent k held) in
      (ordered, trans-SameEntries same (same_push_negative k ne d), omega (arith, more))

  -- Storing a failure keeps the map and the list in step and the bound, and leaves the entries
  -- alone.
  pub store_negative_lem :
      (now : ℕ) (k : String) (err : Err) (c : Cache V)
      → IsOrdered c
      → length c.negative ≤ c.limits.negative_max
      → IsOrdered (store_negative now k err c)
        × SameEntries c (store_negative now k err c)
        × (length (store_negative now k err c).negative ≤ c.limits.negative_max)
  unfolding store_negative
  store_negative_lem now k err c h le = elim (Bool-cases (ltb 0 c.limits.negative_max)) [
    | inl open_ ↦
        rw (open_, store_negative)
          (remember_lem k (record { err = err; expires = now + c.limits.negative_ttl })
            (lookup k c.negative) c (ground arith) refl h le)
    | inr shut ↦ rw (shut, store_negative) (h, refl-SameEntries c, le)
  ]
