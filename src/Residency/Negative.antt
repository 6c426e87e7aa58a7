-- ===== src/Residency/Negative.antt =====
-- residency/negative.go: the bounded memory of loads that failed for good. In `negative_order` the
-- oldest key stands in front.
pub mod Order
pub mod Room
pub mod Remember
use gobeyond.Common.{
  ℕ, zero, suc, ◌+◌, String, true, false, Option, none, some, [], ◌∷◌, ◌++◌, ltb, leb,
  if◌then◌else◌, length, erase,
}
use gobeyond.Common.Maps.{lookup, insert, delete, adjust}
use gobeyond.Residency.Errors.{Err}
use gobeyond.Residency.State.{NegativeEntry, Cache}

module _ {ℓ} {V : Type ℓ} where
  abbrev forget : String → Option NegativeEntry → Cache V → Cache V
  forget k none c = c
  forget k (some ne) c = record c {
    negative_order = erase k c.negative_order;
    negative = delete k c.negative;
  }

  -- removeNegativeLocked
  unfoldable pub remove_negative : String → Cache V → Cache V
  remove_negative k c = forget k (lookup k c.negative) c

  abbrev recall : ℕ → String → Option NegativeEntry → Cache V → Cache V × Option Err
  recall now k none c = (c, none)
  recall now k (some ne) c =
      if ltb now ne.expires then (c, some ne.err) else (remove_negative k c, none)

  -- negativeLookupLocked, at the time `now`
  unfoldable pub negative_lookup : ℕ → String → Cache V → Cache V × Option Err
  negative_lookup now k c = recall now k (lookup k c.negative) c

  -- The loop that makes room; each round forgets a failure, so their number is fuel enough.
  unfoldable pub make_room : ℕ → Cache V → Cache V
  make_room zero c = c
  make_room (suc fuel) c = elim (leb c.limits.negative_max (length c.negative)) [
    | false ↦ c
    | true ↦ elim c.negative_order [
      | [] ↦ c
      | oldest ∷ rest ↦ make_room fuel (remove_negative oldest c)
    ]
  ]

  unfoldable pub push_negative : String → NegativeEntry → Cache V → Cache V
  push_negative k ne c = record c {
    negative_order = c.negative_order ++ k ∷ [];
    negative = insert k ne c.negative;
  }

  unfoldable pub remember : String → NegativeEntry → Option NegativeEntry → Cache V → Cache V
  unfolding push_negative make_room
  remember k ne (some existing) c = record c {
    negative = adjust k (λ _. ne) c.negative;
    negative_order = erase k c.negative_order ++ k ∷ [];
  }
  remember k ne none c = push_negative k ne (make_room (length c.negative) c)

  -- storeNegativeLocked, at the time `now`
  unfoldable pub store_negative : ℕ → String → Err → Cache V → Cache V
  unfolding remember
  store_negative now k err c =
      if ltb 0 c.limits.negative_max
      then (let ne : NegativeEntry = record { err = err; expires = now + c.limits.negative_ttl } in
          remember k ne (lookup k c.negative) c)
      else c
