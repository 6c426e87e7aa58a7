-- ===== src/Residency/Promises/Flights.antt =====
-- residency/: concurrent loads of one key.
use gobeyond.Common.{
  ℕ, suc, length, ◌≡◌, ◌≢◌, ◌⊎◌, refl, ap, ◌<◌, ◌∙◌, Option, none, some, List, [], ◌∷◌, String,
  arith, ltb, if_intro, eq_iff, Bool, not, ◌&&◌, ◌-◌, ◌||◌, ◌==◌,
}
use gobeyond.Common.Int.{pos, negsuc}
use gobeyond.Common.Maps.{Map, lookup, lookup-insert, lookup-delete}
use gobeyond.Residency.Errors.{Err, is_immutable}
use gobeyond.Residency.State.{Entry, NegativeEntry, Cache}
use gobeyond.Residency.Slru.{remove_entry, evict_while}
use gobeyond.Residency.Negative.{
  remove_negative, negative_lookup, store_negative, make_room, push_negative,
}
use gobeyond.Residency.Negative.Room.{make_room_inv}
use gobeyond.Residency.Ops.{
  Outcome, Loaded, value, error, Step, get_step, finish_step, trim_step, close_step, sweep_step,
  fly, get_missing, expire_entry, hit_entry, get_entry, get, land, keep_loaded, finish_load, above,
  trim, close, sweep_entries, sweep_negative, sweep_idle, apply, run, is_idle, stamp,
  after_negative,
}
use gobeyond.Residency.Bounds.Frames.{
  SameNegative, evict_while-SameNegative, touch-SameNegative, insert_entry-SameNegative,
}
use gobeyond.Residency.Bounds.Halves.{stamped}

module _ {ℓ} {V : Type ℓ} where
  -- The running loads, and the number of the next one.
  abbrev pub flights : Cache V → Map ℕ × ℕ
  flights c = (c.flights, c.next_flight)

  flights-remove_negative : (k : String) (c : Cache V) → flights (remove_negative k c) ≡ flights c
  unfolding remove_negative
  flights-remove_negative k c = ground arith

  flights-make_room : (fuel : ℕ) (c : Cache V) → flights (make_room fuel c) ≡ flights c
  flights-make_room fuel c =
      make_room_inv (λ d. flights d ≡ flights c) (λ k d h. flights-remove_negative k d ∙ h) fuel c
        refl

  flights-store_negative :
      (now : ℕ) (k : String) (err : Err) (c : Cache V)
      → flights (store_negative now k err c) ≡ flights c
  unfolding store_negative push_negative
  flights-store_negative now k err c = ground (arith, flights-make_room (length c.negative) c)

  pub flights-negative_lookup :
      (now : ℕ) (k : String) (c : Cache V) → flights (negative_lookup now k c).0 ≡ flights c
  unfolding negative_lookup
  flights-negative_lookup now k c = ground (arith, flights-remove_negative k c)

  flights-sweep_entries :
      (now : ℕ) (m : Map (Entry V)) (c : Cache V) → flights (sweep_entries now m c) ≡ flights c
  unfolding sweep_entries expire_entry remove_entry
  flights-sweep_entries now [] c = refl
  flights-sweep_entries now ((k, e) ∷ rest) c =
      flights-sweep_entries now rest _
      ∙ if_intro (λ (d : Cache V). flights d ≡ flights c) (ltb c.limits.idle (now - e.last_access))
          (λ _. refl) (λ _. refl)

  flights-sweep_negative :
      (now : ℕ) (m : Map NegativeEntry) (c : Cache V) → flights (sweep_negative now m c) ≡ flights c
  unfolding sweep_negative
  flights-sweep_negative now [] c = refl
  flights-sweep_negative now ((k, ne) ∷ rest) c =
      flights-sweep_negative now rest _
      ∙ if_intro (λ (d : Cache V). flights d ≡ flights c) (ltb now ne.expires) (λ _. refl)
          (λ _. flights-remove_negative k c)

  module _ (k : String) (f : ℕ) where
    -- The flight `f` loads the key `k`, and its number is not given out again.
    abbrev pub IsFlying : Cache V → Type 0
    IsFlying c = (lookup k c.flights ≡ some f) × (f < c.next_flight)

    IsFlying-of_flights : (d c : Cache V) → flights d ≡ flights c → IsFlying c → IsFlying d
    IsFlying-of_flights d c p (held, given) = ground (arith, ap (λ t. t.0) p, ap (λ t. t.1) p)

    IsFlying-of_same : {c d : Cache V} → SameNegative c d → IsFlying c → IsFlying d
    IsFlying-of_same same (held, given) = ground (arith, same.flights, same.next_flight)

    fly-IsFlying :
        (j : String) (o : Option ℕ) (c : Cache V)
        → lookup j c.flights ≡ o
        → IsFlying c
        → IsFlying (fly j o c).0
    unfolding fly
    fly-IsFlying j (some g) c found h = h
    fly-IsFlying j none c found h =
        ground (arith, lookup-insert j k c.next_flight c.flights, eq_iff j k)

    after_negative-IsFlying :
        (j : String) (o : Option Err) (c : Cache V) → IsFlying c → IsFlying (after_negative j o c).0
    after_negative-IsFlying j (some err) c h = h
    after_negative-IsFlying j none c h =
        fly-IsFlying j (lookup j c.flights) (record c { misses = suc c.misses }) refl h

    get_missing-IsFlying :
        (now : ℕ) (j : String) (c : Cache V) → IsFlying c → IsFlying (get_missing now j c).0
    unfolding get_missing
    get_missing-IsFlying now j c h =
        after_negative-IsFlying j (negative_lookup now j c).1 (negative_lookup now j c).0
          (IsFlying-of_flights (negative_lookup now j c).0 c (flights-negative_lookup now j c) h)

    get_entry-IsFlying :
        (now : ℕ) (j : String) (o : Option (Entry V)) (c : Cache V)
        → IsFlying c
        → IsFlying (get_entry now j o c).0
    unfolding get_entry expire_entry remove_entry hit_entry
    get_entry-IsFlying now j none c h = get_missing-IsFlying now j c h
    get_entry-IsFlying now j (some e) c h =
        if_intro (λ (r : Cache V × Outcome V). IsFlying r.0)
          (is_idle c.limits.idle now e.last_access) (λ _. get_missing-IsFlying now j _ h)
          (λ _. IsFlying-of_same (touch-SameNegative j (stamp now e) (stamped now j c)) h)

    get-IsFlying :
        (ctx : Option Err) (now : ℕ) (j : String) (c : Cache V)
        → IsFlying c
        → IsFlying (get ctx now j c).0
    unfolding get
    get-IsFlying (some err) now j c h = h
    get-IsFlying none now j c h =
        if_intro (λ (r : Cache V × Outcome V). IsFlying r.0) c.closed (λ _. h)
          (λ _. get_entry-IsFlying now j (lookup j c.entries) c h)

    -- The end of another load.
    land-IsFlying :
        (j : String) (g : ℕ) (c : Cache V) → (j ≢ k) ⊎ (g ≢ f) → IsFlying c → IsFlying (land j g c)
    unfolding land
    land-IsFlying j g c other h = ground (arith, lookup-delete j k c.flights, eq_iff j k)

    keep_loaded-IsFlying :
        (now : ℕ) (j : String) (weight : ℕ) (r : Loaded V) (c : Cache V)
        → IsFlying c
        → IsFlying (keep_loaded now j weight r c)
    unfolding keep_loaded
    keep_loaded-IsFlying now j weight (error err) c h =
        if_intro IsFlying (not c.closed && is_immutable err) {x = store_negative now j err c}
          (λ _.
            IsFlying-of_flights (store_negative now j err c) c (flights-store_negative now j err c)
              h)
          (λ _. h)
    keep_loaded-IsFlying now j weight (value v) c h =
        if_intro IsFlying c.closed (λ _. h)
          (λ _.
            if_intro IsFlying (ltb c.limits.oversize_bytes weight) (λ _. h)
              (λ _.
                IsFlying-of_same (insert_entry-SameNegative now j v weight (remove_negative j c))
                  (IsFlying-of_flights (remove_negative j c) c (flights-remove_negative j c) h)))

    trim-IsFlying :
        (test : Cache V → Bool) (fuel : ℕ) (c : Cache V)
        → IsFlying c
        → IsFlying (evict_while test fuel c)
    trim-IsFlying test fuel c h = IsFlying-of_same (evict_while-SameNegative test fuel c) h

    -- The step is not the end of the flight.
    abbrev pub Spares : Step V → Type 0
    Spares (finish_step now j g weight r) = (j ≢ k) ⊎ (g ≢ f)
    Spares _ = Unit

    apply-IsFlying : (st : Step V) (c : Cache V) → Spares st → IsFlying c → IsFlying (apply st c)
    unfolding apply finish_load trim close sweep_idle
    apply-IsFlying (get_step ctx now j) c sp h = get-IsFlying ctx now j c h
    apply-IsFlying (finish_step now j g weight r) c sp h =
        keep_loaded-IsFlying now j weight r (land j g c) (land-IsFlying j g c sp h)
    apply-IsFlying (trim_step (pos t)) c sp h = trim-IsFlying (above t) (length c.entries) c h
    apply-IsFlying (trim_step (negsuc t)) c sp h = trim-IsFlying (above 0) (length c.entries) c h
    apply-IsFlying close_step c sp h = if_intro IsFlying c.closed (λ _. h) (λ _. h)
    apply-IsFlying (sweep_step now) c sp h =
        let c' = sweep_entries now c.entries c in
        if_intro IsFlying (c.closed || c.limits.idle == 0) {y = sweep_negative now c'.negative c'}
          (λ _. h)
          (λ _.
            IsFlying-of_flights (sweep_negative now c'.negative c') c'
              (flights-sweep_negative now c'.negative c')
              (IsFlying-of_flights c' c (flights-sweep_entries now c.entries c) h))

    abbrev pub AllSpare : List (Step V) → Type 0
    AllSpare [] = Unit
    AllSpare (st ∷ steps) = Spares st × AllSpare steps

    pub run-IsFlying :
        (steps : List (Step V)) (c : Cache V) → AllSpare steps → IsFlying c → IsFlying (run steps c)
    unfolding run
    run-IsFlying [] c sp h = h
    run-IsFlying (st ∷ steps) c (sp, rest) h =
        run-IsFlying steps (apply st c) rest (apply-IsFlying st c sp h)
