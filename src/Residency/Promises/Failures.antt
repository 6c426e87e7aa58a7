-- ===== src/Residency/Promises/Failures.antt =====
-- residency/: which failures a `Get` remembers, and for how long.
use gobeyond.Common.{
  ℕ, ◌<◌, ◌+◌, ◌≡◌, refl, ap, ◌∙◌, true, false, Option, none, some, List, length, arith, String,
  eq_iff,
}
use gobeyond.Common.Maps.{lookup, lookup-adjust, lookup-insert, lookup-delete}
use gobeyond.Residency.Errors.{Err, is_immutable}
use gobeyond.Residency.State.{Limits, Cache, NegativeEntry}
use gobeyond.Residency.Negative.{negative_lookup, store_negative, remember, make_room}
use gobeyond.Residency.Negative.Remember.{store_negative_lem}
use gobeyond.Residency.Ops.{
  fail, start, error, Step, get, get_entry, get_missing, finish_load, land, keep_loaded, fly, run,
}
use gobeyond.Residency.Bounds.Gets.{IsSound, get-IsSound}
use gobeyond.Residency.Bounds.Loads.{land_lem, finish_load-IsSound}
use gobeyond.Residency.Bounds.Steps.{run-IsSound}
use gobeyond.Residency.Promises.Absent.{IsAbsent}
use gobeyond.Residency.Promises.Leaving.{AllLeave, land-IsAbsent, run-IsAbsent}
use gobeyond.Residency.Promises.Flights.{run-IsFlying}
use gobeyond.Residency.Promises.Started.{AllLeave-AllSpare, get_absent}
use gobeyond.Residency.Promises.SingleFlight.{get_starts}
use gobeyond.Residency.Promises.Reads.{landed_closed}

module _ {ℓ} {V : Type ℓ} where
  lookup-remember :
      (k : String) (ne : NegativeEntry) (o : Option NegativeEntry) (c : Cache V)
      → lookup k c.negative ≡ o
      → lookup k (remember k ne o c).negative ≡ some ne
  unfolding remember
  lookup-remember k ne (some old) c held =
      ground (arith, lookup-adjust k k (λ _. ne) c.negative, eq_iff k k)
  lookup-remember k ne none c held =
      ground (arith, lookup-insert k k ne (make_room (length c.negative) c).negative, eq_iff k k)

  lookup-store_negative :
      (now : ℕ) (k : String) (err : Err) (c : Cache V)
      → 0 < c.limits.negative_max
      → lookup k (store_negative now k err c).negative
        ≡ some (record { err = err; expires = now + c.limits.negative_ttl })
  unfolding store_negative
  lookup-store_negative now k err c p =
      let ne : NegativeEntry = record { err = err; expires = now + c.limits.negative_ttl } in
      ground (arith, lookup-remember k ne (lookup k c.negative) c refl)

  -- A remembered failure that has not expired is what `get` returns for a key that is not resident.
  get_remembered :
      (now : ℕ) (k : String) (ne : NegativeEntry) (c : Cache V)
      → c.closed ≡ false
      → lookup k c.entries ≡ none
      → lookup k c.negative ≡ some ne
      → now < ne.expires
      → (get none now k c).1 ≡ fail ne.err
  unfolding get get_entry get_missing negative_lookup
  get_remembered now k ne c is_open absent held live = simp (is_open, absent, held) (ground arith)

  landed_entries : (k : String) (f : ℕ) (c : Cache V) → (land k f c).entries ≡ c.entries
  unfolding land
  landed_entries k f c = ground arith

  failed_is_stored :
      (now : ℕ) (k : String) (f weight : ℕ) (err : Err) (c : Cache V)
      → c.closed ≡ false
      → is_immutable err ≡ true
      → finish_load now k f weight (error err) c ≡ store_negative now k err (land k f c)
  unfolding finish_load keep_loaded
  failed_is_stored now k f weight err c is_open immutable = ground (arith, landed_closed k f c)

  module _ (k : String) (f : ℕ) where
    store_negative-IsAbsent :
        (now : ℕ) (err : Err) (l : Limits) (c : Cache V)
        → IsSound l c
        → 0 < l.negative_max
        → IsAbsent k none c
        → IsAbsent k
            (some (record { err = err; expires = now + l.negative_ttl }))
            (store_negative now k err c)
    store_negative-IsAbsent now err l c s p (is_open, out, _) =
        let (_, same, _) = store_negative_lem now k err c s.1.ordered s.1.remembered in
        let until = λ (m : Limits). some (record { err = err; expires = now + m.negative_ttl }) in
        (
          rw same.closed is_open,
          rw same.entries out,
          lookup-store_negative now k err c (rw s.1.limits p) ∙ ap until s.1.limits,
        )

    retry :
        (later n : ℕ) (c : Cache V)
        → IsAbsent k none c
        → lookup k c.flights ≡ none
        → c.next_flight ≡ n
        → (get none later k c).1 ≡ start n
    unfolding get get_entry get_missing negative_lookup fly
    retry later n c (is_open, out, unknown) free next = simp (is_open, out) (ground arith)

    landed_free : (c : Cache V) → lookup k c.flights ≡ some f → lookup k (land k f c).flights ≡ none
    unfolding land
    landed_free c flying = ground (arith, lookup-delete k k c.flights, eq_iff k k)

    transient_is_landed :
        (now weight : ℕ) (err : Err) (c : Cache V)
        → is_immutable err ≡ false
        → finish_load now k f weight (error err) c ≡ land k f c
    unfolding finish_load keep_loaded
    transient_is_landed now weight err c transient = rw transient (ground arith)

    next_flight-land : (c : Cache V) → (land k f c).next_flight ≡ c.next_flight
    unfolding land
    next_flight-land c = ground arith

    module _ (l : Limits) (asked : ℕ) (c : Cache V) (sound : IsSound l c)
        (started : (get none asked k c).1 ≡ start f) (before : List (Step V))
        (quiet : AllLeave k none before) where
      -- The cache when the load ends.
      abbrev ending : Cache V
      ending = run before (get none asked k c).0

      ending-IsSound : IsSound l ending
      ending-IsSound =
          run-IsSound l before (get none asked k c).0 (get-IsSound l none asked k c sound)

      ending-IsAbsent : IsAbsent k none ending
      ending-IsAbsent =
          run-IsAbsent k none l before (get none asked k c).0 quiet
            (get-IsSound l none asked k c sound) (get_absent k f asked c started)

      -- A load that a `Get` of a sound cache started, and that fails for good, is not run again:
      -- until the failure expires, a `Get` of the key returns the error. This is so where failures
      -- are remembered at all, whatever happens before the load ends but a Close or the end of a
      -- load of the key, and whatever happens after it before the failure expires but these two or
      -- another failure to remember, for which this one could have to make room.
      pub get-finish_load_failed :
          (now later weight : ℕ) (err : Err) (after : List (Step V))
          → 0 < l.negative_max
          → is_immutable err ≡ true
          → AllLeave k (some (record { err = err; expires = now + l.negative_ttl })) after
          → later < now + l.negative_ttl
          → (get none later k (run after (finish_load now k f weight (error err) ending))).1
            ≡ fail err
      get-finish_load_failed now later weight err after p immutable leaves live =
          let ne : NegativeEntry = record { err = err; expires = now + l.negative_ttl } in
          let a = land k f ending in
          let s = land_lem l k f ending ending-IsSound in
          let stored : IsAbsent k (some ne) (store_negative now k err a) =
            store_negative-IsAbsent now err l a s p
              (land-IsAbsent k none k f ending ending-IsAbsent) in
          let failed : IsAbsent k (some ne) (finish_load now k f weight (error err) ending) =
            rw (failed_is_stored now k f weight err ending ending-IsAbsent.0 immutable) stored in
          let (is_open, out, held) =
            run-IsAbsent k (some ne) l after (finish_load now k f weight (error err) ending) leaves
              (finish_load-IsSound l now k f weight (error err) ending ending-IsSound) failed in
          get_remembered later k ne (run after (finish_load now k f weight (error err) ending))
            is_open out held live

      -- A load that a `Get` of a sound cache started, and that fails for a while only, is run
      -- again: a `Get` of the key right after its end starts a new load, with the next number, which
      -- is a later one. This is so whatever happens before the load ends but a Close or the end of a
      -- load of the key.
      pub get-finish_load_transient :
          (now later weight : ℕ) (err : Err)
          → is_immutable err ≡ false
          → ((get none later k (finish_load now k f weight (error err) ending)).1
              ≡ start ending.next_flight)
            × (f < ending.next_flight)
      get-finish_load_transient now later weight err transient =
          let flying =
            run-IsFlying k f before (get none asked k c).0 (AllLeave-AllSpare k f before quiet)
              (get_starts k f none asked c started) in
          let again =
            retry later ending.next_flight (land k f ending)
              (land-IsAbsent k none k f ending ending-IsAbsent) (landed_free ending flying.0)
              (next_flight-land ending) in
          (rw (transient_is_landed now weight err ending transient) again, flying.1)
