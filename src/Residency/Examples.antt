-- ===== src/Residency/Examples.antt =====
-- residency/: runs of the cache, and its promises at concrete inputs.
use gobeyond.Common.{
  ℕ, ◌≤◌, ◌<◌, ◌≡◌, ◌≢◌, ◌⊎◌, refl, true, none, List, [], ◌∷◌, ◌++◌, map, length, arith, erase,
  eq_iff, back, inr,
}
use gobeyond.Common.Int.{pos, negsuc}
use gobeyond.Common.Maps.{lookup, delete, insert, adjust}
use gobeyond.Residency.Errors.{Err, is_immutable, plain, immutable_error, wrapped, err_closed}
use gobeyond.Residency.State.{Options, Entry, Cache, new_limits, new}
use gobeyond.Residency.Semaphore.Fifo.{
  System, start_system, ask, here, next, asks, Reach-fair, weight,
}
use gobeyond.Residency.Slru.Touch.{IsSameContents}
use gobeyond.Residency.Ops.{
  Step, get_step, finish_step, sweep_step, value, error, hit, fail, start, run, get, finish_load,
  trim, close, apply, get_entry, get_missing,
}
use gobeyond.Residency.Slru.{insert_entry, touch, evict_one, evict_while}
use gobeyond.Residency.Negative.{negative_lookup, remove_negative}
use gobeyond.Residency.Bounds.Gets.{IsSound}
use gobeyond.Residency.Bounds.Steps.{run-IsSound, new-IsSound}
use gobeyond.Residency.Promises.Budgets.{trim_lem, new_limits-HasRoom}
use gobeyond.Residency.Promises.Reads.{get_hit, get-finish_load}
use gobeyond.Residency.Promises.Failures.{get-finish_load_failed, get-finish_load_transient}
use gobeyond.Residency.Promises.Closing.{run-close}
use gobeyond.Residency.Promises.SingleFlight.{get-run_single}

-- Two entries, 800 bytes, no idle expiry, failures remembered for 50.
abbrev small : Options
small = record {
  max_entries = pos 2;
  max_resident_bytes = pos 800;
  idle_expiry = negsuc 0;
  decode_semaphore_bytes = pos 0;
  negative_max_entries = pos 1;
  negative_ttl = pos 50;
}

abbrev steps : List (Step ℕ)
steps =
    get_step none 1 "a"
    ∷ finish_step 2 "a" 0 90 (value 7)
    ∷ get_step none 3 "a"
    ∷ get_step none 4 "b"
    ∷ finish_step 5 "b" 1 60 (value 8)
    ∷ finish_step 6 "c" 9 100 (value 9)
    ∷ []

abbrev busy : Cache ℕ
busy = run steps (new small)

-- The third entry evicts the second: the first has been hit and is protected.
busy_lem :
    (lookup "b" busy.entries ≡ none)
    × (busy.probation ≡ "c" ∷ [])
    × (busy.protected ≡ "a" ∷ [])
    × (busy.bytes ≡ 190)
    × (busy.evictions ≡ 1)
unfolding run apply get get_entry get_missing negative_lookup finish_load insert_entry touch
    evict_one evict_while remove_negative new lookup delete insert adjust erase back
busy_lem = (refl, refl, refl, refl, refl)

busy-IsSound : IsSound (new_limits small) busy
busy-IsSound = run-IsSound (new_limits small) steps (new small) (new-IsSound small)

trim_lem_example :
    ((trim (pos 100) busy).bytes ≤ 100)
    × (length (trim (pos 0) busy).entries ≡ 0)
    × (length (trim (negsuc 100) busy).entries ≡ 0)
trim_lem_example = trim_lem (new_limits small) 100 busy busy-IsSound

abbrev entry_a : Entry ℕ
entry_a = record { value = 7; weight = 90; last_access = 3; protected = true }

get_hit_example : ((get none 8 "a" busy).1 ≡ hit 7) × IsSameContents busy (get none 8 "a" busy).0
unfolding busy_lem new_limits
get_hit_example = get_hit (new_limits small) 8 "a" entry_a busy busy-IsSound refl refl refl

get-finish_load_example : (get none 20 "d" (finish_load 10 "d" 4 100 (value 5) busy)).1 ≡ hit 5
unfolding busy_lem new_limits
get-finish_load_example =
    get-finish_load (new_limits small) 10 "d" 4 100 5 busy busy-IsSound refl (omega arith) 20
      (new_limits-HasRoom small (omega arith)) refl

-- A load of "d" is running; "b" is loaded beside it.
abbrev loading : Cache ℕ
loading = (get none 9 "d" busy).0

abbrev beside : List (Step ℕ)
beside = get_step none 10 "b" ∷ finish_step 11 "b" 3 60 (value 8) ∷ []

abbrev broken : Err
broken = wrapped "decode" (immutable_error (plain 3))

-- After the failure: a `Get` of the key, a sweep, a load of another key and one that fails.
abbrev afterwards : List (Step ℕ)
afterwards =
    get_step none 30 "d"
    ∷ sweep_step 40
    ∷ finish_step 41 "e" 4 50 (value 1)
    ∷ finish_step 42 "c" 5 0 (error (plain 2))
    ∷ []

get-finish_load_failed_example :
    (get none 61 "d"
      (run afterwards (finish_load 12 "d" 2 0 (error broken) (run beside loading)))).1
    ≡ fail broken
unfolding busy_lem new_limits is_immutable
get-finish_load_failed_example =
    get-finish_load_failed "d" 2 (new_limits small) 9 busy busy-IsSound refl beside
      (tt, ((λ same. cc ((eq_iff "b" "d").1 same)), tt)) 12 61 0 broken afterwards (omega arith)
      refl
      (
        omega arith,
        (
          omega arith,
          (
            (λ same. cc ((eq_iff "e" "d").1 same)),
            (((λ same. cc ((eq_iff "c" "d").1 same)), refl), tt),
          ),
        ),
      )
      (omega arith)

get-finish_load_transient_example :
    ((get none 13 "d" (finish_load 12 "d" 2 0 (error (plain 3)) (run beside loading))).1
      ≡ start (run beside loading).next_flight)
    × (2 < (run beside loading).next_flight)
unfolding busy_lem is_immutable
get-finish_load_transient_example =
    get-finish_load_transient "d" 2 (new_limits small) 9 busy busy-IsSound refl beside
      (tt, ((λ same. cc ((eq_iff "b" "d").1 same)), tt)) 12 13 0 (plain 3) refl

run-close_example :
    (length (run steps (close busy)).entries ≡ 0)
    × (length (run steps (close busy)).negative ≡ 0)
    × ((get none 9 "a" (run steps (close busy))).1 ≡ fail err_closed)
run-close_example = run-close (new_limits small) steps 9 "a" busy busy-IsSound

get-run_single_example : (get none 12 "d" (run steps loading)).1 ≢ start 5
unfolding busy_lem
get-run_single_example =
    get-run_single "d" 2 5 9 12 none none steps busy refl
      (tt, (inr (omega arith), (tt, (tt, (inr (omega arith), (inr (omega arith), tt))))))

abbrev size_ten : System
size_ten = start_system 10

abbrev contended : System
contended = ask 3 2 (ask 2 9 (ask 1 8 size_ten))

Reach-fair_example :
    (weight contended.holders ≤ contended.sem.size)
    × (contended.sem.cur ≡ weight contended.holders)
    × (contended.asked ≡ contended.admitted ++ map (λ w. w.routine) contended.sem.waiters)
    × ((contended.sem.waiters ≡ []) ⊎ (contended.holders ≢ []))
Reach-fair_example = Reach-fair 10 contended (omega arith) (
    next (next (next here (asks size_ten 1 8)) (asks (ask 1 8 size_ten) 2 9))
      (asks (ask 2 9 (ask 1 8 size_ten)) 3 2))
