-- ===== src/Residency/Promises/SingleFlight.antt =====
-- residency/: concurrent loads of one key are one load.
use gobeyond.Common.{
  ℕ, suc, ◌≡◌, ◌≢◌, ap, Option, none, some, List, String, arith, if_intro, eq_iff,
}
use gobeyond.Common.Maps.{lookup, lookup-insert}
use gobeyond.Residency.Errors.{Err}
use gobeyond.Residency.State.{Entry, Cache}
use gobeyond.Residency.Negative.{negative_lookup}
use gobeyond.Residency.Ops.{
  Outcome, start, Step, fly, get_missing, expire_entry, get_entry, get, run, is_idle,
  after_negative,
}
use gobeyond.Residency.Slru.{remove_entry}
use gobeyond.Residency.Promises.Flights.{IsFlying, flights-negative_lookup, AllSpare, run-IsFlying}

module _ {ℓ} {V : Type ℓ} (k : String) (f : ℕ) where
  -- No load starts beside a flight of the key.
  abbrev StartsNone : Cache V × Outcome V → Type ℓ
  StartsNone r = r.1 ≢ start f

  module _ (g : ℕ) where
    fly_none :
        (c : Cache V) → lookup k c.flights ≡ some g → StartsNone (fly k (lookup k c.flights) c)
    unfolding fly
    fly_none c h = ground arith

    after_negative_none :
        (o : Option Err) (c : Cache V)
        → lookup k c.flights ≡ some g
        → StartsNone (after_negative k o c)
    after_negative_none (some err) c h = λ e. cc
    after_negative_none none c h = fly_none (record c { misses = suc c.misses }) h

    get_missing_none :
        (now : ℕ) (c : Cache V) → lookup k c.flights ≡ some g → StartsNone (get_missing now k c)
    unfolding get_missing
    get_missing_none now c h =
        after_negative_none (negative_lookup now k c).1 (negative_lookup now k c).0
          (ground (arith, h, ap (λ t. t.0) (flights-negative_lookup now k c)))

    get_entry_none :
        (now : ℕ) (o : Option (Entry V)) (c : Cache V)
        → lookup k c.flights ≡ some g
        → StartsNone (get_entry now k o c)
    unfolding get_entry expire_entry remove_entry
    get_entry_none now none c h = get_missing_none now c h
    get_entry_none now (some e) c h =
        if_intro StartsNone (is_idle c.limits.idle now e.last_access)
          (λ _. get_missing_none now (expire_entry k e c) h) (λ _ p. cc)

    get_none :
        (ctx : Option Err) (now : ℕ) (c : Cache V)
        → lookup k c.flights ≡ some g
        → StartsNone (get ctx now k c)
    unfolding get
    get_none (some err) now c h = λ e. cc
    get_none none now c h =
        if_intro StartsNone c.closed (λ _ p. cc) (λ _. get_entry_none now (lookup k c.entries) c h)

  -- A load that starts is the flight of the key, and its number is not given out again.
  abbrev StartsFlying : Cache V × Outcome V → Type ℓ
  StartsFlying r = r.1 ≡ start f → IsFlying k f r.0

  fly_starts : (o : Option ℕ) (c : Cache V) → StartsFlying (fly k o c)
  unfolding fly
  fly_starts (some g) c = λ e. cc
  fly_starts none c = λ e. ground (arith, lookup-insert k k c.next_flight c.flights, eq_iff k k)

  get_missing_starts : (now : ℕ) (c : Cache V) → StartsFlying (get_missing now k c)
  unfolding get_missing
  get_missing_starts now c =
      after_negative_starts (negative_lookup now k c).1 (negative_lookup now k c).0
    where
      after_negative_starts : (o : Option Err) (c : Cache V) → StartsFlying (after_negative k o c)
      after_negative_starts (some err) c = λ e. cc
      after_negative_starts none c =
          fly_starts (lookup k c.flights) (record c { misses = suc c.misses })

  get_entry_starts :
      (now : ℕ) (o : Option (Entry V)) (c : Cache V) → StartsFlying (get_entry now k o c)
  unfolding get_entry
  get_entry_starts now none c = get_missing_starts now c
  get_entry_starts now (some e) c =
      if_intro StartsFlying (is_idle c.limits.idle now e.last_access)
        (λ _. get_missing_starts now (expire_entry k e c)) (λ _ p. cc)

  pub get_starts : (ctx : Option Err) (now : ℕ) (c : Cache V) → StartsFlying (get ctx now k c)
  unfolding get
  get_starts (some err) now c = λ e. cc
  get_starts none now c =
      if_intro StartsFlying c.closed (λ _ p. cc) (λ _. get_entry_starts now (lookup k c.entries) c)

-- After a `Get` that started a load of a key, whatever happens but the end of that load, no `Get`
-- of the key starts another.
pub get-run_single {ℓ} :
    {V : Type ℓ} (k : String) (f g now later : ℕ) (ctx ctx' : Option Err) (steps : List (Step V))
    (c : Cache V)
    → (get ctx now k c).1 ≡ start f
    → AllSpare k f steps
    → (get ctx' later k (run steps (get ctx now k c).0)).1 ≢ start g
get-run_single k f g now later ctx ctx' steps c started spare =
    get_none k g f ctx' later (run steps (get ctx now k c).0)
      (run-IsFlying k f steps (get ctx now k c).0 spare (get_starts k f ctx now c started)).0
