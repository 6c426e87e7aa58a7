-- ===== src/Residency/Promises/Started.antt =====
-- residency/: a load that `Get` starts is of a key that is not resident and not remembered.
use gobeyond.Common.{
  ℕ, suc, ◌≡◌, refl, false, Option, none, some, List, [], ◌∷◌, arith, String, eq_iff, if_intro, inl,
}
use gobeyond.Common.Maps.{lookup, lookup-delete}
use gobeyond.Residency.Errors.{Err}
use gobeyond.Residency.State.{Entry, Cache}
use gobeyond.Residency.Slru.{remove_entry}
use gobeyond.Residency.Negative.{negative_lookup, remove_negative}
use gobeyond.Residency.Ops.{
  Outcome, start, value, error, Step, get_step, finish_step, trim_step, close_step, sweep_step, get,
  get_entry, get_missing, fly, after_negative, expire_entry, is_idle,
}
use gobeyond.Residency.Promises.Absent.{IsAbsent}
use gobeyond.Residency.Promises.Leaving.{AllLeave}
use gobeyond.Residency.Promises.Flights.{AllSpare}

module _ {ℓ} {V : Type ℓ} where
  pub AllLeave-AllSpare :
      (k : String) (f : ℕ) (steps : List (Step V)) → AllLeave k none steps → AllSpare k f steps
  AllLeave-AllSpare k f [] p = tt
  AllLeave-AllSpare k f (get_step ctx now j ∷ steps) (p, rest) =
      (tt, AllLeave-AllSpare k f steps rest)
  AllLeave-AllSpare k f (finish_step now j g weight (value v) ∷ steps) (p, rest) =
      (inl p, AllLeave-AllSpare k f steps rest)
  AllLeave-AllSpare k f (finish_step now j g weight (error e) ∷ steps) ((p, _), rest) =
      (inl p, AllLeave-AllSpare k f steps rest)
  AllLeave-AllSpare k f (trim_step target ∷ steps) (p, rest) =
      (tt, AllLeave-AllSpare k f steps rest)
  AllLeave-AllSpare k f (close_step ∷ steps) (p, rest) = absurd p
  AllLeave-AllSpare k f (sweep_step now ∷ steps) (p, rest) = (tt, AllLeave-AllSpare k f steps rest)

  module _ (k : String) (f : ℕ) where
    -- A load starts only of a key that has no entry and of which nothing is remembered.
    abbrev pub StartsAbsent : Cache V × Outcome V → Type ℓ
    StartsAbsent r = r.1 ≡ start f → IsAbsent k none r.0

    fly_absent : (g : Option ℕ) (c : Cache V) → IsAbsent k none c → StartsAbsent (fly k g c)
    unfolding fly
    fly_absent none c h e = h
    fly_absent (some g) c h e = h

    after_negative_absent :
        (x : Option Err) (c : Cache V)
        → (x ≡ none → IsAbsent k none c)
        → StartsAbsent (after_negative k x c)
    after_negative_absent (some err) c h = λ e. cc
    after_negative_absent none c h =
        fly_absent (lookup k c.flights) (record c { misses = suc c.misses }) (h refl)

    negative_lookup-IsAbsent :
        (now : ℕ) (c : Cache V)
        → c.closed ≡ false
        → lookup k c.entries ≡ none
        → (negative_lookup now k c).1 ≡ none
        → IsAbsent k none (negative_lookup now k c).0
    unfolding negative_lookup remove_negative
    negative_lookup-IsAbsent now c is_open out e =
        ground (arith, lookup-delete k k c.negative, eq_iff k k)

    get_missing_absent :
        (now : ℕ) (c : Cache V)
        → c.closed ≡ false
        → lookup k c.entries ≡ none
        → StartsAbsent (get_missing now k c)
    unfolding get_missing
    get_missing_absent now c is_open out =
        after_negative_absent (negative_lookup now k c).1 (negative_lookup now k c).0
          (negative_lookup-IsAbsent now c is_open out)

    get_entry_absent :
        (now : ℕ) (o : Option (Entry V)) (c : Cache V)
        → lookup k c.entries ≡ o
        → c.closed ≡ false
        → StartsAbsent (get_entry now k o c)
    unfolding get_entry expire_entry remove_entry
    get_entry_absent now none c held is_open = get_missing_absent now c is_open held
    get_entry_absent now (some e) c held is_open =
        if_intro StartsAbsent (is_idle c.limits.idle now e.last_access)
          (λ _.
            get_missing_absent now (expire_entry k e c) is_open
              (ground (arith, lookup-delete k k c.entries, eq_iff k k)))
          (λ _ p. cc)

    pub get_absent : (now : ℕ) (c : Cache V) → StartsAbsent (get none now k c)
    unfolding get
    get_absent now c =
        if_intro StartsAbsent c.closed (λ _ p. cc)
          (λ is_open. get_entry_absent now (lookup k c.entries) c refl is_open)
