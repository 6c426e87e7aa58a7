-- ===== src/Residency/State.antt =====
-- residency/residency.go: the options, the fields of `Cache` and `New`. The key map, the two
-- segment lists and the negative list are kept apart, as in the source: a list element is the key
-- of its entry. Times are nanoseconds on a clock that is an argument of each operation.
use gobeyond.Common.{
  ℕ, ◌*◌, ◌/◌, String, Bool, true, false, Option, none, some, List, [], ltb, ◌==◌, if◌then◌else◌,
}
use gobeyond.Common.Int.{ℤ, pos, negsuc}
use gobeyond.Common.Maps.{Map}
use gobeyond.Residency.Errors.{Err}
use gobeyond.Residency.Semaphore.{Semaphore, new_weighted_semaphore}

abbrev pub default_max_entries : ℕ
default_max_entries = 64

abbrev pub default_max_resident_bytes : ℕ
default_max_resident_bytes = 33554432

abbrev pub default_idle_expiry : ℕ
default_idle_expiry = 600 * 1000000000

abbrev pub default_decode_semaphore_bytes : ℕ
default_decode_semaphore_bytes = 33554432

abbrev pub default_negative_max_entries : ℕ
default_negative_max_entries = 256

abbrev pub default_negative_ttl : ℕ
default_negative_ttl = 300 * 1000000000

pub record Options : Type 0 where
  pub max_entries : ℤ
  pub max_resident_bytes : ℤ
  pub idle_expiry : ℤ
  pub decode_semaphore_bytes : ℤ
  pub negative_max_entries : ℤ
  pub negative_ttl : ℤ

-- The fields that `New` fixes and that nothing writes afterwards. `idle` is 0 when idle expiry is
-- off.
pub record Limits : Type 0 where
  pub max_entries : ℕ
  pub max_bytes : ℕ
  pub oversize_bytes : ℕ
  pub protected_max_entries : ℕ
  pub protected_max_bytes : ℕ
  pub idle : ℕ
  pub negative_max : ℕ
  pub negative_ttl : ℕ

pub record Entry {ℓ} (V : Type ℓ) : Type ℓ where
  pub value : V
  pub weight : ℕ
  pub last_access : ℕ
  pub protected : Bool

pub record NegativeEntry : Type 0 where
  pub err : Err
  pub expires : ℕ

-- `flights` maps a key to the number of the load that runs for it; `next_flight` is the number of
-- the next one, which stands for the address of a new `flight`.
pub record Cache {ℓ} (V : Type ℓ) : Type ℓ where
  pub limits : Limits
  pub closed : Bool
  pub entries : Map (Entry V)
  pub probation : List String
  pub protected : List String
  pub bytes : ℕ
  pub protected_bytes : ℕ
  pub flights : Map ℕ
  pub next_flight : ℕ
  pub negative : Map NegativeEntry
  pub negative_order : List String
  pub hits : ℕ
  pub misses : ℕ
  pub evictions : ℕ
  pub idle_expirations : ℕ
  pub oversized_loads : ℕ
  pub negative_hits : ℕ

-- `if n <= 0 { n = def }`
abbrev positive_or : ℕ → ℤ → ℕ
positive_or def (pos n) = if n == 0 then def else n
positive_or def (negsuc n) = def

-- `if n == 0 { n = def } else if n < 0 { n = 0 }`
abbrev zero_or : ℕ → ℤ → ℕ
zero_or def (pos n) = if n == 0 then def else n
zero_or def (negsuc n) = 0

abbrev is_negative : ℤ → Bool
is_negative (pos n) = false
is_negative (negsuc n) = true

-- `int(float64(n) * 0.8)`, for an `n` that a float64 holds exactly.
abbrev protected_share : ℕ → ℕ
protected_share n = n * 4 / 5

unfoldable pub new_limits : Options → Limits
new_limits opts =
    let max_entries = positive_or default_max_entries opts.max_entries in
    let max_bytes = positive_or default_max_resident_bytes opts.max_resident_bytes in
    let share = protected_share max_entries in
    record {
      max_entries = max_entries;
      max_bytes = max_bytes;
      oversize_bytes = max_bytes / 8;
      protected_max_entries = if ltb share 1 then 1 else share;
      protected_max_bytes = protected_share max_bytes;
      idle = zero_or default_idle_expiry opts.idle_expiry;
      negative_max =
          if is_negative opts.negative_ttl
          then 0
          else zero_or default_negative_max_entries opts.negative_max_entries;
      negative_ttl = zero_or default_negative_ttl opts.negative_ttl;
    }

-- The semaphore of `New`: none when its size is negative.
unfoldable pub new_semaphore : Options → Option Semaphore
new_semaphore opts =
    let size = zero_or default_decode_semaphore_bytes opts.decode_semaphore_bytes in
    if ltb 0 size then some (new_weighted_semaphore size) else none

unfoldable pub new {ℓ} : {V : Type ℓ} → Options → Cache V
unfolding new_limits
new opts = record {
  limits = new_limits opts;
  closed = false;
  entries = [];
  probation = [];
  protected = [];
  bytes = 0;
  protected_bytes = 0;
  flights = [];
  next_flight = 0;
  negative = [];
  negative_order = [];
  hits = 0;
  misses = 0;
  evictions = 0;
  idle_expirations = 0;
  oversized_loads = 0;
  negative_hits = 0;
}
