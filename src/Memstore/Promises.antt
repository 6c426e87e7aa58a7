-- ===== src/Memstore/Promises.antt =====
-- cache/memstore/memstore.go: what the store promises to its callers.
use gobeyond.Common.{
  ℕ, ◌+◌, ◌≤◌, ◌<◌, String, ◌≡◌, ◌≢◌, ◌↔◌, inl, inr, refl, ap, true, false, none, some, List, ltb,
  length, if◌then◌else◌, arith, eq_iff, Bool-cases,
}
use Prim.Native.String.{len}
use gobeyond.Common.Int.{ℤ, pos, negsuc, pos_part}
use gobeyond.Common.Maps.{lookup, IsUnique, lookup-insert, total}
use gobeyond.Memstore.State.{Options, Record, Entry, Limits, Store, new, version}
use gobeyond.Memstore.Ops.{
  get, set, stored, stale_write, bump_tag, observe_versions, acquire_lease, set_valid, Step, run,
  clamp_ttl,
}
use gobeyond.Memstore.Consistency.{IsConsistent, size_of}
use gobeyond.Memstore.Versions.{set_version_lem}
use gobeyond.Memstore.Observe.{IsBehind}
use gobeyond.Memstore.Recorded.{
  observe_versions_current, observe_versions-IsBehind, IsBehind-observe_versions,
}
use gobeyond.Memstore.Reads.{get_live, get_expired, get-cases}
use gobeyond.Memstore.Writes.{built_entry, set_valid_lem, set_valid_held}
use gobeyond.Memstore.Follows.{
  IsSound, IsLeased, Follows, bump_tag-Follows, set_fresh, set_behind, observe_versions-Follows,
}
use gobeyond.Memstore.Runs.{AreMapSteps, acquire_lease-Follows, run-Follows, new-IsSound, new_room}

pub run-new-Follows :
    (options : Options) (steps : List Step)
    → AreMapSteps steps
    → Follows (new options) (run steps (new options))
run-new-Follows options steps maps = run-Follows steps (new options) maps (new-IsSound options)

-- After any run from New whose records carry Go maps of tag versions, the recency list holds the
-- resident keys, once each, the tag index has a key under a tag, once, exactly when the record
-- under the key carries the tag, and no tag without a key, the versions that the records carry are
-- the tag counters, the limits are those of New, the entries and bytes are within them, and the
-- byte count is exact.
pub run-IsSound :
    (options : Options) (steps : List Step)
    → AreMapSteps steps
    → let s = run steps (new options) in
      IsConsistent s
      × (s.limits ≡ (new options).limits)
      × (length s.entries ≤ s.limits.max_entries)
      × (s.bytes ≤ s.limits.max_bytes)
      × (s.bytes ≡ total size_of s.entries)
run-IsSound options steps maps =
    let f = run-new-Follows options steps maps in
    let fits = f.sound.fits in
    (
      f.sound.consistent,
      f.limits,
      ground (arith, fits),
      ground (arith, fits),
      f.sound.consistent.shaped.bytes,
    )

-- What Get answers with.
get-eq-some :
    (now : ℕ) (key : String) (s : Store) (item : Record)
    → IsConsistent s
    → (get now key s).1 ≡ some item
    → (e : Entry) × (lookup key s.entries ≡ some e) × (e.item ≡ item) × (now < item.expires_at)
get-eq-some now key s item h hit = elim (get-cases now key s h) [
  | inl same ↦ cc (ap (λ p. p.1) same, hit)
  | inr (e, held, inl (_, same)) ↦ cc (ap (λ p. p.1) same, hit)
  | inr (e, held, inr (early, same)) ↦
      let is_it : e.item ≡ item = cc (ap (λ p. p.1) same, hit) in
      (e, held, is_it, rw (← is_it) early)
]

-- After any run from New whose records carry Go maps, a record that Get returns has not expired, and
-- the version that it records for a tag is the tag's counter.
pub get-current :
    (options : Options) (steps : List Step) (now : ℕ) (key : String) (item : Record) (tag : String)
    (u : ℕ)
    → AreMapSteps steps
    → (get now key (run steps (new options))).1 ≡ some item
    → lookup tag item.tag_versions ≡ some u
    → (now < item.expires_at) × (version tag (run steps (new options)) ≡ u)
get-current options steps now key item tag u maps hit built =
    let s = run steps (new options) in
    let h = (run-new-Follows options steps maps).sound.consistent in
    let (e, held, is_it, early) = get-eq-some now key s item h hit in
    (early, h.current key tag u (record { entry = e; held = held; built = rw is_it built }))

version-bump_tag :
    (tag : String) (s : Store)
    → IsConsistent s
    → tag ≢ ""
    → version tag (bump_tag tag s) ≡ version tag s + 1
unfolding bump_tag
version-bump_tag tag s h named =
    let (_, versions, _, _, _, _) = set_version_lem tag (version tag s + 1) s h (omega arith) in
    ground (arith, versions tag, eq_iff tag tag, eq_iff tag "")

-- After BumpTag of a named tag, whatever follows, a record that Get returns and that carries the
-- tag was built under a later version than the tag had before the bump.
pub get-bump_tag :
    (options : Options) (before after : List Step) (tag key : String) (now u : ℕ) (item : Record)
    → AreMapSteps before
    → AreMapSteps after
    → tag ≢ ""
    → let s = run before (new options) in
      (get now key (run after (bump_tag tag s))).1 ≡ some item
      → lookup tag item.tag_versions ≡ some u
      → version tag s < u
get-bump_tag options before after tag key now u item maps maps' named hit built =
    let s = run before (new options) in
    let first = (run-new-Follows options before maps).sound in
    let bumped = bump_tag-Follows tag s first in
    let last = run-Follows after (bump_tag tag s) maps' bumped.sound in
    let (e, held, is_it, _) =
      get-eq-some now key (run after (bump_tag tag s)) item last.sound.consistent hit in
    let current =
      last.sound.consistent.current key tag u
        (record { entry = e; held = held; built = rw is_it built }) in
    omega (arith, current, last.grows tag, version-bump_tag tag s first.consistent named)

-- What Set has placed is there until it expires.
get-set_valid :
    (now : ℕ) (key : String) (item : Record) (ttl : ℤ) (s : Store)
    → IsSound s
    → IsUnique item.tag_versions
    → ((tag : String) (u : ℕ) → lookup tag item.tag_versions ≡ some u → version tag s ≡ u)
    → 1 ≤ s.limits.max_entries
    → len key + length item.value ≤ s.limits.max_bytes
    → (later : ℕ)
    → let e = built_entry now key item ttl s in
      (get later key (set_valid now key item ttl s)).1
      ≡ (if ltb later e.item.expires_at then some e.item else none)
get-set_valid now key item ttl s h map valid room fits later =
    let e = built_entry now key item ttl s in
    let (consistent, _, _, _, _) = set_valid_lem now key item ttl s h.consistent map valid h.fits in
    let held = set_valid_held now key item ttl s h.consistent map valid room fits in
    let s' = set_valid now key item ttl s in
    elim (Bool-cases (ltb later e.item.expires_at)) [
      | inl early ↦
          rw early (ap (λ p. p.1) (get_live later key s' e held consistent (ground arith)))
      | inr late ↦ rw late (ap (λ p. p.1) (get_expired later key s' e held (ground arith)))
    ]

pub set-IsBehind :
    (now : ℕ) (key : String) (item : Record) (ttl : ℤ) (s : Store)
    → IsConsistent s
    → IsUnique item.tag_versions
    → ((set now key item ttl s).1 ≡ stale_write) ↔ IsBehind item.tag_versions s
set-IsBehind now key item ttl s h map = (
  λ stale. elim (Bool-cases (observe_versions item.tag_versions s).1) [
    | inl ok ↦ cc (ap (λ p. p.1) (set_fresh now key item ttl s ok), stale)
    | inr behind ↦ observe_versions-IsBehind item.tag_versions s map h behind
  ],
  λ behind.
      ap (λ p. p.1)
        (set_behind now key item ttl s
          (IsBehind-observe_versions item.tag_versions s map h behind)),
)

module _ (options : Options) (steps : List Step) (now : ℕ) (key : String) (item : Record) (ttl : ℤ)
    (maps : AreMapSteps steps) (map : IsUnique item.tag_versions) where
  -- The store as the run leaves it.
  abbrev reached : Store
  reached = run steps (new options)

  reached-IsSound : IsSound reached
  reached-IsSound = (run-new-Follows options steps maps).sound

  -- After any run from New, a record that Set stores and that fits the byte limit alone is
  -- returned by a Get of its key, with its expiry filled in, until the clamped ttl is over, and
  -- is not returned from then on.
  pub get-set :
      (later : ℕ)
      → (set now key item ttl reached).1 ≡ stored
      → len key + length item.value ≤ reached.limits.max_bytes
      → let expiry = now + clamp_ttl reached.limits.max_ttl ttl in
        (get later key (set now key item ttl reached).0).1
        ≡ (if ltb later expiry then some (record item { expires_at = expiry }) else none)
  get-set later done fits =
      let checked = (observe_versions item.tag_versions reached).0 in
      let up = observe_versions-Follows item.tag_versions reached reached-IsSound in
      let until : now + clamp_ttl checked.limits.max_ttl ttl
          ≡ now + clamp_ttl reached.limits.max_ttl ttl =
        ap (λ (l : Limits). now + clamp_ttl l.max_ttl ttl) up.limits in
      let room : 1 ≤ checked.limits.max_entries =
        rw (up.limits, (run-new-Follows options steps maps).limits) (new_room options) in
      elim (Bool-cases (observe_versions item.tag_versions reached).1) [
        | inl ok ↦
            rw (set_fresh now key item ttl reached ok, ← until)
              (get-set_valid now key item ttl checked up.sound map
                (observe_versions_current item.tag_versions reached map reached-IsSound.consistent
                  ok)
                room (rw up.limits fits) later)
        | inr behind ↦ cc (ap (λ p. p.1) (set_behind now key item ttl reached behind), done)
      ]

-- A lease that was granted.
acquire_lease-IsLeased :
    (now : ℕ) (key : String) (ttl : ℤ) (s : Store)
    → (acquire_lease now key ttl s).1 ≡ true
    → IsLeased key (now + pos_part ttl) (acquire_lease now key ttl s).0
unfolding acquire_lease
acquire_lease-IsLeased now key (negsuc n) s got = cc
acquire_lease-IsLeased now key (pos n) s got = (
  now + n,
  ground (arith, got, lookup-insert key key (now + n) s.leases, eq_iff key key),
  omega arith,
)

IsLeased-acquire_lease :
    (later until : ℕ) (key : String) (ttl : ℤ) (s : Store)
    → IsLeased key until s
    → later < until
    → (acquire_lease later key ttl s).1 ≡ false
unfolding acquire_lease
IsLeased-acquire_lease later until key (negsuc n) s l early = refl
IsLeased-acquire_lease later until key (pos n) s (expiry, held, p) early = ground arith

-- After a granted lease, whatever follows, no second lease of the key is granted before the first
-- expires.
pub acquire_lease-run :
    (options : Options) (before after : List Step) (now later : ℕ) (key : String) (ttl other : ℤ)
    → AreMapSteps before
    → AreMapSteps after
    → let s = run before (new options) in
      (acquire_lease now key ttl s).1 ≡ true
      → later < now + pos_part ttl
      → (acquire_lease later key other (run after (acquire_lease now key ttl s).0)).1 ≡ false
acquire_lease-run options before after now later key ttl other maps maps' got early =
    let s = run before (new options) in
    let granted = acquire_lease-Follows now key ttl s (run-new-Follows options before maps).sound in
    let last = run-Follows after (acquire_lease now key ttl s).0 maps' granted.sound in
    IsLeased-acquire_lease later (now + pos_part ttl) key other
      (run after (acquire_lease now key ttl s).0)
      (last.leases key (now + pos_part ttl) (acquire_lease-IsLeased now key ttl s got)) early
