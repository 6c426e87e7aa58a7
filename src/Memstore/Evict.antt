-- ===== src/Memstore/Evict.antt =====
-- cache/memstore/memstore.go: evictLocked. The loop keeps the store consistent and ends within the
-- limits.
use gobeyond.Common.{
  ℕ, zero, suc, ◌+◌, ◌≤◌, ◌<◌, String, ◌≡◌, ◌≢◌, ap, true, false, some, List, [], ◌∷◌, length,
  count, back, back-cons, back-eq-none, erase, ◌∙◌, sym, count-back, ltb, arith, eq_iff, Bool-cases,
  Option-cases, inl, inr,
}
use gobeyond.Common.Maps.{lookup, delete, total_nil, total-delete, length-delete, lookup-delete}
use gobeyond.Memstore.State.{
  Entry, Store, over_limit, remove_element, evict_oldest, evict_loop, evict_locked,
}
use gobeyond.Memstore.Consistency.{IsConsistent, size_of, remove_element-IsConsistent}
use gobeyond.Memstore.Versions.{SameBase, refl-SameBase, trans-SameBase, remove_element-SameBase}

over_limit_needs : (s : Store) → IsConsistent s → over_limit s ≡ true → 0 < length s.entries
over_limit_needs s h over = ground (arith, h.shaped.bytes, total_nil size_of s.entries)

-- A store with entries has an oldest one.
oldest :
    (s : Store)
    → IsConsistent s
    → 0 < length s.entries
    → (k : String) × (e : Entry) × (back s.order ≡ some k) × (lookup k s.entries ≡ some e)
oldest s h some_left = elim (Option-cases (back s.order)) [
  | inl empty ↦
      absurd (omega (arith, h.shaped.sizes, some_left, ap length (back-eq-none s.order empty)))
  | inr (k, last) ↦ elim (Option-cases (lookup k s.entries)) [
    | inl absent ↦ absurd (ground (arith, h.shaped.on_order k, count-back k s.order last))
    | inr (e, held) ↦ (k, e, last, held)
  ]
]

module _ (fuel : ℕ) (s : Store) where
  evict_loop_stop : over_limit s ≡ false → evict_loop (suc fuel) s ≡ s
  unfolding evict_loop
  evict_loop_stop fits = rw (fits, evict_loop)

  evict_loop_step :
      (k : String) (e : Entry)
      → over_limit s ≡ true
      → back s.order ≡ some k
      → lookup k s.entries ≡ some e
      → evict_loop (suc fuel) s ≡ evict_loop fuel (remove_element k e s)
  unfolding evict_loop evict_oldest
  evict_loop_step k e over last held = ground arith

length-remove_element :
    (k : String) (e : Entry) (s : Store)
    → IsConsistent s
    → lookup k s.entries ≡ some e
    → length (remove_element k e s).entries + 1 ≡ length s.entries
unfolding remove_element
length-remove_element k e s h held = length-delete k e s.entries h.shaped.unique held

-- With fuel for each entry the loop ends by its test.
evict_loop_lem :
    (fuel : ℕ) (s : Store)
    → IsConsistent s
    → length s.entries ≤ fuel
    → IsConsistent (evict_loop fuel s)
      × (over_limit (evict_loop fuel s) ≡ false)
      × SameBase s (evict_loop fuel s)
evict_loop_lem zero s h p = elim (Bool-cases (over_limit s)) [
  | inl over ↦ absurd (omega (arith, over_limit_needs s h over))
  | inr fits ↦ unfold evict_loop in (h, fits, refl-SameBase s)
]
evict_loop_lem (suc fuel) s h p = elim (Bool-cases (over_limit s)) [
  | inl over ↦
      let (k, e, last, held) = oldest s h (over_limit_needs s h over) in
      let (h', fits, same) =
        evict_loop_lem fuel (remove_element k e s) (remove_element-IsConsistent k e s h held)
          (omega (arith, length-remove_element k e s h held)) in
      rw (evict_loop_step fuel s k e over last held)
        (h', fits, trans-SameBase (remove_element-SameBase k e s) same)
  | inr fits ↦ rw (evict_loop_stop fuel s fits) (h, fits, refl-SameBase s)
]

pub evict_locked_lem :
    (s : Store)
    → IsConsistent s
    → IsConsistent (evict_locked s)
      × (over_limit (evict_locked s) ≡ false)
      × SameBase s (evict_locked s)
unfolding evict_locked
evict_locked_lem s h = evict_loop_lem (length s.entries) s h (omega arith)

-- An entry that is alone accounts for all the bytes.
alone_bytes :
    (s : Store) (key : String) (e : Entry)
    → IsConsistent s
    → lookup key s.entries ≡ some e
    → length s.entries ≤ 1
    → s.bytes ≡ e.size
alone_bytes s key e h held alone = omega (
  arith,
  alone,
  h.shaped.bytes,
  total-delete key size_of e s.entries h.shaped.unique held,
  total_nil size_of (delete key s.entries)
      (omega (arith, alone, length-delete key e s.entries h.shaped.unique held)),
)

-- What keeps the entry used last in.
record IsSafe (key : String) (e : Entry) (s : Store) : Type 0 where
  consistent : IsConsistent s
  rest : List String
  front : s.order ≡ key ∷ rest
  held : lookup key s.entries ≡ some e
  room : 1 ≤ s.limits.max_entries
  fits : e.size ≤ s.limits.max_bytes

back_other :
    (key k : String) (order rest : List String)
    → order ≡ key ∷ rest
    → back order ≡ some k
    → 1 < length order
    → count key order ≡ 1
    → k ≢ key
back_other key k order [] front last more once = absurd (omega (arith, more, ap length front))
back_other key k order (y ∷ ys) front last more once = λ same.
    let last' : back (y ∷ ys) ≡ some k = sym (ap back front ∙ back-cons key y ys) ∙ last in
    let first : count key order ≡ count key (y ∷ ys) + 1 =
      ap (count key) front ∙ ground (arith, eq_iff key key) in
    omega (arith, count-back key (y ∷ ys) (rw same at last'), once, first)

front_not_oldest :
    (key k : String) (e : Entry) (s : Store)
    → IsSafe key e s
    → over_limit s ≡ true
    → back s.order ≡ some k
    → k ≢ key
front_not_oldest key k e s safe over last =
    back_other key k s.order safe.rest safe.front last
      (elim (Bool-cases (ltb 1 (length s.entries))) [
        | inl many ↦ ground (arith, safe.consistent.shaped.sizes)
        | inr alone ↦ absurd (
            ground (
              arith,
              safe.room,
              safe.fits,
              alone_bytes s key e safe.consistent safe.held (ground arith),
            ))
      ])
      (ground (arith, safe.consistent.shaped.on_order key, safe.held))

remove_element-IsSafe :
    (key k : String) (e held : Entry) (s : Store)
    → k ≢ key
    → lookup k s.entries ≡ some held
    → IsSafe key e s
    → IsSafe key e (remove_element k held s)
unfolding remove_element erase
remove_element-IsSafe key k e held s other p safe = record {
  consistent = remove_element-IsConsistent k held s safe.consistent p;
  rest = erase k safe.rest;
  front = ground (arith, safe.front, eq_iff key k);
  held = ground (arith, safe.held, lookup-delete k key s.entries, eq_iff k key);
  room = safe.room;
  fits = safe.fits;
}

-- The entry used last stays, if it fits alone.
front_survives :
    (fuel : ℕ) (key : String) (e : Entry) (s : Store)
    → IsSafe key e s
    → lookup key (evict_loop fuel s).entries ≡ some e
front_survives zero key e s safe = unfold evict_loop in safe.held
front_survives (suc fuel) key e s safe = elim (Bool-cases (over_limit s)) [
  | inl over ↦
      let (k, held, last, found) =
        oldest s safe.consistent (over_limit_needs s safe.consistent over) in
      rw (evict_loop_step fuel s k held over last found) (
        front_survives fuel key e (remove_element k held s) (
          remove_element-IsSafe key k e held s (front_not_oldest key k e s safe over last) found
            safe))
  | inr fits ↦ rw (evict_loop_stop fuel s fits) safe.held
]

pub evict_locked_front :
    (key : String) (rest : List String) (e : Entry) (s : Store)
    → IsConsistent s
    → s.order ≡ key ∷ rest
    → lookup key s.entries ≡ some e
    → 1 ≤ s.limits.max_entries
    → e.size ≤ s.limits.max_bytes
    → lookup key (evict_locked s).entries ≡ some e
unfolding evict_locked
evict_locked_front key rest e s h front held room fits =
    front_survives (length s.entries) key e s
      (record { consistent = h; rest = rest; front = front; held = held; room = room; fits = fits })
