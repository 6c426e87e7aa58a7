-- ===== src/Residency/Promises/Leaving.antt =====
-- residency/: runs of the cache in which it works on other keys than one that is not resident.
use gobeyond.Common.{
  ℕ, ◌-◌, String, ◌≡◌, ◌≢◌, ◌⊎◌, inl, inr, refl, Bool, true, false, not, ◌&&◌, ◌||◌, ◌==◌, Option,
  none, some, List, [], ◌∷◌, ltb, length, arith, if_intro, eq_iff, str_eq, Bool-cases, ◌∙◌,
}
use gobeyond.Common.Int.{pos, negsuc}
use gobeyond.Common.Maps.{Map, lookup, lookup-insert, lookup-adjust, IsUnique}
use gobeyond.Residency.Errors.{Err, is_immutable}
use gobeyond.Residency.State.{Limits, Entry, NegativeEntry, Cache}
use gobeyond.Residency.Slru.{remove_entry, evict_while}
use gobeyond.Residency.Negative.{
  remove_negative, store_negative, make_room, remember, push_negative,
}
use gobeyond.Residency.Negative.Room.{make_room_inv}
use gobeyond.Residency.Ops.{
  value, error, Step, get_step, finish_step, trim_step, close_step, sweep_step, expire_entry, land,
  keep_loaded, finish_load, above, trim, sweep_entries, sweep_negative, sweep_idle, apply, run,
}
use gobeyond.Residency.Bounds.Frames.{evict_while-SameNegative, insert_entry-SameNegative}
use gobeyond.Residency.Bounds.Gets.{IsSound}
use gobeyond.Residency.Bounds.Steps.{apply-IsSound}
use gobeyond.Residency.Promises.Absent.{
  Lasts, IsAbsent, evict_while-IsOut, insert_entry-IsOut, remove_negative-IsAbsent,
  expire_entry-IsAbsent, get-IsAbsent,
}

-- A load that ends in `e` has no failure remembered, where a remembered failure is to stay.
abbrev Passes : Err → Option NegativeEntry → Type 0
Passes e none = Unit
Passes e (some _) = is_immutable e ≡ false

module _ {ℓ} {V : Type ℓ} (k : String) (o : Option NegativeEntry) where
  make_room-IsAbsent :
      (fuel : ℕ) (c : Cache V) → o ≡ none → IsAbsent k o c → IsAbsent k o (make_room fuel c)
  make_room-IsAbsent fuel c empty h =
      make_room_inv (IsAbsent k o) (λ j d. remove_negative-IsAbsent k o j d (inr empty)) fuel c h

  remember-IsAbsent :
      (j : String) (ne : NegativeEntry) (x : Option NegativeEntry) (c : Cache V)
      → j ≢ k
      → o ≡ none
      → IsAbsent k o c
      → IsAbsent k o (remember j ne x c)
  unfolding remember push_negative
  remember-IsAbsent j ne (some old) c other empty (is_open, out, held) =
      (is_open, out, ground (arith, held, lookup-adjust j k (λ _. ne) c.negative, eq_iff j k))
  remember-IsAbsent j ne none c other empty h =
      let c' = make_room (length c.negative) c in
      let (is_open, out, held) = make_room-IsAbsent (length c.negative) c empty h in
      (is_open, out, ground (arith, held, lookup-insert j k ne c'.negative, eq_iff j k))

  store_negative-IsAbsent :
      (now : ℕ) (j : String) (e : Err) (c : Cache V)
      → j ≢ k
      → o ≡ none
      → IsAbsent k o c
      → IsAbsent k o (store_negative now j e c)
  unfolding store_negative
  store_negative-IsAbsent now j e c other empty h =
      if_intro (IsAbsent k o) (ltb 0 c.limits.negative_max)
        (λ _. remember-IsAbsent j _ (lookup j c.negative) c other empty h) (λ _. h)

  pub land-IsAbsent :
      (j : String) (f : ℕ) (c : Cache V) → IsAbsent k o c → IsAbsent k o (land j f c)
  unfolding land
  land-IsAbsent j f c h = ground arith

  -- The load of another key ends in a failure.
  failed-IsAbsent :
      (now : ℕ) (j : String) (weight : ℕ) (e : Err) (p : Option NegativeEntry) (c : Cache V)
      → o ≡ p
      → Passes e p
      → j ≢ k
      → IsAbsent k o c
      → IsAbsent k o (keep_loaded now j weight (error e) c)
  unfolding keep_loaded
  failed-IsAbsent now j weight e none c empty passes other h =
      if_intro (IsAbsent k o) (not c.closed && is_immutable e) {x = store_negative now j e c}
        (λ _. store_negative-IsAbsent now j e c other empty h) (λ _. h)
  failed-IsAbsent now j weight e (some ne) c _ passes other h = rw passes (ground arith)

  kept-IsAbsent :
      (now : ℕ) (j : String) (weight : ℕ) (v : V) (c : Cache V)
      → j ≢ k
      → IsAbsent k o c
      → IsAbsent k o (keep_loaded now j weight (value v) c)
  unfolding keep_loaded
  kept-IsAbsent now j weight v c other h =
      let (is_open, out, held) = remove_negative-IsAbsent k o j c (inl other) h in
      let same = insert_entry-SameNegative now j v weight (remove_negative j c) in
      if_intro (IsAbsent k o) c.closed (λ _. h)
        (λ _.
          if_intro (IsAbsent k o) (ltb c.limits.oversize_bytes weight) (λ _. h)
            (λ _. (
              rw same.closed is_open,
              insert_entry-IsOut k now j v weight (remove_negative j c) other out,
              rw same.negative held,
            )))

  evict_while-IsAbsent :
      (test : Cache V → Bool) (fuel : ℕ) (c : Cache V)
      → IsAbsent k o c
      → IsAbsent k o (evict_while test fuel c)
  evict_while-IsAbsent test fuel c (is_open, out, held) =
      let same = evict_while-SameNegative test fuel c in
      (rw same.closed is_open, evict_while-IsOut k test fuel c out, rw same.negative held)

  sweep_entries-IsAbsent :
      (now : ℕ) (m : Map (Entry V)) (c : Cache V)
      → IsAbsent k o c
      → IsAbsent k o (sweep_entries now m c)
  unfolding sweep_entries
  sweep_entries-IsAbsent now [] c h = h
  sweep_entries-IsAbsent now ((j, e) ∷ rest) c h = sweep_entries-IsAbsent now rest _ (
      if_intro (IsAbsent k o) (ltb c.limits.idle (now - e.last_access))
        (λ _. expire_entry-IsAbsent k o j e c h) (λ _. h))

  negative-sweep_entries :
      (now : ℕ) (m : Map (Entry V)) (c : Cache V) → (sweep_entries now m c).negative ≡ c.negative
  unfolding sweep_entries expire_entry remove_entry
  negative-sweep_entries now [] c = refl
  negative-sweep_entries now ((j, e) ∷ rest) c =
      negative-sweep_entries now rest _
      ∙ if_intro (λ (d : Cache V). d.negative ≡ c.negative)
          (ltb c.limits.idle (now - e.last_access)) (λ _. refl) (λ _. refl)

  -- The list that the sweep walks holds what is remembered of the key, or has passed it.
  sweep_negative-IsAbsent :
      (now : ℕ) (m : Map NegativeEntry) (c : Cache V)
      → Lasts now o
      → IsUnique m
      → (lookup k m ≡ none) ⊎ (lookup k m ≡ o)
      → IsAbsent k o c
      → IsAbsent k o (sweep_negative now m c)
  unfolding sweep_negative lookup
  sweep_negative-IsAbsent now [] c lasts u at h = h
  sweep_negative-IsAbsent now ((j, ne) ∷ rest) c lasts (absent, u) at h =
      elim (Bool-cases (str_eq j k)) [
        | inl same ↦
            let here : j ≡ k = (eq_iff j k).0 same in
            let early : ltb now ne.expires ≡ true = ground arith in
            rw (early, sweep_negative)
              (sweep_negative-IsAbsent now rest c lasts u (inl (rw (← here) absent)) h)
        | inr other ↦ sweep_negative-IsAbsent now rest _ lasts u (ground arith) (
            if_intro (IsAbsent k o) (ltb now ne.expires) (λ _. h)
              (λ _. remove_negative-IsAbsent k o j c (inl (ground (arith, eq_iff j k))) h))
      ]

  -- A step that leaves the key alone: the cache stays open, no load of the key ends, and nothing
  -- makes it forget a failure that is remembered.
  abbrev pub Leaves : Step V → Type 0
  Leaves (get_step ctx now j) = Lasts now o
  Leaves (finish_step now j f weight (value v)) = j ≢ k
  Leaves (finish_step now j f weight (error e)) = (j ≢ k) × Passes e o
  Leaves (trim_step target) = Unit
  Leaves close_step = ⊥
  Leaves (sweep_step now) = Lasts now o

  abbrev pub AllLeave : List (Step V) → Type 0
  AllLeave [] = Unit
  AllLeave (st ∷ steps) = Leaves st × AllLeave steps

  apply-IsAbsent :
      (st : Step V) (c : Cache V)
      → Leaves st
      → IsUnique c.negative
      → IsAbsent k o c
      → IsAbsent k o (apply st c)
  unfolding apply finish_load trim sweep_idle
  apply-IsAbsent (get_step ctx now j) c p u h = get-IsAbsent k o ctx now j c p h
  apply-IsAbsent (finish_step now j f weight (value v)) c p u h =
      kept-IsAbsent now j weight v (land j f c) p (land-IsAbsent j f c h)
  apply-IsAbsent (finish_step now j f weight (error e)) c (other, p) u h =
      failed-IsAbsent now j weight e o (land j f c) refl p other (land-IsAbsent j f c h)
  apply-IsAbsent (trim_step (pos t)) c p u h = evict_while-IsAbsent (above t) (length c.entries) c h
  apply-IsAbsent (trim_step (negsuc t)) c p u h =
      evict_while-IsAbsent (above 0) (length c.entries) c h
  apply-IsAbsent close_step c p u h = absurd p
  apply-IsAbsent (sweep_step now) c p u h =
      let c' = sweep_entries now c.entries c in
      let same = negative-sweep_entries now c.entries c in
      let h' = sweep_entries-IsAbsent now c.entries c h in
      if_intro (IsAbsent k o) (c.closed || c.limits.idle == 0)
        {y = sweep_negative now c'.negative c'} (λ _. h)
        (λ _. sweep_negative-IsAbsent now c'.negative c' p (rw same u) (inr h'.2) h')

  pub run-IsAbsent :
      (l : Limits) (steps : List (Step V)) (c : Cache V)
      → AllLeave steps
      → IsSound l c
      → IsAbsent k o c
      → IsAbsent k o (run steps c)
  unfolding run
  run-IsAbsent l [] c p s h = h
  run-IsAbsent l (st ∷ steps) c (p, rest) s h =
      run-IsAbsent l steps (apply st c) rest (apply-IsSound l st c s)
        (apply-IsAbsent st c p s.1.ordered.unique h)
