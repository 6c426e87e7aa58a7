-- ===== src/Residency/Semaphore/Fifo.antt =====
-- residency/semaphore.go: goroutines that acquire and release, in any interleaving.
use gobeyond.Common.{
  ℕ, ◌+◌, ◌-◌, ◌≤◌, ◌<◌, ◌≡◌, ◌≢◌, ◌⊎◌, inl, inr, List-cases, refl, sym, ap, ◌∙◌, Bool, true, false,
  List, [], ◌∷◌, ◌++◌, map, ltb, leb, ◌&&◌, if◌then◌else◌, if_intro, arith,
}
use mathlib.Core.List.{map-append, append_assoc, append-nil}
use gobeyond.Residency.Semaphore.{
  Waiter, Semaphore, new_weighted_semaphore, clamp, acquire, is_empty, wake, release,
}

-- The summed weight.
abbrev pub weight : List Waiter → ℕ
weight [] = 0
weight (w ∷ ws) = w.n + weight ws

abbrev routine_of : Waiter → ℕ
routine_of w = w.routine

-- The semaphore, the goroutines that hold it, and who has asked for it and who has been let in, in
-- order.
pub record System : Type 0 where
  pub sem : Semaphore
  pub holders : List Waiter
  pub asked : List ℕ
  pub admitted : List ℕ

unfoldable pub start_system : ℕ → System
start_system size = record {
  sem = new_weighted_semaphore size;
  holders = [];
  asked = [];
  admitted = [];
}

abbrev admit : Waiter → Semaphore × Bool → System → System
admit w (sem, granted) s = record s {
  sem = sem;
  holders = if granted then w ∷ s.holders else s.holders;
  asked = s.asked ++ w.routine ∷ [];
  admitted = if granted then s.admitted ++ w.routine ∷ [] else s.admitted;
}

-- A goroutine asks for a clamped weight.
unfoldable pub ask : ℕ → ℕ → System → System
ask routine n s =
    let n' = clamp s.sem n in
    admit (record { routine = routine; n = n' }) (acquire routine n' s.sem) s

abbrev wake_up : List Waiter → Semaphore × List Waiter → System → System
wake_up others (sem, woken) s = record s {
  sem = sem;
  holders = others ++ woken;
  admitted = s.admitted ++ map routine_of woken;
}

-- A holder releases what it acquired; `before` and `after` are the other holders.
unfoldable pub leave : List Waiter → Waiter → List Waiter → System → System
leave before w after s = wake_up (before ++ after) (release w.n s.sem) s

pub data Move : System → System → Type 0 where
  asks : (s : System) (routine n : ℕ) → Move s (ask routine n s)
  leaves :
      (s : System) (before : List Waiter) (w : Waiter) (after : List Waiter)
      → s.holders ≡ before ++ w ∷ after
      → Move s (leave before w after s)

pub data Reach (s : System) : System → Type 0 where
  here : Reach s s
  next : {t u : System} → Reach s t → Move t u → Reach s u

-- The first goroutine in the queue does not fit.
abbrev pub IsBlocked : ℕ → ℕ → List Waiter → Type 0
IsBlocked size cur [] = Unit
IsBlocked size cur (w ∷ ws) = size < cur + w.n

abbrev pub AllFit : ℕ → List Waiter → Type 0
AllFit size [] = Unit
AllFit size (w ∷ ws) = (w.n ≤ size) × AllFit size ws

pub record IsFair (s : System) : Type 0 where
  pub exact : s.sem.cur ≡ weight s.holders
  pub bounded : s.sem.cur ≤ s.sem.size
  pub blocked : IsBlocked s.sem.size s.sem.cur s.sem.waiters
  pub fit : AllFit s.sem.size s.sem.waiters
  pub positive : 0 < s.sem.size
  pub in_order : s.asked ≡ s.admitted ++ map routine_of s.sem.waiters

weight-append : (xs ys : List Waiter) → weight (xs ++ ys) ≡ weight xs + weight ys
weight-append [] ys = omega arith
weight-append (x ∷ xs) ys = omega (arith, weight-append xs ys)

AllFit-append :
    (size : ℕ) (ws : List Waiter) (w : Waiter)
    → AllFit size ws
    → w.n ≤ size
    → AllFit size (ws ++ w ∷ [])
AllFit-append size [] w h p = (p, tt)
AllFit-append size (v ∷ ws) w (q, h) p = (q, AllFit-append size ws w h p)

-- What the loop of `release` does: it lets in a prefix of the queue, as long as it fits.
pub record IsWoken (size cur : ℕ) (ws : List Waiter) (r : ℕ × List Waiter × List Waiter)
    : Type 0 where
  pub split : ws ≡ r.2 ++ r.1
  pub held : r.0 ≡ cur + weight r.2
  pub bounded : r.0 ≤ size
  pub blocked : IsBlocked size r.0 r.1
  pub fit : AllFit size r.1

wake_lem :
    (size cur : ℕ) (ws : List Waiter)
    → cur ≤ size
    → AllFit size ws
    → IsWoken size cur ws (wake size cur ws)
unfolding wake
wake_lem size cur [] p h = record {
  split = refl;
  held = omega arith;
  bounded = p;
  blocked = tt;
  fit = tt;
}
wake_lem size cur (w ∷ ws) p (q, h) =
    if_intro (IsWoken size cur (w ∷ ws)) (ltb size (cur + w.n))
      (λ over. record {
        split = refl;
        held = omega arith;
        bounded = p;
        blocked = ground arith;
        fit = (q, h);
      })
      (λ fits.
        let r = wake_lem size (cur + w.n) ws (ground arith) h in
        record {
          split = ap (◌∷◌ w) r.split;
          held = omega (arith, r.held);
          bounded = r.bounded;
          blocked = r.blocked;
          fit = r.fit;
        })

clamp_bounds : (s : Semaphore) (n : ℕ) → 0 < s.size → (0 < clamp s n) × (clamp s n ≤ s.size)
unfolding clamp
clamp_bounds s n p = ground arith

module _ (s : System) (h : IsFair s) where
  let_in :
      (w : Waiter)
      → (is_empty s.sem.waiters && leb (s.sem.cur + w.n) s.sem.size) ≡ true
      → IsFair (admit w (record s.sem { cur = s.sem.cur + w.n }, true) s)
  let_in w p =
      let empty : s.sem.waiters ≡ [] = ground arith in
      record {
        exact = omega (arith, h.exact);
        bounded = ground arith;
        blocked = rw empty tt;
        fit = h.fit;
        positive = h.positive;
        in_order = rw empty (ordered empty);
      }
    where
      ordered :
          s.sem.waiters ≡ [] → s.asked ++ w.routine ∷ [] ≡ (s.admitted ++ w.routine ∷ []) ++ []
      ordered empty =
          let e : s.asked ≡ s.admitted = h.in_order ∙ rw empty (append-nil s.admitted) in
          rw e (sym (append-nil (s.admitted ++ w.routine ∷ [])))

  IsBlocked-append :
      (ws : List Waiter) (w : Waiter)
      → (is_empty ws && leb (s.sem.cur + w.n) s.sem.size) ≡ false
      → IsBlocked s.sem.size s.sem.cur ws
      → IsBlocked s.sem.size s.sem.cur (ws ++ w ∷ [])
  IsBlocked-append [] w p b = ground arith
  IsBlocked-append (v ∷ ws) w p b = b

  queue_up :
      (w : Waiter)
      → w.n ≤ s.sem.size
      → (is_empty s.sem.waiters && leb (s.sem.cur + w.n) s.sem.size) ≡ false
      → IsFair (admit w (record s.sem { waiters = s.sem.waiters ++ w ∷ [] }, false) s)
  queue_up w fits p = record {
    exact = h.exact;
    bounded = h.bounded;
    blocked = IsBlocked-append s.sem.waiters w p h.blocked;
    fit = AllFit-append s.sem.size s.sem.waiters w h.fit fits;
    positive = h.positive;
    in_order = simp (h.in_order, map-append, append_assoc);
  }

  ask-IsFair : (routine n : ℕ) → IsFair (ask routine n s)
  unfolding ask acquire
  ask-IsFair routine n =
      let n' = clamp s.sem n in
      let w : Waiter = record { routine = routine; n = n' } in
      if_intro (λ (r : Semaphore × Bool). IsFair (admit w r s))
        (is_empty s.sem.waiters && leb (s.sem.cur + n') s.sem.size) (let_in w)
        (queue_up w (clamp_bounds s.sem n h.positive).1)

  leave-IsFair :
      (before : List Waiter) (w : Waiter) (after : List Waiter)
      → s.holders ≡ before ++ w ∷ after
      → IsFair (leave before w after s)
  unfolding leave release
  leave-IsFair before w after held =
      let r =
        wake_lem s.sem.size (s.sem.cur - w.n) s.sem.waiters (omega (arith, h.bounded)) h.fit in
      let woken = (wake s.sem.size (s.sem.cur - w.n) s.sem.waiters).2 in
      record {
        exact = omega (
          arith,
          r.held,
          h.exact,
          ap weight held,
          weight-append before (w ∷ after),
          weight-append (before ++ after) woken,
          weight-append before after,
        );
        bounded = r.bounded;
        blocked = r.blocked;
        fit = r.fit;
        positive = h.positive;
        in_order =
            h.in_order
            ∙ ap (λ ws. s.admitted ++ map routine_of ws) r.split
            ∙ simp (map-append, append_assoc);
      }

nobody_waits :
    (s : System) → IsFair s → (ws : List Waiter) → s.sem.waiters ≡ ws → s.holders ≡ [] → ws ≡ []
nobody_waits s h [] q e = refl
nobody_waits s h (w ∷ ws) q e =
    let fit : AllFit s.sem.size (w ∷ ws) = rw q at h.fit in
    let blocked : IsBlocked s.sem.size s.sem.cur (w ∷ ws) = rw q at h.blocked in
    absurd (omega (arith, h.exact, ap weight e, fit.0, blocked))

Move-IsFair : {s t : System} → Move s t → IsFair s → IsFair t
Move-IsFair (asks s routine n) h = ask-IsFair s h routine n
Move-IsFair (leaves s before w after held) h = leave-IsFair s h before w after held

start_system-IsFair : (size : ℕ) → 0 < size → IsFair (start_system size)
unfolding start_system new_weighted_semaphore
start_system-IsFair size p = record {
  exact = refl;
  bounded = omega arith;
  blocked = tt;
  fit = tt;
  positive = p;
  in_order = refl;
}

Reach-IsFair : {s t : System} → IsFair s → Reach s t → IsFair t
Reach-IsFair h here = h
Reach-IsFair h (next r m) = Move-IsFair m (Reach-IsFair h r)

-- Whatever goroutines have asked and released, in any order: the weight held is exactly that of the
-- holders and never more than the size; those let in, followed by those in the queue, are all that
-- asked, in the order in which they asked; and nobody waits while nobody holds the semaphore.
pub Reach-fair :
    (size : ℕ) (s : System)
    → 0 < size
    → Reach (start_system size) s
    → (weight s.holders ≤ s.sem.size)
      × (s.sem.cur ≡ weight s.holders)
      × (s.asked ≡ s.admitted ++ map routine_of s.sem.waiters)
      × ((s.sem.waiters ≡ []) ⊎ (s.holders ≢ []))
Reach-fair size s p r =
    let h = Reach-IsFair (start_system-IsFair size p) r in
    (
      omega (arith, h.exact, h.bounded),
      h.exact,
      h.in_order,
      elim (List-cases s.holders) [
        | inl free ↦ inl (nobody_waits s h s.sem.waiters refl free)
        | inr (x, xs, held) ↦ inr (λ none_left. cc (none_left, held))
      ],
    )
