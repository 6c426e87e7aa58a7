-- ===== src/Residency/Semaphore.antt =====
-- residency/semaphore.go: the weighted FIFO semaphore that bounds concurrent cold loads. A
-- goroutine is a number; one that waits on its `ready` channel stands in `waiters`.
pub mod Fifo
use gobeyond.Common.{
  ℕ, ◌+◌, ◌-◌, Bool, true, false, ◌&&◌, List, [], ◌∷◌, ◌++◌, ltb, leb, if◌then◌else◌,
}

pub record Waiter : Type 0 where
  pub routine : ℕ
  pub n : ℕ

pub record Semaphore : Type 0 where
  pub size : ℕ
  pub cur : ℕ
  pub waiters : List Waiter

unfoldable pub new_weighted_semaphore : ℕ → Semaphore
new_weighted_semaphore size = record { size = size; cur = 0; waiters = [] }

unfoldable pub clamp : Semaphore → ℕ → ℕ
clamp s n = let n' = if ltb n 1 then 1 else n in if ltb s.size n' then s.size else n'

abbrev is_empty : List Waiter → Bool
is_empty [] = true
is_empty (w ∷ ws) = false

-- The flag says whether the caller goes on at once; if not, it waits at the back of the queue.
unfoldable pub acquire : ℕ → ℕ → Semaphore → Semaphore × Bool
acquire routine n s =
    if is_empty s.waiters && leb (s.cur + n) s.size
    then (record s { cur = s.cur + n }, true)
    else (record s { waiters = s.waiters ++ record { routine = routine; n = n } ∷ [] }, false)

-- The loop of `release`: the weight held, the queue left and the waiters woken, in order.
unfoldable pub wake : ℕ → ℕ → List Waiter → ℕ × List Waiter × List Waiter
wake size cur [] = (cur, [], [])
wake size cur (w ∷ ws) =
    let rest = wake size (cur + w.n) ws in
    if ltb size (cur + w.n) then (cur, w ∷ ws, []) else (rest.0, rest.1, w ∷ rest.2)

unfoldable pub release : ℕ → Semaphore → Semaphore × List Waiter
unfolding wake
release n s =
    let (cur, waiters, woken) = wake s.size (s.cur - n) s.waiters in
    (record s { cur = cur; waiters = waiters }, woken)
