-- ===== src/ThreadPool/Order.antt =====
-- What a `ThreadPool` (rct/ThreadPool.cpp) promises of its jobs, in every state that is reached.
use rct.Prelude.{
  count, ℕ, ◌+◌, ◌-◌, ◌^◌, ◌<◌, ◌≤◌, ◌≡◌, ◌↔◌, Bool, List, [], ◌∷◌, ◌==◌, Bool-cases, inl, inr,
  eq_of, arith,
}
use rct.ThreadPool.{running, enqueue, System, tally, runs, is_busy, Reach}
use rct.ThreadPool.Queue.{Under, Descending, Sorts, count-enqueue, enqueue-Descending}
use rct.ThreadPool.Steps.{Inv, Reach-Inv}

-- In every state that is reached, the queue holds the jobs in the order of descending priority:
-- the one that the next thread takes has the highest. `std::sort` sorts, no priority but
-- `Guaranteed` is negative, and a job is started only while it waits and runs nowhere.
pub Reach-Descending :
    {sort : (ℕ → ℕ → Bool) → List ℕ → List ℕ} {s : System}
    → Sorts sort
    → Reach sort s
    → Descending s.pool.priority s.pool.jobs
unfolding Inv
Reach-Descending sorts r = (Reach-Inv sorts r).ordered

-- In every state that is reached, `busyThreads` is the number of threads that have taken a job
-- and not yet come back to the mutex. `std::sort` sorts, no priority but `Guaranteed` is negative,
-- and a job is started only while it waits and runs nowhere.
pub Reach-busy :
    {sort : (ℕ → ℕ → Bool) → List ℕ → List ℕ} {s : System}
    → Sorts sort
    → Reach sort s
    → s.pool.busy ≡ tally is_busy s.workers
unfolding Inv
Reach-busy sorts r = (Reach-Inv sorts r).counted

-- In every state that is reached, a job stands at most at one place, in the queue, in a thread of
-- its own or in a thread of the pool that runs it; and it is in the state `Running` if and only if a
-- thread of the pool runs it, so no job in the queue is. `std::sort` sorts, no priority but
-- `Guaranteed` is negative, and a job is started only while it waits and runs nowhere.
pub Reach-states :
    {sort : (ℕ → ℕ → Bool) → List ℕ → List ℕ} {s : System}
    → Sorts sort
    → Reach sort s
    → (j : ℕ)
    → (count j s.pool.jobs + count j s.pool.own_threads + tally (runs j) s.workers ≤ 1)
      × ((s.pool.states j ≡ running) ↔ (0 < tally (runs j) s.workers))
unfolding Inv
Reach-states {s = s} sorts r j =
    let g = Reach-Inv sorts r in
    (
      g.once j,
      (
        λ e. elim (Bool-cases (tally (runs j) s.workers == 0)) [
          | inl t ↦ absurd (g.idle j (eq_of (tally (runs j) s.workers) 0 t) e)
          | inr t ↦ ground (arith, t)
        ],
        g.works j,
      ),
    )

-- A job joins a queue in the order of descending priorities at one place, the order stays, and no
-- job is lost; no priority is negative, and `std::sort` sorts.
enqueue-keeps :
    (sort : (ℕ → ℕ → Bool) → List ℕ → List ℕ)
    → Sorts sort
    → (key : ℕ → ℕ) (j : ℕ) (xs : List ℕ) → key j < 2 ^ 31
    → Under key (2 ^ 31 - 1) xs
    → Descending key xs
    → Descending key (enqueue sort key j xs)
      × ((k : ℕ) → count k (enqueue sort key j xs) ≡ count k xs + count k (j ∷ []))
enqueue-keeps sort sorts key j xs h u d =
    (enqueue-Descending sort sorts key j xs h u d, λ k. count-enqueue sort sorts key j k xs)
