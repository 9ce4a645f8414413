-- ===== src/ThreadPool/Tests.antt =====
-- Runs of a `ThreadPool` (rct/ThreadPool.cpp) with one thread.
use rct.Prelude.{
  put, count, ◌+◌, ◌-◌, ◌^◌, ◌<◌, ◌≤◌, ◌≡◌, ◌↔◌, refl, false, [], ◌∷◌, inl, inr, arith,
}
use rct.ThreadPool.{
  running, Pool, enqueue, start, fresh, turn, run_test, run_head, AtLock, System, take_turn, tally,
  runs, is_busy, move, call_start, end_own, add_thread, guaranteed, erase, end_own_thread, Reach,
  begin, later, new_pool, signed, last, job_less_than,
}
use rct.ThreadPool.Queue.{Under, Descending}
use rct.ThreadPool.Order.{Reach-Descending, Reach-busy, Reach-states}
use rct.Prelude.Sorting.{insertion_sort, insert}
use rct.ThreadPool.Insertion.{insertion_sort-Sorts}

-- Jobs 1, 2 and 3 with these priorities; the thread takes the first of them.
abbrev pool_1 : Pool
pool_1 = start insertion_sort 1 5 new_pool

abbrev pool_2 : Pool
pool_2 = start insertion_sort 2 9 pool_1

abbrev pool_3 : Pool
pool_3 = start insertion_sort 3 7 pool_2

abbrev state : System
state = record {
  pool = (turn false fresh pool_3).0;
  workers = record { pc = (turn false fresh pool_3).1; stopped = false } ∷ [];
}

state-Reach : Reach insertion_sort state
unfolding AtLock start enqueue put count tally runs signed last job_less_than insertion_sort insert
state-Reach =
    later
      (later
        (later (later (later begin add_thread) (call_start 1 5 (inl (omega arith)) refl))
          (call_start 2 9 (inl (omega arith)) refl))
        (call_start 3 7 (inl (omega arith)) refl))
      (move [] [] _ refl (take_turn fresh false tt))

-- Job 4 runs on a thread of its own and ends, and is then started again, in the queue.
abbrev own_run : System
own_run = record {
  pool = start insertion_sort 4 6 (end_own_thread 4 (start insertion_sort 4 guaranteed new_pool));
  workers = [];
}

own_run-Reach : Reach insertion_sort own_run
unfolding start end_own_thread erase enqueue put count tally
own_run-Reach =
    later (later (later begin (call_start 4 guaranteed (inr refl) refl)) (end_own 4))
      (call_start 4 6 (inl (omega arith)) refl)

Reach-Descending_example : Descending state.pool.priority state.pool.jobs
Reach-Descending_example = Reach-Descending insertion_sort-Sorts state-Reach

-- Jobs 3 and 1 wait, in this order, while job 2 runs.
state-jobs : state.pool.jobs ≡ 3 ∷ 1 ∷ []
unfolding start enqueue put signed last job_less_than insertion_sort insert turn run_test run_head
state-jobs = refl

Reach-busy_example : state.pool.busy ≡ tally is_busy state.workers
Reach-busy_example = Reach-busy insertion_sort-Sorts state-Reach

Reach-states_example :
    (count 2 state.pool.jobs + count 2 state.pool.own_threads + tally (runs 2) state.workers ≤ 1)
    × ((state.pool.states 2 ≡ running) ↔ (0 < tally (runs 2) state.workers))
Reach-states_example = Reach-states insertion_sort-Sorts state-Reach 2

-- Keys that are the jobs themselves.
queue-Under : Under (λ j. j) (2 ^ 31 - 1) (9 ∷ 5 ∷ [])
unfolding Under
queue-Under = (omega arith, (omega arith, tt))

queue-Descending : Descending (λ j. j) (9 ∷ 5 ∷ [])
unfolding Descending Under
queue-Descending = ((omega arith, tt), (tt, tt))
