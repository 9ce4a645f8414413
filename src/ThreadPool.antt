-- ===== src/ThreadPool.antt =====
-- rct/ThreadPool.h and rct/ThreadPool.cpp: the queue of jobs and the threads that run them.
pub mod Queue
pub mod Invariant
pub mod Steps
mod Insertion
pub mod Order
mod Tests
use rct.Prelude.{
  put, count, ℕ, ◌+◌, ◌-◌, ◌%◌, ◌^◌, ◌<◌, ◌≡◌, Bool, true, false, List, [], ◌∷◌, ◌++◌, ◌⊎◌,
  if◌then◌else◌, ltb, leb, ◌==◌,
}

pub data State : Type 0 where
  not_started running finished : State

-- Jobs are numbers, so that one shared by a queue, a thread and its owner is one job. A priority
-- is an `int`, as its 32 bits. `own_threads` are the jobs that `start` gave a thread of their own.
pub record Pool : Type 0 where
  pub priority : ℕ → ℕ
  pub states : ℕ → State
  pub jobs : List ℕ
  pub busy : ℕ
  pub own_threads : List ℕ

abbrev pub guaranteed : ℕ
guaranteed = 2 ^ 32 - 1

-- The tests `a >= b` and `a < b` on `int`.
unfoldable pub signed : ℕ → ℕ
signed a = (a + 2 ^ 31) % 2 ^ 32

-- `jobLessThan`: the tests on `unsigned`.
unfoldable pub job_less_than : (ℕ → ℕ) → ℕ → ℕ → Bool
job_less_than priority l r = ltb (priority r) (priority l)

-- `mJobs.at(mJobs.size() - 1)` of a queue that starts with `j`.
unfoldable pub last : ℕ → List ℕ → ℕ
last j [] = j
last j (k ∷ ks) = last k ks

-- The queue after `start`; `sort` is `std::sort`, given the comparison.
unfoldable pub enqueue : ((ℕ → ℕ → Bool) → List ℕ → List ℕ) → (ℕ → ℕ) → ℕ → List ℕ → List ℕ
enqueue sort priority j [] = j ∷ []
enqueue sort priority j (k ∷ ks) =
    if leb (signed (priority j)) (signed (priority (last k ks)))
    then k ∷ ks ++ j ∷ []
    else if ltb (signed (priority k)) (signed (priority j))
    then j ∷ k ∷ ks
    else sort (job_less_than priority) (k ∷ ks ++ j ∷ [])

unfoldable pub start : ((ℕ → ℕ → Bool) → List ℕ → List ℕ) → ℕ → ℕ → Pool → Pool
start sort j p s =
    let priority = put j p s.priority in
    if p == guaranteed
    then record s { priority = priority; own_threads = j ∷ s.own_threads }
    else record s { priority = priority; jobs = enqueue sort priority j s.jobs }

unfoldable pub erase : ℕ → List ℕ → List ℕ
erase j [] = []
erase j (k ∷ ks) = if k == j then ks else k ∷ erase j ks

unfoldable pub contains : ℕ → List ℕ → Bool
contains j [] = false
contains j (k ∷ ks) = if k == j then true else contains j ks

unfoldable pub remove : ℕ → Pool → Pool × Bool
remove j s = if contains j s.jobs then (record s { jobs = erase j s.jobs }, true) else (s, false)

unfoldable pub clear_backlog : Pool → Pool
clear_backlog s = record s { jobs = [] }

-- A thread that `start` gave a job of its own has run it, and returns.
unfoldable pub end_own_thread : ℕ → Pool → Pool
end_own_thread j s = record s { own_threads = erase j s.own_threads }

-- Where the loop of a thread stands: before its first round, asleep in `mCond`, in the `run` of a
-- job, behind that, or left.
pub data Pc : Type 0 where
  fresh sleeping exited : Pc
  in_run done : ℕ → Pc

-- The start of a round: the thread is no longer busy, unless it never was.
unfoldable pub run_head : Pc → ℕ → ℕ
run_head (done j) busy = busy - 1
run_head fresh busy = busy
run_head sleeping busy = busy
run_head exited busy = busy
run_head (in_run j) busy = busy

-- From the test of the inner loop to the start of a job, to sleep or to the end.
unfoldable pub run_test : Bool → List ℕ → Pool → Pool × Pc
run_test true js s = (s, exited)
run_test false [] s = (s, sleeping)
run_test false (j ∷ js) s =
    (record s { jobs = js; states = put j running s.states; busy = s.busy + 1 }, in_run j)

unfoldable pub turn : Bool → Pc → Pool → Pool × Pc
turn stopped pc s = run_test stopped s.jobs (record s { busy = run_head pc s.busy })

unfoldable pub finish : ℕ → Pool → Pool
finish j s = record s { states = put j finished s.states }

pub record Worker : Type 0 where
  pub pc : Pc
  pub stopped : Bool

pub record System : Type 0 where
  pub pool : Pool
  pub workers : List Worker

-- A thread that is about to hold the pool's mutex.
unfoldable pub AtLock : Pc → Type 0
AtLock fresh = Unit
AtLock sleeping = Unit
AtLock (done j) = Unit
AtLock exited = ⊥
AtLock (in_run j) = ⊥

-- A step of a thread of the pool, or `stop` on it.
pub data Move (s : Pool) : Worker → Pool → Worker → Type 0 where
  take_turn :
      (pc : Pc) (b : Bool)
      → AtLock pc
      → Move s
          (record { pc = pc; stopped = b })
          (turn b pc s).0
          (record { pc = (turn b pc s).1; stopped = b })
  end_job :
      (j : ℕ) (b : Bool)
      → Move s
          (record { pc = in_run j; stopped = b })
          (finish j s)
          (record { pc = done j; stopped = b })
  stop :
      (pc : Pc) (b : Bool)
      → Move s (record { pc = pc; stopped = b }) s (record { pc = pc; stopped = true })

unfoldable pub tally : (Pc → ℕ) → List Worker → ℕ
tally f [] = 0
tally f (w ∷ ws) = f w.pc + tally f ws

-- Whether a thread is in the `run` of `j`, or a pool says it is busy.
unfoldable pub runs : ℕ → Pc → ℕ
runs j (in_run k) = if k == j then 1 else 0
runs j fresh = 0
runs j sleeping = 0
runs j exited = 0
runs j (done k) = 0

unfoldable pub is_busy : Pc → ℕ
is_busy (in_run k) = 1
is_busy (done k) = 1
is_busy fresh = 0
is_busy sleeping = 0
is_busy exited = 0

-- A step of the system. The program starts a job only while it waits and runs nowhere, on a thread
-- of its own neither, and with a priority that is `Guaranteed` or not negative: `start` on a job
-- that waits would change its priority in place. A job on a thread of its own runs without a change
-- of its state, and ends.
pub data Step (sort : (ℕ → ℕ → Bool) → List ℕ → List ℕ) (s : System) : System → Type 0 where
  move :
      (before after : List Worker) (w : Worker) {pool : Pool} {w' : Worker}
      → s.workers ≡ before ++ w ∷ after
      → Move s.pool w pool w'
      → Step sort s (record { pool = pool; workers = before ++ w' ∷ after })
  call_start :
      (j p : ℕ)
      → (p < 2 ^ 31) ⊎ (p ≡ guaranteed)
      → count j s.pool.jobs + count j s.pool.own_threads + tally (runs j) s.workers ≡ 0
      → Step sort s (record s { pool = start sort j p s.pool })
  end_own : (j : ℕ) → Step sort s (record s { pool = end_own_thread j s.pool })
  call_remove : (j : ℕ) → Step sort s (record s { pool = (remove j s.pool).0 })
  call_clear : Step sort s (record s { pool = clear_backlog s.pool })
  add_thread :
      Step sort s (record s { workers = s.workers ++ record { pc = fresh; stopped = false } ∷ [] })

-- Of a job that was just made, and of the pool at first.
abbrev pub new_pool : Pool
new_pool = record {
  priority = λ j. 0;
  states = λ j. not_started;
  jobs = [];
  busy = 0;
  own_threads = [];
}

pub data Reach (sort : (ℕ → ℕ → Bool) → List ℕ → List ℕ) : System → Type 0 where
  begin : Reach sort (record { pool = new_pool; workers = [] })
  later : {s t : System} → Reach sort s → Step sort s t → Reach sort t
