-- ===== src/ThreadPool/Invariant.antt =====
-- What every step of a `ThreadPool` (rct/ThreadPool.cpp) and of its threads keeps.
use rct.Prelude.{
  put, count, count-one, put_here, put_there, ℕ, ◌+◌, ◌-◌, ◌^◌, ◌<◌, ◌≤◌, ◌≡◌, refl, sym, ◌∙◌, Bool,
  true, false, List, [], ◌∷◌, ◌==◌, eq_true, eq_false, eq_of, Bool-cases, ◌⊎◌, inl, inr, arith,
}
use rct.ThreadPool.{
  State, running, finished, Pool, guaranteed, start, erase, contains, remove, end_own_thread,
  clear_backlog, Pc, fresh, sleeping, exited, in_run, done, run_head, run_test, finish, AtLock,
  runs, is_busy,
}
use rct.ThreadPool.Queue.{
  Under, Descending, Sorts, Under-put, Descending-put, count-enqueue, enqueue-Descending,
  enqueue-Under,
}

-- The pool, beside threads of which `runs j` run the job `j` and `busy` are busy.
pub record Good (s : Pool) (active : ℕ → ℕ) (busy : ℕ) : Type 0 where
  pub ordered : Descending s.priority s.jobs
  pub bounded : Under s.priority (2 ^ 31 - 1) s.jobs
  pub once : (j : ℕ) → count j s.jobs + count j s.own_threads + active j ≤ 1
  pub idle : (j : ℕ) → active j ≡ 0 → ¬ (s.states j ≡ running)
  pub works : (j : ℕ) → 0 < active j → s.states j ≡ running
  pub counted : s.busy ≡ busy

ne_guaranteed : (p : ℕ) → p < 2 ^ 31 → ¬ (p ≡ guaranteed)
ne_guaranteed p h e = omega (arith, h, e)

pub start-Good :
    {sort : (ℕ → ℕ → Bool) → List ℕ → List ℕ}
    → Sorts sort
    → (s : Pool) (active : ℕ → ℕ) (busy j p : ℕ) → (p < 2 ^ 31) ⊎ (p ≡ guaranteed)
    → count j s.jobs + count j s.own_threads + active j ≡ 0
    → Good s active busy
    → Good (start sort j p s) active busy
unfolding start count
start-Good {sort} sorts s active busy j p (inl h) e g =
    let key = put j p s.priority in
    let unqueued : count j s.jobs ≡ 0 = omega (arith, e) in
    let small : key j < 2 ^ 31 = rw (put_here j p s.priority) h in
    let under = Under-put s.priority (2 ^ 31 - 1) s.jobs j p unqueued g.bounded in
    rw (eq_false (ne_guaranteed p h)) (record {
      ordered =
          enqueue-Descending sort sorts key j s.jobs small under
            (Descending-put s.priority s.jobs j p unqueued g.ordered);
      bounded = enqueue-Under sort sorts key (2 ^ 31 - 1) j s.jobs (omega (arith, small)) under;
      once = λ k. elim (Bool-cases (j == k)) [
        | inl t ↦
            let f : count k s.jobs + count k s.own_threads + active k ≡ 0 = rw (← eq_of j k t) e in
            ground (arith, f, t, count-one k j, count-enqueue sort sorts key j k s.jobs)
        | inr t ↦
            ground (arith, t, g.once k, count-one k j, count-enqueue sort sorts key j k s.jobs)
      ];
      idle = g.idle;
      works = g.works;
      counted = g.counted;
    })
start-Good {sort} sorts s active busy j p (inr h) e g = rw (eq_true h) (record {
  ordered = Descending-put s.priority s.jobs j p (omega (arith, e)) g.ordered;
  bounded = Under-put s.priority (2 ^ 31 - 1) s.jobs j p (omega (arith, e)) g.bounded;
  once = λ k. elim (Bool-cases (j == k)) [
    | inl t ↦
        let f : count k s.jobs + count k s.own_threads + active k ≡ 0 = rw (← eq_of j k t) e in
        ground (arith, f, t)
    | inr t ↦ ground (arith, t, g.once k)
  ];
  idle = g.idle;
  works = g.works;
  counted = g.counted;
})

erase-Under : (key : ℕ → ℕ) (b j : ℕ) (xs : List ℕ) → Under key b xs → Under key b (erase j xs)
unfolding erase Under
erase-Under key b j [] u = tt
erase-Under key b j (x ∷ xs) u = elim (Bool-cases (x == j)) [
  | inl t ↦ rw (t) u.1
  | inr t ↦ rw (t) ((u.0, erase-Under key b j xs u.1))
]

erase-Descending :
    (key : ℕ → ℕ) (j : ℕ) (xs : List ℕ) → Descending key xs → Descending key (erase j xs)
unfolding erase Descending
erase-Descending key j [] d = tt
erase-Descending key j (x ∷ xs) d = elim (Bool-cases (x == j)) [
  | inl t ↦ rw (t) d.1
  | inr t ↦ rw (t) ((erase-Under key (key x) j xs d.0, erase-Descending key j xs d.1))
]

count-erase : (k j : ℕ) (xs : List ℕ) → count k (erase j xs) ≤ count k xs
unfolding erase count
count-erase k j [] = omega arith
count-erase k j (x ∷ xs) = elim (Bool-cases (x == j)) [
  | inl t ↦ rw (t) (omega arith)
  | inr t ↦ rw (t) (omega (arith, count-erase k j xs))
]

pub remove-Good :
    (s : Pool) (active : ℕ → ℕ) (busy j : ℕ) → Good s active busy → Good (remove j s).0 active busy
unfolding remove
remove-Good s active busy j g = elim (Bool-cases (contains j s.jobs)) [
  | inl t ↦ rw (t) (record {
    ordered = erase-Descending s.priority j s.jobs g.ordered;
    bounded = erase-Under s.priority (2 ^ 31 - 1) j s.jobs g.bounded;
    once = λ k. omega (arith, g.once k, count-erase k j s.jobs);
    idle = g.idle;
    works = g.works;
    counted = g.counted;
  })
  | inr t ↦ rw (t) g
]

pub end_own-Good :
    (s : Pool) (active : ℕ → ℕ) (busy j : ℕ)
    → Good s active busy
    → Good (end_own_thread j s) active busy
unfolding end_own_thread
end_own-Good s active busy j g = record {
  ordered = g.ordered;
  bounded = g.bounded;
  once = λ k. omega (arith, g.once k, count-erase k j s.own_threads);
  idle = g.idle;
  works = g.works;
  counted = g.counted;
}

pub clear-Good :
    (s : Pool) (active : ℕ → ℕ) (busy : ℕ) → Good s active busy → Good (clear_backlog s) active busy
unfolding clear_backlog Descending Under count
clear-Good s active busy g = record {
  ordered = tt;
  bounded = tt;
  once = λ j. omega (arith, g.once j);
  idle = g.idle;
  works = g.works;
  counted = g.counted;
}

-- A job's state does not change by another one's.
put-else :
    (j k : ℕ) (x : State) (f : ℕ → State) {y : State} → (j == k) ≡ false → f k ≡ y → put j x f k ≡ y
put-else j k x f h e = put_there j x f k (ground arith) ∙ e

not_finished : ¬ (finished ≡ running)
not_finished e = cc e

pub finish-Good :
    (s : Pool) (active : ℕ → ℕ) (busy j : ℕ)
    → Good s (λ k. active k + runs k (in_run j)) busy
    → Good (finish j s) active busy
unfolding finish runs
finish-Good s active busy j g = record {
  ordered = g.ordered;
  bounded = g.bounded;
  once = λ k. omega (arith, g.once k);
  idle = λ k q r. elim (Bool-cases (j == k)) [
    | inl t ↦ not_finished (sym (rw (← eq_of j k t) (put_here j finished s.states)) ∙ r)
    | inr t ↦
        g.idle k (ground (arith, q, t))
          (sym (put_there j finished s.states k (ground (arith, t))) ∙ r)
  ];
  works = λ k q.
      put-else j k finished s.states (ground (arith, g.once k)) (g.works k (omega (arith, q)));
  counted = g.counted;
}

-- What `run_head` does to the number of busy threads.
pub run_head_lem : (pc : Pc) (b : ℕ) → AtLock pc → run_head pc (b + is_busy pc) ≡ b
unfolding AtLock run_head is_busy
run_head_lem fresh b h = omega arith
run_head_lem sleeping b h = omega arith
run_head_lem (done j) b h = omega arith
run_head_lem exited b h = elim h [ ]
run_head_lem (in_run j) b h = elim h [ ]

pub AtLock-runs : (pc : Pc) (j : ℕ) → AtLock pc → runs j pc ≡ 0
unfolding AtLock runs
AtLock-runs fresh j h = refl
AtLock-runs sleeping j h = refl
AtLock-runs (done k) j h = refl
AtLock-runs exited j h = elim h [ ]
AtLock-runs (in_run k) j h = elim h [ ]

unchanged :
    (s : Pool) (active : ℕ → ℕ) (busy : ℕ)
    → Good s active busy
    → Good s (λ j. active j + 0) (busy + 0)
unchanged s active busy g = record {
  ordered = g.ordered;
  bounded = g.bounded;
  once = λ j. omega (arith, g.once j);
  idle = λ j q. g.idle j (omega (arith, q));
  works = λ j q. g.works j (omega (arith, q));
  counted = omega (arith, g.counted);
}

same_jobs :
    (s : Pool) (active : ℕ → ℕ) (busy : ℕ) (js : List ℕ)
    → s.jobs ≡ js
    → Good s active busy
    → Good (record s { jobs = js }) active busy
same_jobs s active busy js e g = record {
  ordered = rw (← e) g.ordered;
  bounded = rw (← e) g.bounded;
  once = rw (← e) g.once;
  idle = g.idle;
  works = g.works;
  counted = g.counted;
}

pub run_test-Good :
    (s : Pool) (active : ℕ → ℕ) (busy : ℕ) (b : Bool) (js : List ℕ)
    → s.jobs ≡ js
    → Good s active busy
    → Good
        (run_test b js s).0
        (λ j. active j + runs j (run_test b js s).1)
        (busy + is_busy (run_test b js s).1)
unfolding run_test runs is_busy count Descending Under
run_test-Good s active busy true js e g = unchanged s active busy g
run_test-Good s active busy false [] e g = unchanged s active busy g
run_test-Good s active busy false (j ∷ js) e g =
    let front = same_jobs s active busy (j ∷ js) e g in
    record {
      ordered = front.ordered.1;
      bounded = front.bounded.1;
      once = λ k. omega (arith, front.once k);
      idle = λ k q r. elim (Bool-cases (j == k)) [
        | inl t ↦ absurd (ground (arith, q, t))
        | inr t ↦
            front.idle k (ground (arith, q, t))
              (sym (put_there j running s.states k (ground (arith, t))) ∙ r)
      ];
      works = λ k q. elim (Bool-cases (j == k)) [
        | inl t ↦ rw (← eq_of j k t) (put_here j running s.states)
        | inr t ↦ put-else j k running s.states t (g.works k (ground (arith, q, t)))
      ];
      counted = omega (arith, g.counted);
    }
