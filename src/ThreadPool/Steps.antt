-- ===== src/ThreadPool/Steps.antt =====
-- The steps of a `ThreadPool` (rct/ThreadPool.cpp) keep its invariant.
use rct.Prelude.{count, ℕ, ◌+◌, ◌≡◌, refl, sym, ap, ◌∙◌, Bool, false, List, [], ◌∷◌, ◌++◌, arith}
use rct.ThreadPool.{
  not_started, running, Pool, Pc, fresh, run_head, turn, finish, Worker, System, AtLock, Move,
  take_turn, end_job, stop, tally, runs, is_busy, Step, move, call_start, call_remove, call_clear,
  end_own, add_thread, Reach, begin, later,
}
use rct.ThreadPool.Invariant.{
  Good, start-Good, run_test-Good, remove-Good, end_own-Good, clear-Good, finish-Good, run_head_lem,
  AtLock-runs,
}
use rct.ThreadPool.Queue.{Under, Descending, Sorts}

turn-Good :
    (s : Pool) (active : ℕ → ℕ) (busy : ℕ) (b : Bool) (pc : Pc)
    → AtLock pc
    → Good s (λ j. active j + runs j pc) (busy + is_busy pc)
    → Good (turn b pc s).0 (λ j. active j + runs j (turn b pc s).1) (busy + is_busy (turn b pc s).1)
unfolding turn
turn-Good s active busy b pc h g =
    run_test-Good (record s { busy = run_head pc s.busy }) active busy b s.jobs refl
      (record {
        ordered = g.ordered;
        bounded = g.bounded;
        once = λ j. omega (arith, g.once j);
        idle = λ j q. g.idle j (omega (arith, q, AtLock-runs pc j h));
        works = λ j q. g.works j (omega (arith, q));
        counted = rw (g.counted) (run_head_lem pc busy h);
      })

-- The two numbers in another shape.
Good-same :
    (s : Pool) (f g : ℕ → ℕ) (a b : ℕ) → ((j : ℕ) → f j ≡ g j) → a ≡ b → Good s f a → Good s g b
Good-same s f g a b h e k = record {
  ordered = k.ordered;
  bounded = k.bounded;
  once = λ j. omega (arith, k.once j, h j);
  idle = λ j q. k.idle j (omega (arith, q, h j));
  works = λ j q. k.works j (omega (arith, q, h j));
  counted = k.counted ∙ e;
}

Move-Good :
    {s s' : Pool} {w w' : Worker} (active : ℕ → ℕ) (busy : ℕ)
    → Move s w s' w'
    → Good s (λ j. active j + runs j w.pc) (busy + is_busy w.pc)
    → Good s' (λ j. active j + runs j w'.pc) (busy + is_busy w'.pc)
unfolding runs is_busy
Move-Good {s} active busy (take_turn pc b h) g = turn-Good s active busy b pc h g
Move-Good {s} active busy (end_job j b) g =
    Good-same (finish j s) active _ _ _ (λ k. omega arith) refl (finish-Good s active _ j g)
Move-Good active busy (stop pc b) g = g

pub tally-append : (f : Pc → ℕ) (vs ws : List Worker) → tally f (vs ++ ws) ≡ tally f vs + tally f ws
unfolding tally
tally-append f [] ws = omega arith
tally-append f (v ∷ vs) ws = omega (arith, tally-append f vs ws)

middle :
    (f : Pc → ℕ) (vs : List Worker) (w : Worker) (ws : List Worker)
    → tally f (vs ++ w ∷ ws) ≡ tally f vs + tally f ws + f w.pc
unfolding tally
middle f vs w ws = omega (arith, tally-append f vs (w ∷ ws))

unfoldable pub Inv : System → Type 0
Inv s = Good s.pool (λ j. tally (runs j) s.workers) (tally is_busy s.workers)

one_fresh : (f : Pc → ℕ) → f fresh ≡ 0 → tally f (record { pc = fresh; stopped = false } ∷ []) ≡ 0
unfolding tally
one_fresh f h = omega (arith, h)

pub Step-Inv :
    {sort : (ℕ → ℕ → Bool) → List ℕ → List ℕ} {s t : System}
    → Sorts sort
    → Step sort s t
    → Inv s
    → Inv t
unfolding Inv runs is_busy
Step-Inv {s} sorts (move vs ws w {pool} {w'} e m) g =
    let before =
      Good-same s.pool _ _ _ _ (λ j. ap (tally (runs j)) e ∙ middle (runs j) vs w ws)
        (ap (tally is_busy) e ∙ middle is_busy vs w ws) g in
    Good-same pool _ _ _ _ (λ j. sym (middle (runs j) vs w' ws)) (sym (middle is_busy vs w' ws))
      (Move-Good _ _ m before)
Step-Inv {s} sorts (call_start j p h e) g = start-Good sorts s.pool _ _ j p h e g
Step-Inv {s} sorts (end_own j) g = end_own-Good s.pool _ _ j g
Step-Inv {s} sorts (call_remove j) g = remove-Good s.pool _ _ j g
Step-Inv {s} sorts call_clear g = clear-Good s.pool _ _ g
Step-Inv {s} sorts add_thread g =
    Good-same s.pool _ _ _ _
      (λ j. omega (
        arith,
        tally-append (runs j) s.workers (record { pc = fresh; stopped = false } ∷ []),
        one_fresh (runs j) refl,
      ))
      (omega (
        arith,
        tally-append is_busy s.workers (record { pc = fresh; stopped = false } ∷ []),
        one_fresh is_busy refl,
      ))
      g

not_running : ¬ (not_started ≡ running)
not_running e = cc e

pub Reach-Inv :
    {sort : (ℕ → ℕ → Bool) → List ℕ → List ℕ} {s : System} → Sorts sort → Reach sort s → Inv s
unfolding Inv Descending Under count tally
Reach-Inv sorts begin = record {
  ordered = tt;
  bounded = tt;
  once = λ j. omega arith;
  idle = λ j h r. not_running r;
  works = λ j h. ground arith;
  counted = refl;
}
Reach-Inv sorts (later r k) = Step-Inv sorts k (Reach-Inv sorts r)
