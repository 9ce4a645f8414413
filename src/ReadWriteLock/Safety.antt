-- ===== src/ReadWriteLock/Safety.antt =====
-- What holds in every state that threads on a `ReadWriteLock` (rct/ReadWriteLock.cpp) reach.
use rct.Prelude.{
  ℕ, ◌+◌, ◌<◌, ◌≤◌, ◌≡◌, refl, ap, Bool, true, false, List, [], ◌∷◌, ◌++◌, none, arith,
}
use rct.ReadWriteLock.{
  LockType, read, write, Lock, free, blocked, acquire, unlock, Pc, idle, asleep, holding, System,
  Reach, begin, later, AllIdle,
}
use rct.ReadWriteLock.Invariant.{
  reader, writer, tally, tally-append, Counts, AllSleep, Inv, Step-Inv,
}

AllIdle-tally : (w : Pc → ℕ) (ps : List Pc) → w idle ≡ 0 → AllIdle ps → tally w ps ≡ 0
unfolding AllIdle tally
AllIdle-tally w [] e h = refl
AllIdle-tally w (p ∷ ps) e h = omega (arith, ap w h.0, e, AllIdle-tally w ps e h.1)

AllIdle-AllSleep : (l : Lock) (ps : List Pc) → AllIdle ps → AllSleep l ps
unfolding AllIdle
AllIdle-AllSleep l [] h = tt
AllIdle-AllSleep l (p ∷ ps) h = (rw (h.0) tt, AllIdle-AllSleep l ps h.1)

pub Reach-Inv : {s : System} → Reach s → Inv s
Reach-Inv (begin ps h) = record {
  counts =
      rw (AllIdle-tally reader ps refl h, AllIdle-tally writer ps refl h)
        (record { counted = refl; flagged = refl; exclusive = λ e. refl });
  sleep = AllIdle-AllSleep free ps h;
}
Reach-Inv (later r k) = Step-Inv k (Reach-Inv r)

exclusive : {l : Lock} {r w : ℕ} → Counts l r w → (w ≤ 1) × (w ≡ 1 → r ≡ 0)
exclusive c = (ground arith, λ e. ground arith)

-- In every state that threads reach, at most one holds the lock for writing, and none holds it
-- for reading beside a writer.
pub Reach-exclusive :
    {s : System}
    → Reach s
    → (tally writer s.threads ≤ 1) × (tally writer s.threads ≡ 1 → tally reader s.threads ≡ 0)
Reach-exclusive {s} r = exclusive (Reach-Inv r).counts

AllSleep-member :
    (l : Lock) (ps : List Pc) (t : LockType) (timed : Bool) (qs : List Pc)
    → AllSleep l (ps ++ asleep t timed ∷ qs)
    → blocked t l ≡ true
AllSleep-member l [] t timed qs h = h.0
AllSleep-member l (p ∷ ps) t timed qs h = AllSleep-member l ps t timed qs h.1

blocked-held : (t : LockType) {l : Lock} {r w : ℕ} → Counts l r w → blocked t l ≡ true → 0 < r + w
unfolding blocked
blocked-held read c h = ground arith
blocked-held write c h = ground arith

-- No wake-up is lost: in every state that threads reach, while one sleeps in `lock` another one
-- holds the lock, whose `unlock` is still to come.
pub Reach-asleep :
    {s : System}
    → Reach s
    → (ps : List Pc) (t : LockType) (timed : Bool) (qs : List Pc)
    → s.threads ≡ ps ++ asleep t timed ∷ qs
    → 0 < tally reader s.threads + tally writer s.threads
Reach-asleep {s} r ps t timed qs e =
    let inv = Reach-Inv r in
    blocked-held t inv.counts (AllSleep-member s.lock ps t timed qs (rw (← e) inv.sleep))

holding-held :
    (ps : List Pc) (t : LockType) (qs : List Pc)
    → 0 < tally reader (ps ++ holding t ∷ qs) + tally writer (ps ++ holding t ∷ qs)
unfolding tally
holding-held ps read qs = omega (arith, tally-append reader ps (holding read ∷ qs))
holding-held ps write qs = omega (arith, tally-append writer ps (holding write ∷ qs))

unlock-held : {l : Lock} {r w : ℕ} → Counts l r w → 0 < r + w → ¬ (unlock l ≡ none)
unfolding unlock
unlock-held c h e = ground arith

acquire-unblocked :
    (t : LockType) {l : Lock} {r w : ℕ}
    → Counts l r w
    → blocked t l ≡ false
    → ¬ (acquire t l ≡ none)
unfolding blocked acquire
acquire-unblocked read c h e = ground arith
acquire-unblocked write c h e = ground arith

-- The assertions of `unlock` and of `lock` hold in every state that threads reach: a thread that
-- holds the lock can release it, and one whose test has passed acquires it.
pub Reach-asserts :
    {s : System}
    → Reach s
    → ((ps : List Pc) (t : LockType) (qs : List Pc)
        → s.threads ≡ ps ++ holding t ∷ qs
        → ¬ (unlock s.lock ≡ none))
      × ((t : LockType) → blocked t s.lock ≡ false → ¬ (acquire t s.lock ≡ none))
Reach-asserts {s} r =
    let c = (Reach-Inv r).counts in
    ((λ ps t qs e. unlock-held c (rw (e) (holding-held ps t qs))), (λ t. acquire-unblocked t c))
