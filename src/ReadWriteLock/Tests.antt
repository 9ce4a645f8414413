-- ===== src/ReadWriteLock/Tests.antt =====
-- Runs of three threads on a `ReadWriteLock` (rct/ReadWriteLock.cpp).
use rct.Prelude.{◌+◌, ◌<◌, ◌≤◌, ◌≡◌, refl, true, false, List, [], ◌∷◌, ◌++◌, none}
use rct.ReadWriteLock.{
  LockType, read, write, blocked, acquire, try_lock, unlock, Pc, idle, trying, asleep, holding,
  notified, start, wait, try_done, System, pick, Reach, begin, later, AllIdle,
}
use rct.ReadWriteLock.Invariant.{reader, writer, tally}
use rct.ReadWriteLock.Safety.{Reach-exclusive, Reach-asleep, Reach-asserts}

-- The first thread holds the lock for writing, the second one sleeps.
abbrev state : System
state = record {
  lock = record { count = 1; writing = true };
  threads = holding write ∷ asleep read false ∷ [];
}

state-Reach : Reach state
unfolding AllIdle notified blocked try_lock
state-Reach =
    later
      (later
        (later (begin (idle ∷ idle ∷ []) (refl, (refl, tt)))
          (pick [] (idle ∷ []) idle refl (try_done write refl)))
        (pick (holding write ∷ []) [] idle refl (start read false)))
      (pick (holding write ∷ []) [] (trying read false) refl (wait refl))

Reach-exclusive_example :
    (tally writer state.threads ≤ 1)
    × (tally writer state.threads ≡ 1 → tally reader state.threads ≡ 0)
Reach-exclusive_example = Reach-exclusive state-Reach

Reach-asleep_example : 0 < tally reader state.threads + tally writer state.threads
Reach-asleep_example = Reach-asleep state-Reach (holding write ∷ []) read false [] refl

Reach-asserts_example :
    ((ps : List Pc) (t : LockType) (qs : List Pc)
      → state.threads ≡ ps ++ holding t ∷ qs
      → ¬ (unlock state.lock ≡ none))
    × ((t : LockType) → blocked t state.lock ≡ false → ¬ (acquire t state.lock ≡ none))
Reach-asserts_example = Reach-asserts state-Reach
