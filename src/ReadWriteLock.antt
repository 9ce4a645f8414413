-- ===== src/ReadWriteLock.antt =====
-- rct/ReadWriteLock.cpp: a lock for many readers or one writer, and the threads that use it.
pub mod Invariant
pub mod Safety
mod Tests
use rct.Prelude.{
  ℕ, ◌+◌, ◌-◌, ◌<◌, ◌≡◌, Bool, true, false, not, ◌&&◌, List, [], ◌∷◌, ◌++◌, Option, none, some,
  if◌then◌else◌, ltb, ◌==◌,
}

pub data LockType : Type 0 where
  read write : LockType

-- `mCount` and `mWrite`; the mutex makes each method below one step, except for the wait.
pub record Lock : Type 0 where
  pub count : ℕ
  pub writing : Bool

abbrev pub free : Lock
free = record { count = 0; writing = false }

-- The test of the `while` loop in `lock`.
unfoldable pub blocked : LockType → Lock → Bool
blocked read l = l.writing
blocked write l = not (l.count == 0)

-- What `lock` does behind its loop; `none` is the failed assertion `!mWrite`.
unfoldable pub acquire : LockType → Lock → Option Lock
acquire read l = some (record l { count = l.count + 1 })
acquire write l = if l.writing then none else some (record { count = 1; writing = true })

-- `tryLock`; the assertion is `!mWrite && !mCount`.
unfoldable pub try_lock : LockType → Lock → Option (Lock × Bool)
try_lock read l =
    if l.writing then some (l, false) else some (record l { count = l.count + 1 }, true)
try_lock write l =
    if ltb 0 l.count
    then some (l, false)
    else if not (not l.writing && l.count == 0)
    then none
    else some (record { count = 1; writing = true }, true)

-- `unlock`, and whether it calls `notify_all`; `none` is one of its failed assertions.
unfoldable pub unlock : Lock → Option (Lock × Bool)
unlock l =
    if not (ltb 0 l.count)
    then none
    else if ltb 1 l.count
    then if l.writing then none else some (record l { count = l.count - 1 }, false)
    else some (record { count = l.count - 1; writing = false }, true)

-- Where a thread stands: outside, before a test of the loop, asleep in `mCond`, or in possession.
-- The flag says whether `lock` was called with a time limit.
pub data Pc : Type 0 where
  idle : Pc
  trying : LockType → Bool → Pc
  asleep : LockType → Bool → Pc
  holding : LockType → Pc

-- A step of one thread. Only a thread that holds the lock calls `unlock`. The index says whether
-- all sleepers are notified.
pub data Move (l : Lock) : Pc → Lock → Pc → Bool → Type 0 where
  start : (t : LockType) (timed : Bool) → Move l idle l (trying t timed) false
  wait :
      {t : LockType} {timed : Bool}
      → blocked t l ≡ true
      → Move l (trying t timed) l (asleep t timed) false
  enter :
      {t : LockType} {timed : Bool} {l' : Lock}
      → blocked t l ≡ false
      → acquire t l ≡ some l'
      → Move l (trying t timed) l' (holding t) false
  time_out : {t : LockType} {timed : Bool} → timed ≡ true → Move l (asleep t timed) l idle false
  wake : {t : LockType} {timed : Bool} → Move l (asleep t timed) l (trying t timed) false
  try_done :
      (t : LockType) {l' : Lock} → try_lock t l ≡ some (l', true) → Move l idle l' (holding t) false
  try_refused :
      (t : LockType) {l' : Lock} → try_lock t l ≡ some (l', false) → Move l idle l' idle false
  release :
      {t : LockType} {l' : Lock} {notify : Bool}
      → unlock l ≡ some (l', notify)
      → Move l (holding t) l' idle notify

abbrev pub waken : Pc → Pc
waken (asleep t timed) = trying t timed
waken idle = idle
waken (trying t timed) = trying t timed
waken (holding t) = holding t

unfoldable pub notified : Bool → List Pc → List Pc
notified false ps = ps
notified true [] = []
notified true (p ∷ ps) = waken p ∷ notified true ps

pub record System : Type 0 where
  pub lock : Lock
  pub threads : List Pc

pub data Step (s : System) : System → Type 0 where
  pick :
      (before after : List Pc) (p : Pc) {l' : Lock} {p' : Pc} {notify : Bool}
      → s.threads ≡ before ++ p ∷ after
      → Move s.lock p l' p' notify
      → Step s (record { lock = l'; threads = notified notify (before ++ p' ∷ after) })

-- Threads that have not called anything yet.
unfoldable pub AllIdle : List Pc → Type 0
AllIdle [] = Unit
AllIdle (p ∷ ps) = (p ≡ idle) × AllIdle ps

pub data Reach : System → Type 0 where
  begin : (ps : List Pc) → AllIdle ps → Reach (record { lock = free; threads = ps })
  later : {s t : System} → Reach s → Step s t → Reach t
