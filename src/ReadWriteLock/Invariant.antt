-- ===== src/ReadWriteLock/Invariant.antt =====
-- What every step of the threads on a `ReadWriteLock` (rct/ReadWriteLock.cpp) keeps.
use rct.Prelude.{ℕ, ◌+◌, ◌≡◌, refl, Bool, true, false, List, [], ◌∷◌, ◌++◌, if◌then◌else◌, arith}
use rct.ReadWriteLock.{
  LockType, read, write, Lock, blocked, acquire, try_lock, unlock, Pc, idle, trying, asleep,
  holding, Move, start, wait, enter, time_out, wake, try_done, try_refused, release, waken,
  notified, System, Step, pick,
}

abbrev pub reader : Pc → ℕ
reader (holding read) = 1
reader _ = 0

abbrev pub writer : Pc → ℕ
writer (holding write) = 1
writer _ = 0

unfoldable pub tally : (Pc → ℕ) → List Pc → ℕ
tally w [] = 0
tally w (p ∷ ps) = w p + tally w ps

pub tally-append : (w : Pc → ℕ) (ps qs : List Pc) → tally w (ps ++ qs) ≡ tally w ps + tally w qs
unfolding tally
tally-append w [] qs = omega arith
tally-append w (p ∷ ps) qs = omega (arith, tally-append w ps qs)

-- The lock's fields say how many threads hold it, and how.
pub record Counts (l : Lock) (readers writers : ℕ) : Type 0 where
  pub counted : l.count ≡ readers + writers
  pub flagged : writers ≡ (if l.writing then 1 else 0)
  pub exclusive : l.writing ≡ true → readers ≡ 0

Move-Counts :
    {l l' : Lock} {p p' : Pc} {n : Bool} (r w : ℕ)
    → Move l p l' p' n
    → Counts l (r + reader p) (w + writer p)
    → Counts l' (r + reader p') (w + writer p')
unfolding blocked acquire try_lock unlock
Move-Counts r w (start t timed) c = c
Move-Counts r w (wait h) c = c
Move-Counts r w (enter {t = read} h k) c = ground arith
Move-Counts r w (enter {t = write} h k) c = ground arith
Move-Counts r w (time_out h) c = c
Move-Counts r w wake c = c
Move-Counts r w (try_done read h) c = ground arith
Move-Counts r w (try_done write h) c = ground arith
Move-Counts r w (try_refused read h) c = ground arith
Move-Counts r w (try_refused write h) c = ground arith
Move-Counts r w (release {t = read} h) c = ground arith
Move-Counts r w (release {t = write} h) c = ground arith

-- A step that notifies nobody leaves whoever is blocked blocked.
Move-blocked :
    {l l' : Lock} {p p' : Pc} {n : Bool} (r w : ℕ)
    → Move l p l' p' n
    → n ≡ false
    → Counts l r w
    → (t : LockType) → blocked t l ≡ true
    → blocked t l' ≡ true
unfolding blocked acquire try_lock unlock
Move-blocked r w (start _ timed) q c t h = h
Move-blocked r w (wait k) q c t h = h
Move-blocked r w (enter {t = read} j k) q c read h = ground arith
Move-blocked r w (enter {t = read} j k) q c write h = ground arith
Move-blocked r w (enter {t = write} j k) q c read h = ground arith
Move-blocked r w (enter {t = write} j k) q c write h = ground arith
Move-blocked r w (time_out k) q c t h = h
Move-blocked r w wake q c t h = h
Move-blocked r w (try_done read k) q c read h = ground arith
Move-blocked r w (try_done read k) q c write h = ground arith
Move-blocked r w (try_done write k) q c read h = ground arith
Move-blocked r w (try_done write k) q c write h = ground arith
Move-blocked r w (try_refused read k) q c read h = ground arith
Move-blocked r w (try_refused read k) q c write h = ground arith
Move-blocked r w (try_refused write k) q c read h = ground arith
Move-blocked r w (try_refused write k) q c write h = ground arith
Move-blocked r w (release k) q c read h = ground arith
Move-blocked r w (release k) q c write h = ground arith

-- A thread sleeps only while its test fails.
abbrev pub Sleeps : Lock → Pc → Type 0
Sleeps l (asleep t timed) = blocked t l ≡ true
Sleeps l idle = Unit
Sleeps l (trying t timed) = Unit
Sleeps l (holding t) = Unit

abbrev pub AllSleep : Lock → List Pc → Type 0
AllSleep l [] = Unit
AllSleep l (p ∷ ps) = Sleeps l p × AllSleep l ps

pub record Inv (s : System) : Type 0 where
  pub counts : Counts s.lock (tally reader s.threads) (tally writer s.threads)
  pub sleep : AllSleep s.lock s.threads

AllSleep-mono :
    (l l' : Lock) (ps : List Pc)
    → ((t : LockType) → blocked t l ≡ true → blocked t l' ≡ true)
    → AllSleep l ps
    → AllSleep l' ps
AllSleep-mono l l' [] f h = tt
AllSleep-mono l l' (asleep t timed ∷ ps) f h = (f t h.0, AllSleep-mono l l' ps f h.1)
AllSleep-mono l l' (idle ∷ ps) f h = (tt, AllSleep-mono l l' ps f h.1)
AllSleep-mono l l' (trying t timed ∷ ps) f h = (tt, AllSleep-mono l l' ps f h.1)
AllSleep-mono l l' (holding t ∷ ps) f h = (tt, AllSleep-mono l l' ps f h.1)

AllSleep-replace :
    (l : Lock) (ps : List Pc) (p q : Pc) (qs : List Pc)
    → Sleeps l q
    → AllSleep l (ps ++ p ∷ qs)
    → AllSleep l (ps ++ q ∷ qs)
AllSleep-replace l [] p q qs k h = (k, h.1)
AllSleep-replace l (x ∷ ps) p q qs k h = (h.0, AllSleep-replace l ps p q qs k h.1)

-- After `notify_all` nobody sleeps.
AllSleep-notified : (l : Lock) (ps : List Pc) → AllSleep l (notified true ps)
unfolding notified
AllSleep-notified l [] = tt
AllSleep-notified l (asleep t timed ∷ ps) = (tt, AllSleep-notified l ps)
AllSleep-notified l (idle ∷ ps) = (tt, AllSleep-notified l ps)
AllSleep-notified l (trying t timed ∷ ps) = (tt, AllSleep-notified l ps)
AllSleep-notified l (holding t ∷ ps) = (tt, AllSleep-notified l ps)

tally-notified :
    (w : Pc → ℕ) (n : Bool) (ps : List Pc)
    → ((p : Pc) → w (waken p) ≡ w p)
    → tally w (notified n ps) ≡ tally w ps
unfolding notified tally
tally-notified w false ps h = refl
tally-notified w true [] h = refl
tally-notified w true (p ∷ ps) h = omega (arith, h p, tally-notified w true ps h)

reader-waken : (p : Pc) → reader (waken p) ≡ reader p
reader-waken idle = refl
reader-waken (trying t timed) = refl
reader-waken (asleep t timed) = refl
reader-waken (holding t) = refl

writer-waken : (p : Pc) → writer (waken p) ≡ writer p
writer-waken idle = refl
writer-waken (trying t timed) = refl
writer-waken (asleep t timed) = refl
writer-waken (holding t) = refl

-- A thread that goes to sleep does so because its test fails.
Move-Sleeps : {l l' : Lock} {p p' : Pc} {n : Bool} → Move l p l' p' n → Sleeps l' p'
Move-Sleeps (start t timed) = tt
Move-Sleeps (wait h) = h
Move-Sleeps (enter h k) = tt
Move-Sleeps (time_out h) = tt
Move-Sleeps wake = tt
Move-Sleeps (try_done t h) = tt
Move-Sleeps (try_refused t h) = tt
Move-Sleeps (release h) = tt

Move-AllSleep :
    {l l' : Lock} {p p' : Pc} (n : Bool) (ps qs : List Pc) (r w : ℕ)
    → Move l p l' p' n
    → Counts l r w
    → AllSleep l (ps ++ p ∷ qs)
    → AllSleep l' (notified n (ps ++ p' ∷ qs))
unfolding notified
Move-AllSleep {l'} {p'} true ps qs r w m c h = AllSleep-notified l' (ps ++ p' ∷ qs)
Move-AllSleep {l} {l'} {p} {p'} false ps qs r w m c h =
    AllSleep-replace l' ps p p' qs (Move-Sleeps m)
      (AllSleep-mono l l' (ps ++ p ∷ qs) (Move-blocked r w m refl c) h)

middle :
    (w : Pc → ℕ) (ps : List Pc) (p : Pc) (qs : List Pc)
    → tally w (ps ++ p ∷ qs) ≡ tally w ps + tally w qs + w p
unfolding tally
middle w ps p qs = omega (arith, tally-append w ps (p ∷ qs))

pub Step-Inv : {s t : System} → Step s t → Inv s → Inv t
Step-Inv {s} (pick ps qs p {l'} {p'} {notify} e m) inv =
    let rest = λ (w : Pc → ℕ). tally w ps + tally w qs in
    let before : Counts s.lock (rest reader + reader p) (rest writer + writer p) =
      rw (← middle reader ps p qs, ← middle writer ps p qs, ← e) inv.counts in
    let after = Move-Counts (rest reader) (rest writer) m before in
    record {
      counts =
          rw
            (
              tally-notified reader notify (ps ++ p' ∷ qs) reader-waken,
              tally-notified writer notify (ps ++ p' ∷ qs) writer-waken,
              middle reader ps p' qs,
              middle writer ps p' qs,
            )
            after;
      sleep = Move-AllSleep notify ps qs _ _ m inv.counts (rw (← e) inv.sleep);
    }
