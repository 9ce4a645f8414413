-- ===== src/EventLoop.antt =====
-- rct/EventLoop.h and rct/EventLoop.cpp: the timers of an event loop.
pub mod Ids
pub mod Order
pub mod Invariant
pub mod Pending
pub mod Rounds
pub mod Due
pub mod Posted
mod Tests
use rct.Prelude.{
  ℕ, zero, suc, ◌+◌, ◌-◌, ◌%◌, ◌^◌, Bool, true, false, not, List, [], ◌∷◌, ◌++◌, Option, none, some,
  and_then, if◌then◌else◌, ltb, ◌==◌, put,
}
use rct.Prelude.Words.{sub_size, add_size}

-- The timers by their ids, which stand for the pointers: `when`, the flag `SingleShot` and
-- `interval` of each; `mTimersByTime`, `mTimersById` and `mNextTimerId`. An `int` is the 64-bit
-- number that it is converted to.
pub record Timers : Type 0 where
  pub when : ℕ → ℕ
  pub single_shot : ℕ → Bool
  pub interval : ℕ → ℕ
  pub by_time : List ℕ
  pub by_id : List ℕ
  pub next_id : ℕ

abbrev pub id_mod : ℕ
id_mod = 0x1_0000_0000

unfoldable pub contains : ℕ → List ℕ → Bool
contains j [] = false
contains j (k ∷ ks) = if k == j then true else contains j ks

-- `std::multiset::insert`: behind those of the same time.
unfoldable pub insert_time : (ℕ → ℕ) → ℕ → List ℕ → List ℕ
insert_time when j [] = j ∷ []
insert_time when j (k ∷ ks) =
    if ltb (when j) (when k) then j ∷ k ∷ ks else k ∷ insert_time when j ks

-- `erase` at an iterator, and by a key that is there once.
unfoldable pub erase : ℕ → List ℕ → List ℕ
erase j [] = []
erase j (k ∷ ks) = if k == j then ks else k ∷ erase j ks

-- The `do` loop of `registerTimer`; `none` is the end of the fuel.
unfoldable pub fresh_id : ℕ → ℕ → List ℕ → Option ℕ
fresh_id zero next ids = none
fresh_id (suc fuel) next ids =
    let id = (next + 1) % id_mod in
    let rest = fresh_id fuel id ids in if contains id ids then rest else some id

unfoldable pub count_ids : List ℕ → ℕ
count_ids [] = 0
count_ids (k ∷ ks) = count_ids ks + 1

-- `registerTimer` at the time `now`, from the id that its loop has found.
unfoldable pub add_timer : ℕ → ℕ → ℕ → Bool → Timers → Timers
add_timer now timeout id single s =
    let when = put id (add_size now timeout) s.when in
    record {
      when = when;
      single_shot = put id single s.single_shot;
      interval = put id timeout s.interval;
      by_time = insert_time when id s.by_time;
      by_id = id ∷ s.by_id;
      next_id = id;
    }

unfoldable pub register_timer : ℕ → ℕ → Bool → Timers → Option (ℕ × Timers)
register_timer now timeout single s =
    and_then (fresh_id (count_ids s.by_id + 1) s.next_id s.by_id)
      (λ id. some (id, add_timer now timeout id single s))

-- The search of `clearTimer` in the range of the same time; `none` is the call of `abort`.
unfoldable pub erase_in_range : (ℕ → ℕ) → ℕ → List ℕ → Option (List ℕ)
erase_in_range when j [] = none
erase_in_range when j (k ∷ ks) =
    let rest = and_then (erase_in_range when j ks) (λ r. some (k ∷ r)) in
    if ltb (when k) (when j)
    then rest
    else if ltb (when j) (when k)
    then none
    else if k == j
    then some ks
    else rest

unfoldable pub clear_timer : ℕ → Timers → Option Timers
clear_timer id s =
    if contains id s.by_id
    then and_then (erase_in_range s.when id s.by_time)
        (λ times. some (record s { by_time = times; by_id = erase id s.by_id }))
    else some s

-- The first timer that has not fired in this round.
unfoldable pub first_pending : List ℕ → List ℕ → Option ℕ
first_pending fired [] = none
first_pending fired (k ∷ ks) = if contains k fired then first_pending fired ks else some k

-- What `sendTimers` does to a timer before its callback.
unfoldable pub fire : ℕ → ℕ → Timers → Timers
fire now j s =
    if s.single_shot j
    then record s { by_time = erase j s.by_time; by_id = erase j s.by_id }
    else (let overtime = sub_size now (s.when j) in
        let when = put j (add_size (sub_size now overtime) (s.interval j)) s.when in
        record s { when = when; by_time = insert_time when j (erase j s.by_time) })

-- The timer that fires next, if one is due.
unfoldable pub next_due : ℕ → List ℕ → Timers → Option ℕ
next_due now fired s =
    and_then (first_pending fired s.by_time) (λ j. if ltb now (s.when j) then none else some j)

-- The loop of `sendTimers`: the ids that fired, the latest one first, and the timers. A callback
-- may change the timers, through the two methods above: `react` says how. `none` is the end of the
-- fuel.
unfoldable pub send_loop :
    ℕ → (ℕ → Timers → Timers) → ℕ → List ℕ → Timers → Option (List ℕ × Timers)
send_loop zero react now fired s = none
send_loop (suc fuel) react now fired s = elim (next_due now fired s) [
  | none ↦ some (fired, s)
  | some j ↦ send_loop fuel react now (j ∷ fired) (react j (fire now j s))
]

-- `sendTimers`, and what it returns.
unfoldable pub send_timers : ℕ → (ℕ → Timers → Timers) → ℕ → Timers → Option (List ℕ × Timers)
send_timers fuel react now s = send_loop fuel react now [] s

-- `cleanup`, as far as timers go.
unfoldable pub cleanup : Timers → Timers
cleanup s = record s { by_time = []; by_id = []; next_id = 0 }
