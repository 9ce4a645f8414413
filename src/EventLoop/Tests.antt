-- ===== src/EventLoop/Tests.antt =====
-- Timers of an event loop (rct/EventLoop.cpp), concretely.
use rct.Prelude.{
  ℕ, zero, suc, ◌++◌, ◌<◌, ◌≤◌, ◌≡◌, refl, true, false, List, [], ◌∷◌, none, some, put, count,
  and_then, inl, inr, arith,
}
use rct.EventLoop.{
  Timers, contains, insert_time, erase, count_ids, clear_timer, send_timers, send_loop, next_due,
  first_pending, fire,
}
use rct.EventLoop.Pending.{pending, pending-erase-le}
use rct.EventLoop.Invariant.{IsValid, clear_timer-cases, clear_timer-IsValid}
use rct.EventLoop.Rounds.{Fires, send_timers-total}
use rct.EventLoop.Posted.{
  Loop, Posts, Ran, total, send_events, send_posted_events, send_posted_events-Ran,
}
use rct.EventLoop.Due.{quiet, send_timers-due}

-- One shot at 5, every 10 from 7, one shot at 100.
abbrev three : Timers
three = record {
  when = put 1 5 (put 2 7 (put 3 100 (λ j. 0)));
  single_shot = put 2 false (λ j. true);
  interval = λ j. 10;
  by_time = 1 ∷ 2 ∷ 3 ∷ [];
  by_id = 3 ∷ 2 ∷ 1 ∷ [];
  next_id = 3;
}

three-IsValid : IsValid three
unfolding count put
three-IsValid = record { ordered = omega arith; same = λ j. ground arith; once = λ j. ground arith }

-- A callback that unregisters the timer 2.
abbrev stop : ℕ → Timers → Timers
stop j s = elim (clear_timer 2 s) [ none ↦ s | some s' ↦ s' ]

stop-IsValid : (j : ℕ) (s : Timers) → IsValid s → IsValid (stop j s)
stop-IsValid j s v =
    let (s', e, new, there, valid) = clear_timer-IsValid 2 s v in rw (stop, e) valid

stop-pending :
    (fired : List ℕ) (j : ℕ) (s : Timers)
    → IsValid s
    → pending fired (stop j s).by_time ≤ pending fired s.by_time
stop-pending fired j s v = elim (clear_timer-cases 2 s v) [
  | inl (gone, e) ↦ rw (stop, e) (omega arith)
  | inr (there, e) ↦ rw (stop, e) (pending-erase-le fired 2 s.by_time)
]

send_timers-total_example :
    (fired : List ℕ) × (s' : Timers) × (send_timers 4 stop 8 three ≡ some (fired, s'))
    × Fires fired s'
    × (next_due 8 fired s' ≡ none)
unfolding count_ids
send_timers-total_example = send_timers-total stop 8 three stop-IsValid stop-pending three-IsValid

send_timers-due_example :
    (fired : List ℕ) × (s' : Timers) × (send_timers 4 quiet 8 three ≡ some (fired, s'))
    × IsValid s'
    × ((j : ℕ) → 0 < count j three.by_time → three.when j ≤ 8 → contains j fired ≡ true)
    × ((j : ℕ) → 8 < three.when j → contains j fired ≡ false)
unfolding count_ids
send_timers-due_example = send_timers-due 8 three three-IsValid

fires_in_order : and_then (send_timers 4 quiet 8 three) (λ r. some r.0) ≡ some (2 ∷ 1 ∷ [])
unfolding send_timers send_loop next_due first_pending fire quiet contains insert_time erase put
fires_in_order = refl

-- An event `n + 1` posts the event `n`.
abbrev next_events : ℕ → List ℕ
next_events zero = []
next_events (suc n) = n ∷ []

abbrev countdown : ℕ → Loop ℕ Unit → Loop ℕ Unit
countdown e s = record s { events = s.events ++ next_events e }

next_events-lighter : (e : ℕ) → total suc (next_events e) < suc e
unfolding total
next_events-lighter zero = omega arith
next_events-lighter (suc n) = omega arith

abbrev countdown_posts : Posts countdown
countdown_posts = record {
  posts = next_events;
  weight = suc;
  posted = λ e s. refl;
  lighter = next_events-lighter;
}

abbrev waiting : Loop ℕ Unit
waiting = record { events = 2 ∷ 1 ∷ []; stop = false; world = tt }

send_posted_events-Ran_example :
    (ran : List ℕ) × (s' : Loop ℕ Unit) × (send_posted_events 6 countdown waiting
      ≡ some (true, ran, s'))
    × Ran next_events waiting.events ran s'
unfolding total
send_posted_events-Ran_example =
    send_posted_events-Ran countdown countdown_posts 6 waiting (omega arith)

first_in_first_out :
    and_then (send_posted_events 6 countdown waiting) (λ r. some r.1)
    ≡ some (2 ∷ 1 ∷ 1 ∷ 0 ∷ 0 ∷ [])
unfolding send_posted_events send_events
first_in_first_out = refl
