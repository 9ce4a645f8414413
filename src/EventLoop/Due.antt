-- ===== src/EventLoop/Due.antt =====
-- Which timers fire in a round of `sendTimers` (rct/EventLoop.cpp).
use rct.Prelude.{
  ℕ, ◌+◌, ◌<◌, ◌≤◌, ◌≡◌, ◌≢◌, refl, sym, ◌∙◌, true, false, List, [], ◌∷◌, none, some, ◌==◌, eq_of,
  Bool-cases, inl, inr, put, put_ne, count, count-zero_head, count-cons_ne, arith,
}
use rct.Prelude.Words.{add_size, sub_size}
use rct.EventLoop.{Timers, contains, erase, count_ids, fire, next_due, send_timers}
use rct.EventLoop.Order.{contains-true, contains-false, count-erase, count-insert_time}
use rct.EventLoop.Pending.{pending, pending-bound}
use rct.EventLoop.Invariant.{IsValid, fire-IsValid}
use rct.EventLoop.Rounds.{next_due-some, next_due-none, send_loop-total}

-- What a callback does that leaves the timers alone.
unfoldable pub quiet : ℕ → Timers → Timers
quiet j s = s

-- A round of quiet callbacks, that began with `s`.
pub record Round (now : ℕ) (s : Timers) (fired : List ℕ) (s' : Timers) : Type 0 where
  pub valid : IsValid s'
  pub kept :
      (j : ℕ)
      → count j fired ≡ 0
      → (s'.when j ≡ s.when j) × (count j s'.by_time ≡ count j s.by_time)
  pub due : (j : ℕ) → 0 < count j fired → (s.when j ≤ now) × (0 < count j s.by_time)

fire-kept :
    (now j k : ℕ) (s : Timers)
    → k ≢ j
    → 0 < count j s.by_time
    → ((fire now j s).when k ≡ s.when k) × (count k (fire now j s).by_time ≡ count k s.by_time)
unfolding fire count
fire-kept now j k s ne there =
    let erased = count-erase j k s.by_time there in
    let alone : count k (j ∷ []) ≡ 0 = count-cons_ne j k [] (λ e. ne (sym e)) in
    let time = add_size (sub_size now (sub_size now (s.when j))) (s.interval j) in
    let when = put j time s.when in
    let inserted = count-insert_time when j k (erase j s.by_time) in
    elim (Bool-cases (s.single_shot j)) [
      | inl t ↦ rw (t) (refl, omega (arith, erased, alone))
      | inr f ↦ rw (f) (put_ne j time s.when k ne, omega (arith, erased, alone, inserted))
    ]

Round-fire :
    (now : ℕ) (s : Timers) (fired : List ℕ) (s' : Timers) (j : ℕ)
    → Round now s fired s'
    → next_due now fired s' ≡ some j
    → Round now s (j ∷ fired) (quiet j (fire now j s'))
unfolding quiet count
Round-fire now s fired s' j r e =
    let (new, there, due) = next_due-some now j fired s' e in
    record {
      valid = fire-IsValid now j s' there r.valid;
      kept = λ k none_yet.
          let (ne, rest) = count-zero_head k j fired none_yet in
          let (when_now, there_now) = fire-kept now j k s' (λ e. ne (sym e)) there in
          let (when_first, there_first) = r.kept k rest in
          (when_now ∙ when_first, there_now ∙ there_first);
      due = λ k h. elim (Bool-cases (j == k)) [
        | inl same ↦
            let (when_first, there_first) = r.kept j new in
            rw (← eq_of j k same)
              (omega (arith, due, when_first), omega (arith, there, there_first))
        | inr other ↦ r.due k (ground (arith, h))
      ];
    }

quiet-pending :
    (fired : List ℕ) (j : ℕ) (s : Timers)
    → pending fired (quiet j s).by_time ≤ pending fired s.by_time
unfolding quiet
quiet-pending fired j s = omega arith

Round-all :
    (now : ℕ) (s : Timers) (fired : List ℕ) (s' : Timers)
    → Round now s fired s'
    → next_due now fired s' ≡ none
    → (j : ℕ) → 0 < count j s.by_time
    → s.when j ≤ now
    → contains j fired ≡ true
Round-all now s fired s' r ends j there due = elim (Bool-cases (contains j fired)) [
  | inl t ↦ t
  | inr f ↦
      let new = contains-false j fired f in
      let (same_time, same_count) = r.kept j new in
      let late =
        next_due-none now j fired s' r.valid.ordered ends new (omega (arith, there, same_count)) in
      absurd (omega (arith, late, same_time, due))
]

Round-only :
    (now : ℕ) (s : Timers) (fired : List ℕ) (s' : Timers)
    → Round now s fired s'
    → (j : ℕ) → now < s.when j
    → contains j fired ≡ false
Round-only now s fired s' r j late = elim (Bool-cases (contains j fired)) [
  | inl t ↦
      let (due, there) = r.due j (contains-true j fired t) in absurd (omega (arith, due, late))
  | inr f ↦ f
]

-- In a round of callbacks that leave the timers alone, a timer fires if and only if it was due when
-- the round began. The timers are valid then: in the order of their times, each once, and the same
-- in both tables.
pub send_timers-due :
    (now : ℕ) (s : Timers)
    → IsValid s
    → (fired : List ℕ) × (s' : Timers) × (send_timers (count_ids s.by_time + 1) quiet now s
        ≡ some (fired, s'))
      × IsValid s'
      × ((j : ℕ) → 0 < count j s.by_time → s.when j ≤ now → contains j fired ≡ true)
      × ((j : ℕ) → now < s.when j → contains j fired ≡ false)
unfolding send_timers count
send_timers-due now s v =
    let start : Round now s [] s = record {
      valid = v;
      kept = λ j e. (refl, refl);
      due = λ j h. absurd (omega (arith, h));
    } in
    let (fired, s', e, r, ends) =
      send_loop-total quiet now (Round now s)
        (λ fired t j r e.
          (Round-fire now s fired t j r e, quiet-pending (j ∷ fired) j (fire now j t)))
        (count_ids s.by_time + 1) [] s (omega (arith, pending-bound [] s.by_time)) start in
    (fired, s', e, r.valid, Round-all now s fired s' r ends, Round-only now s fired s' r)
