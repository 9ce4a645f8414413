-- ===== src/EventLoop/Rounds.antt =====
-- A round of `sendTimers` (rct/EventLoop.cpp): which timers fire, and that it ends.
use rct.Prelude.{
  ℕ, zero, suc, ◌+◌, ◌<◌, ◌≤◌, ◌≡◌, refl, List, [], ◌∷◌, none, some, and_then-eq-some, Option-cases,
  ltb, ◌==◌, eq_of, Bool-cases, inl, inr, put, count, arith,
}
use rct.Prelude.Words.{add_size, sub_size}
use rct.EventLoop.{Timers, erase, count_ids, first_pending, fire, next_due, send_loop, send_timers}
use rct.EventLoop.Order.{Ascending}
use rct.EventLoop.Pending.{
  pending, pending-bound, pending-erase, pending-insert_time, pending-fired, contains_self,
  first_pending-some, first_pending-least,
}
use rct.EventLoop.Invariant.{IsValid, fire-IsValid}

-- The timer that fires next has not fired, is one of the timers, and is due.
pub next_due-some :
    (now j : ℕ) (fired : List ℕ) (s : Timers)
    → next_due now fired s ≡ some j
    → (count j fired ≡ 0) × (0 < count j s.by_time) × (s.when j ≤ now)
unfolding next_due
next_due-some now j fired s h =
    let (k, e, rest) = and_then-eq-some (first_pending fired s.by_time) _ h in
    let (new, there) = first_pending-some fired k s.by_time e in
    elim (Bool-cases (ltb now (s.when k))) [
      | inl t ↦ absurd (cc (rw (t) at rest))
      | inr f ↦ let same : k ≡ j = cc (rw (f) at rest) in rw (← same) (new, there, ground arith)
    ]

-- When none fires next, those that have not fired are not due.
pub next_due-none :
    (now j : ℕ) (fired : List ℕ) (s : Timers)
    → Ascending s.when s.by_time
    → next_due now fired s ≡ none
    → count j fired ≡ 0
    → 0 < count j s.by_time
    → now < s.when j
unfolding next_due
next_due-none now j fired s a h new there =
    let (k, e, le) = first_pending-least fired s.when j s.by_time a new there in
    elim (Bool-cases (ltb now (s.when k))) [
      | inl t ↦ let early : now < s.when k = ground arith in omega (arith, early, le)
      | inr f ↦ absurd (cc (rw (e, f) at h))
    ]

-- One more timer has fired.
fire-pending :
    (now j : ℕ) (fired : List ℕ) (s : Timers)
    → count j fired ≡ 0
    → 0 < count j s.by_time
    → pending (j ∷ fired) (fire now j s).by_time + 1 ≤ pending fired s.by_time
unfolding fire
fire-pending now j fired s new there =
    let less = pending-fired fired j s.by_time new in
    let there_now = contains_self j fired in
    let erased = pending-erase (j ∷ fired) j s.by_time there_now in
    let when = put j (add_size (sub_size now (sub_size now (s.when j))) (s.interval j)) s.when in
    let moved = pending-insert_time (j ∷ fired) when j (erase j s.by_time) there_now in
    elim (Bool-cases (s.single_shot j)) [
      | inl t ↦ rw (t) (omega (arith, less, erased, there))
      | inr f ↦ rw (f) (omega (arith, less, erased, there, moved))
    ]

-- A round keeps what each of its steps keeps, and ends when no step of it makes a timer pending.
module _ (react : ℕ → Timers → Timers) (now : ℕ) (P : List ℕ → Timers → Type 0)
    (keeps : (fired : List ℕ) (s : Timers) (j : ℕ)
      → P fired s
      → next_due now fired s ≡ some j
      → P (j ∷ fired) (react j (fire now j s))
        × (pending (j ∷ fired) (react j (fire now j s)).by_time
            ≤ pending (j ∷ fired) (fire now j s).by_time)) where
  pub send_loop-total :
      (fuel : ℕ) (fired : List ℕ) (s : Timers)
      → pending fired s.by_time < fuel
      → P fired s
      → (fired' : List ℕ) × (s' : Timers) × (send_loop fuel react now fired s ≡ some (fired', s'))
        × P fired' s'
        × (next_due now fired' s' ≡ none)
  unfolding send_loop
  send_loop-total zero fired s h p = absurd (omega (arith, h))
  send_loop-total (suc fuel) fired s h p = elim (Option-cases (next_due now fired s)) [
    | inl e ↦ (fired, s, rw (e, send_loop) refl, p, e)
    | inr (j, e) ↦
        let (new, there, due) = next_due-some now j fired s e in
        let less = fire-pending now j fired s new there in
        let (kept, least) = keeps fired s j p e in
        rw (e, send_loop)
          (send_loop-total fuel (j ∷ fired) (react j (fire now j s)) (omega (arith, less, least, h))
            kept)
  ]

count-fired :
    (j k : ℕ) (fired : List ℕ) → count j fired ≡ 0 → count k fired ≤ 1 → count k (j ∷ fired) ≤ 1
unfolding count
count-fired j k fired new once = elim (Bool-cases (j == k)) [
  | inl e ↦ let none_yet : count k fired ≡ 0 = rw (← eq_of j k e) new in ground (arith, none_yet)
  | inr e ↦ rw (e) (omega (arith, once))
]

pub record Fires (fired : List ℕ) (s : Timers) : Type 0 where
  pub valid : IsValid s
  pub once : (j : ℕ) → count j fired ≤ 1

-- Whatever its callbacks do to the timers, as long as they keep them valid and make none pending,
-- `sendTimers` on valid timers returns within as many steps as there are timers: the timers are
-- valid, none has fired twice, and none that has not fired is due.
pub send_timers-total :
    (react : ℕ → Timers → Timers) (now : ℕ) (s : Timers)
    → ((j : ℕ) (s : Timers) → IsValid s → IsValid (react j s))
    → ((fired : List ℕ) (j : ℕ) (s : Timers)
        → IsValid s
        → pending fired (react j s).by_time ≤ pending fired s.by_time)
    → IsValid s
    → (fired : List ℕ) × (s' : Timers) × (send_timers (count_ids s.by_time + 1) react now s
        ≡ some (fired, s'))
      × Fires fired s'
      × (next_due now fired s' ≡ none)
unfolding send_timers count
send_timers-total react now s kept shrinks v =
    send_loop-total react now Fires
      (λ fired t j f e.
        let (new, there, due) = next_due-some now j fired t e in
        let valid = fire-IsValid now j t there f.valid in
        (
          record {
            valid = kept j (fire now j t) valid;
            once = λ k. count-fired j k fired new (f.once k);
          },
          shrinks (j ∷ fired) j (fire now j t) valid,
        ))
      (count_ids s.by_time + 1) [] s (omega (arith, pending-bound [] s.by_time))
      (record { valid = v; once = λ j. omega arith })
