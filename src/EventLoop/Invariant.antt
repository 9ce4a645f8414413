-- ===== src/EventLoop/Invariant.antt =====
-- What every operation on the timers of an event loop (rct/EventLoop.cpp) keeps.
use rct.Prelude.{
  ℕ, ◌+◌, ◌<◌, ◌≤◌, ◌≡◌, refl, ◌∙◌, Bool, false, List, [], some, ◌==◌, eq_of, Bool-cases, inl, inr,
  ◌⊎◌, put, put_here, count, count_self, arith,
}
use rct.Prelude.Words.{add_size, sub_size}
use rct.EventLoop.{
  Timers, id_mod, contains, insert_time, erase, count_ids, add_timer, register_timer, clear_timer,
  fire,
}
use rct.EventLoop.Ids.{fresh_id-total}
use rct.EventLoop.Order.{
  Ascending, Ascending-insert, Ascending-erase, Ascending-put, count-insert_time, count-erase,
  contains-true, contains-false, erase_in_range-erase,
}

-- The timers stand in the order of their times, each once, and the two tables have the same.
pub record IsValid (s : Timers) : Type 0 where
  pub ordered : Ascending s.when s.by_time
  pub same : (j : ℕ) → count j s.by_time ≡ count j s.by_id
  pub once : (j : ℕ) → count j s.by_id ≤ 1

add_timer-IsValid :
    (now timeout id : ℕ) (single : Bool) (s : Timers)
    → count id s.by_id ≡ 0
    → IsValid s
    → IsValid (add_timer now timeout id single s)
unfolding add_timer count
add_timer-IsValid now timeout id single s new v =
    let off : count id s.by_time ≡ 0 = v.same id ∙ new in
    let when = put id (add_size now timeout) s.when in
    record {
      ordered =
          Ascending-insert when id s.by_time
            (Ascending-put s.when id (add_size now timeout) s.by_time off v.ordered);
      same = λ j. omega (arith, v.same j, count-insert_time when id j s.by_time);
      once = λ j. elim (Bool-cases (id == j)) [
        | inl e ↦ let none_yet : count j s.by_id ≡ 0 = rw (← eq_of id j e) new in ground arith
        | inr e ↦ ground (arith, v.once j)
      ];
    }

added :
    (now timeout id : ℕ) (single : Bool) (s : Timers)
    → (add_timer now timeout id single s).when id ≡ add_size now timeout
unfolding add_timer
added now timeout id single s = put_here id (add_size now timeout) s.when

-- With fewer than 2^32 - 1 timers, which are valid, `registerTimer` returns the id of a new timer,
-- which is due after the time given, and keeps the timers valid.
register_timer-IsValid :
    (now timeout : ℕ) (single : Bool) (s : Timers)
    → count_ids s.by_id + 1 < id_mod
    → IsValid s
    → (id : ℕ) × (s' : Timers) × (register_timer now timeout single s ≡ some (id, s'))
      × (contains id s.by_id ≡ false)
      × (s'.when id ≡ add_size now timeout)
      × IsValid s'
unfolding register_timer
register_timer-IsValid now timeout single s h v =
    let (id, e, new, small) = fresh_id-total s.next_id s.by_id h in
    (
      id,
      add_timer now timeout id single s,
      rw (e) refl,
      new,
      added now timeout id single s,
      add_timer-IsValid now timeout id single s (contains-false id s.by_id new) v,
    )

erase-IsValid :
    (s : Timers) (j : ℕ)
    → 0 < count j s.by_id
    → IsValid s
    → IsValid (record s { by_time = erase j s.by_time; by_id = erase j s.by_id })
erase-IsValid s j h v = record {
  ordered = Ascending-erase s.when j s.by_time v.ordered;
  same = λ k. omega (
    arith,
    v.same k,
    count-erase j k s.by_id h,
    count-erase j k s.by_time (omega (arith, v.same j, h)),
  );
  once = λ k. omega (arith, v.once k, count-erase j k s.by_id h);
}

erase-gone : (j : ℕ) (xs : List ℕ) → 0 < count j xs → count j xs ≤ 1 → count j (erase j xs) ≡ 0
erase-gone j xs h one = omega (arith, one, h, count-erase j j xs h, count_self j [])

pub clear_timer-cases :
    (id : ℕ) (s : Timers)
    → IsValid s
    → ((count id s.by_id ≡ 0) × (clear_timer id s ≡ some s))
      ⊎ ((0 < count id s.by_id)
          × (clear_timer id s
              ≡ some (record s { by_time = erase id s.by_time; by_id = erase id s.by_id })))
unfolding clear_timer
clear_timer-cases id s v = elim (Bool-cases (contains id s.by_id)) [
  | inl t ↦
      let there = contains-true id s.by_id t in
      let found =
        erase_in_range-erase s.when id s.by_time v.ordered (omega (arith, v.same id, there)) in
      inr (there, rw (t, found) refl)
  | inr f ↦ inl (contains-false id s.by_id f, rw (f) refl)
]

-- On valid timers, `unregisterTimer` never calls `abort`, and keeps them valid: a timer found by
-- its id is found by its time, and is then in neither table.
pub clear_timer-IsValid :
    (id : ℕ) (s : Timers)
    → IsValid s
    → (s' : Timers) × (clear_timer id s ≡ some s')
      × (count id s'.by_id ≡ 0)
      × (count id s'.by_time ≡ 0)
      × IsValid s'
clear_timer-IsValid id s v = elim (clear_timer-cases id s v) [
  | inl (gone, e) ↦ (s, e, gone, v.same id ∙ gone, v)
  | inr (there, e) ↦ (
    record s { by_time = erase id s.by_time; by_id = erase id s.by_id },
    e,
    erase-gone id s.by_id there (v.once id),
    erase-gone id s.by_time (omega (arith, v.same id, there)) (omega (arith, v.same id, v.once id)),
    erase-IsValid s id there v,
  )
]

move-IsValid :
    (s : Timers) (j t : ℕ)
    → 0 < count j s.by_time
    → IsValid s
    → IsValid (record s {
      when = put j t s.when;
      by_time = insert_time (put j t s.when) j (erase j s.by_time);
    })
move-IsValid s j t h v =
    let gone = erase-gone j s.by_time h (omega (arith, v.same j, v.once j)) in
    let rest = Ascending-erase s.when j s.by_time v.ordered in
    record {
      ordered =
          Ascending-insert (put j t s.when) j (erase j s.by_time)
            (Ascending-put s.when j t (erase j s.by_time) gone rest);
      same = λ k. omega (
        arith,
        v.same k,
        count-erase j k s.by_time h,
        count-insert_time (put j t s.when) j k (erase j s.by_time),
      );
      once = λ k. v.once k;
    }

-- A timer that fires is taken out, or put back at a later time.
pub fire-IsValid :
    (now j : ℕ) (s : Timers) → 0 < count j s.by_time → IsValid s → IsValid (fire now j s)
unfolding fire
fire-IsValid now j s h v = elim (Bool-cases (s.single_shot j)) [
  | inl t ↦ rw (t) (erase-IsValid s j (omega (arith, v.same j, h)) v)
  | inr t ↦
      rw (t)
        (move-IsValid s j (add_size (sub_size now (sub_size now (s.when j))) (s.interval j)) h v)
]
