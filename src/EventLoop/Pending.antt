-- ===== src/EventLoop/Pending.antt =====
-- The timers that have not fired in a round of `sendTimers` (rct/EventLoop.cpp).
use rct.Prelude.{
  ℕ, ◌+◌, ◌<◌, ◌≤◌, ◌≡◌, refl, ap, true, false, List, [], ◌∷◌, some, if◌then◌else◌, ◌==◌, eq_of,
  Bool-cases, inl, inr, count, count_self, count-cons_ne, count-cons-le, count-ne, arith,
}
use rct.EventLoop.{contains, insert_time, erase, count_ids, first_pending}
use rct.EventLoop.Order.{Ascending, After-count, contains-true, contains-false}

-- How many of the timers have not fired.
unfoldable pub pending : List ℕ → List ℕ → ℕ
pending fired [] = 0
pending fired (k ∷ ks) = if contains k fired then pending fired ks else pending fired ks + 1

pub pending-bound : (fired xs : List ℕ) → pending fired xs ≤ count_ids xs
unfolding pending count_ids
pending-bound fired [] = omega arith
pending-bound fired (x ∷ xs) = let ih = pending-bound fired xs in ground arith

pub pending-erase-le :
    (fired : List ℕ) (j : ℕ) (xs : List ℕ) → pending fired (erase j xs) ≤ pending fired xs
unfolding pending erase
pending-erase-le fired j [] = omega arith
pending-erase-le fired j (x ∷ xs) = let ih = pending-erase-le fired j xs in ground arith

pub pending-erase :
    (fired : List ℕ) (j : ℕ) (xs : List ℕ)
    → contains j fired ≡ true
    → pending fired (erase j xs) ≡ pending fired xs
unfolding pending erase
pending-erase fired j [] h = refl
pending-erase fired j (x ∷ xs) h = elim (Bool-cases (x == j)) [
  | inl e ↦ let t : contains x fired ≡ true = rw (eq_of x j e) h in rw (e, t) refl
  | inr e ↦ let ih = pending-erase fired j xs h in rw (e, ih) refl
]

pub pending-insert_time :
    (fired : List ℕ) (when : ℕ → ℕ) (j : ℕ) (xs : List ℕ)
    → contains j fired ≡ true
    → pending fired (insert_time when j xs) ≡ pending fired xs
unfolding pending insert_time
pending-insert_time fired when j [] h = rw (h) refl
pending-insert_time fired when j (x ∷ xs) h =
    let ih = pending-insert_time fired when j xs h in ground arith

pub contains_self : (j : ℕ) (xs : List ℕ) → contains j (j ∷ xs) ≡ true
unfolding contains
contains_self j xs = ground arith

pub contains-count : (j : ℕ) (xs : List ℕ) → count j xs ≡ 0 → contains j xs ≡ false
contains-count j xs h = elim (Bool-cases (contains j xs)) [
  | inl t ↦ absurd (omega (arith, h, contains-true j xs t))
  | inr f ↦ f
]

pub pending-fired :
    (fired : List ℕ) (j : ℕ) (xs : List ℕ)
    → count j fired ≡ 0
    → pending (j ∷ fired) xs + count j xs ≡ pending fired xs
unfolding pending count contains
pending-fired fired j [] h = refl
pending-fired fired j (x ∷ xs) h =
    let ih = pending-fired fired j xs h in
    elim (Bool-cases (x == j)) [
      | inl e ↦
          let f : contains x fired ≡ false = rw (eq_of x j e) (contains-count j fired h) in
          ground (arith, eq_of x j e)
      | inr e ↦ let ne : j == x ≡ false = ground arith in rw (e, ne) (ground arith)
    ]

pub first_pending-some :
    (fired : List ℕ) (j : ℕ) (xs : List ℕ)
    → first_pending fired xs ≡ some j
    → (count j fired ≡ 0) × (0 < count j xs)
unfolding first_pending count
first_pending-some fired j [] h = absurd (cc h)
first_pending-some fired j (x ∷ xs) h = elim (Bool-cases (contains x fired)) [
  | inl t ↦
      let (a, b) = first_pending-some fired j xs (rw t at h) in
      (a, omega (arith, b, count-cons-le x j xs))
  | inr f ↦
      let same : x ≡ j = cc (rw (f) at h) in
      rw (← same) (contains-false x fired f, omega (arith, count_self x xs))
]

pub first_pending-least :
    (fired : List ℕ) (when : ℕ → ℕ) (j : ℕ) (xs : List ℕ)
    → Ascending when xs
    → count j fired ≡ 0
    → 0 < count j xs
    → (k : ℕ) × (first_pending fired xs ≡ some k) × (when k ≤ when j)
unfolding first_pending count
first_pending-least fired when j [] a h i = absurd (omega (arith, i))
first_pending-least fired when j (x ∷ xs) a h i = elim (Bool-cases (contains x fired)) [
  | inl t ↦
      let different = count-ne x j fired (contains-true x fired t) h in
      rw (t) (
        first_pending-least fired when j xs a.1 h
          (omega (arith, i, count-cons_ne x j xs different)))
  | inr f ↦ rw (f) (
    x,
    refl,
    elim (Bool-cases (x == j)) [
      | inl e ↦ let s : when x ≡ when j = ap when (eq_of x j e) in omega (arith, s)
      | inr e ↦ After-count when (when x) j xs a.0 (ground arith)
    ],
  )
]
