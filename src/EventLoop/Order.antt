-- ===== src/EventLoop/Order.antt =====
-- The order of the timers of an event loop (rct/EventLoop.cpp), and what is in it.
use rct.Prelude.{
  ℕ, ◌+◌, ◌<◌, ◌≤◌, ◌≡◌, refl, ap, true, false, List, [], ◌∷◌, some, ltb, ◌==◌, eq_of, ltb-false,
  Bool-cases, inl, inr, put, put_ne, count, count-zero_head, arith,
}
use rct.EventLoop.{contains, insert_time, erase, erase_in_range}

-- No timer of the list is before the time.
abbrev pub After : (ℕ → ℕ) → ℕ → List ℕ → Type 0
After when b [] = Unit
After when b (x ∷ xs) = (b ≤ when x) × After when b xs

-- Every timer comes before those of a later time.
abbrev pub Ascending : (ℕ → ℕ) → List ℕ → Type 0
Ascending when [] = Unit
Ascending when (x ∷ xs) = After when (when x) xs × Ascending when xs

After-mono : (when : ℕ → ℕ) (a b : ℕ) (xs : List ℕ) → a ≤ b → After when b xs → After when a xs
After-mono when a b [] h u = tt
After-mono when a b (x ∷ xs) h u = (omega (arith, u.0, h), After-mono when a b xs h u.1)

pub After-count :
    (when : ℕ → ℕ) (b j : ℕ) (xs : List ℕ) → After when b xs → 0 < count j xs → b ≤ when j
unfolding count
After-count when b j [] u h = ground arith
After-count when b j (x ∷ xs) u h = elim (Bool-cases (x == j)) [
  | inl e ↦ rw (← eq_of x j e) u.0
  | inr e ↦ After-count when b j xs u.1 (ground arith)
]

After-insert :
    (when : ℕ → ℕ) (b j : ℕ) (xs : List ℕ)
    → b ≤ when j
    → After when b xs
    → After when b (insert_time when j xs)
unfolding insert_time
After-insert when b j [] h u = (h, tt)
After-insert when b j (x ∷ xs) h u = elim (Bool-cases (ltb (when j) (when x))) [
  | inl e ↦ rw (e) ((h, u))
  | inr e ↦ rw (e) ((u.0, After-insert when b j xs h u.1))
]

pub Ascending-insert :
    (when : ℕ → ℕ) (j : ℕ) (xs : List ℕ)
    → Ascending when xs
    → Ascending when (insert_time when j xs)
unfolding insert_time
Ascending-insert when j [] h = (tt, tt)
Ascending-insert when j (x ∷ xs) h = elim (Bool-cases (ltb (when j) (when x))) [
  | inl e ↦
      let lt : when j ≤ when x = ground arith in
      rw (e) (((lt, After-mono when (when j) (when x) xs lt h.0), h))
  | inr e ↦
      rw (e) ((After-insert when (when x) j xs (ground arith) h.0, Ascending-insert when j xs h.1))
]

After-erase : (when : ℕ → ℕ) (b j : ℕ) (xs : List ℕ) → After when b xs → After when b (erase j xs)
unfolding erase
After-erase when b j [] u = tt
After-erase when b j (x ∷ xs) u = elim (Bool-cases (x == j)) [
  | inl e ↦ rw (e) u.1
  | inr e ↦ rw (e) ((u.0, After-erase when b j xs u.1))
]

pub Ascending-erase :
    (when : ℕ → ℕ) (j : ℕ) (xs : List ℕ) → Ascending when xs → Ascending when (erase j xs)
unfolding erase
Ascending-erase when j [] h = tt
Ascending-erase when j (x ∷ xs) h = elim (Bool-cases (x == j)) [
  | inl e ↦ rw (e) h.1
  | inr e ↦ rw (e) ((After-erase when (when x) j xs h.0, Ascending-erase when j xs h.1))
]

After-put :
    (when : ℕ → ℕ) (b j t : ℕ) (xs : List ℕ)
    → count j xs ≡ 0
    → After when b xs
    → After (put j t when) b xs
After-put when b j t [] h u = tt
After-put when b j t (x ∷ xs) h u =
    let (ne, off) = count-zero_head j x xs h in
    (rw (put_ne j t when x ne) u.0, After-put when b j t xs off u.1)

-- The time of a timer that is not in the list does not matter.
pub Ascending-put :
    (when : ℕ → ℕ) (j t : ℕ) (xs : List ℕ)
    → count j xs ≡ 0
    → Ascending when xs
    → Ascending (put j t when) xs
Ascending-put when j t [] h u = tt
Ascending-put when j t (x ∷ xs) h u =
    let (ne, off) = count-zero_head j x xs h in
    (
      rw (put_ne j t when x ne) (After-put when (when x) j t xs off u.0),
      Ascending-put when j t xs off u.1,
    )

pub count-insert_time :
    (when : ℕ → ℕ) (j k : ℕ) (xs : List ℕ)
    → count k (insert_time when j xs) ≡ count k xs + count k (j ∷ [])
unfolding insert_time count
count-insert_time when j k [] = omega arith
count-insert_time when j k (x ∷ xs) = elim (Bool-cases (ltb (when j) (when x))) [
  | inl e ↦ rw (e) (omega arith)
  | inr e ↦ rw (e) (omega (arith, count-insert_time when j k xs))
]

pub count-erase :
    (j k : ℕ) (xs : List ℕ) → 0 < count j xs → count k (erase j xs) + count k (j ∷ []) ≡ count k xs
unfolding erase count
count-erase j k [] h = ground arith
count-erase j k (x ∷ xs) h = elim (Bool-cases (x == j)) [
  | inl e ↦ rw (e, eq_of x j e) (omega arith)
  | inr e ↦ rw (e) (omega (arith, count-erase j k xs (ground arith)))
]

pub contains-true : (j : ℕ) (xs : List ℕ) → contains j xs ≡ true → 0 < count j xs
unfolding contains count
contains-true j [] h = cc
contains-true j (x ∷ xs) h = ground (arith, contains-true j xs)

pub contains-false : (j : ℕ) (xs : List ℕ) → contains j xs ≡ false → count j xs ≡ 0
unfolding contains count
contains-false j [] h = refl
contains-false j (x ∷ xs) h = ground (arith, contains-false j xs)

-- The search in the range of a time finds its timer.
pub erase_in_range-erase :
    (when : ℕ → ℕ) (j : ℕ) (xs : List ℕ)
    → Ascending when xs
    → 0 < count j xs
    → erase_in_range when j xs ≡ some (erase j xs)
unfolding erase_in_range erase count
erase_in_range-erase when j [] h q = ground arith
erase_in_range-erase when j (x ∷ xs) h q = elim (Bool-cases (x == j)) [
  | inl e ↦
      let same : when x ≡ when j = ap when (eq_of x j e) in
      let early : ltb (when x) (when j) ≡ false = ltb-false (omega (arith, same)) in
      let late : ltb (when j) (when x) ≡ false = ltb-false (omega (arith, same)) in
      rw (early, late, e) refl
  | inr e ↦
      let inside : 0 < count j xs = ground arith in
      let late : ltb (when j) (when x) ≡ false =
        ltb-false (After-count when (when x) j xs h.0 inside) in
      let rest = erase_in_range-erase when j xs h.1 inside in
      elim (Bool-cases (ltb (when x) (when j))) [
        | inl t ↦ rw (t, e, rest) refl
        | inr t ↦ rw (t, late, e, rest) refl
      ]
]
