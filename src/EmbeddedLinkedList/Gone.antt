-- ===== src/EmbeddedLinkedList/Gone.antt =====
-- The links around a node that leaves an `EmbeddedLinkedList` (rct/EmbeddedLinkedList.h).
use rct.Prelude.{
  ℕ, ◌≤◌, ◌≡◌, ◌≢◌, sym, false, List, [], ◌∷◌, ◌++◌, ◌==◌, eq_false, put, count, count-append,
  count-zero_head, count-cons-le, arith,
}
use rct.EmbeddedLinkedList.{Chain, set_next, set_prev, cleared}
use rct.EmbeddedLinkedList.Linked.{head_or, last_or}

-- What a node that left the list is: on its own.
abbrev pub Alone : Chain → ℕ → Type 0
Alone s t = (s.next t ≡ 0) × (s.prev t ≡ 0)

-- The numbers of the rest are still there once.
pub once-removed :
    (l : List ℕ) (t : ℕ) (r : List ℕ)
    → ((x : ℕ) → count x (l ++ t ∷ r) ≤ 1)
    → (x : ℕ) → count x (l ++ r) ≤ 1
once-removed l t r once x =
    omega (arith, once x, count-append x l (t ∷ r), count-append x l r, count-cons-le x t r)

pub count-without : (a t : ℕ) (r : List ℕ) (x : ℕ) → count x (a ∷ r) ≤ count x (a ∷ t ∷ r)
unfolding count
count-without a t r x = omega arith

pub count-snoc : (t : ℕ) (l : List ℕ) (a : ℕ) → count t l ≡ 0 → a ≢ t → count t (l ++ a ∷ []) ≡ 0
unfolding count
count-snoc t l a h k = ground (arith, count-append t l (a ∷ []))

-- The chain without `t`, which stood between `a` and `y`.
abbrev pub joined : ℕ → ℕ → ℕ → Chain → Chain
joined t a y s = cleared t (set_prev y a (set_next a y s))

pub joined-at :
    (s : Chain) (t a y : ℕ)
    → a ≢ t
    → y ≢ t
    → y ≢ a
    → ((joined t a y s).next a ≡ y)
      × ((joined t a y s).prev a ≡ s.prev a)
      × ((joined t a y s).prev y ≡ a)
      × ((joined t a y s).next y ≡ s.next y)
      × Alone (joined t a y s) t
unfolding cleared set_next set_prev put
joined-at s t a y h k l =
    (ground arith, ground arith, ground arith, ground arith, (ground arith, ground arith))

pub joined-off :
    (s : Chain) (t a y x : ℕ)
    → x ≢ t
    → x ≢ a
    → x ≢ y
    → ((joined t a y s).next x ≡ s.next x) × ((joined t a y s).prev x ≡ s.prev x)
unfolding cleared set_next set_prev put
joined-off s t a y x h k l = (ground arith, ground arith)

-- The chain without its first node `t` before `y`, and without its last node `t` behind `a`.
pub first_gone-at :
    (s : Chain) (t y : ℕ) → y ≢ t → (put t 0 (put y 0 s.prev) y ≡ 0) × (put t 0 s.next y ≡ s.next y)
unfolding put
first_gone-at s t y h = (ground arith, ground arith)

pub first_gone-off :
    (s : Chain) (t y x : ℕ)
    → x ≢ t
    → x ≢ y
    → (put t 0 s.next x ≡ s.next x) × (put t 0 (put y 0 s.prev) x ≡ s.prev x)
unfolding put
first_gone-off s t y x h k = (ground arith, ground arith)

pub last_gone-at :
    (s : Chain) (t a : ℕ) → a ≢ t → (put t 0 s.prev a ≡ s.prev a) × (put t 0 (put a 0 s.next) a ≡ 0)
unfolding put
last_gone-at s t a h = (ground arith, ground arith)

pub last_gone-off :
    (s : Chain) (t a x : ℕ)
    → x ≢ t
    → x ≢ a
    → (put t 0 (put a 0 s.next) x ≡ s.next x) × (put t 0 s.prev x ≡ s.prev x)
unfolding put
last_gone-off s t a x h k = (ground arith, ground arith)

-- A node that is not in a part of a list is not its first or last node.
pub head-ne :
    (l : List ℕ) (a : ℕ) (r : List ℕ) (t : ℕ)
    → count t (l ++ a ∷ []) ≡ 0
    → (t == head_or 0 (l ++ a ∷ r)) ≡ false
head-ne [] a r t h = eq_false (λ e. (count-zero_head t a [] h).0 (sym e))
head-ne (x ∷ l) a r t h = eq_false (λ e. (count-zero_head t x (l ++ a ∷ []) h).0 (sym e))

pub last-ne :
    (d y : ℕ) (r : List ℕ) (t : ℕ) → count t (y ∷ r) ≡ 0 → (t == last_or d (y ∷ r)) ≡ false
last-ne d y [] t h = eq_false (λ e. (count-zero_head t y [] h).0 (sym e))
last-ne d y (x ∷ r) t h = last-ne y x r t (count-zero_head t y (x ∷ r) h).1
