-- ===== src/EmbeddedLinkedList/Places.antt =====
-- The links around a new node of an `EmbeddedLinkedList` (rct/EmbeddedLinkedList.h).
use rct.Prelude.{
  ℕ, ◌+◌, ◌<◌, ◌≤◌, ◌≡◌, ◌≢◌, refl, ap, ◌∙◌, false, List, [], ◌∷◌, ◌++◌, ◌==◌, put, count,
  count-append, count-zero_head, count-once_head, count_self, count-one, Bool-cases, ◌⊎◌, inl, inr,
  eq_of, count-cons-le, count-ne, arith,
}
use rct.EmbeddedLinkedList.{Chain, set_next, set_prev}
use rct.EmbeddedLinkedList.Linked.{Linked, frame}

-- The chain that a new node behind `a`, before the node `n` or the end, leaves.
abbrev pub linked_in : ℕ → ℕ → ℕ → Chain → Chain
linked_in t a n s = set_prev t a (set_next a t (set_prev n t (set_next t n s)))

-- What the chain has at each node, in the middle of a list.
pub linked_in-at :
    (s : Chain) (t a y : ℕ)
    → a ≢ t
    → y ≢ t
    → y ≢ a
    → ((linked_in t a y s).prev a ≡ s.prev a)
      × ((linked_in t a y s).next a ≡ t)
      × ((linked_in t a y s).prev t ≡ a)
      × ((linked_in t a y s).next t ≡ y)
      × ((linked_in t a y s).prev y ≡ t)
      × ((linked_in t a y s).next y ≡ s.next y)
unfolding set_next set_prev put
linked_in-at s t a y h k l =
    (ground arith, ground arith, ground arith, ground arith, ground arith, ground arith)

pub linked_in-off :
    (s : Chain) (t a y x : ℕ)
    → x ≢ t
    → x ≢ a
    → x ≢ y
    → ((linked_in t a y s).next x ≡ s.next x) × ((linked_in t a y s).prev x ≡ s.prev x)
unfolding set_next set_prev put
linked_in-off s t a y x h k l = (ground arith, ground arith)

-- The node `a` with what follows it, after `t` was put behind it.
pub linked_in-Linked :
    (s : Chain) (t a y b : ℕ) (r : List ℕ)
    → 0 < t
    → count t (a ∷ y ∷ r) ≡ 0
    → ((x : ℕ) → count x (a ∷ y ∷ r) ≤ 1)
    → Linked s b (a ∷ y ∷ r) 0
    → Linked (linked_in t a y s) b (a ∷ t ∷ y ∷ r) 0
linked_in-Linked s t a y b r p new once h =
    let ne_a = count-zero_head t a (y ∷ r) new in
    let ne_y = count-zero_head t y r ne_a.1 in
    let apart = count-zero_head a y r (count-once_head a (y ∷ r) (once a)) in
    let off_y : count y r ≡ 0 =
      count-once_head y r (omega (arith, once y, count-cons-le y a (y ∷ r))) in
    let at = linked_in-at s t a y ne_a.0 ne_y.0 apart.0 in
    let same = λ (x : ℕ) (k : 0 < count x r).
      linked_in-off s t a y x (count-ne x t r k ne_y.1) (count-ne x a r k apart.1)
        (count-ne x y r k off_y) in
    (
      h.0,
      at.0 ∙ h.1,
      at.1,
      (p, at.2, at.3, (h.3.0, at.4, at.5 ∙ h.3.2, frame s (linked_in t a y s) y r 0 same h.3.3)),
    )

-- No node stands both in the list before a node and from that node on.
pub off_prefix :
    (l : List ℕ) (a : ℕ) (r : List ℕ)
    → ((x : ℕ) → count x (l ++ a ∷ r) ≤ 1)
    → (count a l ≡ 0) × ((x : ℕ) → count x (a ∷ r) ≤ 1)
off_prefix l a r once = (
  omega (arith, once a, count-append a l (a ∷ r), count_self a r),
  λ x. omega (arith, once x, count-append x l (a ∷ r)),
)

-- A new node put into a list is there once, and so are the others.
pub once-added :
    (xs zs : List ℕ) (t : ℕ)
    → ((x : ℕ) → count x zs ≡ count x xs + count x (t ∷ []))
    → count t xs ≡ 0
    → ((x : ℕ) → count x xs ≤ 1)
    → (x : ℕ) → count x zs ≤ 1
once-added xs zs t added new once x = elim (Bool-cases (t == x)) [
  | inl e ↦
      let same : count x xs ≡ 0 = rw (← eq_of t x e) new in
      ground (arith, same, added x, count-one x t)
  | inr e ↦ ground (arith, once x, added x, count-one x t)
]

pub count-behind :
    (l : List ℕ) (a t : ℕ) (r : List ℕ) (x : ℕ)
    → count x (l ++ a ∷ t ∷ r) ≡ count x (l ++ a ∷ r) + count x (t ∷ [])
unfolding count
count-behind l a t r x = omega (arith, count-append x l (a ∷ t ∷ r), count-append x l (a ∷ r))

-- The same at the end of a list, and at its front.
pub linked_last-at :
    (s : Chain) (t a : ℕ)
    → a ≢ t
    → (put t a s.prev a ≡ s.prev a)
      × (put a t (put t 0 s.next) a ≡ t)
      × (put t a s.prev t ≡ a)
      × (put a t (put t 0 s.next) t ≡ 0)
unfolding put
linked_last-at s t a h = (ground arith, ground arith, ground arith, ground arith)

pub linked_last-off :
    (s : Chain) (t a x : ℕ)
    → x ≢ t
    → x ≢ a
    → (put a t (put t 0 s.next) x ≡ s.next x) × (put t a s.prev x ≡ s.prev x)
unfolding put
linked_last-off s t a x h k = (ground arith, ground arith)

pub linked_first-at :
    (s : Chain) (t y : ℕ)
    → y ≢ t
    → (put y t (put t 0 s.prev) t ≡ 0)
      × (put t y s.next t ≡ y)
      × (put y t (put t 0 s.prev) y ≡ t)
      × (put t y s.next y ≡ s.next y)
unfolding put
linked_first-at s t y h = (ground arith, ground arith, ground arith, ground arith)

pub linked_first-off :
    (s : Chain) (t y x : ℕ)
    → x ≢ t
    → x ≢ y
    → (put t y s.next x ≡ s.next x) × (put y t (put t 0 s.prev) x ≡ s.prev x)
unfolding put
linked_first-off s t y x h k = (ground arith, ground arith)

pub not_null : (x : ℕ) → 0 < x → (x == 0) ≡ false
not_null x h = ground arith

-- A list is empty or has a last node.
pub snoc-cases : (xs : List ℕ) → (xs ≡ []) ⊎ ((l : List ℕ) × (a : ℕ) × (xs ≡ l ++ a ∷ []))
snoc-cases [] = inl refl
snoc-cases (x ∷ xs) = elim (snoc-cases xs) [
  | inl e ↦ inr ([], x, ap (λ r. x ∷ r) e)
  | inr (l, a, e) ↦ inr (x ∷ l, a, ap (λ r. x ∷ r) e)
]
