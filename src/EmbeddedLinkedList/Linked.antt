-- ===== src/EmbeddedLinkedList/Linked.antt =====
-- What it means that the nodes of an `EmbeddedLinkedList` (rct/EmbeddedLinkedList.h) are a list.
use rct.Prelude.{ℕ, ◌<◌, ◌≤◌, ◌≡◌, refl, sym, ◌∙◌, List, [], ◌∷◌, ◌++◌, length, count, arith}
use rct.EmbeddedLinkedList.{Chain}

-- The first and the last node, or another one if there is none.
abbrev pub head_or : ℕ → List ℕ → ℕ
head_or d [] = d
head_or d (x ∷ xs) = x

abbrev pub last_or : ℕ → List ℕ → ℕ
last_or d [] = d
last_or d (x ∷ xs) = last_or x xs

-- The links lead through the nodes `xs`, from `before` and to `after`.
abbrev pub Linked : Chain → ℕ → List ℕ → ℕ → Type 0
Linked s before [] after = Unit
Linked s before (x ∷ xs) after =
    (0 < x) × (s.prev x ≡ before) × (s.next x ≡ head_or after xs) × Linked s x xs after

-- The list that a chain stands for.
pub record Repr (s : Chain) (xs : List ℕ) : Type 0 where
  pub links : Linked s 0 xs 0
  pub once : (x : ℕ) → count x xs ≤ 1
  pub at_front : s.front ≡ head_or 0 xs
  pub at_back : s.back ≡ last_or 0 xs
  pub sized : s.size ≡ length xs

pub head_or-append : (d : ℕ) (xs ys : List ℕ) → head_or d (xs ++ ys) ≡ head_or (head_or d ys) xs
head_or-append d [] ys = refl
head_or-append d (x ∷ xs) ys = refl

pub head_or-behind :
    (d : ℕ) (l : List ℕ) (a : ℕ) (r r' : List ℕ) → head_or d (l ++ a ∷ r) ≡ head_or d (l ++ a ∷ r')
head_or-behind d [] a r r' = refl
head_or-behind d (x ∷ l) a r r' = refl

pub last_or-append : (d : ℕ) (xs ys : List ℕ) → last_or d (xs ++ ys) ≡ last_or (last_or d xs) ys
last_or-append d [] ys = refl
last_or-append d (x ∷ xs) ys = last_or-append x xs ys

pub Linked-append :
    (s : Chain) (b : ℕ) (xs ys : List ℕ) (e : ℕ)
    → Linked s b xs (head_or e ys)
    → Linked s (last_or b xs) ys e
    → Linked s b (xs ++ ys) e
Linked-append s b [] ys e h k = k
Linked-append s b (x ∷ xs) ys e h k =
    (h.0, h.1, h.2 ∙ sym (head_or-append e xs ys), Linked-append s x xs ys e h.3 k)

pub Linked-split :
    (s : Chain) (b : ℕ) (xs ys : List ℕ) (e : ℕ)
    → Linked s b (xs ++ ys) e
    → Linked s b xs (head_or e ys) × Linked s (last_or b xs) ys e
Linked-split s b [] ys e h = (tt, h)
Linked-split s b (x ∷ xs) ys e h =
    let rest = Linked-split s x xs ys e h.3 in
    ((h.0, h.1, h.2 ∙ head_or-append e xs ys, rest.0), rest.1)

-- The links of a list survive a change elsewhere.
pub frame :
    (s s' : Chain) (b : ℕ) (xs : List ℕ) (e : ℕ)
    → ((x : ℕ) → 0 < count x xs → (s'.next x ≡ s.next x) × (s'.prev x ≡ s.prev x))
    → Linked s b xs e
    → Linked s' b xs e
unfolding count
frame s s' b [] e same h = tt
frame s s' b (x ∷ xs) e same h =
    let here = same x (ground arith) in
    let later = λ (y : ℕ) (k : 0 < count y xs). same y (omega (arith, k)) in
    (h.0, here.1 ∙ h.1, here.0 ∙ h.2, frame s s' x xs e later h.3)

-- No node of a list is null.
pub Linked-positive :
    (s : Chain) (b : ℕ) (xs : List ℕ) (e x : ℕ) → Linked s b xs e → 0 < count x xs → 0 < x
unfolding count
Linked-positive s b [] e x h k = ground arith
Linked-positive s b (y ∷ xs) e x h k = ground (arith, Linked-positive s y xs e x h.3)
