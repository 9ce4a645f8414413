-- ===== src/Prelude/Puts.antt =====
-- Functions on numbers changed at one place, and how often a number stands in a list.
use Prim.Native.Nat.{ℕ, ◌+◌, ◌<◌, ◌≤◌}
use mathlib.Core.Logic.{◌≢◌}
use mathlib.Core.Path.{◌≡◌, refl, ap}
use mathlib.Core.Bool.{false}
use mathlib.Core.List.{List, [], ◌∷◌, ◌++◌}
use native.Mathlib.Omega.{arith}
use rct.Prelude.Tests.{◌==◌, if◌then◌else◌, eq_true, eq_false}

unfoldable pub put {ℓ} : {A : Type ℓ} → ℕ → A → (ℕ → A) → ℕ → A
put j x f k = if k == j then x else f k

unfoldable pub count : ℕ → List ℕ → ℕ
count j [] = 0
count j (k ∷ ks) = (if k == j then 1 else 0) + count j ks

pub count-append : (j : ℕ) (xs ys : List ℕ) → count j (xs ++ ys) ≡ count j xs + count j ys
unfolding count
count-append j [] ys = omega arith
count-append j (x ∷ xs) ys = omega (arith, count-append j xs ys)

pub count-head :
    (j x : ℕ) (xs : List ℕ) → count j (x ∷ xs) ≡ 0 → ((x == j) ≡ false) × (count j xs ≡ 0)
unfolding count
count-head j x xs h = (ground arith, omega (arith, h))

pub count-one : (k j : ℕ) → count k (j ∷ []) ≡ (if j == k then 1 else 0)
unfolding count
count-one k j = omega arith

pub put_here {ℓ} : {A : Type ℓ} (j : ℕ) (x : A) (f : ℕ → A) → put j x f j ≡ x
unfolding put
put_here j x f = let e : j ≡ j = refl in rw (eq_true e) refl

pub put_there {ℓ} :
    {A : Type ℓ} (j : ℕ) (x : A) (f : ℕ → A) (k : ℕ) → (k == j) ≡ false → put j x f k ≡ f k
unfolding put
put_there j x f k h = rw (h) refl

pub put_ne {ℓ} : {A : Type ℓ} (j : ℕ) (x : A) (f : ℕ → A) (k : ℕ) → k ≢ j → put j x f k ≡ f k
put_ne j x f k h = put_there j x f k (eq_false h)

-- How a number that stands in a list differs from one that does not.
pub count-zero_head : (t x : ℕ) (xs : List ℕ) → count t (x ∷ xs) ≡ 0 → (x ≢ t) × (count t xs ≡ 0)
unfolding count
count-zero_head t x xs h = (ground arith, omega (arith, h))

pub count-once_head : (x : ℕ) (xs : List ℕ) → count x (x ∷ xs) ≤ 1 → count x xs ≡ 0
unfolding count
count-once_head x xs h = ground arith

pub count_self : (x : ℕ) (xs : List ℕ) → count x (x ∷ xs) ≡ count x xs + 1
unfolding count
count_self x xs = ground arith

pub count-cons_ne : (x t : ℕ) (xs : List ℕ) → x ≢ t → count t (x ∷ xs) ≡ count t xs
unfolding count
count-cons_ne x t xs h = rw (eq_false h) (omega arith)

pub count-cons-le : (t x : ℕ) (xs : List ℕ) → count t xs ≤ count t (x ∷ xs)
unfolding count
count-cons-le t x xs = omega arith

pub count-ne : (x t : ℕ) (xs : List ℕ) → 0 < count x xs → count t xs ≡ 0 → x ≢ t
count-ne x t xs h k e =
    let same : count x xs ≡ count t xs = ap (λ y. count y xs) e in omega (arith, h, k, same)
