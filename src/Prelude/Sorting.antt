-- ===== src/Prelude/Sorting.antt =====
-- What the code relies on of `std::sort`, and a sort that keeps it.
use mathlib.Core.List.{Perm}
use mathlib.Core.List.Perm
use rct.Prelude.{◌≡◌, inl, inr, Bool, true, false, List, [], ◌∷◌, All, Bool-cases, if◌then◌else◌}

-- A strict weak order on the elements of `P`.
pub record IsStrictWeak {A : Type 0} (P : A → Type 0) (less : A → A → Bool) : Type 0 where
  pub asym : (a b : A) → P a → P b → less a b ≡ true → less b a ≡ false
  pub negtrans :
      (a b c : A) → P a → P b → P c → less a b ≡ false → less b c ≡ false → less a c ≡ false

-- No element stands behind one that it comes before.
unfoldable pub Sorted : {A : Type 0} → (A → A → Bool) → List A → Type 0
Sorted less [] = Unit
Sorted less (x ∷ xs) = All (λ y. less y x ≡ false) xs × Sorted less xs

-- What `std::sort` promises, for the orders that it can be called with.
pub record Sorts {A : Type 0} (sort : (A → A → Bool) → List A → List A) : Type 1 where
  pub same : (less : A → A → Bool) (xs : List A) → Perm (sort less xs) xs
  pub sorted :
      (P : A → Type 0) (less : A → A → Bool) (xs : List A)
      → IsStrictWeak P less
      → All P xs
      → Sorted less (sort less xs)

module _ {A : Type 0} where
  unfoldable pub insert : (A → A → Bool) → A → List A → List A
  insert less x [] = x ∷ []
  insert less x (y ∷ ys) = if less y x then y ∷ insert less x ys else x ∷ y ∷ ys

  unfoldable pub insertion_sort : (A → A → Bool) → List A → List A
  insertion_sort less [] = []
  insertion_sort less (x ∷ xs) = insert less x (insertion_sort less xs)

  insert-Perm : (less : A → A → Bool) (x : A) (ys : List A) → Perm (insert less x ys) (x ∷ ys)
  unfolding insert
  insert-Perm less x [] = Perm.refl (x ∷ [])
  insert-Perm less x (y ∷ ys) = elim (Bool-cases (less y x)) [
    | inl t ↦ rw (t) (Perm.trans (Perm.cons y (insert-Perm less x ys)) (Perm.swap x y ys))
    | inr f ↦ rw (f) (Perm.refl (x ∷ y ∷ ys))
  ]

  insertion_sort-Perm : (less : A → A → Bool) (xs : List A) → Perm (insertion_sort less xs) xs
  unfolding insertion_sort
  insertion_sort-Perm less [] = Perm.refl []
  insertion_sort-Perm less (x ∷ xs) =
      Perm.trans (insert-Perm less x (insertion_sort less xs))
        (Perm.cons x (insertion_sort-Perm less xs))

  insert-All :
      (P : A → Type 0) (less : A → A → Bool) (x : A) (ys : List A)
      → P x
      → All P ys
      → All P (insert less x ys)
  unfolding insert
  insert-All P less x [] h k = (h, tt)
  insert-All P less x (y ∷ ys) h k = elim (Bool-cases (less y x)) [
    | inl t ↦ rw (t) ((k.0, insert-All P less x ys h k.1))
    | inr f ↦ rw (f) ((h, k))
  ]

  insertion_sort-All :
      (P : A → Type 0) (less : A → A → Bool) (xs : List A)
      → All P xs
      → All P (insertion_sort less xs)
  unfolding insertion_sort
  insertion_sort-All P less [] h = tt
  insertion_sort-All P less (x ∷ xs) h =
      insert-All P less x (insertion_sort less xs) h.0 (insertion_sort-All P less xs h.1)

module _ {A : Type 0} {P : A → Type 0} {less : A → A → Bool} (order : IsStrictWeak P less) where
  -- What does not come before `x` does not come before `y` either.
  none_before :
      (x y : A) (ys : List A)
      → P x
      → P y
      → All P ys
      → less x y ≡ false
      → All (λ z. less z x ≡ false) ys
      → All (λ z. less z y ≡ false) ys
  none_before x y [] p q all h k = tt
  none_before x y (z ∷ zs) p q all h k =
      (order.negtrans z x y all.0 p q k.0 h, none_before x y zs p q all.1 h k.1)

  insert-Sorted :
      (x : A) (ys : List A) → P x → All P ys → Sorted less ys → Sorted less (insert less x ys)
  unfolding insert Sorted
  insert-Sorted x [] p all s = (tt, tt)
  insert-Sorted x (y ∷ ys) p all s = elim (Bool-cases (less y x)) [
    | inl t ↦ rw (t) (
        (
          insert-All (λ z. less z y ≡ false) less x ys (order.asym y x all.0 p t) s.0,
          insert-Sorted x ys p all.1 s.1,
        ))
    | inr f ↦ rw (f) (((f, none_before y x ys all.0 p all.1 f s.0), s))
  ]

  insertion_sort-Sorted : (xs : List A) → All P xs → Sorted less (insertion_sort less xs)
  unfolding insertion_sort Sorted
  insertion_sort-Sorted [] h = tt
  insertion_sort-Sorted (x ∷ xs) h =
      insert-Sorted x (insertion_sort less xs) h.0 (insertion_sort-All P less xs h.1)
        (insertion_sort-Sorted xs h.1)

pub insertion_sort-Sorts : {A : Type 0} → Sorts {A = A} insertion_sort
insertion_sort-Sorts = record {
  same = insertion_sort-Perm;
  sorted = λ P less xs order all. insertion_sort-Sorted order xs all;
}
