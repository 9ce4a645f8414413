-- ===== src/Set/Compare.antt =====
-- rct/Set.h: comparisons of sets, which go through a number without a sign.
use rct.Prelude.{
  ℕ, ◌≡◌, ◌↔◌, refl, ap₂, inl, inr, true, false, List, [], ◌∷◌, ◌==◌, eq_of, eq_true, Bool-cases,
  length, arith,
}
use rct.Set.{compare_elements, compare, equal, not_equal, less_than, greater_than}

module _ {T : Type 0} (element_compare : T → T → ℕ)
    (faithful : (a b : T) → (element_compare a b ≡ 0) ↔ (a ≡ b)) where
  compare_elements-zero :
      (s other : List T)
      → length s ≡ length other
      → compare_elements element_compare s other ≡ 0
      → s ≡ other
  unfolding compare_elements
  compare_elements-zero [] [] l h = refl
  compare_elements-zero [] (b ∷ bs) l h = absurd (omega (arith, l))
  compare_elements-zero (a ∷ s) [] l h = absurd (omega (arith, l))
  compare_elements-zero (a ∷ s) (b ∷ bs) l h = elim (Bool-cases (element_compare a b == 0)) [
    | inl t ↦
        ap₂ (λ x xs. x ∷ xs) ((faithful a b).0 (eq_of (element_compare a b) 0 t))
          (compare_elements-zero s bs (omega (arith, l)) (rw (t) at h))
    | inr t ↦ let k : element_compare a b ≡ 0 = rw (t) at h in absurd (cc (t, eq_true k))
  ]

  compare_elements_same : (s : List T) → compare_elements element_compare s s ≡ 0
  unfolding compare_elements
  compare_elements_same [] = refl
  compare_elements_same (a ∷ s) = rw ((faithful a a).1 refl) (compare_elements_same s)

  compare-zero : (s other : List T) → compare element_compare s other ≡ 0 → s ≡ other
  unfolding compare
  compare-zero s other h = let elements = compare_elements-zero s other in grind arith

  compare_same : (s : List T) → compare element_compare s s ≡ 0
  unfolding compare
  compare_same s = let elements = compare_elements_same s in ground arith

  -- Sets compare equal if and only if they have the same elements, if the elements compare so;
  -- but no set is less than another one, and each one is greater than every other one.
  pub compare-equal :
      (s other : List T)
      → ((equal element_compare s other ≡ true) ↔ (s ≡ other))
        × (less_than element_compare s other ≡ false)
        × (greater_than element_compare s other ≡ not_equal element_compare s other)
  unfolding equal less_than greater_than not_equal
  compare-equal s other =
      let c = compare element_compare s other in
      (
        (λ h. compare-zero s other (eq_of c 0 h), λ e. rw (← e) (eq_true (compare_same s))),
        ground arith,
        ground arith,
      )
