-- ===== src/Lists/Remove.antt =====
-- `remove` of an element (rct/List.h) against the overload for a test.
use rct.Prelude.{
  ℕ, zero, suc, ◌+◌, ◌<◌, ◌≡◌, ◌∙◌, ◌⊎◌, refl, ap, inl, inr, Bool, List, [], ◌∷◌, none, some,
  length, Bool-cases, arith,
}
use rct.Lists.{erase_first, remove_loop, remove, remove_if}

module _ {T : Type 0} (eq : T → T → Bool) (t : T) where
  abbrev matches : T → Bool
  matches x = eq x t

  -- Either nothing is found, or one element less is left to remove.
  erase_first-cases :
      (xs : List T)
      → ((erase_first eq t xs ≡ none) × (remove_if matches xs ≡ (0, xs)))
        ⊎ ((ys : List T) × (erase_first eq t xs ≡ some ys)
            × (length xs ≡ suc (length ys))
            × (remove_if matches xs ≡ (suc (remove_if matches ys).0, (remove_if matches ys).1)))
  unfolding erase_first remove_if
  erase_first-cases [] = inl (refl, refl)
  erase_first-cases (x ∷ xs) = elim (Bool-cases (eq x t)) [
    | inl e ↦ inr (xs, rw (e) refl, refl, rw (e) refl)
    | inr e ↦ elim (erase_first-cases xs) [
      | inl h ↦ inl (rw (e, h.0, h.1) ((refl, refl)))
      | inr h ↦ inr (x ∷ h.0, rw (e, h.1) refl, ap suc h.2, rw (e, h.3) refl)
    ]
  ]

  remove_loop-remove_if :
      (fuel ret : ℕ) (xs : List T)
      → length xs < fuel
      → remove_loop eq fuel t ret xs
        ≡ some (ret + (remove_if matches xs).0, (remove_if matches xs).1)
  unfolding remove_loop
  remove_loop-remove_if zero ret xs h = absurd (omega arith)
  remove_loop-remove_if (suc fuel) ret xs h = elim (erase_first-cases xs) [
    | inl e ↦ let same : ret + 0 ≡ ret = omega arith in rw (e.0, remove_loop, e.1, same) refl
    | inr e ↦
        let rest = remove_loop-remove_if fuel (ret + 1) e.0 (omega (arith, e.2, h)) in
        rw (e.1, remove_loop, e.3, rest)
          (ap (λ n. some (n, (remove_if matches e.0).1)) (omega arith))
  ]

  -- remove of an element, which searches from the front again after each one, ends and does what remove of a test
  -- for the element does in one pass: what is equal to it is gone, the others stay in their order, and the
  -- number of those that are gone is returned.
  remove-remove_if : (xs : List T) → remove eq t xs ≡ some (remove_if matches xs)
  unfolding remove
  remove-remove_if xs =
      remove_loop-remove_if (suc (length xs)) 0 xs (omega arith)
      ∙ ap (λ n. some (n, (remove_if matches xs).1)) (omega arith)
