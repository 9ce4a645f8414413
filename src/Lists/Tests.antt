-- ===== src/Lists/Tests.antt =====
-- Lists (rct/List.h) of numbers.
use rct.Prelude.{ℕ, ◌≡◌, refl, true, List, [], ◌∷◌, some, none, if◌then◌else◌, ltb, ◌==◌, arith}
use rct.Prelude.Sorting.{IsStrictWeak}
use rct.Set.{numbers}
use rct.Lists.{remove, remove_loop, erase_first, mid, less_than, compare, compare_elements}
use rct.Lists.Compare.{Compares, less_than-IsStrictWeak}

removed : remove ◌==◌ 3 (3 ∷ 1 ∷ 3 ∷ 2 ∷ []) ≡ some (2, 1 ∷ 2 ∷ [])
unfolding remove remove_loop erase_first
removed = refl

middle : mid {T = ℕ} 1 none (3 ∷ 1 ∷ 2 ∷ []) ≡ 1 ∷ 2 ∷ []
unfolding mid
middle = refl

-- -1, 0 or 1 as an `int`.
abbrev by_value : ℕ → ℕ → ℕ
by_value a b = if ltb a b then 0xffff_ffff else if a == b then 0 else 1

by_value-Compares : Compares numbers by_value
by_value-Compares = record { negative = λ a b. ground arith; zero = λ a b. ground arith }

less_than-IsStrictWeak_example : IsStrictWeak {A = List ℕ} (λ xs. Unit) (less_than by_value)
less_than-IsStrictWeak_example = less_than-IsStrictWeak numbers by_value by_value-Compares

shorter_first : less_than by_value (9 ∷ []) (1 ∷ 2 ∷ []) ≡ true
unfolding less_than compare compare_elements
shorter_first = refl
