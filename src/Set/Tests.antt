-- ===== src/Set/Tests.antt =====
-- Sets (rct/Set.h) of numbers.
use rct.Prelude.{ℕ, ◌≡◌, refl, true, false, List, [], ◌∷◌, if◌then◌else◌, ltb, ◌==◌, arith, ◌↔◌}
use rct.Set.{
  numbers, insert, insert_all, unite, unite_list, intersected, intersects, erase, erase_all,
  subtract, equal, less_than, greater_than, not_equal,
}
use rct.Set.Members.{IsSorted}
use rct.Set.Algebra.{IsUnion, IsUnionList, IsDifference, IsIntersection, Meets, algebra-IsUnion}
use rct.Set.Compare.{compare-equal}

abbrev odd : List ℕ
odd = 1 ∷ 3 ∷ 5 ∷ []

abbrev small : List ℕ
small = 1 ∷ 2 ∷ 3 ∷ []

-- A list that does not ascend, with a number twice.
abbrev shuffled : List ℕ
shuffled = 7 ∷ 3 ∷ 7 ∷ 2 ∷ []

united_list : unite_list numbers odd shuffled ≡ (2, 1 ∷ 2 ∷ 3 ∷ 5 ∷ 7 ∷ [])
unfolding unite_list insert_all insert
united_list = refl

odd-IsSorted : IsSorted numbers odd
unfolding IsSorted
odd-IsSorted = ((refl, (refl, tt)), ((refl, tt), (tt, tt)))

small-IsSorted : IsSorted numbers small
unfolding IsSorted
small-IsSorted = ((refl, (refl, tt)), ((refl, tt), (tt, tt)))

united : unite numbers odd small ≡ (1, 1 ∷ 2 ∷ 3 ∷ 5 ∷ [])
unfolding unite insert_all insert
united = refl

left_over : subtract numbers odd small ≡ (2, 5 ∷ [])
unfolding subtract erase_all erase
left_over = refl

algebra-IsUnion_example :
    IsUnion numbers odd small (unite numbers odd small)
    × IsUnionList numbers odd shuffled (unite_list numbers odd shuffled)
    × IsDifference numbers odd small (subtract numbers odd small)
    × IsIntersection numbers odd small (intersected numbers odd small)
    × Meets numbers odd small (intersects numbers odd small)
algebra-IsUnion_example = algebra-IsUnion numbers odd small shuffled odd-IsSorted small-IsSorted

-- 1, 0 or -1 as a `size_t`.
abbrev by_value : ℕ → ℕ → ℕ
by_value a b = if ltb a b then 0xffff_ffff_ffff_ffff else if a == b then 0 else 1

by_value-faithful : (a b : ℕ) → (by_value a b ≡ 0) ↔ (a ≡ b)
by_value-faithful a b = ground arith

compare-equal_example :
    ((equal by_value odd small ≡ true) ↔ (odd ≡ small))
    × (less_than by_value odd small ≡ false)
    × (greater_than by_value odd small ≡ not_equal by_value odd small)
compare-equal_example = compare-equal by_value by_value-faithful odd small
