-- ===== src/Lists.antt =====
-- rct/List.h: what the class List adds to `std::vector`.
mod Remove
pub mod Compare
mod Tests
use Prim.Native.Nat.{min}
use rct.Prelude.{
  ℕ, zero, suc, ◌+◌, ◌-◌, Bool, true, false, not, ◌&&◌, List, [], ◌∷◌, ◌++◌, Option, none, some,
  if◌then◌else◌, ltb, leb, ◌==◌, length, take, drop,
}
use rct.Prelude.Words.{npos}

module _ {T : Type 0} (eq : T → T → Bool) where
  -- `std::find`, from the place `from` on.
  unfoldable pub find : T → ℕ → List T → ℕ
  find t from [] = npos
  find t from (x ∷ xs) = let rest = find t (from + 1) xs in if eq x t then from else rest

  unfoldable pub index_of : T → List T → ℕ
  index_of t xs = find t 0 xs

  unfoldable pub contains : T → List T → Bool
  contains t [] = false
  contains t (x ∷ xs) = if eq x t then true else contains t xs

  -- `erase` of what `std::find` finds, if it finds something.
  unfoldable pub erase_first : T → List T → Option (List T)
  erase_first t [] = none
  erase_first t (x ∷ xs) =
      let rest = erase_first t xs in
      if eq x t then some xs else elim rest [ none ↦ none | some ys ↦ some (x ∷ ys) ]

  -- The loop of `remove`; `none` is the end of the fuel.
  unfoldable pub remove_loop : ℕ → T → ℕ → List T → Option (ℕ × List T)
  remove_loop zero t ret xs = none
  remove_loop (suc fuel) t ret xs = elim (erase_first t xs) [
    | none ↦ some (ret, xs)
    | some ys ↦ remove_loop fuel t (ret + 1) ys
  ]

  unfoldable pub remove : T → List T → Option (ℕ × List T)
  remove t xs = remove_loop (suc (length xs)) t 0 xs

  unfoldable pub starts_with : List T → List T → Bool
  starts_with xs [] = true
  starts_with [] (t ∷ ts) = false
  starts_with (x ∷ xs) (t ∷ ts) = eq x t && starts_with xs ts

module _ {T : Type 0} where
  -- The overload of `remove` for a test.
  unfoldable pub remove_if : (T → Bool) → List T → ℕ × List T
  remove_if match [] = (0, [])
  remove_if match (x ∷ xs) =
      let rest = remove_if match xs in
      if match x then (suc rest.0, rest.1) else (rest.0, x ∷ rest.1)

  -- `mid`, whose length is `none` if it is negative.
  unfoldable pub mid : ℕ → Option ℕ → List T → List T
  mid from len xs =
      let left = length xs - from in
      if leb (length xs) from
      then []
      else take (elim len [ none ↦ left | some n ↦ min left n ]) (drop from xs)

  -- `chop`; `none` is the failed assertion.
  unfoldable pub chop : ℕ → List T → Option (List T)
  chop count xs = if leb count (length xs) then some (take (length xs - count) xs) else none

  unfoldable pub truncate : ℕ → List T → ℕ × List T
  truncate count xs = if ltb count (length xs) then (length xs - count, take count xs) else (0, xs)

-- `compare` returns an `int`, by its 32 bits; so does that of the elements.
module _ {T : Type 0} (element_compare : T → T → ℕ) where
  unfoldable pub compare_elements : List T → List T → ℕ
  compare_elements [] bs = 0
  compare_elements (a ∷ xs) [] = 0
  compare_elements (a ∷ xs) (b ∷ bs) =
      let rest = compare_elements xs bs in
      let cmp = element_compare a b in if cmp == 0 then rest else cmp

  unfoldable pub compare : List T → List T → ℕ
  compare xs other =
      if ltb (length xs) (length other)
      then 0xffff_ffff
      else if ltb (length other) (length xs)
      then 1
      else compare_elements xs other

  unfoldable pub equal : List T → List T → Bool
  equal xs other = compare xs other == 0

  unfoldable pub less_than : List T → List T → Bool
  less_than xs other = leb 0x8000_0000 (compare xs other)
