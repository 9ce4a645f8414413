-- ===== src/Set.antt =====
-- rct/Set.h: sets over `std::set`, with an order on their elements.
pub mod Members
pub mod Loops
pub mod Algebra
pub mod Compare
mod Tests
use rct.Prelude.{
  ltb_irrefl, ltb_trans, ltb_total, ℕ, zero, suc, ◌+◌, ◌≡◌, Bool, true, false, not, ◌||◌, List, [],
  ◌∷◌, if◌then◌else◌, ltb, ◌==◌, length,
}

-- `operator<` of the elements, a strict total order.
pub record Order (T : Type 0) : Type 0 where
  pub less : T → T → Bool
  pub irrefl : (a : T) → less a a ≡ false
  pub trans : (a b c : T) → less a b ≡ true → less b c ≡ true → less a c ≡ true
  pub total : (a b : T) → less a b ≡ false → less b a ≡ false → a ≡ b

-- The order of numbers.
abbrev pub numbers : Order ℕ
numbers = record { less = ltb; irrefl = ltb_irrefl; trans = ltb_trans; total = ltb_total }

-- The elements of a `std::set` in their order.
module _ {T : Type 0} (o : Order T) where
  unfoldable pub contains : T → List T → Bool
  contains t [] = false
  contains t (x ∷ xs) =
      let rest = contains t xs in if o.less t x then false else if o.less x t then rest else true

  -- Whether the element is new, as `insert` returns, and the set.
  unfoldable pub insert : T → List T → Bool × List T
  insert t [] = (true, t ∷ [])
  insert t (x ∷ xs) =
      let rest = insert t xs in
      if o.less t x
      then (true, t ∷ x ∷ xs)
      else if o.less x t
      then (rest.0, x ∷ rest.1)
      else (false, x ∷ xs)

  -- `erase` of an element: how many there were, and the set.
  unfoldable pub erase : T → List T → ℕ × List T
  erase t [] = (0, [])
  erase t (x ∷ xs) =
      let rest = erase t xs in
      if o.less t x then (0, x ∷ xs) else if o.less x t then (rest.0, x ∷ rest.1) else (1, xs)

  unfoldable pub remove : T → List T → Bool × List T
  remove t s = if contains t s then (true, (erase t s).1) else (false, s)

  -- The loop of `unite`, which counts the elements that are new.
  unfoldable pub insert_all : List T → ℕ × List T → ℕ × List T
  insert_all [] r = r
  insert_all (t ∷ ts) r =
      let i = insert t r.1 in insert_all ts ((if i.0 then r.0 + 1 else r.0), i.1)

  unfoldable pub unite : List T → List T → ℕ × List T
  unite s other = if length s == 0 then (length other, other) else insert_all other (0, s)

  -- The overload for a `List`.
  unfoldable pub unite_list : List T → List T → ℕ × List T
  unite_list s other = insert_all other (0, s)

  unfoldable pub intersects : List T → List T → Bool
  intersects s [] = false
  intersects s (t ∷ other) = if contains t s then true else intersects s other

  unfoldable pub insert_common : List T → List T → List T → List T
  insert_common s [] ret = ret
  insert_common s (t ∷ other) ret =
      insert_common s other (if contains t s then (insert t ret).1 else ret)

  unfoldable pub intersected : List T → List T → List T
  intersected s other = insert_common s other []

  unfoldable pub erase_all : List T → ℕ × List T → ℕ × List T
  erase_all [] r = r
  erase_all (t ∷ ts) r = let e = erase t r.1 in erase_all ts (r.0 + e.0, e.1)

  unfoldable pub subtract : List T → List T → ℕ × List T
  subtract s other = if length s == 0 then (0, s) else erase_all other (0, s)

-- The overload of `remove` for a test: how many elements it erases, and the set.
unfoldable pub remove_if : {T : Type 0} → (T → Bool) → List T → ℕ × List T
remove_if match [] = (0, [])
remove_if match (x ∷ xs) =
    let rest = remove_if match xs in if match x then (rest.0 + 1, rest.1) else (rest.0, x ∷ rest.1)

-- `compare` returns a `size_t`, -1 as well as what the elements' `compare` returns.
module _ {T : Type 0} (element_compare : T → T → ℕ) where
  unfoldable pub compare_elements : List T → List T → ℕ
  compare_elements [] bs = 0
  compare_elements (a ∷ s) [] = 0
  compare_elements (a ∷ s) (b ∷ bs) =
      let rest = compare_elements s bs in
      let cmp = element_compare a b in if cmp == 0 then rest else cmp

  unfoldable pub compare : List T → List T → ℕ
  compare s other =
      let me = length s in
      let him = length other in
      if ltb me him
      then 0xffff_ffff_ffff_ffff
      else if ltb him me
      then 1
      else compare_elements s other

  unfoldable pub equal : List T → List T → Bool
  equal s other = compare s other == 0

  unfoldable pub not_equal : List T → List T → Bool
  not_equal s other = not (compare s other == 0)

  unfoldable pub less_than : List T → List T → Bool
  less_than s other = ltb (compare s other) 0

  unfoldable pub greater_than : List T → List T → Bool
  greater_than s other = ltb 0 (compare s other)
