-- ===== src/Lists/Compare.antt =====
-- The order of lists (rct/List.h): shorter ones first, then by the first elements that differ.
use rct.Prelude.{
  ℕ, ◌≡◌, refl, Bool, true, false, not, ◌&&◌, List, [], ◌∷◌, if◌then◌else◌, ltb, leb, ◌==◌, length,
  arith,
}
use rct.Prelude.Sorting.{IsStrictWeak}
use rct.Set.{Order}
use rct.Lists.{compare_elements, compare, less_than}

-- The elements' `compare` is that of an order on them.
pub record Compares {T : Type 0} (o : Order T) (element_compare : T → T → ℕ) : Type 0 where
  pub negative : (a b : T) → leb 0x8000_0000 (element_compare a b) ≡ o.less a b
  pub zero : (a b : T) → (element_compare a b == 0) ≡ (not (o.less a b) && not (o.less b a))

module _ {T : Type 0} (o : Order T) (element_compare : T → T → ℕ)
    (c : Compares o element_compare) where
  -- By the elements alone, for lists of the same length.
  less_elements : List T → List T → Bool
  less_elements [] bs = false
  less_elements (a ∷ xs) [] = false
  less_elements (a ∷ xs) (b ∷ bs) =
      let rest = less_elements xs bs in
      if o.less a b then true else if o.less b a then false else rest

  compare_elements-less :
      (xs other : List T)
      → leb 0x8000_0000 (compare_elements element_compare xs other) ≡ less_elements xs other
  unfolding compare_elements less_elements
  compare_elements-less [] other = refl
  compare_elements-less (a ∷ xs) [] = refl
  compare_elements-less (a ∷ xs) (b ∷ bs) =
      let ih = compare_elements-less xs bs in
      let negative = c.negative a b in
      let zero = c.zero a b in let asym = o.trans a b a in let irrefl = o.irrefl a in grind arith

  less_elements-asym :
      (xs other : List T) → less_elements xs other ≡ true → less_elements other xs ≡ false
  unfolding less_elements
  less_elements-asym [] [] h = refl
  less_elements-asym [] (b ∷ bs) h = refl
  less_elements-asym (a ∷ xs) [] h = refl
  less_elements-asym (a ∷ xs) (b ∷ bs) h =
      let ih = less_elements-asym xs bs in
      let asym = o.trans a b a in let irrefl = o.irrefl a in grind arith

  less_elements-negtrans :
      (xs ys zs : List T)
      → length xs ≡ length ys
      → length ys ≡ length zs
      → less_elements xs ys ≡ false
      → less_elements ys zs ≡ false
      → less_elements xs zs ≡ false
  unfolding less_elements
  less_elements-negtrans [] ys zs l m h k = refl
  less_elements-negtrans (x ∷ xs) ys [] l m h k = refl
  less_elements-negtrans (x ∷ xs) [] (z ∷ zs) l m h k = absurd (omega (arith, l))
  less_elements-negtrans (x ∷ xs) (y ∷ ys) (z ∷ zs) l m h k =
      let ih = less_elements-negtrans xs ys zs (omega (arith, l)) (omega (arith, m)) in
      let eq_xy = o.total x y in
      let eq_yz = o.total y z in
      let eq_xz = o.total x z in
      let yx_z = o.trans y x z in
      let xz_y = o.trans x z y in
      let zy_x = o.trans z y x in
      let irrefl_x = o.irrefl x in
      let irrefl_y = o.irrefl y in let irrefl_z = o.irrefl z in grind arith

  less_than-less :
      (xs other : List T)
      → less_than element_compare xs other ≡ (
          if ltb (length xs) (length other)
          then true
          else if ltb (length other) (length xs)
          then false
          else less_elements xs other)
  unfolding less_than compare
  less_than-less xs other = let elements = compare_elements-less xs other in ground arith

  -- operator< of lists is a strict weak order, as std::sort and std::set want it, if the elements'
  -- compare is that of a strict total order.
  pub less_than-IsStrictWeak : IsStrictWeak {A = List T} (λ xs. Unit) (less_than element_compare)
  less_than-IsStrictWeak = record {
    asym = λ xs ys p q h.
        let one = less_than-less xs ys in
        let other = less_than-less ys xs in let elements = less_elements-asym xs ys in grind arith;
    negtrans = λ xs ys zs p q r h k.
        let xy = less_than-less xs ys in
        let yz = less_than-less ys zs in
        let xz = less_than-less xs zs in
        let elements = less_elements-negtrans xs ys zs in grind arith;
  }
