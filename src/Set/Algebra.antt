-- ===== src/Set/Algebra.antt =====
-- rct/Set.h: union, intersection and difference, by the elements that the sets have.
use rct.Prelude.{
  empty_eq, ℕ, ◌+◌, ◌≡◌, ◌∙◌, refl, sym, ap, inl, inr, Bool, true, not, ◌&&◌, ◌||◌, List, [],
  Bool-cases, ◌==◌, eq_of, length, arith,
}
use rct.Set.{Order, contains, unite, unite_list, intersected, intersects, subtract}
use rct.Set.Members.{IsSorted}
use rct.Set.Loops.{
  mem, or_false, and_comm, or_comm, contains-mem, insert_all-contains, insert_all-count,
  insert_all-IsSorted, erase_all-contains, erase_all-count, erase_all-IsSorted,
  insert_common-contains, insert_common-IsSorted, intersects-mem, intersects-found,
}

module _ {T : Type 0} (o : Order T) where
  -- What a result promises of its elements and of the number that the code counts.
  pub record IsUnion (s other : List T) (r : ℕ × List T) : Type 0 where
    pub sorted : IsSorted o r.1
    pub elements : (t : T) → contains o t r.1 ≡ (contains o t s || contains o t other)
    pub count : r.0 + length s ≡ length r.1

  pub record IsDifference (s other : List T) (r : ℕ × List T) : Type 0 where
    pub sorted : IsSorted o r.1
    pub elements : (t : T) → contains o t r.1 ≡ (contains o t s && not (contains o t other))
    pub count : r.0 + length r.1 ≡ length s

  pub record IsIntersection (s other r : List T) : Type 0 where
    pub sorted : IsSorted o r
    pub elements : (t : T) → contains o t r ≡ (contains o t s && contains o t other)

  -- The same for a list in any order and with any repetition: `mem` asks every element of it.
  pub record IsUnionList (s list : List T) (r : ℕ × List T) : Type 0 where
    pub sorted : IsSorted o r.1
    pub elements : (t : T) → contains o t r.1 ≡ (contains o t s || mem o t list)
    pub count : r.0 + length s ≡ length r.1

  unite_list-IsUnionList :
      (s list : List T) → IsSorted o s → IsUnionList s list (unite_list o s list)
  unfolding unite_list
  unite_list-IsUnionList s list a = record {
    sorted = insert_all-IsSorted o list (0, s) a;
    elements = λ t. insert_all-contains o t list (0, s) ∙ or_comm (mem o t list) (contains o t s);
    count = omega (arith, insert_all-count o list (0, s));
  }

  IsUnion-list :
      (s other : List T) (r : ℕ × List T)
      → IsSorted o other
      → IsUnionList s other r
      → IsUnion s other r
  IsUnion-list s other r b u = record {
    sorted = u.sorted;
    elements = λ t. u.elements t ∙ ap (λ x. contains o t s || x) (sym (contains-mem o t other b));
    count = u.count;
  }

  unite-IsUnion :
      (s other : List T) → IsSorted o s → IsSorted o other → IsUnion s other (unite o s other)
  unfolding unite unite_list contains
  unite-IsUnion s other a b = elim (Bool-cases (length s == 0)) [
    | inl e ↦
        let nothing : s ≡ [] = empty_eq s (eq_of (length s) 0 e) in
        rw (e) (record {
          sorted = b;
          elements = λ t. rw (nothing) refl;
          count = omega (arith, eq_of (length s) 0 e);
        })
    | inr e ↦ rw (e) (IsUnion-list s other _ b (unite_list-IsUnionList s other a))
  ]

  intersected-IsIntersection :
      (s other : List T) → IsSorted o other → IsIntersection s other (intersected o s other)
  unfolding intersected IsSorted contains
  intersected-IsIntersection s other b = record {
    sorted = insert_common-IsSorted o s other [] tt;
    elements = λ t.
        insert_common-contains o t s other []
        ∙ rw (contains-mem o t other b) (
            or_false (mem o t other && contains o t s) ∙ and_comm (mem o t other) (contains o t s));
  }

  subtract-IsDifference :
      (s other : List T)
      → IsSorted o s
      → IsSorted o other
      → IsDifference s other (subtract o s other)
  unfolding subtract contains
  subtract-IsDifference s other a b = elim (Bool-cases (length s == 0)) [
    | inl e ↦
        let nothing : s ≡ [] = empty_eq s (eq_of (length s) 0 e) in
        rw (e) (record { sorted = a; elements = λ t. rw (nothing) refl; count = omega arith })
    | inr e ↦ rw (e) (record {
      sorted = erase_all-IsSorted o other (0, s) a;
      elements = λ t.
          erase_all-contains o t other (0, s) a
          ∙ ap (λ x. contains o t s && not x) (sym (contains-mem o t other b));
      count = omega (arith, erase_all-count o other (0, s));
    })
  ]

  -- Two sets meet if and only if an element is in both.
  pub record Meets (s other : List T) (b : Bool) : Type 0 where
    pub here : (t : T) → contains o t s ≡ true → contains o t other ≡ true → b ≡ true
    pub there : b ≡ true → (t : T) × (contains o t s ≡ true) × (contains o t other ≡ true)

  intersects-Meets : (s other : List T) → IsSorted o other → Meets s other (intersects o s other)
  intersects-Meets s other b = record {
    here = λ t h k. intersects-mem o t s other (rw (← contains-mem o t other b, k) h);
    there =
        λ h. let (t, k, l) = intersects-found o s other h in (t, l, contains-mem o t other b ∙ k);
  }

  -- For sets whose elements ascend: unite has the elements of both and counts those that are new;
  -- so does unite of a list, which is in any order and may repeat itself; subtract leaves those that
  -- the other set has not, and counts those that are gone; intersected has those of both, and
  -- intersects says whether there is one. The elements of the results ascend.
  pub algebra-IsUnion :
      (s other list : List T)
      → IsSorted o s
      → IsSorted o other
      → IsUnion s other (unite o s other)
        × IsUnionList s list (unite_list o s list)
        × IsDifference s other (subtract o s other)
        × IsIntersection s other (intersected o s other)
        × Meets s other (intersects o s other)
  algebra-IsUnion s other list a b = (
    unite-IsUnion s other a b,
    unite_list-IsUnionList s list a,
    subtract-IsDifference s other a b,
    intersected-IsIntersection s other b,
    intersects-Meets s other b,
  )
