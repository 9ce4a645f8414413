-- ===== src/Set/Loops.antt =====
-- rct/Set.h: the loops of union, intersection and difference, by the elements that the sets have.
use rct.Prelude.{
  ℕ, ◌+◌, ◌≡◌, ◌∙◌, refl, sym, ap, inl, inr, Bool, true, false, not, ◌&&◌, ◌||◌, List, [], ◌∷◌,
  if◌then◌else◌, Bool-cases, length, arith,
}
use rct.Set.{Order, contains, insert, erase, insert_all, insert_common, intersects, erase_all}
use rct.Set.Members.{
  same, IsSorted, contains-insert, insert-new, erase-count, length-insert, length-erase,
  contains-above, contains-erase, insert-IsSorted, erase-IsSorted,
}

or_swap : (a b c : Bool) → (a || (b || c)) ≡ ((b || a) || c)
or_swap true true c = refl
or_swap true false c = refl
or_swap false true c = refl
or_swap false false c = refl

and-true : (a : Bool) → (a && true) ≡ a
and-true true = refl
and-true false = refl

and_not : (a b c : Bool) → ((a && not b) && not c) ≡ (a && not (b || c))
and_not true true c = refl
and_not true false c = refl
and_not false b c = refl

common_step :
    (e a b c d : Bool) → (e ≡ true → d ≡ b) → ((a && b) || ((d && e) || c)) ≡ (((e || a) && b) || c)
common_step e a b c d h = ground arith

pub or_false : (a : Bool) → (a || false) ≡ a
or_false true = refl
or_false false = refl

pub and_comm : (a b : Bool) → (a && b) ≡ (b && a)
and_comm a b = ground arith

pub or_comm : (a b : Bool) → (a || b) ≡ (b || a)
or_comm a b = ground arith

or_true : (a : Bool) → (a || true) ≡ true
or_true true = refl
or_true false = refl

module _ {T : Type 0} (o : Order T) where
  -- Whether an element is in a list.
  unfoldable pub mem : T → List T → Bool
  mem t [] = false
  mem t (x ∷ xs) = same o t x || mem t xs

  pub contains-mem : (t : T) (s : List T) → IsSorted o s → contains o t s ≡ mem t s
  unfolding contains mem same IsSorted
  contains-mem t [] a = refl
  contains-mem t (x ∷ xs) a =
      let ih = contains-mem t xs a.1 in
      let above = contains-above o t x xs a.0 in
      let both = o.trans t x t in let irrefl = o.irrefl t in grind arith

  pub insert_all-contains :
      (t : T) (ts : List T) (r : ℕ × List T)
      → contains o t (insert_all o ts r).1 ≡ (mem t ts || contains o t r.1)
  unfolding insert_all mem
  insert_all-contains t [] r = refl
  insert_all-contains t (u ∷ ts) r =
      let i = insert o u r.1 in
      insert_all-contains t ts ((if i.0 then r.0 + 1 else r.0), i.1)
      ∙ rw (contains-insert o t u r.1) (or_swap (mem t ts) (same o t u) (contains o t r.1))

  pub insert_all-count :
      (ts : List T) (r : ℕ × List T)
      → (insert_all o ts r).0 + length r.1 ≡ r.0 + length (insert_all o ts r).1
  unfolding insert_all
  insert_all-count [] r = refl
  insert_all-count (u ∷ ts) r =
      let i = insert o u r.1 in
      let ih = insert_all-count ts ((if i.0 then r.0 + 1 else r.0), i.1) in
      let new = insert-new o u r.1 in
      let size = length-insert o u r.1 in ground (arith, ih, new, size)

  pub insert_all-IsSorted :
      (ts : List T) (r : ℕ × List T) → IsSorted o r.1 → IsSorted o (insert_all o ts r).1
  unfolding insert_all
  insert_all-IsSorted [] r a = a
  insert_all-IsSorted (u ∷ ts) r a = insert_all-IsSorted ts _ (insert-IsSorted o u r.1 a)

  pub erase_all-contains :
      (t : T) (ts : List T) (r : ℕ × List T)
      → IsSorted o r.1
      → contains o t (erase_all o ts r).1 ≡ (contains o t r.1 && not (mem t ts))
  unfolding erase_all mem
  erase_all-contains t [] r a = sym (and-true (contains o t r.1))
  erase_all-contains t (u ∷ ts) r a =
      let e = erase o u r.1 in
      erase_all-contains t ts (r.0 + e.0, e.1) (erase-IsSorted o u r.1 a)
      ∙ rw (contains-erase o t u r.1 a) (and_not (contains o t r.1) (same o t u) (mem t ts))

  pub erase_all-count :
      (ts : List T) (r : ℕ × List T)
      → (erase_all o ts r).0 + length (erase_all o ts r).1 ≡ r.0 + length r.1
  unfolding erase_all
  erase_all-count [] r = refl
  erase_all-count (u ∷ ts) r =
      let e = erase o u r.1 in
      let ih = erase_all-count ts (r.0 + e.0, e.1) in
      let gone = erase-count o u r.1 in
      let size = length-erase o u r.1 in omega (arith, ih, gone, size)

  pub erase_all-IsSorted :
      (ts : List T) (r : ℕ × List T) → IsSorted o r.1 → IsSorted o (erase_all o ts r).1
  unfolding erase_all
  erase_all-IsSorted [] r a = a
  erase_all-IsSorted (u ∷ ts) r a = erase_all-IsSorted ts _ (erase-IsSorted o u r.1 a)

  same-eq : (t u : T) → same o t u ≡ true → t ≡ u
  unfolding same
  same-eq t u h = let eq = o.total t u in grind arith

  contains-next :
      (t u : T) (s ret : List T)
      → contains o t (if contains o u s then (insert o u ret).1 else ret)
        ≡ ((contains o u s && same o t u) || contains o t ret)
  contains-next t u s ret = elim (Bool-cases (contains o u s)) [
    | inl e ↦ rw (e) (contains-insert o t u ret)
    | inr e ↦ rw (e) refl
  ]

  pub insert_common-contains :
      (t : T) (s ts ret : List T)
      → contains o t (insert_common o s ts ret) ≡ ((mem t ts && contains o t s) || contains o t ret)
  unfolding insert_common mem
  insert_common-contains t s [] ret = refl
  insert_common-contains t s (u ∷ ts) ret =
      let next = if contains o u s then (insert o u ret).1 else ret in
      insert_common-contains t s ts next
      ∙ rw (contains-next t u s ret) (
          common_step (same o t u) (mem t ts) (contains o t s) (contains o t ret) (contains o u s)
            (λ e. ap (λ x. contains o x s) (sym (same-eq t u e))))

  pub insert_common-IsSorted :
      (s ts ret : List T) → IsSorted o ret → IsSorted o (insert_common o s ts ret)
  unfolding insert_common
  insert_common-IsSorted s [] ret a = a
  insert_common-IsSorted s (u ∷ ts) ret a = elim (Bool-cases (contains o u s)) [
    | inl t ↦ rw (t) (insert_common-IsSorted s ts _ (insert-IsSorted o u ret a))
    | inr t ↦ rw (t) (insert_common-IsSorted s ts ret a)
  ]

  -- `intersects` looks for an element that both have.
  pub intersects-mem :
      (t : T) (s ts : List T) → (mem t ts && contains o t s) ≡ true → intersects o s ts ≡ true
  unfolding intersects mem
  intersects-mem t s [] h = absurd (cc h)
  intersects-mem t s (u ∷ ts) h =
      let ih = intersects-mem t s ts in let eq = same-eq t u in grind arith

  pub intersects-found :
      (s ts : List T)
      → intersects o s ts ≡ true
      → (t : T) × (mem t ts ≡ true) × (contains o t s ≡ true)
  unfolding intersects mem same
  intersects-found s [] h = absurd (cc h)
  intersects-found s (u ∷ ts) h = elim (Bool-cases (contains o u s)) [
    | inl e ↦ (u, rw (o.irrefl u) refl, e)
    | inr e ↦
        let (t, there, both) = intersects-found s ts (rw (e) at h) in
        (t, rw (there) (or_true _), both)
  ]
