-- ===== src/Set/Members.antt =====
-- rct/Set.h: the elements that the operations of one element leave.
use rct.Prelude.{
  ◌+◌, ◌≡◌, refl, inl, inr, Bool, true, not, ◌&&◌, ◌||◌, List, [], ◌∷◌, All, if◌then◌else◌,
  Bool-cases, length, arith,
}
use rct.Set.{Order, contains, insert, erase}

module _ {T : Type 0} (o : Order T) where
  unfoldable pub same : T → T → Bool
  same t u = not (o.less t u) && not (o.less u t)

  -- The elements ascend, as a `std::set` has them.
  unfoldable pub IsSorted : List T → Type 0
  IsSorted [] = Unit
  IsSorted (x ∷ xs) = All (λ y. o.less x y ≡ true) xs × IsSorted xs

  pub contains-insert :
      (t u : T) (s : List T) → contains o t (insert o u s).1 ≡ (same t u || contains o t s)
  unfolding contains insert same
  contains-insert t u [] = ground arith
  contains-insert t u (x ∷ xs) =
      let ih = contains-insert t u xs in
      let tu_x = o.trans t u x in
      let tx_u = o.trans t x u in
      let xu_t = o.trans x u t in
      let ux_t = o.trans u x t in let eq_tu = o.total t u in let eq_ux = o.total u x in grind arith

  -- `insert` finds what `contains` finds.
  pub insert-new : (t : T) (s : List T) → (insert o t s).0 ≡ not (contains o t s)
  unfolding contains insert
  insert-new t [] = refl
  insert-new t (x ∷ xs) = let ih = insert-new t xs in grind arith

  pub erase-count : (t : T) (s : List T) → (erase o t s).0 ≡ (if contains o t s then 1 else 0)
  unfolding contains erase
  erase-count t [] = refl
  erase-count t (x ∷ xs) = let ih = erase-count t xs in grind arith

  pub length-insert :
      (t : T) (s : List T)
      → length (insert o t s).1 ≡ (if contains o t s then length s else length s + 1)
  unfolding contains insert
  length-insert t [] = omega arith
  length-insert t (x ∷ xs) = let ih = length-insert t xs in grind arith

  pub length-erase :
      (t : T) (s : List T) → length s ≡ length (erase o t s).1 + (if contains o t s then 1 else 0)
  unfolding contains erase
  length-erase t [] = omega arith
  length-erase t (x ∷ xs) = let ih = length-erase t xs in grind arith

  -- What a set has is above what its smallest element is above.
  pub contains-above :
      (t x : T) (s : List T)
      → All (λ y. o.less x y ≡ true) s
      → contains o t s ≡ true
      → o.less x t ≡ true
  unfolding contains
  contains-above t x [] a h = absurd (cc h)
  contains-above t x (y ∷ ys) a h =
      let ih = contains-above t x ys a.1 in let eq = o.total t y in let here = a.0 in grind arith

  pub contains-erase :
      (t u : T) (s : List T)
      → IsSorted s
      → contains o t (erase o u s).1 ≡ (contains o t s && not (same t u))
  unfolding contains erase same IsSorted
  contains-erase t u [] a = refl
  contains-erase t u (x ∷ xs) a =
      let ih = contains-erase t u xs a.1 in
      let above = contains-above t x xs a.0 in
      let tu_x = o.trans t u x in
      let xt_u = o.trans x t u in
      let ux_t = o.trans u x t in
      let tx_u = o.trans t x u in let eq_tu = o.total t u in let eq_ux = o.total u x in grind arith

  All-insert : (P : T → Type 0) (t : T) (s : List T) → P t → All P s → All P (insert o t s).1
  unfolding insert
  All-insert P t [] h a = (h, tt)
  All-insert P t (x ∷ xs) h a = elim (Bool-cases (o.less t x)) [
    | inl l ↦ rw (l) ((h, a))
    | inr l ↦ elim (Bool-cases (o.less x t)) [
      | inl g ↦ rw (l, g) ((a.0, All-insert P t xs h a.1))
      | inr g ↦ rw (l, g) a
    ]
  ]

  All-erase : (P : T → Type 0) (t : T) (s : List T) → All P s → All P (erase o t s).1
  unfolding erase
  All-erase P t [] a = tt
  All-erase P t (x ∷ xs) a = elim (Bool-cases (o.less t x)) [
    | inl l ↦ rw (l) a
    | inr l ↦ elim (Bool-cases (o.less x t)) [
      | inl g ↦ rw (l, g) ((a.0, All-erase P t xs a.1))
      | inr g ↦ rw (l, g) a.1
    ]
  ]

  All-trans :
      (t x : T) (s : List T)
      → o.less t x ≡ true
      → All (λ y. o.less x y ≡ true) s
      → All (λ y. o.less t y ≡ true) s
  All-trans t x [] h a = tt
  All-trans t x (y ∷ ys) h a = (o.trans t x y h a.0, All-trans t x ys h a.1)

  pub insert-IsSorted : (t : T) (s : List T) → IsSorted s → IsSorted (insert o t s).1
  unfolding insert IsSorted
  insert-IsSorted t [] a = (tt, tt)
  insert-IsSorted t (x ∷ xs) a = elim (Bool-cases (o.less t x)) [
    | inl l ↦ rw (l) (((l, All-trans t x xs l a.0), a))
    | inr l ↦ elim (Bool-cases (o.less x t)) [
      | inl g ↦
          rw (l, g) ((All-insert (λ y. o.less x y ≡ true) t xs g a.0, insert-IsSorted t xs a.1))
      | inr g ↦ rw (l, g) a
    ]
  ]

  pub erase-IsSorted : (t : T) (s : List T) → IsSorted s → IsSorted (erase o t s).1
  unfolding erase IsSorted
  erase-IsSorted t [] a = tt
  erase-IsSorted t (x ∷ xs) a = elim (Bool-cases (o.less t x)) [
    | inl l ↦ rw (l) a
    | inr l ↦ elim (Bool-cases (o.less x t)) [
      | inl g ↦ rw (l, g) ((All-erase (λ y. o.less x y ≡ true) t xs a.0, erase-IsSorted t xs a.1))
      | inr g ↦ rw (l, g) a.1
    ]
  ]
