-- ===== src/EmbeddedLinkedList/Refines.antt =====
-- The operations of `EmbeddedLinkedList` (rct/EmbeddedLinkedList.h) do what `spec` says of lists.
use rct.Prelude.{
  ℕ, ◌<◌, ◌≡◌, refl, sym, ap, ◌∙◌, Bool, true, false, ◌&&◌, List, [], ◌∷◌, ◌++◌, append-nil, Option,
  some, none, and_then, and_then-eq-some, some-eq, if◌then◌else◌, ◌==◌, length-append, eq_true,
  eq_false, count, count-append, count_self, inl, inr, arith,
}
use rct.EmbeddedLinkedList.{
  Chain, insert, remove, take_front, take_back, move_to_end, move_to_front,
}
use rct.EmbeddedLinkedList.Linked.{Repr, last_or-append, Linked-split}
use rct.EmbeddedLinkedList.Insert.{insert-Repr, append-Repr, prepend-Repr}
use rct.EmbeddedLinkedList.Places.{not_null, snoc-cases}
use rct.EmbeddedLinkedList.Remove.{remove-Repr}
use rct.EmbeddedLinkedList.Gone.{Alone}
use rct.EmbeddedLinkedList.Walk.{member, delete_all-Repr}
use rct.EmbeddedLinkedList.Spec.{
  Operation, do_insert, do_append, do_prepend, do_remove, do_move_to_end, do_move_to_front,
  do_take_front, do_take_back, do_delete_all, run, without, behind, init, is_new, spec, cut,
  count-not_member, init-snoc,
}

-- The code's operation ends, in a chain that stands for the list.
abbrev pub Ends : Option Chain → List ℕ → Type 0
Ends o ys = (s' : Chain) × (o ≡ some s') × Repr s' ys

new-facts : (t : ℕ) (xs : List ℕ) → is_new t xs ≡ true → (0 < t) × (count t xs ≡ 0)
unfolding is_new
new-facts t xs h = (ground arith, count-not_member t xs (ground arith))

-- A test that holds, and what it guards.
guarded :
    {A : Type 0} (b : Bool) (x y : A) → (if b then some x else none) ≡ some y → (b ≡ true) × (x ≡ y)
guarded true x y h = (refl, some-eq h)
guarded false x y h = cc

and-true : (a b : Bool) → (a && b) ≡ true → (a ≡ true) × (b ≡ true)
and-true a b h = ground arith

module _ (s : Chain) where
  insert-Ends :
      (t a : ℕ) (xs ys : List ℕ)
      → is_new t xs ≡ true
      → member a xs ≡ true
      → behind a t xs ≡ ys
      → Repr s xs
      → Ends (insert t a s) ys
  insert-Ends t a xs ys n m e h =
      let c = cut a xs m in
      let (p, new) = new-facts t xs n in
      rw (← e, c.joins t) (insert-Repr s t p c.l a c.r (rw c.parts at new) (rw c.parts at h))

  remove-Ends :
      (t : ℕ) (xs ys : List ℕ)
      → member t xs ≡ true
      → without t xs ≡ ys
      → Repr s xs
      → (s' : Chain) × (remove t s ≡ some s') × Repr s' ys × Alone s' t
  remove-Ends t xs ys m e h =
      let c = cut t xs m in rw (← e, c.gone) (remove-Repr s t c.l c.r (rw c.parts at h))

  -- The node that is moved is not in the rest.
  moved-off : (t : ℕ) (l r : List ℕ) → Repr s (l ++ t ∷ r) → (0 < t) × (count t (l ++ r) ≡ 0)
  moved-off t l r h = (
    (Linked-split s 0 l (t ∷ r) 0 h.links).1.0,
    omega (arith, h.once t, count-append t l (t ∷ r), count-append t l r, count_self t r),
  )

  filled : (l : List ℕ) (t : ℕ) (r : List ℕ) → Repr s (l ++ t ∷ r) → (s.size == 0) ≡ false
  filled l t r h = eq_false (λ e. omega (arith, e, h.sized, length-append l (t ∷ r)))

  move_to_end-cut :
      (t : ℕ) (l r : List ℕ) → Repr s (l ++ t ∷ r) → Ends (move_to_end t s) ((l ++ r) ++ t ∷ [])
  unfolding move_to_end
  move_to_end-cut t l [] h =
      let (p, off) = moved-off t l [] h in
      let full : (s.size == 0) ≡ false = filled l t [] h in
      let last : (s.next t == 0) ≡ true = eq_true (Linked-split s 0 l (t ∷ []) 0 h.links).1.2 in
      (s, rw (full, not_null t p, last) refl, rw (append-nil l) h)
  move_to_end-cut t l (y ∷ r) h =
      let (p, off) = moved-off t l (y ∷ r) h in
      let full : (s.size == 0) ≡ false = filled l t (y ∷ r) h in
      let node = (Linked-split s 0 l (t ∷ y ∷ r) 0 h.links).1 in
      let more : (s.next t == 0) ≡ false = eq_false (λ e. omega (arith, e, node.2, node.3.0)) in
      let (s₁, e₁, h₁, alone) = remove-Repr s t l (y ∷ r) h in
      let (s₂, e₂, h₂) = append-Repr s₁ t p (l ++ y ∷ r) off h₁ in
      (s₂, rw (full, not_null t p, more, e₁) e₂, h₂)

  move_to_front-behind :
      (t : ℕ) (k : List ℕ) (a : ℕ) (r : List ℕ)
      → Repr s ((k ++ a ∷ []) ++ t ∷ r)
      → Ends (move_to_front t s) (t ∷ ((k ++ a ∷ []) ++ r))
  unfolding move_to_front
  move_to_front-behind t k a r h =
      let (p, off) = moved-off t (k ++ a ∷ []) r h in
      let full = filled (k ++ a ∷ []) t r h in
      let parts = Linked-split s 0 (k ++ a ∷ []) (t ∷ r) 0 h.links in
      let before = (Linked-split s 0 k (a ∷ []) t parts.0).1 in
      let behind_a : s.prev t ≡ a = parts.1.1 ∙ last_or-append 0 k (a ∷ []) in
      let more : (s.prev t == 0) ≡ false = eq_false (λ e. omega (arith, e, behind_a, before.0)) in
      let (s₁, e₁, h₁, alone) = remove-Repr s t (k ++ a ∷ []) r h in
      let (s₂, e₂, h₂) = prepend-Repr s₁ t p ((k ++ a ∷ []) ++ r) off h₁ in
      (s₂, rw (full, not_null t p, more, e₁) e₂, h₂)

  move_to_front-first : (t : ℕ) (r : List ℕ) → Repr s (t ∷ r) → Ends (move_to_front t s) (t ∷ r)
  unfolding move_to_front
  move_to_front-first t r h =
      (s, rw (filled [] t r h, not_null t h.links.0, eq_true h.links.1) refl, h)

  move_to_front-cut :
      (t : ℕ) (l r : List ℕ) → Repr s (l ++ t ∷ r) → Ends (move_to_front t s) (t ∷ (l ++ r))
  move_to_front-cut t l r h = elim (snoc-cases l) [
    | inl e ↦ rw (e) (move_to_front-first t r (rw e at h))
    | inr (k, a, e) ↦ rw (e) (move_to_front-behind t k a r (rw e at h))
  ]

  take_front-Repr :
      (x : ℕ) (xs : List ℕ)
      → Repr s (x ∷ xs)
      → (s' : Chain) × (take_front s ≡ some (x, s')) × Repr s' xs
  unfolding take_front
  take_front-Repr x xs h =
      let some_front : (s.front == 0) ≡ false =
        eq_false (λ e. omega (arith, e, h.at_front, h.links.0)) in
      let (s', e, h', alone) = remove-Repr s x [] xs h in
      let gone : remove s.front s ≡ some s' = ap (λ f. remove f s) h.at_front ∙ e in
      (s', rw (some_front, filled [] x xs h, gone) (ap (λ f. some (f, s')) h.at_front), h')

  take_back-Repr :
      (l : List ℕ) (a : ℕ)
      → Repr s (l ++ a ∷ [])
      → (s' : Chain) × (take_back s ≡ some (a, s')) × Repr s' l
  unfolding take_back
  take_back-Repr l a h =
      let at : s.back ≡ a = h.at_back ∙ last_or-append 0 l (a ∷ []) in
      let (p, off) = moved-off a l [] h in
      let some_back : (s.back == 0) ≡ false = eq_false (λ e. omega (arith, e, at, p)) in
      let (s', e, h', alone) = remove-Repr s a l [] h in
      let gone : remove s.back s ≡ some s' = ap (λ f. remove f s) at ∙ e in
      (s', rw (some_back, gone) (ap (λ f. some (f, s')) at), rw (← append-nil l) h')

  take_back-Ends :
      (xs ys : List ℕ)
      → ¬ (xs ≡ [])
      → init xs ≡ ys
      → Repr s xs
      → Ends (and_then (take_back s) (λ r. some r.1)) ys
  take_back-Ends xs ys n e h = elim (snoc-cases xs) [
    | inl z ↦ absurd (n z)
    | inr (l, a, z) ↦
        let (s', t, h') = take_back-Repr l a (rw z at h) in
        let same : l ≡ ys = sym (init-snoc l a) ∙ (ap init (sym z) ∙ e) in
        (s', rw (t) refl, rw (← same) h')
  ]

  -- The operation does to the chain what `spec` does to the list it stands for.
  pub run-Ends :
      (op : Operation) (xs ys : List ℕ) → spec op xs ≡ some ys → Repr s xs → Ends (run op s) ys
  unfolding spec run
  run-Ends (do_insert t a) xs ys e h =
      let (g, q) = guarded (is_new t xs && member a xs) (behind a t xs) ys e in
      let (n, m) = and-true (is_new t xs) (member a xs) g in insert-Ends t a xs ys n m q h
  run-Ends (do_append t) xs ys e h =
      let (g, q) = guarded (is_new t xs) (xs ++ t ∷ []) ys e in
      let (p, new) = new-facts t xs g in rw (← q) (append-Repr s t p xs new h)
  run-Ends (do_prepend t) xs ys e h =
      let (g, q) = guarded (is_new t xs) (t ∷ xs) ys e in
      let (p, new) = new-facts t xs g in rw (← q) (prepend-Repr s t p xs new h)
  run-Ends (do_remove t) xs ys e h =
      let (g, q) = guarded (member t xs) (without t xs) ys e in
      let (s', r, h', alone) = remove-Ends t xs ys g q h in (s', r, h')
  run-Ends (do_move_to_end t) xs ys e h =
      let (g, q) = guarded (member t xs) (without t xs ++ t ∷ []) ys e in
      let c = cut t xs g in rw (← q, c.gone) (move_to_end-cut t c.l c.r (rw c.parts at h))
  run-Ends (do_move_to_front t) xs ys e h =
      let (g, q) = guarded (member t xs) (t ∷ without t xs) ys e in
      let c = cut t xs g in rw (← q, c.gone) (move_to_front-cut t c.l c.r (rw c.parts at h))
  run-Ends do_take_front [] ys e h = cc
  run-Ends do_take_front (x ∷ xs) ys e h =
      let (s', t, h') = take_front-Repr x xs h in (s', rw (t) refl, rw (← some-eq e) h')
  run-Ends do_take_back [] ys e h = cc
  run-Ends do_take_back (x ∷ xs) ys e h = take_back-Ends (x ∷ xs) ys (λ z. cc) (some-eq e) h
  run-Ends do_delete_all xs ys e h =
      let (s', t, h', alone) = delete_all-Repr h in (s', rw (t) refl, rw (← some-eq e) h')

-- A sequence of operations, in the code and in the specification.
unfoldable pub run_all : List Operation → Chain → Option Chain
run_all [] s = some s
run_all (op ∷ ops) s = and_then (run op s) (run_all ops)

unfoldable pub spec_all : List Operation → List ℕ → Option (List ℕ)
spec_all [] xs = some xs
spec_all (op ∷ ops) xs = and_then (spec op xs) (spec_all ops)

-- Whatever sequence of operations the specification allows, the code runs without a failed
-- assertion or an access through a null pointer, and its chain stands for the list that the
-- specification says: `next`, `prev`, the two ends and the count are those of that list.
pub run_all-Ends :
    (ops : List Operation) (s : Chain) (xs ys : List ℕ)
    → spec_all ops xs ≡ some ys
    → Repr s xs
    → Ends (run_all ops s) ys
unfolding run_all spec_all
run_all-Ends [] s xs ys e h = (s, refl, rw (← some-eq e) h)
run_all-Ends (op ∷ ops) s xs ys e h =
    let (zs, q, r) = and_then-eq-some (spec op xs) (spec_all ops) e in
    let (s₁, t, h₁) = run-Ends s op xs zs q h in
    let (s₂, u, h₂) = run_all-Ends ops s₁ zs ys r h₁ in (s₂, rw (t) u, h₂)
