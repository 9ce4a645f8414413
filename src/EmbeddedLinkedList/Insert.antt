-- ===== src/EmbeddedLinkedList/Insert.antt =====
-- `insert`, `append` and `prepend` (rct/EmbeddedLinkedList.h) on the list of nodes.
use rct.Prelude.{
  ℕ, ◌<◌, ◌≡◌, refl, sym, ap, ◌∙◌, true, false, List, [], ◌∷◌, ◌++◌, append_assoc, some, ◌==◌,
  length-append, eq_true, eq_false, put_here, count, count-append, count-zero_head, count-once_head,
  count_self, inl, inr, count-cons-le, count-ne, arith,
}
use rct.EmbeddedLinkedList.{
  Chain, set_next, set_prev, counted, link_next, insert_after, insert_front, insert, append,
  prepend,
}
use rct.EmbeddedLinkedList.Linked.{
  last_or, Repr, head_or-behind, last_or-append, Linked-append, Linked-split, frame,
}
use rct.EmbeddedLinkedList.Places.{
  linked_in, linked_in-off, linked_in-Linked, off_prefix, once-added, count-behind, linked_last-at,
  linked_last-off, linked_first-at, linked_first-off, not_null, snoc-cases,
}

module _ (s : Chain) (t : ℕ) (p : 0 < t) where
  -- Behind a node that is not the last one.
  insert-middle :
      (l : List ℕ) (a y : ℕ) (r : List ℕ)
      → count t (l ++ a ∷ y ∷ r) ≡ 0
      → Repr s (l ++ a ∷ y ∷ r)
      → (s' : Chain) × (insert t a s ≡ some s') × Repr s' (l ++ a ∷ t ∷ y ∷ r)
  unfolding insert insert_after link_next counted set_next set_prev
  insert-middle l a y r new h =
      let new_r : count t (a ∷ y ∷ r) ≡ 0 = omega (arith, new, count-append t l (a ∷ y ∷ r)) in
      let new_l : count t l ≡ 0 = omega (arith, new, count-append t l (a ∷ y ∷ r)) in
      let off = off_prefix l a (y ∷ r) h.once in
      let off_y : count y l ≡ 0 = omega (
        arith,
        h.once y,
        count-append y l (a ∷ y ∷ r),
        count-cons-le y a (y ∷ r),
        count_self y r,
      ) in
      let parts = Linked-split s 0 l (a ∷ y ∷ r) 0 h.links in
      let positive_a : (a == 0) ≡ false = not_null a parts.1.0 in
      let positive_y : (y == 0) ≡ false = not_null y parts.1.3.0 in
      let same = λ (x : ℕ) (k : 0 < count x l).
        linked_in-off s t a y x (count-ne x t l k new_l) (count-ne x a l k off.0)
          (count-ne x y l k off_y) in
      (
        counted (linked_in t a y s),
        rw (not_null t p, positive_a, parts.1.2, positive_y) refl,
        record {
          links =
              Linked-append (linked_in t a y s) 0 l (a ∷ t ∷ y ∷ r) 0
                (frame s (linked_in t a y s) 0 l a same parts.0)
                (linked_in-Linked s t a y (last_or 0 l) r p new_r off.1 parts.1);
          once =
              once-added (l ++ a ∷ y ∷ r) (l ++ a ∷ t ∷ y ∷ r) t (count-behind l a t (y ∷ r)) new
                h.once;
          at_front = h.at_front ∙ head_or-behind 0 l a (y ∷ r) (t ∷ y ∷ r);
          at_back =
              h.at_back
              ∙ (last_or-append 0 l (a ∷ y ∷ r) ∙ sym (last_or-append 0 l (a ∷ t ∷ y ∷ r)));
          sized =
              omega (arith, h.sized, length-append l (a ∷ y ∷ r), length-append l (a ∷ t ∷ y ∷ r));
        },
      )

  -- Behind the last node.
  insert-back :
      (l : List ℕ) (a : ℕ)
      → count t (l ++ a ∷ []) ≡ 0
      → Repr s (l ++ a ∷ [])
      → (s' : Chain) × (insert t a s ≡ some s') × Repr s' (l ++ a ∷ t ∷ [])
  unfolding insert insert_after link_next counted set_next set_prev
  insert-back l a new h =
      let new_a = count-zero_head t a [] (omega (arith, new, count-append t l (a ∷ []))) in
      let new_l : count t l ≡ 0 = omega (arith, new, count-append t l (a ∷ [])) in
      let off = off_prefix l a [] h.once in
      let parts = Linked-split s 0 l (a ∷ []) 0 h.links in
      let at_a : (s.back == a) ≡ true = eq_true (h.at_back ∙ last_or-append 0 l (a ∷ [])) in
      let s' : Chain =
        counted (set_prev t a (set_next a t (record (set_next t 0 s) { back = t }))) in
      let at = linked_last-at s t a new_a.0 in
      let same = λ (x : ℕ) (k : 0 < count x l).
        linked_last-off s t a x (count-ne x t l k new_l) (count-ne x a l k off.0) in
      (
        s',
        rw (not_null t p, not_null a parts.1.0, parts.1.2, at_a) refl,
        record {
          links =
              Linked-append s' 0 l (a ∷ t ∷ []) 0 (frame s s' 0 l a same parts.0)
                (parts.1.0, at.0 ∙ parts.1.1, at.1, (p, at.2, at.3, tt));
          once = once-added (l ++ a ∷ []) (l ++ a ∷ t ∷ []) t (count-behind l a t []) new h.once;
          at_front = h.at_front ∙ head_or-behind 0 l a [] (t ∷ []);
          at_back = sym (last_or-append 0 l (a ∷ t ∷ []));
          sized = omega (arith, h.sized, length-append l (a ∷ []), length-append l (a ∷ t ∷ []));
        },
      )

  -- Before the first node, or into an empty list.
  insert-front :
      (xs : List ℕ)
      → count t xs ≡ 0
      → Repr s xs
      → (s' : Chain) × (insert t 0 s ≡ some s') × Repr s' (t ∷ xs)
  unfolding insert insert_front counted set_next set_prev count
  insert-front [] new h = (
    counted (record (set_prev t 0 (set_next t 0 s)) { front = t; back = t }),
    rw (not_null t p, eq_true h.at_front) refl,
    record {
      links = (p, put_here t 0 s.prev, put_here t 0 s.next, tt);
      once = once-added [] (t ∷ []) t (λ x. omega arith) new h.once;
      at_front = refl;
      at_back = refl;
      sized = omega (arith, h.sized);
    },
  )
  insert-front (y ∷ r) new h =
      let f : ℕ = s.front in
      let s' : Chain =
        counted (record (set_prev f t (set_prev t 0 (set_next t f s))) { front = t }) in
      let ne = count-zero_head t y r new in
      let off : count y r ≡ 0 = count-once_head y r (h.once y) in
      let full : (f == 0) ≡ false = eq_false (λ e. omega (arith, e, h.at_front, h.links.0)) in
      let at = linked_first-at s t f (λ e. ne.0 (sym h.at_front ∙ e)) in
      let same = λ (x : ℕ) (k : 0 < count x r).
        linked_first-off s t f x (count-ne x t r k ne.1)
          (λ e. count-ne x y r k off (e ∙ h.at_front)) in
      (
        s',
        rw (not_null t p, full) refl,
        record {
          links = (
            p,
            at.0,
            at.1 ∙ h.at_front,
            (
              h.links.0,
              ap s'.prev (sym h.at_front) ∙ at.2,
              ap s'.next (sym h.at_front) ∙ at.3 ∙ ap s.next h.at_front ∙ h.links.2,
              frame s s' y r 0 same h.links.3,
            ),
          );
          once = once-added (y ∷ r) (t ∷ y ∷ r) t (λ x. omega arith) new h.once;
          at_front = refl;
          at_back = h.at_back;
          sized = omega (arith, h.sized);
        },
      )

  -- A new node that is put behind a node of the list stands right behind it.
  pub insert-Repr :
      (l : List ℕ) (a : ℕ) (r : List ℕ)
      → count t (l ++ a ∷ r) ≡ 0
      → Repr s (l ++ a ∷ r)
      → (s' : Chain) × (insert t a s ≡ some s') × Repr s' (l ++ a ∷ t ∷ r)
  insert-Repr l a [] new h = insert-back l a new h
  insert-Repr l a (y ∷ r) new h = insert-middle l a y r new h

  pub prepend-Repr :
      (xs : List ℕ)
      → count t xs ≡ 0
      → Repr s xs
      → (s' : Chain) × (prepend t s ≡ some s') × Repr s' (t ∷ xs)
  unfolding prepend
  prepend-Repr xs new h = insert-front xs new h

  append-back :
      (l : List ℕ) (a : ℕ)
      → count t (l ++ a ∷ []) ≡ 0
      → Repr s (l ++ a ∷ [])
      → (s' : Chain) × (append t s ≡ some s') × Repr s' ((l ++ a ∷ []) ++ t ∷ [])
  unfolding append
  append-back l a new h =
      let (s', e, r) = insert-back l a new h in
      (
        s',
        ap (λ b. insert t b s) (h.at_back ∙ last_or-append 0 l (a ∷ [])) ∙ e,
        rw (append_assoc l (a ∷ []) (t ∷ [])) r,
      )

  append-empty :
      count t [] ≡ 0 → Repr s [] → (s' : Chain) × (append t s ≡ some s') × Repr s' (t ∷ [])
  unfolding append
  append-empty new h =
      let (s', e, r) = insert-front [] new h in (s', ap (λ b. insert t b s) h.at_back ∙ e, r)

  pub append-Repr :
      (xs : List ℕ)
      → count t xs ≡ 0
      → Repr s xs
      → (s' : Chain) × (append t s ≡ some s') × Repr s' (xs ++ t ∷ [])
  append-Repr xs new h = elim (snoc-cases xs) [
    | inl e ↦ rw (e) (append-empty (rw e at new) (rw e at h))
    | inr (l, a, e) ↦ rw (e) (append-back l a (rw e at new) (rw e at h))
  ]
