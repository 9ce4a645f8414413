-- ===== src/EmbeddedLinkedList/Remove.antt =====
-- `remove` (rct/EmbeddedLinkedList.h) on the list of nodes.
use rct.Prelude.{
  ℕ, ◌<◌, ◌≡◌, ◌≢◌, refl, sym, ap, ◌∙◌, true, false, List, [], ◌∷◌, ◌++◌, append_assoc, some, ◌==◌,
  length-append, eq_true, ltb-true, put, put_here, put_ne, count, count-append, count-zero_head,
  count-once_head, count_self, inl, inr, count-cons-le, count-ne, arith,
}
use rct.EmbeddedLinkedList.{
  Chain, set_next, set_prev, unlink_front, unlink_back, join_around, unlink_inner, unlink, cleared,
  remove,
}
use rct.EmbeddedLinkedList.Linked.{
  Repr, head_or-behind, last_or-append, Linked-append, Linked-split, frame,
}
use rct.EmbeddedLinkedList.Places.{off_prefix, not_null, snoc-cases}
use rct.EmbeddedLinkedList.Gone.{
  Alone, count-without, count-snoc, joined, joined-at, joined-off, first_gone-at, first_gone-off,
  last_gone-at, last_gone-off, head-ne, last-ne,
}

module _ (s : Chain) (t : ℕ) where
  -- What `remove` does at a node between two others.
  remove-between :
      (a y : ℕ)
      → 0 < t
      → (t == s.front) ≡ false
      → (t == s.back) ≡ false
      → 1 < s.size
      → s.prev t ≡ a
      → s.next t ≡ y
      → 0 < a
      → 0 < y
      → a ≢ t
      → remove t s ≡ some (joined t a y s)
  unfolding remove unlink unlink_inner join_around set_next
  remove-between a y p f b m ea ey pa py ne =
      let old_next : put a y s.next t ≡ y = put_ne a y s.next t (λ e. ne (sym e)) ∙ ey in
      rw (not_null t p, f, b, ltb-true m, ea, ey, not_null a pa, not_null y py, old_next) refl

  remove-inner :
      (l : List ℕ) (a y : ℕ) (r : List ℕ)
      → Repr s (l ++ a ∷ t ∷ y ∷ r)
      → (s' : Chain) × (remove t s ≡ some s') × Repr s' (l ++ a ∷ y ∷ r) × Alone s' t
  unfolding cleared set_next set_prev
  remove-inner l a y r h =
      let off_a = off_prefix l a (t ∷ y ∷ r) h.once in
      let ne_a = count-zero_head a t (y ∷ r) (count-once_head a (t ∷ y ∷ r) (off_a.1 a)) in
      let ne_ya = count-zero_head a y r ne_a.1 in
      let off_t : count t (y ∷ r) ≡ 0 =
        count-once_head t (y ∷ r) (omega (arith, off_a.1 t, count-cons-le t a (t ∷ y ∷ r))) in
      let ne_yt = count-zero_head t y r off_t in
      let off_y : count y r ≡ 0 =
        count-once_head y r
          (omega (arith, off_a.1 y, count-cons-le y a (t ∷ y ∷ r), count-cons-le y t (y ∷ r))) in
      let l_t : count t l ≡ 0 = omega (
        arith,
        h.once t,
        count-append t l (a ∷ t ∷ y ∷ r),
        count-cons-le t a (t ∷ y ∷ r),
        count_self t (y ∷ r),
      ) in
      let l_y : count y l ≡ 0 = omega (
        arith,
        h.once y,
        count-append y l (a ∷ t ∷ y ∷ r),
        count-cons-le y a (t ∷ y ∷ r),
        count-cons-le y t (y ∷ r),
        count_self y r,
      ) in
      let parts = Linked-split s 0 l (a ∷ t ∷ y ∷ r) 0 h.links in
      let at = joined-at s t a y (λ e. ne_a.0 (sym e)) ne_yt.0 ne_ya.0 in
      let same_l = λ (x : ℕ) (k : 0 < count x l).
        joined-off s t a y x (count-ne x t l k l_t) (count-ne x a l k off_a.0)
          (count-ne x y l k l_y) in
      let same_r = λ (x : ℕ) (k : 0 < count x r).
        joined-off s t a y x (count-ne x t r k ne_yt.1) (count-ne x a r k ne_ya.1)
          (count-ne x y r k off_y) in
      let node = parts.1.3 in
      (
        joined t a y s,
        remove-between a y node.0
            (ap (λ f. t == f) h.at_front
              ∙ head-ne l a (t ∷ y ∷ r) t (count-snoc t l a l_t (λ e. ne_a.0 (sym e))))
            (ap (λ b. t == b) (h.at_back ∙ last_or-append 0 l (a ∷ t ∷ y ∷ r))
              ∙ last-ne t y r t off_t)
            (omega (arith, h.sized, length-append l (a ∷ t ∷ y ∷ r))) node.1 node.2 parts.1.0
            node.3.0 (λ e. ne_a.0 (sym e)),
        record {
          links =
              Linked-append (joined t a y s) 0 l (a ∷ y ∷ r) 0
                (frame s (joined t a y s) 0 l a same_l parts.0)
                (
                  parts.1.0,
                  at.1 ∙ parts.1.1,
                  at.0,
                  (node.3.0, at.2, at.3 ∙ node.3.2, frame s (joined t a y s) y r 0 same_r node.3.3),
                );
          once = λ x. omega (
            arith,
            h.once x,
            count-append x l (a ∷ t ∷ y ∷ r),
            count-append x l (a ∷ y ∷ r),
            count-without a t (y ∷ r) x,
          );
          at_front = h.at_front ∙ head_or-behind 0 l a (t ∷ y ∷ r) (y ∷ r);
          at_back =
              h.at_back
              ∙ (last_or-append 0 l (a ∷ t ∷ y ∷ r) ∙ sym (last_or-append 0 l (a ∷ y ∷ r)));
          sized =
              omega (arith, h.sized, length-append l (a ∷ t ∷ y ∷ r), length-append l (a ∷ y ∷ r));
        },
        at.4,
      )

  -- The only node.
  remove-only : Repr s (t ∷ []) → (s' : Chain) × (remove t s ≡ some s') × Repr s' [] × Alone s' t
  unfolding remove unlink unlink_front cleared set_next set_prev count
  remove-only h = (
    cleared t (record s { front = 0; back = 0 }),
    rw (not_null t h.links.0, eq_true (sym h.at_front), eq_true (sym h.at_back), h.sized) refl,
    record {
      links = tt;
      once = λ x. omega arith;
      at_front = refl;
      at_back = refl;
      sized = omega (arith, h.sized);
    },
    (put_here t 0 s.next, put_here t 0 s.prev),
  )

  -- The first of several nodes.
  remove-first :
      (y : ℕ) (r : List ℕ)
      → Repr s (t ∷ y ∷ r)
      → (s' : Chain) × (remove t s ≡ some s') × Repr s' (y ∷ r) × Alone s' t
  unfolding remove unlink unlink_front cleared set_next set_prev
  remove-first y r h =
      let off_t : count t (y ∷ r) ≡ 0 = count-once_head t (y ∷ r) (h.once t) in
      let ne = count-zero_head t y r off_t in
      let off_y : count y r ≡ 0 =
        count-once_head y r (omega (arith, h.once y, count-cons-le y t (y ∷ r))) in
      let node = h.links.3 in
      let s' : Chain = cleared t (set_prev y 0 (record s { front = y })) in
      let not_back : (t == s.back) ≡ false = ap (λ b. t == b) h.at_back ∙ last-ne t y r t off_t in
      let many : 1 < s.size = omega (arith, h.sized) in
      let at = first_gone-at s t y ne.0 in
      let same = λ (x : ℕ) (k : 0 < count x r).
        first_gone-off s t y x (count-ne x t r k ne.1) (count-ne x y r k off_y) in
      (
        s',
        rw
            (
              not_null t h.links.0,
              eq_true (sym h.at_front),
              not_back,
              ltb-true many,
              h.links.2,
              not_null y node.0,
            )
            refl,
        record {
          links = (node.0, at.0, at.1 ∙ node.2, frame s s' y r 0 same node.3);
          once = λ x. omega (arith, h.once x, count-cons-le x t (y ∷ r));
          at_front = refl;
          at_back = h.at_back;
          sized = omega (arith, h.sized);
        },
        (put_here t 0 s.next, put_here t 0 (put y 0 s.prev)),
      )

  -- The last of several nodes.
  remove-last :
      (l : List ℕ) (a : ℕ)
      → Repr s (l ++ a ∷ t ∷ [])
      → (s' : Chain) × (remove t s ≡ some s') × Repr s' (l ++ a ∷ []) × Alone s' t
  unfolding remove unlink unlink_back cleared set_next set_prev
  remove-last l a h =
      let off = off_prefix l a (t ∷ []) h.once in
      let ne = count-zero_head a t [] (count-once_head a (t ∷ []) (off.1 a)) in
      let ne_a : a ≢ t = λ e. ne.0 (sym e) in
      let l_t : count t l ≡ 0 = omega (
        arith,
        h.once t,
        count-append t l (a ∷ t ∷ []),
        count-cons-le t a (t ∷ []),
        count_self t [],
      ) in
      let parts = Linked-split s 0 l (a ∷ t ∷ []) 0 h.links in
      let node = parts.1.3 in
      let s' : Chain = cleared t (set_next a 0 (record s { back = a })) in
      let not_front : (t == s.front) ≡ false =
        ap (λ f. t == f) h.at_front ∙ head-ne l a (t ∷ []) t (count-snoc t l a l_t ne_a) in
      let at_end : (t == s.back) ≡ true =
        eq_true (sym (h.at_back ∙ last_or-append 0 l (a ∷ t ∷ []))) in
      let many : 1 < s.size = omega (arith, h.sized, length-append l (a ∷ t ∷ [])) in
      let at = last_gone-at s t a ne_a in
      let same = λ (x : ℕ) (k : 0 < count x l).
        last_gone-off s t a x (count-ne x t l k l_t) (count-ne x a l k off.0) in
      (
        s',
        rw (not_null t node.0, not_front, at_end, ltb-true many, node.1, not_null a parts.1.0) refl,
        record {
          links =
              Linked-append s' 0 l (a ∷ []) 0 (frame s s' 0 l a same parts.0)
                (parts.1.0, at.0 ∙ parts.1.1, at.1, tt);
          once = λ x. omega (
            arith,
            h.once x,
            count-append x l (a ∷ t ∷ []),
            count-append x l (a ∷ []),
            count-without a t [] x,
          );
          at_front = h.at_front ∙ head_or-behind 0 l a (t ∷ []) [];
          at_back = sym (last_or-append 0 l (a ∷ []));
          sized = omega (arith, h.sized, length-append l (a ∷ t ∷ []), length-append l (a ∷ []));
        },
        (put_here t 0 (put a 0 s.next), put_here t 0 s.prev),
      )

  -- What stands before a node is nothing, or ends with another one.
  remove-behind :
      (l : List ℕ) (a : ℕ) (r : List ℕ)
      → Repr s ((l ++ a ∷ []) ++ t ∷ r)
      → (s' : Chain) × (remove t s ≡ some s') × Repr s' ((l ++ a ∷ []) ++ r) × Alone s' t
  remove-behind l a [] h =
      rw (append_assoc l (a ∷ []) []) (remove-last l a (rw (append_assoc l (a ∷ []) (t ∷ [])) at h))
  remove-behind l a (y ∷ r) h =
      rw (append_assoc l (a ∷ []) (y ∷ r))
        (remove-inner l a y r (rw (append_assoc l (a ∷ []) (t ∷ y ∷ r)) at h))

  remove-front :
      (r : List ℕ) → Repr s (t ∷ r) → (s' : Chain) × (remove t s ≡ some s') × Repr s' r × Alone s' t
  remove-front [] h = remove-only h
  remove-front (y ∷ r) h = remove-first y r h

  -- A node that is taken out leaves the others in their order.
  pub remove-Repr :
      (l r : List ℕ)
      → Repr s (l ++ t ∷ r)
      → (s' : Chain) × (remove t s ≡ some s') × Repr s' (l ++ r) × Alone s' t
  remove-Repr l r h = elim (snoc-cases l) [
    | inl e ↦ rw (e) (remove-front r (rw e at h))
    | inr (k, a, e) ↦ rw (e) (remove-behind k a r (rw e at h))
  ]
