-- ===== src/EmbeddedLinkedList/Walk.antt =====
-- The loops over the nodes of an `EmbeddedLinkedList` (rct/EmbeddedLinkedList.h): `contains`, the
-- iterators and `deleteAll`.
use mathlib.Core.List.{reverse, reverse-append}
use rct.Prelude.{
  ℕ, zero, suc, ◌+◌, ◌<◌, ◌≤◌, ◌≡◌, ◌≢◌, refl, sym, ap, ◌∙◌, Bool, true, false, List, [], ◌∷◌, some,
  if◌then◌else◌, ◌==◌, length, length-append, put, put_here, put_ne, count, count-cons-le,
  count-once_head, count-zero_head, count-ne, Bool-cases, inl, inr, eq_of, arith,
}
use rct.EmbeddedLinkedList.{
  Chain, set_next, set_prev, contains_from, contains, iterate, delete_from, delete_all,
}
use rct.EmbeddedLinkedList.Linked.{
  head_or, last_or, Linked, Repr, last_or-append, Linked-split, frame,
}
use rct.EmbeddedLinkedList.Places.{not_null, snoc-cases}
use rct.EmbeddedLinkedList.Gone.{Alone}

-- Whether a node is in a list.
unfoldable pub member : ℕ → List ℕ → Bool
member t [] = false
member t (x ∷ xs) = if t == x then true else member t xs

contains_from-member :
    (fuel t p : ℕ) (s : Chain) (b : ℕ) (xs : List ℕ)
    → Linked s b xs 0
    → p ≡ head_or 0 xs
    → length xs < fuel
    → contains_from fuel t p s ≡ some (member t xs)
unfolding contains_from member
contains_from-member zero t p s b xs h e l = ground arith
contains_from-member (suc fuel) t p s b [] h e l = rw (e) refl
contains_from-member (suc fuel) t p s b (x ∷ xs) h e l =
    let rest = contains_from-member fuel t (s.next x) s x xs h.3 h.2 (omega (arith, l)) in
    elim (Bool-cases (t == x)) [
      | inl u ↦ rw (e, not_null x h.0, u) refl
      | inr u ↦ rw (e, not_null x h.0, u) rest
    ]

pub contains-member :
    {s : Chain} {xs : List ℕ} (t : ℕ) → Repr s xs → contains t s ≡ some (member t xs)
unfolding contains
contains-member {s} {xs} t h =
    contains_from-member (s.size + 1) t s.front s 0 xs h.links h.at_front (omega (arith, h.sized))

iterate-next :
    (fuel p : ℕ) (s : Chain) (b : ℕ) (xs : List ℕ)
    → Linked s b xs 0
    → p ≡ head_or 0 xs
    → length xs < fuel
    → iterate fuel s.next p ≡ some xs
unfolding iterate
iterate-next zero p s b xs h e l = ground arith
iterate-next (suc fuel) p s b [] h e l = rw (e) refl
iterate-next (suc fuel) p s b (x ∷ xs) h e l =
    rw (e, not_null x h.0, iterate-next fuel (s.next x) s x xs h.3 h.2 (omega (arith, l))) refl

iterate-prev :
    (fuel p : ℕ) (s : Chain) (e : ℕ) (xs : List ℕ)
    → Linked s 0 xs e
    → p ≡ last_or 0 xs
    → length xs < fuel
    → iterate fuel s.prev p ≡ some (reverse xs)
unfolding iterate
iterate-prev zero p s e xs h q l = ground arith
iterate-prev (suc fuel) p s e xs h q l = elim (snoc-cases xs) [
  | inl z ↦ let n : p ≡ 0 = q ∙ ap (last_or 0) z in rw (z, n) refl
  | inr (k, a, z) ↦
      let n : p ≡ a = q ∙ (ap (last_or 0) z ∙ last_or-append 0 k (a ∷ [])) in
      let parts = Linked-split s 0 k (a ∷ []) e (rw z at h) in
      let short : length k < fuel = omega (arith, l, ap length z, length-append k (a ∷ [])) in
      let rest = iterate-prev fuel (s.prev a) s a k parts.0 parts.1.1 short in
      rw (n, not_null a parts.1.0, rest, z, reverse-append k (a ∷ [])) refl
]

-- An iterator that starts at the front and goes on by `++` meets the nodes in their order, and one
-- that starts at the back and goes on by `--` meets them in the other order.
iterate-Repr :
    {s : Chain} {xs : List ℕ}
    → Repr s xs
    → (iterate (s.size + 1) s.next s.front ≡ some xs)
      × (iterate (s.size + 1) s.prev s.back ≡ some (reverse xs))
iterate-Repr {s} {xs} h = (
  iterate-next (s.size + 1) s.front s 0 xs h.links h.at_front (omega (arith, h.sized)),
  iterate-prev (s.size + 1) s.back s 0 xs h.links h.at_back (omega (arith, h.sized)),
)

-- What `deleteAll` does to the links of the nodes and of all others.
record Deleted (s s' : Chain) (xs : List ℕ) : Type 0 where
  alone : (x : ℕ) → 0 < count x xs → Alone s' x
  other : (x : ℕ) → count x xs ≡ 0 → (s'.next x ≡ s.next x) × (s'.prev x ≡ s.prev x)

put_off :
    (s : Chain) (t x : ℕ) → x ≢ t → (put t 0 s.next x ≡ s.next x) × (put t 0 s.prev x ≡ s.prev x)
put_off s t x h = (put_ne t 0 s.next x h, put_ne t 0 s.prev x h)

-- A node that is cleared stays on its own while the others are.
Deleted-cons :
    (s s' : Chain) (x : ℕ) (xs : List ℕ)
    → count x xs ≡ 0
    → Deleted (set_prev x 0 (set_next x 0 s)) s' xs
    → Deleted s s' (x ∷ xs)
unfolding set_prev set_next count
Deleted-cons s s' x xs off del = record {
  alone = λ y k. elim (Bool-cases (x == y)) [
    | inl u ↦
        let here = del.other x off in
        rw (← eq_of x y u) ((here.0 ∙ put_here x 0 s.next, here.1 ∙ put_here x 0 s.prev))
    | inr u ↦ del.alone y (ground (arith, k, u))
  ];
  other = λ y k.
      let (ne, out) = count-zero_head y x xs k in
      let later = del.other y out in
      let here = put_off s x y (λ e. ne (sym e)) in (later.0 ∙ here.0, later.1 ∙ here.1);
}

nothing : (x : ℕ) → ¬ (0 < count x [])
unfolding count
nothing x h = omega (arith, h)

delete_from-Deleted :
    (fuel p : ℕ) (s : Chain) (b : ℕ) (xs : List ℕ)
    → Linked s b xs 0
    → ((x : ℕ) → count x xs ≤ 1)
    → p ≡ head_or 0 xs
    → length xs < fuel
    → (s' : Chain) × (delete_from fuel p s ≡ some (xs, s')) × Deleted s s' xs
unfolding delete_from set_next set_prev
delete_from-Deleted zero p s b xs h once e l = ground arith
delete_from-Deleted (suc fuel) p s b [] h once e l =
    (s, rw (e) refl, record { alone = λ x k. absurd (nothing x k); other = λ x k. (refl, refl) })
delete_from-Deleted (suc fuel) p s b (x ∷ xs) h once e l =
    let off : count x xs ≡ 0 = count-once_head x xs (once x) in
    let s₁ : Chain = set_prev x 0 (set_next x 0 s) in
    let same = λ (y : ℕ) (k : 0 < count y xs). put_off s x y (count-ne y x xs k off) in
    let (s', rest, del) =
      delete_from-Deleted fuel (s.next x) s₁ x xs (frame s s₁ x xs 0 same h.3)
        (λ y. omega (arith, once y, count-cons-le y x xs)) h.2 (omega (arith, l)) in
    (s', rw (e, not_null x h.0, rest) refl, Deleted-cons s s' x xs off del)

-- `deleteAll` hands every node to `deleteNode`, in order, each on its own, and leaves an empty
-- list.
pub delete_all-Repr :
    {s : Chain} {xs : List ℕ}
    → Repr s xs
    → (s' : Chain) × (delete_all s ≡ some (xs, s'))
      × Repr s' []
      × ((x : ℕ) → 0 < count x xs → Alone s' x)
unfolding delete_all count
delete_all-Repr {s} {xs} h =
    let (s', e, del) =
      delete_from-Deleted (s.size + 1) s.front s 0 xs h.links h.once h.at_front
        (omega (arith, h.sized)) in
    (
      record s' { front = 0; back = 0; size = 0 },
      rw (e) refl,
      record { links = tt; once = λ x. omega arith; at_front = refl; at_back = refl; sized = refl },
      del.alone,
    )
