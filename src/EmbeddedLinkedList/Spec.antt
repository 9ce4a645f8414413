-- ===== src/EmbeddedLinkedList/Spec.antt =====
-- What `EmbeddedLinkedList` (rct/EmbeddedLinkedList.h) promises, as operations on a list of nodes.
use rct.Prelude.{
  ℕ, ◌≡◌, refl, sym, ap, Bool, true, false, not, ◌&&◌, List, [], ◌∷◌, ◌++◌, Option, some, none,
  and_then, if◌then◌else◌, ◌==◌, eq_of, count, Bool-cases, inl, inr, arith,
}
use rct.EmbeddedLinkedList.{
  Chain, insert, append, prepend, remove, take_front, take_back, move_to_end, move_to_front,
  delete_all,
}
use rct.EmbeddedLinkedList.Walk.{member}

pub data Operation : Type 0 where
  do_insert : ℕ → ℕ → Operation
  do_append do_prepend do_remove do_move_to_end do_move_to_front : ℕ → Operation
  do_take_front do_take_back do_delete_all : Operation

-- The code's operation.
unfoldable pub run : Operation → Chain → Option Chain
run (do_insert t after) s = insert t after s
run (do_append t) s = append t s
run (do_prepend t) s = prepend t s
run (do_remove t) s = remove t s
run (do_move_to_end t) s = move_to_end t s
run (do_move_to_front t) s = move_to_front t s
run do_take_front s = and_then (take_front s) (λ r. some r.1)
run do_take_back s = and_then (take_back s) (λ r. some r.1)
run do_delete_all s = and_then (delete_all s) (λ r. some r.1)

unfoldable pub without : ℕ → List ℕ → List ℕ
without t [] = []
without t (x ∷ xs) = if t == x then xs else x ∷ without t xs

unfoldable pub behind : ℕ → ℕ → List ℕ → List ℕ
behind a t [] = []
behind a t (x ∷ xs) = if a == x then x ∷ t ∷ xs else x ∷ behind a t xs

-- All but the last one.
unfoldable pub init : List ℕ → List ℕ
init [] = []
init (x ∷ []) = []
init (x ∷ y ∷ ys) = x ∷ init (y ∷ ys)

-- A node that may be put in: not null, and not there.
unfoldable pub is_new : ℕ → List ℕ → Bool
is_new t xs = not (t == 0) && not (member t xs)

-- What the operation does to the list; `none` where its caller breaks the contract.
unfoldable pub spec : Operation → List ℕ → Option (List ℕ)
spec (do_insert t after) xs =
    if is_new t xs && member after xs then some (behind after t xs) else none
spec (do_append t) xs = if is_new t xs then some (xs ++ t ∷ []) else none
spec (do_prepend t) xs = if is_new t xs then some (t ∷ xs) else none
spec (do_remove t) xs = if member t xs then some (without t xs) else none
spec (do_move_to_end t) xs = if member t xs then some (without t xs ++ t ∷ []) else none
spec (do_move_to_front t) xs = if member t xs then some (t ∷ without t xs) else none
spec do_take_front [] = none
spec do_take_front (x ∷ xs) = some xs
spec do_take_back [] = none
spec do_take_back (x ∷ xs) = some (init (x ∷ xs))
spec do_delete_all xs = some []

-- A list cut at a node of it.
pub record Cut (t : ℕ) (xs : List ℕ) : Type 0 where
  pub l : List ℕ
  pub r : List ℕ
  pub parts : xs ≡ l ++ t ∷ r
  pub gone : without t xs ≡ l ++ r
  pub joins : (n : ℕ) → behind t n xs ≡ l ++ t ∷ n ∷ r

true-ne : ¬ (false ≡ true)
true-ne h = cc

pub cut : (t : ℕ) (xs : List ℕ) → member t xs ≡ true → Cut t xs
unfolding member without behind
cut t [] h = absurd (true-ne h)
cut t (x ∷ xs) h = elim (Bool-cases (t == x)) [
  | inl e ↦ record {
    l = [];
    r = xs;
    parts = ap (λ y. y ∷ xs) (sym (eq_of t x e));
    gone = rw (e) refl;
    joins = λ n. rw (e) (ap (λ y. y ∷ n ∷ xs) (sym (eq_of t x e)));
  }
  | inr e ↦
      let c = cut t xs (rw e at h) in
      record {
        l = x ∷ c.l;
        r = c.r;
        parts = ap (λ ys. x ∷ ys) c.parts;
        gone = rw (e) (ap (λ ys. x ∷ ys) c.gone);
        joins = λ n. rw (e) (ap (λ ys. x ∷ ys) (c.joins n));
      }
]

pub count-not_member : (t : ℕ) (xs : List ℕ) → member t xs ≡ false → count t xs ≡ 0
unfolding member count
count-not_member t [] h = refl
count-not_member t (x ∷ xs) h = ground (arith, count-not_member t xs)

pub init-snoc : (l : List ℕ) (a : ℕ) → init (l ++ a ∷ []) ≡ l
unfolding init
init-snoc [] a = refl
init-snoc (x ∷ []) a = refl
init-snoc (x ∷ y ∷ l) a = ap (λ r. x ∷ r) (init-snoc (y ∷ l) a)
