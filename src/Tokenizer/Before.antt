-- ===== src/Tokenizer/Before.antt =====
-- rct/StringTokenizer.h, MatchResultComparator: an order that `std::sort` can use.
use rct.Prelude.{
  ℕ, ◌+◌, ◌%◌, ◌<◌, ◌≡◌, refl, sym, ap, ◌∙◌, Bool, true, false, List, [], ◌∷◌, if◌then◌else◌, ltb,
  ◌==◌, arith,
}
use rct.Prelude.Sorting.{IsStrictWeak}
use rct.String.Order.{less, less_asym, less_negtrans}
use rct.Tokenizer.{
  Candidate, Match, word_boundary, before_by_indices, less_int, before_by_candidate, before,
}

unfoldable pub sum : List ℕ → ℕ
sum [] = 0
sum (i ∷ is) = i + sum is

before_by_indices-asym :
    (is js : List ℕ) (r s : Bool)
    → (r ≡ true → s ≡ false)
    → before_by_indices is js r ≡ true
    → before_by_indices js is s ≡ false
unfolding before_by_indices
before_by_indices-asym [] [] r s h e = h e
before_by_indices-asym [] (j ∷ js) r s h e = h e
before_by_indices-asym (i ∷ is) [] r s h e = h e
before_by_indices-asym (i ∷ is) (j ∷ js) r s h e =
    let ih = before_by_indices-asym is js r s h in ground arith

before_by_indices_zero :
    (is js : List ℕ) (r : Bool) → sum is ≡ 0 → sum js ≡ 0 → before_by_indices is js r ≡ r
unfolding before_by_indices sum
before_by_indices_zero [] js r h k = refl
before_by_indices_zero (i ∷ is) [] r h k = refl
before_by_indices_zero (i ∷ is) (j ∷ js) r h k =
    let ih = before_by_indices_zero is js r (omega arith) (omega arith) in ground arith

-- The comparison stops where one of the lists ends; it is transitive all the same for lists of the
-- same sum, for what the longer list has more is zeros then.
before_by_indices-negtrans :
    (is js ks : List ℕ) (r s t : Bool)
    → sum is ≡ sum js
    → sum js ≡ sum ks
    → (r ≡ false → s ≡ false → t ≡ false)
    → before_by_indices is js r ≡ false
    → before_by_indices js ks s ≡ false
    → before_by_indices is ks t ≡ false
unfolding before_by_indices sum
before_by_indices-negtrans [] js ks r s t h k f e g =
    f e (rw (before_by_indices_zero js ks s (omega arith) (omega arith)) at g)
before_by_indices-negtrans (i ∷ is) [] ks r s t h k f e g =
    rw (before_by_indices_zero (i ∷ is) ks t h (omega arith)) (f e g)
before_by_indices-negtrans (i ∷ is) (j ∷ js) [] r s t h k f e g =
    f (rw (before_by_indices_zero (i ∷ is) (j ∷ js) r (omega arith) k) at e) g
before_by_indices-negtrans (i ∷ is) (j ∷ js) (l ∷ ks) r s t h k f e g =
    let ih : i ≡ j
        → j ≡ l
        → before_by_indices is js r ≡ false
        → before_by_indices js ks s ≡ false
        → before_by_indices is ks t ≡ false =
      λ p q. before_by_indices-negtrans is js ks r s t (omega arith) (omega arith) f in
    ground arith

less_int-asym : (a b : ℕ) → less_int a b ≡ true → less_int b a ≡ false
unfolding less_int
less_int-asym a b h = ground arith

-- `<` on `int` tells apart numbers of 32 bits.
less_int-total :
    (a b : ℕ)
    → a < 0x1_0000_0000
    → b < 0x1_0000_0000
    → less_int a b ≡ false
    → less_int b a ≡ false
    → a ≡ b
unfolding less_int
less_int-total a b x y h k = ground arith

less_int-negtrans : (a b c : ℕ) → less_int a b ≡ false → less_int b c ≡ false → less_int a c ≡ false
unfolding less_int
less_int-negtrans a b c h k = ground arith

before_by_candidate-asym :
    (a b : Candidate) → before_by_candidate a b ≡ true → before_by_candidate b a ≡ false
unfolding before_by_candidate
before_by_candidate-asym a b h =
    let names = less_asym a.name b.name in
    let priorities = less_int-asym a.priority b.priority in ground arith

-- Two orders, the second one where the first does not decide: by rising keys, which tell apart
-- the same elements as `p`, `q` and `r` do, or by falling ones.
rising-negtrans :
    (p q r x y z : ℕ) (pq qr pr : Bool)
    → (x ≡ y → p ≡ q)
    → (y ≡ z → q ≡ r)
    → (p ≡ q → x ≡ y)
    → (q ≡ r → y ≡ z)
    → (p ≡ r → x ≡ z)
    → (pq ≡ false → qr ≡ false → pr ≡ false)
    → (if p == q then pq else ltb x y) ≡ false
    → (if q == r then qr else ltb y z) ≡ false
    → (if p == r then pr else ltb x z) ≡ false
rising-negtrans p q r x y z pq qr pr f g h k l m a b = ground arith

falling-negtrans :
    (p q r : ℕ) (pq qr pr : Bool)
    → (p ≡ q → q ≡ r → pq ≡ false → qr ≡ false → pr ≡ false)
    → (if p == q then pq else ltb q p) ≡ false
    → (if q == r then qr else ltb r q) ≡ false
    → (if p == r then pr else ltb r p) ≡ false
falling-negtrans p q r pq qr pr m a b = ground arith

before_by_candidate-negtrans :
    (a b c : Candidate)
    → a.priority < 0x1_0000_0000
    → b.priority < 0x1_0000_0000
    → c.priority < 0x1_0000_0000
    → before_by_candidate a b ≡ false
    → before_by_candidate b c ≡ false
    → before_by_candidate a c ≡ false
unfolding before_by_candidate less_int
before_by_candidate-negtrans a b c x y z =
    let rank : ℕ → ℕ = λ p. (p + 0x8000_0000) % 0x1_0000_0000 in
    rising-negtrans a.priority b.priority c.priority (rank a.priority) (rank b.priority)
      (rank c.priority) (less a.name b.name) (less b.name c.name) (less a.name c.name)
      (λ e. omega arith) (λ e. omega arith) (ap rank) (ap rank) (ap rank)
      (less_negtrans a.name b.name c.name)

-- A match as a query of `n` letters and digits makes it.
unfoldable pub MatchOf : ℕ → Match → Type 0
MatchOf n m = (m.candidate.priority < 0x1_0000_0000) × (m.type ≡ word_boundary → sum m.indices ≡ n)

before-asym :
    (n : ℕ) (a b : Match) → MatchOf n a → MatchOf n b → before a b ≡ true → before b a ≡ false
unfolding before
before-asym n a b p q h =
    let candidates = before_by_candidate-asym a.candidate b.candidate in
    let indices =
      before_by_indices-asym a.indices b.indices (before_by_candidate a.candidate b.candidate)
        (before_by_candidate b.candidate a.candidate) candidates in
    ground arith

before-negtrans :
    (n : ℕ) (a b c : Match)
    → MatchOf n a
    → MatchOf n b
    → MatchOf n c
    → before a b ≡ false
    → before b c ≡ false
    → before a c ≡ false
unfolding before MatchOf
before-negtrans n a b c p q r h k =
    let candidates = before_by_candidate-negtrans a.candidate b.candidate c.candidate p.0 q.0 r.0 in
    let indices : a.type ≡ word_boundary
        → a.type ≡ b.type
        → b.type ≡ c.type
        → before_by_indices a.indices b.indices (before_by_candidate a.candidate b.candidate)
          ≡ false
        → before_by_indices b.indices c.indices (before_by_candidate b.candidate c.candidate)
          ≡ false
        → before_by_indices a.indices c.indices (before_by_candidate a.candidate c.candidate)
          ≡ false =
      λ x y z.
        before_by_indices-negtrans a.indices b.indices c.indices _ _ _
          (p.1 x ∙ sym (q.1 (sym y ∙ x))) (q.1 (sym y ∙ x) ∙ sym (r.1 (sym z ∙ (sym y ∙ x))))
          candidates in
    falling-negtrans a.type b.type c.type _ _ _ (λ e f x y. ground arith) h k

pub before-IsStrictWeak : (n : ℕ) → IsStrictWeak (MatchOf n) before
before-IsStrictWeak n = record { asym = before-asym n; negtrans = before-negtrans n }
