-- ===== src/ThreadPool/Queue.antt =====
-- The order of the queue of a `ThreadPool` (rct/ThreadPool.cpp).
use rct.Prelude.{
  put, count, count-append, count-head, put_there, eq_of, ℕ, ◌+◌, ◌-◌, ◌^◌, ◌<◌, ◌≤◌, ◌≡◌, ◌∙◌,
  Bool, true, List, [], ◌∷◌, ◌++◌, ltb, leb, ◌==◌, Bool-cases, inl, inr, arith,
}
use rct.ThreadPool.{signed, job_less_than, last, enqueue}

-- No job of the list has a larger key than the bound.
unfoldable pub Under : (ℕ → ℕ) → ℕ → List ℕ → Type 0
Under key b [] = Unit
Under key b (x ∷ xs) = (key x ≤ b) × Under key b xs

-- Every job comes before those with a smaller key.
unfoldable pub Descending : (ℕ → ℕ) → List ℕ → Type 0
Descending key [] = Unit
Descending key (x ∷ xs) = Under key (key x) xs × Descending key xs

-- What `std::sort` promises for a comparison by a key: no element is lost or made up, and none
-- stands behind a smaller one.
pub record Sorts (sort : (ℕ → ℕ → Bool) → List ℕ → List ℕ) : Type 0 where
  pub same : (less : ℕ → ℕ → Bool) (j : ℕ) (xs : List ℕ) → count j (sort less xs) ≡ count j xs
  pub ordered : (key : ℕ → ℕ) (xs : List ℕ) → Descending key (sort (job_less_than key) xs)

pub Under-mono : (key : ℕ → ℕ) (a b : ℕ) (xs : List ℕ) → a ≤ b → Under key a xs → Under key b xs
unfolding Under
Under-mono key a b [] h u = tt
Under-mono key a b (x ∷ xs) h u = (omega (arith, u.0, h), Under-mono key a b xs h u.1)

Under-snoc :
    (key : ℕ → ℕ) (b : ℕ) (xs : List ℕ) (j : ℕ)
    → key j ≤ b
    → Under key b xs
    → Under key b (xs ++ j ∷ [])
unfolding Under
Under-snoc key b [] j h u = (h, tt)
Under-snoc key b (x ∷ xs) j h u = (u.0, Under-snoc key b xs j h u.1)

Under-last :
    (key : ℕ → ℕ) (b k : ℕ) (ks : List ℕ) → key k ≤ b → Under key b ks → key (last k ks) ≤ b
unfolding Under last
Under-last key b k [] h u = h
Under-last key b k (x ∷ ks) h u = Under-last key b x ks u.0 u.1

pub Descending-snoc :
    (key : ℕ → ℕ) (k : ℕ) (ks : List ℕ) (j : ℕ)
    → key j ≤ key (last k ks)
    → Descending key (k ∷ ks)
    → Descending key (k ∷ ks ++ j ∷ [])
unfolding Descending last Under
Descending-snoc key k [] j h d = (Under-snoc key (key k) [] j h d.0, (tt, tt))
Descending-snoc key k (x ∷ ks) j h d = (
  Under-snoc key (key k) (x ∷ ks) j (omega (arith, h, Under-last key (key k) x ks d.0.0 d.0.1)) d.0,
  Descending-snoc key x ks j h d.1,
)

pub Under-put :
    (key : ℕ → ℕ) (b : ℕ) (xs : List ℕ) (j p : ℕ)
    → count j xs ≡ 0
    → Under key b xs
    → Under (put j p key) b xs
unfolding Under count
Under-put key b [] j p h u = tt
Under-put key b (x ∷ xs) j p h u =
    let apart = count-head j x xs h in
    (rw (put_there j p key x apart.0) u.0, Under-put key b xs j p apart.1 u.1)

pub Descending-put :
    (key : ℕ → ℕ) (xs : List ℕ) (j p : ℕ)
    → count j xs ≡ 0
    → Descending key xs
    → Descending (put j p key) xs
unfolding Descending count
Descending-put key [] j p h d = tt
Descending-put key (x ∷ xs) j p h d =
    let apart = count-head j x xs h in
    (
      rw (put_there j p key x apart.0) (Under-put key (key x) xs j p apart.1 d.0),
      Descending-put key xs j p apart.1 d.1,
    )

signed-leb : (a b : ℕ) → a < 2 ^ 31 → b < 2 ^ 31 → leb (signed a) (signed b) ≡ true → a ≤ b
unfolding signed
signed-leb a b h k t = ground arith

signed-ltb : (a b : ℕ) → a < 2 ^ 31 → b < 2 ^ 31 → ltb (signed a) (signed b) ≡ true → a < b
unfolding signed
signed-ltb a b h k t = ground arith

Under-count : (key : ℕ → ℕ) (b x : ℕ) (xs : List ℕ) → Under key b xs → 0 < count x xs → key x ≤ b
unfolding Under count
Under-count key b x [] u h = ground arith
Under-count key b x (y ∷ xs) u h = elim (Bool-cases (y == x)) [
  | inl t ↦ rw (← eq_of y x t) u.0
  | inr t ↦ Under-count key b x xs u.1 (ground arith)
]

count-Under :
    (key : ℕ → ℕ) (b : ℕ) (xs : List ℕ) → ((x : ℕ) → 0 < count x xs → key x ≤ b) → Under key b xs
unfolding Under count
count-Under key b [] h = tt
count-Under key b (x ∷ xs) h =
    (h x (ground arith), count-Under key b xs (λ y k. h y (omega (arith, k))))

module _ (sort : (ℕ → ℕ → Bool) → List ℕ → List ℕ) (sorts : Sorts sort) where
  -- The job is put in at one place of the queue, and nothing else changes but perhaps the order.
  pub count-enqueue :
      (key : ℕ → ℕ) (j k : ℕ) (xs : List ℕ)
      → count k (enqueue sort key j xs) ≡ count k xs + count k (j ∷ [])
  unfolding enqueue count
  count-enqueue key j k [] = omega arith
  count-enqueue key j k (x ∷ xs) =
      elim (Bool-cases (leb (signed (key j)) (signed (key (last x xs))))) [
        | inl t ↦ rw (t) (count-append k (x ∷ xs) (j ∷ []))
        | inr t ↦ elim (Bool-cases (ltb (signed (key x)) (signed (key j)))) [
          | inl e ↦ rw (t, e) (omega arith)
          | inr e ↦ rw (t, e) (sorts.same _ k _ ∙ count-append k (x ∷ xs) (j ∷ []))
        ]
      ]

  -- A queue in the order of descending priorities stays so when a job joins it, if no priority is
  -- negative.
  pub enqueue-Descending :
      (key : ℕ → ℕ) (j : ℕ) (xs : List ℕ)
      → key j < 2 ^ 31
      → Under key (2 ^ 31 - 1) xs
      → Descending key xs
      → Descending key (enqueue sort key j xs)
  unfolding enqueue Descending Under
  enqueue-Descending key j [] h u d = (tt, tt)
  enqueue-Descending key j (x ∷ xs) h u d =
      elim (Bool-cases (leb (signed (key j)) (signed (key (last x xs))))) [
        | inl t ↦ rw (t) (
            Descending-snoc key x xs j
              (signed-leb _ _ h (omega (arith, Under-last key (2 ^ 31 - 1) x xs u.0 u.1)) t) d)
        | inr t ↦ elim (Bool-cases (ltb (signed (key x)) (signed (key j)))) [
          | inl e ↦
              let le : key x ≤ key j =
                omega (arith, signed-ltb (key x) (key j) (omega (arith, u.0)) h e) in
              rw (t, e) ((le, Under-mono key (key x) (key j) xs le d.0), d)
          | inr e ↦ rw (t, e) (sorts.ordered key _)
        ]
      ]

  pub enqueue-Under :
      (key : ℕ → ℕ) (b j : ℕ) (xs : List ℕ)
      → key j ≤ b
      → Under key b xs
      → Under key b (enqueue sort key j xs)
  unfolding count
  enqueue-Under key b j xs h u = count-Under key b (enqueue sort key j xs) (λ x k.
      elim (Bool-cases (j == x)) [
        | inl t ↦ rw (← eq_of j x t) h
        | inr t ↦ Under-count key b x xs u (ground (arith, count-enqueue key j x xs))
      ])
