-- ===== src/ThreadPool/Insertion.antt =====
-- A sort that does what the model of rct/ThreadPool.cpp asks of `std::sort`.
use rct.Prelude.{count, ℕ, ◌≤◌, ◌≡◌, refl, Bool, List, [], ◌∷◌, ltb, Bool-cases, inl, inr, arith}
use rct.Prelude.Sorting.{insert, insertion_sort}
use rct.ThreadPool.{job_less_than}
use rct.ThreadPool.Queue.{Under, Descending, Sorts, Under-mono}

count-insert :
    (less : ℕ → ℕ → Bool) (j x : ℕ) (ys : List ℕ) → count j (insert less x ys) ≡ count j (x ∷ ys)
unfolding insert count
count-insert less j x [] = refl
count-insert less j x (y ∷ ys) = elim (Bool-cases (less y x)) [
  | inl t ↦ rw (t) (omega (arith, count-insert less j x ys))
  | inr t ↦ rw (t) refl
]

count-insertion_sort :
    (less : ℕ → ℕ → Bool) (j : ℕ) (xs : List ℕ) → count j (insertion_sort less xs) ≡ count j xs
unfolding insertion_sort count
count-insertion_sort less j [] = refl
count-insertion_sort less j (x ∷ xs) =
    omega (arith, count-insert less j x (insertion_sort less xs), count-insertion_sort less j xs)

insert-Under :
    (key : ℕ → ℕ) (b x : ℕ) (less : ℕ → ℕ → Bool) (ys : List ℕ)
    → key x ≤ b
    → Under key b ys
    → Under key b (insert less x ys)
unfolding insert Under
insert-Under key b x less [] h u = (h, tt)
insert-Under key b x less (y ∷ ys) h u = elim (Bool-cases (less y x)) [
  | inl t ↦ rw (t) ((u.0, insert-Under key b x less ys h u.1))
  | inr t ↦ rw (t) ((h, u))
]

insert-Descending :
    (key : ℕ → ℕ) (x : ℕ) (ys : List ℕ)
    → Descending key ys
    → Descending key (insert (job_less_than key) x ys)
unfolding insert Descending Under job_less_than
insert-Descending key x [] d = (tt, tt)
insert-Descending key x (y ∷ ys) d = elim (Bool-cases (ltb (key x) (key y))) [
  | inl t ↦ rw (t) (
      (
        insert-Under key (key y) x (job_less_than key) ys (ground arith) d.0,
        insert-Descending key x ys d.1,
      ))
  | inr t ↦
      let le : key y ≤ key x = ground arith in
      rw (t) (((le, Under-mono key (key y) (key x) ys le d.0), d))
]

insertion_sort-Descending :
    (key : ℕ → ℕ) (xs : List ℕ) → Descending key (insertion_sort (job_less_than key) xs)
unfolding insertion_sort Descending
insertion_sort-Descending key [] = tt
insertion_sort-Descending key (x ∷ xs) =
    insert-Descending key x (insertion_sort (job_less_than key) xs)
      (insertion_sort-Descending key xs)

pub insertion_sort-Sorts : Sorts insertion_sort
insertion_sort-Sorts = record { same = count-insertion_sort; ordered = insertion_sort-Descending }
