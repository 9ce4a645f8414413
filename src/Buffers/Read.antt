-- ===== src/Buffers/Read.antt =====
-- `Buffers::push`, `size` and `read` (rct/Buffer.h) against the bytes that the queue holds.
use rct.Prelude.{
  ℕ, zero, suc, ◌+◌, ◌-◌, ◌≤◌, ◌<◌, ◌≡◌, ◌≢◌, refl, sym, List, [], ◌∷◌, ◌++◌, append-nil,
  append_assoc, length, take, drop, length-append, length-drop, take-nil, drop-nil, take-append_le,
  drop-append_le, take-append_ge, drop-append_ge, take_all, drop-append_eq, drop-drop, arith,
  leb-true, leb-false, eq_true, eq_false,
}
use native.Mathlib.Decide.{dec_lt, ℕ_discrete}
use native.Mathlib.Nat.{le_of_lt, ne_of_lt, le_of_eq, add_comm}
use rct.Prelude.Words.{sub_size_lem, add_size, size_mod}
use rct.Buffers.{Buffers, push, size_loop, size, read_loop, read, joined, content, InFront, IsValid}

pub joined-append : (xs ys : List (List ℕ)) → joined (xs ++ ys) ≡ joined xs ++ joined ys
unfolding joined
joined-append [] ys = refl
joined-append (x ∷ xs) ys = rw (joined-append xs ys, append_assoc)

InFront-le : (xs : List (List ℕ)) (o : ℕ) → InFront xs o → o ≤ length (joined xs)
unfolding joined
InFront-le [] o h = omega arith
InFront-le (x ∷ xs) o h = omega (arith, length-append x (joined xs))

size_loop_lem :
    (acc : ℕ) (xs : List (List ℕ))
    → acc + length (joined xs) < size_mod
    → size_loop acc xs ≡ acc + length (joined xs)
unfolding size_loop joined
size_loop_lem acc [] h = omega arith
size_loop_lem acc (x ∷ xs) h =
    let both = length-append x (joined xs) in
    let exact : add_size acc (length x) ≡ acc + length x = omega arith in
    rw exact (omega (arith, size_loop_lem (acc + length x) xs (omega arith)))

-- `size` is the number of bytes that the queue holds, with no wrap-around.
pub size-content : {b : Buffers} → IsValid b → size b ≡ length (content b)
unfolding size
size-content {b} v =
    let within = InFront-le b.blocks b.offset v.in_front in
    let total = size_loop_lem 0 b.blocks (omega (arith, v.fits)) in
    rw (total, length-drop b.offset (joined b.blocks)) (omega (arith, v.fits))

-- What one run of the loop does, from a front block at `offset`.
pub record Taken (bytes : List ℕ) (n total : ℕ) (r : List ℕ × Buffers) : Type 0 where
  pub out : r.0 ≡ take n bytes
  pub rest : content r.1 ≡ drop n bytes
  pub front : InFront r.1.blocks r.1.offset
  pub kept : length (joined r.1.blocks) ≤ total

InFront-zero : (xs : List (List ℕ)) → InFront xs 0
InFront-zero [] = refl
InFront-zero (x ∷ xs) = omega arith

read_loop-Taken :
    (xs : List (List ℕ)) (o n : ℕ)
    → InFront xs o
    → length (joined xs) < size_mod
    → Taken (drop o (joined xs)) n (length (joined xs)) (read_loop xs o n)
unfolding read_loop joined
read_loop-Taken [] o n h fits = record {
  out = rw (drop-nil o, take-nil n);
  rest = rw (drop-nil o, drop-nil n);
  front = h;
  kept = omega arith;
}
read_loop-Taken (x ∷ xs) o n h fits =
    let both = length-append x (joined xs) in
    let exact = sub_size_lem (length x) o (omega arith) h in
    let left = length-drop o x in
    rw (exact, drop-append_le o x (joined xs) h)
      (elim (dec_lt n (length x - o)) [
        | yes lt ↦
            rw (leb-true (le_of_lt lt), eq_false (ne_of_lt lt))
              (record {
                out = sym (take-append_le n (drop o x) (joined xs) (omega arith));
                rest =
                    rw (drop-append_le n (drop o x) (joined xs) (omega arith), drop-drop n o x)
                      (rw (add_comm n o) (drop-append_le (o + n) x (joined xs) (omega arith)));
                front = omega arith;
                kept = omega arith;
              })
        | no ge ↦ elim (ℕ_discrete n (length x - o)) [
          | yes eq ↦
              rw (leb-true (le_of_eq eq), eq_true eq)
                (record {
                  out = sym (take-append_le n (drop o x) (joined xs) (omega arith));
                  rest = sym (drop-append_eq n (drop o x) (joined xs) (omega arith));
                  front = InFront-zero xs;
                  kept = omega arith;
                })
          | no ne ↦
              let more =
                read_loop-Taken xs 0 (n - (length x - o)) (InFront-zero xs) (omega arith) in
              let over : length x - o < n = omega arith in
              rw (leb-false over) (record {
                out =
                    rw (take-append_ge n (drop o x) (joined xs) (omega arith), more.out, left)
                      (rw (take_all (length x - o) (drop o x) (omega arith)));
                rest = rw (drop-append_ge n (drop o x) (joined xs) (omega arith), left) more.rest;
                front = more.front;
                kept = omega (arith, more.kept);
              })
        ]
      ])

-- `read` hands out the first `n` bytes that the queue holds (all of them, if there are fewer),
-- keeps exactly the bytes behind them, and leaves a valid queue.
pub read-content :
    (n : ℕ) {b : Buffers}
    → IsValid b
    → ((read n b).0 ≡ take n (content b))
      × (content (read n b).1 ≡ drop n (content b))
      × IsValid (read n b).1
unfolding read
read-content zero v = (refl, refl, v)
read-content (suc n) {b} v =
    let t = read_loop-Taken b.blocks b.offset (suc n) v.in_front v.fits in
    let nonzero : suc n ≢ 0 = omega arith in
    rw (eq_false nonzero)
      (t.out, t.rest, record { in_front = t.front; fits = omega (arith, t.kept, v.fits) })

pub content-push :
    (buf : List ℕ) {b : Buffers} → IsValid b → content (push buf b) ≡ content b ++ buf
unfolding push joined
content-push buf {b} v =
    rw (joined-append b.blocks (buf ∷ []), append-nil buf)
      (drop-append_le b.offset (joined b.blocks) buf (InFront-le b.blocks b.offset v.in_front))
