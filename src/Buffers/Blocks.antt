-- ===== src/Buffers/Blocks.antt =====
-- Sizes of the blocks in `Buffers` (rct/Buffer.h), through `push` and `read`.
use rct.Prelude.{
  ℕ, ◌+◌, ◌-◌, ◌≤◌, ◌<◌, inl, inr, List, [], ◌∷◌, ◌++◌, append-nil, leb, ◌==◌, Bool-cases, length,
  length-append, length-drop, arith,
}
use rct.Prelude.Words.{sub_size, size_mod}
use rct.Buffers.{Buffers, push, read_loop, read, joined, content, InFront, IsValid, AllShort}
use rct.Buffers.Read.{joined-append}

read_loop-AllShort :
    (k : ℕ) (xs : List (List ℕ)) (o n : ℕ) → AllShort k xs → AllShort k (read_loop xs o n).1.blocks
unfolding read_loop
read_loop-AllShort k [] o n h = tt
read_loop-AllShort k (x ∷ xs) o n h = elim (Bool-cases (leb n (sub_size (length x) o))) [
  | inl all ↦ rw all (elim (Bool-cases (n == sub_size (length x) o)) [
    | inl whole ↦ rw whole h.1
    | inr part ↦ rw part h
  ])
  | inr more ↦ rw more (read_loop-AllShort k xs 0 (n - sub_size (length x) o) h.1)
]

pub read-AllShort : (k n : ℕ) (b : Buffers) → AllShort k b.blocks → AllShort k (read n b).1.blocks
unfolding read
read-AllShort k n b h = elim (Bool-cases (n == 0)) [
  | inl none ↦ rw none h
  | inr some ↦ rw some (read_loop-AllShort k b.blocks b.offset n h)
]

AllShort-push :
    (k : ℕ) (xs : List (List ℕ)) (y : List ℕ)
    → AllShort k xs
    → length y ≤ k
    → AllShort k (xs ++ y ∷ [])
AllShort-push k [] y h l = (l, tt)
AllShort-push k (x ∷ xs) y h l = (h.0, AllShort-push k xs y h.1 l)

pub push-AllShort :
    (k : ℕ) (buf : List ℕ) (b : Buffers)
    → AllShort k b.blocks
    → length buf ≤ k
    → AllShort k (push buf b).blocks
unfolding push
push-AllShort k buf b h l = AllShort-push k b.blocks buf h l

offset-le : (k : ℕ) (xs : List (List ℕ)) (o : ℕ) → AllShort k xs → InFront xs o → o ≤ k
offset-le k [] o h f = omega arith
offset-le k (x ∷ xs) o h f = omega arith

InFront-push : (xs : List (List ℕ)) (y : List ℕ) (o : ℕ) → InFront xs o → InFront (xs ++ y ∷ []) o
InFront-push [] y o h = omega arith
InFront-push (x ∷ xs) y o h = h

pub push-IsValid :
    (buf : List ℕ) {b : Buffers}
    → IsValid b
    → length (joined b.blocks) + length buf < size_mod
    → IsValid (push buf b)
unfolding push joined
push-IsValid buf {b} v h = record {
  in_front = InFront-push b.blocks buf b.offset v.in_front;
  fits =
      rw (joined-append b.blocks (buf ∷ []), append-nil buf)
        (omega (arith, length-append (joined b.blocks) buf));
}

-- Only the front block holds bytes that have been read.
pub joined-le :
    (k : ℕ) (b : Buffers)
    → AllShort k b.blocks
    → InFront b.blocks b.offset
    → length (joined b.blocks) ≤ length (content b) + k
joined-le k b h f =
    omega (arith, length-drop b.offset (joined b.blocks), offset-le k b.blocks b.offset h f)
