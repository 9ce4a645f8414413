-- ===== src/Buffers.antt =====
-- `Buffers` of rct/Buffer.h: received blocks in a queue, read across their borders.
pub mod Read
pub mod Blocks
use rct.Prelude.{
  ℕ, zero, suc, ◌+◌, ◌-◌, ◌≤◌, ◌<◌, ◌≡◌, List, [], ◌∷◌, ◌++◌, if◌then◌else◌, leb, ◌==◌, length,
  take, drop,
}
use rct.Prelude.Words.{sub_size, add_size, size_mod}

-- `mBuffers` (the bytes of each block, front first) and `mBufferOffset`.
pub record Buffers : Type 0 where
  pub blocks : List (List ℕ)
  pub offset : ℕ

abbrev pub no_buffers : Buffers
no_buffers = record { blocks = []; offset = 0 }

unfoldable pub push : List ℕ → Buffers → Buffers
push buf b = record b { blocks = b.blocks ++ buf ∷ [] }

unfoldable pub size_loop : ℕ → List (List ℕ) → ℕ
size_loop acc [] = acc
size_loop acc (buf ∷ rest) = size_loop (add_size acc (length buf)) rest

unfoldable pub size : Buffers → ℕ
unfolding size_loop
size b = sub_size (size_loop 0 b.blocks) b.offset

-- The `while` loop of `Buffers::read`, with the bytes that it copies out.
unfoldable pub read_loop : List (List ℕ) → (offset remaining : ℕ) → List ℕ × Buffers
read_loop [] offset remaining = ([], record { blocks = []; offset = offset })
read_loop (buf ∷ rest) offset remaining =
    let available = sub_size (length buf) offset in
    if leb remaining available
    then (
      take remaining (drop offset buf),
      if remaining == available
          then record { blocks = rest; offset = 0 }
          else record { blocks = buf ∷ rest; offset = remaining + offset },
    )
    else let (out, b) = read_loop rest 0 (remaining - available) in
      (take available (drop offset buf) ++ out, b)

unfoldable pub read : ℕ → Buffers → List ℕ × Buffers
unfolding read_loop
read n b = if n == 0 then ([], b) else read_loop b.blocks b.offset n

-- What `size` and `read` are about: the bytes that were pushed and not yet read.
unfoldable pub joined : List (List ℕ) → List ℕ
joined [] = []
joined (x ∷ xs) = x ++ joined xs

abbrev pub content : Buffers → List ℕ
content b = drop b.offset (joined b.blocks)

-- The offset lies in the front block, and is 0 if there is none.
abbrev pub InFront : List (List ℕ) → ℕ → Type 0
InFront [] offset = offset ≡ 0
InFront (x ∷ xs) offset = offset ≤ length x

-- Memory holds all blocks, so their sizes add up to a `size_t`.
pub record IsValid (b : Buffers) : Type 0 where
  pub in_front : InFront b.blocks b.offset
  pub fits : length (joined b.blocks) < size_mod

-- Every block has at most `k` bytes.
abbrev pub AllShort : ℕ → List (List ℕ) → Type 0
AllShort k [] = Unit
AllShort k (x ∷ xs) = (length x ≤ k) × AllShort k xs
