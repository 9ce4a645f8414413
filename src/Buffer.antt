-- ===== src/Buffer.antt =====
-- rct/Buffer.h: the class Buffer, one block of bytes.
pub mod Keeps
mod Tests
use rct.Prelude.{
  ℕ, zero, suc, ◌+◌, Bool, true, false, not, ◌&&◌, List, [], ◌∷◌, ◌++◌, Option, none, some,
  if◌then◌else◌, leb, ◌==◌, length, take, drop, replicate,
}

-- The block that `bufferData` points to, all the bytes of it, `bufferSize` and `bufferReserved`.
pub record Buffer : Type 0 where
  pub block : Option (List ℕ)
  pub size : ℕ
  pub reserved : ℕ

unfoldable pub new_buffer : Buffer
new_buffer = record { block = none; size = 0; reserved = 0 }

unfoldable pub bytes_of : Option (List ℕ) → List ℕ
bytes_of none = []
bytes_of (some bytes) = bytes

-- `realloc`, which gives new bytes any value: the ones of `junk`, whose length is asked for.
unfoldable pub realloc : (ℕ → List ℕ) → Option (List ℕ) → ℕ → List ℕ
realloc junk block sz = let bytes = bytes_of block in take sz bytes ++ drop (length bytes) (junk sz)

unfoldable pub clear : Buffer → Buffer
clear b =
    if leb 0x8_0000 b.size
    then record { block = none; size = 0; reserved = 0 }
    else record b { size = 0 }

unfoldable pub reserve : (ℕ → List ℕ) → ℕ → Buffer → Buffer
reserve junk sz b =
    if leb sz b.reserved
    then b
    else record { block = some (realloc junk b.block sz); size = b.size; reserved = sz }

unfoldable pub resize : (ℕ → List ℕ) → ℕ → Buffer → Buffer
resize junk sz b =
    if sz == 0
    then clear b
    else if leb b.size sz && leb sz b.reserved
    then record b { size = sz }
    else record { block = some (realloc junk b.block sz); size = sz; reserved = sz }

-- The move constructor: the new buffer, and what is left of the other one.
unfoldable pub move : Buffer → Buffer × Buffer
move other = (other, record { block = none; size = 0; reserved = 0 })

-- The bytes that a buffer is said to hold.
unfoldable pub content : Buffer → List ℕ
content b = take b.size (bytes_of b.block)
