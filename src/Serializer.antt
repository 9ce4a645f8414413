-- ===== src/Serializer.antt =====
-- rct/Serializer.h: values written to and read from a string of bytes, on a machine that stores
-- the low byte first, without RCT_SERIALIZER_VERIFY_PRIMITIVE_SIZE.
pub mod RoundTrip
use rct.Prelude.{
  ℕ, zero, suc, ◌+◌, ◌%◌, ◌^◌, ◌<◌, ◌≤◌, ◌≡◌, List, [], ◌∷◌, ◌++◌, Option, none, some, ◌&&◌,
  if◌then◌else◌, leb, ltb, ◌==◌, length, take, drop, replicate,
}
use rct.Prelude.Words.{le_bytes, le_value}

-- A reader takes the bytes that are left; `none` stands for the failed assertion
-- `mPos + len <= mLength` of `Deserializer::read`, and for bytes of 2^31 and more, which the `int`s
-- `mPos`, `mLength` and `len` cannot count.
abbrev pub Reader : Type 0 → Type 0
Reader A = List ℕ → Option (A × List ℕ)

infixl 5 ◌>>=◌
abbrev pub ◌>>=◌ : {A B : Type 0} → Reader A → (A → Reader B) → Reader B
◌>>=◌ m f bytes = elim (m bytes) [ none ↦ none | some (a, rest) ↦ f a rest ]

abbrev pub pure : {A : Type 0} → A → Reader A
pure a bytes = some (a, bytes)

-- `Deserializer::read` of `len` bytes: the assertion stands under `if (len)`. The first read that is
-- not empty sees all the bytes, so the test of those that are left against 2^31 is one of `mLength`.
unfoldable pub read_bytes : ℕ → Reader (List ℕ)
read_bytes len bytes =
    if len == 0
    then some ([], bytes)
    else if leb len (length bytes) && ltb (length bytes) (2 ^ 31)
    then some (take len bytes, drop len bytes)
    else none

-- The operators of DECLARE_NATIVE_TYPE, at an unsigned type of `n` bytes.
unfoldable pub write_native : ℕ → ℕ → List ℕ
write_native n x = le_bytes n x

unfoldable pub read_native : ℕ → Reader ℕ
read_native n = do buf ← read_bytes n; pure (le_value buf)

-- The signed reading of four bytes, for `int`.
abbrev pub u32_mod : ℕ
u32_mod = 0x1_0000_0000

-- `Serializer::write` takes an `int` and asserts that it is positive; the bytes of a string are
-- written only if there are any, so this is the code on strings of fewer than 2^31 bytes.
unfoldable pub write_string : List ℕ → List ℕ
write_string s = write_native 4 (length s % u32_mod) ++ s

-- `string.resize(size)` and a read of all its bytes: the old value does not matter.
unfoldable pub read_string : Reader (List ℕ)
read_string = do size ← read_native 4; read_bytes size

-- How a type is written and read. `read old` reads into a variable that holds `old`; a variable
-- that was just declared holds `default`.
pub record Codec : Type 1 where
  pub Carrier : Type 0
  pub default : Carrier
  pub write : Carrier → List ℕ
  pub read : Carrier → Reader Carrier

module _ (c : Codec) where
  open c use {Carrier, default, write, read}

  unfoldable pub write_items : List Carrier → List ℕ
  write_items [] = []
  write_items (x ∷ xs) = write x ++ write_items xs

  unfoldable pub write_list : List Carrier → List ℕ
  write_list xs = write_native 4 (length xs % u32_mod) ++ write_items xs

  -- `std::vector::resize`
  unfoldable pub resize : ℕ → List Carrier → List Carrier
  resize zero xs = []
  resize (suc n) [] = default ∷ resize n []
  resize (suc n) (x ∷ xs) = x ∷ resize n xs

  -- The loop `for (i = 0; i < size; ++i) s >> list[i]`.
  unfoldable pub read_items : List Carrier → Reader (List Carrier)
  read_items [] = pure []
  read_items (old ∷ olds) = do x ← read old; xs ← read_items olds; pure (x ∷ xs)

  -- `operator>>` into a list that holds `old`.
  unfoldable pub read_list : List Carrier → Reader (List Carrier)
  read_list old = do
    size ← read_native 4
    if size == 0 then pure old else read_items (resize size old)

module _ (c d : Codec) where
  unfoldable pub write_pair : c.Carrier × d.Carrier → List ℕ
  write_pair p = c.write p.0 ++ d.write p.1

  unfoldable pub read_pair : c.Carrier × d.Carrier → Reader (c.Carrier × d.Carrier)
  read_pair old = do x ← c.read old.0; y ← d.read old.1; pure (x, y)

abbrev pub native : ℕ → Codec
native n = record { Carrier = ℕ; default = 0; write = write_native n; read = λ old. read_native n }

abbrev pub string : Codec
string = record { Carrier = List ℕ; default = []; write = write_string; read = λ old. read_string }

abbrev pub list : Codec → Codec
list c = record { Carrier = List c.Carrier; default = []; write = write_list c; read = read_list c }

abbrev pub pair : Codec → Codec → Codec
pair c d = record {
  Carrier = c.Carrier × d.Carrier;
  default = (c.default, d.default);
  write = write_pair c d;
  read = read_pair c d;
}
