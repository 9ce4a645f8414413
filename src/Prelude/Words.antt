-- ===== src/Prelude/Words.antt =====
-- Machine words: `size_t` arithmetic, and numbers as little-endian bytes.
use Prim.Native.Nat.{ℕ, zero, suc, ◌+◌, ◌-◌, ◌*◌, ◌/◌, ◌%◌, ◌^◌, ◌≤◌, ◌<◌}
use mathlib.Core.Path.{◌≡◌, refl, ap}
use mathlib.Core.List.{List, [], ◌∷◌}
use native.Mathlib.Omega.{arith}
use native.Mathlib.Nat.{pow-suc}
use rct.Prelude.Lists.{length}

-- `size_t` is 64 bits wide; `npos` is its largest value.
abbrev pub size_mod : ℕ
size_mod = 0x1_0000_0000_0000_0000

abbrev pub npos : ℕ
npos = 0xffff_ffff_ffff_ffff

-- `a - b` on `size_t`, which wraps.
abbrev pub sub_size : ℕ → ℕ → ℕ
sub_size a b = (a + (size_mod - b % size_mod)) % size_mod

abbrev pub add_size : ℕ → ℕ → ℕ
add_size a b = (a + b) % size_mod

pub sub_size_lem : (a b : ℕ) → a < size_mod → b ≤ a → sub_size a b ≡ a - b
sub_size_lem a b h k = omega arith

-- The object representation of an unsigned number of `n` bytes on a little-endian machine.
unfoldable pub le_bytes : ℕ → ℕ → List ℕ
le_bytes zero x = []
le_bytes (suc n) x = (x % 256) ∷ le_bytes n (x / 256)

unfoldable pub le_value : List ℕ → ℕ
le_value [] = 0
le_value (b ∷ bs) = b % 256 + 256 * le_value bs

pub length-le_bytes : (n x : ℕ) → length (le_bytes n x) ≡ n
unfolding le_bytes
length-le_bytes zero x = refl
length-le_bytes (suc n) x = ap suc (length-le_bytes n (x / 256))

pub le_value-le_bytes : (n x : ℕ) → x < 256 ^ n → le_value (le_bytes n x) ≡ x
unfolding le_bytes le_value
le_value-le_bytes zero x h = omega arith
le_value-le_bytes (suc n) x h =
    let small : x / 256 < 256 ^ n = omega (arith, pow-suc 256 n) in
    omega (arith, le_value-le_bytes n (x / 256) small)

pub le_value-lt : (n : ℕ) (bs : List ℕ) → length bs ≡ n → le_value bs < 256 ^ n
unfolding le_value
le_value-lt zero [] h = omega arith
le_value-lt zero (b ∷ bs) h = absurd (omega arith)
le_value-lt (suc n) [] h = absurd (omega arith)
le_value-lt (suc n) (b ∷ bs) h = omega (arith, pow-suc 256 n, le_value-lt n bs (omega arith))
