-- ===== src/Value/Numbers.antt =====
-- rct/Value.h and rct/String.h: numbers as text. `strtol`, `strtoll`, `strtoull` and the formats of
-- `snprintf` that `String::number` and `Value::convert` call, at base ten and zero.
pub mod Decimal
use rct.Prelude.{
  ℕ, zero, suc, ◌+◌, ◌-◌, ◌*◌, ◌/◌, ◌%◌, Bool, true, false, List, [], ◌∷◌, ◌++◌, Option, none, some,
  and_then, ◌&&◌, ◌||◌, if◌then◌else◌, ltb, leb, ◌==◌,
}
use rct.Prelude.Words.{size_mod}
use rct.Serializer.{u32_mod}

-- `%llu`, on a number of at most `fuel` digits.
unfoldable pub decimal : ℕ → ℕ → List ℕ
decimal zero x = []
decimal (suc fuel) x =
    let rest = decimal fuel (x / 10) in
    if ltb x 10 then (48 + x) ∷ [] else rest ++ ((48 + x % 10) ∷ [])

abbrev pub long_min : ℕ
long_min = 0x8000_0000_0000_0000

-- `String::number(long long)`, on the eight bytes of the number.
unfoldable pub number_long : ℕ → List ℕ
number_long x = if ltb x long_min then decimal 20 x else 45 ∷ decimal 20 (size_mod - x)

-- `static_cast<long long>(int)`, on the four bytes.
unfoldable pub extended : ℕ → ℕ
extended x = if ltb x 0x8000_0000 then x else x + (size_mod - u32_mod)

-- `String::number(int)`
unfoldable pub number_int : ℕ → List ℕ
number_int x = number_long (extended x)

-- What `c_str` ends at.
unfoldable pub until_null : List ℕ → List ℕ
until_null [] = []
until_null (ch ∷ rest) = if ch == 0 then [] else ch ∷ until_null rest

unfoldable pub is_space : ℕ → Bool
is_space ch = ch == 32 || (leb 9 ch && leb ch 13)

unfoldable pub skip_space : List ℕ → List ℕ
skip_space [] = []
skip_space (ch ∷ rest) = if is_space ch then skip_space rest else ch ∷ rest

-- The value of a digit, if it is one at this base.
unfoldable pub digit : ℕ → ℕ → Option ℕ
digit base ch =
    let value =
      if leb 48 ch && leb ch 57
      then ch - 48
      else if leb 97 ch && leb ch 122
      then ch - 87
      else if leb 65 ch && leb ch 90
      then ch - 55
      else 36 in
    if ltb value base then some value else none

-- The number that digits stand for, after `n`, and what stands behind them.
unfoldable pub digits : ℕ → ℕ → List ℕ → ℕ × List ℕ
digits base n [] = (n, [])
digits base n (ch ∷ rest) = elim (digit base ch) [
  | none ↦ (n, ch ∷ rest)
  | some d ↦ digits base (n * base + d) rest
]

-- The digits of a text that has one at least.
unfoldable pub some_digits : ℕ → List ℕ → Option (ℕ × List ℕ)
some_digits base [] = none
some_digits base (ch ∷ rest) = and_then (digit base ch) (λ d. some (digits base d rest))

-- Base ten, or that of the prefix when the base is zero; `0x` is one only before a digit.
unfoldable pub based : Bool → List ℕ → Option (ℕ × List ℕ)
based false text = some_digits 10 text
based true [] = none
based true (ch ∷ []) = some_digits 10 (ch ∷ [])
based true (ch ∷ x ∷ rest) =
    if ch == 48
    then if x == 120 || x == 88
      then elim (some_digits 16 rest) [ none ↦ some (0, x ∷ rest) | some r ↦ some r ]
      else some_digits 8 (ch ∷ x ∷ rest)
    else some_digits 10 (ch ∷ x ∷ rest)

-- The sign, whether it is a minus, and what stands behind it.
unfoldable pub sign : List ℕ → Bool × List ℕ
sign [] = (false, [])
sign (ch ∷ rest) =
    if ch == 45 then (true, rest) else if ch == 43 then (false, rest) else (false, ch ∷ rest)

unfoldable pub whole_signed : Bool → Bool × List ℕ → Option (Bool × ℕ)
whole_signed any_base signed =
    and_then (based any_base signed.1)
      (λ r. elim r.1 [ [] ↦ some (signed.0, r.0) | ch ∷ rest ↦ none ])

-- Sign and magnitude, if the whole text is a number: `!*endPtr`. The empty text is zero.
unfoldable pub whole_number : Bool → List ℕ → Option (Bool × ℕ)
whole_number any_base [] = some (false, 0)
whole_number any_base text = whole_signed any_base (sign (skip_space text))

-- `strtol` and `strtoll` keep what is out of range at the ends of the range.
unfoldable pub clamp_long : Bool × ℕ → ℕ
clamp_long n =
    if n.0
    then (if leb n.1 long_min then (size_mod - n.1) % size_mod else long_min)
    else if ltb n.1 long_min
    then n.1
    else long_min - 1

-- `strtoull`
unfoldable pub clamp_ulong : Bool × ℕ → ℕ
clamp_ulong n =
    if ltb n.1 size_mod then (if n.0 then (size_mod - n.1) % size_mod else n.1) else size_mod - 1

unfoldable pub parse_long : Bool → List ℕ → Option ℕ
parse_long any_base s = and_then (whole_number any_base (until_null s)) (λ n. some (clamp_long n))

unfoldable pub parse_ulong : List ℕ → Option ℕ
parse_ulong s = and_then (whole_number true (until_null s)) (λ n. some (clamp_ulong n))
