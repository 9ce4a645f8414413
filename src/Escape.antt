-- ===== src/Escape.antt =====
-- rct/Rct.h, `jsonEscape`: a string as the text of a JSON string.
pub mod Reference
pub mod Reader
pub mod Lost
mod Tests
use rct.Prelude.{
  ℕ, zero, suc, ◌+◌, ◌-◌, ◌*◌, ◌/◌, ◌%◌, Bool, true, false, List, [], ◌∷◌, ◌++◌, Option, none, some,
  if◌then◌else◌, ltb, leb, ◌||◌, ◌==◌, length, take, replicate,
}

unfoldable pub hex_digit : ℕ → ℕ
hex_digit d = if ltb d 10 then 48 + d else 87 + d

-- `%x`, on a number of at most `fuel` digits.
unfoldable pub hex_text : ℕ → ℕ → List ℕ
hex_text zero x = []
hex_text (suc fuel) x =
    let rest = hex_text fuel (x / 16) in
    if ltb x 16 then hex_digit x ∷ [] else rest ++ (hex_digit (x % 16) ∷ [])

-- A `char` is signed: `%x` prints a byte from 128 on as the `unsigned int` of a negative number.
unfoldable pub promoted : ℕ → ℕ
promoted ch = if ltb ch 128 then ch else 0xffff_ff00 + ch

-- `snprintf(buffer, 7, "\\u%04x", ch)` keeps six characters.
unfoldable pub unicode : ℕ → List ℕ
unicode ch =
    let digits = hex_text 8 (promoted ch) in
    take 6 (92 ∷ 117 ∷ (replicate (4 - length digits) 48 ++ digits))

-- `ch < 0x20`, where a `char` is signed.
unfoldable pub is_low : ℕ → Bool
is_low ch = ltb ch 32 || leb 128 ch

-- The text that the loop puts for a byte, if any.
unfoldable pub escaped : ℕ → Option (List ℕ)
escaped ch =
    if ch == 8
    then some (92 ∷ 98 ∷ [])
    else if ch == 12
    then some (92 ∷ 102 ∷ [])
    else if ch == 10
    then some (92 ∷ 110 ∷ [])
    else if ch == 9
    then some (92 ∷ 116 ∷ [])
    else if ch == 13
    then some (92 ∷ 114 ∷ [])
    else if ch == 34
    then some (92 ∷ 34 ∷ [])
    else if ch == 92
    then some (92 ∷ 92 ∷ [])
    else if is_low ch || ch == 127
    then some (unicode ch)
    else none

-- `put`, at the place `i`: what is put out when it has been called.
unfoldable pub put_text : List ℕ → ℕ → List ℕ → Bool → List ℕ → List ℕ
put_text str i text has_escaped out =
    (if has_escaped then out else if i == 0 then out else out ++ take i str) ++ text

-- The loop from the place `i` on, where `rest` stands, and what follows it.
unfoldable pub escape_loop : List ℕ → ℕ → List ℕ → Bool → List ℕ → List ℕ
escape_loop str i [] has_escaped out = if has_escaped then out else out ++ take (length str) str
escape_loop str i (ch ∷ rest) has_escaped out = elim (escaped ch) [
  | some text ↦ escape_loop str (i + 1) rest true (put_text str i text has_escaped out)
  | none ↦ escape_loop str (i + 1) rest has_escaped (if has_escaped then out ++ (ch ∷ []) else out)
]

unfoldable pub json_escape : List ℕ → List ℕ
json_escape str = escape_loop str 0 str false (34 ∷ []) ++ (34 ∷ [])
