-- ===== src/String/Search.antt =====
-- rct/String.h: searching for a text, and replacing it.
use rct.Prelude.{
  ℕ, zero, suc, ◌+◌, ◌%◌, ◌^◌, Bool, true, false, ◌&&◌, List, [], ◌∷◌, ◌++◌, Option, none, some,
  if◌then◌else◌, ◌==◌, length, take, drop, get_or, ltb, leb,
}
use rct.Prelude.Words.{npos, sub_size}
use rct.String.Case.{lower}
use rct.String.{index_of}

-- Whether a text stands at the front of another one.
unfoldable pub is_prefix : List ℕ → List ℕ → Bool
is_prefix [] s = true
is_prefix (a ∷ q) [] = false
is_prefix (a ∷ q) (b ∷ s) = a == b && is_prefix q s

-- `mString.find(ch, from, len)`: `from` is the place of the first byte of the rest.
unfoldable pub find_text : List ℕ → ℕ → List ℕ → ℕ
find_text text from [] = npos
find_text text from (c ∷ cs) =
    let rest = find_text text (from + 1) cs in if is_prefix text (c ∷ cs) then from else rest

-- `indexOf` of a text with respect to case.
unfoldable pub index_of_text : List ℕ → List ℕ → ℕ → ℕ
index_of_text s [] from = npos
index_of_text s (a ∷ []) from = index_of s a from
index_of_text s (a ∷ b ∷ text) from = find_text (a ∷ b ∷ text) from (drop from s)

-- `indexOf` of a byte without respect to case, and the loop of it.
unfoldable pub find_any_case : ℕ → ℕ → List ℕ → ℕ
find_any_case ch from [] = npos
find_any_case ch from (c ∷ cs) =
    let rest = find_any_case ch (from + 1) cs in if lower c == ch then from else rest

unfoldable pub index_of_any_case : List ℕ → ℕ → ℕ → ℕ
index_of_any_case s ch from = find_any_case (lower ch) from (drop from s)

-- The loop of `lastIndexOf` of a byte without respect to case, over the bytes that are left: what it
-- returns is the place that it started from.
unfoldable pub rfind_any_case : ℕ → List ℕ → ℕ → ℕ → ℕ
rfind_any_case ch s from zero = npos
rfind_any_case ch s from (suc i) =
    let rest = rfind_any_case ch s from i in if lower (get_or s i 0) == ch then from else rest

-- `none` is a read outside of the string. `f` is an `int`, so the place to start from is cut to 32
-- bits, and the loop is not entered where that is negative.
unfoldable pub last_index_of_any_case : List ℕ → ℕ → ℕ → Option ℕ
last_index_of_any_case s ch from =
    let from = if from == npos then sub_size (length s) 1 else from in
    let f = from % 2 ^ 32 in
    if leb (2 ^ 31) f
    then some npos
    else if ltb (length s) f
    then none
    else some (rfind_any_case (lower ch) s from (f + 1))

-- `mString.replace`, within the string.
unfoldable pub replace_at : List ℕ → ℕ → ℕ → List ℕ → List ℕ
replace_at s idx len with_text = take idx s ++ (with_text ++ drop (idx + len) s)

-- The loop of `replace`, from `idx` on; `none` is the end of the fuel.
unfoldable pub replace_loop : ℕ → List ℕ → List ℕ → List ℕ → ℕ → ℕ → Option (ℕ × List ℕ)
replace_loop zero text to s idx ret = none
replace_loop (suc fuel) text to s idx ret =
    let next = index_of_text s text idx in
    let rest =
      replace_loop fuel text to (replace_at s next (length text) to) (next + length to) (ret + 1) in
    if next == npos then some (ret, s) else rest

-- `replace` of a text: how often it stood there, and the string.
unfoldable pub replace : List ℕ → List ℕ → List ℕ → Option (ℕ × List ℕ)
replace s text to = replace_loop (suc (length s)) text to s 0 0
