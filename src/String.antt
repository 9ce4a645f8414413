-- ===== src/String.antt =====
-- rct/String.h: searching, cutting, splitting and joining of strings, which are lists of bytes.
pub mod Mid
pub mod Split
mod Join
pub mod Chomp
pub mod Trim
pub mod Order
pub mod Case
pub mod Search
mod Replace
mod AnyCase
mod Tests
use rct.Prelude.{
  ℕ, zero, suc, ◌+◌, ◌-◌, ◌*◌, ◌%◌, ◌^◌, ◌<◌, ◌≡◌, Bool, true, false, not, ◌&&◌, ◌||◌, List, [],
  ◌∷◌, ◌++◌, Option, none, some, and_then, if◌then◌else◌, ltb, leb, ◌==◌, length, take, drop,
  get_or,
}
use rct.Prelude.Words.{npos, sub_size, size_mod}

-- `mString.find(ch, from)`: `from` is the place of the first byte of the rest.
unfoldable pub find : ℕ → ℕ → List ℕ → ℕ
find ch from [] = npos
find ch from (c ∷ cs) = if c == ch then from else find ch (from + 1) cs

-- `indexOf` with respect to case.
unfoldable pub index_of : List ℕ → ℕ → ℕ → ℕ
index_of s ch from = find ch from (drop from s)

-- `mString.substr`, which throws beyond the end.
unfoldable pub substr : List ℕ → ℕ → ℕ → Option (List ℕ)
substr s from l = if ltb (length s) from then none else some (take l (drop from s))

unfoldable pub mid : List ℕ → ℕ → ℕ → Option (List ℕ)
mid s from l =
    let l = if l == npos then sub_size (length s) from else l in
    if from == 0 && l == length s then some s else substr s from l

-- `left` and `right`.
unfoldable pub left : List ℕ → ℕ → Option (List ℕ)
left s l = substr s 0 l

unfoldable pub right : List ℕ → ℕ → Option (List ℕ)
right s l = substr s (sub_size (length s) l) l

-- The end of `split`, when no separator is found from `prev` on.
unfoldable pub split_last : List ℕ → Bool → ℕ → Option (List (List ℕ))
split_last s skip prev =
    if ltb prev (length s) || not skip
    then and_then (mid s prev npos) (λ piece. some (piece ∷ []))
    else some []

-- The piece before the separator at `next`, in front of those behind it.
unfoldable pub split_piece : List ℕ → Bool → ℕ → ℕ → ℕ → List (List ℕ) → Option (List (List ℕ))
split_piece s skip add prev next pieces =
    if ltb prev next || not skip
    then and_then (mid s prev (next - prev + add)) (λ piece. some (piece ∷ pieces))
    else some pieces

-- The loop of `split`; `none` is an exception or the end of the fuel.
unfoldable pub split_loop : ℕ → List ℕ → ℕ → Bool → ℕ → ℕ → Option (List (List ℕ))
split_loop zero s ch skip add prev = none
split_loop (suc fuel) s ch skip add prev =
    let next = index_of s ch prev in
    let rest = split_loop fuel s ch skip add (next + 1) in
    if next == npos
    then split_last s skip prev
    else and_then rest (split_piece s skip add prev next)

-- `split(ch, flags)`; the flags are `SkipEmpty` and `KeepSeparators`.
unfoldable pub split : List ℕ → ℕ → Bool → Bool → Option (List (List ℕ))
split [] ch skip keep = some []
split (c ∷ cs) ch skip keep =
    split_loop (suc (length (c ∷ cs))) (c ∷ cs) ch skip (if keep then 1 else 0) 0

-- The loop of `join` that appends the pieces, a separator behind each but the last.
unfoldable pub join_loop : List (List ℕ) → List ℕ → List ℕ
join_loop [] sep = []
join_loop (b ∷ []) sep = b
join_loop (b ∷ c ∷ bs) sep = b ++ sep ++ join_loop (c ∷ bs) sep

unfoldable pub sizes : List (List ℕ) → ℕ
sizes [] = 0
sizes (b ∷ bs) = length b + sizes bs

-- The size that `join` reserves, on `size_t`: `std::max<size_t>(0, list.size() - 1)` is
-- `list.size() - 1`, which wraps for no pieces.
unfoldable pub join_size : List (List ℕ) → List ℕ → ℕ
join_size list sep = (sub_size (length list) 1 * length sep + sizes list) % size_mod

-- The largest size of a `std::string`; `reserve` throws beyond it.
abbrev pub max_size : ℕ
max_size = 2 ^ 63 - 1

-- `none` is the exception.
unfoldable pub join : List (List ℕ) → List ℕ → Option (List ℕ)
join list sep = if ltb max_size (join_size list sep) then none else some (join_loop list sep)

unfoldable pub contains : List ℕ → ℕ → Bool
contains s ch = not (index_of s ch 0 == npos)

-- One round: the byte in question is the first of `left`.
unfoldable pub chomp_step : List ℕ → List ℕ → ℕ → ℕ → ℕ
chomp_step chars [] rest here = here
chomp_step chars (c ∷ left) rest here = if contains chars c then rest else here

-- The loop of `chomp`, from `idx` down.
unfoldable pub chomp_loop : List ℕ → List ℕ → ℕ → ℕ
chomp_loop s chars zero = 0
chomp_loop s chars (suc i) =
    let rest = chomp_loop s chars i in chomp_step chars (drop i s) rest (suc i)

-- `chomp`: the string behind it and the number it returns; `none` is the exception of `at`.
unfoldable pub chomp : List ℕ → List ℕ → Option (List ℕ × ℕ)
chomp [] chars = none
chomp (c ∷ cs) chars =
    let idx = chomp_loop (c ∷ cs) chars (length cs) in
    let ret = length (c ∷ cs) - idx - 1 in
    some ((if ret == 0 then c ∷ cs else take idx (c ∷ cs)), ret)

-- `mString.rfind(ch, from)`, over the number of bytes that are left.
unfoldable pub rfind : ℕ → List ℕ → ℕ → ℕ
rfind ch s zero = npos
rfind ch s (suc i) = let rest = rfind ch s i in if get_or s i 0 == ch then i else rest

-- `lastIndexOf` with respect to case.
unfoldable pub last_index_of : List ℕ → ℕ → ℕ → ℕ
last_index_of s ch from =
    let count = length s in rfind ch s (if ltb from count then from + 1 else count)

unfoldable pub has : List ℕ → ℕ → Bool
has [] ch = false
has (c ∷ cs) ch = if c == ch then true else has cs ch

-- `mString.find_first_not_of` and `find_last_not_of`; `from` is the place of the first byte.
unfoldable pub first_not_of : List ℕ → ℕ → List ℕ → ℕ
first_not_of trim from [] = npos
first_not_of trim from (c ∷ cs) =
    let rest = first_not_of trim (from + 1) cs in if has trim c then rest else from

unfoldable pub last_not_of : List ℕ → ℕ → List ℕ → ℕ
last_not_of trim from [] = npos
last_not_of trim from (c ∷ cs) =
    let rest = last_not_of trim (from + 1) cs in
    if not (rest == npos) then rest else if has trim c then npos else from

-- `trimmed`; `none` is an exception of `mid`.
unfoldable pub trimmed : List ℕ → List ℕ → Option (List ℕ)
trimmed trim s =
    let start = first_not_of trim 0 s in
    let end = last_not_of trim 0 s in
    if start == npos then some [] else mid s start (end - start + 1)
