-- ===== src/Path.antt =====
-- rct/Path.h and rct/Path.cpp: the parts of a path, and its canonical form. Indices that the code
-- keeps in an `int` have 32 bits here too, or are said to be modelled for paths shorter than 2^31 bytes.
pub mod Parts
pub mod Extension
pub mod Canonical
pub mod Name
mod Tests
use rct.Prelude.{
  ℕ, zero, suc, ◌+◌, ◌-◌, ◌%◌, ◌^◌, ◌<◌, ◌≡◌, Bool, true, false, not, ◌&&◌, ◌||◌, List, [], ◌∷◌,
  ◌++◌, Option, none, some, and_then, if◌then◌else◌, ltb, leb, ◌==◌, length, take, drop, get_or,
}
use rct.Prelude.Words.{npos, sub_size, add_size}
use rct.String.{last_index_of, mid}

abbrev pub slash : ℕ
slash = 47

abbrev pub dot : ℕ
dot = 46

unfoldable pub is_slash : ℕ → Bool
is_slash c = c == slash

unfoldable pub no_slash : ℕ → Bool
no_slash c = not (c == slash)

-- The `i + 1` of `int i = n - 1`, for a `size_t n`, and 0 if `i` is negative.
unfoldable pub int_places : ℕ → ℕ
int_places n = let i = (n + (2 ^ 32 - 1)) % 2 ^ 32 in if leb (2 ^ 31) i then 0 else i + 1

-- `while (i >= 0 && test(at(i))) --i`, over `i + 1`.
unfoldable pub back : (ℕ → Bool) → List ℕ → ℕ → ℕ
back test s zero = 0
back test s (suc i) = let rest = back test s i in if test (get_or s i 0) then rest else suc i

-- The end of `parentDir`, from the `i + 1` where the loops stop; `none` is the assertion.
unfoldable pub parent : List ℕ → ℕ → Option (List ℕ)
parent s zero = some []
parent s (suc i) = if get_or (take (suc i) s) i 0 == slash then some (take (suc i) s) else none

unfoldable pub parent_dir : List ℕ → Option (List ℕ)
parent_dir [] = some []
parent_dir (c ∷ cs) =
    let s = c ∷ cs in
    if length s == 1 && c == slash
    then some []
    else parent s (back no_slash s (back is_slash s (int_places (length s))))

-- `fileName`: the place where it starts, and the text. `length` is an `int`, which is negative from
-- 2^31 on.
unfoldable pub file_index : List ℕ → ℕ
file_index s =
    let n = length s % 2 ^ 32 in
    if ltb 1 n && ltb n (2 ^ 31) then add_size (last_index_of s slash (n - 2)) 1 else 0

unfoldable pub file_name : List ℕ → List ℕ
file_name s = drop (file_index s) s

-- The last byte is a slash.
unfoldable pub ends_slash : List ℕ → Bool
ends_slash s = ltb 0 (length s) && get_or s (length s - 1) 0 == slash

-- `name`; `none` is an exception of `mid`.
unfoldable pub name : List ℕ → Option (List ℕ)
name s =
    let second = last_index_of s slash (sub_size (length s) 2) in
    if not (ends_slash s)
    then some (file_name s)
    else if second == npos
    then some []
    else mid s (second + 1) (sub_size (sub_size (length s) second) 2)

-- The loop of `extension`, over `dot + 1`; `none` is the null pointer.
unfoldable pub extension_loop : List ℕ → ℕ → Option (List ℕ)
extension_loop s zero = none
extension_loop s (suc i) =
    let rest = extension_loop s i in
    let c = get_or s i 0 in
    if c == dot then some (drop (suc i) s) else if c == slash then none else rest

unfoldable pub extension : List ℕ → Option (List ℕ)
extension s = extension_loop s (int_places (length s))

-- `canonicalize`. The test for "/../" or "/.." at `i`, and for "/./" or "/.".
unfoldable pub dots_at : List ℕ → ℕ → Bool
dots_at s i =
    let two = get_or s (i + 1) 0 == dot && get_or s (i + 2) 0 == dot in
    (ltb (i + 3) (length s) && (two && get_or s (i + 3) 0 == slash)) || (i + 3 == length s && two)

unfoldable pub dot_at : List ℕ → ℕ → Bool
dot_at s i =
    let one = get_or s (i + 1) 0 == dot in
    (ltb (i + 2) (length s) && (one && get_or s (i + 2) 0 == slash)) || (i + 2 == length s && one)

-- The bytes from `i` on move down to `j`.
unfoldable pub close_gap : List ℕ → ℕ → ℕ → List ℕ
close_gap s j i = take j s ++ drop i s

-- The search for the slash before `i`, over `j + 1`, and the collapse of "/name/..". The
-- number of bytes that go is an `int`: the path has fewer than 2^31 bytes here.
unfoldable pub collapse : List ℕ → ℕ → ℕ → List ℕ × ℕ
collapse s i zero = (s, i)
collapse s i (suc j) =
    let rest = collapse s i j in
    if get_or s j 0 == slash then (close_gap s j (i + 3), sub_size i (i + 3 - j)) else rest

-- The body of the loop: the path and the index behind it.
unfoldable pub canonicalize_at : List ℕ → ℕ → List ℕ × ℕ
canonicalize_at s i =
    if not (get_or s i 0 == slash)
    then (s, i)
    else if dots_at s i
    then collapse s i (int_places i)
    else if dot_at s i
    then (close_gap s i (i + 2), sub_size i 2)
    else if get_or s (i + 1) 0 == slash
    then (close_gap s i (i + 1), sub_size i 1)
    else (s, i)

-- How `canonicalize` ends: with a path, or a read outside of it.
pub data Outcome : Type 0 where
  canonical : List ℕ → Outcome
  bad_read out_of_fuel : Outcome

-- The trailing slash.
unfoldable pub strip_slash : List ℕ → Outcome
strip_slash [] = bad_read
strip_slash (c ∷ cs) =
    if get_or (c ∷ cs) (length cs) 0 == slash
    then canonical (take (length cs) (c ∷ cs))
    else canonical (c ∷ cs)

unfoldable pub canonicalize_loop : ℕ → List ℕ → ℕ → Outcome
canonicalize_loop zero s i = out_of_fuel
canonicalize_loop (suc fuel) s i =
    let next = canonicalize_at s i in
    let rest = canonicalize_loop fuel next.0 (add_size next.1 1) in
    if not (ltb i (sub_size (length s) 1))
    then strip_slash s
    else if ltb i (length s)
    then rest
    else bad_read

unfoldable pub canonicalize : List ℕ → Outcome
canonicalize s = canonicalize_loop (length s + 1) s 0
