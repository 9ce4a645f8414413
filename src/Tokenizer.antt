-- ===== src/Tokenizer.antt =====
-- rct/StringTokenizer.h: how completions are matched with what was typed, and ordered.
pub mod Classes
pub mod Words
pub mod Boundary
pub mod Before
pub mod Ranked
mod Tests
use rct.Prelude.{
  ℕ, zero, suc, ◌+◌, ◌-◌, ◌%◌, ◌≡◌, Bool, true, false, not, ◌&&◌, List, [], ◌∷◌, ◌++◌, Option, none,
  some, if◌then◌else◌, ltb, ◌==◌, length, take, drop, get_or, replicate,
}
use rct.String.Case.{is_lower, is_upper, is_digit, is_alnum, to_lower}
use rct.String.Search.{is_prefix}
use rct.String.Order.{less}

-- `MatchResultType` by its numbers, from `WORD_BOUNDARY_MATCH` to `EXACT_MATCH_CASE_SENSITIVE`.
abbrev pub word_boundary : ℕ
word_boundary = 0

-- The name and the priority of a `CompletionCandidate`, an `int` by its 32 bits.
pub record Candidate : Type 0 where
  pub name : List ℕ
  pub priority : ℕ

-- A `PrefixResult` has the length of the query, a `WordBoundaryMatchResult` the indices.
pub record Match : Type 0 where
  pub type : ℕ
  pub candidate : Candidate
  pub prefix_length : ℕ
  pub indices : List ℕ

-- The words found and the buffer of `break_parts_of_word`.
abbrev pub Parts : Type 0
Parts = List (List ℕ) × List ℕ

unfoldable pub last : List ℕ → ℕ
last buffer = get_or buffer (length buffer - 1) 0

-- `result.push_back(buffer); buffer.clear()`
unfoldable pub break_here : Parts → Parts
break_here p = (p.0 ++ (p.1 ∷ []), [])

unfoldable pub add : ℕ → Parts → Parts
add c p = (p.0, p.1 ++ (c ∷ []))

unfoldable pub break_if : Bool → Parts → Parts
break_if b p = if not (length p.1 == 0) && b then break_here p else p

-- One round of the loop.
unfoldable pub break_step : ℕ → Parts → Parts
break_step c p =
    let l = length p.1 in
    if c == 95
    then break_if true p
    else if is_lower c
    then add c (
        if ltb 1 l && is_upper (last p.1)
        then (p.0 ++ (take (l - 1) p.1 ∷ []), drop (l - 1) p.1)
        else break_if (is_digit (last p.1)) p)
    else if is_upper c
    then add c (break_if (not (is_upper (last p.1))) p)
    else if is_digit c
    then add c (break_if (not (is_digit (last p.1))) p)
    else p

unfoldable pub break_loop : List ℕ → Parts → Parts
break_loop [] p = p
break_loop (c ∷ str) p = break_loop str (break_step c p)

unfoldable pub lower_all : List (List ℕ) → List (List ℕ)
lower_all [] = []
lower_all (w ∷ ws) = to_lower w ∷ lower_all ws

unfoldable pub break_parts_of_word : List ℕ → List (List ℕ)
break_parts_of_word str = lower_all (break_if true (break_loop str ([], []))).0

unfoldable pub common_prefix : List ℕ → List ℕ → ℕ
common_prefix [] t = 0
common_prefix (a ∷ s) [] = 0
common_prefix (a ∷ s) (b ∷ t) = let rest = common_prefix s t in if a == b then suc rest else 0

-- The loop of `is_boundary_match` over the first `i` characters or fewer of the rest of the query;
-- `match` is the call for the other words. The indices of these are those that it leaves.
unfoldable pub try_lengths : (List ℕ → List ℕ → Bool × List ℕ) → ℕ → List ℕ → List ℕ → Bool × List ℕ
try_lengths match zero query indices = let r = match query indices in (r.0, 0 ∷ r.1)
try_lengths match (suc i) query indices =
    let r = match (drop (suc i) query) indices in
    elim r.0 [ true ↦ (true, suc i ∷ r.1) | false ↦ try_lengths match i query r.1 ]

-- `is_boundary_match` of the words from `current_index` on, with the query from `query_start` on and
-- the indices of those words.
unfoldable pub match_from : List (List ℕ) → List ℕ → List ℕ → Bool × List ℕ
match_from parts [] indices = (true, indices)
match_from [] (c ∷ query) indices = (false, indices)
match_from (part ∷ parts) (c ∷ query) indices =
    try_lengths (match_from parts) (common_prefix part (c ∷ query)) (c ∷ query) (drop 1 indices)

unfoldable pub strip : List ℕ → List ℕ
strip [] = []
strip (c ∷ s) = if is_alnum c then c ∷ strip s else strip s

unfoldable pub is_boundary_match : List (List ℕ) → List ℕ → Bool × List ℕ
is_boundary_match parts query = match_from parts (strip query) (replicate (length parts) 0)

unfoldable pub prefix_match : Candidate → List ℕ → ℕ → ℕ → Match
prefix_match candidate query exact prefix = record {
  type = if length candidate.name == length query then exact else prefix;
  candidate = candidate;
  prefix_length = length query;
  indices = [];
}

unfoldable pub boundary_match : Candidate → Bool × List ℕ → Option Match
boundary_match candidate r =
    if r.0
    then some
        (record { type = word_boundary; candidate = candidate; prefix_length = 0; indices = r.1 })
    else none

unfoldable pub find_match : Candidate → List ℕ → Option Match
find_match candidate query =
    if ltb (length candidate.name) (length query)
    then none
    else if is_prefix query candidate.name
    then some (prefix_match candidate query 4 2)
    else if is_prefix (to_lower query) (to_lower candidate.name)
    then some (prefix_match candidate query 3 1)
    else boundary_match candidate
        (is_boundary_match (break_parts_of_word candidate.name) (to_lower query))

-- The loop of `MatchResultComparator` over the indices, and what follows it.
unfoldable pub before_by_indices : List ℕ → List ℕ → Bool → Bool
before_by_indices [] js rest = rest
before_by_indices (i ∷ is) [] rest = rest
before_by_indices (i ∷ is) (j ∷ js) rest =
    let next = before_by_indices is js rest in if i == j then next else ltb j i

-- `<` on `int`.
unfoldable pub less_int : ℕ → ℕ → Bool
less_int a b = ltb ((a + 0x8000_0000) % 0x1_0000_0000) ((b + 0x8000_0000) % 0x1_0000_0000)

-- The end of `MatchResultComparator`: smaller priorities first, then the names.
unfoldable pub before_by_candidate : Candidate → Candidate → Bool
before_by_candidate a b =
    if a.priority == b.priority then less a.name b.name else less_int a.priority b.priority

-- `MatchResultComparator`
unfoldable pub before : Match → Match → Bool
before a b =
    let by_candidate = before_by_candidate a.candidate b.candidate in
    if a.type == b.type
    then if a.type == word_boundary
      then before_by_indices a.indices b.indices by_candidate
      else by_candidate
    else ltb b.type a.type

unfoldable pub find_matches : List Candidate → List ℕ → List Match
find_matches [] query = []
find_matches (c ∷ cs) query = elim (find_match c query) [
  | none ↦ find_matches cs query
  | some m ↦ m ∷ find_matches cs query
]

-- `sort` is `std::sort`.
unfoldable pub find_and_sort_matches :
    ((Match → Match → Bool) → List Match → List Match) → List Candidate → List ℕ → List Match
find_and_sort_matches sort candidates query = sort before (find_matches candidates query)
