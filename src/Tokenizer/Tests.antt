-- ===== src/Tokenizer/Tests.antt =====
-- The matching of completions (rct/StringTokenizer.h) on concrete names.
use mathlib.Core.List.{Perm}
use rct.Prelude.{ℕ, ◌≡◌, refl, true, List, [], ◌∷◌, arith}
use rct.Prelude.Sorting.{insertion_sort, insertion_sort-Sorts, Sorted}
use rct.String.Case.{to_lower, lower, is_lower, is_upper, is_digit, is_alnum}
use rct.Tokenizer.{
  Candidate, strip, is_boundary_match, match_from, try_lengths, common_prefix, break_parts_of_word,
  break_loop, break_step, break_if, break_here, add, last, lower_all, find_matches,
  find_and_sort_matches, before,
}
use rct.Tokenizer.Classes.{Words, flatten}
use rct.Tokenizer.Words.{break_parts_of_word-strip}
use rct.Tokenizer.Ranked.{IsInt, find_and_sort_matches-Sorted}

-- "XMLDoc_v2"
abbrev name : List ℕ
name = 88 ∷ 77 ∷ 76 ∷ 68 ∷ 111 ∷ 99 ∷ 95 ∷ 118 ∷ 50 ∷ []

-- "xml", "doc", "v" and "2".
abbrev parts : List (List ℕ)
parts = (120 ∷ 109 ∷ 108 ∷ []) ∷ (100 ∷ 111 ∷ 99 ∷ []) ∷ (118 ∷ []) ∷ (50 ∷ []) ∷ []

name_words : break_parts_of_word name ≡ parts
unfolding break_parts_of_word break_loop break_step break_if break_here add last lower_all to_lower
    lower is_lower is_upper is_digit
name_words = refl

break_parts_of_word-strip_example :
    Words (break_parts_of_word name) × (flatten (break_parts_of_word name) ≡ to_lower (strip name))
break_parts_of_word-strip_example = break_parts_of_word-strip name

-- "xd_2"
abbrev query : List ℕ
query = 120 ∷ 100 ∷ 95 ∷ 50 ∷ []

query_indices : is_boundary_match parts query ≡ (true, 1 ∷ 1 ∷ 0 ∷ 1 ∷ [])
unfolding is_boundary_match match_from try_lengths common_prefix strip is_alnum is_lower is_upper
    is_digit
query_indices = refl

abbrev candidate : List ℕ → Candidate
candidate name = record { name = name; priority = 0xFFFF_FFFF }

-- The name, and "x2d".
abbrev candidates : List Candidate
candidates = candidate name ∷ candidate (120 ∷ 50 ∷ 100 ∷ []) ∷ []

find_and_sort_matches-Sorted_example :
    Perm
      (find_and_sort_matches insertion_sort candidates (120 ∷ []))
      (find_matches candidates (120 ∷ []))
    × Sorted before (find_and_sort_matches insertion_sort candidates (120 ∷ []))
unfolding IsInt
find_and_sort_matches-Sorted_example =
    find_and_sort_matches-Sorted insertion_sort candidates (120 ∷ []) insertion_sort-Sorts
      (omega arith, (omega arith, tt))
