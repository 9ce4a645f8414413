-- ===== src/Tokenizer/Ranked.antt =====
-- rct/StringTokenizer.h, find_and_sort_matches: the matches of a query in their order.
use mathlib.Core.List.{Perm}
use rct.Prelude.{
  ℕ, ◌<◌, ◌≡◌, inl, inr, refl, Bool, List, [], ◌∷◌, some, All, length, length-append, length-take,
  take, ltb, Bool-cases, arith, some-eq, Option-cases,
}
use rct.Prelude.Sorting.{Sorts, Sorted}
use rct.String.Search.{is_prefix}
use rct.String.Case.{to_lower}
use rct.Tokenizer.{
  Candidate, Match, strip, is_boundary_match, prefix_match, boundary_match, find_match,
  break_parts_of_word, find_matches, find_and_sort_matches, before,
}
use rct.Tokenizer.Boundary.{Spells, Greatest, is_boundary_match-Greatest}
use rct.Tokenizer.Before.{sum, MatchOf, before-IsStrictWeak}

Spells-sum :
    (parts : List (List ℕ)) (query indices : List ℕ)
    → Spells parts query indices
    → sum indices ≡ length query
unfolding Spells sum
Spells-sum [] query [] s = rw (s) refl
Spells-sum [] query (i ∷ is) s = absurd s
Spells-sum (part ∷ parts) query [] s = absurd s
Spells-sum (part ∷ parts) query (i ∷ is) (rest, l, e, s) =
    let others = Spells-sum parts rest is s in
    rw (e) (omega (arith, length-append (take i part) rest, length-take i part))

abbrev pub size : List ℕ → ℕ
size query = length (strip (to_lower query))

prefix_match-MatchOf :
    (n : ℕ) (c : Candidate) (query : List ℕ) (exact prefix : ℕ)
    → c.priority < 0x1_0000_0000
    → 0 < exact
    → 0 < prefix
    → MatchOf n (prefix_match c query exact prefix)
unfolding MatchOf prefix_match
prefix_match-MatchOf n c query exact prefix h k l = (h, ground arith)

boundary_match-MatchOf :
    (parts : List (List ℕ)) (c : Candidate) (query : List ℕ) (m : Match)
    → c.priority < 0x1_0000_0000
    → boundary_match c (is_boundary_match parts query) ≡ some m
    → MatchOf (length (strip query)) m
unfolding boundary_match Greatest MatchOf
boundary_match-MatchOf parts c query m h e = elim (Bool-cases (is_boundary_match parts query).0) [
  | inr f ↦ absurd (cc (rw (f) at e))
  | inl t ↦
      let s = (is_boundary_match-Greatest parts query).1 t in
      rw (← some-eq (rw (t) at e)) ((h, λ k. Spells-sum parts (strip query) _ s))
]

find_match-MatchOf :
    (c : Candidate) (query : List ℕ) (m : Match)
    → c.priority < 0x1_0000_0000
    → find_match c query ≡ some m
    → MatchOf (size query) m
unfolding find_match
find_match-MatchOf c query m h e = elim (Bool-cases (ltb (length c.name) (length query))) [
  | inl t ↦ absurd (cc (rw (t) at e))
  | inr f ↦ elim (Bool-cases (is_prefix query c.name)) [
    | inl t ↦
        rw (← some-eq (rw (f, t) at e))
          (prefix_match-MatchOf (size query) c query 4 2 h (omega arith) (omega arith))
    | inr g ↦ elim (Bool-cases (is_prefix (to_lower query) (to_lower c.name))) [
      | inl t ↦
          rw (← some-eq (rw (f, g, t) at e))
            (prefix_match-MatchOf (size query) c query 3 1 h (omega arith) (omega arith))
      | inr k ↦
          boundary_match-MatchOf (break_parts_of_word c.name) c (to_lower query) m h
            (rw (f, g, k) at e)
    ]
  ]
]

unfoldable pub IsInt : Candidate → Type 0
IsInt c = c.priority < 0x1_0000_0000

find_matches-MatchOf :
    (cs : List Candidate) (query : List ℕ)
    → All IsInt cs
    → All (MatchOf (size query)) (find_matches cs query)
unfolding find_matches IsInt
find_matches-MatchOf [] query h = tt
find_matches-MatchOf (c ∷ cs) query h = elim (Option-cases (find_match c query)) [
  | inl n ↦ rw (n, find_matches) (find_matches-MatchOf cs query h.1)
  | inr s ↦
      rw (s.1, find_matches)
        ((find_match-MatchOf c query s.0 h.0 s.1, find_matches-MatchOf cs query h.1))
]

-- The matches that are found for a query, none lost and none twice, in an order in which none
-- stands behind one that the comparator puts before it, if `std::sort` sorts by every strict weak order: the
-- comparator is one on the matches of a query, for candidates whose priorities are ints.
pub find_and_sort_matches-Sorted :
    (sort : (Match → Match → Bool) → List Match → List Match) (cs : List Candidate) (query : List ℕ)
    → Sorts sort
    → All IsInt cs
    → Perm (find_and_sort_matches sort cs query) (find_matches cs query)
      × Sorted before (find_and_sort_matches sort cs query)
unfolding find_and_sort_matches
find_and_sort_matches-Sorted sort cs query s h = (
  s.same before (find_matches cs query),
  s.sorted (MatchOf (size query)) before (find_matches cs query) (before-IsStrictWeak (size query))
      (find_matches-MatchOf cs query h),
)
