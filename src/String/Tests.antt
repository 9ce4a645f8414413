-- ===== src/String/Tests.antt =====
-- Concrete strings for rct/String.h.
use rct.Prelude.{ℕ, ◌≡◌, refl, true, false, not, ◌&&◌, List, [], ◌∷◌, none, some, length, arith}
use rct.Prelude.{◌==◌, if◌then◌else◌}
use rct.Prelude.Words.{npos}
use rct.String.{trimmed, split, sizes, join_size, join, index_of, last_index_of}
use rct.String.Search.{
  replace, is_prefix, index_of_any_case, last_index_of_any_case, rfind_any_case,
}
use rct.String.Replace.{replaced, replace-replaced}
use rct.String.AnyCase.{any_case-to_lower}
use rct.String.Case.{lower, to_lower, is_upper}
use rct.String.Split.{fields, render, split-fields}
use rct.String.Join.{glue, join-split}
use rct.String.Trim.{strip_front, strip_back, trimmed-strip}

-- "/a//b" and its separator.
abbrev text : List ℕ
text = 47 ∷ 97 ∷ 47 ∷ 47 ∷ 98 ∷ []

split-fields_example :
    split text 47 true true ≡ some (render 47 true true (fields 47 text).0 (fields 47 text).1)
split-fields_example = split-fields text 47 true true (omega arith) (omega arith)

-- With both flags: "a/" and "b".
text-pieces :
    render 47 true true (fields 47 text).0 (fields 47 text).1 ≡ (97 ∷ 47 ∷ []) ∷ (98 ∷ []) ∷ []
unfolding fields render
text-pieces = refl

-- No pieces, and a separator.
join_nothing : join [] (47 ∷ []) ≡ none
unfolding join join_size sizes
join_nothing = refl

join-split_example :
    (pieces : List (List ℕ)) × (split text 47 false false ≡ some pieces)
    × (join pieces (glue 47 false) ≡ (if length text == 0 && not false then none else some text))
join-split_example = join-split text 47 false (omega arith)

-- " a b  " without spaces.
trimmed-strip_example :
    trimmed (32 ∷ []) (32 ∷ 97 ∷ 32 ∷ 98 ∷ 32 ∷ 32 ∷ [])
    ≡ some (strip_back (32 ∷ []) (strip_front (32 ∷ []) (32 ∷ 97 ∷ 32 ∷ 98 ∷ 32 ∷ 32 ∷ [])))
trimmed-strip_example = trimmed-strip (32 ∷ []) (32 ∷ 97 ∷ 32 ∷ 98 ∷ 32 ∷ 32 ∷ []) (omega arith)

-- "aabab" with "x" for "ab".
replace-replaced_example :
    (replace (97 ∷ 97 ∷ 98 ∷ 97 ∷ 98 ∷ []) (97 ∷ 98 ∷ []) (120 ∷ [])
      ≡ some (replaced (97 ∷ 98 ∷ []) (120 ∷ []) 0 (97 ∷ 97 ∷ 98 ∷ 97 ∷ 98 ∷ [])))
    × (replace (97 ∷ 97 ∷ 98 ∷ 97 ∷ 98 ∷ []) [] (120 ∷ []) ≡ some (0, 97 ∷ 97 ∷ 98 ∷ 97 ∷ 98 ∷ []))
unfolding replaced is_prefix
replace-replaced_example =
    replace-replaced (97 ∷ 97 ∷ 98 ∷ 97 ∷ 98 ∷ []) 97 (98 ∷ []) (120 ∷ []) (omega arith)

twice_replaced :
    replaced (97 ∷ 98 ∷ []) (120 ∷ []) 0 (97 ∷ 97 ∷ 98 ∷ 97 ∷ 98 ∷ []) ≡ (2, 97 ∷ 120 ∷ 120 ∷ [])
unfolding replaced is_prefix
twice_replaced = refl

-- "A" is looked for in "abb" from the end, and found at 2.
any_case-to_lower_example :
    (index_of_any_case (97 ∷ 98 ∷ 98 ∷ []) 65 2
      ≡ index_of (to_lower (97 ∷ 98 ∷ 98 ∷ [])) (lower 65) 2)
    × (last_index_of_any_case (97 ∷ 98 ∷ 98 ∷ []) 65 2
        ≡ some
            (if last_index_of (to_lower (97 ∷ 98 ∷ 98 ∷ [])) (lower 65) 2 == npos then npos else 2))
any_case-to_lower_example = any_case-to_lower (97 ∷ 98 ∷ 98 ∷ []) 65 2 (omega arith) (omega arith)

found_at_start : last_index_of_any_case (97 ∷ 98 ∷ 98 ∷ []) 65 2 ≡ some 2
unfolding last_index_of_any_case rfind_any_case lower is_upper
found_at_start = refl
