-- ===== src/Value/Tests.antt =====
-- Values (rct/Value.h, rct/Value.cpp), concretely.
use rct.Prelude.{
  ℕ, List, length, ◌<◌, ◌^◌, ◌%◌, ◌≡◌, refl, true, [], ◌∷◌, ◌++◌, none, some, ◌==◌, eq_true, arith,
}
use rct.Prelude.Words.{le_bytes}
use rct.Serializer.{u32_mod, write_native, write_string}
use rct.String.Order.{less}
use rct.Value.{Entries, Kind, kind, kind_number, Value, set_entry}
use rct.Value.{undefined, boolean, integer, string, map, list, date, nil, cons, end, entry}
use rct.Value.Numbers.{until_null}
use rct.Value.Convert.{convert, convert_int, convert_string}
use rct.Value.Kinds.{result_kind, itself, convert-result_kind}
use rct.Value.Text.{convert_int-convert_string}
use rct.Value.Order.{Above}
use rct.Value.Access.{member_at, member_or, assign_member}
use rct.Value.Lookup.{Differs, assign_member-member_at}
use rct.Value.Wire.{
  count_values, count_entries, bool_byte, write_tag, write_value, write_values, write_entries,
  read_value,
}
use rct.Value.Stored.{stored, depth, Fits, read_value-write_value}
use rct.Value.Json.{Env, to_cjson, from_cjson}
use rct.Value.Kept.{HasOrder, IntsAreDoubles, kept, from_cjson-to_cjson}

-- Doubles that are integers only.
abbrev whole : Env
whole = record {
  of_int32 = λ n. n;
  of_int64 = λ n. n;
  round_int32 = λ d. d % u32_mod;
  round_int64 = λ d. d;
  round_uint64 = λ d. d;
  is_nonzero = λ d. true;
  parse = λ s. none;
  print = λ d. [];
  print_general = λ d. [];
  format_time = λ t. [];
  same = λ n d. n == d;
  valueint = λ d. d % u32_mod;
  print_tree = λ pretty j. [];
  parse_tree = λ s. none;
}

whole-IntsAreDoubles : IntsAreDoubles whole
whole-IntsAreDoubles = record {
  found = λ n h. omega (arith, h);
  equal = λ n h. let e : n ≡ n = refl in eq_true e;
}

-- {"a": [true, 7, "x"], "b": a date}
abbrev sample : Value
sample = map (
    entry (97 ∷ []) (list (cons (boolean true) (cons (integer 7) (cons (string (120 ∷ [])) nil))))
      (entry (98 ∷ []) (date 1000) end))

sample-Fits : Fits sample
unfolding Fits Above less count_values count_entries
sample-Fits = ((refl, _), (_, (_, (_, _))), (_, omega arith, _))

sample-HasOrder : HasOrder sample
unfolding HasOrder Above less until_null
sample-HasOrder = (refl, (refl, _), (_, (_, (_, _))), (refl, _, _, _))

sample-Short : length (write_value sample ++ (1 ∷ [])) < 2 ^ 31
unfolding write_value write_values write_entries write_tag write_string write_native kind_number
    bool_byte count_values count_entries le_bytes
sample-Short = omega arith

read_value-write_value_example :
    read_value 3 0 undefined (write_value sample ++ (1 ∷ [])) ≡ some (stored 0 sample, 1 ∷ [])
unfolding depth
read_value-write_value_example =
    read_value-write_value 0 sample undefined (1 ∷ []) sample-Fits sample-Short

from_cjson-to_cjson_example : from_cjson whole 0 (to_cjson whole sample) ≡ kept whole 0 sample
from_cjson-to_cjson_example =
    from_cjson-to_cjson whole 0 sample whole-IntsAreDoubles sample-HasOrder

convert-result_kind_example :
    (kind (convert whole 5 Kind.date (string (52 ∷ 50 ∷ []))).0 ≡ result_kind Kind.date)
    × (convert whole 5 (kind (string (52 ∷ 50 ∷ []))) (string (52 ∷ 50 ∷ []))
        ≡ (itself 5 (string (52 ∷ 50 ∷ [])), true))
convert-result_kind_example = convert-result_kind whole 5 Kind.date (string (52 ∷ 50 ∷ []))

convert_int-convert_string_example :
    convert_int whole (string (convert_string whole (integer 0xffff_ffd6)).0) ≡ (0xffff_ffd6, true)
convert_int-convert_string_example = convert_int-convert_string whole 0xffff_ffd6

abbrev two : Entries
two = entry (97 ∷ []) (integer 1) (entry (98 ∷ []) (integer 2) end)

assigned :
    assign_member (98 ∷ []) undefined (map two) ≡ some (map (set_entry (98 ∷ []) undefined two))
unfolding assign_member
assigned = refl

assign_member-member_at_example :
    (member_at (98 ∷ []) (map (set_entry (98 ∷ []) undefined two)) ≡ some undefined)
    × ((j : List ℕ) (d : Value)
        → Differs j (98 ∷ [])
        → member_or j d (map (set_entry (98 ∷ []) undefined two)) ≡ member_or j d (map two))
assign_member-member_at_example =
    assign_member-member_at (98 ∷ []) undefined (map two) (map (set_entry (98 ∷ []) undefined two))
      assigned
