-- ===== src/Value/Access.antt =====
-- rct/Value.h and rct/Value.cpp: what is in a value, and the formats of values. `none` is a failed
-- assertion or an access outside of a list, or through a null pointer.
use rct.Prelude.{
  ℕ, zero, suc, ◌%◌, Bool, true, false, List, [], ◌∷◌, Option, none, some, and_then, if◌then◌else◌,
}
use rct.Serializer.{u32_mod}
use rct.String.Order.{less}
use rct.Value.{Kind, Value, Values, Entries, set_entry}
use rct.Value.{
  invalid, undefined, boolean, integer, double, string, custom, map, list, date, nil, cons, end,
  entry,
}
use rct.Value.Wire.{count_values, count_entries}

unfoldable pub value_at : ℕ → Values → Option Value
value_at i nil = none
value_at zero (cons v vs) = some v
value_at (suc i) (cons v vs) = value_at i vs

unfoldable pub set_value : ℕ → Value → Values → Option Values
set_value i w nil = none
set_value zero w (cons v vs) = some (cons w vs)
set_value (suc i) w (cons v vs) = and_then (set_value i w vs) (λ ws. some (cons v ws))

unfoldable pub append_value : Values → Value → Values
append_value nil w = cons w nil
append_value (cons v vs) w = cons v (append_value vs w)

-- `find` in the order of the keys.
unfoldable pub find_entry : List ℕ → Entries → Option Value
find_entry key end = none
find_entry key (entry k v es) =
    let rest = find_entry key es in if less k key then rest else if less key k then none else some v

unfoldable pub or_default : Value → Option Value → Value
or_default d none = d
or_default d (some v) = v

-- `clear` and the move constructor, which returns the new value and what is left of the old one.
unfoldable pub clear : Value → Value
clear v = invalid

unfoldable pub moved : Value → Value × Value
moved v = (v, invalid)

-- `count`, an `int`.
unfoldable pub count : Value → ℕ
count (map es) = count_entries es % u32_mod
count (list vs) = count_values vs % u32_mod
count v = 0

-- `value(int, default)`, `value(key, default)`
unfoldable pub value_or : ℕ → Value → Value → Value
value_or i d (list vs) = or_default d (value_at i vs)
value_or i d v = d

unfoldable pub member_or : List ℕ → Value → Value → Value
member_or key d (map es) = or_default d (find_entry key es)
member_or key d v = d

unfoldable pub contains : List ℕ → Value → Option Bool
contains key invalid = some false
contains key (map es) = elim (find_entry key es) [ none ↦ some false | some v ↦ some true ]
contains key v = none

-- `at` and `operator[]` of a constant value.
unfoldable pub at : ℕ → Value → Option Value
at i (list vs) = value_at i vs
at i v = none

unfoldable pub member_at : List ℕ → Value → Option Value
member_at key (map es) = find_entry key es
member_at key v = none

-- `v[i] = w`; a list that was just made has no element.
unfoldable pub assign_at : ℕ → Value → Value → Option Value
assign_at i w (list vs) = and_then (set_value i w vs) (λ ws. some (list ws))
assign_at i w v = none

-- `v[key] = w`
unfoldable pub assign_member : List ℕ → Value → Value → Option Value
assign_member key w invalid = some (map (set_entry key w end))
assign_member key w (map es) = some (map (set_entry key w es))
assign_member key w v = none

unfoldable pub push_back : Value → Value → Option Value
push_back w invalid = some (list (cons w nil))
push_back w (list vs) = some (list (append_value vs w))
push_back w v = none

-- `arrayReserve` changes no element.
unfoldable pub array_reserve : Value → Option Value
array_reserve invalid = some (list nil)
array_reserve (list vs) = some (list vs)
array_reserve v = none

-- `typeToString`
unfoldable pub type_to_string : Kind → List ℕ
-- "invalid"
type_to_string invalid = 105 ∷ 110 ∷ 118 ∷ 97 ∷ 108 ∷ 105 ∷ 100 ∷ []
-- "undefined"
type_to_string undefined = 117 ∷ 110 ∷ 100 ∷ 101 ∷ 102 ∷ 105 ∷ 110 ∷ 101 ∷ 100 ∷ []
-- "boolean"
type_to_string boolean = 98 ∷ 111 ∷ 111 ∷ 108 ∷ 101 ∷ 97 ∷ 110 ∷ []
-- "integer"
type_to_string integer = 105 ∷ 110 ∷ 116 ∷ 101 ∷ 103 ∷ 101 ∷ 114 ∷ []
-- "double"
type_to_string double = 100 ∷ 111 ∷ 117 ∷ 98 ∷ 108 ∷ 101 ∷ []
-- "date"
type_to_string date = 100 ∷ 97 ∷ 116 ∷ 101 ∷ []
-- "string"
type_to_string string = 115 ∷ 116 ∷ 114 ∷ 105 ∷ 110 ∷ 103 ∷ []
-- "custom"
type_to_string custom = 99 ∷ 117 ∷ 115 ∷ 116 ∷ 111 ∷ 109 ∷ []
-- "list"
type_to_string map = 108 ∷ 105 ∷ 115 ∷ 116 ∷ []
-- "map"
type_to_string list = 109 ∷ 97 ∷ 112 ∷ []
