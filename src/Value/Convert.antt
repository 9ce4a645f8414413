-- ===== src/Value/Convert.antt =====
-- rct/Value.h: the conversions between the types.
use rct.Prelude.{
  ℕ, ◌%◌, Bool, true, false, not, List, [], ◌∷◌, Option, none, some, ◌||◌, if◌then◌else◌, ◌==◌,
}
use rct.Serializer.{u32_mod}
use rct.Value.{Kind, Value, Values, Entries, of_int}
use rct.Value.{
  invalid, undefined, boolean, integer, double, string, null_custom, custom, map, list, date, nil,
  end,
}
use rct.Value.Numbers.{number_int, number_long, parse_long, parse_ulong}
use rct.Value.Json.{Env, to_json}

-- A conversion returns its result and what it leaves in `*ok`.
abbrev pub found : {A : Type 0} → A → A × Bool
found a = (a, true)

abbrev pub or_zero : Option ℕ → ℕ × Bool
or_zero none = (0, false)
or_zero (some n) = (n, true)

-- "true", "false" and "undefined"
abbrev pub true_text : List ℕ
true_text = 116 ∷ 114 ∷ 117 ∷ 101 ∷ []

abbrev pub false_text : List ℕ
false_text = 102 ∷ 97 ∷ 108 ∷ 115 ∷ 101 ∷ []

abbrev pub undefined_text : List ℕ
undefined_text = 117 ∷ 110 ∷ 100 ∷ 101 ∷ 102 ∷ 105 ∷ 110 ∷ 101 ∷ 100 ∷ []

unfoldable pub equal : List ℕ → List ℕ → Bool
equal [] [] = true
equal [] (b ∷ t) = false
equal (a ∷ s) [] = false
equal (a ∷ s) (b ∷ t) = let rest = equal s t in if a == b then rest else false

-- `convert<bool>` of a string
unfoldable pub bool_of_text : List ℕ → Bool × Bool
bool_of_text s =
    if equal s true_text || equal s (49 ∷ [])
    then (true, true)
    else if equal s false_text || equal s (48 ∷ [])
    then (false, true)
    else (false, false)

unfoldable pub convert_custom : Value → Value × Bool
convert_custom null_custom = found null_custom
convert_custom (custom s) = found (custom s)
convert_custom v = (null_custom, false)

unfoldable pub convert_list : Value → Values × Bool
convert_list (list vs) = found vs
convert_list v = (nil, false)

unfoldable pub convert_map : Value → Entries × Bool
convert_map (map es) = found es
convert_map v = (end, false)

module _ (env : Env) where
  -- `convert<int>`, whose result is cut to four bytes.
  unfoldable pub convert_int : Value → ℕ × Bool
  convert_int (date t) = found (t % u32_mod)
  convert_int (integer n) = found (n % u32_mod)
  convert_int (double d) = found (env.round_int32 d)
  convert_int (boolean b) = found (if b then 1 else 0)
  convert_int (string s) = let r = or_zero (parse_long false s) in (r.0 % u32_mod, r.1)
  convert_int v = (0, false)

  -- `convert<long long>`
  unfoldable pub convert_long : Value → ℕ × Bool
  convert_long (date t) = found t
  convert_long (integer n) = found n
  convert_long (double d) = found (env.round_int64 d)
  convert_long (boolean b) = found (if b then 1 else 0)
  convert_long (string s) = or_zero (parse_long true s)
  convert_long v = (0, false)

  -- `convert<unsigned long long>`
  unfoldable pub convert_ulong : Value → ℕ × Bool
  convert_ulong (date t) = found t
  convert_ulong (integer n) = found n
  convert_ulong (double d) = found (env.round_uint64 d)
  convert_ulong (boolean b) = found (if b then 1 else 0)
  convert_ulong (string s) = or_zero (parse_ulong s)
  convert_ulong v = (0, false)

  unfoldable pub convert_bool : Value → Bool × Bool
  convert_bool (integer n) = found (not (n % u32_mod == 0))
  convert_bool (double d) = found (env.is_nonzero d)
  convert_bool (boolean b) = found b
  convert_bool (string s) = bool_of_text s
  convert_bool v = (false, false)

  unfoldable pub convert_double : Value → ℕ × Bool
  convert_double (date t) = found (env.of_int64 t)
  convert_double (integer n) = found (env.of_int32 (n % u32_mod))
  convert_double (double d) = found d
  convert_double (boolean b) = found (env.of_int32 (if b then 1 else 0))
  convert_double (string s) = or_zero (env.parse s)
  convert_double v = (0, false)

  unfoldable pub convert_string : Value → List ℕ × Bool
  convert_string (date t) = found (number_long t)
  convert_string (integer n) = found (number_int (n % u32_mod))
  convert_string (double d) = found (env.print d)
  convert_string (boolean b) = found (if b then true_text else false_text)
  convert_string (string s) = found s
  convert_string undefined = found undefined_text
  convert_string v = found (to_json env false v)

  -- `convert(Type, bool *)`; the temporary of an `int` lies on memory that held `upper`.
  unfoldable pub convert : ℕ → Kind → Value → Value × Bool
  convert upper date v = let r = convert_long v in (integer r.0, r.1)
  convert upper integer v = let r = convert_int v in (of_int upper r.0, r.1)
  convert upper double v = let r = convert_double v in (double r.0, r.1)
  convert upper boolean v = let r = convert_bool v in (boolean r.0, r.1)
  convert upper string v = let r = convert_string v in (string r.0, r.1)
  convert upper invalid v = found invalid
  convert upper undefined v = found undefined
  convert upper custom v = convert_custom v
  convert upper list v = let r = convert_list v in (list r.0, r.1)
  convert upper map v = let r = convert_map v in (map r.0, r.1)
