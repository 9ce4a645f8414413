-- ===== src/Value/Kinds.antt =====
-- The type of what a conversion (rct/Value.h) returns.
use rct.Prelude.{ℕ, ◌+◌, ◌*◌, ◌≡◌, refl, ap, true, arith}
use rct.Serializer.{u32_mod}
use rct.Value.{Kind, kind, Value, of_int}
use rct.Value.{
  invalid, undefined, boolean, integer, double, string, null_custom, custom, map, list, date,
}
use rct.Value.Json.{Env}
use rct.Value.Convert.{
  convert, convert_custom, convert_list, convert_map, convert_int, convert_long, convert_bool,
  convert_double, convert_string,
}

-- A date is converted to an integer.
unfoldable pub result_kind : Kind → Kind
result_kind date = integer
result_kind k = k

custom-kind : (v : Value) → kind (convert_custom v).0 ≡ Kind.custom
unfolding convert_custom kind
custom-kind null_custom = refl
custom-kind (custom s) = refl
custom-kind invalid = refl
custom-kind undefined = refl
custom-kind (boolean b) = refl
custom-kind (integer n) = refl
custom-kind (double d) = refl
custom-kind (string s) = refl
custom-kind (map es) = refl
custom-kind (list vs) = refl
custom-kind (date t) = refl

pub convert-kind :
    (env : Env) (upper : ℕ) (k : Kind) (v : Value) → kind (convert env upper k v).0 ≡ result_kind k
unfolding convert kind result_kind of_int
convert-kind env upper date v = refl
convert-kind env upper integer v = refl
convert-kind env upper double v = refl
convert-kind env upper boolean v = refl
convert-kind env upper string v = refl
convert-kind env upper invalid v = refl
convert-kind env upper undefined v = refl
convert-kind env upper custom v = custom-kind v
convert-kind env upper list v = refl
convert-kind env upper map v = refl

-- What a value is to its own type.
unfoldable pub itself : ℕ → Value → Value
itself upper (integer n) = of_int upper n
itself upper (date t) = integer t
itself upper v = v

convert-own :
    (env : Env) (upper : ℕ) (v : Value) → convert env upper (kind v) v ≡ (itself upper v, true)
unfolding convert kind itself convert_custom convert_list convert_map convert_int convert_long
    convert_bool convert_double convert_string of_int
convert-own env upper invalid = refl
convert-own env upper undefined = refl
convert-own env upper (boolean b) = refl
convert-own env upper (integer n) = ap (λ x. (integer (x + upper * u32_mod), true)) (omega arith)
convert-own env upper (double d) = refl
convert-own env upper (string s) = refl
convert-own env upper null_custom = refl
convert-own env upper (custom s) = refl
convert-own env upper (map es) = refl
convert-own env upper (list vs) = refl
convert-own env upper (date t) = refl

-- A conversion returns a value of the type that is asked for, but an integer for a date; a value is
-- converted to its own type without an error, and stays what it is, but that an integer is cut to
-- four bytes and a date becomes an integer.
pub convert-result_kind :
    (env : Env) (upper : ℕ) (k : Kind) (v : Value)
    → (kind (convert env upper k v).0 ≡ result_kind k)
      × (convert env upper (kind v) v ≡ (itself upper v, true))
convert-result_kind env upper k v = (convert-kind env upper k v, convert-own env upper v)
