-- ===== src/Value/Text.antt =====
-- rct/Value.h: an integer as text, and back.
use rct.Prelude.{ℕ, ◌%◌, ◌≡◌, ap, true, arith}
use rct.Serializer.{u32_mod}
use rct.Value.{integer, string}
use rct.Value.Numbers.Decimal.{parse_long-number_int}
use rct.Value.Json.{Env}
use rct.Value.Convert.{convert_int, convert_string}

-- The text that an integer is converted to is converted to the same `int`, without an error,
-- whatever its sign.
pub convert_int-convert_string :
    (env : Env) (n : ℕ)
    → convert_int env (string (convert_string env (integer n)).0) ≡ (n % u32_mod, true)
unfolding convert_int convert_string
convert_int-convert_string env n =
    let (y, e, m) = parse_long-number_int (n % u32_mod) (omega arith) in
    rw (e) (ap (λ x. (x, true)) m)
