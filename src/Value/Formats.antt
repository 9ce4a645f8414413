-- ===== src/Value/Formats.antt =====
-- rct/Value.cpp: the two formatters, `JSONFormatter` and `StringFormatter`. `none` is a call through
-- the null pointer of a custom object.
use rct.Prelude.{
  ℕ, ◌+◌, ◌-◌, ◌%◌, Bool, true, false, List, [], ◌∷◌, ◌++◌, Option, none, some, and_then,
  if◌then◌else◌, ltb, replicate,
}
use rct.Escape.{json_escape}
use rct.Serializer.{u32_mod}
use rct.Value.{Value, Values, Entries}
use rct.Value.{
  invalid, undefined, boolean, integer, double, string, null_custom, custom, map, list, date, nil,
  cons, end, entry,
}
use rct.Value.Numbers.{number_int, until_null}
use rct.Value.Json.{Env}
use rct.Value.Convert.{true_text, false_text}

abbrev pub null_text : List ℕ
null_text = 110 ∷ 117 ∷ 108 ∷ 108 ∷ []

-- One text behind another, and a separator before all but the first.
unfoldable pub also : Option (List ℕ) → Option (List ℕ) → Option (List ℕ)
also s t = and_then s (λ a. and_then t (λ b. some (a ++ b)))

abbrev pub unless_first : Bool → List ℕ → List ℕ
unless_first first separator = if first then [] else separator

module _ (env : Env) where
  -- `JSONFormatter::format`
  unfoldable mutual
    pub format_json : Value → Option (List ℕ)
    format_json invalid = some null_text
    format_json undefined = some null_text
    format_json (boolean b) = some (if b then true_text else false_text)
    format_json (integer n) = some (number_int (n % u32_mod))
    format_json (double d) = some (env.print_general d)
    format_json (string s) = some (json_escape s)
    format_json null_custom = none
    format_json (custom s) = some (json_escape s)
    format_json (map es) = also (some (123 ∷ [])) (also (json_entries true es) (some (125 ∷ [])))
    format_json (list vs) = also (some (91 ∷ [])) (also (json_values true vs) (some (93 ∷ [])))
    format_json (date t) = some (json_escape (env.format_time t))

    pub json_values : Bool → Values → Option (List ℕ)
    json_values first nil = some []
    json_values first (cons v vs) =
        also (some (unless_first first (44 ∷ []))) (also (format_json v) (json_values false vs))

    pub json_entries : Bool → Entries → Option (List ℕ)
    json_entries first end = some []
    json_entries first (entry k v es) =
        also (some (unless_first first (44 ∷ []) ++ json_escape k ++ (58 ∷ [])))
          (also (format_json v) (json_entries false es))

  -- `StringFormatter::format`, at its `indent`; `"%*s"` is one space at least.
  unfoldable mutual
    pub format_string : ℕ → Value → Option (List ℕ)
    format_string indent invalid = some null_text
    format_string indent undefined = some null_text
    format_string indent (boolean b) = some (if b then true_text else false_text)
    format_string indent (integer n) = some (number_int (n % u32_mod))
    format_string indent (double d) = some (env.print_general d)
    format_string indent (string s) = some s
    format_string indent null_custom = none
    format_string indent (custom s) = some s
    format_string indent (map es) = string_entries (indent + 1) es
    format_string indent (list vs) =
        also (some (91 ∷ 32 ∷ [])) (also (string_values indent true vs) (some (32 ∷ 93 ∷ [])))
    format_string indent (date t) = some (env.format_time t)

    pub string_values : ℕ → Bool → Values → Option (List ℕ)
    string_values indent first nil = some []
    string_values indent first (cons v vs) =
        also (some (unless_first first (44 ∷ 32 ∷ [])))
          (also (format_string indent v) (string_values indent false vs))

    pub string_entries : ℕ → Entries → Option (List ℕ)
    string_entries indent end = some []
    string_entries indent (entry k v es) =
        let spaces = if ltb 1 (indent - 1) then indent - 1 else 1 in
        also (some (replicate spaces 32 ++ until_null k ++ (58 ∷ 32 ∷ [])))
          (also (format_string indent v) (also (some (10 ∷ [])) (string_entries indent es)))

  -- `Value::format`
  unfoldable pub format : Value → Option (List ℕ)
  format v = format_string 0 v
