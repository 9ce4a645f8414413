-- ===== src/Escape/Tests.antt =====
-- `jsonEscape` (rct/Rct.h), concretely.
use rct.Prelude.{ℕ, ◌≡◌, List, [], ◌∷◌, ◌++◌, some, arith}
use rct.Escape.{json_escape}
use rct.Escape.Reader.{read_json, read_json-json_escape}
use rct.Escape.Lost.{}

-- "a", a newline, a quote, a character that does not print, and "z".
abbrev line : List ℕ
line = 97 ∷ 10 ∷ 34 ∷ 1 ∷ 122 ∷ []

read_json-json_escape_example : read_json (json_escape line ++ (44 ∷ [])) ≡ some (line, 44 ∷ [])
read_json-json_escape_example = read_json-json_escape line (44 ∷ []) (omega arith)
