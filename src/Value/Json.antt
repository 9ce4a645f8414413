-- ===== src/Value/Json.antt =====
-- rct/Value.cpp: values from and to the trees of cJSON, which are a parameter with the arithmetic of
-- `double`.
use rct.Prelude.{ℕ, ◌%◌, Bool, true, false, List, Option, none, some, if◌then◌else◌}
use rct.Serializer.{u32_mod}
use rct.Value.{Value, Values, Entries, of_int, set_entry}
use rct.Value.{
  invalid, undefined, boolean, integer, double, string, null_custom, custom, map, list, date, nil,
  cons, end, entry,
}
use rct.Value.Numbers.{until_null}

-- A `cJSON`, by its `type`; a number has `valueint` and `valuedouble`.
mutual
  pub data Json : Type 0 where
    false_item : Json
    true_item : Json
    null_item : Json
    number_item : ℕ → ℕ → Json
    string_item : List ℕ → Json
    raw_item : List ℕ → Json
    array_item : Items → Json
    object_item : Members → Json

  pub data Items : Type 0 where
    no_items : Items
    item : Json → Items → Items

  pub data Members : Type 0 where
    no_members : Members
    member : List ℕ → Json → Members → Members

-- `double`, by its eight bytes; an `int` by its four, a `long long` by its eight. `round_` is
-- `round` and a cast, `parse` is `strtod` on a whole text, `print` is "%.2f" and
-- `print_general` "%g". `format_time` is `String::formatTime`, in the local time.
pub record Env : Type 0 where
  pub of_int32 : ℕ → ℕ
  pub of_int64 : ℕ → ℕ
  pub round_int32 : ℕ → ℕ
  pub round_int64 : ℕ → ℕ
  pub round_uint64 : ℕ → ℕ
  pub is_nonzero : ℕ → Bool
  pub parse : List ℕ → Option ℕ
  pub print : ℕ → List ℕ
  pub print_general : ℕ → List ℕ
  pub format_time : ℕ → List ℕ
  -- `int == double`
  pub same : ℕ → ℕ → Bool
  -- `valueint` of `cJSON_CreateNumber`
  pub valueint : ℕ → ℕ
  -- `cJSON_PrintUnformatted`, `cJSON_Print` and `cJSON_Parse`
  pub print_tree : Bool → Json → List ℕ
  pub parse_tree : List ℕ → Option Json

module _ (env : Env) where
  unfoldable pub create_number : ℕ → Json
  create_number d = number_item (env.valueint d) d

  unfoldable mutual
    pub to_cjson : Value → Json
    to_cjson (boolean b) = if b then true_item else false_item
    to_cjson (date t) = create_number (env.of_int32 (t % u32_mod))
    to_cjson (integer n) = create_number (env.of_int32 (n % u32_mod))
    to_cjson (double d) = create_number d
    to_cjson (string s) = string_item (until_null s)
    to_cjson (list vs) = array_item (to_items vs)
    to_cjson (map es) = object_item (to_members es)
    to_cjson invalid = null_item
    to_cjson undefined = null_item
    to_cjson null_custom = null_item
    to_cjson (custom s) = raw_item (until_null s)

    pub to_items : Values → Items
    to_items nil = no_items
    to_items (cons v vs) = item (to_cjson v) (to_items vs)

    pub to_members : Entries → Members
    to_members end = no_members
    to_members (entry k v es) = member (until_null k) (to_cjson v) (to_members es)

  -- `Value::toJSON`
  unfoldable pub to_json : Bool → Value → List ℕ
  to_json pretty v = until_null (env.print_tree pretty (to_cjson v))

  -- The two loops of `fromCJSON`, one value of each child first. The temporary of an `int` lies on
  -- memory that held `upper`.
  module _ (upper : ℕ) where
    unfoldable pub from_number : ℕ → ℕ → Value
    from_number n d = if env.same n d then of_int upper n else double d

    unfoldable mutual
      pub from_cjson : Json → Value
      from_cjson false_item = boolean false
      from_cjson true_item = boolean true
      from_cjson null_item = invalid
      from_cjson (number_item n d) = from_number n d
      from_cjson (string_item s) = string (until_null s)
      from_cjson (raw_item s) = invalid
      from_cjson (array_item items) = list (from_items items)
      from_cjson (object_item members) = map (from_members members end)

      pub from_items : Items → Values
      from_items no_items = nil
      from_items (item j js) = cons (from_cjson j) (from_items js)

      pub from_members : Members → Entries → Entries
      from_members no_members es = es
      from_members (member k j js) es = from_members js (set_entry (until_null k) (from_cjson j) es)

    -- `Value::fromJSON`, and what it leaves in `ok`.
    unfoldable pub from_json : List ℕ → Value × Bool
    from_json text = elim (env.parse_tree (until_null text)) [
      | none ↦ (invalid, false)
      | some tree ↦ (from_cjson tree, true)
    ]
