-- ===== src/Value/Wire.antt =====
-- rct/Value.h: a value written by a serializer, and read.
use rct.Prelude.{
  ℕ, zero, suc, ◌%◌, Bool, true, false, not, List, [], ◌++◌, none, if◌then◌else◌, ◌==◌,
}
use rct.Serializer.{
  Reader, ◌>>=◌, pure, u32_mod, write_native, read_native, write_string, read_string,
}
use rct.Value.{Kind, kind_number, Value, Values, Entries, of_int, set_entry}
use rct.Value.{
  invalid, undefined, boolean, integer, double, string, null_custom, custom, map, list, date, nil,
  cons, end, entry,
}

unfoldable pub count_values : Values → ℕ
count_values nil = 0
count_values (cons v vs) = suc (count_values vs)

unfoldable pub count_entries : Entries → ℕ
count_entries end = 0
count_entries (entry k v es) = suc (count_entries es)

unfoldable pub bool_byte : Bool → ℕ
bool_byte true = 1
bool_byte false = 0

-- `serializer << static_cast<int>(value.type())`
unfoldable pub write_tag : Kind → List ℕ
write_tag k = write_native 4 (kind_number k)

-- `operator<<`, with those of `List<Value>` and `Map<String, Value>`.
unfoldable mutual
  pub write_value : Value → List ℕ
  write_value invalid = write_tag Kind.invalid
  write_value undefined = write_tag Kind.undefined
  write_value (boolean b) = write_tag Kind.boolean ++ write_native 1 (bool_byte b)
  write_value (integer n) = write_tag Kind.integer ++ write_native 4 (n % u32_mod)
  write_value (double d) = write_tag Kind.double ++ write_native 8 d
  write_value (string s) = write_tag Kind.string ++ write_string s
  write_value null_custom = write_tag Kind.custom
  write_value (custom s) = write_tag Kind.custom
  write_value (map es) =
      write_tag Kind.map ++ (write_native 4 (count_entries es % u32_mod) ++ write_entries es)
  write_value (list vs) =
      write_tag Kind.list ++ (write_native 4 (count_values vs % u32_mod) ++ write_values vs)
  write_value (date t) = write_tag Kind.date ++ write_native 8 t

  pub write_values : Values → List ℕ
  write_values nil = []
  write_values (cons v vs) = write_value v ++ write_values vs

  pub write_entries : Entries → List ℕ
  write_entries end = []
  write_entries (entry k v es) = write_string k ++ (write_value v ++ write_entries es)

-- `operator>>` of a list that was just declared: `size` times the one of an element.
unfoldable pub read_values : Reader Value → ℕ → Reader Values
read_values read zero = pure nil
read_values read (suc n) = do v ← read; vs ← read_values read n; pure (cons v vs)

-- The loop of `operator>>` of a map.
unfoldable pub read_entries : Reader Value → ℕ → Entries → Reader Entries
read_entries read zero es = pure es
read_entries read (suc n) es = do
  key ← read_string
  v ← read
  read_entries read n (set_entry key v es)

-- `operator>>` into a variable that holds `old`, where `read` reads a part into one that was just
-- declared. The temporary that `value = v` makes of an `int` lies on memory that held `upper`.
unfoldable pub read_kind : ℕ → Reader Value → Value → ℕ → Reader Value
read_kind upper read old t =
    if t == 0
    then pure invalid
    else if t == 1
    then pure undefined
    else if t == 2
    then (do b ← read_native 1; pure (boolean (not (b == 0))))
    else if t == 3
    then (do n ← read_native 4; pure (of_int upper n))
    else if t == 4
    then (do d ← read_native 8; pure (double d))
    else if t == 5
    then (do s ← read_string; pure (string s))
    else if t == 6
    then pure invalid
    else if t == 7
    then (do size ← read_native 4; es ← read_entries read size end; pure (map es))
    else if t == 8
    then (do size ← read_native 4; vs ← read_values read size; pure (list vs))
    else if t == 9
    then (do n ← read_native 8; pure (integer n))
    else pure old

-- `none` is a failed assertion of the deserializer, or the end of the fuel.
unfoldable pub read_value : ℕ → ℕ → Value → Reader Value
read_value zero upper old bytes = none
read_value (suc fuel) upper old bytes =
    (read_native 4 >>= read_kind upper (read_value fuel upper invalid) old) bytes
