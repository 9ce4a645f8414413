-- ===== src/Value/Lengths.antt =====
-- How many bytes the values of rct/Value.h take in the serializer's form.
use rct.Prelude.{ℕ, ◌<◌, ◌≤◌, List, ◌++◌, length, length-append, arith}
use rct.Prelude.Words.{le_bytes, length-le_bytes}
use rct.Serializer.{write_native, write_string}
use rct.Value.{Kind, kind_number, Value, Values, Entries}
use rct.Value.{
  invalid, undefined, boolean, integer, double, string, null_custom, custom, map, list, date, nil,
  cons, end, entry,
}
use rct.Value.Wire.{
  count_values, count_entries, write_tag, write_value, write_values, write_entries,
}

tagged : (k : Kind) (xs : List ℕ) → 0 < length (write_tag k ++ xs)
unfolding write_tag write_native
tagged k xs =
    omega (arith, length-append (le_bytes 4 (kind_number k)) xs, length-le_bytes 4 (kind_number k))

untagged : (k : Kind) → 0 < length (write_tag k)
unfolding write_tag write_native
untagged k = omega (arith, length-le_bytes 4 (kind_number k))

-- Every value takes a byte at least.
length-write_value : (v : Value) → 0 < length (write_value v)
unfolding write_value
length-write_value invalid = untagged Kind.invalid
length-write_value undefined = untagged Kind.undefined
length-write_value (boolean b) = tagged Kind.boolean _
length-write_value (integer n) = tagged Kind.integer _
length-write_value (double d) = tagged Kind.double _
length-write_value (string s) = tagged Kind.string _
length-write_value null_custom = untagged Kind.custom
length-write_value (custom s) = untagged Kind.custom
length-write_value (map es) = tagged Kind.map _
length-write_value (list vs) = tagged Kind.list _
length-write_value (date t) = tagged Kind.date _

pub count-length : (vs : Values) → count_values vs ≤ length (write_values vs)
unfolding count_values write_values
count-length nil = omega arith
count-length (cons v vs) =
    omega (
      arith,
      length-append (write_value v) (write_values vs),
      length-write_value v,
      count-length vs,
    )

pub count_entries-length : (es : Entries) → count_entries es ≤ length (write_entries es)
unfolding count_entries write_entries
count_entries-length end = omega arith
count_entries-length (entry k v es) = omega (
  arith,
  length-append (write_string k) (write_value v ++ write_entries es),
  length-append (write_value v) (write_entries es),
  length-write_value v,
  count_entries-length es,
)
