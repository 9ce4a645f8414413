-- ===== src/Value.antt =====
-- rct/Value.h and rct/Value.cpp: a value of one of ten types, and what is in its lists and maps.
pub mod Access
pub mod Lookup
pub mod Numbers
pub mod Convert
pub mod Kinds
pub mod Text
pub mod Order
pub mod Wire
pub mod Lengths
pub mod Stored
pub mod Json
pub mod Kept
pub mod Formats
mod Tests
use rct.Prelude.{
  ℕ, zero, suc, ◌+◌, ◌*◌, ◌/◌, ◌%◌, Bool, true, false, List, [], ◌∷◌, if◌then◌else◌, ltb,
}
use rct.String.Order.{less}
use rct.Serializer.{u32_mod}

-- `Value::Type`
pub data Kind : Type 0 where
  invalid : Kind
  undefined : Kind
  boolean : Kind
  integer : Kind
  double : Kind
  string : Kind
  custom : Kind
  map : Kind
  list : Kind
  date : Kind

-- An integer and a date are the eight bytes of `mData`, a double is those of its representation. A
-- custom object is known by what its `toString` returns; its pointer may be null. A map holds its
-- entries in the order of their keys.
mutual
  pub data Value : Type 0 where
    invalid : Value
    undefined : Value
    boolean : Bool → Value
    integer : ℕ → Value
    double : ℕ → Value
    string : List ℕ → Value
    null_custom : Value
    custom : List ℕ → Value
    map : Entries → Value
    list : Values → Value
    date : ℕ → Value

  pub data Values : Type 0 where
    nil : Values
    cons : Value → Values → Values

  pub data Entries : Type 0 where
    end : Entries
    entry : List ℕ → Value → Entries → Entries

-- `type`
unfoldable pub kind : Value → Kind
kind invalid = Kind.invalid
kind undefined = Kind.undefined
kind (boolean b) = Kind.boolean
kind (integer n) = Kind.integer
kind (double d) = Kind.double
kind (string s) = Kind.string
kind null_custom = Kind.custom
kind (custom s) = Kind.custom
kind (map es) = Kind.map
kind (list vs) = Kind.list
kind (date t) = Kind.date

unfoldable pub kind_number : Kind → ℕ
kind_number invalid = 0
kind_number undefined = 1
kind_number boolean = 2
kind_number integer = 3
kind_number double = 4
kind_number string = 5
kind_number custom = 6
kind_number map = 7
kind_number list = 8
kind_number date = 9

-- `Value(int)` sets four of the eight bytes of `mData`; the upper ones stay what they were.
unfoldable pub of_int : ℕ → ℕ → Value
of_int upper i = integer (i % u32_mod + upper * u32_mod)

-- `Value(Type)`
unfoldable pub of_kind : Kind → Value
of_kind invalid = invalid
of_kind undefined = undefined
of_kind boolean = boolean false
of_kind integer = integer 0
of_kind double = double 0
of_kind string = string []
of_kind custom = null_custom
of_kind map = map end
of_kind list = list nil
of_kind date = date 0

-- `map[key] = value`
unfoldable pub set_entry : List ℕ → Value → Entries → Entries
set_entry key v end = entry key v end
set_entry key v (entry k w es) =
    let rest = set_entry key v es in
    if less k key
    then entry k w rest
    else if less key k
    then entry key v (entry k w es)
    else entry key v es
