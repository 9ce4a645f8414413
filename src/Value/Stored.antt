-- ===== src/Value/Stored.antt =====
-- rct/Value.h: what a serializer keeps of a value.
use rct.Prelude.{
  ℕ, zero, suc, ◌+◌, ◌*◌, ◌%◌, ◌<◌, ◌≤◌, ◌^◌, ◌≡◌, refl, sym, ap, ◌∙◌, true, false, List, ◌++◌,
  append_assoc, some, length, length-append, arith,
}
use Prim.Native.Nat.{max}
use rct.Serializer.{u32_mod, write_native, write_string, read_native, read_string}
use rct.Serializer.RoundTrip.{
  Short, Short-split, bind_ok, read_native-write_native, read_string-write_string,
}
use rct.Value.{Kind, kind_number, Value, Values, Entries, of_int}
use rct.Value.{
  invalid, undefined, boolean, integer, double, string, null_custom, custom, map, list, date, nil,
  cons, end, entry,
}
use rct.Value.Order.{
  Above, Precedes, append_entry, append_entries, set_entry-append_entry, Precedes-append_entry,
  append_entries_end, append_entries_entry,
}
use rct.Value.Lengths.{count-length, count_entries-length}
use rct.Value.Wire.{
  count_values, count_entries, bool_byte, write_tag, write_value, write_values, write_entries,
  read_values, read_entries, read_kind, read_value,
}

-- A date becomes an integer, an integer keeps four bytes, and a custom object is lost.
module _ (upper : ℕ) where
  unfoldable mutual
    pub stored : Value → Value
    stored invalid = invalid
    stored undefined = undefined
    stored (boolean b) = boolean b
    stored (integer n) = of_int upper n
    stored (double d) = double d
    stored (string s) = string s
    stored null_custom = invalid
    stored (custom s) = invalid
    stored (map es) = map (stored_entries es)
    stored (list vs) = list (stored_values vs)
    stored (date t) = integer t

    pub stored_values : Values → Values
    stored_values nil = nil
    stored_values (cons v vs) = cons (stored v) (stored_values vs)

    pub stored_entries : Entries → Entries
    stored_entries end = end
    stored_entries (entry k v es) = entry k (stored v) (stored_entries es)

-- How deep values are nested.
unfoldable mutual
  pub depth : Value → ℕ
  depth (map es) = depth_entries es + 1
  depth (list vs) = depth_values vs + 1
  depth v = 0

  pub depth_values : Values → ℕ
  depth_values nil = 0
  depth_values (cons v vs) = max (depth v) (depth_values vs)

  pub depth_entries : Entries → ℕ
  depth_entries end = 0
  depth_entries (entry k v es) = max (depth v) (depth_entries es)

-- Words have eight bytes, and maps are in order.
unfoldable mutual
  pub Fits : Value → Type 0
  Fits (double d) = d < 256 ^ 8
  Fits (date t) = t < 256 ^ 8
  Fits (map es) = FitsEntries es
  Fits (list vs) = FitsValues vs
  Fits v = Unit

  pub FitsValues : Values → Type 0
  FitsValues nil = Unit
  FitsValues (cons v vs) = Fits v × FitsValues vs

  pub FitsEntries : Entries → Type 0
  FitsEntries end = Unit
  FitsEntries (entry k v es) = Above k es × Fits v × FitsEntries es

kind_number-lt : (k : Kind) → kind_number k < 256 ^ 4
unfolding kind_number
kind_number-lt invalid = omega arith
kind_number-lt undefined = omega arith
kind_number-lt boolean = omega arith
kind_number-lt integer = omega arith
kind_number-lt double = omega arith
kind_number-lt string = omega arith
kind_number-lt custom = omega arith
kind_number-lt map = omega arith
kind_number-lt list = omega arith
kind_number-lt date = omega arith

of_int-mod : (upper n : ℕ) → of_int upper (n % u32_mod) ≡ of_int upper n
unfolding of_int
of_int-mod upper n = ap (λ x. integer (x + upper * u32_mod)) (omega arith)

read_tag :
    (k : Kind) (fuel upper : ℕ) (old : Value) (rest : List ℕ)
    → Short (write_tag k ++ rest)
    → read_value (suc fuel) upper old (write_tag k ++ rest)
      ≡ read_kind upper (read_value fuel upper invalid) old (kind_number k) rest
unfolding read_value write_tag
read_tag k fuel upper old rest s =
    bind_ok (read_native 4) _ (read_native-write_native 4 (kind_number k) rest (kind_number-lt k) s)

-- A number that is bounded by bytes that are there.
counted : (n : ℕ) (xs rest : List ℕ) → n ≤ length xs → Short (xs ++ rest) → n < u32_mod
counted n xs rest h s = omega (arith, h, s, length-append xs rest)

module _ (upper : ℕ) where
  mutual
    unfolding write_value write_values write_entries read_values read_entries read_kind kind_number
        stored depth Fits count_values count_entries bool_byte Precedes append_entries

    back :
        (v : Value) (fuel : ℕ) (old : Value) (rest : List ℕ)
        → depth v < fuel
        → Fits v
        → Short (write_value v ++ rest)
        → read_value fuel upper old (write_value v ++ rest) ≡ some (stored upper v, rest)
    back v zero old rest d f s = absurd (omega (arith, d))
    back invalid (suc fuel) old rest d f h = read_tag Kind.invalid fuel upper old rest h
    back undefined (suc fuel) old rest d f h = read_tag Kind.undefined fuel upper old rest h
    back (boolean true) (suc fuel) old rest d f h =
        let p = Short-split (write_tag Kind.boolean) (write_native 1 1) rest h in
        rw append_assoc (
          read_tag Kind.boolean fuel upper old _ p.0
          ∙ bind_ok (read_native 1) _ (read_native-write_native 1 1 rest (omega arith) p.1))
    back (boolean false) (suc fuel) old rest d f h =
        let p = Short-split (write_tag Kind.boolean) (write_native 1 0) rest h in
        rw append_assoc (
          read_tag Kind.boolean fuel upper old _ p.0
          ∙ bind_ok (read_native 1) _ (read_native-write_native 1 0 rest (omega arith) p.1))
    back (integer n) (suc fuel) old rest d f h =
        let p = Short-split (write_tag Kind.integer) (write_native 4 (n % u32_mod)) rest h in
        rw append_assoc (
          read_tag Kind.integer fuel upper old _ p.0
          ∙ bind_ok (read_native 4) _
              (read_native-write_native 4 (n % u32_mod) rest (omega arith) p.1)
          ∙ ap (λ x. some (x, rest)) (of_int-mod upper n))
    back (double w) (suc fuel) old rest d f h =
        let p = Short-split (write_tag Kind.double) (write_native 8 w) rest h in
        rw append_assoc (
          read_tag Kind.double fuel upper old _ p.0
          ∙ bind_ok (read_native 8) _ (read_native-write_native 8 w rest f p.1))
    back (string s) (suc fuel) old rest d f h =
        let p = Short-split (write_tag Kind.string) (write_string s) rest h in
        rw append_assoc (
          read_tag Kind.string fuel upper old _ p.0
          ∙ bind_ok read_string _ (read_string-write_string s rest p.1))
    back null_custom (suc fuel) old rest d f h = read_tag Kind.custom fuel upper old rest h
    back (custom s) (suc fuel) old rest d f h = read_tag Kind.custom fuel upper old rest h
    back (map es) (suc fuel) old rest d f h =
        let p =
          Short-split (write_tag Kind.map)
            (write_native 4 (count_entries es % u32_mod) ++ write_entries es) rest h in
        let q =
          Short-split (write_native 4 (count_entries es % u32_mod)) (write_entries es) rest p.1 in
        let few : count_entries es < u32_mod =
          counted (count_entries es) (write_entries es) rest (count_entries-length es) q.1 in
        let exact : count_entries es % u32_mod ≡ count_entries es = omega (arith, few) in
        rw (append_assoc, append_assoc, exact)
          (read_tag Kind.map fuel upper old _ (rw (append_assoc, exact) at p.0)
            ∙ bind_ok (read_native 4) _
                (read_native-write_native 4 (count_entries es) _ few (rw exact at q.0))
            ∙ bind_ok (read_entries (read_value fuel upper invalid) (count_entries es) end) _
                (back_entries es fuel end rest (omega (arith, d)) f _ q.1))
    back (list vs) (suc fuel) old rest d f h =
        let p =
          Short-split (write_tag Kind.list)
            (write_native 4 (count_values vs % u32_mod) ++ write_values vs) rest h in
        let q =
          Short-split (write_native 4 (count_values vs % u32_mod)) (write_values vs) rest p.1 in
        let few : count_values vs < u32_mod =
          counted (count_values vs) (write_values vs) rest (count-length vs) q.1 in
        let exact : count_values vs % u32_mod ≡ count_values vs = omega (arith, few) in
        rw (append_assoc, append_assoc, exact)
          (read_tag Kind.list fuel upper old _ (rw (append_assoc, exact) at p.0)
            ∙ bind_ok (read_native 4) _
                (read_native-write_native 4 (count_values vs) _ few (rw exact at q.0))
            ∙ bind_ok (read_values (read_value fuel upper invalid) (count_values vs)) _
                (back_values vs fuel rest (omega (arith, d)) f q.1))
    back (date n) (suc fuel) old rest d f h =
        let p = Short-split (write_tag Kind.date) (write_native 8 n) rest h in
        rw append_assoc (
          read_tag Kind.date fuel upper old _ p.0
          ∙ bind_ok (read_native 8) _ (read_native-write_native 8 n rest f p.1))

    back_values :
        (vs : Values) (fuel : ℕ) (rest : List ℕ)
        → depth_values vs < fuel
        → FitsValues vs
        → Short (write_values vs ++ rest)
        → read_values (read_value fuel upper invalid) (count_values vs) (write_values vs ++ rest)
          ≡ some (stored_values upper vs, rest)
    back_values nil fuel rest d f h = refl
    back_values (cons v vs) fuel rest d f h =
        let p = Short-split (write_value v) (write_values vs) rest h in
        rw append_assoc (
          bind_ok (read_value fuel upper invalid) _
            (back v fuel invalid (write_values vs ++ rest) (omega (arith, d)) f.0 p.0)
          ∙ bind_ok (read_values (read_value fuel upper invalid) (count_values vs)) _
              (back_values vs fuel rest (omega (arith, d)) f.1 p.1))

    back_entries :
        (es : Entries) (fuel : ℕ) (ds : Entries) (rest : List ℕ)
        → depth_entries es < fuel
        → FitsEntries es
        → Precedes ds es
        → Short (write_entries es ++ rest)
        → read_entries
            (read_value fuel upper invalid)
            (count_entries es)
            ds
            (write_entries es ++ rest)
          ≡ some (append_entries ds (stored_entries upper es), rest)
    back_entries end fuel ds rest d f p h = ap (λ x. some (x, rest)) (sym (append_entries_end ds))
    back_entries (entry k v es) fuel ds rest d f p h =
        let (above, fits, more) = f in
        let key = Short-split (write_string k) (write_value v ++ write_entries es) rest h in
        let value = Short-split (write_value v) (write_entries es) rest key.1 in
        rw (append_assoc, append_assoc)
          (bind_ok read_string _ (read_string-write_string k _ (rw append_assoc at key.0))
            ∙ bind_ok (read_value fuel upper invalid) _
                (back v fuel invalid (write_entries es ++ rest) (omega (arith, d)) fits value.0)
            ∙ rw (set_entry-append_entry ds k (stored upper v) v es p) (
                back_entries es fuel (append_entry ds k (stored upper v)) rest (omega (arith, d))
                  more (Precedes-append_entry ds k (stored upper v) v es p above) value.1)
            ∙ ap (λ x. some (x, rest))
                (append_entries_entry ds k (stored upper v) (stored_entries upper es)))

-- A deserializer gets what a serializer keeps of a value, whatever follows it and whatever variable
-- it reads into: dates become integers, integers keep four bytes, and custom objects are lost. The
-- reader takes one step more than the value is deep; the bytes that are read from, those that follow
-- the value included, are fewer than 2^31, and maps are in order.
pub read_value-write_value :
    (upper : ℕ) (v old : Value) (rest : List ℕ)
    → Fits v
    → Short (write_value v ++ rest)
    → read_value (depth v + 1) upper old (write_value v ++ rest) ≡ some (stored upper v, rest)
read_value-write_value upper v old rest f h = back upper v (depth v + 1) old rest (omega arith) f h
