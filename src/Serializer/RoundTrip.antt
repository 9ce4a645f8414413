-- ===== src/Serializer/RoundTrip.antt =====
-- What is written by rct/Serializer.h is read back.
use rct.Prelude.{
  All, ℕ, ◌%◌, ◌^◌, ◌<◌, ◌≤◌, ◌≡◌, ◌≢◌, refl, sym, ◌∙◌, List, [], ◌∷◌, ◌++◌, append_assoc, some,
  leb-true, ltb-true, eq_false, length, length-append, take-append_eq, drop-append_eq, arith,
}
use rct.Prelude.Words.{le_bytes, length-le_bytes, le_value-le_bytes}
use rct.Serializer.{
  Reader, ◌>>=◌, read_bytes, write_native, read_native, u32_mod, write_string, read_string, Codec,
  write_items, write_list, resize, read_items, read_list, write_pair, read_pair, native, string,
  list, pair,
}

-- A step that succeeds hands its value and the bytes that are left to the rest.
pub bind_ok :
    {A B : Type 0} (m : Reader A) (f : A → Reader B) {bytes rest : List ℕ} {a : A}
    → m bytes ≡ some (a, rest)
    → (m >>= f) bytes ≡ f a rest
bind_ok m f h = rw (h, ◌>>=◌)

-- Bytes that a `Deserializer` can count in an `int`.
abbrev pub Short : List ℕ → Type 0
Short bytes = length bytes < 2 ^ 31

pub Short-tail : (xs ys : List ℕ) → Short (xs ++ ys) → Short ys
Short-tail xs ys h = omega (arith, h, length-append xs ys)

-- Bytes in front of others, regrouped, and the others.
pub Short-split :
    (xs ys rest : List ℕ)
    → Short (xs ++ ys ++ rest)
    → Short (xs ++ (ys ++ rest)) × Short (ys ++ rest)
Short-split xs ys rest h =
    let parts : Short (xs ++ (ys ++ rest)) = rw append_assoc at h in
    (parts, Short-tail xs (ys ++ rest) parts)

-- Reading from bytes that begin with what was asked for.
pub read_bytes-append :
    (n : ℕ) (xs rest : List ℕ)
    → n ≡ length xs
    → Short (xs ++ rest)
    → read_bytes n (xs ++ rest) ≡ some (xs, rest)
unfolding read_bytes
read_bytes-append n [] rest h s = rw (h) refl
read_bytes-append n (x ∷ xs) rest h s =
    let enough : n ≤ length (x ∷ xs ++ rest) = omega (arith, h, length-append xs rest) in
    let more : n ≢ 0 = omega (arith, h) in
    rw
      (
        eq_false more,
        leb-true enough,
        ltb-true {a = length (x ∷ xs ++ rest)} {b = 2 ^ 31} s,
        take-append_eq n (x ∷ xs) rest h,
        drop-append_eq n (x ∷ xs) rest h,
      )
      refl

pub read_native-write_native :
    (n x : ℕ) (rest : List ℕ)
    → x < 256 ^ n
    → Short (write_native n x ++ rest)
    → read_native n (write_native n x ++ rest) ≡ some (x, rest)
unfolding read_native write_native
read_native-write_native n x rest h s =
    bind_ok (read_bytes n) _ (read_bytes-append n (le_bytes n x) rest (sym (length-le_bytes n x)) s)
    ∙ rw (le_value-le_bytes n x h)

pub read_string-write_string :
    (s rest : List ℕ)
    → Short (write_string s ++ rest)
    → read_string (write_string s ++ rest) ≡ some (s, rest)
unfolding read_string write_string
read_string-write_string s rest h =
    let parts : Short (write_native 4 (length s % u32_mod) ++ (s ++ rest)) = rw append_assoc at h in
    let tail = Short-tail (write_native 4 (length s % u32_mod)) (s ++ rest) parts in
    let small : length s < u32_mod = omega (arith, tail, length-append s rest) in
    let exact : length s % u32_mod ≡ length s = omega (arith, small) in
    rw (exact, append_assoc)
      (bind_ok (read_native 4) _
          (read_native-write_native 4 (length s) (s ++ rest) small (rw exact at parts))
        ∙ read_bytes-append (length s) s rest refl tail)

-- A codec is faithful on the values that `Fits` allows, when it reads into a new variable from bytes
-- of which there are not too many.
pub record RoundTrips (c : Codec) (Fits : c.Carrier → Type 0) : Type 1 where
  pub back :
      (a : c.Carrier) (rest : List ℕ)
      → Fits a
      → Short (c.write a ++ rest)
      → c.read c.default (c.write a ++ rest) ≡ some (a, rest)

-- A list fits if its length fits in the `uint32_t` that is written first.
abbrev pub ListFits : {A : Type 0} → (A → Type 0) → List A → Type 0
ListFits P xs = (length xs < u32_mod) × All P xs

module _ (c : Codec) where
  -- A list variable that holds `old` keeps all of `old` when an empty list is read into it.
  read_list-write_list_nil :
      (old : List c.Carrier) (rest : List ℕ)
      → Short (write_native 4 0 ++ rest)
      → read_list c old (write_list c [] ++ rest) ≡ some (old, rest)
  unfolding read_list write_list write_items
  read_list-write_list_nil old rest s =
      rw append_assoc
        (bind_ok (read_native 4) _ (read_native-write_native 4 0 rest (omega arith) s))

module _ {c : Codec} {Fits : c.Carrier → Type 0} (law : RoundTrips c Fits) where
  read_items-write_items :
      (xs : List c.Carrier) (rest : List ℕ)
      → All Fits xs
      → Short (write_items c xs ++ rest)
      → read_items c (resize c (length xs) []) (write_items c xs ++ rest) ≡ some (xs, rest)
  unfolding read_items write_items resize
  read_items-write_items [] rest h s = refl
  read_items-write_items (x ∷ xs) rest h s =
      let parts : Short (c.write x ++ (write_items c xs ++ rest)) = rw append_assoc at s in
      rw append_assoc (
        bind_ok (c.read c.default) _ (law.back x (write_items c xs ++ rest) h.0 parts)
        ∙ bind_ok (read_items c (resize c (length xs) [])) _
            (read_items-write_items xs rest h.1 (Short-tail (c.write x) _ parts)))

  -- A list is read back whole, whatever follows it, into a list variable that is empty. The list has
  -- fewer than 2^32 elements, for each of which this holds too, and the bytes that are read from,
  -- those that follow it included, are fewer than 2^31.
  pub read_list-write_list :
      (xs : List c.Carrier) (rest : List ℕ)
      → ListFits Fits xs
      → Short (write_list c xs ++ rest)
      → read_list c [] (write_list c xs ++ rest) ≡ some (xs, rest)
  unfolding read_list write_list write_items
  read_list-write_list [] rest h s = rw append_assoc (
      bind_ok (read_native 4) _
        (read_native-write_native 4 0 rest (omega arith) (rw append_assoc at s)))
  read_list-write_list (x ∷ xs) rest h s =
      let items = write_items c (x ∷ xs) ++ rest in
      let parts : Short (write_native 4 (length (x ∷ xs) % u32_mod) ++ items) =
        rw append_assoc at s in
      let exact : length (x ∷ xs) % u32_mod ≡ length (x ∷ xs) = omega arith in
      let more : length (x ∷ xs) ≢ 0 = omega arith in
      rw (exact, append_assoc)
        (bind_ok (read_native 4) _
            (read_native-write_native 4 (length (x ∷ xs)) _ h.0 (rw exact at parts))
          ∙ rw (eq_false more) (
              read_items-write_items (x ∷ xs) rest h.1
                (Short-tail (write_native 4 (length (x ∷ xs) % u32_mod)) items parts)))

  -- So are lists of such values: the law is kept by `list`.
  pub list-RoundTrips : RoundTrips (list c) (ListFits Fits)
  list-RoundTrips = record { back = read_list-write_list }

module _ {c d : Codec} {P : c.Carrier → Type 0} {Q : d.Carrier → Type 0} (p : RoundTrips c P)
    (q : RoundTrips d Q) where
  pub pair-RoundTrips : RoundTrips (pair c d) (λ v. P v.0 × Q v.1)
  unfolding write_pair read_pair
  pair-RoundTrips = record {
    back = λ v rest h s.
        let parts : Short (c.write v.0 ++ (d.write v.1 ++ rest)) = rw append_assoc at s in
        rw append_assoc (
          bind_ok (c.read c.default) _ (p.back v.0 (d.write v.1 ++ rest) h.0 parts)
          ∙ bind_ok (d.read d.default) _ (q.back v.1 rest h.1 (Short-tail (c.write v.0) _ parts)));
  }

pub native-RoundTrips : (n : ℕ) → RoundTrips (native n) (λ x. x < 256 ^ n)
native-RoundTrips n = record { back = read_native-write_native n }

pub string-RoundTrips : RoundTrips string (λ s. Unit)
string-RoundTrips = record { back = λ s rest h. read_string-write_string s rest }
