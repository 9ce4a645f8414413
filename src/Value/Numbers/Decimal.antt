-- ===== src/Value/Numbers/Decimal.antt =====
-- A number as text (rct/String.h), and read again by `strtol` or `strtoll`.
use rct.Prelude.{
  ℕ, zero, suc, ◌+◌, ◌-◌, ◌*◌, ◌/◌, ◌%◌, ◌^◌, ◌<◌, ◌≤◌, ◌≡◌, ◌≢◌, refl, sym, ap, ◌∙◌, Bool, true,
  false, List, [], ◌∷◌, ◌++◌, some, ◌&&◌, ltb, leb, ltb-true, leb-true, leb-false, eq_false,
  Bool-cases, inl, inr, arith,
}
use native.Mathlib.Nat.{pow-suc}
use rct.Prelude.Words.{size_mod}
use rct.Serializer.{u32_mod}
use rct.Value.Numbers.{
  decimal, long_min, number_long, extended, number_int, until_null, is_space, skip_space, digit,
  digits, some_digits, based, sign, whole_signed, whole_number, clamp_long, parse_long,
}

-- A digit of base ten.
abbrev IsDigit : ℕ → Type 0
IsDigit ch = (48 ≤ ch) × (ch ≤ 57)

abbrev AllDigits : List ℕ → Type 0
AllDigits [] = Unit
AllDigits (ch ∷ rest) = IsDigit ch × AllDigits rest

AllDigits-append : (s t : List ℕ) → AllDigits s → AllDigits t → AllDigits (s ++ t)
AllDigits-append [] t a b = b
AllDigits-append (ch ∷ s) t a b = (a.0, AllDigits-append s t a.1 b)

decimal-AllDigits : (fuel x : ℕ) → AllDigits (decimal fuel x)
unfolding decimal
decimal-AllDigits zero x = search
decimal-AllDigits (suc fuel) x = elim (Bool-cases (ltb x 10)) [
  | inl t ↦ rw (t) ((omega arith, ground arith), search)
  | inr f ↦ rw (f) (
      AllDigits-append (decimal fuel (x / 10)) _ (decimal-AllDigits fuel (x / 10))
        ((omega arith, omega arith), search))
]

digit-IsDigit : (ch : ℕ) → IsDigit ch → digit 10 ch ≡ some (ch - 48)
unfolding digit
digit-IsDigit ch h =
    let (low, high) = h in
    let least : ltb (ch - 48) 10 ≡ true = ltb-true (omega (arith, low, high)) in
    rw (leb-true low, leb-true high, least) refl

-- The number of digits of base ten, after `n`.
value : ℕ → List ℕ → ℕ
value n [] = n
value n (ch ∷ rest) = value (n * 10 + (ch - 48)) rest

value-append : (n : ℕ) (s t : List ℕ) → value n (s ++ t) ≡ value (value n s) t
unfolding value
value-append n [] t = refl
value-append n (ch ∷ s) t = value-append (n * 10 + (ch - 48)) s t

value-decimal : (fuel x : ℕ) → x < 10 ^ fuel → value 0 (decimal fuel x) ≡ x
unfolding decimal value
value-decimal zero x h = omega (arith, h)
value-decimal (suc fuel) x h = elim (Bool-cases (ltb x 10)) [
  | inl t ↦ rw (t) (omega arith)
  | inr f ↦
      let small : x / 10 < 10 ^ fuel = omega (arith, h, pow-suc 10 fuel) in
      rw (f, value-append 0 (decimal fuel (x / 10)), value-decimal fuel (x / 10) small)
        (omega arith)
]

digits-value : (n : ℕ) (s : List ℕ) → AllDigits s → digits 10 n s ≡ (value n s, [])
unfolding digits value
digits-value n [] h = refl
digits-value n (ch ∷ s) h =
    rw (digit-IsDigit ch h.0, digits) (digits-value (n * 10 + (ch - 48)) s h.1)

some_digits-value :
    (ch : ℕ) (s : List ℕ)
    → AllDigits (ch ∷ s)
    → some_digits 10 (ch ∷ s) ≡ some (value 0 (ch ∷ s), [])
unfolding some_digits value
some_digits-value ch s h =
    let start : 0 * 10 + (ch - 48) ≡ ch - 48 = omega arith in
    rw (digit-IsDigit ch h.0, start) (ap (λ r. some r) (digits-value (ch - 48) s h.1))

until_null-AllDigits : (s : List ℕ) → AllDigits s → until_null s ≡ s
unfolding until_null
until_null-AllDigits [] h = refl
until_null-AllDigits (ch ∷ s) h =
    let more : ch ≢ 0 = omega (arith, h.0.0) in rw (eq_false more, until_null-AllDigits s h.1) refl

decimal-cons : (fuel x : ℕ) → (ch : ℕ) × (s : List ℕ) × (decimal (suc fuel) x ≡ ch ∷ s)
unfolding decimal
decimal-cons zero x = elim (Bool-cases (ltb x 10)) [
  | inl t ↦ (48 + x, [], rw (t) refl)
  | inr f ↦ (48 + x % 10, [], rw (f) refl)
]
decimal-cons (suc fuel) x = elim (Bool-cases (ltb x 10)) [
  | inl t ↦ (48 + x, [], rw (t) refl)
  | inr f ↦
      let (ch, s, e) = decimal-cons fuel (x / 10) in
      (ch, s ++ ((48 + x % 10) ∷ []), rw (f) (ap (λ y. y ++ ((48 + x % 10) ∷ [])) e))
]

and_false : (b : Bool) → b && false ≡ false
and_false true = refl
and_false false = refl

is_space-IsDigit : (ch : ℕ) → IsDigit ch → is_space ch ≡ false
unfolding is_space
is_space-IsDigit ch h =
    let late : leb ch 13 ≡ false = leb-false (omega (arith, h.0)) in
    let other : ch ≢ 32 = omega (arith, h.0) in rw (eq_false other, late) (and_false (leb 9 ch))

skip_space-IsDigit : (ch : ℕ) (s : List ℕ) → IsDigit ch → skip_space (ch ∷ s) ≡ ch ∷ s
unfolding skip_space
skip_space-IsDigit ch s h = rw (is_space-IsDigit ch h) refl

sign-IsDigit : (ch : ℕ) (s : List ℕ) → IsDigit ch → sign (ch ∷ s) ≡ (false, ch ∷ s)
unfolding sign
sign-IsDigit ch s h =
    let minus : ch ≢ 45 = omega (arith, h.0) in
    let plus : ch ≢ 43 = omega (arith, h.0) in rw (eq_false minus, eq_false plus) refl

-- Digits are a number, and so are digits behind a minus.
whole_signed-digits :
    (minus : Bool) (ch : ℕ) (s : List ℕ)
    → AllDigits (ch ∷ s)
    → whole_signed false (minus, ch ∷ s) ≡ some (minus, value 0 (ch ∷ s))
unfolding whole_signed based
whole_signed-digits minus ch s h = rw (some_digits-value ch s h) refl

whole-plus :
    (ch : ℕ) (s : List ℕ)
    → AllDigits (ch ∷ s)
    → whole_number false (ch ∷ s) ≡ some (false, value 0 (ch ∷ s))
unfolding whole_number
whole-plus ch s h =
    ap (λ x. whole_signed false x)
      (ap (λ x. sign x) (skip_space-IsDigit ch s h.0) ∙ sign-IsDigit ch s h.0)
    ∙ whole_signed-digits false ch s h

whole-minus :
    (ch : ℕ) (s : List ℕ)
    → AllDigits (ch ∷ s)
    → whole_number false (45 ∷ ch ∷ s) ≡ some (true, value 0 (ch ∷ s))
unfolding whole_number skip_space is_space sign
whole-minus ch s h = whole_signed-digits true ch s h

-- The text of a number that is not too long, without and with a minus.
decimal-plus :
    (x : ℕ) → x < size_mod → whole_number false (until_null (decimal 20 x)) ≡ some (false, x)
decimal-plus x h =
    let (ch, s, e) = decimal-cons 19 x in
    let all : AllDigits (ch ∷ s) = rw (e) at (decimal-AllDigits 20 x) in
    let same : value 0 (ch ∷ s) ≡ x =
      sym (ap (λ y. value 0 y) e) ∙ value-decimal 20 x (omega (arith, h)) in
    rw (e, until_null-AllDigits (ch ∷ s) all) (whole-plus ch s all ∙ ap (λ y. some (false, y)) same)

decimal-minus :
    (x : ℕ) → x < size_mod → whole_number false (until_null (45 ∷ decimal 20 x)) ≡ some (true, x)
unfolding until_null
decimal-minus x h =
    let (ch, s, e) = decimal-cons 19 x in
    let all : AllDigits (ch ∷ s) = rw (e) at (decimal-AllDigits 20 x) in
    let same : value 0 (ch ∷ s) ≡ x =
      sym (ap (λ y. value 0 y) e) ∙ value-decimal 20 x (omega (arith, h)) in
    rw (e, until_null-AllDigits (ch ∷ s) all) (whole-minus ch s all ∙ ap (λ y. some (true, y)) same)

pub parse_long-number_long : (x : ℕ) → x < size_mod → parse_long false (number_long x) ≡ some x
unfolding parse_long number_long clamp_long
parse_long-number_long x h = elim (Bool-cases (ltb x long_min)) [
  | inl t ↦ rw (t, decimal-plus x h, t) refl
  | inr f ↦
      let negative : long_min ≤ x = ground arith in
      let least : leb (size_mod - x) long_min ≡ true = leb-true (omega (arith, negative, h)) in
      rw (f, decimal-minus (size_mod - x) (omega (arith, negative)), least)
        (ap (λ y. some y) (omega (arith, negative, h)))
]

-- The text of an `int` is read as that `int`.
pub parse_long-number_int :
    (x : ℕ) → x < u32_mod → (y : ℕ) × (parse_long false (number_int x) ≡ some y) × (y % u32_mod ≡ x)
unfolding number_int extended
parse_long-number_int x h =
    (extended x, parse_long-number_long (extended x) (ground (arith, h)), ground (arith, h))
