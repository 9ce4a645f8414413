-- ===== src/Tokenizer/Classes.antt =====
-- rct/StringTokenizer.h: classes of characters, and the words that are made of one class.
use rct.Prelude.{
  ℕ, zero, suc, ◌-◌, ◌≤◌, ◌≡◌, refl, sym, Bool, true, false, not, ◌&&◌, List, [], ◌∷◌, ◌++◌,
  append_assoc, length, take, drop, ◌==◌, arith,
}
use rct.String.Case.{is_lower, is_upper, is_digit, is_alnum, lower}
use rct.Tokenizer.{last}

unfoldable pub flatten : List (List ℕ) → List ℕ
flatten [] = []
flatten (w ∷ ws) = w ++ flatten ws

-- Digits only, or ASCII letters only.
unfoldable pub Of : Bool → List ℕ → Type 0
Of digit [] = Unit
Of digit (c ∷ s) = (is_digit c ≡ digit) × (is_alnum c ≡ true) × Of digit s

unfoldable pub Words : List (List ℕ) → Type 0
Words [] = Unit
Words (w ∷ ws) = (1 ≤ length w) × ((digit : Bool) × Of digit w) × Words ws

pub flatten-append : (vs ws : List (List ℕ)) → flatten (vs ++ ws) ≡ flatten vs ++ flatten ws
unfolding flatten
flatten-append [] ws = refl
flatten-append (v ∷ vs) ws =
    rw (flatten-append vs ws) (sym (append_assoc v (flatten vs) (flatten ws)))

pub append-Words : (vs ws : List (List ℕ)) → Words vs → Words ws → Words (vs ++ ws)
unfolding Words
append-Words [] ws v w = w
append-Words (x ∷ vs) ws v w = (v.0, v.1, append-Words vs ws v.2 w)

pub append-Of : (d : Bool) (s t : List ℕ) → Of d s → Of d t → Of d (s ++ t)
unfolding Of
append-Of d [] t h k = k
append-Of d (c ∷ s) t h k = (h.0, h.1, append-Of d s t h.2 k)

pub take-Of : (n : ℕ) (d : Bool) (s : List ℕ) → Of d s → Of d (take n s)
unfolding Of
take-Of zero d s h = tt
take-Of (suc n) d [] h = tt
take-Of (suc n) d (c ∷ s) h = (h.0, h.1, take-Of n d s h.2)

pub drop-Of : (n : ℕ) (d : Bool) (s : List ℕ) → Of d s → Of d (drop n s)
unfolding Of
drop-Of zero d s h = h
drop-Of (suc n) d [] h = tt
drop-Of (suc n) d (c ∷ s) h = drop-Of n d s h.2

pub last-Of : (d : Bool) (c : ℕ) (s : List ℕ) → Of d (c ∷ s) → is_digit (last (c ∷ s)) ≡ d
unfolding Of last
last-Of d c [] h = h.0
last-Of d c (x ∷ s) h =
    let long : suc (suc (length s)) - 1 ≡ suc (length s) = omega arith in
    let short : suc (length s) - 1 ≡ length s = omega arith in
    rw (long) (rw (short) at (last-Of d x s h.2))

pub last-Of_nonempty : (d : Bool) (w : List ℕ) → 1 ≤ length w → Of d w → is_digit (last w) ≡ d
last-Of_nonempty d [] l h = absurd (omega arith)
last-Of_nonempty d (c ∷ w) l h = last-Of d c w h

pub both : (a b : Bool) → (a && b) ≡ true → (a ≡ true) × (b ≡ true)
both true b h = (refl, h)
both false b h = absurd (cc h)

pub not-false : {b : Bool} → not b ≡ false → b ≡ true
not-false {b = true} h = refl
not-false {b = false} h = absurd (cc h)

-- The classes of a character, as the tests of a round tell them.
pub lower_class : (c : ℕ) → is_lower c ≡ true → (is_digit c ≡ false) × (is_alnum c ≡ true)
unfolding is_lower is_upper is_digit is_alnum
lower_class c h = (ground arith, ground arith)

pub upper_class : (c : ℕ) → is_upper c ≡ true → (is_digit c ≡ false) × (is_alnum c ≡ true)
unfolding is_lower is_upper is_digit is_alnum
upper_class c h = (ground arith, ground arith)

pub digit_class : (c : ℕ) → is_digit c ≡ true → is_alnum c ≡ true
unfolding is_lower is_upper is_digit is_alnum
digit_class c h = ground arith

pub underscore_class : (c : ℕ) → (c == 95) ≡ true → is_alnum c ≡ false
unfolding is_lower is_upper is_digit is_alnum
underscore_class c h = ground arith

pub other_class :
    (c : ℕ) → is_lower c ≡ false → is_upper c ≡ false → is_digit c ≡ false → is_alnum c ≡ false
unfolding is_alnum
other_class c l u d = rw (l, u, d) refl

pub same_digit : (c : ℕ) → is_digit (lower c) ≡ is_digit c
unfolding is_lower is_upper is_digit is_alnum lower
same_digit c = ground arith

pub same_alnum : (c : ℕ) → is_alnum (lower c) ≡ is_alnum c
unfolding is_lower is_upper is_digit is_alnum lower
same_alnum c = ground arith
