-- ===== src/Escape/Reader.antt =====
-- The text of a JSON string, as `jsonEscape` (rct/Rct.h) writes it, read back.
use rct.Prelude.{
  ℕ, zero, suc, ◌+◌, ◌-◌, ◌*◌, ◌<◌, ◌≡◌, refl, ap, ◌∙◌, Bool, true, false, List, [], ◌∷◌, ◌++◌,
  append_assoc, Option, none, some, and_then, and_then-eq-some, if◌then◌else◌, ltb, ◌&&◌, ◌==◌,
  eq_of, Bool-cases, inl, inr, arith,
}
use rct.Escape.{hex_digit, hex_text, promoted, unicode, is_low, escaped, json_escape}
use rct.Escape.Reference.{escape_byte, escape_all, json_escape-escape_all}

-- Between characters, behind a backslash, or before `left + 1` more digits of a number.
pub data State : Type 0 where
  plain : State
  behind : State
  digits : ℕ → ℕ → State

pub data Next : Type 0 where
  ended : Next
  failed : Next
  goes : State → List ℕ → Next

abbrev pub digit_value : ℕ → ℕ
digit_value ch = if ltb ch 58 then ch - 48 else ch - 87

-- RFC 8259, section 7, for characters below 256.
unfoldable pub step : State → ℕ → Next
step plain ch =
    if ch == 34
    then ended
    else if ch == 92
    then goes behind []
    else if ltb ch 32
    then failed
    else goes plain (ch ∷ [])
step behind ch =
    if ch == 34
    then goes plain (34 ∷ [])
    else if ch == 92
    then goes plain (92 ∷ [])
    else if ch == 98
    then goes plain (8 ∷ [])
    else if ch == 102
    then goes plain (12 ∷ [])
    else if ch == 110
    then goes plain (10 ∷ [])
    else if ch == 114
    then goes plain (13 ∷ [])
    else if ch == 116
    then goes plain (9 ∷ [])
    else if ch == 117
    then goes (digits 3 0) []
    else failed
step (digits zero n) ch = goes plain ((n * 16 + digit_value ch) ∷ [])
step (digits (suc left) n) ch = goes (digits left (n * 16 + digit_value ch)) []

abbrev pub behind_text : List ℕ → Option (List ℕ × List ℕ) → Option (List ℕ × List ℕ)
behind_text out none = none
behind_text out (some r) = some (out ++ r.0, r.1)

-- The string and what stands behind its quote.
unfoldable pub read : State → List ℕ → Option (List ℕ × List ℕ)
read st [] = none
read st (ch ∷ rest) = elim (step st ch) [
  | ended ↦ some ([], rest)
  | failed ↦ none
  | goes st' out ↦ behind_text out (read st' rest)
]

unfoldable pub read_json : List ℕ → Option (List ℕ × List ℕ)
read_json [] = none
read_json (ch ∷ rest) = if ch == 34 then read plain rest else none

-- All of a text that does not end the string: the state behind it and what it stands for.
unfoldable reads : State → List ℕ → Option (State × List ℕ)
reads st [] = some (st, [])
reads st (ch ∷ rest) = elim (step st ch) [
  | ended ↦ none
  | failed ↦ none
  | goes st' out ↦ and_then (reads st' rest) (λ r. some (r.0, out ++ r.1))
]

behind_nothing : (o : Option (List ℕ × List ℕ)) → o ≡ behind_text [] o
behind_nothing none = refl
behind_nothing (some r) = refl

joined :
    (o : Option (List ℕ × List ℕ)) (first second : List ℕ)
    → behind_text first (behind_text second o) ≡ behind_text (first ++ second) o
joined none first second = refl
joined (some r) first second = rw (append_assoc) refl

read-reads :
    (st : State) (text rest : List ℕ) (st' : State) (out : List ℕ)
    → reads st text ≡ some (st', out)
    → read st (text ++ rest) ≡ behind_text out (read st' rest)
unfolding read reads
read-reads st [] rest st' out h =
    let e : st ≡ st' = cc h in
    let f : [] ≡ out = cc h in rw (← e, ← f) (behind_nothing (read st rest))
read-reads st (ch ∷ text) rest st' out h =
    one (step st ch) refl (λ mid first. read-reads mid text rest first)
  where
    one :
        (n : Next)
        → step st ch ≡ n
        → ((mid last : State) (more : List ℕ)
            → reads mid text ≡ some (last, more)
            → read mid (text ++ rest) ≡ behind_text more (read last rest))
        → read st ((ch ∷ text) ++ rest) ≡ behind_text out (read st' rest)
    one ended e ih = absurd (cc (rw (e, reads) at h))
    one failed e ih = absurd (cc (rw (e, reads) at h))
    one (goes mid first) e ih =
        let (r, got, more) = and_then-eq-some (reads mid text) _ (rw (e, reads) at h) in
        let same : r.0 ≡ st' = cc more in
        let whole : first ++ r.1 ≡ out = cc more in
        rw (e, read, ih mid r.0 r.1 got, ← same, ← whole) (joined (read r.0 rest) first r.1)

-- A test of all numbers below `n`.
pub and_left : (a b : Bool) → a && b ≡ true → a ≡ true
and_left a b h = ground arith

pub and_right : (a b : Bool) → a && b ≡ true → b ≡ true
and_right a b h = ground arith

unfoldable pub all_below : ℕ → (ℕ → Bool) → Bool
all_below zero p = true
all_below (suc n) p = p n && all_below n p

pub all_below-lt : (n : ℕ) (p : ℕ → Bool) (k : ℕ) → all_below n p ≡ true → k < n → p k ≡ true
unfolding all_below
all_below-lt zero p k h lt = absurd (omega (arith, lt))
all_below-lt (suc n) p k h lt = elim (Bool-cases (k == n)) [
  | inl e ↦ let here : p n ≡ true = and_left (p n) _ h in rw (eq_of k n e) here
  | inr e ↦ all_below-lt n p k (and_right (p n) _ h) (ground (arith, lt, e))
]

stands_for : Option (State × List ℕ) → ℕ → Bool
stands_for none ch = false
stands_for (some (plain, [])) ch = false
stands_for (some (plain, c ∷ [])) ch = c == ch
stands_for (some (plain, c ∷ d ∷ rest)) ch = false
stands_for (some (behind, out)) ch = false
stands_for (some (digits left n, out)) ch = false

stands_for_lem :
    (o : Option (State × List ℕ)) (ch : ℕ) → stands_for o ch ≡ true → o ≡ some (plain, ch ∷ [])
unfolding stands_for
stands_for_lem none ch h = absurd (cc h)
stands_for_lem (some (plain, [])) ch h = absurd (cc h)
stands_for_lem (some (plain, c ∷ [])) ch h = ap (λ x. some (plain, x ∷ [])) (eq_of c ch h)
stands_for_lem (some (plain, c ∷ d ∷ rest)) ch h = absurd (cc h)
stands_for_lem (some (behind, out)) ch h = absurd (cc h)
stands_for_lem (some (digits left n, out)) ch h = absurd (cc h)

stands_for_all : all_below 128 (λ ch. stands_for (reads plain (escape_byte ch)) ch) ≡ true
unfolding stands_for all_below reads step escape_byte escaped is_low unicode hex_text hex_digit
    promoted
stands_for_all = refl

reads-escape_byte : (ch : ℕ) → ch < 128 → reads plain (escape_byte ch) ≡ some (plain, ch ∷ [])
reads-escape_byte ch h =
    stands_for_lem (reads plain (escape_byte ch)) ch
      (all_below-lt 128 (λ ch. stands_for (reads plain (escape_byte ch)) ch) ch stands_for_all h)

abbrev pub IsAscii : List ℕ → Type 0
IsAscii [] = Unit
IsAscii (ch ∷ rest) = (ch < 128) × IsAscii rest

read-escape_all :
    (str rest : List ℕ)
    → IsAscii str
    → read plain (escape_all str ++ (34 ∷ rest)) ≡ some (str, rest)
unfolding escape_all read step
read-escape_all [] rest h = refl
read-escape_all (ch ∷ str) rest h = rw (append_assoc) (
    read-reads plain (escape_byte ch) _ plain (ch ∷ []) (reads-escape_byte ch h.0)
    ∙ rw (read-escape_all str rest h.1) refl)

-- A JSON reader gets a string of ASCII characters back from its escaped text.
pub read_json-json_escape :
    (str rest : List ℕ) → IsAscii str → read_json (json_escape str ++ rest) ≡ some (str, rest)
unfolding read_json
read_json-json_escape str rest h =
    rw (json_escape-escape_all str, append_assoc) (read-escape_all str rest h)
