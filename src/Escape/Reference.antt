-- ===== src/Escape/Reference.antt =====
-- `jsonEscape` (rct/Rct.h) against the escape of each byte on its own.
use rct.Prelude.{
  ℕ, ◌+◌, ◌≡◌, refl, ap, ◌∙◌, Bool, true, false, List, [], ◌∷◌, ◌++◌, append_assoc, append-nil,
  none, some, if◌then◌else◌, ◌==◌, eq_false, ◌≢◌, Option-cases, inl, inr, length, length-append,
  take, take-append_eq, take_all, arith,
}
use rct.Escape.{escaped, put_text, escape_loop, json_escape}

unfoldable pub escape_byte : ℕ → List ℕ
escape_byte ch = elim (escaped ch) [ none ↦ ch ∷ [] | some text ↦ text ]

unfoldable pub escape_all : List ℕ → List ℕ
escape_all [] = []
escape_all (ch ∷ rest) = escape_byte ch ++ escape_all rest

pub escape_all-append : (xs ys : List ℕ) → escape_all (xs ++ ys) ≡ escape_all xs ++ escape_all ys
unfolding escape_all
escape_all-append [] ys = refl
escape_all-append (x ∷ xs) ys = rw (escape_all-append xs ys, append_assoc) refl

escape_one : (ch : ℕ) (text : List ℕ) → escaped ch ≡ some text → escape_all (ch ∷ []) ≡ text
unfolding escape_all escape_byte
escape_one ch text e = rw (e, escape_all, escape_byte) (append-nil text)

keep_one : (ch : ℕ) → escaped ch ≡ none → escape_all (ch ∷ []) ≡ ch ∷ []
unfolding escape_all escape_byte
keep_one ch e = rw (e, escape_all, escape_byte) refl

-- What has been put out before `rest`.
abbrev After : List ℕ → Bool → List ℕ → Type 0
After before true out = out ≡ 34 ∷ escape_all before
After before false out = (out ≡ 34 ∷ []) × (escape_all before ≡ before)

first :
    (before : List ℕ) (ch : ℕ) (rest : List ℕ)
    → (if length before == 0
        then 34 ∷ []
        else (34 ∷ []) ++ take (length before) (before ++ (ch ∷ rest)))
      ≡ 34 ∷ before
first [] ch rest = refl
first (x ∷ xs) ch rest =
    let more : length (x ∷ xs) ≢ 0 = omega arith in
    rw (eq_false more, take-append_eq (length (x ∷ xs)) (x ∷ xs) (ch ∷ rest) refl) refl

put_text-After :
    (before rest text out : List ℕ) (has : Bool) (ch : ℕ)
    → escaped ch ≡ some text
    → After before has out
    → After
        (before ++ (ch ∷ []))
        true
        (put_text (before ++ (ch ∷ rest)) (length before) text has out)
unfolding put_text escape_byte escape_all
put_text-After before rest text out true ch e h =
    rw (h, escape_all-append before (ch ∷ []), escape_one ch text e) refl
put_text-After before rest text out false ch e h =
    rw (h.0, first before ch rest, escape_all-append before (ch ∷ []), h.1, escape_one ch text e)
      refl

keep-After :
    (before out : List ℕ) (has : Bool) (ch : ℕ)
    → escaped ch ≡ none
    → After before has out
    → After (before ++ (ch ∷ [])) has (if has then out ++ (ch ∷ []) else out)
unfolding escape_byte escape_all
keep-After before out true ch e h = rw (h, escape_all-append before (ch ∷ []), keep_one ch e) refl
keep-After before out false ch e h =
    (h.0, rw (escape_all-append before (ch ∷ []), h.1, keep_one ch e) refl)

next :
    (before : List ℕ) (ch : ℕ) (rest : List ℕ)
    → before ++ (ch ∷ rest) ≡ (before ++ (ch ∷ [])) ++ rest
next before ch rest = rw (append_assoc) refl

next_length : (before : List ℕ) (ch : ℕ) → length before + 1 ≡ length (before ++ (ch ∷ []))
next_length before ch = omega (arith, length-append before (ch ∷ []))

escape_loop-escape_all :
    (str before rest out : List ℕ) (has : Bool)
    → str ≡ before ++ rest
    → After before has out
    → escape_loop str (length before) rest has out ≡ 34 ∷ escape_all str
unfolding escape_loop
escape_loop-escape_all str before [] out true s h = rw (s, append-nil before) h
escape_loop-escape_all str before [] out false s h =
    rw (s, append-nil before, h.0, take_all (length before) before (omega arith), h.1) refl
escape_loop-escape_all str before (ch ∷ rest) out has s h =
    let more : str ≡ (before ++ (ch ∷ [])) ++ rest = s ∙ next before ch rest in
    elim (Option-cases (escaped ch)) [
      | inl e ↦
          rw (e, escape_loop, next_length before ch)
            (escape_loop-escape_all str (before ++ (ch ∷ [])) rest _ has more
              (keep-After before out has ch e h))
      | inr (text, e) ↦
          rw (e, escape_loop, next_length before ch)
            (escape_loop-escape_all str (before ++ (ch ∷ [])) rest _ true more
              (rw (s) (put_text-After before rest text out has ch e h)))
    ]

-- A string is escaped byte by byte, between two quotes.
pub json_escape-escape_all : (str : List ℕ) → json_escape str ≡ (34 ∷ escape_all str) ++ (34 ∷ [])
unfolding json_escape escape_all
json_escape-escape_all str =
    ap (λ x. x ++ (34 ∷ [])) (escape_loop-escape_all str [] str (34 ∷ []) false refl (refl, refl))
