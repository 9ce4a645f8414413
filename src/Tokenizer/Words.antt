-- ===== src/Tokenizer/Words.antt =====
-- rct/StringTokenizer.h, break_parts_of_word: what the words of a name are.
use rct.Prelude.{
  ℕ, suc, ◌-◌, ◌≤◌, ◌<◌, ◌≡◌, inl, inr, refl, sym, ap, ◌∙◌, Bool, true, false, not, ◌&&◌, List, [],
  ◌∷◌, ◌++◌, append-nil, append_assoc, length, take, drop, take-append-drop, if◌then◌else◌, ltb,
  ◌==◌, eq_false, length-take, Bool-cases, arith, tests,
}
use mathlib.Core.Path.{subst}
use rct.String.Case.{
  is_lower, is_upper, is_digit, is_alnum, to_lower, to_lower-append, length-to_lower,
}
use rct.Tokenizer.{
  Parts, last, break_here, add, break_if, break_step, break_loop, lower_all, break_parts_of_word,
  strip,
}
use rct.Tokenizer.Classes.{
  flatten, Of, Words, flatten-append, append-Words, append-Of, take-Of, drop-Of, last-Of,
  last-Of_nonempty, both, not-false, lower_class, upper_class, digit_class, underscore_class,
  other_class, same_digit, same_alnum,
}

-- What the loop keeps, with the letters and digits that it has seen.
record Seen (s : List ℕ) (p : Parts) : Type 0 where
  kept : flatten p.0 ++ p.1 ≡ s
  words : Words p.0
  digit : Bool
  class : Of digit p.1

break_if-true :
    (ws : List (List ℕ)) (c : ℕ) (w : List ℕ) → break_if true (ws, c ∷ w) ≡ (ws ++ (c ∷ w) ∷ [], [])
unfolding break_if break_here
break_if-true ws c w = rw (eq_false {a = suc (length w)} {b = 0} (λ e. absurd (omega arith))) refl

break_if-false : (p : Parts) → break_if false p ≡ p
unfolding break_if
break_if-false p = elim (Bool-cases (length p.1 == 0)) [ inl e ↦ rw (e) refl | inr e ↦ rw (e) refl ]

break_if_nil : (b : Bool) (ws : List (List ℕ)) → break_if b (ws, []) ≡ (ws, [])
unfolding break_if
break_if_nil b ws = refl

-- The front of the buffer becomes a word.
cut-Seen :
    (s : List ℕ) (ws : List (List ℕ)) (v u : List ℕ) (digit : Bool)
    → 1 ≤ length v
    → Of digit v
    → Of digit u
    → Seen s (ws, v ++ u)
    → Seen s (ws ++ v ∷ [], u)
unfolding Words flatten Of
cut-Seen s ws v u digit l f k h = record {
  kept = rw (flatten-append ws (v ∷ []), append-nil v, append_assoc (flatten ws) v u) h.kept;
  words = append-Words ws (v ∷ []) h.words (l, (digit, f), tt);
  digit = digit;
  class = k;
}

break_if-Seen : (b : Bool) (s : List ℕ) (p : Parts) → Seen s p → Seen s (break_if b p)
unfolding Of
break_if-Seen b s (ws, []) h = rw (break_if_nil b ws) h
break_if-Seen true s (ws, c ∷ w) h =
    rw (break_if-true ws c w)
      (cut-Seen s ws (c ∷ w) [] h.digit (omega arith) h.class tt (rw (append-nil (c ∷ w)) h))
break_if-Seen false s p h = rw (break_if-false p) h

-- After a break the word in the buffer is empty or of the class `d` of the next character.
break_if-Of :
    (d b : Bool) (s : List ℕ) (p : Parts)
    → Seen s p
    → (b ≡ false → is_digit (last p.1) ≡ d)
    → Of d (break_if b p).1
unfolding Of
break_if-Of d b s (ws, []) h k = rw (break_if_nil b ws) tt
break_if-Of d true s (ws, c ∷ w) h k = rw (break_if-true ws c w) tt
break_if-Of d false s (ws, c ∷ w) h k =
    let same : h.digit ≡ d = sym (last-Of h.digit c w h.class) ∙ k refl in
    rw (break_if-false (ws, c ∷ w)) (subst (λ e. Of e (c ∷ w)) same h.class)

add-Seen :
    (s : List ℕ) (c : ℕ) (p : Parts)
    → is_alnum c ≡ true
    → Seen s p
    → Of (is_digit c) p.1
    → Seen (s ++ c ∷ []) (add c p)
unfolding add Of
add-Seen s c p a h k = record {
  kept = rw (← h.kept, append_assoc (flatten p.0) p.1 (c ∷ [])) refl;
  words = h.words;
  digit = is_digit c;
  class = append-Of (is_digit c) p.1 (c ∷ []) k (refl, a, tt);
}

-- The break before the last capital: "XML|Do".
camel-Seen :
    (s : List ℕ) (ws : List (List ℕ)) (w : List ℕ)
    → 1 < length w
    → Seen s (ws, w)
    → Seen s (ws ++ take (length w - 1) w ∷ [], drop (length w - 1) w)
camel-Seen s ws w l h =
    let n = length w - 1 in
    cut-Seen s ws (take n w) (drop n w) h.digit (omega (arith, length-take n w))
      (take-Of n h.digit w h.class) (drop-Of n h.digit w h.class) (rw (take-append-drop n w) h)

if_break-Seen :
    (s : List ℕ) (c : ℕ) (b : Bool) (p : Parts)
    → is_alnum c ≡ true
    → (b ≡ false → is_digit (last p.1) ≡ is_digit c)
    → Seen s p
    → Seen (s ++ c ∷ []) (add c (break_if b p))
if_break-Seen s c b p a k h =
    add-Seen s c (break_if b p) a (break_if-Seen b s p h) (break_if-Of (is_digit c) b s p h k)

camel_break-Seen :
    (s : List ℕ) (c : ℕ) (ws : List (List ℕ)) (w : List ℕ)
    → is_lower c ≡ true
    → (ltb 1 (length w) && is_upper (last w)) ≡ true
    → Seen s (ws, w)
    → Seen (s ++ c ∷ []) (add c (ws ++ take (length w - 1) w ∷ [], drop (length w - 1) w))
camel_break-Seen s c ws w l k h =
    let (long, capital) = both (ltb 1 (length w)) (is_upper (last w)) k in
    let size : 1 < length w = omega (tests, long) in
    let last_class = last-Of_nonempty h.digit w (omega arith) h.class in
    let same : h.digit ≡ is_digit c =
      sym last_class ∙ ((upper_class (last w) capital).0 ∙ sym (lower_class c l).0) in
    add-Seen s c _ (lower_class c l).1 (camel-Seen s ws w size h)
      (drop-Of (length w - 1) (is_digit c) w (subst (λ e. Of e w) same h.class))

break_step-Seen :
    (c : ℕ) (s : List ℕ) (p : Parts)
    → Seen s p
    → Seen (if is_alnum c then s ++ c ∷ [] else s) (break_step c p)
unfolding break_step
break_step-Seen c s p h = elim (Bool-cases (c == 95)) [
  | inl underscore ↦ rw (underscore, underscore_class c underscore) (break_if-Seen true s p h)
  | inr other ↦ elim (Bool-cases (is_lower c)) [
    | inl low ↦ elim (Bool-cases (ltb 1 (length p.1) && is_upper (last p.1))) [
      | inl camel ↦
          rw (other, low, camel, (lower_class c low).1) (camel_break-Seen s c p.0 p.1 low camel h)
      | inr single ↦
          rw (other, low, single, (lower_class c low).1)
            (if_break-Seen s c (is_digit (last p.1)) p (lower_class c low).1
              (λ e. e ∙ sym (lower_class c low).0) h)
    ]
    | inr high ↦ elim (Bool-cases (is_upper c)) [
      | inl capital ↦
          rw (other, high, capital, (upper_class c capital).1)
            (if_break-Seen s c (not (is_upper (last p.1))) p (upper_class c capital).1
              (λ e. (upper_class (last p.1) (not-false e)).0 ∙ sym (upper_class c capital).0) h)
      | inr no_letter ↦ elim (Bool-cases (is_digit c)) [
        | inl digit ↦
            rw (other, high, no_letter, digit, digit_class c digit)
              (if_break-Seen s c (not (is_digit (last p.1))) p (digit_class c digit)
                (λ e. not-false e ∙ sym digit) h)
        | inr neither ↦ rw (other, high, no_letter, neither, other_class c high no_letter neither) h
      ]
    ]
  ]
]

nothing-Seen : Seen [] ([], [])
unfolding flatten Words Of
nothing-Seen = record { kept = refl; words = tt; digit = true; class = tt }

break_loop-Seen : (str s : List ℕ) (p : Parts) → Seen s p → Seen (s ++ strip str) (break_loop str p)
unfolding break_loop strip
break_loop-Seen [] s p h = rw (append-nil s) h
break_loop-Seen (c ∷ str) s p h =
    let next = break_step-Seen c s p h in
    elim (Bool-cases (is_alnum c)) [
      | inl a ↦
          rw (a, ← append_assoc s (c ∷ []) (strip str))
            (break_loop-Seen str (s ++ c ∷ []) _ (rw (a) at next))
      | inr a ↦ rw (a) (break_loop-Seen str s _ (rw (a) at next))
    ]

lower_all-flatten : (ws : List (List ℕ)) → flatten (lower_all ws) ≡ to_lower (flatten ws)
unfolding lower_all flatten to_lower
lower_all-flatten [] = refl
lower_all-flatten (w ∷ ws) = rw (lower_all-flatten ws) (sym (to_lower-append w (flatten ws)))

lower_Of : (d : Bool) (w : List ℕ) → Of d w → Of d (to_lower w)
unfolding Of to_lower
lower_Of d [] h = tt
lower_Of d (c ∷ w) h = (same_digit c ∙ h.0, same_alnum c ∙ h.1, lower_Of d w h.2)

lower_all-Words : (ws : List (List ℕ)) → Words ws → Words (lower_all ws)
unfolding lower_all Words
lower_all-Words [] h = tt
lower_all-Words (w ∷ ws) h =
    (rw (length-to_lower w) h.0, (h.1.0, lower_Of h.1.0 w h.1.1), lower_all-Words ws h.2)

break_if-nothing_left : (p : Parts) → (break_if true p).1 ≡ []
break_if-nothing_left (ws, []) = rw (break_if_nil true ws) refl
break_if-nothing_left (ws, c ∷ w) = rw (break_if-true ws c w) refl

-- Each word of a name is of letters only or of digits only and is not empty, and the words one
-- after the other are the letters and digits of the name, in lower case.
pub break_parts_of_word-strip :
    (str : List ℕ)
    → Words (break_parts_of_word str) × (flatten (break_parts_of_word str) ≡ to_lower (strip str))
unfolding break_parts_of_word
break_parts_of_word-strip str =
    let p = break_loop str ([], []) in
    let h = break_if-Seen true (strip str) p (break_loop-Seen str [] ([], []) nothing-Seen) in
    let whole : flatten (break_if true p).0 ≡ strip str =
      sym (append-nil (flatten (break_if true p).0))
      ∙ (ap (λ w. flatten (break_if true p).0 ++ w) (sym (break_if-nothing_left p)) ∙ h.kept) in
    (
      lower_all-Words (break_if true p).0 h.words,
      lower_all-flatten (break_if true p).0 ∙ ap to_lower whole,
    )
