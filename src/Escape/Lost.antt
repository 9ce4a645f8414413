-- ===== src/Escape/Lost.antt =====
-- What `jsonEscape` (rct/Rct.h) loses.
use rct.Prelude.{
  ℕ, ◌+◌, ◌-◌, ◌<◌, ◌≤◌, ◌≡◌, refl, ap₂, Bool, true, false, List, [], ◌∷◌, ◌++◌, ◌&&◌, ◌==◌, eq_of,
  arith,
}
use rct.Escape.{hex_digit, hex_text, promoted, unicode, is_low, escaped, json_escape}
use rct.Escape.Reference.{escape_byte, escape_all, escape_all-append, json_escape-escape_all}
use rct.Escape.Reader.{and_left, and_right, all_below, all_below-lt}

same : List ℕ → List ℕ → Bool
same [] [] = true
same [] (b ∷ bs) = false
same (a ∷ cs) [] = false
same (a ∷ cs) (b ∷ bs) = a == b && same cs bs

same_lem : (cs bs : List ℕ) → same cs bs ≡ true → cs ≡ bs
unfolding same
same_lem [] [] h = refl
same_lem [] (b ∷ bs) h = absurd (cc h)
same_lem (a ∷ cs) [] h = absurd (cc h)
same_lem (a ∷ cs) (b ∷ bs) h =
    ap₂ (λ x xs. x ∷ xs) (eq_of a b (and_left _ _ h)) (same_lem cs bs (and_right (a == b) _ h))

-- "\uffff"
abbrev lost : List ℕ
lost = 92 ∷ 117 ∷ 102 ∷ 102 ∷ 102 ∷ 102 ∷ []

lost_all : all_below 128 (λ k. same (escape_byte (128 + k)) lost) ≡ true
unfolding all_below same escape_byte escaped is_low unicode hex_text hex_digit promoted
lost_all = refl

escape_byte-lost : (ch : ℕ) → 128 ≤ ch → ch < 256 → escape_byte ch ≡ lost
escape_byte-lost ch h lt =
    let k : 128 + (ch - 128) ≡ ch = omega arith in
    rw (← k) (
      same_lem (escape_byte (128 + (ch - 128))) lost (
        all_below-lt 128 (λ k. same (escape_byte (128 + k)) lost) (ch - 128) lost_all
          (omega (arith, h, lt))))

escape_all-lost :
    (before rest : List ℕ) (ch : ℕ)
    → 128 ≤ ch
    → ch < 256
    → escape_all (before ++ (ch ∷ rest)) ≡ escape_all before ++ (lost ++ escape_all rest)
unfolding escape_all
escape_all-lost before rest ch h lt =
    rw (escape_all-append before (ch ∷ rest), escape_byte-lost ch h lt) refl

-- Every byte from 128 on is escaped as "\uffff": what it was is lost.
json_escape-not_ascii :
    (a b : ℕ) (before rest : List ℕ)
    → 128 ≤ a
    → 128 ≤ b
    → a < 256
    → b < 256
    → json_escape (before ++ (a ∷ rest)) ≡ json_escape (before ++ (b ∷ rest))
json_escape-not_ascii a b before rest ha hb la lb =
    rw
      (
        json_escape-escape_all (before ++ (a ∷ rest)),
        json_escape-escape_all (before ++ (b ∷ rest)),
        escape_all-lost before rest a ha la,
        escape_all-lost before rest b hb lb,
      )
      refl
