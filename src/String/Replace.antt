-- ===== src/String/Replace.antt =====
-- `replace` of a text (rct/String.h) against a description by structural recursion.
use rct.Prelude.{
  ℕ, zero, suc, ◌+◌, ◌-◌, ◌<◌, ◌≡◌, refl, sym, ap, ap₂, ◌∙◌, true, false, List, [], ◌∷◌, ◌++◌,
  append_assoc, some, if◌then◌else◌, ◌==◌, length, length-append, drop, drop-append_eq,
  take-append_eq, Bool-cases, ◌⊎◌, inl, inr, arith, eq_false, eq_of,
}
use rct.Prelude.Words.{npos}
use rct.String.{find, index_of}
use rct.String.Search.{is_prefix, find_text, index_of_text, replace_at, replace_loop, replace}

-- From left to right: where the text stands it is replaced, and its bytes are skipped.
unfoldable pub replaced : List ℕ → List ℕ → ℕ → List ℕ → ℕ × List ℕ
replaced text to skip [] = (0, [])
replaced text to (suc skip) (c ∷ cs) = replaced text to skip cs
replaced text to zero (c ∷ cs) =
    let here = replaced text to (length text - 1) cs in
    let there = replaced text to 0 cs in
    if is_prefix text (c ∷ cs) then (suc here.0, to ++ here.1) else (there.0, c ∷ there.1)

-- The first place of the text, if there is one.
record Found (a : ℕ) (text to : List ℕ) (from : ℕ) (s : List ℕ) : Type 0 where
  before : List ℕ
  after : List ℕ
  parts : s ≡ before ++ ((a ∷ text) ++ after)
  place : find_text (a ∷ text) from s ≡ from + length before
  first : replaced (a ∷ text) to 0 s ≡ (
    suc (replaced (a ∷ text) to 0 after).0,
    before ++ (to ++ (replaced (a ∷ text) to 0 after).1),
  )

replaced-skip :
    (text to : List ℕ) (skip : ℕ) (s : List ℕ)
    → replaced text to skip s ≡ replaced text to 0 (drop skip s)
unfolding replaced
replaced-skip text to zero s = refl
replaced-skip text to (suc skip) [] = refl
replaced-skip text to (suc skip) (c ∷ cs) = replaced-skip text to skip cs

is_prefix-parts : (text s : List ℕ) → is_prefix text s ≡ true → s ≡ text ++ drop (length text) s
unfolding is_prefix
is_prefix-parts [] s h = refl
is_prefix-parts (a ∷ text) [] h = absurd (cc h)
is_prefix-parts (a ∷ text) (c ∷ s) h =
    let first : (a == c) ≡ true = ground arith in
    let others : is_prefix text s ≡ true = ground arith in
    ap₂ (λ x xs. x ∷ xs) (sym (eq_of a c first)) (is_prefix-parts text s others)

find_text-cases :
    (a : ℕ) (text to : List ℕ) (from : ℕ) (s : List ℕ)
    → ((find_text (a ∷ text) from s ≡ npos) × (replaced (a ∷ text) to 0 s ≡ (0, s)))
      ⊎ Found a text to from s
unfolding find_text replaced
find_text-cases a text to from [] = inl (refl, refl)
find_text-cases a text to from (c ∷ cs) = elim (Bool-cases (is_prefix (a ∷ text) (c ∷ cs))) [
  | inl t ↦ inr (record {
    before = [];
    after = drop (length text) cs;
    parts = is_prefix-parts (a ∷ text) (c ∷ cs) t;
    place = rw (t) (omega arith);
    first =
        let size : suc (length text) - 1 ≡ length text = omega arith in
        rw (t, size, replaced-skip (a ∷ text) to (length text) cs) refl;
  })
  | inr t ↦ elim (find_text-cases a text to (from + 1) cs) [
    | inl h ↦ inl (rw (t, h.1) ((h.0, refl)))
    | inr h ↦ inr (record {
      before = c ∷ h.before;
      after = h.after;
      parts = ap (λ x. c ∷ x) h.parts;
      place = rw (t) (omega (arith, h.place));
      first = rw (t) (ap (λ r. (r.0, c ∷ r.1)) h.first);
    })
  ]
]

find_text_one : (a from : ℕ) (s : List ℕ) → find_text (a ∷ []) from s ≡ find a from s
unfolding find_text find is_prefix
find_text_one a from [] = refl
find_text_one a from (c ∷ cs) = let ih = find_text_one a (from + 1) cs in ground arith

index_of_text-find_text :
    (s : List ℕ) (a : ℕ) (text : List ℕ) (from : ℕ)
    → index_of_text s (a ∷ text) from ≡ find_text (a ∷ text) from (drop from s)
unfolding index_of_text index_of
index_of_text-find_text s a [] from = sym (find_text_one a from (drop from s))
index_of_text-find_text s a (b ∷ text) from = refl

length-append3 :
    (xs ys zs : List ℕ) → length (xs ++ (ys ++ zs)) ≡ length xs + (length ys + length zs)
length-append3 xs ys zs = omega (arith, length-append xs (ys ++ zs), length-append ys zs)

-- The text at the place that was found, replaced.
replace_at-parts :
    (done before text after to : List ℕ)
    → replace_at
        (done ++ (before ++ (text ++ after)))
        (length done + length before)
        (length text)
        to
      ≡ (done ++ (before ++ to)) ++ after
unfolding replace_at
replace_at-parts done before text after to =
    let front : done ++ (before ++ (text ++ after)) ≡ (done ++ before) ++ (text ++ after) =
      sym (append_assoc done before (text ++ after)) in
    let all : (done ++ before) ++ (text ++ after) ≡ ((done ++ before) ++ text) ++ after =
      sym (append_assoc (done ++ before) text after) in
    let size = length-append done before in
    let more = length-append (done ++ before) text in
    rw
      (
        front,
        take-append_eq (length done + length before) (done ++ before) (text ++ after) (omega arith),
        all,
        drop-append_eq (length done + length before + length text) ((done ++ before) ++ text) after
            (omega arith),
      )
      (sym (append_assoc (done ++ before) to after)
        ∙ ap (λ x. x ++ after) (append_assoc done before to))

replace_loop-replaced :
    (fuel a : ℕ) (text to done rest : List ℕ) (ret : ℕ)
    → length rest < fuel
    → length done + length (replaced (a ∷ text) to 0 rest).1 + length rest < npos
    → replace_loop fuel (a ∷ text) to (done ++ rest) (length done) ret
      ≡ some (ret + (replaced (a ∷ text) to 0 rest).0, done ++ (replaced (a ∷ text) to 0 rest).1)
unfolding replace_loop
replace_loop-replaced zero a text to done rest ret h k = absurd (omega arith)
replace_loop-replaced (suc fuel) a text to done rest ret h' k =
    let s = done ++ rest in
    let look : index_of_text s (a ∷ text) (length done) ≡ find_text (a ∷ text) (length done) rest =
      index_of_text-find_text s a text (length done)
      ∙ ap (find_text (a ∷ text) (length done)) (drop-append_eq (length done) done rest refl) in
    elim (find_text-cases a text to (length done) rest) [
      | inl h ↦ let same : ret + 0 ≡ ret = omega arith in rw (look, h.0, h.1, same) refl
      | inr h ↦
          let before = h.before in
          let after = h.after in
          let there = done ++ (before ++ to) in
          let again = replaced (a ∷ text) to 0 after in
          let next : index_of_text s (a ∷ text) (length done) ≡ length done + length before =
            look ∙ h.place in
          let cut : replace_at s (length done + length before) (suc (length text)) to
              ≡ there ++ after =
            ap (λ r. replace_at (done ++ r) (length done + length before) (suc (length text)) to)
              h.parts
            ∙ replace_at-parts done before (a ∷ text) after to in
          let l_rest : length rest ≡ length before + (suc (length text) + length after) =
            ap length h.parts ∙ length-append3 before (a ∷ text) after in
          let l_result : length (replaced (a ∷ text) to 0 rest).1
              ≡ length before + (length to + length again.1) =
            ap (λ r. length r.1) h.first ∙ length-append3 before to again.1 in
          let l_there : length done + length before + length to ≡ length there =
            sym (omega (arith, length-append3 done before to)) in
          let found : (length done + length before == npos) ≡ false =
            eq_false (λ e. absurd (omega (arith, e, k, l_rest))) in
          let ih =
            replace_loop-replaced fuel a text to there after (ret + 1) (omega (arith, h', l_rest))
              (omega (arith, k, l_rest, l_result, l_there)) in
          rw (next, found, cut, l_there, ih, h.first)
            (ap₂ (λ n xs. some (n, xs)) (omega arith)
              (append_assoc done (before ++ to) again.1
                ∙ ap (λ xs. done ++ xs) (append_assoc before to again.1)))
    ]

-- replace goes from left to right, replaces every place of the text that is met and goes on behind
-- what it has put there, and returns how many it has replaced; an empty text is nowhere. It ends, if what
-- there was and what comes out are together shorter than 2^64 - 1 bytes.
pub replace-replaced :
    (s : List ℕ) (a : ℕ) (text to : List ℕ)
    → length s + length (replaced (a ∷ text) to 0 s).1 < npos
    → (replace s (a ∷ text) to ≡ some (replaced (a ∷ text) to 0 s))
      × (replace s [] to ≡ some (0, s))
unfolding replace replace_loop index_of_text
replace-replaced s a text to h = (
  replace_loop-replaced (suc (length s)) a text to [] s 0 (omega arith) (omega (arith, h))
      ∙ ap (λ n. some (n, (replaced (a ∷ text) to 0 s).1)) (omega arith),
  refl,
)
