-- ===== src/String/Split.antt =====
-- `split` and `join` (rct/String.h) against a description by structural recursion.
use rct.Prelude.{
  ℕ, zero, suc, ◌+◌, ◌-◌, ◌<◌, ◌≡◌, refl, sym, ap, ◌∙◌, Bool, true, false, List, [], ◌∷◌, ◌++◌,
  append_assoc, some, if◌then◌else◌, ◌==◌, length, length-append, drop, drop-append_eq, Bool-cases,
  ◌⊎◌, inl, inr, arith, eq_false, eq_of, ltb-true,
}
use rct.Prelude.Words.{npos}
use rct.String.{find, index_of, split_last, split_piece, split_loop, split}
use rct.String.Mid.{not_below, mid_piece, mid_kept, mid_end}

-- The pieces between the separators: the first one and the others.
unfoldable pub fields : ℕ → List ℕ → List ℕ × List (List ℕ)
fields ch [] = ([], [])
fields ch (c ∷ cs) = let f = fields ch cs in if c == ch then ([], f.0 ∷ f.1) else (c ∷ f.0, f.1)

-- What the flags leave of them: `SkipEmpty` drops the empty ones, `KeepSeparators` ends every
-- piece that a separator followed with it.
unfoldable pub render : ℕ → Bool → Bool → List ℕ → List (List ℕ) → List (List ℕ)
render ch skip keep [] [] = if skip then [] else [] ∷ []
render ch skip keep (a ∷ rest) [] = (a ∷ rest) ∷ []
render ch skip keep [] (b ∷ bs) =
    let others = render ch skip keep b bs in
    if skip then others else (if keep then ch ∷ [] else []) ∷ others
render ch skip keep (a ∷ rest) (b ∷ bs) =
    (if keep then a ∷ rest ++ ch ∷ [] else a ∷ rest) ∷ render ch skip keep b bs

-- The first separator, if there is one.
record Found (ch from : ℕ) (s : List ℕ) : Type 0 where
  before : List ℕ
  after : List ℕ
  parts : s ≡ before ++ ch ∷ after
  place : find ch from s ≡ from + length before
  first : fields ch s ≡ (before, (fields ch after).0 ∷ (fields ch after).1)

find-cases :
    (ch from : ℕ) (s : List ℕ)
    → ((find ch from s ≡ npos) × (fields ch s ≡ (s, []))) ⊎ Found ch from s
unfolding find fields
find-cases ch from [] = inl (refl, refl)
find-cases ch from (c ∷ cs) = elim (Bool-cases (c == ch)) [
  | inl t ↦ inr (record {
    before = [];
    after = cs;
    parts = ap (λ x. x ∷ cs) (eq_of c ch t);
    place = rw (t) (omega arith);
    first = rw (t) refl;
  })
  | inr t ↦ elim (find-cases ch (from + 1) cs) [
    | inl h ↦ inl (rw (t, h.1) ((h.0, refl)))
    | inr h ↦ inr (record {
      before = c ∷ h.before;
      after = h.after;
      parts = ap (◌∷◌ c) h.parts;
      place = rw (t) (omega (arith, h.place));
      first = rw (t) (ap (λ f. (c ∷ f.0, f.1)) h.first);
    })
  ]
]

-- How `split` ends, and what it puts in front of the rest, as `render` does.
split_last-render :
    (pre rest : List ℕ) (ch : ℕ) (skip keep : Bool)
    → length (pre ++ rest) < npos
    → split_last (pre ++ rest) skip (length pre) ≡ some (render ch skip keep rest [])
unfolding split_last render
split_last-render pre [] ch true keep h =
    rw (not_below (length (pre ++ [])) (length pre) (omega (arith, length-append pre []))) refl
split_last-render pre [] ch false keep h =
    rw
      (
        not_below (length (pre ++ [])) (length pre) (omega (arith, length-append pre [])),
        mid_end pre [] h,
      )
      refl
split_last-render pre (c ∷ rest) ch skip keep h =
    let some_left : length pre < length (pre ++ c ∷ rest) =
      omega (arith, length-append pre (c ∷ rest)) in
    rw (ltb-true some_left, mid_end pre (c ∷ rest) h) refl

longer : (pre a : List ℕ) → length pre < length pre + suc (length a)
longer pre a = omega arith

split_piece-render :
    (pre a after : List ℕ) (ch : ℕ) (skip keep : Bool) (b : List ℕ) (bs : List (List ℕ))
    → length (pre ++ (a ++ ch ∷ after)) < npos
    → split_piece
        (pre ++ (a ++ ch ∷ after))
        skip
        (if keep then 1 else 0)
        (length pre)
        (length pre + length a)
        (render ch skip keep b bs)
      ≡ some (render ch skip keep a (b ∷ bs))
unfolding split_piece render
split_piece-render pre [] after ch true keep b bs h =
    rw (not_below (length pre + 0) (length pre) (omega arith)) refl
split_piece-render pre [] after ch false true b bs h =
    rw
      (
        not_below (length pre + 0) (length pre) (omega arith),
        mid_piece pre (ch ∷ []) after (length pre + 0 - length pre + 1) (omega arith) h,
      )
      refl
split_piece-render pre [] after ch false false b bs h =
    rw
      (
        not_below (length pre + 0) (length pre) (omega arith),
        mid_piece pre [] (ch ∷ after) (length pre + 0 - length pre + 0) (omega arith) h,
      )
      refl
split_piece-render pre (x ∷ a) after ch skip true b bs h =
    rw
      (
        ltb-true (longer pre a),
        mid_kept pre (x ∷ a) after ch (length pre + suc (length a) - length pre + 1) (omega arith)
            h,
      )
      refl
split_piece-render pre (x ∷ a) after ch skip false b bs h =
    rw
      (
        ltb-true (longer pre a),
        mid_piece pre (x ∷ a) (ch ∷ after) (length pre + suc (length a) - length pre + 0)
            (omega arith) h,
      )
      refl

regroup :
    (pre a after : List ℕ) (ch : ℕ) → pre ++ (a ++ ch ∷ after) ≡ (pre ++ (a ++ ch ∷ [])) ++ after
regroup pre a after ch =
    ap (λ r. pre ++ r) (sym (append_assoc a (ch ∷ []) after))
    ∙ sym (append_assoc pre (a ++ ch ∷ []) after)

length-kept : (pre a : List ℕ) (ch : ℕ) → length pre + length a + 1 ≡ length (pre ++ (a ++ ch ∷ []))
length-kept pre a ch = omega (arith, length-append pre (a ++ ch ∷ []), length-append a (ch ∷ []))

-- The loop renders the fields of what is left.
split_loop-render :
    (fuel : ℕ) (s : List ℕ) (prev : ℕ) (pre rest : List ℕ) (ch : ℕ) (skip keep : Bool)
    → s ≡ pre ++ rest
    → prev ≡ length pre
    → length rest < fuel
    → length s < npos
    → split_loop fuel s ch skip (if keep then 1 else 0) prev
      ≡ some (render ch skip keep (fields ch rest).0 (fields ch rest).1)
unfolding split_loop index_of
split_loop-render zero s prev pre rest ch skip keep e q h k = ground arith
split_loop-render (suc fuel) s prev pre rest ch skip keep e q h k =
    elim (find-cases ch (length pre) rest) [
      | inl f ↦
          rw (e, q, drop-append_eq (length pre) pre rest refl, f.0, f.1)
            (split_last-render pre rest ch skip keep (rw (← e) k))
      | inr f ↦
          let next : ℕ = length pre + length f.before in
          let whole : s ≡ pre ++ (f.before ++ ch ∷ f.after) = e ∙ ap (λ r. pre ++ r) f.parts in
          let behind : s ≡ (pre ++ (f.before ++ ch ∷ [])) ++ f.after =
            whole ∙ regroup pre f.before f.after ch in
          let others =
            split_loop-render fuel s (next + 1) (pre ++ (f.before ++ ch ∷ [])) f.after ch skip keep
              behind (length-kept pre f.before ch)
              (omega (arith, h, ap length f.parts, length-append f.before (ch ∷ f.after))) k in
          let found : find ch prev (drop prev s) ≡ next =
            rw (q, e, drop-append_eq (length pre) pre rest refl) f.place in
          let small : (next == npos) ≡ false = eq_false (λ z. omega (
            arith,
            z,
            k,
            ap length whole,
            length-append pre (f.before ++ ch ∷ f.after),
            length-append f.before (ch ∷ f.after),
          )) in
          rw (found, small, others, f.first)
            (rw (whole, q)
              (split_piece-render pre f.before f.after ch skip keep (fields ch f.after).0
                (fields ch f.after).1 (rw (← whole) k)))
    ]

-- A string that is not empty and shorter than 2^64 - 1 bytes is split into its fields, as the flags
-- render them; the loop ends, and no call of `mid` throws.
pub split-fields :
    (s : List ℕ) (ch : ℕ) (skip keep : Bool)
    → 0 < length s
    → length s < npos
    → split s ch skip keep ≡ some (render ch skip keep (fields ch s).0 (fields ch s).1)
unfolding split
split-fields [] ch skip keep h k = ground arith
split-fields (c ∷ cs) ch skip keep h k =
    split_loop-render (suc (length (c ∷ cs))) (c ∷ cs) 0 [] (c ∷ cs) ch skip keep refl refl
      (omega arith) k
