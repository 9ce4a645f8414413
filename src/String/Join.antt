-- ===== src/String/Join.antt =====
-- `join` undoes `split` (rct/String.h).
use rct.Prelude.{
  ℕ, suc, ◌+◌, ◌*◌, ◌%◌, ◌^◌, ◌<◌, ◌≤◌, ◌≡◌, refl, sym, ap, ◌∙◌, Bool, true, false, List, [], ◌∷◌,
  ◌++◌, append-nil, none, some, not, ◌&&◌, ltb-false, eq_false, length-append, if◌then◌else◌, ◌==◌,
  length, Bool-cases, inl, inr, arith, eq_of,
}
use rct.Prelude.Words.{sub_size, size_mod}
use rct.String.{split, join_loop, sizes, join_size, max_size, join}
use rct.String.Split.{fields, render, split-fields}

join-cons : (x : List ℕ) (ys : List (List ℕ)) → join_loop (x ∷ ys) [] ≡ x ++ join_loop ys []
unfolding join_loop
join-cons x [] = sym (append-nil x)
join-cons x (y ∷ ys) = ap (λ r. r ++ join_loop (y ∷ ys) []) (append-nil x)

join-first :
    (c : ℕ) (a : List ℕ) (bs : List (List ℕ)) (sep : List ℕ)
    → join_loop ((c ∷ a) ∷ bs) sep ≡ c ∷ join_loop (a ∷ bs) sep
unfolding join_loop
join-first c a [] sep = refl
join-first c a (b ∷ bs) sep = refl

join-fields : (ch : ℕ) (s : List ℕ) → join_loop ((fields ch s).0 ∷ (fields ch s).1) (ch ∷ []) ≡ s
unfolding fields join_loop
join-fields ch [] = refl
join-fields ch (c ∷ cs) = elim (Bool-cases (c == ch)) [
  | inl t ↦ rw (t, eq_of c ch t) (ap (λ r. ch ∷ r) (join-fields ch cs))
  | inr t ↦ rw (t) (join-first c _ _ (ch ∷ []) ∙ ap (λ r. c ∷ r) (join-fields ch cs))
]

-- What is put between the pieces: nothing, if they have kept their separators.
abbrev pub glue : ℕ → Bool → List ℕ
glue ch keep = if keep then [] else ch ∷ []

render_plain : (ch : ℕ) (a : List ℕ) (bs : List (List ℕ)) → render ch false false a bs ≡ a ∷ bs
unfolding render
render_plain ch [] [] = refl
render_plain ch (x ∷ a) [] = refl
render_plain ch [] (b ∷ bs) = ap (λ r. [] ∷ r) (render_plain ch b bs)
render_plain ch (x ∷ a) (b ∷ bs) = ap (λ r. (x ∷ a) ∷ r) (render_plain ch b bs)

join-render_kept :
    (ch : ℕ) (a : List ℕ) (bs : List (List ℕ))
    → join_loop (render ch false true a bs) [] ≡ join_loop (a ∷ bs) (ch ∷ [])
unfolding render join_loop
join-render_kept ch [] [] = refl
join-render_kept ch (x ∷ a) [] = refl
join-render_kept ch [] (b ∷ bs) =
    join-cons (ch ∷ []) (render ch false true b bs) ∙ ap (λ r. ch ∷ r) (join-render_kept ch b bs)
join-render_kept ch (x ∷ a) (b ∷ bs) =
    join-cons (x ∷ a ++ ch ∷ []) (render ch false true b bs)
    ∙ ap (λ r. (x ∷ a ++ ch ∷ []) ++ r) (join-render_kept ch b bs)

join-render :
    (ch : ℕ) (keep : Bool) (a : List ℕ) (bs : List (List ℕ))
    → join_loop (render ch false keep a bs) (glue ch keep) ≡ join_loop (a ∷ bs) (ch ∷ [])
join-render ch true a bs = join-render_kept ch a bs
join-render ch false a bs = ap (λ r. join_loop r (ch ∷ [])) (render_plain ch a bs)

length-render :
    (ch : ℕ) (keep : Bool) (a : List ℕ) (bs : List (List ℕ))
    → length (render ch false keep a bs) ≡ suc (length bs)
unfolding render
length-render ch keep [] [] = refl
length-render ch keep (x ∷ a) [] = refl
length-render ch keep [] (b ∷ bs) = ap suc (length-render ch keep b bs)
length-render ch keep (x ∷ a) (b ∷ bs) = ap suc (length-render ch keep b bs)

length-fields : (ch : ℕ) (s : List ℕ) → length (fields ch s).1 ≤ length s
unfolding fields
length-fields ch [] = omega arith
length-fields ch (c ∷ cs) = elim (Bool-cases (c == ch)) [
  | inl t ↦ rw (t) (omega (arith, length-fields ch cs))
  | inr t ↦ rw (t) (omega (arith, length-fields ch cs))
]

-- What is reserved for one piece or more is the size of the result.
reserved :
    (b : List ℕ) (bs : List (List ℕ)) (sep : List ℕ)
    → length bs * length sep + sizes (b ∷ bs) ≡ length (join_loop (b ∷ bs) sep)
unfolding join_loop sizes
reserved b [] sep = omega arith
reserved b (c ∷ bs) sep =
    let parts : length (b ++ sep ++ join_loop (c ∷ bs) sep)
        ≡ length b + length sep + length (join_loop (c ∷ bs) sep) =
      length-append (b ++ sep) (join_loop (c ∷ bs) sep)
      ∙ ap (λ n. n + length (join_loop (c ∷ bs) sep)) (length-append b sep) in
    let ih : length bs * length sep + (length c + sizes bs) ≡ length (join_loop (c ∷ bs) sep) =
      reserved c bs sep in
    grind (arith, parts, ih)

-- Nothing wraps and nothing is thrown for them if the result is a string.
join_fits :
    (list : List (List ℕ)) (sep s : List ℕ)
    → join_loop list sep ≡ s
    → 0 < length list
    → length list ≤ suc (length s)
    → length s < 2 ^ 63
    → join list sep ≡ some s
unfolding join join_size
join_fits [] sep s e p k h = absurd (omega (arith, p))
join_fits (b ∷ bs) sep s e p k h =
    let total : length bs * length sep + sizes (b ∷ bs) ≡ length s =
      reserved b bs sep ∙ ap (λ r. length r) e in
    let pieces : sub_size (suc (length bs)) 1 ≡ length bs = omega (arith, k, h) in
    rw (pieces, total, ltb-false {a = max_size} {b = length s % size_mod} (omega (arith, h)), e)
      refl

-- A string shorter than 2^63 bytes that is split without `SkipEmpty` is put together again by
-- `join`, with the separator or, after `KeepSeparators`, with nothing in between; but the empty
-- string is split into no pieces, and to join those with a separator throws.
pub join-split :
    (s : List ℕ) (ch : ℕ) (keep : Bool)
    → length s < 2 ^ 63
    → (pieces : List (List ℕ)) × (split s ch false keep ≡ some pieces)
      × (join pieces (glue ch keep) ≡ (if length s == 0 && not keep then none else some s))
unfolding split join join_size join_loop sizes
join-split [] ch true h = ([], refl, refl)
join-split [] ch false h = ([], refl, refl)
join-split (c ∷ cs) ch keep h =
    let f = fields ch (c ∷ cs) in
    let some_bytes : (suc (length cs) == 0) ≡ false = eq_false (λ e. absurd (omega (arith, e))) in
    let count = length-render ch keep f.0 f.1 in
    (
      render ch false keep f.0 f.1,
      split-fields (c ∷ cs) ch false keep (omega arith) (omega (arith, h)),
      rw (some_bytes) (
          join_fits (render ch false keep f.0 f.1) (glue ch keep) (c ∷ cs)
            (join-render ch keep f.0 f.1 ∙ join-fields ch (c ∷ cs)) (omega (arith, count))
            (omega (arith, count, length-fields ch (c ∷ cs))) h),
    )
