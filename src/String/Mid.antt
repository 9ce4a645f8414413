-- ===== src/String/Mid.antt =====
-- `mid` (rct/String.h) on a string of which it takes a known part.
use rct.Prelude.{
  ℕ, zero, suc, ◌+◌, ◌-◌, ◌<◌, ◌≤◌, ◌≡◌, refl, sym, ap, ◌∙◌, false, ◌&&◌, List, [], ◌∷◌, ◌++◌,
  append-nil, append_assoc, some, if◌then◌else◌, ltb, ◌==◌, length, length-append, drop-append_eq,
  take-append_eq, take_all, Bool-cases, inl, inr, arith, eq_false, eq_of,
}
use rct.Prelude.Words.{npos, sub_size_lem}
use rct.String.{substr, mid}

pub not_below : (a b : ℕ) → a ≤ b → ltb b a ≡ false
not_below a b h = ground arith

not_zero : (a : ℕ) → (suc a == 0) ≡ false
not_zero a = ground arith

pub mid_whole :
    (s : List ℕ) (from l : ℕ)
    → (if from == 0 && l == length s then some s else substr s from l) ≡ substr s from l
unfolding substr
mid_whole s zero l = elim (Bool-cases (l == length s)) [
  | inl t ↦
      let e : l ≡ length s = eq_of l (length s) t in
      rw (t, e, not_below 0 (length s) (omega arith), take_all (length s) s (omega arith)) refl
  | inr t ↦ rw (t) refl
]
mid_whole s (suc from) l = rw (not_zero from) refl

pub mid-substr : (s : List ℕ) (from l : ℕ) → ¬ (l ≡ npos) → mid s from l ≡ substr s from l
unfolding mid
mid-substr s from l h = rw (eq_false h) (mid_whole s from l)

pub mid_rest :
    (s : List ℕ) (from : ℕ)
    → from ≤ length s
    → length s < npos
    → mid s from npos ≡ substr s from (length s - from)
unfolding mid
mid_rest s from h k =
    rw (sub_size_lem (length s) from (omega (arith, k)) h) (mid_whole s from (length s - from))

substr-middle : (pre x post : List ℕ) → substr (pre ++ (x ++ post)) (length pre) (length x) ≡ some x
unfolding substr
substr-middle pre x post =
    rw
      (
        not_below (length pre) (length (pre ++ (x ++ post)))
            (omega (arith, length-append pre (x ++ post))),
        drop-append_eq (length pre) pre (x ++ post) refl,
        take-append_eq (length x) x post refl,
      )
      refl

pub mid_piece :
    (pre x post : List ℕ) (n : ℕ)
    → n ≡ length x
    → length (pre ++ (x ++ post)) < npos
    → mid (pre ++ (x ++ post)) (length pre) n ≡ some x
mid_piece pre x post n e h = rw (e) (
    mid-substr _ _ (length x)
      (λ q. omega (arith, q, h, length-append pre (x ++ post), length-append x post))
    ∙ substr-middle pre x post)

-- The same with the separator behind the piece.
pub mid_kept :
    (pre a after : List ℕ) (ch n : ℕ)
    → n ≡ length a + 1
    → length (pre ++ (a ++ ch ∷ after)) < npos
    → mid (pre ++ (a ++ ch ∷ after)) (length pre) n ≡ some (a ++ ch ∷ [])
mid_kept pre a after ch n e h =
    let shape = append_assoc a (ch ∷ []) after in
    let small : length (pre ++ ((a ++ ch ∷ []) ++ after)) < npos = rw (shape) h in
    ap (λ r. mid (pre ++ r) (length pre) n) (sym shape)
    ∙ mid_piece pre (a ++ ch ∷ []) after n (omega (arith, e, length-append a (ch ∷ []))) small

pub mid_end :
    (pre rest : List ℕ)
    → length (pre ++ rest) < npos
    → mid (pre ++ rest) (length pre) npos ≡ some rest
mid_end pre rest h =
    let e : length (pre ++ rest) - length pre ≡ length rest =
      omega (arith, length-append pre rest) in
    let whole : substr (pre ++ rest) (length pre) (length rest) ≡ some rest =
      ap (λ r. substr (pre ++ r) (length pre) (length rest)) (sym (append-nil rest))
      ∙ substr-middle pre rest [] in
    mid_rest (pre ++ rest) (length pre) (omega (arith, length-append pre rest)) h ∙ rw (e) whole
