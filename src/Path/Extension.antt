-- ===== src/Path/Extension.antt =====
-- What `extension` (rct/Path.cpp) finds.
use rct.Prelude.{
  ℕ, zero, suc, ◌^◌, ◌<◌, ◌≤◌, ◌≡◌, refl, sym, ap, ◌∙◌, true, false, List, [], ◌∷◌, ◌++◌, ◌⊎◌,
  Option, none, some, ◌==◌, length, take, drop, drop_all, get_or, take-append-drop, Bool-cases, inl,
  inr, eq_of, arith,
}
use rct.Path.{slash, dot, extension_loop, extension}
use rct.Path.Parts.{int_places_lem}

-- Neither a dot nor a slash.
unfoldable pub Plain : List ℕ → Type 0
Plain [] = Unit
Plain (c ∷ cs) = ((c == dot) ≡ false) × ((c == slash) ≡ false) × Plain cs

drop-at : (s : List ℕ) (i : ℕ) → i < length s → drop i s ≡ get_or s i 0 ∷ drop (suc i) s
drop-at [] i h = ground arith
drop-at (x ∷ s) zero h = refl
drop-at (x ∷ s) (suc i) h = drop-at s i (omega (arith, h))

split-at :
    (s : List ℕ) (i c : ℕ)
    → i < length s
    → (get_or s i 0 == c) ≡ true
    → s ≡ take i s ++ c ∷ drop (suc i) s
split-at s i c h t =
    sym (take-append-drop i s)
    ∙ ap (λ r. take i s ++ r) (drop-at s i h)
    ∙ ap (λ b. take i s ++ b ∷ drop (suc i) s) (eq_of (get_or s i 0) c t)

Plain-drop :
    (s : List ℕ) (i : ℕ)
    → i < length s
    → (get_or s i 0 == dot) ≡ false
    → (get_or s i 0 == slash) ≡ false
    → Plain (drop (suc i) s)
    → Plain (drop i s)
unfolding Plain
Plain-drop s i h t u p = rw (drop-at s i h) ((t, u, p))

-- The two ways in which the search ends.
unfoldable pub Searched : List ℕ → Option (List ℕ) → Type 0
Searched s (some e) = Plain e × ((stem : List ℕ) × (s ≡ stem ++ dot ∷ e))
Searched s none =
    (name : List ℕ) × Plain name × ((s ≡ name) ⊎ ((dir : List ℕ) × (s ≡ dir ++ slash ∷ name)))

extension_loop-Searched :
    (s : List ℕ) (n : ℕ) → n ≤ length s → Plain (drop n s) → Searched s (extension_loop s n)
unfolding extension_loop Searched
extension_loop-Searched s zero h p = (s, p, inl refl)
extension_loop-Searched s (suc i) h p = elim (Bool-cases (get_or s i 0 == dot)) [
  | inl t ↦ rw (t) ((p, (take i s, split-at s i dot h t)))
  | inr t ↦ elim (Bool-cases (get_or s i 0 == slash)) [
    | inl u ↦ rw (t, u) (drop (suc i) s, p, inr (take i s, split-at s i slash h u))
    | inr u ↦ rw (t, u) (extension_loop-Searched s i (omega (arith, h)) (Plain-drop s i h t u p))
  ]
]

no_rest : (s : List ℕ) → Plain (drop (length s) s)
unfolding Plain
no_rest s = rw (drop_all (length s) s (omega arith)) tt

-- `extension` returns what is behind the last dot if no slash is behind that dot, and nothing if
-- the part behind the last slash, or the whole path without one, has no dot. The path has fewer than
-- 2^31 bytes.
extension-Searched : (s : List ℕ) → length s < 2 ^ 31 → Searched s (extension s)
unfolding extension
extension-Searched s h =
    rw (int_places_lem (length s) h)
      (extension_loop-Searched s (length s) (omega arith) (no_rest s))
