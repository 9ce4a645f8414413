-- ===== src/Path/Name.antt =====
-- `name` (rct/Path.cpp) of a path with a slash at its end.
use rct.Prelude.{
  ℕ, zero, suc, ◌+◌, ◌-◌, ◌<◌, ◌≤◌, ◌≡◌, refl, sym, ap, ◌∙◌, true, false, List, [], ◌∷◌, ◌++◌, some,
  ◌==◌, length, length-append, append_assoc, get_or, eq_true, eq_false, ltb-true, arith,
}
use rct.Prelude.Words.{npos, sub_size}
use rct.String.{rfind, last_index_of, mid}
use rct.String.Mid.{mid_piece}
use rct.Path.{slash, ends_slash, name}

-- A name has no slash.
unfoldable pub NoSlash : List ℕ → Type 0
NoSlash [] = Unit
NoSlash (c ∷ cs) = ((c == slash) ≡ false) × NoSlash cs

get_or-last : (s : List ℕ) (c : ℕ) → get_or (s ++ c ∷ []) (length s) 0 ≡ c
get_or-last [] c = refl
get_or-last (x ∷ s) c = get_or-last s c

ends_slash-append : (s : List ℕ) → ends_slash (s ++ slash ∷ []) ≡ true
unfolding ends_slash
ends_slash-append s =
    let size : length (s ++ slash ∷ []) ≡ length s + 1 = length-append s (slash ∷ []) in
    let before : length s + 1 - 1 ≡ length s = omega arith in
    let some_byte : 0 < length s + 1 = omega arith in
    rw (size, before, get_or-last s slash, ltb-true some_byte) refl

NoSlash-get_or :
    (s tail : List ℕ) (i : ℕ) → NoSlash s → i < length s → (get_or (s ++ tail) i 0 == slash) ≡ false
unfolding NoSlash
NoSlash-get_or [] tail i h l = ground arith
NoSlash-get_or (c ∷ s) tail zero h l = h.0
NoSlash-get_or (c ∷ s) tail (suc i) h l = NoSlash-get_or s tail i h.1 (omega (arith, l))

rfind-none : (s tail : List ℕ) (n : ℕ) → NoSlash s → n ≤ length s → rfind slash (s ++ tail) n ≡ npos
unfolding rfind
rfind-none s tail zero h l = refl
rfind-none s tail (suc n) h l =
    rw (NoSlash-get_or s tail n h l) (rfind-none s tail n h (omega (arith, l)))

-- `name` of one component, not empty, with a slash behind it is empty: the component is lost. It
-- has fewer than 2^64 - 2 bytes.
name-single :
    (s : List ℕ) → 0 < length s → length s + 1 < npos → NoSlash s → name (s ++ slash ∷ []) ≡ some []
unfolding name last_index_of
name-single s p h n =
    let size : length (s ++ slash ∷ []) ≡ length s + 1 = length-append s (slash ∷ []) in
    let two : sub_size (length s + 1) 2 ≡ length s + 1 - 2 = omega (arith, p, h) in
    let inside : length s + 1 - 2 < length s + 1 = omega arith in
    let count : length s + 1 - 2 + 1 ≡ length s = omega (arith, p) in
    rw
      (
        size,
        ends_slash-append s,
        two,
        ltb-true inside,
        count,
        rfind-none s (slash ∷ []) (length s) n (omega arith),
      )
      refl

get_or-append : (d t : List ℕ) (i : ℕ) → get_or (d ++ t) (length d + i) 0 ≡ get_or t i 0
get_or-append [] t i = ap (λ k. get_or t k 0) (omega arith)
get_or-append (x ∷ d) t i =
    let next : suc (length d) + i ≡ suc (length d + i) = omega arith in
    ap (λ k. get_or (x ∷ d ++ t) k 0) next ∙ get_or-append d t i

rfind-found :
    (d s tail : List ℕ) (n : ℕ)
    → NoSlash s
    → n ≤ length s
    → rfind slash (d ++ slash ∷ (s ++ tail)) (suc (length d + n)) ≡ length d
unfolding rfind
rfind-found d s tail zero h l =
    let here : length d + 0 ≡ length d = omega arith in
    let found : (get_or (d ++ slash ∷ (s ++ tail)) (length d) 0 == slash) ≡ true = eq_true (
      ap (λ k. get_or (d ++ slash ∷ (s ++ tail)) k 0) (sym here)
      ∙ get_or-append d (slash ∷ (s ++ tail)) 0) in
    rw (here, found) refl
rfind-found d s tail (suc n) h l =
    let next : length d + suc n ≡ suc (length d + n) = omega arith in
    let other : (get_or (d ++ slash ∷ (s ++ tail)) (suc (length d + n)) 0 == slash) ≡ false =
      ap (λ b. b == slash)
        (ap (λ k. get_or (d ++ slash ∷ (s ++ tail)) k 0) (sym next)
          ∙ get_or-append d (slash ∷ (s ++ tail)) (suc n))
      ∙ NoSlash-get_or s tail n h (omega (arith, l)) in
    rw (next, other) (rfind-found d s tail n h (omega (arith, l)))

ends_slash-component : (d s : List ℕ) → ends_slash (d ++ slash ∷ (s ++ slash ∷ [])) ≡ true
ends_slash-component d s =
    ap ends_slash (sym (append_assoc d (slash ∷ s) (slash ∷ [])))
    ∙ ends_slash-append (d ++ slash ∷ s)

mid-component :
    (d s : List ℕ)
    → length (d ++ slash ∷ (s ++ slash ∷ [])) < npos
    → mid (d ++ slash ∷ (s ++ slash ∷ [])) (length d + 1) (length s) ≡ some s
mid-component d s h =
    let shape = append_assoc d (slash ∷ []) (s ++ slash ∷ []) in
    let start = length-append d (slash ∷ []) in
    ap (λ r. mid r (length d + 1) (length s)) (sym shape)
    ∙ ap (λ k. mid ((d ++ slash ∷ []) ++ (s ++ slash ∷ [])) k (length s)) (sym start)
    ∙ mid_piece (d ++ slash ∷ []) s (slash ∷ []) (length s) refl (rw (shape) h)

-- `name` of a path of fewer than 2^64 - 1 bytes that ends with a slash and has another one is what
-- stands between the last two.
name-component :
    (d s : List ℕ)
    → length (d ++ slash ∷ (s ++ slash ∷ [])) < npos
    → NoSlash s
    → name (d ++ slash ∷ (s ++ slash ∷ [])) ≡ some s
unfolding name last_index_of
name-component d s h n =
    let size : length (d ++ slash ∷ (s ++ slash ∷ [])) ≡ length d + length s + 2 =
      omega (arith, length-append d (slash ∷ (s ++ slash ∷ [])), length-append s (slash ∷ [])) in
    let two : sub_size (length d + length s + 2) 2 ≡ length d + length s = omega (arith, h, size) in
    let inside : length d + length s < length d + length s + 2 = omega arith in
    let count : length d + length s + 1 ≡ suc (length d + length s) = omega arith in
    let found : (length d == npos) ≡ false = eq_false (λ z. omega (arith, z, h, size)) in
    let rest : sub_size (sub_size (length d + length s + 2) (length d)) 2 ≡ length s =
      omega (arith, h, size) in
    rw
      (
        size,
        ends_slash-component d s,
        two,
        ltb-true inside,
        count,
        rfind-found d s (slash ∷ []) (length s) n (omega arith),
        found,
        rest,
      )
      (mid-component d s h)
