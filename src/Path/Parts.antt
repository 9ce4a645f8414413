-- ===== src/Path/Parts.antt =====
-- `parentDir` and `fileName` (rct/Path.cpp) cut a path in two.
use rct.Prelude.{
  ℕ, zero, suc, ◌+◌, ◌-◌, ◌%◌, ◌^◌, ◌<◌, ◌≤◌, ◌≡◌, refl, sym, ap, ◌∙◌, Bool, true, false, not, ◌&&◌,
  List, [], ◌∷◌, ◌++◌, some, ltb, ◌==◌, length, take, drop, get_or, take-append-drop, Bool-cases,
  inl, inr, eq_false, ltb-true, arith,
}
use rct.Prelude.Words.{npos, add_size}
use rct.String.{rfind, last_index_of}
use rct.Path.{
  slash, is_slash, no_slash, int_places, back, parent, parent_dir, file_index, file_name,
}

-- The path ends with two slashes.
unfoldable pub double_slash : List ℕ → Bool
double_slash s =
    ltb 1 (length s) && (get_or s (length s - 1) 0 == slash && get_or s (length s - 2) 0 == slash)

back-le : (test : ℕ → Bool) (s : List ℕ) (n : ℕ) → back test s n ≤ n
unfolding back
back-le test s zero = omega arith
back-le test s (suc n) = elim (Bool-cases (test (get_or s n 0))) [
  | inl t ↦ rw (t) (omega (arith, back-le test s n))
  | inr t ↦ rw (t) (omega arith)
]

back-true :
    (test : ℕ → Bool) (s : List ℕ) (n : ℕ)
    → test (get_or s n 0) ≡ true
    → back test s (suc n) ≡ back test s n
unfolding back
back-true test s n t = rw (t) refl

back-false :
    (test : ℕ → Bool) (s : List ℕ) (n : ℕ)
    → test (get_or s n 0) ≡ false
    → back test s (suc n) ≡ suc n
unfolding back
back-false test s n t = rw (t) refl

back-stop :
    (test : ℕ → Bool) (s : List ℕ) (n i : ℕ) → back test s n ≡ suc i → test (get_or s i 0) ≡ false
unfolding back
back-stop test s zero i h = ground arith
back-stop test s (suc n) i h = elim (Bool-cases (test (get_or s n 0))) [
  | inl t ↦ back-stop test s n i (sym (back-true test s n t) ∙ h)
  | inr t ↦ let e : n ≡ i = omega (arith, sym (back-false test s n t) ∙ h) in rw (← e) t
]

-- `lastIndexOf` finds the same place as the loop of `parentDir`.
rfind-back : (s : List ℕ) (n : ℕ) → n < npos → add_size (rfind slash s n) 1 ≡ back no_slash s n
unfolding rfind back no_slash
rfind-back s zero h = refl
rfind-back s (suc n) h = elim (Bool-cases (get_or s n 0 == slash)) [
  | inl t ↦ rw (t) (omega (arith, h))
  | inr t ↦ rw (t) (rfind-back s n (omega (arith, h)))
]

get_or-take : (s : List ℕ) (n i : ℕ) → i < n → get_or (take n s) i 0 ≡ get_or s i 0
get_or-take s zero i h = ground arith
get_or-take [] (suc n) i h = refl
get_or-take (x ∷ s) (suc n) zero h = refl
get_or-take (x ∷ s) (suc n) (suc i) h = get_or-take s n i (omega (arith, h))

not-false : (b : Bool) → not b ≡ false → b ≡ true
not-false b h = ground arith

-- What `parentDir` returns, from the place of the last slash that counts.
parent-take :
    (s : List ℕ) (m : ℕ)
    → ((i : ℕ) → m ≡ suc i → no_slash (get_or s i 0) ≡ false)
    → parent s m ≡ some (take m s)
unfolding parent no_slash
parent-take s zero h = refl
parent-take s (suc i) h = rw (get_or-take s (suc i) i (omega arith), not-false _ (h i refl)) refl

double_slash-ends :
    (s : List ℕ) (n : ℕ)
    → length s ≡ suc (suc n)
    → (get_or s (suc n) 0 == slash) ≡ true
    → (get_or s n 0 == slash) ≡ true
    → double_slash s ≡ true
unfolding double_slash
double_slash-ends s n e t u =
    let long : 1 < suc (suc n) = omega arith in
    let last : suc (suc n) - 1 ≡ suc n = omega arith in
    let before : suc (suc n) - 2 ≡ n = omega arith in rw (e, ltb-true long, last, before, t, u) refl

true-false : ¬ (true ≡ false)
true-false h = cc

-- The two loops of `parentDir` end where `lastIndexOf` does, unless two slashes end the path.
back-back :
    (s : List ℕ) (n : ℕ)
    → double_slash s ≡ false
    → length s ≡ suc (suc n)
    → back no_slash s (back is_slash s (length s)) ≡ back no_slash s (suc n)
unfolding is_slash no_slash
back-back s n h e = elim (Bool-cases (get_or s (suc n) 0 == slash)) [
  | inl t ↦ elim (Bool-cases (get_or s n 0 == slash)) [
    | inl u ↦ elim (true-false (sym (double_slash-ends s n e t u) ∙ h)) [ ]
    | inr u ↦
        ap (back no_slash s)
          (ap (back is_slash s) e ∙ back-true is_slash s (suc n) t ∙ back-false is_slash s n u)
  ]
  | inr t ↦
      ap (back no_slash s) (ap (back is_slash s) e ∙ back-false is_slash s (suc n) t)
      ∙ back-true no_slash s (suc n) (rw (t) refl)
]

file_index-back :
    (s : List ℕ) (n : ℕ)
    → length s ≡ suc (suc n)
    → length s < 2 ^ 31
    → file_index s ≡ back no_slash s (suc n)
unfolding file_index last_index_of
file_index-back s n e h =
    let long : 1 < suc (suc n) = omega arith in
    let inside : suc (suc n) - 2 < suc (suc n) = omega arith in
    let next : suc (suc n) - 2 + 1 ≡ suc n = omega arith in
    let word : suc (suc n) % 2 ^ 32 ≡ suc (suc n) = omega (arith, e, h) in
    let positive : suc (suc n) < 2 ^ 31 = omega (arith, e, h) in
    rw (e, word, ltb-true long, ltb-true positive, ltb-true inside, next)
      (rfind-back s (suc n) (omega (arith, e, h)))

pub int_places_lem : (n : ℕ) → n < 2 ^ 31 → int_places n ≡ n
unfolding int_places
int_places_lem n h = ground arith

parent_dir-single : (c : ℕ) → parent_dir (c ∷ []) ≡ some []
unfolding parent_dir parent back is_slash no_slash int_places
parent_dir-single c = elim (Bool-cases (c == slash)) [
  | inl t ↦ rw (t) refl
  | inr t ↦ let n : no_slash c ≡ true = rw (t) refl in rw (t, n) refl
]

parent_dir-take :
    (c x : ℕ) (s : List ℕ)
    → length s + 2 < 2 ^ 31
    → double_slash (c ∷ x ∷ s) ≡ false
    → parent_dir (c ∷ x ∷ s) ≡ some (take (back no_slash (c ∷ x ∷ s) (suc (length s))) (c ∷ x ∷ s))
unfolding parent_dir
parent_dir-take c x s h d =
    let whole = c ∷ x ∷ s in
    let many : (suc (suc (length s)) == 1) ≡ false = eq_false (λ e. omega (arith, e)) in
    rw
      (
        many,
        int_places_lem (suc (suc (length s))) (omega (arith, h)),
        back-back whole (length s) d refl,
      )
      (parent-take whole (back no_slash whole (suc (length s)))
        (back-stop no_slash whole (suc (length s))))

-- A path of fewer than 2^31 bytes that does not end with two slashes is its `parentDir`
-- followed by its `fileName`; the assertion in `parentDir` holds.
pub parent_dir-file_name :
    (s : List ℕ)
    → length s < 2 ^ 31
    → double_slash s ≡ false
    → (p : List ℕ) × (parent_dir s ≡ some p) × (p ++ file_name s ≡ s)
unfolding file_name file_index parent_dir
parent_dir-file_name [] h d = ([], refl, refl)
parent_dir-file_name (c ∷ []) h d = ([], parent_dir-single c, refl)
parent_dir-file_name (c ∷ x ∷ s) h d =
    let whole = c ∷ x ∷ s in
    let m = back no_slash whole (suc (length s)) in
    (
      take m whole,
      parent_dir-take c x s (omega (arith, h)) d,
      ap (λ k. take m whole ++ drop k whole) (file_index-back whole (length s) refl h)
          ∙ take-append-drop m whole,
    )
