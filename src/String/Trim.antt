-- ===== src/String/Trim.antt =====
-- `trimmed` (rct/String.h) against a description by structural recursion.
use rct.Prelude.{
  ℕ, suc, ◌+◌, ◌-◌, ◌<◌, ◌≡◌, refl, sym, ap, ◌∙◌, false, List, [], ◌∷◌, ◌++◌, some, if◌then◌else◌,
  ◌==◌, length, length-append, take, drop-append_eq, Bool-cases, ◌⊎◌, inl, inr, eq_false, arith,
}
use rct.Prelude.Words.{npos}
use rct.String.{substr, mid, has, first_not_of, last_not_of, trimmed}
use rct.String.Mid.{mid-substr, not_below}

-- The bytes behind those to trim at the front.
unfoldable pub strip_front : List ℕ → List ℕ → List ℕ
strip_front trim [] = []
strip_front trim (c ∷ cs) = let rest = strip_front trim cs in if has trim c then rest else c ∷ cs

unfoldable pub keep : List ℕ → ℕ → List ℕ → List ℕ
keep trim c [] = if has trim c then [] else c ∷ []
keep trim c (x ∷ xs) = c ∷ x ∷ xs

-- The bytes before those to trim at the end.
unfoldable pub strip_back : List ℕ → List ℕ → List ℕ
strip_back trim [] = []
strip_back trim (c ∷ cs) = keep trim c (strip_back trim cs)

record First (trim : List ℕ) (from : ℕ) (s : List ℕ) : Type 0 where
  front : List ℕ
  here : ℕ
  rest : List ℕ
  parts : s ≡ front ++ here ∷ rest
  kept : has trim here ≡ false
  place : first_not_of trim from s ≡ from + length front
  stripped : strip_front trim s ≡ here ∷ rest

First-cases :
    (trim : List ℕ) (from : ℕ) (s : List ℕ)
    → ((first_not_of trim from s ≡ npos) × (strip_front trim s ≡ [])) ⊎ First trim from s
unfolding first_not_of strip_front
First-cases trim from [] = inl (refl, refl)
First-cases trim from (c ∷ cs) = elim (Bool-cases (has trim c)) [
  | inr t ↦ inr (record {
    front = [];
    here = c;
    rest = cs;
    parts = refl;
    kept = t;
    place = rw (t) (omega arith);
    stripped = rw (t) refl;
  })
  | inl t ↦ elim (First-cases trim (from + 1) cs) [
    | inl h ↦ inl (rw (t) h.0, rw (t) h.1)
    | inr f ↦ inr (record {
      front = c ∷ f.front;
      here = f.here;
      rest = f.rest;
      parts = ap (λ r. c ∷ r) f.parts;
      kept = f.kept;
      place = rw (t) (omega (arith, f.place));
      stripped = rw (t) f.stripped;
    })
  ]
]

record Last (trim : List ℕ) (from : ℕ) (s : List ℕ) : Type 0 where
  count : ℕ
  inside : count < length s
  place : last_not_of trim from s ≡ from + count
  stripped : strip_back trim s ≡ take (suc count) s
  first : ℕ
  others : List ℕ
  shape : strip_back trim s ≡ first ∷ others

Last-cases :
    (trim : List ℕ) (from : ℕ) (s : List ℕ)
    → from + length s < npos
    → ((last_not_of trim from s ≡ npos) × (strip_back trim s ≡ [])) ⊎ Last trim from s
unfolding last_not_of strip_back keep
Last-cases trim from [] h = inl (refl, refl)
Last-cases trim from (c ∷ cs) h = elim (Last-cases trim (from + 1) cs (omega (arith, h))) [
  | inl l ↦ elim (Bool-cases (has trim c)) [
    | inl t ↦ inl (rw (l.0, t) refl, rw (l.1, t) refl)
    | inr t ↦ inr (record {
      count = 0;
      inside = omega arith;
      place = rw (l.0, t) (omega arith);
      stripped = rw (l.1, t) refl;
      first = c;
      others = [];
      shape = rw (l.1, t) refl;
    })
  ]
  | inr l ↦
      let found : (from + 1 + l.count == npos) ≡ false =
        eq_false (λ z. omega (arith, z, h, l.inside)) in
      inr (record {
        count = suc l.count;
        inside = omega (arith, l.inside);
        place = rw (l.place, found) (omega arith);
        stripped = rw (l.shape) refl ∙ ap (λ r. c ∷ r) (sym l.shape ∙ l.stripped);
        first = c;
        others = l.first ∷ l.others;
        shape = rw (l.shape) refl;
      })
]

last_not_of-append :
    (trim : List ℕ) (from v : ℕ) (front rest : List ℕ)
    → (v == npos) ≡ false
    → last_not_of trim (from + length front) rest ≡ v
    → last_not_of trim from (front ++ rest) ≡ v
unfolding last_not_of
last_not_of-append trim from v [] rest n e = ap (λ k. last_not_of trim k rest) (omega arith) ∙ e
last_not_of-append trim from v (c ∷ front) rest n e =
    let later =
      last_not_of-append trim (from + 1) v front rest n
        (ap (λ k. last_not_of trim k rest) (omega arith) ∙ e) in
    rw (later, n) refl

cons-nil : {c : ℕ} {cs : List ℕ} → ¬ (c ∷ cs ≡ [])
cons-nil h = cc

keep-some : (trim : List ℕ) (c : ℕ) (xs : List ℕ) → has trim c ≡ false → ¬ (keep trim c xs ≡ [])
unfolding keep
keep-some trim c [] h e =
    let shown : keep trim c [] ≡ c ∷ [] = rw (h) refl in cons-nil (sym shown ∙ e)
keep-some trim c (x ∷ xs) h e = cc

substr-kept :
    (front rest : List ℕ) (n : ℕ) → substr (front ++ rest) (length front) n ≡ some (take n rest)
unfolding substr
substr-kept front rest n =
    rw
      (
        not_below (length front) (length (front ++ rest)) (omega (arith, length-append front rest)),
        drop-append_eq (length front) front rest refl,
      )
      refl

strip_nil : (trim : List ℕ) → strip_back trim [] ≡ []
unfolding strip_back
strip_nil trim = refl

strip_cons :
    (trim : List ℕ) (c : ℕ) (cs : List ℕ)
    → keep trim c (strip_back trim cs) ≡ strip_back trim (c ∷ cs)
unfolding strip_back
strip_cons trim c cs = refl

-- `trimmed` of a string shorter than 2^64 - 1 bytes is the string without the bytes to trim at
-- its front and at its end; no call of `mid` throws.
pub trimmed-strip :
    (trim s : List ℕ)
    → length s < npos
    → trimmed trim s ≡ some (strip_back trim (strip_front trim s))
unfolding trimmed
trimmed-strip trim s h = elim (First-cases trim 0 s) [
  | inl f ↦ rw (f.0, f.1, strip_nil trim) refl
  | inr f ↦
      let total : length s ≡ length f.front + suc (length f.rest) =
        ap length f.parts ∙ length-append f.front (f.here ∷ f.rest) in
      elim (Last-cases trim (length f.front) (f.here ∷ f.rest) (omega (arith, h, total))) [
        | inl l ↦
            elim (keep-some trim f.here (strip_back trim f.rest) f.kept
              (strip_cons trim f.here f.rest ∙ l.1)) [ ]
        | inr l ↦
            let start : (length f.front == npos) ≡ false =
              eq_false (λ z. omega (arith, z, h, total)) in
            let place : ℕ = length f.front + l.count in
            let inside : (place == npos) ≡ false =
              eq_false (λ z. omega (arith, z, h, total, l.inside)) in
            let zero_add : 0 + length f.front ≡ length f.front = omega arith in
            let end : last_not_of trim 0 s ≡ place =
              ap (last_not_of trim 0) f.parts
              ∙ last_not_of-append trim 0 place f.front (f.here ∷ f.rest) inside
                  (ap (λ k. last_not_of trim k (f.here ∷ f.rest)) zero_add ∙ l.place) in
            let size : place - length f.front + 1 ≡ suc l.count = omega arith in
            let cut : mid s (length f.front) (suc l.count)
                ≡ some (take (suc l.count) (f.here ∷ f.rest)) =
              mid-substr s (length f.front) (suc l.count)
                (λ z. omega (arith, z, h, total, l.inside))
              ∙ ap (λ r. substr r (length f.front) (suc l.count)) f.parts
              ∙ substr-kept f.front (f.here ∷ f.rest) (suc l.count) in
            rw (f.place, zero_add, start, end, size, f.stripped, l.stripped) cut
      ]
]
