-- ===== src/Path/Canonical.antt =====
-- The loop of `canonicalize` (rct/Path.cpp) on a relative path ends and reads inside the path.
use rct.Prelude.{
  ℕ, zero, suc, ◌+◌, ◌-◌, ◌^◌, ◌<◌, ◌≤◌, ◌≡◌, refl, ap, true, false, List, [], ◌∷◌, ◌++◌, ltb, ◌==◌,
  length, length-append, length-take, length-drop, take, drop, get_or, Bool-cases, inl, inr,
  ltb-true, arith,
}
use rct.Prelude.Words.{size_mod, sub_size, add_size}
use rct.Path.{
  slash, dots_at, dot_at, close_gap, collapse, int_places, canonicalize_at, canonical, strip_slash,
  canonicalize_loop, canonicalize,
}

-- One round on the path `c ∷ cs` at `i`: the first byte stays, `removed` bytes go, and the index
-- goes back by as many.
record Round (c : ℕ) (cs : List ℕ) (i : ℕ) (r : List ℕ × ℕ) : Type 0 where
  left : List ℕ
  removed : ℕ
  shape : r.0 ≡ c ∷ left
  shorter : length left + removed ≡ length cs
  index : r.1 ≡ sub_size i removed

unchanged : (c : ℕ) (cs : List ℕ) (i : ℕ) → i < size_mod → Round c cs i (c ∷ cs, i)
unchanged c cs i h = record {
  left = cs;
  removed = 0;
  shape = refl;
  shorter = omega arith;
  index = omega (arith, h);
}

gap :
    (c : ℕ) (cs : List ℕ) (i j k n : ℕ)
    → suc j ≤ k
    → k ≤ length cs + 1
    → n ≡ k - suc j
    → Round c cs i (close_gap (c ∷ cs) (suc j) k, sub_size i n)
unfolding close_gap
gap c cs i j (suc k) n h q e = record {
  left = take j cs ++ drop k cs;
  removed = k - j;
  shape = refl;
  shorter =
      omega
        (arith, h, q, length-append (take j cs) (drop k cs), length-take j cs, length-drop k cs);
  index = ap (sub_size i) (omega (arith, e));
}
gap c cs i j zero n h q e = ground arith

collapse-Round :
    (c : ℕ) (cs : List ℕ) (i j : ℕ)
    → (c == slash) ≡ false
    → i < size_mod
    → j ≤ i
    → i + 3 ≤ length cs + 1
    → Round c cs i (collapse (c ∷ cs) i j)
unfolding collapse
collapse-Round c cs i zero h m q l = unchanged c cs i m
collapse-Round c cs i (suc zero) h m q l = rw (h) (unchanged c cs i m)
collapse-Round c cs i (suc (suc j)) h m q l = elim (Bool-cases (get_or cs j 0 == slash)) [
  | inl t ↦ rw (t) (gap c cs i j (i + 3) (i + 3 - suc j) (omega (arith, q)) l refl)
  | inr t ↦ rw (t) (collapse-Round c cs i (suc j) h m (omega (arith, q)) l)
]

int_places-le : (i : ℕ) → i < 2 ^ 31 → int_places i ≤ i
unfolding int_places
int_places-le i h = ground arith

dots_at-inside : (s : List ℕ) (i : ℕ) → dots_at s i ≡ true → i + 3 ≤ length s
unfolding dots_at
dots_at-inside s i h = ground arith

dot_at-inside : (s : List ℕ) (i : ℕ) → dot_at s i ≡ true → i + 2 ≤ length s
unfolding dot_at
dot_at-inside s i h = ground arith

canonicalize_at-Round :
    (c : ℕ) (cs : List ℕ) (i : ℕ)
    → (c == slash) ≡ false
    → i < length cs
    → length cs + 1 < 2 ^ 31
    → Round c cs i (canonicalize_at (c ∷ cs) i)
unfolding canonicalize_at
canonicalize_at-Round c cs zero h l m = rw (h) (unchanged c cs 0 (omega arith))
canonicalize_at-Round c cs (suc i) h l m =
    let same = unchanged c cs (suc i) (omega (arith, l, m)) in
    elim (Bool-cases (get_or cs i 0 == slash)) [
      | inr t ↦ rw (t) same
      | inl t ↦ elim (Bool-cases (dots_at (c ∷ cs) (suc i))) [
        | inl d ↦
            rw (t, d)
              (collapse-Round c cs (suc i) (int_places (suc i)) h (omega (arith, l, m))
                (int_places-le (suc i) (omega (arith, l, m)))
                (omega (arith, dots_at-inside (c ∷ cs) (suc i) d)))
        | inr d ↦ elim (Bool-cases (dot_at (c ∷ cs) (suc i))) [
          | inl e ↦
              rw (t, d, e)
                (gap c cs (suc i) i (suc i + 2) 2 (omega arith)
                  (omega (arith, dot_at-inside (c ∷ cs) (suc i) e)) (omega arith))
          | inr e ↦ elim (Bool-cases (get_or (c ∷ cs) (suc i + 1) 0 == slash)) [
            | inl u ↦
                rw (t, d, e, u)
                  (gap c cs (suc i) i (suc i + 1) 1 (omega arith) (omega (arith, l)) (omega arith))
            | inr u ↦ rw (t, d, e, u) same
          ]
        ]
      ]
    ]

-- The index of the next round is as far from the end as the fuel allows, or beyond it.
next-fuel :
    (fuel i n left removed : ℕ)
    → left + removed ≡ n
    → n < 2 ^ 31
    → i ≤ n
    → n ≤ suc fuel + i
    → left ≤ fuel + add_size (sub_size i removed) 1
next-fuel fuel i n left removed h m l f = omega (arith, h, m, l, f)

-- The end of a path that starts with no slash.
strip_slash-canonical :
    (c : ℕ) (cs : List ℕ)
    → (c == slash) ≡ false
    → (t : List ℕ) × (strip_slash (c ∷ cs) ≡ canonical (c ∷ t)) × (length t ≤ length cs)
unfolding strip_slash
strip_slash-canonical c [] h = ([], rw (h) refl, omega arith)
strip_slash-canonical c (x ∷ cs) h = elim (Bool-cases (get_or (x ∷ cs) (length cs) 0 == slash)) [
  | inl t ↦
      (take (length cs) (x ∷ cs), rw (t) refl, omega (arith, length-take (length cs) (x ∷ cs)))
  | inr t ↦ (x ∷ cs, rw (t) refl, omega arith)
]

sub_one : (cs : List ℕ) → length cs + 1 < 2 ^ 31 → sub_size (suc (length cs)) 1 ≡ length cs
sub_one cs m = omega (arith, m)

canonicalize_loop-canonical :
    (fuel : ℕ) (c : ℕ) (cs : List ℕ) (i : ℕ)
    → (c == slash) ≡ false
    → length cs + 1 < 2 ^ 31
    → length cs + 1 ≤ fuel + i
    → 0 < fuel
    → (t : List ℕ) × (canonicalize_loop fuel (c ∷ cs) i ≡ canonical (c ∷ t))
      × (length t ≤ length cs)
unfolding canonicalize_loop
canonicalize_loop-canonical zero c cs i h m f p = ground arith
canonicalize_loop-canonical (suc fuel) c cs i h m f p = elim (Bool-cases (ltb i (length cs))) [
  | inr t ↦ rw (sub_one cs m, t) (strip_slash-canonical c cs h)
  | inl t ↦
      let l : i < length cs = ground arith in
      let inside : i < length (c ∷ cs) = omega (arith, l) in
      let r : Round c cs i (canonicalize_at (c ∷ cs) i) =
        canonicalize_at-Round c cs i h l (omega (arith, m)) in
      let next =
        next-fuel fuel i (length cs + 1) (length r.left + 1) r.removed (omega (arith, r.shorter)) m
          (omega (arith, l)) f in
      let rest =
        canonicalize_loop-canonical fuel c r.left (add_size (sub_size i r.removed) 1) h
          (omega (arith, m, r.shorter)) next (omega (arith, f, l)) in
      (
        rest.0,
        rw (sub_one cs m, t, ltb-true inside, r.index, r.shape) rest.1,
        omega (arith, rest.2, r.shorter),
      )
]

-- On a path of fewer than 2^31 bytes that does not start with a slash and is not empty,
-- `canonicalize` ends with a path, no longer, that starts with the same byte: the loop ends, and
-- nothing outside of the path is read.
pub canonicalize-relative :
    (c : ℕ) (cs : List ℕ)
    → (c == slash) ≡ false
    → length cs + 1 < 2 ^ 31
    → (t : List ℕ) × (canonicalize (c ∷ cs) ≡ canonical (c ∷ t)) × (length t ≤ length cs)
unfolding canonicalize
canonicalize-relative c cs h m =
    canonicalize_loop-canonical (length (c ∷ cs) + 1) c cs 0 h m (omega arith) (omega arith)
