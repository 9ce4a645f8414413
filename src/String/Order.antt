-- ===== src/String/Order.antt =====
-- rct/String.h: the order of strings.
use rct.Prelude.{
  ℕ, ◌≡◌, inl, inr, refl, ap₂, Bool, true, false, List, [], ◌∷◌, if◌then◌else◌, ltb, Bool-cases,
  arith,
}

-- `std::string::operator<`
unfoldable pub less : List ℕ → List ℕ → Bool
less [] [] = false
less [] (b ∷ t) = true
less (a ∷ s) [] = false
less (a ∷ s) (b ∷ t) =
    let rest = less s t in if ltb a b then true else if ltb b a then false else rest

pub less_irrefl : (a : List ℕ) → less a a ≡ false
unfolding less
less_irrefl [] = refl
less_irrefl (x ∷ a) = let ih = less_irrefl a in ground arith

pub less_trans : (a b c : List ℕ) → less a b ≡ true → less b c ≡ true → less a c ≡ true
unfolding less
less_trans [] [] c h k = absurd (cc h)
less_trans [] (y ∷ b) [] h k = absurd (cc k)
less_trans [] (y ∷ b) (z ∷ c) h k = refl
less_trans (x ∷ a) [] c h k = absurd (cc h)
less_trans (x ∷ a) (y ∷ b) [] h k = absurd (cc k)
less_trans (x ∷ a) (y ∷ b) (z ∷ c) h k = let ih = less_trans a b c in ground arith

pub less_total : (a b : List ℕ) → less a b ≡ false → less b a ≡ false → a ≡ b
unfolding less
less_total [] [] h k = refl
less_total [] (y ∷ b) h k = absurd (cc h)
less_total (x ∷ a) [] h k = absurd (cc k)
less_total (x ∷ a) (y ∷ b) h k =
    let same : x ≡ y = ground arith in
    ap₂ (λ u us. u ∷ us) same (less_total a b (ground arith) (ground arith))

pub less_asym : (a b : List ℕ) → less a b ≡ true → less b a ≡ false
less_asym a b h = elim (Bool-cases (less b a)) [
  | inl k ↦ absurd (cc (less_irrefl a, less_trans a b a h k))
  | inr f ↦ f
]

-- What `std::sort` and `std::map` ask of an order, with `less_asym`.
pub less_negtrans : (a b c : List ℕ) → less a b ≡ false → less b c ≡ false → less a c ≡ false
less_negtrans a b c h k = elim (Bool-cases (less a c)) [
  | inr f ↦ f
  | inl t ↦ elim (Bool-cases (less b a)) [
    | inl ba ↦ absurd (cc (less_trans b a c ba t, k))
    | inr ab ↦ let same : a ≡ b = less_total a b h ab in absurd (cc (same, t, k))
  ]
]
