-- ===== src/Tokenizer/Boundary.antt =====
-- rct/StringTokenizer.h, is_boundary_match: a query as the first characters of the words.
use rct.Prelude.{
  ℕ, zero, suc, ◌≤◌, ◌<◌, ◌≡◌, ◌⊎◌, inl, inr, refl, sym, ap, ◌∙◌, Bool, true, false, List, [], ◌∷◌,
  ◌++◌, length, take, drop, replicate, ◌==◌, Bool-cases, length-take, arith, tests, ltb,
  drop-append_eq, eq_of, ap₂, eq_true,
}
use rct.Tokenizer.{common_prefix, try_lengths, match_from, strip, is_boundary_match}

abbrev Word : Type 0
Word = List ℕ

-- The query is the first `i` characters of each word, one word after the other.
unfoldable pub Spells : List Word → List ℕ → List ℕ → Type 0
Spells [] query [] = query ≡ []
Spells [] query (i ∷ indices) = ⊥
Spells (part ∷ parts) query [] = ⊥
Spells (part ∷ parts) query (i ∷ indices) =
    (rest : List ℕ) × (i ≤ length part) × (query ≡ take i part ++ rest) × Spells parts rest indices

-- Lists of indices, the first one that differs decides.
unfoldable pub AtMost : List ℕ → List ℕ → Type 0
AtMost [] js = Unit
AtMost (i ∷ is) [] = ⊥
AtMost (i ∷ is) (j ∷ js) = (i < j) ⊎ ((i ≡ j) × AtMost is js)

-- A search finds out whether a list of indices spells the query, and if so it finds the greatest.
unfoldable pub Greatest : List Word → List ℕ → Bool × List ℕ → Type 0
Greatest parts query r =
    ((indices : List ℕ) → Spells parts query indices → (r.0 ≡ true) × AtMost indices r.1)
    × (r.0 ≡ true → Spells parts query r.1)

abbrev zeros : List Word → List ℕ
zeros parts = replicate (length parts) 0

-- What a call for some words does, with what it leaves where it fails.
unfoldable Searches : List Word → (List ℕ → List ℕ → Bool × List ℕ) → Type 0
Searches parts match =
    (query : List ℕ)
    → Greatest parts query (match query (zeros parts))
      × ((match query (zeros parts)).0 ≡ false → (match query (zeros parts)).1 ≡ zeros parts)

Spells-nil : (parts : List Word) → Spells parts [] (zeros parts)
unfolding Spells
Spells-nil [] = refl
Spells-nil (part ∷ parts) = ([], omega arith, refl, Spells-nil parts)

Spells-nil_zeros :
    (parts : List Word) (indices : List ℕ) → Spells parts [] indices → AtMost indices (zeros parts)
unfolding Spells AtMost
Spells-nil_zeros parts [] s = tt
Spells-nil_zeros [] (i ∷ is) s = absurd s
Spells-nil_zeros (part ∷ parts) (zero ∷ is) s = inr (refl, Spells-nil_zeros parts is (rw (s.2) s.3))
Spells-nil_zeros ([] ∷ parts) (suc i ∷ is) s = absurd (omega (arith, s.1))
Spells-nil_zeros ((c ∷ part) ∷ parts) (suc i ∷ is) s = absurd (cc s.2)

take-common_prefix : (i : ℕ) (s t : List ℕ) → i ≤ common_prefix s t → t ≡ take i s ++ drop i t
unfolding common_prefix
take-common_prefix zero s t h = refl
take-common_prefix (suc i) [] t h = absurd (omega arith)
take-common_prefix (suc i) (a ∷ s) [] h = absurd (omega arith)
take-common_prefix (suc i) (a ∷ s) (b ∷ t) h = elim (Bool-cases (a == b)) [
  | inl e ↦
      let k : suc i ≤ suc (common_prefix s t) = rw (e) at h in
      ap₂ ◌∷◌ (sym (eq_of a b e)) (take-common_prefix i s t (omega arith))
  | inr f ↦ let k : suc i ≤ 0 = rw (f) at h in absurd (omega arith)
]

common_prefix-length : (s t : List ℕ) → common_prefix s t ≤ length s
unfolding common_prefix
common_prefix-length [] t = omega arith
common_prefix-length (a ∷ s) [] = omega arith
common_prefix-length (a ∷ s) (b ∷ t) = let ih = common_prefix-length s t in ground arith

common_prefix-take :
    (i : ℕ) (s rest : List ℕ) → i ≤ length s → i ≤ common_prefix s (take i s ++ rest)
unfolding common_prefix
common_prefix-take zero s rest h = omega arith
common_prefix-take (suc i) [] rest h = absurd (omega arith)
common_prefix-take (suc i) (a ∷ s) rest h =
    let ih = common_prefix-take i s rest (omega arith) in rw (eq_true {a = a} refl) (omega arith)

drop-rest :
    (i : ℕ) (part query rest : List ℕ)
    → i ≤ length part
    → query ≡ take i part ++ rest
    → rest ≡ drop i query
drop-rest i part query rest h e =
    let l = length-take i part in
    sym (ap (drop i) e ∙ drop-append_eq i (take i part) rest (omega arith))

-- The others spell what is left of the query.
spelled-rest :
    (i : ℕ) (part : Word) (parts : List Word) (query indices : List ℕ)
    → Spells (part ∷ parts) query (i ∷ indices)
    → Spells parts (drop i query) indices
unfolding Spells
spelled-rest i part parts query indices (rest, h, e, s) = rw (drop-rest i part query rest h e) at s

-- What the words and lengths up to `i` of the first word find, once `match` searches the others.
Tried : ℕ → Word → List Word → List ℕ → Bool × List ℕ → Type 0
Tried i part parts query r =
    ((k : ℕ) (indices : List ℕ)
      → k ≤ i
      → Spells (part ∷ parts) query (k ∷ indices)
      → (r.0 ≡ true) × AtMost (k ∷ indices) r.1)
    × (r.0 ≡ true → Spells (part ∷ parts) query r.1)
    × (r.0 ≡ false → r.1 ≡ zeros (part ∷ parts))

try_lengths-Tried :
    (match : List ℕ → List ℕ → Bool × List ℕ) (i : ℕ) (part : Word) (parts : List Word)
    (query : List ℕ)
    → Searches parts match
    → i ≤ common_prefix part query
    → Tried i part parts query (try_lengths match i query (zeros parts))
unfolding try_lengths Tried Searches Greatest Spells AtMost
try_lengths-Tried match zero part parts query m h =
    let g = m query in
    (
      λ k indices le s.
          let none_taken : k ≡ 0 = omega arith in
          let others = spelled-rest k part parts query indices s in
          let found = g.0.0 indices (rw (none_taken) at others) in
          (found.0, inr (none_taken, found.1)),
      λ e. (query, omega arith, refl, g.0.1 e),
      λ e. ap (λ js. 0 ∷ js) (g.1 e),
    )
try_lengths-Tried match (suc i) part parts query m h =
    let r = match (drop (suc i) query) (zeros parts) in
    let g = m (drop (suc i) query) in
    let long : suc i ≤ length part = omega (arith, common_prefix-length part query) in
    let less_tried = try_lengths-Tried match i part parts query m (omega arith) in
    elim (Bool-cases r.0) [
      | inl t ↦
          rw (t, try_lengths)
            ((
              λ k indices le s. elim (Bool-cases (ltb k (suc i))) [
                | inl below ↦ (refl, inl (omega (tests, below)))
                | inr above ↦
                    let same : k ≡ suc i = ground arith in
                    let others = spelled-rest k part parts query indices s in
                    (refl, inr (same, (g.0.0 indices (rw (same) at others)).1))
              ],
              λ e. (drop (suc i) query, long, take-common_prefix (suc i) part query h, g.0.1 t),
              λ e. absurd (cc e),
            ))
      | inr f ↦
          rw (f, try_lengths, g.1 f)
            ((
              λ k indices le s. elim (Bool-cases (ltb k (suc i))) [
                | inl below ↦ less_tried.0 k indices (ground arith) s
                | inr above ↦
                    let same : k ≡ suc i = ground arith in
                    let others = spelled-rest k part parts query indices s in
                    let found = g.0.0 indices (rw (same) at others) in absurd (cc (found.0, f))
              ],
              less_tried.1,
              less_tried.2,
            ))
    ]

nothing-Spells : (c : ℕ) (query indices : List ℕ) → ¬ Spells [] (c ∷ query) indices
unfolding Spells
nothing-Spells c query [] s = cc s
nothing-Spells c query (i ∷ indices) s = s

Tried-found :
    (part : Word) (parts : List Word) (query : List ℕ) (r : Bool × List ℕ)
    → Tried (common_prefix part query) part parts query r
    → (indices : List ℕ) → Spells (part ∷ parts) query indices
    → (r.0 ≡ true) × AtMost indices r.1
unfolding Tried Spells
Tried-found part parts query r t [] s = absurd s
Tried-found part parts query r t (i ∷ indices) s =
    let le : i ≤ common_prefix part query = rw (s.2) (common_prefix-take i part s.0 s.1) in
    t.0 i indices le s

match_from-Searches : (parts : List Word) → Searches parts (match_from parts)
unfolding match_from Searches Greatest Spells AtMost Tried
match_from-Searches parts [] = (
  (λ indices s. (refl, Spells-nil_zeros parts indices s), λ e. Spells-nil parts),
  λ e. absurd (cc e),
)
match_from-Searches [] (c ∷ query) =
    ((λ indices s. absurd (nothing-Spells c query indices s), λ e. absurd (cc e)), λ e. refl)
match_from-Searches (part ∷ parts) (c ∷ query) =
    let t =
      try_lengths-Tried (match_from parts) (common_prefix part (c ∷ query)) part parts (c ∷ query)
        (match_from-Searches parts) (omega arith) in
    ((Tried-found part parts (c ∷ query) _ t, t.1), t.2)

pub is_boundary_match-Greatest :
    (parts : List Word) (query : List ℕ)
    → Greatest parts (strip query) (is_boundary_match parts query)
unfolding is_boundary_match Searches
is_boundary_match-Greatest parts query = (match_from-Searches parts (strip query)).0
