-- ===== src/Value/Lookup.antt =====
-- rct/Value.h: what is found in a map after an assignment.
use rct.Prelude.{
  ℕ, ◌≡◌, ◌⊎◌, inl, inr, refl, sym, ap, ◌∙◌, Bool, true, false, List, Option, none, some,
  if◌then◌else◌, Bool-cases,
}
use rct.String.Order.{less, less_irrefl, less_trans, less_total, less_asym}
use rct.Value.{Value, Entries, set_entry}
use rct.Value.{
  invalid, undefined, boolean, integer, double, string, null_custom, custom, map, list, date, end,
  entry,
}
use rct.Value.Access.{find_entry, or_default, member_or, member_at, assign_member}

abbrev pub Differs : List ℕ → List ℕ → Type 0
Differs j key = (less key j ≡ true) ⊎ (less j key ≡ true)

find_entry-set_self :
    (key : List ℕ) (w : Value) (es : Entries) → find_entry key (set_entry key w es) ≡ some w
unfolding find_entry set_entry
find_entry-set_self key w end = rw (less_irrefl key) refl
find_entry-set_self key w (entry k u es) = elim (Bool-cases (less k key)) [
  | inl t ↦ rw (t, find_entry, t) (find_entry-set_self key w es)
  | inr f ↦ elim (Bool-cases (less key k)) [
    | inl t ↦ rw (f, t, find_entry, less_irrefl key) refl
    | inr g ↦ rw (f, g, find_entry, less_irrefl key) refl
  ]
]

-- The first entry has another key.
find_entry-head :
    (j key : List ℕ) (w : Value) (es : Entries)
    → Differs j key
    → find_entry j (entry key w es) ≡ (if less key j then find_entry j es else none)
unfolding find_entry
find_entry-head j key w es (inl t) = rw (t) refl
find_entry-head j key w es (inr t) = rw (less_asym j key t, t) refl

if_none {ℓ} : {A : Type ℓ} (b : Bool) → ◌≡◌ {A = Option A} (if b then none else none) none
if_none true = refl
if_none false = refl

before :
    (j key k : List ℕ) (u : Value) (es : Entries)
    → Differs j key
    → less key k ≡ true
    → (if less key j then find_entry j (entry k u es) else none) ≡ find_entry j (entry k u es)
unfolding find_entry
before j key k u es (inl t) h = rw (t) refl
before j key k u es (inr t) h =
    let lower = less_trans j key k t h in rw (less_asym j key t, less_asym j k lower, lower) refl

find_entry-set_other :
    (j key : List ℕ) (w : Value) (es : Entries)
    → Differs j key
    → find_entry j (set_entry key w es) ≡ find_entry j es
unfolding set_entry find_entry
find_entry-set_other j key w end d = find_entry-head j key w end d ∙ if_none (less key j)
find_entry-set_other j key w (entry k u es) d = elim (Bool-cases (less k key)) [
  | inl t ↦ rw (t, find_entry, find_entry-set_other j key w es d) refl
  | inr f ↦ elim (Bool-cases (less key k)) [
    | inl t ↦ rw (f, t) (find_entry-head j key w (entry k u es) d ∙ before j key k u es d t)
    | inr g ↦
        let same : k ≡ key = less_total k key f g in
        rw (f, g) (find_entry-head j key w es d ∙ sym (rw (same) (find_entry-head j key u es d)))
  ]
]

-- After `v[key] = w` on an invalid value or a map, `w` is found at the key, and at every other key
-- what was found there before.
pub assign_member-member_at :
    (key : List ℕ) (w v v' : Value)
    → assign_member key w v ≡ some v'
    → (member_at key v' ≡ some w)
      × ((j : List ℕ) (d : Value) → Differs j key → member_or j d v' ≡ member_or j d v)
unfolding assign_member member_at member_or or_default find_entry
assign_member-member_at key w invalid v' h =
    let same : map (set_entry key w end) ≡ v' = cc h in
    rw (← same) (
      find_entry-set_self key w end,
      λ j d n. ap (λ o. or_default d o) (find_entry-set_other j key w end n),
    )
assign_member-member_at key w (map es) v' h =
    let same : map (set_entry key w es) ≡ v' = cc h in
    rw (← same) (
      find_entry-set_self key w es,
      λ j d n. ap (λ o. or_default d o) (find_entry-set_other j key w es n),
    )
assign_member-member_at key w undefined v' h = absurd (cc h)
assign_member-member_at key w (boolean b) v' h = absurd (cc h)
assign_member-member_at key w (integer n) v' h = absurd (cc h)
assign_member-member_at key w (double d) v' h = absurd (cc h)
assign_member-member_at key w (string s) v' h = absurd (cc h)
assign_member-member_at key w null_custom v' h = absurd (cc h)
assign_member-member_at key w (custom s) v' h = absurd (cc h)
assign_member-member_at key w (list vs) v' h = absurd (cc h)
assign_member-member_at key w (date t) v' h = absurd (cc h)
