-- ===== src/String/AnyCase.antt =====
-- Searches of a byte without respect to case (rct/String.h) against those with respect to it.
use rct.Prelude.{
  ℕ, zero, suc, ◌+◌, ◌%◌, ◌^◌, ◌<◌, ◌≡◌, ◌∙◌, refl, sym, ap, inl, inr, List, [], ◌∷◌, some,
  if◌then◌else◌, ◌==◌, length, drop, get_or, ltb-false, ltb-true, leb-false, eq_false, Bool-cases,
  arith,
}
use rct.Prelude.Words.{npos}
use rct.String.{find, index_of, rfind, last_index_of}
use rct.String.Case.{lower, to_lower, is_upper, length-to_lower}
use rct.String.Search.{find_any_case, index_of_any_case, rfind_any_case, last_index_of_any_case}

drop-to_lower : (n : ℕ) (s : List ℕ) → drop n (to_lower s) ≡ to_lower (drop n s)
unfolding to_lower
drop-to_lower zero s = refl
drop-to_lower (suc n) [] = refl
drop-to_lower (suc n) (c ∷ s) = drop-to_lower n s

get_or-to_lower : (s : List ℕ) (i : ℕ) → get_or (to_lower s) i 0 ≡ lower (get_or s i 0)
unfolding to_lower lower is_upper
get_or-to_lower [] i = refl
get_or-to_lower (c ∷ s) zero = refl
get_or-to_lower (c ∷ s) (suc i) = get_or-to_lower s i

find_any_case-find :
    (ch from : ℕ) (s : List ℕ) → find_any_case ch from s ≡ find ch from (to_lower s)
unfolding find_any_case find to_lower
find_any_case-find ch from [] = refl
find_any_case-find ch from (c ∷ s) = rw (find_any_case-find ch (from + 1) s) refl

rfind_any_case-rfind :
    (ch : ℕ) (s : List ℕ) (from i : ℕ)
    → i < npos
    → rfind_any_case ch s from i ≡ (if rfind ch (to_lower s) i == npos then npos else from)
unfolding rfind_any_case rfind
rfind_any_case-rfind ch s from zero h = refl
rfind_any_case-rfind ch s from (suc i) h =
    let ih = rfind_any_case-rfind ch s from i (omega arith) in
    let byte = get_or-to_lower s i in
    elim (Bool-cases (lower (get_or s i 0) == ch)) [
      | inl t ↦
          rw (t, byte, t, eq_false {a = i} {b = npos} (λ e. absurd (omega (arith, e, h)))) refl
      | inr t ↦ rw (t, byte, t) ih
    ]

-- Without respect to case, indexOf of a byte is indexOf of the lower-case byte in the lower-case
-- string; lastIndexOf finds a byte where lastIndexOf does in the lower-case string, but answers the place that it
-- started from and not the place of the byte. The start is in the string, which is shorter than
-- 2^31 bytes.
pub any_case-to_lower :
    (s : List ℕ) (ch from : ℕ)
    → from < length s
    → length s < 2 ^ 31
    → (index_of_any_case s ch from ≡ index_of (to_lower s) (lower ch) from)
      × (last_index_of_any_case s ch from
          ≡ some (if last_index_of (to_lower s) (lower ch) from == npos then npos else from))
unfolding index_of_any_case index_of last_index_of_any_case last_index_of
any_case-to_lower s ch from h k =
    let word : from % 2 ^ 32 ≡ from = omega (arith, h, k) in
    (
      find_any_case-find (lower ch) from (drop from s)
          ∙ ap (find (lower ch) from) (sym (drop-to_lower from s)),
      rw
          (
            eq_false {a = from} {b = npos} (λ e. absurd (omega (arith, e, h, k))),
            word,
            leb-false {a = 2 ^ 31} {b = from} (omega arith),
            ltb-false {a = length s} {b = from} (omega arith),
            length-to_lower s,
            ltb-true {a = from} {b = length s} h,
            rfind_any_case-rfind (lower ch) s from (from + 1) (omega arith),
          )
          refl,
    )
