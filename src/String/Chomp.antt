-- ===== src/String/Chomp.antt =====
-- What `chomp` (rct/String.h) leaves at the end of a string.
use rct.Prelude.{
  ℕ, suc, ◌-◌, ◌≡◌, refl, false, List, [], ◌∷◌, ◌++◌, some, length, length-append, drop-append_eq,
  arith,
}
use rct.String.{contains, chomp_step, chomp_loop, chomp}

chomp_loop-kept :
    (s chars : List ℕ) (c d : ℕ)
    → contains chars c ≡ false
    → chomp_loop (s ++ c ∷ d ∷ []) chars (suc (length s)) ≡ suc (length s)
unfolding chomp_loop chomp_step
chomp_loop-kept s chars c d h = rw (drop-append_eq (length s) s (c ∷ d ∷ []) refl, h) refl

-- `chomp` never looks at the last byte: a string of two bytes and more stays as it is if the one
-- before the last is not among those to remove, whatever the last one is.
chomp-kept :
    (s chars : List ℕ) (c d : ℕ)
    → contains chars c ≡ false
    → chomp (s ++ c ∷ d ∷ []) chars ≡ some (s ++ c ∷ d ∷ [], 0)
unfolding chomp
chomp-kept [] chars c d h = rw (chomp_loop-kept [] chars c d h) refl
chomp-kept (x ∷ s) chars c d h =
    let two : length (s ++ c ∷ d ∷ []) ≡ suc (suc (length s)) =
      omega (arith, length-append s (c ∷ d ∷ [])) in
    let nothing : suc (suc (suc (length s))) - suc (suc (length s)) - 1 ≡ 0 = omega arith in
    rw (two, chomp_loop-kept (x ∷ s) chars c d h, nothing) refl
