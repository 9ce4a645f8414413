-- ===== src/Path/Tests.antt =====
-- Concrete paths for rct/Path.cpp.
use rct.Prelude.{ℕ, ◌≤◌, ◌≡◌, ◌++◌, refl, false, List, [], ◌∷◌, some, length, arith}
use rct.Path.{
  parent_dir, file_name, extension, extension_loop, canonical, bad_read, canonicalize,
  canonicalize_loop, canonicalize_at, collapse, close_gap, dots_at, dot_at, strip_slash, int_places,
}
use rct.Path.Parts.{double_slash, parent_dir-file_name}
use rct.Path.Canonical.{canonicalize-relative}

-- "ab/x.c/".
abbrev text : List ℕ
text = 97 ∷ 98 ∷ 47 ∷ 120 ∷ 46 ∷ 99 ∷ 47 ∷ []

text-single : double_slash text ≡ false
unfolding double_slash
text-single = refl

parent_dir-file_name_example :
    (p : List ℕ) × (parent_dir text ≡ some p) × (p ++ file_name text ≡ text)
parent_dir-file_name_example = parent_dir-file_name text (omega arith) text-single

extension-header : extension (97 ∷ 46 ∷ 104 ∷ []) ≡ some (104 ∷ [])
unfolding extension extension_loop int_places
extension-header = refl

-- "ab/../c/./d//" becomes "ab/../c/d": the first component has no slash before it.
abbrev relative : List ℕ
relative = 97 ∷ 98 ∷ 47 ∷ 46 ∷ 46 ∷ 47 ∷ 99 ∷ 47 ∷ 46 ∷ 47 ∷ 100 ∷ 47 ∷ 47 ∷ []

canonicalize-relative_example :
    (t : List ℕ) × (canonicalize relative ≡ canonical (97 ∷ t)) × (length t ≤ 12)
canonicalize-relative_example =
    canonicalize-relative 97 (98 ∷ 47 ∷ 46 ∷ 46 ∷ 47 ∷ 99 ∷ 47 ∷ 46 ∷ 47 ∷ 100 ∷ 47 ∷ 47 ∷ []) refl
      (omega arith)

canonicalize-relative_run :
    canonicalize relative ≡ canonical (97 ∷ 98 ∷ 47 ∷ 46 ∷ 46 ∷ 47 ∷ 99 ∷ 47 ∷ 100 ∷ [])
unfolding canonicalize canonicalize_loop canonicalize_at collapse close_gap dots_at dot_at
    strip_slash int_places
canonicalize-relative_run = refl

-- "/a/../b/../c" becomes "/b/../c", and "/a/.." and "/." end with a read outside of the path.
canonicalize-early :
    canonicalize (47 ∷ 97 ∷ 47 ∷ 46 ∷ 46 ∷ 47 ∷ 98 ∷ 47 ∷ 46 ∷ 46 ∷ 47 ∷ 99 ∷ [])
    ≡ canonical (47 ∷ 98 ∷ 47 ∷ 46 ∷ 46 ∷ 47 ∷ 99 ∷ [])
unfolding canonicalize canonicalize_loop canonicalize_at collapse close_gap dots_at dot_at
    strip_slash int_places
canonicalize-early = refl

canonicalize-parent : canonicalize (47 ∷ 97 ∷ 47 ∷ 46 ∷ 46 ∷ []) ≡ bad_read
unfolding canonicalize canonicalize_loop canonicalize_at collapse close_gap dots_at dot_at
    strip_slash int_places
canonicalize-parent = refl

canonicalize-dot : canonicalize (47 ∷ 46 ∷ []) ≡ bad_read
unfolding canonicalize canonicalize_loop canonicalize_at collapse close_gap dots_at dot_at
    strip_slash int_places
canonicalize-dot = refl
