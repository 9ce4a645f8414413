-- ===== src/Buffer/Tests.antt =====
-- A Buffer (rct/Buffer.h) of four bytes, of which three are in use.
use rct.Prelude.{ℕ, ◌≤◌, ◌≡◌, refl, List, [], ◌∷◌, some, replicate, length-replicate, arith}
use rct.Buffer.{Buffer, bytes_of, realloc, clear, reserve, resize, content}
use rct.Buffer.Keeps.{IsValid, Resized, operations-Resized}

abbrev junk : ℕ → List ℕ
junk n = replicate n 204

abbrev used : Buffer
used = record { block = some (1 ∷ 2 ∷ 3 ∷ 4 ∷ []); size = 3; reserved = 4 }

used-IsValid : IsValid used
unfolding bytes_of
used-IsValid = record { whole = refl; within = omega arith }

operations-Resized_example :
    Resized used 0 (clear used)
    × Resized used 3 (reserve junk 6 used)
    × (6 ≤ (reserve junk 6 used).reserved)
    × Resized used 6 (resize junk 6 used)
operations-Resized_example =
    operations-Resized junk (λ n. length-replicate n 204) 6 used used-IsValid

grown : content (resize junk 6 used) ≡ 1 ∷ 2 ∷ 3 ∷ 4 ∷ 204 ∷ 204 ∷ []
unfolding content resize realloc bytes_of
grown = refl
