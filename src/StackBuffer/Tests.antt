-- ===== src/StackBuffer/Tests.antt =====
-- A StackBuffer (rct/StackBuffer.h) of two elements within the object.
use rct.Prelude.{
  ℕ, ◌≤◌, ◌<◌, ◌≡◌, ◌⊎◌, refl, inr, List, [], ◌∷◌, none, some, replicate, length-replicate, arith,
}
use rct.StackBuffer.{StackBuffer, buffer, copy, resize}
use rct.StackBuffer.Resize.{IsValid, Resized, resize-Resized_or}

abbrev junk : ℕ → List ℕ
junk n = replicate n 204

-- Three elements, on the heap.
abbrev three : StackBuffer ℕ
three = record { stack = 204 ∷ 204 ∷ []; heap = some (1 ∷ 2 ∷ 3 ∷ []); size = 3 }

three-IsValid : IsValid 2 three
three-IsValid = record { stack = refl; heap = inr (omega arith, 1 ∷ 2 ∷ 3 ∷ [], refl, refl) }

resize-Resized_or_example :
    ((s' : StackBuffer ℕ) × (resize 2 junk 4 three ≡ some s')
      × Resized 2 three 4 s'
      × ((3 ≤ 4) ⊎ (3 ≤ 2)))
    ⊎ ((2 < 3) × (4 < 3) × (resize 2 junk 4 three ≡ none))
resize-Resized_or_example =
    resize-Resized_or 2 three junk 4 three-IsValid (λ n. length-replicate n 204)

smaller : resize 2 junk 1 three ≡ none
unfolding resize copy buffer
smaller = refl
