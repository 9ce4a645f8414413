-- ===== src/StackBuffer/Resize.antt =====
-- `resize` of a StackBuffer (rct/StackBuffer.h): where it works, and where it writes too far.
use Prim.Native.Nat.{min}
use rct.Prelude.{
  ◌&&◌, take-take, ℕ, zero, suc, ◌≤◌, ◌<◌, ◌≡◌, ◌∙◌, ◌⊎◌, refl, inl, inr, List, [], ◌∷◌, ◌++◌, none,
  some, if◌then◌else◌, ltb, ltb-true, ltb-false, length, take, drop, length-append, length-take,
  length-drop, take-append_le, Bool-cases, arith,
}
use rct.StackBuffer.{StackBuffer, buffer, copy, resize}

module _ {T : Type 0} where
  -- The buffer on the heap is there if and only if it is needed, and is large enough.
  pub record IsValid (capacity : ℕ) (s : StackBuffer T) : Type 0 where
    pub stack : length s.stack ≡ capacity
    pub heap :
        ((s.size ≤ capacity) × (s.heap ≡ none))
        ⊎ ((capacity < s.size) × (block : List T) × (s.heap ≡ some block) × (length block ≡ s.size))

  copy_all :
      (n : ℕ) (old target : List T)
      → n ≤ length old
      → n ≤ length target
      → copy n old target ≡ some (take n old ++ drop n target)
  unfolding copy
  copy_all zero old target h k = refl
  copy_all (suc n) [] target h k = absurd (omega arith)
  copy_all (suc n) (x ∷ old) [] h k = absurd (omega arith)
  copy_all (suc n) (x ∷ old) (y ∷ target) h k =
      rw (copy_all n old target (omega arith) (omega arith)) refl

  copy_too_far : (n : ℕ) (old target : List T) → length target < n → copy n old target ≡ none
  unfolding copy
  copy_too_far zero old target h = absurd (omega arith)
  copy_too_far (suc n) [] target h = refl
  copy_too_far (suc n) (x ∷ old) [] h = refl
  copy_too_far (suc n) (x ∷ old) (y ∷ target) h = rw (copy_too_far n old target (omega arith)) refl

  pub record Resized (capacity : ℕ) (old : StackBuffer T) (size : ℕ) (s : StackBuffer T)
      : Type 0 where
    pub valid : IsValid capacity s
    pub sized : s.size ≡ size
    pub kept : take (min old.size size) (buffer s) ≡ take (min old.size size) (buffer old)

  -- What is copied: the first elements of the old one, in a target of the same length.
  length-copied :
      (n : ℕ) (old target : List T)
      → n ≤ length old
      → n ≤ length target
      → length (take n old ++ drop n target) ≡ length target
  length-copied n old target h k =
      omega
        (arith, length-append (take n old) (drop n target), length-take n old, length-drop n target)

  take-copied :
      (m n : ℕ) (old target : List T)
      → m ≤ n
      → n ≤ length old
      → take m (take n old ++ drop n target) ≡ take m old
  take-copied m n old target h k =
      take-append_le m (take n old) (drop n target) (omega (arith, length-take n old))
      ∙ take-take m n old h

  -- The buffer that is copied has its elements.
  module _ (capacity : ℕ) (s : StackBuffer T) (v : IsValid capacity s) where
    old_buffer : (if ltb capacity s.size then buffer s else s.stack) ≡ buffer s
    unfolding buffer
    old_buffer = elim v.heap [
      | inl (small, e) ↦ rw (e, ltb-false {a = capacity} {b = s.size} small) refl
      | inr (large, block, e, l) ↦ rw (ltb-true {a = capacity} {b = s.size} large) refl
    ]

    long_enough : s.size ≤ length (buffer s)
    unfolding buffer
    long_enough = elim v.heap [
      | inl (small, e) ↦ rw (e) (omega (arith, v.stack))
      | inr (large, block, e, l) ↦ rw (e) (omega (arith, l))
    ]

    resize-Resized :
        (junk : ℕ → List T) (size : ℕ)
        → ((n : ℕ) → length (junk n) ≡ n)
        → (s.size ≤ size) ⊎ (s.size ≤ capacity)
        → (s' : StackBuffer T) × (resize capacity junk size s ≡ some s')
          × Resized capacity s size s'
    unfolding resize buffer
    resize-Resized junk size j h = elim (Bool-cases (ltb capacity size)) [
      | inl t ↦
          let fits : s.size ≤ length (junk size) = ground (arith, j size) in
          (
            _,
            rw (t, old_buffer, copy_all s.size (buffer s) (junk size) long_enough fits) refl,
            record {
              valid = record {
                stack = v.stack;
                heap = inr (
                  ground arith,
                  _,
                  refl,
                  length-copied s.size (buffer s) (junk size) long_enough fits ∙ j size,
                );
              };
              sized = refl;
              kept =
                  take-copied (min s.size size) s.size (buffer s) (junk size) (omega arith)
                    long_enough;
            },
          )
      | inr t ↦
          let fits : s.size ≤ length s.stack = ground (arith, v.stack) in
          (
            _,
            rw (t, old_buffer, copy_all s.size (buffer s) s.stack long_enough fits) refl,
            record {
              valid = record {
                stack = length-copied s.size (buffer s) s.stack long_enough fits ∙ v.stack;
                heap = inl (ground arith, refl);
              };
              sized = refl;
              kept =
                  take-copied (min s.size size) s.size (buffer s) s.stack (omega arith) long_enough;
            },
          )
    ]

    resize_too_far :
        (junk : ℕ → List T) (size : ℕ)
        → ((n : ℕ) → length (junk n) ≡ n)
        → capacity < s.size
        → size < s.size
        → resize capacity junk size s ≡ none
    unfolding resize
    resize_too_far junk size j h k = elim (Bool-cases (ltb capacity size)) [
      | inl t ↦ rw (t, copy_too_far s.size _ (junk size) (omega (arith, j size))) refl
      | inr t ↦ rw (t, copy_too_far s.size _ s.stack (omega (arith, v.stack))) refl
    ]

  -- resize of a valid buffer gives it the size and keeps the elements that both sizes have in
  -- common, and it is valid; but a buffer on the heap that is to become smaller is copied whole into
  -- the smaller one, which writes beyond its end. What new memory holds does not matter.
  pub resize-Resized_or :
      (capacity : ℕ) (s : StackBuffer T) (junk : ℕ → List T) (size : ℕ)
      → IsValid capacity s
      → ((n : ℕ) → length (junk n) ≡ n)
      → ((s' : StackBuffer T) × (resize capacity junk size s ≡ some s')
          × Resized capacity s size s'
          × ((s.size ≤ size) ⊎ (s.size ≤ capacity)))
        ⊎ ((capacity < s.size) × (size < s.size) × (resize capacity junk size s ≡ none))
  resize-Resized_or capacity s junk size v j =
      elim (Bool-cases (ltb size s.size && ltb capacity s.size)) [
        | inl t ↦
            let far : (capacity < s.size) × (size < s.size) = ground arith in
            inr (far.0, far.1, resize_too_far capacity s v junk size j far.0 far.1)
        | inr t ↦
            let near : (s.size ≤ size) ⊎ (s.size ≤ capacity) = ground arith in
            let (s', e, r) = resize-Resized capacity s v junk size j near in inl (s', e, r, near)
      ]
