-- ===== src/Buffer/Keeps.antt =====
-- What the operations of a Buffer keep (rct/Buffer.h).
use Prim.Native.Nat.{min}
use rct.Prelude.{
  take-take, ℕ, ◌≤◌, ◌≡◌, ◌∙◌, refl, sym, inl, inr, ◌&&◌, List, Option, some, leb, ◌==◌, eq_of,
  length, take, drop, length-append, length-take, length-drop, take-append_le, Bool-cases, arith,
}
use rct.Buffer.{Buffer, bytes_of, realloc, clear, reserve, resize, content}

-- The block has the bytes that are reserved, and those in use are among them.
pub record IsValid (b : Buffer) : Type 0 where
  pub whole : length (bytes_of b.block) ≡ b.reserved
  pub within : b.size ≤ b.reserved

-- After an operation on a buffer it is valid and has the size that was asked for, and the bytes that both
-- sizes have in common are as before.
pub record Resized (old : Buffer) (sz : ℕ) (b : Buffer) : Type 0 where
  pub valid : IsValid b
  pub size : b.size ≡ sz
  pub kept : take (min old.size sz) (content b) ≡ take (min old.size sz) (content old)

module _ (junk : ℕ → List ℕ) (junk_size : (n : ℕ) → length (junk n) ≡ n) where
  length-realloc : (block : Option (List ℕ)) (sz : ℕ) → length (realloc junk block sz) ≡ sz
  unfolding realloc
  length-realloc block sz =
      let bytes = bytes_of block in
      omega (
        arith,
        length-append (take sz bytes) (drop (length bytes) (junk sz)),
        length-take sz bytes,
        length-drop (length bytes) (junk sz),
        junk_size sz,
      )

  take-realloc :
      (block : Option (List ℕ)) (n sz : ℕ)
      → n ≤ sz
      → n ≤ length (bytes_of block)
      → take n (realloc junk block sz) ≡ take n (bytes_of block)
  unfolding realloc
  take-realloc block n sz h k =
      let bytes = bytes_of block in
      take-append_le n (take sz bytes) (drop (length bytes) (junk sz))
        (omega (arith, length-take sz bytes))
      ∙ take-take n sz bytes h

  clear-Resized : (b : Buffer) → IsValid b → Resized b 0 (clear b)
  unfolding clear content bytes_of
  clear-Resized b v =
      let none_kept : min b.size 0 ≡ 0 = omega arith in
      elim (Bool-cases (leb 0x8_0000 b.size)) [
        | inl t ↦ rw (t) (record {
          valid = record { whole = refl; within = omega arith };
          size = refl;
          kept = rw (none_kept) refl;
        })
        | inr t ↦ rw (t) (record {
          valid = record { whole = v.whole; within = omega arith };
          size = refl;
          kept = rw (none_kept) refl;
        })
      ]

  -- A block that is reallocated to `sz` bytes, of which `n` are in use.
  realloc-Resized :
      (b : Buffer) (n sz : ℕ)
      → IsValid b
      → n ≤ sz
      → Resized b n (record { block = some (realloc junk b.block sz); size = n; reserved = sz })
  unfolding content bytes_of
  realloc-Resized b n sz v h =
      let common = min b.size n in
      record {
        valid = record { whole = length-realloc b.block sz; within = h };
        size = refl;
        kept =
            take-take common n (realloc junk b.block sz) (omega arith)
            ∙ (take-realloc b.block common sz (omega arith) (omega (arith, v.whole, v.within))
                ∙ sym (take-take common b.size (bytes_of b.block) (omega arith)));
      }

  reserve-Resized : (sz : ℕ) (b : Buffer) → IsValid b → Resized b b.size (reserve junk sz b)
  unfolding reserve
  reserve-Resized sz b v = elim (Bool-cases (leb sz b.reserved)) [
    | inl t ↦ rw (t) (record { valid = v; size = refl; kept = refl })
    | inr t ↦ rw (t) (realloc-Resized b b.size sz v (ground (arith, v.within)))
  ]

  resize-Resized : (sz : ℕ) (b : Buffer) → IsValid b → Resized b sz (resize junk sz b)
  unfolding resize content
  resize-Resized sz b v = elim (Bool-cases (sz == 0)) [
    | inl t ↦ rw (t, eq_of sz 0 t) (clear-Resized b v)
    | inr t ↦ elim (Bool-cases (leb b.size sz && leb sz b.reserved)) [
      | inl u ↦
          let fits : (b.size ≤ sz) × (sz ≤ b.reserved) = ground arith in
          let common = min b.size sz in
          rw (t, u)
            (record {
              valid = record { whole = v.whole; within = fits.1 };
              size = refl;
              kept =
                  take-take common sz (bytes_of b.block) (omega arith)
                  ∙ sym (take-take common b.size (bytes_of b.block) (omega arith));
            })
      | inr u ↦ rw (t, u) (realloc-Resized b sz sz v (omega arith))
    ]
  ]

  reserved : (sz : ℕ) (b : Buffer) → sz ≤ (reserve junk sz b).reserved
  unfolding reserve
  reserved sz b = elim (Bool-cases (leb sz b.reserved)) [
    | inl t ↦ rw (t) (ground arith)
    | inr t ↦ rw (t) (omega arith)
  ]

  -- clear, reserve and resize keep a buffer valid: its block has as many bytes as are reserved, and those
  -- in use are among them. clear makes it empty, reserve keeps its size and has the bytes that were asked for, resize
  -- gives it the size that was asked for, and the bytes that both sizes have in common are as before,
  -- whatever realloc puts in the new ones.
  pub operations-Resized :
      (sz : ℕ) (b : Buffer)
      → IsValid b
      → Resized b 0 (clear b)
        × Resized b b.size (reserve junk sz b)
        × (sz ≤ (reserve junk sz b).reserved)
        × Resized b sz (resize junk sz b)
  unfolding reserve
  operations-Resized sz b v =
      (clear-Resized b v, reserve-Resized sz b v, reserved sz b, resize-Resized sz b v)
