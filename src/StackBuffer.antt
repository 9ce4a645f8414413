-- ===== src/StackBuffer.antt =====
-- rct/StackBuffer.h: a buffer within the object, or on the heap if it is larger.
pub mod Resize
mod Tests
use rct.Prelude.{ℕ, zero, suc, List, [], ◌∷◌, Option, none, some, and_then, if◌then◌else◌, ltb}

-- `mStackBuffer`; the block of the heap that `mBuffer` points to, `none` if it points to the former;
-- and `mSize`.
pub record StackBuffer (T : Type 0) : Type 0 where
  pub stack : List T
  pub heap : Option (List T)
  pub size : ℕ

module _ {T : Type 0} where
  -- What `mBuffer` points to.
  unfoldable pub buffer : StackBuffer T → List T
  buffer s = elim s.heap [ none ↦ s.stack | some block ↦ block ]

  -- The constructor, whose memory holds anything: `junk` has as many elements as it is asked for,
  -- and `capacity` is the parameter `Size`.
  unfoldable pub new_buffer : ℕ → (ℕ → List T) → ℕ → StackBuffer T
  new_buffer capacity junk len = record {
    stack = junk capacity;
    heap = if ltb capacity len then some (junk len) else none;
    size = len;
  }

  -- The loop of `resize`; `none` is an access outside of one of the two.
  unfoldable pub copy : ℕ → List T → List T → Option (List T)
  copy zero old target = some target
  copy (suc n) [] target = none
  copy (suc n) (x ∷ old) [] = none
  copy (suc n) (x ∷ old) (y ∷ target) = and_then (copy n old target) (λ r. some (x ∷ r))

  unfoldable pub resize : ℕ → (ℕ → List T) → ℕ → StackBuffer T → Option (StackBuffer T)
  resize capacity junk size s =
      let old = if ltb capacity s.size then buffer s else s.stack in
      if ltb capacity size
      then and_then (copy s.size old (junk size))
          (λ block. some (record { stack = s.stack; heap = some block; size = size }))
      else and_then (copy s.size old s.stack)
          (λ stack. some (record { stack = stack; heap = none; size = size }))
