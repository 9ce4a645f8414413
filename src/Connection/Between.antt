-- ===== src/Connection/Between.antt =====
-- The state of `Connection::onDataAvailable` (rct/Connection.cpp) between two calls.
use rct.Prelude.{
  ℕ, ◌+◌, ◌<◌, ◌≤◌, ap, List, [], ◌∷◌, ◌++◌, append_assoc, length, length-append, arith,
}
use rct.Serializer.{u32_mod}
use rct.Buffers.{push, content}
use rct.Buffers.Read.{content-push}
use rct.Buffers.Blocks.{push-IsValid, push-AllShort, joined-le}
use rct.Connection.{Input, int_limit}
use rct.Connection.Frame.{AllFrames, block_limit, residue, Holds, first_size, residue-content}

-- Between two calls: frames are still to come, and what is held back is less than the first.
pub record Waiting (s : Input) (fut : List ℕ) (ps : List (List ℕ)) : Type 0 where
  pub holds : Holds s fut ps
  pub waits : length (residue s) < first_size ps

pub first_size-le : (ps : List (List ℕ)) → AllFrames ps → first_size ps ≤ 4 + int_limit
first_size-le [] h = omega arith
first_size-le (p ∷ ps) h = omega (arith, h.1)

pub content-lt :
    (s : Input) (fut : List ℕ) (ps : List (List ℕ))
    → Waiting s fut ps
    → length (content s.buffers) < 4 + int_limit
content-lt s fut ps w =
    let part = residue-content s in omega (arith, w.waits, first_size-le ps w.holds.frames)

pub Waiting-push :
    (buf : List ℕ) (s : Input) (fut : List ℕ) (ps : List (List ℕ))
    → length buf ≤ block_limit
    → Waiting s (buf ++ fut) ps
    → Holds (record s { buffers = push buf s.buffers }) fut ps
      × (length (content (push buf s.buffers)) < u32_mod)
Waiting-push buf s fut ps short w =
    let h = w.holds in
    let little = content-lt s (buf ++ fut) ps w in
    let room = joined-le block_limit s.buffers h.short h.valid.in_front in
    let pushed = content-push buf h.valid in
    (
      record {
        valid = push-IsValid buf h.valid (omega arith);
        short = push-AllShort block_limit buf s.buffers h.short short;
        stream = rw pushed (simp append_assoc (simp append_assoc at (h.stream)));
        frames = h.frames;
        small = h.small;
      },
      omega (arith, ap length pushed, length-append (content s.buffers) buf),
    )
