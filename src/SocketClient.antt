-- ===== src/SocketClient.antt =====
-- rct/SocketClient.cpp: what a connected socket writes, and what it keeps to write later.
pub mod Took
pub mod Stream
pub mod Flush
pub mod Write
mod Tests
use rct.Prelude.{
  ℕ, zero, suc, ◌+◌, ◌-◌, ◌≤◌, Bool, true, false, not, ◌&&◌, ◌||◌, List, [], ◌∷◌, ◌++◌, Option,
  none, some, if◌then◌else◌, ltb, ◌==◌, length, take, drop,
}
use Prim.Native.Nat.{min}

-- What a call of `::write` returns: how many bytes were taken, of those that were given; `EAGAIN`
-- or `EWOULDBLOCK`; any other error.
pub data Outcome : Type 0 where
  wrote : ℕ → Outcome
  again : Outcome
  broke : Outcome

-- Whether `mFd` is a file, `mWriteWait`, `mWriteBuffer`, `mWriteOffset` and `mMaxWriteBufferSize`;
-- the bytes that the system has taken, and the sum of what `mSignalBytesWritten` has reported.
pub record Socket : Type 0 where
  pub is_open : Bool
  pub write_wait : Bool
  pub buffer : List ℕ
  pub offset : ℕ
  pub max_buffer : ℕ
  pub wire : List ℕ
  pub reported : ℕ

-- `close`
unfoldable pub close : Socket → Socket
close s = record s { is_open = false }

unfoldable pub is_empty : List ℕ → Bool
is_empty [] = true
is_empty (b ∷ bs) = false

-- A loop over `::write`: it stopped with so many bytes written, it closed the socket, or it failed:
-- an assertion, or the end of the outcomes.
pub data Sent : Type 0 where
  stopped : ℕ → Socket → List Outcome → Sent
  closed : Socket → List Outcome → Sent
  failed : Sent

-- `has_loop`: this thread has an event loop. The slots of the signals do not use the socket.
module _ (has_loop : Bool) where
  unfoldable pub wait : Socket → Socket
  wait s = if has_loop then record s { write_wait = true } else s

  unfoldable pub took : ℕ → List ℕ → Socket → Socket
  took e rest s = record s { wire = s.wire ++ take e rest; reported = s.reported + e }

  -- Both loops, where `rest` is not yet written and `total` is.
  unfoldable pub send_loop : List Outcome → List ℕ → ℕ → Socket → Sent
  send_loop os [] total s = stopped total s os
  send_loop [] (b ∷ bs) total s = failed
  send_loop (wrote n ∷ os) (b ∷ bs) total s =
      let e = min n (length (b ∷ bs)) in
      send_loop os (drop e (b ∷ bs)) (total + e) (took e (b ∷ bs) s)
  send_loop (again ∷ os) (b ∷ bs) total s =
      if s.write_wait then failed else stopped total (wait s) os
  send_loop (broke ∷ os) (b ∷ bs) total s = closed (close s) os

  -- What becomes of the buffer when `total` bytes of it were written.
  unfoldable pub advance : ℕ → Socket → Socket
  advance total s =
      if total == 0
      then s
      else if ltb total (length s.buffer - s.offset)
      then record s { offset = s.offset + total }
      else record s { offset = 0; buffer = [] }

  unfoldable pub flushed : Sent → Sent
  flushed (stopped total s os) = stopped total (advance total s) os
  flushed (closed s os) = closed s os
  flushed failed = failed

  unfoldable pub flush : List Outcome → Socket → Sent
  flush os s =
      if is_empty s.buffer
      then stopped 0 s os
      else flushed (send_loop os (drop s.offset s.buffer) 0 s)

  -- The rest is stored, unless the buffer becomes too large.
  unfoldable pub store : ℕ → List ℕ → Socket → List Outcome → Option (Bool × Socket × List Outcome)
  store total bytes s os =
      if ltb total (length bytes)
      then (let rem = length bytes - total in
          if not (s.max_buffer == 0) && ltb s.max_buffer (length s.buffer + rem)
          then some (false, close s, os)
          else some (true, record s { buffer = s.buffer ++ drop total bytes }, os))
      else some (true, s, os)

  -- What follows the loop that writes the new bytes.
  unfoldable pub written : List ℕ → Sent → Option (Bool × Socket × List Outcome)
  written bytes failed = none
  written bytes (closed s os) = some (false, s, os)
  written bytes (stopped total s os) = store total bytes s os

  -- What follows the loop that writes the buffer.
  unfoldable pub write_new : List ℕ → Sent → Option (Bool × Socket × List Outcome)
  write_new bytes failed = none
  write_new bytes (closed s os) = some (false, s, os)
  write_new bytes (stopped total s os) =
      if not s.is_open || is_empty bytes
      then some (s.is_open, s, os)
      else if is_empty s.buffer
      then written bytes (send_loop os bytes 0 s)
      else store 0 bytes s os

  -- `writeTo` with the port 0, that is `write`.
  unfoldable pub write : List Outcome → List ℕ → Socket → Option (Bool × Socket × List Outcome)
  write os bytes s = if s.write_wait then store 0 bytes s os else write_new bytes (flush os s)
