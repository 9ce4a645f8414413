-- ===== src/Connection.antt =====
-- rct/Connection.h and Connection.cpp: framing of messages on a byte stream, in both directions.
pub mod Frame
pub mod Between
pub mod Framing
pub mod Sent
pub mod Send
pub mod Tests
use rct.Prelude.{
  ℕ, zero, suc, ◌+◌, ◌-◌, ◌%◌, ◌<◌, ◌≤◌, ◌≡◌, Bool, true, false, not, ◌||◌, List, [], ◌∷◌, ◌++◌,
  Option, none, some, if◌then◌else◌, leb, ltb, ◌==◌, length,
}
use rct.Prelude.Words.{le_bytes, le_value}
use rct.Serializer.{u32_mod}
use rct.Buffers.{Buffers, no_buffers, push, read, size}
use rct.Message.{
  Decoded, finish, ErrorType, Created, created, refused, overrun, Env, create, is_empty,
}

-- The state that `onDataAvailable` keeps between calls: `mBuffers`, `mPendingRead` and
-- `mFinishStatus`.
pub record Input : Type 0 where
  pub buffers : Buffers
  pub pending : ℕ
  pub finish_status : ℕ

abbrev pub new_input : Input
new_input = record { buffers = no_buffers; pending = 0; finish_status = 0 }

-- What it tells the program: the signals `mFinished` and `newMessage`, the error handler (or the
-- log, if there is none), and `client->close()`.
pub data Event : Type 0 where
  finished : (status : ℕ) → Event
  new_message : Decoded → Event
  error_handled : ErrorType → Event
  error_logged : ErrorType → Event
  closed : Event

-- An `int` read from four bytes is positive if it is not 0 and its top bit is clear.
abbrev pub int_limit : ℕ
int_limit = 0x8000_0000

-- How far the first half of the loop body gets: no whole message is there, the assertion
-- `mPendingRead > 0` fails, or the bytes of a message.
pub data Took : Type 0 where
  need : Input → Took
  failed : Took
  frame : List ℕ → Input → Took

-- With `mPendingRead` known: wait for that many bytes, or take them. `available` is 32 bits wide.
unfoldable pub take_body : ℕ → Input → Took
take_body available s =
    if ltb available s.pending
    then need s
    else let (payload, rest) = read s.pending s.buffers in
      frame payload (record s { buffers = rest; pending = 0 })

unfoldable pub take_frame : Input → Took
take_frame s =
    let available = size s.buffers % u32_mod in
    if available == 0
    then need s
    else if not (s.pending == 0)
    then take_body available s
    else if ltb available 4
    then need s
    else let (b, rest) = read 4 s.buffers in
      let pending = le_value b in
      if pending == 0 || leb int_limit pending
      then failed
      else take_body (available - 4) (record s { buffers = rest; pending = pending })

-- The second half of the loop body: decode, and tell the program.
unfoldable pub deliver : Decoded → ℕ → List Event × ℕ
deliver (finish status) old = (finished status ∷ [], status)
deliver m old = (new_message m ∷ [], old)

module _ (e : Env) (version : ℕ) (has_handler : Bool) where
  unfoldable pub dispatch : List ℕ → ℕ → Option (List Event × ℕ)
  dispatch payload old = elim (create e version payload) [
    | created m ↦ some (deliver m old)
    | refused err ↦
        some ((if has_handler then error_handled err else error_logged err) ∷ closed ∷ [], old)
    | overrun ↦ none
  ]

-- How a call of `onDataAvailable` ends. `out_of_fuel` does not occur: see `Connection/Framing`.
pub data Outcome : Type 0 where
  done : Input → List Event → Outcome
  asserted : Outcome
  overran : Outcome
  out_of_fuel : Outcome

abbrev pub after : List Event → Outcome → Outcome
after evs (done s es) = done s (evs ++ es)
after evs asserted = asserted
after evs overran = overran
after evs out_of_fuel = out_of_fuel

abbrev pub continue : Outcome → (Input → Outcome) → Outcome
continue (done s evs) k = after evs (k s)
continue asserted k = asserted
continue overran k = overran
continue out_of_fuel k = out_of_fuel

-- The program's reaction to a message is `dispatch e version has_handler`.
module _ (react : List ℕ → ℕ → Option (List Event × ℕ)) where
  -- The `while (true)` loop, behind the push of the new bytes.
  unfoldable pub loop : ℕ → Input → Outcome
  loop zero s = out_of_fuel
  loop (suc fuel) s = elim (take_frame s) [
    | need s' ↦ done s' []
    | failed ↦ asserted
    | frame payload s' ↦ elim (react payload s'.finish_status) [
      | none ↦ overran
      | some (evs, status) ↦ after evs (loop fuel (record s' { finish_status = status }))
    ]
  ]

  -- Each round but the last takes at least a byte from the buffers.
  unfoldable pub on_data_available : List ℕ → Input → Outcome
  on_data_available buf s =
      let buffers = if is_empty buf then s.buffers else push buf s.buffers in
      loop (suc (size buffers)) (record s { buffers = buffers })

  -- One call for each block that the socket delivers.
  unfoldable pub feed : List (List ℕ) → Input → Outcome
  feed [] s = done s []
  feed (buf ∷ bufs) s = continue (on_data_available buf s) (feed bufs)
