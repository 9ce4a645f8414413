-- ===== src/Connection/Send.antt =====
-- `Connection::send` and `onDataWritten` (rct/Connection.cpp), over the socket as an interface.
pub mod Wire
use rct.Prelude.{
  ℕ, zero, suc, ◌+◌, ◌-◌, ◌%◌, ◌^◌, ◌<◌, ◌≤◌, ◌≡◌, ◌≢◌, refl, sym, ◌∙◌, ap, Bool, true, false, not,
  ◌&&◌, ◌||◌, List, [], ◌∷◌, ◌++◌, append-nil, append_assoc, Option, none, some, if◌then◌else◌, leb,
  ltb, ◌==◌, eq_true, eq_false, length, length-append, arith,
}
use rct.Prelude.Words.{le_bytes}
use rct.Serializer.{u32_mod, write_native}
use rct.Message.{
  Env, Message, compressed_flag, cache_flag, encode_header, prepare, fill_cache, concat, is_empty,
  header_extra,
}
use rct.Message.Decode.{payload}
use rct.Connection.{int_limit}

-- The assertion of `Serializer::write`, whose length is an `int`: a chunk is not empty and has fewer
-- than 2^31 bytes.
unfoldable pub takes : List ℕ → Bool
takes bytes = ltb 0 (length bytes) && ltb (length bytes) (2 ^ 31)

unfoldable pub writable : List (List ℕ) → Bool
writable [] = true
writable (b ∷ bs) = takes b && writable bs

-- The test of `Message::prepare`: the message is encoded again.
unfoldable pub encodes : ℕ → Message → Bool
encodes version m = is_empty m.header || not (version == m.version)

-- What the connection uses of `SocketClient`.
pub record Client : Type 1 where
  pub State : Type 0
  pub is_connected : State → Bool
  pub write : List ℕ → State → Bool × State

module _ (client : Client) where
  open client use {State, is_connected, write}

  -- `mSocketClient`, `mPendingWrite` (an `int`, as its 32 bits) and `mWarned`.
  pub record Output : Type 0 where
    pub socket : Option State
    pub pending_write : ℕ
    pub warned : Bool

  -- A `Serializer` over `SocketClientBuffer`: the socket, and `mError`. `none` is the assertion.
  abbrev pub put_chunk : List ℕ → State × Bool → State × Bool
  put_chunk bytes (st, true) = (st, true)
  put_chunk bytes (st, false) = let (done, st') = write bytes st in (st', not done)

  unfoldable pub serialize : List ℕ → State × Bool → Option (State × Bool)
  serialize bytes s = if takes bytes then some (put_chunk bytes s) else none

  unfoldable pub serialize_all : List (List ℕ) → State × Bool → Option (State × Bool)
  serialize_all [] s = some s
  serialize_all (b ∷ bs) s = elim (serialize b s) [ none ↦ none | some s' ↦ serialize_all bs s' ]

  -- The output, the message with its cache, and the result; or a failed assertion.
  pub data SendResult : Type 0 where
    sent : Bool → Output → Message → SendResult
    assertion_failed : SendResult

  abbrev add_pending : ℕ → ℕ → ℕ
  add_pending n pending = (pending + n) % u32_mod

  module _ (e : Env) (version : ℕ) where
    -- The branch that sends the cached encoding. A message is encoded through a `Serializer` too.
    unfoldable pub send_prepared : Message → State → Output → SendResult
    send_prepared m st out =
        let m' = prepare e version m in
        let total = length m'.header + length m'.value in
        let out' = record out { pending_write = (out.pending_write + total) % u32_mod } in
        let consistent : Bool = elim m.encoded_size [
          | none ↦ true
          | some size ↦ size == total - 4
        ] in
        let (head_done, st') = write m'.header st in
        let (value_done, st'') = write m'.value st' in
        if not (writable m.writes) && encodes version m
        then assertion_failed
        else if not consistent
        then assertion_failed
        else if not head_done
        then sent false (record out' { socket = some st' }) m'
        else if is_empty m'.value
        then sent true (record out' { socket = some st' }) m'
        else sent value_done (record out' { socket = some st'' }) m'

    -- The branch that encodes into the socket. The header goes out in four writes.
    unfoldable pub send_direct : (size : ℕ) → Message → State → Output → SendResult
    send_direct size m st out =
        let start : State × Bool = (st, false) in
        let total = size + header_extra + 4 in
        let header =
          write_native 4 ((size % u32_mod + header_extra) % u32_mod)
          ∷ write_native 4 version
          ∷ write_native 1 m.id
          ∷ write_native 1 m.flags
          ∷ [] in
        elim (serialize_all (header ++ m.writes) start) [
          | none ↦ assertion_failed
          | some (st', failed) ↦
              sent (not failed)
                (record out {
                  socket = some st';
                  pending_write = (out.pending_write + total) % u32_mod;
                })
                m
        ]

    unfoldable pub send_to : Option State → Message → Output → SendResult
    send_to none m out = sent false (record out { warned = true }) m
    send_to (some st) m out =
        if not (is_connected st)
        then sent false (record out { warned = true }) m
        else elim m.encoded_size [
          | none ↦ send_prepared m st out
          | some size ↦
              if cache_flag m.flags then send_prepared m st out else send_direct size m st out
        ]

    unfoldable pub send : Message → Output → SendResult
    unfolding send_to
    send m out = send_to out.socket m out

  -- `onDataWritten`: `none` is the failed assertion `mPendingWrite >= bytes`; the flag says whether
  -- `mSendFinished` fires. The comparison is of signed numbers.
  unfoldable pub on_data_written : ℕ → Output → Option (Output × Bool)
  on_data_written bytes out =
      if leb ((bytes + int_limit) % u32_mod) ((out.pending_write + int_limit) % u32_mod)
      then (let left = (out.pending_write + (u32_mod - bytes % u32_mod)) % u32_mod in
          some (record out { pending_write = left }, left == 0))
      else none
