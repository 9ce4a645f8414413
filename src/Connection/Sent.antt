-- ===== src/Connection/Sent.antt =====
-- The receiving side of rct/Connection.cpp on a stream of built-in messages, through the factory
-- of rct/Message.cpp.
use rct.Prelude.{ℕ, ◌+◌, ◌<◌, ◌≡◌, refl, Bool, List, [], ◌∷◌, ◌++◌, none, some, length, arith}
use rct.Serializer.{u32_mod}
use rct.Buffers.{joined, AllShort}
use rct.Message.{Decoded, Env, message_id, encode, response_id}
use rct.Message.Decode.{payload, packed, Sendable, create-encode, length-payload}
use rct.Connection.{Event, int_limit, deliver, dispatch, feed, new_input}
use rct.Connection.Frame.{wire, AllFrames, block_limit}
use rct.Connection.Framing.{react_all, Delivered, feed-wire}

-- A message of the peer, with the flags that it was sent with.
abbrev pub Sent : Type 0
Sent = Decoded × ℕ

module _ (e : Env) (version : ℕ) (has_handler : Bool) where
  abbrev pub payload_of : Sent → List ℕ
  payload_of (m, flags) = payload version (message_id m) flags (packed e flags (encode m))

  unfoldable pub payloads : List Sent → List (List ℕ)
  payloads [] = []
  payloads (s ∷ ss) = payload_of s ∷ payloads ss

  -- The values fit, and so does the size of the whole payload in the `int` that is read for it.
  abbrev pub AllSendable : List Sent → Type 0
  AllSendable [] = Unit
  AllSendable ((m, flags) ∷ ss) =
      Sendable m
      × (flags < 256)
      × (6 + length (packed e flags (encode m)) < int_limit)
      × AllSendable ss

  -- The events that the messages stand for, and the last finish status among them.
  unfoldable pub expected : List Sent → ℕ → List Event × ℕ
  expected [] status = ([], status)
  expected ((m, flags) ∷ ss) status =
      let (evs, status') = deliver m status in
      let (es, last) = expected ss status' in (evs ++ es, last)

  AllFrames-payloads : (ss : List Sent) → AllSendable ss → AllFrames (payloads ss)
  unfolding payloads
  AllFrames-payloads [] h = tt
  AllFrames-payloads ((m, flags) ∷ ss) h =
      let size = length-payload version (message_id m) flags (packed e flags (encode m)) in
      (omega arith, omega (arith, h.2), AllFrames-payloads ss h.3)

  module _ (zlib : (bytes : List ℕ) → e.uncompress (e.compress bytes) ≡ bytes)
      (small : version < u32_mod) (free : e.registered response_id ≡ none) where
    dispatch-sent :
        (m : Decoded) (flags old : ℕ)
        → Sendable m
        → flags < 256
        → 6 + length (packed e flags (encode m)) < int_limit
        → dispatch e version has_handler (payload_of (m, flags)) old ≡ some (deliver m old)
    unfolding dispatch
    dispatch-sent m flags old h k l =
        rw (create-encode e zlib m version flags h small k l free, dispatch)

    react_all-payloads :
        (ss : List Sent) (status : ℕ)
        → AllSendable ss
        → react_all (dispatch e version has_handler) (payloads ss) status
          ≡ some (expected ss status)
    unfolding react_all payloads expected
    react_all-payloads [] status h = refl
    react_all-payloads ((m, flags) ∷ ss) status h =
        rw (dispatch-sent m flags status h.0 h.1 h.2, react_all-payloads ss _ h.3)

    -- A peer's built-in messages `ss`, compressed or not, each framed as `wire` says, arrive as
    -- exactly the events that they stand for, in order, however the bytes are cut into blocks of
    -- at most `block_limit` bytes; the finish status is the last one sent, and no byte is left.
    -- zlib undoes its compression, and the program has no message of its own with the id of a
    -- response.
    pub feed-sent :
        (ss : List Sent) (bufs : List (List ℕ))
        → AllSendable ss
        → AllShort block_limit bufs
        → joined bufs ≡ wire (payloads ss)
        → Delivered
            (expected ss 0).0
            (expected ss 0).1
            (feed (dispatch e version has_handler) bufs new_input)
    feed-sent ss bufs h short cut =
        feed-wire (dispatch e version has_handler) (payloads ss) bufs _ _ (AllFrames-payloads ss h)
          short cut (react_all-payloads ss 0 h)
