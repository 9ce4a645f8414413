-- ===== src/Connection/Tests.antt =====
-- Runs of the modelled parts of rct/Buffer.h, Serializer.h, Message.cpp and Connection.cpp, and the
-- theorems about them at concrete inputs.
use rct.Prelude.{
  length, ◌+◌, ◌<◌, ◌^◌, ℕ, ◌≡◌, refl, true, false, List, [], ◌∷◌, ◌++◌, none, some, arith,
}
use rct.Prelude.Words.{le_bytes, le_value}
use rct.Serializer.{
  write_native, read_native, read_bytes, write_string, read_list, write_list, write_items, string,
}
use rct.Serializer.RoundTrip.{read_list-write_list, string-RoundTrips}
use rct.Buffers.{Buffers, read, content, joined, IsValid}
use rct.Buffers.Read.{read-content}
use rct.Message.{response, finish, Env, encode, create, created, ErrorType, Message}
use rct.Message.Decode.{payload, packed, create-encode}
use rct.Connection.{Event, deliver, dispatch, feed, new_input}
use rct.Connection.Frame.{wire}
use rct.Connection.Framing.{Delivered, react_all, feed-wire}
use rct.Connection.Sent.{Sent, payloads, expected, feed-sent}
use rct.Connection.Send.{Client, Output}

abbrev two_blocks : Buffers
two_blocks = record { blocks = (1 ∷ 2 ∷ 3 ∷ []) ∷ (4 ∷ 5 ∷ []) ∷ []; offset = 1 }

two_blocks-IsValid : IsValid two_blocks
unfolding joined
two_blocks-IsValid = record { in_front = omega arith; fits = omega arith }

read-content_example :
    ((read 3 two_blocks).0 ≡ 2 ∷ 3 ∷ 4 ∷ [])
    × (content (read 3 two_blocks).1 ≡ 5 ∷ [])
    × IsValid (read 3 two_blocks).1
unfolding joined
read-content_example = read-content 3 two_blocks-IsValid

strings-Short : length (write_list string ((7 ∷ []) ∷ [] ∷ []) ++ 9 ∷ []) < 2 ^ 31
unfolding write_list write_items write_string write_native le_bytes
strings-Short = omega arith

read_list-write_list_example :
    read_list string [] (write_list string ((7 ∷ []) ∷ [] ∷ []) ++ 9 ∷ [])
    ≡ some ((7 ∷ []) ∷ [] ∷ [], 9 ∷ [])
read_list-write_list_example =
    read_list-write_list string-RoundTrips ((7 ∷ []) ∷ [] ∷ []) (9 ∷ []) (omega arith, (_, (_, _)))
      strings-Short

-- A program with no messages of its own, and a zlib that stores.
abbrev plain : Env
plain = record { compress = λ bytes. bytes; uncompress = λ bytes. bytes; registered = λ id. none }

finish-Short : 6 + length (packed plain 1 (encode (finish 7))) < 2 ^ 31
unfolding encode write_native le_bytes
finish-Short = omega arith

create-encode_example :
    create plain 5 (payload 5 2 1 (packed plain 1 (encode (finish 7)))) ≡ created (finish 7)
create-encode_example =
    create-encode plain (λ bytes. refl) (finish 7) 5 1 (omega arith) (omega arith) (omega arith)
      finish-Short refl

abbrev two_messages : List Sent
two_messages = (response (104 ∷ 105 ∷ []), 0) ∷ (finish 3, 0) ∷ []

-- The two frames, cut inside the first size and inside the second frame.
abbrev three_blocks : List (List ℕ)
three_blocks =
    (12 ∷ 0 ∷ [])
    ∷ (0 ∷ 0 ∷ 5 ∷ 0 ∷ 0 ∷ 0 ∷ 1 ∷ 0 ∷ 2 ∷ 0 ∷ 0 ∷ 0 ∷ 104 ∷ 105 ∷ 10 ∷ 0 ∷ 0 ∷ [])
    ∷ (0 ∷ 5 ∷ 0 ∷ 0 ∷ 0 ∷ 2 ∷ 0 ∷ 3 ∷ 0 ∷ 0 ∷ 0 ∷ [])
    ∷ []

feed-sent_example :
    Delivered
      (Event.new_message (response (104 ∷ 105 ∷ [])) ∷ Event.finished 3 ∷ [])
      3
      (feed (dispatch plain 5 true) three_blocks new_input)
unfolding joined wire payloads encode write_string write_native le_bytes expected deliver
feed-sent_example =
    feed-sent plain 5 true (λ bytes. refl) (omega arith) refl two_messages three_blocks
      (omega arith) (omega arith) refl

feed-wire_example : Delivered (Event.error_logged ErrorType.version_error ∷ Event.closed ∷ []) 0 (
    feed
      (dispatch plain 5 false)
      ((7 ∷ 0 ∷ []) ∷ (0 ∷ 0 ∷ 1 ∷ 2 ∷ 3 ∷ 4 ∷ 5 ∷ 6 ∷ 7 ∷ []) ∷ [])
      new_input)
unfolding joined wire le_bytes react_all dispatch create read_native read_bytes le_value
feed-wire_example =
    feed-wire (dispatch plain 5 false) ((1 ∷ 2 ∷ 3 ∷ 4 ∷ 5 ∷ 6 ∷ 7 ∷ []) ∷ []) _ _ _ (omega arith)
      (omega arith) refl refl

-- A socket that takes everything: its state is what was written.
abbrev open_client : Client
open_client = record {
  State = List ℕ;
  is_connected = λ st. true;
  write = λ bytes st. (true, st ++ bytes);
}

abbrev idle : Output open_client
idle = record { socket = some []; pending_write = 0; warned = false }

abbrev finish_message : Message
finish_message = record {
  id = 2;
  flags = 0;
  writes = (9 ∷ 0 ∷ 0 ∷ 0 ∷ []) ∷ [];
  encoded_size = some 4;
  version = 0;
  header = [];
  value = [];
}
