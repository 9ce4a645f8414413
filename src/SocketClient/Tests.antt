-- ===== src/SocketClient/Tests.antt =====
-- `SocketClient::write` (rct/SocketClient.cpp), concretely.
use rct.Prelude.{◌≡◌, refl, true, false, List, [], ◌∷◌, some}
use rct.SocketClient.{
  Outcome, wrote, again, broke, Socket, close, is_empty, wait, took, send_loop, advance, flushed,
  flush, store, written, write_new, write,
}

-- Of five bytes in the buffer one was written.
abbrev waiting : Socket
waiting = record {
  is_open = true;
  write_wait = false;
  buffer = 9 ∷ 1 ∷ 2 ∷ 3 ∷ 4 ∷ [];
  offset = 1;
  max_buffer = 0;
  wire = 9 ∷ [];
  reported = 1;
}

-- The system takes three bytes, four, and then one of the new ones.
abbrev outcomes : List Outcome
outcomes = wrote 3 ∷ wrote 4 ∷ wrote 1 ∷ again ∷ again ∷ again ∷ []

keeps_one_byte :
    write true outcomes (5 ∷ 6 ∷ []) waiting
    ≡ some (
      true,
      record {
        is_open = true;
        write_wait = true;
        buffer = 6 ∷ [];
        offset = 0;
        max_buffer = 0;
        wire = 9 ∷ 1 ∷ 2 ∷ 3 ∷ 4 ∷ 5 ∷ [];
        reported = 6;
      },
      again ∷ again ∷ [],
    )
unfolding is_empty wait took send_loop advance flushed flush store written write_new write
keeps_one_byte = refl

-- An error after five bytes, one of them new, closes the socket.
error_closes :
    write true (wrote 4 ∷ wrote 1 ∷ broke ∷ again ∷ []) (5 ∷ 6 ∷ []) waiting
    ≡ some (
      false,
      record {
        is_open = false;
        write_wait = false;
        buffer = [];
        offset = 0;
        max_buffer = 0;
        wire = 9 ∷ 1 ∷ 2 ∷ 3 ∷ 4 ∷ 5 ∷ [];
        reported = 6;
      },
      again ∷ [],
    )
unfolding is_empty wait took send_loop advance flushed flush store written write_new write close
error_closes = refl

-- The bytes that were written count for the limit: with two pending of four, one more is too many.
abbrev limited : Socket
limited = record {
  is_open = true;
  write_wait = true;
  buffer = 1 ∷ 2 ∷ 3 ∷ 4 ∷ [];
  offset = 2;
  max_buffer = 4;
  wire = 1 ∷ 2 ∷ [];
  reported = 2;
}

limit_counts_written : write true [] (5 ∷ []) limited ≡ some (false, close limited, [])
unfolding write store
limit_counts_written = refl
