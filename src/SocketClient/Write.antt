-- ===== src/SocketClient/Write.antt =====
-- What `SocketClient::write` (rct/SocketClient.cpp) does to the stream of bytes.
use rct.Prelude.{ℕ, ◌≡◌, sym, ap, ◌∙◌, Bool, List, ◌++◌, append_assoc}
use rct.SocketClient.{Outcome, Socket}
use rct.SocketClient.Stream.{pending}

lost_stream :
    (left bytes : List ℕ) (t s : Socket)
    → t.wire ++ left ≡ s.wire ++ pending s
    → t.wire ++ (left ++ bytes) ≡ s.wire ++ (pending s ++ bytes)
lost_stream left bytes t s e =
    sym (append_assoc t.wire left bytes)
    ∙ ap (λ y. y ++ bytes) e
    ∙ append_assoc s.wire (pending s) bytes

module _ (has_loop : Bool) (all : List Outcome) (bytes : List ℕ) (s : Socket) where
  -- Bytes behind a stream of which nothing was lost.
  behind :
      (t : Socket) (x : List ℕ)
      → t.wire ++ pending t ≡ s.wire ++ pending s
      → t.wire ++ (pending t ++ x) ≡ s.wire ++ (pending s ++ x)
  behind t x e = lost_stream (pending t) x t s e
