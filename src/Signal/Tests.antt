-- ===== src/Signal/Tests.antt =====
-- Signals (rct/SignalSlot.h) on concrete slots and calls.
use rct.Prelude.{◌+◌, ◌<◌, sym, append-nil, ℕ, ◌≡◌, refl, true, false, List, [], ◌∷◌, ◌++◌, arith}
use rct.EventLoop.Posted.{Loop, Posts, total, post}
use rct.Signal.{direct, async, new_signal, connect, Program, call, call_each, call_slot}
use rct.Signal.Order.{
  Op, connecting, disconnecting, run_ops, signal_step, made_step, connects, run_ops-made,
}

-- The slots 7 and 8 are connected, the first one is disconnected twice, and 9 is connected.
abbrev ops : List (Op ℕ)
ops = connecting 7 ∷ connecting 8 ∷ disconnecting 1 ∷ disconnecting 1 ∷ connecting 9 ∷ []

run_ops-made_example :
    ((run_ops signal_step ops new_signal).0
      ≡ (run_ops made_step ops (record { count = 0; left = [] })).0)
    × ((run_ops signal_step ops new_signal).1.connections
        ≡ (run_ops made_step ops (record { count = 0; left = [] })).1.left)
unfolding connects
run_ops-made_example = run_ops-made ops (omega arith)

-- The world is a list of the calls.
abbrev Noted : Type 0
Noted = Program ℕ ℕ (List (ℕ × ℕ))

-- A slot notes its call and connects another slot.
abbrev run : ℕ → ℕ → Noted → Noted
run s args p = record p {
  signal = (connect (direct (s + 10)) p.signal).1;
  world = p.world ++ (s, args) ∷ [];
}

abbrev program : Noted
program = record {
  signal = record {
    id = 4;
    connections = (1, direct 7) ∷ (2, async 0 8) ∷ (3, direct 9) ∷ (4, async 1 6) ∷ [];
  };
  alive = λ l. true;
  events = λ l. [];
  stops = λ l. false;
  world = [];
}

-- An argument that the first slot takes is gone for the others.
gone : (call run (λ args. 0) 5 program).world ≡ (7, 5) ∷ (9, 0) ∷ []
unfolding call call_each call_slot post
gone = refl

-- A posted call is noted.
abbrev exec : ℕ × ℕ → Loop (ℕ × ℕ) (List (ℕ × ℕ)) → Loop (ℕ × ℕ) (List (ℕ × ℕ))
exec e s = record s { world = s.world ++ e ∷ [] }

zero_lt_one : total {E = ℕ × ℕ} (λ e. 1) [] < 1
unfolding total
zero_lt_one = omega arith

abbrev exec_posts : Posts exec
exec_posts = record {
  posts = λ e. [];
  weight = λ e. 1;
  posted = λ e s. sym (append-nil s.events);
  lighter = λ e. zero_lt_one;
}
