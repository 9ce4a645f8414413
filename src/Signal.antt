-- ===== src/Signal.antt =====
-- rct/SignalSlot.h: signals, the slots that are connected to them, and calls.
pub mod Order
pub mod Posted
mod Tests
use rct.Prelude.{
  put, ℕ, suc, ◌+◌, ◌%◌, Bool, true, false, List, [], ◌∷◌, ◌++◌, Option, none, some, if◌then◌else◌,
  ltb, ◌==◌, length,
}
use rct.EventLoop.Posted.{Loop, post}

-- A `Key` has 32 bits.
abbrev pub key_mod : ℕ
key_mod = 0x1_0000_0000

-- The connections are in the order of their keys, as a `std::map` has them.
pub record Signal (C : Type 0) : Type 0 where
  pub id : ℕ
  pub connections : List (ℕ × C)

module _ {C : Type 0} where
  unfoldable pub new_signal : Signal C
  new_signal = record { id = 0; connections = [] }

  -- `std::map::insert`, which leaves what the key has.
  unfoldable pub insert : ℕ → C → List (ℕ × C) → List (ℕ × C)
  insert key c [] = (key, c) ∷ []
  insert key c (d ∷ ds) =
      let rest = insert key c ds in
      if ltb key d.0 then (key, c) ∷ d ∷ ds else if key == d.0 then d ∷ ds else d ∷ rest

  -- The key that `connect` returns, and the signal.
  unfoldable pub connect : C → Signal C → ℕ × Signal C
  connect c s =
      let id = (s.id + 1) % key_mod in
      (id, record { id = id; connections = insert id c s.connections })

  -- `connect` of a Move slot; `none` is the failed assertion that it is the only one.
  unfoldable pub connect_move : C → Signal C → Option (ℕ × Signal C)
  connect_move c s = if length s.connections == 0 then some (connect c s) else none

  -- `std::map::erase`: how many it has erased, and the rest.
  unfoldable pub erase : ℕ → List (ℕ × C) → ℕ × List (ℕ × C)
  erase key [] = (0, [])
  erase key (d ∷ ds) =
      let rest = erase key ds in if key == d.0 then (1, ds) else (rest.0, d ∷ rest.1)

  unfoldable pub disconnect : ℕ → Signal C → Bool × Signal C
  disconnect key s =
      let r = erase key s.connections in (r.0 == 1, record { id = s.id; connections = r.1 })

  unfoldable pub disconnect_all : Signal C → ℕ × Signal C
  disconnect_all s = (length s.connections, record { id = s.id; connections = [] })

-- A slot is called at once, or later by the event loop of the thread that connected it, which is a
-- number here: `SignatureWrapper` and `SignatureMoveWrapper` post the call and its arguments, and
-- differ in what they copy only.
pub data Slot (S : Type 0) : Type 0 where
  direct : S → Slot S
  async : ℕ → S → Slot S

-- What the slots of a signal can change: the signal itself, for every event loop whether it is
-- still there, its events and its flag `mStop`, and the rest of the program.
pub record Program (S A W : Type 0) : Type 0 where
  pub signal : Signal (Slot S)
  pub alive : ℕ → Bool
  pub events : ℕ → List (S × A)
  pub stops : ℕ → Bool
  pub world : W

abbrev pub loop_of : {S A W : Type 0} → ℕ → Program S A W → Loop (S × A) W
loop_of l p = record { events = p.events l; stop = p.stops l; world = p.world }

module _ {S A W : Type 0} (run : S → A → Program S A W → Program S A W) where
  unfoldable pub call_slot : Slot S → A → Program S A W → Program S A W
  call_slot (direct s) args p = run s args p
  call_slot (async l s) args p =
      if p.alive l
      then record p { events = put l (post (s, args) (loop_of l p)).events p.events }
      else p

  -- The loop of `operator()` over the copy of the connections. What is left of the arguments when a
  -- slot has got them is `left args`: they are as before, unless they are passed on as rvalues.
  unfoldable pub call_each : (A → A) → List (ℕ × Slot S) → A → Program S A W → Program S A W
  call_each left [] args p = p
  call_each left (c ∷ cs) args p = call_each left cs (left args) (call_slot c.1 args p)

  unfoldable pub call : (A → A) → A → Program S A W → Program S A W
  call left args p = call_each left p.signal.connections args p
