-- ===== src/Signal/Posted.antt =====
-- rct/SignalSlot.h with rct/EventLoop.cpp: the calls of a signal's slots, at once and later.
use rct.Prelude.{
  Bool-cases, inl, inr, ◌==◌, ℕ, ◌≡◌, ◌∙◌, refl, sym, ap, List, [], ◌∷◌, ◌++◌, append_assoc,
  append-nil, if◌then◌else◌,
}
use rct.Signal.{Slot, direct, async, Program, call_slot, call_each, call}

module _ {S A : Type 0} where
  -- The slots of some connections that are called at once, and those that are posted to the loop `l`,
  -- each with the arguments that the slots before it have left.
  unfoldable pub at_once : (A → A) → List (ℕ × Slot S) → A → List (S × A)
  at_once left [] args = []
  at_once left (c ∷ cs) args =
      let rest = at_once left cs (left args) in
      elim c.1 [ direct s ↦ (s, args) ∷ rest | async k s ↦ rest ]

  unfoldable pub later : ℕ → (A → A) → List (ℕ × Slot S) → A → List (S × A)
  later l left [] args = []
  later l left (c ∷ cs) args =
      let rest = later l left cs (left args) in
      elim c.1 [ direct s ↦ rest | async k s ↦ if l == k then (s, args) ∷ rest else rest ]

-- A program that notes the calls of its slots, which may do anything else.
record Notes {S A W : Type 0} (run : S → A → Program S A W → Program S A W) : Type 0 where
  notes : W → List (S × A)
  noted :
      (s : S) (args : A) (p : Program S A W)
      → notes (run s args p).world ≡ notes p.world ++ (s, args) ∷ []

call_slot-world :
    {S A W : Type 0} (run : S → A → Program S A W → Program S A W) (k : ℕ) (s : S) (args : A)
    (p : Program S A W)
    → (call_slot run (async k s) args p).world ≡ p.world
unfolding call_slot
call_slot-world run k s args p = elim (Bool-cases (p.alive k)) [
  | inl t ↦ rw (t) refl
  | inr t ↦ rw (t) refl
]

module _ {S A W : Type 0} (run : S → A → Program S A W → Program S A W) (n : Notes run) where
  call_each-notes :
      (left : A → A) (cs : List (ℕ × Slot S)) (args : A) (p : Program S A W)
      → n.notes (call_each run left cs args p).world ≡ n.notes p.world ++ at_once left cs args
  unfolding call_each call_slot at_once
  call_each-notes left [] args p = sym (append-nil (n.notes p.world))
  call_each-notes left ((c, direct s) ∷ cs) args p =
      call_each-notes left cs (left args) (run s args p)
      ∙ rw
          (
            n.noted s args p,
            append_assoc (n.notes p.world) ((s, args) ∷ []) (at_once left cs (left args)),
          )
          refl
  call_each-notes left ((c, async k s) ∷ cs) args p =
      call_each-notes left cs (left args) (call_slot run (async k s) args p)
      ∙ ap (λ w. n.notes w ++ at_once left cs (left args)) (call_slot-world run k s args p)

  -- A call of a signal calls each slot that was connected when the call began and is not Async once,
  -- in the order of the keys and with what the slots before it have left of the arguments, whatever
  -- the slots connect, disconnect or post: the calls that the program notes.
  call-notes :
      (left : A → A) (args : A) (p : Program S A W)
      → n.notes (call run left args p).world
        ≡ n.notes p.world ++ at_once left p.signal.connections args
  unfolding call
  call-notes left args p = call_each-notes left p.signal.connections args p
