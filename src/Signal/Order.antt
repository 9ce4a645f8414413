-- ===== src/Signal/Order.antt =====
-- rct/SignalSlot.h: the connections of a signal, against a list of them in the order in which they
-- were made.
use rct.Prelude.{
  ℕ, suc, ◌+◌, ◌%◌, ◌<◌, ◌≤◌, ◌≡◌, refl, ap₂, inl, inr, Bool, true, false, List, [], ◌∷◌, ◌++◌, All,
  if◌then◌else◌, ◌==◌, length, Bool-cases, eq_of, ltb-false, eq_false, arith,
}
use rct.Signal.{Signal, new_signal, key_mod, insert, connect, erase, disconnect, disconnect_all}

module _ {C : Type 0} where
  -- The connections of the list with another key.
  unfoldable pub without : ℕ → List (ℕ × C) → List (ℕ × C)
  without key [] = []
  without key (d ∷ ds) = if key == d.0 then without key ds else d ∷ without key ds

  unfoldable pub has : ℕ → List (ℕ × C) → Bool
  has key [] = false
  has key (d ∷ ds) = if key == d.0 then true else has key ds

pub data Op (C : Type 0) : Type 0 where
  connecting : C → Op C
  disconnecting : ℕ → Op C
  disconnecting_all : Op C

-- How many connections were made, and those that are left.
pub record Made (C : Type 0) : Type 0 where
  pub count : ℕ
  pub left : List (ℕ × C)

module _ {C : Type 0} where
  -- What an operation returns, and what it does: to a list, and to a signal.
  unfoldable pub made_step : Op C → Made C → ℕ × Made C
  made_step (connecting c) m =
      (m.count + 1, record { count = m.count + 1; left = m.left ++ (m.count + 1, c) ∷ [] })
  made_step (disconnecting key) m =
      (if has key m.left then 1 else 0, record m { left = without key m.left })
  made_step disconnecting_all m = (length m.left, record m { left = [] })

  unfoldable pub signal_step : Op C → Signal C → ℕ × Signal C
  signal_step (connecting c) s = connect c s
  signal_step (disconnecting key) s = let r = disconnect key s in (if r.0 then 1 else 0, r.1)
  signal_step disconnecting_all s = disconnect_all s

unfoldable pub run_ops : {C S : Type 0} → (Op C → S → ℕ × S) → List (Op C) → S → List ℕ × S
run_ops step [] s = ([], s)
run_ops step (op ∷ ops) s =
    let r = step op s in let rest = run_ops step ops r.1 in (r.0 ∷ rest.0, rest.1)

count_test :
    (b : Bool) → let n : ℕ = if b then 1 else 0 in let m : ℕ = if n == 1 then 1 else 0 in m ≡ n
count_test true = refl
count_test false = refl

module _ {C : Type 0} where
  unfoldable Ascending : List (ℕ × C) → Type 0
  Ascending [] = Unit
  Ascending (d ∷ ds) = All (λ e. d.0 < e.0) ds × Ascending ds

  abbrev Under : ℕ → List (ℕ × C) → Type 0
  Under bound ds = All (λ d. d.0 ≤ bound) ds

  insert_last :
      (key bound : ℕ) (c : C) (ds : List (ℕ × C))
      → bound < key
      → Under bound ds
      → insert key c ds ≡ ds ++ (key, c) ∷ []
  unfolding insert
  insert_last key bound c [] h u = refl
  insert_last key bound c (d ∷ ds) h u =
      rw
        (
          ltb-false {a = key} {b = d.0} (omega (arith, u.0)),
          eq_false {a = key} {b = d.0} (λ e. absurd (omega (arith, u.0))),
          insert_last key bound c ds h u.1,
        )
        refl

  All-snoc :
      (P : ℕ × C → Type 0) (ds : List (ℕ × C)) (d : ℕ × C) → All P ds → P d → All P (ds ++ d ∷ [])
  All-snoc P [] d h k = (k, tt)
  All-snoc P (e ∷ ds) d h k = (h.0, All-snoc P ds d h.1 k)

  Under-mono : (a b : ℕ) (ds : List (ℕ × C)) → a ≤ b → Under a ds → Under b ds
  Under-mono a b [] h u = tt
  Under-mono a b (d ∷ ds) h u = (omega (arith, u.0), Under-mono a b ds h u.1)

  Ascending-snoc :
      (key bound : ℕ) (c : C) (ds : List (ℕ × C))
      → bound < key
      → Under bound ds
      → Ascending ds
      → Ascending (ds ++ (key, c) ∷ [])
  unfolding Ascending
  Ascending-snoc key bound c [] h u a = (tt, tt)
  Ascending-snoc key bound c (d ∷ ds) h u a = (
    All-snoc (λ e. d.0 < e.0) ds (key, c) a.0 (omega (arith, u.0)),
    Ascending-snoc key bound c ds h u.1 a.1,
  )

  without-absent : (key : ℕ) (ds : List (ℕ × C)) → All (λ e. key < e.0) ds → without key ds ≡ ds
  unfolding without
  without-absent key [] h = refl
  without-absent key (d ∷ ds) h =
      rw
        (eq_false {a = key} {b = d.0} (λ e. absurd (omega (arith, h.0))), without-absent key ds h.1)
        refl

  All-without :
      (P : ℕ × C → Type 0) (key : ℕ) (ds : List (ℕ × C)) → All P ds → All P (without key ds)
  unfolding without
  All-without P key [] h = tt
  All-without P key (d ∷ ds) h = elim (Bool-cases (key == d.0)) [
    | inl t ↦ rw (t) (All-without P key ds h.1)
    | inr f ↦ rw (f) ((h.0, All-without P key ds h.1))
  ]

  Ascending-without : (key : ℕ) (ds : List (ℕ × C)) → Ascending ds → Ascending (without key ds)
  unfolding without Ascending
  Ascending-without key [] h = tt
  Ascending-without key (d ∷ ds) h = elim (Bool-cases (key == d.0)) [
    | inl t ↦ rw (t) (Ascending-without key ds h.1)
    | inr f ↦ rw (f) ((All-without (λ e. d.0 < e.0) key ds h.0, Ascending-without key ds h.1))
  ]

  erase-without :
      (key : ℕ) (ds : List (ℕ × C))
      → Ascending ds
      → erase key ds ≡ (if has key ds then 1 else 0, without key ds)
  unfolding erase has without Ascending
  erase-without key [] a = refl
  erase-without key (d ∷ ds) a = elim (Bool-cases (key == d.0)) [
    | inl t ↦
        let above : All (λ e. key < e.0) ds = rw (eq_of key d.0 t) a.0 in
        rw (t, without-absent key ds above) refl
    | inr f ↦ rw (f, erase-without key ds a.1) refl
  ]

  -- A signal has the connections of the list, in its order.
  record Has (s : Signal C) (m : Made C) : Type 0 where
    connections : s.connections ≡ m.left
    id : s.id ≡ m.count
    under : Under m.count m.left
    ascending : Ascending m.left

  unfoldable pub connects : List (Op C) → ℕ
  connects [] = 0
  connects (connecting c ∷ ops) = suc (connects ops)
  connects (disconnecting key ∷ ops) = connects ops
  connects (disconnecting_all ∷ ops) = connects ops

  connect-Has :
      (c : C) (s : Signal C) (m : Made C)
      → m.count + 1 < key_mod
      → Has s m
      → ((signal_step (connecting c) s).0 ≡ (made_step (connecting c) m).0)
        × Has (signal_step (connecting c) s).1 (made_step (connecting c) m).1
  unfolding signal_step made_step connect
  connect-Has c s m small h =
      let id : (s.id + 1) % key_mod ≡ m.count + 1 = omega (arith, h.id) in
      let next : m.count < m.count + 1 = omega arith in
      (
        id,
        record {
          connections =
              rw (h.connections, id) (insert_last (m.count + 1) m.count c m.left next h.under);
          id = id;
          under =
              All-snoc (λ d. d.0 ≤ m.count + 1) m.left (m.count + 1, c)
                (Under-mono m.count (m.count + 1) m.left (omega arith) h.under) (omega arith);
          ascending = Ascending-snoc (m.count + 1) m.count c m.left next h.under h.ascending;
        },
      )

  disconnect-Has :
      (key : ℕ) (s : Signal C) (m : Made C)
      → Has s m
      → ((signal_step (disconnecting key) s).0 ≡ (made_step (disconnecting key) m).0)
        × Has (signal_step (disconnecting key) s).1 (made_step (disconnecting key) m).1
  unfolding signal_step made_step disconnect
  disconnect-Has key s m h =
      let erased = erase-without key m.left h.ascending in
      (
        rw (h.connections, erased) (count_test (has key m.left)),
        record {
          connections = rw (h.connections, erased) refl;
          id = h.id;
          under = All-without (λ d. d.0 ≤ m.count) key m.left h.under;
          ascending = Ascending-without key m.left h.ascending;
        },
      )

  disconnect_all-Has :
      (s : Signal C) (m : Made C)
      → Has s m
      → ((signal_step disconnecting_all s).0 ≡ (made_step disconnecting_all m).0)
        × Has (signal_step disconnecting_all s).1 (made_step disconnecting_all m).1
  unfolding signal_step made_step disconnect_all Ascending
  disconnect_all-Has s m h = (
    rw (h.connections) refl,
    record { connections = refl; id = h.id; under = tt; ascending = tt },
  )

  new_signal-Has : Has new_signal (record { count = 0; left = [] })
  unfolding new_signal Ascending
  new_signal-Has = record { connections = refl; id = refl; under = tt; ascending = tt }

  run_ops-Has :
      (ops : List (Op C)) (s : Signal C) (m : Made C)
      → connects ops + m.count < key_mod
      → Has s m
      → ((run_ops signal_step ops s).0 ≡ (run_ops made_step ops m).0)
        × Has (run_ops signal_step ops s).1 (run_ops made_step ops m).1
  unfolding run_ops connects made_step
  run_ops-Has [] s m small h = (refl, h)
  run_ops-Has (connecting c ∷ ops) s m small h =
      let (first, kept) = connect-Has c s m (omega (arith, small)) h in
      let (others, all) = run_ops-Has ops _ _ (omega (arith, small)) kept in
      (ap₂ (λ x xs. x ∷ xs) first others, all)
  run_ops-Has (disconnecting key ∷ ops) s m small h =
      let (first, kept) = disconnect-Has key s m h in
      let (others, all) = run_ops-Has ops _ _ (omega (arith, small)) kept in
      (ap₂ (λ x xs. x ∷ xs) first others, all)
  run_ops-Has (disconnecting_all ∷ ops) s m small h =
      let (first, kept) = disconnect_all-Has s m h in
      let (others, all) = run_ops-Has ops _ _ (omega (arith, small)) kept in
      (ap₂ (λ x xs. x ∷ xs) first others, all)

  -- Whatever is connected and disconnected, in fewer than 2^32 connections, a new signal returns
  -- what a list returns that keeps the connections in the order in which they were made, and has the same connections in the same order: a
  -- new key for each connection, whether a key was connected that is disconnected, and how many were
  -- connected.
  pub run_ops-made :
      (ops : List (Op C))
      → connects ops < key_mod
      → ((run_ops signal_step ops new_signal).0
          ≡ (run_ops made_step ops (record { count = 0; left = [] })).0)
        × ((run_ops signal_step ops new_signal).1.connections
            ≡ (run_ops made_step ops (record { count = 0; left = [] })).1.left)
  run_ops-made ops small =
      let (returned, h) = run_ops-Has ops new_signal _ (omega (arith, small)) new_signal-Has in
      (returned, h.connections)
