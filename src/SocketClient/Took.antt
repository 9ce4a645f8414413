-- ===== src/SocketClient/Took.antt =====
-- What a loop over `::write` (rct/SocketClient.cpp) has done to a socket.
use rct.Prelude.{
  ℕ, ◌+◌, ◌<◌, ◌≤◌, ◌≡◌, ◌⊎◌, inl, inr, refl, sym, ap, ◌∙◌, Bool, true, false, List, [], ◌∷◌, ◌++◌,
  append_assoc, if◌then◌else◌, length, length-append, length-take, length-drop, take, drop,
  drop-drop, take-append-drop, arith,
}
use Prim.Native.Nat.{min}
use rct.SocketClient.{
  Outcome, wrote, again, broke, Socket, close, stopped, closed, failed, wait, took, send_loop,
}

-- Every write that succeeds takes a byte at least.
abbrev pub Advances : List Outcome → Type 0
Advances [] = Unit
Advances (wrote n ∷ os) = (0 < n) × Advances os
Advances (again ∷ os) = Advances os
Advances (broke ∷ os) = Advances os

-- No outcome is an error, other than that the system takes nothing for now.
abbrev pub NoError : List Outcome → Type 0
NoError [] = Unit
NoError (wrote n ∷ os) = NoError os
NoError (again ∷ os) = NoError os
NoError (broke ∷ os) = ⊥

-- Of the outcomes `os` all but `unused` came, without an error.
pub record Uses (os unused : List Outcome) : Type 0 where
  pub used : List Outcome
  pub parts : os ≡ used ++ unused
  pub fine : NoError used

pub Uses-refl : (os : List Outcome) → Uses os os
Uses-refl os = record { used = []; parts = refl; fine = tt }

NoError-append : (xs ys : List Outcome) → NoError xs → NoError ys → NoError (xs ++ ys)
NoError-append [] ys h k = k
NoError-append (wrote n ∷ xs) ys h k = NoError-append xs ys h k
NoError-append (again ∷ xs) ys h k = NoError-append xs ys h k
NoError-append (broke ∷ xs) ys h k = absurd h

pub Uses-trans : {os mid unused : List Outcome} → Uses os mid → Uses mid unused → Uses os unused
Uses-trans {os} {mid} {unused} a b = record {
  used = a.used ++ b.used;
  parts = a.parts ∙ ap (λ x. a.used ++ x) b.parts ∙ sym (append_assoc a.used b.used unused);
  fine = NoError-append a.used b.used a.fine b.fine;
}

Uses-wrote : {os unused : List Outcome} (n : ℕ) → Uses os unused → Uses (wrote n ∷ os) unused
Uses-wrote n u = record {
  used = wrote n ∷ u.used;
  parts = ap (λ x. wrote n ∷ x) u.parts;
  fine = u.fine;
}

-- Who has an event loop waits for the socket.
abbrev pub Waits : Bool → Socket → Type 0
Waits has_loop s = has_loop ≡ true → s.write_wait ≡ true

-- From `rest` to `left`: no byte is lost, and what was taken was reported.
pub record Took (rest : List ℕ) (s : Socket) (left : List ℕ) (s' : Socket) : Type 0 where
  pub stream : s'.wire ++ left ≡ s.wire ++ rest
  pub told : s'.reported + length s.wire ≡ s.reported + length s'.wire
  pub buffer : s'.buffer ≡ s.buffer
  pub offset : s'.offset ≡ s.offset
  pub limit : s'.max_buffer ≡ s.max_buffer

Took_refl : (rest : List ℕ) (s : Socket) → Took rest s rest s
Took_refl rest s = record { stream = refl; told = refl; buffer = refl; offset = refl; limit = refl }

Took_trans :
    {rest mid left : List ℕ} {s t u : Socket}
    → Took rest s mid t
    → Took mid t left u
    → Took rest s left u
Took_trans a b = record {
  stream = b.stream ∙ a.stream;
  told = omega (arith, a.told, b.told);
  buffer = b.buffer ∙ a.buffer;
  offset = b.offset ∙ a.offset;
  limit = b.limit ∙ a.limit;
}

module _ (has_loop : Bool) where
  took-Took :
      (e : ℕ) (rest : List ℕ) (s : Socket)
      → e ≤ length rest
      → Took rest s (drop e rest) (took has_loop e rest s)
  unfolding took
  took-Took e rest s h = record {
    stream = rw (append_assoc, take-append-drop e rest) refl;
    told = omega (arith, h, length-append s.wire (take e rest), length-take e rest);
    buffer = refl;
    offset = refl;
    limit = refl;
  }

  wait-Took : (rest : List ℕ) (s : Socket) → Took rest s rest (wait has_loop s)
  unfolding wait
  wait-Took rest s = elim has_loop as (λ k. Took rest s rest (wait k s)) [
    | true ↦ record { stream = refl; told = refl; buffer = refl; offset = refl; limit = refl }
    | false ↦ Took_refl rest s
  ]

  wait-is_open : (s : Socket) → (wait has_loop s).is_open ≡ s.is_open
  unfolding wait
  wait-is_open s = elim has_loop as (λ k. (wait k s).is_open ≡ s.is_open) [
    | true ↦ refl
    | false ↦ refl
  ]

  wait-Waits : (s : Socket) → Waits has_loop (wait has_loop s)
  unfolding wait
  wait-Waits s = elim has_loop as (λ k. Waits k (wait k s)) [
    | true ↦ λ h. refl
    | false ↦ λ h. absurd (cc h)
  ]

  -- A loop that stops has written `k` bytes, and all of them if it does not wait.
  pub record Stops (os : List Outcome) (rest : List ℕ) (total : ℕ) (s : Socket) : Type 0 where
    pub k : ℕ
    pub after : Socket
    pub unused : List Outcome
    pub result : send_loop has_loop os rest total s ≡ stopped (total + k) after unused
    pub bounded : k ≤ length rest
    pub took_k : Took rest s (drop k rest) after
    pub open_still : after.is_open ≡ s.is_open
    pub advances : Advances unused
    pub uses : Uses os unused
    pub waits :
        ((k ≡ length rest) × (after.write_wait ≡ false) × (length os ≤ length unused + k))
        ⊎ ((k < length rest) × Waits has_loop after)

  pub record Closes (os : List Outcome) (rest : List ℕ) (total : ℕ) (s : Socket) : Type 0 where
    pub left : List ℕ
    pub after : Socket
    pub unused : List Outcome
    pub result : send_loop has_loop os rest total s ≡ closed after unused
    pub took_some : Took rest s left after
    pub open_no_more : after.is_open ≡ false
    pub uses : Uses os (broke ∷ unused)

  Closes-later :
      (n : ℕ) (os : List Outcome) (b : ℕ) (bs : List ℕ) (total : ℕ) (s : Socket)
      → (let e = min n (length (b ∷ bs)) in
          Closes os (drop e (b ∷ bs)) (total + e) (took has_loop e (b ∷ bs) s))
      → Closes (wrote n ∷ os) (b ∷ bs) total s
  unfolding send_loop
  Closes-later n os b bs total s c =
      let e = min n (length (b ∷ bs)) in
      record {
        left = c.left;
        after = c.after;
        unused = c.unused;
        result = c.result;
        took_some = Took_trans (took-Took e (b ∷ bs) s (omega arith)) c.took_some;
        open_no_more = c.open_no_more;
        uses = Uses-wrote n c.uses;
      }

  Stops-later :
      (n : ℕ) (os : List Outcome) (b : ℕ) (bs : List ℕ) (total : ℕ) (s : Socket)
      → 0 < n
      → (let e = min n (length (b ∷ bs)) in
          Stops os (drop e (b ∷ bs)) (total + e) (took has_loop e (b ∷ bs) s))
      → Stops (wrote n ∷ os) (b ∷ bs) total s
  unfolding send_loop took
  Stops-later n os b bs total s h c =
      let e = min n (length (b ∷ bs)) in
      let less = length-drop e (b ∷ bs) in
      let sum : total + e + c.k ≡ total + (e + c.k) = omega arith in
      record {
        k = e + c.k;
        after = c.after;
        unused = c.unused;
        result = rw (← sum) c.result;
        bounded = omega (arith, c.bounded, less);
        took_k =
            Took_trans (took-Took e (b ∷ bs) s (omega arith))
              (rw (← drop-drop c.k e (b ∷ bs)) c.took_k);
        open_still = c.open_still;
        advances = c.advances;
        uses = Uses-wrote n c.uses;
        waits = elim c.waits [
          | inl w ↦ inl (omega (arith, w.0, less), w.1, omega (arith, w.2, h))
          | inr w ↦ inr (omega (arith, w.0, less), w.1)
        ];
      }

  pub send_loop-Stops :
      (os : List Outcome) (rest : List ℕ) (total : ℕ) (s : Socket)
      → Advances os
      → length rest ≤ length os
      → s.write_wait ≡ false
      → Stops os rest total s ⊎ Closes os rest total s
  unfolding send_loop close took
  send_loop-Stops os [] total s a h w = inl (record {
    k = 0;
    after = s;
    unused = os;
    result = ap (λ n. stopped n s os) (omega arith);
    bounded = omega arith;
    took_k = Took_refl [] s;
    open_still = refl;
    advances = a;
    uses = Uses-refl os;
    waits = inl (refl, w, omega arith);
  })
  send_loop-Stops [] (b ∷ bs) total s a h w = absurd (omega (arith, h))
  send_loop-Stops (wrote n ∷ os) (b ∷ bs) total s a h w =
      let e = min n (length (b ∷ bs)) in
      elim (send_loop-Stops os (drop e (b ∷ bs)) (total + e) (took has_loop e (b ∷ bs) s) a.1
        (omega (arith, length-drop e (b ∷ bs), h, a.0)) w) [
          | inl c ↦ inl (Stops-later n os b bs total s a.0 c)
          | inr c ↦ inr (Closes-later n os b bs total s c)
        ]
  send_loop-Stops (again ∷ os) (b ∷ bs) total s a h w = inl (record {
    k = 0;
    after = wait has_loop s;
    unused = os;
    result =
        ap (λ x. if x then failed else stopped total (wait has_loop s) os) w
        ∙ ap (λ n. stopped n (wait has_loop s) os) (omega arith);
    bounded = omega arith;
    took_k = wait-Took (b ∷ bs) s;
    open_still = wait-is_open s;
    advances = a;
    uses = record { used = again ∷ []; parts = refl; fine = tt };
    waits = inr (omega arith, wait-Waits s);
  })
  send_loop-Stops (broke ∷ os) (b ∷ bs) total s a h w = inr (record {
    left = b ∷ bs;
    after = close s;
    unused = os;
    result = refl;
    took_some = record { stream = refl; told = refl; buffer = refl; offset = refl; limit = refl };
    open_no_more = refl;
    uses = record { used = []; parts = refl; fine = tt };
  })
