-- ===== src/SocketClient/Stream.antt =====
-- `SocketClient::write` (rct/SocketClient.cpp): the stream of bytes.
use rct.Prelude.{
  ℕ, ◌+◌, ◌-◌, ◌<◌, ◌≤◌, ◌≡◌, ◌≢◌, ◌⊎◌, inl, inr, refl, sym, ap, ◌∙◌, Bool, true, false, not, ◌&&◌,
  List, [], ◌∷◌, ◌++◌, append-nil, Option, some, Bool-cases, ltb, ◌==◌, eq_of, length,
  length-append, length-drop, drop, drop_all, drop-append_le, arith,
}
use rct.SocketClient.{Outcome, broke, Socket, close, store}
use rct.SocketClient.Took.{Uses, Waits}

-- The bytes that are still to be written.
unfoldable pub pending : Socket → List ℕ
pending s = drop s.offset s.buffer

-- The buffer is empty, or some of it is to be written.
abbrev pub IsValid : Socket → Type 0
IsValid s = ((s.buffer ≡ []) × (s.offset ≡ 0)) ⊎ (s.offset < length s.buffer)

-- The buffer would have exceeded the limit with what is not written of the new bytes.
pub record TooLarge (bytes : List ℕ) (s s' : Socket) (left : List ℕ) : Type 0 where
  pub written : ℕ
  pub rest : left ≡ pending s' ++ drop written bytes
  pub some_left : written < length bytes
  pub limited : s.max_buffer ≢ 0
  pub exceeded : s.max_buffer < length s'.buffer + (length bytes - written)

-- The buffer did not grow, or it is not limited, or it is within the limit.
abbrev pub Within : Socket → Socket → Type 0
Within s s' =
    (length s'.buffer ≤ length s.buffer) ⊎ ((s.max_buffer ≡ 0) ⊎ (length s'.buffer ≤ s.max_buffer))

-- What `write` does on the outcomes `os` of which `unused` are left, by its result.
pub data Written (has_loop : Bool) (os : List Outcome) (bytes : List ℕ) (s : Socket)
    : Bool → Socket → List Outcome → Type 0 where
  -- No outcome was an error, and the socket is open. What was taken and what is pending are what was
  -- and the new bytes, and the buffer is within its limit if it grew; who has an event loop waits
  -- for the socket if something is pending.
  kept :
      {s' : Socket} {unused : List Outcome}
      → Uses os unused
      → (s'.is_open ≡ true)
      → Within s s'
      → IsValid s'
      → (s'.wire ++ pending s' ≡ s.wire ++ (pending s ++ bytes))
      → (s'.reported + length s.wire ≡ s.reported + length s'.wire)
      → Waits has_loop s' ⊎ (pending s' ≡ [])
      → Written has_loop os bytes s true s' unused
  -- The socket is closed: the last outcome that came is an error, the first one, or the buffer would
  -- have become too large. What was taken is the first part of what was and the new bytes.
  lost :
      {s' : Socket} {unused : List Outcome} (left : List ℕ)
      → Uses os (broke ∷ unused) ⊎ (Uses os unused × TooLarge bytes s s' left)
      → (s'.is_open ≡ false)
      → (s'.wire ++ left ≡ s.wire ++ (pending s ++ bytes))
      → (s'.reported + length s.wire ≡ s.reported + length s'.wire)
      → Written has_loop os bytes s false s' unused

IsValid-bound : (t : Socket) → IsValid t → t.offset ≤ length t.buffer
IsValid-bound t (inl v) = omega (arith, v.1)
IsValid-bound t (inr v) = omega (arith, v)

-- Bytes behind those that are pending.
pending-stored :
    (t : Socket) (x : List ℕ)
    → IsValid t
    → pending (record t { buffer = t.buffer ++ x }) ≡ pending t ++ x
unfolding pending
pending-stored t x v = drop-append_le t.offset t.buffer x (IsValid-bound t v)

IsValid-stored :
    (t : Socket) (x : List ℕ)
    → IsValid t
    → 0 < length x
    → IsValid (record t { buffer = t.buffer ++ x })
IsValid-stored t x v h = inr (omega (arith, IsValid-bound t v, length-append t.buffer x, h))

pub List-cases : (xs : List ℕ) → (xs ≡ []) ⊎ ((b : ℕ) × (bs : List ℕ) × (xs ≡ b ∷ bs))
List-cases [] = inl refl
List-cases (b ∷ bs) = inr (b, bs, refl)

close-pending : (t : Socket) → pending (close t) ≡ pending t
unfolding pending close
close-pending t = refl

over_limit :
    (max size rem : ℕ)
    → (not (max == 0) && ltb max (size + rem)) ≡ true
    → (max ≢ 0) × (max < size + rem)
over_limit max size rem h = (ground arith, ground arith)

under_limit :
    (max size rem : ℕ)
    → (not (max == 0) && ltb max (size + rem)) ≡ false
    → (max ≡ 0) ⊎ (size + rem ≤ max)
under_limit max size rem h = elim (Bool-cases (max == 0)) [
  | inl t ↦ inl (eq_of max 0 t)
  | inr t ↦ inr (ground arith)
]

-- A socket on the way: some outcomes have come, none was an error, and the buffer has not grown.
pub record Underway (all : List Outcome) (s t : Socket) (os : List Outcome) : Type 0 where
  pub uses : Uses all os
  pub opened : t.is_open ≡ true
  pub limit : t.max_buffer ≡ s.max_buffer
  pub smaller : length t.buffer ≤ length s.buffer

module _ (has_loop : Bool) (all : List Outcome) (bytes : List ℕ) (s : Socket) where
  abbrev pub Done : Option (Bool × Socket × List Outcome) → Type 0
  Done r =
      (ok : Bool) × (s' : Socket) × (os : List Outcome) × (r ≡ some (ok, s', os))
      × Written has_loop all bytes s ok s' os

  whole :
      (total : ℕ) (t : Socket)
      → length bytes ≤ total
      → t.wire ++ (pending t ++ drop total bytes) ≡ s.wire ++ (pending s ++ bytes)
      → t.wire ++ pending t ≡ s.wire ++ (pending s ++ bytes)
  whole total t h stream =
      let nothing : pending t ++ drop total bytes ≡ pending t =
        ap (λ x. pending t ++ x) (drop_all total bytes h) ∙ append-nil (pending t) in
      ap (λ x. t.wire ++ x) (sym nothing) ∙ stream

  pub store-Written :
      (total : ℕ) (t : Socket) (os : List Outcome)
      → Underway all s t os
      → IsValid t
      → t.wire ++ (pending t ++ drop total bytes) ≡ s.wire ++ (pending s ++ bytes)
      → t.reported + length s.wire ≡ s.reported + length t.wire
      → (Waits has_loop t) ⊎ ((pending t ≡ []) × (length bytes ≤ total))
      → Done (store has_loop total bytes t os)
  unfolding store close
  store-Written total t os way v stream told w = elim (Bool-cases (ltb total (length bytes))) [
    | inl less ↦
        elim (Bool-cases (
          not (t.max_buffer == 0) && ltb t.max_buffer (length t.buffer + (length bytes - total)))) [
            | inl over ↦ (
              false,
              close t,
              os,
              rw (less, over) refl,
              let (limited, exceeded) =
                    over_limit t.max_buffer (length t.buffer) (length bytes - total) over in
                  lost (pending t ++ drop total bytes)
                    (inr (
                      way.uses,
                      record {
                        written = total;
                        rest = ap (λ x. x ++ drop total bytes) (sym (close-pending t));
                        some_left = ground arith;
                        limited = λ e. limited (way.limit ∙ e);
                        exceeded = rw (← way.limit) exceeded;
                      },
                    ))
                    refl stream told,
            )
            | inr fits ↦
                let x = drop total bytes in
                let shorter : total < length bytes = ground arith in
                let some_left : 0 < length x = omega (arith, shorter, length-drop total bytes) in
                (
                  true,
                  record t { buffer = t.buffer ++ x },
                  os,
                  rw (less, fits) refl,
                  let sum : length (t.buffer ++ x) ≡ length t.buffer + (length bytes - total) =
                        omega (arith, length-append t.buffer x, length-drop total bytes) in
                      kept {s' = record t { buffer = t.buffer ++ x }} way.uses way.opened
                        (inr
                          (elim (under_limit t.max_buffer (length t.buffer) (length bytes - total)
                            fits) [
                              | inl free ↦ inl (sym way.limit ∙ free)
                              | inr fine ↦ inr (omega (arith, fine, sum, way.limit))
                            ]))
                        (IsValid-stored t x v some_left) (rw (pending-stored t x v) stream) told
                        (elim w [
                          | inl waits ↦ inl waits
                          | inr none_left ↦ absurd (omega (arith, none_left.1, shorter))
                        ]),
                )
          ]
    | inr all ↦ (
      true,
      t,
      os,
      rw (all) refl,
      let over : length bytes ≤ total = ground arith in
          kept way.uses way.opened (inl way.smaller) v (whole total t over stream) told
            (elim w [ inl waits ↦ inl waits | inr none_left ↦ inr none_left.0 ]),
    )
  ]
