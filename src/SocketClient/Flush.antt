-- ===== src/SocketClient/Flush.antt =====
-- The loop of `SocketClient::write` (rct/SocketClient.cpp) that writes the buffer.
use rct.Prelude.{
  ℕ, ◌+◌, ◌-◌, ◌<◌, ◌≤◌, ◌≡◌, ◌≢◌, ◌⊎◌, inl, inr, refl, sym, ap, ◌∙◌, Bool, false, List, [], ◌∷◌,
  ◌++◌, Bool-cases, if◌then◌else◌, ltb, ◌==◌, eq_of, eq_true, eq_false, ltb-true, ltb-false, length,
  length-drop, drop, drop-drop, drop_all, arith,
}
use rct.SocketClient.{
  Outcome, broke, Socket, is_empty, stopped, closed, send_loop, advance, flushed, flush,
}
use rct.SocketClient.Took.{Advances, Uses, Uses-refl, Waits, Took, Stops, send_loop-Stops}
use rct.SocketClient.Stream.{pending, IsValid, List-cases}

module _ (has_loop : Bool) (s : Socket) where
  -- After the buffer was flushed: nothing is lost, and what is left of it waits.
  pub record Flushes (os : List Outcome) : Type 0 where
    pub total : ℕ
    pub after : Socket
    pub unused : List Outcome
    pub result : flush has_loop os s ≡ stopped total after unused
    pub valid : IsValid after
    pub stream : after.wire ++ pending after ≡ s.wire ++ pending s
    pub told : after.reported + length s.wire ≡ s.reported + length after.wire
    pub open_still : after.is_open ≡ s.is_open
    pub advances : Advances unused
    pub uses : Uses os unused
    pub limit : after.max_buffer ≡ s.max_buffer
    pub smaller : length after.buffer ≤ length s.buffer
    pub waits :
        ((after.buffer ≡ [])
          × (after.write_wait ≡ false)
          × (length os ≤ length unused + length (pending s)))
        ⊎ ((is_empty after.buffer ≡ false) × Waits has_loop after)

  advance-none : (n : ℕ) (t : Socket) → n ≡ 0 → advance has_loop n t ≡ t
  unfolding advance
  advance-none n t h = rw (eq_true h) refl

  advance-some :
      (n : ℕ) (t : Socket)
      → n ≢ 0
      → n < length t.buffer - t.offset
      → advance has_loop n t ≡ record t { offset = t.offset + n }
  unfolding advance
  advance-some n t h less = rw (eq_false h, ltb-true less) refl

  advance-all :
      (n : ℕ) (t : Socket)
      → n ≢ 0
      → length t.buffer - t.offset ≤ n
      → advance has_loop n t ≡ record t { offset = 0; buffer = [] }
  unfolding advance
  advance-all n t h more = rw (eq_false h, ltb-false more) refl

  kept-pending : (rest : List ℕ) (t : Socket) → Took (pending s) s rest t → pending t ≡ pending s
  unfolding pending
  kept-pending rest t h = ap (λ o. drop o t.buffer) h.offset ∙ ap (λ b. drop s.offset b) h.buffer

  pub kept-IsValid :
      (given rest : List ℕ) (t : Socket) → Took given s rest t → IsValid s → IsValid t
  kept-IsValid given rest t h (inl v) = inl (h.buffer ∙ v.0, h.offset ∙ v.1)
  kept-IsValid given rest t h (inr v) =
      let same : length t.buffer ≡ length s.buffer = ap (λ b. length b) h.buffer in
      inr (omega (arith, v, same, h.offset))

  moved-pending :
      (k : ℕ) (t : Socket) → pending (record t { offset = t.offset + (0 + k) }) ≡ drop k (pending t)
  unfolding pending
  moved-pending k t = ap (λ n. drop n t.buffer) (omega arith) ∙ sym (drop-drop k t.offset t.buffer)

  cleared-pending : (t : Socket) → pending (record t { offset = 0; buffer = [] }) ≡ []
  unfolding pending
  cleared-pending t = refl

  length-pending : length (pending s) ≡ length s.buffer - s.offset
  unfolding pending
  length-pending = length-drop s.offset s.buffer

  advanced-none :
      (os : List Outcome)
      → is_empty s.buffer ≡ false
      → s.offset < length s.buffer
      → (c : Stops has_loop os (pending s) 0 s)
      → flush has_loop os s ≡ stopped (0 + c.k) (advance has_loop (0 + c.k) c.after) c.unused
      → c.k ≡ 0
      → Flushes os
  advanced-none os some_bytes v c e zero_taken =
      let same : length c.after.buffer ≡ length s.buffer = ap (λ b. length b) c.took_k.buffer in
      let here = c.took_k.offset in
      let all = length-pending in
      let none = kept-pending (drop c.k (pending s)) c.after c.took_k in
      record {
        total = 0 + c.k;
        after = c.after;
        unused = c.unused;
        result =
            e
            ∙ ap (λ t. stopped (0 + c.k) t c.unused)
                (advance-none (0 + c.k) c.after (omega (arith, zero_taken)));
        valid = inr (omega (arith, v, same, here));
        stream =
            ap (λ x. c.after.wire ++ x) (none ∙ ap (λ n. drop n (pending s)) (sym zero_taken))
            ∙ c.took_k.stream;
        told = c.took_k.told;
        open_still = c.open_still;
        advances = c.advances;
        uses = c.uses;
        limit = c.took_k.limit;
        smaller = omega (arith, same);
        waits = elim c.waits [
          | inl w ↦ absurd (omega (arith, w.0, zero_taken, all, v))
          | inr w ↦ inr (ap (λ b. is_empty b) c.took_k.buffer ∙ some_bytes, w.1)
        ];
      }

  advanced-some :
      (os : List Outcome)
      → is_empty s.buffer ≡ false
      → s.offset < length s.buffer
      → (c : Stops has_loop os (pending s) 0 s)
      → flush has_loop os s ≡ stopped (0 + c.k) (advance has_loop (0 + c.k) c.after) c.unused
      → c.k ≢ 0
      → c.k < length c.after.buffer - c.after.offset
      → Flushes os
  advanced-some os some_bytes v c e taken shorter =
      let same : length c.after.buffer ≡ length s.buffer = ap (λ b. length b) c.took_k.buffer in
      let here = c.took_k.offset in
      let all = length-pending in
      let none = kept-pending (drop c.k (pending s)) c.after c.took_k in
      record {
        total = 0 + c.k;
        after = record c.after { offset = c.after.offset + (0 + c.k) };
        unused = c.unused;
        result =
            e
            ∙ ap (λ t. stopped (0 + c.k) t c.unused)
                (advance-some (0 + c.k) c.after (omega (arith, taken)) (omega (arith, shorter)));
        valid = inr (omega (arith, shorter, v, same, here));
        stream =
            ap (λ x. c.after.wire ++ x) (moved-pending c.k c.after ∙ ap (λ x. drop c.k x) none)
            ∙ c.took_k.stream;
        told = c.took_k.told;
        open_still = c.open_still;
        advances = c.advances;
        uses = c.uses;
        limit = c.took_k.limit;
        smaller = omega (arith, same);
        waits = elim c.waits [
          | inl w ↦ absurd (omega (arith, w.0, all, same, here, shorter))
          | inr w ↦ inr (ap (λ b. is_empty b) c.took_k.buffer ∙ some_bytes, w.1)
        ];
      }

  advanced-all :
      (os : List Outcome)
      → is_empty s.buffer ≡ false
      → s.offset < length s.buffer
      → (c : Stops has_loop os (pending s) 0 s)
      → flush has_loop os s ≡ stopped (0 + c.k) (advance has_loop (0 + c.k) c.after) c.unused
      → c.k ≢ 0
      → length c.after.buffer - c.after.offset ≤ c.k
      → Flushes os
  advanced-all os some_bytes v c e taken longer =
      let same : length c.after.buffer ≡ length s.buffer = ap (λ b. length b) c.took_k.buffer in
      let here = c.took_k.offset in
      let all = length-pending in
      let exact : c.k ≡ length (pending s) = omega (arith, longer, c.bounded, all, same, here) in
      record {
        total = 0 + c.k;
        after = record c.after { offset = 0; buffer = [] };
        unused = c.unused;
        result =
            e
            ∙ ap (λ t. stopped (0 + c.k) t c.unused)
                (advance-all (0 + c.k) c.after (omega (arith, taken)) (omega (arith, longer)));
        valid = inl (refl, refl);
        stream =
            ap (λ x. c.after.wire ++ x)
              (cleared-pending c.after ∙ sym (drop_all c.k (pending s) (omega (arith, exact))))
            ∙ c.took_k.stream;
        told = c.took_k.told;
        open_still = c.open_still;
        advances = c.advances;
        uses = c.uses;
        limit = c.took_k.limit;
        smaller = omega (arith, same);
        waits = elim c.waits [
          | inl w ↦ inl (refl, w.1, omega (arith, w.2, exact))
          | inr w ↦ absurd (omega (arith, w.0, exact))
        ];
      }

  advanced :
      (os : List Outcome)
      → is_empty s.buffer ≡ false
      → s.offset < length s.buffer
      → (c : Stops has_loop os (pending s) 0 s)
      → flush has_loop os s ≡ stopped (0 + c.k) (advance has_loop (0 + c.k) c.after) c.unused
      → Flushes os
  advanced os some_bytes v c e = elim (Bool-cases (c.k == 0)) [
    | inl none_taken ↦ advanced-none os some_bytes v c e (eq_of c.k 0 none_taken)
    | inr taken ↦ elim (Bool-cases (ltb c.k (length c.after.buffer - c.after.offset))) [
      | inl less ↦ advanced-some os some_bytes v c e (ground arith) (ground arith)
      | inr over ↦ advanced-all os some_bytes v c e (ground arith) (ground arith)
    ]
  ]

  flush_nothing : (os : List Outcome) → s.buffer ≡ [] → flush has_loop os s ≡ stopped 0 s os
  unfolding flush is_empty
  flush_nothing os e =
      ap
        (λ b.
          if is_empty b
          then stopped 0 s os
          else flushed has_loop (send_loop has_loop os (drop s.offset s.buffer) 0 s))
        e

  flush_some :
      (os : List Outcome)
      → is_empty s.buffer ≡ false
      → flush has_loop os s ≡ flushed has_loop (send_loop has_loop os (pending s) 0 s)
  unfolding flush pending
  flush_some os e =
      ap
        (λ b.
          if b
          then stopped 0 s os
          else flushed has_loop (send_loop has_loop os (drop s.offset s.buffer) 0 s))
        e

  nonempty : s.offset < length s.buffer → is_empty s.buffer ≡ false
  unfolding is_empty
  nonempty h = elim (List-cases s.buffer) [
    | inl e ↦
        let short : length s.buffer ≡ 0 = ap (λ b. length b) e in absurd (omega (arith, h, short))
    | inr (b, bs, e) ↦ ap (λ x. is_empty x) e
  ]

  -- Flushing closes the socket, or leaves it as `Flushes` says.
  abbrev pub FlushCloses : List Outcome → Type 0
  FlushCloses os =
      (left : List ℕ) × (after : Socket) × (unused : List Outcome) × (flush has_loop os s
        ≡ closed after unused)
      × Took (pending s) s left after
      × (after.is_open ≡ false)
      × Uses os (broke ∷ unused)

  pub flush-Flushes :
      (os : List Outcome)
      → Advances os
      → length (pending s) ≤ length os
      → s.write_wait ≡ false
      → IsValid s
      → Flushes os ⊎ FlushCloses os
  unfolding flushed
  flush-Flushes os a h w (inl v) = inl (record {
    total = 0;
    after = s;
    unused = os;
    result = flush_nothing os v.0;
    valid = inl v;
    stream = refl;
    told = refl;
    open_still = refl;
    advances = a;
    uses = Uses-refl os;
    limit = refl;
    smaller = omega arith;
    waits = inl (v.0, w, omega arith);
  })
  flush-Flushes os a h w (inr v) =
      let some_bytes = nonempty v in
      elim (send_loop-Stops has_loop os (pending s) 0 s a h w) [
        | inl c ↦ inl (
            advanced os some_bytes v c
              (flush_some os some_bytes ∙ ap (λ r. flushed has_loop r) c.result))
        | inr c ↦ inr (
          c.left,
          c.after,
          c.unused,
          flush_some os some_bytes ∙ ap (λ r. flushed has_loop r) c.result,
          c.took_some,
          c.open_no_more,
          c.uses,
        )
      ]
