-- ===== src/Connection/Framing.antt =====
-- `Connection::onDataAvailable` (rct/Connection.cpp) over a whole stream: how the bytes are cut
-- into blocks does not matter.
use rct.Prelude.{
  ℕ, zero, suc, ◌<◌, ◌≤◌, ◌≡◌, refl, sym, ◌∙◌, ap, List, [], ◌∷◌, ◌++◌, append_assoc, append-nil,
  Option, some, length, length-append, and_then, and_then-eq-some, some-eq, arith,
}
use rct.Prelude.Words.{le_bytes, length-le_bytes}
use rct.Serializer.{u32_mod}
use rct.Buffers.{push, size, content, joined, AllShort}
use rct.Buffers.Read.{size-content}
use rct.Connection.{
  Input, Event, Took, need, failed, frame, take_frame, Outcome, done, asserted, overran,
  out_of_fuel, after, loop, on_data_available, feed, continue, new_input,
}
use rct.Connection.Frame.{
  wire, AllFrames, block_limit, residue, Holds, first_size, Follows, take_frame-Follows,
}
use rct.Connection.Between.{Waiting, content-lt, Waiting-push}

-- What is known at the end of the stream.
abbrev pub Delivered : List Event → ℕ → Outcome → Type 0
Delivered evs last (done s es) = (es ≡ evs) × (residue s ≡ []) × (s.finish_status ≡ last)
Delivered evs last asserted = ⊥
Delivered evs last overran = ⊥
Delivered evs last out_of_fuel = ⊥

-- A complete stream leaves nothing: what is held back is less than a frame.
nothing-left :
    (s : Input) (rest : List (List ℕ))
    → Holds s [] rest
    → length (residue s) < first_size rest
    → (rest ≡ []) × (residue s ≡ [])
unfolding wire
nothing-left s [] h waits = (refl, sym (append-nil (residue s)) ∙ h.stream)
nothing-left s (p ∷ ps) h waits = absurd (
    omega (
      arith,
      ap length h.stream,
      length-append (residue s) [],
      length-append (le_bytes 4 (length p)) (p ++ wire ps),
      length-append p (wire ps),
      length-le_bytes 4 (length p),
    ))

first_size-pos : (ps : List (List ℕ)) → 0 < first_size ps
first_size-pos [] = omega arith
first_size-pos (p ∷ ps) = omega arith

module _ (react : List ℕ → ℕ → Option (List Event × ℕ)) where
  -- The reactions to payloads in turn, from a finish status: events, and the last status.
  unfoldable pub react_all : List (List ℕ) → ℕ → Option (List Event × ℕ)
  react_all [] status = some ([], status)
  react_all (p ∷ ps) status =
      and_then (react p status)
        λ (evs, status'). and_then (react_all ps status') λ (es, last). some (evs ++ es, last)

  -- What a run on part of the stream leaves: the frames `rest` are still to come, and of the
  -- events `evs` those of `later` are.
  pub record Progress (fut : List ℕ) (evs : List Event) (last : ℕ) (s' : Input) (es : List Event)
      : Type 0 where
    pub rest : List (List ℕ)
    pub later : List Event
    pub holds : Holds s' fut rest
    pub waits : length (residue s') < first_size rest
    pub reacts : react_all rest s'.finish_status ≡ some (later, last)
    pub events : evs ≡ es ++ later

  abbrev pub Ends : List ℕ → List Event → ℕ → Outcome → Type 0
  Ends fut evs last (done s' es) = Progress fut evs last s' es
  Ends fut evs last asserted = ⊥
  Ends fut evs last overran = ⊥
  Ends fut evs last out_of_fuel = ⊥

  -- A frame is taken: its events come first.
  Ends-after :
      (fut : List ℕ) (evs es : List Event) (last : ℕ) (r : Outcome)
      → Ends fut es last r
      → Ends fut (evs ++ es) last (after evs r)
  Ends-after fut evs es last (done s' x) p = record {
    rest = p.rest;
    later = p.later;
    holds = p.holds;
    waits = p.waits;
    reacts = p.reacts;
    events = ap (λ l. evs ++ l) p.events ∙ sym (append_assoc evs x p.later);
  }
  Ends-after fut evs es last asserted p = p
  Ends-after fut evs es last overran p = p
  Ends-after fut evs es last out_of_fuel p = p

  loop-need :
      (fuel : ℕ) (s s' : Input) → take_frame s ≡ need s' → loop react (suc fuel) s ≡ done s' []
  unfolding loop
  loop-need fuel s s' e = rw (e, loop)

  loop-frame :
      (fuel : ℕ) (s s' : Input) (p : List ℕ) (evs : List Event) (status : ℕ)
      → take_frame s ≡ frame p s'
      → react p s'.finish_status ≡ some (evs, status)
      → loop react (suc fuel) s ≡ after evs (loop react fuel (record s' { finish_status = status }))
  unfolding loop
  loop-frame fuel s s' p evs status e r = rw (e, loop) (rw r)

  react_all-cons :
      (p : List ℕ) (ps : List (List ℕ)) (status : ℕ) (evs : List Event) (last : ℕ)
      → react_all (p ∷ ps) status ≡ some (evs, last)
      → (e : List Event) × (status' : ℕ) × (es : List Event) × (react p status ≡ some (e, status'))
        × (react_all ps status' ≡ some (es, last))
        × (evs ≡ e ++ es)
  unfolding react_all
  react_all-cons p ps status evs last h =
      let ((e, status'), here, more) = and_then-eq-some (react p status) _ h in
      let ((es, last'), there, same) = and_then-eq-some (react_all ps status') _ more in
      (
        e,
        status',
        es,
        here,
        rw (← ap (λ v. v.1) (some-eq same)) there,
        ap (λ v. v.0) (sym (some-eq same)),
      )

  abbrev LoopEnds : ℕ → Type 0
  LoopEnds fuel =
      (s : Input) (fut : List ℕ) (ps : List (List ℕ)) (evs : List Event) (last : ℕ)
      → length (content s.buffers) < fuel
      → length (content s.buffers) < u32_mod
      → Holds s fut ps
      → react_all ps s.finish_status ≡ some (evs, last)
      → Ends fut evs last (loop react fuel s)

  round-Ends :
      (fuel : ℕ)
      → LoopEnds fuel
      → (s : Input) (fut : List ℕ) (ps : List (List ℕ)) (evs : List Event) (last : ℕ)
      → length (content s.buffers) < suc fuel
      → length (content s.buffers) < u32_mod
      → react_all ps s.finish_status ≡ some (evs, last)
      → (t : Took) → take_frame s ≡ t
      → Follows s fut ps t
      → Ends fut evs last (loop react (suc fuel) s)
  round-Ends fuel ih s fut ps evs last enough fits r (need s') e (h, waits, same) =
      rw (loop-need fuel s s' e) (record {
        rest = ps;
        later = evs;
        holds = h;
        waits = waits;
        reacts = rw same r;
        events = refl;
      })
  round-Ends fuel ih s fut ps evs last enough fits r failed e f = absurd f
  round-Ends fuel ih s fut ps evs last enough fits r (frame p s') e (qs, eq, h, less, same) =
      let first : react_all (p ∷ qs) s'.finish_status ≡ some (evs, last) = rw (same, ← eq) r in
      let (now, status, es, here, there, parts) =
        react_all-cons p qs s'.finish_status evs last first in
      let h' : Holds (record s' { finish_status = status }) fut qs = record {
        valid = h.valid;
        short = h.short;
        stream = h.stream;
        frames = h.frames;
        small = h.small;
      } in
      rw (loop-frame fuel s s' p now status e here, parts)
        (Ends-after fut now es last _ (
          ih (record s' { finish_status = status }) fut qs es last (omega arith) (omega arith) h'
            there))

  loop-Ends : (fuel : ℕ) → LoopEnds fuel
  loop-Ends zero s fut ps evs last enough fits h r = absurd (omega arith)
  loop-Ends (suc fuel) s fut ps evs last enough fits h r =
      round-Ends fuel (loop-Ends fuel) s fut ps evs last enough fits r (take_frame s) refl
        (take_frame-Follows fits ps h)

  on_data_available-Ends :
      (buf : List ℕ) (s : Input) (fut : List ℕ) (ps : List (List ℕ)) (evs : List Event) (last : ℕ)
      → length buf ≤ block_limit
      → Waiting s (buf ++ fut) ps
      → react_all ps s.finish_status ≡ some (evs, last)
      → Ends fut evs last (on_data_available react buf s)
  unfolding on_data_available
  on_data_available-Ends [] s fut ps evs last short w r =
      let little = content-lt s fut ps w in
      loop-Ends (suc (size s.buffers)) s fut ps evs last (omega (arith, size-content w.holds.valid))
        (omega arith) w.holds r
  on_data_available-Ends (b ∷ bs) s fut ps evs last short w r =
      let (h, fits) = Waiting-push (b ∷ bs) s fut ps short w in
      loop-Ends (suc (size (push (b ∷ bs) s.buffers))) _ fut ps evs last
        (omega (arith, size-content h.valid)) fits h r

  -- A finished call, and the blocks that follow it.
  continue-Ends :
      (fut : List ℕ) (evs : List Event) (last : ℕ) (k : Input → Outcome) (r : Outcome)
      → Ends fut evs last r
      → ((s' : Input) (es : List Event) (p : Progress fut evs last s' es)
          → Ends [] p.later last (k s'))
      → Ends [] evs last (continue r k)
  continue-Ends fut evs last k (done s' es) p next =
      rw p.events (Ends-after [] es p.later last (k s') (next s' es p))
  continue-Ends fut evs last k asserted p next = p
  continue-Ends fut evs last k overran p next = p
  continue-Ends fut evs last k out_of_fuel p next = p

  -- The blocks in turn, from a state in which the rest of the stream is theirs.
  feed-Ends :
      (bufs : List (List ℕ)) (s : Input) (ps : List (List ℕ)) (evs : List Event) (last : ℕ)
      → AllShort block_limit bufs
      → Waiting s (joined bufs) ps
      → react_all ps s.finish_status ≡ some (evs, last)
      → Ends [] evs last (feed react bufs s)
  unfolding joined feed
  feed-Ends [] s ps evs last short w r = record {
    rest = ps;
    later = evs;
    holds = w.holds;
    waits = w.waits;
    reacts = r;
    events = refl;
  }
  feed-Ends (buf ∷ bufs) s ps evs last short w r =
      continue-Ends (joined bufs) evs last (feed react bufs) (on_data_available react buf s)
        (on_data_available-Ends buf s (joined bufs) ps evs last short.0 w r)
        λ s' es p.
          feed-Ends bufs s' p.rest p.later last short.1
            (record { holds = p.holds; waits = p.waits }) p.reacts

  Ends-Delivered :
      (evs : List Event) (last : ℕ) (r : Outcome) → Ends [] evs last r → Delivered evs last r
  unfolding react_all
  Ends-Delivered evs last (done s es) p =
      let (over, clean) = nothing-left s p.rest p.holds p.waits in
      let end : some ([], s.finish_status) ≡ some (p.later, last) =
        (rw (over, react_all) at p.reacts) in
      let same = some-eq end in
      let quiet = ap (λ v. v.0) same in
      (sym (p.events ∙ (ap (λ l. es ++ l) (sym quiet) ∙ append-nil es)), clean, ap (λ v. v.1) same)
  Ends-Delivered evs last asserted p = p
  Ends-Delivered evs last overran p = p
  Ends-Delivered evs last out_of_fuel p = p

  -- However the bytes of the frames `ps` are cut into blocks (each of at most `block_limit` bytes),
  -- feeding the blocks to `onDataAvailable` from the initial state fires exactly the events of the
  -- payloads, in order, ends with the last finish status and leaves no byte behind: no assertion
  -- fails, and the loop ends by its `break`. Each payload has 1 to 2^31 - 1 bytes. The condition on the
  -- program's reactions is that each of them, in this order and from the finish status that the one
  -- before left, ends without a failed assertion (`react_all` is `some`).
  pub feed-wire :
      (ps bufs : List (List ℕ)) (evs : List Event) (last : ℕ)
      → AllFrames ps
      → AllShort block_limit bufs
      → joined bufs ≡ wire ps
      → react_all ps 0 ≡ some (evs, last)
      → Delivered evs last (feed react bufs new_input)
  unfolding joined
  feed-wire ps bufs evs last frames short cut r =
      Ends-Delivered evs last (feed react bufs new_input) (
        feed-Ends bufs new_input ps evs last short
          (record {
            holds = record {
              valid = record { in_front = refl; fits = omega arith };
              short = tt;
              stream = cut;
              frames = frames;
              small = omega arith;
            };
            waits = first_size-pos ps;
          })
          r)
