-- ===== src/Connection/Frame.antt =====
-- One round of the loop in `Connection::onDataAvailable` (rct/Connection.cpp), against the frames
-- that the peer sent.
use rct.Prelude.{
  ℕ, ◌+◌, ◌-◌, ◌%◌, ◌<◌, ◌≤◌, ◌≡◌, ◌≢◌, refl, sym, ◌∙◌, ap, List, [], ◌∷◌, ◌++◌, append_assoc,
  if◌then◌else◌, ◌==◌, length, length-append, length-drop, take_all, drop_all, take-split,
  drop-split, eq_true, eq_false, ltb-true, ltb-false, leb-false, inl, inr, Bool-cases, arith,
}
use rct.Prelude.Words.{le_bytes, le_value, length-le_bytes, le_value-le_bytes}
use rct.Serializer.{u32_mod}
use rct.Buffers.{Buffers, read, size, content, IsValid, AllShort}
use rct.Buffers.Read.{size-content, read-content}
use rct.Buffers.Blocks.{read-AllShort}
use rct.Connection.{Input, Took, need, failed, frame, take_body, take_frame, int_limit}
use native.Mathlib.Decide.{dec_lt, ℕ_discrete}

-- The bytes that the peer sends for messages with these payloads.
unfoldable pub wire : List (List ℕ) → List ℕ
wire [] = []
wire (p ∷ ps) = le_bytes 4 (length p) ++ (p ++ wire ps)

-- A payload that the size field can announce.
abbrev pub AllFrames : List (List ℕ) → Type 0
AllFrames [] = Unit
AllFrames (p ∷ ps) = (0 < length p) × (length p < int_limit) × AllFrames ps

-- No block that the socket delivers is longer than this.
abbrev pub block_limit : ℕ
block_limit = 0x4000_0000

-- What is left of the stream: a size that was read ahead, and the buffered bytes.
abbrev pub ahead : ℕ → List ℕ
ahead pending = if pending == 0 then [] else le_bytes 4 pending

abbrev pub residue : Input → List ℕ
residue s = ahead s.pending ++ content s.buffers

pub record Holds (s : Input) (fut : List ℕ) (ps : List (List ℕ)) : Type 0 where
  pub valid : IsValid s.buffers
  pub short : AllShort block_limit s.buffers.blocks
  pub stream : residue s ++ fut ≡ wire ps
  pub frames : AllFrames ps
  pub small : s.pending < int_limit

abbrev pub first_size : List (List ℕ) → ℕ
first_size [] = 1
first_size (p ∷ ps) = 4 + length p

-- What a round does: it stops where the next frame is not complete, or takes exactly that frame.
abbrev pub Follows : Input → List ℕ → List (List ℕ) → Took → Type 0
Follows s fut ps (need s') =
    Holds s' fut ps × (length (residue s') < first_size ps) × (s'.finish_status ≡ s.finish_status)
Follows s fut ps failed = ⊥
Follows s fut ps (frame p s') =
    (qs : List (List ℕ)) × (ps ≡ p ∷ qs)
    × Holds s' fut qs
    × (length (content s'.buffers) < length (content s.buffers))
    × (s'.finish_status ≡ s.finish_status)

residue-pending :
    (s : Input) → 0 < s.pending → residue s ≡ le_bytes 4 s.pending ++ content s.buffers
residue-pending s h = let ne : s.pending ≢ 0 = omega arith in rw (eq_false ne)

pub length-residue : (s : Input) → length (residue s) ≤ 4 + length (content s.buffers)
length-residue s = elim (Bool-cases (s.pending == 0)) [
  | inl zero_pending ↦ rw zero_pending (omega arith)
  | inr some_pending ↦ rw some_pending (
      omega (
        arith,
        length-append (le_bytes 4 s.pending) (content s.buffers),
        length-le_bytes 4 s.pending,
      ))
]

-- The buffered bytes are part of what is left.
pub residue-content : (s : Input) → length (content s.buffers) ≤ length (residue s)
residue-content s = omega (arith, length-append (ahead s.pending) (content s.buffers))

module _ (fut p : List ℕ) (ps : List (List ℕ)) (good : AllFrames (p ∷ ps)) where
  -- The size is known: `pending` is that of the next frame.
  take_body-Follows :
      (s : Input)
      → IsValid s.buffers
      → AllShort block_limit s.buffers.blocks
      → s.pending ≡ length p
      → content s.buffers ++ fut ≡ p ++ wire ps
      → Follows s fut (p ∷ ps) (take_body (length (content s.buffers)) s)
  unfolding take_body wire
  take_body-Follows s v short pend e = elim (dec_lt (length (content s.buffers)) s.pending) [
    | yes lt ↦
        let size = length-residue s in
        let held : residue s ++ fut ≡ wire (p ∷ ps) =
          rw (residue-pending s (omega arith), append_assoc, e, pend) in
        rw (ltb-true lt) (
          record { valid = v; short = short; stream = held; frames = good; small = omega arith },
          omega arith,
          refl,
        )
    | no ge ↦
        let r = read-content s.pending v in
        let enough : s.pending ≤ length (content s.buffers) = omega arith in
        let whole = take-split s.pending (content s.buffers) fut p (wire ps) pend enough e in
        let rest = drop-split s.pending (content s.buffers) fut p (wire ps) pend enough e in
        rw (ltb-false enough) (
          ps,
          ap (λ q. q ∷ ps) (sym (r.0 ∙ whole)),
          record {
            valid = r.2;
            short = read-AllShort block_limit s.pending s.buffers short;
            stream = ap (λ bytes. bytes ++ fut) r.1 ∙ rest;
            frames = good.2;
            small = omega arith;
          },
          omega (arith, ap length r.1, length-drop s.pending (content s.buffers)),
          refl,
        )
  ]

Follows-mono :
    (s t : Input) (fut : List ℕ) (ps : List (List ℕ)) (r : Took)
    → length (content t.buffers) ≤ length (content s.buffers)
    → t.finish_status ≡ s.finish_status
    → Follows t fut ps r
    → Follows s fut ps r
Follows-mono s t fut ps (need s') h k (a, b, c) = (a, b, c ∙ k)
Follows-mono s t fut ps failed h k f = f
Follows-mono s t fut ps (frame p s') h k (qs, a, b, c, d) = (qs, a, b, omega arith, d ∙ k)

-- When no frame is left to come, nothing is buffered.
residue-end :
    (s : Input) (fut : List ℕ)
    → residue s ++ fut ≡ []
    → (length (content s.buffers) ≡ 0) × (length (residue s) ≡ 0)
residue-end s fut e =
    let all = ap length e in
    let both = length-append (residue s) fut in
    let parts = length-append (ahead s.pending) (content s.buffers) in (omega arith, omega arith)

-- The first four bytes of a frame are its size.
size-le_value : (n : ℕ) → n < int_limit → le_value (le_bytes 4 n) ≡ n
size-le_value n h = le_value-le_bytes 4 n (omega arith)

le_bytes-injective :
    (a b : ℕ) (xs ys : List ℕ)
    → a < int_limit
    → b < int_limit
    → le_bytes 4 a ++ xs ≡ le_bytes 4 b ++ ys
    → (a ≡ b) × (xs ≡ ys)
le_bytes-injective a b xs ys h k e =
    let four = sym (length-le_bytes 4 b) in
    let size = length-le_bytes 4 a in
    let front = take-split 4 (le_bytes 4 a) xs (le_bytes 4 b) ys four (omega arith) e in
    let rest = drop-split 4 (le_bytes 4 a) xs (le_bytes 4 b) ys four (omega arith) e in
    (
      sym (size-le_value a h)
          ∙ (ap le_value (sym (take_all 4 (le_bytes 4 a) (omega arith)) ∙ front)
              ∙ size-le_value b k),
      ap (λ bytes. bytes ++ xs) (sym (drop_all 4 (le_bytes 4 a) (omega arith))) ∙ rest,
    )

-- The tests of `take_frame`, in terms of the bytes that are buffered.
module _ (s : Input) (v : IsValid s.buffers) (fits : length (content s.buffers) < u32_mod) where
  abbrev buffered : ℕ
  buffered = length (content s.buffers)

  available : size s.buffers % u32_mod ≡ buffered
  available = omega (arith, size-content v)

  take_frame-empty : buffered ≡ 0 → take_frame s ≡ need s
  unfolding take_frame
  take_frame-empty h = rw (available, eq_true h)

  take_frame-pending : buffered ≢ 0 → s.pending ≢ 0 → take_frame s ≡ take_body buffered s
  unfolding take_frame
  take_frame-pending h k = rw (available, eq_false h, eq_false k)

  take_frame-short : buffered ≢ 0 → s.pending ≡ 0 → buffered < 4 → take_frame s ≡ need s
  unfolding take_frame
  take_frame-short h k l = rw (available, eq_false h, eq_true k, ltb-true l)

  abbrev header : List ℕ × Buffers
  header = read 4 s.buffers

  take_frame-header :
      (n : ℕ)
      → s.pending ≡ 0
      → 4 ≤ buffered
      → le_value header.0 ≡ n
      → 0 < n
      → n < int_limit
      → take_frame s ≡ take_body (buffered - 4) (record s { buffers = header.1; pending = n })
  unfolding take_frame
  take_frame-header n k l e pos small =
      let some_bytes : buffered ≢ 0 = omega arith in
      let ne : n ≢ 0 = omega arith in
      rw (available, eq_false some_bytes, eq_true k, ltb-false l, e, eq_false ne, leb-false small)

module _ {s : Input} {fut : List ℕ} (fits : length (content s.buffers) < u32_mod) where
  -- The size of the next frame was read in an earlier call.
  Follows-pending :
      (p : List ℕ) (ps : List (List ℕ))
      → Holds s fut (p ∷ ps)
      → length (content s.buffers) ≢ 0
      → s.pending ≢ 0
      → s.pending < int_limit
      → Follows s fut (p ∷ ps) (take_frame s)
  unfolding wire
  Follows-pending p ps h some_bytes pend small =
      let stream = ap (λ bytes. bytes ++ fut) (residue-pending s (omega arith)) in
      let whole = sym stream ∙ h.stream in
      let split =
        le_bytes-injective s.pending (length p) (content s.buffers ++ fut) (p ++ wire ps) small
          (omega (arith, h.frames.1))
          (sym (append_assoc (le_bytes 4 s.pending) (content s.buffers) fut) ∙ whole) in
      rw (take_frame-pending s h.valid fits some_bytes pend)
        (take_body-Follows fut p ps h.frames s h.valid h.short split.0 split.1)

  -- The size of the next frame is read in this round.
  Follows-header :
      (p : List ℕ) (ps : List (List ℕ))
      → Holds s fut (p ∷ ps)
      → s.pending ≡ 0
      → 4 ≤ length (content s.buffers)
      → Follows s fut (p ∷ ps) (take_frame s)
  unfolding wire
  Follows-header p ps h none_pending enough =
      let r = read-content 4 h.valid in
      let t : Input = record s { buffers = (read 4 s.buffers).1; pending = length p } in
      let bytes : content s.buffers ++ fut ≡ le_bytes 4 (length p) ++ (p ++ wire ps) =
        (rw (eq_true none_pending) at h.stream) in
      let four = sym (length-le_bytes 4 (length p)) in
      let front = take-split 4 (content s.buffers) fut _ (p ++ wire ps) four enough bytes in
      let rest = drop-split 4 (content s.buffers) fut _ (p ++ wire ps) four enough bytes in
      let n = ap le_value (r.0 ∙ front) ∙ size-le_value (length p) h.frames.1 in
      let left : length (content s.buffers) - 4 ≡ length (content t.buffers) =
        omega (arith, ap length r.1, length-drop 4 (content s.buffers)) in
      rw
        (
          take_frame-header s h.valid fits (length p) none_pending enough n h.frames.0 h.frames.1,
          left,
        )
        (Follows-mono s t fut (p ∷ ps) _ (omega arith) refl (
          take_body-Follows fut p ps h.frames t r.2 (read-AllShort block_limit 4 s.buffers h.short)
            refl (ap (λ (b : List ℕ). b ++ fut) r.1 ∙ rest)))

  -- From a valid state in front of frames, the round stops or takes the next frame.
  pub take_frame-Follows : (ps : List (List ℕ)) → Holds s fut ps → Follows s fut ps (take_frame s)
  unfolding wire
  take_frame-Follows [] h =
      let (empty, left) = residue-end s fut h.stream in
      rw (take_frame-empty s h.valid fits empty) (h, omega arith, refl)
  take_frame-Follows (p ∷ ps) h =
      let most = length-residue s in
      let some_frame = h.frames.0 in
      elim (ℕ_discrete (length (content s.buffers)) 0) [
        | yes empty ↦ rw (take_frame-empty s h.valid fits empty) (h, omega arith, refl)
        | no some_bytes ↦ elim (ℕ_discrete s.pending 0) [
          | no pend ↦ Follows-pending p ps h some_bytes pend h.small
          | yes none_pending ↦ elim (dec_lt (length (content s.buffers)) 4) [
            | no enough ↦ Follows-header p ps h none_pending (omega arith)
            | yes few ↦
                rw (take_frame-short s h.valid fits some_bytes none_pending few)
                  (h, rw (eq_true none_pending) (omega arith), refl)
          ]
        ]
      ]
