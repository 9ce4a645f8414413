-- ===== src/Connection/Send/Wire.antt =====
-- What `Connection::send` (rct/Connection.cpp) puts on the wire, through a socket that takes all
-- that is written.
use rct.Prelude.{
  ℕ, ◌+◌, ◌-◌, ◌%◌, ◌<◌, ◌≡◌, ◌≢◌, ◌⊎◌, refl, sym, ◌∙◌, ap, true, false, List, [], ◌∷◌, ◌++◌,
  append-nil, append_assoc, none, some, ◌==◌, eq_false, inl, inr, Bool-cases, Option-cases, length,
  length-append, arith,
}
use rct.Prelude.Words.{le_bytes, length-le_bytes}
use rct.Serializer.{u32_mod, write_native}
use rct.Message.{
  Env, Message, compressed_flag, cache_flag, encode_header, prepare, fill_cache, concat, is_empty,
  header_extra,
}
use rct.Message.Decode.{payload, packed, length-payload}
use rct.Connection.Send.{
  takes, writable, Client, Output, serialize, serialize_all, SendResult, sent, assertion_failed,
  send_prepared, send_direct, send_to, send,
}

-- The frame that carries a payload.
abbrev pub frame_bytes : List ℕ → List ℕ
frame_bytes p = write_native 4 (length p) ++ p

length-frame_bytes : (p : List ℕ) → length (frame_bytes p) ≡ 4 + length p
unfolding write_native
length-frame_bytes p =
    omega (arith, length-append (le_bytes 4 (length p)) p, length-le_bytes 4 (length p))

-- A message that was not sent before.
pub record IsFresh (m : Message) : Type 0 where
  pub no_header : m.header ≡ []
  pub no_value : m.value ≡ []

pub encode_header-payload :
    (version id flags : ℕ) (body : List ℕ)
    → 6 + length body < u32_mod
    → encode_header (length body % u32_mod) version id flags ++ body
      ≡ frame_bytes (payload version id flags body)
unfolding encode_header
encode_header-payload version id flags body h =
    let size : (length body % u32_mod + header_extra) % u32_mod
        ≡ length (payload version id flags body) =
      omega (arith, length-payload version id flags body) in
    rw size (simp append_assoc)

append-is_empty : (xs ys : List ℕ) → is_empty ys ≡ true → xs ++ ys ≡ xs
append-is_empty xs [] h = append-nil xs
append-is_empty xs (y ∷ ys) h = cc

module _ (client : Client) (log : client.State → List ℕ)
    (accepts : (bytes : List ℕ) (st : client.State)
      → ((client.write bytes st).0 ≡ true)
        × (log (client.write bytes st).1 ≡ log st ++ bytes)) where
  serialize_all-log :
      (bs : List (List ℕ)) (st : client.State)
      → writable bs ≡ true
      → (st' : client.State) × (serialize_all client bs (st, false) ≡ some (st', false))
        × (log st' ≡ log st ++ concat bs)
  unfolding serialize_all serialize concat writable
  serialize_all-log [] st h = (st, refl, sym (append-nil (log st)))
  serialize_all-log (b ∷ bs) st h =
      let (done, logged) = accepts b st in
      let first : takes b ≡ true = ground arith in
      let others : writable bs ≡ true = ground arith in
      let (st', fine, all) = serialize_all-log bs (client.write b st).1 others in
      (st', rw (first, done, serialize_all) fine, all ∙ rw (logged, append_assoc))

  -- A result with everything sent: the frame of `p` was put on the wire, and as many bytes are
  -- pending as it has.
  abbrev pub Puts : client.State → ℕ → List ℕ → SendResult client → Type 0
  Puts st pending p (sent ok out m) =
      (ok ≡ true)
      × (out.pending_write ≡ (pending + length (frame_bytes p)) % u32_mod)
      × (st' : client.State) × (out.socket ≡ some st')
      × (log st' ≡ log st ++ frame_bytes p)
  Puts st pending p assertion_failed = ⊥

  module _ (e : Env) (version : ℕ) (m : Message) (st : client.State) (out : Output client) where
    abbrev body : List ℕ
    body = concat m.writes

    abbrev header : List (List ℕ)
    header =
        write_native 4 ((length body % u32_mod + header_extra) % u32_mod)
        ∷ write_native 4 version
        ∷ write_native 1 m.id
        ∷ write_native 1 m.flags
        ∷ []

    header-writable : writable m.writes ≡ true → writable (header ++ m.writes) ≡ true
    unfolding writable takes write_native le_bytes
    header-writable w = w

    -- Encoding straight into the socket: the body goes out as it is, whatever the flags say.
    pub send_direct-Puts :
        6 + length body < u32_mod
        → writable m.writes ≡ true
        → Puts st out.pending_write
            (payload version m.id m.flags body)
            (send_direct client e version (length body) m st out)
    unfolding send_direct concat serialize_all serialize takes write_native le_bytes
    send_direct-Puts h w =
        let size : (length body % u32_mod + header_extra) % u32_mod
            ≡ length (payload version m.id m.flags body) =
          omega (arith, length-payload version m.id m.flags body) in
        let (st', fine, logged) = serialize_all-log (header ++ m.writes) st (header-writable w) in
        rw (fine) (
          refl,
          ap (λ (n : ℕ). (out.pending_write + n) % u32_mod)
              (omega (
                arith,
                length-payload version m.id m.flags body,
                length-frame_bytes (payload version m.id m.flags body),
              )),
          st',
          refl,
          logged ∙ rw size,
        )

    -- The cache of a fresh message holds its encoding.
    prepare-IsFresh :
        IsFresh m
        → prepare e version m ≡ record m {
          version = version;
          header = encode_header (length (packed e m.flags body) % u32_mod) version m.id m.flags;
          value = packed e m.flags body;
        }
    unfolding prepare fill_cache
    prepare-IsFresh fresh = elim (Bool-cases (version == m.version)) [
      | inl same ↦ rw (fresh.no_header, same, fresh.no_value)
      | inr other ↦ rw (fresh.no_header, other)
    ]

    -- Sending through the cache: the body goes out packed.
    pub send_prepared-Puts :
        IsFresh m
        → m.encoded_size ≡ none
        → 6 + length (packed e m.flags body) < u32_mod
        → writable m.writes ≡ true
        → Puts st out.pending_write
            (payload version m.id m.flags (packed e m.flags body))
            (send_prepared client e version m st out)
    unfolding send_prepared
    send_prepared-Puts fresh size h w =
        let value = packed e m.flags body in
        let head = encode_header (length value % u32_mod) version m.id m.flags in
        let whole = encode_header-payload version m.id m.flags value h in
        let (head_done, head_logged) = accepts head st in
        let (value_done, value_logged) = accepts value (client.write head st).1 in
        let pending =
          ap (λ (n : ℕ). (out.pending_write + n) % u32_mod)
            (sym (length-append head value) ∙ ap length whole) in
        rw (w, prepare-IsFresh fresh, size, head_done)
          (elim (Bool-cases (is_empty value)) [
            | inl empty ↦ rw empty (
              refl,
              pending,
              (client.write head st).1,
              refl,
              head_logged
                  ∙ ap (λ (b : List ℕ). log st ++ b)
                      (sym (append-is_empty head value empty) ∙ whole),
            )
            | inr more ↦ rw more (
              value_done,
              pending,
              (client.write value (client.write head st).1).1,
              refl,
              value_logged
                  ∙ (ap (λ (b : List ℕ). b ++ value) head_logged
                      ∙ (append_assoc (log st) head value
                          ∙ ap (λ (b : List ℕ). log st ++ b) whole)),
            )
          ])

    abbrev IsUp : Type 0
    IsUp = (out.socket ≡ some st) × (client.is_connected st ≡ true)

    send-direct :
        {size : ℕ}
        → IsUp
        → m.encoded_size ≡ some size
        → cache_flag m.flags ≡ false
        → send client e version m out ≡ send_direct client e version size m st out
    unfolding send
    send-direct (socket, up) known direct =
        ap (λ s. send_to client e version s m out) socket ∙ simp (up, known, direct)

    send-prepared :
        IsUp
        → (m.encoded_size ≡ none) ⊎ (cache_flag m.flags ≡ true)
        → send client e version m out ≡ send_prepared client e version m st out
    unfolding send
    send-prepared (socket, up) (inl unknown) =
        ap (λ s. send_to client e version s m out) socket ∙ simp (up, unknown)
    send-prepared (socket, up) (inr cached) =
        ap (λ s. send_to client e version s m out) socket ∙ elim (Option-cases m.encoded_size) [
          | inl unknown ↦ simp (up, unknown)
          | inr (size, known) ↦ simp (up, known, cached)
        ]

    -- A message of known size that is flagged Compressed, without MessageCache, goes out with that
    -- flag and a body that is not compressed.
    send-Puts_compressed :
        m.encoded_size ≡ some (length body)
        → cache_flag m.flags ≡ false
        → compressed_flag m.flags ≡ true
        → IsUp
        → 6 + length body < u32_mod
        → writable m.writes ≡ true
        → Puts st out.pending_write
            (payload version m.id m.flags body)
            (send client e version m out)
    send-Puts_compressed known direct on up h w =
        rw (send-direct up known direct) (send_direct-Puts h w)

    -- A fresh message of known size, flagged MessageCache and not Compressed, fails the assertion
    -- on its size.
    send-cached_size :
        IsFresh m
        → m.encoded_size ≡ some (length body)
        → cache_flag m.flags ≡ true
        → compressed_flag m.flags ≡ false
        → IsUp
        → 6 + length body < u32_mod
        → writable m.writes ≡ true
        → send client e version m out ≡ assertion_failed
    unfolding send_prepared
    send-cached_size fresh known cached plain up h w =
        let same : packed e m.flags body ≡ body = rw plain in
        let whole = encode_header-payload version m.id m.flags body h in
        let head = encode_header (length body % u32_mod) version m.id m.flags in
        let bad : length body ≢ length head + length body - 4 = omega (
          arith,
          length-append head body,
          ap length whole,
          length-payload version m.id m.flags body,
          length-frame_bytes (payload version m.id m.flags body),
        ) in
        send-prepared up (inr cached) ∙ simp (w, known, prepare-IsFresh fresh, same, eq_false bad)
