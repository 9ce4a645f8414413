-- ===== src/Message/Decode.antt =====
-- `Message::create` (rct/Message.cpp) on what `Message::prepare` and `encodeHeader` produce.
use rct.Prelude.{
  ℕ, ◌+◌, ◌%◌, ◌^◌, ◌<◌, ◌≡◌, ◌≢◌, refl, ◌∙◌, List, [], ◌++◌, append-nil, none, some, if◌then◌else◌,
  eq_true, eq_false, Bool-cases, inl, inr, length, length-append, arith,
}
use rct.Prelude.Words.{length-le_bytes}
use rct.Serializer.{write_native, write_string, u32_mod}
use rct.Serializer.RoundTrip.{Short, Short-tail, read_native-write_native, read_string-write_string}
use rct.Message.{
  Decoded, response, finish, quit, other, ErrorType, Created, created, refused, message_id, encode,
  Env, create_response, create_finish, create_quit, with_builtins, create_body, create,
  compressed_flag, response_id, finish_id, quit_id,
}

-- The bytes behind the size in a header.
abbrev pub payload : (version id flags : ℕ) → List ℕ → List ℕ
payload version id flags body =
    write_native 4 version ++ (write_native 1 id ++ (write_native 1 flags ++ body))

length-write_native : (n x : ℕ) → length (write_native n x) ≡ n
unfolding write_native
length-write_native n x = length-le_bytes n x

pub length-payload :
    (version id flags : ℕ) (body : List ℕ)
    → length (payload version id flags body) ≡ 6 + length body
length-payload version id flags body = omega (
  arith,
  length-append (write_native 4 version) (write_native 1 id ++ (write_native 1 flags ++ body)),
  length-append (write_native 1 id) (write_native 1 flags ++ body),
  length-append (write_native 1 flags) body,
  length-write_native 4 version,
  length-write_native 1 id,
  length-write_native 1 flags,
)

module _ (e : Env) where
  -- Behind a well-formed header of the same version, `create` decides by id and flags alone.
  pub create-payload :
      (version id flags : ℕ) (body : List ℕ)
      → version < u32_mod
      → id < 256
      → flags < 256
      → 6 + length body < 2 ^ 31
      → create e version (payload version id flags body) ≡ create_body e id flags body
  unfolding create
  create-payload version id flags body hv hi hf h =
      let whole : Short (payload version id flags body) =
        omega (arith, h, length-payload version id flags body) in
      let ids : Short (write_native 1 id ++ (write_native 1 flags ++ body)) =
        Short-tail (write_native 4 version) _ whole in
      let some_bytes : length (payload version id flags body) ≢ 0 =
        omega (arith, length-payload version id flags body) in
      rw (
        eq_false some_bytes,
        read_native-write_native 4 version _ hv whole,
        eq_true {a = version} refl,
        read_native-write_native 1 id _ hi ids,
        read_native-write_native 1 flags _ hf (Short-tail (write_native 1 id) _ ids),
      )

  -- With another version in its header, a message is refused as such, whatever else it holds.
  create-payload_version :
      (version ver id flags : ℕ) (body : List ℕ)
      → ver < u32_mod
      → ver ≢ version
      → 6 + length body < 2 ^ 31
      → create e version (payload ver id flags body) ≡ refused ErrorType.version_error
  unfolding create
  create-payload_version version ver id flags body hv ne h =
      let whole : Short (payload ver id flags body) =
        omega (arith, h, length-payload ver id flags body) in
      let some_bytes : length (payload ver id flags body) ≢ 0 =
        omega (arith, length-payload ver id flags body) in
      rw (eq_false some_bytes, read_native-write_native 4 ver _ hv whole, eq_false ne)

  -- What is sent for the bytes that a message encodes to.
  abbrev pub packed : ℕ → List ℕ → List ℕ
  packed flags bytes = if compressed_flag flags then e.compress bytes else bytes

-- The values of a built-in message fit in the fields that are sent, and what it encodes to has fewer
-- than 2^31 bytes.
abbrev pub Sendable : Decoded → Type 0
Sendable (response text) = 4 + length text < 2 ^ 31
Sendable (finish status) = status < u32_mod
Sendable (quit code) = code < u32_mod
Sendable (other _ _) = ⊥

text-Short : (text : List ℕ) → 4 + length text < 2 ^ 31 → Short (write_string text ++ [])
unfolding write_string
text-Short text h = omega (
  arith,
  h,
  length-append (write_native 4 (length text % u32_mod) ++ text) [],
  length-append (write_native 4 (length text % u32_mod)) text,
  length-write_native 4 (length text % u32_mod),
)

one_word : (x : ℕ) → Short (write_native 4 x ++ [])
one_word x = omega (arith, length-append (write_native 4 x) [], length-write_native 4 x)

module _ (e : Env) (zlib : (bytes : List ℕ) → e.uncompress (e.compress bytes) ≡ bytes) where
  -- The creator of the id gets the bytes that were packed.
  pub create_body-packed :
      (id flags : ℕ) (bytes : List ℕ) {c : List ℕ → Created}
      → with_builtins e.registered id ≡ some c
      → create_body e id flags (packed e flags bytes) ≡ c bytes
  unfolding create_body
  create_body-packed id flags bytes found = elim (Bool-cases (compressed_flag flags)) [
    | inl on ↦ rw (found, create_body) (rw (on, zlib bytes))
    | inr off ↦ rw (found, create_body) (rw off)
  ]

  -- Each built-in message is decoded as it was encoded, compressed or not, whatever the program
  -- has registered for other ids, if it has registered nothing for the id of a response. The payload
  -- has fewer than 2^31 bytes, and so has what it is uncompressed to.
  pub create-encode :
      (m : Decoded) (version flags : ℕ)
      → Sendable m
      → version < u32_mod
      → flags < 256
      → 6 + length (packed e flags (encode m)) < 2 ^ 31
      → e.registered response_id ≡ none
      → create e version (payload version (message_id m) flags (packed e flags (encode m)))
        ≡ created m
  unfolding with_builtins encode create_response create_finish create_quit
  create-encode (response text) version flags h hv hf k free =
      create-payload e version response_id flags _ hv (omega arith) hf k
      ∙ create_body-packed response_id flags _ {c = create_response} (rw (free, with_builtins))
      ∙ rw (
        ← append-nil (write_string text),
        read_string-write_string text [] (text-Short text h),
        create_response,
      )
  create-encode (finish status) version flags h hv hf k free =
      create-payload e version finish_id flags _ hv (omega arith) hf k
      ∙ create_body-packed finish_id flags _ {c = create_finish} (rw (free, with_builtins))
      ∙ rw (
        ← append-nil (write_native 4 status),
        read_native-write_native 4 status [] h (one_word status),
        create_finish,
      )
  create-encode (quit code) version flags h hv hf k free =
      create-payload e version quit_id flags _ hv (omega arith) hf k
      ∙ create_body-packed quit_id flags _ {c = create_quit} (rw (free, with_builtins))
      ∙ rw (
        ← append-nil (write_native 4 code),
        read_native-write_native 4 code [] h (one_word code),
        create_quit,
      )
  create-encode (other _ _) version flags h hv hf k free = absurd h
