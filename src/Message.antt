-- ===== src/Message.antt =====
-- rct/Message.h, Message.cpp and the three built-in messages (ResponseMessage.h, FinishMessage.h,
-- QuitMessage.h): the header, the cache of an encoded message, and the factory that decodes one.
pub mod Decode
use rct.Prelude.{
  ℕ, ◌+◌, ◌-◌, ◌%◌, ◌<◌, ◌≡◌, Bool, true, false, not, ◌&&◌, ◌||◌, List, [], ◌∷◌, ◌++◌, Option, none,
  some, if◌then◌else◌, ltb, ◌==◌, length,
}
use rct.Serializer.{write_native, read_native, write_string, read_string, u32_mod}

-- A decoded message. Only the text of a response is sent, not its type (Stdout or Stderr).
pub data Decoded : Type 0 where
  response : (text : List ℕ) → Decoded
  finish : (status : ℕ) → Decoded
  quit : (exit_code : ℕ) → Decoded
  other : (id : ℕ) (body : List ℕ) → Decoded

pub data ErrorType : Type 0 where
  version_error id_error length_error create_error : ErrorType

-- `Message::create` and the creators: a message, an error for the caller, or a read past the end
-- of the bytes, which an assertion stops in a debug build.
pub data Created : Type 0 where
  created : Decoded → Created
  refused : ErrorType → Created
  overrun : Created

abbrev pub Creator : Type 0
Creator = List ℕ → Created

-- `Map<uint8_t, MessageCreatorBase *>`
abbrev pub Factory : Type 0
Factory = ℕ → Option Creator

abbrev pub response_id : ℕ
response_id = 1

abbrev pub finish_id : ℕ
finish_id = 2

abbrev pub quit_id : ℕ
quit_id = 3

abbrev pub message_id : Decoded → ℕ
message_id (response _) = response_id
message_id (finish _) = finish_id
message_id (quit _) = quit_id
message_id (other id _) = id

-- `encode` and `decode` of the built-in messages; an `int` is four bytes.
unfoldable pub encode : Decoded → List ℕ
encode (response text) = write_string text
encode (finish status) = write_native 4 status
encode (quit exit_code) = write_native 4 exit_code
encode (other _ body) = body

unfoldable pub create_response : Creator
create_response bytes = elim (read_string bytes) [
  | none ↦ overrun
  | some (text, _) ↦ created (response text)
]

unfoldable pub create_finish : Creator
create_finish bytes = elim (read_native 4 bytes) [
  | none ↦ overrun
  | some (status, _) ↦ created (finish status)
]

unfoldable pub create_quit : Creator
create_quit bytes = elim (read_native 4 bytes) [
  | none ↦ overrun
  | some (code, _) ↦ created (quit code)
]

-- `Message::registerMessage`: the first creator of an id stays.
unfoldable pub register : ℕ → Creator → Factory → Factory
register id c f j = if j == id then (elim (f id) [ none ↦ some c | some old ↦ some old ]) else f j

-- The creators that `Message::create` adds before its first lookup.
unfoldable pub with_builtins : Factory → Factory
with_builtins f j = elim (f response_id) [
  | some _ ↦ f j
  | none ↦
      if j == response_id
      then some create_response
      else if j == finish_id
      then some create_finish
      else if j == quit_id
      then some create_quit
      else f j
]

-- What the model takes from outside: zlib, and the messages that a program registers.
pub record Env : Type 0 where
  pub compress : List ℕ → List ℕ
  pub uncompress : List ℕ → List ℕ
  pub registered : Factory

abbrev pub compressed_flag : ℕ → Bool
compressed_flag flags = flags % 2 == 1

abbrev pub cache_flag : ℕ → Bool
cache_flag flags = flags % 4 == 2 || flags % 4 == 3

-- HeaderExtra: an `int`, and two bytes.
abbrev pub header_extra : ℕ
header_extra = 6

-- `Message::encodeHeader`; `size` is an `uint32_t`.
unfoldable pub encode_header : (size version id flags : ℕ) → List ℕ
encode_header size version id flags =
    write_native 4 ((size + header_extra) % u32_mod)
    ++ (write_native 4 version ++ (write_native 1 id ++ write_native 1 flags))

module _ (e : Env) where
  -- The lookup and the creator, behind the header of `Message::create`.
  unfoldable pub create_body : ℕ → ℕ → List ℕ → Created
  create_body id flags bytes =
      let body = if compressed_flag flags then e.uncompress bytes else bytes in
      elim (with_builtins e.registered id) [ none ↦ refused id_error | some c ↦ c body ]

  -- `Message::create`. The size is an `int`: a read of 2^31 bytes and more is `overrun`, as it is in
  -- `Deserializer`. In the branch of another version the id is read for the text of the error
  -- only, and only if there is one.
  unfoldable pub create : ℕ → List ℕ → Created
  create version bytes =
      if length bytes == 0 then refused length_error else elim (read_native 4 bytes) [
        | none ↦ overrun
        | some (ver, after_version) ↦
            if not (ver == version)
            then refused version_error
            else elim (read_native 1 after_version) [
              | none ↦ overrun
              | some (id, after_id) ↦ elim (read_native 1 after_id) [
                | none ↦ overrun
                | some (flags, body) ↦ create_body id flags body
              ]
            ]
      ]

-- A message that is sent: what its `encode` writes, call by call, what its `encodedSize` returns
-- (`none` is `String::npos`), and the cache (`mVersion`, `mHeader`, `mValue`).
pub record Message : Type 0 where
  pub id : ℕ
  pub flags : ℕ
  pub writes : List (List ℕ)
  pub encoded_size : Option ℕ
  pub version : ℕ
  pub header : List ℕ
  pub value : List ℕ

unfoldable pub concat : List (List ℕ) → List ℕ
concat [] = []
concat (x ∷ xs) = x ++ concat xs

abbrev pub is_empty : List ℕ → Bool
is_empty [] = true
is_empty (x ∷ xs) = false

module _ (e : Env) where
  -- The branch of `Message::prepare` that fills the cache, from what the cache holds.
  unfoldable pub fill_cache : ℕ → Message → Message
  fill_cache version m =
      let stale = not (version == m.version) in
      let old_header = if stale then [] else m.header in
      let old_value = if stale then [] else m.value in
      let encoded = old_value ++ concat m.writes in
      let value = if compressed_flag m.flags then e.compress encoded else encoded in
      record m {
        version = version;
        header = old_header ++ encode_header (length value % u32_mod) version m.id m.flags;
        value = value;
      }

  -- `Message::prepare`: the message after it; its header and value are the output.
  unfoldable pub prepare : ℕ → Message → Message
  unfolding fill_cache
  prepare version m =
      if is_empty m.header || not (version == m.version) then fill_cache version m else m
