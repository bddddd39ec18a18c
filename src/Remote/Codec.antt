-- ===== src/Remote/Codec.antt =====
-- The codec of the remote channel (src/remote/aivm_remote_channel.c). A text is the bytes of its
-- array, of which C reads those before the first zero; a list of capabilities holds as many texts
-- as its count says. An encoder gives the bytes of the frame, a decoder the id and the message;
-- what a failed call leaves in its output arguments is not part of the model, and no pointer is
-- null.
use ai_vm.Common.{
  ℕ, zero, suc, ◌+◌, ◌%◌, Bool, not, ◌||◌, Option, none, some, List, [], ◌∷◌, ◌++◌, ltb, ◌==◌,
  if◌then◌else◌, length, take, drop, u32_mod,
}
use ai_vm.Remote.Bytes.{
  write_u16_le, write_u32_le, write_i64_le, read_u16_le, read_u32_le, read_i64_le,
}

pub data CodecError : Type 0 where
  short overflow wrong_type format : CodecError

pub data Result {ℓ} (A : Type ℓ) : Type ℓ where
  err : CodecError → Result A
  ok : A → Result A

-- What goes on behind a call that returned AIVM_REMOTE_CODEC_OK; an error is returned at once.
infixl 5 ◌>>=◌
abbrev pub ◌>>=◌ {ℓ κ} : {A : Type ℓ} {B : Type κ} → Result A → (A → Result B) → Result B
err e >>= next = err e
ok a >>= next = next a

-- `if (failed) return e;`
abbrev pub reject : Bool → CodecError → Result (Unit {0})
reject failed e = if failed then err e else ok tt

infixl 5 ◌>>◌
abbrev pub ◌>>◌ {ℓ} : {B : Type ℓ} → Result (Unit {0}) → Result B → Result B
check >> rest = check >>= λ _. rest

abbrev pub or_error {ℓ} : {A : Type ℓ} → CodecError → Option A → Result A
or_error e none = err e
or_error e (some a) = ok a

abbrev pub Text : Type 0
Text = List ℕ

abbrev pub max_caps : ℕ
max_caps = 16

abbrev pub max_text : ℕ
max_text = 64

abbrev pub max_error_text : ℕ
max_error_text = 128

abbrev pub header_size : ℕ
header_size = 9

pub record Hello : Type 0 where
  pub proto_version : ℕ
  pub client_name : Text
  pub requested_caps : List Text

pub record Welcome : Type 0 where
  pub proto_version : ℕ
  pub granted_caps : List Text

-- `AivmRemoteDeny` and `AivmRemoteError`
pub record Failure : Type 0 where
  pub error_code : ℕ
  pub message : Text

pub record Call : Type 0 where
  pub cap : Text
  pub op : Text
  pub value : ℕ

abbrev pub msg_hello : ℕ
msg_hello = 0x01

abbrev pub msg_welcome : ℕ
msg_welcome = 0x02

abbrev pub msg_deny : ℕ
msg_deny = 0x03

abbrev pub msg_call : ℕ
msg_call = 0x10

abbrev pub msg_result : ℕ
msg_result = 0x11

abbrev pub msg_error : ℕ
msg_error = 0x12

-- The bytes before the terminator, over which `strlen` and `strcmp` go.
unfoldable pub cstring : Text → Text
cstring [] = []
cstring (b ∷ bs) = if b == 0 then [] else b ∷ cstring bs

-- `index + n > out_capacity`, where `out` was written behind the place of the header.
abbrev pub exceeds : ℕ → List ℕ → ℕ → Bool
exceeds capacity out n = ltb capacity (header_size + length out + n)

-- `write_string`
unfoldable pub write_string : ℕ → List ℕ → Text → ℕ → Result (List ℕ)
write_string capacity out text max = do
  let s = cstring text
  reject (ltb max (length s) || ltb 65535 (length s)) CodecError.overflow
  reject (exceeds capacity out (2 + length s)) CodecError.short
  ok (out ++ (write_u16_le (length s) ++ s))

-- `read_string` on the bytes from the index on.
unfoldable pub read_string : List ℕ → ℕ → ℕ → Result (Text × List ℕ)
read_string bytes out_capacity max = do
  reject (out_capacity == 0) CodecError.overflow
  (len, rest) ← or_error CodecError.short (read_u16_le bytes)
  reject (ltb max len || ltb out_capacity (len + 1)) CodecError.overflow
  reject (ltb (length rest) len) CodecError.short
  ok (take len rest, drop len rest)

-- `write_header`, last, in front of what was written.
unfoldable pub write_header : ℕ → ℕ → ℕ → List ℕ → Result (List ℕ)
write_header capacity type id out = do
  reject (ltb capacity header_size) CodecError.short
  ok (type ∷ (write_u32_le id ++ (write_u32_le (length out % u32_mod) ++ out)))

pub record FrameHeader : Type 0 where
  pub type : ℕ
  pub id : ℕ
  pub payload_length : ℕ

-- The three fields of a header, and the bytes behind it.
unfoldable pub split_header : List ℕ → Option (FrameHeader × List ℕ)
split_header [] = none
split_header (type ∷ bytes) = elim (read_u32_le bytes) [
  | none ↦ none
  | some (id, rest) ↦ elim (read_u32_le rest) [
    | none ↦ none
    | some (len, payload) ↦ some (record { type = type; id = id; payload_length = len }, payload)
  ]
]

-- `read_header`
unfoldable pub read_header : List ℕ → Result (FrameHeader × List ℕ)
unfolding split_header
read_header bytes = do
  (header, payload) ← or_error CodecError.short (split_header bytes)
  reject (not (header.payload_length + header_size == length bytes)) CodecError.format
  ok (header, payload)

-- `read_header`, then `check_type`: the id and the payload.
unfoldable pub open_frame : ℕ → List ℕ → Result (ℕ × List ℕ)
unfolding read_header
open_frame type bytes = do
  (header, payload) ← read_header bytes
  reject (not (header.type == type)) CodecError.wrong_type
  ok (header.id, payload)

-- The loops over the capabilities.
unfoldable pub write_caps : ℕ → List ℕ → List Text → Result (List ℕ)
unfolding write_string
write_caps capacity out [] = ok out
write_caps capacity out (cap ∷ caps) = do
  out' ← write_string capacity out cap max_text
  write_caps capacity out' caps

unfoldable pub read_caps : ℕ → List ℕ → Result (List Text × List ℕ)
unfolding read_string
read_caps zero bytes = ok ([], bytes)
read_caps (suc n) bytes = do
  (cap, rest) ← read_string bytes (max_text + 1) max_text
  (caps, rest') ← read_caps n rest
  ok (cap ∷ caps, rest')

-- `if (index != length) return AIVM_REMOTE_CODEC_ERR_FORMAT;`
abbrev pub at_end : List ℕ → Result (Unit {0})
at_end [] = ok tt
at_end (b ∷ bs) = err CodecError.format

-- The protocol version and the count of the capabilities, then these.
unfoldable pub write_offer : ℕ → List ℕ → ℕ → List Text → Result (List ℕ)
unfolding write_caps
write_offer capacity out version caps = do
  reject (exceeds capacity out 6) CodecError.short
  write_caps capacity (out ++ (write_u16_le version ++ write_u32_le (length caps))) caps

unfoldable pub read_offer : List ℕ → Result (ℕ × List Text)
unfolding read_caps
read_offer bytes = do
  reject (ltb (length bytes) 6) CodecError.short
  (version, rest) ← or_error CodecError.short (read_u16_le bytes)
  (count, rest') ← or_error CodecError.short (read_u32_le rest)
  reject (ltb max_caps count) CodecError.overflow
  (caps, rest'') ← read_caps count rest'
  at_end rest''
  ok (version, caps)

-- `aivm_remote_encode_hello`
unfoldable pub encode_hello : ℕ → ℕ → Hello → Result (List ℕ)
encode_hello capacity id m = do
  reject (ltb max_caps (length m.requested_caps)) CodecError.overflow
  out ← write_string capacity [] m.client_name max_text
  out' ← write_offer capacity out m.proto_version m.requested_caps
  write_header capacity msg_hello id out'

unfoldable pub decode_hello : List ℕ → Result (ℕ × Hello)
decode_hello bytes = do
  (id, payload) ← open_frame msg_hello bytes
  (name, rest) ← read_string payload (max_text + 1) max_text
  (version, caps) ← read_offer rest
  ok (id, record { proto_version = version; client_name = name; requested_caps = caps })

unfoldable pub encode_welcome : ℕ → ℕ → Welcome → Result (List ℕ)
encode_welcome capacity id m = do
  reject (ltb max_caps (length m.granted_caps)) CodecError.overflow
  out ← write_offer capacity [] m.proto_version m.granted_caps
  write_header capacity msg_welcome id out

unfoldable pub decode_welcome : List ℕ → Result (ℕ × Welcome)
decode_welcome bytes = do
  (id, payload) ← open_frame msg_welcome bytes
  (version, caps) ← read_offer payload
  ok (id, record { proto_version = version; granted_caps = caps })

-- DENY and ERROR have one layout.
unfoldable pub encode_failure : ℕ → ℕ → ℕ → Failure → Result (List ℕ)
encode_failure type capacity id m = do
  reject (exceeds capacity [] 4) CodecError.short
  out ← write_string capacity (write_u32_le m.error_code) m.message max_error_text
  write_header capacity type id out

unfoldable pub decode_failure : ℕ → List ℕ → Result (ℕ × Failure)
decode_failure type bytes = do
  (id, payload) ← open_frame type bytes
  (code, rest) ← or_error CodecError.short (read_u32_le payload)
  (text, rest') ← read_string rest (max_error_text + 1) max_error_text
  at_end rest'
  ok (id, record { error_code = code; message = text })

unfoldable pub encode_deny : ℕ → ℕ → Failure → Result (List ℕ)
unfolding encode_failure
encode_deny = encode_failure msg_deny

unfoldable pub decode_deny : List ℕ → Result (ℕ × Failure)
unfolding decode_failure
decode_deny = decode_failure msg_deny

unfoldable pub encode_error : ℕ → ℕ → Failure → Result (List ℕ)
unfolding encode_failure
encode_error = encode_failure msg_error

unfoldable pub decode_error : List ℕ → Result (ℕ × Failure)
unfolding decode_failure
decode_error = decode_failure msg_error

unfoldable pub encode_call : ℕ → ℕ → Call → Result (List ℕ)
encode_call capacity id m = do
  out ← write_string capacity [] m.cap max_text
  out' ← write_string capacity out m.op max_text
  reject (exceeds capacity out' 8) CodecError.short
  write_header capacity msg_call id (out' ++ write_i64_le m.value)

-- A call whose value is not the end of the frame has a wrong format.
unfoldable pub decode_call : List ℕ → Result (ℕ × Call)
decode_call bytes = do
  (id, payload) ← open_frame msg_call bytes
  (cap, rest) ← read_string payload (max_text + 1) max_text
  (op, rest') ← read_string rest (max_text + 1) max_text
  reject (not (length rest' == 8)) CodecError.format
  (value, rest'') ← or_error CodecError.format (read_i64_le rest')
  ok (id, record { cap = cap; op = op; value = value })

unfoldable pub encode_result : ℕ → ℕ → ℕ → Result (List ℕ)
encode_result capacity id value = do
  reject (ltb capacity (header_size + 8)) CodecError.short
  write_header capacity msg_result id (write_i64_le value)

unfoldable pub decode_result : List ℕ → Result (ℕ × ℕ)
decode_result bytes = do
  (id, payload) ← open_frame msg_result bytes
  reject (not (length bytes == header_size + 8)) CodecError.format
  (value, rest) ← or_error CodecError.format (read_i64_le payload)
  ok (id, value)
