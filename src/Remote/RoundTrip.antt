-- ===== src/Remote/RoundTrip.antt =====
-- The encoders of src/remote/aivm_remote_channel.c and their decoders, for the frames without an
-- offer of capabilities.
use ai_vm.Common.{
  ℕ, ◌+◌, ◌^◌, ◌<◌, ◌≡◌, refl, sym, ap, ◌∙◌, not, false, List, [], ◌++◌, append_assoc, append-nil,
  arith, length, length-append, ltb, ◌==◌, u32_mod, ◌%◌,
}
use ai_vm.Remote.Bytes.{
  write_u32_le, write_i64_le, read_u32_le, read_i64_le, read_u32-write_u32, read_i64-write_i64,
  length-write_le,
}
use ai_vm.Remote.Codec.{
  Result, CodecError, or_error, Text, Failure, Call, cstring, max_text, max_error_text, header_size,
  exceeds, msg_deny, msg_error, msg_call, msg_result, write_string, read_string, write_header,
  open_frame, encode_failure, decode_failure, encode_deny, decode_deny, encode_error, decode_error,
  encode_call, decode_call, encode_result, decode_result,
}
use ai_vm.Remote.Strings.{
  ok-injective, bind-ok, bind-step, reject-ok, encoded, Fits, write_string_ok, read_string_back,
  open_frame_back, reject-step, length-encoded, length_framed,
}

-- A text at the end of a frame.
read_last :
    (t : Text) (max : ℕ)
    → Fits max t
    → max < 65536
    → read_string (encoded t) (max + 1) max ≡ Result.ok (cstring t, [])
read_last t max f h =
    ap (λ x. read_string x (max + 1) max) (sym (append-nil (encoded t)))
    ∙ read_string_back t [] max f h

length-write_u32 : (v : ℕ) (rest : List ℕ) → length (write_u32_le v ++ rest) ≡ 4 + length rest
unfolding write_u32_le
length-write_u32 v rest = omega arith

decode_failure-encode_failure :
    (type capacity id : ℕ) (m : Failure) (bytes : List ℕ)
    → id < 2 ^ 32
    → m.error_code < 2 ^ 32
    → encode_failure type capacity id m ≡ Result.ok bytes
    → decode_failure type bytes
      ≡ Result.ok (id, record { error_code = m.error_code; message = cstring m.message })
unfolding encode_failure decode_failure
decode_failure-encode_failure type capacity id m bytes h1 h2 h =
    let code = write_u32_le m.error_code in
    let payload = code ++ encoded m.message in
    let (g1, g2) = reject-ok (exceeds capacity [] 4) CodecError.short _ bytes h in
    let (out, g3, g4) = bind-ok (write_string capacity code m.message max_error_text) _ bytes g2 in
    let (e, f) = write_string_ok capacity code m.message max_error_text out g3 in
    let small : length payload < 2 ^ 32 = omega (
      arith,
      length-write_u32 m.error_code (encoded m.message),
      length-encoded max_error_text m.message f,
    ) in
    bind-step (open_frame type bytes) _ (id, payload) _
      (open_frame_back capacity type id payload bytes h1 small
        (ap (write_header capacity type id) (sym e) ∙ g4))
      (bind-step (or_error CodecError.short (read_u32_le payload)) _
        (m.error_code, encoded m.message) _
        (ap (or_error CodecError.short) (read_u32-write_u32 m.error_code (encoded m.message) h2))
        (bind-step (read_string (encoded m.message) (max_error_text + 1) max_error_text) _
          (cstring m.message, []) _ (read_last m.message max_error_text f (omega arith)) refl))

-- A DENY frame that was encoded decodes to its id and its message, its text cut at the terminator; the id is a
-- 32-bit number and the error code is a 32-bit number.
decode_deny-encode_deny :
    (capacity id : ℕ) (m : Failure) (bytes : List ℕ)
    → id < 2 ^ 32
    → m.error_code < 2 ^ 32
    → encode_deny capacity id m ≡ Result.ok bytes
    → decode_deny bytes
      ≡ Result.ok (id, record { error_code = m.error_code; message = cstring m.message })
unfolding encode_deny decode_deny
decode_deny-encode_deny = decode_failure-encode_failure msg_deny

-- An ERROR frame that was encoded decodes to its id and its message, its text cut at the terminator; the id is a
-- 32-bit number and the error code is a 32-bit number.
pub decode_error-encode_error :
    (capacity id : ℕ) (m : Failure) (bytes : List ℕ)
    → id < 2 ^ 32
    → m.error_code < 2 ^ 32
    → encode_error capacity id m ≡ Result.ok bytes
    → decode_error bytes
      ≡ Result.ok (id, record { error_code = m.error_code; message = cstring m.message })
unfolding encode_error decode_error
decode_error-encode_error = decode_failure-encode_failure msg_error

-- A RESULT frame that was encoded decodes to its id and its message; the id is a
-- 32-bit number and the value is a 64-bit pattern.
pub decode_result-encode_result :
    (capacity id value : ℕ) (bytes : List ℕ)
    → id < 2 ^ 32
    → value < 2 ^ 64
    → encode_result capacity id value ≡ Result.ok bytes
    → decode_result bytes ≡ Result.ok (id, value)
unfolding encode_result decode_result write_header write_i64_le
decode_result-encode_result capacity id value bytes h1 h2 h =
    let payload = write_i64_le value in
    let (g1, g2) = reject-ok (ltb capacity (header_size + 8)) CodecError.short _ bytes h in
    let (g3, g4) = reject-ok (ltb capacity header_size) CodecError.short _ bytes g2 in
    let n : length payload ≡ 8 = length-write_le 8 value in
    let len : not (length bytes == header_size + 8) ≡ false = ground (
      arith,
      ap length (sym (ok-injective _ bytes g4)),
      length_framed msg_result id (length payload % u32_mod) payload,
      n,
    ) in
    bind-step (open_frame msg_result bytes) _ (id, payload) _
      (open_frame_back capacity msg_result id payload bytes h1 (omega (arith, n)) g2)
      (reject-step (not (length bytes == header_size + 8)) CodecError.format _ _ len (
        bind-step (or_error CodecError.format (read_i64_le payload)) _ (value, []) _
          (ap (or_error CodecError.format)
            (ap read_i64_le (sym (append-nil payload)) ∙ read_i64-write_i64 value [] h2))
          refl))

-- A CALL frame that was encoded decodes to its id and its message, its texts cut at their terminators; the id is a
-- 32-bit number and the value is a 64-bit pattern.
pub decode_call-encode_call :
    (capacity id : ℕ) (m : Call) (bytes : List ℕ)
    → id < 2 ^ 32
    → m.value < 2 ^ 64
    → encode_call capacity id m ≡ Result.ok bytes
    → decode_call bytes
      ≡ Result.ok (id, record { cap = cstring m.cap; op = cstring m.op; value = m.value })
unfolding encode_call decode_call write_i64_le
decode_call-encode_call capacity id m bytes h1 h2 h =
    let value = write_i64_le m.value in
    let payload = encoded m.cap ++ (encoded m.op ++ value) in
    let (out1, g1, g2) = bind-ok (write_string capacity [] m.cap max_text) _ bytes h in
    let (e1, f1) = write_string_ok capacity [] m.cap max_text out1 g1 in
    let (out2, g3, g4) = bind-ok (write_string capacity out1 m.op max_text) _ bytes g2 in
    let (e2, f2) = write_string_ok capacity out1 m.op max_text out2 g3 in
    let (g5, g6) = reject-ok (exceeds capacity out2 8) CodecError.short _ bytes g4 in
    let e : out2 ++ value ≡ payload =
      ap (λ o. o ++ value) (e2 ∙ ap (λ o. o ++ encoded m.op) e1)
      ∙ append_assoc (encoded m.cap) (encoded m.op) value in
    let n : length value ≡ 8 = length-write_le 8 m.value in
    let small : length payload < 2 ^ 32 = omega (
      arith,
      n,
      length-append (encoded m.cap) (encoded m.op ++ value),
      length-append (encoded m.op) value,
      length-encoded max_text m.cap f1,
      length-encoded max_text m.op f2,
    ) in
    bind-step (open_frame msg_call bytes) _ (id, payload) _
      (open_frame_back capacity msg_call id payload bytes h1 small
        (ap (write_header capacity msg_call id) (sym e) ∙ g6))
      (bind-step (read_string payload (max_text + 1) max_text) _
        (cstring m.cap, encoded m.op ++ value) _
        (read_string_back m.cap (encoded m.op ++ value) max_text f1 (omega arith))
        (bind-step (read_string (encoded m.op ++ value) (max_text + 1) max_text) _
          (cstring m.op, value) _ (read_string_back m.op value max_text f2 (omega arith))
          (reject-step (not (length value == 8)) CodecError.format _ _ (ground (arith, n)) (
            bind-step (or_error CodecError.format (read_i64_le value)) _ (m.value, []) _
              (ap (or_error CodecError.format)
                (ap read_i64_le (sym (append-nil value)) ∙ read_i64-write_i64 m.value [] h2))
              refl))))
