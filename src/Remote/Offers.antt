-- ===== src/Remote/Offers.antt =====
-- The encoders and decoders of the two frames with an offer of capabilities, HELLO and WELCOME
-- (src/remote/aivm_remote_channel.c).
use ai_vm.Common.{
  ℕ, ◌+◌, ◌^◌, ◌≤◌, ◌<◌, ◌≡◌, refl, sym, ap, ◌∙◌, false, List, [], ◌++◌, map, append_assoc,
  append-nil, arith, length, length-append, All, ltb,
}
use ai_vm.Remote.Bytes.{
  write_u16_le, write_u32_le, read_u16_le, read_u32_le, read_u16-write_u16, read_u32-write_u32,
}
use ai_vm.Remote.Codec.{
  Result, CodecError, or_error, Text, Hello, Welcome, cstring, max_text, exceeds, msg_hello,
  msg_welcome, max_caps, write_string, read_string, write_header, open_frame, read_caps,
  write_offer, read_offer, encode_hello, decode_hello, encode_welcome, decode_welcome,
}
use ai_vm.Remote.Strings.{
  bind-ok, bind-step, reject-ok, encoded, encoded_caps, Fits, write_string_ok, read_string_back,
  write_caps_ok, read_caps_back, length-encoded_caps, open_frame_back, reject-step, length-encoded,
}

-- The version and the capabilities of an offer, as they are sent.
abbrev offer : ℕ → List Text → List ℕ
offer version caps = write_u16_le version ++ (write_u32_le (length caps) ++ encoded_caps caps)

length-offer :
    (version : ℕ) (caps : List Text)
    → All (Fits max_text) caps
    → length caps ≤ 16
    → length (offer version caps) < 2048
unfolding write_u16_le write_u32_le
length-offer version caps f few = omega (arith, length-encoded_caps caps f, few)

offer_long : (version : ℕ) (caps : List Text) → ltb (length (offer version caps)) 6 ≡ false
unfolding write_u16_le write_u32_le
offer_long version caps = ground arith

write_offer_ok :
    (capacity : ℕ) (out : List ℕ) (version : ℕ) (caps : List Text) (out' : List ℕ)
    → write_offer capacity out version caps ≡ Result.ok out'
    → (out' ≡ out ++ offer version caps) × All (Fits max_text) caps
unfolding write_offer
write_offer_ok capacity out version caps out' h =
    let start = write_u16_le version ++ write_u32_le (length caps) in
    let (g1, g2) = reject-ok (exceeds capacity out 6) CodecError.short _ out' h in
    let (e, f) = write_caps_ok capacity (out ++ start) caps out' g2 in
    (
      e
          ∙ (append_assoc out start (encoded_caps caps)
              ∙ ap (λ x. out ++ x)
                  (append_assoc (write_u16_le version) (write_u32_le (length caps))
                    (encoded_caps caps))),
      f,
    )

read_offer_back :
    (version : ℕ) (caps : List Text)
    → version < 2 ^ 16
    → All (Fits max_text) caps
    → length caps ≤ 16
    → read_offer (offer version caps) ≡ Result.ok (version, map cstring caps)
unfolding read_offer
read_offer_back version caps h f few =
    let rest = write_u32_le (length caps) ++ encoded_caps caps in
    reject-step (ltb (length (offer version caps)) 6) CodecError.short _ _ (offer_long version caps)
      (bind-step (or_error CodecError.short (read_u16_le (offer version caps))) _ (version, rest) _
        (ap (or_error CodecError.short) (read_u16-write_u16 version rest h))
        (bind-step (or_error CodecError.short (read_u32_le rest)) _ (length caps, encoded_caps caps)
          _
          (ap (or_error CodecError.short)
            (read_u32-write_u32 (length caps) (encoded_caps caps) (omega (arith, few))))
          (reject-step (ltb max_caps (length caps)) CodecError.overflow _ _ (ground (arith, few)) (
            bind-step (read_caps (length caps) (encoded_caps caps)) _ (map cstring caps, []) _
              (ap (read_caps (length caps)) (sym (append-nil (encoded_caps caps)))
                ∙ read_caps_back caps [] f)
              refl))))

-- A WELCOME frame that was encoded decodes to its id, its version and its capabilities, each cut at the
-- terminator; the id is a 32-bit number and the version a 16-bit one.
pub decode_welcome-encode_welcome :
    (capacity id : ℕ) (m : Welcome) (bytes : List ℕ)
    → id < 2 ^ 32
    → m.proto_version < 2 ^ 16
    → encode_welcome capacity id m ≡ Result.ok bytes
    → decode_welcome bytes
      ≡ Result.ok (
        id,
        record { proto_version = m.proto_version; granted_caps = map cstring m.granted_caps },
      )
unfolding encode_welcome decode_welcome
decode_welcome-encode_welcome capacity id m bytes h1 h2 h =
    let payload = offer m.proto_version m.granted_caps in
    let (g0, g1) = reject-ok (ltb max_caps (length m.granted_caps)) CodecError.overflow _ bytes h in
    let (out, g2, g3) =
      bind-ok (write_offer capacity [] m.proto_version m.granted_caps) _ bytes g1 in
    let (e, f) = write_offer_ok capacity [] m.proto_version m.granted_caps out g2 in
    let few : length m.granted_caps ≤ 16 = ground (arith, g0) in
    let small : length payload < 2 ^ 32 =
      omega (arith, length-offer m.proto_version m.granted_caps f few) in
    bind-step (open_frame msg_welcome bytes) _ (id, payload) _
      (open_frame_back capacity msg_welcome id payload bytes h1 small
        (ap (write_header capacity msg_welcome id) (sym e) ∙ g3))
      (bind-step (read_offer payload) _ (m.proto_version, map cstring m.granted_caps) _
        (read_offer_back m.proto_version m.granted_caps h2 f few) refl)

-- A HELLO frame that was encoded decodes to its id, its version, the client's name and its
-- capabilities, each text cut at the terminator; the id is a 32-bit number and the version a 16-bit
-- one.
pub decode_hello-encode_hello :
    (capacity id : ℕ) (m : Hello) (bytes : List ℕ)
    → id < 2 ^ 32
    → m.proto_version < 2 ^ 16
    → encode_hello capacity id m ≡ Result.ok bytes
    → decode_hello bytes
      ≡ Result.ok (
        id,
        record {
          proto_version = m.proto_version;
          client_name = cstring m.client_name;
          requested_caps = map cstring m.requested_caps;
        },
      )
unfolding encode_hello decode_hello
decode_hello-encode_hello capacity id m bytes h1 h2 h =
    let rest = offer m.proto_version m.requested_caps in
    let payload = encoded m.client_name ++ rest in
    let (g0, g1) =
      reject-ok (ltb max_caps (length m.requested_caps)) CodecError.overflow _ bytes h in
    let (out1, g2, g3) = bind-ok (write_string capacity [] m.client_name max_text) _ bytes g1 in
    let (e1, f1) = write_string_ok capacity [] m.client_name max_text out1 g2 in
    let (out2, g4, g5) =
      bind-ok (write_offer capacity out1 m.proto_version m.requested_caps) _ bytes g3 in
    let (e2, f2) = write_offer_ok capacity out1 m.proto_version m.requested_caps out2 g4 in
    let few : length m.requested_caps ≤ 16 = ground (arith, g0) in
    let e : out2 ≡ payload = e2 ∙ ap (λ o. o ++ rest) e1 in
    let small : length payload < 2 ^ 32 = omega (
      arith,
      length-append (encoded m.client_name) rest,
      length-encoded max_text m.client_name f1,
      length-offer m.proto_version m.requested_caps f2 few,
    ) in
    bind-step (open_frame msg_hello bytes) _ (id, payload) _
      (open_frame_back capacity msg_hello id payload bytes h1 small
        (ap (write_header capacity msg_hello id) (sym e) ∙ g5))
      (bind-step (read_string payload (max_text + 1) max_text) _ (cstring m.client_name, rest) _
        (read_string_back m.client_name rest max_text f1 (omega arith))
        (bind-step (read_offer rest) _ (m.proto_version, map cstring m.requested_caps) _
          (read_offer_back m.proto_version m.requested_caps h2 f2 few) refl))
