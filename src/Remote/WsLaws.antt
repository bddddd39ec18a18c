-- ===== src/Remote/WsLaws.antt =====
-- The client's web socket frames of RFC 6455 and `aivm_ws_decode_client_frame`
-- (src/remote/aivm_remote_ws_frame.c).
use ai_vm.Common.{
  ℕ, ◌+◌, ◌*◌, ◌/◌, ◌%◌, ◌≤◌, ◌<◌, ◌≡◌, false, refl, sym, ap, ◌∙◌, Option, some, List, [], ◌∷◌,
  ◌++◌, ltb, leb, ◌==◌, if◌then◌else◌, length, take, All, arith, take-length-append, length-append,
  if_cases, leb→le, append_assoc,
}
use ai_vm.Remote.WsMask.{masked, length-masked, unmask-masked}
use ai_vm.Remote.WsFrame.{
  WsFrame, Mask, max_payload, read_be, read_length, read_masked, decode_client_frame,
}

-- The length field of RFC 6455 with the mask bit: one byte, or 126 and two bytes.
abbrev pub length_field : ℕ → List ℕ
length_field n = if leb n 125 then (128 + n) ∷ [] else (254 ∷ (n / 256) ∷ (n % 256) ∷ [])

-- A client's frame of RFC 6455: the first byte, the length, the mask, and the payload of which every byte
-- stands in exclusive or with a byte of the mask.
abbrev pub client_frame : ℕ → ℕ → Mask → List ℕ → List ℕ
client_frame fin opcode mask payload =
    (fin * 128 + opcode)
    ∷ (length_field (length payload)
        ++ (mask.mask0 ∷ mask.mask1 ∷ mask.mask2 ∷ mask.mask3 ∷ masked mask payload))

abbrev frame_of : ℕ → List ℕ → WsFrame
frame_of b0 payload = record { fin = b0 / 128 % 2; opcode = b0 % 16; payload = payload }

abbrev masked_tail : Mask → List ℕ → List ℕ → List ℕ
masked_tail mask payload rest =
    mask.mask0 ∷ mask.mask1 ∷ mask.mask2 ∷ mask.mask3 ∷ (masked mask payload ++ rest)

read_masked_back :
    (b0 index : ℕ) (mask : Mask) (payload rest : List ℕ)
    → All (λ b. b < 256) payload
    → read_masked b0 (length payload) index (masked_tail mask payload rest)
      ≡ some (index + 4 + length payload, frame_of b0 payload)
unfolding read_masked
read_masked_back b0 index mask payload rest h =
    let hidden = masked mask payload in
    let n = length-masked mask payload in
    let enough : ltb (length (hidden ++ rest)) (length payload) ≡ false =
      ground (arith, length-append hidden rest, n) in
    let part : take (length payload) (hidden ++ rest) ≡ hidden =
      ap (λ k. take k (hidden ++ rest)) (sym n) ∙ take-length-append hidden rest in
    rw (enough, part, unmask-masked mask payload h) refl

read_short :
    (n : ℕ) (bytes : List ℕ) → n ≤ 125 → read_length ((128 + n) % 128) bytes ≡ some (n, 2, bytes)
unfolding read_length
read_short n bytes h = ground arith

read_long :
    (n : ℕ) (bytes : List ℕ)
    → n < 65536
    → read_length (254 % 128) ((n / 256) ∷ (n % 256) ∷ bytes) ≡ some (n, 4, bytes)
unfolding read_length read_be
read_long n bytes h = ground arith

decode_at :
    (b0 b1 n index : ℕ) (bytes rest : List ℕ) (r : Option (ℕ × WsFrame))
    → (b1 / 128 % 2 == 0) ≡ false
    → read_length (b1 % 128) bytes ≡ some (n, index, rest)
    → n < 65536
    → read_masked b0 n index rest ≡ r
    → decode_client_frame (b0 ∷ b1 ∷ bytes) ≡ r
unfolding decode_client_frame
decode_at b0 b1 n index bytes rest r m l h e =
    let small : ltb max_payload n ≡ false = ground (arith, h) in rw (m, l, small) e

decode_by_field :
    (b0 : ℕ) (mask : Mask) (payload rest : List ℕ)
    → length payload < 65536
    → All (λ b. b < 256) payload
    → decode_client_frame (b0 ∷ (length_field (length payload) ++ masked_tail mask payload rest))
      ≡ some (length (length_field (length payload)) + 5 + length payload, frame_of b0 payload)
decode_by_field b0 mask payload rest small h =
    let n = length payload in
    let tail = masked_tail mask payload rest in
    if_cases
      (λ l. decode_client_frame (b0 ∷ (l ++ tail)) ≡ some (length l + 5 + n, frame_of b0 payload))
      (leb n 125)
      (λ e.
        let few : n ≤ 125 = leb→le n 125 e in
        decode_at b0 (128 + n) n 2 tail tail _ (ground (arith, few)) (read_short n tail few) small
          (read_masked_back b0 2 mask payload rest h))
      (λ e.
        decode_at b0 254 n 4 ((n / 256) ∷ (n % 256) ∷ tail) tail _ refl (read_long n tail small)
          small (read_masked_back b0 4 mask payload rest h))

length-client_frame :
    (fin opcode : ℕ) (mask : Mask) (payload : List ℕ)
    → length (length_field (length payload)) + 5 + length payload
      ≡ length (client_frame fin opcode mask payload)
length-client_frame fin opcode mask payload = omega (
  arith,
  length-append (length_field (length payload))
      (mask.mask0 ∷ mask.mask1 ∷ mask.mask2 ∷ mask.mask3 ∷ masked mask payload),
  length-masked mask payload,
)

-- A client's frame laid out as RFC 6455 says, whatever stands behind it, is decoded to its FIN bit, its
-- opcode and its payload without the mask, and all of its bytes are consumed; the payload has fewer
-- than 65536 elements, each a byte.
pub decode_client_frame-client_frame :
    (fin opcode : ℕ) (mask : Mask) (payload rest : List ℕ)
    → fin ≤ 1
    → opcode < 16
    → length payload < 65536
    → All (λ b. b < 256) payload
    → decode_client_frame (client_frame fin opcode mask payload ++ rest)
      ≡ some (
        length (client_frame fin opcode mask payload),
        record { fin = fin; opcode = opcode; payload = payload },
      )
decode_client_frame-client_frame fin opcode mask payload rest f o small h =
    let b0 = fin * 128 + opcode in
    let field = length_field (length payload) in
    let bit : b0 / 128 % 2 ≡ fin = omega (arith, f, o) in
    let low : b0 % 16 ≡ opcode = omega (arith, f, o) in
    ap (λ l. decode_client_frame (b0 ∷ l)) (append_assoc field _ rest)
    ∙ (decode_by_field b0 mask payload rest small h
        ∙ (ap (λ k. some (k, frame_of b0 payload)) (length-client_frame fin opcode mask payload)
            ∙ rw (bit, low) refl))
