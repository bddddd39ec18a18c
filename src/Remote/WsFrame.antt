-- ===== src/Remote/WsFrame.antt =====
-- Web socket frames (src/remote/aivm_remote_ws_frame.c): the decoder of a client's masked frames and
-- the encoder of the server's. A byte is a number below 256, its bits are read by division, and no
-- pointer is null. `none` is the return value 0.
use ai_vm.Common.{
  ℕ, zero, suc, ◌+◌, ◌*◌, ◌/◌, ◌%◌, Option, none, some, List, [], ◌∷◌, ◌++◌, ltb, leb, ◌==◌, ◌||◌,
  if◌then◌else◌, length, take,
}

pub record WsFrame : Type 0 where
  pub fin : ℕ
  pub opcode : ℕ
  pub payload : List ℕ

-- The four bytes of the mask, by their index.
pub record Mask : Type 0 where
  pub mask0 : ℕ
  pub mask1 : ℕ
  pub mask2 : ℕ
  pub mask3 : ℕ

abbrev pub max_payload : ℕ
max_payload = 65536

-- The `^` of numbers of `n` bits.
unfoldable pub xor_bits : ℕ → ℕ → ℕ → ℕ
xor_bits zero a b = 0
xor_bits (suc n) a b = (a % 2 + b % 2) % 2 + 2 * xor_bits n (a / 2) (b / 2)

-- `mask[i % 4U]`
abbrev pub mask_at : Mask → ℕ → ℕ
mask_at mask i =
    if i % 4 == 0
    then mask.mask0
    else if i % 4 == 1
    then mask.mask1
    else if i % 4 == 2
    then mask.mask2
    else mask.mask3

-- The loop over the payload, from the index `i` on.
unfoldable pub unmask : Mask → ℕ → List ℕ → List ℕ
unfolding xor_bits
unmask mask i [] = []
unmask mask i (b ∷ bytes) = xor_bits 8 b (mask_at mask i) ∷ unmask mask (i + 1) bytes

-- `read_u16_be`, `read_u64_be`: `n` bytes behind `value`, and the bytes behind them.
unfoldable pub read_be : ℕ → ℕ → List ℕ → Option (ℕ × List ℕ)
read_be zero value bytes = some (value, bytes)
read_be (suc n) value [] = none
read_be (suc n) value (b ∷ bytes) = read_be n (value * 256 + b) bytes

-- `write_u16_be` of the cast to `uint16_t`.
unfoldable pub write_u16_be : ℕ → List ℕ
write_u16_be value = (value / 256 % 256) ∷ (value % 256) ∷ []

-- The payload's length, the index behind it, and the bytes from there on; `short` is the length in
-- the second byte.
unfoldable pub read_length : ℕ → List ℕ → Option (ℕ × ℕ × List ℕ)
unfolding read_be
read_length short bytes =
    if short == 126
    then elim (read_be 2 0 bytes) [ none ↦ none | some (n, rest) ↦ some (n, 4, rest) ]
    else if short == 127
    then elim (read_be 8 0 bytes) [ none ↦ none | some (n, rest) ↦ some (n, 10, rest) ]
    else some (short, 2, bytes)

-- From the mask on: the bytes consumed and the frame.
unfoldable pub read_masked : ℕ → ℕ → ℕ → List ℕ → Option (ℕ × WsFrame)
unfolding unmask
read_masked b0 payload_length index (a ∷ b ∷ c ∷ d ∷ bytes) =
    let mask : Mask = record { mask0 = a; mask1 = b; mask2 = c; mask3 = d } in
    if ltb (length bytes) payload_length
    then none
    else some (
      index + 4 + payload_length,
      record {
        fin = b0 / 128 % 2;
        opcode = b0 % 16;
        payload = unmask mask 0 (take payload_length bytes);
      },
    )
read_masked b0 payload_length index _ = none

-- `aivm_ws_decode_client_frame`
unfoldable pub decode_client_frame : List ℕ → Option (ℕ × WsFrame)
unfolding read_length read_masked
decode_client_frame (b0 ∷ b1 ∷ bytes) =
    if b1 / 128 % 2 == 0 then none else elim (read_length (b1 % 128) bytes) [
      | none ↦ none
      | some (payload_length, index, rest) ↦
          if ltb max_payload payload_length then none else read_masked b0 payload_length index rest
    ]
decode_client_frame _ = none

-- `aivm_ws_encode_server_control`
unfoldable pub encode_server_control : ℕ → List ℕ → ℕ → Option (List ℕ)
unfolding write_u16_be
encode_server_control opcode payload out_capacity =
    let n = length payload in
    if ltb max_payload n || ltb out_capacity 2
    then none
    else if leb n 125
    then if ltb out_capacity (2 + n) then none else some ((128 + opcode % 16) ∷ n ∷ payload)
    else if ltb out_capacity 4 || ltb out_capacity (4 + n)
    then none
    else some ((128 + opcode % 16) ∷ 126 ∷ (write_u16_be n ++ payload))

-- `aivm_ws_encode_server_binary`
unfoldable pub encode_server_binary : List ℕ → ℕ → Option (List ℕ)
unfolding encode_server_control
encode_server_binary payload out_capacity = encode_server_control 2 payload out_capacity
