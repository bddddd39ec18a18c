-- ===== src/Remote/WsServer.antt =====
-- The server's web socket frames (`aivm_ws_encode_server_control` of
-- src/remote/aivm_remote_ws_frame.c) as a client reads them.
use ai_vm.Common.{
  ℕ, ◌+◌, ◌*◌, ◌/◌, ◌%◌, ◌≤◌, ◌<◌, ◌≡◌, ◌⊎◌, inl, inr, refl, ap, ◌∙◌, Option, none, some, List, [],
  ◌∷◌, ◌++◌, length, take, arith,
}
use ai_vm.Remote.WsFrame.{read_be, write_u16_be, read_length, encode_server_control}

take-length : (xs : List ℕ) → take (length xs) xs ≡ xs
take-length [] = refl
take-length (x ∷ xs) = ap (λ l. x ∷ l) (take-length xs)

-- How a client reads a server's frame of RFC 6455: the opcode, the length in the frame, and as many
-- bytes as it says.
abbrev pub read_server_frame : List ℕ → Option (ℕ × ℕ × List ℕ)
read_server_frame (b0 ∷ b1 ∷ bytes) = elim (read_length b1 bytes) [
  | none ↦ none
  | some (n, index, rest) ↦ some (b0 % 16, n, take n rest)
]
read_server_frame _ = none

-- The bytes of a frame of the server by the length of its payload.
encode_server_control_lem :
    (opcode : ℕ) (payload : List ℕ) (capacity : ℕ) (out : List ℕ)
    → encode_server_control opcode payload capacity ≡ some out
    → ((length payload ≤ 125) × (out ≡ (128 + opcode % 16) ∷ length payload ∷ payload))
      ⊎ ((125 < length payload)
          × (out ≡ (128 + opcode % 16) ∷ 126 ∷ (write_u16_be (length payload) ++ payload)))
unfolding encode_server_control
encode_server_control_lem opcode payload capacity out h = ground (arith, h)

read_server_short :
    (b0 n : ℕ) (payload : List ℕ)
    → n ≡ length payload
    → n ≤ 125
    → read_server_frame (b0 ∷ n ∷ payload) ≡ some (b0 % 16, n, payload)
unfolding read_length
read_server_short b0 n payload e h =
    let all : take n payload ≡ payload = ap (λ k. take k payload) e ∙ take-length payload in
    ground (arith, all)

read_server_long :
    (b0 n : ℕ) (payload : List ℕ)
    → read_server_frame (b0 ∷ 126 ∷ (write_u16_be n ++ payload))
      ≡ some (b0 % 16, n % 65536, take (n % 65536) payload)
unfolding read_length read_be write_u16_be
read_server_long b0 n payload =
    let e : (0 * 256 + n / 256 % 256) * 256 + n % 256 ≡ n % 65536 = omega arith in
    ap (λ k. some (b0 % 16, k, take k payload)) e

-- A frame that the server encodes is read by a client as its opcode, the length of its payload and its
-- payload, where the payload has fewer than 65536 bytes and the opcode 4 bits.
pub read_server_frame-encode_server_control :
    (opcode : ℕ) (payload : List ℕ) (capacity : ℕ) (out : List ℕ)
    → opcode < 16
    → length payload < 65536
    → encode_server_control opcode payload capacity ≡ some out
    → read_server_frame out ≡ some (opcode, length payload, payload)
read_server_frame-encode_server_control opcode payload capacity out o small h =
    let n = length payload in
    let low : (128 + opcode % 16) % 16 ≡ opcode = omega (arith, o) in
    elim (encode_server_control_lem opcode payload capacity out h) [
      | inl (few, e) ↦
          ap read_server_frame e
          ∙ (read_server_short (128 + opcode % 16) n payload refl few
              ∙ ap (λ x. some (x, n, payload)) low)
      | inr (many, e) ↦
          let whole : n % 65536 ≡ n = omega (arith, small) in
          ap read_server_frame e
          ∙ (read_server_long (128 + opcode % 16) n payload
              ∙ rw (low, whole, take-length payload) refl)
    ]

-- A payload of 65536 bytes is encoded where the output has room, and a client reads a payload of
-- length 0 from the frame.
pub longest_payload_is_lost :
    (opcode : ℕ) (payload : List ℕ) (capacity : ℕ)
    → opcode < 16
    → length payload ≡ 65536
    → 65540 ≤ capacity
    → (out : List ℕ) × (encode_server_control opcode payload capacity ≡ some out)
      × (read_server_frame out ≡ some (opcode, 0, []))
unfolding encode_server_control
longest_payload_is_lost opcode payload capacity o long room =
    let n = length payload in
    let low : (128 + opcode % 16) % 16 ≡ opcode = omega (arith, o) in
    let wraps : n % 65536 ≡ 0 = omega (arith, long) in
    (
      (128 + opcode % 16) ∷ 126 ∷ (write_u16_be n ++ payload),
      ground (arith, long, room),
      read_server_long (128 + opcode % 16) n payload ∙ rw (low, wraps) refl,
    )
