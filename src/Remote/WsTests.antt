-- ===== src/Remote/WsTests.antt =====
-- Web socket frames of src/remote/aivm_remote_ws_frame.c at concrete bytes.
use ai_vm.Common.{
  ℕ, ◌≡◌, refl, some, List, [], ◌∷◌, ◌++◌, arith, length, replicate, length-replicate,
}
use ai_vm.Remote.WsFrame.{
  Mask, decode_client_frame, encode_server_control, read_length, read_masked, unmask, xor_bits,
}
use ai_vm.Remote.WsLaws.{client_frame, decode_client_frame-client_frame}
use ai_vm.Remote.WsServer.{
  read_server_frame, read_server_frame-encode_server_control, longest_payload_is_lost,
}

-- The masked text "Hello" of RFC 6455, section 5.7.
hello_decodes :
    decode_client_frame
      (0x81 ∷ 0x85 ∷ 0x37 ∷ 0xfa ∷ 0x21 ∷ 0x3d ∷ 0x7f ∷ 0x9f ∷ 0x4d ∷ 0x51 ∷ 0x58 ∷ [])
    ≡ some (11, record { fin = 1; opcode = 1; payload = 72 ∷ 101 ∷ 108 ∷ 108 ∷ 111 ∷ [] })
unfolding decode_client_frame read_length read_masked unmask xor_bits
hello_decodes = refl

abbrev mask : Mask
mask = record { mask0 = 0x37; mask1 = 0xfa; mask2 = 0x21; mask3 = 0x3d }

abbrev payload : List ℕ
payload = 72 ∷ 105 ∷ []

decode_client_frame-client_frame_example :
    decode_client_frame (client_frame 1 2 mask payload ++ (7 ∷ []))
    ≡ some
        (length (client_frame 1 2 mask payload), record { fin = 1; opcode = 2; payload = payload })
decode_client_frame-client_frame_example =
    decode_client_frame-client_frame 1 2 mask payload (7 ∷ []) (omega arith) (omega arith)
      (omega arith) (omega arith, (omega arith, tt))

two_encoded : encode_server_control 2 payload 4 ≡ some (130 ∷ 2 ∷ payload)
unfolding encode_server_control
two_encoded = refl

read_server_frame-encode_server_control_example :
    read_server_frame (130 ∷ 2 ∷ payload) ≡ some (2, 2, payload)
read_server_frame-encode_server_control_example =
    read_server_frame-encode_server_control 2 payload 4 (130 ∷ 2 ∷ payload) (omega arith)
      (omega arith) two_encoded

abbrev zeros : List ℕ
zeros = replicate 65536 0

length-zeros : length zeros ≡ 65536
length-zeros = length-replicate {A = ℕ} 65536 0

longest_payload_is_lost_example :
    (out : List ℕ) × (encode_server_control 2 zeros 65540 ≡ some out)
    × (read_server_frame out ≡ some (2, 0, []))
longest_payload_is_lost_example =
    longest_payload_is_lost 2 zeros 65540 (omega arith) length-zeros (omega arith)
