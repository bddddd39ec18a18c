-- ===== src/Text.antt =====
-- Text and bytes (src/aivm_vm_text.c): base64, the check of UTF-8, and hexadecimal digits. A text is
-- the bytes before its terminator, or null; a byte is a number below 256. `none` is the return
-- value 0.
pub mod Base64
pub mod Scalars
pub mod Utf8
mod Tests
use ai_vm.Common.{
  ℕ, zero, suc, ◌+◌, ◌-◌, ◌*◌, ◌/◌, ◌%◌, Bool, true, false, not, ◌&&◌, ◌||◌, Option, none, some,
  List, [], ◌∷◌, ◌++◌, ltb, leb, ◌==◌, if◌then◌else◌, length,
}

abbrev pub in_range : ℕ → ℕ → ℕ → Bool
in_range low high b = leb low b && leb b high

-- `bytes_base64_decode_char`; `none` is -1.
unfoldable pub decode_char : ℕ → Option ℕ
decode_char ch =
    if in_range b'A' b'Z' ch
    then some (ch - b'A')
    else if in_range b'a' b'z' ch
    then some (ch - b'a' + 26)
    else if in_range b'0' b'9' ch
    then some (ch - b'0' + 52)
    else if ch == b'+'
    then some 62
    else if ch == b'/'
    then some 63
    else none

-- The third and the fourth character of a block behind the first two: `chunk` and `pad`.
unfoldable pub decode_pad : ℕ → ℕ → ℕ → Option (ℕ × ℕ)
unfolding decode_char
decode_pad high c d =
    if c == b'=' then if d == b'=' then some (high, 2) else none else elim (decode_char c) [
      | none ↦ none
      | some c2 ↦
          if d == b'='
          then some (high + c2 * 64, 1)
          else elim (decode_char d) [ none ↦ none | some c3 ↦ some (high + c2 * 64 + c3, 0) ]
    ]

unfoldable pub decode_block : ℕ → ℕ → ℕ → ℕ → Option (ℕ × ℕ)
unfolding decode_char decode_pad
decode_block a b c d = elim (decode_char a) [
  | none ↦ none
  | some c0 ↦ elim (decode_char b) [
    | none ↦ none
    | some c1 ↦ decode_pad (c0 * 262144 + c1 * 4096) c d
  ]
]

-- The bytes of a chunk with so much padding.
abbrev pub chunk_bytes : ℕ → ℕ → List ℕ
chunk_bytes chunk pad =
    (chunk / 65536 % 256)
    ∷ (if ltb pad 2
        then (chunk / 256 % 256) ∷ (if pad == 0 then (chunk % 256) ∷ [] else [])
        else [])

abbrev pub is_empty {ℓ} : {A : Type ℓ} → List A → Bool
is_empty [] = true
is_empty (x ∷ xs) = false

-- `pad > 0 && i + 4U != input_len`, then the bytes of the block in front of those behind it.
abbrev pub emit : ℕ × ℕ → List ℕ → Option (List ℕ) → Option (List ℕ)
emit (chunk, pad) rest more =
    if ltb 0 pad && not (is_empty rest)
    then none
    else elim more [ none ↦ none | some bytes ↦ some (chunk_bytes chunk pad ++ bytes) ]

-- The loop over the blocks; a length that is not a multiple of four is refused.
unfoldable pub decode_blocks : List ℕ → Option (List ℕ)
unfolding decode_block
decode_blocks [] = some []
decode_blocks (a ∷ b ∷ c ∷ d ∷ rest) =
    let more = decode_blocks rest in
    elim (decode_block a b c d) [ none ↦ none | some block ↦ emit block rest more ]
decode_blocks _ = none

-- `aivm_bytes_from_base64`: the bytes that are decoded. The output is null, and then only their number
-- is of use, or has a capacity.
unfoldable pub from_base64 : Option (List ℕ) → Option ℕ → Option (List ℕ)
unfolding decode_blocks
from_base64 none output = none
from_base64 (some input) output = elim (decode_blocks input) [
  | none ↦ none
  | some bytes ↦ elim output [
    | none ↦ some bytes
    | some capacity ↦ if ltb capacity (length bytes) then none else some bytes
  ]
]

-- `alphabet[value]`
unfoldable pub alphabet : ℕ → ℕ
alphabet value =
    if ltb value 26
    then b'A' + value
    else if ltb value 52
    then b'a' + (value - 26)
    else if ltb value 62
    then b'0' + (value - 52)
    else if value == 62
    then b'+'
    else b'/'

-- The four characters of a chunk of so many bytes.
unfoldable pub encode_block : ℕ → ℕ → List ℕ
unfolding alphabet
encode_block chunk bytes_in_chunk =
    alphabet (chunk / 262144 % 64)
    ∷ alphabet (chunk / 4096 % 64)
    ∷ (if ltb 1 bytes_in_chunk then alphabet (chunk / 64 % 64) else b'=')
    ∷ (if ltb 2 bytes_in_chunk then alphabet (chunk % 64) else b'=')
    ∷ []

-- `out_index + 4U >= out_capacity`, then a block in front of those behind it.
abbrev pub append_block : ℕ → ℕ → List ℕ → Option (List ℕ) → Option (List ℕ)
append_block out_index out_capacity block more =
    if leb out_capacity (out_index + 4)
    then none
    else elim more [ none ↦ none | some text ↦ some (block ++ text) ]

-- The loop of `aivm_bytes_to_base64`, with `out_index`.
unfoldable pub encode_from : ℕ → ℕ → List ℕ → Option (List ℕ)
unfolding encode_block
encode_from out_capacity out_index [] = some []
encode_from out_capacity out_index (a ∷ []) =
    append_block out_index out_capacity (encode_block (a * 65536) 1) (some [])
encode_from out_capacity out_index (a ∷ b ∷ []) =
    append_block out_index out_capacity (encode_block (a * 65536 + b * 256) 2) (some [])
encode_from out_capacity out_index (a ∷ b ∷ c ∷ rest) =
    append_block out_index out_capacity (encode_block (a * 65536 + b * 256 + c) 3)
      (encode_from out_capacity (out_index + 4) rest)

-- `aivm_bytes_to_base64`: the text without its terminator. Neither pointer is null.
unfoldable pub to_base64 : List ℕ → ℕ → Option (List ℕ)
unfolding encode_from
to_base64 input out_capacity = if out_capacity == 0 then none else encode_from out_capacity 0 input

-- `(b & 0xC0U) == 0x80U`
abbrev pub is_continuation : ℕ → Bool
is_continuation b = b / 64 == 2

-- The bytes behind a sequence of two, three and four bytes, of which `p` tests the second.
unfoldable pub after_two : (ℕ → Bool) → List ℕ → Option (List ℕ)
after_two p (b1 ∷ rest) = if p b1 then some rest else none
after_two p _ = none

unfoldable pub after_three : (ℕ → Bool) → List ℕ → Option (List ℕ)
after_three p (b1 ∷ b2 ∷ rest) = if p b1 && is_continuation b2 then some rest else none
after_three p _ = none

unfoldable pub after_four : (ℕ → Bool) → List ℕ → Option (List ℕ)
after_four p (b1 ∷ b2 ∷ b3 ∷ rest) =
    if p b1 && is_continuation b2 && is_continuation b3 then some rest else none
after_four p _ = none

-- The tests of a first byte of four bytes, and of three.
unfoldable pub four_round : ℕ → List ℕ → Option (List ℕ)
unfolding after_four
four_round b0 rest =
    if b0 == 0xf0
    then after_four (in_range 0x90 0xbf) rest
    else if in_range 0xf1 0xf3 b0
    then after_four is_continuation rest
    else if b0 == 0xf4
    then after_four (in_range 0x80 0x8f) rest
    else none

unfoldable pub three_round : ℕ → List ℕ → Option (List ℕ)
unfolding after_three four_round
three_round b0 rest =
    if b0 == 0xe0
    then after_three (in_range 0xa0 0xbf) rest
    else if in_range 0xe1 0xec b0 || in_range 0xee 0xef b0
    then after_three is_continuation rest
    else if b0 == 0xed
    then after_three (in_range 0x80 0x9f) rest
    else four_round b0 rest

-- One round of the loop: the bytes behind the sequence that `b0` starts, or `none` for `return 0`.
unfoldable pub utf8_round : ℕ → List ℕ → Option (List ℕ)
unfolding after_two three_round
utf8_round b0 rest =
    if b0 == 0
    then none
    else if leb b0 0x7f
    then some rest
    else if in_range 0xc2 0xdf b0
    then after_two is_continuation rest
    else three_round b0 rest

-- The loop, on fuel.
unfoldable pub utf8_loop : ℕ → List ℕ → Bool
unfolding utf8_round
utf8_loop fuel [] = true
utf8_loop zero (b0 ∷ rest) = false
utf8_loop (suc fuel) (b0 ∷ rest) = elim (utf8_round b0 rest) [
  | none ↦ false
  | some rest' ↦ utf8_loop fuel rest'
]

-- `aivm_bytes_is_valid_utf8_without_nul`; every round takes a byte at least.
unfoldable pub is_valid_utf8_without_nul : List ℕ → Bool
unfolding utf8_loop
is_valid_utf8_without_nul bytes = utf8_loop (length bytes) bytes

-- The value of a hexadecimal digit.
unfoldable pub hex_digit : ℕ → Option ℕ
hex_digit ch =
    if in_range b'0' b'9' ch
    then some (ch - b'0')
    else if in_range b'a' b'f' ch
    then some (10 + ch - b'a')
    else if in_range b'A' b'F' ch
    then some (10 + ch - b'A')
    else none

-- The loop of `aivm_hex4_to_u32`.
unfoldable pub hex_loop : ℕ → List ℕ → Option ℕ
unfolding hex_digit
hex_loop value [] = some value
hex_loop value (ch ∷ text) = elim (hex_digit ch) [
  | none ↦ none
  | some nibble ↦ hex_loop (value * 16 + nibble) text
]

-- `aivm_hex4_to_u32`
unfoldable pub hex4_to_u32 : List ℕ → Option ℕ
unfolding hex_loop
hex4_to_u32 text = if length text == 4 then hex_loop 0 text else none
