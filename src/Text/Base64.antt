-- ===== src/Text/Base64.antt =====
-- Base64 (`aivm_bytes_to_base64` and `aivm_bytes_from_base64` of src/aivm_vm_text.c).
use ai_vm.Common.{
  ℕ, ◌+◌, ◌*◌, ◌/◌, ◌%◌, ◌≤◌, ◌<◌, ◌≡◌, refl, ap, ◌∙◌, false, none, some, List, [], ◌∷◌, ◌++◌, ◌==◌,
  length, arith, All,
}
use ai_vm.Text.{
  decode_char, decode_pad, decode_block, chunk_bytes, decode_blocks, from_base64, alphabet,
  encode_block, emit, append_block, encode_from, to_base64,
}

decode_char-alphabet : (v : ℕ) → v < 64 → decode_char (alphabet v) ≡ some v
unfolding decode_char alphabet
decode_char-alphabet v h = ground arith

alphabet-ne : (v : ℕ) → v < 64 → (alphabet v == b'=') ≡ false
unfolding alphabet
alphabet-ne v h = ground arith

-- A block of four characters of the alphabet, and the two with padding.
decode_block-alphabet :
    (v0 v1 v2 v3 : ℕ)
    → v0 < 64
    → v1 < 64
    → v2 < 64
    → v3 < 64
    → decode_block (alphabet v0) (alphabet v1) (alphabet v2) (alphabet v3)
      ≡ some (v0 * 262144 + v1 * 4096 + v2 * 64 + v3, 0)
unfolding decode_block decode_pad
decode_block-alphabet v0 v1 v2 v3 h0 h1 h2 h3 = ground (
  arith,
  decode_char-alphabet v0 h0,
  decode_char-alphabet v1 h1,
  alphabet-ne v2 h2,
  decode_char-alphabet v2 h2,
  alphabet-ne v3 h3,
  decode_char-alphabet v3 h3,
)

decode_block-one :
    (v0 v1 v2 : ℕ)
    → v0 < 64
    → v1 < 64
    → v2 < 64
    → decode_block (alphabet v0) (alphabet v1) (alphabet v2) b'='
      ≡ some (v0 * 262144 + v1 * 4096 + v2 * 64, 1)
unfolding decode_block decode_pad
decode_block-one v0 v1 v2 h0 h1 h2 = ground (
  arith,
  decode_char-alphabet v0 h0,
  decode_char-alphabet v1 h1,
  alphabet-ne v2 h2,
  decode_char-alphabet v2 h2,
)

decode_block-two :
    (v0 v1 : ℕ)
    → v0 < 64
    → v1 < 64
    → decode_block (alphabet v0) (alphabet v1) b'=' b'=' ≡ some (v0 * 262144 + v1 * 4096, 2)
unfolding decode_block decode_pad
decode_block-two v0 v1 h0 h1 =
    ground (arith, decode_char-alphabet v0 h0, decode_char-alphabet v1 h1)

-- What the loop writes from `out_index` on, and that it is read back.
IsEncoded : ℕ → ℕ → List ℕ → Type 0
IsEncoded out_capacity out_index bytes =
    (text : List ℕ) × (encode_from out_capacity out_index bytes ≡ some text)
    × (length text ≡ 4 * ((length bytes + 2) / 3))
    × (decode_blocks text ≡ some bytes)

-- Four groups of six bits put together again.
joined : ℕ → ℕ
joined k = k / 262144 % 64 * 262144 + k / 4096 % 64 * 4096 + k / 64 % 64 * 64 + k % 64

-- A chunk of three bytes, of two and of one, put together of its groups of six bits.
chunk_bytes-three :
    (a b c : ℕ)
    → a < 256
    → b < 256
    → c < 256
    → chunk_bytes (joined (a * 65536 + b * 256 + c)) 0 ≡ a ∷ b ∷ c ∷ []
unfolding joined
chunk_bytes-three a b c ha hb hc =
    let k : ℕ = a * 65536 + b * 256 + c in
    let e : joined k ≡ k = omega (arith, ha, hb, hc) in
    let p : k / 65536 % 256 ≡ a = omega (arith, ha, hb, hc) in
    let q : k / 256 % 256 ≡ b = omega (arith, ha, hb, hc) in
    let r : k % 256 ≡ c = omega (arith, ha, hb, hc) in
    ap (λ x. chunk_bytes x 0) e ∙ rw (p, q, r) refl

chunk_bytes-two :
    (a b : ℕ)
    → a < 256
    → b < 256
    → chunk_bytes
        (let k = a * 65536 + b * 256 in
          k / 262144 % 64 * 262144 + k / 4096 % 64 * 4096 + k / 64 % 64 * 64)
        1
      ≡ a ∷ b ∷ []
chunk_bytes-two a b ha hb =
    let k : ℕ = a * 65536 + b * 256 in
    let e : k / 262144 % 64 * 262144 + k / 4096 % 64 * 4096 + k / 64 % 64 * 64 ≡ k =
      omega (arith, ha, hb) in
    let p : k / 65536 % 256 ≡ a = omega (arith, ha, hb) in
    let q : k / 256 % 256 ≡ b = omega (arith, ha, hb) in
    ap (λ x. chunk_bytes x 1) e ∙ rw (p, q) refl

chunk_bytes-one :
    (a : ℕ)
    → a < 256
    → chunk_bytes (a * 65536 / 262144 % 64 * 262144 + a * 65536 / 4096 % 64 * 4096) 2 ≡ a ∷ []
chunk_bytes-one a ha =
    let e : a * 65536 / 262144 % 64 * 262144 + a * 65536 / 4096 % 64 * 4096 ≡ a * 65536 =
      omega (arith, ha) in
    let p : a * 65536 / 65536 % 256 ≡ a = omega (arith, ha) in
    ap (λ x. chunk_bytes x 2) e ∙ rw p refl

append_block-some :
    (out_index out_capacity : ℕ) (block text : List ℕ)
    → out_index + 4 < out_capacity
    → append_block out_index out_capacity block (some text) ≡ some (block ++ text)
append_block-some out_index out_capacity block text h = ground arith

-- What a block is read back as in front of the text of the blocks behind it.
decode_blocks-block :
    (a b c d : ℕ) (block : ℕ × ℕ) (rest bytes more : List ℕ)
    → decode_block a b c d ≡ some block
    → decode_blocks rest ≡ some more
    → emit block rest (some more) ≡ some bytes
    → decode_blocks (a ∷ b ∷ c ∷ d ∷ rest) ≡ some bytes
unfolding decode_blocks
decode_blocks-block a b c d block rest bytes more p q r = ground arith

encode_from-IsEncoded :
    (out_capacity out_index : ℕ) (bytes : List ℕ)
    → All (λ b. b < 256) bytes
    → out_index + 4 * ((length bytes + 2) / 3) < out_capacity
    → IsEncoded out_capacity out_index bytes
unfolding IsEncoded encode_from encode_block joined decode_blocks
encode_from-IsEncoded out_capacity out_index [] hs h = ([], refl, refl, refl)
encode_from-IsEncoded out_capacity out_index (a ∷ []) (ha, hs) h =
    let k : ℕ = a * 65536 in
    (
      encode_block k 1,
      append_block-some out_index out_capacity (encode_block k 1) [] (omega (arith, h)),
      refl,
      decode_blocks-block (alphabet (k / 262144 % 64)) (alphabet (k / 4096 % 64)) b'=' b'=' _ []
          (a ∷ []) []
          (decode_block-two (k / 262144 % 64) (k / 4096 % 64) (omega arith) (omega arith)) refl
          (ap some (chunk_bytes-one a ha)),
    )
encode_from-IsEncoded out_capacity out_index (a ∷ b ∷ []) (ha, (hb, hs)) h =
    let k : ℕ = a * 65536 + b * 256 in
    (
      encode_block k 2,
      append_block-some out_index out_capacity (encode_block k 2) [] (omega (arith, h)),
      refl,
      decode_blocks-block (alphabet (k / 262144 % 64)) (alphabet (k / 4096 % 64))
          (alphabet (k / 64 % 64)) b'=' _ [] (a ∷ b ∷ []) []
          (decode_block-one (k / 262144 % 64) (k / 4096 % 64) (k / 64 % 64) (omega arith)
            (omega arith) (omega arith))
          refl (ap some (chunk_bytes-two a b ha hb)),
    )
encode_from-IsEncoded out_capacity out_index (a ∷ b ∷ c ∷ rest) (ha, (hb, (hc, hs))) h =
    let k : ℕ = a * 65536 + b * 256 + c in
    let (text, e, l, d) =
      encode_from-IsEncoded out_capacity (out_index + 4) rest hs (omega (arith, h)) in
    (
      encode_block k 3 ++ text,
      ap (append_block out_index out_capacity (encode_block k 3)) e
          ∙ append_block-some out_index out_capacity (encode_block k 3) text (omega (arith, h)),
      omega (arith, l),
      decode_blocks-block (alphabet (k / 262144 % 64)) (alphabet (k / 4096 % 64))
          (alphabet (k / 64 % 64)) (alphabet (k % 64)) _ text (a ∷ b ∷ c ∷ rest) rest
          (decode_block-alphabet (k / 262144 % 64) (k / 4096 % 64) (k / 64 % 64) (k % 64)
            (omega arith) (omega arith) (omega arith) (omega arith))
          d (ap (λ l. some (l ++ rest)) (chunk_bytes-three a b c ha hb hc)),
    )

to_base64-encode_from :
    (bytes : List ℕ) (out_capacity : ℕ)
    → 0 < out_capacity
    → to_base64 bytes out_capacity ≡ encode_from out_capacity 0 bytes
unfolding to_base64
to_base64-encode_from bytes out_capacity h = ground arith

from_base64-none :
    (text bytes : List ℕ)
    → decode_blocks text ≡ some bytes
    → from_base64 (some text) none ≡ some bytes
unfolding from_base64
from_base64-none text bytes d = ground arith

from_base64-some :
    (text bytes : List ℕ) (room : ℕ)
    → decode_blocks text ≡ some bytes
    → length bytes ≤ room
    → from_base64 (some text) (some room) ≡ some bytes
unfolding from_base64
from_base64-some text bytes room d h = ground arith

-- Text that is written is read back: bytes below 256 that fit with their terminator become four
-- characters for every three bytes begun, and these are decoded to the same bytes, whether the output
-- is null or has room for the bytes.
pub from_base64-to_base64 :
    (bytes : List ℕ) (out_capacity : ℕ)
    → All (λ b. b < 256) bytes
    → 4 * ((length bytes + 2) / 3) < out_capacity
    → (text : List ℕ) × (to_base64 bytes out_capacity ≡ some text)
      × (length text ≡ 4 * ((length bytes + 2) / 3))
      × (from_base64 (some text) none ≡ some bytes)
      × ((room : ℕ) → length bytes ≤ room → from_base64 (some text) (some room) ≡ some bytes)
unfolding IsEncoded
from_base64-to_base64 bytes out_capacity hs h =
    let (text, e, l, d) = encode_from-IsEncoded out_capacity 0 bytes hs (omega (arith, h)) in
    (
      text,
      to_base64-encode_from bytes out_capacity (omega (arith, h)) ∙ e,
      l,
      from_base64-none text bytes d,
      λ room. from_base64-some text bytes room d,
    )
