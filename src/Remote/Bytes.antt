-- ===== src/Remote/Bytes.antt =====
-- Little-endian numbers (the `read_…_le` and `write_…_le` of src/remote/aivm_remote_channel.c).
-- A byte is a number below 256, so the bitwise or of shifted bytes is their sum.
use ai_vm.Common.{
  ℕ, zero, suc, ◌+◌, ◌*◌, ◌/◌, ◌%◌, ◌^◌, ◌<◌, ◌≡◌, refl, Option, none, some, List, [], ◌∷◌, ◌++◌,
  arith, length,
}

unfoldable pub write_u16_le : ℕ → List ℕ
write_u16_le v = (v % 256) ∷ (v / 256 % 256) ∷ []

unfoldable pub write_u32_le : ℕ → List ℕ
write_u32_le v = (v % 256) ∷ (v / 256 % 256) ∷ (v / 65536 % 256) ∷ (v / 16777216 % 256) ∷ []

-- `out[i] = (u >> (8 * i)) & 0xff` for the next `n` places.
unfoldable pub write_le : ℕ → ℕ → List ℕ
write_le zero v = []
write_le (suc n) v = (v % 256) ∷ write_le n (v / 256)

unfoldable pub write_i64_le : ℕ → List ℕ
unfolding write_le
write_i64_le v = write_le 8 v

-- A read gives the number and the bytes behind it, where there are enough.
unfoldable pub read_u16_le : List ℕ → Option (ℕ × List ℕ)
read_u16_le (a ∷ b ∷ rest) = some (a + b * 256, rest)
read_u16_le _ = none

unfoldable pub read_u32_le : List ℕ → Option (ℕ × List ℕ)
read_u32_le (a ∷ b ∷ c ∷ d ∷ rest) = some (a + b * 256 + c * 65536 + d * 16777216, rest)
read_u32_le _ = none

unfoldable pub read_le : ℕ → List ℕ → Option (ℕ × List ℕ)
read_le zero bytes = some (0, bytes)
read_le (suc n) [] = none
read_le (suc n) (a ∷ rest) = elim (read_le n rest) [
  | none ↦ none
  | some (v, r) ↦ some (a + 256 * v, r)
]

unfoldable pub read_i64_le : List ℕ → Option (ℕ × List ℕ)
unfolding read_le
read_i64_le bytes = read_le 8 bytes

pub read_u16-write_u16 :
    (v : ℕ) (rest : List ℕ) → v < 2 ^ 16 → read_u16_le (write_u16_le v ++ rest) ≡ some (v, rest)
unfolding read_u16_le write_u16_le
read_u16-write_u16 v rest h = ground arith

pub read_u32-write_u32 :
    (v : ℕ) (rest : List ℕ) → v < 2 ^ 32 → read_u32_le (write_u32_le v ++ rest) ≡ some (v, rest)
unfolding read_u32_le write_u32_le
read_u32-write_u32 v rest h = ground arith

read_le-write_le :
    (n v : ℕ) (rest : List ℕ) → v < 256 ^ n → read_le n (write_le n v ++ rest) ≡ some (v, rest)
unfolding read_le write_le
read_le-write_le zero v rest h = ground arith
read_le-write_le (suc n) v rest h =
    let less : v / 256 < 256 ^ n = omega (arith, h) in
    rw (read_le-write_le n (v / 256) rest less) (ground arith)

pub read_i64-write_i64 :
    (v : ℕ) (rest : List ℕ) → v < 2 ^ 64 → read_i64_le (write_i64_le v ++ rest) ≡ some (v, rest)
unfolding read_i64_le write_i64_le
read_i64-write_i64 v rest h = read_le-write_le 8 v rest h

pub length-write_le : (n v : ℕ) → length (write_le n v) ≡ n
unfolding write_le
length-write_le zero v = refl
length-write_le (suc n) v = omega (arith, length-write_le n (v / 256))
