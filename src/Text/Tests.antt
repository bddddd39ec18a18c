-- ===== src/Text/Tests.antt =====
-- Concrete runs of the functions of src/aivm_vm_text.c.
use ai_vm.Common.{
  ℕ, ◌+◌, ◌*◌, ◌/◌, ◌≤◌, ◌≡◌, refl, ◌↔◌, true, none, some, List, [], ◌∷◌, length, All, arith,
}
use ai_vm.Text.{from_base64, to_base64, is_valid_utf8_without_nul, hex4_to_u32}
use ai_vm.Text.Base64.{from_base64-to_base64}
use ai_vm.Text.Scalars.{IsScalar, encode_scalars}
use ai_vm.Text.Utf8.{is_valid_utf8_without_nul_iff}

abbrev four_bytes : List ℕ
four_bytes = 0 ∷ 255 ∷ 16 ∷ 99 ∷ []

from_base64-to_base64_example :
    (text : List ℕ) × (to_base64 four_bytes 9 ≡ some text)
    × (length text ≡ 4 * ((length four_bytes + 2) / 3))
    × (from_base64 (some text) none ≡ some four_bytes)
    × ((room : ℕ)
        → length four_bytes ≤ room
        → from_base64 (some text) (some room) ≡ some four_bytes)
from_base64-to_base64_example =
    from_base64-to_base64 four_bytes 9
      (omega arith, (omega arith, (omega arith, (omega arith, tt)))) (omega arith)

-- The signs `é` and `€`.
abbrev two_signs : List ℕ
two_signs = 0xc3 ∷ 0xa9 ∷ 0xe2 ∷ 0x82 ∷ 0xac ∷ []

is_valid_utf8_without_nul_iff_example :
    (is_valid_utf8_without_nul two_signs ≡ true)
    ↔ ((cs : List ℕ) × All IsScalar cs × (two_signs ≡ encode_scalars cs))
is_valid_utf8_without_nul_iff_example = is_valid_utf8_without_nul_iff two_signs

two_signs_pass : is_valid_utf8_without_nul two_signs ≡ true
unfolding is_valid_utf8_without_nul
two_signs_pass = refl

hex4_to_u32_runs : hex4_to_u32 (b'0' ∷ b'a' ∷ b'F' ∷ b'9' ∷ []) ≡ some 0x0af9
unfolding hex4_to_u32
hex4_to_u32_runs = refl
