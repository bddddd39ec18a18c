-- ===== src/Remote/WsMask.antt =====
-- The masking of a client's payload as RFC 6455 describes it, and the loop of
-- `aivm_ws_decode_client_frame` (src/remote/aivm_remote_ws_frame.c) that takes it off.
use ai_vm.Common.{
  ℕ, zero, suc, ◌+◌, ◌*◌, ◌/◌, ◌%◌, ◌^◌, ◌≤◌, ◌<◌, ◌≡◌, refl, ap, ◌∙◌, List, [], ◌∷◌, length, All,
  arith,
}
use Prim.Native.Nat.{bit_xor, digits, differ, bit_xor-bitwise}
use ai_vm.Remote.WsFrame.{Mask, xor_bits, mask_at, unmask}

-- The mask from its next byte on.
abbrev rotated : Mask → Mask
rotated mask = record {
  mask0 = mask.mask1;
  mask1 = mask.mask2;
  mask2 = mask.mask3;
  mask3 = mask.mask0;
}

-- Every byte of the payload in exclusive or with the next byte of the mask, which starts again behind
-- its fourth.
abbrev pub masked : Mask → List ℕ → List ℕ
masked mask [] = []
masked mask (b ∷ bytes) = bit_xor b mask.mask0 ∷ masked (rotated mask) bytes

pub length-masked : (mask : Mask) (bytes : List ℕ) → length (masked mask bytes) ≡ length bytes
length-masked mask [] = refl
length-masked mask (b ∷ bytes) = ap suc (length-masked (rotated mask) bytes)

abbrev xor_digits : ℕ → ℕ → ℕ → ℕ
xor_digits n a b = digits (λ b. b) differ n a b

xor_digits_fuel : (n m a b : ℕ) → a ≤ n → a ≤ m → xor_digits n a b ≡ xor_digits m a b
xor_digits_fuel zero zero a b p q = refl
xor_digits_fuel zero (suc m) zero b p q = refl
xor_digits_fuel zero (suc m) (suc a) b p q = absurd (omega arith)
xor_digits_fuel (suc n) zero zero b p q = refl
xor_digits_fuel (suc n) zero (suc a) b p q = absurd (omega arith)
xor_digits_fuel (suc n) (suc m) zero b p q = refl
xor_digits_fuel (suc n) (suc m) (suc a) b p q =
    ap (λ x. x * 2 + differ (suc a % 2) (b % 2))
      (xor_digits_fuel n m (suc a / 2) (b / 2) (omega arith) (omega arith))

differ_sum : (x y : ℕ) → x < 2 → y < 2 → differ x y ≡ (x + y) % 2
differ_sum zero y p q = omega arith
differ_sum (suc zero) zero p q = refl
differ_sum (suc zero) (suc zero) p q = refl
differ_sum (suc zero) (suc (suc y)) p q = absurd (omega arith)
differ_sum (suc (suc x)) y p q = absurd (omega arith)

zero-bit_xor : (b : ℕ) → bit_xor 0 b ≡ b
zero-bit_xor b = bit_xor-bitwise 0 b

bit_xor_step : (a b : ℕ) → bit_xor a b ≡ bit_xor (a / 2) (b / 2) * 2 + (a % 2 + b % 2) % 2
bit_xor_step zero b = omega (arith, zero-bit_xor b, zero-bit_xor (b / 2))
bit_xor_step (suc a) b = omega (
  arith,
  bit_xor-bitwise (suc a) b,
  bit_xor-bitwise (suc a / 2) (b / 2),
  xor_digits_fuel a (suc a / 2) (suc a / 2) (b / 2) (omega arith) (omega arith),
  differ_sum (suc a % 2) (b % 2) (omega arith) (omega arith),
)

xor_bits-bit_xor : (n a b : ℕ) → a < 2 ^ n → xor_bits n (bit_xor a b) b ≡ a
unfolding xor_bits
xor_bits-bit_xor zero a b h = omega arith
xor_bits-bit_xor (suc n) a b h =
    let low : a / 2 < 2 ^ n = omega (arith, h) in
    let s = bit_xor_step a b in
    let half : bit_xor a b / 2 ≡ bit_xor (a / 2) (b / 2) = omega (arith, s) in
    let e : xor_bits n (bit_xor a b / 2) (b / 2) ≡ a / 2 =
      ap (λ x. xor_bits n x (b / 2)) half ∙ xor_bits-bit_xor n (a / 2) (b / 2) low in
    omega (arith, e, s)

-- From the index `i` on the program's mask is `mask'`.
record Aligned (mask : Mask) (i : ℕ) (mask' : Mask) : Type 0 where
  at0 : mask_at mask i ≡ mask'.mask0
  at1 : mask_at mask (i + 1) ≡ mask'.mask1
  at2 : mask_at mask (i + 2) ≡ mask'.mask2
  at3 : mask_at mask (i + 3) ≡ mask'.mask3

mask_at_cycle : (mask : Mask) (i j : ℕ) → i % 4 ≡ j % 4 → mask_at mask i ≡ mask_at mask j
mask_at_cycle mask i j e = rw e refl

unmask-masked_from :
    (mask : Mask) (i : ℕ) (mask' : Mask) (bytes : List ℕ)
    → Aligned mask i mask'
    → All (λ b. b < 256) bytes
    → unmask mask i (masked mask' bytes) ≡ bytes
unfolding unmask
unmask-masked_from mask i mask' [] w h = refl
unmask-masked_from mask i mask' (b ∷ bytes) w (h, hs) =
    let first : xor_bits 8 (bit_xor b mask'.mask0) (mask_at mask i) ≡ b =
      ap (λ k. xor_bits 8 (bit_xor b mask'.mask0) k) w.at0
      ∙ xor_bits-bit_xor 8 b mask'.mask0 (omega (arith, h)) in
    let next : Aligned mask (i + 1) (rotated mask') = record {
      at0 = w.at1;
      at1 = mask_at_cycle mask (i + 1 + 1) (i + 2) (omega arith) ∙ w.at2;
      at2 = mask_at_cycle mask (i + 1 + 2) (i + 3) (omega arith) ∙ w.at3;
      at3 = mask_at_cycle mask (i + 1 + 3) i (omega arith) ∙ w.at0;
    } in
    ap (λ x. x ∷ unmask mask (i + 1) (masked (rotated mask') bytes)) first
    ∙ ap (λ l. b ∷ l) (unmask-masked_from mask (i + 1) (rotated mask') bytes next hs)

-- The loop of the decoder takes the mask off again.
pub unmask-masked :
    (mask : Mask) (bytes : List ℕ)
    → All (λ b. b < 256) bytes
    → unmask mask 0 (masked mask bytes) ≡ bytes
unmask-masked mask bytes h =
    unmask-masked_from mask 0 mask bytes (record { at0 = refl; at1 = refl; at2 = refl; at3 = refl })
      h
