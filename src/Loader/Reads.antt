-- ===== src/Loader/Reads.antt =====
-- Reads of the loader of src/aivm_program.c that stay within the bytes.
use ai_vm.Common.{
  ℕ, zero, suc, ◌+◌, ◌*◌, ◌^◌, ◌≤◌, ◌<◌, ◌≡◌, refl, ap, Bool, true, false, not, List, [], ◌∷◌,
  length, arith, if◌then◌else◌,
}
use ai_vm.Loader.{
  ProgramStatus, Load, and_then, byte_at, read_u32_at, read_i64_at, copy_bytes, fits_in,
}

-- A load that fails, or gives a value with the property; it has not read outside of the bytes.
module _ {A : Type 0} where
  pub data IsSafe (P : A → Type 0) : Load A → Type 0 where
    fails : (status : ProgramStatus) (offset : ℕ) → IsSafe P (Load.failed status offset)
    loads : (a : A) → P a → IsSafe P (Load.loaded a)

pub and_then-IsSafe :
    {A B : Type 0} (Q : A → Type 0) (P : B → Type 0) (r : Load A) (f : A → Load B)
    → IsSafe Q r
    → ((a : A) → Q a → IsSafe P (f a))
    → IsSafe P (and_then r f)
and_then-IsSafe Q P _ f (IsSafe.fails status offset) k = IsSafe.fails status offset
and_then-IsSafe Q P _ f (IsSafe.loads a q) k = k a q

-- A guard that fails, or holds for what follows.
pub guard-IsSafe :
    {A : Type 0} (P : A → Type 0) (b : Bool) (status : ProgramStatus) (offset : ℕ) (r : Load A)
    → (b ≡ false → IsSafe P r)
    → IsSafe P (if b then Load.failed status offset else r)
guard-IsSafe P true status offset r k = IsSafe.fails status offset
guard-IsSafe P false status offset r k = k refl

abbrev pub Any : {A : Type 0} → A → Type 0
Any a = Unit

pub byte_at-IsSafe : (bytes : List ℕ) (i : ℕ) → i < length bytes → IsSafe Any (byte_at bytes i)
byte_at-IsSafe [] i h = absurd (omega (arith, h))
byte_at-IsSafe (b ∷ bs) zero h = IsSafe.loads b tt
byte_at-IsSafe (b ∷ bs) (suc i) h = byte_at-IsSafe bs i (omega (arith, h))

pub read_u32_at-IsSafe :
    (bytes : List ℕ) (offset : ℕ)
    → offset + 4 ≤ length bytes
    → IsSafe Any (read_u32_at bytes offset)
unfolding read_u32_at
read_u32_at-IsSafe bytes offset h =
    and_then-IsSafe Any Any (byte_at bytes offset) _
      (byte_at-IsSafe bytes offset (omega (arith, h)))
      (λ a _.
        and_then-IsSafe Any Any (byte_at bytes (offset + 1)) _
          (byte_at-IsSafe bytes (offset + 1) (omega (arith, h)))
          (λ b _.
            and_then-IsSafe Any Any (byte_at bytes (offset + 2)) _
              (byte_at-IsSafe bytes (offset + 2) (omega (arith, h)))
              (λ c _.
                and_then-IsSafe Any Any (byte_at bytes (offset + 3)) _
                  (byte_at-IsSafe bytes (offset + 3) (omega (arith, h)))
                  (λ d _. IsSafe.loads (a + b * 256 + c * 65536 + d * 16777216) tt))))

pub read_i64_at-IsSafe :
    (bytes : List ℕ) (offset : ℕ)
    → offset + 8 ≤ length bytes
    → IsSafe Any (read_i64_at bytes offset)
unfolding read_i64_at
read_i64_at-IsSafe bytes offset h =
    and_then-IsSafe Any Any (read_u32_at bytes offset) _
      (read_u32_at-IsSafe bytes offset (omega (arith, h)))
      (λ low _.
        and_then-IsSafe Any Any (read_u32_at bytes (offset + 4)) _
          (read_u32_at-IsSafe bytes (offset + 4) (omega (arith, h)))
          (λ high _. IsSafe.loads (low + high * 2 ^ 32) tt))

pub copy_bytes-IsSafe :
    (bytes : List ℕ) (offset n : ℕ)
    → offset + n ≤ length bytes
    → IsSafe (λ copied. length copied ≡ n) (copy_bytes bytes offset n)
unfolding copy_bytes
copy_bytes-IsSafe bytes offset zero h = IsSafe.loads [] refl
copy_bytes-IsSafe bytes offset (suc n) h =
    and_then-IsSafe Any (λ copied. length copied ≡ suc n) (byte_at bytes offset) _
      (byte_at-IsSafe bytes offset (omega (arith, h)))
      (λ b _.
        and_then-IsSafe (λ copied. length copied ≡ n) (λ copied. length copied ≡ suc n)
          (copy_bytes bytes (offset + 1) n) _
          (copy_bytes-IsSafe bytes (offset + 1) n (omega (arith, h)))
          (λ bs q. IsSafe.loads (b ∷ bs) (ap suc q)))

-- The checked sum that passes is within the limit.
pub fits_in-le : (cursor n limit : ℕ) → not (fits_in cursor n limit) ≡ false → cursor + n ≤ limit
fits_in-le cursor n limit h = ground (arith, h)
