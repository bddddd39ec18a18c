-- ===== src/Loader/Tests.antt =====
-- Concrete programs for the loader of src/aivm_program.c.
use ai_vm.Common.{ℕ, ◌≡◌, inl, refl, true, Option, none, some, List, [], ◌∷◌, length, arith}
use ai_vm.Loader.{ProgramStatus, Load, RawInstruction, LoaderHost, load_aibc1}
use ai_vm.Loader.Reads.{IsSafe}
use ai_vm.Loader.Sound.{IsImage, load_aibc1-IsSafe}
use ai_vm.Loader.RoundTrip.{program_bytes, image_of, load_aibc1-program_bytes}

-- A catalog that is its section's length, where there is any.
abbrev catalog_size : List ℕ → Option ℕ
catalog_size [] = none
catalog_size (b ∷ bs) = some (length (b ∷ bs))

abbrev generous : LoaderHost
generous = record { allocates_instructions = true; allocates_constants = true }

-- PUSH_INT 7, HALT
abbrev two_instructions : List RawInstruction
two_instructions =
    (record { opcode = 3; operand_int = 7 }) ∷ (record { opcode = 1; operand_int = 0 }) ∷ []

load_aibc1-IsSafe_example :
    IsSafe
      (IsImage ℕ (length (program_bytes 0 two_instructions)))
      (load_aibc1 catalog_size generous (program_bytes 0 two_instructions))
load_aibc1-IsSafe_example =
    load_aibc1-IsSafe ℕ catalog_size generous (program_bytes 0 two_instructions)

load_aibc1-program_bytes_example :
    load_aibc1 catalog_size generous (program_bytes 5 two_instructions)
    ≡ Load.loaded (image_of ℕ catalog_size generous 5 two_instructions)
load_aibc1-program_bytes_example =
    load_aibc1-program_bytes ℕ catalog_size generous 5 two_instructions (omega arith)
      ((omega arith, omega arith), ((omega arith, omega arith), tt)) (omega arith) (inl refl)

-- An opcode beyond the last one is refused, at its offset.
bad_opcode_fails :
    load_aibc1 catalog_size generous
      (program_bytes 0 ((record { opcode = 93; operand_int = 0 }) ∷ []))
    ≡ Load.failed ProgramStatus.program_invalid_opcode 28
unfolding load_aibc1
bad_opcode_fails = refl

empty_bytes_fail :
    load_aibc1 catalog_size generous [] ≡ Load.failed ProgramStatus.program_truncated 0
unfolding load_aibc1
empty_bytes_fail = refl
