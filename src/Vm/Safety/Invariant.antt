-- ===== src/Vm/Safety/Invariant.antt =====
-- The safety invariant of a machine (src/aivm_vm_stack.c) that runs a program of `code`
-- instructions.
use ai_vm.Common.{
  ℕ, zero, suc, ◌+◌, ◌-◌, ◌≤◌, ◌≡◌, refl, arith, Memory, write, write_ne, write_self, ◌≢◌, sym,
  subst,
}
use ai_vm.Vm.State.{Vm, CallFrame, stack_capacity, callframe_capacity, locals_capacity}

-- The first `n` frames: the locals of each start no later than those of the next, the topmost's
-- no later than `top`, and each returns into the code or to its end.
abbrev pub Nested : ℕ → Memory CallFrame → ℕ → ℕ → Type 0
Nested code frames zero top = Unit
Nested code frames (suc n) top =
    ((frames n).locals_base ≤ top)
    × ((frames n).return_instruction_pointer ≤ code)
    × Nested code frames n (frames n).locals_base

-- The counts stay within the limits and these within the storage, so every access to the three
-- arrays is in bounds; the instruction pointer is at most `last`.
pub record IsSafe (code last : ℕ) (vm : Vm) : Type 0 where
  pub stack_count_le : vm.stack_count ≤ vm.stack_limit
  pub stack_limit_le : vm.stack_limit ≤ stack_capacity
  pub frame_count_le : vm.call_frame_count ≤ vm.call_frame_limit
  pub frame_limit_le : vm.call_frame_limit ≤ callframe_capacity
  pub locals_count_le : vm.locals_count ≤ vm.locals_limit
  pub locals_limit_le : vm.locals_limit ≤ locals_capacity
  pub in_code : vm.instruction_pointer ≤ last
  pub nested : Nested code vm.call_frames vm.call_frame_count vm.locals_count

-- The invariant behind a constructor, for proofs by cases that do not look into its fields.
pub data Safe (code last : ℕ) (vm : Vm) : Type 0 where
  safe : IsSafe code last vm → Safe code last vm

pub facts : {code last : ℕ} {vm : Vm} → Safe code last vm → IsSafe code last vm
facts (safe s) = s

-- A higher top keeps frames nested.
pub Nested_mono :
    (code : ℕ) (frames : Memory CallFrame) (n a b : ℕ)
    → a ≤ b
    → Nested code frames n a
    → Nested code frames n b
Nested_mono code frames zero a b h s = tt
Nested_mono code frames (suc n) a b h s = (omega arith, s.1, s.2)

-- A write above the frames in use does not touch them.
pub Nested-write :
    (code : ℕ) (frames : Memory CallFrame) (n i top : ℕ) (frame : CallFrame)
    → n ≤ i
    → Nested code frames n top
    → Nested code (write frames i frame) n top
Nested-write code frames zero i top frame h s = tt
Nested-write code frames (suc n) i top frame h s =
    let e : write frames i frame n ≡ frames n = write_ne frames i n frame (omega arith) in
    subst
      (λ (f : CallFrame).
        (f.locals_base ≤ top)
        × (f.return_instruction_pointer ≤ code)
        × Nested code (write frames i frame) n f.locals_base)
      (sym e)
      (s.0, s.1, Nested-write code frames n i (frames n).locals_base frame (omega arith) s.2)

pub Nested-push :
    (code : ℕ) (frames : Memory CallFrame) (n top : ℕ) (frame : CallFrame)
    → frame.locals_base ≤ top
    → frame.return_instruction_pointer ≤ code
    → Nested code frames n frame.locals_base
    → Nested code (write frames n frame) (n + 1) top
Nested-push code frames n top frame h r s =
    let e : suc n ≡ n + 1 = omega arith in
    let w : write frames n frame n ≡ frame = write_self frames n frame in
    subst (λ k. Nested code (write frames n frame) k top) e
      (subst
        (λ (f : CallFrame).
          (f.locals_base ≤ top)
          × (f.return_instruction_pointer ≤ code)
          × Nested code (write frames n frame) n f.locals_base)
        (sym w) (h, r, Nested-write code frames n n frame.locals_base frame (omega arith) s))

-- The top frame of nested frames, and the frames below it.
pub Nested-pop :
    (code : ℕ) (frames : Memory CallFrame) (n top : ℕ)
    → n ≢ 0
    → Nested code frames n top
    → ((frames (n - 1)).locals_base ≤ top)
      × ((frames (n - 1)).return_instruction_pointer ≤ code)
      × Nested code frames (n - 1) (frames (n - 1)).locals_base
Nested-pop code frames zero top h s = absurd (h refl)
Nested-pop code frames (suc n) top h s =
    let e : n ≡ suc n - 1 = omega arith in
    subst
      (λ k.
        ((frames k).locals_base ≤ top)
        × ((frames k).return_instruction_pointer ≤ code)
        × Nested code frames k (frames k).locals_base)
      e s

-- The locals may be cut down to the base of the top frame.
pub Nested-cut :
    (code : ℕ) (frames : Memory CallFrame) (n top : ℕ)
    → n ≢ 0
    → Nested code frames n top
    → Nested code frames n (frames (n - 1)).locals_base
Nested-cut code frames zero top h s = absurd (h refl)
Nested-cut code frames (suc n) top h s =
    let e : n ≡ suc n - 1 = omega arith in
    subst (λ k. Nested code frames (suc n) (frames k).locals_base) e (omega arith, s.1, s.2)
