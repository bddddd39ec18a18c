-- ===== src/Loader/RoundTrip.antt =====
-- Programs laid out in the format that `aivm_program_load_aibc1` of src/aivm_program.c reads.
use ai_vm.Common.{
  ℕ, zero, suc, ◌+◌, ◌*◌, ◌/◌, ◌%◌, ◌^◌, ◌≤◌, ◌<◌, ◌≡◌, ◌⊎◌, refl, sym, ap, ◌∙◌, Bool, true, false,
  not, Option, some, List, [], ◌∷◌, ◌++◌, length, append-nil, drop, arith, ltb, ge→ltb, ==_refl,
  if◌then◌else◌, All,
}
use mathlib.Core.Bool.{false≢true}
use ai_vm.Loader.{
  Load, RawInstruction, Image, LoaderHost, op_max, and_then, byte_at, read_u32_at, read_i64_at,
  fits_in, reserve, load_instructions, expected_section_size, instruction_section, load_section,
  add_section, load_sections, cleared_image, has_magic, load_aibc1,
}

and_then-loaded :
    {A B : Type 0} (r : Load A) (f : A → Load B) (a : A) (x : Load B)
    → r ≡ Load.loaded a
    → f a ≡ x
    → and_then r f ≡ x
and_then-loaded r f a x e q = ap (λ r. and_then r f) e ∙ q

guard-false :
    {A : Type 0} (b : Bool) (x y r : Load A) → b ≡ false → y ≡ r → (if b then x else y) ≡ r
guard-false true x y r e q = absurd (false≢true (sym e))
guard-false false x y r e q = q

-- The bytes from an offset on.
drop_to :
    (bytes : List ℕ) (m n : ℕ) (rest : List ℕ) → m ≡ n → drop m bytes ≡ rest → drop n bytes ≡ rest
drop_to bytes m n rest e q = ap (λ k. drop k bytes) (sym e) ∙ q

drop_next :
    (bytes : List ℕ) (offset b : ℕ) (rest : List ℕ)
    → drop offset bytes ≡ b ∷ rest
    → (byte_at bytes offset ≡ Load.loaded b) × (drop (offset + 1) bytes ≡ rest)
drop_next [] zero b rest e = absurd (ground (arith, e))
drop_next [] (suc offset) b rest e = absurd (ground (arith, e))
drop_next (x ∷ xs) zero b rest e = (ap (λ l. byte_at l 0) e, ap (drop 1) e)
drop_next (x ∷ xs) (suc offset) b rest e =
    let (p, q) = drop_next xs offset b rest e in
    (p, drop_to (x ∷ xs) (suc (offset + 1)) (suc offset + 1) rest (omega arith) q)

-- The layout of a number of 32 bits, of 64 bits, and of an instruction.
abbrev pub u32_bytes : ℕ → List ℕ
u32_bytes v = (v % 256) ∷ (v / 256 % 256) ∷ (v / 65536 % 256) ∷ (v / 16777216 % 256) ∷ []

abbrev pub i64_bytes : ℕ → List ℕ
i64_bytes v = u32_bytes (v % 2 ^ 32) ++ u32_bytes (v / 2 ^ 32)

abbrev pub instruction_bytes : List RawInstruction → List ℕ
instruction_bytes [] = []
instruction_bytes (i ∷ is) = u32_bytes i.opcode ++ i64_bytes i.operand_int ++ instruction_bytes is

-- A program of one section, that of its instructions.
abbrev pub program_bytes : ℕ → List RawInstruction → List ℕ
program_bytes flags is =
    b'A' ∷ b'I' ∷ b'B' ∷ b'C' ∷ []
    ++ u32_bytes 2
    ++ u32_bytes flags
    ++ u32_bytes 1
    ++ u32_bytes 1
    ++ u32_bytes (4 + length is * 12)
    ++ u32_bytes (length is)
    ++ instruction_bytes is

read_u32_lem :
    (bytes : List ℕ) (offset v : ℕ) (rest : List ℕ)
    → v < 2 ^ 32
    → drop offset bytes ≡ u32_bytes v ++ rest
    → (read_u32_at bytes offset ≡ Load.loaded v) × (drop (offset + 4) bytes ≡ rest)
unfolding read_u32_at
read_u32_lem bytes offset v rest h e =
    let (p0, q0) = drop_next bytes offset (v % 256) _ e in
    let (p1, q1) = drop_next bytes (offset + 1) (v / 256 % 256) _ q0 in
    let (p2, q2) =
      drop_next bytes (offset + 2) (v / 65536 % 256) ((v / 16777216 % 256) ∷ rest)
        (drop_to bytes (offset + 1 + 1) (offset + 2) _ (omega arith) q1) in
    let (p3, q3) =
      drop_next bytes (offset + 3) (v / 16777216 % 256) rest
        (drop_to bytes (offset + 2 + 1) (offset + 3) _ (omega arith) q2) in
    let sum : v % 256
          + v / 256 % 256 * 256
          + v / 65536 % 256 * 65536
          + v / 16777216 % 256 * 16777216
        ≡ v =
      omega (arith, h) in
    (
      and_then-loaded (byte_at bytes offset) _ (v % 256) _ p0 (
          and_then-loaded (byte_at bytes (offset + 1)) _ (v / 256 % 256) _ p1 (
            and_then-loaded (byte_at bytes (offset + 2)) _ (v / 65536 % 256) _ p2 (
              and_then-loaded (byte_at bytes (offset + 3)) _ (v / 16777216 % 256) _ p3
                (ap Load.loaded sum)))),
      drop_to bytes (offset + 3 + 1) (offset + 4) rest (omega arith) q3,
    )

read_i64_lem :
    (bytes : List ℕ) (offset v : ℕ) (rest : List ℕ)
    → v < 2 ^ 64
    → drop offset bytes ≡ i64_bytes v ++ rest
    → (read_i64_at bytes offset ≡ Load.loaded v) × (drop (offset + 8) bytes ≡ rest)
unfolding read_i64_at
read_i64_lem bytes offset v rest h e =
    let (p, q) =
      read_u32_lem bytes offset (v % 2 ^ 32) (u32_bytes (v / 2 ^ 32) ++ rest) (omega arith) e in
    let (p2, q2) = read_u32_lem bytes (offset + 4) (v / 2 ^ 32) rest (omega (arith, h)) q in
    let sum : v % 2 ^ 32 + v / 2 ^ 32 * 2 ^ 32 ≡ v = omega arith in
    (
      and_then-loaded (read_u32_at bytes offset) _ (v % 2 ^ 32) _ p (
          and_then-loaded (read_u32_at bytes (offset + 4)) _ (v / 2 ^ 32) _ p2
            (ap Load.loaded sum)),
      drop_to bytes (offset + 4 + 4) (offset + 8) rest (omega arith) q2,
    )

-- The instructions that a program may have.
abbrev pub IsPlain : RawInstruction → Type 0
IsPlain i = (i.opcode ≤ op_max) × (i.operand_int < 2 ^ 64)

load_instructions_lem :
    (bytes : List ℕ) (cursor : ℕ) (is : List RawInstruction) (rest : List ℕ)
    → All IsPlain is
    → drop cursor bytes ≡ instruction_bytes is ++ rest
    → load_instructions bytes cursor (length is) ≡ Load.loaded is
unfolding load_instructions
load_instructions_lem bytes cursor [] rest h e = refl
load_instructions_lem bytes cursor (i ∷ is) rest (h, hs) e =
    let (small, wide) = h in
    let (p, q) =
      read_u32_lem bytes cursor i.opcode (i64_bytes i.operand_int ++ (instruction_bytes is ++ rest))
        (omega (arith, small)) e in
    let (p2, q2) =
      read_i64_lem bytes (cursor + 4) i.operand_int (instruction_bytes is ++ rest) wide q in
    let ih : load_instructions bytes (cursor + 12) (length is) ≡ Load.loaded is =
      load_instructions_lem bytes (cursor + 12) is rest hs
        (drop_to bytes (cursor + 4 + 8) (cursor + 12) _ (omega arith) q2) in
    let b : ltb op_max i.opcode ≡ false = ge→ltb op_max i.opcode small in
    and_then-loaded (read_u32_at bytes cursor) _ i.opcode _ p (
      and_then-loaded (read_i64_at bytes (cursor + 4)) _ i.operand_int _ p2
        (rw b (and_then-loaded (load_instructions bytes (cursor + 12) (length is)) _ is _ ih refl)))

instruction_section_lem :
    (bytes : List ℕ) (allocates : Bool) (start : ℕ) (is : List RawInstruction) (rest : List ℕ)
    → All IsPlain is
    → 4 + length is * 12 < 2 ^ 32
    → (allocates ≡ true) ⊎ (length is ≤ 32768)
    → drop start bytes ≡ u32_bytes (length is) ++ (instruction_bytes is ++ rest)
    → instruction_section bytes allocates start (4 + length is * 12) ≡ Load.loaded (is, length is)
unfolding instruction_section
instruction_section_lem bytes allocates start is rest hs l m e =
    let (p, q) =
      read_u32_lem bytes start (length is) (instruction_bytes is ++ rest) (omega (arith, l)) e in
    let g : ltb (4 + length is * 12) 4 ≡ false = ge→ltb (4 + length is * 12) 4 (omega arith) in
    let x : expected_section_size (length is) ≡ some (4 + length is * 12) = ground (arith, l) in
    let r : reserve 32768 16 allocates (length is) ≡ true = ground (arith, l, m) in
    rw (instruction_section, g)
      (and_then-loaded (read_u32_at bytes start) _ (length is) _ p (
        rw (x, ==_refl (4 + length is * 12), r)
          (and_then-loaded (load_instructions bytes (start + 4) (length is)) _ is _
            (load_instructions_lem bytes (start + 4) is rest hs q) refl)))

length-instruction_bytes :
    (is : List RawInstruction) → length (instruction_bytes is) ≡ length is * 12
length-instruction_bytes [] = refl
length-instruction_bytes (i ∷ is) = omega (arith, length-instruction_bytes is)

module _ (Catalog : Type 0) (catalog_load : List ℕ → Option Catalog) (host : LoaderHost) where
  -- The program of the instructions alone.
  abbrev pub image_of : ℕ → List RawInstruction → Image Catalog
  image_of flags is = record (cleared_image catalog_load host flags 1) {
    instructions = is;
    instruction_count = length is;
    sections =
        (record { section_type = 1; section_size = 4 + length is * 12; section_offset = 24 }) ∷ [];
    has_instruction_section = true;
  }

  -- The loop over one section, from its reads.
  one_section :
      (bytes : List ℕ) (flags : ℕ) (is : List RawInstruction)
      → length bytes ≡ 28 + length is * 12
      → 4 + length is * 12 < 2 ^ 32
      → read_u32_at bytes 16 ≡ Load.loaded 1
      → read_u32_at bytes 20 ≡ Load.loaded (4 + length is * 12)
      → instruction_section bytes host.allocates_instructions 24 (4 + length is * 12)
        ≡ Load.loaded (is, length is)
      → load_sections catalog_load host bytes 16 1 (cleared_image catalog_load host flags 1)
        ≡ Load.loaded (image_of flags is)
  unfolding load_sections load_section
  one_section bytes flags is n l p p2 s =
      let size : ℕ = 4 + length is * 12 in
      let before : Image Catalog =
        add_section catalog_load host 1 size 24 (cleared_image catalog_load host flags 1) in
      guard-false (not (fits_in 16 8 (length bytes))) _ _ _ (ground (arith, n)) (
        and_then-loaded (read_u32_at bytes 16) _ 1 _ p (
          and_then-loaded (read_u32_at bytes 20) _ size _ p2 (
            guard-false (not (fits_in 24 size (length bytes))) _ _ _ (ground (arith, n, l)) (
              and_then-loaded (load_section catalog_load host bytes 1 24 size before) _
                (image_of flags is) _
                (and_then-loaded (instruction_section bytes host.allocates_instructions 24 size) _
                  (is, length is) _ s refl)
                refl))))

  load_sections-program_bytes :
      (flags : ℕ) (is : List RawInstruction)
      → All IsPlain is
      → 4 + length is * 12 < 2 ^ 32
      → (host.allocates_instructions ≡ true) ⊎ (length is ≤ 32768)
      → load_sections catalog_load host
          (program_bytes flags is)
          16
          1
          (cleared_image catalog_load host flags 1)
        ≡ Load.loaded (image_of flags is)
  load_sections-program_bytes flags is hs l m =
      let bytes : List ℕ = program_bytes flags is in
      let size : ℕ = 4 + length is * 12 in
      let n : length bytes ≡ 24 + size = omega (arith, length-instruction_bytes is) in
      let code : List ℕ = u32_bytes (length is) ++ instruction_bytes is in
      one_section bytes flags is (omega (arith, n)) l
        (read_u32_lem bytes 16 1 (u32_bytes size ++ code) (omega arith) refl).0
        (read_u32_lem bytes 20 size code l refl).0
        (instruction_section_lem bytes host.allocates_instructions 24 is [] hs l m
          (ap (λ c. u32_bytes (length is) ++ c) (sym (append-nil (instruction_bytes is)))))

  -- The header, from its reads.
  header_lem :
      (bytes : List ℕ) (flags : ℕ) (p : Image Catalog)
      → 16 ≤ length bytes
      → has_magic catalog_load host bytes ≡ Load.loaded true
      → read_u32_at bytes 4 ≡ Load.loaded 2
      → read_u32_at bytes 8 ≡ Load.loaded flags
      → read_u32_at bytes 12 ≡ Load.loaded 1
      → load_sections catalog_load host bytes 16 1 (cleared_image catalog_load host flags 1)
        ≡ Load.loaded p
      → load_aibc1 catalog_load host bytes ≡ Load.loaded p
  unfolding load_aibc1
  header_lem bytes flags p l magic version f count s =
      guard-false (ltb (length bytes) 16) _ _ _ (ge→ltb (length bytes) 16 l) (
        and_then-loaded (has_magic catalog_load host bytes) _ true _ magic (
          and_then-loaded (read_u32_at bytes 4) _ 2 _ version (
            and_then-loaded (read_u32_at bytes 8) _ flags _ f
              (and_then-loaded (read_u32_at bytes 12) _ 1 _ count s))))

  magic_lem :
      (flags : ℕ) (is : List RawInstruction)
      → has_magic catalog_load host (program_bytes flags is) ≡ Load.loaded true
  unfolding has_magic
  magic_lem flags is = refl

  -- A program laid out as the format says, with one section of instructions, is loaded to exactly these
  -- instructions and their number; every opcode is one of the machine's, every operand a pattern of 64
  -- bits, the section's size fits 32 bits, and the host gives the storage that more than 32768
  -- instructions ask for.
  pub load_aibc1-program_bytes :
      (flags : ℕ) (is : List RawInstruction)
      → flags < 2 ^ 32
      → All IsPlain is
      → 4 + length is * 12 < 2 ^ 32
      → (host.allocates_instructions ≡ true) ⊎ (length is ≤ 32768)
      → load_aibc1 catalog_load host (program_bytes flags is) ≡ Load.loaded (image_of flags is)
  load_aibc1-program_bytes flags is hf hs l m =
      let bytes : List ℕ = program_bytes flags is in
      let size : ℕ = 4 + length is * 12 in
      let code : List ℕ = u32_bytes (length is) ++ instruction_bytes is in
      let n : length bytes ≡ 24 + size = omega (arith, length-instruction_bytes is) in
      header_lem bytes flags (image_of flags is) (omega (arith, n)) (magic_lem flags is)
        (read_u32_lem bytes 4 2
          (u32_bytes flags ++ (u32_bytes 1 ++ (u32_bytes 1 ++ (u32_bytes size ++ code))))
          (omega arith) refl).0
        (read_u32_lem bytes 8 flags (u32_bytes 1 ++ (u32_bytes 1 ++ (u32_bytes size ++ code))) hf
          refl).0
        (read_u32_lem bytes 12 1 (u32_bytes 1 ++ (u32_bytes size ++ code)) (omega arith) refl).0
        (load_sections-program_bytes flags is hs l m)
