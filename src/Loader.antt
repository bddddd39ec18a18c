-- ===== src/Loader.antt =====
-- The loader of programs (`aivm_program_load_aibc1` of src/aivm_program.c with the reserve functions of
-- src/aivm_program_instructions.c and src/aivm_program_constants.c). A read outside of the bytes is a
-- result of its own. The host says whether its allocations succeed; the worker catalog's section is
-- loaded by a function that is an argument. An `int64_t` or a `double` is the pattern of its 64 bits.
pub mod Reads
pub mod Constants
pub mod Sound
pub mod RoundTrip
mod Tests
use ai_vm.Common.{
  ℕ, zero, suc, ◌+◌, ◌-◌, ◌*◌, ◌/◌, ◌%◌, ◌^◌, Bool, true, false, not, ◌&&◌, ◌||◌, Option, none,
  some, List, [], ◌∷◌, ◌++◌, ltb, leb, ◌==◌, if◌then◌else◌, length, take, drop, get_elem?, size_mod,
}
use ai_vm.Vm.State.{size_add_checked}

pub data ProgramStatus : Type 0 where
  program_truncated program_bad_magic program_unsupported program_section_oob program_section_limit
        program_invalid_section program_invalid_opcode program_invalid_constant program_string_limit
        program_memory program_worker_catalog :
      ProgramStatus

-- A value, a status with its offset, or a read outside of the bytes.
pub data Load {ℓ} (A : Type ℓ) : Type ℓ where
  out_of_bounds : Load A
  failed : ProgramStatus → ℕ → Load A
  loaded : A → Load A

abbrev pub and_then {ℓ κ} : {A : Type ℓ} {B : Type κ} → Load A → (A → Load B) → Load B
and_then out_of_bounds f = Load.out_of_bounds
and_then (failed status offset) f = Load.failed status offset
and_then (loaded a) f = f a

-- An instruction by the number of its opcode.
pub record RawInstruction : Type 0 where
  opcode : ℕ
  operand_int : ℕ

-- A constant; a string and bytes by their place in the storage of the program.
pub data Constant : Type 0 where
  const_int const_number const_bool : ℕ → Constant
  const_null const_void : Constant
  const_string : ℕ → Constant
  const_bytes : ℕ → ℕ → Constant

pub record ProgramSection : Type 0 where
  section_type : ℕ
  section_size : ℕ
  section_offset : ℕ

-- The fields of `AivmProgram` that are loaded, with the flags of the sections met, and the outcome of
-- the catalog's section.
pub record Image {ℓ} (Catalog : Type ℓ) : Type ℓ where
  instructions : List RawInstruction
  instruction_count : ℕ
  constants : List Constant
  constant_count : ℕ
  format_flags : ℕ
  section_count : ℕ
  sections : List ProgramSection
  string_storage : List ℕ
  bytes_storage : List ℕ
  worker_catalog : Option Catalog
  has_instruction_section : Bool
  has_constants_section : Bool
  has_worker_catalog_section : Bool

abbrev pub max_sections : ℕ
max_sections = 32

abbrev pub max_string_bytes : ℕ
max_string_bytes = 65536

abbrev pub max_bytes_storage : ℕ
max_bytes_storage = 32768

-- `AIVM_OP_MAX`
abbrev pub op_max : ℕ
op_max = 92

abbrev pub byte_at : List ℕ → ℕ → Load ℕ
byte_at bytes i = elim (get_elem? bytes i) [ none ↦ Load.out_of_bounds | some b ↦ Load.loaded b ]

-- `read_u32_le`, and `read_i64_le` and `read_f64_le`.
unfoldable pub read_u32_at : List ℕ → ℕ → Load ℕ
read_u32_at bytes offset = and_then (byte_at bytes offset) (λ a.
    and_then (byte_at bytes (offset + 1)) (λ b. and_then (byte_at bytes (offset + 2)) (λ c.
      and_then (byte_at bytes (offset + 3))
        (λ d. Load.loaded (a + b * 256 + c * 65536 + d * 16777216)))))

unfoldable pub read_i64_at : List ℕ → ℕ → Load ℕ
unfolding read_u32_at
read_i64_at bytes offset =
    and_then (read_u32_at bytes offset)
      (λ low. and_then (read_u32_at bytes (offset + 4)) (λ high. Load.loaded (low + high * 2 ^ 32)))

-- The bytes that a `for` loop copies.
unfoldable pub copy_bytes : List ℕ → ℕ → ℕ → Load (List ℕ)
copy_bytes bytes offset zero = Load.loaded []
copy_bytes bytes offset (suc n) =
    and_then (byte_at bytes offset)
      (λ b. and_then (copy_bytes bytes (offset + 1) n) (λ bs. Load.loaded (b ∷ bs)))

-- `aivm_program_instructions_reserve` and `aivm_program_constants_reserve`: the storage in the program,
-- or an allocation of elements of the size.
abbrev pub reserve : ℕ → ℕ → Bool → ℕ → Bool
reserve inline_count element_size allocates count =
    leb count inline_count || (leb count ((size_mod - 1) / element_size) && allocates)

-- The loop over the instructions.
unfoldable pub load_instructions : List ℕ → ℕ → ℕ → Load (List RawInstruction)
unfolding read_u32_at read_i64_at
load_instructions bytes cursor zero = Load.loaded []
load_instructions bytes cursor (suc n) =
    let further = load_instructions bytes (cursor + 12) n in
    and_then (read_u32_at bytes cursor) (λ raw_opcode.
      and_then (read_i64_at bytes (cursor + 4)) (λ operand.
        if ltb op_max raw_opcode
        then Load.failed ProgramStatus.program_invalid_opcode cursor
        else and_then further
            (λ rest. Load.loaded ((record { opcode = raw_opcode; operand_int = operand }) ∷ rest))))

-- `size_add_checked(4U, expected_instruction_bytes, …)` behind `size_mul_checked`
abbrev pub expected_section_size : ℕ → Option ℕ
expected_section_size count =
    if ltb ((size_mod - 1) / 12) count then none else size_add_checked 4 (count * 12)

-- The section of the instructions, from the start of its payload.
unfoldable pub instruction_section : List ℕ → Bool → ℕ → ℕ → Load (List RawInstruction × ℕ)
unfolding load_instructions
instruction_section bytes allocates start size =
    if ltb size 4
    then Load.failed ProgramStatus.program_invalid_section start
    else and_then (read_u32_at bytes start) (λ count. elim (expected_section_size count) [
      | none ↦ Load.failed ProgramStatus.program_invalid_section start
      | some expected ↦
          if not (size == expected)
          then Load.failed ProgramStatus.program_invalid_section start
          else if not (reserve 32768 16 allocates count)
          then Load.failed ProgramStatus.program_memory start
          else and_then (load_instructions bytes (start + 4) count) (λ is. Load.loaded (is, count))
    ])

-- `size_add_checked(cursor, n, &end) && end <= limit`
abbrev pub fits_in : ℕ → ℕ → ℕ → Bool
fits_in cursor n limit = elim (size_add_checked cursor n) [
  | none ↦ false
  | some end ↦ leb end limit
]

-- `sizeof(AivmValue)`
abbrev pub value_size : ℕ
value_size = 24

-- What the loop over the constants carries.
pub record ConstantState : Type 0 where
  at : ℕ
  strings : List ℕ
  blocks : List ℕ

-- The length of a string or of bytes, the bounds, and the bytes that are copied to the storage, of which
-- so many are used, with so many more behind them.
unfoldable pub prefixed_bytes : List ℕ → ℕ → ℕ → ℕ → ℕ → ℕ → Load (ℕ × List ℕ)
unfolding read_u32_at copy_bytes
prefixed_bytes bytes section_end cursor used more limit =
    if not (fits_in cursor 4 section_end)
    then Load.failed ProgramStatus.program_invalid_section cursor
    else and_then (read_u32_at bytes cursor) (λ n.
      if not (fits_in (cursor + 4) n section_end)
      then Load.failed ProgramStatus.program_invalid_section (cursor + 4)
      else if not (fits_in used (n + more) limit)
      then Load.failed ProgramStatus.program_string_limit (cursor + 4)
      else and_then (copy_bytes bytes (cursor + 4) n) (λ copied. Load.loaded (n, copied)))

-- A string with its terminator, and bytes.
unfoldable pub string_constant : List ℕ → ℕ → ConstantState → Load (Constant × ConstantState)
unfolding prefixed_bytes
string_constant bytes section_end s =
    and_then (prefixed_bytes bytes section_end s.at (length s.strings) 1 max_string_bytes) (λ r.
      Load.loaded (
        Constant.const_string (length s.strings),
        record s { at = s.at + 4 + r.0; strings = s.strings ++ r.1 ++ (0 ∷ []) },
      ))

unfoldable pub bytes_constant : List ℕ → ℕ → ConstantState → Load (Constant × ConstantState)
unfolding prefixed_bytes
bytes_constant bytes section_end s =
    and_then (prefixed_bytes bytes section_end s.at (length s.blocks) 0 max_bytes_storage) (λ r.
      Load.loaded (
        Constant.const_bytes (length s.blocks) r.0,
        record s { at = s.at + 4 + r.0; blocks = s.blocks ++ r.1 },
      ))

-- A constant of eight bytes.
unfoldable pub wide_constant :
    (ℕ → Constant) → List ℕ → ℕ → ConstantState → Load (Constant × ConstantState)
unfolding read_i64_at
wide_constant make bytes section_end s =
    if not (fits_in s.at 8 section_end)
    then Load.failed ProgramStatus.program_invalid_section s.at
    else and_then (read_i64_at bytes s.at) (λ v. Load.loaded (make v, record s { at = s.at + 8 }))

unfoldable pub bool_constant : List ℕ → ℕ → ConstantState → Load (Constant × ConstantState)
bool_constant bytes section_end s =
    if not (fits_in s.at 1 section_end)
    then Load.failed ProgramStatus.program_invalid_section s.at
    else and_then (byte_at bytes s.at) (λ b.
      Load.loaded (Constant.const_bool (if b == 0 then 0 else 1), record s { at = s.at + 1 }))

-- One constant by its kind, behind the byte of the kind.
unfoldable pub constant_of_kind : List ℕ → ℕ → ℕ → ConstantState → Load (Constant × ConstantState)
unfolding wide_constant bool_constant string_constant bytes_constant
constant_of_kind bytes section_end kind s =
    if kind == 1
    then wide_constant Constant.const_int bytes section_end s
    else if kind == 7
    then wide_constant Constant.const_number bytes section_end s
    else if kind == 2
    then bool_constant bytes section_end s
    else if kind == 6
    then Load.loaded (Constant.const_null, s)
    else if kind == 3
    then string_constant bytes section_end s
    else if kind == 4
    then Load.loaded (Constant.const_void, s)
    else if kind == 5
    then bytes_constant bytes section_end s
    else Load.failed ProgramStatus.program_invalid_constant (s.at - 1)

-- The loop over the constants.
unfoldable pub load_constants :
    List ℕ → ℕ → ℕ → ConstantState → Load (List Constant × ConstantState)
unfolding constant_of_kind
load_constants bytes section_end zero s = Load.loaded ([], s)
load_constants bytes section_end (suc n) s =
    if leb section_end s.at
    then Load.failed ProgramStatus.program_invalid_section s.at
    else and_then (byte_at bytes s.at) (λ kind.
      and_then (constant_of_kind bytes section_end kind (record s { at = s.at + 1 })) (λ first.
        and_then (load_constants bytes section_end n first.1)
          (λ rest. Load.loaded (first.0 ∷ rest.0, rest.1))))

-- The section of the constants, from the start of its payload.
unfoldable pub constant_section :
    List ℕ → Bool → ℕ → ℕ → List ℕ → List ℕ → Load (List Constant × ℕ × ConstantState)
unfolding load_constants
constant_section bytes allocates start size strings blocks =
    if ltb size 4
    then Load.failed ProgramStatus.program_invalid_section start
    else and_then (read_u32_at bytes start) (λ count.
      if not (reserve 1024 value_size allocates count)
      then Load.failed ProgramStatus.program_memory start
      else and_then
          (load_constants bytes (start + size) count
            (record { at = start + 4; strings = strings; blocks = blocks }))
          (λ r.
            if not (r.1.at == start + size)
            then Load.failed ProgramStatus.program_invalid_section r.1.at
            else Load.loaded (r.0, count, r.1)))

-- What the host answers to the two allocations.
pub record LoaderHost : Type 0 where
  allocates_instructions : Bool
  allocates_constants : Bool

module _ {ℓ} {Catalog : Type ℓ} (catalog_load : List ℕ → Option Catalog) (host : LoaderHost) where
  -- The payload of a section of a type.
  unfoldable pub load_section : List ℕ → ℕ → ℕ → ℕ → Image Catalog → Load (Image Catalog)
  unfolding instruction_section constant_section
  load_section bytes section_type start size p =
      if section_type == 1
      then (if p.has_instruction_section
          then Load.failed ProgramStatus.program_invalid_section start
          else and_then (instruction_section bytes host.allocates_instructions start size) (λ r.
            Load.loaded (record p {
              instructions = r.0;
              instruction_count = r.1;
              has_instruction_section = true;
            })))
      else if section_type == 2
      then (if p.has_constants_section
          then Load.failed ProgramStatus.program_invalid_section start
          else and_then
              (constant_section bytes host.allocates_constants start size p.string_storage
                p.bytes_storage)
              (λ r. Load.loaded (record p {
                constants = r.0;
                constant_count = r.1;
                string_storage = r.2.strings;
                bytes_storage = r.2.blocks;
                has_constants_section = true;
              })))
      else if section_type == 3
      then (if p.has_worker_catalog_section
          then Load.failed ProgramStatus.program_invalid_section start
          else elim (catalog_load (take size (drop start bytes))) [
            | none ↦ Load.failed ProgramStatus.program_worker_catalog start
            | some catalog ↦
                Load.loaded
                  (record p { worker_catalog = some catalog; has_worker_catalog_section = true })
          ])
      else Load.loaded p

  abbrev pub add_section : ℕ → ℕ → ℕ → Image Catalog → Image Catalog
  add_section section_type size start p = record p {
    sections =
        p.sections
        ++ ((record {
          section_type = section_type;
          section_size = size;
          section_offset = start % 2 ^ 32;
        })
            ∷ []);
  }

  -- The loop over the sections.
  unfoldable pub load_sections : List ℕ → ℕ → ℕ → Image Catalog → Load (Image Catalog)
  unfolding load_section
  load_sections bytes cursor zero p = Load.loaded p
  load_sections bytes cursor (suc n) p =
      if not (fits_in cursor 8 (length bytes))
      then Load.failed ProgramStatus.program_truncated cursor
      else and_then (read_u32_at bytes cursor) (λ section_type.
        and_then (read_u32_at bytes (cursor + 4)) (λ size.
          if not (fits_in (cursor + 8) size (length bytes))
          then Load.failed ProgramStatus.program_section_oob (cursor + 8)
          else and_then
              (load_section bytes section_type (cursor + 8) size
                (add_section section_type size (cursor + 8) p))
              (λ p'. load_sections bytes (cursor + 8 + size) n p')))

  -- `aivm_program_clear`, with the header's fields.
  abbrev pub cleared_image : ℕ → ℕ → Image Catalog
  cleared_image format_flags section_count = record {
    instructions = [];
    instruction_count = 0;
    constants = [];
    constant_count = 0;
    format_flags = format_flags;
    section_count = section_count;
    sections = [];
    string_storage = [];
    bytes_storage = [];
    worker_catalog = none;
    has_instruction_section = false;
    has_constants_section = false;
    has_worker_catalog_section = false;
  }

  -- The four bytes at the start, which are read one after the other.
  unfoldable pub has_magic : List ℕ → Load Bool
  has_magic bytes = and_then (byte_at bytes 0) (λ a. and_then (byte_at bytes 1) (λ b.
      and_then (byte_at bytes 2) (λ c.
        and_then (byte_at bytes 3)
          (λ d. Load.loaded (a == b'A' && b == b'I' && c == b'B' && d == b'C')))))

  -- `aivm_program_load_aibc1`; neither pointer is null.
  unfoldable pub load_aibc1 : List ℕ → Load (Image Catalog)
  unfolding has_magic load_sections
  load_aibc1 bytes =
      if ltb (length bytes) 16
      then Load.failed ProgramStatus.program_truncated (length bytes)
      else and_then (has_magic bytes) (λ magic.
        if not magic
        then Load.failed ProgramStatus.program_bad_magic 0
        else and_then (read_u32_at bytes 4) (λ version. and_then (read_u32_at bytes 8) (λ flags.
          and_then (read_u32_at bytes 12) (λ count.
            if not (version == 2)
            then Load.failed ProgramStatus.program_unsupported 4
            else if ltb max_sections count
            then Load.failed ProgramStatus.program_section_limit 12
            else load_sections bytes 16 count (cleared_image flags count)))))
