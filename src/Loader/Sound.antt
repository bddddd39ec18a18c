-- ===== src/Loader/Sound.antt =====
-- What the loader of src/aivm_program.c accepts.
use ai_vm.Common.{
  true, ℕ, zero, suc, ◌+◌, ◌*◌, ◌≤◌, ◌≡◌, refl, ap, Bool, not, Option, List, [], ◌∷◌, ◌++◌, length,
  arith, ltb, ◌==◌, All, take, drop, if_cases, option_cases,
}
use ai_vm.Loader.{
  and_then, ProgramStatus, Load, RawInstruction, Constant, ConstantState, ProgramSection, Image,
  LoaderHost, max_sections, max_string_bytes, max_bytes_storage, op_max, byte_at, read_u32_at,
  read_i64_at, fits_in, reserve, load_instructions, expected_section_size, instruction_section,
  load_constants, constant_section, load_section, add_section, load_sections, cleared_image,
  has_magic, load_aibc1, value_size,
}
use ai_vm.Loader.Constants.{InPlace, IsStored, IsPool, load_constants-IsSafe}
use ai_vm.Loader.Reads.{
  IsSafe, and_then-IsSafe, guard-IsSafe, Any, byte_at-IsSafe, read_u32_at-IsSafe,
  read_i64_at-IsSafe, fits_in-le,
}

-- A section lies within so many bytes.
abbrev pub InBytes : ℕ → ProgramSection → Type 0
InBytes n section = section.section_offset + section.section_size ≤ n

All-append :
    (n : ℕ) (xs : List ProgramSection) (x : ProgramSection)
    → All (InBytes n) xs
    → InBytes n x
    → All (InBytes n) (xs ++ (x ∷ []))
All-append n [] x h p = (p, tt)
All-append n (y ∷ ys) x h p = (h.0, All-append n ys x h.1 p)

-- The instructions of a section: so many as it says, each with an opcode of the machine.
abbrev pub IsCode : ℕ → List RawInstruction → Type 0
IsCode n is = (length is ≡ n) × All (λ (i : RawInstruction). i.opcode ≤ op_max) is

load_instructions-IsSafe :
    (bytes : List ℕ) (cursor n : ℕ)
    → cursor + n * 12 ≤ length bytes
    → IsSafe (IsCode n) (load_instructions bytes cursor n)
unfolding load_instructions
load_instructions-IsSafe bytes cursor zero h = IsSafe.loads [] (refl, tt)
load_instructions-IsSafe bytes cursor (suc n) h =
    and_then-IsSafe Any (IsCode (suc n)) (read_u32_at bytes cursor) _
      (read_u32_at-IsSafe bytes cursor (omega (arith, h)))
      (λ raw _.
        and_then-IsSafe Any (IsCode (suc n)) (read_i64_at bytes (cursor + 4)) _
          (read_i64_at-IsSafe bytes (cursor + 4) (omega (arith, h)))
          (λ operand _.
            guard-IsSafe (IsCode (suc n)) (ltb op_max raw) ProgramStatus.program_invalid_opcode
              cursor _
              (λ small.
                and_then-IsSafe (IsCode n) (IsCode (suc n))
                  (load_instructions bytes (cursor + 12) n) _
                  (load_instructions-IsSafe bytes (cursor + 12) n (omega (arith, h)))
                  (λ is w.
                    IsSafe.loads ((record { opcode = raw; operand_int = operand }) ∷ is)
                      (ap suc w.0, (ground (arith, small), w.1))))))

instruction_section-IsSafe :
    (bytes : List ℕ) (allocates : Bool) (start size : ℕ)
    → start + size ≤ length bytes
    → IsSafe
        (λ (r : List RawInstruction × ℕ). IsCode r.1 r.0)
        (instruction_section bytes allocates start size)
unfolding instruction_section
instruction_section-IsSafe bytes allocates start size h =
    let P : List RawInstruction × ℕ → Type 0 = λ r. IsCode r.1 r.0 in
    guard-IsSafe P (ltb size 4) ProgramStatus.program_invalid_section start _ (λ wide.
      and_then-IsSafe Any P (read_u32_at bytes start) _
        (read_u32_at-IsSafe bytes start (ground (arith, wide, h)))
        (λ count _.
          option_cases (λ r. IsSafe P r) (expected_section_size count)
            (λ _. IsSafe.fails ProgramStatus.program_invalid_section start)
            (λ expected e.
              guard-IsSafe P (not (size == expected)) ProgramStatus.program_invalid_section start _
                (λ q.
                  guard-IsSafe P (not (reserve 32768 16 allocates count))
                    ProgramStatus.program_memory start _
                    (λ _.
                      let l : 4 + count * 12 ≡ size = ground (arith, e, q) in
                      and_then-IsSafe (IsCode count) P (load_instructions bytes (start + 4) count) _
                        (load_instructions-IsSafe bytes (start + 4) count (omega (arith, l, h)))
                        (λ is w. IsSafe.loads (is, count) w))))))

-- The result of the section of the constants.
abbrev IsConstants : List Constant × ℕ × ConstantState → Type 0
IsConstants r =
    (length r.0 ≡ r.1)
    × (length r.2.strings ≤ max_string_bytes)
    × (length r.2.blocks ≤ max_bytes_storage)
    × All (InPlace (length r.2.strings) (length r.2.blocks)) r.0

constant_section-IsSafe :
    (bytes : List ℕ) (allocates : Bool) (start size : ℕ) (strings blocks : List ℕ)
    → start + size ≤ length bytes
    → length strings ≤ max_string_bytes
    → length blocks ≤ max_bytes_storage
    → IsSafe IsConstants (constant_section bytes allocates start size strings blocks)
unfolding constant_section
constant_section-IsSafe bytes allocates start size strings blocks h hs hb =
    guard-IsSafe IsConstants (ltb size 4) ProgramStatus.program_invalid_section start _ (λ wide.
      let l : 4 ≤ size = ground (arith, wide) in
      and_then-IsSafe Any IsConstants (read_u32_at bytes start) _
        (read_u32_at-IsSafe bytes start (omega (arith, l, h)))
        (λ count _.
          guard-IsSafe IsConstants (not (reserve 1024 value_size allocates count))
            ProgramStatus.program_memory start _
            (λ _.
              let s : ConstantState = record {
                at = start + 4;
                strings = strings;
                blocks = blocks;
              } in
              let v : IsStored (start + size) s = record {
                inside = omega (arith, l);
                strings_fit = hs;
                blocks_fit = hb;
              } in
              and_then-IsSafe (IsPool (start + size) count s) IsConstants
                (load_constants bytes (start + size) count s) _
                (load_constants-IsSafe bytes (start + size) h count s v)
                (λ r w.
                  guard-IsSafe IsConstants (not (r.1.at == start + size))
                    ProgramStatus.program_invalid_section r.1.at _
                    (λ _.
                      IsSafe.loads (r.0, count, r.1)
                        (
                          w.counted, w.grows.stored.strings_fit, w.grows.stored.blocks_fit,
                          w.places,
                        ))))))

-- A program that may be run: its counts are those of its instructions and constants, every opcode is one
-- of the machine's, the constants lie in the storage and this within its limits, and the sections lie
-- within the bytes.
pub record IsImage (Catalog : Type 0) (n : ℕ) (p : Image Catalog) : Type 0 where
  pub code : IsCode p.instruction_count p.instructions
  pub constants_counted : length p.constants ≡ p.constant_count
  pub strings_fit : length p.string_storage ≤ max_string_bytes
  pub blocks_fit : length p.bytes_storage ≤ max_bytes_storage
  pub places : All (InPlace (length p.string_storage) (length p.bytes_storage)) p.constants
  pub sections_inside : All (InBytes n) p.sections

module _ (Catalog : Type 0) (catalog_load : List ℕ → Option Catalog) (host : LoaderHost)
    (bytes : List ℕ) where
  add_section-IsImage :
      (section_type size start : ℕ) (p : Image Catalog)
      → start + size ≤ length bytes
      → IsImage Catalog (length bytes) p
      → IsImage Catalog (length bytes) (add_section catalog_load host section_type size start p)
  add_section-IsImage section_type size start p h v = record {
    code = v.code;
    constants_counted = v.constants_counted;
    strings_fit = v.strings_fit;
    blocks_fit = v.blocks_fit;
    places = v.places;
    sections_inside = All-append (length bytes) p.sections _ v.sections_inside (omega (arith, h));
  }

  -- The sections of the instructions and of the constants.
  code_section-IsSafe :
      (start size : ℕ) (p : Image Catalog)
      → start + size ≤ length bytes
      → IsImage Catalog (length bytes) p
      → IsSafe (IsImage Catalog (length bytes)) (
          and_then (instruction_section bytes host.allocates_instructions start size) (λ r.
            Load.loaded (record p {
              instructions = r.0;
              instruction_count = r.1;
              has_instruction_section = true;
            })))
  code_section-IsSafe start size p h v =
      and_then-IsSafe (λ (r : List RawInstruction × ℕ). IsCode r.1 r.0)
        (IsImage Catalog (length bytes))
        (instruction_section bytes host.allocates_instructions start size) _
        (instruction_section-IsSafe bytes host.allocates_instructions start size h)
        (λ r w. IsSafe.loads _ (record {
          code = w;
          constants_counted = v.constants_counted;
          strings_fit = v.strings_fit;
          blocks_fit = v.blocks_fit;
          places = v.places;
          sections_inside = v.sections_inside;
        }))

  pool_section-IsSafe :
      (start size : ℕ) (p : Image Catalog)
      → start + size ≤ length bytes
      → IsImage Catalog (length bytes) p
      → IsSafe (IsImage Catalog (length bytes)) (
          and_then
            (constant_section bytes host.allocates_constants start size p.string_storage
              p.bytes_storage)
            (λ r. Load.loaded (record p {
              constants = r.0;
              constant_count = r.1;
              string_storage = r.2.strings;
              bytes_storage = r.2.blocks;
              has_constants_section = true;
            })))
  pool_section-IsSafe start size p h v =
      and_then-IsSafe IsConstants (IsImage Catalog (length bytes))
        (constant_section bytes host.allocates_constants start size p.string_storage
          p.bytes_storage)
        _
        (constant_section-IsSafe bytes host.allocates_constants start size p.string_storage
          p.bytes_storage h v.strings_fit v.blocks_fit)
        (λ r w. IsSafe.loads _ (record {
          code = v.code;
          constants_counted = w.0;
          strings_fit = w.1;
          blocks_fit = w.2;
          places = w.3;
          sections_inside = v.sections_inside;
        }))

  load_section-IsSafe :
      (section_type start size : ℕ) (p : Image Catalog)
      → start + size ≤ length bytes
      → IsImage Catalog (length bytes) p
      → IsSafe
          (IsImage Catalog (length bytes))
          (load_section catalog_load host bytes section_type start size p)
  unfolding load_section
  load_section-IsSafe section_type start size p h v =
      let I : Image Catalog → Type 0 = IsImage Catalog (length bytes) in
      let P : Load (Image Catalog) → Type 0 = λ r. IsSafe I r in
      if_cases P (section_type == 1)
        (λ _.
          guard-IsSafe I p.has_instruction_section ProgramStatus.program_invalid_section start _
            (λ _. code_section-IsSafe start size p h v))
        (λ _.
          if_cases P (section_type == 2)
            (λ _.
              guard-IsSafe I p.has_constants_section ProgramStatus.program_invalid_section start _
                (λ _. pool_section-IsSafe start size p h v))
            (λ _.
              if_cases P (section_type == 3)
                (λ _.
                  guard-IsSafe I p.has_worker_catalog_section ProgramStatus.program_invalid_section
                    start _
                    (λ _.
                      option_cases P (catalog_load (take size (drop start bytes)))
                        (λ _. IsSafe.fails ProgramStatus.program_worker_catalog start)
                        (λ c _. IsSafe.loads _ (record {
                          code = v.code;
                          constants_counted = v.constants_counted;
                          strings_fit = v.strings_fit;
                          blocks_fit = v.blocks_fit;
                          places = v.places;
                          sections_inside = v.sections_inside;
                        }))))
                (λ _. IsSafe.loads p v)))

  load_sections-IsSafe :
      (cursor n : ℕ) (p : Image Catalog)
      → IsImage Catalog (length bytes) p
      → IsSafe (IsImage Catalog (length bytes)) (load_sections catalog_load host bytes cursor n p)
  unfolding load_sections
  load_sections-IsSafe cursor zero p v = IsSafe.loads p v
  load_sections-IsSafe cursor (suc n) p v =
      let I : Image Catalog → Type 0 = IsImage Catalog (length bytes) in
      guard-IsSafe I (not (fits_in cursor 8 (length bytes))) ProgramStatus.program_truncated cursor
        _
        (λ g.
          let l : cursor + 8 ≤ length bytes = fits_in-le cursor 8 (length bytes) g in
          and_then-IsSafe Any I (read_u32_at bytes cursor) _
            (read_u32_at-IsSafe bytes cursor (omega (arith, l)))
            (λ section_type _.
              and_then-IsSafe Any I (read_u32_at bytes (cursor + 4)) _
                (read_u32_at-IsSafe bytes (cursor + 4) (omega (arith, l)))
                (λ size _.
                  guard-IsSafe I (not (fits_in (cursor + 8) size (length bytes)))
                    ProgramStatus.program_section_oob (cursor + 8) _
                    (λ g2.
                      let l2 : cursor + 8 + size ≤ length bytes =
                        fits_in-le (cursor + 8) size (length bytes) g2 in
                      let q : Image Catalog =
                        add_section catalog_load host section_type size (cursor + 8) p in
                      and_then-IsSafe I I
                        (load_section catalog_load host bytes section_type (cursor + 8) size q) _
                        (load_section-IsSafe section_type (cursor + 8) size q l2
                          (add_section-IsImage section_type size (cursor + 8) p l2 v))
                        (λ r w. load_sections-IsSafe (cursor + 8 + size) n r w)))))

  cleared_image-IsImage :
      (flags count : ℕ)
      → IsImage Catalog (length bytes) (cleared_image catalog_load host flags count)
  cleared_image-IsImage flags count = record {
    code = (refl, tt);
    constants_counted = refl;
    strings_fit = omega arith;
    blocks_fit = omega arith;
    places = tt;
    sections_inside = tt;
  }

  has_magic-IsSafe : 4 ≤ length bytes → IsSafe Any (has_magic catalog_load host bytes)
  unfolding has_magic
  has_magic-IsSafe h =
      and_then-IsSafe Any Any (byte_at bytes 0) _ (byte_at-IsSafe bytes 0 (omega (arith, h)))
        (λ a _.
          and_then-IsSafe Any Any (byte_at bytes 1) _ (byte_at-IsSafe bytes 1 (omega (arith, h)))
            (λ b _.
              and_then-IsSafe Any Any (byte_at bytes 2) _
                (byte_at-IsSafe bytes 2 (omega (arith, h)))
                (λ c _.
                  and_then-IsSafe Any Any (byte_at bytes 3) _
                    (byte_at-IsSafe bytes 3 (omega (arith, h))) (λ d _. IsSafe.loads _ tt))))

  -- Whatever the bytes, however the host answers and whatever the catalog's loader makes of its section:
  -- the loader never reads outside of the bytes, and a program that it accepts has the counts of its
  -- instructions and constants, only opcodes of the machine, constants that lie in its storage, storage
  -- within the limits, and sections within the bytes.
  pub load_aibc1-IsSafe :
      IsSafe (IsImage Catalog (length bytes)) (load_aibc1 catalog_load host bytes)
  unfolding load_aibc1
  load_aibc1-IsSafe =
      let I : Image Catalog → Type 0 = IsImage Catalog (length bytes) in
      guard-IsSafe I (ltb (length bytes) 16) ProgramStatus.program_truncated (length bytes) _ (λ g.
        let l : 16 ≤ length bytes = ground (arith, g) in
        and_then-IsSafe Any I (has_magic catalog_load host bytes) _
          (has_magic-IsSafe (omega (arith, l)))
          (λ magic _. guard-IsSafe I (not magic) ProgramStatus.program_bad_magic 0 _ (λ _.
            and_then-IsSafe Any I (read_u32_at bytes 4) _
              (read_u32_at-IsSafe bytes 4 (omega (arith, l)))
              (λ version _.
                and_then-IsSafe Any I (read_u32_at bytes 8) _
                  (read_u32_at-IsSafe bytes 8 (omega (arith, l)))
                  (λ flags _.
                    and_then-IsSafe Any I (read_u32_at bytes 12) _
                      (read_u32_at-IsSafe bytes 12 (omega (arith, l)))
                      (λ count _.
                        guard-IsSafe I (not (version == 2)) ProgramStatus.program_unsupported 4 _
                          (λ _.
                            guard-IsSafe I (ltb max_sections count)
                              ProgramStatus.program_section_limit 12 _
                              (λ _.
                                load_sections-IsSafe 16 count
                                  (cleared_image catalog_load host flags count)
                                  (cleared_image-IsImage flags count)))))))))
