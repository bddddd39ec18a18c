-- ===== src/Loader/Constants.antt =====
-- The constants that the loader of src/aivm_program.c accepts.
use ai_vm.Common.{
  ℕ, zero, suc, ◌+◌, ◌-◌, ◌≤◌, ◌<◌, ◌≡◌, refl, ap, not, List, [], ◌∷◌, ◌++◌, length, length-append,
  arith, leb, ◌==◌, if◌then◌else◌, All, if_cases,
}
use ai_vm.Loader.{
  prefixed_bytes, ProgramStatus, Load, Constant, ConstantState, max_string_bytes, max_bytes_storage,
  byte_at, read_u32_at, read_i64_at, copy_bytes, fits_in, string_constant, bytes_constant,
  wide_constant, bool_constant, constant_of_kind, load_constants,
}
use ai_vm.Loader.Reads.{
  IsSafe, and_then-IsSafe, guard-IsSafe, Any, byte_at-IsSafe, read_u32_at-IsSafe,
  read_i64_at-IsSafe, copy_bytes-IsSafe, fits_in-le,
}

-- A constant's place in the storage.
abbrev pub InPlace : ℕ → ℕ → Constant → Type 0
InPlace strings blocks (Constant.const_string base) = base < strings
InPlace strings blocks (Constant.const_bytes base n) = base + n ≤ blocks
InPlace strings blocks _ = Unit

InPlace-weaken : (s b s2 b2 : ℕ) (c : Constant) → s ≤ s2 → b ≤ b2 → InPlace s b c → InPlace s2 b2 c
InPlace-weaken s b s2 b2 (Constant.const_int v) h k p = tt
InPlace-weaken s b s2 b2 (Constant.const_number v) h k p = tt
InPlace-weaken s b s2 b2 (Constant.const_bool v) h k p = tt
InPlace-weaken s b s2 b2 Constant.const_null h k p = tt
InPlace-weaken s b s2 b2 Constant.const_void h k p = tt
InPlace-weaken s b s2 b2 (Constant.const_string base) h k p = omega (arith, p, h)
InPlace-weaken s b s2 b2 (Constant.const_bytes base n) h k p = omega (arith, p, k)

-- The storage within its limits, and the cursor within the section.
pub record IsStored (limit : ℕ) (s : ConstantState) : Type 0 where
  pub inside : s.at ≤ limit
  pub strings_fit : length s.strings ≤ max_string_bytes
  pub blocks_fit : length s.blocks ≤ max_bytes_storage

-- A step that adds to the storage.
pub record Grows (limit : ℕ) (s s' : ConstantState) : Type 0 where
  pub stored : IsStored limit s'
  more_strings : length s.strings ≤ length s'.strings
  more_blocks : length s.blocks ≤ length s'.blocks

-- A constant read, and where the loop goes on.
pub record IsRead (limit : ℕ) (s : ConstantState) (r : Constant × ConstantState) : Type 0 where
  grows : Grows limit s r.1
  place : InPlace (length r.1.strings) (length r.1.blocks) r.0

-- The constants read by the loop, all of them in the storage.
pub record IsPool (limit n : ℕ) (s : ConstantState) (r : List Constant × ConstantState)
    : Type 0 where
  pub grows : Grows limit s r.1
  pub counted : length r.0 ≡ n
  pub places : All (InPlace (length r.1.strings) (length r.1.blocks)) r.0

module _ (bytes : List ℕ) (limit : ℕ) (inside : limit ≤ length bytes) where
  -- A constant that needs no storage, with the cursor moved on.
  moved :
      (s : ConstantState) (c : Constant) (n : ℕ)
      → IsStored limit s
      → s.at + n ≤ limit
      → InPlace (length s.strings) (length s.blocks) c
      → IsRead limit s (c, record s { at = s.at + n })
  moved s c n v l p = record {
    grows = record {
      stored = record { inside = l; strings_fit = v.strings_fit; blocks_fit = v.blocks_fit };
      more_strings = omega arith;
      more_blocks = omega arith;
    };
    place = p;
  }

  wide_constant-IsSafe :
      (make : ℕ → Constant) (s : ConstantState)
      → IsStored limit s
      → ((v a b : ℕ) → InPlace a b (make v))
      → IsSafe (IsRead limit s) (wide_constant make bytes limit s)
  unfolding wide_constant
  wide_constant-IsSafe make s v p =
      guard-IsSafe (IsRead limit s) (not (fits_in s.at 8 limit))
        ProgramStatus.program_invalid_section s.at _
        (λ g.
          let l : s.at + 8 ≤ limit = fits_in-le s.at 8 limit g in
          and_then-IsSafe Any (IsRead limit s) (read_i64_at bytes s.at) _
            (read_i64_at-IsSafe bytes s.at (omega (arith, l, inside)))
            (λ w _.
              IsSafe.loads (make w, record s { at = s.at + 8 })
                (moved s (make w) 8 v l (p w (length s.strings) (length s.blocks)))))

  bool_constant-IsSafe :
      (s : ConstantState) → IsStored limit s → IsSafe (IsRead limit s) (bool_constant bytes limit s)
  unfolding bool_constant
  bool_constant-IsSafe s v =
      guard-IsSafe (IsRead limit s) (not (fits_in s.at 1 limit))
        ProgramStatus.program_invalid_section s.at _
        (λ g.
          let l : s.at + 1 ≤ limit = fits_in-le s.at 1 limit g in
          and_then-IsSafe Any (IsRead limit s) (byte_at bytes s.at) _
            (byte_at-IsSafe bytes s.at (omega (arith, l, inside)))
            (λ b _.
              IsSafe.loads
                (Constant.const_bool (if b == 0 then 0 else 1), record s { at = s.at + 1 })
                (moved s (Constant.const_bool (if b == 0 then 0 else 1)) 1 v l tt)))

  -- The bytes behind a length: so many as it says, in the section, and with room in the storage.
  prefixed_bytes-IsSafe :
      (cursor used more top : ℕ)
      → IsSafe
          (λ (r : ℕ × List ℕ).
            (length r.1 ≡ r.0) × (cursor + 4 + r.0 ≤ limit) × (used + (r.0 + more) ≤ top))
          (prefixed_bytes bytes limit cursor used more top)
  unfolding prefixed_bytes
  prefixed_bytes-IsSafe cursor used more top =
      let P : ℕ × List ℕ → Type 0 =
        λ r. (length r.1 ≡ r.0) × (cursor + 4 + r.0 ≤ limit) × (used + (r.0 + more) ≤ top) in
      guard-IsSafe P (not (fits_in cursor 4 limit)) ProgramStatus.program_invalid_section cursor _
        (λ g.
          let l : cursor + 4 ≤ limit = fits_in-le cursor 4 limit g in
          and_then-IsSafe Any P (read_u32_at bytes cursor) _
            (read_u32_at-IsSafe bytes cursor (omega (arith, l, inside)))
            (λ n _.
              guard-IsSafe P (not (fits_in (cursor + 4) n limit))
                ProgramStatus.program_invalid_section (cursor + 4) _
                (λ g2.
                  let l2 : cursor + 4 + n ≤ limit = fits_in-le (cursor + 4) n limit g2 in
                  guard-IsSafe P (not (fits_in used (n + more) top))
                    ProgramStatus.program_string_limit (cursor + 4) _
                    (λ g3.
                      and_then-IsSafe (λ copied. length copied ≡ n) P
                        (copy_bytes bytes (cursor + 4) n) _
                        (copy_bytes-IsSafe bytes (cursor + 4) n (omega (arith, l2, inside)))
                        (λ copied q.
                          IsSafe.loads (n, copied) (q, l2, fits_in-le used (n + more) top g3))))))

  bytes_constant-IsSafe :
      (s : ConstantState)
      → IsStored limit s
      → IsSafe (IsRead limit s) (bytes_constant bytes limit s)
  unfolding bytes_constant
  bytes_constant-IsSafe s v =
      and_then-IsSafe _ (IsRead limit s)
        (prefixed_bytes bytes limit s.at (length s.blocks) 0 max_bytes_storage) _
        (prefixed_bytes-IsSafe s.at (length s.blocks) 0 max_bytes_storage)
        (λ r w.
          let (q, l, top) = w in
          let e : length (s.blocks ++ r.1) ≡ length s.blocks + r.0 =
            omega (arith, length-append s.blocks r.1, q) in
          IsSafe.loads _ (record {
            grows = record {
              stored = record {
                inside = l;
                strings_fit = v.strings_fit;
                blocks_fit = omega (arith, e, top);
              };
              more_strings = omega arith;
              more_blocks = omega (arith, e);
            };
            place = omega (arith, e);
          }))

  string_constant-IsSafe :
      (s : ConstantState)
      → IsStored limit s
      → IsSafe (IsRead limit s) (string_constant bytes limit s)
  unfolding string_constant
  string_constant-IsSafe s v =
      and_then-IsSafe _ (IsRead limit s)
        (prefixed_bytes bytes limit s.at (length s.strings) 1 max_string_bytes) _
        (prefixed_bytes-IsSafe s.at (length s.strings) 1 max_string_bytes)
        (λ r w.
          let (q, l, top) = w in
          let e : length (s.strings ++ r.1 ++ (0 ∷ [])) ≡ length s.strings + (r.0 + 1) =
            omega
              (arith, length-append (s.strings ++ r.1) (0 ∷ []), length-append s.strings r.1, q) in
          IsSafe.loads _ (record {
            grows = record {
              stored = record {
                inside = l;
                strings_fit = omega (arith, e, top);
                blocks_fit = v.blocks_fit;
              };
              more_strings = omega (arith, e);
              more_blocks = omega arith;
            };
            place = omega (arith, e);
          }))

  constant_of_kind-IsSafe :
      (kind : ℕ) (s : ConstantState)
      → IsStored limit s
      → IsSafe (IsRead limit s) (constant_of_kind bytes limit kind s)
  unfolding constant_of_kind
  constant_of_kind-IsSafe kind s v =
      let P : Load (Constant × ConstantState) → Type 0 = λ r. IsSafe (IsRead limit s) r in
      let still : (c : Constant)
          → InPlace (length s.strings) (length s.blocks) c
          → IsSafe (IsRead limit s) (Load.loaded (c, s)) =
        λ c p.
          IsSafe.loads (c, s)
            (record {
              grows = record { stored = v; more_strings = omega arith; more_blocks = omega arith };
              place = p;
            }) in
      if_cases P (kind == 1) (λ _. wide_constant-IsSafe Constant.const_int s v (λ w a b. tt))
        (λ _.
          if_cases P (kind == 7) (λ _. wide_constant-IsSafe Constant.const_number s v (λ w a b. tt))
            (λ _.
              if_cases P (kind == 2) (λ _. bool_constant-IsSafe s v)
                (λ _.
                  if_cases P (kind == 6) (λ _. still Constant.const_null tt)
                    (λ _.
                      if_cases P (kind == 3) (λ _. string_constant-IsSafe s v)
                        (λ _.
                          if_cases P (kind == 4) (λ _. still Constant.const_void tt)
                            (λ _.
                              if_cases P (kind == 5) (λ _. bytes_constant-IsSafe s v)
                                (λ _.
                                  IsSafe.fails ProgramStatus.program_invalid_constant
                                    (s.at - 1))))))))

  -- The constants of a section.
  pub load_constants-IsSafe :
      (n : ℕ) (s : ConstantState)
      → IsStored limit s
      → IsSafe (IsPool limit n s) (load_constants bytes limit n s)
  unfolding load_constants
  load_constants-IsSafe zero s v =
      IsSafe.loads ([], s)
        (record {
          grows = record { stored = v; more_strings = omega arith; more_blocks = omega arith };
          counted = refl;
          places = tt;
        })
  load_constants-IsSafe (suc n) s v =
      guard-IsSafe (IsPool limit (suc n) s) (leb limit s.at) ProgramStatus.program_invalid_section
        s.at _
        (λ g.
          let l : s.at + 1 ≤ limit = ground (arith, g) in
          let s1 : ConstantState = record s { at = s.at + 1 } in
          let v1 : IsStored limit s1 = record {
            inside = l;
            strings_fit = v.strings_fit;
            blocks_fit = v.blocks_fit;
          } in
          and_then-IsSafe Any (IsPool limit (suc n) s) (byte_at bytes s.at) _
            (byte_at-IsSafe bytes s.at (omega (arith, l, inside)))
            (λ kind _.
              and_then-IsSafe (IsRead limit s1) (IsPool limit (suc n) s)
                (constant_of_kind bytes limit kind s1) _ (constant_of_kind-IsSafe kind s1 v1)
                (λ first w.
                  and_then-IsSafe (IsPool limit n first.1) (IsPool limit (suc n) s)
                    (load_constants bytes limit n first.1) _
                    (load_constants-IsSafe n first.1 w.grows.stored)
                    (λ rest u.
                      IsSafe.loads (first.0 ∷ rest.0, rest.1)
                        (record {
                          grows = record {
                            stored = u.grows.stored;
                            more_strings =
                                omega (arith, w.grows.more_strings, u.grows.more_strings);
                            more_blocks = omega (arith, w.grows.more_blocks, u.grows.more_blocks);
                          };
                          counted = ap suc u.counted;
                          places = (
                            InPlace-weaken (length first.1.strings) (length first.1.blocks)
                                (length rest.1.strings) (length rest.1.blocks) first.0
                                u.grows.more_strings u.grows.more_blocks w.place,
                            u.places,
                          );
                        })))))
