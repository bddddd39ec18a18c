-- ===== src/Text/Scalars.antt =====
-- The encoding of Unicode scalar values by RFC 3629, beside the loop of
-- `aivm_bytes_is_valid_utf8_without_nul` of src/aivm_vm_text.c.
use ai_vm.Common.{
  ℕ, zero, suc, ◌+◌, ◌/◌, ◌%◌, ◌≤◌, ◌<◌, ◌≡◌, refl, sym, subst, ◌⊎◌, inl, inr, true, some, List, [],
  ◌∷◌, ◌++◌, ltb, if◌then◌else◌, length, arith, All, Bool-cases, ltb→lt, ltb→ge,
}
use ai_vm.Text.{after_two, after_three, after_four, four_round, three_round, utf8_round, utf8_loop}

-- A Unicode scalar value that is not NUL.
pub record IsScalar (c : ℕ) : Type 0 where
  pub positive : 0 < c
  pub bounded : c ≤ 0x10ffff
  pub not_surrogate : (c < 0xd800) ⊎ (0xdfff < c)

-- Its bytes.
abbrev pub encode_scalar : ℕ → List ℕ
encode_scalar c =
    if ltb c 0x80
    then c ∷ []
    else if ltb c 0x800
    then (0xc0 + c / 64) ∷ (0x80 + c % 64) ∷ []
    else if ltb c 0x10000
    then (0xe0 + c / 4096) ∷ (0x80 + c / 64 % 64) ∷ (0x80 + c % 64) ∷ []
    else (0xf0 + c / 262144) ∷ (0x80 + c / 4096 % 64) ∷ (0x80 + c / 64 % 64) ∷ (0x80 + c % 64) ∷ []

abbrev pub encode_scalars : List ℕ → List ℕ
encode_scalars [] = []
encode_scalars (c ∷ cs) = encode_scalar c ++ encode_scalars cs

-- A round behind the bytes of one scalar.
round_one : (c : ℕ) (r : List ℕ) → 0 < c → c < 0x80 → utf8_round c r ≡ some r
unfolding utf8_round
round_one c r p h = ground arith

round_two :
    (c : ℕ) (r : List ℕ)
    → 0x80 ≤ c
    → c < 0x800
    → utf8_round (0xc0 + c / 64) ((0x80 + c % 64) ∷ r) ≡ some r
unfolding utf8_round after_two
round_two c r l h = ground arith

round_three :
    (c : ℕ) (r : List ℕ)
    → 0x800 ≤ c
    → c < 0x10000
    → (c < 0xd800) ⊎ (0xdfff < c)
    → utf8_round (0xe0 + c / 4096) ((0x80 + c / 64 % 64) ∷ (0x80 + c % 64) ∷ r) ≡ some r
unfolding utf8_round three_round after_three
round_three c r l h s = ground arith

round_four :
    (c : ℕ) (r : List ℕ)
    → 0x10000 ≤ c
    → c ≤ 0x10ffff
    → utf8_round
        (0xf0 + c / 262144)
        ((0x80 + c / 4096 % 64) ∷ (0x80 + c / 64 % 64) ∷ (0x80 + c % 64) ∷ r)
      ≡ some r
unfolding utf8_round three_round four_round after_four
round_four c r l h = ground arith

-- One round takes the bytes of one scalar.
Takes : ℕ → List ℕ → Type 0
Takes c r =
    (b0 : ℕ) × (rest : List ℕ) × (encode_scalar c ++ r ≡ b0 ∷ rest)
    × (utf8_round b0 rest ≡ some r)
    × (length r ≤ length rest)

encode_scalar-Takes : (c : ℕ) (r : List ℕ) → IsScalar c → Takes c r
unfolding Takes
encode_scalar-Takes c r s = elim (Bool-cases (ltb c 0x80)) [
  | inl e ↦ (c, r, rw e refl, round_one c r s.positive (ltb→lt c 0x80 e), omega arith)
  | inr e ↦ elim (Bool-cases (ltb c 0x800)) [
    | inl f ↦ (
      0xc0 + c / 64,
      (0x80 + c % 64) ∷ r,
      rw (e, f) refl,
      round_two c r (ltb→ge c 0x80 e) (ltb→lt c 0x800 f),
      omega arith,
    )
    | inr f ↦ elim (Bool-cases (ltb c 0x10000)) [
      | inl g ↦ (
        0xe0 + c / 4096,
        (0x80 + c / 64 % 64) ∷ (0x80 + c % 64) ∷ r,
        rw (e, f, g) refl,
        round_three c r (ltb→ge c 0x800 f) (ltb→lt c 0x10000 g) s.not_surrogate,
        omega arith,
      )
      | inr g ↦ (
        0xf0 + c / 262144,
        (0x80 + c / 4096 % 64) ∷ (0x80 + c / 64 % 64) ∷ (0x80 + c % 64) ∷ r,
        rw (e, f, g) refl,
        round_four c r (ltb→ge c 0x10000 g) s.bounded,
        omega arith,
      )
    ]
  ]
]

-- The bytes of scalars pass the loop.
pub utf8_loop-encode_scalars :
    (fuel : ℕ) (cs : List ℕ)
    → All IsScalar cs
    → length (encode_scalars cs) ≤ fuel
    → utf8_loop fuel (encode_scalars cs) ≡ true
unfolding Takes utf8_loop
utf8_loop-encode_scalars fuel [] hs h = refl
utf8_loop-encode_scalars zero (c ∷ cs) (s, hs) h =
    let (b0, rest, e, q, l) = encode_scalar-Takes c (encode_scalars cs) s in
    let n : length (b0 ∷ rest) ≤ 0 = subst (λ bytes. length bytes ≤ 0) e h in
    absurd (omega (arith, n))
utf8_loop-encode_scalars (suc fuel) (c ∷ cs) (s, hs) h =
    let (b0, rest, e, q, l) = encode_scalar-Takes c (encode_scalars cs) s in
    let n : length (b0 ∷ rest) ≤ suc fuel = subst (λ bytes. length bytes ≤ suc fuel) e h in
    let ih : utf8_loop fuel (encode_scalars cs) ≡ true =
      utf8_loop-encode_scalars fuel cs hs (omega (arith, n, l)) in
    subst (λ bytes. utf8_loop (suc fuel) bytes ≡ true) (sym e) (ground (arith, q, ih))
