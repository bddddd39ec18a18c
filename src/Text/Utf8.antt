-- ===== src/Text/Utf8.antt =====
-- The check of UTF-8 (`aivm_bytes_is_valid_utf8_without_nul` of src/aivm_vm_text.c) beside the encoding.
use ai_vm.Common.{
  Option-cases, test_cases, ℕ, zero, suc, ◌+◌, ◌-◌, ◌*◌, ◌/◌, ◌%◌, ◌≤◌, ◌<◌, ◌≡◌, refl, sym, ap,
  ◌∙◌, subst, ◌↔◌, ◌⊎◌, inl, inr, Bool, true, false, ◌&&◌, ◌||◌, none, some, List, [], ◌∷◌, ◌++◌,
  ltb, leb, ◌==◌, length, arith, All, if_some, &&_parts, ==_iff, lt→ltb, ge→ltb,
}
use mathlib.Core.Bool.{false≢true}
use mathlib.Core.Option.{some-injective, none-ne-some}
use ai_vm.Text.{
  in_range, is_continuation, after_two, after_three, after_four, four_round, three_round,
  utf8_round, utf8_loop, is_valid_utf8_without_nul,
}
use ai_vm.Text.Scalars.{IsScalar, encode_scalar, encode_scalars, utf8_loop-encode_scalars}

-- What a round has taken is the bytes of one scalar.
Taken : List ℕ → List ℕ → Type 0
Taken bytes r = (c : ℕ) × IsScalar c × (bytes ≡ encode_scalar c ++ r)

taken_one : (b0 : ℕ) (r : List ℕ) → 0 < b0 → b0 < 0x80 → Taken (b0 ∷ r) r
unfolding Taken
taken_one b0 r p h =
    let s : IsScalar b0 = record {
      positive = p;
      bounded = omega (arith, h);
      not_surrogate = inl (omega (arith, h));
    } in
    (b0, s, rw (lt→ltb b0 0x80 h) refl)

taken_two : (b0 b1 : ℕ) (r : List ℕ) → 0xc2 ≤ b0 → b0 ≤ 0xdf → b1 / 64 ≡ 2 → Taken (b0 ∷ b1 ∷ r) r
unfolding Taken
taken_two b0 b1 r l h q =
    let c : ℕ = (b0 - 0xc0) * 64 + b1 % 64 in
    let s : IsScalar c = record {
      positive = omega (arith, l, h, q);
      bounded = omega (arith, l, h, q);
      not_surrogate = inl (omega (arith, l, h, q));
    } in
    let e : ltb c 0x80 ≡ false = ge→ltb c 0x80 (omega (arith, l)) in
    let f : ltb c 0x800 ≡ true = lt→ltb c 0x800 (omega (arith, h)) in
    let p0 : 0xc0 + c / 64 ≡ b0 = omega (arith, l, h) in
    let p1 : 0x80 + c % 64 ≡ b1 = omega (arith, q) in (c, s, rw (e, f, p0, p1) refl)

taken_three :
    (b0 b1 b2 : ℕ) (r : List ℕ)
    → 0xe0 ≤ b0
    → b0 ≤ 0xef
    → b1 / 64 ≡ 2
    → b2 / 64 ≡ 2
    → (b0 ≡ 0xe0 → 0xa0 ≤ b1)
    → (b0 ≡ 0xed → b1 ≤ 0x9f)
    → Taken (b0 ∷ b1 ∷ b2 ∷ r) r
unfolding Taken
taken_three b0 b1 b2 r l h q q2 low high =
    let c : ℕ = (b0 - 0xe0) * 4096 + b1 % 64 * 64 + b2 % 64 in
    let wide : 0x800 ≤ c = ground (arith, low) in
    let gap : (c < 0xd800) ⊎ (0xdfff < c) = ground (arith, high) in
    let s : IsScalar c = record {
      positive = omega (arith, wide);
      bounded = omega (arith, h);
      not_surrogate = gap;
    } in
    let e : ltb c 0x80 ≡ false = ge→ltb c 0x80 (omega (arith, wide)) in
    let f : ltb c 0x800 ≡ false = ge→ltb c 0x800 wide in
    let g : ltb c 0x10000 ≡ true = lt→ltb c 0x10000 (omega (arith, h)) in
    let p0 : 0xe0 + c / 4096 ≡ b0 = omega (arith, l, h) in
    let p1 : 0x80 + c / 64 % 64 ≡ b1 = omega (arith, q) in
    let p2 : 0x80 + c % 64 ≡ b2 = omega (arith, q2) in (c, s, rw (e, f, g, p0, p1, p2) refl)

taken_four :
    (b0 b1 b2 b3 : ℕ) (r : List ℕ)
    → 0xf0 ≤ b0
    → b0 ≤ 0xf4
    → b1 / 64 ≡ 2
    → b2 / 64 ≡ 2
    → b3 / 64 ≡ 2
    → (b0 ≡ 0xf0 → 0x90 ≤ b1)
    → (b0 ≡ 0xf4 → b1 ≤ 0x8f)
    → Taken (b0 ∷ b1 ∷ b2 ∷ b3 ∷ r) r
unfolding Taken
taken_four b0 b1 b2 b3 r l h q q2 q3 low high =
    let c : ℕ = (b0 - 0xf0) * 262144 + b1 % 64 * 4096 + b2 % 64 * 64 + b3 % 64 in
    let wide : 0x10000 ≤ c = ground (arith, low) in
    let small : c ≤ 0x10ffff = ground (arith, high) in
    let s : IsScalar c = record {
      positive = omega (arith, wide);
      bounded = small;
      not_surrogate = inr (omega (arith, wide));
    } in
    let e : ltb c 0x80 ≡ false = ge→ltb c 0x80 (omega (arith, wide)) in
    let f : ltb c 0x800 ≡ false = ge→ltb c 0x800 (omega (arith, wide)) in
    let g : ltb c 0x10000 ≡ false = ge→ltb c 0x10000 wide in
    let p0 : 0xf0 + c / 262144 ≡ b0 = omega (arith, l, h) in
    let p1 : 0x80 + c / 4096 % 64 ≡ b1 = omega (arith, q) in
    let p2 : 0x80 + c / 64 % 64 ≡ b2 = omega (arith, q2) in
    let p3 : 0x80 + c % 64 ≡ b3 = omega (arith, q3) in (c, s, rw (e, f, g, p0, p1, p2, p3) refl)

-- The tests of the bytes behind the first.
after_two-some :
    (p : ℕ → Bool) (rest r : List ℕ)
    → after_two p rest ≡ some r
    → (b1 : ℕ) × (p b1 ≡ true) × (rest ≡ b1 ∷ r)
unfolding after_two
after_two-some p [] r e = absurd (none-ne-some r e)
after_two-some p (b1 ∷ rest) r e =
    let (t, q) = if_some (p b1) rest r e in (b1, t, ap (λ l. b1 ∷ l) q)

after_three-some :
    (p : ℕ → Bool) (rest r : List ℕ)
    → after_three p rest ≡ some r
    → (b1 : ℕ) × (b2 : ℕ) × (p b1 ≡ true) × (is_continuation b2 ≡ true) × (rest ≡ b1 ∷ b2 ∷ r)
unfolding after_three
after_three-some p [] r e = absurd (none-ne-some r e)
after_three-some p (b1 ∷ []) r e = absurd (none-ne-some r e)
after_three-some p (b1 ∷ b2 ∷ rest) r e =
    let (t, q) = if_some (p b1 && is_continuation b2) rest r e in
    let (t1, t2) = &&_parts (p b1) (is_continuation b2) t in
    (b1, b2, t1, t2, ap (λ l. b1 ∷ b2 ∷ l) q)

after_four-some :
    (p : ℕ → Bool) (rest r : List ℕ)
    → after_four p rest ≡ some r
    → (b1 : ℕ) × (b2 : ℕ) × (b3 : ℕ) × (p b1 ≡ true)
      × (is_continuation b2 ≡ true)
      × (is_continuation b3 ≡ true)
      × (rest ≡ b1 ∷ b2 ∷ b3 ∷ r)
unfolding after_four
after_four-some p [] r e = absurd (none-ne-some r e)
after_four-some p (b1 ∷ []) r e = absurd (none-ne-some r e)
after_four-some p (b1 ∷ b2 ∷ []) r e = absurd (none-ne-some r e)
after_four-some p (b1 ∷ b2 ∷ b3 ∷ rest) r e =
    let (t, q) = if_some (p b1 && is_continuation b2 && is_continuation b3) rest r e in
    let (u, t3) = &&_parts (p b1 && is_continuation b2) (is_continuation b3) t in
    let (t1, t2) = &&_parts (p b1) (is_continuation b2) u in
    (b1, b2, b3, t1, t2, t3, ap (λ l. b1 ∷ b2 ∷ b3 ∷ l) q)

-- The rounds of two, three and four bytes.
two-Taken :
    (b0 : ℕ) (rest r : List ℕ)
    → 0xc2 ≤ b0
    → b0 ≤ 0xdf
    → after_two is_continuation rest ≡ some r
    → Taken (b0 ∷ rest) r
two-Taken b0 rest r l h e =
    let (b1, t1, q) = after_two-some is_continuation rest r e in
    let n1 : b1 / 64 ≡ 2 = (==_iff (b1 / 64) 2).0 t1 in
    subst (λ x. Taken (b0 ∷ x) r) (sym q) (taken_two b0 b1 r l h n1)

three-Taken :
    (p : ℕ → Bool) (b0 : ℕ) (rest r : List ℕ)
    → 0xe0 ≤ b0
    → b0 ≤ 0xef
    → ((b1 : ℕ) → p b1 ≡ true → (b1 / 64 ≡ 2) × (b0 ≡ 0xe0 → 0xa0 ≤ b1) × (b0 ≡ 0xed → b1 ≤ 0x9f))
    → after_three p rest ≡ some r
    → Taken (b0 ∷ rest) r
three-Taken p b0 rest r l h f e =
    let (b1, b2, t1, t2, q) = after_three-some p rest r e in
    let (n1, low, high) = f b1 t1 in
    let n2 : b2 / 64 ≡ 2 = (==_iff (b2 / 64) 2).0 t2 in
    subst (λ x. Taken (b0 ∷ x) r) (sym q) (taken_three b0 b1 b2 r l h n1 n2 low high)

four-Taken :
    (p : ℕ → Bool) (b0 : ℕ) (rest r : List ℕ)
    → 0xf0 ≤ b0
    → b0 ≤ 0xf4
    → ((b1 : ℕ) → p b1 ≡ true → (b1 / 64 ≡ 2) × (b0 ≡ 0xf0 → 0x90 ≤ b1) × (b0 ≡ 0xf4 → b1 ≤ 0x8f))
    → after_four p rest ≡ some r
    → Taken (b0 ∷ rest) r
four-Taken p b0 rest r l h f e =
    let (b1, b2, b3, t1, t2, t3, q) = after_four-some p rest r e in
    let (n1, low, high) = f b1 t1 in
    let n2 : b2 / 64 ≡ 2 = (==_iff (b2 / 64) 2).0 t2 in
    let n3 : b3 / 64 ≡ 2 = (==_iff (b3 / 64) 2).0 t3 in
    subst (λ x. Taken (b0 ∷ x) r) (sym q) (taken_four b0 b1 b2 b3 r l h n1 n2 n3 low high)

-- A round that goes on has taken the bytes of one scalar.
four_round-Taken : (b0 : ℕ) (rest r : List ℕ) → four_round b0 rest ≡ some r → Taken (b0 ∷ rest) r
unfolding four_round
four_round-Taken b0 rest r e =
    test_cases (b0 == 0xf0) e
      (λ h u.
        four-Taken (in_range 0x90 0xbf) b0 rest r (ground (arith, h)) (ground (arith, h))
          (λ b1 t. (ground (arith, t), λ _. ground (arith, t), λ k. absurd (ground (arith, h, k))))
          u)
      (λ _ e2.
        test_cases (in_range 0xf1 0xf3 b0) e2
          (λ h u.
            four-Taken is_continuation b0 rest r (ground (arith, h)) (ground (arith, h))
              (λ b1 t. (
                ground (arith, t),
                λ k. absurd (ground (arith, h, k)),
                λ k. absurd (ground (arith, h, k)),
              ))
              u)
          (λ _ e3.
            test_cases (b0 == 0xf4) e3
              (λ h u.
                four-Taken (in_range 0x80 0x8f) b0 rest r (ground (arith, h)) (ground (arith, h))
                  (λ b1 t.
                    (ground (arith, t), λ k. absurd (ground (arith, h, k)), λ _. ground (arith, t)))
                  u)
              (λ _ q. absurd (none-ne-some r q))))

three_round-Taken : (b0 : ℕ) (rest r : List ℕ) → three_round b0 rest ≡ some r → Taken (b0 ∷ rest) r
unfolding three_round
three_round-Taken b0 rest r e =
    test_cases (b0 == 0xe0) e
      (λ h u.
        three-Taken (in_range 0xa0 0xbf) b0 rest r (ground (arith, h)) (ground (arith, h))
          (λ b1 t. (ground (arith, t), λ _. ground (arith, t), λ k. absurd (ground (arith, h, k))))
          u)
      (λ _ e2.
        test_cases (in_range 0xe1 0xec b0 || in_range 0xee 0xef b0) e2
          (λ h u.
            three-Taken is_continuation b0 rest r (ground (arith, h)) (ground (arith, h))
              (λ b1 t. (
                ground (arith, t),
                λ k. absurd (ground (arith, h, k)),
                λ k. absurd (ground (arith, h, k)),
              ))
              u)
          (λ _ e3.
            test_cases (b0 == 0xed) e3
              (λ h u.
                three-Taken (in_range 0x80 0x9f) b0 rest r (ground (arith, h)) (ground (arith, h))
                  (λ b1 t.
                    (ground (arith, t), λ k. absurd (ground (arith, h, k)), λ _. ground (arith, t)))
                  u)
              (λ _ q. four_round-Taken b0 rest r q)))

utf8_round-Taken : (b0 : ℕ) (rest r : List ℕ) → utf8_round b0 rest ≡ some r → Taken (b0 ∷ rest) r
unfolding utf8_round
utf8_round-Taken b0 rest r e =
    test_cases (b0 == 0) e (λ _ q. absurd (none-ne-some r q))
      (λ z e2.
        test_cases (leb b0 0x7f) e2
          (λ h u.
            subst (λ x. Taken (b0 ∷ rest) x) (some-injective rest r u)
              (taken_one b0 rest (ground (arith, z)) (ground (arith, h))))
          (λ _ e3.
            test_cases (in_range 0xc2 0xdf b0) e3
              (λ h u. two-Taken b0 rest r (ground (arith, h)) (ground (arith, h)) u)
              (λ _ q. three_round-Taken b0 rest r q)))

-- A text that passes the loop is made of scalars.
utf8_loop_sound :
    (fuel : ℕ) (bytes : List ℕ)
    → utf8_loop fuel bytes ≡ true
    → (cs : List ℕ) × All IsScalar cs × (bytes ≡ encode_scalars cs)
unfolding utf8_loop Taken
utf8_loop_sound fuel [] h = ([], tt, refl)
utf8_loop_sound zero (b0 ∷ rest) h = absurd (false≢true h)
utf8_loop_sound (suc fuel) (b0 ∷ rest) h = elim (Option-cases (utf8_round b0 rest)) [
  | inl e ↦
      absurd
        (false≢true (subst (λ o. elim o [ none ↦ false | some r ↦ utf8_loop fuel r ] ≡ true) e h))
  | inr (r, e) ↦
      let k : utf8_loop fuel r ≡ true =
        subst (λ o. elim o [ none ↦ false | some r ↦ utf8_loop fuel r ] ≡ true) e h in
      let (c, s, q) = utf8_round-Taken b0 rest r e in
      let (cs, ss, q2) = utf8_loop_sound fuel r k in
      (c ∷ cs, (s, ss), q ∙ ap (λ l. encode_scalar c ++ l) q2)
]

-- The check is the definition of the encoding: a text passes exactly when its bytes are those of
-- Unicode scalar values other than NUL, one after the other.
pub is_valid_utf8_without_nul_iff :
    (bytes : List ℕ)
    → (is_valid_utf8_without_nul bytes ≡ true)
      ↔ ((cs : List ℕ) × All IsScalar cs × (bytes ≡ encode_scalars cs))
unfolding is_valid_utf8_without_nul
is_valid_utf8_without_nul_iff bytes = (
  utf8_loop_sound (length bytes) bytes,
  λ (cs, hs, e).
      subst (λ l. utf8_loop (length l) l ≡ true) (sym e)
        (utf8_loop-encode_scalars (length (encode_scalars cs)) cs hs (omega arith)),
)
