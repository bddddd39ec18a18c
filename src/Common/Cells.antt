-- ===== src/Common/Cells.antt =====
-- C arrays of fixed storage: a cell holds what was written to it last, also above the count of
-- the cells in use.
use Prim.Native.Nat.{ℕ, zero, suc, ◌+◌, ◌-◌, ◌≤◌}
use mathlib.Core.Path.{◌≡◌, refl, ap, subst}
use mathlib.Core.Logic.{◌≢◌}
use mathlib.Core.Bool.{◌&&◌}
use mathlib.Core.List.{List, [], ◌∷◌, ◌++◌}
use native.Mathlib.Omega.{arith}
use ai_vm.Common.Lists.{length, length-append}
use ai_vm.Common.Tests.{ltb, leb, ◌==◌, if◌then◌else◌}

abbrev pub Memory {ℓ} : Type ℓ → Type ℓ
Memory A = ℕ → A

module _ {ℓ} {A : Type ℓ} where
  -- `a[i] = v`
  abbrev pub write : Memory A → ℕ → A → Memory A
  write a i v j = if i == j then v else a j

  -- `memmove(&a[to], &a[from], n * sizeof(a[0]))`
  abbrev pub move : Memory A → ℕ → ℕ → ℕ → Memory A
  move a to from n j = if leb to j && ltb j (to + n) then a (from + (j - to)) else a j

  -- The cells `a[0] … a[n - 1]`.
  abbrev pub cells : Memory A → ℕ → List A
  cells a zero = []
  cells a (suc n) = cells a n ++ (a n ∷ [])

  pub write_self : (a : Memory A) (i : ℕ) (v : A) → write a i v i ≡ v
  write_self a i v = ground arith

  pub write_ne : (a : Memory A) (i j : ℕ) (v : A) → i ≢ j → write a i v j ≡ a j
  write_ne a i j v h = ground arith

  pub cells-write_ge : (a : Memory A) (n i : ℕ) (v : A) → n ≤ i → cells (write a i v) n ≡ cells a n
  cells-write_ge a zero i v h = refl
  cells-write_ge a (suc n) i v h = ground (arith, cells-write_ge a n i v, write_ne a i n v)

  pub length-cells : (a : Memory A) (n : ℕ) → length (cells a n) ≡ n
  length-cells a zero = refl
  length-cells a (suc n) = omega (arith, length-append (cells a n) (a n ∷ []), length-cells a n)

  -- Pushing at the end of the cells in use.
  pub cells-push :
      (a : Memory A) (n : ℕ) (v : A) → cells (write a n v) (n + 1) ≡ cells a n ++ (v ∷ [])
  cells-push a n v =
      let e : suc n ≡ n + 1 = omega arith in
      subst (λ k. cells (write a n v) k ≡ cells a n ++ (v ∷ [])) e
        (rw (write_self a n v) (ap (λ l. l ++ (v ∷ [])) (cells-write_ge a n n v (omega arith))))

  pub cells-pop : (a : Memory A) (n : ℕ) → n ≢ 0 → cells a n ≡ cells a (n - 1) ++ (a (n - 1) ∷ [])
  cells-pop a zero h = absurd (h refl)
  cells-pop a (suc n) h = let e : n ≡ suc n - 1 = omega arith in ap (λ k. cells a k ++ (a k ∷ [])) e

  pub cells-zero : (a : Memory A) (n : ℕ) → n ≡ 0 → cells a n ≡ []
  cells-zero a zero h = refl
  cells-zero a (suc n) h = absurd (omega arith)
