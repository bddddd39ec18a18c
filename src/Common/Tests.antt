-- ===== src/Common/Tests.antt =====
-- Boolean tests on the native numbers, the conditional, and checked `size_t` arithmetic.
use Prim.Native.Nat.{ℕ, ◌^◌, ◌≤◌, ◌<◌, compare, Ordering}
use mathlib.Core.Path.{◌≡◌, refl}
use mathlib.Core.Logic.{◌↔◌, ◌⊎◌, inl, inr}
use mathlib.Core.Bool.{Bool, true, false, ◌&&◌, false≢true}
use mathlib.Core.Option.{Option, none, some, some-injective, none-ne-some}
use native.Mathlib.Omega.{arith}

abbrev pub ltb : ℕ → ℕ → Bool
ltb a b = elim (compare a b) [ Ordering.lt ↦ true | _ ↦ false ]

abbrev pub leb : ℕ → ℕ → Bool
leb a b = elim (compare a b) [ Ordering.gt ↦ false | _ ↦ true ]

infix 50 ◌==◌
abbrev pub ◌==◌ : ℕ → ℕ → Bool
a == b = elim (compare a b) [ Ordering.eq ↦ true | _ ↦ false ]

infix 1 if◌then◌else◌
abbrev pub if◌then◌else◌ {ℓ} : {A : Type ℓ} → Bool → A → A → A
if true then x else y = x
if false then x else y = y

pub ltb→lt : (a b : ℕ) → ltb a b ≡ true → a < b
ltb→lt a b h = ground arith

pub ltb→ge : (a b : ℕ) → ltb a b ≡ false → b ≤ a
ltb→ge a b h = ground arith

pub lt→ltb : (a b : ℕ) → a < b → ltb a b ≡ true
lt→ltb a b h = ground arith

pub ge→ltb : (a b : ℕ) → b ≤ a → ltb a b ≡ false
ge→ltb a b h = ground arith

pub leb→le : (a b : ℕ) → leb a b ≡ true → a ≤ b
leb→le a b h = ground arith

pub le→leb : (a b : ℕ) → a ≤ b → leb a b ≡ true
le→leb a b h = ground arith

pub ==_iff : (a b : ℕ) → ((a == b) ≡ true) ↔ (a ≡ b)
==_iff a b = ground arith

pub ==_refl : (a : ℕ) → (a == a) ≡ true
==_refl a = ground arith

pub ruleset tests = (arith, ltb→lt, ltb→ge, lt→ltb, ge→ltb, leb→le, le→leb)

-- To split on a computed value and keep the equation.
pub Bool-cases : (b : Bool) → (b ≡ true) ⊎ (b ≡ false)
Bool-cases true = inl refl
Bool-cases false = inr refl

pub Option-cases {ℓ} : {A : Type ℓ} (o : Option A) → (o ≡ none) ⊎ ((a : A) × (o ≡ some a))
Option-cases none = inl refl
Option-cases (some a) = inr (a, refl)

-- `(size_t)-1` and `UINT32_MAX`, each plus one.
abbrev pub size_mod : ℕ
size_mod = 2 ^ 64

abbrev pub u32_mod : ℕ
u32_mod = 2 ^ 32

-- A property of both branches, each with its test's value.
pub if_cases {ℓ κ} :
    {A : Type ℓ} (P : A → Type κ) (b : Bool) {x y : A}
    → (b ≡ true → P x)
    → (b ≡ false → P y)
    → P (if b then x else y)
if_cases P true f g = f refl
if_cases P false f g = g refl

-- The same for a match on an option.
pub option_cases {ℓ κ μ} :
    {A : Type ℓ} {B : Type κ} (P : B → Type μ) (o : Option A) {x : B} {f : A → B}
    → (o ≡ none → P x)
    → ((a : A) → o ≡ some a → P (f a))
    → P (elim o [ none ↦ x | some a ↦ f a ])
option_cases P none g h = g refl
option_cases P (some a) g h = h a refl

-- The guard of a result.
pub if_some {ℓ} :
    {A : Type ℓ} (b : Bool) (x r : A) → (if b then some x else none) ≡ some r → (b ≡ true) × (x ≡ r)
if_some true x r e = (refl, some-injective x r e)
if_some false x r e = absurd (none-ne-some r e)

pub &&_parts : (a b : Bool) → (a && b) ≡ true → (a ≡ true) × (b ≡ true)
&&_parts true b h = (refl, h)
&&_parts false b h = absurd (false≢true h)

-- The branches of a test, with the result of each.
pub test_cases {ℓ κ} :
    {A : Type ℓ} {T : Type κ} (b : Bool) {x y r : A}
    → (if b then x else y) ≡ r
    → (b ≡ true → x ≡ r → T)
    → (b ≡ false → y ≡ r → T)
    → T
test_cases true e f g = f refl e
test_cases false e f g = g refl e
