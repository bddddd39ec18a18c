-- ===== src/Vm/Value.antt =====
-- Values (src/include/aivm_types.h, src/aivm_types.c, src/aivm_vm_value.c). An `int64_t` is its
-- 64-bit pattern, a `double` the pattern of its eight bytes; what the C compiler computes with
-- doubles is the parameter `Doubles`.
use ai_vm.Common.{
  ℕ, zero, suc, ◌-◌, ◌%◌, ◌^◌, Bool, true, false, not, ◌&&◌, Option, none, some, List, [], ◌∷◌, ltb,
  ◌==◌, if◌then◌else◌,
}

-- `AivmBytesView`: `data` may be a null pointer.
pub record BytesView : Type 0 where
  pub bytes : Option (List ℕ)
  pub length : ℕ

-- `AivmValue`, the tag and its member of the union. A `const char*` is the bytes before its
-- terminator, or null.
pub data Value : Type 0 where
  void null unknown : Value
  int number bool : ℕ → Value
  string : Option (List ℕ) → Value
  bytes : BytesView → Value
  node pair node_builder map_builder map task worker_ref worker_tasks : ℕ → Value

-- The conversions and operations on doubles that the code uses.
pub record Doubles : Type 0 where
  pub of_int : ℕ → ℕ
  pub to_int : ℕ → ℕ
  pub eq : ℕ → ℕ → Bool
  pub lt : ℕ → ℕ → Bool
  pub add : ℕ → ℕ → ℕ
  pub sub : ℕ → ℕ → ℕ
  pub mul : ℕ → ℕ → ℕ
  pub div : ℕ → ℕ → ℕ
  pub zero_value : ℕ
  pub one_value : ℕ

-- A signed 64-bit pattern below zero.
abbrev pub is_negative : ℕ → Bool
is_negative n = not (ltb n (2 ^ 63))

abbrev pub negate64 : ℕ → ℕ
negate64 n = (2 ^ 64 - n) % 2 ^ 64

-- The absolute value of a signed 64-bit pattern.
abbrev pub magnitude : ℕ → ℕ
magnitude n = if is_negative n then negate64 n else n

-- The `%` of C: the sign is the dividend's. The remainder of -2 ^ 63 by -1 is 0 here; C leaves it undefined,
-- and some machines trap.
unfoldable pub rem64 : ℕ → ℕ → ℕ
rem64 a b = let r = magnitude a % magnitude b in if is_negative a then negate64 r else r

-- Byte-wise equality, as `aivm_cstring_equals` and the loop over `bytes_value` compare.
unfoldable pub same_bytes : List ℕ → List ℕ → Bool
same_bytes [] [] = true
same_bytes [] (y ∷ ys) = false
same_bytes (x ∷ xs) [] = false
same_bytes (x ∷ xs) (y ∷ ys) = x == y && same_bytes xs ys

unfoldable pub cstring_equals : Option (List ℕ) → Option (List ℕ) → Bool
unfolding same_bytes
cstring_equals none none = true
cstring_equals none (some b) = false
cstring_equals (some a) none = false
cstring_equals (some a) (some b) = same_bytes a b

unfoldable pub bytes_pointers_equal : Option (List ℕ) → Option (List ℕ) → Bool
unfolding same_bytes
bytes_pointers_equal (some a) (some b) = same_bytes a b
bytes_pointers_equal _ _ = false

unfoldable pub bytes_equal : BytesView → BytesView → Bool
unfolding bytes_pointers_equal
bytes_equal a b =
    if not (a.length == b.length)
    then false
    else if a.length == 0
    then true
    else bytes_pointers_equal a.bytes b.bytes

unfoldable pub value_bool : ℕ → Value
value_bool n = bool (if n == 0 then 0 else 1)

abbrev pub of_test : Bool → Value
of_test true = bool 1
of_test false = bool 0

-- A value's number, if its type is numeric.
unfoldable pub as_number : Doubles → Value → Option ℕ
as_number D (int n) = some (D.of_int n)
as_number D (number d) = some d
as_number D _ = none

unfoldable pub numeric_result : Doubles → ℕ → Value
numeric_result D d = let t = D.to_int d in if D.eq (D.of_int t) d then int t else number d

-- The part of `aivm_value_equals` behind the numeric case.
unfoldable pub same_type_equals : Value → Value → Bool
unfolding cstring_equals bytes_equal
same_type_equals void void = true
same_type_equals null null = true
same_type_equals unknown unknown = true
same_type_equals (bool a) (bool b) = a == b
same_type_equals (string a) (string b) = cstring_equals a b
same_type_equals (bytes a) (bytes b) = bytes_equal a b
same_type_equals (node a) (node b) = a == b
same_type_equals (pair a) (pair b) = a == b
same_type_equals (node_builder a) (node_builder b) = a == b
same_type_equals (map_builder a) (map_builder b) = a == b
same_type_equals (map a) (map b) = a == b
same_type_equals _ _ = false

-- Two ints are compared as doubles too.
unfoldable pub value_equals : Doubles → Value → Value → Bool
unfolding same_type_equals
value_equals D (int a) (int b) = D.eq (D.of_int a) (D.of_int b)
value_equals D (int a) (number b) = D.eq (D.of_int a) b
value_equals D (number a) (int b) = D.eq a (D.of_int b)
value_equals D (number a) (number b) = D.eq a b
value_equals D a b = same_type_equals a b

-- `aivm_value_is_immutable_message_payload`
unfoldable pub is_immutable_message_payload : Value → Bool
is_immutable_message_payload void = true
is_immutable_message_payload (int n) = true
is_immutable_message_payload (number n) = true
is_immutable_message_payload (bool n) = true
is_immutable_message_payload null = true
is_immutable_message_payload (string none) = false
is_immutable_message_payload (string (some s)) = true
is_immutable_message_payload (bytes b) = elim b.bytes [ none ↦ b.length == 0 | some s ↦ true ]
is_immutable_message_payload _ = false

-- `while (exp > 0) { result *= base; exp -= 1; }`
unfoldable pub pow_loop : Doubles → ℕ → ℕ → ℕ → ℕ
pow_loop D base zero result = result
pow_loop D base (suc e) result = pow_loop D base e (D.mul result base)

-- The rounds of the loop: `exp = -exp` wraps around, so -2 ^ 63 stays negative and the loop is skipped. C
-- leaves that negation undefined.
abbrev pub pow_rounds : ℕ → ℕ
pow_rounds e = if is_negative e && is_negative (negate64 e) then 0 else magnitude e

unfoldable pub pow_whole : Doubles → ℕ → ℕ → ℕ
unfolding pow_loop
pow_whole D base exponent =
    let e = D.to_int exponent in
    let result = pow_loop D base (pow_rounds e) D.one_value in
    if not (D.eq (D.of_int e) exponent)
    then D.zero_value
    else if is_negative e
    then D.div D.one_value result
    else result
