-- ===== src/Remote/Strings.antt =====
-- The writers of the remote channel and their readers (`write_string`, `read_string`,
-- `write_header`, `read_header` and the loops over the capabilities of
-- src/remote/aivm_remote_channel.c).
use ai_vm.Common.{
  ℕ, ◌+◌, ◌*◌, ◌^◌, ◌≤◌, ◌<◌, ◌≡◌, refl, sym, ap, ◌∙◌, Bool, ◌||◌, ltb, true, false, List, [], ◌∷◌,
  ◌++◌, map, Option, some, append_assoc, append-nil, arith, length, length-append, ==_refl, u32_mod,
  ◌%◌, take-length-append, ==_refl, u32_mod, ◌%◌, drop-length-append, ==_refl, u32_mod, ◌%◌, All,
}
use ai_vm.Remote.Bytes.{
  write_u16_le, write_u32_le, read_u16_le, read_u16-write_u16, read_u32-write_u32,
}
use ai_vm.Remote.Codec.{
  Result, CodecError, ◌>>=◌, ◌>>◌, reject, Text, cstring, max_text, header_size, exceeds,
  FrameHeader, write_string, read_string, write_header, split_header, read_header, open_frame,
  write_caps, read_caps,
}

pub ok-injective {ℓ} : {A : Type ℓ} (a b : A) → Result.ok a ≡ Result.ok b → a ≡ b
ok-injective a b h = ap (λ r. elim r [ Result.ok x ↦ x | Result.err e ↦ a ]) h

module _ {ℓ κ} {A : Type ℓ} {B : Type κ} where
  -- A chain that succeeds went through its first step.
  pub bind-ok :
      (m : Result A) (f : A → Result B) (b : B)
      → (m >>= f) ≡ Result.ok b
      → (a : A) × (m ≡ Result.ok a) × (f a ≡ Result.ok b)
  bind-ok (Result.ok a) f b h = (a, refl, h)
  bind-ok (Result.err e) f b h = ground arith

pub reject-ok {ℓ} :
    {A : Type ℓ} (b : Bool) (e : CodecError) (k : Result A) (a : A)
    → (reject b e >> k) ≡ Result.ok a
    → (b ≡ false) × (k ≡ Result.ok a)
reject-ok true e k a h = ground arith
reject-ok false e k a h = (refl, h)

pub bind-step {ℓ κ} :
    {A : Type ℓ} {B : Type κ} (m : Result A) (f : A → Result B) (a : A) (r : Result B)
    → m ≡ Result.ok a
    → f a ≡ r
    → (m >>= f) ≡ r
bind-step m f a r e h = ap (λ x. x >>= f) e ∙ h

-- A text as it is sent.
abbrev pub encoded : Text → List ℕ
encoded t = write_u16_le (length (cstring t)) ++ cstring t

abbrev pub encoded_caps : List Text → List ℕ
encoded_caps [] = []
encoded_caps (c ∷ caps) = encoded c ++ encoded_caps caps

-- Its length fits a limit.
abbrev pub Fits : ℕ → Text → Type 0
Fits max t = length (cstring t) ≤ max

pub write_string_ok :
    (capacity : ℕ) (out : List ℕ) (t : Text) (max : ℕ) (out' : List ℕ)
    → write_string capacity out t max ≡ Result.ok out'
    → (out' ≡ out ++ encoded t) × Fits max t
unfolding write_string
write_string_ok capacity out t max out' h =
    let s = cstring t in
    let (h1, h2) =
      reject-ok (ltb max (length s) || ltb 65535 (length s)) CodecError.overflow _ out' h in
    let (h3, h4) = reject-ok (exceeds capacity out (2 + length s)) CodecError.short _ out' h2 in
    (sym (ok-injective _ _ h4), ground (arith, h1))

read_string_at :
    (bytes s rest : List ℕ) (max : ℕ)
    → read_u16_le bytes ≡ some (length s, s ++ rest)
    → length s ≤ max
    → read_string bytes (max + 1) max ≡ Result.ok (s, rest)
unfolding read_string
read_string_at bytes s rest max h fits =
    ground (arith, take-length-append s rest, drop-length-append s rest, length-append s rest)

pub read_string_back :
    (t : Text) (rest : List ℕ) (max : ℕ)
    → Fits max t
    → max < 65536
    → read_string (encoded t ++ rest) (max + 1) max ≡ Result.ok (cstring t, rest)
read_string_back t rest max fits small =
    read_string_at (encoded t ++ rest) (cstring t) rest max
      (ap read_u16_le (append_assoc (write_u16_le (length (cstring t))) (cstring t) rest)
        ∙ read_u16-write_u16 (length (cstring t)) (cstring t ++ rest) (omega (arith, fits, small)))
      fits

pub write_caps_ok :
    (capacity : ℕ) (out : List ℕ) (caps : List Text) (out' : List ℕ)
    → write_caps capacity out caps ≡ Result.ok out'
    → (out' ≡ out ++ encoded_caps caps) × All (Fits max_text) caps
unfolding write_caps
write_caps_ok capacity out [] out' h = (sym (ok-injective out out' h) ∙ sym (append-nil out), tt)
write_caps_ok capacity out (c ∷ caps) out' h =
    let (out1, h1, h2) = bind-ok (write_string capacity out c max_text) _ out' h in
    let (e1, f1) = write_string_ok capacity out c max_text out1 h1 in
    let (e2, f2) = write_caps_ok capacity out1 caps out' h2 in
    (
      e2 ∙ (ap (λ x. x ++ encoded_caps caps) e1 ∙ append_assoc out (encoded c) (encoded_caps caps)),
      (f1, f2),
    )

pub read_caps_back :
    (caps : List Text) (rest : List ℕ)
    → All (Fits max_text) caps
    → read_caps (length caps) (encoded_caps caps ++ rest) ≡ Result.ok (map cstring caps, rest)
unfolding read_caps cstring
read_caps_back [] rest fits = refl
read_caps_back (c ∷ caps) rest (f, fits) =
    bind-step (read_string (encoded_caps (c ∷ caps) ++ rest) (max_text + 1) max_text) _
      (cstring c, encoded_caps caps ++ rest) _
      (ap (λ x. read_string x (max_text + 1) max_text)
          (append_assoc (encoded c) (encoded_caps caps) rest)
        ∙ read_string_back c (encoded_caps caps ++ rest) max_text f (omega arith))
      (bind-step (read_caps (length caps) (encoded_caps caps ++ rest)) _ (map cstring caps, rest) _
        (read_caps_back caps rest fits) refl)

pub length-encoded_caps :
    (caps : List Text) → All (Fits max_text) caps → length (encoded_caps caps) ≤ 66 * length caps
unfolding write_u16_le
length-encoded_caps [] fits = omega arith
length-encoded_caps (c ∷ caps) (f, fits) = omega (
  arith,
  length-append (encoded c) (encoded_caps caps),
  length-append (write_u16_le (length (cstring c))) (cstring c),
  length-encoded_caps caps fits,
  f,
)

abbrev with_length : ℕ → ℕ → ℕ → List ℕ → Option (FrameHeader × List ℕ)
with_length type id n out = some (record { type = type; id = id; payload_length = n }, out)

split_header_back :
    (type id n : ℕ) (out : List ℕ)
    → id < 2 ^ 32
    → n < 2 ^ 32
    → split_header (type ∷ (write_u32_le id ++ (write_u32_le n ++ out))) ≡ with_length type id n out
unfolding split_header
split_header_back type id n out h1 h2 =
    ground (arith, read_u32-write_u32 id (write_u32_le n ++ out) h1, read_u32-write_u32 n out h2)

open_frame_at :
    (type id : ℕ) (out bytes : List ℕ)
    → split_header bytes ≡ with_length type id (length out) out
    → length bytes ≡ length out + header_size
    → open_frame type bytes ≡ Result.ok (id, out)
unfolding open_frame read_header
open_frame_at type id out bytes h e = ground (arith, h, e, ==_refl type)

pub length_framed :
    (type id n : ℕ) (out : List ℕ)
    → length (type ∷ (write_u32_le id ++ (write_u32_le n ++ out))) ≡ length out + header_size
unfolding write_u32_le
length_framed type id n out = omega arith

pub open_frame_back :
    (capacity type id : ℕ) (out bytes : List ℕ)
    → id < 2 ^ 32
    → length out < 2 ^ 32
    → write_header capacity type id out ≡ Result.ok bytes
    → open_frame type bytes ≡ Result.ok (id, out)
unfolding write_header
open_frame_back capacity type id out bytes h1 h2 h =
    let n = length out % u32_mod in
    let (h3, h4) = reject-ok (ltb capacity header_size) CodecError.short _ bytes h in
    let e = ok-injective _ bytes h4 in
    let en : n ≡ length out = ground (arith, h2) in
    open_frame_at type id out bytes
      (ap split_header (sym e)
        ∙ (split_header_back type id n out h1 (omega (arith, h2, en))
            ∙ ap (λ m. with_length type id m out) en))
      (ap length (sym e) ∙ length_framed type id n out)

pub reject-step {ℓ} :
    {A : Type ℓ} (b : Bool) (e : CodecError) (k r : Result A)
    → b ≡ false
    → k ≡ r
    → (reject b e >> k) ≡ r
reject-step true e k r h h2 = ground arith
reject-step false e k r h h2 = h2

pub length-encoded : (max : ℕ) (t : Text) → Fits max t → length (encoded t) ≤ max + 2
unfolding write_u16_le
length-encoded max t f = omega (arith, f)
