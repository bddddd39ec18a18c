-- ===== src/Remote/Histories.antt =====
-- Sessions under a sequence of frames (src/remote/aivm_remote_session.c).
use ai_vm.Common.{
  ℕ, ◌≡◌, refl, sym, ap, ◌∙◌, true, List, [], ◌∷◌, All, arith, if◌then◌else◌, Bool-cases, inl, inr,
}
use ai_vm.Remote.Codec.{Result, Text, Call, cstring, decode_call, decode_result}
use ai_vm.Remote.Session.{
  ServerConfig, ServerSession, session_init, same_text, strcmp_equal, has_cap, process_frame,
}
use ai_vm.Remote.Safety.{IsWithin, process_frame-IsWithin}
use ai_vm.Remote.Answers.{result_needs_grant}

-- The session behind a sequence of frames, each with the capacity for its answer.
unfoldable pub serve : ServerConfig → ServerSession → List (ℕ × List ℕ) → ServerSession
serve config session [] = session
serve config session ((capacity, input) ∷ frames) =
    serve config (process_frame config session capacity input).session frames

serve-IsWithin :
    (config : ServerConfig) (session : ServerSession) (frames : List (ℕ × List ℕ))
    → IsWithin config session
    → IsWithin config (serve config session frames)
unfolding serve
serve-IsWithin config session [] h = h
serve-IsWithin config session ((capacity, input) ∷ frames) h =
    serve-IsWithin config (process_frame config session capacity input).session frames
      (process_frame-IsWithin config session capacity input h)

same_text-equal : (a b : Text) → same_text a b ≡ true → a ≡ b
unfolding same_text
same_text-equal [] [] h = refl
same_text-equal [] (y ∷ ys) h = ground arith
same_text-equal (x ∷ xs) [] h = ground arith
same_text-equal (x ∷ xs) (y ∷ ys) h =
    let first : x ≡ y = ground (arith, h) in
    let others : same_text xs ys ≡ true = ground (arith, h) in
    ap (λ z. z ∷ xs) first ∙ ap (λ zs. y ∷ zs) (same_text-equal xs ys others)

has_cap-cong :
    (caps : List Text) (a b : Text) → cstring a ≡ cstring b → has_cap caps a ≡ has_cap caps b
unfolding has_cap strcmp_equal
has_cap-cong [] a b e = refl
has_cap-cong (c ∷ cs) a b e =
    ap (λ t. if same_text (cstring c) t then true else has_cap cs a) e
    ∙ ap (λ r. if same_text (cstring c) (cstring b) then true else r) (has_cap-cong cs a b e)

has_cap-All :
    (allowed granted : List Text) (t : Text)
    → All (λ c. has_cap allowed c ≡ true) granted
    → has_cap granted t ≡ true
    → has_cap allowed t ≡ true
unfolding has_cap strcmp_equal
has_cap-All allowed [] t h e = ground arith
has_cap-All allowed (c ∷ cs) t (h, hs) e = elim (Bool-cases (same_text (cstring c) (cstring t))) [
  | inl same ↦ sym (has_cap-cong allowed c t (same_text-equal (cstring c) (cstring t) same)) ∙ h
  | inr other ↦ has_cap-All allowed cs t hs (ground (arith, other, e))
]

-- Whatever frames a session went through from its start, a frame that it answers with a RESULT is a
-- CALL that decodes, of a capability which the server's configuration allows.
pub results_are_allowed :
    (config : ServerConfig) (frames : List (ℕ × List ℕ)) (capacity : ℕ) (input : List ℕ) (v : ℕ × ℕ)
    → decode_result (process_frame config (serve config session_init frames) capacity input).output
      ≡ Result.ok v
    → (id : ℕ) × (call : Call) × (decode_call input ≡ Result.ok (id, call))
      × (has_cap config.allowed_caps call.cap ≡ true)
results_are_allowed config frames capacity input v h =
    let session = serve config session_init frames in
    let within = serve-IsWithin config session_init frames (tt, omega arith) in
    let (done, (id, call, d, granted, remote, echo)) =
      result_needs_grant config session capacity input v h in
    (id, call, d, has_cap-All config.allowed_caps session.granted_caps call.cap within.0 granted)
