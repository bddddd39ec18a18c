-- ===== src/Remote/Safety.antt =====
-- What a session is granted and by which frames it changes (src/remote/aivm_remote_session.c).
use ai_vm.Common.{
  ℕ, ◌≤◌, ◌≡◌, refl, sym, ap, subst, ◌∙◌, ◌⊎◌, inl, inr, ◌&&◌, true, List, [], ◌∷◌, ◌++◌, arith,
  length, length-append, All, ltb, ◌==◌, if◌then◌else◌, if_cases,
}
use ai_vm.Remote.Codec.{
  Result, Text, Hello, Call, cstring, max_caps, msg_hello, msg_call, decode_hello, decode_call,
}
use ai_vm.Remote.Session.{
  SessionStatus, ServerConfig, ServerSession, Reply, same_text, strcmp_equal, has_cap, grant_caps,
  reply_with, refuse_with, process_hello, answer_call, process_type, process_frame,
}

-- Every capability of a session is one the server allows, and there are at most as many as fit.
abbrev pub IsWithin : ServerConfig → ServerSession → Type 0
IsWithin config session =
    All (λ cap. has_cap config.allowed_caps cap ≡ true) session.granted_caps
    × (length session.granted_caps ≤ max_caps)

cstring_twice : (t : Text) → cstring (cstring t) ≡ cstring t
unfolding cstring
cstring_twice [] = refl
cstring_twice (b ∷ bs) =
    if_cases (λ r. cstring r ≡ r) (b == 0) (λ e. refl) (λ e. ground (arith, e, cstring_twice bs))

has_cap-cstring : (caps : List Text) (t : Text) → has_cap caps (cstring t) ≡ has_cap caps t
unfolding has_cap strcmp_equal
has_cap-cstring [] t = refl
has_cap-cstring (c ∷ cs) t =
    ap (λ u. if same_text (cstring c) u then true else has_cap cs (cstring t)) (cstring_twice t)
    ∙ ap (λ b. if same_text (cstring c) (cstring t) then true else b) (has_cap-cstring cs t)

All-append {ℓ κ} :
    {A : Type ℓ} (P : A → Type κ) (xs ys : List A) → All P xs → All P ys → All P (xs ++ ys)
All-append P [] ys p q = q
All-append P (x ∷ xs) ys (p, ps) q = (p, All-append P xs ys ps q)

grant_caps-IsWithin :
    (allowed granted requested : List Text)
    → All (λ cap. has_cap allowed cap ≡ true) granted
    → length granted ≤ max_caps
    → All (λ cap. has_cap allowed cap ≡ true) (grant_caps allowed granted requested)
      × (length (grant_caps allowed granted requested) ≤ max_caps)
unfolding grant_caps
grant_caps-IsWithin allowed granted [] p h = (p, h)
grant_caps-IsWithin allowed granted (c ∷ cs) p h =
    if_cases
      (λ g.
        All (λ a. has_cap allowed a ≡ true) (grant_caps allowed g cs)
        × (length (grant_caps allowed g cs) ≤ max_caps))
      (has_cap allowed c && ltb (length granted) max_caps)
      (λ e.
        grant_caps-IsWithin allowed (granted ++ (cstring c ∷ [])) cs
          (All-append _ granted (cstring c ∷ []) p
            (has_cap-cstring allowed c ∙ ground (arith, e), tt))
          (ground (arith, e, length-append granted (cstring c ∷ []))))
      (λ e. grant_caps-IsWithin allowed granted cs p h)

-- The session that a HELLO leaves.
abbrev pub greeted : ServerConfig → Hello → ServerSession
greeted config hello = record {
  handshake_complete = true;
  negotiated_proto_version = config.proto_version;
  granted_caps = grant_caps config.allowed_caps [] hello.requested_caps;
}

pub session-reply_with : (s : ServerSession) (r : Result (List ℕ)) → (reply_with s r).session ≡ s
session-reply_with s (Result.ok b) = refl
session-reply_with s (Result.err e) = refl

-- Which frames a reply may come from, by the session it leaves.
abbrev pub Changes : ServerConfig → ServerSession → List ℕ → Reply → Type 0
Changes config session input reply =
    (reply.session ≡ session)
    ⊎ ((id : ℕ) × (hello : Hello) × (decode_hello input ≡ Result.ok (id, hello))
        × (reply.session ≡ greeted config hello))

hello-Changes :
    (config : ServerConfig) (session : ServerSession) (capacity : ℕ) (input : List ℕ)
    (r : Result (ℕ × Hello))
    → decode_hello input ≡ r
    → Changes config session input (elim r [
      | Result.err e ↦ refuse_with session SessionStatus.err_codec
      | Result.ok (id, hello) ↦ process_hello config session capacity id hello
    ])
unfolding process_hello
hello-Changes config session capacity input (Result.err e) h = inl refl
hello-Changes config session capacity input (Result.ok (id, hello)) h =
    inr (id, hello, h, session-reply_with (greeted config hello) _)

call-Changes :
    (config : ServerConfig) (session : ServerSession) (capacity : ℕ) (input : List ℕ)
    (r : Result (ℕ × Call))
    → Changes config session input (elim r [
      | Result.err e ↦ refuse_with session SessionStatus.err_codec
      | Result.ok (id, call) ↦ reply_with session (answer_call session capacity id call)
    ])
call-Changes config session capacity input (Result.err e) = inl refl
call-Changes config session capacity input (Result.ok (id, call)) =
    inl (session-reply_with session _)

-- A frame leaves the session as it was, or it is a HELLO that decodes, and then the handshake is
-- complete with the server's version and the capabilities granted from those requested.
pub process_frame-Changes :
    (config : ServerConfig) (session : ServerSession) (capacity : ℕ) (input : List ℕ)
    → Changes config session input (process_frame config session capacity input)
unfolding process_frame process_type
process_frame-Changes config session capacity [] = inl refl
process_frame-Changes config session capacity (type ∷ bytes) =
    let input = type ∷ bytes in
    if_cases (Changes config session input) (ltb max_caps (length config.allowed_caps))
      (λ e. inl refl)
      (λ e.
        if_cases (Changes config session input) (type == msg_hello)
          (λ h. hello-Changes config session capacity input (decode_hello input) refl)
          (λ h.
            if_cases (Changes config session input) (type == msg_call)
              (λ c. call-Changes config session capacity input (decode_call input))
              (λ c. inl (session-reply_with session _))))

-- A session within what the server allows stays so under every frame.
pub process_frame-IsWithin :
    (config : ServerConfig) (session : ServerSession) (capacity : ℕ) (input : List ℕ)
    → IsWithin config session
    → IsWithin config (process_frame config session capacity input).session
process_frame-IsWithin config session capacity input h =
    elim (process_frame-Changes config session capacity input) [
      | inl e ↦ subst (IsWithin config) (sym e) h
      | inr (id, hello, d, e) ↦
          subst (IsWithin config) (sym e)
            (grant_caps-IsWithin config.allowed_caps [] hello.requested_caps tt (omega arith))
    ]
