-- ===== src/Remote/Handshake.antt =====
-- The session behind each frame (src/remote/aivm_remote_session.c), HELLO above all.
use ai_vm.Common.{
  ℕ, zero, suc, ◌+◌, ◌≡◌, refl, sym, ap, ◌∙◌, inl, inr, ◌&&◌, true, false, List, [], ◌∷◌, ◌++◌,
  arith, length, length-append, take, append_assoc, append-nil, ltb, ◌==◌, if◌then◌else◌, if_cases,
}
use ai_vm.Remote.Codec.{
  Result, Text, Hello, Call, cstring, max_caps, msg_hello, msg_call, decode_hello, decode_call,
  open_frame, read_header, split_header,
}
use ai_vm.Remote.Strings.{bind-ok}
use ai_vm.Remote.Session.{
  SessionStatus, answer_call, refuse_with, ServerConfig, ServerSession, Reply, has_cap, grant_caps,
  reply_with, process_hello, process_type, process_frame,
}
use ai_vm.Remote.Answers.{Starts, open_frame-Starts}
use ai_vm.Remote.Safety.{session-reply_with}
use ai_vm.Common.{Bool-cases}

-- The requested capabilities that the server allows, in their order.
abbrev pub allowed_of : List Text → List Text → List Text
allowed_of allowed [] = []
allowed_of allowed (cap ∷ caps) =
    if has_cap allowed cap then cstring cap ∷ allowed_of allowed caps else allowed_of allowed caps

-- The session that a HELLO leaves, and the one before where it does not decode.
abbrev pub hello_leaves : ServerConfig → ServerSession → Result (ℕ × Hello) → ServerSession
hello_leaves config session (Result.err e) = session
hello_leaves config session (Result.ok (id, hello)) = record {
  handshake_complete = true;
  negotiated_proto_version = config.proto_version;
  granted_caps = take 16 (allowed_of config.allowed_caps hello.requested_caps);
}

-- The session behind a frame. The type of a frame is not looked at, since only a HELLO decodes as one.
abbrev pub session_after : ServerConfig → ServerSession → List ℕ → ServerSession
session_after config session input =
    if ltb 16 (length config.allowed_caps)
    then session
    else hello_leaves config session (decode_hello input)

decode_hello-Starts :
    (bytes : List ℕ) (r : ℕ × Hello) → decode_hello bytes ≡ Result.ok r → Starts msg_hello bytes
unfolding decode_hello
decode_hello-Starts bytes r h =
    let (idp, h1, h2) = bind-ok (open_frame msg_hello bytes) _ r h in
    open_frame-Starts msg_hello bytes idp h1

-- The loop keeps what is granted and adds the allowed ones until the array is full.
grant_caps-take :
    (allowed granted requested : List Text) (room : ℕ)
    → length granted + room ≡ max_caps
    → grant_caps allowed granted requested ≡ granted ++ take room (allowed_of allowed requested)
unfolding grant_caps
grant_caps-take allowed granted [] zero h = sym (append-nil granted)
grant_caps-take allowed granted [] (suc room) h = sym (append-nil granted)
grant_caps-take allowed granted (cap ∷ caps) zero h =
    let full : (has_cap allowed cap && ltb (length granted) max_caps) ≡ false = ground (arith, h) in
    rw full (grant_caps-take allowed granted caps zero h)
grant_caps-take allowed granted (cap ∷ caps) (suc room) h =
    elim (Bool-cases (has_cap allowed cap)) [
      | inl some_cap ↦
          let fits : (has_cap allowed cap && ltb (length granted) max_caps) ≡ true =
            ground (arith, h, some_cap) in
          let longer : length (granted ++ (cstring cap ∷ [])) + room ≡ max_caps =
            omega (arith, h, length-append granted (cstring cap ∷ [])) in
          rw (fits, some_cap)
            (grant_caps-take allowed (granted ++ (cstring cap ∷ [])) caps room longer
              ∙ append_assoc granted (cstring cap ∷ []) (take room (allowed_of allowed caps)))
      | inr other ↦ rw other (grant_caps-take allowed granted caps (suc room) h)
    ]

hello_session :
    (config : ServerConfig) (session : ServerSession) (capacity : ℕ) (r : Result (ℕ × Hello))
    → (elim r as (λ _. Reply) [
      | Result.err e ↦ refuse_with session SessionStatus.err_codec
      | Result.ok (id, hello) ↦ process_hello config session capacity id hello
    ]).session
      ≡ hello_leaves config session r
unfolding process_hello
hello_session config session capacity (Result.err e) = refl
hello_session config session capacity (Result.ok (id, hello)) =
    session-reply_with _ _
    ∙ ap
        (λ caps. record {
          handshake_complete = true;
          negotiated_proto_version = config.proto_version;
          granted_caps = caps;
        })
        (grant_caps-take config.allowed_caps [] hello.requested_caps 16 refl)

call_session :
    (session : ServerSession) (capacity : ℕ) (r : Result (ℕ × Call))
    → (elim r as (λ _. Reply) [
      | Result.err e ↦ refuse_with session SessionStatus.err_codec
      | Result.ok (id, call) ↦ reply_with session (answer_call session capacity id call)
    ]).session
      ≡ session
call_session session capacity (Result.err e) = refl
call_session session capacity (Result.ok (id, call)) = session-reply_with session _

-- A frame of another type does not decode as a HELLO.
other_type :
    (config : ServerConfig) (session : ServerSession) (type : ℕ) (bytes : List ℕ)
    (r : Result (ℕ × Hello))
    → decode_hello (type ∷ bytes) ≡ r
    → (type == msg_hello) ≡ false
    → session ≡ hello_leaves config session r
other_type config session type bytes (Result.err e) h t = refl
other_type config session type bytes (Result.ok r) h t =
    let (rest, same) = decode_hello-Starts (type ∷ bytes) r h in
    let first : type ≡ msg_hello = cc in absurd (ground (arith, first, t))

empty_frame :
    (config : ServerConfig) (session : ServerSession)
    → session ≡ hello_leaves config session (decode_hello [])
unfolding decode_hello open_frame read_header split_header
empty_frame config session = refl

-- The session behind a frame: where the server allows at most 16 capabilities and the frame decodes as
-- a HELLO, the handshake is complete with the server's version, and granted are the requested
-- capabilities that the server allows, in their order and the first 16 of them; every other frame leaves
-- the session as it was.
pub process_frame_session :
    (config : ServerConfig) (session : ServerSession) (capacity : ℕ) (input : List ℕ)
    → (process_frame config session capacity input).session ≡ session_after config session input
unfolding process_frame process_type
process_frame_session config session capacity [] =
    if_cases (λ s. session ≡ s) (ltb 16 (length config.allowed_caps)) (λ _. refl)
      (λ _. empty_frame config session)
process_frame_session config session capacity (type ∷ bytes) =
    let input = type ∷ bytes in
    elim (Bool-cases (ltb max_caps (length config.allowed_caps))) [
      | inl many ↦ rw many refl
      | inr few ↦ elim (Bool-cases (type == msg_hello)) [
        | inl e ↦ rw (few, e) (hello_session config session capacity (decode_hello input))
        | inr e ↦
            let same = other_type config session type bytes (decode_hello input) refl e in
            elim (Bool-cases (type == msg_call)) [
              | inl c ↦ rw (few, e, c) (call_session session capacity (decode_call input) ∙ same)
              | inr c ↦ rw (few, e, c) (session-reply_with session _ ∙ same)
            ]
      ]
    ]
