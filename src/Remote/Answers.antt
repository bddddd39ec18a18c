-- ===== src/Remote/Answers.antt =====
-- The frames that the server answers with a RESULT (src/remote/aivm_remote_session.c).
use ai_vm.Common.{
  ℕ, ◌+◌, ◌≡◌, ◌≢◌, refl, sym, ap, ◌∙◌, not, ◌&&◌, true, List, [], ◌∷◌, arith, length, ltb, ◌==◌,
  if_cases,
}
use ai_vm.Remote.Codec.{
  Result, CodecError, or_error, FrameHeader, Text, Hello, Welcome, Call, max_caps, header_size,
  exceeds, msg_hello, msg_call, msg_error, msg_welcome, msg_result, max_error_text, decode_hello,
  encode_welcome, decode_call, decode_result, encode_error, encode_failure, open_frame, read_header,
  split_header, write_header, write_string, write_offer,
}
use ai_vm.Remote.Bytes.{write_u32_le}
use ai_vm.Remote.Strings.{bind-ok, reject-ok, ok-injective}
use ai_vm.Remote.Session.{
  SessionStatus, ServerConfig, ServerSession, Reply, strcmp_equal, has_cap, grant_caps, reply_with,
  refuse_with, encode_error_frame, process_hello, answer_call, process_type, process_frame,
  remote_cap, echo_op, handshake_text, not_granted_text, no_operation_text, no_type_text,
}

-- The first byte of a frame.
abbrev pub Starts : ℕ → List ℕ → Type 0
Starts type bytes = (rest : List ℕ) × (bytes ≡ type ∷ rest)

write_header-Starts :
    (capacity type id : ℕ) (out bytes : List ℕ)
    → write_header capacity type id out ≡ Result.ok bytes
    → Starts type bytes
unfolding write_header
write_header-Starts capacity type id out bytes h =
    let (h1, h2) = reject-ok (ltb capacity header_size) CodecError.short _ bytes h in
    (_, sym (ok-injective _ bytes h2))

split_header-type :
    (t : ℕ) (bytes : List ℕ) (hp : FrameHeader × List ℕ)
    → or_error CodecError.short (split_header (t ∷ bytes)) ≡ Result.ok hp
    → hp.0.type ≡ t
unfolding split_header
split_header-type t bytes hp h = ground arith

pub open_frame-Starts :
    (type : ℕ) (bytes : List ℕ) (r : ℕ × List ℕ)
    → open_frame type bytes ≡ Result.ok r
    → Starts type bytes
unfolding open_frame read_header split_header
open_frame-Starts type [] r h = ground arith
open_frame-Starts type (t ∷ bytes) r h =
    let (hp, h1, h2) = bind-ok (read_header (t ∷ bytes)) _ r h in
    let (h3, h4) = reject-ok (not (hp.0.type == type)) CodecError.wrong_type _ r h2 in
    let (hp', h5, h6) = bind-ok (or_error CodecError.short (split_header (t ∷ bytes))) _ hp h1 in
    let (h7, h8) =
      reject-ok (not (hp'.0.payload_length + header_size == length (t ∷ bytes))) CodecError.format _
        hp h6 in
    let e = split_header-type t bytes hp' h5 in
    let e2 : hp' ≡ hp = ok-injective _ _ h8 in
    let e3 : hp.0.type ≡ type = ground (arith, h3) in
    (bytes, ap (λ x. x ∷ bytes) (sym e ∙ (ap (λ x. x.0.type) e2 ∙ e3)))

pub decode_call-Starts :
    (bytes : List ℕ) (r : ℕ × Call) → decode_call bytes ≡ Result.ok r → Starts msg_call bytes
unfolding decode_call
decode_call-Starts bytes r h =
    let (o, h1, h2) = bind-ok (open_frame msg_call bytes) _ r h in
    open_frame-Starts msg_call bytes o h1

decode_result-Starts :
    (bytes : List ℕ) (r : ℕ × ℕ) → decode_result bytes ≡ Result.ok r → Starts msg_result bytes
unfolding decode_result
decode_result-Starts bytes r h =
    let (o, h1, h2) = bind-ok (open_frame msg_result bytes) _ r h in
    open_frame-Starts msg_result bytes o h1

encode_welcome-Starts :
    (capacity id : ℕ) (m : Welcome) (bytes : List ℕ)
    → encode_welcome capacity id m ≡ Result.ok bytes
    → Starts msg_welcome bytes
unfolding encode_welcome
encode_welcome-Starts capacity id m bytes h =
    let (h1, h2) = reject-ok (ltb max_caps (length m.granted_caps)) CodecError.overflow _ bytes h in
    let (out, h3, h4) =
      bind-ok (write_offer capacity [] m.proto_version m.granted_caps) _ bytes h2 in
    write_header-Starts capacity msg_welcome id out bytes h4

encode_error-Starts :
    (id code : ℕ) (text : Text) (capacity : ℕ) (bytes : List ℕ)
    → encode_error_frame id code text capacity ≡ Result.ok bytes
    → Starts msg_error bytes
unfolding encode_error_frame encode_error encode_failure
encode_error-Starts id code text capacity bytes h =
    let (h1, h2) = reject-ok (exceeds capacity [] 4) CodecError.short _ bytes h in
    let (out, h3, h4) =
      bind-ok (write_string capacity (write_u32_le code) text max_error_text) _ bytes h2 in
    write_header-Starts capacity msg_error id out bytes h4

no_two-Starts : (a b : ℕ) (bytes : List ℕ) → a ≢ b → Starts a bytes → ¬ (Starts b bytes)
no_two-Starts a b bytes n (r, e) (r', e') = ground arith

-- What stands behind a RESULT: a handshake, a CALL that decodes, and the echo of a granted
-- capability.
abbrev pub IsServed : ServerSession → List ℕ → Type 0
IsServed session input =
    (session.handshake_complete ≡ true)
    × ((id : ℕ) × (call : Call) × (decode_call input ≡ Result.ok (id, call))
        × (has_cap session.granted_caps call.cap ≡ true)
        × (strcmp_equal call.cap remote_cap ≡ true)
        × (strcmp_equal call.op echo_op ≡ true))

not_result :
    (session : ServerSession) (type : ℕ) (r : Result (List ℕ)) (v : ℕ × ℕ)
    → type ≢ msg_result
    → ((bytes : List ℕ) → r ≡ Result.ok bytes → Starts type bytes)
    → ¬ (decode_result (reply_with session r).output ≡ Result.ok v)
not_result session type (Result.ok bytes) v n f h =
    no_two-Starts type msg_result bytes n (f bytes refl) (decode_result-Starts bytes v h)
not_result session type (Result.err e) v n f h =
    let (rest, c) = decode_result-Starts [] v h in ground arith

answer_call-IsServed :
    (session : ServerSession) (capacity : ℕ) (input : List ℕ) (id : ℕ) (call : Call) (v : ℕ × ℕ)
    → decode_call input ≡ Result.ok (id, call)
    → decode_result (reply_with session (answer_call session capacity id call)).output ≡ Result.ok v
    → IsServed session input
unfolding answer_call
answer_call-IsServed session capacity input id call v d =
    if_cases
      (λ r. decode_result (reply_with session r).output ≡ Result.ok v → IsServed session input)
      (not session.handshake_complete) (λ e h. elim (refused 401 handshake_text h) [ ])
      (λ e.
        if_cases
          (λ r. decode_result (reply_with session r).output ≡ Result.ok v → IsServed session input)
          (not (has_cap session.granted_caps call.cap))
          (λ e1 h. elim (refused 403 not_granted_text h) [ ])
          (λ e1.
            if_cases
              (λ r.
                decode_result (reply_with session r).output ≡ Result.ok v → IsServed session input)
              (strcmp_equal call.cap remote_cap && strcmp_equal call.op echo_op)
              (λ e2 h. (
                ground (arith, e),
                (id, call, d, ground (arith, e1), ground (arith, e2), ground (arith, e2)),
              ))
              (λ e2 h. elim (refused 404 no_operation_text h) [ ])))
  where
    refused :
        (code : ℕ) (text : Text)
        → ¬ (
            decode_result (reply_with session (encode_error_frame id code text capacity)).output
            ≡ Result.ok v)
    refused code text =
        not_result session msg_error (encode_error_frame id code text capacity) v (omega arith)
          (encode_error-Starts id code text capacity)

call-IsServed :
    (session : ServerSession) (capacity : ℕ) (input : List ℕ) (r : Result (ℕ × Call)) (v : ℕ × ℕ)
    → decode_call input ≡ r
    → decode_result
        (elim r as (λ x. Reply) [
          | Result.err e ↦ refuse_with session SessionStatus.err_codec
          | Result.ok (id, call) ↦ reply_with session (answer_call session capacity id call)
        ]).output
      ≡ Result.ok v
    → IsServed session input
call-IsServed session capacity input (Result.err e) v d h =
    elim (not_result session msg_error (Result.err e) v (omega arith) (λ b q. ground arith) h) [ ]
call-IsServed session capacity input (Result.ok (id, call)) v d h =
    answer_call-IsServed session capacity input id call v d h

hello-unserved :
    (config : ServerConfig) (session : ServerSession) (capacity : ℕ) (r : Result (ℕ × Hello))
    (v : ℕ × ℕ)
    → ¬ (
        decode_result
          (elim r as (λ x. Reply) [
            | Result.err e ↦ refuse_with session SessionStatus.err_codec
            | Result.ok (id, hello) ↦ process_hello config session capacity id hello
          ]).output
        ≡ Result.ok v)
unfolding process_hello
hello-unserved config session capacity (Result.err e) v h =
    not_result session msg_error (Result.err e) v (omega arith) (λ b q. ground arith) h
hello-unserved config session capacity (Result.ok (id, hello)) v h =
    not_result _ msg_welcome
      (encode_welcome capacity id (record {
        proto_version = config.proto_version;
        granted_caps = grant_caps config.allowed_caps [] hello.requested_caps;
      }))
      v (omega arith) (encode_welcome-Starts capacity id _) h

-- A frame that the server answers with a RESULT is a CALL that decodes, in a session whose handshake
-- is complete, of the echo operation of a capability which the session was granted.
pub result_needs_grant :
    (config : ServerConfig) (session : ServerSession) (capacity : ℕ) (input : List ℕ) (v : ℕ × ℕ)
    → decode_result (process_frame config session capacity input).output ≡ Result.ok v
    → IsServed session input
unfolding process_frame process_type
result_needs_grant config session capacity [] v h =
    elim (not_result session msg_error (Result.err CodecError.short) v (omega arith)
      (λ b q. ground arith) h) [ ]
result_needs_grant config session capacity (type ∷ bytes) v h0 = served h0
  where
    served :
        decode_result (process_frame config session capacity (type ∷ bytes)).output ≡ Result.ok v
        → IsServed session (type ∷ bytes)
    served =
        let input = type ∷ bytes in
        if_cases (λ (r : Reply). decode_result r.output ≡ Result.ok v → IsServed session input)
          (ltb max_caps (length config.allowed_caps))
          (λ e h.
            elim (not_result session msg_error (Result.err CodecError.short) v (omega arith)
              (λ b q. ground arith) h) [ ])
          (λ e.
            if_cases (λ (r : Reply). decode_result r.output ≡ Result.ok v → IsServed session input)
              (type == msg_hello)
              (λ a h. elim (hello-unserved config session capacity (decode_hello input) v h) [ ])
              (λ a.
                if_cases
                  (λ (r : Reply). decode_result r.output ≡ Result.ok v → IsServed session input)
                  (type == msg_call)
                  (λ c h. call-IsServed session capacity input (decode_call input) v refl h)
                  (λ c h.
                    elim (not_result session msg_error
                      (encode_error_frame 0 400 no_type_text capacity) v (omega arith)
                      (encode_error-Starts 0 400 no_type_text capacity) h) [ ])))
