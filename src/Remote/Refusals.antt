-- ===== src/Remote/Refusals.antt =====
-- The errors that refuse a CALL (src/remote/aivm_remote_session.c).
use ai_vm.Common.{
  ℕ, ◌^◌, ◌≤◌, ◌<◌, ◌≡◌, refl, sym, ap, ◌∙◌, not, ◌&&◌, true, Option, some, none, List, ◌∷◌, arith,
  length, ltb, if◌then◌else◌, if_cases,
}
use ai_vm.Remote.Codec.{Result, Text, Call, cstring, max_caps, msg_call, decode_call, decode_error}
use ai_vm.Remote.Answers.{decode_call-Starts}
use ai_vm.Remote.RoundTrip.{decode_error-encode_error}
use ai_vm.Remote.Session.{
  SessionStatus, ServerConfig, ServerSession, Reply, strcmp_equal, has_cap, reply_with, refuse_with,
  encode_error_frame, answer_call, process_type, process_frame, remote_cap, echo_op, handshake_text,
  not_granted_text, no_operation_text,
}

process_call_at :
    (config : ServerConfig) (session : ServerSession) (capacity : ℕ) (rest : List ℕ) (id : ℕ)
    (call : Call)
    → length config.allowed_caps ≤ 16
    → decode_call (msg_call ∷ rest) ≡ Result.ok (id, call)
    → process_frame config session capacity (msg_call ∷ rest)
      ≡ reply_with session (answer_call session capacity id call)
unfolding process_frame process_type
process_call_at config session capacity rest id call few d =
    if_cases (λ (r : Reply). r ≡ reply_with session (answer_call session capacity id call))
      (ltb max_caps (length config.allowed_caps)) (λ e. elim (many e) [ ])
      (λ e.
        ap
          (λ r. elim r as (λ x. Reply) [
            | Result.err e ↦ refuse_with session SessionStatus.err_codec
            | Result.ok (i, c) ↦ reply_with session (answer_call session capacity i c)
          ])
          d)
  where
    many : ¬ (ltb max_caps (length config.allowed_caps) ≡ true)
    many e = ground arith

-- A CALL that decodes is answered by the session as it stands.
process_call :
    (config : ServerConfig) (session : ServerSession) (capacity : ℕ) (input : List ℕ) (id : ℕ)
    (call : Call)
    → length config.allowed_caps ≤ 16
    → decode_call input ≡ Result.ok (id, call)
    → process_frame config session capacity input
      ≡ reply_with session (answer_call session capacity id call)
process_call config session capacity input id call few d =
    let (rest, e) = decode_call-Starts input (id, call) d in
    ap (process_frame config session capacity) e
    ∙ process_call_at config session capacity rest id call few (ap decode_call (sym e) ∙ d)

reply_ok :
    (session : ServerSession) (r : Result (List ℕ))
    → (reply_with session r).status ≡ SessionStatus.ok
    → r ≡ Result.ok (reply_with session r).output
reply_ok session (Result.ok bytes) h = refl
reply_ok session (Result.err e) h = ground arith

-- The error that a session has for a call: 401 before the handshake, 403 without the capability,
-- 404 for every other operation than the echo, and none for this.
abbrev pub expected_refusal : ServerSession → Call → Option (ℕ × Text)
expected_refusal session call =
    if not session.handshake_complete
    then some (401, handshake_text)
    else if not (has_cap session.granted_caps call.cap)
    then some (403, not_granted_text)
    else if strcmp_equal call.cap remote_cap && strcmp_equal call.op echo_op
    then none
    else some (404, no_operation_text)

answer_refused :
    (session : ServerSession) (capacity id : ℕ) (call : Call) (code : ℕ) (text : Text)
    → expected_refusal session call ≡ some (code, text)
    → (answer_call session capacity id call ≡ encode_error_frame id code text capacity)
      × (code < 2 ^ 32)
unfolding answer_call
answer_refused session capacity id call code text h = ground arith

-- A CALL that the session has to refuse is answered, where the answer fits the output, with an ERROR
-- of the call's id that decodes to the code and the text of the refusal.
pub refusal_decodes :
    (config : ServerConfig) (session : ServerSession) (capacity : ℕ) (input : List ℕ) (id : ℕ)
    (call : Call) (code : ℕ) (text : Text)
    → length config.allowed_caps ≤ 16
    → id < 2 ^ 32
    → decode_call input ≡ Result.ok (id, call)
    → expected_refusal session call ≡ some (code, text)
    → (process_frame config session capacity input).status ≡ SessionStatus.ok
    → decode_error (process_frame config session capacity input).output
      ≡ Result.ok (id, record { error_code = code; message = cstring text })
unfolding encode_error_frame
refusal_decodes config session capacity input id call code text few small d r s =
    let (a, c) = answer_refused session capacity id call code text r in
    let e = process_call config session capacity input id call few d ∙ ap (reply_with session) a in
    let o =
      reply_ok session (encode_error_frame id code text capacity)
        (ap (λ x. x.status) (sym e) ∙ s) in
    ap (λ x. decode_error x.output) e
    ∙ decode_error-encode_error capacity id (record { error_code = code; message = text }) _ small c
        o
