-- ===== src/Remote/Tests.antt =====
-- The codec and the session of src/remote at concrete frames.
use ai_vm.Common.{ℕ, ◌≡◌, refl, Bool, true, false, List, [], ◌∷◌, map, arith}
use ai_vm.Remote.Codec.{
  Result, Hello, Welcome, Failure, Call, cstring, encode_hello, decode_hello, encode_welcome,
  decode_welcome, encode_call, decode_call, encode_result, decode_result, encode_error,
  decode_error,
}
use ai_vm.Remote.Bytes.{
  write_u16_le, write_u32_le, write_i64_le, write_le, read_u16_le, read_u32_le, read_i64_le,
  read_le,
}
use ai_vm.Remote.Codec.{
  write_string, write_offer, write_caps, write_header, encode_failure, open_frame, read_header,
  split_header, read_string, read_offer, read_caps,
}
use ai_vm.Remote.RoundTrip.{
  decode_error-encode_error, decode_result-encode_result, decode_call-encode_call,
}
use ai_vm.Remote.Offers.{decode_welcome-encode_welcome, decode_hello-encode_hello}
use ai_vm.Remote.Session.{
  ServerConfig, ServerSession, SessionStatus, session_init, process_frame, has_cap, remote_cap,
  echo_op, handshake_text, process_type, process_hello, answer_call, encode_error_frame, grant_caps,
  strcmp_equal, same_text,
}
use ai_vm.Remote.Safety.{IsWithin, process_frame-IsWithin}
use ai_vm.Remote.Handshake.{session_after, process_frame_session}
use ai_vm.Remote.Answers.{IsServed, result_needs_grant}
use ai_vm.Remote.Histories.{serve, results_are_allowed}
use ai_vm.Remote.Refusals.{refusal_decodes}

abbrev bytes_of : Result (List ℕ) → List ℕ
bytes_of (Result.ok bytes) = bytes
bytes_of (Result.err e) = []

abbrev is_ok : Result (List ℕ) → Bool
is_ok (Result.ok bytes) = true
is_ok (Result.err e) = false

ok-bytes_of : (r : Result (List ℕ)) → is_ok r ≡ true → r ≡ Result.ok (bytes_of r)
ok-bytes_of (Result.ok bytes) h = refl
ok-bytes_of (Result.err e) h = ground arith

abbrev hello : Hello
hello = record {
  proto_version = 1;
  client_name = 97 ∷ 98 ∷ 0 ∷ 99 ∷ [];
  requested_caps = remote_cap ∷ (120 ∷ []) ∷ [];
}

abbrev welcome : Welcome
welcome = record { proto_version = 1; granted_caps = remote_cap ∷ [] }

abbrev failure : Failure
failure = record { error_code = 401; message = handshake_text }

abbrev call : Call
call = record { cap = remote_cap; op = echo_op; value = 300 }

abbrev config : ServerConfig
config = record { proto_version = 1; allowed_caps = remote_cap ∷ [] }

abbrev greeted_session : ServerSession
greeted_session = record {
  handshake_complete = true;
  negotiated_proto_version = 1;
  granted_caps = remote_cap ∷ [];
}

hello_fits : is_ok (encode_hello 256 7 hello) ≡ true
unfolding encode_hello write_string cstring write_offer write_caps write_u16_le write_u32_le
    write_header encode_failure write_i64_le write_le
hello_fits = refl

decode_hello-encode_hello_example :
    decode_hello (bytes_of (encode_hello 256 7 hello))
    ≡ Result.ok (
      7,
      record {
        proto_version = 1;
        client_name = cstring hello.client_name;
        requested_caps = map cstring hello.requested_caps;
      },
    )
decode_hello-encode_hello_example =
    decode_hello-encode_hello 256 7 hello (bytes_of (encode_hello 256 7 hello)) (omega arith)
      (omega arith) (ok-bytes_of (encode_hello 256 7 hello) hello_fits)

welcome_fits : is_ok (encode_welcome 256 7 welcome) ≡ true
unfolding encode_welcome write_string cstring write_offer write_caps write_u16_le write_u32_le
    write_header encode_failure write_i64_le write_le
welcome_fits = refl

decode_welcome-encode_welcome_example :
    decode_welcome (bytes_of (encode_welcome 256 7 welcome))
    ≡ Result.ok (7, record { proto_version = 1; granted_caps = map cstring welcome.granted_caps })
decode_welcome-encode_welcome_example =
    decode_welcome-encode_welcome 256 7 welcome (bytes_of (encode_welcome 256 7 welcome))
      (omega arith) (omega arith) (ok-bytes_of (encode_welcome 256 7 welcome) welcome_fits)

error_fits : is_ok (encode_error 256 7 failure) ≡ true
unfolding encode_error write_string cstring write_offer write_caps write_u16_le write_u32_le
    write_header encode_failure write_i64_le write_le
error_fits = refl

decode_error-encode_error_example :
    decode_error (bytes_of (encode_error 256 7 failure))
    ≡ Result.ok (7, record { error_code = 401; message = cstring handshake_text })
decode_error-encode_error_example =
    decode_error-encode_error 256 7 failure (bytes_of (encode_error 256 7 failure)) (omega arith)
      (omega arith) (ok-bytes_of (encode_error 256 7 failure) error_fits)

result_fits : is_ok (encode_result 17 7 300) ≡ true
unfolding encode_result write_string cstring write_offer write_caps write_u16_le write_u32_le
    write_header encode_failure write_i64_le write_le
result_fits = refl

decode_result-encode_result_example :
    decode_result (bytes_of (encode_result 17 7 300)) ≡ Result.ok (7, 300)
decode_result-encode_result_example =
    decode_result-encode_result 17 7 300 (bytes_of (encode_result 17 7 300)) (omega arith)
      (omega arith) (ok-bytes_of (encode_result 17 7 300) result_fits)

call_fits : is_ok (encode_call 256 7 call) ≡ true
unfolding encode_call write_string cstring write_offer write_caps write_u16_le write_u32_le
    write_header encode_failure write_i64_le write_le
call_fits = refl

decode_call-encode_call_example :
    decode_call (bytes_of (encode_call 256 7 call))
    ≡ Result.ok (7, record { cap = cstring remote_cap; op = cstring echo_op; value = 300 })
decode_call-encode_call_example =
    decode_call-encode_call 256 7 call (bytes_of (encode_call 256 7 call)) (omega arith)
      (omega arith) (ok-bytes_of (encode_call 256 7 call) call_fits)

abbrev call_frame : List ℕ
call_frame = bytes_of (encode_call 256 7 call)

call_decodes : decode_call call_frame ≡ Result.ok (7, call)
unfolding process_frame process_type process_hello answer_call encode_error_frame decode_call
    decode_hello open_frame read_header split_header read_string read_offer read_caps read_u16_le
    read_u32_le read_i64_le read_le has_cap grant_caps strcmp_equal same_text encode_call
    encode_result encode_error encode_welcome encode_hello decode_result write_string cstring
    write_offer write_caps write_u16_le write_u32_le write_header encode_failure write_i64_le
    write_le
call_decodes = refl

greeted-IsWithin : IsWithin config greeted_session
unfolding has_cap strcmp_equal same_text cstring
greeted-IsWithin = ((refl, tt), omega arith)

process_frame-IsWithin_example :
    IsWithin config (process_frame config greeted_session 256 call_frame).session
process_frame-IsWithin_example =
    process_frame-IsWithin config greeted_session 256 call_frame greeted-IsWithin

process_frame_session_example :
    (process_frame config session_init 256 (bytes_of (encode_hello 256 7 hello))).session
    ≡ session_after config session_init (bytes_of (encode_hello 256 7 hello))
process_frame_session_example =
    process_frame_session config session_init 256 (bytes_of (encode_hello 256 7 hello))

-- HELLO, then a CALL: the capability that is not allowed is not granted, and the value comes back.
hello_grants :
    (process_frame config session_init 256 (bytes_of (encode_hello 256 7 hello))).session
    ≡ greeted_session
unfolding process_frame process_type process_hello answer_call encode_error_frame decode_call
    decode_hello open_frame read_header split_header read_string read_offer read_caps read_u16_le
    read_u32_le read_i64_le read_le has_cap grant_caps strcmp_equal same_text encode_call
    encode_result encode_error encode_welcome encode_hello decode_result write_string cstring
    write_offer write_caps write_u16_le write_u32_le write_header encode_failure write_i64_le
    write_le
hello_grants = refl

echo_answer :
    decode_result (process_frame config greeted_session 256 call_frame).output ≡ Result.ok (7, 300)
unfolding process_frame process_type process_hello answer_call encode_error_frame decode_call
    decode_hello open_frame read_header split_header read_string read_offer read_caps read_u16_le
    read_u32_le read_i64_le read_le has_cap grant_caps strcmp_equal same_text encode_call
    encode_result encode_error encode_welcome encode_hello decode_result write_string cstring
    write_offer write_caps write_u16_le write_u32_le write_header encode_failure write_i64_le
    write_le
echo_answer = refl

result_needs_grant_example : IsServed greeted_session call_frame
result_needs_grant_example =
    result_needs_grant config greeted_session 256 call_frame (7, 300) echo_answer

early_call : (process_frame config session_init 256 call_frame).status ≡ SessionStatus.ok
unfolding process_frame process_type process_hello answer_call encode_error_frame decode_call
    decode_hello open_frame read_header split_header read_string read_offer read_caps read_u16_le
    read_u32_le read_i64_le read_le has_cap grant_caps strcmp_equal same_text encode_call
    encode_result encode_error encode_welcome encode_hello decode_result write_string cstring
    write_offer write_caps write_u16_le write_u32_le write_header encode_failure write_i64_le
    write_le
early_call = refl

refusal_decodes_example :
    decode_error (process_frame config session_init 256 call_frame).output
    ≡ Result.ok (7, record { error_code = 401; message = cstring handshake_text })
refusal_decodes_example =
    refusal_decodes config session_init 256 call_frame 7 call 401 handshake_text (omega arith)
      (omega arith) call_decodes refl early_call

abbrev greeting : List (ℕ × List ℕ)
greeting = (256, bytes_of (encode_hello 256 7 hello)) ∷ []

greeted_answer :
    decode_result (process_frame config (serve config session_init greeting) 256 call_frame).output
    ≡ Result.ok (7, 300)
unfolding process_frame process_type process_hello answer_call encode_error_frame decode_call
    decode_hello open_frame read_header split_header read_string read_offer read_caps read_u16_le
    read_u32_le read_i64_le read_le has_cap grant_caps strcmp_equal same_text encode_call
    encode_result encode_error encode_welcome encode_hello decode_result write_string cstring
    write_offer write_caps write_u16_le write_u32_le write_header encode_failure write_i64_le
    write_le serve
greeted_answer = refl

results_are_allowed_example :
    (id : ℕ) × (c : Call) × (decode_call call_frame ≡ Result.ok (id, c))
    × (has_cap config.allowed_caps c.cap ≡ true)
results_are_allowed_example =
    results_are_allowed config greeting 256 call_frame (7, 300) greeted_answer
