-- ===== src/Remote/Session.antt =====
-- The server's side of a remote session (src/remote/aivm_remote_session.c): a frame comes in, the
-- session may change, and a frame or an error goes out. No pointer is null. A capability in a
-- session is the text before the terminator, which is all that `snprintf` copies and `strcmp` reads.
use ai_vm.Common.{
  ℕ, Bool, true, false, not, ◌&&◌, List, [], ◌∷◌, ◌++◌, ltb, ◌==◌, if◌then◌else◌, length,
}
use ai_vm.Remote.Codec.{
  Result, Text, Hello, Call, cstring, max_caps, msg_hello, msg_call, decode_hello, encode_welcome,
  decode_call, encode_result, encode_error,
}

pub data SessionStatus : Type 0 where
  ok err_codec err_overflow : SessionStatus

pub record ServerConfig : Type 0 where
  pub proto_version : ℕ
  pub allowed_caps : List Text

pub record ServerSession : Type 0 where
  pub handshake_complete : Bool
  pub negotiated_proto_version : ℕ
  pub granted_caps : List Text

-- What a call of `aivm_remote_server_process_frame` leaves: the status, the session and the bytes
-- that go out, where the status is ok.
pub record Reply : Type 0 where
  pub status : SessionStatus
  pub session : ServerSession
  pub output : List ℕ

-- `memset(session, 0, sizeof(*session))`
abbrev pub session_init : ServerSession
session_init = record {
  handshake_complete = false;
  negotiated_proto_version = 0;
  granted_caps = [];
}

unfoldable pub same_text : Text → Text → Bool
same_text [] [] = true
same_text (x ∷ xs) (y ∷ ys) = (x == y) && same_text xs ys
same_text _ _ = false

-- `strcmp(a, b) == 0`
unfoldable pub strcmp_equal : Text → Text → Bool
unfolding same_text cstring
strcmp_equal a b = same_text (cstring a) (cstring b)

-- `cap_allowed` and `cap_granted`, the loop over the capabilities of either.
unfoldable pub has_cap : List Text → Text → Bool
unfolding strcmp_equal
has_cap [] cap = false
has_cap (c ∷ cs) cap = if strcmp_equal c cap then true else has_cap cs cap

-- The loop of HELLO over the requested capabilities, with those granted so far.
unfoldable pub grant_caps : List Text → List Text → List Text → List Text
unfolding has_cap cstring
grant_caps allowed granted [] = granted
grant_caps allowed granted (cap ∷ caps) =
    grant_caps allowed
      (if has_cap allowed cap && ltb (length granted) max_caps
        then granted ++ (cstring cap ∷ [])
        else granted)
      caps

abbrev pub reply_with : ServerSession → Result (List ℕ) → Reply
reply_with session (Result.ok bytes) = record {
  status = SessionStatus.ok;
  session = session;
  output = bytes;
}
reply_with session (Result.err e) = record {
  status = SessionStatus.err_codec;
  session = session;
  output = [];
}

abbrev pub refuse_with : ServerSession → SessionStatus → Reply
refuse_with session status = record { status = status; session = session; output = [] }

-- The texts of `encode_error_frame` as bytes.
-- "remote session handshake is required before CALL."
abbrev pub handshake_text : Text
handshake_text =
    114 ∷ 101 ∷ 109 ∷ 111 ∷ 116 ∷ 101 ∷ 32 ∷ 115 ∷ 101 ∷ 115 ∷ 115 ∷ 105 ∷ 111 ∷ 110 ∷ 32 ∷ 104 ∷ 97
    ∷ 110 ∷ 100 ∷ 115 ∷ 104 ∷ 97 ∷ 107 ∷ 101 ∷ 32 ∷ 105 ∷ 115 ∷ 32 ∷ 114 ∷ 101 ∷ 113 ∷ 117 ∷ 105
    ∷ 114 ∷ 101 ∷ 100 ∷ 32 ∷ 98 ∷ 101 ∷ 102 ∷ 111 ∷ 114 ∷ 101 ∷ 32 ∷ 67 ∷ 65 ∷ 76 ∷ 76 ∷ 46 ∷ []

-- "remote capability is not granted for this session."
abbrev pub not_granted_text : Text
not_granted_text =
    114 ∷ 101 ∷ 109 ∷ 111 ∷ 116 ∷ 101 ∷ 32 ∷ 99 ∷ 97 ∷ 112 ∷ 97 ∷ 98 ∷ 105 ∷ 108 ∷ 105 ∷ 116 ∷ 121
    ∷ 32 ∷ 105 ∷ 115 ∷ 32 ∷ 110 ∷ 111 ∷ 116 ∷ 32 ∷ 103 ∷ 114 ∷ 97 ∷ 110 ∷ 116 ∷ 101 ∷ 100 ∷ 32 ∷ 102
    ∷ 111 ∷ 114 ∷ 32 ∷ 116 ∷ 104 ∷ 105 ∷ 115 ∷ 32 ∷ 115 ∷ 101 ∷ 115 ∷ 115 ∷ 105 ∷ 111 ∷ 110 ∷ 46
    ∷ []

-- "remote operation is not available."
abbrev pub no_operation_text : Text
no_operation_text =
    114 ∷ 101 ∷ 109 ∷ 111 ∷ 116 ∷ 101 ∷ 32 ∷ 111 ∷ 112 ∷ 101 ∷ 114 ∷ 97 ∷ 116 ∷ 105 ∷ 111 ∷ 110 ∷ 32
    ∷ 105 ∷ 115 ∷ 32 ∷ 110 ∷ 111 ∷ 116 ∷ 32 ∷ 97 ∷ 118 ∷ 97 ∷ 105 ∷ 108 ∷ 97 ∷ 98 ∷ 108 ∷ 101 ∷ 46
    ∷ []

-- "remote frame type is not supported."
abbrev pub no_type_text : Text
no_type_text =
    114 ∷ 101 ∷ 109 ∷ 111 ∷ 116 ∷ 101 ∷ 32 ∷ 102 ∷ 114 ∷ 97 ∷ 109 ∷ 101 ∷ 32 ∷ 116 ∷ 121 ∷ 112 ∷ 101
    ∷ 32 ∷ 105 ∷ 115 ∷ 32 ∷ 110 ∷ 111 ∷ 116 ∷ 32 ∷ 115 ∷ 117 ∷ 112 ∷ 112 ∷ 111 ∷ 114 ∷ 116 ∷ 101
    ∷ 100 ∷ 46 ∷ []

-- "cap.remote"
abbrev pub remote_cap : Text
remote_cap = 99 ∷ 97 ∷ 112 ∷ 46 ∷ 114 ∷ 101 ∷ 109 ∷ 111 ∷ 116 ∷ 101 ∷ []

-- "echoInt"
abbrev pub echo_op : Text
echo_op = 101 ∷ 99 ∷ 104 ∷ 111 ∷ 73 ∷ 110 ∷ 116 ∷ []

-- `encode_error_frame`; every text fits the 128 bytes of the message.
unfoldable pub encode_error_frame : ℕ → ℕ → Text → ℕ → Result (List ℕ)
unfolding encode_error
encode_error_frame id code text capacity =
    encode_error capacity id (record { error_code = code; message = text })

-- The case of HELLO. The session changes before the welcome is encoded.
unfoldable pub process_hello : ServerConfig → ServerSession → ℕ → ℕ → Hello → Reply
unfolding grant_caps encode_welcome
process_hello config session capacity id hello =
    let granted = grant_caps config.allowed_caps [] hello.requested_caps in
    reply_with
      (record {
        handshake_complete = true;
        negotiated_proto_version = config.proto_version;
        granted_caps = granted;
      })
      (encode_welcome capacity id
        (record { proto_version = config.proto_version; granted_caps = granted }))

-- The case of CALL, whose answer leaves the session.
unfoldable pub answer_call : ServerSession → ℕ → ℕ → Call → Result (List ℕ)
unfolding has_cap strcmp_equal encode_result encode_error_frame
answer_call session capacity id call =
    if not session.handshake_complete
    then encode_error_frame id 401 handshake_text capacity
    else if not (has_cap session.granted_caps call.cap)
    then encode_error_frame id 403 not_granted_text capacity
    else if strcmp_equal call.cap remote_cap && strcmp_equal call.op echo_op
    then encode_result capacity id call.value
    else encode_error_frame id 404 no_operation_text capacity

-- The frame by its first byte.
unfoldable pub process_type : ServerConfig → ServerSession → ℕ → ℕ → List ℕ → Reply
unfolding process_hello answer_call decode_hello decode_call encode_error_frame
process_type config session capacity type input =
    if type == msg_hello
    then (elim (decode_hello input) [
      | Result.err e ↦ refuse_with session SessionStatus.err_codec
      | Result.ok (id, hello) ↦ process_hello config session capacity id hello
    ])
    else if type == msg_call
    then (elim (decode_call input) [
      | Result.err e ↦ refuse_with session SessionStatus.err_codec
      | Result.ok (id, call) ↦ reply_with session (answer_call session capacity id call)
    ])
    else reply_with session (encode_error_frame 0 400 no_type_text capacity)

-- `aivm_remote_server_process_frame`
unfoldable pub process_frame : ServerConfig → ServerSession → ℕ → List ℕ → Reply
unfolding process_type
process_frame config session capacity [] = refuse_with session SessionStatus.err_codec
process_frame config session capacity (type ∷ bytes) =
    if ltb max_caps (length config.allowed_caps)
    then refuse_with session SessionStatus.err_overflow
    else process_type config session capacity type (type ∷ bytes)
