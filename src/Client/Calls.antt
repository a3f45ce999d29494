-- ===== src/Client/Calls.antt =====
-- web/src/protocol/client.ts, lines 59-299 and 378-406: sessions, calls and streams.
use whats_going_on.Prelude.{
  Bool, true, false, Option, none, some, List, [], ◌∷◌, ◌++◌, length, drop, ltb, if◌then◌else◌,
}
use whats_going_on.Cbor.Value.{Value, Result, ok, err, ◌>>=◌, Platform}
use whats_going_on.Cbor.Encode.{encode_cbor}
use whats_going_on.Cbor.Decode.{decode_cbor}
use whats_going_on.Wire.Message.{
  Bytes, Text, RpcErrorKind, system, method, kind_request_unary, kind_request_stream_start,
  kind_request_stream_chunk, kind_response_unary_ok, kind_response_unary_error,
  kind_response_stream_start, kind_response_stream_chunk, kind_response_stream_error_end,
  kind_session_authenticate, kind_session_authenticated, kind_session_auth_error, ReqResMessage,
}
use whats_going_on.Wire.Errors.{RpcErrorPayload, decode_rpc_error_payload_value}
use whats_going_on.Wire.Codec.{
  of_kind, encode_req_res_message_sequence, decode_req_res_message_sequence,
  decode_req_res_message_sequence_prefix, encode_paired_secret_credential,
}
use whats_going_on.Client.Rpc.{
  Words, literal, received, Failure, coded, failed, rpc_error, Outcome, done, thrown, ◌>>>◌,
  lift_result, expected_one_auth_response, expected_auth_response, expected_one_response,
  expected_unary_response, expected_stream_response, missing_stream_payload,
  incomplete_stream_message, empty_client_stream, transport_failed, ErrorValue, ProcCodec,
  error_code, error_message, session_auth_error_code, rpc_error_code,
}

-- `or` of a text that may be undefined.
abbrev pub text_or : Option Text → Words → Words
text_or none w = w
text_or (some s) w = received s

-- The chunks that a reader gets; `ends` is false where `read` rejects after them.
pub record Readable : Type 0 where
  pub chunks : List Bytes
  pub ends : Bool

abbrev pub concat_chunks : List Bytes → Bytes
concat_chunks [] = []
concat_chunks (c ∷ cs) = c ++ concat_chunks cs

unfoldable pub read_all : Readable → Outcome Bytes
read_all r = if r.ends then done (concat_chunks r.chunks) else thrown (failed transport_failed)

unfoldable pub concat_bytes : Bytes → Bytes → Bytes
concat_bytes [] right = right
concat_bytes left [] = left
concat_bytes left right = left ++ right

-- `PAIRED_SECRET_AUTH_MECHANISM`, "wgo.paired-secret.v1".
abbrev pub paired_secret_auth_mechanism : Text
paired_secret_auth_mechanism =
    119 ∷ 103 ∷ 111 ∷ 46 ∷ 112 ∷ 97 ∷ 105 ∷ 114 ∷ 101 ∷ 100 ∷ 45 ∷ 115 ∷ 101 ∷ 99 ∷ 114 ∷ 101 ∷ 116
    ∷ 46 ∷ 118 ∷ 49 ∷ []

unfoldable pub system_error_payload : Platform → Bytes → Result RpcErrorPayload
unfolding decode_cbor decode_rpc_error_payload_value
system_error_payload p bytes = decode_cbor p bytes >>= decode_rpc_error_payload_value

-- What is thrown for the error bytes of a kind.
unfoldable pub throw_error : Platform → (Value → Result ErrorValue) → Bytes → RpcErrorKind → Failure
unfolding system_error_payload error_code error_message rpc_error_code decode_cbor
throw_error p decode_error bytes method = elim (decode_cbor p bytes >>= decode_error) [
  | ok e ↦ rpc_error (error_code e) (error_message e)
  | err e ↦ coded e
]
throw_error p decode_error bytes system = elim (system_error_payload p bytes) [
  | ok e ↦ rpc_error (rpc_error_code e.code) (received e.message)
  | err e ↦ coded e
]

unfoldable pub throw_rpc_error : Platform → (Value → Result ErrorValue) → ReqResMessage → Failure
unfolding throw_error
throw_rpc_error p decode_error response = elim response.error [
  | none ↦ rpc_error (literal "rpc_error") (literal "RPC error response")
  | some bytes ↦ elim response.error_kind [
    | none ↦ rpc_error (literal "rpc_error") (literal "RPC error response")
    | some kind ↦ throw_error p decode_error bytes kind
  ]
]

-- The answer to `SessionAuthenticate`.
unfoldable pub auth_response : List ReqResMessage → Outcome Unit
unfolding session_auth_error_code
auth_response (response ∷ []) = elim response.kind [
  | kind_session_auth_error ↦ thrown (
      rpc_error (session_auth_error_code response.auth_error_code)
        (text_or response.message (literal "Session authentication failed")))
  | kind_session_authenticated ↦ done tt
  | _ ↦ thrown (failed expected_auth_response)
]
auth_response _ = thrown (failed expected_one_auth_response)

-- The message that `authenticateWebTransport` sends.
unfoldable pub auth_request : Platform → Text → Text → Result Bytes
unfolding encode_paired_secret_credential encode_req_res_message_sequence
auth_request p client_id client_secret = do
  payload ←
      encode_paired_secret_credential p
        (record { credential_id = client_id; credential_secret = client_secret })
  encode_req_res_message_sequence p (
      record (of_kind kind_session_authenticate) {
        mechanism = some paired_secret_auth_mechanism;
        payload = some payload;
      }
      ∷ [])

-- What is written, and what comes of the server's answer.
unfoldable pub authenticate_web_transport :
    Platform → Text → Text → Readable → Outcome (Bytes × Unit)
unfolding auth_request read_all decode_req_res_message_sequence auth_response
authenticate_web_transport p client_id client_secret answer =
    lift_result (auth_request p client_id client_secret) >>> λ request. read_all answer >>> λ bytes.
    lift_result (decode_req_res_message_sequence p bytes) >>> λ messages.
    auth_response messages >>> λ u. done (request, u)

unfoldable pub decode_unary_response :
    Platform → (Value → Result ErrorValue) → List ReqResMessage → Outcome (Option Bytes)
unfolding throw_rpc_error
decode_unary_response p decode_error (response ∷ []) = elim response.kind [
  | kind_response_unary_error ↦ thrown (throw_rpc_error p decode_error response)
  | kind_response_unary_ok ↦ done response.payload
  | _ ↦ thrown (failed expected_unary_response)
]
decode_unary_response p decode_error _ = thrown (failed expected_one_response)

-- A stream's responses so far, and the failure that ended it.
abbrev pub Events : Type 0 → Type 0
Events Response = List Response × Option Failure

abbrev pub followed_by : {Response : Type 0} → Events Response → Events Response → Events Response
followed_by (rs, some f) later = (rs, some f)
followed_by (rs, none) (qs, f) = (rs ++ qs, f)

module _ {Request Response : Type 0} (p : Platform) (proc : ProcCodec Request Response) where
  -- `encodeRequest`: no bytes for `undefined`.
  unfoldable pub encode_request_bytes : Option Request → Result (Option Bytes)
  unfolding encode_cbor
  encode_request_bytes none = ok none
  encode_request_bytes (some request) = do
    value ← proc.encode_request request
    bytes ← encode_cbor p value
    ok (some bytes)

  -- `RequestUnary`.
  unfoldable pub unary_request : Option Bytes → Result Bytes
  unfolding encode_req_res_message_sequence
  unary_request payload =
      encode_req_res_message_sequence p
        (record (of_kind kind_request_unary) { proc_id = some proc.id; payload = payload } ∷ [])

  unfoldable pub send_unary : Option Bytes → Readable → Outcome (Bytes × Option Bytes)
  unfolding unary_request read_all decode_req_res_message_sequence decode_unary_response
  send_unary payload answer = lift_result (unary_request payload) >>> λ request.
      read_all answer >>> λ bytes.
      lift_result (decode_req_res_message_sequence p bytes) >>> λ messages.
      decode_unary_response p proc.decode_error messages >>> λ response. done (request, response)

  -- `proc.decodeResponse` of the payload's value, or of `undefined`.
  unfoldable pub decode_payload : Option Bytes → Result Response
  unfolding decode_cbor
  decode_payload none = proc.decode_response none
  decode_payload (some bytes) = do value ← decode_cbor p bytes; proc.decode_response (some value)

  -- What is written, and the response.
  unfoldable pub call_unary : Option Request → Readable → Outcome (Bytes × Response)
  unfolding encode_request_bytes send_unary decode_payload
  call_unary request answer = lift_result (encode_request_bytes request) >>> λ payload.
      send_unary payload answer >>> λ (written, response).
      lift_result (decode_payload response) >>> λ r. done (written, r)

  -- The write for a payload: a start for the first, a chunk for each of the others.
  unfoldable pub stream_message : Bool → Bytes → ReqResMessage
  stream_message started payload =
      if started
      then record (of_kind kind_request_stream_chunk) { payload = some payload }
      else record (of_kind kind_request_stream_start) {
        proc_id = some proc.id;
        payload = some payload;
      }

  -- The loop of `sendClientStream`: its writes, one for each payload.
  unfoldable pub stream_writes : Bool → List Bytes → Outcome (List Bytes)
  unfolding stream_message encode_req_res_message_sequence
  stream_writes started [] = if started then done [] else thrown (failed empty_client_stream)
  stream_writes started (payload ∷ payloads) =
      lift_result (encode_req_res_message_sequence p (stream_message started payload ∷ []))
      >>> λ write. stream_writes true payloads >>> λ writes. done (write ∷ writes)

  unfoldable pub send_client_stream : List Bytes → Readable → Outcome (List Bytes × Option Bytes)
  unfolding stream_writes read_all decode_req_res_message_sequence decode_unary_response
  send_client_stream payloads answer = stream_writes false payloads >>> λ writes.
      read_all answer >>> λ bytes.
      lift_result (decode_req_res_message_sequence p bytes) >>> λ messages.
      decode_unary_response p proc.decode_error messages >>> λ response. done (writes, response)

  -- The body of `streamServerEvents`' loop over the messages.
  unfoldable pub stream_response : ReqResMessage → Outcome Response
  unfolding throw_rpc_error decode_payload
  stream_response message = elim message.kind [
    | kind_response_stream_error_end ↦ thrown (throw_rpc_error p proc.decode_error message)
    | kind_response_stream_start ↦ stream_payload message.payload
    | kind_response_stream_chunk ↦ stream_payload message.payload
    | _ ↦ thrown (failed expected_stream_response)
  ]
    where
      stream_payload : Option Bytes → Outcome Response
      stream_payload none = thrown (failed missing_stream_payload)
      stream_payload (some bytes) = lift_result (decode_payload (some bytes))

  unfoldable pub stream_responses : List ReqResMessage → Events Response
  unfolding stream_response
  stream_responses [] = ([], none)
  stream_responses (message ∷ messages) =
      let later = stream_responses messages in
      elim (stream_response message) [
        | done r ↦ followed_by (r ∷ [], none) later
        | thrown f ↦ ([], some f)
      ]

  -- The end of the stream: bytes that are left are an incomplete message.
  unfoldable pub stream_end : Bytes → Bool → Events Response
  stream_end buffered true =
      if ltb 0 (length buffered) then ([], some (failed incomplete_stream_message)) else ([], none)
  stream_end buffered false = ([], some (failed transport_failed))

  -- The reads of `streamServerEvents`, from what is buffered.
  unfoldable pub stream_loop : Bytes → List Bytes → Bool → Events Response
  unfolding stream_end concat_bytes decode_req_res_message_sequence_prefix stream_responses
  stream_loop buffered [] ends = stream_end buffered ends
  stream_loop buffered (chunk ∷ chunks) ends =
      elim (decode_req_res_message_sequence_prefix p (concat_bytes buffered chunk)) [
        | ok (messages, read_bytes) ↦ followed_by (stream_responses messages) (
            stream_loop
              (if ltb 0 read_bytes
                then drop read_bytes (concat_bytes buffered chunk)
                else concat_bytes buffered chunk)
              chunks ends)
        | err e ↦ ([], some (coded e))
      ]

  unfoldable pub stream_server_events : Option Bytes → Readable → Outcome (Bytes × Events Response)
  unfolding unary_request stream_loop
  stream_server_events payload answer = lift_result (unary_request payload) >>> λ request.
      done (request, stream_loop [] answer.chunks answer.ends)

  -- What `callServerStream` writes, and its responses.
  unfoldable pub call_server_stream : Option Request → Readable → Outcome (Bytes × Events Response)
  unfolding encode_request_bytes stream_server_events
  call_server_stream request answer =
      lift_result (encode_request_bytes request) >>> λ payload. stream_server_events payload answer
