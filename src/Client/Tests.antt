-- ===== src/Client/Tests.antt =====
-- The theorems on the RPC client at concrete inputs.
use whats_going_on.Prelude.{
  ℕ, ◌≡◌, refl, true, false, Option, none, some, List, [], ◌∷◌, ◌++◌, map, length, All, ltb,
  if◌then◌else◌, drop, arith,
}
use whats_going_on.Prelude.Int.{pos}
use whats_going_on.Cbor.Value.{Value, null, int, ok}
use whats_going_on.Cbor.Value.{◌>>=◌, IsByte}
use whats_going_on.Cbor.Sample.{platform, platform-Laws}
use whats_going_on.Wire.Message.{
  GeneratedReqRes, request_unary, request_stream_start, request_stream_chunk, response_stream_chunk,
  kind_response_unary_ok, kind_session_authenticated, ReqResMessage,
}
use whats_going_on.Cbor.Encode.{encode_cbor}
use whats_going_on.Cbor.Sequence.{decode_cbor_sequence_prefix}
use whats_going_on.Wire.Codec.{
  from_generated_req_res_message, encode_req_res_message_sequence, decode_req_res_message_sequence,
  decode_req_res_message_sequence_prefix,
}
use whats_going_on.Wire.Errors.{RpcErrorPayload, not_found, encode_rpc_error_payload_value}
use whats_going_on.Wire.Fields.{IsBytes}
use whats_going_on.Client.Rpc.{
  ProcCodec, no_object, done, thrown, rpc_error, received, failed, rpc_error_code,
  incomplete_stream_message,
}
use whats_going_on.Client.Calls.{
  Readable, concat_chunks, auth_request, authenticate_web_transport, encode_request_bytes,
  unary_request, decode_payload, call_unary, followed_by, stream_responses, stream_end, stream_loop,
  stream_writes,
}
use whats_going_on.Client.Chunks.{stream_loop-chunks, stream_loop-encode}
use whats_going_on.Client.Unary.{authenticate_web_transport-done, call_unary-done}
use whats_going_on.Client.Answers.{call_unary-ok, call_unary-system_error}
use whats_going_on.Client.Writes.{stream_writes-decode}

-- A procedure whose requests and responses are values.
abbrev proc : ProcCodec Value (Option Value)
proc = record {
  id = int (pos 7);
  encode_request = λ v. ok v;
  decode_response = λ v. ok v;
  decode_error = λ v. ok no_object;
}

abbrev null_bytes : List ℕ
null_bytes = 0xf6 ∷ []

null-IsBytes : IsBytes null_bytes
null-IsBytes = ((omega arith, tt), omega arith)

-- Two chunk messages, cut inside the first.
abbrev chunk_message : GeneratedReqRes
chunk_message = response_stream_chunk null_bytes

abbrev cut_chunks : List (List ℕ)
cut_chunks = (6 ∷ 161 ∷ []) ∷ (2 ∷ 65 ∷ 246 ∷ 6 ∷ 161 ∷ []) ∷ (2 ∷ 65 ∷ 246 ∷ []) ∷ []

cut_chunks-IsByte : All (All IsByte) cut_chunks
cut_chunks-IsByte = (
  (omega arith, (omega arith, tt)),
  (
    (omega arith, (omega arith, (omega arith, (omega arith, (omega arith, tt))))),
    ((omega arith, (omega arith, (omega arith, tt))), tt),
  ),
)

abbrev two_chunks : List ReqResMessage
two_chunks = map from_generated_req_res_message (chunk_message ∷ chunk_message ∷ [])

stream_loop-chunks_example :
    stream_loop platform proc [] cut_chunks true
    ≡ followed_by
        (stream_responses platform proc two_chunks)
        (stream_end platform proc (drop 10 (concat_chunks cut_chunks)) true)
unfolding decode_req_res_message_sequence_prefix from_generated_req_res_message
stream_loop-chunks_example =
    stream_loop-chunks platform proc cut_chunks true two_chunks 10 cut_chunks-IsByte refl

-- The same with the beginning of an item behind it.
abbrev cut_item : List ℕ
cut_item = 0x19 ∷ 3 ∷ []

abbrev sent_chunks : List ℕ
sent_chunks = 6 ∷ 161 ∷ 2 ∷ 65 ∷ 246 ∷ 6 ∷ 161 ∷ 2 ∷ 65 ∷ 246 ∷ []

stream_loop-encode_example :
    stream_loop platform proc [] (cut_chunks ++ (cut_item ∷ [])) true
    ≡ followed_by
        (stream_responses platform proc two_chunks)
        ([], if ltb 0 (length cut_item) then some (failed incomplete_stream_message) else none)
unfolding decode_cbor_sequence_prefix encode_req_res_message_sequence from_generated_req_res_message
stream_loop-encode_example =
    stream_loop-encode platform proc platform-Laws (cut_chunks ++ (cut_item ∷ []))
      (chunk_message ∷ chunk_message ∷ []) cut_item sent_chunks
      (
        cut_chunks-IsByte.0,
        (cut_chunks-IsByte.1.0, (cut_chunks-IsByte.1.1.0, ((omega arith, (omega arith, tt)), tt))),
      )
      (null-IsBytes, (null-IsBytes, tt)) (omega arith, (omega arith, tt)) refl refl refl

-- An accepted login.
abbrev accepted : Readable
accepted = record { chunks = (9 ∷ []) ∷ (160 ∷ []) ∷ []; ends = true }

abbrev login : List ℕ
login =
    8 ∷ 162 ∷ 1 ∷ 120 ∷ 40 ∷ 0 ∷ 119 ∷ 0 ∷ 103 ∷ 0 ∷ 111 ∷ 0 ∷ 46 ∷ 0 ∷ 112 ∷ 0 ∷ 97 ∷ 0 ∷ 105 ∷ 0
    ∷ 114 ∷ 0 ∷ 101 ∷ 0 ∷ 100 ∷ 0 ∷ 45 ∷ 0 ∷ 115 ∷ 0 ∷ 101 ∷ 0 ∷ 99 ∷ 0 ∷ 114 ∷ 0 ∷ 101 ∷ 0 ∷ 116
    ∷ 0 ∷ 46 ∷ 0 ∷ 118 ∷ 0 ∷ 49 ∷ 2 ∷ 73 ∷ 162 ∷ 1 ∷ 98 ∷ 0 ∷ 110 ∷ 2 ∷ 98 ∷ 0 ∷ 111 ∷ []

authenticate_web_transport-done_example :
    (true ≡ true)
    × (auth_request platform (0x6e ∷ []) (0x6f ∷ []) ≡ ok login)
    × (m : ReqResMessage) × (decode_req_res_message_sequence platform (9 ∷ 160 ∷ []) ≡ ok (m ∷ []))
    × (m.kind ≡ kind_session_authenticated)
unfolding authenticate_web_transport
authenticate_web_transport-done_example =
    authenticate_web_transport-done platform (0x6e ∷ []) (0x6f ∷ []) accepted login refl

-- An answer of one `ResponseUnaryOk`.
abbrev answer : Readable
answer = record { chunks = (3 ∷ 161 ∷ []) ∷ (2 ∷ 65 ∷ 246 ∷ []) ∷ []; ends = true }

call_unary-done_example :
    (true ≡ true)
    × (m : ReqResMessage) × (decode_req_res_message_sequence platform (3 ∷ 161 ∷ 2 ∷ 65 ∷ 246 ∷ [])
        ≡ ok (m ∷ []))
    × (m.kind ≡ kind_response_unary_ok)
    × (decode_payload platform proc m.payload ≡ ok (some null))
    × (encode_request_bytes platform proc (some null) >>= unary_request platform proc)
      ≡ ok (0 ∷ 162 ∷ 1 ∷ 7 ∷ 2 ∷ 65 ∷ 246 ∷ [])
unfolding call_unary
call_unary-done_example =
    call_unary-done platform proc (some null) answer (0 ∷ 162 ∷ 1 ∷ 7 ∷ 2 ∷ 65 ∷ 246 ∷ [])
      (some null) refl

call_unary-ok_example :
    (written : List ℕ) × (decode_req_res_message_sequence platform written
      ≡ ok (from_generated_req_res_message (request_unary (int (pos 7)) (some null_bytes)) ∷ []))
    × (call_unary platform proc (some null) answer ≡ done (written, some null))
unfolding encode_request_bytes encode_req_res_message_sequence decode_payload
    from_generated_req_res_message
call_unary-ok_example =
    call_unary-ok platform platform-Laws proc (some null) answer (some null_bytes) (some null_bytes)
      (some null) refl refl null-IsBytes null-IsBytes refl refl refl

-- The daemon's error "not found", with a message.
abbrev not_found_error : RpcErrorPayload
not_found_error = record { code = not_found; message = 0x6e ∷ 0x6f ∷ [] }

abbrev error_bytes : List ℕ
error_bytes = 162 ∷ 1 ∷ 7 ∷ 2 ∷ 100 ∷ 0 ∷ 110 ∷ 0 ∷ 111 ∷ []

abbrev refused : Readable
refused = record { chunks = (4 ∷ 162 ∷ 3 ∷ 73 ∷ error_bytes) ∷ (4 ∷ 1 ∷ []) ∷ []; ends = true }

call_unary-system_error_example :
    call_unary platform proc (some null) refused
    ≡ thrown (rpc_error (rpc_error_code not_found) (received (0x6e ∷ 0x6f ∷ [])))
unfolding encode_request_bytes encode_cbor encode_rpc_error_payload_value
    encode_req_res_message_sequence from_generated_req_res_message
call_unary-system_error_example =
    call_unary-system_error platform platform-Laws proc (some null) refused (some null_bytes)
      not_found_error error_bytes refl refl null-IsBytes (refl, omega arith, refl) refl
      (
        (
          omega arith,
          (
            omega arith,
            (
              omega arith,
              (
                omega arith,
                (omega arith, (omega arith, (omega arith, (omega arith, (omega arith, tt))))),
              ),
            ),
          ),
        ),
        omega arith,
      )
      refl refl

stream_writes-decode_example :
    (writes : List (List ℕ)) × (stream_writes platform proc false (null_bytes ∷ null_bytes ∷ [])
      ≡ done writes)
    × (length writes ≡ 2)
    × (decode_req_res_message_sequence platform (concat_chunks writes)
        ≡ ok (
            map from_generated_req_res_message (
              request_stream_start (int (pos 7)) (some null_bytes)
              ∷ request_stream_chunk null_bytes
              ∷ [])))
stream_writes-decode_example =
    stream_writes-decode platform proc platform-Laws null_bytes (null_bytes ∷ []) refl null-IsBytes
      (null-IsBytes, tt)
