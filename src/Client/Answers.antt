-- ===== src/Client/Answers.antt =====
-- web/src/protocol/client.ts: what comes of an answer to a unary call.
use whats_going_on.Prelude.{◌≡◌, refl, sym, ap, ◌∙◌, true, Option, List, [], ◌∷◌, map, All}
use whats_going_on.Cbor.Value.{Value, Result, ok, err, ◌>>=◌, Platform, Laws}
use whats_going_on.Cbor.Encode.{encode_cbor}
use whats_going_on.Cbor.Decode.{decode_cbor}
use whats_going_on.Cbor.RoundTrip.{decode_cbor-encode_cbor}
use whats_going_on.Cbor.Incremental.{ok-injective}
use whats_going_on.Wire.Message.{
  Bytes, system, GeneratedReqRes, request_unary, response_unary_ok, response_unary_error,
  ReqResMessage,
}
use whats_going_on.Wire.Errors.{
  RpcErrorPayload, encode_rpc_error_payload_value, decode_rpc_error_payload_value,
  payload-canonical,
}
use whats_going_on.Wire.Generated.{is_u53}
use whats_going_on.Wire.Codec.{
  from_generated_req_res_message, encode_req_res_message_sequence, decode_req_res_message_sequence,
}
use whats_going_on.Wire.Fields.{Sendable, IsPayload, IsBytes, IsText}
use whats_going_on.Wire.RoundTrip.{decode_req_res_message_sequence-encode_req_res_message_sequence}
use whats_going_on.Client.Rpc.{
  coded, rpc_error, received, done, thrown, ◌>>>◌, lift_result, ErrorValue, ProcCodec,
  rpc_error_code,
}
use whats_going_on.Client.Calls.{
  Readable, concat_chunks, read_all, throw_rpc_error, throw_error, system_error_payload,
  decode_unary_response, encode_request_bytes, unary_request, send_unary, decode_payload,
  call_unary,
}

-- The messages that were sent are those that are read.
pub sent_sequence :
    (p : Platform)
    → Laws p
    → (gs : List GeneratedReqRes) → All (Sendable p) gs
    → {sent : Bytes}
    → encode_req_res_message_sequence p (map from_generated_req_res_message gs) ≡ ok sent
    → decode_req_res_message_sequence p sent ≡ ok (map from_generated_req_res_message gs)
sent_sequence p laws gs h e =
    let (bs, e', d) = decode_req_res_message_sequence-encode_req_res_message_sequence p laws gs h in
    rw (ok-injective (sym e ∙ e')) d

throw_system :
    (p : Platform) (decode_error : Value → Result ErrorValue) (bytes : Bytes) {v : Value}
    {e : RpcErrorPayload}
    → decode_cbor p bytes ≡ ok v
    → decode_rpc_error_payload_value v ≡ ok e
    → throw_error p decode_error bytes system
      ≡ rpc_error (rpc_error_code e.code) (received e.message)
unfolding throw_error system_error_payload
throw_system p decode_error bytes h k =
    ap
      (λ r. elim r [
        | ok e ↦ rpc_error (rpc_error_code e.code) (received e.message)
        | err e ↦ coded e
      ])
      (ap (λ r. r >>= decode_rpc_error_payload_value) h ∙ k)

module _ {Request Response : Type 0} (p : Platform) (laws : Laws p)
    (proc : ProcCodec Request Response) where
  -- What is written for a call, and the message that it is read back as.
  unary_request-Sent :
      (payload : Option Bytes)
      → is_u53 proc.id ≡ true
      → IsPayload payload
      → (written : Bytes) × (unary_request p proc payload ≡ ok written)
        × (decode_req_res_message_sequence p written
            ≡ ok (from_generated_req_res_message (request_unary proc.id payload) ∷ []))
  unfolding unary_request from_generated_req_res_message
  unary_request-Sent payload hid hp =
      decode_req_res_message_sequence-encode_req_res_message_sequence p laws
        (request_unary proc.id payload ∷ []) ((hid, hp), tt)

  send_unary_lem :
      (payload : Option Bytes) (answer : Readable) {written : Bytes} {ms : List ReqResMessage}
      → unary_request p proc payload ≡ ok written
      → answer.ends ≡ true
      → decode_req_res_message_sequence p (concat_chunks answer.chunks) ≡ ok ms
      → send_unary p proc payload answer
        ≡ (decode_unary_response p proc.decode_error ms >>> λ response. done (written, response))
  unfolding send_unary read_all
  send_unary_lem payload answer {written = written} e ends d =
      ap
        (λ r. lift_result r >>> λ request. read_all answer >>> λ bytes.
          lift_result (decode_req_res_message_sequence p bytes) >>> λ messages.
          decode_unary_response p proc.decode_error messages >>> λ response.
          done (request, response))
        e
      ∙ (rw ends (
          ap
            (λ r. lift_result r >>> λ messages.
              decode_unary_response p proc.decode_error messages >>> λ response.
              done (written, response))
            d))

  -- On a platform that keeps its documented laws, when a call of a procedure with a safe unsigned
  -- id has a request that is encoded as an admitted payload, and the answer, in whatever chunks
  -- it arrives, ends and is the bytes of one `ResponseUnaryOk` with an admitted payload that is
  -- decoded to a response, then `decodeReqResMessageSequence` reads what `callUnary` writes as
  -- the `RequestUnary` of this procedure with the request's payload, and `callUnary` returns this
  -- response.
  pub call_unary-ok :
      (request : Option Request) (answer : Readable) (payload out : Option Bytes)
      (response : Response)
      → is_u53 proc.id ≡ true
      → encode_request_bytes p proc request ≡ ok payload
      → IsPayload payload
      → IsPayload out
      → answer.ends ≡ true
      → encode_req_res_message_sequence p
          (from_generated_req_res_message (response_unary_ok out) ∷ [])
        ≡ ok (concat_chunks answer.chunks)
      → decode_payload p proc out ≡ ok response
      → (written : Bytes) × (decode_req_res_message_sequence p written
          ≡ ok (from_generated_req_res_message (request_unary proc.id payload) ∷ []))
        × (call_unary p proc request answer ≡ done (written, response))
  unfolding call_unary decode_unary_response from_generated_req_res_message
  call_unary-ok request answer payload out response hid encoded hp hout ends sent decoded =
      let (written, e, d) = unary_request-Sent payload hid hp in
      let read = sent_sequence p laws (response_unary_ok out ∷ []) (hout, tt) sent in
      (written, d, rw (encoded, send_unary_lem payload answer e ends read, decoded) refl)

  -- On a platform that keeps its documented laws, when a request is encoded, the daemon answers it with one
  -- `ResponseUnaryError` that holds a system error with a well-formed message without a leading byte
  -- order mark, and the stream ends behind its bytes, whatever chunks they arrive in, then `callUnary`
  -- throws an `RpcError` with this error's code and message.
  pub call_unary-system_error :
      (request : Option Request) (answer : Readable) (payload : Option Bytes)
      (error : RpcErrorPayload) (bytes : Bytes)
      → is_u53 proc.id ≡ true
      → encode_request_bytes p proc request ≡ ok payload
      → IsPayload payload
      → IsText p error.message
      → encode_cbor p (encode_rpc_error_payload_value error) ≡ ok bytes
      → IsBytes bytes
      → answer.ends ≡ true
      → encode_req_res_message_sequence p
          (from_generated_req_res_message (response_unary_error bytes system) ∷ [])
        ≡ ok (concat_chunks answer.chunks)
      → call_unary p proc request answer
        ≡ thrown (rpc_error (rpc_error_code error.code) (received error.message))
  unfolding call_unary decode_unary_response from_generated_req_res_message throw_rpc_error
  call_unary-system_error request answer payload error bytes hid encoded hp ht spelled hb ends
        sent =
      let (written, e, d) = unary_request-Sent payload hid hp in
      let read = sent_sequence p laws (response_unary_error bytes system ∷ []) (hb, tt) sent in
      let (admitted, back) = payload-canonical p error ht in
      let (bytes', spelled', decoded) =
        decode_cbor-encode_cbor p laws (encode_rpc_error_payload_value error) admitted in
      let decoded_here = rw (← ok-injective (sym spelled ∙ spelled')) at decoded in
      rw (encoded, send_unary_lem payload answer e ends read)
        (ap thrown (throw_system p proc.decode_error bytes decoded_here back))
