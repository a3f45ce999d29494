-- ===== src/Client/Unary.antt =====
-- web/src/protocol/client.ts: what a unary call, a client stream and an authentication make of the
-- daemon's answer.
use whats_going_on.Prelude.{
  ◌≡◌, refl, ap, ◌∙◌, inl, inr, true, Option, List, [], ◌∷◌, Bool-cases, arith,
}
use whats_going_on.Cbor.Value.{Value, Result, ok, err, ◌>>=◌, Platform}
use whats_going_on.Wire.Message.{
  Bytes, Text, kind_response_unary_ok, kind_session_authenticated, ReqResMessage,
}
use whats_going_on.Wire.Codec.{decode_req_res_message_sequence}
use whats_going_on.Client.Rpc.{
  Failure, Outcome, done, thrown, ◌>>>◌, lift_result, ErrorValue, ProcCodec,
}
use whats_going_on.Client.Calls.{
  Readable, concat_chunks, read_all, auth_request, auth_response, authenticate_web_transport,
  decode_unary_response, encode_request_bytes, unary_request, send_unary, decode_payload,
  call_unary,
}

bind-done :
    {A B : Type 0} (r : Outcome A) (f : A → Outcome B) {b : B}
    → (r >>> f) ≡ done b
    → (a : A) × (r ≡ done a) × (f a ≡ done b)
bind-done (done a) f h = (a, refl, h)
bind-done (thrown e) f h = cc

lift_result-done : {A : Type 0} (r : Result A) {a : A} → lift_result r ≡ done a → r ≡ ok a
lift_result-done (ok a) h = cc
lift_result-done (err e) h = cc

done-injective : {A : Type 0} {a b : A} → done a ≡ done b → a ≡ b
done-injective h = cc

read_all-done :
    (r : Readable) {bs : Bytes}
    → read_all r ≡ done bs
    → (r.ends ≡ true) × (concat_chunks r.chunks ≡ bs)
unfolding read_all
read_all-done r h = elim (Bool-cases r.ends) [
  | inl e ↦ (e, done-injective (rw e at h))
  | inr e ↦ absurd (clash (rw e at h))
]
  where
    clash : {A : Type 0} {f : Failure} {a : A} → thrown f ≡ done a → ⊥
    clash e = cc

auth_response-done :
    (ms : List ReqResMessage)
    → auth_response ms ≡ done tt
    → (m : ReqResMessage) × (ms ≡ m ∷ []) × (m.kind ≡ kind_session_authenticated)
unfolding auth_response
auth_response-done [] h = cc
auth_response-done (m ∷ m' ∷ ms) h = cc
auth_response-done (m ∷ []) h = (m, refl, ground arith)

decode_unary_response-done :
    (p : Platform) (decode_error : Value → Result ErrorValue) (ms : List ReqResMessage)
    (o : Option Bytes)
    → decode_unary_response p decode_error ms ≡ done o
    → (m : ReqResMessage) × (ms ≡ m ∷ []) × (m.kind ≡ kind_response_unary_ok) × (m.payload ≡ o)
unfolding decode_unary_response
decode_unary_response-done p decode_error [] o h = cc
decode_unary_response-done p decode_error (m ∷ m' ∷ ms) o h = cc
decode_unary_response-done p decode_error (m ∷ []) o h = (m, refl, ground arith, ground arith)

-- `authenticateWebTransport` returns only if the answer arrived to its end and is exactly one message,
-- a `SessionAuthenticated`; what it wrote is then the request for these credentials.
pub authenticate_web_transport-done :
    (p : Platform) (client_id client_secret : Text) (answer : Readable) (written : Bytes)
    → authenticate_web_transport p client_id client_secret answer ≡ done (written, tt)
    → (answer.ends ≡ true)
      × (auth_request p client_id client_secret ≡ ok written)
      × (m : ReqResMessage) × (decode_req_res_message_sequence p (concat_chunks answer.chunks)
          ≡ ok (m ∷ []))
      × (m.kind ≡ kind_session_authenticated)
unfolding authenticate_web_transport
authenticate_web_transport-done p client_id client_secret answer written h =
    let (request, sent, h1) =
      bind-done (lift_result (auth_request p client_id client_secret)) _ h in
    let (bytes, came, h2) = bind-done (read_all answer) _ h1 in
    let (messages, decoded, h3) =
      bind-done (lift_result (decode_req_res_message_sequence p bytes)) _ h2 in
    let (u, accepted, h4) = bind-done (auth_response messages) _ h3 in
    let (ends, all) = read_all-done answer came in
    let (m, one, kind) = auth_response-done messages accepted in
    (
      ends,
      lift_result-done _ sent ∙ ap (λ t. ok t.0) (done-injective h4),
      m,
      ap (decode_req_res_message_sequence p) all ∙ (lift_result-done _ decoded ∙ ap ok one),
      kind,
    )

module _ {Request Response : Type 0} (p : Platform) (proc : ProcCodec Request Response) where
  send_unary-done :
      (payload : Option Bytes) (answer : Readable) (written : Bytes) (response : Option Bytes)
      → send_unary p proc payload answer ≡ done (written, response)
      → (answer.ends ≡ true)
        × (m : ReqResMessage) × (decode_req_res_message_sequence p (concat_chunks answer.chunks)
            ≡ ok (m ∷ []))
        × (m.kind ≡ kind_response_unary_ok)
        × (m.payload ≡ response)
        × (unary_request p proc payload ≡ ok written)
  unfolding send_unary
  send_unary-done payload answer written response h =
      let (request, sent, h1) = bind-done (lift_result (unary_request p proc payload)) _ h in
      let (bytes, came, h2) = bind-done (read_all answer) _ h1 in
      let (messages, decoded, h3) =
        bind-done (lift_result (decode_req_res_message_sequence p bytes)) _ h2 in
      let (taken, accepted, h4) =
        bind-done (decode_unary_response p proc.decode_error messages) _ h3 in
      let (ends, all) = read_all-done answer came in
      let (m, one, kind, payload) =
        decode_unary_response-done p proc.decode_error messages taken accepted in
      (
        ends,
        m,
        ap (decode_req_res_message_sequence p) all ∙ (lift_result-done _ decoded ∙ ap ok one),
        kind,
        payload ∙ ap (λ t. t.1) (done-injective h4),
        lift_result-done _ sent ∙ ap (λ t. ok t.0) (done-injective h4),
      )

  -- `callUnary` returns a response only if the answer arrived to its end and is exactly one message, a
  -- `ResponseUnaryOk`, and the response is what `decodeResponse` makes of this message's payload; what
  -- it wrote is then the call's request.
  pub call_unary-done :
      (request : Option Request) (answer : Readable) (written : Bytes) (response : Response)
      → call_unary p proc request answer ≡ done (written, response)
      → (answer.ends ≡ true)
        × (m : ReqResMessage) × (decode_req_res_message_sequence p (concat_chunks answer.chunks)
            ≡ ok (m ∷ []))
        × (m.kind ≡ kind_response_unary_ok)
        × (decode_payload p proc m.payload ≡ ok response)
        × (encode_request_bytes p proc request >>= unary_request p proc) ≡ ok written
  unfolding call_unary
  call_unary-done request answer written response h =
      let (payload, encoded, h1) =
        bind-done (lift_result (encode_request_bytes p proc request)) _ h in
      let ((request', taken), sent, h2) = bind-done (send_unary p proc payload answer) _ h1 in
      let (r, decoded, h3) = bind-done (lift_result (decode_payload p proc taken)) _ h2 in
      let (ends, m, one, kind, same, written') =
        send_unary-done payload answer request' taken sent in
      (
        ends,
        m,
        one,
        kind,
        ap (decode_payload p proc) same
            ∙ (lift_result-done _ decoded ∙ ap (λ t. ok t.1) (done-injective h3)),
        ap (λ r. r >>= unary_request p proc) (lift_result-done _ encoded)
            ∙ (written' ∙ ap (λ t. ok t.0) (done-injective h3)),
      )
