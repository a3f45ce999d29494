-- ===== src/Client/Writes.antt =====
-- web/src/protocol/client.ts: the writes of `sendClientStream` are one sequence of messages.
use whats_going_on.Prelude.{
  ◌≡◌, refl, sym, ap, ◌∙◌, true, false, some, List, [], ◌∷◌, ◌++◌, map, All, append-nil, length,
  suc,
}
use whats_going_on.Cbor.Value.{ok, Platform, Laws}
use whats_going_on.Cbor.Incremental.{ok-injective, bind-eq-ok}
use whats_going_on.Wire.Message.{Bytes, request_stream_start, request_stream_chunk, ReqResMessage}
use whats_going_on.Wire.Generated.{is_u53}
use whats_going_on.Wire.Codec.{
  from_generated_req_res_message, encode_req_res_message, encode_req_res_message_sequence,
  decode_req_res_message_sequence,
}
use whats_going_on.Wire.Fields.{Sendable, IsBytes}
use whats_going_on.Wire.RoundTrip.{decode_req_res_message_sequence-encode_req_res_message_sequence}
use whats_going_on.Client.Rpc.{done, ProcCodec}
use whats_going_on.Client.Calls.{concat_chunks, stream_message, stream_writes}

-- One message's write, and the rest of a sequence.
sequence-split :
    (p : Platform) (m : ReqResMessage) (ms : List ReqResMessage) {bs : Bytes}
    → encode_req_res_message_sequence p (m ∷ ms) ≡ ok bs
    → (head : Bytes) × (tail : Bytes) × (encode_req_res_message_sequence p (m ∷ []) ≡ ok head)
      × (encode_req_res_message_sequence p ms ≡ ok tail)
      × (bs ≡ head ++ tail)
unfolding encode_req_res_message_sequence
sequence-split p m ms h =
    let (head, e, h1) = bind-eq-ok (encode_req_res_message p m) _ h in
    let (tail, e', h2) = bind-eq-ok (encode_req_res_message_sequence p ms) _ h1 in
    (head, tail, rw e (ap ok (append-nil head)), e', sym (ok-injective h2))

module _ {Request Response : Type 0} (p : Platform) (proc : ProcCodec Request Response) where
  abbrev chunk_messages : List Bytes → List ReqResMessage
  chunk_messages payloads = map (stream_message p proc true) payloads

  chunks-Written :
      (payloads : List Bytes) {bs : Bytes}
      → encode_req_res_message_sequence p (chunk_messages payloads) ≡ ok bs
      → (writes : List Bytes) × (stream_writes p proc true payloads ≡ done writes)
        × (length writes ≡ length payloads)
        × (concat_chunks writes ≡ bs)
  unfolding stream_writes
  chunks-Written [] h = ([], refl, refl, ok-injective (unfold encode_req_res_message_sequence in h))
  chunks-Written (payload ∷ payloads) h =
      let (head, tail, e, e', same) =
        sequence-split p (stream_message p proc true payload) (chunk_messages payloads) h in
      let (writes, later, count, all) = chunks-Written payloads e' in
      (head ∷ writes, rw (e, later) refl, ap suc count, ap (λ t. head ++ t) all ∙ sym same)

  generated_chunks :
      (payloads : List Bytes)
      → map from_generated_req_res_message (map request_stream_chunk payloads)
        ≡ chunk_messages payloads
  unfolding from_generated_req_res_message stream_message
  generated_chunks [] = refl
  generated_chunks (payload ∷ payloads) =
      ap (λ t. stream_message p proc true payload ∷ t) (generated_chunks payloads)

  chunks-Sendable :
      (payloads : List Bytes)
      → All IsBytes payloads
      → All (Sendable p) (map request_stream_chunk payloads)
  chunks-Sendable [] h = tt
  chunks-Sendable (payload ∷ payloads) h = (h.0, chunks-Sendable payloads h.1)

  -- On a platform that keeps its documented laws, `sendClientStream` of a procedure with a safe
  -- unsigned id makes one write for each of its payloads, which are bytes of an admitted length
  -- and of which there is at least one, and `decodeReqResMessageSequence` reads the writes, put
  -- together, as a `RequestStreamStart` of this procedure with the first payload and a
  -- `RequestStreamChunk` for each of the others, in their order.
  pub stream_writes-decode :
      Laws p
      → (payload : Bytes) (payloads : List Bytes) → is_u53 proc.id ≡ true
      → IsBytes payload
      → All IsBytes payloads
      → (writes : List Bytes) × (stream_writes p proc false (payload ∷ payloads) ≡ done writes)
        × (length writes ≡ suc (length payloads))
        × (decode_req_res_message_sequence p (concat_chunks writes)
            ≡ ok (
                map from_generated_req_res_message (
                  request_stream_start proc.id (some payload) ∷ map request_stream_chunk payloads)))
  unfolding stream_writes from_generated_req_res_message stream_message
  stream_writes-decode laws payload payloads hid hp hps =
      let gs = request_stream_start proc.id (some payload) ∷ map request_stream_chunk payloads in
      let (bs, e, d) =
        decode_req_res_message_sequence-encode_req_res_message_sequence p laws gs
          ((hid, hp), chunks-Sendable payloads hps) in
      let (head, tail, e1, e2, same) =
        sequence-split p (stream_message p proc false payload)
          (map from_generated_req_res_message (map request_stream_chunk payloads)) e in
      let (writes, later, count, all) =
        chunks-Written payloads (rw (generated_chunks payloads) at e2) in
      (
        head ∷ writes,
        rw (e1, later) refl,
        ap suc count,
        ap (decode_req_res_message_sequence p) (ap (λ t. head ++ t) all ∙ sym same) ∙ d,
      )
