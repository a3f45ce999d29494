-- ===== src/Wire/RoundTrip.antt =====
-- web/src/protocol/wire.ts: a message is decoded from its own encoding.
use mathlib.Core.List.{append_assoc}
use whats_going_on.Prelude.{
  ℕ, zero, suc, ◌≤◌, ◌<◌, ◌≡◌, refl, true, List, [], ◌∷◌, ◌++◌, map, length, length-append,
  append-nil, All, arith,
}
use whats_going_on.Prelude.Int.{pos, negsuc}
use whats_going_on.Cbor.Value.{Number, int, float, Value, num, object, end, ok, Platform, Laws}
use whats_going_on.Cbor.Decode.{decode, set}
use whats_going_on.Cbor.Encode.{encode_cbor}
use whats_going_on.Cbor.Canonical.{canonical, Encodable}
use whats_going_on.Cbor.RoundTrip.{encode-Reads, decode_cbor-encode_cbor}
use whats_going_on.Cbor.Sequence.{sequence_loop, decode_cbor_sequence}
use whats_going_on.Wire.Message.{
  GeneratedReqRes, request_unary, request_stream_start, request_stream_chunk, response_stream_chunk,
  response_unary_ok, response_stream_start, response_unary_error, response_stream_error_end,
  session_authenticate, session_authenticated, session_auth_error, PairedSecretCredential,
  DatagramMessageKind, kind_ping, kind_pong, DatagramMessage,
}
use whats_going_on.Wire.Generated.{
  is_u53, union_value, encode_datagram_message_value, decode_datagram_message_value,
  encode_paired_secret_credential_value, decode_paired_secret_credential_value,
}
use whats_going_on.Wire.Codec.{
  to_generated_req_res_message, from_generated_req_res_message, from_generated_datagram,
  to_generated_datagram, encode_pair, decode_pair, decode_one, decode_pairs, is_even,
  encode_req_res_message, encode_req_res_message_sequence, decode_req_res_message,
  decode_req_res_message_sequence, encode_datagram_message, decode_datagram_message,
  encode_paired_secret_credential, decode_paired_secret_credential,
}
use whats_going_on.Wire.Fields.{IsText, Sendable}
use whats_going_on.Wire.Valued.{message-Valued}

pub to_generated-from_generated :
    (g : GeneratedReqRes) → to_generated_req_res_message (from_generated_req_res_message g) ≡ ok g
unfolding to_generated_req_res_message from_generated_req_res_message
to_generated-from_generated (request_unary id bs) = refl
to_generated-from_generated (request_stream_start id bs) = refl
to_generated-from_generated (request_stream_chunk bs) = refl
to_generated-from_generated (response_unary_ok bs) = refl
to_generated-from_generated (response_unary_error e k) = refl
to_generated-from_generated (response_stream_start bs) = refl
to_generated-from_generated (response_stream_chunk bs) = refl
to_generated-from_generated (response_stream_error_end e k) = refl
to_generated-from_generated (session_authenticate s bs) = refl
to_generated-from_generated session_authenticated = refl
to_generated-from_generated (session_auth_error c s) = refl

module _ (p : Platform) where
  -- The loop of `decodeCborSequence` reads the values from the bytes.
  abbrev Spells : List ℕ → List Value → Type 0
  Spells bs vs = (f : ℕ) → length bs < f → sequence_loop p f bs ≡ ok vs

  nil-Spells : Spells [] []
  unfolding sequence_loop
  nil-Spells zero h = absurd (omega (arith, h))
  nil-Spells (suc f) h = refl

  cons-Spells :
      (bs rest : List ℕ) (v : Value) (vs : List Value)
      → ((f : ℕ) (ys : List ℕ) → length bs ≤ f → decode p f (bs ++ ys) ≡ ok (v, ys))
      → Spells rest vs
      → Spells (bs ++ rest) (v ∷ vs)
  unfolding sequence_loop decode
  cons-Spells [] rest v vs reads more f h = cc (reads 0 [] (omega arith))
  cons-Spells (b ∷ bs) rest v vs reads more zero h = absurd (omega (arith, h))
  cons-Spells (b ∷ bs) rest v vs reads more (suc f) h =
      rw
        (
          reads (suc f) rest (omega (arith, h, length-append bs rest)),
          more f (omega (arith, h, length-append bs rest)),
        )
        refl

  module _ (laws : Laws p) where
    -- What the encodings of some messages are decoded to.
    record Sent (gs : List GeneratedReqRes) : Type 0 where
      sent : List ℕ
      values : List Value
      encodes : encode_req_res_message_sequence p (map from_generated_req_res_message gs) ≡ ok sent
      spells : Spells sent values
      even : is_even values ≡ true
      decodes : decode_pairs values ≡ ok (map from_generated_req_res_message gs)

    messages-Sent : (gs : List GeneratedReqRes) → All (Sendable p) gs → Sent gs
    unfolding encode_req_res_message_sequence encode_req_res_message encode_pair encode_cbor
        decode_pairs decode_pair canonical
    messages-Sent [] h = record {
      sent = [];
      values = [];
      encodes = refl;
      spells = nil-Spells;
      even = refl;
      decodes = refl;
    }
    messages-Sent (g ∷ gs) h =
        let later = messages-Sent gs h.1 in
        let valued = message-Valued p g h.0 in
        let (bs, e, reads) = encode-Reads p laws (num (int (pos valued.id))) valued.id_Encodable in
        let (cs, e', reads') = encode-Reads p laws (object valued.fields) valued.fields_Encodable in
        record {
          sent = (bs ++ cs) ++ later.sent;
          values = num (int (pos valued.id)) ∷ canonical (object valued.fields) ∷ later.values;
          encodes = rw (to_generated-from_generated g, valued.encodes, e, e', later.encodes) refl;
          spells = rw (append_assoc bs cs later.sent) (
              cons-Spells bs (cs ++ later.sent) _ _ reads
                (cons-Spells cs later.sent _ _ reads' later.spells));
          even = later.even;
          decodes = rw (valued.decodes, later.decodes) refl;
        }

    -- On a platform that keeps its documented laws, messages that may be sent are encoded, and
    -- `decodeReqResMessageSequence` reads them back from the bytes.
    pub decode_req_res_message_sequence-encode_req_res_message_sequence :
        (gs : List GeneratedReqRes)
        → All (Sendable p) gs
        → (bs : List ℕ) × (encode_req_res_message_sequence p (map from_generated_req_res_message gs)
            ≡ ok bs)
          × (decode_req_res_message_sequence p bs ≡ ok (map from_generated_req_res_message gs))
    unfolding decode_req_res_message_sequence decode_cbor_sequence
    decode_req_res_message_sequence-encode_req_res_message_sequence gs h =
        let m = messages-Sent gs h in
        (m.sent, m.encodes, rw (m.spells (suc (length m.sent)) (omega arith), m.even) m.decodes)

    -- On a platform that keeps its documented laws, a message that may be sent is encoded, and
    -- `decodeReqResMessage` reads it back from the bytes.
    pub decode_req_res_message-encode_req_res_message :
        (g : GeneratedReqRes)
        → Sendable p g
        → (bs : List ℕ) × (encode_req_res_message p (from_generated_req_res_message g) ≡ ok bs)
          × (decode_req_res_message p bs ≡ ok (from_generated_req_res_message g))
    unfolding encode_req_res_message encode_pair encode_cbor decode_req_res_message
        decode_cbor_sequence decode_one decode_pair canonical
    decode_req_res_message-encode_req_res_message g h =
        let valued = message-Valued p g h in
        let (bs, e, reads) = encode-Reads p laws (num (int (pos valued.id))) valued.id_Encodable in
        let (cs, e', reads') = encode-Reads p laws (object valued.fields) valued.fields_Encodable in
        let values = num (int (pos valued.id)) ∷ canonical (object valued.fields) ∷ [] in
        let spells : Spells (bs ++ cs) values =
          cons-Spells bs cs _ _ reads
            (rw append-nil at (cons-Spells cs [] _ _ reads' nil-Spells)) in
        (
          bs ++ cs,
          rw (to_generated-from_generated g, valued.encodes, e, e') refl,
          rw (spells (suc (length (bs ++ cs))) (omega arith), valued.decodes) refl,
        )

    -- A credential of two well-formed texts without a leading byte order mark is read back.
    pub decode_paired_secret_credential-encode_paired_secret_credential :
        (c : PairedSecretCredential)
        → IsText p c.credential_id
        → IsText p c.credential_secret
        → (bs : List ℕ) × (encode_paired_secret_credential p c ≡ ok bs)
          × (decode_paired_secret_credential p bs ≡ ok c)
    unfolding encode_paired_secret_credential decode_paired_secret_credential
        encode_paired_secret_credential_value decode_paired_secret_credential_value canonical
        Encodable
    decode_paired_secret_credential-encode_paired_secret_credential c h k =
        let (bs, e, d) =
          decode_cbor-encode_cbor p laws (encode_paired_secret_credential_value c)
            (omega arith, (refl, refl, (h.0, h.1), (refl, refl, (k.0, k.1), tt))) in
        (bs, e, rw (d, h.2, k.2) refl)

    -- A ping or a pong with a safe unsigned id is read back.
    pub decode_datagram_message-encode_datagram_message :
        (m : DatagramMessage)
        → is_u53 m.ping_id ≡ true
        → (bs : List ℕ) × (encode_datagram_message p m ≡ ok bs)
          × (decode_datagram_message p bs ≡ ok m)
    unfolding encode_datagram_message decode_datagram_message to_generated_datagram
        from_generated_datagram encode_datagram_message_value decode_datagram_message_value
        canonical Encodable
    decode_datagram_message-encode_datagram_message m h = go m.kind m.ping_id h
      where
        go :
            (k : DatagramMessageKind) (id : Number)
            → is_u53 id ≡ true
            → (bs : List ℕ) × (encode_datagram_message p (record { kind = k; ping_id = id })
                ≡ ok bs)
              × (decode_datagram_message p bs ≡ ok (record { kind = k; ping_id = id }))
        go kind_ping (int (pos n)) e =
            let (bs, w, d) =
              decode_cbor-encode_cbor p laws (union_value 1 (set end (pos 1) (num (int (pos n)))))
                (omega arith, (refl, ((omega arith, (refl, refl, e, tt)), tt))) in
            (bs, rw e w, rw (d, e) refl)
        go kind_pong (int (pos n)) e =
            let (bs, w, d) =
              decode_cbor-encode_cbor p laws (union_value 2 (set end (pos 1) (num (int (pos n)))))
                (omega arith, (refl, ((omega arith, (refl, refl, e, tt)), tt))) in
            (bs, rw e w, rw (d, e) refl)
        go k (int (negsuc n)) e = cc
        go k (float b) e = cc
