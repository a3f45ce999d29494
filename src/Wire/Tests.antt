-- ===== src/Wire/Tests.antt =====
-- The theorems on messages at concrete inputs.
use whats_going_on.Prelude.{length, ◌++◌, ℕ, ◌≡◌, refl, some, List, [], ◌∷◌, map, arith}
use whats_going_on.Prelude.Int.{pos}
use whats_going_on.Cbor.Value.{int, ok}
use whats_going_on.Cbor.Sample.{platform, platform-Laws}
use whats_going_on.Wire.Message.{
  GeneratedReqRes, request_unary, session_auth_error, invalid_credentials, PairedSecretCredential,
  DatagramMessage, kind_pong,
}
use whats_going_on.Wire.Codec.{
  decode_req_res_message_sequence_prefix, from_generated_req_res_message, encode_req_res_message,
  encode_req_res_message_sequence, decode_req_res_message, decode_req_res_message_sequence,
  encode_datagram_message, decode_datagram_message, encode_paired_secret_credential,
  decode_paired_secret_credential,
}
use whats_going_on.Cbor.Sequence.{decode_cbor_sequence_prefix}
use whats_going_on.Wire.Stream.{decode_req_res_message_sequence_prefix-append}
use whats_going_on.Wire.Fields.{Sendable, IsText}
use whats_going_on.Wire.RoundTrip.{
  decode_req_res_message-encode_req_res_message,
  decode_req_res_message_sequence-encode_req_res_message_sequence,
  decode_paired_secret_credential-encode_paired_secret_credential,
  decode_datagram_message-encode_datagram_message,
}

abbrev request : GeneratedReqRes
request = request_unary (int (pos 7)) (some (1 ∷ 2 ∷ []))

abbrev refusal : GeneratedReqRes
refusal = session_auth_error invalid_credentials (0x6e ∷ 0x6f ∷ [])

request-Sendable : Sendable platform request
request-Sendable = (refl, ((omega arith, (omega arith, tt)), omega arith))

word-IsText : IsText platform (0x6e ∷ 0x6f ∷ [])
word-IsText = (refl, omega arith, refl)

decode_req_res_message-encode_req_res_message_example :
    (bs : List ℕ) × (encode_req_res_message platform (from_generated_req_res_message request)
      ≡ ok bs)
    × (decode_req_res_message platform bs ≡ ok (from_generated_req_res_message request))
decode_req_res_message-encode_req_res_message_example =
    decode_req_res_message-encode_req_res_message platform platform-Laws request request-Sendable

decode_req_res_message_sequence-encode_req_res_message_sequence_example :
    (bs : List ℕ) × (encode_req_res_message_sequence platform
        (map from_generated_req_res_message (request ∷ refusal ∷ []))
      ≡ ok bs)
    × (decode_req_res_message_sequence platform bs
        ≡ ok (map from_generated_req_res_message (request ∷ refusal ∷ [])))
decode_req_res_message_sequence-encode_req_res_message_sequence_example =
    decode_req_res_message_sequence-encode_req_res_message_sequence platform platform-Laws
      (request ∷ refusal ∷ []) (request-Sendable, (word-IsText, tt))

abbrev credential : PairedSecretCredential
credential = record { credential_id = 0x6e ∷ 0x6f ∷ []; credential_secret = 0x6e ∷ 0x6f ∷ [] }

decode_paired_secret_credential-encode_paired_secret_credential_example :
    (bs : List ℕ) × (encode_paired_secret_credential platform credential ≡ ok bs)
    × (decode_paired_secret_credential platform bs ≡ ok credential)
decode_paired_secret_credential-encode_paired_secret_credential_example =
    decode_paired_secret_credential-encode_paired_secret_credential platform platform-Laws
      credential word-IsText word-IsText

abbrev datagram : DatagramMessage
datagram = record { kind = kind_pong; ping_id = int (pos 300) }

decode_datagram_message-encode_datagram_message_example :
    (bs : List ℕ) × (encode_datagram_message platform datagram ≡ ok bs)
    × (decode_datagram_message platform bs ≡ ok datagram)
decode_datagram_message-encode_datagram_message_example =
    decode_datagram_message-encode_datagram_message platform platform-Laws datagram refl

-- The first two bytes of an item of three.
abbrev cut_item : List ℕ
cut_item = 0x19 ∷ 3 ∷ []

decode_req_res_message_sequence_prefix-append_example :
    (bs : List ℕ) × (encode_req_res_message_sequence platform
        (map from_generated_req_res_message (request ∷ refusal ∷ []))
      ≡ ok bs)
    × (decode_req_res_message_sequence_prefix platform (bs ++ cut_item)
        ≡ ok (map from_generated_req_res_message (request ∷ refusal ∷ []), length bs))
unfolding decode_cbor_sequence_prefix
decode_req_res_message_sequence_prefix-append_example =
    decode_req_res_message_sequence_prefix-append platform platform-Laws cut_item
      (omega arith, (omega arith, tt)) refl (request ∷ refusal ∷ [])
      (request-Sendable, (word-IsText, tt))
