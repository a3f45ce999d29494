-- ===== src/Wire/Codec.antt =====
-- web/src/protocol/wire.ts, lines 63-310: messages as bytes, one after another on a stream.
use whats_going_on.Prelude.{
  ℕ, Bool, true, false, Option, none, some, List, [], ◌∷◌, ◌++◌, if◌then◌else◌,
}
use whats_going_on.Cbor.Value.{
  Value, array, nil, cons, Result, ok, err, ◌>>=◌, Platform, missing_field, expected_union,
  expected_message_pair, expected_message_pairs,
}
use whats_going_on.Cbor.Encode.{encode_cbor}
use whats_going_on.Cbor.Decode.{decode_cbor}
use whats_going_on.Cbor.Sequence.{PrefixItem, decode_cbor_sequence, decode_cbor_sequence_prefix}
use whats_going_on.Wire.Message.{
  GeneratedReqRes, request_unary, request_stream_start, request_stream_chunk, response_stream_chunk,
  response_unary_ok, response_stream_start, response_unary_error, response_stream_error_end,
  session_authenticate, session_authenticated, session_auth_error, GeneratedDatagram, ping, pong,
  PairedSecretCredential, ReqResMessageKind, kind_request_unary, kind_request_stream_start,
  kind_request_stream_chunk, kind_response_unary_ok, kind_response_unary_error,
  kind_response_stream_start, kind_response_stream_chunk, kind_response_stream_error_end,
  kind_session_authenticate, kind_session_authenticated, kind_session_auth_error, ReqResMessage,
  kind_ping, kind_pong, DatagramMessage,
}
use whats_going_on.Wire.Generated.{
  encode_req_res_message_value, decode_req_res_message_value, encode_datagram_message_value,
  decode_datagram_message_value, encode_paired_secret_credential_value,
  decode_paired_secret_credential_value,
}

abbrev pub required {ℓ} : {A : Type ℓ} → Option A → Result A
required none = err missing_field
required (some a) = ok a

unfoldable pub to_generated_req_res_message : ReqResMessage → Result GeneratedReqRes
to_generated_req_res_message m = elim m.kind [
  | kind_request_unary ↦ required m.proc_id >>= λ id. ok (request_unary id m.payload)
  | kind_request_stream_start ↦ required m.proc_id >>= λ id. ok (request_stream_start id m.payload)
  | kind_request_stream_chunk ↦ required m.payload >>= λ bs. ok (request_stream_chunk bs)
  | kind_response_unary_ok ↦ ok (response_unary_ok m.payload)
  | kind_response_unary_error ↦
      required m.error >>= λ e. required m.error_kind >>= λ k. ok (response_unary_error e k)
  | kind_response_stream_start ↦ ok (response_stream_start m.payload)
  | kind_response_stream_chunk ↦ required m.payload >>= λ bs. ok (response_stream_chunk bs)
  | kind_response_stream_error_end ↦
      required m.error >>= λ e. required m.error_kind >>= λ k. ok (response_stream_error_end e k)
  | kind_session_authenticate ↦
      required m.mechanism >>= λ s. required m.payload >>= λ bs. ok (session_authenticate s bs)
  | kind_session_authenticated ↦ ok session_authenticated
  | kind_session_auth_error ↦
      required m.auth_error_code >>= λ c. required m.message >>= λ s. ok (session_auth_error c s)
]

-- A message with its kind only.
abbrev pub of_kind : ReqResMessageKind → ReqResMessage
of_kind k = record {
  kind = k;
  proc_id = none;
  payload = none;
  error = none;
  error_kind = none;
  mechanism = none;
  auth_error_code = none;
  message = none;
}

unfoldable pub from_generated_req_res_message : GeneratedReqRes → ReqResMessage
from_generated_req_res_message (request_unary id bs) = record (of_kind kind_request_unary) {
  proc_id = some id;
  payload = bs;
}
from_generated_req_res_message (request_stream_start id bs) =
    record (of_kind kind_request_stream_start) { proc_id = some id; payload = bs }
from_generated_req_res_message (request_stream_chunk bs) =
    record (of_kind kind_request_stream_chunk) { payload = some bs }
from_generated_req_res_message (response_unary_ok bs) = record (of_kind kind_response_unary_ok) {
  payload = bs;
}
from_generated_req_res_message (response_unary_error e k) =
    record (of_kind kind_response_unary_error) { error = some e; error_kind = some k }
from_generated_req_res_message (response_stream_start bs) =
    record (of_kind kind_response_stream_start) { payload = bs }
from_generated_req_res_message (response_stream_chunk bs) =
    record (of_kind kind_response_stream_chunk) { payload = some bs }
from_generated_req_res_message (response_stream_error_end e k) =
    record (of_kind kind_response_stream_error_end) { error = some e; error_kind = some k }
from_generated_req_res_message (session_authenticate s bs) =
    record (of_kind kind_session_authenticate) { mechanism = some s; payload = some bs }
from_generated_req_res_message session_authenticated = of_kind kind_session_authenticated
from_generated_req_res_message (session_auth_error c s) = record (of_kind kind_session_auth_error) {
  auth_error_code = some c;
  message = some s;
}

unfoldable pub to_generated_datagram : DatagramMessage → GeneratedDatagram
to_generated_datagram m = elim m.kind [ kind_ping ↦ ping m.ping_id | kind_pong ↦ pong m.ping_id ]

unfoldable pub from_generated_datagram : GeneratedDatagram → DatagramMessage
from_generated_datagram (ping id) = record { kind = kind_ping; ping_id = id }
from_generated_datagram (pong id) = record { kind = kind_pong; ping_id = id }

-- `concat([encodeCbor(value[0]!), encodeCbor(value[1]!)])`.
unfoldable pub encode_pair : Platform → Value → Result (List ℕ)
unfolding encode_cbor
encode_pair p (array (cons v (cons w nil))) = do
  head ← encode_cbor p v
  tail ← encode_cbor p w
  ok (head ++ tail)
encode_pair p _ = err expected_union

unfoldable pub decode_pair : Value → Value → Result ReqResMessage
unfolding decode_req_res_message_value from_generated_req_res_message
decode_pair v w = do
  g ← decode_req_res_message_value (array (cons v (cons w nil)))
  ok (from_generated_req_res_message g)

unfoldable pub decode_one : List Value → Result ReqResMessage
unfolding decode_pair
decode_one (v ∷ w ∷ []) = decode_pair v w
decode_one _ = err expected_message_pair

-- The loop over the pairs. `values.length % 2` is tested before any pair is decoded.
unfoldable pub decode_pairs : List Value → Result (List ReqResMessage)
unfolding decode_pair
decode_pairs [] = ok []
decode_pairs (v ∷ []) = ok []
decode_pairs (v ∷ w ∷ values) = do m ← decode_pair v w; ms ← decode_pairs values; ok (m ∷ ms)

abbrev pub is_even {ℓ} : {A : Type ℓ} → List A → Bool
is_even [] = true
is_even (a ∷ []) = false
is_even (a ∷ b ∷ rest) = is_even rest

abbrev pub values_of : List PrefixItem → List Value
values_of [] = []
values_of (item ∷ items) = item.value ∷ values_of items

-- The end of the last whole pair.
abbrev pub read_bytes_of : List PrefixItem → ℕ
read_bytes_of [] = 0
read_bytes_of (a ∷ []) = 0
read_bytes_of (a ∷ b ∷ []) = b.end_offset
read_bytes_of (a ∷ b ∷ c ∷ []) = b.end_offset
read_bytes_of (a ∷ b ∷ c ∷ d ∷ items) = read_bytes_of (c ∷ d ∷ items)

module _ (p : Platform) where
  unfoldable pub encode_req_res_message : ReqResMessage → Result (List ℕ)
  unfolding to_generated_req_res_message encode_req_res_message_value encode_pair
  encode_req_res_message m = do
    g ← to_generated_req_res_message m
    value ← encode_req_res_message_value g
    encode_pair p value

  unfoldable pub encode_req_res_message_sequence : List ReqResMessage → Result (List ℕ)
  unfolding encode_req_res_message
  encode_req_res_message_sequence [] = ok []
  encode_req_res_message_sequence (m ∷ ms) = do
    bs ← encode_req_res_message m
    rest ← encode_req_res_message_sequence ms
    ok (bs ++ rest)

  unfoldable pub decode_req_res_message : List ℕ → Result ReqResMessage
  unfolding decode_cbor_sequence decode_one
  decode_req_res_message bs = decode_cbor_sequence p bs >>= decode_one

  unfoldable pub decode_req_res_message_sequence : List ℕ → Result (List ReqResMessage)
  unfolding decode_cbor_sequence decode_pairs
  decode_req_res_message_sequence bs = do
    values ← decode_cbor_sequence p bs
    if is_even values then decode_pairs values else err expected_message_pairs

  -- The messages, and `readBytes`.
  unfoldable pub decode_req_res_message_sequence_prefix : List ℕ → Result (List ReqResMessage × ℕ)
  unfolding decode_cbor_sequence_prefix decode_pairs
  decode_req_res_message_sequence_prefix bs = do
    items ← decode_cbor_sequence_prefix p bs
    messages ← decode_pairs (values_of items)
    ok (messages, read_bytes_of items)

  unfoldable pub encode_datagram_message : DatagramMessage → Result (List ℕ)
  unfolding to_generated_datagram encode_datagram_message_value encode_cbor
  encode_datagram_message m =
      encode_datagram_message_value (to_generated_datagram m) >>= λ v. encode_cbor p v

  unfoldable pub decode_datagram_message : List ℕ → Result DatagramMessage
  unfolding decode_cbor decode_datagram_message_value from_generated_datagram
  decode_datagram_message bs = do
    v ← decode_cbor p bs
    g ← decode_datagram_message_value v
    ok (from_generated_datagram g)

  unfoldable pub encode_paired_secret_credential : PairedSecretCredential → Result (List ℕ)
  unfolding encode_cbor encode_paired_secret_credential_value
  encode_paired_secret_credential c = encode_cbor p (encode_paired_secret_credential_value c)

  unfoldable pub decode_paired_secret_credential : List ℕ → Result PairedSecretCredential
  unfolding decode_cbor decode_paired_secret_credential_value
  decode_paired_secret_credential bs = decode_cbor p bs >>= decode_paired_secret_credential_value
