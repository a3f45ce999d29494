-- ===== src/Wire/Generated.antt =====
-- web/src/protocol/generated/wire.ts, lines 53-576: messages as CBOR values. A field's type is its
-- model's type, so `required`, `text` and `bytes` throw nothing there.
use whats_going_on.Prelude.{ℕ, Bool, false, Option, none, some, [], if◌then◌else◌}
use whats_going_on.Prelude.Int.{ℤ, pos, ◌==ℤ◌}
use whats_going_on.Cbor.Value.{
  Number, int, Value, num, text, bytes, array, object, nil, cons, Entries, end, entry, Result, ok,
  err, ◌>>=◌, is_safe_integer, expected_map, expected_union, expected_integer, expected_text,
  expected_bytes, expected_u53, unknown_variant,
}
use whats_going_on.Cbor.Decode.{set}
use whats_going_on.Wire.Message.{
  Bytes, Text, SessionAuthErrorCode, unsupported_mechanism, invalid_credentials, malformed_payload,
  already_authenticated, RpcErrorKind, system, method, GeneratedReqRes, request_unary,
  request_stream_start, request_stream_chunk, response_stream_chunk, response_unary_ok,
  response_stream_start, response_unary_error, response_stream_error_end, session_authenticate,
  session_authenticated, session_auth_error, GeneratedDatagram, ping, pong, PairedSecretCredential,
}

-- `Map.get`.
abbrev pub get : Entries → ℤ → Option Value
get end k = none
get (entry j v es) k = if j ==ℤ k then some v else get es k

unfoldable pub expect_map : Value → Result Entries
expect_map (object es) = ok es
expect_map _ = err expected_map

unfoldable pub integer : Value → Result ℤ
integer (num (int z)) = if is_safe_integer z then ok z else err expected_integer
integer _ = err expected_integer

unfoldable pub expect_union : Value → Result (ℤ × Entries)
unfolding integer expect_map
expect_union (array (cons v (cons w nil))) = do
  id ← integer v
  fields ← expect_map w
  ok (id, fields)
expect_union _ = err expected_union

unfoldable pub text_value : Value → Result Text
text_value (text s) = ok s
text_value _ = err expected_text

unfoldable pub bytes_value : Value → Result Bytes
bytes_value (bytes bs) = ok bs
bytes_value _ = err expected_bytes

-- `integer` where the result is a `number`.
unfoldable pub number_value : Value → Result Number
unfolding integer
number_value v = do z ← integer v; ok (int z)

abbrev pub optional_field {ℓ} : {A : Type ℓ} → Option Value → (Value → Result A) → Result (Option A)
optional_field none decode = ok none
optional_field (some v) decode = decode v >>= λ a. ok (some a)

abbrev pub field_or_default {ℓ} : {A : Type ℓ} → Option Value → (Value → Result A) → A → Result A
field_or_default none decode fallback = ok fallback
field_or_default (some v) decode fallback = decode v

abbrev pub is_u53 : Number → Bool
is_u53 (int (pos n)) = is_safe_integer (pos n)
is_u53 _ = false

unfoldable pub u53 : Number → Result Value
u53 x = if is_u53 x then ok (num x) else err expected_u53

abbrev pub auth_error_code_id : SessionAuthErrorCode → ℕ
auth_error_code_id unsupported_mechanism = 1
auth_error_code_id invalid_credentials = 2
auth_error_code_id malformed_payload = 3
auth_error_code_id already_authenticated = 4

unfoldable pub encode_session_auth_error_code_value : SessionAuthErrorCode → Value
encode_session_auth_error_code_value code = num (int (pos (auth_error_code_id code)))

unfoldable pub decode_session_auth_error_code_value : Value → Result SessionAuthErrorCode
unfolding integer
decode_session_auth_error_code_value v = do
  id ← integer v
  if id ==ℤ pos 1
      then ok unsupported_mechanism
      else if id ==ℤ pos 2
      then ok invalid_credentials
      else if id ==ℤ pos 3
      then ok malformed_payload
      else if id ==ℤ pos 4
      then ok already_authenticated
      else err unknown_variant

abbrev pub rpc_error_kind_id : RpcErrorKind → ℕ
rpc_error_kind_id system = 1
rpc_error_kind_id method = 2

unfoldable pub encode_rpc_error_kind_value : RpcErrorKind → Value
encode_rpc_error_kind_value kind = num (int (pos (rpc_error_kind_id kind)))

unfoldable pub decode_rpc_error_kind_value : Value → Result RpcErrorKind
unfolding integer
decode_rpc_error_kind_value v = do
  id ← integer v
  if id ==ℤ pos 1 then ok system else if id ==ℤ pos 2 then ok method else err unknown_variant

-- `if (value.payload !== undefined) fields.set(2, bytes(value.payload))`.
abbrev pub set_optional : Entries → ℤ → Option Bytes → Entries
set_optional fields key none = fields
set_optional fields key (some bs) = set fields key (bytes bs)

-- `[id, fields]`.
abbrev pub union_value : ℕ → Entries → Value
union_value id fields = array (cons (num (int (pos id))) (cons (object fields) nil))

unfoldable pub encode_req_res_message_value : GeneratedReqRes → Result Value
unfolding u53 encode_rpc_error_kind_value encode_session_auth_error_code_value
encode_req_res_message_value (request_unary proc_id payload) = do
  v ← u53 proc_id
  ok (union_value 0 (set_optional (set end (pos 1) v) (pos 2) payload))
encode_req_res_message_value (request_stream_start proc_id payload) = do
  v ← u53 proc_id
  ok (union_value 1 (set_optional (set end (pos 1) v) (pos 2) payload))
encode_req_res_message_value (request_stream_chunk payload) =
    ok (union_value 2 (set end (pos 2) (bytes payload)))
encode_req_res_message_value (response_unary_ok payload) =
    ok (union_value 3 (set_optional end (pos 2) payload))
encode_req_res_message_value (response_unary_error error kind) =
    ok (
      union_value 4
        (set (set end (pos 3) (bytes error)) (pos 4) (encode_rpc_error_kind_value kind)))
encode_req_res_message_value (response_stream_start payload) =
    ok (union_value 5 (set_optional end (pos 2) payload))
encode_req_res_message_value (response_stream_chunk payload) =
    ok (union_value 6 (set end (pos 2) (bytes payload)))
encode_req_res_message_value (response_stream_error_end error kind) =
    ok (
      union_value 7
        (set (set end (pos 3) (bytes error)) (pos 4) (encode_rpc_error_kind_value kind)))
encode_req_res_message_value (session_authenticate mechanism payload) =
    ok (union_value 8 (set (set end (pos 1) (text mechanism)) (pos 2) (bytes payload)))
encode_req_res_message_value session_authenticated = ok (union_value 9 end)
encode_req_res_message_value (session_auth_error code message) = ok (
    union_value 10
      (set (set end (pos 1) (encode_session_auth_error_code_value code)) (pos 2) (text message)))

-- The variants by shape.
abbrev decode_request : (Number → Option Bytes → GeneratedReqRes) → Entries → Result GeneratedReqRes
unfolding number_value bytes_value
decode_request make fields = do
  proc_id ← field_or_default (get fields (pos 1)) number_value (int (pos 0))
  payload ← optional_field (get fields (pos 2)) bytes_value
  ok (make proc_id payload)

abbrev decode_chunk : (Bytes → GeneratedReqRes) → Entries → Result GeneratedReqRes
unfolding bytes_value
decode_chunk make fields = do
  payload ← field_or_default (get fields (pos 2)) bytes_value []
  ok (make payload)

abbrev decode_response : (Option Bytes → GeneratedReqRes) → Entries → Result GeneratedReqRes
unfolding bytes_value
decode_response make fields = do
  payload ← optional_field (get fields (pos 2)) bytes_value
  ok (make payload)

abbrev decode_failure : (Bytes → RpcErrorKind → GeneratedReqRes) → Entries → Result GeneratedReqRes
unfolding bytes_value decode_rpc_error_kind_value
decode_failure make fields = do
  error ← field_or_default (get fields (pos 3)) bytes_value []
  kind ← field_or_default (get fields (pos 4)) decode_rpc_error_kind_value system
  ok (make error kind)

abbrev decode_authenticate : Entries → Result GeneratedReqRes
unfolding text_value bytes_value
decode_authenticate fields = do
  mechanism ← field_or_default (get fields (pos 1)) text_value []
  payload ← field_or_default (get fields (pos 2)) bytes_value []
  ok (session_authenticate mechanism payload)

abbrev decode_auth_error : Entries → Result GeneratedReqRes
unfolding text_value decode_session_auth_error_code_value
decode_auth_error fields = do
  code ←
      field_or_default (get fields (pos 1)) decode_session_auth_error_code_value
        unsupported_mechanism
  message ← field_or_default (get fields (pos 2)) text_value []
  ok (session_auth_error code message)

unfoldable pub decode_req_res_message_value : Value → Result GeneratedReqRes
unfolding expect_union decode_request decode_chunk decode_response decode_failure
    decode_authenticate decode_auth_error
decode_req_res_message_value value = do
  (id, fields) ← expect_union value
  if id ==ℤ pos 0
      then decode_request request_unary fields
      else if id ==ℤ pos 1
      then decode_request request_stream_start fields
      else if id ==ℤ pos 2
      then decode_chunk request_stream_chunk fields
      else if id ==ℤ pos 3
      then decode_response response_unary_ok fields
      else if id ==ℤ pos 4
      then decode_failure response_unary_error fields
      else if id ==ℤ pos 5
      then decode_response response_stream_start fields
      else if id ==ℤ pos 6
      then decode_chunk response_stream_chunk fields
      else if id ==ℤ pos 7
      then decode_failure response_stream_error_end fields
      else if id ==ℤ pos 8
      then decode_authenticate fields
      else if id ==ℤ pos 9
      then ok session_authenticated
      else if id ==ℤ pos 10
      then decode_auth_error fields
      else err unknown_variant

unfoldable pub encode_paired_secret_credential_value : PairedSecretCredential → Value
encode_paired_secret_credential_value c =
    object (set (set end (pos 1) (text c.credential_id)) (pos 2) (text c.credential_secret))

unfoldable pub decode_paired_secret_credential_value : Value → Result PairedSecretCredential
unfolding expect_map text_value
decode_paired_secret_credential_value value = do
  fields ← expect_map value
  id ← field_or_default (get fields (pos 1)) text_value []
  secret ← field_or_default (get fields (pos 2)) text_value []
  ok (record { credential_id = id; credential_secret = secret })

unfoldable pub encode_datagram_message_value : GeneratedDatagram → Result Value
unfolding u53
encode_datagram_message_value (ping id) = u53 id >>= λ v. ok (union_value 1 (set end (pos 1) v))
encode_datagram_message_value (pong id) = u53 id >>= λ v. ok (union_value 2 (set end (pos 1) v))

unfoldable pub decode_datagram_message_value : Value → Result GeneratedDatagram
unfolding expect_union number_value
decode_datagram_message_value value = do
  (id, fields) ← expect_union value
  if id ==ℤ pos 1
      then (field_or_default (get fields (pos 1)) number_value (int (pos 0)) >>= λ n. ok (ping n))
      else if id ==ℤ pos 2
      then (field_or_default (get fields (pos 1)) number_value (int (pos 0)) >>= λ n. ok (pong n))
      else err unknown_variant
