-- ===== src/Wire/Fields.antt =====
-- web/src/protocol/generated/wire.ts: what the values of a message are, and that they are decoded.
use whats_going_on.Prelude.{ℕ, ◌≤◌, ◌≡◌, true, Option, none, some, length, All}
use whats_going_on.Prelude.Int.{pos}
use whats_going_on.Cbor.Value.{
  int, num, object, Entries, ok, Platform, IsByte, is_well_formed, strip_bom, max_safe_cbor_integer,
}
use whats_going_on.Cbor.Canonical.{canonical, Encodable}
use whats_going_on.Wire.Message.{
  Bytes, Text, GeneratedReqRes, request_unary, request_stream_start, request_stream_chunk,
  response_stream_chunk, response_unary_ok, response_stream_start, response_unary_error,
  response_stream_error_end, session_authenticate, session_authenticated, session_auth_error,
}
use whats_going_on.Wire.Generated.{
  union_value, is_u53, encode_req_res_message_value, decode_req_res_message_value,
}

-- What a message may carry: safe unsigned numbers, bytes, and well-formed texts without a leading
-- byte order mark.
abbrev pub IsBytes : Bytes → Type 0
IsBytes bs = All IsByte bs × (length bs ≤ max_safe_cbor_integer)

abbrev pub IsPayload : Option Bytes → Type 0
IsPayload none = Unit
IsPayload (some bs) = IsBytes bs

abbrev pub IsText : Platform → Text → Type 0
IsText p s =
    (is_well_formed s ≡ true)
    × (length (p.encode_utf8 s) ≤ max_safe_cbor_integer)
    × (strip_bom s ≡ s)

abbrev pub Sendable : Platform → GeneratedReqRes → Type 0
Sendable p (request_unary id bs) = (is_u53 id ≡ true) × IsPayload bs
Sendable p (request_stream_start id bs) = (is_u53 id ≡ true) × IsPayload bs
Sendable p (request_stream_chunk bs) = IsBytes bs
Sendable p (response_unary_ok bs) = IsPayload bs
Sendable p (response_unary_error e k) = IsBytes e
Sendable p (response_stream_start bs) = IsPayload bs
Sendable p (response_stream_chunk bs) = IsBytes bs
Sendable p (response_stream_error_end e k) = IsBytes e
Sendable p (session_authenticate s bs) = IsText p s × IsBytes bs
Sendable p session_authenticated = Unit
Sendable p (session_auth_error c s) = IsText p s

-- A message is a pair of admitted values, and their canonical forms are decoded to it.
pub record Valued (p : Platform) (g : GeneratedReqRes) : Type 0 where
  pub id : ℕ
  pub fields : Entries
  pub encodes : encode_req_res_message_value g ≡ ok (union_value id fields)
  pub id_Encodable : Encodable p (num (int (pos id)))
  pub fields_Encodable : Encodable p (object fields)
  pub decodes : decode_req_res_message_value (canonical (union_value id fields)) ≡ ok g
