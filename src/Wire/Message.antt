-- ===== src/Wire/Message.antt =====
-- web/src/protocol/generated/wire.ts, lines 5-51, and web/src/protocol/wire.ts, lines 28-61: the
-- messages.
use whats_going_on.Prelude.{ℕ, Option, List}
use whats_going_on.Cbor.Value.{Number}

-- `Uint8Array`, and the UTF-16 code units of a text.
abbrev pub Bytes : Type 0
Bytes = List ℕ

abbrev pub Text : Type 0
Text = List ℕ

pub data SessionAuthErrorCode : Type 0 where
  unsupported_mechanism invalid_credentials malformed_payload already_authenticated :
      SessionAuthErrorCode

pub data RpcErrorKind : Type 0 where
  system method : RpcErrorKind

-- The generated `ReqResMessage`.
pub data GeneratedReqRes : Type 0 where
  request_unary request_stream_start : Number → Option Bytes → GeneratedReqRes
  request_stream_chunk response_stream_chunk : Bytes → GeneratedReqRes
  response_unary_ok response_stream_start : Option Bytes → GeneratedReqRes
  response_unary_error response_stream_error_end : Bytes → RpcErrorKind → GeneratedReqRes
  session_authenticate : Text → Bytes → GeneratedReqRes
  session_authenticated : GeneratedReqRes
  session_auth_error : SessionAuthErrorCode → Text → GeneratedReqRes

pub data GeneratedDatagram : Type 0 where
  ping pong : Number → GeneratedDatagram

pub record PairedSecretCredential : Type 0 where
  pub credential_id : Text
  pub credential_secret : Text

pub data ReqResMessageKind : Type 0 where
  kind_request_unary kind_request_stream_start kind_request_stream_chunk : ReqResMessageKind
  kind_response_unary_ok kind_response_unary_error : ReqResMessageKind
  kind_response_stream_start kind_response_stream_chunk : ReqResMessageKind
  kind_response_stream_error_end kind_session_authenticate : ReqResMessageKind
  kind_session_authenticated kind_session_auth_error : ReqResMessageKind

-- The `ReqResMessage` of wire.ts.
pub record ReqResMessage : Type 0 where
  pub kind : ReqResMessageKind
  pub proc_id : Option Number
  pub payload : Option Bytes
  pub error : Option Bytes
  pub error_kind : Option RpcErrorKind
  pub mechanism : Option Text
  pub auth_error_code : Option SessionAuthErrorCode
  pub message : Option Text

pub data DatagramMessageKind : Type 0 where
  kind_ping kind_pong : DatagramMessageKind

pub record DatagramMessage : Type 0 where
  pub kind : DatagramMessageKind
  pub ping_id : Number
