-- ===== src/Client/Rpc.antt =====
-- web/src/protocol/client.ts, lines 24-29 and 326-376: failures. A stream's answer is the list of its chunks and whether it
-- ends or breaks off; what is written is the list of the writes. `await` orders the steps as they
-- stand. The consumer of a server stream takes every response.
use Prim.Native.String.{String}
use whats_going_on.Prelude.{Option, none, some}
use whats_going_on.Cbor.Value.{Number, Value, Error, Result, ok, err}
use whats_going_on.Wire.Message.{
  Text, SessionAuthErrorCode, unsupported_mechanism, invalid_credentials, malformed_payload,
  already_authenticated,
}
use whats_going_on.Wire.Errors.{
  RpcErrorCode, RpcErrorPayload, bad_message, unauthorized, missing_payload, not_implemented,
  permission_denied, not_found, operation_failed, decode_rpc_error_payload_value,
}
use whats_going_on.Wire.Errors

-- A text of the program, or one that was received.
pub data Words : Type 0 where
  literal : String → Words
  received : Text → Words

-- The `Error`s of this file.
pub data ClientError : Type 0 where
  expected_one_auth_response expected_auth_response : ClientError
  expected_one_response expected_unary_response expected_stream_response : ClientError
  missing_stream_payload incomplete_stream_message empty_client_stream : ClientError
  transport_failed : ClientError

-- What is thrown: an error of the codecs, one of this file, or an `RpcError` with its code and message.
pub data Failure : Type 0 where
  coded : Error → Failure
  failed : ClientError → Failure
  rpc_error : Words → Words → Failure

pub data Outcome (A : Type 0) : Type 0 where
  done : A → Outcome A
  thrown : Failure → Outcome A

infixl 5 ◌>>>◌
abbrev pub ◌>>>◌ : {A B : Type 0} → Outcome A → (A → Outcome B) → Outcome B
done a >>> f = f a
thrown e >>> f = thrown e

abbrev pub lift_result : {A : Type 0} → Result A → Outcome A
lift_result (ok a) = done a
lift_result (err e) = thrown (coded e)

-- What `errorCode` and `errorMessage` look at of a decoded method error: its properties, as texts.
pub data ErrorValue : Type 0 where
  no_object : ErrorValue
  error_object : Option Text → Option Text → Option Text → ErrorValue

-- `ProcCodec`; `decodeResponse` of no value is that of `undefined`.
pub record ProcCodec (Request Response : Type 0) : Type 0 where
  pub id : Number
  pub encode_request : Request → Result Value
  pub decode_response : Option Value → Result Response
  pub decode_error : Value → Result ErrorValue

unfoldable pub error_code : ErrorValue → Words
error_code no_object = literal "rpcError"
error_code (error_object (some type) code message) = received type
error_code (error_object none (some code) message) = received code
error_code (error_object none none message) = literal "rpcError"

unfoldable pub error_message : ErrorValue → Words
error_message (error_object type code (some message)) = received message
error_message (error_object type code none) = literal "RPC error response"
error_message no_object = literal "RPC error response"

unfoldable pub session_auth_error_code : Option SessionAuthErrorCode → Words
session_auth_error_code none = literal "SessionAuthError"
session_auth_error_code (some unsupported_mechanism) = literal "unsupportedMechanism"
session_auth_error_code (some invalid_credentials) = literal "invalidCredentials"
session_auth_error_code (some malformed_payload) = literal "malformedPayload"
session_auth_error_code (some already_authenticated) = literal "alreadyAuthenticated"

unfoldable pub rpc_error_code : RpcErrorCode → Words
rpc_error_code bad_message = literal "badMessage"
rpc_error_code unauthorized = literal "unauthorized"
rpc_error_code missing_payload = literal "missingPayload"
rpc_error_code not_implemented = literal "notImplemented"
rpc_error_code permission_denied = literal "permissionDenied"
rpc_error_code not_found = literal "notFound"
rpc_error_code operation_failed = literal "operationFailed"
rpc_error_code Errors.malformed_payload = literal "malformedPayload"
