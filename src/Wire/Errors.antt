-- ===== src/Wire/Errors.antt =====
-- web/src/protocol/generated/wire.ts, lines 39-51 and 366-402: the payload of a system error.
use whats_going_on.Prelude.{ℕ, ◌≡◌, refl, [], if◌then◌else◌, arith}
use whats_going_on.Prelude.Int.{ℤ, pos, ◌==ℤ◌}
use whats_going_on.Cbor.Value.{
  Value, int, num, text, object, end, Result, ok, err, ◌>>=◌, Platform, unknown_variant,
}
use whats_going_on.Cbor.Decode.{set}
use whats_going_on.Cbor.Canonical.{canonical, Encodable}
use whats_going_on.Wire.Message.{Text}
use whats_going_on.Wire.Generated.{get, integer, expect_map, text_value, field_or_default}
use whats_going_on.Wire.Fields.{IsText}

pub data RpcErrorCode : Type 0 where
  bad_message unauthorized missing_payload not_implemented : RpcErrorCode
  permission_denied not_found operation_failed malformed_payload : RpcErrorCode

pub record RpcErrorPayload : Type 0 where
  pub code : RpcErrorCode
  pub message : Text

abbrev pub rpc_error_code_id : RpcErrorCode → ℕ
rpc_error_code_id bad_message = 1
rpc_error_code_id unauthorized = 2
rpc_error_code_id missing_payload = 3
rpc_error_code_id not_implemented = 4
rpc_error_code_id permission_denied = 6
rpc_error_code_id not_found = 7
rpc_error_code_id operation_failed = 8
rpc_error_code_id malformed_payload = 9

unfoldable pub encode_rpc_error_code_value : RpcErrorCode → Value
encode_rpc_error_code_value code = num (int (pos (rpc_error_code_id code)))

-- The ids that `includes` tests for; an id is the enum's item of that number.
abbrev pub rpc_error_code_of : ℤ → Result RpcErrorCode
rpc_error_code_of id =
    if id ==ℤ pos 1
    then ok bad_message
    else if id ==ℤ pos 2
    then ok unauthorized
    else if id ==ℤ pos 3
    then ok missing_payload
    else if id ==ℤ pos 4
    then ok not_implemented
    else if id ==ℤ pos 6
    then ok permission_denied
    else if id ==ℤ pos 7
    then ok not_found
    else if id ==ℤ pos 8
    then ok operation_failed
    else if id ==ℤ pos 9
    then ok malformed_payload
    else err unknown_variant

unfoldable pub decode_rpc_error_code_value : Value → Result RpcErrorCode
unfolding integer
decode_rpc_error_code_value v = integer v >>= rpc_error_code_of

unfoldable pub encode_rpc_error_payload_value : RpcErrorPayload → Value
unfolding encode_rpc_error_code_value
encode_rpc_error_payload_value e =
    object (set (set end (pos 1) (encode_rpc_error_code_value e.code)) (pos 2) (text e.message))

unfoldable pub decode_rpc_error_payload_value : Value → Result RpcErrorPayload
unfolding expect_map decode_rpc_error_code_value text_value
decode_rpc_error_payload_value value = do
  fields ← expect_map value
  code ← field_or_default (get fields (pos 1)) decode_rpc_error_code_value bad_message
  message ← field_or_default (get fields (pos 2)) text_value []
  ok (record { code = code; message = message })

-- A system error with a well-formed message comes back from its value's canonical form.
pub payload-canonical :
    (p : Platform) (e : RpcErrorPayload)
    → IsText p e.message
    → Encodable p (encode_rpc_error_payload_value e)
      × (decode_rpc_error_payload_value (canonical (encode_rpc_error_payload_value e)) ≡ ok e)
unfolding encode_rpc_error_payload_value decode_rpc_error_payload_value encode_rpc_error_code_value
    decode_rpc_error_code_value canonical Encodable
payload-canonical p e h = go e.code e.message h
  where
    go :
        (c : RpcErrorCode) (s : Text)
        → IsText p s
        → Encodable p (encode_rpc_error_payload_value (record { code = c; message = s }))
          × (decode_rpc_error_payload_value
                (canonical (encode_rpc_error_payload_value (record { code = c; message = s })))
              ≡ ok (record { code = c; message = s }))
    go bad_message s h = ((omega arith, (refl, refl, refl, (refl, refl, (h.0, h.1), tt))), rw h.2)
    go unauthorized s h = ((omega arith, (refl, refl, refl, (refl, refl, (h.0, h.1), tt))), rw h.2)
    go missing_payload s h =
        ((omega arith, (refl, refl, refl, (refl, refl, (h.0, h.1), tt))), rw h.2)
    go not_implemented s h =
        ((omega arith, (refl, refl, refl, (refl, refl, (h.0, h.1), tt))), rw h.2)
    go permission_denied s h =
        ((omega arith, (refl, refl, refl, (refl, refl, (h.0, h.1), tt))), rw h.2)
    go not_found s h = ((omega arith, (refl, refl, refl, (refl, refl, (h.0, h.1), tt))), rw h.2)
    go operation_failed s h =
        ((omega arith, (refl, refl, refl, (refl, refl, (h.0, h.1), tt))), rw h.2)
    go malformed_payload s h =
        ((omega arith, (refl, refl, refl, (refl, refl, (h.0, h.1), tt))), rw h.2)
