-- ===== src/Wire/Valued.antt =====
-- web/src/protocol/generated/wire.ts: every message that may be sent is a pair of values, and is
-- decoded from it.
use whats_going_on.Prelude.{◌≡◌, refl, true, Option, none, some, arith}
use whats_going_on.Prelude.Int.{pos, negsuc}
use whats_going_on.Cbor.Value.{Number, int, float, num, text, bytes, end, Platform}
use whats_going_on.Cbor.Decode.{set}
use whats_going_on.Cbor.Canonical.{canonical, Encodable}
use whats_going_on.Wire.Message.{
  Bytes, unsupported_mechanism, invalid_credentials, malformed_payload, already_authenticated,
  system, method, GeneratedReqRes, request_unary, request_stream_start, request_stream_chunk,
  response_stream_chunk, response_unary_ok, response_stream_start, response_unary_error,
  response_stream_error_end, session_authenticate, session_authenticated, session_auth_error,
}
use whats_going_on.Wire.Generated.{
  is_u53, encode_req_res_message_value, decode_req_res_message_value, encode_rpc_error_kind_value,
  encode_session_auth_error_code_value,
}
use whats_going_on.Wire.Fields.{IsPayload, Sendable, Valued}

module _ (p : Platform) where
  request-Valued :
      (id : Number) (bs : Option Bytes)
      → is_u53 id ≡ true
      → IsPayload bs
      → Valued p (request_unary id bs)
  unfolding encode_req_res_message_value decode_req_res_message_value Encodable canonical
  request-Valued (int (pos n)) none e h = record {
    id = 0;
    fields = set end (pos 1) (num (int (pos n)));
    encodes = rw e;
    id_Encodable = refl;
    fields_Encodable = (omega arith, (refl, refl, e, tt));
    decodes = rw e;
  }
  request-Valued (int (pos n)) (some bs) e h = record {
    id = 0;
    fields = set (set end (pos 1) (num (int (pos n)))) (pos 2) (bytes bs);
    encodes = rw e;
    id_Encodable = refl;
    fields_Encodable = (omega arith, (refl, refl, e, (refl, refl, h, tt)));
    decodes = rw e;
  }
  request-Valued (int (negsuc n)) bs e h = cc
  request-Valued (float b) bs e h = cc

  stream_start-Valued :
      (id : Number) (bs : Option Bytes)
      → is_u53 id ≡ true
      → IsPayload bs
      → Valued p (request_stream_start id bs)
  unfolding encode_req_res_message_value decode_req_res_message_value Encodable canonical
  stream_start-Valued (int (pos n)) none e h = record {
    id = 1;
    fields = set end (pos 1) (num (int (pos n)));
    encodes = rw e;
    id_Encodable = refl;
    fields_Encodable = (omega arith, (refl, refl, e, tt));
    decodes = rw e;
  }
  stream_start-Valued (int (pos n)) (some bs) e h = record {
    id = 1;
    fields = set (set end (pos 1) (num (int (pos n)))) (pos 2) (bytes bs);
    encodes = rw e;
    id_Encodable = refl;
    fields_Encodable = (omega arith, (refl, refl, e, (refl, refl, h, tt)));
    decodes = rw e;
  }
  stream_start-Valued (int (negsuc n)) bs e h = cc
  stream_start-Valued (float b) bs e h = cc

  -- Every message that may be sent.
  pub message-Valued : (g : GeneratedReqRes) → Sendable p g → Valued p g
  unfolding encode_req_res_message_value decode_req_res_message_value Encodable canonical
  message-Valued (request_unary id bs) h = request-Valued id bs h.0 h.1
  message-Valued (request_stream_start id bs) h = stream_start-Valued id bs h.0 h.1
  message-Valued (request_stream_chunk bs) h = record {
    id = 2;
    fields = set end (pos 2) (bytes bs);
    encodes = refl;
    id_Encodable = refl;
    fields_Encodable = (omega arith, (refl, refl, h, tt));
    decodes = refl;
  }
  message-Valued (response_stream_chunk bs) h = record {
    id = 6;
    fields = set end (pos 2) (bytes bs);
    encodes = refl;
    id_Encodable = refl;
    fields_Encodable = (omega arith, (refl, refl, h, tt));
    decodes = refl;
  }
  message-Valued (response_unary_ok none) h = record {
    id = 3;
    fields = end;
    encodes = refl;
    id_Encodable = refl;
    fields_Encodable = (omega arith, tt);
    decodes = refl;
  }
  message-Valued (response_unary_ok (some bs)) h = record {
    id = 3;
    fields = set end (pos 2) (bytes bs);
    encodes = refl;
    id_Encodable = refl;
    fields_Encodable = (omega arith, (refl, refl, h, tt));
    decodes = refl;
  }
  message-Valued (response_stream_start none) h = record {
    id = 5;
    fields = end;
    encodes = refl;
    id_Encodable = refl;
    fields_Encodable = (omega arith, tt);
    decodes = refl;
  }
  message-Valued (response_stream_start (some bs)) h = record {
    id = 5;
    fields = set end (pos 2) (bytes bs);
    encodes = refl;
    id_Encodable = refl;
    fields_Encodable = (omega arith, (refl, refl, h, tt));
    decodes = refl;
  }
  message-Valued (response_unary_error e system) h = record {
    id = 4;
    fields = set (set end (pos 3) (bytes e)) (pos 4) (encode_rpc_error_kind_value system);
    encodes = refl;
    id_Encodable = refl;
    fields_Encodable = (omega arith, (refl, refl, h, (refl, refl, refl, tt)));
    decodes = refl;
  }
  message-Valued (response_unary_error e method) h = record {
    id = 4;
    fields = set (set end (pos 3) (bytes e)) (pos 4) (encode_rpc_error_kind_value method);
    encodes = refl;
    id_Encodable = refl;
    fields_Encodable = (omega arith, (refl, refl, h, (refl, refl, refl, tt)));
    decodes = refl;
  }
  message-Valued (response_stream_error_end e system) h = record {
    id = 7;
    fields = set (set end (pos 3) (bytes e)) (pos 4) (encode_rpc_error_kind_value system);
    encodes = refl;
    id_Encodable = refl;
    fields_Encodable = (omega arith, (refl, refl, h, (refl, refl, refl, tt)));
    decodes = refl;
  }
  message-Valued (response_stream_error_end e method) h = record {
    id = 7;
    fields = set (set end (pos 3) (bytes e)) (pos 4) (encode_rpc_error_kind_value method);
    encodes = refl;
    id_Encodable = refl;
    fields_Encodable = (omega arith, (refl, refl, h, (refl, refl, refl, tt)));
    decodes = refl;
  }
  message-Valued (session_authenticate s bs) h = record {
    id = 8;
    fields = set (set end (pos 1) (text s)) (pos 2) (bytes bs);
    encodes = refl;
    id_Encodable = refl;
    fields_Encodable = (omega arith, (refl, refl, (h.0.0, h.0.1), (refl, refl, h.1, tt)));
    decodes = rw h.0.2;
  }
  message-Valued session_authenticated h = record {
    id = 9;
    fields = end;
    encodes = refl;
    id_Encodable = refl;
    fields_Encodable = (omega arith, tt);
    decodes = refl;
  }
  message-Valued (session_auth_error unsupported_mechanism s) h = record {
    id = 10;
    fields =
        set (set end (pos 1) (encode_session_auth_error_code_value unsupported_mechanism)) (pos 2)
          (text s);
    encodes = refl;
    id_Encodable = refl;
    fields_Encodable = (omega arith, (refl, refl, refl, (refl, refl, (h.0, h.1), tt)));
    decodes = rw h.2;
  }
  message-Valued (session_auth_error invalid_credentials s) h = record {
    id = 10;
    fields =
        set (set end (pos 1) (encode_session_auth_error_code_value invalid_credentials)) (pos 2)
          (text s);
    encodes = refl;
    id_Encodable = refl;
    fields_Encodable = (omega arith, (refl, refl, refl, (refl, refl, (h.0, h.1), tt)));
    decodes = rw h.2;
  }
  message-Valued (session_auth_error malformed_payload s) h = record {
    id = 10;
    fields =
        set (set end (pos 1) (encode_session_auth_error_code_value malformed_payload)) (pos 2)
          (text s);
    encodes = refl;
    id_Encodable = refl;
    fields_Encodable = (omega arith, (refl, refl, refl, (refl, refl, (h.0, h.1), tt)));
    decodes = rw h.2;
  }
  message-Valued (session_auth_error already_authenticated s) h = record {
    id = 10;
    fields =
        set (set end (pos 1) (encode_session_auth_error_code_value already_authenticated)) (pos 2)
          (text s);
    encodes = refl;
    id_Encodable = refl;
    fields_Encodable = (omega arith, (refl, refl, refl, (refl, refl, (h.0, h.1), tt)));
    decodes = rw h.2;
  }
