-- ===== src/Machines/Refused.antt =====
-- web/src/protocol/client.ts, lines 31-33, and `handleInvalidCredentials` of web/src/state/explorer.ts:
-- credentials that the daemon refuses.
use whats_going_on.Prelude.{◌≡◌, refl, ap, ◌∙◌, Bool, true, false, some, List, [], ◌∷◌}
use whats_going_on.Cbor.Value.{ok, Platform, Laws}
use whats_going_on.Wire.Message.{
  Bytes, Text, session_auth_error, invalid_credentials, ReqResMessage,
}
use whats_going_on.Wire.Codec.{
  from_generated_req_res_message, encode_req_res_message_sequence, decode_req_res_message_sequence,
}
use whats_going_on.Wire.Fields.{IsText}
use whats_going_on.Client.Rpc.{
  Words, literal, received, Failure, coded, failed, rpc_error, thrown, done, ◌>>>◌, lift_result,
  session_auth_error_code,
}
use whats_going_on.Client.Calls.{
  Readable, concat_chunks, read_all, auth_request, auth_response, authenticate_web_transport,
}
use whats_going_on.Client.Answers.{sent_sequence}
use whats_going_on.Explorer.Model.{same_text}
use whats_going_on.Machines.Store.{
  Machine, Machines, is_paired, find_machine, clear_machine_credentials,
}
use whats_going_on.Machines.Credited.{clear_machine_credentials-IsPaired}
use whats_going_on.Workbench.Model.{same}

-- "invalidCredentials".
abbrev pub invalid_credentials_code : Text
invalid_credentials_code =
    105 ∷ 110 ∷ 118 ∷ 97 ∷ 108 ∷ 105 ∷ 100 ∷ 67 ∷ 114 ∷ 101 ∷ 100 ∷ 101 ∷ 110 ∷ 116 ∷ 105 ∷ 97 ∷ 108
    ∷ 115 ∷ []

abbrev pub is_invalid_credentials_code : Words → Bool
is_invalid_credentials_code (literal code) = same code "invalidCredentials"
is_invalid_credentials_code (received code) = same_text code invalid_credentials_code

unfoldable pub is_invalid_credentials_error : Failure → Bool
is_invalid_credentials_error (rpc_error code message) = is_invalid_credentials_code code
is_invalid_credentials_error (coded e) = false
is_invalid_credentials_error (failed e) = false

-- The result, the machines, and whether the session was closed.
pub record Handled : Type 0 where
  pub handled : Bool
  pub store : Machines
  pub session_closed : Bool

unfoldable pub handle_invalid_credentials : Machine → Failure → Machines → Handled
unfolding is_invalid_credentials_error clear_machine_credentials
handle_invalid_credentials machine err s = elim (is_invalid_credentials_error err) [
  | true ↦ record {
    handled = true;
    store = clear_machine_credentials machine.id s;
    session_closed = true;
  }
  | false ↦ record { handled = false; store = s; session_closed = false }
]

-- What comes of a login whose answer is read as some messages.
login_answer :
    (p : Platform) (client_id client_secret : Text) (answer : Readable) {written : Bytes}
    {ms : List ReqResMessage}
    → auth_request p client_id client_secret ≡ ok written
    → answer.ends ≡ true
    → decode_req_res_message_sequence p (concat_chunks answer.chunks) ≡ ok ms
    → authenticate_web_transport p client_id client_secret answer
      ≡ (auth_response ms >>> λ u. done (written, u))
unfolding authenticate_web_transport read_all
login_answer p client_id client_secret answer {written = written} e ends d =
    ap
      (λ r. lift_result r >>> λ request. read_all answer >>> λ bytes.
        lift_result (decode_req_res_message_sequence p bytes) >>> λ messages.
        auth_response messages >>> λ u. done (request, u))
      e
    ∙ (rw ends (
        ap (λ r. lift_result r >>> λ messages. auth_response messages >>> λ u. done (written, u))
          d))

-- On a platform that keeps its documented laws, when the daemon answers a login, whose request can be
-- encoded, with a `SessionAuthError` of the code invalidCredentials, and the stream ends behind its bytes,
-- whatever chunks they arrive in, then `authenticateWebTransport` throws a failure on which
-- `handleInvalidCredentials` closes the session and leaves the machine unpaired, and a machine with
-- another id what it was.
pub handle_invalid_credentials-authenticate_web_transport :
    (p : Platform)
    → Laws p
    → (client_id client_secret message : Text) (answer : Readable) (written : Bytes) (m : Machine)
      (s : Machines) (k : Text)
    → auth_request p client_id client_secret ≡ ok written
    → IsText p message
    → answer.ends ≡ true
    → encode_req_res_message_sequence p
        (from_generated_req_res_message (session_auth_error invalid_credentials message) ∷ [])
      ≡ ok (concat_chunks answer.chunks)
    → same_text k m.id ≡ false
    → (f : Failure) × (authenticate_web_transport p client_id client_secret answer ≡ thrown f)
      × ((handle_invalid_credentials m f s).session_closed ≡ true)
      × (is_paired (find_machine (some m.id) (handle_invalid_credentials m f s).store) ≡ false)
      × (find_machine (some k) (handle_invalid_credentials m f s).store ≡ find_machine (some k) s)
unfolding auth_response from_generated_req_res_message session_auth_error_code
    handle_invalid_credentials same
handle_invalid_credentials-authenticate_web_transport p laws client_id client_secret message answer
      written m s k requested ht ends sent other =
    let read =
      sent_sequence p laws (session_auth_error invalid_credentials message ∷ []) (ht, tt) sent in
    let cleared = clear_machine_credentials-IsPaired m.id k s other in
    (
      rpc_error (literal "invalidCredentials") (received message),
      login_answer p client_id client_secret answer requested ends read,
      refl,
      cleared.0,
      cleared.1,
    )
