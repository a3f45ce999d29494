-- ===== src/Machines/Tests.antt =====
-- The theorems on the machines at concrete inputs.
use whats_going_on.Prelude.{true, List, ℕ, ◌≡◌, refl, false, none, some, [], ◌∷◌, arith}
use whats_going_on.Wire.Message.{Text}
use whats_going_on.Machines.Url.{UrlApi, gives}
use whats_going_on.Machines.Store.{
  Machine, Machines, is_paired, find_machine, clear_machine_credentials,
}
use whats_going_on.Machines.Modal.{
  Request, Modal, request_selected_pairing_code, close_machine_modal, pairing_started,
  pairing_failed, settled,
}
use whats_going_on.Machines.Known as Known
use whats_going_on.Machines.Known.{change, adds, deletes, initial, starts, changes, Reachable-Known}
use whats_going_on.Machines.Credited.{clear_machine_credentials-IsPaired}
use whats_going_on.Machines.Pairing.{IsSound}
use whats_going_on.Machines.Dialog.{
  fresh_modal, started, later, requests_code, closes, Reachable-SoundParts,
}
use whats_going_on.Machines.Stale.{now, stale_request}
use whats_going_on.Cbor.Sample.{platform, platform-Laws}
use whats_going_on.Wire.Codec.{from_generated_req_res_message, encode_req_res_message_sequence}
use whats_going_on.Client.Rpc.{Failure, thrown}
use whats_going_on.Client.Calls.{Readable, auth_request, authenticate_web_transport}
use whats_going_on.Machines.Refused.{
  handle_invalid_credentials, handle_invalid_credentials-authenticate_web_transport,
}

-- Every text is a URL with itself as all its parts.
abbrev urls : UrlApi
urls = record {
  Url = Text;
  parse = λ t. gives t;
  protocol = λ t. t;
  hostname = λ t. t;
  pathname = λ t. t;
  set_port = λ port t. t;
  set_pathname = λ path t. t;
  clear_search = λ t. t;
  clear_hash = λ t. t;
  to_text = λ t. t;
  trim = λ t. t;
}

abbrev machine : ℕ → Machine
machine n = record {
  id = n ∷ [];
  name = n ∷ [];
  base_url = n ∷ [];
  client_id = some (1 ∷ []);
  client_secret = some (2 ∷ []);
  client_credential_expires_at_unix = none;
}

abbrev two_machines : Machines
two_machines = record { machines = machine 1 ∷ machine 2 ∷ []; selected_id = some (2 ∷ []) }

-- Two machines are loaded with the second one selected, a third is added, and the selected one deleted.
abbrev loaded : List Machine
loaded = machine 1 ∷ machine 2 ∷ []

abbrev reached : Machines
reached = change deletes (change (adds (machine 3)) (initial loaded (some (2 ∷ []))))

Reachable-Known_example : Known.IsSound loaded reached
Reachable-Known_example =
    Reachable-Known loaded (some (2 ∷ [])) reached
      (changes (changes starts (adds (machine 3)) refl) deletes tt)

clear_machine_credentials-IsPaired_example :
    (is_paired (find_machine (some (1 ∷ [])) (clear_machine_credentials (1 ∷ []) two_machines))
      ≡ false)
    × (find_machine (some (2 ∷ [])) (clear_machine_credentials (1 ∷ []) two_machines)
        ≡ find_machine (some (2 ∷ [])) two_machines)
clear_machine_credentials-IsPaired_example =
    clear_machine_credentials-IsPaired (1 ∷ []) (2 ∷ []) two_machines refl

-- A dialog that has requested a code and was then closed.
abbrev asking : Modal
asking = request_selected_pairing_code (48 ∷ 55 ∷ []) (fresh_modal urls two_machines)

abbrev given_up : Modal
given_up = close_machine_modal asking

abbrev request : Request
request = record { serial = 1; machine_id = 2 ∷ [] }

Reachable-SoundParts_example : IsSound given_up
Reachable-SoundParts_example =
    Reachable-SoundParts urls given_up
      (later (later (started two_machines) (requests_code (48 ∷ 55 ∷ []))) closes)

stale_request_example :
    (pairing_started request 500 given_up ≡ settled request given_up)
    × (pairing_failed request (33 ∷ []) given_up ≡ settled request given_up)
unfolding request_selected_pairing_code close_machine_modal
stale_request_example = stale_request urls request 500 (33 ∷ []) given_up given_up (omega arith) now

-- A login that the daemon refuses, and the bytes that it wrote.
abbrev refused : Readable
refused = record {
  chunks = (10 ∷ 162 ∷ 1 ∷ []) ∷ (2 ∷ 2 ∷ 100 ∷ 0 ∷ 110 ∷ 0 ∷ 111 ∷ []) ∷ [];
  ends = true;
}

abbrev login : List ℕ
login =
    8 ∷ 162 ∷ 1 ∷ 120 ∷ 40 ∷ 0 ∷ 119 ∷ 0 ∷ 103 ∷ 0 ∷ 111 ∷ 0 ∷ 46 ∷ 0 ∷ 112 ∷ 0 ∷ 97 ∷ 0 ∷ 105 ∷ 0
    ∷ 114 ∷ 0 ∷ 101 ∷ 0 ∷ 100 ∷ 0 ∷ 45 ∷ 0 ∷ 115 ∷ 0 ∷ 101 ∷ 0 ∷ 99 ∷ 0 ∷ 114 ∷ 0 ∷ 101 ∷ 0 ∷ 116
    ∷ 0 ∷ 46 ∷ 0 ∷ 118 ∷ 0 ∷ 49 ∷ 2 ∷ 73 ∷ 162 ∷ 1 ∷ 98 ∷ 0 ∷ 110 ∷ 2 ∷ 98 ∷ 0 ∷ 111 ∷ []

handle_invalid_credentials-authenticate_web_transport_example :
    (f : Failure) × (authenticate_web_transport platform (0x6e ∷ []) (0x6f ∷ []) refused ≡ thrown f)
    × ((handle_invalid_credentials (machine 1) f two_machines).session_closed ≡ true)
    × (is_paired (
          find_machine
            (some (1 ∷ []))
            (handle_invalid_credentials (machine 1) f two_machines).store)
        ≡ false)
    × (find_machine (some (2 ∷ [])) (handle_invalid_credentials (machine 1) f two_machines).store
        ≡ find_machine (some (2 ∷ [])) two_machines)
unfolding auth_request encode_req_res_message_sequence from_generated_req_res_message
handle_invalid_credentials-authenticate_web_transport_example =
    handle_invalid_credentials-authenticate_web_transport platform platform-Laws (0x6e ∷ [])
      (0x6f ∷ []) (0x6e ∷ 0x6f ∷ []) refused login (machine 1) two_machines (2 ∷ []) refl
      (refl, omega arith, refl) refl refl refl
