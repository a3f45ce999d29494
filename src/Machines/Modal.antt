-- ===== src/Machines/Modal.antt =====
-- web/src/state/machine-modal.ts: the dialog for the machines. What waits for the daemon is a list of
-- the requests for a code and of the pairings that are under way; `pairing_started`, `pairing_failed`,
-- `completed` and `completion_failed` are what happens to the state when one of them is settled. Random
-- ids and codes are arguments.
use whats_going_on.Prelude.{
  ℕ, suc, Bool, true, false, not, ◌&&◌, Option, none, some, List, [], ◌∷◌, ◌==◌, if◌then◌else◌,
}
use whats_going_on.Wire.Message.{Text}
use whats_going_on.Explorer.Model.{same_text}
use whats_going_on.Machines.Store.{
  Machine, Machines, selected, select_machine, find_machine, delete_selected_machine,
}

-- `MachineModalMode`.
pub data MachineModalMode : Type 0 where
  add_mode pair_mode config_mode delete_mode : MachineModalMode

abbrev pub is_pair_mode : Option MachineModalMode → Bool
is_pair_mode (some pair_mode) = true
is_pair_mode _ = false

abbrev pub is_none {ℓ} : {A : Type ℓ} → Option A → Bool
is_none none = true
is_none (some a) = false

-- A request for a pairing code that is under way.
pub record Request : Type 0 where
  pub serial : ℕ
  pub machine_id : Text

-- The atoms, with the machines and the id of the machine whose menu is open.
pub record Modal : Type 0 where
  pub store : Machines
  pub menu : Option Text
  pub machine_name : Text
  pub machine_name_edited : Bool
  pub base_url : Text
  pub config_name_draft : Text
  pub config_url_draft : Text
  pub mode : Option MachineModalMode
  pub form_error : Text
  pub pairing_code : Text
  pub pairing_confirmation_code : Option Text
  pub pairing_code_expires_at_unix : Option ℕ
  pub is_requesting_pairing_code : Bool
  pub is_pairing : Bool
  pub pairing_request_serial : ℕ
  pub requests : List Request
  pub pairings : List Text

-- "Name is required".
abbrev pub name_is_required : Text
name_is_required =
    78 ∷ 97 ∷ 109 ∷ 101 ∷ 32 ∷ 105 ∷ 115 ∷ 32 ∷ 114 ∷ 101 ∷ 113 ∷ 117 ∷ 105 ∷ 114 ∷ 101 ∷ 100 ∷ []

unfoldable pub reset_pairing_code : Modal → Modal
reset_pairing_code s = record s {
  pairing_code = [];
  pairing_confirmation_code = none;
  pairing_code_expires_at_unix = none;
}

unfoldable pub cancel_pairing_request : Modal → Modal
cancel_pairing_request s = record s {
  pairing_request_serial = suc s.pairing_request_serial;
  is_requesting_pairing_code = false;
}

unfoldable pub request_pairing_code : Text → Machine → Modal → Modal
unfolding reset_pairing_code
request_pairing_code confirmation machine s =
    let serial = suc s.pairing_request_serial in
    record (reset_pairing_code s) {
      pairing_request_serial = serial;
      form_error = [];
      pairing_confirmation_code = some confirmation;
      is_requesting_pairing_code = true;
      requests = record { serial = serial; machine_id = machine.id } ∷ s.requests;
    }

unfoldable pub request_selected_pairing_code : Text → Modal → Modal
unfolding selected request_pairing_code
request_selected_pairing_code confirmation s = elim (selected s.store) [
  | none ↦ s
  | some machine ↦ request_pairing_code confirmation machine s
]

-- `store.get(machines.selectedAtom)?.id === machine.id`.
abbrev pub is_machine : Option Machine → Text → Bool
is_machine none id = false
is_machine (some m) id = same_text m.id id

unfoldable pub is_current_pairing_request : Request → Modal → Bool
unfolding selected find_machine
is_current_pairing_request r s =
    (r.serial == s.pairing_request_serial)
    && is_pair_mode s.mode
    && is_machine (selected s.store) r.machine_id
    && not (is_none (find_machine (some r.machine_id) s.store))

-- The `finally` of a request.
unfoldable pub request_done : Request → Modal → Modal
request_done r s =
    if r.serial == s.pairing_request_serial
    then record s { is_requesting_pairing_code = false }
    else s

abbrev pub without_request : ℕ → List Request → List Request
without_request n [] = []
without_request n (r ∷ rs) =
    let rest = without_request n rs in if r.serial == n then rest else r ∷ rest

abbrev pub settled : Request → Modal → Modal
settled r s = record s { requests = without_request r.serial s.requests }

unfoldable pub pairing_started : Request → ℕ → Modal → Modal
unfolding is_current_pairing_request request_done
pairing_started r expires s = request_done r (
    if is_current_pairing_request r s
    then record (settled r s) { pairing_code_expires_at_unix = some expires }
    else settled r s)

unfoldable pub pairing_failed : Request → Text → Modal → Modal
unfolding is_current_pairing_request request_done
pairing_failed r message s = request_done r (
    if is_current_pairing_request r s
    then record (settled r s) { form_error = message }
    else settled r s)

unfoldable pub close_machine_modal : Modal → Modal
unfolding cancel_pairing_request reset_pairing_code
close_machine_modal s = elim s.store.machines [
  | [] ↦ s
  | m ∷ ms ↦ reset_pairing_code (cancel_pairing_request (record s { mode = none; form_error = [] }))
]

unfoldable pub open_add_machine_modal : Modal → Modal
unfolding cancel_pairing_request reset_pairing_code
open_add_machine_modal s =
    let cleared = reset_pairing_code (
      cancel_pairing_request (record s {
        menu = none;
        machine_name = [];
        machine_name_edited = false;
        base_url = [];
        form_error = [];
      })) in
    elim s.store.machines [
      | [] ↦ record cleared { mode = none }
      | m ∷ ms ↦ record cleared { mode = some add_mode }
    ]

-- What opening a dialog for one machine does in every mode: its machine is selected, the requests are
-- given up.
abbrev pub opened : MachineModalMode → Machine → Modal → Modal
opened mode machine s = record (reset_pairing_code (cancel_pairing_request s)) {
  store = select_machine (some machine.id) s.store;
  form_error = [];
  menu = none;
  mode = some mode;
}

unfoldable pub open_config_machine_modal : Text → Modal → Modal
unfolding find_machine cancel_pairing_request reset_pairing_code select_machine
open_config_machine_modal id s = elim (find_machine (some id) s.store) [
  | none ↦ s
  | some machine ↦ record (opened config_mode machine s) {
    config_name_draft = machine.name;
    config_url_draft = machine.base_url;
  }
]

unfoldable pub open_pair_machine_modal : Text → Text → Modal → Modal
unfolding find_machine cancel_pairing_request reset_pairing_code select_machine request_pairing_code
open_pair_machine_modal confirmation id s = elim (find_machine (some id) s.store) [
  | none ↦ s
  | some machine ↦ request_pairing_code confirmation machine (opened pair_mode machine s)
]

unfoldable pub open_delete_machine_modal : Text → Modal → Modal
unfolding find_machine cancel_pairing_request reset_pairing_code select_machine
open_delete_machine_modal id s = elim (find_machine (some id) s.store) [
  | none ↦ s
  | some machine ↦ opened delete_mode machine s
]

unfoldable pub delete_machine : Modal → Modal
unfolding delete_selected_machine cancel_pairing_request reset_pairing_code
delete_machine s =
    let (store, deleted) = delete_selected_machine s.store in
    elim deleted [
      | none ↦ s
      | some machine ↦
          record (reset_pairing_code
            (cancel_pairing_request (record s { store = store; form_error = [] }))) { mode = none }
    ]
