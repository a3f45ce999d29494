-- ===== src/Machines/Forms.antt =====
-- web/src/state/machine-modal.ts: the forms of the dialog, and pairings.
use whats_going_on.Prelude.{Bool, true, false, not, none, some, List, [], ◌∷◌, if◌then◌else◌}
use whats_going_on.Wire.Message.{Text}
use whats_going_on.Machines.Url.{
  UrlApi, gives, fails, normalize_machine_url, infer_machine_name_from_url,
}
use whats_going_on.Machines.Store.{
  Machine, Credentials, selected, add_machine, update_machine, set_machine_credentials,
}
use whats_going_on.Machines.Modal.{
  pair_mode, Modal, name_is_required, reset_pairing_code, request_pairing_code,
}

module _ (w : UrlApi) where
  -- `text.trim() || other`.
  abbrev pub or_text : Text → Text → Text
  or_text [] other = other
  or_text (u ∷ us) other = u ∷ us

  abbrev pub new_machine : Text → Text → Modal → Machine
  new_machine id url s = record {
    id = id;
    name = or_text (w.trim s.machine_name) (infer_machine_name_from_url w url);
    base_url = url;
    client_id = none;
    client_secret = none;
    client_credential_expires_at_unix = none;
  }

  unfoldable pub add_new_machine : Text → Text → Modal → Modal
  unfolding normalize_machine_url infer_machine_name_from_url add_machine reset_pairing_code
      request_pairing_code
  add_new_machine id confirmation s = elim (normalize_machine_url w s.base_url) [
    | fails message ↦ record s { form_error = message }
    | gives url ↦
        let machine = new_machine id url s in
        request_pairing_code confirmation machine
          (record (reset_pairing_code (record s {
            form_error = [];
            store = add_machine machine s.store;
            machine_name = [];
            machine_name_edited = false;
            base_url = [];
          })) { mode = some pair_mode })
  ]

  unfoldable pub save_machine_config : Modal → Modal
  unfolding selected normalize_machine_url update_machine
  save_machine_config s = elim (selected s.store) [
    | none ↦ s
    | some machine ↦ elim (w.trim s.config_name_draft) [
      | [] ↦ record s { form_error = name_is_required }
      | u ∷ us ↦ elim (normalize_machine_url w s.config_url_draft) [
        | fails message ↦ record s { form_error = message }
        | gives url ↦ record s {
          store =
              update_machine machine.id (λ m. record m { name = u ∷ us; base_url = url }) s.store;
          form_error = [];
          mode = none;
        }
      ]
    ]
  ]

  -- `pairSelected` up to the call of the daemon, and the two ways it goes on.
  unfoldable pub pair_selected : Modal → Modal
  unfolding selected
  pair_selected s = elim (selected s.store) [
    | none ↦ s
    | some machine ↦ if s.is_pairing then s else elim (w.trim s.pairing_code) [
      | [] ↦ s
      | u ∷ us ↦ record s { is_pairing = true; form_error = []; pairings = machine.id ∷ s.pairings }
    ]
  ]

  unfoldable pub update_machine_name_draft : Text → Modal → Modal
  update_machine_name_draft value s = record s {
    machine_name = value;
    machine_name_edited = not (is_empty (w.trim value));
  }
    where
      is_empty : Text → Bool
      is_empty [] = true
      is_empty (u ∷ us) = false

  unfoldable pub update_base_url_draft : Text → Modal → Modal
  unfolding infer_machine_name_from_url
  update_base_url_draft value s =
      if s.machine_name_edited
      then record s { base_url = value }
      else record s { base_url = value; machine_name = infer_machine_name_from_url w value }

abbrev pub tail_of : List Text → List Text
tail_of [] = []
tail_of (t ∷ ts) = ts

unfoldable pub completed : Text → Credentials → Modal → Modal
unfolding set_machine_credentials reset_pairing_code
completed id credentials s = record (reset_pairing_code s) {
  store = set_machine_credentials id credentials s.store;
  mode = none;
  is_pairing = false;
  pairings = tail_of s.pairings;
}

unfoldable pub completion_failed : Text → Modal → Modal
completion_failed message s = record s {
  form_error = message;
  is_pairing = false;
  pairings = tail_of s.pairings;
}
