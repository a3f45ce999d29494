-- ===== src/Machines/Store.antt =====
-- web/src/state/machine-store.ts: the machines, and the one that is selected.
use whats_going_on.Prelude.{
  ℕ, Bool, true, false, ◌&&◌, Option, none, some, List, [], ◌∷◌, ◌++◌, map, if◌then◌else◌,
}
use whats_going_on.Wire.Message.{Text}
use whats_going_on.Explorer.Model.{same_text, same_optional_text}

-- `Machine`.
pub record Machine : Type 0 where
  pub id : Text
  pub name : Text
  pub base_url : Text
  pub client_id : Option Text
  pub client_secret : Option Text
  pub client_credential_expires_at_unix : Option ℕ

-- What `setMachineCredentials` is given.
pub record Credentials : Type 0 where
  pub new_client_id : Text
  pub new_client_secret : Text
  pub expires_at_unix : ℕ

-- `machinesAtom` and `selectedIdAtom`.
pub record Machines : Type 0 where
  pub machines : List Machine
  pub selected_id : Option Text

unfoldable pub get_machine : List Machine → Option Text → Option Machine
get_machine [] id = none
get_machine (m ∷ ms) id =
    let rest = get_machine ms id in if same_optional_text (some m.id) id then some m else rest

-- `Boolean(text)` of a text that may be undefined.
abbrev pub is_truthy : Option Text → Bool
is_truthy none = false
is_truthy (some []) = false
is_truthy (some (u ∷ us)) = true

unfoldable pub is_paired : Option Machine → Bool
is_paired none = false
is_paired (some m) = is_truthy m.client_id && is_truthy m.client_secret

-- `selectedAtom`.
unfoldable pub selected : Machines → Option Machine
unfolding get_machine
selected s = get_machine s.machines s.selected_id

unfoldable pub select_machine : Option Text → Machines → Machines
select_machine id s = record s { selected_id = id }

unfoldable pub find_machine : Option Text → Machines → Option Machine
unfolding get_machine
find_machine id s = get_machine s.machines id

unfoldable pub add_machine : Machine → Machines → Machines
add_machine m s = record { machines = s.machines ++ (m ∷ []); selected_id = some m.id }

unfoldable pub update_machine : Text → (Machine → Machine) → Machines → Machines
update_machine id update s = record s {
  machines = map (λ m. if same_text m.id id then update m else m) s.machines;
}

unfoldable pub set_machine_credentials : Text → Credentials → Machines → Machines
unfolding update_machine
set_machine_credentials id c s =
    update_machine id
      (λ m. record m {
        client_id = some c.new_client_id;
        client_secret = some c.new_client_secret;
        client_credential_expires_at_unix = some c.expires_at_unix;
      })
      s

unfoldable pub clear_machine_credentials : Text → Machines → Machines
unfolding update_machine
clear_machine_credentials id s = update_machine id (λ m. record m { client_secret = none }) s

unfoldable pub set_machine_credential_expiry : Text → ℕ → Machines → Machines
unfolding update_machine
set_machine_credential_expiry id expires s =
    update_machine id (λ m. record m { client_credential_expires_at_unix = some expires }) s

abbrev pub without_id : Text → List Machine → List Machine
without_id id [] = []
without_id id (m ∷ ms) = let rest = without_id id ms in if same_text m.id id then rest else m ∷ rest

abbrev pub first_id : List Machine → Option Text
first_id [] = none
first_id (m ∷ ms) = some m.id

-- The machine that was deleted, if one was.
unfoldable pub delete_selected_machine : Machines → Machines × Option Machine
unfolding selected
delete_selected_machine s = elim (selected s) [
  | none ↦ (s, none)
  | some m ↦
      let remaining = without_id m.id s.machines in
      (
        record {
          machines = remaining;
          selected_id =
              if same_optional_text s.selected_id (some m.id)
              then first_id remaining
              else s.selected_id;
        },
        some m,
      )
]

-- `loadSelectedMachineId` of what is stored.
unfoldable pub load_selected_machine_id : Option Text → List Machine → Option Text
unfolding get_machine
load_selected_machine_id stored machines =
    let first = first_id machines in
    if is_truthy stored
    then elim (get_machine machines stored) [ some m ↦ stored | none ↦ first ]
    else first
