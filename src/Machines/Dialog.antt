-- ===== src/Machines/Dialog.antt =====
-- web/src/state/machine-modal.ts: the life of the dialog.
use whats_going_on.Prelude.{
  ◌≡◌, refl, ap, ◌∙◌, ℕ, suc, Bool, true, false, Option, none, some, List, [], ◌∷◌, length,
  if◌then◌else◌, arith,
}
use whats_going_on.Wire.Message.{Text}
use whats_going_on.Machines.Url.{UrlApi, normalize_machine_url}
use whats_going_on.Machines.Store.{
  Credentials, Machines, selected, find_machine, delete_selected_machine,
}
use whats_going_on.Machines.Modal.{
  Request, Modal, reset_pairing_code, cancel_pairing_request, request_pairing_code,
  request_selected_pairing_code, is_current_pairing_request, settled, pairing_started,
  pairing_failed, close_machine_modal, open_add_machine_modal, open_config_machine_modal,
  open_pair_machine_modal, open_delete_machine_modal, delete_machine,
}
use whats_going_on.Machines.Forms.{
  new_machine, add_new_machine, save_machine_config, pair_selected, update_machine_name_draft,
  update_base_url_draft, tail_of, completed, completion_failed,
}
use whats_going_on.Machines.Pairing.{
  has_serial, IsSound, Kept, cancel-IsSound, request-IsSound, done-IsSound,
}
use whats_going_on.Machines.Cases.{by_option, by_list, by_attempt, by_test}

settled_pairing :
    (b : Bool) (ts : List Text) {t : Text} {rest : List Text}
    → ts ≡ t ∷ rest
    → length ts ≡ (if b then 1 else 0)
    → length (tail_of ts) ≡ 0
settled_pairing b [] e h = refl
settled_pairing true (t ∷ ts) e h = omega (arith, h)
settled_pairing false (t ∷ ts) e h = absurd (omega (arith, h))

module _ (w : UrlApi) where
  -- What the user, the daemon and the rest of the program do; the machines and the menu may change at any
  -- time.
  pub data Step : Modal → Modal → Type 0 where
    machines_change :
        {s : Modal} (store : Machines) (menu : Option Text)
        → Step s (record s { store = store; menu = menu })
    adds : {s : Modal} (id confirmation : Text) → Step s (add_new_machine w id confirmation s)
    closes : {s : Modal} → Step s (close_machine_modal s)
    opens_add : {s : Modal} → Step s (open_add_machine_modal s)
    opens_config : {s : Modal} (id : Text) → Step s (open_config_machine_modal id s)
    opens_pair :
        {s : Modal} (confirmation id : Text) → Step s (open_pair_machine_modal confirmation id s)
    opens_delete : {s : Modal} (id : Text) → Step s (open_delete_machine_modal id s)
    saves : {s : Modal} → Step s (save_machine_config w s)
    deletes : {s : Modal} → Step s (delete_machine s)
    pairs : {s : Modal} → Step s (pair_selected w s)
    requests_code :
        {s : Modal} (confirmation : Text) → Step s (request_selected_pairing_code confirmation s)
    types_name : {s : Modal} (value : Text) → Step s (update_machine_name_draft w value s)
    types_url : {s : Modal} (value : Text) → Step s (update_base_url_draft w value s)
    types_config_name : {s : Modal} (value : Text) → Step s (record s { config_name_draft = value })
    types_config_url : {s : Modal} (value : Text) → Step s (record s { config_url_draft = value })
    types_code : {s : Modal} (value : Text) → Step s (record s { pairing_code = value })
    code_arrives :
        {s : Modal} (r : Request) (expires : ℕ)
        → has_serial r.serial s.requests ≡ true
        → Step s (pairing_started r expires s)
    code_fails :
        {s : Modal} (r : Request) (message : Text)
        → has_serial r.serial s.requests ≡ true
        → Step s (pairing_failed r message s)
    pairing_completes :
        {s : Modal} (id : Text) (rest : List Text) (credentials : Credentials)
        → s.pairings ≡ id ∷ rest
        → Step s (completed id credentials s)
    pairing_fails :
        {s : Modal} (id message : Text) (rest : List Text)
        → s.pairings ≡ id ∷ rest
        → Step s (completion_failed message s)

  started-IsSound : (r : Request) (n : ℕ) (s : Modal) → IsSound s → IsSound (pairing_started r n s)
  unfolding pairing_started
  started-IsSound r n s h = done-IsSound r s _ (kept (is_current_pairing_request r s)) h
    where
      kept :
          (b : Bool)
          → Kept (settled r s) (
              if b
              then record (settled r s) { pairing_code_expires_at_unix = some n }
              else settled r s)
      kept true = record {
        same_requesting = refl;
        same_serial = refl;
        same_requests = refl;
        same_is_pairing = refl;
        same_pairings = refl;
      }
      kept false = record {
        same_requesting = refl;
        same_serial = refl;
        same_requests = refl;
        same_is_pairing = refl;
        same_pairings = refl;
      }

  failed-IsSound :
      (r : Request) (message : Text) (s : Modal) → IsSound s → IsSound (pairing_failed r message s)
  unfolding pairing_failed
  failed-IsSound r message s h = done-IsSound r s _ (kept (is_current_pairing_request r s)) h
    where
      kept :
          (b : Bool)
          → Kept
              (settled r s)
              (if b then record (settled r s) { form_error = message } else settled r s)
      kept true = record {
        same_requesting = refl;
        same_serial = refl;
        same_requests = refl;
        same_is_pairing = refl;
        same_pairings = refl;
      }
      kept false = record {
        same_requesting = refl;
        same_serial = refl;
        same_requests = refl;
        same_is_pairing = refl;
        same_pairings = refl;
      }

  Step-IsSound : {s s' : Modal} → Step s s' → IsSound s → IsSound s'
  unfolding close_machine_modal open_add_machine_modal open_config_machine_modal
      open_pair_machine_modal open_delete_machine_modal delete_machine add_new_machine
      save_machine_config pair_selected request_selected_pairing_code update_machine_name_draft
      update_base_url_draft completed completion_failed reset_pairing_code cancel_pairing_request
      request_pairing_code
  Step-IsSound (machines_change store menu) h = h
  Step-IsSound {s = s} (adds id confirmation) h =
      by_attempt IsSound (normalize_machine_url w s.base_url) _ _ (λ t. h)
        (λ t. request-IsSound confirmation (new_machine w id t s) s h)
  Step-IsSound {s = s} closes h =
      by_list IsSound s.store.machines _ _ h (λ m ms. cancel-IsSound s h)
  Step-IsSound {s = s} opens_add h =
      by_list IsSound s.store.machines _ _ (cancel-IsSound s h) (λ m ms. cancel-IsSound s h)
  Step-IsSound {s = s} (opens_config id) h =
      by_option IsSound (find_machine (some id) s.store) _ _ h (λ m. cancel-IsSound s h)
  Step-IsSound {s = s} (opens_pair confirmation id) h =
      by_option IsSound (find_machine (some id) s.store) _ _ h
        (λ m. request-IsSound confirmation m (cancel_pairing_request s) (cancel-IsSound s h))
  Step-IsSound {s = s} (opens_delete id) h =
      by_option IsSound (find_machine (some id) s.store) _ _ h (λ m. cancel-IsSound s h)
  Step-IsSound {s = s} saves h = by_option IsSound (selected s.store) _ _ h (λ m.
      by_list IsSound (w.trim s.config_name_draft) _ _ h (λ u us.
        by_attempt IsSound (normalize_machine_url w s.config_url_draft) _ _ (λ t. h) (λ t. h)))
  Step-IsSound {s = s} deletes h =
      by_option IsSound (delete_selected_machine s.store).1 _ _ h (λ m. cancel-IsSound s h)
  Step-IsSound {s = s} pairs h = by_option IsSound (selected s.store) _ _ h (λ m.
      by_test IsSound s.is_pairing _ _ h (λ free.
        by_list IsSound (w.trim s.pairing_code) _ _ h (λ u us. record {
          requesting = h.requesting;
          bounded = h.bounded;
          one_pairing = ap suc (h.one_pairing ∙ rw free refl);
        })))
  Step-IsSound {s = s} (requests_code confirmation) h =
      by_option IsSound (selected s.store) _ _ h (λ m. request-IsSound confirmation m s h)
  Step-IsSound (types_name value) h = h
  Step-IsSound {s = s} (types_url value) h = by_test IsSound s.machine_name_edited _ _ h (λ e. h)
  Step-IsSound (types_config_name value) h = h
  Step-IsSound (types_config_url value) h = h
  Step-IsSound (types_code value) h = h
  Step-IsSound {s = s} (code_arrives r expires there) h = started-IsSound r expires s h
  Step-IsSound {s = s} (code_fails r message there) h = failed-IsSound r message s h
  Step-IsSound {s = s} (pairing_completes id rest credentials e) h = record {
    requesting = h.requesting;
    bounded = h.bounded;
    one_pairing = settled_pairing s.is_pairing s.pairings e h.one_pairing;
  }
  Step-IsSound {s = s} (pairing_fails id message rest e) h = record {
    requesting = h.requesting;
    bounded = h.bounded;
    one_pairing = settled_pairing s.is_pairing s.pairings e h.one_pairing;
  }

  -- The dialog before anything happens.
  abbrev pub fresh_modal : Machines → Modal
  fresh_modal store = record {
    store = store;
    menu = none;
    machine_name = [];
    machine_name_edited = false;
    base_url = [];
    config_name_draft = [];
    config_url_draft = [];
    mode = none;
    form_error = [];
    pairing_code = [];
    pairing_confirmation_code = none;
    pairing_code_expires_at_unix = none;
    is_requesting_pairing_code = false;
    is_pairing = false;
    pairing_request_serial = 0;
    requests = [];
    pairings = [];
  }

  pub data Reachable : Modal → Type 0 where
    started : (store : Machines) → Reachable (fresh_modal store)
    later : {s s' : Modal} → Reachable s → Step s s' → Reachable s'

  -- At every time of the dialog's life, whatever the user does and in whatever order the daemon answers:
  -- while the dialog shows that a code is requested, the request with the current serial number is
  -- under way, so that its settling will end the display; no request under way has a later serial
  -- number; and exactly one pairing is under way while the dialog shows one, and none otherwise.
  pub Reachable-SoundParts : (s : Modal) → Reachable s → IsSound s
  Reachable-SoundParts s (started store) = record {
    requesting = λ e. absurd (clash e);
    bounded = tt;
    one_pairing = refl;
  }
    where
      clash : false ≡ true → ⊥
      clash e = cc
  Reachable-SoundParts s (later before step) = Step-IsSound step (Reachable-SoundParts _ before)
