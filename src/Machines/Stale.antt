-- ===== src/Machines/Stale.antt =====
-- web/src/state/machine-modal.ts: requests that were given up.
use whats_going_on.Prelude.{◌≡◌, ℕ, suc, ◌≤◌, ◌<◌, false, some, ◌==◌, if_false, arith}
use whats_going_on.Wire.Message.{Text}
use whats_going_on.Machines.Url.{UrlApi, normalize_machine_url}
use whats_going_on.Machines.Store.{Machine, selected, find_machine, delete_selected_machine}
use whats_going_on.Machines.Modal.{
  Request, Modal, reset_pairing_code, cancel_pairing_request, request_pairing_code,
  request_selected_pairing_code, is_current_pairing_request, request_done, settled, pairing_started,
  pairing_failed, close_machine_modal, open_add_machine_modal, open_config_machine_modal,
  open_pair_machine_modal, open_delete_machine_modal, delete_machine,
}
use whats_going_on.Machines.Forms.{
  add_new_machine, save_machine_config, pair_selected, update_machine_name_draft,
  update_base_url_draft, completed, completion_failed,
}
use whats_going_on.Machines.Cases.{by_option, by_list, by_attempt, by_test}
use whats_going_on.Machines.Dialog.{
  Step, machines_change, adds, closes, opens_add, opens_config, opens_pair, opens_delete, saves,
  deletes, pairs, requests_code, types_name, types_url, types_config_name, types_config_url,
  types_code, code_arrives, code_fails, pairing_completes, pairing_fails,
}

module _ (w : UrlApi) where
  -- The current serial number is at least `n`.
  abbrev Beyond : ℕ → Modal → Type 0
  Beyond n s = n ≤ s.pairing_request_serial

  done-Beyond : (n : ℕ) (r : Request) (s : Modal) → Beyond n s → Beyond n (request_done r s)
  unfolding request_done
  done-Beyond n r s h = by_test (Beyond n) (r.serial == s.pairing_request_serial) _ _ h (λ e. h)

  cancel-Beyond : (n : ℕ) (s : Modal) → Beyond n s → Beyond n (cancel_pairing_request s)
  unfolding cancel_pairing_request
  cancel-Beyond n s h = omega (arith, h)

  request-Beyond :
      (n : ℕ) (confirmation : Text) (m : Machine) (s : Modal)
      → Beyond n s
      → Beyond n (request_pairing_code confirmation m s)
  unfolding request_pairing_code
  request-Beyond n confirmation m s h = omega (arith, h)

  Step-Beyond : (n : ℕ) {s s' : Modal} → Step w s s' → Beyond n s → Beyond n s'
  unfolding close_machine_modal open_add_machine_modal open_config_machine_modal
      open_pair_machine_modal open_delete_machine_modal delete_machine add_new_machine
      save_machine_config pair_selected request_selected_pairing_code update_machine_name_draft
      update_base_url_draft completed completion_failed reset_pairing_code cancel_pairing_request
      request_pairing_code pairing_started pairing_failed
  Step-Beyond n (machines_change store menu) h = h
  Step-Beyond n {s = s} (adds id confirmation) h =
      by_attempt (Beyond n) (normalize_machine_url w s.base_url) _ _ (λ t. h)
        (λ t. omega (arith, h))
  Step-Beyond n {s = s} closes h =
      by_list (Beyond n) s.store.machines _ _ h (λ m ms. omega (arith, h))
  Step-Beyond n {s = s} opens_add h =
      by_list (Beyond n) s.store.machines _ _ (cancel-Beyond n s h) (λ m ms. cancel-Beyond n s h)
  Step-Beyond n {s = s} (opens_config id) h =
      by_option (Beyond n) (find_machine (some id) s.store) _ _ h (λ m. cancel-Beyond n s h)
  Step-Beyond n {s = s} (opens_pair confirmation id) h =
      by_option (Beyond n) (find_machine (some id) s.store) _ _ h
        (λ m. request-Beyond n confirmation m (cancel_pairing_request s) (cancel-Beyond n s h))
  Step-Beyond n {s = s} (opens_delete id) h =
      by_option (Beyond n) (find_machine (some id) s.store) _ _ h (λ m. cancel-Beyond n s h)
  Step-Beyond n {s = s} saves h = by_option (Beyond n) (selected s.store) _ _ h (λ m.
      by_list (Beyond n) (w.trim s.config_name_draft) _ _ h (λ u us.
        by_attempt (Beyond n) (normalize_machine_url w s.config_url_draft) _ _ (λ t. h) (λ t. h)))
  Step-Beyond n {s = s} deletes h =
      by_option (Beyond n) (delete_selected_machine s.store).1 _ _ h (λ m. cancel-Beyond n s h)
  Step-Beyond n {s = s} pairs h = by_option (Beyond n) (selected s.store) _ _ h (λ m.
      by_test (Beyond n) s.is_pairing _ _ h
        (λ free. by_list (Beyond n) (w.trim s.pairing_code) _ _ h (λ u us. h)))
  Step-Beyond n {s = s} (requests_code confirmation) h =
      by_option (Beyond n) (selected s.store) _ _ h (λ m. request-Beyond n confirmation m s h)
  Step-Beyond n (types_name value) h = h
  Step-Beyond n {s = s} (types_url value) h =
      by_test (Beyond n) s.machine_name_edited _ _ h (λ e. h)
  Step-Beyond n (types_config_name value) h = h
  Step-Beyond n (types_config_url value) h = h
  Step-Beyond n (types_code value) h = h
  Step-Beyond n {s = s} (code_arrives r expires there) h =
      done-Beyond n r _ (by_test (Beyond n) (is_current_pairing_request r s) _ _ h (λ e. h))
  Step-Beyond n {s = s} (code_fails r message there) h =
      done-Beyond n r _ (by_test (Beyond n) (is_current_pairing_request r s) _ _ h (λ e. h))
  Step-Beyond n (pairing_completes id rest credentials e) h = h
  Step-Beyond n (pairing_fails id message rest e) h = h

  -- What comes of a state after any number of steps.
  pub data Later : Modal → Modal → Type 0 where
    now : {s : Modal} → Later s s
    then_step : {s s' s'' : Modal} → Later s s' → Step w s' s'' → Later s s''

  Later-Beyond : (n : ℕ) {s s' : Modal} → Later s s' → Beyond n s → Beyond n s'
  Later-Beyond n now h = h
  Later-Beyond n (then_step before step) h = Step-Beyond n step (Later-Beyond n before h)

  -- Once a request for a pairing code has a serial number below the current one, because the dialog was
  -- closed or opened anew or another code was requested, its answer, whether a code or a failure
  -- and however late it comes, does no more than end the request: no code's expiry and no error is shown,
  -- and the display of a later request is not ended.
  pub stale_request :
      (r : Request) (expires : ℕ) (message : Text) (s s' : Modal)
      → r.serial < s.pairing_request_serial
      → Later s s'
      → (pairing_started r expires s' ≡ settled r s') × (pairing_failed r message s' ≡ settled r s')
  unfolding pairing_started pairing_failed is_current_pairing_request request_done
  stale_request r expires message s s' old passed =
      let h = Later-Beyond (suc r.serial) passed old in
      let other : (r.serial == s'.pairing_request_serial) ≡ false = ground arith in
      (rw other (if_false _ _ other), rw other (if_false _ _ other))
