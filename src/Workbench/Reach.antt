-- ===== src/Workbench/Reach.antt =====
-- web/src/state/workbench.ts: the states that the workbench's operations lead to.
use Prim.Native.String.{String}
use whats_going_on.Prelude.{ℕ, ◌≡◌, refl, Bool, Option, arith}
use whats_going_on.Workbench.Model.{
  WorkbenchTool, FilesView, ProcessPage, WorkbenchTab, WorkbenchState, TabDropPosition,
  TerminalTabConfig, ProcessesTabConfig, WindowsTabConfig, TerminalSessionSnapshot,
}
use whats_going_on.Workbench.Tabs.{
  create_workbench_tab, create_files_tab, create_processes_tab, create_windows_tab,
  create_terminal_tab,
}
use whats_going_on.Workbench.Storage.{Storage}
use whats_going_on.Workbench.State.{
  initial_state, update_tab, set_layout, focus_pane, add_pane, remove_pane, add_files_tab,
  add_tool_tab, add_daemon_tab, add_processes_tab, add_windows_tab, add_terminal_tab,
  open_terminal_tab, open_files_tab, select_tool,
}
use whats_going_on.Workbench.Setters.{
  write_snapshot, write_dirty, write_process_detail, set_terminal_session_id,
  set_terminal_session_snapshot, set_tab_dirty, set_daemon_client_detail_id,
  set_daemon_clients_page_open, set_process_detail_pid, set_process_page, set_window_detail_id,
}
use whats_going_on.Workbench.Moves.{
  select_tab, close_tab, duplicate_tab, move_tab, move_tab_to_new_pane,
}
use whats_going_on.Workbench.Invariant.{Inv}
use whats_going_on.Workbench.Steps.{
  open_tab_in_pane-Inv, open_tab_in_active_pane-Inv, select_tab-Inv, remove_pane-Inv, close_tab-Inv,
  select_tool-Inv,
}
use whats_going_on.Workbench.Moved.{move_tab-Keeps}
use whats_going_on.Workbench.NewPane.{move_tab_to_new_pane-Keeps}
use whats_going_on.Workbench.Opening.{
  FreshTabs, FreshPane, initial_state-Inv, add_pane-Inv, duplicate_tab-Inv,
}
use whats_going_on.Workbench.Setting.{KeepsTab, update_tab-Inv}

module _ {Layout : Type 0} where
  -- One operation of the workbench on the tab `tab` of the pane `pane`. A uuid that names a new tab or
  -- pane names no other.
  pub data Step (s : WorkbenchState Layout) : WorkbenchState Layout → Type 0 where
    lay_out : (layout : Layout) → Step s (set_layout layout s)
    focus : (pane : String) → Step s (focus_pane pane s)
    add :
        (machine_id : Option String) (tab_uuid pane_uuid : String) (source : Option String)
        (storage : Storage)
        → FreshTabs tab_uuid s.panes
        → FreshPane pane_uuid s.panes
        → Step s (add_pane machine_id tab_uuid pane_uuid source s storage).0
    remove : (pane : String) → Step s (remove_pane pane s)
    files_in :
        (uuid pane : String) (config : Option FilesView)
        → FreshTabs uuid s.panes
        → Step s (add_files_tab uuid pane config s).0
    tool_in :
        (uuid pane : String) (tool : WorkbenchTool)
        → FreshTabs uuid s.panes
        → Step s (add_tool_tab uuid pane tool s).0
    daemon_in :
        (uuid pane : String) → FreshTabs uuid s.panes → Step s (add_daemon_tab uuid pane s).0
    processes_in :
        (uuid pane : String) (config : ProcessesTabConfig)
        → FreshTabs uuid s.panes
        → Step s (add_processes_tab uuid pane config s).0
    windows_in :
        (uuid pane : String) (config : WindowsTabConfig)
        → FreshTabs uuid s.panes
        → Step s (add_windows_tab uuid pane config s).0
    terminal_in :
        (uuid pane : String) (config : TerminalTabConfig)
        → FreshTabs uuid s.panes
        → Step s (add_terminal_tab uuid pane config s)
    open_terminal :
        (uuid : String) (config : TerminalTabConfig)
        → FreshTabs uuid s.panes
        → Step s (open_terminal_tab uuid config s)
    open_files :
        (uuid : String) (config : Option FilesView)
        → FreshTabs uuid s.panes
        → Step s (open_files_tab uuid config s)
    select_a_tool :
        (uuid : String) (tool : WorkbenchTool)
        → FreshTabs uuid s.panes
        → Step s (select_tool uuid tool s)
    select : (pane tab : String) → Step s (select_tab pane tab s)
    close : (pane tab : String) → Step s (close_tab pane tab s)
    duplicate :
        (machine_id : Option String) (uuid pane tab : String) (storage : Storage)
        → FreshTabs uuid s.panes
        → Step s (duplicate_tab machine_id uuid pane tab s storage).0
    move :
        (source tab target : String) (target_tab : Option String) (position : TabDropPosition)
        → Step s (move_tab source tab target target_tab position s).0
    move_out :
        (uuid source tab target : String)
        → FreshPane uuid s.panes
        → Step s (move_tab_to_new_pane uuid source tab target s).0
    session :
        (pane tab : String) (id : Option String) → Step s (set_terminal_session_id pane tab id s)
    snapshot :
        (pane tab : String) (taken : TerminalSessionSnapshot)
        → Step s (set_terminal_session_snapshot pane tab taken s)
    dirty : (pane tab : String) (value : Bool) → Step s (set_tab_dirty pane tab value s)
    client :
        (pane tab : String) (id : Option String)
        → Step s (set_daemon_client_detail_id pane tab id s)
    clients_page :
        (pane tab : String) (value : Bool) → Step s (set_daemon_clients_page_open pane tab value s)
    process : (pane tab : String) (pid : Option ℕ) → Step s (set_process_detail_pid pane tab pid s)
    page : (pane tab : String) (shown : ProcessPage) → Step s (set_process_page pane tab shown s)
    window : (pane tab : String) (id : Option String) → Step s (set_window_detail_id pane tab id s)

  pub data Reach (s : WorkbenchState Layout) : WorkbenchState Layout → Type 0 where
    here : Reach s s
    next : {t u : WorkbenchState Layout} → Reach s t → Step t u → Reach s u

  focus_pane-panes :
      (pane : String) (s : WorkbenchState Layout) → (focus_pane pane s).panes ≡ s.panes
  unfolding focus_pane
  focus_pane-panes pane s = ground arith

snapshot-KeepsTab : (taken : TerminalSessionSnapshot) → KeepsTab (write_snapshot taken)
unfolding write_snapshot
snapshot-KeepsTab taken = record {
  keeps_id = λ t. ground arith;
  keeps_previous = λ t. ground arith;
}

dirty-KeepsTab : (value : Bool) → KeepsTab (write_dirty value)
unfolding write_dirty
dirty-KeepsTab value = record { keeps_id = λ t. ground arith; keeps_previous = λ t. ground arith }

process-KeepsTab : (pid : Option ℕ) → KeepsTab (write_process_detail pid)
unfolding write_process_detail
process-KeepsTab pid = record { keeps_id = λ t. refl; keeps_previous = λ t. refl }

module _ {Layout : Type 0} (s : WorkbenchState Layout) where
  -- A setter that writes one field.
  field-Inv :
      (pane tab : String) (test : WorkbenchTab → Bool) (f : WorkbenchTab → WorkbenchTab)
      → ((t : WorkbenchTab) → (f t).id ≡ t.id)
      → ((t : WorkbenchTab) → (f t).previous_active_tab_id ≡ t.previous_active_tab_id)
      → Inv s.panes
      → Inv (update_tab pane tab test f s.panes)
  field-Inv pane tab test f h k v =
      update_tab-Inv pane tab test f s.panes (record { keeps_id = h; keeps_previous = k }) v

  pub Step-Inv : (t : WorkbenchState Layout) → Step s t → Inv s.panes → Inv t.panes
  unfolding set_layout add_files_tab add_tool_tab add_daemon_tab add_processes_tab add_windows_tab
      add_terminal_tab open_terminal_tab open_files_tab create_files_tab create_processes_tab
      create_windows_tab create_terminal_tab create_workbench_tab set_terminal_session_id
      set_terminal_session_snapshot set_tab_dirty set_daemon_client_detail_id
      set_daemon_clients_page_open set_process_detail_pid set_process_page set_window_detail_id
  Step-Inv _ (lay_out layout) v = v
  Step-Inv _ (focus pane) v = rw (focus_pane-panes pane s) v
  Step-Inv _ (add m tab_uuid pane_uuid source storage f g) v =
      add_pane-Inv m tab_uuid pane_uuid source s storage f g v
  Step-Inv _ (remove pane) v = remove_pane-Inv s pane v
  Step-Inv _ (files_in uuid pane config f) v =
      open_tab_in_pane-Inv s pane (create_files_tab uuid config) (f _) v
  Step-Inv _ (tool_in uuid pane tool f) v =
      open_tab_in_pane-Inv s pane (create_workbench_tab uuid tool) (f _) v
  Step-Inv _ (daemon_in uuid pane f) v =
      open_tab_in_pane-Inv s pane (create_workbench_tab uuid _) (f _) v
  Step-Inv _ (processes_in uuid pane config f) v =
      open_tab_in_pane-Inv s pane (create_processes_tab uuid config) (f _) v
  Step-Inv _ (windows_in uuid pane config f) v =
      open_tab_in_pane-Inv s pane (create_windows_tab uuid config) (f _) v
  Step-Inv _ (terminal_in uuid pane config f) v =
      open_tab_in_pane-Inv s pane (create_terminal_tab uuid config) (f _) v
  Step-Inv _ (open_terminal uuid config f) v =
      open_tab_in_active_pane-Inv s (create_terminal_tab uuid config) (f _) v
  Step-Inv _ (open_files uuid config f) v =
      open_tab_in_active_pane-Inv s (create_files_tab uuid config) (f _) v
  Step-Inv _ (select_a_tool uuid tool f) v = select_tool-Inv uuid tool s (f tool) v
  Step-Inv _ (select pane tab) v = select_tab-Inv s pane tab v
  Step-Inv _ (close pane tab) v = close_tab-Inv s pane tab v
  Step-Inv _ (duplicate m uuid pane tab storage f) v =
      duplicate_tab-Inv m uuid pane tab s storage f v
  Step-Inv _ (move source tab target target_tab position) v =
      (move_tab-Keeps source tab target target_tab position s v).1
  Step-Inv _ (move_out uuid source tab target f) v =
      (move_tab_to_new_pane-Keeps uuid source tab target s f v).1
  Step-Inv _ (session pane tab id) v = field-Inv pane tab _ _ (λ t. refl) (λ t. refl) v
  Step-Inv _ (snapshot pane tab taken) v =
      update_tab-Inv pane tab _ _ s.panes (snapshot-KeepsTab taken) v
  Step-Inv _ (dirty pane tab value) v = update_tab-Inv pane tab _ _ s.panes (dirty-KeepsTab value) v
  Step-Inv _ (client pane tab id) v = field-Inv pane tab _ _ (λ t. refl) (λ t. refl) v
  Step-Inv _ (clients_page pane tab value) v = field-Inv pane tab _ _ (λ t. refl) (λ t. refl) v
  Step-Inv _ (process pane tab pid) v = update_tab-Inv pane tab _ _ s.panes (process-KeepsTab pid) v
  Step-Inv _ (page pane tab shown) v = field-Inv pane tab _ _ (λ t. refl) (λ t. refl) v
  Step-Inv _ (window pane tab id) v = field-Inv pane tab _ _ (λ t. refl) (λ t. refl) v

module _ {Layout : Type 0} where
  Reach-Inv_from : {s t : WorkbenchState Layout} → Reach s t → Inv s.panes → Inv t.panes
  Reach-Inv_from here v = v
  Reach-Inv_from (next r step) v = Step-Inv _ _ step (Reach-Inv_from r v)

  -- Every state that the workbench's operations lead to from the first state of a machine satisfies
  -- the invariant: it has a pane; the active tab of each pane is open, and the tab that a tab
  -- remembers is another open one of the pane; and no id is that of two tabs, or of two panes.
  pub Reach-Inv :
      (layout : Layout) (pane_uuid tab_uuid : String) (t : WorkbenchState Layout)
      → Reach (initial_state layout pane_uuid tab_uuid) t
      → Inv t.panes
  Reach-Inv layout pane_uuid tab_uuid t r =
      Reach-Inv_from r (initial_state-Inv layout pane_uuid tab_uuid)
