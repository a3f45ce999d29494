-- ===== src/Workbench/Scopes.antt =====
-- web/src/state/workbench.ts, lines 681-933: the workbench as one pane and one tab see it. The pane's
-- and the tab's id come from the scopes.
use Prim.Native.String.{String}
use mathlib.Core.Option
use whats_going_on.Prelude.{
  ℕ, Bool, false, ◌&&◌, ◌||◌, Option, none, some, length, ltb, if◌then◌else◌,
}
use whats_going_on.Workbench.Model.{
  same_option, is_falsy, ProcessPage, FilesView, WorkbenchTab, WorkbenchPane, WorkbenchState,
  MoveTabToNewPaneResult, TabDropPosition, TerminalTabConfig, ProcessesTabConfig, WindowsTabConfig,
  TerminalSessionSnapshot, find_tab, find_pane,
}
use whats_going_on.Workbench.Storage.{Storage}
use whats_going_on.Workbench.State.{
  active_pane_from_state, add_pane, add_files_tab, add_daemon_tab, add_processes_tab,
  add_windows_tab, add_terminal_tab, remove_pane, focus_pane,
}
use whats_going_on.Workbench.Moves.{
  select_tab, close_tab, duplicate_tab, move_tab, move_tab_to_new_pane,
}
use whats_going_on.Workbench.Setters.{
  is_true, set_terminal_session_id, set_terminal_session_snapshot, set_tab_dirty,
  set_daemon_client_detail_id, set_daemon_clients_page_open, set_process_detail_pid,
  set_process_page, set_window_detail_id,
}

-- `requireScopeValue`: `none` is its `Error`.
unfoldable pub require_scope_value : Option String → Option String
require_scope_value value = if is_falsy value then none else value

-- `pane?.activeTabId`.
abbrev pub active_tab_id_of : Option WorkbenchPane → Option String
active_tab_id_of pane = Option.map (λ p. p.active_tab_id) pane

-- `pane?.tabs.length ?? 0`.
abbrev pub tab_count : Option WorkbenchPane → ℕ
tab_count none = 0
tab_count (some pane) = length pane.tabs

abbrev pub dirty_of : Option WorkbenchTab → Bool
dirty_of none = false
dirty_of (some tab) = is_true tab.dirty

module _ {Layout : Type 0} (pane : String) where
  -- `workbenchPaneBunja`'s atoms and operations.
  unfoldable pub pane_atom : WorkbenchState Layout → Option WorkbenchPane
  pane_atom state = find_pane pane state.panes

  unfoldable pub pane_count_atom : WorkbenchState Layout → ℕ
  pane_count_atom state = length state.panes

  unfoldable pub pane_active_atom : WorkbenchState Layout → Bool
  unfolding active_pane_from_state
  pane_active_atom state =
      same_option (Option.map (λ p. p.id) (active_pane_from_state state)) (some pane)

  unfoldable pub pane_add_pane :
      Option String
      → String
      → String
      → WorkbenchState Layout
      → Storage
      → WorkbenchState Layout × Storage × String
  pane_add_pane machine_id tab_uuid pane_uuid = add_pane machine_id tab_uuid pane_uuid (some pane)

  unfoldable pub pane_add_files_tab :
      String → Option FilesView → WorkbenchState Layout → WorkbenchState Layout × String
  pane_add_files_tab uuid = add_files_tab uuid pane

  unfoldable pub pane_add_daemon_tab :
      String → WorkbenchState Layout → WorkbenchState Layout × String
  pane_add_daemon_tab uuid = add_daemon_tab uuid pane

  unfoldable pub pane_add_processes_tab :
      String → ProcessesTabConfig → WorkbenchState Layout → WorkbenchState Layout × String
  pane_add_processes_tab uuid = add_processes_tab uuid pane

  unfoldable pub pane_add_windows_tab :
      String → WindowsTabConfig → WorkbenchState Layout → WorkbenchState Layout × String
  pane_add_windows_tab uuid = add_windows_tab uuid pane

  unfoldable pub pane_add_terminal_tab :
      String → TerminalTabConfig → WorkbenchState Layout → WorkbenchState Layout
  pane_add_terminal_tab uuid = add_terminal_tab uuid pane

  unfoldable pub pane_remove_pane : WorkbenchState Layout → WorkbenchState Layout
  pane_remove_pane = remove_pane pane

  unfoldable pub pane_focus_pane : WorkbenchState Layout → WorkbenchState Layout
  pane_focus_pane = focus_pane pane

  unfoldable pub pane_select_tab : String → WorkbenchState Layout → WorkbenchState Layout
  unfolding select_tab
  pane_select_tab tab = select_tab pane tab

  unfoldable pub pane_close_tab : String → WorkbenchState Layout → WorkbenchState Layout
  pane_close_tab tab = close_tab pane tab

  unfoldable pub pane_duplicate_tab :
      Option String
      → String
      → String
      → WorkbenchState Layout
      → Storage
      → WorkbenchState Layout × Storage × Option String
  pane_duplicate_tab machine_id uuid tab = duplicate_tab machine_id uuid pane tab

  unfoldable pub pane_move_tab :
      String
      → String
      → Option String
      → TabDropPosition
      → WorkbenchState Layout
      → WorkbenchState Layout × Bool
  pane_move_tab source tab target_tab position = move_tab source tab pane target_tab position

  unfoldable pub pane_move_tab_to_new_pane :
      String
      → String
      → String
      → WorkbenchState Layout
      → WorkbenchState Layout × Option MoveTabToNewPaneResult
  pane_move_tab_to_new_pane uuid source tab = move_tab_to_new_pane uuid source tab pane

module _ {Layout : Type 0} (pane tab : String) where
  -- `workbenchTabBunja`'s atoms; its operations, which are the pane's on the tab.
  unfoldable pub tab_atom : WorkbenchState Layout → Option WorkbenchTab
  unfolding pane_atom
  tab_atom state = Option.bind (pane_atom pane state) (λ p. find_tab tab p.tabs)

  unfoldable pub tab_active_atom : WorkbenchState Layout → Bool
  unfolding pane_atom
  tab_active_atom state = same_option (active_tab_id_of (pane_atom pane state)) (some tab)

  unfoldable pub tab_focused_atom : WorkbenchState Layout → Bool
  unfolding pane_active_atom pane_atom
  tab_focused_atom state =
      pane_active_atom pane state
      && same_option (active_tab_id_of (pane_atom pane state)) (some tab)

  unfoldable pub show_close_atom : WorkbenchState Layout → Bool
  unfolding pane_atom pane_count_atom
  show_close_atom state =
      ltb 1 (tab_count (pane_atom pane state)) || ltb 1 (pane_count_atom pane state)

  unfoldable pub dirty_atom : WorkbenchState Layout → Bool
  unfolding tab_atom
  dirty_atom state = dirty_of (tab_atom state)

  unfoldable pub tab_select_tab : WorkbenchState Layout → WorkbenchState Layout
  unfolding pane_select_tab
  tab_select_tab = pane_select_tab pane tab

  unfoldable pub tab_set_terminal_session_id :
      Option String → WorkbenchState Layout → WorkbenchState Layout
  tab_set_terminal_session_id = set_terminal_session_id pane tab

  unfoldable pub tab_set_terminal_session_snapshot :
      TerminalSessionSnapshot → WorkbenchState Layout → WorkbenchState Layout
  tab_set_terminal_session_snapshot = set_terminal_session_snapshot pane tab

  unfoldable pub tab_set_daemon_client_detail_id :
      Option String → WorkbenchState Layout → WorkbenchState Layout
  tab_set_daemon_client_detail_id = set_daemon_client_detail_id pane tab

  unfoldable pub tab_set_daemon_clients_page_open :
      Bool → WorkbenchState Layout → WorkbenchState Layout
  tab_set_daemon_clients_page_open = set_daemon_clients_page_open pane tab

  unfoldable pub tab_set_process_detail_pid :
      Option ℕ → WorkbenchState Layout → WorkbenchState Layout
  tab_set_process_detail_pid = set_process_detail_pid pane tab

  unfoldable pub tab_set_process_page : ProcessPage → WorkbenchState Layout → WorkbenchState Layout
  tab_set_process_page = set_process_page pane tab

  unfoldable pub tab_set_window_detail_id :
      Option String → WorkbenchState Layout → WorkbenchState Layout
  tab_set_window_detail_id = set_window_detail_id pane tab

  unfoldable pub set_dirty : Bool → WorkbenchState Layout → WorkbenchState Layout
  unfolding set_tab_dirty
  set_dirty = set_tab_dirty pane tab
