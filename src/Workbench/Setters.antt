-- ===== src/Workbench/Setters.antt =====
-- web/src/state/workbench.ts, lines 259-473: the setters of one tab.
use Prim.Native.String.{String}
use whats_going_on.Prelude.{ℕ, Bool, true, false, not, ◌&&◌, Option, none, some, if◌then◌else◌}
use whats_going_on.Workbench.Model.{
  same_option, same_tool, WorkbenchTool, daemon, processes, terminal, windows, ProcessPage, detail,
  WorkbenchTab, TerminalSessionSnapshot, WorkbenchState,
}
use whats_going_on.Workbench.Tabs.{terminal_launch_equals}
use whats_going_on.Workbench.State.{update_tab}

-- `tab.tool === tool`.
abbrev pub is_tool : WorkbenchTool → WorkbenchTab → Bool
is_tool tool tab = same_tool tab.tool tool

-- `Boolean(value)`, and `===` of booleans.
abbrev pub is_true : Option Bool → Bool
is_true (some true) = true
is_true _ = false

abbrev pub same_bool : Bool → Bool → Bool
same_bool true b = b
same_bool false b = not b

abbrev pub is_some : Option ℕ → Bool
is_some none = false
is_some (some n) = true

-- What each setter writes into its tab.
unfoldable pub write_snapshot : TerminalSessionSnapshot → WorkbenchTab → WorkbenchTab
unfolding terminal_launch_equals
write_snapshot snapshot tab =
    if terminal_launch_equals tab.terminal_launch snapshot.launch
      && (same_option tab.terminal_last_known_cwd snapshot.last_known_cwd
          && same_option tab.terminal_last_known_title snapshot.last_known_title)
    then tab
    else record tab {
      terminal_last_known_cwd = snapshot.last_known_cwd;
      terminal_last_known_title = snapshot.last_known_title;
      terminal_launch = snapshot.launch;
    }

unfoldable pub write_dirty : Bool → WorkbenchTab → WorkbenchTab
write_dirty dirty tab =
    if same_bool (is_true tab.dirty) dirty
    then tab
    else record tab { dirty = if dirty then some true else none }

unfoldable pub write_process_detail : Option ℕ → WorkbenchTab → WorkbenchTab
write_process_detail pid tab = record tab {
  process_detail_pid = pid;
  process_page = elim pid [ none ↦ none | some n ↦ some detail ];
}

module _ {Layout : Type 0} (pane tab : String) where
  -- `panes` with the tab rewritten.
  abbrev pub set_tab :
      (WorkbenchTab → Bool)
      → (WorkbenchTab → WorkbenchTab)
      → WorkbenchState Layout
      → WorkbenchState Layout
  set_tab test f state = record state { panes = update_tab pane tab test f state.panes }

  unfoldable pub set_terminal_session_id :
      Option String → WorkbenchState Layout → WorkbenchState Layout
  set_terminal_session_id session =
      set_tab (is_tool terminal) λ t. record t { terminal_session_id = session }

  unfoldable pub set_terminal_session_snapshot :
      TerminalSessionSnapshot → WorkbenchState Layout → WorkbenchState Layout
  unfolding write_snapshot
  set_terminal_session_snapshot snapshot = set_tab (is_tool terminal) (write_snapshot snapshot)

  unfoldable pub set_tab_dirty : Bool → WorkbenchState Layout → WorkbenchState Layout
  unfolding write_dirty
  set_tab_dirty dirty = set_tab (λ t. true) (write_dirty dirty)

  unfoldable pub set_daemon_client_detail_id :
      Option String → WorkbenchState Layout → WorkbenchState Layout
  set_daemon_client_detail_id client =
      set_tab (is_tool daemon) λ t. record t { daemon_client_detail_id = client }

  unfoldable pub set_daemon_clients_page_open : Bool → WorkbenchState Layout → WorkbenchState Layout
  set_daemon_clients_page_open page_open =
      set_tab (is_tool daemon) λ t. record t { daemon_clients_page_open = some page_open }

  unfoldable pub set_process_detail_pid : Option ℕ → WorkbenchState Layout → WorkbenchState Layout
  unfolding write_process_detail
  set_process_detail_pid pid = set_tab (is_tool processes) (write_process_detail pid)

  unfoldable pub set_process_page : ProcessPage → WorkbenchState Layout → WorkbenchState Layout
  set_process_page page =
      set_tab (λ t. is_tool processes t && is_some t.process_detail_pid)
        λ t. record t { process_page = some page }

  unfoldable pub set_window_detail_id :
      Option String → WorkbenchState Layout → WorkbenchState Layout
  set_window_detail_id window =
      set_tab (is_tool windows) λ t. record t { window_detail_id = window }
