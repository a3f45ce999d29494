-- ===== src/Workbench/State.antt =====
-- web/src/state/workbench.ts, lines 106-679 and 1103-1170: the operations on the workbench's state.
-- `crypto.randomUUID()` is an argument, and each operation is one `store.set`. Setters that leave
-- the state as it is return the same object there, an equal value here.
use Prim.Native.String.{String, ◌++◌ as concat}
use mathlib.Core.Option
use mathlib.Core.List.{head?}
use whats_going_on.Prelude.{
  Bool, true, false, not, ◌&&◌, Option, none, some, List, [], ◌∷◌, ◌++◌, map, leb, length,
  if◌then◌else◌,
}
use whats_going_on.Workbench.Model.{
  same, same_option, same_tool, WorkbenchTool, daemon, files, FilesView, WorkbenchTab,
  TerminalTabConfig, ProcessesTabConfig, WindowsTabConfig, WorkbenchPane, WorkbenchState, find_tab,
  find_pane, has_pane,
}
use whats_going_on.Workbench.Tabs.{
  activate_pane_tab, create_workbench_tab, create_files_tab, create_processes_tab,
  create_windows_tab, create_terminal_tab, clone_workbench_tab,
}
use whats_going_on.Workbench.Storage.{Storage, copy_tab_state}

abbrev pub pane_id : String → String
pane_id uuid = concat "pane-" uuid

-- `panes.map` on the pane with the id.
abbrev pub map_pane :
    String → (WorkbenchPane → WorkbenchPane) → List WorkbenchPane → List WorkbenchPane
map_pane id f = map (λ pane. if same pane.id id then f pane else pane)

-- `panes.map` and `tabs.map` on the tab with the id, where the test holds.
abbrev pub update_tab :
    String
    → String
    → (WorkbenchTab → Bool)
    → (WorkbenchTab → WorkbenchTab)
    → List WorkbenchPane
    → List WorkbenchPane
update_tab pane tab test f =
    map_pane pane
      λ p. record p { tabs = map (λ t. if same t.id tab && test t then f t else t) p.tabs }

-- `activePaneFromState` and `activeTabFromPane`.
abbrev pub or_first {ℓ} : {A : Type ℓ} → Option A → List A → Option A
or_first none [] = none
or_first none (a ∷ rest) = some a
or_first (some a) rest = some a

unfoldable pub find_active_pane : Option String → List WorkbenchPane → Option WorkbenchPane
find_active_pane none panes = none
find_active_pane (some id) panes = find_pane id panes

unfoldable pub active_tab_from_pane : Option WorkbenchPane → Option WorkbenchTab
active_tab_from_pane none = none
active_tab_from_pane (some pane) = or_first (find_tab pane.active_tab_id pane.tabs) pane.tabs

unfoldable pub without_pane : String → List WorkbenchPane → List WorkbenchPane
without_pane id [] = []
without_pane id (pane ∷ panes) = elim (same pane.id id) [
  | true ↦ without_pane id panes
  | false ↦ pane ∷ without_pane id panes
]

-- The first tab of a tool.
unfoldable pub find_tool : WorkbenchTool → List WorkbenchTab → Option WorkbenchTab
find_tool tool [] = none
find_tool tool (tab ∷ tabs) = elim (same_tool tab.tool tool) [
  | true ↦ some tab
  | false ↦ find_tool tool tabs
]

-- What `openToolTabInActivePane` does to the active pane.
unfoldable pub open_tool_in_pane : String → WorkbenchTool → WorkbenchPane → WorkbenchPane
unfolding find_tool activate_pane_tab create_workbench_tab
open_tool_in_pane uuid tool pane = elim (find_tool tool pane.tabs) [
  | some existing ↦ activate_pane_tab pane existing.id
  | none ↦
      let tab = create_workbench_tab uuid tool in
      activate_pane_tab (record pane { tabs = pane.tabs ++ tab ∷ [] }) tab.id
]

-- The tab that `addPane` shows: a copy of the source pane's active or first tab, or a files tab.
unfoldable pub source_tab : Option String → List WorkbenchPane → Option WorkbenchTab
unfolding active_tab_from_pane
source_tab none panes = none
source_tab (some id) panes = active_tab_from_pane (find_pane id panes)

module _ {Layout : Type 0} where
  unfoldable pub active_pane_from_state : WorkbenchState Layout → Option WorkbenchPane
  unfolding find_active_pane
  active_pane_from_state state =
      or_first (find_active_pane state.active_pane_id state.panes) state.panes

  unfoldable pub open_tab_in_pane :
      WorkbenchState Layout → String → WorkbenchTab → WorkbenchState Layout
  unfolding activate_pane_tab
  open_tab_in_pane state id tab = record state {
    active_pane_id = some id;
    panes =
        map_pane id
          (λ pane. activate_pane_tab (record pane { tabs = pane.tabs ++ tab ∷ [] }) tab.id)
          state.panes;
  }

  unfoldable pub open_tab_in_active_pane :
      WorkbenchState Layout → WorkbenchTab → WorkbenchState Layout
  unfolding active_pane_from_state open_tab_in_pane
  open_tab_in_active_pane state tab = elim (active_pane_from_state state) [
    | none ↦ state
    | some pane ↦ if same pane.id "" then state else open_tab_in_pane state pane.id tab
  ]

  -- `opened` is set, since the active pane is among the panes.
  unfoldable pub open_tool_tab_in_active_pane :
      String → WorkbenchState Layout → WorkbenchTool → WorkbenchState Layout
  unfolding active_pane_from_state open_tool_in_pane
  open_tool_tab_in_active_pane uuid state tool = elim (active_pane_from_state state) [
    | none ↦ state
    | some pane ↦ if same pane.id "" then state else record state {
      active_pane_id = some pane.id;
      panes = map_pane pane.id (open_tool_in_pane uuid tool) state.panes;
    }
  ]

  unfoldable pub set_layout : Layout → WorkbenchState Layout → WorkbenchState Layout
  set_layout layout state = record state { layout = layout }

  unfoldable pub focus_pane : String → WorkbenchState Layout → WorkbenchState Layout
  focus_pane id state =
      if same_option state.active_pane_id (some id)
      then state
      else if not (has_pane id state.panes)
      then state
      else record state { active_pane_id = some id }

  unfoldable pub add_pane :
      Option String
      → String
      → String
      → Option String
      → WorkbenchState Layout
      → Storage
      → WorkbenchState Layout × Storage × String
  unfolding source_tab copy_tab_state
  add_pane machine_id tab_uuid pane_uuid source state storage =
      let copied = source_tab source state.panes in
      let tab : WorkbenchTab = elim copied [
        | none ↦ create_files_tab tab_uuid none
        | some t ↦ clone_workbench_tab tab_uuid t
      ] in
      let pane : WorkbenchPane = record {
        id = pane_id pane_uuid;
        tabs = tab ∷ [];
        active_tab_id = tab.id;
      } in
      (
        record state { active_pane_id = some pane.id; panes = state.panes ++ pane ∷ [] },
        elim copied [ none ↦ storage | some t ↦ copy_tab_state machine_id t tab storage ],
        pane.id,
      )

  unfoldable pub remove_pane : String → WorkbenchState Layout → WorkbenchState Layout
  remove_pane id state =
      let panes = without_pane id state.panes in
      if leb (length state.panes) 1 then state else record state {
        panes = panes;
        active_pane_id =
            if same_option state.active_pane_id (some id)
            then Option.map (λ pane. pane.id) (head? panes)
            else state.active_pane_id;
      }

  unfoldable pub add_files_tab :
      String → String → Option FilesView → WorkbenchState Layout → WorkbenchState Layout × String
  unfolding create_files_tab open_tab_in_pane
  add_files_tab uuid pane config state =
      let tab = create_files_tab uuid config in (open_tab_in_pane state pane tab, tab.id)

  unfoldable pub add_tool_tab :
      String → String → WorkbenchTool → WorkbenchState Layout → WorkbenchState Layout × String
  unfolding create_workbench_tab open_tab_in_pane
  add_tool_tab uuid pane tool state =
      let tab = create_workbench_tab uuid tool in (open_tab_in_pane state pane tab, tab.id)

  unfoldable pub add_daemon_tab :
      String → String → WorkbenchState Layout → WorkbenchState Layout × String
  unfolding add_tool_tab
  add_daemon_tab uuid pane state = add_tool_tab uuid pane daemon state

  unfoldable pub add_processes_tab :
      String → String → ProcessesTabConfig → WorkbenchState Layout → WorkbenchState Layout × String
  unfolding create_processes_tab open_tab_in_pane
  add_processes_tab uuid pane config state =
      let tab = create_processes_tab uuid config in (open_tab_in_pane state pane tab, tab.id)

  unfoldable pub add_windows_tab :
      String → String → WindowsTabConfig → WorkbenchState Layout → WorkbenchState Layout × String
  unfolding create_windows_tab open_tab_in_pane
  add_windows_tab uuid pane config state =
      let tab = create_windows_tab uuid config in (open_tab_in_pane state pane tab, tab.id)

  unfoldable pub add_terminal_tab :
      String → String → TerminalTabConfig → WorkbenchState Layout → WorkbenchState Layout
  unfolding create_terminal_tab open_tab_in_pane
  add_terminal_tab uuid pane config state =
      open_tab_in_pane state pane (create_terminal_tab uuid config)

  unfoldable pub open_terminal_tab :
      String → TerminalTabConfig → WorkbenchState Layout → WorkbenchState Layout
  unfolding create_terminal_tab open_tab_in_active_pane
  open_terminal_tab uuid config state =
      open_tab_in_active_pane state (create_terminal_tab uuid config)

  unfoldable pub open_files_tab :
      String → Option FilesView → WorkbenchState Layout → WorkbenchState Layout
  unfolding create_files_tab open_tab_in_active_pane
  open_files_tab uuid config state = open_tab_in_active_pane state (create_files_tab uuid config)

  unfoldable pub select_tool :
      String → WorkbenchTool → WorkbenchState Layout → WorkbenchState Layout
  unfolding open_tool_tab_in_active_pane
  select_tool uuid tool state = open_tool_tab_in_active_pane uuid state tool

  -- `activeToolAtom`.
  unfoldable pub active_tool : WorkbenchState Layout → WorkbenchTool
  unfolding active_pane_from_state active_tab_from_pane
  active_tool state = elim (active_tab_from_pane (active_pane_from_state state)) [
    | none ↦ files
    | some tab ↦ tab.tool
  ]

  -- The state of a machine that has none stored, with a files tab in one pane.
  unfoldable pub initial_state : Layout → String → String → WorkbenchState Layout
  unfolding create_files_tab
  initial_state layout pane_uuid tab_uuid =
      let tab = create_files_tab tab_uuid none in
      record {
        layout = layout;
        active_pane_id = some (pane_id pane_uuid);
        panes = record { id = pane_id pane_uuid; tabs = tab ∷ []; active_tab_id = tab.id } ∷ [];
      }
