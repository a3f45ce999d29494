-- ===== src/Workbench/Tabs.antt =====
-- web/src/state/workbench.ts, lines 935-1101 and 1172-1219: operations on the tabs of one pane, and
-- new tabs. `crypto.randomUUID()` is an argument.
use Prim.Native.String.{String, ◌++◌ as concat}
use whats_going_on.Prelude.{
  Bool, true, false, not, ◌&&◌, Option, none, some, List, [], ◌∷◌, ◌++◌, map, if◌then◌else◌,
}
use whats_going_on.Workbench.Model.{
  same, same_option, same_tool, WorkbenchTool, daemon, files, processes, terminal, windows,
  FilesView, roots, home, trash, detail, TerminalLaunchSpec, WorkbenchTab, TerminalTabConfig,
  ProcessesTabConfig, WindowsTabConfig, WorkbenchPane, TabDropPosition, before, after, at_end,
  find_tab, has_tab, without_tab,
}

-- `a ?? b`.
abbrev pub or_else {ℓ} : {A : Type ℓ} → Option A → A → A
or_else none b = b
or_else (some a) b = a

-- `tabs[0]?.id ?? ""`.
abbrev pub first_id : List WorkbenchTab → String
first_id [] = ""
first_id (tab ∷ tabs) = tab.id

-- The tab's `previousActiveTabId` when it is kept: not empty, not the tab's own, and open.
unfoldable pub keeps_history : List WorkbenchTab → WorkbenchTab → Bool
keeps_history tabs tab = elim tab.previous_active_tab_id [
  | none ↦ true
  | some previous ↦ not (same previous "") && (not (same previous tab.id) && has_tab previous tabs)
]

unfoldable pub normalize_tab : List WorkbenchTab → WorkbenchTab → WorkbenchTab
unfolding keeps_history
normalize_tab tabs tab =
    if keeps_history tabs tab then tab else record tab { previous_active_tab_id = none }

unfoldable pub normalize_pane_tab_history : WorkbenchPane → WorkbenchPane
unfolding normalize_tab
normalize_pane_tab_history pane = record pane {
  active_tab_id =
      if has_tab pane.active_tab_id pane.tabs then pane.active_tab_id else first_id pane.tabs;
  tabs = map (normalize_tab pane.tabs) pane.tabs;
}

abbrev pub set_previous : String → Option String → WorkbenchTab → WorkbenchTab
set_previous id previous tab =
    if same tab.id id then record tab { previous_active_tab_id = previous } else tab

-- The pane with another active tab, which remembers the one before it if that is open.
abbrev pub switch_active : WorkbenchPane → String → WorkbenchPane
switch_active pane tab_id = record pane {
  active_tab_id = tab_id;
  tabs =
      map
        (set_previous tab_id
          (if has_tab pane.active_tab_id pane.tabs then some pane.active_tab_id else none))
        pane.tabs;
}

unfoldable pub activate_pane_tab : WorkbenchPane → String → WorkbenchPane
unfolding normalize_pane_tab_history
activate_pane_tab pane tab_id =
    if not (has_tab tab_id pane.tabs)
    then normalize_pane_tab_history pane
    else if same pane.active_tab_id tab_id
    then normalize_pane_tab_history pane
    else normalize_pane_tab_history (switch_active pane tab_id)

unfoldable pub fallback_active_tab_id : Option WorkbenchTab → List WorkbenchTab → String
fallback_active_tab_id closing tabs = elim closing [
  | none ↦ first_id tabs
  | some tab ↦ elim tab.previous_active_tab_id [
    | none ↦ first_id tabs
    | some previous ↦
        if not (same previous "") && has_tab previous tabs then previous else first_id tabs
  ]
]

-- `slice` and splice at `findIndex`: before or behind the first tab with the target's id, or at the
-- end where there is none.
unfoldable pub insert_at : List WorkbenchTab → WorkbenchTab → String → Bool → List WorkbenchTab
insert_at [] tab target is_before = tab ∷ []
insert_at (t ∷ tabs) tab target is_before = elim (same t.id target) [
  | true ↦ if is_before then tab ∷ t ∷ tabs else t ∷ tab ∷ tabs
  | false ↦ t ∷ insert_at tabs tab target is_before
]

unfoldable pub insert_tab :
    List WorkbenchTab → WorkbenchTab → Option String → TabDropPosition → List WorkbenchTab
unfolding insert_at
insert_tab tabs tab none position = tabs ++ tab ∷ []
insert_tab tabs tab (some target) at_end = tabs ++ tab ∷ []
insert_tab tabs tab (some target) before =
    if same target "" then tabs ++ tab ∷ [] else insert_at tabs tab target true
insert_tab tabs tab (some target) after =
    if same target "" then tabs ++ tab ∷ [] else insert_at tabs tab target false

unfoldable pub move_tab_within_pane :
    WorkbenchPane → String → Option String → TabDropPosition → WorkbenchPane
unfolding insert_tab activate_pane_tab
move_tab_within_pane pane tab_id target position =
    let moved : WorkbenchPane = elim (find_tab tab_id pane.tabs) [
      | none ↦ pane
      | some tab ↦
          let tabs = insert_tab (without_tab tab_id pane.tabs) tab target position in
          activate_pane_tab (record pane { tabs = tabs }) tab_id
    ] in
    if same_option target (some tab_id) then pane else moved

-- What both ways to move a tab and `closeTab` leave of a pane without the tab.
abbrev pub drop_tab : WorkbenchPane → String → WorkbenchPane
drop_tab pane tab_id = record pane {
  tabs = without_tab tab_id pane.tabs;
  active_tab_id =
      if same pane.active_tab_id tab_id
      then fallback_active_tab_id (find_tab tab_id pane.tabs) (without_tab tab_id pane.tabs)
      else pane.active_tab_id;
}

unfoldable pub close_in_pane : WorkbenchPane → String → WorkbenchPane
unfolding fallback_active_tab_id normalize_pane_tab_history
close_in_pane pane tab_id = normalize_pane_tab_history (drop_tab pane tab_id)

abbrev pub title_for_tool : WorkbenchTool → String
title_for_tool daemon = "Daemon"
title_for_tool files = "Files"
title_for_tool processes = "Processes"
title_for_tool terminal = "Terminal"
title_for_tool windows = "Windows"

abbrev pub title_for_files_view : FilesView → String
title_for_files_view roots = "Root"
title_for_files_view home = "Home"
title_for_files_view trash = "Trash"

abbrev pub tool_name : WorkbenchTool → String
tool_name daemon = "daemon"
tool_name files = "files"
tool_name processes = "processes"
tool_name terminal = "terminal"
tool_name windows = "windows"

-- `${tool}-${crypto.randomUUID()}`.
unfoldable pub new_id : WorkbenchTool → String → String
new_id tool uuid = concat (tool_name tool) (concat "-" uuid)

unfoldable pub create_workbench_tab : String → WorkbenchTool → WorkbenchTab
create_workbench_tab uuid tool = record {
  daemon_client_detail_id = none;
  daemon_clients_page_open = none;
  dirty = none;
  files_view = none;
  id = new_id tool uuid;
  previous_active_tab_id = none;
  process_detail_pid = none;
  process_page = none;
  title = title_for_tool tool;
  tool = tool;
  terminal_launch = none;
  terminal_last_known_cwd = none;
  terminal_last_known_title = none;
  terminal_session_id = none;
  window_detail_id = none;
}

unfoldable pub create_files_tab : String → Option FilesView → WorkbenchTab
unfolding create_workbench_tab
create_files_tab uuid config =
    let tab = create_workbench_tab uuid files in
    record tab {
      files_view = some (or_else config roots);
      title = title_for_files_view (or_else config roots);
    }

unfoldable pub create_processes_tab : String → ProcessesTabConfig → WorkbenchTab
unfolding create_workbench_tab
create_processes_tab uuid config =
    let tab = create_workbench_tab uuid processes in
    record tab {
      process_detail_pid = config.process_detail_pid;
      process_page = elim config.process_detail_pid [
        | none ↦ none
        | some pid ↦ some (or_else config.process_page detail)
      ];
      title = or_else config.title "Processes";
    }

unfoldable pub create_windows_tab : String → WindowsTabConfig → WorkbenchTab
unfolding create_workbench_tab
create_windows_tab uuid config =
    let tab = create_workbench_tab uuid windows in
    record tab {
      title = or_else config.title "Windows";
      window_detail_id = config.window_detail_id;
    }

abbrev pub or_option {ℓ} : {A : Type ℓ} → Option A → Option A → Option A
or_option none b = b
or_option (some a) b = some a

unfoldable pub create_terminal_tab : String → TerminalTabConfig → WorkbenchTab
unfolding create_workbench_tab
create_terminal_tab uuid config =
    let tab = create_workbench_tab uuid terminal in
    record tab {
      title = or_else config.title "Terminal";
      terminal_last_known_cwd = config.cwd;
      terminal_last_known_title = or_option config.terminal_title config.title;
      terminal_launch = config.launch;
      terminal_session_id = config.session_id;
    }

-- `cloneTerminalLaunch` copies the launch and its arguments: values here.
abbrev pub clone_terminal_launch : Option TerminalLaunchSpec → Option TerminalLaunchSpec
clone_terminal_launch none = none
clone_terminal_launch (some launch) = some (record { command = launch.command; args = launch.args })

unfoldable pub clone_workbench_tab : String → WorkbenchTab → WorkbenchTab
unfolding create_terminal_tab
clone_workbench_tab uuid tab =
    if same_tool tab.tool terminal
    then create_terminal_tab uuid (record {
      cwd = tab.terminal_last_known_cwd;
      launch = clone_terminal_launch tab.terminal_launch;
      session_id = none;
      terminal_title = tab.terminal_last_known_title;
      title = some tab.title;
    })
    else record tab { dirty = none; id = new_id tab.tool uuid; previous_active_tab_id = none }

-- `every` after the lengths are compared.
abbrev pub same_args : List String → List String → Bool
same_args [] [] = true
same_args (l ∷ left) (r ∷ right) = same l r && same_args left right
same_args _ _ = false

unfoldable pub terminal_launch_equals : Option TerminalLaunchSpec → Option TerminalLaunchSpec → Bool
terminal_launch_equals none none = true
terminal_launch_equals (some l) (some r) = same l.command r.command && same_args l.args r.args
terminal_launch_equals _ _ = false
