-- ===== src/Workbench/Model.antt =====
-- web/src/state/workbench.ts, lines 13-91: tabs, panes and the state. `T | undefined` is `Option T`,
-- and a field that is absent is one that is undefined.
use Prim.Native.String.{String}
use mathlib.Core.Bool.{Bool, true, false}
use mathlib.Core.Logic.{◌↔◌}
use mathlib.Core.Path.{◌≡◌}
use mathlib.Core.List.{List, [], ◌∷◌}
use mathlib.Core.Option.{Option, none, some}
use text.Mathlib.Text.{◌==◌}
use text.Mathlib.TextEquality.{eq_iff}
use whats_going_on.Prelude.{ℕ}

-- `===` on texts.
unfoldable pub same : String → String → Bool
same s t = s == t

pub same_iff : (s t : String) → (same s t ≡ true) ↔ (s ≡ t)
unfolding same
same_iff s t = eq_iff s t

-- `===` on texts that may be undefined.
abbrev pub same_option : Option String → Option String → Bool
same_option none none = true
same_option (some s) (some t) = same s t
same_option _ _ = false

-- A text is falsy when it is empty or undefined.
abbrev pub is_falsy : Option String → Bool
is_falsy none = true
is_falsy (some s) = same s ""

pub data WorkbenchTool : Type 0 where
  daemon files processes terminal windows : WorkbenchTool

abbrev pub same_tool : WorkbenchTool → WorkbenchTool → Bool
same_tool daemon daemon = true
same_tool files files = true
same_tool processes processes = true
same_tool terminal terminal = true
same_tool windows windows = true
same_tool _ _ = false

pub data FilesView : Type 0 where
  roots home trash : FilesView

pub data ProcessPage : Type 0 where
  detail children held_resources held_sockets modules : ProcessPage

-- `TerminalLaunchSpec` of web/src/protocol/generated/rpc.ts.
pub record TerminalLaunchSpec : Type 0 where
  pub command : String
  pub args : List String

pub record WorkbenchTab : Type 0 where
  pub daemon_client_detail_id : Option String
  pub daemon_clients_page_open : Option Bool
  pub dirty : Option Bool
  pub files_view : Option FilesView
  pub id : String
  pub previous_active_tab_id : Option String
  pub process_detail_pid : Option ℕ
  pub process_page : Option ProcessPage
  pub title : String
  pub tool : WorkbenchTool
  pub terminal_launch : Option TerminalLaunchSpec
  pub terminal_last_known_cwd : Option String
  pub terminal_last_known_title : Option String
  pub terminal_session_id : Option String
  pub window_detail_id : Option String

pub record TerminalTabConfig : Type 0 where
  pub cwd : Option String
  pub launch : Option TerminalLaunchSpec
  pub session_id : Option String
  pub terminal_title : Option String
  pub title : Option String

pub record ProcessesTabConfig : Type 0 where
  pub process_detail_pid : Option ℕ
  pub process_page : Option ProcessPage
  pub title : Option String

pub record WindowsTabConfig : Type 0 where
  pub title : Option String
  pub window_detail_id : Option String

pub record TerminalSessionSnapshot : Type 0 where
  pub last_known_cwd : Option String
  pub last_known_title : Option String
  pub launch : Option TerminalLaunchSpec

pub record WorkbenchPane : Type 0 where
  pub id : String
  pub tabs : List WorkbenchTab
  pub active_tab_id : String

pub record MoveTabToNewPaneResult : Type 0 where
  pub new_pane_id : String
  pub source_pane_removed : Bool

-- `LayoutState` is the layout library's, and the workbench only carries it.
pub record WorkbenchState (Layout : Type 0) : Type 0 where
  pub layout : Layout
  pub active_pane_id : Option String
  pub panes : List WorkbenchPane

pub data TabDropPosition : Type 0 where
  before after at_end : TabDropPosition

-- `find`, `some` and `filter` by id.
unfoldable pub find_tab : String → List WorkbenchTab → Option WorkbenchTab
find_tab id [] = none
find_tab id (tab ∷ tabs) = elim (same tab.id id) [ true ↦ some tab | false ↦ find_tab id tabs ]

unfoldable pub has_tab : String → List WorkbenchTab → Bool
has_tab id [] = false
has_tab id (tab ∷ tabs) = elim (same tab.id id) [ true ↦ true | false ↦ has_tab id tabs ]

unfoldable pub without_tab : String → List WorkbenchTab → List WorkbenchTab
without_tab id [] = []
without_tab id (tab ∷ tabs) = elim (same tab.id id) [
  | true ↦ without_tab id tabs
  | false ↦ tab ∷ without_tab id tabs
]

unfoldable pub find_pane : String → List WorkbenchPane → Option WorkbenchPane
find_pane id [] = none
find_pane id (pane ∷ panes) = elim (same pane.id id) [
  | true ↦ some pane
  | false ↦ find_pane id panes
]

unfoldable pub has_pane : String → List WorkbenchPane → Bool
has_pane id [] = false
has_pane id (pane ∷ panes) = elim (same pane.id id) [ true ↦ true | false ↦ has_pane id panes ]
