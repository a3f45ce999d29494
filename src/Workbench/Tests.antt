-- ===== src/Workbench/Tests.antt =====
-- The theorems on the workbench at concrete states.
use mathlib.Core.Option
use whats_going_on.Prelude.{true, ◌≡◌, ◌≢◌, refl, none, [], ◌∷◌, if◌then◌else◌}
use whats_going_on.Workbench.Model.{
  same_iff, find_pane, find_tab, same, daemon, files, processes, terminal, windows, WorkbenchPane,
  WorkbenchState, at_end, has_tab,
}
use whats_going_on.Workbench.Tabs.{
  activate_pane_tab, close_in_pane, create_workbench_tab, create_files_tab, new_id,
}
use whats_going_on.Workbench.State.{initial_state, add_files_tab, add_pane}
use whats_going_on.Workbench.Moves.{move_tab, move_tab_to_new_pane}
use whats_going_on.Workbench.Counts.{count_tabs, count_pane}
use whats_going_on.Workbench.History.{PaneOk, activate_pane_tab-PaneOk}
use whats_going_on.Workbench.Panes.{
  close_in_pane-activate_pane_tab, activate_pane_tab-active_tab_id,
}
use whats_going_on.Workbench.Invariant.{Inv}
use whats_going_on.Workbench.Moved.{Keeps, move_tab-Keeps}
use whats_going_on.Workbench.NewPane.{move_tab_to_new_pane-Keeps}
use whats_going_on.Workbench.Opening.{FreshTabs}
use whats_going_on.Workbench.Reach.{Reach, here, next, files_in, add, Reach-Inv}
use whats_going_on.Workbench.Scopes.{
  tab_atom, pane_atom, dirty_atom, set_dirty, tab_focused_atom, tab_select_tab,
}
use whats_going_on.Workbench.Focus.{tab_focused_atom-tab_select_tab, dirty_atom-set_dirty}

-- Two panes, of two files tabs and of one.
abbrev first : WorkbenchState Unit
first = initial_state tt "p" "t"

abbrev two_tabs : WorkbenchState Unit
two_tabs = (add_files_tab "u" "pane-p" none first).0

abbrev two_panes : WorkbenchState Unit
two_panes = (add_pane none "v" "q" none two_tabs []).0

u-FreshTabs : FreshTabs "u" first.panes
unfolding same new_id initial_state count_tabs
u-FreshTabs daemon = refl
u-FreshTabs files = refl
u-FreshTabs processes = refl
u-FreshTabs terminal = refl
u-FreshTabs windows = refl

v-FreshTabs : FreshTabs "v" two_tabs.panes
unfolding same new_id has_tab initial_state add_files_tab count_tabs
v-FreshTabs daemon = refl
v-FreshTabs files = refl
v-FreshTabs processes = refl
v-FreshTabs terminal = refl
v-FreshTabs windows = refl

w-FreshTabs : FreshTabs "w" two_panes.panes
unfolding same new_id has_tab initial_state add_files_tab add_pane count_tabs
w-FreshTabs daemon = refl
w-FreshTabs files = refl
w-FreshTabs processes = refl
w-FreshTabs terminal = refl
w-FreshTabs windows = refl

two_panes-Reach : Reach first two_panes
unfolding same new_id has_tab initial_state add_files_tab count_pane
two_panes-Reach =
    next (next here (files_in "u" "pane-p" none u-FreshTabs))
      (add none "v" "q" none [] v-FreshTabs refl)

Reach-Inv_example : Inv two_panes.panes
Reach-Inv_example = Reach-Inv tt "p" "t" two_panes two_panes-Reach

two_panes-Inv : Inv two_panes.panes
two_panes-Inv = Reach-Inv tt "p" "t" two_panes two_panes-Reach

move_tab-Keeps_example :
    Keeps two_panes.panes (move_tab "pane-p" "files-u" "pane-q" none at_end two_panes).0.panes
move_tab-Keeps_example =
    move_tab-Keeps "pane-p" "files-u" "pane-q" none at_end two_panes two_panes-Inv

move_tab_to_new_pane-Keeps_example :
    Keeps two_panes.panes (move_tab_to_new_pane "r" "pane-p" "files-u" "pane-q" two_panes).0.panes
unfolding same new_id has_tab initial_state add_files_tab add_pane count_pane
move_tab_to_new_pane-Keeps_example =
    move_tab_to_new_pane-Keeps "r" "pane-p" "files-u" "pane-q" two_panes refl two_panes-Inv

abbrev pane : WorkbenchPane
pane = record {
  id = "pane-p";
  tabs = create_files_tab "t" none ∷ create_files_tab "u" none ∷ [];
  active_tab_id = "files-t";
}

named : pane.active_tab_id ≢ ""
unfolding same
named e = cc

apart : pane.active_tab_id ≢ "files-u"
unfolding same
apart e = cc ((same_iff "files-t" "files-u").1 e)

close_in_pane-activate_pane_tab_example :
    (close_in_pane (activate_pane_tab pane "files-u") "files-u").active_tab_id ≡ pane.active_tab_id
unfolding same new_id has_tab create_files_tab create_workbench_tab
close_in_pane-activate_pane_tab_example =
    close_in_pane-activate_pane_tab pane "files-u" refl named apart refl

activate_pane_tab-active_tab_id_example :
    (activate_pane_tab pane "files-u").active_tab_id
    ≡ (if has_tab "files-u" pane.tabs then "files-u" else pane.active_tab_id)
unfolding same new_id has_tab create_files_tab create_workbench_tab
activate_pane_tab-active_tab_id_example = activate_pane_tab-active_tab_id pane "files-u" refl

activate_pane_tab-PaneOk_example : PaneOk (activate_pane_tab pane "files-u")
activate_pane_tab-PaneOk_example = activate_pane_tab-PaneOk pane "files-u" tt

abbrev one_pane : WorkbenchState Unit
one_pane = record { layout = tt; active_pane_id = none; panes = pane ∷ [] }

tab_focused_atom-tab_select_tab_example :
    tab_focused_atom "pane-p" "files-u" (tab_select_tab "pane-p" "files-u" one_pane) ≡ true
unfolding same new_id find_pane has_tab create_files_tab create_workbench_tab
tab_focused_atom-tab_select_tab_example =
    tab_focused_atom-tab_select_tab "pane-p" "files-u" one_pane pane refl refl refl

dirty_atom-set_dirty_example :
    dirty_atom "pane-p" "files-u" (set_dirty "pane-p" "files-u" true one_pane) ≡ true
unfolding same new_id find_pane has_tab create_files_tab create_workbench_tab tab_atom pane_atom
    Option.bind find_tab
dirty_atom-set_dirty_example =
    dirty_atom-set_dirty "pane-p" "files-u" true one_pane (create_files_tab "u" none) refl
