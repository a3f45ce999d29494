-- ===== src/Workbench/Opening.antt =====
-- web/src/state/workbench.ts: the first state, new panes and copied tabs.
use Prim.Native.String.{String}
use whats_going_on.Prelude.{
  ◌≡◌, refl, inl, inr, Option, none, some, List, [], ◌∷◌, ◌++◌, arith, Bool-cases, Option-cases,
}
use whats_going_on.Workbench.Model.{
  same, same_iff, same_tool, WorkbenchTool, files, terminal, WorkbenchTab, WorkbenchPane,
  WorkbenchState, after, has_tab,
}
use whats_going_on.Workbench.Tabs.{
  activate_pane_tab, insert_tab, new_id, create_workbench_tab, create_files_tab,
  create_terminal_tab, clone_workbench_tab,
}
use whats_going_on.Workbench.Storage.{Storage}
use whats_going_on.Workbench.State.{pane_id, source_tab, initial_state, add_pane, map_pane}
use whats_going_on.Workbench.Moves.{duplicate_tab, tab_in_pane}
use whats_going_on.Workbench.Counts.{
  one_if, count_tab, count_tabs, count_pane, count_tab-insert_tab,
}
use whats_going_on.Workbench.History.{PaneOk, activate_pane_tab-PaneOk}
use whats_going_on.Workbench.Panes.{activate-id, count_tab-activate}
use whats_going_on.Workbench.Invariant.{Inv, map_pane-Inv, append_pane-Inv, fresh_room}
use whats_going_on.Workbench.Moved.{insert-IsNonEmpty}

-- The tabs named after the uuid are not there, and neither is the pane.
abbrev pub FreshTabs : String → List WorkbenchPane → Type 0
FreshTabs uuid panes = (tool : WorkbenchTool) → count_tabs (new_id tool uuid) panes ≡ 0

abbrev pub FreshPane : String → List WorkbenchPane → Type 0
FreshPane uuid panes = count_pane (pane_id uuid) panes ≡ 0

-- A tab named after the uuid, that remembers no other.
pub record IsNew (uuid : String) (t : WorkbenchTab) : Type 0 where
  pub tool : WorkbenchTool
  pub named : t.id ≡ new_id tool uuid
  pub no_previous : t.previous_active_tab_id ≡ none

clone-IsNew : (uuid : String) (t : WorkbenchTab) → IsNew uuid (clone_workbench_tab uuid t)
unfolding clone_workbench_tab create_terminal_tab create_workbench_tab
clone-IsNew uuid t = elim (Bool-cases (same_tool t.tool terminal)) [
  | inl e ↦ rw e (record { tool = terminal; named = refl; no_previous = refl })
  | inr e ↦ rw e (record { tool = t.tool; named = refl; no_previous = refl })
]

files-IsNew : (uuid : String) → IsNew uuid (create_files_tab uuid none)
unfolding create_files_tab create_workbench_tab
files-IsNew uuid = record { tool = files; named = refl; no_previous = refl }

-- A pane with one new tab.
pub one_tab-PaneOk :
    (id : String) (t : WorkbenchTab)
    → t.previous_active_tab_id ≡ none
    → PaneOk (record { id = id; tabs = t ∷ []; active_tab_id = t.id })
unfolding has_tab
one_tab-PaneOk id t e = record {
  active_open = ground (arith, same_iff t.id t.id);
  history_open = ((λ previous h. cc), tt);
}

module _ {Layout : Type 0} where
  -- The state of a machine that has none stored satisfies the invariant.
  pub initial_state-Inv :
      (layout : Layout) (pane_uuid tab_uuid : String)
      → Inv (initial_state layout pane_uuid tab_uuid).panes
  unfolding initial_state count_tabs count_tab count_pane
  initial_state-Inv layout pane_uuid tab_uuid =
      let new = files-IsNew tab_uuid in
      record {
        some_pane = tt;
        panes_ok = (
          one_tab-PaneOk (pane_id pane_uuid) (create_files_tab tab_uuid none) new.no_previous,
          tt,
        );
        tabs_unique = λ x. ground arith;
        panes_unique = λ x. ground arith;
      }

new_pane-Inv :
    (uuid pane_uuid : String) (t : WorkbenchTab) (panes : List WorkbenchPane)
    → IsNew uuid t
    → FreshTabs uuid panes
    → FreshPane pane_uuid panes
    → Inv panes
    → Inv (panes ++ record { id = pane_id pane_uuid; tabs = t ∷ []; active_tab_id = t.id } ∷ [])
unfolding count_tab
new_pane-Inv uuid pane_uuid t panes new fresh fresh_pane v =
    append_pane-Inv panes (record { id = pane_id pane_uuid; tabs = t ∷ []; active_tab_id = t.id })
      (one_tab-PaneOk (pane_id pane_uuid) t new.no_previous)
      (λ x. omega (arith, fresh_room t.id panes (rw new.named (fresh new.tool)) v.tabs_unique x))
      fresh_pane v

-- The copy behind the tab, made active.
copied_pane-Inv :
    (uuid pane id : String) (t : WorkbenchTab) (panes : List WorkbenchPane)
    → IsNew uuid t
    → FreshTabs uuid panes
    → Inv panes
    → Inv (
        map_pane pane
          (λ p. activate_pane_tab (record p { tabs = insert_tab p.tabs t (some id) after }) t.id)
          panes)
copied_pane-Inv uuid pane id t panes new fresh v =
    map_pane-Inv pane
      (λ p. activate_pane_tab (record p { tabs = insert_tab p.tabs t (some id) after }) t.id)
      (λ p. activate-id _ t.id) (λ x. one_if (same t.id x)) panes
      (λ p ok u. activate_pane_tab-PaneOk _ t.id (insert-IsNonEmpty p.tabs t (some id) after))
      (λ x p. omega (
        arith,
        count_tab-activate x (record p { tabs = insert_tab p.tabs t (some id) after }) t.id,
        count_tab-insert_tab x p.tabs t (some id) after,
      ))
      (fresh_room t.id panes (rw new.named (fresh new.tool)) v.tabs_unique) v

module _ {Layout : Type 0} (machine_id : Option String) where
  -- `addPane` keeps the invariant, if the new ids are those of no tab and no pane.
  pub add_pane-Inv :
      (tab_uuid pane_uuid : String) (source : Option String) (state : WorkbenchState Layout)
      (storage : Storage)
      → FreshTabs tab_uuid state.panes
      → FreshPane pane_uuid state.panes
      → Inv state.panes
      → Inv (add_pane machine_id tab_uuid pane_uuid source state storage).0.panes
  unfolding add_pane
  add_pane-Inv tab_uuid pane_uuid source state storage fresh fresh_pane v =
      elim (Option-cases (source_tab source state.panes)) [
        | inl e ↦
            rw (e, add_pane)
              (new_pane-Inv tab_uuid pane_uuid _ state.panes (files-IsNew tab_uuid) fresh fresh_pane
                v)
        | inr (t, e) ↦
            rw (e, add_pane)
              (new_pane-Inv tab_uuid pane_uuid _ state.panes (clone-IsNew tab_uuid t) fresh
                fresh_pane v)
      ]

  -- `duplicateTab` keeps the invariant, if the copy's id is that of no tab.
  pub duplicate_tab-Inv :
      (uuid pane id : String) (state : WorkbenchState Layout) (storage : Storage)
      → FreshTabs uuid state.panes
      → Inv state.panes
      → Inv (duplicate_tab machine_id uuid pane id state storage).0.panes
  unfolding duplicate_tab
  duplicate_tab-Inv uuid pane id state storage fresh v =
      elim (Option-cases (tab_in_pane pane id state.panes)) [
        | inl e ↦ rw (e, duplicate_tab) v
        | inr (t, e) ↦
            rw (e, duplicate_tab)
              (copied_pane-Inv uuid pane id (clone_workbench_tab uuid t) state.panes
                (clone-IsNew uuid t) fresh v)
      ]
