-- ===== src/Workbench/Steps.antt =====
-- web/src/state/workbench.ts: the operations that add, select and close tabs and panes keep the
-- invariant.
use Prim.Native.String.{String}
use whats_going_on.Prelude.{
  ◌+◌, ◌≤◌, ◌≡◌, inl, inr, true, List, [], ◌∷◌, ◌++◌, arith, if◌then◌else◌, Bool-cases,
  Option-cases, length, leb,
}
use whats_going_on.Workbench.Model.{
  same, WorkbenchTool, WorkbenchTab, WorkbenchPane, WorkbenchState, has_tab, without_tab,
}
use whats_going_on.Workbench.Tabs.{activate_pane_tab, close_in_pane, create_workbench_tab}
use whats_going_on.Workbench.State.{
  open_tab_in_pane, open_tab_in_active_pane, open_tool_tab_in_active_pane, open_tool_in_pane,
  select_tool, active_pane_from_state, remove_pane, find_tool,
}
use whats_going_on.Workbench.Moves.{select_tab, close_tab}
use whats_going_on.Workbench.Counts.{one_if, count_tab, count_tabs, count_tab-append}
use whats_going_on.Workbench.History.{IsNonEmpty, PaneOk, activate_pane_tab-PaneOk}
use whats_going_on.Workbench.Panes.{
  activate-id, close-id, count_tab-activate, count_tab-close, close-PaneOk,
}
use whats_going_on.Workbench.Invariant.{
  Inv, map_pane-Inv, without_pane-Inv, fresh_room, length-IsNonEmpty,
}

pub PaneOk-IsNonEmpty : (p : WorkbenchPane) → PaneOk p → IsNonEmpty p.tabs
PaneOk-IsNonEmpty p ok = go p.tabs ok.active_open
  where
    go : (tabs : List WorkbenchTab) → has_tab p.active_tab_id tabs ≡ true → IsNonEmpty tabs
    go [] h = unfold has_tab in cc h
    go (t ∷ tabs) h = tt

snoc-IsNonEmpty : (tabs : List WorkbenchTab) (t : WorkbenchTab) → IsNonEmpty (tabs ++ t ∷ [])
snoc-IsNonEmpty [] t = tt
snoc-IsNonEmpty (u ∷ tabs) t = tt

-- A new tab at the end of a pane, made active.
abbrev pub with_tab : WorkbenchTab → WorkbenchPane → WorkbenchPane
with_tab t p = record p { tabs = p.tabs ++ t ∷ [] }

with_tab-count :
    (x : String) (t : WorkbenchTab) (p : WorkbenchPane)
    → count_tab x (activate_pane_tab (with_tab t p) t.id).tabs
      ≡ count_tab x p.tabs + one_if (same t.id x)
unfolding count_tab
with_tab-count x t p =
    omega (arith, count_tab-activate x (with_tab t p) t.id, count_tab-append x p.tabs (t ∷ []))

module _ {Layout : Type 0} where
  -- The id is that of no tab.
  abbrev pub FreshTab : String → WorkbenchState Layout → Type 0
  FreshTab id state = count_tabs id state.panes ≡ 0

  pub open_tab_in_pane-Inv :
      (state : WorkbenchState Layout) (pane : String) (t : WorkbenchTab)
      → FreshTab t.id state
      → Inv state.panes
      → Inv (open_tab_in_pane state pane t).panes
  unfolding open_tab_in_pane
  open_tab_in_pane-Inv state pane t fresh v =
      map_pane-Inv pane (λ p. activate_pane_tab (with_tab t p) t.id)
        (λ p. activate-id (with_tab t p) t.id) (λ x. one_if (same t.id x)) state.panes
        (λ p ok u. activate_pane_tab-PaneOk (with_tab t p) t.id (snoc-IsNonEmpty p.tabs t))
        (λ x p. omega (arith, with_tab-count x t p))
        (fresh_room t.id state.panes fresh v.tabs_unique) v

  pub open_tab_in_active_pane-Inv :
      (state : WorkbenchState Layout) (t : WorkbenchTab)
      → FreshTab t.id state
      → Inv state.panes
      → Inv (open_tab_in_active_pane state t).panes
  unfolding open_tab_in_active_pane
  open_tab_in_active_pane-Inv state t fresh v = elim (Option-cases (active_pane_from_state state)) [
    | inl e ↦ rw (e, open_tab_in_active_pane) v
    | inr (pane, e) ↦ elim (Bool-cases (same pane.id "")) [
      | inl b ↦ rw (e, open_tab_in_active_pane, b) v
      | inr b ↦ rw (e, open_tab_in_active_pane, b) (open_tab_in_pane-Inv state pane.id t fresh v)
    ]
  ]

  pub select_tab-Inv :
      (state : WorkbenchState Layout) (pane id : String)
      → Inv state.panes
      → Inv (select_tab pane id state).panes
  unfolding select_tab
  select_tab-Inv state pane id v =
      map_pane-Inv pane (λ p. activate_pane_tab p id) (λ p. activate-id p id) (λ x. 0) state.panes
        (λ p ok u. activate_pane_tab-PaneOk p id (PaneOk-IsNonEmpty p ok))
        (λ x p. omega (arith, count_tab-activate x p id)) (λ x. omega (arith, v.tabs_unique x)) v

  -- `removePane` keeps the invariant of the panes.
  pub remove_pane-Inv :
      (state : WorkbenchState Layout) (id : String)
      → Inv state.panes
      → Inv (remove_pane id state).panes
  unfolding remove_pane
  remove_pane-Inv state id v = elim (Bool-cases (leb (length state.panes) 1)) [
    | inl e ↦ rw e v
    | inr e ↦ rw e (without_pane-Inv id state.panes e v)
  ]

-- The tabs that close with the id are one at most.
length-without_tab :
    (id : String) (tabs : List WorkbenchTab)
    → length tabs ≡ length (without_tab id tabs) + count_tab id tabs
unfolding count_tab without_tab
length-without_tab id [] = omega arith
length-without_tab id (t ∷ tabs) = ground (arith, length-without_tab id tabs)

count_tab-without_le :
    (x id : String) (tabs : List WorkbenchTab)
    → count_tab x (without_tab id tabs) ≤ count_tab x tabs
unfolding count_tab without_tab
count_tab-without_le x id [] = omega arith
count_tab-without_le x id (t ∷ tabs) = ground (arith, count_tab-without_le x id tabs)

abbrev close_or_keep : String → WorkbenchPane → WorkbenchPane
close_or_keep id p = if leb (length p.tabs) 1 then p else close_in_pane p id

module _ {Layout : Type 0} where
  -- `closeTab` keeps the invariant of the panes.
  pub close_tab-Inv :
      (state : WorkbenchState Layout) (pane id : String)
      → Inv state.panes
      → Inv (close_tab pane id state).panes
  unfolding close_tab
  close_tab-Inv state pane id v =
      map_pane-Inv pane (close_or_keep id) keeps_id (λ x. 0) state.panes ok gain
        (λ x. omega (arith, v.tabs_unique x)) v
    where
      keeps_id : (p : WorkbenchPane) → (close_or_keep id p).id ≡ p.id
      keeps_id p = elim (Bool-cases (leb (length p.tabs) 1)) [
        | inl e ↦ rw e
        | inr e ↦ rw e (close-id p id)
      ]

      ok :
          (p : WorkbenchPane)
          → PaneOk p
          → ((x : String) → count_tab x p.tabs ≤ 1)
          → PaneOk (close_or_keep id p)
      ok p h u = elim (Bool-cases (leb (length p.tabs) 1)) [
        | inl e ↦ rw e h
        | inr e ↦ rw e (
            close-PaneOk p id (
              length-IsNonEmpty (without_tab id p.tabs)
                (ground (arith, length-without_tab id p.tabs, u id))))
      ]

      gain :
          (x : String) (p : WorkbenchPane)
          → count_tab x (close_or_keep id p).tabs ≤ count_tab x p.tabs + 0
      gain x p = elim (Bool-cases (leb (length p.tabs) 1)) [
        | inl e ↦ rw e (omega arith)
        | inr e ↦ rw e (omega (arith, count_tab-close x p id, count_tab-without_le x id p.tabs))
      ]

module _ (uuid : String) (tool : WorkbenchTool) where
  abbrev new_tab : WorkbenchTab
  new_tab = create_workbench_tab uuid tool

  open_tool-id : (p : WorkbenchPane) → (open_tool_in_pane uuid tool p).id ≡ p.id
  unfolding open_tool_in_pane
  open_tool-id p = elim (Option-cases (find_tool tool p.tabs)) [
    | inl e ↦ rw (e, open_tool_in_pane) (activate-id (with_tab new_tab p) new_tab.id)
    | inr (t, e) ↦ rw (e, open_tool_in_pane) (activate-id p t.id)
  ]

  open_tool-PaneOk : (p : WorkbenchPane) → PaneOk p → PaneOk (open_tool_in_pane uuid tool p)
  unfolding open_tool_in_pane
  open_tool-PaneOk p ok = elim (Option-cases (find_tool tool p.tabs)) [
    | inl e ↦
        rw (e, open_tool_in_pane)
          (activate_pane_tab-PaneOk (with_tab new_tab p) new_tab.id
            (snoc-IsNonEmpty p.tabs new_tab))
    | inr (t, e) ↦
        rw (e, open_tool_in_pane) (activate_pane_tab-PaneOk p t.id (PaneOk-IsNonEmpty p ok))
  ]

  open_tool-count :
      (x : String) (p : WorkbenchPane)
      → count_tab x (open_tool_in_pane uuid tool p).tabs
        ≤ count_tab x p.tabs + one_if (same new_tab.id x)
  unfolding open_tool_in_pane
  open_tool-count x p = elim (Option-cases (find_tool tool p.tabs)) [
    | inl e ↦ rw (e, open_tool_in_pane) (omega (arith, with_tab-count x new_tab p))
    | inr (t, e) ↦ rw (e, open_tool_in_pane) (omega (arith, count_tab-activate x p t.id))
  ]

module _ {Layout : Type 0} where
  -- `selectTool` keeps the invariant of the panes, if the id of a new tab is that of no tab.
  pub select_tool-Inv :
      (uuid : String) (tool : WorkbenchTool) (state : WorkbenchState Layout)
      → FreshTab (create_workbench_tab uuid tool).id state
      → Inv state.panes
      → Inv (select_tool uuid tool state).panes
  unfolding select_tool
  select_tool-Inv uuid tool state fresh v = elim (Option-cases (active_pane_from_state state)) [
    | inl e ↦ rw (e, open_tool_tab_in_active_pane) v
    | inr (pane, e) ↦ elim (Bool-cases (same pane.id "")) [
      | inl b ↦ rw (e, open_tool_tab_in_active_pane, b) v
      | inr b ↦
          rw (e, open_tool_tab_in_active_pane, b)
            (map_pane-Inv pane.id (open_tool_in_pane uuid tool) (open_tool-id uuid tool)
              (λ x. one_if (same (create_workbench_tab uuid tool).id x)) state.panes
              (λ p ok u. open_tool-PaneOk uuid tool p ok) (open_tool-count uuid tool)
              (fresh_room _ state.panes fresh v.tabs_unique) v)
    ]
  ]
