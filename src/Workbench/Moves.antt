-- ===== src/Workbench/Moves.antt =====
-- web/src/state/workbench.ts, lines 481-646: tabs selected, closed, copied and moved.
use Prim.Native.String.{String}
use mathlib.Core.Option
use whats_going_on.Prelude.{
  Bool, false, not, ◌&&◌, Option, none, some, List, [], ◌∷◌, ◌++◌, leb, length, if◌then◌else◌,
}
use whats_going_on.Workbench.Model.{
  same, WorkbenchTab, WorkbenchPane, MoveTabToNewPaneResult, WorkbenchState, TabDropPosition, after,
  find_tab, without_tab, find_pane, has_pane,
}
use whats_going_on.Workbench.Tabs.{
  activate_pane_tab, close_in_pane, insert_tab, move_tab_within_pane, clone_workbench_tab,
}
use whats_going_on.Workbench.Storage.{Storage, copy_tab_state}
use whats_going_on.Workbench.State.{map_pane, pane_id}

-- The source pane of a move without the tab: no pane at all if it held no other.
unfoldable pub leave_pane : String → WorkbenchPane → List WorkbenchPane
unfolding close_in_pane
leave_pane tab_id pane = elim (without_tab tab_id pane.tabs) [
  | [] ↦ []
  | _ ↦ close_in_pane pane tab_id ∷ []
]

-- The body of `moveTab`'s `flatMap`.
unfoldable pub move_in_pane :
    String
    → String
    → String
    → Option String
    → TabDropPosition
    → WorkbenchTab
    → WorkbenchPane
    → List WorkbenchPane
unfolding leave_pane move_tab_within_pane insert_tab activate_pane_tab
move_in_pane source tab_id target target_tab position moving pane =
    if same source target && same pane.id source
    then move_tab_within_pane pane tab_id target_tab position ∷ []
    else if same pane.id source
    then leave_pane tab_id pane
    else if same pane.id target
    then activate_pane_tab (record pane { tabs = insert_tab pane.tabs moving target_tab position })
        moving.id
      ∷ []
    else pane ∷ []

-- `flatMap`.
abbrev pub flat_map_panes :
    (WorkbenchPane → List WorkbenchPane) → List WorkbenchPane → List WorkbenchPane
flat_map_panes f [] = []
flat_map_panes f (pane ∷ panes) = f pane ++ flat_map_panes f panes

-- A move's target pane is not the source pane, and the source pane held no other tab.
abbrev removes_source : String → String → WorkbenchPane → Bool
removes_source source target pane = not (same source target) && leb (length pane.tabs) 1

unfoldable pub tab_in_pane : String → String → List WorkbenchPane → Option WorkbenchTab
tab_in_pane pane tab_id panes = Option.bind (find_pane pane panes) (λ p. find_tab tab_id p.tabs)

-- The body of `moveTabToNewPane`'s `flatMap`.
unfoldable pub leave_source : String → String → WorkbenchPane → List WorkbenchPane
unfolding leave_pane
leave_source source tab_id pane = if same pane.id source then leave_pane tab_id pane else pane ∷ []

module _ {Layout : Type 0} where
  unfoldable pub select_tab : String → String → WorkbenchState Layout → WorkbenchState Layout
  unfolding activate_pane_tab
  select_tab pane tab_id state = record state {
    active_pane_id = some pane;
    panes = map_pane pane (λ p. activate_pane_tab p tab_id) state.panes;
  }

  abbrev pub update_panes :
      (List WorkbenchPane → List WorkbenchPane) → WorkbenchState Layout → WorkbenchState Layout
  update_panes update state = record state { panes = update state.panes }

  unfoldable pub close_tab : String → String → WorkbenchState Layout → WorkbenchState Layout
  unfolding close_in_pane
  close_tab pane tab_id state =
      update_panes
        (map_pane pane (λ p. if leb (length p.tabs) 1 then p else close_in_pane p tab_id)) state

  -- The new state, the storage, and the id of the copy.
  unfoldable pub duplicate_tab :
      Option String
      → String
      → String
      → String
      → WorkbenchState Layout
      → Storage
      → WorkbenchState Layout × Storage × Option String
  unfolding clone_workbench_tab copy_tab_state insert_tab activate_pane_tab
  duplicate_tab machine_id uuid pane tab_id state storage =
      elim (tab_in_pane pane tab_id state.panes) [
        | none ↦ (state, storage, none)
        | some source ↦
            let tab = clone_workbench_tab uuid source in
            (
              record state {
                active_pane_id = some pane;
                panes =
                    map_pane pane
                      (λ p.
                        activate_pane_tab
                          (record p { tabs = insert_tab p.tabs tab (some tab_id) after }) tab.id)
                      state.panes;
              },
              copy_tab_state machine_id source tab storage,
              some tab.id,
            )
      ]

  -- The new state, and whether the source pane is gone.
  unfoldable pub move_tab :
      String
      → String
      → String
      → Option String
      → TabDropPosition
      → WorkbenchState Layout
      → WorkbenchState Layout × Bool
  unfolding move_in_pane
  move_tab source tab_id target target_tab position state = elim (find_pane source state.panes) [
    | none ↦ (state, false)
    | some source_pane ↦
        if not (has_pane target state.panes)
        then (state, false)
        else elim (find_tab tab_id source_pane.tabs) [
          | none ↦ (state, false)
          | some moving ↦ (
            record state {
              panes =
                  flat_map_panes (move_in_pane source tab_id target target_tab position moving)
                    state.panes;
              active_pane_id = some target;
            },
            removes_source source target source_pane,
          )
        ]
  ]

  unfoldable pub move_tab_to_new_pane :
      String
      → String
      → String
      → String
      → WorkbenchState Layout
      → WorkbenchState Layout × Option MoveTabToNewPaneResult
  unfolding leave_source
  move_tab_to_new_pane uuid source tab_id target state = elim (find_pane source state.panes) [
    | none ↦ (state, none)
    | some source_pane ↦ elim (find_tab tab_id source_pane.tabs) [
      | none ↦ (state, none)
      | some moving ↦
          let new_pane : WorkbenchPane = record {
            id = pane_id uuid;
            tabs = record moving { previous_active_tab_id = none } ∷ [];
            active_tab_id = moving.id;
          } in
          if same source target && leb (length source_pane.tabs) 1 then (state, none) else (
            record state {
              active_pane_id = some new_pane.id;
              panes = flat_map_panes (leave_source source tab_id) state.panes ++ new_pane ∷ [];
            },
            some (record {
              new_pane_id = new_pane.id;
              source_pane_removed = leb (length source_pane.tabs) 1;
            }),
          )
    ]
  ]
