-- ===== src/Workbench/NewPane.antt =====
-- web/src/state/workbench.ts: `moveTabToNewPane`.
use Prim.Native.String.{String}
use whats_going_on.Prelude.{
  ◌+◌, ◌*◌, ◌≤◌, ◌≡◌, refl, subst, ap, inl, inr, true, ◌&&◌, none, some, List, [], ◌∷◌, ◌++◌, arith,
  All-append, Bool-cases, Option-cases, length, leb,
}
use whats_going_on.Workbench.Model.{
  same, same_iff, WorkbenchTab, WorkbenchPane, WorkbenchState, find_tab, find_pane,
}
use whats_going_on.Workbench.State.{pane_id}
use whats_going_on.Workbench.Moves.{leave_source, flat_map_panes, move_tab_to_new_pane}
use whats_going_on.Workbench.Counts.{
  one_if, count_tab, count_tabs, count_pane, count_tabs-append, count_pane-append, find_tab-id,
}
use whats_going_on.Workbench.History.{IsNonEmpty, PaneOk}
use whats_going_on.Workbench.Invariant.{Inv}
use whats_going_on.Workbench.Moving.{
  SameTabs, HeldIn, find-HeldIn, held-without, leave-count, find_pane-count_pane,
}
use whats_going_on.Workbench.Moved.{
  Keeps, Replaces, one_pane-Replaces, leave-Replaces, flat-PaneOk, flat-count_pane,
}
use whats_going_on.Workbench.Opening.{FreshPane, one_tab-PaneOk}

module _ (source id : String) where
  leave_source-Replaces : (p : WorkbenchPane) → PaneOk p → Replaces p (leave_source source id p)
  unfolding leave_source
  leave_source-Replaces p ok = elim (Bool-cases (same p.id source)) [
    | inl e ↦ rw e (leave-Replaces p id)
    | inr e ↦ rw e (one_pane-Replaces p p ok refl)
  ]

  leave_source-count :
      (x : String) (p : WorkbenchPane)
      → (same p.id source ≡ true → count_tab id p.tabs ≡ 1)
      → count_tabs x (leave_source source id p) + one_if (same p.id source) * one_if (same id x)
        ≡ count_tab x p.tabs
  unfolding leave_source count_tabs
  leave_source-count x p held = elim (Bool-cases (same p.id source)) [
    | inl e ↦ rw e (omega (arith, leave-count x p id, held-without x id p.tabs (held e)))
    | inr e ↦ rw e (omega arith)
  ]

  left-count :
      (x : String) (panes : List WorkbenchPane)
      → HeldIn source id panes
      → count_tabs x (flat_map_panes (leave_source source id) panes)
          + count_pane source panes * one_if (same id x)
        ≡ count_tabs x panes
  unfolding count_tabs count_pane
  left-count x [] held = omega arith
  left-count x (p ∷ panes) held = grind (
    arith,
    count_tabs-append x (leave_source source id p) (flat_map_panes (leave_source source id) panes),
    leave_source-count x p held.0,
    left-count x panes held.1,
  )

snoc-IsNonEmpty : (panes : List WorkbenchPane) (p : WorkbenchPane) → IsNonEmpty (panes ++ p ∷ [])
snoc-IsNonEmpty [] p = tt
snoc-IsNonEmpty (q ∷ panes) p = tt

-- The panes without the tab, and the new pane with it.
abbrev moved_out : String → String → String → WorkbenchTab → List WorkbenchPane → List WorkbenchPane
moved_out uuid source id t panes =
    flat_map_panes (leave_source source id) panes
    ++ record {
      id = pane_id uuid;
      tabs = record t { previous_active_tab_id = none } ∷ [];
      active_tab_id = t.id;
    }
      ∷ []

moved_out-Keeps :
    (uuid source id : String) (panes : List WorkbenchPane) (sp : WorkbenchPane) (t : WorkbenchTab)
    → find_pane source panes ≡ some sp
    → find_tab id sp.tabs ≡ some t
    → FreshPane uuid panes
    → Inv panes
    → Keeps panes (moved_out uuid source id t panes)
unfolding count_tabs count_tab count_pane
moved_out-Keeps uuid source id panes sp t f g fresh v =
    let held = find-HeldIn source id panes sp t f g (v.panes_unique source) (v.tabs_unique id) in
    let one : count_pane source panes ≡ 1 =
      omega (arith, find_pane-count_pane source panes sp f, v.panes_unique source) in
    let left = flat_map_panes (leave_source source id) panes in
    let new : WorkbenchPane = record {
      id = pane_id uuid;
      tabs = record t { previous_active_tab_id = none } ∷ [];
      active_tab_id = t.id;
    } in
    let pieces = leave_source-Replaces source id in
    let kept : SameTabs (moved_out uuid source id t panes) panes = λ x. grind (
      arith,
      count_tabs-append x left (new ∷ []),
      left-count source id x panes held,
      ap (λ i. one_if (same i x)) (find_tab-id id sp.tabs t g),
    ) in
    (
      kept,
      record {
        some_pane = snoc-IsNonEmpty left new;
        panes_ok =
            All-append PaneOk left (new ∷ []) (flat-PaneOk _ panes pieces v.panes_ok)
              (one_tab-PaneOk (pane_id uuid) (record t { previous_active_tab_id = none }) refl, tt);
        tabs_unique = λ x. rw (kept x) (v.tabs_unique x);
        panes_unique = λ x. elim (Bool-cases (same (pane_id uuid) x)) [
          | inl e ↦
              subst (λ y. count_pane y (left ++ new ∷ []) ≤ 1) ((same_iff (pane_id uuid) x).0 e)
                (ground (
                  arith,
                  count_pane-append (pane_id uuid) left (new ∷ []),
                  flat-count_pane (pane_id uuid) _ panes pieces v.panes_ok,
                ))
          | inr e ↦ omega (
            arith,
            count_pane-append x left (new ∷ []),
            ap one_if e,
            flat-count_pane x _ panes pieces v.panes_ok,
            v.panes_unique x,
          )
        ];
      },
    )

module _ {Layout : Type 0} where
  -- In panes that satisfy the invariant, `moveTabToNewPane` loses no tab and copies none, and its
  -- result satisfies the invariant, if the new pane's id is that of no pane.
  pub move_tab_to_new_pane-Keeps :
      (uuid source id target : String) (state : WorkbenchState Layout)
      → FreshPane uuid state.panes
      → Inv state.panes
      → Keeps state.panes (move_tab_to_new_pane uuid source id target state).0.panes
  unfolding move_tab_to_new_pane
  move_tab_to_new_pane-Keeps uuid source id target state fresh v =
      elim (Option-cases (find_pane source state.panes)) [
        | inl f ↦ rw (f, move_tab_to_new_pane) ((λ x. refl), v)
        | inr (sp, f) ↦ elim (Option-cases (find_tab id sp.tabs)) [
          | inl g ↦ rw (f, move_tab_to_new_pane, g) ((λ x. refl), v)
          | inr (t, g) ↦ elim (Bool-cases (same source target && leb (length sp.tabs) 1)) [
            | inl h ↦ rw (f, move_tab_to_new_pane, g, h) ((λ x. refl), v)
            | inr h ↦
                rw (f, move_tab_to_new_pane, g, h)
                  (moved_out-Keeps uuid source id state.panes sp t f g fresh v)
          ]
        ]
      ]
