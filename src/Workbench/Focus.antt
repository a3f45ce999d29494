-- ===== src/Workbench/Focus.antt =====
-- web/src/state/workbench.ts: what a tab sees of its own operations.
use Prim.Native.String.{String}
use mathlib.Core.Option
use whats_going_on.Prelude.{
  ◌≡◌, refl, Option, ap, ◌∙◌, inl, inr, Bool, true, false, ◌&&◌, none, some, List, [], ◌∷◌, map,
  if◌then◌else◌, Bool-cases, arith,
}
use whats_going_on.Workbench.Model.{
  same, same_iff, WorkbenchTab, WorkbenchPane, WorkbenchState, find_tab, has_tab, find_pane,
}
use whats_going_on.Workbench.Tabs.{activate_pane_tab}
use whats_going_on.Workbench.State.{map_pane, active_pane_from_state, find_active_pane}
use whats_going_on.Workbench.Moves.{select_tab}
use whats_going_on.Workbench.Setters.{is_true, write_dirty, set_tab_dirty}
use whats_going_on.Workbench.Panes.{activate-id, activate_pane_tab-active_tab_id}
use whats_going_on.Workbench.Scopes.{
  pane_atom, pane_active_atom, tab_atom, tab_focused_atom, dirty_atom, pane_select_tab,
  tab_select_tab, set_dirty,
}

find_pane-map :
    (id : String) (f : WorkbenchPane → WorkbenchPane) (panes : List WorkbenchPane)
    → ((p : WorkbenchPane) → (f p).id ≡ p.id)
    → find_pane id (map_pane id f panes) ≡ Option.map f (find_pane id panes)
unfolding find_pane
find_pane-map id f [] h = refl
find_pane-map id f (p ∷ panes) h = ground (arith, h p, find_pane-map id f panes h)

find_pane-id :
    (id : String) (panes : List WorkbenchPane) (p : WorkbenchPane)
    → find_pane id panes ≡ some p
    → p.id ≡ id
unfolding find_pane
find_pane-id id [] p h = cc
find_pane-id id (q ∷ panes) p h = ground (arith, find_pane-id id panes p, same_iff q.id id)

find_tab-map_where :
    (id : String) (f : WorkbenchTab → WorkbenchTab) (tabs : List WorkbenchTab)
    → ((t : WorkbenchTab) → (f t).id ≡ t.id)
    → find_tab id (map (λ t. if same t.id id && true then f t else t) tabs)
      ≡ Option.map f (find_tab id tabs)
unfolding find_tab
find_tab-map_where id f [] h = refl
find_tab-map_where id f (t ∷ tabs) h = ground (arith, h t, find_tab-map_where id f tabs h)

write_dirty-dirty : (value : Bool) (t : WorkbenchTab) → is_true (write_dirty value t).dirty ≡ value
unfolding write_dirty
write_dirty-dirty true t = elim (Bool-cases (is_true t.dirty)) [
  | inl e ↦ rw (e, e)
  | inr e ↦ rw e refl
]
write_dirty-dirty false t = elim (Bool-cases (is_true t.dirty)) [
  | inl e ↦ rw e refl
  | inr e ↦ rw (e, e)
]

write_dirty-id : (value : Bool) (t : WorkbenchTab) → (write_dirty value t).id ≡ t.id
unfolding write_dirty
write_dirty-id value t = ground arith

bind-some :
    (o : Option WorkbenchPane) (f : WorkbenchPane → Option WorkbenchTab) (t : WorkbenchTab)
    → Option.bind o f ≡ some t
    → (p : WorkbenchPane) × (o ≡ some p) × (f p ≡ some t)
unfolding Option.bind
bind-some none f t e = cc e
bind-some (some p) f t e = (p, refl, e)

abbrev with_dirty : String → Bool → WorkbenchPane → WorkbenchPane
with_dirty tab value p = record p {
  tabs = map (λ t. if same t.id tab && true then write_dirty value t else t) p.tabs;
}

module _ {Layout : Type 0} where
  shown-focused :
      (pane tab : String) (state : WorkbenchState Layout) (q : WorkbenchPane)
      → find_pane pane state.panes ≡ some q
      → state.active_pane_id ≡ some pane
      → q.active_tab_id ≡ tab
      → tab_focused_atom pane tab state ≡ true
  unfolding tab_focused_atom pane_active_atom pane_atom active_pane_from_state find_active_pane
  shown-focused pane tab state q found active shown =
      rw (active, found)
        (ground (
          arith,
          find_pane-id pane state.panes q found,
          shown,
          same_iff q.id pane,
          same_iff q.active_tab_id tab,
        ))

  -- When a tab scope selects its tab, which is open in its pane, and the pane's active tab is open,
  -- the tab has the focus.
  pub tab_focused_atom-tab_select_tab :
      (pane tab : String) (state : WorkbenchState Layout) (p : WorkbenchPane)
      → find_pane pane state.panes ≡ some p
      → has_tab p.active_tab_id p.tabs ≡ true
      → has_tab tab p.tabs ≡ true
      → tab_focused_atom pane tab (tab_select_tab pane tab state) ≡ true
  unfolding tab_select_tab pane_select_tab select_tab
  tab_focused_atom-tab_select_tab pane tab state p f ok open_there =
      shown-focused pane tab (tab_select_tab pane tab state) (activate_pane_tab p tab)
        (find_pane-map pane (λ p. activate_pane_tab p tab) state.panes (λ p. activate-id p tab)
          ∙ ap (Option.map (λ p. activate_pane_tab p tab)) f)
        refl (activate_pane_tab-active_tab_id p tab ok ∙ rw open_there)

  -- What `setDirty` writes for a tab that is in its pane, `dirtyAtom` reads.
  pub dirty_atom-set_dirty :
      (pane tab : String) (value : Bool) (state : WorkbenchState Layout) (t : WorkbenchTab)
      → tab_atom pane tab state ≡ some t
      → dirty_atom pane tab (set_dirty pane tab value state) ≡ value
  unfolding dirty_atom tab_atom pane_atom set_dirty set_tab_dirty Option.bind
  dirty_atom-set_dirty pane tab value state t f =
      let (p, e, g) = bind-some (find_pane pane state.panes) (λ p. find_tab tab p.tabs) t f in
      rw
        (
          find_pane-map pane (with_dirty tab value) state.panes (λ p. refl),
          e,
          find_tab-map_where tab (write_dirty value) p.tabs (write_dirty-id value),
          g,
        )
        (write_dirty-dirty value t)
