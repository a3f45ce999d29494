-- ===== src/Workbench/History.antt =====
-- web/src/state/workbench.ts: panes whose active tab is open, and whose tabs remember open tabs.
use Prim.Native.String.{String}
use whats_going_on.Prelude.{
  ◌≡◌, ◌≢◌, inl, inr, true, some, List, [], ◌∷◌, map, arith, All, Bool-cases,
}
use whats_going_on.Workbench.Model.{same_iff, WorkbenchTab, WorkbenchPane, has_tab}
use whats_going_on.Workbench.Tabs.{
  first_id, keeps_history, normalize_tab, normalize_pane_tab_history, switch_active,
  activate_pane_tab,
}
use whats_going_on.Workbench.Counts.{has_tab-map}

abbrev pub IsNonEmpty {ℓ} : {A : Type ℓ} → List A → Type 0
IsNonEmpty [] = ⊥
IsNonEmpty (a ∷ rest) = Unit

-- The tab remembers no tab, or another one that is open.
abbrev pub HistoryOk : List WorkbenchTab → WorkbenchTab → Type 0
HistoryOk tabs tab =
    (previous : String)
    → tab.previous_active_tab_id ≡ some previous
    → (previous ≢ tab.id) × (has_tab previous tabs ≡ true)

pub record PaneOk (pane : WorkbenchPane) : Type 0 where
  pub active_open : has_tab pane.active_tab_id pane.tabs ≡ true
  pub history_open : All (HistoryOk pane.tabs) pane.tabs

pub normalize_tab-id :
    (tabs : List WorkbenchTab) (t : WorkbenchTab) → (normalize_tab tabs t).id ≡ t.id
unfolding normalize_tab
normalize_tab-id tabs t = elim (Bool-cases (keeps_history tabs t)) [ inl h ↦ rw h | inr h ↦ rw h ]

has_tab-first_id :
    (tabs : List WorkbenchTab) → IsNonEmpty tabs → has_tab (first_id tabs) tabs ≡ true
unfolding has_tab
has_tab-first_id [] h = absurd h
has_tab-first_id (t ∷ tabs) h = ground (arith, same_iff t.id t.id)

normalize_tab-HistoryOk :
    (tabs : List WorkbenchTab) (t : WorkbenchTab)
    → HistoryOk (map (normalize_tab tabs) tabs) (normalize_tab tabs t)
unfolding normalize_tab keeps_history
normalize_tab-HistoryOk tabs t previous e =
    rw (has_tab-map previous (normalize_tab tabs) tabs (normalize_tab-id tabs))
      (ground (arith, same_iff previous t.id))

pub All-map {ℓ} :
    {A : Type ℓ} (P : A → Type 0) (f : A → A) (xs : List A) → ((a : A) → P (f a)) → All P (map f xs)
All-map P f [] h = tt
All-map P f (x ∷ xs) h = (h x, All-map P f xs h)

pub normalize-PaneOk :
    (pane : WorkbenchPane) → IsNonEmpty pane.tabs → PaneOk (normalize_pane_tab_history pane)
unfolding normalize_pane_tab_history
normalize-PaneOk pane h = record {
  active_open =
      rw (has_tab-map _ (normalize_tab pane.tabs) pane.tabs (normalize_tab-id pane.tabs))
        (ground (arith, has_tab-first_id pane.tabs h));
  history_open =
      All-map (HistoryOk (map (normalize_tab pane.tabs) pane.tabs)) (normalize_tab pane.tabs)
        pane.tabs (normalize_tab-HistoryOk pane.tabs);
}

pub map-IsNonEmpty {ℓ} :
    {A : Type ℓ} (f : A → A) (xs : List A) → IsNonEmpty xs → IsNonEmpty (map f xs)
map-IsNonEmpty f [] h = h
map-IsNonEmpty f (x ∷ xs) h = tt

-- Whatever the pane's tabs were, if it has one, `activatePaneTab` leaves a consistent pane.
pub activate_pane_tab-PaneOk :
    (pane : WorkbenchPane) (id : String) → IsNonEmpty pane.tabs → PaneOk (activate_pane_tab pane id)
unfolding activate_pane_tab
activate_pane_tab-PaneOk pane id h = ground (
  arith,
  normalize-PaneOk pane h,
  normalize-PaneOk (switch_active pane id) (map-IsNonEmpty _ pane.tabs h),
)
