-- ===== src/Workbench/Panes.antt =====
-- web/src/state/workbench.ts: what `activatePaneTab`, `normalizePaneTabHistory` and the closing of a
-- tab keep of a pane.
use Prim.Native.String.{String}
use mathlib.Core.Option
use whats_going_on.Prelude.{
  ◌≡◌, refl, subst, ◌∙◌, ◌≢◌, inl, inr, true, false, Option, none, some, List, [], ◌∷◌, map, arith,
  if◌then◌else◌, Bool-cases, Option-cases,
}
use whats_going_on.Workbench.Model.{
  same, same_iff, WorkbenchTab, WorkbenchPane, has_tab, without_tab, find_tab,
}
use whats_going_on.Workbench.Tabs.{
  keeps_history, normalize_tab, normalize_pane_tab_history, set_previous, switch_active, drop_tab,
  activate_pane_tab, fallback_active_tab_id, close_in_pane,
}
use whats_going_on.Workbench.Counts.{
  count_tab, count_tab-map, has_tab-map, has_tab-count_tab, count_tab-has_tab, count_tab-without_ne,
  find_tab-id,
}
use whats_going_on.Workbench.History.{IsNonEmpty, PaneOk, normalize_tab-id, normalize-PaneOk}

set_previous-id :
    (id : String) (previous : Option String) (t : WorkbenchTab)
    → (set_previous id previous t).id ≡ t.id
set_previous-id id previous t = elim (Bool-cases (same t.id id)) [ inl h ↦ rw h | inr h ↦ rw h ]

module _ (x : String) (pane : WorkbenchPane) where
  pub count_tab-normalize :
      count_tab x (normalize_pane_tab_history pane).tabs ≡ count_tab x pane.tabs
  unfolding normalize_pane_tab_history
  count_tab-normalize =
      count_tab-map x (normalize_tab pane.tabs) pane.tabs (normalize_tab-id pane.tabs)

pub count_tab-activate :
    (x : String) (pane : WorkbenchPane) (id : String)
    → count_tab x (activate_pane_tab pane id).tabs ≡ count_tab x pane.tabs
unfolding activate_pane_tab
count_tab-activate x pane id = elim (Bool-cases (has_tab id pane.tabs)) [
  | inr h ↦ rw h (count_tab-normalize x pane)
  | inl h ↦ rw h (elim (Bool-cases (same pane.active_tab_id id)) [
    | inl e ↦ rw e (count_tab-normalize x pane)
    | inr e ↦ rw e (
        count_tab-normalize x (switch_active pane id)
        ∙ count_tab-map x (set_previous id _) pane.tabs (set_previous-id id _))
  ])
]

pub activate-id : (pane : WorkbenchPane) (id : String) → (activate_pane_tab pane id).id ≡ pane.id
unfolding activate_pane_tab normalize_pane_tab_history
activate-id pane id = ground arith

pub close-id : (pane : WorkbenchPane) (id : String) → (close_in_pane pane id).id ≡ pane.id
unfolding close_in_pane normalize_pane_tab_history
close-id pane id = refl

pub count_tab-close :
    (x : String) (pane : WorkbenchPane) (id : String)
    → count_tab x (close_in_pane pane id).tabs ≡ count_tab x (without_tab id pane.tabs)
unfolding close_in_pane
count_tab-close x pane id = count_tab-normalize x (drop_tab pane id)

pub close-PaneOk :
    (pane : WorkbenchPane) (id : String)
    → IsNonEmpty (without_tab id pane.tabs)
    → PaneOk (close_in_pane pane id)
unfolding close_in_pane
close-PaneOk pane id h = normalize-PaneOk (drop_tab pane id) h

-- The normalised pane keeps an active tab that is open.
pub normalize-active :
    (pane : WorkbenchPane)
    → has_tab pane.active_tab_id pane.tabs ≡ true
    → (normalize_pane_tab_history pane).active_tab_id ≡ pane.active_tab_id
unfolding normalize_pane_tab_history
normalize-active pane h = rw h

-- `activatePaneTab` makes an open tab the active one, and ignores the id of a tab that is not open.
pub activate_pane_tab-active_tab_id :
    (pane : WorkbenchPane) (id : String)
    → has_tab pane.active_tab_id pane.tabs ≡ true
    → (activate_pane_tab pane id).active_tab_id
      ≡ (if has_tab id pane.tabs then id else pane.active_tab_id)
unfolding activate_pane_tab
activate_pane_tab-active_tab_id pane id open_active = elim (Bool-cases (has_tab id pane.tabs)) [
  | inr h ↦ rw h (normalize-active pane open_active)
  | inl h ↦ rw h (elim (Bool-cases (same pane.active_tab_id id)) [
    | inl e ↦ rw e (normalize-active pane open_active ∙ (same_iff _ id).0 e)
    | inr e ↦ rw e (
        normalize-active (switch_active pane id)
          (has_tab-map id (set_previous id _) pane.tabs (set_previous-id id _) ∙ h))
  ])
]

find_tab-map :
    (x : String) (f : WorkbenchTab → WorkbenchTab) (tabs : List WorkbenchTab)
    → ((t : WorkbenchTab) → (f t).id ≡ t.id)
    → find_tab x (map f tabs) ≡ Option.map f (find_tab x tabs)
unfolding find_tab
find_tab-map x f [] h = refl
find_tab-map x f (t ∷ ts) h = ground (arith, h t, find_tab-map x f ts h)

find_tab-none :
    (id : String) (tabs : List WorkbenchTab) → find_tab id tabs ≡ none → has_tab id tabs ≡ false
unfolding has_tab find_tab
find_tab-none id [] h = refl
find_tab-none id (t ∷ ts) h = ground (arith, find_tab-none id ts)

pub has_tab-find_tab :
    (id : String) (tabs : List WorkbenchTab)
    → has_tab id tabs ≡ true
    → (t : WorkbenchTab) × (find_tab id tabs ≡ some t)
has_tab-find_tab id tabs h = elim (Option-cases (find_tab id tabs)) [
  | inl e ↦ cc (find_tab-none id tabs e)
  | inr found ↦ found
]

-- A tab that is not empty-named, not the tab itself, and open, is remembered.
normalize_tab-keeps :
    (tabs : List WorkbenchTab) (t : WorkbenchTab) (previous : String)
    → t.previous_active_tab_id ≡ some previous
    → previous ≢ ""
    → previous ≢ t.id
    → has_tab previous tabs ≡ true
    → (normalize_tab tabs t).previous_active_tab_id ≡ some previous
unfolding normalize_tab keeps_history
normalize_tab-keeps tabs t previous e named other open_there =
    ground (arith, same_iff previous "", same_iff previous t.id)

activate-switch :
    (pane : WorkbenchPane) (id : String)
    → pane.active_tab_id ≢ id
    → has_tab id pane.tabs ≡ true
    → activate_pane_tab pane id ≡ normalize_pane_tab_history (switch_active pane id)
unfolding activate_pane_tab
activate-switch pane id other open_id =
    let different : same pane.active_tab_id id ≡ false =
      ground (arith, same_iff pane.active_tab_id id) in
    rw (open_id, different)

-- After another open tab is activated, it remembers the one that was active.
pub activate-remembers :
    (pane : WorkbenchPane) (id : String)
    → has_tab pane.active_tab_id pane.tabs ≡ true
    → pane.active_tab_id ≢ ""
    → pane.active_tab_id ≢ id
    → has_tab id pane.tabs ≡ true
    → (t : WorkbenchTab) × (find_tab id (activate_pane_tab pane id).tabs ≡ some t)
      × (t.previous_active_tab_id ≡ some pane.active_tab_id)
unfolding normalize_pane_tab_history
activate-remembers pane id open_active named other open_id =
    let (t, found) = has_tab-find_tab id pane.tabs open_id in
    let tabs' = (switch_active pane id).tabs in
    let mark =
      set_previous id
        (if has_tab pane.active_tab_id pane.tabs then some pane.active_tab_id else none) in
    let own = find_tab-id id pane.tabs t found in
    (
      normalize_tab tabs' (mark t),
      rw (
        activate-switch pane id other open_id,
        find_tab-map id (normalize_tab tabs') tabs' (normalize_tab-id tabs'),
        find_tab-map id mark pane.tabs (set_previous-id id _),
        found,
      ),
      normalize_tab-keeps tabs' (mark t) pane.active_tab_id (ground (arith, same_iff t.id id)) named
          (ground (arith, set_previous-id id (some pane.active_tab_id) t))
          (has_tab-map pane.active_tab_id mark pane.tabs (set_previous-id id _) ∙ open_active),
    )

has_tab-without_ne :
    (x id : String) (tabs : List WorkbenchTab)
    → x ≢ id
    → has_tab x tabs ≡ true
    → has_tab x (without_tab id tabs) ≡ true
has_tab-without_ne x id tabs other h = count_tab-has_tab x (without_tab id tabs) (
    rw (count_tab-without_ne x id tabs (ground (arith, same_iff id x)))
      (has_tab-count_tab x tabs h))

-- The active tab's closing brings back the tab that it remembers, if that is open.
pub close-active :
    (pane : WorkbenchPane) (t : WorkbenchTab) (previous : String)
    → find_tab pane.active_tab_id pane.tabs ≡ some t
    → t.previous_active_tab_id ≡ some previous
    → previous ≢ ""
    → previous ≢ pane.active_tab_id
    → has_tab previous pane.tabs ≡ true
    → (close_in_pane pane pane.active_tab_id).active_tab_id ≡ previous
unfolding close_in_pane normalize_pane_tab_history fallback_active_tab_id
close-active pane t previous found remembers named other open_there = ground (
  arith,
  same_iff pane.active_tab_id pane.active_tab_id,
  same_iff previous "",
  has_tab-without_ne previous pane.active_tab_id pane.tabs other open_there,
)

-- In a pane whose active tab is open, to activate another open tab and to close it again brings back
-- the tab that was active, if its id is not empty.
pub close_in_pane-activate_pane_tab :
    (pane : WorkbenchPane) (id : String)
    → has_tab pane.active_tab_id pane.tabs ≡ true
    → pane.active_tab_id ≢ ""
    → pane.active_tab_id ≢ id
    → has_tab id pane.tabs ≡ true
    → (close_in_pane (activate_pane_tab pane id) id).active_tab_id ≡ pane.active_tab_id
close_in_pane-activate_pane_tab pane id open_active named other open_id =
    let (t, found, remembers) = activate-remembers pane id open_active named other open_id in
    let now : (activate_pane_tab pane id).active_tab_id ≡ id =
      activate_pane_tab-active_tab_id pane id open_active ∙ rw open_id in
    let still : has_tab pane.active_tab_id (activate_pane_tab pane id).tabs ≡ true =
      count_tab-has_tab pane.active_tab_id (activate_pane_tab pane id).tabs (
        rw (count_tab-activate pane.active_tab_id pane id)
          (has_tab-count_tab pane.active_tab_id pane.tabs open_active)) in
    subst (λ i. (close_in_pane (activate_pane_tab pane id) i).active_tab_id ≡ pane.active_tab_id)
      now
      (close-active (activate_pane_tab pane id) t pane.active_tab_id (rw now found) remembers named
        (rw now other) still)
