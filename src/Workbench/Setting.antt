-- ===== src/Workbench/Setting.antt =====
-- web/src/state/workbench.ts: the setters of one tab keep the invariant.
use Prim.Native.String.{String}
use whats_going_on.Prelude.{
  ◌≡◌, refl, sym, ◌∙◌, inl, inr, Bool, ◌&&◌, List, [], ◌∷◌, map, arith, All, if◌then◌else◌,
  Bool-cases,
}
use whats_going_on.Workbench.Model.{same, WorkbenchTab, WorkbenchPane}
use whats_going_on.Workbench.State.{update_tab}
use whats_going_on.Workbench.Counts.{count_tab-map, has_tab-map}
use whats_going_on.Workbench.History.{HistoryOk, PaneOk}
use whats_going_on.Workbench.Invariant.{Inv, map_pane-Inv}

-- A setter keeps what the pane's history is about.
pub record KeepsTab (f : WorkbenchTab → WorkbenchTab) : Type 0 where
  pub keeps_id : (t : WorkbenchTab) → (f t).id ≡ t.id
  pub keeps_previous : (t : WorkbenchTab) → (f t).previous_active_tab_id ≡ t.previous_active_tab_id

pub if-KeepsTab :
    (test : WorkbenchTab → Bool) (f : WorkbenchTab → WorkbenchTab)
    → KeepsTab f
    → KeepsTab (λ t. if test t then f t else t)
if-KeepsTab test f k = record {
  keeps_id = λ t. elim (Bool-cases (test t)) [ inl e ↦ rw e (k.keeps_id t) | inr e ↦ rw e ];
  keeps_previous =
      λ t. elim (Bool-cases (test t)) [ inl e ↦ rw e (k.keeps_previous t) | inr e ↦ rw e ];
}

module _ (f : WorkbenchTab → WorkbenchTab) (k : KeepsTab f) where
  map-HistoryOk :
      (tabs ts : List WorkbenchTab)
      → All (HistoryOk tabs) ts
      → All (HistoryOk (map f tabs)) (map f ts)
  map-HistoryOk tabs [] h = tt
  map-HistoryOk tabs (t ∷ ts) h = (
    (λ previous e.
        let (other, there) = h.0 previous (sym (k.keeps_previous t) ∙ e) in
        (rw (k.keeps_id t) other, has_tab-map previous f tabs k.keeps_id ∙ there)),
    map-HistoryOk tabs ts h.1,
  )

  map_tabs-PaneOk : (p : WorkbenchPane) → PaneOk p → PaneOk (record p { tabs = map f p.tabs })
  map_tabs-PaneOk p ok = record {
    active_open = has_tab-map p.active_tab_id f p.tabs k.keeps_id ∙ ok.active_open;
    history_open = map-HistoryOk p.tabs p.tabs ok.history_open;
  }

-- A setter that keeps a tab's id and history keeps the invariant.
pub update_tab-Inv :
    (pane tab : String) (test : WorkbenchTab → Bool) (f : WorkbenchTab → WorkbenchTab)
    (panes : List WorkbenchPane)
    → KeepsTab f
    → Inv panes
    → Inv (update_tab pane tab test f panes)
update_tab-Inv pane tab test f panes k v =
    let g = λ (t : WorkbenchTab). if same t.id tab && test t then f t else t in
    let kg = if-KeepsTab (λ t. same t.id tab && test t) f k in
    map_pane-Inv pane (λ p. record p { tabs = map g p.tabs }) (λ p. refl) (λ x. 0) panes
      (λ p ok u. map_tabs-PaneOk g kg p ok)
      (λ x p. omega (arith, count_tab-map x g p.tabs kg.keeps_id))
      (λ x. omega (arith, v.tabs_unique x)) v
