-- ===== src/Workbench/Moved.antt =====
-- web/src/state/workbench.ts: `moveTab` as a whole.
use Prim.Native.String.{String}
use whats_going_on.Prelude.{
  ◌≤◌, ◌<◌, ◌≡◌, refl, subst, sym, inl, inr, true, ◌&&◌, Option, some, List, [], ◌∷◌, arith, All,
  All-append, Bool-cases, Option-cases,
}
use whats_going_on.Workbench.Model.{
  same, same_iff, same_option, WorkbenchTab, WorkbenchPane, WorkbenchState, TabDropPosition,
  without_tab, find_tab, find_pane, has_pane,
}
use whats_going_on.Workbench.Tabs.{close_in_pane, insert_tab, move_tab_within_pane}
use whats_going_on.Workbench.Moves.{leave_pane, move_in_pane, flat_map_panes, move_tab}
use whats_going_on.Workbench.Counts.{
  one_if, count_tab, count_tabs, count_pane, count_pane-append, count_tab-insert_tab,
  find_tab-has_tab, has_tab-count_tab,
}
use whats_going_on.Workbench.History.{IsNonEmpty, PaneOk, activate_pane_tab-PaneOk}
use whats_going_on.Workbench.Panes.{activate-id, close-id, close-PaneOk}
use whats_going_on.Workbench.Invariant.{Inv}
use whats_going_on.Workbench.Moving.{SameTabs, flat-SameTabs}

-- The panes that stand in for one pane: consistent, and one at most, with its id.
pub record Replaces (p : WorkbenchPane) (ps : List WorkbenchPane) : Type 0 where
  pub consistent : All PaneOk ps
  pub at_most : (x : String) → count_pane x ps ≤ one_if (same p.id x)

pub one_pane-Replaces : (p q : WorkbenchPane) → PaneOk q → q.id ≡ p.id → Replaces p (q ∷ [])
unfolding count_pane
one_pane-Replaces p q ok e = record { consistent = (ok, tt); at_most = λ x. rw e (omega arith) }

pub insert-IsNonEmpty :
    (tabs : List WorkbenchTab) (t : WorkbenchTab) (target : Option String)
    (position : TabDropPosition)
    → IsNonEmpty (insert_tab tabs t target position)
insert-IsNonEmpty tabs t target position =
    go (insert_tab tabs t target position)
      (ground (arith, count_tab-insert_tab t.id tabs t target position, same_iff t.id t.id))
  where
    go : (ts : List WorkbenchTab) → 0 < count_tab t.id ts → IsNonEmpty ts
    go [] h = unfold count_tab in omega (arith, h)
    go (u ∷ us) h = tt

within-Replaces :
    (p : WorkbenchPane) (id : String) (target : Option String) (position : TabDropPosition)
    → PaneOk p
    → Replaces p (move_tab_within_pane p id target position ∷ [])
unfolding move_tab_within_pane
within-Replaces p id target position ok = elim (Bool-cases (same_option target (some id))) [
  | inl e ↦ rw e (one_pane-Replaces p p ok refl)
  | inr e ↦ elim (Option-cases (find_tab id p.tabs)) [
    | inl f ↦ rw (e, f, move_tab_within_pane) (one_pane-Replaces p p ok refl)
    | inr (t, f) ↦
        rw (e, f, move_tab_within_pane)
          (one_pane-Replaces p _
            (activate_pane_tab-PaneOk _ id
              (insert-IsNonEmpty (without_tab id p.tabs) t target position))
            (activate-id _ id))
  ]
]

pub leave-Replaces : (p : WorkbenchPane) (id : String) → Replaces p (leave_pane id p)
unfolding leave_pane count_pane
leave-Replaces p id = go (without_tab id p.tabs) refl
  where
    go :
        (ts : List WorkbenchTab)
        → without_tab id p.tabs ≡ ts
        → Replaces p (elim ts [ [] ↦ [] | _ ↦ close_in_pane p id ∷ [] ])
    go [] e = record { consistent = tt; at_most = λ x. omega arith }
    go (u ∷ us) e =
        one_pane-Replaces p _ (close-PaneOk p id (subst IsNonEmpty (sym e) tt)) (close-id p id)

module _ (source id target : String) (target_tab : Option String) (position : TabDropPosition)
    (t : WorkbenchTab) where
  move-Replaces :
      (p : WorkbenchPane)
      → PaneOk p
      → Replaces p (move_in_pane source id target target_tab position t p)
  unfolding move_in_pane
  move-Replaces p ok = elim (Bool-cases (same source target && same p.id source)) [
    | inl e ↦ rw e (within-Replaces p id target_tab position ok)
    | inr e ↦ elim (Bool-cases (same p.id source)) [
      | inl h ↦ rw (e, h) (leave-Replaces p id)
      | inr h ↦ elim (Bool-cases (same p.id target)) [
        | inl k ↦
            rw (e, h, k)
              (one_pane-Replaces p _
                (activate_pane_tab-PaneOk _ t.id (insert-IsNonEmpty p.tabs t target_tab position))
                (activate-id _ t.id))
        | inr k ↦ rw (e, h, k) (one_pane-Replaces p p ok refl)
      ]
    ]
  ]

pub flat-PaneOk :
    (f : WorkbenchPane → List WorkbenchPane) (panes : List WorkbenchPane)
    → ((p : WorkbenchPane) → PaneOk p → Replaces p (f p))
    → All PaneOk panes
    → All PaneOk (flat_map_panes f panes)
flat-PaneOk f [] h ok = tt
flat-PaneOk f (p ∷ panes) h ok =
    All-append PaneOk (f p) (flat_map_panes f panes) (h p ok.0).consistent
      (flat-PaneOk f panes h ok.1)

pub flat-count_pane :
    (x : String) (f : WorkbenchPane → List WorkbenchPane) (panes : List WorkbenchPane)
    → ((p : WorkbenchPane) → PaneOk p → Replaces p (f p))
    → All PaneOk panes
    → count_pane x (flat_map_panes f panes) ≤ count_pane x panes
unfolding count_pane
flat-count_pane x f [] h ok = omega arith
flat-count_pane x f (p ∷ panes) h ok = omega (
  arith,
  count_pane-append x (f p) (flat_map_panes f panes),
  (h p ok.0).at_most x,
  flat-count_pane x f panes h ok.1,
)

pub has_tab-count_tabs :
    (id pane : String) (panes : List WorkbenchPane) (p : WorkbenchPane)
    → find_pane pane panes ≡ some p
    → 0 < count_tab id p.tabs
    → 0 < count_tabs id panes
unfolding find_pane count_tabs
has_tab-count_tabs id pane [] p f h = cc
has_tab-count_tabs id pane (q ∷ panes) p f h = elim (Bool-cases (same q.id pane)) [
  | inl e ↦
      let here : q ≡ p = ground arith in
      let some_tab : 0 < count_tab id q.tabs = rw here h in omega (arith, some_tab)
  | inr e ↦ omega (arith, has_tab-count_tabs id pane panes p (ground arith) h)
]

count_tabs-IsNonEmpty :
    (x : String) (panes : List WorkbenchPane) → 0 < count_tabs x panes → IsNonEmpty panes
unfolding count_tabs
count_tabs-IsNonEmpty x [] h = omega (arith, h)
count_tabs-IsNonEmpty x (p ∷ panes) h = tt

flat-Inv :
    (source id target : String) (target_tab : Option String) (position : TabDropPosition)
    (panes : List WorkbenchPane) (sp : WorkbenchPane) (t : WorkbenchTab)
    → find_pane source panes ≡ some sp
    → find_tab id sp.tabs ≡ some t
    → has_pane target panes ≡ true
    → Inv panes
    → Inv (flat_map_panes (move_in_pane source id target target_tab position t) panes)
flat-Inv source id target target_tab position panes sp t f g h v =
    let kept = flat-SameTabs source id target target_tab position panes sp t f g h v in
    let pieces = move-Replaces source id target target_tab position t in
    record {
      some_pane = count_tabs-IsNonEmpty id _ (
          rw (kept id) (
            has_tab-count_tabs id source panes sp f
              (has_tab-count_tab id sp.tabs (find_tab-has_tab id sp.tabs t g))));
      panes_ok = flat-PaneOk _ panes pieces v.panes_ok;
      tabs_unique = λ x. rw (kept x) (v.tabs_unique x);
      panes_unique =
          λ x. omega (arith, flat-count_pane x _ panes pieces v.panes_ok, v.panes_unique x);
    }

-- What a move keeps: the tabs, and the invariant.
abbrev pub Keeps : List WorkbenchPane → List WorkbenchPane → Type 0
Keeps panes moved = SameTabs moved panes × Inv moved

module _ {Layout : Type 0} where
  -- In panes that satisfy the invariant, `moveTab` loses no tab and copies none, and its result
  -- satisfies the invariant.
  pub move_tab-Keeps :
      (source id target : String) (target_tab : Option String) (position : TabDropPosition)
      (state : WorkbenchState Layout)
      → Inv state.panes
      → Keeps state.panes (move_tab source id target target_tab position state).0.panes
  unfolding move_tab
  move_tab-Keeps source id target target_tab position state v =
      elim (Option-cases (find_pane source state.panes)) [
        | inl f ↦ rw (f, move_tab) ((λ x. refl), v)
        | inr (sp, f) ↦ elim (Bool-cases (has_pane target state.panes)) [
          | inr h ↦ rw (f, move_tab, h) ((λ x. refl), v)
          | inl h ↦ elim (Option-cases (find_tab id sp.tabs)) [
            | inl g ↦ rw (f, move_tab, h, g) ((λ x. refl), v)
            | inr (t, g) ↦
                rw (f, move_tab, h, g)
                  (
                    flat-SameTabs source id target target_tab position state.panes sp t f g h v,
                    flat-Inv source id target target_tab position state.panes sp t f g h v,
                  )
          ]
        ]
      ]
