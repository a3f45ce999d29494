-- ===== src/Workbench/Moving.antt =====
-- web/src/state/workbench.ts: `moveTab` and `moveTabToNewPane` lose no tab and keep the invariant.
use Prim.Native.String.{String}
use whats_going_on.Prelude.{
  ◌+◌, ◌*◌, ◌≤◌, ◌<◌, ◌≡◌, refl, subst, ap, ◌∙◌, inl, inr, true, false, Option, some, List, [], ◌∷◌,
  arith, All, Bool-cases, Option-cases,
}
use whats_going_on.Workbench.Model.{
  same, same_iff, same_option, WorkbenchTab, WorkbenchPane, TabDropPosition, without_tab, find_tab,
  find_pane, has_pane,
}
use whats_going_on.Workbench.Tabs.{close_in_pane, insert_tab, move_tab_within_pane}
use whats_going_on.Workbench.Moves.{leave_pane, move_in_pane, flat_map_panes}
use whats_going_on.Workbench.Counts.{
  one_if, count_tab, count_tabs, count_pane, count_tabs-append, count_tab-insert_tab,
  count_tab-without_ne, count_tab-without_self, find_tab-id, find_tab-has_tab, has_tab-count_tab,
  has_pane-count_pane,
}
use whats_going_on.Workbench.Panes.{count_tab-activate, count_tab-close}
use whats_going_on.Workbench.Invariant.{Inv}

-- Each id comes as often in `ps` as in `qs`.
abbrev pub SameTabs : List WorkbenchPane → List WorkbenchPane → Type 0
SameTabs ps qs = (x : String) → count_tabs x ps ≡ count_tabs x qs

-- A tab taken out and put back comes as often as before.
without-put :
    (x id : String) (tabs : List WorkbenchTab) (t : WorkbenchTab)
    → count_tab id tabs ≤ 1
    → find_tab id tabs ≡ some t
    → count_tab x (without_tab id tabs) + one_if (same t.id x) ≡ count_tab x tabs
without-put x id tabs t u f = rw (find_tab-id id tabs t f) (elim (Bool-cases (same id x)) [
  | inl e ↦
      subst (λ y. count_tab y (without_tab id tabs) + one_if (same id y) ≡ count_tab y tabs)
        ((same_iff id x).0 e)
        (ground (
          arith,
          same_iff id id,
          count_tab-without_self id tabs,
          has_tab-count_tab id tabs (find_tab-has_tab id tabs t f),
        ))
  | inr e ↦ rw e (omega (arith, count_tab-without_ne x id tabs e))
])

-- Inside one pane nothing is lost.
within-count :
    (x : String) (p : WorkbenchPane) (id : String) (target : Option String)
    (position : TabDropPosition)
    → count_tab id p.tabs ≤ 1
    → count_tab x (move_tab_within_pane p id target position).tabs ≡ count_tab x p.tabs
unfolding move_tab_within_pane
within-count x p id target position u = elim (Bool-cases (same_option target (some id))) [
  | inl e ↦ rw e
  | inr e ↦ elim (Option-cases (find_tab id p.tabs)) [
    | inl f ↦ rw (e, f, move_tab_within_pane)
    | inr (t, f) ↦
        rw (e, f, move_tab_within_pane)
          (count_tab-activate x _ id
            ∙ (count_tab-insert_tab x (without_tab id p.tabs) t target position
                ∙ without-put x id p.tabs t u f))
  ]
]

pub leave-count :
    (x : String) (p : WorkbenchPane) (id : String)
    → count_tabs x (leave_pane id p) ≡ count_tab x (without_tab id p.tabs)
unfolding leave_pane count_tabs count_tab
leave-count x p id = go (without_tab id p.tabs) refl
  where
    go :
        (ts : List WorkbenchTab)
        → without_tab id p.tabs ≡ ts
        → count_tabs x (elim ts [ [] ↦ [] | _ ↦ close_in_pane p id ∷ [] ]) ≡ count_tab x ts
    go [] e = refl
    go (u ∷ us) e = omega (arith, count_tab-close x p id, ap (count_tab x) e)

-- Every pane with the id `source` holds the tab once.
abbrev pub HeldIn : String → String → List WorkbenchPane → Type 0
HeldIn source id = All (λ p. same p.id source ≡ true → count_tab id p.tabs ≡ 1)

no_source-HeldIn :
    (source id : String) (panes : List WorkbenchPane)
    → count_pane source panes ≡ 0
    → HeldIn source id panes
unfolding count_pane
no_source-HeldIn source id [] h = tt
no_source-HeldIn source id (p ∷ panes) h =
    (λ e. ground arith, no_source-HeldIn source id panes (ground arith))

pub find-HeldIn :
    (source id : String) (panes : List WorkbenchPane) (sp : WorkbenchPane) (t : WorkbenchTab)
    → find_pane source panes ≡ some sp
    → find_tab id sp.tabs ≡ some t
    → count_pane source panes ≤ 1
    → count_tabs id panes ≤ 1
    → HeldIn source id panes
unfolding find_pane count_pane count_tabs
find-HeldIn source id [] sp t f g u v = tt
find-HeldIn source id (p ∷ panes) sp t f g u v = elim (Bool-cases (same p.id source)) [
  | inl e ↦
      let here : p ≡ sp = ground arith in
      let held : 0 < count_tab id p.tabs =
        has_tab-count_tab id p.tabs (find_tab-has_tab id p.tabs t (rw here g)) in
      (λ h. omega (arith, held, v), no_source-HeldIn source id panes (ground arith))
  | inr e ↦
      (λ h. cc, find-HeldIn source id panes sp t (ground arith) g (ground arith) (ground arith))
]

pub held-without :
    (x id : String) (tabs : List WorkbenchTab)
    → count_tab id tabs ≡ 1
    → count_tab x (without_tab id tabs) + one_if (same id x) ≡ count_tab x tabs
held-without x id tabs h = elim (Bool-cases (same id x)) [
  | inl e ↦
      subst (λ y. count_tab y (without_tab id tabs) + one_if (same id y) ≡ count_tab y tabs)
        ((same_iff id x).0 e) (ground (arith, same_iff id id, count_tab-without_self id tabs))
  | inr e ↦ rw e (omega (arith, count_tab-without_ne x id tabs e))
]

module _ (source id target : String) (target_tab : Option String) (position : TabDropPosition)
    (t : WorkbenchTab) (own : t.id ≡ id) where
  -- One pane of a move between two panes.
  pane-count :
      (x : String) (p : WorkbenchPane)
      → same source target ≡ false
      → (same p.id source ≡ true → count_tab id p.tabs ≡ 1)
      → count_tabs x (move_in_pane source id target target_tab position t p)
          + one_if (same p.id source) * one_if (same id x)
        ≡ count_tab x p.tabs + one_if (same p.id target) * one_if (same id x)
  unfolding move_in_pane count_tabs
  pane-count x p other held = elim (Bool-cases (same p.id source)) [
    | inl e ↦
        let not_target : same p.id target ≡ false =
          ground (arith, same_iff p.id source, same_iff p.id target, same_iff source target) in
        rw (other, e, not_target)
          (omega (arith, leave-count x p id, held-without x id p.tabs (held e)))
    | inr e ↦ elim (Bool-cases (same p.id target)) [
      | inl h ↦
          rw (other, e, h)
            (omega (
              arith,
              count_tab-activate x (record p { tabs = insert_tab p.tabs t target_tab position })
                  t.id,
              count_tab-insert_tab x p.tabs t target_tab position,
              ap (λ i. one_if (same i x)) own,
            ))
      | inr h ↦ rw (other, e, h) (omega arith)
    ]
  ]

  -- One pane of a move inside a pane.
  pane-same :
      (x : String) (p : WorkbenchPane)
      → same source target ≡ true
      → (same p.id source ≡ true → count_tab id p.tabs ≡ 1)
      → count_tabs x (move_in_pane source id target target_tab position t p) ≡ count_tab x p.tabs
  unfolding move_in_pane count_tabs
  pane-same x p equal held = elim (Bool-cases (same p.id source)) [
    | inl e ↦
        rw (equal, e)
          (omega (arith, within-count x p id target_tab position (omega (arith, held e))))
    | inr e ↦
        let not_target : same p.id target ≡ false =
          ground (arith, same_iff p.id source, same_iff p.id target, same_iff source target) in
        rw (equal, e, not_target) (omega arith)
  ]

  flat-count :
      (x : String) (panes : List WorkbenchPane)
      → same source target ≡ false
      → HeldIn source id panes
      → count_tabs x (flat_map_panes (move_in_pane source id target target_tab position t) panes)
          + count_pane source panes * one_if (same id x)
        ≡ count_tabs x panes + count_pane target panes * one_if (same id x)
  unfolding count_tabs count_pane
  flat-count x [] other held = omega arith
  flat-count x (p ∷ panes) other held = grind (
    arith,
    count_tabs-append x (move_in_pane source id target target_tab position t p)
        (flat_map_panes (move_in_pane source id target target_tab position t) panes),
    pane-count x p other held.0,
    flat-count x panes other held.1,
  )

  flat-same :
      (x : String) (panes : List WorkbenchPane)
      → same source target ≡ true
      → HeldIn source id panes
      → count_tabs x (flat_map_panes (move_in_pane source id target target_tab position t) panes)
        ≡ count_tabs x panes
  unfolding count_tabs
  flat-same x [] equal held = refl
  flat-same x (p ∷ panes) equal held = omega (
    arith,
    count_tabs-append x (move_in_pane source id target target_tab position t p)
        (flat_map_panes (move_in_pane source id target target_tab position t) panes),
    pane-same x p equal held.0,
    flat-same x panes equal held.1,
  )

pub find_pane-count_pane :
    (id : String) (panes : List WorkbenchPane) (p : WorkbenchPane)
    → find_pane id panes ≡ some p
    → 0 < count_pane id panes
unfolding find_pane count_pane
find_pane-count_pane id [] p h = cc
find_pane-count_pane id (q ∷ panes) p h = ground (arith, find_pane-count_pane id panes p)

-- The `flatMap` of a move keeps the number of tabs with each id.
pub flat-SameTabs :
    (source id target : String) (target_tab : Option String) (position : TabDropPosition)
    (panes : List WorkbenchPane) (sp : WorkbenchPane) (t : WorkbenchTab)
    → find_pane source panes ≡ some sp
    → find_tab id sp.tabs ≡ some t
    → has_pane target panes ≡ true
    → Inv panes
    → SameTabs (flat_map_panes (move_in_pane source id target target_tab position t) panes) panes
flat-SameTabs source id target target_tab position panes sp t f g h v x =
    let held = find-HeldIn source id panes sp t f g (v.panes_unique source) (v.tabs_unique id) in
    let own = find_tab-id id sp.tabs t g in
    elim (Bool-cases (same source target)) [
      | inl e ↦ flat-same source id target target_tab position t own x panes e held
      | inr e ↦
          let one : count_pane source panes ≡ 1 =
            omega (arith, find_pane-count_pane source panes sp f, v.panes_unique source) in
          let one' : count_pane target panes ≡ 1 =
            omega (arith, has_pane-count_pane target panes h, v.panes_unique target) in
          grind (arith, flat-count source id target target_tab position t own x panes e held)
    ]
