-- ===== src/Workbench/Invariant.antt =====
-- web/src/state/workbench.ts: the invariant of the panes, under `panes.map`, a new pane and the end
-- of one.
use Prim.Native.String.{String}
use whats_going_on.Prelude.{
  ℕ, ◌+◌, ◌*◌, ◌≤◌, ◌<◌, ◌≡◌, refl, subst, inl, inr, Bool, true, false, List, [], ◌∷◌, ◌++◌, arith,
  All, All-append, if◌then◌else◌, Bool-cases, length, leb,
}
use whats_going_on.Workbench.Model.{same, same_iff, WorkbenchPane}
use whats_going_on.Workbench.State.{map_pane, without_pane}
use whats_going_on.Workbench.Counts.{
  one_if, count_tab, count_tabs, count_pane, count_tabs-append, count_pane-append,
}
use whats_going_on.Workbench.History.{IsNonEmpty, PaneOk}

-- There is a pane; each pane is consistent; no id is that of two tabs, or of two panes.
pub record Inv (panes : List WorkbenchPane) : Type 0 where
  pub some_pane : IsNonEmpty panes
  pub panes_ok : All PaneOk panes
  pub tabs_unique : (x : String) → count_tabs x panes ≤ 1
  pub panes_unique : (x : String) → count_pane x panes ≤ 1

module _ (id : String) (f : WorkbenchPane → WorkbenchPane)
    (keeps_id : (p : WorkbenchPane) → (f p).id ≡ p.id) where
  pub count_pane-map :
      (x : String) (panes : List WorkbenchPane)
      → count_pane x (map_pane id f panes) ≡ count_pane x panes
  unfolding count_pane
  count_pane-map x [] = refl
  count_pane-map x (p ∷ panes) = ground (arith, keeps_id p, count_pane-map x panes)

  -- The pane with the id gains at most `d` tabs with the id `x`.
  count_tabs-map_le :
      (x : String) (d : ℕ) (panes : List WorkbenchPane)
      → ((p : WorkbenchPane) → count_tab x (f p).tabs ≤ count_tab x p.tabs + d)
      → count_tabs x (map_pane id f panes) ≤ count_tabs x panes + count_pane id panes * d
  unfolding count_tabs count_pane
  count_tabs-map_le x d [] h = omega arith
  count_tabs-map_le x d (p ∷ panes) h = elim (Bool-cases (same p.id id)) [
    | inl e ↦ rw e (omega (arith, h p, count_tabs-map_le x d panes h))
    | inr e ↦ rw e (omega (arith, count_tabs-map_le x d panes h))
  ]

  map_pane-PaneOk :
      (panes : List WorkbenchPane)
      → ((x : String) → count_tabs x panes ≤ 1)
      → ((p : WorkbenchPane) → PaneOk p → ((x : String) → count_tab x p.tabs ≤ 1) → PaneOk (f p))
      → All PaneOk panes
      → All PaneOk (map_pane id f panes)
  unfolding count_tabs
  map_pane-PaneOk [] u h ok = tt
  map_pane-PaneOk (p ∷ panes) u h ok =
      (go (same p.id id), map_pane-PaneOk panes (λ x. omega (arith, u x)) h ok.1)
    where
      go : (b : Bool) → PaneOk (if b then f p else p)
      go true = h p ok.0 (λ x. omega (arith, u x))
      go false = ok.0

  map_pane-IsNonEmpty :
      (panes : List WorkbenchPane) → IsNonEmpty panes → IsNonEmpty (map_pane id f panes)
  map_pane-IsNonEmpty [] h = h
  map_pane-IsNonEmpty (p ∷ panes) h = tt

  -- `panes.map` on one pane keeps the invariant, if the pane stays consistent and gains no tab but
  -- new ones.
  pub map_pane-Inv :
      (d : String → ℕ) (panes : List WorkbenchPane)
      → ((p : WorkbenchPane) → PaneOk p → ((x : String) → count_tab x p.tabs ≤ 1) → PaneOk (f p))
      → ((x : String) (p : WorkbenchPane) → count_tab x (f p).tabs ≤ count_tab x p.tabs + d x)
      → ((x : String) → count_tabs x panes + d x ≤ 1)
      → Inv panes
      → Inv (map_pane id f panes)
  map_pane-Inv d panes ok gain room v = record {
    some_pane = map_pane-IsNonEmpty panes v.some_pane;
    panes_ok = map_pane-PaneOk panes v.tabs_unique ok v.panes_ok;
    tabs_unique =
        λ x. grind (arith, count_tabs-map_le x (d x) panes (gain x), room x, v.panes_unique id);
    panes_unique = λ x. rw (count_pane-map x panes) (v.panes_unique x);
  }

append-IsNonEmpty {ℓ} : {A : Type ℓ} (xs ys : List A) → IsNonEmpty xs → IsNonEmpty (xs ++ ys)
append-IsNonEmpty [] ys h = absurd h
append-IsNonEmpty (x ∷ xs) ys h = tt

-- A new pane with new tabs.
pub append_pane-Inv :
    (panes : List WorkbenchPane) (p : WorkbenchPane)
    → PaneOk p
    → ((x : String) → count_tabs x panes + count_tab x p.tabs ≤ 1)
    → count_pane p.id panes ≡ 0
    → Inv panes
    → Inv (panes ++ p ∷ [])
unfolding count_tabs count_pane
append_pane-Inv panes p ok room fresh v = record {
  some_pane = append-IsNonEmpty panes (p ∷ []) v.some_pane;
  panes_ok = All-append PaneOk panes (p ∷ []) v.panes_ok (ok, tt);
  tabs_unique = λ x. omega (arith, count_tabs-append x panes (p ∷ []), room x);
  panes_unique = λ x. elim (Bool-cases (same p.id x)) [
    | inl e ↦
        subst (λ y. count_pane y (panes ++ p ∷ []) ≤ 1) ((same_iff p.id x).0 e)
          (ground (arith, count_pane-append p.id panes (p ∷ []), same_iff p.id p.id))
    | inr e ↦
        rw (count_pane-append x panes (p ∷ []), count_pane, e) (omega (arith, v.panes_unique x))
  ];
}

-- A tab with a new id may come anywhere.
pub fresh_room :
    (id : String) (panes : List WorkbenchPane)
    → count_tabs id panes ≡ 0
    → ((x : String) → count_tabs x panes ≤ 1)
    → (x : String) → count_tabs x panes + one_if (same id x) ≤ 1
fresh_room id panes fresh u x = elim (Bool-cases (same id x)) [
  | inl e ↦
      rw e (subst (λ y. count_tabs y panes + 1 ≤ 1) ((same_iff id x).0 e) (omega (arith, fresh)))
  | inr e ↦ rw e (omega (arith, u x))
]

-- The panes without one keep the invariant, if one is left.
count_tabs-without_pane :
    (x id : String) (panes : List WorkbenchPane)
    → count_tabs x (without_pane id panes) ≤ count_tabs x panes
unfolding count_tabs without_pane
count_tabs-without_pane x id [] = omega arith
count_tabs-without_pane x id (p ∷ panes) = ground (arith, count_tabs-without_pane x id panes)

count_pane-without_pane :
    (x id : String) (panes : List WorkbenchPane)
    → count_pane x (without_pane id panes) ≤ count_pane x panes
unfolding count_pane without_pane
count_pane-without_pane x id [] = omega arith
count_pane-without_pane x id (p ∷ panes) = ground (arith, count_pane-without_pane x id panes)

without_pane-PaneOk :
    (id : String) (panes : List WorkbenchPane)
    → All PaneOk panes
    → All PaneOk (without_pane id panes)
unfolding without_pane
without_pane-PaneOk id [] ok = tt
without_pane-PaneOk id (p ∷ panes) ok = ground (arith, ok.0, without_pane-PaneOk id panes ok.1)

-- Two panes with distinct ids are not both removed.
length-without_pane :
    (id : String) (panes : List WorkbenchPane)
    → length panes ≡ length (without_pane id panes) + count_pane id panes
unfolding count_pane without_pane
length-without_pane id [] = omega arith
length-without_pane id (p ∷ panes) = ground (arith, length-without_pane id panes)

pub length-IsNonEmpty {ℓ} : {A : Type ℓ} (xs : List A) → 0 < length xs → IsNonEmpty xs
length-IsNonEmpty [] h = elim h [ ]
length-IsNonEmpty (x ∷ xs) h = tt

pub without_pane-Inv :
    (id : String) (panes : List WorkbenchPane)
    → leb (length panes) 1 ≡ false
    → Inv panes
    → Inv (without_pane id panes)
without_pane-Inv id panes more v = record {
  some_pane =
      length-IsNonEmpty (without_pane id panes)
        (ground (arith, length-without_pane id panes, v.panes_unique id));
  panes_ok = without_pane-PaneOk id panes v.panes_ok;
  tabs_unique = λ x. omega (arith, count_tabs-without_pane x id panes, v.tabs_unique x);
  panes_unique = λ x. omega (arith, count_pane-without_pane x id panes, v.panes_unique x);
}
