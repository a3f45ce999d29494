-- ===== src/Workbench/Counts.antt =====
-- web/src/state/workbench.ts: how often an id stands among tabs and panes.
use Prim.Native.String.{String}
use whats_going_on.Prelude.{
  ℕ, ◌+◌, ◌<◌, ◌≡◌, refl, Bool, true, false, Option, none, some, List, [], ◌∷◌, ◌++◌, map, arith,
}
use whats_going_on.Workbench.Model.{
  same, same_iff, WorkbenchTab, WorkbenchPane, TabDropPosition, before, after, at_end, find_tab,
  has_tab, without_tab, has_pane,
}
use whats_going_on.Workbench.Tabs.{insert_at, insert_tab}

-- 1 where the test holds.
abbrev pub one_if : Bool → ℕ
one_if true = 1
one_if false = 0

unfoldable pub count_tab : String → List WorkbenchTab → ℕ
count_tab x [] = 0
count_tab x (tab ∷ tabs) = one_if (same tab.id x) + count_tab x tabs

unfoldable pub count_tabs : String → List WorkbenchPane → ℕ
unfolding count_tab
count_tabs x [] = 0
count_tabs x (pane ∷ panes) = count_tab x pane.tabs + count_tabs x panes

unfoldable pub count_pane : String → List WorkbenchPane → ℕ
count_pane x [] = 0
count_pane x (pane ∷ panes) = one_if (same pane.id x) + count_pane x panes

pub has_tab-count_tab :
    (x : String) (tabs : List WorkbenchTab) → has_tab x tabs ≡ true → 0 < count_tab x tabs
unfolding has_tab count_tab
has_tab-count_tab x [] h = cc
has_tab-count_tab x (tab ∷ tabs) h = ground (arith, has_tab-count_tab x tabs)

pub count_tab-has_tab :
    (x : String) (tabs : List WorkbenchTab) → 0 < count_tab x tabs → has_tab x tabs ≡ true
unfolding has_tab count_tab
count_tab-has_tab x [] h = elim h [ ]
count_tab-has_tab x (tab ∷ tabs) h = ground (arith, count_tab-has_tab x tabs)

pub count_tab-append :
    (x : String) (ts us : List WorkbenchTab)
    → count_tab x (ts ++ us) ≡ count_tab x ts + count_tab x us
unfolding count_tab
count_tab-append x [] us = omega arith
count_tab-append x (t ∷ ts) us = omega (arith, count_tab-append x ts us)

-- A map that keeps the ids.
pub count_tab-map :
    (x : String) (f : WorkbenchTab → WorkbenchTab) (tabs : List WorkbenchTab)
    → ((t : WorkbenchTab) → (f t).id ≡ t.id)
    → count_tab x (map f tabs) ≡ count_tab x tabs
unfolding count_tab
count_tab-map x f [] h = refl
count_tab-map x f (t ∷ ts) h = rw (h t, count_tab-map x f ts h)

pub has_tab-map :
    (x : String) (f : WorkbenchTab → WorkbenchTab) (tabs : List WorkbenchTab)
    → ((t : WorkbenchTab) → (f t).id ≡ t.id)
    → has_tab x (map f tabs) ≡ has_tab x tabs
unfolding has_tab
has_tab-map x f [] h = refl
has_tab-map x f (t ∷ ts) h = ground (arith, h t, has_tab-map x f ts h)

-- `filter` removes every tab with the id, and keeps the others.
pub count_tab-without_self :
    (id : String) (tabs : List WorkbenchTab) → count_tab id (without_tab id tabs) ≡ 0
unfolding count_tab without_tab
count_tab-without_self id [] = refl
count_tab-without_self id (t ∷ ts) = ground (arith, count_tab-without_self id ts)

pub count_tab-without_ne :
    (x id : String) (tabs : List WorkbenchTab)
    → same id x ≡ false
    → count_tab x (without_tab id tabs) ≡ count_tab x tabs
unfolding count_tab without_tab
count_tab-without_ne x id [] h = refl
count_tab-without_ne x id (t ∷ ts) h =
    ground (arith, count_tab-without_ne x id ts, same_iff t.id id, same_iff t.id x, same_iff id x)

pub find_tab-id :
    (id : String) (tabs : List WorkbenchTab) (t : WorkbenchTab)
    → find_tab id tabs ≡ some t
    → t.id ≡ id
unfolding find_tab
find_tab-id id [] t h = cc
find_tab-id id (u ∷ tabs) t h = ground (arith, find_tab-id id tabs t, same_iff u.id id)

pub find_tab-has_tab :
    (id : String) (tabs : List WorkbenchTab) (t : WorkbenchTab)
    → find_tab id tabs ≡ some t
    → has_tab id tabs ≡ true
unfolding find_tab has_tab
find_tab-has_tab id [] t h = cc
find_tab-has_tab id (u ∷ tabs) t h = ground (arith, find_tab-has_tab id tabs t)

count_tab-insert_at :
    (x : String) (tabs : List WorkbenchTab) (t : WorkbenchTab) (target : String) (b : Bool)
    → count_tab x (insert_at tabs t target b) ≡ count_tab x tabs + one_if (same t.id x)
unfolding count_tab insert_at
count_tab-insert_at x [] t target b = omega arith
count_tab-insert_at x (u ∷ tabs) t target true =
    ground (arith, count_tab-insert_at x tabs t target true)
count_tab-insert_at x (u ∷ tabs) t target false =
    ground (arith, count_tab-insert_at x tabs t target false)

-- Wherever it is inserted, the tab comes once more, and the others as often as before.
pub count_tab-insert_tab :
    (x : String) (tabs : List WorkbenchTab) (t : WorkbenchTab) (target : Option String)
    (position : TabDropPosition)
    → count_tab x (insert_tab tabs t target position) ≡ count_tab x tabs + one_if (same t.id x)
unfolding insert_tab count_tab
count_tab-insert_tab x tabs t none position = omega (arith, count_tab-append x tabs (t ∷ []))
count_tab-insert_tab x tabs t (some target) at_end = omega (arith, count_tab-append x tabs (t ∷ []))
count_tab-insert_tab x tabs t (some target) before =
    ground (arith, count_tab-append x tabs (t ∷ []), count_tab-insert_at x tabs t target true)
count_tab-insert_tab x tabs t (some target) after =
    ground (arith, count_tab-append x tabs (t ∷ []), count_tab-insert_at x tabs t target false)

pub has_pane-count_pane :
    (x : String) (panes : List WorkbenchPane) → has_pane x panes ≡ true → 0 < count_pane x panes
unfolding has_pane count_pane
has_pane-count_pane x [] h = cc
has_pane-count_pane x (p ∷ panes) h = ground (arith, has_pane-count_pane x panes)

pub count_tabs-append :
    (x : String) (ps qs : List WorkbenchPane)
    → count_tabs x (ps ++ qs) ≡ count_tabs x ps + count_tabs x qs
unfolding count_tabs
count_tabs-append x [] qs = omega arith
count_tabs-append x (p ∷ ps) qs = omega (arith, count_tabs-append x ps qs)

pub count_pane-append :
    (x : String) (ps qs : List WorkbenchPane)
    → count_pane x (ps ++ qs) ≡ count_pane x ps + count_pane x qs
unfolding count_pane
count_pane-append x [] qs = omega arith
count_pane-append x (p ∷ ps) qs = omega (arith, count_pane-append x ps qs)
