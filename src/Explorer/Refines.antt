-- ===== src/Explorer/Refines.antt =====
-- web/src/state/explorer.ts: the events of a table change its rows as they would a map from keys to
-- entries, whatever the order the rows are sorted in.
use mathlib.Core.List.{Permᴰ}
use whats_going_on.Prelude.{
  ◌≡◌, refl, sym, ap, subst, ◌∙◌, inl, inr, Bool, true, false, not, ◌&&◌, ◌||◌, Option, none, some,
  List, [], ◌∷◌, ◌++◌, if◌then◌else◌, arith, Bool-cases,
}
use whats_going_on.Prelude.Int.{ℤ}
use whats_going_on.Wire.Message.{Text}
use whats_going_on.Explorer.Model.{
  same_text, FsEntry, RootsSubscriptionCloseReason, DirectorySubscriptionCloseReason,
  directory_failed, directory_deleted, directory_moved, directory_permission_lost,
  directory_replaced_by_non_directory, directory_unknown, TableEvent, snapshot, patch, closed, Intl,
}
use whats_going_on.Explorer.Navigation.{
  Navigation, location_from_path, directory_path_from_location, replace_with_moved_directory,
}
use whats_going_on.Explorer.Rows.{
  has_text, keys_of, keep, compare_entries, sort_entries, apply_entry_patch, apply_directory_patch,
  Table, apply_roots_event, apply_directory_event, text_or_empty, start_directory, moved_directory,
  directory_event,
}
use whats_going_on.Explorer.View.{
  same_text-eq, same_text_comm, lookup, Distinct, or_entry, lookup-append, lookup-absent,
  lookup-present, lookup-keep, append-Distinct,
}

or_swap : (a b c : Bool) → (a || (b || c)) ≡ (b || (a || c))
or_swap a b c = ground arith

or_left : (a b : Bool) → (a || b) ≡ false → a ≡ false
or_left a b h = ground arith

or_right : (a b : Bool) → (a || b) ≡ false → b ≡ false
or_right a b h = ground arith

or_entry-none : (o : Option FsEntry) → or_entry o none ≡ o
or_entry-none none = refl
or_entry-none (some e) = refl

merge :
    (removed upserted : Bool) (old new : Option FsEntry)
    → (upserted ≡ true → (e : FsEntry) × (new ≡ some e))
    → (upserted ≡ false → new ≡ none)
    → or_entry (if not removed && not upserted then old else none) new
      ≡ or_entry new (if removed then none else old)
merge true true old new present missing = sym (or_entry-none new)
merge true false old new present missing = sym (or_entry-none new)
merge false true old new present missing = let (e, is) = present refl in rw is refl
merge false false old new present missing = rw (missing refl) (or_entry-none old)

module _ (key : FsEntry → Text) where
  -- What a permutation keeps.
  has_text-Permᴰ :
      (t : Text) {xs ys : List FsEntry}
      → Permᴰ xs ys
      → has_text t (keys_of key xs) ≡ has_text t (keys_of key ys)
  has_text-Permᴰ t Permᴰ.nil = refl
  has_text-Permᴰ t (Permᴰ.cons {a = a} {b = b} e h) =
      let rest = has_text-Permᴰ t h in rw (e, rest) refl
  has_text-Permᴰ t (Permᴰ.swap {a = a} {b = b} {l = l} e e') =
      or_swap (same_text (key a) t) (same_text (key b) t) (has_text t (keys_of key l))
      ∙ rw (e, e') refl
  has_text-Permᴰ t (Permᴰ.trans h h') = has_text-Permᴰ t h ∙ has_text-Permᴰ t h'

  swap-Distinct :
      (a b : FsEntry) (l : List FsEntry) → Distinct key (a ∷ b ∷ l) → Distinct key (b ∷ a ∷ l)
  swap-Distinct a b l d =
      let other : same_text (key a) (key b) ≡ false =
        same_text_comm (key a) (key b) ∙ or_left _ _ d.0 in
      (rw other d.1.0, (or_right (same_text (key b) (key a)) _ d.0, d.1.1))

  pub Permᴰ-Distinct : {xs ys : List FsEntry} → Permᴰ xs ys → Distinct key xs → Distinct key ys
  Permᴰ-Distinct Permᴰ.nil d = d
  Permᴰ-Distinct (Permᴰ.cons e h) d = (sym (rw e (has_text-Permᴰ _ h)) ∙ d.0, Permᴰ-Distinct h d.1)
  Permᴰ-Distinct (Permᴰ.swap {a = a} {b = b} {b' = b'} {l = l} e e') d =
      subst (λ t. Distinct key (t ∷ b' ∷ l)) e'
        (subst (λ t. Distinct key (b ∷ t ∷ l)) e (swap-Distinct a b l d))
  Permᴰ-Distinct (Permᴰ.trans h h') d = Permᴰ-Distinct h' (Permᴰ-Distinct h d)

  lookup_swap :
      (k : Text) (a b : FsEntry) (l : List FsEntry)
      → same_text (key b) (key a) ≡ false
      → lookup key k (a ∷ b ∷ l) ≡ lookup key k (b ∷ a ∷ l)
  lookup_swap k a b l other = elim (Bool-cases (same_text (key a) k)) [
    | inl e ↦
        let first = same_text-eq (key a) k e in
        let second : same_text (key b) k ≡ false = ap (same_text (key b)) (sym first) ∙ other in
        rw (e, second) refl
    | inr e ↦ rw e refl
  ]

  pub lookup-Permᴰ :
      (k : Text) {xs ys : List FsEntry}
      → Permᴰ xs ys
      → Distinct key xs
      → lookup key k xs ≡ lookup key k ys
  lookup-Permᴰ k Permᴰ.nil d = refl
  lookup-Permᴰ k (Permᴰ.cons e h) d = let rest = lookup-Permᴰ k h d.1 in rw (e, rest) refl
  lookup-Permᴰ k (Permᴰ.swap {a = a} {b = b} {l = l} e e') d =
      lookup_swap k a b l (or_left _ _ d.0) ∙ rw (e, e') refl
  lookup-Permᴰ k (Permᴰ.trans h h') d = lookup-Permᴰ k h d ∙ lookup-Permᴰ k h' (Permᴰ-Distinct h d)

  -- A patch of a map, and the map of the patched rows.
  abbrev pub patched : List Text → List FsEntry → (Text → Option FsEntry) → Text → Option FsEntry
  patched removes upserts view k =
      or_entry (lookup key k upserts) (if has_text k removes then none else view k)

  rows_patched :
      (rows : List FsEntry) (removes : List Text) (upserts : List FsEntry) (k : Text)
      → lookup key k (
          keep
            (λ e. not (has_text (key e) removes) && not (has_text (key e) (keys_of key upserts)))
            rows
          ++ upserts)
        ≡ patched removes upserts (λ t. lookup key t rows) k
  rows_patched rows removes upserts k =
      let q : Text → Bool =
        λ t. not (has_text t removes) && not (has_text t (keys_of key upserts)) in
      lookup-append key k (keep (λ e. q (key e)) rows) upserts
      ∙ (ap (λ o. or_entry o (lookup key k upserts)) (lookup-keep key q k rows)
          ∙ merge (has_text k removes) (has_text k (keys_of key upserts)) (lookup key k rows)
              (lookup key k upserts) (lookup-present key k upserts) (lookup-absent key k upserts))

  -- The rows that a patch leaves, before they are sorted, have distinct keys.
  rows_patched-Distinct :
      (rows : List FsEntry) (removes : List Text) (upserts : List FsEntry)
      → Distinct key rows
      → Distinct key upserts
      → Distinct key (
          keep
            (λ e. not (has_text (key e) removes) && not (has_text (key e) (keys_of key upserts)))
            rows
          ++ upserts)
  rows_patched-Distinct rows removes upserts d d' =
      append-Distinct key (λ t. not (has_text t removes) && not (has_text t (keys_of key upserts)))
        rows upserts d d' (λ t h. ground arith)

  -- What an event brings has distinct keys, and what it makes of a map.
  abbrev pub WellKeyed : {Reason : Type 0} → TableEvent Reason → Type 0
  WellKeyed (snapshot rows) = Distinct key rows
  WellKeyed (patch removes upserts) = Distinct key upserts
  WellKeyed (closed reason) = Unit

  abbrev pub map_event :
      {Reason : Type 0} → TableEvent Reason → (Text → Option FsEntry) → Text → Option FsEntry
  map_event (snapshot rows) view k = lookup key k rows
  map_event (patch removes upserts) view k = patched removes upserts view k
  map_event (closed reason) view k = view k

-- The documented behaviour of `sort` that the rows rely on: it permutes them.
pub record Sorts (i : Intl) : Type 0 where
  pub sort-Permᴰ : (f : FsEntry → FsEntry → ℤ) (es : List FsEntry) → Permᴰ es (i.sort f es)

module _ (i : Intl) (sorts : Sorts i) where
  -- When `sort` permutes its rows, then an event that brings rows with distinct paths takes the roots'
  -- rows with distinct paths to such rows, and these, read as a map from paths to entries, are
  -- what the event makes of the map of the rows before: a snapshot replaces it, a patch removes
  -- the removed paths and then sets the upserted ones, and a closing keeps it.
  pub apply_roots_event-Refines :
      (event : TableEvent RootsSubscriptionCloseReason) (t : Table i) (k : Text)
      → Distinct (λ e. e.path) t.rows
      → WellKeyed (λ e. e.path) event
      → Distinct (λ e. e.path) (apply_roots_event i event t).rows
        × (lookup (λ e. e.path) k (apply_roots_event i event t).rows
            ≡ map_event (λ e. e.path) event (λ k. lookup (λ e. e.path) k t.rows) k)
  unfolding apply_roots_event apply_entry_patch sort_entries
  apply_roots_event-Refines (snapshot rows) t k d w = (w, refl)
  apply_roots_event-Refines (patch removes upserts) t k d w =
      let unsorted = rows_patched-Distinct (λ e. e.path) t.rows removes upserts d w in
      let permuted = sorts.sort-Permᴰ (compare_entries i) _ in
      (
        Permᴰ-Distinct (λ e. e.path) permuted unsorted,
        sym (lookup-Permᴰ (λ e. e.path) k permuted unsorted)
            ∙ rows_patched (λ e. e.path) t.rows removes upserts k,
      )
  apply_roots_event-Refines (closed reason) t k d w = (d, refl)

  keep-keep :
      (q r : FsEntry → Bool) (es : List FsEntry) → keep r (keep q es) ≡ keep (λ e. q e && r e) es
  keep-keep q r [] = refl
  keep-keep q r (e ∷ es) =
      let rest = keep-keep q r es in
      elim (Bool-cases (q e)) [
        | inl h ↦ elim (Bool-cases (r e)) [
          | inl h' ↦ rw (h, h', rest) refl
          | inr h' ↦ rw (h, h', rest) refl
        ]
        | inr h ↦ rw (h, rest) refl
      ]

  -- What an event of a directory makes of the map of its rows, at a location with a directory's path or none.
  abbrev pub directory_map :
      TableEvent DirectorySubscriptionCloseReason
      → Option Text
      → (Text → Option FsEntry)
      → Text
      → Option FsEntry
  directory_map (snapshot rows) path view k = lookup (λ e. e.name) k rows
  directory_map (patch removes upserts) path view k = patched (λ e. e.name) removes upserts view k
  directory_map (closed (directory_moved to)) path view k =
      if same_text (text_or_empty to) (text_or_empty path) then view k else none
  directory_map (closed reason) path view k = view k

  location-path :
      (to : Option Text)
      → text_or_empty (directory_path_from_location (location_from_path to)) ≡ text_or_empty to
  unfolding directory_path_from_location location_from_path
  location-path none = refl
  location-path (some []) = refl
  location-path (some (u ∷ us)) = refl

  moved-Refines :
      (paired : Bool) (to : Option Text) (t : Table i) (n : Navigation) (k : Text)
      → Distinct (λ e. e.name) t.rows
      → Distinct (λ e. e.name) (moved_directory i paired to (t, n)).0.rows
        × (lookup (λ e. e.name) k (moved_directory i paired to (t, n)).0.rows
            ≡ directory_map
                (closed (directory_moved to))
                (directory_path_from_location n.location)
                (λ k. lookup (λ e. e.name) k t.rows)
                k)
  unfolding moved_directory start_directory replace_with_moved_directory
  moved-Refines paired to t n k d =
      let there = location-path to in
      elim (Bool-cases
        (same_text (text_or_empty to) (text_or_empty (directory_path_from_location n.location)))) [
          | inl e ↦ rw (there, e) (d, refl)
          | inr e ↦ rw (there, e) (tt, refl)
        ]

  -- When `sort` permutes its rows, then an event that brings rows with distinct names takes a directory's
  -- rows with distinct names to such rows, and these, read as a map from names to entries, are what
  -- the event makes of the map of the rows before: a snapshot replaces it, a patch removes the
  -- removed names and then sets the upserted ones, a closing because the directory was moved to another
  -- path than the shown one empties it, and another closing keeps it.
  pub directory_event-Refines :
      (paired : Bool) (event : TableEvent DirectorySubscriptionCloseReason) (t : Table i)
      (n : Navigation) (k : Text)
      → Distinct (λ e. e.name) t.rows
      → WellKeyed (λ e. e.name) event
      → Distinct (λ e. e.name) (directory_event i paired event (t, n)).0.rows
        × (lookup (λ e. e.name) k (directory_event i paired event (t, n)).0.rows
            ≡ directory_map event
                (directory_path_from_location n.location)
                (λ k. lookup (λ e. e.name) k t.rows)
                k)
  unfolding directory_event apply_directory_event apply_directory_patch sort_entries
  directory_event-Refines paired (snapshot rows) t n k d w = (w, refl)
  directory_event-Refines paired (patch removes upserts) t n k d w =
      let twice =
        keep-keep (λ e. not (has_text e.name removes))
          (λ e. not (has_text e.name (keys_of (λ e. e.name) upserts))) t.rows in
      let unsorted = rows_patched-Distinct (λ e. e.name) t.rows removes upserts d w in
      let permuted = sorts.sort-Permᴰ (compare_entries i) _ in
      rw twice (
        Permᴰ-Distinct (λ e. e.name) permuted unsorted,
        sym (lookup-Permᴰ (λ e. e.name) k permuted unsorted)
            ∙ rows_patched (λ e. e.name) t.rows removes upserts k,
      )
  directory_event-Refines paired (closed (directory_moved to)) t n k d w =
      moved-Refines paired to t n k d
  directory_event-Refines paired (closed directory_failed) t n k d w = (d, refl)
  directory_event-Refines paired (closed directory_deleted) t n k d w = (d, refl)
  directory_event-Refines paired (closed directory_permission_lost) t n k d w = (d, refl)
  directory_event-Refines paired (closed directory_replaced_by_non_directory) t n k d w = (d, refl)
  directory_event-Refines paired (closed directory_unknown) t n k d w = (d, refl)
