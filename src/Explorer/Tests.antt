-- ===== src/Explorer/Tests.antt =====
-- The theorems on the file explorer at concrete inputs.
use mathlib.Core.List.{Permᴰ}
use whats_going_on.Prelude.{
  ℕ, ◌-◌, ◌≤◌, ◌≡◌, refl, inl, inr, Bool, true, false, none, some, List, [], ◌∷◌, length, ltb,
  if◌then◌else◌, arith, Bool-cases,
}
use whats_going_on.Prelude.Int.{ℤ, pos, negsuc}
use whats_going_on.Wire.Message.{Text}
use whats_going_on.Explorer.Model.{
  FsEntry, file_kind, RootsSubscriptionCloseReason, DirectorySubscriptionCloseReason, TableEvent,
  patch, closed, directory_moved, live, plain, Intl,
}
use whats_going_on.Explorer.Paths.{strip_separators, parent_path}
use whats_going_on.Explorer.Navigation.{root, directory, Navigation, directory_path_from_location}
use whats_going_on.Explorer.Rows.{Table, apply_roots_event, directory_event}
use whats_going_on.Explorer.View.{lookup, Distinct}
use whats_going_on.Explorer.Refines.{
  map_event, Sorts, apply_roots_event-Refines, directory_event-Refines,
}
use whats_going_on.Explorer.Back.{
  Move, to_path, to_file, up, moves, backs, SamePlace, ups, AtTop, backs-moves, ups-AtTop,
}

-- An insertion sort, and texts compared by their lengths.
abbrev is_negative : ℤ → Bool
is_negative (pos n) = false
is_negative (negsuc n) = true

abbrev insert : (FsEntry → FsEntry → ℤ) → FsEntry → List FsEntry → List FsEntry
insert f e [] = e ∷ []
insert f e (x ∷ xs) =
    let rest = insert f e xs in if is_negative (f x e) then x ∷ rest else e ∷ x ∷ xs

abbrev insertion_sort : (FsEntry → FsEntry → ℤ) → List FsEntry → List FsEntry
insertion_sort f [] = []
insertion_sort f (x ∷ xs) = insert f x (insertion_sort f xs)

abbrev by_length : Text → Text → ℤ
by_length s t =
    if ltb (length s) (length t)
    then negsuc (length t - length s - 1)
    else pos (length s - length t)

abbrev intl : Intl
intl = record { trim = λ s. s; locale_compare = by_length; sort = insertion_sort }

Permᴰ_refl : (xs : List FsEntry) → Permᴰ xs xs
Permᴰ_refl [] = Permᴰ.nil
Permᴰ_refl (x ∷ xs) = Permᴰ.cons refl (Permᴰ_refl xs)

insert-Permᴰ :
    (f : FsEntry → FsEntry → ℤ) (e : FsEntry) (xs : List FsEntry) → Permᴰ (e ∷ xs) (insert f e xs)
insert-Permᴰ f e [] = Permᴰ_refl (e ∷ [])
insert-Permᴰ f e (x ∷ xs) =
    let rest = insert-Permᴰ f e xs in
    elim (Bool-cases (is_negative (f x e))) [
      | inl h ↦ rw h (Permᴰ.trans (Permᴰ.swap refl refl) (Permᴰ.cons refl rest))
      | inr h ↦ rw h (Permᴰ_refl (e ∷ x ∷ xs))
    ]

sort-Permᴰ : (f : FsEntry → FsEntry → ℤ) (xs : List FsEntry) → Permᴰ xs (insertion_sort f xs)
sort-Permᴰ f [] = Permᴰ.nil
sort-Permᴰ f (x ∷ xs) =
    Permᴰ.trans (Permᴰ.cons refl (sort-Permᴰ f xs)) (insert-Permᴰ f x (insertion_sort f xs))

intl-Sorts : Sorts intl
intl-Sorts = record { sort-Permᴰ = sort-Permᴰ }

abbrev entry : ℕ → FsEntry
entry n = record {
  name = n ∷ [];
  path = 47 ∷ n ∷ [];
  kind = file_kind;
  size = none;
  modified_at_ms = none;
  readonly = false;
}

abbrev table : Table intl
table = record {
  rows = entry 97 ∷ entry 98 ∷ [];
  stream = record { phase = live; message = plain "Roots live" };
}

abbrev roots_patch : TableEvent RootsSubscriptionCloseReason
roots_patch = patch ((47 ∷ 97 ∷ []) ∷ []) (entry 98 ∷ entry 99 ∷ [])

abbrev start : Navigation
start = record { history = []; location = root; selected_path = none }

apply_roots_event-Refines_example :
    Distinct (λ e. e.path) (apply_roots_event intl roots_patch table).rows
    × (lookup (λ e. e.path) (47 ∷ 98 ∷ []) (apply_roots_event intl roots_patch table).rows
        ≡ map_event
            (λ e. e.path)
            roots_patch
            (λ k. lookup (λ e. e.path) k table.rows)
            (47 ∷ 98 ∷ []))
apply_roots_event-Refines_example =
    apply_roots_event-Refines intl intl-Sorts roots_patch table (47 ∷ 98 ∷ []) (refl, (refl, tt))
      (refl, (refl, tt))

-- The shown directory "/h" is moved to "/g".
abbrev shown : Navigation
shown = record { history = []; location = directory (47 ∷ 104 ∷ []); selected_path = none }

abbrev directory_closing : TableEvent DirectorySubscriptionCloseReason
directory_closing = closed (directory_moved (some (47 ∷ 103 ∷ [])))

directory_event-Refines_example :
    Distinct (λ e. e.name) (directory_event intl true directory_closing (table, shown)).0.rows
    × (lookup
          (λ e. e.name)
          (97 ∷ [])
          (directory_event intl true directory_closing (table, shown)).0.rows
        ≡ none)
unfolding directory_path_from_location
directory_event-Refines_example =
    directory_event-Refines intl intl-Sorts true directory_closing table shown (97 ∷ [])
      (refl, (refl, tt)) tt

-- "/home/a" and the file "b" opened there, then up.
abbrev walk : List Move
walk = to_path (some (47 ∷ 104 ∷ 47 ∷ 97 ∷ [])) ∷ to_file (entry 98) ∷ up ∷ []

backs-moves_example : (k : ℕ) × (k ≤ 3) × SamePlace (backs k (moves walk start)) start
backs-moves_example = backs-moves walk start

abbrev deep : Navigation
deep = record { history = []; location = directory (47 ∷ 104 ∷ 47 ∷ 97 ∷ []); selected_path = none }

ups-AtTop_example : AtTop (ups 3 deep).location
unfolding strip_separators
ups-AtTop_example = ups-AtTop 3 deep (omega arith)

-- Runs of `parentPath`: "/h/a/" has the parent "/h", "C:\x" the parent "C:\", and "/" none.
parent_of_directory : parent_path (47 ∷ 104 ∷ 47 ∷ 97 ∷ 47 ∷ []) ≡ some (47 ∷ 104 ∷ [])
unfolding parent_path
parent_of_directory = refl

parent_on_drive : parent_path (67 ∷ 58 ∷ 92 ∷ 120 ∷ []) ≡ some (67 ∷ 58 ∷ 92 ∷ [])
unfolding parent_path
parent_on_drive = refl

parent_of_root : parent_path (47 ∷ []) ≡ none
unfolding parent_path
parent_of_root = refl
