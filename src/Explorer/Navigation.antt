-- ===== src/Explorer/Navigation.antt =====
-- web/src/state/explorer.ts, lines 25-38, 101-188 and 561-594: locations and the way back.
use whats_going_on.Prelude.{
  Bool, true, false, Option, none, some, List, [], ◌∷◌, ◌++◌, if◌then◌else◌,
}
use whats_going_on.Wire.Message.{Text}
use whats_going_on.Explorer.Model.{same_optional_text, FsEntry, FsEntryKind, directory_kind}
use whats_going_on.Explorer.Paths.{parent_path}

-- "wgo://trash".
abbrev pub trash_location_path : Text
trash_location_path = 119 ∷ 103 ∷ 111 ∷ 58 ∷ 47 ∷ 47 ∷ 116 ∷ 114 ∷ 97 ∷ 115 ∷ 104 ∷ []

pub data ExplorerLocation : Type 0 where
  root trash : ExplorerLocation
  directory : Text → ExplorerLocation
  file : Option Text → FsEntry → ExplorerLocation

-- `ExplorerNavigationState`, with the selected path beside it.
pub record Navigation : Type 0 where
  pub history : List ExplorerLocation
  pub location : ExplorerLocation
  pub selected_path : Option Text

unfoldable pub location_from_path : Option Text → ExplorerLocation
location_from_path none = root
location_from_path (some []) = root
location_from_path (some (u ∷ us)) = directory (u ∷ us)

unfoldable pub current_path_from_location : ExplorerLocation → Option Text
current_path_from_location (directory path) = some path
current_path_from_location (file directory_path entry) = directory_path
current_path_from_location root = none
current_path_from_location trash = none

unfoldable pub directory_path_from_location : ExplorerLocation → Option Text
directory_path_from_location (directory path) = some path
directory_path_from_location (file directory_path entry) = directory_path
directory_path_from_location root = none
directory_path_from_location trash = none

unfoldable pub display_path_from_location : ExplorerLocation → Option Text
display_path_from_location root = none
display_path_from_location (directory path) = some path
display_path_from_location (file directory_path entry) = some entry.path
display_path_from_location trash = some trash_location_path

unfoldable pub select_entry : FsEntry → Navigation → Navigation
select_entry entry n = record n { selected_path = some entry.path }

unfoldable pub navigate_to : ExplorerLocation → Navigation → Navigation
navigate_to location n = record n {
  history = n.history ++ (n.location ∷ []);
  location = location;
  selected_path = none;
}

unfoldable pub navigate_trash : Navigation → Navigation
unfolding navigate_to
navigate_trash n = navigate_to trash n

unfoldable pub navigate : Option Text → Navigation → Navigation
unfolding navigate_trash navigate_to location_from_path
navigate path n =
    if same_optional_text path (some trash_location_path)
    then navigate_trash n
    else navigate_to (location_from_path path) n

unfoldable pub replace_with_location : ExplorerLocation → Navigation → Navigation
replace_with_location location n = record n { location = location; selected_path = none }

unfoldable pub replace_with_trash : Navigation → Navigation
unfolding replace_with_location
replace_with_trash n = replace_with_location trash n

unfoldable pub replace_with_path : Option Text → Navigation → Navigation
unfolding replace_with_location location_from_path
replace_with_path path n = replace_with_location (location_from_path path) n

unfoldable pub replace_with_moved_directory : Option Text → Navigation → Navigation
unfolding location_from_path
replace_with_moved_directory path n = record {
  history = [];
  location = location_from_path path;
  selected_path = none;
}

-- The last location of a history, and those in front of it.
abbrev pub split_last : List ExplorerLocation → Option (List ExplorerLocation × ExplorerLocation)
split_last [] = none
split_last (l ∷ ls) = elim (split_last ls) [
  | none ↦ some ([], l)
  | some (before, last) ↦ some (l ∷ before, last)
]

abbrev pub selected_at : ExplorerLocation → Option Text
selected_at (file directory_path entry) = some entry.path
selected_at _ = none

unfoldable pub go_back : Navigation → Navigation
go_back n = elim (split_last n.history) [
  | none ↦ n
  | some (before, last) ↦ record {
    history = before;
    location = last;
    selected_path = selected_at last;
  }
]

unfoldable pub go_up : Navigation → Navigation
unfolding navigate parent_path
go_up n = elim n.location [
  | root ↦ n
  | trash ↦ n
  | file directory_path entry ↦ navigate directory_path n
  | directory path ↦ navigate (parent_path path) n
]

abbrev pub is_directory : FsEntryKind → Bool
is_directory directory_kind = true
is_directory _ = false

unfoldable pub open_entry : FsEntry → Navigation → Navigation
unfolding navigate
open_entry entry n =
    if is_directory entry.kind
    then navigate (some entry.path) n
    else record n { selected_path = some entry.path }

unfoldable pub open_file : FsEntry → Navigation → Navigation
unfolding navigate_to directory_path_from_location
open_file entry n = record (navigate_to (file (directory_path_from_location n.location) entry) n) {
  selected_path = some entry.path;
}
