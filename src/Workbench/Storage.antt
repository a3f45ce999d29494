-- ===== src/Workbench/Storage.antt =====
-- What a new tab copies in `localStorage`: `copyTabState` of web/src/state/workbench.ts,
-- `copyExplorerNavigationState` of web/src/state/explorer.ts and `copyFileViewerState` of
-- web/src/state/file-viewer.ts. The storage is available, so no `catch` is taken.
use Prim.Native.String.{String, ◌++◌ as concat, slice, len}
use mathlib.Core.Bool.{◌&&◌}
use text.Mathlib.Text.{starts_with}
use whats_going_on.Prelude.{true, false, Option, none, some, List, [], ◌∷◌, if◌then◌else◌}
use whats_going_on.Workbench.Model.{same, same_tool, files, WorkbenchTab}
use whats_going_on.Workbench.Tabs.{or_else}

-- `localStorage`: its items, each key once.
abbrev pub Storage : Type 0
Storage = List (String × String)

unfoldable pub get_item : String → Storage → Option String
get_item key [] = none
get_item key ((k, v) ∷ rest) = elim (same k key) [ true ↦ some v | false ↦ get_item key rest ]

unfoldable pub set_item : String → String → Storage → Storage
set_item key value [] = (key, value) ∷ []
set_item key value ((k, v) ∷ rest) = elim (same k key) [
  | true ↦ (k, value) ∷ rest
  | false ↦ (k, v) ∷ set_item key value rest
]

unfoldable pub remove_item : String → Storage → Storage
remove_item key [] = []
remove_item key ((k, v) ∷ rest) = elim (same k key) [
  | true ↦ remove_item key rest
  | false ↦ (k, v) ∷ remove_item key rest
]

abbrev pub explorer_navigation_storage_key : Option String → String → String
explorer_navigation_storage_key machine_id pane_scope_id =
    concat "wgo.explorer.navigation."
      (concat (or_else machine_id "none") (concat "." (concat pane_scope_id ".v2")))

unfoldable pub copy_explorer_navigation_state : Option String → String → String → Storage → Storage
unfolding get_item set_item remove_item
copy_explorer_navigation_state machine_id source target storage =
    let target_key = explorer_navigation_storage_key machine_id target in
    elim (get_item (explorer_navigation_storage_key machine_id source) storage) [
      | none ↦ remove_item target_key storage
      | some value ↦ set_item target_key value storage
    ]

abbrev pub file_viewer_prefix : Option String → String → String
file_viewer_prefix machine_id tab_id =
    concat "wgo.file-viewer.impl."
      (concat (or_else machine_id "none") (concat "." (concat tab_id ".")))

-- One round of the loop over the keys that were there before it.
unfoldable pub copy_file_viewer_key : String → String → Storage → String → Storage
unfolding get_item set_item remove_item
copy_file_viewer_key source_prefix target_prefix storage key =
    let target_key = concat target_prefix (slice key (len source_prefix) (len key)) in
    if starts_with key source_prefix
    then elim (get_item key storage) [
      | none ↦ remove_item target_key storage
      | some value ↦ set_item target_key value storage
    ]
    else storage

unfoldable pub copy_file_viewer_keys : String → String → Storage → Storage → Storage
unfolding copy_file_viewer_key
copy_file_viewer_keys source_prefix target_prefix [] storage = storage
copy_file_viewer_keys source_prefix target_prefix ((key, v) ∷ rest) storage =
    copy_file_viewer_keys source_prefix target_prefix rest
      (copy_file_viewer_key source_prefix target_prefix storage key)

unfoldable pub copy_file_viewer_state : Option String → String → String → Storage → Storage
unfolding copy_file_viewer_keys
copy_file_viewer_state machine_id source target storage =
    copy_file_viewer_keys (file_viewer_prefix machine_id source)
      (file_viewer_prefix machine_id target) storage storage

unfoldable pub copy_tab_state : Option String → WorkbenchTab → WorkbenchTab → Storage → Storage
unfolding copy_explorer_navigation_state copy_file_viewer_state
copy_tab_state machine_id source target storage =
    if same_tool source.tool files && same_tool target.tool files
    then copy_file_viewer_state machine_id source.id target.id
        (copy_explorer_navigation_state machine_id source.id target.id storage)
    else storage
