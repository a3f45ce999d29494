-- ===== src/Explorer/Rows.antt =====
-- web/src/state/explorer.ts, lines 596-704 and 752-754: the rows of a table and the events that change
-- them; lines 320-379, what a directory's subscription does when the directory is moved.
use Prim.Native.String.{String}
use whats_going_on.Prelude.{
  ℕ, ◌-◌, Bool, false, not, ◌&&◌, ◌||◌, Option, none, some, List, [], ◌∷◌, ◌++◌, ltb, ◌==◌,
  if◌then◌else◌,
}
use whats_going_on.Prelude.Int.{ℤ, pos, negsuc}
use whats_going_on.Wire.Message.{Text}
use whats_going_on.Explorer.Model.{
  same_text, FsEntryKind, file_kind, directory_kind, symlink_kind, other_kind, FsEntry,
  RootsSubscriptionCloseReason, roots_failed, roots_permission_lost, roots_unknown,
  DirectorySubscriptionCloseReason, directory_failed, directory_deleted, directory_moved,
  directory_permission_lost, directory_replaced_by_non_directory, directory_unknown, TableEvent,
  snapshot, patch, closed, idle, connecting, live, closed_phase, plain, with_reason, StreamState,
  Intl,
}
use whats_going_on.Explorer.Paths.{is_empty}
use whats_going_on.Explorer.Navigation.{
  Navigation, directory_path_from_location, replace_with_moved_directory,
}

unfoldable pub kind_rank : FsEntryKind → ℕ
kind_rank directory_kind = 0
kind_rank symlink_kind = 1
kind_rank file_kind = 2
kind_rank other_kind = 3

-- `a - b`.
abbrev pub difference : ℕ → ℕ → ℤ
difference a b = if ltb a b then negsuc (b - a - 1) else pos (a - b)

-- A set of texts, and the members that `filter` leaves.
abbrev pub has_text : Text → List Text → Bool
has_text t [] = false
has_text t (s ∷ ss) = same_text s t || has_text t ss

abbrev pub keys_of : (FsEntry → Text) → List FsEntry → List Text
keys_of key [] = []
keys_of key (e ∷ es) = key e ∷ keys_of key es

abbrev pub keep : (FsEntry → Bool) → List FsEntry → List FsEntry
keep test [] = []
keep test (e ∷ es) = let rest = keep test es in if test e then e ∷ rest else rest

-- `path ?? ""`.
abbrev pub text_or_empty : Option Text → Text
text_or_empty none = []
text_or_empty (some t) = t

module _ (i : Intl) where
  unfoldable pub display_name : FsEntry → Text
  display_name entry = elim (i.trim entry.name) [ [] ↦ entry.path | u ∷ us ↦ u ∷ us ]

  -- The comparison of `sortEntries`.
  unfoldable pub compare_entries : FsEntry → FsEntry → ℤ
  unfolding kind_rank display_name
  compare_entries left right =
      if kind_rank left.kind == kind_rank right.kind
      then i.locale_compare (display_name left) (display_name right)
      else difference (kind_rank left.kind) (kind_rank right.kind)

  unfoldable pub sort_entries : List FsEntry → List FsEntry
  unfolding compare_entries
  sort_entries entries = i.sort compare_entries entries

  -- `applyEntryPatch`; the events of directories go by the names, in two filters.
  unfoldable pub apply_entry_patch : List FsEntry → List Text → List FsEntry → List FsEntry
  unfolding sort_entries
  apply_entry_patch current removed upserts = sort_entries (
      keep
        (λ entry.
          not (has_text entry.path removed)
          && not (has_text entry.path (keys_of (λ e. e.path) upserts)))
        current
      ++ upserts)

  unfoldable pub apply_directory_patch : List FsEntry → List Text → List FsEntry → List FsEntry
  unfolding sort_entries
  apply_directory_patch current removed upserts =
      let remaining = keep (λ entry. not (has_text entry.name removed)) current in
      sort_entries (
        keep (λ entry. not (has_text entry.name (keys_of (λ e. e.name) upserts))) remaining
        ++ upserts)

  abbrev pub roots_reason_label : RootsSubscriptionCloseReason → String
  roots_reason_label roots_failed = "failed"
  roots_reason_label roots_permission_lost = "permissionLost"
  roots_reason_label roots_unknown = "unknown"

  abbrev pub directory_reason_label : DirectorySubscriptionCloseReason → String
  directory_reason_label directory_failed = "failed"
  directory_reason_label directory_deleted = "deleted"
  directory_reason_label (directory_moved to) = "moved"
  directory_reason_label directory_permission_lost = "permissionLost"
  directory_reason_label directory_replaced_by_non_directory = "replacedByNonDirectory"
  directory_reason_label directory_unknown = "unknown"

  -- The rows of a table and the state of its stream.
  pub record Table : Type 0 where
    pub rows : List FsEntry
    pub stream : StreamState

  unfoldable pub apply_roots_event : TableEvent RootsSubscriptionCloseReason → Table → Table
  unfolding apply_entry_patch
  apply_roots_event (snapshot rows) t = record {
    rows = rows;
    stream = record { phase = live; message = plain "Roots live" };
  }
  apply_roots_event (patch removes upserts) t = record {
    rows = apply_entry_patch t.rows removes upserts;
    stream = record { phase = live; message = plain "Roots updated" };
  }
  apply_roots_event (closed reason) t = record t {
    stream = record {
      phase = closed_phase;
      message = with_reason "Roots closed: " (roots_reason_label reason);
    };
  }

  -- What `start` of the directory's subscription sets before it waits for the transport; `paired` is whether
  -- there is a machine and it is paired.
  unfoldable pub start_directory : Bool → Table × Navigation → Table × Navigation
  unfolding directory_path_from_location
  start_directory paired (t, n) = (
    record {
      rows = [];
      stream =
          if paired && not (is_empty (text_or_empty (directory_path_from_location n.location)))
          then record { phase = connecting; message = plain "Opening directory" }
          else record { phase = idle; message = plain "Directory idle" };
    },
    record n { selected_path = none },
  )

  -- The callback `onMoved`: `replaceWithMovedDirectory`, upon which the subscription starts anew if
  -- this changes `directorySubscriptionKeyAtom`, of which it can change the directory's path.
  unfoldable pub moved_directory : Bool → Option Text → Table × Navigation → Table × Navigation
  unfolding start_directory directory_path_from_location replace_with_moved_directory
  moved_directory paired to (t, n) =
      let moved = replace_with_moved_directory to n in
      if same_text (text_or_empty (directory_path_from_location moved.location))
        (text_or_empty (directory_path_from_location n.location))
      then (t, moved)
      else start_directory paired (t, moved)

  -- `if (event.reason.type === "moved") onMoved(event.reason.to)`.
  abbrev pub on_reason :
      (Option Text → Table × Navigation → Table × Navigation)
      → DirectorySubscriptionCloseReason
      → Table × Navigation
      → Table × Navigation
  on_reason on_moved (directory_moved to) s = on_moved to s
  on_reason on_moved _ s = s

  unfoldable pub apply_directory_event :
      (Option Text → Table × Navigation → Table × Navigation)
      → TableEvent DirectorySubscriptionCloseReason
      → Table × Navigation
      → Table × Navigation
  unfolding apply_directory_patch
  apply_directory_event on_moved (snapshot rows) (t, n) = (
    record { rows = rows; stream = record { phase = live; message = plain "Directory live" } },
    n,
  )
  apply_directory_event on_moved (patch removes upserts) (t, n) = (
    record {
      rows = apply_directory_patch t.rows removes upserts;
      stream = record { phase = live; message = plain "Directory updated" };
    },
    n,
  )
  apply_directory_event on_moved (closed reason) s =
      let (t, n) = on_reason on_moved reason s in
      (
        record t {
          stream = record {
            phase = closed_phase;
            message = with_reason "Directory closed: " (directory_reason_label reason);
          };
        },
        n,
      )

  -- An event of the subscription, with the callback that the subscription passes on.
  unfoldable pub directory_event :
      Bool → TableEvent DirectorySubscriptionCloseReason → Table × Navigation → Table × Navigation
  unfolding apply_directory_event moved_directory
  directory_event paired event s = apply_directory_event (moved_directory paired) event s
