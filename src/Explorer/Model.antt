-- ===== src/Explorer/Model.antt =====
-- web/src/state/explorer.ts, web/src/state/types.ts and web/src/protocol/generated/rpc.ts: the data of
-- the file explorer. A text is a list of UTF-16 code units.
use Prim.Native.String.{String}
use whats_going_on.Prelude.{ℕ, Bool, true, false, ◌&&◌, Option, none, some, List, [], ◌∷◌, ◌==◌}
use whats_going_on.Prelude.Int.{ℤ}
use whats_going_on.Wire.Message.{Text}

-- Equality of texts.
abbrev pub same_text : Text → Text → Bool
same_text [] [] = true
same_text [] (v ∷ vs) = false
same_text (u ∷ us) [] = false
same_text (u ∷ us) (v ∷ vs) = (u == v) && same_text us vs

abbrev pub same_optional_text : Option Text → Option Text → Bool
same_optional_text none none = true
same_optional_text (some s) (some t) = same_text s t
same_optional_text _ _ = false

-- `FsEntryKind`.
pub data FsEntryKind : Type 0 where
  file_kind directory_kind symlink_kind other_kind : FsEntryKind

-- `FsEntry`.
pub record FsEntry : Type 0 where
  pub name : Text
  pub path : Text
  pub kind : FsEntryKind
  pub size : Option ℕ
  pub modified_at_ms : Option ℕ
  pub readonly : Bool

pub data RootsSubscriptionCloseReason : Type 0 where
  roots_failed roots_permission_lost roots_unknown : RootsSubscriptionCloseReason

pub data DirectorySubscriptionCloseReason : Type 0 where
  directory_failed directory_deleted : DirectorySubscriptionCloseReason
  directory_moved : Option Text → DirectorySubscriptionCloseReason
  directory_permission_lost : DirectorySubscriptionCloseReason
  directory_replaced_by_non_directory directory_unknown : DirectorySubscriptionCloseReason

-- The events of a subscribed table; a removed row is given by its key.
pub data TableEvent (Reason : Type 0) : Type 0 where
  snapshot : List FsEntry → TableEvent Reason
  patch : List Text → List FsEntry → TableEvent Reason
  closed : Reason → TableEvent Reason

-- `StreamState`: its phase and its message, a message on closing with its reason.
pub data StreamPhase : Type 0 where
  idle connecting live closed_phase error_phase : StreamPhase

pub data StreamMessage : Type 0 where
  plain : String → StreamMessage
  with_reason : String → String → StreamMessage

pub record StreamState : Type 0 where
  pub phase : StreamPhase
  pub message : StreamMessage

-- What sorting the entries calls: `String.prototype.trim`, `localeCompare` with the options of the
-- source, and `Array.prototype.sort`.
pub record Intl : Type 0 where
  pub trim : Text → Text
  pub locale_compare : Text → Text → ℤ
  pub sort : (FsEntry → FsEntry → ℤ) → List FsEntry → List FsEntry
