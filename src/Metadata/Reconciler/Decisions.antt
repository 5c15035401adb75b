-- ===== src/Metadata/Reconciler/Decisions.antt =====
-- When reconciliation replaces, deletes, branches or leaves a local file.
use t_u_s_h_e_r.Base.{
  ◌≤◌, ◌<◌, ◌≡◌, ◌≢◌, ◌⊎◌, ◌↔◌, Bool, true, false, ◌&&◌, some, length, ltb, arith, if◌then◌else◌,
  ◌==◌, nat_eq, bytes_eq, ok, panic,
}
use t_u_s_h_e_r.Base.Int
use t_u_s_h_e_r.Base.Int.{ℤ}
use t_u_s_h_e_r.Base.Text.{Text, slice_to, is_char_boundary}
use t_u_s_h_e_r.Core.Types.{NodeId}
use t_u_s_h_e_r.Core.Protocol.{SyncEvent, upsert, delete, sync_event_type_eq}
use t_u_s_h_e_r.Metadata.Models.{
  FileRecord, ReconciliationAction, download_needed, delete_local, conflict, ignore,
}
use t_u_s_h_e_r.Metadata.Reconciler.{generate_conflict_path, reconcile_with, download}

-- A change that follows the local version: a higher version, from the same origin or with a later
-- time stamp.
abbrev pub FastForward : FileRecord → SyncEvent → Type 0
FastForward local event =
    (local.version < event.version)
    × ((event.origin_node_id ≡ local.origin_node_id)
        ⊎ (Int.ltb local.modified_at event.modified_at ≡ true))

-- The action takes the local content away.
abbrev pub replaces_local : ReconciliationAction → Bool
replaces_local (download_needed _ _ _ _ _ _ _) = true
replaces_local (delete_local _ _ _ _) = true
replaces_local action = false

module _ (format_time : ℤ → Text) where
  -- An active local file is only replaced by an upsert with other content and a higher version that
  -- is from the same origin or has a later time stamp, and only deleted by a deletion of at least
  -- its version. A higher version alone, from another origin and not later, does not replace it.
  pub reconcile_with_safe :
      (local : FileRecord) (event : SyncEvent) {action : ReconciliationAction}
      → local.is_deleted ≡ false
      → reconcile_with format_time (some local) event ≡ ok action
      → replaces_local action ≡ true
      → ((event.event_type ≡ upsert)
          × (local.content_hash ≢ event.content_hash)
          × FastForward local event)
        ⊎ ((event.event_type ≡ delete) × (local.version ≤ event.version))
  unfolding reconcile_with
  reconcile_with_safe local event active e r = ground arith

  -- An upsert with other content that is no fast-forward of an active local file never replaces it:
  -- the file is kept, and the remote content goes to the conflict path.
  pub reconcile_with_conflict :
      (local : FileRecord) (event : SyncEvent) (path : Text)
      → local.is_deleted ≡ false
      → event.event_type ≡ upsert
      → local.content_hash ≢ event.content_hash
      → ¬ FastForward local event
      → generate_conflict_path format_time event.relative_path event.origin_node_id
          event.modified_at
        ≡ ok path
      → reconcile_with format_time (some local) event
        ≡ ok (
            conflict event.folder_id event.file_id event.relative_path path event.size_bytes
              event.content_hash event.version event.origin_node_id)
  unfolding reconcile_with
  reconcile_with_conflict local event path active kind differ not_ff named = ground arith

  -- A tombstone is only undone by an upsert of a higher version.
  pub reconcile_with_tombstone :
      (local : FileRecord) (event : SyncEvent)
      → local.is_deleted ≡ true
      → reconcile_with format_time (some local) event ≡ (
          if event.event_type == upsert && ltb local.version event.version
          then ok (download event)
          else ok ignore)
  unfolding reconcile_with
  reconcile_with_tombstone local event gone = ground arith

  -- An event of an older or equal version is never taken for history: if an active file has other
  -- content, the event counts as a conflict, even if both versions come from one node.
  pub reconcile_with_stale :
      (local : FileRecord) (event : SyncEvent) (path : Text)
      → local.is_deleted ≡ false
      → event.event_type ≡ upsert
      → local.content_hash ≢ event.content_hash
      → event.version ≤ local.version
      → generate_conflict_path format_time event.relative_path event.origin_node_id
          event.modified_at
        ≡ ok path
      → reconcile_with format_time (some local) event
        ≡ ok (
            conflict event.folder_id event.file_id event.relative_path path event.size_bytes
              event.content_hash event.version event.origin_node_id)
  reconcile_with_stale local event path active kind differ old named =
      reconcile_with_conflict local event path active kind differ (λ ff. omega arith) named

  -- Naming a conflict copy panics exactly when the origin is longer than eight bytes and its ninth
  -- byte continues a character.
  pub generate_conflict_path_panics :
      (relative_path : Text) (origin_node : NodeId) (modified_at : ℤ)
      → (generate_conflict_path format_time relative_path origin_node modified_at ≡ panic)
        ↔ ((8 < length origin_node) × (is_char_boundary origin_node 8 ≡ false))
  unfolding generate_conflict_path slice_to
  generate_conflict_path_panics relative_path origin_node modified_at =
      (λ e. ground arith, λ h. ground arith)
