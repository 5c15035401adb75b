-- ===== src/Metadata/Reconciler.antt =====
-- crates/tusher-metadata/src/reconciler.rs. The text that chrono makes of a time stamp is a
-- parameter.
pub mod Decisions
pub mod Names
use t_u_s_h_e_r.Base.{
  ℕ, ◌≡◌, Bool, true, false, not, ◌&&◌, Option, none, some, List, [], ◌∷◌, ◌++◌, length, ltb, leb,
  if◌then◌else◌, ◌==◌, ◌!=◌, nat_eq, bytes_eq, Outcome, ok, err, panic, ◌>>=◌, ◌>>◌,
}
use Prim.Native.Nat.{max}
use t_u_s_h_e_r.Base.Int
use t_u_s_h_e_r.Base.Int.{ℤ}
use t_u_s_h_e_r.Base.Text.{Text, ascii, slash, backslash, dot, replace, slice_to}
use t_u_s_h_e_r.Base.FilePath.{parent, file_stem, extension}
use t_u_s_h_e_r.Core.Types.{NodeId}
use t_u_s_h_e_r.Core.Protocol.{SyncEvent, SyncEventType, upsert, delete, sync_event_type_eq}
use t_u_s_h_e_r.Metadata.Models.{
  FileRecord, ReconciliationAction, up_to_date, download_needed, delete_local, conflict, ignore,
}
use t_u_s_h_e_r.Metadata.Tables.{MetadataDb, DbError}
use t_u_s_h_e_r.Metadata.Db.{Rusqlite, get_file}

abbrev pub unwrap_or : Option Text → Text → Text
unwrap_or none d = d
unwrap_or (some t) d = t

-- The file name of a conflict copy.
abbrev pub conflict_name : Text → Text → Text → Option Text → Text
conflict_name stem node_short time_str none =
    stem ++ (ascii " (Conflict - " ++ (node_short ++ (ascii " " ++ (time_str ++ ascii ")"))))
conflict_name stem node_short time_str (some extension) =
    stem
    ++ (ascii " (Conflict - "
        ++ (node_short ++ (ascii " " ++ (time_str ++ (ascii ")." ++ extension)))))

-- `&origin_node[..8]`, for a longer one.
abbrev pub short_node : NodeId → Outcome DbError Text
short_node origin_node =
    if ltb 8 (length origin_node) then slice_to origin_node 8 else ok origin_node

-- The action that pulls the file of an event.
abbrev pub download : SyncEvent → ReconciliationAction
download event =
    download_needed event.folder_id event.file_id event.relative_path event.size_bytes
      event.content_hash event.version event.origin_node_id

module _ (format_time : ℤ → Text) where
  unfoldable pub generate_conflict_path : Text → NodeId → ℤ → Outcome DbError Text
  generate_conflict_path relative_path origin_node modified_at =
      let dir = unwrap_or (parent relative_path) [] in
      let stem = unwrap_or (file_stem relative_path) (ascii "file") in
      do
        node_short ← short_node origin_node
        let filename =
            conflict_name stem node_short (format_time modified_at) (extension relative_path)
        ok (if dir == [] then filename else replace backslash slash dir ++ (slash ∷ filename))

  -- Both sides have an active file, with different contents.
  unfoldable pub reconcile_upsert : FileRecord → SyncEvent → Outcome DbError ReconciliationAction
  reconcile_upsert local event =
      if ltb local.version event.version && event.origin_node_id == local.origin_node_id
      then ok (download event)
      else if ltb local.version event.version
          && local.origin_node_id != event.origin_node_id
          && Int.ltb local.modified_at event.modified_at
      then ok (download event)
      else do
        conflict_path ←
            generate_conflict_path event.relative_path event.origin_node_id event.modified_at
        ok (
            conflict event.folder_id event.file_id event.relative_path conflict_path
              event.size_bytes event.content_hash event.version event.origin_node_id)

  -- The match on what the catalog has for the path of the event.
  unfoldable pub reconcile_with :
      Option FileRecord → SyncEvent → Outcome DbError ReconciliationAction
  unfolding reconcile_upsert
  reconcile_with none event = elim event.event_type [
    | upsert ↦ ok (download event)
    | delete ↦ ok ignore
  ]
  reconcile_with (some local) event =
      if not local.is_deleted
        && event.event_type == upsert
        && local.content_hash == event.content_hash
      then ok (up_to_date local.file_id (max local.version event.version))
      else elim event.event_type [
        | delete ↦
            if local.is_deleted
            then ok ignore
            else if leb local.version event.version
            then ok (delete_local event.folder_id local.file_id event.relative_path event.version)
            else ok ignore
        | upsert ↦
            if local.is_deleted
            then if ltb local.version event.version then ok (download event) else ok ignore
            else reconcile_upsert local event
      ]

  unfoldable pub reconcile_event :
      Rusqlite → MetadataDb → SyncEvent → Outcome DbError ReconciliationAction
  unfolding reconcile_with
  reconcile_event driver db event = do
    local_file_opt ← get_file driver event.folder_id event.relative_path db
    reconcile_with local_file_opt event
