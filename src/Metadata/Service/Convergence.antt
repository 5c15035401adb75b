-- ===== src/Metadata/Service/Convergence.antt =====
-- Applying an action settles the event that asked for it.
use t_u_s_h_e_r.Base.{
  ℕ, ◌^◌, ◌<◌, ◌≡◌, refl, ◌≢◌, inr, false, Option, none, some, [], ◌++◌, arith, nat_eq, bytes_eq,
  ok, >>=-eq-ok,
}
use t_u_s_h_e_r.Base.Int.{ℤ}
use t_u_s_h_e_r.Base.Text.{Text, ascii}
use t_u_s_h_e_r.Core.Protocol.{SyncEvent, upsert, delete, sync_event_type_eq}
use t_u_s_h_e_r.Metadata.Models.{FileRecord, up_to_date, delete_local, conflict, ignore}
use t_u_s_h_e_r.Metadata.Tables.{MetadataDb}
use t_u_s_h_e_r.Metadata.Db.{Rusqlite, get_file, normalize_path, normalized}
use t_u_s_h_e_r.Metadata.Db.Lookup.{record_of}
use t_u_s_h_e_r.Metadata.Db.Changes.{OthersKept}
use t_u_s_h_e_r.Metadata.Db.Deletions.{deleted_record}
use t_u_s_h_e_r.Metadata.Db.Remote.{apply_remote_upsert_lem, apply_remote_delete_lem}
use t_u_s_h_e_r.Metadata.Reconciler.{reconcile_with, reconcile_event, download}
use t_u_s_h_e_r.Metadata.Service.{apply_reconciliation_action, action_event}

module _ (format_time : ℤ → Text) (driver : Rusqlite) (now : ℤ) (event : SyncEvent) where
  -- The catalog reads a file as the content, size, version and origin of an event.
  abbrev pub Holds : MetadataDb → Type 0
  Holds db =
      (rec : FileRecord) × (get_file driver event.folder_id event.relative_path db ≡ ok (some rec))
      × (rec.content_hash ≡ event.content_hash)
      × (rec.size_bytes ≡ event.size_bytes)
      × (rec.version ≡ event.version)
      × (rec.origin_node_id ≡ event.origin_node_id)
      × (rec.is_deleted ≡ false)

  -- Once the download that an upsert asks for is recorded, the catalog has the content, size,
  -- version and origin of the event under its path, and the same event is found to be up to date.
  -- The size and the version are below 2 ^ 63.
  pub reconcile_event-apply_download :
      (db : MetadataDb) {db' : MetadataDb}
      → event.event_type ≡ upsert
      → event.size_bytes < 2 ^ 63
      → event.version < 2 ^ 63
      → apply_reconciliation_action now (download event) db ≡ ok db'
      → Holds db'
        × (reconcile_event format_time driver db' event
            ≡ ok (up_to_date event.file_id event.version))
  unfolding apply_reconciliation_action reconcile_event
  reconcile_event-apply_download db {db'} kind hs hv e =
      let ev =
        action_event upsert event.folder_id event.file_id event.relative_path event.version
          event.size_bytes event.content_hash event.origin_node_id now in
      let (found, _, _) = apply_remote_upsert_lem driver now ev db e hs hv in
      ((record_of (normalized ev), found, refl, refl, refl, refl, refl), rw found (ground arith))

  reconcile_with-delete_local :
      (existing : Option FileRecord) (folder file path : Text) (version : ℕ)
      → reconcile_with format_time existing event ≡ ok (delete_local folder file path version)
      → (f : FileRecord) × (existing ≡ some f)
        × (folder ≡ event.folder_id)
        × (path ≡ event.relative_path)
        × (version ≡ event.version)
        × (event.event_type ≡ delete)
  unfolding reconcile_with
  reconcile_with-delete_local none folder file path version e = absurd (ground arith)
  reconcile_with-delete_local (some f) folder file path version e =
      (f, refl, ground arith, ground arith, ground arith, ground arith)

  -- Once the deletion that an event asks for is recorded, the file is read as deleted at the version
  -- of the event, and the same event is ignored.
  pub reconcile_event-apply_delete :
      (db : MetadataDb) {db' : MetadataDb} (folder file path : Text) (version : ℕ)
      → event.version < 2 ^ 63
      → reconcile_event format_time driver db event ≡ ok (delete_local folder file path version)
      → apply_reconciliation_action now (delete_local folder file path version) db ≡ ok db'
      → reconcile_event format_time driver db' event ≡ ok ignore
  unfolding apply_reconciliation_action reconcile_event
  reconcile_event-apply_delete db {db'} folder file path version hv asked e =
      let (existing, found, judged) =
        >>=-eq-ok (get_file driver event.folder_id event.relative_path db) _ asked in
      let (f, is_f, same_folder, same_path, same_version, kind) =
        reconcile_with-delete_local existing folder file path version judged in
      let (after, _, _) =
        apply_remote_delete_lem driver now
          (action_event delete folder file path version 0 [] (ascii "remote") now) db f
          (cc (found, is_f, same_folder, same_path)) e (omega arith) in
      let deleted : get_file driver event.folder_id event.relative_path db'
          ≡ ok (some (deleted_record now version now (ascii "remote") f)) =
        cc (after, same_folder, same_path) in
      rw deleted (ground arith)

  -- Recording a conflict leaves every file of every folder but the conflict copy as it was, the
  -- local version of the file among them, whose path is another one, and the copy reads as the
  -- hash, the size, the version and the origin of the event, and is not deleted. The size and the version are below 2 ^ 63.
  pub apply_conflict_keeps_local :
      (db : MetadataDb) {db' : MetadataDb} (original path : Text)
      → normalize_path original ≢ normalize_path path
      → event.size_bytes < 2 ^ 63
      → event.version < 2 ^ 63
      → apply_reconciliation_action now
          (conflict event.folder_id event.file_id original path event.size_bytes event.content_hash
            event.version event.origin_node_id)
          db
        ≡ ok db'
      → (get_file driver event.folder_id original db' ≡ get_file driver event.folder_id original db)
        × OthersKept driver event.folder_id path db db'
        × ((copy : FileRecord) × (get_file driver event.folder_id path db' ≡ ok (some copy))
            × (copy.content_hash ≡ event.content_hash)
            × (copy.size_bytes ≡ event.size_bytes)
            × (copy.version ≡ event.version)
            × (copy.origin_node_id ≡ event.origin_node_id)
            × (copy.is_deleted ≡ false))
  unfolding apply_reconciliation_action
  apply_conflict_keeps_local db original path differ hs hv e =
      let ev =
        action_event upsert event.folder_id (event.file_id ++ ascii "_conflict") path event.version
          event.size_bytes event.content_hash event.origin_node_id now in
      let (found, others, _) = apply_remote_upsert_lem driver now ev db e hs hv in
      (
        others event.folder_id original (inr differ),
        others,
        (record_of (normalized ev), found, refl, refl, refl, refl, refl),
      )
