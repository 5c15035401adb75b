-- ===== src/Metadata/Service.antt =====
-- crates/tusher-metadata/src/service.rs: each method runs under the lock of the database. Those
-- that only pass a call on are the functions of `Db`.
pub mod Gaps
pub mod Convergence
use t_u_s_h_e_r.Base.{ℕ, ◌≡◌, List, [], ◌∷◌, ◌++◌, Outcome, ok, err, panic, ◌>>=◌, ◌>>◌}
use t_u_s_h_e_r.Base.Int.{ℤ}
use t_u_s_h_e_r.Base.Text.{Text, ascii}
use t_u_s_h_e_r.Core.Types.{NodeId, from_str_unchecked}
use t_u_s_h_e_r.Core.Protocol.{SyncEvent, SyncEventType, upsert, delete}
use t_u_s_h_e_r.Metadata.Models.{
  SharedFolder, ReconciliationAction, up_to_date, download_needed, delete_local, conflict, ignore,
}
use t_u_s_h_e_r.Metadata.Tables.{MetadataDb, DbError}
use t_u_s_h_e_r.Metadata.Db
use t_u_s_h_e_r.Metadata.Db.{Rusqlite, get_events_since, apply_remote_upsert, apply_remote_delete}
use t_u_s_h_e_r.Metadata.Reconciler.{reconcile_event}

unfoldable pub add_folder : ℤ → Text → Text → Text → MetadataDb → MetadataDb × SharedFolder
add_folder now folder_id name local_path db =
    let folder : SharedFolder = record {
      folder_id = folder_id;
      name = name;
      local_path = local_path;
      created_at = now;
    } in
    (Db.add_folder folder db, folder)

module _ (driver : Rusqlite) where
  unfoldable pub handle_manifest_request :
      Text → ℕ → MetadataDb → Outcome DbError (List SyncEvent × ℕ)
  handle_manifest_request folder_id since_event_seq db =
      get_events_since driver folder_id since_event_seq 500 db

  -- Every event is judged against the same catalog, and the first error ends the loop.
  unfoldable pub reconcile_remote_events :
      (ℤ → Text) → MetadataDb → List SyncEvent → Outcome DbError (List ReconciliationAction)
  reconcile_remote_events format_time db [] = ok []
  reconcile_remote_events format_time db (ev ∷ events) = do
    act ← reconcile_event format_time driver db ev
    actions ← reconcile_remote_events format_time db events
    ok (act ∷ actions)

-- The event that stands for an action, not yet numbered.
abbrev pub action_event : SyncEventType → Text → Text → Text → ℕ → ℕ → Text → NodeId → ℤ → SyncEvent
action_event kind folder_id file_id path version size_bytes content_hash origin now = record {
  event_seq = 0;
  folder_id = folder_id;
  file_id = file_id;
  relative_path = path;
  event_type = kind;
  version = version;
  size_bytes = size_bytes;
  content_hash = content_hash;
  origin_node_id = origin;
  modified_at = now;
}

unfoldable pub apply_reconciliation_action :
    ℤ → ReconciliationAction → MetadataDb → Outcome DbError MetadataDb
apply_reconciliation_action now (download_needed folder file path size hash version origin) db =
    apply_remote_upsert now (action_event upsert folder file path version size hash origin now) db
apply_reconciliation_action now (delete_local folder file path version) db =
    apply_remote_delete now
      (action_event delete folder file path version 0 [] (from_str_unchecked (ascii "remote")) now)
      db
apply_reconciliation_action now (conflict folder file original path size hash version origin) db =
    apply_remote_upsert now
      (action_event upsert folder (file ++ ascii "_conflict") path version size hash origin now) db
apply_reconciliation_action now action db = ok db
