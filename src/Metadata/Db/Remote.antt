-- ===== src/Metadata/Db/Remote.antt =====
-- Changes that arrive from peers: what the catalog has afterwards, and that the log records each
-- version of a file once.
use t_u_s_h_e_r.Base.{
  ℕ, ◌+◌, ◌^◌, ◌<◌, ◌≡◌, refl, Bool, true, false, some, [], ◌∷◌, ◌++◌, arith, any, if◌then◌else◌,
  nat_eq, bytes_eq, ok, >>=-eq-ok,
}
use mathlib.Core.Path.{subst}
use t_u_s_h_e_r.Base.Int.{ℤ}
use t_u_s_h_e_r.Core.Protocol.{SyncEvent, upsert, delete}
use t_u_s_h_e_r.Metadata.Models.{FileRecord}
use t_u_s_h_e_r.Metadata.Tables.{EventRow, MetadataDb, set_rows, upsert_file}
use t_u_s_h_e_r.Metadata.Tables.Valid.{insert_event_ok, upsert_file_ok}
use t_u_s_h_e_r.Metadata.Db.{
  Rusqlite, normalize_path, get_file, file_row, event_row, normalized, log_once, tombstone,
  apply_remote_upsert, apply_remote_delete,
}
use t_u_s_h_e_r.Metadata.Db.Lookup.{record_of, log_once-files}
use t_u_s_h_e_r.Metadata.Db.Changes.{OthersKept, upsert_file-get_file}
use t_u_s_h_e_r.Metadata.Db.{logged_upsert, logged_delete}
use t_u_s_h_e_r.Metadata.Db.Deletions.{deleted_record, tombstone-get_file}

-- The upsert as the statements of `apply_remote_upsert` see it.
abbrev pub as_upsert : SyncEvent → SyncEvent
as_upsert ev = record (normalized ev) { event_type = upsert }

abbrev pub as_delete : SyncEvent → SyncEvent
as_delete ev = record (normalized ev) { event_type = delete; size_bytes = 0 }

-- The log with the row at its end, unless the test says that it is there already.
abbrev pub LoggedOnce : Bool → MetadataDb → MetadataDb → EventRow → Type 0
LoggedOnce present db db' row =
    (db'.sync_events ≡ (if present then db.sync_events else db.sync_events ++ (row ∷ [])))
    × (db'.last_seq ≡ (if present then db.last_seq else db.last_seq + 1))

log_once_ok :
    (present : Bool) (row : ℕ → EventRow) (db : MetadataDb) {db' : MetadataDb}
    → log_once present row db ≡ ok db'
    → LoggedOnce present db db' (row (db.last_seq + 1))
unfolding log_once
log_once_ok true row db e = (ground arith, ground arith)
log_once_ok false row db e =
    let (_, changed) = insert_event_ok row db e in (ground arith, ground arith)

module _ (driver : Rusqlite) (now : ℤ) (ev : SyncEvent) where
  pub apply_remote_upsert_lem :
      (db : MetadataDb) {db' : MetadataDb}
      → apply_remote_upsert now ev db ≡ ok db'
      → ev.size_bytes < 2 ^ 63
      → ev.version < 2 ^ 63
      → (get_file driver ev.folder_id ev.relative_path db' ≡ ok (some (record_of (normalized ev))))
        × OthersKept driver ev.folder_id ev.relative_path db db'
        × LoggedOnce
            (any (logged_upsert (as_upsert ev)) db.sync_events)
            db
            db'
            (event_row (as_upsert ev) now (db.last_seq + 1))
  unfolding apply_remote_upsert
  apply_remote_upsert_lem db {db'} e hs hv =
      let (mid, stored, rest) = >>=-eq-ok (upsert_file (file_row (as_upsert ev)) db) _ e in
      let row = event_row (as_upsert ev) now in
      let present = any (logged_upsert (as_upsert ev)) mid.sync_events in
      let (_, _, changed) = upsert_file_ok (file_row (as_upsert ev)) db stored in
      let (after, others) =
        upsert_file-get_file driver (as_upsert ev) ev.relative_path db mid db' refl stored
          (log_once-files present row mid rest) hs hv in
      (
        after,
        others,
        subst
            (λ d.
              LoggedOnce (any (logged_upsert (as_upsert ev)) d.sync_events) d db'
                (row (d.last_seq + 1)))
            changed (log_once_ok present row mid rest),
      )

  -- An applied remote deletion of a file that the catalog has: it is read as deleted at the version
  -- of the event, every other file reads as before, and the log gets the deletion unless it has one
  -- of this file and version.
  pub apply_remote_delete_lem :
      (db : MetadataDb) {db' : MetadataDb} (f : FileRecord)
      → get_file driver ev.folder_id ev.relative_path db ≡ ok (some f)
      → apply_remote_delete now ev db ≡ ok db'
      → ev.version < 2 ^ 63
      → (get_file driver ev.folder_id ev.relative_path db'
          ≡ ok (some (deleted_record now ev.version ev.modified_at ev.origin_node_id f)))
        × OthersKept driver ev.folder_id ev.relative_path db db'
        × LoggedOnce
            (any (logged_delete (as_delete ev)) db.sync_events)
            db
            db'
            (event_row (as_delete ev) now (db.last_seq + 1))
  unfolding apply_remote_delete
  apply_remote_delete_lem db {db'} f found e hv =
      let row = event_row (as_delete ev) now in
      let with_file : MetadataDb = record db {
        files =
            set_rows ev.folder_id (normalize_path ev.relative_path)
              (tombstone now ev.version ev.modified_at ev.origin_node_id) db.files;
      } in
      let present = any (logged_delete (as_delete ev)) db.sync_events in
      let (after, others) =
        tombstone-get_file driver ev.folder_id ev.relative_path now ev.modified_at ev.version
          ev.origin_node_id db db' f (log_once-files present row with_file e) found hv in
      (after, others, log_once_ok present row with_file e)
