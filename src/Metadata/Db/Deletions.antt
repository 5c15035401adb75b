-- ===== src/Metadata/Db/Deletions.antt =====
-- Deletions, local and remote: the tombstone, every other file, and the log.
use t_u_s_h_e_r.Base.{
  ℕ, ◌+◌, ◌^◌, ◌<◌, ◌≡◌, refl, true, false, inl, inr, Option, none, some, List, arith, find?,
  Option-cases, nat_eq, bytes_eq, ok, >>=-eq-ok,
}
use t_u_s_h_e_r.Base.Int.{ℤ, as_i64_small}
use t_u_s_h_e_r.Base.Text.{Text}
use t_u_s_h_e_r.Core.Types.{NodeId}
use t_u_s_h_e_r.Core.Protocol.{SyncEvent, delete}
use t_u_s_h_e_r.Metadata.Models.{FileRecord}
use t_u_s_h_e_r.Metadata.Tables.{FileRow, MetadataDb, at_key, set_rows}
use t_u_s_h_e_r.Metadata.Tables.Valid.{at_key-eq}
use t_u_s_h_e_r.Metadata.Db.{
  Rusqlite, normalize_path, get_file, file_record, log_change, local_event, tombstone,
  record_local_delete, delete_existing,
}
use t_u_s_h_e_r.Metadata.Db.Lookup.{
  find?-set_rows-some, find?-set_rows_other, get_file_files, get_file_found,
}
use t_u_s_h_e_r.Metadata.Db.Changes.{Logged, OthersKept, log_change_ok, get_file-normalize_path}

-- What a tombstone leaves of a file record.
abbrev pub deleted_record : ℤ → ℕ → ℤ → NodeId → FileRecord → FileRecord
deleted_record tombstone_at version modified_at origin f = record f {
  is_deleted = true;
  tombstone_at = some tombstone_at;
  version = version;
  modified_at = modified_at;
  origin_node_id = origin;
}

module _ (driver : Rusqlite) (folder_id path : Text) (at modified : ℤ) (version : ℕ)
    (origin : NodeId) where
  get_file-row :
      (db : MetadataDb) (f : FileRecord)
      → get_file driver folder_id path db ≡ ok (some f)
      → (r : FileRow) × (find? (at_key folder_id (normalize_path path)) db.files ≡ some r)
        × (file_record driver r ≡ ok f)
  unfolding get_file
  get_file-row db f h =
      elim (Option-cases (find? (at_key folder_id (normalize_path path)) db.files)) [
        | inl absent ↦ absurd (ground arith)
        | inr (r, found) ↦ (r, found, ground arith)
      ]

  file_record-tombstone :
      (r : FileRow) (f : FileRecord)
      → version < 2 ^ 63
      → file_record driver r ≡ ok f
      → file_record driver (tombstone at version modified origin r)
        ≡ ok (deleted_record at version modified origin f)
  unfolding file_record
  file_record-tombstone r f hv h =
      ground (arith, as_i64_small version hv, driver.u64_column-pos version)

  abbrev buried : MetadataDb → List FileRow
  buried db =
      set_rows folder_id (normalize_path path) (tombstone at version modified origin) db.files

  -- A file that the catalog has is read as deleted after the update, and no other file changes.
  pub tombstone-get_file :
      (db db' : MetadataDb) (f : FileRecord)
      → db'.files ≡ buried db
      → get_file driver folder_id path db ≡ ok (some f)
      → version < 2 ^ 63
      → (get_file driver folder_id path db'
          ≡ ok (some (deleted_record at version modified origin f)))
        × OthersKept driver folder_id path db db'
  tombstone-get_file db db' f same found hv =
      let norm = normalize_path path in
      let (r, at_row, decoded) = get_file-row db f found in
      (
        get_file_found driver folder_id path db' (tombstone at version modified origin r) _
            (rw same (
              find?-set_rows-some folder_id norm (tombstone at version modified origin)
                (at_key-eq folder_id norm) db.files r at_row))
            (file_record-tombstone r f hv decoded),
        λ f p other. get_file_files driver f p db db' (
            rw same (
              find?-set_rows_other folder_id norm (tombstone at version modified origin)
                (at_key-eq folder_id norm) f (normalize_path p) db.files other)),
      )

module _ (driver : Rusqlite) (now : ℤ) (folder_id path : Text) (origin : NodeId) where
  -- Deleting a file that the catalog lacks, or has as deleted, does nothing and logs nothing.
  pub record_local_delete_absent :
      (db : MetadataDb) (existing : Option FileRecord)
      → get_file driver folder_id path db ≡ ok existing
      → ((f : FileRecord) → existing ≡ some f → f.is_deleted ≡ true)
      → record_local_delete driver now folder_id path origin db ≡ ok (db, none)
  unfolding record_local_delete
  record_local_delete_absent db none found gone =
      ground (arith, get_file-normalize_path driver folder_id path db)
  record_local_delete_absent db (some f) found gone =
      ground (arith, get_file-normalize_path driver folder_id path db, gone f refl)

  delete_existing_lem :
      (db : MetadataDb) {db' : MetadataDb} {logged : Option SyncEvent} (f : FileRecord)
      → get_file driver folder_id path db ≡ ok (some f)
      → delete_existing now folder_id (normalize_path path) origin f db ≡ ok (db', logged)
      → f.version + 1 < 2 ^ 63
      → let ev =
          local_event delete folder_id f.file_id
            (normalize_path path)
            (f.version + 1)
            0
            f.content_hash
            origin
            now
            (db.last_seq + 1) in
        (logged ≡ some ev)
        × (get_file driver folder_id path db'
            ≡ ok (some (deleted_record now (f.version + 1) now origin f)))
        × OthersKept driver folder_id path db db'
        × Logged db db' ev now
  unfolding delete_existing
  delete_existing_lem db {db'} {logged} f found e hv =
      let version = f.version + 1 in
      let new =
        local_event delete folder_id f.file_id (normalize_path path) version 0 f.content_hash origin
          now in
      let with_file : MetadataDb = record db {
        files =
            set_rows folder_id (normalize_path path) (tombstone now version now origin) db.files;
      } in
      let (mid, first, rest) = >>=-eq-ok (log_change now new with_file) _ e in
      let (same, numbered, grew) = log_change_ok now new with_file first in
      let (after, others) =
        tombstone-get_file driver folder_id path now now version origin db mid.0 f same found hv in
      (
        ground arith,
        ground arith,
        λ f' p other. ground (arith, others f' p other),
        (ground arith, ground arith),
      )

  -- A recorded deletion of an active file: the file stays in the catalog as a tombstone of the next
  -- version, with its id and content hash; every other file reads as before; the log grew by one
  -- deletion of that version, under the next number. The version has to fit an `i64`.
  pub record_local_delete_lem :
      (db : MetadataDb) {db' : MetadataDb} {logged : Option SyncEvent} (f : FileRecord)
      → get_file driver folder_id path db ≡ ok (some f)
      → f.is_deleted ≡ false
      → record_local_delete driver now folder_id path origin db ≡ ok (db', logged)
      → f.version + 1 < 2 ^ 63
      → let ev =
          local_event delete folder_id f.file_id
            (normalize_path path)
            (f.version + 1)
            0
            f.content_hash
            origin
            now
            (db.last_seq + 1) in
        (logged ≡ some ev)
        × (get_file driver folder_id path db'
            ≡ ok (some (deleted_record now (f.version + 1) now origin f)))
        × OthersKept driver folder_id path db db'
        × Logged db db' ev now
  unfolding record_local_delete
  record_local_delete_lem db {db'} {logged} f found active e hv =
      let norm = normalize_path path in
      let e' : delete_existing now folder_id norm origin f db ≡ ok (db', logged) =
        ground (arith, get_file-normalize_path driver folder_id path db) in
      delete_existing_lem db f found e' hv
