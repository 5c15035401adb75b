-- ===== src/Metadata/Db.antt =====
-- `MetadataDb` of crates/tusher-metadata/src/db.rs: the operations on the catalog and on the log of
-- events. The clock is an argument, and what rusqlite makes of an integer column is a parameter. A
-- transaction that fails is rolled back, so an error carries no database.
pub mod Reachable
pub mod Lookup
pub mod Changes
pub mod Deletions
pub mod Remote
pub mod Duplicates
pub mod Manifest
pub mod Listing
use Prim.Native.Nat.{min, max}
use mathlib.Core.List.{foldr}
use t_u_s_h_e_r.Base.{
  ℕ, zero, suc, ◌+◌, ◌≡◌, Bool, true, false, not, ◌&&◌, Option, none, some, List, [], ◌∷◌, ◌++◌,
  map, any, find?, filter, sort_by, take, length, leb, if◌then◌else◌, ◌==◌, nat_eq, bytes_eq,
  Outcome, ok, err, panic, ◌>>=◌, ◌>>◌, guard, ok_or,
}
use t_u_s_h_e_r.Base.Int
use t_u_s_h_e_r.Base.Int.{ℤ, pos, negsuc, as_i64, as_u64, int_eq}
use t_u_s_h_e_r.Base.Text
use t_u_s_h_e_r.Base.Text.{Text, ascii, slash, backslash, replace, trim_start_matches, slice_to}
use t_u_s_h_e_r.Base.FilePath.{file_name}
use t_u_s_h_e_r.Core.Types.{NodeId, from_str_unchecked}
use t_u_s_h_e_r.Core.Protocol.{SyncEvent, SyncEventType, upsert, delete, sync_event_type_eq}
use t_u_s_h_e_r.Metadata.Models.{SharedFolder, FileRecord}
use t_u_s_h_e_r.Metadata.Tables.{
  FileRow, EventRow, MetadataDb, DbError, out_of_range, foreign_key_failed, at_key, has_folder,
  set_rows, upsert_file, insert_event,
}

-- How rusqlite reads an integer column as a `u64`: a negative value is out of range.
pub record Rusqlite : Type 0 where
  pub u64_column : ℤ → Option ℕ
  pub u64_column-pos : (n : ℕ) → u64_column (pos n) ≡ some n
  pub u64_column-negsuc : (n : ℕ) → u64_column (negsuc n) ≡ none

unfoldable pub normalize_path : Text → Text
normalize_path p = trim_start_matches slash (replace backslash slash p)

-- The file name of a normalised path.
unfoldable pub filename_of : Text → Text
filename_of path = elim (file_name path) [ none ↦ ascii "unnamed" | some n ↦ n ]

unfoldable pub add_folder : SharedFolder → MetadataDb → MetadataDb
add_folder folder db = record db {
  shared_folders =
      if has_folder db.shared_folders folder.folder_id
      then map
          (λ f.
            if f.folder_id == folder.folder_id
            then record f { name = folder.name; local_path = folder.local_path }
            else f)
          db.shared_folders
      else db.shared_folders ++ (folder ∷ []);
}

unfoldable pub get_folders : MetadataDb → List SharedFolder
get_folders db = sort_by (λ f g. Int.leb f.created_at g.created_at) db.shared_folders

unfoldable pub get_folder : Text → MetadataDb → Option SharedFolder
get_folder folder_id db = find? (λ f. f.folder_id == folder_id) db.shared_folders

-- The texts of the column `event_type`.
abbrev pub event_type_text : SyncEventType → Text
event_type_text upsert = ascii "UPSERT"
event_type_text delete = ascii "DELETE"

-- The event row that a local or remote change logs.
abbrev pub event_row : SyncEvent → ℤ → ℕ → EventRow
event_row ev created_at seq = record {
  event_seq = seq;
  folder_id = ev.folder_id;
  file_id = ev.file_id;
  relative_path = ev.relative_path;
  event_type = event_type_text ev.event_type;
  version = as_i64 ev.version;
  size_bytes = as_i64 ev.size_bytes;
  content_hash = ev.content_hash;
  origin_node_id = ev.origin_node_id;
  modified_at = ev.modified_at;
  created_at = created_at;
}

-- The file row that an upsert writes.
abbrev pub file_row : SyncEvent → FileRow
file_row ev = record {
  file_id = ev.file_id;
  folder_id = ev.folder_id;
  relative_path = ev.relative_path;
  filename = filename_of ev.relative_path;
  size_bytes = as_i64 ev.size_bytes;
  content_hash = ev.content_hash;
  version = as_i64 ev.version;
  origin_node_id = ev.origin_node_id;
  modified_at = ev.modified_at;
  is_deleted = false;
  tombstone_at = none;
}

-- The tombstone that a deletion leaves in the row of a file.
abbrev pub tombstone : ℤ → ℕ → ℤ → NodeId → FileRow → FileRow
tombstone tombstone_at version modified_at origin_node_id row = record row {
  is_deleted = true;
  tombstone_at = some tombstone_at;
  version = as_i64 version;
  modified_at = modified_at;
  origin_node_id = origin_node_id;
}

-- The file id and the version that a local change gets.
unfoldable pub next_version : Option FileRecord → Text → Outcome DbError (Text × ℕ)
next_version (some curr) content_hash = ok (curr.file_id, curr.version + 1)
next_version none content_hash = do
  short ← slice_to content_hash (min 16 (length content_hash))
  ok (ascii "f_" ++ short, 1)

-- The event of a local change, which gets its sequence number when it is logged.
abbrev pub local_event :
    SyncEventType → Text → Text → Text → ℕ → ℕ → Text → NodeId → ℤ → ℕ → SyncEvent
local_event kind folder_id file_id path version size_bytes content_hash origin now seq = record {
  event_seq = seq;
  folder_id = folder_id;
  file_id = file_id;
  relative_path = path;
  event_type = kind;
  version = version;
  size_bytes = size_bytes;
  content_hash = content_hash;
  origin_node_id = origin;
  modified_at = now;
}

-- Logs a local change, with the number of its row.
unfoldable pub log_change :
    ℤ → (ℕ → SyncEvent) → MetadataDb → Outcome DbError (MetadataDb × SyncEvent)
log_change now ev db = do
  with_event ← insert_event (event_row (ev 0) now) db
  ok (with_event, ev with_event.last_seq)

-- The transaction of `record_local_upsert`.
unfoldable pub commit_upsert :
    ℤ → (ℕ → SyncEvent) → MetadataDb → Outcome DbError (MetadataDb × SyncEvent)
unfolding log_change
commit_upsert now ev db = do
  with_file ← upsert_file (file_row (ev 0)) db
  log_change now ev with_file

-- The transaction of `record_local_delete`.
unfoldable pub delete_existing :
    ℤ
    → Text
    → Text
    → NodeId
    → FileRecord
    → MetadataDb
    → Outcome DbError (MetadataDb × Option SyncEvent)
unfolding log_change
delete_existing now folder_id norm_path origin_node_id existing db =
    let new_version = existing.version + 1 in
    let with_file : MetadataDb = record db {
      files = set_rows folder_id norm_path (tombstone now new_version now origin_node_id) db.files;
    } in
    do
      (with_event, ev) ←
          log_change now
            (local_event delete folder_id existing.file_id norm_path new_version 0
              existing.content_hash origin_node_id now)
            with_file
      ok (with_event, some ev)

module _ (driver : Rusqlite) where
  unfoldable pub file_record : FileRow → Outcome DbError FileRecord
  file_record row = do
    size_bytes ← ok_or (driver.u64_column row.size_bytes) out_of_range
    version ← ok_or (driver.u64_column row.version) out_of_range
    ok (record {
      file_id = row.file_id;
      folder_id = row.folder_id;
      relative_path = row.relative_path;
      filename = row.filename;
      size_bytes = size_bytes;
      content_hash = row.content_hash;
      version = version;
      origin_node_id = from_str_unchecked row.origin_node_id;
      modified_at = row.modified_at;
      is_deleted = row.is_deleted;
      tombstone_at = row.tombstone_at;
    })

  unfoldable pub file_records : List FileRow → Outcome DbError (List FileRecord)
  unfolding file_record
  file_records [] = ok []
  file_records (row ∷ rows) = do r ← file_record row; rs ← file_records rows; ok (r ∷ rs)

  unfoldable pub get_file : Text → Text → MetadataDb → Outcome DbError (Option FileRecord)
  get_file folder_id relative_path db =
      elim (find? (at_key folder_id (normalize_path relative_path)) db.files) [
        | none ↦ ok none
        | some row ↦ do r ← file_record row; ok (some r)
      ]

  unfoldable pub get_all_files : Text → MetadataDb → Outcome DbError (List FileRecord)
  unfolding file_records
  get_all_files folder_id db = file_records (
      sort_by (λ a b. Text.leb a.relative_path b.relative_path)
        (filter (λ row. row.folder_id == folder_id && not row.is_deleted) db.files))

  unfoldable pub record_local_upsert :
      ℤ → Text → Text → ℕ → Text → NodeId → MetadataDb → Outcome DbError (MetadataDb × SyncEvent)
  unfolding commit_upsert
  record_local_upsert now folder_id relative_path size_bytes content_hash origin_node_id db =
      let norm_path = normalize_path relative_path in
      do
        existing ← get_file folder_id norm_path db
        (file_id, new_version) ← next_version existing content_hash
        commit_upsert now
            (local_event upsert folder_id file_id norm_path new_version size_bytes content_hash
              origin_node_id now)
            db

  unfoldable pub record_local_delete :
      ℤ → Text → Text → NodeId → MetadataDb → Outcome DbError (MetadataDb × Option SyncEvent)
  unfolding delete_existing
  record_local_delete now folder_id relative_path origin_node_id db =
      let norm_path = normalize_path relative_path in
      do
        existing ← get_file folder_id norm_path db
        elim existing [
          | none ↦ ok (db, none)
          | some f ↦
              if f.is_deleted
              then ok (db, none)
              else delete_existing now folder_id norm_path origin_node_id f db
        ]

-- SELECT EXISTS: the log has an upsert of this version and content.
abbrev pub logged_upsert : SyncEvent → EventRow → Bool
logged_upsert ev row =
    row.folder_id == ev.folder_id
    && row.relative_path == ev.relative_path
    && row.version == as_i64 ev.version
    && row.content_hash == ev.content_hash
    && row.event_type == ascii "UPSERT"

-- SELECT EXISTS: the log has a deletion of this version.
abbrev pub logged_delete : SyncEvent → EventRow → Bool
logged_delete ev row =
    row.folder_id == ev.folder_id
    && row.relative_path == ev.relative_path
    && row.version == as_i64 ev.version
    && row.event_type == ascii "DELETE"

-- The event with the path that the statements use.
abbrev pub normalized : SyncEvent → SyncEvent
normalized ev = record ev { relative_path = normalize_path ev.relative_path }

-- `if !already_present` the event is logged.
unfoldable pub log_once : Bool → (ℕ → EventRow) → MetadataDb → Outcome DbError MetadataDb
log_once true row db = ok db
log_once false row db = insert_event row db

unfoldable pub apply_remote_upsert : ℤ → SyncEvent → MetadataDb → Outcome DbError MetadataDb
apply_remote_upsert now event db =
    let ev = record (normalized event) { event_type = upsert } in
    do
      with_file ← upsert_file (file_row ev) db
      log_once (any (logged_upsert ev) with_file.sync_events) (event_row ev now) with_file

unfoldable pub apply_remote_delete : ℤ → SyncEvent → MetadataDb → Outcome DbError MetadataDb
apply_remote_delete now event db =
    let ev = record (normalized event) { event_type = delete; size_bytes = 0 } in
    let with_file : MetadataDb = record db {
      files =
          set_rows ev.folder_id ev.relative_path
            (tombstone now ev.version ev.modified_at ev.origin_node_id) db.files;
    } in
    log_once (any (logged_delete ev) with_file.sync_events) (event_row ev now) with_file

pub max_seq : List EventRow → ℕ
max_seq [] = 0
max_seq (row ∷ rows) = max row.event_seq (max_seq rows)

-- COALESCE(MAX(event_seq), 0)
unfoldable pub get_latest_event_seq : Text → MetadataDb → ℕ
unfolding max_seq
get_latest_event_seq folder_id db =
    max_seq (filter (λ row. row.folder_id == folder_id) db.sync_events)

-- The WHERE clause of `get_events_since`.
abbrev pub event_after : Text → ℕ → EventRow → Bool
event_after folder_id since_event_seq row =
    row.folder_id == folder_id && Int.ltb (as_i64 since_event_seq) (pos row.event_seq)

-- LIMIT: a negative number is no limit.
abbrev pub limit_rows : ℤ → List EventRow → List EventRow
limit_rows (pos n) rows = take n rows
limit_rows (negsuc n) rows = rows

-- The rows that the SELECT of `get_events_since` gives.
unfoldable pub select_events_since : Text → ℕ → ℕ → MetadataDb → List EventRow
select_events_since folder_id since_event_seq limit db = limit_rows (as_i64 limit) (
    sort_by (λ a b. leb a.event_seq b.event_seq)
      (filter (event_after folder_id since_event_seq) db.sync_events))

module _ (driver : Rusqlite) where
  unfoldable pub sync_event : EventRow → Outcome DbError SyncEvent
  sync_event row = do
    event_seq ← ok_or (driver.u64_column (pos row.event_seq)) out_of_range
    version ← ok_or (driver.u64_column row.version) out_of_range
    size_bytes ← ok_or (driver.u64_column row.size_bytes) out_of_range
    ok (record {
      event_seq = event_seq;
      folder_id = row.folder_id;
      file_id = row.file_id;
      relative_path = row.relative_path;
      event_type = if row.event_type == ascii "DELETE" then delete else upsert;
      version = version;
      size_bytes = size_bytes;
      content_hash = row.content_hash;
      origin_node_id = from_str_unchecked row.origin_node_id;
      modified_at = row.modified_at;
    })

  unfoldable pub sync_events_of : List EventRow → Outcome DbError (List SyncEvent)
  unfolding sync_event
  sync_events_of [] = ok []
  sync_events_of (row ∷ rows) = do ev ← sync_event row; evs ← sync_events_of rows; ok (ev ∷ evs)

  unfoldable pub get_events_since : Text → ℕ → ℕ → MetadataDb → Outcome DbError (List SyncEvent × ℕ)
  unfolding sync_events_of
  get_events_since folder_id since_event_seq limit db = do
    events ← sync_events_of (select_events_since folder_id since_event_seq limit db)
    ok (events, get_latest_event_seq folder_id db)
