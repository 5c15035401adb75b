-- ===== src/Metadata/Tables.antt =====
-- The tables that `init_schema` of crates/tusher-metadata/src/db.rs declares, as lists of rows in
-- the order of their row ids, with the constraints that the statements of that file run into.
pub mod Valid
use t_u_s_h_e_r.Base.{
  ℕ, suc, ◌+◌, ◌≡◌, Bool, true, false, not, ◌&&◌, Option, none, some, List, [], ◌∷◌, ◌++◌, map, any,
  find?, if◌then◌else◌, ◌==◌, nat_eq, bytes_eq, Outcome, ok, err, ◌>>=◌, ◌>>◌, guard,
}
use t_u_s_h_e_r.Base.Int.{ℤ, pos, negsuc}
use t_u_s_h_e_r.Base.Text.{Text, ascii}
use t_u_s_h_e_r.Metadata.Models.{SharedFolder}

-- A row of `files`. Integer columns hold `i64` values.
pub record FileRow : Type 0 where
  pub file_id : Text
  pub folder_id : Text
  pub relative_path : Text
  pub filename : Text
  pub size_bytes : ℤ
  pub content_hash : Text
  pub version : ℤ
  pub origin_node_id : Text
  pub modified_at : ℤ
  pub is_deleted : Bool
  pub tombstone_at : Option ℤ

-- A row of `sync_events`. The key is a row id, so at least 1.
pub record EventRow : Type 0 where
  pub event_seq : ℕ
  pub folder_id : Text
  pub file_id : Text
  pub relative_path : Text
  pub event_type : Text
  pub version : ℤ
  pub size_bytes : ℤ
  pub content_hash : Text
  pub origin_node_id : Text
  pub modified_at : ℤ
  pub created_at : ℤ

-- `last_seq` is the counter of AUTOINCREMENT: the largest `event_seq` ever given.
pub record MetadataDb : Type 0 where
  pub shared_folders : List SharedFolder
  pub files : List FileRow
  pub sync_events : List EventRow
  pub last_seq : ℕ

pub data DbError : Type 0 where
  foreign_key_failed : DbError
  unique_failed : DbError
  out_of_range : DbError

abbrev pub at_key : Text → Text → FileRow → Bool
at_key folder path row = row.folder_id == folder && row.relative_path == path

abbrev pub has_folder : List SharedFolder → Text → Bool
has_folder folders id = any (λ f. f.folder_id == id) folders

-- Another row than the one of the key has the file id: the primary key would occur twice.
abbrev pub id_taken : FileRow → List FileRow → Bool
id_taken new rows =
    any (λ r. if at_key new.folder_id new.relative_path r then false else r.file_id == new.file_id)
      rows

-- Replaces the rows of the key.
abbrev pub set_rows : Text → Text → (FileRow → FileRow) → List FileRow → List FileRow
set_rows folder path f rows = map (λ r. if at_key folder path r then f r else r) rows

-- INSERT INTO files … ON CONFLICT(folder_id, relative_path) DO UPDATE SET, every other column from
-- the new row.
unfoldable pub upsert_file : FileRow → MetadataDb → Outcome DbError MetadataDb
upsert_file new db = do
  guard (has_folder db.shared_folders new.folder_id) foreign_key_failed
  guard (not (id_taken new db.files)) unique_failed
  ok (record db {
    files =
        if any (at_key new.folder_id new.relative_path) db.files
        then set_rows new.folder_id new.relative_path (λ r. new) db.files
        else db.files ++ (new ∷ []);
  })

-- INSERT INTO sync_events: the row with the next sequence number.
unfoldable pub insert_event : (ℕ → EventRow) → MetadataDb → Outcome DbError MetadataDb
insert_event row db =
    let seq = db.last_seq + 1 in
    do
      guard (has_folder db.shared_folders (row seq).folder_id) foreign_key_failed
      ok (record db { sync_events = db.sync_events ++ (row seq ∷ []); last_seq = seq })
