-- ===== src/Metadata/Db/Listing.antt =====
-- The listing of a folder in crates/tusher-metadata/src/db.rs.
use t_u_s_h_e_r.Base.{
  ◌≡◌, sym, ap, false, not, ◌&&◌, some, List, [], ◌∷◌, find?, arith, In, here, there,
  In-filter_intro, ◌==◌, nat_eq, bytes_eq, Option-cases, inl, inr, ok, >>=-eq-ok,
}
use t_u_s_h_e_r.Base.Members.{find?-In, In-sort_by}
use mathlib.Core.Path.{subst}
use t_u_s_h_e_r.Base.Text
use t_u_s_h_e_r.Base.Text.{
  Text, ascii, slash, backslash, replace, trim_start_matches, starts_with, contains,
}
use t_u_s_h_e_r.Metadata.Models.{FileRecord}
use t_u_s_h_e_r.Metadata.Tables.{FileRow, MetadataDb, at_key}
use t_u_s_h_e_r.Metadata.Db.{
  Rusqlite, normalize_path, file_record, file_records, get_file, get_all_files,
}

module _ (driver : Rusqlite) where
  file_records-In :
      (rows : List FileRow) (row : FileRow) (r : FileRecord) (records : List FileRecord)
      → In row rows
      → file_record driver row ≡ ok r
      → file_records driver rows ≡ ok records
      → In r records
  unfolding file_records
  file_records-In [] row r records m e h = elim m [ ]
  file_records-In (x ∷ rows) row r records (here same) e h =
      let (r1, e1, h1) = >>=-eq-ok (file_record driver x) _ h in
      let (rs, e2, h2) = >>=-eq-ok (file_records driver rows) _ h1 in
      let whole : records ≡ r1 ∷ rs = ground arith in
      let first : r ≡ r1 = ground (arith, e, e1, ap (file_record driver) same) in
      subst (In r) (sym whole) (here first)
  file_records-In (x ∷ rows) row r records (there n) e h =
      let (r1, e1, h1) = >>=-eq-ok (file_record driver x) _ h in
      let (rs, e2, h2) = >>=-eq-ok (file_records driver rows) _ h1 in
      let whole : records ≡ r1 ∷ rs = ground arith in
      subst (In r) (sym whole) (there (file_records-In rows row r rs n e e2))

  file_record_fields :
      (row : FileRow) (r : FileRecord)
      → file_record driver row ≡ ok r
      → (r.folder_id ≡ row.folder_id)
        × (r.relative_path ≡ row.relative_path)
        × (r.is_deleted ≡ row.is_deleted)
  unfolding file_record
  file_record_fields row r e = ground arith

  -- An active file that a lookup finds is among those of its folder.
  pub get_all_files-In :
      (folder path : Text) (db : MetadataDb) (r : FileRecord) (records : List FileRecord)
      → get_file driver folder path db ≡ ok (some r)
      → r.is_deleted ≡ false
      → get_all_files driver folder db ≡ ok records
      → In r records × (r.relative_path ≡ normalize_path path)
  unfolding get_file get_all_files
  get_all_files-In folder path db r records found live listed =
      elim (Option-cases (find? (at_key folder (normalize_path path)) db.files)) [
        | inl e ↦ absurd (ground (arith, rw (e, get_file) at found))
        | inr (row, e) ↦
            let (m, here') = find?-In (at_key folder (normalize_path path)) db.files row e in
            let read : file_record driver row ≡ ok r = ground (arith, rw (e, get_file) at found) in
            let (_, same_path, same_flag) = file_record_fields row r read in
            let kept =
              In-filter_intro (λ (x : FileRow). x.folder_id == folder && not x.is_deleted) db.files
                row m (ground arith) in
            (
              file_records-In _ row r records
                  (In-sort_by (λ a b. Text.leb a.relative_path b.relative_path) row _ kept) read
                  listed,
              ground arith,
            )
      ]
