-- ===== src/Metadata/Db/Lookup.antt =====
-- What a lookup finds after a change: read your writes, and nothing else changes.
use t_u_s_h_e_r.Base.{
  ℕ, ◌^◌, ◌<◌, ◌≡◌, refl, sym, ◌∙◌, ◌≢◌, Bool, true, false, inl, inr, ◌⊎◌, none, some, List, [],
  ◌∷◌, ◌++◌, arith, any, find?, All, Bool-cases, ◌==◌, nat_eq, bytes_eq, ok,
}
use mathlib.Core.Path.{subst}
use t_u_s_h_e_r.Base.Int.{as_i64_small}
use t_u_s_h_e_r.Base.Text.{Text, slash, backslash, replace, trim_start_matches}
use t_u_s_h_e_r.Core.Protocol.{SyncEvent}
use t_u_s_h_e_r.Metadata.Models.{FileRecord}
use t_u_s_h_e_r.Metadata.Tables.{
  FileRow, EventRow, MetadataDb, at_key, set_rows, upsert_file, insert_event,
}
use t_u_s_h_e_r.Metadata.Tables.Valid.{KeepsKey, upsert_file_ok, insert_event_ok, at_key-eq}
use t_u_s_h_e_r.Metadata.Db.{
  Rusqlite, normalize_path, get_file, file_record, file_row, filename_of, log_once,
}

-- No backslash occurs.
abbrev Plain : Text → Type 0
Plain = All (λ c. c ≢ backslash)

replace-Plain : (s : Text) → Plain (replace backslash slash s)
unfolding replace
replace-Plain [] = tt
replace-Plain (c ∷ s) = (ground arith, replace-Plain s)

trim-Plain : (s : Text) → Plain s → Plain (trim_start_matches slash s)
unfolding trim_start_matches
trim-Plain [] h = tt
trim-Plain (c ∷ s) h = elim (Bool-cases (c == slash)) [
  | inl e ↦ rw e (trim-Plain s h.1)
  | inr e ↦ rw e h
]

replace_fixed : (s : Text) → Plain s → replace backslash slash s ≡ s
unfolding replace
replace_fixed [] h = refl
replace_fixed (c ∷ s) (hc, h) = ground (arith, replace_fixed s h)

trim_idem :
    (s : Text) → trim_start_matches slash (trim_start_matches slash s) ≡ trim_start_matches slash s
unfolding trim_start_matches
trim_idem [] = refl
trim_idem (c ∷ s) = ground (arith, trim_idem s)

-- Normalising a path a second time changes nothing.
pub normalize_path_idem : (p : Text) → normalize_path (normalize_path p) ≡ normalize_path p
unfolding normalize_path
normalize_path_idem p =
    rw
      (replace_fixed (trim_start_matches slash (replace backslash slash p))
        (trim-Plain _ (replace-Plain p)))
      (trim_idem _)

module _ (folder path : Text) (g : FileRow → FileRow) (keeps : KeepsKey folder path g) where
  pub find?-set_rows_self :
      (rows : List FileRow)
      → any (at_key folder path) rows ≡ true
      → (r : FileRow) × (find? (at_key folder path) rows ≡ some r)
        × (find? (at_key folder path) (set_rows folder path g rows) ≡ some (g r))
  find?-set_rows_self [] h = cc
  find?-set_rows_self (r ∷ rows) h = elim (Bool-cases (at_key folder path r)) [
    | inl e ↦ (r, rw e, ground (arith, keeps r))
    | inr e ↦
        let (r', found, changed) = find?-set_rows_self rows (ground arith) in
        (r', rw e found, ground arith)
  ]

  pub find?-set_rows-some :
      (rows : List FileRow) (r : FileRow)
      → find? (at_key folder path) rows ≡ some r
      → find? (at_key folder path) (set_rows folder path g rows) ≡ some (g r)
  find?-set_rows-some [] r h = cc
  find?-set_rows-some (r' ∷ rows) r h =
      ground (arith, find?-set_rows-some rows r, keeps r', at_key-eq folder path r')

  pub find?-set_rows_other :
      (f p : Text) (rows : List FileRow)
      → (f ≢ folder) ⊎ (p ≢ path)
      → find? (at_key f p) (set_rows folder path g rows) ≡ find? (at_key f p) rows
  find?-set_rows_other f p [] h = refl
  find?-set_rows_other f p (r ∷ rows) h =
      ground
        (arith, find?-set_rows_other f p rows h, keeps r, at_key-eq folder path r, at_key-eq f p r)

find?-append_absent {ℓ} :
    {A : Type ℓ} (p : A → Bool) (xs : List A) (y : A)
    → any p xs ≡ false
    → find? p (xs ++ (y ∷ [])) ≡ find? p (y ∷ [])
find?-append_absent p [] y h = refl
find?-append_absent p (x ∷ xs) y h = ground (arith, find?-append_absent p xs y)

find?-append_other {ℓ} :
    {A : Type ℓ} (p : A → Bool) (xs : List A) (y : A)
    → p y ≡ false
    → find? p (xs ++ (y ∷ [])) ≡ find? p xs
find?-append_other p [] y h = rw h
find?-append_other p (x ∷ xs) y h = ground (arith, find?-append_other p xs y)

module _ (new : FileRow) (db : MetadataDb) {db' : MetadataDb}
    (done : upsert_file new db ≡ ok db') where
  pub find?-upsert_file_self : find? (at_key new.folder_id new.relative_path) db'.files ≡ some new
  find?-upsert_file_self =
      let (_, _, changed) = upsert_file_ok new db done in
      subst (λ d. find? (at_key new.folder_id new.relative_path) d.files ≡ some new) (sym changed)
        (elim (Bool-cases (any (at_key new.folder_id new.relative_path) db.files)) [
          | inl found ↦
              rw found
                (find?-set_rows_self new.folder_id new.relative_path (λ r. new)
                  (λ r h. (refl, refl)) db.files found).2
          | inr absent ↦ rw absent (find?-append_absent _ db.files new absent ∙ ground arith)
        ])

  pub find?-upsert_file_other :
      (f p : Text)
      → (f ≢ new.folder_id) ⊎ (p ≢ new.relative_path)
      → find? (at_key f p) db'.files ≡ find? (at_key f p) db.files
  find?-upsert_file_other f p other =
      let (_, _, changed) = upsert_file_ok new db done in
      subst (λ d. find? (at_key f p) d.files ≡ find? (at_key f p) db.files) (sym changed)
        (elim (Bool-cases (any (at_key new.folder_id new.relative_path) db.files)) [
          | inl found ↦ rw found (
              find?-set_rows_other new.folder_id new.relative_path (λ r. new) (λ r h. (refl, refl))
                f p db.files other)
          | inr absent ↦ rw absent (find?-append_other (at_key f p) db.files new (ground arith))
        ])

-- What `get_file` reads of the row that an upsert of the event wrote.
abbrev pub record_of : SyncEvent → FileRecord
record_of ev = record {
  file_id = ev.file_id;
  folder_id = ev.folder_id;
  relative_path = ev.relative_path;
  filename = filename_of ev.relative_path;
  size_bytes = ev.size_bytes;
  content_hash = ev.content_hash;
  version = ev.version;
  origin_node_id = ev.origin_node_id;
  modified_at = ev.modified_at;
  is_deleted = false;
  tombstone_at = none;
}

module _ (driver : Rusqlite) where
  pub file_record-file_row :
      (ev : SyncEvent)
      → ev.size_bytes < 2 ^ 63
      → ev.version < 2 ^ 63
      → file_record driver (file_row ev) ≡ ok (record_of ev)
  unfolding file_record
  file_record-file_row ev hs hv =
      rw (as_i64_small ev.size_bytes hs, as_i64_small ev.version hv)
        (ground (arith, driver.u64_column-pos ev.size_bytes, driver.u64_column-pos ev.version))

  -- A lookup depends on the rows of the file table alone.
  pub get_file_files :
      (f p : Text) (db db' : MetadataDb)
      → find? (at_key f (normalize_path p)) db'.files ≡ find? (at_key f (normalize_path p)) db.files
      → get_file driver f p db' ≡ get_file driver f p db
  unfolding get_file
  get_file_files f p db db' e = rw (e, get_file)

  pub get_file_found :
      (f p : Text) (db : MetadataDb) (row : FileRow) (r : FileRecord)
      → find? (at_key f (normalize_path p)) db.files ≡ some row
      → file_record driver row ≡ ok r
      → get_file driver f p db ≡ ok (some r)
  unfolding get_file
  get_file_found f p db row r e k = ground arith

pub insert_event-files :
    (row : ℕ → EventRow) (db : MetadataDb) {db' : MetadataDb}
    → insert_event row db ≡ ok db'
    → db'.files ≡ db.files
insert_event-files row db e = ground (arith, (insert_event_ok row db e).1)

pub log_once-files :
    (present : Bool) (row : ℕ → EventRow) (db : MetadataDb) {db' : MetadataDb}
    → log_once present row db ≡ ok db'
    → db'.files ≡ db.files
unfolding log_once
log_once-files true row db e = ground arith
log_once-files false row db e = insert_event-files row db e
