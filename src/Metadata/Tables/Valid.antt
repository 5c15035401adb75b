-- ===== src/Metadata/Tables/Valid.antt =====
-- The constraints of the schema as an invariant of the tables, kept by every statement.
use t_u_s_h_e_r.Base.{
  ℕ, ◌+◌, ◌≤◌, ◌<◌, ◌≡◌, refl, sym, ◌≢◌, Bool, true, false, inl, inr, List, [], ◌∷◌, ◌++◌, arith,
  any, All, Pairwise, Bool-cases, All-append, All-map, All-image, All-zip, Pairwise-zip,
  Pairwise-append_one, Pairwise-map, Pairwise-with-All, any-eq-false, if◌then◌else◌, ◌==◌, nat_eq,
  bytes_eq, ok,
}
use mathlib.Core.Path.{subst}
use t_u_s_h_e_r.Base.Text.{Text}
use t_u_s_h_e_r.Metadata.Models.{SharedFolder}
use t_u_s_h_e_r.Metadata.Tables.{
  FileRow, EventRow, MetadataDb, at_key, has_folder, id_taken, set_rows, upsert_file, insert_event,
}

-- UNIQUE (folder_id, relative_path)
abbrev pub OtherKey : FileRow → FileRow → Type 0
OtherKey a b = at_key a.folder_id a.relative_path b ≡ false

-- file_id TEXT PRIMARY KEY
abbrev pub OtherId : FileRow → FileRow → Type 0
OtherId a b = a.file_id ≢ b.file_id

abbrev pub Earlier : EventRow → EventRow → Type 0
Earlier a b = a.event_seq < b.event_seq

pub record IsValid (db : MetadataDb) : Type 0 where
  pub keys : Pairwise OtherKey db.files
  pub ids : Pairwise OtherId db.files
  pub filed : All (λ r. has_folder db.shared_folders r.folder_id ≡ true) db.files
  pub logged : All (λ r. has_folder db.shared_folders r.folder_id ≡ true) db.sync_events
  pub ascending : Pairwise Earlier db.sync_events
  pub positive : All (λ r. 1 ≤ r.event_seq) db.sync_events
  pub bounded : All (λ r. r.event_seq ≤ db.last_seq) db.sync_events

pub at_key-eq :
    (folder path : Text) (r : FileRow)
    → at_key folder path r ≡ true
    → (r.folder_id ≡ folder) × (r.relative_path ≡ path)
at_key-eq folder path r h = ground arith

-- A change that leaves a row of the key at that key.
abbrev pub KeepsKey : Text → Text → (FileRow → FileRow) → Type 0
KeepsKey folder path f =
    (r : FileRow)
    → at_key folder path r ≡ true
    → ((f r).folder_id ≡ folder) × ((f r).relative_path ≡ path)

module _ (folder path : Text) (f : FileRow → FileRow) (keeps : KeepsKey folder path f) where
  abbrev update : FileRow → FileRow
  update r = if at_key folder path r then f r else r

  update_key :
      (r : FileRow)
      → ((update r).folder_id ≡ r.folder_id) × ((update r).relative_path ≡ r.relative_path)
  update_key r = ground (arith, keeps r, at_key-eq folder path r)

  set_rows-OtherKey :
      (rows : List FileRow)
      → Pairwise OtherKey rows
      → Pairwise OtherKey (set_rows folder path f rows)
  set_rows-OtherKey =
      Pairwise-map OtherKey OtherKey update
        λ a b h. let (fa, pa) = update_key a in let (fb, pb) = update_key b in rw (fa, pa, fb, pb) h

  set_rows-OtherId :
      ((r : FileRow) → (f r).file_id ≡ r.file_id)
      → (rows : List FileRow) → Pairwise OtherId rows
      → Pairwise OtherId (set_rows folder path f rows)
  set_rows-OtherId same =
      Pairwise-map OtherId OtherId update λ a b h. ground (arith, same a, same b)

  set_rows-filed :
      (folders : List SharedFolder) (rows : List FileRow)
      → All (λ r. has_folder folders r.folder_id ≡ true) rows
      → All (λ r. has_folder folders r.folder_id ≡ true) (set_rows folder path f rows)
  set_rows-filed folders rows h =
      All-image (λ r. has_folder folders r.folder_id ≡ true) update rows
        (All-map P {Q = λ r. P (update r)} (λ r k. rw ((update_key r).0) k) rows h)
    where
      P : FileRow → Type 0
      P r = has_folder folders r.folder_id ≡ true

  -- UPDATE files keeps the constraints.
  pub set_rows-IsValid :
      (db : MetadataDb)
      → ((r : FileRow) → (f r).file_id ≡ r.file_id)
      → IsValid db
      → IsValid (record db { files = set_rows folder path f db.files })
  set_rows-IsValid db same v = record {
    keys = set_rows-OtherKey db.files v.keys;
    ids = set_rows-OtherId same db.files v.ids;
    filed = set_rows-filed db.shared_folders db.files v.filed;
    logged = v.logged;
    ascending = v.ascending;
    positive = v.positive;
    bounded = v.bounded;
  }

-- What the success of the two insertions means.
pub insert_event_ok :
    (row : ℕ → EventRow) (db : MetadataDb) {db' : MetadataDb}
    → insert_event row db ≡ ok db'
    → (has_folder db.shared_folders (row (db.last_seq + 1)).folder_id ≡ true)
      × (db' ≡ record db {
        sync_events = db.sync_events ++ (row (db.last_seq + 1) ∷ []);
        last_seq = db.last_seq + 1;
      })
unfolding insert_event
insert_event_ok row db e = ground arith

pub upsert_file_ok :
    (new : FileRow) (db : MetadataDb) {db' : MetadataDb}
    → upsert_file new db ≡ ok db'
    → (has_folder db.shared_folders new.folder_id ≡ true)
      × (id_taken new db.files ≡ false)
      × (db' ≡ record db {
        files =
            if any (at_key new.folder_id new.relative_path) db.files
            then set_rows new.folder_id new.relative_path (λ r. new) db.files
            else db.files ++ (new ∷ []);
      })
unfolding upsert_file
upsert_file_ok new db e = ground arith

-- INSERT INTO sync_events keeps the constraints.
pub insert_event-IsValid :
    (row : ℕ → EventRow) (db : MetadataDb) {db' : MetadataDb}
    → ((n : ℕ) → (row n).event_seq ≡ n)
    → IsValid db
    → insert_event row db ≡ ok db'
    → IsValid db'
insert_event-IsValid row db numbered v e =
    let (known, changed) = insert_event_ok row db e in
    let seq = db.last_seq + 1 in
    subst IsValid (sym changed) (record {
      keys = v.keys;
      ids = v.ids;
      filed = v.filed;
      logged = All-append _ db.sync_events (row seq ∷ []) v.logged (known, tt);
      ascending =
          Pairwise-append_one Earlier db.sync_events (row seq) v.ascending
            (All-map _ (λ r h. rw (numbered seq) (omega arith)) db.sync_events v.bounded);
      positive =
          All-append _ db.sync_events (row seq ∷ []) v.positive
            (rw (numbered seq) (omega arith), tt);
      bounded =
          All-append _ db.sync_events (row seq ∷ [])
            (All-map _ (λ r h. omega arith) db.sync_events v.bounded)
            (rw (numbered seq) (omega arith), tt);
    })

module _ (new : FileRow) where
  abbrev key_test : FileRow → Bool
  key_test = at_key new.folder_id new.relative_path

  abbrev Free : FileRow → Type 0
  Free r = (if key_test r then false else r.file_id == new.file_id) ≡ false

  replaced-OtherId :
      (rows : List FileRow)
      → Pairwise OtherKey rows
      → Pairwise OtherId rows
      → All Free rows
      → Pairwise OtherId (set_rows new.folder_id new.relative_path (λ r. new) rows)
  replaced-OtherId rows ks is free =
      Pairwise-map (λ a b. (OtherKey a b × OtherId a b) × Free a × Free b) OtherId _
        (λ a b h. ground arith) rows
        (Pairwise-with-All (λ a b. OtherKey a b × OtherId a b) Free rows
          (Pairwise-zip OtherKey OtherId rows ks is) free)

  appended-keys :
      (rows : List FileRow) → All (λ r. key_test r ≡ false) rows → All (λ r. OtherKey r new) rows
  appended-keys = All-map _ λ r h. ground arith

  appended-ids :
      (rows : List FileRow)
      → All (λ r. key_test r ≡ false) rows
      → All Free rows
      → All (λ r. OtherId r new) rows
  appended-ids rows absent free =
      All-map (λ r. (key_test r ≡ false) × Free r) (λ r h. ground arith) rows
        (All-zip (λ r. key_test r ≡ false) Free rows absent free)

  -- INSERT INTO files … ON CONFLICT keeps the constraints.
  pub upsert_file-IsValid :
      (db : MetadataDb) {db' : MetadataDb} → IsValid db → upsert_file new db ≡ ok db' → IsValid db'
  upsert_file-IsValid db v e =
      let (known, fresh, changed) = upsert_file_ok new db e in
      let free = any-eq-false _ db.files fresh in
      subst IsValid (sym changed) (elim (Bool-cases (any key_test db.files)) [
        | inl found ↦ rw found (record {
          keys =
              set_rows-OtherKey new.folder_id new.relative_path (λ r. new) (λ r h. (refl, refl))
                db.files v.keys;
          ids = replaced-OtherId db.files v.keys v.ids free;
          filed =
              set_rows-filed new.folder_id new.relative_path (λ r. new) (λ r h. (refl, refl))
                db.shared_folders db.files v.filed;
          logged = v.logged;
          ascending = v.ascending;
          positive = v.positive;
          bounded = v.bounded;
        })
        | inr absent ↦
            let none_there = any-eq-false key_test db.files absent in
            rw absent (record {
              keys =
                  Pairwise-append_one OtherKey db.files new v.keys
                    (appended-keys db.files none_there);
              ids =
                  Pairwise-append_one OtherId db.files new v.ids
                    (appended-ids db.files none_there free);
              filed = All-append _ db.files (new ∷ []) v.filed (known, tt);
              logged = v.logged;
              ascending = v.ascending;
              positive = v.positive;
              bounded = v.bounded;
            })
      ])
