-- ===== src/Metadata/Db/Duplicates.antt =====
-- Two files with one content: the file id is made of the content hash, and the second is refused.
use t_u_s_h_e_r.Base.{
  ℕ, ◌≡◌, refl, sym, ◌≢◌, Bool, true, none, some, List, [], ◌∷◌, arith, any, find?, nat_eq,
  bytes_eq, ok, err, >>=-eq-ok,
}
use mathlib.Core.Path.{subst}
use t_u_s_h_e_r.Base.Int.{ℤ}
use t_u_s_h_e_r.Base.Text.{Text}
use t_u_s_h_e_r.Core.Types.{NodeId}
use t_u_s_h_e_r.Core.Protocol.{SyncEvent, upsert}
use t_u_s_h_e_r.Metadata.Tables.{FileRow, MetadataDb, at_key, has_folder, upsert_file, insert_event}
use t_u_s_h_e_r.Metadata.Tables.Valid.{insert_event_ok, upsert_file_ok}
use t_u_s_h_e_r.Metadata.Db.{
  Rusqlite, normalize_path, get_file, file_row, event_row, next_version, local_event,
  record_local_upsert,
}
use t_u_s_h_e_r.Metadata.Db.Lookup.{find?-upsert_file_self}
use t_u_s_h_e_r.Metadata.Db.Changes.{get_file-normalize_path}
use t_u_s_h_e_r.Metadata.Tables.{unique_failed, id_taken}

any-of_find {ℓ} :
    {A : Type ℓ} (p q : A → Bool) (xs : List A) (y : A)
    → find? p xs ≡ some y
    → q y ≡ true
    → any q xs ≡ true
any-of_find p q [] y h k = cc
any-of_find p q (x ∷ xs) y h k = ground (arith, any-of_find p q xs y)

upsert_file_taken :
    (new : FileRow) (db : MetadataDb)
    → has_folder db.shared_folders new.folder_id ≡ true
    → id_taken new db.files ≡ true
    → upsert_file new db ≡ err unique_failed
unfolding upsert_file
upsert_file_taken new db known taken = ground arith

module _ (driver : Rusqlite) (folder_id : Text) (origin : NodeId) where
  -- What a first record of a file leaves in the tables.
  recorded_row :
      (now : ℤ) (p : Text) (size : ℕ) (hash : Text) (db : MetadataDb) {db' : MetadataDb}
      {ev : SyncEvent}
      → get_file driver folder_id p db ≡ ok none
      → record_local_upsert driver now folder_id p size hash origin db ≡ ok (db', ev)
      → (next : Text × ℕ) × (row : FileRow) × (next_version none hash ≡ ok next)
        × (find? (at_key folder_id (normalize_path p)) db'.files ≡ some row)
        × (row.file_id ≡ next.0)
        × (row.relative_path ≡ normalize_path p)
        × (has_folder db'.shared_folders folder_id ≡ true)
  unfolding record_local_upsert
  recorded_row now p size hash db {db'} new_p e =
      let norm = normalize_path p in
      let (existing, found, e₁) = >>=-eq-ok (get_file driver folder_id norm db) _ e in
      let (next, versioned, e₂) = >>=-eq-ok (next_version existing hash) _ e₁ in
      let new = local_event upsert folder_id next.0 norm next.1 size hash origin now in
      let (mid, stored, e₃) = >>=-eq-ok (upsert_file (file_row (new 0)) db) _ e₂ in
      let (last, logged, e₄) = >>=-eq-ok (insert_event (event_row (new 0) now) mid) _ e₃ in
      let (known, _, changed) = upsert_file_ok (file_row (new 0)) db stored in
      let (_, grown) = insert_event_ok (event_row (new 0) now) mid logged in
      let at_db' : last ≡ db' = cc e₄ in
      let fresh : existing ≡ none =
        cc (found, new_p, get_file-normalize_path driver folder_id p db) in
      (
        next,
        file_row (new 0),
        subst (λ x. next_version x hash ≡ ok next) fresh versioned,
        subst (λ d. find? (at_key folder_id norm) d.files ≡ some (file_row (new 0))) at_db'
            (subst (λ d. find? (at_key folder_id norm) d.files ≡ some (file_row (new 0)))
              (sym grown) (find?-upsert_file_self (file_row (new 0)) db stored)),
        refl,
        refl,
        subst (λ d. has_folder d.shared_folders folder_id ≡ true) at_db'
            (subst (λ d. has_folder d.shared_folders folder_id ≡ true) (sym grown)
              (subst (λ d. has_folder d.shared_folders folder_id ≡ true) (sym changed) known)),
      )

  taken_again :
      (now : ℤ) (q : Text) (size : ℕ) (hash : Text) (db : MetadataDb) (path : Text) (row : FileRow)
      (next : Text × ℕ)
      → get_file driver folder_id q db ≡ ok none
      → next_version none hash ≡ ok next
      → find? (at_key folder_id path) db.files ≡ some row
      → row.file_id ≡ next.0
      → row.relative_path ≡ path
      → normalize_path q ≢ path
      → has_folder db.shared_folders folder_id ≡ true
      → record_local_upsert driver now folder_id q size hash origin db ≡ err unique_failed
  unfolding record_local_upsert
  taken_again now q size hash db path row next new_q versioned found id at_path differ known =
      let new =
        file_row
          (local_event upsert folder_id next.0 (normalize_path q) next.1 size hash origin now 0) in
      let taken : id_taken new db.files ≡ true =
        any-of_find (at_key folder_id path) _ db.files row found (ground arith) in
      rw (
        get_file-normalize_path driver folder_id q db,
        new_q,
        versioned,
        upsert_file_taken new db known taken,
      )

  -- Let a file be recorded that the catalog lacked before, so that its id is made of the content
  -- hash. Recording another file of the folder with the same content right after it, which the
  -- catalog lacks as well, then fails: that id is the primary key of the first row.
  pub record_local_upsert_same_content :
      (now now' : ℤ) (p q : Text) (size size' : ℕ) (hash : Text) (db : MetadataDb)
      {db' : MetadataDb} {ev : SyncEvent}
      → get_file driver folder_id p db ≡ ok none
      → record_local_upsert driver now folder_id p size hash origin db ≡ ok (db', ev)
      → normalize_path q ≢ normalize_path p
      → get_file driver folder_id q db' ≡ ok none
      → record_local_upsert driver now' folder_id q size' hash origin db' ≡ err unique_failed
  unfolding record_local_upsert
  record_local_upsert_same_content now now' p q size size' hash db {db'} new_p e differ new_q =
      let (next, row, versioned, found, id, at_path, known) =
        recorded_row now p size hash db new_p e in
      taken_again now' q size' hash db' (normalize_path p) row next new_q versioned found id at_path
        differ known
