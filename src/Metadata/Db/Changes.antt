-- ===== src/Metadata/Db/Changes.antt =====
-- What the four changes of the catalog do: to the file, to every other file, and to the log.
use t_u_s_h_e_r.Base.{
  ℕ, ◌+◌, ◌^◌, ◌<◌, ◌≡◌, refl, sym, ◌∙◌, ◌≢◌, ◌⊎◌, Option, some, [], ◌∷◌, ◌++◌, arith, nat_eq,
  bytes_eq, ok, >>=-eq-ok,
}
use mathlib.Core.Path.{subst}
use t_u_s_h_e_r.Base.Int.{ℤ}
use t_u_s_h_e_r.Base.Text.{Text}
use t_u_s_h_e_r.Core.Types.{NodeId}
use t_u_s_h_e_r.Core.Protocol.{SyncEvent, upsert}
use t_u_s_h_e_r.Metadata.Models.{FileRecord}
use t_u_s_h_e_r.Metadata.Tables.{MetadataDb, upsert_file, insert_event}
use t_u_s_h_e_r.Metadata.Tables.Valid.{insert_event_ok, upsert_file_ok}
use t_u_s_h_e_r.Metadata.Db.{
  Rusqlite, normalize_path, get_file, file_row, event_row, next_version, log_change, local_event,
  commit_upsert, record_local_upsert,
}
use t_u_s_h_e_r.Metadata.Db.Lookup.{
  normalize_path_idem, find?-upsert_file_self, find?-upsert_file_other, record_of,
  file_record-file_row, get_file_files, get_file_found, insert_event-files,
}

-- The event that is logged, with the next sequence number, at the end of the log.
abbrev pub Logged : MetadataDb → MetadataDb → SyncEvent → ℤ → Type 0
Logged db db' ev now =
    (db'.sync_events ≡ db.sync_events ++ (event_row ev now (db.last_seq + 1) ∷ []))
    × (db'.last_seq ≡ db.last_seq + 1)

-- Another file than the one at a path of a folder.
abbrev pub OtherFile : Text → Text → Text → Text → Type 0
OtherFile f p folder_id path = (f ≢ folder_id) ⊎ (normalize_path p ≢ normalize_path path)

pub log_change_ok :
    (now : ℤ) (new : ℕ → SyncEvent) (db : MetadataDb) {db' : MetadataDb} {ev : SyncEvent}
    → log_change now new db ≡ ok (db', ev)
    → (db'.files ≡ db.files) × (ev ≡ new (db.last_seq + 1)) × Logged db db' (new 0) now
unfolding log_change
log_change_ok now new db e =
    let (mid, logged, rest) = >>=-eq-ok (insert_event (event_row (new 0) now) db) _ e in
    let (_, changed) = insert_event_ok _ db logged in
    (ground (arith, insert_event-files _ db logged), ground arith, (ground arith, ground arith))

pub get_file-normalize_path :
    (driver : Rusqlite) (f p : Text) (db : MetadataDb)
    → get_file driver f (normalize_path p) db ≡ get_file driver f p db
unfolding get_file
get_file-normalize_path driver f p db = ground (arith, normalize_path_idem p)

-- Every other file reads as before.
abbrev pub OthersKept : Rusqlite → Text → Text → MetadataDb → MetadataDb → Type 0
OthersKept driver folder_id path db db' =
    (f p : Text) → OtherFile f p folder_id path → get_file driver f p db' ≡ get_file driver f p db

module _ (driver : Rusqlite) where
  pub upsert_file-get_file :
      (ev : SyncEvent) (path : Text) (db mid db' : MetadataDb)
      → ev.relative_path ≡ normalize_path path
      → upsert_file (file_row ev) db ≡ ok mid
      → db'.files ≡ mid.files
      → ev.size_bytes < 2 ^ 63
      → ev.version < 2 ^ 63
      → (get_file driver ev.folder_id path db' ≡ ok (some (record_of ev)))
        × OthersKept driver ev.folder_id path db db'
  upsert_file-get_file ev path db mid db' at_path stored same hs hv = (
    get_file_found driver ev.folder_id path db' (file_row ev) (record_of ev)
        (rw (same, ← at_path) (find?-upsert_file_self (file_row ev) db stored))
        (file_record-file_row driver ev hs hv),
    λ f p other. get_file_files driver f p db db' (
        rw same (
          find?-upsert_file_other (file_row ev) db stored f (normalize_path p) (rw at_path other))),
  )

module _ (driver : Rusqlite) (now : ℤ) (folder_id path : Text) (origin : NodeId) where
  commit_upsert_ev :
      (id : Text) (version size : ℕ) (hash : Text) (db : MetadataDb) {db' : MetadataDb}
      {ev : SyncEvent}
      → let new =
          local_event upsert folder_id id (normalize_path path) version size hash origin now in
        commit_upsert now new db ≡ ok (db', ev) → ev ≡ new (db.last_seq + 1)
  unfolding commit_upsert
  commit_upsert_ev id version size hash db {db'} e =
      let new =
        local_event upsert folder_id id (normalize_path path) version size hash origin now in
      let (mid, stored, rest) = >>=-eq-ok (upsert_file (file_row (new 0)) db) _ e in
      let (_, _, changed) = upsert_file_ok (file_row (new 0)) db stored in
      let (_, numbered, _) = log_change_ok now new mid rest in ground arith

  commit_upsert_lem :
      (id : Text) (version size : ℕ) (hash : Text) (db : MetadataDb) {db' : MetadataDb}
      {ev : SyncEvent}
      → let new =
          local_event upsert folder_id id (normalize_path path) version size hash origin now in
        commit_upsert now new db ≡ ok (db', ev)
        → size < 2 ^ 63
        → version < 2 ^ 63
        → (ev ≡ new (db.last_seq + 1))
          × (get_file driver folder_id path db' ≡ ok (some (record_of (new 0))))
          × OthersKept driver folder_id path db db'
          × Logged db db' (new 0) now
  unfolding commit_upsert
  commit_upsert_lem id version size hash db {db'} e hs hv =
      let new =
        local_event upsert folder_id id (normalize_path path) version size hash origin now in
      let (mid, stored, rest) = >>=-eq-ok (upsert_file (file_row (new 0)) db) _ e in
      let (same, numbered, logged) = log_change_ok now new mid rest in
      let (_, _, changed) = upsert_file_ok (file_row (new 0)) db stored in
      let (found, others) =
        upsert_file-get_file driver (new 0) path db mid db' refl stored same hs hv in
      (ground arith, found, others, (ground arith, ground arith))

  local_event_of :
      {id : Text} {version size seq last : ℕ} {hash : Text} {ev : SyncEvent}
      → ev ≡ local_event upsert folder_id id (normalize_path path) version size hash origin now seq
      → seq ≡ last
      → ev
        ≡ local_event upsert folder_id ev.file_id
            (normalize_path path)
            ev.version
            size
            hash
            origin
            now
            last
  local_event_of {size = size} {hash = hash} e same = e ∙ (λ i.
      local_event upsert folder_id (sym e i).file_id (normalize_path path) (sym e i).version size
        hash origin now (same i))

  pub record_local_upsert_lem :
      (size : ℕ) (hash : Text) (db : MetadataDb) {db' : MetadataDb} {ev : SyncEvent}
      → record_local_upsert driver now folder_id path size hash origin db ≡ ok (db', ev)
      → size < 2 ^ 63
      → ev.version < 2 ^ 63
      → (existing : Option FileRecord) × (get_file driver folder_id path db ≡ ok existing)
        × (next_version existing hash ≡ ok (ev.file_id, ev.version))
        × (get_file driver folder_id path db' ≡ ok (some (record_of ev)))
        × OthersKept driver folder_id path db db'
        × Logged db db' ev now
        × (ev
            ≡ local_event upsert folder_id ev.file_id
                (normalize_path path)
                ev.version
                size
                hash
                origin
                now
                db'.last_seq)
  unfolding record_local_upsert
  record_local_upsert_lem size hash db {db'} {ev} e hs hv =
      let norm = normalize_path path in
      let (existing, found, e₁) = >>=-eq-ok (get_file driver folder_id norm db) _ e in
      let (next, versioned, e₂) = >>=-eq-ok (next_version existing hash) _ e₁ in
      let numbered = commit_upsert_ev next.0 next.1 size hash db e₂ in
      let (_, after, others, logged) =
        commit_upsert_lem next.0 next.1 size hash db e₂ hs
          (subst (λ x. x.version < 2 ^ 63) numbered hv) in
      (
        existing,
        sym (get_file-normalize_path driver folder_id path db) ∙ found,
        cc (versioned, numbered),
        cc (after, numbered),
        others,
        (cc (logged.0, numbered), logged.1),
        local_event_of numbered (sym logged.1),
      )

  pub record_local_upsert-next_version :
      (size : ℕ) (hash : Text) (db : MetadataDb) {db' : MetadataDb} {ev : SyncEvent}
      → record_local_upsert driver now folder_id path size hash origin db ≡ ok (db', ev)
      → (existing : Option FileRecord) × (get_file driver folder_id path db ≡ ok existing)
        × (next_version existing hash ≡ ok (ev.file_id, ev.version))
        × (ev.size_bytes ≡ size)
  unfolding record_local_upsert
  record_local_upsert-next_version size hash db {db'} {ev} e =
      let norm = normalize_path path in
      let (existing, found, e₁) = >>=-eq-ok (get_file driver folder_id norm db) _ e in
      let (next, versioned, e₂) = >>=-eq-ok (next_version existing hash) _ e₁ in
      let numbered = commit_upsert_ev next.0 next.1 size hash db e₂ in
      (
        existing,
        sym (get_file-normalize_path driver folder_id path db) ∙ found,
        cc (versioned, numbered),
        cc numbered,
      )
