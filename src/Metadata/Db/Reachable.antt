-- ===== src/Metadata/Db/Reachable.antt =====
-- The databases that the operations of `MetadataDb` make out of an empty one.
use t_u_s_h_e_r.Base.{
  ℕ, ◌+◌, ◌≡◌, refl, sym, Bool, true, false, inl, inr, Option, List, [], ◌∷◌, map, arith, All-map,
  Bool-cases, Option-cases, any-append_mono, if◌then◌else◌, ◌==◌, nat_eq, bytes_eq, ok, >>=-eq-ok,
}
use mathlib.Core.Path.{subst}
use t_u_s_h_e_r.Base.Int.{ℤ}
use t_u_s_h_e_r.Base.Text.{Text}
use t_u_s_h_e_r.Core.Types.{NodeId}
use t_u_s_h_e_r.Core.Protocol.{SyncEvent, upsert, delete}
use t_u_s_h_e_r.Metadata.Models.{SharedFolder, FileRecord}
use t_u_s_h_e_r.Metadata.Tables.{EventRow, MetadataDb, has_folder, set_rows, upsert_file}
use t_u_s_h_e_r.Metadata.Tables.Valid.{
  IsValid, at_key-eq, set_rows-IsValid, insert_event-IsValid, upsert_file-IsValid,
}
use t_u_s_h_e_r.Metadata.Db.{
  Rusqlite, normalize_path, get_file, add_folder, file_row, next_version, log_once, log_change,
  local_event, tombstone, record_local_upsert, record_local_delete, delete_existing,
  apply_remote_upsert, apply_remote_delete,
}

-- Renaming a folder keeps its id.
any-rename :
    (new : SharedFolder) (id : Text) (folders : List SharedFolder)
    → has_folder
        (map
          (λ f.
            if f.folder_id == new.folder_id
            then record f { name = new.name; local_path = new.local_path }
            else f)
          folders)
        id
      ≡ has_folder folders id
any-rename new id [] = refl
any-rename new id (f ∷ folders) = ground (arith, any-rename new id folders)

has_folder-add :
    (folder : SharedFolder) (db : MetadataDb) (id : Text)
    → has_folder db.shared_folders id ≡ true
    → has_folder (add_folder folder db).shared_folders id ≡ true
unfolding add_folder
has_folder-add folder db id h = elim (Bool-cases (has_folder db.shared_folders folder.folder_id)) [
  | inl e ↦ rw (e, any-rename folder id db.shared_folders) h
  | inr e ↦ rw e (any-append_mono _ db.shared_folders (folder ∷ []) h)
]

add_folder-IsValid :
    (folder : SharedFolder) (db : MetadataDb) → IsValid db → IsValid (add_folder folder db)
unfolding add_folder
add_folder-IsValid folder db v = record {
  keys = v.keys;
  ids = v.ids;
  filed = All-map _ (λ r. has_folder-add folder db r.folder_id) db.files v.filed;
  logged = All-map _ (λ r. has_folder-add folder db r.folder_id) db.sync_events v.logged;
  ascending = v.ascending;
  positive = v.positive;
  bounded = v.bounded;
}

log_once-IsValid :
    (present : Bool) (row : ℕ → EventRow) (db : MetadataDb) {db' : MetadataDb}
    → ((n : ℕ) → (row n).event_seq ≡ n)
    → IsValid db
    → log_once present row db ≡ ok db'
    → IsValid db'
unfolding log_once
log_once-IsValid true row db numbered v e = subst IsValid (cc) v
log_once-IsValid false row db numbered v e = insert_event-IsValid row db numbered v e

apply_remote_upsert-IsValid :
    (now : ℤ) (ev : SyncEvent) (db : MetadataDb) {db' : MetadataDb}
    → IsValid db
    → apply_remote_upsert now ev db ≡ ok db'
    → IsValid db'
unfolding apply_remote_upsert
apply_remote_upsert-IsValid now ev db v e =
    let (mid, first, rest) = >>=-eq-ok _ _ e in
    log_once-IsValid _ _ mid (λ n. refl) (upsert_file-IsValid _ db v first) rest

tombstone-IsValid :
    (folder path : Text) (at modified : ℤ) (version : ℕ) (origin : NodeId) (db : MetadataDb)
    → IsValid db
    → IsValid
        (record db { files = set_rows folder path (tombstone at version modified origin) db.files })
tombstone-IsValid folder path at modified version origin db v =
    set_rows-IsValid folder path _ (at_key-eq folder path) db (λ r. refl) v

apply_remote_delete-IsValid :
    (now : ℤ) (ev : SyncEvent) (db : MetadataDb) {db' : MetadataDb}
    → IsValid db
    → apply_remote_delete now ev db ≡ ok db'
    → IsValid db'
unfolding apply_remote_delete
apply_remote_delete-IsValid now ev db v e =
    log_once-IsValid _ _ _ (λ n. refl)
      (tombstone-IsValid _ _ now ev.modified_at ev.version ev.origin_node_id db v) e

log_change-IsValid :
    (now : ℤ) (ev : ℕ → SyncEvent) (db : MetadataDb) {db' : MetadataDb} {logged : SyncEvent}
    → IsValid db
    → log_change now ev db ≡ ok (db', logged)
    → IsValid db'
unfolding log_change
log_change-IsValid now ev db v e =
    let (mid, first, rest) = >>=-eq-ok {B = MetadataDb × SyncEvent} _ _ e in
    subst IsValid (cc) (insert_event-IsValid _ db (λ n. refl) v first)

delete_existing-IsValid :
    (now : ℤ) (folder_id path : Text) (origin : NodeId) (existing : FileRecord) (db : MetadataDb)
    {db' : MetadataDb} {ev : Option SyncEvent}
    → IsValid db
    → delete_existing now folder_id path origin existing db ≡ ok (db', ev)
    → IsValid db'
unfolding delete_existing
delete_existing-IsValid now folder_id path origin existing db v e =
    let version = existing.version + 1 in
    let new =
      local_event delete folder_id existing.file_id path version 0 existing.content_hash origin
        now in
    let with_file : MetadataDb = record db {
      files = set_rows folder_id path (tombstone now version now origin) db.files;
    } in
    let (mid, first, rest) = >>=-eq-ok (log_change now new with_file) _ e in
    subst IsValid (cc) (
      log_change-IsValid now new with_file
        (tombstone-IsValid folder_id path now now version origin db v) first)

module _ (driver : Rusqlite) (now : ℤ) (folder_id path : Text) (origin : NodeId) where
  record_local_upsert-IsValid :
      (size : ℕ) (hash : Text) (db : MetadataDb) {db' : MetadataDb} {ev : SyncEvent}
      → IsValid db
      → record_local_upsert driver now folder_id path size hash origin db ≡ ok (db', ev)
      → IsValid db'
  unfolding record_local_upsert
  record_local_upsert-IsValid size hash db v e =
      let (existing, _, e₁) = >>=-eq-ok (get_file driver folder_id (normalize_path path) db) _ e in
      let (next, _, e₂) = >>=-eq-ok (next_version existing hash) _ e₁ in
      let new =
        local_event upsert folder_id next.0 (normalize_path path) next.1 size hash origin now in
      let (mid, first, e₃) = >>=-eq-ok (upsert_file (file_row (new 0)) db) _ e₂ in
      log_change-IsValid now new mid (upsert_file-IsValid _ db v first) e₃

  record_local_delete-IsValid :
      (db : MetadataDb) {db' : MetadataDb} {ev : Option SyncEvent}
      → IsValid db
      → record_local_delete driver now folder_id path origin db ≡ ok (db', ev)
      → IsValid db'
  unfolding record_local_delete
  record_local_delete-IsValid db {ev} v e =
      let (existing, _, e₁) = >>=-eq-ok (get_file driver folder_id (normalize_path path) db) _ e in
      elim (Option-cases existing) [
        | inl absent ↦ subst IsValid (ground arith) v
        | inr (f, found) ↦ elim (Bool-cases f.is_deleted) [
          | inl gone ↦ subst IsValid (ground arith) v
          | inr active ↦
              delete_existing-IsValid now folder_id (normalize_path path) origin f db {ev = ev} v
                (ground arith)
        ]
      ]

-- One successful operation on the database, whatever its arguments and the clock.
pub data Step (driver : Rusqlite) (db db' : MetadataDb) : Type 0 where
  add : (folder : SharedFolder) → db' ≡ add_folder folder db → Step driver db db'
  local_upsert :
      (now : ℤ) (folder_id path : Text) (size : ℕ) (hash : Text) (origin : NodeId) (ev : SyncEvent)
      → record_local_upsert driver now folder_id path size hash origin db ≡ ok (db', ev)
      → Step driver db db'
  local_delete :
      (now : ℤ) (folder_id path : Text) (origin : NodeId) (ev : Option SyncEvent)
      → record_local_delete driver now folder_id path origin db ≡ ok (db', ev)
      → Step driver db db'
  remote_upsert :
      (now : ℤ) (ev : SyncEvent) → apply_remote_upsert now ev db ≡ ok db' → Step driver db db'
  remote_delete :
      (now : ℤ) (ev : SyncEvent) → apply_remote_delete now ev db ≡ ok db' → Step driver db db'

pub data Reach (driver : Rusqlite) : MetadataDb → MetadataDb → Type 0 where
  here : (db : MetadataDb) → Reach driver db db
  next : {db mid db' : MetadataDb} → Reach driver db mid → Step driver mid db' → Reach driver db db'

pub Step-IsValid :
    (driver : Rusqlite) (db db' : MetadataDb) → Step driver db db' → IsValid db → IsValid db'
Step-IsValid driver db db' (add folder e) v = subst IsValid (sym e) (add_folder-IsValid folder db v)
Step-IsValid driver db db' (local_upsert now folder path size hash origin ev e) v =
    record_local_upsert-IsValid driver now folder path origin size hash db v e
Step-IsValid driver db db' (local_delete now folder path origin ev e) v =
    record_local_delete-IsValid driver now folder path origin db v e
Step-IsValid driver db db' (remote_upsert now ev e) v = apply_remote_upsert-IsValid now ev db v e
Step-IsValid driver db db' (remote_delete now ev e) v = apply_remote_delete-IsValid now ev db v e

-- `open_in_memory`: the schema without rows.
abbrev pub empty_db : MetadataDb
empty_db = record { shared_folders = []; files = []; sync_events = []; last_seq = 0 }

Reach-IsValid_from :
    {driver : Rusqlite} {db db' : MetadataDb} → Reach driver db db' → IsValid db → IsValid db'
Reach-IsValid_from (here db) v = v
Reach-IsValid_from {driver} (next {mid} {db'} r st) v =
    Step-IsValid driver mid db' st (Reach-IsValid_from r v)

-- Every database that successful operations make out of the empty one meets the constraints of the
-- schema: no two rows of `files` share a file id or a folder and path, every file and event belongs
-- to a registered folder, and the sequence numbers of the log are positive, strictly ascending and
-- not above the counter.
pub Reach-IsValid : {driver : Rusqlite} {db : MetadataDb} → Reach driver empty_db db → IsValid db
Reach-IsValid r = Reach-IsValid_from r (record {
  keys = tt;
  ids = tt;
  filed = tt;
  logged = tt;
  ascending = tt;
  positive = tt;
  bounded = tt;
})
