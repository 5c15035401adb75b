-- ===== src/Tests/Catalog.antt =====
-- The catalog of crates/tusher-metadata at a folder with one file.
use t_u_s_h_e_r.Base.{
  ℕ, ◌+◌, ◌≤◌, ◌≡◌, refl, ◌≢◌, ◌⊎◌, false, Option, none, some, arith, any, nat_eq, bytes_eq,
  Outcome, ok, err,
}
use t_u_s_h_e_r.Base.Int.{ℤ, pos, negsuc, as_i64, int_eq}
use t_u_s_h_e_r.Base.Text.{Text, ascii, replace, trim_start_matches, slice_to}
use t_u_s_h_e_r.Base.FilePath.{file_name, file_stem, extension, parent}
use t_u_s_h_e_r.Core.Protocol.{SyncEvent, upsert, delete, sync_event_type_eq}
use t_u_s_h_e_r.Metadata.Models.{SharedFolder, FileRecord, up_to_date, conflict}
use t_u_s_h_e_r.Metadata.Tables.{MetadataDb, DbError, unique_failed, upsert_file, insert_event}
use t_u_s_h_e_r.Metadata.Tables.Valid.{IsValid}
use t_u_s_h_e_r.Metadata.Db.{
  Rusqlite, normalize_path, filename_of, add_folder, get_file, file_record, next_version, event_row,
  logged_upsert, normalized, local_event, record_local_upsert, record_local_delete,
  apply_remote_upsert, apply_remote_delete, log_once, delete_existing,
}
use t_u_s_h_e_r.Metadata.Db.Reachable.{here, next, add, local_upsert, empty_db, Reach-IsValid}
use t_u_s_h_e_r.Metadata.Db.Lookup.{record_of}
use t_u_s_h_e_r.Metadata.Db.Changes.{Logged, OthersKept, record_local_upsert_lem}
use t_u_s_h_e_r.Metadata.Db.Deletions.{deleted_record, record_local_delete_lem}
use t_u_s_h_e_r.Metadata.Db.Remote.{LoggedOnce, as_upsert, apply_remote_upsert_lem}
use t_u_s_h_e_r.Metadata.Db.Duplicates.{record_local_upsert_same_content}
use t_u_s_h_e_r.Metadata.Reconciler.{
  reconcile_event, reconcile_with, generate_conflict_path, download,
}
use t_u_s_h_e_r.Metadata.Reconciler.Decisions.{FastForward, reconcile_with_safe}
use t_u_s_h_e_r.Metadata.Service.{apply_reconciliation_action}
use t_u_s_h_e_r.Metadata.Service.Convergence.{
  Holds, reconcile_event-apply_download, apply_conflict_keeps_local,
}

read_u64 : ℤ → Option ℕ
read_u64 (pos n) = some n
read_u64 (negsuc n) = none

abbrev driver : Rusqlite
unfolding read_u64
driver = record { u64_column = read_u64; u64_column-pos = λ n. refl; u64_column-negsuc = λ n. refl }

-- What the operations run.
program : Unit {0}
unfolding read_u64 record_local_upsert record_local_delete apply_remote_upsert apply_remote_delete
    add_folder get_file file_record next_version normalize_path filename_of file_name replace
    trim_start_matches slice_to upsert_file insert_event bytes_eq nat_eq int_eq as_i64 log_once
    delete_existing sync_event_type_eq reconcile_event apply_reconciliation_action
    generate_conflict_path parent file_stem extension
program = tt

abbrev docs : SharedFolder
docs = record {
  folder_id = ascii "docs";
  name = ascii "Docs";
  local_path = ascii "/d";
  created_at = pos 1;
}

abbrev hash_a : Text
hash_a = ascii "aaaaaaaaaaaaaaaaaaaaaaaa"

abbrev hash_b : Text
hash_b = ascii "bbbbbbbbbbbbbbbbbbbbbbbb"

abbrev node : Text
node = ascii "tshr_one"

abbrev peer : Text
peer = ascii "tshr_two"

abbrev stamp : ℤ → Text
stamp z = ascii "20260101_000000"

with_docs : MetadataDb
unfolding program
with_docs = add_folder docs empty_db

-- `report.txt`, under a path with a backslash.
abbrev path : Text
path = ascii "\\sub\\report.txt"

abbrev first_event : SyncEvent
first_event =
    local_event upsert (ascii "docs") (ascii "f_aaaaaaaaaaaaaaaa") (ascii "sub/report.txt") 1 10
      hash_a node (pos 5) 1

recorded : Outcome DbError (MetadataDb × SyncEvent) → MetadataDb
recorded (ok (db, ev)) = db
recorded _ = empty_db

deleted_by : Outcome DbError (MetadataDb × Option SyncEvent) → MetadataDb
deleted_by (ok (db, ev)) = db
deleted_by _ = empty_db

one_file : MetadataDb
unfolding program recorded with_docs
one_file =
    recorded (record_local_upsert driver (pos 5) (ascii "docs") path 10 hash_a node with_docs)

first_record :
    record_local_upsert driver (pos 5) (ascii "docs") path 10 hash_a node with_docs
    ≡ ok (one_file, first_event)
unfolding program one_file
first_record = refl

Reach-IsValid_example : IsValid one_file
unfolding with_docs
Reach-IsValid_example = Reach-IsValid {driver = driver} (
    next (next (here empty_db) (add docs refl))
      (local_upsert (pos 5) (ascii "docs") path 10 hash_a node first_event first_record))

record_local_upsert_lem_example :
    (existing : Option FileRecord) × (get_file driver (ascii "docs") path with_docs ≡ ok existing)
    × (next_version existing hash_a ≡ ok (first_event.file_id, 1))
    × (get_file driver (ascii "docs") path one_file ≡ ok (some (record_of first_event)))
    × OthersKept driver (ascii "docs") path with_docs one_file
    × Logged with_docs one_file first_event (pos 5)
    × (first_event
        ≡ local_event upsert
            (ascii "docs")
            first_event.file_id
            (normalize_path path)
            1
            10
            hash_a
            node
            (pos 5)
            one_file.last_seq)
record_local_upsert_lem_example =
    record_local_upsert_lem driver (pos 5) (ascii "docs") path node 10 hash_a with_docs first_record
      (omega arith) (omega arith)

abbrev first_file : FileRecord
first_file = record_of first_event

first_file_found : get_file driver (ascii "docs") path one_file ≡ ok (some first_file)
unfolding program one_file
first_file_found = refl

deleted_file : MetadataDb
unfolding program deleted_by one_file
deleted_file = deleted_by (record_local_delete driver (pos 9) (ascii "docs") path node one_file)

abbrev delete_event : SyncEvent
delete_event =
    local_event delete (ascii "docs") first_file.file_id (ascii "sub/report.txt") 2 0 hash_a node
      (pos 9) 2

deletion :
    record_local_delete driver (pos 9) (ascii "docs") path node one_file
    ≡ ok (deleted_file, some delete_event)
unfolding program deleted_file
deletion = refl

record_local_delete_lem_example :
    (◌≡◌ {A = Option SyncEvent} (some delete_event) (some delete_event))
    × (get_file driver (ascii "docs") path deleted_file
        ≡ ok (some (deleted_record (pos 9) 2 (pos 9) node first_file)))
    × OthersKept driver (ascii "docs") path one_file deleted_file
    × Logged one_file deleted_file delete_event (pos 9)
unfolding program one_file
record_local_delete_lem_example =
    record_local_delete_lem driver (pos 9) (ascii "docs") path node one_file first_file
      first_file_found refl deletion (omega arith)

-- An edit by another node, later and of a higher version.
abbrev edit : SyncEvent
edit = record first_event {
  event_seq = 7;
  version = 2;
  content_hash = hash_b;
  size_bytes = 12;
  origin_node_id = peer;
  modified_at = pos 8;
}

-- An edit that was made without knowing the version of `one_file`.
abbrev concurrent : SyncEvent
concurrent = record edit { version = 1 }

the_db : Outcome DbError MetadataDb → MetadataDb
the_db (ok db) = db
the_db _ = empty_db

edited : MetadataDb
unfolding program the_db one_file
edited = the_db (apply_remote_upsert (pos 20) edit one_file)

apply_remote_upsert_lem_example :
    (get_file driver (ascii "docs") (ascii "sub/report.txt") edited
      ≡ ok (some (record_of (normalized edit))))
    × OthersKept driver (ascii "docs") (ascii "sub/report.txt") one_file edited
    × LoggedOnce
        (any (logged_upsert (as_upsert edit)) one_file.sync_events)
        one_file
        edited
        (event_row (as_upsert edit) (pos 20) (one_file.last_seq + 1))
unfolding program edited
apply_remote_upsert_lem_example =
    apply_remote_upsert_lem driver (pos 20) edit one_file refl (omega arith) (omega arith)

abbrev removal : SyncEvent
removal = record edit { event_type = delete; size_bytes = 0 }

removed : MetadataDb
unfolding program the_db one_file
removed = the_db (apply_remote_delete (pos 20) removal one_file)

-- A copy of the file under another name cannot be recorded.
record_local_upsert_same_content_example :
    record_local_upsert driver (pos 6) (ascii "docs") (ascii "copy.txt") 10 hash_a node one_file
    ≡ err unique_failed
unfolding program one_file
record_local_upsert_same_content_example =
    record_local_upsert_same_content driver (ascii "docs") node (pos 5) (pos 6) path
      (ascii "copy.txt") 10 10 hash_a with_docs refl first_record (ground (arith)) refl

reconcile_with_safe_example :
    ((edit.event_type ≡ upsert)
      × (first_file.content_hash ≢ edit.content_hash)
      × FastForward first_file edit)
    ⊎ ((edit.event_type ≡ delete) × (first_file.version ≤ edit.version))
unfolding program reconcile_with
reconcile_with_safe_example =
    reconcile_with_safe stamp first_file edit {action = download edit} refl refl refl

abbrev copy_path : Text
copy_path = ascii "sub/report (Conflict - tshr_two 20260101_000000).txt"

conflict_name_test :
    generate_conflict_path stamp (ascii "sub/report.txt") peer (pos 8) ≡ ok copy_path
unfolding program
conflict_name_test = refl

downloaded : MetadataDb
unfolding program the_db one_file
downloaded = the_db (apply_reconciliation_action (pos 30) (download edit) one_file)

reconcile_event-apply_download_example :
    Holds stamp driver (pos 30) edit downloaded
    × (reconcile_event stamp driver downloaded edit ≡ ok (up_to_date edit.file_id 2))
unfolding program downloaded
reconcile_event-apply_download_example =
    reconcile_event-apply_download stamp driver (pos 30) edit one_file refl (omega arith)
      (omega arith) refl

branched : MetadataDb
unfolding program the_db one_file
branched = the_db (
    apply_reconciliation_action (pos 30)
      (conflict (ascii "docs") concurrent.file_id (ascii "sub/report.txt") copy_path 12 hash_b 1
        peer)
      one_file)

apply_conflict_keeps_local_example :
    (get_file driver (ascii "docs") (ascii "sub/report.txt") branched
      ≡ get_file driver (ascii "docs") (ascii "sub/report.txt") one_file)
    × OthersKept driver (ascii "docs") copy_path one_file branched
    × ((copy : FileRecord) × (get_file driver (ascii "docs") copy_path branched ≡ ok (some copy))
        × (copy.content_hash ≡ hash_b)
        × (copy.size_bytes ≡ concurrent.size_bytes)
        × (copy.version ≡ 1)
        × (copy.origin_node_id ≡ concurrent.origin_node_id)
        × (copy.is_deleted ≡ false))
unfolding program branched
apply_conflict_keeps_local_example =
    apply_conflict_keeps_local stamp driver (pos 30) concurrent one_file (ascii "sub/report.txt")
      copy_path (ground arith) (omega arith) (omega arith) refl
