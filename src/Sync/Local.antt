-- ===== src/Sync/Local.antt =====
-- The rest of crates/tusher-sync/src/coordinator.rs: `new`, `register_folder`, `initial_scan`, and
-- the bodies of the tasks of `start`. What walkdir lists is an argument, and an ignored error is
-- `ok`. The folders are there, and notify can watch them.
pub mod Echo
pub mod Scan
pub mod Entries
pub mod Rescan
pub mod Folders
use t_u_s_h_e_r.Base.{
  ℕ, ◌≡◌, Bool, true, false, not, ◌&&◌, ◌||◌, Option, none, some, List, [], ◌∷◌, map, length,
  if◌then◌else◌, ◌==◌, nat_eq, bytes_eq, Outcome, ok, err, panic,
}
use t_u_s_h_e_r.Base.Int.{ℤ}
use t_u_s_h_e_r.Base.Text.{Text, slice_to}
use t_u_s_h_e_r.Base.FilePath.{Component, normal, file_name, strip_prefix, join}
use t_u_s_h_e_r.Base.Assoc.{get, put}
use t_u_s_h_e_r.Core.Types.{NodeId}
use t_u_s_h_e_r.Core.Protocol.{sync_notify, folder_list_req, folder_list_resp}
use t_u_s_h_e_r.Metadata.Models.{FileRecord}
use t_u_s_h_e_r.Metadata.Tables.{MetadataDb, DbError}
use t_u_s_h_e_r.Metadata.Db.{Rusqlite, get_file, record_local_upsert, record_local_delete}
use t_u_s_h_e_r.Metadata.Service.{add_folder}
use t_u_s_h_e_r.Transfer.Hash.{Sha256, hash_file}
use t_u_s_h_e_r.Transfer.Receiver.{
  Node, TransferCompletedInfo, register_folder_destination, set_completion_channel,
}
use t_u_s_h_e_r.Sync.Watcher.{
  FsChangeEvent, upsert, delete, new_watcher, should_ignore_path, normalize_relative_path,
}
use t_u_s_h_e_r.Sync.Watcher
use t_u_s_h_e_r.Sync.State.{
  SyncError, database, Coordinator, broadcast, copies, suppress, folder_infos, trigger_sync,
}
use t_u_s_h_e_r.Sync.Reconcile.{◌then?◌, ignoring_error}

abbrev Step : Type 0
Step = Coordinator × Outcome SyncError (Unit {0})

unfoldable pub new_coordinator : NodeId → MetadataDb → Node → ℕ → Coordinator
new_coordinator node_id metadata transfer debounce_duration = record {
  node_id = node_id;
  db = metadata;
  transfer = transfer;
  watcher = new_watcher debounce_duration;
  registered_folders = [];
  last_seen_seqs = λ folder_id peer_id. none;
  in_flight_syncs = λ folder_id peer_id. false;
  remote_folders = [];
  active_connections = [];
  sent = [];
}

-- walkdir does not go into what is ignored: one of the path and of the directories between the root
-- and it, both included.
unfoldable pub is_pruned : Text → List Component → Bool
is_pruned path [] = should_ignore_path path
is_pruned path (normal name ∷ rest) = should_ignore_path path || is_pruned (join path name) rest
is_pruned path (c ∷ rest) = is_pruned path rest

unfoldable pub is_walked : Text → Text → Bool
unfolding is_pruned
is_walked folder_root path = elim (strip_prefix folder_root path) [
  | none ↦ false
  | some rest ↦ not (is_pruned folder_root rest)
]

-- The record of a file that needs no indexing.
unfoldable pub is_indexed : Sha256 → List ℕ → FileRecord → Bool
is_indexed sha bytes rec =
    not rec.is_deleted && rec.size_bytes == length bytes && rec.content_hash == hash_file sha bytes

-- Whether the catalog has what an event reports.
unfoldable pub is_echo : FsChangeEvent → FileRecord → Bool
is_echo (upsert folder_id relative_path size_bytes content_hash modified_at) rec =
    not rec.is_deleted && rec.content_hash == content_hash && rec.size_bytes == size_bytes
is_echo (delete folder_id relative_path deleted_at) rec = rec.is_deleted

abbrev pub change_folder : FsChangeEvent → Text
change_folder (upsert folder_id relative_path size_bytes content_hash modified_at) = folder_id
change_folder (delete folder_id relative_path deleted_at) = folder_id

abbrev pub change_path : FsChangeEvent → Text
change_path (upsert folder_id relative_path size_bytes content_hash modified_at) = relative_path
change_path (delete folder_id relative_path deleted_at) = relative_path

module _ (driver : Rusqlite) (sha : Sha256) (now : ℤ) where
  -- For a directory that is there, or that `create_dir_all` makes: where it fails the source returns
  -- its error before anything is changed.
  unfoldable pub register_folder : Text → Text → Coordinator → Coordinator
  unfolding broadcast
  register_folder folder_id path c =
      let name : Text = elim (file_name path) [ none ↦ folder_id | some n ↦ n ] in
      let registered : Coordinator = record c {
        db = (add_folder now folder_id name path c.db).0;
        transfer = record c.transfer {
          receiver = register_folder_destination folder_id path c.transfer.receiver;
        };
        registered_folders = put folder_id path c.registered_folders;
        watcher = Watcher.add_folder folder_id path c.watcher;
      } in
      broadcast (folder_list_resp (folder_infos driver registered.db)) registered

  -- `record_local_file`, whose event the scan does not use.
  unfoldable pub index_file : Text → Text → List ℕ → Coordinator → Step
  index_file folder_id relative_path bytes c =
      elim (record_local_upsert driver now folder_id relative_path (length bytes)
        (hash_file sha bytes) c.node_id c.db) [
          | ok (db, ev) ↦ (record c { db = db }, ok tt)
          | err e ↦ (c, err (database e))
          | panic ↦ (c, panic)
        ]

  -- From `get_file` on in the body of the loop over the entries.
  unfoldable pub scan_file : Text → Text → List ℕ → Coordinator → Step
  unfolding index_file is_indexed
  scan_file folder_id relative_path bytes c = elim (get_file driver folder_id relative_path c.db) [
    | err e ↦ (c, err (database e))
    | panic ↦ (c, panic)
    | ok none ↦ index_file folder_id relative_path bytes c
    | ok (some rec) ↦
        if is_indexed sha bytes rec then (c, ok tt) else index_file folder_id relative_path bytes c
  ]

  -- The body of the loop, for an entry that may be a directory.
  unfoldable pub scan_entry : Text → Text → Text → Coordinator → Step
  unfolding scan_file is_walked
  scan_entry folder_id folder_root path c =
      if is_walked folder_root path
      then elim (c.transfer.disk path) [
        | none ↦ (c, ok tt)
        | some bytes ↦ elim (normalize_relative_path folder_root path) [
          | none ↦ (c, ok tt)
          | some relative_path ↦ scan_file folder_id relative_path bytes c
        ]
      ]
      else (c, ok tt)

  unfoldable pub scan_entries : Text → Text → List Text → Coordinator → Step
  unfolding scan_entry
  scan_entries folder_id folder_root [] c = (c, ok tt)
  scan_entries folder_id folder_root (path ∷ paths) c =
      scan_entry folder_id folder_root path c then? scan_entries folder_id folder_root paths

  module _ (walkdir : Text → List Text) where
    unfoldable pub initial_scan : Text → Coordinator → Step
    unfolding scan_entries
    initial_scan folder_id c = elim (get folder_id c.registered_folders) [
      | none ↦ (c, ok tt)
      | some folder_root ↦ scan_entries folder_id folder_root (walkdir folder_root) c
    ]

    unfoldable pub scan_folders : List (Text × Text) → Coordinator → Step
    unfolding initial_scan
    scan_folders [] c = (c, ok tt)
    scan_folders ((folder_id, root) ∷ folders) c =
        ignoring_error (initial_scan folder_id c) then? scan_folders folders

    -- `start` up to the tasks that it spawns; the request handler that it sets is
    -- `handle_peer_message`.
    unfoldable pub start : Coordinator → Step
    unfolding scan_folders
    start c =
        scan_folders c.registered_folders (record c {
          transfer = record c.transfer { receiver = set_completion_channel c.transfer.receiver };
        })
        then? (λ c'. (
          record c' { watcher = (Watcher.start c.registered_folders c'.watcher).watcher },
          ok tt,
        ))

  -- The body of the task that listens for completed transfers.
  unfoldable pub on_completion : ℕ → TransferCompletedInfo → Coordinator → Step
  on_completion instant info c = elim (slice_to {E = SyncError} info.content_hash 16) [
    | ok shown ↦
        let suppressed = suppress instant info.dest_path 5000 c in
        elim info.folder_id [
          | none ↦ (suppressed, ok tt)
          | some folder_id ↦ ignoring_error (trigger_sync driver folder_id suppressed)
        ]
    | err e ↦ (c, err e)
    | panic ↦ (c, panic)
  ]

  -- Records a local change, and tells the peers.
  unfoldable pub record_change : FsChangeEvent → Coordinator → Step
  record_change (upsert folder_id relative_path size_bytes content_hash modified_at) c =
      elim (record_local_upsert driver now folder_id relative_path size_bytes content_hash c.node_id
        c.db) [
          | ok (db, ev) ↦
              (broadcast (sync_notify folder_id ev.event_seq) (record c { db = db }), ok tt)
          | err e ↦ (c, ok tt)
          | panic ↦ (c, panic)
        ]
  record_change (delete folder_id relative_path deleted_at) c =
      elim (record_local_delete driver now folder_id relative_path c.node_id c.db) [
        | ok (db, some ev) ↦
            (broadcast (sync_notify folder_id ev.event_seq) (record c { db = db }), ok tt)
        | ok (db, none) ↦ (record c { db = db }, ok tt)
        | err e ↦ (c, ok tt)
        | panic ↦ (c, panic)
      ]

  -- The body of the task that listens for changes of the file system.
  unfoldable pub on_fs_event : FsChangeEvent → Coordinator → Step
  unfolding is_echo record_change
  on_fs_event event c = elim (get_file driver (change_folder event) (change_path event) c.db) [
    | panic ↦ (c, panic)
    | ok (some rec) ↦ if is_echo event rec then (c, ok tt) else record_change event c
    | _ ↦ record_change event c
  ]

  unfoldable pub trigger_all : List (Text × Text) → Coordinator → Step
  trigger_all [] c = (c, ok tt)
  trigger_all ((folder_id, root) ∷ folders) c =
      ignoring_error (trigger_sync driver folder_id c) then? trigger_all folders

  -- A round of the periodic loop.
  unfoldable pub periodic : Coordinator → Step
  unfolding trigger_all
  periodic c =
      trigger_all c.registered_folders c then? (λ c'. (broadcast folder_list_req c', ok tt))
