-- ===== src/Tests/Sync.antt =====
-- The watcher and the coordinator of crates/tusher-sync, with one shared folder and one peer.
use t_u_s_h_e_r.Base.{
  map, ℕ, ◌+◌, ◌<◌, ◌≤◌, ◌≡◌, refl, ◌≢◌, true, false, Option, none, some, List, [], ◌∷◌, ◌++◌,
  arith, All, length, filter, bytes_eq, nat_eq, Outcome, ok, ◌==◌, if◌then◌else◌,
}
use t_u_s_h_e_r.Base.Int.{ℤ, pos, negsuc, as_i64, int_eq}
use t_u_s_h_e_r.Base.Cuts.{append-nil, append_assoc}
use t_u_s_h_e_r.Base.Text.{
  Text, ascii, replace, trim_start_matches, starts_with, ends_with, slice_to, is_char_boundary,
}
use t_u_s_h_e_r.Base.FilePath.{file_name, components, component_eq, join, path_eq, strip_prefix}
use t_u_s_h_e_r.Core.Protocol.{SyncEvent, upsert, manifest_resp, file_pull_req, sync_event_type_eq}
use t_u_s_h_e_r.Metadata.Models.{SharedFolder, up_to_date}
use t_u_s_h_e_r.Metadata.Tables.{upsert_file, insert_event}
use t_u_s_h_e_r.Metadata.Db.{
  Rusqlite, normalize_path, filename_of, add_folder, get_file, file_record, apply_remote_upsert,
  log_once, record_local_upsert, next_version,
}
use t_u_s_h_e_r.Metadata.Db.Reachable.{empty_db}
use t_u_s_h_e_r.Metadata.Reconciler.{reconcile_event, download}
use t_u_s_h_e_r.Metadata.Service.{apply_reconciliation_action}
use t_u_s_h_e_r.Transfer.Hash.{Sha256, hash_file}
use t_u_s_h_e_r.Transfer.Receiver.{new_receiver, push_normal}
use t_u_s_h_e_r.Sync.Watcher.{
  Access, woken, suppressed, run_shared, FolderWatcher, Debouncer, PendingPath, Wake, raw_event,
  slept, modify, FsChangeEvent, Entry, new_watcher, suppress_path, run_debouncer, on_timer,
  sleep_duration, is_ready, should_ignore_path, normalize_relative_path,
}
use t_u_s_h_e_r.Sync.Watcher.Suppression.{run_shared-suppress_path}
use t_u_s_h_e_r.Sync.Watcher.Debounce.{Origin, on_timer-sleep_duration}
use t_u_s_h_e_r.Transfer.State.{StateJson}
use t_u_s_h_e_r.Sync.Messages.{stream, on_file_pull_req}
use t_u_s_h_e_r.Sync.State.{SyncError, Connection, Coordinator, send, suppress}
use t_u_s_h_e_r.Sync.Reconcile.{apply_action, pull, do_reconcile, reconcile_with_peer}
use t_u_s_h_e_r.Sync.Reconcile.Resume.{
  KeyReturned, Outcomes, reconcile_with_peer-in_flight_syncs, do_reconcile-last_seen_seqs,
}
use t_u_s_h_e_r.Sync.Reconcile.Pull.{apply_action-download}
use t_u_s_h_e_r.Sync.Local.{on_fs_event, initial_scan}
use t_u_s_h_e_r.Sync.Local.Entries.{Indexed, Room, Elsewhere}
use t_u_s_h_e_r.Sync.Local.Rescan.{initial_scan-Indexed}
use mathlib.Core.Path.{subst}
use t_u_s_h_e_r.Base.Assoc.{get}
use t_u_s_h_e_r.Sync.Local.Echo.{Heard, on_fs_event_again}
use t_u_s_h_e_r.Sync.Watcher

unfoldable pub read_number : ℤ → Option ℕ
read_number (pos n) = some n
read_number (negsuc n) = none

abbrev pub sqlite : Rusqlite
unfolding read_number
sqlite = record {
  u64_column = read_number;
  u64_column-pos = λ n. refl;
  u64_column-negsuc = λ n. refl;
}

-- A stand-in for the hash: the bytes themselves.
abbrev pub plain_sha : Sha256
plain_sha = record {
  Hasher = List ℕ;
  new = [];
  update = λ h bytes. h ++ bytes;
  finalize = λ h. h;
  update-nil = append-nil;
  update-append = append_assoc;
}

abbrev pub time_text : ℤ → Text
time_text z = ascii "20260101_000000"

-- What the operations run.
unfoldable pub database_run : Unit {0}
unfolding read_number apply_remote_upsert add_folder get_file file_record normalize_path filename_of
    file_name replace trim_start_matches upsert_file insert_event bytes_eq nat_eq int_eq as_i64
    log_once sync_event_type_eq reconcile_event apply_reconciliation_action
database_run = tt

abbrev pub notes : SharedFolder
notes = record {
  folder_id = ascii "notes";
  name = ascii "Notes";
  local_path = ascii "/n";
  created_at = pos 1;
}

abbrev pub other_node : Text
other_node = ascii "tshr_two"

-- A peer that answers with an event of `a.txt`.
abbrev pub remote_edit : SyncEvent
remote_edit = record {
  event_seq = 3;
  folder_id = ascii "notes";
  file_id = ascii "f_1";
  relative_path = ascii "a.txt";
  event_type = upsert;
  version = 2;
  size_bytes = 4;
  content_hash = ascii "cccccccccccccccc";
  origin_node_id = other_node;
  modified_at = pos 9;
}

abbrev pub other_connection : Connection
other_connection = record {
  remote_name = ascii "two";
  remote_platform = ascii "Linux";
  accepts = λ msg. true;
  manifest = ok (some (manifest_resp (ascii "notes") (remote_edit ∷ []) 3));
}

unfoldable pub coordinator : Coordinator
unfolding database_run new_receiver new_watcher
coordinator = record {
  node_id = ascii "tshr_one";
  db = add_folder notes empty_db;
  transfer = record { receiver = new_receiver (ascii "/s") (ascii "/d"); disk = λ path. none };
  watcher = new_watcher 200;
  registered_folders = (ascii "notes", ascii "/n") ∷ [];
  last_seen_seqs = λ folder_id peer_id. none;
  in_flight_syncs = λ folder_id peer_id. false;
  remote_folders = [];
  active_connections = (other_node, other_connection) ∷ [];
  sent = [];
}

reconcile_with_peer-in_flight_syncs_example :
    KeyReturned sqlite plain_sha time_text 100 (pos 5) other_node (ascii "notes") coordinator (
      reconcile_with_peer sqlite plain_sha time_text 100
        (pos 5)
        other_node
        (ascii "notes")
        3
        coordinator)
reconcile_with_peer-in_flight_syncs_example =
    reconcile_with_peer-in_flight_syncs sqlite plain_sha time_text 100 (pos 5) other_node
      (ascii "notes") 3 coordinator

do_reconcile-last_seen_seqs_example :
    Outcomes sqlite plain_sha time_text 100
      (pos 5)
      other_node
      (ascii "notes")
      3
      coordinator
      (do_reconcile sqlite plain_sha time_text 100 (pos 5) other_node (ascii "notes") 3 coordinator)
do_reconcile-last_seen_seqs_example =
    do_reconcile-last_seen_seqs sqlite plain_sha time_text 100 (pos 5) other_node (ascii "notes") 3
      coordinator

pulled : Coordinator × Outcome SyncError (Unit {0})
unfolding database_run coordinator apply_action pull send suppress suppress_path join path_eq
pulled =
    apply_action sqlite plain_sha time_text 100 (pos 5) other_node other_connection (ascii "/n")
      (download remote_edit) coordinator

apply_action-download_example :
    (pulled.0.transfer ≡ coordinator.transfer)
    × (pulled.0.sent
        ≡ coordinator.sent
          ++ ((other_node, file_pull_req (ascii "notes") (ascii "f_1") (ascii "a.txt") none) ∷ []))
    × (reconcile_event time_text sqlite pulled.0.db remote_edit ≡ ok (up_to_date (ascii "f_1") 2))
unfolding pulled database_run
apply_action-download_example =
    apply_action-download sqlite plain_sha time_text 100 (pos 5) other_node other_connection
      (ascii "/n") remote_edit coordinator pulled.0 refl (omega arith) (omega arith) refl refl

abbrev saved : FsChangeEvent
saved = Watcher.upsert (ascii "notes") (ascii "b.txt") 4 (ascii "dddddddddddddddd") (pos 7)

on_fs_event_again_example :
    (on_fs_event sqlite plain_sha
        (pos 99)
        saved
        (on_fs_event sqlite plain_sha (pos 8) saved coordinator).0
      ≡ on_fs_event sqlite plain_sha (pos 8) saved coordinator)
    × Heard sqlite plain_sha (pos 8) saved coordinator
unfolding database_run coordinator
on_fs_event_again_example =
    on_fs_event_again sqlite plain_sha (pos 8) (pos 99) saved coordinator (omega arith)
      (λ rec found. absurd (ground arith))

abbrev changed_path : PendingPath
changed_path = record { folder_id = ascii "notes"; full_path = ascii "/n/a.txt"; deadline = 300 }

watching : Debouncer
unfolding new_watcher
watching = record {
  watcher = record (new_watcher 200) { watched_folders = (ascii "notes", ascii "/n") ∷ [] };
  pending_paths = changed_path ∷ [];
}

-- A change of the suppressed path and of another one, and a wake of the timer.
abbrev wakes : List (ℕ × Wake)
wakes =
    (150, raw_event (some (modify, ascii "/n/b.txt" ∷ ascii "/n/c.txt" ∷ [])))
    ∷ (310, slept (λ path. none) (pos 9))
    ∷ []

-- Another path is suppressed meanwhile, and the same one for longer.
abbrev accesses : List (ℕ × Access)
accesses =
    (110, suppressed (ascii "/n/c.txt") 5)
    ∷ ((120, suppressed (ascii "/n/b.txt") 9000) ∷ map (λ (now, wake). (now, woken wake)) wakes)

run_shared-suppress_path_example :
    All
      (λ p. path_eq p.full_path (ascii "/n/b.txt") ≡ false)
      (run_shared plain_sha accesses (record watching {
        watcher = suppress_path 100 (ascii "/n/b.txt") 5000 watching.watcher;
      })).0.pending_paths
unfolding watching path_eq components bytes_eq nat_eq component_eq
run_shared-suppress_path_example =
    run_shared-suppress_path plain_sha 100 5000 (ascii "/n/b.txt") accesses watching (refl, tt)
      (
        (omega arith, λ same. absurd (ground arith)),
        ((omega arith, λ same. omega arith), (omega arith, (omega arith, tt))),
      )

some_watching : watching.pending_paths ≢ []
unfolding watching
some_watching h = absurd (ground arith)

on_timer-sleep_duration_example :
    let at = 100 + sleep_duration 100 watching.pending_paths in
    let (d', events) = on_timer plain_sha (λ path. none) (pos 9) at watching in
    (length d'.pending_paths < length watching.pending_paths)
    × All (λ p. 100 < p.deadline → at ≤ p.deadline) watching.pending_paths
    × All
        (Origin plain_sha
          (λ path. none)
          (pos 9)
          at
          watching.watcher
          (filter (is_ready at) watching.pending_paths))
        events
on_timer-sleep_duration_example =
    on_timer-sleep_duration plain_sha (λ path. none) (pos 9) 100 watching some_watching

-- One file in the folder, which the catalog lacks.
abbrev note : List ℕ
note = ascii "some words in a note"

unscanned : Coordinator
unfolding coordinator
unscanned = record coordinator {
  transfer = record coordinator.transfer {
    disk = λ path. if path == ascii "/n/b.txt" then some note else none;
  };
}

abbrev listing : Text → List Text
listing root = ascii "/n/b.txt" ∷ []

scanned : Coordinator × Outcome SyncError (Unit {0})
unfolding database_run unscanned coordinator initial_scan
scanned = initial_scan sqlite plain_sha (pos 8) listing (ascii "notes") unscanned

scanned_ok :
    initial_scan sqlite plain_sha (pos 8) listing (ascii "notes") unscanned ≡ (scanned.0, ok tt)
unfolding scanned database_run unscanned coordinator initial_scan get strip_prefix component_eq
    should_ignore_path starts_with ends_with join normalize_relative_path push_normal
    record_local_upsert next_version slice_to is_char_boundary hash_file
scanned_ok = refl

note-Room : Room sqlite plain_sha (pos 8) (ascii "notes") (ascii "/n") unscanned (ascii "/n/b.txt")
unfolding database_run unscanned coordinator
note-Room bytes rel (walked, there, under) =
    let same : note ≡ bytes = ground arith in
    (
      subst (λ b. length b < 9223372036854775808) same (omega arith),
      λ rec found. absurd (ground arith),
    )

initial_scan-Indexed_example :
    (scanned.0.transfer ≡ unscanned.transfer)
    × All
        (Indexed sqlite plain_sha (pos 8) (ascii "notes") (ascii "/n") scanned.0)
        (ascii "/n/b.txt" ∷ [])
    × ((g p : Text)
        → Elsewhere sqlite plain_sha
            (pos 8)
            (ascii "notes")
            (ascii "/n")
            g
            p
            (ascii "/n/b.txt" ∷ [])
        → get_file sqlite g p scanned.0.db ≡ get_file sqlite g p unscanned.db)
    × (initial_scan sqlite plain_sha (pos 99) listing (ascii "notes") scanned.0
        ≡ (scanned.0, ok tt))
unfolding unscanned coordinator get
initial_scan-Indexed_example =
    initial_scan-Indexed sqlite plain_sha (pos 8) (pos 99) (ascii "notes") (ascii "/n") listing
      unscanned scanned.0 refl (tt, tt) (note-Room, tt) scanned_ok

abbrev no_json : StateJson
no_json = record {
  to_vec_pretty = λ s. none;
  from_slice = λ bytes. none;
  from_slice-to_vec_pretty = λ s p e. absurd (ground arith);
}

-- A pull request for an absolute path streams that file, which is not in the folder.
on_file_pull_req_test :
    on_file_pull_req sqlite plain_sha no_json other_node
      (ascii "notes")
      (ascii "/n/b.txt")
      none
      (record unscanned { registered_folders = (ascii "notes", ascii "/other") ∷ [] })
    ≡ (
      record unscanned { registered_folders = (ascii "notes", ascii "/other") ∷ [] },
      none,
      stream other_node (ascii "notes") (ascii "/n/b.txt") (ascii "/n/b.txt") ∷ [],
    )
unfolding on_file_pull_req unscanned coordinator get join bytes_eq
on_file_pull_req_test = refl
