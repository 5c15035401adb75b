-- ===== src/Sync/Watcher.antt =====
-- crates/tusher-sync/src/watcher.rs. Instants are numbers, the events of notify are arguments, and
-- so is what the file system has at a path. `pending_paths` belongs to the task of `run_debouncer`.
pub mod Suppression
pub mod Debounce
use t_u_s_h_e_r.Base.{
  ℕ, ◌+◌, ◌-◌, ◌≡◌, Bool, true, false, not, ◌&&◌, ◌||◌, Option, none, some, List, [], ◌∷◌, ◌++◌,
  map, any, find?, filter, length, leb, ltb, if◌then◌else◌, ◌==◌, Eq, bytes_eq,
}
use t_u_s_h_e_r.Base.Int.{ℤ}
use t_u_s_h_e_r.Base.Text.{Text, ascii, replace, slash, backslash, starts_with, ends_with}
use t_u_s_h_e_r.Base.FilePath.{
  Component, components, file_name, strip_prefix, path_starts_with, path_eq,
}
use t_u_s_h_e_r.Base.Assoc.{get, put}
use t_u_s_h_e_r.Transfer.Hash.{Sha256, hash_file}
use t_u_s_h_e_r.Transfer.Receiver.{push_normal}

pub data FsChangeEvent : Type 0 where
  upsert :
      (folder_id relative_path : Text) (size_bytes : ℕ) (content_hash : Text) (modified_at : ℤ)
      → FsChangeEvent
  delete : (folder_id relative_path : Text) (deleted_at : ℤ) → FsChangeEvent

-- What the file system has at a path: a file with its bytes and its time, or a directory.
pub data Entry : Type 0 where
  file : List ℕ → ℤ → Entry
  directory : Entry

-- The tests on a file name.
unfoldable pub ignored_name : Text → Bool
ignored_name s =
    starts_with (ascii ".") s
    || starts_with (ascii "~") s
    || starts_with (ascii "~$") s
    || ends_with (ascii ".tmp") s
    || ends_with (ascii ".crdownload") s
    || ends_with (ascii ".part") s
    || ends_with (ascii ".swp") s
    || ends_with (ascii ".bak") s

unfoldable pub should_ignore_path : Text → Bool
unfolding ignored_name
should_ignore_path path = elim (file_name path) [ none ↦ false | some s ↦ ignored_name s ]

unfoldable pub normalize_relative_path : Text → Text → Option Text
normalize_relative_path base full_path = elim (strip_prefix base full_path) [
  | none ↦ none
  | some rel ↦
      let safe = push_normal [] rel in
      if safe == [] then none else some (replace backslash slash safe)
]

pub record FolderWatcher : Type 0 where
  pub watched_folders : List (Text × Text)
  pub suppressed_paths : List (Text × ℕ)
  pub debounce_duration : ℕ

pub record PendingPath : Type 0 where
  pub folder_id : Text
  pub full_path : Text
  pub deadline : ℕ

-- The state of the task `run_debouncer`, with the folders and paths that it shares.
pub record Debouncer : Type 0 where
  pub watcher : FolderWatcher
  pub pending_paths : List PendingPath

unfoldable pub new_watcher : ℕ → FolderWatcher
new_watcher debounce_duration = record {
  watched_folders = [];
  suppressed_paths = [];
  debounce_duration = debounce_duration;
}

unfoldable pub suppress_path : ℕ → Text → ℕ → FolderWatcher → FolderWatcher
suppress_path now path duration w = record w {
  suppressed_paths =
      (path, now + duration) ∷ filter (λ (p, _). not (path_eq p path)) w.suppressed_paths;
}

-- `start`: the folders are those given, and nothing is pending yet.
unfoldable pub start : List (Text × Text) → FolderWatcher → Debouncer
start folders w = record { watcher = record w { watched_folders = folders }; pending_paths = [] }

unfoldable pub add_folder : Text → Text → FolderWatcher → FolderWatcher
add_folder folder_id path w = record w { watched_folders = put folder_id path w.watched_folders }

-- `suppressed.retain`
unfoldable pub retain_active : ℕ → FolderWatcher → FolderWatcher
retain_active now w = record w {
  suppressed_paths = filter (λ (_, until). ltb now until) w.suppressed_paths;
}

-- `suppressed.contains_key`
unfoldable pub is_suppressed : Text → FolderWatcher → Bool
is_suppressed path w = any (λ (p, _). path_eq p path) w.suppressed_paths

-- `pending_paths.insert`
unfoldable pub insert_pending : PendingPath → List PendingPath → List PendingPath
insert_pending new [] = new ∷ []
insert_pending new (p ∷ pending) =
    if p.folder_id == new.folder_id && path_eq p.full_path new.full_path
    then record p { deadline = new.deadline } ∷ pending
    else p ∷ insert_pending new pending

-- The body of the loop over the paths of an event.
unfoldable pub on_path : ℕ → Text → Debouncer → Debouncer
on_path now path d =
    let w = retain_active now d.watcher in
    if should_ignore_path path
    then d
    else if is_suppressed path w
    then record d { watcher = w }
    else elim (find? (λ (_, root). path_starts_with path root) w.watched_folders) [
      | none ↦ record d { watcher = w }
      | some (folder_id, _) ↦ record {
        watcher = w;
        pending_paths =
            insert_pending
              (record {
                folder_id = folder_id;
                full_path = path;
                deadline = now + w.debounce_duration;
              })
              d.pending_paths;
      }
    ]

unfoldable pub on_paths : ℕ → List Text → Debouncer → Debouncer
unfolding on_path
on_paths now [] d = d
on_paths now (path ∷ paths) d = on_paths now paths (on_path now path d)

pub data EventKind : Type 0 where
  create modify remove other : EventKind

-- A raw event of notify, or its error.
unfoldable pub on_event : ℕ → Option (EventKind × List Text) → Debouncer → Debouncer
unfolding on_paths
on_event now none d = d
on_event now (some (other, paths)) d = d
on_event now (some (kind, paths)) d = on_paths now paths d

-- `iter().min_by_key` on the deadlines.
unfoldable pub earliest_deadline : List PendingPath → Option ℕ
earliest_deadline [] = none
earliest_deadline (p ∷ pending) = elim (earliest_deadline pending) [
  | none ↦ some p.deadline
  | some t ↦ some (if ltb t p.deadline then t else p.deadline)
]

-- In milliseconds.
unfoldable pub sleep_duration : ℕ → List PendingPath → ℕ
unfolding earliest_deadline
sleep_duration now pending = elim (earliest_deadline pending) [
  | none ↦ 100
  | some t ↦ if leb t now then 0 else t - now
]

abbrev pub prepend : Option FsChangeEvent → List FsChangeEvent → List FsChangeEvent
prepend none events = events
prepend (some e) events = e ∷ events

abbrev pub is_ready : ℕ → PendingPath → Bool
is_ready now p = leb p.deadline now

module _ (sha : Sha256) (entries : Text → Option Entry) (timestamp : ℤ) where
  -- The event for what is at a path whose time has come.
  unfoldable pub change_at : Text → Text → Text → Option FsChangeEvent
  change_at folder_id relative_path full_path = elim (entries full_path) [
    | none ↦ some (delete folder_id relative_path timestamp)
    | some directory ↦ none
    | some (file bytes modified_at) ↦
        some (upsert folder_id relative_path (length bytes) (hash_file sha bytes) modified_at)
  ]

  -- The body of the loop over the ready keys.
  unfoldable pub flush_key : ℕ → PendingPath → FolderWatcher → FolderWatcher × Option FsChangeEvent
  unfolding change_at
  flush_key now key w = elim (get key.folder_id w.watched_folders) [
    | none ↦ (w, none)
    | some folder_root ↦ elim (normalize_relative_path folder_root key.full_path) [
      | none ↦ (w, none)
      | some relative_path ↦
          let w' = retain_active now w in
          if is_suppressed key.full_path w'
          then (w', none)
          else (w', change_at key.folder_id relative_path key.full_path)
    ]
  ]

  unfoldable pub flush_keys :
      ℕ → List PendingPath → FolderWatcher → FolderWatcher × List FsChangeEvent
  unfolding flush_key
  flush_keys now [] w = (w, [])
  flush_keys now (key ∷ keys) w =
      let (w', event) = flush_key now key w in
      let (w'', events) = flush_keys now keys w' in (w'', prepend event events)

  -- The branch of the timer.
  unfoldable pub on_timer : ℕ → Debouncer → Debouncer × List FsChangeEvent
  unfolding flush_keys
  on_timer now d =
      let (w, events) = flush_keys now (filter (is_ready now) d.pending_paths) d.watcher in
      (
        record { watcher = w; pending_paths = filter (λ p. not (is_ready now p)) d.pending_paths },
        events,
      )

-- What the loop of `run_debouncer` wakes up for: a raw event, or the end of its sleep, with what the
-- file system has then.
pub data Wake : Type 0 where
  raw_event : Option (EventKind × List Text) → Wake
  slept : (Text → Option Entry) → ℤ → Wake

unfoldable pub on_wake : Sha256 → ℕ → Wake → Debouncer → Debouncer × List FsChangeEvent
unfolding on_event on_timer
on_wake sha now (raw_event event) d = (on_event now event d, [])
on_wake sha now (slept entries timestamp) d = elim d.pending_paths [
  | [] ↦ (d, [])
  | p ∷ pending ↦ on_timer sha entries timestamp now d
]

-- The loop, over the instants at which it wakes.
unfoldable pub run_debouncer : Sha256 → List (ℕ × Wake) → Debouncer → Debouncer × List FsChangeEvent
unfolding on_wake
run_debouncer sha [] d = (d, [])
run_debouncer sha ((now, wake) ∷ wakes) d =
    let (d', events) = on_wake sha now wake d in
    let (d'', later) = run_debouncer sha wakes d' in (d'', events ++ later)

-- What happens to the state that the loop shares with other tasks, while it runs: the loop wakes, or
-- another task suppresses a path or adds a folder.
pub data Access : Type 0 where
  woken : Wake → Access
  suppressed : (path : Text) (duration : ℕ) → Access
  added : (folder_id path : Text) → Access

unfoldable pub on_access : Sha256 → ℕ → Access → Debouncer → Debouncer × List FsChangeEvent
unfolding on_wake suppress_path add_folder
on_access sha now (woken wake) d = on_wake sha now wake d
on_access sha now (suppressed path duration) d =
    (record d { watcher = suppress_path now path duration d.watcher }, [])
on_access sha now (added folder_id path) d =
    (record d { watcher = add_folder folder_id path d.watcher }, [])

-- `run_debouncer` among the other tasks.
unfoldable pub run_shared : Sha256 → List (ℕ × Access) → Debouncer → Debouncer × List FsChangeEvent
unfolding on_access
run_shared sha [] d = (d, [])
run_shared sha ((now, access) ∷ accesses) d =
    let (d', events) = on_access sha now access d in
    let (d'', later) = run_shared sha accesses d' in (d'', events ++ later)
