-- ===== src/Sync/Local/Folders.antt =====
-- What leaves the shared folders of a node alone: the scan of a folder and the request to
-- synchronise it (crates/tusher-sync/src/coordinator.rs).
use t_u_s_h_e_r.Base.{
  ℕ, length, ◌≡◌, refl, sym, ap, ◌∙◌, none, some, List, [], ◌∷◌, arith, bytes_eq, Bool-cases,
  Option-cases, inl, inr, Outcome, ok, err, panic, Outcome-cases, >>=-eq-ok,
}
use t_u_s_h_e_r.Base.Text.{Text}
use t_u_s_h_e_r.Base.Int.{ℤ}
use t_u_s_h_e_r.Base.Assoc.{get}
use t_u_s_h_e_r.Core.Types.{NodeId}
use t_u_s_h_e_r.Core.Protocol.{SyncEvent, upsert}
use t_u_s_h_e_r.Metadata.Tables.{MetadataDb, upsert_file, insert_event}
use t_u_s_h_e_r.Metadata.Tables.Valid.{upsert_file_ok, insert_event_ok}
use t_u_s_h_e_r.Metadata.Db.{
  Rusqlite, get_file, record_local_upsert, next_version, commit_upsert, log_change, file_row,
  event_row, local_event, normalize_path,
}
use t_u_s_h_e_r.Metadata.Service.{handle_manifest_request}
use t_u_s_h_e_r.Transfer.Hash.{Sha256, hash_file}
use t_u_s_h_e_r.Sync.Watcher.{normalize_relative_path}
use t_u_s_h_e_r.Sync.State.{SyncError, Coordinator, broadcast, trigger_sync}
use t_u_s_h_e_r.Sync.Reconcile.{◌then?◌, ignoring_error}
use t_u_s_h_e_r.Sync.Local.{
  index_file, is_indexed, is_walked, scan_file, scan_entry, scan_entries, initial_scan,
}

-- A step leaves the folders of the catalog and the registered ones alone.
abbrev pub SameFolders : Coordinator → Coordinator → Type 0
SameFolders c c' =
    (c'.db.shared_folders ≡ c.db.shared_folders) × (c'.registered_folders ≡ c.registered_folders)

commit_upsert-folders :
    (now : ℤ) (new : ℕ → SyncEvent) (db db' : MetadataDb) (ev : SyncEvent)
    → commit_upsert now new db ≡ ok (db', ev)
    → db'.shared_folders ≡ db.shared_folders
unfolding commit_upsert log_change
commit_upsert-folders now new db db' ev h =
    let (mid, stored, rest) = >>=-eq-ok (upsert_file (file_row (new 0)) db) _ h in
    let (last, logged, end) = >>=-eq-ok (insert_event (event_row (new 0) now) mid) _ rest in
    let (_, _, changed) = upsert_file_ok (file_row (new 0)) db stored in
    let (_, changed') = insert_event_ok (event_row (new 0) now) mid logged in
    let same : last ≡ db' = ground arith in
    ap (λ d. d.shared_folders) (sym same ∙ changed') ∙ ap (λ d. d.shared_folders) changed

record_local_upsert-folders :
    (driver : Rusqlite) (now : ℤ) (folder path : Text) (size : ℕ) (hash : Text) (origin : NodeId)
    (db db' : MetadataDb) (ev : SyncEvent)
    → record_local_upsert driver now folder path size hash origin db ≡ ok (db', ev)
    → db'.shared_folders ≡ db.shared_folders
unfolding record_local_upsert
record_local_upsert-folders driver now folder path size hash origin db db' ev h =
    let (existing, _, h1) = >>=-eq-ok (get_file driver folder (normalize_path path) db) _ h in
    let (next, _, h2) = >>=-eq-ok (next_version existing hash) _ h1 in
    commit_upsert-folders now
      (local_event upsert folder next.0 (normalize_path path) next.1 size hash origin now) db db' ev
      h2

SameFolders-trans : (a b c : Coordinator) → SameFolders a b → SameFolders b c → SameFolders a c
SameFolders-trans a b c (f, r) (f', r') = (f' ∙ f, r' ∙ r)

pub then?-SameFolders :
    (c : Coordinator) (step : Coordinator × Outcome SyncError (Unit {0}))
    (next : Coordinator → Coordinator × Outcome SyncError (Unit {0}))
    → SameFolders c step.0
    → ((d : Coordinator) → SameFolders d (next d).0)
    → SameFolders c (step then? next).0
then?-SameFolders c (d, ok u) next h k = SameFolders-trans c d (next d).0 h (k d)
then?-SameFolders c (d, err e) next h k = h
then?-SameFolders c (d, panic) next h k = h

module _ (driver : Rusqlite) (sha : Sha256) (now : ℤ) (folder : Text) where
  index_file-SameFolders :
      (rel : Text) (bytes : List ℕ) (c : Coordinator)
      → SameFolders c (index_file driver sha now folder rel bytes c).0
  unfolding index_file
  index_file-SameFolders rel bytes c =
      elim (Outcome-cases (
        record_local_upsert driver now folder rel (length bytes) (hash_file sha bytes) c.node_id
          c.db)) [
            | inl ((db, ev), e) ↦
                rw (e, index_file)
                  (
                    record_local_upsert-folders driver now folder rel (length bytes) _ c.node_id
                        c.db db ev e,
                    refl,
                  )
            | inr (inl (x, e)) ↦ rw (e, index_file) (refl, refl)
            | inr (inr e) ↦ rw (e, index_file) (refl, refl)
          ]

  scan_file-SameFolders :
      (rel : Text) (bytes : List ℕ) (c : Coordinator)
      → SameFolders c (scan_file driver sha now folder rel bytes c).0
  unfolding scan_file
  scan_file-SameFolders rel bytes c = elim (Outcome-cases (get_file driver folder rel c.db)) [
    | inl (none, e) ↦ rw (e, scan_file) (index_file-SameFolders rel bytes c)
    | inl (some rec, e) ↦ elim (Bool-cases (is_indexed sha bytes rec)) [
      | inl k ↦ rw (e, k, scan_file) (refl, refl)
      | inr k ↦ rw (e, k, scan_file) (index_file-SameFolders rel bytes c)
    ]
    | inr (inl (x, e)) ↦ rw (e, scan_file) (refl, refl)
    | inr (inr e) ↦ rw (e, scan_file) (refl, refl)
  ]

  scan_entry-SameFolders :
      (root path : Text) (c : Coordinator)
      → SameFolders c (scan_entry driver sha now folder root path c).0
  unfolding scan_entry
  scan_entry-SameFolders root path c = elim (Bool-cases (is_walked root path)) [
    | inr e ↦ rw (e, scan_entry) (refl, refl)
    | inl e ↦ elim (Option-cases (c.transfer.disk path)) [
      | inl e' ↦ rw (e, e', scan_entry) (refl, refl)
      | inr (bytes, e') ↦ elim (Option-cases (normalize_relative_path root path)) [
        | inl f ↦ rw (e, e', f, scan_entry) (refl, refl)
        | inr (rel, f) ↦ rw (e, e', f, scan_entry) (scan_file-SameFolders rel bytes c)
      ]
    ]
  ]

  scan_entries-SameFolders :
      (root : Text) (paths : List Text) (c : Coordinator)
      → SameFolders c (scan_entries driver sha now folder root paths c).0
  unfolding scan_entries
  scan_entries-SameFolders root [] c = (refl, refl)
  scan_entries-SameFolders root (path ∷ paths) c =
      then?-SameFolders c (scan_entry driver sha now folder root path c)
        (scan_entries driver sha now folder root paths) (scan_entry-SameFolders root path c)
        (scan_entries-SameFolders root paths)

  pub initial_scan-SameFolders :
      (walkdir : Text → List Text) (c : Coordinator)
      → SameFolders c (initial_scan driver sha now walkdir folder c).0
  unfolding initial_scan
  initial_scan-SameFolders walkdir c = elim (Option-cases (get folder c.registered_folders)) [
    | inl e ↦ rw (e, initial_scan) (refl, refl)
    | inr (root, e) ↦ rw (e, initial_scan) (scan_entries-SameFolders root (walkdir root) c)
  ]

  pub trigger_sync-SameFolders : (c : Coordinator) → SameFolders c (trigger_sync driver folder c).0
  unfolding trigger_sync broadcast
  trigger_sync-SameFolders c = elim (Outcome-cases (handle_manifest_request driver folder 0 c.db)) [
    | inl ((events, seq), e) ↦ rw (e, trigger_sync) (refl, refl)
    | inr (inl (x, e)) ↦ rw (e, trigger_sync) (refl, refl)
    | inr (inr e) ↦ rw (e, trigger_sync) (refl, refl)
  ]

pub ignoring_error-SameFolders :
    (c : Coordinator) (step : Coordinator × Outcome SyncError (Unit {0}))
    → SameFolders c step.0
    → SameFolders c (ignoring_error step).0
ignoring_error-SameFolders c (d, ok u) h = h
ignoring_error-SameFolders c (d, err e) h = h
ignoring_error-SameFolders c (d, panic) h = h
