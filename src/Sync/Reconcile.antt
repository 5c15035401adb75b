-- ===== src/Sync/Reconcile.antt =====
-- `reconcile_with_peer` and `do_reconcile` of crates/tusher-sync/src/coordinator.rs.
pub mod Guard
pub mod Pull
pub mod Resume
use t_u_s_h_e_r.Base.{
  ℕ, ◌+◌, ◌≡◌, Bool, true, false, ◌&&◌, Option, none, some, List, [], ◌∷◌, leb, if◌then◌else◌, ◌==◌,
  bytes_eq, Outcome, ok, err, panic, ◌>>=◌, ◌>>◌,
}
use t_u_s_h_e_r.Base.Int.{ℤ}
use t_u_s_h_e_r.Base.Text.{Text}
use t_u_s_h_e_r.Base.FilePath.{join}
use t_u_s_h_e_r.Base.Assoc.{get}
use t_u_s_h_e_r.Base.Maps.{remove}
use t_u_s_h_e_r.Core.Types.{NodeId}
use t_u_s_h_e_r.Core.Protocol.{Message, SyncEvent, manifest_req, manifest_resp, file_pull_req}
use t_u_s_h_e_r.Metadata.Models.{
  ReconciliationAction, up_to_date, download_needed, delete_local, conflict, ignore,
}
use t_u_s_h_e_r.Metadata.Db.{Rusqlite}
use t_u_s_h_e_r.Metadata.Service.{reconcile_remote_events, apply_reconciliation_action}
use t_u_s_h_e_r.Transfer.Hash.{Sha256, hash_file}
use t_u_s_h_e_r.Transfer.Disk.{Disk, exists}
use t_u_s_h_e_r.Sync.State.{
  SyncError, database, send_failed, timed_out, closed, unexpected, Connection, Coordinator, send,
  connection, suppress, trigger_sync,
}

-- The disk has this content at the path.
abbrev pub has_content : Sha256 → Text → Text → Disk → Bool
has_content sha path content_hash disk = elim (disk path) [
  | none ↦ false
  | some bytes ↦ hash_file sha bytes == content_hash
]

-- A step that goes on if the one before it succeeded.
infixl 5 ◌then?◌
abbrev pub ◌then?◌ :
    Coordinator × Outcome SyncError (Unit {0})
    → (Coordinator → Coordinator × Outcome SyncError (Unit {0}))
    → Coordinator × Outcome SyncError (Unit {0})
(c, ok _) then? next = next c
(c, err e) then? next = (c, err e)
(c, panic) then? next = (c, panic)

-- `let _ = ...`, which a panic goes through.
abbrev pub ignoring_error :
    Coordinator × Outcome SyncError (Unit {0}) → Coordinator × Outcome SyncError (Unit {0})
ignoring_error (c, panic) = (c, panic)
ignoring_error (c, result) = (c, ok tt)

-- `remove_file`, whose result is ignored.
abbrev pub remove_file : Text → Coordinator → Coordinator
remove_file path c = record c {
  transfer = record c.transfer { disk = remove path c.transfer.disk };
}

-- The payload of the response to a manifest request.
unfoldable pub manifest_of :
    Outcome SyncError (Option Message) → Outcome SyncError (List SyncEvent × ℕ)
manifest_of (ok (some (manifest_resp folder_id events latest))) = ok (events, latest)
manifest_of (ok (some other)) = err unexpected
manifest_of (ok none) = err closed
manifest_of (err e) = err e
manifest_of panic = panic

module _ (driver : Rusqlite) (sha : Sha256) (format_time : ℤ → Text) (now : ℕ) (timestamp : ℤ) where
  -- `self.metadata.apply_reconciliation_action(&action).await?`
  unfoldable pub apply_in_db :
      ReconciliationAction → Coordinator → Coordinator × Outcome SyncError (Unit {0})
  apply_in_db action c = elim (apply_reconciliation_action timestamp action c.db) [
    | ok db ↦ (record c { db = db }, ok tt)
    | err e ↦ (c, err (database e))
    | panic ↦ (c, panic)
  ]

  -- Asks the peer for a file, and records it.
  unfoldable pub pull :
      NodeId
      → Connection
      → Text
      → Message
      → ReconciliationAction
      → Coordinator
      → Coordinator × Outcome SyncError (Unit {0})
  unfolding apply_in_db
  pull peer_id conn dest request action c =
      send peer_id conn request (suppress now dest 10000 c) then? apply_in_db action

  -- The body of the loop over the actions.
  unfoldable pub apply_action :
      NodeId
      → Connection
      → Text
      → ReconciliationAction
      → Coordinator
      → Coordinator × Outcome SyncError (Unit {0})
  unfolding pull
  apply_action peer_id conn root (download_needed folder file rel size hash version origin) c =
      let action = download_needed folder file rel size hash version origin in
      let dest_file_path = join root rel in
      if has_content sha dest_file_path hash c.transfer.disk
      then apply_in_db action c
      else pull peer_id conn dest_file_path (file_pull_req folder file rel none) action c
  apply_action peer_id conn root (delete_local folder file rel version) c =
      let target_path = join root rel in
      let removed =
        if exists target_path c.transfer.disk
        then remove_file target_path (suppress now target_path 10000 c)
        else c in
      apply_in_db (delete_local folder file rel version) removed
      then? (λ c'. ignoring_error (trigger_sync driver folder c'))
  apply_action peer_id conn root (conflict folder file original copy size hash version origin) c =
      pull peer_id conn (join root copy) (file_pull_req folder file original (some copy))
        (conflict folder file original copy size hash version origin) c
  apply_action peer_id conn root action c = (c, ok tt)

  unfoldable pub apply_actions :
      NodeId
      → Connection
      → Text
      → List ReconciliationAction
      → Coordinator
      → Coordinator × Outcome SyncError (Unit {0})
  unfolding apply_action
  apply_actions peer_id conn root [] c = (c, ok tt)
  apply_actions peer_id conn root (action ∷ actions) c =
      apply_action peer_id conn root action c then? apply_actions peer_id conn root actions

  unfoldable pub set_last_seen : Text → NodeId → ℕ → Coordinator → Coordinator
  set_last_seen folder_id peer_id seq c = record c {
    last_seen_seqs =
        λ f p. if f == folder_id && p == peer_id then some seq else c.last_seen_seqs f p;
  }

  abbrev pub last_seen : Text → NodeId → Coordinator → ℕ
  last_seen folder_id peer_id c = elim (c.last_seen_seqs folder_id peer_id) [
    | none ↦ 0
    | some seq ↦ seq
  ]

  -- From the response to the manifest request on.
  unfoldable pub apply_manifest :
      NodeId → Connection → Text → Text → Coordinator → Coordinator × Outcome SyncError (Unit {0})
  unfolding manifest_of apply_actions set_last_seen
  apply_manifest peer_id conn folder_id root c = elim (manifest_of conn.manifest) [
    | err e ↦ (c, err e)
    | panic ↦ (c, panic)
    | ok (events, latest_seq) ↦ elim (reconcile_remote_events driver format_time c.db events) [
      | err e ↦ (c, err (database e))
      | panic ↦ (c, panic)
      | ok actions ↦
          apply_actions peer_id conn root actions c
          then? (λ c'. (set_last_seen folder_id peer_id latest_seq c', ok tt))
    ]
  ]

  unfoldable pub do_reconcile :
      NodeId → Text → ℕ → Coordinator → Coordinator × Outcome SyncError (Unit {0})
  unfolding apply_manifest
  do_reconcile peer_id folder_id peer_latest_seq c = elim (connection peer_id c) [
    | none ↦ (c, ok tt)
    | some conn ↦ elim (get folder_id c.registered_folders) [
      | none ↦ (c, ok tt)
      | some root ↦
          let since_seq = last_seen folder_id peer_id c in
          if leb peer_latest_seq since_seq
          then (c, ok tt)
          else send peer_id conn (manifest_req folder_id since_seq) c
            then? apply_manifest peer_id conn folder_id root
    ]
  ]

  unfoldable pub set_in_flight : Text → NodeId → Bool → Coordinator → Coordinator
  set_in_flight folder_id peer_id busy c = record c {
    in_flight_syncs = λ f p. if f == folder_id && p == peer_id then busy else c.in_flight_syncs f p;
  }

  -- A panic unwinds before the guard is released.
  unfoldable pub release :
      Text
      → NodeId
      → Coordinator × Outcome SyncError (Unit {0})
      → Coordinator × Outcome SyncError (Unit {0})
  release folder_id peer_id (c, panic) = (c, panic)
  release folder_id peer_id (c, result) = (set_in_flight folder_id peer_id false c, result)

  unfoldable pub reconcile_with_peer :
      NodeId → Text → ℕ → Coordinator → Coordinator × Outcome SyncError (Unit {0})
  unfolding do_reconcile release set_in_flight
  reconcile_with_peer peer_id folder_id peer_latest_seq c =
      if c.in_flight_syncs folder_id peer_id
      then (c, ok tt)
      else release folder_id peer_id
          (do_reconcile peer_id folder_id peer_latest_seq (set_in_flight folder_id peer_id true c))
