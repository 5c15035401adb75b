-- ===== src/Sync/State.antt =====
-- The state of `SyncCoordinator` in crates/tusher-sync/src/coordinator.rs: the parts that it calls,
-- and its own maps. What it sends is kept in a list. An operation runs without interruption.
use t_u_s_h_e_r.Base.{
  ℕ, Bool, Option, List, [], ◌∷◌, ◌++◌, map, length, if◌then◌else◌, bytes_eq, Outcome, ok, err,
  panic,
}
use t_u_s_h_e_r.Base.Text.{Text}
use t_u_s_h_e_r.Base.Assoc.{get}
use t_u_s_h_e_r.Core.Types.{NodeId}
use t_u_s_h_e_r.Core.Protocol.{Message, SharedFolderInfo, sync_notify}
use t_u_s_h_e_r.Metadata.Tables.{MetadataDb, DbError}
use t_u_s_h_e_r.Metadata.Db.{Rusqlite, get_folders, get_all_files}
use t_u_s_h_e_r.Metadata.Service.{handle_manifest_request}
use t_u_s_h_e_r.Transfer.Receiver.{Node}
use t_u_s_h_e_r.Sync.Watcher.{FolderWatcher}
use t_u_s_h_e_r.Sync.Watcher

pub data SyncError : Type 0 where
  database : DbError → SyncError
  send_failed timed_out closed unexpected : SyncError

-- A connection as the coordinator sees it: whether a message can be sent, and what comes in when it
-- waits for a manifest.
pub record Connection : Type 0 where
  pub remote_name : Text
  pub remote_platform : Text
  pub accepts : Message → Bool
  pub manifest : Outcome SyncError (Option Message)

pub record Coordinator : Type 0 where
  pub node_id : NodeId
  pub db : MetadataDb
  pub transfer : Node
  pub watcher : FolderWatcher
  pub registered_folders : List (Text × Text)
  pub last_seen_seqs : Text → NodeId → Option ℕ
  pub in_flight_syncs : Text → NodeId → Bool
  pub remote_folders : List (NodeId × (Text × Text × List SharedFolderInfo))
  pub active_connections : List (NodeId × Connection)
  pub sent : List (NodeId × Message)

-- `conn.send`
unfoldable pub send :
    NodeId → Connection → Message → Coordinator → Coordinator × Outcome SyncError (Unit {0})
send peer_id conn msg c =
    if conn.accepts msg
    then (record c { sent = c.sent ++ ((peer_id, msg) ∷ []) }, ok tt)
    else (c, err send_failed)

-- The copies of a message that go out to the connections.
unfoldable pub copies : Message → List (NodeId × Connection) → List (NodeId × Message)
copies msg [] = []
copies msg ((peer_id, conn) ∷ conns) =
    let rest = copies msg conns in if conn.accepts msg then (peer_id, msg) ∷ rest else rest

-- `network.broadcast`, which ignores what cannot be sent.
unfoldable pub broadcast : Message → Coordinator → Coordinator
unfolding copies
broadcast msg c = record c { sent = c.sent ++ copies msg c.active_connections }

-- `get_active_connection`
abbrev pub connection : NodeId → Coordinator → Option Connection
connection peer_id c = get peer_id c.active_connections

unfoldable pub suppress : ℕ → Text → ℕ → Coordinator → Coordinator
suppress now path duration c = record c {
  watcher = Watcher.suppress_path now path duration c.watcher;
}

module _ (driver : Rusqlite) where
  -- The number of files, or 0 if they cannot be read.
  unfoldable pub file_count : Text → MetadataDb → ℕ
  file_count folder_id db = elim (get_all_files driver folder_id db) [
    | ok files ↦ length files
    | _ ↦ 0
  ]

  unfoldable pub folder_infos : MetadataDb → List SharedFolderInfo
  unfolding file_count
  folder_infos db =
      map
        (λ f. record {
          folder_id = f.folder_id;
          name = f.name;
          file_count = file_count f.folder_id db;
          created_at = f.created_at;
        })
        (get_folders db)

  unfoldable pub trigger_sync : Text → Coordinator → Coordinator × Outcome SyncError (Unit {0})
  trigger_sync folder_id c = elim (handle_manifest_request driver folder_id 0 c.db) [
    | ok (_, latest_seq) ↦ (broadcast (sync_notify folder_id latest_seq) c, ok tt)
    | err e ↦ (c, err (database e))
    | panic ↦ (c, panic)
  ]
