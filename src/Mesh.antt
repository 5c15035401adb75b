-- ===== src/Mesh.antt =====
-- What the three programs have in common (tusher-desktop/src/main.rs and web.rs, tusher-ffi/src/lib.rs
-- and tusher-cli/src/main.rs of crates): the services that they start, and the calls that they make
-- of them. What they run on is a parameter.
pub mod Trust
pub mod Startup
pub mod Sharing
use t_u_s_h_e_r.Base.{
  ℕ, Bool, true, false, Option, none, some, List, [], ◌∷◌, map, length, if◌then◌else◌, ◌==◌,
  bytes_eq, Outcome, ok, err, panic,
}
use t_u_s_h_e_r.Base.Int.{ℤ}
use t_u_s_h_e_r.Base.Text.{Text, ascii}
use t_u_s_h_e_r.Base.Assoc.{get, put}
use t_u_s_h_e_r.Core.Types.{NodeId, lan, paired, from_str_unchecked}
use t_u_s_h_e_r.Core.Protocol.{Message}
use t_u_s_h_e_r.Core.Keys.{Crypto, DeviceIdentity}
use t_u_s_h_e_r.Metadata.Models.{SharedFolder}
use t_u_s_h_e_r.Metadata.Tables.{MetadataDb}
use t_u_s_h_e_r.Metadata.Db.{Rusqlite}
use t_u_s_h_e_r.Metadata.Service
use t_u_s_h_e_r.Transfer.Hash.{Sha256}
use t_u_s_h_e_r.Transfer.Disk.{Disk}
use t_u_s_h_e_r.Transfer.Receiver.{Node, new_receiver}
use t_u_s_h_e_r.Transfer.Sender.{TransferStats, SendError, default_chunk_size, send_file_to_folder}
use t_u_s_h_e_r.Network.Transport.{SocketAddr, TransportAddress}
use t_u_s_h_e_r.Network.Connection.{NetworkError, Stream, PeerConnection}
use t_u_s_h_e_r.Network.Pairing.{PairingSession}
use t_u_s_h_e_r.Network.Manager.{
  ConnectionManager, new_manager, bind, set_request_handler, set_trusted, add_candidate,
}
use t_u_s_h_e_r.Network.Manager.Status.{PeerStatusInfo, get_peer_statuses}
use t_u_s_h_e_r.Sync.State.{SyncError, Connection, Coordinator, trigger_sync}
use t_u_s_h_e_r.Sync.Reconcile.{◌then?◌, ignoring_error}
use t_u_s_h_e_r.Sync.Local.{new_coordinator, register_folder, initial_scan, start}

-- The crates that are called, the clock, the directories, and what the network answers, at the time
-- of a call. `wire` says what becomes of a connection that the coordinator uses.
pub record Host : Type 1 where
  pub driver : Rusqlite
  pub sha : Sha256
  pub crypto : Crypto
  pub now : ℤ
  pub format_time : ℤ → Text
  pub walkdir : Text → List Text
  pub parse_addr : Text → Option SocketAddr
  pub show_addr : SocketAddr → Text
  pub hex_encode : List ℕ → Text
  pub streams : SocketAddr → Outcome NetworkError Stream
  pub wire : PeerConnection → Connection
  pub exchange : Message → PeerConnection → PeerConnection × Outcome SendError (Option Message)

-- The catalog and the transfers are those of the coordinator, the identity is that of the manager.
pub record MeshNode : Type 0 where
  pub manager : ConnectionManager
  pub coordinator : Coordinator
  pub sessions : List (Text × PairingSession)

-- The coordinator works with the connections of the manager.
abbrev pub connections_of : Host → ConnectionManager → List (NodeId × Connection)
connections_of host m = map (λ (peer_id, conn). (peer_id, host.wire conn)) m.active_connections

unfoldable pub with_manager : Host → ConnectionManager → MeshNode → MeshNode
with_manager host m node = record node {
  manager = m;
  coordinator = record node.coordinator { active_connections = connections_of host m };
}

-- `connect_peer_handler`, `connect_peer` and the command `connect`: the address, if it is one.
unfoldable pub connect_peer : Host → Text → MeshNode → MeshNode × Option SocketAddr
unfolding with_manager
connect_peer host text node = elim (host.parse_addr text) [
  | none ↦ (node, none)
  | some addr ↦
      let target : TransportAddress = record { addr = addr; transport_type = lan } in
      (
        with_manager host
            (add_candidate host.crypto host.streams (from_str_unchecked (ascii "remote")) target
              node.manager)
            node,
        some addr,
      )
]

-- The loop over the peers.
unfoldable pub trust_each : List PeerStatusInfo → ConnectionManager → ConnectionManager
trust_each [] m = m
trust_each (p ∷ peers) m = trust_each peers (set_trusted p.node_id paired m)

unfoldable pub trust_all_peers : MeshNode → MeshNode
unfolding trust_each
trust_all_peers node = record node {
  manager = trust_each (get_peer_statuses node.manager) node.manager;
}

-- The folders of the catalog at the start.
unfoldable pub register_existing : Host → List SharedFolder → Coordinator → Coordinator
register_existing host [] c = c
register_existing host (f ∷ folders) c =
    register_existing host folders
      (register_folder host.driver host.sha host.now f.folder_id f.local_path c)

-- The services over a catalog, for a manager that listens at `bound`. The command line and the
-- desktop pass the folders of the catalog, and the node of the FFI passes none.
unfoldable pub launch :
    Host
    → DeviceIdentity
    → Text
    → Text
    → Disk
    → MetadataDb
    → ℕ
    → ℕ
    → ℕ
    → List SharedFolder
    → MeshNode × Outcome SyncError (Unit {0})
unfolding register_existing
launch host identity staging_dir downloads_dir disk db port discovery_port bound existing =
    let transfer : Node = record {
      receiver = new_receiver staging_dir downloads_dir;
      disk = disk;
    } in
    let (c, result) =
      start host.driver host.sha host.now host.walkdir
        (register_existing host existing (new_coordinator identity.node_id db transfer 300)) in
    (
      record {
        manager = set_request_handler (bind bound (new_manager identity port discovery_port));
        coordinator = c;
        sessions = [];
      },
      result,
    )

-- `register_folder`, and `add_folder` of the catalog with the name that was given.
unfoldable pub register_named : Host → Text → Text → Text → Coordinator → Coordinator
register_named host folder_id name path c =
    let registered = register_folder host.driver host.sha host.now folder_id path c in
    record registered { db = (Service.add_folder host.now folder_id name path registered.db).0 }

-- `add_folder_handler` and `add_shared_folder`, for a directory that is there.
unfoldable pub share_folder :
    Host → Text → Text → Text → Coordinator → Coordinator × Outcome SyncError (Unit {0})
unfolding register_named
share_folder host folder_id name path c =
    ignoring_error (
      initial_scan host.driver host.sha host.now host.walkdir folder_id
        (register_named host folder_id name path c))
    then? (λ scanned. ignoring_error (trigger_sync host.driver folder_id scanned))

-- What comes of sending a file to a peer.
pub data Sending : Type 0 where
  sent : TransferStats → Sending
  failed : SendError → Sending
  not_connected : Sending

-- `get_active_connection` and `send_file`, for a file that is there.
unfoldable pub send_to_peer :
    Host → NodeId → Text → List ℕ → MeshNode → MeshNode × Outcome SendError Sending
unfolding with_manager
send_to_peer host peer_id path content node = elim (get peer_id node.manager.active_connections) [
  | none ↦ (node, ok not_connected)
  | some conn ↦
      let (conn', result) =
        send_file_to_folder host.sha host.exchange default_chunk_size none path content conn in
      let node' =
        with_manager host
          (record node.manager {
            active_connections = put peer_id conn' node.manager.active_connections;
          })
          node in
      elim result [
        | ok stats ↦ (node', ok (sent stats))
        | err e ↦ (node', ok (failed e))
        | panic ↦ (node', panic)
      ]
]
