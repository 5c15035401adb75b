-- ===== src/Ffi.antt =====
-- crates/tusher-ffi/src/lib.rs: the node that Android and other platforms start. Listeners are kept
-- as the numbers that the caller gave them; the texts of errors and the runtime are left out.
pub mod Pin
pub mod Restart
use t_u_s_h_e_r.Base.{
  ℕ, ◌+◌, ◌%◌, ◌^◌, ◌≡◌, Bool, true, false, ◌&&◌, ◌||◌, Option, none, some, List, [], ◌∷◌, ◌++◌,
  map, filter, length, if◌then◌else◌, ◌==◌, ◌!=◌, nat_eq, bytes_eq, Outcome, ok, err, panic, ◌>>=◌,
  ◌>>◌, guard, ok_or,
}
use t_u_s_h_e_r.Base.Text.{Text, ascii}
use t_u_s_h_e_r.Base.FilePath.{join}
use t_u_s_h_e_r.Base.Int.{ℤ}
use t_u_s_h_e_r.Core.Types.{
  NodeId, Platform, TransportType, lan, tailscale, manual, paired, fmt_platform, from_str_unchecked,
}
use t_u_s_h_e_r.Core.Keys.{Crypto, DeviceIdentity, calculate_sas_pin}
use t_u_s_h_e_r.Core.Identity.{IdentityStore, generate, public_identity}
use t_u_s_h_e_r.Metadata.Tables.{MetadataDb}
use t_u_s_h_e_r.Metadata.Models.{SharedFolder}
use t_u_s_h_e_r.Metadata.Db.{get_folders}
use t_u_s_h_e_r.Transfer.Disk.{Disk}
use t_u_s_h_e_r.Transfer.Sender.{TransferStats, SendError}
use t_u_s_h_e_r.Network.Transport.{SocketAddr, TransportAddress}
use t_u_s_h_e_r.Network.Pairing.{create_pairing_invite}
use t_u_s_h_e_r.Network.Manager.{ConnectionManager, set_trusted, set_simulate_lan_disabled}
use t_u_s_h_e_r.Network.Manager.Status.{PeerStatusInfo, get_peer_statuses}
use t_u_s_h_e_r.Sync.State.{SyncError, Coordinator, file_count, trigger_sync}
use t_u_s_h_e_r.Sync.Local.{initial_scan}
use t_u_s_h_e_r.Mesh
use t_u_s_h_e_r.Mesh.{
  Host, MeshNode, Sending, sent, failed, not_connected, launch, share_folder, send_to_peer,
}

pub data FfiError : Type 0 where
  initialization_error network_error storage_error peer_not_found invalid_argument internal_error :
      FfiError
  sync_error : SyncError → FfiError
  transfer_error : Option SendError → FfiError

pub record FfiNodeStatus : Type 0 where
  pub node_id : Text
  pub node_name : Text
  pub platform : Text
  pub public_key_hex : Text
  pub listen_port : ℕ
  pub discovery_port : ℕ
  pub active_peers_count : ℕ
  pub storage_dir : Text

pub record FfiPeerStatus : Type 0 where
  pub node_id : Text
  pub node_name : Text
  pub is_connected : Bool
  pub active_transport : Option Text
  pub latency : Option ℕ
  pub is_paired : Bool
  pub candidates : List Text

pub record FfiSharedFolder : Type 0 where
  pub folder_id : Text
  pub name : Text
  pub local_path : Text
  pub file_count : ℕ

pub record FfiPairingInvite : Type 0 where
  pub token : Text
  pub uri : Text

pub record TusherNode : Type 0 where
  pub identity : DeviceIdentity
  pub node : MeshNode
  pub event_listeners : List ℕ
  pub data_dir : Text

-- What a new node is given by the system: random numbers for the key, the directories that can be
-- made, the catalog if it can be opened, the files, and the port that the listener gets.
pub record Start : Type 0 where
  pub random_key : List ℕ
  pub create_dir_all : Text → Bool
  pub opened : Option MetadataDb
  pub disk : Disk
  pub bound : ℕ

module _ (host : Host) (store : IdentityStore) (current : Platform) where
  -- The identity of a new node.
  unfoldable pub new_identity : Start → Text → DeviceIdentity
  new_identity at node_name =
      public_identity host.crypto store current
        (generate host.crypto store current at.random_key host.now node_name)

  -- From the identity on.
  unfoldable pub start_node :
      Start → Text → DeviceIdentity → ℕ → ℕ → MetadataDb → Outcome FfiError TusherNode
  start_node at data_dir identity port discovery_port db =
      let (node, result) =
        launch host identity (join data_dir (ascii "staging")) (join data_dir (ascii "downloads"))
          at.disk db port discovery_port at.bound [] in
      elim result [
        | ok _ ↦
            ok (record {
              identity = identity;
              node = node;
              event_listeners = [];
              data_dir = data_dir;
            })
        | err e ↦ err initialization_error
        | panic ↦ panic
      ]

  unfoldable pub new_node : Start → Text → Text → ℕ → ℕ → Outcome FfiError TusherNode
  unfolding new_identity start_node
  new_node at data_dir node_name port discovery_port = do
    guard (at.create_dir_all data_dir) storage_error
    guard (at.create_dir_all (join data_dir (ascii "staging"))) storage_error
    guard (at.create_dir_all (join data_dir (ascii "downloads"))) storage_error
    db ← ok_or at.opened storage_error
    start_node at data_dir (new_identity at node_name) port discovery_port db

unfoldable pub get_status : TusherNode → FfiNodeStatus
get_status n = record {
  node_id = n.identity.node_id;
  node_name = n.identity.node_name;
  platform = fmt_platform n.identity.platform;
  public_key_hex = n.identity.public_key_hex;
  listen_port = n.node.manager.actual_listen_port;
  discovery_port = 0;
  active_peers_count =
      length (filter (λ p. p.is_connected) (get_peer_statuses n.node.manager)) % 2 ^ 32;
  storage_dir = n.data_dir;
}

-- `{:?}` of a transport.
unfoldable pub transport_text : TransportType → Text
transport_text lan = ascii "Lan"
transport_text tailscale = ascii "Tailscale"
transport_text manual = ascii "Manual"

unfoldable pub ffi_peer : (SocketAddr → Text) → PeerStatusInfo → FfiPeerStatus
unfolding transport_text
ffi_peer show_addr p = record {
  node_id = p.node_id;
  node_name = p.node_name;
  is_connected = p.is_connected;
  active_transport = elim p.active_transport [ none ↦ none | some t ↦ some (transport_text t) ];
  latency = p.latency;
  is_paired = p.is_paired;
  candidates =
      map (λ c. show_addr c.addr ++ (ascii " (" ++ (transport_text c.transport_type ++ ascii ")")))
        p.available_candidates;
}

unfoldable pub get_peers : Host → TusherNode → List FfiPeerStatus
unfolding ffi_peer
get_peers host n = map (ffi_peer host.show_addr) (get_peer_statuses n.node.manager)

-- `default_hint` is `127.0.0.1:` with the port of the listener.
unfoldable pub pairing_invite :
    Host → List ℕ → ℕ → Text → Option Text → TusherNode → TusherNode × FfiPairingInvite
pairing_invite host token_bytes instant default_hint hint_addr n =
    let hint : Text = elim hint_addr [ none ↦ default_hint | some h ↦ h ] in
    let (sessions, token, uri) =
      create_pairing_invite host.hex_encode token_bytes instant n.identity hint n.node.sessions in
    (record n { node = record n.node { sessions = sessions } }, record { token = token; uri = uri })

unfoldable pub connect_peer : Host → Text → TusherNode → TusherNode × Outcome FfiError (Unit {0})
connect_peer host addr_str n =
    let (node, found) = Mesh.connect_peer host addr_str n.node in
    elim found [
      | none ↦ (record n { node = node }, err invalid_argument)
      | some addr ↦ (record n { node = node }, ok tt)
    ]

unfoldable pub pair_peer : Text → TusherNode → TusherNode
pair_peer peer_id n = record n {
  node = record n.node { manager = set_trusted (from_str_unchecked peer_id) paired n.node.manager };
}

abbrev pub with_coordinator : Coordinator → TusherNode → TusherNode
with_coordinator c n = record n { node = record n.node { coordinator = c } }

-- The result of a step of the coordinator.
abbrev pub answer : Outcome SyncError (Unit {0}) → Outcome FfiError (Unit {0})
answer (ok _) = ok tt
answer (err e) = err (sync_error e)
answer panic = panic

unfoldable pub add_shared_folder :
    Host → Text → Text → Text → TusherNode → TusherNode × Outcome FfiError (Unit {0})
add_shared_folder host folder_id name local_path n =
    let (c, result) = share_folder host folder_id name local_path n.node.coordinator in
    (with_coordinator c n, answer result)

-- The body of the loop over the folders.
unfoldable pub listed_folder : Host → MetadataDb → SharedFolder → FfiSharedFolder
listed_folder host db f = record {
  folder_id = f.folder_id;
  name = f.name;
  local_path = f.local_path;
  file_count = file_count host.driver f.folder_id db;
}

unfoldable pub list_shared_folders : Host → TusherNode → List FfiSharedFolder
unfolding listed_folder
list_shared_folders host n =
    map (listed_folder host n.node.coordinator.db) (get_folders n.node.coordinator.db)

unfoldable pub trigger_folder_sync :
    Host → Text → TusherNode → TusherNode × Outcome FfiError (Unit {0})
trigger_folder_sync host folder_id n =
    let (c, result) = trigger_sync host.driver folder_id n.node.coordinator in
    (with_coordinator c n, answer result)

unfoldable pub scan_and_index_folder :
    Host → Text → TusherNode → TusherNode × Outcome FfiError (Unit {0})
scan_and_index_folder host folder_id n =
    let (c, result) =
      initial_scan host.driver host.sha host.now host.walkdir folder_id n.node.coordinator in
    (with_coordinator c n, answer result)

-- A path that exists is taken to be that of a file, not of a directory.
unfoldable pub send_file :
    Host → Text → Text → TusherNode → TusherNode × Outcome FfiError TransferStats
send_file host peer_id file_path n = elim (n.node.coordinator.transfer.disk file_path) [
  | none ↦ (n, err invalid_argument)
  | some content ↦
      let (node, result) =
        send_to_peer host (from_str_unchecked peer_id) file_path content n.node in
      let n' : TusherNode = record n { node = node } in
      elim result [
        | ok (sent stats) ↦ (n', ok stats)
        | ok (failed e) ↦ (n', err (transfer_error (some e)))
        | ok not_connected ↦ (n', err (transfer_error none))
        | err e ↦ (n', err (transfer_error (some e)))
        | panic ↦ (n', panic)
      ]
]

unfoldable pub register_event_listener : ℕ → TusherNode → TusherNode
register_event_listener listener n = record n {
  event_listeners = n.event_listeners ++ (listener ∷ []);
}

unfoldable pub simulate_lan_drop : Bool → TusherNode → TusherNode
simulate_lan_drop disabled n = record n {
  node = record n.node { manager = set_simulate_lan_disabled disabled n.node.manager };
}

unfoldable pub compute_sas_pin : Crypto → Text → Text → Text → Outcome FfiError Text
compute_sas_pin crypto ephemeral_token key_a_hex key_b_hex = do
  key_a ← ok_or (crypto.hex_decode key_a_hex) invalid_argument
  key_b ← ok_or (crypto.hex_decode key_b_hex) invalid_argument
  guard (length key_a == 32 && length key_b == 32) invalid_argument
  ok (calculate_sas_pin crypto ephemeral_token key_a key_b)
