-- ===== src/Desktop/Web.antt =====
-- The state of crates/tusher-desktop/src/web.rs and the handlers that answer a GET, with what they
-- answer. Durations stay in microseconds. `sync_paused` is the flag that the tray turns over as well.
pub mod Folders
pub mod Conflicts
pub mod Actions
use t_u_s_h_e_r.Base.{
  ℕ, ◌+◌, ◌≡◌, Bool, true, false, not, ◌&&◌, ◌||◌, Option, none, some, List, [], ◌∷◌, ◌++◌, map,
  any, filter, length, if◌then◌else◌, ◌==◌, bytes_eq, Outcome, ok, err, panic,
}
use t_u_s_h_e_r.Base.Int.{ℤ}
use t_u_s_h_e_r.Base.Text.{Text, ascii, contains}
use t_u_s_h_e_r.Base.Words.{trim}
use t_u_s_h_e_r.Base.Assoc.{get}
use t_u_s_h_e_r.Core.Types.{
  NodeId, Platform, windows, linux, mac_os, android, unknown, TransportType, fmt_platform,
  fmt_transport_type, from_str_unchecked,
}
use t_u_s_h_e_r.Core.Keys.{DeviceIdentity}
use t_u_s_h_e_r.Core.Protocol.{SharedFolderInfo}
use t_u_s_h_e_r.Metadata.Models.{SharedFolder, FileRecord}
use t_u_s_h_e_r.Metadata.Tables.{MetadataDb}
use t_u_s_h_e_r.Metadata.Db.{Rusqlite, get_folders, get_all_files}
use t_u_s_h_e_r.Transfer.Sender.{TransferStats, SendError}
use t_u_s_h_e_r.Network.Transport.{SocketAddr, TransportAddress}
use t_u_s_h_e_r.Network.Manager.Status.{PeerStatusInfo, get_peer_statuses}
use t_u_s_h_e_r.Sync.State.{SyncError, file_count, trigger_sync}
use t_u_s_h_e_r.Sync.Local.{initial_scan}
use t_u_s_h_e_r.Mesh.{
  Host, MeshNode, Sending, sent, failed, not_connected, connect_peer, share_folder, send_to_peer,
}
use t_u_s_h_e_r.Desktop.Shell.{
  Winreg, ShellError, install_context_menu, uninstall_context_menu, is_context_menu_installed,
}

pub record DesktopState : Type 0 where
  pub node : MeshNode
  pub sync_paused : Bool
  pub downloads_dir : Text
  pub tcp_port : ℕ
  pub discovery_port : ℕ
  pub web_port : ℕ

pub record NodeStatusDto : Type 0 where
  pub node_id : Text
  pub node_name : Text
  pub platform : Text
  pub tcp_port : ℕ
  pub discovery_port : ℕ
  pub web_port : ℕ
  pub downloads_dir : Text
  pub active_peers : ℕ
  pub shared_folders : ℕ
  pub sync_paused : Bool
  pub context_menu_installed : Bool
  pub transfer_status : Text

pub record PeerDto : Type 0 where
  pub node_id : Text
  pub node_name : Text
  pub platform : Text
  pub is_connected : Bool
  pub transport : Option TransportType
  pub latency : Option ℕ
  pub is_paired : Bool
  pub candidates : List Text
  pub serving_folders : List Text

pub record FolderDto : Type 0 where
  pub folder_id : Text
  pub folder_name : Text
  pub local_path : Text
  pub file_count : ℕ
  pub origin_device : Text
  pub is_local : Bool

pub record ConflictDto : Type 0 where
  pub folder_id : Text
  pub relative_path : Text
  pub file_size : ℕ
  pub modified_at : ℤ

-- Folders of the peers, each with the name and the platform of the peer.
abbrev pub RemoteFolders : Type 0
RemoteFolders = List (NodeId × (Text × Text × List SharedFolderInfo))

-- The number of all folders of the peers.
unfoldable pub count_remote : RemoteFolders → ℕ
count_remote [] = 0
count_remote ((peer_id, (name, platform, folders)) ∷ rest) = length folders + count_remote rest

-- `{:?}` of a platform, if there is one.
unfoldable pub platform_text : Option Platform → Text
platform_text none = ascii "Unknown"
platform_text (some windows) = ascii "Windows"
platform_text (some linux) = ascii "Linux"
platform_text (some mac_os) = ascii "MacOS"
platform_text (some android) = ascii "Android"
platform_text (some unknown) = ascii "Unknown"

unfoldable pub get_status_handler : Bool → DesktopState → NodeStatusDto
unfolding count_remote
get_status_handler context_menu_installed state =
    let m = state.node.manager in
    let c = state.node.coordinator in
    record {
      node_id = m.identity.node_id;
      node_name = m.identity.node_name;
      platform = fmt_platform m.identity.platform;
      tcp_port = state.tcp_port;
      discovery_port = state.discovery_port;
      web_port = state.web_port;
      downloads_dir = state.downloads_dir;
      active_peers = length (filter (λ p. p.is_connected) (get_peer_statuses m));
      shared_folders = length (get_folders c.db) + count_remote c.remote_folders;
      sync_paused = state.sync_paused;
      context_menu_installed = context_menu_installed;
      transfer_status =
          if state.sync_paused then ascii "Sync Paused" else ascii "Mesh Active - Synced";
    }

-- The names of the folders of a peer.
unfoldable pub serving : RemoteFolders → NodeId → List Text
serving remote peer_id = elim (get peer_id remote) [
  | none ↦ []
  | some (name, platform, folders) ↦ map (λ f. f.name) folders
]

unfoldable pub peer_dto : (SocketAddr → Text) → RemoteFolders → PeerStatusInfo → PeerDto
unfolding serving platform_text
peer_dto show_addr remote p = record {
  node_id = p.node_id;
  node_name = p.node_name;
  platform = platform_text p.platform;
  is_connected = p.is_connected;
  transport = p.active_transport;
  latency = p.latency;
  is_paired = true;
  candidates =
      map (λ c. fmt_transport_type c.transport_type ++ (58 ∷ show_addr c.addr))
        p.available_candidates;
  serving_folders = serving remote p.node_id;
}

unfoldable pub get_peers_handler : Host → DesktopState → List PeerDto
unfolding peer_dto
get_peers_handler host state =
    map (peer_dto host.show_addr state.node.coordinator.remote_folders)
      (get_peer_statuses state.node.manager)

unfoldable pub local_dto : Rusqlite → Text → MetadataDb → SharedFolder → FolderDto
local_dto driver origin db f = record {
  folder_id = f.folder_id;
  folder_name = f.name;
  local_path = f.local_path;
  file_count = file_count driver f.folder_id db;
  origin_device = origin;
  is_local = true;
}

unfoldable pub remote_dto : Text → Text → SharedFolderInfo → FolderDto
remote_dto peer_name peer_platform rf = record {
  folder_id = rf.folder_id;
  folder_name = rf.name;
  local_path = ascii "(Mesh Network Storage)";
  file_count = rf.file_count;
  origin_device = peer_name ++ (ascii " (" ++ (peer_platform ++ ascii ")"));
  is_local = false;
}

-- The loop over the folders of a peer.
unfoldable pub add_peer_folders :
    Text → Text → List SharedFolderInfo → List FolderDto → List FolderDto
unfolding remote_dto
add_peer_folders peer_name peer_platform [] result = result
add_peer_folders peer_name peer_platform (rf ∷ folders) result =
    add_peer_folders peer_name peer_platform folders (
      if any (λ existing. existing.folder_id == rf.folder_id) result
      then result
      else result ++ (remote_dto peer_name peer_platform rf ∷ []))

unfoldable pub add_remote_folders : RemoteFolders → List FolderDto → List FolderDto
unfolding add_peer_folders
add_remote_folders [] result = result
add_remote_folders ((peer_id, (name, platform, folders)) ∷ rest) result =
    add_remote_folders rest (add_peer_folders name platform folders result)

abbrev pub this_pc : DeviceIdentity → Text
this_pc identity =
    identity.node_name ++ (ascii " (This PC - " ++ (fmt_platform identity.platform ++ ascii ")"))

unfoldable pub get_folders_handler : Host → DesktopState → List FolderDto
unfolding local_dto add_remote_folders
get_folders_handler host state =
    let c = state.node.coordinator in
    add_remote_folders c.remote_folders
      (map (local_dto host.driver (this_pc state.node.manager.identity) c.db) (get_folders c.db))

-- The loop over the files of a folder.
unfoldable pub conflicts_among : Text → List FileRecord → List ConflictDto
conflicts_among folder_id [] = []
conflicts_among folder_id (file ∷ files) =
    let rest = conflicts_among folder_id files in
    if not file.is_deleted && contains (ascii "(Conflict -") file.relative_path
    then record {
      folder_id = folder_id;
      relative_path = file.relative_path;
      file_size = file.size_bytes;
      modified_at = file.modified_at;
    }
      ∷ rest
    else rest

unfoldable pub conflicts_in : Rusqlite → MetadataDb → List SharedFolder → List ConflictDto
unfolding conflicts_among
conflicts_in driver db [] = []
conflicts_in driver db (f ∷ folders) =
    let rest = conflicts_in driver db folders in
    elim (get_all_files driver f.folder_id db) [
      | ok files ↦ conflicts_among f.folder_id files ++ rest
      | _ ↦ rest
    ]

unfoldable pub get_conflicts_handler : Host → DesktopState → List ConflictDto
unfolding conflicts_in
get_conflicts_handler host state =
    let db = state.node.coordinator.db in conflicts_in host.driver db (get_folders db)
