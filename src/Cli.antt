-- ===== src/Cli.antt =====
-- The commands of crates/tusher-cli/src/main.rs. What is printed is kept as a list of values, one for
-- a message; a duration stays in microseconds.
pub mod Dispatch
pub mod Lines
pub mod Peers
pub mod Manifest
pub mod Folders
use Prim.Native.Nat.{min}
use t_u_s_h_e_r.Base.{
  ℕ, ◌≡◌, Bool, true, false, ◌&&◌, ◌||◌, Option, none, some, List, [], ◌∷◌, ◌++◌, map, find?,
  length, if◌then◌else◌, ◌==◌, bytes_eq, nat_eq, Outcome, ok, err, panic,
}
use t_u_s_h_e_r.Base.Text.{Text, ascii, starts_with, slice_to}
use t_u_s_h_e_r.Core.Types.{NodeId, paired}
use t_u_s_h_e_r.Core.Protocol.{Message, SyncEvent, manifest_req, manifest_resp}
use t_u_s_h_e_r.Core.Keys.{DeviceIdentity, to_lowercase}
use t_u_s_h_e_r.Metadata.Models.{
  SharedFolder, ReconciliationAction, up_to_date, download_needed, delete_local, conflict, ignore,
}
use t_u_s_h_e_r.Metadata.Tables.{DbError}
use t_u_s_h_e_r.Metadata.Db.{get_folders}
use t_u_s_h_e_r.Metadata.Service.{
  handle_manifest_request, reconcile_remote_events, apply_reconciliation_action,
}
use t_u_s_h_e_r.Transfer.Sender.{TransferStats, SendError}
use t_u_s_h_e_r.Network.Transport.{SocketAddr}
use t_u_s_h_e_r.Network.Pairing.{create_pairing_invite}
use t_u_s_h_e_r.Network.Manager.{ConnectionManager, set_trusted, set_simulate_lan_disabled}
use t_u_s_h_e_r.Network.Manager.Status.{PeerStatusInfo, get_peer_statuses}
use t_u_s_h_e_r.Sync.State.{
  SyncError, send_failed, timed_out, Connection, Coordinator, send, connection, trigger_sync,
}
use t_u_s_h_e_r.Sync.Local.{register_folder, initial_scan}
use t_u_s_h_e_r.Mesh.{
  Host, MeshNode, Sending, sent, failed, not_connected, connect_peer, trust_all_peers, send_to_peer,
}

pub data Output : Type 0 where
  peers_shown : List PeerStatusInfo → Output
  status_shown : DeviceIdentity → Output
  invite_shown : (token uri : Text) → Output
  usage : Text → Output
  candidate_added : SocketAddr → Output
  invalid_address : Text → Output
  peer_trusted : PeerStatusInfo → Output
  peer_not_found : Text → Output
  file_missing : Text → Output
  transfer_complete : TransferStats → Output
  transfer_failed : SendError → Output
  peer_not_connected : NodeId → Output
  folders_shown : List SharedFolder → Output
  folder_added : (name folder_id path : Text) → Output
  sync_notified : Text → Output
  sync_error : SyncError → Output
  indexed : Text → Output
  index_error : SyncError → Output
  events_shown : (folder_id : Text) (count latest : ℕ) → Output
  event_shown : SyncEvent → (hash : Text) → Output
  query_error : DbError → Output
  manifest_received : (count latest : ℕ) → Output
  manifest_error : SyncError → Output
  actions_shown : ℕ → Output
  action_shown : ReconciliationAction → Output
  unexpected_response connection_closed : Output
  lan_severed lan_restored help_shown shutting_down : Output
  unknown_command : Text → Output

pub record CliNode : Type 0 where
  pub node : MeshNode
  pub port : ℕ
  pub printed : List Output

-- What follows a command: the next line, the end of the program, or its end by a panic.
pub data Flow : Type 0 where
  go_on stop panicked : Flow

abbrev pub Ran : Type 0
Ran = CliNode × Flow

unfoldable pub print : Output → CliNode → CliNode
print out s = record s { printed = s.printed ++ (out ∷ []) }

-- A message, and nothing else.
abbrev pub say : Output → CliNode → Ran
say out s = (print out s, go_on)

abbrev pub with_coordinator : Coordinator → CliNode → CliNode
with_coordinator c s = record s { node = record s.node { coordinator = c } }

-- The test of a peer against what was typed.
abbrev pub is_target : Text → PeerStatusInfo → Bool
is_target id_str p =
    p.node_id == id_str
    || starts_with id_str p.node_id
    || to_lowercase p.node_name == to_lowercase id_str

unfoldable pub find_target : Text → ConnectionManager → Option PeerStatusInfo
find_target id_str m = find? (is_target id_str) (get_peer_statuses m)

unfoldable pub peers_command : CliNode → Ran
peers_command s = say (peers_shown (get_peer_statuses s.node.manager)) s

unfoldable pub status_command : CliNode → Ran
status_command s = say (status_shown s.node.manager.identity) s

-- `hint` is `127.0.0.1:` with the port, `token_bytes` and `instant` are random numbers and the time.
unfoldable pub invite_command : Host → List ℕ → ℕ → Text → CliNode → Ran
invite_command host token_bytes instant hint s =
    let (sessions, token, uri) =
      create_pairing_invite host.hex_encode token_bytes instant s.node.manager.identity hint
        s.node.sessions in
    say (invite_shown token uri) (record s { node = record s.node { sessions = sessions } })

unfoldable pub connect_command : Host → List Text → CliNode → Ran
connect_command host [] s = say (usage (ascii "connect <ip:port>")) s
connect_command host (addr_str ∷ rest) s =
    let (node, found) = connect_peer host addr_str s.node in
    elim found [
      | some addr ↦ say (candidate_added addr) (record s { node = node })
      | none ↦ say (invalid_address addr_str) (record s { node = node })
    ]

-- The messages of `trust-all`.
unfoldable pub print_trusted : List PeerStatusInfo → CliNode → CliNode
print_trusted [] s = s
print_trusted (p ∷ peers) s = print_trusted peers (print (peer_trusted p) s)

unfoldable pub trust_all_command : CliNode → Ran
unfolding print_trusted
trust_all_command s = (
  print_trusted (get_peer_statuses s.node.manager) (record s { node = trust_all_peers s.node }),
  go_on,
)

unfoldable pub pair_command : List Text → CliNode → Ran
unfolding find_target
pair_command [] s = say (usage (ascii "pair <peer_id>")) s
pair_command (id_str ∷ rest) s = elim (find_target id_str s.node.manager) [
  | none ↦ say (peer_not_found id_str) s
  | some target ↦ say (peer_trusted target) (record s {
    node = record s.node { manager = set_trusted target.node_id paired s.node.manager };
  })
]

-- From the search for the peer on, for a file that is there.
unfoldable pub send_found : Host → Text → Text → List ℕ → CliNode → Ran
unfolding find_target
send_found host id_str file_path content s = elim (find_target id_str s.node.manager) [
  | none ↦ say (peer_not_found id_str) s
  | some target ↦
      let (node, result) = send_to_peer host target.node_id file_path content s.node in
      let s' : CliNode = record s { node = node } in
      elim result [
        | ok (sent stats) ↦ say (transfer_complete stats) s'
        | ok (failed e) ↦ say (transfer_failed e) s'
        | ok not_connected ↦ say (peer_not_connected target.node_id) s'
        | err e ↦ say (transfer_failed e) s'
        | panic ↦ (s', panicked)
      ]
]

-- A path that exists is taken to be that of a file, not of a directory.
unfoldable pub send_command : Host → List Text → CliNode → Ran
unfolding send_found
send_command host (id_str ∷ file_path ∷ rest) s =
    elim (s.node.coordinator.transfer.disk file_path) [
      | none ↦ say (file_missing file_path) s
      | some content ↦ send_found host id_str file_path content s
    ]
send_command host args s = say (usage (ascii "send <peer_id_or_name> <file_path>")) s

-- `&content_hash[..8.min(content_hash.len())]`
abbrev pub short_hash : Text → Outcome SyncError Text
short_hash content_hash = slice_to content_hash (min 8 (length content_hash))

-- Whether an action can be printed.
unfoldable pub is_printable : ReconciliationAction → Bool
is_printable (download_needed folder file path size content_hash version origin) =
    elim (short_hash content_hash) [ ok hash ↦ true | _ ↦ false ]
is_printable action = true

-- The loop over the actions: each is printed, and recorded if it can be.
unfoldable pub apply_actions : Host → List ReconciliationAction → CliNode → Ran
unfolding is_printable
apply_actions host [] s = (s, go_on)
apply_actions host (act ∷ actions) s =
    let c = s.node.coordinator in
    let said = print (action_shown act) s in
    elim (is_printable act) [
      | false ↦ (s, panicked)
      | true ↦ elim (apply_reconciliation_action host.now act c.db) [
        | ok db ↦ apply_actions host actions (with_coordinator (record c { db = db }) said)
        | err e ↦ apply_actions host actions said
        | panic ↦ (said, panicked)
      ]
    ]

unfoldable pub on_manifest : Host → List SyncEvent → ℕ → CliNode → Ran
unfolding apply_actions
on_manifest host events latest s =
    let said = print (manifest_received (length events) latest) s in
    elim (reconcile_remote_events host.driver host.format_time s.node.coordinator.db events) [
      | ok actions ↦ apply_actions host actions (print (actions_shown (length actions)) said)
      | err e ↦ (print (actions_shown 0) said, go_on)
      | panic ↦ (said, panicked)
    ]

-- The match on what comes within five seconds.
unfoldable pub on_response : Host → Outcome SyncError (Option Message) → CliNode → Ran
unfolding on_manifest
on_response host (ok (some (manifest_resp folder_id events latest))) s =
    on_manifest host events latest s
on_response host (ok (some other)) s = say unexpected_response s
on_response host (ok none) s = say connection_closed s
on_response host (err e) s = say (manifest_error e) s
on_response host panic s = (s, panicked)

-- What follows the request, for a peer that is connected.
unfoldable pub after_request :
    Host → Connection → CliNode → Coordinator × Outcome SyncError (Unit {0}) → Ran
unfolding on_response
after_request host conn s (c, ok u) = on_response host conn.manifest (with_coordinator c s)
after_request host conn s (c, err e) = say (manifest_error e) (with_coordinator c s)
after_request host conn s (c, panic) = (with_coordinator c s, panicked)

unfoldable pub manifest_command : Host → List Text → CliNode → Ran
unfolding find_target after_request
manifest_command host (id_str ∷ folder_id ∷ rest) s = elim (find_target id_str s.node.manager) [
  | none ↦ say (peer_not_found id_str) s
  | some target ↦ elim (connection target.node_id s.node.coordinator) [
    | none ↦ say (peer_not_connected target.node_id) s
    | some conn ↦
        after_request host conn s
          (send target.node_id conn (manifest_req folder_id 0) s.node.coordinator)
  ]
]
manifest_command host args s = say (usage (ascii "manifest <peer_id_or_name> <folder_id>")) s

unfoldable pub simulate_command : Bool → CliNode → Ran
simulate_command disabled s = say (if disabled then lan_severed else lan_restored) (record s {
  node = record s.node { manager = set_simulate_lan_disabled disabled s.node.manager };
})
