-- ===== src/Tests/Commands.antt =====
-- Lines of the command line, and a new node of the FFI.
use t_u_s_h_e_r.Base.{
  ℕ, ◌≡◌, refl, inl, true, false, Option, none, some, List, [], ◌∷◌, ◌++◌, arith, map, length, take,
  drop, take-append_length, drop-append_length, bytes_eq, nat_eq, if◌then◌else◌, ◌==◌, Outcome, ok,
}
use t_u_s_h_e_r.Base.Int.{pos, negsuc}
use t_u_s_h_e_r.Base.Text.{Text, ascii, slice_to, is_char_boundary}
use t_u_s_h_e_r.Base.Assoc.{get}
use t_u_s_h_e_r.Core.Types.{linux}
use t_u_s_h_e_r.Core.Protocol.{manifest_req}
use t_u_s_h_e_r.Metadata.Models.{SharedFolder, up_to_date}
use t_u_s_h_e_r.Metadata.Tables.{MetadataDb}
use t_u_s_h_e_r.Metadata.Db.{get_folder, get_folders}
use t_u_s_h_e_r.Metadata.Reconciler.{reconcile_event, download}
use t_u_s_h_e_r.Metadata.Service.{apply_reconciliation_action}
use t_u_s_h_e_r.Network.Transport.{new_candidate}
use t_u_s_h_e_r.Network.Manager.{is_trusted, new_manager}
use t_u_s_h_e_r.Network.Manager.Status.{PeerStatusInfo, peer_status, get_peer_statuses}
use t_u_s_h_e_r.Sync.State.{connection}
use t_u_s_h_e_r.Core.Identity.{StoredIdentity, IdentityStore, generate, with_key, public_identity}
use t_u_s_h_e_r.Ffi.{
  TusherNode, FfiError, Start, new_node, listed_folder, list_shared_folders, scan_and_index_folder,
}
use t_u_s_h_e_r.Ffi.Restart.{new_node_lem}
use t_u_s_h_e_r.Core.Keys.{from_verifying_key}
use t_u_s_h_e_r.Mesh.{launch, register_existing}
use t_u_s_h_e_r.Sync.Local.{register_folder, start, scan_folders, new_coordinator}
use t_u_s_h_e_r.Mesh.Startup.{name_at}
use t_u_s_h_e_r.Cli.{
  CliNode, stop, print, shutting_down, find_target, is_printable, pair_command, manifest_command,
}
use t_u_s_h_e_r.Cli.Dispatch.{Input, run_line, run_lines}
use t_u_s_h_e_r.Cli.Lines.{Spells, run_line_add_folder, run_lines_quit}
use t_u_s_h_e_r.Cli.Peers.{pair_command_named}
use t_u_s_h_e_r.Cli.Manifest.{manifest_command-download}
use t_u_s_h_e_r.Tests.Sync.{
  sqlite, time_text, other_node, remote_edit, other_connection, coordinator, database_run,
}
use t_u_s_h_e_r.Tests.Network.{plain_crypto, lan_address, alice}
use t_u_s_h_e_r.Tests.Programs.{host, manager, node}

cli : CliNode
unfolding node
cli = record { node = node; port = 42424; printed = [] }

abbrev typed : Text → Input
typed line = record { host = host; token_bytes = []; instant = 0; hint = []; line = line }

-- A path with a space in it.
abbrev add_line : Input
add_line = typed (ascii " add-folder docs  Papers /my files ")

add_line-Spells :
    Spells add_line
      (ascii "add-folder")
      ((0, ascii "docs") ∷ (1, ascii "Papers") ∷ (0, ascii "/my") ∷ (0, ascii "files") ∷ [])
add_line-Spells = (
  1,
  1,
  refl,
  (λ h. absurd (ground arith), omega arith),
  (
    (λ h. absurd (ground arith), omega arith),
    (
      (λ h. absurd (ground arith), omega arith),
      ((λ h. absurd (ground arith), omega arith), ((λ h. absurd (ground arith), omega arith), tt)),
    ),
  ),
)

run_line_add_folder_example :
    let c = cli.node.coordinator in
    let c' = (run_line add_line cli).0.node.coordinator in
    ((f : SharedFolder) × (get_folder (ascii "docs") c'.db ≡ some f)
      × (f.name ≡ name_at (ascii "docs") (ascii "/my"))
      × (f.local_path ≡ ascii "/my"))
    × (get (ascii "docs") c'.registered_folders ≡ some (ascii "/my"))
    × (c' ≡ record (register_folder host.driver host.sha host.now (ascii "docs") (ascii "/my") c) {
      sent = c'.sent;
    })
    × (get_folder (ascii "notes") c'.db ≡ get_folder (ascii "notes") c.db)
    × (get (ascii "notes") c'.registered_folders ≡ get (ascii "notes") c.registered_folders)
run_line_add_folder_example =
    run_line_add_folder add_line (ascii "Papers") 0 1 0 (ascii "docs") (ascii "/my")
      ((0, ascii "files") ∷ []) cli (ascii "notes") add_line-Spells (λ h. absurd (ground arith))

abbrev quit_line : Input
quit_line = typed (ascii "quit now")

quit_line-Spells : Spells quit_line (ascii "quit") ((0, ascii "now") ∷ [])
quit_line-Spells = (
  0,
  0,
  refl,
  (λ h. absurd (ground arith), omega arith),
  ((λ h. absurd (ground arith), omega arith), tt),
)

run_lines_quit_example :
    (run_lines ((add_line ∷ []) ++ (quit_line ∷ (add_line ∷ []))) cli
      ≡ run_lines ((add_line ∷ []) ++ (quit_line ∷ [])) cli)
    × (run_lines (quit_line ∷ (add_line ∷ [])) cli ≡ (print shutting_down cli, stop))
run_lines_quit_example =
    run_lines_quit (add_line ∷ []) (add_line ∷ []) quit_line (ascii "quit") ((0, ascii "now") ∷ [])
      cli quit_line-Spells (inl refl)

-- The peer, which is not connected for the manager.
abbrev peer : PeerStatusInfo
peer = record {
  node_id = other_node;
  node_name = other_node;
  platform = none;
  is_connected = false;
  active_transport = none;
  active_addr = none;
  latency = none;
  available_candidates = lan_address ∷ [];
  is_paired = false;
}

one_peer : get_peer_statuses cli.node.manager ≡ peer ∷ []
unfolding cli node manager alice get_peer_statuses peer_status is_trusted get new_manager
    new_candidate
one_peer = refl

pair_command_named_example :
    let m' = (pair_command (ascii "TSHR_TWO" ∷ []) cli).0.node.manager in
    (is_trusted other_node m' ≡ true)
    × (is_trusted (ascii "TSHR_TWO") m' ≡ is_trusted (ascii "TSHR_TWO") cli.node.manager)
pair_command_named_example =
    pair_command_named (ascii "TSHR_TWO") peer [] cli one_peer refl (λ h. absurd (ground arith))

peer_found : find_target other_node cli.node.manager ≡ some peer
unfolding cli node manager alice get_peer_statuses peer_status is_trusted get new_manager
    new_candidate find_target bytes_eq nat_eq
peer_found = refl

peer_connected : connection other_node cli.node.coordinator ≡ some other_connection
unfolding cli node coordinator get bytes_eq nat_eq
peer_connected = refl

edit_wanted :
    reconcile_event time_text sqlite cli.node.coordinator.db remote_edit ≡ ok (download remote_edit)
unfolding cli node coordinator database_run
edit_wanted = refl

edit_printable : is_printable (download remote_edit) ≡ true
unfolding is_printable slice_to is_char_boundary nat_eq
edit_printable = refl

-- The catalog with the file that was not pulled.
edited : MetadataDb
unfolding database_run cli node coordinator
edited = elim (apply_reconciliation_action (pos 5) (download remote_edit) cli.node.coordinator.db) [
  | ok db ↦ db
  | _ ↦ cli.node.coordinator.db
]

edit_recorded :
    apply_reconciliation_action (pos 5) (download remote_edit) cli.node.coordinator.db ≡ ok edited
unfolding database_run edited cli node coordinator
edit_recorded = refl

manifest_command-download_example :
    let c = cli.node.coordinator in
    let c' = (manifest_command host (other_node ∷ ascii "notes" ∷ []) cli).0.node.coordinator in
    (c'.transfer ≡ c.transfer)
    × (c'.sent ≡ c.sent ++ ((other_node, manifest_req (ascii "notes") 0) ∷ []))
    × (reconcile_event time_text sqlite c'.db remote_edit ≡ ok (up_to_date (ascii "f_1") 2))
manifest_command-download_example =
    manifest_command-download host other_node (ascii "notes") (ascii "notes") peer other_connection
      remote_edit 3 cli edited peer_found peer_connected refl refl refl (omega arith) (omega arith)
      edit_wanted edit_printable edit_recorded

-- A stand-in for the JSON text: the time, the length of the key, the key and the name.
to_json : StoredIdentity → List ℕ
to_json s =
    let rest = length s.private_key_hex ∷ (s.private_key_hex ++ s.node_name) in
    elim s.created_at [ pos n ↦ 0 ∷ n ∷ rest | negsuc n ↦ 1 ∷ n ∷ rest ]

from_json : List ℕ → Option StoredIdentity
from_json (sign ∷ n ∷ k ∷ rest) = some (record {
  private_key_hex = take k rest;
  node_name = drop k rest;
  created_at = if sign == 0 then pos n else negsuc n;
})
from_json other = none

from_json-to_json : (s : StoredIdentity) → from_json (to_json s) ≡ some s
unfolding to_json from_json nat_eq
from_json-to_json s = ground (
  arith,
  take-append_length s.private_key_hex s.node_name,
  drop-append_length s.private_key_hex s.node_name,
)

abbrev plain_store : IdentityStore
unfolding to_json from_json
plain_store = record {
  hex_encode = λ bytes. bytes;
  hex_decode = λ text. some text;
  signing_key = λ bytes. some bytes;
  verifying_key_of = λ bytes. bytes;
  to_json = to_json;
  from_json = from_json;
  hex_decode-hex_encode = λ bytes. refl;
  from_json-to_json = from_json-to_json;
}

abbrev second_start : Start
unfolding coordinator
second_start = record {
  random_key = 1 ∷ 2 ∷ [];
  create_dir_all = λ path. true;
  opened = some coordinator.db;
  disk = λ path. none;
  bound = 5000;
}

started : Outcome FfiError TusherNode
unfolding new_node launch register_existing start scan_folders new_coordinator generate with_key
    public_identity
started = new_node host plain_store linux second_start (ascii "/data") (ascii "phone") 0 42425

restarted : TusherNode
unfolding started node alice
restarted = elim started [
  | ok n ↦ n
  | _ ↦ record { identity = alice; node = node; event_listeners = []; data_dir = [] }
]

started_ok :
    new_node host plain_store linux second_start (ascii "/data") (ascii "phone") 0 42425
    ≡ ok restarted
unfolding started restarted
started_ok = refl

new_node_lem_example :
    (restarted.identity.node_id ≡ from_verifying_key plain_crypto (1 ∷ 2 ∷ []))
    × (list_shared_folders host restarted
        ≡ map (listed_folder host coordinator.db) (get_folders coordinator.db))
    × (restarted.node.coordinator.registered_folders ≡ [])
    × (scan_and_index_folder host (ascii "notes") restarted ≡ (restarted, ok tt))
unfolding to_json from_json coordinator
new_node_lem_example =
    new_node_lem host plain_store linux second_start (ascii "/data") (ascii "phone") 0 42425
      coordinator.db restarted (ascii "notes") refl started_ok
