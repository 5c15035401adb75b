-- ===== src/Tests/Programs.antt =====
-- The desktop program, the FFI and the command line, over one shared folder and one peer.
use t_u_s_h_e_r.Base.{
  ◌≡◌, refl, false, none, some, List, [], ◌∷◌, map, arith, In, bytes_eq, nat_eq, ok, err, sort_by,
  insert_sorted,
}
use t_u_s_h_e_r.Base.Int.{pos, int_eq}
use t_u_s_h_e_r.Base.Text.{Text, ascii, slice_to, is_char_boundary}
use t_u_s_h_e_r.Base.FilePath.{parent, extension, file_stem}
use t_u_s_h_e_r.Base.Assoc.{get}
use t_u_s_h_e_r.Metadata.Models.{SharedFolder, FileRecord, ReconciliationAction, conflict}
use t_u_s_h_e_r.Metadata.Reconciler.{generate_conflict_path}
use t_u_s_h_e_r.Metadata.Service.{apply_reconciliation_action}
use t_u_s_h_e_r.Desktop.Web.Conflicts.{get_conflicts_handler-conflict}
use t_u_s_h_e_r.Metadata.Tables.{MetadataDb}
use t_u_s_h_e_r.Metadata.Db.{get_folder, get_folders, get_all_files, normalize_path}
use t_u_s_h_e_r.Network.Transport.{new_candidate}
use t_u_s_h_e_r.Network.Connection.{unreachable}
use t_u_s_h_e_r.Network.Manager.{ConnectionManager, new_manager}
use t_u_s_h_e_r.Transfer.Sender.{not_sent}
use t_u_s_h_e_r.Mesh.{Host, MeshNode, share_folder, register_existing}
use t_u_s_h_e_r.Mesh.Startup.{name_at, register_existing_lem}
use t_u_s_h_e_r.Mesh.Sharing.{share_folder_lem}
use t_u_s_h_e_r.Desktop.Web.{
  DesktopState, get_folders_handler, get_conflicts_handler, local_dto, this_pc,
}
use t_u_s_h_e_r.Desktop.Web.Folders.{Distinct, Told, Extends, AllListed, get_folders_handler_lem}
use t_u_s_h_e_r.Tests.Sync.{
  sqlite, plain_sha, time_text, notes, other_node, remote_edit, other_connection, coordinator,
  database_run,
}
use t_u_s_h_e_r.Tests.Network.{plain_crypto, lan_address, alice}

abbrev pub host : Host
host = record {
  driver = sqlite;
  sha = plain_sha;
  crypto = plain_crypto;
  now = pos 5;
  format_time = time_text;
  walkdir = λ root. [];
  parse_addr = λ text. none;
  show_addr = λ addr. [];
  hex_encode = λ bytes. bytes;
  streams = λ addr. err unreachable;
  wire = λ conn. other_connection;
  exchange = λ msg conn. (conn, err not_sent);
}

unfoldable pub manager : ConnectionManager
unfolding alice new_manager new_candidate
manager = record (new_manager alice 42424 42425) {
  candidates = (other_node, new_candidate lan_address ∷ []) ∷ [];
}

unfoldable pub node : MeshNode
unfolding manager coordinator
node = record {
  manager = manager;
  coordinator = record coordinator {
    remote_folders =
        (
          other_node,
          (
            ascii "two",
            ascii "Linux",
            record {
              folder_id = ascii "notes";
              name = ascii "Theirs";
              file_count = 3;
              created_at = pos 2;
            }
                ∷ [],
          ),
        )
        ∷ [];
  };
  sessions = [];
}

share_folder_lem_example :
    let c' = (share_folder host (ascii "docs") (ascii "Papers") (ascii "/d/x") coordinator).0 in
    ((f : SharedFolder) × (get_folder (ascii "docs") c'.db ≡ some f)
      × (f.name ≡ ascii "Papers")
      × (f.local_path ≡ ascii "/d/x"))
    × (get (ascii "docs") c'.registered_folders ≡ some (ascii "/d/x"))
    × (get_folder (ascii "notes") c'.db ≡ get_folder (ascii "notes") coordinator.db)
    × (get (ascii "notes") c'.registered_folders
        ≡ get (ascii "notes") coordinator.registered_folders)
share_folder_lem_example =
    share_folder_lem host (ascii "docs") (ascii "Papers") (ascii "/d/x") coordinator (ascii "notes")
      (λ h. absurd (ground arith))

notes_there : get_folder (ascii "notes") coordinator.db ≡ some notes
unfolding coordinator get_folder bytes_eq nat_eq
notes_there = refl

register_existing_lem_example :
    let c' = register_existing host (get_folders coordinator.db) coordinator in
    (get_folder (ascii "notes") c'.db
      ≡ some (record notes { name = name_at notes.folder_id notes.local_path }))
    × (get notes.folder_id c'.registered_folders ≡ some notes.local_path)
unfolding coordinator
register_existing_lem_example =
    register_existing_lem host coordinator (ascii "notes") notes (tt, tt) notes_there

desktop : DesktopState
unfolding node
desktop = record {
  node = node;
  sync_paused = false;
  downloads_dir = ascii "/d";
  tcp_port = 42424;
  discovery_port = 42425;
  web_port = 42950;
}

get_folders_handler_lem_example :
    Distinct (get_folders_handler host desktop)
    × Extends
        (Told desktop.node.coordinator.remote_folders)
        (map
          (local_dto sqlite (this_pc desktop.node.manager.identity) desktop.node.coordinator.db)
          (get_folders desktop.node.coordinator.db))
        (get_folders_handler host desktop)
    × AllListed (get_folders_handler host desktop) desktop.node.coordinator.remote_folders
unfolding desktop node coordinator
get_folders_handler_lem_example = get_folders_handler_lem host desktop (tt, tt)

abbrev copy_path : Text
copy_path = ascii "a (Conflict - tshr_two 20260101_000000).txt"

abbrev found_conflict : ReconciliationAction
found_conflict =
    conflict remote_edit.folder_id remote_edit.file_id (ascii "a.txt") copy_path
      remote_edit.size_bytes remote_edit.content_hash remote_edit.version remote_edit.origin_node_id

-- The catalog once the conflict is recorded.
recorded : MetadataDb
unfolding database_run coordinator
recorded = elim (apply_reconciliation_action (pos 5) found_conflict coordinator.db) [
  | ok db ↦ db
  | _ ↦ coordinator.db
]

listed : List FileRecord
unfolding recorded database_run coordinator get_all_files sort_by insert_sorted
listed = elim (get_all_files sqlite (ascii "notes") recorded) [ ok files ↦ files | _ ↦ [] ]

copy_named :
    generate_conflict_path time_text remote_edit.relative_path remote_edit.origin_node_id
      remote_edit.modified_at
    ≡ ok copy_path
unfolding database_run generate_conflict_path parent extension file_stem slice_to is_char_boundary
copy_named = refl

copy_recorded :
    apply_reconciliation_action (pos 5) found_conflict desktop.node.coordinator.db ≡ ok recorded
unfolding database_run recorded desktop node coordinator
copy_recorded = refl

copy_listed : get_all_files sqlite (ascii "notes") recorded ≡ ok listed
unfolding database_run recorded listed coordinator get_all_files sort_by insert_sorted
copy_listed = refl

get_conflicts_handler-conflict_example :
    In
      (record {
        folder_id = ascii "notes";
        relative_path = normalize_path copy_path;
        file_size = 4;
        modified_at = pos 5;
      })
      (get_conflicts_handler host (record desktop {
        node = record desktop.node {
          coordinator = record desktop.node.coordinator { db = recorded };
        };
      }))
get_conflicts_handler-conflict_example =
    get_conflicts_handler-conflict host desktop remote_edit (ascii "a.txt") copy_path listed
      copy_named (omega arith) (omega arith) copy_recorded copy_listed
