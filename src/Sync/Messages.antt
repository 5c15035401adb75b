-- ===== src/Sync/Messages.antt =====
-- `handle_peer_message` of crates/tusher-sync/src/coordinator.rs. What it spawns is returned.
-- A panic in it ends the task that serves the connection, and gives no answer either.
use t_u_s_h_e_r.Base.{ℕ, Option, none, some, List, [], ◌∷◌, if◌then◌else◌, ok}
use t_u_s_h_e_r.Base.Text.{Text}
use t_u_s_h_e_r.Base.FilePath.{join}
use t_u_s_h_e_r.Base.Assoc.{get, put}
use t_u_s_h_e_r.Core.Types.{NodeId}
use t_u_s_h_e_r.Core.Protocol.{
  Message, manifest_req, manifest_resp, transfer_init, transfer_chunk, transfer_complete,
  file_pull_req, sync_notify, folder_list_req, folder_list_resp,
}
use t_u_s_h_e_r.Metadata.Db.{Rusqlite}
use t_u_s_h_e_r.Metadata.Service.{handle_manifest_request}
use t_u_s_h_e_r.Transfer.Hash.{Sha256}
use t_u_s_h_e_r.Transfer.State.{StateJson}
use t_u_s_h_e_r.Transfer.Disk.{exists}
use t_u_s_h_e_r.Transfer.Service.{handle_incoming_message}
use t_u_s_h_e_r.Sync.State.{Coordinator, connection, folder_infos}

-- A spawned task: a file to stream to a peer, or a reconciliation with it.
pub data Task : Type 0 where
  stream : (peer_id : NodeId) (folder_id local_file_path send_dest : Text) → Task
  reconcile : (peer_id : NodeId) (folder_id : Text) (latest_event_seq : ℕ) → Task

abbrev pub Handled : Type 0
Handled = Coordinator × Option Message × List Task

module _ (driver : Rusqlite) (sha : Sha256) (json : StateJson) where
  unfoldable pub on_manifest_req : Text → ℕ → Coordinator → Handled
  on_manifest_req folder_id since_event_seq c =
      elim (handle_manifest_request driver folder_id since_event_seq c.db) [
        | ok (events, latest) ↦ (c, some (manifest_resp folder_id events latest), [])
        | _ ↦ (c, none, [])
      ]

  unfoldable pub on_transfer : Message → Coordinator → Handled
  on_transfer msg c =
      let (node, result) = handle_incoming_message sha json msg c.transfer in
      let c' : Coordinator = record c { transfer = node } in
      elim result [ ok resp ↦ (c', resp, []) | _ ↦ (c', none, []) ]

  unfoldable pub on_file_pull_req : NodeId → Text → Text → Option Text → Coordinator → Handled
  on_file_pull_req peer_id folder_id relative_path dest_path c =
      elim (get folder_id c.registered_folders) [
        | none ↦ (c, none, [])
        | some folder_root ↦
            let local_file_path = join folder_root relative_path in
            let send_dest : Text = elim dest_path [ none ↦ relative_path | some d ↦ d ] in
            if exists local_file_path c.transfer.disk
            then elim (connection peer_id c) [
              | none ↦ (c, none, [])
              | some conn ↦ (c, none, stream peer_id folder_id local_file_path send_dest ∷ [])
            ]
            else (c, none, [])
      ]

  unfoldable pub handle_peer_message : NodeId → Message → Coordinator → Handled
  unfolding on_manifest_req on_transfer on_file_pull_req
  handle_peer_message peer_id (manifest_req folder_id since) c = on_manifest_req folder_id since c
  handle_peer_message peer_id (transfer_init id folder name size hash chunk total) c =
      on_transfer (transfer_init id folder name size hash chunk total) c
  handle_peer_message peer_id (transfer_chunk id index offset bytes hash) c =
      on_transfer (transfer_chunk id index offset bytes hash) c
  handle_peer_message peer_id (transfer_complete id hash) c =
      on_transfer (transfer_complete id hash) c
  handle_peer_message peer_id (file_pull_req folder_id file_id relative_path dest_path) c =
      on_file_pull_req peer_id folder_id relative_path dest_path c
  handle_peer_message peer_id (sync_notify folder_id latest) c =
      (c, none, reconcile peer_id folder_id latest ∷ [])
  handle_peer_message peer_id folder_list_req c =
      (c, some (folder_list_resp (folder_infos driver c.db)), [])
  handle_peer_message peer_id (folder_list_resp folders) c = elim (connection peer_id c) [
    | none ↦ (c, none, [])
    | some conn ↦ (
      record c {
        remote_folders =
            put peer_id (conn.remote_name, conn.remote_platform, folders) c.remote_folders;
      },
      none,
      [],
    )
  ]
  handle_peer_message peer_id msg c = (c, none, [])
