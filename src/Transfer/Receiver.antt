-- ===== src/Transfer/Receiver.antt =====
-- `FileReceiver` of crates/tusher-transfer/src/receiver.rs, with the disk it works on. A handler
-- gives what is left of both, also where it fails, and its answer.
pub mod Names
pub mod Chunks
pub mod Resume
pub mod Completion
use t_u_s_h_e_r.Base.{
  ℕ, ◌≡◌, Bool, true, false, ◌&&◌, Option, none, some, List, [], ◌∷◌, ◌++◌, Outcome, ok, err, panic,
  nat_eq, bytes_eq, ◌==◌, ◌!=◌, if◌then◌else◌,
}
use t_u_s_h_e_r.Base.Text.{Text, ascii, replace, slash, backslash}
use t_u_s_h_e_r.Base.FilePath.{Component, normal, components, join}
use t_u_s_h_e_r.Base.Maps.{Map, empty, insert, remove}
use t_u_s_h_e_r.Core.Protocol.{
  Message, transfer_init_ack, transfer_chunk_ack, transfer_complete_ack, transfer_init,
  transfer_chunk, transfer_complete,
}
use t_u_s_h_e_r.Transfer.Hash.{Sha256, hash_bytes, hash_file}
use t_u_s_h_e_r.Transfer.Disk.{Disk, exists, create_with_len, write_at, rename}
use t_u_s_h_e_r.Transfer.State.{
  TransferState, TransferError, invalid_file_path, not_found, StateJson, add_chunk, state_file_path,
  partial_file_path, new_state, save, load,
}

pub record TransferCompletedInfo : Type 0 where
  pub transfer_id : Text
  pub folder_id : Option Text
  pub file_name : Text
  pub file_size : ℕ
  pub content_hash : Text
  pub dest_path : Text

-- Of `completion_tx`, what was handed to its `try_send`.
pub record FileReceiver : Type 0 where
  pub staging_dir : Text
  pub destination_dir : Text
  pub folder_destinations : Map Text
  pub active_transfers : Map TransferState
  pub completion_tx : Option (List TransferCompletedInfo)

pub record Node : Type 0 where
  pub receiver : FileReceiver
  pub disk : Disk

-- `FileReceiver::new`, in directories that are there.
unfoldable pub new_receiver : Text → Text → FileReceiver
new_receiver staging_dir destination_dir = record {
  staging_dir = staging_dir;
  destination_dir = destination_dir;
  folder_destinations = empty;
  active_transfers = empty;
  completion_tx = none;
}

-- Nothing was handed to the new channel yet.
unfoldable pub set_completion_channel : FileReceiver → FileReceiver
set_completion_channel rx = record rx { completion_tx = some [] }

unfoldable pub register_folder_destination : Text → Text → FileReceiver → FileReceiver
register_folder_destination folder_id path rx = record rx {
  folder_destinations = insert folder_id path rx.folder_destinations;
}

-- `PathBuf::push` of each normal component.
unfoldable pub push_normal : Text → List Component → Text
push_normal safe [] = safe
push_normal safe (normal c ∷ comps) = push_normal (if safe == [] then c else join safe c) comps
push_normal safe (_ ∷ comps) = push_normal safe comps

-- The check of a file name in `handle_init`.
unfoldable pub clean_file_name : Text → Option Text
unfolding push_normal
clean_file_name file_name =
    let safe = push_normal [] (components file_name) in
    if safe == [] then none else some (replace backslash slash safe)

-- The text of a failed integrity check.
abbrev pub integrity_error : Text → Text
integrity_error computed =
    ascii "Integrity check failed: hash mismatch (computed " ++ (computed ++ ascii ")")

module _ (sha : Sha256) (json : StateJson) where
  -- The state of an earlier transfer with the same id, content and size, or the new one.
  unfoldable pub resume_state : Text → TransferState → Disk → TransferState
  resume_state staging_dir new disk = elim (load json staging_dir new.transfer_id disk) [
    | ok existing ↦
        if existing.content_hash == new.content_hash && existing.file_size == new.file_size
        then existing
        else new
    | _ ↦ new
  ]

  unfoldable pub handle_init :
      Text → Option Text → Text → ℕ → Text → ℕ → ℕ → Node → Node × Outcome TransferError Message
  handle_init transfer_id folder_id file_name file_size content_hash chunk_size total_chunks node =
      let staging_dir = node.receiver.staging_dir in
      let partial_path = partial_file_path staging_dir transfer_id in
      elim (clean_file_name file_name) [
        | none ↦ (node, err (invalid_file_path file_name))
        | some clean ↦
            let state =
              resume_state staging_dir
                (new_state transfer_id folder_id clean file_size content_hash chunk_size
                  total_chunks)
                node.disk in
            let staged : Disk =
              if exists partial_path node.disk
              then node.disk
              else create_with_len partial_path file_size node.disk in
            elim (save json staging_dir state staged) [
              | ok saved ↦ (
                record {
                  receiver = record node.receiver {
                    active_transfers = insert transfer_id state node.receiver.active_transfers;
                  };
                  disk = saved;
                },
                ok (transfer_init_ack transfer_id true state.completed_chunks none),
              )
              | err e ↦ (record node { disk = staged }, err e)
              | panic ↦ (record node { disk = staged }, panic)
            ]
      ]

  -- "Update & persist state", for a transfer that is active.
  unfoldable pub complete_chunk : Text → ℕ → Node → Node × Outcome TransferError Message
  complete_chunk transfer_id chunk_index node = elim (node.receiver.active_transfers transfer_id) [
    | none ↦ (node, ok (transfer_chunk_ack transfer_id chunk_index true))
    | some state ↦
        let state' : TransferState = record state {
          completed_chunks = add_chunk chunk_index state.completed_chunks;
        } in
        let receiver' : FileReceiver = record node.receiver {
          active_transfers = insert transfer_id state' node.receiver.active_transfers;
        } in
        elim (save json node.receiver.staging_dir state' node.disk) [
          | ok saved ↦ (
            record { receiver = receiver'; disk = saved },
            ok (transfer_chunk_ack transfer_id chunk_index true),
          )
          | err e ↦ (record node { receiver = receiver' }, err e)
          | panic ↦ (record node { receiver = receiver' }, panic)
        ]
  ]

  unfoldable pub handle_chunk :
      Text → ℕ → ℕ → List ℕ → Text → Node → Node × Outcome TransferError Message
  unfolding complete_chunk
  handle_chunk transfer_id chunk_index offset bytes chunk_hash node =
      let partial_path = partial_file_path node.receiver.staging_dir transfer_id in
      if hash_bytes sha bytes != chunk_hash
      then (node, ok (transfer_chunk_ack transfer_id chunk_index false))
      else elim (node.disk partial_path) [
        | none ↦ (node, err not_found)
        | some file ↦
            complete_chunk transfer_id chunk_index
              (record node { disk = insert partial_path (write_at offset bytes file) node.disk })
      ]

  -- Where a verified file is placed.
  unfoldable pub dest_path : FileReceiver → TransferState → Text
  dest_path rx state = elim state.folder_id [
    | none ↦ join rx.destination_dir state.file_name
    | some fid ↦ elim (rx.folder_destinations fid) [
      | none ↦ join rx.destination_dir state.file_name
      | some folder_path ↦ join folder_path state.file_name
    ]
  ]

  -- "Atomic placement", cleanup and the notice of completion.
  unfoldable pub place : Text → TransferState → List ℕ → Node → Node
  unfolding dest_path
  place transfer_id state content node =
      let rx = node.receiver in
      let dest = dest_path rx state in
      let info : TransferCompletedInfo = record {
        transfer_id = transfer_id;
        folder_id = state.folder_id;
        file_name = state.file_name;
        file_size = state.file_size;
        content_hash = state.content_hash;
        dest_path = dest;
      } in
      record {
        receiver = record rx {
          completion_tx = elim rx.completion_tx [
            | none ↦ none
            | some sent ↦ some (sent ++ (info ∷ []))
          ];
        };
        disk =
            remove (state_file_path rx.staging_dir transfer_id)
              (rename (partial_file_path rx.staging_dir transfer_id) dest content node.disk);
      }

  -- `handle_complete` with the state of the transfer.
  unfoldable pub verify : Text → Text → TransferState → Node → Node × Outcome TransferError Message
  unfolding place
  verify transfer_id expected_hash state node =
      elim (node.disk (partial_file_path node.receiver.staging_dir transfer_id)) [
        | none ↦ (node, err not_found)
        | some content ↦
            let computed = hash_file sha content in
            if computed != expected_hash
            then (
              node,
              ok (transfer_complete_ack transfer_id false (some (integrity_error computed))),
            )
            else if computed != state.content_hash
            then (
              node,
              ok (transfer_complete_ack transfer_id false (some (integrity_error computed))),
            )
            else (
              place transfer_id state content node,
              ok (transfer_complete_ack transfer_id true none),
            )
      ]

  unfoldable pub handle_complete : Text → Text → Node → Node × Outcome TransferError Message
  unfolding verify
  handle_complete transfer_id expected_hash node =
      let node' : Node = record node {
        receiver = record node.receiver {
          active_transfers = remove transfer_id node.receiver.active_transfers;
        };
      } in
      elim (node.receiver.active_transfers transfer_id) [
        | some state ↦ verify transfer_id expected_hash state node'
        | none ↦ elim (load json node.receiver.staging_dir transfer_id node.disk) [
          | ok state ↦ verify transfer_id expected_hash state node'
          | err e ↦ (node', err e)
          | panic ↦ (node', panic)
        ]
      ]
