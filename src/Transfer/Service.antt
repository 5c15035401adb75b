-- ===== src/Transfer/Service.antt =====
-- `TransferService` of crates/tusher-transfer/src/service.rs: the messages for the receiver.
use t_u_s_h_e_r.Base.{Option, none, some, Outcome, ok, err, panic}
use t_u_s_h_e_r.Core.Protocol.{Message, transfer_init, transfer_chunk, transfer_complete}
use t_u_s_h_e_r.Transfer.Hash.{Sha256}
use t_u_s_h_e_r.Transfer.State.{TransferError, StateJson}
use t_u_s_h_e_r.Transfer.Receiver.{Node, handle_init, handle_chunk, handle_complete}

-- `Ok(Some(resp))`, once the handler is through.
unfoldable pub respond :
    Node × Outcome TransferError Message → Node × Outcome TransferError (Option Message)
respond (node, ok resp) = (node, ok (some resp))
respond (node, err e) = (node, err e)
respond (node, panic) = (node, panic)

module _ (sha : Sha256) (json : StateJson) where
  unfoldable pub handle_incoming_message :
      Message → Node → Node × Outcome TransferError (Option Message)
  unfolding respond
  handle_incoming_message (transfer_init id folder_id name size hash chunk_size total) node =
      respond (handle_init sha json id folder_id name size hash chunk_size total node)
  handle_incoming_message (transfer_chunk id index offset bytes hash) node =
      respond (handle_chunk sha json id index offset bytes hash node)
  handle_incoming_message (transfer_complete id hash) node =
      respond (handle_complete sha json id hash node)
  handle_incoming_message msg node = (node, ok none)
