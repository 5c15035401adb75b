-- ===== src/Tests/Delivery.antt =====
-- A sender and a receiver of crates/tusher-transfer, connected, at a file of three bytes.
use t_u_s_h_e_r.Base.{
  ℕ, ◌≡◌, refl, Bool, true, false, ◌&&◌, Option, none, some, List, [], ◌∷◌, ◌++◌, arith, bytes_eq,
  nat_eq, ◌==◌, if◌then◌else◌, Outcome, ok,
}
use t_u_s_h_e_r.Base.Cuts.{append-nil, append_assoc}
use t_u_s_h_e_r.Base.Text.{Text, ascii, replace, slice_to, is_char_boundary}
use t_u_s_h_e_r.Base.FilePath.{components, join}
use t_u_s_h_e_r.Base.Maps.{empty}
use t_u_s_h_e_r.Transfer.Hash.{Sha256, hash_bytes, hash_file, hash_loop}
use t_u_s_h_e_r.Transfer.Disk.{write_at}
use t_u_s_h_e_r.Transfer.State.{
  TransferState, StateJson, add_chunk, state_file_path, partial_file_path, save, load,
}
use t_u_s_h_e_r.Transfer.Receiver.{
  Node, new_receiver, clean_file_name, push_normal, resume_state, handle_init, handle_chunk,
  complete_chunk, handle_complete, verify, place, dest_path,
}
use t_u_s_h_e_r.Transfer.Service.{handle_incoming_message, respond}
use t_u_s_h_e_r.Transfer.Sender.{
  SendError, TransferStats, init_response, chunk_response, complete_response, send_chunks,
  send_content, send_with_id, transfer_id_of, total_chunks, current_chunk_len, read_exact,
  send_file_with_target_path,
}
use t_u_s_h_e_r.Transfer.Sender.Delivery.{
  Delivered, to_receiver, send_file_with_target_path-Confirmed,
}

-- A stand-in for the hash: sixteen characters, and the bytes themselves.
abbrev long_sha : Sha256
long_sha = record {
  Hasher = List ℕ;
  new = [];
  update = λ h bytes. h ++ bytes;
  finalize = λ h. ascii "0123456789abcdef" ++ h;
  update-nil = append-nil;
  update-append = append_assoc;
}

abbrev file : List ℕ
file = 1 ∷ 2 ∷ 3 ∷ []

abbrev sent_state : List ℕ → TransferState
sent_state chunks = record {
  transfer_id = ascii "xfer_0123456789abcdef";
  folder_id = none;
  file_name = ascii "a";
  file_size = 3;
  content_hash = ascii "0123456789abcdef" ++ file;
  chunk_size = 2;
  total_chunks = 2;
  completed_chunks = chunks;
}

no_folder : Option Text → Bool
no_folder none = true
no_folder (some _) = false

-- A stand-in for serde: the chunks of the states of this transfer.
write_sent : TransferState → Option (List ℕ)
unfolding no_folder
write_sent s =
    if s.transfer_id == ascii "xfer_0123456789abcdef"
      && no_folder s.folder_id
      && s.file_name == ascii "a"
      && s.file_size == 3
      && s.content_hash == ascii "0123456789abcdef" ++ file
      && s.chunk_size == 2
      && s.total_chunks == 2
    then some s.completed_chunks
    else none

read_sent : List ℕ → Option TransferState
read_sent p = some (sent_state p)

read_sent-write_sent :
    (s : TransferState) (p : List ℕ) → write_sent s ≡ some p → read_sent p ≡ some s
unfolding read_sent write_sent no_folder
read_sent-write_sent s p h = ground arith

abbrev sent_json : StateJson
sent_json = record {
  to_vec_pretty = write_sent;
  from_slice = read_sent;
  from_slice-to_vec_pretty = read_sent-write_sent;
}

-- A receiver that was just made.
abbrev fresh : Node
unfolding new_receiver
fresh = record { receiver = new_receiver (ascii "s") (ascii "d"); disk = empty }

sent : Node × Outcome SendError TransferStats
unfolding send_file_with_target_path
sent =
    send_file_with_target_path long_sha (to_receiver long_sha sent_json) 2 none file (ascii "a")
      fresh

abbrev sent_stats : TransferStats
sent_stats = record {
  transfer_id = ascii "xfer_0123456789abcdef";
  total_bytes = 3;
  chunks_sent = 2;
  chunks_skipped = 0;
}

sent_eq :
    send_file_with_target_path long_sha
      (to_receiver long_sha sent_json)
      2
      none
      file
      (ascii "a")
      fresh
    ≡ (sent.0, ok sent_stats)
unfolding sent send_file_with_target_path send_with_id send_content send_chunks transfer_id_of
    total_chunks current_chunk_len read_exact init_response chunk_response complete_response
    handle_incoming_message respond handle_init handle_chunk complete_chunk handle_complete verify
    place dest_path clean_file_name push_normal components replace resume_state load save write_sent
    read_sent no_folder state_file_path partial_file_path join hash_bytes hash_file hash_loop
    write_at add_chunk slice_to is_char_boundary new_receiver bytes_eq nat_eq
sent_eq = refl

send_file_with_target_path-Confirmed_example :
    (id : Text) × (total : ℕ) × (transfer_id_of long_sha
        (to_receiver long_sha sent_json)
        (hash_file long_sha file)
      ≡ ok id)
    × (total_chunks 2 3 ≡ ok total)
    × Delivered long_sha sent_json 2 none file (ascii "a") fresh sent.0 sent_stats id total
send_file_with_target_path-Confirmed_example =
    send_file_with_target_path-Confirmed long_sha sent_json 2 none file (ascii "a") fresh
      {node' = sent.0} {stats = sent_stats} sent_eq
