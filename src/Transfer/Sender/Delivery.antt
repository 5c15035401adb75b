-- ===== src/Transfer/Sender/Delivery.antt =====
-- `FileSender` of crates/tusher-transfer/src/sender.rs connected to a `FileReceiver`.
use t_u_s_h_e_r.Base.{
  ℕ, ◌≡◌, refl, true, Option, List, Outcome, ok, err, panic, arith, bytes_eq, length,
}
use mathlib.Core.Path.{subst}
use t_u_s_h_e_r.Base.Text.{Text}
use t_u_s_h_e_r.Core.Protocol.{Message, transfer_init, transfer_complete, transfer_complete_ack}
use t_u_s_h_e_r.Transfer.Hash.{Sha256, hash_file}
use t_u_s_h_e_r.Transfer.State.{TransferError, StateJson}
use t_u_s_h_e_r.Transfer.Receiver.{Node, handle_complete}
use t_u_s_h_e_r.Transfer.Receiver.Completion.{Confirmed, handle_complete-Confirmed}
use t_u_s_h_e_r.Transfer.Service.{handle_incoming_message, respond}
use t_u_s_h_e_r.Transfer.Sender.{
  SendError, timed_out, TransferStats, ask, complete_response, send_chunks, send_content,
  init_response, send_with_id, transfer_id_of, total_chunks, send_file_with_target_path,
}

-- No response comes if the receiver fails.
abbrev pub reply :
    Node × Outcome TransferError (Option Message) → Node × Outcome SendError (Option Message)
reply (node, ok resp) = (node, ok resp)
reply (node, _) = (node, err timed_out)

module _ (sha : Sha256) (json : StateJson) where
  -- A connection to a receiver.
  abbrev pub to_receiver : Message → Node → Node × Outcome SendError (Option Message)
  to_receiver msg node = reply (handle_incoming_message sha json msg node)

  -- The chunks were sent to `begun`, which left `mid`, and `mid` confirmed the whole; the statistics
  -- are those of this run.
  abbrev pub Streamed : Text → ℕ → ℕ → List ℕ → List ℕ → Node → Node → TransferStats → Type 0
  Streamed id chunk_size total content existing begun node' stats =
      (mid : Node) × (counts : ℕ × ℕ) × (send_chunks sha to_receiver id chunk_size total content
          existing total 0 0 0 begun
        ≡ (mid, ok counts))
      × Confirmed sha json id (hash_file sha content) mid node'
      × (stats ≡ record {
        transfer_id = id;
        total_bytes = length content;
        chunks_sent = counts.0;
        chunks_skipped = counts.1;
      })

  -- The first message, from `node`, was accepted with the chunks that are there, and the rest was
  -- streamed from there.
  abbrev pub Delivered :
      ℕ → Option Text → List ℕ → Text → Node → Node → TransferStats → Text → ℕ → Type 0
  Delivered chunk_size folder content target node node' stats id total =
      (begun : Node) × (existing : List ℕ) × (ask sha to_receiver
          (transfer_init id folder target (length content) (hash_file sha content) chunk_size total)
          (init_response id) node
        ≡ (begun, ok existing))
      × Streamed id chunk_size total content existing begun node' stats

  module _ (id hash : Text) where
    asked_case :
        (mid : Node) {node' : Node} (r : Node × Outcome TransferError Message)
        → handle_complete sha json id hash mid ≡ r
        → ask sha to_receiver (transfer_complete id hash) complete_response mid ≡ (node', ok tt)
        → Confirmed sha json id hash mid node'
    unfolding handle_incoming_message respond complete_response
    asked_case mid {node'} (n, ok (transfer_complete_ack i true error)) h e =
        handle_complete-Confirmed sha json id hash mid {node' = node'} {i = i} {error = error}
          (ground arith)
    asked_case mid (n, ok msg) h e = absurd (ground arith)
    asked_case mid (n, err fault) h e = absurd (ground arith)
    asked_case mid (n, panic) h e = absurd (ground arith)

    send_content_case :
        (chunk_size total : ℕ) (content existing : List ℕ) (node : Node) {node' : Node}
        {stats : TransferStats} (r : Node × Outcome SendError (ℕ × ℕ))
        → hash ≡ hash_file sha content
        → send_chunks sha to_receiver id chunk_size total content existing total 0 0 0 node ≡ r
        → send_content sha to_receiver id chunk_size total content existing node ≡ (node', ok stats)
        → Streamed id chunk_size total content existing node node' stats
    unfolding send_content
    send_content_case chunk_size total content existing node {node'} {stats} (mid, ok counts)
          is_hash h e =
        (
          mid,
          counts,
          h,
          subst (λ t. Confirmed sha json id t mid node') is_hash
              (asked_case mid {node' = node'} (handle_complete sha json id hash mid) refl
                (ground arith)),
          ground arith,
        )
    send_content_case chunk_size total content existing node (mid, err fault) is_hash h e =
        absurd (ground arith)
    send_content_case chunk_size total content existing node (mid, panic) is_hash h e =
        absurd (ground arith)

  Delivered-case :
      (id : Text) (chunk_size total : ℕ) (folder : Option Text) (content : List ℕ) (target : Text)
      (node : Node) {node' : Node} {stats : TransferStats} (r : Node × Outcome SendError (List ℕ))
      → ask sha to_receiver
          (transfer_init id folder target (length content) (hash_file sha content) chunk_size total)
          (init_response id)
          node
        ≡ r
      → send_with_id sha to_receiver id chunk_size total folder content target node
        ≡ (node', ok stats)
      → Delivered chunk_size folder content target node node' stats id total
  unfolding send_with_id
  Delivered-case id chunk_size total folder content target node {node'} {stats} (begun, ok existing)
        h e =
      (
        begun,
        existing,
        h,
        send_content_case id (hash_file sha content) chunk_size total content existing begun
            {node' = node'} {stats = stats}
            (send_chunks sha to_receiver id chunk_size total content existing total 0 0 0 begun)
            refl refl (ground arith),
      )
  Delivered-case id chunk_size total folder content target node (begun, err fault) h e =
      absurd (ground arith)
  Delivered-case id chunk_size total folder content target node (begun, panic) h e =
      absurd (ground arith)

  sent_case :
      (chunk_size : ℕ) (folder : Option Text) (content : List ℕ) (target : Text) (node : Node)
      {node' : Node} {stats : TransferStats} (total : Outcome SendError ℕ)
      (named : Outcome SendError Text)
      → total_chunks chunk_size (length content) ≡ total
      → transfer_id_of sha to_receiver (hash_file sha content) ≡ named
      → send_file_with_target_path sha to_receiver chunk_size folder content target node
        ≡ (node', ok stats)
      → (id : Text) × (total : ℕ) × (transfer_id_of sha to_receiver (hash_file sha content) ≡ ok id)
        × (total_chunks chunk_size (length content) ≡ ok total)
        × Delivered chunk_size folder content target node node' stats id total
  unfolding send_file_with_target_path
  sent_case chunk_size folder content target node {node'} {stats} (ok total) (ok id) h h' e = (
    id,
    total,
    h',
    h,
    Delivered-case id chunk_size total folder content target node {node' = node'} {stats = stats}
        (ask sha to_receiver
          (transfer_init id folder target (length content) (hash_file sha content) chunk_size total)
          (init_response id) node)
        refl (ground arith),
  )
  sent_case chunk_size folder content target node (err fault) named h h' e = absurd (ground arith)
  sent_case chunk_size folder content target node panic named h h' e = absurd (ground arith)
  sent_case chunk_size folder content target node (ok total) (err fault) h h' e =
      absurd (ground arith)
  sent_case chunk_size folder content target node (ok total) panic h h' e = absurd (ground arith)

  pub send_file_with_target_path-Confirmed :
      (chunk_size : ℕ) (folder : Option Text) (content : List ℕ) (target : Text) (node : Node)
      {node' : Node} {stats : TransferStats}
      → send_file_with_target_path sha to_receiver chunk_size folder content target node
        ≡ (node', ok stats)
      → (id : Text) × (total : ℕ) × (transfer_id_of sha to_receiver (hash_file sha content) ≡ ok id)
        × (total_chunks chunk_size (length content) ≡ ok total)
        × Delivered chunk_size folder content target node node' stats id total
  unfolding send_file_with_target_path
  send_file_with_target_path-Confirmed chunk_size folder content target node {node'} {stats} e =
      sent_case chunk_size folder content target node {node' = node'} {stats = stats}
        (total_chunks chunk_size (length content))
        (transfer_id_of sha to_receiver (hash_file sha content)) refl refl e
