-- ===== src/Transfer/Receiver/Resume.antt =====
-- A transfer that `handle_init` of crates/tusher-transfer/src/receiver.rs finds begun.
use mathlib.Core.Path.{subst}
use t_u_s_h_e_r.Base.{
  ℕ, ◌≡◌, ◌≢◌, sym, ap, true, false, Option, none, some, List, ok, arith, bytes_eq, nat_eq,
}
use t_u_s_h_e_r.Base.Text.{Text}
use t_u_s_h_e_r.Core.Protocol.{Message, transfer_init_ack, transfer_complete_ack}
use t_u_s_h_e_r.Transfer.Hash.{Sha256, hash_file}
use t_u_s_h_e_r.Transfer.State.{TransferState, StateJson, new_state, partial_file_path, save, load}
use t_u_s_h_e_r.Transfer.Paths.{state_file_path-ne-partial_file_path, load-save}
use t_u_s_h_e_r.Transfer.Receiver.Completion.{inactive}
use t_u_s_h_e_r.Transfer.Receiver.{
  Node, handle_init, handle_complete, resume_state, clean_file_name, integrity_error,
}

module _ (sha : Sha256) (json : StateJson) (id : Text) where
  -- The transfer is staged: its state is on the disk, with its partial file.
  pub record Staged (node : Node) (state : TransferState) (content : List ℕ) : Type 0 where
    pub own : state.transfer_id ≡ id
    pub stored : load json node.receiver.staging_dir id node.disk ≡ ok state
    pub partial : node.disk (partial_file_path node.receiver.staging_dir id) ≡ some content

  resume_state-Staged :
      (folder : Option Text) (clean : Text) (chunk_size total : ℕ) (node : Node)
      (state : TransferState) (content : List ℕ)
      → Staged node state content
      → resume_state sha json node.receiver.staging_dir
          (new_state id folder clean state.file_size state.content_hash chunk_size total)
          node.disk
        ≡ state
  unfolding resume_state
  resume_state-Staged folder clean chunk_size total node state content staged = ground arith

  handle_init-save :
      (folder : Option Text) (name clean : Text) (chunk_size total : ℕ) (node : Node)
      (state : TransferState) (content : List ℕ) {node' : Node} {answer : Message}
      → Staged node state content
      → clean_file_name name ≡ some clean
      → handle_init sha json id folder name state.file_size state.content_hash chunk_size total node
        ≡ (node', ok answer)
      → (answer ≡ transfer_init_ack id true state.completed_chunks none)
        × (node'.receiver.active_transfers id ≡ some state)
        × (node'.receiver.staging_dir ≡ node.receiver.staging_dir)
        × (save json node.receiver.staging_dir state node.disk ≡ ok node'.disk)
  unfolding handle_init
  handle_init-save folder name clean chunk_size total node state content staged named e =
      ground (arith, resume_state-Staged folder clean chunk_size total node state content staged)

  -- A transfer of the same id, hash and size takes up the one that is staged: the answer names its
  -- chunks, and its state is the active one, with its file name and folder in place of those that
  -- were asked for. The partial file stays as it is.
  pub handle_init-Staged :
      (folder : Option Text) (name clean : Text) (chunk_size total : ℕ) (node : Node)
      (state : TransferState) (content : List ℕ) {node' : Node} {answer : Message}
      → Staged node state content
      → clean_file_name name ≡ some clean
      → handle_init sha json id folder name state.file_size state.content_hash chunk_size total node
        ≡ (node', ok answer)
      → (answer ≡ transfer_init_ack id true state.completed_chunks none)
        × (node'.receiver.active_transfers id ≡ some state)
        × Staged node' state content
  handle_init-Staged folder name clean chunk_size total node state content {node'} staged named e =
      let (answered, active, same, saved) =
        handle_init-save folder name clean chunk_size total node state content staged named e in
      let (loaded, others) = load-save json node.receiver.staging_dir state node.disk saved in
      (
        answered,
        active,
        record {
          own = staged.own;
          stored = cc (loaded, same, staged.own);
          partial = cc (
            same,
            staged.partial,
            others (partial_file_path node.receiver.staging_dir id) (λ h.
                state_file_path-ne-partial_file_path node.receiver.staging_dir id
                  (cc (staged.own, sym h))),
          );
        },
      )

  handle_complete_refused :
      (expected : Text) (node : Node) (state : TransferState) (content : List ℕ)
      → Staged node state content
      → node.receiver.active_transfers id ≡ some state
      → hash_file sha content ≢ state.content_hash
      → handle_complete sha json id expected node ≡ (
        inactive sha json id node,
        ok (transfer_complete_ack id false (some (integrity_error (hash_file sha content)))),
      )
  unfolding handle_complete
  handle_complete_refused expected node state content staged active differ = ground arith

  -- Completing a staged, active transfer whose bytes do not have the hash that it was begun with is
  -- refused and changes no file. The next attempt at the transfer is again told of the same chunks,
  -- the wrong bytes are kept, and its completion is refused again, with whatever hash, and again
  -- changes no file.
  pub handle_complete_refused_again :
      (expected expected' : Text) (folder : Option Text) (name clean : Text) (chunk_size total : ℕ)
      (node : Node) (state : TransferState) (content : List ℕ) {refused resumed : Node}
      {reply answer : Message}
      → Staged node state content
      → node.receiver.active_transfers id ≡ some state
      → hash_file sha content ≢ state.content_hash
      → clean_file_name name ≡ some clean
      → handle_complete sha json id expected node ≡ (refused, ok reply)
      → handle_init sha json id folder name state.file_size state.content_hash chunk_size total
          refused
        ≡ (resumed, ok answer)
      → (reply ≡ transfer_complete_ack id false (some (integrity_error (hash_file sha content))))
        × (refused.disk ≡ node.disk)
        × (answer ≡ transfer_init_ack id true state.completed_chunks none)
        × (resumed.disk (partial_file_path resumed.receiver.staging_dir id) ≡ some content)
        × ((handle_complete sha json id expected' resumed).0.disk ≡ resumed.disk)
        × ((handle_complete sha json id expected' resumed).1
            ≡ ok (transfer_complete_ack id false (some (integrity_error (hash_file sha content)))))
  handle_complete_refused_again expected expected' folder name clean chunk_size total node state
        content {refused} {resumed} {reply} staged active differ named e e' =
      let step = handle_complete_refused expected node state content staged active differ in
      let gone : refused ≡ inactive sha json id node = cc (e, step) in
      let kept : Staged refused state content =
        subst (λ n. Staged n state content) (sym gone)
          (record { own = staged.own; stored = staged.stored; partial = staged.partial }) in
      let (answered, active', staged') =
        handle_init-Staged folder name clean chunk_size total refused state content kept named e' in
      let again = handle_complete_refused expected' resumed state content staged' active' differ in
      (
        ground arith,
        ap (λ n. n.disk) gone,
        answered,
        staged'.partial,
        ap (λ r. r.0.disk) again,
        ap (λ r. r.1) again,
      )
