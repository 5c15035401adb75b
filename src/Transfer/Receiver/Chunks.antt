-- ===== src/Transfer/Receiver/Chunks.antt =====
-- `handle_chunk` of crates/tusher-transfer/src/receiver.rs.
use t_u_s_h_e_r.Base.{
  ℕ, ◌≡◌, refl, ◌≢◌, sym, ◌∙◌, ◌⊎◌, inl, inr, true, false, none, some, Option-cases, Bool-cases,
  List, Outcome, ok, err, arith, bytes_eq, ◌!=◌,
}
use mathlib.Core.Path.{subst}
use t_u_s_h_e_r.Base.Text.{Text}
use t_u_s_h_e_r.Base.Maps.{insert}
use t_u_s_h_e_r.Core.Protocol.{Message, transfer_chunk_ack}
use t_u_s_h_e_r.Transfer.Hash.{Sha256, hash_bytes}
use t_u_s_h_e_r.Transfer.Disk.{Disk, write_at}
use t_u_s_h_e_r.Transfer.State.{
  TransferState, TransferError, json_failed, not_found, StateJson, add_chunk, state_file_path,
  partial_file_path, save, load,
}
use t_u_s_h_e_r.Transfer.Paths.{state_file_path-ne-partial_file_path, load-save}
use t_u_s_h_e_r.Transfer.Receiver.{Node, handle_chunk, complete_chunk}

-- The state of a transfer with one more chunk.
abbrev pub with_chunk : ℕ → TransferState → TransferState
with_chunk n state = record state { completed_chunks = add_chunk n state.completed_chunks }

module _ (sha : Sha256) (json : StateJson) (id : Text) (index : ℕ) where
  -- The node after the write, for the file that was there.
  abbrev written : Node → ℕ → List ℕ → List ℕ → Node
  written node offset bytes file = record node {
    disk =
        insert (partial_file_path node.receiver.staging_dir id) (write_at offset bytes file)
          node.disk;
  }

  -- The bytes are in the partial file at their offset, and no file but that and the state file has
  -- changed.
  abbrev pub Written : ℕ → List ℕ → List ℕ → Node → Node → Type 0
  Written offset bytes file node node' =
      let staging = node.receiver.staging_dir in
      (node'.disk (partial_file_path staging id) ≡ some (write_at offset bytes file))
      × ((path : Text)
          → path ≢ partial_file_path staging id
          → path ≢ state_file_path staging id
          → node'.disk path ≡ node.disk path)

  -- The chunk is counted in the active state, and the state that a restarted receiver loads is that
  -- one, unless it cannot be written.
  abbrev pub Counted : TransferState → Node → Node × Outcome TransferError Message → Type 0
  Counted state node r =
      (r.0.receiver ≡ record node.receiver {
        active_transfers = insert id (with_chunk index state) node.receiver.active_transfers;
      })
      × (((json.to_vec_pretty (with_chunk index state) ≡ none) × (r.1 ≡ err json_failed))
          ⊎ ((r.1 ≡ ok (transfer_chunk_ack id index true))
              × (load json node.receiver.staging_dir id r.0.disk ≡ ok (with_chunk index state))))

  -- The end of a call, by whether the transfer is active.
  abbrev pub Answered : Node → Node × Outcome TransferError Message → Type 0
  Answered node r =
      ((node.receiver.active_transfers id ≡ none)
        × (r.0.receiver ≡ node.receiver)
        × (r.1 ≡ ok (transfer_chunk_ack id index true)))
      ⊎ ((state : TransferState) × (node.receiver.active_transfers id ≡ some state)
          × Counted state node r)

  -- What becomes of a chunk.
  abbrev pub Handled : ℕ → List ℕ → Text → Node → Node × Outcome TransferError Message → Type 0
  Handled offset bytes hash node r =
      let partial_path = partial_file_path node.receiver.staging_dir id in
      ((hash_bytes sha bytes ≢ hash) × (r ≡ (node, ok (transfer_chunk_ack id index false))))
      ⊎ ((hash_bytes sha bytes ≡ hash)
          × (node.disk partial_path ≡ none)
          × (r ≡ (node, err not_found)))
      ⊎ ((hash_bytes sha bytes ≡ hash)
          × ((file : List ℕ) × (node.disk partial_path ≡ some file)
              × Written offset bytes file node r.0
              × Answered node r))

  -- The id of an active state is the one that it is kept under.
  abbrev pub OwnId : Node → Type 0
  OwnId node =
      (state : TransferState)
      → node.receiver.active_transfers id ≡ some state
      → state.transfer_id ≡ id

  inserted : (path : Text) (bytes : List ℕ) (disk : Disk) → insert path bytes disk path ≡ some bytes
  inserted path bytes disk = ground arith

  Counted-case :
      (offset : ℕ) (bytes file : List ℕ) (node : Node) (state : TransferState)
      → node.receiver.active_transfers id ≡ some state
      → state.transfer_id ≡ id
      → let r = complete_chunk sha json id index (written node offset bytes file) in
        Written offset bytes file node r.0 × Counted state node r
  unfolding complete_chunk save
  Counted-case offset bytes file node state active own =
      let staging = node.receiver.staging_dir in
      let partial_path = partial_file_path staging id in
      let mid : Node = written node offset bytes file in
      let there = inserted partial_path (write_at offset bytes file) node.disk in
      elim (Option-cases (json.to_vec_pretty (with_chunk index state))) [
        | inl e ↦
            rw (active, e, complete_chunk)
              ((there, (λ path not_partial not_state. ground arith)), (refl, inl (refl, refl)))
        | inr (text, e) ↦
            let saved : Disk = insert (state_file_path staging state.transfer_id) text mid.disk in
            let step : save json staging (with_chunk index state) mid.disk ≡ ok saved =
              rw (e, save) refl in
            let (loaded, others) = load-save json staging (with_chunk index state) mid.disk step in
            rw (active, e, complete_chunk)
              (
                (
                  others partial_path
                        (λ h. state_file_path-ne-partial_file_path staging id (cc (own, sym h)))
                      ∙ there,
                  λ path not_partial not_state.
                      others path (λ h. not_state (cc (own, h))) ∙ ground arith,
                ),
                (
                  refl,
                  inr (
                    refl,
                    subst (λ i. load json staging i saved ≡ ok (with_chunk index state)) own loaded,
                  ),
                ),
              )
      ]

  -- A chunk whose bytes do not have the hash it was sent with is refused, whatever is known of the
  -- transfer, and nothing changes. Any other chunk fails and changes nothing if there is no partial
  -- file, and otherwise is in the partial file at its offset, with no file written but the partial
  -- file and the state file. If the transfer is active, its state then has the chunk, and so has the
  -- state that a restarted receiver loads, if it can be written. An active state has the id that it
  -- is kept under.
  pub handle_chunk_lem :
      (offset : ℕ) (bytes : List ℕ) (hash : Text) (node : Node)
      → OwnId node
      → Handled offset bytes hash node (handle_chunk sha json id index offset bytes hash node)
  unfolding handle_chunk complete_chunk
  handle_chunk_lem offset bytes hash node own =
      let partial_path = partial_file_path node.receiver.staging_dir id in
      elim (Bool-cases (hash_bytes sha bytes != hash)) [
        | inl differ ↦ rw (differ, handle_chunk) (inl (ground arith, refl))
        | inr same ↦ elim (Option-cases (node.disk partial_path)) [
          | inl missing ↦ rw (same, missing, handle_chunk) (inr (inl (ground arith, refl, refl)))
          | inr (file, found) ↦ elim (Option-cases (node.receiver.active_transfers id)) [
            | inl idle ↦
                rw (same, found, idle, handle_chunk, complete_chunk)
                  (inr (
                    inr (
                      ground arith,
                      (
                        file,
                        refl,
                        (
                          inserted partial_path (write_at offset bytes file) node.disk,
                          λ path not_partial not_state. ground arith,
                        ),
                        inl (refl, refl, refl),
                      ),
                    )))
            | inr (state, active) ↦
                let (wrote, counted) =
                  Counted-case offset bytes file node state active (own state active) in
                rw (same, found, handle_chunk)
                  (inr (inr (ground arith, (file, refl, wrote, inr (state, active, counted)))))
          ]
        ]
      ]
