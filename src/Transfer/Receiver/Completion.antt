-- ===== src/Transfer/Receiver/Completion.antt =====
-- `handle_complete` of crates/tusher-transfer/src/receiver.rs, and a transfer that is taken up
-- again by `handle_init`.
use mathlib.Core.Path.{subst}
use t_u_s_h_e_r.Base.{Option}
use t_u_s_h_e_r.Base.{
  ℕ, ◌≡◌, ◌≢◌, refl, sym, ◌⊎◌, inl, inr, true, none, some, Option-cases, List, Outcome, ok, err,
  panic, arith, bytes_eq, nat_eq,
}
use t_u_s_h_e_r.Base.Text.{Text}
use t_u_s_h_e_r.Base.Maps.{remove}
use t_u_s_h_e_r.Core.Protocol.{Message, transfer_complete_ack}
use t_u_s_h_e_r.Transfer.Hash.{Sha256, hash_file}
use t_u_s_h_e_r.Transfer.State.{
  TransferState, TransferError, StateJson, state_file_path, partial_file_path, load,
}
use t_u_s_h_e_r.Transfer.Receiver.{Node, handle_complete, verify, place, dest_path}

module _ (sha : Sha256) (json : StateJson) (id : Text) where
  -- The state that a completion is checked against: the active one, or the one that is loaded.
  abbrev pub KnownState : Node → TransferState → Type 0
  KnownState node state =
      (node.receiver.active_transfers id ≡ some state)
      ⊎ ((node.receiver.active_transfers id ≡ none)
          × (load json node.receiver.staging_dir id node.disk ≡ ok state))

  -- `active_transfers.remove`
  abbrev pub inactive : Node → Node
  inactive node = record node {
    receiver = record node.receiver { active_transfers = remove id node.receiver.active_transfers };
  }

  loaded_case :
      (expected : Text) (node : Node) {node' : Node} {answer : Message}
      (loaded : Outcome TransferError TransferState)
      → node.receiver.active_transfers id ≡ none
      → load json node.receiver.staging_dir id node.disk ≡ loaded
      → handle_complete sha json id expected node ≡ (node', ok answer)
      → (state : TransferState) × KnownState node state
        × (verify sha json id expected state (inactive node) ≡ (node', ok answer))
  unfolding handle_complete
  loaded_case expected node (ok state) idle h e = (state, inr (idle, h), ground arith)
  loaded_case expected node (err fault) idle h e = absurd (ground arith)
  loaded_case expected node panic idle h e = absurd (ground arith)

  handle_complete-verify :
      (expected : Text) (node : Node) {node' : Node} {answer : Message}
      → handle_complete sha json id expected node ≡ (node', ok answer)
      → (state : TransferState) × KnownState node state
        × (verify sha json id expected state (inactive node) ≡ (node', ok answer))
  unfolding handle_complete
  handle_complete-verify expected node e = elim (Option-cases (node.receiver.active_transfers id)) [
    | inr (state, active) ↦ (state, inl active, ground arith)
    | inl idle ↦
        loaded_case expected node (load json node.receiver.staging_dir id node.disk) idle refl e
  ]

  verify_lem :
      (expected : Text) (state : TransferState) (node : Node) {node' : Node} {i : Text}
      {error : Option Text}
      → verify sha json id expected state node ≡ (node', ok (transfer_complete_ack i true error))
      → (content : List ℕ) × (node.disk (partial_file_path node.receiver.staging_dir id)
          ≡ some content)
        × (hash_file sha content ≡ expected)
        × (hash_file sha content ≡ state.content_hash)
        × (node' ≡ place sha json id state content node)
  unfolding verify
  verify_lem expected state node e =
      elim (Option-cases (node.disk (partial_file_path node.receiver.staging_dir id))) [
        | inl missing ↦ absurd (ground arith)
        | inr (content, found) ↦ (content, found, ground arith, ground arith, ground arith)
      ]

  -- The content is at the destination, and the files of the transfer are gone; the destination may
  -- be one of these two, as paths are not compared.
  abbrev pub Placed : Node → TransferState → List ℕ → Node → Type 0
  Placed node state content node' =
      let staging = node.receiver.staging_dir in
      let dest = dest_path sha json node.receiver state in
      (dest ≢ state_file_path staging id → node'.disk dest ≡ some content)
      × (dest ≢ partial_file_path staging id → node'.disk (partial_file_path staging id) ≡ none)
      × (node'.disk (state_file_path staging id) ≡ none)
      × ((path : Text)
          → path ≢ dest
          → path ≢ partial_file_path staging id
          → path ≢ state_file_path staging id
          → node'.disk path ≡ node.disk path)

  place-Placed :
      (state : TransferState) (content : List ℕ) (node : Node)
      → Placed node state content (place sha json id state content node)
  unfolding place
  place-Placed state content node =
      (λ h. ground arith, λ h. ground arith, ground arith, λ path h h' h''. ground arith)

  -- The staged bytes have both hashes, and are placed.
  abbrev pub Confirmed : Text → Node → Node → Type 0
  Confirmed expected node node' =
      (state : TransferState) × KnownState node state
      × ((content : List ℕ) × (node.disk (partial_file_path node.receiver.staging_dir id)
            ≡ some content)
          × (hash_file sha content ≡ expected)
          × (hash_file sha content ≡ state.content_hash)
          × Placed node state content node')

  pub handle_complete-Confirmed :
      (expected : Text) (node : Node) {node' : Node} {i : Text} {error : Option Text}
      → handle_complete sha json id expected node ≡ (node', ok (transfer_complete_ack i true error))
      → Confirmed expected node node'
  unfolding dest_path
  handle_complete-Confirmed expected node e =
      let (state, known, verified) = handle_complete-verify expected node e in
      let (content, found, stated, begun, same) =
        verify_lem expected state (inactive node) verified in
      (
        state,
        known,
        (
          content,
          found,
          stated,
          begun,
          subst (Placed node state content) (sym same) (place-Placed state content (inactive node)),
        ),
      )

  -- A transfer is only confirmed if the staged bytes have both the hash that the sender states and
  -- the one that the transfer was begun with. These bytes are then at the destination, the staged
  -- files are gone, and no other file is written.
  pub handle_complete_lem :
      (expected : Text) (node : Node) {node' : Node}
      → handle_complete sha json id expected node ≡ (node', ok (transfer_complete_ack id true none))
      → Confirmed expected node node'
  handle_complete_lem expected node e = handle_complete-Confirmed expected node e
