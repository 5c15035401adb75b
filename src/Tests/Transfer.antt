-- ===== src/Tests/Transfer.antt =====
-- Transfers of crates/tusher-transfer of a file with three bytes, in chunks of two.
use t_u_s_h_e_r.Base.{
  ℕ, zero, suc, ◌+◌, ◌*◌, take, drop, any, ◌≡◌, refl, Bool, true, false, ◌&&◌, Option, none, some,
  List, [], ◌∷◌, ◌++◌, arith, bytes_eq, nat_eq, ◌==◌, if◌then◌else◌, Outcome, ok,
}
use t_u_s_h_e_r.Base.Cuts.{append-nil, append_assoc}
use t_u_s_h_e_r.Base.Text.{Text, ascii, replace, slash, backslash}
use t_u_s_h_e_r.Base.FilePath.{components, join}
use t_u_s_h_e_r.Base.Maps.{empty, insert}
use t_u_s_h_e_r.Core.Protocol.{
  Message, transfer_chunk_ack, transfer_complete_ack, transfer_init_ack,
}
use t_u_s_h_e_r.Transfer.Hash.{Sha256, hash_bytes, hash_file, hash_loop}
use t_u_s_h_e_r.Transfer.State.{
  TransferState, TransferError, StateJson, add_chunk, state_file_path, partial_file_path, save,
  load,
}
use t_u_s_h_e_r.Transfer.Receiver.Names.{clean_file_name-backslash}
use t_u_s_h_e_r.Transfer.Receiver.Chunks.{Handled, handle_chunk_lem}
use t_u_s_h_e_r.Transfer.Receiver.Completion.{Confirmed, handle_complete_lem}
use t_u_s_h_e_r.Transfer.Receiver.Resume.{Staged, handle_init-Staged, handle_complete_refused_again}
use t_u_s_h_e_r.Transfer.Sender.{send_chunks, total_chunks}
use t_u_s_h_e_r.Transfer.Sender.Reassembly.{write_chunk, send_chunks_lem}
use t_u_s_h_e_r.Transfer.Receiver.{
  Node, clean_file_name, push_normal, resume_state, handle_init, handle_chunk, complete_chunk,
  handle_complete, verify, place, dest_path, integrity_error,
}

-- A stand-in for the hash: the bytes themselves.
abbrev bytes_sha : Sha256
bytes_sha = record {
  Hasher = List ℕ;
  new = [];
  update = λ h bytes. h ++ bytes;
  finalize = λ h. h;
  update-nil = append-nil;
  update-append = append_assoc;
}

abbrev content : List ℕ
content = 1 ∷ 2 ∷ 3 ∷ []

abbrev state_with : List ℕ → TransferState
state_with chunks = record {
  transfer_id = ascii "x";
  folder_id = none;
  file_name = ascii "a";
  file_size = 3;
  content_hash = content;
  chunk_size = 2;
  total_chunks = 2;
  completed_chunks = chunks;
}

is_none : Option Text → Bool
is_none none = true
is_none (some _) = false

-- A stand-in for serde: the chunks of the states of one transfer.
write_state : TransferState → Option (List ℕ)
unfolding is_none
write_state s =
    if s.transfer_id == ascii "x"
      && is_none s.folder_id
      && s.file_name == ascii "a"
      && s.file_size == 3
      && s.content_hash == content
      && s.chunk_size == 2
      && s.total_chunks == 2
    then some s.completed_chunks
    else none

read_state : List ℕ → Option TransferState
read_state p = some (state_with p)

read_state-write_state :
    (s : TransferState) (p : List ℕ) → write_state s ≡ some p → read_state p ≡ some s
unfolding read_state write_state is_none
read_state-write_state s p h = ground arith

abbrev state_json : StateJson
state_json = record {
  to_vec_pretty = write_state;
  from_slice = read_state;
  from_slice-to_vec_pretty = read_state-write_state;
}

-- The transfer is active and staged, with the given bytes and chunks.
abbrev node_with : List ℕ → List ℕ → Node
node_with file chunks = record {
  receiver = record {
    staging_dir = ascii "s";
    destination_dir = ascii "d";
    folder_destinations = empty;
    active_transfers = insert (ascii "x") (state_with chunks) empty;
    completion_tx = some [];
  };
  disk = insert (ascii "s/x.partial") file (insert (ascii "s/x.state") chunks empty);
}

clean_file_name-backslash_example :
    clean_file_name (ascii "..\\evil") ≡ some (replace backslash slash (ascii "..\\evil"))
clean_file_name-backslash_example =
    clean_file_name-backslash (ascii "..\\evil")
      (
        λ h. omega arith,
        (
          λ h. omega arith,
          (
            λ h. omega arith,
            (λ h. omega arith, (λ h. omega arith, (λ h. omega arith, (λ h. omega arith, tt)))),
          ),
        ),
      )
      (λ h. cc) (λ h. cc) (λ h. cc)

-- So it leads out of the directory.
clean_file_name_test : clean_file_name (ascii "..\\evil") ≡ some (ascii "../evil")
unfolding clean_file_name push_normal components replace bytes_eq nat_eq
clean_file_name_test = refl

second : Node × Outcome TransferError Message
unfolding handle_chunk
second =
    handle_chunk bytes_sha state_json (ascii "x") 1 2 (3 ∷ []) (3 ∷ [])
      (node_with (1 ∷ 2 ∷ 0 ∷ []) (0 ∷ []))

second_test : second.1 ≡ ok (transfer_chunk_ack (ascii "x") 1 true)
unfolding second handle_chunk hash_bytes complete_chunk save write_state is_none partial_file_path
    join bytes_eq nat_eq add_chunk
second_test = refl

second_eq :
    handle_chunk bytes_sha state_json
      (ascii "x")
      1
      2
      (3 ∷ [])
      (3 ∷ [])
      (node_with (1 ∷ 2 ∷ 0 ∷ []) (0 ∷ []))
    ≡ (second.0, ok (transfer_chunk_ack (ascii "x") 1 true))
unfolding second handle_chunk hash_bytes complete_chunk save write_state is_none partial_file_path
    join bytes_eq nat_eq add_chunk
second_eq = refl

second_own :
    (state : TransferState)
    → (node_with (1 ∷ 2 ∷ 0 ∷ []) (0 ∷ [])).receiver.active_transfers (ascii "x") ≡ some state
    → state.transfer_id ≡ ascii "x"
unfolding bytes_eq nat_eq
second_own state h = ground arith

handle_chunk_lem_example :
    Handled bytes_sha state_json
      (ascii "x")
      1
      2
      (3 ∷ [])
      (3 ∷ [])
      (node_with (1 ∷ 2 ∷ 0 ∷ []) (0 ∷ []))
      (handle_chunk bytes_sha state_json
        (ascii "x")
        1
        2
        (3 ∷ [])
        (3 ∷ [])
        (node_with (1 ∷ 2 ∷ 0 ∷ []) (0 ∷ [])))
handle_chunk_lem_example =
    handle_chunk_lem bytes_sha state_json (ascii "x") 1 2 (3 ∷ []) (3 ∷ [])
      (node_with (1 ∷ 2 ∷ 0 ∷ []) (0 ∷ [])) second_own

placed : Node × Outcome TransferError Message
unfolding handle_complete
placed = handle_complete bytes_sha state_json (ascii "x") content (node_with content (0 ∷ 1 ∷ []))

placed_eq :
    handle_complete bytes_sha state_json (ascii "x") content (node_with content (0 ∷ 1 ∷ []))
    ≡ (placed.0, ok (transfer_complete_ack (ascii "x") true none))
unfolding placed handle_complete verify place hash_file hash_loop partial_file_path join bytes_eq
    nat_eq
placed_eq = refl

handle_complete_lem_example :
    Confirmed bytes_sha state_json (ascii "x") content (node_with content (0 ∷ 1 ∷ [])) placed.0
handle_complete_lem_example =
    handle_complete_lem bytes_sha state_json (ascii "x") content (node_with content (0 ∷ 1 ∷ []))
      placed_eq

placed_test : placed.0.disk (ascii "d/a") ≡ some content
unfolding placed handle_complete verify place dest_path hash_file hash_loop state_file_path
    partial_file_path join bytes_eq nat_eq
placed_test = refl

-- All chunks are there, and one byte is wrong.
abbrev spoilt : Node
spoilt = node_with (1 ∷ 2 ∷ 9 ∷ []) (0 ∷ 1 ∷ [])

spoilt-Staged :
    Staged bytes_sha state_json (ascii "x") spoilt (state_with (0 ∷ 1 ∷ [])) (1 ∷ 2 ∷ 9 ∷ [])
unfolding load state_file_path partial_file_path join read_state bytes_eq nat_eq
spoilt-Staged = record { own = refl; stored = refl; partial = refl }

resumed : Node → Node × Outcome TransferError Message
unfolding handle_init
resumed node =
    handle_init bytes_sha state_json (ascii "x") (some (ascii "f")) (ascii "b") 3 content 2 2 node

refused : Node × Outcome TransferError Message
unfolding handle_complete
refused = handle_complete bytes_sha state_json (ascii "x") content spoilt

b_clean : clean_file_name (ascii "b") ≡ some (ascii "b")
unfolding clean_file_name push_normal components replace bytes_eq nat_eq
b_clean = refl

resumed_eq :
    handle_init bytes_sha state_json (ascii "x") (some (ascii "f")) (ascii "b") 3 content 2 2 spoilt
    ≡ ((resumed spoilt).0, ok (transfer_init_ack (ascii "x") true (0 ∷ 1 ∷ []) none))
unfolding resumed handle_init clean_file_name push_normal components replace resume_state load save
    write_state read_state is_none state_file_path partial_file_path join bytes_eq nat_eq
resumed_eq = refl

-- The name "b" of a folder was asked for; the state of "a" is taken up.
handle_init-Staged_example :
    (transfer_init_ack (ascii "x") true (0 ∷ 1 ∷ []) none
      ≡ transfer_init_ack (ascii "x") true (0 ∷ 1 ∷ []) none)
    × ((resumed spoilt).0.receiver.active_transfers (ascii "x") ≡ some (state_with (0 ∷ 1 ∷ [])))
    × Staged bytes_sha state_json
        (ascii "x")
        (resumed spoilt).0
        (state_with (0 ∷ 1 ∷ []))
        (1 ∷ 2 ∷ 9 ∷ [])
handle_init-Staged_example =
    handle_init-Staged bytes_sha state_json (ascii "x") (some (ascii "f")) (ascii "b") (ascii "b") 2
      2 spoilt (state_with (0 ∷ 1 ∷ [])) (1 ∷ 2 ∷ 9 ∷ []) spoilt-Staged b_clean resumed_eq

refused_eq : handle_complete bytes_sha state_json (ascii "x") content spoilt ≡ (
  refused.0,
  ok (transfer_complete_ack (ascii "x") false (some (integrity_error (1 ∷ 2 ∷ 9 ∷ [])))),
)
unfolding refused handle_complete verify hash_file hash_loop partial_file_path join bytes_eq nat_eq
refused_eq = refl

again_eq : handle_init bytes_sha state_json (ascii "x") none (ascii "b") 3 content 2 2 refused.0 ≡ (
  (handle_init bytes_sha state_json (ascii "x") none (ascii "b") 3 content 2 2 refused.0).0,
  ok (transfer_init_ack (ascii "x") true (0 ∷ 1 ∷ []) none),
)
unfolding refused handle_complete verify hash_file hash_loop handle_init clean_file_name push_normal
    components replace resume_state load save write_state read_state is_none state_file_path
    partial_file_path join bytes_eq nat_eq
again_eq = refl

abbrev again : Node
again = (handle_init bytes_sha state_json (ascii "x") none (ascii "b") 3 content 2 2 refused.0).0

handle_complete_refused_again_example :
    (transfer_complete_ack
        (ascii "x")
        false
        (some (integrity_error (hash_file bytes_sha (1 ∷ 2 ∷ 9 ∷ []))))
      ≡ transfer_complete_ack
          (ascii "x")
          false
          (some (integrity_error (hash_file bytes_sha (1 ∷ 2 ∷ 9 ∷ [])))))
    × (refused.0.disk ≡ spoilt.disk)
    × (transfer_init_ack (ascii "x") true (0 ∷ 1 ∷ []) none
        ≡ transfer_init_ack (ascii "x") true (0 ∷ 1 ∷ []) none)
    × (again.disk (partial_file_path again.receiver.staging_dir (ascii "x"))
        ≡ some (1 ∷ 2 ∷ 9 ∷ []))
    × ((handle_complete bytes_sha state_json (ascii "x") content again).0.disk ≡ again.disk)
    × ((handle_complete bytes_sha state_json (ascii "x") content again).1
        ≡ ok (
            transfer_complete_ack
              (ascii "x")
              false
              (some (integrity_error (hash_file bytes_sha (1 ∷ 2 ∷ 9 ∷ []))))))
unfolding hash_file hash_loop bytes_eq nat_eq
handle_complete_refused_again_example =
    handle_complete_refused_again bytes_sha state_json (ascii "x") content content none (ascii "b")
      (ascii "b") 2 2 spoilt (state_with (0 ∷ 1 ∷ [])) (1 ∷ 2 ∷ 9 ∷ []) spoilt-Staged refl (λ h. cc)
      b_clean refused_eq again_eq

first_kept :
    (j : ℕ)
    → any (λ n. n == j) (0 ∷ []) ≡ true
    → take 2 (drop (j * 2) (1 ∷ 2 ∷ 0 ∷ [])) ≡ take 2 (drop (j * 2) content)
first_kept zero h = refl
first_kept (suc j) h = absurd (ground arith)

-- The first chunk is there already.
send_chunks_lem_example :
    (counts : ℕ × ℕ) × (send_chunks bytes_sha write_chunk
        (ascii "x")
        2
        2
        content
        (0 ∷ [])
        2
        0
        0
        0
        (1 ∷ 2 ∷ 0 ∷ [])
      ≡ (content, ok counts))
    × (counts.0 + counts.1 ≡ 2)
unfolding total_chunks nat_eq
send_chunks_lem_example =
    send_chunks_lem bytes_sha (ascii "x") 2 content (1 ∷ 2 ∷ 0 ∷ []) (0 ∷ []) refl first_kept 2
      (omega arith) (omega arith) refl
