-- ===== src/Transfer/State.antt =====
-- `TransferState` of crates/tusher-transfer/src/state.rs. The set of completed chunks is the list of
-- its elements in ascending order, so that a set is one list whatever order they came in; the order
-- in which a `HashSet` gives them is not modelled. The JSON text of a state is a parameter.
use t_u_s_h_e_r.Base.{
  ℕ, ◌≡◌, Option, none, some, List, [], ◌∷◌, ◌++◌, Outcome, ok, err, nat_eq, bytes_eq, ltb, ◌==◌,
  if◌then◌else◌,
}
use t_u_s_h_e_r.Base.Text.{Text, ascii}
use t_u_s_h_e_r.Base.FilePath.{join}
use t_u_s_h_e_r.Base.Maps.{insert, remove}
use t_u_s_h_e_r.Transfer.Disk.{Disk}

pub record TransferState : Type 0 where
  pub transfer_id : Text
  pub folder_id : Option Text
  pub file_name : Text
  pub file_size : ℕ
  pub content_hash : Text
  pub chunk_size : ℕ
  pub total_chunks : ℕ
  pub completed_chunks : List ℕ

pub data TransferError : Type 0 where
  invalid_file_path : Text → TransferError
  not_found : TransferError
  json_failed : TransferError

-- What is used of serde_json: a state that was written is read back.
pub record StateJson : Type 0 where
  pub to_vec_pretty : TransferState → Option (List ℕ)
  pub from_slice : List ℕ → Option TransferState
  pub from_slice-to_vec_pretty :
      (s : TransferState) (p : List ℕ) → to_vec_pretty s ≡ some p → from_slice p ≡ some s

-- `HashSet::insert`
unfoldable pub add_chunk : ℕ → List ℕ → List ℕ
add_chunk n [] = n ∷ []
add_chunk n (m ∷ set) =
    let rest = add_chunk n set in
    if n == m then m ∷ set else if ltb n m then n ∷ m ∷ set else m ∷ rest

unfoldable pub state_file_path : Text → Text → Text
state_file_path staging_dir transfer_id = join staging_dir (transfer_id ++ ascii ".state")

unfoldable pub partial_file_path : Text → Text → Text
partial_file_path staging_dir transfer_id = join staging_dir (transfer_id ++ ascii ".partial")

-- `TransferState::new`
abbrev pub new_state : Text → Option Text → Text → ℕ → Text → ℕ → ℕ → TransferState
new_state transfer_id folder_id file_name file_size content_hash chunk_size total_chunks = record {
  transfer_id = transfer_id;
  folder_id = folder_id;
  file_name = file_name;
  file_size = file_size;
  content_hash = content_hash;
  chunk_size = chunk_size;
  total_chunks = total_chunks;
  completed_chunks = [];
}

module _ (json : StateJson) where
  unfoldable pub save : Text → TransferState → Disk → Outcome TransferError Disk
  save staging_dir state disk = elim (json.to_vec_pretty state) [
    | none ↦ err json_failed
    | some bytes ↦ ok (insert (state_file_path staging_dir state.transfer_id) bytes disk)
  ]

  unfoldable pub load : Text → Text → Disk → Outcome TransferError TransferState
  load staging_dir transfer_id disk = elim (disk (state_file_path staging_dir transfer_id)) [
    | none ↦ err not_found
    | some bytes ↦ elim (json.from_slice bytes) [ none ↦ err json_failed | some state ↦ ok state ]
  ]

-- `TransferState::cleanup`
unfoldable pub cleanup : Text → Text → Disk → Disk
cleanup staging_dir transfer_id disk =
    remove (partial_file_path staging_dir transfer_id)
      (remove (state_file_path staging_dir transfer_id) disk)
