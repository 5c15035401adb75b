-- ===== src/Metadata/Models.antt =====
-- crates/tusher-metadata/src/models.rs
use t_u_s_h_e_r.Base.{ℕ, Bool, Option}
use t_u_s_h_e_r.Base.Int.{ℤ}
use t_u_s_h_e_r.Base.Text.{Text}
use t_u_s_h_e_r.Core.Types.{NodeId}

pub record SharedFolder : Type 0 where
  pub folder_id : Text
  pub name : Text
  pub local_path : Text
  pub created_at : ℤ

pub record FileRecord : Type 0 where
  pub file_id : Text
  pub folder_id : Text
  pub relative_path : Text
  pub filename : Text
  pub size_bytes : ℕ
  pub content_hash : Text
  pub version : ℕ
  pub origin_node_id : NodeId
  pub modified_at : ℤ
  pub is_deleted : Bool
  pub tombstone_at : Option ℤ

pub data ReconciliationAction : Type 0 where
  up_to_date : (file_id : Text) (version : ℕ) → ReconciliationAction
  download_needed :
      (folder_id file_id relative_path : Text) (size_bytes : ℕ) (content_hash : Text) (version : ℕ)
      (origin_node_id : NodeId)
      → ReconciliationAction
  delete_local : (folder_id file_id relative_path : Text) (version : ℕ) → ReconciliationAction
  conflict :
      (folder_id file_id original_relative_path conflict_relative_path : Text) (size_bytes : ℕ)
      (content_hash : Text) (version : ℕ) (origin_node_id : NodeId)
      → ReconciliationAction
  ignore : ReconciliationAction
