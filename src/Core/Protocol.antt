-- ===== src/Core/Protocol.antt =====
-- The messages of crates/tusher-core/src/protocol.rs. Unsigned integers are natural numbers, and
-- `i64` values are integers.
use t_u_s_h_e_r.Base.{ℕ, ◌*◌, Bool, Option, List, Eq}
use t_u_s_h_e_r.Base.Int.{ℤ}
use t_u_s_h_e_r.Base.Text.{Text, ascii}
use t_u_s_h_e_r.Core.Types.{NodeId, Platform}

abbrev pub protocol_version : ℕ
protocol_version = 1

abbrev pub magic_bytes : List ℕ
magic_bytes = ascii "TUSH"

-- 16 MB
abbrev pub max_message_size : ℕ
max_message_size = 16 * 1024 * 1024

pub data SyncEventType : Type 0 where
  upsert delete : SyncEventType

SyncEventType-discrete : Discrete SyncEventType
SyncEventType-discrete = hlevel

instance unfoldable pub sync_event_type_eq : Eq SyncEventType
unfolding SyncEventType-discrete
sync_event_type_eq = record { dec = SyncEventType-discrete }

pub record SyncEvent : Type 0 where
  pub event_seq : ℕ
  pub folder_id : Text
  pub file_id : Text
  pub relative_path : Text
  pub event_type : SyncEventType
  pub version : ℕ
  pub size_bytes : ℕ
  pub content_hash : Text
  pub origin_node_id : NodeId
  pub modified_at : ℤ

pub record SharedFolderInfo : Type 0 where
  pub folder_id : Text
  pub name : Text
  pub file_count : ℕ
  pub created_at : ℤ

pub data Message : Type 0 where
  hello :
      (version : ℕ) (node_id : NodeId) (node_name : Text) (platform : Platform)
      (public_key_hex : Text) (listen_port : ℕ)
      → Message
  hello_ack :
      (version : ℕ) (node_id : NodeId) (node_name : Text) (platform : Platform)
      (public_key_hex : Text) (accepted : Bool) (reason : Option Text)
      → Message
  pair_request : (node_id : NodeId) (ephemeral_token signature_hex : Text) → Message
  pair_response : (node_id : NodeId) (signature_hex sas_pin : Text) → Message
  pair_confirm : (node_id : NodeId) (accepted : Bool) → Message
  heartbeat : (sequence : ℕ) (timestamp_ms : ℤ) → Message
  heartbeat_ack : (sequence : ℕ) (timestamp_ms : ℤ) → Message
  ping : (sequence : ℕ) (timestamp_ms : ℤ) → Message
  pong : (sequence : ℕ) (timestamp_ms : ℤ) → Message
  disconnect : (reason : Text) → Message
  transfer_init :
      (transfer_id : Text) (folder_id : Option Text) (file_name : Text) (file_size : ℕ)
      (content_hash : Text) (chunk_size total_chunks : ℕ)
      → Message
  transfer_init_ack :
      (transfer_id : Text) (accepted : Bool) (existing_chunks : List ℕ) (reason : Option Text)
      → Message
  transfer_chunk :
      (transfer_id : Text) (chunk_index offset : ℕ) (bytes : List ℕ) (chunk_hash : Text) → Message
  transfer_chunk_ack : (transfer_id : Text) (chunk_index : ℕ) (accepted : Bool) → Message
  transfer_complete : (transfer_id content_hash : Text) → Message
  transfer_complete_ack : (transfer_id : Text) (verified : Bool) (error : Option Text) → Message
  manifest_req : (folder_id : Text) (since_event_seq : ℕ) → Message
  manifest_resp : (folder_id : Text) (events : List SyncEvent) (latest_event_seq : ℕ) → Message
  folder_list_req : Message
  folder_list_resp : (folders : List SharedFolderInfo) → Message
  sync_notify : (folder_id : Text) (latest_event_seq : ℕ) → Message
  file_pull_req : (folder_id file_id relative_path : Text) (dest_path : Option Text) → Message
