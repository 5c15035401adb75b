-- ===== src/Transfer/Sender.antt =====
-- `FileSender` of crates/tusher-transfer/src/sender.rs. The connection is a parameter: what becomes
-- of the peer when a message is sent to it, and what then comes in as response. The file is given
-- by its bytes, which do not change meanwhile; the elapsed time of the statistics is left out.
pub mod Chunks
pub mod Reassembly
pub mod Delivery
use t_u_s_h_e_r.Base.{
  ℕ, zero, suc, ◌+◌, ◌-◌, ◌*◌, ◌/◌, ◌%◌, ◌^◌, ◌≡◌, Bool, true, false, Option, none, some, List, [],
  ◌∷◌, ◌++◌, length, take, drop, any, if◌then◌else◌, ◌==◌, nat_eq, bytes_eq, Outcome, ok, err,
  panic, ◌>>=◌,
}
use t_u_s_h_e_r.Base.Text.{Text, ascii, slice_to}
use t_u_s_h_e_r.Base.FilePath.{file_name}
use t_u_s_h_e_r.Core.Protocol.{
  Message, transfer_init, transfer_init_ack, transfer_chunk, transfer_chunk_ack, transfer_complete,
  transfer_complete_ack,
}
use t_u_s_h_e_r.Transfer.Hash.{Sha256, hash_bytes, hash_file}

-- 2 MB
abbrev pub default_chunk_size : ℕ
default_chunk_size = 2 * 1024 * 1024

pub record TransferStats : Type 0 where
  pub transfer_id : Text
  pub total_bytes : ℕ
  pub chunks_sent : ℕ
  pub chunks_skipped : ℕ

pub data SendError : Type 0 where
  invalid_file_name : SendError
  not_sent : SendError
  timed_out : SendError
  read_failed : SendError
  rejected : Option Text → SendError
  chunk_rejected : ℕ → SendError
  integrity_failure : Option Text → SendError
  unexpected : SendError

-- The number of chunks: rounded up, and cast to `u32`.
unfoldable pub total_chunks : ℕ → ℕ → Outcome SendError ℕ
total_chunks chunk_size file_size =
    if file_size == 0
    then ok 1
    else if chunk_size == 0
    then panic
    else ok ((file_size + chunk_size - 1) / chunk_size % 2 ^ 32)

unfoldable pub current_chunk_len : ℕ → ℕ → ℕ → ℕ → ℕ
current_chunk_len chunk_size file_size total chunk_index =
    if chunk_index == total - 1 then file_size - chunk_index * chunk_size else chunk_size

-- `seek` and `read_exact`
unfoldable pub read_exact : ℕ → ℕ → List ℕ → Option (List ℕ)
read_exact offset len content =
    let buf = take len (drop offset content) in if length buf == len then some buf else none

-- The match on the response to `TransferInit`.
unfoldable pub init_response : Text → Option Message → Outcome SendError (List ℕ)
init_response transfer_id (some (transfer_init_ack resp_id true existing_chunks reason)) =
    if resp_id == transfer_id then ok existing_chunks else err unexpected
init_response transfer_id (some (transfer_init_ack resp_id false existing_chunks reason)) =
    err (rejected reason)
init_response transfer_id other = err unexpected

-- The match on the response to a chunk.
unfoldable pub chunk_response : ℕ → Option Message → Outcome SendError (Unit {0})
chunk_response chunk_index (some (transfer_chunk_ack id ack_idx true)) =
    if ack_idx == chunk_index then ok tt else err unexpected
chunk_response chunk_index (some (transfer_chunk_ack id ack_idx false)) =
    err (chunk_rejected chunk_index)
chunk_response chunk_index other = err unexpected

-- The match on the response to `TransferComplete`.
unfoldable pub complete_response : Option Message → Outcome SendError (Unit {0})
complete_response (some (transfer_complete_ack id true error)) = ok tt
complete_response (some (transfer_complete_ack id false error)) = err (integrity_failure error)
complete_response other = err unexpected

module _ (sha : Sha256) {Peer : Type 0}
    (exchange : Message → Peer → Peer × Outcome SendError (Option Message)) where
  -- Sends a message and matches the response.
  abbrev pub ask {ℓ} :
      {A : Type ℓ}
      → Message
      → (Option Message → Outcome SendError A)
      → Peer
      → Peer × Outcome SendError A
  ask msg match peer = let (peer', response) = exchange msg peer in (peer', response >>= match)

  -- The loop over the chunks that are left, with the counts of those sent and skipped.
  unfoldable pub send_chunks :
      Text → ℕ → ℕ → List ℕ → List ℕ → ℕ → ℕ → ℕ → ℕ → Peer → Peer × Outcome SendError (ℕ × ℕ)
  send_chunks id chunk_size total content existing zero index sent skipped peer =
      (peer, ok (sent, skipped))
  send_chunks id chunk_size total content existing (suc left) index sent skipped peer =
      let offset = index * chunk_size in
      let next = send_chunks id chunk_size total content existing left (suc index) in
      let len = current_chunk_len chunk_size (length content) total index in
      elim (any (λ n. n == index) existing) [
        | true ↦ next sent (suc skipped) peer
        | false ↦ elim (read_exact offset len content) [
          | none ↦ (peer, err read_failed)
          | some buf ↦
              let msg = transfer_chunk id index offset buf (hash_bytes sha buf) in
              let (peer', answer) = ask msg (chunk_response index) peer in
              elim answer [
                | ok _ ↦ next (suc sent) skipped peer'
                | err e ↦ (peer', err e)
                | panic ↦ (peer', panic)
              ]
        ]
      ]

  -- What follows the response to `TransferInit`.
  unfoldable pub send_content :
      Text → ℕ → ℕ → List ℕ → List ℕ → Peer → Peer × Outcome SendError TransferStats
  unfolding send_chunks
  send_content id chunk_size total content existing peer =
      let (peer', streamed) = send_chunks id chunk_size total content existing total 0 0 0 peer in
      elim streamed [
        | err e ↦ (peer', err e)
        | panic ↦ (peer', panic)
        | ok (sent, skipped) ↦
            let (peer'', completed) =
              ask (transfer_complete id (hash_file sha content)) complete_response peer' in
            elim completed [
              | err e ↦ (peer'', err e)
              | panic ↦ (peer'', panic)
              | ok _ ↦ (
                peer'',
                ok (record {
                  transfer_id = id;
                  total_bytes = length content;
                  chunks_sent = sent;
                  chunks_skipped = skipped;
                }),
              )
            ]
      ]

  -- `transfer_id` of a content.
  unfoldable pub transfer_id_of : Text → Outcome SendError Text
  transfer_id_of content_hash = do short ← slice_to content_hash 16; ok (ascii "xfer_" ++ short)

  -- From the first message on.
  unfoldable pub send_with_id :
      Text → ℕ → ℕ → Option Text → List ℕ → Text → Peer → Peer × Outcome SendError TransferStats
  unfolding send_content
  send_with_id id chunk_size total folder_id content target_path peer =
      let init =
        transfer_init id folder_id target_path (length content) (hash_file sha content) chunk_size
          total in
      let (peer', accepted) = ask init (init_response id) peer in
      elim accepted [
        | err e ↦ (peer', err e)
        | panic ↦ (peer', panic)
        | ok existing ↦ send_content id chunk_size total content existing peer'
      ]

  unfoldable pub send_file_with_target_path :
      ℕ → Option Text → List ℕ → Text → Peer → Peer × Outcome SendError TransferStats
  unfolding send_with_id transfer_id_of
  send_file_with_target_path chunk_size folder_id content target_path peer =
      elim (total_chunks chunk_size (length content)) [
        | err e ↦ (peer, err e)
        | panic ↦ (peer, panic)
        | ok total ↦ elim (transfer_id_of (hash_file sha content)) [
          | err e ↦ (peer, err e)
          | panic ↦ (peer, panic)
          | ok id ↦ send_with_id id chunk_size total folder_id content target_path peer
        ]
      ]

  unfoldable pub send_file_to_folder :
      ℕ → Option Text → Text → List ℕ → Peer → Peer × Outcome SendError TransferStats
  unfolding send_file_with_target_path
  send_file_to_folder chunk_size folder_id file_path content peer = elim (file_name file_path) [
    | none ↦ (peer, err invalid_file_name)
    | some name ↦ send_file_with_target_path chunk_size folder_id content name peer
  ]
