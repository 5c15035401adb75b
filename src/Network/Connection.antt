-- ===== src/Network/Connection.antt =====
-- connection.rs and pairing.rs of crates/tusher-network. A stream is what it lets through: its
-- peer's address, whether writes go through, and what arrives first, within the time allowed.
pub mod Identity
pub mod Queues
use t_u_s_h_e_r.Base.{
  ℕ, ◌≡◌, Bool, true, false, not, ◌&&◌, Option, none, some, List, [], ◌∷◌, ◌++◌, if◌then◌else◌,
  ◌==◌, ◌!=◌, Eq, nat_eq, bytes_eq, Outcome, ok, err, panic, ◌>>=◌, ◌>>◌, guard, ok_or,
}
use t_u_s_h_e_r.Base.Int.{ℤ}
use t_u_s_h_e_r.Base.Text.{Text, ascii}
use t_u_s_h_e_r.Core.Types.{NodeId, Platform, TransportType, TrustStatus, paired}
use t_u_s_h_e_r.Core.Protocol.{
  Message, hello, hello_ack, ping, pong, manifest_resp, transfer_init_ack, transfer_chunk_ack,
  transfer_complete_ack, protocol_version,
}
use t_u_s_h_e_r.Core.Keys.{Crypto, DeviceIdentity, from_verifying_key, calculate_sas_pin}
use t_u_s_h_e_r.Network.Transport.{SocketAddr, TransportAddress}

pub data NetworkError : Type 0 where
  unreachable no_answer rejected unexpected version_mismatch bad_hex bad_key wrong_node_id :
      NetworkError
  write_failed ping_closed ping_timed_out : NetworkError

pub record Stream : Type 0 where
  pub peer_addr : SocketAddr
  pub writes : Bool
  pub next : Outcome NetworkError Message

-- A connection, with what its queues hold.
pub record PeerConnection : Type 0 where
  pub remote_node_id : NodeId
  pub remote_name : Text
  pub remote_platform : Platform
  pub remote_pubkey_hex : Text
  pub transport_address : TransportAddress
  pub written : List Message
  pub request_rx : List Message
  pub response_rx : List Message
  pub manifest_rx : List Message
  pub pong_rx : List (ℕ × ℤ)
  pub last_ping_rtt_us : ℕ

-- What a peer says of itself.
pub record Remote : Type 0 where
  pub version : ℕ
  pub node_id : NodeId
  pub node_name : Text
  pub platform : Platform
  pub public_key_hex : Text

unfoldable pub new_connection : Remote → TransportAddress → PeerConnection
new_connection remote target = record {
  remote_node_id = remote.node_id;
  remote_name = remote.node_name;
  remote_platform = remote.platform;
  remote_pubkey_hex = remote.public_key_hex;
  transport_address = target;
  written = [];
  request_rx = [];
  response_rx = [];
  manifest_rx = [];
  pong_rx = [];
  last_ping_rtt_us = 0;
}

-- The match of `dial` on the answer.
unfoldable pub answer_of : Message → Outcome NetworkError Remote
answer_of (hello version node_id node_name platform public_key_hex listen_port) = ok (record {
  version = version;
  node_id = node_id;
  node_name = node_name;
  platform = platform;
  public_key_hex = public_key_hex;
})
answer_of (hello_ack version node_id node_name platform public_key_hex true reason) = ok (record {
  version = version;
  node_id = node_id;
  node_name = node_name;
  platform = platform;
  public_key_hex = public_key_hex;
})
answer_of (hello_ack version node_id node_name platform public_key_hex false reason) = err rejected
answer_of other = err unexpected

-- `HelloAck` of this node.
abbrev ack : DeviceIdentity → Bool → Option Text → Message
ack identity accepted reason =
    hello_ack protocol_version identity.node_id identity.node_name identity.platform
      identity.public_key_hex accepted reason

-- What follows the handshake: the messages sent in it, and the connection.
abbrev pub Handshake : Type 0
Handshake = List Message × Outcome NetworkError PeerConnection

module _ (crypto : Crypto) where
  -- That the node id is that of the public key.
  unfoldable pub check_identity : Text → NodeId → Outcome NetworkError (Unit {0})
  unfolding from_verifying_key
  check_identity public_key_hex node_id = do
    pubkey_bytes ← ok_or (crypto.hex_decode public_key_hex) bad_hex
    vk ← ok_or (crypto.verifying_key pubkey_bytes) bad_key
    guard (from_verifying_key crypto vk == node_id) wrong_node_id

  -- `dial` from the answer on.
  unfoldable pub conclude : TransportAddress → Message → Outcome NetworkError PeerConnection
  unfolding answer_of check_identity new_connection
  conclude target resp = do
    remote ← answer_of resp
    guard (remote.version == protocol_version) version_mismatch
    check_identity remote.public_key_hex remote.node_id
    ok (new_connection remote target)

  unfoldable pub dial :
      TransportAddress → DeviceIdentity → ℕ → Outcome NetworkError Stream → Handshake
  unfolding conclude
  dial target identity listen_port (err e) = ([], err e)
  dial target identity listen_port panic = ([], panic)
  dial target identity listen_port (ok stream) =
      let greeting =
        hello protocol_version identity.node_id identity.node_name identity.platform
          identity.public_key_hex listen_port in
      if stream.writes
      then (greeting ∷ [], stream.next >>= conclude target)
      else ([], err write_failed)

  -- `accept` once a `Hello` has come.
  unfoldable pub on_hello :
      Stream → DeviceIdentity → TransportType → Remote → (listen_port : ℕ) → Handshake
  unfolding check_identity new_connection
  on_hello stream identity transport_type remote listen_port =
      if remote.version != protocol_version
      then (
        if stream.writes
            then ack identity false (some (ascii "Protocol version mismatch")) ∷ []
            else [],
        err version_mismatch,
      )
      else elim (check_identity remote.public_key_hex remote.node_id) [
        | err e ↦ ([], err e)
        | panic ↦ ([], panic)
        | ok checked ↦
            let target : TransportAddress = record {
              addr = record { ip = stream.peer_addr.ip; port = listen_port };
              transport_type = transport_type;
            } in
            if stream.writes
            then (ack identity true none ∷ [], ok (new_connection remote target))
            else ([], err write_failed)
      ]

  unfoldable pub accept : Stream → DeviceIdentity → TransportType → Handshake
  unfolding on_hello
  accept stream identity transport_type = elim stream.next [
    | err e ↦ ([], err e)
    | panic ↦ ([], panic)
    | ok (hello version node_id node_name platform public_key_hex listen_port) ↦
        on_hello stream identity transport_type
          (record {
            version = version;
            node_id = node_id;
            node_name = node_name;
            platform = platform;
            public_key_hex = public_key_hex;
          })
          listen_port
    | ok incoming ↦ ([], err unexpected)
  ]

  -- `compute_sas` of pairing.rs
  unfoldable pub compute_sas : DeviceIdentity → Text → Text → Outcome NetworkError Text
  unfolding calculate_sas_pin
  compute_sas identity token remote_pubkey_hex = do
    my_pk ← ok_or (crypto.hex_decode identity.public_key_hex) bad_hex
    remote_pk ← ok_or (crypto.hex_decode remote_pubkey_hex) bad_hex
    ok (calculate_sas_pin crypto token my_pk remote_pk)

-- The match of the reader task on a message.
unfoldable pub on_read : Message → PeerConnection → PeerConnection
on_read (ping sequence timestamp_ms) c = record c {
  written = c.written ++ (pong sequence timestamp_ms ∷ []);
}
on_read (pong sequence timestamp_ms) c = record c {
  pong_rx = c.pong_rx ++ ((sequence, timestamp_ms) ∷ []);
}
on_read (manifest_resp folder_id events latest) c = record c {
  manifest_rx = c.manifest_rx ++ (manifest_resp folder_id events latest ∷ []);
}
on_read (transfer_init_ack transfer_id accepted existing reason) c = record c {
  response_rx = c.response_rx ++ (transfer_init_ack transfer_id accepted existing reason ∷ []);
}
on_read (transfer_chunk_ack transfer_id chunk_index accepted) c = record c {
  response_rx = c.response_rx ++ (transfer_chunk_ack transfer_id chunk_index accepted ∷ []);
}
on_read (transfer_complete_ack transfer_id verified error) c = record c {
  response_rx = c.response_rx ++ (transfer_complete_ack transfer_id verified error ∷ []);
}
on_read msg c = record c { request_rx = c.request_rx ++ (msg ∷ []) }

-- The reader task, on the messages that come, which end at the first that cannot be decoded.
unfoldable pub run_reader : List (Option Message) → PeerConnection → PeerConnection
unfolding on_read
run_reader [] c = c
run_reader (none ∷ later) c = c
run_reader (some msg ∷ later) c = run_reader later (on_read msg c)

-- The wait of `ping` for its own sequence number, over the pongs that come in time, and whether the
-- stream is closed then.
unfoldable pub await_pong : ℕ → Bool → List (ℕ × ℤ) → Outcome NetworkError (List (ℕ × ℤ))
await_pong seq closed [] = err (if closed then ping_closed else ping_timed_out)
await_pong seq closed ((sequence, timestamp_ms) ∷ later) =
    let rest = await_pong seq closed later in if sequence == seq then ok later else rest

-- What a ping meets: whether it is written, the pongs that come after those that are queued, how
-- long it takes, and whether the stream ends.
pub record PingRun : Type 0 where
  pub now_ms : ℤ
  pub writes : Bool
  pub pongs : List (ℕ × ℤ)
  pub closed : Bool
  pub elapsed_us : ℕ

unfoldable pub ping_peer :
    ℕ → PingRun → PeerConnection → PeerConnection × Outcome NetworkError (Unit {0})
unfolding await_pong
ping_peer seq run c =
    let sent : PeerConnection = record c { written = c.written ++ (ping seq run.now_ms ∷ []) } in
    if run.writes
    then elim (await_pong seq run.closed (c.pong_rx ++ run.pongs)) [
      | ok later ↦ (record sent { pong_rx = later; last_ping_rtt_us = run.elapsed_us }, ok tt)
      | err e ↦ (record sent { pong_rx = [] }, err e)
      | panic ↦ (record sent { pong_rx = [] }, panic)
    ]
    else (c, err write_failed)
