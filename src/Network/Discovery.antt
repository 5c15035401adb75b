-- ===== src/Network/Discovery.antt =====
-- The two loops of `LanDiscovery::start` in discovery.rs of crates/tusher-network, and the Tailscale
-- command of tailscale.rs. The JSON of beacons is a parameter; sockets are left out.
use t_u_s_h_e_r.Base.{
  ℕ, ◌≤◌, ◌≡◌, refl, ap, ◌≢◌, Bool, true, false, Option, none, some, List, [], ◌∷◌, ◌++◌, map, take,
  length, if◌then◌else◌, arith, bytes_eq, nat_eq,
}
use t_u_s_h_e_r.Base.Cuts.{take_whole}
use t_u_s_h_e_r.Base.Text.{Text}
use t_u_s_h_e_r.Core.Types.{NodeId}
use t_u_s_h_e_r.Core.Keys.{DeviceIdentity}
use t_u_s_h_e_r.Network.Transport.{
  IpAddr, v4, SocketAddr, TransportAddress, DiscoveryBeacon, DiscoveredPeer, beacon_of, on_datagram,
  transport_of, query_peers,
}

abbrev pub multicast_ipv4 : IpAddr
multicast_ipv4 = v4 239 255 42 42

abbrev pub broadcast_ipv4 : IpAddr
broadcast_ipv4 = v4 255 255 255 255

-- What `recv_from` gives.
pub data Received : Type 0 where
  datagram : (bytes : List ℕ) (src_addr : SocketAddr) → Received
  recv_error : Received

-- The transmitter, which reads the flag `running` before each round: what is sent to which address.
unfoldable pub transmit : List ℕ → ℕ → List Bool → List (List ℕ × SocketAddr)
transmit beacon_bytes discovery_port [] = []
transmit beacon_bytes discovery_port (false ∷ rounds) = []
transmit beacon_bytes discovery_port (true ∷ rounds) =
    (beacon_bytes, record { ip = broadcast_ipv4; port = discovery_port })
    ∷ ((beacon_bytes, record { ip = multicast_ipv4; port = discovery_port })
        ∷ transmit beacon_bytes discovery_port rounds)

module _ (from_json : List ℕ → Option DiscoveryBeacon) (local_id : NodeId) where
  -- What the receiver passes on of one result, with a buffer of 4096 bytes.
  unfoldable pub on_received : Received → List DiscoveredPeer
  on_received (datagram bytes src_addr) =
      elim (on_datagram local_id (from_json (take 4096 bytes)) src_addr) [
        | some discovered ↦ discovered ∷ []
        | none ↦ []
      ]
  on_received recv_error = []

  -- The receiver, which reads the flag `running` before each result.
  unfoldable pub receive : List (Bool × Received) → List DiscoveredPeer
  unfolding on_received
  receive [] = []
  receive ((false, received) ∷ results) = []
  receive ((true, received) ∷ results) = on_received received ++ receive results

-- The peer that the beacons of a node at `src_addr` stand for.
abbrev pub announced : DeviceIdentity → ℕ → SocketAddr → DiscoveredPeer
announced identity listen_port src_addr = record {
  node_id = identity.node_id;
  node_name = identity.node_name;
  platform = identity.platform;
  public_key_hex = identity.public_key_hex;
  endpoint = record {
    addr = record { ip = src_addr.ip; port = listen_port };
    transport_type = transport_of src_addr.ip;
  };
}

-- What the Tailscale command gives.
pub record CommandOutput : Type 0 where
  pub success : Bool
  pub stdout : List ℕ

-- The command of the path, or else the one at the usual place.
abbrev pub status_output : Option CommandOutput → Option CommandOutput → Option CommandOutput
status_output (some out) installed = some out
status_output none installed = installed

-- `status_of` reads the `TailscaleIPs` of the peers, if the output has peers.
unfoldable pub detect_peers :
    (List ℕ → Option (List (Option (List Text))))
    → (Text → Option IpAddr)
    → ℕ
    → Option CommandOutput
    → Option CommandOutput
    → List TransportAddress
detect_peers status_of parse_ip default_port on_path installed =
    elim (status_output on_path installed) [
      | none ↦ []
      | some output ↦
          if output.success
          then elim (status_of output.stdout) [
            | none ↦ []
            | some peers ↦ query_peers parse_ip default_port peers
          ]
          else []
    ]

module _ (to_json : DiscoveryBeacon → List ℕ) (from_json : List ℕ → Option DiscoveryBeacon)
    (identity : DeviceIdentity) (listen_port version : ℕ) (local_id : NodeId)
    (src_addr : SocketAddr)
    (read_back : from_json (to_json (beacon_of identity listen_port version))
      ≡ some (beacon_of identity listen_port version))
    (fits : length (to_json (beacon_of identity listen_port version)) ≤ 4096)
    (other : identity.node_id ≢ local_id) where
  abbrev beacon_bytes : List ℕ
  beacon_bytes = to_json (beacon_of identity listen_port version)

  on_datagram-beacon_of :
      on_datagram local_id (some (beacon_of identity listen_port version)) src_addr
      ≡ some (announced identity listen_port src_addr)
  unfolding on_datagram beacon_of
  on_datagram-beacon_of = ground (arith, other)

  on_received-datagram :
      on_received from_json local_id (datagram beacon_bytes src_addr)
      ≡ announced identity listen_port src_addr ∷ []
  unfolding on_received
  on_received-datagram =
      rw (on_received, take_whole 4096 beacon_bytes fits, read_back, on_datagram-beacon_of) refl

  -- Every datagram that a node sends, in whatever rounds, is heard by another node as this node at
  -- the address that it came from, with the port that the beacon names.
  receive-transmit :
      (discovery_port : ℕ) (rounds : List Bool)
      → let sent = transmit beacon_bytes discovery_port rounds in
        receive from_json local_id (map (λ (bytes, addr). (true, datagram bytes src_addr)) sent)
        ≡ map (λ (bytes, addr). announced identity listen_port src_addr) sent
  unfolding transmit receive
  receive-transmit discovery_port [] = refl
  receive-transmit discovery_port (false ∷ rounds) = refl
  receive-transmit discovery_port (true ∷ rounds) = rw on_received-datagram (
      ap
        (λ rest.
          announced identity listen_port src_addr
          ∷ (announced identity listen_port src_addr ∷ rest))
        (receive-transmit discovery_port rounds))
