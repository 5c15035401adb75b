-- ===== src/Network/Transport.antt =====
-- transport.rs, discovery.rs, tailscale.rs of crates/tusher-network. What comes over UDP is a
-- decoded beacon, and what the Tailscale command prints is a parsed list.
use native.Mathlib.Decide.{ℕ_discrete}
use t_u_s_h_e_r.Base.{
  ℕ, Bool, false, ◌&&◌, Option, none, some, List, [], ◌∷◌, leb, if◌then◌else◌, ◌==◌, ◌!=◌, Eq,
  nat_eq, bytes_eq,
}
use t_u_s_h_e_r.Base.Text.{Text, ascii}
use t_u_s_h_e_r.Core.Types.{NodeId, Platform, TransportType, lan, tailscale, manual}
use t_u_s_h_e_r.Core.Keys.{DeviceIdentity}

pub data IpAddr : Type 0 where
  v4 : (a b c d : ℕ) → IpAddr
  v6 : List ℕ → IpAddr

pub record SocketAddr : Type 0 where
  pub ip : IpAddr
  pub port : ℕ

pub record TransportAddress : Type 0 where
  pub addr : SocketAddr
  pub transport_type : TransportType

TransportAddress-discrete : Discrete TransportAddress
TransportAddress-discrete = hlevel ℕ_discrete

instance unfoldable pub transport_address_eq : Eq TransportAddress
unfolding TransportAddress-discrete
transport_address_eq = record { dec = TransportAddress-discrete }

-- Times in microseconds.
pub record EndpointCandidate : Type 0 where
  pub address : TransportAddress
  pub latency : Option ℕ
  pub last_success : Option ℕ
  pub consecutive_failures : ℕ

unfoldable pub new_candidate : TransportAddress → EndpointCandidate
new_candidate address = record {
  address = address;
  latency = none;
  last_success = none;
  consecutive_failures = 0;
}

abbrev type_priority : TransportType → ℕ
type_priority lan = 1
type_priority tailscale = 2
type_priority manual = 3

abbrev pub priority : EndpointCandidate → ℕ
priority c = type_priority c.address.transport_type

-- 100.64.0.0/10
unfoldable pub is_tailscale_ip : IpAddr → Bool
is_tailscale_ip (v4 a b c d) = a == 100 && (leb 64 b && leb b 127)
is_tailscale_ip (v6 segments) = false

-- The transport that an address of a peer stands for.
unfoldable pub transport_of : IpAddr → TransportType
unfolding is_tailscale_ip
transport_of ip = if is_tailscale_ip ip then tailscale else lan

abbrev pub discovery_magic : Text
discovery_magic = ascii "TUSHER_DISCOVER_V1"

pub record DiscoveryBeacon : Type 0 where
  pub tusher_magic : Text
  pub node_id : NodeId
  pub node_name : Text
  pub platform : Platform
  pub port : ℕ
  pub public_key_hex : Text
  pub version : ℕ

pub record DiscoveredPeer : Type 0 where
  pub node_id : NodeId
  pub node_name : Text
  pub platform : Platform
  pub public_key_hex : Text
  pub endpoint : TransportAddress

-- The beacon that is sent.
unfoldable pub beacon_of : DeviceIdentity → ℕ → ℕ → DiscoveryBeacon
beacon_of identity listen_port version = record {
  tusher_magic = discovery_magic;
  node_id = identity.node_id;
  node_name = identity.node_name;
  platform = identity.platform;
  port = listen_port;
  public_key_hex = identity.public_key_hex;
  version = version;
}

-- The receiver, on a datagram that is a beacon or not.
unfoldable pub on_datagram : NodeId → Option DiscoveryBeacon → SocketAddr → Option DiscoveredPeer
unfolding transport_of
on_datagram local_id none src_addr = none
on_datagram local_id (some beacon) src_addr =
    if beacon.tusher_magic == discovery_magic && beacon.node_id != local_id
    then some (record {
      node_id = beacon.node_id;
      node_name = beacon.node_name;
      platform = beacon.platform;
      public_key_hex = beacon.public_key_hex;
      endpoint = record {
        addr = record { ip = src_addr.ip; port = beacon.port };
        transport_type = transport_of src_addr.ip;
      };
    })
    else none

module _ (parse_ip : Text → Option IpAddr) where
  -- The first IPv4 address of a peer.
  unfoldable pub first_ipv4 : List Text → Option IpAddr
  first_ipv4 [] = none
  first_ipv4 (ip_str ∷ ips) =
      let rest = first_ipv4 ips in
      elim (parse_ip ip_str) [ some (v4 a b c d) ↦ some (v4 a b c d) | _ ↦ rest ]

  -- `query_peers`, over the `TailscaleIPs` of the peers in the status.
  unfoldable pub query_peers : ℕ → List (Option (List Text)) → List TransportAddress
  unfolding first_ipv4
  query_peers default_port [] = []
  query_peers default_port (none ∷ peers) = query_peers default_port peers
  query_peers default_port (some ips ∷ peers) =
      let rest = query_peers default_port peers in
      elim (first_ipv4 ips) [
        | none ↦ rest
        | some ip ↦
            record { addr = record { ip = ip; port = default_port }; transport_type = tailscale }
            ∷ rest
      ]
