-- ===== src/Network/Manager/Status.antt =====
-- `get_peer_statuses` of crates/tusher-network/src/manager.rs.
use t_u_s_h_e_r.Base.{ℕ, Bool, true, false, Option, none, some, List, map, ltb, if◌then◌else◌}
use t_u_s_h_e_r.Base.Text.{Text}
use t_u_s_h_e_r.Base.Assoc.{get}
use t_u_s_h_e_r.Core.Types.{NodeId, Platform, TransportType}
use t_u_s_h_e_r.Network.Transport.{SocketAddr, TransportAddress, EndpointCandidate}
use t_u_s_h_e_r.Network.Connection.{PeerConnection}
use t_u_s_h_e_r.Network.Manager.{ConnectionManager, is_trusted}

pub record PeerStatusInfo : Type 0 where
  pub node_id : NodeId
  pub node_name : Text
  pub platform : Option Platform
  pub is_connected : Bool
  pub active_transport : Option TransportType
  pub active_addr : Option SocketAddr
  pub latency : Option ℕ
  pub available_candidates : List TransportAddress
  pub is_paired : Bool

abbrev last_ping_rtt : PeerConnection → Option ℕ
last_ping_rtt conn = if ltb 0 conn.last_ping_rtt_us then some conn.last_ping_rtt_us else none

unfoldable pub peer_status : ConnectionManager → NodeId → List EndpointCandidate → PeerStatusInfo
unfolding is_trusted
peer_status m id cand_list = elim (get id m.active_connections) [
  | none ↦ record {
    node_id = id;
    node_name = id;
    platform = none;
    is_connected = false;
    active_transport = none;
    active_addr = none;
    latency = none;
    available_candidates = map (λ c. c.address) cand_list;
    is_paired = is_trusted id m;
  }
  | some conn ↦ record {
    node_id = id;
    node_name = conn.remote_name;
    platform = some conn.remote_platform;
    is_connected = true;
    active_transport = some conn.transport_address.transport_type;
    active_addr = some conn.transport_address.addr;
    latency = last_ping_rtt conn;
    available_candidates = map (λ c. c.address) cand_list;
    is_paired = is_trusted id m;
  }
]

unfoldable pub get_peer_statuses : ConnectionManager → List PeerStatusInfo
unfolding peer_status
get_peer_statuses m = map (λ (id, cand_list). peer_status m id cand_list) m.candidates
