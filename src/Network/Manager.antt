-- ===== src/Network/Manager.antt =====
-- crates/tusher-network/src/manager.rs, and the trust of pairing.rs. What listens at an address, and
-- what a ping of a peer meets, are arguments. An operation runs without interruption.
pub mod Valid
pub mod Managed
pub mod Choice
pub mod Status
use t_u_s_h_e_r.Base.{
  ℕ, ◌+◌, ◌≡◌, Bool, true, false, not, ◌&&◌, ◌||◌, Option, none, some, List, [], ◌∷◌, ◌++◌, map,
  any, find?, leb, ltb, if◌then◌else◌, ◌==◌, ◌!=◌, Eq, nat_eq, bytes_eq, sort_by, Outcome, ok, err,
  panic,
}
use t_u_s_h_e_r.Base.Text.{Text}
use t_u_s_h_e_r.Base.Assoc.{get, put, delete}
use t_u_s_h_e_r.Core.Types.{
  NodeId, Platform, TransportType, lan, tailscale, transport_type_eq, TrustStatus, paired,
}
use t_u_s_h_e_r.Core.Protocol.{Message}
use t_u_s_h_e_r.Core.Keys.{Crypto, DeviceIdentity}
use t_u_s_h_e_r.Network.Transport.{
  SocketAddr, TransportAddress, transport_address_eq, EndpointCandidate, new_candidate, priority,
  transport_of, DiscoveredPeer,
}
use t_u_s_h_e_r.Network.Connection.{
  NetworkError, Stream, PeerConnection, PingRun, dial, accept, ping_peer,
}

-- `listening` has the peers for whose connections a task waits for requests.
pub record ConnectionManager : Type 0 where
  pub identity : DeviceIdentity
  pub listen_port : ℕ
  pub actual_listen_port : ℕ
  pub discovery_port : ℕ
  pub trusted_peers : List (NodeId × TrustStatus)
  pub candidates : List (NodeId × List EndpointCandidate)
  pub active_connections : List (NodeId × PeerConnection)
  pub failed_pings : List (NodeId × ℕ)
  pub simulate_lan_disabled : Bool
  pub has_handler : Bool
  pub listening : List NodeId

unfoldable pub new_manager : DeviceIdentity → ℕ → ℕ → ConnectionManager
new_manager identity listen_port discovery_port = record {
  identity = identity;
  listen_port = listen_port;
  actual_listen_port = listen_port;
  discovery_port = discovery_port;
  trusted_peers = [];
  candidates = [];
  active_connections = [];
  failed_pings = [];
  simulate_lan_disabled = false;
  has_handler = false;
  listening = [];
}

unfoldable pub is_trusted : NodeId → ConnectionManager → Bool
is_trusted node_id m = elim (get node_id m.trusted_peers) [ some paired ↦ true | _ ↦ false ]

unfoldable pub set_trusted : NodeId → TrustStatus → ConnectionManager → ConnectionManager
set_trusted node_id status m = record m { trusted_peers = put node_id status m.trusted_peers }

unfoldable pub set_request_handler : ConnectionManager → ConnectionManager
set_request_handler m = record m {
  has_handler = true;
  listening = m.listening ++ map (λ (peer_id, conn). peer_id) m.active_connections;
}

unfoldable pub set_simulate_lan_disabled : Bool → ConnectionManager → ConnectionManager
set_simulate_lan_disabled disabled m = record m { simulate_lan_disabled = disabled }

-- The candidates of a peer, none if it has no entry.
abbrev pub candidates_of : NodeId → ConnectionManager → List EndpointCandidate
candidates_of node_id m = elim (get node_id m.candidates) [ none ↦ [] | some list ↦ list ]

abbrev pub has_address : TransportAddress → List EndpointCandidate → Bool
has_address address list = any (λ c. c.address == address) list

-- Sorted by `priority`, and stable.
abbrev pub by_priority : EndpointCandidate → EndpointCandidate → Bool
by_priority a b = leb (priority a) (priority b)

unfoldable pub register_active_connection :
    NodeId → PeerConnection → ConnectionManager → ConnectionManager
unfolding set_trusted
register_active_connection node_id conn m =
    let trusted = set_trusted node_id paired m in
    record trusted {
      active_connections = put node_id conn m.active_connections;
      failed_pings = delete node_id m.failed_pings;
      listening = if m.has_handler then m.listening ++ (node_id ∷ []) else m.listening;
    }

-- The candidate of a placeholder goes to the node that answered.
unfoldable pub migrate : NodeId → NodeId → EndpointCandidate → ConnectionManager → ConnectionManager
migrate peer_id real_id cand m =
    if peer_id == real_id
    then m
    else let left : ConnectionManager = record m { candidates = delete peer_id m.candidates } in
      let list = candidates_of real_id left in
      let list' = if has_address cand.address list then list else list ++ (cand ∷ []) in
      record left { candidates = put real_id list' left.candidates }

-- A candidate is left out while LAN is disabled.
abbrev pub is_severed : TransportType → ConnectionManager → Bool
is_severed transport_type m = transport_type == lan && m.simulate_lan_disabled

abbrev pub misses : NodeId → ConnectionManager → ℕ
misses peer_id m = elim (get peer_id m.failed_pings) [ none ↦ 0 | some n ↦ n ]

-- The port that `start` was given by the system.
unfoldable pub bind : ℕ → ConnectionManager → ConnectionManager
bind port m = record m { actual_listen_port = port }

module _ (crypto : Crypto) (streams : SocketAddr → Outcome NetworkError Stream) where
  abbrev pub dial_to : TransportAddress → ConnectionManager → Outcome NetworkError PeerConnection
  dial_to address m = (dial crypto address m.identity m.listen_port (streams address.addr)).1

  -- The loop over the candidates.
  unfoldable pub connect_first :
      NodeId → List EndpointCandidate → ConnectionManager → ConnectionManager
  unfolding register_active_connection migrate
  connect_first peer_id [] m = m
  connect_first peer_id (cand ∷ cands) m =
      let rest = connect_first peer_id cands m in
      if is_severed cand.address.transport_type m then rest else elim (dial_to cand.address m) [
        | ok conn ↦
            register_active_connection conn.remote_node_id conn
              (migrate peer_id conn.remote_node_id cand m)
        | _ ↦ rest
      ]

  unfoldable pub attempt_connect_best_candidate : NodeId → ConnectionManager → ConnectionManager
  unfolding connect_first
  attempt_connect_best_candidate peer_id m = elim (get peer_id m.active_connections) [
    | some conn ↦ m
    | none ↦ connect_first peer_id (candidates_of peer_id m) m
  ]

  unfoldable pub add_candidate : NodeId → TransportAddress → ConnectionManager → ConnectionManager
  unfolding attempt_connect_best_candidate
  add_candidate node_id address m =
      let list = candidates_of node_id m in
      if has_address address list
      then m
      else attempt_connect_best_candidate node_id (record m {
        candidates =
            put node_id (sort_by by_priority (list ++ (new_candidate address ∷ []))) m.candidates;
      })

  -- A stream that the listener of `start` has accepted, from the address of the peer.
  unfoldable pub on_incoming : Stream → ConnectionManager → ConnectionManager
  unfolding add_candidate register_active_connection
  on_incoming stream m =
      let transport_type = transport_of stream.peer_addr.ip in
      if is_severed transport_type m
      then m
      else elim ((accept crypto stream m.identity transport_type).1) [
        | ok conn ↦
            let address : TransportAddress = record {
              addr = conn.transport_address.addr;
              transport_type = transport_type;
            } in
            add_candidate conn.remote_node_id address
              (register_active_connection conn.remote_node_id conn m)
        | _ ↦ m
      ]

  -- A peer that the discovery of `start` has reported.
  unfoldable pub on_discovered : DiscoveredPeer → ConnectionManager → ConnectionManager
  unfolding add_candidate
  on_discovered discovered m =
      if is_severed discovered.endpoint.transport_type m
      then m
      else add_candidate discovered.node_id discovered.endpoint m

  -- A connection that is lost.
  unfoldable pub fail_over : NodeId → ConnectionManager → ConnectionManager
  unfolding attempt_connect_best_candidate
  fail_over peer_id m = attempt_connect_best_candidate peer_id (record m {
    active_connections = delete peer_id m.active_connections;
    failed_pings = delete peer_id m.failed_pings;
  })

  -- Back to LAN from Tailscale, if the first LAN candidate answers.
  unfoldable pub restore_lan : NodeId → TransportType → ConnectionManager → ConnectionManager
  unfolding register_active_connection
  restore_lan peer_id transport_type m =
      if transport_type == tailscale && not m.simulate_lan_disabled
      then elim (find? (λ c. c.address.transport_type == lan) (candidates_of peer_id m)) [
        | none ↦ m
        | some lan_cand ↦ elim (dial_to lan_cand.address m) [
          | ok conn ↦ register_active_connection peer_id conn m
          | _ ↦ m
        ]
      ]
      else m

  module _ (pings : NodeId → PingRun) where
    -- The ping of a connection that is there.
    unfoldable pub probe : ℕ → NodeId → PeerConnection → ConnectionManager → ConnectionManager
    unfolding fail_over restore_lan
    probe seq peer_id conn m =
        let (conn', result) = ping_peer seq (pings peer_id) conn in
        let pinged : ConnectionManager = record m {
          active_connections = put peer_id conn' m.active_connections;
        } in
        let transport_type = conn.transport_address.transport_type in
        elim result [
          | ok u ↦
              restore_lan peer_id transport_type
                (record pinged { failed_pings = delete peer_id m.failed_pings })
          | _ ↦
              let count = misses peer_id m + 1 in
              let missed : ConnectionManager = record pinged {
                failed_pings = put peer_id count m.failed_pings;
              } in
              if leb 3 count
              then fail_over peer_id missed
              else restore_lan peer_id transport_type missed
        ]

    -- The body of the loop over the peers.
    unfoldable pub maintain_connection : ℕ → NodeId → ConnectionManager → ConnectionManager
    unfolding probe
    maintain_connection seq peer_id m = elim (get peer_id m.active_connections) [
      | none ↦ fail_over peer_id m
      | some conn ↦
          if is_severed conn.transport_address.transport_type m
          then fail_over peer_id m
          else probe seq peer_id conn m
    ]

    unfoldable pub maintain_peers : ℕ → List NodeId → ConnectionManager → ConnectionManager
    unfolding maintain_connection
    maintain_peers seq [] m = m
    maintain_peers seq (peer_id ∷ peers) m =
        maintain_peers seq peers (maintain_connection seq peer_id m)

    unfoldable pub maintain_connections : ℕ → ConnectionManager → ConnectionManager
    unfolding maintain_peers
    maintain_connections seq m =
        maintain_peers seq (map (λ (peer_id, list). peer_id) m.candidates) m

-- To every connection whose writer still runs.
unfoldable pub broadcast_message :
    (PeerConnection → Bool) → Message → ConnectionManager → ConnectionManager
broadcast_message writes msg m = record m {
  active_connections =
      map
        (λ (peer_id, conn). (
          peer_id,
          if writes conn then record conn { written = conn.written ++ (msg ∷ []) } else conn,
        ))
        m.active_connections;
}
