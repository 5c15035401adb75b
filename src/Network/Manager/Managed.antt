-- ===== src/Network/Manager/Managed.antt =====
-- The managers that a new `ConnectionManager` can become, in crates/tusher-network/src/manager.rs.
use t_u_s_h_e_r.Base.{
  ℕ, ◌+◌, not, ◌&&◌, inl, inr, ◌++◌, Bool, Bool-cases, Option-cases, List, [], ◌∷◌, arith, map, leb,
  All, if◌then◌else◌, ◌==◌, bytes_eq, nat_eq, Outcome, Outcome-cases, find?,
}
use t_u_s_h_e_r.Base.Assoc.{get, put, delete, All-put, All-delete, All-delete-put, All-get}
use t_u_s_h_e_r.Core.Types.{NodeId, TransportType, lan, tailscale, transport_type_eq}
use t_u_s_h_e_r.Core.Keys.{Crypto, DeviceIdentity}
use t_u_s_h_e_r.Network.Transport.{SocketAddr, transport_address_eq, DiscoveredPeer}
use t_u_s_h_e_r.Network.Connection.{
  NetworkError, Stream, PeerConnection, PingRun, ping_peer, await_pong,
}
use t_u_s_h_e_r.Network.Connection.Identity.{HasOwnId, dial-HasOwnId}
use t_u_s_h_e_r.Network.Manager.{
  ConnectionManager, new_manager, candidates_of, is_severed, on_incoming, on_discovered, fail_over,
  restore_lan, misses, probe, dial_to, maintain_connection, maintain_peers, maintain_connections,
  set_simulate_lan_disabled, set_request_handler, bind,
}
use t_u_s_h_e_r.Network.Manager.Valid.{
  Owned, Few, NoTwins, IsValid, register-IsValid, attempt-IsValid, on_incoming-IsValid,
  on_discovered-IsValid,
}

module _ (crypto : Crypto) (streams : SocketAddr → Outcome NetworkError Stream) where
  fail_over-IsValid :
      (p : NodeId) (m : ConnectionManager)
      → All NoTwins m.candidates
      → All Few (delete p m.failed_pings)
      → All (Owned crypto) m.active_connections
      → IsValid crypto (fail_over crypto streams p m)
  unfolding fail_over
  fail_over-IsValid p m distinct few own =
      attempt-IsValid crypto streams p
        (record m {
          active_connections = delete p m.active_connections;
          failed_pings = delete p m.failed_pings;
        })
        (few, distinct, All-delete (Owned crypto) p m.active_connections own)

  restore_lan-IsValid :
      (p : NodeId) (transport : TransportType) (m : ConnectionManager)
      → IsValid crypto m
      → IsValid crypto (restore_lan crypto streams p transport m)
  unfolding restore_lan
  restore_lan-IsValid p transport m v =
      elim (Bool-cases (transport == tailscale && not m.simulate_lan_disabled)) [
        | inr e ↦ rw (e, restore_lan) v
        | inl e ↦
            elim (Option-cases (find? (λ c. c.address.transport_type == lan) (candidates_of p m))) [
              | inl f ↦ rw (e, f, restore_lan) v
              | inr (cand, f) ↦ elim (Outcome-cases (dial_to crypto streams cand.address m)) [
                | inl (conn, d) ↦
                    rw (e, f, d, restore_lan)
                      (register-IsValid crypto p conn m v
                        (dial-HasOwnId crypto cand.address m.identity m.listen_port
                          (streams cand.address.addr) conn d).0)
                | inr (inl (x, d)) ↦ rw (e, f, d, restore_lan) v
                | inr (inr d) ↦ rw (e, f, d, restore_lan) v
              ]
            ]
      ]

  ping_peer-HasOwnId :
      (seq : ℕ) (run : PingRun) (conn : PeerConnection)
      → HasOwnId crypto conn
      → HasOwnId crypto (ping_peer seq run conn).0
  unfolding ping_peer
  ping_peer-HasOwnId seq run conn own = elim (Bool-cases run.writes) [
    | inr e ↦ rw (e, ping_peer) own
    | inl e ↦ elim (Outcome-cases (await_pong seq run.closed (conn.pong_rx ++ run.pongs))) [
      | inl (later, f) ↦ rw (e, f, ping_peer) own
      | inr (inl (x, f)) ↦ rw (e, f, ping_peer) own
      | inr (inr f) ↦ rw (e, f, ping_peer) own
    ]
  ]

  module _ (pings : NodeId → PingRun) (seq : ℕ) where
    abbrev pinged_manager : NodeId → PeerConnection → ConnectionManager → ConnectionManager
    pinged_manager p conn m = record m {
      active_connections = put p (ping_peer seq (pings p) conn).0 m.active_connections;
    }

    pinged_own :
        (p : NodeId) (conn : PeerConnection) (m : ConnectionManager)
        → HasOwnId crypto conn
        → All (Owned crypto) m.active_connections
        → All (Owned crypto) (pinged_manager p conn m).active_connections
    pinged_own p conn m mine own =
        All-put (Owned crypto) p (ping_peer seq (pings p) conn).0 m.active_connections
          (ping_peer-HasOwnId seq (pings p) conn mine) own

    missed_ping :
        (p : NodeId) (conn : PeerConnection) (m : ConnectionManager)
        → IsValid crypto m
        → HasOwnId crypto conn
        → IsValid crypto (
            let pinged = pinged_manager p conn m in
            let count = misses p m + 1 in
            let missed : ConnectionManager = record pinged {
              failed_pings = put p count m.failed_pings;
            } in
            if leb 3 count
            then fail_over crypto streams p missed
            else restore_lan crypto streams p conn.transport_address.transport_type missed)
    missed_ping p conn m (few, distinct, own) mine =
        let count = misses p m + 1 in
        let missed : ConnectionManager = record (pinged_manager p conn m) {
          failed_pings = put p count m.failed_pings;
        } in
        elim (Bool-cases (leb 3 count)) [
          | inl e ↦ rw e (
              fail_over-IsValid p missed distinct (All-delete-put Few p count m.failed_pings few)
                (pinged_own p conn m mine own))
          | inr e ↦ rw e (
              restore_lan-IsValid p conn.transport_address.transport_type missed (
                All-put Few p count m.failed_pings (ground arith) few,
                distinct,
                pinged_own p conn m mine own,
              ))
        ]

    probe-IsValid :
        (p : NodeId) (conn : PeerConnection) (m : ConnectionManager)
        → IsValid crypto m
        → HasOwnId crypto conn
        → IsValid crypto (probe crypto streams pings seq p conn m)
    unfolding probe
    probe-IsValid p conn m (few, distinct, own) mine =
        elim (Outcome-cases (ping_peer seq (pings p) conn).1) [
          | inl (u, e) ↦
              rw (e, probe)
                (restore_lan-IsValid p conn.transport_address.transport_type
                  (record (pinged_manager p conn m) { failed_pings = delete p m.failed_pings })
                  (All-delete Few p m.failed_pings few, distinct, pinged_own p conn m mine own))
          | inr (inl (x, e)) ↦ rw (e, probe) (missed_ping p conn m (few, distinct, own) mine)
          | inr (inr e) ↦ rw (e, probe) (missed_ping p conn m (few, distinct, own) mine)
        ]

    maintain_connection-IsValid :
        (p : NodeId) (m : ConnectionManager)
        → IsValid crypto m
        → IsValid crypto (maintain_connection crypto streams pings seq p m)
    unfolding maintain_connection
    maintain_connection-IsValid p m (few, distinct, own) =
        let lost = fail_over-IsValid p m distinct (All-delete Few p m.failed_pings few) own in
        elim (Option-cases (get p m.active_connections)) [
          | inl e ↦ rw (e, maintain_connection) lost
          | inr (conn, e) ↦ elim (Bool-cases (is_severed conn.transport_address.transport_type m)) [
            | inl f ↦ rw (e, f, maintain_connection) lost
            | inr f ↦
                rw (e, f, maintain_connection)
                  (probe-IsValid p conn m (few, distinct, own)
                    (All-get (Owned crypto) p conn m.active_connections own e))
          ]
        ]

    pub maintain_peers-IsValid :
        (peers : List NodeId) (m : ConnectionManager)
        → IsValid crypto m
        → IsValid crypto (maintain_peers crypto streams pings seq peers m)
    unfolding maintain_peers
    maintain_peers-IsValid [] m v = v
    maintain_peers-IsValid (p ∷ peers) m v =
        maintain_peers-IsValid peers (maintain_connection crypto streams pings seq p m)
          (maintain_connection-IsValid p m v)

-- What happens to a manager: an accepted stream, a discovered peer, a round of maintenance, a
-- changed simulation, a handler, a port; with what listens at the addresses then.
pub data Event : Type 0 where
  incoming : Stream → Event
  discovered : DiscoveredPeer → Event
  maintained : (ℕ → NodeId → PingRun) → ℕ → Event
  simulated : Bool → Event
  handled : Event
  bound : ℕ → Event

module _ (crypto : Crypto) where
  unfoldable pub on_network_event :
      (SocketAddr → Outcome NetworkError Stream) → Event → ConnectionManager → ConnectionManager
  on_network_event streams (incoming stream) m = on_incoming crypto streams stream m
  on_network_event streams (discovered d) m = on_discovered crypto streams d m
  on_network_event streams (maintained pings seq) m =
      maintain_connections crypto streams (pings seq) seq m
  on_network_event streams (simulated disabled) m = set_simulate_lan_disabled disabled m
  on_network_event streams handled m = set_request_handler m
  on_network_event streams (bound port) m = bind port m

  -- The managers that a new one can become.
  pub data Managed : ConnectionManager → Type 0 where
    begin :
        (d : DeviceIdentity) (listen_port discovery_port : ℕ)
        → Managed (new_manager d listen_port discovery_port)
    next :
        {m : ConnectionManager} (streams : SocketAddr → Outcome NetworkError Stream) (event : Event)
        → Managed m
        → Managed (on_network_event streams event m)

  -- In every manager that a new one can become, whatever comes in and whatever can be reached,
  -- fewer than three missed pings are counted for each peer, no address is twice among the
  -- candidates of a peer, and every connection kept has the node id of the public key it showed.
  pub Managed-IsValid : {m : ConnectionManager} → Managed m → IsValid crypto m
  unfolding new_manager on_network_event maintain_connections set_simulate_lan_disabled
      set_request_handler bind
  Managed-IsValid (begin d listen_port discovery_port) = (tt, tt, tt)
  Managed-IsValid (next {m} streams (incoming stream) r) =
      on_incoming-IsValid crypto streams stream m (Managed-IsValid r)
  Managed-IsValid (next {m} streams (discovered d) r) =
      on_discovered-IsValid crypto streams d m (Managed-IsValid r)
  Managed-IsValid (next {m} streams (maintained pings seq) r) =
      maintain_peers-IsValid crypto streams (pings seq) seq
        (map (λ (peer_id, list). peer_id) m.candidates) m (Managed-IsValid r)
  Managed-IsValid (next {m} streams (simulated disabled) r) = Managed-IsValid r
  Managed-IsValid (next {m} streams handled r) = Managed-IsValid r
  Managed-IsValid (next {m} streams (bound port) r) = Managed-IsValid r
