-- ===== src/Network/Manager/Valid.antt =====
-- The invariant of `ConnectionManager` in crates/tusher-network/src/manager.rs.
use t_u_s_h_e_r.Base.{
  ℕ, ◌<◌, ◌≡◌, ◌≢◌, inl, inr, refl, sym, false, Bool-cases, Option-cases, List, [], ◌∷◌, ◌++◌,
  arith, All, Pairwise, Pairwise-sort_by, Pairwise-append_one, ◌==◌, bytes_eq, nat_eq, sort_by,
  Outcome, Outcome-cases,
}
use mathlib.Core.Path.{subst}
use t_u_s_h_e_r.Base.Assoc.{get, put, delete, All-put, All-delete, All-get}
use t_u_s_h_e_r.Core.Types.{NodeId, transport_type_eq}
use t_u_s_h_e_r.Core.Keys.{Crypto}
use t_u_s_h_e_r.Network.Transport.{
  SocketAddr, TransportAddress, transport_address_eq, EndpointCandidate, new_candidate,
  DiscoveredPeer, transport_of,
}
use t_u_s_h_e_r.Network.Connection.{NetworkError, Stream, PeerConnection, accept}
use t_u_s_h_e_r.Network.Connection.Identity.{HasOwnId, dial-HasOwnId, accept-HasOwnId}
use t_u_s_h_e_r.Network.Manager.{
  ConnectionManager, candidates_of, has_address, by_priority, register_active_connection, migrate,
  is_severed, connect_first, attempt_connect_best_candidate, add_candidate, on_incoming,
  on_discovered, dial_to, set_trusted,
}

-- Two candidates for different addresses.
abbrev pub Differ : EndpointCandidate → EndpointCandidate → Type 0
Differ a b = a.address ≢ b.address

-- Fewer than three pings of a peer were missed, no address is twice among its candidates, and a
-- connection has the node id of its key.
abbrev pub Few : NodeId × ℕ → Type 0
Few (peer_id, count) = count < 3

abbrev pub NoTwins : NodeId × List EndpointCandidate → Type 0
NoTwins (peer_id, list) = Pairwise Differ list

abbrev pub Owned : Crypto → NodeId × PeerConnection → Type 0
Owned crypto (peer_id, conn) = HasOwnId crypto conn

abbrev pub IsValid : Crypto → ConnectionManager → Type 0
IsValid crypto m =
    All Few m.failed_pings × All NoTwins m.candidates × All (Owned crypto) m.active_connections

new_address :
    (address : TransportAddress) (list : List EndpointCandidate)
    → has_address address list ≡ false
    → All (λ c. c.address ≢ address) list
new_address address [] h = tt
new_address address (c ∷ list) h =
    ((λ e. absurd (ground arith)), new_address address list (ground arith))

add_new :
    (c : EndpointCandidate) (list : List EndpointCandidate)
    → has_address c.address list ≡ false
    → Pairwise Differ list
    → Pairwise Differ (list ++ (c ∷ []))
add_new c list h k = Pairwise-append_one Differ list c k (new_address c.address list h)

candidates_of-NoTwins :
    (p : NodeId) (m : ConnectionManager)
    → All NoTwins m.candidates
    → Pairwise Differ (candidates_of p m)
candidates_of-NoTwins p m h = elim (Option-cases (get p m.candidates)) [
  | inl e ↦
      let none_yet : candidates_of p m ≡ [] = rw (e, candidates_of) refl in
      subst (Pairwise Differ) (sym none_yet) tt
  | inr (list, e) ↦
      let found : candidates_of p m ≡ list = rw (e, candidates_of) refl in
      subst (Pairwise Differ) (sym found) (All-get NoTwins p list m.candidates h e)
]

pub register-IsValid :
    (crypto : Crypto) (p : NodeId) (conn : PeerConnection) (m : ConnectionManager)
    → IsValid crypto m
    → HasOwnId crypto conn
    → IsValid crypto (register_active_connection p conn m)
unfolding register_active_connection set_trusted
register-IsValid crypto p conn m (few, distinct, own) mine = (
  All-delete Few p m.failed_pings few,
  distinct,
  All-put (Owned crypto) p conn m.active_connections mine own,
)

migrate-IsValid :
    (crypto : Crypto) (p real : NodeId) (cand : EndpointCandidate) (m : ConnectionManager)
    → IsValid crypto m
    → IsValid crypto (migrate p real cand m)
unfolding migrate
migrate-IsValid crypto p real cand m (few, distinct, own) = elim (Bool-cases (p == real)) [
  | inl e ↦ rw (e, migrate) (few, distinct, own)
  | inr e ↦
      let left : ConnectionManager = record m { candidates = delete p m.candidates } in
      let kept = All-delete NoTwins p m.candidates distinct in
      let before = candidates_of-NoTwins real left kept in
      elim (Bool-cases (has_address cand.address (candidates_of real left))) [
        | inl e' ↦
            rw (e, e', migrate)
              (few, All-put NoTwins real (candidates_of real left) left.candidates before kept, own)
        | inr e' ↦
            rw (e, e', migrate)
              (
                few,
                All-put NoTwins real (candidates_of real left ++ (cand ∷ [])) left.candidates
                    (add_new cand (candidates_of real left) e' before) kept,
                own,
              )
      ]
]

module _ (crypto : Crypto) (streams : SocketAddr → Outcome NetworkError Stream) where
  connect_first-IsValid :
      (p : NodeId) (cands : List EndpointCandidate) (m : ConnectionManager)
      → IsValid crypto m
      → IsValid crypto (connect_first crypto streams p cands m)
  unfolding connect_first
  connect_first-IsValid p [] m v = v
  connect_first-IsValid p (cand ∷ cands) m v =
      let rest = connect_first-IsValid p cands m v in
      elim (Bool-cases (is_severed cand.address.transport_type m)) [
        | inl e ↦ rw (e, connect_first) rest
        | inr e ↦ elim (Outcome-cases (dial_to crypto streams cand.address m)) [
          | inl (conn, d) ↦
              rw (e, d, connect_first)
                (register-IsValid crypto conn.remote_node_id conn
                  (migrate p conn.remote_node_id cand m)
                  (migrate-IsValid crypto p conn.remote_node_id cand m v)
                  (dial-HasOwnId crypto cand.address m.identity m.listen_port
                    (streams cand.address.addr) conn d).0)
          | inr (inl (x, d)) ↦ rw (e, d, connect_first) rest
          | inr (inr d) ↦ rw (e, d, connect_first) rest
        ]
      ]

  pub attempt-IsValid :
      (p : NodeId) (m : ConnectionManager)
      → IsValid crypto m
      → IsValid crypto (attempt_connect_best_candidate crypto streams p m)
  unfolding attempt_connect_best_candidate
  attempt-IsValid p m v = elim (Option-cases (get p m.active_connections)) [
    | inl e ↦
        rw (e, attempt_connect_best_candidate) (connect_first-IsValid p (candidates_of p m) m v)
    | inr (conn, e) ↦ rw (e, attempt_connect_best_candidate) v
  ]

  add_candidate-IsValid :
      (p : NodeId) (address : TransportAddress) (m : ConnectionManager)
      → IsValid crypto m
      → IsValid crypto (add_candidate crypto streams p address m)
  unfolding add_candidate new_candidate
  add_candidate-IsValid p address m (few, distinct, own) =
      let list = candidates_of p m in
      let sorted = sort_by by_priority (list ++ (new_candidate address ∷ [])) in
      elim (Bool-cases (has_address address list)) [
        | inl e ↦ rw (e, add_candidate) (few, distinct, own)
        | inr e ↦
            rw (e, add_candidate)
              (attempt-IsValid p (record m { candidates = put p sorted m.candidates })
                (
                  few,
                  All-put NoTwins p sorted m.candidates
                      (Pairwise-sort_by by_priority Differ (λ a b d same. d (sym same))
                        (list ++ (new_candidate address ∷ []))
                        (add_new (new_candidate address) list e
                          (candidates_of-NoTwins p m distinct)))
                      distinct,
                  own,
                ))
      ]

  pub on_incoming-IsValid :
      (stream : Stream) (m : ConnectionManager)
      → IsValid crypto m
      → IsValid crypto (on_incoming crypto streams stream m)
  unfolding on_incoming
  on_incoming-IsValid stream m v =
      let transport = transport_of stream.peer_addr.ip in
      elim (Bool-cases (is_severed transport m)) [
        | inl e ↦ rw (e, on_incoming) v
        | inr e ↦ elim (Outcome-cases ((accept crypto stream m.identity transport).1)) [
          | inl (conn, d) ↦
              rw (e, d, on_incoming)
                (add_candidate-IsValid conn.remote_node_id
                  (record { addr = conn.transport_address.addr; transport_type = transport })
                  (register_active_connection conn.remote_node_id conn m)
                  (register-IsValid crypto conn.remote_node_id conn m v
                    (accept-HasOwnId crypto stream m.identity transport conn d)))
          | inr (inl (x, d)) ↦ rw (e, d, on_incoming) v
          | inr (inr d) ↦ rw (e, d, on_incoming) v
        ]
      ]

  pub on_discovered-IsValid :
      (d : DiscoveredPeer) (m : ConnectionManager)
      → IsValid crypto m
      → IsValid crypto (on_discovered crypto streams d m)
  unfolding on_discovered
  on_discovered-IsValid d m v = elim (Bool-cases (is_severed d.endpoint.transport_type m)) [
    | inl e ↦ rw (e, on_discovered) v
    | inr e ↦ rw (e, on_discovered) (add_candidate-IsValid d.node_id d.endpoint m v)
  ]
