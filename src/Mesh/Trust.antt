-- ===== src/Mesh/Trust.antt =====
-- `trust-all` of crates/tusher-cli/src/main.rs and `trust_all_peers` of crates/tusher-ffi/src/lib.rs.
use t_u_s_h_e_r.Base.{
  ◌≡◌, refl, ◌∙◌, ap, ◌||◌, List, [], ◌∷◌, map, any, arith, ◌==◌, bytes_eq, Bool-cases, inl, inr,
}
use t_u_s_h_e_r.Base.Assoc.{get-put}
use t_u_s_h_e_r.Core.Types.{NodeId, paired}
use t_u_s_h_e_r.Network.Transport.{EndpointCandidate}
use t_u_s_h_e_r.Network.Manager.{ConnectionManager, set_trusted, is_trusted}
use t_u_s_h_e_r.Network.Manager.Status.{PeerStatusInfo, peer_status, get_peer_statuses}
use t_u_s_h_e_r.Mesh.{MeshNode, trust_each, trust_all_peers}

pub is_trusted-set_trusted :
    (id j : NodeId) (m : ConnectionManager)
    → is_trusted j (set_trusted id paired m) ≡ (id == j || is_trusted j m)
unfolding is_trusted set_trusted
is_trusted-set_trusted id j m = elim (Bool-cases (id == j)) [
  | inl e ↦ rw (e, rw e at (get-put j id paired m.trusted_peers), is_trusted) refl
  | inr e ↦ rw (e, rw e at (get-put j id paired m.trusted_peers), is_trusted) refl
]

trust_each_lem :
    (peers : List PeerStatusInfo) (m : ConnectionManager) (j : NodeId)
    → is_trusted j (trust_each peers m) ≡ (any (λ p. p.node_id == j) peers || is_trusted j m)
unfolding trust_each
trust_each_lem [] m j = refl
trust_each_lem (p ∷ peers) m j = ground (
  arith,
  trust_each_lem peers (set_trusted p.node_id paired m) j,
  is_trusted-set_trusted p.node_id j m,
)

trust_each_keeps :
    (peers : List PeerStatusInfo) (m : ConnectionManager)
    → ((trust_each peers m).active_connections ≡ m.active_connections)
      × ((trust_each peers m).candidates ≡ m.candidates)
unfolding trust_each set_trusted
trust_each_keeps [] m = (refl, refl)
trust_each_keeps (p ∷ peers) m = trust_each_keeps peers (set_trusted p.node_id paired m)

has_entry-statuses :
    (m : ConnectionManager) (j : NodeId) (entries : List (NodeId × List EndpointCandidate))
    → any (λ p. p.node_id == j) (map (λ (id, cands). peer_status m id cands) entries)
      ≡ any (λ (id, cands). id == j) entries
unfolding peer_status
has_entry-statuses m j [] = refl
has_entry-statuses m j ((id, cands) ∷ entries) = ground (arith, has_entry-statuses m j entries)

-- Trusting all peers trusts exactly the nodes that have an entry among the candidates, connected or
-- not, in addition to those that were trusted before. A node that is connected and has no such
-- entry is passed over. Connections and candidates stay as they are.
pub trust_all_peers_lem :
    (node : MeshNode) (j : NodeId)
    → (is_trusted j (trust_all_peers node).manager
        ≡ (any (λ (id, cands). id == j) node.manager.candidates || is_trusted j node.manager))
      × ((trust_all_peers node).manager.active_connections ≡ node.manager.active_connections)
      × ((trust_all_peers node).manager.candidates ≡ node.manager.candidates)
unfolding trust_all_peers get_peer_statuses
trust_all_peers_lem node j =
    let m = node.manager in
    let (connections, candidates) = trust_each_keeps (get_peer_statuses m) m in
    (
      trust_each_lem (get_peer_statuses m) m j
          ∙ ap (λ b. b || is_trusted j m) (has_entry-statuses m j m.candidates),
      connections,
      candidates,
    )
