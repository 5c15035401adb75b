-- ===== src/Network/Manager/Choice.antt =====
-- Which candidate `attempt_connect_best_candidate` of crates/tusher-network/src/manager.rs takes.
use t_u_s_h_e_r.Base.{
  ◌≡◌, ◌⊎◌, inl, inr, refl, ap, ◌∙◌, Bool, true, false, not, ◌&&◌, Bool-cases, none, some,
  Option-cases, List, [], ◌∷◌, arith, find?, ◌==◌, bytes_eq, Outcome, ok, Outcome-cases,
}
use t_u_s_h_e_r.Base.Assoc.{get, put, get-put}
use t_u_s_h_e_r.Core.Types.{NodeId, transport_type_eq, paired}
use t_u_s_h_e_r.Core.Keys.{Crypto}
use t_u_s_h_e_r.Network.Transport.{SocketAddr, EndpointCandidate}
use t_u_s_h_e_r.Network.Connection.{NetworkError, Stream, PeerConnection}
use t_u_s_h_e_r.Network.Connection.Identity.{HasOwnId, dial-HasOwnId}
use t_u_s_h_e_r.Network.Manager.{
  ConnectionManager, candidates_of, register_active_connection, migrate, is_severed, dial_to,
  connect_first, attempt_connect_best_candidate, is_trusted, set_trusted,
}

registered :
    (p : NodeId) (conn : PeerConnection) (m : ConnectionManager)
    → (get p (register_active_connection p conn m).active_connections ≡ some conn)
      × (is_trusted p (register_active_connection p conn m) ≡ true)
unfolding register_active_connection set_trusted is_trusted
registered p conn m =
    let same : (p == p) ≡ true = ground arith in
    let known : get p (put p paired m.trusted_peers) ≡ some paired =
      get-put p p paired m.trusted_peers ∙ rw same refl in
    (get-put p p conn m.active_connections ∙ rw same refl, rw (known, is_trusted) refl)

module _ (crypto : Crypto) (streams : SocketAddr → Outcome NetworkError Stream) where
  -- A candidate that may be dialled and answers.
  unfoldable pub is_reachable : ConnectionManager → EndpointCandidate → Bool
  is_reachable m cand =
      not (is_severed cand.address.transport_type m)
      && (elim (dial_to crypto streams cand.address m) [ ok conn ↦ true | _ ↦ false ])

  -- The new connection is to the first candidate that is reachable, and it is known under the node
  -- id that answered there, which then counts as paired.
  abbrev pub Connected :
      NodeId → List EndpointCandidate → ConnectionManager → ConnectionManager → Type 0
  Connected p cands m m' =
      (cand : EndpointCandidate) × (conn : PeerConnection) × (find? (is_reachable m) cands
        ≡ some cand)
      × HasOwnId crypto conn
      × (conn.transport_address ≡ cand.address)
      × (is_severed conn.transport_address.transport_type m ≡ false)
      × (get conn.remote_node_id m'.active_connections ≡ some conn)
      × (is_trusted conn.remote_node_id m' ≡ true)

  connect_first_lem :
      (p : NodeId) (cands : List EndpointCandidate) (m : ConnectionManager)
      → ((find? (is_reachable m) cands ≡ none) × (connect_first crypto streams p cands m ≡ m))
        ⊎ Connected p cands m (connect_first crypto streams p cands m)
  unfolding connect_first is_reachable
  connect_first_lem p [] m = inl (refl, refl)
  connect_first_lem p (cand ∷ cands) m =
      elim (Bool-cases (is_severed cand.address.transport_type m)) [
        | inl e ↦ rw (e, is_reachable, connect_first) (connect_first_lem p cands m)
        | inr e ↦ elim (Outcome-cases (dial_to crypto streams cand.address m)) [
          | inl (conn, d) ↦
              let (own, target) =
                dial-HasOwnId crypto cand.address m.identity m.listen_port
                  (streams cand.address.addr) conn d in
              let (active, trusted) =
                registered conn.remote_node_id conn (migrate p conn.remote_node_id cand m) in
              rw (e, d, is_reachable, connect_first)
                (inr (
                  cand,
                  conn,
                  refl,
                  own,
                  target,
                  ap (λ a. is_severed a.transport_type m) target ∙ e,
                  active,
                  trusted,
                ))
          | inr (inl (x, d)) ↦ rw (e, d, is_reachable, connect_first) (connect_first_lem p cands m)
          | inr (inr d) ↦ rw (e, d, is_reachable, connect_first) (connect_first_lem p cands m)
        ]
      ]

  -- `attempt_connect_best_candidate` leaves the manager alone when the peer is connected already or
  -- no candidate can be reached. Otherwise it connects to the first candidate, in the order kept,
  -- that is not switched off and whose handshake succeeds: the connection is to that address, has
  -- the node id of the key it showed, and is stored and trusted as paired under that id.
  pub attempt_connect_best_candidate_lem :
      (p : NodeId) (m : ConnectionManager)
      → (attempt_connect_best_candidate crypto streams p m ≡ m)
          × (((conn : PeerConnection) × (get p m.active_connections ≡ some conn))
              ⊎ (find? (is_reachable m) (candidates_of p m) ≡ none))
        ⊎ ((get p m.active_connections ≡ none)
            × Connected p (candidates_of p m) m (attempt_connect_best_candidate crypto streams p m))
  unfolding attempt_connect_best_candidate
  attempt_connect_best_candidate_lem p m = elim (Option-cases (get p m.active_connections)) [
    | inr (conn, e) ↦ inl (rw (e, attempt_connect_best_candidate) refl, inl (conn, e))
    | inl e ↦ elim (connect_first_lem p (candidates_of p m) m) [
      | inl (nobody, same) ↦ inl (rw (e, attempt_connect_best_candidate) same, inr nobody)
      | inr done ↦ inr (e, rw (e, attempt_connect_best_candidate) done)
    ]
  ]
