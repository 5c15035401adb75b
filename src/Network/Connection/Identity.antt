-- ===== src/Network/Connection/Identity.antt =====
-- The handshake of crates/tusher-network/src/connection.rs, and the reader task after it.
use t_u_s_h_e_r.Base.{
  ℕ, ◌≡◌, inl, inr, refl, sym, ap, ◌∙◌, true, Bool-cases, none, some, Option-cases, List, [], ◌∷◌,
  arith, ◌!=◌, Bool, nat_eq, bytes_eq, Outcome, ok, err, panic, Outcome-cases, >>=-eq-ok,
}
use mathlib.Core.Path.{subst}
use t_u_s_h_e_r.Base.Text.{Text}
use t_u_s_h_e_r.Core.Types.{NodeId, TransportType}
use t_u_s_h_e_r.Core.Protocol.{Message, hello, hello_ack, protocol_version}
use t_u_s_h_e_r.Core.Keys.{Crypto, DeviceIdentity, from_verifying_key}
use t_u_s_h_e_r.Network.Transport.{SocketAddr, TransportAddress}
use t_u_s_h_e_r.Network.Connection.{
  NetworkError, Stream, PeerConnection, Remote, new_connection, answer_of, check_identity, conclude,
  dial, on_hello, accept,
}

-- The node id of a connection is that of its public key.
abbrev pub HasOwnId : Crypto → PeerConnection → Type 0
HasOwnId crypto conn =
    (bytes : List ℕ) × (vk : List ℕ) × (crypto.hex_decode conn.remote_pubkey_hex ≡ some bytes)
    × (crypto.verifying_key bytes ≡ some vk)
    × (conn.remote_node_id ≡ from_verifying_key crypto vk)

module _ (crypto : Crypto) where
  check_identity_ok :
      (key : Text) (id : NodeId) (u : Unit {0})
      → check_identity crypto key id ≡ ok u
      → (bytes : List ℕ) × (vk : List ℕ) × (crypto.hex_decode key ≡ some bytes)
        × (crypto.verifying_key bytes ≡ some vk)
        × (id ≡ from_verifying_key crypto vk)
  unfolding check_identity
  check_identity_ok key id u h = elim (Option-cases (crypto.hex_decode key)) [
    | inl e ↦ absurd (ground arith)
    | inr (bytes, e) ↦ elim (Option-cases (crypto.verifying_key bytes)) [
      | inl e' ↦ absurd (ground arith)
      | inr (vk, e') ↦ (bytes, vk, e, e', ground (arith, bytes_eq))
    ]
  ]

  conclude_ok :
      (target : TransportAddress) (resp : Message) (conn : PeerConnection)
      → conclude crypto target resp ≡ ok conn
      → HasOwnId crypto conn × (conn.transport_address ≡ target)
  unfolding conclude new_connection
  conclude_ok target resp conn h =
      let (remote, answered, h₁) = >>=-eq-ok (answer_of resp) _ h in
      elim (Outcome-cases (check_identity crypto remote.public_key_hex remote.node_id)) [
        | inl (u, e) ↦
            let (bytes, vk, decoded, valid, own) =
              check_identity_ok remote.public_key_hex remote.node_id u e in
            let made : new_connection remote target ≡ conn = ground arith in
            (
              (
                bytes,
                vk,
                ap (λ c. crypto.hex_decode c.remote_pubkey_hex) (sym made) ∙ decoded,
                valid,
                ap (λ c. c.remote_node_id) (sym made) ∙ own,
              ),
              ap (λ c. c.transport_address) (sym made),
            )
        | inr (inl (e, f)) ↦ absurd (ground arith)
        | inr (inr f) ↦ absurd (ground arith)
      ]

  -- `dial` only makes connections whose node id is that of the public key they claim, to the
  -- address that was dialled.
  pub dial-HasOwnId :
      (target : TransportAddress) (identity : DeviceIdentity) (port : ℕ)
      (stream : Outcome NetworkError Stream) (conn : PeerConnection)
      → (dial crypto target identity port stream).1 ≡ ok conn
      → HasOwnId crypto conn × (conn.transport_address ≡ target)
  unfolding dial
  dial-HasOwnId target identity port (err e) conn h = absurd (ground arith)
  dial-HasOwnId target identity port panic conn h = absurd (ground arith)
  dial-HasOwnId target identity port (ok stream) conn h = elim (Bool-cases stream.writes) [
    | inl w ↦
        let (resp, came, h₁) =
          >>=-eq-ok stream.next (conclude crypto target) (sym (rw (w, dial) refl) ∙ h) in
        conclude_ok target resp conn h₁
    | inr w ↦ absurd (ground arith)
  ]

  made_ok :
      (remote : Remote) (target : TransportAddress) (conn : PeerConnection) (u : Unit {0})
      → check_identity crypto remote.public_key_hex remote.node_id ≡ ok u
      → new_connection remote target ≡ conn
      → HasOwnId crypto conn
  unfolding new_connection
  made_ok remote target conn u e made =
      subst (HasOwnId crypto) made (check_identity_ok remote.public_key_hex remote.node_id u e)

  on_hello_ok :
      (stream : Stream) (identity : DeviceIdentity) (transport : TransportType) (remote : Remote)
      (port : ℕ) (conn : PeerConnection)
      → (on_hello crypto stream identity transport remote port).1 ≡ ok conn
      → HasOwnId crypto conn
  unfolding on_hello
  on_hello_ok stream identity transport remote port conn h =
      elim (Bool-cases (remote.version != protocol_version)) [
        | inl e ↦ absurd (ground arith)
        | inr e ↦
            elim (Outcome-cases (check_identity crypto remote.public_key_hex remote.node_id)) [
              | inr (inl (x, f)) ↦ absurd (ground arith)
              | inr (inr f) ↦ absurd (ground arith)
              | inl (u, f) ↦ elim (Bool-cases stream.writes) [
                | inr w ↦ absurd (ground arith)
                | inl w ↦
                    made_ok remote
                      (record {
                        addr = record { ip = stream.peer_addr.ip; port = port };
                        transport_type = transport;
                      })
                      conn u f (ground arith)
              ]
            ]
      ]

  accept_ok :
      (from : SocketAddr) (writes : Bool) (next : Outcome NetworkError Message)
      (identity : DeviceIdentity) (transport : TransportType) (conn : PeerConnection)
      → (accept crypto
          (record { peer_addr = from; writes = writes; next = next })
          identity
          transport).1
        ≡ ok conn
      → HasOwnId crypto conn
  unfolding accept
  accept_ok from writes (err e) identity transport conn h = absurd (ground arith)
  accept_ok from writes panic identity transport conn h = absurd (ground arith)
  accept_ok from writes (ok (hello version node_id node_name platform key port)) identity transport
        conn h =
      on_hello_ok
        (record {
          peer_addr = from;
          writes = writes;
          next = ok (hello version node_id node_name platform key port);
        })
        identity transport
        (record {
          version = version;
          node_id = node_id;
          node_name = node_name;
          platform = platform;
          public_key_hex = key;
        })
        port conn h
  accept_ok from writes (ok msg) identity transport conn h = absurd (ground arith)

  -- `accept` only makes connections whose node id is that of the public key they claim.
  pub accept-HasOwnId :
      (stream : Stream) (identity : DeviceIdentity) (transport : TransportType)
      (conn : PeerConnection)
      → (accept crypto stream identity transport).1 ≡ ok conn
      → HasOwnId crypto conn
  accept-HasOwnId stream identity transport conn h =
      accept_ok stream.peer_addr stream.writes stream.next identity transport conn h

  -- The greeting of a node, as the other end reads it.
  abbrev pub greeting : DeviceIdentity → ℕ → Message
  greeting d port = hello protocol_version d.node_id d.node_name d.platform d.public_key_hex port

  -- The keys of a device are what its identity says.
  abbrev pub IsOwn : DeviceIdentity → Type 0
  IsOwn d =
      (bytes : List ℕ) × (vk : List ℕ) × (crypto.hex_decode d.public_key_hex ≡ some bytes)
      × (crypto.verifying_key bytes ≡ some vk)
      × (from_verifying_key crypto vk ≡ d.node_id)

  check_identity_own :
      (d : DeviceIdentity) → IsOwn d → check_identity crypto d.public_key_hex d.node_id ≡ ok tt
  unfolding check_identity
  check_identity_own d (bytes, vk, decoded, valid, own) =
      rw (decoded, valid, check_identity) (ground (arith, bytes_eq))

  abbrev speaker : DeviceIdentity → Remote
  speaker d = record {
    version = protocol_version;
    node_id = d.node_id;
    node_name = d.node_name;
    platform = d.platform;
    public_key_hex = d.public_key_hex;
  }

  -- The two ends of a handshake fit: if the greeting of `dial` reaches `accept` and its answer comes
  -- back, both ends have a connection, each under the node id and with the key of the other, and the
  -- accepting end has the address at which the other one listens.
  pub dial-accept :
      (a b : DeviceIdentity) (port : ℕ) (target : TransportAddress) (from : SocketAddr)
      (transport : TransportType)
      → IsOwn a
      → IsOwn b
      → (reply : Message) × (ca : PeerConnection) × (cb : PeerConnection) × (accept crypto
            (record { peer_addr = from; writes = true; next = ok (greeting a port) })
            b
            transport
          ≡ (reply ∷ [], ok cb))
        × (dial crypto target a port
              (ok (record { peer_addr = target.addr; writes = true; next = ok reply }))
            ≡ (greeting a port ∷ [], ok ca))
        × (ca.remote_node_id ≡ b.node_id)
        × (cb.remote_node_id ≡ a.node_id)
        × (ca.remote_pubkey_hex ≡ b.public_key_hex)
        × (cb.remote_pubkey_hex ≡ a.public_key_hex)
        × (ca.transport_address ≡ target)
        × (cb.transport_address
            ≡ record { addr = record { ip = from.ip; port = port }; transport_type = transport })
  unfolding accept on_hello dial conclude answer_of new_connection
  dial-accept a b port target from transport own_a own_b =
      let reply =
        hello_ack protocol_version b.node_id b.node_name b.platform b.public_key_hex true none in
      (
        reply,
        new_connection (speaker b) target,
        new_connection (speaker a)
            (record { addr = record { ip = from.ip; port = port }; transport_type = transport }),
        rw (check_identity_own a own_a, accept) (ground (arith, nat_eq)),
        rw (check_identity_own b own_b, dial) (ground (arith, nat_eq)),
        refl,
        refl,
        refl,
        refl,
        refl,
        refl,
      )
