-- ===== src/Tests/Network.antt =====
-- Connections of crates/tusher-network between two devices, and the PIN of their pairing.
use t_u_s_h_e_r.Base.{
  ℕ, ◌+◌, ◌*◌, ◌≤◌, ◌≡◌, refl, ◌⊎◌, true, Option, none, some, List, [], ◌∷◌, All, find?, replicate,
  bytes_eq, nat_eq, if◌then◌else◌, Outcome, ok, err,
}
use t_u_s_h_e_r.Base.Int.{pos}
use t_u_s_h_e_r.Base.Text.{ascii}
use t_u_s_h_e_r.Base.Assoc.{get, put, delete}
use t_u_s_h_e_r.Core.Types.{linux, windows, lan, tailscale, transport_type_eq}
use t_u_s_h_e_r.Core.Protocol.{Message, ping, manifest_resp, folder_list_req}
use t_u_s_h_e_r.Core.Keys.{
  Crypto, DeviceIdentity, from_verifying_key, sas_number, calculate_sas_pin,
}
use t_u_s_h_e_r.Core.Keys.Pin.{calculate_sas_pin_comm}
use t_u_s_h_e_r.Network.Transport.{
  SocketAddr, v4, TransportAddress, transport_address_eq, new_candidate, is_tailscale_ip,
}
use t_u_s_h_e_r.Network.Connection.{
  NetworkError, unreachable, Stream, PeerConnection, new_connection, dial, accept, run_reader,
}
use t_u_s_h_e_r.Network.Connection.Identity.{greeting, dial-accept}
use t_u_s_h_e_r.Network.Connection.Queues.{Queued, decoded, run_reader-Queued}
use t_u_s_h_e_r.Network.Manager.{
  ConnectionManager, new_manager, candidates_of, migrate, attempt_connect_best_candidate,
}
use t_u_s_h_e_r.Network.Manager.Valid.{IsValid}
use t_u_s_h_e_r.Network.Manager.Managed.{discovered, begin, next, on_network_event, Managed-IsValid}
use t_u_s_h_e_r.Network.Manager.Choice.{Connected, is_reachable, attempt_connect_best_candidate_lem}

-- Stand-ins: keys, hashes and encodings are the bytes themselves.
abbrev pub plain_crypto : Crypto
plain_crypto = record {
  hex_decode = λ t. some t;
  verifying_key = λ bytes. some bytes;
  sha256 = λ bytes. bytes;
  base32_nopad = λ bytes. bytes;
  hmac_sha256 = λ key msg. replicate 32 7;
  hmac_len = λ key msg. refl;
}

unfoldable pub alice : DeviceIdentity
unfolding from_verifying_key
alice = record {
  node_id = from_verifying_key plain_crypto (ascii "abc");
  node_name = ascii "alice";
  platform = linux;
  public_key_hex = ascii "abc";
}

bob : DeviceIdentity
unfolding from_verifying_key
bob = record {
  node_id = from_verifying_key plain_crypto (ascii "xyz");
  node_name = ascii "bob";
  platform = windows;
  public_key_hex = ascii "xyz";
}

abbrev pub lan_address : TransportAddress
lan_address = record { addr = record { ip = v4 192 168 1 2; port = 42424 }; transport_type = lan }

abbrev tailscale_address : TransportAddress
tailscale_address = record {
  addr = record { ip = v4 100 64 0 2; port = 42424 };
  transport_type = tailscale;
}

abbrev alice_addr : SocketAddr
alice_addr = record { ip = v4 192 168 1 9; port = 50000 }

dial-accept_example :
    (reply : Message) × (ca : PeerConnection) × (cb : PeerConnection) × (accept plain_crypto
        (record {
          peer_addr = alice_addr;
          writes = true;
          next = ok (greeting plain_crypto alice 42424);
        })
        bob
        lan
      ≡ (reply ∷ [], ok cb))
    × (dial plain_crypto lan_address alice 42424
          (ok (record { peer_addr = lan_address.addr; writes = true; next = ok reply }))
        ≡ (greeting plain_crypto alice 42424 ∷ [], ok ca))
    × (ca.remote_node_id ≡ bob.node_id)
    × (cb.remote_node_id ≡ alice.node_id)
    × (ca.remote_pubkey_hex ≡ bob.public_key_hex)
    × (cb.remote_pubkey_hex ≡ alice.public_key_hex)
    × (ca.transport_address ≡ lan_address)
    × (cb.transport_address
        ≡ record { addr = record { ip = v4 192 168 1 9; port = 42424 }; transport_type = lan })
unfolding alice bob
dial-accept_example =
    dial-accept plain_crypto alice bob 42424 lan_address alice_addr lan
      (ascii "abc", ascii "abc", refl, refl, refl) (ascii "xyz", ascii "xyz", refl, refl, refl)

bob_connection : PeerConnection
unfolding new_connection bob
bob_connection =
    new_connection
      (record {
        version = 1;
        node_id = bob.node_id;
        node_name = bob.node_name;
        platform = bob.platform;
        public_key_hex = bob.public_key_hex;
      })
      lan_address

-- A ping, a manifest, a request, and what follows a frame that cannot be decoded.
abbrev frames : List (Option Message)
frames =
    some (ping 7 (pos 1))
    ∷ some (manifest_resp (ascii "notes") [] 4)
    ∷ some folder_list_req
    ∷ none
    ∷ some (ping 8 (pos 2))
    ∷ []

run_reader-Queued_example :
    Queued (decoded frames) bob_connection (run_reader frames bob_connection)
run_reader-Queued_example = run_reader-Queued frames bob_connection

calculate_sas_pin_comm_example :
    (calculate_sas_pin plain_crypto (ascii "token") (1 ∷ []) (2 ∷ [])
      ≡ calculate_sas_pin plain_crypto (ascii "token") (2 ∷ []) (1 ∷ []))
    × ((d1 d2 d3 d4 d5 d6 : ℕ) × All (λ d. d ≤ 9) (d1 ∷ d2 ∷ d3 ∷ d4 ∷ d5 ∷ d6 ∷ [])
        × (calculate_sas_pin plain_crypto (ascii "token") (1 ∷ []) (2 ∷ [])
            ≡ (48 + d1) ∷ (48 + d2) ∷ (48 + d3) ∷ 32 ∷ (48 + d4) ∷ (48 + d5) ∷ (48 + d6) ∷ [])
        × (d1 * 100000 + d2 * 10000 + d3 * 1000 + d4 * 100 + d5 * 10 + d6
            ≡ sas_number plain_crypto (ascii "token") (1 ∷ []) (2 ∷ [])))
calculate_sas_pin_comm_example =
    calculate_sas_pin_comm plain_crypto (ascii "token") (1 ∷ []) (2 ∷ [])

-- Bob answers over Tailscale only.
streams : SocketAddr → Outcome NetworkError Stream
unfolding bob
streams addr =
    if is_tailscale_ip addr.ip
    then ok
        (record { peer_addr = addr; writes = true; next = ok (greeting plain_crypto bob 42424) })
    else err unreachable

two_ways : ConnectionManager
unfolding alice new_manager new_candidate
two_ways = record (new_manager alice 42424 42425) {
  candidates =
      (ascii "remote", new_candidate lan_address ∷ new_candidate tailscale_address ∷ []) ∷ [];
}

attempt_connect_best_candidate_lem_example :
    (attempt_connect_best_candidate plain_crypto streams (ascii "remote") two_ways ≡ two_ways)
      × (((conn : PeerConnection) × (get (ascii "remote") two_ways.active_connections ≡ some conn))
          ⊎ (find?
                (is_reachable plain_crypto streams two_ways)
                (candidates_of (ascii "remote") two_ways)
              ≡ none))
    ⊎ ((get (ascii "remote") two_ways.active_connections ≡ none)
        × Connected plain_crypto streams
            (ascii "remote")
            (candidates_of (ascii "remote") two_ways)
            two_ways
            (attempt_connect_best_candidate plain_crypto streams (ascii "remote") two_ways))
attempt_connect_best_candidate_lem_example =
    attempt_connect_best_candidate_lem plain_crypto streams (ascii "remote") two_ways

Managed-IsValid_example : IsValid plain_crypto (
    on_network_event plain_crypto streams
      (discovered (record {
        node_id = ascii "tshr_bob";
        node_name = ascii "bob";
        platform = windows;
        public_key_hex = ascii "xyz";
        endpoint = tailscale_address;
      }))
      (new_manager alice 42424 42425))
Managed-IsValid_example = Managed-IsValid plain_crypto (
    next streams
      (discovered (record {
        node_id = ascii "tshr_bob";
        node_name = ascii "bob";
        platform = windows;
        public_key_hex = ascii "xyz";
        endpoint = tailscale_address;
      }))
      (begin alice 42424 42425))

-- A migrated candidate goes behind the one that is known, though LAN comes before Tailscale.
migrate_test :
    candidates_of (ascii "bob") (
      migrate
        (ascii "remote")
        (ascii "bob")
        (new_candidate lan_address)
        (record two_ways { candidates = (ascii "bob", new_candidate tailscale_address ∷ []) ∷ [] }))
    ≡ new_candidate tailscale_address ∷ new_candidate lan_address ∷ []
unfolding migrate two_ways alice new_manager new_candidate get put delete bytes_eq
    transport_address_eq
migrate_test = refl
