-- ===== src/Network/Pairing.antt =====
-- Invitations of crates/tusher-network/src/pairing.rs. The random token is an argument.
use t_u_s_h_e_r.Base.{ℕ, Option, none, List, ◌++◌}
use t_u_s_h_e_r.Base.Text.{Text, ascii}
use t_u_s_h_e_r.Base.Assoc.{put}
use t_u_s_h_e_r.Core.Types.{NodeId}
use t_u_s_h_e_r.Core.Keys.{DeviceIdentity}

pub record PairingSession : Type 0 where
  pub ephemeral_token : Text
  pub target_peer_id : Option NodeId
  pub sas_pin : Option Text
  pub created_at : ℕ

-- `tusher://pair?id=...&pk=...&hint=...&token=...`
unfoldable pub pairing_uri : DeviceIdentity → Text → Text → Text
pairing_uri identity hint_addr token =
    ascii "tusher://pair?id="
    ++ identity.node_id
    ++ ascii "&pk="
    ++ identity.public_key_hex
    ++ ascii "&hint="
    ++ hint_addr
    ++ ascii "&token="
    ++ token

-- From the sessions before to those after, with the token and the link.
unfoldable pub create_pairing_invite :
    (List ℕ → Text)
    → List ℕ
    → ℕ
    → DeviceIdentity
    → Text
    → List (Text × PairingSession)
    → List (Text × PairingSession) × Text × Text
unfolding pairing_uri
create_pairing_invite hex_encode token_bytes now identity hint_addr sessions =
    let token = hex_encode token_bytes in
    let session : PairingSession = record {
      ephemeral_token = token;
      target_peer_id = none;
      sas_pin = none;
      created_at = now;
    } in
    (put token session sessions, token, pairing_uri identity hint_addr token)
