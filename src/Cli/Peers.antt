-- ===== src/Cli/Peers.antt =====
-- The commands of crates/tusher-cli/src/main.rs that name a peer.
use t_u_s_h_e_r.Base.{◌≡◌, refl, ap, ◌∙◌, ◌≢◌, true, some, List, [], ◌∷◌, find?, arith, bytes_eq}
use t_u_s_h_e_r.Base.Text.{Text}
use t_u_s_h_e_r.Core.Keys.{to_lowercase}
use t_u_s_h_e_r.Network.Manager.{is_trusted}
use t_u_s_h_e_r.Network.Manager.Status.{PeerStatusInfo, get_peer_statuses}
use t_u_s_h_e_r.Mesh.Trust.{is_trusted-set_trusted}
use t_u_s_h_e_r.Cli.{CliNode, print, is_target, find_target, pair_command}

named_is_target :
    (id_str : Text) (p : PeerStatusInfo)
    → to_lowercase p.node_name ≡ to_lowercase id_str
    → is_target id_str p ≡ true
named_is_target id_str p e = ground (arith, e)

-- `pair` trusts the first peer that fits, and a name is enough: if the first peer in the list calls
-- itself by the id of another node that was typed, in any case, it is trusted, and the trust of the
-- node that has this id stays as it was.
pub pair_command_named :
    (id_str : Text) (p : PeerStatusInfo) (peers : List PeerStatusInfo) (s : CliNode)
    → get_peer_statuses s.node.manager ≡ p ∷ peers
    → to_lowercase p.node_name ≡ to_lowercase id_str
    → p.node_id ≢ id_str
    → let m' = (pair_command (id_str ∷ []) s).0.node.manager in
      (is_trusted p.node_id m' ≡ true) × (is_trusted id_str m' ≡ is_trusted id_str s.node.manager)
unfolding pair_command find_target print
pair_command_named id_str p peers s listed named other =
    let fits = named_is_target id_str p named in
    let found : find_target id_str s.node.manager ≡ some p =
      ap (find? (is_target id_str)) listed ∙ first fits in
    rw (found, pair_command)
      (
        is_trusted-set_trusted p.node_id p.node_id s.node.manager ∙ ground arith,
        is_trusted-set_trusted p.node_id id_str s.node.manager ∙ ground (arith, other),
      )
  where
    first : is_target id_str p ≡ true → find? (is_target id_str) (p ∷ peers) ≡ some p
    first e = rw e refl
