-- ===== src/Core/Types.antt =====
-- crates/tusher-core/src/types.rs, and the identifiers of crates/tusher-core/src/identity.rs.
use t_u_s_h_e_r.Base.{Eq}
use t_u_s_h_e_r.Base.Text.{Text, ascii}

-- The newtype `NodeId(String)`.
abbrev pub NodeId : Type 0
NodeId = Text

-- `NodeId::from_str_unchecked`
abbrev pub from_str_unchecked : Text → NodeId
from_str_unchecked s = s

pub data TrustStatus : Type 0 where
  discovered pending_pair paired blocked : TrustStatus

pub data TransportType : Type 0 where
  lan tailscale manual : TransportType

pub data Platform : Type 0 where
  windows linux mac_os android unknown : Platform

TransportType-discrete : Discrete TransportType
TransportType-discrete = hlevel

instance unfoldable pub transport_type_eq : Eq TransportType
unfolding TransportType-discrete
transport_type_eq = record { dec = TransportType-discrete }

-- The texts of `Display`.
pub fmt_trust_status : TrustStatus → Text
fmt_trust_status discovered = ascii "discovered"
fmt_trust_status pending_pair = ascii "pending_pair"
fmt_trust_status paired = ascii "paired"
fmt_trust_status blocked = ascii "blocked"

pub fmt_transport_type : TransportType → Text
fmt_transport_type lan = ascii "LAN"
fmt_transport_type tailscale = ascii "Tailscale"
fmt_transport_type manual = ascii "Manual"

pub fmt_platform : Platform → Text
fmt_platform windows = ascii "windows"
fmt_platform linux = ascii "linux"
fmt_platform mac_os = ascii "macos"
fmt_platform android = ascii "android"
fmt_platform unknown = ascii "unknown"
