-- ===== src/LinuxOs/Netfilter.antt =====
-- rustlib/src/bin/obscura/service/os/linux/netfilter.rs: the chains of nftables rules that the service
-- maintains. The constants of libc are those of the kernel's headers; the names of the tunnel device
-- and the crate `ipnetwork` are arguments.
pub mod Bytes
pub mod Chains
pub mod Nftables
pub mod Messages
pub mod Socket
mod Attributes
mod Encoding
mod Acks
mod Tests
mod KillSwitch
use obscuravpn_client.Prelude.{
  ℤ, ℕ, ◌+◌, ◌*◌, ◌^◌, Bool, true, false, not, ◌||◌, Option, none, some, List, [], ◌∷◌, ◌++◌, map,
  length, retain, ltb, leb, ◌&&◌, ◌==◌, if◌then◌else◌,
}
use obscuravpn_client.NetworkConfig.{IpAddr, v4, v6, IpNetwork}
use obscuravpn_client.LocalNetwork.{IpNetworks, net, lan_v4, lan_v6}
use obscuravpn_client.LinuxOs.{TrafficPolicy, Engagement, engage, disengage}
use obscuravpn_client.LinuxOs.Routes.{fwmark}
use obscuravpn_client.LinuxOs.Netfilter.Bytes.{
  as_bytes, le_bytes, be_bytes, nul_terminated, same_bytes,
}

abbrev pub nf_drop : ℕ
nf_drop = 0

abbrev pub nf_accept : ℕ
nf_accept = 1

abbrev pub meta_mark : ℕ
meta_mark = 3

abbrev pub meta_iif : ℕ
meta_iif = 4

abbrev pub meta_iifname : ℕ
meta_iifname = 6

abbrev pub meta_oifname : ℕ
meta_oifname = 7

abbrev pub meta_nfproto : ℕ
meta_nfproto = 15

abbrev pub meta_l4proto : ℕ
meta_l4proto = 16

abbrev pub meta_iifkind : ℕ
meta_iifkind = 26

abbrev pub meta_oifkind : ℕ
meta_oifkind = 27

abbrev pub network_header : ℕ
network_header = 1

abbrev pub transport_header : ℕ
transport_header = 2

abbrev pub af_inet : ℕ
af_inet = 2

abbrev pub af_inet6 : ℕ
af_inet6 = 10

abbrev pub ip_ct_dir_reply : ℕ
ip_ct_dir_reply = 1

abbrev pub related_bit : ℕ
related_bit = 4

abbrev pub ipproto_icmp : ℕ
ipproto_icmp = 1

abbrev pub ipproto_tcp : ℕ
ipproto_tcp = 6

abbrev pub ipproto_udp : ℕ
ipproto_udp = 17

abbrev pub ipproto_icmpv6 : ℕ
ipproto_icmpv6 = 58

abbrev pub tailscale_fwmark_mask : ℕ
tailscale_fwmark_mask = 0xff0000

abbrev pub tailscale_bypass_mark : ℕ
tailscale_bypass_mark = 0x80000

abbrev pub ipv4_saddr_offset : ℕ
ipv4_saddr_offset = 12

abbrev pub ipv4_daddr_offset : ℕ
ipv4_daddr_offset = 16

abbrev pub ipv6_saddr_offset : ℕ
ipv6_saddr_offset = 8

abbrev pub ipv6_daddr_offset : ℕ
ipv6_daddr_offset = 24

pub data Expr : Type 0 where
  meta_load : ℕ → Expr
  meta_set_mark : Expr
  cmp_eq : List ℕ → Expr
  ct_load_mark ct_load_direction ct_load_state ct_set_mark : Expr
  accept drop : Expr
  payload : ℕ → ℕ → ℕ → Expr
  bitwise_mask : List ℕ → Expr

pub data ChainKind : Type 0 where
  filter route : ChainKind

-- A priority is an `i32`.
pub record Chain : Type 0 where
  pub name : List ℕ
  pub kind : ChainKind
  pub hook : ℕ
  pub priority : ℤ
  pub policy : ℕ
  pub rules : List (List Expr)

pub record Table : Type 0 where
  pub family : ℕ
  pub chains : List Chain

pub record AddrMatch : Type 0 where
  pub offset : ℕ
  pub network : List ℕ
  pub mask : Option (List ℕ)

unfoldable pub optional_mask : Option (List ℕ) → List Expr
optional_mask none = []
optional_mask (some mask) = bitwise_mask mask ∷ []

unfoldable pub addr_match_exprs : AddrMatch → List Expr
addr_match_exprs m =
    (payload network_header m.offset (length m.network) ∷ [])
    ++ (optional_mask m.mask ++ (cmp_eq m.network ∷ []))

unfoldable pub optional_match : Option AddrMatch → List Expr
optional_match none = []
optional_match (some m) = addr_match_exprs m

unfoldable pub nd_rule : ℕ → Option AddrMatch → List Expr
nd_rule nd_type source =
    (meta_load meta_nfproto ∷ cmp_eq (af_inet6 ∷ []) ∷ [])
    ++ (optional_match source
        ++ (meta_load meta_l4proto
            ∷ cmp_eq (ipproto_icmpv6 ∷ [])
            ∷ payload transport_header 0 1
            ∷ cmp_eq (nd_type ∷ [])
            ∷ accept
            ∷ []))

unfoldable pub dhcp_rule : ℕ → Option AddrMatch → ℕ → ℕ → List Expr
dhcp_rule nfproto addr sport dport =
    (meta_load meta_nfproto
      ∷ cmp_eq (nfproto ∷ [])
      ∷ meta_load meta_l4proto
      ∷ cmp_eq (ipproto_udp ∷ [])
      ∷ [])
    ++ (optional_match addr
        ++ (payload transport_header 0 2
            ∷ cmp_eq (be_bytes 2 sport)
            ∷ payload transport_header 2 2
            ∷ cmp_eq (be_bytes 2 dport)
            ∷ accept
            ∷ []))

unfoldable pub addr_rule : ℕ → ℕ → List ℕ → Option (List ℕ) → Expr → List Expr
addr_rule nfproto offset network mask verdict =
    (meta_load meta_nfproto ∷ cmp_eq (nfproto ∷ []) ∷ [])
    ++ (addr_match_exprs (record { offset = offset; network = network; mask = mask })
        ++ (verdict ∷ []))

abbrev pub link_local_v6 : IpNetwork
link_local_v6 = net (0xfe80 * 2 ^ 112) 10

unfoldable pub link_local_v6_source : IpNetworks → AddrMatch
link_local_v6_source crate6 = record {
  offset = ipv6_saddr_offset;
  network = be_bytes 16 (crate6.network link_local_v6);
  mask = some (be_bytes 16 (crate6.mask link_local_v6));
}

-- Each rule of a resolver drops what is sent to it.
unfoldable pub dns_rule : IpAddr → List Expr
dns_rule (v4 ip) = addr_rule af_inet ipv4_daddr_offset (be_bytes 4 ip) none drop
dns_rule (v6 ip) = addr_rule af_inet6 ipv6_daddr_offset (be_bytes 16 ip) none drop

unfoldable pub net_mask : IpNetworks → ℕ → ℕ → IpNetwork → Option (List ℕ)
net_mask crate bytes bits n =
    if ltb n.prefix bits then some (be_bytes bytes (crate.mask n)) else none

unfoldable pub lan_rule_v4 : IpNetworks → ℕ → IpNetwork → List Expr
lan_rule_v4 crate offset n =
    addr_rule af_inet offset (be_bytes 4 (crate.network n)) (net_mask crate 4 32 n) accept

unfoldable pub lan_rule_v6 : IpNetworks → ℕ → IpNetwork → List Expr
lan_rule_v6 crate offset n =
    addr_rule af_inet6 offset (be_bytes 16 (crate.network n)) (net_mask crate 16 128 n) accept

unfoldable pub icmp_error_rule : ℕ → List Expr
icmp_error_rule l4proto =
    meta_load meta_iif
    ∷ cmp_eq (le_bytes 4 0)
    ∷ meta_load meta_l4proto
    ∷ cmp_eq (l4proto ∷ [])
    ∷ ct_load_state
    ∷ bitwise_mask (le_bytes 4 related_bit)
    ∷ cmp_eq (le_bytes 4 related_bit)
    ∷ accept
    ∷ []

unfoldable pub dns_port_rule : ℕ → ℕ → List Expr
dns_port_rule l4proto port =
    meta_load meta_l4proto
    ∷ cmp_eq (l4proto ∷ [])
    ∷ payload transport_header 2 2
    ∷ cmp_eq (be_bytes 2 port)
    ∷ drop
    ∷ []
