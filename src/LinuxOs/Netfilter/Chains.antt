-- ===== src/LinuxOs/Netfilter/Chains.antt =====
-- rustlib/src/bin/obscura/service/os/linux/netfilter.rs: the chains, made of the rules.
use obscuravpn_client.Prelude.{
  pos, negsuc, ℕ, ◌*◌, ◌^◌, Bool, not, ◌||◌, none, some, List, [], ◌∷◌, ◌++◌, map, retain, leb,
  ◌&&◌, ◌==◌, if◌then◌else◌,
}
use obscuravpn_client.NetworkConfig.{IpAddr}
use obscuravpn_client.LocalNetwork.{IpNetworks, lan_v4, lan_v6}
use obscuravpn_client.LinuxOs.{TrafficPolicy, engage, disengage}
use obscuravpn_client.LinuxOs.Routes.{fwmark}
use obscuravpn_client.LinuxOs.Netfilter.Bytes.{as_bytes, le_bytes, be_bytes, nul_terminated}
use obscuravpn_client.LinuxOs.Netfilter.{
  Expr, meta_load, meta_set_mark, cmp_eq, ct_load_mark, ct_load_direction, ct_set_mark, accept,
  drop, payload, bitwise_mask, filter, route, Chain, Table, nf_drop, nf_accept, meta_mark,
  meta_iifname, meta_oifname, meta_iifkind, meta_oifkind, network_header, af_inet, af_inet6,
  ip_ct_dir_reply, ipproto_icmp, ipproto_tcp, ipproto_udp, ipproto_icmpv6, tailscale_fwmark_mask,
  tailscale_bypass_mark, ipv4_saddr_offset, ipv4_daddr_offset, ipv6_saddr_offset, ipv6_daddr_offset,
  nd_rule, dhcp_rule, addr_rule, link_local_v6_source, dns_rule, lan_rule_v4, lan_rule_v6,
  icmp_error_rule, dns_port_rule,
}

unfoldable pub first_rules : List ℕ → List (List Expr)
first_rules tun_name =
    (meta_load meta_oifname ∷ cmp_eq (nul_terminated (as_bytes "lo")) ∷ accept ∷ [])
    ∷ (meta_load meta_mark ∷ cmp_eq (le_bytes 4 fwmark) ∷ accept ∷ [])
    ∷ (meta_load meta_oifname ∷ cmp_eq (nul_terminated tun_name) ∷ accept ∷ [])
    ∷ (meta_load meta_iifname
        ∷ cmp_eq (nul_terminated tun_name)
        ∷ ct_load_direction
        ∷ cmp_eq (ip_ct_dir_reply ∷ [])
        ∷ accept
        ∷ [])
    ∷ icmp_error_rule ipproto_icmp
    ∷ icmp_error_rule ipproto_icmpv6
    ∷ []

unfoldable pub wireguard_rules : Bool → List (List Expr)
wireguard_rules wireguard_bypass =
    if wireguard_bypass
    then (meta_load meta_oifkind ∷ cmp_eq (nul_terminated (as_bytes "wireguard")) ∷ accept ∷ [])
      ∷ []
    else []

unfoldable pub tailscale_rules : Bool → List (List Expr)
tailscale_rules tailscale_bypass =
    if tailscale_bypass
    then (meta_load meta_oifname ∷ cmp_eq (nul_terminated (as_bytes "tailscale0")) ∷ accept ∷ [])
      ∷ (meta_load meta_mark
          ∷ bitwise_mask (le_bytes 4 tailscale_fwmark_mask)
          ∷ cmp_eq (le_bytes 4 tailscale_bypass_mark)
          ∷ accept
          ∷ [])
      ∷ []
    else []

-- Link scope DHCP and neighbor discovery.
unfoldable pub link_rules : List (List Expr)
link_rules =
    dhcp_rule af_inet
      (some (record { offset = ipv4_daddr_offset; network = be_bytes 4 0xffffffff; mask = none }))
      68 67
    ∷ dhcp_rule af_inet6
        (some (record {
          offset = ipv6_daddr_offset;
          network = be_bytes 16 0xff020000000000000000000000010002;
          mask = none;
        }))
        546 547
    ∷ nd_rule 133 none
    ∷ nd_rule 135 none
    ∷ nd_rule 136 none
    ∷ []

unfoldable pub dns_port_rules : Bool → List (List Expr)
dns_port_rules use_system_dns =
    if use_system_dns
    then []
    else dns_port_rule ipproto_udp 53
      ∷ dns_port_rule ipproto_udp 853
      ∷ dns_port_rule ipproto_tcp 53
      ∷ dns_port_rule ipproto_tcp 853
      ∷ []

unfoldable pub lan_rules : IpNetworks → IpNetworks → Bool → List (List Expr)
lan_rules crate4 crate6 local_network_access =
    if local_network_access
    then map (lan_rule_v4 crate4 ipv4_daddr_offset) lan_v4
      ++ map (lan_rule_v6 crate6 ipv6_daddr_offset) lan_v6
    else []

-- The operations of the crate for each family come first.
unfoldable pub kill_switch_chain :
    IpNetworks → IpNetworks → Bool → Bool → Bool → List IpAddr → Bool → List ℕ → Chain
kill_switch_chain crate4 crate6 local_network_access tailscale_bypass wireguard_bypass dns
      use_system_dns tun_name =
    record {
      name = as_bytes "kill-switch";
      kind = filter;
      hook = 4;
      priority = pos 0;
      policy = nf_drop;
      rules =
          first_rules tun_name
          ++ (map dns_rule dns
              ++ (wireguard_rules wireguard_bypass
                  ++ (tailscale_rules tailscale_bypass
                      ++ (link_rules
                          ++ (dns_port_rules use_system_dns
                              ++ lan_rules crate4 crate6 local_network_access)))));
    }

-- `is_multicast` and `is_broadcast` of the standard library.
unfoldable pub is_multicast_v4 : ℕ → Bool
is_multicast_v4 ip = leb 0xe0000000 ip && leb ip 0xefffffff

unfoldable pub is_broadcast_v4 : ℕ → Bool
is_broadcast_v4 ip = ip == 0xffffffff

unfoldable pub is_multicast_v6 : ℕ → Bool
is_multicast_v6 ip = leb (0xff00 * 2 ^ 112) ip

unfoldable pub input_lan_rules : IpNetworks → IpNetworks → Bool → List (List Expr)
input_lan_rules crate4 crate6 local_network_access =
    if local_network_access
    then map (lan_rule_v4 crate4 ipv4_saddr_offset) (
        retain (λ n. not (is_multicast_v4 (crate4.network n) || is_broadcast_v4 (crate4.network n)))
          lan_v4)
      ++ map (lan_rule_v6 crate6 ipv6_saddr_offset)
          (retain (λ n. not (is_multicast_v6 (crate6.network n))) lan_v6)
    else []

unfoldable pub input_first_rules : IpNetworks → List (List Expr)
input_first_rules crate6 =
    (meta_load meta_iifname ∷ cmp_eq (nul_terminated (as_bytes "lo")) ∷ accept ∷ [])
    ∷ (meta_load meta_mark ∷ cmp_eq (le_bytes 4 fwmark) ∷ ct_set_mark ∷ accept ∷ [])
    ∷ (ct_load_direction ∷ cmp_eq (ip_ct_dir_reply ∷ []) ∷ accept ∷ [])
    ∷ dhcp_rule af_inet none 67 68
    ∷ dhcp_rule af_inet6 (some (link_local_v6_source crate6)) 547 546
    ∷ nd_rule 134 (some (link_local_v6_source crate6))
    ∷ nd_rule 137 (some (link_local_v6_source crate6))
    ∷ nd_rule 135 none
    ∷ nd_rule 136 none
    ∷ []

unfoldable pub input_wireguard_rules : Bool → List (List Expr)
input_wireguard_rules wireguard_bypass =
    if wireguard_bypass
    then (meta_load meta_iifkind ∷ cmp_eq (nul_terminated (as_bytes "wireguard")) ∷ accept ∷ [])
      ∷ []
    else []

unfoldable pub input_tailscale_rules : Bool → List (List Expr)
input_tailscale_rules tailscale_bypass =
    if tailscale_bypass
    then (meta_load meta_iifname ∷ cmp_eq (nul_terminated (as_bytes "tailscale0")) ∷ accept ∷ [])
      ∷ []
    else []

unfoldable pub input_chain : IpNetworks → IpNetworks → Bool → Bool → Bool → Chain
input_chain crate4 crate6 local_network_access tailscale_bypass wireguard_bypass = record {
  name = as_bytes "input";
  kind = filter;
  hook = 1;
  priority = pos 0;
  policy = nf_drop;
  rules =
      input_first_rules crate6
      ++ (input_wireguard_rules wireguard_bypass
          ++ (input_tailscale_rules tailscale_bypass
              ++ input_lan_rules crate4 crate6 local_network_access));
}

unfoldable pub tunnel_ingress_chain : List ℕ → ℕ → ℕ → Chain
tunnel_ingress_chain tun_name tunnel_ipv4 tunnel_ipv6 = record {
  name = as_bytes "tunnel-ingress";
  kind = filter;
  hook = 0;
  priority = negsuc 198;
  policy = nf_accept;
  rules =
      (meta_load meta_iifname ∷ cmp_eq (nul_terminated (as_bytes "lo")) ∷ accept ∷ [])
      ∷ (meta_load meta_iifname
          ∷ cmp_eq (nul_terminated tun_name)
          ∷ ct_load_direction
          ∷ cmp_eq (ip_ct_dir_reply ∷ [])
          ∷ accept
          ∷ [])
      ∷ (meta_load meta_iifname ∷ cmp_eq (nul_terminated tun_name) ∷ drop ∷ [])
      ∷ addr_rule af_inet ipv4_daddr_offset (be_bytes 4 tunnel_ipv4) none drop
      ∷ addr_rule af_inet6 ipv6_daddr_offset (be_bytes 16 tunnel_ipv6) none drop
      ∷ [];
}

unfoldable pub arp_input_chain : ℕ → Chain
arp_input_chain tunnel_ipv4 = record {
  name = as_bytes "arp-input";
  kind = filter;
  hook = 0;
  priority = pos 0;
  policy = nf_accept;
  rules =
      (payload network_header 6 2
        ∷ cmp_eq (be_bytes 2 1)
        ∷ payload network_header 24 4
        ∷ cmp_eq (be_bytes 4 tunnel_ipv4)
        ∷ drop
        ∷ [])
      ∷ [];
}

unfoldable pub mark_chains : List Chain
mark_chains =
    record {
      name = as_bytes "mark-save";
      kind = filter;
      hook = 4;
      priority = negsuc 149;
      policy = nf_accept;
      rules = (meta_load meta_mark ∷ cmp_eq (le_bytes 4 fwmark) ∷ ct_set_mark ∷ []) ∷ [];
    }
    ∷ record {
      name = as_bytes "mark-restore";
      kind = filter;
      hook = 0;
      priority = negsuc 149;
      policy = nf_accept;
      rules = (ct_load_mark ∷ cmp_eq (le_bytes 4 fwmark) ∷ meta_set_mark ∷ []) ∷ [];
    }
    ∷ record {
      name = as_bytes "mark-restore-output";
      kind = route;
      hook = 3;
      priority = negsuc 149;
      policy = nf_accept;
      rules = (ct_load_mark ∷ cmp_eq (le_bytes 4 fwmark) ∷ meta_set_mark ∷ []) ∷ [];
    }
    ∷ []

unfoldable pub engaged_chains : IpNetworks → IpNetworks → TrafficPolicy → List ℕ → List Chain
engaged_chains crate4 crate6 disengage tun_name = []
engaged_chains crate4 crate6 (engage e) tun_name =
    tunnel_ingress_chain tun_name e.tunnel_ipv4 e.tunnel_ipv6
    ∷ input_chain crate4 crate6 e.local_network_access e.tailscale_bypass e.wireguard_bypass
    ∷ kill_switch_chain crate4 crate6 e.local_network_access e.tailscale_bypass e.wireguard_bypass
        e.dns e.use_system_dns tun_name
    ∷ []

unfoldable pub engaged_arp_chains : TrafficPolicy → List Chain
engaged_arp_chains disengage = []
engaged_arp_chains (engage e) = arp_input_chain e.tunnel_ipv4 ∷ []

-- The families are NFPROTO_INET and NFPROTO_ARP.
unfoldable pub tables : IpNetworks → IpNetworks → TrafficPolicy → List ℕ → List Table
tables crate4 crate6 policy tun_name =
    record { family = 1; chains = mark_chains ++ engaged_chains crate4 crate6 policy tun_name }
    ∷ record { family = 3; chains = engaged_arp_chains policy }
    ∷ []
