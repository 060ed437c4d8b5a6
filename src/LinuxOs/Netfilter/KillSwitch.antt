-- ===== src/LinuxOs/Netfilter/KillSwitch.antt =====
-- The kill switch of rustlib/src/bin/obscura/service/os/linux/netfilter.rs: which packets leave.
use obscuravpn_client.Prelude.{
  ℕ, ◌≡◌, refl, ap, ◌∙◌, Bool, true, false, not, ◌&&◌, ◌||◌, Option, none, some, List, [], ◌∷◌, map,
  any, length, ltb, if◌then◌else◌, unwrap_or, arith, Bool-cases, inl, inr,
}
use obscuravpn_client.NetworkConfig.{IpAddr, v4, v6, IpNetwork}
use obscuravpn_client.LocalNetwork.{IpNetworks, lan_v4, lan_v6}
use obscuravpn_client.LinuxOs.Routes.{fwmark}
use obscuravpn_client.LinuxOs.Netfilter.Bytes.{
  as_bytes, le_bytes, be_bytes, be_bytes_before, nul_terminated, same_bytes,
}
use obscuravpn_client.LinuxOs.Netfilter.{
  Expr, Chain, nf_accept, nf_drop, addr_rule, addr_match_exprs, optional_mask, optional_match,
  nd_rule, dhcp_rule, dns_rule, net_mask, lan_rule_v4, lan_rule_v6, icmp_error_rule, dns_port_rule,
}
use obscuravpn_client.LinuxOs.Netfilter.Chains.{
  first_rules, wireguard_rules, tailscale_rules, link_rules, dns_port_rules, lan_rules,
  kill_switch_chain,
}
use obscuravpn_client.LinuxOs.Netfilter.Nftables.{
  Packet, bytes_and, run_rule, or_else, first_verdict, chain_verdict, first_verdict-append,
}

-- A verdict when a test holds.
abbrev pub when : Bool → ℕ → Option ℕ
when true v = some v
when false v = none

both : {a b c d : Option ℕ} → a ≡ b → c ≡ d → or_else a c ≡ or_else b d
both {a} {b} {c} {d} e f = ap (λ o. or_else o c) e ∙ ap (or_else b) f

when_or : (a b : Bool) (v : ℕ) → or_else (when a v) (when b v) ≡ when (a || b) v
when_or true b v = refl
when_or false b v = refl

length-be_4 : (n : ℕ) → length (be_bytes 4 n) ≡ 4
unfolding be_bytes be_bytes_before
length-be_4 n = refl

length-be_16 : (n : ℕ) → length (be_bytes 16 n) ≡ 16
unfolding be_bytes be_bytes_before
length-be_16 n = refl

-- What a packet is, by what is loaded of it.
module _ (p : Packet) where
  abbrev pub goes_out : List ℕ → Bool
  goes_out device = same_bytes (p.meta 7) (nul_terminated device)

  abbrev pub came_in : List ℕ → Bool
  came_in device = same_bytes (p.meta 6) (nul_terminated device)

  abbrev pub is_marked : Bool
  is_marked = same_bytes (p.meta 3) (le_bytes 4 fwmark)

  abbrev pub is_reply : Bool
  is_reply = same_bytes p.ct_direction (1 ∷ [])

  abbrev pub has_protocol : ℕ → Bool
  has_protocol l4proto = same_bytes (p.meta 16) (l4proto ∷ [])

  abbrev pub is_icmp_error : ℕ → Bool
  is_icmp_error l4proto =
      same_bytes (p.meta 4) (le_bytes 4 0)
      && (has_protocol l4proto && same_bytes (bytes_and p.ct_state (le_bytes 4 4)) (le_bytes 4 4))

  abbrev pub is_v4 : Bool
  is_v4 = same_bytes (p.meta 15) (2 ∷ [])

  abbrev pub is_v6 : Bool
  is_v6 = same_bytes (p.meta 15) (10 ∷ [])

  -- The destination addresses of the two kinds of headers.
  abbrev pub destination_v4 : List ℕ
  destination_v4 = p.header_bytes 1 16 4

  abbrev pub destination_v6 : List ℕ
  destination_v6 = p.header_bytes 1 24 16

  abbrev pub goes_to : IpAddr → Bool
  goes_to (v4 ip) = is_v4 && same_bytes destination_v4 (be_bytes 4 ip)
  goes_to (v6 ip) = is_v6 && same_bytes destination_v6 (be_bytes 16 ip)

  abbrev pub source_port : ℕ → Bool
  source_port port = same_bytes (p.header_bytes 2 0 2) (be_bytes 2 port)

  abbrev pub destination_port : ℕ → Bool
  destination_port port = same_bytes (p.header_bytes 2 2 2) (be_bytes 2 port)

  -- The service's own traffic, the tunnel's, and ICMP errors.
  abbrev pub is_trusted : List ℕ → Bool
  is_trusted tun =
      goes_out (as_bytes "lo")
      || (is_marked
          || (goes_out tun || ((came_in tun && is_reply) || (is_icmp_error 1 || is_icmp_error 58))))

  abbrev pub is_wireguard : Bool
  is_wireguard = same_bytes (p.meta 27) (nul_terminated (as_bytes "wireguard"))

  abbrev pub is_tailscale : Bool
  is_tailscale =
      goes_out (as_bytes "tailscale0")
      || same_bytes (bytes_and (p.meta 3) (le_bytes 4 0xff0000)) (le_bytes 4 0x80000)

  abbrev pub is_discovery : ℕ → Bool
  is_discovery nd_type =
      is_v6 && (has_protocol 58 && same_bytes (p.header_bytes 2 0 1) (nd_type ∷ []))

  abbrev pub is_link : Bool
  is_link =
      (is_v4
        && (has_protocol 17
            && (same_bytes destination_v4 (be_bytes 4 0xffffffff)
                && (source_port 68 && destination_port 67))))
      || ((is_v6
            && (has_protocol 17
                && (same_bytes destination_v6 (be_bytes 16 0xff020000000000000000000000010002)
                    && (source_port 546 && destination_port 547))))
          || (is_discovery 133 || (is_discovery 135 || is_discovery 136)))

  abbrev pub is_dns : Bool
  is_dns =
      (has_protocol 17 && destination_port 53)
      || ((has_protocol 17 && destination_port 853)
          || ((has_protocol 6 && destination_port 53) || (has_protocol 6 && destination_port 853)))

  first_rules-when :
      (tun : List ℕ) → first_verdict p (first_rules tun) ≡ when (is_trusted tun) nf_accept
  unfolding first_verdict run_rule first_rules icmp_error_rule
  first_rules-when tun = ground arith

  tailscale_rules-when :
      (on : Bool) → first_verdict p (tailscale_rules on) ≡ when (on && is_tailscale) nf_accept
  unfolding first_verdict run_rule tailscale_rules
  tailscale_rules-when true = ground arith
  tailscale_rules-when false = refl

  wireguard_rules-when :
      (on : Bool) → first_verdict p (wireguard_rules on) ≡ when (on && is_wireguard) nf_accept
  unfolding first_verdict run_rule wireguard_rules
  wireguard_rules-when true = ground arith
  wireguard_rules-when false = refl

  link_rules-when : first_verdict p link_rules ≡ when is_link nf_accept
  unfolding first_verdict run_rule link_rules dhcp_rule nd_rule optional_match addr_match_exprs
      optional_mask
  link_rules-when =
      rw (length-be_4 0xffffffff, length-be_16 0xff020000000000000000000000010002) ground arith

  dns_port_rules-when :
      (system : Bool)
      → first_verdict p (dns_port_rules system) ≡ when (not system && is_dns) nf_drop
  unfolding first_verdict run_rule dns_port_rules dns_port_rule
  dns_port_rules-when true = refl
  dns_port_rules-when false = ground arith

  -- The local networks, by their masks.
  abbrev pub in_network_v4 : IpNetworks → IpNetwork → Bool
  in_network_v4 crate n =
      is_v4
      && same_bytes
          (if ltb n.prefix 32
            then bytes_and destination_v4 (be_bytes 4 (crate.mask n))
            else destination_v4)
          (be_bytes 4 (crate.network n))

  abbrev pub in_network_v6 : IpNetworks → IpNetwork → Bool
  in_network_v6 crate n =
      is_v6
      && same_bytes
          (if ltb n.prefix 128
            then bytes_and destination_v6 (be_bytes 16 (crate.mask n))
            else destination_v6)
          (be_bytes 16 (crate.network n))

  lan_rule_v4-when :
      (crate : IpNetworks) (n : IpNetwork)
      → run_rule p [] (lan_rule_v4 crate 16 n) ≡ when (in_network_v4 crate n) nf_accept
  unfolding run_rule lan_rule_v4 addr_rule addr_match_exprs optional_mask net_mask
  lan_rule_v4-when crate n = elim (Bool-cases (ltb n.prefix 32)) [
    | inl e ↦ rw (length-be_4 (crate.network n), e) ground arith
    | inr e ↦ rw (length-be_4 (crate.network n), e) ground arith
  ]

  lan_rule_v6-when :
      (crate : IpNetworks) (n : IpNetwork)
      → run_rule p [] (lan_rule_v6 crate 24 n) ≡ when (in_network_v6 crate n) nf_accept
  unfolding run_rule lan_rule_v6 addr_rule addr_match_exprs optional_mask net_mask
  lan_rule_v6-when crate n = elim (Bool-cases (ltb n.prefix 128)) [
    | inl e ↦ rw (length-be_16 (crate.network n), e) ground arith
    | inr e ↦ rw (length-be_16 (crate.network n), e) ground arith
  ]

  dns_rule-when : (ip : IpAddr) → run_rule p [] (dns_rule ip) ≡ when (goes_to ip) nf_drop
  unfolding run_rule dns_rule addr_rule addr_match_exprs optional_mask
  dns_rule-when (v4 ip) = rw (length-be_4 ip) ground arith
  dns_rule-when (v6 ip) = rw (length-be_16 ip) ground arith

  -- A list of rules of a kind decides when one of their tests holds.
  map-when :
      {A : Type 0} (rule : A → List Expr) (test : A → Bool) (v : ℕ) (xs : List A)
      → ((x : A) → run_rule p [] (rule x) ≡ when (test x) v)
      → first_verdict p (map rule xs) ≡ when (any test xs) v
  unfolding first_verdict
  map-when rule test v [] h = refl
  map-when rule test v (x ∷ xs) h =
      ap (λ o. or_else o (first_verdict p (map rule xs))) (h x)
      ∙ ap (or_else (when (test x) v)) (map-when rule test v xs h)
      ∙ when_or (test x) (any test xs) v

  abbrev pub is_local : IpNetworks → IpNetworks → Bool
  is_local crate4 crate6 = any (in_network_v4 crate4) lan_v4 || any (in_network_v6 crate6) lan_v6

  lan_rules-when :
      (crate4 crate6 : IpNetworks) (on : Bool)
      → first_verdict p (lan_rules crate4 crate6 on) ≡ when (on && is_local crate4 crate6) nf_accept
  unfolding lan_rules first_verdict
  lan_rules-when crate4 crate6 true =
      first_verdict-append p (map (lan_rule_v4 crate4 16) lan_v4)
        (map (lan_rule_v6 crate6 24) lan_v6)
      ∙ ap (λ o. or_else o (first_verdict p (map (lan_rule_v6 crate6 24) lan_v6)))
          (map-when (lan_rule_v4 crate4 16) (in_network_v4 crate4) nf_accept lan_v4
            (lan_rule_v4-when crate4))
      ∙ ap (or_else (when (any (in_network_v4 crate4) lan_v4) nf_accept)) (
          map-when (lan_rule_v6 crate6 24) (in_network_v6 crate6) nf_accept lan_v6
            (lan_rule_v6-when crate6))
      ∙ when_or _ _ nf_accept
  lan_rules-when crate4 crate6 false = refl

  -- All segments of the chain, in their order.
  decides :
      (trusted resolver wireguard tailscale link dns local : Bool)
      → unwrap_or
          (or_else (when trusted nf_accept) (
            or_else (when resolver nf_drop) (
              or_else (when wireguard nf_accept) (
                or_else (when tailscale nf_accept) (
                  or_else
                    (when link nf_accept)
                    (or_else (when dns nf_drop) (when local nf_accept)))))))
          nf_drop
        ≡ (if trusted
              || (not resolver && (wireguard || (tailscale || (link || (not dns && local)))))
            then nf_accept
            else nf_drop)
  decides trusted resolver wireguard tailscale link dns local = ground arith

-- The kernel reads the kill switch chain as nft(8) says. Then a packet leaves exactly if it stays on
-- the loopback device, carries the service's mark, enters the tunnel device, answers traffic that
-- came out of it, or is an ICMP error of this host; or if it is not for a resolver of the tunnel,
-- and is WireGuard or Tailscale traffic that may bypass the tunnel, link-scope DHCP or neighbor
-- discovery, or is for the local network with access allowed, and not DNS unless the system's is used.
pub kill_switch_chain-verdict :
    (verdict : Chain → Packet → ℕ)
    → ((c : Chain) (p : Packet) → verdict c p ≡ chain_verdict c p)
    → (crate4 crate6 : IpNetworks) (local tailscale wireguard : Bool) (dns : List IpAddr)
      (system : Bool) (tun : List ℕ) (p : Packet)
    → verdict (kill_switch_chain crate4 crate6 local tailscale wireguard dns system tun) p ≡ (
        if is_trusted p tun
          || (not (any (goes_to p) dns)
              && ((wireguard && is_wireguard p)
                  || ((tailscale && is_tailscale p)
                      || (is_link p
                          || (not (not system && is_dns p)
                              && (local && is_local p crate4 crate6))))))
        then nf_accept
        else nf_drop)
unfolding kill_switch_chain chain_verdict
kill_switch_chain-verdict verdict reads crate4 crate6 local tailscale wireguard dns system tun p =
    reads _ p
    ∙ ap (λ o. unwrap_or o nf_drop)
        (first_verdict-append p (first_rules tun) _
          ∙ both (first_rules-when p tun) (
              first_verdict-append p (map dns_rule dns) _
              ∙ both (map-when p dns_rule (goes_to p) nf_drop dns (dns_rule-when p)) (
                  first_verdict-append p (wireguard_rules wireguard) _
                  ∙ both (wireguard_rules-when p wireguard) (
                      first_verdict-append p (tailscale_rules tailscale) _
                      ∙ both (tailscale_rules-when p tailscale) (
                          first_verdict-append p link_rules _
                          ∙ both (link_rules-when p) (
                              first_verdict-append p (dns_port_rules system) _
                              ∙ both (dns_port_rules-when p system)
                                  (lan_rules-when p crate4 crate6 local)))))))
    ∙ decides p (is_trusted p tun) (any (goes_to p) dns) (wireguard && is_wireguard p)
        (tailscale && is_tailscale p) (is_link p) (not system && is_dns p)
        (local && is_local p crate4 crate6)
