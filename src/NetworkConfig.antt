-- ===== src/NetworkConfig.antt =====
-- rustlib/src/network_config.rs: the network settings of a tunnel and those handed to the OS, as
-- compiled for Linux. An IP address is the number that it spells.
mod Dns
mod Tests
use Prim.Native.Nat.{bit_or}
use obscuravpn_client.Prelude.{
  ℕ, ◌+◌, ◌*◌, String, Bool, true, false, not, ◌&&◌, Option, none, some, List, [], ◌∷◌, ◌==◌,
  str_eq, if◌then◌else◌, head?,
}

pub data IpAddr : Type 0 where
  v4 : ℕ → IpAddr
  v6 : ℕ → IpAddr

-- `Ipv4Network`, `Ipv6Network`: an address with the length of its prefix.
pub record IpNetwork : Type 0 where
  pub ip : ℕ
  pub prefix : ℕ

-- The fields of `obscuravpn_api::types::ObfuscatedTunnelConfig` that are read.
pub record ObfuscatedTunnelConfig : Type 0 where
  pub dns : List IpAddr
  pub client_ips_v4 : List IpNetwork
  pub client_ips_v6 : List IpNetwork
  pub exit_pubkey : ℕ
  pub gateway_ip_v4 : ℕ

pub data NetworkConfigError : Type 0 where
  no_ipv4_ip no_ipv6_ip no_dns : NetworkConfigError

pub record TunnelNetworkConfig : Type 0 where
  pub dns : List IpAddr
  pub ipv4 : ℕ
  pub ipv6 : IpNetwork
  pub mtu : ℕ

pub data Result (E A : Type 0) : Type 0 where
  ok : A → Result E A
  err : E → Result E A

abbrev with_ipv6 :
    List IpAddr → ℕ → ℕ → Option IpNetwork → Result NetworkConfigError TunnelNetworkConfig
with_ipv6 dns mtu ipv4 none = err no_ipv6_ip
with_ipv6 dns mtu ipv4 (some ipv6) = ok (record { dns = dns; ipv4 = ipv4; ipv6 = ipv6; mtu = mtu })

abbrev with_ipv4 :
    List IpAddr
    → ℕ
    → Option IpNetwork
    → Option IpNetwork
    → Result NetworkConfigError TunnelNetworkConfig
with_ipv4 dns mtu none ipv6 = err no_ipv4_ip
with_ipv4 dns mtu (some net) ipv6 = with_ipv6 dns mtu net.ip ipv6

abbrev with_dns :
    List IpAddr
    → ℕ
    → Option IpNetwork
    → Option IpNetwork
    → Result NetworkConfigError TunnelNetworkConfig
with_dns [] mtu ipv4 ipv6 = err no_dns
with_dns (a ∷ as_) mtu ipv4 ipv6 = with_ipv4 (a ∷ as_) mtu ipv4 ipv6

-- `TunnelNetworkConfig::new`.
unfoldable pub new_tunnel_network_config :
    ObfuscatedTunnelConfig → ℕ → Result NetworkConfigError TunnelNetworkConfig
new_tunnel_network_config c mtu = with_dns c.dns mtu (head? c.client_ips_v4) (head? c.client_ips_v6)

-- a.b.c.d
abbrev pub ipv4_of : ℕ → ℕ → ℕ → ℕ → ℕ
ipv4_of a b c d = ((a * 256 + b) * 256 + c) * 256 + d

-- `TunnelNetworkConfig::dummy`; the address is fc00:bbbb:bbbb:bb01::c:4c4d.
abbrev pub dummy_tunnel_network_config : TunnelNetworkConfig
dummy_tunnel_network_config = record {
  dns = v4 (ipv4_of 10 64 0 99) ∷ [];
  ipv4 = ipv4_of 10 75 76 77;
  ipv6 = record { ip = 0xfc00bbbbbbbbbb0100000000000c4c4d; prefix = 128 };
  mtu = 1280;
}

pub record DnsContentBlock : Type 0 where
  pub ad : Bool
  pub tracker : Bool
  pub malware : Bool
  pub adult : Bool
  pub gambling : Bool
  pub social_media : Bool

abbrev bit : Bool → ℕ
bit true = 1
bit false = 0

pub bitset : DnsContentBlock → ℕ
bitset b =
    bit_or
      (bit_or
        (bit_or (bit_or (bit_or (bit b.ad) (bit b.tracker * 2)) (bit b.malware * 4))
          (bit b.adult * 8))
        (bit b.gambling * 16))
      (bit b.social_media * 32)

pub mullvad_dns_ip : DnsContentBlock → Option ℕ
mullvad_dns_ip b = if not (bitset b == 0) then some (ipv4_of 100 64 0 (bitset b)) else none

abbrev pub mullvad_exit_provider_name : String
mullvad_exit_provider_name = "Mullvad VPN"

pub record OsNetworkConfig : Type 0 where
  pub dns : List IpAddr
  pub ipv4 : ℕ
  pub ipv6 : IpNetwork
  pub mtu : ℕ
  pub use_system_dns : Bool
  pub local_network_access : Bool
  pub tailscale_bypass : Bool
  pub wireguard_bypass : Bool

-- The settings of the client that the OS configuration depends on.
pub record OsSettings : Type 0 where
  pub dns_content_block : DnsContentBlock
  pub use_system_dns : Bool
  pub local_network_access : Bool
  pub tailscale_bypass : Bool
  pub wireguard_bypass : Bool

abbrev dns_or : Option ℕ → List IpAddr → List IpAddr
dns_or none ds = ds
dns_or (some ip) ds = v4 ip ∷ []

-- `OsNetworkConfig::new`.
unfoldable pub new_os_network_config : TunnelNetworkConfig → String → OsSettings → OsNetworkConfig
new_os_network_config tunnel exit_provider_name s = record {
  dns =
      if str_eq exit_provider_name mullvad_exit_provider_name
      then dns_or (mullvad_dns_ip s.dns_content_block) tunnel.dns
      else tunnel.dns;
  ipv4 = tunnel.ipv4;
  ipv6 = tunnel.ipv6;
  mtu = tunnel.mtu;
  use_system_dns = s.use_system_dns;
  local_network_access = s.local_network_access;
  tailscale_bypass = s.tailscale_bypass;
  wireguard_bypass = s.wireguard_bypass;
}

-- `OsNetworkConfig::dummy`.
pub dummy_os_network_config : OsSettings → OsNetworkConfig
dummy_os_network_config s =
    new_os_network_config dummy_tunnel_network_config mullvad_exit_provider_name s
