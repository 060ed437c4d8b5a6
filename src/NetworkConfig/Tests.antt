-- ===== src/NetworkConfig/Tests.antt =====
-- Network settings at concrete inputs.
use obscuravpn_client.Prelude.{◌≡◌, refl, true, false, [], ◌∷◌}
use obscuravpn_client.NetworkConfig.{
  v4, ObfuscatedTunnelConfig, TunnelNetworkConfig, ok, DnsContentBlock, OsSettings,
  new_tunnel_network_config,
}

abbrev no_ads : DnsContentBlock
no_ads = record {
  ad = true;
  tracker = false;
  malware = true;
  adult = false;
  gambling = false;
  social_media = false;
}

abbrev settings : OsSettings
settings = record {
  dns_content_block = no_ads;
  use_system_dns = false;
  local_network_access = true;
  tailscale_bypass = false;
  wireguard_bypass = false;
}

abbrev answer : ObfuscatedTunnelConfig
answer = record {
  dns = v4 10 ∷ [];
  client_ips_v4 = record { ip = 11; prefix = 32 } ∷ [];
  client_ips_v6 = record { ip = 12; prefix = 128 } ∷ [];
  exit_pubkey = 13;
  gateway_ip_v4 = 14;
}

abbrev complete : TunnelNetworkConfig
complete = record {
  dns = v4 10 ∷ [];
  ipv4 = 11;
  ipv6 = record { ip = 12; prefix = 128 };
  mtu = 1280;
}

answer_accepted : new_tunnel_network_config answer 1280 ≡ ok complete
unfolding new_tunnel_network_config
answer_accepted = refl
