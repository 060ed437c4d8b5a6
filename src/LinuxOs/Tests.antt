-- ===== src/LinuxOs/Tests.antt =====
-- The Linux service at concrete inputs.
use obscuravpn_client.Prelude.{
  ℕ, ◌≡◌, refl, ◌⊎◌, Bool, true, false, ◌&&◌, none, some, [], ◌∷◌, Among,
}
use obscuravpn_client.NetworkConfig.{v4, IpNetwork, OsNetworkConfig, ok, err}
use obscuravpn_client.LinuxOs.{
  Answers, LinuxOs, resolved, engage, engagement, send_policy, apply_ruleset, tun_set_config,
  set_os_network_config, choose_dns_manager, arg_auto,
}
use obscuravpn_client.LinuxOs.Leaks.{
  Usable, set_os_network_config-tries, set_os_network_config-without_dns,
}

abbrev config : OsNetworkConfig
config = record {
  dns = v4 0x0a400001 ∷ [];
  ipv4 = 0x0a400c22;
  ipv6 = record { ip = 0xfc00; prefix = 128 };
  mtu = 1280;
  use_system_dns = false;
  local_network_access = false;
  tailscale_bypass = false;
  wireguard_bypass = false;
}

abbrev network : IpNetwork → ℕ
network n = n.ip

-- Only the route enforcer fails; whether resolved runs is the argument.
abbrev answers : Bool → Answers
answers has_resolved = record {
  routing_sends = false;
  has_network_manager = false;
  has_resolved = has_resolved;
  network_manager_sets_dns = true;
  network_manager_resets_dns = true;
  resolved_sets_dns = true;
  resolved_resets_dns = true;
  applies_ruleset = true;
  tun_sets_config = true;
}

abbrev os : LinuxOs
os = record { dns_manager_arg = arg_auto; current_network_config = ok none }

chosen : choose_dns_manager false true arg_auto ≡ ok resolved
unfolding choose_dns_manager
chosen = refl

set_os_network_config-tries_example :
    let out = set_os_network_config network (answers true) config os in
    Among (apply_ruleset (engage (engagement network config))) out.steps
    × (Among (tun_set_config config.mtu config.ipv4 config.ipv6) out.steps
        × (((out.result ≡ ok tt)
              × (out.os.current_network_config ≡ ok (some config))
              × ((false && (true && true)) ≡ true))
            ⊎ ((out.result ≡ err tt) × (out.os.current_network_config ≡ err tt))))
set_os_network_config-tries_example =
    set_os_network_config-tries network (answers true) config os resolved chosen

set_os_network_config-without_dns_example :
    let out = set_os_network_config network (answers false) config os in
    (Usable (answers false) os.dns_manager_arg
      × Among (apply_ruleset (engage (engagement network config))) out.steps
      × Among (tun_set_config config.mtu config.ipv4 config.ipv6) out.steps)
    ⊎ ((¬ Usable (answers false) os.dns_manager_arg)
        × (out.steps ≡ send_policy (engage (engagement network config)) ∷ [])
        × (out.result ≡ err tt)
        × (out.os.current_network_config ≡ os.current_network_config))
set_os_network_config-without_dns_example =
    set_os_network_config-without_dns network (answers false) config os
