-- ===== src/Client/Cache/Run.antt =====
-- The cached API client of rustlib/src/client_state.rs through a life of the client.
use obscuravpn_client.Prelude.{
  ℕ, refl, inl, inr, Bool, Option, some, List, [], ◌∷◌, if◌then◌else◌, Bool-cases,
}
use obscuravpn_client.KeyCache.{
  rotate_if_required as keys_rotate_if_required, rotate_now, need_registration,
}
use obscuravpn_client.Tunnel.{NetworkInterface}
use obscuravpn_client.Config.{Config, set_flag as config_set_flag, default, system, set_addrs}
use obscuravpn_client.Client.{
  replaced, access_of, interface_same, ClientState, base_url, alternative_hosts, set_account_id,
  set_pinned_exits, set_feature_flag, set_tunnel_target_state, set_api_host_alternate,
  set_sni_relay, set_in_new_account_flow, set_api_url, set_dns_content_block, set_auto_connect,
  set_use_system_dns, set_local_network_access, set_tailscale_bypass, set_wireguard_bypass,
  update_account_info, update_dns_cache, set_network_interface,
}
use obscuravpn_client.Client.Requests.{
  change_keys, register_cached_wireguard_key_if_new, rotate_wireguard_key_if_required,
  rotate_wg_key, maybe_update_exits, maybe_update_relays,
}
use obscuravpn_client.Client.Life.{
  Op, apply, run, set_account, set_pinned, set_flag, set_target, set_host, set_sni, set_flow,
  set_url, set_block, set_interface, set_auto, set_system_dns, set_lan, set_tailscale,
  set_wireguard, update_account, update_dns, request, register, rotate_if_required, rotate,
  update_exits, update_relays,
}
use obscuravpn_client.Client.Cache.{
  IsCurrent, change_config-IsCurrent, change_keys-IsCurrent, api_request-IsCurrent,
  register_keys-IsCurrent, maybe_update-IsCurrent,
}

set_network_interface-IsCurrent :
    (mtu : NetworkInterface → Option ℕ) (interface : Option NetworkInterface) (s : ClientState)
    → IsCurrent s
    → IsCurrent (set_network_interface mtu interface s)
unfolding set_network_interface base_url alternative_hosts
set_network_interface-IsCurrent mtu interface s current =
    elim (Bool-cases (interface_same interface s.network_interface)) [
      | inl e ↦ rw e current
      | inr e ↦ rw e (inl refl)
    ]

apply-IsCurrent :
    (eq : Config → Config → Bool) (op : Op) (s : ClientState)
    → IsCurrent s
    → IsCurrent (apply eq op s)
unfolding apply set_account_id set_pinned_exits set_feature_flag set_tunnel_target_state
    set_api_host_alternate set_sni_relay set_in_new_account_flow set_api_url set_dns_content_block
    set_auto_connect set_use_system_dns set_local_network_access set_tailscale_bypass
    set_wireguard_bypass update_account_info update_dns_cache rotate_wireguard_key_if_required
    rotate_wg_key register_cached_wireguard_key_if_new maybe_update_exits maybe_update_relays
apply-IsCurrent eq (set_account a account) s h = inl refl
apply-IsCurrent eq (set_pinned a l) s h =
    change_config-IsCurrent eq a (λ c. record c { pinned_locations = l }) s (refl, refl, refl) h
apply-IsCurrent eq (set_flag a f v) s h =
    change_config-IsCurrent eq a
      (λ c. record c { feature_flags = config_set_flag f v c.feature_flags }) s (refl, refl, refl) h
apply-IsCurrent eq (set_target a args v) s h =
    change_config-IsCurrent eq a
      (λ c. record c {
        tunnel_args = replaced args c.tunnel_args;
        tunnel_active = replaced v c.tunnel_active;
      })
      s (refl, refl, refl) h
apply-IsCurrent eq (set_host a v) s h = inl refl
apply-IsCurrent eq (set_sni a v) s h =
    change_config-IsCurrent eq a (λ c. record c { sni_relay = v }) s (refl, refl, refl) h
apply-IsCurrent eq (set_flow a v) s h =
    change_config-IsCurrent eq a (λ c. record c { in_new_account_flow = v }) s (refl, refl, refl) h
apply-IsCurrent eq (set_url crypto fresh a url) s h = inl refl
apply-IsCurrent eq (set_block a v) s h =
    change_config-IsCurrent eq a (λ c. record c { dns_content_block = v }) s (refl, refl, refl) h
apply-IsCurrent eq (set_interface mtu i) s h = set_network_interface-IsCurrent mtu i s h
apply-IsCurrent eq (set_auto a v) s h =
    change_config-IsCurrent eq a (λ c. record c { auto_connect = v }) s (refl, refl, refl) h
apply-IsCurrent eq (set_system_dns a v) s h =
    change_config-IsCurrent eq a (λ c. record c { dns = if v then system else default }) s
      (refl, refl, refl) h
apply-IsCurrent eq (set_lan a v) s h =
    change_config-IsCurrent eq a (λ c. record c { local_network_access = access_of v }) s
      (refl, refl, refl) h
apply-IsCurrent eq (set_tailscale a v) s h =
    change_config-IsCurrent eq a (λ c. record c { tailscale_bypass = access_of v }) s
      (refl, refl, refl) h
apply-IsCurrent eq (set_wireguard a v) s h =
    change_config-IsCurrent eq a (λ c. record c { wireguard_bypass = access_of v }) s
      (refl, refl, refl) h
apply-IsCurrent eq (update_account a now info) s h =
    change_config-IsCurrent eq a
      (λ c. record c {
        cached_account_status = some (record { account_info = info; last_updated_sec = now });
      })
      s (refl, refl, refl) h
apply-IsCurrent eq (update_dns a name addrs) s h =
    change_config-IsCurrent eq a (λ c. record c { dns_cache = set_addrs name addrs c.dns_cache }) s
      (refl, refl, refl) h
apply-IsCurrent eq (request a made send) s h = api_request-IsCurrent eq a made send s h
apply-IsCurrent eq (register crypto fresh fresh' now a made send) s h =
    register_keys-IsCurrent eq crypto fresh' now a made send
      (change_keys eq (a 0) (need_registration crypto s.wg_key_store fresh) s)
      (change_keys-IsCurrent eq (a 0) (need_registration crypto s.wg_key_store fresh) s h)
apply-IsCurrent eq (rotate_if_required crypto fresh now a) s h =
    change_keys-IsCurrent eq a
      (λ k. (keys_rotate_if_required crypto s.wg_key_store fresh now k, tt)) s h
apply-IsCurrent eq (rotate crypto fresh a) s h =
    change_keys-IsCurrent eq a (λ k. (rotate_now crypto s.wg_key_store fresh k, tt)) s h
apply-IsCurrent eq (update_exits u freshness) s h =
    maybe_update-IsCurrent eq (λ list c. record c { cached_exits = some list })
      (λ list c. (refl, refl, refl)) u freshness s.config.config.cached_exits s h
apply-IsCurrent eq (update_relays u freshness) s h =
    maybe_update-IsCurrent eq (λ list c. record c { cached_relays = some list })
      (λ list c. (refl, refl, refl)) u freshness s.config.config.cached_relays s h

-- Whatever operations have run, each to its end, the cached API client is one for the account that
-- is logged in, the API's current URL and the current alternative host, if it was so before.
pub run-IsCurrent :
    (eq : Config → Config → Bool) (ops : List Op) (s : ClientState)
    → IsCurrent s
    → IsCurrent (run eq ops s)
unfolding run
run-IsCurrent eq [] s h = h
run-IsCurrent eq (op ∷ ops) s h = run-IsCurrent eq ops (apply eq op s) (apply-IsCurrent eq op s h)
