-- ===== src/Client/Life.antt =====
-- rustlib/src/client_state.rs: the operations of the client that run to their end, as data, and a
-- life of the client as a list of them. Connection attempts are not among them.
use obscuravpn_client.Prelude.{ℕ, String, Bool, Option, List, [], ◌∷◌}
use obscuravpn_client.KeyCache.{Crypto}
use obscuravpn_client.ExitSelection.{OneExit, OneRelay}
use obscuravpn_client.NetworkConfig.{DnsContentBlock}
use obscuravpn_client.Tunnel.{NetworkInterface, TunnelArgs}
use obscuravpn_client.Config.{Config, PinnedLocation}
use obscuravpn_client.Config.File.{SaveAnswers}
use obscuravpn_client.Client.{
  ApiClient, ClientState, set_account_id, set_pinned_exits, set_feature_flag,
  set_tunnel_target_state, set_api_host_alternate, set_sni_relay, set_in_new_account_flow,
  set_api_url, set_dns_content_block, set_auto_connect, set_use_system_dns,
  set_local_network_access, set_tailscale_bypass, set_wireguard_bypass, update_account_info,
  update_dns_cache, set_network_interface,
}
use obscuravpn_client.Client.Requests.{
  ApiError, Ran, Update, api_request, register_cached_wireguard_key_if_new,
  rotate_wireguard_key_if_required, rotate_wg_key, maybe_update_exits, maybe_update_relays,
}

pub data Op : Type 0 where
  set_account : SaveAnswers → Option (String × Option String) → Op
  set_pinned : SaveAnswers → List PinnedLocation → Op
  set_flag : SaveAnswers → String → Bool → Op
  set_target : SaveAnswers → Option TunnelArgs → Option Bool → Op
  set_host : SaveAnswers → Option String → Op
  set_sni : SaveAnswers → Option String → Op
  set_flow : SaveAnswers → Bool → Op
  set_url : Crypto → ℕ → SaveAnswers → Option String → Op
  set_block : SaveAnswers → DnsContentBlock → Op
  set_interface : (NetworkInterface → Option ℕ) → Option NetworkInterface → Op
  set_auto set_system_dns set_lan set_tailscale set_wireguard : SaveAnswers → Bool → Op
  update_account : SaveAnswers → ℕ → String → Op
  update_dns : SaveAnswers → String → List ℕ → Op
  request : SaveAnswers → Option ApiError → (ApiClient → Ran Unit) → Op
  register :
      Crypto
      → ℕ
      → ℕ
      → ℕ
      → (ℕ → SaveAnswers)
      → Option ApiError
      → (ℕ × List ℕ → ApiClient → Ran Unit)
      → Op
  rotate_if_required : Crypto → ℕ → ℕ → SaveAnswers → Op
  rotate : Crypto → ℕ → SaveAnswers → Op
  update_exits : Update (List OneExit) → ℕ → Op
  update_relays : Update (List OneRelay) → ℕ → Op

unfoldable pub apply : (Config → Config → Bool) → Op → ClientState → ClientState
apply eq (set_account a account) s = (set_account_id eq a account s).0
apply eq (set_pinned a locations) s = set_pinned_exits eq a locations s
apply eq (set_flag a flag active) s = set_feature_flag eq a flag active s
apply eq (set_target a args active) s = set_tunnel_target_state eq a args active s
apply eq (set_host a value) s = set_api_host_alternate eq a value s
apply eq (set_sni a value) s = set_sni_relay eq a value s
apply eq (set_flow a value) s = set_in_new_account_flow eq a value s
apply eq (set_url crypto fresh a url) s = set_api_url eq crypto fresh a url s
apply eq (set_block a value) s = set_dns_content_block eq a value s
apply eq (set_interface mtu interface) s = set_network_interface mtu interface s
apply eq (set_auto a enable) s = set_auto_connect eq a enable s
apply eq (set_system_dns a enable) s = set_use_system_dns eq a enable s
apply eq (set_lan a enable) s = set_local_network_access eq a enable s
apply eq (set_tailscale a enable) s = set_tailscale_bypass eq a enable s
apply eq (set_wireguard a enable) s = set_wireguard_bypass eq a enable s
apply eq (update_account a now info) s = update_account_info eq a now info s
apply eq (update_dns a name addrs) s = update_dns_cache eq a name addrs s
apply eq (request a made send) s = (api_request eq a made send s).0
apply eq (register crypto fresh fresh' now a made send) s =
    (register_cached_wireguard_key_if_new eq crypto fresh fresh' now a made send s).0
apply eq (rotate_if_required crypto fresh now a) s =
    rotate_wireguard_key_if_required eq crypto fresh now a s
apply eq (rotate crypto fresh a) s = rotate_wg_key eq crypto fresh a s
apply eq (update_exits u freshness) s = (maybe_update_exits eq u freshness s).0
apply eq (update_relays u freshness) s = (maybe_update_relays eq u freshness s).0

unfoldable pub run : (Config → Config → Bool) → List Op → ClientState → ClientState
run eq [] s = s
run eq (op ∷ ops) s = run eq ops (apply eq op s)
