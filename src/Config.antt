-- ===== src/Config.antt =====
-- rustlib/src/config/persistence.rs, config/mod.rs, config/cached.rs, config/feature_flags.rs and
-- config/dns_cache.rs: the persistent configuration and its handle.
pub mod File
pub mod Handle
mod Tests
use obscuravpn_client.Prelude.{
  ℕ, String, Bool, true, false, not, ◌&&◌, ◌||◌, Option, none, some, List, [], ◌∷◌, ◌++◌, str_eq,
  if◌then◌else◌, Eq, text_keys, lookup, insert, unwrap_or, then_some, ◌==◌, ◌-◌,
}
use obscuravpn_client.ExitSelection.{ExitSelector, any_exit, exit, OneExit, OneRelay}
use obscuravpn_client.NetworkConfig.{DnsContentBlock}
use obscuravpn_client.Tunnel.{TunnelArgs}
use obscuravpn_client.KeyCache.{WireGuardKeyCache, default_cache, persisted}

-- `enum Version`: a UUID's bytes, or the server's ETag.
pub data Version : Type 0 where
  artificial : List ℕ → Version
  etag_version : List ℕ → Version

pub record ConfigCached (T : Type 0) : Type 0 where
  pub version : Version
  pub last_updated : ℕ
  pub value : T

abbrev etag_of : Version → Option (List ℕ)
etag_of (artificial uuid) = none
etag_of (etag_version items) = some items

abbrev revalidated_version : Option (List ℕ) → Version → Version
revalidated_version none v = v
revalidated_version (some e) v = etag_version e

abbrev bytes_of : Version → List ℕ
bytes_of (artificial uuid) = uuid
bytes_of (etag_version items) = items

module _ {T : Type 0} where
  -- `ConfigCached::etag`.
  pub etag : ConfigCached T → Option (List ℕ)
  etag c = etag_of c.version

  unfoldable pub revalidated : Option (List ℕ) → ℕ → ConfigCached T → ConfigCached T
  revalidated e now c = record {
    version = revalidated_version e c.version;
    last_updated = now;
    value = c.value;
  }

  -- 0 where the clock was set back.
  pub staleness : ℕ → ConfigCached T → ℕ
  staleness now c = now - c.last_updated

  pub version_bytes : ConfigCached T → List ℕ
  version_bytes c = bytes_of c.version

pub record FeatureFlags : Type 0 where
  pub quic_frame_padding : Option Bool
  pub kill_switch : Option Bool
  pub force_small_mtu : Option Bool
  pub tcp_tls_tunnel : Option Bool
  -- Flags that this version does not know, with their JSON text.
  pub other : List (String × String)

pub data FeatureFlagKey : Type 0 where
  quic_frame_padding_key kill_switch_key force_small_mtu_key tcp_tls_tunnel_key : FeatureFlagKey

-- `FeatureFlagKey::from_str`, in camel case.
pub key_from_str : String → Option FeatureFlagKey
key_from_str s =
    if str_eq s "quicFramePadding"
    then some quic_frame_padding_key
    else if str_eq s "killSwitch"
    then some kill_switch_key
    else if str_eq s "forceSmallMtu"
    then some force_small_mtu_key
    else if str_eq s "tcpTlsTunnel"
    then some tcp_tls_tunnel_key
    else none

abbrev change_flag : Option FeatureFlagKey → Option Bool → FeatureFlags → FeatureFlags
change_flag none v f = f
change_flag (some quic_frame_padding_key) v f = record f { quic_frame_padding = v }
change_flag (some kill_switch_key) v f = record f { kill_switch = v }
change_flag (some force_small_mtu_key) v f = record f { force_small_mtu = v }
change_flag (some tcp_tls_tunnel_key) v f = record f { tcp_tls_tunnel = v }

-- `FeatureFlags::set`.
pub set_flag : String → Bool → FeatureFlags → FeatureFlags
set_flag flag active f = change_flag (key_from_str flag) (then_some active true) f

-- An address of the cache by its number.
abbrev pub DnsCache : Type 0
DnsCache = List (String × List ℕ)

-- `DnsCache::get` and `DnsCache::set`.
pub get_addrs : String → DnsCache → List ℕ
get_addrs name c = unwrap_or (lookup text_keys name c) []

pub set_addrs : String → List ℕ → DnsCache → DnsCache
set_addrs name addrs c = insert text_keys name addrs c

pub data DnsConfig : Type 0 where
  default system : DnsConfig

-- `LocalNetworkAccess`, `TailscaleBypass` and `WireGuardBypass`.
pub data Access : Type 0 where
  enabled disabled : Access

pub record PinnedLocation : Type 0 where
  pub country_code : String
  pub city_code : String
  pub pinned_at : ℕ

-- `AccountStatus` of rustlib/src/client_state.rs; the account's data by its JSON text.
pub record AccountStatus : Type 0 where
  pub account_info : String
  pub last_updated_sec : ℕ

-- `PartialEq for AccountStatus`.
pub account_status_eq : AccountStatus → AccountStatus → Bool
account_status_eq a b = a.last_updated_sec == b.last_updated_sec

pub record Config : Type 0 where
  pub api_host_alternate : Option String
  pub api_url : Option String
  pub account_id : Option String
  pub auto_connect : Bool
  pub dns_content_block : DnsContentBlock
  pub dns_cache : DnsCache
  pub old_account_ids : List String
  pub feature_flags : FeatureFlags
  pub in_new_account_flow : Bool
  pub cached_auth_token : Option String
  pub cached_exits : Option (ConfigCached (List OneExit))
  pub cached_relays : Option (ConfigCached (List OneRelay))
  pub pinned_locations : List PinnedLocation
  pub last_chosen_exit : Option String
  pub last_chosen_exit_selector : ExitSelector
  pub last_exit_selector : ExitSelector
  pub tunnel_active : Bool
  pub tunnel_args : TunnelArgs
  pub sni_relay : Option String
  pub wireguard_key_cache : WireGuardKeyCache
  pub dns : DnsConfig
  pub local_network_access : Access
  pub tailscale_bypass : Access
  pub wireguard_bypass : Access
  pub cached_account_status : Option AccountStatus

-- rustlib/src/constants.rs: 66.42.95.12 for the API's domain.
abbrev pub dns_cache_seed : DnsCache
dns_cache_seed = ("v1.api.prod.obscura.net", 0x422a5f0c ∷ []) ∷ []

abbrev pub default_config : Config
default_config = record {
  api_host_alternate = none;
  api_url = none;
  account_id = none;
  auto_connect = false;
  dns_content_block = record {
    ad = false;
    tracker = false;
    malware = false;
    adult = false;
    gambling = false;
    social_media = false;
  };
  dns_cache = dns_cache_seed;
  old_account_ids = [];
  feature_flags = record {
    quic_frame_padding = none;
    kill_switch = none;
    force_small_mtu = none;
    tcp_tls_tunnel = none;
    other = [];
  };
  in_new_account_flow = false;
  cached_auth_token = none;
  cached_exits = none;
  cached_relays = none;
  pinned_locations = [];
  last_chosen_exit = none;
  last_chosen_exit_selector = any_exit;
  last_exit_selector = any_exit;
  tunnel_active = false;
  tunnel_args = record { exit = any_exit };
  sni_relay = none;
  wireguard_key_cache = default_cache;
  dns = default;
  local_network_access = enabled;
  tailscale_bypass = enabled;
  wireguard_bypass = enabled;
  cached_account_status = none;
}

abbrev migrated : Option String → ExitSelector → ExitSelector
migrated none s = s
migrated (some id) any_exit = exit id
migrated (some id) s = s

-- `Config::migrate`.
pub migrate : Config → Config
migrate c = record c {
  last_chosen_exit_selector = migrated c.last_chosen_exit c.last_chosen_exit_selector;
}
