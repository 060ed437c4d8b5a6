-- ===== src/Client.antt =====
-- rustlib/src/client_state.rs: the client's shared state, its setters, the API client that it
-- caches and its requests, as compiled for Linux. The API client of the crate obscuravpn_api is a
-- value with what it was made from; the answers of the file system, the network and the clock are
-- arguments. `ClientStateHandle::change` runs one operation at a time, so an operation that takes
-- the lock twice is two functions.
mod Requests
mod Life
mod Cache
mod Connect
mod Logout
mod Lists
mod Tests
use obscuravpn_client.Prelude.{
  ℕ, String, Bool, true, false, not, ◌&&◌, ◌||◌, Option, none, some, List, [], ◌∷◌, ◌++◌, str_eq,
  if◌then◌else◌, unwrap_or, then_some, leb, any,
}
use obscuravpn_client.KeyCache.{Crypto, WgKeyStore, rotate_now}
use obscuravpn_client.NetworkConfig.{DnsContentBlock, OsSettings}
use obscuravpn_client.Tunnel.{NetworkInterface, interface_eq, TunnelArgs, TargetState}
use obscuravpn_client.Config.{
  Config, default_config, DnsConfig, default, system, Access, enabled, disabled, PinnedLocation,
  AccountStatus, set_flag, set_addrs,
}
use obscuravpn_client.Config.File.{SaveAnswers}
use obscuravpn_client.Config.Handle.{ConfigHandle, change, check_persisted}

-- `obscuravpn_api::Client`, authenticated; its token is the one it was given when it was made.
pub record ApiClient : Type 0 where
  pub base_url : String
  pub alternative_hosts : List String
  pub user_agent : String
  pub account_id : String
  pub auth_token : Option String

pub record ClientState : Type 0 where
  pub cached_api_client : Option ApiClient
  pub config : ConfigHandle
  pub mtu : Option ℕ
  pub network_interface : Option NetworkInterface
  pub wg_key_store : WgKeyStore
  pub user_agent : String

-- rustlib/src/constants.rs
abbrev pub default_api_url : String
default_api_url = "https://v1.api.prod.obscura.net/api"

abbrev pub default_api_backup_domain : String
default_api_backup_domain = "crimsonlance.net"

pub base_url : ClientState → String
base_url s = unwrap_or s.config.config.api_url default_api_url

pub alternative_hosts : ClientState → List String
alternative_hosts s = unwrap_or s.config.config.api_host_alternate default_api_backup_domain ∷ []

-- `make_api_client` and the token that `api_client` sets.
pub make_api_client : String → ClientState → ApiClient
make_api_client account_id s = record {
  base_url = base_url s;
  alternative_hosts = alternative_hosts s;
  user_agent = s.user_agent;
  account_id = account_id;
  auth_token = s.config.config.cached_auth_token;
}

abbrev pub option_str_eq : Option String → Option String → Bool
option_str_eq none none = true
option_str_eq (some a) (some b) = str_eq a b
option_str_eq _ _ = false

abbrev pub remember_account : Option String → List String → List String
remember_account none old = old
remember_account (some a) old = if any (str_eq a) old then old else old ++ a ∷ []

-- The configuration of another account.
abbrev pub logged_in :
    Option String → Option String → Option String → Option String → List String → Bool → Config
logged_in account_id auth_token api_url old_account_id old_account_ids in_new_account_flow =
    record default_config {
      api_url = api_url;
      account_id = account_id;
      cached_auth_token = auth_token;
      old_account_ids = remember_account old_account_id old_account_ids;
      in_new_account_flow = in_new_account_flow;
    }

-- What logging in or out does to the configuration.
pub with_account : Option String → Option String → Config → Config
with_account account_id auth_token c =
    if not (option_str_eq account_id c.account_id)
    then logged_in account_id auth_token c.api_url c.account_id c.old_account_ids
        c.in_new_account_flow
    else record c { cached_auth_token = auth_token }

abbrev account_and_token : Option (String × Option String) → Option String × Option String
account_and_token none = (none, none)
account_and_token (some (account_id, auth_token)) = (some account_id, auth_token)

-- `u16::try_from` of an `i32`, which is given by its 32 bits.
abbrev pub mtu_of : Option ℕ → Option ℕ
mtu_of none = none
mtu_of (some mtu) = then_some (leb mtu 65535) mtu

abbrev pub interface_same : Option NetworkInterface → Option NetworkInterface → Bool
interface_same none none = true
interface_same (some a) (some b) = interface_eq a b
interface_same _ _ = false

abbrev pub replaced {ℓ} : {A : Type ℓ} → Option A → A → A
replaced none a = a
replaced (some a) b = a

abbrev pub access_of : Bool → Access
access_of enable = if enable then enabled else disabled

abbrev and_then {ℓ} : {A B : Type ℓ} → Option A → (A → Option B) → Option B
and_then none f = none
and_then (some a) f = f a

abbrev pub is_enabled : Access → Bool
is_enabled enabled = true
is_enabled disabled = false

abbrev pub is_system : DnsConfig → Bool
is_system default = false
is_system system = true

pub target_state : ClientState → TargetState
target_state s = record {
  tunnel_args = then_some s.config.config.tunnel_active s.config.config.tunnel_args;
  network_interface = s.network_interface;
  settings = record {
    dns_content_block = s.config.config.dns_content_block;
    use_system_dns = is_system s.config.config.dns;
    local_network_access = is_enabled s.config.config.local_network_access;
    tailscale_bypass = is_enabled s.config.config.tailscale_bypass;
    wireguard_bypass = is_enabled s.config.config.wireguard_bypass;
  };
}

module _ (rest_eq : Config → Config → Bool) where
  pub change_config : SaveAnswers → (Config → Config) → ClientState → ClientState
  change_config a f s = record s { config = (change rest_eq a (λ c. (f c, tt)) s.config).0 }

  abbrev cleared : ClientState → ClientState
  cleared s = record s { cached_api_client = none }

  -- With the result of `check_persisted`.
  pub set_account_id :
      SaveAnswers → Option (String × Option String) → ClientState → ClientState × Bool
  set_account_id a account s =
      let (account_id, auth_token) = account_and_token account in
      let s' = cleared (change_config a (with_account account_id auth_token) s) in
      (s', check_persisted s'.config)

  pub set_pinned_exits : SaveAnswers → List PinnedLocation → ClientState → ClientState
  set_pinned_exits a locations s =
      change_config a (λ c. record c { pinned_locations = locations }) s

  pub set_feature_flag : SaveAnswers → String → Bool → ClientState → ClientState
  set_feature_flag a flag active s =
      change_config a (λ c. record c { feature_flags = set_flag flag active c.feature_flags }) s

  pub set_tunnel_target_state :
      SaveAnswers → Option TunnelArgs → Option Bool → ClientState → ClientState
  set_tunnel_target_state a tunnel_args active s =
      change_config a
        (λ c. record c {
          tunnel_args = replaced tunnel_args c.tunnel_args;
          tunnel_active = replaced active c.tunnel_active;
        })
        s

  pub set_api_host_alternate : SaveAnswers → Option String → ClientState → ClientState
  set_api_host_alternate a value s =
      cleared (change_config a (λ c. record c { api_host_alternate = value }) s)

  pub set_sni_relay : SaveAnswers → Option String → ClientState → ClientState
  set_sni_relay a value s = change_config a (λ c. record c { sni_relay = value }) s

  pub set_in_new_account_flow : SaveAnswers → Bool → ClientState → ClientState
  set_in_new_account_flow a value s =
      change_config a (λ c. record c { in_new_account_flow = value }) s

  pub set_api_url : Crypto → ℕ → SaveAnswers → Option String → ClientState → ClientState
  set_api_url crypto fresh a url s = cleared (
      change_config a
        (λ c. record c {
          api_url = url;
          wireguard_key_cache = rotate_now crypto s.wg_key_store fresh c.wireguard_key_cache;
        })
        s)

  pub set_dns_content_block : SaveAnswers → DnsContentBlock → ClientState → ClientState
  set_dns_content_block a value s = change_config a (λ c. record c { dns_content_block = value }) s

  pub set_auto_connect : SaveAnswers → Bool → ClientState → ClientState
  set_auto_connect a enable s = change_config a (λ c. record c { auto_connect = enable }) s

  pub set_use_system_dns : SaveAnswers → Bool → ClientState → ClientState
  set_use_system_dns a enable s =
      change_config a (λ c. record c { dns = if enable then system else default }) s

  pub set_local_network_access : SaveAnswers → Bool → ClientState → ClientState
  set_local_network_access a enable s =
      change_config a (λ c. record c { local_network_access = access_of enable }) s

  pub set_tailscale_bypass : SaveAnswers → Bool → ClientState → ClientState
  set_tailscale_bypass a enable s =
      change_config a (λ c. record c { tailscale_bypass = access_of enable }) s

  pub set_wireguard_bypass : SaveAnswers → Bool → ClientState → ClientState
  set_wireguard_bypass a enable s =
      change_config a (λ c. record c { wireguard_bypass = access_of enable }) s

  pub update_account_info : SaveAnswers → ℕ → String → ClientState → ClientState
  update_account_info a now account_info s =
      change_config a
        (λ c. record c {
          cached_account_status =
              some (record { account_info = account_info; last_updated_sec = now });
        })
        s

  pub update_dns_cache : SaveAnswers → String → List ℕ → ClientState → ClientState
  update_dns_cache a name addrs s =
      change_config a (λ c. record c { dns_cache = set_addrs name addrs c.dns_cache }) s

-- `set_network_interface`, with what `interface_mtu` answers.
pub set_network_interface :
    (NetworkInterface → Option ℕ) → Option NetworkInterface → ClientState → ClientState
set_network_interface interface_mtu network_interface s =
    let s' : ClientState = record s { mtu = mtu_of (and_then network_interface interface_mtu) } in
    if interface_same network_interface s.network_interface
    then s'
    else record s' { network_interface = network_interface; cached_api_client = none }
