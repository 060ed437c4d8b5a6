-- ===== src/Manager.antt =====
-- rustlib/src/manager.rs: the status that is published, and logging in. The answers of the API server and
-- the fresh version numbers are arguments; so are the keys and the transport of a connection.
mod Publish
mod Registration
mod Tests
use obscuravpn_client.Prelude.{
  ℕ, zero, suc, ◌+◌, String, Bool, true, false, Option, none, some, List, [], ◌∷◌, ◌++◌,
  if◌then◌else◌, is_some, unwrap_or, ◌≡◌, ◌↔◌,
}
use obscuravpn_client.ExitSelection.{ExitSelector, OneExit, OneRelay}
use obscuravpn_client.NetworkConfig.{DnsContentBlock, Result, ok, err}
use obscuravpn_client.Errors.{ConnectErrorCode, connect_error_code}
use obscuravpn_client.Errors
use obscuravpn_client.Tunnel
use obscuravpn_client.Tunnel.{
  TunnelArgs, TunnelState, disconnected, connecting, connected, ConnectingState, ConnectedState,
  ErrorAt,
}
use obscuravpn_client.Config.{
  FeatureFlags, PinnedLocation, AccountStatus, Access, enabled, disabled, DnsConfig,
}
use obscuravpn_client.Client.{ClientState, base_url, is_enabled, is_system}

pub data VpnStatus : Type 0 where
  vpn_connecting : TunnelArgs → Option ConnectErrorCode → Bool → VpnStatus
  vpn_connected : TunnelArgs → OneExit → OneRelay → ℕ → ℕ → ℕ → VpnStatus
  vpn_disconnected : VpnStatus

-- What is asked of a connection, and the error of a failed connection attempt.
pub record Connections : Type 0 where
  pub client_public_key : ℕ → ℕ
  pub exit_public_key : ℕ → ℕ
  pub transport : ℕ → ℕ
  pub attempt_error : ℕ → Errors.TunnelConnectError

pub record Status : Type 0 where
  pub version : ℕ
  pub vpn_status : VpnStatus
  pub account_id : Option String
  pub in_new_account_flow : Bool
  pub pinned_locations : List PinnedLocation
  pub last_chosen_exit : ExitSelector
  pub last_exit : ExitSelector
  pub api_url : String
  pub account : Option AccountStatus
  pub auto_connect : Bool
  pub feature_flags : FeatureFlags
  pub use_system_dns : Bool
  pub local_network_access : Bool
  pub tailscale_bypass : Bool
  pub wireguard_bypass : Bool
  pub dns_content_block : DnsContentBlock

-- The error that the tunnel state keeps.
pub kept_error : Connections → Tunnel.TunnelConnectError → Errors.TunnelConnectError
kept_error conns Tunnel.set_os_network_config = Errors.set_os_network_config
kept_error conns Tunnel.no_internet = Errors.tunnel_no_internet
kept_error conns (Tunnel.connect_failed attempt) = conns.attempt_error attempt

pub error_code : Connections → Option (ErrorAt Tunnel.TunnelConnectError) → Option ConnectErrorCode
error_code conns none = none
error_code conns (some error_at) = some (connect_error_code (kept_error conns error_at.error))

-- `VpnStatus::from_tunnel_state`.
pub from_tunnel_state : Connections → TunnelState → VpnStatus
from_tunnel_state conns disconnected = vpn_disconnected
from_tunnel_state conns (connecting c) =
    vpn_connecting c.args (error_code conns c.connect_error) (is_some c.disconnect_reason)
from_tunnel_state conns (connected c) =
    vpn_connected c.args c.tunnel.exit c.tunnel.relay (conns.client_public_key c.tunnel.conn)
      (conns.exit_public_key c.tunnel.conn) (conns.transport c.tunnel.conn)

-- `Status::new`, without the constant list of the flags' names.
pub new_status : ℕ → VpnStatus → ClientState → Status
new_status version vpn_status client =
    let c = client.config.config in
    record {
      version = version;
      vpn_status = vpn_status;
      account_id = c.account_id;
      in_new_account_flow = c.in_new_account_flow;
      pinned_locations = c.pinned_locations;
      last_chosen_exit = c.last_chosen_exit_selector;
      last_exit = c.last_exit_selector;
      api_url = base_url client;
      account = c.cached_account_status;
      auto_connect = c.auto_connect;
      feature_flags = c.feature_flags;
      use_system_dns = is_system c.dns;
      local_network_access = is_enabled c.local_network_access;
      tailscale_bypass = is_enabled c.tailscale_bypass;
      wireguard_bypass = is_enabled c.wireguard_bypass;
      dns_content_block = c.dns_content_block;
    }

-- The update of `propagate_updates_to_status_task`, with the derived comparison of two statuses and
-- a fresh version: the status, and whether those who watch it are told.
pub update_status :
    Connections → (Status → Status → Bool) → ℕ → TunnelState → ClientState → Status → Status × Bool
update_status conns status_eq fresh tunnel client status =
    let vpn_status = from_tunnel_state conns tunnel in
    if status_eq (new_status status.version vpn_status client) status
    then (status, false)
    else (new_status fresh vpn_status client, true)

-- What an attempt to acquire a token comes to.
pub data Acquired : Type 0 where
  acquire_failed : ℕ → Acquired
  url_override : String → Acquired
  token : String → Acquired

pub data LoginError : Type 0 where
  login_api_error : ℕ → LoginError
  exceeded_url_overrides : LoginError
  config_dirty : LoginError

-- What logging in does to the client.
pub data LoginStep : Type 0 where
  set_api_url : String → LoginStep
  set_account_id : String → Option String → LoginStep

pub max_attempts : ℕ
max_attempts = 10

pub after_override :
    String → List LoginStep × Result LoginError String → List LoginStep × Result LoginError String
after_override url (steps, result) = (set_api_url url ∷ steps, result)

pub after_acquire :
    Acquired → List LoginStep × Result LoginError String → List LoginStep × Result LoginError String
after_acquire (acquire_failed e) rest = ([], err (login_api_error e))
after_acquire (url_override url) rest = after_override url rest
after_acquire (token t) rest = ([], ok t)

-- The loop of `login` with so many attempts left, from a numbered attempt on.
pub acquire_token : (ℕ → Acquired) → ℕ → ℕ → List LoginStep × Result LoginError String
acquire_token acquire zero attempt = ([], err exceeded_url_overrides)
acquire_token acquire (suc left) attempt =
    after_acquire (acquire attempt) (acquire_token acquire left (suc attempt))

-- The account is set with the token; saving the configuration may fail.
pub with_token :
    String
    → Bool
    → List LoginStep × Result LoginError String
    → List LoginStep × Result LoginError Unit
with_token account saved (steps, err e) = (steps, err e)
with_token account saved (steps, ok t) =
    (steps ++ (set_account_id account (some t) ∷ []), if saved then ok tt else err config_dirty)

-- `acquire account attempt` is what the server answers to a client made for the account, at an attempt
-- counted from 0.
pub login : (String → ℕ → Acquired) → Bool → String → Bool → List LoginStep × Result LoginError Unit
login acquire saved account false =
    (set_account_id account none ∷ [], if saved then ok tt else err config_dirty)
login acquire saved account true =
    with_token account saved (acquire_token (acquire account) max_attempts 0)
