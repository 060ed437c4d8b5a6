-- ===== src/Client/Connect.antt =====
-- rustlib/src/client_state.rs, `connect` and `new_tunnel`: from a relay to a connection. What the
-- race of the relays, the background update of the exits, the server and the handshake answer is
-- an `Attempt`.
pub mod Selectors
use obscuravpn_client.Prelude.{
  ℕ, Bool, Option, none, some, String, List, not, str_eq, if◌then◌else◌,
}
use obscuravpn_client.KeyCache.{Crypto, use_key_pair, rotate_now}
use obscuravpn_client.ExitSelection.{
  ExitSelector, any_exit, OneExit, OneRelay, ExitSelectionState, select_next_exit,
}
use obscuravpn_client.NetworkConfig.{
  Result, ok, err, ObfuscatedTunnelConfig, NetworkConfigError, TunnelNetworkConfig,
  new_tunnel_network_config,
}
use obscuravpn_client.Tunnel.{selector_eq}
use obscuravpn_client.Config.{Config, ConfigCached}
use obscuravpn_client.Config.File.{SaveAnswers}
use obscuravpn_client.Client.{ApiClient, ClientState, change_config}
use obscuravpn_client.Client.Requests.{
  ApiError, wg_key_rotation_required, Ran, api_request, change_keys, keys_only,
}

-- Errors of a connection attempt; those of the race and of the handshake by a code.
pub data ConnectError : Type 0 where
  api_error : ApiError → ConnectError
  network_config : NetworkConfigError → ConnectError
  relay_selection tunnel_connect : ℕ → ConnectError
  no_exit unexpected_relay unexpected_tunnel_kind : ConnectError

-- The answer to `CreateTunnel`; its configuration is none if it is not an obfuscated one.
pub record TunnelInfo : Type 0 where
  pub relay : OneRelay
  pub exit : OneExit
  pub config : Option ObfuscatedTunnelConfig

pub record NewTunnel : Type 0 where
  pub relay : OneRelay
  pub exit : OneExit
  pub config : ObfuscatedTunnelConfig

-- `TunnelConnection` without its connection.
pub record TunnelConnection : Type 0 where
  pub relay : OneRelay
  pub exit : OneExit
  pub network_config : TunnelNetworkConfig

pub record Attempt : Type 0 where
  pub relay : Result ConnectError OneRelay
  pub exit_update : Result ApiError (List OneExit)
  pub random : ℕ → ℕ
  -- The secrets for a missing and for a refused key.
  pub fresh : ℕ
  pub fresh_after_refusal : ℕ
  pub now : ℕ
  pub answers : ℕ → SaveAnswers
  pub made : Option ApiError
  -- The server, by the public key, the relay and the exit that are asked for.
  pub run : ℕ → String → String → ApiClient → Ran TunnelInfo
  pub handshake : Result ℕ Unit

-- quicwg.rs, `TUNNEL_MTU`.
abbrev pub tunnel_mtu : ℕ
tunnel_mtu = 1280

abbrev pub obfuscated : TunnelInfo → Option ObfuscatedTunnelConfig → Result ConnectError NewTunnel
obfuscated t none = err unexpected_tunnel_kind
obfuscated t (some config) = ok (record { relay = t.relay; exit = t.exit; config = config })

abbrev pub checked_tunnel : OneRelay → TunnelInfo → Result ConnectError NewTunnel
checked_tunnel relay t =
    if not (str_eq t.relay.id relay.id) then err unexpected_relay else obfuscated t t.config

abbrev pub known_exits :
    Result ApiError (List OneExit)
    → Option (ConfigCached (List OneExit))
    → Result ApiError (List OneExit)
known_exits update none = update
known_exits update (some list) = ok list.value

abbrev pub record_selector : String → ExitSelector → Config → Config
record_selector exit_id selector c =
    if not (selector_eq selector any_exit)
    then record c {
      last_chosen_exit = some exit_id;
      last_chosen_exit_selector = selector;
      last_exit_selector = selector;
    }
    else record c { last_exit_selector = selector }

module _ (eq : Config → Config → Bool) (crypto : Crypto) (t : Attempt) where
  abbrev pub answered :
      OneRelay
      → ClientState × Result ApiError TunnelInfo
      → ClientState × Result ConnectError NewTunnel
  answered relay (s, ok info) = (s, checked_tunnel relay info)
  answered relay (s, err wg_key_rotation_required) = (
    keys_only eq (t.answers 2) (rotate_now crypto s.wg_key_store t.fresh_after_refusal) s,
    err (api_error wg_key_rotation_required),
  )
  answered relay (s, err e) = (s, err (api_error e))

  abbrev pub create_tunnel :
      OneRelay → ClientState → Option OneExit → ClientState × Result ConnectError NewTunnel
  create_tunnel relay s none = (s, err no_exit)
  create_tunnel relay s (some exit) =
      let r = change_keys eq (t.answers 0) (use_key_pair crypto s.wg_key_store t.fresh t.now) s in
      answered relay (api_request eq (t.answers 1) t.made (t.run r.1.1 relay.id exit.id) r.0)

  abbrev pub with_exits :
      ExitSelector
      → ExitSelectionState
      → OneRelay
      → ClientState
      → Result ApiError (List OneExit)
      → ExitSelectionState × (ClientState × Result ConnectError NewTunnel)
  with_exits selector sel relay s (err e) = (sel, (s, err (api_error e)))
  with_exits selector sel relay s (ok exits) =
      let r = select_next_exit selector exits relay t.random sel in (r.0, create_tunnel relay s r.1)

  abbrev pub with_relay :
      ExitSelector
      → ExitSelectionState
      → ClientState
      → Result ConnectError OneRelay
      → ExitSelectionState × (ClientState × Result ConnectError NewTunnel)
  with_relay selector sel s (err e) = (sel, (s, err e))
  with_relay selector sel s (ok relay) =
      with_exits selector sel relay s (known_exits t.exit_update s.config.config.cached_exits)

  pub new_tunnel :
      ExitSelector
      → ExitSelectionState
      → ClientState
      → ExitSelectionState × (ClientState × Result ConnectError NewTunnel)
  new_tunnel selector sel s = with_relay selector sel s t.relay

  abbrev pub after_handshake :
      ExitSelector
      → NewTunnel
      → TunnelNetworkConfig
      → ClientState
      → Result ℕ Unit
      → ClientState × Result ConnectError TunnelConnection
  after_handshake selector n network s (err e) = (s, err (tunnel_connect e))
  after_handshake selector n network s (ok u) = (
    change_config eq (t.answers 3) (record_selector n.exit.id selector) s,
    ok (record { relay = n.relay; exit = n.exit; network_config = network }),
  )

  abbrev pub with_network :
      ExitSelector
      → NewTunnel
      → ClientState
      → Result NetworkConfigError TunnelNetworkConfig
      → ClientState × Result ConnectError TunnelConnection
  with_network selector n s (err e) = (s, err (network_config e))
  with_network selector n s (ok network) = after_handshake selector n network s t.handshake

  abbrev pub with_tunnel :
      ExitSelector
      → ClientState × Result ConnectError NewTunnel
      → ClientState × Result ConnectError TunnelConnection
  with_tunnel selector (s, err e) = (s, err e)
  with_tunnel selector (s, ok n) =
      with_network selector n s (new_tunnel_network_config n.config tunnel_mtu)

  pub connect :
      ExitSelector
      → ExitSelectionState
      → ClientState
      → ExitSelectionState × (ClientState × Result ConnectError TunnelConnection)
  connect selector sel s = let r = new_tunnel selector sel s in (r.0, with_tunnel selector r.1)
