-- ===== src/Tunnel.antt =====
-- rustlib/src/tunnel_state.rs: the state of the tunnel, and its changes. `Tunnel.Maintain` is the
-- loop that drives it. Interfaces, identifiers and connections are compared only, so a connection
-- is the address of its `Arc` with the tunnel's keys left out, and a UUID its 128-bit number.
mod Maintain
mod Stats
use obscuravpn_client.Prelude.{
  ℕ, ◌+◌, ◌-◌, ◌/◌, ◌%◌, ◌^◌, min, String, Bool, true, false, not, ◌&&◌, ◌||◌, Option, none, some,
  List, [], ◌∷◌, ◌==◌, str_eq, if◌then◌else◌, is_none,
}
use obscuravpn_client.ExitSelection.{
  ExitSelector, any_exit, exit, country, city, city_eq, OneExit, OneRelay,
}
use obscuravpn_client.NetworkConfig.{TunnelNetworkConfig, OsSettings}

-- rustlib/src/net.rs, as compiled for Linux.
pub record NetworkInterface : Type 0 where
  pub name : String
  pub index : ℕ

-- rustlib/src/manager.rs
pub record TunnelArgs : Type 0 where
  pub exit : ExitSelector

-- Derived equalities.
abbrev pub selector_eq : ExitSelector → ExitSelector → Bool
selector_eq any_exit any_exit = true
selector_eq (exit a) (exit b) = str_eq a b
selector_eq (country a) (country b) = str_eq a b
selector_eq (city a) (city b) = city_eq a b
selector_eq _ _ = false

pub args_eq : TunnelArgs → TunnelArgs → Bool
args_eq a b = selector_eq a.exit b.exit

pub interface_eq : NetworkInterface → NetworkInterface → Bool
interface_eq a b = str_eq a.name b.name && a.index == b.index

pub record TargetState : Type 0 where
  pub tunnel_args : Option TunnelArgs
  pub network_interface : Option NetworkInterface
  pub settings : OsSettings

-- Errors of a connection that was established: `QuicWgReceiveError`; an IO error by its code.
pub data QuicWgReceiveError : Type 0 where
  tunnel_dead : QuicWgReceiveError
  quic_receive_error : ℕ → QuicWgReceiveError

-- rustlib/src/errors.rs, `TunnelConnectError` as far as this module makes it; those of
-- `ClientStateHandle::connect` are told apart by a code.
pub data TunnelConnectError : Type 0 where
  set_os_network_config no_internet : TunnelConnectError
  connect_failed : ℕ → TunnelConnectError

-- rustlib/src/manager.rs
pub record ManagerTrafficStats : Type 0 where
  pub connected_ms : ℕ  -- u64
  pub conn_id : ℕ
  pub tx_bytes : ℕ  -- u64
  pub rx_bytes : ℕ  -- u64
  pub latest_latency_ms : ℕ  -- u16

-- rustlib/src/quicwg.rs
pub record QuicWgTrafficStats : Type 0 where
  pub connected_at : ℕ
  pub tx_bytes : ℕ
  pub rx_bytes : ℕ
  pub latest_latency_ms : ℕ

-- What is read when the state changes: the clock in nanoseconds, the statistics of each
-- connection, and a random identifier. `Uuid::new_v4` draws a new one whenever it is called; here a
-- reading has one draw, so it stands for one call of `traffic_stats` on a disconnected tunnel.
pub record Reading : Type 0 where
  pub now : ℕ
  pub stats : ℕ → QuicWgTrafficStats
  pub new_v4 : ℕ

pub record ErrorAt (E : Type 0) : Type 0 where
  pub error : E
  pub at : ℕ

pub record ConnectingState : Type 0 where
  pub args : TunnelArgs
  pub connect_error : Option (ErrorAt TunnelConnectError)
  pub disconnect_reason : Option (ErrorAt QuicWgReceiveError)
  pub offset_traffic_stats : ManagerTrafficStats
  pub network_interface : Option NetworkInterface

-- `struct Connected`.
pub record Connected : Type 0 where
  pub conn : ℕ
  pub exit : OneExit
  pub network_config : TunnelNetworkConfig
  pub relay : OneRelay
  pub tunnel_id : ℕ

pub record ConnectedState : Type 0 where
  pub args : TunnelArgs
  pub tunnel : Connected
  pub offset_traffic_stats : ManagerTrafficStats
  pub network_interface : NetworkInterface

pub data TunnelState : Type 0 where
  disconnected : TunnelState
  connecting : ConnectingState → TunnelState
  connected : ConnectedState → TunnelState

abbrev pub is_disconnected : TunnelState → Bool
is_disconnected disconnected = true
is_disconnected _ = false

-- `u64::MAX`.
abbrev pub u64_max : ℕ
u64_max = 0xffffffffffffffff

-- `a.saturating_add(b)` on u64.
pub saturating_add : ℕ → ℕ → ℕ
saturating_add a b = min u64_max (a + b)

-- `connected_at.elapsed().as_millis()`, in a u64.
pub elapsed_ms : ℕ → ℕ → ℕ
elapsed_ms now connected_at = min u64_max ((now - connected_at) / 1000000)

pub traffic_stats : Reading → TunnelState → ManagerTrafficStats
traffic_stats r disconnected = record {
  connected_ms = 0;
  conn_id = r.new_v4;
  tx_bytes = 0;
  rx_bytes = 0;
  latest_latency_ms = 0;
}
traffic_stats r (connecting c) = c.offset_traffic_stats
traffic_stats r (connected c) =
    let offset = c.offset_traffic_stats in
    let stats = r.stats c.tunnel.conn in
    record {
      connected_ms = saturating_add offset.connected_ms (elapsed_ms r.now stats.connected_at);
      conn_id = offset.conn_id;
      tx_bytes = saturating_add offset.tx_bytes stats.tx_bytes;
      rx_bytes = saturating_add offset.rx_bytes stats.rx_bytes;
      latest_latency_ms = stats.latest_latency_ms;
    }

abbrev pub error_at : {E : Type 0} → Reading → Option E → Option (ErrorAt E)
error_at r none = none
error_at r (some e) = some (record { error = e; at = r.now })

abbrev connecting_from :
    Reading
    → TunnelArgs
    → Option NetworkInterface
    → Option QuicWgReceiveError
    → TunnelState
    → TunnelState
connecting_from r args interface reason this = connecting (record {
  args = args;
  connect_error = none;
  disconnect_reason = error_at r reason;
  offset_traffic_stats = traffic_stats r this;
  network_interface = interface;
})

pub set_connecting :
    Reading
    → TunnelArgs
    → Option NetworkInterface
    → Option QuicWgReceiveError
    → TunnelState
    → TunnelState
set_connecting r args interface reason (connecting c) = connecting (record c { args = args })
set_connecting r args interface reason this = connecting_from r args interface reason this

-- The offset that `set_connected` keeps: that of the same connection, or all traffic so far.
pub connected_offset : Reading → Connected → TunnelState → ManagerTrafficStats
connected_offset r new (connected c) =
    if c.tunnel.conn == new.conn then c.offset_traffic_stats else traffic_stats r (connected c)
connected_offset r new this = traffic_stats r this

pub set_connected : Reading → TunnelArgs → NetworkInterface → Connected → TunnelState → TunnelState
set_connected r args interface new this = connected (record {
  args = args;
  tunnel = new;
  offset_traffic_stats = connected_offset r new this;
  network_interface = interface;
})

-- On any state but `Connecting` only an error is logged.
pub set_connect_error : Reading → TunnelConnectError → TunnelState → TunnelState
set_connect_error r error (connecting c) =
    connecting (record c { connect_error = some (record { error = error; at = r.now }) })
set_connect_error r error this = this

pub get_connected : TunnelState → Option Connected
get_connected disconnected = none
get_connected (connecting c) = none
get_connected (connected c) = some c.tunnel

abbrev option_eq : {A : Type 0} → (A → A → Bool) → A → Option A → Bool
option_eq eq a none = false
option_eq eq a (some b) = eq a b

pub matches_target : TunnelState → Option TunnelArgs → Option NetworkInterface → Bool
matches_target disconnected args interface = is_none args
matches_target (connecting c) args interface = false
matches_target (connected c) args interface =
    option_eq args_eq c.args args && option_eq interface_eq c.network_interface interface
