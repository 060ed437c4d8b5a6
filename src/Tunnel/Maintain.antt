-- ===== src/Tunnel/Maintain.antt =====
-- rustlib/src/tunnel_state.rs, `maintain`: one pass of the loop. What the pass waits for is its
-- `Round`: the answers of the client state, the OS and the network. A pass that blocks forever is
-- no round. What it does to its surroundings are its `Effect`s, in order.
mod Target
mod Os
mod Reason
mod Tests
use obscuravpn_client.Prelude.{
  ℕ, ◌+◌, max, Bool, true, false, not, ◌&&◌, ◌||◌, Option, none, some, List, [], ◌∷◌, ◌++◌,
  if◌then◌else◌, is_some, is_none,
}
use obscuravpn_client.ExitSelection.{ExitSelectionState, default_state, ExitSelector}
use obscuravpn_client.NetworkConfig.{
  OsNetworkConfig, new_os_network_config, dummy_os_network_config,
}
use obscuravpn_client.Tunnel.{
  TargetState, NetworkInterface, TunnelArgs, QuicWgReceiveError, TunnelConnectError, Reading,
  Connected, TunnelState, disconnected, is_disconnected, set_connecting, set_connected,
  set_connect_error, get_connected, matches_target, set_os_network_config, no_internet,
}

pub data Effect : Type 0 where
  -- `client_state.rotate_wireguard_key_if_required()`.
  rotate_key : Effect
  -- `os_impl.set_os_network_config`, with the connection that packets are sent to, and its success.
  set_os : OsNetworkConfig → Option ℕ → Bool → Effect
  -- `os_impl.unset_os_network_config`, and its success.
  unset_os : Bool → Effect
  -- A state that the watch channel publishes.
  publish : TunnelState → Effect
  -- `os_impl.packet_for_os`, for each packet received.
  packets_for_os : List (List ℕ) → Effect

-- How `client_state.connect` ends: the target changed first, an error, or a connection.
pub data ConnectOutcome : Type 0 where
  changed : ConnectOutcome
  failed : TunnelConnectError → ConnectOutcome
  succeeded : Connected → ConnectOutcome

pub record Round : Type 0 where
  -- The clock when the pass is ready, and the readings of its state changes.
  pub reading : Reading
  pub target_state : TargetState
  pub set_dummy_ok : Bool
  -- `client_state.connect` advances the exit selection, whatever its outcome.
  pub connect : ExitSelector → ExitSelectionState → ExitSelectionState × ConnectOutcome
  pub set_config_ok : Bool
  pub packets : List (List ℕ)
  -- How receiving ends: by an error, or (`none`) because the target changed.
  pub receive_end : Option QuicWgReceiveError
  pub unset_ok : Bool

-- The variables of the loop, with the published state.
pub record Loop : Type 0 where
  pub tunnel_state : TunnelState
  pub last_start : Option ℕ
  pub disconnect_reason : Option QuicWgReceiveError
  pub selection_state : ExitSelectionState

abbrev pub initial : Loop
initial = record {
  tunnel_state = disconnected;
  last_start = none;
  disconnect_reason = none;
  selection_state = default_state;
}

abbrev pub debounce_period : ℕ
debounce_period = 1000000000

-- `sleep_until(last_start + DEBOUNCE_PERIOD)`.
abbrev pub debounced : Option ℕ → ℕ → ℕ
debounced none now = now
debounced (some last) now = max now (last + debounce_period)

abbrev rotation : TunnelState → TargetState → List Effect
rotation state target =
    if not (is_disconnected state) && is_none target.tunnel_args then rotate_key ∷ [] else []

-- The `send_modify` that follows the target, and what it leaves of the disconnect reason.
abbrev follow : Round → Option TunnelArgs → Loop → Loop
follow r none l = record l { tunnel_state = disconnected }
follow r (some args) l = record l {
  tunnel_state =
      set_connecting r.reading args r.target_state.network_interface l.disconnect_reason
        l.tunnel_state;
  disconnect_reason = none;
}

pub drop_tunnel : Round → Loop → Loop × List Effect
drop_tunnel r l =
    let followed = follow r r.target_state.tunnel_args l in
    if not
        (matches_target l.tunnel_state r.target_state.tunnel_args r.target_state.network_interface)
      || is_some l.disconnect_reason
    then (followed, publish followed.tunnel_state ∷ [])
    else (l, [])

-- Changes the published state.
abbrev modify : (TunnelState → TunnelState) → Loop → Loop × List Effect
modify f l = (record l { tunnel_state = f l.tunnel_state }, publish (f l.tunnel_state) ∷ [])

abbrev after_effects : {A : Type 0} → List Effect → A × List Effect → A × List Effect
after_effects es (a, fs) = (a, es ++ fs)

-- The `ControlFlow` of a connection attempt: the connection to continue with, if any.
abbrev pub with_outcome :
    Round → ExitSelectionState × ConnectOutcome → Loop → (Loop × Option Connected) × List Effect
with_outcome r (sel, changed) l = ((record l { selection_state = sel }, none), [])
with_outcome r (sel, failed e) l =
    let (l', es) = modify (set_connect_error r.reading e) (record l { selection_state = sel }) in
    ((l', none), es)
with_outcome r (sel, succeeded c) l = ((record l { selection_state = default_state }, some c), [])

pub try_connect :
    Round → TunnelArgs → Loop → Option Connected → (Loop × Option Connected) × List Effect
try_connect r args l (some c) = ((l, some c), [])
try_connect r args l none =
    let dummy = set_os (dummy_os_network_config r.target_state.settings) none r.set_dummy_ok in
    let (l', es) = modify (set_connect_error r.reading set_os_network_config) l in
    let outcome = with_outcome r (r.connect args.exit l.selection_state) l in
    if r.set_dummy_ok then (outcome.0, dummy ∷ outcome.1) else ((l', none), dummy ∷ es)

-- Reaching the connected state, and forwarding packets until the tunnel fails or the target
-- changes.
pub finish_connect :
    Round → TunnelArgs → NetworkInterface → Loop × Option Connected → Loop × List Effect
finish_connect r args interface (l, none) = (l, [])
finish_connect r args interface (l, some c) =
    let config =
      new_os_network_config c.network_config c.exit.provider_name r.target_state.settings in
    let set = set_os config (some c.conn) r.set_config_ok in
    let (failed_loop, failure) = modify (set_connect_error r.reading set_os_network_config) l in
    let (connected_loop, success) = modify (set_connected r.reading args interface c) l in
    if r.set_config_ok
    then (
      record connected_loop { disconnect_reason = r.receive_end },
      set ∷ (success ++ packets_for_os r.packets ∷ []),
    )
    else (failed_loop, set ∷ failure)

-- The `match &target_state`.
pub serve_target : Round → Option TunnelArgs → Option NetworkInterface → Loop → Loop × List Effect
serve_target r (some args) (some interface) l =
    let (attempt, es) = try_connect r args l (get_connected l.tunnel_state) in
    let (l', fs) = finish_connect r args interface attempt in (l', es ++ fs)
serve_target r none interface l =
    (record l { selection_state = default_state }, unset_os r.unset_ok ∷ [])
serve_target r (some args) none l =
    modify (set_connect_error r.reading no_internet) (record l { selection_state = default_state })

pub iterate : Round → Loop → Loop × List Effect
iterate r l =
    let target = r.target_state in
    let started = record l { last_start = some (debounced l.last_start r.reading.now) } in
    let (followed, published) = drop_tunnel r started in
    let (served, es) = serve_target r target.tunnel_args target.network_interface followed in
    (served, rotation l.tunnel_state target ++ (published ++ es))

pub run : List Round → Loop → Loop × List Effect
run [] l = (l, [])
run (r ∷ rs) l = let (l', es) = iterate r l in let (l'', fs) = run rs l' in (l'', es ++ fs)
