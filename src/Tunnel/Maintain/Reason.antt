-- ===== src/Tunnel/Maintain/Reason.antt =====
-- rustlib/src/tunnel_state.rs: success, and the reasons that are shown while connecting.
use obscuravpn_client.Prelude.{
  ℕ, ◌+◌, ◌≤◌, ◌≡◌, refl, true, false, Option, none, some, arith, ◌∙◌, ap,
}
use obscuravpn_client.ExitSelection.{ExitSelectionState, default_state}
use obscuravpn_client.Tunnel.{
  NetworkInterface, TunnelArgs, QuicWgReceiveError, Reading, Connected, ConnectedState, TunnelState,
  disconnected, connecting, connected, set_connecting, set_connected, set_connect_error,
  get_connected, matches_target, traffic_stats,
}
use obscuravpn_client.Tunnel.Maintain.{
  ConnectOutcome, changed, failed, succeeded, Round, Loop, follow, drop_tunnel, with_outcome,
  try_connect, finish_connect, serve_target, iterate, debounced, debounce_period,
}

drop_tunnel-last_start : (r : Round) (l : Loop) → (drop_tunnel r l).0.last_start ≡ l.last_start
unfolding drop_tunnel
drop_tunnel-last_start r l = ground arith

with_outcome-last_start :
    (r : Round) (o : ExitSelectionState × ConnectOutcome) (l : Loop)
    → (with_outcome r o l).0.0.last_start ≡ l.last_start
with_outcome-last_start r (sel, changed) l = refl
with_outcome-last_start r (sel, failed e) l = refl
with_outcome-last_start r (sel, succeeded c) l = refl

try_connect-last_start :
    (r : Round) (a : TunnelArgs) (l : Loop) (c : Option Connected)
    → (try_connect r a l c).0.0.last_start ≡ l.last_start
unfolding try_connect
try_connect-last_start r a l (some c) = refl
try_connect-last_start r a l none =
    ground (arith, with_outcome-last_start r (r.connect a.exit l.selection_state) l)

finish_connect-last_start :
    (r : Round) (a : TunnelArgs) (i : NetworkInterface) (l : Loop) (c : Option Connected)
    → (finish_connect r a i (l, c)).0.last_start ≡ l.last_start
unfolding finish_connect
finish_connect-last_start r a i l none = refl
finish_connect-last_start r a i l (some c) = ground arith

serve_target-last_start :
    (r : Round) (args : Option TunnelArgs) (i : Option NetworkInterface) (l : Loop)
    → (serve_target r args i l).0.last_start ≡ l.last_start
unfolding serve_target
serve_target-last_start r none i l = refl
serve_target-last_start r (some a) none l = refl
serve_target-last_start r (some a) (some i) l =
    finish_connect-last_start r a i _ _
    ∙ try_connect-last_start r a l (get_connected l.tunnel_state)

-- Passes that follow one another start at least a second apart.
pub iterate_debounced :
    (r : Round) (l : Loop) (last : ℕ)
    → l.last_start ≡ some last
    → (start : ℕ) × ((iterate r l).0.last_start ≡ some start)
      × (last + debounce_period ≤ start)
      × (r.reading.now ≤ start)
unfolding iterate
iterate_debounced r l last h =
    let started = record l { last_start = some (debounced l.last_start r.reading.now) } in
    (
      debounced l.last_start r.reading.now,
      serve_target-last_start r r.target_state.tunnel_args r.target_state.network_interface _
          ∙ drop_tunnel-last_start r started,
      rw h (omega arith),
      rw h (omega arith),
    )

set_connecting-get_connected :
    (r : Reading) (a : TunnelArgs) (i : Option NetworkInterface) (d : Option QuicWgReceiveError)
    (s : TunnelState)
    → get_connected (set_connecting r a i d s) ≡ none
unfolding get_connected set_connecting
set_connecting-get_connected r a i d disconnected = refl
set_connecting-get_connected r a i d (connecting c) = refl
set_connecting-get_connected r a i d (connected c) = refl

follow_unconnected :
    (r : Round) (args : Option TunnelArgs) (l : Loop)
    → (get_connected (follow r args l).tunnel_state ≡ none)
      × ((follow r args l).selection_state ≡ l.selection_state)
unfolding get_connected
follow_unconnected r none l = (refl, refl)
follow_unconnected r (some a) l = (
  set_connecting-get_connected r.reading a r.target_state.network_interface l.disconnect_reason
      l.tunnel_state,
  refl,
)

drop_tunnel_unconnected :
    (r : Round) (l : Loop)
    → get_connected l.tunnel_state ≡ none
    → (get_connected (drop_tunnel r l).0.tunnel_state ≡ none)
      × ((drop_tunnel r l).0.selection_state ≡ l.selection_state)
unfolding drop_tunnel
drop_tunnel_unconnected r l h = ground (arith, follow_unconnected r r.target_state.tunnel_args l)

serve_target-connects :
    (r : Round) (args : Option TunnelArgs) (interface : Option NetworkInterface) (l : Loop)
    (a : TunnelArgs) (i : NetworkInterface) (sel : ExitSelectionState) (c : Connected)
    → args ≡ some a
    → interface ≡ some i
    → get_connected l.tunnel_state ≡ none
    → r.set_dummy_ok ≡ true
    → r.set_config_ok ≡ true
    → r.connect a.exit l.selection_state ≡ (sel, succeeded c)
    → let l' = (serve_target r args interface l).0 in
      (get_connected l'.tunnel_state ≡ some c)
      × (l'.selection_state ≡ default_state)
      × (l'.disconnect_reason ≡ r.receive_end)
unfolding serve_target try_connect finish_connect set_connected get_connected
serve_target-connects r args interface l a i sel c ea ei unconnected d o e =
    rw (ea, ei, unconnected, d, e, o) (refl, refl, refl)

-- If a tunnel is wanted and there is none, the OS takes both configurations and a connection is found, the pass
-- ends connected by it, with the exit selection cleared and the end of receiving as the reason to
-- connect anew.
pub iterate-connects :
    (r : Round) (l : Loop) (a : TunnelArgs) (i : NetworkInterface) (sel : ExitSelectionState)
    (c : Connected)
    → r.target_state.tunnel_args ≡ some a
    → r.target_state.network_interface ≡ some i
    → get_connected l.tunnel_state ≡ none
    → r.set_dummy_ok ≡ true
    → r.set_config_ok ≡ true
    → r.connect a.exit l.selection_state ≡ (sel, succeeded c)
    → let l' = (iterate r l).0 in
      (get_connected l'.tunnel_state ≡ some c)
      × (l'.selection_state ≡ default_state)
      × (l'.disconnect_reason ≡ r.receive_end)
unfolding iterate
iterate-connects r l a i sel c ea ei unconnected d o e =
    let started = record l { last_start = some (debounced l.last_start r.reading.now) } in
    let (still, same) = drop_tunnel_unconnected r started unconnected in
    serve_target-connects r r.target_state.tunnel_args r.target_state.network_interface
      (drop_tunnel r started).0 a i sel c ea ei still d o (ap (r.connect a.exit) same ∙ e)

-- A reason that is left when the tunnel is no longer wanted is not cleared by being disconnected:
-- the next connection attempt, at whatever later time, is published as caused by it.
pub stale_reason :
    (off on : Round) (l : Loop) (a : TunnelArgs) (e : QuicWgReceiveError)
    → off.target_state.tunnel_args ≡ none
    → l.disconnect_reason ≡ some e
    → on.target_state.tunnel_args ≡ some a
    → let l' = (iterate off l).0 in
      (l'.tunnel_state ≡ disconnected)
      × ((drop_tunnel on l').0.tunnel_state
          ≡ connecting (record {
            args = a;
            connect_error = none;
            disconnect_reason = some (record { error = e; at = on.reading.now });
            offset_traffic_stats = traffic_stats on.reading disconnected;
            network_interface = on.target_state.network_interface;
          }))
unfolding iterate drop_tunnel serve_target set_connecting matches_target
stale_reason off on l a e none_wanted h wanted =
    rw (none_wanted, h, wanted) (ground arith, ground arith)

kept :
    (r : Round) (l : Loop) (c : ConnectedState)
    → l.tunnel_state ≡ connected c
    → matches_target (connected c) r.target_state.tunnel_args r.target_state.network_interface
      ≡ true
    → l.disconnect_reason ≡ none
    → (drop_tunnel r l).0.tunnel_state ≡ connected c
unfolding drop_tunnel
kept r l c at fits whole = rw (at, fits, whole)

serve_target_refused :
    (r : Round) (args : Option TunnelArgs) (i : Option NetworkInterface) (l : Loop)
    (c : ConnectedState)
    → l.tunnel_state ≡ connected c
    → matches_target (connected c) args i ≡ true
    → r.set_config_ok ≡ false
    → (serve_target r args i l).0.tunnel_state ≡ connected c
unfolding serve_target matches_target
serve_target_refused r none i l c at h refused = at
serve_target_refused r (some a) none l c at h refused = ground arith
serve_target_refused r (some a) (some i) l c at h refused = rw (at) (
    unfold get_connected try_connect finish_connect in
    rw refused (unfold set_connect_error in refl))

-- If the OS refuses a new configuration of a tunnel that is kept, the error is recorded nowhere:
-- the state stays the connected one.
pub lost_config_error :
    (r : Round) (l : Loop) (c : ConnectedState)
    → l.tunnel_state ≡ connected c
    → matches_target (connected c) r.target_state.tunnel_args r.target_state.network_interface
      ≡ true
    → l.disconnect_reason ≡ none
    → r.set_config_ok ≡ false
    → (iterate r l).0.tunnel_state ≡ connected c
unfolding iterate
lost_config_error r l c at fits whole refused =
    let started = record l { last_start = some (debounced l.last_start r.reading.now) } in
    serve_target_refused r r.target_state.tunnel_args r.target_state.network_interface _ c
      (kept r started c at fits whole) fits refused
