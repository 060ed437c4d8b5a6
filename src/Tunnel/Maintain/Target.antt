-- ===== src/Tunnel/Maintain/Target.antt =====
-- rustlib/src/tunnel_state.rs: each pass of the loop leaves the published state where the target
-- state wants it.
use text.Mathlib.TextEquality.{eq_iff}
use obscuravpn_client.Prelude.{
  ◌≡◌, refl, inl, inr, true, Option, none, some, is_some, arith, Bool-cases, ap,
}
use obscuravpn_client.ExitSelection.{
  ExitSelectionState, ExitSelector, any_exit, exit, country, city,
}
use obscuravpn_client.Tunnel.{
  NetworkInterface, TunnelArgs, QuicWgReceiveError, TunnelConnectError, Reading, Connected,
  TunnelState, disconnected, connecting, connected, set_connecting, set_connected,
  set_connect_error, get_connected, matches_target, set_os_network_config, no_internet, args_eq,
  interface_eq, selector_eq,
}
use obscuravpn_client.Tunnel.Maintain.{
  ConnectOutcome, changed, failed, succeeded, Round, Loop, follow, drop_tunnel, with_outcome,
  try_connect, finish_connect, serve_target, iterate, debounced,
}

selector_eq_sound : (a b : ExitSelector) → selector_eq a b ≡ true → a ≡ b
selector_eq_sound any_exit any_exit h = refl
selector_eq_sound (exit a) (exit b) h = ap exit ((eq_iff a b).0 h)
selector_eq_sound (country a) (country b) h = ap country ((eq_iff a b).0 h)
selector_eq_sound (city a) (city b) h =
    ap city (ground (arith, eq_iff a.country_code b.country_code, eq_iff a.city_code b.city_code))
selector_eq_sound _ _ h = cc

args_eq_sound : (a b : TunnelArgs) → args_eq a b ≡ true → a ≡ b
unfolding args_eq
args_eq_sound a b h = ground (arith, selector_eq_sound a.exit b.exit h)

interface_eq_sound : (a b : NetworkInterface) → interface_eq a b ≡ true → a ≡ b
unfolding interface_eq
interface_eq_sound a b h = ground (arith, eq_iff a.name b.name)

-- What the target state wants of the tunnel's state.
abbrev pub Follows : Option TunnelArgs → Option NetworkInterface → TunnelState → Type 0
Follows args interface disconnected = args ≡ none
Follows args interface (connecting c) = args ≡ some c.args
Follows args interface (connected c) = (args ≡ some c.args) × (interface ≡ some c.network_interface)

matches-Follows :
    (s : TunnelState) (args : Option TunnelArgs) (interface : Option NetworkInterface)
    → matches_target s args interface ≡ true
    → Follows args interface s
unfolding matches_target
matches-Follows disconnected none interface h = refl
matches-Follows disconnected (some a) interface h = cc
matches-Follows (connecting c) args interface h = cc
matches-Follows (connected c) none interface h = cc
matches-Follows (connected c) (some a) none h = ground arith
matches-Follows (connected c) (some a) (some i) h =
    ground (arith, args_eq_sound c.args a, interface_eq_sound c.network_interface i)

set_connecting-Follows :
    (r : Reading) (a : TunnelArgs) (i i' : Option NetworkInterface) (d : Option QuicWgReceiveError)
    (s : TunnelState)
    → Follows (some a) i' (set_connecting r a i d s)
unfolding set_connecting
set_connecting-Follows r a i i' d disconnected = refl
set_connecting-Follows r a i i' d (connecting c) = refl
set_connecting-Follows r a i i' d (connected c) = refl

set_connect_error-Follows :
    (r : Reading) (e : TunnelConnectError) (args : Option TunnelArgs) (i : Option NetworkInterface)
    (s : TunnelState)
    → Follows args i s
    → Follows args i (set_connect_error r e s)
unfolding set_connect_error
set_connect_error-Follows r e args i disconnected h = h
set_connect_error-Follows r e args i (connecting c) h = h
set_connect_error-Follows r e args i (connected c) h = h

follow-Follows :
    (r : Round) (args : Option TunnelArgs) (i : Option NetworkInterface) (l : Loop)
    → Follows args i (follow r args l).tunnel_state
follow-Follows r none i l = refl
follow-Follows r (some a) i l =
    set_connecting-Follows r.reading a r.target_state.network_interface i l.disconnect_reason
      l.tunnel_state

pub drop_tunnel-Follows :
    (r : Round) (l : Loop)
    → Follows r.target_state.tunnel_args r.target_state.network_interface
        (drop_tunnel r l).0.tunnel_state
unfolding drop_tunnel
drop_tunnel-Follows r l =
    elim (Bool-cases
      (matches_target l.tunnel_state r.target_state.tunnel_args r.target_state.network_interface)) [
        | inl fits ↦ elim (Bool-cases (is_some l.disconnect_reason)) [
          | inl broke ↦
              rw (fits, broke)
                (follow-Follows r r.target_state.tunnel_args r.target_state.network_interface l)
          | inr whole ↦
              rw (fits, whole)
                (matches-Follows l.tunnel_state r.target_state.tunnel_args
                  r.target_state.network_interface fits)
        ]
        | inr differs ↦
            rw differs
              (follow-Follows r r.target_state.tunnel_args r.target_state.network_interface l)
      ]

module _ (r : Round) (a : TunnelArgs) (i : NetworkInterface) where
  with_outcome-Follows :
      (o : ExitSelectionState × ConnectOutcome) (l : Loop)
      → Follows (some a) (some i) l.tunnel_state
      → Follows (some a) (some i) (with_outcome r o l).0.0.tunnel_state
  with_outcome-Follows (sel, changed) l h = h
  with_outcome-Follows (sel, failed e) l h =
      set_connect_error-Follows r.reading e (some a) (some i) l.tunnel_state h
  with_outcome-Follows (sel, succeeded c) l h = h

  try_connect-Follows :
      (l : Loop) (c : Option Connected)
      → Follows (some a) (some i) l.tunnel_state
      → Follows (some a) (some i) (try_connect r a l c).0.0.tunnel_state
  unfolding try_connect
  try_connect-Follows l (some c) h = h
  try_connect-Follows l none h = elim (Bool-cases r.set_dummy_ok) [
    | inl captured ↦ rw captured (with_outcome-Follows (r.connect a.exit l.selection_state) l h)
    | inr refused ↦ rw refused (
        set_connect_error-Follows r.reading set_os_network_config (some a) (some i) l.tunnel_state
          h)
  ]

  finish_connect-Follows :
      (l : Loop) (c : Option Connected)
      → Follows (some a) (some i) l.tunnel_state
      → Follows (some a) (some i) (finish_connect r a i (l, c)).0.tunnel_state
  unfolding finish_connect
  finish_connect-Follows l none h = h
  finish_connect-Follows l (some c) h = elim (Bool-cases r.set_config_ok) [
    | inl done ↦ rw done (unfold set_connected in (refl, refl))
    | inr refused ↦ rw refused (
        set_connect_error-Follows r.reading set_os_network_config (some a) (some i) l.tunnel_state
          h)
  ]

serve_target-Follows :
    (r : Round) (args : Option TunnelArgs) (i : Option NetworkInterface) (l : Loop)
    → Follows args i l.tunnel_state
    → Follows args i (serve_target r args i l).0.tunnel_state
unfolding serve_target
serve_target-Follows r none i l h = h
serve_target-Follows r (some a) none l h =
    set_connect_error-Follows r.reading no_internet (some a) none l.tunnel_state h
serve_target-Follows r (some a) (some i) l h =
    finish_connect-Follows r a i _ _ (try_connect-Follows r a i l (get_connected l.tunnel_state) h)

-- After every pass of the loop, whatever the OS and the network answered, the tunnel is
-- disconnected only if no tunnel is wanted, connecting only for the arguments that are wanted, and
-- connected only with the arguments and over the interface that are wanted.
pub iterate-Follows :
    (r : Round) (l : Loop)
    → Follows r.target_state.tunnel_args r.target_state.network_interface
        (iterate r l).0.tunnel_state
unfolding iterate
iterate-Follows r l =
    serve_target-Follows r r.target_state.tunnel_args r.target_state.network_interface _ (
      drop_tunnel-Follows r (record l { last_start = some (debounced l.last_start r.reading.now) }))
