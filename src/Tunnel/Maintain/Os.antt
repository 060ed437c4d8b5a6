-- ===== src/Tunnel/Maintain/Os.antt =====
-- rustlib/src/tunnel_state.rs: what the OS is told, and that traffic is captured while a tunnel is
-- wanted.
use obscuravpn_client.Prelude.{
  ℕ, ◌≡◌, ◌≢◌, refl, ◌⊎◌, Bool, true, false, Option, none, some, List, [], ◌∷◌, ◌++◌, arith, any,
}
use obscuravpn_client.ExitSelection.{ExitSelectionState}
use obscuravpn_client.Tunnel.{
  TargetState, NetworkInterface, TunnelArgs, Connected, TunnelState, disconnected, connecting,
  connected, get_connected,
}
use obscuravpn_client.Tunnel.Maintain.{
  Effect, rotate_key, set_os, unset_os, publish, packets_for_os, ConnectOutcome, changed, failed,
  succeeded, Round, Loop, drop_tunnel, with_outcome, try_connect, finish_connect, serve_target,
  iterate, debounced, rotation,
}

-- What the OS was told last: nothing to route (`none`), or a configuration with the connection that
-- packets go to, if there is one.
unfoldable pub os_after : Option (Option ℕ) → List Effect → Option (Option ℕ)
os_after os [] = os
os_after os (set_os config conn ok ∷ es) = os_after (some conn) es
os_after os (unset_os ok ∷ es) = os_after none es
os_after os (rotate_key ∷ es) = os_after os es
os_after os (publish s ∷ es) = os_after os es
os_after os (packets_for_os ps ∷ es) = os_after os es

-- If the tunnel counts as connected, the OS was told last to send packets to its connection.
abbrev pub IsRouted : TunnelState → Option (Option ℕ) → Type 0
IsRouted disconnected os = Unit
IsRouted (connecting c) os = Unit
IsRouted (connected c) os = os ≡ some (some c.tunnel.conn)

-- A connection to finish with is the one that the state holds, or the state holds none.
abbrev Continues : TunnelState → Option Connected → Type 0
Continues s none = get_connected s ≡ none
Continues s (some c) = (get_connected s ≡ none) ⊎ (get_connected s ≡ some c)

abbrev pub is_unset : Effect → Bool
is_unset (unset_os ok) = true
is_unset (set_os config conn ok) = false
is_unset rotate_key = false
is_unset (publish s) = false
is_unset (packets_for_os ps) = false

any-unset-append :
    (es fs : List Effect)
    → any is_unset es ≡ false
    → any is_unset fs ≡ false
    → any is_unset (es ++ fs) ≡ false
any-unset-append [] fs h k = k
any-unset-append (e ∷ es) fs h k = ground (arith, any-unset-append es fs)

with_outcome_sets :
    (r : Round) (o : ExitSelectionState × ConnectOutcome) (l : Loop)
    → any is_unset (with_outcome r o l).1 ≡ false
with_outcome_sets r (sel, changed) l = refl
with_outcome_sets r (sel, failed e) l = refl
with_outcome_sets r (sel, succeeded c) l = refl

try_connect_sets :
    (r : Round) (a : TunnelArgs) (l : Loop) (c : Option Connected)
    → any is_unset (try_connect r a l c).1 ≡ false
unfolding try_connect
try_connect_sets r a l (some c) = refl
try_connect_sets r a l none =
    ground (arith, with_outcome_sets r (r.connect a.exit l.selection_state) l)

finish_connect_sets :
    (r : Round) (a : TunnelArgs) (i : NetworkInterface) (l : Loop) (c : Option Connected)
    → any is_unset (finish_connect r a i (l, c)).1 ≡ false
unfolding finish_connect
finish_connect_sets r a i l none = refl
finish_connect_sets r a i l (some c) = ground arith

drop_tunnel_sets : (r : Round) (l : Loop) → any is_unset (drop_tunnel r l).1 ≡ false
unfolding drop_tunnel
drop_tunnel_sets r l = ground arith

rotation_sets : (s : TunnelState) (t : TargetState) → any is_unset (rotation s t) ≡ false
rotation_sets s t = ground arith

serve_target_sets :
    (r : Round) (args : Option TunnelArgs) (i : Option NetworkInterface) (l : Loop)
    → args ≢ none
    → any is_unset (serve_target r args i l).1 ≡ false
unfolding serve_target
serve_target_sets r none i l h = absurd (h refl)
serve_target_sets r (some a) none l h = refl
serve_target_sets r (some a) (some i) l h =
    let attempt = try_connect r a l (get_connected l.tunnel_state) in
    any-unset-append attempt.1 _ (try_connect_sets r a l (get_connected l.tunnel_state))
      (finish_connect_sets r a i attempt.0.0 attempt.0.1)

-- While a tunnel is wanted, no pass of the loop tells the OS to stop capturing traffic, neither
-- when the tunnel breaks or is replaced, nor without a network interface, nor on any error.
pub iterate_captures :
    (r : Round) (l : Loop)
    → r.target_state.tunnel_args ≢ none
    → any is_unset (iterate r l).1 ≡ false
unfolding iterate
iterate_captures r l h =
    let target = r.target_state in
    let started = record l { last_start = some (debounced l.last_start r.reading.now) } in
    let dropped = drop_tunnel r started in
    any-unset-append (rotation l.tunnel_state target) _ (rotation_sets l.tunnel_state target) (
      any-unset-append dropped.1 _ (drop_tunnel_sets r started)
        (serve_target_sets r target.tunnel_args target.network_interface dropped.0 h))
