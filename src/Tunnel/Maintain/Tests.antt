-- ===== src/Tunnel/Maintain/Tests.antt =====
-- Tests of the tunnel's loop, and its theorems at concrete inputs.
use obscuravpn_client.Prelude.{ℕ, true, false, none, some, [], ◌≡◌, refl, any, arith, ◌⊎◌}
use obscuravpn_client.ExitSelection.{CityCode, any_exit}
use obscuravpn_client.NetworkConfig.{OsSettings, dummy_tunnel_network_config}
use obscuravpn_client.Tunnel.{
  NetworkInterface, TunnelArgs, TargetState, disconnected, connecting, connected, ConnectedState,
  Connected, Reading, tunnel_dead, set_connected, set_connecting, traffic_stats, get_connected,
  matches_target, connected_offset,
}
use obscuravpn_client.Tunnel.Stats.{Adds, SameConn, KeepsId, OffsetInRange, set_connected-Adds}
use obscuravpn_client.Tunnel.Maintain.{
  Round, Loop, initial, iterate, drop_tunnel, serve_target, try_connect, finish_connect, succeeded,
}
use obscuravpn_client.Tunnel.Maintain.Target.{Follows, iterate-Follows}
use obscuravpn_client.Tunnel.Maintain.Os.{is_unset, iterate_captures}
use obscuravpn_client.Tunnel.Maintain.Reason.{stale_reason}

abbrev here : CityCode
here = record { country_code = "de"; city_code = "ber" }

abbrev wifi : NetworkInterface
wifi = record { name = "wlan0"; index = 3 }

abbrev args : TunnelArgs
args = record { exit = any_exit }

abbrev plain : OsSettings
plain = record {
  dns_content_block = record {
    ad = false;
    tracker = false;
    malware = false;
    adult = false;
    gambling = false;
    social_media = false;
  };
  use_system_dns = false;
  local_network_access = true;
  tailscale_bypass = true;
  wireguard_bypass = true;
}

abbrev on : TargetState
on = record { tunnel_args = some args; network_interface = some wifi; settings = plain }

abbrev off : TargetState
off = record { tunnel_args = none; network_interface = some wifi; settings = plain }

abbrev tunnel : ℕ → Connected
tunnel n = record {
  conn = n;
  exit = record {
    id = "a";
    city_code = here;
    datacenter_id = 1;
    tier = 1;
    provider_name = "Mullvad VPN";
  };
  network_config = dummy_tunnel_network_config;
  relay = record { id = "r"; city_code = here; preferred_exits = [] };
  tunnel_id = n;
}

abbrev clock : ℕ → Reading
clock t = record {
  now = t;
  stats = λ c. record { connected_at = 0; tx_bytes = c; rx_bytes = c; latest_latency_ms = 4 };
  new_v4 = 77;
}

-- A pass in which all goes well, until the tunnel dies.
abbrev good : Round
good = record {
  reading = clock 5;
  target_state = on;
  set_dummy_ok = true;
  connect = λ e s. (s, succeeded (tunnel 9));
  set_config_ok = true;
  packets = [];
  receive_end = some tunnel_dead;
  unset_ok = true;
}

abbrev stop : Round
stop = record good { target_state = off }

abbrev up : ConnectedState
up = record {
  args = args;
  tunnel = tunnel 9;
  offset_traffic_stats = record {
    connected_ms = 0;
    conn_id = 77;
    tx_bytes = 0;
    rx_bytes = 0;
    latest_latency_ms = 0;
  };
  network_interface = wifi;
}

comes_up : (iterate good initial).0.tunnel_state ≡ connected up
unfolding iterate drop_tunnel serve_target try_connect finish_connect get_connected set_connecting
    set_connected matches_target connected_offset traffic_stats
comes_up = refl

iterate-Follows_example : Follows (some args) (some wifi) (iterate good initial).0.tunnel_state
iterate-Follows_example = iterate-Follows good initial

iterate_captures_example : any is_unset (iterate good initial).1 ≡ false
iterate_captures_example = iterate_captures good initial (λ e. cc)

abbrev started : Loop
started = record initial { last_start = some 7 }

-- The tunnel died, and then the user turned it off.
abbrev broken : Loop
broken = record initial { tunnel_state = connected up; disconnect_reason = some tunnel_dead }

stale_reason_example :
    let l' = (iterate stop broken).0 in
    (l'.tunnel_state ≡ disconnected)
    × ((drop_tunnel good l').0.tunnel_state
        ≡ connecting (record {
          args = args;
          connect_error = none;
          disconnect_reason = some (record { error = tunnel_dead; at = 5 });
          offset_traffic_stats = traffic_stats (clock 5) disconnected;
          network_interface = some wifi;
        }))
stale_reason_example = stale_reason stop good broken args tunnel_dead refl refl refl

abbrev changed_settings : Round
changed_settings = record good { set_config_ok = false }

set_connected-Adds_example :
    let before = traffic_stats (clock 8) (connected up) in
    let after =
      traffic_stats (clock 8) (set_connected (clock 8) args wifi (tunnel 10) (connected up)) in
    ((SameConn (tunnel 10) (connected up) × (after ≡ before))
      ⊎ ((¬ SameConn (tunnel 10) (connected up))
          × Adds (clock 8) (tunnel 10) before after
          × KeepsId (connected up) before after))
    × OffsetInRange (set_connected (clock 8) args wifi (tunnel 10) (connected up))
set_connected-Adds_example =
    set_connected-Adds (clock 8) args wifi (tunnel 10) (connected up) (omega arith)
