-- ===== src/Relay/ConnTests.antt =====
-- A connection over concrete crates: what WireGuard would encrypt stays as it is, and an empty packet
-- ends a handshake.
use obscuravpn_client.Prelude.{◌↔◌, ℕ, ◌+◌, ◌-◌, ◌^◌, ◌≡◌, refl, false, none, some, List, [], ◌∷◌}
use obscuravpn_client.NetworkConfig.{err}
use obscuravpn_client.Tunnel.{tunnel_dead}
use obscuravpn_client.Liveness.{
  LivenessChecker, SentPing, ProbeEnv, poll, lost_probe_count_and_time_of_next_loss, lost_from,
  probe_lost_period, max_lost_probes,
}
use obscuravpn_client.Relay.Conn.{
  TunnResult, done, write_to_network, write_to_tunnel, not_fragmented, Crates, WgState, no_ticks,
}
use obscuravpn_client.Relay.Receive.{
  returned, message, liveness_poll, receive_round, poll_loop, after_poll,
}
use obscuravpn_client.Relay.Traffic.{Counted, receive_round-Counted}
use obscuravpn_client.Relay.GivingUp.{FoundDead, receive_round-dead}

abbrev opened : List ℕ → ℕ → ℕ × TunnResult
opened [] n = (n, done)
opened (b ∷ bytes) n = (n, write_to_tunnel (b ∷ bytes))

abbrev plain : Crates ℕ ℕ ℕ
plain = record {
  encapsulate = λ packet n. (n + 1, write_to_network packet);
  decapsulate = opened;
  update_timers = λ n. (n, done);
  format_handshake_initiation = λ n. (n, write_to_network (1 ∷ 0 ∷ []));
  has_handshake = λ n. false;
  fragment = λ m size n. (n, (m, none));
  reassemble = λ m n. (n, not_fragmented m);
}

abbrev env : ProbeEnv
env = record {
  echo_request = λ src dst id seq payload. payload;
  echo_reply = λ packet. none;
  random_bytes = λ n. [];
}

abbrev lost : ℕ → SentPing
lost n = record { sent_at = n; id_seq = n; payload = [] }

-- Five probes that were sent at the start and not answered.
abbrev unanswered : LivenessChecker
unanswered = record {
  next_id_seq = 5;
  mtu = 100;
  src_ip = 1;
  dst_ip = 2;
  sent_user_traffic_since_last_ping = false;
  is_waking = false;
  outstanding_pongs = lost 0 ∷ lost 1 ∷ lost 2 ∷ lost 3 ∷ lost 4 ∷ [];
  last_ping_sent_at = some 4;
  slowest_pongs = [];
}

abbrev connected : WgState ℕ ℕ ℕ
connected = record {
  next_wg_timers_tick = 0;
  next_liveness_poll = 0;
  tick_stats = no_ticks;
  traffic_stats = record {
    connected_at = 0;
    tx_bytes = 2 ^ 64 - 1;
    rx_bytes = 0;
    latest_latency_ms = 0;
  };
  wg = 0;
  liveness_checker = unanswered;
  fragmenter = 0;
  fragment_buffer = 0;
}

receive_round-Counted_example :
    Counted plain 3 env
      (message 9 (4 ∷ 5 ∷ []))
      connected
      (receive_round plain 3 env none (message 9 (4 ∷ 5 ∷ [])) connected)
receive_round-Counted_example =
    receive_round-Counted plain 3 env none (message 9 (4 ∷ 5 ∷ [])) connected

found_dead :
    (receive_round plain 3 env none (liveness_poll (9000000000 ∷ [])) connected).1
    ≡ returned (err tunnel_dead)
unfolding receive_round poll_loop after_poll poll lost_probe_count_and_time_of_next_loss lost_from
    probe_lost_period max_lost_probes
found_dead = refl

receive_round-dead_example :
    ((receive_round plain 3 env none (liveness_poll (9000000000 ∷ [])) connected).1
      ≡ returned (err tunnel_dead))
    ↔ ((clock : List ℕ) × (liveness_poll (9000000000 ∷ []) ≡ liveness_poll clock)
        × FoundDead plain env unanswered clock)
receive_round-dead_example =
    receive_round-dead plain 3 env none (liveness_poll (9000000000 ∷ [])) connected
