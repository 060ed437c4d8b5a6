-- ===== src/Relay/Receive.antt =====
-- The receiving side of `QuicWgConn` in rustlib/src/quicwg.rs, and its first handshake. What wakes
-- `receive_packet_or_pong` is an argument, one event after the other. The loops that ask boringtun
-- until it is done take fuel.
use obscuravpn_client.Prelude.{
  ℕ, zero, suc, ◌+◌, ◌/◌, min, Option, none, some, List, [], ◌∷◌, ◌++◌, length,
}
use obscuravpn_client.NetworkConfig.{Result, ok, err}
use obscuravpn_client.Tunnel.{QuicWgReceiveError, tunnel_dead, quic_receive_error}
use obscuravpn_client.Liveness.{
  LivenessChecker, ProbeEnv, wake as wake_checker, poll, LivenessCheckerPoll, dead, alive_until,
  send_packet, process_potential_probe_response, secs,
}
use obscuravpn_client.Relay.Conn.{
  TunnResult, done, tunn_error, write_to_network, write_to_tunnel, ReassembleResult, not_fragmented,
  reassembled, unmatched_fragment, Crates, no_ticks, WgState, saturating, wrapping, least, greatest,
  send_single_packet,
}

pub data ControlFlow : Type 0 where
  continue break_none : ControlFlow
  break_packet : List ℕ → ControlFlow

-- `handle_result`, with what it sends.
unfoldable pub handle_result : TunnResult → ControlFlow × List (List ℕ)
handle_result done = (break_none, [])
handle_result (write_to_network wg_message) = (continue, wg_message ∷ [])
handle_result (write_to_tunnel packet) = (break_packet packet, [])
handle_result tunn_error = (break_none, [])

pub data Received : Type 0 where
  packet : List ℕ → Received
  pong : Received

-- What a branch of the `select!` does: the loop goes on, the function returns, or a loop over
-- boringtun's results ran out of fuel, or the liveness checker panicked.
pub data Round : Type 0 where
  again unfinished panicked : Round
  returned : Result QuicWgReceiveError Received → Round

-- `WG_TIMER_TICK`.
abbrev pub wg_timer_tick : ℕ
wg_timer_tick = secs 1

-- `u16::try_from(latest_latency.as_millis()).unwrap_or(u16::MAX)`.
abbrev pub latency_ms : ℕ → ℕ
latency_ms latency = min (latency / 1000000) 0xffff

-- What woke the loop: the timers, a message or a failure of the transport, or the liveness poll,
-- with the clock at each of its turns.
pub data Wakeup : Type 0 where
  timers_tick : ℕ → Wakeup
  message : ℕ → List ℕ → Wakeup
  receive_failed : ℕ → Wakeup
  liveness_poll : List ℕ → Wakeup

module _ {W F B : Type 0} where
  -- The counts of a packet that is received.
  unfoldable pub count_received : List ℕ → WgState W F B → WgState W F B
  count_received p s =
      let traffic = s.traffic_stats in
      let ticks = s.tick_stats in
      record s {
        traffic_stats = record traffic { rx_bytes = wrapping traffic.rx_bytes (length p) };
        tick_stats = record ticks {
          ip_rx_count = saturating ticks.ip_rx_count 1;
          min_ip_rx_size = least ticks.min_ip_rx_size (length p);
          max_ip_rx_size = greatest ticks.max_ip_rx_size (length p);
        };
      }

  unfoldable pub with_latency : List ℕ → Option ℕ → WgState W F B → WgState W F B × Received
  with_latency p none s = (s, packet p)
  with_latency p (some latency) s =
      let traffic = s.traffic_stats in
      (record s { traffic_stats = record traffic { latest_latency_ms = latency_ms latency } }, pong)

  -- A packet that is an answer to a probe is a pong.
  unfoldable pub received_packet : ProbeEnv → ℕ → List ℕ → WgState W F B → WgState W F B × Received
  received_packet env now p s =
      let counted = count_received p s in
      let (checker, latency) =
        process_potential_probe_response env counted.liveness_checker now p in
      with_latency p latency (record counted { liveness_checker = checker })

  unfoldable pub count_wg_tx : WgState W F B → WgState W F B
  count_wg_tx s =
      let ticks = s.tick_stats in
      record s { tick_stats = record ticks { wg_tx_count = saturating ticks.wg_tx_count 1 } }

  -- The result of a message, and what was sent because of it.
  unfoldable pub after_decapsulate :
      (WgState W F B → (WgState W F B × List (List ℕ)) × Round)
      → ProbeEnv
      → ℕ
      → WgState W F B
      → TunnResult
      → (WgState W F B × List (List ℕ)) × Round
  after_decapsulate more env now s done = ((s, []), again)
  after_decapsulate more env now s tunn_error = ((s, []), again)
  after_decapsulate more env now s (write_to_network wg_message) =
      let ((s1, sent), round) = more (count_wg_tx s) in ((s1, wg_message ∷ sent), round)
  after_decapsulate more env now s (write_to_tunnel p) =
      let (s1, received) = received_packet env now p s in ((s1, []), returned (ok received))

  module _ (crates : Crates W F B) where
    -- The loop over `decapsulate`: after a message to the network boringtun is asked again, with an
    -- empty message.
    unfoldable pub decapsulate_loop :
        ℕ → ProbeEnv → ℕ → List ℕ → WgState W F B → (WgState W F B × List (List ℕ)) × Round
    decapsulate_loop zero env now wg_message s = ((s, []), unfinished)
    decapsulate_loop (suc fuel) env now wg_message s =
        let (wg, result) = crates.decapsulate wg_message s.wg in
        after_decapsulate (λ s1. decapsulate_loop fuel env now [] s1) env now (record s { wg = wg })
          result

    unfoldable pub count_wg_rx : WgState W F B → WgState W F B
    count_wg_rx s =
        let ticks = s.tick_stats in
        record s { tick_stats = record ticks { wg_rx_count = saturating ticks.wg_rx_count 1 } }

    unfoldable pub after_reassemble :
        ℕ
        → ProbeEnv
        → ℕ
        → WgState W F B
        → ReassembleResult
        → (WgState W F B × List (List ℕ)) × Round
    after_reassemble fuel env now s (not_fragmented msg) =
        decapsulate_loop fuel env now msg (count_wg_rx s)
    after_reassemble fuel env now s (reassembled msg) =
        let ticks = s.tick_stats in
        decapsulate_loop fuel env now msg (
          count_wg_rx (record s {
            tick_stats = record ticks {
              wg_rx_fragment_reassembled_count =
                  saturating ticks.wg_rx_fragment_reassembled_count 1;
            };
          }))
    after_reassemble fuel env now s (unmatched_fragment max_message_size) =
        let ticks = s.tick_stats in
        (
          (
            record s {
              tick_stats = record ticks {
                wg_rx_fragment_buffered_count = saturating ticks.wg_rx_fragment_buffered_count 1;
                wg_rx_fragment_max_message_size = some max_message_size;
              };
            },
            [],
          ),
          again,
        )

    -- The loop over `update_timers`; a packet is unexpected there, and dropped.
    unfoldable pub after_update :
        (WgState W F B → (WgState W F B × List (List ℕ)) × Round)
        → WgState W F B
        → ControlFlow × List (List ℕ)
        → (WgState W F B × List (List ℕ)) × Round
    after_update more s (continue, out) =
        let ((s1, sent), round) = more s in ((s1, out ++ sent), round)
    after_update more s (break_none, out) = ((s, out), again)
    after_update more s (break_packet p, out) =
        let ((s1, sent), round) = more s in ((s1, out ++ sent), round)

    unfoldable pub timers_loop : ℕ → WgState W F B → (WgState W F B × List (List ℕ)) × Round
    timers_loop zero s = ((s, []), unfinished)
    timers_loop (suc fuel) s =
        let (wg, result) = crates.update_timers s.wg in
        after_update (λ s1. timers_loop fuel s1) (record s { wg = wg }) (handle_result result)

    unfoldable pub on_tick : ℕ → ℕ → WgState W F B → (WgState W F B × List (List ℕ)) × Round
    on_tick fuel now s =
        let ((s1, sent), round) = timers_loop fuel (record s { tick_stats = no_ticks }) in
        ((record s1 { next_wg_timers_tick = now + wg_timer_tick }, sent), round)

    -- The loop over the liveness polls, with the clock at each. A probe is sent, and the checker is
    -- polled again.
    unfoldable pub after_poll :
        Option ℕ
        → (WgState W F B → (WgState W F B × List (List ℕ)) × Round)
        → WgState W F B
        → Option (LivenessChecker × LivenessCheckerPoll)
        → (WgState W F B × List (List ℕ)) × Round
    after_poll max_size more s none = ((s, []), panicked)
    after_poll max_size more s (some (checker, dead)) =
        ((record s { liveness_checker = checker }, []), returned (err tunnel_dead))
    after_poll max_size more s (some (checker, alive_until pending_until)) =
        ((record s { liveness_checker = checker; next_liveness_poll = pending_until }, []), again)
    after_poll max_size more s (some (checker, send_packet p)) =
        let (s1, out) =
          send_single_packet crates max_size p (record s { liveness_checker = checker }) in
        let ((s2, sent), round) = more s1 in ((s2, out ++ sent), round)

    unfoldable pub poll_loop :
        ProbeEnv → Option ℕ → List ℕ → WgState W F B → (WgState W F B × List (List ℕ)) × Round
    poll_loop env max_size [] s = ((s, []), unfinished)
    poll_loop env max_size (now ∷ clock) s =
        after_poll max_size (λ s1. poll_loop env max_size clock s1) s
          (poll env s.liveness_checker now)

    -- One round of the loop of `receive_packet_or_pong`.
    unfoldable pub receive_round :
        ℕ → ProbeEnv → Option ℕ → Wakeup → WgState W F B → (WgState W F B × List (List ℕ)) × Round
    receive_round fuel env max_size (timers_tick now) s = on_tick fuel now s
    receive_round fuel env max_size (message now wg_message) s =
        let (fragment_buffer, result) = crates.reassemble wg_message s.fragment_buffer in
        after_reassemble fuel env now (record s { fragment_buffer = fragment_buffer }) result
    receive_round fuel env max_size (receive_failed error) s =
        ((s, []), returned (err (quic_receive_error error)))
    receive_round fuel env max_size (liveness_poll clock) s = poll_loop env max_size clock s

    -- `wake`, with the packet that the checker sends.
    unfoldable pub wake_with :
        Option ℕ
        → WgState W F B
        → Option (LivenessChecker × List ℕ)
        → Option (WgState W F B × List (List ℕ))
    wake_with max_size s none = none
    wake_with max_size s (some (checker, p)) =
        some (send_single_packet crates max_size p (record s { liveness_checker = checker }))

    unfoldable pub wake :
        ProbeEnv → ℕ → Option ℕ → WgState W F B → Option (WgState W F B × List (List ℕ))
    wake env now max_size s = wake_with max_size s (wake_checker env s.liveness_checker now)
