-- ===== src/Relay/Traffic.antt =====
-- What receiving over a connection of rustlib/src/quicwg.rs does to its traffic statistics.
use obscuravpn_client.Prelude.{
  ℕ, zero, suc, ◌+◌, ◌%◌, ◌^◌, ◌≡◌, refl, ap, Option, none, some, List, [], ◌∷◌, length, inl, inr,
  ◌⊎◌, min, ◌/◌,
}
use obscuravpn_client.NetworkConfig.{ok, err}
use obscuravpn_client.Tunnel.{QuicWgTrafficStats}
use obscuravpn_client.Liveness.{LivenessChecker, ProbeEnv, process_potential_probe_response}
use obscuravpn_client.Relay.Conn.{
  TunnResult, done, tunn_error, write_to_network, write_to_tunnel, ReassembleResult, not_fragmented,
  reassembled, unmatched_fragment, Crates, WgState, saturating, wrapping,
}
use obscuravpn_client.Relay.Receive.{
  packet, pong, Round, again, unfinished, panicked, returned, latency_ms, Wakeup, timers_tick,
  message, receive_failed, liveness_poll, count_received, with_latency, received_packet,
  count_wg_tx, after_decapsulate, decapsulate_loop, count_wg_rx, after_reassemble, on_tick,
  poll_loop, receive_round, Received,
}
use obscuravpn_client.Relay.Idle.{NothingCounted, on_tick-NothingCounted, poll_loop-NothingCounted}

-- What is counted for a packet from the tunnel that was received at `now`, by a connection with that
-- checker: its length, and, if the checker takes it for the answer to a probe, the latency, in
-- milliseconds and at most the greatest 16-bit number.
abbrev pub CountsPacket :
    ProbeEnv
    → LivenessChecker
    → ℕ
    → QuicWgTrafficStats
    → QuicWgTrafficStats
    → List ℕ
    → Received
    → Type 0
CountsPacket env c now t t' p (packet q) =
    (q ≡ p)
    × ((process_potential_probe_response env c now p).1 ≡ none)
    × (t' ≡ record t { rx_bytes = (t.rx_bytes + length p) % 2 ^ 64 })
CountsPacket env c now t t' p pong =
    (latency : ℕ) × ((process_potential_probe_response env c now p).1 ≡ some latency)
    × (t' ≡ record t {
      rx_bytes = (t.rx_bytes + length p) % 2 ^ 64;
      latest_latency_ms = min (latency / 1000000) 0xffff;
    })

module _ {W F B : Type 0} where
  with_latency-CountsPacket :
      (env : ProbeEnv) (c : LivenessChecker) (now : ℕ) (p : List ℕ) (latency : Option ℕ)
      (s : WgState W F B) (t : QuicWgTrafficStats)
      → (process_potential_probe_response env c now p).1 ≡ latency
      → s.traffic_stats ≡ record t { rx_bytes = (t.rx_bytes + length p) % 2 ^ 64 }
      → let (s1, received) = with_latency p latency s in
        CountsPacket env c now t s1.traffic_stats p received
  unfolding with_latency
  with_latency-CountsPacket env c now p none s t found e = (refl, found, e)
  with_latency-CountsPacket env c now p (some latency) s t found e = (
    latency,
    found,
    ap (λ (u : QuicWgTrafficStats). record u { latest_latency_ms = latency_ms latency }) e,
  )

  received_packet-CountsPacket :
      (env : ProbeEnv) (now : ℕ) (p : List ℕ) (s : WgState W F B)
      → let (s1, received) = received_packet env now p s in
        CountsPacket env s.liveness_checker now s.traffic_stats s1.traffic_stats p received
  unfolding received_packet count_received wrapping
  received_packet-CountsPacket env now p s =
      let counted = count_received p s in
      let (checker, latency) =
        process_potential_probe_response env counted.liveness_checker now p in
      with_latency-CountsPacket env s.liveness_checker now p latency
        (record counted { liveness_checker = checker }) s.traffic_stats refl refl

  module _ (crates : Crates W F B) where
    -- Boringtun gets the packet from the message, in so many steps: at once, or, after it has made
    -- messages to the network, when it is asked again.
    abbrev pub Decrypts : ℕ → W → List ℕ → List ℕ → Type 0
    Decrypts zero wg m p = ⊥
    Decrypts (suc n) wg m p =
        ((wg' : W) × (crates.decapsulate m wg ≡ (wg', write_to_tunnel p)))
        ⊎ ((wg' : W) × (x : List ℕ) × (crates.decapsulate m wg ≡ (wg', write_to_network x))
            × Decrypts n wg' [] p)

    -- The datagram is the message, or the last fragment of it.
    abbrev pub Completes : List ℕ → B → List ℕ → Type 0
    Completes datagram buffer m =
        (buffer' : B) × ((crates.reassemble datagram buffer ≡ (buffer', not_fragmented m))
          ⊎ (crates.reassemble datagram buffer ≡ (buffer', reassembled m)))

    -- What the message leads to, from that state of boringtun and that checker.
    abbrev MessageCounted :
        ℕ
        → ProbeEnv
        → ℕ
        → LivenessChecker
        → W
        → List ℕ
        → QuicWgTrafficStats
        → (WgState W F B × List (List ℕ)) × Round
        → Type 0
    MessageCounted fuel env now c wg m t ((s', out), returned (ok r)) =
        (p : List ℕ) × Decrypts fuel wg m p × CountsPacket env c now t s'.traffic_stats p r
    MessageCounted fuel env now c wg m t ((s', out), round) = s'.traffic_stats ≡ t

    asked_again :
        (fuel : ℕ) (env : ProbeEnv) (now : ℕ) (c : LivenessChecker) (wg wg' : W) (m x : List ℕ)
        (t : QuicWgTrafficStats) (r : (WgState W F B × List (List ℕ)) × Round)
        → crates.decapsulate m wg ≡ (wg', write_to_network x)
        → MessageCounted fuel env now c wg' [] t r
        → MessageCounted (suc fuel) env now c wg m t ((r.0.0, x ∷ r.0.1), r.1)
    asked_again fuel env now c wg wg' m x t ((s', sent), again) e k = k
    asked_again fuel env now c wg wg' m x t ((s', sent), unfinished) e k = k
    asked_again fuel env now c wg wg' m x t ((s', sent), panicked) e k = k
    asked_again fuel env now c wg wg' m x t ((s', sent), returned (err error)) e k = k
    asked_again fuel env now c wg wg' m x t ((s', sent), returned (ok r)) e (p, decrypts, counts) =
        (p, inr (wg', x, e, decrypts), counts)

    after_decapsulate-MessageCounted :
        (more : WgState W F B → (WgState W F B × List (List ℕ)) × Round) (fuel : ℕ) (env : ProbeEnv)
        (now : ℕ) (wg : W) (m : List ℕ) (s : WgState W F B) (r : TunnResult)
        → crates.decapsulate m wg ≡ (s.wg, r)
        → MessageCounted fuel env now s.liveness_checker s.wg [] s.traffic_stats
            (more (count_wg_tx s))
        → MessageCounted
            (suc fuel)
            env
            now
            s.liveness_checker
            wg
            m
            s.traffic_stats
            (after_decapsulate more env now s r)
    unfolding after_decapsulate
    after_decapsulate-MessageCounted more fuel env now wg m s done e h = refl
    after_decapsulate-MessageCounted more fuel env now wg m s tunn_error e h = refl
    after_decapsulate-MessageCounted more fuel env now wg m s (write_to_network x) e h =
        asked_again fuel env now s.liveness_checker wg s.wg m x s.traffic_stats
          (more (count_wg_tx s)) e h
    after_decapsulate-MessageCounted more fuel env now wg m s (write_to_tunnel p) e h =
        (p, inl (s.wg, e), received_packet-CountsPacket env now p s)

    decapsulate_loop-MessageCounted :
        (fuel : ℕ) (env : ProbeEnv) (now : ℕ) (m : List ℕ) (s : WgState W F B)
        → MessageCounted fuel env now s.liveness_checker s.wg m s.traffic_stats
            (decapsulate_loop crates fuel env now m s)
    unfolding decapsulate_loop count_wg_tx
    decapsulate_loop-MessageCounted zero env now m s = refl
    decapsulate_loop-MessageCounted (suc fuel) env now m s =
        let (wg, result) = crates.decapsulate m s.wg in
        let s1 = record s { wg = wg } in
        after_decapsulate-MessageCounted (λ x. decapsulate_loop crates fuel env now [] x) fuel env
          now s.wg m s1 result refl
          (decapsulate_loop-MessageCounted fuel env now [] (count_wg_tx s1))

    -- What a round may do to the statistics, by what woke it: only a message leads to something that
    -- is received, a packet or a pong.
    abbrev pub Counted :
        ℕ → ProbeEnv → Wakeup → WgState W F B → (WgState W F B × List (List ℕ)) × Round → Type 0
    Counted fuel env w s ((s', out), returned (ok r)) =
        (now : ℕ) × (datagram m p : List ℕ) × (w ≡ message now datagram)
        × Completes datagram s.fragment_buffer m
        × Decrypts fuel s.wg m p
        × CountsPacket env s.liveness_checker now s.traffic_stats s'.traffic_stats p r
    Counted fuel env w s ((s', out), round) = s'.traffic_stats ≡ s.traffic_stats

    NothingCounted-Counted :
        (fuel : ℕ) (env : ProbeEnv) (w : Wakeup) (s : WgState W F B)
        (r : (WgState W F B × List (List ℕ)) × Round)
        → NothingCounted s.traffic_stats r
        → Counted fuel env w s r
    NothingCounted-Counted fuel env w s ((s', sent), again) k = k
    NothingCounted-Counted fuel env w s ((s', sent), unfinished) k = k
    NothingCounted-Counted fuel env w s ((s', sent), panicked) k = k
    NothingCounted-Counted fuel env w s ((s', sent), returned (err e)) k = k
    NothingCounted-Counted fuel env w s ((s', sent), returned (ok r)) k = absurd k

    MessageCounted-Counted :
        (fuel : ℕ) (env : ProbeEnv) (now : ℕ) (datagram m : List ℕ) (s : WgState W F B)
        (r : (WgState W F B × List (List ℕ)) × Round)
        → Completes datagram s.fragment_buffer m
        → MessageCounted fuel env now s.liveness_checker s.wg m s.traffic_stats r
        → Counted fuel env (message now datagram) s r
    MessageCounted-Counted fuel env now datagram m s ((s', sent), again) c k = k
    MessageCounted-Counted fuel env now datagram m s ((s', sent), unfinished) c k = k
    MessageCounted-Counted fuel env now datagram m s ((s', sent), panicked) c k = k
    MessageCounted-Counted fuel env now datagram m s ((s', sent), returned (err e)) c k = k
    MessageCounted-Counted fuel env now datagram m s ((s', sent), returned (ok r)) c
          (p, decrypts, counts) =
        (now, datagram, m, p, refl, c, decrypts, counts)

    after_reassemble-Counted :
        (fuel : ℕ) (env : ProbeEnv) (now : ℕ) (datagram : List ℕ) (s : WgState W F B) (buffer : B)
        (r : ReassembleResult)
        → crates.reassemble datagram s.fragment_buffer ≡ (buffer, r)
        → Counted fuel env
            (message now datagram)
            s
            (after_reassemble crates fuel env now (record s { fragment_buffer = buffer }) r)
    unfolding after_reassemble count_wg_rx
    after_reassemble-Counted fuel env now datagram s buffer (not_fragmented m) e =
        let s1 = count_wg_rx crates (record s { fragment_buffer = buffer }) in
        MessageCounted-Counted fuel env now datagram m s (decapsulate_loop crates fuel env now m s1)
          (buffer, inl e) (decapsulate_loop-MessageCounted fuel env now m s1)
    after_reassemble-Counted fuel env now datagram s buffer (reassembled m) e =
        let ticks = s.tick_stats in
        let s1 = count_wg_rx crates (record s {
          fragment_buffer = buffer;
          tick_stats = record ticks {
            wg_rx_fragment_reassembled_count = saturating ticks.wg_rx_fragment_reassembled_count 1;
          };
        }) in
        MessageCounted-Counted fuel env now datagram m s (decapsulate_loop crates fuel env now m s1)
          (buffer, inr e) (decapsulate_loop-MessageCounted fuel env now m s1)
    after_reassemble-Counted fuel env now datagram s buffer (unmatched_fragment n) e = refl

    -- The loop that receives returns something only for a message that completes what boringtun gets a
    -- packet from. The length of that packet is added to the bytes received, modulo 2^64. If the
    -- liveness checker finds in it the answer to a probe, then a pong is returned and the latency that
    -- the checker found is the latest one, and else the packet is returned. In a round that returns
    -- neither, whatever wakes it, the traffic statistics stay as they are.
    pub receive_round-Counted :
        (fuel : ℕ) (env : ProbeEnv) (max_size : Option ℕ) (w : Wakeup) (s : WgState W F B)
        → Counted fuel env w s (receive_round crates fuel env max_size w s)
    unfolding receive_round
    receive_round-Counted fuel env max_size (timers_tick now) s =
        NothingCounted-Counted fuel env (timers_tick now) s (on_tick crates fuel now s)
          (on_tick-NothingCounted crates fuel now s)
    receive_round-Counted fuel env max_size (message now m) s =
        let (buffer, result) = crates.reassemble m s.fragment_buffer in
        after_reassemble-Counted fuel env now m s buffer result refl
    receive_round-Counted fuel env max_size (receive_failed e) s = refl
    receive_round-Counted fuel env max_size (liveness_poll clock) s =
        NothingCounted-Counted fuel env (liveness_poll clock) s
          (poll_loop crates env max_size clock s)
          (poll_loop-NothingCounted crates env max_size clock s)
