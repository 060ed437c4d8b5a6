-- ===== src/Relay/Connect.antt =====
-- `QuicWgConn::connect` of rustlib/src/quicwg.rs: from a relay whose handshake won the race to a connection that
-- has answered a probe. `Tunn::new` is given by the state that boringtun starts in.
use obscuravpn_client.Prelude.{
  ℕ, ◌+◌, ◌≡◌, refl, ◌∙◌, Bool, Bool-cases, inl, inr, Option, List, [], ◌∷◌, arith,
}
use obscuravpn_client.NetworkConfig.{Result, ok, err}
use obscuravpn_client.Tunnel.{QuicWgTrafficStats, QuicWgReceiveError}
use obscuravpn_client.Liveness.{LivenessChecker, ProbeEnv, new}
use obscuravpn_client.Relay.{RelayProtocol}
use obscuravpn_client.Relay.Handshake.{
  Transport, QuicWgConnHandshaking, QuicWgRelayHandshakeError, authenticate,
}
use obscuravpn_client.Relay.Conn.{Crates, WgState, no_ticks}
use obscuravpn_client.Relay.Receive.{
  Received, packet, pong, Round, again, unfinished, panicked, returned, Wakeup, receive_round,
  wg_timer_tick,
}
use obscuravpn_client.Relay.Connecting.{
  WireguardHandshakeError, Incoming, first_wg_handshake, is_pong, go_on, rounds_until,
  wait_for_first_pong,
}
use obscuravpn_client.Relay.Rtt.{ok-injective}
use obscuravpn_client.Relay.Traffic.{CountsPacket, Counted, receive_round-Counted}

-- The errors that `connect` makes, and the ends of the model that are none: it still waits for a pong,
-- a loop ran out of fuel, or the liveness checker panicked.
pub data QuicWgConnectError : Type 0 where
  relay_handshake : QuicWgRelayHandshakeError → QuicWgConnectError
  wireguard_handshake : WireguardHandshakeError → QuicWgConnectError
  first_pong : QuicWgReceiveError → QuicWgConnectError
  still_waiting loop_unfinished checker_panicked : QuicWgConnectError

abbrev pub liveness_mtu : ℕ
liveness_mtu = 100

module _ {W F B : Type 0} where
  unfoldable pub initial_state : ℕ → ℕ → ℕ → W → F → B → WgState W F B
  unfolding new
  initial_state now client_ip_v4 ping_target_ip_v4 wg fragmenter fragment_buffer = record {
    next_wg_timers_tick = now + wg_timer_tick;
    next_liveness_poll = now;
    tick_stats = no_ticks;
    traffic_stats = record {
      connected_at = now;
      tx_bytes = 0;
      rx_bytes = 0;
      latest_latency_ms = 0;
    };
    wg = wg;
    liveness_checker = new liveness_mtu client_ip_v4 ping_target_ip_v4;
    fragmenter = fragmenter;
    fragment_buffer = fragment_buffer;
  }

  unfoldable pub after_first_pong :
      (WgState W F B × List (List ℕ)) × Round → Result QuicWgConnectError (WgState W F B)
  after_first_pong ((s, out), returned (ok r)) = ok s
  after_first_pong ((s, out), returned (err e)) = err (first_pong e)
  after_first_pong ((s, out), again) = err still_waiting
  after_first_pong ((s, out), unfinished) = err loop_unfinished
  after_first_pong ((s, out), panicked) = err checker_panicked

  module _ (crates : Crates W F B) where
    unfoldable pub after_first_handshake :
        (W → WgState W F B)
        → ℕ
        → ProbeEnv
        → Option ℕ
        → List Wakeup
        → (W × List (List (List ℕ))) × Result WireguardHandshakeError Unit
        → Result QuicWgConnectError (WgState W F B)
    after_first_handshake state fuel env max_size ws ((wg, tries), err e) =
        err (wireguard_handshake e)
    after_first_handshake state fuel env max_size ws ((wg, tries), ok u) =
        after_first_pong (wait_for_first_pong crates fuel env max_size ws (state wg))

    unfoldable pub after_authenticate :
        (W → WgState W F B)
        → ℕ
        → ProbeEnv
        → Option ℕ
        → List (List Incoming)
        → List Wakeup
        → W
        → Result QuicWgRelayHandshakeError Transport
        → Result QuicWgConnectError (WgState W F B)
    after_authenticate state fuel env max_size arrivals ws wg (err e) = err (relay_handshake e)
    after_authenticate state fuel env max_size arrivals ws wg (ok t) =
        after_first_handshake state fuel env max_size ws
          (first_wg_handshake crates fuel arrivals wg)

    -- `connect`, with what the relay answers, what arrives during the first handshake, and what wakes
    -- the connection until the first pong.
    unfoldable pub connect :
        RelayProtocol
        → QuicWgConnHandshaking
        → List ℕ
        → (W → WgState W F B)
        → ℕ
        → ProbeEnv
        → Option ℕ
        → List (List Incoming)
        → List Wakeup
        → W
        → Bool
        → Bool
        → Result QuicWgConnectError (WgState W F B)
    connect p handshaking uuid state fuel env max_size arrivals ws wg send_expired recv_expired =
        after_authenticate state fuel env max_size arrivals ws wg
          (authenticate p send_expired recv_expired uuid handshaking)

-- Nothing is counted as sent while the first pong is waited for.
abbrev Unsent : QuicWgTrafficStats → QuicWgTrafficStats → Type 0
Unsent t t' = (t'.tx_bytes ≡ t.tx_bytes) × (t'.connected_at ≡ t.connected_at)

Unsent-by : (t t' u : QuicWgTrafficStats) → t' ≡ u → Unsent t u → Unsent t t'
Unsent-by t t' u e h = rw e h

Unsent-trans : (t u v : QuicWgTrafficStats) → Unsent t u → Unsent u v → Unsent t v
Unsent-trans t u v (a, b) (c, d) = (c ∙ a, d ∙ b)

module _ {W F B : Type 0} (crates : Crates W F B) where
  packet-Unsent :
      (env : ProbeEnv) (c : LivenessChecker) (now : ℕ) (t t' : QuicWgTrafficStats) (p : List ℕ)
      (r : Received)
      → CountsPacket env c now t t' p r
      → Unsent t t'
  packet-Unsent env c now t t' p (packet q) (same, other, e) = Unsent-by t t' _ e (refl, refl)
  packet-Unsent env c now t t' p pong (latency, found, e) = Unsent-by t t' _ e (refl, refl)

  Counted-Unsent :
      (fuel : ℕ) (env : ProbeEnv) (w : Wakeup) (s : WgState W F B)
      (r : (WgState W F B × List (List ℕ)) × Round)
      → Counted crates fuel env w s r
      → Unsent s.traffic_stats r.0.0.traffic_stats
  Counted-Unsent fuel env w s ((s', out), again) e =
      Unsent-by s.traffic_stats s'.traffic_stats s.traffic_stats e (refl, refl)
  Counted-Unsent fuel env w s ((s', out), unfinished) e =
      Unsent-by s.traffic_stats s'.traffic_stats s.traffic_stats e (refl, refl)
  Counted-Unsent fuel env w s ((s', out), panicked) e =
      Unsent-by s.traffic_stats s'.traffic_stats s.traffic_stats e (refl, refl)
  Counted-Unsent fuel env w s ((s', out), returned (err error)) e =
      Unsent-by s.traffic_stats s'.traffic_stats s.traffic_stats e (refl, refl)
  Counted-Unsent fuel env w s ((s', out), returned (ok r))
        (now, datagram, m, p, woken, completes, decrypts, counts) =
      packet-Unsent env s.liveness_checker now s.traffic_stats s'.traffic_stats p r counts

  go_on-Unsent :
      (stops : Received → Bool) (t : QuicWgTrafficStats)
      (rest : (WgState W F B × List (List ℕ)) × Round) (s1 : WgState W F B) (out : List (List ℕ))
      (round : Round)
      → Unsent t s1.traffic_stats
      → Unsent t rest.0.0.traffic_stats
      → Unsent t (go_on crates stops rest s1 out round).0.0.traffic_stats
  unfolding go_on
  go_on-Unsent stops t rest s1 out again a b = b
  go_on-Unsent stops t rest s1 out unfinished a b = a
  go_on-Unsent stops t rest s1 out panicked a b = a
  go_on-Unsent stops t rest s1 out (returned (err e)) a b = a
  go_on-Unsent stops t rest s1 out (returned (ok r)) a b = elim (Bool-cases (stops r)) [
    | inl e ↦ rw e a
    | inr e ↦ rw e b
  ]

  rounds_until-Unsent :
      (stops : Received → Bool) (fuel : ℕ) (env : ProbeEnv) (max_size : Option ℕ) (ws : List Wakeup)
      (s : WgState W F B)
      → Unsent s.traffic_stats (rounds_until crates stops fuel env max_size ws s).0.0.traffic_stats
  unfolding rounds_until
  rounds_until-Unsent stops fuel env max_size [] s = (refl, refl)
  rounds_until-Unsent stops fuel env max_size (w ∷ ws) s =
      let ((s1, out), round) = receive_round crates fuel env max_size w s in
      let rest = rounds_until crates stops fuel env max_size ws s1 in
      let here =
        Counted-Unsent fuel env w s ((s1, out), round)
          (receive_round-Counted crates fuel env max_size w s) in
      go_on-Unsent stops s.traffic_stats rest s1 out round here (
        Unsent-trans s.traffic_stats s1.traffic_stats rest.0.0.traffic_stats here
          (rounds_until-Unsent stops fuel env max_size ws s1))

  after_first_pong-state :
      (r : (WgState W F B × List (List ℕ)) × Round) (s : WgState W F B)
      → after_first_pong r ≡ ok s
      → r.0.0 ≡ s
  unfolding after_first_pong
  after_first_pong-state ((s1, out), returned (ok r)) s h = ok-injective s1 s h
  after_first_pong-state ((s1, out), returned (err e)) s h = absurd (ground arith)
  after_first_pong-state ((s1, out), again) s h = absurd (ground arith)
  after_first_pong-state ((s1, out), unfinished) s h = absurd (ground arith)
  after_first_pong-state ((s1, out), panicked) s h = absurd (ground arith)

  after_first_handshake-Unsent :
      (state : W → WgState W F B) (t : QuicWgTrafficStats) (fuel : ℕ) (env : ProbeEnv)
      (max_size : Option ℕ) (ws : List Wakeup)
      (r : (W × List (List (List ℕ))) × Result WireguardHandshakeError Unit) (s : WgState W F B)
      → ((wg : W) → (state wg).traffic_stats ≡ t)
      → after_first_handshake crates state fuel env max_size ws r ≡ ok s
      → (r.1 ≡ ok tt) × Unsent t s.traffic_stats
  unfolding after_first_handshake wait_for_first_pong
  after_first_handshake-Unsent state t fuel env max_size ws ((wg, tries), err e) s start h =
      absurd (ground arith)
  after_first_handshake-Unsent state t fuel env max_size ws ((wg, tries), ok u) s start h =
      let waited = rounds_until crates is_pong fuel env max_size ws (state wg) in
      let same = after_first_pong-state waited s h in
      let kept = rounds_until-Unsent is_pong fuel env max_size ws (state wg) in
      (refl, rw (← same, ← (start wg)) kept)

  after_authenticate-Unsent :
      (state : W → WgState W F B) (t : QuicWgTrafficStats) (fuel : ℕ) (env : ProbeEnv)
      (max_size : Option ℕ) (arrivals : List (List Incoming)) (ws : List Wakeup) (wg : W)
      (r : Result QuicWgRelayHandshakeError Transport) (s : WgState W F B)
      → ((w : W) → (state w).traffic_stats ≡ t)
      → after_authenticate crates state fuel env max_size arrivals ws wg r ≡ ok s
      → ((u : Transport) × (r ≡ ok u))
        × ((first_wg_handshake crates fuel arrivals wg).1 ≡ ok tt)
        × (s.traffic_stats.tx_bytes ≡ t.tx_bytes)
        × (s.traffic_stats.connected_at ≡ t.connected_at)
  unfolding after_authenticate
  after_authenticate-Unsent state t fuel env max_size arrivals ws wg (err e) s start h =
      absurd (ground arith)
  after_authenticate-Unsent state t fuel env max_size arrivals ws wg (ok u) s start h =
      let (shook, (sent, at)) =
        after_first_handshake-Unsent state t fuel env max_size ws
          (first_wg_handshake crates fuel arrivals wg) s start h in
      ((u, refl), shook, sent, at)

  -- A connection that is made was let in by the relay, which confirmed the token, and has its first
  -- handshake behind it; it counts its time from the end of that handshake, and no bytes as sent,
  -- whatever probes it sent and whatever came in before the first pong.
  pub connect-fresh :
      (p : RelayProtocol) (handshaking : QuicWgConnHandshaking) (uuid : List ℕ)
      (now ip target fuel : ℕ) (fragmenter : F) (fragment_buffer : B) (env : ProbeEnv)
      (max_size : Option ℕ) (arrivals : List (List Incoming)) (ws : List Wakeup) (wg : W)
      (a b : Bool) (s : WgState W F B)
      → connect crates p handshaking uuid
          (λ w. initial_state now ip target w fragmenter fragment_buffer)
          fuel
          env
          max_size
          arrivals
          ws
          wg
          a
          b
        ≡ ok s
      → ((t : Transport) × (authenticate p a b uuid handshaking ≡ ok t))
        × ((first_wg_handshake crates fuel arrivals wg).1 ≡ ok tt)
        × (s.traffic_stats.tx_bytes ≡ 0)
        × (s.traffic_stats.connected_at ≡ now)
  unfolding connect initial_state
  connect-fresh p handshaking uuid now ip target fuel fragmenter fragment_buffer env max_size
        arrivals ws wg a b s h =
      after_authenticate-Unsent (λ w. initial_state now ip target w fragmenter fragment_buffer)
        (record { connected_at = now; tx_bytes = 0; rx_bytes = 0; latest_latency_ms = 0 }) fuel env
        max_size arrivals ws wg (authenticate p a b uuid handshaking) s (λ w. refl) h
