-- ===== src/Relay/Connecting.antt =====
-- The loops of `QuicWgConn` in rustlib/src/quicwg.rs that wait: for a packet, for the first pong, and
-- for the response to the first handshake.
use obscuravpn_client.Prelude.{
  ℕ, zero, suc, Bool, true, false, Option, List, [], ◌∷◌, ◌++◌, if◌then◌else◌, ◌==◌, head?,
  unwrap_or, drop,
}
use obscuravpn_client.NetworkConfig.{Result, ok, err}
use obscuravpn_client.Liveness.{ProbeEnv}
use obscuravpn_client.Relay.Conn.{
  TunnResult, done, tunn_error, write_to_network, write_to_tunnel, Crates, WgState,
}
use obscuravpn_client.Relay.Receive.{
  ControlFlow, continue, break_none, break_packet, handle_result, Received, packet, pong, Round,
  again, unfinished, panicked, returned, Wakeup, receive_round,
}

-- What `receive` and `wait_for_first_pong` return for.
abbrev pub is_packet : Received → Bool
is_packet (packet p) = true
is_packet pong = false

abbrev pub is_pong : Received → Bool
is_pong (packet p) = false
is_pong pong = true

pub data WireguardHandshakeError : Type 0 where
  init_message_construct_error resp_message_timeout loop_unfinished : WireguardHandshakeError
  resp_message_receive_error : ℕ → WireguardHandshakeError

-- What arrives while the response is waited for: a message, or an error of the transport.
pub data Incoming : Type 0 where
  datagram : List ℕ → Incoming
  receive_error : ℕ → Incoming

-- `WG_FIRST_HANDSHAKE_RESENDS`.
abbrev pub first_handshake_resends : ℕ
first_handshake_resends = 25

module _ {W F B : Type 0} (crates : Crates W F B) where
  -- The rest of the rounds, unless this one returns something that is waited for.
  unfoldable pub go_on :
      (Received → Bool)
      → (WgState W F B × List (List ℕ)) × Round
      → WgState W F B
      → List (List ℕ)
      → Round
      → (WgState W F B × List (List ℕ)) × Round
  go_on stops ((s2, more), round) s1 out again = ((s2, out ++ more), round)
  go_on stops rest s1 out (returned (err e)) = ((s1, out), returned (err e))
  go_on stops ((s2, more), round) s1 out (returned (ok r)) =
      if stops r then ((s1, out), returned (ok r)) else ((s2, out ++ more), round)
  go_on stops rest s1 out unfinished = ((s1, out), unfinished)
  go_on stops rest s1 out panicked = ((s1, out), panicked)

  -- `receive_packet_or_pong` in the loop around it: what wakes it is given, and `again` at the end
  -- is that it still waits.
  unfoldable pub rounds_until :
      (Received → Bool)
      → ℕ
      → ProbeEnv
      → Option ℕ
      → List Wakeup
      → WgState W F B
      → (WgState W F B × List (List ℕ)) × Round
  rounds_until stops fuel env max_size [] s = ((s, []), again)
  rounds_until stops fuel env max_size (w ∷ ws) s =
      let ((s1, out), round) = receive_round crates fuel env max_size w s in
      let rest = rounds_until stops fuel env max_size ws s1 in go_on stops rest s1 out round

  unfoldable pub receive :
      ℕ
      → ProbeEnv
      → Option ℕ
      → List Wakeup
      → WgState W F B
      → (WgState W F B × List (List ℕ)) × Round
  receive fuel env max_size ws s = rounds_until is_packet fuel env max_size ws s

  unfoldable pub wait_for_first_pong :
      ℕ
      → ProbeEnv
      → Option ℕ
      → List Wakeup
      → WgState W F B
      → (WgState W F B × List (List ℕ)) × Round
  wait_for_first_pong fuel env max_size ws s = rounds_until is_pong fuel env max_size ws s

  -- `build_first_wg_handshake_init`.
  unfoldable pub built : W × TunnResult → W × Result WireguardHandshakeError (List ℕ)
  built (wg, write_to_network init) = (wg, ok init)
  built (wg, done) = (wg, err init_message_construct_error)
  built (wg, tunn_error) = (wg, err init_message_construct_error)
  built (wg, write_to_tunnel p) = (wg, err init_message_construct_error)

  -- The inner loop of `wait_for_first_handshake_response`: whether it came to its end.
  unfoldable pub after_response :
      (List ℕ → W → (W × List (List ℕ)) × Bool)
      → List ℕ
      → W
      → ControlFlow × List (List ℕ)
      → (W × List (List ℕ)) × Bool
  after_response more wg_message wg (continue, out) =
      let ((wg1, sent), ended) = more [] wg in ((wg1, out ++ sent), ended)
  after_response more wg_message wg (break_none, out) = ((wg, out), true)
  after_response more wg_message wg (break_packet p, out) =
      let ((wg1, sent), ended) = more wg_message wg in ((wg1, out ++ sent), ended)

  unfoldable pub response_loop : ℕ → List ℕ → W → (W × List (List ℕ)) × Bool
  response_loop zero wg_message wg = ((wg, []), false)
  response_loop (suc fuel) wg_message wg =
      let (wg1, result) = crates.decapsulate wg_message wg in
      after_response (λ m w. response_loop fuel m w) wg_message wg1 (handle_result result)

  -- `wait_for_first_handshake_response`, with what arrives before the time is up.
  unfoldable pub wait_for_response :
      ℕ → List Incoming → W → (W × List (List ℕ)) × Result WireguardHandshakeError Unit
  wait_for_response fuel [] wg =
      ((wg, []), if crates.has_handshake wg then ok tt else err resp_message_timeout)
  wait_for_response fuel (receive_error e ∷ rest) wg =
      ((wg, []), if crates.has_handshake wg then ok tt else err (resp_message_receive_error e))
  wait_for_response fuel (datagram wg_message ∷ rest) wg =
      let ((wg1, sent), ended) = response_loop fuel wg_message wg in
      let ((wg2, more), result) = wait_for_response fuel rest wg1 in
      if crates.has_handshake wg
      then ((wg, []), ok tt)
      else if ended
      then ((wg2, sent ++ more), result)
      else ((wg1, sent), err loop_unfinished)

  -- After an attempt: it is tried again only if the time was up and resends are left.
  unfoldable pub after_attempt :
      List (List ℕ)
      → ℕ
      → (W × List (List (List ℕ))) × Result WireguardHandshakeError Unit
      → (W × List (List ℕ)) × Result WireguardHandshakeError Unit
      → (W × List (List (List ℕ))) × Result WireguardHandshakeError Unit
  after_attempt out resends more ((wg, sent), ok u) = ((wg, (out ++ sent) ∷ []), ok u)
  after_attempt out resends ((wg2, later), result) ((wg, sent), err resp_message_timeout) =
      if resends == 0
      then ((wg, (out ++ sent) ∷ []), err resp_message_timeout)
      else ((wg2, (out ++ sent) ∷ later), result)
  after_attempt out resends more ((wg, sent), err init_message_construct_error) =
      ((wg, (out ++ sent) ∷ []), err init_message_construct_error)
  after_attempt out resends more ((wg, sent), err loop_unfinished) =
      ((wg, (out ++ sent) ∷ []), err loop_unfinished)
  after_attempt out resends more ((wg, sent), err (resp_message_receive_error e)) =
      ((wg, (out ++ sent) ∷ []), err (resp_message_receive_error e))

  -- The loop of `first_wg_handshake`: what each attempt sent. It is not reached with no resends left, where the
  -- count would underflow. Nothing arrives after the attempts
  -- that are listed.
  unfoldable pub attempts :
      ℕ
      → List ℕ
      → ℕ
      → List (List Incoming)
      → W
      → (W × List (List (List ℕ))) × Result WireguardHandshakeError Unit
  attempts fuel init zero arrivals wg = ((wg, []), err resp_message_timeout)
  attempts fuel init (suc resends) arrivals wg =
      let attempt = wait_for_response fuel (unwrap_or (head? arrivals) []) wg in
      after_attempt (init ∷ []) resends (attempts fuel init resends (drop 1 arrivals) attempt.0.0)
        attempt

  unfoldable pub with_init :
      ℕ
      → List (List Incoming)
      → W × Result WireguardHandshakeError (List ℕ)
      → (W × List (List (List ℕ))) × Result WireguardHandshakeError Unit
  with_init fuel arrivals (wg, err e) = ((wg, []), err e)
  with_init fuel arrivals (wg, ok init) = attempts fuel init first_handshake_resends arrivals wg

  unfoldable pub first_wg_handshake :
      ℕ
      → List (List Incoming)
      → W
      → (W × List (List (List ℕ))) × Result WireguardHandshakeError Unit
  first_wg_handshake fuel arrivals wg =
      with_init fuel arrivals (built (crates.format_handshake_initiation wg))
