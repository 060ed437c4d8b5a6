-- ===== src/Relay/GivingUp.antt =====
-- When a connection of rustlib/src/quicwg.rs is given up: by its liveness poll, or when no attempt of
-- the first handshake is answered.
use obscuravpn_client.Prelude.{
  ℕ, zero, suc, ◌≤◌, ◌≡◌, ◌≢◌, inl, inr, refl, Option, none, some, List, [], ◌∷◌, length, All,
  Bool-cases, head?, unwrap_or, drop, arith, ◌==◌, subst, sym, ◌↔◌, ◌⊎◌,
}
use obscuravpn_client.NetworkConfig.{Result, ok, err}
use obscuravpn_client.Tunnel.{tunnel_dead}
use obscuravpn_client.Liveness.{
  LivenessChecker, ProbeEnv, poll, LivenessCheckerPoll, dead, alive_until, send_packet,
}
use obscuravpn_client.Relay.Conn.{
  TunnResult, done, tunn_error, write_to_network, write_to_tunnel, ReassembleResult, not_fragmented,
  reassembled, unmatched_fragment, Crates, WgState, after_encapsulate, send_single_packet,
}
use obscuravpn_client.Relay.Receive.{
  ControlFlow, continue, break_none, break_packet, handle_result, Round, returned, Wakeup,
  timers_tick, message, receive_failed, liveness_poll, after_decapsulate, decapsulate_loop,
  after_reassemble, after_update, timers_loop, on_tick, after_poll, poll_loop, receive_round,
}
use obscuravpn_client.Relay.Connecting.{
  WireguardHandshakeError, init_message_construct_error, resp_message_timeout, loop_unfinished,
  resp_message_receive_error, Incoming, after_attempt, attempts, wait_for_response, with_init,
  first_wg_handshake, built, first_handshake_resends,
}

-- The connection is not found dead.
abbrev Lives : Round → Type 0
Lives r = r ≢ returned (err tunnel_dead)

module _ {W F B : Type 0} where
  after_decapsulate-Lives :
      (more : WgState W F B → (WgState W F B × List (List ℕ)) × Round) (env : ProbeEnv) (now : ℕ)
      (s : WgState W F B) (r : TunnResult)
      → ((s1 : WgState W F B) → Lives (more s1).1)
      → Lives (after_decapsulate more env now s r).1
  unfolding after_decapsulate
  after_decapsulate-Lives more env now s done h = λ e. ground arith
  after_decapsulate-Lives more env now s tunn_error h = λ e. ground arith
  after_decapsulate-Lives more env now s (write_to_network m) h = h _
  after_decapsulate-Lives more env now s (write_to_tunnel p) h = λ e. ground arith

  module _ (crates : Crates W F B) where
    decapsulate_loop-Lives :
        (fuel : ℕ) (env : ProbeEnv) (now : ℕ) (m : List ℕ) (s : WgState W F B)
        → Lives (decapsulate_loop crates fuel env now m s).1
    unfolding decapsulate_loop
    decapsulate_loop-Lives zero env now m s = λ e. ground arith
    decapsulate_loop-Lives (suc fuel) env now m s =
        let (wg, result) = crates.decapsulate m s.wg in
        after_decapsulate-Lives (λ s1. decapsulate_loop crates fuel env now [] s1) env now
          (record s { wg = wg }) result (λ s1. decapsulate_loop-Lives fuel env now [] s1)

    after_reassemble-Lives :
        (fuel : ℕ) (env : ProbeEnv) (now : ℕ) (s : WgState W F B) (r : ReassembleResult)
        → Lives (after_reassemble crates fuel env now s r).1
    unfolding after_reassemble
    after_reassemble-Lives fuel env now s (not_fragmented m) =
        decapsulate_loop-Lives fuel env now m _
    after_reassemble-Lives fuel env now s (reassembled m) = decapsulate_loop-Lives fuel env now m _
    after_reassemble-Lives fuel env now s (unmatched_fragment n) = λ e. ground arith

    after_update-Lives :
        (more : WgState W F B → (WgState W F B × List (List ℕ)) × Round) (s : WgState W F B)
        (r : ControlFlow × List (List ℕ))
        → ((s1 : WgState W F B) → Lives (more s1).1)
        → Lives (after_update crates more s r).1
    unfolding after_update
    after_update-Lives more s (continue, out) h = h s
    after_update-Lives more s (break_none, out) h = λ e. ground arith
    after_update-Lives more s (break_packet p, out) h = h s

    timers_loop-Lives : (fuel : ℕ) (s : WgState W F B) → Lives (timers_loop crates fuel s).1
    unfolding timers_loop
    timers_loop-Lives zero s = λ e. ground arith
    timers_loop-Lives (suc fuel) s =
        let (wg, result) = crates.update_timers s.wg in
        after_update-Lives (λ s1. timers_loop crates fuel s1) (record s { wg = wg })
          (handle_result result) (λ s1. timers_loop-Lives fuel s1)

    -- From that checker on, polled at these instants, each poll asks for a probe until one finds the
    -- tunnel dead.
    abbrev pub FoundDead : ProbeEnv → LivenessChecker → List ℕ → Type 0
    FoundDead env c [] = ⊥
    FoundDead env c (now ∷ clock) =
        ((c' : LivenessChecker) × (poll env c now ≡ some (c', dead)))
        ⊎ ((c' : LivenessChecker) × (p : List ℕ) × (poll env c now ≡ some (c', send_packet p))
            × FoundDead env c' clock)

    after_encapsulate-checker :
        (max_size : Option ℕ) (s : WgState W F B) (r : TunnResult)
        → (after_encapsulate crates max_size s r).0.liveness_checker ≡ s.liveness_checker
    unfolding after_encapsulate
    after_encapsulate-checker max_size s (write_to_network wg_message) = refl
    after_encapsulate-checker max_size s done = refl
    after_encapsulate-checker max_size s tunn_error = refl
    after_encapsulate-checker max_size s (write_to_tunnel p) = refl

    send_single_packet-checker :
        (max_size : Option ℕ) (p : List ℕ) (s : WgState W F B)
        → (send_single_packet crates max_size p s).0.liveness_checker ≡ s.liveness_checker
    unfolding send_single_packet
    send_single_packet-checker max_size p s =
        let (wg, result) = crates.encapsulate p s.wg in
        after_encapsulate-checker max_size (record s { wg = wg }) result

    after_poll-FoundDead :
        (env : ProbeEnv) (max_size : Option ℕ) (now : ℕ) (clock : List ℕ)
        (more : WgState W F B → (WgState W F B × List (List ℕ)) × Round) (s : WgState W F B)
        (r : Option (LivenessChecker × LivenessCheckerPoll))
        → poll env s.liveness_checker now ≡ r
        → ((s1 : WgState W F B)
            → (more s1).1 ≡ returned (err tunnel_dead)
            → FoundDead env s1.liveness_checker clock)
        → (after_poll crates max_size more s r).1 ≡ returned (err tunnel_dead)
        → FoundDead env s.liveness_checker (now ∷ clock)
    unfolding after_poll
    after_poll-FoundDead env max_size now clock more s none p h e = absurd (ground arith)
    after_poll-FoundDead env max_size now clock more s (some (checker, dead)) p h e =
        inl (checker, p)
    after_poll-FoundDead env max_size now clock more s (some (checker, alive_until t)) p h e =
        absurd (ground arith)
    after_poll-FoundDead env max_size now clock more s (some (checker, send_packet x)) p h e = inr (
      checker,
      x,
      p,
      subst (λ c. FoundDead env c clock)
          (send_single_packet-checker max_size x (record s { liveness_checker = checker })) (h _ e),
    )

    poll_loop-FoundDead :
        (env : ProbeEnv) (max_size : Option ℕ) (clock : List ℕ) (s : WgState W F B)
        → (poll_loop crates env max_size clock s).1 ≡ returned (err tunnel_dead)
        → FoundDead env s.liveness_checker clock
    unfolding poll_loop
    poll_loop-FoundDead env max_size [] s e = absurd (ground arith)
    poll_loop-FoundDead env max_size (now ∷ clock) s e =
        after_poll-FoundDead env max_size now clock (λ s1. poll_loop crates env max_size clock s1) s
          (poll env s.liveness_checker now) refl
          (λ s1 g. poll_loop-FoundDead env max_size clock s1 g) e

    FoundDead-poll_loop :
        (env : ProbeEnv) (max_size : Option ℕ) (clock : List ℕ) (s : WgState W F B)
        → FoundDead env s.liveness_checker clock
        → (poll_loop crates env max_size clock s).1 ≡ returned (err tunnel_dead)
    unfolding poll_loop after_poll
    FoundDead-poll_loop env max_size [] s f = absurd f
    FoundDead-poll_loop env max_size (now ∷ clock) s (inl (c', e)) = rw e refl
    FoundDead-poll_loop env max_size (now ∷ clock) s (inr (c', p, e, f)) =
        let s1 : WgState W F B = record s { liveness_checker = c' } in
        rw e (
          FoundDead-poll_loop env max_size clock (send_single_packet crates max_size p s1).0
            (subst (λ c. FoundDead env c clock) (sym (send_single_packet-checker max_size p s1)) f))

    only_polls_find_dead :
        (fuel : ℕ) (env : ProbeEnv) (max_size : Option ℕ) (w : Wakeup) (s : WgState W F B)
        → (receive_round crates fuel env max_size w s).1 ≡ returned (err tunnel_dead)
        → (clock : List ℕ) × (w ≡ liveness_poll clock) × FoundDead env s.liveness_checker clock
    unfolding receive_round on_tick
    only_polls_find_dead fuel env max_size (timers_tick now) s e =
        absurd (timers_loop-Lives fuel _ e)
    only_polls_find_dead fuel env max_size (message now m) s e =
        let (buffer, result) = crates.reassemble m s.fragment_buffer in
        absurd
          (after_reassemble-Lives fuel env now (record s { fragment_buffer = buffer }) result e)
    only_polls_find_dead fuel env max_size (receive_failed error) s e = absurd (ground arith)
    only_polls_find_dead fuel env max_size (liveness_poll clock) s e =
        (clock, refl, poll_loop-FoundDead env max_size clock s e)

    -- A connection is found dead exactly by its liveness poll: whatever the relay or the exit sends, or
    -- boringtun makes of it, the loop that receives ends with a dead tunnel if and only if it polls the
    -- checker in that round, and the connection's own checker, polled at the instants of the round and each
    -- time after a poll that asked for a probe, says so.
    pub receive_round-dead :
        (fuel : ℕ) (env : ProbeEnv) (max_size : Option ℕ) (w : Wakeup) (s : WgState W F B)
        → ((receive_round crates fuel env max_size w s).1 ≡ returned (err tunnel_dead))
          ↔ ((clock : List ℕ) × (w ≡ liveness_poll clock) × FoundDead env s.liveness_checker clock)
    unfolding receive_round
    receive_round-dead fuel env max_size w s = (
      λ e. only_polls_find_dead fuel env max_size w s e,
      λ (clock, same, f). rw same (FoundDead-poll_loop env max_size clock s f),
    )

    -- The tries of a handshake: at most so many, each begins with the initiation, and if the time was
    -- up in the last one there were so many.
    abbrev Tried :
        List ℕ → ℕ → (W × List (List (List ℕ))) × Result WireguardHandshakeError Unit → Type 0
    Tried init n ((wg, tries), result) =
        (length tries ≤ n)
        × (All (λ sent. head? sent ≡ some init) tries)
        × (result ≡ err resp_message_timeout → length tries ≡ n)

    after_attempt-Tried :
        (init : List ℕ) (resends : ℕ)
        (more : (W × List (List (List ℕ))) × Result WireguardHandshakeError Unit)
        (r : (W × List (List ℕ)) × Result WireguardHandshakeError Unit)
        → Tried init resends more
        → Tried init (suc resends) (after_attempt crates (init ∷ []) resends more r)
    unfolding after_attempt
    after_attempt-Tried init resends more ((wg, sent), ok u) h =
        (omega arith, (refl, tt), λ e. absurd (ground arith))
    after_attempt-Tried init resends ((wg2, later), result) ((wg, sent), err resp_message_timeout)
          (few, all, timed_out) =
        elim (Bool-cases (resends == 0)) [
          | inl e ↦ rw e (omega arith, (refl, tt), λ g. ground arith)
          | inr e ↦ rw e (omega (arith, few), (refl, all), λ g. omega (arith, timed_out g))
        ]
    after_attempt-Tried init resends more ((wg, sent), err init_message_construct_error) h =
        (omega arith, (refl, tt), λ e. absurd (ground arith))
    after_attempt-Tried init resends more ((wg, sent), err loop_unfinished) h =
        (omega arith, (refl, tt), λ e. absurd (ground arith))
    after_attempt-Tried init resends more ((wg, sent), err (resp_message_receive_error g)) h =
        (omega arith, (refl, tt), λ e. absurd (ground arith))

    attempts-Tried :
        (fuel : ℕ) (init : List ℕ) (resends : ℕ) (arrivals : List (List Incoming)) (wg : W)
        → Tried init resends (attempts crates fuel init resends arrivals wg)
    unfolding attempts
    attempts-Tried fuel init zero arrivals wg = (omega arith, tt, λ e. refl)
    attempts-Tried fuel init (suc resends) arrivals wg =
        let attempt = wait_for_response crates fuel (unwrap_or (head? arrivals) []) wg in
        after_attempt-Tried init resends
          (attempts crates fuel init resends (drop 1 arrivals) attempt.0.0) attempt
          (attempts-Tried fuel init resends (drop 1 arrivals) attempt.0.0)

    -- The first handshake, where boringtun makes an initiation: it is sent at most 25 times, first of
    -- all that an attempt sends, and if the handshake fails because nothing was answered in time, then
    -- all 25 attempts were made.
    pub first_wg_handshake-tries :
        (fuel : ℕ) (arrivals : List (List Incoming)) (wg wg1 : W) (init : List ℕ)
        → crates.format_handshake_initiation wg ≡ (wg1, write_to_network init)
        → let ((wg', tries), result) = first_wg_handshake crates fuel arrivals wg in
          (length tries ≤ 25)
          × (All (λ sent. head? sent ≡ some init) tries)
          × (result ≡ err resp_message_timeout → length tries ≡ 25)
    unfolding first_wg_handshake with_init built
    first_wg_handshake-tries fuel arrivals wg wg1 init made =
        rw made (attempts-Tried fuel init first_handshake_resends arrivals wg1)
