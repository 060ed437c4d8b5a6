-- ===== src/Relay/Idle.antt =====
-- Rounds of rustlib/src/quicwg.rs in which nothing is received: the timers and the liveness poll.
use obscuravpn_client.Prelude.{
  ℕ, zero, suc, ◌+◌, ◌≡◌, refl, Option, none, some, List, [], ◌∷◌, subst, ◌++◌,
}
use obscuravpn_client.NetworkConfig.{ok, err}
use obscuravpn_client.Tunnel.{QuicWgTrafficStats}
use obscuravpn_client.Liveness.{
  LivenessChecker, ProbeEnv, poll, LivenessCheckerPoll, dead, alive_until, send_packet,
}
use obscuravpn_client.Relay.Conn.{Crates, WgState, no_ticks, send_single_packet}
use obscuravpn_client.Relay.Receive.{
  ControlFlow, continue, break_none, break_packet, handle_result, Round, again, unfinished,
  panicked, returned, after_update, timers_loop, on_tick, after_poll, poll_loop, wg_timer_tick,
}
use obscuravpn_client.Relay.Sending.{send_single_packet-traffic}

module _ {W F B : Type 0} where
  -- The round returns nothing that was received, and counts nothing.
  abbrev pub NothingCounted : QuicWgTrafficStats → (WgState W F B × List (List ℕ)) × Round → Type 0
  NothingCounted t ((s', out), returned (ok r)) = ⊥
  NothingCounted t ((s', out), round) = s'.traffic_stats ≡ t

  NothingCounted-same :
      (t u : QuicWgTrafficStats) (r : (WgState W F B × List (List ℕ)) × Round)
      → u ≡ t
      → NothingCounted u r
      → NothingCounted t r
  NothingCounted-same t u r e c = subst (λ v. NothingCounted v r) e c

  NothingCounted-more :
      (t : QuicWgTrafficStats) (out : List (List ℕ)) (r : (WgState W F B × List (List ℕ)) × Round)
      → NothingCounted t r
      → NothingCounted t ((r.0.0, out ++ r.0.1), r.1)
  NothingCounted-more t out ((s', sent), again) c = c
  NothingCounted-more t out ((s', sent), unfinished) c = c
  NothingCounted-more t out ((s', sent), panicked) c = c
  NothingCounted-more t out ((s', sent), returned (err e)) c = c
  NothingCounted-more t out ((s', sent), returned (ok r)) c = c

  module _ (crates : Crates W F B) where
    after_update-NothingCounted :
        (more : WgState W F B → (WgState W F B × List (List ℕ)) × Round) (s : WgState W F B)
        (r : ControlFlow × List (List ℕ))
        → NothingCounted s.traffic_stats (more s)
        → NothingCounted s.traffic_stats (after_update crates more s r)
    unfolding after_update
    after_update-NothingCounted more s (continue, out) h =
        NothingCounted-more s.traffic_stats out (more s) h
    after_update-NothingCounted more s (break_none, out) h = refl
    after_update-NothingCounted more s (break_packet p, out) h =
        NothingCounted-more s.traffic_stats out (more s) h

    timers_loop-NothingCounted :
        (fuel : ℕ) (s : WgState W F B) → NothingCounted s.traffic_stats (timers_loop crates fuel s)
    unfolding timers_loop
    timers_loop-NothingCounted zero s = refl
    timers_loop-NothingCounted (suc fuel) s =
        let (wg, result) = crates.update_timers s.wg in
        after_update-NothingCounted (λ s1. timers_loop crates fuel s1) (record s { wg = wg })
          (handle_result result) (timers_loop-NothingCounted fuel _)

    ticked :
        (t : QuicWgTrafficStats) (at : ℕ) (r : (WgState W F B × List (List ℕ)) × Round)
        → NothingCounted t r
        → NothingCounted t ((record (r.0.0) { next_wg_timers_tick = at }, r.0.1), r.1)
    ticked t at ((s', sent), again) k = k
    ticked t at ((s', sent), unfinished) k = k
    ticked t at ((s', sent), panicked) k = k
    ticked t at ((s', sent), returned (err e)) k = k
    ticked t at ((s', sent), returned (ok r)) k = k

    pub on_tick-NothingCounted :
        (fuel now : ℕ) (s : WgState W F B)
        → NothingCounted s.traffic_stats (on_tick crates fuel now s)
    unfolding on_tick
    on_tick-NothingCounted fuel now s =
        let s1 = record s { tick_stats = no_ticks } in
        ticked s.traffic_stats (now + wg_timer_tick) (timers_loop crates fuel s1)
          (timers_loop-NothingCounted fuel s1)

    after_poll-NothingCounted :
        (max_size : Option ℕ) (more : WgState W F B → (WgState W F B × List (List ℕ)) × Round)
        (s : WgState W F B) (r : Option (LivenessChecker × LivenessCheckerPoll))
        → ((s1 : WgState W F B) → NothingCounted s1.traffic_stats (more s1))
        → NothingCounted s.traffic_stats (after_poll crates max_size more s r)
    unfolding after_poll
    after_poll-NothingCounted max_size more s none h = refl
    after_poll-NothingCounted max_size more s (some (checker, dead)) h = refl
    after_poll-NothingCounted max_size more s (some (checker, alive_until t)) h = refl
    after_poll-NothingCounted max_size more s (some (checker, send_packet p)) h =
        let (s1, out) =
          send_single_packet crates max_size p (record s { liveness_checker = checker }) in
        NothingCounted-more s.traffic_stats out (more s1) (
          NothingCounted-same s.traffic_stats s1.traffic_stats (more s1)
            (send_single_packet-traffic crates max_size p (record s { liveness_checker = checker }))
            (h s1))

    pub poll_loop-NothingCounted :
        (env : ProbeEnv) (max_size : Option ℕ) (clock : List ℕ) (s : WgState W F B)
        → NothingCounted s.traffic_stats (poll_loop crates env max_size clock s)
    unfolding poll_loop
    poll_loop-NothingCounted env max_size [] s = refl
    poll_loop-NothingCounted env max_size (now ∷ clock) s =
        after_poll-NothingCounted max_size (λ s1. poll_loop crates env max_size clock s1) s
          (poll env s.liveness_checker now) (λ s1. poll_loop-NothingCounted env max_size clock s1)
