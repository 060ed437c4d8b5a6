-- ===== src/Relay/Rounds.antt =====
-- The loops of a round of receiving, in rustlib/src/quicwg.rs, come to an end.
use obscuravpn_client.Prelude.{ℕ, zero, suc, ◌<◌, ◌≡◌, ◌≢◌, refl, ap, List, [], arith}
use obscuravpn_client.Liveness.{ProbeEnv}
use obscuravpn_client.Relay.Conn.{
  TunnResult, done, tunn_error, write_to_network, write_to_tunnel, Crates, WgState,
}
use obscuravpn_client.Relay.Receive.{
  break_none, handle_result, Round, unfinished, after_decapsulate, decapsulate_loop, after_update,
  timers_loop, count_wg_tx,
}

-- boringtun's documented use: `decapsulate` of an empty message, and `update_timers`, give a message to
-- the network only while some are queued, and take it from the queue.
pub record EmptiesQueue {W F B : Type 0} (crates : Crates W F B) : Type 0 where
  pub queue : W → ℕ
  pub decapsulate_takes :
      (w w' : W) (m : List ℕ)
      → crates.decapsulate [] w ≡ (w', write_to_network m)
      → queue w' < queue w
  pub timers_take :
      (w w' : W) (r : TunnResult)
      → crates.update_timers w ≡ (w', r)
      → (handle_result r).0 ≢ break_none
      → queue w' < queue w

module _ {W F B : Type 0} (crates : Crates W F B) (empties : EmptiesQueue crates) where
  after_decapsulate-ends :
      (more : WgState W F B → (WgState W F B × List (List ℕ)) × Round) (env : ProbeEnv) (now : ℕ)
      (s : WgState W F B) (r : TunnResult)
      → ((m : List ℕ) → r ≡ write_to_network m → (more (count_wg_tx s)).1 ≢ unfinished)
      → (after_decapsulate more env now s r).1 ≢ unfinished
  unfolding after_decapsulate
  after_decapsulate-ends more env now s done h = λ e. ground arith
  after_decapsulate-ends more env now s tunn_error h = λ e. ground arith
  after_decapsulate-ends more env now s (write_to_network m) h = h m refl
  after_decapsulate-ends more env now s (write_to_tunnel p) h = λ e. ground arith

  count_wg_tx-wg : (s : WgState W F B) → (count_wg_tx s).wg ≡ s.wg
  unfolding count_wg_tx
  count_wg_tx-wg s = refl

  decapsulate_loop-ends :
      (fuel : ℕ) (env : ProbeEnv) (now : ℕ) (s : WgState W F B)
      → empties.queue s.wg < fuel
      → (decapsulate_loop crates fuel env now [] s).1 ≢ unfinished
  unfolding decapsulate_loop
  decapsulate_loop-ends zero env now s h = absurd (omega (arith, h))
  decapsulate_loop-ends (suc fuel) env now s h =
      let (wg, result) = crates.decapsulate [] s.wg in
      let s1 : WgState W F B = record s { wg = wg } in
      after_decapsulate-ends (λ s2. decapsulate_loop crates fuel env now [] s2) env now s1 result
        (λ m e.
          let less = empties.decapsulate_takes s.wg wg m (λ i. (wg, e i)) in
          decapsulate_loop-ends fuel env now (count_wg_tx s1)
            (omega (arith, h, less, ap empties.queue (count_wg_tx-wg s1))))

  -- Receiving a message does not ask boringtun forever: with more rounds than it has queued once it has
  -- seen the message, and one for the message itself, the loop ends.
  pub decapsulate_loop-message :
      (fuel : ℕ) (env : ProbeEnv) (now : ℕ) (m : List ℕ) (s : WgState W F B)
      → empties.queue (crates.decapsulate m s.wg).0 < fuel
      → (decapsulate_loop crates (suc fuel) env now m s).1 ≢ unfinished
  unfolding decapsulate_loop
  decapsulate_loop-message fuel env now m s h =
      let (wg, result) = crates.decapsulate m s.wg in
      let s1 : WgState W F B = record s { wg = wg } in
      after_decapsulate-ends (λ s2. decapsulate_loop crates fuel env now [] s2) env now s1 result
        (λ x e.
          decapsulate_loop-ends fuel env now (count_wg_tx s1)
            (omega (arith, h, ap empties.queue (count_wg_tx-wg s1))))

  after_update-ends :
      (more : WgState W F B → (WgState W F B × List (List ℕ)) × Round) (s : WgState W F B)
      (r : TunnResult)
      → ((handle_result r).0 ≢ break_none → (more s).1 ≢ unfinished)
      → (after_update crates more s (handle_result r)).1 ≢ unfinished
  unfolding after_update handle_result
  after_update-ends more s done h = λ e. ground arith
  after_update-ends more s tunn_error h = λ e. ground arith
  after_update-ends more s (write_to_network m) h = h (λ e. ground arith)
  after_update-ends more s (write_to_tunnel p) h = h (λ e. ground arith)

  -- The loop over the timers ends with more rounds than boringtun has queued.
  pub timers_loop-ends :
      (fuel : ℕ) (s : WgState W F B)
      → empties.queue s.wg < fuel
      → (timers_loop crates fuel s).1 ≢ unfinished
  unfolding timers_loop
  timers_loop-ends zero s h = absurd (omega (arith, h))
  timers_loop-ends (suc fuel) s h =
      let (wg, result) = crates.update_timers s.wg in
      let s1 : WgState W F B = record s { wg = wg } in
      after_update-ends (λ s2. timers_loop crates fuel s2) s1 result
        (λ more.
          let less = empties.timers_take s.wg wg result refl more in
          timers_loop-ends fuel s1 (omega (arith, h, less)))
