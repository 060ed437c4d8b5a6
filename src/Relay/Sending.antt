-- ===== src/Relay/Sending.antt =====
-- What sending over a connection of rustlib/src/quicwg.rs does to its traffic statistics.
use obscuravpn_client.Prelude.{
  ℕ, ◌+◌, ◌%◌, ◌^◌, ◌<◌, ◌≡◌, refl, sym, ap, ◌∙◌, Option, none, some, List, [], ◌∷◌, length,
  unwrap_or, arith,
}
use obscuravpn_client.Tunnel.{QuicWgTrafficStats}
use obscuravpn_client.Liveness.{LivenessChecker, ProbeEnv, sent_traffic}
use obscuravpn_client.Relay.Conn.{
  TunnResult, done, tunn_error, write_to_network, write_to_tunnel, Crates, WgState, wrapping,
  after_encapsulate, send_single_packet, count_sent, send_packets, send_probe, with_checker, send,
}

abbrev pub total_length : List (List ℕ) → ℕ
total_length [] = 0
total_length (p ∷ ps) = length p + total_length ps

module _ {W F B : Type 0} (crates : Crates W F B) where
  after_encapsulate-traffic :
      (max_size : Option ℕ) (s : WgState W F B) (r : TunnResult)
      → (after_encapsulate crates max_size s r).0.traffic_stats ≡ s.traffic_stats
  unfolding after_encapsulate
  after_encapsulate-traffic max_size s (write_to_network wg_message) = refl
  after_encapsulate-traffic max_size s done = refl
  after_encapsulate-traffic max_size s tunn_error = refl
  after_encapsulate-traffic max_size s (write_to_tunnel p) = refl

  pub send_single_packet-traffic :
      (max_size : Option ℕ) (p : List ℕ) (s : WgState W F B)
      → (send_single_packet crates max_size p s).0.traffic_stats ≡ s.traffic_stats
  unfolding send_single_packet
  send_single_packet-traffic max_size p s =
      let (wg, result) = crates.encapsulate p s.wg in
      after_encapsulate-traffic max_size (record s { wg = wg }) result

  -- The statistics with that many more bytes sent.
  abbrev pub sent_more : QuicWgTrafficStats → ℕ → QuicWgTrafficStats
  sent_more t n = record t { tx_bytes = (t.tx_bytes + n) % 2 ^ 64 }

  sent_more-more :
      (t : QuicWgTrafficStats) (m n : ℕ) → sent_more (sent_more t m) n ≡ sent_more t (m + n)
  sent_more-more t m n = ap (λ (b : ℕ). record t { tx_bytes = b }) (omega arith)

  sent_more-nothing : (t : QuicWgTrafficStats) → t.tx_bytes < 2 ^ 64 → sent_more t 0 ≡ t
  sent_more-nothing t h = ap (λ (b : ℕ). record t { tx_bytes = b }) (omega (arith, h))

  count_sent-traffic :
      (p : List ℕ) (s : WgState W F B)
      → (count_sent crates p s).traffic_stats ≡ sent_more s.traffic_stats (length p)
  unfolding count_sent wrapping
  count_sent-traffic p s = refl

  send_packets-traffic :
      (max_size : Option ℕ) (ps : List (List ℕ)) (s : WgState W F B)
      → s.traffic_stats.tx_bytes < 2 ^ 64
      → (send_packets crates max_size ps s).0.traffic_stats
        ≡ sent_more s.traffic_stats (total_length ps)
  unfolding send_packets
  send_packets-traffic max_size [] s h = sym (sent_more-nothing s.traffic_stats h)
  send_packets-traffic max_size (p ∷ ps) s h =
      let (s1, sent) = send_single_packet crates max_size p (count_sent crates p s) in
      let same =
        send_single_packet-traffic max_size p (count_sent crates p s) ∙ count_sent-traffic p s in
      let bound : s1.traffic_stats.tx_bytes < 2 ^ 64 =
        omega (arith, ap (λ (t : QuicWgTrafficStats). t.tx_bytes) same) in
      send_packets-traffic max_size ps s1 bound
      ∙ ap (λ t. sent_more t (total_length ps)) same
      ∙ sent_more-more s.traffic_stats (length p) (total_length ps)

  send_probe-traffic :
      (max_size : Option ℕ) (probe : Option (List ℕ)) (s : WgState W F B)
      → (send_probe crates max_size probe s).0.traffic_stats ≡ s.traffic_stats
  unfolding send_probe
  send_probe-traffic max_size none s = refl
  send_probe-traffic max_size (some p) s = send_single_packet-traffic max_size p s

  with_checker-traffic :
      (r : Option (LivenessChecker × Option (List ℕ))) (max_size : Option ℕ) (ps : List (List ℕ))
      (s s' : WgState W F B) (out : List (List ℕ))
      → s.traffic_stats.tx_bytes < 2 ^ 64
      → with_checker crates r max_size ps s ≡ some (s', out)
      → s'.traffic_stats ≡ sent_more s.traffic_stats (total_length ps)
  unfolding with_checker
  with_checker-traffic none max_size ps s s' out h e = absurd (ground arith)
  with_checker-traffic (some (checker, probe)) max_size ps s s' out h e =
      let probed = send_probe crates max_size probe (record s { liveness_checker = checker }) in
      let same = send_probe-traffic max_size probe (record s { liveness_checker = checker }) in
      let result = send_packets crates max_size ps probed.0 in
      let here : result.0 ≡ s' =
        ap (λ (r : Option (WgState W F B × List (List ℕ))). (unwrap_or r (s', out)).0) e in
      ap (λ (x : WgState W F B). x.traffic_stats) (sym here)
      ∙ send_packets-traffic max_size ps probed.0
          (omega (arith, h, ap (λ (t : QuicWgTrafficStats). t.tx_bytes) same))
      ∙ ap (λ t. sent_more t (total_length ps)) same

  -- Sending packets adds the sum of their lengths to the bytes sent, modulo 2^64, and changes no
  -- other number of the traffic statistics; a probe that is sent with them is not counted.
  pub send-traffic :
      (env : ProbeEnv) (now : ℕ) (max_size : Option ℕ) (ps : List (List ℕ)) (s s' : WgState W F B)
      (out : List (List ℕ))
      → s.traffic_stats.tx_bytes < 2 ^ 64
      → send crates env now max_size ps s ≡ some (s', out)
      → s'.traffic_stats ≡ sent_more s.traffic_stats (total_length ps)
  unfolding send
  send-traffic env now max_size ps s s' out h e =
      with_checker-traffic (sent_traffic env s.liveness_checker now) max_size ps s s' out h e
