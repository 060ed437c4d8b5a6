-- ===== src/Relay/Conn.antt =====
-- `QuicWgConn` of rustlib/src/quicwg.rs: WireGuard over a relay. The crates boringtun and
-- obscuravpn_api (fragments) are a parameter, with the states that they keep. What is handed to
-- `send_wg_message` is a list in order, and the clock is an argument. Log lines are left out.
use obscuravpn_client.Prelude.{
  ℕ, ◌+◌, ◌-◌, ◌%◌, ◌^◌, min, max, Bool, Option, none, some, List, [], ◌∷◌, ◌++◌, length, unwrap_or,
}
use obscuravpn_client.Tunnel.{QuicWgTrafficStats}
use obscuravpn_client.Liveness.{LivenessChecker, ProbeEnv, sent_traffic}

-- boringtun's results; packets to the tunnel of both families are one case.
pub data TunnResult : Type 0 where
  done tunn_error : TunnResult
  write_to_network write_to_tunnel : List ℕ → TunnResult

pub data ReassembleResult : Type 0 where
  not_fragmented reassembled : List ℕ → ReassembleResult
  unmatched_fragment : ℕ → ReassembleResult

-- `Tunn`, `WgMessageFragmenter` and `WgFragmentBuffer`, with their states.
pub record Crates (W F B : Type 0) : Type 0 where
  pub encapsulate : List ℕ → W → W × TunnResult
  pub decapsulate : List ℕ → W → W × TunnResult
  pub update_timers : W → W × TunnResult
  pub format_handshake_initiation : W → W × TunnResult
  pub has_handshake : W → Bool
  pub fragment : List ℕ → ℕ → F → F × (List ℕ × Option (List ℕ))
  pub reassemble : List ℕ → B → B × ReassembleResult

pub record TickStats : Type 0 where
  pub ip_tx_count : ℕ
  pub wg_tx_count : ℕ
  pub wg_tx_fragmented_count : ℕ
  pub ip_rx_count : ℕ
  pub wg_rx_count : ℕ
  pub wg_rx_fragment_buffered_count : ℕ
  pub wg_rx_fragment_reassembled_count : ℕ
  pub wg_rx_fragment_max_message_size : Option ℕ
  pub min_ip_tx_size : Option ℕ
  pub max_ip_tx_size : Option ℕ
  pub min_ip_rx_size : Option ℕ
  pub max_ip_rx_size : Option ℕ

abbrev pub no_ticks : TickStats
no_ticks = record {
  ip_tx_count = 0;
  wg_tx_count = 0;
  wg_tx_fragmented_count = 0;
  ip_rx_count = 0;
  wg_rx_count = 0;
  wg_rx_fragment_buffered_count = 0;
  wg_rx_fragment_reassembled_count = 0;
  wg_rx_fragment_max_message_size = none;
  min_ip_tx_size = none;
  max_ip_tx_size = none;
  min_ip_rx_size = none;
  max_ip_rx_size = none;
}

pub record WgState (W F B : Type 0) : Type 0 where
  pub next_wg_timers_tick : ℕ
  pub next_liveness_poll : ℕ
  pub tick_stats : TickStats
  pub traffic_stats : QuicWgTrafficStats
  pub wg : W
  pub liveness_checker : LivenessChecker
  pub fragmenter : F
  pub fragment_buffer : B

abbrev pub u64_max : ℕ
u64_max = 2 ^ 64 - 1

-- `+=` on `Saturating<u64>`, and on u64 as compiled for release.
unfoldable pub saturating : ℕ → ℕ → ℕ
saturating n k = min (n + k) u64_max

unfoldable pub wrapping : ℕ → ℕ → ℕ
wrapping n k = (n + k) % 2 ^ 64

-- `Some(x.unwrap_or(usize::MAX).min(n))` and `Some(x.unwrap_or(0).max(n))`.
unfoldable pub least : Option ℕ → ℕ → Option ℕ
least x n = some (min (unwrap_or x u64_max) n)

unfoldable pub greatest : Option ℕ → ℕ → Option ℕ
greatest x n = some (max (unwrap_or x 0) n)

abbrev pub count_of : {A : Type 0} → Option A → ℕ
count_of none = 0
count_of (some x) = 1

abbrev pub listed : {A : Type 0} → Option A → List A
listed none = []
listed (some x) = x ∷ []

-- The first message and the second, if there are two.
unfoldable pub fragmented :
    {W F B : Type 0} → Crates W F B → Option ℕ → List ℕ → F → F × (List ℕ × Option (List ℕ))
fragmented crates none wg_message f = (f, (wg_message, none))
fragmented crates (some max_size) wg_message f = crates.fragment wg_message max_size f

module _ {W F B : Type 0} (crates : Crates W F B) where
  -- `send_single_packet`: what boringtun made of the packet is sent.
  unfoldable pub after_encapsulate :
      Option ℕ → WgState W F B → TunnResult → WgState W F B × List (List ℕ)
  after_encapsulate max_size s (write_to_network wg_message) =
      let (fragmenter, (first, second)) = fragmented crates max_size wg_message s.fragmenter in
      let ticks = s.tick_stats in
      (
        record s {
          fragmenter = fragmenter;
          tick_stats = record ticks {
            wg_tx_count = saturating ticks.wg_tx_count 1;
            wg_tx_fragmented_count = saturating ticks.wg_tx_fragmented_count (count_of second);
          };
        },
        first ∷ listed second,
      )
  after_encapsulate max_size s done = (s, [])
  after_encapsulate max_size s tunn_error = (s, [])
  after_encapsulate max_size s (write_to_tunnel packet) = (s, [])

  unfoldable pub send_single_packet :
      Option ℕ → List ℕ → WgState W F B → WgState W F B × List (List ℕ)
  send_single_packet max_size packet s =
      let (wg, result) = crates.encapsulate packet s.wg in
      after_encapsulate max_size (record s { wg = wg }) result

  -- The counts of a packet that is sent.
  unfoldable pub count_sent : List ℕ → WgState W F B → WgState W F B
  count_sent packet s =
      let traffic = s.traffic_stats in
      let ticks = s.tick_stats in
      record s {
        traffic_stats = record traffic { tx_bytes = wrapping traffic.tx_bytes (length packet) };
        tick_stats = record ticks {
          ip_tx_count = saturating ticks.ip_tx_count 1;
          min_ip_tx_size = least ticks.min_ip_tx_size (length packet);
          max_ip_tx_size = greatest ticks.max_ip_tx_size (length packet);
        };
      }

  unfoldable pub send_packets :
      Option ℕ → List (List ℕ) → WgState W F B → WgState W F B × List (List ℕ)
  send_packets max_size [] s = (s, [])
  send_packets max_size (packet ∷ packets) s =
      let (s1, sent) = send_single_packet max_size packet (count_sent packet s) in
      let (s2, more) = send_packets max_size packets s1 in (s2, sent ++ more)

  -- A probe is sent before the packets, if it is time for one.
  unfoldable pub send_probe :
      Option ℕ → Option (List ℕ) → WgState W F B → WgState W F B × List (List ℕ)
  send_probe max_size none s = (s, [])
  send_probe max_size (some packet) s = send_single_packet max_size packet s

  unfoldable pub with_checker :
      Option (LivenessChecker × Option (List ℕ))
      → Option ℕ
      → List (List ℕ)
      → WgState W F B
      → Option (WgState W F B × List (List ℕ))
  with_checker none max_size packets s = none
  with_checker (some (checker, probe)) max_size packets s =
      let (s1, sent) = send_probe max_size probe (record s { liveness_checker = checker }) in
      let (s2, more) = send_packets max_size packets s1 in some (s2, sent ++ more)

  -- `send`; `none` is a panic of the liveness checker.
  unfoldable pub send :
      ProbeEnv
      → ℕ
      → Option ℕ
      → List (List ℕ)
      → WgState W F B
      → Option (WgState W F B × List (List ℕ))
  send env now max_size packets s =
      with_checker (sent_traffic env s.liveness_checker now) max_size packets s
