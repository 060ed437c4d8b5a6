-- ===== src/Liveness.antt =====
-- rustlib/src/liveness.rs: probes a tunnel with pings and decides when it is dead.
-- Instants (`WakeInstant`) and durations are nanoseconds; the clock's reading is the argument
-- `now`. `none` stands for a panic, where the MTU has no room for the probe's prefix.
-- `Duration` and `WakeInstant` sums are not bounded here: they panic past 2^64 ns of uptime.
mod Window
mod Loss
mod Poll
mod Probe
mod Tests
use obscuravpn_client.Prelude.{
  ℕ, suc, ◌+◌, ◌-◌, ◌*◌, ◌/◌, ◌%◌, ◌^◌, min, max, Bool, true, false, not, ◌&&◌, ◌||◌, Option, none,
  some, List, [], ◌∷◌, ◌++◌, ltb, leb, ◌==◌, if◌then◌else◌, unwrap_or, head?, length, drop,
}

abbrev pub secs : ℕ → ℕ
secs n = n * 1000000000

abbrev pub max_allowed_lost_probes : ℕ
max_allowed_lost_probes = 4

abbrev pub max_allowed_lost_probes_after_sleep : ℕ
max_allowed_lost_probes_after_sleep = 1

abbrev pub busy_ping_period : ℕ
busy_ping_period = 1000000000

abbrev pub idle_ping_period : ℕ
idle_ping_period = 55000000000

abbrev pub min_probe_lost_period : ℕ
min_probe_lost_period = 1000000000

abbrev pub max_probe_lost_period : ℕ
max_probe_lost_period = 30000000000

abbrev pub slow_pong_window : ℕ
slow_pong_window = 100

-- The 32 bytes of `b"obs-ping\x75\xf8..."`.
abbrev pub probe_prefix : List ℕ
probe_prefix =
    0x6f ∷ 0x62 ∷ 0x73 ∷ 0x2d ∷ 0x70 ∷ 0x69 ∷ 0x6e ∷ 0x67 ∷ 0x75 ∷ 0xf8 ∷ 0xb9 ∷ 0x47 ∷ 0x4b ∷ 0xe1
    ∷ 0x61 ∷ 0xeb ∷ 0x1c ∷ 0xb1 ∷ 0xeb ∷ 0x5e ∷ 0xc0 ∷ 0x6c ∷ 0xde ∷ 0xb7 ∷ 0xa1 ∷ 0x1b ∷ 0x7b
    ∷ 0xe5 ∷ 0x85 ∷ 0xca ∷ 0x3a ∷ 0x95 ∷ []

pub record SentPing : Type 0 where
  pub sent_at : ℕ
  pub id_seq : ℕ
  pub payload : List ℕ

pub record ReceivedPong : Type 0 where
  pub id_seq : ℕ
  pub rtt : ℕ

pub record LivenessChecker : Type 0 where
  pub next_id_seq : ℕ  -- u32
  pub mtu : ℕ  -- u16
  pub src_ip : ℕ
  pub dst_ip : ℕ
  pub sent_user_traffic_since_last_ping : Bool
  pub is_waking : Bool
  pub outstanding_pongs : List SentPing
  pub last_ping_sent_at : Option ℕ
  pub slowest_pongs : List ReceivedPong

unfoldable pub new : ℕ → ℕ → ℕ → LivenessChecker
new mtu client_ip ping_target_ip = record {
  next_id_seq = 0;
  mtu = mtu;
  src_ip = client_ip;
  dst_ip = ping_target_ip;
  sent_user_traffic_since_last_ping = false;
  is_waking = false;
  outstanding_pongs = [];
  last_ping_sent_at = none;
  slowest_pongs = [];
}

-- `Ord::clamp`.
abbrev pub clamp : ℕ → ℕ → ℕ → ℕ
clamp x lo hi = if ltb x lo then lo else if ltb hi x then hi else x

abbrev doubled_front : List ReceivedPong → Option ℕ
doubled_front [] = none
doubled_front (p ∷ _) = some (p.rtt * 2)

unfoldable pub probe_lost_period : LivenessChecker → ℕ
probe_lost_period c =
    clamp (unwrap_or (doubled_front c.slowest_pongs) min_probe_lost_period) min_probe_lost_period
      max_probe_lost_period

-- The loop of `lost_probe_count_and_time_of_next_loss`, from index `i` on.
unfoldable pub lost_from : ℕ → ℕ → ℕ → List SentPing → ℕ × Option ℕ
lost_from period now i [] = (i, none)
lost_from period now i (p ∷ ps) =
    let rest = lost_from period now (suc i) ps in
    if ltb now (p.sent_at + period) then (i, some (p.sent_at + period)) else rest

unfoldable pub lost_probe_count_and_time_of_next_loss : LivenessChecker → ℕ → ℕ × Option ℕ
lost_probe_count_and_time_of_next_loss c now =
    lost_from (probe_lost_period c) now 0 c.outstanding_pongs

-- The packet builder (etherparse) and the random bytes (rand) that a probe is made of.
pub record ProbeEnv : Type 0 where
  -- An IPv4 packet with an ICMP echo request: source, destination, id, sequence number, payload.
  pub echo_request : ℕ → ℕ → ℕ → ℕ → List ℕ → List ℕ
  -- The id, sequence number and payload of an ICMP echo reply, if the packet is one.
  pub echo_reply : List ℕ → Option (ℕ × ℕ × List ℕ)
  -- That many random bytes.
  pub random_bytes : ℕ → List ℕ

-- Bytes 0 and 1, and bytes 2 and 3, of a big-endian u32.
abbrev pub id_of : ℕ → ℕ
id_of id_seq = id_seq / 65536

abbrev pub seq_of : ℕ → ℕ
seq_of id_seq = id_seq % 65536

abbrev pub id_seq_of : ℕ → ℕ → ℕ
id_seq_of id seq = id * 65536 + seq

-- The size of the IPv4 and ICMP headers.
abbrev pub overhead : ℕ
overhead = 28

module _ (env : ProbeEnv) where
  pub probe_payload : ℕ → List ℕ
  probe_payload mtu = probe_prefix ++ env.random_bytes (mtu - overhead - 32)

  pub send_ping : LivenessChecker → ℕ → Option (LivenessChecker × List ℕ)
  send_ping c now =
      let payload = probe_payload c.mtu in
      let ping : SentPing = record { sent_at = now; id_seq = c.next_id_seq; payload = payload } in
      if ltb c.mtu (overhead + 32)
      then none
      else some (
        record c {
          last_ping_sent_at = some now;
          sent_user_traffic_since_last_ping = false;
          next_id_seq = (c.next_id_seq + 1) % 2 ^ 32;
          outstanding_pongs = c.outstanding_pongs ++ ping ∷ [];
        },
        env.echo_request c.src_ip c.dst_ip (id_of c.next_id_seq) (seq_of c.next_id_seq) payload,
      )

  -- `last_ping_sent_at.is_none_or(|last| now > last + BUSY_PING_PERIOD)`.
  abbrev ping_overdue : Option ℕ → ℕ → Bool
  ping_overdue none now = true
  ping_overdue (some last) now = ltb (last + busy_ping_period) now

  abbrev with_packet :
      Option (LivenessChecker × List ℕ) → Option (LivenessChecker × Option (List ℕ))
  with_packet none = none
  with_packet (some (c, p)) = some (c, some p)

  pub sent_traffic : LivenessChecker → ℕ → Option (LivenessChecker × Option (List ℕ))
  sent_traffic c now =
      if ping_overdue c.last_ping_sent_at now
      then with_packet (send_ping c now)
      else some (record c { sent_user_traffic_since_last_ping = true }, none)

  pub wake : LivenessChecker → ℕ → Option (LivenessChecker × List ℕ)
  unfolding new
  wake c now =
      let fresh = new c.mtu c.src_ip c.dst_ip in send_ping (record fresh { is_waking = true }) now

pub data LivenessCheckerPoll : Type 0 where
  dead : LivenessCheckerPoll
  alive_until : ℕ → LivenessCheckerPoll
  send_packet : List ℕ → LivenessCheckerPoll

unfoldable pub max_lost_probes : LivenessChecker → ℕ
max_lost_probes c =
    if c.is_waking then max_allowed_lost_probes_after_sleep else max_allowed_lost_probes

pub ping_period : LivenessChecker → ℕ → ℕ
ping_period c lost_probes =
    if c.sent_user_traffic_since_last_ping || not (lost_probes == 0)
    then busy_ping_period
    else idle_ping_period

-- `last_ping_sent_at.is_none_or(|last| last + ping_period <= now)`.
abbrev pub ping_due : Option ℕ → ℕ → ℕ → Bool
ping_due none period now = true
ping_due (some last) period now = leb (last + period) now

abbrev pub min_with : ℕ → Option ℕ → ℕ
min_with t none = t
min_with t (some u) = min t u

abbrev pub plus_period : Option ℕ → ℕ → Option ℕ
plus_period none period = none
plus_period (some last) period = some (last + period)

pub next_poll : LivenessChecker → ℕ → ℕ → Option ℕ → ℕ
next_poll c now lost_probes next_probe_loss =
    min_with (min_with (now + busy_ping_period) next_probe_loss)
      (plus_period c.last_ping_sent_at (ping_period c lost_probes))

module _ (env : ProbeEnv) where
  abbrev sending :
      Option (LivenessChecker × List ℕ) → Option (LivenessChecker × LivenessCheckerPoll)
  sending none = none
  sending (some (c, p)) = some (c, send_packet p)

  unfoldable pub poll : LivenessChecker → ℕ → Option (LivenessChecker × LivenessCheckerPoll)
  poll c now =
      let (lost_probes, next_probe_loss) = lost_probe_count_and_time_of_next_loss c now in
      if ltb (max_lost_probes c) lost_probes
      then some (c, dead)
      else if ping_due c.last_ping_sent_at (ping_period c lost_probes) now
      then sending (send_ping env c now)
      else some (c, alive_until (next_poll c now lost_probes next_probe_loss))

-- Equality and prefix of byte strings.
pub bytes_eq : List ℕ → List ℕ → Bool
bytes_eq [] [] = true
bytes_eq [] (y ∷ ys) = false
bytes_eq (x ∷ xs) [] = false
bytes_eq (x ∷ xs) (y ∷ ys) = x == y && bytes_eq xs ys

pub bytes_start_with : List ℕ → List ℕ → Bool
bytes_start_with xs [] = true
bytes_start_with [] (y ∷ ys) = false
bytes_start_with (x ∷ xs) (y ∷ ys) = x == y && bytes_start_with xs ys

-- The search loop: the first probe with this id and payload, and the probes behind it, which
-- are what `drain(0..=i)` leaves.
pub find_probe : List ℕ → ℕ → List SentPing → Option (SentPing × List SentPing)
find_probe payload id_seq [] = none
find_probe payload id_seq (p ∷ ps) =
    let rest = find_probe payload id_seq ps in
    if bytes_eq p.payload payload && p.id_seq == id_seq then some (p, ps) else rest

-- `id_seq.wrapping_sub(oldest.id_seq)` on u32.
abbrev pub age : ℕ → ReceivedPong → ℕ
age id_seq p = (id_seq + 2 ^ 32 - p.id_seq) % 2 ^ 32

-- The first `while` of `update_slowest_pongs_list`: pops outdated pongs at the front.
pub pop_outdated : ℕ → List ReceivedPong → List ReceivedPong
pop_outdated id_seq [] = []
pop_outdated id_seq (p ∷ ps) =
    let rest = pop_outdated id_seq ps in
    if ltb slow_pong_window (age id_seq p) then rest else p ∷ ps

-- Puts an element at the front of what is left when a deque was popped from its back.
abbrev pub keep_front : ReceivedPong → ℕ → List ReceivedPong → List ReceivedPong
keep_front p rtt [] = if leb p.rtt rtt then [] else p ∷ []
keep_front p rtt (q ∷ qs) = p ∷ q ∷ qs

-- The second `while`: pops pongs at the back that were no slower. The back is reached first, so
-- an element is popped only if all behind it were.
pub pop_faster : ℕ → List ReceivedPong → List ReceivedPong
pop_faster rtt [] = []
pop_faster rtt (p ∷ ps) = keep_front p rtt (pop_faster rtt ps)

pub update_slowest_pongs_list : ℕ → ℕ → List ReceivedPong → List ReceivedPong
update_slowest_pongs_list id_seq rtt pongs =
    pop_faster rtt (pop_outdated id_seq pongs)
    ++ (let pong : ReceivedPong = record { id_seq = id_seq; rtt = rtt } in pong) ∷ []

abbrev accept_pong :
    LivenessChecker → ℕ → ℕ → Option (SentPing × List SentPing) → LivenessChecker × Option ℕ
accept_pong c now id_seq none = (c, none)
accept_pong c now id_seq (some (p, behind)) = (
  record c {
    slowest_pongs = update_slowest_pongs_list id_seq (now - p.sent_at) c.slowest_pongs;
    outstanding_pongs = behind;
    is_waking = false;
  },
  some (now - p.sent_at),
)

abbrev process_reply : LivenessChecker → ℕ → Option (ℕ × ℕ × List ℕ) → LivenessChecker × Option ℕ
process_reply c now none = (c, none)
process_reply c now (some (id, seq, payload)) =
    if bytes_start_with payload probe_prefix
    then accept_pong c now (id_seq_of id seq)
        (find_probe payload (id_seq_of id seq) c.outstanding_pongs)
    else (c, none)

module _ (env : ProbeEnv) where
  pub process_potential_probe_response : LivenessChecker → ℕ → List ℕ → LivenessChecker × Option ℕ
  process_potential_probe_response c now packet = process_reply c now (env.echo_reply packet)
