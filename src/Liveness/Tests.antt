-- ===== src/Liveness/Tests.antt =====
-- Tests of the liveness checker, and its theorems at concrete inputs.
use obscuravpn_client.Prelude.{
  if◌then◌else◌, ℕ, zero, suc, ◌+◌, ◌<◌, true, false, none, some, List, [], ◌∷◌, ◌≡◌, ◌↔◌, refl,
  arith,
}
use obscuravpn_client.Liveness.{
  LivenessChecker, ProbeEnv, SentPing, ReceivedPong, new, secs, poll, wake, send_ping, dead,
  alive_until, next_poll, ping_period, max_lost_probes, probe_lost_period,
  lost_probe_count_and_time_of_next_loss, lost_from, probe_payload,
}
use obscuravpn_client.Liveness.Loss.{count_expired}
use obscuravpn_client.Liveness.Window.{records, all_faster}
use obscuravpn_client.Liveness.Poll.{IsValid, poll-dead}
use obscuravpn_client.Liveness.Probe.{start, call, woken, Reach-IsValid}

abbrev zeros : ℕ → List ℕ
zeros zero = []
zeros (suc n) = 0 ∷ zeros n

-- Packets that hold only the payload, answered with the identifier 0.
abbrev env : ProbeEnv
env = record {
  echo_request = λ src dst id seq payload. payload;
  echo_reply = λ packet. some (0, 0, packet);
  random_bytes = zeros;
}

abbrev fresh : LivenessChecker
fresh = record {
  next_id_seq = 0;
  mtu = 64;
  src_ip = 1;
  dst_ip = 2;
  sent_user_traffic_since_last_ping = false;
  is_waking = false;
  outstanding_pongs = [];
  last_ping_sent_at = none;
  slowest_pongs = [];
}

fresh_is_new : new 64 1 2 ≡ fresh
unfolding new
fresh_is_new = refl

abbrev ping_at : ℕ → SentPing
ping_at t = record { sent_at = secs t; id_seq = t; payload = [] }

-- Two probes are outstanding after a wake.
abbrev silent : LivenessChecker
silent = record fresh {
  is_waking = true;
  outstanding_pongs = ping_at 1 ∷ ping_at 2 ∷ [];
  last_ping_sent_at = some (secs 2);
}

silent_dies : poll env silent (secs 10) ≡ some (silent, dead)
unfolding poll lost_probe_count_and_time_of_next_loss lost_from probe_lost_period max_lost_probes
silent_dies = refl

poll-dead_example : (poll env silent (secs 10) ≡ some (silent, dead)) ↔ (
    (if silent.is_waking then 1 else 4)
    < count_expired (probe_lost_period silent) (secs 10) silent.outstanding_pongs)
poll-dead_example = poll-dead env silent (secs 10) (omega arith)

abbrev waiting : LivenessChecker
waiting = record fresh { outstanding_pongs = ping_at 1 ∷ []; last_ping_sent_at = some (secs 1) }

waits : poll env waiting (secs 1 + 5) ≡ some (waiting, alive_until (secs 2))
unfolding poll lost_probe_count_and_time_of_next_loss lost_from probe_lost_period max_lost_probes
    next_poll ping_period
waits = refl

abbrev pong : ℕ → ℕ → ReceivedPong
pong i t = record { id_seq = i; rtt = t }

abbrev past_pongs : List ReceivedPong
past_pongs = pong 1 50 ∷ pong 2 10 ∷ pong 3 20 ∷ []

past_records : records past_pongs ≡ pong 1 50 ∷ pong 3 20 ∷ []
unfolding records all_faster
past_records = refl

abbrev measured : LivenessChecker
measured = record fresh { slowest_pongs = pong 1 50 ∷ pong 3 20 ∷ [] }

-- The checker after its first probe at `t`, and the probe.
abbrev pinged : ℕ → LivenessChecker
pinged t = record fresh {
  next_id_seq = 1;
  outstanding_pongs =
      (let p : SentPing = record { sent_at = t; id_seq = 0; payload = probe_payload env 64 } in p)
      ∷ [];
  last_ping_sent_at = some t;
}

abbrev woken_at : ℕ → LivenessChecker
woken_at t = record (pinged t) { is_waking = true }

wakes : wake env (new 64 1 2) 9 ≡ some (woken_at 9, probe_payload env 64)
unfolding wake send_ping new
wakes = refl

Reach-IsValid_example : IsValid 9 (woken_at 9)
Reach-IsValid_example =
    Reach-IsValid env {mtu = 64} {src = 1} {dst = 2} (call (start 5) (omega arith) (woken wakes))
