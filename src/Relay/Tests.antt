-- ===== src/Relay/Tests.antt =====
-- A concrete protocol with which the relay's messages are tried.
use obscuravpn_client.Prelude.{
  ℕ, ◌+◌, ◌-◌, ◌*◌, ◌/◌, ◌%◌, ◌≡◌, ◌⊎◌, refl, inl, inr, true, false, Option, none, some, List, [],
  ◌∷◌, ◌++◌, length, arith, min, if◌then◌else◌, ◌==◌,
}
use obscuravpn_client.NetworkConfig.{ok, err}
use obscuravpn_client.Relay.{
  RelayProtocol, Layout, RelayOpCode, ping, token, stop, wire_guard, other_op, ok_response,
  error_response, MessageCode, op, response, Message,
}
use obscuravpn_client.Relay.Messages.{
  Writer, send_message, write_all, flush, recv_message, read_exact, after_header, with_code, recv,
}
use obscuravpn_client.Relay.Handshake.{
  Transport, tcp_tls, received_error_response, RttRound, measure_rtt, measure_rounds, confirmed_op,
  send_op, recv_ok_resp, recv_ok_resp_no_timeout, recv_ok_resp_loop, on_message, with_timeout,
  wrote, min_with_last,
}
use obscuravpn_client.Relay.Responses.{Block, block, blocks, recv_ok_resp-answer}
use obscuravpn_client.Relay.Rtt.{requests, measure_rtt-ok}
use obscuravpn_client.Relay.Outbox.{Sender, idle, Event, send_packet, received_op, task, run_sender}
use obscuravpn_client.Relay.InOrder.{
  oks_of, packets_of, pending_oks, pending_packets, ops_of, accepted, run_sender-Kept,
}
use obscuravpn_client.Relay.Drains.{Refused, tasks, amount, run_sender-drains}
use obscuravpn_client.Relay.Framing.{Frame, wire, wires, frame, recv-send_message}
use obscuravpn_client.Relay.Progress.{Received, recv-Received}

abbrev be32 : ℕ → List ℕ
be32 n = n / 0x1000000 ∷ n / 0x10000 % 256 ∷ n / 256 % 256 ∷ n % 256 ∷ []

abbrev header_from_bytes : List ℕ → ℕ × ℕ
header_from_bytes (a ∷ b ∷ c ∷ d ∷ e ∷ f ∷ g ∷ h ∷ rest) =
    (a * 0x1000000 + b * 0x10000 + c * 256 + d, e * 0x1000000 + f * 0x10000 + g * 256 + h)
header_from_bytes _ = (0, 0)

abbrev op_number : RelayOpCode → ℕ
op_number ping = 0
op_number token = 1
op_number stop = 2
op_number wire_guard = 3
op_number (other_op n) = 4 + n

abbrev code_bytes : MessageCode → List ℕ
code_bytes (op code) = 1 ∷ 0 ∷ 0 ∷ op_number code ∷ []
code_bytes (response ok_response) = 0 ∷ 0 ∷ 0 ∷ 0 ∷ []
code_bytes (response (error_response n)) = 0 ∷ 0 ∷ 0 ∷ n ∷ []

abbrev op_from : ℕ → RelayOpCode
op_from n =
    if n == 0
    then ping
    else if n == 1
    then token
    else if n == 2
    then stop
    else if n == 3
    then wire_guard
    else other_op (n - 4)

abbrev code_from : List ℕ → ℕ → Option MessageCode
code_from (a ∷ b ∷ c ∷ d ∷ rest) context =
    if a == 1
    then some (op (op_from d))
    else if a == 0
    then some (response (if d == 0 then ok_response else error_response d))
    else none
code_from _ context = none

abbrev toy : RelayProtocol
toy = record {
  protocol_identifier = 1 ∷ 2 ∷ 3 ∷ 4 ∷ 5 ∷ 6 ∷ 7 ∷ 8 ∷ 9 ∷ 10 ∷ 11 ∷ 12 ∷ 13 ∷ 14 ∷ 15 ∷ 16 ∷ [];
  min_client_initiated = 0;
  header_bytes = λ context len. be32 context ++ be32 len;
  header_from = header_from_bytes;
  code_to_bytes = code_bytes;
  code_from_bytes = code_from;
}

code_bytes-four : (code : MessageCode) → length (code_bytes code) ≡ 4
code_bytes-four (op code) = refl
code_bytes-four (response ok_response) = refl
code_bytes-four (response (error_response n)) = refl

same_pair : (a b c d : ℕ) → a ≡ c → b ≡ d → ◌≡◌ {A = ℕ × ℕ} (a, b) (c, d)
same_pair a b c d e f = λ i. (e i, f i)

toy-Layout : Layout toy
toy-Layout = record {
  identifier_size = refl;
  header_size = λ context len. refl;
  header_read = λ context len c l. same_pair _ _ context len (omega (arith, c)) (omega (arith, l));
  code_size = code_bytes-four;
}

-- A frame with a payload that is too small, and one with a code that is not known.
abbrev ignored_frames : List Frame
ignored_frames =
    (let short : Frame = record { context = 0; payload = 7 ∷ [] } in short)
    ∷ (let unknown : Frame = record { context = 3; payload = 9 ∷ 9 ∷ 9 ∷ 9 ∷ 1 ∷ [] } in unknown)
    ∷ []

abbrev wg_message : Message
wg_message = record { code = op wire_guard; context = 300; arg = 5 ∷ 6 ∷ 7 ∷ [] }

abbrev after_ignored : Writer
after_ignored = record { written = wires toy ignored_frames; room = 100; flushes = true }

recv-send_message_example :
    let (after, result) = send_message toy (op wire_guard) 300 (5 ∷ 6 ∷ 7 ∷ []) after_ignored in
    (result ≡ ok tt) × (recv toy (after.written ++ 1 ∷ 2 ∷ []) ≡ ok (wg_message, 1 ∷ 2 ∷ []))
recv-send_message_example =
    recv-send_message toy toy-Layout ignored_frames wg_message after_ignored (1 ∷ 2 ∷ [])
      ((omega arith, omega arith, inl refl), ((omega arith, omega arith, inr (refl, refl)), tt))
      (omega arith, omega arith, refl) refl (omega arith) refl

recv-Received_example : Received 11 (recv toy (0 ∷ 0 ∷ 0 ∷ 0 ∷ 0 ∷ 0 ∷ 0 ∷ 2 ∷ 9 ∷ 9 ∷ 1 ∷ []))
recv-Received_example = recv-Received toy (0 ∷ 0 ∷ 0 ∷ 0 ∷ 0 ∷ 0 ∷ 0 ∷ 2 ∷ 9 ∷ 9 ∷ 1 ∷ [])

-- A ping of the relay, and then its refusal.
abbrev relay_ping : Block
relay_ping = record {
  noise = ignored_frames;
  message = (let m : Message = record { code = op ping; context = 900; arg = [] } in m);
}

abbrev refusal : Block
refusal = record {
  noise = [];
  message =
      (let m : Message = record {
        code = response (error_response 5);
        context = 0;
        arg = 65 ∷ [];
      } in
        m);
}

recv_ok_resp-answer_example :
    recv_ok_resp_no_timeout toy (blocks toy (relay_ping ∷ []) ++ (block toy refusal ++ 8 ∷ []))
    ≡ err (received_error_response 5 (65 ∷ []))
recv_ok_resp-answer_example =
    recv_ok_resp-answer toy toy-Layout (relay_ping ∷ []) refusal (error_response 5) (8 ∷ [])
      (
        (
          (
            (
              (omega arith, omega arith, inl refl),
              ((omega arith, omega arith, inr (refl, refl)), tt),
            ),
            (omega arith, omega arith, refl),
          ),
          inl (ping, refl),
        ),
        tt,
      )
      (tt, (omega arith, omega arith, refl)) refl refl

-- Three confirmations.
abbrev confirmations : List ℕ
confirmations =
    wire toy (frame toy confirmation)
    ++ (wire toy (frame toy confirmation) ++ wire toy (frame toy confirmation))
  where
    confirmation : Message
    confirmation = record { code = response ok_response; context = 0; arg = [] }

abbrev measured : Transport
measured = record {
  kind = tcp_tls;
  reading = confirmations;
  writing = (let w : Writer = record { written = []; room = 100; flushes = true } in w);
}

abbrev round_until : ℕ → RttRound
round_until t = record { send_expired = false; recv_expired = false; end_time = t }

abbrev after_pings : Transport
after_pings = record {
  kind = tcp_tls;
  reading = [];
  writing =
      (let w : Writer = record { written = requests toy ping 3; room = 64; flushes = true } in w);
}

three_pings :
    measure_rtt toy (round_until 30) (round_until 45) (round_until 70) 10 measured
    ≡ ok (15, after_pings)
unfolding measure_rtt measure_rounds confirmed_op send_op recv_ok_resp recv_ok_resp_no_timeout
    recv_ok_resp_loop on_message with_timeout wrote min_with_last send_message recv write_all flush
    recv_message read_exact after_header with_code
three_pings = refl

measure_rtt-ok_example :
    (after_pings.writing.written ≡ measured.writing.written ++ requests toy ping 3)
    × (◌≡◌ {A = ℕ} 15 (min (min (30 - 10) (45 - 30)) (70 - 45)))
measure_rtt-ok_example =
    measure_rtt-ok toy (round_until 30) (round_until 45) (round_until 70) 10 15 measured after_pings
      three_pings (omega arith) (omega arith) (omega arith) (omega arith)

abbrev arrivals : List Event
arrivals =
    send_packet (1 ∷ [])
    ∷ task
    ∷ received_op 7
    ∷ send_packet (2 ∷ [])
    ∷ task
    ∷ task
    ∷ received_op 8
    ∷ task
    ∷ []

abbrev fresh : Sender
fresh = idle (record { written = []; room = 1000; flushes = true })

run_sender-Kept_example :
    let (s', sent) = run_sender toy arrivals fresh in
    (oks_of sent ++ pending_oks s' ≡ pending_oks fresh ++ ops_of arrivals)
    × (packets_of sent ++ pending_packets s' ≡ pending_packets fresh ++ accepted toy arrivals fresh)
run_sender-Kept_example = run_sender-Kept toy arrivals fresh

abbrev queued : Sender
queued = record fresh {
  traffic_state = record { queued_oks = 7 ∷ 8 ∷ []; queued_packets = (1 ∷ []) ∷ [] };
}

run_sender-drains_example :
    let (s', sent) = run_sender toy (tasks 6) queued in
    ((s'.ended ≡ true) × Refused toy s')
    ⊎ ((s'.ended ≡ false)
        × (oks_of sent ≡ pending_oks queued)
        × (packets_of sent ≡ pending_packets queued)
        × (amount s' ≡ 0))
run_sender-drains_example = run_sender-drains toy 6 queued refl (omega arith)
