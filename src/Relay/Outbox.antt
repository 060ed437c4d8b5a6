-- ===== src/Relay/Outbox.antt =====
-- WireGuard messages over TLS in rustlib/src/quicwg.rs: `WgTrafficState`, the queue of what the task of
-- `into_wg_send_recv` writes, and what `receive_wg_message` reads. A step of the task is what it does
-- from one point where others may change the queues to the next.
use obscuravpn_client.Prelude.{
  ℕ, zero, suc, Bool, true, false, Option, none, some, List, [], ◌∷◌, ◌++◌, length, ltb,
  if◌then◌else◌,
}
use obscuravpn_client.NetworkConfig.{Result, ok, err}
use obscuravpn_client.Relay.{
  RelayProtocol, wire_guard, ok_response, error_response, MessageCode, op, response, Message,
  IoError, stuck, relay_error, unexpected_op_code,
}
use obscuravpn_client.Relay.Messages.{Writer, send_message, recv}

pub record WgTrafficState : Type 0 where
  pub queued_oks : List ℕ
  pub queued_packets : List (List ℕ)

abbrev pub max_queued : ℕ
max_queued = 1000

-- `send_wg_message` over TLS: a message that finds the queue full is dropped.
unfoldable pub send_wg_message : List ℕ → WgTrafficState → WgTrafficState
send_wg_message wg_message s =
    if ltb (length s.queued_packets) max_queued
    then record s { queued_packets = s.queued_packets ++ wg_message ∷ [] }
    else s

unfoldable pub queue_ok : ℕ → WgTrafficState → WgTrafficState
queue_ok context_id s = record s { queued_oks = s.queued_oks ++ context_id ∷ [] }

-- The queues, what the task has in hand, and the writing end. Once the task has ended it does
-- nothing more, and what it had in hand is what it could not write.
pub record Sender : Type 0 where
  pub traffic_state : WgTrafficState
  pub oks_in_progress : List ℕ
  pub packet_in_progress : Option (List ℕ)
  pub writing : Writer
  pub ended : Bool

-- The start of `into_wg_send_recv`.
abbrev pub idle : Writer → Sender
idle w = record {
  traffic_state = record { queued_oks = []; queued_packets = [] };
  oks_in_progress = [];
  packet_in_progress = none;
  writing = w;
  ended = false;
}

-- The closure of `send_if_modified`: all acknowledgements, or else one packet.
unfoldable pub take_work : List ℕ → List (List ℕ) → Sender → Sender
take_work (o ∷ oks) packets s = record s {
  traffic_state = record { queued_oks = s.oks_in_progress; queued_packets = packets };
  oks_in_progress = o ∷ oks;
}
take_work [] (packet ∷ packets) s = record s {
  traffic_state = record { queued_oks = []; queued_packets = packets };
  packet_in_progress = some packet;
}
take_work [] [] s = s

abbrev pub packet_message : RelayProtocol → List ℕ → Message
packet_message p packet = record {
  code = op wire_guard;
  context = p.min_client_initiated;
  arg = packet;
}

abbrev pub ok_message : ℕ → Message
ok_message context_id = record { code = response ok_response; context = context_id; arg = [] }

-- The state and the messages that were written.
unfoldable pub after_packet :
    Message → Sender → Writer × Result IoError Unit → Sender × List Message
after_packet m s (w, ok u) = (record s { writing = w; packet_in_progress = none }, m ∷ [])
after_packet m s (w, err e) = (record s { writing = w; ended = true }, [])

unfoldable pub after_ok :
    Message → List ℕ → Sender → Writer × Result IoError Unit → Sender × List Message
after_ok m rest s (w, ok u) = (record s { writing = w; oks_in_progress = rest }, m ∷ [])
after_ok m rest s (w, err e) = (record s { writing = w; ended = true }, [])

-- A message is written.
abbrev pub write_message : RelayProtocol → Message → Writer → Writer × Result IoError Unit
write_message p m w = send_message p m.code m.context m.arg w

-- What the task does next: the packet in hand, or else an acknowledgement in hand, or else it looks
-- into the queues.
unfoldable pub work : RelayProtocol → Option (List ℕ) → List ℕ → Sender → Sender × List Message
work p (some packet) oks s =
    after_packet (packet_message p packet) s (write_message p (packet_message p packet) s.writing)
work p none (o ∷ oks) s = after_ok (ok_message o) oks s (write_message p (ok_message o) s.writing)
work p none [] s = (take_work s.traffic_state.queued_oks s.traffic_state.queued_packets s, [])

unfoldable pub proceed : RelayProtocol → Sender → Sender × List Message
proceed p s = if s.ended then (s, []) else work p s.packet_in_progress s.oks_in_progress s

-- A packet is to be sent, an operation of the relay was received, or the task goes on.
pub data Event : Type 0 where
  send_packet : List ℕ → Event
  received_op : ℕ → Event
  task : Event

unfoldable pub step : RelayProtocol → Event → Sender → Sender × List Message
step p (send_packet packet) s =
    (record s { traffic_state = send_wg_message packet s.traffic_state }, [])
step p (received_op context_id) s =
    (record s { traffic_state = queue_ok context_id s.traffic_state }, [])
step p task s = proceed p s

-- What is written while the events happen in order.
unfoldable pub run_sender : RelayProtocol → List Event → Sender → Sender × List Message
run_sender p [] s = (s, [])
run_sender p (e ∷ es) s =
    let (s1, sent) = step p e s in let (s2, more) = run_sender p es s1 in (s2, sent ++ more)

-- What `receive_wg_message` makes of a message over TLS: its result with the input after it, and the
-- contexts that it queued acknowledgements for.
unfoldable pub on_received :
    (List ℕ → Result IoError (List ℕ × List ℕ) × List ℕ)
    → ℕ
    → List ℕ
    → List ℕ
    → MessageCode
    → Result IoError (List ℕ × List ℕ) × List ℕ
on_received again context arg rest (op wire_guard) = (ok (arg, rest), context ∷ [])
on_received again context arg rest (op code) = (err (unexpected_op_code code), context ∷ [])
on_received again context arg rest (response ok_response) = again rest
on_received again context arg rest (response (error_response code)) =
    (err (relay_error code arg), [])

unfoldable pub received :
    (List ℕ → Result IoError (List ℕ × List ℕ) × List ℕ)
    → Result IoError (Message × List ℕ)
    → Result IoError (List ℕ × List ℕ) × List ℕ
received again (err e) = (err e, [])
received again (ok (m, rest)) = on_received again m.context m.arg rest m.code

unfoldable pub receive_loop : ℕ → RelayProtocol → List ℕ → Result IoError (List ℕ × List ℕ) × List ℕ
receive_loop zero p input = (err stuck, [])
receive_loop (suc fuel) p input = received (λ rest. receive_loop fuel p rest) (recv p input)

-- Each message takes bytes.
unfoldable pub receive_wg_message :
    RelayProtocol → List ℕ → Result IoError (List ℕ × List ℕ) × List ℕ
receive_wg_message p input = receive_loop (suc (length input)) p input
