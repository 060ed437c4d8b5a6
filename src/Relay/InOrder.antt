-- ===== src/Relay/InOrder.antt =====
-- What the sending task of rustlib/src/quicwg.rs writes to a relay over TLS, whatever arrives meanwhile.
use mathlib.Core.List.{append_assoc, append-nil}
use obscuravpn_client.Prelude.{
  ℕ, ◌+◌, ◌≡◌, inl, inr, refl, sym, ap, ◌∙◌, Bool, true, false, Option, none, some, List, [], ◌∷◌,
  ◌++◌, length, ltb, Bool-cases, if◌then◌else◌,
}
use obscuravpn_client.NetworkConfig.{Result, ok, err}
use obscuravpn_client.Relay.{RelayProtocol, MessageCode, op, response, Message, IoError}
use obscuravpn_client.Relay.Messages.{Writer}
use obscuravpn_client.Relay.Outbox.{
  send_wg_message, queue_ok, Sender, take_work, packet_message, ok_message, after_packet, after_ok,
  write_message, work, proceed, Event, send_packet, received_op, task, step, run_sender, max_queued,
}

-- The acknowledgements and the packets among messages.
abbrev pub ok_context : MessageCode → ℕ → List ℕ
ok_context (op code) context = []
ok_context (response r) context = context ∷ []

abbrev pub oks_of : List Message → List ℕ
oks_of [] = []
oks_of (m ∷ ms) = ok_context m.code m.context ++ oks_of ms

abbrev pub packet_arg : MessageCode → List ℕ → List (List ℕ)
packet_arg (op code) arg = arg ∷ []
packet_arg (response r) arg = []

abbrev pub packets_of : List Message → List (List ℕ)
packets_of [] = []
packets_of (m ∷ ms) = packet_arg m.code m.arg ++ packets_of ms

abbrev pub bytes_of : RelayProtocol → List Message → List ℕ
bytes_of p [] = []
bytes_of p (m ∷ ms) =
    (p.header_bytes m.context (4 + length m.arg) ++ (p.code_to_bytes m.code ++ m.arg))
    ++ bytes_of p ms

-- What is yet to be written.
abbrev pub pending_oks : Sender → List ℕ
pending_oks s = s.oks_in_progress ++ s.traffic_state.queued_oks

abbrev pub in_hand : Option (List ℕ) → List (List ℕ)
in_hand none = []
in_hand (some packet) = packet ∷ []

abbrev pub pending_packets : Sender → List (List ℕ)
pending_packets s = in_hand s.packet_in_progress ++ s.traffic_state.queued_packets

-- The operations that are received, and the packets that find room in the queue.
abbrev pub op_of : Event → List ℕ
op_of (send_packet packet) = []
op_of (received_op context) = context ∷ []
op_of task = []

abbrev pub ops_of : List Event → List ℕ
ops_of [] = []
ops_of (e ∷ es) = op_of e ++ ops_of es

abbrev pub packet_of : Event → Sender → List (List ℕ)
packet_of (send_packet packet) s =
    if ltb (length s.traffic_state.queued_packets) max_queued then packet ∷ [] else []
packet_of (received_op context) s = []
packet_of task s = []

abbrev pub accepted : RelayProtocol → List Event → Sender → List (List ℕ)
accepted p [] s = []
accepted p (e ∷ es) s = packet_of e s ++ accepted p es (step p e s).0

oks_of-append : (xs ys : List Message) → oks_of (xs ++ ys) ≡ oks_of xs ++ oks_of ys
oks_of-append [] ys = refl
oks_of-append (x ∷ xs) ys =
    ap (λ zs. ok_context x.code x.context ++ zs) (oks_of-append xs ys)
    ∙ sym (append_assoc (ok_context x.code x.context) (oks_of xs) (oks_of ys))

packets_of-append : (xs ys : List Message) → packets_of (xs ++ ys) ≡ packets_of xs ++ packets_of ys
packets_of-append [] ys = refl
packets_of-append (x ∷ xs) ys =
    ap (λ zs. packet_arg x.code x.arg ++ zs) (packets_of-append xs ys)
    ∙ sym (append_assoc (packet_arg x.code x.arg) (packets_of xs) (packets_of ys))

pub bytes_of-append :
    (p : RelayProtocol) (xs ys : List Message)
    → bytes_of p (xs ++ ys) ≡ bytes_of p xs ++ bytes_of p ys
bytes_of-append p [] ys = refl
bytes_of-append p (x ∷ xs) ys =
    let first = p.header_bytes x.context (4 + length x.arg) ++ (p.code_to_bytes x.code ++ x.arg) in
    ap (λ zs. first ++ zs) (bytes_of-append p xs ys)
    ∙ sym (append_assoc first (bytes_of p xs) (bytes_of p ys))

-- A step keeps the order of acknowledgements and of packets.
abbrev Kept : Sender → List ℕ → List (List ℕ) → Sender × List Message → Type 0
Kept s ops packets (s', sent) =
    (oks_of sent ++ pending_oks s' ≡ pending_oks s ++ ops)
    × (packets_of sent ++ pending_packets s' ≡ pending_packets s ++ packets)

after_packet-Kept :
    (p : RelayProtocol) (packet : List ℕ) (s : Sender) (r : Writer × Result IoError Unit)
    → s.packet_in_progress ≡ some packet
    → Kept s [] [] (after_packet (packet_message p packet) s r)
unfolding after_packet
after_packet-Kept p packet s (w, ok u) e = (
  sym (append-nil (pending_oks s)),
  rw e (sym (append-nil (packet ∷ s.traffic_state.queued_packets))),
)
after_packet-Kept p packet s (w, err g) e =
    (sym (append-nil (pending_oks s)), sym (append-nil (pending_packets s)))

after_ok-Kept :
    (o : ℕ) (rest : List ℕ) (s : Sender) (r : Writer × Result IoError Unit)
    → s.oks_in_progress ≡ o ∷ rest
    → Kept s [] [] (after_ok (ok_message o) rest s r)
unfolding after_ok
after_ok-Kept o rest s (w, ok u) e = (
  rw e (sym (append-nil (o ∷ (rest ++ s.traffic_state.queued_oks)))),
  sym (append-nil (pending_packets s)),
)
after_ok-Kept o rest s (w, err g) e =
    (sym (append-nil (pending_oks s)), sym (append-nil (pending_packets s)))

take_work-Kept :
    (oks : List ℕ) (packets : List (List ℕ)) (s : Sender)
    → s.traffic_state.queued_oks ≡ oks
    → s.traffic_state.queued_packets ≡ packets
    → s.packet_in_progress ≡ none
    → s.oks_in_progress ≡ []
    → Kept s [] [] (take_work oks packets s, [])
unfolding take_work
take_work-Kept (o ∷ oks) packets s e g a b = (simp (e, b, append-nil), simp (g, append-nil))
take_work-Kept [] (packet ∷ packets) s e g a b = (simp (e, b, append-nil), simp (g, a, append-nil))
take_work-Kept [] [] s e g a b =
    (sym (append-nil (pending_oks s)), sym (append-nil (pending_packets s)))

work-Kept :
    (p : RelayProtocol) (packet : Option (List ℕ)) (oks : List ℕ) (s : Sender)
    → s.packet_in_progress ≡ packet
    → s.oks_in_progress ≡ oks
    → Kept s [] [] (work p packet oks s)
unfolding work
work-Kept p (some packet) oks s e g =
    after_packet-Kept p packet s (write_message p (packet_message p packet) s.writing) e
work-Kept p none (o ∷ oks) s e g =
    after_ok-Kept o oks s (write_message p (ok_message o) s.writing) g
work-Kept p none [] s e g =
    take_work-Kept s.traffic_state.queued_oks s.traffic_state.queued_packets s refl refl e g

send_wg_message-Kept :
    (packet : List ℕ) (s : Sender)
    → Kept s []
        (packet_of (send_packet packet) s)
        (record s { traffic_state = send_wg_message packet s.traffic_state }, [])
unfolding send_wg_message
send_wg_message-Kept packet s =
    let queued = s.traffic_state.queued_packets in
    elim (Bool-cases (ltb (length queued) max_queued)) [
      | inl e ↦ rw e (
        sym (append-nil (pending_oks s)),
        sym (append_assoc (in_hand s.packet_in_progress) queued (packet ∷ [])),
      )
      | inr e ↦ rw e (sym (append-nil (pending_oks s)), sym (append-nil (pending_packets s)))
    ]

unless_ended-Kept :
    (ended : Bool) (s : Sender) (r : Sender × List Message)
    → Kept s [] [] r
    → Kept s [] [] (if ended then (s, []) else r)
unless_ended-Kept true s r k =
    (sym (append-nil (pending_oks s)), sym (append-nil (pending_packets s)))
unless_ended-Kept false s r k = k

step-Kept :
    (p : RelayProtocol) (e : Event) (s : Sender) → Kept s (op_of e) (packet_of e s) (step p e s)
unfolding step proceed queue_ok
step-Kept p (send_packet packet) s = send_wg_message-Kept packet s
step-Kept p (received_op context) s = (
  sym (append_assoc s.oks_in_progress s.traffic_state.queued_oks (context ∷ [])),
  sym (append-nil (pending_packets s)),
)
step-Kept p task s =
    unless_ended-Kept s.ended s (work p s.packet_in_progress s.oks_in_progress s)
      (work-Kept p s.packet_in_progress s.oks_in_progress s refl refl)

-- Two steps in a row.
joined :
    {A : Type 0} (sent more pending pending' pending'' xs ys : List A)
    → sent ++ pending' ≡ pending ++ xs
    → more ++ pending'' ≡ pending' ++ ys
    → (sent ++ more) ++ pending'' ≡ pending ++ (xs ++ ys)
joined sent more pending pending' pending'' xs ys e g =
    append_assoc sent more pending''
    ∙ ap (λ zs. sent ++ zs) g
    ∙ sym (append_assoc sent pending' ys)
    ∙ ap (λ zs. zs ++ ys) e
    ∙ append_assoc pending xs ys

-- Whatever packets and operations arrive, in whatever order with the steps of the task: the
-- acknowledgements that were written, those in hand and those queued are one for each operation
-- received, in their order; and the packets that were written, the one in hand and those queued are
-- those that found room in the queue, in their order. This holds also when the task has ended.
pub run_sender-Kept :
    (p : RelayProtocol) (es : List Event) (s : Sender)
    → let (s', sent) = run_sender p es s in
      (oks_of sent ++ pending_oks s' ≡ pending_oks s ++ ops_of es)
      × (packets_of sent ++ pending_packets s' ≡ pending_packets s ++ accepted p es s)
unfolding run_sender
run_sender-Kept p [] s = (sym (append-nil (pending_oks s)), sym (append-nil (pending_packets s)))
run_sender-Kept p (e ∷ es) s =
    let (s1, sent) = step p e s in
    let (s2, more) = run_sender p es s1 in
    let (oks, packets) = step-Kept p e s in
    let (more_oks, more_packets) = run_sender-Kept p es s1 in
    (
      ap (λ zs. zs ++ pending_oks s2) (oks_of-append sent more)
          ∙ joined (oks_of sent) (oks_of more) (pending_oks s) (pending_oks s1) (pending_oks s2)
              (op_of e) (ops_of es) oks more_oks,
      ap (λ zs. zs ++ pending_packets s2) (packets_of-append sent more)
          ∙ joined (packets_of sent) (packets_of more) (pending_packets s) (pending_packets s1)
              (pending_packets s2) (packet_of e s) (accepted p es s1) packets more_packets,
    )
