-- ===== src/Relay/Written.antt =====
-- The bytes that the sending task of rustlib/src/quicwg.rs hands to the transport.
use mathlib.Core.List.{append_assoc, append-nil}
use obscuravpn_client.Prelude.{
  ℕ, ◌≡◌, refl, sym, ap, ◌∙◌, Bool, true, false, Option, none, some, List, [], ◌∷◌, ◌++◌, arith,
  if◌then◌else◌,
}
use obscuravpn_client.NetworkConfig.{Result, ok, err}
use obscuravpn_client.Relay.{RelayProtocol, Message, IoError}
use obscuravpn_client.Relay.Messages.{Writer}
use obscuravpn_client.Relay.Rtt.{send_message-ok}
use obscuravpn_client.Relay.Outbox.{
  Sender, take_work, packet_message, ok_message, after_packet, after_ok, write_message, work,
  proceed, Event, send_packet, received_op, task, step, run_sender,
}
use obscuravpn_client.Relay.InOrder.{bytes_of, bytes_of-append}
use obscuravpn_client.Relay.Drains.{run_sender-ended}

-- What was handed to the transport.
abbrev Written : RelayProtocol → Sender → Sender × List Message → Type 0
Written p s (s', sent) =
    s'.ended ≡ false → s'.writing.written ≡ s.writing.written ++ bytes_of p sent

one_message :
    (p : RelayProtocol) (m : Message) (w : Writer)
    → (write_message p m w).1 ≡ ok tt
    → (write_message p m w).0.written ≡ w.written ++ bytes_of p (m ∷ [])
one_message p m w h =
    send_message-ok p m.code m.context m.arg w h ∙ ap (λ xs. w.written ++ xs) (sym (append-nil _))

after_packet-Written :
    (p : RelayProtocol) (m : Message) (s : Sender) (r : Writer × Result IoError Unit)
    → (r.1 ≡ ok tt → r.0.written ≡ s.writing.written ++ bytes_of p (m ∷ []))
    → Written p s (after_packet m s r)
unfolding after_packet
after_packet-Written p m s (w, ok u) h = λ e. h refl
after_packet-Written p m s (w, err g) h = λ e. absurd (ground arith)

after_ok-Written :
    (p : RelayProtocol) (m : Message) (rest : List ℕ) (s : Sender)
    (r : Writer × Result IoError Unit)
    → (r.1 ≡ ok tt → r.0.written ≡ s.writing.written ++ bytes_of p (m ∷ []))
    → Written p s (after_ok m rest s r)
unfolding after_ok
after_ok-Written p m rest s (w, ok u) h = λ e. h refl
after_ok-Written p m rest s (w, err g) h = λ e. absurd (ground arith)

take_work-writing :
    (oks : List ℕ) (packets : List (List ℕ)) (s : Sender)
    → (take_work oks packets s).writing.written ≡ s.writing.written
unfolding take_work
take_work-writing (o ∷ oks) packets s = refl
take_work-writing [] (packet ∷ packets) s = refl
take_work-writing [] [] s = refl

work-Written :
    (p : RelayProtocol) (packet : Option (List ℕ)) (oks : List ℕ) (s : Sender)
    → Written p s (work p packet oks s)
unfolding work
work-Written p (some packet) oks s =
    let m = packet_message p packet in
    after_packet-Written p m s (write_message p m s.writing) (one_message p m s.writing)
work-Written p none (o ∷ oks) s =
    let m = ok_message o in
    after_ok-Written p m oks s (write_message p m s.writing) (one_message p m s.writing)
work-Written p none [] s = λ e.
    take_work-writing s.traffic_state.queued_oks s.traffic_state.queued_packets s
    ∙ sym (append-nil s.writing.written)

unless_ended-Written :
    (p : RelayProtocol) (ended : Bool) (s : Sender) (r : Sender × List Message)
    → Written p s r
    → Written p s (if ended then (s, []) else r)
unless_ended-Written p true s r h = λ e. sym (append-nil s.writing.written)
unless_ended-Written p false s r h = h

step-Written : (p : RelayProtocol) (e : Event) (s : Sender) → Written p s (step p e s)
unfolding step proceed
step-Written p (send_packet packet) s = λ e. sym (append-nil s.writing.written)
step-Written p (received_op context) s = λ e. sym (append-nil s.writing.written)
step-Written p task s =
    unless_ended-Written p s.ended s (work p s.packet_in_progress s.oks_in_progress s)
      (work-Written p s.packet_in_progress s.oks_in_progress s)

still_running :
    (p : RelayProtocol) (es : List Event) (s : Sender) (ended : Bool)
    → s.ended ≡ ended
    → (run_sender p es s).0.ended ≡ false
    → s.ended ≡ false
still_running p es s true e h = absurd (let ended = run_sender-ended p es s e in ground arith)
still_running p es s false e h = e

-- While the task has not ended, the transport was handed the bytes of the messages that were
-- written, whole and in their order, and nothing else.
pub run_sender-written :
    (p : RelayProtocol) (es : List Event) (s : Sender)
    → let (s', sent) = run_sender p es s in
      s'.ended ≡ false → s'.writing.written ≡ s.writing.written ++ bytes_of p sent
unfolding run_sender
run_sender-written p [] s h = sym (append-nil s.writing.written)
run_sender-written p (e ∷ es) s h =
    let (s1, sent) = step p e s in
    let (s2, more) = run_sender p es s1 in
    run_sender-written p es s1 h
    ∙ ap (λ xs. xs ++ bytes_of p more) (step-Written p e s (still_running p es s1 s1.ended refl h))
    ∙ append_assoc s.writing.written (bytes_of p sent) (bytes_of p more)
    ∙ ap (λ xs. s.writing.written ++ xs) (sym (bytes_of-append p sent more))
