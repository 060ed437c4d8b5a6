-- ===== src/Relay/Drains.antt =====
-- The sending task of rustlib/src/quicwg.rs empties its queues.
use mathlib.Core.List.{append-nil}
use obscuravpn_client.Prelude.{
  ℕ, zero, suc, ◌+◌, ◌*◌, ◌≤◌, ◌<◌, ◌≡◌, ◌⊎◌, inl, inr, refl, sym, ap, ◌∙◌, Bool, true, false,
  Option, none, some, List, [], ◌∷◌, ◌++◌, length, length-append, arith, if◌then◌else◌, subst,
}
use obscuravpn_client.NetworkConfig.{Result, ok, err}
use obscuravpn_client.Relay.{RelayProtocol, Message, IoError}
use obscuravpn_client.Relay.Messages.{Writer}
use obscuravpn_client.Relay.Outbox.{
  Sender, take_work, packet_message, ok_message, after_packet, after_ok, write_message, work,
  proceed, Event, send_packet, received_op, task, step, run_sender,
}
use obscuravpn_client.Relay.InOrder.{
  oks_of, packets_of, pending_oks, pending_packets, in_hand, ops_of, accepted, run_sender-Kept,
}

-- How much the task has to do: two steps for what is queued, one for what is in hand.
abbrev pub amount : Sender → ℕ
amount s =
    2 * length s.traffic_state.queued_oks
    + 2 * length s.traffic_state.queued_packets
    + length s.oks_in_progress
    + length (in_hand s.packet_in_progress)

-- The message that the task is to write next.
abbrev pub Next : RelayProtocol → Sender → Message → Type 0
Next p s m =
    ((packet : List ℕ) × (s.packet_in_progress ≡ some packet) × (m ≡ packet_message p packet))
    ⊎ ((o : ℕ) × (rest : List ℕ) × (s.oks_in_progress ≡ o ∷ rest) × (m ≡ ok_message o))

-- The task ended when the transport refused a message that it had in hand, and has it still.
abbrev pub Refused : RelayProtocol → Sender → Type 0
Refused p s =
    (m : Message) × (w : Writer) × (e : IoError) × Next p s m
    × (write_message p m w ≡ (s.writing, err e))

-- The transport refused, or the task goes on and has less to do, or nothing.
abbrev pub Less : RelayProtocol → Sender → Sender → Type 0
Less p s s' =
    ((s'.ended ≡ true) × Refused p s')
    ⊎ ((s'.ended ≡ false) × ((amount s' < amount s) ⊎ (amount s' ≡ 0)))

after_packet-Less :
    (p : RelayProtocol) (packet : List ℕ) (s : Sender) (r : Writer × Result IoError Unit)
    → s.ended ≡ false
    → write_message p (packet_message p packet) s.writing ≡ r
    → s.packet_in_progress ≡ some packet
    → Less p s (after_packet (packet_message p packet) s r).0
unfolding after_packet
after_packet-Less p packet s (w, ok u) going wrote e =
    inr (going, inl (omega (arith, ap (λ x. length (in_hand x)) e)))
after_packet-Less p packet s (w, err g) going wrote e =
    inl (refl, (packet_message p packet, s.writing, g, inl (packet, e, refl), wrote))

after_ok-Less :
    (p : RelayProtocol) (o : ℕ) (rest : List ℕ) (s : Sender) (r : Writer × Result IoError Unit)
    → s.ended ≡ false
    → write_message p (ok_message o) s.writing ≡ r
    → s.oks_in_progress ≡ o ∷ rest
    → Less p s (after_ok (ok_message o) rest s r).0
unfolding after_ok
after_ok-Less p o rest s (w, ok u) going wrote e =
    inr (going, inl (omega (arith, ap (λ xs. length xs) e)))
after_ok-Less p o rest s (w, err g) going wrote e =
    inl (refl, (ok_message o, s.writing, g, inr (o, rest, e, refl), wrote))

take_work-Less :
    (p : RelayProtocol) (oks : List ℕ) (packets : List (List ℕ)) (s : Sender)
    → s.ended ≡ false
    → s.traffic_state.queued_oks ≡ oks
    → s.traffic_state.queued_packets ≡ packets
    → s.packet_in_progress ≡ none
    → s.oks_in_progress ≡ []
    → Less p s (take_work oks packets s)
unfolding take_work
take_work-Less p (o ∷ oks) packets s going e g a b = inr (
  going,
  inl (omega (arith, ap (λ xs. length xs) e, ap (λ xs. length xs) g, ap (λ xs. length xs) b)),
)
take_work-Less p [] (packet ∷ packets) s going e g a b = inr (
  going,
  inl (
      omega
        (arith, ap (λ xs. length xs) e, ap (λ xs. length xs) g, ap (λ x. length (in_hand x)) a)),
)
take_work-Less p [] [] s going e g a b = inr (
  going,
  inr (
      omega (
        arith,
        ap (λ xs. length xs) e,
        ap (λ xs. length xs) g,
        ap (λ xs. length xs) b,
        ap (λ x. length (in_hand x)) a,
      )),
)

work-Less :
    (p : RelayProtocol) (packet : Option (List ℕ)) (oks : List ℕ) (s : Sender)
    → s.ended ≡ false
    → s.packet_in_progress ≡ packet
    → s.oks_in_progress ≡ oks
    → Less p s (work p packet oks s).0
unfolding work
work-Less p (some packet) oks s going e g =
    after_packet-Less p packet s (write_message p (packet_message p packet) s.writing) going refl e
work-Less p none (o ∷ oks) s going e g =
    after_ok-Less p o oks s (write_message p (ok_message o) s.writing) going refl g
work-Less p none [] s going e g =
    take_work-Less p s.traffic_state.queued_oks s.traffic_state.queued_packets s going refl refl e g

going_on :
    (ended : Bool) (s : Sender) (r : Sender × List Message)
    → ended ≡ false
    → (if ended then (s, []) else r) ≡ r
going_on true s r e = absurd (ground arith)
going_on false s r e = refl

proceed-Less : (p : RelayProtocol) (s : Sender) → s.ended ≡ false → Less p s (proceed p s).0
unfolding proceed
proceed-Less p s going =
    subst (λ r. Less p s r.0)
      (sym (going_on s.ended s (work p s.packet_in_progress s.oks_in_progress s) going))
      (work-Less p s.packet_in_progress s.oks_in_progress s going refl refl)

unless_ended :
    (ended : Bool) (s : Sender) (r : Sender × List Message)
    → ended ≡ true
    → (if ended then (s, []) else r) ≡ (s, [])
unless_ended true s r e = refl
unless_ended false s r e = absurd (ground arith)

proceed-ended : (p : RelayProtocol) (s : Sender) → s.ended ≡ true → (proceed p s).0 ≡ s
unfolding proceed
proceed-ended p s h =
    ap (λ r. r.0) (unless_ended s.ended s (work p s.packet_in_progress s.oks_in_progress s) h)

step-ended :
    (p : RelayProtocol) (e : Event) (s : Sender) → s.ended ≡ true → (step p e s).0.ended ≡ true
unfolding step
step-ended p (send_packet packet) s h = h
step-ended p (received_op context) s h = h
step-ended p task s h = ap (λ (x : Sender). x.ended) (proceed-ended p s h) ∙ h

pub run_sender-ended :
    (p : RelayProtocol) (es : List Event) (s : Sender)
    → s.ended ≡ true
    → (run_sender p es s).0.ended ≡ true
unfolding run_sender
run_sender-ended p [] s h = h
run_sender-ended p (e ∷ es) s h = run_sender-ended p es (step p e s).0 (step-ended p e s h)

-- That many steps of the task in a row.
abbrev pub tasks : ℕ → List Event
tasks zero = []
tasks (suc n) = task ∷ tasks n

ops_of-tasks : (n : ℕ) → ops_of (tasks n) ≡ []
ops_of-tasks zero = refl
ops_of-tasks (suc n) = ops_of-tasks n

accepted-tasks : (p : RelayProtocol) (n : ℕ) (s : Sender) → accepted p (tasks n) s ≡ []
accepted-tasks p zero s = refl
accepted-tasks p (suc n) s = accepted-tasks p n (step p task s).0

-- Once the task has ended it does nothing more.
tasks-ended :
    (p : RelayProtocol) (n : ℕ) (s : Sender) → s.ended ≡ true → (run_sender p (tasks n) s).0 ≡ s
unfolding run_sender step
tasks-ended p zero s h = refl
tasks-ended p (suc n) s h =
    let same = proceed-ended p s h in
    tasks-ended p n (proceed p s).0 (ap (λ (x : Sender). x.ended) same ∙ h) ∙ same

-- The transport refused, or nothing is left to do.
Drained : RelayProtocol → Sender → Type 0
Drained p s = ((s.ended ≡ true) × Refused p s) ⊎ ((s.ended ≡ false) × (amount s ≡ 0))

tasks-amount :
    (p : RelayProtocol) (n : ℕ) (s : Sender)
    → s.ended ≡ false
    → amount s ≤ n
    → Drained p (run_sender p (tasks n) s).0
unfolding run_sender step Drained
tasks-amount p zero s going h = inr (going, omega (arith, h))
tasks-amount p (suc n) s going h = elim (proceed-Less p s going) [
  | inl (ended, refused) ↦
      let same = tasks-ended p n (proceed p s).0 ended in
      inl (ap (λ (x : Sender). x.ended) same ∙ ended, subst (Refused p) (sym same) refused)
  | inr (on, inl less) ↦ tasks-amount p n (proceed p s).0 on (omega (arith, h, less))
  | inr (on, inr nothing) ↦ tasks-amount p n (proceed p s).0 on (omega (arith, nothing))
]

empty-length : {A : Type 0} (xs : List A) → length xs ≡ 0 → xs ≡ []
empty-length [] h = refl
empty-length (x ∷ xs) h = absurd (omega (arith, h))

-- When nothing else arrives, and a task that goes on gets two steps for each acknowledgement and packet
-- that is queued and one for each in hand, it writes all of them in their order, has nothing left to
-- do, and goes on; or else it ended because the transport refused a message that it still has in hand.
pub run_sender-drains :
    (p : RelayProtocol) (n : ℕ) (s : Sender)
    → s.ended ≡ false
    → amount s ≤ n
    → let (s', sent) = run_sender p (tasks n) s in
      ((s'.ended ≡ true) × Refused p s')
      ⊎ ((s'.ended ≡ false)
          × (oks_of sent ≡ pending_oks s)
          × (packets_of sent ≡ pending_packets s)
          × (amount s' ≡ 0))
unfolding Drained
run_sender-drains p n s going h =
    let (s', sent) = run_sender p (tasks n) s in
    let (oks, packets) = run_sender-Kept p (tasks n) s in
    elim (tasks-amount p n s going h) [
      | inl failed ↦ inl failed
      | inr (on, nothing) ↦
          let no_oks : pending_oks s' ≡ [] = empty-length (pending_oks s') (
            omega
              (arith, nothing, length-append {0} s'.oks_in_progress s'.traffic_state.queued_oks)) in
          let no_packets : pending_packets s' ≡ [] = empty-length (pending_packets s') (
            omega (
              arith,
              nothing,
              length-append {0} (in_hand s'.packet_in_progress) s'.traffic_state.queued_packets,
            )) in
          inr (
            on,
            sym (append-nil (oks_of sent))
                ∙ sym (ap (λ xs. oks_of sent ++ xs) no_oks)
                ∙ oks
                ∙ ap (λ xs. pending_oks s ++ xs) (ops_of-tasks n)
                ∙ append-nil (pending_oks s),
            sym (append-nil (packets_of sent))
                ∙ sym (ap (λ xs. packets_of sent ++ xs) no_packets)
                ∙ packets
                ∙ ap (λ xs. pending_packets s ++ xs) (accepted-tasks p n s)
                ∙ append-nil (pending_packets s),
            nothing,
          )
    ]
