-- ===== src/Relay/Rtt.antt =====
-- What `measure_rtt` and `authenticate` of rustlib/src/quicwg.rs have done when they succeed.
use mathlib.Core.List.{append_assoc, append-nil}
use obscuravpn_client.Prelude.{
  ℕ, String, zero, suc, ◌+◌, ◌-◌, ◌≤◌, ◌≡◌, inl, inr, refl, sym, ap, ◌∙◌, Bool, true, false, List,
  [], ◌∷◌, ◌++◌, length, leb, Bool-cases, arith, min,
}
use obscuravpn_client.NetworkConfig.{Result, ok, err}
use obscuravpn_client.Backoff.{duration_max}
use obscuravpn_client.Relay.{RelayProtocol, RelayOpCode, ping, MessageCode, op, IoError, ◌>>=◌}
use obscuravpn_client.Relay.Messages.{Writer, write_all, then_write, flush, send_message}
use obscuravpn_client.Relay.Handshake.{
  Transport, QuicWgRelayHandshakeError, wrote, with_timeout, send_op, recv_ok_resp, confirmed_op,
  RttRound, min_with_last, measure_rounds, measure_rtt,
}

-- The bytes of an operation of the client.
abbrev pub request : RelayProtocol → RelayOpCode → List ℕ → List ℕ
request p code arg =
    p.header_bytes p.min_client_initiated (4 + length arg) ++ (p.code_to_bytes (op code) ++ arg)

write_all-ok :
    (bytes : List ℕ) (w : Writer)
    → (write_all bytes w).1 ≡ ok tt
    → (write_all bytes w).0.written ≡ w.written ++ bytes
unfolding write_all
write_all-ok bytes w = elim (Bool-cases (leb (length bytes) w.room)) [
  | inl e ↦ rw e (λ h. refl)
  | inr e ↦ rw e (λ h. absurd (ground arith))
]

then_write-ok :
    (r : Writer × Result IoError Unit) (next : Writer → Writer × Result IoError Unit)
    → (then_write r next).1 ≡ ok tt
    → (r.1 ≡ ok tt) × (then_write r next ≡ next r.0)
then_write-ok (w, ok u) next h = (refl, refl)
then_write-ok (w, err e) next h = absurd (ground arith)

pub send_message-ok :
    (p : RelayProtocol) (code : MessageCode) (context : ℕ) (arg : List ℕ) (w : Writer)
    → (send_message p code context arg w).1 ≡ ok tt
    → (send_message p code context arg w).0.written
      ≡ w.written ++ (p.header_bytes context (4 + length arg) ++ (p.code_to_bytes code ++ arg))
unfolding send_message flush
send_message-ok p code context arg w = elim (Bool-cases (leb (4 + length arg) 0xffffffff)) [
  | inr e ↦ rw e (λ h. absurd (ground arith))
  | inl e ↦ rw e (λ h.
      let header = p.header_bytes context (4 + length arg) in
      let bytes = p.code_to_bytes code in
      let a = write_all header w in
      let b = write_all bytes a.0 in
      let c = write_all arg b.0 in
      let (a_ok, after_a) =
        then_write-ok a
          (λ w1.
            then_write (write_all bytes w1) (λ w2. then_write (write_all arg w2) (λ w3. flush w3)))
          h in
      let (b_ok, after_b) =
        then_write-ok b (λ w2. then_write (write_all arg w2) (λ w3. flush w3))
          (sym (ap (λ r. r.1) after_a) ∙ h) in
      let (c_ok, after_c) =
        then_write-ok c (λ w3. flush w3) (sym (ap (λ r. r.1) (after_a ∙ after_b)) ∙ h) in
      ap (λ r. r.0.written) (after_a ∙ after_b ∙ after_c)
      ∙ write_all-ok arg b.0 c_ok
      ∙ ap (λ xs. xs ++ arg)
          (write_all-ok bytes a.0 b_ok ∙ ap (λ xs. xs ++ bytes) (write_all-ok header w a_ok))
      ∙ append_assoc (w.written ++ header) bytes arg
      ∙ append_assoc w.written header (bytes ++ arg))
]

>>=-ok :
    {E A B : Type 0} (r : Result E A) (f : A → Result E B) (b : B)
    → (r >>= f) ≡ ok b
    → (a : A) × (r ≡ ok a) × (f a ≡ ok b)
>>=-ok (ok a) f b h = (a, refl, h)
>>=-ok (err e) f b h = absurd (ground arith)

pub ok-injective : {E A : Type 0} (a b : A) → ◌≡◌ {A = Result E A} (ok a) (ok b) → a ≡ b
ok-injective a b h = cc

with_timeout-ok :
    {A : Type 0} (expired : Bool) (what : String) (r : Result QuicWgRelayHandshakeError A) (a : A)
    → with_timeout expired what r ≡ ok a
    → (expired ≡ false) × (r ≡ ok a)
unfolding with_timeout
with_timeout-ok true what r a h = absurd (ground arith)
with_timeout-ok false what r a h = (refl, h)

wrote-ok :
    (t : Transport) (r : Writer × Result IoError Unit) (t' : Transport)
    → wrote t r ≡ ok t'
    → (r.1 ≡ ok tt) × (t' ≡ record t { writing = r.0 })
unfolding wrote
wrote-ok t (w, ok u) t' h = (refl, ground arith)
wrote-ok t (w, err e) t' h = absurd (ground arith)

-- An operation that was confirmed was written whole, and both steps were in time.
confirmed_op-ok :
    (p : RelayProtocol) (a b : Bool) (code : RelayOpCode) (arg : List ℕ) (t t' : Transport)
    → confirmed_op p a b code arg t ≡ ok t'
    → t'.writing.written ≡ t.writing.written ++ request p code arg
unfolding confirmed_op send_op recv_ok_resp
confirmed_op-ok p a b code arg t t' h =
    let sending = send_message p (op code) p.min_client_initiated arg t.writing in
    let (t1, sent, received) = >>=-ok _ (λ t1. recv_ok_resp p b t1) t' h in
    let (in_time, written) = with_timeout-ok a "sending op" (wrote t sending) t1 sent in
    let (whole, after) = wrote-ok t sending t1 written in
    let (rest, answered, last) = >>=-ok _ (λ rest. ok (record t1 { reading = rest })) t' received in
    ap (λ (x : Transport). x.writing.written)
      (sym (ok-injective _ _ last) ∙ ap (λ (x : Transport). record x { reading = rest }) after)
    ∙ send_message-ok p (op code) p.min_client_initiated arg t.writing whole

abbrev pub requests : RelayProtocol → RelayOpCode → ℕ → List ℕ
requests p code zero = []
requests p code (suc n) = request p code [] ++ requests p code n

-- The least time that the rounds took.
abbrev pub least_rtt : List RttRound → ℕ → ℕ → ℕ
least_rtt [] start_time min_rtt = min_rtt
least_rtt (r ∷ rounds) start_time min_rtt =
    least_rtt rounds r.end_time (min_with_last start_time r.end_time min_rtt)

measure_rounds-ok :
    (p : RelayProtocol) (rounds : List RttRound) (start_time min_rtt d : ℕ) (t t' : Transport)
    → measure_rounds p rounds start_time min_rtt t ≡ ok (d, t')
    → (t'.writing.written ≡ t.writing.written ++ requests p ping (length rounds))
      × (d ≡ least_rtt rounds start_time min_rtt)
unfolding measure_rounds
measure_rounds-ok p [] start_time min_rtt d t t' h =
    let same = ok-injective _ _ h in
    (
      ap (λ (x : ℕ × Transport). x.1.writing.written) (sym same)
          ∙ sym (append-nil t.writing.written),
      ap (λ (x : ℕ × Transport). x.0) (sym same),
    )
measure_rounds-ok p (r ∷ rounds) start_time min_rtt d t t' h =
    let (t1, confirmed, others) =
      >>=-ok (confirmed_op p r.send_expired r.recv_expired ping [] t)
        (λ t1. measure_rounds p rounds r.end_time (min_with_last start_time r.end_time min_rtt) t1)
        (d, t') h in
    let (written, least) =
      measure_rounds-ok p rounds r.end_time (min_with_last start_time r.end_time min_rtt) d t1 t'
        others in
    (
      written
          ∙ ap (λ xs. xs ++ requests p ping (length rounds))
              (confirmed_op-ok p r.send_expired r.recv_expired ping [] t t1 confirmed)
          ∙ append_assoc t.writing.written (request p ping []) (requests p ping (length rounds)),
      least,
    )

-- A measurement that succeeds has written three pings and nothing else; and with a clock that does
-- not go backwards, and a first time that a Duration holds, its result is the least of the three
-- times between them.
pub measure_rtt-ok :
    (p : RelayProtocol) (r1 r2 r3 : RttRound) (start_time d : ℕ) (t t' : Transport)
    → measure_rtt p r1 r2 r3 start_time t ≡ ok (d, t')
    → start_time ≤ r1.end_time
    → r1.end_time ≤ r2.end_time
    → r2.end_time ≤ r3.end_time
    → r1.end_time - start_time ≤ duration_max
    → (t'.writing.written ≡ t.writing.written ++ requests p ping 3)
      × (d
          ≡ min
              (min (r1.end_time - start_time) (r2.end_time - r1.end_time))
              (r3.end_time - r2.end_time))
unfolding measure_rtt min_with_last
measure_rtt-ok p r1 r2 r3 start_time d t t' h a b c e =
    let (written, least) =
      measure_rounds-ok p (r1 ∷ r2 ∷ r3 ∷ []) start_time duration_max d t t' h in
    (written, ground (arith, least))
