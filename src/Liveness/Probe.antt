-- ===== src/Liveness/Probe.antt =====
-- rustlib/src/liveness.rs: answers to probes, and what holds of every checker that the operations
-- reach.
use obscuravpn_client.Prelude.{
  ℕ, ◌≤◌, ◌≡◌, subst, ◌≢◌, refl, ◌⊎◌, inl, inr, true, ◌&&◌, Option, none, some, List, [], ◌∷◌, ◌==◌,
  All, arith, Bool-cases, Option-cases, is_some,
}
use obscuravpn_client.Liveness.{
  SentPing, LivenessChecker, LivenessCheckerPoll, ProbeEnv, poll, send_ping, sent_traffic, wake,
  new, probe_prefix, bytes_eq, bytes_start_with, id_seq_of, accept_pong, find_probe,
  process_potential_probe_response, process_reply,
}
use obscuravpn_client.Liveness.Loss.{SentInOrder}
use obscuravpn_client.Liveness.Poll.{IsValid, send_ping-IsValid, All-past_later}

find_probe-keeps :
    (payload : List ℕ) (id_seq now : ℕ) (ps : List SentPing) {q : SentPing} {behind : List SentPing}
    → find_probe payload id_seq ps ≡ some (q, behind)
    → SentInOrder ps
    → All (λ p. p.sent_at ≤ now) ps
    → SentInOrder behind × All (λ p. p.sent_at ≤ now) behind
unfolding find_probe
find_probe-keeps payload id_seq now [] e s a = cc
find_probe-keeps payload id_seq now (p ∷ ps) {q} {behind} e s a =
    elim (Bool-cases (bytes_eq p.payload payload && p.id_seq == id_seq)) [
      | inl hit ↦
          let same : ps ≡ behind = cc (rw hit at e) in
          (subst SentInOrder same s.1, subst (All (λ p. p.sent_at ≤ now)) same a.1)
      | inr miss ↦ find_probe-keeps payload id_seq now ps (rw miss at e) s.1 a.1
    ]

find_probe_unknown :
    (payload : List ℕ) (id_seq : ℕ) (ps : List SentPing)
    → All (λ p. p.id_seq ≢ id_seq) ps
    → find_probe payload id_seq ps ≡ none
unfolding find_probe
find_probe_unknown payload id_seq [] a = refl
find_probe_unknown payload id_seq (p ∷ ps) a =
    ground (arith, find_probe_unknown payload id_seq ps a.1)

accept_pong-IsValid :
    (c : LivenessChecker) (now id_seq : ℕ) (found : Option (SentPing × List SentPing))
    → ((q : SentPing) (behind : List SentPing)
        → found ≡ some (q, behind)
        → SentInOrder behind × All (λ p. p.sent_at ≤ now) behind)
    → IsValid now c
    → IsValid now (accept_pong c now id_seq found).0
accept_pong-IsValid c now id_seq none h v = v
accept_pong-IsValid c now id_seq (some (q, behind)) h v =
    let (order, past) = h q behind refl in record { in_order = order; sent_past = past }

process_reply-IsValid :
    (c : LivenessChecker) (now : ℕ) (r : Option (ℕ × ℕ × List ℕ))
    → IsValid now c
    → IsValid now (process_reply c now r).0
process_reply-IsValid c now none v = v
process_reply-IsValid c now (some (id, seq, payload)) v =
    elim (Bool-cases (bytes_start_with payload probe_prefix)) [
      | inl probe ↦ rw probe (
          accept_pong-IsValid c now (id_seq_of id seq)
            (find_probe payload (id_seq_of id seq) c.outstanding_pongs)
            (λ q behind e.
              find_probe-keeps payload (id_seq_of id seq) now c.outstanding_pongs e v.in_order
                v.sent_past)
            v)
      | inr other ↦ rw other v
    ]

module _ (env : ProbeEnv) where
  process-IsValid :
      (c : LivenessChecker) (now : ℕ) (packet : List ℕ)
      → IsValid now c
      → IsValid now (process_potential_probe_response env c now packet).0
  unfolding process_potential_probe_response
  process-IsValid c now packet v = process_reply-IsValid c now (env.echo_reply packet) v

  -- One call at the clock's reading `now`.
  pub data Step (now : ℕ) : LivenessChecker → LivenessChecker → Type 0 where
    traffic :
        {c c' : LivenessChecker} {o : Option (List ℕ)}
        → sent_traffic env c now ≡ some (c', o)
        → Step now c c'
    woken : {c c' : LivenessChecker} {p : List ℕ} → wake env c now ≡ some (c', p) → Step now c c'
    polled :
        {c c' : LivenessChecker} {r : LivenessCheckerPoll}
        → poll env c now ≡ some (c', r)
        → Step now c c'
    received :
        (c : LivenessChecker) (packet : List ℕ)
        → Step now c (process_potential_probe_response env c now packet).0

  -- The checkers that calls reach, with the clock's reading at the last call.
  pub data Reach (mtu src dst : ℕ) : ℕ → LivenessChecker → Type 0 where
    start : (now : ℕ) → Reach mtu src dst now (new mtu src dst)
    call :
        {t now : ℕ} {c c' : LivenessChecker}
        → Reach mtu src dst t c
        → t ≤ now
        → Step now c c'
        → Reach mtu src dst now c'

  sent_traffic-IsValid :
      (c : LivenessChecker) (now : ℕ) {c' : LivenessChecker} {o : Option (List ℕ)}
      → IsValid now c
      → sent_traffic env c now ≡ some (c', o)
      → IsValid now c'
  unfolding sent_traffic
  sent_traffic-IsValid c now v e = elim (Option-cases (send_ping env c now)) [
    | inl none_sent ↦ ground (arith)
    | inr (r, sent) ↦ ground (arith, send_ping-IsValid env c now v sent)
  ]

  wake-IsValid :
      (c : LivenessChecker) (now : ℕ) {c' : LivenessChecker} {p : List ℕ}
      → wake env c now ≡ some (c', p)
      → IsValid now c'
  unfolding wake
  wake-IsValid c now e = send_ping-IsValid env _ now (record { in_order = tt; sent_past = tt }) e

  poll-IsValid :
      (c : LivenessChecker) (now : ℕ) {c' : LivenessChecker} {r : LivenessCheckerPoll}
      → IsValid now c
      → poll env c now ≡ some (c', r)
      → IsValid now c'
  unfolding poll
  poll-IsValid c now v e = elim (Option-cases (send_ping env c now)) [
    | inl none_sent ↦ ground (arith)
    | inr (r, sent) ↦ ground (arith, send_ping-IsValid env c now v sent)
  ]

  Step-IsValid : {now : ℕ} {c c' : LivenessChecker} → Step now c c' → IsValid now c → IsValid now c'
  Step-IsValid {now} (traffic {c = c} e) v = sent_traffic-IsValid c now v e
  Step-IsValid {now} (woken {c = c} e) v = wake-IsValid c now e
  Step-IsValid {now} (polled {c = c} e) v = poll-IsValid c now v e
  Step-IsValid {now} (received c packet) v = process-IsValid c now packet v

  -- Whatever calls are made at readings of a clock that does not go back, the checker's probes stay
  -- in sending order and none was sent in the future.
  pub Reach-IsValid :
      {mtu src dst now : ℕ} {c : LivenessChecker} → Reach mtu src dst now c → IsValid now c
  Reach-IsValid (start now) = unfold new in record { in_order = tt; sent_past = tt }
  Reach-IsValid {now = now} (call {t = t} {c = c} r h st) =
      let v = Reach-IsValid r in
      Step-IsValid st (record {
        in_order = v.in_order;
        sent_past = All-past_later t now c.outstanding_pongs h v.sent_past;
      })

  -- A packet that is no echo reply, or whose id was not sent or is answered already, changes
  -- nothing.
  pub process_unknown :
      (c : LivenessChecker) (now id seq : ℕ) (payload packet : List ℕ)
      → (env.echo_reply packet ≡ none)
        ⊎ ((env.echo_reply packet ≡ some (id, seq, payload))
            × All (λ p. p.id_seq ≢ id_seq_of id seq) c.outstanding_pongs)
      → process_potential_probe_response env c now packet ≡ (c, none)
  unfolding process_potential_probe_response
  process_unknown c now id seq payload packet (inl e) = rw e
  process_unknown c now id seq payload packet (inr (e, a)) =
      ground (arith, find_probe_unknown payload (id_seq_of id seq) c.outstanding_pongs a)

  -- With an MTU that leaves room for a probe, no call panics.
  pub calls_total :
      (c : LivenessChecker) (now : ℕ)
      → 60 ≤ c.mtu
      → (is_some (poll env c now) ≡ true)
        × (is_some (sent_traffic env c now) ≡ true)
        × (is_some (wake env c now) ≡ true)
  unfolding poll sent_traffic wake send_ping
  calls_total c now h = (ground arith, ground arith, ground arith)
