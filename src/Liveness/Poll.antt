-- ===== src/Liveness/Poll.antt =====
-- rustlib/src/liveness.rs: the decisions of `poll`, and the invariant of the checker's instants.
use obscuravpn_client.Prelude.{
  ℕ, ◌+◌, ◌≤◌, ◌<◌, ◌≡◌, ◌↔◌, refl, false, Option, none, some, List, [], ◌∷◌, ◌++◌, All, arith,
  if◌then◌else◌,
}
use obscuravpn_client.Liveness.{
  SentPing, LivenessChecker, ProbeEnv, dead, alive_until, poll, send_ping, next_poll, ping_period,
  max_lost_probes, ping_due, lost_probe_count_and_time_of_next_loss, probe_lost_period,
  busy_ping_period, probe_payload,
}
use obscuravpn_client.Liveness.Loss.{SentInOrder, count_expired, lost-count_expired, lost_next}

-- The instants that the checker keeps do not lie in the future, and its probes are in the order of
-- their sending.
pub record IsValid (now : ℕ) (c : LivenessChecker) : Type 0 where
  pub in_order : SentInOrder c.outstanding_pongs
  pub sent_past : All (λ p. p.sent_at ≤ now) c.outstanding_pongs

All-append :
    (t : ℕ) (ps : List SentPing) (q : SentPing)
    → All (λ p. t ≤ p.sent_at) ps
    → t ≤ q.sent_at
    → All (λ p. t ≤ p.sent_at) (ps ++ q ∷ [])
All-append t [] q a h = (h, tt)
All-append t (p ∷ ps) q a h = (a.0, All-append t ps q a.1 h)

SentInOrder-append :
    (now : ℕ) (ps : List SentPing) (q : SentPing)
    → SentInOrder ps
    → All (λ p. p.sent_at ≤ now) ps
    → q.sent_at ≡ now
    → SentInOrder (ps ++ q ∷ []) × All (λ p. p.sent_at ≤ now) (ps ++ q ∷ [])
SentInOrder-append now [] q s a e = omega arith
SentInOrder-append now (p ∷ ps) q s a e =
    let (order, past) = SentInOrder-append now ps q s.1 a.1 e in
    ((All-append p.sent_at ps q s.0 (omega arith), order), (a.0, past))

pub All-past_later :
    (now later : ℕ) (ps : List SentPing)
    → now ≤ later
    → All (λ p. p.sent_at ≤ now) ps
    → All (λ p. p.sent_at ≤ later) ps
All-past_later now later [] h a = tt
All-past_later now later (p ∷ ps) h a = (omega arith, All-past_later now later ps h a.1)

next_poll_bounds :
    (c : LivenessChecker) (now lost : ℕ) (next : Option ℕ)
    → ((t : ℕ) → next ≡ some t → now < t)
    → ping_due c.last_ping_sent_at (ping_period c lost) now ≡ false
    → (now < next_poll c now lost next) × (next_poll c now lost next ≤ now + busy_ping_period)
unfolding next_poll
next_poll_bounds c now lost none h due = ground arith
next_poll_bounds c now lost (some t) h due = ground (arith, h t refl)

module _ (env : ProbeEnv) where
  dead_count :
      (c : LivenessChecker) (now : ℕ)
      → poll env c now ≡ some (c, dead)
      → (lost_probe_count_and_time_of_next_loss c now).0
        ≡ count_expired (probe_lost_period c) now c.outstanding_pongs
      → max_lost_probes c < count_expired (probe_lost_period c) now c.outstanding_pongs
  unfolding poll send_ping
  dead_count c now e l = ground arith

  -- The tunnel is declared dead exactly when more probes have expired than are allowed: four, or
  -- one after a wake.
  pub poll-dead :
      (c : LivenessChecker) (now : ℕ)
      → SentInOrder c.outstanding_pongs
      → (poll env c now ≡ some (c, dead)) ↔ (
          (if c.is_waking then 1 else 4)
          < count_expired (probe_lost_period c) now c.outstanding_pongs)
  unfolding poll max_lost_probes
  poll-dead c now s = (
    λ e. dead_count c now e (lost-count_expired c now s),
    λ h. ground (arith, lost-count_expired c now s),
  )

  -- If it is not dead and no probe is due, the checker is left as it was, and is to be polled
  -- again at an instant later than now, and at most a second from now.
  pub poll-alive_until :
      (c : LivenessChecker) (now : ℕ) {c' : LivenessChecker} {t : ℕ}
      → poll env c now ≡ some (c', alive_until t)
      → (c' ≡ c) × (now < t) × (t ≤ now + busy_ping_period)
  unfolding poll send_ping
  poll-alive_until c now e =
      let (lost, next) = lost_probe_count_and_time_of_next_loss c now in
      ground (arith, next_poll_bounds c now lost next (λ t q. lost_next c now q))

  pub send_ping-IsValid :
      (c : LivenessChecker) (now : ℕ) {r : LivenessChecker × List ℕ}
      → IsValid now c
      → send_ping env c now ≡ some r
      → IsValid now r.0
  unfolding send_ping
  send_ping-IsValid c now v e =
      let ping : SentPing = record {
        sent_at = now;
        id_seq = c.next_id_seq;
        payload = probe_payload env c.mtu;
      } in
      let (order, past) =
        SentInOrder-append now c.outstanding_pongs ping v.in_order v.sent_past refl in
      ground arith
