-- ===== src/Liveness/Loss.antt =====
-- rustlib/src/liveness.rs: counting lost probes, against a count over all outstanding probes.
use obscuravpn_client.Prelude.{
  ℕ, suc, ◌+◌, ◌≤◌, ◌<◌, ◌≡◌, refl, inl, inr, some, List, [], ◌∷◌, ltb, leb, if◌then◌else◌, All,
  arith, Bool-cases,
}
use obscuravpn_client.Liveness.{
  SentPing, LivenessChecker, lost_from, lost_probe_count_and_time_of_next_loss, probe_lost_period,
}

-- Probes stand in the order of their sending.
abbrev pub SentInOrder : List SentPing → Type 0
SentInOrder [] = Unit
SentInOrder (p ∷ ps) = All (λ q. p.sent_at ≤ q.sent_at) ps × SentInOrder ps

-- How many of the probes are older than the period.
unfoldable pub count_expired : ℕ → ℕ → List SentPing → ℕ
count_expired period now [] = 0
count_expired period now (p ∷ ps) =
    let rest = count_expired period now ps in
    if leb (p.sent_at + period) now then suc rest else rest

count_expired_later :
    (period now t : ℕ) (ps : List SentPing)
    → now < t + period
    → All (λ q. t ≤ q.sent_at) ps
    → count_expired period now ps ≡ 0
unfolding count_expired
count_expired_later period now t [] h a = refl
count_expired_later period now t (p ∷ ps) h a =
    ground (arith, count_expired_later period now t ps h a.1)

lost_from_count :
    (period now i : ℕ) (ps : List SentPing)
    → SentInOrder ps
    → (lost_from period now i ps).0 ≡ i + count_expired period now ps
unfolding lost_from count_expired
lost_from_count period now i [] s = omega arith
lost_from_count period now i (p ∷ ps) s =
    ground (
      arith,
      lost_from_count period now (suc i) ps s.1,
      count_expired_later period now p.sent_at ps,
    )

pub lost_from_next :
    (period now i : ℕ) (ps : List SentPing) {t : ℕ}
    → (lost_from period now i ps).1 ≡ some t
    → now < t
unfolding lost_from
lost_from_next period now i [] e = ground arith
lost_from_next period now i (p ∷ ps) e = elim (Bool-cases (ltb now (p.sent_at + period))) [
  | inl alive ↦ ground arith
  | inr lost ↦ lost_from_next period now (suc i) ps (rw lost at e)
]

-- With the probes in sending order, the loop, which stops at the first probe that is not lost yet,
-- counts every lost probe.
pub lost-count_expired :
    (c : LivenessChecker) (now : ℕ)
    → SentInOrder c.outstanding_pongs
    → (lost_probe_count_and_time_of_next_loss c now).0
      ≡ count_expired (probe_lost_period c) now c.outstanding_pongs
unfolding lost_probe_count_and_time_of_next_loss
lost-count_expired c now s =
    omega (arith, lost_from_count (probe_lost_period c) now 0 c.outstanding_pongs s)

pub lost_next :
    (c : LivenessChecker) (now : ℕ) {t : ℕ}
    → (lost_probe_count_and_time_of_next_loss c now).1 ≡ some t
    → now < t
unfolding lost_probe_count_and_time_of_next_loss
lost_next c now e = lost_from_next (probe_lost_period c) now 0 c.outstanding_pongs e
