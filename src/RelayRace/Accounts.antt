-- ===== src/RelayRace/Accounts.antt =====
-- The handshakes of the race of rustlib/src/client_state.rs: none is forgotten.
use obscuravpn_client.Prelude.{
  ℕ, ◌+◌, ◌≡◌, refl, inl, inr, Option, none, some, List, [], ◌∷◌, ltb, leb, ◌==◌, length,
  if◌then◌else◌, arith, Bool-cases,
}
use obscuravpn_client.RelayRace.{Arrival, Race, start_race, receive, race, select_relay}

-- How often a handshake is in a list.
abbrev pub count : ℕ → List ℕ → ℕ
count h [] = 0
count h (x ∷ xs) = (if h == x then 1 else 0) + count h xs

abbrev pub count_arrivals : ℕ → List Arrival → ℕ
count_arrivals h [] = 0
count_arrivals h (a ∷ rest) = (if h == a.handshaking then 1 else 0) + count_arrivals h rest

abbrev pub count_best : ℕ → Option Arrival → ℕ
count_best h none = 0
count_best h (some a) = if h == a.handshaking then 1 else 0

-- Handshakes in hand: the candidate and the abandoned ones.
abbrev pub held : ℕ → Race → ℕ
held h r = count_best h r.best_candidate + count h r.abandoned

receive-held :
    (h : ℕ) (a : Arrival) (r : Race)
    → held h (receive a r) ≡ (if h == a.handshaking then 1 else 0) + held h r
unfolding receive
receive-held h a r = ground arith

race-held :
    (h : ℕ) (arrivals : List Arrival) (r : Race)
    → held h (race r arrivals).0 + count_arrivals h (race r arrivals).1
      ≡ held h r + count_arrivals h arrivals
unfolding race
race-held h [] r = refl
race-held h (a ∷ rest) r =
    let received = receive-held h a r in
    let later = race-held h rest (receive a r) in
    elim (Bool-cases (ltb r.deadline a.elapsed)) [
      | inl late ↦ rw late refl
      | inr early ↦ elim (Bool-cases (leb 5 (length (receive a r).relays_connected_successfully))) [
        | inl full ↦ rw (early, full) omega (arith, received)
        | inr more ↦ rw (early, more) omega (arith, received, later)
      ]
    ]

-- No handshake is dropped: each one that arrives is as often the selected one, abandoned by the
-- race, or left to be abandoned with the race as it arrives.
pub race_accounts :
    (h : ℕ) (arrivals : List Arrival)
    → count_best h (select_relay arrivals)
        + count h (race start_race arrivals).0.abandoned
        + count_arrivals h (race start_race arrivals).1
      ≡ count_arrivals h arrivals
unfolding select_relay
race_accounts h arrivals = omega (arith, race-held h arrivals start_race)
