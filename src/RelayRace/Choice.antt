-- ===== src/RelayRace/Choice.antt =====
-- The relay that the race of rustlib/src/client_state.rs takes.
use obscuravpn_client.Prelude.{
  ℕ, ◌≤◌, ◌≡◌, ◌≢◌, refl, ap, inl, inr, false, Option, none, some, List, [], ◌∷◌, ◌++◌, ltb, leb,
  All, length, if◌then◌else◌, arith, Bool-cases, ◌<◌, ◌*◌, ◌⊎◌, min, sym, subst, ◌∙◌, Among, String,
}
use obscuravpn_client.RelayRace.{
  Arrival, Race, seconds, start_race, receive, race, select_relay, candidate_beats,
}

-- The candidate is at least as fast as the arrival.
abbrev pub AsFast : Option Arrival → Arrival → Type 0
AsFast none a = ⊥
AsFast (some best) a = best.rtt ≤ a.rtt

receive-AsFast : (a : Arrival) (r : Race) → AsFast (receive a r).best_candidate a
unfolding receive
receive-AsFast a r = ground arith

receive-AsFast_before :
    (a b : Arrival) (r : Race) → AsFast r.best_candidate b → AsFast (receive a r).best_candidate b
unfolding receive
receive-AsFast_before a b r h = ground arith

-- What is selected is one of the arrivals.
abbrev pub SomeAmong : Option Arrival → List Arrival → Type 0
SomeAmong none waited = ⊥
SomeAmong (some best) waited = Among best waited

-- Nothing is selected if nothing was waited for, and else one of the arrivals.
abbrev pub Selected : Option Arrival → List Arrival → Type 0
Selected none waited = waited ≡ []
Selected (some best) waited = Among best waited

-- Each of the arrivals comes within the deadline at its time: one that is at least as fast as the best
-- so far sets it anew, to three times the time at which it comes, and to at most five seconds.
abbrev pub InTime : ℕ → Option Arrival → List Arrival → Type 0
InTime deadline best [] = Unit
InTime deadline none (a ∷ later) =
    (a.elapsed ≤ deadline) × InTime (min (a.elapsed * 3) 5000000000) (some a) later
InTime deadline (some best) (a ∷ later) =
    (a.elapsed ≤ deadline)
    × InTime (if ltb best.rtt a.rtt then deadline else min (a.elapsed * 3) 5000000000)
        (some (if ltb best.rtt a.rtt then best else a)) later

-- The race is over: nothing else arrives, five relays have answered, or the next one is late.
abbrev pub Over : Race → List Arrival → Type 0
Over r rest =
    (rest ≡ [])
    ⊎ ((5 ≤ length r.relays_connected_successfully)
        ⊎ ((a : Arrival) × (later : List Arrival) × (rest ≡ a ∷ later) × (r.deadline < a.elapsed)))

receive-InTime_fields :
    (a : Arrival) (later : List Arrival) (deadline : ℕ) (ids : List String) (best : Option Arrival)
    (abandoned : List ℕ)
    → let r : Race = record {
      deadline = deadline;
      relays_connected_successfully = ids;
      best_candidate = best;
      abandoned = abandoned;
    } in
      a.elapsed ≤ deadline
      → InTime (receive a r).deadline (receive a r).best_candidate later
      → InTime deadline best (a ∷ later)
unfolding receive
receive-InTime_fields a later deadline ids none abandoned early h = (early, h)
receive-InTime_fields a later deadline ids (some best) abandoned early h =
    elim (Bool-cases (ltb best.rtt a.rtt)) [
      | inl slower ↦ (early, rw slower (rw slower at h))
      | inr faster ↦ (early, rw faster (rw faster at h))
    ]

receive-InTime :
    (a : Arrival) (later : List Arrival) (r : Race)
    → a.elapsed ≤ r.deadline
    → InTime (receive a r).deadline (receive a r).best_candidate later
    → InTime r.deadline r.best_candidate (a ∷ later)
receive-InTime a later r =
    receive-InTime_fields a later r.deadline r.relays_connected_successfully r.best_candidate
      r.abandoned

receive-best :
    (a : Arrival) (r : Race)
    → ((receive a r).best_candidate ≡ r.best_candidate) ⊎ ((receive a r).best_candidate ≡ some a)
unfolding receive
receive-best a r = elim (Bool-cases (candidate_beats r.best_candidate a)) [
  | inl slower ↦ rw slower (inl refl)
  | inr faster ↦ rw faster (inr refl)
]

-- What the race waited for.
abbrev pub Waited : Race → Race → List Arrival → List Arrival → List Arrival → Type 0
Waited r r' waited rest arrivals =
    (waited ++ rest ≡ arrivals)
    × All (AsFast r'.best_candidate) waited
    × ((r'.best_candidate ≡ r.best_candidate) ⊎ SomeAmong r'.best_candidate waited)
    × InTime r.deadline r.best_candidate waited
    × Over r' rest

-- The candidate is one of more arrivals.
SomeAmong-later :
    (a : Arrival) (waited : List Arrival) (o : Option Arrival)
    → SomeAmong o waited
    → SomeAmong o (a ∷ waited)
SomeAmong-later a waited none m = m
SomeAmong-later a waited (some b) m = inr m

source_later :
    (a : Arrival) (waited : List Arrival) (r : Race) (o : Option Arrival)
    → (o ≡ (receive a r).best_candidate) ⊎ SomeAmong o waited
    → (o ≡ r.best_candidate) ⊎ SomeAmong o (a ∷ waited)
source_later a waited r o (inr m) = inr (SomeAmong-later a waited o m)
source_later a waited r o (inl same) = elim (receive-best a r) [
  | inl kept ↦ inl (same ∙ kept)
  | inr now ↦ inr (subst (λ b. SomeAmong b (a ∷ waited)) (sym (same ∙ now)) (inl refl))
]

Result : Race → List Arrival → Type 0
Result r arrivals =
    (waited : List Arrival) × Waited r (race r arrivals).0 waited (race r arrivals).1 arrivals
    × ((b : Arrival) → AsFast r.best_candidate b → AsFast (race r arrivals).0.best_candidate b)

in_time : (d e : ℕ) → e ≤ d → ltb d e ≡ false
in_time d e h = ground arith

AsFast-some : (o : Option Arrival) (a : Arrival) → AsFast o a → o ≢ none
AsFast-some none a f = absurd f
AsFast-some (some b) a f = λ e. ground arith

within : (d e : ℕ) → ltb d e ≡ false → e ≤ d
within d e early = ground arith

race-Result : (arrivals : List Arrival) (r : Race) → Result r arrivals
unfolding Result race
race-Result [] r = ([], (refl, tt, inl refl, tt, inl refl), λ b f. f)
race-Result (a ∷ rest) r =
    let r' = receive a r in
    let (waited, (split, fast, source, soon, over), keeps) = race-Result rest r' in
    elim (Bool-cases (ltb r.deadline a.elapsed)) [
      | inl late ↦
          rw late ([], (refl, tt, inl refl, tt, inr (inr (a, rest, refl, ground arith))), λ b f. f)
      | inr early ↦ elim (Bool-cases (leb 5 (length r'.relays_connected_successfully))) [
        | inl full ↦
            rw (early, full)
              (
                a ∷ [],
                (
                  refl,
                  (receive-AsFast a r, tt),
                  source_later a [] r r'.best_candidate (inl refl),
                  receive-InTime a [] r (within r.deadline a.elapsed early) tt,
                  inr (inl (ground arith)),
                ),
                λ b f. receive-AsFast_before a b r f,
              )
        | inr more ↦
            rw (early, more)
              (
                a ∷ waited,
                (
                  ap (λ w. a ∷ w) split,
                  (keeps a (receive-AsFast a r), fast),
                  source_later a waited r (race r' rest).0.best_candidate source,
                  receive-InTime a waited r (within r.deadline a.elapsed early) soon,
                  over,
                ),
                λ b f. keeps b (receive-AsFast_before a b r f),
              )
      ]
    ]

race-some :
    (a : Arrival) (rest : List Arrival)
    → a.elapsed ≤ seconds 30
    → (race start_race (a ∷ rest)).0.best_candidate ≢ none
unfolding race receive Result
race-some a rest h =
    let (waited, all, keeps) = race-Result rest (receive a start_race) in
    let fast = keeps a (receive-AsFast a start_race) in
    rw (in_time (seconds 30) a.elapsed h)
      (AsFast-some (race (receive a start_race) rest).0.best_candidate a fast)

-- A relay is selected whenever one arrives within 30 seconds.
pub select_relay_some :
    (a : Arrival) (rest : List Arrival) → a.elapsed ≤ seconds 30 → select_relay (a ∷ rest) ≢ none
unfolding select_relay
select_relay_some a rest h = race-some a rest h
