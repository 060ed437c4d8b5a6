-- ===== src/RelayRace.antt =====
-- rustlib/src/client_state.rs, the loop of `select_relay`: which of the relays that are raced is
-- taken. The handshakes arrive in the order of a list; a handshake is its number, and a time is in
-- nanoseconds since the start of the race.
mod Accounts
mod Choice
mod Racing
mod Tests
use obscuravpn_client.Prelude.{
  ℕ, ◌*◌, min, String, Bool, true, false, not, Option, none, some, List, [], ◌∷◌, ltb, leb, str_eq,
  any, length, if◌then◌else◌,
}
use obscuravpn_client.ExitSelection.{OneRelay}

pub record Arrival : Type 0 where
  pub relay : OneRelay
  pub port : ℕ
  pub rtt : ℕ
  pub handshaking : ℕ
  pub elapsed : ℕ

pub record Race : Type 0 where
  pub deadline : ℕ
  pub relays_connected_successfully : List String
  pub best_candidate : Option Arrival
  -- The handshakes that were rejected, each by a task that abandons it.
  pub abandoned : List ℕ

abbrev pub seconds : ℕ → ℕ
seconds n = n * 1000000000

abbrev pub start_race : Race
start_race = record {
  deadline = seconds 30;
  relays_connected_successfully = [];
  best_candidate = none;
  abandoned = [];
}

-- `BTreeSet::insert`.
abbrev pub set_insert : String → List String → List String
set_insert id ids = if any (str_eq id) ids then ids else id ∷ ids

abbrev pub candidate_beats : Option Arrival → Arrival → Bool
candidate_beats none a = false
candidate_beats (some best) a = ltb best.rtt a.rtt

abbrev pub also_abandon : Option Arrival → List ℕ → List ℕ
also_abandon none hs = hs
also_abandon (some a) hs = a.handshaking ∷ hs

-- What one handshake does to the race.
pub receive : Arrival → Race → Race
receive a r =
    let ids = set_insert a.relay.id r.relays_connected_successfully in
    if candidate_beats r.best_candidate a
    then record r { relays_connected_successfully = ids; abandoned = a.handshaking ∷ r.abandoned }
    else record {
      deadline = min (a.elapsed * 3) (seconds 5);
      relays_connected_successfully = ids;
      best_candidate = some a;
      abandoned = also_abandon r.best_candidate r.abandoned;
    }

-- The loop, with the handshakes that are not waited for, which are abandoned with the race.
pub race : Race → List Arrival → Race × List Arrival
race r [] = (r, [])
race r (a ∷ rest) =
    let r' = receive a r in
    let later = race r' rest in
    if ltb r.deadline a.elapsed
    then (r, a ∷ rest)
    else if leb 5 (length r'.relays_connected_successfully)
    then (r', rest)
    else later

-- `select_relay` from the race on: the winner, or `RelaySelectionError::NoSuccess`.
pub select_relay : List Arrival → Option Arrival
select_relay arrivals = (race start_race arrivals).0.best_candidate
