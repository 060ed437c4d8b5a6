-- ===== src/RelayRace/Tests.antt =====
-- Races at concrete inputs.
use obscuravpn_client.Prelude.{◌+◌, String, ℕ, true, ◌≤◌, ◌≡◌, length, refl, some, List, [], ◌∷◌}
use obscuravpn_client.ExitSelection.{OneRelay}
use obscuravpn_client.NetworkConfig.{ok}
use obscuravpn_client.RelayRace.Racing.{
  RelayPorts, spawned, race_relay_handshakes, race_relay_handshakes-limits,
}
use obscuravpn_client.RelayRace.{Arrival, start_race, receive, race, select_relay}
use obscuravpn_client.RelayRace.Accounts.{count, count_best, count_arrivals, race_accounts}

abbrev relay_named : String → OneRelay
relay_named id = record {
  id = id;
  city_code = record { country_code = "se"; city_code = "sto" };
  preferred_exits = [];
}

abbrev arrival : String → ℕ → ℕ → ℕ → Arrival
arrival id rtt h at = record {
  relay = relay_named id;
  port = 443;
  rtt = rtt;
  handshaking = h;
  elapsed = at;
}

abbrev three : List Arrival
three = arrival "a" 40 0 100 ∷ arrival "b" 20 1 150 ∷ arrival "c" 10 2 9000 ∷ []

-- The third relay would have been faster, but answers after the deadline.
second_taken : select_relay three ≡ some (arrival "b" 20 1 150)
unfolding select_relay race receive
second_taken = refl

race_accounts_example :
    count_best 1 (select_relay three)
      + count 1 (race start_race three).0.abandoned
      + count_arrivals 1 (race start_race three).1
    ≡ count_arrivals 1 three
race_accounts_example = race_accounts 1 three

abbrev two_relays : List RelayPorts
two_relays =
    (let first : RelayPorts = record { relay = relay_named "a"; ports = 443 ∷ 53 ∷ [] } in first)
    ∷ (let second : RelayPorts = record {
      relay = relay_named "b";
      ports = 1 ∷ 2 ∷ 3 ∷ 4 ∷ 5 ∷ 6 ∷ [];
    } in
        second)
    ∷ []

started : race_relay_handshakes true true two_relays ≡ ok (spawned two_relays)
unfolding race_relay_handshakes
started = refl

race_relay_handshakes-limits_example : length (spawned two_relays) ≤ 500
race_relay_handshakes-limits_example =
    race_relay_handshakes-limits true true two_relays (spawned two_relays) started
