-- ===== src/ExitSelection/Tests.antt =====
-- Tests of the exit selection, and its theorems at concrete inputs.
use obscuravpn_client.Prelude.{
  ◌≢◌, inl, ℕ, true, false, none, some, List, [], ◌∷◌, ◌≡◌, refl, Among,
}
use obscuravpn_client.ExitSelection.{
  CityCode, OneExit, OneRelay, any_exit, matches, ExitSelectionState, default_state, exclude, rank,
  candidates, select_next_exit, max_by_key, best_from, better_of, rank_le, note_selected, count_up,
}
use obscuravpn_client.ExitSelection.Choice.{
  choices, DrawnFor, NoneBefore, select-best, select_next_exit_retry,
}
use obscuravpn_client.ExitSelection.Caps.{
  IsCapped, default-IsCapped, select_all, select_all-IsCapped,
}

abbrev berlin : CityCode
berlin = record { country_code = "de"; city_code = "ber" }

abbrev toronto : CityCode
toronto = record { country_code = "ca"; city_code = "tor" }

abbrev exit_a : OneExit
exit_a = record {
  id = "a";
  city_code = berlin;
  datacenter_id = 1;
  tier = 2;
  provider_name = "Mullvad VPN";
}

abbrev exit_b : OneExit
exit_b = record {
  id = "b";
  city_code = toronto;
  datacenter_id = 2;
  tier = 1;
  provider_name = "Mullvad VPN";
}

abbrev two_exits : List OneExit
two_exits = exit_a ∷ exit_b ∷ []

abbrev near_toronto : OneRelay
near_toronto = record { id = "r"; city_code = toronto; preferred_exits = [] }

abbrev draws : ℕ → ℕ
draws i = i

-- The exit in the relay's city comes first, then the other, then the state is cleared.
first_choice :
    (select_next_exit any_exit two_exits near_toronto draws default_state).1 ≡ some exit_b
unfolding select_next_exit candidates matches exclude max_by_key best_from better_of rank_le rank
first_choice = refl

abbrev after_b : ExitSelectionState
after_b = (select_next_exit any_exit two_exits near_toronto draws default_state).0

second_choice : (select_next_exit any_exit two_exits near_toronto draws after_b).1 ≡ some exit_a
unfolding select_next_exit candidates matches exclude max_by_key best_from better_of rank_le rank
    note_selected count_up
second_choice = refl

select-best_example :
    Among exit_b two_exits
    × (matches any_exit exit_b ≡ true)
    × (exclude default_state exit_b ≡ false)
    × ((r : ℕ) × DrawnFor draws 0 (choices default_state any_exit two_exits) exit_b r
        × NoneBefore near_toronto draws 0 (choices default_state any_exit two_exits) exit_b r)
select-best_example = select-best any_exit two_exits near_toronto draws default_state first_choice

nothing_left : (select_next_exit any_exit (exit_b ∷ []) near_toronto draws after_b).1 ≡ none
unfolding select_next_exit candidates matches exclude max_by_key best_from better_of rank_le rank
    note_selected count_up
nothing_left = refl

fits : matches any_exit exit_b ≡ true
unfolding matches
fits = refl

select_next_exit_retry_example :
    (select_next_exit any_exit
      (exit_b ∷ [])
      near_toronto
      draws
      (select_next_exit any_exit (exit_b ∷ []) near_toronto draws after_b).0).1
    ≢ none
select_next_exit_retry_example =
    select_next_exit_retry any_exit (exit_b ∷ []) near_toronto draws draws after_b exit_b (inl refl)
      fits nothing_left

select_all-IsCapped_example : IsCapped (
    select_all
      (record { selector = any_exit; exits = two_exits; relay = near_toronto; random = draws } ∷ [])
      default_state)
select_all-IsCapped_example =
    select_all-IsCapped
      (record { selector = any_exit; exits = two_exits; relay = near_toronto; random = draws } ∷ [])
      default_state default-IsCapped
