-- ===== src/Backoff/Tests.antt =====
-- Waiting times at concrete inputs.
use obscuravpn_client.Prelude.{ℕ, List, [], ◌∷◌, ◌≡◌, refl}
use obscuravpn_client.Backoff.{background, next_wait, take, waits}

abbrev no_luck : List ℕ
no_luck = 0 ∷ 0 ∷ 0 ∷ 0 ∷ []

first_waits : waits no_luck (take background 3) ≡ 0 ∷ 500000000 ∷ 1000000000 ∷ []
unfolding waits next_wait take
first_waits = refl
