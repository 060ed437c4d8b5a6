-- ===== src/Manager/Tests.antt =====
-- Logging in at concrete answers.
use obscuravpn_client.Prelude.{
  ℕ, zero, suc, arith, ◌≡◌, refl, String, true, some, List, [], ◌∷◌, map, length, if◌then◌else◌,
  ◌==◌,
}
use obscuravpn_client.Backoff.{background, take, waits}
use obscuravpn_client.Manager.Registration.{Answer, register_attempts, register_attempts-all}
use obscuravpn_client.Manager.{
  Acquired, url_override, token, set_api_url, set_account_id, login, acquire_token, after_acquire,
  after_override, with_token, max_attempts,
}
use obscuravpn_client.Manager.Publish.{LogsIn, login-steps}

-- The first attempt is sent elsewhere.
abbrev server : String → ℕ → Acquired
server account attempt = if attempt == 0 then url_override "https://demo" else token "t"

logs_in :
    (login server true "7" true).0 ≡ set_api_url "https://demo" ∷ set_account_id "7" (some "t") ∷ []
unfolding login acquire_token after_acquire after_override with_token max_attempts
logs_in = refl

login-steps_example : LogsIn (server "7") true "7" (login server true "7" true)
login-steps_example = login-steps server true "7"

-- Every attempt succeeds.
abbrev answers : ℕ → List Answer
answers zero = []
answers (suc n) = record { draw = n; registered = true } ∷ answers n

register_attempts-all_example :
    let made = register_attempts (answers 12) (take background 10) in
    (length made ≡ 10)
    × (map (λ x. x.0) made ≡ waits (map (λ a. a.draw) (answers 12)) (take background 10))
register_attempts-all_example = register_attempts-all (answers 12) (omega arith)
