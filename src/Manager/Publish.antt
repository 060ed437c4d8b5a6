-- ===== src/Manager/Publish.antt =====
-- rustlib/src/manager.rs: what is published, and what logging in changes.
use obscuravpn_client.Prelude.{
  ℕ, zero, suc, ◌≡◌, ◌≢◌, refl, sym, ap, ◌∙◌, ◌⊎◌, inl, inr, ◌↔◌, String, Bool, true, false, some,
  List, [], ◌∷◌, ◌++◌, map, length, arith, Bool-cases, ◌+◌, ◌<◌, if◌then◌else◌,
}
use obscuravpn_client.NetworkConfig.{Result, ok, err}
use obscuravpn_client.Tunnel.{TunnelState}
use obscuravpn_client.Client.{ClientState}
use obscuravpn_client.Manager.{
  Connections, Status, from_tunnel_state, new_status, update_status, Acquired, acquire_failed,
  url_override, token, LoginError, login_api_error, exceeded_url_overrides, config_dirty, LoginStep,
  set_api_url, set_account_id, max_attempts, after_override, after_acquire, acquire_token,
  with_token, login,
}

differ : {b : Bool} → b ≡ false → b ≡ true → ⊥
differ h g = ground arith

-- The derived comparison tells whether two statuses are the same. Then after every update the
-- published status is that of the tunnel and the client as they are; those who watch it are told
-- exactly when it was another one before, and then its version is the fresh one.
pub update_status-current :
    (conns : Connections) (status_eq : Status → Status → Bool)
    → ((a b : Status) → (status_eq a b ≡ true) ↔ (a ≡ b))
    → (fresh : ℕ) (tunnel : TunnelState) (client : ClientState) (status : Status)
    → let (after, told) = update_status conns status_eq fresh tunnel client status in
      let current = λ (version : ℕ). new_status version (from_tunnel_state conns tunnel) client in
      (after ≡ current after.version)
      × (((told ≡ false) × (after ≡ status))
          ⊎ ((told ≡ true) × (after.version ≡ fresh) × (status ≢ current status.version)))
unfolding update_status new_status
update_status-current conns status_eq decides fresh tunnel client status =
    let current = new_status status.version (from_tunnel_state conns tunnel) client in
    elim (Bool-cases (status_eq current status)) [
      | inl e ↦ rw e (sym ((decides current status).0 e), inl (refl, refl))
      | inr e ↦ rw e (
        refl,
        inr (refl, refl, λ same. absurd (differ e ((decides current status).1 (sym same)))),
      )
    ]

-- From attempt `i` on, each attempt is answered with the next of these overrides of the API's URL.
abbrev pub Overrides : (ℕ → Acquired) → ℕ → List String → Type 0
Overrides acquire i [] = Unit
Overrides acquire i (url ∷ urls) = (acquire i ≡ url_override url) × Overrides acquire (suc i) urls

-- The overrides that are followed, and what came of it: a token, an error, or no attempt left.
Acquires : (ℕ → Acquired) → ℕ → ℕ → List LoginStep × Result LoginError String → Type 0
Acquires acquire left attempt (steps, result) =
    (urls : List String) × Overrides acquire attempt urls
    × (steps ≡ map set_api_url urls)
    × (((t : String) × (acquire (attempt + length urls) ≡ token t)
          × (length urls < left)
          × (result ≡ ok t))
        ⊎ (((e : ℕ) × (acquire (attempt + length urls) ≡ acquire_failed e)
              × (length urls < left)
              × (result ≡ err (login_api_error e)))
            ⊎ ((length urls ≡ left) × (result ≡ err exceeded_url_overrides))))

first : (n : ℕ) → n + 0 ≡ n
first n = omega arith

zeroth : (n : ℕ) → n ≡ 0 + n
zeroth n = omega arith

next : (n m : ℕ) → suc n + m ≡ n + suc m
next n m = omega arith

after_acquire-Acquires :
    (acquire : ℕ → Acquired) (left attempt : ℕ) (a : Acquired)
    (rest : List LoginStep × Result LoginError String)
    → acquire attempt ≡ a
    → Acquires acquire left (suc attempt) rest
    → Acquires acquire (suc left) attempt (after_acquire a rest)
unfolding after_acquire after_override Acquires
after_acquire-Acquires acquire left attempt (acquire_failed e) rest h r =
    ([], tt, refl, inr (inl (e, ap acquire (first attempt) ∙ h, omega arith, refl)))
after_acquire-Acquires acquire left attempt (token t) rest h r =
    ([], tt, refl, inl (t, ap acquire (first attempt) ∙ h, omega arith, refl))
after_acquire-Acquires acquire left attempt (url_override url) (steps, result) h r =
    let (urls, overrides, same, outcome) = r in
    let later = sym (ap acquire (next attempt (length urls))) in
    (
      url ∷ urls,
      (h, overrides),
      ap (λ l. set_api_url url ∷ l) same,
      elim outcome [
        | inl (t, got, few, out) ↦ inl (t, later ∙ got, omega (arith, few), out)
        | inr (inl (e, failed, few, out)) ↦ inr (inl (e, later ∙ failed, omega (arith, few), out))
        | inr (inr (all, out)) ↦ inr (inr (omega (arith, all), out))
      ],
    )

acquire_token-Acquires :
    (acquire : ℕ → Acquired) (left attempt : ℕ)
    → Acquires acquire left attempt (acquire_token acquire left attempt)
unfolding acquire_token Acquires
acquire_token-Acquires acquire zero attempt = ([], tt, refl, inr (inr (refl, refl)))
acquire_token-Acquires acquire (suc left) attempt =
    after_acquire-Acquires acquire left attempt (acquire attempt)
      (acquire_token acquire left (suc attempt)) refl
      (acquire_token-Acquires acquire left (suc attempt))

-- What a validated login comes to, from the answers to its attempts.
abbrev pub LogsIn :
    (ℕ → Acquired) → Bool → String → List LoginStep × Result LoginError Unit → Type 0
LogsIn answers saved account (steps, result) =
    (urls : List String) × Overrides answers 0 urls
    × (((t : String) × (answers (length urls) ≡ token t)
          × (length urls < 10)
          × (steps ≡ map set_api_url urls ++ (set_account_id account (some t) ∷ []))
          × (result ≡ (if saved then ok tt else err config_dirty)))
        ⊎ (((e : ℕ) × (answers (length urls) ≡ acquire_failed e)
              × (length urls < 10)
              × (steps ≡ map set_api_url urls)
              × (result ≡ err (login_api_error e)))
            ⊎ ((length urls ≡ 10)
                × (steps ≡ map set_api_url urls)
                × (result ≡ err exceeded_url_overrides))))

with_token-LogsIn :
    (answers : ℕ → Acquired) (account : String) (saved : Bool)
    (acquired : List LoginStep × Result LoginError String)
    → Acquires answers 10 0 acquired
    → LogsIn answers saved account (with_token account saved acquired)
unfolding with_token Acquires
with_token-LogsIn answers account saved (steps, result) (urls, overrides, same, outcome) = (
  urls,
  overrides,
  elim outcome [
    | inl (t, got, few, out) ↦ inl (
      t,
      ap answers (zeroth (length urls)) ∙ got,
      few,
      rw out (ap (λ l. l ++ (set_account_id account (some t) ∷ [])) same),
      rw out refl,
    )
    | inr (inl (e, failed, few, out)) ↦
        inr (inl (e, ap answers (zeroth (length urls)) ∙ failed, few, rw out same, rw out refl))
    | inr (inr (all, out)) ↦ inr (inr (all, rw out same, rw out refl))
  ],
)

-- A validated login follows the overrides of the API's URL that the server answers the first attempts
-- with, in their order. If the attempt after them, one of ten, is answered with a token for the
-- account, then it sets the account with that token, and succeeds if this is saved; if that attempt
-- fails, or there were ten overrides, then it fails with that error and leaves the account alone.
pub login-steps :
    (acquire : String → ℕ → Acquired) (saved : Bool) (account : String)
    → LogsIn (acquire account) saved account (login acquire saved account true)
unfolding login max_attempts
login-steps acquire saved account =
    with_token-LogsIn (acquire account) account saved (acquire_token (acquire account) 10 0)
      (acquire_token-Acquires (acquire account) 10 0)
