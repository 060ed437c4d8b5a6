-- ===== src/Client/Requests.antt =====
-- rustlib/src/client_state.rs, `api_client`, `cache_auth_token`, the requests, the key registration
-- and `maybe_update_exits`, `maybe_update_relays`. What the server answers to a client is an argument.
use obscuravpn_client.Prelude.{ℕ, String, Bool, false, Option, none, some, List, if◌then◌else◌, ltb}
use obscuravpn_client.KeyCache.{
  Crypto, WireGuardKeyCache, rotate_now, need_registration, registered, rotate_if_required,
}
use obscuravpn_client.ExitSelection.{OneExit, OneRelay}
use obscuravpn_client.NetworkConfig.{Result, ok, err}
use obscuravpn_client.Config.{
  Config, Version, artificial, etag_version, ConfigCached, staleness, etag, revalidated,
}
use obscuravpn_client.Config.File.{SaveAnswers}
use obscuravpn_client.Config.Handle.{change}
use obscuravpn_client.Client.{ApiClient, ClientState, make_api_client, change_config}

-- `ApiError` and the kinds that the client tells apart; other errors by a code.
pub data ApiError : Type 0 where
  not_logged_in wg_key_rotation_required no_body : ApiError
  other_error : ℕ → ApiError

-- What a run of a request leaves: the client's new token, and the server's answer.
pub record Ran (A : Type 0) : Type 0 where
  pub auth_token : Option String
  pub result : Result ApiError A

-- `obscuravpn_api::Response` without its status.
pub record Response (T : Type 0) : Type 0 where
  pub etag : Option (List ℕ)
  pub body : Option T

-- Under the lock: the cached client, or a new one for the account that was read before. `made` is
-- the error of `Client::new_unauthenticated`, if it fails.
abbrev pub client_or_new :
    Option ApiError
    → String
    → ClientState
    → Option ApiClient
    → ClientState × Result ApiError ApiClient
client_or_new made account_id s (some client) = (s, ok client)
client_or_new none account_id s none =
    let client = make_api_client account_id s in
    (record s { cached_api_client = some client }, ok client)
client_or_new (some e) account_id s none = (s, err e)

unfoldable pub client_for :
    Option ApiError → String → ClientState → ClientState × Result ApiError ApiClient
client_for made account_id s = client_or_new made account_id s s.cached_api_client

abbrev pub client_of_account :
    Option ApiError → ClientState → Option String → ClientState × Result ApiError ApiClient
client_of_account made s none = (s, err not_logged_in)
client_of_account made s (some account_id) = client_for made account_id s

unfoldable pub api_client : Option ApiError → ClientState → ClientState × Result ApiError ApiClient
api_client made s = client_of_account made s s.config.config.account_id

module _ (rest_eq : Config → Config → Bool) where
  unfoldable pub cache_auth_token : SaveAnswers → Option String → ClientState → ClientState
  cache_auth_token a token s =
      change_config rest_eq a (λ c. record c { cached_auth_token = token }) s

  abbrev pub ran :
      {A : Type 0}
      → SaveAnswers
      → (ApiClient → Ran A)
      → ClientState × Result ApiError ApiClient
      → ClientState × Result ApiError A
  ran a run (s, err e) = (s, err e)
  ran a run (s, ok client) = let r = run client in (cache_auth_token a r.auth_token s, r.result)

  -- `api_request`, and `cached_api_request` where the request carries an ETag.
  unfoldable pub api_request :
      {A : Type 0}
      → SaveAnswers
      → Option ApiError
      → (ApiClient → Ran A)
      → ClientState
      → ClientState × Result ApiError A
  api_request a made run s = ran a run (api_client made s)

  abbrev pub change_keys :
      {T : Type 0}
      → SaveAnswers
      → (WireGuardKeyCache → WireGuardKeyCache × T)
      → ClientState
      → ClientState × T
  change_keys a f s =
      let r =
        change rest_eq a
          (λ c. (
            record c { wireguard_key_cache = (f c.wireguard_key_cache).0 },
            (f c.wireguard_key_cache).1,
          ))
          s.config in
      (record s { config = r.0 }, r.1)

  abbrev pub keys_only :
      SaveAnswers → (WireGuardKeyCache → WireGuardKeyCache) → ClientState → ClientState
  keys_only a f s = (change_keys a (λ k. (f k, tt)) s).0

  unfoldable pub rotate_wireguard_key_if_required :
      Crypto → ℕ → ℕ → SaveAnswers → ClientState → ClientState
  rotate_wireguard_key_if_required crypto fresh now a s =
      keys_only a (rotate_if_required crypto s.wg_key_store fresh now) s

  unfoldable pub rotate_wg_key : Crypto → ℕ → SaveAnswers → ClientState → ClientState
  rotate_wg_key crypto fresh a s = keys_only a (rotate_now crypto s.wg_key_store fresh) s

  -- What follows on the answer to `CacheWgKey`.
  abbrev pub finish_registration :
      Crypto
      → ℕ
      → ℕ
      → SaveAnswers
      → ℕ × List ℕ
      → ClientState × Result ApiError Unit
      → ClientState × Result ApiError Unit
  finish_registration crypto fresh now a (pk, old) (s, ok u) =
      (keys_only a (registered crypto pk old now) s, ok u)
  finish_registration crypto fresh now a (pk, old) (s, err wg_key_rotation_required) =
      (rotate_wg_key crypto fresh a s, err wg_key_rotation_required)
  finish_registration crypto fresh now a (pk, old) (s, err e) = (s, err e)

  -- `answers` says how each save in turn goes.
  abbrev pub register_keys :
      Crypto
      → ℕ
      → ℕ
      → (ℕ → SaveAnswers)
      → Option ApiError
      → (ℕ × List ℕ → ApiClient → Ran Unit)
      → ClientState × Option (ℕ × List ℕ)
      → ClientState × Result ApiError Unit
  register_keys crypto fresh now answers made run (s, none) = (s, ok tt)
  register_keys crypto fresh now answers made run (s, some keys) =
      finish_registration crypto fresh now (answers 2) keys
        (api_request (answers 1) made (run keys) s)

  -- `fresh` and `fresh'` are the secrets for a missing and for a refused key.
  unfoldable pub register_cached_wireguard_key_if_new :
      Crypto
      → ℕ
      → ℕ
      → ℕ
      → (ℕ → SaveAnswers)
      → Option ApiError
      → (ℕ × List ℕ → ApiClient → Ran Unit)
      → ClientState
      → ClientState × Result ApiError Unit
  register_cached_wireguard_key_if_new crypto fresh fresh' now answers made run s =
      register_keys crypto fresh' now answers made run
        (change_keys (answers 0) (need_registration crypto s.wg_key_store fresh) s)

abbrev version_of : List ℕ → Option (List ℕ) → Version
version_of uuid none = artificial uuid
version_of uuid (some items) = etag_version items

-- What an update of a list reads: the clock at its start and at the answer, a fresh UUID, how saving
-- and making a client go, and the server.
pub record Update (T : Type 0) : Type 0 where
  pub started_at : ℕ
  pub answered_at : ℕ
  pub new_v4 : List ℕ
  -- How saving the token goes, and how saving the list.
  pub token_answers : SaveAnswers
  pub answers : SaveAnswers
  pub made : Option ApiError
  pub run : Option (List ℕ) → ApiClient → Ran (Response T)

module _ {T : Type 0} where
  -- The list that follows from the previous one and an answer.
  unfoldable pub updated :
      Update T
      → Option (ConfigCached T)
      → Option (List ℕ)
      → Option T
      → Result ApiError (ConfigCached T)
  updated u prev tag (some body) =
      ok (record { version = version_of u.new_v4 tag; last_updated = u.answered_at; value = body })
  updated u (some prev) tag none = ok (revalidated tag u.answered_at prev)
  updated u none tag none = err no_body

  unfoldable pub is_fresh : ℕ → ℕ → Option (ConfigCached T) → Bool
  is_fresh now freshness none = false
  is_fresh now freshness (some list) = ltb (staleness now list) freshness

  abbrev pub etag_before : Option (ConfigCached T) → Option (List ℕ)
  etag_before none = none
  etag_before (some prev) = etag prev

module _ (rest_eq : Config → Config → Bool) {T : Type 0}
    (put : ConfigCached T → Config → Config) where
  abbrev pub keep_list :
      SaveAnswers
      → ClientState
      → Result ApiError (ConfigCached T)
      → ClientState × Result ApiError (ConfigCached T)
  keep_list a s (ok list) = (change_config rest_eq a (put list) s, ok list)
  keep_list a s (err e) = (s, err e)

  abbrev pub finish_update :
      Update T
      → Option (ConfigCached T)
      → ClientState × Result ApiError (Response T)
      → ClientState × Result ApiError (ConfigCached T)
  finish_update u prev (s, ok r) = keep_list u.answers s (updated u prev r.etag r.body)
  finish_update u prev (s, err e) = (s, err e)

  abbrev pub requested :
      Update T
      → Option (ConfigCached T)
      → ClientState
      → ClientState × Result ApiError (ConfigCached T)
  requested u prev s =
      finish_update u prev (api_request rest_eq u.token_answers u.made (u.run (etag_before prev)) s)

  abbrev pub maybe_update :
      Update T
      → ℕ
      → Option (ConfigCached T)
      → ClientState
      → ClientState × Result ApiError (ConfigCached T)
  maybe_update u freshness none s = requested u none s
  maybe_update u freshness (some list) s =
      if is_fresh u.started_at freshness (some list)
      then (s, ok list)
      else requested u (some list) s

module _ (rest_eq : Config → Config → Bool) where
  unfoldable pub maybe_update_exits :
      Update (List OneExit)
      → ℕ
      → ClientState
      → ClientState × Result ApiError (ConfigCached (List OneExit))
  maybe_update_exits u freshness s =
      maybe_update rest_eq (λ list c. record c { cached_exits = some list }) u freshness
        s.config.config.cached_exits s

  unfoldable pub maybe_update_relays :
      Update (List OneRelay)
      → ℕ
      → ClientState
      → ClientState × Result ApiError (ConfigCached (List OneRelay))
  maybe_update_relays u freshness s =
      maybe_update rest_eq (λ list c. record c { cached_relays = some list }) u freshness
        s.config.config.cached_relays s
