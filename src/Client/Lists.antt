-- ===== src/Client/Lists.antt =====
-- rustlib/src/client_state.rs, `maybe_update_exits` and `maybe_update_relays`: what the cached lists
-- are after an update.
use obscuravpn_client.Prelude.{
  ℕ, String, ◌≡◌, refl, ap, ◌∙◌, ◌⊎◌, inl, inr, Bool, true, Option, none, some, List, arith,
  Bool-cases,
}
use obscuravpn_client.ExitSelection.{OneExit, OneRelay}
use obscuravpn_client.NetworkConfig.{Result, ok, err}
use obscuravpn_client.Config.{Config, ConfigCached, revalidated}
use obscuravpn_client.Config.File.{SaveAnswers}
use obscuravpn_client.Client.{ApiClient, ClientState}
use obscuravpn_client.Client.Requests.{
  ApiError, Ran, Response, Update, updated, is_fresh, etag_before, client_for, client_or_new,
  client_of_account, api_client, ran, api_request, cache_auth_token, keep_list, finish_update,
  requested, maybe_update, maybe_update_exits, maybe_update_relays,
}
use obscuravpn_client.Client.Cache.{change_config-config}

client_or_new-config :
    (made : Option ApiError) (account_id : String) (s : ClientState) (cached : Option ApiClient)
    → (client_or_new made account_id s cached).0.config ≡ s.config
client_or_new-config made account_id s (some client) = refl
client_or_new-config none account_id s none = refl
client_or_new-config (some e) account_id s none = refl

client_of_account-config :
    (made : Option ApiError) (s : ClientState) (account : Option String)
    → (client_of_account made s account).0.config ≡ s.config
unfolding client_for
client_of_account-config made s none = refl
client_of_account-config made s (some account_id) =
    client_or_new-config made account_id s s.cached_api_client

-- A part of the configuration that a token is not in is left by a request.
module _ (eq : Config → Config → Bool) {B : Type 0} (get : Config → B)
    (get-token : (t : Option String) (c : Config)
      → get (record c { cached_auth_token = t }) ≡ get c) where
  ran-get :
      {A : Type 0} (a : SaveAnswers) (send : ApiClient → Ran A)
      (r : ClientState × Result ApiError ApiClient)
      → get (ran eq a send r).0.config.config ≡ get r.0.config.config
  unfolding cache_auth_token
  ran-get a send (s, err e) = refl
  ran-get a send (s, ok client) =
      let token = (send client).auth_token in
      ap get (change_config-config eq a (λ c. record c { cached_auth_token = token }) s)
      ∙ get-token token s.config.config

  pub api_request-get :
      {A : Type 0} (a : SaveAnswers) (made : Option ApiError) (send : ApiClient → Ran A)
      (s : ClientState)
      → get (api_request eq a made send s).0.config.config ≡ get s.config.config
  unfolding api_request api_client
  api_request-get a made send s =
      ran-get a send (client_of_account made s s.config.config.account_id)
      ∙ ap (λ h. get h.config) (client_of_account-config made s s.config.config.account_id)

-- What a list update leaves on each outcome.
abbrev pub Kept :
    {T : Type 0}
    → Update T
    → ℕ
    → Option (ConfigCached T)
    → Option (ConfigCached T)
    → Result ApiError (ConfigCached T)
    → Type 0
Kept u freshness before after (err e) = after ≡ before
Kept u freshness before after (ok list) =
    (after ≡ some list)
    × (((before ≡ some list) × (is_fresh u.started_at freshness (some list) ≡ true))
        ⊎ (list.last_updated ≡ u.answered_at))

module _ (eq : Config → Config → Bool) {T : Type 0} (get : Config → Option (ConfigCached T))
    (put : ConfigCached T → Config → Config)
    (get-put : (list : ConfigCached T) (c : Config) → get (put list c) ≡ some list)
    (get-token : (t : Option String) (c : Config)
      → get (record c { cached_auth_token = t }) ≡ get c) where
  updated_at :
      (u : Update T) (prev : Option (ConfigCached T)) (tag : Option (List ℕ)) (body : Option T)
      (list : ConfigCached T)
      → updated u prev tag body ≡ ok list
      → list.last_updated ≡ u.answered_at
  unfolding updated revalidated
  updated_at u prev tag (some body) list e = ground arith
  updated_at u (some prev) tag none list e = ground arith
  updated_at u none tag none list e = ground arith

  keep_list-Kept :
      (u : Update T) (freshness : ℕ) (before : Option (ConfigCached T)) (s : ClientState)
      (r : Result ApiError (ConfigCached T))
      → get s.config.config ≡ before
      → ((list : ConfigCached T) → r ≡ ok list → list.last_updated ≡ u.answered_at)
      → Kept u freshness before
          (get (keep_list eq put u.answers s r).0.config.config)
          (keep_list eq put u.answers s r).1
  keep_list-Kept u freshness before s (err e) same at = same
  keep_list-Kept u freshness before s (ok list) same at = (
    ap get (change_config-config eq u.answers (put list) s) ∙ get-put list s.config.config,
    inr (at list refl),
  )

  finish_update-Kept :
      (u : Update T) (freshness : ℕ) (before prev : Option (ConfigCached T))
      (r : ClientState × Result ApiError (Response T))
      → get r.0.config.config ≡ before
      → Kept u freshness before
          (get (finish_update eq put u prev r).0.config.config)
          (finish_update eq put u prev r).1
  finish_update-Kept u freshness before prev (s, err e) same = same
  finish_update-Kept u freshness before prev (s, ok r) same =
      keep_list-Kept u freshness before s (updated u prev r.etag r.body) same
        (updated_at u prev r.etag r.body)

  requested-Kept :
      (u : Update T) (freshness : ℕ) (prev : Option (ConfigCached T)) (s : ClientState)
      → Kept u freshness
          (get s.config.config)
          (get (requested eq put u prev s).0.config.config)
          (requested eq put u prev s).1
  requested-Kept u freshness prev s =
      finish_update-Kept u freshness (get s.config.config) prev
        (api_request eq u.token_answers u.made (u.run (etag_before prev)) s)
        (api_request-get eq get get-token u.token_answers u.made (u.run (etag_before prev)) s)

  maybe_update-Kept :
      (u : Update T) (freshness : ℕ) (prev : Option (ConfigCached T)) (s : ClientState)
      → get s.config.config ≡ prev
      → Kept u freshness
          (get s.config.config)
          (get (maybe_update eq put u freshness prev s).0.config.config)
          (maybe_update eq put u freshness prev s).1
  maybe_update-Kept u freshness none s e = requested-Kept u freshness none s
  maybe_update-Kept u freshness (some list) s e =
      elim (Bool-cases (is_fresh u.started_at freshness (some list))) [
        | inl fresh ↦ rw fresh (e, inl (e, fresh))
        | inr stale ↦ rw stale (requested-Kept u freshness (some list) s)
      ]

-- An update of the exits that succeeds gives the list that is cached afterwards, and this is the one
-- cached before, not older than asked for, or was confirmed by the server at the answer; one that
-- fails leaves the cached list as it was.
pub maybe_update_exits-Kept :
    (eq : Config → Config → Bool) (u : Update (List OneExit)) (freshness : ℕ) (s : ClientState)
    → Kept u freshness s.config.config.cached_exits
        (maybe_update_exits eq u freshness s).0.config.config.cached_exits
        (maybe_update_exits eq u freshness s).1
unfolding maybe_update_exits
maybe_update_exits-Kept eq u freshness s =
    maybe_update-Kept eq (λ c. c.cached_exits) (λ list c. record c { cached_exits = some list })
      (λ list c. refl) (λ t c. refl) u freshness s.config.config.cached_exits s refl

-- The same holds of an update of the relays and the cached relays.
pub maybe_update_relays-Kept :
    (eq : Config → Config → Bool) (u : Update (List OneRelay)) (freshness : ℕ) (s : ClientState)
    → Kept u freshness s.config.config.cached_relays
        (maybe_update_relays eq u freshness s).0.config.config.cached_relays
        (maybe_update_relays eq u freshness s).1
unfolding maybe_update_relays
maybe_update_relays-Kept eq u freshness s =
    maybe_update-Kept eq (λ c. c.cached_relays) (λ list c. record c { cached_relays = some list })
      (λ list c. refl) (λ t c. refl) u freshness s.config.config.cached_relays s refl
