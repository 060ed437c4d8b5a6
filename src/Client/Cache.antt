-- ===== src/Client/Cache.antt =====
-- The API client that rustlib/src/client_state.rs caches, through a life of the client.
pub mod Run
use obscuravpn_client.Prelude.{
  ℕ, String, ◌≡◌, refl, ap, sym, ◌∙◌, ◌⊎◌, inl, inr, Bool, true, false, Option, none, some, List,
  [], ◌∷◌, if◌then◌else◌, arith, Bool-cases, Option-cases,
}
use obscuravpn_client.KeyCache.{
  Crypto, WireGuardKeyCache, registered, rotate_now, need_registration,
}
use obscuravpn_client.ExitSelection.{OneExit, OneRelay}
use obscuravpn_client.NetworkConfig.{DnsContentBlock, Result, ok, err}
use obscuravpn_client.Tunnel.{NetworkInterface, TunnelArgs}
use obscuravpn_client.Config.{Config, PinnedLocation, ConfigCached}
use obscuravpn_client.Config.File.{SaveAnswers}
use obscuravpn_client.Config.Handle.{ConfigHandle, change, change-saves}
use obscuravpn_client.Client.{
  ApiClient, ClientState, base_url, alternative_hosts, make_api_client, change_config,
  set_account_id, set_pinned_exits, set_feature_flag, set_tunnel_target_state,
  set_api_host_alternate, set_sni_relay, set_in_new_account_flow, set_api_url,
  set_dns_content_block, set_auto_connect, set_use_system_dns, set_local_network_access,
  set_tailscale_bypass, set_wireguard_bypass, update_account_info, update_dns_cache,
  set_network_interface,
}
use obscuravpn_client.Client.Requests.{
  not_logged_in, no_body, other_error, client_or_new, client_of_account, ran, change_keys,
  keys_only, finish_registration, register_keys, keep_list, finish_update, requested, maybe_update,
  etag_before, ApiError, not_logged_in, no_body, other_error, Ran, Update, api_client, client_for,
  cache_auth_token, api_request, register_cached_wireguard_key_if_new,
  rotate_wireguard_key_if_required, rotate_wg_key, maybe_update_exits, maybe_update_relays,
  Response, updated, is_fresh, wg_key_rotation_required,
}

-- The cached client is one that would be made now for the account that is logged in.
abbrev pub IsCurrent : ClientState → Type 0
IsCurrent s =
    (s.cached_api_client ≡ none)
    ⊎ (client : ApiClient) × (s.cached_api_client ≡ some client)
      × (s.config.config.account_id ≡ some client.account_id)
      × (client.base_url ≡ base_url s)
      × (client.alternative_hosts ≡ alternative_hosts s)

-- The parts of a configuration that API clients are made from.
abbrev SameServer : Config → Config → Type 0
SameServer c d =
    (c.account_id ≡ d.account_id)
    × (c.api_url ≡ d.api_url)
    × (c.api_host_alternate ≡ d.api_host_alternate)

SameServer-IsCurrent :
    (s s' : ClientState)
    → s'.cached_api_client ≡ s.cached_api_client
    → SameServer s'.config.config s.config.config
    → IsCurrent s
    → IsCurrent s'
unfolding base_url alternative_hosts
SameServer-IsCurrent s s' e same (inl empty) = inl (e ∙ empty)
SameServer-IsCurrent s s' e (account, url, host) (inr (client, cached, owner, at, hosts)) =
    inr (client, e ∙ cached, account ∙ owner, rw url at, rw host hosts)

module _ (eq : Config → Config → Bool) where
  pub change_config-config :
      (a : SaveAnswers) (f : Config → Config) (s : ClientState)
      → (change_config eq a f s).config.config ≡ f s.config.config
  unfolding change_config
  change_config-config a f s = (change-saves eq a (λ c. (f c, tt)) s.config).0

  pub change_config-IsCurrent :
      (a : SaveAnswers) (f : Config → Config) (s : ClientState)
      → SameServer (f s.config.config) s.config.config
      → IsCurrent s
      → IsCurrent (change_config eq a f s)
  unfolding change_config
  change_config-IsCurrent a f s same current =
      SameServer-IsCurrent s (change_config eq a f s) refl (rw (change_config-config a f s) same)
        current

  -- Operations that change nothing that a client is made from.
  pub change_keys-IsCurrent :
      {T : Type 0} (a : SaveAnswers) (f : WireGuardKeyCache → WireGuardKeyCache × T)
      (s : ClientState)
      → IsCurrent s
      → IsCurrent (change_keys eq a f s).0
  change_keys-IsCurrent a f s current =
      let kept =
        (change-saves eq a
          (λ c. (
            record c { wireguard_key_cache = (f c.wireguard_key_cache).0 },
            (f c.wireguard_key_cache).1,
          ))
          s.config).0 in
      SameServer-IsCurrent s (change_keys eq a f s).0 refl (rw kept (refl, refl, refl)) current

  client_or_new-IsCurrent :
      (made : Option ApiError) (account_id : String) (s : ClientState) (cached : Option ApiClient)
      → s.config.config.account_id ≡ some account_id
      → IsCurrent s
      → IsCurrent (client_or_new made account_id s cached).0
  unfolding make_api_client base_url alternative_hosts
  client_or_new-IsCurrent made account_id s (some client) e current = current
  client_or_new-IsCurrent none account_id s none e current =
      inr (make_api_client account_id s, refl, e, refl, refl)
  client_or_new-IsCurrent (some error) account_id s none e current = current

  client_of_account-IsCurrent :
      (made : Option ApiError) (s : ClientState) (account : Option String)
      → s.config.config.account_id ≡ account
      → IsCurrent s
      → IsCurrent (client_of_account made s account).0
  unfolding client_for
  client_of_account-IsCurrent made s none e current = current
  client_of_account-IsCurrent made s (some account_id) e current =
      client_or_new-IsCurrent made account_id s s.cached_api_client e current

  api_client-IsCurrent :
      (made : Option ApiError) (s : ClientState) → IsCurrent s → IsCurrent (api_client made s).0
  unfolding api_client
  api_client-IsCurrent made s current =
      client_of_account-IsCurrent made s s.config.config.account_id refl current

  ran-IsCurrent :
      {A : Type 0} (a : SaveAnswers) (send : ApiClient → Ran A)
      (r : ClientState × Result ApiError ApiClient)
      → IsCurrent r.0
      → IsCurrent (ran eq a send r).0
  unfolding cache_auth_token
  ran-IsCurrent a send (s, err e) current = current
  ran-IsCurrent a send (s, ok client) current =
      change_config-IsCurrent a (λ c. record c { cached_auth_token = (send client).auth_token }) s
        (refl, refl, refl) current

  pub api_request-IsCurrent :
      {A : Type 0} (a : SaveAnswers) (made : Option ApiError) (send : ApiClient → Ran A)
      (s : ClientState)
      → IsCurrent s
      → IsCurrent (api_request eq a made send s).0
  unfolding api_request
  api_request-IsCurrent a made send s current =
      ran-IsCurrent a send (api_client made s) (api_client-IsCurrent made s current)

  finish_registration-IsCurrent :
      (crypto : Crypto) (fresh now : ℕ) (a : SaveAnswers) (keys : ℕ × List ℕ)
      (r : ClientState × Result ApiError Unit)
      → IsCurrent r.0
      → IsCurrent (finish_registration eq crypto fresh now a keys r).0
  unfolding rotate_wg_key
  finish_registration-IsCurrent crypto fresh now a (pk, old) (s, ok u) current =
      change_keys-IsCurrent a (λ k. (registered crypto pk old now k, tt)) s current
  finish_registration-IsCurrent crypto fresh now a keys (s, err wg_key_rotation_required) current =
      change_keys-IsCurrent a (λ k. (rotate_now crypto s.wg_key_store fresh k, tt)) s current
  finish_registration-IsCurrent crypto fresh now a keys (s, err not_logged_in) current = current
  finish_registration-IsCurrent crypto fresh now a keys (s, err no_body) current = current
  finish_registration-IsCurrent crypto fresh now a keys (s, err (other_error e)) current = current

  pub register_keys-IsCurrent :
      (crypto : Crypto) (fresh now : ℕ) (a : ℕ → SaveAnswers) (made : Option ApiError)
      (send : ℕ × List ℕ → ApiClient → Ran Unit) (r : ClientState × Option (ℕ × List ℕ))
      → IsCurrent r.0
      → IsCurrent (register_keys eq crypto fresh now a made send r).0
  register_keys-IsCurrent crypto fresh now a made send (s, none) current = current
  register_keys-IsCurrent crypto fresh now a made send (s, some keys) current =
      finish_registration-IsCurrent crypto fresh now (a 2) keys
        (api_request eq (a 1) made (send keys) s)
        (api_request-IsCurrent (a 1) made (send keys) s current)

module _ (eq : Config → Config → Bool) {T : Type 0} (put : ConfigCached T → Config → Config)
    (same : (list : ConfigCached T) (c : Config) → SameServer (put list c) c) where
  keep_list-IsCurrent :
      (a : SaveAnswers) (s : ClientState) (r : Result ApiError (ConfigCached T))
      → IsCurrent s
      → IsCurrent (keep_list eq put a s r).0
  keep_list-IsCurrent a s (ok list) current =
      change_config-IsCurrent eq a (put list) s (same list s.config.config) current
  keep_list-IsCurrent a s (err e) current = current

  finish_update-IsCurrent :
      (u : Update T) (prev : Option (ConfigCached T))
      (r : ClientState × Result ApiError (Response T))
      → IsCurrent r.0
      → IsCurrent (finish_update eq put u prev r).0
  finish_update-IsCurrent u prev (s, ok r) current =
      keep_list-IsCurrent u.answers s (updated u prev r.etag r.body) current
  finish_update-IsCurrent u prev (s, err e) current = current

  requested-IsCurrent :
      (u : Update T) (prev : Option (ConfigCached T)) (s : ClientState)
      → IsCurrent s
      → IsCurrent (requested eq put u prev s).0
  requested-IsCurrent u prev s current =
      finish_update-IsCurrent u prev
        (api_request eq u.token_answers u.made (u.run (etag_before prev)) s)
        (api_request-IsCurrent eq u.token_answers u.made (u.run (etag_before prev)) s current)

  pub maybe_update-IsCurrent :
      (u : Update T) (freshness : ℕ) (prev : Option (ConfigCached T)) (s : ClientState)
      → IsCurrent s
      → IsCurrent (maybe_update eq put u freshness prev s).0
  maybe_update-IsCurrent u freshness none s current = requested-IsCurrent u none s current
  maybe_update-IsCurrent u freshness (some list) s current =
      elim (Bool-cases (is_fresh u.started_at freshness (some list))) [
        | inl e ↦ rw e current
        | inr e ↦ rw e (requested-IsCurrent u (some list) s current)
      ]
