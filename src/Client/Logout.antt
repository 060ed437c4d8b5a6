-- ===== src/Client/Logout.antt =====
-- rustlib/src/client_state.rs, `set_account_id` alone and between the two halves of a request.
use obscuravpn_client.Prelude.{
  String, ◌≡◌, refl, sym, ap, subst, ◌∙◌, inl, inr, Bool, true, false, ◌||◌, Option, none, some,
  List, [], ◌∷◌, any, any-append_left, any-append_last, text_keys, str_eq, arith, Bool-cases,
}
use obscuravpn_client.NetworkConfig.{ok}
use obscuravpn_client.Config.{Config}
use obscuravpn_client.Config.File.{SaveAnswers}
use obscuravpn_client.Client.{
  ApiClient, ClientState, change_config, logged_in, with_account, set_account_id, remember_account,
  option_str_eq, make_api_client,
}
use obscuravpn_client.Client.Requests.{
  ApiError, api_client, client_for, client_of_account, client_or_new, cache_auth_token,
}
use obscuravpn_client.Client.Cache.{change_config-config}

-- An account that the client has used.
abbrev pub knows : String → Config → Bool
knows id c = option_str_eq (some id) c.account_id || any (str_eq id) c.old_account_ids

with_account-changed :
    (account_id auth_token : Option String) (c : Config)
    → option_str_eq account_id c.account_id ≡ false
    → with_account account_id auth_token c
      ≡ logged_in account_id auth_token c.api_url c.account_id c.old_account_ids
          c.in_new_account_flow
unfolding with_account
with_account-changed account_id auth_token c other = rw other refl

-- Nothing of another account's configuration is visible after a change of the account: two clients
-- that agree on the API's URL, the account, the older accounts and the new-account flow agree on
-- everything afterwards.
pub login_forgets :
    (account_id auth_token : Option String) (c d : Config)
    → c.api_url ≡ d.api_url
    → c.account_id ≡ d.account_id
    → c.old_account_ids ≡ d.old_account_ids
    → c.in_new_account_flow ≡ d.in_new_account_flow
    → option_str_eq account_id c.account_id ≡ false
    → with_account account_id auth_token c ≡ with_account account_id auth_token d
unfolding with_account
login_forgets account_id auth_token c d url account old flow other =
    with_account-changed account_id auth_token c other
    ∙ rw (url, account, old, flow) refl
    ∙ sym (
        with_account-changed account_id auth_token d
          (subst (λ o. option_str_eq account_id o ≡ false) account other))

option_str_eq-eq : (o p : Option String) → option_str_eq o p ≡ true → o ≡ p
option_str_eq-eq none none h = refl
option_str_eq-eq (some a) (some b) h = ap some ((text_keys.beq_iff a b).0 h)
option_str_eq-eq (some a) none h = ground arith
option_str_eq-eq none (some b) h = ground arith

with_account-account :
    (account_id auth_token : Option String) (c : Config)
    → (with_account account_id auth_token c).account_id ≡ account_id
unfolding with_account
with_account-account account_id auth_token c =
    elim (Bool-cases (option_str_eq account_id c.account_id)) [
      | inl same ↦ rw same (sym (option_str_eq-eq account_id c.account_id same))
      | inr other ↦ rw other refl
    ]

remembered :
    (id : String) (account : Option String) (old : List String)
    → (option_str_eq (some id) account || any (str_eq id) old) ≡ true
    → any (str_eq id) (remember_account account old) ≡ true
remembered id none old h = h
remembered id (some a) old h = elim (Bool-cases (str_eq id a)) [
  | inl same ↦ elim (Bool-cases (any (str_eq a) old)) [
    | inl there ↦
        rw there
          (subst (λ x. any (str_eq x) old ≡ true) (sym ((text_keys.beq_iff id a).0 same)) there)
    | inr absent ↦ rw absent (any-append_last (str_eq id) old a same)
  ]
  | inr other ↦ elim (Bool-cases (any (str_eq a) old)) [
    | inl there ↦ rw there (rw other at h)
    | inr absent ↦ rw absent (any-append_left (str_eq id) old (a ∷ []) (rw other at h))
  ]
]

with_account-same :
    (account_id auth_token : Option String) (c : Config)
    → option_str_eq account_id c.account_id ≡ true
    → ◌≡◌ {A = Option String × List String}
        (
          (with_account account_id auth_token c).account_id,
          (with_account account_id auth_token c).old_account_ids,
        )
        (c.account_id, c.old_account_ids)
unfolding with_account
with_account-same account_id auth_token c same = rw same refl

cached_client :
    (made : Option ApiError) (s : ClientState) (id : String) (cached : Option ApiClient)
    (client : ApiClient)
    → cached ≡ some client
    → (client_or_new made id s cached).1 ≡ ok client
cached_client made s id cached client e = rw e refl

new_client :
    (s : ClientState) (account : Option String) (id : String)
    → account ≡ some id
    → s.cached_api_client ≡ none
    → (client_of_account none s account).1 ≡ ok (make_api_client id s)
unfolding client_for
new_client s account id e empty = rw (e, empty) refl

known_old : (b c : Bool) → c ≡ true → (b || c) ≡ true
known_old b c h = ground arith

-- An account that the client has used is known after every login and logout.
pub knows-with_account :
    (id : String) (account_id auth_token : Option String) (c : Config)
    → knows id c ≡ true
    → knows id (with_account account_id auth_token c) ≡ true
knows-with_account id account_id auth_token c known =
    elim (Bool-cases (option_str_eq account_id c.account_id)) [
      | inl same ↦
          subst (λ d. (option_str_eq (some id) d.0 || any (str_eq id) d.1) ≡ true)
            (sym (with_account-same account_id auth_token c same)) known
      | inr other ↦ rw (with_account-changed account_id auth_token c other) (
          known_old (option_str_eq (some id) account_id)
            (any (str_eq id) (remember_account c.account_id c.old_account_ids))
            (remembered id c.account_id c.old_account_ids known))
    ]

api_client-cached :
    (made : Option ApiError) (s : ClientState) (account : Option String) (id : String)
    (client : ApiClient)
    → account ≡ some id
    → s.cached_api_client ≡ some client
    → (client_of_account made s account).1 ≡ ok client
unfolding client_for
api_client-cached made s account id client e cached =
    rw e (cached_client made s id s.cached_api_client client cached)

module _ (eq : Config → Config → Bool) where
  -- A request that was sent for one account and ends after the login to another writes its token
  -- over that of the new account, and the next client for the new account is made with it.
  pub cache_auth_token-set_account_id :
      (a a' : SaveAnswers) (token token' : Option String) (account_id : String) (s : ClientState)
      → let s' =
          cache_auth_token eq a' token (set_account_id eq a (some (account_id, token')) s).0 in
        (s'.config.config.account_id ≡ some account_id)
        × (client : ApiClient) × ((api_client none s').1 ≡ ok client)
        × (client.account_id ≡ account_id)
        × (client.auth_token ≡ token)
  unfolding cache_auth_token set_account_id api_client make_api_client change_config
  cache_auth_token-set_account_id a a' token token' account_id s =
      let s0 = (set_account_id eq a (some (account_id, token')) s).0 in
      let s' = cache_auth_token eq a' token s0 in
      let config = change_config-config eq a' (λ c. record c { cached_auth_token = token }) s0 in
      let account =
        ap (λ c. c.account_id) config
        ∙ ap (λ c. c.account_id)
            (change_config-config eq a (with_account (some account_id) token') s)
        ∙ with_account-account (some account_id) token' s.config.config in
      (
        account,
        make_api_client account_id s',
        new_client s' s'.config.config.account_id account_id account refl,
        refl,
        ap (λ c. c.cached_auth_token) config,
      )

  -- A client that is made for the account read before another login stays cached for it: the next
  -- request of the new account goes out as the old one.
  pub client_for-set_account_id :
      (a : SaveAnswers) (old new : String) (token : Option String) (s : ClientState)
      → let s' = (client_for none old (set_account_id eq a (some (new, token)) s).0).0 in
        (s'.config.config.account_id ≡ some new)
        × (client : ApiClient) × ((api_client none s').1 ≡ ok client)
        × (client.account_id ≡ old)
  unfolding set_account_id api_client client_for make_api_client
  client_for-set_account_id a old new token s =
      let s0 = (set_account_id eq a (some (new, token)) s).0 in
      let s' = (client_for none old s0).0 in
      let account =
        ap (λ c. c.account_id) (change_config-config eq a (with_account (some new) token) s)
        ∙ with_account-account (some new) token s.config.config in
      (
        account,
        make_api_client old s0,
        api_client-cached none s' s'.config.config.account_id new (make_api_client old s0) account
            refl,
        refl,
      )
