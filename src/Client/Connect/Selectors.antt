-- ===== src/Client/Connect/Selectors.antt =====
-- What a connection attempt of rustlib/src/client_state.rs leaves of the selectors that are shown
-- to the user and used for the next connection.
use obscuravpn_client.Prelude.{
  ℕ, ◌≡◌, refl, ap, ◌∙◌, ◌⊎◌, inl, inr, Bool, true, false, Option, none, some, String, List,
  Bool-cases,
}
use obscuravpn_client.KeyCache.{Crypto, WireGuardKeyCache, use_key_pair, rotate_now}
use obscuravpn_client.ExitSelection.{
  ExitSelector, any_exit, OneExit, OneRelay, ExitSelectionState, select_next_exit,
}
use obscuravpn_client.NetworkConfig.{
  Result, ok, err, NetworkConfigError, TunnelNetworkConfig, new_tunnel_network_config,
}
use obscuravpn_client.Tunnel.{selector_eq}
use obscuravpn_client.Config.{Config}
use obscuravpn_client.Config.File.{SaveAnswers}
use obscuravpn_client.Config.Handle.{change-saves}
use obscuravpn_client.Client.{ClientState}
use obscuravpn_client.Client.Requests.{
  ApiError, wg_key_rotation_required, not_logged_in, no_body, other_error, api_request, change_keys,
}
use obscuravpn_client.Client.Cache.{change_config-config}
use obscuravpn_client.Client.Lists.{api_request-get}
use obscuravpn_client.Client.Connect.{
  ConnectError, TunnelInfo, NewTunnel, Attempt, tunnel_mtu, known_exits, record_selector, answered,
  create_tunnel, with_exits, with_relay, new_tunnel, after_handshake, with_network, with_tunnel,
  connect,
}

-- The last selector, and the last one that was a choice.
abbrev pub last_selectors : Config → ExitSelector × ExitSelector
last_selectors c = (c.last_exit_selector, c.last_chosen_exit_selector)

abbrev pub Recorded :
    {A : Type 0}
    → ExitSelector
    → ExitSelector × ExitSelector
    → ExitSelector × ExitSelector
    → Result ConnectError A
    → Type 0
Recorded selector before after (err e) = after ≡ before
Recorded selector before after (ok c) =
    (after.0 ≡ selector)
    × ((selector_eq selector any_exit ≡ true) × (after.1 ≡ before.1)
        ⊎ (selector_eq selector any_exit ≡ false) × (after.1 ≡ selector))

record_selector-Recorded :
    (id : String) (selector : ExitSelector) (c : Config)
    → (last_selectors (record_selector id selector c)).0 ≡ selector
      × ((selector_eq selector any_exit ≡ true)
            × ((last_selectors (record_selector id selector c)).1 ≡ c.last_chosen_exit_selector)
          ⊎ (selector_eq selector any_exit ≡ false)
            × ((last_selectors (record_selector id selector c)).1 ≡ selector))
record_selector-Recorded id selector c = elim (Bool-cases (selector_eq selector any_exit)) [
  | inl any ↦ rw any (refl, inl (refl, refl))
  | inr chosen ↦ rw chosen (refl, inr (refl, refl))
]

module _ (eq : Config → Config → Bool) (crypto : Crypto) (t : Attempt) where
  change_keys-last :
      {T : Type 0} (a : SaveAnswers) (f : WireGuardKeyCache → WireGuardKeyCache × T)
      (s : ClientState)
      → last_selectors (change_keys eq a f s).0.config.config ≡ last_selectors s.config.config
  change_keys-last a f s =
      ap last_selectors
        (change-saves eq a
          (λ c. (
            record c { wireguard_key_cache = (f c.wireguard_key_cache).0 },
            (f c.wireguard_key_cache).1,
          ))
          s.config).0

  answered-last :
      (relay : OneRelay) (r : ClientState × Result ApiError TunnelInfo)
      → last_selectors (answered eq crypto t relay r).0.config.config
        ≡ last_selectors r.0.config.config
  answered-last relay (s, ok info) = refl
  answered-last relay (s, err wg_key_rotation_required) =
      change_keys-last (t.answers 2)
        (λ k. (rotate_now crypto s.wg_key_store t.fresh_after_refusal k, tt)) s
  answered-last relay (s, err not_logged_in) = refl
  answered-last relay (s, err no_body) = refl
  answered-last relay (s, err (other_error e)) = refl

  create_tunnel-last :
      (relay : OneRelay) (s : ClientState) (exit : Option OneExit)
      → last_selectors (create_tunnel eq crypto t relay s exit).0.config.config
        ≡ last_selectors s.config.config
  create_tunnel-last relay s none = refl
  create_tunnel-last relay s (some exit) =
      let r = change_keys eq (t.answers 0) (use_key_pair crypto s.wg_key_store t.fresh t.now) s in
      let send = t.run r.1.1 relay.id exit.id in
      answered-last relay (api_request eq (t.answers 1) t.made send r.0)
      ∙ api_request-get eq last_selectors (λ token c. refl) (t.answers 1) t.made send r.0
      ∙ change_keys-last (t.answers 0) (use_key_pair crypto s.wg_key_store t.fresh t.now) s

  with_exits-last :
      (selector : ExitSelector) (sel : ExitSelectionState) (relay : OneRelay) (s : ClientState)
      (exits : Result ApiError (List OneExit))
      → last_selectors (with_exits eq crypto t selector sel relay s exits).1.0.config.config
        ≡ last_selectors s.config.config
  with_exits-last selector sel relay s (err e) = refl
  with_exits-last selector sel relay s (ok exits) =
      create_tunnel-last relay s (select_next_exit selector exits relay t.random sel).1

  with_relay-last :
      (selector : ExitSelector) (sel : ExitSelectionState) (s : ClientState)
      (relay : Result ConnectError OneRelay)
      → last_selectors (with_relay eq crypto t selector sel s relay).1.0.config.config
        ≡ last_selectors s.config.config
  with_relay-last selector sel s (err e) = refl
  with_relay-last selector sel s (ok relay) =
      with_exits-last selector sel relay s (known_exits t.exit_update s.config.config.cached_exits)

  after_handshake-Recorded :
      (selector : ExitSelector) (n : NewTunnel) (network : TunnelNetworkConfig) (s : ClientState)
      (h : Result ℕ Unit)
      → Recorded selector
          (last_selectors s.config.config)
          (last_selectors (after_handshake eq crypto t selector n network s h).0.config.config)
          (after_handshake eq crypto t selector n network s h).1
  after_handshake-Recorded selector n network s (err e) = refl
  after_handshake-Recorded selector n network s (ok u) =
      rw (change_config-config eq (t.answers 3) (record_selector n.exit.id selector) s)
        (record_selector-Recorded n.exit.id selector s.config.config)

  with_network-Recorded :
      (selector : ExitSelector) (n : NewTunnel) (s : ClientState)
      (r : Result NetworkConfigError TunnelNetworkConfig)
      → Recorded selector
          (last_selectors s.config.config)
          (last_selectors (with_network eq crypto t selector n s r).0.config.config)
          (with_network eq crypto t selector n s r).1
  with_network-Recorded selector n s (err e) = refl
  with_network-Recorded selector n s (ok network) =
      after_handshake-Recorded selector n network s t.handshake

  with_tunnel-Recorded :
      (selector : ExitSelector) (r : ClientState × Result ConnectError NewTunnel)
      → Recorded selector
          (last_selectors r.0.config.config)
          (last_selectors (with_tunnel eq crypto t selector r).0.config.config)
          (with_tunnel eq crypto t selector r).1
  with_tunnel-Recorded selector (s, err e) = refl
  with_tunnel-Recorded selector (s, ok n) =
      with_network-Recorded selector n s (new_tunnel_network_config n.config tunnel_mtu)

  -- A connection attempt that succeeds records its selector as the last one, and as the last chosen
  -- one unless it is the selector of any exit; one that fails at any step records nothing.
  pub connect-Recorded :
      (selector : ExitSelector) (sel : ExitSelectionState) (s : ClientState)
      → Recorded selector
          (last_selectors s.config.config)
          (last_selectors (connect eq crypto t selector sel s).1.0.config.config)
          (connect eq crypto t selector sel s).1.1
  unfolding connect new_tunnel
  connect-Recorded selector sel s =
      rw⁻¹ (with_relay-last selector sel s t.relay)
        (with_tunnel-Recorded selector (new_tunnel eq crypto t selector sel s).1)
