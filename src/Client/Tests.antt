-- ===== src/Client/Tests.antt =====
-- The client's theorems at concrete inputs.
use obscuravpn_client.Prelude.{◌≡◌, refl, inl, Bool, true, false, none, some, List, [], ◌∷◌}
use obscuravpn_client.KeyCache.{Crypto, WgKeyStore}
use obscuravpn_client.NetworkConfig.{ok}
use obscuravpn_client.Config.{Config, default_config}
use obscuravpn_client.Config.File.{SaveAnswers}
use obscuravpn_client.Client.{ApiClient, ClientState, set_account_id}
use obscuravpn_client.Client.Requests.{Ran, Update, api_client, client_for, cache_auth_token}
use obscuravpn_client.Client.Life.{Op, run, set_account, request, set_url, register}
use obscuravpn_client.Client.Connect.{TunnelInfo, Attempt}
use obscuravpn_client.ExitSelection.{OneExit, OneRelay}
use obscuravpn_client.NetworkConfig.{v4}
use obscuravpn_client.Client.Cache.{IsCurrent}
use obscuravpn_client.Client.Cache.Run.{run-IsCurrent}
use obscuravpn_client.Client.Logout.{cache_auth_token-set_account_id, client_for-set_account_id}

abbrev some_crypto : Crypto
some_crypto = record { public_key = λ k. k }

abbrev all_well : SaveAnswers
all_well = record {
  to_vec_pretty = true;
  create_dir_all = true;
  new_in = true;
  write_all = true;
  sync_data = true;
  persist = true;
}

abbrev alice : Config
alice = record default_config { account_id = some "alice"; sni_relay = some "example.org" }

abbrev client : ClientState
client = record {
  cached_api_client = none;
  config = record {
    config = alice;
    dirty = false;
    files = record { config_file = none; backup_file = none };
  };
  mtu = none;
  network_interface = none;
  wg_key_store = WgKeyStore.plaintext;
  user_agent = "test";
}

abbrev differ : Config → Config → Bool
differ a b = false

abbrev answered : {A : Type 0} → A → ApiClient → Ran A
answered a c = record { auth_token = some "token"; result = ok a }

abbrev day : List Op
day =
    request all_well none (answered tt)
    ∷ set_account all_well (some ("bob", none))
    ∷ register some_crypto 1 2 3 (λ i. all_well) none (λ keys. answered tt)
    ∷ set_url some_crypto 4 all_well (some "https://example.org")
    ∷ request all_well none (answered tt)
    ∷ []

run-IsCurrent_example : IsCurrent (run differ day client)
run-IsCurrent_example = run-IsCurrent differ day client (inl refl)

abbrev update : {T : Type 0} → T → Update T
update list = record {
  started_at = 10;
  answered_at = 20;
  new_v4 = [];
  token_answers = all_well;
  answers = all_well;
  made = none;
  run = λ tag. answered (record { etag = none; body = some list });
}

cache_auth_token-set_account_id_example :
    let s' =
      cache_auth_token differ all_well
        (some "token")
        (set_account_id differ all_well (some ("bob", none)) client).0 in
    (s'.config.config.account_id ≡ some "bob")
    × (c : ApiClient) × ((api_client none s').1 ≡ ok c)
    × (c.account_id ≡ "bob")
    × (c.auth_token ≡ some "token")
cache_auth_token-set_account_id_example =
    cache_auth_token-set_account_id differ all_well all_well (some "token") none "bob" client

client_for-set_account_id_example :
    let s' =
      (client_for none "alice" (set_account_id differ all_well (some ("bob", none)) client).0).0 in
    (s'.config.config.account_id ≡ some "bob")
    × (c : ApiClient) × ((api_client none s').1 ≡ ok c)
    × (c.account_id ≡ "alice")
client_for-set_account_id_example =
    client_for-set_account_id differ all_well "alice" "bob" none client

abbrev an_exit : OneExit
an_exit = record {
  id = "exit";
  city_code = record { country_code = "se"; city_code = "sto" };
  datacenter_id = 1;
  tier = 1;
  provider_name = "Mullvad VPN";
}

abbrev a_relay : OneRelay
a_relay = record {
  id = "relay";
  city_code = record { country_code = "se"; city_code = "sto" };
  preferred_exits = [];
}

abbrev a_tunnel : TunnelInfo
a_tunnel = record {
  relay = a_relay;
  exit = an_exit;
  config = some (record {
    dns = v4 1 ∷ [];
    client_ips_v4 = record { ip = 2; prefix = 32 } ∷ [];
    client_ips_v6 = record { ip = 3; prefix = 128 } ∷ [];
    exit_pubkey = 4;
    gateway_ip_v4 = 5;
  });
}

abbrev attempt : Attempt
attempt = record {
  relay = ok a_relay;
  exit_update = ok (an_exit ∷ []);
  random = λ i. i;
  fresh = 8;
  fresh_after_refusal = 9;
  now = 100;
  answers = λ i. all_well;
  made = none;
  run = λ pk relay exit. answered a_tunnel;
  handshake = ok tt;
}
