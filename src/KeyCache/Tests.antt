-- ===== src/KeyCache/Tests.antt =====
-- Tests of the key cache, and its theorems at concrete inputs.
use obscuravpn_client.Prelude.{ℕ, ◌+◌, true, Option, none, some, List, [], ◌∷◌, ◌≡◌, refl}
use obscuravpn_client.KeyCache.{
  Crypto, SealingKey, WgKeyStore, KeyPair, WireGuardKeyCache, rotate_now, need_registration,
  registered, ensure_key_pair, current_public_key, store_key, use_key_pair, try_set_secret_key,
  persisted, held_secret, secret_from_store, persisted_key_pair,
}
use obscuravpn_client.KeyCache.Rotation.{Op, run, known, apply, known-run}
use obscuravpn_client.KeyCache.Secrets.{use_key_pair-run}

-- A stand-in for x25519.
abbrev toy_crypto : Crypto
toy_crypto = record { public_key = λ sk. sk + 1000 }

-- A TPM that seals a key as a list of itself.
abbrev toy_unseal : List ℕ → Option ℕ
toy_unseal [] = none
toy_unseal (k ∷ ks) = some k

abbrev toy_tpm : SealingKey
toy_tpm = record { seal = λ k. some (k ∷ []); unseal = toy_unseal }

abbrev in_tpm : WgKeyStore
in_tpm = WgKeyStore.sealed toy_tpm

abbrev with_key : WireGuardKeyCache
with_key = record {
  key_pair = some (KeyPair.plaintext 1);
  first_use = none;
  registered_at = none;
  old_public_keys = [];
}

abbrev life : List Op
life =
    Op.rotate 2
    ∷ Op.use_keys 3 50
    ∷ Op.restart in_tpm
    ∷ Op.ask_registration 4
    ∷ Op.registration_done 1002 (7 ∷ []) 60
    ∷ []

-- The replaced key is listed as an old one until the server has removed it.
old_key_listed : (run toy_crypto in_tpm life with_key).old_public_keys ≡ 1001 ∷ []
unfolding run apply rotate_now use_key_pair ensure_key_pair try_set_secret_key persisted
    need_registration registered current_public_key store_key secret_from_store persisted_key_pair
old_key_listed = refl

known-run_example : known toy_crypto in_tpm 1001 (run toy_crypto in_tpm life with_key) ≡ true
unfolding known current_public_key
known-run_example = known-run toy_crypto in_tpm 1001 life with_key refl refl

use_key_pair-run_example :
    let (c', keys) = use_key_pair toy_crypto in_tpm 9 99 (run toy_crypto in_tpm life with_key) in
    (keys.1 ≡ toy_crypto.public_key keys.0)
    × (current_public_key toy_crypto c'.key_pair ≡ some keys.1)
    × (held_secret toy_crypto c'.key_pair ≡ some keys.0)
use_key_pair-run_example = use_key_pair-run toy_crypto in_tpm life 9 99 with_key tt
