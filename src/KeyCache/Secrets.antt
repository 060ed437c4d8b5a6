-- ===== src/KeyCache/Secrets.antt =====
-- rustlib/src/config/persistence.rs: the secret key that the client uses belongs to the public key
-- that it tells the server.
use obscuravpn_client.Prelude.{
  ℕ, ◌≡◌, refl, inl, inr, Option, none, some, List, [], ◌∷◌, ◌==◌, arith, Bool-cases, Option-cases,
}
use obscuravpn_client.KeyCache.{
  Crypto, WgKeyStore, KeyPair, SealingKey, WireGuardKeyCache, current_public_key, store_key,
  rotate_now, held_secret, ensure_key_pair, use_key_pair, rotate_if_required, need_registration,
  registered, try_set_secret_key, secret_from_store, persisted_key_pair, persisted, map_pair,
  max_age, elapsed_past, matching_secret, key_of_bytes, sealed_or_detached,
}
use obscuravpn_client.KeyCache.Rotation.{Op, apply, run, held-store_key, current-store_key}

-- A secret key that is held has the public key that stands beside it.
abbrev pub IsMatching : Crypto → Option ℕ → ℕ → Type 0
IsMatching crypto none pk = Unit
IsMatching crypto (some sk) pk = crypto.public_key sk ≡ pk

abbrev pub IsConsistent : Crypto → Option KeyPair → Type 0
IsConsistent crypto none = Unit
IsConsistent crypto (some (KeyPair.plaintext sk)) = Unit
IsConsistent crypto (some (KeyPair.sealed box pk sk)) = IsMatching crypto sk pk
IsConsistent crypto (some (KeyPair.detached pk sk)) = IsMatching crypto sk pk

sealed-IsConsistent :
    (crypto : Crypto) (fresh : ℕ) (box : Option (List ℕ))
    → IsConsistent crypto (some (sealed_or_detached crypto fresh box))
sealed-IsConsistent crypto fresh none = refl
sealed-IsConsistent crypto fresh (some box) = refl

current_of_held :
    (crypto : Crypto) (o : Option KeyPair) (sk : ℕ)
    → held_secret crypto o ≡ some sk
    → IsConsistent crypto o
    → current_public_key crypto o ≡ some (crypto.public_key sk)
unfolding current_public_key
current_of_held crypto none sk e h = cc
current_of_held crypto (some (KeyPair.plaintext k)) sk e h = cc
current_of_held crypto (some (KeyPair.sealed box pk none)) sk e h = cc
current_of_held crypto (some (KeyPair.sealed box pk (some k))) sk e h = cc
current_of_held crypto (some (KeyPair.detached pk none)) sk e h = cc
current_of_held crypto (some (KeyPair.detached pk (some k))) sk e h = cc

module _ (crypto : Crypto) (store : WgKeyStore) where
  store_key-IsConsistent :
      (s : WgKeyStore) (fresh : ℕ) → IsConsistent crypto (some (store_key crypto s fresh))
  unfolding store_key
  store_key-IsConsistent WgKeyStore.plaintext fresh = tt
  store_key-IsConsistent (WgKeyStore.keychain b set) fresh = refl
  store_key-IsConsistent (WgKeyStore.sealed tpm) fresh =
      sealed-IsConsistent crypto fresh (tpm.seal fresh)
  store_key-IsConsistent WgKeyStore.no_store fresh = refl

  rotate_now-IsConsistent :
      (fresh : ℕ) (c : WireGuardKeyCache)
      → IsConsistent crypto (rotate_now crypto store fresh c).key_pair
  unfolding rotate_now
  rotate_now-IsConsistent fresh c = store_key-IsConsistent store fresh

  ensure_key_pair-IsConsistent :
      (fresh : ℕ) (c : WireGuardKeyCache)
      → IsConsistent crypto c.key_pair
      → IsConsistent crypto (ensure_key_pair crypto store fresh c).0.key_pair
  unfolding ensure_key_pair
  ensure_key_pair-IsConsistent fresh c h = elim (Option-cases (held_secret crypto c.key_pair)) [
    | inl lost ↦ rw lost (rotate_now-IsConsistent fresh c)
    | inr (sk, held) ↦ rw held h
  ]

  matching_secret-IsMatching :
      (found : Option ℕ) (pk : ℕ) (old : Option ℕ)
      → IsMatching crypto old pk
      → IsMatching crypto (matching_secret crypto found pk old) pk
  matching_secret-IsMatching none pk old h = h
  matching_secret-IsMatching (some sk) pk old h = elim (Bool-cases (crypto.public_key sk == pk)) [
    | inl same ↦ rw same (ground arith)
    | inr other ↦ rw other h
  ]

  restart-IsConsistent :
      (loaded : WgKeyStore) (p : KeyPair)
      → IsConsistent crypto (some (secret_from_store crypto loaded (persisted_key_pair p)))
  unfolding secret_from_store persisted_key_pair
  restart-IsConsistent WgKeyStore.plaintext (KeyPair.plaintext sk) = tt
  restart-IsConsistent WgKeyStore.plaintext _ = tt
  restart-IsConsistent (WgKeyStore.keychain b set) (KeyPair.plaintext sk) = tt
  restart-IsConsistent (WgKeyStore.keychain b set) (KeyPair.sealed box pk sk) = tt
  restart-IsConsistent (WgKeyStore.keychain b set) (KeyPair.detached pk sk) =
      matching_secret-IsMatching (key_of_bytes b) pk none tt
  restart-IsConsistent (WgKeyStore.sealed tpm) (KeyPair.plaintext sk) = tt
  restart-IsConsistent (WgKeyStore.sealed tpm) (KeyPair.sealed box pk sk) =
      matching_secret-IsMatching (tpm.unseal box) pk none tt
  restart-IsConsistent (WgKeyStore.sealed tpm) (KeyPair.detached pk sk) = tt
  restart-IsConsistent WgKeyStore.no_store (KeyPair.plaintext sk) = tt
  restart-IsConsistent WgKeyStore.no_store _ = tt

  restart_pair-IsConsistent :
      (loaded : WgKeyStore) (o : Option KeyPair)
      → IsConsistent crypto
          (map_pair (secret_from_store crypto loaded) (map_pair persisted_key_pair o))
  restart_pair-IsConsistent loaded none = tt
  restart_pair-IsConsistent loaded (some p) = restart-IsConsistent loaded p

  apply-IsConsistent :
      (op : Op) (c : WireGuardKeyCache)
      → IsConsistent crypto c.key_pair
      → IsConsistent crypto (apply crypto store op c).key_pair
  unfolding apply rotate_if_required use_key_pair need_registration registered try_set_secret_key
      persisted
  apply-IsConsistent (Op.rotate fresh) c h = rotate_now-IsConsistent fresh c
  apply-IsConsistent (Op.use_keys fresh now) c h = ensure_key_pair-IsConsistent fresh c h
  apply-IsConsistent (Op.rotate_old fresh now) c h =
      elim (Bool-cases (elapsed_past c.first_use now max_age)) [
        | inl old ↦ rw old (rotate_now-IsConsistent fresh c)
        | inr young ↦ rw young h
      ]
  apply-IsConsistent (Op.ask_registration fresh) c h = ensure_key_pair-IsConsistent fresh c h
  apply-IsConsistent (Op.registration_done k removed now) c h = h
  apply-IsConsistent (Op.restart loaded) c h = restart_pair-IsConsistent loaded c.key_pair

  run-IsConsistent :
      (ops : List Op) (c : WireGuardKeyCache)
      → IsConsistent crypto c.key_pair
      → IsConsistent crypto (run crypto store ops c).key_pair
  unfolding run
  run-IsConsistent [] c h = h
  run-IsConsistent (op ∷ ops) c h =
      run-IsConsistent ops (apply crypto store op c) (apply-IsConsistent op c h)

  used_keys_match :
      (fresh now : ℕ) (c : WireGuardKeyCache)
      → IsConsistent crypto c.key_pair
      → let (c', keys) = use_key_pair crypto store fresh now c in
        (keys.1 ≡ crypto.public_key keys.0)
        × (current_public_key crypto c'.key_pair ≡ some keys.1)
        × (held_secret crypto c'.key_pair ≡ some keys.0)
  unfolding use_key_pair ensure_key_pair rotate_now
  used_keys_match fresh now c h = elim (Option-cases (held_secret crypto c.key_pair)) [
    | inl lost ↦
        rw lost (
          refl,
          current-store_key crypto store store fresh,
          held-store_key crypto store store fresh,
        )
    | inr (sk, held) ↦ rw held (refl, current_of_held crypto c.key_pair sk held h, held)
  ]

  -- After any sequence of rotations, registrations and restarts, with whatever key stores, the
  -- keys that a new tunnel uses belong together, the secret one is held by the cache, and the
  -- public one is the cache's current one.
  pub use_key_pair-run :
      (ops : List Op) (fresh now : ℕ) (c : WireGuardKeyCache)
      → IsConsistent crypto c.key_pair
      → let (c', keys) = use_key_pair crypto store fresh now (run crypto store ops c) in
        (keys.1 ≡ crypto.public_key keys.0)
        × (current_public_key crypto c'.key_pair ≡ some keys.1)
        × (held_secret crypto c'.key_pair ≡ some keys.0)
  use_key_pair-run ops fresh now c h =
      used_keys_match fresh now (run crypto store ops c) (run-IsConsistent ops c h)

-- With a TPM that unseals what it sealed, or keys stored in plain text, a new key pair survives a
-- restart: the loaded cache holds the same secret.
pub try_set_secret_key-persisted :
    (crypto : Crypto) (tpm : SealingKey) (fresh : ℕ) (box : List ℕ) (c : WireGuardKeyCache)
    → tpm.seal fresh ≡ some box
    → tpm.unseal box ≡ some fresh
    → ((try_set_secret_key crypto
          (WgKeyStore.sealed tpm)
          (persisted (rotate_now crypto (WgKeyStore.sealed tpm) fresh c))).key_pair
        ≡ (rotate_now crypto (WgKeyStore.sealed tpm) fresh c).key_pair)
      × ((try_set_secret_key crypto WgKeyStore.plaintext
            (persisted (rotate_now crypto WgKeyStore.plaintext fresh c))).key_pair
          ≡ (rotate_now crypto WgKeyStore.plaintext fresh c).key_pair)
unfolding try_set_secret_key persisted rotate_now store_key secret_from_store persisted_key_pair
try_set_secret_key-persisted crypto tpm fresh box c sealed unsealed =
    (rw sealed (ground arith), refl)
