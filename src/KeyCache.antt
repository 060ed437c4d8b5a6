-- ===== src/KeyCache.antt =====
-- rustlib/src/config/persistence.rs, `WireGuardKeyCache`, and the key stores of
-- rustlib/src/wg_key_store/mod.rs: the client's WireGuard key pair and when it is replaced.
-- A 32-byte key is the number that its bytes spell, a sealed key a byte string. The derivation of
-- public keys (x25519) and the TPM are parameters; instants are nanoseconds since the epoch; a fresh random secret is the argument `fresh`.
mod Rotation
mod Secrets
mod Tests
use obscuravpn_client.Prelude.{
  ℕ, ◌+◌, ◌-◌, ◌*◌, ◌/◌, Bool, true, false, not, ◌&&◌, ◌||◌, Option, none, some, List, [], ◌∷◌,
  ◌++◌, ltb, leb, ◌==◌, if◌then◌else◌, is_none, any, retain, length,
}

-- What a secret key's holder computes with: the public key of a secret key.
pub record Crypto : Type 0 where
  pub public_key : ℕ → ℕ

-- The TPM key of `WgKeyStore::Sealed`.
pub record SealingKey : Type 0 where
  pub seal : ℕ → Option (List ℕ)
  pub unseal : List ℕ → Option ℕ

pub data WgKeyStore : Type 0 where
  plaintext : WgKeyStore
  -- The key that the keychain held at the start, and the call that stores one, which may fail.
  keychain : Option (List ℕ) → (ℕ → Bool) → WgKeyStore
  sealed : SealingKey → WgKeyStore
  no_store : WgKeyStore

pub data KeyPair : Type 0 where
  plaintext : ℕ → KeyPair
  -- The sealed secret key, the public key, and the secret key if it was unsealed.
  sealed : List ℕ → ℕ → Option ℕ → KeyPair
  detached : ℕ → Option ℕ → KeyPair

pub record WireGuardKeyCache : Type 0 where
  pub key_pair : Option KeyPair
  pub first_use : Option ℕ
  pub registered_at : Option ℕ
  pub old_public_keys : List ℕ

abbrev pub default_cache : WireGuardKeyCache
default_cache = record {
  key_pair = none;
  first_use = none;
  registered_at = none;
  old_public_keys = [];
}

-- What a key pair becomes in the serialised config and back: `#[serde(skip)]` drops the secret.
pub persisted_key_pair : KeyPair → KeyPair
persisted_key_pair (KeyPair.plaintext sk) = KeyPair.plaintext sk
persisted_key_pair (KeyPair.sealed box pk sk) = KeyPair.sealed box pk none
persisted_key_pair (KeyPair.detached pk sk) = KeyPair.detached pk none

-- `serde_with::TimestampSeconds` drops what is below a second.
abbrev pub whole_seconds : Option ℕ → Option ℕ
whole_seconds none = none
whole_seconds (some t) = some (t / 1000000000 * 1000000000)

abbrev pub map_pair : (KeyPair → KeyPair) → Option KeyPair → Option KeyPair
map_pair f none = none
map_pair f (some p) = some (f p)

-- The cache as it comes back from the config file.
pub persisted : WireGuardKeyCache → WireGuardKeyCache
persisted c = record c {
  key_pair = map_pair persisted_key_pair c.key_pair;
  first_use = whole_seconds c.first_use;
  registered_at = whole_seconds c.registered_at;
}

abbrev pub push_some : Option ℕ → List ℕ → List ℕ
push_some none ks = ks
push_some (some k) ks = ks ++ k ∷ []

-- The bytes of a little-endian number.
abbrev pub from_bytes : List ℕ → ℕ
from_bytes [] = 0
from_bytes (b ∷ bs) = b + 256 * from_bytes bs

-- 30 days, in nanoseconds.
abbrev pub max_age : ℕ
max_age = 60 * 60 * 24 * 30 * 1000000000

-- `Option::get_or_insert`.
abbrev pub get_or_insert : Option ℕ → ℕ → Option ℕ
get_or_insert none now = some now
get_or_insert (some t) now = some t

-- `SystemTime::elapsed` fails where the clock was set back.
abbrev pub elapsed_past : Option ℕ → ℕ → ℕ → Bool
elapsed_past none now limit = false
elapsed_past (some t) now limit = leb t now && ltb limit (now - t)

abbrev pub is_key : ℕ → Option ℕ → Bool
is_key k none = false
is_key k (some j) = k == j

-- `keychain_secret_key.as_slice().try_into()`: exactly 32 bytes.
abbrev pub key_of_bytes : Option (List ℕ) → Option ℕ
key_of_bytes none = none
key_of_bytes (some bytes) = if length bytes == 32 then some (from_bytes bytes) else none

module _ (crypto : Crypto) where
  open crypto use {public_key}

  -- `match &self.key_pair { .. }` in `rotate_now_internal` and `registered`.
  pub current_public_key : Option KeyPair → Option ℕ
  current_public_key none = none
  current_public_key (some (KeyPair.plaintext sk)) = some (public_key sk)
  current_public_key (some (KeyPair.sealed box pk sk)) = some pk
  current_public_key (some (KeyPair.detached pk sk)) = some pk

  abbrev pub sealed_or_detached : ℕ → Option (List ℕ) → KeyPair
  sealed_or_detached secret (some box) = KeyPair.sealed box (public_key secret) (some secret)
  sealed_or_detached secret none = KeyPair.detached (public_key secret) (some secret)

  -- The key pair that a store keeps for a new secret. A keychain that fails to store it is only
  -- logged.
  pub store_key : WgKeyStore → ℕ → KeyPair
  store_key WgKeyStore.plaintext secret = KeyPair.plaintext secret
  store_key (WgKeyStore.keychain _ set_secret_key) secret =
      KeyPair.detached (public_key secret) (some secret)
  store_key WgKeyStore.no_store secret = KeyPair.detached (public_key secret) (some secret)
  store_key (WgKeyStore.sealed tpm) secret = sealed_or_detached secret (tpm.seal secret)

  pub rotate_now : WgKeyStore → ℕ → WireGuardKeyCache → WireGuardKeyCache
  rotate_now store fresh c = record {
    key_pair = some (store_key store fresh);
    first_use = none;
    registered_at = none;
    old_public_keys = push_some (current_public_key c.key_pair) c.old_public_keys;
  }

  -- `rotate_now_internal` with its result, the new pair of keys.
  abbrev pub rotate_now_internal : WgKeyStore → ℕ → WireGuardKeyCache → WireGuardKeyCache × (ℕ × ℕ)
  rotate_now_internal store fresh c = (rotate_now store fresh c, (fresh, public_key fresh))

  abbrev pub held_or_rotated :
      Option ℕ → WgKeyStore → ℕ → WireGuardKeyCache → WireGuardKeyCache × (ℕ × ℕ)
  held_or_rotated (some sk) store fresh c = (c, (sk, public_key sk))
  held_or_rotated none store fresh c = rotate_now_internal store fresh c

  -- The secret key, where it is at hand.
  abbrev pub held_secret : Option KeyPair → Option ℕ
  held_secret none = none
  held_secret (some (KeyPair.plaintext sk)) = some sk
  held_secret (some (KeyPair.sealed box pk sk)) = sk
  held_secret (some (KeyPair.detached pk sk)) = sk

  pub ensure_key_pair : WgKeyStore → ℕ → WireGuardKeyCache → WireGuardKeyCache × (ℕ × ℕ)
  ensure_key_pair store fresh c = held_or_rotated (held_secret c.key_pair) store fresh c

  pub use_key_pair : WgKeyStore → ℕ → ℕ → WireGuardKeyCache → WireGuardKeyCache × (ℕ × ℕ)
  use_key_pair store fresh now c =
      let (c', keys) = ensure_key_pair store fresh c in
      (record c' { first_use = get_or_insert c'.first_use now }, keys)

  pub rotate_if_required : WgKeyStore → ℕ → ℕ → WireGuardKeyCache → WireGuardKeyCache
  rotate_if_required store fresh now c =
      if elapsed_past c.first_use now max_age then rotate_now store fresh c else c

  pub need_registration :
      WgKeyStore → ℕ → WireGuardKeyCache → WireGuardKeyCache × Option (ℕ × List ℕ)
  need_registration store fresh c =
      let (c', keys) = ensure_key_pair store fresh c in
      (c', if is_none c'.registered_at then some (keys.1, c'.old_public_keys) else none)

  pub registered : ℕ → List ℕ → ℕ → WireGuardKeyCache → WireGuardKeyCache
  registered registered_public_key removed_public_keys now c = record c {
    registered_at =
        if is_key registered_public_key (current_public_key c.key_pair)
        then some now
        else c.registered_at;
    old_public_keys = retain (λ b. not (any (λ r. r == b) removed_public_keys)) c.old_public_keys;
  }

  abbrev pub matching_secret : Option ℕ → ℕ → Option ℕ → Option ℕ
  matching_secret none pk old = old
  matching_secret (some sk) pk old = if public_key sk == pk then some sk else old

  pub secret_from_store : WgKeyStore → KeyPair → KeyPair
  secret_from_store (WgKeyStore.sealed tpm) (KeyPair.sealed box pk sk) =
      KeyPair.sealed box pk (matching_secret (tpm.unseal box) pk sk)
  secret_from_store (WgKeyStore.keychain bytes set) (KeyPair.detached pk sk) =
      KeyPair.detached pk (matching_secret (key_of_bytes bytes) pk sk)
  secret_from_store _ pair = pair

  pub try_set_secret_key : WgKeyStore → WireGuardKeyCache → WireGuardKeyCache
  try_set_secret_key store c = record c { key_pair = map_pair (secret_from_store store) c.key_pair }
