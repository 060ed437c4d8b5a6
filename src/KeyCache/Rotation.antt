-- ===== src/KeyCache/Rotation.antt =====
-- rustlib/src/config/persistence.rs: which public keys the client accounts for to the server.
use obscuravpn_client.Prelude.{
  ℕ, ◌≡◌, ◌≢◌, refl, inl, inr, Bool, true, false, not, ◌||◌, Option, none, some, List, [], ◌∷◌,
  ◌++◌, ◌==◌, any, retain, arith, Option-cases,
}
use obscuravpn_client.KeyCache.{
  Crypto, WgKeyStore, KeyPair, WireGuardKeyCache, current_public_key, store_key, rotate_now,
  held_secret, ensure_key_pair, use_key_pair, rotate_if_required, need_registration, registered,
  try_set_secret_key, secret_from_store, persisted_key_pair, persisted, is_key, map_pair, push_some,
}

any-append :
    (k : ℕ) (xs : List ℕ) (x : ℕ)
    → any (λ r. r == k) (xs ++ x ∷ []) ≡ (any (λ r. r == k) xs || x == k)
any-append k [] x = ground arith
any-append k (y ∷ ys) x = ground (arith, any-append k ys x)

any-retain :
    (k : ℕ) (p : ℕ → Bool) (xs : List ℕ)
    → p k ≡ true
    → any (λ r. r == k) xs ≡ true
    → any (λ r. r == k) (retain p xs) ≡ true
any-retain k p [] h e = e
any-retain k p (y ∷ ys) h e = ground (arith, any-retain k p ys h)

-- What happens to the cache in the life of a client. `restart` writes it to disk and loads it.
pub data Op : Type 0 where
  rotate : ℕ → Op
  use_keys : ℕ → ℕ → Op
  rotate_old : ℕ → ℕ → Op
  ask_registration : ℕ → Op
  registration_done : ℕ → List ℕ → ℕ → Op
  restart : WgKeyStore → Op

module _ (crypto : Crypto) (store : WgKeyStore) where
  unfoldable pub apply : Op → WireGuardKeyCache → WireGuardKeyCache
  apply (rotate fresh) c = rotate_now crypto store fresh c
  apply (use_keys fresh now) c = (use_key_pair crypto store fresh now c).0
  apply (rotate_old fresh now) c = rotate_if_required crypto store fresh now c
  apply (ask_registration fresh) c = (need_registration crypto store fresh c).0
  apply (registration_done k removed now) c = registered crypto k removed now c
  apply (restart loaded) c = try_set_secret_key crypto loaded (persisted c)

  unfoldable pub run : List Op → WireGuardKeyCache → WireGuardKeyCache
  run [] c = c
  run (op ∷ ops) c = run ops (apply op c)

  -- The key is the current one, or one of the old ones that the server is to forget.
  unfoldable pub known : ℕ → WireGuardKeyCache → Bool
  known k c = is_key k (current_public_key crypto c.key_pair) || any (λ r. r == k) c.old_public_keys

  -- The old keys that the server has confirmed to have removed.
  abbrev pub confirmed : Op → List ℕ
  confirmed (registration_done k removed now) = removed
  confirmed _ = []

  abbrev pub all_confirmed : List Op → List ℕ
  all_confirmed [] = []
  all_confirmed (op ∷ ops) = confirmed op ++ all_confirmed ops

  pub held-store_key :
      (s : WgKeyStore) (fresh : ℕ)
      → held_secret crypto (some (store_key crypto s fresh)) ≡ some fresh
  unfolding store_key
  held-store_key WgKeyStore.plaintext fresh = refl
  held-store_key (WgKeyStore.keychain b set) fresh = refl
  held-store_key (WgKeyStore.sealed tpm) fresh = ground arith
  held-store_key WgKeyStore.no_store fresh = refl

  pub current-store_key :
      (s : WgKeyStore) (fresh : ℕ)
      → current_public_key crypto (some (store_key crypto s fresh)) ≡ some (crypto.public_key fresh)
  unfolding store_key current_public_key
  current-store_key WgKeyStore.plaintext fresh = refl
  current-store_key (WgKeyStore.keychain b set) fresh = refl
  current-store_key (WgKeyStore.sealed tpm) fresh = ground arith
  current-store_key WgKeyStore.no_store fresh = refl

  known-rotate_now :
      (k fresh : ℕ) (c : WireGuardKeyCache)
      → known k c ≡ true
      → known k (rotate_now crypto store fresh c) ≡ true
  unfolding known rotate_now
  known-rotate_now k fresh c h = elim (Option-cases (current_public_key crypto c.key_pair)) [
    | inl absent ↦ ground arith
    | inr (j, current) ↦ ground (arith, any-append k c.old_public_keys j)
  ]

  known-ensure_key_pair :
      (k fresh : ℕ) (c : WireGuardKeyCache)
      → known k c ≡ true
      → known k (ensure_key_pair crypto store fresh c).0 ≡ true
  unfolding ensure_key_pair
  known-ensure_key_pair k fresh c h = elim (Option-cases (held_secret crypto c.key_pair)) [
    | inl lost ↦ rw lost (known-rotate_now k fresh c h)
    | inr (sk, held) ↦ rw held h
  ]

  current-restart :
      (loaded : WgKeyStore) (p : KeyPair)
      → current_public_key crypto (some (secret_from_store crypto loaded (persisted_key_pair p)))
        ≡ current_public_key crypto (some p)
  unfolding current_public_key secret_from_store persisted_key_pair
  current-restart WgKeyStore.plaintext (KeyPair.plaintext sk) = refl
  current-restart WgKeyStore.plaintext _ = refl
  current-restart (WgKeyStore.keychain b set) (KeyPair.plaintext sk) = refl
  current-restart (WgKeyStore.keychain b set) _ = refl
  current-restart (WgKeyStore.sealed tpm) (KeyPair.plaintext sk) = refl
  current-restart (WgKeyStore.sealed tpm) _ = refl
  current-restart WgKeyStore.no_store (KeyPair.plaintext sk) = refl
  current-restart WgKeyStore.no_store _ = refl

  current_pair-restart :
      (loaded : WgKeyStore) (o : Option KeyPair)
      → current_public_key crypto
          (map_pair (secret_from_store crypto loaded) (map_pair persisted_key_pair o))
        ≡ current_public_key crypto o
  unfolding current_public_key
  current_pair-restart loaded none = refl
  current_pair-restart loaded (some p) = current-restart loaded p

  known-registered :
      (k j : ℕ) (removed : List ℕ) (now : ℕ) (c : WireGuardKeyCache)
      → known k c ≡ true
      → any (λ r. r == k) removed ≡ false
      → known k (registered crypto j removed now c) ≡ true
  unfolding known registered
  known-registered k j removed now c h n =
      ground (arith, any-retain k (λ b. not (any (λ r. r == b) removed)) c.old_public_keys (rw n))

  known-apply :
      (k : ℕ) (op : Op) (c : WireGuardKeyCache)
      → known k c ≡ true
      → any (λ r. r == k) (confirmed op) ≡ false
      → known k (apply op c) ≡ true
  unfolding apply rotate_if_required
  known-apply k (rotate fresh) c h n = known-rotate_now k fresh c h
  known-apply k (use_keys fresh now) c h n =
      unfold use_key_pair known in known-ensure_key_pair k fresh c h
  known-apply k (rotate_old fresh now) c h n = ground (arith, known-rotate_now k fresh c h)
  known-apply k (ask_registration fresh) c h n =
      unfold need_registration in known-ensure_key_pair k fresh c h
  known-apply k (registration_done j removed now) c h n = known-registered k j removed now c h n
  known-apply k (restart loaded) c h n =
      unfold known try_set_secret_key persisted in
      ground (arith, current_pair-restart loaded c.key_pair)

  any-confirmed :
      (k : ℕ) (xs ys : List ℕ)
      → any (λ r. r == k) (xs ++ ys) ≡ false
      → (any (λ r. r == k) xs ≡ false) × (any (λ r. r == k) ys ≡ false)
  any-confirmed k [] ys h = (refl, h)
  any-confirmed k (x ∷ xs) ys h = ground (arith, any-confirmed k xs ys)

  -- A public key that was ever current stays accounted for, as the current key or in the list that
  -- the next registration asks the server to remove, through rotations, restarts and failed
  -- registrations in any order, until a successful registration has named it as removed.
  pub known-run :
      (k : ℕ) (ops : List Op) (c : WireGuardKeyCache)
      → known k c ≡ true
      → any (λ r. r == k) (all_confirmed ops) ≡ false
      → known k (run ops c) ≡ true
  unfolding run
  known-run k [] c h n = h
  known-run k (op ∷ ops) c h n =
      let (now_not, later_not) = any-confirmed k (confirmed op) (all_confirmed ops) n in
      known-run k ops (apply op c) (known-apply k op c h now_not) later_not

  -- Right after a rotation registration is asked for, with the new public key, and with all old
  -- keys and the key that was replaced as those to remove.
  pub need_registration-rotate_now :
      (fresh unused : ℕ) (c : WireGuardKeyCache)
      → (need_registration crypto store unused (rotate_now crypto store fresh c)).1
        ≡ some (
          crypto.public_key fresh,
          push_some (current_public_key crypto c.key_pair) c.old_public_keys,
        )
  unfolding need_registration ensure_key_pair rotate_now
  need_registration-rotate_now fresh unused c = rw (held-store_key store fresh)

  -- A registration that names the current key is not asked for again.
  pub need_registration-registered :
      (fresh unused now : ℕ) (removed : List ℕ) (c : WireGuardKeyCache)
      → let rotated = rotate_now crypto store fresh c in
        (need_registration crypto store unused
          (registered crypto (crypto.public_key fresh) removed now rotated)).1
        ≡ none
  unfolding need_registration ensure_key_pair rotate_now registered
  need_registration-registered fresh unused now removed c =
      ground (arith, held-store_key store fresh, current-store_key store fresh)

  -- An answer to a registration that arrives after the key was replaced leaves the new key to be
  -- registered, with the old keys that are not confirmed as removed.
  pub need_registration-registered_late :
      (fresh unused k now : ℕ) (removed : List ℕ) (c : WireGuardKeyCache)
      → k ≢ crypto.public_key fresh
      → let late = registered crypto k removed now (rotate_now crypto store fresh c) in
        (need_registration crypto store unused late).1
        ≡ some (crypto.public_key fresh, late.old_public_keys)
  unfolding need_registration ensure_key_pair rotate_now registered
  need_registration-registered_late fresh unused k now removed c ne =
      ground (arith, held-store_key store fresh, current-store_key store fresh)
