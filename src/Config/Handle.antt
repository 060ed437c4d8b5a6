-- ===== src/Config/Handle.antt =====
-- rustlib/src/config/mod.rs, `ConfigHandle`: a change of the configuration is saved at once if it
-- changed anything, or if an earlier save failed. `rest_eq` is the derived comparison of all fields
-- but `cached_account_status`.
use obscuravpn_client.Prelude.{
  ◌≡◌, refl, ◌∙◌, ap, ◌⊎◌, inl, inr, Bool, true, false, not, ◌&&◌, ◌||◌, Option, none, some,
  if◌then◌else◌, arith,
}
use obscuravpn_client.KeyCache.{Crypto, WgKeyStore}
use obscuravpn_client.Config.{Config, AccountStatus, account_status_eq, migrate}
use obscuravpn_client.Config.File.{
  json, Files, SaveAnswers, ConfigSaveError, OpenResult, loaded, failed, serialized, save, load,
}

pub record ConfigHandle : Type 0 where
  pub config : Config
  pub dirty : Bool
  pub files : Files

abbrev pub status_eq : Option AccountStatus → Option AccountStatus → Bool
status_eq none none = true
status_eq (some a) (some b) = account_status_eq a b
status_eq _ _ = false

abbrev opened_handle : Files × OpenResult Config → OpenResult ConfigHandle
opened_handle (fs, loaded c) = loaded (record { config = migrate c; dirty = false; files = fs })
opened_handle (fs, failed e) = failed e

-- `ConfigHandle::new`.
pub new_handle : Crypto → WgKeyStore → Bool → Bool → SaveAnswers → Files → OpenResult ConfigHandle
new_handle crypto store readable renamed a fs =
    opened_handle (load crypto store readable renamed a fs)

abbrev after_save : Config → Files × Option ConfigSaveError → ConfigHandle
after_save c (fs, none) = record { config = c; dirty = false; files = fs }
after_save c (fs, some e) = record { config = c; dirty = true; files = fs }

-- `ConfigHandle::check_persisted`.
pub check_persisted : ConfigHandle → Bool
check_persisted h = not h.dirty

module _ (rest_eq : Config → Config → Bool) where
  -- `PartialEq for Config`.
  pub config_eq : Config → Config → Bool
  config_eq a b = rest_eq a b && status_eq a.cached_account_status b.cached_account_status

  unfoldable pub replace_config : SaveAnswers → Config → ConfigHandle → ConfigHandle
  replace_config a c h =
      if h.dirty || not (config_eq h.config c)
      then after_save c (save a c h.files)
      else record { config = c; dirty = false; files = h.files }

  -- `ConfigHandle::change`.
  unfoldable pub change :
      {T : Type 0} → SaveAnswers → (Config → Config × T) → ConfigHandle → ConfigHandle × T
  change a f h = let (c, ret) = f h.config in (replace_config a c h, ret)

-- A clean handle's configuration is the one in its file, up to the account's data if that was
-- updated within the second.
abbrev pub IsStored : ConfigHandle → Type 0
IsStored h =
    (h.dirty ≡ true)
    ⊎ (s : Option AccountStatus) × (h.files.config_file
        ≡ some (json (serialized (record h.config { cached_account_status = s }))))
      × (status_eq s h.config.cached_account_status ≡ true)

status_eq_refl : (s : Option AccountStatus) → status_eq s s ≡ true
unfolding account_status_eq
status_eq_refl none = refl
status_eq_refl (some s) = ground arith

status_eq_trans :
    (r s t : Option AccountStatus)
    → status_eq r s ≡ true
    → status_eq s t ≡ true
    → status_eq r t ≡ true
unfolding account_status_eq
status_eq_trans none none t h h' = h'
status_eq_trans (some r) (some s) (some t) h h' = ground arith
status_eq_trans (some r) (some s) none h h' = h'
status_eq_trans none (some s) t h h' = ground arith
status_eq_trans (some r) none t h h' = ground arith

-- What `change` does with the new configuration on every branch: it is in force; if it differs or an
-- earlier save failed, then it is saved and the handle is clean, or no file changes and the handle is dirty;
-- else no file changes.
pub change-saves :
    {T : Type 0} (rest_eq : Config → Config → Bool) (a : SaveAnswers) (f : Config → Config × T)
    (h : ConfigHandle)
    → let h' = (change rest_eq a f h).0 in
      let c = (f h.config).0 in
      (h'.config ≡ c)
      × (((h'.dirty ≡ false) × (h'.files.config_file ≡ some (json (serialized c))))
          ⊎ ((h'.dirty ≡ true) × (h'.files ≡ h.files))
          ⊎ (config_eq rest_eq h.config c ≡ true)
            × (h.dirty ≡ false)
            × (h'.dirty ≡ false)
            × (h'.files ≡ h.files))
unfolding change replace_config save
change-saves rest_eq a f h = ground arith

module _ (rest_eq : Config → Config → Bool)
    (same_rest : (a b : Config)
      → rest_eq a b ≡ true
      → record a { cached_account_status = b.cached_account_status } ≡ b) where
  kept_file :
      (h : ConfigHandle) (c : Config) (s : Option AccountStatus)
      → rest_eq h.config c ≡ true
      → record h.config { cached_account_status = s } ≡ record c { cached_account_status = s }
  kept_file h c s e =
      ap {A = Config} (λ d. record d { cached_account_status = s }) (same_rest h.config c e)

  IsStored-still :
      (h h' : ConfigHandle)
      → config_eq rest_eq h.config h'.config ≡ true
      → h.dirty ≡ false
      → h'.files ≡ h.files
      → IsStored h
      → IsStored h'
  unfolding config_eq
  IsStored-still h h' e clean same (inl dirty) = ground arith
  IsStored-still h h' e clean same (inr (s, file, close)) = inr (
    s,
    ap (λ f. f.config_file) same
        ∙ file
        ∙ ap (λ c. some (json (serialized c))) (kept_file h h'.config s (ground arith)),
    status_eq_trans s h.config.cached_account_status h'.config.cached_account_status close
        (ground arith),
  )

  Outcome : ConfigHandle → ConfigHandle → Type 0
  Outcome h h' =
      (h'.dirty ≡ false) × (h'.files.config_file ≡ some (json (serialized h'.config)))
      ⊎ (h'.dirty ≡ true) × (h'.files ≡ h.files)
      ⊎ (config_eq rest_eq h.config h'.config ≡ true)
        × (h.dirty ≡ false)
        × (h'.dirty ≡ false)
        × (h'.files ≡ h.files)

  Outcome-IsStored : (h h' : ConfigHandle) → Outcome h h' → IsStored h → IsStored h'
  unfolding Outcome
  Outcome-IsStored h h' (inl (clean, file)) stored =
      inr (h'.config.cached_account_status, file, status_eq_refl h'.config.cached_account_status)
  Outcome-IsStored h h' (inr (inl (dirty, same))) stored = inl dirty
  Outcome-IsStored h h' (inr (inr (e, clean, clean', same))) stored =
      IsStored-still h h' e clean same stored

  -- If a clean handle's configuration is in its file, up to account data updated within the second,
  -- then every change keeps this, whether or not the file can be written. `ConfigHandle::new` makes a
  -- clean handle without a file, for which this begins with the first save.
  pub change-IsStored :
      {T : Type 0} (a : SaveAnswers) (f : Config → Config × T) (h : ConfigHandle)
      → IsStored h
      → IsStored (change rest_eq a f h).0
  unfolding Outcome
  change-IsStored a f h stored =
      let (kept, outcome) = change-saves rest_eq a f h in
      Outcome-IsStored h (change rest_eq a f h).0 (rw kept outcome) stored

replace_config-kept :
    (rest_eq : Config → Config → Bool) (a : SaveAnswers) (c : Config) (h : ConfigHandle)
    → h.dirty ≡ false
    → rest_eq h.config c ≡ true
    → status_eq h.config.cached_account_status c.cached_account_status ≡ true
    → replace_config rest_eq a c h ≡ record { config = c; dirty = false; files = h.files }
unfolding replace_config config_eq
replace_config-kept rest_eq a c h clean same close = ground arith

same_second_eq :
    (o : Option AccountStatus) (old new : AccountStatus)
    → o ≡ some old
    → new.last_updated_sec ≡ old.last_updated_sec
    → status_eq o (some new) ≡ true
unfolding account_status_eq
same_second_eq o old new was same = rw was ground arith

-- Account data that is fetched again within the second of the last update is in force, but no file
-- gets it and the handle stays clean.
pub change-same_second :
    (rest_eq : Config → Config → Bool) (a : SaveAnswers) (h : ConfigHandle)
    (old new : AccountStatus)
    → ((c : Config) (s : Option AccountStatus)
        → rest_eq c (record c { cached_account_status = s }) ≡ true)
    → h.dirty ≡ false
    → h.config.cached_account_status ≡ some old
    → new.last_updated_sec ≡ old.last_updated_sec
    → change rest_eq a (λ c. (record c { cached_account_status = some new }, tt)) h ≡ (
      record {
        config = record h.config { cached_account_status = some new };
        dirty = false;
        files = h.files;
      },
      tt,
    )
unfolding change
change-same_second rest_eq a h old new ignores clean was same =
    ap (λ h'. (h', tt))
      (replace_config-kept rest_eq a (record h.config { cached_account_status = some new }) h clean
        (ignores h.config (some new))
        (same_second_eq h.config.cached_account_status old new was same))
