-- ===== src/Config/File.antt =====
-- rustlib/src/config/persistence.rs, `try_load`, `load` and `save`: the config file. What the file
-- system and the serialiser answer is an argument of each operation.
use obscuravpn_client.Prelude.{
  ◌/◌, ◌*◌, map, refl, inl, inr, ℕ, ◌≡◌, ◌≢◌, ◌⊎◌, Bool, true, Option, none, some, if◌then◌else◌,
  arith,
}
use obscuravpn_client.KeyCache.{Crypto, WgKeyStore, persisted, try_set_secret_key}
use obscuravpn_client.Config.{Config, PinnedLocation, default_config}

-- What stands in a file: a config as it was serialised, or something that does not parse. The JSON text
-- is not modelled, nor how serde reads missing and unknown fields.
pub data Content : Type 0 where
  json : Config → Content
  broken : ℕ → Content

pub record Files : Type 0 where
  pub config_file : Option Content
  pub backup_file : Option Content

pub data ConfigSaveError : Type 0 where
  serialize_error create_dir_error create_temp_file_error temp_file_write_error
        temp_file_persist_error :
      ConfigSaveError

pub data ConfigLoadError : Type 0 where
  read_error deserialize_error : ConfigLoadError
  save_error : ConfigSaveError → ConfigLoadError

-- Whether each step of a save succeeds.
pub record SaveAnswers : Type 0 where
  pub to_vec_pretty : Bool
  pub create_dir_all : Bool
  pub new_in : Bool
  pub write_all : Bool
  pub sync_data : Bool
  pub persist : Bool

-- `serde_with::TimestampSeconds` drops what is below a second.
abbrev pub whole_second_pin : PinnedLocation → PinnedLocation
whole_second_pin p = record p { pinned_at = p.pinned_at / 1000000000 * 1000000000 }

-- What the serialised config keeps: fields marked `#[serde(skip)]` are lost.
abbrev pub serialized : Config → Config
serialized c = record c {
  wireguard_key_cache = persisted c.wireguard_key_cache;
  pinned_locations = map whole_second_pin c.pinned_locations;
}

-- The new contents are in a temporary file until the last step, which replaces the config file.
unfoldable pub save : SaveAnswers → Config → Files → Files × Option ConfigSaveError
save a c fs =
    if a.to_vec_pretty
    then if a.create_dir_all
      then if a.new_in
        then if a.write_all
          then if a.sync_data
            then if a.persist
              then (record fs { config_file = some (json (serialized c)) }, none)
              else (fs, some temp_file_persist_error)
            else (fs, some temp_file_write_error)
          else (fs, some temp_file_write_error)
        else (fs, some create_temp_file_error)
      else (fs, some create_dir_error)
    else (fs, some serialize_error)

-- How opening the config file goes, if it exists.
pub data OpenResult (A : Type 0) : Type 0 where
  loaded : A → OpenResult A
  failed : ConfigLoadError → OpenResult A

abbrev parsed : Content → OpenResult (Option Config)
parsed (json c) = loaded (some c)
parsed (broken b) = failed deserialize_error

abbrev opened : Bool → Option Content → OpenResult (Option Config)
opened readable none = loaded none
opened readable (some content) = if readable then parsed content else failed read_error

pub try_load : Bool → Files → OpenResult (Option Config)
try_load readable fs = opened readable fs.config_file

module _ (crypto : Crypto) (key_store : WgKeyStore) where
  abbrev with_secret : Config → Config
  with_secret c = record c {
    wireguard_key_cache = try_set_secret_key crypto key_store c.wireguard_key_cache;
  }

  abbrev unwrap_config : Option Config → Config
  unwrap_config none = default_config
  unwrap_config (some c) = c

  abbrev saved_default : Files × Option ConfigSaveError → Files × OpenResult Config
  saved_default (fs, none) = (fs, loaded default_config)
  saved_default (fs, some e) = (fs, failed (save_error e))

  -- Moves a broken file aside, and writes the default.
  abbrev reset : Bool → SaveAnswers → Files → Files × OpenResult Config
  reset renamed a fs =
      let aside : Files = record { config_file = none; backup_file = fs.config_file } in
      if renamed
      then saved_default (save a default_config aside)
      else (fs, failed deserialize_error)

  abbrev finish_load :
      Bool → SaveAnswers → Files → OpenResult (Option Config) → Files × OpenResult Config
  finish_load renamed a fs (loaded c) = (fs, loaded (with_secret (unwrap_config c)))
  finish_load renamed a fs (failed deserialize_error) = reset renamed a fs
  finish_load renamed a fs (failed e) = (fs, failed e)

  pub load : Bool → Bool → SaveAnswers → Files → Files × OpenResult Config
  load readable renamed a fs = finish_load renamed a fs (try_load readable fs)

-- A save replaces the whole config file or leaves every file as it was, and the latter exactly if
-- it reports an error.
pub save_atomic :
    (a : SaveAnswers) (c : Config) (fs : Files)
    → ((save a c fs).1 ≡ none)
        × ((save a c fs).0 ≡ record fs { config_file = some (json (serialized c)) })
      ⊎ ((save a c fs).1 ≢ none) × ((save a c fs).0 ≡ fs)
unfolding save
save_atomic a c fs = ground arith

-- Loading loses nothing: the file that is there afterwards is the one before, or that one is kept
-- as the backup.
pub load_keeps :
    (crypto : Crypto) (store : WgKeyStore) (readable renamed : Bool) (a : SaveAnswers) (fs : Files)
    → let fs' = (load crypto store readable renamed a fs).0 in
      (fs'.config_file ≡ fs.config_file) ⊎ (fs'.backup_file ≡ fs.config_file)
unfolding load try_load save
load_keeps crypto store readable renamed a fs = ground arith

-- A file that does not parse makes no client fail to start: if the file can be moved and a new one
-- written, the default configuration is loaded, it is the one on disk, and the broken file is kept
-- as the backup.
pub load-broken :
    (crypto : Crypto) (store : WgKeyStore) (a : SaveAnswers) (b : ℕ) (fs : Files)
    → fs.config_file ≡ some (broken b)
    → (save a default_config (record { config_file = none; backup_file = some (broken b) })).1
      ≡ none
    → load crypto store true true a fs ≡ (
      record {
        config_file = some (json (serialized default_config));
        backup_file = some (broken b);
      },
      loaded default_config,
    )
unfolding load try_load save
load-broken crypto store a b fs e saved = ground arith

-- What was saved is loaded again, with the secret key that the key store gives and the times of the
-- pinned locations in whole seconds. The text of the file stands for the configuration in it.
pub load-save :
    (crypto : Crypto) (store : WgKeyStore) (renamed : Bool) (a a' : SaveAnswers) (c : Config)
    (fs : Files)
    → (save a c fs).1 ≡ none
    → load crypto store true renamed a' (save a c fs).0 ≡ (
      (save a c fs).0,
      loaded (record c {
        pinned_locations = map whole_second_pin c.pinned_locations;
        wireguard_key_cache = try_set_secret_key crypto store (persisted c.wireguard_key_cache);
      }),
    )
unfolding load try_load
load-save crypto store renamed a a' c fs saved = elim (save_atomic a c fs) [
  | inl (done, files) ↦ rw files refl
  | inr (bad, same) ↦ absurd (bad saved)
]
