-- ===== src/Config/Tests.antt =====
-- The configuration's theorems at concrete inputs.
use obscuravpn_client.Prelude.{String, ◌≡◌, refl, true, false, none, some}
use obscuravpn_client.Config.{default_config, AccountStatus}
use obscuravpn_client.Config.File.{Files, SaveAnswers}
use obscuravpn_client.Config.Handle.{ConfigHandle, change, change-same_second}

abbrev all_well : SaveAnswers
all_well = record {
  to_vec_pretty = true;
  create_dir_all = true;
  new_in = true;
  write_all = true;
  sync_data = true;
  persist = true;
}

abbrev no_files : Files
no_files = record { config_file = none; backup_file = none }

abbrev status_at : String → AccountStatus
status_at info = record { account_info = info; last_updated_sec = 5 }

abbrev up_to_date : ConfigHandle
up_to_date = record {
  config = record default_config { cached_account_status = some (status_at "expired") };
  dirty = false;
  files = no_files;
}

change-same_second_example :
    change
      (λ a b. true)
      all_well
      (λ c. (record c { cached_account_status = some (status_at "active") }, tt))
      up_to_date
    ≡ (
      record {
        config = record default_config { cached_account_status = some (status_at "active") };
        dirty = false;
        files = no_files;
      },
      tt,
    )
change-same_second_example =
    change-same_second (λ a b. true) all_well up_to_date (status_at "expired") (status_at "active")
      (λ c s. refl) refl refl refl
