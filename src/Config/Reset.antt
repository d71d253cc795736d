-- ===== src/Config/Reset.antt =====
-- A factory reset (`facto_set(false)` of main/flash/app_nvs.c) and the start after it.
use water_dispenser.Base.{◌≡◌, ◌≢◌, refl, ◌∙◌, false, none, some}
use water_dispenser.Float.{FloatOps}
use water_dispenser.Nvs.{
  Value, write_nvs, FactoConfig, Key, factory_key, app_key_configuration, app_key_wifi_config,
  app_key_motor_time, app_key_filter_time, waveon, namespace_of, facto_value, Nvs, read_nvs, Works,
  facto_reset, read_nvs_registration_flag,
}
use water_dispenser.Nvs.Access.{
  read-write_other, read-facto_reset, read-facto_reset_kept, read_nvs_registration_flag-facto_reset,
}
use water_dispenser.Config.{Flash, started, nvs_flash_init, default_app, default_wifi, new_counter}
use water_dispenser.Config.Start.{calibrated}

-- The device after the start.
pub record Fresh {S : Type 0} (ops : FloatOps) (nvs : Nvs S) (c : FactoConfig) (f : Flash S)
    : Type 0 where
  pub app : f.app ≡ calibrated (default_app ops) c
  pub wifi : f.wifi ≡ default_wifi
  pub facto : f.facto ≡ c
  pub motor : f.motor ≡ new_counter
  pub filter : f.filter ≡ new_counter

module _ {S : Type 0} (ops : FloatOps) (nvs : Nvs S) (w : Works nvs) where
  past :
      (k j : Key)
      → j ≢ k
      → (v : Value) (s : S) → read_nvs nvs j (write_nvs nvs k v s) ≡ read_nvs nvs j s
  past k j ne v s = read-write_other nvs w k j v s ne

  start_bare :
      (s : S) (c : FactoConfig)
      → read_nvs nvs factory_key s ≡ some (facto_value c)
      → ((k : Key) → namespace_of k ≡ waveon → read_nvs nvs k s ≡ none)
      → Fresh ops nvs c (nvs_flash_init ops nvs (started ops s))
  unfolding nvs_flash_init
  start_bare s c facto bare =
      rw
        (
          facto,
          bare app_key_configuration refl,
          past app_key_configuration app_key_wifi_config (cc),
          bare app_key_wifi_config refl,
          past app_key_wifi_config app_key_motor_time (cc),
          past app_key_configuration app_key_motor_time (cc),
          bare app_key_motor_time refl,
          past app_key_motor_time app_key_filter_time (cc),
          past app_key_wifi_config app_key_filter_time (cc),
          past app_key_configuration app_key_filter_time (cc),
          bare app_key_filter_time refl,
        )
        (record { app = refl; wifi = refl; facto = refl; motor = refl; filter = refl })

-- A factory reset takes the registration back, and the next start has the default settings, no Wi-Fi
-- network and both times of use at 0; the factory settings, with the calibration of the load cell and
-- the serial number, stay. They were in flash, and the flash is sound.
pub facto_reset-Fresh :
    {S : Type 0} (ops : FloatOps) (nvs : Nvs S) (s : S) (c : FactoConfig)
    → Works nvs
    → read_nvs nvs factory_key s ≡ some (facto_value c)
    → Fresh ops nvs c (nvs_flash_init ops nvs (started ops (facto_reset nvs s)))
      × (read_nvs_registration_flag nvs (facto_reset nvs s) ≡ false)
facto_reset-Fresh ops nvs s c w facto = (
  start_bare ops nvs w (facto_reset nvs s) c (read-facto_reset_kept nvs w s ∙ facto)
      (λ k here. read-facto_reset nvs w k s here),
  read_nvs_registration_flag-facto_reset nvs w s,
)
