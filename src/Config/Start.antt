-- ===== src/Config/Start.antt =====
-- What a start of the device finds (NVS_Flash_init of main/flash/app_config_flash.c).
use water_dispenser.Base.{ℕ, ◌≡◌, refl, false, ◌&&◌, not, some}
use water_dispenser.Float.{FloatOps}
use water_dispenser.Nvs.{
  AppConfig, WifiConfig, FactoConfig, factory_key, app_key_configuration, app_key_wifi_config,
  app_key_motor_time, app_key_filter_time, app_value, wifi_value, facto_value, number, Nvs,
  read_nvs,
}
use water_dispenser.Config.{Flash, started, nvs_flash_init}

-- The settings with the factory's calibration.
abbrev pub calibrated : AppConfig → FactoConfig → AppConfig
calibrated a c = record a { case_raw_data = c.case_raw_data; hx1_scale = c.hx1_scale }

-- The settings' own scale is not to move to the factory settings.
abbrev pub Settled : FloatOps → AppConfig → FactoConfig → Type 0
Settled ops a c =
    (ops.eq c.hx1_scale (ops.of_u32 1000) && not (ops.eq a.hx1_scale (ops.of_u32 1000))) ≡ false

-- The values in flash.
pub record Holds {S : Type 0} (nvs : Nvs S) (s : S) (a : AppConfig) (i : WifiConfig)
    (c : FactoConfig) (m n : ℕ) : Type 0 where
  pub app : read_nvs nvs app_key_configuration s ≡ some (app_value a)
  pub wifi : read_nvs nvs app_key_wifi_config s ≡ some (wifi_value i)
  pub facto : read_nvs nvs factory_key s ≡ some (facto_value c)
  pub motor : read_nvs nvs app_key_motor_time s ≡ some (number m)
  pub filter : read_nvs nvs app_key_filter_time s ≡ some (number n)

abbrev pub running :
    {S : Type 0} → (a : AppConfig) (i : WifiConfig) (c : FactoConfig) (m n : ℕ) → S → Flash S
running a i c m n s = record {
  app = calibrated a c;
  wifi = i;
  facto = c;
  app_save_flag = false;
  wifi_save_flag = false;
  facto_save_flag = false;
  motor = record { save_time = m; save_time_buf = m; save_flag = false };
  filter = record { save_time = n; save_time_buf = n; save_flag = false };
  store = s;
}

-- A start with all values in flash.
pub start-Holds :
    {S : Type 0} (ops : FloatOps) (nvs : Nvs S) (s : S) (a : AppConfig) (i : WifiConfig)
    (c : FactoConfig) (m n : ℕ)
    → Holds nvs s a i c m n
    → Settled ops a c
    → nvs_flash_init ops nvs (started ops s) ≡ running a i c m n s
unfolding nvs_flash_init
start-Holds ops nvs s a i c m n h settled =
    rw (h.facto, h.app, settled, h.wifi, h.motor, h.filter) refl
