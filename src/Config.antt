-- ===== src/Config.antt =====
-- The configuration (main/flash/app_config_flash.c): the settings and the times of use in memory, the
-- flags that ask for a save, the loads at the start, the round of `flash_task` every 100 ms, and the
-- callback of its timer every 10 minutes. What a save reads back it only logs.
pub mod Saved
pub mod Start
pub mod Reboot
pub mod Loads
pub mod Again
pub mod Loss
pub mod Reset
use water_dispenser.Base.{
  ℕ, ◌+◌, Bool, true, false, ◌&&◌, not, Option, none, some, List, [], ◌∷◌, u32, ◌==◌, if◌then◌else◌,
  replicate,
}
use water_dispenser.Float.{Float, FloatOps}
use water_dispenser.Nvs.{
  AppConfig, WifiConfig, FactoConfig, Key, factory_key, app_key_configuration, app_key_wifi_config,
  app_key_motor_time, app_key_filter_time, Value, app_value, wifi_value, facto_value, number, Nvs,
  write_nvs, read_nvs,
}

-- A time of use with its copy of the last 10 minutes and its flag.
pub record Counter : Type 0 where
  pub save_time : ℕ
  pub save_time_buf : ℕ
  pub save_flag : Bool

pub record Flash (S : Type 0) : Type 0 where
  pub app : AppConfig
  pub wifi : WifiConfig
  pub facto : FactoConfig
  pub app_save_flag : Bool
  pub wifi_save_flag : Bool
  pub facto_save_flag : Bool
  pub motor : Counter
  pub filter : Counter
  pub store : S

-- The values that the variables have when the device starts; `1000.0f` is the float of 1000, and
-- "dev" fills the front of its 16 bytes.
abbrev pub default_app : FloatOps → AppConfig
default_app ops = record {
  op_mode = 0;
  pump_clean_duration = 180;
  filter_life_days = 30;
  moter_life_days = 60;
  min_weight_threshold = 800;
  splash_delta_g = 100;
  gate_way_rssi_th = 4294967211;
  hx1_scale = ops.of_u32 1000;
  hx1_offset = 0;
  case_raw_data = 0;
  tof_sense_threshold_l = 50;
  tof_sense_threshold_r = 50;
  motion_data_time = 60;
  effective_dwell_time = 5;
  env_mode = 100 ∷ 101 ∷ 118 ∷ replicate 13 0;
  mqtt_url = replicate 128 0;
}

abbrev pub default_wifi : WifiConfig
default_wifi = record { conn_ssid = replicate 32 0; conn_password = replicate 64 0 }

abbrev pub default_facto : FloatOps → FactoConfig
default_facto ops = record {
  hx1_scale = ops.of_u32 1000;
  case_raw_data = 0;
  device_serial = replicate 64 0;
}

abbrev pub new_counter : Counter
new_counter = record { save_time = 0; save_time_buf = 0; save_flag = false }

abbrev pub started : {S : Type 0} → FloatOps → S → Flash S
started ops s = record {
  app = default_app ops;
  wifi = default_wifi;
  facto = default_facto ops;
  app_save_flag = false;
  wifi_save_flag = false;
  facto_save_flag = false;
  motor = new_counter;
  filter = new_counter;
  store = s;
}

abbrev pub as_app : Option Value → Option AppConfig
as_app (some (app_value c)) = some c
as_app other = none

abbrev pub as_wifi : Option Value → Option WifiConfig
as_wifi (some (wifi_value c)) = some c
as_wifi other = none

abbrev pub as_facto : Option Value → Option FactoConfig
as_facto (some (facto_value c)) = some c
as_facto other = none

abbrev pub as_number : Option Value → Option ℕ
as_number (some (number n)) = some n
as_number other = none

abbrev pub counted : ℕ → Counter → Counter
counted n c = record c { save_time = n; save_time_buf = n }

-- A time that has changed in the last 10 minutes is to be saved.
abbrev pub note : Counter → Counter
note c =
    if not (c.save_time_buf == c.save_time)
    then record c { save_time_buf = c.save_time; save_flag = true }
    else c

module _ {S : Type 0} (ops : FloatOps) (nvs : Nvs S) where
  abbrev pub save_app_configuration : Flash S → Flash S
  save_app_configuration f = record f {
    store = write_nvs nvs app_key_configuration (app_value f.app) f.store;
  }

  abbrev pub save_wifi_configuration : Flash S → Flash S
  save_wifi_configuration f = record f {
    store = write_nvs nvs app_key_wifi_config (wifi_value f.wifi) f.store;
  }

  abbrev pub save_facto_configuration : Flash S → Flash S
  save_facto_configuration f = record f {
    store = write_nvs nvs factory_key (facto_value f.facto) f.store;
  }

  abbrev pub save_motor_time : Flash S → Flash S
  save_motor_time f = record f {
    store = write_nvs nvs app_key_motor_time (number f.motor.save_time) f.store;
  }

  abbrev pub save_filter_time : Flash S → Flash S
  save_filter_time f = record f {
    store = write_nvs nvs app_key_filter_time (number f.filter.save_time) f.store;
  }

  -- What is read takes the place of the default, and a value that is missing is written.
  abbrev pub loaded_facto : Option FactoConfig → Flash S → Flash S
  loaded_facto none f = save_facto_configuration f
  loaded_facto (some c) f = record f { facto = c }

  unfoldable pub load_facto_configuration : Flash S → Flash S
  load_facto_configuration f = loaded_facto (as_facto (read_nvs nvs factory_key f.store)) f

  -- The scale of a settings structure from before the factory settings moves there.
  abbrev pub migrate : Flash S → Flash S
  migrate f =
      if ops.eq f.facto.hx1_scale (ops.of_u32 1000)
        && not (ops.eq f.app.hx1_scale (ops.of_u32 1000))
      then save_facto_configuration (record f {
        facto = record f.facto { case_raw_data = f.app.case_raw_data; hx1_scale = f.app.hx1_scale };
      })
      else f

  abbrev pub calibrate : Flash S → Flash S
  calibrate f = record f {
    app = record f.app { case_raw_data = f.facto.case_raw_data; hx1_scale = f.facto.hx1_scale };
  }

  abbrev pub loaded_app : Option AppConfig → Flash S → Flash S
  loaded_app none f = calibrate (save_app_configuration f)
  loaded_app (some c) f = calibrate (migrate (record f { app = c }))

  unfoldable pub load_app_configuration : Flash S → Flash S
  load_app_configuration f = loaded_app (as_app (read_nvs nvs app_key_configuration f.store)) f

  abbrev pub loaded_wifi : Option WifiConfig → Flash S → Flash S
  loaded_wifi none f = save_wifi_configuration f
  loaded_wifi (some c) f = record f { wifi = c }

  unfoldable pub load_wifi_configuration : Flash S → Flash S
  load_wifi_configuration f = loaded_wifi (as_wifi (read_nvs nvs app_key_wifi_config f.store)) f

  abbrev pub loaded_motor : Option ℕ → Flash S → Flash S
  loaded_motor none f = record (save_motor_time f) { motor = counted f.motor.save_time f.motor }
  loaded_motor (some n) f = record f { motor = counted n f.motor }

  unfoldable pub load_motor_time : Flash S → Flash S
  load_motor_time f = loaded_motor (as_number (read_nvs nvs app_key_motor_time f.store)) f

  abbrev pub loaded_filter : Option ℕ → Flash S → Flash S
  loaded_filter none f = record (save_filter_time f) {
    filter = counted f.filter.save_time f.filter;
  }
  loaded_filter (some n) f = record f { filter = counted n f.filter }

  unfoldable pub load_filter_time : Flash S → Flash S
  load_filter_time f = loaded_filter (as_number (read_nvs nvs app_key_filter_time f.store)) f

  -- The task that it creates finds no flag set before the loads are over.
  unfoldable pub nvs_flash_init : Flash S → Flash S
  unfolding load_facto_configuration load_app_configuration load_wifi_configuration load_motor_time
      load_filter_time
  nvs_flash_init f = load_filter_time (
      load_motor_time
        (load_wifi_configuration (load_app_configuration (load_facto_configuration f))))

  -- A round of `flash_task`.
  abbrev pub save_app : Flash S → Flash S
  save_app f =
      if f.app_save_flag then save_app_configuration (record f { app_save_flag = false }) else f

  abbrev pub save_wifi : Flash S → Flash S
  save_wifi f =
      if f.wifi_save_flag then save_wifi_configuration (record f { wifi_save_flag = false }) else f

  abbrev pub save_facto : Flash S → Flash S
  save_facto f =
      if f.facto_save_flag
      then save_facto_configuration (record f { facto_save_flag = false })
      else f

  abbrev pub save_motor : Flash S → Flash S
  save_motor f =
      if f.motor.save_flag
      then save_motor_time (record f { motor = record f.motor { save_flag = false } })
      else f

  abbrev pub save_filter : Flash S → Flash S
  save_filter f =
      if f.filter.save_flag
      then save_filter_time (record f { filter = record f.filter { save_flag = false } })
      else f

  unfoldable pub flash_task : Flash S → Flash S
  flash_task f = save_filter (save_motor (save_facto (save_wifi (save_app f))))

  unfoldable pub minute10_timer_callback : Flash S → Flash S
  minute10_timer_callback f = record f { motor = note f.motor; filter = note f.filter }
