-- ===== src/Config/Reboot.antt =====
-- The settings survive a restart (main/flash/app_config_flash.c).
use water_dispenser.Base.{◌≡◌, refl, ◌∙◌, Bool, true, false, Option, some, if◌then◌else◌}
use water_dispenser.Float.{FloatOps}
use water_dispenser.Nvs.{
  factory_key, app_key_configuration, app_key_wifi_config, app_key_motor_time, app_key_filter_time,
  app_value, wifi_value, facto_value, number, Nvs, read_nvs, Works,
}
use water_dispenser.Config.{Flash, started, nvs_flash_init, flash_task}
use water_dispenser.Config.Saved.{flash_task-Saved}
use water_dispenser.Config.Start.{Settled, Holds, running, start-Holds}

-- A change is asked to be saved or is in flash already.
pub record Requested {S : Type 0} (nvs : Nvs S) (f : Flash S) : Type 0 where
  pub app :
      f.app_save_flag ≡ false → read_nvs nvs app_key_configuration f.store ≡ some (app_value f.app)
  pub wifi :
      f.wifi_save_flag ≡ false → read_nvs nvs app_key_wifi_config f.store ≡ some (wifi_value f.wifi)
  pub facto :
      f.facto_save_flag ≡ false → read_nvs nvs factory_key f.store ≡ some (facto_value f.facto)
  pub motor :
      f.motor.save_flag ≡ false
      → read_nvs nvs app_key_motor_time f.store ≡ some (number f.motor.save_time)
  pub filter :
      f.filter.save_flag ≡ false
      → read_nvs nvs app_key_filter_time f.store ≡ some (number f.filter.save_time)

either_way :
    {A : Type 0} (b : Bool) (v : A) (r : Option A)
    → (b ≡ false → r ≡ some v)
    → (if b then some v else r) ≡ some v
either_way true v r h = refl
either_way false v r h = h refl

flash_task-Holds :
    {S : Type 0} (ops : FloatOps) (nvs : Nvs S) (f : Flash S)
    → Works nvs
    → Requested nvs f
    → Holds nvs
        (flash_task ops nvs f).store
        f.app
        f.wifi
        f.facto
        f.motor.save_time
        f.filter.save_time
flash_task-Holds ops nvs f w r =
    let s = flash_task-Saved ops nvs f w in
    record {
      app = s.app ∙ either_way f.app_save_flag _ _ r.app;
      wifi = s.wifi ∙ either_way f.wifi_save_flag _ _ r.wifi;
      facto = s.facto ∙ either_way f.facto_save_flag _ _ r.facto;
      motor = s.motor ∙ either_way f.motor.save_flag _ _ r.motor;
      filter = s.filter ∙ either_way f.filter.save_flag _ _ r.filter;
    }

-- What was asked to be saved, or was in flash already, is there again after a round of flash_task and
-- a restart: the settings with the calibration of the factory settings, the Wi-Fi and factory
-- settings, and both times of use. The flash is sound, and the settings have no scale of their own
-- beside factory settings without one.
pub nvs_flash_init-flash_task :
    {S : Type 0} (ops : FloatOps) (nvs : Nvs S) (f : Flash S)
    → Works nvs
    → Requested nvs f
    → Settled ops f.app f.facto
    → nvs_flash_init ops nvs (started ops (flash_task ops nvs f).store)
      ≡ running f.app f.wifi f.facto f.motor.save_time f.filter.save_time
          (flash_task ops nvs f).store
nvs_flash_init-flash_task ops nvs f w r settled =
    start-Holds ops nvs (flash_task ops nvs f).store f.app f.wifi f.facto f.motor.save_time
      f.filter.save_time (flash_task-Holds ops nvs f w r) settled
