-- ===== src/Config/Saved.antt =====
-- What a round of flash_task (main/flash/app_config_flash.c) leaves in flash.
use water_dispenser.Base.{◌≡◌, ◌≢◌, refl, ap, ◌∙◌, Bool, true, false, some, arith, if◌then◌else◌}
use water_dispenser.Float.{FloatOps}
use water_dispenser.Nvs.{
  Key, factory_key, app_key_configuration, app_key_wifi_config, app_key_motor_time,
  app_key_filter_time, Value, app_value, wifi_value, facto_value, number, Nvs, write_nvs, read_nvs,
  Works,
}
use water_dispenser.Nvs.Access.{read-write_self, read-write_other}
use water_dispenser.Config.{
  Flash, save_app, save_wifi, save_facto, save_motor, save_filter, flash_task,
}

module _ {S : Type 0} (nvs : Nvs S) where
  -- A write under a flag.
  abbrev pub cond_write : Bool → Key → Value → S → S
  cond_write b k v s = if b then write_nvs nvs k v s else s

  module _ (w : Works nvs) where
    pub read-cond_write :
        (b : Bool) (k : Key) (v : Value) (s : S)
        → read_nvs nvs k (cond_write b k v s) ≡ (if b then some v else read_nvs nvs k s)
    read-cond_write true k v s = read-write_self nvs w k v s
    read-cond_write false k v s = refl

    pub read-cond_write_other :
        (b : Bool) (k j : Key) (v : Value) (s : S)
        → j ≢ k
        → read_nvs nvs j (cond_write b k v s) ≡ read_nvs nvs j s
    read-cond_write_other true k j v s ne = read-write_other nvs w k j v s ne
    read-cond_write_other false k j v s ne = refl

module _ {S : Type 0} (ops : FloatOps) (nvs : Nvs S) (f : Flash S) where
  save_app_lem : save_app ops nvs f ≡ record f {
    app_save_flag = false;
    store = cond_write nvs f.app_save_flag app_key_configuration (app_value f.app) f.store;
  }
  save_app_lem = ground arith

  save_wifi_lem : save_wifi ops nvs f ≡ record f {
    wifi_save_flag = false;
    store = cond_write nvs f.wifi_save_flag app_key_wifi_config (wifi_value f.wifi) f.store;
  }
  save_wifi_lem = ground arith

  save_facto_lem : save_facto ops nvs f ≡ record f {
    facto_save_flag = false;
    store = cond_write nvs f.facto_save_flag factory_key (facto_value f.facto) f.store;
  }
  save_facto_lem = ground arith

  save_motor_lem : save_motor ops nvs f ≡ record f {
    motor = record f.motor { save_flag = false };
    store = cond_write nvs f.motor.save_flag app_key_motor_time (number f.motor.save_time) f.store;
  }
  save_motor_lem = ground arith

  save_filter_lem : save_filter ops nvs f ≡ record f {
    filter = record f.filter { save_flag = false };
    store =
        cond_write nvs f.filter.save_flag app_key_filter_time (number f.filter.save_time) f.store;
  }
  save_filter_lem = ground arith

  -- The store behind the five writes.
  abbrev s1 : S
  s1 = cond_write nvs f.app_save_flag app_key_configuration (app_value f.app) f.store

  abbrev s2 : S
  s2 = cond_write nvs f.wifi_save_flag app_key_wifi_config (wifi_value f.wifi) s1

  abbrev s3 : S
  s3 = cond_write nvs f.facto_save_flag factory_key (facto_value f.facto) s2

  abbrev s4 : S
  s4 = cond_write nvs f.motor.save_flag app_key_motor_time (number f.motor.save_time) s3

  abbrev s5 : S
  s5 = cond_write nvs f.filter.save_flag app_key_filter_time (number f.filter.save_time) s4

  abbrev saved_state : Flash S
  saved_state = record {
    app = f.app;
    wifi = f.wifi;
    facto = f.facto;
    app_save_flag = false;
    wifi_save_flag = false;
    facto_save_flag = false;
    motor = record f.motor { save_flag = false };
    filter = record f.filter { save_flag = false };
    store = s5;
  }

flash_task_lem :
    {S : Type 0} (ops : FloatOps) (nvs : Nvs S) (f : Flash S)
    → flash_task ops nvs f ≡ saved_state ops nvs f
unfolding flash_task
flash_task_lem ops nvs f = rw (
  save_app_lem ops nvs f,
  save_wifi_lem ops nvs,
  save_facto_lem ops nvs,
  save_motor_lem ops nvs,
  save_filter_lem ops nvs,
)

-- What is in flash after the round, key by key.
pub record Saved {S : Type 0} (nvs : Nvs S) (f f' : Flash S) : Type 0 where
  pub app : read_nvs nvs app_key_configuration f'.store ≡ (
      if f.app_save_flag
      then some (app_value f.app)
      else read_nvs nvs app_key_configuration f.store)
  pub wifi : read_nvs nvs app_key_wifi_config f'.store ≡ (
      if f.wifi_save_flag
      then some (wifi_value f.wifi)
      else read_nvs nvs app_key_wifi_config f.store)
  pub facto :
      read_nvs nvs factory_key f'.store
      ≡ (if f.facto_save_flag then some (facto_value f.facto) else read_nvs nvs factory_key f.store)
  pub motor : read_nvs nvs app_key_motor_time f'.store ≡ (
      if f.motor.save_flag
      then some (number f.motor.save_time)
      else read_nvs nvs app_key_motor_time f.store)
  pub filter : read_nvs nvs app_key_filter_time f'.store ≡ (
      if f.filter.save_flag
      then some (number f.filter.save_time)
      else read_nvs nvs app_key_filter_time f.store)
  pub memory : f' ≡ record f {
    app_save_flag = false;
    wifi_save_flag = false;
    facto_save_flag = false;
    motor = record f.motor { save_flag = false };
    filter = record f.filter { save_flag = false };
    store = f'.store;
  }

module _ {S : Type 0} (ops : FloatOps) (nvs : Nvs S) (w : Works nvs) (f : Flash S) where
  past_filter :
      (j : Key)
      → j ≢ app_key_filter_time
      → read_nvs nvs j (s5 ops nvs f) ≡ read_nvs nvs j (s4 ops nvs f)
  past_filter j ne =
      read-cond_write_other nvs w f.filter.save_flag app_key_filter_time j
        (number f.filter.save_time) (s4 ops nvs f) ne

  past_motor :
      (j : Key)
      → j ≢ app_key_motor_time
      → read_nvs nvs j (s4 ops nvs f) ≡ read_nvs nvs j (s3 ops nvs f)
  past_motor j ne =
      read-cond_write_other nvs w f.motor.save_flag app_key_motor_time j (number f.motor.save_time)
        (s3 ops nvs f) ne

  past_facto :
      (j : Key) → j ≢ factory_key → read_nvs nvs j (s3 ops nvs f) ≡ read_nvs nvs j (s2 ops nvs f)
  past_facto j ne =
      read-cond_write_other nvs w f.facto_save_flag factory_key j (facto_value f.facto)
        (s2 ops nvs f) ne

  past_wifi :
      (j : Key)
      → j ≢ app_key_wifi_config
      → read_nvs nvs j (s2 ops nvs f) ≡ read_nvs nvs j (s1 ops nvs f)
  past_wifi j ne =
      read-cond_write_other nvs w f.wifi_save_flag app_key_wifi_config j (wifi_value f.wifi)
        (s1 ops nvs f) ne

  past_app :
      (j : Key) → j ≢ app_key_configuration → read_nvs nvs j (s1 ops nvs f) ≡ read_nvs nvs j f.store
  past_app j ne =
      read-cond_write_other nvs w f.app_save_flag app_key_configuration j (app_value f.app) f.store
        ne

  written : Saved nvs f (flash_task ops nvs f)
  written = rw (flash_task_lem ops nvs f) (record {
    app =
        past_filter app_key_configuration (cc)
        ∙ past_motor app_key_configuration (cc)
        ∙ past_facto app_key_configuration (cc)
        ∙ past_wifi app_key_configuration (cc)
        ∙ read-cond_write nvs w f.app_save_flag app_key_configuration (app_value f.app) f.store;
    wifi =
        past_filter app_key_wifi_config (cc)
        ∙ past_motor app_key_wifi_config (cc)
        ∙ past_facto app_key_wifi_config (cc)
        ∙ read-cond_write nvs w f.wifi_save_flag app_key_wifi_config (wifi_value f.wifi)
            (s1 ops nvs f)
        ∙ ap (λ r. if f.wifi_save_flag then some (wifi_value f.wifi) else r)
            (past_app app_key_wifi_config (cc));
    facto =
        past_filter factory_key (cc)
        ∙ past_motor factory_key (cc)
        ∙ read-cond_write nvs w f.facto_save_flag factory_key (facto_value f.facto) (s2 ops nvs f)
        ∙ ap (λ r. if f.facto_save_flag then some (facto_value f.facto) else r)
            (past_wifi factory_key (cc) ∙ past_app factory_key (cc));
    motor =
        past_filter app_key_motor_time (cc)
        ∙ read-cond_write nvs w f.motor.save_flag app_key_motor_time (number f.motor.save_time)
            (s3 ops nvs f)
        ∙ ap (λ r. if f.motor.save_flag then some (number f.motor.save_time) else r)
            (past_facto app_key_motor_time (cc)
              ∙ past_wifi app_key_motor_time (cc)
              ∙ past_app app_key_motor_time (cc));
    filter =
        read-cond_write nvs w f.filter.save_flag app_key_filter_time (number f.filter.save_time)
          (s4 ops nvs f)
        ∙ ap (λ r. if f.filter.save_flag then some (number f.filter.save_time) else r)
            (past_motor app_key_filter_time (cc)
              ∙ past_facto app_key_filter_time (cc)
              ∙ past_wifi app_key_filter_time (cc)
              ∙ past_app app_key_filter_time (cc));
    memory = refl;
  })

-- A round of flash_task writes what was asked for, leaves the rest of the flash as it was, and takes
-- every request back; it changes nothing else in memory. The flash is sound.
pub flash_task-Saved :
    {S : Type 0} (ops : FloatOps) (nvs : Nvs S) (f : Flash S)
    → Works nvs
    → Saved nvs f (flash_task ops nvs f)
flash_task-Saved ops nvs f w = written ops nvs w f
