-- ===== src/Config/Loads.antt =====
-- What each load of the start (main/flash/app_config_flash.c) leaves in memory and in flash.
use water_dispenser.Base.{
  ℕ, ◌≡◌, ◌≢◌, refl, ap, ◌∙◌, Bool, true, false, ◌&&◌, not, Option, none, some, arith, Bool-cases,
  Option-cases, inl, inr,
}
use water_dispenser.Float.{FloatOps}
use water_dispenser.Nvs.{
  AppConfig, WifiConfig, FactoConfig, Key, factory_key, app_key_configuration, app_key_wifi_config,
  app_key_motor_time, app_key_filter_time, Value, app_value, wifi_value, facto_value, number, Nvs,
  write_nvs, read_nvs, Works,
}
use water_dispenser.Nvs.Access.{read-write_self, read-write_other}
use water_dispenser.Config.{
  Flash, counted, load_facto_configuration, load_app_configuration, load_wifi_configuration,
  load_motor_time, load_filter_time, as_app, as_wifi, as_facto, as_number,
}
use water_dispenser.Config.Start.{calibrated, Settled}

as_app-some : (o : Option Value) {c : AppConfig} → as_app o ≡ some c → o ≡ some (app_value c)
as_app-some (some (app_value c)) h = ground arith
as_app-some (some (wifi_value c)) h = cc
as_app-some (some (facto_value c)) h = cc
as_app-some (some (number n)) h = cc
as_app-some none h = cc

as_wifi-some : (o : Option Value) {c : WifiConfig} → as_wifi o ≡ some c → o ≡ some (wifi_value c)
as_wifi-some (some (app_value c)) h = cc
as_wifi-some (some (wifi_value c)) h = ground arith
as_wifi-some (some (facto_value c)) h = cc
as_wifi-some (some (number n)) h = cc
as_wifi-some none h = cc

as_facto-some :
    (o : Option Value) {c : FactoConfig} → as_facto o ≡ some c → o ≡ some (facto_value c)
as_facto-some (some (app_value c)) h = cc
as_facto-some (some (wifi_value c)) h = cc
as_facto-some (some (facto_value c)) h = ground arith
as_facto-some (some (number n)) h = cc
as_facto-some none h = cc

as_number-some : (o : Option Value) {n : ℕ} → as_number o ≡ some n → o ≡ some (number n)
as_number-some (some (app_value c)) h = cc
as_number-some (some (wifi_value c)) h = cc
as_number-some (some (facto_value c)) h = cc
as_number-some (some (number n)) h = ground arith
as_number-some none h = cc

-- A load that changes one key at most.
pub record Reads {S : Type 0} (nvs : Nvs S) (k : Key) (v : Value) (s s' : S) : Type 0 where
  pub there : read_nvs nvs k s' ≡ some v
  pub others : (j : Key) → j ≢ k → read_nvs nvs j s' ≡ read_nvs nvs j s

module _ {S : Type 0} (ops : FloatOps) (nvs : Nvs S) (w : Works nvs) where
  read_already : (k : Key) {v : Value} (s : S) → read_nvs nvs k s ≡ some v → Reads nvs k v s s
  read_already k s h = record { there = h; others = λ j ne. refl }

  read_written : (k : Key) (v : Value) (s : S) → Reads nvs k v s (write_nvs nvs k v s)
  read_written k v s = record {
    there = read-write_self nvs w k v s;
    others = λ j ne. read-write_other nvs w k j v s ne;
  }

  pub record FactoLoaded (f f' : Flash S) : Type 0 where
    pub same : f' ≡ record f { facto = f'.facto; store = f'.store }
    pub reads : Reads nvs factory_key (facto_value f'.facto) f.store f'.store

  pub load_facto-Loaded : (f : Flash S) → FactoLoaded f (load_facto_configuration ops nvs f)
  unfolding load_facto_configuration
  load_facto-Loaded f = elim (Option-cases (as_facto (read_nvs nvs factory_key f.store))) [
    | inl missing ↦
        rw missing
          (record { same = refl; reads = read_written factory_key (facto_value f.facto) f.store })
    | inr (c, found) ↦ rw found (record {
      same = refl;
      reads =
          read_already factory_key f.store (as_facto-some (read_nvs nvs factory_key f.store) found);
    })
  ]

  pub record WifiLoaded (f f' : Flash S) : Type 0 where
    pub same : f' ≡ record f { wifi = f'.wifi; store = f'.store }
    pub reads : Reads nvs app_key_wifi_config (wifi_value f'.wifi) f.store f'.store

  pub load_wifi-Loaded : (f : Flash S) → WifiLoaded f (load_wifi_configuration ops nvs f)
  unfolding load_wifi_configuration
  load_wifi-Loaded f = elim (Option-cases (as_wifi (read_nvs nvs app_key_wifi_config f.store))) [
    | inl missing ↦ rw missing (record {
      same = refl;
      reads = read_written app_key_wifi_config (wifi_value f.wifi) f.store;
    })
    | inr (c, found) ↦ rw found (record {
      same = refl;
      reads =
          read_already app_key_wifi_config f.store
            (as_wifi-some (read_nvs nvs app_key_wifi_config f.store) found);
    })
  ]

  pub record MotorLoaded (f f' : Flash S) : Type 0 where
    pub time : ℕ
    pub same : f' ≡ record f { motor = counted time f.motor; store = f'.store }
    pub reads : Reads nvs app_key_motor_time (number time) f.store f'.store

  pub load_motor-Loaded : (f : Flash S) → MotorLoaded f (load_motor_time ops nvs f)
  unfolding load_motor_time
  load_motor-Loaded f = elim (Option-cases (as_number (read_nvs nvs app_key_motor_time f.store))) [
    | inl missing ↦ rw missing (record {
      time = f.motor.save_time;
      same = refl;
      reads = read_written app_key_motor_time (number f.motor.save_time) f.store;
    })
    | inr (n, found) ↦ rw found (record {
      time = n;
      same = refl;
      reads =
          read_already app_key_motor_time f.store
            (as_number-some (read_nvs nvs app_key_motor_time f.store) found);
    })
  ]

  pub record FilterLoaded (f f' : Flash S) : Type 0 where
    pub time : ℕ
    pub same : f' ≡ record f { filter = counted time f.filter; store = f'.store }
    pub reads : Reads nvs app_key_filter_time (number time) f.store f'.store

  pub load_filter-Loaded : (f : Flash S) → FilterLoaded f (load_filter_time ops nvs f)
  unfolding load_filter_time
  load_filter-Loaded f =
      elim (Option-cases (as_number (read_nvs nvs app_key_filter_time f.store))) [
        | inl missing ↦ rw missing (record {
          time = f.filter.save_time;
          same = refl;
          reads = read_written app_key_filter_time (number f.filter.save_time) f.store;
        })
        | inr (n, found) ↦ rw found (record {
          time = n;
          same = refl;
          reads =
              read_already app_key_filter_time f.store
                (as_number-some (read_nvs nvs app_key_filter_time f.store) found);
        })
      ]

  -- The settings as they are in flash, and the factory settings that go with them.
  pub record AppLoaded (f f' : Flash S) : Type 0 where
    pub settings : AppConfig
    pub same :
        f' ≡ record f { app = calibrated settings f'.facto; facto = f'.facto; store = f'.store }
    pub app_there : read_nvs nvs app_key_configuration f'.store ≡ some (app_value settings)
    pub facto_there : read_nvs nvs factory_key f'.store ≡ some (facto_value f'.facto)
    pub settled : Settled ops settings f'.facto

  and_not : (b c : Bool) → c ≡ true → (b && not c) ≡ false
  and_not b c h = ground arith

  never : (b : Bool) → (b && not b) ≡ false
  never b = ground arith

  abbrev moves : AppConfig → FactoConfig → Bool
  moves a c = ops.eq c.hx1_scale (ops.of_u32 1000) && not (ops.eq a.hx1_scale (ops.of_u32 1000))

  abbrev taken : AppConfig → FactoConfig → FactoConfig
  taken a c = record c { case_raw_data = a.case_raw_data; hx1_scale = a.hx1_scale }

  pub load_app-Loaded :
      (f : Flash S)
      → f.app.hx1_scale ≡ ops.of_u32 1000
      → ops.eq (ops.of_u32 1000) (ops.of_u32 1000) ≡ true
      → read_nvs nvs factory_key f.store ≡ some (facto_value f.facto)
      → AppLoaded f (load_app_configuration ops nvs f)
  unfolding load_app_configuration
  load_app-Loaded f plain same_eq facto_known =
      elim (Option-cases (as_app (read_nvs nvs app_key_configuration f.store))) [
        | inl missing ↦ rw missing (record {
          settings = f.app;
          same = refl;
          app_there = read-write_self nvs w app_key_configuration (app_value f.app) f.store;
          facto_there =
              read-write_other nvs w app_key_configuration factory_key (app_value f.app) f.store
                (cc)
              ∙ facto_known;
          settled =
              and_not (ops.eq f.facto.hx1_scale (ops.of_u32 1000))
                (ops.eq f.app.hx1_scale (ops.of_u32 1000))
                (ap (λ x. ops.eq x (ops.of_u32 1000)) plain ∙ same_eq);
        })
        | inr (c, found) ↦ rw found (
            let there = as_app-some (read_nvs nvs app_key_configuration f.store) found in
            elim (Bool-cases (moves c f.facto)) [
              | inl moved ↦ rw moved (record {
                settings = c;
                same = refl;
                app_there =
                    read-write_other nvs w factory_key app_key_configuration
                      (facto_value (taken c f.facto)) f.store (cc)
                    ∙ there;
                facto_there =
                    read-write_self nvs w factory_key (facto_value (taken c f.facto)) f.store;
                settled = never (ops.eq c.hx1_scale (ops.of_u32 1000));
              })
              | inr stays ↦ rw stays (record {
                settings = c;
                same = refl;
                app_there = there;
                facto_there = facto_known;
                settled = stays;
              })
            ])
      ]
