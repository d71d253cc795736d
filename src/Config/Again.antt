-- ===== src/Config/Again.antt =====
-- A second start finds what the first one left (main/flash/app_config_flash.c).
use water_dispenser.Base.{ℕ, ◌≡◌, true}
use water_dispenser.Float.{FloatOps}
use water_dispenser.Nvs.{AppConfig, WifiConfig, FactoConfig, Nvs, Works}
use water_dispenser.Config.{
  Flash, started, load_facto_configuration, load_app_configuration, load_wifi_configuration,
  load_motor_time, load_filter_time,
}
use water_dispenser.Config.Start.{Settled, Holds, running}

-- What a start leaves, whatever was in flash.
record Started {S : Type 0} (ops : FloatOps) (nvs : Nvs S) (f : Flash S) : Type 0 where
  a : AppConfig
  i : WifiConfig
  c : FactoConfig
  m : ℕ
  n : ℕ
  state : f ≡ running a i c m n f.store
  flash : Holds nvs f.store a i c m n
  settled : Settled ops a c

module _ {S : Type 0} (ops : FloatOps) (nvs : Nvs S) (w : Works nvs)
    (same_eq : ops.eq (ops.of_u32 1000) (ops.of_u32 1000) ≡ true) (s : S) where
  abbrev f1 : Flash S
  f1 = load_facto_configuration ops nvs (started ops s)

  abbrev f2 : Flash S
  f2 = load_app_configuration ops nvs f1

  abbrev f3 : Flash S
  f3 = load_wifi_configuration ops nvs f2

  abbrev f4 : Flash S
  f4 = load_motor_time ops nvs f3

  abbrev f5 : Flash S
  f5 = load_filter_time ops nvs f4
