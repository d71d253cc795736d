-- ===== src/Nvs.antt =====
-- The values in flash (main/flash/app_nvs.c). ESP-IDF's NVS library is a parameter: `Nvs` holds its
-- operations on a store, and `Works` is what its documentation says of them where the flash is sound.
pub mod Access
use water_dispenser.Base.{
  ℕ, List, ◌≡◌, ◌≢◌, Bool, true, false, ◌&&◌, Option, none, some, if◌then◌else◌, ◌==◌,
}
use water_dispenser.Float.{Float}

-- `app_config_t`; `env_mode` and `mqtt_url` are bytes.
pub record AppConfig : Type 0 where
  pub op_mode : ℕ
  pub pump_clean_duration : ℕ
  pub filter_life_days : ℕ
  pub moter_life_days : ℕ
  pub min_weight_threshold : ℕ
  pub splash_delta_g : ℕ
  pub gate_way_rssi_th : ℕ
  pub hx1_scale : Float
  pub hx1_offset : ℕ
  pub case_raw_data : ℕ
  pub tof_sense_threshold_l : ℕ
  pub tof_sense_threshold_r : ℕ
  pub motion_data_time : ℕ
  pub effective_dwell_time : ℕ
  pub env_mode : List ℕ
  pub mqtt_url : List ℕ

-- `app_wifi_config_t`.
pub record WifiConfig : Type 0 where
  pub conn_ssid : List ℕ
  pub conn_password : List ℕ

-- `app_facto_config_t`.
pub record FactoConfig : Type 0 where
  pub hx1_scale : Float
  pub case_raw_data : ℕ
  pub device_serial : List ℕ

-- FACTORY_NAMESPACE and APP_NAMESPACE.
pub data Namespace : Type 0 where
  facto : Namespace
  waveon : Namespace

-- The keys of the program, each with its namespace.
pub data Key : Type 0 where
  factory_key : Key
  app_key_configuration : Key
  app_key_wifi_config : Key
  app_key_motor_time : Key
  app_key_filter_time : Key
  app_reg_key : Key

abbrev pub namespace_of : Key → Namespace
namespace_of factory_key = facto
namespace_of k = waveon

-- A stored value: a structure as a whole, or a number. A structure that is read has the size with
-- which it was written, so the test of its size passes.
pub data Value : Type 0 where
  app_value : AppConfig → Value
  wifi_value : WifiConfig → Value
  facto_value : FactoConfig → Value
  number : ℕ → Value

pub record Nvs (Store : Type 0) : Type 0 where
  pub opens_to_read : Namespace → Store → Bool  -- nvs_open with NVS_READONLY
  pub opens_to_write : Namespace → Store → Bool  -- nvs_open with NVS_READWRITE
  pub set_key : Key → Value → Store → Option Store  -- nvs_set_*, `none` for an error
  pub get_key : Key → Store → Option Value  -- nvs_get_*
  pub erase_all : Namespace → Store → Option Store  -- nvs_erase_all
  pub commit : Store → Store  -- nvs_commit

module _ {S : Type 0} (nvs : Nvs S) where
  -- An error of nvs_set_* is logged, and the commit is made all the same.
  abbrev pub set_or_keep : Option S → S → S
  set_or_keep none s = s
  set_or_keep (some s') s = s'

  -- `write_nvs_blob` and `write_nvs_uint`.
  unfoldable pub write_nvs : Key → Value → S → S
  write_nvs k v s =
      if nvs.opens_to_write (namespace_of k) s
      then nvs.commit (set_or_keep (nvs.set_key k v s) s)
      else s

  -- `read_nvs_blob` and `read_nvs_uint`: `none` is a result other than ESP_OK.
  unfoldable pub read_nvs : Key → S → Option Value
  read_nvs k s = if nvs.opens_to_read (namespace_of k) s then nvs.get_key k s else none

  -- It commits only what was set.
  abbrev flag_set : Option S → S → S
  flag_set none s = s
  flag_set (some s') s = nvs.commit s'

  unfoldable pub write_nvs_registration_flag : Bool → S → S
  write_nvs_registration_flag done s =
      if nvs.opens_to_write waveon s
      then flag_set (nvs.set_key app_reg_key (number (if done then 1 else 0)) s) s
      else s

  abbrev is_one : Option Value → Bool
  is_one (some (number n)) = n == 1
  is_one other = false

  unfoldable pub read_nvs_registration_flag : S → Bool
  unfolding read_nvs
  read_nvs_registration_flag s = is_one (read_nvs app_reg_key s)

  -- `reset_all_nvs_data` of main/flash/app_config_flash.c.
  unfoldable pub reset_all_nvs_data : S → S
  reset_all_nvs_data s =
      if nvs.opens_to_write waveon s then flag_set (nvs.erase_all waveon s) s else s

  -- `facto_set(false)`.
  unfoldable pub facto_reset : S → S
  unfolding write_nvs_registration_flag reset_all_nvs_data
  facto_reset s = reset_all_nvs_data (write_nvs_registration_flag false s)

  -- A sound flash: each namespace can be opened to write, and to read once a value of it is there;
  -- a value that is set is read until the next one, and nothing else changes.
  pub record Works : Type 0 where
    pub writable : (n : Namespace) (s : S) → nvs.opens_to_write n s ≡ true
    pub readable :
        (k : Key) (s : S) {v : Value}
        → nvs.get_key k s ≡ some v
        → nvs.opens_to_read (namespace_of k) s ≡ true
    pub sets : (k : Key) (v : Value) (s : S) → (s' : S) × (nvs.set_key k v s ≡ some s')
    pub get-set_self :
        (k : Key) (v : Value) (s : S) {s' : S}
        → nvs.set_key k v s ≡ some s'
        → nvs.get_key k s' ≡ some v
    pub get-set_other :
        (k j : Key) (v : Value) (s : S) {s' : S}
        → j ≢ k
        → nvs.set_key k v s ≡ some s'
        → nvs.get_key j s' ≡ nvs.get_key j s
    pub get-commit : (k : Key) (s : S) → nvs.get_key k (nvs.commit s) ≡ nvs.get_key k s
    pub erases : (n : Namespace) (s : S) → (s' : S) × (nvs.erase_all n s ≡ some s')
    pub get-erase_self :
        (k : Key) (s : S) {s' : S}
        → nvs.erase_all (namespace_of k) s ≡ some s'
        → nvs.get_key k s' ≡ none
    pub get-erase_other :
        (k : Key) (n : Namespace) (s : S) {s' : S}
        → namespace_of k ≢ n
        → nvs.erase_all n s ≡ some s'
        → nvs.get_key k s' ≡ nvs.get_key k s
