-- ===== src/Mqtt.antt =====
-- The data of the diagnostics and health messages (main/mqtt/tx_mqtt.c), which Get_cJSON_Data builds
-- when the server's task takes a message from the queue. A JSON object is a record of its fields;
-- the numbers that are read from the system (uptime, reset reason, signal strength) are given.
pub mod Diagnosis
pub mod Lifetime
use water_dispenser.Base.{
  ℕ, ◌+◌, ◌-◌, ◌*◌, ◌/◌, ◌^◌, Bool, true, false, Option, none, some, u8, u32, ltb, leb,
  if◌then◌else◌,
}
use water_dispenser.Base.Register.{has, set_bits}
use water_dispenser.Board.{
  Board, water_low_fault, water_empty_fault, water_bowl_detached_fault, water_loadcell_err,
  water_pump_err, water_filter_water_ex, water_filter_debris_ex,
}

-- "ok", "fault" and "degraded".
pub data Status : Type 0 where
  status_ok : Status
  status_fault : Status
  status_degraded : Status

pub record Subsystems : Type 0 where
  pub water_supply : Status
  pub loadcell : Status
  pub motor_pump : Status
  pub ir : Status
  pub ble : Status
  pub uv : Status
  pub filter_water : Status
  pub filter_debris : Status

-- The tests of `water_fault_code_buf`, the same in both messages.
unfoldable pub subsystems : ℕ → Subsystems
subsystems code = record {
  water_supply =
      if has code (set_bits water_low_fault water_empty_fault) then status_fault else status_ok;
  loadcell =
      if has code (set_bits water_bowl_detached_fault water_loadcell_err)
      then status_fault
      else status_ok;
  motor_pump = if has code water_pump_err then status_fault else status_ok;
  ir = status_ok;
  ble = status_ok;
  uv = status_ok;
  filter_water = if has code water_filter_water_ex then status_degraded else status_ok;
  filter_debris = if has code water_filter_debris_ex then status_degraded else status_ok;
}

-- `alert_level`.
pub data Level : Type 0 where
  critical : Level
  normal : Level

-- `fault_code`; each stands with the one `affected_subsystem` that the code gives it.
pub data Fault : Type 0 where
  water_empty : Fault
  bowl_detached : Fault
  water_low : Fault
  pump_err : Fault
  filter_water_expired : Fault
  filter_debris_expired : Fault

-- `affected_subsystem`.
pub data Part : Type 0 where
  part_water_supply : Part
  part_loadcell : Part
  part_motor_pump : Part
  part_filter_water : Part
  part_filter_debris : Part

pub record Alert : Type 0 where
  pub alert_level : Level
  pub fault_code : Fault
  pub affected_subsystem : Part

abbrev pub alert_of : Level → Fault → Part → Alert
alert_of level fault part = record {
  alert_level = level;
  fault_code = fault;
  affected_subsystem = part;
}

-- The tests of `water_fault_code_send`, by rank; no field is added where none holds.
unfoldable pub alert : ℕ → Option Alert
alert sent =
    if has sent water_empty_fault
    then some (alert_of critical water_empty part_water_supply)
    else if has sent water_bowl_detached_fault
    then some (alert_of critical bowl_detached part_loadcell)
    else if has sent water_low_fault
    then some (alert_of normal water_low part_water_supply)
    else if has sent water_pump_err
    then some (alert_of critical pump_err part_motor_pump)
    else if has sent water_filter_water_ex
    then some (alert_of normal filter_water_expired part_filter_water)
    else if has sent water_filter_debris_ex
    then some (alert_of normal filter_debris_expired part_filter_debris)
    else none

pub record Vitals : Type 0 where
  pub uptime_sec : ℕ
  pub reset_reason : ℕ
  pub rssi_dbm : ℕ

pub record Diagnostics : Type 0 where
  pub vitals : Vitals
  pub subsystems : Subsystems
  pub alert : Option Alert

-- MESSEGE_DIAGNOSTICS with the two bytes of the message, 0 where it has none.
unfoldable pub diagnostics_data : Vitals → ℕ → Board → Diagnostics
unfolding subsystems alert
diagnostics_data vitals sent b = record {
  vitals = vitals;
  subsystems = subsystems b.fault_code_buf;
  alert = alert sent;
}

-- SECONDS_IN_DAYS.
abbrev pub seconds_in_days : ℕ
seconds_in_days = 24 * 60 * 60

-- The remaining life in percent, or what stood in `life_pct` where the life is 0.
unfoldable pub remaining : (total_life_sec used_sec life_pct : ℕ) → ℕ
remaining total_life_sec used_sec life_pct =
    if ltb 0 total_life_sec
    then (if leb total_life_sec used_sec
        then 100
        else u8 (u32 ((total_life_sec - used_sec) * 100) / total_life_sec))
    else life_pct

pub record Health : Type 0 where
  pub vitals : Vitals
  pub subsystems : Subsystems
  pub water_level : ℕ
  pub pump_status : ℕ
  pub water_filter_life_pct : ℕ
  pub debris_filter_life_pct : ℕ
  pub uv_status : ℕ
  pub current_mode : ℕ

-- `water_fault_code_send` is set for a diagnostics message only: here it is 0.
abbrev pub water_level : ℕ → ℕ
water_level sent =
    if has sent water_empty_fault then 2 else if has sent water_low_fault then 1 else 0

-- MESSEGE_HEALTH.
unfoldable pub health_data :
    Vitals → (moter_life_days op_mode motor_time filter_time : ℕ) → Board → Health
unfolding subsystems remaining
health_data vitals moter_life_days op_mode motor_time filter_time b =
    let total_life_sec = u32 (moter_life_days * seconds_in_days) in
    let water = remaining total_life_sec motor_time 0 in
    record {
      vitals = vitals;
      subsystems = subsystems b.fault_code_buf;
      water_level = water_level 0;
      pump_status = 0;
      water_filter_life_pct = water;
      debris_filter_life_pct = remaining total_life_sec filter_time water;
      uv_status = 0;
      current_mode = op_mode;
    }
