-- ===== src/Opmode.antt =====
-- The operation mode and its task (main/opmode_task.c): the modes, the speed that each gives the
-- pump, and the round of `Opmode_task` every 100 ms. An `int` is kept as its bit pattern.
pub mod Modes
pub mod Pump
use water_dispenser.Base.{
  ℕ, ◌+◌, Bool, true, false, Option, none, some, List, [], ◌∷◌, u32, ltb, lt_i32, ◌==◌,
  if◌then◌else◌,
}
use water_dispenser.Float.{FloatOps}
use water_dispenser.Board.{Board, ota_enable}
use water_dispenser.Motor.{Motor, start_motor_with_boost}
use water_dispenser.Smart.{Inputs, Water, smart_water}

-- `op_mode_e`.
abbrev pub op_mode_normal : ℕ
op_mode_normal = 0

abbrev pub op_mode_sleep : ℕ
op_mode_sleep = 1

abbrev pub op_mode_night : ℕ
op_mode_night = 2

abbrev pub op_mode_test : ℕ
op_mode_test = 3

-- The calls on `opmode_timer`, an esp_timer.
pub data TimerCall : Type 0 where
  timer_create : TimerCall
  timer_stop : TimerCall
  timer_start_once : ℕ → TimerCall

pub record Opmode : Type 0 where
  pub current_opmode : ℕ  -- a uint32_t
  pub motor_speed : ℕ
  pub night_mode : Bool
  pub led_brightness : ℕ  -- LED_brightness_value, set by LED_Bright_Set
  pub has_timer : Bool  -- opmode_timer is not NULL
  pub timer_calls : List TimerCall  -- the latest first
  pub op_mode : ℕ  -- app_config->op_mode

-- `set_motor_speed`, with NULL as `none`.
unfoldable pub set_motor_speed : Option ℕ → Opmode → Opmode
set_motor_speed (some speed) o =
    let low = if lt_i32 100 speed then 100 else speed in
    record o { motor_speed = if lt_i32 low 0 then 0 else low }
set_motor_speed none o =
    if o.current_opmode == op_mode_normal
    then record o { motor_speed = 100 }
    else if o.current_opmode == op_mode_sleep
    then record o { motor_speed = 0 }
    else if o.current_opmode == op_mode_night
    then record o { motor_speed = 100 }
    else o

unfoldable pub night_mode_set : Bool → Opmode → Opmode
unfolding set_motor_speed
night_mode_set state o = set_motor_speed none (
    if state
    then record o { night_mode = true; current_opmode = op_mode_night; led_brightness = 0 }
    else record o { night_mode = false; led_brightness = 255 })

unfoldable pub opmode_test_mode : Opmode → Opmode
opmode_test_mode o = record o { current_opmode = op_mode_test }

abbrev pub next_mode : ℕ → ℕ
next_mode mode =
    let next = u32 (mode + 1) in if ltb op_mode_sleep next then op_mode_normal else next

-- The timer is made by the first call and stopped by the others; each call starts it for 5 s.
abbrev pub restart_timer : Opmode → Opmode
restart_timer o = record o {
  has_timer = true;
  timer_calls =
      timer_start_once 5000000 ∷ (if o.has_timer then timer_stop else timer_create) ∷ o.timer_calls;
}

unfoldable pub opmode_set : Opmode → Opmode
unfolding set_motor_speed
opmode_set o =
    let p = set_motor_speed none (record o { current_opmode = next_mode o.current_opmode }) in
    restart_timer (record p { op_mode = p.current_opmode })

-- `opmode_task_init` reads the saved mode.
unfoldable pub opmode_task_init : Opmode → Opmode
opmode_task_init o = record o { current_opmode = o.op_mode }

pub record Station : Type 0 where
  pub opmode : Opmode
  pub water : Water
  pub motor : Motor

abbrev run_motor : ℕ → Station → Station
run_motor speed s = record s { motor = start_motor_with_boost speed s.motor }

abbrev drink : FloatOps → Inputs → Station → Station
drink ops i s = record s { water = smart_water ops i s.water }

-- The body of the loop; `debugged` is `DBG_Resister->motor`.
unfoldable pub opmode_task : FloatOps → Bool → Inputs → Station → Station
opmode_task ops debugged i s =
    let mode = s.opmode.current_opmode in
    let speed = s.opmode.motor_speed in
    if debugged
    then s
    else if ota_enable s.water.board
    then run_motor 0 s
    else if mode == op_mode_normal
    then run_motor speed (drink ops i s)
    else if mode == op_mode_night
    then run_motor speed (drink ops i s)
    else if mode == op_mode_sleep
    then run_motor speed s
    else s
