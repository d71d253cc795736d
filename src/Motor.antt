-- ===== src/Motor.antt =====
-- The pump motor behind the digital potentiometer TPL0401 (main/gpio/app_moter.c, compiled with
-- MOTOR_I2C_MODE): wiper 100 stops the motor, and a lower wiper is a higher speed. An `int` is
-- kept as its bit pattern. init_motor_ledc is taken to have made the semaphore.
pub mod Boost
pub mod Empty
pub mod Usage
pub mod Pwm
use water_dispenser.Base.{
  ℕ, zero, suc, ◌+◌, ◌-◌, Bool, true, false, ◌&&◌, not, List, [], ◌∷◌, sub_u32, lt_i32, le_i32, ltb,
  ◌==◌, if◌then◌else◌,
}

pub record Motor : Type 0 where
  pub target : ℕ  -- current_target_percentage
  pub wiper : List ℕ  -- the bytes sent to the wiper register, the latest first
  pub signal : Bool  -- motor_semaphore, a binary semaphore
  pub has_memory : Bool  -- whether i2c_cmd_link_create() gives a link

-- The argument of `TPL0401_SetValue` is an `int`, limited to the wiper's range.
abbrev pub wiper_value : ℕ → ℕ
wiper_value value = if lt_i32 value 0 then 0 else if lt_i32 127 value then 127 else value

unfoldable pub tpl0401_set_value : ℕ → Motor → Motor
tpl0401_set_value value m =
    if m.has_memory then record m { wiper = wiper_value value ∷ m.wiper } else m

-- The target of a call is turned round: 100 percent of speed is wiper 0.
unfoldable pub start_motor_with_boost : ℕ → Motor → Motor
unfolding tpl0401_set_value
start_motor_with_boost target_percentage m =
    let target = sub_u32 100 target_percentage in
    if le_i32 100 target && not (m.target == target)
    then tpl0401_set_value target (record m { target = target })
    else if target == m.target
    then m
    else record m { target = target; signal = true }

-- `TPL0401_init`, after the bus is configured and scanned.
unfoldable pub tpl0401_init : Motor → Motor
unfolding tpl0401_set_value
tpl0401_init m = tpl0401_set_value 100 (record m { target = 100 })
