-- ===== src/Motor/Boost.antt =====
-- What motor_boost_task does when it is signalled (main/gpio/app_moter.c): at the first start it
-- looks for the slowest speed at which the pump still draws current, then it ramps to that speed.
pub mod Ramp
pub mod Settle
use water_dispenser.Base.{
  ℕ, zero, suc, ◌+◌, ◌-◌, Bool, true, false, u32, sub_u32, lt_i32, le_i32, ltb, ◌==◌, if◌then◌else◌,
}
use water_dispenser.Motor.{Motor, tpl0401_set_value}

-- What the task reads in one round of a loop, after its delay: other tasks change these.
pub record Reading : Type 0 where
  pub adc : ℕ  -- GetMotor_adc()
  pub check : ℕ  -- current_target_percentage, as the test `== 100` reads it
  pub again : ℕ  -- current_target_percentage, as the call after that test reads it

-- The task's local `min_value` beside the motor.
pub record Boost : Type 0 where
  pub motor : Motor
  pub min_value : ℕ

-- The body shared by the loops: `if(current_target_percentage == 100) { SetValue; break; }`.
abbrev pub is_stop : Reading → Bool
is_stop r = r.check == 100

-- `for(;current_value<100;current_value++)`, with the rounds left and the number of the round.
unfoldable pub calibrate : (ℕ → Reading) → ℕ → ℕ → ℕ → Boost → Boost
calibrate reads zero i value b = b
calibrate reads (suc rounds) i value b =
    let m = tpl0401_set_value value b.motor in
    let rest = calibrate reads rounds (i + 1) (u32 (value + 1)) (record b { motor = m }) in
    if ltb (reads i).adc 30
    then record { motor = m; min_value = sub_u32 value 4 }
    else if is_stop (reads i)
    then record b { motor = tpl0401_set_value (reads i).again m }
    else rest

-- `for(int i = 0; i <30;i++)`: three seconds at full speed.
unfoldable pub hold : (ℕ → Reading) → ℕ → ℕ → Motor → Motor
hold reads zero i m = m
hold reads (suc rounds) i m =
    let rest = hold reads rounds (i + 1) m in
    if is_stop (reads i) then tpl0401_set_value (reads i).again m else rest

-- The rising loops, from `value` on: `for(int i = 30 ;i<min_value;i++)` and with `<=`.
unfoldable pub ramp_up : (ℕ → Reading) → ℕ → ℕ → ℕ → Motor → Motor
ramp_up reads zero i value m = m
ramp_up reads (suc rounds) i value m =
    let m' = tpl0401_set_value value m in
    let rest = ramp_up reads rounds (i + 1) (value + 1) m' in
    if is_stop (reads i) then tpl0401_set_value (reads i).again m' else rest

-- `for(int i = min_value;i>30;i--)`, which stays above 30, so `value - 1` does not wrap.
unfoldable pub ramp_down : (ℕ → Reading) → ℕ → ℕ → ℕ → Motor → Motor
ramp_down reads zero i value m = m
ramp_down reads (suc rounds) i value m =
    let m' = tpl0401_set_value value m in
    let rest = ramp_down reads rounds (i + 1) (value - 1) m' in
    if is_stop (reads i) then tpl0401_set_value (reads i).again m' else rest

-- How often the loops between 30 and `min_value` run; `min_value` may be negative.
abbrev pub rounds_above_30 : ℕ → ℕ
rounds_above_30 v = if lt_i32 30 v then v - 30 else 0

abbrev pub rounds_from_30 : ℕ → ℕ
rounds_from_30 v = if le_i32 30 v then v - 30 + 1 else 0

-- What is read during one run, loop by loop; `start` is the target at which the search begins.
pub record Readings : Type 0 where
  pub start : ℕ
  pub in_search : ℕ → Reading
  pub in_hold : ℕ → Reading
  pub in_up : ℕ → Reading
  pub in_down : ℕ → Reading
  pub in_last : ℕ → Reading

abbrev pub search_rounds : ℕ → ℕ
search_rounds start = if lt_i32 start 100 then sub_u32 100 start else 0

-- The search runs only while no speed was found.
unfoldable pub search_min : Readings → Boost → Boost
search_min r b =
    if b.min_value == 0 then calibrate r.in_search (search_rounds r.start) 0 r.start b else b

-- The rest of the run.
unfoldable pub ramp : Readings → Boost → Boost
ramp r b =
    let v = b.min_value in
    let held = hold r.in_hold 30 0 (tpl0401_set_value 0 b.motor) in
    let up = ramp_up r.in_up (rounds_above_30 v) 0 30 held in
    let down = ramp_down r.in_down (rounds_above_30 v) 0 v up in
    record b { motor = ramp_up r.in_last (rounds_from_30 v) 0 30 down }

unfoldable pub boost : Readings → Boost → Boost
boost r b = ramp r (search_min r (record b { motor = tpl0401_set_value 0 b.motor }))
