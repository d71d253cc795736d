-- ===== src/Motor/Usage.antt =====
-- The wear of the motor and of the filter (main/gpio/app_moter.c): motor_used_timer_callback counts
-- the seconds of use, reports a part whose life is over, and asks once for the time to be saved.
pub mod Life
pub mod Alarm
use water_dispenser.Base.{
  ℕ, zero, suc, ◌+◌, ◌*◌, ◌%◌, ◌^◌, ◌≤◌, ◌<◌, ◌≡◌, refl, Bool, true, false, ◌&&◌, not, arith, u32,
  leb, if◌then◌else◌, inl, inr, Bool-cases,
}
use water_dispenser.Base.Bits.{bit}
use water_dispenser.Board.{
  Board, led_bit_enable, led_bit_disable, water_fault_enable, water_fault_disable,
  hardware_error_enable, filter_water_bit, filter_debris_bit, water_filter_water_ex,
  water_filter_debris_ex,
}
use water_dispenser.Board.Sound.{
  IsSound, Signals, led_bit_enable-IsSound, led_bit_disable-IsSound, water_fault_enable-IsSound,
  water_fault_disable-IsSound, led_bit_enable-kept, led_bit_disable-kept,
}

-- One part: its time of use, whether the end of its life was noted, and whether a save is asked for
-- (motor_save_flag and filter_save_flag of main/flash/app_config_flash.c).
pub record Part : Type 0 where
  pub used_time : ℕ
  pub send_flag : Bool
  pub save_flag : Bool

pub record Usage : Type 0 where
  pub motor : Part
  pub filter : Part
  pub board : Board

abbrev pub seconds_in_days : ℕ
seconds_in_days = 24 * 60 * 60

abbrev pub life_seconds : ℕ → ℕ
life_seconds days = u32 (days * seconds_in_days)

-- The part of `motor_change` and `filter_change` that is about the part.
abbrev renewed : Part → Part
renewed p = record { used_time = 0; send_flag = false; save_flag = true }

unfoldable pub motor_change : Usage → Usage
motor_change u = record u {
  motor = renewed u.motor;
  board = water_fault_disable water_filter_water_ex (led_bit_disable filter_water_bit u.board);
}

unfoldable pub filter_change : Usage → Usage
filter_change u = record u {
  filter = renewed u.filter;
  board = water_fault_disable water_filter_debris_ex (led_bit_disable filter_debris_bit u.board);
}

-- A second of use, and what is asked for when the life of `life` seconds is over.
unfoldable pub wear : ℕ → Part → Part
wear life p =
    let used = u32 (p.used_time + 1) in
    if leb life used && not p.send_flag
    then record { used_time = used; send_flag = true; save_flag = true }
    else record p { used_time = used }

-- The report of a part whose life is over: first the fault, then the LED.
unfoldable pub show_worn : ℕ → ℕ → ℕ → ℕ → Board → Board
show_worn fault led life used b =
    if leb life used then led_bit_enable led (water_fault_enable fault b) else b

-- The callback after its test for a hardware error.
unfoldable pub use_second : ℕ → ℕ → Usage → Usage
use_second moter_life_days filter_life_days u =
    let motor = wear (life_seconds moter_life_days) u.motor in
    let b =
      show_worn water_filter_water_ex filter_water_bit (life_seconds moter_life_days)
        motor.used_time u.board in
    let filter = wear (life_seconds filter_life_days) u.filter in
    record {
      motor = motor;
      filter = filter;
      board =
          show_worn water_filter_debris_ex filter_debris_bit (life_seconds filter_life_days)
            filter.used_time b;
    }

unfoldable pub motor_used_timer_callback : ℕ → ℕ → Usage → Usage
unfolding use_second
motor_used_timer_callback moter_life_days filter_life_days u =
    if hardware_error_enable u.board then u else use_second moter_life_days filter_life_days u
