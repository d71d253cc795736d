-- ===== src/Motor/Usage/Alarm.antt =====
-- The alarms of motor_used_timer_callback, motor_change and filter_change (main/gpio/app_moter.c).
use water_dispenser.Base.{ℕ, ◌≡◌, refl, Bool, true, arith, leb, ◌==◌, if◌then◌else◌, ◌&&◌}
use water_dispenser.Base.Bits.{bit}
use water_dispenser.Board.{Board}
use water_dispenser.Board.Sound.{IsSound, Signals, clear-Signals}
use water_dispenser.Motor.Usage.{Usage, motor_change, filter_change, wear}

-- What showing a part does to the flags of that part, and to those of any other.
record Shown (fault led : ℕ) (over : Bool) (b c : Board) : Type 0 where
  sound : IsSound c
  lit : (j : ℕ) → bit j c.led_status ≡ (if j == led && over then 1 else bit j b.led_status)
  faults : (j : ℕ) → bit j c.fault_code ≡ (if j == fault && over then 1 else bit j b.fault_code)

-- What a second of use makes of the board.
pub record Alarms (motor_life filter_life : ℕ) (u w : Usage) : Type 0 where
  pub worn_motor : w.motor ≡ wear motor_life u.motor
  pub worn_filter : w.filter ≡ wear filter_life u.filter
  pub motor_lit :
      bit 8 w.board.led_status
      ≡ (if leb motor_life w.motor.used_time then 1 else bit 8 u.board.led_status)
  pub motor_fault :
      bit 9 w.board.fault_code
      ≡ (if leb motor_life w.motor.used_time then 1 else bit 9 u.board.fault_code)
  pub filter_lit :
      bit 7 w.board.led_status
      ≡ (if leb filter_life w.filter.used_time then 1 else bit 7 u.board.led_status)
  pub filter_fault :
      bit 10 w.board.fault_code
      ≡ (if leb filter_life w.filter.used_time then 1 else bit 10 u.board.fault_code)
  pub sound : IsSound w.board

-- A part that is changed starts anew and is saved, and its alarm is off; the other is kept.
pub change_lem :
    (u : Usage)
    → IsSound u.board
    → ((motor_change u).motor.used_time ≡ 0)
      × ((motor_change u).motor.save_flag ≡ true)
      × ((motor_change u).filter ≡ u.filter)
      × Signals 8 9 0 (motor_change u).board
      × ((filter_change u).filter.used_time ≡ 0)
      × ((filter_change u).filter.save_flag ≡ true)
      × ((filter_change u).motor ≡ u.motor)
      × Signals 7 10 0 (filter_change u).board
unfolding motor_change filter_change
change_lem u v = (
  refl,
  refl,
  refl,
  clear-Signals 8 9 u.board (omega arith) (omega arith) v,
  refl,
  refl,
  refl,
  clear-Signals 7 10 u.board (omega arith) (omega arith) v,
)
