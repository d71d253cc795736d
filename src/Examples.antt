-- ===== src/Examples.antt =====
-- Runs of the model on concrete inputs. The floats of the examples are whole numbers: an `int32_t`
-- as its pattern, with the operations of the integers.
mod Sessions
mod Boards
mod Trackers
mod Motors
mod Weights
mod Clients
mod Hands
mod Lights
mod Settings
mod Networks
mod Faults
mod Apps
mod Commands
use water_dispenser.Base.{
  ℕ, ◌+◌, ◌-◌, ◌*◌, ◌/◌, true, false, lt_i32, le_i32, sub_u32, u32, ◌==◌, if◌then◌else◌, [], ◌∷◌,
}
use water_dispenser.Float.{FloatOps}
use water_dispenser.Board.{Board}
use water_dispenser.Motor.{Motor}
use water_dispenser.Smart.{Inputs, Smart, Water, smart_idle, access_mqtt_idle}
use water_dispenser.Tracker.{no_trackers}

-- Products and quotients are of small positive numbers in the examples.
abbrev whole_numbers : FloatOps
whole_numbers = record {
  add = λ a b. u32 (a + b);
  sub = sub_u32;
  div = λ a b. a / b;
  mul = λ a b. u32 (a * b);
  abs = λ a. if lt_i32 a 0 then sub_u32 0 a else a;
  lt = lt_i32;
  le = le_i32;
  eq = λ a b. a == b;
  of_u32 = λ n. n;
  of_i32 = λ n. n;
  to_u32 = λ a. a;
  to_i32 = λ a. a;
  zero = 0;
}

abbrev calm_board : Board
calm_board = record { led_status = 0; fault_code = 0; fault_code_buf = 0; outbox = [] }

abbrev stopped_motor : Motor
stopped_motor = record { target = 100; wiper = 100 ∷ []; signal = false; has_memory = true }

-- A round at a tick, with a sensor value and a weight in grams.
abbrev round : (sensor tick weight : ℕ) → Inputs
round sensor tick weight = record {
  sensor_detected = sensor;
  current_tick = tick;
  access_weight = weight;
  weight = weight;
  sent_weight = weight;
  effective_dwell_time = 5;
  splash_delta_g = 100;
}

abbrev idle_smart : Smart
idle_smart = record {
  smart_state = smart_idle;
  smart_timer_target = 0;
  start_weight = 0;
  drink_start_tick = 0;
  sensor_detected_buf = 0;
  access_packet = record { detect_flag = 0; start_weight = 0 };
  access_mqtt_state = access_mqtt_idle;
  access_timer_target = 0;
  target_sensor_val = 0;
}

abbrev idle_water : Water
idle_water = record { smart = idle_smart; board = calm_board; tracker = no_trackers }
