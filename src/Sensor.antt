-- ===== src/Sensor.antt =====
-- The infrared sensor of the drinking place (main/sensor/app_TOF.c) and its flag of the LED register
-- (`app_tof_sensor_poll_100ms` of main/gpio/app_led.c). Millivolts and counts are not negative.
pub mod Detect
use water_dispenser.Base.{
  ℕ, ◌+◌, ◌-◌, ◌*◌, ◌/◌, ◌^◌, Bool, true, false, ◌||◌, not, ltb, leb, ◌==◌, if◌then◌else◌,
}
use water_dispenser.Base.Register.{has, set_bits}
use Prim.Native.Nat.{bit_and}
use water_dispenser.Float.{Float, FloatOps}
use water_dispenser.Board.{
  Board, AccessPacket, message_access, message_test, mqtt_queue_send, tof_detect_bit,
  led_bit_enable, led_bit_disable,
}
use water_dispenser.Tracker.{Tracker}
use water_dispenser.Tracker.Enter.{get_tracker_id_active}

pub record Sensor : Type 0 where
  pub ir_count : ℕ
  pub animal_detect : ℕ  -- an int; bit 0: seen by the sensor, bit 1: a tracker is near
  pub tof_get_buf : ℕ
  pub board : Board

-- `detect_object`, for one side: the light with the emitter on less the light without it, less 4
-- for each 50 of the latter, and not below 0.
unfoldable pub side_value : (off on : ℕ) → ℕ
side_value off on = on - off - off / 50 * 4

-- `x & ~(1 << k)` of an int.
abbrev pub drop_bit : ℕ → ℕ → ℕ
drop_bit x k = bit_and x (4294967295 - 2 ^ k)

abbrev pub is_seen : (left right threshold_l threshold_r : ℕ) → Bool
is_seen left right threshold_l threshold_r = ltb threshold_l left || ltb threshold_r right

-- The count that smooths the sensor.
unfoldable pub next_ir_count : Bool → ℕ → ℕ
next_ir_count seen count =
    if seen
    then (if ltb count 10 then count + 1 else count)
    else (if not (count == 0) then count - 1 else count)

-- A tracker that comes near is reported at once.
unfoldable pub detect_tracker : FloatOps → Float → Bool → Sensor → Sensor
unfolding mqtt_queue_send
detect_tracker ops weight near s =
    if near
    then (if not (has s.animal_detect 2)
        then (let detect = set_bits s.animal_detect 2 in
            record s {
              animal_detect = detect;
              board =
                  mqtt_queue_send
                    (message_access
                      (record { detect_flag = detect; start_weight = ops.to_i32 weight }))
                    s.board;
            })
        else s)
    else record s { animal_detect = drop_bit s.animal_detect 1 }

unfoldable pub detect_task : FloatOps → Float → Bool → Tracker → Sensor → Sensor
unfolding detect_tracker next_ir_count
detect_task ops weight seen t s =
    let count = next_ir_count seen s.ir_count in
    let d = detect_tracker ops weight (get_tracker_id_active t) (record s { ir_count = count }) in
    record d {
      animal_detect =
          if leb 5 count then set_bits d.animal_detect 1 else drop_bit d.animal_detect 0;
    }

-- `VL53L0X_Detect`.
unfoldable pub vl53l0x_detect : Sensor → ℕ
vl53l0x_detect s = s.animal_detect

-- The part of `app_tof_sensor_poll_100ms` that follows the sensor.
unfoldable pub app_tof_sensor_poll : Sensor → Sensor
unfolding vl53l0x_detect mqtt_queue_send
app_tof_sensor_poll s =
    let get = vl53l0x_detect s in
    let told =
      if not (s.tof_get_buf == get)
      then record s { tof_get_buf = get; board = mqtt_queue_send (message_test get) s.board }
      else s in
    record told {
      board =
          if not (get == 0)
          then led_bit_enable tof_detect_bit told.board
          else led_bit_disable tof_detect_bit told.board;
    }
