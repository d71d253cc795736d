-- ===== src/Board.antt =====
-- What the tasks share: the LED status register (main/gpio/app_led.c), the water fault code
-- (main/mqtt/tx_mqtt.c), and the messages that were handed to `mqtt_queue_send`
-- (main/provisioning/aws_iot_task.c), which copies a packet into a FreeRTOS queue.
pub mod Flags
pub mod Report
pub mod Sound
use water_dispenser.Base.{
  ℕ, ◌+◌, ◌^◌, Bool, true, false, ◌||◌, not, List, [], ◌∷◌, ◌==◌, if◌then◌else◌,
}
use water_dispenser.Base.Register.{has, set_bits, clear_bits}
use water_dispenser.Float.{Float}

-- `DRINK_Packet_t`.
pub record DrinkPacket : Type 0 where
  pub start_weight : Float
  pub end_weight : Float
  pub total_intake_ml : Float
  pub duration_sec : ℕ

-- `ACCESS_Packet_t`; `start_weight` is an `int`, kept as its bit pattern.
pub record AccessPacket : Type 0 where
  pub detect_flag : ℕ
  pub start_weight : ℕ

-- The packets that the modelled tasks send: the command and the bytes behind the `data` pointer.
pub data Message : Type 0 where
  message_access : AccessPacket → Message
  message_drink : DrinkPacket → Message
  message_diagnostics : ℕ → Message
  message_test : ℕ → Message

pub record Board : Type 0 where
  pub led_status : ℕ  -- led_status_resister, uint16_t
  pub fault_code : ℕ  -- water_fault_code, uint16_t
  pub fault_code_buf : ℕ  -- water_fault_code_buf, uint16_t
  pub outbox : List Message  -- the latest message first

unfoldable pub mqtt_queue_send : Message → Board → Board
mqtt_queue_send m b = record b { outbox = m ∷ b.outbox }

-- The LED status register.
abbrev pub pairing_bit : ℕ
pairing_bit = 2 ^ 15

abbrev pub ota_start_bit : ℕ
ota_start_bit = 2 ^ 14

abbrev pub hardware_err_bit : ℕ
hardware_err_bit = 2 ^ 13

abbrev pub tof_detect_bit : ℕ
tof_detect_bit = 2 ^ 12

abbrev pub water_low_bit : ℕ
water_low_bit = 2 ^ 11

abbrev pub water_empty_bit : ℕ
water_empty_bit = 2 ^ 10

abbrev pub loadcell_err_bit : ℕ
loadcell_err_bit = 2 ^ 9

abbrev pub filter_water_bit : ℕ
filter_water_bit = 2 ^ 8

abbrev pub filter_debris_bit : ℕ
filter_debris_bit = 2 ^ 7

abbrev pub pump_err_bit : ℕ
pump_err_bit = 2 ^ 6

unfoldable pub led_bit_status : ℕ → Board → Bool
led_bit_status status b = if has b.led_status status then true else false

unfoldable pub led_bit_enable : ℕ → Board → Board
led_bit_enable enable b =
    if not (has b.led_status enable)
    then record b { led_status = set_bits b.led_status enable }
    else b

unfoldable pub led_bit_disable : ℕ → Board → Board
led_bit_disable disable b =
    if has b.led_status disable
    then record b { led_status = clear_bits b.led_status disable }
    else b

unfoldable pub tof_enable : Board → Bool
tof_enable b = has b.led_status tof_detect_bit

unfoldable pub ota_enable : Board → Bool
ota_enable b = has b.led_status ota_start_bit

unfoldable pub hardware_error_enable : Board → Bool
hardware_error_enable b = has b.led_status hardware_err_bit

unfoldable pub pairing_enable : Board → Bool
pairing_enable b = has b.led_status pairing_bit

unfoldable pub water_low_enable : Board → Bool
water_low_enable b = has b.led_status water_low_bit

unfoldable pub water_empty_enable : Board → Bool
water_empty_enable b = has b.led_status water_empty_bit

unfoldable pub loadcell_error_enable : Board → Bool
loadcell_error_enable b = has b.led_status loadcell_err_bit

unfoldable pub filter_water_enable : Board → Bool
filter_water_enable b = has b.led_status filter_water_bit

unfoldable pub filter_debris_enable : Board → Bool
filter_debris_enable b = has b.led_status filter_debris_bit

unfoldable pub pump_error_enable : Board → Bool
pump_error_enable b = has b.led_status pump_err_bit

-- The fault code; each flag is `1 << k`.
abbrev pub water_low_fault : ℕ
water_low_fault = 2 ^ 0

abbrev pub water_empty_fault : ℕ
water_empty_fault = 2 ^ 1

abbrev pub water_bowl_detached_fault : ℕ
water_bowl_detached_fault = 2 ^ 2

abbrev pub water_loadcell_err : ℕ
water_loadcell_err = 2 ^ 3

abbrev pub water_splashing_fault : ℕ
water_splashing_fault = 2 ^ 4

abbrev pub water_pump_err : ℕ
water_pump_err = 2 ^ 5

abbrev pub water_filter_water_ex : ℕ
water_filter_water_ex = 2 ^ 9

abbrev pub water_filter_debris_ex : ℕ
water_filter_debris_ex = 2 ^ 10

-- `if(water_fault_code != water_fault_code_buf)`: remember the new code and report the flag.
unfoldable pub report : ℕ → Board → Board
unfolding mqtt_queue_send
report status b =
    if not (b.fault_code == b.fault_code_buf)
    then mqtt_queue_send (message_diagnostics status) (record b { fault_code_buf = b.fault_code })
    else b

unfoldable pub water_fault_enable : ℕ → Board → Board
unfolding report
water_fault_enable status b = report status (record b { fault_code = set_bits b.fault_code status })

unfoldable pub water_fault_disable : ℕ → Board → Board
unfolding report
water_fault_disable status b =
    report status (record b { fault_code = clear_bits b.fault_code status })
