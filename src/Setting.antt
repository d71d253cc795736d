-- ===== src/Setting.antt =====
-- The setting commands (main/setting_cmd.c) on the bytes of a packet, and the calibration of the load
-- cell that they ask for (HX711_task of main/sensor/app_HX711.c). Calls are logged, the latest first.
pub mod Packet
pub mod Values
pub mod Replies
pub mod Calibration
use water_dispenser.Base.{
  ℕ, zero, suc, ◌+◌, ◌*◌, ◌/◌, ◌%◌, ◌^◌, Bool, true, false, not, Option, none, some, List, [], ◌∷◌,
  u8, u16, sub_u32, leb, ◌==◌, if◌then◌else◌, set, get_elem?, take,
}
use water_dispenser.Float.{Float, FloatOps}
use water_dispenser.Nvs.{AppConfig, FactoConfig}

-- `Setting_cmd_e`.
abbrev pub hx711_case_cal : ℕ
hx711_case_cal = 0

abbrev pub hx711_scale_cal : ℕ
hx711_scale_cal = 1

abbrev pub hx711_get_value : ℕ
hx711_get_value = 2

abbrev pub ir_get_value : ℕ
ir_get_value = 3

abbrev pub led_set_value : ℕ
led_set_value = 4

abbrev pub motor_set_value : ℕ
motor_set_value = 5

abbrev pub ir_set_value : ℕ
ir_set_value = 6

abbrev pub beacon_get_value : ℕ
beacon_get_value = 7

abbrev pub beacon_set_value : ℕ
beacon_set_value = 8

abbrev pub setting_response : ℕ
setting_response = 243

-- A byte of a packet, which has 20.
abbrev pub byte_or : Option ℕ → ℕ
byte_or none = 0
byte_or (some b) = b

abbrev pub byte_at : List ℕ → ℕ → ℕ
byte_at packet i = byte_or (get_elem? packet i)

-- Fields of `Motion_Packet_t`, without padding and with the low byte first.
abbrev pub set_u16 : List ℕ → ℕ → ℕ → List ℕ
set_u16 packet i v = set (set packet i (v % 256)) (i + 1) (v / 256 % 256)

abbrev pub set_u32 : List ℕ → ℕ → ℕ → List ℕ
set_u32 packet i v = set_u16 (set_u16 packet i v) (i + 2) (v / 65536)

abbrev pub u16_at : List ℕ → ℕ → ℕ
u16_at packet i = byte_at packet i + 256 * byte_at packet (i + 1)

-- `int8_t` to `int32_t`, by their patterns.
abbrev pub i8_to_i32 : ℕ → ℕ
i8_to_i32 b = if leb 128 b then b + 4294967040 else b

pub data Call : Type 0 where
  ble_send_data_to_queue : (packet : List ℕ) → Call
  set_rgb_led_for_number : (index r g b w : ℕ) → Call
  tpl0401_set_value : ℕ → Call

pub record Setting : Type 0 where
  pub packet_buf : List ℕ  -- Motion_Packet_buf
  pub app : AppConfig
  pub facto : FactoConfig
  pub app_save_flag : Bool
  pub facto_save_flag : Bool
  pub hx711_cal_enable : ℕ
  pub led_debug : Bool  -- `led` of the debug register
  pub calls : List Call

-- What the getters return: loadcell_data_get, GetMotor_adc, GetIR_LEFT, GetIR_RIGHT.
pub record Sensors : Type 0 where
  pub weight : Float
  pub motor_adc : ℕ
  pub ir_left : ℕ
  pub ir_right : ℕ

abbrev pub log : Call → Setting → Setting
log c s = record s { calls = c ∷ s.calls }

abbrev pub send : Setting → Setting
send s = log (ble_send_data_to_queue s.packet_buf) s

-- `event_code` and `cmd_type` of the answer.
abbrev pub headed : List ℕ → ℕ → List ℕ
headed packet cmd = set (set packet 0 setting_response) 1 cmd

abbrev pub answer : ℕ → Setting → Setting
answer cmd s = record s { packet_buf = headed s.packet_buf cmd }

-- The bytes of IR_getvalue.
abbrev pub ir_bytes : Sensors → AppConfig → List ℕ → List ℕ
ir_bytes x c packet =
    set_u16
      (set_u16 (set_u16 (set_u16 (set_u16 packet 2 x.motor_adc) 4 x.ir_left) 6 x.ir_right) 8
        c.tof_sense_threshold_l)
      10 c.tof_sense_threshold_r

-- Rounds `i` to 7 of the loop over the bits.
unfoldable pub light_bits : (rounds i : ℕ) → List ℕ → Setting → Setting
light_bits zero i p s = s
light_bits (suc rounds) i p s = light_bits rounds (i + 1) p (
    if (byte_at p 2 / 2 ^ i) % 2 == 1
    then log (set_rgb_led_for_number i (byte_at p 3) (byte_at p 4) (byte_at p 5) (byte_at p 6)) s
    else s)

-- The cases of the switch; the packet is in the buffer already.
unfoldable pub setting_case : FloatOps → Sensors → ℕ → List ℕ → Setting → Setting
setting_case ops x cmd p s =
    if cmd == hx711_case_cal
    then record s { hx711_cal_enable = if not (byte_at p 2 == 0) then 1 else 0 }
    else if cmd == hx711_scale_cal
    then record s { hx711_cal_enable = u16_at p 2 }
    else if cmd == hx711_get_value
    then send (record s {
      packet_buf =
          set_u32 (headed s.packet_buf cmd) 2 (ops.to_u32 (ops.mul x.weight (ops.of_i32 100)));
    })
    else if cmd == ir_get_value
    then send (record s { packet_buf = ir_bytes x s.app (headed s.packet_buf cmd) })
    else if cmd == led_set_value
    then send (light_bits 8 0 p (record (answer cmd s) { led_debug = true }))
    else if cmd == motor_set_value
    then send (log (tpl0401_set_value (byte_at p 2)) (answer cmd s))
    else if cmd == ir_set_value
    then send (record (answer cmd s) {
      app = record s.app {
        tof_sense_threshold_l = byte_at p 2;
        tof_sense_threshold_r = byte_at p 3;
      };
    })
    else if cmd == beacon_get_value
    then send
        (record s { packet_buf = set (headed s.packet_buf cmd) 2 (u8 s.app.gate_way_rssi_th) })
    else if cmd == beacon_set_value
    then send (record (answer cmd s) {
      app = record s.app { gate_way_rssi_th = i8_to_i32 (byte_at p 2) };
    })
    else s

unfoldable pub setting_callback : FloatOps → Sensors → List ℕ → Setting → Setting
setting_callback ops x packet s =
    setting_case ops x (byte_at packet 1) packet (record s { packet_buf = take 20 packet })

unfoldable pub setting_callbacks : FloatOps → List (Sensors × List ℕ) → Setting → Setting
unfolding setting_callback
setting_callbacks ops [] s = s
setting_callbacks ops ((x, p) ∷ ps) s = setting_callbacks ops ps (setting_callback ops x p s)

-- `Setting_Enable`: the answer is made of a copy of the buffer.
unfoldable pub setting_enable : ℕ → Setting → Setting
setting_enable cmd s = log (ble_send_data_to_queue (headed s.packet_buf cmd)) s

-- hx711_calibrate_scale: the new scale, where the average is read and differs from that of the case.
abbrev pub calibrate_scale : FloatOps → Option ℕ → Float → ℕ → Float → Float
calibrate_scale ops none weight case_raw old = old
calibrate_scale ops (some raw) weight case_raw old =
    let net_raw = sub_u32 raw case_raw in
    if net_raw == 0 then old else ops.div (ops.of_i32 net_raw) weight

abbrev pub save_both : Setting → Setting
save_both s = record s { app_save_flag = true; facto_save_flag = true }

-- The result of hx711_calibrate_scale is not read.
unfoldable pub hx711_scale_process : FloatOps → Option ℕ → Float → Setting → Setting
unfolding setting_enable
hx711_scale_process ops average weight s =
    let scale = calibrate_scale ops average weight s.app.case_raw_data s.app.hx1_scale in
    setting_enable hx711_scale_cal (
      save_both (record s {
        app = record s.app { hx1_scale = scale };
        facto = record s.facto { hx1_scale = scale };
      }))

-- `cal_data` is the first average that is read without an error.
unfoldable pub hx711_case_raw_process : ℕ → Setting → Setting
unfolding setting_enable
hx711_case_raw_process cal_data s = setting_enable hx711_case_cal (
    save_both (record s {
      app = record s.app { case_raw_data = cal_data };
      facto = record s.facto { case_raw_data = cal_data };
    }))

-- The calibration of a round of HX711_task; where none is asked for the round is HX711_Sensing.
-- `arriving` are the packets that come while the load cell is read.
unfoldable pub calibrate :
    FloatOps
    → (average : Option ℕ) → (cal_data : ℕ) → (arriving : List (Sensors × List ℕ)) → Setting
    → Setting
unfolding setting_callbacks hx711_scale_process hx711_case_raw_process
calibrate ops average cal_data arriving s =
    let later = setting_callbacks ops arriving s in
    if s.hx711_cal_enable == 0
    then s
    else if s.hx711_cal_enable == 1
    then record (hx711_case_raw_process cal_data later) { hx711_cal_enable = 0 }
    else record (hx711_scale_process ops average (ops.of_u32 s.hx711_cal_enable) later) {
      hx711_cal_enable = 0;
    }
