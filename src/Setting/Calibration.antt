-- ===== src/Setting/Calibration.antt =====
-- The calibration of the load cell (HX711_task of main/sensor/app_HX711.c) with the packets that come
-- while it reads.
use water_dispenser.Base.{ℕ, ◌≡◌, true, ◌∷◌}
use water_dispenser.Float.{Float}
use water_dispenser.Setting.{Setting, ble_send_data_to_queue, headed}

-- What the packets leave of the scale.
record SameScale (s s' : Setting) : Type 0 where
  scale : s'.app.hx1_scale ≡ s.app.hx1_scale
  case_raw : s'.app.case_raw_data ≡ s.app.case_raw_data

-- A calibration that is over: both configurations have the two values and are to be saved, one answer
-- was sent after what the packets that came meanwhile have sent, and no calibration is asked for.
pub record Calibrated (cmd : ℕ) (case_raw : ℕ) (scale : Float) (later after : Setting)
    : Type 0 where
  pub answered : after.calls ≡ ble_send_data_to_queue (headed later.packet_buf cmd) ∷ later.calls
  pub case_raw_data : after.app.case_raw_data ≡ case_raw
  pub hx1_scale : after.app.hx1_scale ≡ scale
  pub app_saved : after.app_save_flag ≡ true
  pub facto_saved : after.facto_save_flag ≡ true
  pub none_left : after.hx711_cal_enable ≡ 0
