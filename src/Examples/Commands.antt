-- ===== src/Examples/Commands.antt =====
-- Examples of the setting commands.
use water_dispenser.Base.{ℕ, refl, false, List, [], ◌∷◌, arith, replicate}
use water_dispenser.Examples.{whole_numbers}
use water_dispenser.Config.{default_app, default_facto}
use water_dispenser.Setting.{Setting, Sensors, setting_callback, setting_callbacks}
use water_dispenser.Setting.Values.{Told, setting_callbacks-Told}
use water_dispenser.Setting.Replies.{Answered, setting_callback-Answered}

-- A packet of 20 bytes.
abbrev request : (cmd first second : ℕ) → List ℕ
request cmd first second = 242 ∷ cmd ∷ first ∷ second ∷ replicate 16 0

abbrev setting : Setting
setting = record {
  packet_buf = replicate 20 0;
  app = default_app whole_numbers;
  facto = default_facto whole_numbers;
  app_save_flag = false;
  facto_save_flag = false;
  hx711_cal_enable = 0;
  led_debug = false;
  calls = [];
}

abbrev sensors : Sensors
sensors = record { weight = 480; motor_adc = 300; ir_left = 70; ir_right = 90 }

setting_callbacks-Told_example :
    Told 60 80
      (setting_callbacks whole_numbers
        ((sensors, request 4 129 9) ∷ (sensors, request 2 0 0) ∷ [])
        (setting_callback whole_numbers sensors (request 6 60 80) setting))
      (setting_callback whole_numbers sensors (request 3 0 0) (
        setting_callbacks whole_numbers
          ((sensors, request 4 129 9) ∷ (sensors, request 2 0 0) ∷ [])
          (setting_callback whole_numbers sensors (request 6 60 80) setting)))
setting_callbacks-Told_example =
    setting_callbacks-Told whole_numbers sensors sensors (request 6 60 80) (request 3 0 0)
      ((sensors, request 4 129 9) ∷ (sensors, request 2 0 0) ∷ []) setting refl (omega arith)
      (omega arith) (refl, (refl, tt)) refl refl

setting_callback-Answered_example :
    Answered 4 setting (setting_callback whole_numbers sensors (request 4 129 9) setting)
setting_callback-Answered_example =
    setting_callback-Answered whole_numbers sensors (request 4 129 9) setting refl (omega arith)
      (omega arith)

abbrev asked : Setting
asked = record setting { hx711_cal_enable = 500 }
