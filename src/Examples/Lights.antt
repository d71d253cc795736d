-- ===== src/Examples/Lights.antt =====
-- Examples of the LEDs.
use water_dispenser.Base.{[]}
use water_dispenser.Examples.{calm_board}
use water_dispenser.Board.{Board}
use water_dispenser.Led.{dark, no_breathing, Led}

abbrev strip : Led
strip = record {
  breathing = no_breathing;
  hold_count = 0;
  colour_buf = dark;
  frames = [];
  led_brightness_value = 255;
  status_buf = 0;
  last_op_mode = 0;
  wifi_conn_enable = 0;
}

-- Water is low.
abbrev low_board : Board
low_board = record calm_board { led_status = 2048 }
