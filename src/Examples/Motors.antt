-- ===== src/Examples/Motors.antt =====
-- Examples of the pump.
use water_dispenser.Base.{ℕ, false}
use water_dispenser.Examples.{calm_board, stopped_motor}
use water_dispenser.Motor.Boost.{Reading, Readings, Boost}
use water_dispenser.Motor.Empty.{Tank}
use water_dispenser.Motor.Usage.{Part, Usage}

abbrev running : ℕ → Reading
running i = record { adc = 200; check = 0; again = 0 }

abbrev quiet : Readings
quiet = record {
  start = 30;
  in_search = running;
  in_hold = running;
  in_up = running;
  in_down = running;
  in_last = running;
}

abbrev known : Boost
known = record { motor = stopped_motor; min_value = 60 }

abbrev tank : Tank
tank = record { empty_count = 0; board = calm_board }

abbrev fresh_part : Part
fresh_part = record { used_time = 86399; send_flag = false; save_flag = false }

abbrev usage : Usage
usage = record { motor = fresh_part; filter = fresh_part; board = calm_board }
