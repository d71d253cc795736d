-- ===== src/Examples/Weights.antt =====
-- Examples of the load cell, at one count per gram, with low water below 200 g.
use water_dispenser.Base.{ℕ, ◌≡◌, refl, [], ◌∷◌, arith, some}
use water_dispenser.Examples.{whole_numbers, calm_board}
use water_dispenser.Base.Bits.{bit}
use water_dispenser.Loadcell.{ScaleConfig, Loadcell, hx711_sensing}
use water_dispenser.Loadcell.Weighed.{IsLoadcell}
use water_dispenser.Loadcell.Streak.{hx711_sensings, hx711_sensings-Drops}

abbrev config : ScaleConfig
config = record { case_raw_data = 0; hx1_scale = 1; min_weight_threshold = 200 }

abbrev cell : Loadcell
cell = record {
  hx711_data_buf = 500;
  before_weight = 500;
  bowl_count = 0;
  water_low_count = 0;
  water_increase_data = 500;
  water_increase_count = 0;
  board = calm_board;
}

cell-IsLoadcell : IsLoadcell cell
cell-IsLoadcell = record {
  bowl_capped = omega arith;
  low_capped = omega arith;
  sound = record {
    reported = record { synced = refl; word = omega arith };
    register = omega arith;
  };
  bowl_shown = refl;
  low_shown = refl;
}

-- The pattern of -100.
abbrev gone : ℕ
gone = 4294967196

-- The quotient of the examples is one of patterns, which by 1 is right for negative numbers too.
hx711_sensings-Drops_example :
    (bit 13
        (hx711_sensing whole_numbers config (some gone) (
          hx711_sensings whole_numbers config
            (gone ∷ gone ∷ gone ∷ gone ∷ gone ∷ gone ∷ gone ∷ gone ∷ gone ∷ [])
            cell)).board.led_status
      ≡ 1)
    × (bit 2
          (hx711_sensing whole_numbers config (some gone) (
            hx711_sensings whole_numbers config
              (gone ∷ gone ∷ gone ∷ gone ∷ gone ∷ gone ∷ gone ∷ gone ∷ gone ∷ [])
              cell)).board.fault_code
        ≡ 1)
    × IsLoadcell (
        hx711_sensing whole_numbers config (some gone) (
          hx711_sensings whole_numbers config
            (gone ∷ gone ∷ gone ∷ gone ∷ gone ∷ gone ∷ gone ∷ gone ∷ gone ∷ [])
            cell))
hx711_sensings-Drops_example =
    hx711_sensings-Drops whole_numbers config
      (gone ∷ gone ∷ gone ∷ gone ∷ gone ∷ gone ∷ gone ∷ gone ∷ gone ∷ []) gone cell cell-IsLoadcell
      (refl, (refl, (refl, (refl, (refl, (refl, (refl, (refl, (refl, tt))))))))) refl (omega arith)
