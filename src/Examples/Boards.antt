-- ===== src/Examples/Boards.antt =====
-- Examples of the LED register and of the fault code.
use water_dispenser.Base.{◌^◌, ◌≡◌, [], ◌∷◌, arith}
use water_dispenser.Examples.{calm_board}
use water_dispenser.Board.{led_bit_status}
use water_dispenser.Board.Flags.{enable, disable, calls, lit_all, flags, calls_refine}

calls_refine_example :
    led_bit_status (2 ^ 11) (calls (enable 11 ∷ enable 12 ∷ disable 11 ∷ []) calm_board)
    ≡ lit_all (enable 11 ∷ enable 12 ∷ disable 11 ∷ []) (flags calm_board) 11
calls_refine_example =
    calls_refine (enable 11 ∷ enable 12 ∷ disable 11 ∷ []) calm_board (omega arith)
      (omega arith, (omega arith, (omega arith, tt))) 11 (omega arith)
