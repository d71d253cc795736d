-- ===== src/Mqtt/Lifetime.antt =====
-- The remaining life and the water level that the health message tells (main/mqtt/tx_mqtt.c).
use native.Mathlib.Nat.{div-le_of_le-mul, div-mul-le_self, lt-div-mul-add}
use native.Mathlib.Decide.{dec_lt}
use water_dispenser.Base.{
  ℕ, ◌+◌, ◌-◌, ◌*◌, ◌/◌, ◌%◌, ◌≤◌, ◌<◌, ◌≡◌, refl, true, false, arith, ltb, leb, u32,
}
use water_dispenser.Base.Register.{has}
use water_dispenser.Board.{Board}
use water_dispenser.Mqtt.{remaining, seconds_in_days, Vitals, health_data}

-- A percentage of a life of `total` seconds of which `used` are over: while there is some left it is
-- the share that is left, rounded down.
pub data Share (total used pct : ℕ) : Type 0 where
  left :
      used < total
      → pct * total ≤ (total - used) * 100
      → (total - used) * 100 < pct * total + total
      → pct ≤ 100
      → Share total used pct
  worn : total ≤ used → pct ≡ 100 → Share total used pct

remaining-left :
    (total used pct : ℕ)
    → used < total
    → total * 100 < 4294967296
    → remaining total used pct ≡ (total - used) * 100 / total
unfolding remaining
remaining-left total used pct some_left small =
    let q : (total - used) * 100 / total ≤ 100 =
      div-le_of_le-mul total {m = (total - used) * 100} {n = 100} (omega arith) in
    let word : (total - used) * 100 % 4294967296 ≡ (total - used) * 100 = omega arith in
    let live : ltb 0 total ≡ true = ground arith in
    let fresh : leb total used ≡ false = ground arith in rw (live, fresh, word) (omega arith)

remaining-worn : (total used pct : ℕ) → 0 < total → total ≤ used → remaining total used pct ≡ 100
unfolding remaining
remaining-worn total used pct some_life over = ground arith

remaining-Share :
    (total used pct : ℕ)
    → 0 < total
    → total * 100 < 4294967296
    → Share total used (remaining total used pct)
remaining-Share total used pct some_life small = elim (dec_lt used total) [
  | yes h ↦ rw (remaining-left total used pct h small) (
      left h (div-mul-le_self ((total - used) * 100) total)
        (lt-div-mul-add {a = (total - used) * 100} {b = total} some_life)
        (div-le_of_le-mul total {m = (total - used) * 100} {n = 100} (omega arith)))
  | no h ↦ worn (omega arith) (remaining-worn total used pct some_life (omega arith))
]

-- What the health message tells of the two filters and of the water.
pub record Lifetimes (life motor_time filter_time water debris level : ℕ) : Type 0 where
  pub water_share : Share life motor_time water
  pub debris_share : Share life filter_time debris
  pub always_full : level ≡ 0

-- For a motor life of 1 to 497 days the health message tells for both filters, by the time of the
-- motor and by the time of the filter, which share of the motor's life is left, rounded down, and 100
-- again once that life is over; the water level it tells is 0 (enough), whatever the board's faults.
pub health_data-Lifetimes :
    (v : Vitals) (days mode motor_time filter_time : ℕ) (b : Board)
    → 0 < days
    → days ≤ 497
    → Lifetimes
        (days * seconds_in_days)
        motor_time
        filter_time
        (health_data v days mode motor_time filter_time b).water_filter_life_pct
        (health_data v days mode motor_time filter_time b).debris_filter_life_pct
        (health_data v days mode motor_time filter_time b).water_level
unfolding health_data has
health_data-Lifetimes v days mode motor_time filter_time b some_days few =
    let life : u32 (days * seconds_in_days) ≡ days * seconds_in_days = omega arith in
    let total = days * seconds_in_days in
    record {
      water_share = rw life (remaining-Share total motor_time 0 (omega arith) (omega arith));
      debris_share = rw life (
          remaining-Share total filter_time (remaining total motor_time 0) (omega arith)
            (omega arith));
      always_full = refl;
    }
