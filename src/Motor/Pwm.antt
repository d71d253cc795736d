-- ===== src/Motor/Pwm.antt =====
-- The pulses of the pump's other driver, the RMT channel (set_motor_speed_percent of
-- main/gpio/app_moter.c), which the command line calls.
use water_dispenser.Base.{
  ℕ, ◌+◌, ◌-◌, ◌*◌, ◌/◌, ◌^◌, ◌≤◌, ◌<◌, ◌≡◌, Bool, List, [], ◌∷◌, arith, lt_i32, ltb, ◌==◌,
  if◌then◌else◌, min,
}

-- `rmt_symbol_word_t`: a level and its ticks, and the next ones.
pub record Symbol : Type 0 where
  pub level0 : ℕ
  pub duration0 : ℕ
  pub level1 : ℕ
  pub duration1 : ℕ

pub record Pwm : Type 0 where
  pub symbols : List Symbol  -- what rmt_transmit sends over and over
  pub counting : Bool  -- Motor_used_timer is active

abbrev pub clamp_percentage : ℕ → ℕ
clamp_percentage percentage =
    let low = if lt_i32 percentage 0 then 0 else percentage in if lt_i32 100 low then 100 else low

abbrev pub symbol : ℕ → Symbol
symbol percentage =
    let total_ticks : ℕ = 1000 in
    let high_ticks = total_ticks * percentage / 100 in
    if percentage == 100
    then record { level0 = 1; duration0 = total_ticks / 2; level1 = 1; duration1 = total_ticks / 2 }
    else if percentage == 0
    then record { level0 = 0; duration0 = total_ticks / 2; level1 = 0; duration1 = total_ticks / 2 }
    else record {
      level0 = 1;
      duration0 = high_ticks;
      level1 = 0;
      duration1 = total_ticks - high_ticks;
    }

unfoldable pub set_motor_speed_percent : ℕ → Pwm → Pwm
set_motor_speed_percent percentage p =
    let clamped = clamp_percentage percentage in
    let sym = symbol clamped in
    record { symbols = sym ∷ sym ∷ sym ∷ sym ∷ []; counting = ltb 0 clamped }

-- The ticks at the high level, and all ticks, of the symbols.
abbrev pub high_time : List Symbol → ℕ
high_time [] = 0
high_time (s ∷ ss) = s.level0 * s.duration0 + s.level1 * s.duration1 + high_time ss

abbrev pub whole_time : List Symbol → ℕ
whole_time [] = 0
whole_time (s ∷ ss) = s.duration0 + s.duration1 + whole_time ss

symbol-duty :
    (p : ℕ) → p ≤ 100 → (whole_time (symbol p ∷ []) ≡ 1000) × (high_time (symbol p ∷ []) ≡ 10 * p)
symbol-duty p h = ground arith

-- For any `int`, four symbols of 1000 ticks each are sent, with the level high for the percentage
-- of them exactly, between 0 and 100; and the wear of the parts is counted exactly while the
-- percentage is above 0.
pub set_motor_speed_percent-duty :
    (percentage : ℕ) (p : Pwm)
    → percentage < 2 ^ 32
    → let q = set_motor_speed_percent percentage p in
      (whole_time q.symbols ≡ 4000)
      × (high_time q.symbols ≡ 40 * (if lt_i32 percentage 0 then 0 else min 100 percentage))
      × (q.counting ≡ ltb 0 (if lt_i32 percentage 0 then 0 else percentage))
unfolding set_motor_speed_percent
set_motor_speed_percent-duty percentage p h =
    let d = symbol-duty (clamp_percentage percentage) (ground arith) in
    (omega (arith, d.0, d.1), ground (arith, d.0, d.1), ground arith)
