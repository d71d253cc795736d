-- ===== src/Led/Breathe.antt =====
-- One step of the breathing (`Breathing_LED` of main/gpio/app_led.c).
use water_dispenser.Base.{
  ℕ, ◌+◌, ◌-◌, ◌≤◌, ◌<◌, ◌≡◌, Bool, false, arith, ltb, leb, ◌==◌, if◌then◌else◌, min, max,
}
use water_dispenser.Led.{Breathing, next_breath}

-- The bounds are bytes in order, the brightness lies between them, and the step is not -128.
pub record IsBreathing (s : Breathing) : Type 0 where
  pub ordered : s.min_brightness ≤ s.max_brightness
  pub byte : s.max_brightness ≤ 255
  pub low : s.min_brightness ≤ s.brightness
  pub high : s.brightness ≤ s.max_brightness
  pub step_up : (0 < s.step) × (s.step < 256)
  pub step_down : (s.step == 128) ≡ false

-- The next brightness and step: up by the step to the maximum, or down by it to the minimum.
abbrev pub breath_step : Breathing → ℕ
breath_step s =
    if ltb s.step 128
    then min s.max_brightness (s.brightness + s.step)
    else max s.min_brightness (s.brightness - (256 - s.step))

abbrev pub breath_turns : Breathing → Bool
breath_turns s =
    if ltb s.step 128
    then leb s.max_brightness (s.brightness + s.step)
    else leb (s.brightness - (256 - s.step)) s.min_brightness

pub record Breath (s t : Breathing) (turned : Bool) : Type 0 where
  pub ok : IsBreathing t
  pub brightness : t.brightness ≡ breath_step s
  pub step : t.step ≡ (if breath_turns s then 256 - s.step else s.step)
  pub turn : turned ≡ breath_turns s

module _ (s : Breathing) (v : IsBreathing s) where
  breath_fields :
      ((next_breath s).0.brightness ≡ breath_step s)
      × ((next_breath s).0.step ≡ (if breath_turns s then 256 - s.step else s.step))
      × ((next_breath s).1 ≡ breath_turns s)
      × ((next_breath s).0.min_brightness ≡ s.min_brightness)
      × ((next_breath s).0.max_brightness ≡ s.max_brightness)
  unfolding next_breath
  breath_fields = ground (arith, v.ordered, v.byte, v.low, v.high, v.step_up, v.step_down)

-- A step of the breathing goes up by the step and stops at the maximum, or goes down by it and
-- stops at the minimum; it turns round exactly where it stops, and then waits. The brightness
-- stays between its bounds, also where the sum is a negative int.
pub next_breath-Breath :
    (s : Breathing) → IsBreathing s → Breath s (next_breath s).0 (next_breath s).1
next_breath-Breath s v =
    let f = breath_fields s v in
    record {
      ok = record {
        ordered = omega (arith, f.3, f.4, v.ordered);
        byte = omega (arith, f.4, v.byte);
        low = ground (arith, f.0, f.3, v.ordered, v.low, v.high);
        high = ground (arith, f.0, f.4, v.ordered, v.low, v.high);
        step_up = ground (arith, f.1, v.step_up);
        step_down = ground (arith, f.1, v.step_up, v.step_down);
      };
      brightness = f.0;
      step = f.1;
      turn = f.2;
    }
