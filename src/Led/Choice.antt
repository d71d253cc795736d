-- ===== src/Led/Choice.antt =====
-- The colour that the strip shows after a call (main/gpio/app_led.c).
use water_dispenser.Base.{◌≡◌, refl, ap, ◌∙◌, true, false, arith, ◌==◌, ltb, inl, inr, Bool-cases}
use water_dispenser.Float.{FloatOps}
use water_dispenser.Led.{
  Colour, rgbw, Breathing, no_breathing, Led, same_colour, set_rgb_led, set_rgb_len_no_breathing,
  bounded, scaled_colour, next_breath, breathing_led,
}

-- The strip is sent a colour that it does not show yet, and then shows it.
pub set_rgb_led_lem :
    (c : Colour) (l : Led)
    → ((set_rgb_led c l).colour_buf ≡ c)
      × ((set_rgb_led c l).breathing ≡ l.breathing)
      × ((set_rgb_led c l).status_buf ≡ l.status_buf)
      × ((set_rgb_led c l).led_brightness_value ≡ l.led_brightness_value)
unfolding set_rgb_led
set_rgb_led_lem c l = elim (Bool-cases (same_colour l.colour_buf c)) [
  | inl e ↦ rw e (same_fields l.colour_buf c e, refl, refl, refl)
  | inr e ↦ rw e (refl, refl, refl, refl)
]
  where
    same_fields : (c d : Colour) → same_colour c d ≡ true → c ≡ d
    same_fields c d e =
        let r : c.red ≡ d.red = ground arith in
        let g : c.green ≡ d.green = ground arith in
        let b : c.blue ≡ d.blue = ground arith in
        let w : c.white ≡ d.white = ground arith in
        ap (λ x. rgbw x c.green c.blue c.white) r
        ∙ ap (λ x. rgbw d.red x c.blue c.white) g
        ∙ ap (λ x. rgbw d.red d.green x c.white) b
        ∙ ap (λ x. rgbw d.red d.green d.blue x) w

-- A plain colour ends the breathing.
pub set_rgb_len_no_breathing_lem :
    (c : Colour) (l : Led)
    → ((set_rgb_len_no_breathing c l).colour_buf ≡ c)
      × ((set_rgb_len_no_breathing c l).breathing.used ≡ 0)
      × ((set_rgb_len_no_breathing c l).status_buf ≡ l.status_buf)
unfolding set_rgb_len_no_breathing
set_rgb_len_no_breathing_lem c l = elim (Bool-cases (l.breathing.used == 0)) [
  | inl e ↦
      let k = set_rgb_led_lem c l in
      let off : l.breathing.used ≡ 0 = ground arith in rw e (k.0, ap (λ s. s.used) k.1 ∙ off, k.2)
  | inr e ↦
      let k = set_rgb_led_lem c (record l { breathing = no_breathing }) in
      rw e (k.0, ap (λ s. s.used) k.1, k.2)
]

-- Of a breathing that goes on, the target and the use are kept.
pub breathing_led_lem :
    (ops : FloatOps) (l : Led)
    → (l.breathing.used == 0) ≡ false
    → ((breathing_led ops l).colour_buf
        ≡ scaled_colour ops (bounded l.breathing) l.breathing.target)
      × ((breathing_led ops l).breathing.target ≡ l.breathing.target)
      × ((breathing_led ops l).breathing.used ≡ l.breathing.used)
      × ((breathing_led ops l).status_buf ≡ l.status_buf)
unfolding breathing_led next_breath
breathing_led_lem ops l on =
    let s : Breathing = record l.breathing { brightness = bounded l.breathing } in
    let k =
      set_rgb_led_lem (scaled_colour ops s.brightness s.target) (record l { breathing = s }) in
    elim (Bool-cases (ltb 0 l.hold_count)) [
      | inl e ↦ rw (on, e) (k.0, ap (λ s. s.target) k.1, ap (λ s. s.used) k.1, k.2)
      | inr e ↦ rw (on, e) (k.0, ground arith, ground arith, k.2)
    ]

pub breathing_led_off :
    (ops : FloatOps) (l : Led) → (l.breathing.used == 0) ≡ true → breathing_led ops l ≡ l
unfolding breathing_led
breathing_led_off ops l off = rw off refl
