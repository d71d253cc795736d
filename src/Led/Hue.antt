-- ===== src/Led/Hue.antt =====
-- The colour that breathes belongs to the flags (`LED_task` of main/gpio/app_led.c): the breathing
-- that a round finds going on was set up for the register that `led_status_resister_buf` keeps.
use water_dispenser.Base.{
  ℕ, ◌-◌, ◌≡◌, refl, sym, ap, ◌∙◌, Bool, true, false, ◌||◌, arith, ◌==◌, if◌then◌else◌, ◌⊎◌, inl,
  inr, Bool-cases, subst,
}
use water_dispenser.Base.Register.{has}
use water_dispenser.Float.{FloatOps}
use water_dispenser.Board.{
  Board, tof_enable, ota_enable, hardware_error_enable, pairing_enable, water_low_enable,
  water_empty_enable, loadcell_error_enable, filter_water_enable, filter_debris_enable,
  pump_error_enable, water_low_bit, filter_water_bit, filter_debris_bit, ota_start_bit, pairing_bit,
}
use water_dispenser.Led.{
  Colour, rgbw, dark, Led, set_rgb_len_no_breathing, breathing_setup, bounded, scaled_colour,
  breathing_led, breathe, show_status, show_mode, show_button, note_status, led_task,
}
use water_dispenser.Led.Choice.{set_rgb_len_no_breathing_lem, breathing_led_lem, breathing_led_off}

-- The colour that breathes for a register, by the rank of its flags.
abbrev pub breath_colour : ℕ → Colour
breath_colour n =
    if has n water_low_bit || has n filter_water_bit || has n filter_debris_bit
    then rgbw 255 0 0 0
    else if has n ota_start_bit
    then rgbw 255 0 255 0
    else rgbw 0 0 255 0

-- The breathing is off, or its colour is that of the kept register.
abbrev pub IsTuned : Led → Type 0
IsTuned l = (l.breathing.used ≡ 0) ⊎ (l.breathing.target ≡ breath_colour l.status_buf)

-- A round that lets the colour c breathe.
pub record Breathes (ops : FloatOps) (c : Colour) (l m : Led) : Type 0 where
  pub brightness : ℕ
  pub shown : m.colour_buf ≡ scaled_colour ops brightness c
  pub target : m.breathing.target ≡ c
  pub status : m.status_buf ≡ l.status_buf

setup_target :
    (v : ℕ) (c : Colour) (l : Led)
    → (l.breathing.used ≡ 0) ⊎ (l.breathing.target ≡ c)
    → ((breathing_setup 1 2 0 v c l).breathing.target ≡ c)
      × (((breathing_setup 1 2 0 v c l).breathing.used == 0) ≡ false)
      × ((breathing_setup 1 2 0 v c l).status_buf ≡ l.status_buf)
unfolding breathing_setup
setup_target v c l h = elim (Bool-cases (l.breathing.used == 0)) [
  | inl e ↦ rw e (refl, refl, refl)
  | inr e ↦ rw e (same e h, e, refl)
]
  where
    same :
        (l.breathing.used == 0) ≡ false
        → (l.breathing.used ≡ 0) ⊎ (l.breathing.target ≡ c)
        → l.breathing.target ≡ c
    same e (inl off) = absurd (ground arith)
    same e (inr t) = t

breathe-Breathes :
    (ops : FloatOps) (c : Colour) (l : Led)
    → (l.breathing.used ≡ 0) ⊎ (l.breathing.target ≡ c)
    → Breathes ops c l (breathe ops c l)
breathe-Breathes ops c l h =
    let m = breathing_setup 1 2 0 l.led_brightness_value c l in
    let s = setup_target l.led_brightness_value c l h in
    let k = breathing_led_lem ops m s.1 in
    record {
      brightness = bounded m.breathing;
      shown = k.0 ∙ ap (scaled_colour ops (bounded m.breathing)) s.0;
      target = k.1 ∙ s.0;
      status = k.3 ∙ s.2;
    }

noted :
    (b : Board) (l : Led)
    → IsTuned l
    → ((note_status b l).status_buf ≡ b.led_status)
      × (((note_status b l).breathing.used ≡ 0)
          ⊎ ((note_status b l).breathing.target ≡ breath_colour b.led_status))
unfolding note_status
noted b l h = elim (Bool-cases (l.status_buf == b.led_status)) [
  | inl e ↦
      let same : l.status_buf ≡ b.led_status = ground arith in
      rw e
        (same, subst (λ n. (l.breathing.used ≡ 0) ⊎ (l.breathing.target ≡ breath_colour n)) same h)
  | inr e ↦ rw e (refl, inl refl)
]

plain-IsTuned : (c : Colour) (l : Led) → IsTuned (set_rgb_len_no_breathing c l)
plain-IsTuned c l = inl (set_rgb_len_no_breathing_lem c l).1

Breathes-IsTuned :
    (ops : FloatOps) (n : ℕ) (c : Colour) (l m : Led)
    → l.status_buf ≡ n
    → breath_colour n ≡ c
    → Breathes ops c l m
    → IsTuned m
Breathes-IsTuned ops n c l m same colour b =
    inr (b.target ∙ sym (ap breath_colour (b.status ∙ same) ∙ colour))

show_status-IsTuned :
    (ops : FloatOps) (b : Board) (l : Led)
    → l.status_buf ≡ b.led_status
    → (l.breathing.used ≡ 0) ⊎ (l.breathing.target ≡ breath_colour b.led_status)
    → IsTuned (show_status ops b l)
unfolding show_status water_low_enable filter_water_enable filter_debris_enable ota_enable
    pairing_enable
show_status-IsTuned ops b l same h = elim (Bool-cases (tof_enable b)) [
  | inl e ↦ rw e (plain-IsTuned (rgbw 0 l.led_brightness_value 0 0) l)
  | inr e ↦
      elim (Bool-cases (
        hardware_error_enable b
        || pump_error_enable b
        || water_empty_enable b
        || loadcell_error_enable b)) [
          | inl f ↦ rw (e, f) (plain-IsTuned (rgbw l.led_brightness_value 0 0 0) l)
          | inr f ↦
              elim (Bool-cases (
                has b.led_status water_low_bit
                || has b.led_status filter_water_bit
                || has b.led_status filter_debris_bit)) [
                  | inl g ↦ rw (e, f, g) (breathing (rgbw 255 0 0 0) (ground arith))
                  | inr g ↦ elim (Bool-cases (has b.led_status ota_start_bit)) [
                    | inl k ↦ rw (e, f, g, k) (breathing (rgbw 255 0 255 0) (ground arith))
                    | inr k ↦ elim (Bool-cases (has b.led_status pairing_bit)) [
                      | inl q ↦ rw (e, f, g, k, q) (breathing (rgbw 0 0 255 0) (ground arith))
                      | inr q ↦
                          rw (e, f, g, k, q)
                            (subst
                              (λ n. (l.breathing.used ≡ 0) ⊎ (l.breathing.target ≡ breath_colour n))
                              (sym same) h)
                    ]
                  ]
                ]
        ]
]
  where
    breathing : (c : Colour) → breath_colour b.led_status ≡ c → IsTuned (breathe ops c l)
    breathing c colour = Breathes-IsTuned ops b.led_status c l (breathe ops c l) same colour (
        breathe-Breathes ops c l
          (subst (λ d. (l.breathing.used ≡ 0) ⊎ (l.breathing.target ≡ d)) colour h))

breathing_led-IsTuned : (ops : FloatOps) (l : Led) → IsTuned l → IsTuned (breathing_led ops l)
breathing_led-IsTuned ops l h = elim (Bool-cases (l.breathing.used == 0)) [
  | inl e ↦ subst IsTuned (sym (breathing_led_off ops l e)) h
  | inr e ↦
      let k = breathing_led_lem ops l e in
      elim h [ inl off ↦ inl (k.2 ∙ off) | inr t ↦ inr (k.1 ∙ t ∙ sym (ap breath_colour k.3)) ]
]

show_button-IsTuned : (state : ℕ) (l : Led) → IsTuned l → IsTuned (show_button state l)
show_button-IsTuned state l h = elim (Bool-cases (state == 1)) [
  | inl e ↦ rw e (plain-IsTuned (rgbw 0 l.led_brightness_value 0 0) l)
  | inr e ↦ elim (Bool-cases (state == 2)) [
    | inl f ↦ rw (e, f) (plain-IsTuned (rgbw 0 0 l.led_brightness_value 0) l)
    | inr f ↦ elim (Bool-cases (state == 3)) [
      | inl g ↦ rw (e, f, g) (plain-IsTuned (rgbw 0 0 0 l.led_brightness_value) l)
      | inr g ↦ rw (e, f, g) h
    ]
  ]
]

show_mode-IsTuned : (l : Led) → IsTuned (show_mode l)
unfolding show_mode
show_mode-IsTuned l = elim (Bool-cases (l.wifi_conn_enable == 0)) [
  | inl e ↦ rw e (plain-IsTuned _ (record l { status_buf = 0 }))
  | inr e ↦
      rw e
        (plain-IsTuned _ (record l { status_buf = 0; wifi_conn_enable = l.wifi_conn_enable - 1 }))
]

-- Every round, in debugging or not and whatever is pressed or lit, keeps this: the breathing is
-- off, or its colour is that of the flags in the kept register.
pub led_task-IsTuned :
    (ops : FloatOps) (debugged : Bool) (state : ℕ) (b : Board) (l : Led)
    → IsTuned l
    → IsTuned (led_task ops debugged state b l)
unfolding led_task
led_task-IsTuned ops true state b l h = breathing_led-IsTuned ops l h
led_task-IsTuned ops false state b l h = elim (Bool-cases (l.led_brightness_value == 0)) [
  | inl e ↦ rw e (plain-IsTuned dark l)
  | inr e ↦ elim (Bool-cases (state == 0)) [
    | inl f ↦ elim (Bool-cases (b.led_status == 0)) [
      | inl g ↦ rw (e, f, g) (show_mode-IsTuned l)
      | inr g ↦
          let n = noted b l h in rw (e, f, g) (show_status-IsTuned ops b (note_status b l) n.0 n.1)
    ]
    | inr f ↦ rw (e, f) (show_button-IsTuned state l h)
  ]
]
