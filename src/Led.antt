-- ===== src/Led.antt =====
-- The LEDs (main/gpio/app_led.c): the colour of the strip, the breathing, and the choice of the
-- colour in a round of `LED_task`. A colour is its red, green, blue and white byte; the frames that
-- led_strip_refresh sends are logged, the latest first.
pub mod Choice
pub mod Breathe
pub mod Hue
use water_dispenser.Base.{
  ℕ, ◌+◌, ◌-◌, Bool, true, false, ◌&&◌, ◌||◌, not, Option, none, some, List, [], ◌∷◌, u8, u32,
  lt_i32, le_i32, ltb, leb, ◌==◌, if◌then◌else◌,
}
use water_dispenser.Float.{Float, FloatOps}
use water_dispenser.Board.{
  Board, tof_enable, ota_enable, hardware_error_enable, pairing_enable, water_low_enable,
  water_empty_enable, loadcell_error_enable, filter_water_enable, filter_debris_enable,
  pump_error_enable,
}

pub record Colour : Type 0 where
  pub red : ℕ
  pub green : ℕ
  pub blue : ℕ
  pub white : ℕ

abbrev pub rgbw : ℕ → ℕ → ℕ → ℕ → Colour
rgbw r g b w = record { red = r; green = g; blue = b; white = w }

abbrev pub dark : Colour
dark = rgbw 0 0 0 0

-- `Breathing_Setting_t`: `step` is the pattern of an int8_t, `brightness` of an int.
pub record Breathing : Type 0 where
  pub used : ℕ
  pub step : ℕ
  pub min_brightness : ℕ
  pub max_brightness : ℕ
  pub target : Colour
  pub brightness : ℕ

-- After memset.
abbrev pub no_breathing : Breathing
no_breathing = record {
  used = 0;
  step = 0;
  min_brightness = 0;
  max_brightness = 0;
  target = dark;
  brightness = 0;
}

pub record Led : Type 0 where
  pub breathing : Breathing
  pub hold_count : ℕ
  pub colour_buf : Colour  -- R_buf to W_buf
  pub frames : List Colour
  pub led_brightness_value : ℕ
  pub status_buf : ℕ  -- led_status_resister_buf
  pub last_op_mode : ℕ  -- an int
  pub wifi_conn_enable : ℕ

abbrev pub same_colour : Colour → Colour → Bool
same_colour c d =
    (c.red == d.red) && (c.green == d.green) && (c.blue == d.blue) && (c.white == d.white)

-- A colour that is shown already is not sent again.
unfoldable pub set_rgb_led : Colour → Led → Led
set_rgb_led c l =
    if same_colour l.colour_buf c then l else record l { colour_buf = c; frames = c ∷ l.frames }

unfoldable pub set_rgb_len_no_breathing : Colour → Led → Led
set_rgb_len_no_breathing c l =
    set_rgb_led c (if not (l.breathing.used == 0) then record l { breathing = no_breathing } else l)

unfoldable pub breathing_setup : (enable step min_bright max_bright : ℕ) → Colour → Led → Led
breathing_setup enable step min_bright max_bright target l =
    if not (l.breathing.used == 0) then l else record l {
      breathing = record {
        used = enable;
        step = step;
        min_brightness = min_bright;
        max_brightness = max_bright;
        target = target;
        brightness = min_bright;
      };
    }

-- An int8_t as an int.
abbrev pub extend : ℕ → ℕ
extend step = if ltb step 128 then step else step + 4294967040

-- `-step` as an int8_t.
abbrev pub negate : ℕ → ℕ
negate step = u8 (256 - step)

-- 1. The brightness between its bounds.
abbrev pub bounded : Breathing → ℕ
bounded s =
    let low = if lt_i32 s.max_brightness s.brightness then s.max_brightness else s.brightness in
    if lt_i32 low s.min_brightness then s.min_brightness else low

-- 2. and 3. The target's share of the brightness.
abbrev pub scaled : FloatOps → ℕ → ℕ → ℕ
scaled ops brightness part =
    u8 (ops.to_u32 (ops.mul (ops.of_i32 part) (ops.div (ops.of_i32 brightness) (ops.of_i32 255))))

abbrev pub scaled_colour : FloatOps → ℕ → Colour → Colour
scaled_colour ops brightness c =
    rgbw (scaled ops brightness c.red) (scaled ops brightness c.green)
      (scaled ops brightness c.blue) (scaled ops brightness c.white)

-- 5. and 6. The next brightness, turned round at the bounds; the flag tells of a turn.
unfoldable pub next_breath : Breathing → Breathing × Bool
next_breath s =
    let next = u32 (s.brightness + extend s.step) in
    if le_i32 s.max_brightness next && lt_i32 0 (extend s.step)
    then (record s { brightness = s.max_brightness; step = negate s.step }, true)
    else if le_i32 next s.min_brightness && lt_i32 (extend s.step) 0
    then (record s { brightness = s.min_brightness; step = negate s.step }, true)
    else (record s { brightness = next }, false)

unfoldable pub breathing_led : FloatOps → Led → Led
breathing_led ops l =
    let s = record l.breathing { brightness = bounded l.breathing } in
    let shown =
      set_rgb_led (scaled_colour ops s.brightness s.target) (record l { breathing = s }) in
    let n = next_breath s in
    if l.breathing.used == 0
    then l
    else if ltb 0 l.hold_count
    then record shown { hold_count = l.hold_count - 1 }
    else record shown { breathing = n.0; hold_count = if n.1 then 10 else l.hold_count }

-- A colour that breathes.
abbrev pub breathe : FloatOps → Colour → Led → Led
breathe ops c l = breathing_led ops (breathing_setup 1 2 0 l.led_brightness_value c l)

-- The flags that are on, by rank.
unfoldable pub show_status : FloatOps → Board → Led → Led
show_status ops b l =
    let v = l.led_brightness_value in
    if tof_enable b
    then set_rgb_len_no_breathing (rgbw 0 v 0 0) l
    else if hardware_error_enable b
        || pump_error_enable b
        || water_empty_enable b
        || loadcell_error_enable b
    then set_rgb_len_no_breathing (rgbw v 0 0 0) l
    else if water_low_enable b || filter_water_enable b || filter_debris_enable b
    then breathe ops (rgbw 255 0 0 0) l
    else if ota_enable b
    then breathe ops (rgbw 255 0 255 0) l
    else if pairing_enable b
    then breathe ops (rgbw 0 0 255 0) l
    else l

-- No flag is on: the network was just found, or the mode.
unfoldable pub show_mode : Led → Led
show_mode l =
    let v = l.led_brightness_value in
    if not (l.wifi_conn_enable == 0)
    then set_rgb_len_no_breathing (rgbw 0 v 0 0)
        (record l { status_buf = 0; wifi_conn_enable = l.wifi_conn_enable - 1 })
    else set_rgb_len_no_breathing
        (if l.last_op_mode == 2 || (l.last_op_mode == 1) then dark else rgbw 0 0 0 v)
        (record l { status_buf = 0 })

abbrev pub show_button : ℕ → Led → Led
show_button state l =
    let v = l.led_brightness_value in
    if state == 1
    then set_rgb_len_no_breathing (rgbw 0 v 0 0) l
    else if state == 2
    then set_rgb_len_no_breathing (rgbw 0 0 v 0) l
    else if state == 3
    then set_rgb_len_no_breathing (rgbw 0 0 0 v) l
    else l

-- A change of the register ends the breathing; -1 is the pattern of no mode.
unfoldable pub note_status : Board → Led → Led
note_status b l =
    record (if not (l.status_buf == b.led_status)
      then record l { breathing = no_breathing; status_buf = b.led_status }
      else l) { last_op_mode = 4294967295 }

-- A round that is not in a factory reset; `debugged` is `DBG_Resister->led`, `state` is
-- button_press_state().
unfoldable pub led_task : FloatOps → Bool → ℕ → Board → Led → Led
led_task ops debugged state b l =
    if debugged
    then breathing_led ops l
    else if l.led_brightness_value == 0
    then set_rgb_len_no_breathing dark l
    else if not (state == 0)
    then show_button state l
    else if not (b.led_status == 0)
    then show_status ops b (note_status b l)
    else show_mode l
