-- ===== src/Button.antt =====
-- The button (main/gpio/app_button.c): the time of a press tells a click from the long presses,
-- and a timer tells one click from two. Times are milliseconds since the start, as int64_t.
pub mod Press
use water_dispenser.Base.{
  ℕ, ◌+◌, ◌-◌, Bool, true, false, ◌&&◌, not, List, [], ◌∷◌, leb, ◌==◌, if◌then◌else◌,
}

-- What the button's actions call: Opmode_Set, nothing, nothing, and the loss of the registration
-- with a new search for a network; a long press of 10 s sets a flag instead.
pub data Action : Type 0 where
  single_click : Action
  double_click : Action
  long_press_3_sec : Action
  long_press_5_sec : Action
  long_press_10_sec : Action

pub record Button : Type 0 where
  pub is_pressed : Bool
  pub pressed_time : ℕ
  pub click_count : ℕ
  pub factory_flag : Bool
  pub waits : Bool  -- double_click_timer is running
  pub actions : List Action  -- the latest first

abbrev pub act : Action → Button → Button
act a b = record b { actions = a ∷ b.actions }

-- `bf_LongPress10SecAction`.
abbrev pub bf_long_press_10_sec : Button → Button
bf_long_press_10_sec b = act long_press_10_sec (record b { factory_flag = true })

unfoldable pub button_press_state : ℕ → Button → ℕ
button_press_state now b =
    let press_duration = now - b.pressed_time in
    if b.is_pressed
    then (if leb 10000 press_duration
        then 3
        else if leb 5000 press_duration
        then 2
        else if leb 3000 press_duration
        then 1
        else 0)
    else 0

-- The judgement of a press by its length, when the button is let go.
unfoldable pub released : ℕ → Button → Button
released press_duration b =
    if leb 10000 press_duration
    then bf_long_press_10_sec b
    else if leb 5000 press_duration
    then act long_press_5_sec b
    else if leb 3000 press_duration
    then act long_press_3_sec b
    else record b { click_count = b.click_count + 1; waits = true }

-- A round of `Button_task` after the bouncing, with the level of the pin.
unfoldable pub button_task : ℕ → ℕ → Button → Button
unfolding released
button_task level now b =
    if (level == 0) && not b.is_pressed
    then record b { is_pressed = true; pressed_time = now }
    else if (level == 1) && b.is_pressed
    then released (now - b.pressed_time) (record b { is_pressed = false })
    else b

-- The timer's callback, 300 ms after the last click.
unfoldable pub double_click_timer_callback : Button → Button
double_click_timer_callback b =
    let chosen =
      if b.click_count == 1
      then act single_click b
      else if leb 2 b.click_count
      then act double_click b
      else b in
    record chosen { click_count = 0; waits = false }
