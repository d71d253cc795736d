-- ===== src/Button/Press.antt =====
-- Presses and clicks (main/gpio/app_button.c).
use water_dispenser.Base.{
  ℕ, ◌+◌, ◌<◌, ◌≡◌, refl, ◌∙◌, true, false, List, [], ◌∷◌, ◌==◌, if◌then◌else◌, arith, All, length,
}
use water_dispenser.Button.{
  Action, single_click, double_click, long_press_3_sec, long_press_5_sec, long_press_10_sec, Button,
  button_press_state, released, button_task, double_click_timer_callback,
}

-- The action that a state of the press stands for; 0 is a click.
abbrev pub actions_of : ℕ → List Action
actions_of k =
    if k == 3
    then long_press_10_sec ∷ []
    else if k == 2
    then long_press_5_sec ∷ []
    else if k == 1
    then long_press_3_sec ∷ []
    else []

abbrev pub prepend : List Action → List Action → List Action
prepend [] more = more
prepend (a ∷ more) bs = a ∷ prepend more bs

-- A button that is let go.
pub record LetGo (k : ℕ) (b c : Button) : Type 0 where
  pub up : c.is_pressed ≡ false
  pub acted : c.actions ≡ prepend (actions_of k) b.actions
  pub clicks : c.click_count ≡ (if k == 0 then b.click_count + 1 else b.click_count)
  pub waiting : c.waits ≡ (if k == 0 then true else b.waits)
  pub factory : c.factory_flag ≡ (if k == 3 then true else b.factory_flag)

-- Letting the button go does what `button_press_state` tells at that time: the action of the long
-- press that it names, or if it names none, a click that is counted and starts the timer.
pub button_task-LetGo :
    (now : ℕ) (b : Button)
    → b.is_pressed ≡ true
    → LetGo (button_press_state now b) b (button_task 1 now b)
unfolding button_task released button_press_state
button_task-LetGo now b on = record {
  up = ground arith;
  acted = ground arith;
  clicks = ground arith;
  waiting = ground arith;
  factory = ground arith;
}

-- A press of the length `held` from the time `start`.
abbrev pub press : (start held : ℕ) → Button → Button
press start held b = button_task 1 (start + held) (button_task 0 start b)

press-click :
    (start held : ℕ) (b : Button)
    → b.is_pressed ≡ false
    → held < 3000
    → ((press start held b).is_pressed ≡ false)
      × ((press start held b).actions ≡ b.actions)
      × ((press start held b).click_count ≡ b.click_count + 1)
      × ((press start held b).factory_flag ≡ b.factory_flag)
unfolding button_task released
press-click start held b off short = ground arith

-- Presses in a row, before the timer runs out.
abbrev pub presses : List (ℕ × ℕ) → Button → Button
presses [] b = b
presses ((start, held) ∷ ps) b = presses ps (press start held b)

presses-clicks :
    (ps : List (ℕ × ℕ)) (b : Button)
    → b.is_pressed ≡ false
    → All (λ p. p.1 < 3000) ps
    → ((presses ps b).is_pressed ≡ false)
      × ((presses ps b).actions ≡ b.actions)
      × ((presses ps b).click_count ≡ b.click_count + length ps)
      × ((presses ps b).factory_flag ≡ b.factory_flag)
presses-clicks [] b off a = (off, refl, omega arith, refl)
presses-clicks ((start, held) ∷ ps) b off (short, a) =
    let (up, same, count, flag) = press-click start held b off short in
    let (up', same', count', flag') = presses-clicks ps (press start held b) up a in
    (up', same' ∙ same, omega (arith, count, count'), flag' ∙ flag)

-- Short presses of an idle button, then the timer's callback: one press is one single click, two
-- or more are one double click, and the count starts anew; nothing else happens.
pub presses-timer :
    (ps : List (ℕ × ℕ)) (b : Button)
    → b.is_pressed ≡ false
    → b.click_count ≡ 0
    → All (λ p. p.1 < 3000) ps
    → let c = double_click_timer_callback (presses ps b) in
      (c.actions ≡ (
        if length ps == 0
        then b.actions
        else if length ps == 1
        then single_click ∷ b.actions
        else double_click ∷ b.actions))
      × (c.click_count ≡ 0)
      × (c.factory_flag ≡ b.factory_flag)
unfolding double_click_timer_callback
presses-timer ps b off none_yet a =
    let (up, same, count, flag) = presses-clicks ps b off a in
    (ground (arith, same, count), ground arith, ground (arith, flag))
