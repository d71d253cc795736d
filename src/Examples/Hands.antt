-- ===== src/Examples/Hands.antt =====
-- Examples of the button and of the infrared sensor.
use water_dispenser.Base.{refl, true, false, []}
use water_dispenser.Button.{Button, button_press_state, button_task}
use water_dispenser.Button.Press.{LetGo, button_task-LetGo}

abbrev idle_button : Button
idle_button = record {
  is_pressed = false;
  pressed_time = 0;
  click_count = 0;
  factory_flag = false;
  waits = false;
  actions = [];
}

abbrev pressed : Button
pressed = record idle_button { is_pressed = true; pressed_time = 1000 }

button_task-LetGo_example :
    LetGo (button_press_state 7000 pressed) pressed (button_task 1 7000 pressed)
button_task-LetGo_example = button_task-LetGo 7000 pressed refl
