-- ===== src/Opmode/Modes.antt =====
-- The operation modes under any sequence of calls (main/opmode_task.c).
use water_dispenser.Base.{
  ℕ, ◌-◌, All, ◌^◌, ◌≤◌, ◌<◌, ◌≡◌, refl, Bool, true, false, Option, none, some, List, [], ◌∷◌,
  arith, ◌==◌, if◌then◌else◌, ltb,
}
use water_dispenser.Opmode.{
  Opmode, timer_create, timer_stop, timer_start_once, set_motor_speed, night_mode_set,
  opmode_test_mode, opmode_set, opmode_task_init, next_mode,
}

-- A call from outside of the task.
pub data ModeCall : Type 0 where
  set_speed : Option ℕ → ModeCall
  night : Bool → ModeCall
  test_mode : ModeCall
  set_mode : ModeCall
  init_task : ModeCall

unfoldable pub mode_call : ModeCall → Opmode → Opmode
mode_call (set_speed speed) o = set_motor_speed speed o
mode_call (night state) o = night_mode_set state o
mode_call test_mode o = opmode_test_mode o
mode_call set_mode o = opmode_set o
mode_call init_task o = opmode_task_init o

-- The calls of a list, the first one first.
unfoldable pub mode_calls : List ModeCall → Opmode → Opmode
mode_calls [] o = o
mode_calls (c ∷ cs) o = mode_calls cs (mode_call c o)

-- The argument of a call is an `int`.
abbrev pub is_word : ModeCall → Bool
is_word (set_speed none) = true
is_word (set_speed (some s)) = ltb s 4294967296
is_word (night state) = true
is_word test_mode = true
is_word set_mode = true
is_word init_task = true

-- The speed is a percentage, and the modes exist.
pub record IsModes (o : Opmode) : Type 0 where
  pub speed : o.motor_speed ≤ 100
  pub mode : o.current_opmode ≤ 3
  pub saved : o.op_mode ≤ 3

set_motor_speed-IsModes :
    (s : Option ℕ) (o : Opmode)
    → is_word (set_speed s) ≡ true
    → IsModes o
    → IsModes (set_motor_speed s o)
unfolding set_motor_speed
set_motor_speed-IsModes none o h v = record {
  speed = ground (arith, v.speed);
  mode = ground (arith, v.mode);
  saved = ground (arith, v.saved);
}
set_motor_speed-IsModes (some s) o h v = record {
  speed = ground (arith, v.speed);
  mode = v.mode;
  saved = v.saved;
}

mode_call-IsModes :
    (c : ModeCall) (o : Opmode) → is_word c ≡ true → IsModes o → IsModes (mode_call c o)
unfolding mode_call opmode_set night_mode_set opmode_test_mode opmode_task_init
mode_call-IsModes (set_speed s) o h v = set_motor_speed-IsModes s o h v
mode_call-IsModes (night true) o h v =
    let m : Opmode = record o { night_mode = true; current_opmode = 2; led_brightness = 0 } in
    set_motor_speed-IsModes none m refl
      (record { speed = v.speed; mode = omega arith; saved = v.saved })
mode_call-IsModes (night false) o h v =
    set_motor_speed-IsModes none (record o { night_mode = false; led_brightness = 255 }) refl
      (record { speed = v.speed; mode = v.mode; saved = v.saved })
mode_call-IsModes test_mode o h v = record { speed = v.speed; mode = omega arith; saved = v.saved }
mode_call-IsModes set_mode o h v =
    let p : Opmode = record o { current_opmode = next_mode o.current_opmode } in
    let s =
      set_motor_speed-IsModes none p refl
        (record { speed = v.speed; mode = ground (arith, v.mode); saved = v.saved }) in
    record { speed = s.speed; mode = s.mode; saved = s.mode }
mode_call-IsModes init_task o h v = record { speed = v.speed; mode = v.saved; saved = v.saved }

-- Whatever is called in whatever order, with any words as speeds, the pump's speed stays between
-- 0 and 100 percent, and the current and the saved mode are modes.
pub mode_calls-IsModes :
    (cs : List ModeCall) (o : Opmode)
    → All (λ c. is_word c ≡ true) cs
    → IsModes o
    → IsModes (mode_calls cs o)
unfolding mode_calls
mode_calls-IsModes [] o a v = v
mode_calls-IsModes (c ∷ cs) o (h, a) v =
    mode_calls-IsModes cs (mode_call c o) a (mode_call-IsModes c o h v)

-- What `Opmode_Set` makes of the mode.
pub record Switched (o p : Opmode) : Type 0 where
  pub mode : p.current_opmode ≡ (if o.current_opmode == 0 then 1 else 0)
  pub speed : p.motor_speed ≡ (if o.current_opmode == 0 then 0 else 100)
  pub saved : p.op_mode ≡ p.current_opmode
  pub calls :
      p.timer_calls
      ≡ timer_start_once 5000000
        ∷ (if o.has_timer then timer_stop else timer_create)
        ∷ o.timer_calls
  pub timer : p.has_timer ≡ true

-- The button's click switches the normal mode to sleep, with the pump off, and every other mode to
-- normal, with the pump at full speed: the night mode is never reached. The new mode goes to the
-- configuration, and the timer that saves it starts anew for five seconds.
pub opmode_set-Switched : (o : Opmode) → o.current_opmode < 2 ^ 32 - 1 → Switched o (opmode_set o)
unfolding opmode_set set_motor_speed
opmode_set-Switched o fits = record {
  mode = ground arith;
  speed = ground arith;
  saved = ground arith;
  calls = ground arith;
  timer = ground arith;
}
