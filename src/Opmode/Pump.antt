-- ===== src/Opmode/Pump.antt =====
-- The pump in a round of the task (`Opmode_task` of main/opmode_task.c, start_motor_with_boost of
-- main/gpio/app_moter.c).
use water_dispenser.Base.{
  ℕ, ◌-◌, ◌≤◌, ◌≡◌, refl, Bool, true, false, List, [], ◌∷◌, arith, ◌==◌, if◌then◌else◌, not, ◌&&◌,
  ◌||◌, inl, inr, Bool-cases,
}
use water_dispenser.Float.{FloatOps}
use water_dispenser.Board.{ota_enable}
use water_dispenser.Motor.{Motor, tpl0401_set_value, tpl0401_init, start_motor_with_boost}
use water_dispenser.Smart.{Inputs}
use water_dispenser.Opmode.{Station, opmode_task}

-- Whether the last byte on the bus stops the pump.
abbrev pub is_stopped : List ℕ → Bool
is_stopped [] = false
is_stopped (b ∷ bs) = b == 100

-- A target of 100 is always on the wiper.
pub record IsPump (m : Motor) : Type 0 where
  pub memory : m.has_memory ≡ true
  pub stopped : (not (m.target == 100) || is_stopped m.wiper) ≡ true

tpl0401_init-IsPump : (m : Motor) → m.has_memory ≡ true → IsPump (tpl0401_init m)
unfolding tpl0401_init tpl0401_set_value
tpl0401_init-IsPump m h = record { memory = ground arith; stopped = ground arith }

-- What a call makes of the pump.
pub record Driven (speed : ℕ) (m n : Motor) : Type 0 where
  pub pump : IsPump n
  pub target : n.target ≡ 100 - speed
  pub off : (not (speed == 0) || is_stopped n.wiper) ≡ true
  pub wiper : n.wiper ≡ (if speed == 0 && not (m.target == 100) then 100 ∷ m.wiper else m.wiper)
  pub signal : n.signal ≡ (m.signal || (not (speed == 0) && not (m.target == n.target)))

-- A call with a speed of 0 to 100 percent turns it round into the target. At speed 0 the wiper is
-- at the stop when the call returns; at another speed the call leaves the wiper and, exactly if
-- the target is a new one, signals the task that moves it.
pub start_motor_with_boost-Driven :
    (speed : ℕ) (m : Motor)
    → speed ≤ 100
    → IsPump m
    → Driven speed m (start_motor_with_boost speed m)
unfolding start_motor_with_boost tpl0401_set_value
start_motor_with_boost-Driven speed m h v = record {
  pump = record {
    memory = ground (arith, v.memory);
    stopped = ground (arith, v.memory, v.stopped);
  };
  target = ground (arith, v.memory);
  off = ground (arith, v.memory, v.stopped);
  wiper = ground (arith, v.memory);
  signal = ground (arith, v.memory);
}

-- A station at rest: the pump is stopped, and the drinking sessions have not moved.
pub record AtRest (s t : Station) : Type 0 where
  pub target : t.motor.target ≡ 100
  pub off : is_stopped t.motor.wiper ≡ true
  pub pump : IsPump t.motor
  pub water : t.water ≡ s.water
  pub opmode : t.opmode ≡ s.opmode

-- The firmware update is running, or the mode is sleep with the speed that it sets.
abbrev pub is_resting : Station → Bool
is_resting s =
    ota_enable s.water.board || (s.opmode.current_opmode == 1 && s.opmode.motor_speed == 0)

stopped_motor :
    (m : Motor)
    → IsPump m
    → ((start_motor_with_boost 0 m).target ≡ 100)
      × (is_stopped (start_motor_with_boost 0 m).wiper ≡ true)
      × IsPump (start_motor_with_boost 0 m)
stopped_motor m v =
    let d = start_motor_with_boost-Driven 0 m (omega arith) v in (d.target, d.off, d.pump)

-- During a firmware update, in whatever mode, and in the sleep mode, a round that is not taken over
-- for debugging stops the pump and leaves the drinking sessions alone.
pub opmode_task-AtRest :
    (ops : FloatOps) (i : Inputs) (s : Station)
    → is_resting s ≡ true
    → IsPump s.motor
    → AtRest s (opmode_task ops false i s)
unfolding opmode_task
opmode_task-AtRest ops i s rest v =
    let (target, off, pump) = stopped_motor s.motor v in
    elim (Bool-cases (ota_enable s.water.board)) [
      | inl e ↦
          rw e (record { target = target; off = off; pump = pump; water = refl; opmode = refl })
      | inr e ↦
          let mode : s.opmode.current_opmode ≡ 1 = ground arith in
          let speed : s.opmode.motor_speed ≡ 0 = ground arith in
          record {
            target = ground (arith, target);
            off = ground (arith, off);
            pump = record {
              memory = ground (arith, pump.memory);
              stopped = ground (arith, pump.stopped);
            };
            water = ground arith;
            opmode = ground arith;
          }
    ]
