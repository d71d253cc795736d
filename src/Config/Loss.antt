-- ===== src/Config/Loss.antt =====
-- How much of a time of use a power failure can lose (main/flash/app_config_flash.c): the timer asks
-- for a save every 10 minutes, and the task writes it.
use water_dispenser.Base.{
  ℕ, ◌+◌, ◌≤◌, ◌<◌, ◌≡◌, refl, ap, ◌∙◌, Bool, true, false, some, List, [], ◌∷◌, arith,
  if◌then◌else◌, u32, length,
}
use water_dispenser.Float.{FloatOps}
use water_dispenser.Nvs.{app_key_motor_time, number, Nvs, read_nvs, Works}
use water_dispenser.Config.{Flash, Counter, note, flash_task, minute10_timer_callback}
use water_dispenser.Config.Saved.{flash_task-Saved}

-- A second of use of the motor, the timer's callback, and a round of the task.
pub data Step : Type 0 where
  second : Step
  callback : Step
  round : Step

unfoldable pub step : {S : Type 0} → FloatOps → Nvs S → Step → Flash S → Flash S
step ops nvs second f = record f {
  motor = record f.motor { save_time = u32 (f.motor.save_time + 1) };
}
step ops nvs callback f = minute10_timer_callback ops nvs f
step ops nvs round f = flash_task ops nvs f

unfoldable pub steps : {S : Type 0} → FloatOps → Nvs S → List Step → Flash S → Flash S
steps ops nvs [] f = f
steps ops nvs (e ∷ es) f = steps ops nvs es (step ops nvs e f)

-- The time in flash is not ahead of the time of use, and not behind the time at the last callback
-- once the task had its round.
pub record Behind {S : Type 0} (nvs : Nvs S) (f : Flash S) : Type 0 where
  pub stored : ℕ
  pub there : read_nvs nvs app_key_motor_time f.store ≡ some (number stored)
  pub no_more : stored ≤ f.motor.save_time
  pub noted : f.motor.save_time_buf ≤ f.motor.save_time
  pub saved : f.motor.save_flag ≡ false → f.motor.save_time_buf ≤ stored

second-Behind :
    {S : Type 0} (ops : FloatOps) (nvs : Nvs S) (f : Flash S)
    → f.motor.save_time + 1 < 4294967296
    → Behind nvs f
    → Behind nvs (step ops nvs second f)
unfolding step
second-Behind ops nvs f small b = record {
  stored = b.stored;
  there = b.there;
  no_more = omega (arith, b.no_more);
  noted = omega (arith, b.noted);
  saved = b.saved;
}

note_lem : (c : Counter) → c.save_time_buf ≤ c.save_time → (note c).save_time_buf ≡ c.save_time
note_lem c h = ground arith

note_time : (c : Counter) → (note c).save_time ≡ c.save_time
note_time c = ground arith

note_flag :
    (c : Counter)
    → (note c).save_flag ≡ false
    → (c.save_flag ≡ false) × (c.save_time_buf ≡ c.save_time)
note_flag c h = ground arith

callback-Behind :
    {S : Type 0} (ops : FloatOps) (nvs : Nvs S) (f : Flash S)
    → Behind nvs f
    → Behind nvs (step ops nvs callback f)
unfolding step minute10_timer_callback
callback-Behind ops nvs f b = record {
  stored = b.stored;
  there = b.there;
  no_more = omega (arith, b.no_more, note_time f.motor);
  noted = omega (arith, b.noted, note_time f.motor, note_lem f.motor b.noted);
  saved = λ off.
      let (was_off, same) = note_flag f.motor off in
      omega (arith, b.saved was_off, note_lem f.motor b.noted, same);
}

-- The time in flash after a round.
written : Bool → ℕ → ℕ → ℕ
written b time stored = if b then time else stored

written_lem :
    (b : Bool) (time stored : ℕ)
    → (if b then some (number time) else some (number stored))
      ≡ some (number (written b time stored))
unfolding written
written_lem true time stored = refl
written_lem false time stored = refl

round-Behind :
    {S : Type 0} (ops : FloatOps) (nvs : Nvs S) (f : Flash S)
    → Works nvs
    → Behind nvs f
    → Behind nvs (step ops nvs round f)
unfolding step written
round-Behind ops nvs f w b =
    let s = flash_task-Saved ops nvs f w in
    let time : (flash_task ops nvs f).motor.save_time ≡ f.motor.save_time =
      ap (λ (g : Flash _). g.motor.save_time) s.memory in
    let buf : (flash_task ops nvs f).motor.save_time_buf ≡ f.motor.save_time_buf =
      ap (λ (g : Flash _). g.motor.save_time_buf) s.memory in
    record {
      stored = written f.motor.save_flag f.motor.save_time b.stored;
      there =
          s.motor
          ∙ ap (λ r. if f.motor.save_flag then some (number f.motor.save_time) else r) b.there
          ∙ written_lem f.motor.save_flag f.motor.save_time b.stored;
      no_more = ground (arith, b.no_more, time);
      noted = omega (arith, b.noted, time, buf);
      saved = λ off. ground (arith, b.noted, buf, b.saved);
    }

-- A step adds a second at most.
step-time :
    {S : Type 0} (ops : FloatOps) (nvs : Nvs S) (e : Step) (f : Flash S)
    → Works nvs
    → f.motor.save_time + 1 < 4294967296
    → (step ops nvs e f).motor.save_time ≤ f.motor.save_time + 1
unfolding step minute10_timer_callback
step-time ops nvs second f w small = omega arith
step-time ops nvs callback f w small = omega (arith, note_time f.motor)
step-time ops nvs round f w small =
    let same : (flash_task ops nvs f).motor.save_time ≡ f.motor.save_time =
      ap (λ (g : Flash _). g.motor.save_time) (flash_task-Saved ops nvs f w).memory in
    omega (arith, same)

step-Behind :
    {S : Type 0} (ops : FloatOps) (nvs : Nvs S) (e : Step) (f : Flash S)
    → Works nvs
    → f.motor.save_time + 1 < 4294967296
    → Behind nvs f
    → Behind nvs (step ops nvs e f)
step-Behind ops nvs second f w small b = second-Behind ops nvs f small b
step-Behind ops nvs callback f w small b = callback-Behind ops nvs f b
step-Behind ops nvs round f w small b = round-Behind ops nvs f w b

-- Whatever the order of the seconds of use, the timer's callbacks and the rounds of the task: the time
-- in flash is never ahead of the time of use, and once the save of a callback is written it is not
-- behind the time at that callback, so a power failure loses no more than what came after. The
-- flash is sound, and the time stays below 2 ^ 32.
pub steps-Behind :
    {S : Type 0} (ops : FloatOps) (nvs : Nvs S) (es : List Step) (f : Flash S)
    → Works nvs
    → f.motor.save_time + length es < 4294967296
    → Behind nvs f
    → Behind nvs (steps ops nvs es f)
unfolding steps
steps-Behind ops nvs [] f w small b = b
steps-Behind ops nvs (e ∷ es) f w small b =
    steps-Behind ops nvs es (step ops nvs e f) w
      (omega (arith, step-time ops nvs e f w (omega arith)))
      (step-Behind ops nvs e f w (omega arith) b)

noted_then_saved :
    (c : Counter) (stored : ℕ)
    → stored ≤ c.save_time
    → (c.save_flag ≡ false → c.save_time_buf ≤ stored)
    → written (note c).save_flag (note c).save_time stored ≡ c.save_time
unfolding written
noted_then_saved c stored low h = ground arith

-- A callback and a round bring the time in flash up to the time of use.
pub flash_task-minute10_timer_callback :
    {S : Type 0} (ops : FloatOps) (nvs : Nvs S) (f : Flash S)
    → Works nvs
    → Behind nvs f
    → read_nvs nvs app_key_motor_time (flash_task ops nvs (minute10_timer_callback ops nvs f)).store
      ≡ some (number f.motor.save_time)
unfolding minute10_timer_callback
flash_task-minute10_timer_callback ops nvs f w b =
    let g = record f { motor = note f.motor; filter = note f.filter } in
    (flash_task-Saved ops nvs g w).motor
    ∙ ap (λ r. if (note f.motor).save_flag then some (number (note f.motor).save_time) else r)
        b.there
    ∙ written_lem (note f.motor).save_flag (note f.motor).save_time b.stored
    ∙ ap (λ t. some (number t)) (noted_then_saved f.motor b.stored b.no_more b.saved)
