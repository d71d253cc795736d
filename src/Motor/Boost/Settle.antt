-- ===== src/Motor/Boost/Settle.antt =====
-- A whole run of motor_boost_task (main/gpio/app_moter.c), with and without a stop on the way.
use water_dispenser.Base.{
  ℕ, zero, suc, ◌+◌, ◌-◌, ◌≤◌, ◌<◌, ◌≡◌, refl, ap, ◌^◌, ◌∙◌, true, Option, none, some, arith, u32,
  sub_u32, ltb, ◌==◌, if◌then◌else◌, Bool-cases, inl, inr,
}
use water_dispenser.Motor.{Motor, tpl0401_set_value}
use water_dispenser.Motor.Boost.{
  Reading, Boost, calibrate, hold, ramp_up, ramp_down, rounds_above_30, rounds_from_30, Readings,
  search_rounds, search_min, ramp,
}
use water_dispenser.Motor.Boost.Ramp.{
  position, NotStopped, IsStopped, memory-set, memory-hold, memory-ramp_up, memory-ramp_down,
  ramp_up-stopped, ramp_down-stopped, hold-stopped,
}

-- A stop that is seen by the last round of the three seconds at full speed, and stays, leaves
-- the motor stopped after the ramps, whatever speed they lead to.
pub ramp-stopped :
    (r : Readings) (b : Boost)
    → b.motor.has_memory ≡ true
    → ((j : ℕ) → (r.in_hold j).check ≡ 100 → (r.in_hold j).again ≡ 100)
    → (r.in_hold 29).check ≡ 100
    → IsStopped r.in_up
    → IsStopped r.in_down
    → IsStopped r.in_last
    → position (ramp r b).motor ≡ some 100
unfolding ramp
ramp-stopped r b mem same last up down end =
    let v = b.min_value in
    let full = tpl0401_set_value 0 b.motor in
    let held = hold r.in_hold 30 0 full in
    let raised = ramp_up r.in_up (rounds_above_30 v) 0 30 held in
    let lowered = ramp_down r.in_down (rounds_above_30 v) 0 v raised in
    let m0 : full.has_memory ≡ true = memory-set 0 b.motor ∙ mem in
    let m1 : held.has_memory ≡ true = memory-hold r.in_hold 30 0 full ∙ m0 in
    let m2 : raised.has_memory ≡ true = memory-ramp_up r.in_up (rounds_above_30 v) 0 30 held ∙ m1 in
    let m3 : lowered.has_memory ≡ true =
      memory-ramp_down r.in_down (rounds_above_30 v) 0 v raised ∙ m2 in
    let p1 : position held ≡ some 100 = hold-stopped r.in_hold 29 0 full same last m0 in
    let p2 : position raised ≡ some 100 =
      ramp_up-stopped r.in_up (rounds_above_30 v) 0 30 held up m1 p1 in
    let p3 : position lowered ≡ some 100 =
      ramp_down-stopped r.in_down (rounds_above_30 v) 0 v raised down m2 p2 in
    ramp_up-stopped r.in_last (rounds_from_30 v) 0 30 lowered end m3 p3

-- The number of the first round whose reading falls below 30.
abbrev pub first_low : (ℕ → Reading) → ℕ → ℕ → Option ℕ
first_low reads zero i = none
first_low reads (suc n) i =
    let rest = first_low reads n (i + 1) in if ltb (reads i).adc 30 then some i else rest

-- What the search finds, at round k from `start` on: four below the wiper value of that round.
abbrev pub found_min : ℕ → Option ℕ → ℕ → ℕ
found_min start none old = old
found_min start (some k) old = sub_u32 (start + k) 4

calibrate-min :
    (reads : ℕ → Reading) (n i start : ℕ) (b : Boost)
    → NotStopped reads
    → start + i + n < 2 ^ 32
    → (calibrate reads n i (start + i) b).min_value
      ≡ found_min start (first_low reads n i) b.min_value
unfolding calibrate
calibrate-min reads zero i start b quiet h = refl
calibrate-min reads (suc n) i start b quiet h = elim (Bool-cases (ltb (reads i).adc 30)) [
  | inl low ↦ rw low refl
  | inr high ↦
      let next = record b { motor = tpl0401_set_value (start + i) b.motor } in
      let e : u32 (start + i + 1) ≡ start + (i + 1) = omega arith in
      rw (high, quiet i, e) (calibrate-min reads n (i + 1) start next quiet (omega arith))
]

-- The first run that nothing stops: the search stops four below the first wiper value at which the
-- current falls below 30, keeps no speed if it does not fall, and a known speed is kept.
pub search_min_lem :
    (r : Readings) (b : Boost)
    → NotStopped r.in_search
    → r.start ≤ 100
    → (search_min r b).min_value ≡ (
        if b.min_value == 0
        then found_min r.start (first_low r.in_search (100 - r.start) 0) 0
        else b.min_value)
unfolding search_min
search_min_lem r b quiet h = elim (Bool-cases (b.min_value == 0)) [
  | inl e ↦
      let rounds : search_rounds r.start ≡ 100 - r.start = ground arith in
      let from : r.start + 0 ≡ r.start = omega arith in
      let fresh : b.min_value ≡ 0 = ground arith in
      let found = calibrate-min r.in_search (100 - r.start) 0 r.start b quiet (omega arith) in
      rw (e, rounds)
        (rw from at found
          ∙ ap (λ t. found_min r.start (first_low r.in_search (100 - r.start) 0) t) fresh)
  | inr ne ↦ rw ne refl
]
