-- ===== src/Motor/Boost/Ramp.antt =====
-- Where one run of motor_boost_task leaves the wiper (main/gpio/app_moter.c).
use water_dispenser.Base.{
  ℕ, zero, suc, ◌+◌, ◌-◌, ◌≤◌, ◌≡◌, refl, true, false, Option, none, some, [], ◌∷◌, arith,
}
use water_dispenser.Motor.{Motor, tpl0401_set_value}
use water_dispenser.Motor.Boost.{Reading, is_stop, hold, ramp_up, ramp_down}

-- The byte that the wiper holds.
abbrev pub position : Motor → Option ℕ
position m = elim m.wiper [ [] ↦ none | v ∷ vs ↦ some v ]

-- No call stops the motor during a loop; or one has stopped it before the loop began.
abbrev pub NotStopped : (ℕ → Reading) → Type 0
NotStopped reads = (i : ℕ) → is_stop (reads i) ≡ false

abbrev pub IsStopped : (ℕ → Reading) → Type 0
IsStopped reads = (i : ℕ) → ((reads i).check ≡ 100) × ((reads i).again ≡ 100)

-- A write that goes out is seen at the wiper.
pub position-set :
    (v : ℕ) (m : Motor)
    → m.has_memory ≡ true
    → v ≤ 127
    → (position (tpl0401_set_value v m) ≡ some v) × ((tpl0401_set_value v m).has_memory ≡ true)
unfolding tpl0401_set_value
position-set v m mem h = ground arith

pub memory-set : (v : ℕ) (m : Motor) → (tpl0401_set_value v m).has_memory ≡ m.has_memory
unfolding tpl0401_set_value
memory-set v m = ground arith

-- Loops keep the link.
pub memory-hold :
    (reads : ℕ → Reading) (n i : ℕ) (m : Motor) → (hold reads n i m).has_memory ≡ m.has_memory
unfolding hold
memory-hold reads zero i m = refl
memory-hold reads (suc n) i m =
    ground (arith, memory-set (reads i).again m, memory-hold reads n (i + 1) m)

pub memory-ramp_up :
    (reads : ℕ → Reading) (n i v : ℕ) (m : Motor)
    → (ramp_up reads n i v m).has_memory ≡ m.has_memory
unfolding ramp_up
memory-ramp_up reads zero i v m = refl
memory-ramp_up reads (suc n) i v m =
    let m' = tpl0401_set_value v m in
    ground (
      arith,
      memory-set v m,
      memory-set (reads i).again m',
      memory-ramp_up reads n (i + 1) (v + 1) m',
    )

pub memory-ramp_down :
    (reads : ℕ → Reading) (n i v : ℕ) (m : Motor)
    → (ramp_down reads n i v m).has_memory ≡ m.has_memory
unfolding ramp_down
memory-ramp_down reads zero i v m = refl
memory-ramp_down reads (suc n) i v m =
    let m' = tpl0401_set_value v m in
    ground (
      arith,
      memory-set v m,
      memory-set (reads i).again m',
      memory-ramp_down reads n (i + 1) (v - 1) m',
    )

-- A loop that was stopped before it began leaves the motor stopped, if it runs at all.
pub ramp_up-stopped :
    (reads : ℕ → Reading) (n i v : ℕ) (m : Motor)
    → IsStopped reads
    → m.has_memory ≡ true
    → position m ≡ some 100
    → position (ramp_up reads n i v m) ≡ some 100
unfolding ramp_up
ramp_up-stopped reads zero i v m stop mem p = p
ramp_up-stopped reads (suc n) i v m stop mem p =
    let m' = tpl0401_set_value v m in ground (arith, stop i, memory-set v m, position-set 100 m')

pub ramp_down-stopped :
    (reads : ℕ → Reading) (n i v : ℕ) (m : Motor)
    → IsStopped reads
    → m.has_memory ≡ true
    → position m ≡ some 100
    → position (ramp_down reads n i v m) ≡ some 100
unfolding ramp_down
ramp_down-stopped reads zero i v m stop mem p = p
ramp_down-stopped reads (suc n) i v m stop mem p =
    let m' = tpl0401_set_value v m in ground (arith, stop i, memory-set v m, position-set 100 m')

-- The three seconds at full speed end stopped, if the last round at the latest sees the stop.
pub hold-stopped :
    (reads : ℕ → Reading) (n i : ℕ) (m : Motor)
    → ((j : ℕ) → (reads j).check ≡ 100 → (reads j).again ≡ 100)
    → (reads (i + n)).check ≡ 100
    → m.has_memory ≡ true
    → position (hold reads (suc n) i m) ≡ some 100
unfolding hold
hold-stopped reads zero i m same last mem =
    let e : i + 0 ≡ i = omega arith in
    let here : (reads i).check ≡ 100 = rw e at last in ground (arith, same i, position-set 100 m)
hold-stopped reads (suc n) i m same last mem =
    let e : i + suc n ≡ i + 1 + n = omega arith in
    let later : (reads (i + 1 + n)).check ≡ 100 = rw e at last in
    ground (arith, same i, position-set 100 m, hold-stopped reads n (i + 1) m same later mem)
