-- ===== src/Motor/Empty.antt =====
-- The detection of an empty tank by the pump's current (main/gpio/app_moter.c, the end of the loop
-- of motor_boost_task): a counter with hysteresis, shown by an LED flag and a fault.
use water_dispenser.Base.{
  ℕ, ◌+◌, ◌-◌, ◌≤◌, ◌<◌, ◌≡◌, refl, subst, false, not, arith, ltb, leb, ◌==◌, if◌then◌else◌, min,
  List, [], ◌∷◌, All, length, inl, inr, Bool-cases,
}
use water_dispenser.Board.{
  Board, led_bit_enable, led_bit_disable, water_fault_enable, water_fault_disable, water_empty_bit,
  water_empty_fault,
}
use water_dispenser.Board.Sound.{IsSound, Signals, raise-Signals, clear-Signals}

-- The task's `empty_count` beside the board.
pub record Tank : Type 0 where
  pub empty_count : ℕ
  pub board : Board

abbrev pub next_count : ℕ → ℕ → ℕ
next_count adc count =
    if ltb adc 100
    then (if ltb count 10 then count + 1 else count)
    else (if count == 0 then count else count - 1)

show_empty : ℕ → Board → Board
show_empty count b =
    if leb 5 count
    then water_fault_enable water_empty_fault (led_bit_enable water_empty_bit b)
    else water_fault_disable water_empty_fault (led_bit_disable water_empty_bit b)

-- One round; `target` is the motor's target, and nothing is done while the motor is stopped.
unfoldable pub empty_check : ℕ → ℕ → Tank → Tank
unfolding show_empty
empty_check target adc k =
    if not (target == 100)
    then (let count = next_count adc k.empty_count in
        record { empty_count = count; board = show_empty count k.board })
    else k

-- The board shows what the counter says.
pub record Shows (k : Tank) : Type 0 where
  pub capped : k.empty_count ≤ 10
  pub signals : Signals 10 1 (if leb 5 k.empty_count then 1 else 0) k.board

show_empty-Signals :
    (count : ℕ) (b : Board)
    → IsSound b
    → Signals 10 1 (if leb 5 count then 1 else 0) (show_empty count b)
unfolding show_empty
show_empty-Signals count b v = elim (Bool-cases (leb 5 count)) [
  | inl e ↦ rw e (raise-Signals 10 1 b (omega arith) (omega arith) v)
  | inr e ↦ rw e (clear-Signals 10 1 b (omega arith) (omega arith) v)
]

-- Rounds of the task with the motor running, at the currents given.
abbrev pub checks : List ℕ → Tank → Tank
checks [] k = k
checks (adc ∷ adcs) k = checks adcs (empty_check 0 adc k)

-- Each round in which the motor runs leaves the LED flag and the fault equal to the test of the
-- counter, and the counter at most 10.
pub empty_check-Shows :
    (target adc : ℕ) (k : Tank)
    → (target == 100) ≡ false
    → IsSound k.board
    → k.empty_count ≤ 10
    → Shows (empty_check target adc k)
unfolding empty_check
empty_check-Shows target adc k run v cap =
    rw (run, empty_check)
      (record {
        capped = ground arith;
        signals = show_empty-Signals (next_count adc k.empty_count) k.board v;
      })

empty_check-count :
    (adc : ℕ) (k : Tank) → (empty_check 0 adc k).empty_count ≡ next_count adc k.empty_count
unfolding empty_check
empty_check-count adc k = refl

-- Readings that are all low, or none of them.
abbrev pub AllLow : List ℕ → Type 0
AllLow = All (λ adc. adc < 100)

abbrev pub NoneLow : List ℕ → Type 0
NoneLow = All (λ adc. 100 ≤ adc)

pub checks-low :
    (adcs : List ℕ) (k : Tank)
    → AllLow adcs
    → k.empty_count ≤ 10
    → (checks adcs k).empty_count ≡ min 10 (k.empty_count + length adcs)
checks-low [] k low cap = omega arith
checks-low (adc ∷ adcs) k low cap =
    ground (arith, empty_check-count adc k, checks-low adcs (empty_check 0 adc k) low.1)

pub checks-high :
    (adcs : List ℕ) (k : Tank)
    → NoneLow adcs
    → (checks adcs k).empty_count ≡ k.empty_count - length adcs
checks-high [] k high = omega arith
checks-high (adc ∷ adcs) k high =
    ground (arith, empty_check-count adc k, checks-high adcs (empty_check 0 adc k) high.1)

-- The last of several rounds decides what is shown.
checks-Shows :
    (adc : ℕ) (adcs : List ℕ) (k : Tank)
    → IsSound k.board
    → k.empty_count ≤ 10
    → Shows (checks (adc ∷ adcs) k)
checks-Shows adc [] k v cap = empty_check-Shows 0 adc k refl v cap
checks-Shows adc (next ∷ adcs) k v cap =
    let shown = empty_check-Shows 0 adc k refl v cap in
    checks-Shows next adcs (empty_check 0 adc k) shown.signals.sound shown.capped

-- Six rounds in a row with no low current clear the empty tank, whatever was shown before.
pub empty_tank_cleared :
    (adcs : List ℕ) (k : Tank)
    → IsSound k.board
    → k.empty_count ≤ 10
    → NoneLow adcs
    → 6 ≤ length adcs
    → Signals 10 1 0 (checks adcs k).board
empty_tank_cleared [] k v cap high h = absurd (omega arith)
empty_tank_cleared (adc ∷ adcs) k v cap high h =
    let none_left : leb 5 (checks (adc ∷ adcs) k).empty_count ≡ false =
      ground (arith, checks-high (adc ∷ adcs) k high) in
    subst (λ t. Signals 10 1 (if t then 1 else 0) (checks (adc ∷ adcs) k).board) none_left
      (checks-Shows adc adcs k v cap).signals
