-- ===== src/Smart/Splash.antt =====
-- The faults that the drinking sessions report (`Smart_Water` of main/opmode_task.c).
use water_dispenser.Base.{
  ℕ, ◌≤◌, ◌≡◌, refl, ap, sym, ◌∙◌, List, [], ◌∷◌, arith, ◌==◌, if◌then◌else◌, inl, inr, Bool-cases,
}
use water_dispenser.Base.Bits.{bit}
use water_dispenser.Float.{FloatOps}
use water_dispenser.Board.{Board, mqtt_queue_send}
use water_dispenser.Board.Report.{water_fault_disable-Turned}
use water_dispenser.Board.Sound.{IsSound, water_fault_disable-IsSound}
use water_dispenser.Smart.{
  SmartState, Inputs, Water, idle, verify, stable, stop_check, smart_case, smart_switch, accessed,
  smart_water, smart_waters,
}
use water_dispenser.Smart.Edges.{on_states, is_here, accessed-Untouched}

-- From board b to board c: all changes are reported, the splashing fault is not raised, and no
-- other fault and no flag of the LED register changes.
pub record Calm (b c : Board) : Type 0 where
  pub sound : IsSound c
  pub splash : bit 4 c.fault_code ≤ bit 4 b.fault_code
  pub others :
      (j : ℕ)
      → (if j == 4 then 0 else bit j c.fault_code) ≡ (if j == 4 then 0 else bit j b.fault_code)
  pub led : c.led_status ≡ b.led_status

pub Calm-same :
    (b c : Board)
    → IsSound b
    → c.fault_code ≡ b.fault_code
    → c.fault_code_buf ≡ b.fault_code_buf
    → c.led_status ≡ b.led_status
    → Calm b c
Calm-same b c v code buf led = record {
  sound = record {
    reported = record {
      synced = buf ∙ v.reported.synced ∙ sym code;
      word = omega (arith, v.reported.word, code);
    };
    register = omega (arith, v.register, led);
  };
  splash = omega (arith, ap (bit 4) code);
  others = λ j. ap (λ n. if j == 4 then 0 else bit j n) code;
  led = led;
}

pub Calm-trans : (a b c : Board) → Calm a b → Calm b c → Calm a c
Calm-trans a b c h k = record {
  sound = k.sound;
  splash = omega (arith, h.splash, k.splash);
  others = λ j. k.others j ∙ h.others j;
  led = k.led ∙ h.led;
}

module _ (ops : FloatOps) (i : Inputs) (w : Water) (v : IsSound w.board) where
  kept : (c : Board) → c ≡ w.board → Calm w.board c
  kept c e =
      Calm-same w.board c v (ap (λ b. b.fault_code) e) (ap (λ b. b.fault_code_buf) e)
        (ap (λ b. b.led_status) e)

  idle-Calm : Calm w.board (idle i w).board
  unfolding idle
  idle-Calm = elim (Bool-cases (is_here i)) [
    | inl e ↦
        let t = water_fault_disable-Turned 4 w.board (omega arith) v.reported in
        rw e (record {
          sound = water_fault_disable-IsSound 4 w.board (omega arith) v;
          splash = omega (arith, t.turned);
          others = λ j. ground (arith, t.flags j);
          led = t.led_kept;
        })
    | inr e ↦ rw e (kept w.board refl)
  ]

  verify-Calm : Calm w.board (verify ops 0 i w).board
  unfolding verify
  verify-Calm = kept (verify ops 0 i w).board (ground arith)

  stable-Calm : Calm w.board (stable i w).board
  unfolding stable
  stable-Calm = kept (stable i w).board (ground arith)

  stop_check-Calm : Calm w.board (stop_check ops i w).board
  unfolding stop_check mqtt_queue_send
  stop_check-Calm =
      Calm-same w.board (stop_check ops i w).board v (ground arith) (ground arith) (ground arith)

  smart_case-Calm : (s : SmartState) → Calm w.board (smart_case ops 0 i w s).board
  smart_case-Calm =
      on_states (λ s. Calm w.board (smart_case ops 0 i w s).board) idle-Calm verify-Calm stable-Calm
        stop_check-Calm

pub smart_water-Calm :
    (ops : FloatOps) (i : Inputs) (w : Water)
    → IsSound w.board
    → Calm w.board (smart_water ops i w).board
unfolding smart_water smart_switch
smart_water-Calm ops i w v =
    let u = accessed-Untouched ops i w in
    let x = accessed ops i w in
    let c = Calm-same w.board x.board v u.code u.buf u.led in
    Calm-trans w.board x.board (smart_water ops i w).board c
      (smart_case-Calm ops i x c.sound x.smart.smart_state)

-- However long the rounds run and whatever they weigh, they never raise the splashing fault, they
-- change no other fault and no flag of the LED register, and every change is reported.
pub smart_waters-Calm :
    (ops : FloatOps) (is : List Inputs) (w : Water)
    → IsSound w.board
    → Calm w.board (smart_waters ops is w).board
unfolding smart_waters
smart_waters-Calm ops [] w v = Calm-same w.board w.board v refl refl refl
smart_waters-Calm ops (i ∷ is) w v =
    let c = smart_water-Calm ops i w v in
    let x = smart_water ops i w in
    Calm-trans w.board x.board (smart_waters ops is x).board c (smart_waters-Calm ops is x c.sound)
