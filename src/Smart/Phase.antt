-- ===== src/Smart/Phase.antt =====
-- The phases of a drinking session (`Smart_Water` of main/opmode_task.c) and what a round of each
-- keeps and changes.
use water_dispenser.Base.{
  ℕ, ◌+◌, ◌*◌, ◌/◌, ◌≡◌, refl, ap, ◌∙◌, true, false, ◌&&◌, List, [], ◌∷◌, arith, u32, expired, ◌==◌,
  if◌then◌else◌,
}
use water_dispenser.Base.Register.{has}
use water_dispenser.Float.{Float, FloatOps}
use water_dispenser.Board.{DrinkPacket}
use water_dispenser.Tracker.{Tracker}
use water_dispenser.Smart.{
  SmartState, smart_idle, smart_run_verify, smart_run_stable, smart_stop_check, Inputs, Water, idle,
  spikes, verify, stable, stop_check, smart_case, smart_switch, accessed, smart_water,
}
use water_dispenser.Smart.Edges.{is_here, accessed-Untouched}
use water_dispenser.Smart.Drink.{sent_drinks, accessed-drinks, idle-Books, verify-Books}

-- The variables of the state machine, and the books.
pub record At (state : SmartState) (target : ℕ) (weight : Float) (tick : ℕ) (t : Tracker)
    (log : List DrinkPacket) (w : Water) : Type 0 where
  pub state_is : w.smart.smart_state ≡ state
  pub target_is : w.smart.smart_timer_target ≡ target
  pub weight_is : w.smart.start_weight ≡ weight
  pub tick_is : w.smart.drink_start_tick ≡ tick
  pub tracker_is : w.tracker ≡ t
  pub log_is : sent_drinks w ≡ log

-- The start weight after a round of SMART_RUN_VERIFY, and after some of them.
unfoldable pub spiked : FloatOps → Float → Inputs → Float
spiked ops weight i =
    if ops.lt ops.zero i.weight
      && ops.le (ops.of_u32 i.splash_delta_g) (ops.abs (ops.sub i.weight weight))
    then i.weight
    else weight

unfoldable pub spikeds : FloatOps → Float → List Inputs → Float
spikeds ops weight [] = weight
spikeds ops weight (i ∷ is) = spikeds ops (spiked ops weight i) is

-- A round that reads the tick `elapsed` after `start`, and the dwell time in ticks.
abbrev pub IsAfter : ℕ → ℕ → Inputs → Type 0
IsAfter start elapsed i = i.current_tick ≡ u32 (start + elapsed)

abbrev pub dwell_ticks : Inputs → ℕ
dwell_ticks i = u32 (i.effective_dwell_time * 1000) / 10

module _ (ops : FloatOps) (i : Inputs) (w : Water) (state : SmartState) (target : ℕ)
    (weight : Float) (tick : ℕ) (t : Tracker) (log : List DrinkPacket)
    (h : At state target weight tick t log w) where
  pub accessed-At : At state target weight tick t log (accessed ops i w)
  accessed-At =
      let u = accessed-Untouched ops i w in
      record {
        state_is = u.state ∙ h.state_is;
        target_is = u.target ∙ h.target_is;
        weight_is = u.weight ∙ h.weight_is;
        tick_is = u.tick ∙ h.tick_is;
        tracker_is = u.tracker ∙ h.tracker_is;
        log_is = accessed-drinks ops i w ∙ h.log_is;
      }

  pub switch : smart_water ops i w ≡ smart_case ops 0 i (accessed ops i w) state
  unfolding smart_water smart_switch
  switch = ap (smart_case ops 0 i (accessed ops i w)) accessed-At.state_is

module _ (ops : FloatOps) (i : Inputs) (w : Water) (target : ℕ) (weight : Float) (tick : ℕ)
    (t : Tracker) (log : List DrinkPacket) where
  pub idle-At :
      At smart_idle target weight tick t log w
      → is_here i ≡ true
      → At smart_run_verify (u32 (i.current_tick + dwell_ticks i)) i.weight tick t log (idle i w)
  unfolding idle
  idle-At h here =
      let b = idle-Books ops i w in
      record {
        state_is = ground arith;
        target_is = ground arith;
        weight_is = ground arith;
        tick_is = ground (arith, h.tick_is);
        tracker_is = ground (arith, h.tracker_is);
        log_is = b.sent ∙ h.log_is;
      }

  pub verify-At :
      At smart_run_verify target weight tick t log w
      → (i.sensor_detected == 0) ≡ false
      → expired target i.current_tick ≡ false
      → At smart_run_verify target (spiked ops weight i) tick t log (verify ops 0 i w)
  unfolding verify has spikes spiked
  verify-At h here early =
      let b = verify-Books ops i w in
      record {
        state_is = ground (arith, h.state_is, h.target_is, h.weight_is);
        target_is = ground (arith, h.state_is, h.target_is, h.weight_is);
        weight_is = ground (arith, h.state_is, h.target_is, h.weight_is);
        tick_is = ground (arith, h.state_is, h.target_is, h.weight_is, h.tick_is);
        tracker_is = b.tracker ∙ h.tracker_is;
        log_is = b.sent ∙ h.log_is;
      }

  pub verify-At_due :
      At smart_run_verify target weight tick t log w
      → (i.sensor_detected == 0) ≡ false
      → expired target i.current_tick ≡ true
      → At smart_run_stable target (spiked ops weight i) i.current_tick t log (verify ops 0 i w)
  unfolding verify has spikes spiked
  verify-At_due h here early =
      let b = verify-Books ops i w in
      record {
        state_is = ground (arith, h.state_is, h.target_is, h.weight_is);
        target_is = ground (arith, h.state_is, h.target_is, h.weight_is);
        weight_is = ground (arith, h.state_is, h.target_is, h.weight_is);
        tick_is = ground (arith, h.state_is, h.target_is, h.weight_is, h.tick_is);
        tracker_is = b.tracker ∙ h.tracker_is;
        log_is = b.sent ∙ h.log_is;
      }

  pub stable-At :
      At smart_run_stable target weight tick t log w
      → is_here i ≡ true
      → At smart_run_stable target weight tick t log (stable i w)
  unfolding stable
  stable-At h here = rw here h

  pub stable-At_left :
      At smart_run_stable target weight tick t log w
      → is_here i ≡ false
      → At smart_stop_check (u32 (i.current_tick + 300)) weight tick t log (stable i w)
  unfolding stable
  stable-At_left h here = rw here (record {
    state_is = refl;
    target_is = refl;
    weight_is = h.weight_is;
    tick_is = h.tick_is;
    tracker_is = h.tracker_is;
    log_is = h.log_is;
  })

  pub stop_check-At :
      At smart_stop_check target weight tick t log w
      → is_here i ≡ false
      → expired target i.current_tick ≡ false
      → stop_check ops i w ≡ w
  unfolding stop_check
  stop_check-At h here early = ground (arith, h.target_is)

  pub stop_check-idle :
      At smart_stop_check target weight tick t log w
      → is_here i ≡ false
      → expired target i.current_tick ≡ true
      → (stop_check ops i w).smart.smart_state ≡ smart_idle
  unfolding stop_check
  stop_check-idle h here due = ground (arith, h.target_is)
