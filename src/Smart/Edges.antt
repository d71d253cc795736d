-- ===== src/Smart/Edges.antt =====
-- The edges of the smart state machine (`Smart_Water` of main/opmode_task.c), and its fault code.
use water_dispenser.Base.{
  ◌≡◌, refl, ◌∙◌, Bool, true, false, arith, expired, ◌==◌, inl, inr, Bool-cases, subst,
}
use water_dispenser.Base.Register.{has}
use water_dispenser.Float.{FloatOps}
use water_dispenser.Board.{Board, mqtt_queue_send}
use water_dispenser.Smart.{
  SmartState, smart_idle, smart_run_verify, smart_run_stable, smart_stop_check, AccessState,
  access_mqtt_idle, access_mqtt_verify_5s, Smart, Inputs, Water, access_change, access_check, idle,
  spikes, diff_weight, verify, stable, stop_check, smart_case, smart_switch, accessed, smart_water,
}

-- The states by cases.
pub on_states {ℓ} :
    (P : SmartState → Type ℓ)
    → P smart_idle
    → P smart_run_verify
    → P smart_run_stable
    → P smart_stop_check
    → (s : SmartState) → P s
on_states P a b c d smart_idle = a
on_states P a b c d smart_run_verify = b
on_states P a b c d smart_run_stable = c
on_states P a b c d smart_stop_check = d

-- The tests: bit 0 of the sensor, the whole sensor, and the deadline of the state.
abbrev pub is_here : Inputs → Bool
is_here i = has i.sensor_detected 1

abbrev pub is_due : Inputs → Water → Bool
is_due i w = expired w.smart.smart_timer_target i.current_tick

-- The edges of a round by what it reads: `here` is bit 0 of the sensor, `gone` is that the sensor
-- is 0, `due` is that the deadline has passed.
pub data Edge (here gone due : Bool) : SmartState → SmartState → Type 0 where
  waits : here ≡ false → Edge here gone due smart_idle smart_idle
  starts : here ≡ true → Edge here gone due smart_idle smart_run_verify
  loses : gone ≡ true → Edge here gone due smart_run_verify smart_idle
  holds : gone ≡ false → due ≡ false → Edge here gone due smart_run_verify smart_run_verify
  confirms : gone ≡ false → due ≡ true → Edge here gone due smart_run_verify smart_run_stable
  drinks : here ≡ true → Edge here gone due smart_run_stable smart_run_stable
  leaves : here ≡ false → Edge here gone due smart_run_stable smart_stop_check
  returns : here ≡ true → Edge here gone due smart_stop_check smart_run_stable
  checks : here ≡ false → due ≡ false → Edge here gone due smart_stop_check smart_stop_check
  ends : here ≡ false → due ≡ true → Edge here gone due smart_stop_check smart_idle

-- The first two parts of a round leave the smart state machine's variables alone.
pub record Untouched (w v : Water) : Type 0 where
  pub state : v.smart.smart_state ≡ w.smart.smart_state
  pub target : v.smart.smart_timer_target ≡ w.smart.smart_timer_target
  pub weight : v.smart.start_weight ≡ w.smart.start_weight
  pub tick : v.smart.drink_start_tick ≡ w.smart.drink_start_tick
  pub code : v.board.fault_code ≡ w.board.fault_code
  pub buf : v.board.fault_code_buf ≡ w.board.fault_code_buf
  pub led : v.board.led_status ≡ w.board.led_status
  pub tracker : v.tracker ≡ w.tracker

access_change-kept :
    (ops : FloatOps) (i : Inputs) (s : Smart)
    → ((access_change ops i s).smart_state ≡ s.smart_state)
      × ((access_change ops i s).smart_timer_target ≡ s.smart_timer_target)
      × ((access_change ops i s).start_weight ≡ s.start_weight)
      × ((access_change ops i s).drink_start_tick ≡ s.drink_start_tick)
unfolding access_change
access_change-kept ops i s = ground arith

access_check-kept :
    (i : Inputs) (s : Smart) (b : Board) (a : AccessState)
    → s.access_mqtt_state ≡ a
    → ((access_check i s b).0.smart_state ≡ s.smart_state)
      × ((access_check i s b).0.smart_timer_target ≡ s.smart_timer_target)
      × ((access_check i s b).0.start_weight ≡ s.start_weight)
      × ((access_check i s b).0.drink_start_tick ≡ s.drink_start_tick)
      × ((access_check i s b).1.fault_code ≡ b.fault_code)
      × ((access_check i s b).1.fault_code_buf ≡ b.fault_code_buf)
      × ((access_check i s b).1.led_status ≡ b.led_status)
unfolding access_check mqtt_queue_send
access_check-kept i s b access_mqtt_idle h = rw h (refl, refl, refl, refl, refl, refl, refl)
access_check-kept i s b access_mqtt_verify_5s h = ground arith

pub accessed-Untouched : (ops : FloatOps) (i : Inputs) (w : Water) → Untouched w (accessed ops i w)
unfolding accessed
accessed-Untouched ops i w =
    let c = access_change-kept ops i w.smart in
    let s = access_change ops i w.smart in
    let k = access_check-kept i s w.board s.access_mqtt_state refl in
    record {
      state = k.0 ∙ c.0;
      target = k.1 ∙ c.1;
      weight = k.2 ∙ c.2;
      tick = k.3 ∙ c.3;
      code = k.4;
      buf = k.5;
      led = k.6;
      tracker = refl;
    }

module _ (ops : FloatOps) (i : Inputs) (w : Water) where
  idle-Edge :
      w.smart.smart_state ≡ smart_idle
      → Edge
          (is_here i)
          (i.sensor_detected == 0)
          (is_due i w)
          smart_idle
          (idle i w).smart.smart_state
  unfolding idle
  idle-Edge h = elim (Bool-cases (is_here i)) [
    | inl e ↦ rw e (starts refl)
    | inr e ↦ rw (e, h) (waits refl)
  ]

  verify-Edge :
      w.smart.smart_state ≡ smart_run_verify
      → Edge
          (is_here i)
          (i.sensor_detected == 0)
          (is_due i w)
          smart_run_verify
          (verify ops 0 i w).smart.smart_state
  unfolding verify has
  verify-Edge h = elim (Bool-cases (i.sensor_detected == 0)) [
    | inl e ↦ rw e (loses refl)
    | inr e ↦ elim (Bool-cases (is_due i w)) [
      | inl f ↦ elim (Bool-cases (spikes ops i w.smart)) [
        | inl g ↦ rw (e, f, g) (confirms refl refl)
        | inr g ↦ rw (e, f, g) (confirms refl refl)
      ]
      | inr f ↦ elim (Bool-cases (spikes ops i w.smart)) [
        | inl g ↦ rw (e, f, g, h) (holds refl refl)
        | inr g ↦ rw (e, f, g, h) (holds refl refl)
      ]
    ]
  ]

  stable-Edge :
      w.smart.smart_state ≡ smart_run_stable
      → Edge
          (is_here i)
          (i.sensor_detected == 0)
          (is_due i w)
          smart_run_stable
          (stable i w).smart.smart_state
  unfolding stable
  stable-Edge h = elim (Bool-cases (is_here i)) [
    | inl e ↦ rw (e, h) (drinks refl)
    | inr e ↦ rw e (leaves refl)
  ]

  stop_check-Edge :
      w.smart.smart_state ≡ smart_stop_check
      → Edge
          (is_here i)
          (i.sensor_detected == 0)
          (is_due i w)
          smart_stop_check
          (stop_check ops i w).smart.smart_state
  unfolding stop_check
  stop_check-Edge h = elim (Bool-cases (is_here i)) [
    | inl e ↦ rw e (returns refl)
    | inr e ↦ elim (Bool-cases (is_due i w)) [
      | inl f ↦ elim (Bool-cases (ops.lt (ops.of_i32 1) (diff_weight ops i w.smart))) [
        | inl g ↦ rw (e, f, g) (ends refl refl)
        | inr g ↦ rw (e, f, g) (ends refl refl)
      ]
      | inr f ↦ rw (e, f, h) (checks refl refl)
    ]
  ]

  smart_case-Edge :
      (s : SmartState)
      → w.smart.smart_state ≡ s
      → Edge
          (is_here i)
          (i.sensor_detected == 0)
          (is_due i w)
          s
          (smart_case ops 0 i w s).smart.smart_state
  smart_case-Edge =
      on_states
        (λ s.
          w.smart.smart_state ≡ s
          → Edge (is_here i) (i.sensor_detected == 0) (is_due i w) s
              (smart_case ops 0 i w s).smart.smart_state)
        idle-Edge verify-Edge stable-Edge stop_check-Edge

-- A round moves the smart state along an edge, which depends on the sensor, the clock and the
-- deadline only: no weight and no report changes the way of the state machine.
pub smart_water-Edge :
    (ops : FloatOps) (i : Inputs) (w : Water)
    → Edge
        (is_here i)
        (i.sensor_detected == 0)
        (is_due i w)
        w.smart.smart_state
        (smart_water ops i w).smart.smart_state
unfolding smart_water smart_switch
smart_water-Edge ops i w =
    let u = accessed-Untouched ops i w in
    let v = accessed ops i w in
    subst
      (λ s.
        Edge (is_here i) (i.sensor_detected == 0) (is_due i w) s
          (smart_water ops i w).smart.smart_state)
      u.state
      (subst
        (λ t.
          Edge (is_here i) (i.sensor_detected == 0) (expired t i.current_tick) v.smart.smart_state
            (smart_water ops i w).smart.smart_state)
        u.target (smart_case-Edge ops i v v.smart.smart_state refl))

-- There is one edge at most from each state in each round.
pub Edge-unique :
    {here gone due : Bool} {a b c : SmartState}
    → Edge here gone due a b
    → Edge here gone due a c
    → b ≡ c
Edge-unique (waits h) (waits k) = refl
Edge-unique (waits h) (starts k) = ground arith
Edge-unique (starts h) (waits k) = ground arith
Edge-unique (starts h) (starts k) = refl
Edge-unique (loses h) (loses k) = refl
Edge-unique (loses h) (holds k l) = ground arith
Edge-unique (loses h) (confirms k l) = ground arith
Edge-unique (holds h j) (loses k) = ground arith
Edge-unique (holds h j) (holds k l) = refl
Edge-unique (holds h j) (confirms k l) = ground arith
Edge-unique (confirms h j) (loses k) = ground arith
Edge-unique (confirms h j) (holds k l) = ground arith
Edge-unique (confirms h j) (confirms k l) = refl
Edge-unique (drinks h) (drinks k) = refl
Edge-unique (drinks h) (leaves k) = ground arith
Edge-unique (leaves h) (drinks k) = ground arith
Edge-unique (leaves h) (leaves k) = refl
Edge-unique (returns h) (returns k) = refl
Edge-unique (returns h) (checks k l) = ground arith
Edge-unique (returns h) (ends k l) = ground arith
Edge-unique (checks h j) (returns k) = ground arith
Edge-unique (checks h j) (checks k l) = refl
Edge-unique (checks h j) (ends k l) = ground arith
Edge-unique (ends h j) (returns k) = ground arith
Edge-unique (ends h j) (checks k l) = ground arith
Edge-unique (ends h j) (ends k l) = refl
