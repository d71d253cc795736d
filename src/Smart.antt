-- ===== src/Smart.antt =====
-- The drinking sessions (`Smart_Water` of main/opmode_task.c, a round each 100 ms): the state
-- machine that finds a drink and its amount, and the one that reports a change of the sensor
-- which lasted for five seconds. A tick is 10 ms; `int` and `uint32_t` are words.
pub mod Watch
pub mod Access
pub mod Edges
pub mod Drink
pub mod Phase
pub mod Session
pub mod Splash
pub mod Visit
use water_dispenser.Base.{
  ℕ, ◌+◌, ◌*◌, ◌/◌, Bool, true, false, ◌&&◌, not, List, [], ◌∷◌, u8, u32, sub_u32, expired, ltb,
  ◌==◌, if◌then◌else◌,
}
use water_dispenser.Base.Register.{has}
use water_dispenser.Float.{Float, FloatOps}
use water_dispenser.Board.{
  Board, AccessPacket, DrinkPacket, message_access, message_drink, mqtt_queue_send,
  water_fault_enable, water_fault_disable, water_splashing_fault,
}
use water_dispenser.Tracker.{Tracker, tracker_waterintake_end}

-- `smart_state_t`.
pub data SmartState : Type 0 where
  smart_idle : SmartState
  smart_run_verify : SmartState
  smart_run_stable : SmartState
  smart_stop_check : SmartState

-- `access_mqtt_state_t`.
pub data AccessState : Type 0 where
  access_mqtt_idle : AccessState
  access_mqtt_verify_5s : AccessState

-- The static variables.
pub record Smart : Type 0 where
  pub smart_state : SmartState
  pub smart_timer_target : ℕ
  pub start_weight : Float
  pub drink_start_tick : ℕ
  pub sensor_detected_buf : ℕ
  pub access_packet : AccessPacket
  pub access_mqtt_state : AccessState
  pub access_timer_target : ℕ
  pub target_sensor_val : ℕ

-- What a round reads. The load cell's task may write between two reads, so each read of a round
-- has its own value.
pub record Inputs : Type 0 where
  pub sensor_detected : ℕ  -- VL53L0X_Detect()
  pub current_tick : ℕ  -- xTaskGetTickCount()
  pub access_weight : Float  -- loadcell_data_get() where the sensor has changed
  pub weight : Float  -- loadcell_data_get() in the smart state machine
  pub sent_weight : Float  -- loadcell_data_get() for the packet of a drink
  pub effective_dwell_time : ℕ  -- app_config->EFFECTIVE_DWELL_TIME, in seconds
  pub splash_delta_g : ℕ  -- app_config->splash_delta_g

pub record Water : Type 0 where
  pub smart : Smart
  pub board : Board
  pub tracker : Tracker

-- 1. The sensor has changed: keep the new value and start the five seconds.
unfoldable pub access_change : FloatOps → Inputs → Smart → Smart
access_change ops i s =
    if not (i.sensor_detected == s.sensor_detected_buf)
    then record s {
      target_sensor_val = i.sensor_detected;
      access_packet = record {
        detect_flag = i.sensor_detected;
        start_weight =
            if has (sub_u32 s.sensor_detected_buf i.sensor_detected) 1
            then ops.to_i32 i.access_weight
            else 0;
      };
      access_timer_target = u32 (i.current_tick + 500);
      access_mqtt_state = access_mqtt_verify_5s;
      sensor_detected_buf = i.sensor_detected;
    }
    else s

-- 2. The five seconds.
unfoldable pub access_check : Inputs → Smart → Board → Smart × Board
unfolding mqtt_queue_send
access_check i s b = elim s.access_mqtt_state [
  | access_mqtt_idle ↦ (s, b)
  | access_mqtt_verify_5s ↦
      if not (i.sensor_detected == s.target_sensor_val)
      then (record s { access_mqtt_state = access_mqtt_idle }, b)
      else if expired s.access_timer_target i.current_tick
      then (
        record s { access_mqtt_state = access_mqtt_idle },
        mqtt_queue_send (message_access s.access_packet) b,
      )
      else (s, b)
]

-- 3. The smart state machine, a function per state.
unfoldable pub idle : Inputs → Water → Water
idle i w =
    if has i.sensor_detected 1
    then record w {
      board = water_fault_disable water_splashing_fault w.board;
      smart = record w.smart {
        start_weight = i.weight;
        smart_timer_target = u32 (i.current_tick + u32 (i.effective_dwell_time * 1000) / 10);
        smart_state = smart_run_verify;
      };
    }
    else w

-- `current_w > 0 && fabsf(current_w - start_weight) >= app_config->splash_delta_g`.
unfoldable pub spikes : FloatOps → Inputs → Smart → Bool
spikes ops i s =
    ops.lt ops.zero i.weight
    && ops.le (ops.of_u32 i.splash_delta_g) (ops.abs (ops.sub i.weight s.start_weight))

-- A spike is counted, and its weight is the new start weight.
abbrev pub spike_weight : FloatOps → Inputs → Smart → Smart
spike_weight ops i s = if spikes ops i s then record s { start_weight = i.weight } else s

unfoldable pub verify : FloatOps → ℕ → Inputs → Water → Water
verify ops splash_count i w =
    if has (if i.sensor_detected == 0 then 1 else 0) 1
    then record w { smart = record w.smart { smart_state = smart_idle } }
    else if spikes ops i w.smart && ltb 2 (u8 (splash_count + 1))
    then record w {
      smart = record (spike_weight ops i w.smart) { smart_state = smart_idle };
      board = water_fault_enable water_splashing_fault w.board;
    }
    else if expired w.smart.smart_timer_target i.current_tick
    then record w {
      smart = record (spike_weight ops i w.smart) {
        drink_start_tick = i.current_tick;
        smart_state = smart_run_stable;
      };
    }
    else record w { smart = spike_weight ops i w.smart }

unfoldable pub stable : Inputs → Water → Water
stable i w =
    if not (has i.sensor_detected 1)
    then record w {
      smart = record w.smart {
        smart_timer_target = u32 (i.current_tick + 300);
        smart_state = smart_stop_check;
      };
    }
    else w

-- `start_weight - loadcell_data_get()`.
unfoldable pub diff_weight : FloatOps → Inputs → Smart → Float
diff_weight ops i s = ops.sub s.start_weight i.weight

unfoldable pub drink_packet : FloatOps → Inputs → Smart → DrinkPacket
drink_packet ops i s = record {
  start_weight = s.start_weight;
  end_weight = i.sent_weight;
  total_intake_ml =
      let diff = diff_weight ops i s in if ops.lt ops.zero diff then diff else ops.zero;
  duration_sec = sub_u32 i.current_tick s.drink_start_tick;
}

unfoldable pub stop_check : FloatOps → Inputs → Water → Water
unfolding mqtt_queue_send
stop_check ops i w =
    if has i.sensor_detected 1
    then record w { smart = record w.smart { smart_state = smart_run_stable } }
    else if expired w.smart.smart_timer_target i.current_tick
    then if ops.lt (ops.of_i32 1) (diff_weight ops i w.smart)
      then record w {
        smart = record w.smart { smart_state = smart_idle };
        tracker = tracker_waterintake_end (ops.to_u32 (diff_weight ops i w.smart)) w.tracker;
        board = mqtt_queue_send (message_drink (drink_packet ops i w.smart)) w.board;
      }
      else record w { smart = record w.smart { smart_state = smart_idle } }
    else w

-- `switch (smart_state)`.
abbrev pub smart_case : FloatOps → ℕ → Inputs → Water → SmartState → Water
smart_case ops splash_count i w smart_idle = idle i w
smart_case ops splash_count i w smart_run_verify = verify ops splash_count i w
smart_case ops splash_count i w smart_run_stable = stable i w
smart_case ops splash_count i w smart_stop_check = stop_check ops i w

unfoldable pub smart_switch : FloatOps → ℕ → Inputs → Water → Water
smart_switch ops splash_count i w = smart_case ops splash_count i w w.smart.smart_state

-- What the first two parts make of the state.
unfoldable pub accessed : FloatOps → Inputs → Water → Water
accessed ops i w =
    let r = access_check i (access_change ops i w.smart) w.board in
    record w { smart = r.0; board = r.1 }

-- A round; `splash_count` is a variable of the call, so each call counts from 0.
unfoldable pub smart_water : FloatOps → Inputs → Water → Water
smart_water ops i w = smart_switch ops 0 i (accessed ops i w)

-- The rounds of a list, the first one first.
unfoldable pub smart_waters : FloatOps → List Inputs → Water → Water
smart_waters ops [] w = w
smart_waters ops (i ∷ is) w = smart_waters ops is (smart_water ops i w)
