-- ===== src/Smart/Access.antt =====
-- The report of a sensor change that lasted (parts 1 and 2 of `Smart_Water`, main/opmode_task.c).
use water_dispenser.Base.{
  ℕ, ◌+◌, ◌≡◌, ◌∙◌, false, List, [], ◌∷◌, arith, u32, sub_u32, expired, ◌==◌, if◌then◌else◌,
}
use water_dispenser.Base.Register.{has}
use water_dispenser.Float.{FloatOps}
use water_dispenser.Board.{
  Board, Message, AccessPacket, message_access, message_drink, message_diagnostics, message_test,
  mqtt_queue_send, water_fault_disable, water_splashing_fault, report,
}
use water_dispenser.Smart.{
  SmartState, access_mqtt_verify_5s, Inputs, Water, access_change, access_check, idle, verify,
  stable, stop_check, smart_case, smart_switch, accessed, smart_water,
}
use water_dispenser.Smart.Edges.{on_states}

-- The access packets of a log of messages, the latest first.
unfoldable pub accesses : List Message → List AccessPacket
accesses [] = []
accesses (message_access p ∷ ms) = p ∷ accesses ms
accesses (message_drink p ∷ ms) = accesses ms
accesses (message_diagnostics s ∷ ms) = accesses ms
accesses (message_test n ∷ ms) = accesses ms

abbrev pub sent_accesses : Water → List AccessPacket
sent_accesses w = accesses w.board.outbox

-- The variables of the report, and what was sent.
pub record SameAccess (w v : Water) : Type 0 where
  pub packet : v.smart.access_packet ≡ w.smart.access_packet
  pub state : v.smart.access_mqtt_state ≡ w.smart.access_mqtt_state
  pub target : v.smart.access_timer_target ≡ w.smart.access_timer_target
  pub val : v.smart.target_sensor_val ≡ w.smart.target_sensor_val
  pub buf : v.smart.sensor_detected_buf ≡ w.smart.sensor_detected_buf
  pub sent : sent_accesses v ≡ sent_accesses w

water_fault_disable-accesses :
    (m : ℕ) (b : Board) → accesses (water_fault_disable m b).outbox ≡ accesses b.outbox
unfolding water_fault_disable report mqtt_queue_send accesses
water_fault_disable-accesses m b = ground arith

module _ (ops : FloatOps) (i : Inputs) (w : Water) where
  idle-SameAccess : SameAccess w (idle i w)
  unfolding idle
  idle-SameAccess = record {
    packet = ground arith;
    state = ground arith;
    target = ground arith;
    val = ground arith;
    buf = ground arith;
    sent = ground (arith, water_fault_disable-accesses water_splashing_fault w.board);
  }

  verify-SameAccess : SameAccess w (verify ops 0 i w)
  unfolding verify
  verify-SameAccess = record {
    packet = ground arith;
    state = ground arith;
    target = ground arith;
    val = ground arith;
    buf = ground arith;
    sent = ground arith;
  }

  stable-SameAccess : SameAccess w (stable i w)
  unfolding stable
  stable-SameAccess = record {
    packet = ground arith;
    state = ground arith;
    target = ground arith;
    val = ground arith;
    buf = ground arith;
    sent = ground arith;
  }

  stop_check-SameAccess : SameAccess w (stop_check ops i w)
  unfolding stop_check mqtt_queue_send accesses
  stop_check-SameAccess = record {
    packet = ground arith;
    state = ground arith;
    target = ground arith;
    val = ground arith;
    buf = ground arith;
    sent = ground arith;
  }

  smart_case-SameAccess : (s : SmartState) → SameAccess w (smart_case ops 0 i w s)
  smart_case-SameAccess =
      on_states (λ s. SameAccess w (smart_case ops 0 i w s)) idle-SameAccess verify-SameAccess
        stable-SameAccess stop_check-SameAccess

-- The smart state machine of a round leaves the report alone.
pub smart_water-SameAccess :
    (ops : FloatOps) (i : Inputs) (w : Water) → SameAccess (accessed ops i w) (smart_water ops i w)
unfolding smart_water smart_switch
smart_water-SameAccess ops i w =
    let x = accessed ops i w in smart_case-SameAccess ops i x x.smart.smart_state

-- The packet of a change from one sensor value to another.
abbrev pub change_packet : FloatOps → Inputs → ℕ → AccessPacket
change_packet ops i old = record {
  detect_flag = i.sensor_detected;
  start_weight = if has (sub_u32 old i.sensor_detected) 1 then ops.to_i32 i.access_weight else 0;
}

-- A change to `sensor` is being watched since tick `start`; `log` was sent so far.
pub record Watching (sensor start : ℕ) (p : AccessPacket) (log : List AccessPacket) (w : Water)
    : Type 0 where
  pub packet : w.smart.access_packet ≡ p
  pub state : w.smart.access_mqtt_state ≡ access_mqtt_verify_5s
  pub target : w.smart.access_timer_target ≡ u32 (start + 500)
  pub val : w.smart.target_sensor_val ≡ sensor
  pub buf : w.smart.sensor_detected_buf ≡ sensor
  pub sent : sent_accesses w ≡ log

-- A round that reads `sensor` at `elapsed` ticks after `start`.
pub record Reads (sensor start elapsed : ℕ) (i : Inputs) : Type 0 where
  pub sensor_read : i.sensor_detected ≡ sensor
  pub tick_read : i.current_tick ≡ u32 (start + elapsed)

pub watched :
    (sensor start : ℕ) (p : AccessPacket) (log : List AccessPacket) (w v : Water)
    → SameAccess w v
    → Watching sensor start p log w
    → Watching sensor start p log v
watched sensor start p log w v s h = record {
  packet = s.packet ∙ h.packet;
  state = s.state ∙ h.state;
  target = s.target ∙ h.target;
  val = s.val ∙ h.val;
  buf = s.buf ∙ h.buf;
  sent = s.sent ∙ h.sent;
}

module _ (ops : FloatOps) (i : Inputs) (w : Water) (start : ℕ)
    (tick : i.current_tick ≡ u32 start) where
  pub changed-Watching :
      (i.sensor_detected == w.smart.sensor_detected_buf) ≡ false
      → Watching i.sensor_detected start
          (change_packet ops i w.smart.sensor_detected_buf)
          (sent_accesses w)
          (accessed ops i w)
  unfolding accessed access_change access_check mqtt_queue_send
  changed-Watching ne =
      let early : expired (u32 (start + 500)) (u32 start) ≡ false = ground arith in
      rw (ne, tick)
        (record {
          packet = ground arith;
          state = ground arith;
          target = ground arith;
          val = ground arith;
          buf = ground arith;
          sent = ground arith;
        })
