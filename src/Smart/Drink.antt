-- ===== src/Smart/Drink.antt =====
-- What a round does to the trackers and to the drinks that were reported (`Smart_Water` of
-- main/opmode_task.c).
use water_dispenser.Base.{ℕ, ◌≡◌, Bool, true, false, not, ◌&&◌, List, [], ◌∷◌, arith, if◌then◌else◌}
use water_dispenser.Float.{FloatOps}
use water_dispenser.Board.{
  Board, Message, DrinkPacket, message_access, message_drink, message_diagnostics, message_test,
  mqtt_queue_send, water_fault_disable, water_splashing_fault, report,
}
use water_dispenser.Tracker.{tracker_waterintake_end}
use water_dispenser.Smart.{
  SmartState, smart_idle, smart_run_verify, smart_run_stable, smart_stop_check, Inputs, Water,
  access_check, idle, diff_weight, drink_packet, verify, stable, stop_check, accessed,
}
use water_dispenser.Smart.Edges.{is_here, is_due}

-- The drinks of a log of messages, the latest first.
unfoldable pub drinks : List Message → List DrinkPacket
drinks [] = []
drinks (message_access p ∷ ms) = drinks ms
drinks (message_drink p ∷ ms) = p ∷ drinks ms
drinks (message_diagnostics s ∷ ms) = drinks ms
drinks (message_test n ∷ ms) = drinks ms

abbrev pub sent_drinks : Water → List DrinkPacket
sent_drinks w = drinks w.board.outbox

abbrev pub is_stop_check : SmartState → Bool
is_stop_check smart_idle = false
is_stop_check smart_run_verify = false
is_stop_check smart_run_stable = false
is_stop_check smart_stop_check = true

-- The sensor has been off for three seconds after a drink, of more than a gram.
abbrev pub is_drink : FloatOps → Inputs → Water → Bool
is_drink ops i w =
    is_stop_check w.smart.smart_state
    && not (is_here i)
    && is_due i w
    && ops.lt (ops.of_i32 1) (diff_weight ops i w.smart)

-- A drink or not: what a round makes of the trackers and of the reported drinks.
pub record Books (ops : FloatOps) (drunk : Bool) (i : Inputs) (w v : Water) : Type 0 where
  pub tracker : v.tracker ≡ (
      if drunk
      then tracker_waterintake_end (ops.to_u32 (diff_weight ops i w.smart)) w.tracker
      else w.tracker)
  pub sent :
      sent_drinks v ≡ (if drunk then drink_packet ops i w.smart ∷ sent_drinks w else sent_drinks w)

water_fault_disable-drinks :
    (m : ℕ) (b : Board) → drinks (water_fault_disable m b).outbox ≡ drinks b.outbox
unfolding water_fault_disable report mqtt_queue_send drinks
water_fault_disable-drinks m b = ground arith

pub accessed-drinks :
    (ops : FloatOps) (i : Inputs) (w : Water) → sent_drinks (accessed ops i w) ≡ sent_drinks w
unfolding accessed access_check mqtt_queue_send drinks
accessed-drinks ops i w = ground arith

module _ (ops : FloatOps) (i : Inputs) (w : Water) where
  pub idle-Books : Books ops false i w (idle i w)
  unfolding idle
  idle-Books = record {
    tracker = ground arith;
    sent = ground (arith, water_fault_disable-drinks water_splashing_fault w.board);
  }

  pub verify-Books : Books ops false i w (verify ops 0 i w)
  unfolding verify
  verify-Books = record { tracker = ground arith; sent = ground arith }

  pub stable-Books : Books ops false i w (stable i w)
  unfolding stable
  stable-Books = record { tracker = ground arith; sent = ground arith }

  pub stop_check-Books :
      Books ops
        (not (is_here i) && is_due i w && ops.lt (ops.of_i32 1) (diff_weight ops i w.smart))
        i
        w
        (stop_check ops i w)
  unfolding stop_check mqtt_queue_send drinks
  stop_check-Books = record { tracker = ground arith; sent = ground arith }
