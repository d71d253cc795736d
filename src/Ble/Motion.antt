-- ===== src/Ble/Motion.antt =====
-- A transfer of motion points from a tracker (BLE_Receive_data, main/ble/ble_parse.c): a start
-- response, then packets of points until the announced number has arrived.
use water_dispenser.Base.{
  ℕ, ◌+◌, ◌≡◌, refl, Bool, List, [], ◌∷◌, arith, ◌==◌, if◌then◌else◌, length, inl, inr, Option,
  none, some, Option-cases,
}
use water_dispenser.Ble.{
  Client, BleCall, timer_start, timer_stop, timer_delete, gap_terminate, motion_msg,
  tracker_activity, tracker_diagnostics, tracker_health, setting_callback, ble_app_command, Ble,
  find_client, has_mac, get_conn_client_by_mac, motion_timer_set, restart_timer,
}
use water_dispenser.Ble.Receive.{non_saved, motion_start_request}
use water_dispenser.Ble.Store.{filled_buffer}

-- An activity message: the address, the points, the total, the announced number, the unsaved.
pub record Activity : Type 0 where
  pub mac : List ℕ
  pub points : List ℕ
  pub total_point : ℕ
  pub send_point : ℕ
  pub non_save_points : ℕ

-- The activity messages of a log, the latest first.
unfoldable pub activities : List BleCall → List Activity
activities [] = []
activities (timer_start h ∷ cs) = activities cs
activities (timer_stop h ∷ cs) = activities cs
activities (timer_delete h ∷ cs) = activities cs
activities (gap_terminate h ∷ cs) = activities cs
activities (motion_msg h c s ∷ cs) = activities cs
activities (tracker_activity mac pts total send non_save ∷ cs) =
    record {
      mac = mac;
      points = pts;
      total_point = total;
      send_point = send;
      non_save_points = non_save;
    }
    ∷ activities cs
activities (tracker_diagnostics mac p ∷ cs) = activities cs
activities (tracker_health mac p ∷ cs) = activities cs
activities (setting_callback p ∷ cs) = activities cs
activities (ble_app_command p ∷ cs) = activities cs

-- The start requests of a log.
unfoldable pub start_requests : List BleCall → ℕ
start_requests [] = 0
start_requests (motion_msg h c s ∷ cs) =
    (if c == motion_start_request then 1 else 0) + start_requests cs
start_requests (_ ∷ cs) = start_requests cs

-- Client `i` of address `mac` is in a transfer: `pts` have arrived of the `send` announced.
pub record Receiving (mac : List ℕ) (send total non_save : ℕ) (acts : List Activity) (reqs : ℕ)
    (pts : List ℕ) (b : Ble) : Type 0 where
  pub index : ℕ
  pub client : Client
  pub found : get_conn_client_by_mac (some mac) b ≡ some (index, client)
  pub buffer : client.data_buf ≡ some (filled_buffer send pts)
  pub count : client.input_count ≡ length pts
  pub announced : client.send_point ≡ send
  pub whole : client.total_point ≡ (if send == total then 0 else total)
  pub unsaved : non_saved client.start_res ≡ non_save
  pub acts_are : activities b.calls ≡ acts
  pub reqs_are : start_requests b.calls ≡ reqs

-- The timers do not touch the table, the activities and the requests.
pub motion_timer_set-kept :
    (mac : List ℕ) (state : Bool) (b : Ble)
    → ((motion_timer_set (some mac) state b).clients ≡ b.clients)
      × (activities (motion_timer_set (some mac) state b).calls ≡ activities b.calls)
      × (start_requests (motion_timer_set (some mac) state b).calls ≡ start_requests b.calls)
unfolding motion_timer_set activities start_requests
motion_timer_set-kept mac state b = elim (Option-cases (find_client (has_mac mac) b.clients 0)) [
  | inl absent ↦ rw (absent, motion_timer_set) (refl, refl, refl)
  | inr ((i, c), here) ↦ rw (here, motion_timer_set) (timers c.motion_timer)
]
  where
    timers :
        (t : Option ℕ)
        → ((restart_timer t state b).clients ≡ b.clients)
          × (activities (restart_timer t state b).calls ≡ activities b.calls)
          × (start_requests (restart_timer t state b).calls ≡ start_requests b.calls)
    timers none = (refl, refl, refl)
    timers (some h) = ground arith
