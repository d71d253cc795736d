-- ===== src/Ble.antt =====
-- The trackers that are connected over Bluetooth (main/ble/ble_task.c): the table of clients, with
-- the FreeRTOS timers of each. Timer handles and a fresh handle or NULL from xTimerCreate are
-- the caller's; the calls on timers and on the radio are logged, the latest first.
pub mod Transfer
pub mod Join
pub mod Receive
pub mod Table
pub mod Store
pub mod Motion
pub mod Deliver
pub mod Fail
use water_dispenser.Base.{
  ℕ, ◌+◌, ◌*◌, ◌%◌, Bool, true, false, ◌&&◌, not, Option, none, some, List, [], ◌∷◌, map, u8, u32,
  ◌==◌, leb, if◌then◌else◌, get_elem?, set, replicate, ltb,
}
use water_dispenser.Tracker.{same_bytes}

-- `Motion_Packet_t.health_data_res`.
pub record HealthData : Type 0 where
  pub uptime_sec : ℕ
  pub bat_level : ℕ
  pub bat_voltage : ℕ
  pub version : List ℕ
  pub target_rssi : ℕ
  pub bat_status : ℕ
  pub imu_err : ℕ
  pub ble_err : ℕ
  pub storage : ℕ
  pub reset_reason : ℕ
  pub reserved : ℕ

-- `Motion_Packet_t` by its event code.
pub data Packet : Type 0 where
  motion_start_response : (total_points send_points non_save_points : ℕ) → Packet
  motion_data : (seq : ℕ) → (mlc_data : List ℕ) → Packet
  health_data_response : HealthData → Packet
  lsm6_data_response : Packet
  time_request : Packet
  setting_request : List ℕ → Packet
  other_packet : List ℕ → Packet

-- `client_info_t`.
pub record Client : Type 0 where
  pub motion_timer : Option ℕ  -- xMotionTimer
  pub timer : Option ℕ  -- xtimer
  pub timer_count : ℕ
  pub first_delay_ms : ℕ
  pub send_point : ℕ
  pub total_point : ℕ
  pub input_count : ℕ
  pub start_res : Option Packet
  pub health_res : Option Packet
  pub mac_addr : List ℕ
  pub conn_handle : ℕ
  pub start_res_seq : ℕ
  pub is_connected : Bool
  pub data_buf : Option (List ℕ)  -- data

-- What the code asks of the radio, of the timers and of the other tasks.
pub data BleCall : Type 0 where
  timer_start : Option ℕ → BleCall
  timer_stop : Option ℕ → BleCall
  timer_delete : Option ℕ → BleCall
  gap_terminate : ℕ → BleCall
  motion_msg : (conn_handle cmd sub_cmd : ℕ) → BleCall
  tracker_activity : (mac points : List ℕ) → (total_point send_point non_save_points : ℕ) → BleCall
  tracker_diagnostics : List ℕ → Packet → BleCall
  tracker_health : List ℕ → Packet → BleCall
  setting_callback : Packet → BleCall
  ble_app_command : Packet → BleCall

pub record Ble : Type 0 where
  pub clients : List Client
  pub calls : List BleCall

abbrev pub max_connections : ℕ
max_connections = 5

abbrev pub conn_handle_none : ℕ
conn_handle_none = 65535

-- After memset.
abbrev pub empty_client : Client
empty_client = record {
  motion_timer = none;
  timer = none;
  timer_count = 0;
  first_delay_ms = 0;
  send_point = 0;
  total_point = 0;
  input_count = 0;
  start_res = none;
  health_res = none;
  mac_addr = replicate 6 0;
  conn_handle = 0;
  start_res_seq = 0;
  is_connected = false;
  data_buf = none;
}

abbrev pub no_clients : Ble
no_clients = record { clients = replicate max_connections empty_client; calls = [] }

abbrev pub ble_call : BleCall → Ble → Ble
ble_call c b = record b { calls = c ∷ b.calls }

-- The first client from index `i` on that passes a test: the loops that break.
unfoldable pub find_client : (Client → Bool) → List Client → ℕ → Option (ℕ × Client)
find_client p [] i = none
find_client p (c ∷ cs) i = let rest = find_client p cs (i + 1) in if p c then some (i, c) else rest

abbrev pub is_free : Client → Bool
is_free c = not c.is_connected

abbrev pub has_mac : List ℕ → Client → Bool
has_mac mac c = c.is_connected && same_bytes c.mac_addr mac

abbrev pub has_handle : ℕ → Client → Bool
has_handle handle c = c.is_connected && (c.conn_handle == handle)

abbrev pub put_client : ℕ → Client → Ble → Ble
put_client i c b = record b { clients = set b.clients i c }

-- `get_conn_client_by_mac`: the pointer is the index with the client it points at.
unfoldable pub get_conn_client_by_mac : Option (List ℕ) → Ble → Option (ℕ × Client)
get_conn_client_by_mac none b = none
get_conn_client_by_mac (some mac) b = find_client (has_mac mac) b.clients 0

unfoldable pub get_conn_handle_by_mac : Option (List ℕ) → Ble → ℕ
get_conn_handle_by_mac none b = conn_handle_none
get_conn_handle_by_mac (some mac) b = elim (find_client (has_mac mac) b.clients 0) [
  | none ↦ conn_handle_none
  | some (i, c) ↦ c.conn_handle
]

unfoldable pub get_handle : ℕ → Ble → ℕ
get_handle index b =
    if leb max_connections index
    then 0
    else elim (get_elem? b.clients index) [ none ↦ 0 | some c ↦ c.conn_handle ]

-- `add_client`, with the handles that xTimerCreate returns and the word of esp_random.
unfoldable pub add_client : ℕ → List ℕ → Option ℕ → Option ℕ → ℕ → Ble → Ble
add_client handle mac timer motion_timer random b = elim (find_client is_free b.clients 0) [
  | none ↦ b
  | some (i, c) ↦ ble_call (timer_start timer) (
      put_client i
        (record c {
          conn_handle = handle;
          mac_addr = mac;
          is_connected = true;
          timer = timer;
          motion_timer = motion_timer;
          first_delay_ms = random % 20 + 1;
        })
        b)
]

-- The calls that stop and delete the timers of a client.
abbrev pub drop_timers : Client → Ble → Ble
drop_timers c b = record b {
  calls =
      timer_delete c.motion_timer
      ∷ timer_stop c.motion_timer
      ∷ timer_delete c.timer
      ∷ timer_stop c.timer
      ∷ b.calls;
}

unfoldable pub remove_client : ℕ → Ble → Ble
remove_client handle b = elim (find_client (has_handle handle) b.clients 0) [
  | none ↦ b
  | some (i, c) ↦ drop_timers c (put_client i empty_client b)
]

-- `count_client` returns a `uint8_t`.
unfoldable pub connected : List Client → ℕ
connected [] = 0
connected (c ∷ cs) = if c.is_connected then u8 (connected cs + 1) else connected cs

unfoldable pub count_client : Ble → ℕ
count_client b = connected b.clients

-- `client_terminate`: the calls of each client in turn.
unfoldable pub terminate_calls : List Client → List BleCall → List BleCall
terminate_calls [] calls = calls
terminate_calls (c ∷ cs) calls = terminate_calls cs (
    if c.is_connected
    then timer_delete c.motion_timer
      ∷ timer_stop c.motion_timer
      ∷ timer_delete c.timer
      ∷ timer_stop c.timer
      ∷ gap_terminate c.conn_handle
      ∷ calls
    else calls)

abbrev pub terminated : Client → Client
terminated c = if c.is_connected then empty_client else c

unfoldable pub client_terminate : Ble → Ble
client_terminate b = record {
  clients = map terminated b.clients;
  calls = terminate_calls b.clients b.calls;
}

-- Stop the timer of a client, and start it anew or not.
abbrev pub restart_timer : Option ℕ → Bool → Ble → Ble
restart_timer none state b = b
restart_timer (some t) state b =
    let stopped = ble_call (timer_stop (some t)) b in
    if state then ble_call (timer_start (some t)) stopped else stopped

unfoldable pub motion_timer_set : Option (List ℕ) → Bool → Ble → Ble
motion_timer_set none state b = b
motion_timer_set (some mac) state b = elim (find_client (has_mac mac) b.clients 0) [
  | none ↦ b
  | some (i, c) ↦ restart_timer c.motion_timer state b
]

-- `Tracker_All_Send`: a message to every connected client, in the order of the table.
unfoldable pub all_send : ℕ → ℕ → List Client → List BleCall → List BleCall
all_send cmd sub_cmd [] calls = calls
all_send cmd sub_cmd (c ∷ cs) calls =
    all_send cmd sub_cmd cs
      (if c.is_connected then motion_msg c.conn_handle cmd sub_cmd ∷ calls else calls)

unfoldable pub tracker_all_send : ℕ → ℕ → Ble → Ble
tracker_all_send cmd sub_cmd b = record b { calls = all_send cmd sub_cmd b.clients b.calls }
