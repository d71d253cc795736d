-- ===== src/Ble/Receive.antt =====
-- A packet from a tracker (`BLE_Receive_data` of main/ble/ble_parse.c), and the client's timers
-- (`Tracker_Motion_send` and `Tracker_Motion_retry` of main/ble/ble_task.c).
use water_dispenser.Base.{
  ℕ, ◌+◌, Bool, true, false, ◌||◌, not, Option, none, some, List, [], ◌∷◌, ◌==◌, leb, if◌then◌else◌,
  set, replicate, ltb,
}
use water_dispenser.Ble.{
  HealthData, Packet, motion_start_response, motion_data, health_data_response, lsm6_data_response,
  time_request, setting_request, other_packet, Client, motion_msg, tracker_activity,
  tracker_diagnostics, tracker_health, setting_callback, ble_app_command, Ble, ble_call, put_client,
  get_conn_client_by_mac, get_conn_handle_by_mac, motion_timer_set,
}

abbrev pub motion_start_request : ℕ
motion_start_request = 32

abbrev pub motion_data_ack : ℕ
motion_data_ack = 33

abbrev pub health_data_request : ℕ
health_data_request = 18

abbrev pub time_response : ℕ
time_response = 23

-- MOTION_START_RESPONSE: the counts are kept, and a buffer of zeros is made where calloc has
-- memory (`mem`); `now` is esp_log_timestamp().
unfoldable pub start_response : Bool → ℕ → Packet → ℕ → ℕ → Client → Client
start_response mem now p total send c =
    let counted = record c {
      start_res = some p;
      total_point = if send == total then 0 else total;
      send_point = send;
      input_count = 0;
      data_buf = if mem then some (replicate send 0) else none;
    } in
    if mem then record counted { start_res_seq = now } else counted

-- `client->data[client->input_count] = byte; client->input_count++` while there is room.
unfoldable pub store : List ℕ → List ℕ → ℕ → ℕ → List ℕ × ℕ
store [] xs count send = (xs, count)
store (b ∷ bs) xs count send =
    let rest = store bs (set xs count b) (count + 1) send in
    if ltb count send then rest else (xs, count)

-- The points that were not saved, of the response that started the transfer.
abbrev pub non_saved : Option Packet → ℕ
non_saved (some (motion_start_response total send non_save)) = non_save
non_saved _ = 0

-- The transfer is over: line 516 to 520.
abbrev pub finished : Client → Client
finished c = record c { data_buf = none; total_point = 0; input_count = 0; send_point = 0 }

-- Line 522 to 524, after the counts were cleared.
abbrev pub acknowledge : List ℕ → ℕ → Client → Ble → Ble
acknowledge mac seq c b =
    let acked = ble_call (motion_msg (get_conn_handle_by_mac (some mac) b) motion_data_ack seq) b in
    if not (c.total_point == 0)
    then ble_call (motion_msg (get_conn_handle_by_mac (some mac) acked) motion_start_request 1)
        acked
    else acked

-- MOTION_DATA for the client c at index i, whose buffer is xs.
unfoldable pub data_packet : List ℕ → ℕ → List ℕ → ℕ → Client → List ℕ → Ble → Ble
data_packet mac seq mlc i c xs b =
    let stored = store mlc xs c.input_count c.send_point in
    let filled = record c { data_buf = some (stored.0); input_count = stored.1 } in
    let kept = put_client i filled b in
    if leb filled.send_point filled.input_count
    then acknowledge mac seq (finished filled) (
        put_client i (finished filled) (
          ble_call
            (tracker_activity mac (stored.0) filled.total_point filled.send_point
              (non_saved filled.start_res))
            (motion_timer_set (some mac) false kept)))
    else motion_timer_set (some mac) true kept

-- Without a buffer the points are dropped.
abbrev pub buffered_packet : List ℕ → ℕ → List ℕ → ℕ → Client → Option (List ℕ) → Ble → Ble
buffered_packet mac seq mlc i c none b = b
buffered_packet mac seq mlc i c (some xs) b = data_packet mac seq mlc i c xs b

-- The faults that are reported as diagnostics.
abbrev pub is_faulty : HealthData → Bool
is_faulty h =
    h.bat_status == 2
    || not (h.storage == 0)
    || not (h.ble_err == 0)
    || not (h.imu_err == 0)
    || not (h.reserved == 0)

abbrev pub health_calls : List ℕ → HealthData → Ble → Ble
health_calls mac h b =
    let diagnosed =
      if is_faulty h then ble_call (tracker_diagnostics mac (health_data_response h)) b else b in
    ble_call (tracker_health mac (health_data_response h)) diagnosed

-- The result is `none` where the code dereferences NULL.
unfoldable pub ble_receive_data : Bool → ℕ → List ℕ → Packet → Ble → Option Ble
ble_receive_data mem now mac (motion_start_response total send non_save) b =
    elim (get_conn_client_by_mac (some mac) b) [
      | none ↦ some b
      | some (i, c) ↦
          let p = motion_start_response total send non_save in
          let kept = put_client i (start_response mem now p total send c) b in
          some
            (if send == 0 then b else if mem then motion_timer_set (some mac) true kept else kept)
    ]
ble_receive_data mem now mac (motion_data seq mlc) b = elim (get_conn_client_by_mac (some mac) b) [
  | none ↦ some b
  | some (i, c) ↦ some (buffered_packet mac seq mlc i c c.data_buf b)
]
ble_receive_data mem now mac (health_data_response h) b =
    elim (get_conn_client_by_mac (some mac) b) [
      | none ↦ none
      | some (i, c) ↦ some (
          health_calls mac h (
            put_client i
              (record c { start_res_seq = now; health_res = some (health_data_response h) }) b))
    ]
ble_receive_data mem now mac lsm6_data_response b = some b
ble_receive_data mem now mac time_request b =
    some (ble_call (motion_msg (get_conn_handle_by_mac (some mac) b) time_response 0) b)
ble_receive_data mem now mac (setting_request bytes) b =
    some (ble_call (setting_callback (setting_request bytes)) b)
ble_receive_data mem now mac (other_packet bytes) b =
    some (ble_call (ble_app_command (other_packet bytes)) b)
