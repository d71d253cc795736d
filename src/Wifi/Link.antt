-- ===== src/Wifi/Link.antt =====
-- The connection to the access point (main/wifi/wifi_task.c): the handler of the driver's events with
-- its retries, the timer that tries again, Wifi_Disconnect and Wifi_Connect, and what the app is
-- told of a connection that it asked for (main/ble/ble_parse.c). Calls of the driver are logged, the
-- latest first. What happens during a wait of the code is a list of events.
pub mod Retry
pub mod Lamp
pub mod Forsaken
pub mod Judge
use water_dispenser.Base.{
  ℕ, ◌+◌, Bool, true, false, ◌||◌, not, Option, none, some, List, [], ◌∷◌, u32, lt_i32,
  if◌then◌else◌, take,
}
use water_dispenser.Board.{Board, led_bit_enable, led_bit_disable, pairing_bit}

-- The calls of the Wi-Fi driver and of the timer, and the text for the app.
pub data Call : Type 0 where
  esp_wifi_connect : Call
  esp_wifi_disconnect : Call
  esp_wifi_set_config : (ssid password : List ℕ) → Call
  esp_timer_start_once : ℕ → Call
  connect_ap_fail : Call

pub record Link : Type 0 where
  pub retry_num : ℕ  -- s_retry_num, an int
  pub allow_reconnect : Bool
  pub connected : Bool  -- WIFI_CONNECTED_BIT
  pub failed : Bool  -- WIFI_FAIL_BIT
  pub timer_active : Bool  -- s_wifi_retry_timer
  pub wifi_conn_enable : ℕ  -- of main/gpio/app_led.c
  pub board : Board
  pub calls : List Call

-- The events that the handler knows, and the end of the timer.
pub data Event : Type 0 where
  sta_start : Event
  sta_disconnected : Event
  sta_got_ip : Event
  retry_timer : Event

abbrev pub maximum_retry : ℕ
maximum_retry = 5

-- WIFI_RECONNECT_DELAY_US.
abbrev pub wifi_reconnect_delay_us : ℕ
wifi_reconnect_delay_us = 1800000000

abbrev pub call : Call → Link → Link
call c l = record l { calls = c ∷ l.calls }

abbrev pub give_up : Link → Link
give_up l =
    let failed = record l { failed = true } in
    if not l.timer_active
    then call (esp_timer_start_once wifi_reconnect_delay_us) (record failed { timer_active = true })
    else failed

abbrev pub retry : Link → Link
retry l =
    if l.allow_reconnect
    then (if lt_i32 l.retry_num maximum_retry
        then record (call esp_wifi_connect l) { retry_num = u32 (l.retry_num + 1) }
        else give_up l)
    else l

-- A timer that fires is not active any more.
unfoldable pub wifi_retry_timer_callback : Link → Link
wifi_retry_timer_callback l =
    let fired = record l { timer_active = false; retry_num = 0 } in
    if l.allow_reconnect then call esp_wifi_connect fired else fired

unfoldable pub wifi_event_handler : Event → Link → Link
unfolding wifi_retry_timer_callback
wifi_event_handler sta_start l = record l { board = led_bit_enable pairing_bit l.board }
wifi_event_handler sta_disconnected l =
    retry (record l { board = led_bit_enable pairing_bit l.board; connected = false })
wifi_event_handler sta_got_ip l = record l {
  retry_num = 0;
  board = led_bit_disable pairing_bit l.board;
  wifi_conn_enable = 100;
  connected = true;
}
wifi_event_handler retry_timer l = wifi_retry_timer_callback l

unfoldable pub events : List Event → Link → Link
events [] l = l
events (e ∷ es) l = events es (wifi_event_handler e l)

-- `known` tells whether esp_wifi_sta_get_ap_info finds an access point; `pause` is what happens in
-- the 500 ms after the disconnection.
unfoldable pub wifi_disconnect : Bool → List Event → Link → Link
wifi_disconnect known pause l =
    if known
    then events pause (call esp_wifi_disconnect (record l { allow_reconnect = false }))
    else l

-- xEventGroupWaitBits: it ends at the first bit, or when nothing more happens in time.
unfoldable pub wait_bits : List Event → Link → Link
wait_bits [] l = l
wait_bits (e ∷ es) l =
    let rest = wait_bits es (wifi_event_handler e l) in if l.connected || l.failed then l else rest

-- The driver's fields have 32 and 64 bytes, and the last is kept 0.
abbrev pub set_config : (ssid password : List ℕ) → Call
set_config ssid password = esp_wifi_set_config (take 31 ssid) (take 63 password)

-- The bits of an earlier connection are cleared, and the new one begins.
abbrev pub begin : Link → Link
begin l = call esp_wifi_connect (record l { connected = false; failed = false; retry_num = 0 })

-- After the wait.
abbrev pub finish : Link → Link
finish l = if l.connected || l.failed then l else call esp_wifi_disconnect l

-- `accepted` tells whether the driver takes the settings.
unfoldable pub wifi_connect :
    (known accepted : Bool) → (ssid password : List ℕ) → (pause waiting : List Event) → Link → Link
wifi_connect known accepted ssid password pause waiting l =
    let ready = call (set_config ssid password) (wifi_disconnect known pause l) in
    if not accepted then call connect_ap_fail ready else finish (wait_bits waiting (begin ready))

-- The answer to the app.
pub data Answer : Type 0 where
  result_ok : Answer
  auth_fail : Answer
  timeout : Answer

-- The settings in main/flash/app_config_flash.c and the connection.
pub record Provision : Type 0 where
  pub conn_ssid : List ℕ
  pub conn_password : List ℕ
  pub wifi_save_flag : Bool
  pub answers : List Answer
  pub link : Link

abbrev pub judge : Link → Answer
judge l = if l.connected then result_ok else if l.failed then auth_fail else timeout

-- The part of `wifi_prov` of BLE_APP_Command that runs once the network's name is read.
unfoldable pub wifi_prov :
    (known accepted : Bool)
    → (ssid password : List ℕ) → (pause waiting : List Event) → Provision
    → Provision
wifi_prov known accepted ssid password pause waiting p =
    let link = wifi_connect known accepted ssid password pause waiting p.link in
    record {
      conn_ssid = take 31 ssid;
      conn_password = take 63 password;
      wifi_save_flag = if link.connected then true else p.wifi_save_flag;
      answers = judge link ∷ p.answers;
      link = link;
    }
